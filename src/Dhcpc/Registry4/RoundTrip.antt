-- ===== src/Dhcpc/Registry4/RoundTrip.antt =====
-- Writing the registry and reading it again.
use rdk_wanmanager.Common.{
  ℕ, suc, ◌≡◌, refl, ap, ◌∙◌, sym, true, false, none, some, List, [], ◌∷◌, ◌++◌, arith,
  if◌then◌else◌, ◌==◌,
}
use rdk_wanmanager.Dhcpc.Links.{Link, push_by_ins_num}
use rdk_wanmanager.Dhcpc.Links.Order.{Above, All}
use rdk_wanmanager.Dhcpc.Links.Back.{Below, Below-append, Below-le, pushed_at_end}
use mathlib.Core.List.{append_assoc, append-nil}
use rdk_wanmanager.Dhcpc.Table.{Kind, Table, empty_table}
use rdk_wanmanager.Dhcpc.Table.Valid.{IsTable}
use rdk_wanmanager.Dhcpc.Data4.{
  Client4, SentOption4, ReqOption4, client4, sent_option4, req_option4,
}
use rdk_wanmanager.Dhcpc.Client4.{Store4, clients4}
use rdk_wanmanager.Dhcpc.Requests4.Valid.{IsClient, IsStore}
use rdk_wanmanager.Dhcpc.Registry4.{
  is_nil, save_options, save_table, is_unsaved, save_client4, save_clients4, save_dhcpv4,
  load_options, load_table, Blank4, load_client4, load_clients4, load_dhcpv4,
}

module _ {A : Type 0} (k : Kind A) (blank : A) where
  -- An entry as it comes back: new memory with its number and its alias.
  unfoldable pub renewed : Link A → Link A
  renewed y = record y {
    content = k.with_alias (k.alias y.content) (k.named y.instance_number (k.set_default blank));
  }

  -- The links that the backend has not got, in their order.
  unfoldable pub renewed_links : List (Link A) → List (Link A)
  renewed_links [] = []
  renewed_links (y ∷ ys) = if y.is_new then renewed y ∷ renewed_links ys else renewed_links ys

  unfoldable pub renewed_table : Table A → Table A
  renewed_table t = if is_nil t.links then empty_table else record {
    links = renewed_links t.links;
    max_instance = t.max_instance;
    alias_backup = [];
  }

  load-save_options :
      (lo : ℕ) (ys acc : List (Link A))
      → Above lo ys
      → Below (suc lo) acc
      → load_options k blank (save_options k ys) acc ≡ acc ++ renewed_links ys
  unfolding save_options load_options renewed_links renewed
  load-save_options lo [] acc a b = sym (append-nil acc)
  load-save_options lo (y ∷ ys) acc a b =
      elim y.is_new
        as (λ n.
          load_options k blank
            (if n
              then record {
                instance_number = y.instance_number;
                alias = k.alias y.content;
                is_new = some n;
              }
                ∷ save_options k ys
              else save_options k ys)
            acc
          ≡ acc
            ++ (if n
                then record (renewed y) { is_new = n } ∷ renewed_links ys
                else renewed_links ys)) [
                  | true ↦
                      let x : Link A = record (renewed y) { is_new = true } in
                      ap (load_options k blank (save_options k ys)) (pushed_at_end lo acc x b a.0)
                      ∙ load-save_options y.instance_number ys (acc ++ (x ∷ [])) a.1 (
                          Below-append (suc y.instance_number) acc x
                            (Below-le (suc lo) (suc y.instance_number) acc (omega (arith, a.0)) b)
                            (omega arith))
                      ∙ append_assoc acc (x ∷ []) (renewed_links ys)
                  | false ↦
                      load-save_options y.instance_number ys acc a.1
                        (Below-le (suc lo) (suc y.instance_number) acc (omega (arith, a.0)) b)
                ]

  pub load-save_table :
      (t : Table A) → IsTable t → load_table k blank (save_table k t) ≡ renewed_table t
  unfolding load_table save_table renewed_table
  load-save_table t v =
      elim (is_nil t.links)
        as (λ n.
          load_table k blank (
            if n
            then none
            else some (record {
              next_instance_number = some t.max_instance;
              options = save_options k t.links;
            }))
          ≡ (if n then empty_table else record {
            links = renewed_links t.links;
            max_instance = t.max_instance;
            alias_backup = [];
          })) [
            | true ↦ refl
            | false ↦
                ap (λ l. record { links = l; max_instance = t.max_instance; alias_backup = [] })
                  (load-save_options 0 t.links [] v.ordered tt)
          ]

pair_eq : {A B : Type 0} {a a' : A} {b b' : B} → a ≡ a' → b ≡ b' → ◌≡◌ {A = A × B} (a, b) (a', b')
pair_eq p q = λ i. (p i, q i)

module _ (b : Blank4) where
  -- A client as it comes back: new memory with its number, its alias and its options.
  unfoldable pub renewed_client : Link Client4 → Link Client4
  renewed_client y = record y {
    content =
        record (client4.with_alias y.content.cfg.alias
          (client4.named y.instance_number (client4.set_default b.client))) {
            req_option = renewed_table req_option4 b.req y.content.req_option;
            send_option = renewed_table sent_option4 b.sent y.content.send_option;
          };
  }

  unfoldable pub renewed_clients : List (Link Client4) → List (Link Client4)
  renewed_clients [] = []
  renewed_clients (y ∷ ys) =
      if is_unsaved y then renewed_clients ys else renewed_client y ∷ renewed_clients ys

  load-save_client4 :
      (y : Link Client4) → IsClient y.content → load_client4 b (save_client4 y) ≡ renewed_client y
  unfolding load_client4 save_client4 renewed_client
  load-save_client4 y v =
      ap
        (λ (r : Table ReqOption4 × Table SentOption4). record y {
          content =
              record (client4.with_alias y.content.cfg.alias
                (client4.named y.instance_number (client4.set_default b.client))) {
                  req_option = r.0;
                  send_option = r.1;
                };
        })
        (pair_eq (load-save_table req_option4 b.req y.content.req_option v.1)
          (load-save_table sent_option4 b.sent y.content.send_option v.0))

  load-save_clients4 :
      (lo : ℕ) (ys acc : List (Link Client4))
      → Above lo ys
      → All (λ y. IsClient y.content) ys
      → Below (suc lo) acc
      → load_clients4 b (save_clients4 ys) acc ≡ acc ++ renewed_clients ys
  unfolding save_clients4 load_clients4 renewed_clients renewed_client
  load-save_clients4 lo [] acc a i h = sym (append-nil acc)
  load-save_clients4 lo (y ∷ ys) acc a i h =
      elim (is_unsaved y)
        as (λ n.
          load_clients4 b (if n then save_clients4 ys else save_client4 y ∷ save_clients4 ys) acc
          ≡ acc ++ (if n then renewed_clients ys else renewed_client y ∷ renewed_clients ys)) [
            | true ↦
                load-save_clients4 y.instance_number ys acc a.1 i.1
                  (Below-le (suc lo) (suc y.instance_number) acc (omega (arith, a.0)) h)
            | false ↦
                let x : Link Client4 = renewed_client y in
                ap
                  (λ l.
                    load_clients4 b (save_clients4 ys)
                      (if y.instance_number == 0 then acc else push_by_ins_num acc l))
                  (load-save_client4 y i.0)
                ∙ ap (load_clients4 b (save_clients4 ys)) (pushed_at_end lo acc x h a.0)
                ∙ load-save_clients4 y.instance_number ys (acc ++ (x ∷ [])) a.1 i.1 (
                    Below-append (suc y.instance_number) acc x
                      (Below-le (suc lo) (suc y.instance_number) acc (omega (arith, a.0)) h)
                      (omega arith))
                ∙ append_assoc acc (x ∷ []) (renewed_clients ys)
          ]

  -- Reading what was written gives back, in their order, the clients that were written, each with its number, its
  -- alias and whether the backend has got it, with its options that the backend has not got and with the counters of
  -- its tables that have a link; the counter of the client table is kept too.
  pub load-save_dhcpv4 :
      (s : Store4)
      → IsStore s
      → load_dhcpv4 b (some (save_dhcpv4 s.dhcpv4)) ≡ record {
        client = record {
          links = renewed_clients (clients4 s).links;
          max_instance = (clients4 s).max_instance;
          alias_backup = [];
        };
      }
  unfolding load_dhcpv4 save_dhcpv4
  load-save_dhcpv4 s v =
      ap
        (λ l. record {
          client = record {
            links = l;
            max_instance = (clients4 s).max_instance;
            alias_backup = [];
          };
        })
        (load-save_clients4 0 (clients4 s).links [] v.table.ordered v.options tt)
