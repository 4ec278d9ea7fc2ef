-- ===== src/Dhcpc/Requests4/Runs.antt =====
-- Runs of the DHCPv4 client table: a start, and requests one after another.
use rdk_wanmanager.Common.{
  ℕ, suc, ◌≡◌, ◌≤◌, ◌∙◌, refl, sym, subst, false, Option, none, some, List, ◌==◌, if◌then◌else◌,
  arith,
}
use native.Mathlib.Decide.{ℕ_discrete}
use rdk_wanmanager.Dhcpc.Links.{Link, get_by_ins_num}
use rdk_wanmanager.Dhcpc.Links.Order.{get_by_ins_num-All}
use rdk_wanmanager.Dhcpc.Links.Map.{get_by_ins_num-number}
use rdk_wanmanager.Dhcpc.Data4.{Client4}
use rdk_wanmanager.Dhcpc.Backend4.{Hal, Scanned}
use rdk_wanmanager.Dhcpc.Registry4.{Blank4}
use rdk_wanmanager.Dhcpc.Client4.{Store4, clients4, client_link, client_add_entry}
use rdk_wanmanager.Dhcpc.Options4.{sent_table, req_table}
use rdk_wanmanager.Dhcpc.Start4.{initialize4}
use rdk_wanmanager.Dhcpc.Start4.Valid.{Saved, image_of, IsStarted, initialize4-IsStarted}
use rdk_wanmanager.Dhcpc.Requests4.{
  Request4, adds_client, on_client, on_sent, on_req, follow, call_client, call_sent, call_req,
  request4,
}
use rdk_wanmanager.Dhcpc.Requests4.Valid.{IsStore, HasRooms}
use rdk_wanmanager.Dhcpc.Requests4.Keeps.{request4-IsStore}
use rdk_wanmanager.Dhcpc.Requests4.Isolated.{request4-SameClients}
use rdk_wanmanager.Dhcpc.Requests4.Added.{client_add_entry_lem, new_client}
use rdk_wanmanager.Dhcpc.Requests4.Backend.{
  HasBackendClient, call_client_kept, call_sent_kept, call_req_kept,
}

not_one : (m : ℕ) (x y : Option (Link Client4)) → 1 ≤ m → (if suc m == 1 then x else y) ≡ y
not_one m x y e = ground arith

module _ (h : Hal) (g : List Scanned) where
  -- The stores that are reached: after a start without a registry or with one that a well-formed store has written,
  -- and after each request while no counter is at its end.
  pub data Run4 : Store4 → Type 0 where
    starts :
        (s : Store4) (b : Blank4) (saved : Option Store4)
        → Saved saved
        → s ≡ initialize4 h b (image_of saved)
        → Run4 s
    asks : (s r : Store4) (q : Request4) → Run4 s → HasRooms s → r ≡ request4 h g q s → Run4 r

  followed :
      {A : Type 0} (f : A → Store4 → Store4) (o : Option A) (s : Store4)
      → ((x : A) → o ≡ some x → HasBackendClient (f x s))
      → HasBackendClient s
      → HasBackendClient (follow f o s)
  followed f none s k v = v
  followed f (some x) s k v = k x refl

  -- A request for the client 1 finds the client that is there.
  at_one :
      (f : Link Client4 → Store4 → Store4) (s : Store4) (v : HasBackendClient s)
      → ((p : Link Client4)
          → client_link s 1 ≡ some p
          → p.is_new ≡ false
          → HasBackendClient (f p s))
      → HasBackendClient (follow f (client_link s 1) s)
  at_one f s v k =
      subst (λ o. HasBackendClient (follow f o s)) (sym v.found) (k v.entry v.found v.committed)

  added :
      (m : Option Client4) (s : Store4)
      → IsStore s
      → HasRooms s
      → HasBackendClient s
      → HasBackendClient (client_add_entry m s).0
  unfolding client_add_entry
  added none s i r v = v
  added (some blank) s i r v =
      let m : ℕ = (clients4 s).max_instance in
      let k : v.entry.instance_number ≤ m =
        get_by_ins_num-All (λ y. y.instance_number ≤ m) 1 (clients4 s).links i.table.counted
          v.found in
      let n : v.entry.instance_number ≡ 1 =
        get_by_ins_num-number 1 (clients4 s).links v.entry v.found in
      record {
        entry = v.entry;
        found =
            (client_add_entry_lem blank s i r.table).2 1
            ∙ not_one m (some (new_client (suc m) blank)) (client_link s 1) (omega (arith, n, k))
            ∙ v.found;
        committed = v.committed;
      }

  -- What a request for another client does not touch.
  apart :
      (q : Request4) (s : Store4) (c : ℕ)
      → client_link (request4 h g q s) 1 ≡ client_link s 1
      → HasBackendClient s
      → HasBackendClient (request4 h g q s)
  apart q s c e v = record { entry = v.entry; found = e ∙ v.found; committed = v.committed }

  pub request4-HasBackendClient :
      (q : Request4) (s : Store4)
      → IsStore s
      → HasRooms s
      → HasBackendClient s
      → HasBackendClient (request4 h g q s)
  unfolding request4
  request4-HasBackendClient (adds_client m) s i r v = added m s i r v
  request4-HasBackendClient (on_client c call) s i r v = elim (ℕ_discrete c 1) [
    | yes e ↦
        subst (λ c. HasBackendClient (request4 h g (on_client c call) s)) (sym e)
          (at_one (call_client h call) s v (λ p f k. call_client_kept s p f k h call))
    | no d ↦
        apart (on_client c call) s c (request4-SameClients h g (on_client c call) s c i refl 1 d) v
  ]
  request4-HasBackendClient (on_sent c o call) s i r v = elim (ℕ_discrete c 1) [
    | yes e ↦
        subst (λ c. HasBackendClient (request4 h g (on_sent c o call) s)) (sym e)
          (at_one _ s v (λ p f k.
            followed (call_sent g call p) (get_by_ins_num (sent_table p).links o) s
              (λ x u. call_sent_kept s p f k g call x) v))
    | no d ↦
        apart (on_sent c o call) s c (request4-SameClients h g (on_sent c o call) s c i refl 1 d) v
  ]
  request4-HasBackendClient (on_req c o call) s i r v = elim (ℕ_discrete c 1) [
    | yes e ↦
        subst (λ c. HasBackendClient (request4 h g (on_req c o call) s)) (sym e)
          (at_one _ s v (λ p f k.
            followed (call_req call p) (get_by_ins_num (req_table p).links o) s
              (λ x u. call_req_kept s p f k call x) v))
    | no d ↦
        apart (on_req c o call) s c (request4-SameClients h g (on_req c o call) s c i refl 1 d) v
  ]

-- In every store that is reached while no counter is at its end (before each request the counters of the client table
-- and of the tables of all clients are below the greatest ULONG, so that none wraps) the tables are well formed: in the
-- client table and in both tables of each client the instance numbers are positive, ascend strictly and are at most the
-- counter. The client of the backend is there under the number 1 and committed: no request deletes it.
pub run4-IsStore :
    (h : Hal) (g : List Scanned) (s : Store4) → Run4 h g s → IsStore s × HasBackendClient s
run4-IsStore h g s (starts _ b saved v e) =
    let w : IsStarted h (clients4 (initialize4 h b (image_of saved))) =
      initialize4-IsStarted h b saved v in
    subst (λ s. IsStore s × HasBackendClient s) (sym e)
      (
        record { table = w.table; options = w.options },
        record { entry = w.entry; found = w.found; committed = w.committed },
      )
run4-IsStore h g r (asks s _ q run room e) =
    let (i, v) = run4-IsStore h g s run in
    subst (λ r. IsStore r × HasBackendClient r) (sym e)
      (request4-IsStore h g q s i room, request4-HasBackendClient h g q s i room v)
