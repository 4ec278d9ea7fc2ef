-- ===== src/Dhcpc/Registry4/Renewed.antt =====
-- The tables that come back from the registry are well formed.
use rdk_wanmanager.Common.{
  ℕ, ◌<◌, ◌≤◌, sym, subst, Bool, true, false, List, [], ◌∷◌, if◌then◌else◌, some, arith,
}
use rdk_wanmanager.Dhcpc.Links.{Link}
use rdk_wanmanager.Dhcpc.Links.Order.{Above, All, AtMost, Above-le}
use rdk_wanmanager.Dhcpc.Table.{Kind, Table, empty_table}
use rdk_wanmanager.Dhcpc.Table.Valid.{IsTable}
use rdk_wanmanager.Dhcpc.Data4.{Client4, sent_option4, req_option4}
use rdk_wanmanager.Dhcpc.Registry4.{Blank4, is_nil, is_unsaved, save_dhcpv4, load_dhcpv4}
use rdk_wanmanager.Dhcpc.Registry4.RoundTrip.{
  renewed, renewed_links, renewed_table, renewed_client, renewed_clients, load-save_dhcpv4,
}
use rdk_wanmanager.Dhcpc.Client4.{Store4, clients4}
use rdk_wanmanager.Dhcpc.Requests4.Valid.{IsClient, IsStore, empty-IsTable}

module _ {A : Type 0} where
  -- Leaving out the head of a list in order, or not.
  kept_Above :
      (n : Bool) (lo : ℕ) (x : Link A) (xs : List (Link A))
      → lo < x.instance_number
      → Above x.instance_number xs
      → Above lo (if n then x ∷ xs else xs)
  kept_Above true lo x xs h a = (h, a)
  kept_Above false lo x xs h a = Above-le lo x.instance_number xs (omega (arith, h)) a

  kept_All :
      (n : Bool) (P : Link A → Type 0) (x : Link A) (xs : List (Link A))
      → P x
      → All P xs
      → All P (if n then x ∷ xs else xs)
  kept_All true P x xs h a = (h, a)
  kept_All false P x xs h a = a

  skipped_Above :
      (n : Bool) (lo : ℕ) (x : Link A) (xs : List (Link A))
      → lo < x.instance_number
      → Above x.instance_number xs
      → Above lo (if n then xs else x ∷ xs)
  skipped_Above true lo x xs h a = kept_Above false lo x xs h a
  skipped_Above false lo x xs h a = kept_Above true lo x xs h a

  skipped_All :
      (n : Bool) (P : Link A → Type 0) (x : Link A) (xs : List (Link A))
      → P x
      → All P xs
      → All P (if n then xs else x ∷ xs)
  skipped_All true P x xs h a = a
  skipped_All false P x xs h a = (h, a)

  either_IsTable : (n : Bool) (t u : Table A) → IsTable t → IsTable u → IsTable (if n then t else u)
  either_IsTable true t u i j = i
  either_IsTable false t u i j = j

module _ {A : Type 0} (k : Kind A) (blank : A) where
  renewed_links-Above :
      (lo : ℕ) (ys : List (Link A)) → Above lo ys → Above lo (renewed_links k blank ys)
  unfolding renewed_links renewed
  renewed_links-Above lo [] a = tt
  renewed_links-Above lo (y ∷ ys) a =
      kept_Above y.is_new lo (renewed k blank y) (renewed_links k blank ys) a.0
        (renewed_links-Above y.instance_number ys a.1)

  renewed_links-AtMost :
      (m : ℕ) (ys : List (Link A)) → AtMost m ys → AtMost m (renewed_links k blank ys)
  unfolding renewed_links renewed
  renewed_links-AtMost m [] a = tt
  renewed_links-AtMost m (y ∷ ys) a =
      kept_All y.is_new (λ y. y.instance_number ≤ m) (renewed k blank y) (renewed_links k blank ys)
        a.0 (renewed_links-AtMost m ys a.1)

  renewed_table-IsTable : (t : Table A) → IsTable t → IsTable (renewed_table k blank t)
  unfolding renewed_table
  renewed_table-IsTable t v = either_IsTable (is_nil t.links) empty_table _ empty-IsTable (record {
    ordered = renewed_links-Above 0 t.links v.ordered;
    counted = renewed_links-AtMost t.max_instance t.links v.counted;
  })

module _ (b : Blank4) where
  renewed_clients-Above :
      (lo : ℕ) (ys : List (Link Client4)) → Above lo ys → Above lo (renewed_clients b ys)
  unfolding renewed_clients renewed_client
  renewed_clients-Above lo [] a = tt
  renewed_clients-Above lo (y ∷ ys) a =
      skipped_Above (is_unsaved y) lo (renewed_client b y) (renewed_clients b ys) a.0
        (renewed_clients-Above y.instance_number ys a.1)

  renewed_clients-All :
      (P Q : Link Client4 → Type 0)
      → ((y : Link Client4) → P y → Q (renewed_client b y))
      → (ys : List (Link Client4)) → All P ys
      → All Q (renewed_clients b ys)
  unfolding renewed_clients
  renewed_clients-All P Q h [] a = tt
  renewed_clients-All P Q h (y ∷ ys) a =
      skipped_All (is_unsaved y) Q (renewed_client b y) (renewed_clients b ys) (h y a.0)
        (renewed_clients-All P Q h ys a.1)

  renewed_client-IsClient :
      (y : Link Client4) → IsClient y.content → IsClient (renewed_client b y).content
  unfolding renewed_client
  renewed_client-IsClient y c = (
    renewed_table-IsTable sent_option4 b.sent y.content.send_option c.0,
    renewed_table-IsTable req_option4 b.req y.content.req_option c.1,
  )

  renewed_client-number :
      (m : ℕ) (y : Link Client4) → y.instance_number ≤ m → (renewed_client b y).instance_number ≤ m
  unfolding renewed_client
  renewed_client-number m y h = h

  -- The store that comes back.
  pub load-save-IsStore :
      (s : Store4)
      → IsStore s
      → IsStore (record s { dhcpv4 = load_dhcpv4 b (some (save_dhcpv4 s.dhcpv4)) })
  load-save-IsStore s v =
      subst (λ d. IsStore (record s { dhcpv4 = d })) (sym (load-save_dhcpv4 b s v))
        (record {
          table = record {
            ordered = renewed_clients-Above 0 (clients4 s).links v.table.ordered;
            counted =
                renewed_clients-All (λ y. y.instance_number ≤ (clients4 s).max_instance)
                  (λ y. y.instance_number ≤ (clients4 s).max_instance)
                  (renewed_client-number (clients4 s).max_instance) (clients4 s).links
                  v.table.counted;
          };
          options =
              renewed_clients-All (λ y. IsClient y.content) (λ y. IsClient y.content)
                renewed_client-IsClient (clients4 s).links v.options;
        })
