-- ===== src/Dhcpc/Requests4/Added.antt =====
-- A client that is added to the DHCPv4 client table, and the check of an alias.
use rdk_wanmanager.Common.{
  ℕ, suc, ◌≡◌, sym, ap, subst, true, refl, some, List, [], ◌∷◌, ◌==◌, if◌then◌else◌, arith,
}
use rdk_wanmanager.Dhcpc.Links.{Link, get_by_ins_num, push_by_ins_num}
use rdk_wanmanager.Dhcpc.Links.Order.{Above, get_by_ins_num-AtMost}
use rdk_wanmanager.Dhcpc.Links.Map.{get-push, get-Above, length-push}
use rdk_wanmanager.Dhcpc.Table.{add_entry, next_number}
use rdk_wanmanager.Dhcpc.Table.Valid.{HasRoom, next_number_room}
use rdk_wanmanager.Dhcpc.Table.Alias.{AliasCases, validate_alias-AliasCases}
use rdk_wanmanager.Dhcpc.Data4.{Client4, client4, client4_default}
use rdk_wanmanager.Dhcpc.Client4.{
  Store4, clients4, client_link, client_get_entry_count, client_add_entry, client_validate,
}
use rdk_wanmanager.Dhcpc.Requests4.Valid.{IsStore}
use rdk_wanmanager.Dhcpc.Requests4.Backend.{HasBackendClient}

-- A new entry: the defaults over the memory `blank`, with the number and the alias of AddEntry.
abbrev pub new_client : ℕ → Client4 → Link Client4
new_client n blank = record {
  instance_number = n;
  is_new = true;
  content = client4.named n (client4_default blank);
}

-- Adding a client gives the handle of the counter's next number, the count grows by one, the new client is there under
-- that handle, not yet committed, and every other client is as before; provided that the tables are well formed and
-- the counter is not at its end.
pub client_add_entry_lem :
    (blank : Client4) (s : Store4)
    → IsStore s
    → HasRoom (clients4 s)
    → let n : ℕ = suc (clients4 s).max_instance in
      let (r, handle) = client_add_entry (some blank) s in
      (handle ≡ some n)
      × (client_get_entry_count r ≡ suc (client_get_entry_count s))
      × ((j : ℕ)
          → client_link r j ≡ (if n == j then some (new_client n blank) else client_link s j))
unfolding client_add_entry add_entry client_get_entry_count
client_add_entry_lem blank s v room =
    let m : ℕ = (clients4 s).max_instance in
    let e : next_number m ≡ suc m = next_number_room m room in
    (
      ap some e,
      length-push (clients4 s).links (new_client (next_number m) blank),
      λ j.
          subst
            (λ n.
              get_by_ins_num (push_by_ins_num (clients4 s).links (new_client n blank)) j
              ≡ (if suc m == j then some (new_client (suc m) blank) else client_link s j))
            (sym e)
            (get-push (clients4 s).links (new_client (suc m) blank) j
              (get_by_ins_num-AtMost m (suc m) (clients4 s).links v.table.counted (omega arith))),
    )

known-push :
    {A : Type 0} (lo j : ℕ) (ys : List (Link A)) (x y : Link A)
    → Above lo ys
    → get_by_ins_num ys x.instance_number ≡ some y
    → get_by_ins_num (push_by_ins_num ys x) j ≡ get_by_ins_num ys j
unfolding get_by_ins_num push_by_ins_num
known-push lo j [] x y a e = cc
known-push lo j (z ∷ zs) x y a e = ground (
  arith,
  known-push z.instance_number j zs x y a.1,
  get-Above z.instance_number x.instance_number zs a.1,
  get-push zs x j,
)

-- Adding a client when the counter is the greatest ULONG: it goes on at 1, which is the number of the client of the
-- backend; the count grows by one, but a search of the list for any number finds the same as before, so the new client
-- is not found under its own; provided that the tables are well formed and the client of the backend is there.
pub client_add_entry_wraps :
    (blank : Client4) (s : Store4)
    → IsStore s
    → HasBackendClient s
    → (clients4 s).max_instance ≡ 4294967295
    → let (r, handle) = client_add_entry (some blank) s in
      (handle ≡ some 1)
      × (client_get_entry_count r ≡ suc (client_get_entry_count s))
      × ((j : ℕ) → client_link r j ≡ client_link s j)
unfolding client_add_entry add_entry client_get_entry_count next_number
client_add_entry_wraps blank s v b full = rw full (
  refl,
  length-push (clients4 s).links (new_client 1 blank),
  λ j. known-push 0 j (clients4 s).links (new_client 1 blank) b.entry v.table.ordered b.found,
)

-- The alias of a client is checked: it is refused exactly if an alias has been saved since the last commit or rollback
-- and another client has the same alias; provided that the tables are well formed.
pub client_validate_lem :
    (x : Link Client4) (s : Store4)
    → IsStore s
    → AliasCases client4 x (clients4 s) (client_validate x s)
unfolding client_validate
client_validate_lem x s v = validate_alias-AliasCases client4 x (clients4 s) v.table.ordered
