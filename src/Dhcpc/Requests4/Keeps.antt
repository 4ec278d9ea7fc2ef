-- ===== src/Dhcpc/Requests4/Keeps.antt =====
-- Runs of requests to the DHCPv4 client table.
use rdk_wanmanager.Common.{◌≡◌, refl, Bool, true, false, Option, none, some, List}
use rdk_wanmanager.Dhcpc.Links.{Link, get_by_ins_num}
use rdk_wanmanager.Dhcpc.Links.Order.{get_by_ins_num-All}
use rdk_wanmanager.Dhcpc.Table.{Table, del_entry}
use rdk_wanmanager.Dhcpc.Table.Valid.{
  IsTable, HasRoom, add_entry-IsTable, del_entry-IsTable, set_alias-IsTable, commit_new-IsTable,
  commit_old-IsTable, rollback-IsTable,
}
use rdk_wanmanager.Dhcpc.Data4.{Client4, SentOption4, ReqOption4, sent_option4, req_option4}
use rdk_wanmanager.Dhcpc.Backend4.{Hal, Scanned}
use rdk_wanmanager.Dhcpc.Client4.{Store4, clients4, client_link}
use rdk_wanmanager.Dhcpc.Options4.{
  sent_table, sent_option_add_entry, sent_option_del_entry, sent_deleted, SentField,
  sent_option_set, sent_option_commit, sent_option_rollback, req_table, req_option_add_entry,
  req_option_del_entry, req_deleted, ReqField, req_option_set, req_option_commit,
  req_option_rollback,
}
use rdk_wanmanager.Dhcpc.Requests4.{
  ClientCall, SentCall, ReqCall, Request4, adds_client, on_client, on_sent, on_req, follow,
  call_client, call_sent, call_req, request4,
}
use rdk_wanmanager.Dhcpc.Requests4.Valid.{
  either-IsStore, IsClient, ClientHasRoom, IsStore, HasRooms, write_sent-IsStore, write_req-IsStore,
  write_entry-IsTable, client_add_entry-IsStore, client_del_entry-IsStore, client_set_bool-IsStore,
  client_set_string-IsStore, client_commit-IsStore, client_rollback-IsStore,
}

module _ (s : Store4) (v : IsStore s) (p : Link Client4) (c : IsClient p.content) where
  sent_option_add_entry-IsStore :
      (m : Option SentOption4) → HasRoom (sent_table p) → IsStore (sent_option_add_entry m p s).0
  unfolding sent_option_add_entry
  sent_option_add_entry-IsStore none r = v
  sent_option_add_entry-IsStore (some blank) r =
      let i =
        write_sent-IsStore p _ s (add_entry-IsTable sent_option4 blank (sent_table p) r c.0) v in
      record { table = i.table; options = i.options }

  sent_deleted-IsStore :
      (r : Table SentOption4 × Bool) → IsTable r.0 → IsStore (sent_deleted p s r).0
  unfolding sent_deleted
  sent_deleted-IsStore (t, true) i =
      let j = write_sent-IsStore p t s i v in record { table = j.table; options = j.options }
  sent_deleted-IsStore (t, false) i = v

  sent_option_set-IsStore :
      (f : SentField) (x : Link SentOption4) → IsStore (sent_option_set f x p s).0
  unfolding sent_option_set
  sent_option_set-IsStore (SentField.enable b) x =
      write_sent-IsStore p _ s (write_entry-IsTable x _ (sent_table p) c.0) v
  sent_option_set-IsStore (SentField.tag n) x =
      write_sent-IsStore p _ s (write_entry-IsTable x _ (sent_table p) c.0) v
  sent_option_set-IsStore (SentField.value t) x =
      write_sent-IsStore p _ s (write_entry-IsTable x _ (sent_table p) c.0) v
  sent_option_set-IsStore (SentField.alias t) x =
      write_sent-IsStore p _ s (set_alias-IsTable sent_option4 t x (sent_table p) c.0) v
  sent_option_set-IsStore SentField.unknown x = v

  sent_option_commit-IsStore :
      (g : List Scanned) (x : Link SentOption4) → IsStore (sent_option_commit g x p s).0
  unfolding sent_option_commit
  sent_option_commit-IsStore g x =
      either-IsStore x.is_new _ _
        (write_sent-IsStore p _ s (commit_new-IsTable sent_option4 false x (sent_table p) c.0) v)
        (write_sent-IsStore p _ s (commit_old-IsTable sent_option4 _ x (sent_table p) c.0) v)

  pub call_sent-IsStore :
      (g : List Scanned) (call : SentCall) (x : Link SentOption4) → IsStore (call_sent g call p x s)
  unfolding call_sent sent_option_del_entry sent_option_rollback
  call_sent-IsStore g SentCall.deletes x =
      sent_deleted-IsStore (del_entry false x (sent_table p))
        (del_entry-IsTable false x (sent_table p) c.0)
  call_sent-IsStore g SentCall.commits x = sent_option_commit-IsStore g x
  call_sent-IsStore g SentCall.rolls_back x =
      write_sent-IsStore p _ s (rollback-IsTable sent_option4 _ x (sent_table p) c.0) v
  call_sent-IsStore g (SentCall.sets f) x = sent_option_set-IsStore f x

  req_option_add_entry-IsStore :
      (m : Option ReqOption4) → HasRoom (req_table p) → IsStore (req_option_add_entry m p s).0
  unfolding req_option_add_entry
  req_option_add_entry-IsStore none r = v
  req_option_add_entry-IsStore (some blank) r =
      let i = write_req-IsStore p _ s (add_entry-IsTable req_option4 blank (req_table p) r c.1) v in
      record { table = i.table; options = i.options }

  req_deleted-IsStore : (r : Table ReqOption4 × Bool) → IsTable r.0 → IsStore (req_deleted p s r).0
  unfolding req_deleted
  req_deleted-IsStore (t, true) i =
      let j = write_req-IsStore p t s i v in record { table = j.table; options = j.options }
  req_deleted-IsStore (t, false) i = v

  req_option_set-IsStore : (f : ReqField) (x : Link ReqOption4) → IsStore (req_option_set f x p s).0
  unfolding req_option_set
  req_option_set-IsStore (ReqField.enable b) x =
      write_req-IsStore p _ s (write_entry-IsTable x _ (req_table p) c.1) v
  req_option_set-IsStore (ReqField.order n) x =
      write_req-IsStore p _ s (write_entry-IsTable x _ (req_table p) c.1) v
  req_option_set-IsStore (ReqField.tag n) x =
      write_req-IsStore p _ s (write_entry-IsTable x _ (req_table p) c.1) v
  req_option_set-IsStore (ReqField.alias t) x =
      write_req-IsStore p _ s (set_alias-IsTable req_option4 t x (req_table p) c.1) v
  req_option_set-IsStore ReqField.unknown x = v

  req_option_commit-IsStore : (x : Link ReqOption4) → IsStore (req_option_commit x p s).0
  unfolding req_option_commit
  req_option_commit-IsStore x =
      either-IsStore x.is_new _ _
        (write_req-IsStore p _ s (commit_new-IsTable req_option4 false x (req_table p) c.1) v)
        (write_req-IsStore p _ s (commit_old-IsTable req_option4 _ x (req_table p) c.1) v)

  pub call_req-IsStore : (call : ReqCall) (x : Link ReqOption4) → IsStore (call_req call p x s)
  unfolding call_req req_option_del_entry req_option_rollback
  call_req-IsStore ReqCall.deletes x =
      req_deleted-IsStore (del_entry false x (req_table p))
        (del_entry-IsTable false x (req_table p) c.1)
  call_req-IsStore ReqCall.commits x = req_option_commit-IsStore x
  call_req-IsStore ReqCall.rolls_back x =
      write_req-IsStore p _ s (rollback-IsTable req_option4 _ x (req_table p) c.1) v
  call_req-IsStore (ReqCall.sets f) x = req_option_set-IsStore f x

  pub call_client-IsStore :
      (h : Hal) (call : ClientCall) → ClientHasRoom p.content → IsStore (call_client h call p s)
  unfolding call_client
  call_client-IsStore h ClientCall.deletes r = client_del_entry-IsStore s v p
  call_client-IsStore h ClientCall.commits r = client_commit-IsStore s v h p
  call_client-IsStore h ClientCall.rolls_back r = client_rollback-IsStore s v h p
  call_client-IsStore h (ClientCall.sets_bool f b) r = client_set_bool-IsStore s v f b p
  call_client-IsStore h (ClientCall.sets_string f t) r = client_set_string-IsStore s v f t p
  call_client-IsStore h (ClientCall.adds_sent m) r = sent_option_add_entry-IsStore m r.0
  call_client-IsStore h (ClientCall.adds_req m) r = req_option_add_entry-IsStore m r.1

follow-IsStore :
    {A : Type 0} (f : A → Store4 → Store4) (o : Option A) (s : Store4)
    → ((x : A) → o ≡ some x → IsStore (f x s))
    → IsStore s
    → IsStore (follow f o s)
follow-IsStore f none s h v = v
follow-IsStore f (some x) s h v = h x refl

-- A request keeps the tables well formed: in the client table and in both tables of each client the instance numbers
-- are positive, ascend strictly and are at most the counter; provided that no counter is at its end.
pub request4-IsStore :
    (h : Hal) (g : List Scanned) (r : Request4) (s : Store4)
    → IsStore s
    → HasRooms s
    → IsStore (request4 h g r s)
unfolding request4
request4-IsStore h g (adds_client m) s v room = client_add_entry-IsStore s v m room.table
request4-IsStore h g (on_client c call) s v room =
    follow-IsStore (call_client h call) (client_link s c) s
      (λ p e.
        call_client-IsStore s v p
          (get_by_ins_num-All (λ y. IsClient y.content) c (clients4 s).links v.options e) h call
          (get_by_ins_num-All (λ y. ClientHasRoom y.content) c (clients4 s).links room.options e))
      v
request4-IsStore h g (on_sent c o call) s v room =
    follow-IsStore _ (client_link s c) s
      (λ p e.
        follow-IsStore (call_sent g call p) (get_by_ins_num (sent_table p).links o) s
          (λ x f.
            call_sent-IsStore s v p
              (get_by_ins_num-All (λ y. IsClient y.content) c (clients4 s).links v.options e) g call
              x)
          v)
      v
request4-IsStore h g (on_req c o call) s v room =
    follow-IsStore _ (client_link s c) s
      (λ p e.
        follow-IsStore (call_req call p) (get_by_ins_num (req_table p).links o) s
          (λ x f.
            call_req-IsStore s v p
              (get_by_ins_num-All (λ y. IsClient y.content) c (clients4 s).links v.options e) call
              x)
          v)
      v
