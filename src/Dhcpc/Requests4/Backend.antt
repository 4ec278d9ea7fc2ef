-- ===== src/Dhcpc/Requests4/Backend.antt =====
-- The client of the backend under the requests to the DHCPv4 client table.
use rdk_wanmanager.Common.{
  ◌≡◌, refl, Bool, true, false, Option, none, some, List, [], if◌then◌else◌,
}
use rdk_wanmanager.Dml.{CString}
use rdk_wanmanager.Dhcpc.Links.{Link, write_link}
use rdk_wanmanager.Dhcpc.Links.Map.{get-write_self, get_by_ins_num-number}
use rdk_wanmanager.Dhcpc.Table.{
  Table, set_alias, commit_old, rollback, del_entry, restore_alias, add_entry,
}
use rdk_wanmanager.Dhcpc.Data4.{
  Client4, SentOption4, ReqOption4, client4, client4_default, sent_option4, req_option4,
}
use rdk_wanmanager.Dhcpc.Backend4.{Hal, Scanned}
use rdk_wanmanager.Dhcpc.Client4.{
  Store4, with_clients4, clients4, write_client, client_link, client_del_entry, client_deleted,
  ClientBool, client_set_bool, ClientString, client_set_string, client_commit, client_rollback,
  fetch4,
}
use rdk_wanmanager.Dhcpc.Options4.{
  sent_table, sent_option_add_entry, sent_option_del_entry, sent_deleted, SentField,
  sent_option_set, sent_option_commit, sent_option_rollback, req_table, req_option_add_entry,
  req_option_del_entry, req_deleted, ReqField, req_option_set, req_option_commit,
  req_option_rollback,
}
use rdk_wanmanager.Dhcpc.Requests4.{ClientCall, SentCall, ReqCall, call_client, call_sent, call_req}

-- The client with the number 1 is there, and the backend has it.
pub record HasBackendClient (s : Store4) : Type 0 where
  pub entry : Link Client4
  pub found : client_link s 1 ≡ some entry
  pub committed : entry.is_new ≡ false

module _ (s : Store4) (p : Link Client4) (e : client_link s 1 ≡ some p)
    (old : p.is_new ≡ false) where
  rewritten_to :
      (f : Link Client4 → Client4) (b : CString)
      → HasBackendClient (
          with_clients4 s (record (clients4 s) {
            links =
                write_link (clients4 s).links p.instance_number (λ y. record y { content = f y });
            alias_backup = b;
          }))
  rewritten_to f b = record {
    entry = record p { content = f p };
    found =
        get-write_self (λ y. record y { content = f y }) (λ y. refl) 1 p.instance_number
          (clients4 s).links p e (get_by_ins_num-number 1 (clients4 s).links p e);
    committed = old;
  }

  written : (f : Client4 → Client4) → HasBackendClient (write_client p f s)
  written f = rewritten_to (λ y. f y.content) (clients4 s).alias_backup

  same : HasBackendClient s
  same = record { entry = p; found = e; committed = old }

  -- The backend does not delete.
  not_deleted :
      (b : Bool) (u : Table Client4 × Bool)
      → b ≡ false
      → HasBackendClient (client_deleted s (if b then u else (clients4 s, false))).0
  unfolding client_deleted
  not_deleted true u k = cc
  not_deleted false u k = same

  either_kept :
      (b : Bool) (u w : Store4 × Bool)
      → HasBackendClient u.0
      → HasBackendClient w.0
      → HasBackendClient (if b then u else w).0
  either_kept true u w i j = i
  either_kept false u w i j = j

  old_kept :
      (b : Bool) (u w : Store4 × Bool)
      → b ≡ false
      → HasBackendClient w.0
      → HasBackendClient (if b then u else w).0
  old_kept true u w k j = cc
  old_kept false u w k j = j

  set_bool_kept : (f : ClientBool) (b : Bool) → HasBackendClient (client_set_bool f b p s).0
  unfolding client_set_bool
  set_bool_kept ClientBool.enable b = written _
  set_bool_kept ClientBool.renewal b = same
  set_bool_kept ClientBool.unknown b = same

  set_string_kept :
      (f : ClientString) (a : CString) → HasBackendClient (client_set_string f a p s).0
  unfolding client_set_string set_alias
  set_string_kept ClientString.alias a =
      rewritten_to (λ y. client4.with_alias a y.content) p.content.cfg.alias
  set_string_kept ClientString.boot_file_name a = written _
  set_string_kept ClientString.interface a = written _
  set_string_kept ClientString.unknown a = same

  adds_sent_kept : (m : Option SentOption4) → HasBackendClient (sent_option_add_entry m p s).0
  unfolding sent_option_add_entry
  adds_sent_kept none = same
  adds_sent_kept (some blank) =
      let w =
        written (λ c. record c { send_option = add_entry sent_option4 blank (sent_table p) }) in
      record { entry = w.entry; found = w.found; committed = w.committed }

  adds_req_kept : (m : Option ReqOption4) → HasBackendClient (req_option_add_entry m p s).0
  unfolding req_option_add_entry
  adds_req_kept none = same
  adds_req_kept (some blank) =
      let w = written (λ c. record c { req_option = add_entry req_option4 blank (req_table p) }) in
      record { entry = w.entry; found = w.found; committed = w.committed }

  pub call_client_kept : (h : Hal) (call : ClientCall) → HasBackendClient (call_client h call p s)
  unfolding call_client client_del_entry del_entry client_commit client_rollback commit_old rollback
  call_client_kept h ClientCall.deletes = not_deleted p.is_new _ old
  call_client_kept h ClientCall.commits =
      old_kept p.is_new _ _ old (rewritten_to (λ y. fetch4 h y.content) [])
  call_client_kept h ClientCall.rolls_back =
      rewritten_to
        (λ y.
          let c : Client4 = restore_alias client4 (clients4 s).alias_backup y.content in
          if y.is_new then client4_default c else fetch4 h c)
        []
  call_client_kept h (ClientCall.sets_bool f b) = set_bool_kept f b
  call_client_kept h (ClientCall.sets_string f a) = set_string_kept f a
  call_client_kept h (ClientCall.adds_sent m) = adds_sent_kept m
  call_client_kept h (ClientCall.adds_req m) = adds_req_kept m

  sent_deleted_kept : (r : Table SentOption4 × Bool) → HasBackendClient (sent_deleted p s r).0
  unfolding sent_deleted
  sent_deleted_kept (t, true) =
      let w = written (λ c. record c { send_option = t }) in
      record { entry = w.entry; found = w.found; committed = w.committed }
  sent_deleted_kept (t, false) = same

  sent_set_kept :
      (f : SentField) (x : Link SentOption4) → HasBackendClient (sent_option_set f x p s).0
  unfolding sent_option_set
  sent_set_kept (SentField.enable b) x = written _
  sent_set_kept (SentField.tag n) x = written _
  sent_set_kept (SentField.value a) x = written _
  sent_set_kept (SentField.alias a) x = written _
  sent_set_kept SentField.unknown x = same

  pub call_sent_kept :
      (g : List Scanned) (call : SentCall) (x : Link SentOption4)
      → HasBackendClient (call_sent g call p x s)
  unfolding call_sent sent_option_del_entry sent_option_commit sent_option_rollback
  call_sent_kept g SentCall.deletes x = sent_deleted_kept _
  call_sent_kept g SentCall.commits x = either_kept x.is_new _ _ (written _) (written _)
  call_sent_kept g SentCall.rolls_back x = written _
  call_sent_kept g (SentCall.sets f) x = sent_set_kept f x

  req_deleted_kept : (r : Table ReqOption4 × Bool) → HasBackendClient (req_deleted p s r).0
  unfolding req_deleted
  req_deleted_kept (t, true) =
      let w = written (λ c. record c { req_option = t }) in
      record { entry = w.entry; found = w.found; committed = w.committed }
  req_deleted_kept (t, false) = same

  req_set_kept : (f : ReqField) (x : Link ReqOption4) → HasBackendClient (req_option_set f x p s).0
  unfolding req_option_set
  req_set_kept (ReqField.enable b) x = written _
  req_set_kept (ReqField.order n) x = written _
  req_set_kept (ReqField.tag n) x = written _
  req_set_kept (ReqField.alias a) x = written _
  req_set_kept ReqField.unknown x = same

  pub call_req_kept :
      (call : ReqCall) (x : Link ReqOption4) → HasBackendClient (call_req call p x s)
  unfolding call_req req_option_del_entry req_option_commit req_option_rollback
  call_req_kept ReqCall.deletes x = req_deleted_kept _
  call_req_kept ReqCall.commits x = either_kept x.is_new _ _ (written _) (written _)
  call_req_kept ReqCall.rolls_back x = written _
  call_req_kept (ReqCall.sets f) x = req_set_kept f x
