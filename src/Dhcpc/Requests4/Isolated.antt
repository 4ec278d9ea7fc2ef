-- ===== src/Dhcpc/Requests4/Isolated.antt =====
-- The clients that a request to the DHCPv4 client table is not about.
use rdk_wanmanager.Common.{
  ℕ, ◌≡◌, ◌≢◌, refl, Bool, true, false, Option, none, some, List, if◌then◌else◌, subst,
}
use rdk_wanmanager.Dml.{CString}
use rdk_wanmanager.Dhcpc.Links.{Link, get_by_ins_num}
use rdk_wanmanager.Dhcpc.Links.Map.{get_by_ins_num-number}
use rdk_wanmanager.Dhcpc.Table.{Table, del_entry}
use rdk_wanmanager.Dhcpc.Table.Others.{
  SameBut, write-SameBut, del_entry-SameBut, set_alias-SameBut, commit_new-SameBut,
  commit_old-SameBut, rollback-SameBut,
}
use rdk_wanmanager.Dhcpc.Data4.{Client4, SentOption4, ReqOption4, client4}
use rdk_wanmanager.Dhcpc.Backend4.{Hal, Scanned}
use rdk_wanmanager.Dhcpc.Client4.{
  Store4, clients4, write_client, client_link, client_del_entry, client_deleted, ClientBool,
  client_set_bool, ClientString, client_set_string, client_commit, client_rollback, fetch4,
}
use rdk_wanmanager.Dhcpc.Options4.{
  sent_table, sent_option_add_entry, sent_option_del_entry, sent_deleted, SentField,
  sent_option_set, sent_option_commit, sent_option_rollback, req_table, req_option_add_entry,
  req_option_del_entry, req_deleted, ReqField, req_option_set, req_option_commit,
  req_option_rollback,
}
use rdk_wanmanager.Dhcpc.Requests4.{
  ClientCall, SentCall, ReqCall, Request4, adds_client, on_client, on_sent, on_req, follow,
  call_client, call_sent, call_req, request4,
}
use rdk_wanmanager.Dhcpc.Requests4.Valid.{IsStore}

-- The clients other than `n` are the same.
abbrev pub SameClients : ℕ → Store4 → Store4 → Type 0
SameClients n s r = SameBut n (clients4 s) (clients4 r)

module _ (s : Store4) (v : IsStore s) (p : Link Client4) where
  written : (f : Client4 → Client4) → SameClients p.instance_number s (write_client p f s)
  written f =
      write-SameBut (λ y. record y { content = f y.content }) (λ y. refl) p.instance_number
        (clients4 s) (clients4 s).alias_backup

  either-SameClients :
      (b : Bool) (x y : Store4 × Bool)
      → SameClients p.instance_number s x.0
      → SameClients p.instance_number s y.0
      → SameClients p.instance_number s (if b then x else y).0
  either-SameClients true x y i j = i
  either-SameClients false x y i j = j

  deleted-SameClients :
      (r : Table Client4 × Bool)
      → SameBut p.instance_number (clients4 s) r.0
      → SameClients p.instance_number s (client_deleted s r).0
  unfolding client_deleted
  deleted-SameClients (t, true) h = h
  deleted-SameClients (t, false) h = λ j n. refl

  set_bool-SameClients :
      (f : ClientBool) (b : Bool) → SameClients p.instance_number s (client_set_bool f b p s).0
  unfolding client_set_bool
  set_bool-SameClients ClientBool.enable b = written _
  set_bool-SameClients ClientBool.renewal b = λ j n. refl
  set_bool-SameClients ClientBool.unknown b = λ j n. refl

  set_string-SameClients :
      (f : ClientString) (t : CString)
      → SameClients p.instance_number s (client_set_string f t p s).0
  unfolding client_set_string
  set_string-SameClients ClientString.alias t = set_alias-SameBut client4 p (clients4 s) t
  set_string-SameClients ClientString.boot_file_name t = written _
  set_string-SameClients ClientString.interface t = written _
  set_string-SameClients ClientString.unknown t = λ j n. refl

  adds_sent-SameClients :
      (m : Option SentOption4) → SameClients p.instance_number s (sent_option_add_entry m p s).0
  unfolding sent_option_add_entry
  adds_sent-SameClients none = λ j n. refl
  adds_sent-SameClients (some blank) = written _

  adds_req-SameClients :
      (m : Option ReqOption4) → SameClients p.instance_number s (req_option_add_entry m p s).0
  unfolding req_option_add_entry
  adds_req-SameClients none = λ j n. refl
  adds_req-SameClients (some blank) = written _

  call_client-SameClients :
      (h : Hal) (call : ClientCall) → SameClients p.instance_number s (call_client h call p s)
  unfolding call_client client_del_entry client_commit client_rollback
  call_client-SameClients h ClientCall.deletes =
      deleted-SameClients (del_entry false p (clients4 s))
        (del_entry-SameBut false p (clients4 s) v.table.ordered)
  call_client-SameClients h ClientCall.commits =
      either-SameClients p.is_new _ _ (commit_new-SameBut client4 p (clients4 s) true)
        (commit_old-SameBut client4 p (clients4 s) (fetch4 h))
  call_client-SameClients h ClientCall.rolls_back =
      rollback-SameBut client4 p (clients4 s) (fetch4 h)
  call_client-SameClients h (ClientCall.sets_bool f b) = set_bool-SameClients f b
  call_client-SameClients h (ClientCall.sets_string f t) = set_string-SameClients f t
  call_client-SameClients h (ClientCall.adds_sent m) = adds_sent-SameClients m
  call_client-SameClients h (ClientCall.adds_req m) = adds_req-SameClients m

  sent_deleted-SameClients :
      (r : Table SentOption4 × Bool) → SameClients p.instance_number s (sent_deleted p s r).0
  unfolding sent_deleted
  sent_deleted-SameClients (t, true) = written _
  sent_deleted-SameClients (t, false) = λ j n. refl

  sent_set-SameClients :
      (f : SentField) (x : Link SentOption4)
      → SameClients p.instance_number s (sent_option_set f x p s).0
  unfolding sent_option_set
  sent_set-SameClients (SentField.enable b) x = written _
  sent_set-SameClients (SentField.tag n) x = written _
  sent_set-SameClients (SentField.value t) x = written _
  sent_set-SameClients (SentField.alias t) x = written _
  sent_set-SameClients SentField.unknown x = λ j n. refl

  call_sent-SameClients :
      (g : List Scanned) (call : SentCall) (x : Link SentOption4)
      → SameClients p.instance_number s (call_sent g call p x s)
  unfolding call_sent sent_option_del_entry sent_option_commit sent_option_rollback
  call_sent-SameClients g SentCall.deletes x = sent_deleted-SameClients _
  call_sent-SameClients g SentCall.commits x =
      either-SameClients x.is_new _ _ (written _) (written _)
  call_sent-SameClients g SentCall.rolls_back x = written _
  call_sent-SameClients g (SentCall.sets f) x = sent_set-SameClients f x

  req_deleted-SameClients :
      (r : Table ReqOption4 × Bool) → SameClients p.instance_number s (req_deleted p s r).0
  unfolding req_deleted
  req_deleted-SameClients (t, true) = written _
  req_deleted-SameClients (t, false) = λ j n. refl

  req_set-SameClients :
      (f : ReqField) (x : Link ReqOption4)
      → SameClients p.instance_number s (req_option_set f x p s).0
  unfolding req_option_set
  req_set-SameClients (ReqField.enable b) x = written _
  req_set-SameClients (ReqField.order n) x = written _
  req_set-SameClients (ReqField.tag n) x = written _
  req_set-SameClients (ReqField.alias t) x = written _
  req_set-SameClients ReqField.unknown x = λ j n. refl

  call_req-SameClients :
      (call : ReqCall) (x : Link ReqOption4) → SameClients p.instance_number s (call_req call p x s)
  unfolding call_req req_option_del_entry req_option_commit req_option_rollback
  call_req-SameClients ReqCall.deletes x = req_deleted-SameClients _
  call_req-SameClients ReqCall.commits x = either-SameClients x.is_new _ _ (written _) (written _)
  call_req-SameClients ReqCall.rolls_back x = written _
  call_req-SameClients (ReqCall.sets f) x = req_set-SameClients f x

-- The client that a request is about.
abbrev pub About : Request4 → ℕ → Type 0
About (adds_client m) n = ⊥
About (on_client c call) n = c ≡ n
About (on_sent c o call) n = c ≡ n
About (on_req c o call) n = c ≡ n

followed :
    {A : Type 0} (f : A → Store4 → Store4) (o : Option A) (n : ℕ) (s : Store4)
    → ((x : A) → o ≡ some x → SameClients n s (f x s))
    → SameClients n s (follow f o s)
followed f none n s h = λ j d. refl
followed f (some x) n s h = h x refl

-- A request about one client, or about an option of it, leaves every other client as it is, with its configuration,
-- its state and its options, provided that the tables are well formed.
pub request4-SameClients :
    (h : Hal) (g : List Scanned) (r : Request4) (s : Store4) (n : ℕ)
    → IsStore s
    → About r n
    → (j : ℕ) → n ≢ j
    → client_link (request4 h g r s) j ≡ client_link s j
unfolding request4
request4-SameClients h g (adds_client m) s n v a = elim a [ ]
request4-SameClients h g (on_client c call) s n v a =
    subst (λ n. SameClients n s (request4 h g (on_client c call) s)) a
      (followed (call_client h call) (client_link s c) c s (λ p e.
        subst (λ n. SameClients n s (call_client h call p s))
          (get_by_ins_num-number c (clients4 s).links p e) (call_client-SameClients s v p h call)))
request4-SameClients h g (on_sent c o call) s n v a =
    subst (λ n. SameClients n s (request4 h g (on_sent c o call) s)) a
      (followed _ (client_link s c) c s (λ p e.
        followed (call_sent g call p) (get_by_ins_num (sent_table p).links o) c s (λ x f.
          subst (λ n. SameClients n s (call_sent g call p x s))
            (get_by_ins_num-number c (clients4 s).links p e)
            (call_sent-SameClients s v p g call x))))
request4-SameClients h g (on_req c o call) s n v a =
    subst (λ n. SameClients n s (request4 h g (on_req c o call) s)) a
      (followed _ (client_link s c) c s (λ p e.
        followed (call_req call p) (get_by_ins_num (req_table p).links o) c s (λ x f.
          subst (λ n. SameClients n s (call_req call p x s))
            (get_by_ins_num-number c (clients4 s).links p e) (call_req-SameClients s v p call x))))
