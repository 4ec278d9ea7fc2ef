-- ===== src/Dhcpc/Requests4.antt =====
-- A request to the DHCPv4 client table and what it makes of the store: a call of one of the functions of
-- source/TR-181/middle_layer_src/wanmgr_dml_dhcpv4.c that change it. A handle is that of a link that is
-- there; a call with another one is not modelled, and changes nothing here.
pub mod Valid
pub mod Keeps
pub mod Isolated
pub mod Added
pub mod Transaction
pub mod Backend
pub mod Runs
use rdk_wanmanager.Common.{ℕ, Bool, Option, none, some, List}
use rdk_wanmanager.Dml.{CString}
use rdk_wanmanager.Dhcpc.Links.{Link, get_by_ins_num}
use rdk_wanmanager.Dhcpc.Data4.{Client4, SentOption4, ReqOption4}
use rdk_wanmanager.Dhcpc.Backend4.{Hal, Scanned}
use rdk_wanmanager.Dhcpc.Client4.{
  Store4, client_link, client_add_entry, client_del_entry, ClientBool, client_set_bool,
  ClientString, client_set_string, client_commit, client_rollback,
}
use rdk_wanmanager.Dhcpc.Options4.{
  sent_table, sent_option_add_entry, sent_option_del_entry, SentField, sent_option_set,
  sent_option_commit, sent_option_rollback, req_table, req_option_add_entry, req_option_del_entry,
  ReqField, req_option_set, req_option_commit, req_option_rollback,
}

-- A call on one client.
pub data ClientCall : Type 0 where
  deletes commits rolls_back : ClientCall
  sets_bool : ClientBool → Bool → ClientCall
  sets_string : ClientString → CString → ClientCall
  adds_sent : Option SentOption4 → ClientCall
  adds_req : Option ReqOption4 → ClientCall

-- A call on one option of a client.
pub data SentCall : Type 0 where
  deletes commits rolls_back : SentCall
  sets : SentField → SentCall

pub data ReqCall : Type 0 where
  deletes commits rolls_back : ReqCall
  sets : ReqField → ReqCall

pub data Request4 : Type 0 where
  adds_client : Option Client4 → Request4
  on_client : ℕ → ClientCall → Request4
  on_sent : ℕ → ℕ → SentCall → Request4
  on_req : ℕ → ℕ → ReqCall → Request4

abbrev pub follow {ℓ κ} : {A : Type ℓ} {S : Type κ} → (A → S → S) → Option A → S → S
follow f none s = s
follow f (some x) s = f x s

unfoldable pub call_client : Hal → ClientCall → Link Client4 → Store4 → Store4
call_client h ClientCall.deletes p s = (client_del_entry p s).0
call_client h ClientCall.commits p s = (client_commit h p s).0
call_client h ClientCall.rolls_back p s = client_rollback h p s
call_client h (ClientCall.sets_bool f b) p s = (client_set_bool f b p s).0
call_client h (ClientCall.sets_string f v) p s = (client_set_string f v p s).0
call_client h (ClientCall.adds_sent m) p s = (sent_option_add_entry m p s).0
call_client h (ClientCall.adds_req m) p s = (req_option_add_entry m p s).0

unfoldable pub call_sent :
    List Scanned → SentCall → Link Client4 → Link SentOption4 → Store4 → Store4
call_sent g SentCall.deletes p x s = (sent_option_del_entry x p s).0
call_sent g SentCall.commits p x s = (sent_option_commit g x p s).0
call_sent g SentCall.rolls_back p x s = sent_option_rollback g x p s
call_sent g (SentCall.sets f) p x s = (sent_option_set f x p s).0

unfoldable pub call_req : ReqCall → Link Client4 → Link ReqOption4 → Store4 → Store4
call_req ReqCall.deletes p x s = (req_option_del_entry x p s).0
call_req ReqCall.commits p x s = (req_option_commit x p s).0
call_req ReqCall.rolls_back p x s = req_option_rollback x p s
call_req (ReqCall.sets f) p x s = (req_option_set f x p s).0

unfoldable pub request4 : Hal → List Scanned → Request4 → Store4 → Store4
unfolding call_client call_sent call_req
request4 h g (adds_client m) s = (client_add_entry m s).0
request4 h g (on_client c call) s = follow (call_client h call) (client_link s c) s
request4 h g (on_sent c o call) s =
    follow (λ p. follow (call_sent g call p) (get_by_ins_num (sent_table p).links o))
      (client_link s c) s
request4 h g (on_req c o call) s =
    follow (λ p. follow (call_req call p) (get_by_ins_num (req_table p).links o)) (client_link s c)
      s
