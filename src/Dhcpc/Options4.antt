-- ===== src/Dhcpc/Options4.antt =====
-- The tables DHCPv4.Client.{i}.SentOption.{i} and ReqOption.{i}: the functions SentOption_* and
-- ReqOption_* of source/TR-181/middle_layer_src/wanmgr_dml_dhcpv4.c that change them. The object hDhcpv4
-- is there, and `p` is the link of the client.
use rdk_wanmanager.Common.{
  List, ℕ, ◌%◌, Bool, true, false, Option, none, some, length, if◌then◌else◌,
}
use rdk_wanmanager.Dml.{CString}
use rdk_wanmanager.Dhcpc.Links.{Link, get_by_index, write_link}
use rdk_wanmanager.Dhcpc.Table.{
  Table, add_entry, del_entry, set_alias, validate_alias, Validated, refused, commit_new,
  commit_old, rollback,
}
use rdk_wanmanager.Dhcpc.Data4.{Client4, SentOption4, ReqOption4, sent_option4, req_option4}
use rdk_wanmanager.Dhcpc.Backend4.{
  Scanned, get_sent_option4, get_req_option4, add_sent_option4, del_sent_option4, set_sent_option4,
  add_req_option4, del_req_option4, set_req_option4,
}
use rdk_wanmanager.Dhcpc.Client4.{Store4, reg_set4, write_client, number_of}

-- A write to the table of one client.
abbrev pub write_sent : Link Client4 → Table SentOption4 → Store4 → Store4
write_sent p t s = write_client p (λ c. record c { send_option = t }) s

abbrev pub write_req : Link Client4 → Table ReqOption4 → Store4 → Store4
write_req p t s = write_client p (λ c. record c { req_option = t }) s

abbrev pub sent_table : Link Client4 → Table SentOption4
sent_table p = p.content.send_option

abbrev pub req_table : Link Client4 → Table ReqOption4
req_table p = p.content.req_option

abbrev pub write_entry : {A : Type 0} → Link A → (A → A) → Table A → Table A
write_entry x f t = record t {
  links = write_link t.links x.instance_number (λ y. record y { content = f y.content });
}

unfoldable pub sent_option_get_entry_count : Link Client4 → ℕ
sent_option_get_entry_count p = length (sent_table p).links

unfoldable pub sent_option_get_entry : Link Client4 → ℕ → Option ℕ
sent_option_get_entry p i = number_of (get_by_index (sent_table p).links i)

-- SentOption_GetEntryStatus, for the status `Committed`.
unfoldable pub sent_option_is_committed : Link Client4 → Bool
sent_option_is_committed p = if p.is_new then false else true

unfoldable pub sent_option_add_entry :
    Option SentOption4 → Link Client4 → Store4 → Store4 × Option ℕ
unfolding reg_set4
sent_option_add_entry none p s = (s, none)
sent_option_add_entry (some blank) p s =
    let t : Table SentOption4 = add_entry sent_option4 blank (sent_table p) in
    (reg_set4 (write_sent p t s), some t.max_instance)

unfoldable pub sent_deleted : Link Client4 → Store4 → Table SentOption4 × Bool → Store4 × Bool
unfolding reg_set4
sent_deleted p s (t, true) = (reg_set4 (write_sent p t s), true)
sent_deleted p s (t, false) = (s, false)

unfoldable pub sent_option_del_entry : Link SentOption4 → Link Client4 → Store4 → Store4 × Bool
unfolding sent_deleted
sent_option_del_entry x p s = sent_deleted p s (del_entry del_sent_option4 x (sent_table p))

pub data SentField : Type 0 where
  enable : Bool → SentField
  tag : ℕ → SentField
  value alias : CString → SentField
  unknown : SentField

-- The functions SentOption_SetParam*Value.
unfoldable pub sent_option_set :
    SentField → Link SentOption4 → Link Client4 → Store4 → Store4 × Bool
sent_option_set (SentField.enable b) x p s =
    (write_sent p (write_entry x (λ o. record o { enabled = b }) (sent_table p)) s, true)
sent_option_set (SentField.tag n) x p s =
    (write_sent p (write_entry x (λ o. record o { tag = n % 256 }) (sent_table p)) s, true)
sent_option_set (SentField.value v) x p s =
    (write_sent p (write_entry x (λ o. record o { value = v }) (sent_table p)) s, true)
sent_option_set (SentField.alias v) x p s =
    (write_sent p (set_alias sent_option4 v x (sent_table p)) s, true)
sent_option_set SentField.unknown x p s = (s, false)

unfoldable pub sent_option_validate : Link SentOption4 → Link Client4 → Validated
sent_option_validate x p =
    if p.is_new then refused else validate_alias sent_option4 x (sent_table p)

-- SentOption_Commit. The backend is asked by the number in the client's configuration.
unfoldable pub sent_option_commit :
    List Scanned → Link SentOption4 → Link Client4 → Store4 → Store4 × Bool
unfolding reg_set4
sent_option_commit g x p s =
    let fetch : SentOption4 → SentOption4 = get_sent_option4 g p.content.cfg.instance_number in
    let new : Store4 = write_sent p (commit_new sent_option4 add_sent_option4 x (sent_table p)) s in
    let old : Store4 =
      write_sent p
        (commit_old sent_option4 (if set_sent_option4 then (λ o. o) else fetch) x (sent_table p))
        s in
    if x.is_new
    then (if add_sent_option4 then reg_set4 new else new, add_sent_option4)
    else (old, set_sent_option4)

unfoldable pub sent_option_rollback :
    List Scanned → Link SentOption4 → Link Client4 → Store4 → Store4
sent_option_rollback g x p s =
    write_sent p
      (rollback sent_option4 (get_sent_option4 g p.content.cfg.instance_number) x (sent_table p)) s

unfoldable pub req_option_get_entry_count : Link Client4 → ℕ
req_option_get_entry_count p = length (req_table p).links

unfoldable pub req_option_get_entry : Link Client4 → ℕ → Option ℕ
req_option_get_entry p i = number_of (get_by_index (req_table p).links i)

unfoldable pub req_option_add_entry : Option ReqOption4 → Link Client4 → Store4 → Store4 × Option ℕ
unfolding reg_set4
req_option_add_entry none p s = (s, none)
req_option_add_entry (some blank) p s =
    let t : Table ReqOption4 = add_entry req_option4 blank (req_table p) in
    (reg_set4 (write_req p t s), some t.max_instance)

unfoldable pub req_deleted : Link Client4 → Store4 → Table ReqOption4 × Bool → Store4 × Bool
unfolding reg_set4
req_deleted p s (t, true) = (reg_set4 (write_req p t s), true)
req_deleted p s (t, false) = (s, false)

unfoldable pub req_option_del_entry : Link ReqOption4 → Link Client4 → Store4 → Store4 × Bool
unfolding req_deleted
req_option_del_entry x p s = req_deleted p s (del_entry del_req_option4 x (req_table p))

pub data ReqField : Type 0 where
  enable : Bool → ReqField
  order tag : ℕ → ReqField
  alias : CString → ReqField
  unknown : ReqField

-- The functions ReqOption_SetParam*Value.
unfoldable pub req_option_set : ReqField → Link ReqOption4 → Link Client4 → Store4 → Store4 × Bool
req_option_set (ReqField.enable b) x p s =
    (write_req p (write_entry x (λ o. record o { enabled = b }) (req_table p)) s, true)
req_option_set (ReqField.order n) x p s =
    (write_req p (write_entry x (λ o. record o { order = n }) (req_table p)) s, true)
req_option_set (ReqField.tag n) x p s =
    (write_req p (write_entry x (λ o. record o { tag = n % 256 }) (req_table p)) s, true)
req_option_set (ReqField.alias v) x p s =
    (write_req p (set_alias req_option4 v x (req_table p)) s, true)
req_option_set ReqField.unknown x p s = (s, false)

unfoldable pub req_option_validate : Link ReqOption4 → Link Client4 → Validated
req_option_validate x p = if p.is_new then refused else validate_alias req_option4 x (req_table p)

unfoldable pub req_option_commit : Link ReqOption4 → Link Client4 → Store4 → Store4 × Bool
unfolding reg_set4
req_option_commit x p s =
    let new : Store4 = write_req p (commit_new req_option4 add_req_option4 x (req_table p)) s in
    let old : Store4 =
      write_req p
        (commit_old req_option4 (if set_req_option4 then (λ o. o) else get_req_option4) x
          (req_table p))
        s in
    if x.is_new
    then (if add_req_option4 then reg_set4 new else new, add_req_option4)
    else (old, set_req_option4)

unfoldable pub req_option_rollback : Link ReqOption4 → Link Client4 → Store4 → Store4
req_option_rollback x p s = write_req p (rollback req_option4 get_req_option4 x (req_table p)) s
