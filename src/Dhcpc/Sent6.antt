-- ===== src/Dhcpc/Sent6.antt =====
-- The options that the DHCPv6 client sends: the functions on g_sent_options, with their copy in syscfg and
-- the file for the client, of source/WanManager/wanmgr_dhcpv6_apis.c. The array has g_sent_option_num
-- entries. A numeral that syscfg stores is the number; a text fits in its buffer, an index in an int, the
-- array can be allocated and the file opened.
pub mod Stored
pub mod Delete
pub mod Change
pub mod Mirror
pub mod Reload
use rdk_wanmanager.Common.{
  ℕ, zero, suc, ◌+◌, ◌/◌, Bool, true, false, not, ◌&&◌, ◌||◌, Option, none, some, List, [], ◌∷◌,
  ◌++◌, ◌==◌, ltb, if◌then◌else◌, length, set,
}
use rdk_wanmanager.Dml.{CString, str_eq}

-- DML_DHCPCV6_SENT.
pub record Sent6 : Type 0 where
  pub instance_number : ℕ
  pub alias : CString
  pub enabled : Bool
  pub tag : ℕ
  pub value : CString

-- The keys `tr_dhcp6c_sent_option_<n>`, and those with `_alias`, `_enabled`, `_tag` and `_value` after it.
pub record Slot6 : Type 0 where
  pub number : Option ℕ
  pub alias : Option CString
  pub enabled : Option Bool
  pub tag : Option ℕ
  pub value : Option CString

-- `num` is `tr_dhcp6c_sent_option_num`, and the slots count from 1.
pub record Syscfg6 : Type 0 where
  pub num : Option ℕ
  pub slot : ℕ → Slot6

-- One line of the file: the option's type, its length and its data.
pub record Line6 : Type 0 where
  pub option_type : ℕ
  pub option_len : ℕ
  pub option_data : CString

-- g_sent_options, syscfg, the file, and how often the client has been restarted.
pub record Sents6 : Type 0 where
  pub options : List Sent6
  pub syscfg : Syscfg6
  pub file : List Line6
  pub restarts : ℕ

unfoldable pub client_lines : List Sent6 → List Line6
client_lines [] = []
client_lines (o ∷ os) =
    if o.enabled
    then record { option_type = o.tag; option_len = length o.value / 2; option_data = o.value }
      ∷ client_lines os
    else client_lines os

-- _write_dibbler_sent_option_file.
unfoldable pub write_sent_option_file : Sents6 → Sents6
unfolding client_lines
write_sent_option_file s = record s { file = client_lines s.options }

-- The file is written and the client restarted, under a condition.
unfoldable pub take_effect : Bool → Sents6 → Sents6
unfolding write_sent_option_file
take_effect b s =
    let w : Sents6 = write_sent_option_file s in
    if b then record w { restarts = suc w.restarts } else s

abbrev pub put_slot : ℕ → Slot6 → (ℕ → Slot6) → ℕ → Slot6
put_slot k x f j = if j == k then x else f j

abbrev pub slot_of : Sent6 → Slot6
slot_of o = record {
  number = some o.instance_number;
  alias = some o.alias;
  enabled = some o.enabled;
  tag = some o.tag;
  value = some o.value;
}

-- _syscfg_add_sent_option.
abbrev pub syscfg_add_sent_option : Sent6 → ℕ → Syscfg6 → Syscfg6
syscfg_add_sent_option o index c = record c { slot = put_slot index (slot_of o) c.slot }

-- WanMgr_DmlDhcpv6cAddSentOption, for the client `n` where the only client has the number `client`.
unfoldable pub add_sent_option6 : ℕ → ℕ → Sent6 → Sents6 → Sents6 × Bool
unfolding take_effect
add_sent_option6 client n o s =
    let num : ℕ = suc (length s.options) in
    let r : Sents6 = record s {
      options = s.options ++ (o ∷ []);
      syscfg = record (syscfg_add_sent_option o num s.syscfg) { num = some num };
    } in
    if n == client then (take_effect o.enabled r, true) else (s, false)

-- The loop that moves the entries after the deleted one: the first of them goes to the slot `k`.
unfoldable pub move_ahead : ℕ → List Sent6 → Syscfg6 → Syscfg6
move_ahead k [] c = c
move_ahead k (o ∷ os) c = move_ahead (suc k) os (syscfg_add_sent_option o k c)

-- What the search and the loops of DelSentOption give: the entry, the array and syscfg, if it is found. The
-- array starts at the slot `k`.
pub record Deleted : Type 0 where
  pub entry : Sent6
  pub options : List Sent6
  pub syscfg : Syscfg6

abbrev pub kept_before : Sent6 → Option Deleted → Option Deleted
kept_before o none = none
kept_before o (some d) = some (record d { options = o ∷ d.options })

unfoldable pub delete_from : ℕ → ℕ → List Sent6 → Syscfg6 → Option Deleted
unfolding move_ahead
delete_from number k [] c = none
delete_from number k (o ∷ os) c =
    let rest : Option Deleted = kept_before o (delete_from number (suc k) os c) in
    if o.instance_number == number
    then some (record { entry = o; options = os; syscfg = move_ahead k os c })
    else rest

-- `unset` is what the five calls of syscfg_unset do to the slot that is free.
unfoldable pub finish_delete : (Slot6 → Slot6) → Sents6 → Option Deleted → Sents6 × Bool
unfolding take_effect
finish_delete unset s none = (s, false)
finish_delete unset s (some d) =
    let num : ℕ = length d.options in
    let free : ℕ = suc num in
    let r : Sents6 = record s {
      options = d.options;
      syscfg = record {
        num = some num;
        slot = put_slot free (unset (d.syscfg.slot free)) d.syscfg.slot;
      };
    } in
    (take_effect d.entry.enabled r, true)

-- WanMgr_DmlDhcpv6cDelSentOption.
unfoldable pub del_sent_option6 : (Slot6 → Slot6) → ℕ → ℕ → ℕ → Sents6 → Sents6 × Bool
unfolding finish_delete delete_from
del_sent_option6 unset client n number s =
    if n == client
    then finish_delete unset s (delete_from number 1 s.options s.syscfg)
    else (s, false)

abbrev pub same_flag : Bool → Bool → Bool
same_flag true b = b
same_flag false b = not b

-- The fields that differ are stored.
abbrev pub update_slot : Sent6 → Sent6 → Slot6 → Slot6
update_slot o old x = record {
  number = x.number;
  alias = if str_eq o.alias old.alias then x.alias else some o.alias;
  enabled = if same_flag o.enabled old.enabled then x.enabled else some o.enabled;
  tag = if o.tag == old.tag then x.tag else some o.tag;
  value = if str_eq o.value old.value then x.value else some o.value;
}

abbrev pub needs_restart : Sent6 → Sent6 → Bool
needs_restart o old =
    not (same_flag o.enabled old.enabled)
    || not (o.tag == old.tag)
    || not (str_eq o.value old.value)

-- The loop of SetSentOption, where the array starts at the slot `k`; `restart` is need_restart_service.
pub record Changed : Type 0 where
  pub options : List Sent6
  pub slot : ℕ → Slot6
  pub restart : Bool

unfoldable pub change_from : Sent6 → ℕ → List Sent6 → (ℕ → Slot6) → Changed
change_from o k [] f = record { options = []; slot = f; restart = false }
change_from o k (old ∷ os) f =
    let rest : Changed = change_from o (suc k) os f in
    if o.instance_number == old.instance_number
    then record {
      options = o ∷ os;
      slot = put_slot k (update_slot o old (f k)) f;
      restart = needs_restart o old;
    }
    else record rest { options = old ∷ rest.options }

-- WanMgr_DmlDhcpv6cSetSentOption.
unfoldable pub set_sent_option6 : Sent6 → Sents6 → Sents6
unfolding change_from take_effect
set_sent_option6 o s =
    let c : Changed = change_from o 1 s.options s.syscfg.slot in
    take_effect c.restart
      (record s { options = c.options; syscfg = record s.syscfg { slot = c.slot } })

abbrev pub named6 : ℕ → CString → Sent6 → Sent6
named6 number alias o = record o { instance_number = number; alias = alias }

abbrev pub named_slot : ℕ → CString → Slot6 → Slot6
named_slot number alias x = record x { number = some number; alias = some alias }

unfoldable pub name_at : ℕ → ℕ → CString → List Sent6 → List Sent6
name_at i number alias [] = []
name_at zero number alias (o ∷ os) = named6 number alias o ∷ os
name_at (suc i) number alias (o ∷ os) = o ∷ name_at i number alias os

-- WanMgr_DmlDhcpv6cSetSentOptionValues; for an index out of range it does nothing and succeeds.
unfoldable pub set_sent_option_values6 : ℕ → ℕ → ℕ → ℕ → CString → Sents6 → Sents6 × Bool
unfolding name_at
set_sent_option_values6 client n i number alias s =
    let k : ℕ = suc i in
    let x : Slot6 = named_slot number alias (s.syscfg.slot k) in
    let r : Sents6 = record s {
      options = name_at i number alias s.options;
      syscfg = record s.syscfg { slot = put_slot k x s.syscfg.slot };
    } in
    if n == client then (if ltb (length s.options) (i + 1) then s else r, true) else (s, false)

-- The calls that change the options, one after another.
pub data Request6 : Type 0 where
  adds : ℕ → Sent6 → Request6
  deletes : ℕ → ℕ → Request6
  changes : Sent6 → Request6
  names : ℕ → ℕ → ℕ → CString → Request6

unfoldable pub request6 : (Slot6 → Slot6) → ℕ → Request6 → Sents6 → Sents6
unfolding add_sent_option6 del_sent_option6 set_sent_option6 set_sent_option_values6
request6 unset client (adds n o) s = (add_sent_option6 client n o s).0
request6 unset client (deletes n number) s = (del_sent_option6 unset client n number s).0
request6 unset client (changes o) s = set_sent_option6 o s
request6 unset client (names n i number alias) s =
    (set_sent_option_values6 client n i number alias s).0

abbrev pub or_old {ℓ} : {A : Type ℓ} → Option A → A → A
or_old none x = x
or_old (some y) x = y

abbrev pub fresh_array : ℕ → Sent6 → List Sent6
fresh_array zero blank = []
fresh_array (suc n) blank = blank ∷ fresh_array n blank

-- WanMgr_DmlDhcpv6cGetNumberOfSentOption; the entries of the new array are memory that holds `blank`.
unfoldable pub get_number_of_sent_option6 : Sent6 → Sents6 → Sents6
get_number_of_sent_option6 blank s = record s {
  options = fresh_array (or_old s.syscfg.num (length s.options)) blank;
}

-- The tag is read from the key of the number.
abbrev pub read_slot : Slot6 → Sent6 → Sent6
read_slot x o = record {
  instance_number = or_old x.number o.instance_number;
  alias = or_old x.alias o.alias;
  enabled = or_old x.enabled o.enabled;
  tag = or_old x.number o.tag;
  value = or_old x.value o.value;
}

-- WanMgr_DmlDhcpv6cGetSentOption, for the memory `o` at `pEntry`.
unfoldable pub get_sent_option6 : ℕ → Sent6 → Sents6 → Sents6 × Bool
unfolding write_sent_option_file
get_sent_option6 i o s =
    let num : ℕ = length s.options in
    let e : Sent6 = read_slot (s.syscfg.slot (i + 1)) o in
    let r : Sents6 = record s { options = set s.options i e } in
    if ltb i num then (if i + 1 == num then write_sent_option_file r else r, true) else (s, false)

-- DHCPV6_SENTOPTION_SET_DEFAULTVALUE.
abbrev pub sent_option6_default : Sent6 → Sent6
sent_option6_default o = record o { enabled = false; tag = 0; value = [] }

-- The loop of WanMgr_Dhcpv6BackendGetDhcpv6Info over the indices, from `i`, and what it reads.
unfoldable pub get_sent_options6 : Sent6 → ℕ → ℕ → Sents6 → Sents6
unfolding get_sent_option6
get_sent_options6 blank zero i s = s
get_sent_options6 blank (suc rounds) i s =
    let (r, found) = get_sent_option6 i (sent_option6_default blank) s in
    let rest : Sents6 = get_sent_options6 blank rounds (suc i) r in if found then rest else r

unfoldable pub backend_sent_options6 : Sent6 → Sents6 → Sents6
unfolding get_number_of_sent_option6 get_sent_options6
backend_sent_options6 blank s =
    let r : Sents6 = get_number_of_sent_option6 blank s in
    get_sent_options6 blank (length r.options) 0 r
