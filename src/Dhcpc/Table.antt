-- ===== src/Dhcpc/Table.antt =====
-- A table of the data model: what the functions AddEntry, DelEntry, SetParamStringValue (the alias),
-- Validate, Commit and Rollback of the tables in source/TR-181/middle_layer_src/wanmgr_dml_dhcpv4.c and
-- wanmgr_dml_dhcpv6.c have in common. A list with the counter of instance numbers and the backup of an
-- alias. Copies of text keep it whole: the lengths of the buffers are not modelled.
pub mod Valid
pub mod Contents
pub mod Others
pub mod Alias
use rdk_wanmanager.Common.{
  ℕ, ◌+◌, ◌%◌, ◌≡◌, Bool, true, false, not, ◌&&◌, Option, none, some, List, [], ◌∷◌, ◌==◌,
  if◌then◌else◌,
}
use rdk_wanmanager.Dml.{CString, str_eq, is_empty}
use rdk_wanmanager.Dhcpc.Links.{Link, push_by_ins_num, get_by_ins_num, pop_link, write_link}

-- What the code of one table says of its entries: the alias, the macro SET_DEFAULTVALUE, and the
-- instance number and the alias that AddEntry gives.
pub record Kind (A : Type 0) : Type 0 where
  pub alias : A → CString
  pub with_alias : CString → A → A
  pub set_default : A → A
  pub named : ℕ → A → A
  pub alias-with_alias : (s : CString) (x : A) → alias (with_alias s x) ≡ s
  pub alias-set_default : (x : A) → alias (set_default x) ≡ alias x

pub record Table (A : Type 0) : Type 0 where
  pub links : List (Link A)
  pub max_instance : ℕ
  pub alias_backup : CString

abbrev pub ulong_mod : ℕ
ulong_mod = 4294967296

-- `if (!++max) max = 1`.
unfoldable pub next_number : ℕ → ℕ
next_number m = let n : ℕ = (m + 1) % ulong_mod in if n == 0 then 1 else n

-- The loop of Validate: another link of the list has the alias.
unfoldable pub clash : {A : Type 0} → (A → CString) → CString → ℕ → List (Link A) → Bool
clash alias s n [] = false
clash alias s n (y ∷ ys) =
    if str_eq (alias y.content) s && not (y.instance_number == n) then true else clash alias s n ys

-- What Validate returns: TRUE, FALSE, or FALSE with `Alias` as the name of the parameter.
pub data Validated : Type 0 where
  valid refused refused_alias : Validated

module _ {A : Type 0} (k : Kind A) where
  -- AddEntry, on the memory `blank` that the allocation gives.
  unfoldable pub add_entry : A → Table A → Table A
  add_entry blank t =
      let n : ℕ = next_number t.max_instance in
      record t {
        links = push_by_ins_num t.links (record {
          instance_number = n;
          is_new = true;
          content = k.named n (k.set_default blank);
        });
        max_instance = n;
      }

  -- The alias of a link is saved, then written.
  unfoldable pub set_alias : CString → Link A → Table A → Table A
  set_alias s x t = record t {
    links =
        write_link t.links x.instance_number (λ y. record y { content = k.with_alias s y.content });
    alias_backup = k.alias x.content;
  }

  unfoldable pub validate_alias : Link A → Table A → Validated
  validate_alias x t =
      if not (is_empty t.alias_backup)
        && clash k.alias (k.alias x.content) x.instance_number t.links
      then refused_alias
      else valid

  -- `if (backup[0]) AnscCopyString(Alias, backup)`.
  unfoldable pub restore_alias : CString → A → A
  restore_alias b x = if is_empty b then x else k.with_alias b x

  -- Commit of a link that the backend has not got yet; `added` is the backend's answer.
  unfoldable pub commit_new : Bool → Link A → Table A → Table A
  unfolding restore_alias
  commit_new added x t = record t {
    links = write_link t.links x.instance_number (λ y.
        if added
        then record y { is_new = false }
        else record y { content = restore_alias t.alias_backup (k.set_default y.content) });
    alias_backup = [];
  }

  -- Commit of a link that the backend has; `fetch` is what the backend then writes to the entry.
  unfoldable pub commit_old : (A → A) → Link A → Table A → Table A
  commit_old fetch x t = record t {
    links = write_link t.links x.instance_number (λ y. record y { content = fetch y.content });
    alias_backup = [];
  }

  unfoldable pub rollback : (A → A) → Link A → Table A → Table A
  unfolding restore_alias
  rollback fetch x t = record t {
    links = write_link t.links x.instance_number (λ y.
        let c : A = restore_alias t.alias_backup y.content in
        record y { content = if y.is_new then k.set_default c else fetch c });
    alias_backup = [];
  }

-- DelEntry; `deleted` is the backend's answer, which is asked for unless the link is new.
unfoldable pub del_entry : {A : Type 0} → Bool → Link A → Table A → Table A × Bool
del_entry deleted x t =
    if x.is_new
    then (record t { links = pop_link t.links x.instance_number }, true)
    else if deleted
    then (record t { links = pop_link t.links x.instance_number }, true)
    else (t, false)

unfoldable pub empty_table : {A : Type 0} → Table A
empty_table = record { links = []; max_instance = 0; alias_backup = [] }
