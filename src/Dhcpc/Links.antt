-- ===== src/Dhcpc/Links.antt =====
-- The lists of context links, in the order of their instance numbers: SListPushEntryByInsNum and
-- SListGetEntryByInsNum of source/TR-181/middle_layer_src/wanmgr_rdkbus_apis.c. A list of the ANSC library
-- is a List; a handle, the address of a link, is its instance number, which two links of a list share
-- only after the counter of the table has wrapped.
pub mod Order
pub mod Map
pub mod Back
use rdk_wanmanager.Common.{
  ℕ, zero, suc, Bool, true, false, Option, none, some, List, [], ◌∷◌, ltb, ◌==◌, if◌then◌else◌,
}

-- CONTEXT_LINK_OBJECT: `is_new` is bNew, `content` what hContext points at.
pub record Link (A : Type 0) : Type 0 where
  pub instance_number : ℕ
  pub is_new : Bool
  pub content : A

module _ {A : Type 0} where
  -- SListPushEntryByInsNum.
  unfoldable pub push_by_ins_num : List (Link A) → Link A → List (Link A)
  push_by_ins_num [] x = x ∷ []
  push_by_ins_num (y ∷ ys) x =
      if ltb x.instance_number y.instance_number then x ∷ y ∷ ys else y ∷ push_by_ins_num ys x

  -- SListGetEntryByInsNum.
  unfoldable pub get_by_ins_num : List (Link A) → ℕ → Option (Link A)
  get_by_ins_num [] n = none
  get_by_ins_num (y ∷ ys) n = if y.instance_number == n then some y else get_by_ins_num ys n

  -- AnscSListGetEntryByIndex.
  unfoldable pub get_by_index : List (Link A) → ℕ → Option (Link A)
  get_by_index [] i = none
  get_by_index (y ∷ ys) zero = some y
  get_by_index (y ∷ ys) (suc i) = get_by_index ys i

  -- AnscSListPopEntryByLink, for the link with the number `n`.
  unfoldable pub pop_link : List (Link A) → ℕ → List (Link A)
  pop_link [] n = []
  pop_link (y ∷ ys) n = if y.instance_number == n then ys else y ∷ pop_link ys n

  -- A write through the handle `n`.
  unfoldable pub write_link : List (Link A) → ℕ → (Link A → Link A) → List (Link A)
  write_link [] n f = []
  write_link (y ∷ ys) n f = if y.instance_number == n then f y ∷ ys else y ∷ write_link ys n f
