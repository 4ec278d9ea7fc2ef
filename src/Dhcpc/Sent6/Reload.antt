-- ===== src/Dhcpc/Sent6/Reload.antt =====
-- The options that the DHCPv6 client sends, read back from syscfg.
use rdk_wanmanager.Common.{
  ℕ, zero, suc, ◌+◌, ◌≡◌, ◌<◌, refl, Bool, true, false, List, [], ◌∷◌, ◌++◌, ltb, if◌then◌else◌,
  length, set, arith, sym, ap, ◌∙◌, ◌==◌, subst, Option, none, some,
}
use mathlib.Core.List.{append_assoc}
use rdk_wanmanager.Dhcpc.Sent6.{
  Sent6, Sents6, slot_of, read_slot, fresh_array, get_number_of_sent_option6, get_sent_option6,
  sent_option6_default, get_sent_options6, backend_sent_options6, write_sent_option_file, or_old,
}
use rdk_wanmanager.Dhcpc.Sent6.Stored.{Stored, IsMirrored, or_none, length-snoc}

-- The option with its number for its tag.
abbrev pub retagged : Sent6 → Sent6
retagged o = record o { tag = o.instance_number }

abbrev pub all_retagged : List Sent6 → List Sent6
all_retagged [] = []
all_retagged (o ∷ os) = retagged o ∷ all_retagged os

set_middle :
    (pre : List Sent6) (e b : Sent6) (bs : List Sent6)
    → set (pre ++ (b ∷ bs)) (length pre) e ≡ pre ++ (e ∷ bs)
set_middle [] e b bs = refl
set_middle (p ∷ pre) e b bs = ap (λ l. p ∷ l) (set_middle pre e b bs)

length_middle :
    (pre : List Sent6) (b : Sent6) (bs : List Sent6) → length pre < length (pre ++ (b ∷ bs))
length_middle [] b bs = omega arith
length_middle (p ∷ pre) b bs = omega (arith, length_middle pre b bs)

written_options :
    (c : Bool) (s : Sents6)
    → ((if c then write_sent_option_file s else s).options ≡ s.options)
      × ((if c then write_sent_option_file s else s).syscfg ≡ s.syscfg)
unfolding write_sent_option_file
written_options true s = (refl, refl)
written_options false s = (refl, refl)

get_sent_option6_lem :
    (o b blank : Sent6) (pre bs : List Sent6) (i : ℕ) (s : Sents6)
    → s.options ≡ pre ++ (b ∷ bs)
    → i ≡ length pre
    → s.syscfg.slot (i + 1) ≡ slot_of o
    → let (r, found) = get_sent_option6 i blank s in
      (found ≡ true) × (r.options ≡ pre ++ (retagged o ∷ bs)) × (r.syscfg ≡ s.syscfg)
unfolding get_sent_option6
get_sent_option6_lem o b blank pre bs i s e h k =
    let inside : ltb i (length s.options) ≡ true =
      rw (e, h) (ground (arith, length_middle pre b bs)) in
    let r : Sents6 = record s {
      options = set s.options i (read_slot (s.syscfg.slot (i + 1)) blank);
    } in
    let (w, u) = written_options (i + 1 == length s.options) r in
    rw inside (refl, w ∙ rw (k, e, h) (set_middle pre (retagged o) b bs), u)

pub get_sent_options6_lem :
    (blank : Sent6) (os pre : List Sent6) (i : ℕ) (s : Sents6)
    → s.options ≡ pre ++ fresh_array (length os) blank
    → i ≡ length pre
    → Stored (suc i) os s.syscfg.slot
    → (get_sent_options6 blank (length os) i s).options ≡ pre ++ all_retagged os
unfolding get_sent_options6
get_sent_options6_lem blank [] pre i s e h v = e
get_sent_options6_lem blank (o ∷ os) pre i s e h v =
    let (found, options, kept) =
      get_sent_option6_lem o blank (sent_option6_default blank) pre (fresh_array (length os) blank)
        i s e h (ap s.syscfg.slot (omega arith) ∙ v.0) in
    let r : Sents6 = (get_sent_option6 i (sent_option6_default blank) s).0 in
    rw found (
      get_sent_options6_lem blank os (pre ++ (retagged o ∷ [])) (suc i) r
        (options ∙ sym (append_assoc pre (retagged o ∷ []) (fresh_array (length os) blank)))
        (ap suc h ∙ sym (length-snoc (retagged o) pre))
        (subst (λ c. Stored (suc (suc i)) os c.slot) (sym kept) v.1)
      ∙ append_assoc pre (retagged o ∷ []) (all_retagged os))

stored_number : (o : Option ℕ) → or_old o 0 ≡ or_none o
stored_number none = refl
stored_number (some n) = refl

length-fresh_array : (n : ℕ) (blank : Sent6) → length (fresh_array n blank) ≡ n
length-fresh_array zero blank = refl
length-fresh_array (suc n) blank = ap suc (length-fresh_array n blank)

-- A process that starts with no options and finds in syscfg what another has stored there reads the same options, in
-- their order and with all their fields, but for the tag: every option has its instance number for its tag.
pub backend_sent_options6_lem :
    (blank : Sent6) (s p : Sents6)
    → IsMirrored s
    → p.options ≡ []
    → p.syscfg ≡ s.syscfg
    → (backend_sent_options6 blank p).options ≡ all_retagged s.options
unfolding backend_sent_options6 get_number_of_sent_option6
backend_sent_options6_lem blank s p v e c =
    let n : or_old p.syscfg.num (length p.options) ≡ length s.options =
      ap (λ l. or_old p.syscfg.num (length l)) e
      ∙ stored_number p.syscfg.num
      ∙ ap (λ c. or_none c.num) c
      ∙ v.counted in
    rw (n, length-fresh_array (length s.options) blank)
      (get_sent_options6_lem blank s.options [] 0
        (record p { options = fresh_array (length s.options) blank }) refl refl
        (subst (λ c. Stored 1 s.options c.slot) (sym c) v.stored))
