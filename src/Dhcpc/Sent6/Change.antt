-- ===== src/Dhcpc/Sent6/Change.antt =====
-- WanMgr_DmlDhcpv6cSetSentOption.
use rdk_wanmanager.Common.{
  ℕ, suc, ◌≡◌, ◌<◌, inl, inr, refl, Bool, true, false, some, List, [], ◌∷◌, if◌then◌else◌, length,
  arith, sym, ap, ◌∙◌, ◌==◌, Bool-cases,
}
use rdk_wanmanager.Dml.{CString, str_eq, str_eq_sound}
use rdk_wanmanager.Dhcpc.Sent6.{
  Sent6, Slot6, Sents6, client_lines, slot_of, same_flag, update_slot, needs_restart, Changed,
  change_from, set_sent_option6,
}
use rdk_wanmanager.Dhcpc.Sent6.Stored.{
  Stored, IsMirrored, put_other, Stored-put, put_here, take_effect-IsMirrored, lines-cons,
}

same_text : (a b : CString) → (if str_eq a b then some b else some a) ≡ some a
same_text a b = elim (Bool-cases (str_eq a b)) [
  | inl e ↦ rw e (ap some (sym (str_eq_sound a b e)))
  | inr e ↦ rw e refl
]

same_enabled : (a b : Bool) → (if same_flag a b then some b else some a) ≡ some a
same_enabled true true = refl
same_enabled true false = refl
same_enabled false true = refl
same_enabled false false = refl

same_tag : (a b : ℕ) → (if a == b then some b else some a) ≡ some a
same_tag a b = ground arith

update_slot_lem :
    (o old : Sent6) (x : Slot6)
    → x ≡ slot_of old
    → (o.instance_number == old.instance_number) ≡ true
    → update_slot o old x ≡ slot_of o
update_slot_lem o old x e h =
    rw
      (
        e,
        same_text o.alias old.alias,
        same_enabled o.enabled old.enabled,
        same_tag o.tag old.tag,
        same_text o.value old.value,
      )
      (ap (λ n. record (slot_of o) { number = some n }) (ground arith))

flag_sound : (a b : Bool) → same_flag a b ≡ true → a ≡ b
flag_sound true b h = sym h
flag_sound false true h = h
flag_sound false false h = refl

quiet_lines :
    (o old : Sent6) (os : List Sent6)
    → needs_restart o old ≡ false
    → client_lines (old ∷ os) ≡ client_lines (o ∷ os)
unfolding client_lines
quiet_lines o old os h =
    let e : o.enabled ≡ old.enabled = flag_sound o.enabled old.enabled (ground arith) in
    let t : o.tag ≡ old.tag = ground arith in
    let v : o.value ≡ old.value = str_eq_sound o.value old.value (ground arith) in rw (e, t, v) refl

-- What the loop of SetSentOption gives for the part of the array that starts at the slot `k`.
abbrev IsChanged : ℕ → List Sent6 → (ℕ → Slot6) → Changed → Type 0
IsChanged k os f c =
    Stored k c.options c.slot
    × (length c.options ≡ length os)
    × ((j : ℕ) → j < k → c.slot j ≡ f j)
    × (c.restart ≡ false → client_lines os ≡ client_lines c.options)

change_from-IsChanged :
    (o : Sent6) (k : ℕ) (os : List Sent6) (f : ℕ → Slot6)
    → Stored k os f
    → IsChanged k os f (change_from o k os f)
unfolding change_from
change_from-IsChanged o k [] f v = (tt, refl, λ j h. refl, λ h. refl)
change_from-IsChanged o k (old ∷ os) f v =
    let (stored, len, before, lines) = change_from-IsChanged o (suc k) os f v.1 in
    elim (Bool-cases (o.instance_number == old.instance_number)) [
      | inl e ↦ rw e (
        (
          put_here k k _ f refl ∙ update_slot_lem o old (f k) v.0 e,
          Stored-put (suc k) k _ os f (inl (omega arith)) v.1,
        ),
        refl,
        λ j h. put_other k j _ f (ground arith),
        λ h. quiet_lines o old os h,
      )
      | inr e ↦ rw e (
        (before k (omega arith) ∙ v.0, stored),
        ap suc len,
        λ j h. before j (omega (arith, h)),
        λ h. lines-cons old os _ (lines h),
      )
    ]

pub set-IsMirrored : (o : Sent6) (s : Sents6) → IsMirrored s → IsMirrored (set_sent_option6 o s)
unfolding set_sent_option6
set-IsMirrored o s v =
    let (stored, len, _, lines) = change_from-IsChanged o 1 s.options s.syscfg.slot v.stored in
    take_effect-IsMirrored _ _ (v.counted ∙ sym len) stored (λ h. v.written ∙ lines h)
