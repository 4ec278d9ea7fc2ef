-- ===== src/Dhcpc/Sent6/Delete.antt =====
-- WanMgr_DmlDhcpv6cDelSentOption.
use rdk_wanmanager.Common.{
  ℕ, suc, ◌≡◌, ◌<◌, inl, inr, refl, false, Option, none, some, List, [], ◌∷◌, length, arith, ◌∙◌,
  ◌==◌, Bool-cases,
}
use rdk_wanmanager.Dhcpc.Sent6.{
  Sent6, Slot6, Syscfg6, Sents6, client_lines, slot_of, syscfg_add_sent_option, move_ahead, Deleted,
  kept_before, delete_from, finish_delete, del_sent_option6,
}
use rdk_wanmanager.Dhcpc.Sent6.Stored.{
  Stored, IsMirrored, put_other, Stored-put, put_here, take_effect-IsMirrored, lines-cons,
  lines-skip,
}

move_ahead_before :
    (k j : ℕ) (os : List Sent6) (c : Syscfg6) → j < k → (move_ahead k os c).slot j ≡ c.slot j
unfolding move_ahead
move_ahead_before k j [] c h = refl
move_ahead_before k j (o ∷ os) c h =
    move_ahead_before (suc k) j os (syscfg_add_sent_option o k c) (omega arith)
    ∙ put_other k j (slot_of o) c.slot (ground arith)

Stored-move_ahead : (k : ℕ) (os : List Sent6) (c : Syscfg6) → Stored k os (move_ahead k os c).slot
unfolding move_ahead
Stored-move_ahead k [] c = tt
Stored-move_ahead k (o ∷ os) c = (
  move_ahead_before (suc k) k os (syscfg_add_sent_option o k c) (omega arith)
      ∙ put_here k k (slot_of o) c.slot refl,
  Stored-move_ahead (suc k) os (syscfg_add_sent_option o k c),
)

-- What the loops of DelSentOption give for the part of the array that starts at the slot `k`.
abbrev IsDeleted : ℕ → List Sent6 → Syscfg6 → Option Deleted → Type 0
IsDeleted k os c none = Unit
IsDeleted k os c (some d) =
    Stored k d.options d.syscfg.slot
    × ((j : ℕ) → j < k → d.syscfg.slot j ≡ c.slot j)
    × (d.entry.enabled ≡ false → client_lines os ≡ client_lines d.options)

kept-IsDeleted :
    (k : ℕ) (o : Sent6) (os : List Sent6) (c : Syscfg6) (r : Option Deleted)
    → c.slot k ≡ slot_of o
    → IsDeleted (suc k) os c r
    → IsDeleted k (o ∷ os) c (kept_before o r)
kept-IsDeleted k o os c none e v = tt
kept-IsDeleted k o os c (some d) e (v, before, lines) = (
  (before k (omega arith) ∙ e, v),
  λ j h. before j (omega (arith, h)),
  λ h. lines-cons o os d.options (lines h),
)

delete_from-IsDeleted :
    (number k : ℕ) (os : List Sent6) (c : Syscfg6)
    → Stored k os c.slot
    → IsDeleted k os c (delete_from number k os c)
unfolding delete_from
delete_from-IsDeleted number k [] c v = tt
delete_from-IsDeleted number k (o ∷ os) c v = elim (Bool-cases (o.instance_number == number)) [
  | inl e ↦
      rw e (Stored-move_ahead k os c, λ j h. move_ahead_before k j os c h, λ h. lines-skip o os h)
  | inr e ↦ rw e (kept-IsDeleted k o os c _ v.0 (delete_from-IsDeleted number (suc k) os c v.1))
]

finish-IsMirrored :
    (unset : Slot6 → Slot6) (s : Sents6) (r : Option Deleted)
    → IsMirrored s
    → IsDeleted 1 s.options s.syscfg r
    → IsMirrored (finish_delete unset s r).0
unfolding finish_delete
finish-IsMirrored unset s none v d = v
finish-IsMirrored unset s (some d) v (stored, before, lines) =
    take_effect-IsMirrored d.entry.enabled _ refl
      (Stored-put 1 (suc (length d.options)) _ d.options d.syscfg.slot (inr (omega arith)) stored)
      (λ e. v.written ∙ lines e)

pub del-IsMirrored :
    (unset : Slot6 → Slot6) (client n number : ℕ) (s : Sents6)
    → IsMirrored s
    → IsMirrored (del_sent_option6 unset client n number s).0
unfolding del_sent_option6
del-IsMirrored unset client n number s v = elim (Bool-cases (n == client)) [
  | inr e ↦ rw e v
  | inl e ↦
      rw e
        (finish-IsMirrored unset s _ v (delete_from-IsDeleted number 1 s.options s.syscfg v.stored))
]
