-- ===== src/Dhcpc/Sent6/Stored.antt =====
-- The array, syscfg and the file of the options that the DHCPv6 client sends.
use rdk_wanmanager.Common.{
  ℕ, suc, ◌+◌, ◌≡◌, ◌≤◌, ◌<◌, ◌⊎◌, inl, inr, refl, Bool, true, false, Option, none, some, List, [],
  ◌∷◌, ◌++◌, length, arith, ap, ◌∙◌, ◌==◌,
}
use rdk_wanmanager.Dhcpc.Sent6.{
  Sent6, Slot6, Sents6, client_lines, take_effect, put_slot, slot_of, write_sent_option_file,
}

-- From the slot `k` on syscfg has the options, in their order.
abbrev pub Stored : ℕ → List Sent6 → (ℕ → Slot6) → Type 0
Stored k [] f = Unit
Stored k (o ∷ os) f = (f k ≡ slot_of o) × Stored (suc k) os f

abbrev pub or_none : Option ℕ → ℕ
or_none none = 0
or_none (some n) = n

-- syscfg has the options and their number, and the file has the enabled ones.
pub record IsMirrored (s : Sents6) : Type 0 where
  pub counted : or_none s.syscfg.num ≡ length s.options
  pub stored : Stored 1 s.options s.syscfg.slot
  pub written : s.file ≡ client_lines s.options

pub put_other : (k j : ℕ) (x : Slot6) (f : ℕ → Slot6) → (j == k) ≡ false → put_slot k x f j ≡ f j
put_other k j x f e = cc

pub Stored-put :
    (k j : ℕ) (x : Slot6) (os : List Sent6) (f : ℕ → Slot6)
    → (j < k) ⊎ (k + length os ≤ j)
    → Stored k os f
    → Stored k os (put_slot j x f)
Stored-put k j x [] f h v = tt
Stored-put k j x (o ∷ os) f h v = (
  put_other j k x f (elim h [ inl l ↦ ground arith | inr l ↦ ground arith ]) ∙ v.0,
  Stored-put (suc k) j x os f (elim h [ inl l ↦ inl (omega arith) | inr l ↦ inr (omega arith) ])
      v.1,
)

pub put_here : (k j : ℕ) (x : Slot6) (f : ℕ → Slot6) → k ≡ j → put_slot k x f j ≡ x
put_here k j x f e = ground arith

pub Stored-snoc :
    (k j : ℕ) (o : Sent6) (os : List Sent6) (f : ℕ → Slot6)
    → j ≡ k + length os
    → Stored k os f
    → Stored k (os ++ (o ∷ [])) (put_slot j (slot_of o) f)
Stored-snoc k j o [] f e v = (put_here j k (slot_of o) f (omega (arith, e)), tt)
Stored-snoc k j o (p ∷ os) f e v = (
  put_other j k (slot_of o) f (ground arith) ∙ v.0,
  Stored-snoc (suc k) j o os f (omega (arith, e)) v.1,
)

pub length-snoc : (o : Sent6) (os : List Sent6) → length (os ++ (o ∷ [])) ≡ suc (length os)
length-snoc o [] = refl
length-snoc o (p ∷ os) = ap suc (length-snoc o os)

pub lines-snoc :
    (o : Sent6) (os : List Sent6)
    → o.enabled ≡ false
    → client_lines os ≡ client_lines (os ++ (o ∷ []))
unfolding client_lines
lines-snoc o [] e = rw e refl
lines-snoc o (p ∷ os) e = rw (lines-snoc o os e) refl

pub take_effect-IsMirrored :
    (b : Bool) (s : Sents6)
    → or_none s.syscfg.num ≡ length s.options
    → Stored 1 s.options s.syscfg.slot
    → (b ≡ false → s.file ≡ client_lines s.options)
    → IsMirrored (take_effect b s)
unfolding take_effect write_sent_option_file
take_effect-IsMirrored true s n v w = record { counted = n; stored = v; written = refl }
take_effect-IsMirrored false s n v w = record { counted = n; stored = v; written = w refl }

pub lines-cons :
    (o : Sent6) (os ps : List Sent6)
    → client_lines os ≡ client_lines ps
    → client_lines (o ∷ os) ≡ client_lines (o ∷ ps)
unfolding client_lines
lines-cons o os ps e = rw e refl

pub lines-skip :
    (o : Sent6) (os : List Sent6) → o.enabled ≡ false → client_lines (o ∷ os) ≡ client_lines os
unfolding client_lines
lines-skip o os e = rw e refl
