-- ===== src/Dhcpc/Sent6/Mirror.antt =====
-- The calls that change the options that the DHCPv6 client sends.
use rdk_wanmanager.Common.{
  ℕ, zero, suc, ◌+◌, ◌≡◌, inl, inr, refl, List, [], ◌∷◌, ltb, length, arith, sym, ap, ◌∙◌, ◌==◌,
  Bool-cases,
}
use rdk_wanmanager.Dml.{CString}
use rdk_wanmanager.Dhcpc.Sent6.{
  Sent6, Slot6, Sents6, client_lines, put_slot, add_sent_option6, name_at, named_slot,
  set_sent_option_values6, Request6, adds, deletes, changes, names, request6,
}
use rdk_wanmanager.Dhcpc.Sent6.Stored.{
  Stored, IsMirrored, put_other, Stored-put, put_here, Stored-snoc, length-snoc, lines-snoc,
  take_effect-IsMirrored, lines-cons,
}
use rdk_wanmanager.Dhcpc.Sent6.Delete.{del-IsMirrored}
use rdk_wanmanager.Dhcpc.Sent6.Change.{set-IsMirrored}

add-IsMirrored :
    (client n : ℕ) (o : Sent6) (s : Sents6)
    → IsMirrored s
    → IsMirrored (add_sent_option6 client n o s).0
unfolding add_sent_option6
add-IsMirrored client n o s v = elim (Bool-cases (n == client)) [
  | inr e ↦ rw e v
  | inl e ↦ rw e (
      take_effect-IsMirrored o.enabled _ (sym (length-snoc o s.options))
        (Stored-snoc 1 (suc (length s.options)) o s.options s.syscfg.slot (omega arith) v.stored)
        (λ e. v.written ∙ lines-snoc o s.options e))
]

length-name_at :
    (i number : ℕ) (a : CString) (os : List Sent6) → length (name_at i number a os) ≡ length os
unfolding name_at
length-name_at i number a [] = refl
length-name_at zero number a (o ∷ os) = refl
length-name_at (suc i) number a (o ∷ os) = ap suc (length-name_at i number a os)

lines-name_at :
    (i number : ℕ) (a : CString) (os : List Sent6)
    → client_lines os ≡ client_lines (name_at i number a os)
unfolding name_at client_lines
lines-name_at i number a [] = refl
lines-name_at zero number a (o ∷ os) = refl
lines-name_at (suc i) number a (o ∷ os) =
    lines-cons o os (name_at i number a os) (lines-name_at i number a os)

Stored-name_at :
    (k i j number : ℕ) (a : CString) (os : List Sent6) (f : ℕ → Slot6)
    → j ≡ k + i
    → Stored k os f
    → Stored k (name_at i number a os) (put_slot j (named_slot number a (f j)) f)
unfolding name_at
Stored-name_at k i j number a [] f e v = tt
Stored-name_at k zero j number a (o ∷ os) f e v = (
  put_here j k _ f (omega (arith, e)) ∙ ap (named_slot number a) (ap f (omega (arith, e)) ∙ v.0),
  Stored-put (suc k) j _ os f (inl (omega (arith, e))) v.1,
)
Stored-name_at k (suc i) j number a (o ∷ os) f e v = (
  put_other j k _ f (ground arith) ∙ v.0,
  Stored-name_at (suc k) i j number a os f (omega (arith, e)) v.1,
)

names-IsMirrored :
    (client n i number : ℕ) (a : CString) (s : Sents6)
    → IsMirrored s
    → IsMirrored (set_sent_option_values6 client n i number a s).0
unfolding set_sent_option_values6
names-IsMirrored client n i number a s v = elim (Bool-cases (n == client)) [
  | inr e ↦ rw e v
  | inl e ↦ elim (Bool-cases (ltb (length s.options) (i + 1))) [
    | inl l ↦ rw (e, l) v
    | inr l ↦
        rw (e, l)
          (record {
            counted = v.counted ∙ sym (length-name_at i number a s.options);
            stored =
                Stored-name_at 1 i (suc i) number a s.options s.syscfg.slot (omega arith) v.stored;
            written = v.written ∙ lines-name_at i number a s.options;
          })
  ]
]

-- Every call that adds, deletes, changes or names an option keeps this: syscfg has the number of the options and each
-- of them, in their order, and the file for the client has a line for each enabled option, in their order; whatever
-- the removal of the keys of the free slot does to it.
pub request6-IsMirrored :
    (unset : Slot6 → Slot6) (client : ℕ) (r : Request6) (s : Sents6)
    → IsMirrored s
    → IsMirrored (request6 unset client r s)
unfolding request6
request6-IsMirrored unset client (adds n o) s v = add-IsMirrored client n o s v
request6-IsMirrored unset client (deletes n number) s v = del-IsMirrored unset client n number s v
request6-IsMirrored unset client (changes o) s v = set-IsMirrored o s v
request6-IsMirrored unset client (names n i number a) s v = names-IsMirrored client n i number a s v
