-- ===== src/Select/Scan.antt =====
-- The walk over the table as a fold, and its specification: the least priority, the first of equals.
use rdk_wanmanager.Common.{
  ℕ, zero, suc, ◌+◌, ◌≤◌, ◌<◌, ◌≡◌, refl, subst, ap, ◌⊎◌, inl, inr, Bool, true, false, ltb, ltb→lt,
  ℤ, pos, negsuc, minus_one, to_int_small, int_limit, Bool-cases, arith,
}
use native.Mathlib.Decide.{dec_lt}
use rdk_wanmanager.Dml.{Iface}
use rdk_wanmanager.Select.Defs.{Best, no_best, consider, consider_if, priority_max}

-- An interface that a selection may take: its priority is between 0 and 254.
abbrev pub Eligible : (Iface → Bool) → Iface → ℕ → Type 0
Eligible candidate f k = (candidate f ≡ true) × (f.wan.priority ≡ pos k) × (k < priority_max)

module _ (candidate : Iface → Bool) (look : ℕ → Iface) where
  unfoldable pub scan : ℕ → ℕ → Best → Best
  scan zero i best = best
  scan (suc rounds) i best = scan rounds (i + 1) (consider_if candidate (look i) i best)

  abbrev pub NoneEligible : ℕ → Type 0
  NoneEligible n = (j k : ℕ) → j < n → ¬ Eligible candidate (look j) k

  -- The interface `p` with priority `k` is the choice among the first `n`.
  pub record Wins (n p k : ℕ) : Type 0 where
    pub in_range : p < n
    pub eligible : Eligible candidate (look p) k
    pub least : (j m : ℕ) → j < n → Eligible candidate (look j) m → k ≤ m
    pub first : (j m : ℕ) → j < p → Eligible candidate (look j) m → k < m

  abbrev pub Selected : ℕ → ℤ → Type 0
  Selected n idx =
      ((idx ≡ minus_one) × NoneEligible n) ⊎ ((p : ℕ) × (k : ℕ) × (idx ≡ pos p) × Wins n p k)

  -- The state of the walk before entry `n`.
  data Found (n : ℕ) (best : Best) : Type 0 where
    nobody : best ≡ no_best → NoneEligible n → Found n best
    winner : (p k : ℕ) → best ≡ record { idx = pos p; priority = pos k } → Wins n p k → Found n best

  skip_none :
      (n : ℕ) → NoneEligible n → ((k : ℕ) → ¬ Eligible candidate (look n) k) → NoneEligible (n + 1)
  skip_none n none_ not_n j k h e = elim (dec_lt j n) [
    | yes l ↦ none_ j k l e
    | no l ↦
        not_n k (subst (λ x. Eligible candidate (look x) k) (let q : j ≡ n = omega arith in q) e)
  ]

  Wins-skip :
      (n p k : ℕ)
      → Wins n p k
      → ((m : ℕ) → Eligible candidate (look n) m → k ≤ m)
      → Wins (n + 1) p k
  Wins-skip n p k w above = record {
    in_range = omega (arith, w.in_range);
    eligible = w.eligible;
    least = λ j m h e. elim (dec_lt j n) [
      | yes l ↦ w.least j m l e
      | no l ↦
          above m (subst (λ x. Eligible candidate (look x) m) (let q : j ≡ n = omega arith in q) e)
    ];
    first = w.first;
  }

  Wins-new :
      (n k : ℕ)
      → Eligible candidate (look n) k
      → ((j m : ℕ) → j < n → Eligible candidate (look j) m → k < m)
      → Wins (n + 1) n k
  Wins-new n k e below = record {
    in_range = omega arith;
    eligible = e;
    least = λ j m h e'. elim (dec_lt j n) [
      | yes l ↦ (let q : k < m = below j m l e' in omega arith)
      | no l ↦
          (let e'' : Eligible candidate (look n) m =
              subst (λ x. Eligible candidate (look x) m) (let q : j ≡ n = omega arith in q) e' in
            ground arith)
    ];
    first = below;
  }

  -- One entry whose candidacy and priority are known.
  Found-step :
      (n : ℕ) (best : Best) (q : ℤ)
      → n < int_limit
      → candidate (look n) ≡ true
      → (look n).wan.priority ≡ q
      → Found n best
      → Found (n + 1) (consider q n best)
  unfolding consider
  Found-step n best (negsuc a) small c e (nobody b none_) =
      nobody (ground arith) (skip_none n none_ (λ k h. cc))
  Found-step n best (pos m) small c e (nobody b none_) = elim (Bool-cases (ltb m priority_max)) [
    | inl l ↦
        winner n m (ground (arith, to_int_small n))
          (Wins-new n m (c, e, ltb→lt _ _ l) (λ j k h e'. absurd (none_ j k h e')))
    | inr g ↦ nobody (ground arith) (skip_none n none_ (λ k h. ground arith))
  ]
  Found-step n best (negsuc a) small c e (winner p k b w) =
      winner p k (ground arith) (Wins-skip n p k w (λ m h. cc))
  Found-step n best (pos m) small c e (winner p k b w) = elim (Bool-cases (ltb m k)) [
    | inl l ↦ winner n m (ground (arith, to_int_small n)) (
        Wins-new n m (c, e, ground (arith, w.eligible))
          (λ j i h e'. ground (arith, w.least j i h e')))
    | inr g ↦ winner p k (ground arith) (Wins-skip n p k w (λ i h. ground arith))
  ]

  Found-consider :
      (n : ℕ) (best : Best)
      → n < int_limit
      → Found n best
      → Found (n + 1) (consider_if candidate (look n) n best)
  Found-consider n best small f = elim (Bool-cases (candidate (look n))) [
    | inl c ↦ rw c (Found-step n best (look n).wan.priority small c refl f)
    | inr c ↦ rw c (Found-skip c f)
  ]
    where
      Found-skip : candidate (look n) ≡ false → Found n best → Found (n + 1) best
      Found-skip c (nobody b none_) = nobody b (skip_none n none_ (λ k h. cc))
      Found-skip c (winner p k b w) = winner p k b (Wins-skip n p k w (λ m h. cc))

  Found-scan :
      (rounds i n : ℕ) (best : Best)
      → i + rounds ≡ n
      → n < int_limit
      → Found i best
      → Found n (scan rounds i best)
  unfolding scan
  Found-scan zero i n best e small f =
      subst (λ x. Found x best) (let q : i ≡ n = omega arith in q) f
  Found-scan (suc rounds) i n best e small f =
      Found-scan rounds (i + 1) n _ (omega arith) small (Found-consider i best (omega arith) f)

  Found-Selected : (n : ℕ) (best : Best) → Found n best → Selected n best.idx
  Found-Selected n best (nobody b none_) = inl (ap (λ x. x.idx) b, none_)
  Found-Selected n best (winner p k b w) = inr (p, k, ap (λ x. x.idx) b, w)

  -- The walk from the first entry finds the choice.
  pub scan-Selected : (n : ℕ) → n < int_limit → Selected n (scan n 0 no_best).idx
  scan-Selected n small =
      Found-Selected n _
        (Found-scan n 0 n no_best (omega arith) small (nobody refl (λ j k h. absurd (omega arith))))
