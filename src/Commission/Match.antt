-- ===== src/Commission/Match.antt =====
-- `bestMatch` finds the rule that an order is paid by: a specification of the loop.
use buchuqin_api.Prelude.{
  ℕ, ◌≤◌, ◌<◌, ◌≡◌, refl, ◌⊎◌, inl, inr, List, [], ◌∷◌, Option, none, some, ◌==◌, ◌||◌, ◌&&◌, ltb,
  arith, All, Option-cases, Bool-cases,
}
use mathlib.Core.List.{Memᴰ}
use buchuqin_api.Commission.Rules.{
  CommissionDims, CommissionRule, rule_specificity, Best, consider, best_from, best_match, rule_of,
}

-- A rule comes no later in the order of preference: more dimensions first, then the newer version.
abbrev pub Outranks : CommissionRule × ℕ → CommissionRule × ℕ → Type 0
Outranks (r, m) (s, n) = (n < m) ⊎ ((n ≡ m) × (s.version ≤ r.version))

-- The best so far against one rule with its score.
abbrev pub BeatsScore : Best → CommissionRule → Option ℕ → Type 0
BeatsScore best rule none = Unit
BeatsScore none rule (some n) = ⊥
BeatsScore (some b) rule (some n) = Outranks b (rule, n)

abbrev pub Beats : CommissionDims → Best → CommissionRule → Type 0
Beats dims best rule = BeatsScore best rule (rule_specificity rule dims)

-- `later` is as good as `best`: it is present where that is, and outranks it.
abbrev Improves : Best → Best → Type 0
Improves none later = Unit
Improves (some b) none = ⊥
Improves (some b) (some c) = Outranks c b

Improves-refl : (b : Best) → Improves b b
Improves-refl none = tt
Improves-refl (some (r, m)) = inr (refl, omega arith)

Improves-trans : (b c d : Best) → Improves b c → Improves c d → Improves b d
Improves-trans none c d h k = tt
Improves-trans (some b) none d h k = absurd h
Improves-trans (some b) (some c) none h k = absurd k
Improves-trans (some b) (some c) (some d) h k = omega arith

consider-Improves : (b : Best) (r : CommissionRule) (n : Option ℕ) → Improves b (consider b r n)
unfolding consider
consider-Improves b r none = Improves-refl b
consider-Improves none r (some n) = tt
consider-Improves (some (c, m)) r (some n) = ground arith

consider-BeatsScore :
    (b : Best) (r : CommissionRule) (n : Option ℕ) → BeatsScore (consider b r n) r n
unfolding consider
consider-BeatsScore b r none = tt
consider-BeatsScore none r (some n) = inr (refl, omega arith)
consider-BeatsScore (some (c, m)) r (some n) = ground arith

BeatsScore-Improves :
    (b c : Best) (r : CommissionRule) (n : Option ℕ)
    → BeatsScore b r n
    → Improves b c
    → BeatsScore c r n
BeatsScore-Improves b c r none h k = tt
BeatsScore-Improves none c r (some n) h k = absurd h
BeatsScore-Improves (some b) none r (some n) h k = absurd k
BeatsScore-Improves (some b) (some c) r (some n) h k = omega arith

best_from-Improves :
    (dims : CommissionDims) (b : Best) (rules : List CommissionRule)
    → Improves b (best_from dims b rules)
unfolding best_from
best_from-Improves dims b [] = Improves-refl b
best_from-Improves dims b (r ∷ rules) =
    let next = consider b r (rule_specificity r dims) in
    Improves-trans b next (best_from dims next rules)
      (consider-Improves b r (rule_specificity r dims)) (best_from-Improves dims next rules)

best_from-Beats :
    (dims : CommissionDims) (b : Best) (rules : List CommissionRule)
    → All (Beats dims (best_from dims b rules)) rules
unfolding best_from
best_from-Beats dims b [] = tt
best_from-Beats dims b (r ∷ rules) =
    let n = rule_specificity r dims in
    let next = consider b r n in
    (
      BeatsScore-Improves next (best_from dims next rules) r n (consider-BeatsScore b r n)
          (best_from-Improves dims next rules),
      best_from-Beats dims next rules,
    )

-- What the best so far is: a rule of the list that matches with this score.
abbrev IsFrom : CommissionDims → List CommissionRule → Best → Type 0
IsFrom dims rules none = Unit
IsFrom dims rules (some (r, n)) = Memᴰ r rules × (rule_specificity r dims ≡ some n)

take_better-IsFrom :
    (dims : CommissionDims) (rules : List CommissionRule) (b : Best) (r : CommissionRule) (n : ℕ)
    → IsFrom dims rules b
    → Memᴰ r rules
    → rule_specificity r dims ≡ some n
    → IsFrom dims rules (consider b r (some n))
unfolding consider
take_better-IsFrom dims rules none r n f m e = (m, e)
take_better-IsFrom dims rules (some (b, k)) r n f m e =
    elim (Bool-cases (ltb k n || (n == k && ltb b.version r.version))) [
      | inl h ↦ rw h (m, e)
      | inr h ↦ rw h f
    ]

consider-IsFrom :
    (dims : CommissionDims) (rules : List CommissionRule) (b : Best) (r : CommissionRule)
    → IsFrom dims rules b
    → Memᴰ r rules
    → IsFrom dims rules (consider b r (rule_specificity r dims))
consider-IsFrom dims rules b r f m = elim (Option-cases (rule_specificity r dims)) [
  | inl h ↦ rw h (unfold consider in f)
  | inr (n, h) ↦ rw h (take_better-IsFrom dims rules b r n f m h)
]

best_from-IsFrom :
    (dims : CommissionDims) (rules : List CommissionRule) (b : Best) (rest : List CommissionRule)
    → ((r : CommissionRule) → Memᴰ r rest → Memᴰ r rules)
    → IsFrom dims rules b
    → IsFrom dims rules (best_from dims b rest)
unfolding best_from
best_from-IsFrom dims rules b [] sub f = f
best_from-IsFrom dims rules b (r ∷ rest) sub f =
    best_from-IsFrom dims rules (consider b r (rule_specificity r dims)) rest
      (λ s m. sub s (Memᴰ.tail m)) (consider-IsFrom dims rules b r f (sub r (Memᴰ.head refl)))

-- A rule that does not match the order.
abbrev pub Misses : CommissionDims → CommissionRule → Type 0
Misses dims r = rule_specificity r dims ≡ none

-- A rule that matches and is no better than the chosen one.
abbrev pub IsWorse : CommissionDims → CommissionRule → ℕ → CommissionRule → Type 0
IsWorse dims best n r = BeatsScore (some (best, n)) r (rule_specificity r dims)

abbrev pub IsBest : CommissionDims → List CommissionRule → Option CommissionRule → Type 0
IsBest dims rules none = All (Misses dims) rules
IsBest dims rules (some r) =
    (n : ℕ) × Memᴰ r rules × (rule_specificity r dims ≡ some n) × All (IsWorse dims r n) rules

BeatsScore-none : (r : CommissionRule) (n : Option ℕ) → BeatsScore none r n → n ≡ none
BeatsScore-none r none h = refl
BeatsScore-none r (some n) h = absurd h

All-Misses :
    (dims : CommissionDims) (rules : List CommissionRule)
    → All (Beats dims none) rules
    → All (Misses dims) rules
All-Misses dims [] h = tt
All-Misses dims (r ∷ rules) h =
    (BeatsScore-none r (rule_specificity r dims) h.0, All-Misses dims rules h.1)

IsBest-of :
    (dims : CommissionDims) (rules : List CommissionRule) (b : Best)
    → IsFrom dims rules b
    → All (Beats dims b) rules
    → IsBest dims rules (rule_of b)
IsBest-of dims rules none f h = All-Misses dims rules h
IsBest-of dims rules (some (r, n)) f h = (n, f.0, f.1, h)

-- `bestMatch` returns no rule exactly where no rule matches the order. A rule that it returns is one
-- of the list and matches, and every other rule that matches fixes fewer dimensions, or as many with a
-- version that is no newer.
pub best_match-IsBest :
    (rules : List CommissionRule) (dims : CommissionDims)
    → IsBest dims rules (best_match rules dims)
unfolding best_match
best_match-IsBest rules dims =
    IsBest-of dims rules (best_from dims none rules)
      (best_from-IsFrom dims rules none rules (λ r m. m) tt) (best_from-Beats dims none rules)
