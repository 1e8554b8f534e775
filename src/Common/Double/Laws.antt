-- ===== src/Common/Double/Laws.antt =====
-- How far the roundings of a product with a quotient are from the exact number.
use buchuqin_api.Prelude.{
  ℕ, zero, suc, ◌+◌, ◌-◌, ◌*◌, ◌/◌, ◌%◌, ◌^◌, ◌≤◌, ◌<◌, ◌≡◌, ◌≢◌, refl, ap, ◌∙◌, ◌==◌, ltb, arith,
  Bool-cases, inl, inr,
}
use native.Mathlib.Nat.{
  two-pow-succ, one-le-pow, mod-lt, div-add-mod', mul-le-mul_right, mul-le-mul_left, mul-le-mul,
  pow-le-pow_right, le_of_mul-le-mul_left,
}
use buchuqin_api.Common.Double.{half_even, digits, fuel, divide, times, round}

-- A multiple of `d` is at most half of it from a number.
abbrev IsNear : ℕ → ℕ → ℕ → Type 0
IsNear n d m = (2 * (m * d) ≤ 2 * n + d) × (2 * n ≤ 2 * (m * d) + d)

IsNear-below : (q r n d : ℕ) → q * d + r ≡ n → 2 * r ≤ d → IsNear n d q
IsNear-below q r n d sum h = (omega (arith, sum, h), omega (arith, sum, h))

IsNear-above : (q r n d : ℕ) → q * d + r ≡ n → r < d → d ≤ 2 * r → IsNear n d (q + 1)
IsNear-above q r n d sum less h =
    let e : (q + 1) * d ≡ q * d + d = grind arith in
    (omega (arith, e, sum, less, h), omega (arith, e, sum, less, h))

IsNear-even : (q t r n d : ℕ) → t < 2 → q * d + r ≡ n → r < d → 2 * r ≡ d → IsNear n d (q + t)
IsNear-even q zero r n d h sum less half =
    IsNear-below (q + 0) r n d (omega (arith, sum)) (omega (arith, half))
IsNear-even q (suc zero) r n d h sum less half = IsNear-above q r n d sum less (omega (arith, half))
IsNear-even q (suc (suc t)) r n d h sum less half = absurd (omega (arith, h))

half_even-IsNear : (n d : ℕ) → 0 < d → IsNear n d (half_even n d)
unfolding half_even
half_even-IsNear n d h =
    let below : n % d < d = mod-lt n h in
    let sum : n / d * d + n % d ≡ n = div-add-mod' n d in
    elim (Bool-cases (ltb (2 * (n % d)) d)) [
      | inl e ↦ rw e (IsNear-below (n / d) (n % d) n d sum (ground arith))
      | inr e ↦ rw e (elim (Bool-cases (ltb d (2 * (n % d)))) [
        | inl f ↦ rw f (IsNear-above (n / d) (n % d) n d sum below (ground arith))
        | inr f ↦
            rw f
              (IsNear-even (n / d) (n / d % 2) (n % d) n d (omega arith) sum below (ground arith))
      ])
    ]

digits_mono : (f n m : ℕ) → n ≤ m → digits f n ≤ digits f m
unfolding digits
digits_mono zero n m h = omega arith
digits_mono (suc f) n m h =
    let half : n / 2 ≤ m / 2 = omega arith in ground (arith, digits_mono f (n / 2) (m / 2) half)

digits_zero : (f : ℕ) → digits f 0 ≡ 0
unfolding digits
digits_zero zero = refl
digits_zero (suc f) = refl

digits_low : (f n : ℕ) → n ≢ 0 → 2 ^ digits f n ≤ 2 * n
unfolding digits
digits_low zero n h = omega (arith, h)
digits_low (suc f) n h = elim (Bool-cases (n == 0)) [
  | inl e ↦ absurd (h (ground arith))
  | inr e ↦ rw e (elim (Bool-cases (n / 2 == 0)) [
    | inl z ↦
        let none_left : n / 2 ≡ 0 = ground arith in rw (none_left, digits_zero f) (omega (arith, h))
    | inr z ↦ omega (arith, digits_low f (n / 2) (ground arith), two-pow-succ (digits f (n / 2)))
  ])
]

-- The scale of a quotient below 1 is at least 52.
divide-scale : (n d : ℕ) → n < d → 52 ≤ (divide n d).scale
unfolding divide
divide-scale n d h =
    let more : digits fuel n ≤ digits fuel d = digits_mono fuel n d (omega arith) in
    let k = 53 + digits fuel d - digits fuel n in
    elim (Bool-cases (ltb (n * 2 ^ k) (2 ^ 53 * d))) [
      | inl e ↦ rw e (omega (arith, more))
      | inr e ↦ rw e (omega (arith, more))
    ]

-- The quotient, at its scale.
divide-IsNear : (n d : ℕ) → 0 < d → IsNear (n * 2 ^ (divide n d).scale) d (divide n d).mantissa
unfolding divide
divide-IsNear n d h =
    let k = 53 + digits fuel d - digits fuel n in
    elim (Bool-cases (ltb (n * 2 ^ k) (2 ^ 53 * d))) [
      | inl e ↦ rw e (half_even-IsNear (n * 2 ^ k) d h)
      | inr e ↦ rw e (half_even-IsNear (n * 2 ^ (k - 1)) d h)
    ]

mantissa_le : (n d k m : ℕ) → n < d → 0 < k → 2 * (m * d) ≤ 2 * (n * k) + d → m ≤ k
mantissa_le n d k m h pos p =
    let less : (n + 1) * k ≤ d * k = mul-le-mul_right k (omega (arith, h)) in
    elim (Bool-cases (ltb k m)) [
      | inl e ↦
          let more : (k + 1) * d ≤ m * d = mul-le-mul_right d (ground arith) in absurd (grind arith)
      | inr e ↦ ground arith
    ]

two_pow_pos : (s : ℕ) → 0 < 2 ^ s
two_pow_pos s = one-le-pow s 2 (omega arith)

one_times : (n : ℕ) → n ≡ 1 * n
one_times n = omega arith

two_pow_add : (n m : ℕ) → 2 ^ (m + n) ≡ 2 ^ n * 2 ^ m
two_pow_add zero m = ap (λ x. 2 ^ x) {x = m + 0} {y = m} (omega arith) ∙ one_times (2 ^ m)
two_pow_add (suc n) m =
    let rest = two_pow_add n m in
    let left = two-pow-succ (m + n) in let right = two-pow-succ n in grind arith

-- The last of the digits that a product loses is small against the scale.
lost_le : (a m k : ℕ) → a ≤ 2 ^ 50 → m ≤ k → 2 ^ 52 ≤ k → 4 * 2 ^ (digits fuel (a * m) - 53) ≤ k
lost_le a m k ha hm hk = elim (Bool-cases (ltb 53 (digits fuel (a * m)))) [
  | inl e ↦
      let s = digits fuel (a * m) - 53 in
      let some_digits : a * m ≢ 0 = λ z.
        let none_at_all : digits fuel (a * m) ≡ 0 = ap (digits fuel) z ∙ digits_zero fuel in
        ground arith in
      let low : 2 ^ digits fuel (a * m) ≤ 2 * (a * m) = digits_low fuel (a * m) some_digits in
      let split : 2 ^ digits fuel (a * m) ≡ 2 ^ 53 * 2 ^ s =
        ap (λ x. 2 ^ x) {x = digits fuel (a * m)} {y = s + 53} (ground arith) ∙ two_pow_add 53 s in
      let top : a * m ≤ 2 ^ 50 * k = mul-le-mul ha hm in omega (arith, low, split, top)
  | inr e ↦
      let none_lost : digits fuel (a * m) - 53 ≡ 0 = ground arith in
      rw none_lost (omega (arith, hk))
]

-- The errors of the three roundings together, all over `4 * k`.
errors :
    (a n d k m v big r : ℕ)
    → IsNear (n * k) d m
    → (2 * v ≤ 2 * (a * m) + big) × (2 * (a * m) ≤ 2 * v + big)
    → (2 * (r * k) ≤ 2 * v + k) × (2 * v ≤ 2 * (r * k) + k)
    → 4 * big ≤ k
    → 4 * a ≤ k
    → 0 < k
    → (4 * (r * d) ≤ 4 * (a * n) + 3 * d) × (4 * (a * n) ≤ 4 * (r * d) + 3 * d)
errors a n d k m v big r (m_high, m_low) (v_high, v_low) (r_high, r_low) hb ha pos =
    let rd_high = mul-le-mul_right d r_high in
    let rd_low = mul-le-mul_right d r_low in
    let vd_high = mul-le-mul_right d v_high in
    let vd_low = mul-le-mul_right d v_low in
    let am_high = mul-le-mul_left a m_high in
    let am_low = mul-le-mul_left a m_low in
    let hbd = mul-le-mul_right d hb in
    let had = mul-le-mul_right d ha in
    (
      le_of_mul-le-mul_left {k = k} (grind arith) pos,
      le_of_mul-le-mul_left {k = k} (grind arith) pos,
    )

two_pow_next : (s : ℕ) → 2 ^ (s + 1) ≡ 2 ^ s + 2 ^ s
two_pow_next s = ap (λ x. 2 ^ x) {x = s + 1} {y = suc s} (omega arith) ∙ two-pow-succ s

round_near :
    (v k r t k2 : ℕ)
    → r * k2 + t ≡ 2 * v + k
    → t < k2
    → k2 ≡ k + k
    → (2 * (r * k) ≤ 2 * v + k) × (2 * v ≤ 2 * (r * k) + k)
round_near v k r t k2 sum below twice =
    let both : r * (k + k) ≡ 2 * (r * k) = grind arith in
    let e : r * k2 ≡ 2 * (r * k) = ap (λ x. r * x) twice ∙ both in
    (omega (arith, e, sum), omega (arith, e, sum, below, twice))

round-IsNear :
    (v s : ℕ)
    → let r = round (record { mantissa = v; scale = s }) in
      (2 * (r * 2 ^ s) ≤ 2 * v + 2 ^ s) × (2 * v ≤ 2 * (r * 2 ^ s) + 2 ^ s)
unfolding round
round-IsNear v s =
    let k = 2 ^ s in
    let n = 2 * v + k in
    let pos : 0 < 2 ^ (s + 1) = two_pow_pos (s + 1) in
    let below = mod-lt n pos in
    let sum = div-add-mod' n (2 ^ (s + 1)) in
    round_near v k (n / 2 ^ (s + 1)) (n % 2 ^ (s + 1)) (2 ^ (s + 1)) sum below (two_pow_next s)

-- `Math.round` of a product with a quotient below 1 is less than one away from the exact number.
pub round_product-IsClose :
    (a n d : ℕ)
    → n < d
    → a ≤ 2 ^ 50
    → let r = round (times a (divide n d)) in
      (4 * (r * d) ≤ 4 * (a * n) + 3 * d) × (4 * (a * n) ≤ 4 * (r * d) + 3 * d)
unfolding times
round_product-IsClose a n d h ha =
    let x = divide n d in
    let k = 2 ^ x.scale in
    let s = digits fuel (a * x.mantissa) - 53 in
    let v = half_even (a * x.mantissa) (2 ^ s) * 2 ^ s in
    let high : 2 ^ 52 ≤ k = pow-le-pow_right {n = 2} (omega arith) (divide-scale n d h) in
    let near = divide-IsNear n d (omega (arith, h)) in
    let cut = half_even-IsNear (a * x.mantissa) (2 ^ s) (two_pow_pos s) in
    let small = mantissa_le n d k x.mantissa h (omega (arith, high)) near.0 in
    errors a n d k x.mantissa v (2 ^ s) (round (record { mantissa = v; scale = x.scale })) near cut
      (round-IsNear v x.scale) (lost_le a x.mantissa k ha small high) (omega (arith, ha, high))
      (omega (arith, high))
