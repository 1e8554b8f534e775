-- ===== src/Common/Double.antt =====
-- The numbers of JavaScript, as far as src/commission/commission.service.ts uses them: the quotient and the
-- product of numbers that are not negative, rounded to 53 binary digits, and `Math.round`. The operands are
-- below 2 ^ 53, so that the whole numbers among them are exact.
pub mod Laws
use buchuqin_api.Prelude.{
  ℕ, zero, suc, ◌+◌, ◌-◌, ◌*◌, ◌/◌, ◌%◌, ◌^◌, ◌≤◌, ◌<◌, ◌≡◌, refl, Bool, true, false, ◌==◌, ltb,
  leb, if◌then◌else◌, arith, Bool-cases, inl, inr,
}
use native.Mathlib.Nat.{two-pow-succ}

-- The number `mantissa / 2 ^ scale`.
pub record Double : Type 0 where
  pub mantissa : ℕ
  pub scale : ℕ

-- `n / d`, rounded to a whole number, a half to the even one.
unfoldable pub half_even : ℕ → ℕ → ℕ
half_even n d =
    let q = n / d in
    let r = 2 * (n % d) in if ltb r d then q else if ltb d r then q + 1 else q + q % 2

-- How many binary digits a number has; the fuel bounds them.
unfoldable pub digits : ℕ → ℕ → ℕ
digits zero n = 0
digits (suc fuel) n = let rest = digits fuel (n / 2) in if n == 0 then 0 else suc rest

-- More than a product of two numbers of 53 digits has.
abbrev pub fuel : ℕ
fuel = 128

-- The quotient of `0 < n < d`: the scale at which it has 53 digits, or one less.
unfoldable pub divide : ℕ → ℕ → Double
divide n d =
    let k = 53 + digits fuel d - digits fuel n in
    if ltb (n * 2 ^ k) (2 ^ 53 * d)
    then record { mantissa = half_even (n * 2 ^ k) d; scale = k }
    else record { mantissa = half_even (n * 2 ^ (k - 1)) d; scale = k - 1 }

-- The product with a whole number: the digits past 53 are rounded off.
unfoldable pub times : ℕ → Double → Double
times a x =
    let s = digits fuel (a * x.mantissa) - 53 in
    record { mantissa = half_even (a * x.mantissa) (2 ^ s) * 2 ^ s; scale = x.scale }

-- `Math.round`: a half goes up.
unfoldable pub round : Double → ℕ
round x = (2 * x.mantissa + 2 ^ x.scale) / 2 ^ (x.scale + 1)

-- The fuel is enough: a number below 2 ^ fuel is below 2 to the number of its digits.
pub digits_lem : (f n : ℕ) → n < 2 ^ f → n < 2 ^ digits f n
unfolding digits
digits_lem zero n h = h
digits_lem (suc f) n h =
    let half : n / 2 < 2 ^ f = omega (arith, two-pow-succ f) in
    let rest = digits_lem f (n / 2) half in
    elim (Bool-cases (n == 0)) [
      | inl e ↦ rw e (ground arith)
      | inr e ↦ rw e (omega (arith, rest, two-pow-succ (digits f (n / 2))))
    ]
