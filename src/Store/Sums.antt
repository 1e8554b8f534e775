-- ===== src/Store/Sums.antt =====
-- Sums over the rows of a filter, and what an update does to them.
use buchuqin_api.Prelude.{ℕ, ◌+◌, ◌≤◌, ◌≡◌, refl, Bool, true, false, List, [], ◌∷◌, some, arith}
use buchuqin_api.Store.Table.{
  find_first, find_first-none, count_where, sum_where, update_many, update_many_none,
  count_where_narrow,
}

-- What a narrower filter finds is the one row of the wider one.
pub find_first-widen {ℓ} :
    {A : Type ℓ} (p q : A → Bool) (xs : List A) {x : A}
    → ((y : A) → q y ≡ true → p y ≡ true)
    → count_where p xs ≤ 1
    → find_first q xs ≡ some x
    → find_first p xs ≡ some x
find_first-widen p q [] narrow one h = cc
find_first-widen p q (y ∷ xs) {x} narrow one h = ground (
  arith,
  find_first-widen p q xs {x = x} narrow,
  count_where_narrow q p xs narrow,
  find_first-none q xs,
  narrow y,
)

module _ {ℓ} {A : Type ℓ} (p : A → Bool) (f : A → ℕ) where
  pub sum_where-none : (xs : List A) → count_where p xs ≡ 0 → sum_where p f xs ≡ 0
  sum_where-none [] h = refl
  sum_where-none (x ∷ xs) h = ground (arith, sum_where-none xs)

  -- The sum over a filter with one row.
  pub sum_where-single :
      (xs : List A) {x : A}
      → count_where p xs ≤ 1
      → find_first p xs ≡ some x
      → sum_where p f xs ≡ f x
  sum_where-single [] one h = cc
  sum_where-single (y ∷ xs) {x} one h =
      ground (arith, sum_where-none xs, sum_where-single xs {x = x})

  pub sum_where-update_miss :
      (q : A → Bool) (g : A → A) (xs : List A)
      → ((x : A) → p (g x) ≡ p x)
      → ((x : A) → q x ≡ true → p x ≡ false)
      → sum_where p f (update_many q g xs) ≡ sum_where p f xs
  sum_where-update_miss q g [] same apart = refl
  sum_where-update_miss q g (x ∷ xs) same apart =
      ground (arith, sum_where-update_miss q g xs same apart, same x, apart x)

  -- The one row of a filter gains a number.
  pub sum_where-update_gain :
      (q : A → Bool) (g : A → A) (n : ℕ) (xs : List A)
      → ((x : A) → p (g x) ≡ p x)
      → ((x : A) → q x ≡ true → p x ≡ true)
      → ((x : A) → f (g x) ≡ f x + n)
      → count_where p xs ≤ 1
      → count_where q xs ≡ 1
      → sum_where p f (update_many q g xs) ≡ sum_where p f xs + n
  sum_where-update_gain q g n [] same narrow gain one found = absurd (omega arith)
  sum_where-update_gain q g n (x ∷ xs) same narrow gain one found = ground (
    arith,
    update_many_none q g xs,
    count_where_narrow q p xs narrow,
    sum_where-update_gain q g n xs same narrow gain,
    same x,
    narrow x,
    gain x,
  )
