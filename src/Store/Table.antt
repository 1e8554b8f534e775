-- ===== src/Store/Table.antt =====
-- A table of the database is the list of its rows, oldest first. These are the queries that the
-- services make: the first row of a filter, the number of its rows, a sum over them, and an update of
-- all of them (`updateMany`), whose `count` is the number of rows that matched.
use buchuqin_api.Prelude.{
  ℕ, suc, ◌+◌, ◌≤◌, ◌≡◌, refl, Bool, true, false, List, [], ◌∷◌, ◌++◌, Option, none, some, arith,
  if◌then◌else◌, keep, Bool-cases, inl, inr,
}

module _ {ℓ} {A : Type ℓ} where
  abbrev pub find_first : (A → Bool) → List A → Option A
  find_first p [] = none
  find_first p (x ∷ xs) = let rest = find_first p xs in if p x then some x else rest

  abbrev pub count_where : (A → Bool) → List A → ℕ
  count_where p [] = 0
  count_where p (x ∷ xs) = let rest = count_where p xs in if p x then suc rest else rest

  abbrev pub sum_where : (A → Bool) → (A → ℕ) → List A → ℕ
  sum_where p f [] = 0
  sum_where p f (x ∷ xs) = let rest = sum_where p f xs in if p x then f x + rest else rest

  abbrev pub update_many : (A → Bool) → (A → A) → List A → List A
  update_many p f [] = []
  update_many p f (x ∷ xs) = (if p x then f x else x) ∷ update_many p f xs

  abbrev pub delete_many : (A → Bool) → List A → List A
  delete_many p [] = []
  delete_many p (x ∷ xs) = let rest = delete_many p xs in if p x then rest else x ∷ rest

  -- An update whose filter matches nothing changes nothing.
  pub update_many_none :
      (p : A → Bool) (f : A → A) (xs : List A) → count_where p xs ≡ 0 → update_many p f xs ≡ xs
  update_many_none p f [] h = refl
  update_many_none p f (x ∷ xs) h = ground (arith, update_many_none p f xs)

  -- A row that a filter finds is counted by it.
  pub count_where-pos :
      (p : A → Bool) (xs : List A) {x : A} → find_first p xs ≡ some x → 1 ≤ count_where p xs
  count_where-pos p [] h = cc
  count_where-pos p (y ∷ xs) {x} h = ground (arith, count_where-pos p xs {x = x})

  pub sum_where-append :
      (p : A → Bool) (f : A → ℕ) (xs ys : List A)
      → sum_where p f (xs ++ ys) ≡ sum_where p f xs + sum_where p f ys
  sum_where-append p f [] ys = omega arith
  sum_where-append p f (x ∷ xs) ys = ground (arith, sum_where-append p f xs ys)

  pub count_where-append :
      (p : A → Bool) (xs ys : List A)
      → count_where p (xs ++ ys) ≡ count_where p xs + count_where p ys
  count_where-append p [] ys = omega arith
  count_where-append p (x ∷ xs) ys = ground (arith, count_where-append p xs ys)

module _ {ℓ} {A : Type ℓ} where
  pub count_where-none :
      (p : A → Bool) (xs : List A) → find_first p xs ≡ none → count_where p xs ≡ 0
  count_where-none p [] h = refl
  count_where-none p (x ∷ xs) h = ground (arith, count_where-none p xs)

  pub find_first-none : (p : A → Bool) (xs : List A) → count_where p xs ≡ 0 → find_first p xs ≡ none
  find_first-none p [] h = refl
  find_first-none p (x ∷ xs) h = ground (arith, find_first-none p xs)

  -- A row that is appended is found where no earlier row is.
  pub find_first-append :
      (p : A → Bool) (xs : List A) (y : A)
      → count_where p xs ≡ 0
      → p y ≡ true
      → find_first p (xs ++ (y ∷ [])) ≡ some y
  find_first-append p [] y h e = rw e
  find_first-append p (x ∷ xs) y h e = ground (arith, find_first-append p xs y)

  pub find_first-append_miss :
      (p : A → Bool) (xs : List A) (y : A)
      → p y ≡ false
      → find_first p (xs ++ (y ∷ [])) ≡ find_first p xs
  find_first-append_miss p [] y e = rw e
  find_first-append_miss p (x ∷ xs) y e = ground (arith, find_first-append_miss p xs y)

  -- An update of rows that the filter does not see, and that it does not bring in, is not seen.
  pub find_first-update_miss :
      (p q : A → Bool) (f : A → A) (xs : List A)
      → ((x : A) → q x ≡ true → p x ≡ false)
      → ((x : A) → q x ≡ true → p (f x) ≡ false)
      → find_first p (update_many q f xs) ≡ find_first p xs
  find_first-update_miss p q f [] before after = refl
  find_first-update_miss p q f (x ∷ xs) before after =
      ground (arith, find_first-update_miss p q f xs before after, before x, after x)

  pub find_first-delete_miss :
      (p q : A → Bool) (xs : List A)
      → ((x : A) → q x ≡ true → p x ≡ false)
      → find_first p (delete_many q xs) ≡ find_first p xs
  find_first-delete_miss p q [] apart = refl
  find_first-delete_miss p q (x ∷ xs) apart =
      ground (arith, find_first-delete_miss p q xs apart, apart x)

  pub find_first-delete : (p : A → Bool) (xs : List A) → find_first p (delete_many p xs) ≡ none
  find_first-delete p [] = refl
  find_first-delete p (x ∷ xs) = ground (arith, find_first-delete p xs)

  -- The first row of a filter, after an update of all of its rows that keeps them in it.
  pub find_first-update :
      (p : A → Bool) (f : A → A) (xs : List A) {x : A}
      → ((y : A) → p y ≡ true → p (f y) ≡ true)
      → find_first p xs ≡ some x
      → find_first p (update_many p f xs) ≡ some (f x)
  find_first-update p f [] stay h = cc
  find_first-update p f (y ∷ ys) {x} stay h =
      ground (arith, find_first-update p f ys {x = x} stay, stay y)

  pub find_first-sat : (p : A → Bool) (xs : List A) {x : A} → find_first p xs ≡ some x → p x ≡ true
  find_first-sat p [] h = cc
  find_first-sat p (y ∷ ys) {x} h = ground (arith, find_first-sat p ys {x = x})

  -- No more rows match after an update that brings none in.
  pub count_where-update :
      (p q : A → Bool) (f : A → A) (xs : List A)
      → ((x : A) → q x ≡ true → p (f x) ≡ p x)
      → count_where p (update_many q f xs) ≡ count_where p xs
  count_where-update p q f [] same = refl
  count_where-update p q f (x ∷ xs) same = ground (arith, count_where-update p q f xs same, same x)

  pub count_where-delete :
      (p q : A → Bool) (xs : List A) → count_where p (delete_many q xs) ≤ count_where p xs
  count_where-delete p q [] = omega arith
  count_where-delete p q (x ∷ xs) = ground (arith, count_where-delete p q xs)

-- The rows of a filter, after a change of rows that the filter does not see.
module _ {ℓ} {A : Type ℓ} where
  pub keep-append_miss :
      (p : A → Bool) (xs : List A) (y : A) → p y ≡ false → keep p (xs ++ (y ∷ [])) ≡ keep p xs
  keep-append_miss p [] y e = rw e
  keep-append_miss p (x ∷ xs) y e = ground (arith, keep-append_miss p xs y e)

  pub keep-update_miss :
      (p q : A → Bool) (f : A → A) (xs : List A)
      → ((x : A) → q x ≡ true → p x ≡ false)
      → ((x : A) → q x ≡ true → p (f x) ≡ false)
      → keep p (update_many q f xs) ≡ keep p xs
  keep-update_miss p q f [] before after = refl
  keep-update_miss p q f (x ∷ xs) before after =
      ground (arith, keep-update_miss p q f xs before after, before x, after x)

  pub keep-delete_miss :
      (p q : A → Bool) (xs : List A)
      → ((x : A) → q x ≡ true → p x ≡ false)
      → keep p (delete_many q xs) ≡ keep p xs
  keep-delete_miss p q [] apart = refl
  keep-delete_miss p q (x ∷ xs) apart = ground (arith, keep-delete_miss p q xs apart, apart x)

  -- A row found among the kept ones was kept.
  pub find_first-keep :
      (p q : A → Bool) (xs : List A) {x : A}
      → find_first p (keep q xs) ≡ some x
      → (p x ≡ true) × (q x ≡ true)
  find_first-keep p q [] h = cc
  find_first-keep p q (y ∷ ys) {x} h = ground (arith, find_first-keep p q ys {x = x})

-- Two lists of the same length, related element by element.
pub data Pairs {ℓ} {A : Type ℓ} (R : A → A → Type 0) : List A → List A → Type ℓ where
  none_left : Pairs R [] []
  pair : {x y : A} {xs ys : List A} → R x y → Pairs R xs ys → Pairs R (x ∷ xs) (y ∷ ys)

module _ {ℓ} {A : Type ℓ} (R : A → A → Type 0) (same : (x : A) → R x x) where
  pub Pairs-refl : (xs : List A) → Pairs R xs xs
  Pairs-refl [] = none_left
  Pairs-refl (x ∷ xs) = pair (same x) (Pairs-refl xs)

  -- An update changes the rows of its filter by the relation, and no other row.
  pub Pairs-update :
      (p : A → Bool) (f : A → A) (xs : List A)
      → ((x : A) → p x ≡ true → R x (f x))
      → Pairs R xs (update_many p f xs)
  Pairs-update p f [] step = none_left
  Pairs-update p f (x ∷ xs) step = elim (Bool-cases (p x)) [
    | inl h ↦ rw h (pair (step x h) (Pairs-update p f xs step))
    | inr h ↦ rw h (pair (same x) (Pairs-update p f xs step))
  ]

module _ {ℓ} {A : Type ℓ} where
  -- After an update that takes its rows out of the filter no row is left in it.
  pub count_where-update_out :
      (p : A → Bool) (f : A → A) (xs : List A)
      → ((x : A) → p x ≡ true → p (f x) ≡ false)
      → count_where p (update_many p f xs) ≡ 0
  count_where-update_out p f [] out = refl
  count_where-update_out p f (x ∷ xs) out = ground (arith, count_where-update_out p f xs out, out x)

  -- The first row of a filter, after an update that moves no row in or out of it.
  pub find_first-update_any :
      (p q : A → Bool) (f : A → A) (xs : List A) {x : A}
      → ((y : A) → q y ≡ true → p (f y) ≡ p y)
      → find_first p xs ≡ some x
      → find_first p (update_many q f xs) ≡ some (if q x then f x else x)
  find_first-update_any p q f [] stay h = cc
  find_first-update_any p q f (y ∷ ys) {x} stay h =
      ground (arith, find_first-update_any p q f ys {x = x} stay, stay y)

module _ {ℓ} {A : Type ℓ} where
  -- Rows that an update brings into a filter are there after it.
  pub count_where-update_in :
      (p q : A → Bool) (f : A → A) (xs : List A)
      → ((x : A) → p x ≡ true → q (f x) ≡ true)
      → 1 ≤ count_where p xs
      → 1 ≤ count_where q (update_many p f xs)
  count_where-update_in p q f [] into h = h
  count_where-update_in p q f (x ∷ xs) into h =
      ground (arith, count_where-update_in p q f xs into, into x)

  -- A filter that lets fewer rows through finds none where the wider one finds none.
  pub count_where_narrow :
      (p q : A → Bool) (xs : List A)
      → ((x : A) → p x ≡ true → q x ≡ true)
      → count_where q xs ≡ 0
      → count_where p xs ≡ 0
  count_where_narrow p q [] narrow h = refl
  count_where_narrow p q (x ∷ xs) narrow h =
      ground (arith, count_where_narrow p q xs narrow, narrow x)

  -- Filters that agree find the same.
  pub find_first-same :
      (p q : A → Bool) (xs : List A) → ((x : A) → p x ≡ q x) → find_first p xs ≡ find_first q xs
  find_first-same p q [] same = refl
  find_first-same p q (x ∷ xs) same = ground (arith, find_first-same p q xs same, same x)

pub Pairs-trans {ℓ} :
    {A : Type ℓ} (R : A → A → Type 0)
    → ((x y z : A) → R x y → R y z → R x z)
    → (xs ys zs : List A) → Pairs R xs ys
    → Pairs R ys zs
    → Pairs R xs zs
Pairs-trans R join xs ys zs none_left none_left = none_left
Pairs-trans R join xs ys zs (pair {x} {y} h t) (pair {y = z} k u) =
    pair (join x y z h k) (Pairs-trans R join _ _ _ t u)

-- A filter that the relation preserves counts as many.
pub Pairs-count_where {ℓ} :
    {A : Type ℓ} (R : A → A → Type 0) (p : A → Bool)
    → ((x y : A) → R x y → p y ≡ true → p x ≡ true)
    → (xs ys : List A) → Pairs R xs ys
    → count_where p ys ≤ count_where p xs
Pairs-count_where R p back xs ys none_left = omega arith
Pairs-count_where R p back xs ys (pair {x} {y} h t) =
    let rest = Pairs-count_where R p back _ _ t in
    let here = back x y h in ground (arith, rest, here)
