-- ===== src/Commission/Adjust/People.antt =====
-- The people over whom `refundAdjust` goes: each once, and each with a commission of the order.
use buchuqin_api.Prelude.{
  ℕ, ◌≤◌, ◌≡◌, ◌≢◌, refl, inl, inr, true, false, List, [], ◌∷◌, Option, none, some, ◌==◌, arith,
  Bool-cases, All, keep, map,
}
use mathlib.Core.Path.{subst}
use buchuqin_api.Store.Table.{find_first, count_where, find_first-keep, count_where-none}
use buchuqin_api.Store.Rows.{Commission}
use buchuqin_api.Commission.Adjust.{is_staff, is_commission_of, mem, distinct}
use buchuqin_api.Commission.Adjust.Upsert.{IsSample}

-- The list of the people: no one twice, and each with a row of the order.
abbrev pub IsAbsent : ℕ → ℕ → Type 0
IsAbsent s t = s ≢ t

abbrev pub Apart : List ℕ → Type 0
Apart [] = Unit
Apart (s ∷ ss) = All (IsAbsent s) ss × Apart ss

abbrev pub HasSample : ℕ → List Commission → ℕ → Type 0
HasSample o records s = IsSample o s (find_first (is_staff s) records)

abbrev IsNew : List ℕ → ℕ → Type 0
IsNew seen s = mem s seen ≡ false

All-IsNew-tail :
    (a : ℕ) (seen ss : List ℕ)
    → All (IsNew (a ∷ seen)) ss
    → All (IsAbsent a) ss × All (IsNew seen) ss
unfolding mem
All-IsNew-tail a seen [] h = (tt, tt)
All-IsNew-tail a seen (s ∷ ss) h =
    let (absent, new) = All-IsNew-tail a seen ss h.1 in
    ((ground arith, absent), (ground arith, new))

pub distinct-lem :
    (seen : List ℕ) (cs : List Commission)
    → All (IsNew seen) (distinct seen cs) × Apart (distinct seen cs)
unfolding distinct
distinct-lem seen [] = (tt, tt)
distinct-lem seen (c ∷ cs) = elim (Bool-cases (mem c.staff_id seen)) [
  | inl old ↦ rw old (distinct-lem seen cs)
  | inr new ↦
      let (fresh, apart) = distinct-lem (c.staff_id ∷ seen) cs in
      let (absent, news) = All-IsNew-tail c.staff_id seen (distinct (c.staff_id ∷ seen) cs) fresh in
      rw new ((new, news), (absent, apart))
]

mem-All : (P : ℕ → Type 0) (a : ℕ) (xs : List ℕ) → mem a xs ≡ true → All P xs → P a
unfolding mem
mem-All P a [] e h = cc
mem-All P a (x ∷ xs) e h = elim (Bool-cases (a == x)) [
  | inl same ↦ let eq : x ≡ a = ground arith in subst P eq h.0
  | inr other ↦ mem-All P a xs (rw other at e) h.1
]

-- What holds of the distinct ones holds of everybody.
pub distinct-covers :
    (P : ℕ → Type 0) (seen : List ℕ) (cs : List Commission)
    → All P seen
    → All P (distinct seen cs)
    → All P (map (λ c. c.staff_id) cs)
unfolding distinct
distinct-covers P seen [] old h = tt
distinct-covers P seen (c ∷ cs) old h = elim (Bool-cases (mem c.staff_id seen)) [
  | inl e ↦ (mem-All P c.staff_id seen e old, distinct-covers P seen cs old (rw e at h))
  | inr e ↦
      let (first, rest) = rw e at h in
      (first, distinct-covers P (c.staff_id ∷ seen) cs (first, old) rest)
]

abbrev OccursIn : List Commission → ℕ → Type 0
OccursIn cs s = 1 ≤ count_where (is_staff s) cs

All-OccursIn-cons :
    (c : Commission) (cs : List Commission) (ss : List ℕ)
    → All (OccursIn cs) ss
    → All (OccursIn (c ∷ cs)) ss
All-OccursIn-cons c cs [] h = tt
All-OccursIn-cons c cs (s ∷ ss) h = (ground arith, All-OccursIn-cons c cs ss h.1)

pub All-OccursIn-distinct :
    (seen : List ℕ) (cs : List Commission) → All (OccursIn cs) (distinct seen cs)
unfolding distinct
All-OccursIn-distinct seen [] = tt
All-OccursIn-distinct seen (c ∷ cs) = elim (Bool-cases (mem c.staff_id seen)) [
  | inl old ↦ rw old (All-OccursIn-cons c cs (distinct seen cs) (All-OccursIn-distinct seen cs))
  | inr new ↦ rw new (
    ground arith,
    All-OccursIn-cons c cs (distinct (c.staff_id ∷ seen) cs)
        (All-OccursIn-distinct (c.staff_id ∷ seen) cs),
  )
]

IsSample-of :
    (o s : ℕ) (rows : List Commission) (found : Option Commission)
    → find_first (is_staff s) (keep (is_commission_of o) rows) ≡ found
    → found ≢ none
    → IsSample o s found
IsSample-of o s rows none e h = absurd (h refl)
IsSample-of o s rows (some c) e h =
    let (by_staff, by_order) = find_first-keep (is_staff s) (is_commission_of o) rows e in
    ground arith

pub All-HasSample :
    (o : ℕ) (rows : List Commission) (ss : List ℕ)
    → All (OccursIn (keep (is_commission_of o) rows)) ss
    → All (HasSample o (keep (is_commission_of o) rows)) ss
All-HasSample o rows [] h = tt
All-HasSample o rows (s ∷ ss) h =
    let records = keep (is_commission_of o) rows in
    (
      IsSample-of o s rows (find_first (is_staff s) records) refl
          (λ (q : find_first (is_staff s) records ≡ none).
            omega (arith, h.0, count_where-none (is_staff s) records q)),
      All-HasSample o rows ss h.1,
    )
