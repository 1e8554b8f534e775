-- ===== src/Commission/Adjust/Upsert.antt =====
-- One round of `refundAdjust`: the upsert of one person's adjustment.
use Prim.Native.String.{String}
use buchuqin_api.Prelude.{
  ℕ, zero, suc, ℤ, ◌≡◌, ◌≢◌, refl, ap, inl, inr, true, false, List, Option, none, some, ◌==◌, arith,
  Bool-cases, ==_refl, keep,
}
use buchuqin_api.Store.Table.{
  find_first, count_where, update_many, find_first-append, find_first-append_miss,
  find_first-update_miss, find_first-delete_miss, find_first-delete, find_first-update,
  keep-append_miss, keep-update_miss, keep-delete_miss, count_where-none,
}
use buchuqin_api.Store.Rows.{Commission, CommissionKind}
use buchuqin_api.Commission.Record.{has_key}
use buchuqin_api.Commission.Adjust.{
  neg, put_adjustment, add_sample, new_adjustment, adjust_row, is_commission_of,
}

abbrev pub amount_of : Option Commission → Option ℤ
amount_of none = none
amount_of (some c) = some c.amount

-- The adjustment of a person for an order, if there is one.
abbrev pub adjustment_at : ℕ → ℕ → List Commission → Option ℤ
adjustment_at o s rows = amount_of (find_first (has_key o s CommissionKind.adjustment) rows)

-- The adjustment that the amount asks for: none at all for 0.
abbrev pub owed : ℕ → Option ℤ
owed zero = none
owed (suc n) = some (neg (suc n))

key_new :
    (p : ℕ) (r : String) (a : ℤ) (c : Commission) (o s : ℕ)
    → c.order_id ≡ o
    → c.staff_id ≡ s
    → has_key o s CommissionKind.adjustment (new_adjustment p r a c) ≡ true
key_new p r a c o s e f = rw (e, f, ==_refl o, ==_refl s)

key_adjust :
    (p : ℕ) (r : String) (a : ℤ) (c : Commission) (o s : ℕ) (k : CommissionKind)
    → has_key o s k (adjust_row p r a c) ≡ has_key o s k c
key_adjust p r a c o s k = refl

abbrev pub IsSample : ℕ → ℕ → Option Commission → Type 0
IsSample o s none = ⊥
IsSample o s (some c) = (c.order_id ≡ o) × (c.staff_id ≡ s)

zero_of_test : (n : ℕ) → (n == 0) ≡ true → n ≡ 0
zero_of_test n h = ground arith

add_sample-at :
    (p : ℕ) (r : String) (o s n : ℕ) (c : Option Commission) (rows : List Commission)
    → IsSample o s c
    → count_where (has_key o s CommissionKind.adjustment) rows ≡ 0
    → adjustment_at o s (add_sample p r (neg (suc n)) c rows) ≡ owed (suc n)
unfolding add_sample
add_sample-at p r o s n none rows h e = absurd h
add_sample-at p r o s n (some c) rows h e = ap amount_of (
    find_first-append (has_key o s CommissionKind.adjustment) rows
      (new_adjustment p r (neg (suc n)) c) e (key_new p r (neg (suc n)) c o s h.0 h.1))

update-at :
    (p : ℕ) (r : String) (o s n : ℕ) (rows : List Commission) (found : Option Commission)
    → found ≢ none
    → find_first (has_key o s CommissionKind.adjustment) rows ≡ found
    → adjustment_at o s
        (update_many (has_key o s CommissionKind.adjustment) (adjust_row p r (neg (suc n))) rows)
      ≡ owed (suc n)
update-at p r o s n rows none h e = absurd (h refl)
update-at p r o s n rows (some c) h e = ap amount_of (
    find_first-update (has_key o s CommissionKind.adjustment) (adjust_row p r (neg (suc n))) rows
      (λ y k. k) e)

-- The upsert of one person's adjustment sets it to the amount, whatever it was before.
pub put_adjustment-at :
    (p : ℕ) (r : String) (o s n : ℕ) (c : Option Commission) (rows : List Commission)
    → IsSample o s c
    → adjustment_at o s (put_adjustment p r o s n c rows) ≡ owed n
unfolding put_adjustment
put_adjustment-at p r o s zero c rows h =
    ap amount_of (find_first-delete (has_key o s CommissionKind.adjustment) rows)
put_adjustment-at p r o s (suc n) c rows h =
    let key = has_key o s CommissionKind.adjustment in
    elim (Bool-cases (count_where key rows == 0)) [
      | inl e ↦ rw e (add_sample-at p r o s n c rows h (zero_of_test _ e))
      | inr e ↦ rw e (
          update-at p r o s n rows (find_first key rows)
            (λ (q : find_first key rows ≡ none). ground (arith, count_where-none key rows q)) refl)
    ]

-- The adjustments of the others stay.
key_apart :
    (o s t : ℕ) (k : CommissionKind) (c : Commission)
    → s ≢ t
    → has_key o s k c ≡ true
    → has_key o t k c ≡ false
key_apart o s t k c h e = ground arith

add_sample-apart :
    (p : ℕ) (r : String) (o s t n : ℕ) (c : Option Commission) (rows : List Commission)
    → IsSample o s c
    → s ≢ t
    → adjustment_at o t (add_sample p r (neg (suc n)) c rows) ≡ adjustment_at o t rows
unfolding add_sample
add_sample-apart p r o s t n none rows h ne = refl
add_sample-apart p r o s t n (some c) rows h ne = ap amount_of (
    find_first-append_miss (has_key o t CommissionKind.adjustment) rows
      (new_adjustment p r (neg (suc n)) c)
      (key_apart o s t CommissionKind.adjustment (new_adjustment p r (neg (suc n)) c) ne
        (key_new p r (neg (suc n)) c o s h.0 h.1)))

pub put_adjustment-apart :
    (p : ℕ) (r : String) (o s t n : ℕ) (c : Option Commission) (rows : List Commission)
    → IsSample o s c
    → s ≢ t
    → adjustment_at o t (put_adjustment p r o s n c rows) ≡ adjustment_at o t rows
unfolding put_adjustment
put_adjustment-apart p r o s t zero c rows h ne = ap amount_of (
    find_first-delete_miss (has_key o t CommissionKind.adjustment)
      (has_key o s CommissionKind.adjustment) rows
      (λ x. key_apart o s t CommissionKind.adjustment x ne))
put_adjustment-apart p r o s t (suc n) c rows h ne =
    let key = has_key o s CommissionKind.adjustment in
    elim (Bool-cases (count_where key rows == 0)) [
      | inl e ↦ rw e (add_sample-apart p r o s t n c rows h ne)
      | inr e ↦ rw e (
          ap amount_of (
            find_first-update_miss (has_key o t CommissionKind.adjustment) key
              (adjust_row p r (neg (suc n))) rows
              (λ x. key_apart o s t CommissionKind.adjustment x ne)
              (λ x. key_apart o s t CommissionKind.adjustment x ne)))
    ]

add_sample-keep :
    (p : ℕ) (r : String) (n q : ℕ) (c : Option Commission) (rows : List Commission)
    → keep (is_commission_of q) (add_sample p r (neg n) c rows) ≡ keep (is_commission_of q) rows
unfolding add_sample
add_sample-keep p r n q none rows = refl
add_sample-keep p r n q (some c) rows =
    keep-append_miss (is_commission_of q) rows (new_adjustment p r (neg n) c) (ground arith)

-- What was earned stays: the upserts only touch the rows of the adjustments.
pub put_adjustment-keep :
    (p : ℕ) (r : String) (o s n q : ℕ) (c : Option Commission) (rows : List Commission)
    → keep (is_commission_of q) (put_adjustment p r o s n c rows) ≡ keep (is_commission_of q) rows
unfolding put_adjustment
put_adjustment-keep p r o s zero q c rows =
    keep-delete_miss (is_commission_of q) (has_key o s CommissionKind.adjustment) rows
      (λ x h. ground arith)
put_adjustment-keep p r o s (suc n) q c rows =
    let key = has_key o s CommissionKind.adjustment in
    elim (Bool-cases (count_where key rows == 0)) [
      | inl e ↦ rw e (add_sample-keep p r (suc n) q c rows)
      | inr e ↦ rw e (
          keep-update_miss (is_commission_of q) key (adjust_row p r (neg (suc n))) rows
            (λ x h. ground arith) (λ x h. ground arith))
    ]
