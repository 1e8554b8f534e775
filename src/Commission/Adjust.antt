-- ===== src/Commission/Adjust.antt =====
-- src/commission/commission.service.ts: what a refund takes back, and the sums of a month.
pub mod Upsert
pub mod Share
pub mod People
pub mod Laws
use Prim.Native.String.{String}
use buchuqin_api.Prelude.{
  ℕ, ℤ, pos, negsuc, suc, zero, ◌+◌, ◌-◌, ◌*◌, ◌/◌, Bool, true, false, List, [], ◌∷◌, ◌++◌, Option,
  none, some, ◌==◌, ◌||◌, ◌&&◌, not, if◌then◌else◌, leb, pos_part, neg_part, ◌+ℤ◌, keep, ltb_ℤ,
}
use buchuqin_api.Common.Double.{divide, times, round}
use buchuqin_api.Store.{Db, Tx, ◌>>=◌, ◌>>◌, pure, read, write}
use buchuqin_api.Store.Table.{find_first, count_where, update_many, delete_many}
use buchuqin_api.Store.Rows.{CommissionKind, Commission, CommissionStatus}
use buchuqin_api.Commission.Record.{has_key, kind_code}

-- `ratio`: the two amounts of which the caller gives the quotient.
pub record Ratio : Type 0 where
  pub num : ℕ
  pub den : ℕ

abbrev pub is_commission_of : ℕ → Commission → Bool
is_commission_of order_id c =
    (c.order_id == order_id) && (kind_code c.kind == kind_code CommissionKind.commission)

abbrev pub abs : ℤ → ℕ
abs z = pos_part z + neg_part z

-- `originals.reduce((sum, record) => sum + Math.abs(record.amount), 0)`
unfoldable pub original_amount : ℕ → List Commission → ℕ
original_amount staff_id [] = 0
original_amount staff_id (c ∷ cs) =
    let rest = original_amount staff_id cs in
    if c.staff_id == staff_id then abs c.amount + rest else rest

-- `Math.round(amount * max(0, min(1, ratio)))`, the quotient and the product rounded as JavaScript does. A
-- quotient of 1 or more is cut to 1; that of 0 is 0, or no number, which `refundAdjust` takes as 0 too.
unfoldable pub bounded_share : ℕ → Ratio → ℕ
bounded_share amount ratio =
    if ratio.num == 0
    then 0
    else if leb ratio.den ratio.num
    then amount
    else round (times amount (divide ratio.num ratio.den))

-- `-n`
abbrev pub neg : ℕ → ℤ
neg zero = pos 0
neg (suc n) = negsuc n

pub mem : ℕ → List ℕ → Bool
mem a [] = false
mem a (x ∷ xs) = (a == x) || mem a xs

-- `[...new Set(records.map(r => r.staffId))]`, in the order of the first occurrence.
pub distinct : List ℕ → List Commission → List ℕ
unfolding mem
distinct seen [] = []
distinct seen (c ∷ cs) =
    let next = distinct (c.staff_id ∷ seen) cs in
    let same = distinct seen cs in if mem c.staff_id seen then same else c.staff_id ∷ next

-- The `create` of the upsert, over the first of the person's rows.
abbrev new_adjustment : ℕ → String → ℤ → Commission → Commission
new_adjustment period reason amount sample = record sample {
  amount = amount;
  kind = CommissionKind.adjustment;
  status = CommissionStatus.adjusted;
  period = period;
  remark = reason;
}

abbrev adjust_row : ℕ → String → ℤ → Commission → Commission
adjust_row period reason amount c = record c {
  amount = amount;
  status = CommissionStatus.adjusted;
  period = period;
  remark = reason;
}

add_sample : ℕ → String → ℤ → Option Commission → List Commission → List Commission
add_sample period reason amount none rows = rows
add_sample period reason amount (some sample) rows =
    rows ++ (new_adjustment period reason amount sample ∷ [])

-- The upsert of one person's adjustment, or its removal where the amount is 0.
unfoldable pub put_adjustment :
    ℕ → String → ℕ → ℕ → ℕ → Option Commission → List Commission → List Commission
unfolding add_sample
put_adjustment period reason order_id staff_id zero sample rows =
    delete_many (has_key order_id staff_id CommissionKind.adjustment) rows
put_adjustment period reason order_id staff_id (suc n) sample rows =
    let key = has_key order_id staff_id CommissionKind.adjustment in
    if count_where key rows == 0
    then add_sample period reason (neg (suc n)) sample rows
    else update_many key (adjust_row period reason (neg (suc n))) rows

abbrev pub is_staff : ℕ → Commission → Bool
is_staff staff_id c = c.staff_id == staff_id

-- The loop over the people; `records` are the order's commissions, read before it.
unfoldable pub adjust_each :
    ℕ → String → ℕ → Ratio → List Commission → List ℕ → List Commission → List Commission
unfolding put_adjustment original_amount bounded_share
adjust_each period reason order_id ratio records [] rows = rows
adjust_each period reason order_id ratio records (s ∷ ss) rows =
    adjust_each period reason order_id ratio records ss (
      put_adjustment period reason order_id s (bounded_share (original_amount s records) ratio)
        (find_first (is_staff s) records) rows)

-- `refundAdjust`
unfoldable pub refund_adjust : ℕ → ℕ → String → Ratio → Tx (Unit {0})
unfolding adjust_each distinct
refund_adjust period order_id reason ratio = write λ db.
    let records = keep (is_commission_of order_id) db.commissions in
    record db {
      commissions =
          adjust_each period reason order_id ratio records (distinct [] records) db.commissions;
    }

abbrev sum_ℤ : List Commission → ℤ
sum_ℤ [] = pos 0
sum_ℤ (c ∷ cs) = c.amount +ℤ sum_ℤ cs

pub record MonthlySums : Type 0 where
  pub commission_total : ℤ
  pub adjustment : ℤ

-- `monthly`: the positive and the negative rows of a person and a month.
unfoldable pub monthly : ℕ → ℕ → Db → MonthlySums
monthly staff_id period db =
    let records =
      keep (λ (c : Commission). (c.staff_id == staff_id) && (c.period == period)) db.commissions in
    record {
      commission_total = sum_ℤ (keep (λ c. ltb_ℤ (pos 0) c.amount) records);
      adjustment = sum_ℤ (keep (λ c. ltb_ℤ c.amount (pos 0)) records);
    }
