-- ===== src/Commission/Record/Laws.antt =====
-- What `recordForDelivered` writes, and that it writes it once.
use buchuqin_api.Prelude.{
  ℕ, ◌≤◌, ◌≡◌, refl, inl, inr, Bool, true, Option, none, some, sym, List, [], ◌∷◌, ◌==◌, arith,
  Bool-cases, ==_refl, All,
}
use buchuqin_api.Store.{Db, transaction}
use buchuqin_api.Store.Table.{count_where, count_where-append}
use buchuqin_api.Store.Rows.{Order, Commission, CommissionKind}
use buchuqin_api.Commission.Record.{
  has_key, keep_or_add, add_all, record_for_delivered, delivered_targets, delivered_row, kind_code,
  manager_of, targets_of, new_commission,
}

-- The unique key of the table: no two rows for the same order, person and kind.
abbrev pub KeyIsUnique : List Commission → Type 0
KeyIsUnique rows = (o s : ℕ) (k : CommissionKind) → count_where (has_key o s k) rows ≤ 1

has_key-same :
    (c x : Commission) (o s : ℕ) (k : CommissionKind)
    → has_key o s k c ≡ true
    → has_key o s k x ≡ has_key c.order_id c.staff_id c.kind x
has_key-same c x o s k h = ground arith

count_where-same :
    (c : Commission) (rows : List Commission) (o s : ℕ) (k : CommissionKind)
    → has_key o s k c ≡ true
    → count_where (has_key o s k) rows ≡ count_where (has_key c.order_id c.staff_id c.kind) rows
count_where-same c [] o s k h = refl
count_where-same c (x ∷ xs) o s k h = rw (has_key-same c x o s k h, count_where-same c xs o s k h)

keep_or_add-KeyIsUnique :
    (c : Commission) (rows : List Commission) → KeyIsUnique rows → KeyIsUnique (keep_or_add c rows)
unfolding keep_or_add
keep_or_add-KeyIsUnique c rows u o s k =
    elim (Bool-cases (count_where (has_key c.order_id c.staff_id c.kind) rows == 0)) [
      | inr old ↦ rw old (u o s k)
      | inl new ↦
          rw (new, count_where-append (has_key o s k) rows (c ∷ []))
            (elim (Bool-cases (has_key o s k c)) [
              | inl e ↦ ground (arith, count_where-same c rows o s k e)
              | inr e ↦ ground (arith, u o s k)
            ])
    ]

has_key_refl : (c : Commission) → has_key c.order_id c.staff_id c.kind c ≡ true
has_key_refl c = rw (==_refl c.order_id, ==_refl c.staff_id) (==_refl (kind_code c.kind))

-- After the upsert the row is there, and a second one finds it.
keep_or_add-present :
    (c : Commission) (rows : List Commission)
    → 1 ≤ count_where (has_key c.order_id c.staff_id c.kind) (keep_or_add c rows)
unfolding keep_or_add
keep_or_add-present c rows =
    ground (
      arith,
      count_where-append (has_key c.order_id c.staff_id c.kind) rows (c ∷ []),
      has_key_refl c,
    )

-- An upsert takes no row away.
keep_or_add-grows :
    (p : Commission → Bool) (c : Commission) (rows : List Commission)
    → count_where p rows ≤ count_where p (keep_or_add c rows)
unfolding keep_or_add
keep_or_add-grows p c rows = ground (arith, count_where-append p rows (c ∷ []))

add_all-grows :
    (p : Commission → Bool) (row : ℕ → Commission) (ss : List ℕ) (rows : List Commission)
    → count_where p rows ≤ count_where p (add_all row ss rows)
unfolding add_all
add_all-grows p row [] rows = omega arith
add_all-grows p row (s ∷ ss) rows =
    omega
      (arith, keep_or_add-grows p (row s) rows, add_all-grows p row ss (keep_or_add (row s) rows))

add_all-KeyIsUnique :
    (row : ℕ → Commission) (ss : List ℕ) (rows : List Commission)
    → KeyIsUnique rows
    → KeyIsUnique (add_all row ss rows)
unfolding add_all
add_all-KeyIsUnique row [] rows u = u
add_all-KeyIsUnique row (s ∷ ss) rows u =
    add_all-KeyIsUnique row ss (keep_or_add (row s) rows) (keep_or_add-KeyIsUnique (row s) rows u)

-- A person has the row that is written for it.
abbrev HasRow : (ℕ → Commission) → List Commission → ℕ → Type 0
HasRow row rows s = 1 ≤ count_where (has_key (row s).order_id (row s).staff_id (row s).kind) rows

HasRow-add_all :
    (row : ℕ → Commission) (ss : List ℕ) (rows : List Commission)
    → All (HasRow row (add_all row ss rows)) ss
unfolding add_all
HasRow-add_all row [] rows = tt
HasRow-add_all row (s ∷ ss) rows =
    let c = row s in
    (
      omega (
        arith,
        keep_or_add-present c rows,
        add_all-grows (has_key c.order_id c.staff_id c.kind) row ss (keep_or_add c rows),
      ),
      HasRow-add_all row ss (keep_or_add c rows),
    )

-- Where everybody has a row, nothing is added.
add_all-paid :
    (row : ℕ → Commission) (ss : List ℕ) (rows : List Commission)
    → All (HasRow row rows) ss
    → add_all row ss rows ≡ rows
unfolding add_all keep_or_add
add_all-paid row [] rows h = refl
add_all-paid row (s ∷ ss) rows h =
    elim (Bool-cases
      (count_where (has_key (row s).order_id (row s).staff_id (row s).kind) rows == 0)) [
        | inl none_yet ↦ ground (arith, h.0)
        | inr paid ↦ rw paid (add_all-paid row ss rows h.1)
      ]

-- What the table of commissions is after a delivery.
abbrev pub commissions_after : ℕ → Order → Db → List Commission
commissions_after period o db = (transaction (record_for_delivered period o) db).commissions

-- The person, if there is one, has a commission of the order.
abbrev pub IsPaid : ℕ → List Commission → Option ℕ → Type 0
IsPaid order_id rows none = Unit
IsPaid order_id rows (some s) = 1 ≤ count_where (has_key order_id s CommissionKind.commission) rows

-- The rider of an order and the manager of its building, where it has them, have a commission of it.
abbrev pub IsSettled : Order → Db → List Commission → Type 0
IsSettled o db rows = IsPaid o.id rows o.rider_id × IsPaid o.id rows (manager_of db o)

id_eq : (a b : ℕ) → (a == b) ≡ true → a ≡ b
id_eq a b h = ground arith

targets_of-IsPaid :
    (order_id : ℕ) (rows : List Commission) (r m : Option ℕ)
    → All (λ s. IsPaid order_id rows (some s)) (targets_of r m)
    → IsPaid order_id rows r × IsPaid order_id rows m
unfolding targets_of
targets_of-IsPaid i rows none none h = (tt, tt)
targets_of-IsPaid i rows (some r) none h = (h.0, tt)
targets_of-IsPaid i rows none (some m) h = (tt, h.0)
targets_of-IsPaid i rows (some r) (some m) h = elim (Bool-cases (r == m)) [
  | inl e ↦ let paid : IsPaid i rows (some r) = (rw e at h).0 in (paid, rw (sym (id_eq r m e)) paid)
  | inr e ↦ let both = rw e at h in (both.0, both.1.0)
]

-- The commissions that are written of a delivery pay its rider and its manager.
pub add_all-IsSettled :
    (period : ℕ) (db : Db) (o : Order) (rows : List Commission)
    → IsSettled o db (add_all (delivered_row period db o) (delivered_targets db o) rows)
unfolding delivered_row delivered_targets new_commission
add_all-IsSettled period db o rows =
    let row = delivered_row period db o in
    targets_of-IsPaid o.id (add_all row (delivered_targets db o) rows) o.rider_id (manager_of db o)
      (HasRow-add_all row (delivered_targets db o) rows)

-- A delivery leaves one commission row, and no second one, for its rider and for the manager whom the query for
-- its building finds: the unique key of the table holds after it if it held before, each of the two, where
-- the order has one, has a row of the order's identifier and the person's, and recording the same delivery
-- again changes nothing.
pub record_for_delivered_once :
    (period : ℕ) (o : Order) (db : Db)
    → KeyIsUnique db.commissions
    → let rows = commissions_after period o db in
      KeyIsUnique rows
      × IsSettled o db rows
      × (commissions_after period o (transaction (record_for_delivered period o) db) ≡ rows)
unfolding transaction record_for_delivered manager_of
record_for_delivered_once period o db u =
    let row = delivered_row period db o in
    let ss = delivered_targets db o in
    (
      add_all-KeyIsUnique row ss db.commissions u,
      add_all-IsSettled period db o db.commissions,
      unfold delivered_targets delivered_row in
          add_all-paid row ss (add_all row ss db.commissions)
            (HasRow-add_all row ss db.commissions),
    )
