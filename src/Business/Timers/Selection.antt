-- ===== src/Business/Timers/Selection.antt =====
-- Which orders the timer selects: those that it may take, where their identifiers are their own.
use buchuqin_api.Prelude.{
  ℕ, ◌+◌, ◌*◌, ◌≤◌, ◌≡◌, refl, Bool, true, false, List, [], ◌∷◌, Option, none, some, ◌==◌, ==_refl,
  ◌&&◌, arith, take, keep, All, All-map, All-take, Bool-cases, inl, inr,
}
use buchuqin_api.Store.{Db, has_order_id}
use buchuqin_api.Store.Table.{Pairs, Pairs-refl, Pairs-trans, Pairs-count_where, count_where}
use buchuqin_api.Store.Rows.{Order, Campus}
use buchuqin_api.Business.Timers.{
  is_paid_before, is_paid_since, insert_order, by_paid_at, is_waiting, outbound_each,
  outbound_campuses, auto_outbound_paid_orders,
}
use buchuqin_api.Admin.Orders.Edges.{or_right}
use buchuqin_api.Business.Timers.Departures.{
  is_due, is_old, is_unfit, IsReadyOrder, Departs, Departs-refl, Departs-trans,
  outbound_each-Departs,
}

and_left : (a b : Bool) → a && b ≡ true → a ≡ true
and_left true b h = refl
and_left false b h = h

and_right : (a b : Bool) → a && b ≡ true → b ≡ true
and_right true b h = h
and_right false b h = cc

module _ (now : ℕ) (cs : List Campus) where
  -- The orders that the timer selects are fit, where their identifiers are their own.
  abbrev IsCovered : Campus → Type 0
  IsCovered c =
      (id : ℕ) (t : Option ℕ)
      → (id == c.id) && is_paid_since now (c.auto_outbound_delay * 1000) t ≡ true
      → is_due now cs id t ≡ true

  abbrev is_chosen : Campus → ℕ → Order → Bool
  is_chosen c id x = has_order_id id x && is_waiting now c x

  waiting-fit :
      (c : Campus) (id : ℕ) (x : Order)
      → IsCovered c
      → is_chosen c id x ≡ true
      → is_unfit now cs id x ≡ false
  waiting-fit c id x covered h =
      let due : is_due now cs x.campus_id x.paid_at ≡ true =
        covered x.campus_id x.paid_at (ground arith) in
      ground arith

  chosen_or_unfit :
      (c : Campus) (id : ℕ) (xs : List Order)
      → IsCovered c
      → count_where (is_chosen c id) xs + count_where (is_unfit now cs id) xs
        ≤ count_where (has_order_id id) xs
  chosen_or_unfit c id [] covered = omega arith
  chosen_or_unfit c id (x ∷ xs) covered =
      let rest = chosen_or_unfit c id xs covered in
      elim (Bool-cases (is_chosen c id x)) [
        | inl e ↦
            let fit = waiting-fit c id x covered e in
            let own : has_order_id id x ≡ true = ground arith in
            rw (e, fit, own) (omega (arith, rest))
        | inr e ↦ elim (Bool-cases (is_unfit now cs id x)) [
          | inl f ↦
              let own : has_order_id id x ≡ true = ground arith in
              rw (e, f, own) (omega (arith, rest))
          | inr f ↦ rw (e, f) (ground (arith, rest))
        ]
      ]

  kept-chosen :
      (c : Campus) (all xs : List Order)
      → ((p : Order → Bool) → count_where p xs ≤ count_where p all)
      → All (λ o. 1 ≤ count_where (is_chosen c o.id) all) (keep (is_waiting now c) xs)
  kept-chosen c all [] part = tt
  kept-chosen c all (x ∷ xs) part =
      let rest = kept-chosen c all xs (λ p. ground (arith, part p)) in
      let own : (x.id == x.id) ≡ true = ==_refl x.id in
      elim (Bool-cases (is_waiting now c x)) [
        | inl e ↦ rw e (ground (arith, part (is_chosen c x.id), own), rest)
        | inr e ↦ rw e rest
      ]

  selected-IsReady :
      (c : Campus) (d : Db)
      → IsCovered c
      → ((id : ℕ) → count_where (has_order_id id) d.orders ≤ 1)
      → All (IsReadyOrder now cs d) (keep (is_waiting now c) d.orders)
  selected-IsReady c d covered single =
      All-map (keep (is_waiting now c) d.orders)
        (λ o here. omega (arith, here, chosen_or_unfit c o.id d.orders covered, single o.id))
        (kept-chosen c d.orders d.orders (λ p. omega arith))

  All-insert_order :
      (P : Order → Type 0) (o : Order) (xs : List Order)
      → P o
      → All P xs
      → All P (insert_order o xs)
  All-insert_order P o [] h t = (h, tt)
  All-insert_order P o (x ∷ xs) h (k, t) = elim (Bool-cases (is_paid_before x.paid_at o.paid_at)) [
    | inl e ↦ rw e (k, All-insert_order P o xs h t)
    | inr e ↦ rw e (h, (k, t))
  ]

  All-by_paid_at : (P : Order → Type 0) (xs : List Order) → All P xs → All P (by_paid_at xs)
  unfolding by_paid_at
  All-by_paid_at P [] h = tt
  All-by_paid_at P (x ∷ xs) (h, t) = All-insert_order P x (by_paid_at xs) h (All-by_paid_at P xs t)

  outbound_campuses-Departs :
      (ks : List Campus) (db : Db)
      → All IsCovered ks
      → ((id : ℕ) → count_where (has_order_id id) db.orders ≤ 1)
      → Pairs (Departs now cs) db.orders (outbound_campuses now ks db).orders
  unfolding outbound_campuses
  outbound_campuses-Departs [] db covered single =
      Pairs-refl (Departs now cs) (Departs-refl now cs) db.orders
  outbound_campuses-Departs (c ∷ ks) db (first, others) single =
      let chosen = keep (is_waiting now c) db.orders in
      let os = take 20 (by_paid_at chosen) in
      let d = outbound_each now os db in
      let ready =
        All-take (IsReadyOrder now cs db) 20 (by_paid_at chosen)
          (All-by_paid_at (IsReadyOrder now cs db) chosen (selected-IsReady c db first single)) in
      let step = outbound_each-Departs now cs os db ready in
      Pairs-trans (Departs now cs) (Departs-trans now cs) db.orders d.orders
        (outbound_campuses now ks d).orders step
        (outbound_campuses-Departs ks d others λ id.
          let fewer =
            Pairs-count_where (Departs now cs) (has_order_id id)
              (λ x y (same, _) h. rw same.id at h) db.orders d.orders step in
          omega (arith, fewer, single id))

-- The campuses that the timer visits are those by which an order is due.
old_enough :
    (now delay : ℕ) (t : Option ℕ)
    → is_paid_since now (delay * 1000) t ≡ true
    → is_old now delay t ≡ true
old_enough now delay none h = h
old_enough now delay (some t) h = ground arith

due_here :
    (now : ℕ) (c : Campus) (cs : List Campus) (id : ℕ) (t : Option ℕ)
    → c.active && c.auto_outbound_enabled ≡ true
    → (id == c.id) && is_paid_since now (c.auto_outbound_delay * 1000) t ≡ true
    → is_due now (c ∷ cs) id t ≡ true
due_here now c cs id t e h =
    let since : is_paid_since now (c.auto_outbound_delay * 1000) t ≡ true = and_right _ _ h in
    let same : (id == c.id) ≡ true = and_left _ _ h in
    let active : c.active ≡ true = and_left _ _ e in
    let enabled : c.auto_outbound_enabled ≡ true = and_right _ _ e in
    rw (active, enabled, same, old_enough now c.auto_outbound_delay t since) refl

campuses-IsCovered :
    (now : ℕ) (cs : List Campus)
    → All (IsCovered now cs) (keep (λ c. c.active && c.auto_outbound_enabled) cs)
campuses-IsCovered now [] = tt
campuses-IsCovered now (c ∷ cs) =
    let chosen = keep (λ (k : Campus). k.active && k.auto_outbound_enabled) cs in
    let others : All (IsCovered now (c ∷ cs)) chosen =
      All-map chosen (λ k covered id t h. or_right _ _ (covered id t h))
        (campuses-IsCovered now cs) in
    elim (Bool-cases (c.active && c.auto_outbound_enabled)) [
      | inl e ↦ rw e (λ id t h. due_here now c cs id t e h, others)
      | inr e ↦ rw e others
    ]

pub auto_outbound-Departs :
    (now : ℕ) (db : Db)
    → ((id : ℕ) → count_where (has_order_id id) db.orders ≤ 1)
    → Pairs (Departs now db.campuses) db.orders (auto_outbound_paid_orders now db).orders
unfolding auto_outbound_paid_orders
auto_outbound-Departs now db single =
    outbound_campuses-Departs now db.campuses
      (keep (λ c. c.active && c.auto_outbound_enabled) db.campuses) db
      (campuses-IsCovered now db.campuses) single
