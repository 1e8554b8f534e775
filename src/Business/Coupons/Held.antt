-- ===== src/Business/Coupons/Held.antt =====
-- How many coupons of one kind a user has.
use buchuqin_api.Prelude.{
  ℕ, suc, ◌+◌, ◌≤◌, ◌≡◌, refl, false, [], ◌∷◌, Option, none, some, leb, if◌then◌else◌, arith,
  Bool-cases, inl, inr, ==_refl,
}
use buchuqin_api.Store.{Db, ok, bad_request}
use buchuqin_api.Store.Holds.{Holds, Holds-won}
use buchuqin_api.Store.Table.{
  find_first, count_where, update_many, count_where-append, find_first-same,
}
use buchuqin_api.Store.Rows.{Clock, Coupon, UserCoupon, CouponTrigger}
use buchuqin_api.Business.Pay.{is_coupon_id, take_quota, claim_quota, create_user_coupon}
use buchuqin_api.Business.Coupons.{
  take_coupon, claim_held, claim_within, claim_coupon, is_holding, is_unused_holding, grant_once,
  grant_live, grant_found, grant_coupon_inner, blocks, is_grantable, no_grant, existing,
}
use buchuqin_api.Business.Coupons.Laws.{is_left, coupon-own, claim_coupon-Holds, new_holding}

-- A grant that is not of the repeating kind (which the wheel's are) gives no second signup coupon to whoever
-- has had it, used or not: it gives the one that the person had, or none if the coupon is over, and the
-- database stays as it was.
pub grant_signup_once :
    (clock : Clock) (user_id id : ℕ) (c : Coupon) (h : UserCoupon) (db : Db)
    → find_first (is_coupon_id id) db.coupons ≡ some c
    → c.trigger ≡ CouponTrigger.signup
    → find_first (is_holding user_id id) db.user_coupons ≡ some h
    → grant_coupon_inner clock false user_id id db
      ≡ ok (if is_grantable clock c then existing h.id else no_grant) db
unfolding grant_coupon_inner grant_found grant_live grant_once
grant_signup_once clock user_id id c h db here signup held =
    let own : c.id ≡ id = coupon-own id c db here in
    elim (Bool-cases (is_grantable clock c)) [
      | inl e ↦
          rw (here, e, signup, own)
            (rw
              (
                find_first-same
                    (blocks user_id (record c { id = id; trigger = CouponTrigger.signup }))
                    (is_holding user_id id) db.user_coupons (λ x. ground arith),
                held,
              )
              refl)
      | inr e ↦ rw (here, e) refl
    ]

-- A coupon that is taken is one more of its user.
take_coupon_limit :
    (user_id id n : ℕ) (db : Db)
    → count_where (is_holding user_id id) db.user_coupons + 1 ≤ n
    → Holds
        (λ d. count_where (is_holding user_id id) d.user_coupons ≤ n)
        (take_coupon user_id id db)
unfolding take_coupon claim_quota create_user_coupon
take_coupon_limit user_id id n db below =
    let given = new_holding user_id id db in
    let Q = λ (d : Db). count_where (is_holding user_id id) d.user_coupons ≤ n in
    Holds-won Q (count_where (is_left id) db.coupons) (bad_request "优惠券已被领完")
      (create_user_coupon user_id id)
      (record db { coupons = update_many (is_left id) take_quota db.coupons })
      (rw
        (
          count_where-append (is_holding user_id id) db.user_coupons (given ∷ []),
          ==_refl user_id,
          ==_refl id,
        )
        (omega arith))

claim_within_limit :
    (user_id id n : ℕ) (db : Db)
    → count_where (is_holding user_id id) db.user_coupons ≤ suc n
    → Holds
        (λ d. count_where (is_holding user_id id) d.user_coupons ≤ suc n)
        (claim_within user_id id (suc n) db)
unfolding claim_within claim_held
claim_within_limit user_id id n db held =
    of_unused (find_first (is_unused_holding user_id id) db.user_coupons)
  where
    of_unused :
        (u : Option UserCoupon)
        → Holds
            (λ d. count_where (is_holding user_id id) d.user_coupons ≤ suc n)
            (claim_held user_id id
              (suc n)
              (count_where (is_holding user_id id) db.user_coupons)
              u
              db)
    of_unused (some h) = held
    of_unused none =
        elim (Bool-cases (leb (suc n) (count_where (is_holding user_id id) db.user_coupons))) [
          | inl e ↦ rw e tt
          | inr e ↦ rw e (take_coupon_limit user_id id (suc n) db (ground arith))
        ]

-- A claim by hand that goes through leaves a person, who had no more of a limited coupon than its limit, with
-- no more of it than that.
pub claim_coupon_limit :
    (clock : Clock) (user_id id campus_id n : ℕ) (c : Coupon) (db : Db)
    → find_first (is_coupon_id id) db.coupons ≡ some c
    → c.per_user_limit ≡ suc n
    → count_where (is_holding user_id id) db.user_coupons ≤ suc n
    → Holds
        (λ d. count_where (is_holding user_id id) d.user_coupons ≤ suc n)
        (claim_coupon clock user_id id campus_id db)
claim_coupon_limit clock user_id id campus_id n c db here limit held =
    let Q = λ (d : Db). count_where (is_holding user_id id) d.user_coupons ≤ suc n in
    claim_coupon-Holds clock user_id id campus_id db Q λ c' here'.
      let same : c'.per_user_limit ≡ suc n = cc in rw same (claim_within_limit user_id id n db held)
