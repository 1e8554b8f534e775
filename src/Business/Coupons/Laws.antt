-- ===== src/Business/Coupons/Laws.antt =====
-- Coupons are handed out within their totals, and each claim is one coupon of a user.
use buchuqin_api.Prelude.{
  ℕ, zero, suc, ◌+◌, ◌≤◌, ◌≡◌, refl, Bool, true, false, List, [], ◌∷◌, ◌++◌, Option, none, some,
  ◌==◌, ◌&&◌, leb, ltb, if◌then◌else◌, arith, Bool-cases, inl, inr, All, ==_refl,
}
use buchuqin_api.Store.{Db, ◌>>=◌, ◌>>◌, read, expect, not_found, forbidden}
use buchuqin_api.Store.Holds.{Holds, Holds-require, Holds-expect, Holds-bind}
use buchuqin_api.Store.Table.{
  find_first, count_where, sum_where, update_many, count_where-append, find_first-sat,
}
use buchuqin_api.Store.Rows.{Clock, Coupon, UserCoupon, UserCouponStatus}
use buchuqin_api.Tenancy.{marketing_enabled}
use buchuqin_api.Business.Pay.{is_coupon_id, has_quota, take_quota, claim_quota, create_user_coupon}
use buchuqin_api.Business.Coupons.{
  take_coupon, claim_held, claim_within, check_claim, claim_coupon, is_holding, is_unused_holding,
  grant_taken, grant_new, grant_once, grant_live, grant_found, grant_coupon_inner, blocks,
  is_grantable,
}

-- No more of the coupon was claimed than its total.
abbrev pub IsAtMost : Option ℕ → ℕ → Type 0
IsAtMost none n = Unit
IsAtMost (some total) n = n ≤ total

abbrev pub IsWithinTotal : Coupon → Type 0
IsWithinTotal c = IsAtMost c.total c.claimed

abbrev pub claims : ℕ → Db → ℕ
claims id db = sum_where (is_coupon_id id) (λ c. c.claimed) db.coupons

abbrev pub is_of_coupon : ℕ → UserCoupon → Bool
is_of_coupon id h = h.coupon_id == id

abbrev pub handed_out : ℕ → Db → ℕ
handed_out id db = count_where (is_of_coupon id) db.user_coupons

-- From one database to the next, totals are kept and claims and coupons of users go up together.
pub record IsIssued (id : ℕ) (before after : Db) : Type 0 where
  pub within : All IsWithinTotal before.coupons → All IsWithinTotal after.coupons
  pub balance : claims id after + handed_out id before ≡ claims id before + handed_out id after

IsIssued-refl : (id : ℕ) (db : Db) → IsIssued id db db
IsIssued-refl id db = record { within = λ h. h; balance = refl }

abbrev pub is_left : ℕ → Coupon → Bool
is_left id c = is_coupon_id id c && has_quota c

IsAtMost-suc :
    (total : Option ℕ) (n : ℕ)
    → IsAtMost total n
    → (elim total [ none ↦ true | some t ↦ ltb n t ]) ≡ true
    → IsAtMost total (n + 1)
IsAtMost-suc none n h k = tt
IsAtMost-suc (some t) n h k = ground arith

take_quota-IsWithinTotal :
    (id : ℕ) (c : Coupon)
    → IsWithinTotal c
    → IsWithinTotal (if is_left id c then take_quota c else c)
take_quota-IsWithinTotal id c h = elim (Bool-cases (is_left id c)) [
  | inl e ↦
      let left : has_quota c ≡ true = ground arith in rw e (IsAtMost-suc c.total c.claimed h left)
  | inr e ↦ rw e h
]

claims-take :
    (id : ℕ) (cs : List Coupon)
    → sum_where (is_coupon_id id) (λ c. c.claimed) (update_many (is_left id) take_quota cs)
      ≡ sum_where (is_coupon_id id) (λ c. c.claimed) cs + count_where (is_left id) cs
claims-take id [] = refl
claims-take id (c ∷ cs) = ground (arith, claims-take id cs)

within-take :
    (id : ℕ) (cs : List Coupon)
    → All IsWithinTotal cs
    → All IsWithinTotal (update_many (is_left id) take_quota cs)
within-take id [] h = h
within-take id (c ∷ cs) h = (take_quota-IsWithinTotal id c (h.0), within-take id cs (h.1))

left-count :
    (id : ℕ) (cs : List Coupon) → count_where (is_left id) cs ≤ count_where (is_coupon_id id) cs
left-count id [] = omega arith
left-count id (c ∷ cs) = ground (arith, left-count id cs)

-- A coupon whose identifier is its own.
abbrev pub IsUniqueCoupon : ℕ → Db → Type 0
IsUniqueCoupon id db = count_where (is_coupon_id id) db.coupons ≤ 1

abbrev pub new_holding : ℕ → ℕ → Db → UserCoupon
new_holding user_id id db = record {
  id = db.next_id;
  user_id = user_id;
  coupon_id = id;
  status = UserCouponStatus.claimed;
}

-- Where a coupon was left, taking it and giving it to a user is one issue.
module _ (user_id id : ℕ) (db : Db) (unique : IsUniqueCoupon id db) where
  given-IsIssued :
      1 ≤ count_where (is_left id) db.coupons
      → IsIssued id db (record db {
        coupons = update_many (is_left id) take_quota db.coupons;
        user_coupons = db.user_coupons ++ (new_holding user_id id db ∷ []);
        next_id = db.next_id + 1;
      })
  given-IsIssued left =
      let one : count_where (is_left id) db.coupons ≤ count_where (is_coupon_id id) db.coupons =
        left-count id db.coupons in
      record {
        within = within-take id db.coupons;
        balance =
            rw
              (
                claims-take id db.coupons,
                count_where-append (is_of_coupon id) db.user_coupons
                    (new_holding user_id id db ∷ []),
                ==_refl id,
              )
              (omega arith);
      }

  take_coupon-IsIssued : Holds (IsIssued id db) (take_coupon user_id id db)
  unfolding take_coupon claim_quota create_user_coupon
  take_coupon-IsIssued = of_count (count_where (is_left id) db.coupons) refl
    where
      of_count :
          (n : ℕ)
          → count_where (is_left id) db.coupons ≡ n
          → Holds (IsIssued id db) (take_coupon user_id id db)
      of_count zero e = rw e tt
      of_count (suc n) e = rw e (given-IsIssued (rw e (omega arith)))

  grant_new-IsIssued : Holds (IsIssued id db) (grant_new user_id id db)
  unfolding grant_new grant_taken claim_quota create_user_coupon
  grant_new-IsIssued = of_count (count_where (is_left id) db.coupons) refl
    where
      of_count :
          (n : ℕ)
          → count_where (is_left id) db.coupons ≡ n
          → Holds (IsIssued id db) (grant_new user_id id db)
      of_count zero e = rw e record {
        within = within-take id db.coupons;
        balance = rw (claims-take id db.coupons, e) (omega arith);
      }
      of_count (suc n) e = rw e (given-IsIssued (rw e (omega arith)))

  claim_held-IsIssued :
      (limit held : ℕ) (u : Option UserCoupon)
      → Holds (IsIssued id db) (claim_held user_id id limit held u db)
  unfolding claim_held
  claim_held-IsIssued limit held (some h) = IsIssued-refl id db
  claim_held-IsIssued limit held none = elim (Bool-cases (leb limit held)) [
    | inl e ↦ rw e tt
    | inr e ↦ rw e take_coupon-IsIssued
  ]

  claim_within-IsIssued : (limit : ℕ) → Holds (IsIssued id db) (claim_within user_id id limit db)
  unfolding claim_within
  claim_within-IsIssued zero = take_coupon-IsIssued
  claim_within-IsIssued (suc n) =
      claim_held-IsIssued (suc n) (count_where (is_holding user_id id) db.user_coupons)
        (find_first (is_unused_holding user_id id) db.user_coupons)

check_claim-reads :
    (clock : Clock) (campus_id : ℕ) (c : Coupon) (db : Db)
    → Holds (λ d. d ≡ db) (check_claim clock campus_id c db)
unfolding check_claim
check_claim-reads clock campus_id c db = ground arith

-- What lets a claim through, and what it then does.
pub claim_coupon-Holds :
    (clock : Clock) (user_id id campus_id : ℕ) (db : Db) (Q : Db → Type 0)
    → ((c : Coupon)
        → find_first (is_coupon_id id) db.coupons ≡ some c
        → Holds Q (claim_within user_id id c.per_user_limit db))
    → Holds Q (claim_coupon clock user_id id campus_id db)
unfolding claim_coupon check_claim
claim_coupon-Holds clock user_id id campus_id db Q h =
    let found = find_first (is_coupon_id id) db.coupons in
    let body =
      λ (c : Coupon). check_claim clock campus_id c >> claim_within user_id id c.per_user_limit in
    let same = λ (d : Db). d ≡ db in
    Holds-require Q (marketing_enabled db (some campus_id)) (forbidden "营销能力未开通")
      (read (λ d. find_first (is_coupon_id id) d.coupons) >>= λ f.
        expect f (not_found "优惠券不存在") >>= body)
      db
      λ _. Holds-expect Q found (not_found "优惠券不存在") body db λ c here.
        Holds-bind same Q (check_claim clock campus_id c)
          (λ _. claim_within user_id id c.per_user_limit) db
          (check_claim-reads clock campus_id c db) λ _ d e. rw e (h c here)

-- A claim by hand of a coupon whose identifier is its own: if it goes through, no coupon is claimed past
-- its total where none was before, and the number claimed of this one has gone up by just the coupons of
-- it that users got.
pub claim_coupon-IsIssued :
    (clock : Clock) (user_id id campus_id : ℕ) (db : Db)
    → IsUniqueCoupon id db
    → Holds (IsIssued id db) (claim_coupon clock user_id id campus_id db)
claim_coupon-IsIssued clock user_id id campus_id db unique =
    claim_coupon-Holds clock user_id id campus_id db (IsIssued id db)
      λ c _. claim_within-IsIssued user_id id db unique c.per_user_limit

pub coupon-own :
    (id : ℕ) (c : Coupon) (db : Db) → find_first (is_coupon_id id) db.coupons ≡ some c → c.id ≡ id
coupon-own id c db e =
    let own : is_coupon_id id c ≡ true = find_first-sat (is_coupon_id id) db.coupons e in
    ground arith

grant_found-Holds :
    (clock : Clock) (repeated : Bool) (user_id id : ℕ) (db : Db) (Q : Db → Type 0)
    (found : Option Coupon)
    → find_first (is_coupon_id id) db.coupons ≡ found
    → Q db
    → Holds Q (grant_new user_id id db)
    → Holds Q (grant_found clock repeated user_id found db)
unfolding grant_found grant_live grant_once
grant_found-Holds clock repeated user_id id db Q none e old new = old
grant_found-Holds clock repeated user_id id db Q (some c) e old new =
    let own : c.id ≡ id = coupon-own id c db e in
    elim (Bool-cases (is_grantable clock c)) [
      | inl g ↦ rw (g, own) (of_rule repeated)
      | inr g ↦ rw g old
    ]
  where
    of_held : (held : Option UserCoupon) → Holds Q (grant_once user_id id held db)
    of_held (some h) = old
    of_held none = new

    of_rule : (r : Bool) → Holds Q (grant_live r user_id (record c { id = id }) db)
    of_rule true = new
    of_rule false = of_held (find_first (blocks user_id (record c { id = id })) db.user_coupons)

-- A grant by the program of a coupon whose identifier is its own, with or without the rule against a second
-- one: if it goes through, no coupon is claimed past its total where none was before, and the number claimed
-- of this one has gone up by just the coupons of it that users got.
pub grant_coupon_inner-IsIssued :
    (clock : Clock) (repeated : Bool) (user_id id : ℕ) (db : Db)
    → IsUniqueCoupon id db
    → Holds (IsIssued id db) (grant_coupon_inner clock repeated user_id id db)
unfolding grant_coupon_inner
grant_coupon_inner-IsIssued clock repeated user_id id db unique =
    grant_found-Holds clock repeated user_id id db (IsIssued id db)
      (find_first (is_coupon_id id) db.coupons) refl (IsIssued-refl id db)
      (grant_new-IsIssued user_id id db unique)
