-- ===== src/Business/Coupons.antt =====
-- src/business/business.service.ts: how coupons come to a user (`claimCoupon`, `grantCouponInner`,
-- `grantSignupCoupons`, `issueWheelCoupon`, `pickPrize`) and which may be spent (`validateUserCoupon`).
-- `perUserLimit` is a number of the row here; a new coupon has no limit column that is null.
pub mod Laws
pub mod Held
pub mod Wheel
use Prim.Native.String.{String}
use buchuqin_api.Prelude.{
  ℕ, zero, suc, ◌+◌, Bool, true, false, List, [], ◌∷◌, ◌++◌, Option, none, some, ◌==◌, ◌||◌, ◌&&◌,
  not, leb, ltb, if◌then◌else◌, is_some, keep,
}
use buchuqin_api.Store.{
  Db, Tx, ◌>>=◌, ◌>>◌, pure, read, require, expect, throw, won, bad_request, not_found, forbidden,
}
use buchuqin_api.Store.Table.{find_first, count_where}
use buchuqin_api.Store.Rows.{Clock, Coupon, UserCoupon, UserCouponStatus, CouponTrigger, CouponKind}
use buchuqin_api.Tenancy.{marketing_enabled}
use buchuqin_api.Business.Closing.{is_coupon}
use buchuqin_api.Business.Pay.{
  is_coupon_id, has_coupon_id, is_unexpired, has_quota, claim_quota, create_user_coupon,
}

abbrev pub is_signup : CouponTrigger → Bool
is_signup CouponTrigger.signup = true
is_signup _ = false

abbrev is_manual : CouponTrigger → Bool
is_manual CouponTrigger.manual = true
is_manual _ = false

abbrev pub is_partner : CouponKind → Bool
is_partner CouponKind.partner = true
is_partner _ = false

-- The coupons that a user has of one kind, and those of them that are not used up.
abbrev pub is_holding : ℕ → ℕ → UserCoupon → Bool
is_holding user_id coupon_id h = (h.user_id == user_id) && (h.coupon_id == coupon_id)

abbrev pub is_unused : UserCoupon → Bool
is_unused h = not (is_coupon h.status UserCouponStatus.used)

abbrev pub is_unused_holding : ℕ → ℕ → UserCoupon → Bool
is_unused_holding user_id coupon_id h = is_holding user_id coupon_id h && is_unused h

-- The conditional update, and the row behind it.
unfoldable pub take_coupon : ℕ → ℕ → Tx ℕ
unfolding claim_quota create_user_coupon
take_coupon user_id coupon_id = do
  taken ← claim_quota coupon_id
  won taken (bad_request "优惠券已被领完")
  create_user_coupon user_id coupon_id

-- The branches on the number of coupons that the user has, for a limit above zero.
unfoldable pub claim_held : ℕ → ℕ → ℕ → ℕ → Option UserCoupon → Tx ℕ
unfolding take_coupon
claim_held user_id coupon_id limit held (some h) = pure h.id
claim_held user_id coupon_id limit held none =
    if leb limit held then throw (bad_request "该优惠券已使用") else take_coupon user_id coupon_id

unfoldable pub claim_within : ℕ → ℕ → ℕ → Tx ℕ
unfolding claim_held
claim_within user_id coupon_id zero = take_coupon user_id coupon_id
claim_within user_id coupon_id (suc n) = do
  held ← read (λ db. count_where (is_holding user_id coupon_id) db.user_coupons)
  unused ← read (λ db. find_first (is_unused_holding user_id coupon_id) db.user_coupons)
  claim_held user_id coupon_id (suc n) held unused

-- What may be claimed by hand.
unfoldable pub check_claim : Clock → ℕ → Coupon → Tx (Unit {0})
check_claim clock campus_id c = do
  require (c.campus_id == campus_id) (bad_request "该优惠券不属于当前校园")
  require c.active (bad_request "优惠券暂不可领取")
  require (is_manual c.trigger && not c.targeted_only) (bad_request "该优惠券不支持手动领取")
  require (is_unexpired clock c.expires_at) (bad_request "优惠券已过期")

-- `claimCoupon`, which gives the identifier of the user's coupon.
unfoldable pub claim_coupon : Clock → ℕ → ℕ → ℕ → Tx ℕ
unfolding claim_within check_claim
claim_coupon clock user_id coupon_id campus_id = do
  enabled ← read (λ db. marketing_enabled db (some campus_id))
  require enabled (forbidden "营销能力未开通")
  found ← read (λ db. find_first (is_coupon_id coupon_id) db.coupons)
  c ← expect found (not_found "优惠券不存在")
  check_claim clock campus_id c
  claim_within user_id coupon_id c.per_user_limit

abbrev pub is_spendable : UserCouponStatus → Bool
is_spendable s = is_coupon s UserCouponStatus.claimed || is_coupon s UserCouponStatus.released

-- `validateUserCoupon`
unfoldable pub validate_user_coupon : Clock → ℕ → ℕ → ℕ → Tx (UserCoupon × Coupon)
validate_user_coupon clock user_id user_coupon_id campus_id = do
  found ← read (λ db. find_first (has_coupon_id user_coupon_id) db.user_coupons)
  h ← expect found (bad_request "优惠券不存在或无权使用")
  require (h.user_id == user_id) (bad_request "优惠券不存在或无权使用")
  kind ← read (λ db. find_first (is_coupon_id h.coupon_id) db.coupons)
  c ← expect kind (bad_request "优惠券不存在或无权使用")
  require (c.campus_id == campus_id) (bad_request "该优惠券不属于当前校园")
  require (is_spendable h.status) (bad_request "优惠券当前状态不可使用")
  require (not (is_partner c.kind)) (bad_request "异业券请在到店时出示，不参与下单抵扣")
  require (is_unexpired clock c.expires_at) (bad_request "优惠券已过期")
  pure (h, c)

-- What `grantCouponInner` gives: nothing, a coupon that the user had, or a new one.
pub data Grant : Type 0 where
  no_grant : Grant
  existing granted : ℕ → Grant

unfoldable pub grant_taken : ℕ → ℕ → ℕ → Tx Grant
unfolding create_user_coupon
grant_taken user_id coupon_id zero = pure no_grant
grant_taken user_id coupon_id (suc n) = do
  id ← create_user_coupon user_id coupon_id
  pure (granted id)

unfoldable pub grant_new : ℕ → ℕ → Tx Grant
unfolding claim_quota grant_taken
grant_new user_id coupon_id = claim_quota coupon_id >>= grant_taken user_id coupon_id

-- The holding that stops a grant: of a signup coupon any, of another one an unused one.
abbrev pub blocks : ℕ → Coupon → UserCoupon → Bool
blocks user_id c h = is_holding user_id c.id h && (is_signup c.trigger || is_unused h)

unfoldable pub grant_once : ℕ → ℕ → Option UserCoupon → Tx Grant
unfolding grant_new
grant_once user_id coupon_id (some h) = pure (existing h.id)
grant_once user_id coupon_id none = grant_new user_id coupon_id

abbrev pub is_grantable : Clock → Coupon → Bool
is_grantable clock c = c.active && is_unexpired clock c.expires_at

unfoldable pub grant_live : Bool → ℕ → Coupon → Tx Grant
unfolding grant_once
grant_live true user_id c = grant_new user_id c.id
grant_live false user_id c = do
  held ← read (λ db. find_first (blocks user_id c) db.user_coupons)
  grant_once user_id c.id held

unfoldable pub grant_found : Clock → Bool → ℕ → Option Coupon → Tx Grant
unfolding grant_live
grant_found clock repeated user_id none = pure no_grant
grant_found clock repeated user_id (some c) =
    if is_grantable clock c then grant_live repeated user_id c else pure no_grant

-- `grantCouponInner`; `repeated` is `opts.repeat`.
unfoldable pub grant_coupon_inner : Clock → Bool → ℕ → ℕ → Tx Grant
unfolding grant_found
grant_coupon_inner clock repeated user_id coupon_id = do
  found ← read (λ db. find_first (is_coupon_id coupon_id) db.coupons)
  grant_found clock repeated user_id found

abbrev is_new : Grant → ℕ
is_new (granted id) = 1
is_new _ = 0

-- The loop of `grantSignupCoupons`, with a transaction for each coupon; no grant throws.
unfoldable pub grant_each : Clock → ℕ → List Coupon → Tx ℕ
unfolding grant_coupon_inner
grant_each clock user_id [] = pure 0
grant_each clock user_id (c ∷ cs) = do
  g ← grant_coupon_inner clock false user_id c.id
  rest ← grant_each clock user_id cs
  pure (is_new g + rest)

abbrev is_signup_candidate : Clock → ℕ → Coupon → Bool
is_signup_candidate clock campus_id c =
    (c.campus_id == campus_id) && (is_signup c.trigger && is_grantable clock c)

-- `grantSignupCoupons`
unfoldable pub grant_signup_coupons : Clock → ℕ → ℕ → Tx ℕ
unfolding grant_each
grant_signup_coupons clock user_id campus_id = do
  enabled ← read (λ db. marketing_enabled db (some campus_id))
  candidates ← read (λ db. keep (is_signup_candidate clock campus_id) db.coupons)
  if enabled then grant_each clock user_id candidates else pure 0

abbrev is_of_campus : ℕ → Option Coupon → Bool
is_of_campus campus_id none = false
is_of_campus campus_id (some c) = c.campus_id == campus_id

-- `issueWheelCoupon`
unfoldable pub issue_wheel_coupon : Clock → ℕ → ℕ → Option ℕ → Tx Grant
unfolding grant_coupon_inner
issue_wheel_coupon clock user_id campus_id none = pure no_grant
issue_wheel_coupon clock user_id campus_id (some coupon_id) = do
  found ← read (λ db. find_first (is_coupon_id coupon_id) db.coupons)
  if is_of_campus campus_id found
      then grant_coupon_inner clock true user_id coupon_id
      else pure no_grant
