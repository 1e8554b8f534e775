-- ===== src/Tenancy.antt =====
-- src/common/organization.ts and src/common/capability.ts: which organization a request belongs to,
-- and what that organization and the campus have switched on.
pub mod Laws
use buchuqin_api.Prelude.{
  ℕ, Bool, true, false, List, [], ◌∷◌, Option, none, some, ◌==◌, ◌||◌, ◌&&◌, not, if◌then◌else◌,
  opt_eq, is_some,
}
use buchuqin_api.Store.{Db}
use buchuqin_api.Store.Table.{find_first}
use buchuqin_api.Store.Rows.{
  Json, null, scalar, array, OrgDeliveryMode, rider_delivery, staff_delivery, Organization, Campus,
}

-- `ResolvedOrganization`, of which the name and the status are left out.
abbrev pub find_organization : ℕ → Db → Option Organization
find_organization id db = find_first (λ (o : Organization). o.id == id) db.organizations

abbrev pub find_campus : ℕ → Db → Option Campus
find_campus id db = find_first (λ (c : Campus). c.id == id) db.campuses

-- `resolveOrganizationByAppId`; an AppID is trimmed, and `none` if nothing is left.
unfoldable pub resolve_organization_by_app_id : Db → Option ℕ → Option Organization
resolve_organization_by_app_id db none = none
resolve_organization_by_app_id db (some app) =
    find_first (λ (o : Organization). opt_eq o.wx_app_id (some app)) db.organizations

-- `resolveOrganizationByDeliveryAppId`
unfoldable pub resolve_organization_by_delivery_app_id : Db → Option ℕ → Option Organization
resolve_organization_by_delivery_app_id db none = none
resolve_organization_by_delivery_app_id db (some app) =
    find_first (λ (o : Organization). opt_eq o.delivery_wx_app_id (some app)) db.organizations

pub data MiniProgramKind : Type 0 where
  user delivery : MiniProgramKind

-- `resolveMiniProgramOrganization`
unfoldable pub resolve_mini_program_organization :
    Db → Option ℕ → MiniProgramKind → Option Organization
unfolding resolve_organization_by_app_id resolve_organization_by_delivery_app_id
resolve_mini_program_organization db app delivery = resolve_organization_by_delivery_app_id db app
resolve_mini_program_organization db app user = resolve_organization_by_app_id db app

organization_of : Option Campus → Option ℕ
organization_of none = none
organization_of (some c) = c.organization_id

-- `campusOrganizationId`
unfoldable pub campus_organization_id : Db → Option ℕ → Option ℕ
unfolding organization_of
campus_organization_id db none = none
campus_organization_id db (some id) = organization_of (find_campus id db)

abbrev is_staff_mode : OrgDeliveryMode → Bool
is_staff_mode staff_delivery = true
is_staff_mode rider_delivery = false

staff_mode_of : Option Organization → Bool
staff_mode_of none = false
staff_mode_of (some o) = is_staff_mode o.delivery_mode

staff_delivery_of : Db → Option ℕ → Bool
unfolding staff_mode_of
staff_delivery_of db none = false
staff_delivery_of db (some id) = staff_mode_of (find_organization id db)

-- `campusStaffDelivery`
unfoldable pub campus_staff_delivery : Db → Option ℕ → Bool
unfolding staff_delivery_of campus_organization_id
campus_staff_delivery db campus = staff_delivery_of db (campus_organization_id db campus)

-- The number of the name 'marketing'.
abbrev pub marketing : ℕ
marketing = 0

collect : List (Option ℕ) → Option (List ℕ)
collect [] = some []
collect (none ∷ xs) = none
collect (some x ∷ xs) = elim (collect xs) [ none ↦ none | some ys ↦ some (x ∷ ys) ]

-- `allowlist`
unfoldable pub allowlist : Json → Option (List ℕ)
unfolding collect
allowlist (array xs) = collect xs
allowlist null = none
allowlist scalar = none

abbrev pub lists : List ℕ → ℕ → Bool
lists [] a = false
lists (x ∷ xs) a = (x == a) || lists xs a

-- `!(list && !list.includes('marketing'))`
unfoldable pub permits : Option (List ℕ) → Bool
permits none = true
permits (some names) = lists names marketing

features_of : Option Campus → Json
features_of none = null
features_of (some c) = c.features

enabled_for : Option Organization → Option Campus → Bool
unfolding features_of allowlist permits
enabled_for none campus = true
enabled_for (some o) campus =
    if not (permits (allowlist o.capabilities))
    then false
    else permits (allowlist (features_of campus))

enabled_in : Db → ℕ → Option ℕ → Bool
unfolding enabled_for
enabled_in db campus none = true
enabled_in db campus (some org) = enabled_for (find_organization org db) (find_campus campus db)

-- `marketingEnabled`
unfoldable pub marketing_enabled : Db → Option ℕ → Bool
unfolding enabled_in campus_organization_id
marketing_enabled db none = true
marketing_enabled db (some campus) = enabled_in db campus (campus_organization_id db (some campus))
