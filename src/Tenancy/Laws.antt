-- ===== src/Tenancy/Laws.antt =====
-- The switches of an organization and of a campus.
use buchuqin_api.Prelude.{ℕ, ◌≡◌, some, ◌&&◌, arith}
use buchuqin_api.Store.{Db}
use buchuqin_api.Store.Rows.{Organization, Campus}
use buchuqin_api.Tenancy.{find_organization, find_campus, allowlist, permits, marketing_enabled}

-- A campus of an organization has marketing exactly where both lists permit it: the campus can only
-- narrow what its organization has. A list that is not configured, or not a list of names, permits.
pub marketing_enabled_lem :
    (db : Db) (campus org : ℕ) (c : Campus) (o : Organization)
    → find_campus campus db ≡ some c
    → c.organization_id ≡ some org
    → find_organization org db ≡ some o
    → marketing_enabled db (some campus)
      ≡ (permits (allowlist o.capabilities) && permits (allowlist c.features))
unfolding marketing_enabled
marketing_enabled_lem db campus org c o found of_org org_found =
    rw (found, of_org, org_found) (ground arith)
