-- ===== src/Commission/Adjust/Laws.antt =====
-- What `refundAdjust` takes back: a target amount, not an increment.
use Prim.Native.String.{String}
use buchuqin_api.Prelude.{ℕ, ◌≡◌, List, keep}
use buchuqin_api.Store.{Db, transaction}
use buchuqin_api.Store.Rows.{Commission}
use buchuqin_api.Commission.Adjust.{Ratio, bounded_share, refund_adjust, is_commission_of}
use buchuqin_api.Commission.Adjust.Upsert.{adjustment_at, owed}
use buchuqin_api.Commission.Adjust.Share.{earned_by, IsShare}

-- A person's adjustment is the share of what the person earned on the order.
abbrev pub IsAdjusted : ℕ → Ratio → List Commission → List Commission → ℕ → Type 0
IsAdjusted o ratio records rows s =
    adjustment_at o s rows ≡ owed (bounded_share (earned_by s records) ratio)

-- The table of commissions after a refund.
abbrev pub rows_adjusted : ℕ → ℕ → String → Ratio → Db → List Commission
rows_adjusted period o reason ratio db =
    (transaction (refund_adjust period o reason ratio) db).commissions

abbrev pub earned_on : ℕ → Db → List Commission
earned_on o db = keep (is_commission_of o) db.commissions

-- The adjustment that a person has is a share of what the person earned.
abbrev pub IsFair : ℕ → Ratio → List Commission → List Commission → ℕ → Type 0
IsFair o ratio records rows s =
    (n : ℕ) × (adjustment_at o s rows ≡ owed n) × IsShare (earned_by s records) ratio n
