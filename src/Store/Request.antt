-- ===== src/Store/Request.antt =====
-- A request that commits several transactions, one after the other. What an earlier one wrote stays
-- when a later one throws.
use buchuqin_api.Prelude.{Option, none, some}
use buchuqin_api.Store.{Db, Outcome, ok, thrown, Failure, Tx}
use buchuqin_api.Store.Holds.{Holds}

-- The database that a request leaves, and the exception with which it ends.
abbrev pub Run : Type 0
Run = Db → Db × Option Failure

abbrev pub done : Run
done db = (db, none)

abbrev pub fail : Failure → Run
fail e db = (db, some e)

-- A transaction, and what follows it where it commits.
abbrev pub commit {ℓ} : {A : Type ℓ} → Tx A → (A → Run) → Run
commit m k db = elim (m db) [ ok a db' ↦ k a db' | thrown e ↦ (db, some e) ]

-- What holds at the end of a request, after each of its commits.
pub Holds-commit {ℓ} :
    {A : Type ℓ} (P Q : Db → Type 0) (m : Tx A) (k : A → Run) (db : Db)
    → Q db
    → Holds P (m db)
    → ((a : A) (db' : Db) → P db' → Q (k a db').0)
    → Q (commit m k db).0
Holds-commit {A = A} P Q m k db old first next = of_first (m db) first
  where
    of_first :
        (r : Outcome A)
        → Holds P r
        → Q
            (let s : Db × Option Failure = elim r [
              | ok a db' ↦ k a db'
              | thrown e ↦ (db, some e)
            ] in
              s).0
    of_first (ok a db') h = next a db' h
    of_first (thrown e) h = old
