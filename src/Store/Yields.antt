-- ===== src/Store/Yields.antt =====
-- Postconditions of transactions that speak of the result too, and bodies that only read.
use buchuqin_api.Prelude.{ℕ, zero, suc, ◌≡◌, refl, Bool, true, false, Option, none, some}
use buchuqin_api.Store.{
  Db, Outcome, ok, thrown, Failure, Tx, ◌>>=◌, ◌>>◌, require, expect, when, won,
}
use buchuqin_api.Store.Holds.{Holds}

abbrev pub Yields {ℓ} : {A : Type ℓ} → (A → Db → Type 0) → Outcome A → Type 0
Yields Q (ok a db) = Q a db
Yields Q (thrown e) = Unit

-- The body leaves the database alone.
abbrev pub IsReading {ℓ} : {A : Type ℓ} → Db → Outcome A → Type 0
IsReading db r = Yields (λ _ d. d ≡ db) r

module _ {ℓ} {A : Type ℓ} (Q : A → Db → Type 0) where
  pub Yields-require :
      (b : Bool) (e : Failure) (k : Tx A) (db : Db)
      → (b ≡ true → Yields Q (k db))
      → Yields Q ((require b e >> k) db)
  Yields-require true e k db h = h refl
  Yields-require false e k db h = tt

  pub Yields-expect {κ} :
      {B : Type κ} (o : Option B) (e : Failure) (k : B → Tx A) (db : Db)
      → ((b : B) → o ≡ some b → Yields Q (k b db))
      → Yields Q ((expect o e >>= k) db)
  Yields-expect none e k db h = tt
  Yields-expect (some b) e k db h = h b refl

pub Yields-bind {ℓ κ} :
    {A : Type ℓ} {B : Type κ} (P : A → Db → Type 0) (Q : B → Db → Type 0) (m : Tx A) (k : A → Tx B)
    (db : Db)
    → Yields P (m db)
    → ((a : A) (d : Db) → P a d → Yields Q (k a d))
    → Yields Q ((m >>= k) db)
Yields-bind {A = A} {B = B} P Q m k db h next = of_first (m db) h
  where
    of_first :
        (r : Outcome A)
        → Yields P r
        → Yields Q (let s : Outcome B = elim r [ ok a d ↦ k a d | thrown e ↦ thrown e ] in s)
    of_first (ok a d) p = next a d p
    of_first (thrown e) p = tt

-- What follows a body that only reads starts from the same database.
pub Yields-after {ℓ κ} :
    {A : Type ℓ} {B : Type κ} (Q : B → Db → Type 0) (m : Tx A) (k : A → Tx B) (db : Db)
    → IsReading db (m db)
    → ((a : A) → Yields Q (k a db))
    → Yields Q ((m >>= k) db)
Yields-after Q m k db h next = Yields-bind (λ _ d. d ≡ db) Q m k db h λ a d e. rw e (next a)

pub require-IsReading : (b : Bool) (e : Failure) (db : Db) → IsReading db (require b e db)
require-IsReading true e db = refl
require-IsReading false e db = tt

pub Yields-Holds {ℓ} :
    {A : Type ℓ} (Q : Db → Type 0) (r : Outcome A) → Yields (λ _ d. Q d) r → Holds Q r
Yields-Holds Q (ok a d) h = h
Yields-Holds Q (thrown e) h = tt

pub Yields-won_last :
    (Q : Db → Type 0) (n : ℕ) (e : Failure) (db : Db) → Q db → Yields (λ _ d. Q d) (won n e db)
Yields-won_last Q zero e db h = tt
Yields-won_last Q (suc n) e db h = h

pub Yields-top {ℓ} : {A : Type ℓ} (r : Outcome A) → Yields (λ _ _. Unit) r
Yields-top (ok a d) = tt
Yields-top (thrown e) = tt

pub when-IsReading :
    (b : Bool) (m : Tx (Unit {0})) (db : Db) → IsReading db (m db) → IsReading db (when b m db)
when-IsReading true m db h = h
when-IsReading false m db h = refl

pub Yields-require_last :
    (Q : Unit {0} → Db → Type 0) (b : Bool) (e : Failure) (db : Db)
    → (b ≡ true → Q tt db)
    → Yields Q (require b e db)
Yields-require_last Q true e db h = h refl
Yields-require_last Q false e db h = tt

pub Holds-Yields {ℓ} :
    {A : Type ℓ} (Q : Db → Type 0) (r : Outcome A) → Holds Q r → Yields (λ _ d. Q d) r
Holds-Yields Q (ok a d) h = h
Holds-Yields Q (thrown e) h = tt
