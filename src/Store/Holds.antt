-- ===== src/Store/Holds.antt =====
-- Postconditions of transactions: what holds of the database if the body returns.
use buchuqin_api.Prelude.{
  ℕ, zero, suc, ◌≤◌, ◌≡◌, refl, Bool, true, false, Option, none, some, arith,
}
use buchuqin_api.Store.{
  Db, Outcome, ok, thrown, Failure, Tx, ◌>>=◌, ◌>>◌, require, expect, won, when, transaction, throw,
}

abbrev pub Holds {ℓ} : {A : Type ℓ} → (Db → Type 0) → Outcome A → Type 0
Holds Q (ok a db) = Q db
Holds Q (thrown e) = Unit

-- The body throws.
abbrev pub IsThrown {ℓ} : {A : Type ℓ} → Outcome A → Type 0
IsThrown = Holds (λ _. ⊥)

-- The body returns.
abbrev pub IsOk {ℓ} : {A : Type ℓ} → Outcome A → Type 0
IsOk (ok a db) = Unit
IsOk (thrown e) = ⊥

module _ {ℓ} {A : Type ℓ} (Q : Db → Type 0) where
  pub Holds-require :
      (b : Bool) (e : Failure) (k : Tx A) (db : Db)
      → (b ≡ true → Holds Q (k db))
      → Holds Q ((require b e >> k) db)
  Holds-require true e k db h = h refl
  Holds-require false e k db h = tt

  pub Holds-won :
      (n : ℕ) (e : Failure) (k : Tx A) (db : Db) → Holds Q (k db) → Holds Q ((won n e >> k) db)
  Holds-won zero e k db h = tt
  Holds-won (suc n) e k db h = h

  -- The same, where a row was changed.
  pub Holds-won_here :
      (n : ℕ) (e : Failure) (k : Tx A) (db : Db)
      → (1 ≤ n → Holds Q (k db))
      → Holds Q ((won n e >> k) db)
  Holds-won_here zero e k db h = tt
  Holds-won_here (suc n) e k db h = h (omega arith)

  pub Holds-expect {κ} :
      {B : Type κ} (o : Option B) (e : Failure) (k : B → Tx A) (db : Db)
      → ((b : B) → o ≡ some b → Holds Q (k b db))
      → Holds Q ((expect o e >>= k) db)
  Holds-expect none e k db h = tt
  Holds-expect (some b) e k db h = h b refl

module _ {ℓ} {A : Type ℓ} (Q : Db → Type 0) where
  Holds-outcome :
      (m : Tx A) (db : Db) (r : Outcome A) → m db ≡ r → Q db → Holds Q r → Q (transaction m db)
  unfolding transaction
  Holds-outcome m db (ok a db') e old new = rw (e, transaction) new
  Holds-outcome m db (thrown f) e old new = rw (e, transaction) old

  -- A transaction ends in a database in which the postcondition holds, if it holds of the old one.
  pub Holds-transaction : (m : Tx A) (db : Db) → Q db → Holds Q (m db) → Q (transaction m db)
  Holds-transaction m db old new = Holds-outcome m db (m db) refl old new

pub Holds-won_last : (Q : Db → Type 0) (n : ℕ) (e : Failure) (db : Db) → Q db → Holds Q (won n e db)
Holds-won_last Q zero e db h = tt
Holds-won_last Q (suc n) e db h = h

pub Holds-require_last :
    (Q : Db → Type 0) (b : Bool) (e : Failure) (db : Db)
    → (b ≡ true → Q db)
    → Holds Q (require b e db)
Holds-require_last Q true e db h = h refl
Holds-require_last Q false e db h = tt

pub Holds-won_some :
    (Q : Db → Type 0) (n : ℕ) (e : Failure) (db : Db) → (1 ≤ n → Q db) → Holds Q (won n e db)
Holds-won_some Q zero e db h = tt
Holds-won_some Q (suc n) e db h = h (omega arith)

pub Holds-when :
    (Q : Db → Type 0) (b : Bool) (m : Tx (Unit {0})) (db : Db)
    → Q db
    → Holds Q (m db)
    → Holds Q (when b m db)
Holds-when Q true m db h k = k
Holds-when Q false m db h k = h

pub Holds-with {ℓ} :
    {A : Type ℓ} (P : Type 0) (Q : Db → Type 0) (r : Outcome A)
    → P
    → Holds Q r
    → Holds (λ db. P × Q db) r
Holds-with P Q (ok a db) h k = (h, k)
Holds-with P Q (thrown e) h k = tt

-- A guard that holds is passed.
pub require_pass {ℓ} :
    {A : Type ℓ} (b : Bool) (e : Failure) (k : Tx A) (db : Db)
    → b ≡ true
    → (require b e >> k) db ≡ k db
require_pass true e k db h = refl
require_pass false e k db h = cc

pub won_pass {ℓ} :
    {A : Type ℓ} (n : ℕ) (e : Failure) (k : Tx A) (db : Db) → 1 ≤ n → (won n e >> k) db ≡ k db
won_pass zero e k db h = absurd (omega arith)
won_pass (suc n) e k db h = refl

pub won_fail {ℓ} :
    {A : Type ℓ} (n : ℕ) (e : Failure) (k : Tx A) (db : Db) → n ≡ 0 → (won n e >> k) db ≡ thrown e
won_fail zero e k db h = refl
won_fail (suc n) e k db h = absurd (omega arith)

-- A postcondition of the first part is the precondition of the rest.
pub Holds-bind {ℓ κ} :
    {A : Type ℓ} {B : Type κ} (P Q : Db → Type 0) (m : Tx A) (k : A → Tx B) (db : Db)
    → Holds P (m db)
    → ((a : A) (db' : Db) → P db' → Holds Q (k a db'))
    → Holds Q ((m >>= k) db)
Holds-bind {A = A} {B = B} P Q m k db h next = of_first (m db) h
  where
    of_first :
        (r : Outcome A)
        → Holds P r
        → Holds Q (let s : Outcome B = elim r [ ok a db' ↦ k a db' | thrown e ↦ thrown e ] in s)
    of_first (ok a db') p = next a db' p
    of_first (thrown e) p = tt

pub Holds-map {ℓ} :
    {A : Type ℓ} (P Q : Db → Type 0) (r : Outcome A)
    → ((db : Db) → P db → Q db)
    → Holds P r
    → Holds Q r
Holds-map P Q (ok a db) f h = f db h
Holds-map P Q (thrown e) f h = tt

-- A body that throws leaves the database as it was.
pub transaction-thrown {ℓ} :
    {A : Type ℓ} (m : Tx A) (db : Db) → IsThrown (m db) → transaction m db ≡ db
transaction-thrown m db h =
    Holds-transaction (λ d. d ≡ db) m db refl
      (Holds-map (λ _. ⊥) (λ d. d ≡ db) (m db) (λ _ b. absurd b) h)

Holds_top {ℓ} : {A : Type ℓ} (r : Outcome A) → Holds (λ _. Unit) r
Holds_top (ok a db) = tt
Holds_top (thrown e) = tt

pub IsThrown-throw {ℓ} :
    {A : Type ℓ} (m : Tx A) (e : Failure) (db : Db)
    → IsThrown ((m >>= λ _. throw {A = Unit {0}} e) db)
IsThrown-throw m e db =
    Holds-bind (λ _. Unit) (λ _. ⊥) m (λ _. throw e) db (Holds_top (m db)) (λ _ _ _. tt)

-- A guard in front of a body that returned was passed.
pub require_ok {ℓ} :
    {A : Type ℓ} (b : Bool) (e : Failure) (k : Tx A) (db : Db) {a : A} {db' : Db}
    → (require b e >> k) db ≡ ok a db'
    → (b ≡ true) × (k db ≡ ok a db')
require_ok true e k db h = (refl, h)
require_ok false e k db h = cc

pub won_ok {ℓ} :
    {A : Type ℓ} (n : ℕ) (e : Failure) (k : Tx A) (db : Db) {a : A} {db' : Db}
    → (won n e >> k) db ≡ ok a db'
    → (1 ≤ n) × (k db ≡ ok a db')
won_ok zero e k db h = cc
won_ok (suc n) e k db h = (omega arith, h)

-- A body in two parts returns if the first returns and the second does from there.
pub IsOk-bind {ℓ κ} :
    {A : Type ℓ} {B : Type κ} (P : Db → Type 0) (m : Tx A) (k : A → Tx B) (db : Db)
    → IsOk (m db)
    → Holds P (m db)
    → ((a : A) (db' : Db) → P db' → IsOk (k a db'))
    → IsOk ((m >>= k) db)
IsOk-bind {A = A} {B = B} P m k db fine h next = of_first (m db) fine h
  where
    of_first :
        (r : Outcome A)
        → IsOk r
        → Holds P r
        → IsOk (let s : Outcome B = elim r [ ok a db' ↦ k a db' | thrown e ↦ thrown e ] in s)
    of_first (ok a db') f p = next a db' p
    of_first (thrown e) f p = f

pub IsOk-when : (b : Bool) (m : Tx (Unit {0})) (db : Db) → IsOk (m db) → IsOk (when b m db)
IsOk-when true m db h = h
IsOk-when false m db h = tt

pub Holds-top {ℓ} : {A : Type ℓ} (r : Outcome A) → Holds (λ _. Unit) r
Holds-top r = Holds_top r
