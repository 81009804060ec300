-- ===== src/Store/Tx.antt =====
-- A transaction: `async with session.begin()`. It commits the new tables with a result, or raises,
-- and then the session rolls back and the tables are as they were.
use native.Mathlib.Omega.{arith}
use market_quorum.Prelude.{
  ℕ, ◌≡◌, refl, ap, Bool, true, false, Option, none, some, String, ◌⊎◌, inl, inr, if◌then◌else◌,
}
use market_quorum.Domain.Runs.{RunStatus, is_allowed}
use market_quorum.Store.{Database}

pub data Error : Type 0 where
  -- `ValueError` of `assert_transition`
  illegal_transition : RunStatus → RunStatus → Error
  value_error : String → Error
  key_error : String → Error
  runtime_error : String → Error
  permission_error : String → Error
  -- a unique constraint of the table
  integrity_error : String → Error
  -- `NoResultFound` of a query for one row
  no_result_found : Error
  assessment_not_found : ℕ → Error
  assessment_access_denied : Error
  retry_not_allowed : RunStatus → Error
  delete_not_allowed : String → Error
  data_admission_rejected : String → String → Error
  asset_type_conflict : String → Error
  analysts_incompatible : String → Error

pub data Result {ℓ} (A : Type ℓ) : Type ℓ where
  ok : A → Result A
  err : Error → Result A

abbrev pub is_ok {ℓ} : {A : Type ℓ} → Result A → Bool
is_ok (ok a) = true
is_ok (err e) = false

module _ {A : Type 0} where
  abbrev success_or : A → Result A → A
  success_or a (ok b) = b
  success_or a (err e) = a

  pub ok-cancel : {a b : A} → Result.ok a ≡ ok b → a ≡ b
  ok-cancel {a} h = ap (success_or a) h

abbrev pub Tx : Type 0 → Type 0
Tx A = Database → Result (A × Database)

module _ {A : Type 0} where
  abbrev pub pure : A → Tx A
  pure a db = ok (a, db)

  abbrev pub raise : Error → Tx A
  raise e db = err e

  abbrev pub gets : (Database → A) → Tx A
  gets f db = ok (f db, db)

  -- The row, or the error where there is none.
  abbrev pub or_raise : Option A → Error → Tx A
  or_raise none e = raise e
  or_raise (some a) e = pure a

abbrev pub modify : (Database → Database) → Tx (Unit {0})
modify f db = ok (tt, f db)

infixl 5 ◌>>=◌ ◌>>◌
abbrev pub ◌>>=◌ : {A B : Type 0} → Tx A → (A → Tx B) → Tx B
◌>>=◌ m f db = elim (m db) [ ok (a, db') ↦ f a db' | err e ↦ err e ]

abbrev pub ◌>>◌ : {A B : Type 0} → Tx A → Tx B → Tx B
m >> k = m >>= λ _. k

abbrev pub raise_unless : Bool → Error → Tx (Unit {0})
raise_unless true e = pure tt
raise_unless false e = raise e

-- domain/runs.py
abbrev pub assert_transition : RunStatus → RunStatus → Tx (Unit {0})
assert_transition current target =
    raise_unless (is_allowed current target) (illegal_transition current target)

-- Inversion of a successful step.
pub >>=-eq-ok :
    {A B : Type 0} (m : Tx A) (f : A → Tx B) (db : Database) {r : B × Database}
    → (m >>= f) db ≡ ok r
    → (a : A) × (db' : Database) × (m db ≡ ok (a, db')) × (f a db' ≡ ok r)
>>=-eq-ok {A} {B} m f db {r} h = go (m db) refl h
  where
    go :
        (x : Result (A × Database))
        → m db ≡ x
        → (elim x [ ok (a, db') ↦ f a db' | err e ↦ err e ]) ≡ ok r
        → (a : A) × (db' : Database) × (m db ≡ ok (a, db')) × (f a db' ≡ ok r)
    go (ok (a, db')) e k = (a, db', e, k)
    go (err e) q k = cc

-- Inversion of a successful read of a row that may be missing.
pub or_raise-eq-ok :
    {A B : Type 0} (o : Option A) (e : Error) (f : A → Tx B) (db : Database) {r : B × Database}
    → (or_raise o e >>= f) db ≡ ok r
    → (a : A) × (o ≡ some a) × (f a db ≡ ok r)
or_raise-eq-ok none e f db h = cc
or_raise-eq-ok (some a) e f db h = (a, refl, h)

-- A last step that only returns a value.
pub >>-pure-eq-ok :
    {A B : Type 0} (m : Tx A) (b : B) (db : Database) {c : B} {db' : Database}
    → (m >> pure b) db ≡ ok (c, db')
    → (a : A) × (m db ≡ ok (a, db')) × (c ≡ b)
>>-pure-eq-ok {A} m b db {c} {db'} h = go (m db) refl h
  where
    go :
        (x : Result (A × Database))
        → m db ≡ x
        → (elim x [ ok (_, d) ↦ pure b d | err e ↦ err e ]) ≡ ok (c, db')
        → (a : A) × (m db ≡ ok (a, db')) × (c ≡ b)
    go (ok (a, d)) e k = (a, ground arith, ground arith)
    go (err e) q k = cc

-- Inversion of a branch.
pub branch-eq :
    {A : Type 0} (b : Bool) (m k : Tx A) (db : Database) {r : Result (A × Database)}
    → (if b then m else k) db ≡ r
    → ((b ≡ true) × (m db ≡ r)) ⊎ ((b ≡ false) × (k db ≡ r))
branch-eq true m k db h = inl (refl, h)
branch-eq false m k db h = inr (refl, h)

pub ok-eq :
    {A : Type 0} {a b : A} {db db' : Database}
    → ◌≡◌ {A = Result (A × Database)} (ok (a, db)) (ok (b, db'))
    → (a ≡ b) × (db ≡ db')
ok-eq h = (ground arith, ground arith)

pub raise_unless-eq-ok :
    {B : Type 0} (b : Bool) (e : Error) (m : Tx B) (db : Database) {r : B × Database}
    → (raise_unless b e >> m) db ≡ ok r
    → (b ≡ true) × (m db ≡ ok r)
raise_unless-eq-ok true e m db h = (refl, h)
raise_unless-eq-ok false e m db h = cc

pub raise_unless-true :
    {B : Type 0} (b : Bool) (e : Error) (m : Tx B) (db : Database)
    → b ≡ true
    → (raise_unless b e >> m) db ≡ m db
raise_unless-true true e m db h = refl
raise_unless-true false e m db h = cc

pub is_ok-result :
    (r : Result (Unit {0} × Database)) → is_ok r ≡ true → (db' : Database) × (r ≡ ok (tt, db'))
is_ok-result (ok (tt, db')) h = (db', refl)
is_ok-result (err e) h = cc

pub >>=-ok :
    {A B : Type 0} (m : Tx A) (f : A → Tx B) (db : Database) {a : A} {db' : Database}
    → m db ≡ ok (a, db')
    → (m >>= f) db ≡ f a db'
>>=-ok m f db e = ap (λ r. elim r [ ok (a, d) ↦ f a d | err x ↦ err x ]) e
