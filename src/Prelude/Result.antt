-- ===== src/Prelude/Result.antt =====
-- Code that may raise. A pure function returns a `Result`; code that also writes to the database
-- is an `Action` on it, where `atomic` is Django's `transaction.atomic`.
use rankedftw.Prelude.{◌≡◌, refl, ◌⊎◌, inl, inr, Bool, true, false, Option, none, some}

-- The exceptions, by their classes. `attribute_error` and `type_error` are what Python raises where
-- the code uses `None` as an object or as a number.
pub data Error : Type 0 where
  does_not_exist multiple_objects : Error
  attribute_error type_error key_error index_error : Error
  overflow_error value_error integrity_error socket_error client_error cat_error exception_raised
        stopped system_exit :
      Error

pub data Result {ℓ} (A : Type ℓ) : Type ℓ where
  ok : A → Result A
  err : Error → Result A

-- The value that a computation returns, used in one expression.
abbrev pub map_ok {ℓ κ} : {A : Type ℓ} {B : Type κ} → (A → B) → Result A → Result B
map_ok f (ok value) = ok (f value)
map_ok f (err raised) = err raised

infixl 5 ◌>>=◌ ◌>>◌
-- A value, and the code that follows with it.
abbrev pub ◌>>=◌ {κ ℓ} : {B : Type κ} {A : Type ℓ} (m : Result B) (next : B → Result A) → Result A
◌>>=◌ (ok value) next = next value
◌>>=◌ (err raised) next = err raised

-- A statement, and those that follow it.
abbrev pub ◌>>◌ {κ} : {B : Type κ} → Result (Unit {0}) → Result B → Result B
◌>>◌ (ok done) next = next
◌>>◌ (err raised) next = err raised

-- `if c: raise e`.
abbrev pub raise_if : Bool → Error → Result (Unit {0})
raise_if true e = err e
raise_if false e = ok tt

-- The use of a value that may be `None`.
abbrev pub or_raise {ℓ} : {A : Type ℓ} → Option A → Error → Result A
or_raise none e = err e
or_raise (some a) e = ok a

pub or_raise-eq-ok {ℓ} :
    {A : Type ℓ} (o : Option A) (e : Error) {a : A} → or_raise o e ≡ ok a → o ≡ some a
or_raise-eq-ok none e h = cc
or_raise-eq-ok (some x) e h = cc

pub Result-cases {ℓ} :
    {A : Type ℓ} (r : Result A) → ((a : A) × (r ≡ ok a)) ⊎ ((e : Error) × (r ≡ err e))
Result-cases (ok a) = inl (a, refl)
Result-cases (err e) = inr (e, refl)
