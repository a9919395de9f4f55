-- ===== src/Store/Action.antt =====
-- Code that reads and writes the database and may raise: what was written before a raise stays
-- written, unless an enclosing `transaction.atomic` takes it back.
use rankedftw.Prelude.{refl, ◌≡◌}
use rankedftw.Prelude.Result.{Result, ok, err, Error}
use rankedftw.Store.{Db}

abbrev pub Action {ℓ} : Type ℓ → Type ℓ
Action A = Db → Result A × Db

module _ {ℓ} {A : Type ℓ} where
  abbrev pub pure : A → Action A
  pure a db = (ok a, db)

  abbrev pub raise : Error → Action A
  raise e db = (err e, db)

  abbrev pub lift : Result A → Action A
  lift r db = (r, db)

  -- A query, which may raise and writes nothing.
  abbrev pub query : (Db → Result A) → Action A
  query f db = (f db, db)

  abbrev pub rollback : Db → Result A × Db → Result A × Db
  rollback old (ok a, new) = (ok a, new)
  rollback old (err e, new) = (err e, old)

  -- `with transaction.atomic():`.
  abbrev pub atomic : Action A → Action A
  atomic m db = rollback db (m db)

abbrev pub continue {ℓ κ} :
    {A : Type ℓ} {B : Type κ} → (A → Action B) → Result A × Db → Result B × Db
continue f (ok a, db) = f a db
continue f (err e, db) = (err e, db)

infixl 5 ◌>>=◌ ◌>>◌
abbrev pub ◌>>=◌ {ℓ κ} : {A : Type ℓ} {B : Type κ} → Action A → (A → Action B) → Action B
◌>>=◌ m f db = continue f (m db)

abbrev pub ◌>>◌ {ℓ κ} : {A : Type ℓ} {B : Type κ} → Action A → Action B → Action B
m >> k = m >>= λ _. k

abbrev pub modify : (Db → Db) → Action (Unit {0})
modify f db = (ok tt, f db)

-- What holds of the database where the code after a value returns holds where the whole returns.
pub bind_lift {ℓ κ μ} :
    {A : Type ℓ} {B : Type κ} (Q : Db → Type μ) (b : B) (r : Result A) (f : A → Action B) (db : Db)
    → ((a : A) → r ≡ ok a → (f a db).0 ≡ ok b → Q (f a db).1)
    → ((lift r >>= f) db).0 ≡ ok b
    → Q ((lift r >>= f) db).1
bind_lift Q b (ok a) f db next h = next a refl h
bind_lift Q b (err e) f db next h = absurd cc

-- What holds before code that may raise holds after it, whether or not it raises.
pub continue_keeps {ℓ κ μ} :
    {A : Type ℓ} {B : Type κ} (Q : Db → Type μ) (f : A → Action B) (r : Result A × Db)
    → Q r.1
    → ((a : A) → r.0 ≡ ok a → Q (f a r.1).1)
    → Q (continue f r).1
continue_keeps Q f (ok a, db) q next = next a refl
continue_keeps Q f (err e, db) q next = q

pub rollback_keeps {ℓ μ} :
    {A : Type ℓ} (Q : Db → Type μ) (old : Db) (r : Result A × Db)
    → Q old
    → Q r.1
    → Q (rollback old r).1
rollback_keeps Q old (ok a, db) q new = new
rollback_keeps Q old (err e, db) q new = q

pub continue_ok {ℓ κ μ} :
    {A : Type ℓ} {B : Type κ} (Q : Db → Type μ) (b : B) (f : A → Action B) (r : Result A × Db)
    → ((a : A) → r.0 ≡ ok a → (f a r.1).0 ≡ ok b → Q (f a r.1).1)
    → (continue f r).0 ≡ ok b
    → Q (continue f r).1
continue_ok Q b f (ok a, db) next h = next a refl h
continue_ok Q b f (err e, db) next h = absurd cc

pub continue_cong {ℓ κ} :
    {A : Type ℓ} {B : Type κ} (f g : A → Action B) (r : Result A × Db)
    → ((a : A) (now : Db) → f a now ≡ g a now)
    → continue f r ≡ continue g r
continue_cong f g (ok a, db) same = same a db
continue_cong f g (err e, db) same = refl

pub rollback_ok {ℓ μ} :
    {A : Type ℓ} (Q : Db → Type μ) (b : A) (old : Db) (r : Result A × Db)
    → (r.0 ≡ ok b → Q r.1)
    → (rollback old r).0 ≡ ok b
    → Q (rollback old r).1
rollback_ok Q b old (ok a, db) next h = next h
rollback_ok Q b old (err e, db) next h = absurd cc
