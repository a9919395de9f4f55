-- ===== src/Archive/Files.antt =====
-- What archiving changes: the database, the archive files, and the calls of `check_stop`.
use rankedftw.Prelude.{ℕ, suc, List, [], ◌∷◌, ◌++◌, ◌≡◌, refl}
use Prim.Native.String.{String}
use rankedftw.Prelude.Result.{Result, ok, err}
use rankedftw.Store.{Db}
use rankedftw.Store.Action.{Action}

-- `filename`: "/dev/null", "%s/archive-ranking-%d.gz" and "%s/archive-ladder-caches-%d.gz".
pub data Filename : Type 0 where
  dev_null : Filename
  ranking_file caches_file : String → ℕ → Filename

-- The open file is the list of its lines, each a text that only `json` reads and writes; `closed` has the files in the order of their closing. What
-- is called with a `check_stop` counts its calls.
pub record World (Line : Type 0) : Type 0 where
  pub db : Db
  pub lines : List Line
  pub closed : List (Filename × List Line)
  pub calls : ℕ

abbrev pub Step {ℓ} : Type 0 → Type ℓ → Type ℓ
Step Line A = World Line → Result A × World Line

module _ {ℓ} {Line : Type 0} {A : Type ℓ} where
  abbrev pub pure : A → Step Line A
  pure a w = (ok a, w)

  abbrev pub lift : Result A → Step Line A
  lift r w = (r, w)

  abbrev placed : World Line → Result A × Db → Result A × World Line
  placed w r = (r.0, record w { db = r.1 })

  abbrev pub on_db : Action A → Step Line A
  on_db m w = placed w (m w.db)

  abbrev pub rollback : Db → Result A × World Line → Result A × World Line
  rollback old (ok a, w) = (ok a, w)
  rollback old (err e, w) = (err e, record w { db = old })

  -- `with transaction.atomic():`, which takes back the database alone.
  abbrev pub atomic : Step Line A → Step Line A
  atomic m w = rollback w.db (m w)

  abbrev close : Filename → List Line → Result A × World Line → Result A × World Line
  close name outer r =
      (r.0, record r.1 { lines = outer; closed = r.1.closed ++ ((name, r.1.lines) ∷ []) })

  -- `with gzip.open(filename, mode='wb') as file:`, which starts an empty file, and closes it also
  -- where the block raises.
  abbrev pub with_file : Filename → Step Line A → Step Line A
  with_file name m w = close name w.lines (m (record w { lines = [] }))

abbrev pub continue {ℓ κ} :
    {Line : Type 0} {A : Type ℓ} {B : Type κ}
    → (A → Step Line B)
    → Result A × World Line
    → Result B × World Line
continue f (ok a, w) = f a w
continue f (err e, w) = (err e, w)

infixl 5 ◌>>=◌ ◌>>◌
abbrev pub ◌>>=◌ {ℓ κ} :
    {Line : Type 0} {A : Type ℓ} {B : Type κ} → Step Line A → (A → Step Line B) → Step Line B
◌>>=◌ m f w = continue f (m w)

abbrev pub ◌>>◌ {ℓ κ} :
    {Line : Type 0} {A : Type ℓ} {B : Type κ} → Step Line A → Step Line B → Step Line B
m >> k = m >>= λ _. k

-- `file.write(s.encode('utf-8'))` and `file.write(b'\n')`.
abbrev pub write_line : {Line : Type 0} → Line → Step Line (Unit {0})
write_line s w = (ok tt, record w { lines = w.lines ++ (s ∷ []) })

-- `check_stop()`, by the number of the call.
abbrev pub call : {Line : Type 0} → (ℕ → Result (Unit {0})) → Step Line (Unit {0})
call check_stop w = (check_stop w.calls, record w { calls = suc w.calls })

-- Code that has returned has done so through each of its statements.
pub continue-eq-ok {ℓ κ} :
    {Line : Type 0} {A : Type ℓ} {B : Type κ} (f : A → Step Line B) (r : Result A × World Line)
    {b : B}
    → (continue f r).0 ≡ ok b
    → (a : A) × (r.0 ≡ ok a) × (continue f r ≡ f a r.1)
continue-eq-ok f (ok a, w) h = (a, refl, refl)
continue-eq-ok f (err e, w) h = absurd cc

module _ {ℓ} {Line : Type 0} {A : Type ℓ} where
  pub rollback-eq-ok :
      (old : Db) (r : Result A × World Line) {a : A}
      → (rollback old r).0 ≡ ok a
      → rollback old r ≡ r
  rollback-eq-ok old (ok a, w) h = refl
  rollback-eq-ok old (err e, w) h = absurd cc
