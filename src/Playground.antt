-- ===== src/Playground.antt =====
-- examples/playground/playground.go: a run of the package's operations with deferred cleanups. Its two
-- managers share the database; what it prints but for the errors of the cleanups is left out. A panic
-- runs the deferred calls as a return does, and is the error `panicked`.
pub mod Leaves
use Prim.Native.String.{◌++◌ as ◌then◌}
use pgislet.Base.{
  ℕ, String, Bool, true, false, not, Option, none, some, List, [], ◌∷◌, ◌==◌, if◌then◌else◌,
}
use pgislet.Errors.{Err, Result, ok, err, other, is, not_found, stale_generation}
use pgislet.Errors
use pgislet.Policy.Check.{Parser}
use pgislet.Engine.Types.{Islet, Db, is_initializing}
use pgislet.Engine.Exec.{Env}
use pgislet.Engine.Lifecycle.{create, reset, delete}
use pgislet.Engine.Result.{QueryResult, no_result}
use pgislet.Engine.Execute.{Manager, execute_one}
use pgislet.Engine.Initialize.{open_islet, create_with_initialization, reinitialize}
use pgislet.Web.Removal.{Removal}

-- What the calls of a run meet: one environment for each operation, in order, 13 and 14 for the two
-- initializations behind a creation and a reset, and those of the two cleanups.
pub record Plays : Type 0 where
  pub env : ℕ → Env
  pub removal_a : Removal
  pub removal_b : Removal

abbrev panicked : Err
panicked = other "index out of range"

-- An operation on the database that returns an error or a value.
abbrev pub Play : Type 0 → Type 0
Play V = Db → Result V × Db

infixl 5 ◌>>=◌ ◌>>◌
abbrev go_on : {V W : Type 0} → (V → Play W) → Result V × Db → Result W × Db
go_on next (err e, db) = (err e, db)
go_on next (ok v, db) = next v db

abbrev ◌>>=◌ : {V W : Type 0} → Play V → (V → Play W) → Play W
◌>>=◌ m next db = go_on next (m db)

abbrev ◌>>◌ : {W : Type 0} → Play (Unit {0}) → Play W → Play W
m >> n = m >>= λ _. n

-- `if err != nil { return err }` behind a call.
abbrev checked : {V : Type 0} → (V × Option Err) × Db → Result V × Db
checked ((v, some e), db) = (err e, db)
checked ((v, none), db) = (ok v, db)

abbrev zero_if_none : Option QueryResult → QueryResult
zero_if_none (some result) = result
zero_if_none none = no_result

abbrev fail_if : Bool → Err → Play (Unit {0})
fail_if true e db = (err e, db)
fail_if false e db = (ok tt, db)

-- `!errors.Is(err, kind)`.
abbrev misses : Option Err → Errors.Kind → Bool
misses none kind = true
misses (some e) kind = not (is e kind)

-- `result.Rows[0][0]`.
abbrev first_cell : QueryResult → Play (Option String)
first_cell result db = elim result.rows [
  | (cell ∷ cells) ∷ rows ↦ (ok cell, db)
  | _ ↦ (err panicked, db)
]

-- `%s` of a value.
abbrev text_of : Option String → String
text_of (some s) = s
text_of none = "%!s(<nil>)"

abbrev is_two : Option String → Bool
is_two (some s) = s == "2"
is_two none = false

abbrev pub learners : List String
learners =
    "CREATE TABLE learners(id int PRIMARY KEY,name text)"
    ∷ "INSERT INTO learners VALUES(1,'Alice'),(2,'Bob')" ∷ []

module _ (f : Removal) where
  abbrev pub recovered_islet : Islet × Db → (Islet × Option Err) × Db
  recovered_islet (h, db) =
      if is_initializing h.state then reset f.recovering h false true db else ((h, none), db)

  abbrev pub deleted_islet : (Islet × Option Err) × Db → Option Err × Db
  deleted_islet ((h, some e), db) = (some e, db)
  deleted_islet ((h, none), db) = let (r, db') = delete f.deleting h db in (r.1, db')

  abbrev pub cleaned_islet : Db → Result Islet → Option Err × Db
  cleaned_islet db (err e) = if is e not_found then (none, db) else (some e, db)
  cleaned_islet db (ok h) = deleted_islet (recovered_islet (h, db))

  -- `cleanup`, with the error that it prints.
  unfoldable pub clean_up : String → Db → Option Err × Db
  clean_up id db = cleaned_islet db (open_islet f.opened id db)

-- The error of a run, the islets that it has created, and the error that each cleanup prints.
pub record Played : Type 0 where
  pub error : Option Err
  pub a : Option String
  pub b : Option String
  pub printed_a : Option Err
  pub printed_b : Option Err

abbrev error_of : Result (Unit {0}) → Option Err
error_of (ok _) = none
error_of (err e) = some e

abbrev played : Option Err → Played
played e = record { error = e; a = none; b = none; printed_a = none; printed_b = none }

-- `m` and `node` are the two managers.
module _ (p : Parser) (m node : Manager) (c : Plays) where
  abbrev run_sql : Manager → ℕ → Islet → String → Db → (Option QueryResult × Option Err) × Db
  run_sql by i h sql db = execute_one p by (c.env i) h sql db

  -- `result, err := ...Execute(...); if err != nil { return err }`.
  abbrev must_run : Manager → ℕ → Islet → String → Play QueryResult
  must_run by i h sql db =
      let ((result, e), db') = run_sql by i h sql db in checked ((zero_if_none result, e), db')

  -- A statement whose error must carry the kind.
  abbrev must_fail : Manager → ℕ → Islet → String → Errors.Kind → Play (Unit {0})
  must_fail by i h sql kind db =
      let ((result, e), db') = run_sql by i h sql db in
      fail_if (misses e kind) (other "expected another error") db'

  -- The body of `Run` behind both creations.
  unfoldable pub play_both : Islet → Islet → Play (Unit {0})
  play_both a b = do
    _ ← must_run node 2 a "SELECT name FROM learners ORDER BY id"
    _ ← must_run m 3 a "DROP TABLE learners"
    schema ← must_run m 4 b "SELECT current_schema()"
    _ ← must_run m 5 b "CREATE TABLE private_data(n int)"
    cell ← first_cell schema
    must_fail m 6 a ("SELECT * FROM " then (text_of cell then ".private_data")) Errors.query
    a₁ ← λ db. checked (reset (c.env 7) a false false db)
    must_fail node 8 a "SELECT 1" stale_generation
    a₂ ← λ db. checked (reinitialize p m (c.env 9) (c.env 14) learners a₁ db)
    result ← must_run node 10 a₂ "SELECT count(*) FROM learners"
    restored ← first_cell result
    fail_if (not (is_two restored)) (other "unexpected restored rows")
    _ ← λ db. checked (delete (c.env 11) a₂ db)
    λ db. checked (delete (c.env 12) b db)

  -- `b, err := manager.Create(ctx)`, with the cleanup that is deferred behind it.
  abbrev pub with_b : Islet → (Islet × Option Err) × Db → Played × Db
  with_b a ((b, some e), db) = (played (some e), db)
  with_b a ((b, none), db) =
      let (result, db₁) = play_both a b db in
      let (printed, db₂) = clean_up c.removal_b b.id db₁ in
      (record (played (error_of result)) { b = some b.id; printed_b = printed }, db₂)

  -- `a, err := manager.CreateWithInitialization(ctx, seed)`, with its cleanup, which runs last.
  abbrev pub with_a : (Islet × Option Err) × Db → Played × Db
  with_a ((a, some e), db) = (played (some e), db)
  with_a ((a, none), db) =
      let (result, db₁) = with_b a (create (c.env 1) false db) in
      let (printed, db₂) = clean_up c.removal_a a.id db₁ in
      (record result { a = some a.id; printed_a = printed }, db₂)

  -- `Run`, behind the construction of its managers.
  unfoldable pub run : Db → Played × Db
  unfolding play_both clean_up
  run db = with_a (create_with_initialization p m (c.env 0) (c.env 13) learners db)
