-- ===== src/Engine/Registry/Isolation.antt =====
-- The other islets, while an operation of internal/engine works on one.
use pgislet.Base.{
  sym, ℕ, true, none, Bool-cases, String, Bool, false, ◌≡◌, refl, ◌∙◌, inl, inr, some, List, ◌==◌,
  Option-cases,
}
use pgislet.Base.Dict.{lookup}
use pgislet.Policy.Check.{Parser}
use pgislet.Engine.Types.{Islet, Metadata, Row, Db, to_metadata}
use pgislet.Engine.Initialize.{mark_unfinished, is_fenced}
use pgislet.Engine.Lifecycle.Create.{CreateOutcome}
use pgislet.Engine.Lifecycle.Create
use pgislet.Engine.Exec.{Env}
use pgislet.Engine.Gateway.{update_islet}
use pgislet.Engine.Cleanup.{mark}
use pgislet.Engine.Lifecycle.{reset, delete}
use pgislet.Engine.Lifecycle.Early.{failed_db-eq, StaysAborted, Early, kept, marked}
use pgislet.Engine.Lifecycle.Reset.{ResetOutcome, early, rebuilt, rebuilt_db, reset-ResetOutcome}
use pgislet.Engine.Lifecycle.Delete.{DeleteOutcome, removed_db, delete-DeleteOutcome}
use pgislet.Engine.Lifecycle.Delete
use pgislet.Engine.Execute.{Manager, Outcome, batch}
use pgislet.Engine.Execute.Whole.{ExecuteOutcome, activated}
use pgislet.Engine.Execute.Whole
use pgislet.Engine.Execute.Fresh.{BatchOutcome, refused, executed, batch-BatchOutcome}
use pgislet.Engine.Execute.Runs.{appended, appended-some, appended-none}
use pgislet.Engine.Registry.{WellFormed, key_cases, apart, at_other, erased_other}

-- The row `r` of islet `j`, its schema and its role are in the second database what they are in the
-- first.
pub record Untouched (j : String) (r : Row) (db db' : Db) : Type 0 where
  pub row : lookup j db'.islets ≡ lookup j db.islets
  pub schema : lookup r.schema_name db'.schemas ≡ lookup r.schema_name db.schemas
  pub role : lookup r.role_name db'.roles ≡ lookup r.role_name db.roles

pub Untouched-trans :
    {j : String} {r : Row} {a b c : Db} → Untouched j r a b → Untouched j r b c → Untouched j r a c
Untouched-trans first second = record {
  row = second.row ∙ first.row;
  schema = second.schema ∙ first.schema;
  role = second.role ∙ first.role;
}

update-Untouched :
    (id j : String) (r : Row) (f : Row → Row) (db : Db)
    → (id == j) ≡ false
    → Untouched j r db (update_islet id f db)
update-Untouched id j r f db other = elim (Option-cases (lookup id db.islets)) [
  | inl n ↦ rw (n, update_islet) (record { row = refl; schema = refl; role = refl })
  | inr (o, s) ↦
      rw (s, update_islet) (record { row = at_other _ _ _ _ other; schema = refl; role = refl })
]

pub mark-Untouched :
    (now : ℕ) (h : Islet) (j : String) (r : Row) (db : Db)
    → (h.id == j) ≡ false
    → Untouched j r db (mark_unfinished now h db)
unfolding mark_unfinished
mark-Untouched now h j r db other = elim (Option-cases (lookup h.id db.islets)) [
  | inl n ↦ rw (n, mark_unfinished) (record { row = refl; schema = refl; role = refl })
  | inr (o, s) ↦ elim (Bool-cases (is_fenced h o)) [
    | inr out ↦ rw (s, mark_unfinished, out) (record { row = refl; schema = refl; role = refl })
    | inl fenced ↦
        rw (s, mark_unfinished, fenced)
          (record { row = at_other _ _ _ _ other; schema = refl; role = refl })
  ]
]

activated-Untouched :
    (env : Env) (md : Metadata) (initializing : Bool) (j : String) (r : Row) (db : Db)
    → (md.id == j) ≡ false
    → Untouched j r db (activated env md initializing db)
activated-Untouched env md false j r db other = record { row = refl; schema = refl; role = refl }
activated-Untouched env md true j r db other = update-Untouched md.id j r _ db other

-- The id that a creation draws has no row yet, so it is not that of another islet.
pub fresh_other :
    (id j : String) (r : Row) (db : Db)
    → lookup id db.islets ≡ none
    → lookup j db.islets ≡ some r
    → (id == j) ≡ false
fresh_other id j r db free there = elim (key_cases id j) [
  | inl same ↦ cc (free, there, same)
  | inr n ↦ n
]

pub create-Untouched :
    {env : Env} {initialize : Bool} {j : String} {r : Row} {db db' : Db} {result : _}
    → WellFormed db
    → lookup j db.islets ≡ some r
    → CreateOutcome env initialize db result db'
    → Untouched j r db db'
create-Untouched fine there (Create.refused e q same_db) =
    rw same_db (record { row = refl; schema = refl; role = refl })
create-Untouched fine there (Create.created id password token i p t free q (inr (lost, same_db))) =
    rw same_db (record { row = refl; schema = refl; role = refl })
create-Untouched {j = j} {r = r} {db = db} fine there
      (Create.created id password token i p t free q (inl same_db)) =
    let other : (id == j) ≡ false = fresh_other id j r db free.row there in
    rw same_db (record {
      row = at_other _ _ _ _ other;
      schema =
          at_other _ _ _ _ (rw (fine.backed j r there).schema_name (apart "pgislet_i_" id j other));
      role =
          at_other _ _ _ _ (rw (fine.backed j r there).role_name (apart "pgislet_r_" id j other));
    })

module _ (h : Islet) (j : String) (r : Row) (db : Db) (fine : WellFormed db)
    (other : (h.id == j) ≡ false) (there : lookup j db.islets ≡ some r) where
  abbrev pub Kept : Db → Type 0
  Kept db' = Untouched j r db db'

  same : Kept db
  same = record { row = refl; schema = refl; role = refl }

  schema_apart :
      (o : Row) → lookup h.id db.islets ≡ some o → (o.schema_name == r.schema_name) ≡ false
  schema_apart o s =
      rw ((fine.backed h.id o s).schema_name, (fine.backed j r there).schema_name)
        (apart "pgislet_i_" h.id j other)

  role_apart : (o : Row) → lookup h.id db.islets ≡ some o → (o.role_name == r.role_name) ≡ false
  role_apart o s =
      rw ((fine.backed h.id o s).role_name, (fine.backed j r there).role_name)
        (apart "pgislet_r_" h.id j other)

  rebuilt-Kept :
      (env : Env) (o : Row) (initialize : Bool) (token : String)
      → lookup h.id db.islets ≡ some o
      → Kept (rebuilt_db env h.id o initialize token db)
  rebuilt-Kept env o initialize token s = record {
    row = at_other _ _ _ _ other;
    schema = at_other _ _ _ _ (schema_apart o s) ∙ erased_other _ _ _ (schema_apart o s);
    role = refl;
  }

  removed-Kept : (o : Row) → lookup h.id db.islets ≡ some o → Kept (removed_db h.id o db)
  removed-Kept o s = record {
    row = erased_other _ _ _ other;
    schema = erased_other _ _ _ (schema_apart o s);
    role = erased_other _ _ _ (role_apart o s);
  }

  appended-Kept :
      (o : Row) (ss : List String)
      → lookup h.id db.islets ≡ some o
      → Kept (appended o.schema_name ss db)
  appended-Kept o ss s = elim (Option-cases (lookup o.schema_name db.schemas)) [
    | inl n ↦
        rw (appended-none o.schema_name ss db n) (record { row = refl; schema = refl; role = refl })
    | inr (c, f) ↦
        rw (appended-some o.schema_name ss db c f)
          (record { row = refl; schema = at_other _ _ _ _ (schema_apart o s); role = refl })
  ]

  Early-Kept :
      (env : Env) (db' : Db) {blocked : _} {e : _} → Early env h blocked db e db' → Kept db'
  Early-Kept env db' (kept q) = rw q same
  Early-Kept env db' (marked o found gen unblocked l q) =
      rw (q ∙ sym (failed_db-eq env h.id o db found))
        (update-Untouched h.id j r (mark env.now) db other)

  pub reset-Kept :
      {env : Env} {initialize recovering : Bool} {db' : Db} {result : _}
      → ResetOutcome env h initialize recovering db result db'
      → Kept db'
  reset-Kept (early e q o) = Early-Kept _ _ o
  reset-Kept (rebuilt o token found g i d res (inr (lost, q))) = rw q same
  reset-Kept {env = env} {initialize = initialize} (rebuilt o token found g i d res (inl q)) =
      rw q (rebuilt-Kept env o initialize token found)

  pub delete-Kept :
      {env : Env} {db' : Db} {result : _} → DeleteOutcome env h db result db' → Kept db'
  delete-Kept (Delete.early e q o) = Early-Kept _ _ o
  delete-Kept (Delete.gone q e why) = rw e same
  delete-Kept (Delete.deleted o found g i res (inr (lost, q))) = rw q same
  delete-Kept (Delete.deleted o found g i res (inl q)) = rw q (removed-Kept o found)

  pub run-Kept :
      {p : Parser} {m : Manager} {env : Env} {ss : List String} {initializing : Bool} {db' : Db}
      {result : Outcome} (o : Row)
      → lookup h.id db.islets ≡ some o
      → ExecuteOutcome p m env (to_metadata h.id o) ss initializing db result db'
      → Kept db'
  unfolding to_metadata
  run-Kept o s (Whole.failed e q same_db) = rw same_db same
  run-Kept o s (Whole.done a b c (inr (lost, q))) = rw q same
  run-Kept {env = env} {ss = ss} {initializing = initializing} o s (Whole.done a b c (inl q)) =
      rw q (
        Untouched-trans (appended-Kept o ss s)
          (activated-Untouched env (to_metadata h.id o) initializing j r _ other))

  batch-Kept :
      {p : Parser} {m : Manager} {env : Env} {ss : List String} {db' : Db} {result : Outcome}
      → BatchOutcome p m env h ss db result db'
      → Kept db'
  batch-Kept (refused e q same_db) = rw same_db same
  batch-Kept (executed o found g size run) = run-Kept o found run

-- In a well-formed registry, a batch, a reset and a delete for the handle of one islet leave every
-- other islet's row, the content of its schema and its role as they are, whatever calls fail as long as
-- a transaction stays aborted whose ROLLBACK TO has failed: the names
-- that they reach through a row are that islet's own. A statement counts as content of the schema that
-- the batch ran it for.
pub operations-Untouched :
    (p : Parser) (m : Manager) (env : Env) (h : Islet) (ss : List String)
    (initialize recovering : Bool) (j : String) (r : Row) (db : Db)
    → WellFormed db
    → StaysAborted env
    → (h.id == j) ≡ false
    → lookup j db.islets ≡ some r
    → Untouched j r db (batch p m env h ss db).1
      × Untouched j r db (reset env h initialize recovering db).1
      × Untouched j r db (delete env h db).1
operations-Untouched p m env h ss initialize recovering j r db fine sticks other there = (
  batch-Kept h j r db fine other there (batch-BatchOutcome p m env h ss db),
  reset-Kept h j r db fine other there (reset-ResetOutcome env h initialize recovering db sticks),
  delete-Kept h j r db fine other there (delete-DeleteOutcome env h db sticks),
)
