-- ===== src/Engine/Registry/Reach.antt =====
-- The databases that the operations of internal/engine can reach, whatever calls fail.
use pgislet.Base.{
  ◌∙◌, sym, ℕ, String, Bool, true, false, ◌≡◌, refl, inl, inr, some, List, [], ◌++◌, arith,
  Option-cases, Bool-cases,
}
use pgislet.Base.Dict.{lookup, insert, erase}
use pgislet.Policy.Check.{Parser}
use pgislet.Engine.Types.{Islet, Metadata, Row, Db}
use pgislet.Engine.Exec.{Env}
use pgislet.Engine.Gateway.{update_islet}
use pgislet.Engine.Cleanup.{mark}
use pgislet.Engine.Lifecycle.{create, reset, delete, first_state, new_metadata, new_row}
use pgislet.Engine.Lifecycle.Early.{failed_db-eq, StaysAborted, Early, kept, marked}
use pgislet.Engine.Lifecycle.Create.{CreateOutcome, refused, created, create-CreateOutcome}
use pgislet.Engine.Lifecycle.Reset.{ResetOutcome, early, rebuilt, rebuilt_db, reset-ResetOutcome}
use pgislet.Engine.Lifecycle.Delete.{DeleteOutcome, delete-DeleteOutcome}
use pgislet.Engine.Lifecycle.Delete
use pgislet.Engine.Execute.{Manager, Outcome, execute}
use pgislet.Engine.Execute.Whole.{ExecuteOutcome, activated, execute-ExecuteOutcome}
use pgislet.Engine.Execute.Whole
use pgislet.Engine.Execute.Runs.{appended, appended-some, appended-none}
use pgislet.Engine.Initialize.{mark_unfinished, is_fenced}
use pgislet.Engine.Registry.{
  WellFormed, insert-Keeps, erase-Keeps, schemas-WellFormed, row-WellFormed, added-WellFormed,
  removed-WellFormed,
}

-- One transaction of an operation.
pub data Step (db : Db) : Db → Type 0 where
  by_create : (env : Env) (initialize : Bool) → Step db (create env initialize db).1
  by_reset :
      (env : Env) (h : Islet) (initialize recovering : Bool)
      → StaysAborted env
      → Step db (reset env h initialize recovering db).1
  by_delete : (env : Env) (h : Islet) → StaysAborted env → Step db (delete env h db).1
  by_execute :
      (p : Parser) (m : Manager) (env : Env) (md : Metadata) (statements : List String)
      (initializing : Bool)
      → Step db (execute p m env md statements initializing db).1
  by_mark : (now : ℕ) (h : Islet) → Step db (mark_unfinished now h db)

pub data Reachable : Db → Type 0 where
  bootstrapped : Reachable (record { islets = []; schemas = []; roles = [] })
  and_then : {db db' : Db} → Reachable db → Step db db' → Reachable db'

updated-WellFormed :
    (db : Db) (id : String) (f : Row → Row)
    → ((r : Row)
        → ((f r).schema_name ≡ r.schema_name)
          × ((f r).role_name ≡ r.role_name)
          × ((f r).password ≡ r.password)
          × ((f r).generation ≡ r.generation))
    → WellFormed db
    → WellFormed (update_islet id f db)
updated-WellFormed db id f same fine = elim (Option-cases (lookup id db.islets)) [
  | inl n ↦ rw (n, update_islet) fine
  | inr (r, s) ↦
      (let (a, b, c, d) = same r in
        rw (s, update_islet)
          (row-WellFormed db fine id r (f r) s a b c (rw d (fine.backed id r s).generation)))
]

appended-WellFormed :
    (db : Db) (schema : String) (ss : List String)
    → WellFormed db
    → WellFormed (appended schema ss db)
appended-WellFormed db schema ss fine = elim (Option-cases (lookup schema db.schemas)) [
  | inl n ↦ rw (appended-none schema ss db n) fine
  | inr (c, s) ↦ rw (appended-some schema ss db c s) (
      schemas-WellFormed db fine (insert schema (c ++ ss) db.schemas)
        (insert-Keeps schema (c ++ ss) db.schemas))
]

activated-WellFormed :
    (env : Env) (md : Metadata) (initializing : Bool) (db : Db)
    → WellFormed db
    → WellFormed (activated env md initializing db)
activated-WellFormed env md false db fine = fine
activated-WellFormed env md true db fine =
    updated-WellFormed db md.id _ (λ r. (refl, refl, refl, refl)) fine

Early-WellFormed :
    (env : Env) (h : Islet) (db db' : Db) {blocked : _} {e : _}
    → Early env h blocked db e db'
    → WellFormed db
    → WellFormed db'
Early-WellFormed env h db db' (kept same) fine = rw same fine
Early-WellFormed env h db db' (marked r found gen unblocked l same) fine =
    rw (same ∙ sym (failed_db-eq env h.id r db found))
      (updated-WellFormed db h.id (mark env.now) (λ r. (refl, refl, refl, refl)) fine)

marked-WellFormed :
    (now : ℕ) (h : Islet) (db : Db) → WellFormed db → WellFormed (mark_unfinished now h db)
unfolding mark_unfinished
marked-WellFormed now h db fine = elim (Option-cases (lookup h.id db.islets)) [
  | inl n ↦ rw (n, mark_unfinished) fine
  | inr (r, s) ↦ elim (Bool-cases (is_fenced h r)) [
    | inr other ↦ rw (s, mark_unfinished, other) fine
    | inl fenced ↦
        rw (s, mark_unfinished, fenced)
          (row-WellFormed db fine h.id r (mark now r) s refl refl refl
            (fine.backed h.id r s).generation)
  ]
]

create-WellFormed :
    {env : Env} {initialize : Bool} {db db' : Db} {result : _}
    → CreateOutcome env initialize db result db'
    → WellFormed db
    → WellFormed db'
create-WellFormed (refused e r same) fine = rw same fine
create-WellFormed (created id password token i p t free r (inr (lost, same))) fine = rw same fine
create-WellFormed {env} {initialize} {db} (created id password token i p t free r (inl same)) fine =
    let md = new_metadata id password token (first_state initialize) env.now in
    rw same (added-WellFormed db fine id (new_row md) refl refl (omega arith) free.schema free.role)

rebuilt-WellFormed :
    (env : Env) (id : String) (r : Row) (initialize : Bool) (token : String) (db : Db)
    → lookup id db.islets ≡ some r
    → WellFormed db
    → WellFormed (rebuilt_db env id r initialize token db)
rebuilt-WellFormed env id r initialize token db found fine =
    let emptied : Db = record db {
      schemas = insert r.schema_name [] (erase r.schema_name db.schemas);
    } in
    row-WellFormed emptied
      (schemas-WellFormed db fine emptied.schemas (erase-Keeps r.schema_name [] db.schemas)) id r _
      found refl refl refl (omega arith)

reset-WellFormed :
    {env : Env} {h : Islet} {initialize recovering : Bool} {db db' : Db} {result : _}
    → ResetOutcome env h initialize recovering db result db'
    → WellFormed db
    → WellFormed db'
reset-WellFormed (early e r o) fine = Early-WellFormed _ _ _ _ o fine
reset-WellFormed (rebuilt r token found g i d res (inr (lost, same))) fine = rw same fine
reset-WellFormed {env} {h} {initialize} {recovering} {db}
      (rebuilt r token found g i d res (inl same)) fine =
    rw same (rebuilt-WellFormed env h.id r initialize token db found fine)

delete-WellFormed :
    {env : Env} {h : Islet} {db db' : Db} {result : _}
    → DeleteOutcome env h db result db'
    → WellFormed db
    → WellFormed db'
delete-WellFormed (Delete.early e r o) fine = Early-WellFormed _ _ _ _ o fine
delete-WellFormed (Delete.gone r same why) fine = rw same fine
delete-WellFormed (Delete.deleted r found g i res (inr (lost, same))) fine = rw same fine
delete-WellFormed {env} {h} {db} (Delete.deleted r found g i res (inl same)) fine =
    rw same (removed-WellFormed db fine h.id r found)

execute-WellFormed :
    {p : Parser} {m : Manager} {env : Env} {md : Metadata} {ss : List String} {initializing : Bool}
    {db db' : Db} {result : Outcome}
    → ExecuteOutcome p m env md ss initializing db result db'
    → WellFormed db
    → WellFormed db'
execute-WellFormed (Whole.failed e r same) fine = rw same fine
execute-WellFormed (Whole.done a b c (inr (lost, same))) fine = rw same fine
execute-WellFormed {p} {m} {env} {md} {ss} {initializing} {db} (Whole.done a b c (inl same)) fine =
    rw same (activated-WellFormed env md initializing _ (appended-WellFormed db md.schema ss fine))

-- Every transaction of an operation keeps the registry well-formed, whatever calls fail: each row has
-- the schema and the role of its islet's name, the role with its password, and a generation above zero.
pub Step-WellFormed : (db db' : Db) → Step db db' → WellFormed db → WellFormed db'
Step-WellFormed db db' (by_create env initialize) fine =
    create-WellFormed (create-CreateOutcome env initialize db) fine
Step-WellFormed db db' (by_reset env h initialize recovering sticks) fine =
    reset-WellFormed (reset-ResetOutcome env h initialize recovering db sticks) fine
Step-WellFormed db db' (by_delete env h sticks) fine =
    delete-WellFormed (delete-DeleteOutcome env h db sticks) fine
Step-WellFormed db db' (by_execute p m env md statements initializing) fine =
    execute-WellFormed (execute-ExecuteOutcome p m env md statements initializing db) fine
Step-WellFormed db db' (by_mark now h) fine = marked-WellFormed now h db fine

empty-WellFormed : WellFormed (record { islets = []; schemas = []; roles = [] })
unfolding lookup
empty-WellFormed = record { backed = λ id r h. cc }

-- Every database that the operations reach from the empty registry, in any number of transactions and
-- whatever calls fail, is well-formed.
pub Reachable-WellFormed : (db : Db) → Reachable db → WellFormed db
Reachable-WellFormed db bootstrapped = empty-WellFormed
Reachable-WellFormed db' (and_then {db} before step) =
    Step-WellFormed db db' step (Reachable-WellFormed db before)
