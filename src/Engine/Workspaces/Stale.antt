-- ===== src/Engine/Workspaces/Stale.antt =====
-- Handles of internal/engine that a later generation has replaced.
use pgislet.Base.{ℕ, ◌<◌, String, Bool, ◌≡◌, ◌∙◌, Option, none, some, List, [], arith}
use pgislet.Base.Dict.{lookup}
use pgislet.Errors.{Err}
use pgislet.Policy.Check.{Parser}
use pgislet.Engine.Types.{Metadata, Islet, no_islet, Row, Db}
use pgislet.Engine.Exec.{Env}
use pgislet.Engine.Lifecycle.{reset, delete}
use pgislet.Engine.Lifecycle.Early.{StaysAborted, kept, marked}
use pgislet.Engine.Lifecycle.Reset.{early, rebuilt, ResetOutcome, reset-ResetOutcome}
use pgislet.Engine.Lifecycle.Delete
use pgislet.Engine.Lifecycle.Delete.{DeleteOutcome, delete-DeleteOutcome}
use pgislet.Engine.Execute.{Manager, Outcome, batch, execute}
use pgislet.Engine.Execute.Whole
use pgislet.Engine.Execute.Whole.{ExecuteOutcome, execute-ExecuteOutcome}
use pgislet.Engine.Execute.Fresh.{BatchOutcome, refused, executed, batch-BatchOutcome}
use pgislet.Engine.Registry.{WellFormed}
use pgislet.Engine.Workspaces.Spec.{Workspace}
use pgislet.Engine.Workspaces.Lasting.{History, IsLasting, History-lasts}
use pgislet.Engine.Workspaces.View.{view, view-found}

-- A workspace of a later generation than `g`, or none.
abbrev pub IsPast : ℕ → Option Workspace → Type 0
IsPast g none = Unit
IsPast g (some w) = g < w.generation

IsPast-IsLasting : (g : ℕ) → IsLasting (IsPast g)
IsPast-IsLasting g = record {
  gone = tt;
  grown = λ w new more later. omega arith;
  settled = λ w new same out later. omega arith;
}

no_row :
    (g : ℕ) (id : String) (db : Db)
    → IsPast g (view db id)
    → (r : Row) → lookup id db.islets ≡ some r
    → r.generation ≡ g
    → ⊥
no_row g id db past r found same =
    let later : g < r.generation = rw (view-found db id r found) at past in omega arith

-- What calls with the handle `h`, and an execution with the metadata `md`, come to: an error, and no
-- effect; but a deletion may succeed, without one.
pub record HasNoEffect (p : Parser) (m : Manager) (env : Env) (h : Islet) (md : Metadata)
    (ss : List String) (first initialize recovering : Bool) (db : Db) : Type 0 where
  pub batch_error : Err
  pub batch_result : (batch p m env h ss db).0 ≡ ([], some batch_error)
  pub batch_db : (batch p m env h ss db).1 ≡ db
  pub execute_error : Err
  pub execute_result : (execute p m env md ss first db).0.1 ≡ some execute_error
  pub execute_db : (execute p m env md ss first db).1 ≡ db
  pub reset_error : Err
  pub reset_result : (reset env h initialize recovering db).0 ≡ (no_islet, some reset_error)
  pub reset_db : (reset env h initialize recovering db).1 ≡ db
  pub delete_db : (delete env h db).1 ≡ db

module _ (h : Islet) (db : Db) (past : IsPast h.generation (view db h.id)) where
  batch_refused :
      {p : Parser} {m : Manager} {env : Env} {ss : List String} {result : Outcome} {db' : Db}
      → BatchOutcome p m env h ss db result db'
      → (e : Err) × (result ≡ ([], some e)) × (db' ≡ db)
  batch_refused (refused e q same) = (e, q, same)
  batch_refused (executed r found gen size run) =
      elim (no_row h.generation h.id db past r found gen) [ ]

  execution_refused :
      {p : Parser} {m : Manager} {env : Env} {md : Metadata} {ss : List String} {first : Bool}
      {result : Outcome} {db' : Db}
      → md.id ≡ h.id
      → md.generation ≡ h.generation
      → ExecuteOutcome p m env md ss first db result db'
      → ((e : Err) × (result.1 ≡ some e)) × (db' ≡ db)
  execution_refused named gen (Whole.failed e q same) = ((e, q), same)
  execution_refused named gen (Whole.done a runs c how) =
      elim (no_row h.generation h.id db past a.row (rw named at a.found) (a.generation ∙ gen)) [ ]

  reset_refused :
      {env : Env} {initialize recovering : Bool} {result : Islet × Option Err} {db' : Db}
      → ResetOutcome env h initialize recovering db result db'
      → (e : Err) × (result ≡ (no_islet, some e)) × (db' ≡ db)
  reset_refused (early e q (kept same)) = (e, q, same)
  reset_refused (early e q (marked r found gen idle l same)) =
      elim (no_row h.generation h.id db past r found gen) [ ]
  reset_refused (rebuilt r token found gen idle d q how) =
      elim (no_row h.generation h.id db past r found gen) [ ]

  delete_refused :
      {env : Env} {result : Unit {0} × Option Err} {db' : Db}
      → DeleteOutcome env h db result db'
      → db' ≡ db
  delete_refused (Delete.early e q (kept same)) = same
  delete_refused (Delete.early e q (marked r found gen idle l same)) =
      elim (no_row h.generation h.id db past r found gen) [ ]
  delete_refused (Delete.gone q same why) = same
  delete_refused (Delete.deleted r found gen idle q how) =
      elim (no_row h.generation h.id db past r found gen) [ ]

  past-HasNoEffect :
      (p : Parser) (m : Manager) (env : Env) (md : Metadata) (ss : List String)
      (first initialize recovering : Bool)
      → md.id ≡ h.id
      → md.generation ≡ h.generation
      → StaysAborted env
      → HasNoEffect p m env h md ss first initialize recovering db
  past-HasNoEffect p m env md ss first initialize recovering named gen sticks =
      let (b, b_result, b_db) = batch_refused (batch-BatchOutcome p m env h ss db) in
      let ((x, x_result), x_db) =
        execution_refused named gen (execute-ExecuteOutcome p m env md ss first db) in
      let (r, r_result, r_db) =
        reset_refused (reset-ResetOutcome env h initialize recovering db sticks) in
      record {
        batch_error = b;
        batch_result = b_result;
        batch_db = b_db;
        execute_error = x;
        execute_result = x_result;
        execute_db = x_db;
        reset_error = r;
        reset_result = r_result;
        reset_db = r_db;
        delete_db = delete_refused (delete-DeleteOutcome env h db sticks);
      }

-- Once the workspace of a handle is of a later generation or gone, no batch, reset or deletion with the
-- handle has an effect again, nor an execution with metadata that was read for it before, and none but a
-- deletion succeeds: after any number of transactions of any managers, whatever calls fail, that do not
-- create a workspace of the same name. The registry is well-formed, and a transaction stays aborted
-- whose ROLLBACK TO has failed.
pub past_forever :
    (p : Parser) (m : Manager) (env : Env) (h : Islet) (md : Metadata) (ss : List String)
    (first initialize recovering : Bool) (db db' : Db)
    → WellFormed db
    → IsPast h.generation (view db h.id)
    → History h.id db db'
    → md.id ≡ h.id
    → md.generation ≡ h.generation
    → StaysAborted env
    → HasNoEffect p m env h md ss first initialize recovering db'
past_forever p m env h md ss first initialize recovering db db' fine past history named gen sticks =
    let (fine', past') =
      History-lasts (IsPast h.generation) (IsPast-IsLasting h.generation) h.id db fine past
        history in
    past-HasNoEffect h db' past' p m env md ss first initialize recovering named gen sticks
