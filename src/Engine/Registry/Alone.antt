-- ===== src/Engine/Registry/Alone.antt =====
-- What the transactions for other islets keep of an islet's own objects.
use pgislet.Base.{String, Bool, false, ◌≡◌, ◌∙◌, ◌⊎◌, inl, inr, Option, none, some, ap, ◌==◌}
use pgislet.Base.Dict.{lookup}
use pgislet.Errors.{Err}
use pgislet.Engine.Types.{Islet, Row, Db, to_metadata}
use pgislet.Engine.Exec.{Env}
use pgislet.Engine.Lifecycle.Create.{CreateOutcome, refused, created, create-CreateOutcome}
use pgislet.Engine.Lifecycle.Reset.{reset-ResetOutcome}
use pgislet.Engine.Lifecycle.Delete.{delete-DeleteOutcome}
use pgislet.Engine.Execute.Whole.{execute-ExecuteOutcome}
use pgislet.Engine.Registry.{WellFormed}
use pgislet.Engine.Registry.Closed.{Closed}
use pgislet.Engine.Registry.Reach.{
  Step, Step-WellFormed, by_create, by_reset, by_delete, by_execute, by_mark,
}
use pgislet.Engine.Registry.Isolation.{
  Untouched, Untouched-trans, create-Untouched, mark-Untouched, reset-Kept, delete-Kept, run-Kept,
  fresh_other,
}

-- Since `before`, the row `r` of islet `j`, its schema and its role are what they were, in a
-- well-formed registry.
pub record Alone (j : String) (r : Row) (before db : Db) : Type 0 where
  pub fine : WellFormed db
  pub there : lookup j db.islets ≡ some r
  pub same : Untouched j r before db

module _ (j : String) (r : Row) (before : Db) where
  Alone-Step :
      (db db' : Db)
      → Alone j r before db
      → Step db db'
      → Untouched j r db db'
      → Alone j r before db'
  Alone-Step db db' a step u = record {
    fine = Step-WellFormed db db' step a.fine;
    there = u.row ∙ a.there;
    same = Untouched-trans a.same u;
  }

  created-other :
      {env : Env} {initialize : Bool} {db db' : Db} {result : Islet × Option Err}
      → lookup j db.islets ≡ some r
      → CreateOutcome env initialize db result db'
      → (result.1 ≡ none) ⊎ ((result.0.id == "") ≡ false)
      → (result.0.id == j) ≡ false
  created-other there (refused e q same) (inl fine) =
      cc (ap (λ (x : Islet × Option Err). x.1) q, fine)
  created-other there (refused e q same) (inr named) = cc (rw q at named)
  created-other {db = db} there (created id password token i p t free q how) why =
      rw q (fresh_other id j r db free.row there)

  -- A transaction for another islet, or a creation, leaves the islet alone.
  pub Alone-Closed : Closed (λ id. (id == j) ≡ false) (Alone j r before)
  unfolding to_metadata
  Alone-Closed = record {
    by_create = λ env initialize db a.
        Alone-Step db _ a (by_create env initialize)
          (create-Untouched a.fine a.there (create-CreateOutcome env initialize db));
    own = λ env initialize db a why.
        created-other a.there (create-CreateOutcome env initialize db) why;
    by_reset = λ env h initialize recovering db sticks other a.
        Alone-Step db _ a (by_reset env h initialize recovering sticks) (
          reset-Kept h j r db a.fine other a.there
            (reset-ResetOutcome env h initialize recovering db sticks));
    by_delete = λ env h db sticks other a.
        Alone-Step db _ a (by_delete env h sticks)
          (delete-Kept h j r db a.fine other a.there (delete-DeleteOutcome env h db sticks));
    by_execute = λ p m env id row ss initializing db other found a.
        Alone-Step db _ a (by_execute p m env (to_metadata id row) ss initializing) (
          run-Kept (to_metadata id row).islet j r db a.fine other a.there row found
            (execute-ExecuteOutcome p m env (to_metadata id row) ss initializing db));
    by_mark =
        λ now h db other a. Alone-Step db _ a (by_mark now h) (mark-Untouched now h j r db other);
  }
