-- ===== src/Engine/Workspaces/Refines.antt =====
-- The transactions of internal/engine as moves of the workspaces.
use Prim.Native.String.{◌++◌ as ◌then◌}
use pgislet.Base.{
  ℕ, String, Bool, true, false, ◌≡◌, refl, sym, ◌∙◌, inl, inr, not, ◌&&◌, Option, none, some, List,
  arith, Option-cases, Bool-cases,
}
use pgislet.Base.Dict.{lookup, insert}
use pgislet.Errors.{Err}
use pgislet.Policy.Check.{Parser}
use pgislet.Engine.Types.{State, initializing, failed, is_initializing, Islet, Metadata, Row, Db}
use pgislet.Engine.Exec.{Env}
use pgislet.Engine.Gateway.{update_islet, may_enter}
use pgislet.Engine.Cleanup.{mark}
use pgislet.Engine.Lifecycle.{first_state, new_metadata}
use pgislet.Engine.Lifecycle.Early.{failed_db-eq, failed_db, kept, marked}
use pgislet.Engine.Lifecycle.Create.{
  CreateOutcome, refused, created, created_db, create-CreateOutcome,
}
use pgislet.Engine.Lifecycle.Reset.{ResetOutcome, early, rebuilt, rebuilt_db, reset-ResetOutcome}
use pgislet.Engine.Lifecycle.Delete.{
  DeleteOutcome, removed_db, being_initialized, delete-DeleteOutcome,
}
use pgislet.Engine.Lifecycle.Delete
use pgislet.Engine.Execute.{Manager, Outcome, entry_token}
use pgislet.Engine.Execute.Whole.{
  IsAdmitted-may_enter, ExecuteOutcome, activated, IsAdmitted, execute-ExecuteOutcome,
}
use pgislet.Engine.Execute.Whole
use pgislet.Engine.Execute.Runs.{appended}
use pgislet.Engine.Initialize.{mark_unfinished, is_fenced}
use pgislet.Engine.Registry.{WellFormed}
use pgislet.Engine.Registry.Reach.{Step, by_create, by_reset, by_delete, by_execute, by_mark}
use pgislet.Engine.Workspaces.Spec.{
  Command, creating, resetting, deleting, executing, abandoning, fresh, is_refused, may_run, Only,
  Holds, Moves, stays, creates, resets, fails_to_reset, deletes, fails_to_delete, executes,
  abandons,
}
use pgislet.Engine.Workspaces.Changes.{
  in_state, after, updated-Only, created-Only, rebuilt-Only, removed-Only, executed-Only,
}
use pgislet.Engine.Workspaces.View.{seen, view, view-found, view-absent, view-same, row-Only}

-- What a transaction of internal/engine is asked to do.
abbrev pub command : {db db' : Db} → Step db db' → Command
command (by_create env initialize) = creating (env.drawn 0) initialize
command (by_reset env h initialize recovering sticks) = resetting h initialize recovering
command (by_delete env h sticks) = deleting h
command (by_execute p m env md ss first) = executing md.id md.generation ss first
command (by_mark now h) = abandoning h

-- Metadata that was read from a registry names the schema of its islet.
abbrev pub IsRead : {db db' : Db} → Step db db' → Type 0
IsRead (by_create env initialize) = Unit
IsRead (by_reset env h initialize recovering sticks) = Unit
IsRead (by_delete env h sticks) = Unit
IsRead (by_execute p m env md ss first) = md.schema ≡ ("pgislet_i_" then md.id)
IsRead (by_mark now h) = Unit

first_state-fresh : (b : Bool) → first_state b ≡ fresh b
first_state-fresh true = refl
first_state-fresh false = refl

not_refused :
    (recovering : Bool) (s : State)
    → (is_initializing s && not recovering) ≡ false
    → is_refused recovering s ≡ false
not_refused true s h = refl
not_refused false State.unset h = refl
not_refused false State.active h = refl
not_refused false State.initializing h = cc
not_refused false State.failed h = refl
not_refused false State.deleting h = refl

not_waiting : (s : State) → is_initializing s ≡ false → is_refused false s ≡ false
not_waiting State.unset h = refl
not_waiting State.active h = refl
not_waiting State.initializing h = cc
not_waiting State.failed h = refl
not_waiting State.deleting h = refl

is_waiting : (s : State) → is_initializing s ≡ true → s ≡ initializing
is_waiting State.unset h = cc
is_waiting State.active h = cc
is_waiting State.initializing h = refl
is_waiting State.failed h = cc
is_waiting State.deleting h = cc

pub may_enter-may_run :
    (md : Metadata) (s : State) (t : Option String) (first : Bool)
    → may_enter s t (entry_token md first) ≡ true
    → may_run s first ≡ true
may_enter-may_run md State.active t false h = refl
may_enter-may_run md State.initializing (some t) true h = refl
may_enter-may_run md State.active t true h = cc
may_enter-may_run md State.unset t b h = cc
may_enter-may_run md State.failed t b h = cc
may_enter-may_run md State.deleting t b h = cc
may_enter-may_run md State.initializing none b h = cc
may_enter-may_run md State.initializing (some t) false h = cc

module _ (db : Db) (fine : WellFormed db) where
  holds :
      (id : String) (g : ℕ) (r : Row)
      → lookup id db.islets ≡ some r
      → r.generation ≡ g
      → Holds (view db) id g (seen db.schemas r)
  holds id g r found same = (view-found db id r found, same)

  create-Moves :
      {env : Env} {initialize : Bool} {db' : Db} {result : Islet × Option Err}
      → CreateOutcome env initialize db result db'
      → Moves (view db) (view db') (creating (env.drawn 0) initialize)
  create-Moves (refused e q same) = stays (view-same same)
  create-Moves (created id password token i p t free q (inr (lost, same))) = stays (view-same same)
  create-Moves {env} {initialize} {db'} (created id password token i p t free q (inl same)) =
      creates id i (view-absent db id free.row) (
        after db (created_db (new_metadata id password token (first_state initialize) env.now) db)
          db' same
          (in_state (first_state-fresh initialize)
            (created-Only db fine id password token (first_state initialize) env.now)))

  module _ (env : Env) (h : Islet) where
    -- The row of a current handle, marked as failed.
    failed-Only :
        (r : Row) (db' : Db)
        → lookup h.id db.islets ≡ some r
        → db' ≡ failed_db env h.id r db
        → Only h.id (some (record (seen db.schemas r) { state = failed })) (view db) (view db')
    failed-Only r db' found same =
        after db (update_islet h.id (mark env.now) db) db'
          (same ∙ sym (failed_db-eq env h.id r db found))
          (updated-Only h.id db r (mark env.now) refl found)

    reset-Moves :
        {initialize recovering : Bool} {db' : Db} {result : Islet × Option Err}
        → ResetOutcome env h initialize recovering db result db'
        → Moves (view db) (view db') (resetting h initialize recovering)
    reset-Moves (early e q (kept same)) = stays (view-same same)
    reset-Moves {recovering = recovering} {db' = db'} (early e q (marked r found gen idle l same)) =
        fails_to_reset (seen db.schemas r) (holds h.id h.generation r found gen)
          (not_refused recovering r.state idle) (failed-Only r db' found same)
    reset-Moves (rebuilt r token found gen idle d q (inr (lost, same))) = stays (view-same same)
    reset-Moves {initialize} {recovering} {db'} (rebuilt r token found gen idle d q (inl same)) =
        resets (seen db.schemas r) (holds h.id h.generation r found gen)
          (not_refused recovering r.state idle)
          (after db (rebuilt_db env h.id r initialize token db) db' same (
            in_state (first_state-fresh initialize)
              (rebuilt-Only db fine h.id env r initialize token found)))

    delete-Moves :
        {db' : Db} {result : Unit {0} × Option Err}
        → DeleteOutcome env h db result db'
        → Moves (view db) (view db') (deleting h)
    delete-Moves (Delete.early e q (kept same)) = stays (view-same same)
    delete-Moves {db' = db'} (Delete.early e q (marked r found gen idle l same)) =
        fails_to_delete (seen db.schemas r) (holds h.id h.generation r found gen)
          (not_waiting r.state idle) (failed-Only r db' found same)
    delete-Moves (Delete.gone q same why) = stays (view-same same)
    delete-Moves (Delete.deleted r found gen idle q (inr (lost, same))) = stays (view-same same)
    delete-Moves {db' = db'} (Delete.deleted r found gen idle q (inl same)) =
        deletes (seen db.schemas r) (holds h.id h.generation r found gen) (not_waiting r.state idle)
          (after db (removed_db h.id r db) db' same (removed-Only db fine h.id r found))

  execute-Moves :
      {p : Parser} {m : Manager} {env : Env} {md : Metadata} {ss : List String} {first : Bool}
      {db' : Db} {result : Outcome}
      → md.schema ≡ ("pgislet_i_" then md.id)
      → ExecuteOutcome p m env md ss first db result db'
      → Moves (view db) (view db') (executing md.id md.generation ss first)
  execute-Moves read (Whole.failed e q same) = stays (view-same same)
  execute-Moves read (Whole.done a runs c (inr (lost, same))) = stays (view-same same)
  execute-Moves {env = env} {md = md} {ss = ss} {first = first} {db' = db'} read
        (Whole.done a runs c (inl same)) =
      let may = may_enter-may_run md a.row.state a.row.init_token first (IsAdmitted-may_enter a) in
      executes (seen db.schemas a.row) (holds md.id md.generation a.row a.found a.generation) may (
        after db (activated env md first (appended md.schema ss db)) db' same (
          executed-Only db fine md.id env md a.row ss refl a.found
            (read ∙ sym (fine.backed md.id a.row a.found).schema_name) first may))

  mark-Moves :
      (now : ℕ) (h : Islet) → Moves (view db) (view (mark_unfinished now h db)) (abandoning h)
  unfolding mark_unfinished
  mark-Moves now h = elim (Option-cases (lookup h.id db.islets)) [
    | inl n ↦
        stays (view-same {db = db} {db' = mark_unfinished now h db} (rw (n, mark_unfinished) refl))
    | inr (r, s) ↦ elim (Bool-cases (is_fenced h r)) [
      | inr out ↦
          stays (
            view-same {db = db} {db' = mark_unfinished now h db}
              (rw (s, mark_unfinished, out) refl))
      | inl within ↦
          abandons (seen db.schemas r) (holds h.id h.generation r s (ground (arith, within)))
            (is_waiting r.state (ground (arith, within)))
            (after db (record db { islets = insert h.id (mark now r) db.islets })
              (mark_unfinished now h db) (rw (s, mark_unfinished, within) refl)
              (row-Only h.id db r (mark now r) refl))
    ]
  ]

-- Every transaction of the package is a move of its workspaces, whatever calls fail: a creation, with a
-- name that was drawn and free; or, under a handle of the workspace's own generation only, a reset to
-- the next generation and an empty content, a deletion, the statements appended that were run in an
-- active workspace or in one that waited for them, and failures that leave the content; or it changes
-- none. Each changes the one workspace that it is about. The registry is well-formed, and the metadata
-- of an execution has the schema of its islet.
pub Step-Moves :
    (db db' : Db) (s : Step db db')
    → WellFormed db
    → IsRead s
    → Moves (view db) (view db') (command s)
Step-Moves db db' (by_create env initialize) fine read =
    create-Moves db fine (create-CreateOutcome env initialize db)
Step-Moves db db' (by_reset env h initialize recovering sticks) fine read =
    reset-Moves db fine env h (reset-ResetOutcome env h initialize recovering db sticks)
Step-Moves db db' (by_delete env h sticks) fine read =
    delete-Moves db fine env h (delete-DeleteOutcome env h db sticks)
Step-Moves db db' (by_execute p m env md ss first) fine read =
    execute-Moves db fine read (execute-ExecuteOutcome p m env md ss first db)
Step-Moves db db' (by_mark now h) fine read = mark-Moves db fine now h
