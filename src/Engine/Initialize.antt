-- ===== src/Engine/Initialize.antt =====
-- internal/engine/lifecycle.go: `initialize`, `CreateWithInitialization` and `Reinitialize`, and
-- `Open` of manager.go. Each is a sequence of transactions, with nothing between them; Engine/Among
-- has what other managers do meanwhile.
pub mod Fence
use pgislet.Base.{
  ℕ, String, Bool, true, false, not, ◌&&◌, Option, none, some, List, [], eqb, if◌then◌else◌,
}
use pgislet.Base.Dict.{lookup, insert}
use pgislet.Errors.{
  Err, Result, ok, err, sentinel, stale_generation, initialization, wrap, joined, present, nil,
  cons,
}
use pgislet.Policy.Check.{Parser}
use pgislet.Engine.Types.{Islet, no_islet, Metadata, Row, Db, active, is_initializing}
use pgislet.Engine.Exec.{Env, Call, mark_failed, reopen}
use pgislet.Engine.Gateway.{read_metadata, lookup_islet}
use pgislet.Engine.Cleanup.{mark}
use pgislet.Engine.Lifecycle.{create, reset}
use pgislet.Engine.Execute.{Manager, Outcome, check_size, execute}

-- `AND generation=$2 AND state='initializing'`.
abbrev pub is_fenced : Islet → Row → Bool
is_fenced h r = eqb r.generation h.generation && is_initializing r.state

-- The UPDATE of `initialize`.
unfoldable pub mark_unfinished : ℕ → Islet → Db → Db
mark_unfinished now h w = elim (lookup h.id w.islets) [
  | none ↦ w
  | some r ↦ if is_fenced h r then record w { islets = insert h.id (mark now r) w.islets } else w
]

abbrev pub updated : Option Err → ℕ → Islet → Db → Db
updated none now h w = mark_unfinished now h w
updated (some e) now h w = w

-- `m.Open`, with the error of its call.
unfoldable pub open_islet : Option Err → String → Db → Result Islet
open_islet fault id w = elim (read_metadata fault id w) [ err e ↦ err e | ok md ↦ ok md.islet ]

-- `if openErr == nil { h = current }`, and the error of the opening.
abbrev pub current_or : Islet → Result Islet → Islet
current_or h (ok current) = current
current_or h (err e) = h

abbrev pub error_of : Result Islet → Option Err
error_of (ok current) = none
error_of (err e) = some e

-- The branch of `initialize` for an error.
unfoldable pub abandon : Env → Islet → Err → Db → (Islet × Option Err) × Db
abandon env h e w =
    let w' = updated (env.fault mark_failed) env.now h w in
    let opened = open_islet (env.fault reopen) h.id w' in
    let causes = cons e (present (env.fault mark_failed) (present (error_of opened) nil)) in
    ((current_or h opened, some (wrap initialization (joined causes))), w')

-- The end of `initialize` behind its statements.
abbrev pub after_statements : Env → Islet → Option Err → Db → (Islet × Option Err) × Db
after_statements env h (some e) w = abandon env h e w
after_statements env h none w =
    let opened = open_islet (env.fault reopen) h.id w in
    ((current_or (record h { state = active }) opened, error_of opened), w)

module _ (p : Parser) (m : Manager) (env : Env) (h : Islet) (statements : List String) where
  abbrev pub run_for : Db → Result Metadata → (Islet × Option Err) × Db
  run_for db (err e) = abandon env h e db
  run_for db (ok md) =
      if not (eqb md.generation h.generation)
      then abandon env h (sentinel stale_generation) db
      else (let (o, w) = execute p m env md statements true db in after_statements env h o.1 w)

  -- `m.initialize`.
  unfoldable pub initialize : Db → (Islet × Option Err) × Db
  unfolding abandon
  initialize db = run_for db (lookup_islet env h.id db)

module _ (p : Parser) (m : Manager) (env : Env) (statements : List String) where
  abbrev pub and_initialize : (Islet × Option Err) × Db → (Islet × Option Err) × Db
  and_initialize ((h, some e), w) = ((h, some e), w)
  and_initialize ((h, none), w) = initialize p m env h statements w

-- The two operations are two transactions of the manager: that of `create` or `reset`, which meets
-- `first`, and behind its commit the calls of `initialize`, which meet `env`.
module _ (p : Parser) (m : Manager) (first env : Env) (statements : List String) where
  -- `m.CreateWithInitialization`.
  unfoldable pub create_with_initialization : Db → (Islet × Option Err) × Db
  unfolding initialize
  create_with_initialization db = elim (check_size m.config statements) [
    | err e ↦ ((no_islet, some e), db)
    | ok _ ↦ and_initialize p m env statements (create first true db)
  ]

  -- `m.Reinitialize`.
  unfoldable pub reinitialize : Islet → Db → (Islet × Option Err) × Db
  unfolding initialize
  reinitialize h db = elim (check_size m.config statements) [
    | err e ↦ ((h, some e), db)
    | ok _ ↦ and_initialize p m env statements (reset first h true false db)
  ]
