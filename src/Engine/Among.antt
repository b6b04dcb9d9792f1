-- ===== src/Engine/Among.antt =====
-- `initialize` of internal/engine/lifecycle.go while other managers work on the same database between
-- its calls.
pub mod Settled
use pgislet.Base.{ℕ, String, true, false, not, Option, none, some, List, [], eqb, if◌then◌else◌}
use pgislet.Errors.{
  Err, Result, ok, err, sentinel, stale_generation, initialization, wrap, joined, present, nil,
  cons,
}
use pgislet.Policy.Check.{Parser}
use pgislet.Engine.Types.{Islet, Metadata, Db, active}
use pgislet.Engine.Exec.{Env, mark_failed, reopen}
use pgislet.Engine.Gateway.{lookup_islet}
use pgislet.Engine.Execute.{Manager, Outcome, check_size, execute}
use pgislet.Engine.Initialize.{updated, open_islet, current_or, error_of}

-- `meanwhile i` is what the others do to the database: 0 between the lookup and the statements, 1
-- before the mark of a failure, 2 before the islet is opened again.
module _ (env : Env) (h : Islet) (meanwhile : ℕ → Db → Db) where
  unfoldable pub abandon_among : Err → Db → (Islet × Option Err) × Db
  abandon_among e w =
      let w₁ = updated (env.fault mark_failed) env.now h (meanwhile 1 w) in
      let w₂ = meanwhile 2 w₁ in
      let opened = open_islet (env.fault reopen) h.id w₂ in
      let causes = cons e (present (env.fault mark_failed) (present (error_of opened) nil)) in
      ((current_or h opened, some (wrap initialization (joined causes))), w₂)

  abbrev pub after_statements_among : Option Err → Db → (Islet × Option Err) × Db
  after_statements_among (some e) w = abandon_among e w
  after_statements_among none w =
      let w₂ = meanwhile 2 w in
      let opened = open_islet (env.fault reopen) h.id w₂ in
      ((current_or (record h { state = active }) opened, error_of opened), w₂)

  module _ (p : Parser) (m : Manager) (statements : List String) where
    abbrev pub run_for_among : Db → Result Metadata → (Islet × Option Err) × Db
    run_for_among db (err e) = abandon_among e db
    run_for_among db (ok md) =
        if not (eqb md.generation h.generation)
        then abandon_among (sentinel stale_generation) db
        else (let (o, w) = execute p m env md statements true (meanwhile 0 db) in
            after_statements_among o.1 w)

    -- `m.initialize`.
    unfoldable pub initialize_among : Db → (Islet × Option Err) × Db
    unfolding abandon_among
    initialize_among db = run_for_among db (lookup_islet env h.id db)
