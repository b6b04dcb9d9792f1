-- ===== src/Engine/Execute/Fresh.antt =====
-- `Batch` of internal/engine/execute.go: the handle's generation against the row's.
use pgislet.Base.{String, false, not, eqb, ◌≡◌, refl, sym, inl, inr, some, List, [], Bool-cases}
use pgislet.Base.Dict.{lookup}
use pgislet.Errors.{Err, Result, ok, err, Result-cases}
use pgislet.Policy.Check.{Parser}
use pgislet.Engine.Types.{Islet, Metadata, Row, Db, to_metadata}
use pgislet.Engine.Exec.{Env, select_row}
use pgislet.Engine.Gateway.{lookup_islet}
use pgislet.Engine.Lifecycle.Early.{metadata_found, same_generation}
use pgislet.Engine.Execute.{Manager, Outcome, check_size, batch, after_lookup, execute}
use pgislet.Engine.Execute.Whole.{ExecuteOutcome, execute-ExecuteOutcome}

pub data BatchOutcome (p : Parser) (m : Manager) (env : Env) (h : Islet) (ss : List String)
    (db : Db) (result : Outcome) (db' : Db) : Type 0 where
  refused : (e : Err) → result ≡ ([], some e) → db' ≡ db → BatchOutcome p m env h ss db result db'
  executed :
      (r : Row)
      → lookup h.id db.islets ≡ some r
      → r.generation ≡ h.generation
      → check_size m.config ss ≡ ok tt
      → ExecuteOutcome p m env (to_metadata h.id r) ss false db result db'
      → BatchOutcome p m env h ss db result db'

module _ (p : Parser) (m : Manager) (env : Env) (h : Islet) (ss : List String) (db : Db) where
  abbrev Ends : Outcome × Db → Type 0
  Ends o = BatchOutcome p m env h ss db o.0 o.1

  looked_up :
      check_size m.config ss ≡ ok tt
      → (found : Result Metadata) → lookup_islet env h.id db ≡ found
      → Ends (after_lookup p m env h ss db found)
  unfolding lookup_islet
  looked_up size (err e) q = refused e refl refl
  looked_up size (ok md) q = elim (Bool-cases (not (eqb md.generation h.generation))) [
    | inl stale ↦ rw stale (refused _ refl refl)
    | inr fresh ↦
        (let (r, found, same) = metadata_found (env.fault select_row) h.id db md q in
          let run : ExecuteOutcome p m env (to_metadata h.id r) ss false db
              (execute p m env md ss false db).0 (execute p m env md ss false db).1 =
            rw (sym same) (execute-ExecuteOutcome p m env md ss false db) in
          rw fresh (executed r found (same_generation h r md same fresh) size run))
  ]

  -- A batch returns an error, without results and with no effect; or its handle is of the generation
  -- of its row, its statements are within the size limits, and it ends as `execute` does for the
  -- metadata of that row.
  pub batch-BatchOutcome :
      BatchOutcome p m env h ss db (batch p m env h ss db).0 (batch p m env h ss db).1
  unfolding batch
  batch-BatchOutcome = elim (Result-cases (check_size m.config ss)) [
    | inr (e, q) ↦ rw q (refused e refl refl)
    | inl (_, q) ↦ rw q (looked_up q (lookup_islet env h.id db) refl)
  ]
