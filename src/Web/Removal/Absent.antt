-- ===== src/Web/Removal/Absent.antt =====
-- Names without an islet while `remove` of examples/web/sessions.go works on another.
use pgislet.Base.{String, Bool, true, false, ◌≡◌, ◌∙◌, inl, inr, Option, none, some, Bool-cases}
use pgislet.Base.Dict.{Dict, lookup, insert, erase}
use pgislet.Errors.{Result, Err, is, not_found, ok, err}
use pgislet.Engine.Types.{Islet, Row, Db, is_initializing}
use pgislet.Engine.Exec.{Env}
use pgislet.Engine.Lifecycle.Early.{Early, kept, marked}
use pgislet.Engine.Lifecycle.Reset.{ResetOutcome, early, rebuilt, reset-ResetOutcome}
use pgislet.Engine.Lifecycle.Delete
use pgislet.Engine.Lifecycle.Delete.{DeleteOutcome, delete-DeleteOutcome}
use pgislet.Engine.Initialize.{open_islet}
use pgislet.Engine.Registry.{at_other, erased_same, erased_other, key_cases}
use pgislet.Web.Removal.{Removal, remove, remove_opened, and_delete, recover_first}
use pgislet.Web.Removal.Gone.{Answers}

module _ {V : Type 0} (j k : String) (m : Dict V) where
  insert_absent :
      (u v : V) → lookup k m ≡ some u → lookup j m ≡ none → lookup j (insert k v m) ≡ none
  insert_absent u v found n = elim (key_cases k j) [
    | inl e ↦ cc (found, n, e)
    | inr d ↦ at_other k j v m d ∙ n
  ]

  erase_absent : lookup j m ≡ none → lookup j (erase k m) ≡ none
  erase_absent n = elim (key_cases k j) [
    | inl e ↦ erased_same k j m e
    | inr d ↦ erased_other k j m d ∙ n
  ]

module _ (j : String) where
  Early-absent :
      {env : Env} {h : Islet} {blocked : Row → Bool} {db db' : Db} {e : Err}
      → Early env h blocked db e db'
      → lookup j db.islets ≡ none
      → lookup j db'.islets ≡ none
  Early-absent (kept same) n = rw same n
  Early-absent {env} {h} {blocked} {db} (marked o found gen unblocked l same) n =
      rw same (insert_absent j h.id db.islets o _ found n)

  reset-absent :
      {env : Env} {h : Islet} {recovering : Bool} {db db' : Db} {result : Islet × Option Err}
      → ResetOutcome env h false recovering db result db'
      → lookup j db.islets ≡ none
      → lookup j db'.islets ≡ none
  reset-absent (early e r o) n = Early-absent o n
  reset-absent (rebuilt r token found g i d res (inr (lost, same))) n = rw same n
  reset-absent {h = h} {db = db} (rebuilt r token found g i d res (inl same)) n =
      rw same (insert_absent j h.id db.islets r _ found n)

  delete-absent :
      {env : Env} {h : Islet} {db db' : Db} {result : Unit {0} × Option Err}
      → DeleteOutcome env h db result db'
      → lookup j db.islets ≡ none
      → lookup j db'.islets ≡ none
  delete-absent (Delete.early e r o) n = Early-absent o n
  delete-absent (Delete.gone r same why) n = rw same n
  delete-absent (Delete.deleted r found g i res (inr (lost, same))) n = rw same n
  delete-absent {h = h} {db = db} (Delete.deleted r found g i res (inl same)) n =
      rw same (erase_absent j h.id db.islets n)

  module _ (f : Removal) (a : Answers f) where
    recover_first-absent :
        (h : Islet) (db : Db)
        → lookup j db.islets ≡ none
        → lookup j (recover_first f h db).1.islets ≡ none
    recover_first-absent h db n = elim (Bool-cases (is_initializing h.state)) [
      | inl i ↦ rw i (reset-absent (reset-ResetOutcome f.recovering h false true db a.recovering) n)
      | inr k ↦ rw k n
    ]

    and_delete-absent :
        (r : (Islet × Option Err) × Db)
        → lookup j r.1.islets ≡ none
        → lookup j (and_delete f r).1.islets ≡ none
    and_delete-absent ((h, some e), w) n = n
    and_delete-absent ((h, none), w) n =
        delete-absent (delete-DeleteOutcome f.deleting h w a.deleting) n

    opened-absent :
        (db : Db) (o : Result Islet)
        → lookup j db.islets ≡ none
        → lookup j (remove_opened f db o).1.islets ≡ none
    opened-absent db (ok h) n =
        and_delete-absent (recover_first f h db) (recover_first-absent h db n)
    opened-absent db (err e) n = elim (Bool-cases (is e not_found)) [
      | inl i ↦ rw i n
      | inr k ↦ rw k n
    ]

    -- A name without an islet stays without one.
    pub remove-absent :
        (id : String) (db : Db)
        → lookup j db.islets ≡ none
        → lookup j (remove f id db).1.islets ≡ none
    unfolding remove
    remove-absent id db n = opened-absent db (open_islet f.opened id db) n
