-- ===== src/Web/Removal/Gone.antt =====
-- What `remove` of examples/web/sessions.go does to the islet of a session.
use pgislet.Base.{
  String, true, false, ◌≡◌, refl, sym, ◌∙◌, inl, inr, Option, none, some, Bool-cases, ap,
}
use pgislet.Base.Dict.{lookup}
use pgislet.Errors.{Result, Err, is, not_found, ok, err, Result-cases}
use pgislet.Errors.Classify.{TellsMissing}
use mathlib.Core.Path.{subst}
use pgislet.Engine.Types.{Islet, Db, to_metadata, is_initializing}
use pgislet.Engine.Exec.{Env, lock_row}
use pgislet.Engine.Gateway.{read_metadata}
use pgislet.Engine.Lifecycle.Early.{
  metadata_refused, read_error-TellsMissing, StaysAborted, commit_result-none,
}
use pgislet.Engine.Lifecycle.Reset.{reset-ResetOutcome}
use pgislet.Engine.Lifecycle.Delete
use pgislet.Engine.Lifecycle.Delete.{DeleteOutcome, delete-DeleteOutcome, removed_db}
use pgislet.Engine.Initialize.{open_islet}
use pgislet.Engine.Registry.{erased_same}
use pgislet.Engine.Registry.Closed.{open_islet-found, reset-id}
use pgislet.Web.Removal.{Removal, remove, remove_opened, and_delete, recover_first}

-- The two reads of the row do not call it missing by an error of their own; any call may fail.
pub record Answers (f : Removal) : Type 0 where
  pub opened : (e : Err) → f.opened ≡ some e → ¬ TellsMissing e
  pub locked : (e : Err) → f.deleting.fault lock_row ≡ some e → ¬ TellsMissing e
  pub recovering : StaysAborted f.recovering
  pub deleting : StaysAborted f.deleting

deleted-gone :
    {env : Env} {h : Islet} {db db' : Db} {result : Unit {0} × Option Err}
    → ((e : Err) → env.fault lock_row ≡ some e → ¬ TellsMissing e)
    → DeleteOutcome env h db result db'
    → result.1 ≡ none
    → lookup h.id db'.islets ≡ none
deleted-gone locked (Delete.early e r a) fine = cc (ap (λ (x : Unit {0} × Option Err). x.1) r, fine)
deleted-gone locked (Delete.gone r same (inl n)) fine = rw same n
deleted-gone locked (Delete.gone r same (inr (e, failed, missing))) fine =
    elim (locked e failed missing) [ ]
deleted-gone {env} locked (Delete.deleted r found g i res (inr (lost, same))) fine =
    elim (lost (
      commit_result-none env.at_commit
        (cc (ap (λ (x : Unit {0} × Option Err). x.1) res, fine)))) [ ]
deleted-gone {h = h} {db = db} locked (Delete.deleted r found g i res (inl same)) fine =
    rw same (erased_same h.id h.id db.islets refl)

-- Only a missing row makes `Open` answer that there is none.
open_islet-missing :
    (id : String) (fault : Option Err) (db : Db) (e : Err)
    → ((d : Err) → fault ≡ some d → ¬ TellsMissing d)
    → open_islet fault id db ≡ err e
    → is e not_found ≡ true
    → lookup id db.islets ≡ none
unfolding open_islet
open_islet-missing id fault db e others q i = elim (Result-cases (read_metadata fault id db)) [
  | inl (md, s) ↦ cc (rw (s, open_islet) at q)
  | inr (d, s) ↦ elim (metadata_refused fault id db d s) [
    | inl n ↦ n
    | inr (c, w, same) ↦
        (let e-d : d ≡ e = cc (rw (s, open_islet) at q) in
          elim (others c w (
            read_error-TellsMissing c (subst (λ x. is x not_found ≡ true) (sym e-d ∙ same) i))) [ ])
  ]
]

module _ (f : Removal) (a : Answers f) where
  recover_first-id :
      (h : Islet) (db : Db)
      → (recover_first f h db).0.1 ≡ none
      → (recover_first f h db).0.0.id ≡ h.id
  recover_first-id h db fine = elim (Bool-cases (is_initializing h.state)) [
    | inl i ↦
        rw i
          (reset-id (reset-ResetOutcome f.recovering h false true db a.recovering) (rw i at fine))
    | inr n ↦ rw n refl
  ]

  and_delete-gone :
      (id : String) (r : (Islet × Option Err) × Db)
      → (r.0.1 ≡ none → r.0.0.id ≡ id)
      → (and_delete f r).0 ≡ none
      → lookup id (and_delete f r).1.islets ≡ none
  and_delete-gone id ((h, some e), w) same fine = cc fine
  and_delete-gone id ((h, none), w) same fine =
      rw (sym (same refl))
        (deleted-gone a.locked (delete-DeleteOutcome f.deleting h w a.deleting) fine)

  opened-gone :
      (id : String) (db : Db) (o : Result Islet)
      → open_islet f.opened id db ≡ o
      → (remove_opened f db o).0 ≡ none
      → lookup id (remove_opened f db o).1.islets ≡ none
  unfolding to_metadata
  opened-gone id db (ok h) o fine =
      let (r, found, same) = open_islet-found id f.opened db h o in
      and_delete-gone id (recover_first f h db)
        (λ e. recover_first-id h db e ∙ ap (λ (x : Islet). x.id) same) fine
  opened-gone id db (err e) o fine = elim (Bool-cases (is e not_found)) [
    | inl i ↦ rw i (open_islet-missing id f.opened db e a.opened o i)
    | inr n ↦ cc (rw n at fine)
  ]

  -- A removal that returns no error leaves no islet of that name, whether the islet was active,
  -- left initializing or gone before. Any call may fail, but the two reads of the row do not answer by an
  -- error that it is missing, and a transaction stays aborted whose ROLLBACK TO has failed.
  pub remove-gone :
      (id : String) (db : Db)
      → (remove f id db).0 ≡ none
      → lookup id (remove f id db).1.islets ≡ none
  unfolding remove
  remove-gone id db fine = opened-gone id db (open_islet f.opened id db) refl fine
