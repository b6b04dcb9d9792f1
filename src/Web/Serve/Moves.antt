-- ===== src/Web/Serve/Moves.antt =====
-- What the requests of examples/web keep of the database: whatever each transaction keeps that works on
-- the islet of the request's own session, or on a new one.
use pgislet.Base.{
  String, ◌∷◌, [], true, false, ◌≡◌, refl, sym, Option, none, some, inl, inr, Bool-cases, ap,
}
use mathlib.Core.Path.{subst}
use pgislet.Errors.{Err, Result, ok, err, is, not_found}
use pgislet.Policy.Check.{Parser}
use pgislet.Engine.Types.{Islet, Db, to_metadata, is_initializing}
use pgislet.Engine.Lifecycle
use pgislet.Engine.Lifecycle.Early.{StaysAborted}
use pgislet.Engine.Lifecycle.Reset.{reset-ResetOutcome}
use pgislet.Engine.Execute.{Manager, execute_one}
use pgislet.Engine.Initialize.{open_islet}
use pgislet.Engine.Registry.Closed.{
  Closed, batch-keeps, reinitialized-keeps, created-keeps, created-own, reset-id, open_islet-found,
}
use pgislet.Web.Removal.{World, Removal, remove, remove_opened, and_delete, recover_first}
use pgislet.Web.Seed.{seed}
use pgislet.Web.Boundary.{Request, Library}
use pgislet.Web.Handlers.{Calls}
use pgislet.Web.Serve.{serve}
use pgislet.Web.Serve.Keeps.{Keeps, Admits}
use pgislet.Web.Serve.Keeps.Requests.{serve-keeps}

-- A failed ROLLBACK TO aborts what follows it, in each environment of a request.
pub record Sticks (c : Calls) : Type 0 where
  pub operation : StaysAborted c.env
  pub recovering : StaysAborted c.removal.recovering
  pub deleting : StaysAborted c.removal.deleting

module _ (Own : String → Type 0) (R : Db → Type 0) (closed : Closed Own R) where
  module _ (f : Removal) (recovering : StaysAborted f.recovering)
      (deleting : StaysAborted f.deleting) where
    and_delete-keeps :
        (o : (Islet × Option Err) × Db)
        → (o.0.1 ≡ none → Own o.0.0.id)
        → R o.1
        → R (and_delete f o).1
    and_delete-keeps ((h, some e), w) own r = r
    and_delete-keeps ((h, none), w) own r = closed.by_delete f.deleting h w deleting (own refl) r

    recover_first-keeps :
        (h : Islet) (db : Db) → Own h.id → R db → R (and_delete f (recover_first f h db)).1
    recover_first-keeps h db own r = elim (Bool-cases (is_initializing h.state)) [
      | inl s ↦ rw s (
          and_delete-keeps (Lifecycle.reset f.recovering h false true db)
            (λ fine.
              subst Own
                (sym (reset-id (reset-ResetOutcome f.recovering h false true db recovering) fine))
                own)
            (closed.by_reset f.recovering h false true db recovering own r))
      | inr s ↦ rw s (and_delete-keeps ((h, none), db) (λ fine. own) r)
    ]

    remove_opened-keeps :
        (id : String) (db : Db) (o : Result Islet)
        → open_islet f.opened id db ≡ o
        → Own id
        → R db
        → R (remove_opened f db o).1
    unfolding to_metadata
    remove_opened-keeps id db (ok h) o own r =
        let (row, found, same) = open_islet-found id f.opened db h o in
        recover_first-keeps h db (subst Own (sym (ap (λ (x : Islet). x.id) same)) own) r
    remove_opened-keeps id db (err e) o own r = elim (Bool-cases (is e not_found)) [
      | inl s ↦ rw s r
      | inr s ↦ rw s r
    ]

    pub remove-keeps : (id : String) (db : Db) → Own id → R db → R (remove f id db).1
    unfolding remove
    remove-keeps id db own r = remove_opened-keeps id db (open_islet f.opened id db) refl own r

  module _ (p : Parser) (m : Manager) (c : Calls) (sticks : Sticks c) where
    abbrev Stored : World → Type 0
    Stored w = R w.db

    pub closed-Keeps : Keeps p m c Own Stored Stored
    unfolding execute_one
    closed-Keeps = record {
      touched = λ key w r. r;
      removed =
          λ id w own r. remove-keeps c.removal sticks.recovering sticks.deleting id w.db own r;
      forgotten = λ key w r. r;
      executed = λ h s w own r. batch-keeps Own R closed p m c.env h (s ∷ []) w.db own r;
      rebuilt = λ h w own r. closed.by_reset c.env h false false w.db sticks.operation own r;
      reseeded = λ h w own r.
          reinitialized-keeps Own R closed p m c.later c.env h seed w.db sticks.operation own r;
      reserved = λ server w o r. created-keeps Own R closed p m c.later c.env seed w.db r;
      made = λ w r why. created-own Own R closed p m c.later c.env seed w.db r why;
      cleared =
          λ id w own r. remove-keeps c.removal sticks.recovering sticks.deleting id w.db own r;
      abandoned = λ w r. r;
      entered = λ item w own r. r;
    }

    -- A whole request keeps what the transactions for its session's islet keep.
    pub closed-keeps :
        (lib : Library) (q : Request) (w : World)
        → Admits Own q.cookie w
        → R w.db
        → R (serve lib p m c q w).1.db
    closed-keeps lib q w own r = serve-keeps p m c Own Stored Stored closed-Keeps lib q w own r
