-- ===== src/Web/Stages/Owned.antt =====
-- What a step of a request of examples/web keeps: the islets of the sessions, and the one that the
-- request has in hand, are `Own`, and the database is as a predicate says that the transactions for
-- such islets keep.
use pgislet.Base.{
  ◌⊎◌, String, true, false, ◌≡◌, refl, sym, Option, none, some, inl, inr, Bool-cases, ◌==◌, ap,
}
use mathlib.Core.Path.{subst}
use pgislet.Errors.{Err, Result, ok, err}
use pgislet.Policy.Check.{Parser}
use pgislet.Engine.Types.{Islet, Db, to_metadata}
use pgislet.Engine.Lifecycle
use pgislet.Engine.Execute.{Manager, execute_one}
use pgislet.Engine.Initialize.{open_islet, reinitialize}
use pgislet.Engine.Registry.Closed.{Closed, open_islet-found, created-own, created-keeps}
use pgislet.Web.Sessions.{Session, Server, reserve}
use pgislet.Web.Sessions.Owned.{touch-own, reserve-AllOwn, store-AllOwn}
use pgislet.Web.Removal.{World}
use pgislet.Web.Boundary.{Request, Library}
use pgislet.Web.Seed.{seed, schema_query}
use pgislet.Web.Handlers.{Calls, has_live_cookie}
use pgislet.Web.Serve.Keeps.{Keeps}
use pgislet.Web.Serve.Keeps.Requests.{query_result-keeps, change_result-keeps, schema_result-keeps}
use pgislet.Web.Serve.Moves.{Sticks}
use pgislet.Web.Serve.Owned.{Held, Held-Keeps}
use pgislet.Web.Stages.Begins.{begin_cases}
use pgislet.Web.Removal.Steps.{
  Removing, finding, recovering, deleting, removed, removal_step, proceed, RemovingOwn,
  removal_step-keeps,
}
use pgislet.Web.Stages.{
  dropping, undone_stage, removing_by, Work, showing, ending, querying, changing, describing,
  Progress, testing, entering, opening, working, forgetting, reserving, creating, undoing, storing,
  abandoning, releasing, answered, begin, found_stage, opened_stage, created_stage, slot_stage,
  ended_stage, entered_by, work_stage, step,
}

-- The islet that the request has in hand at this stage, if any, is `Own`.
abbrev pub ProgressOwn : (String → Type 0) → Progress → Type 0
ProgressOwn Own (opening k key item) = Own item.id
ProgressOwn Own (working k key h) = Own h.id
ProgressOwn Own (dropping key r) = RemovingOwn Own r
ProgressOwn Own (undoing e r) = RemovingOwn Own r
ProgressOwn Own (storing h) = Own h.id
ProgressOwn Own testing = Unit
ProgressOwn Own (entering k) = Unit
ProgressOwn Own (forgetting key) = Unit
ProgressOwn Own reserving = Unit
ProgressOwn Own creating = Unit
ProgressOwn Own (abandoning response) = Unit
ProgressOwn Own (releasing response) = Unit
ProgressOwn Own (answered response) = Unit

module _ (Own : String → Type 0) (R : Db → Type 0) (closed : Closed Own R) (lib : Library)
    (p : Parser) (m : Manager) (c : Calls) (q : Request) (sticks : Sticks c) where
  abbrev OwnedProgress : Progress × World → Type 0
  OwnedProgress (s, w) = Held Own R w × ProgressOwn Own s

  kept : Keeps p m c Own (Held Own R) (Held Own R)
  kept = Held-Keeps Own R closed p m c sticks

  pub begin-own : ProgressOwn Own (begin lib p m c q)
  begin-own = begin_cases lib p m c q (ProgressOwn Own) tt (λ k. tt) (λ response. tt)

  found_stage-own :
      (k : Work) (key : String) (o : Option Session)
      → ((item : Session) → o ≡ some item → Own item.id)
      → ProgressOwn Own (found_stage lib p m c q k key o)
  found_stage-own k key none own = tt
  found_stage-own k key (some item) own = own item refl

  entered_by-keeps :
      (k : Work) (cookie : Option String) (w : World)
      → Held Own R w
      → OwnedProgress (entered_by lib p m c q k cookie w)
  entered_by-keeps k none w r = (r, tt)
  entered_by-keeps k (some key) w r = (
    kept.touched key w r,
    found_stage-own k key _ (λ item e. touch-own Own c.now key w.server item e r.owned),
  )

  opened_stage-own :
      (k : Work) (key id : String) (db : Db) (o : Result Islet)
      → open_islet c.opened id db ≡ o
      → Own id
      → ProgressOwn Own (opened_stage lib p m c q k key o)
  unfolding to_metadata
  opened_stage-own k key id db (err e) same own = tt
  opened_stage-own k key id db (ok h) same own =
      let (row, there, islet) = open_islet-found id c.opened db h same in
      subst Own (sym (ap (λ (x : Islet). x.id) islet)) own

  proceed-own :
      (next : Option Err → Progress) (again : Removing → Progress)
      → ((o : Option Err) → ProgressOwn Own (next o))
      → ((r : Removing) → RemovingOwn Own r → ProgressOwn Own (again r))
      → (r : Removing) → RemovingOwn Own r
      → ProgressOwn Own (proceed next again r)
  proceed-own next again nexts agains (finding id) own = agains (finding id) own
  proceed-own next again nexts agains (recovering h) own = agains (recovering h) own
  proceed-own next again nexts agains (deleting h) own = agains (deleting h) own
  proceed-own next again nexts agains (removed o) own = nexts o

  removing_by-keeps :
      (next : Option Err → Progress) (again : Removing → Progress)
      → ((o : Option Err) → ProgressOwn Own (next o))
      → ((r : Removing) → RemovingOwn Own r → ProgressOwn Own (again r))
      → (r : Removing) (w : World) → RemovingOwn Own r
      → Held Own R w
      → OwnedProgress (removing_by lib p m c q next again r w)
  removing_by-keeps next again nexts agains r w own held =
      let (stored, still) =
        removal_step-keeps Own R closed c.removal sticks.recovering sticks.deleting r w.db own
          held.stored in
      (
        record { stored = stored; owned = held.owned },
        proceed-own next again nexts agains (removal_step c.removal r w.db).0 still,
      )

  ended_stage-own :
      (key : String) (o : Option Err) → ProgressOwn Own (ended_stage lib p m c q key o)
  ended_stage-own key none = tt
  ended_stage-own key (some e) = tt

  dropping-keeps :
      (key : String) (r : Removing) (w : World)
      → RemovingOwn Own r
      → Held Own R w
      → OwnedProgress (removing_by lib p m c q (ended_stage lib p m c q key) (dropping key) r w)
  dropping-keeps key r w own held =
      removing_by-keeps (ended_stage lib p m c q key) (dropping key) (ended_stage-own key)
        (λ r own. own) r w own held

  work_stage-keeps :
      (k : Work) (key : String) (h : Islet) (w : World)
      → Own h.id
      → Held Own R w
      → OwnedProgress (work_stage lib p m c q k key h w)
  work_stage-keeps showing key h w own r = (r, tt)
  work_stage-keeps ending key h w own r = dropping-keeps key (finding h.id) w own r
  work_stage-keeps (querying s) key h w own r = (
    query_result-keeps p m c Own (Held Own R) (Held Own R) kept lib w
        (execute_one p m c.env h s w.db) (kept.executed h s w own r),
    tt,
  )
  work_stage-keeps (changing true) key h w own r = (
    change_result-keeps p m c Own (Held Own R) (Held Own R) kept lib w
        (reinitialize p m c.env c.later seed h w.db) (kept.reseeded h w own r),
    tt,
  )
  work_stage-keeps (changing false) key h w own r = (
    change_result-keeps p m c Own (Held Own R) (Held Own R) kept lib w
        (Lifecycle.reset c.env h false false w.db) (kept.rebuilt h w own r),
    tt,
  )
  work_stage-keeps describing key h w own r = (
    schema_result-keeps p m c Own (Held Own R) (Held Own R) kept lib h w
        (execute_one p m c.env h schema_query w.db) (kept.executed h schema_query w own r),
    tt,
  )

  slot_stage-keeps :
      (w : World) (o : Option Server)
      → reserve w.server ≡ o
      → Held Own R w
      → OwnedProgress (slot_stage lib p m c q w o)
  slot_stage-keeps w none o r = (r, tt)
  slot_stage-keeps w (some server) o r =
      (record { stored = r.stored; owned = reserve-AllOwn Own w.server server o r.owned }, tt)

  created_stage-keeps :
      (w : World) (o : (Islet × Option Err) × Db)
      → ((o.0.1 ≡ none) ⊎ ((o.0.0.id == "") ≡ false) → Own o.0.0.id)
      → Held Own R (record w { db = o.1 })
      → OwnedProgress (created_stage lib p m c q w o)
  created_stage-keeps w ((h, none), db) own r = (r, own (inl refl))
  created_stage-keeps w ((h, some e), db) own r = elim (Bool-cases (h.id == "")) [
    | inl n ↦ rw n (r, tt)
    | inr n ↦ rw n (r, own (inr n))
  ]

  pub step-keeps :
      (s : Progress) (w : World)
      → ProgressOwn Own s
      → Held Own R w
      → OwnedProgress (step lib p m c q s w)
  unfolding step
  step-keeps testing w own r = elim (Bool-cases (has_live_cookie c p m q.cookie w.server)) [
    | inl s ↦ rw s (r, tt)
    | inr s ↦ rw s (r, tt)
  ]
  step-keeps (entering k) w own r = entered_by-keeps k q.cookie w r
  step-keeps (opening k key item) w own r = (r, opened_stage-own k key item.id w.db _ refl own)
  step-keeps (working k key h) w own r = work_stage-keeps k key h w own r
  step-keeps (forgetting key) w own r = (kept.forgotten key w r, tt)
  step-keeps reserving w own r = slot_stage-keeps w (reserve w.server) refl r
  step-keeps creating w own r =
      created_stage-keeps w _ (created-own Own R closed p m c.later c.env seed w.db r.stored)
        (record {
          stored = created-keeps Own R closed p m c.later c.env seed w.db r.stored;
          owned = r.owned;
        })
  step-keeps (dropping key s) w own r = dropping-keeps key s w own r
  step-keeps (undoing e s) w own r =
      removing_by-keeps (undone_stage lib p m c q e) (undoing e) (λ o. tt) (λ s own. own) s w own r
  step-keeps (storing h) w own r =
      (record { stored = r.stored; owned = store-AllOwn Own c.token _ w.server own r.owned }, tt)
  step-keeps (abandoning response) w own r = (kept.abandoned w r, tt)
  step-keeps (releasing response) w own r = (kept.abandoned w r, tt)
  step-keeps (answered response) w own r = (r, tt)
