-- ===== src/Web/Stages/Sections.antt =====
-- The steps of a request of examples/web as sections of Web/Sessions/Capacity, with the slot that the
-- request holds.
use pgislet.Base.{
  ℕ, suc, String, Bool, true, false, ◌≡◌, refl, Option, none, some, inl, inr, Bool-cases, ◌==◌,
}
use pgislet.Errors.{Err}
use pgislet.Policy.Check.{Parser}
use pgislet.Engine.Types.{Islet, Db}
use pgislet.Engine.Execute.{Manager, execute_one}
use pgislet.Engine.Initialize.{reinitialize}
use pgislet.Engine.Lifecycle
use pgislet.Web.Sessions.{Session, Server, reserve, touch}
use pgislet.Web.Sessions.Capacity.{Run, touched, reserved, entered, abandoned, released, forgotten}
use pgislet.Web.Removal.{World}
use pgislet.Web.Boundary.{Request, Library}
use pgislet.Web.Seed.{seed, schema_query}
use pgislet.Web.Handlers.{Calls, has_live_cookie}
use pgislet.Web.Serve.Keeps.{Keeps}
use pgislet.Web.Serve.Keeps.Requests.{query_result-keeps, change_result-keeps, schema_result-keeps}
use pgislet.Web.Serve.Sections.{sections-Keeps}
use pgislet.Errors.{Result, ok, err}
use pgislet.Web.Stages.Begins.{begin_cases}
use pgislet.Web.Removal.Steps.{
  Removing, finding, recovering, deleting, removed, removal_step, proceed,
}
use pgislet.Web.Stages.{
  dropping, undone_stage, Work, showing, ending, querying, changing, describing, Progress, testing,
  entering, opening, working, forgetting, reserving, creating, undoing, storing, abandoning,
  releasing, answered, begin, found_stage, opened_stage, created_stage, slot_stage, ended_stage,
  entered_by, work_stage, step,
}

-- Whether the request holds a slot and has entered no session, and whether it has entered one and still
-- holds the slot.
abbrev pub holds_slot : Progress → Bool
holds_slot creating = true
holds_slot (undoing e r) = true
holds_slot (dropping key r) = false
holds_slot (storing h) = true
holds_slot (abandoning response) = true
holds_slot testing = false
holds_slot (entering k) = false
holds_slot (opening k key item) = false
holds_slot (working k key h) = false
holds_slot (forgetting key) = false
holds_slot reserving = false
holds_slot (releasing response) = false
holds_slot (answered response) = false

abbrev pub leaves_slot : Progress → Bool
leaves_slot (releasing response) = true
leaves_slot creating = false
leaves_slot (undoing e r) = false
leaves_slot (dropping key r) = false
leaves_slot (storing h) = false
leaves_slot (abandoning response) = false
leaves_slot testing = false
leaves_slot (entering k) = false
leaves_slot (opening k key item) = false
leaves_slot (working k key h) = false
leaves_slot (forgetting key) = false
leaves_slot reserving = false
leaves_slot (answered response) = false

abbrev pub add : Bool → ℕ → ℕ
add true n = suc n
add false n = n

module _ (lib : Library) (p : Parser) (m : Manager) (c : Calls) (q : Request) (n w d : ℕ) where
  abbrev RunAt : Progress × World → Type 0
  RunAt (s, world) = Run n (add (holds_slot s) w) (add (leaves_slot s) d) world.server

  abbrev Safe : World → Type 0
  Safe world = Run n w d world.server

  kept : Keeps p m c (λ _. Unit {0}) Safe (λ world. Run n (suc w) d world.server)
  kept = sections-Keeps n w d p m c

  found_stage-Run :
      (k : Work) (key : String) (o : Option Session) (world : World)
      → Safe world
      → RunAt (found_stage lib p m c q k key o, world)
  found_stage-Run k key none world r = r
  found_stage-Run k key (some item) world r = r

  entered_by-Run :
      (k : Work) (cookie : Option String) (world : World)
      → Safe world
      → RunAt (entered_by lib p m c q k cookie world)
  entered_by-Run k none world r = r
  entered_by-Run k (some key) world r =
      found_stage-Run k key _ (record world { server = (touch c.now key world.server).1 })
        (touched c.now key r)

  opened_stage-Run :
      (k : Work) (key : String) (o : Result Islet) (world : World)
      → Safe world
      → RunAt (opened_stage lib p m c q k key o, world)
  opened_stage-Run k key (ok h) world r = r
  opened_stage-Run k key (err e) world r = r

  ended_stage-Run :
      (key : String) (o : Option Err) (world : World)
      → Safe world
      → RunAt (ended_stage lib p m c q key o, world)
  ended_stage-Run key none world r = r
  ended_stage-Run key (some e) world r = r

  dropping-Run :
      (key : String) (r : Removing) (world : World)
      → Safe world
      → RunAt (proceed (ended_stage lib p m c q key) (dropping key) r, world)
  dropping-Run key (removed o) world safe = ended_stage-Run key o world safe
  dropping-Run key (finding id) world safe = safe
  dropping-Run key (recovering h) world safe = safe
  dropping-Run key (deleting h) world safe = safe

  undoing-Run :
      (e : Err) (r : Removing) (world : World)
      → Run n (suc w) d world.server
      → RunAt (proceed (undone_stage lib p m c q e) (undoing e) r, world)
  undoing-Run e (removed o) world r = r
  undoing-Run e (finding id) world r = r
  undoing-Run e (recovering h) world r = r
  undoing-Run e (deleting h) world r = r

  work_stage-Run :
      (k : Work) (key : String) (h : Islet) (world : World)
      → Safe world
      → RunAt (work_stage lib p m c q k key h world)
  work_stage-Run showing key h world r = r
  work_stage-Run ending key h world r =
      dropping-Run key (removal_step c.removal (finding h.id) world.db).0
        (record world { db = (removal_step c.removal (finding h.id) world.db).1 }) r
  work_stage-Run (querying s) key h world r =
      query_result-keeps p m c _ Safe _ kept lib world (execute_one p m c.env h s world.db) r
  work_stage-Run (changing true) key h world r =
      change_result-keeps p m c _ Safe _ kept lib world
        (reinitialize p m c.env c.later seed h world.db) r
  work_stage-Run (changing false) key h world r =
      change_result-keeps p m c _ Safe _ kept lib world
        (Lifecycle.reset c.env h false false world.db) r
  work_stage-Run describing key h world r =
      schema_result-keeps p m c _ Safe _ kept lib h world
        (execute_one p m c.env h schema_query world.db) r

  slot_stage-Run :
      (world : World) (o : Option Server)
      → reserve world.server ≡ o
      → Safe world
      → RunAt (slot_stage lib p m c q world o)
  slot_stage-Run world none e r = r
  slot_stage-Run world (some server) e r = reserved e r

  created_stage-Run :
      (world : World) (o : (Islet × Option Err) × Db)
      → Run n (suc w) d world.server
      → RunAt (created_stage lib p m c q world o)
  created_stage-Run world ((h, none), db) r = r
  created_stage-Run world ((h, some e), db) r = elim (Bool-cases (h.id == "")) [
    | inl s ↦ rw s r
    | inr s ↦ rw s r
  ]

  pub step-Run :
      (s : Progress) (world : World) → RunAt (s, world) → RunAt (step lib p m c q s world)
  unfolding step
  step-Run testing world r = elim (Bool-cases (has_live_cookie c p m q.cookie world.server)) [
    | inl s ↦ rw s r
    | inr s ↦ rw s r
  ]
  step-Run (entering k) world r = entered_by-Run k q.cookie world r
  step-Run (opening k key item) world r = opened_stage-Run k key _ world r
  step-Run (working k key h) world r = work_stage-Run k key h world r
  step-Run (forgetting key) world r = forgotten key r
  step-Run reserving world r = slot_stage-Run world (reserve world.server) refl r
  step-Run creating world r = created_stage-Run world _ r
  step-Run (dropping key s) world r =
      dropping-Run key (removal_step c.removal s world.db).0
        (record world { db = (removal_step c.removal s world.db).1 }) r
  step-Run (undoing e s) world r =
      undoing-Run e (removal_step c.removal s world.db).0
        (record world { db = (removal_step c.removal s world.db).1 }) r
  step-Run (storing h) world r = entered c.token _ r
  step-Run (abandoning response) world r = abandoned r
  step-Run (releasing response) world r = released r
  step-Run (answered response) world r = r

  pub begin-Run : (world : World) → Safe world → RunAt (begin lib p m c q, world)
  begin-Run world r = begin_cases lib p m c q (λ s. RunAt (s, world)) r (λ k. r) (λ response. r)
