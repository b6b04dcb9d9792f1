-- ===== src/Web/Schedule.antt =====
-- The goroutines of examples/web: the requests that net/http serves and the cleanups of the ticker, in
-- any interleaving of their steps. A list of moves says what happens, in order.
pub mod Alone
pub mod Held
pub mod Isolation
pub mod Sections
use pgislet.Base.{ℕ, zero, suc, String, Bool, false, Option, none, some, List, [], ◌∷◌}
use pgislet.Base.Dict.{Dict}
use pgislet.Errors.{Err}
use pgislet.Policy.Check.{Parser}
use pgislet.Engine.Execute.{Manager}
use pgislet.Web.Sessions.{Session, store, expire}
use pgislet.Web.Removal.{World, Removal}
use pgislet.Web.Removal.Steps.{Removing, finding, removal_step, proceed, iterate}
use pgislet.Web.Boundary.{Request, Library}
use pgislet.Web.Handlers.{Calls}
use pgislet.Web.Stages.{Progress, begin, step}

-- What a cleanup does next: its first section, the removal of the islets of expired sessions, a call in
-- one of them, or the section that puts a session back. Its errors are left out, as the loop of `run` does.
pub data Sweep : Type 0 where
  waiting : Sweep
  removing : Dict Session → Sweep
  taking : String → Session → Dict Session → Removing → Sweep
  putting_back : String → Session → Dict Session → Sweep

module _ (calls : String → Removal) (all : Bool) (now : ℕ) where
  abbrev pub removed_one : String → Session → Dict Session → Option Err → Sweep
  removed_one token item rest none = removing rest
  removed_one token item rest (some e) = putting_back token item rest

  abbrev pub take : String → Session → Dict Session → Removing → World → Sweep × World
  take token item rest r w =
      let (r', db) = removal_step (calls token) r w.db in
      (proceed (removed_one token item rest) (taking token item rest) r', record w { db = db })

  unfoldable pub sweep : Sweep → World → Sweep × World
  sweep waiting w =
      let (expired, server) = expire all now w.server in
      (removing expired, record w { server = server })
  sweep (removing []) w = (removing [], w)
  sweep (removing ((token, item) ∷ rest)) w = take token item rest (finding item.id) w
  sweep (taking token item rest r) w = take token item rest r w
  sweep (putting_back token item rest) w =
      (removing rest, record w { server = store token item w.server })

  abbrev pub sweeps : ℕ → Sweep → World → Sweep × World
  sweeps = iterate sweep

-- A goroutine, with what its calls meet and what it does next.
pub data Task : Type 0 where
  serving : Calls → Request → Progress → Task
  cleaning : (String → Removal) → Bool → ℕ → Sweep → Task

-- A request arrives, a tick of the clock starts a cleanup, or the goroutine of that number takes a step.
pub data Move : Type 0 where
  arrives : Calls → Request → Move
  ticks : (String → Removal) → ℕ → Move
  runs : ℕ → Move

pub record Running : Type 0 where
  pub tasks : List Task
  pub world : World

module _ (lib : Library) (p : Parser) (m : Manager) where
  abbrev pub run_task : Task → World → Task × World
  run_task (serving c q s) w = let (s', w') = step lib p m c q s w in (serving c q s', w')
  run_task (cleaning calls all now s) w =
      let (s', w') = sweep calls all now s w in (cleaning calls all now s', w')

  unfoldable pub run_at : ℕ → List Task → World → List Task × World
  run_at i [] w = ([], w)
  run_at zero (t ∷ ts) w = let (t', w') = run_task t w in (t' ∷ ts, w')
  run_at (suc i) (t ∷ ts) w = let (ts', w') = run_at i ts w in (t ∷ ts', w')

  abbrev pub moved : Move → Running → Running
  moved (arrives c q) g = record g { tasks = serving c q (begin lib p m c q) ∷ g.tasks }
  moved (ticks calls now) g = record g { tasks = cleaning calls false now waiting ∷ g.tasks }
  moved (runs i) g = let (ts, w) = run_at i g.tasks g.world in record { tasks = ts; world = w }

  unfoldable pub play : List Move → Running → Running
  unfolding run_at
  play [] g = g
  play (a ∷ moves) g = play moves (moved a g)
