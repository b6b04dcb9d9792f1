-- ===== src/Web/Schedule/Sections.antt =====
-- Every interleaving of requests and cleanups of examples/web is a sequence of the sections of
-- Web/Sessions/Capacity: so `pending` counts the starts that hold a slot.
use pgislet.Base.{
  ap, ◌∙◌, ℕ, zero, suc, ◌+◌, ◌≤◌, String, Bool, true, false, ◌≡◌, refl, List, [], ◌∷◌, length,
  arith,
}
use pgislet.Policy.Check.{Parser}
use pgislet.Engine.Types.{Db}
use pgislet.Engine.Execute.{Manager}
use pgislet.Web.Sessions.{max_sessions}
use pgislet.Web.Sessions.Capacity.{Run, new, expired, put_back, Run-bounded}
use pgislet.Web.Removal.{World, Removal}
use pgislet.Web.Boundary.{Request, Library}
use pgislet.Web.Handlers.{Calls}
use pgislet.Web.Stages.Sections.{holds_slot, leaves_slot, add, step-Run, begin-Run}
use pgislet.Web.Stages.{begin}
use pgislet.Web.Schedule.{
  taking, Sweep, waiting, removing, putting_back, sweep, Task, serving, cleaning, Move, arrives,
  ticks, runs, Running, run_task, run_at, moved, play,
}

abbrev task_holds : Task → Bool
task_holds (serving c q s) = holds_slot s
task_holds (cleaning calls all now s) = false

abbrev task_leaves : Task → Bool
task_leaves (serving c q s) = leaves_slot s
task_leaves (cleaning calls all now s) = false

-- The requests that hold a slot and have entered no session, and those that have entered one and still
-- hold the slot; `w` and `d` more.
abbrev pub holding : List Task → ℕ → ℕ
holding [] w = w
holding (t ∷ ts) w = add (task_holds t) (holding ts w)

abbrev pub leaving : List Task → ℕ → ℕ
leaving [] d = d
leaving (t ∷ ts) d = add (task_leaves t) (leaving ts d)

-- Whether a step puts a session back.
abbrev pub puts_back : Task → Bool
puts_back (serving c q s) = false
puts_back (cleaning calls all now waiting) = false
puts_back (cleaning calls all now (removing rest)) = false
puts_back (cleaning calls all now (taking token item rest r)) = false
puts_back (cleaning calls all now (putting_back token item rest)) = true

abbrev pub puts_back_at : ℕ → List Task → Bool
puts_back_at i [] = false
puts_back_at zero (t ∷ ts) = puts_back t
puts_back_at (suc i) (t ∷ ts) = puts_back_at i ts

abbrev pub puts_back_by : Move → Running → Bool
puts_back_by (arrives c q) g = false
puts_back_by (ticks calls now) g = false
puts_back_by (runs i) g = puts_back_at i g.tasks

add_comm : (a b : Bool) (n : ℕ) → add a (add b n) ≡ add b (add a n)
add_comm a b n = ground arith

module _ (lib : Library) (p : Parser) (m : Manager) where
  -- The sessions that the cleanups put back over the moves, and `n` more.
  unfoldable pub put_backs : List Move → Running → ℕ → ℕ
  put_backs [] g n = n
  put_backs (a ∷ moves) g n = put_backs moves (moved lib p m a g) (add (puts_back_by a g) n)

  holding-add : (ts : List Task) (b : Bool) (w : ℕ) → holding ts (add b w) ≡ add b (holding ts w)
  holding-add [] b w = refl
  holding-add (t ∷ ts) b w = ap (add (task_holds t)) (holding-add ts b w) ∙ add_comm _ b _

  leaving-add : (ts : List Task) (b : Bool) (d : ℕ) → leaving ts (add b d) ≡ add b (leaving ts d)
  leaving-add [] b d = refl
  leaving-add (t ∷ ts) b d = ap (add (task_leaves t)) (leaving-add ts b d) ∙ add_comm _ b _

  sweep-Run :
      (calls : String → Removal) (all : Bool) (now : ℕ) (n w d : ℕ) (s : Sweep) (world : World)
      → Run n w d world.server
      → Run
          (add (puts_back (cleaning calls all now s)) n)
          w
          d
          (sweep calls all now s world).1.server
  unfolding sweep
  sweep-Run calls all now n w d waiting world r = expired all now r
  sweep-Run calls all now n w d (removing []) world r = r
  sweep-Run calls all now n w d (removing ((token, item) ∷ rest)) world r = r
  sweep-Run calls all now n w d (taking token item rest s) world r = r
  sweep-Run calls all now n w d (putting_back token item rest) world r = put_back token item r

  run_task-Run :
      (n w d : ℕ) (t : Task) (world : World)
      → Run n (add (task_holds t) w) (add (task_leaves t) d) world.server
      → let (t', world') = run_task lib p m t world in
        Run (add (puts_back t) n) (add (task_holds t') w) (add (task_leaves t') d) world'.server
  run_task-Run n w d (serving c q s) world r = step-Run lib p m c q n w d s world r
  run_task-Run n w d (cleaning calls all now s) world r = sweep-Run calls all now n w d s world r

  run_at-Run :
      (n w d i : ℕ) (ts : List Task) (world : World)
      → Run n (holding ts w) (leaving ts d) world.server
      → let (ts', world') = run_at lib p m i ts world in
        Run (add (puts_back_at i ts) n) (holding ts' w) (leaving ts' d) world'.server
  unfolding run_at
  run_at-Run n w d i [] world r = r
  run_at-Run n w d zero (t ∷ ts) world r = run_task-Run n (holding ts w) (leaving ts d) t world r
  run_at-Run n w d (suc i) (t ∷ ts) world r =
      let inner : Run n (holding ts (add (task_holds t) w)) (leaving ts (add (task_leaves t) d))
          world.server =
        rw (holding-add ts (task_holds t) w, leaving-add ts (task_leaves t) d) r in
      let after = run_at-Run n (add (task_holds t) w) (add (task_leaves t) d) i ts world inner in
      rw
        (
          holding-add (run_at lib p m i ts world).0 (task_holds t) w,
          leaving-add (run_at lib p m i ts world).0 (task_leaves t) d,
        )
        at after

  arrived-Run :
      (c : Calls) (q : Request) (n w d : ℕ) (world : World)
      → Run n w d world.server
      → Run n
          (add (holds_slot (begin lib p m c q)) w)
          (add (leaves_slot (begin lib p m c q)) d)
          world.server
  arrived-Run c q n w d world r = begin-Run lib p m c q n w d world r

  play-Run :
      (moves : List Move) (n : ℕ) (g : Running)
      → Run n (holding g.tasks 0) (leaving g.tasks 0) g.world.server
      → let after = play lib p m moves g in
        Run (put_backs moves g n) (holding after.tasks 0) (leaving after.tasks 0) after.world.server
  unfolding play put_backs
  play-Run [] n g r = r
  play-Run (arrives c q ∷ moves) n g r =
      play-Run moves n (moved lib p m (arrives c q) g) (arrived-Run c q n _ _ g.world r)
  play-Run (ticks calls now ∷ moves) n g r = play-Run moves n (moved lib p m (ticks calls now) g) r
  play-Run (runs i ∷ moves) n g r =
      play-Run moves _ (moved lib p m (runs i) g) (run_at-Run n 0 0 i g.tasks g.world r)

-- However the requests that arrive and the cleanups of a new server interleave, section by section and
-- call by call, and whatever their calls meet: the sessions and the goroutines that hold a slot and have
-- entered no session are at most 32 and one for each session that a cleanup has put back, and `pending`
-- is the number of goroutines that hold a slot.
pub play-bounded :
    (lib : Library) (p : Parser) (m : Manager) (moves : List Move) (db : Db)
    → let fresh : Running = record {
      tasks = [];
      world = record { server = record { sessions = []; pending = 0 }; db = db };
    } in
      let after = play lib p m moves fresh in
      (length after.world.server.sessions + holding after.tasks 0
        ≤ max_sessions + put_backs lib p m moves fresh 0)
      × (after.world.server.pending ≡ holding after.tasks 0 + leaving after.tasks 0)
play-bounded lib p m moves db = Run-bounded (play-Run lib p m moves 0 _ new)
