-- ===== src/Web/Schedule/Held.antt =====
-- What every interleaving of requests and cleanups of examples/web keeps of the sessions, of what the
-- goroutines have in hand, and of the database.
use pgislet.Base.{ℕ, zero, suc, String, Bool, Option, none, some, List, [], ◌∷◌}
use pgislet.Errors.{Err}
use pgislet.Policy.Check.{Parser}
use pgislet.Engine.Types.{Db}
use pgislet.Engine.Execute.{Manager}
use pgislet.Engine.Registry.Closed.{Closed}
use pgislet.Base.Dict.{Dict}
use pgislet.Web.Sessions.{Session, expire}
use pgislet.Web.Sessions.Owned.{AllOwn, taken-AllOwn, left-AllOwn, store-AllOwn}
use pgislet.Web.Removal.{World, Removal}
use pgislet.Web.Boundary.{Library}
use pgislet.Web.Serve.Moves.{Sticks}
use pgislet.Web.Serve.Owned.{SticksTo, Held}
use pgislet.Web.Stages.Owned.{ProgressOwn, begin-own, step-keeps}
use pgislet.Web.Removal.Steps.{
  Removing, finding, recovering, deleting, removed, removal_step, proceed, RemovingOwn,
  removal_step-keeps,
}
use pgislet.Web.Schedule.{
  taking, take, Sweep, waiting, removing, putting_back, removed_one, sweep, Task, serving, cleaning,
  Move, arrives, ticks, runs, Running, run_task, run_at, play,
}

abbrev pub SweepOwn : (String → Type 0) → Sweep → Type 0
SweepOwn Own waiting = Unit
SweepOwn Own (removing rest) = AllOwn Own rest
SweepOwn Own (taking token item rest r) = (Own item.id × AllOwn Own rest) × RemovingOwn Own r
SweepOwn Own (putting_back token item rest) = Own item.id × AllOwn Own rest

-- What the goroutine has in hand is `Own`, and a failed ROLLBACK TO aborts what follows it in its calls.
abbrev pub TaskSafe : (String → Type 0) → Task → Type 0
TaskSafe Own (serving c q s) = Sticks c × ProgressOwn Own s
TaskSafe Own (cleaning calls all now s) =
    ((token : String) → SticksTo (calls token)) × SweepOwn Own s

abbrev pub TasksSafe : (String → Type 0) → List Task → Type 0
TasksSafe Own [] = Unit
TasksSafe Own (t ∷ ts) = TaskSafe Own t × TasksSafe Own ts

-- A failed ROLLBACK TO aborts what follows it, in the calls of whatever starts.
abbrev pub StickMoves : List Move → Type 0
StickMoves [] = Unit
StickMoves (arrives c q ∷ moves) = Sticks c × StickMoves moves
StickMoves (ticks calls now ∷ moves) =
    ((token : String) → SticksTo (calls token)) × StickMoves moves
StickMoves (runs i ∷ moves) = StickMoves moves

module _ (Own : String → Type 0) (R : Db → Type 0) (closed : Closed Own R) where
  module _ (calls : String → Removal) (all : Bool) (now : ℕ)
      (sticks : (token : String) → SticksTo (calls token)) where
    removed_one-own :
        (token : String) (item : Session) (rest : Dict Session) (o : Option Err)
        → Own item.id
        → AllOwn Own rest
        → SweepOwn Own (removed_one calls all now token item rest o)
    removed_one-own token item rest none own more = more
    removed_one-own token item rest (some e) own more = (own, more)

    taken-own :
        (token : String) (item : Session) (rest : Dict Session) (r : Removing)
        → Own item.id
        → AllOwn Own rest
        → RemovingOwn Own r
        → SweepOwn Own
            (proceed (removed_one calls all now token item rest) (taking token item rest) r)
    taken-own token item rest (removed o) own more still =
        removed_one-own token item rest o own more
    taken-own token item rest (finding id) own more still = ((own, more), still)
    taken-own token item rest (recovering h) own more still = ((own, more), still)
    taken-own token item rest (deleting h) own more still = ((own, more), still)

    take-keeps :
        (token : String) (item : Session) (rest : Dict Session) (r : Removing) (w : World)
        → Own item.id
        → AllOwn Own rest
        → RemovingOwn Own r
        → Held Own R w
        → Held Own R (take calls all now token item rest r w).1
          × SweepOwn Own (take calls all now token item rest r w).0
    take-keeps token item rest r w own more still held =
        let (stored, next) =
          removal_step-keeps Own R closed (calls token) (sticks token).recovering
            (sticks token).deleting r w.db still held.stored in
        (
          record { stored = stored; owned = held.owned },
          taken-own token item rest (removal_step (calls token) r w.db).0 own more next,
        )

    sweep-keeps :
        (s : Sweep) (w : World)
        → SweepOwn Own s
        → Held Own R w
        → Held Own R (sweep calls all now s w).1 × SweepOwn Own (sweep calls all now s w).0
    unfolding sweep expire
    sweep-keeps waiting w own r = (
      record { stored = r.stored; owned = left-AllOwn Own all now w.server.sessions r.owned },
      taken-AllOwn Own all now w.server.sessions r.owned,
    )
    sweep-keeps (removing []) w own r = (r, tt)
    sweep-keeps (removing ((token, item) ∷ rest)) w (own, more) r =
        take-keeps token item rest (finding item.id) w own more own r
    sweep-keeps (taking token item rest s) w ((own, more), still) r =
        take-keeps token item rest s w own more still r
    sweep-keeps (putting_back token item rest) w (own, more) r = (
      record { stored = r.stored; owned = store-AllOwn Own token item w.server own r.owned },
      more,
    )

  module _ (lib : Library) (p : Parser) (m : Manager) where
    run_task-keeps :
        (t : Task) (w : World)
        → TaskSafe Own t
        → Held Own R w
        → Held Own R (run_task lib p m t w).1 × TaskSafe Own (run_task lib p m t w).0
    run_task-keeps (serving c q s) w (sticks, own) r =
        let (held, safe) = step-keeps Own R closed lib p m c q sticks s w own r in
        (held, (sticks, safe))
    run_task-keeps (cleaning calls all now s) w (sticks, own) r =
        let (held, safe) = sweep-keeps calls all now sticks s w own r in (held, (sticks, safe))

    run_at-keeps :
        (i : ℕ) (ts : List Task) (w : World)
        → TasksSafe Own ts
        → Held Own R w
        → Held Own R (run_at lib p m i ts w).1 × TasksSafe Own (run_at lib p m i ts w).0
    unfolding run_at
    run_at-keeps i [] w safe r = (r, tt)
    run_at-keeps zero (t ∷ ts) w (safe, more) r =
        let (held, still) = run_task-keeps t w safe r in (held, (still, more))
    run_at-keeps (suc i) (t ∷ ts) w (safe, more) r =
        let (held, still) = run_at-keeps i ts w more r in (held, (safe, still))

    pub play-keeps :
        (moves : List Move) (g : Running)
        → StickMoves moves
        → TasksSafe Own g.tasks
        → Held Own R g.world
        → Held Own R (play lib p m moves g).world
    unfolding play
    play-keeps [] g sticks safe r = r
    play-keeps (arrives c q ∷ moves) g (now, later) safe r =
        play-keeps moves _ later ((now, begin-own Own R closed lib p m c q now), safe) r
    play-keeps (ticks calls t ∷ moves) g (now, later) safe r =
        play-keeps moves _ later ((now, tt), safe) r
    play-keeps (runs i ∷ moves) g later safe r =
        let (held, still) = run_at-keeps i g.tasks g.world safe r in
        play-keeps moves _ later still held
