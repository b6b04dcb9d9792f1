-- ===== src/Web/Shutdown/Held.antt =====
-- What `run` of examples/web/main.go keeps of the sessions and the database, to its end: whatever the
-- transactions keep that work on the islets of the sessions, or on a new one.
use pgislet.Base.{ℕ, String, Bool, true, false, ◌≡◌, refl, Option, some, List, [], ◌∷◌, ap}
use pgislet.Errors.{Err}
use pgislet.Policy.Check.{Parser}
use pgislet.Engine.Types.{Db}
use pgislet.Engine.Execute.{Manager}
use pgislet.Engine.Registry.Closed.{Closed}
use pgislet.Web.Removal.{World, Removal}
use pgislet.Web.Boundary.{Library}
use pgislet.Web.Serve.Moves.{Sticks}
use pgislet.Web.Serve.Owned.{SticksTo, Held, serve-Held, cleanup-Held}
use pgislet.Web.Shutdown.{
  Event, requested, ticked, interrupted, stopped, Exit, loop, end_run, ended_run, run_server,
}
use pgislet.Web.Shutdown.Ends.{HasStop}

-- A failed ROLLBACK TO aborts what follows it, in the calls of each event.
abbrev pub SticksThrough : List Event → Type 0
SticksThrough [] = Unit
SticksThrough (requested c q ∷ events) = Sticks c × SticksThrough events
SticksThrough (ticked calls now ∷ events) =
    ((token : String) → SticksTo (calls token)) × SticksThrough events
SticksThrough (interrupted ∷ events) = SticksThrough events
SticksThrough (stopped e ∷ events) = SticksThrough events

module _ (Own : String → Type 0) (R : Db → Type 0) (closed : Closed Own R) where
  loop-Held :
      (lib : Library) (p : Parser) (m : Manager) (events : List Event) (w : World)
      → HasStop events
      → SticksThrough events
      → Held Own R w
      → (o : Option Err × World) × (loop lib p m events w ≡ some o) × Held Own R o.1
  unfolding loop
  loop-Held lib p m [] w stop sticks r = elim stop [ ]
  loop-Held lib p m (interrupted ∷ events) w stop sticks r = (_, refl, r)
  loop-Held lib p m (stopped e ∷ events) w stop sticks r = (_, refl, r)
  loop-Held lib p m (requested c q ∷ events) w stop (now, later) r =
      loop-Held lib p m events _ stop later (serve-Held Own R closed lib p m c q w now r)
  loop-Held lib p m (ticked calls t ∷ events) w stop (now, later) r =
      loop-Held lib p m events _ stop later (cleanup-Held Own R closed calls now false t w r)

  module _ (is_closed : Err → Bool) (shutdown : Option Err) (calls : String → Removal) (now : ℕ)
      (sticks : (token : String) → SticksTo (calls token)) where
    end_run-Held :
        (o : Option Err × World)
        → Held Own R o.1
        → Held Own R (end_run is_closed shutdown calls now o).world
    unfolding end_run
    end_run-Held (e, w) r = cleanup-Held Own R closed calls sticks true now w r

    pub run_server-Held :
        (lib : Library) (p : Parser) (m : Manager) (events : List Event) (w : World)
        → HasStop events
        → SticksThrough events
        → Held Own R w
        → (exit : Exit) × (run_server is_closed shutdown calls now lib p m events w ≡ some exit)
          × Held Own R exit.world
    unfolding run_server
    run_server-Held lib p m events w stop through r =
        let (o, e, held) = loop-Held lib p m events w stop through r in
        (_, ap (ended_run is_closed shutdown calls now lib p m) e, end_run-Held o held)
