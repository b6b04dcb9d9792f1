-- ===== src/Web/Shutdown/Ends.antt =====
-- The end of `run` in examples/web/main.go.
use pgislet.Base.{
  ℕ, String, Bool, true, false, ◌≡◌, refl, Option, none, some, List, [], ◌∷◌, ap, ◌∙◌,
}
use pgislet.Base.Dict.{Dict}
use pgislet.Errors.{Err, nil, present}
use pgislet.Policy.Check.{Parser}
use pgislet.Engine.Execute.{Manager}
use pgislet.Web.Sessions.{Session, taken, left}
use pgislet.Web.Removal.{World, Removal, cleanup, join}
use pgislet.Web.Removal.Gone.{Answers}
use pgislet.Web.Removal.Cleaned.{cleanup-finished}
use pgislet.Web.Removal.Each.{NoIslets}
use pgislet.Web.Boundary.{Library}
use pgislet.Web.Serve.{serve}
use pgislet.Web.Shutdown.{
  Event, requested, ticked, interrupted, stopped, Exit, loop, end_run, ended_run, run_server,
}

-- The trace has an interrupt or the end of the listener.
abbrev pub HasStop : List Event → Type 0
HasStop [] = ⊥
HasStop (interrupted ∷ events) = Unit
HasStop (stopped e ∷ events) = Unit
HasStop (requested c r ∷ events) = HasStop events
HasStop (ticked calls now ∷ events) = HasStop events

left-all : (now : ℕ) (m : Dict Session) → left true now m ≡ []
unfolding left
left-all now [] = refl
left-all now ((k, i) ∷ m) = left-all now m

taken-all : (now : ℕ) (m : Dict Session) → taken true now m ≡ m
unfolding taken
taken-all now [] = refl
taken-all now ((k, i) ∷ m) = ap (λ rest. (k, i) ∷ rest) (taken-all now m)

pub loop_ends :
    (lib : Library) (p : Parser) (m : Manager) (events : List Event) (w : World)
    → HasStop events
    → (o : Option Err × World) × (loop lib p m events w ≡ some o)
unfolding loop
loop_ends lib p m [] w s = elim s [ ]
loop_ends lib p m (interrupted ∷ events) w s = ((none, w), refl)
loop_ends lib p m (stopped e ∷ events) w s = ((e, w), refl)
loop_ends lib p m (requested c r ∷ events) w s = loop_ends lib p m events (serve lib p m c r w).1 s
loop_ends lib p m (ticked calls now ∷ events) w s =
    loop_ends lib p m events (cleanup calls false now w).1 s

second_none : (a b : Option Err) → join (present a (present b nil)) ≡ none → b ≡ none
second_none none none h = refl
second_none none (some e) h = cc
second_none (some d) b h = cc

module _ (is_closed : Err → Bool) (shutdown : Option Err) (calls : String → Removal) (now : ℕ)
    (lib : Library) (p : Parser) (m : Manager)
    (answers : (token : String) → Answers (calls token)) where
  end_run_clean :
      (o : Option Err × World)
      → (end_run is_closed shutdown calls now o).error ≡ none
      → ((end_run is_closed shutdown calls now o).world.server.sessions ≡ [])
        × NoIslets o.1.server.sessions (end_run is_closed shutdown calls now o).world.db
  unfolding end_run
  end_run_clean (e, w) fine =
      let (empty, gone) = cleanup-finished calls true now w answers (second_none _ _ fine) in
      (empty ∙ left-all now w.server.sessions, rw (taken-all now w.server.sessions) at gone)

  -- A server whose trace has a stop comes to its end, whatever requests and ticks are before it; and if
  -- `run` returns no error, no session is left, and no islet of a session that there was when the loop
  -- ended. In the last cleanup any call may fail, but the reads of a row do not answer by an error that it
  -- is missing, and a transaction stays aborted whose ROLLBACK TO has failed.
  pub run_server-ends :
      (events : List Event) (w : World)
      → HasStop events
      → (exit : Exit) × (o : Option Err × World) × (loop lib p m events w ≡ some o)
        × (run_server is_closed shutdown calls now lib p m events w ≡ some exit)
        × (exit.error ≡ none
            → (exit.world.server.sessions ≡ []) × NoIslets o.1.server.sessions exit.world.db)
  unfolding run_server
  run_server-ends events w s =
      let (o, e) = loop_ends lib p m events w s in
      (
        end_run is_closed shutdown calls now o,
        o,
        e,
        ap (ended_run is_closed shutdown calls now lib p m) e,
        end_run_clean o,
      )
