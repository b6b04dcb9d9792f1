-- ===== src/Web/Shutdown.antt =====
-- The loop of `run` in examples/web/main.go and the shutdown behind it; the flags, the container and the
-- listening are left out. A trace lists what happens while the server runs, in order.
pub mod Ends
pub mod Held
pub mod Isolation
pub mod Registry
use pgislet.Base.{ℕ, String, Bool, true, false, Option, none, some, List, [], ◌∷◌, if◌then◌else◌}
use pgislet.Errors.{Err, nil, present}
use pgislet.Policy.Check.{Parser}
use pgislet.Engine.Execute.{Manager}
use pgislet.Web.Removal.{World, Removal, cleanup, join}
use pgislet.Web.Boundary.{Request, Library}
use pgislet.Web.Handlers.{Calls}
use pgislet.Web.Serve.{serve}

-- A request, a tick with the time and the calls of its cleanup, the end of the context, and what
-- ListenAndServe returned.
pub data Event : Type 0 where
  requested : Calls → Request → Event
  ticked : (String → Removal) → ℕ → Event
  interrupted : Event
  stopped : Option Err → Event

-- What `run` returns, and the state it leaves.
pub record Exit : Type 0 where
  pub error : Option Err
  pub world : World

module _ (lib : Library) (p : Parser) (m : Manager) where
  -- `for running`: serveErr and the state when it ends; `none` if the trace has no end of it.
  unfoldable pub loop : List Event → World → Option (Option Err × World)
  loop [] w = none
  loop (requested c r ∷ events) w = loop events (serve lib p m c r w).1
  loop (ticked calls now ∷ events) w = loop events (cleanup calls false now w).1
  loop (interrupted ∷ events) w = some (none, w)
  loop (stopped e ∷ events) w = some (e, w)

-- `errors.Is(serveErr, http.ErrServerClosed)` is the argument `is_closed`.
module _ (is_closed : Err → Bool) (shutdown : Option Err) (calls : String → Removal) (now : ℕ) where
  -- `if err := server.Shutdown(shutdown); err != nil`.
  abbrev pub joined_with : Option Err → Option Err → Option Err
  joined_with serve_err none = serve_err
  joined_with serve_err (some e) = join (present serve_err (present (some e) nil))

  abbrev pub unless_closed : Option Err → Option Err
  unless_closed none = none
  unless_closed (some e) = if is_closed e then none else some e

  -- The statements behind the loop.
  unfoldable pub end_run : Option Err × World → Exit
  end_run (serve_err, w) =
      let (cleanup_err, w') = cleanup calls true now w in
      let serve_err' = unless_closed (joined_with serve_err shutdown) in
      record { error = join (present serve_err' (present cleanup_err nil)); world = w' }

  module _ (lib : Library) (p : Parser) (m : Manager) where
    abbrev pub ended_run : Option (Option Err × World) → Option Exit
    ended_run none = none
    ended_run (some ended) = some (end_run ended)

    unfoldable pub run_server : List Event → World → Option Exit
    unfolding loop end_run
    run_server events w = ended_run (loop lib p m events w)
