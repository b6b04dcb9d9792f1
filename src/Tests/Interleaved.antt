-- ===== src/Tests/Interleaved.antt =====
-- The theorems on the interleavings of examples/web at concrete schedules.
use pgislet.Base.{◌+◌, ◌≤◌, ◌≡◌, refl, none, some, List, [], ◌∷◌, length}
use pgislet.Engine.Registry.{WellFormed}
use pgislet.Engine.Registry.Isolation.{Untouched}
use pgislet.Web.Boundary.{Request, Library, start, refusal}
use pgislet.Web.Sessions.{max_sessions, expire, reserve}
use pgislet.Web.Stages.{begin, step}
use pgislet.Web.Schedule.{Move, arrives, ticks, runs, Running, play, sweep}
use pgislet.Web.Schedule.Isolation.{play-Untouched}
use pgislet.Web.Schedule.Sections.{holding, leaving, put_backs, play-bounded}
use pgislet.Tests.{parser}
use pgislet.Tests.Islets.{manager}
use pgislet.Tests.History.{both, both-WellFormed, second_row, second_row_found}
use pgislet.Tests.Web.{removal}
use pgislet.Tests.Requests.{library, request, calls, calls-Sticks, first_world}
use pgislet.Tests.Neighbours.{neighbours, removal-SticksTo}

-- A mux where every request starts a session, and a request without a cookie.
abbrev starting : Library
starting = record library { mux = λ patterns method path. some start }

abbrev stranger : Request
stranger = record request { cookie = none }

-- Two starts and a cleanup, which take turns: both starts hold a slot when the cleanup runs.
abbrev turns : List Move
turns =
    arrives calls stranger
    ∷ arrives calls stranger
    ∷ runs 0
    ∷ runs 1
    ∷ runs 0
    ∷ runs 1
    ∷ ticks (λ token. removal) 90
    ∷ runs 0
    ∷ []

abbrev idle : Running
idle = record { tasks = []; world = first_world }

both_hold : (play starting parser manager turns idle).world.server.pending ≡ 2
unfolding play sweep expire step begin refusal reserve
both_hold = refl

play-bounded_example :
    (length (play starting parser manager turns idle).world.server.sessions
        + holding (play starting parser manager turns idle).tasks 0
      ≤ max_sessions + put_backs starting parser manager turns idle 0)
    × ((play starting parser manager turns idle).world.server.pending
        ≡ holding (play starting parser manager turns idle).tasks 0
          + leaving (play starting parser manager turns idle).tasks 0)
play-bounded_example = play-bounded starting parser manager turns first_world.db

-- Two requests of the first islet's session and a cleanup.
abbrev crossing : List Move
crossing =
    arrives calls request
    ∷ arrives calls request
    ∷ runs 0
    ∷ runs 1
    ∷ ticks (λ token. removal) 90
    ∷ runs 0
    ∷ runs 1
    ∷ runs 2
    ∷ runs 0
    ∷ runs 1
    ∷ []

play-Untouched_example :
    Untouched "1e" second_row both
      (play library parser manager crossing (record { tasks = []; world = neighbours })).world.db
    × WellFormed
        (play library parser manager crossing (record { tasks = []; world = neighbours })).world.db
play-Untouched_example =
    play-Untouched library parser manager crossing neighbours "1e" second_row
      (calls-Sticks, (calls-Sticks, ((λ token. removal-SticksTo), tt))) both-WellFormed
      second_row_found (refl, tt)
