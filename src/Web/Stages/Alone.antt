-- ===== src/Web/Stages/Alone.antt =====
-- A request of examples/web that runs alone: its steps come to what Web/Serve computes at once.
use pgislet.Base.{
  arith, ℕ, zero, suc, String, true, false, ◌≡◌, refl, Option, none, some, inl, inr, Bool-cases,
  Option-cases, ◌==◌,
}
use pgislet.Errors.{Err, Result, ok, err}
use pgislet.Policy.Check.{Parser}
use pgislet.Engine.Types.{Islet, Db}
use pgislet.Engine.Execute.{Manager}
use pgislet.Engine.Initialize.{open_islet, create_with_initialization}
use pgislet.Web.Report.{Response}
use pgislet.Web.Sessions.{Session, Server, touch, reserve}
use pgislet.Web.Removal.{World}
use pgislet.Web.Boundary.{
  Request, Library, Route, start, end, query, reset, reseed, schema, no_endpoint, assets, patterns,
  refusal,
}
use pgislet.Web.Seed.{seed}
use pgislet.Web.Handlers.{
  Calls, passed, current, let_in, opened_gate, open_session, behind_current, end_behind, end_result,
  end_session, start_session, start_reserved, start_result, has_live_cookie, show,
}
use pgislet.Web.Serve.{
  Decoded, bad, sql, decode, run_query, query_behind, handle_query, change_behind, handle_change,
  schema_behind, describe_schema, handle_route, serve,
}
use pgislet.Web.Report.{report, with_cookie, token}
use pgislet.Web.Sessions.{release}
use pgislet.Web.Removal.Calls.{steps_removing}
use pgislet.Web.Removal.Steps.{iterate}
use pgislet.Web.Stages.{
  dropping, undoing, undone_stage, Work, showing, ending, querying, changing, describing, Progress,
  testing, entering, working, dropping, undoing, undone_stage, answered, route_stage, query_stage,
  begin, found_stage, opened_stage, entered_by, created_stage, slot_stage, ended_stage, step, steps,
}

module _ (lib : Library) (p : Parser) (m : Manager) (c : Calls) (q : Request) where
  abbrev run : ℕ → Progress → World → Progress × World
  run = steps lib p m c q

  abbrev done : Response × World → Progress × World
  done (response, w) = (answered response, w)

  -- The handler behind `current` that does a work.
  abbrev handler : Work → String → Islet → World → Response × World
  handler showing = show c p m
  handler ending = end_behind c
  handler (querying s) = query_behind lib p m c s
  handler (changing again) = change_behind lib p m c again
  handler describing = schema_behind lib p m c

  steps_answered : (n : ℕ) (r : Response) (w : World) → run n (answered r) w ≡ (answered r, w)
  unfolding iterate step
  steps_answered zero r w = refl
  steps_answered (suc n) r w = steps_answered n r w

  -- The end of `end` behind the calls of its removal.
  abbrev dropped : String → Server → Option Err × Db → Progress × World
  dropped key server o =
      let (response, w) = end_result c key (record { server = server; db = o.1 }) o in
      (answered (with_cookie (token key) response), w)

  -- The end of a failed start behind them.
  abbrev undone : Err → Server → Option Err × Db → Progress × World
  undone e server o = (answered (report e none), record { server = release server; db = o.1 })

  steps_ended :
      (n : ℕ) (key : String) (o : Option Err) (w : World)
      → run (suc n) (ended_stage lib p m c q key o) w ≡ dropped key w.server (o, w.db)
  unfolding iterate step
  steps_ended n key (some e) w = steps_answered n _ _
  steps_ended n key none w = steps_answered n _ _

  steps_working :
      (n : ℕ) (k : Work) (key : String) (h : Islet) (w : World)
      → run (suc (suc (suc (suc n)))) (working k key h) w
        ≡ done (let_in c (passed key h, w) (handler k))
  unfolding iterate step
  steps_working n showing key h w = steps_answered n _ _
  steps_working n ending key h w =
      steps_removing (step lib p m c q) c.removal (ended_stage lib p m c q key) (dropping key) 0
        (dropped key) (λ r w. refl) (λ n o w enough. steps_ended n key o w) n h.id w (omega arith)
  steps_working n (querying s) key h w = steps_answered n _ _
  steps_working n (changing again) key h w = steps_answered n _ _
  steps_working n describing key h w = steps_answered n _ _

  steps_opened :
      (n : ℕ) (k : Work) (key : String) (w : World) (o : Result Islet)
      → run (suc (suc (suc (suc n)))) (opened_stage lib p m c q k key o) w
        ≡ done (let_in c (opened_gate c key o, w) (handler k))
  unfolding iterate step
  steps_opened n k key w (err e) = steps_answered n _ _
  steps_opened n k key w (ok h) = steps_working n k key h w

  steps_found :
      (n : ℕ) (k : Work) (key : String) (w : World) (o : Option Session)
      → run (suc (suc (suc (suc (suc n))))) (found_stage lib p m c q k key o) w
        ≡ done (let_in c (open_session c key w.db o, w) (handler k))
  unfolding iterate step
  steps_found n k key w none = steps_answered n _ _
  steps_found n k key w (some item) = steps_opened n k key w (open_islet c.opened item.id w.db)

  steps_entered :
      (n : ℕ) (k : Work) (cookie : Option String) (w : World)
      → (let (s, w') = entered_by lib p m c q k cookie w in
          run (suc (suc (suc (suc (suc n))))) s w')
        ≡ done (behind_current c cookie w (handler k))
  unfolding iterate step current
  steps_entered n k none w = steps_answered n _ _
  steps_entered n k (some key) w =
      steps_found n k key (record w { server = (touch c.now key w.server).1 })
        (touch c.now key w.server).0

  steps_entering :
      (n : ℕ) (k : Work) (w : World)
      → run (suc (suc (suc (suc (suc (suc n)))))) (entering k) w
        ≡ done (behind_current c q.cookie w (handler k))
  unfolding iterate step
  steps_entering n k w = steps_entered n k q.cookie w

  steps_created :
      (n : ℕ) (server : Server) (o : (Islet × Option Err) × Db) (db : Db)
      → (let (s, w) = created_stage lib p m c q (record { server = server; db = db }) o in
          run (suc (suc (suc (suc n)))) s w)
        ≡ done (start_result c p m server o)
  unfolding iterate step
  steps_created n server ((h, none), before) db = steps_answered n _ _
  steps_created n server ((h, some e), before) db = elim (Bool-cases (h.id == "")) [
    | inl s ↦ rw s (steps_answered (suc n) _ _)
    | inr s ↦ rw s (
        steps_removing (step lib p m c q) c.removal (undone_stage lib p m c q e) (undoing e) 0
          (undone e) (λ r w. refl) (λ n o w enough. steps_answered n _ _) n h.id
          (record { server = server; db = before }) (omega arith))
  ]

  steps_slot :
      (n : ℕ) (w : World) (o : Option Server)
      → (let (s, w') = slot_stage lib p m c q w o in run (suc (suc (suc (suc (suc n))))) s w')
        ≡ done (start_reserved c p m w o)
  unfolding iterate step
  steps_slot n w none = steps_answered n _ _
  steps_slot n w (some server) =
      steps_created n server (create_with_initialization p m c.env c.later seed w.db) w.db

  steps_testing :
      (n : ℕ) (w : World)
      → run (suc (suc (suc (suc (suc (suc (suc n))))))) testing w
        ≡ done (start_session c p m q.cookie w)
  unfolding iterate step start_session
  steps_testing n w = elim (Bool-cases (has_live_cookie c p m q.cookie w.server)) [
    | inl s ↦ rw s (steps_entering n showing w)
    | inr s ↦ rw s (steps_slot n w (reserve w.server))
  ]

  steps_query :
      (o : Decoded) (w : World)
      → run 7 (query_stage lib p m c q o) w ≡ done (run_query lib p m c q w o)
  steps_query (bad response) w = steps_answered 7 _ _
  steps_query (sql s) w = elim (Bool-cases (lib.trim_space s == "")) [
    | inl e ↦ rw e (steps_answered 7 _ _)
    | inr e ↦ rw e (steps_entering 1 (querying s) w)
  ]

  steps_route :
      (route : Route) (w : World)
      → run 7 (route_stage lib p m c q route) w ≡ done (handle_route lib p m c route q w)
  unfolding end_session handle_query handle_change describe_schema
  steps_route start w = steps_testing zero w
  steps_route end w = steps_entering 1 ending w
  steps_route query w = steps_query (decode lib q) w
  steps_route reset w = steps_entering 1 (changing false) w
  steps_route reseed w = steps_entering 1 (changing true) w
  steps_route schema w = steps_entering 1 describing w
  steps_route no_endpoint w = steps_answered 7 _ _
  steps_route assets w = steps_answered 7 _ _

  -- A request that runs alone is answered within seven steps, with the response and the state that
  -- `serve` computes at once, whatever it is and whatever its calls meet.
  steps-serve :
      (w : World)
      → steps lib p m c q 7 (begin lib p m c q) w
        ≡ (answered (serve lib p m c q w).0, (serve lib p m c q w).1)
  unfolding begin serve
  steps-serve w = elim (Option-cases (refusal lib q)) [
    | inl n ↦ rw n (elim (Option-cases (lib.mux patterns q.method q.path)) [
      | inl u ↦ rw u (steps_answered 7 _ _)
      | inr (route, s) ↦ rw s (steps_route route w)
    ])
    | inr (e, s) ↦ rw s (steps_answered 7 _ _)
  ]
