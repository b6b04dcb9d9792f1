-- ===== src/Web/Stages/Begins.antt =====
-- Where a request of examples/web begins: with the section that tests a session, with that of
-- `current`, or with its answer.
use pgislet.Base.{Bool-cases, Option-cases, inl, inr, ◌==◌}
use pgislet.Policy.Check.{Parser}
use pgislet.Engine.Execute.{Manager}
use pgislet.Web.Report.{Response}
use pgislet.Web.Boundary.{
  Request, Library, Route, start, end, query, reset, reseed, schema, no_endpoint, assets, patterns,
  refusal,
}
use pgislet.Web.Handlers.{Calls}
use pgislet.Web.Serve.{Decoded, bad, sql, decode}
use pgislet.Web.Stages.{
  Work, ending, describing, Progress, testing, entering, answered, route_stage, query_stage, begin,
}

module _ (lib : Library) (p : Parser) (m : Manager) (c : Calls) (q : Request)
    (P : Progress → Type 0) (tests : P testing) (enters : (k : Work) → P (entering k))
    (answers : (response : Response) → P (answered response)) where
  query_stage_cases : (o : Decoded) → P (query_stage lib p m c q o)
  query_stage_cases (bad response) = answers response
  query_stage_cases (sql s) = elim (Bool-cases (lib.trim_space s == "")) [
    | inl e ↦ rw e (answers _)
    | inr e ↦ rw e (enters _)
  ]

  route_stage_cases : (route : Route) → P (route_stage lib p m c q route)
  route_stage_cases start = tests
  route_stage_cases end = enters ending
  route_stage_cases query = query_stage_cases (decode lib q)
  route_stage_cases reset = enters _
  route_stage_cases reseed = enters _
  route_stage_cases schema = enters describing
  route_stage_cases no_endpoint = answers _
  route_stage_cases assets = answers _

  pub begin_cases : P (begin lib p m c q)
  unfolding begin
  begin_cases = elim (Option-cases (refusal lib q)) [
    | inl n ↦ rw n (elim (Option-cases (lib.mux patterns q.method q.path)) [
      | inl u ↦ rw u (answers _)
      | inr (route, s) ↦ rw s (route_stage_cases route)
    ])
    | inr (e, s) ↦ rw s (answers e)
  ]
