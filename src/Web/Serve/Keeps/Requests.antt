-- ===== src/Web/Serve/Keeps/Requests.antt =====
-- Whole requests of examples/web keep what their parts keep.
use pgislet.Base.{String, true, false, Option, none, some, Option-cases, Bool-cases, inl, inr, ◌==◌}
use pgislet.Errors.{Err}
use pgislet.Policy.Check.{Parser}
use pgislet.Engine.Types.{Islet, Db}
use pgislet.Engine.Lifecycle
use pgislet.Engine.Result.{QueryResult}
use pgislet.Engine.Execute.{Manager, execute_one}
use pgislet.Engine.Initialize.{reinitialize}
use pgislet.Web.Removal.{World, remove}
use pgislet.Web.Boundary.{
  Request, Library, Route, patterns, start, end, query, reset, reseed, schema, no_endpoint, assets,
  refusal,
}
use pgislet.Web.Seed.{seed, schema_query}
use pgislet.Web.Handlers.{Calls, end_behind, end_session}
use pgislet.Web.Serve.{
  Decoded, bad, sql, decode, run_query, query_behind, handle_query, query_result, handle_change,
  change_behind, change_result, schema_result, schema_behind, describe_schema, handle_route, serve,
}
use pgislet.Web.Serve.Keeps.{
  Keeps, Admits, behind_current-keeps, end_result-keeps, start_session-keeps,
}

module _ (p : Parser) (m : Manager) (c : Calls) (Own : String → Type 0)
    (P Reserving : World → Type 0) (keeps : Keeps p m c Own P Reserving) where
  module _ (lib : Library) where
    pub query_result-keeps :
        (w : World) (o : (Option QueryResult × Option Err) × Db)
        → P (record w { db = o.1 })
        → P (query_result lib p m c w o).1
    query_result-keeps w ((result, some e), db) r = r
    query_result-keeps w ((result, none), db) r = r

    pub change_result-keeps :
        (w : World) (o : (Islet × Option Err) × Db)
        → P (record w { db = o.1 })
        → P (change_result lib p m c w o).1
    change_result-keeps w ((next, some e), db) r = r
    change_result-keeps w ((next, none), db) r = r

    pub schema_result-keeps :
        (h : Islet) (w : World) (o : (Option QueryResult × Option Err) × Db)
        → P (record w { db = o.1 })
        → P (schema_result lib p m c h w o).1
    schema_result-keeps h w ((result, some e), db) r = r
    schema_result-keeps h w ((result, none), db) r = r

    run_query-keeps :
        (q : Request) (w : World) (o : Decoded)
        → Admits Own q.cookie w
        → P w
        → P (run_query lib p m c q w o).1
    run_query-keeps q w (bad response) own r = r
    run_query-keeps q w (sql s) own r = elim (Bool-cases (lib.trim_space s == "")) [
      | inl n ↦ rw n r
      | inr n ↦ rw n (
          behind_current-keeps p m c Own P Reserving keeps (query_behind lib p m c s) q.cookie w
            (λ key h w own r.
              query_result-keeps w (execute_one p m c.env h s w.db) (keeps.executed h s w own r))
            own r)
    ]

    handle_route-keeps :
        (route : Route) (q : Request) (w : World)
        → Admits Own q.cookie w
        → P w
        → P (handle_route lib p m c route q w).1
    unfolding handle_query handle_change describe_schema end_session
    handle_route-keeps start q w own r =
        start_session-keeps p m c Own P Reserving keeps q.cookie w own r
    handle_route-keeps end q w own r =
        behind_current-keeps p m c Own P Reserving keeps (end_behind c) q.cookie w
          (λ key h w own r.
            end_result-keeps p m c Own P Reserving keeps key w (remove c.removal h.id w.db)
              (keeps.removed h.id w own r))
          own r
    handle_route-keeps query q w own r = run_query-keeps q w (decode lib q) own r
    handle_route-keeps reset q w own r =
        behind_current-keeps p m c Own P Reserving keeps (change_behind lib p m c false) q.cookie w
          (λ key h w own r.
            change_result-keeps w (Lifecycle.reset c.env h false false w.db)
              (keeps.rebuilt h w own r))
          own r
    handle_route-keeps reseed q w own r =
        behind_current-keeps p m c Own P Reserving keeps (change_behind lib p m c true) q.cookie w
          (λ key h w own r.
            change_result-keeps w (reinitialize p m c.env c.later seed h w.db)
              (keeps.reseeded h w own r))
          own r
    handle_route-keeps schema q w own r =
        behind_current-keeps p m c Own P Reserving keeps (schema_behind lib p m c) q.cookie w
          (λ key h w own r.
            schema_result-keeps h w (execute_one p m c.env h schema_query w.db)
              (keeps.executed h schema_query w own r))
          own r
    handle_route-keeps no_endpoint q w own r = r
    handle_route-keeps assets q w own r = r

    -- A whole request keeps what its parts keep.
    pub serve-keeps :
        (q : Request) (w : World) → Admits Own q.cookie w → P w → P (serve lib p m c q w).1
    unfolding serve
    serve-keeps q w own r = elim (Option-cases (refusal lib q)) [
      | inl n ↦ rw n (elim (Option-cases (lib.mux patterns q.method q.path)) [
        | inl u ↦ rw u r
        | inr (route, s) ↦ rw s (handle_route-keeps route q w own r)
      ])
      | inr (e, s) ↦ rw s r
    ]
