-- ===== src/Launch/Ends.antt =====
-- How the runs of both programs of examples end.
use mathlib.Core.List.{append-nil}
use pgislet.Base.{
  String, true, false, ◌≡◌, refl, sym, ap, ◌∙◌, ◌⊎◌, inl, inr, Option, none, some, List, [], ◌∷◌,
  ◌==◌, eq_iff, arith, Bool-cases,
}
use pgislet.Errors.{Err, Result, ok, err}
use pgislet.Policy.Check.{Parser}
use pgislet.Engine.Types.{Db}
use pgislet.Engine.Execute.{Manager}
use pgislet.Engine.Bootstrap.{Catalog, new_manager}
use pgislet.Web.Boundary.{Library}
use pgislet.Web.Shutdown.{run_server, end_run}
use pgislet.Web.Shutdown.Ends.{HasStop, loop_ends}
use pgislet.Playground.{run}
use pgislet.Launch.{Act, opened, started, terminated, closed, listening, Launched}
use pgislet.Launch.Nested.{
  closes, OnlyListens, IsTidy, Any, InManager, returned-IsTidy, with_manager-IsTidy,
  with_database-IsTidy,
}
use pgislet.Launch.Web.{
  Start, Site, serve_site, open_site, with_assets, with_host, with_flags, is_foreign, site_config,
  run_web,
}
use pgislet.Launch.Playground.{
  Performance, Stage, perform, with_node, open_stage, play_config, run_playground,
}

-- A run returns; what it has brought up is down again, the last first, and it has listened on `a` at
-- most, and only while its manager was open.
pub record EndsWell {S : Type 0} (a : String) (l : Launched S) : Type 0 where
  pub result : Option Err
  pub ended : l.exit ≡ some result
  pub nested : closes [] l.acts ≡ true
  pub listens : OnlyListens a l.acts

IsTidy-EndsWell : {S : Type 0} {a : String} {l : Launched S} → IsTidy Any a l → EndsWell a l
unfolding closes
IsTidy-EndsWell {l = l} t = record {
  result = t.result;
  ended = t.ended;
  nested = ap (closes []) (sym (append-nil l.acts)) ∙ t.neutral [] [] tt;
  listens = t.listens;
}

within_manager : {S : Type 0} {a : String} {l : Launched S} → IsTidy Any a l → IsTidy InManager a l
within_manager t = record {
  result = t.result;
  ended = t.ended;
  neutral = λ up rest top. t.neutral up rest tt;
  listens = t.listens;
}

listens_within :
    (a : String) (up rest : List Act)
    → InManager up
    → closes up (listening a ∷ rest) ≡ closes up rest
unfolding closes
listens_within a (opened i ∷ up) rest top = refl
listens_within a (started ∷ up) rest top = elim top [ ]
listens_within a (terminated ∷ up) rest top = elim top [ ]
listens_within a (closed i ∷ up) rest top = elim top [ ]
listens_within a (listening b ∷ up) rest top = elim top [ ]
listens_within a [] rest top = elim top [ ]

module _ (lib : Library) (p : Parser) (s : Start) where
  -- The host of the address is the local one.
  abbrev pub IsLocalHost : Type 0
  IsLocalHost =
      (host : String) × (s.host ≡ ok host) × ((host ≡ "localhost") ⊎ (lib.is_loopback host ≡ true))

  module _ (stops : HasStop s.events) where
    served-IsTidy :
        (site : Site) (m : Manager) → IsTidy InManager s.addr (serve_site lib p s site m)
    unfolding run_server
    served-IsTidy site m =
        let (o, e) = loop_ends lib p m s.events site.world stops in
        rw e (record {
          result = (end_run s.is_closed s.shutdown s.removals s.now o).error;
          ended = refl;
          neutral = listens_within s.addr;
          listens = (refl, tt);
        })

    open_site-IsTidy : (site : Site) (dsn : String) → IsTidy Any s.addr (open_site lib p s site dsn)
    open_site-IsTidy site dsn =
        let (m, catalog) = new_manager s.setup (site_config dsn) s.parsed s.pooled site.catalog in
        let site' : Site = record site { catalog = catalog } in
        with_manager-IsTidy s.addr 0 m site' (serve_site lib p s site') (served-IsTidy site')

    with_assets-IsTidy :
        (site : Site) (e : Option Err) → IsTidy Any s.addr (with_assets lib p s site e)
    with_assets-IsTidy site (some e) = returned-IsTidy s.addr _ site
    with_assets-IsTidy site none =
        with_database-IsTidy s.addr site (open_site lib p s site) (open_site-IsTidy site) s.source

    abbrev Outcome : Launched Site → Type 0
    Outcome l = EndsWell s.addr l × ((l.acts ≡ []) ⊎ IsLocalHost)

    stopped_early :
        (e : Option Err) (site : Site) → Outcome (record { exit = some e; acts = []; state = site })
    stopped_early e site = (IsTidy-EndsWell (returned-IsTidy s.addr e site), inl refl)

    local_host :
        (host : String)
        → is_foreign lib p s host ≡ false
        → (host ≡ "localhost") ⊎ (lib.is_loopback host ≡ true)
    local_host host h = elim (Bool-cases (host == "localhost")) [
      | inl e ↦ inl ((eq_iff host "localhost").0 e)
      | inr n ↦ inr (ground (arith, h, n))
    ]

    with_host-ends :
        (site : Site) (o : Result String) → s.host ≡ o → Outcome (with_host lib p s site o)
    with_host-ends site (err e) q = stopped_early _ site
    with_host-ends site (ok host) q = elim (Bool-cases (is_foreign lib p s host)) [
      | inl far ↦ rw far (stopped_early _ site)
      | inr near ↦
          rw near (
            IsTidy-EndsWell (with_assets-IsTidy site s.assets),
            inr (host, q, local_host host near),
          )
    ]

    with_flags-ends : (site : Site) (e : Option Err) → Outcome (with_flags lib p s site e)
    with_flags-ends site (some e) = stopped_early _ site
    with_flags-ends site none = with_host-ends site s.host refl

    -- A run of the web program whose server is stopped returns, whatever fails before and in it: its
    -- manager is closed and then its container terminated, each if it was brought up, and it listens on
    -- the address of its arguments only, while its manager is open. Unless the host of that address is
    -- "localhost" or a loopback address, nothing is brought up.
    pub run_web-ends :
        (catalog : Catalog) (db : Db)
        → EndsWell s.addr (run_web lib p s catalog db)
          × (((run_web lib p s catalog db).acts ≡ []) ⊎ IsLocalHost)
    unfolding run_web
    run_web-ends catalog db = with_flags-ends _ s.flags

module _ (p : Parser) (s : Performance) (a : String) where
  performed-IsTidy :
      (stage : Stage) (m node : Manager) → IsTidy InManager a (perform p s stage m node)
  performed-IsTidy stage m node = record {
    result = (run p m node s.plays stage.db).0.error;
    ended = refl;
    neutral = λ up rest top. refl;
    listens = tt;
  }

  with_node-IsTidy :
      (stage : Stage) (dsn : String) (m : Manager) → IsTidy Any a (with_node p s stage dsn m)
  with_node-IsTidy stage dsn m =
      let (node, catalog) =
        new_manager s.node_setup (play_config dsn) s.parsed s.node_pooled stage.catalog in
      let stage' : Stage = record stage { catalog = catalog } in
      with_manager-IsTidy a 1 node stage' (perform p s stage' m) (performed-IsTidy stage' m)

  open_stage-IsTidy : (stage : Stage) (dsn : String) → IsTidy Any a (open_stage p s stage dsn)
  open_stage-IsTidy stage dsn =
      let (m, catalog) = new_manager s.setup (play_config dsn) s.parsed s.pooled stage.catalog in
      let stage' : Stage = record stage { catalog = catalog } in
      with_manager-IsTidy a 0 m stage' (with_node p s stage' dsn)
        (λ m. within_manager (with_node-IsTidy stage' dsn m))

  -- A run of the playground returns, whatever fails before and in it: the managers that were made, each
  -- with its number, are closed once, the second before the first, and then the container is terminated
  -- if it was started; whichever address `a` is, it listens on no other.
  pub run_playground-ends :
      (catalog : Catalog) (db : Db) → EndsWell a (run_playground p s catalog db)
  unfolding run_playground
  run_playground-ends catalog db =
      IsTidy-EndsWell (with_database-IsTidy a _ (open_stage p s _) (open_stage-IsTidy _) s.source)
