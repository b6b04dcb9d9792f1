-- ===== src/Launch/Web.antt =====
-- `run` of examples/web/main.go from its flags to its end.
use pgislet.Base.{
  ℕ, String, Bool, not, ◌&&◌, Option, none, some, List, [], ◌∷◌, ◌*◌, ◌^◌, ◌==◌, if◌then◌else◌,
}
use pgislet.Base.Int.{pos}
use pgislet.Config.{Config}
use pgislet.Errors.{Err, Result, ok, err, other, foreign}
use pgislet.Policy.Check.{Parser}
use pgislet.Engine.Types.{Db}
use pgislet.Engine.Execute.{Manager}
use pgislet.Engine.Bootstrap.{Catalog, Setup, new_manager}
use pgislet.Web.Sessions.{Server}
use pgislet.Web.Removal.{World, Removal}
use pgislet.Web.Boundary.{Library}
use pgislet.Web.Shutdown.{Event, Exit, run_server}
use pgislet.Launch.{Launched, listening, Source, returned, with_manager, with_database}

-- The arguments, and what the calls of a run meet: the error of the flags; the host of
-- net.SplitHostPort for the address; the error of os.Stat for the page; the construction of the
-- manager; and what happens while the server runs and at its end.
pub record Start : Type 0 where
  pub flags : Option Err
  pub addr : String
  pub host : Result String
  pub assets : Option Err
  pub source : Source
  pub parsed : Option Err
  pub pooled : Option Err
  pub setup : Setup
  pub events : List Event
  pub is_closed : Err → Bool
  pub shutdown : Option Err
  pub removals : String → Removal
  pub now : ℕ

pub record Site : Type 0 where
  pub catalog : Catalog
  pub world : World

-- The fields of `New` of server.go that the mutex guards.
abbrev pub new_server : Server
new_server = record { sessions = []; pending = 0 }

-- `pgislet.Config{DSN: *dsn, MaxSQLBytes: 64 << 10}`.
abbrev pub site_config : String → Config
site_config dsn = record {
  dsn = dsn;
  operation_timeout = pos 0;
  statement_timeout = pos 0;
  lock_timeout = pos 0;
  idle_transaction_timeout = pos 0;
  max_sql_bytes = pos (64 * 2 ^ 10);
  max_batch_statements = pos 0;
  max_rows = pos 0;
  max_result_bytes = pos 0;
}

module _ (lib : Library) (p : Parser) (s : Start) where
  abbrev pub serving : Site → Option Exit → Launched Site
  serving site none = record { exit = none; acts = listening s.addr ∷ []; state = site }
  serving site (some exit) = record {
    exit = some exit.error;
    acts = listening s.addr ∷ [];
    state = record site { world = exit.world };
  }

  -- From `New` of the web server to the end; the state of a run without an end is not followed.
  abbrev pub serve_site : Site → Manager → Launched Site
  serve_site site m =
      serving site (run_server s.is_closed s.shutdown s.removals s.now lib p m s.events site.world)

  abbrev pub open_site : Site → String → Launched Site
  open_site site dsn =
      let (m, catalog) = new_manager s.setup (site_config dsn) s.parsed s.pooled site.catalog in
      let site' : Site = record site { catalog = catalog } in
      with_manager 0 m site' (serve_site site')

  abbrev pub with_assets : Site → Option Err → Launched Site
  with_assets site (some e) = returned (some (foreign "frontend assets" e)) site
  with_assets site none = with_database s.source site (open_site site)

  -- `host != "localhost" && (ip == nil || !ip.IsLoopback())`.
  abbrev pub is_foreign : String → Bool
  is_foreign host = not (host == "localhost") && not (lib.is_loopback host)

  abbrev pub with_host : Site → Result String → Launched Site
  with_host site (err e) = returned (some (foreign "listen address" e)) site
  with_host site (ok host) =
      if is_foreign host
      then returned (some (other "the example listen address must be localhost or a loopback IP"))
          site
      else with_assets site s.assets

  abbrev pub with_flags : Site → Option Err → Launched Site
  with_flags site (some e) = returned (some e) site
  with_flags site none = with_host site s.host

  -- `run`, on a server that holds `catalog` and `db`.
  unfoldable pub run_web : Catalog → Db → Launched Site
  run_web catalog db =
      with_flags (record { catalog = catalog; world = record { server = new_server; db = db } })
        s.flags
