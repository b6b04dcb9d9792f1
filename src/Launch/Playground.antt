-- ===== src/Launch/Playground.antt =====
-- `run` of examples/playground/main.go, and the managers of `Run` in playground.go. A command line that
-- the flags refuse ends the process before.
use pgislet.Base.{String, Option, none, some, []}
use pgislet.Base.Int.{pos}
use pgislet.Config.{Config}
use pgislet.Errors.{Err}
use pgislet.Policy.Check.{Parser}
use pgislet.Engine.Types.{Db}
use pgislet.Engine.Execute.{Manager}
use pgislet.Engine.Bootstrap.{Catalog, Setup, new_manager}
use pgislet.Playground.{Plays, Played, run}
use pgislet.Launch.{Launched, Source, with_manager, with_database}

-- What the calls of a run meet; the two managers are made one after the other.
pub record Performance : Type 0 where
  pub source : Source
  pub parsed : Option Err
  pub pooled : Option Err
  pub setup : Setup
  pub node_pooled : Option Err
  pub node_setup : Setup
  pub plays : Plays

pub record Stage : Type 0 where
  pub catalog : Catalog
  pub played : Option Played
  pub db : Db

-- `pgislet.Config{DSN: dsn}`.
abbrev pub play_config : String → Config
play_config dsn = record {
  dsn = dsn;
  operation_timeout = pos 0;
  statement_timeout = pos 0;
  lock_timeout = pos 0;
  idle_transaction_timeout = pos 0;
  max_sql_bytes = pos 0;
  max_batch_statements = pos 0;
  max_rows = pos 0;
  max_result_bytes = pos 0;
}

module _ (p : Parser) (s : Performance) where
  abbrev pub perform : Stage → Manager → Manager → Launched Stage
  perform stage m node =
      let (played, db) = run p m node s.plays stage.db in
      record {
        exit = some played.error;
        acts = [];
        state = record stage { played = some played; db = db };
      }

  abbrev pub with_node : Stage → String → Manager → Launched Stage
  with_node stage dsn m =
      let (node, catalog) =
        new_manager s.node_setup (play_config dsn) s.parsed s.node_pooled stage.catalog in
      let stage' : Stage = record stage { catalog = catalog } in
      with_manager 1 node stage' (perform stage' m)

  -- `Run`.
  abbrev pub open_stage : Stage → String → Launched Stage
  open_stage stage dsn =
      let (m, catalog) = new_manager s.setup (play_config dsn) s.parsed s.pooled stage.catalog in
      let stage' : Stage = record stage { catalog = catalog } in
      with_manager 0 m stage' (with_node stage' dsn)

  -- `run` of main.go.
  unfoldable pub run_playground : Catalog → Db → Launched Stage
  run_playground catalog db =
      let stage : Stage = record { catalog = catalog; played = none; db = db } in
      with_database s.source stage (open_stage stage)
