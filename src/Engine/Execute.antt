-- ===== src/Engine/Execute.antt =====
-- internal/engine/execute.go: `Batch`, `checkSize`, `execute` and `localFunctions`, with the
-- connection that connection.go opens for them.
pub mod Locals
pub mod Size
pub mod Runs
pub mod Whole
pub mod Fresh
use Prim.Native.String.{len}
use pgislet.Base.{
  ℕ, suc, ◌+◌, String, Bool, true, false, not, Option, none, some, List, [], ◌∷◌, ◌++◌, length, eqb,
  ◌==◌, if◌then◌else◌,
}
use pgislet.Base.Int.{ℤ, pos, ◌-ℤ◌, ltb_ℤ}
use pgislet.Base.Dict.{Dict, lookup, insert}
use pgislet.Config.{Config}
use pgislet.Errors.{
  Err, Result, ok, err, other, sentinel, wrapped, sql_too_large, stale_generation, policy,
  runtime_connection, wrap, classify, set_statement,
}
use pgislet.Policy.Check.{Parser, check}
use pgislet.Engine.Types.{Islet, Metadata, Db}
use pgislet.Engine.Exec.{
  Env, Call, begin_tx, dependencies, connect, enter_islet, finish_islet, Tx, Exec, ◌>>=◌, ◌>>◌,
  pure, raise, lift, raise_if, query_work, call, change, on_error, classifying, commit_with,
  transaction,
}
use pgislet.Engine.Gateway.{exception, enter, finish, lookup_islet}
use pgislet.Engine.Cleanup.{check_dependencies}
use pgislet.Engine.Result.{QueryResult, Budget, Answered, query}

-- What `execute` uses of a manager: its limits, and the names of the routines of pg_catalog.
pub record Manager : Type 0 where
  pub config : Config
  pub reserved : Dict Bool

-- The loop of `checkSize`.
unfoldable pub check_sizes : ℤ → ℕ → List String → Result (Unit {0})
check_sizes most size [] = ok tt
check_sizes most size (sql ∷ rest) =
    if ltb_ℤ (most -ℤ pos size) (pos (len sql))
    then err (sentinel sql_too_large)
    else check_sizes most (size + len sql) rest

unfoldable pub check_size : Config → List String → Result (Unit {0})
unfolding check_sizes
check_size cfg statements =
    if ltb_ℤ cfg.max_batch_statements (pos (length statements))
    then err (wrap sql_too_large (other "batch statement limit"))
    else check_sizes cfg.max_sql_bytes 0 statements

-- The server's answer to the credentials of `runtimeConfig`.
abbrev pub authenticate : Metadata → Db → Result (Unit {0} × Db)
authenticate md w = elim (lookup md.role w.roles) [
  | none ↦ exception "28P01" "password authentication failed"
  | some password ↦
      if password == md.password
      then ok (tt, w)
      else exception "28P01" "password authentication failed"
]

-- `m.connectRuntime`, with the fault of the call for every other error of the connection.
unfoldable pub connect_runtime : Env → Metadata → Exec (Unit {0})
connect_runtime env md =
    on_error (λ e. raise (wrap runtime_connection (classify e)))
      (call env connect (authenticate md))

-- `for name := range m.reserved { names[name] = false }`.
pub reserved_names : Dict Bool → Dict Bool → Dict Bool
reserved_names [] names = names
reserved_names ((name, _) ∷ rest) names = reserved_names rest (insert name false names)

-- The loop over the rows: a catalog name is not made local.
pub add_routines : Dict Bool → List String → Dict Bool → Dict Bool
add_routines reserved [] names = names
add_routines reserved (name ∷ rest) names =
    add_routines reserved rest
      (elim (lookup name reserved) [ some _ ↦ names | none ↦ insert name true names ])

-- `m.localFunctions`, for the routine names that the query finds in the schema.
unfoldable pub local_functions : Dict Bool → List String → Dict Bool
unfolding reserved_names add_routines
local_functions reserved found = add_routines reserved found (reserved_names reserved [])

-- The results so far, and the error that ended the batch.
abbrev pub Outcome : Type 0
Outcome = List QueryResult × Option Err

-- The effect of one statement that the server accepted.
abbrev pub ran : String → String → Db → Db
ran schema sql w = elim (lookup schema w.schemas) [
  | none ↦ w
  | some done ↦ record w { schemas = insert schema (done ++ sql ∷ []) w.schemas }
]

abbrev pub budget : Manager → Budget
budget m = record { rows_left = m.config.max_rows; bytes_left = m.config.max_result_bytes }

-- The token that goes to `enter`: the registry's, "" for none, while initializing.
abbrev pub entry_token : Metadata → Bool → Option String
entry_token md true = some md.token
entry_token md false = none

abbrev pub enter_call : Metadata → Option String → Db → Result (Unit {0} × Db)
enter_call md token w = elim (enter w md.role md.id md.generation token) [
  | err e ↦ err e
  | ok _ ↦ ok (tt, w)
]

-- The activation of an islet behind the statements that initialize it.
abbrev pub activate : Env → Metadata → Bool → Exec (Option Err)
activate env md false = pure none
activate env md true =
    on_error (λ e. pure (some (classify e)))
      (call env finish_islet (finish env.now md.role md.id md.generation (some md.token)) >>= λ _.
        pure none)

abbrev pub commit_unless : Env → Option Err → List QueryResult → Exec Outcome
commit_unless env (some e) results = pure (results, some e)
commit_unless env none results = commit_with env results

-- `execute` behind the loop: an error of a statement or of the activation comes with the results.
unfoldable pub complete : Env → Metadata → Bool → Outcome → Exec Outcome
complete env md initializing (results, some e) = pure (results, some e)
complete env md initializing (results, none) = do
  refused ← activate env md initializing
  commit_unless env refused results

module _ (p : Parser) (m : Manager) (env : Env) (md : Metadata) where
  -- The body of the loop of `execute` up to the query: what is refused there ends the batch.
  unfoldable pub admit : ℕ → String → Option Err
  admit i sql = elim (env.routines i) [
    | err e ↦ some (classify e)
    | ok found ↦ elim (check p md.schema sql (local_functions m.reserved found)) [
      | err e ↦ some (wrapped policy e (pos i))
      | ok _ ↦ none
    ]
  ]

  -- The loop over the statements, from number `i`.
  unfoldable pub run_statements : ℕ → List String → Budget → List QueryResult → Db → Outcome × Db
  unfolding admit
  run_statements i [] b results w = ((results, none), w)
  run_statements i (sql ∷ rest) b results w = elim (admit i sql) [
    | some e ↦ ((results, some e), w)
    | none ↦
        (let a = query (env.reply i) b in
          let results' = results ++ a.result ∷ [] in
          let next = run_statements (suc i) rest a.left results' (ran md.schema sql w) in
          elim a.error [
            | some e ↦ ((results', some (set_statement i (classify e))), w)
            | none ↦ next
          ])
  ]

  abbrev pub statements_in_tx : List String → Exec Outcome
  statements_in_tx statements t =
      let (o, w) = run_statements 0 statements (budget m) [] t.work in (ok o, record t { work = w })

  -- `m.execute`.
  unfoldable pub execute : List String → Bool → Db → Outcome × Db
  unfolding complete run_statements connect_runtime
  execute statements initializing = transaction [] (do
    lift (check_size m.config statements)
    connect_runtime env md
    classifying (change env begin_tx (λ w. w))
    classifying (call env enter_islet (enter_call md (entry_token md initializing)))
    check_dependencies env
    outcome ← statements_in_tx statements
    complete env md initializing outcome)

module _ (p : Parser) (m : Manager) (env : Env) where
  abbrev pub after_lookup : Islet → List String → Db → Result Metadata → Outcome × Db
  after_lookup h statements db (err e) = (([], some e), db)
  after_lookup h statements db (ok md) =
      if not (eqb md.generation h.generation)
      then (([], some (sentinel stale_generation)), db)
      else execute p m env md statements false db

  abbrev pub sized : Islet → List String → Db → Result (Unit {0}) → Outcome × Db
  sized h statements db (err e) = (([], some e), db)
  sized h statements db (ok _) = after_lookup h statements db (lookup_islet env h.id db)

  -- `m.Batch`, with nothing between its lookup and its transaction; `execute` itself is stated for
  -- any metadata, so also for metadata that another manager has made stale.
  unfoldable pub batch : Islet → List String → Db → Outcome × Db
  unfolding execute
  batch h statements db = sized h statements db (check_size m.config statements)

  abbrev first_result : Outcome → Option QueryResult × Option Err
  first_result ([], e) = (none, e)
  first_result (r ∷ rs, e) = (some r, e)

  -- `m.Execute`; `none` stands for the zero `Result`.
  unfoldable pub execute_one : Islet → String → Db → (Option QueryResult × Option Err) × Db
  unfolding batch
  execute_one h sql db = let (o, db') = batch h (sql ∷ []) db in (first_result o, db')
