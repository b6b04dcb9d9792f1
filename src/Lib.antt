-- ===== src/Lib.antt =====
-- pgislet hands out isolated workspaces ("islets") in one PostgreSQL database, and runs their
-- untrusted SQL. This library models its core.
--
-- The program. A manager (internal/engine) keeps a registry, the table pgislet_internal.islets: one
-- row for each islet, with its dedicated schema and runtime role, a state, and a generation that a
-- handle must match. Management operations (`Create`, `Reset`, `Recover`, `Delete`, and the two that
-- initialize) are transactions of the management role. SQL of a caller runs in a transaction of the
-- islet's own role, which first calls the SQL function pgislet_api.enter, and only after
-- internal/policy has admitted each statement; the answers are read within budgets of rows and bytes
-- that the statements of a batch share.
-- Two programs stand on the package: examples/web, an HTTP server that keeps an islet for each browser
-- session and removes it when the session expires, and examples/playground, a run of the operations.
--
-- The files.
-- - Base: shared names; Base/Dict a Go map with string keys, Base/Int the signed integers, Base/Lists
--   and Base/Tests lists and Boolean tests over the native numbers.
-- - Errors: internal/engine/errors.go. The tree of wrapped errors, `errors.Is` and `errors.As` on it,
--   `wrap`, `classify` and `pgconnError`. Errors/Classify has its theorems.
-- - Config: internal/engine/config.go. Config/Limits has its theorems.
-- - Policy: internal/policy/policy.go. Policy/Json is the decoded tree, Policy/Sets the four tables,
--   Policy/Check the checker with its methods `function` and `definition` in Policy/Routines.
--   Policy/Admitted is the specification; Policy/Everywhere, Policy/Calls, Policy/Guards, Policy/Kinds,
--   Policy/Options and Policy/Sound relate the checker to it.
-- - Engine/Types: internal/engine/types.go, registry.go and the table of bootstrap.go; the record `Db`
--   is the part of the database that the operations change.
-- - Engine/Exec: transactions. `Exec` passes on the committed and the uncommitted database; `commit` is
--   that of connection.go. Engine/Exec/Meets has the rules for postconditions.
-- - Engine/Gateway: the SQL functions enter and finish of bootstrap.go, `lookup` and `readMetadata`.
-- - Engine/Cleanup: dependencies.go, and what the transactions of lifecycle.go share.
-- - Engine/Lifecycle: `create`, `reset` and `Delete` of lifecycle.go. Its children Create, Reset and
--   Delete are about the outcomes of each, Early about early returns, Calm about a server without faults.
-- - Engine/Result: `query` of result.go; its children are about its budgets.
-- - Engine/Execute: execute.go and `connectRuntime`. Size, Runs, Whole and Fresh are about `checkSize`,
--   the loop over the statements, `execute` and `Batch`.
-- - Engine/Initialize: `initialize` and its callers; Engine/Initialize/Fence is about the row.
-- - Engine/Registry: what the registry promises of every islet; Engine/Registry/Reach is about all
--   databases that the operations reach, a step for each transaction, Engine/Registry/Grows about the
--   generations, Engine/Registry/Isolation about the other islets. Engine/Registry/Closed: predicates
--   on the database that the transactions for some islets keep, for the operations made of several;
--   Engine/Registry/Alone is the one that leaves an islet alone.
-- - Engine/Bootstrap: `bootstrap` of bootstrap.go and `New` of manager.go; the record `Catalog` is what
--   the transaction sets up. Engine/Bootstrap/Outcome is about its ends, Engine/Bootstrap/Names about the
--   names that it reserves, Engine/Bootstrap/Reserved about a manager of `New`, with Engine/Execute/Locals on `localFunctions`.
-- - Engine/Identifiers: identifiers.go, on lists of bytes; Literal and Hex are about the two texts.
-- - Engine/Runtime: `runtimeConfig` of connection.go and the parameters of the pool; Engine/Runtime/Limits
--   is about their timeouts.
-- - Engine/Among: `initialize` while other managers work between its calls; Engine/Among/Settled is about
--   what it leaves.
-- - Engine/Workspaces: the package as a keeper of workspaces. Engine/Workspaces/Spec is the abstract map
--   and its moves, View the map of a database, Changes and Refines relate the transactions to moves,
--   Lasting has what lasts over any number of them, and Stale is about handles that a later generation
--   has replaced.
-- - Connection: internal/connection/dsn.go; Connection/Accepted is about what `BuildDSN` accepts.
-- - Web/Report: examples/web/errors.go and the responses; Web/Report/Status is about them.
-- - Web/Boundary: `ServeHTTP` and the routes of server.go; Web/Boundary/Guarded is about what reaches a
--   handler.
-- - Web/Sessions: the sessions of sessions.go with one function for each section under the mutex.
--   Web/Sessions/Capacity has a step for each section, so that requests and cleanups interleave;
--   Web/Sessions/Entries is about what expires.
-- - Web/Removal: `remove` and `Cleanup`; Gone, Absent, Calm, Each and Cleaned are about them;
--   Web/Removal/Steps is `remove` call by call, and Calls relates the calls to it.
-- - Web/Handlers: `current`, `start` and `end`; Web/Handlers/Outcomes is about their ends. Web/Serve: the
--   handlers of handlers.go, `decode`, and a whole request. Web/Serve/Keeps passes a predicate that each
--   part keeps on to whole requests, Web/Serve/Moves one on the database, Web/Serve/Owned one on the database
--   and the islets of the sessions (Web/Sessions/Owned); Web/Serve/Sections, Web/Serve/Registry and
--   Web/Serve/Isolation apply them.
-- - Web/Stages: a request step by step, where a step is one section under the mutex or one call of the
--   manager. Alone relates the steps to Web/Serve; Begins, Owned and Sections
--   are about what a step keeps.
--   Web/Schedule: the requests that net/http serves on goroutines of their own and the cleanups, whose
--   steps interleave in any order. Its child Alone is about a cleanup by itself, Held passes a predicate
--   on to all interleavings, Isolation and Sections are about the other islets and the sessions.
-- - Web/Schema: the loop of the handler `schema`; Web/Seed: seed.go.
-- - Web/Shutdown: the loop of main.go and the shutdown behind it. Ends is about its end, Held passes a
--   predicate on to whole runs, Registry and Isolation apply it.
-- - Playground: examples/playground/playground.go.
-- - Launch: what both main.go do around their work, a container and managers with their deferred ends;
--   Launch/Web and Launch/Playground are the two runs, Launch/Nested and Launch/Ends about their ends.
-- - Tests: the theorems at concrete inputs, and runs of the operations.
--
-- Choices. The driver and the server are the record `Env`: it may fail any call of an operation with
-- any error, and says what the commit returns and whether a commit that returned an error was applied
-- all the same. Each call has a place of its own, since each runs at most once in a transaction and in
-- `initialize`; an initialization meets an environment of its own, behind that of the creation or the
-- reset before it. What
-- the server itself refuses (a name that is taken or missing, a wrong password) is computed from the
-- database. A schema is the list of the statements that were run in it. The parser of PostgreSQL and
-- encoding/json are the record `Parser`. Numbers of the source's signed types are integers without
-- bound, generations and times natural numbers: the limits of a configuration are far below the bounds
-- of the machine's integers. Recursion is on the structure of the data, but for the bodies of routines,
-- where it is on the levels left: 17, since the source refuses a depth above 16. The Go map of the
-- checker's routine names is passed on from call to call, as the source's callers share it; the order in
-- which Go visits an object is the order of its members here, which is arbitrary.
--
-- A request of examples/web meets the record `Calls`: the clock, the environments of its operations and
-- the random token. net/http, net, net/url, strings and encoding/json are the record `Library`, net and
-- net/url of the connection strings the record `Net`. The order in which Go ranges over the sessions is
-- that of the association list, which is arbitrary. Goroutines are the tasks of Web/Schedule: net/http
-- starts one for each request, and one step of one of them happens at a time, in any order.
--
-- Not modelled: what other managers change between two transactions of one operation, but for
-- `initialize` (in Web/Stages a call of the manager is one step); contexts and timeouts, other than as
-- errors of calls; the texts of SQL beyond their effect on the registry, the schemas and the roles; the
-- fixed headers of a response; the quoting of identifiers, a call of pgx; `rollback` and `closeRuntime`,
-- whose errors are ignored; what the two programs print; the aliases of pgislet.go.
pub mod Base
pub mod Errors
pub mod Config
pub mod Policy
pub mod Engine
pub mod Connection
pub mod Web
pub mod Playground
pub mod Launch
pub mod Tests
