-- ===== src/Lib.antt =====
-- A verification library for lumn, a runner of workflows written in Lua: the command line program
-- `lumn`, the daemon `lumnd`, and the SQLite store behind it.
--
-- The command line parses its arguments, selects a workflow on the list that the daemon sends, and
-- calls the daemon. The daemon validates a workflow's triggers, registers the workflow, and turns
-- every firing of a trigger into an execution in the store's queue; one worker per workflow claims
-- executions from the queue, runs them and stores their reports. Retention deletes old executions.
-- Every part returns errors of package errkind, which decide the exit status.
--
-- Files, and the code that each one models:
--   Base             shared names, lists measured by native numbers, sorting, texts, Go's results
--   Errkind          pkg/errkind/errkind.go: codes, the error type, WithContext, ExitStatus, Format
--   Report           the reports of internal/executor/executor.go and internal/engine/engine.go
--   Store            internal/store/store.go: rows (internal/store/sqlc/models.go), row conversions
--   Store.Workflows  the table `workflows`: UpsertWorkflow, DeleteWorkflow, SetWorkflowStatus, lists
--   Store.Triggers   the table `triggers`: ReplaceWorkflowTriggers, ListTriggers, SetTriggerRuntime;
--                    Stored holds the proofs
--   Store.Queue      `executions` and `queue`: CreateQueuedExecution, ClaimNextQueueItem,
--                    CompleteExecution, CancelQueuedExecutions, MarkStaleRunningExecutions and the
--                    queries; Fifo, Enqueue, Valid, Cancel and Stale hold the proofs
--   Store.Selector   ResolveWorkflowSelector, with SQLite's LIKE; Latest and Prefix hold the proofs
--   Store.Retention  ApplyRetention; Age, Bounds and Keeps hold the proofs
--   Store.History    sequences of operations on the tables
--   Value            Go values of type `any`, for configurations
--   Trigger          internal/daemon/daemon.go: parseStrictDuration, parseSchedulerConfig,
--                    parseWebhookConfig, parseFileWatcherConfig, Match, validateTriggers; Duration
--                    and Validate hold the proofs
--   Api              internal/daemonapi/types.go: what the daemon sends to its clients
--   Cli.Args         internal/cli/cli.go: extractTargetFlag and the parsers of the commands; Flags
--                    and Names hold the proofs, Names with splitNameVersion
--   Cli.Select       internal/cli/cli.go: selectWorkflowID, requireDaemonSelector
--   Client           internal/daemon/client.go: the requests of the client, over the parameter
--                    `Transport`; Client.Paths has DefaultPaths of internal/daemon/paths.go, and
--                    Client.Served the requests on the handlers of Daemon.Http
--   Cli.Commands     internal/cli/cli.go: what the commands print, in the record `Printed`. Reach has
--                    the commands on workflows of the daemon, Runs those on files, Service those on
--                    the daemon, and Main has Run; Performs, Fallback, Unlisted and Reads hold
--                    the proofs
--   Webhooks         internal/daemon/daemon.go: webhookRegistry; Owners holds the proofs
--   Daemon           internal/daemon/daemon.go: the state Daemon and managedWorkflow, resolveWorkflow,
--                    getManagedWorkflow, enqueueExecution, publishWaiter, deleteWaiter, the start of
--                    ExecWorkflow, and a round of workerLoop; Admission and Worker hold the proofs
--   Daemon.Lifecycle startTrigger and its cases, activateWorkflow, finalizeWorkflowStop; Missed,
--                    Stopped, Refused, Rolling and Unwound hold the proofs
--   Daemon.Control   StopWorkflow, DeleteWorkflow, StartWorkflow, RestartWorkflow and
--                    restoreActiveWorkflows; Rows, Started and Deleted hold the proofs
--   Daemon.Shutdown  Shutdown up to the closing of the servers; Stopped holds the proofs
--   Daemon.Bundles   ListWorkflowResponses, WorkflowDetails, and internal/daemon/api.go:
--                    summarizeWorkflow, summarizeTriggers; Listed holds the proofs
--   Daemon.Http      internal/daemon/api.go: the handlers of the internal interface, and ExecWorkflow
--                    with its wait; Safe holds the proofs
--   Daemon.Sources   internal/daemon/daemon.go: ServeHTTP, a round of the loop of a schedule, and the
--                    events and timers of a file watcher; Served and Debounce hold the proofs
--   Executor         internal/executor/executor.go: normalizeTriggerData, buildCallItems and the four
--                    primitives, over the interface `Lua` to the runtime; Executor.Run has the loop of
--                    Run and its report; Counts holds the proofs
--   Lua              internal/lua/runtime.go: the references of a Runtime and its reads of tables, over
--                    the interface `Vm` to the virtual machine; Keys holds the proofs. Lua.Values has
--                    toGoValue, and Ends its proofs; Lua.Load has NewRuntime, LoadWorkflow and the
--                    errors of the machine; Lua.Modules has resolveModulePath, with its proofs; and
--                    Lua.Push has pushGoValue, over the interface `Tables`, and Fresh its proofs
--   Dag              internal/dag/dag.go: Build, and pkg/primitive/kind.go; Typed, Bind and Built hold
--                    the proofs
--   Engine           internal/engine/engine.go: the resolution of targets over a file system given as
--                    `Files`; Workspace and Selector hold the proofs. Engine.Normal has the
--                    normalization of configurations, Engine.Load the loading of targets and
--                    definitions, with proofs in Declared, and Engine.Run RunTargetWithOptions
--   Config           internal/daemon/config.go: LoadConfig; Sane and Order hold the proofs
--   Tests            the theorems at concrete inputs
--
-- The state of the store is one record, `Db`, with a list of rows per table in the order of their
-- insertion and the last id that each AUTOINCREMENT column gave out. An operation takes the time that
-- it reads from the clock as an argument and returns the database that it leaves together with its
-- result. A transaction that is rolled back leaves the database as it was. SQL statements are the ones
-- of internal/store/sqlc and of store.go; ON DELETE CASCADE and the unique index on name and version
-- are those of sql/migrations. A query with ORDER BY is a sort, or the choice of the first row where
-- it has LIMIT 1; a query that states no order gives its rows in the order of the table.
--
-- Assumptions. A time is a number of nanoseconds, with 0 for Go's zero time. Open sets the PRAGMA
-- foreign_keys on one connection of the pool; the field `foreign_keys` of `Db` says whether the
-- connection of a statement has it, and with it every check and cascade of a foreign key is made or
-- left out. The operator LIKE is that of SQLite. Errors of the database driver (a full disk, a locked
-- file) are left out: the errors are those of constraints, of package encoding/json and of the code
-- itself. Package encoding/json, package time, package robfig/cron, package os and package
-- path/filepath are parameters: `Codec` in Store and `Env` in Trigger. All recursion is structural but
-- for two loops on fuel: inferWorkspaceDir, which gets one round for every character of its path and
-- one more, and toGoValue, for which one round more than there are tables is enough. Both are shown to
-- end.
--
-- The state of the daemon is the record `Daemon`, and a request or a round of the worker is a function
-- on it that reads the clock once. The goroutines that run beside a request are seen as the sequence
-- of such functions; where waitIdle waits for them, what they do meanwhile is the parameter `others`.
-- The goroutine that a scheduler or a file watcher starts is its handle, and package fsnotify and the
-- format of times are parameters in `Host`. The engine is the parameters `load` (LoadDefinition) and
-- `run` (RunTargetWithOptions), and the hash of workflowIDFor is the parameter `workflow_id_for`.
-- enqueueExecution counts the queue and inserts with no lock in between; here both are one step, so
-- firings that overlap there are left out. A request waits on the entry of the map that has its
-- workflow's id, which is the one that it holds as long as no other request replaces it; two requests
-- that stop one workflow at the same time are left out. A channel of a waiter is its id among
-- `waiters`, and what was sent into it stands in `delivered`.
--
-- The file system and the virtual machine are read-only while a workflow is loaded: a metamethod that
-- changes tables during a read is left out. A field of a value that is no table has some value in
-- `Vm`, where go-lua can raise an error. What comes of the run of a file is the parameter `run_file`.
--
-- The commands and the client work on a state `W` of what the client reaches, which is the daemon
-- where a transport decodes the path of every request and hands it to the handlers (`Reaches`). An
-- answer is its status and its decoded body; the redirections of package net/http for paths that are
-- not clean are left out. A page of help, a table and a report are printed as such, without their
-- layout.
--
-- Not modelled: the functions that the sandbox installs into the virtual machine, the calls of Lua
-- functions (the interface `Lua` of the executor, internal/lua), the turns that the daemon's
-- goroutines take, the start and the end of the servers, the sockets of transport_unix.go and
-- transport_windows.go, the texts of the help pages, and the two main programs. They are input and
-- output, or they rest on packages outside the repository.
pub mod Base
pub mod Errkind
pub mod Report
pub mod Store
pub mod Value
pub mod Trigger
pub mod Api
pub mod Client
pub mod Cli
pub mod Webhooks
pub mod Lua
pub mod Dag
pub mod Executor
pub mod Engine
pub mod Config
pub mod Daemon
pub mod Tests
