-- ===== src/Store/Queue.antt =====
-- store.go: the tables `executions` and `queue` (sql/queries/executions.sql, queue.sql). An execution
-- is created queued, claimed by the worker of its workflow, and completed or cancelled.
pub mod Fifo
pub mod Enqueue
pub mod Valid
pub mod Cancel
pub mod Stale
use lumn.Base.{
  ℕ, suc, String, Bool, true, false, not, ◌&&◌, ◌||◌, Option, none, some, List, [], ◌∷◌, ◌++◌, map,
  ltb, leb, ◌==◌, ◌=ₛ◌, Result, ok, err, if◌then◌else◌, select, find, update, exists, length,
}
use lumn.Report.{Report, ReportError}
use lumn.Store.Workflows.{may_refer}
use lumn.Store.{
  Db, Op, Codec, StoreError, Workflow, ExecutionRow, QueueRow, Execution, QueueItem, from_queue_row,
  from_execution_row, marshal_failed, foreign_key_violation, status_queued, status_running,
  status_error, last_moment, newer,
}

-- `QueueCount`.
unfoldable pub queue_count : Db → String → ℕ
queue_count db workflow_id = length (select (λ q. q.workflow_id =ₛ workflow_id) db.queue)

-- The row that `CreateExecution` inserts.
abbrev pub new_execution : ℕ → Db → String → String → ExecutionRow
new_execution now db workflow_id trigger_type = record {
  id = suc db.execution_seq;
  workflow_id = workflow_id;
  trigger_type = trigger_type;
  status = status_queued;
  queued_at = now;
  started_at = none;
  finished_at = none;
  report = none;
}

abbrev pub new_queue_row : ℕ → Db → String → String → String → QueueRow
new_queue_row now db workflow_id trigger_type payload = record {
  id = suc db.queue_seq;
  execution_id = suc db.execution_seq;
  workflow_id = workflow_id;
  trigger_type = trigger_type;
  trigger_context = payload;
  queued_at = now;
}

-- Both insertions.
abbrev pub enqueued : ℕ → Db → String → String → String → Db
enqueued now db workflow_id trigger_type payload = record db {
  executions = db.executions ++ new_execution now db workflow_id trigger_type ∷ [];
  queue = db.queue ++ new_queue_row now db workflow_id trigger_type payload ∷ [];
  execution_seq = suc db.execution_seq;
  queue_seq = suc db.queue_seq;
}

-- `CreateQueuedExecution` at the time `now`.
unfoldable pub create_queued_execution :
    {Doc : Type 0} → Codec Doc → Codec Report → ℕ → String → String → Doc → Op Execution
unfolding from_execution_row
create_queued_execution json reports now workflow_id trigger_type context db =
    if may_refer db workflow_id
    then elim (json.encode context) [
      | none ↦ (db, err marshal_failed)
      | some payload ↦ (
        enqueued now db workflow_id trigger_type payload,
        from_execution_row reports (new_execution now db workflow_id trigger_type),
      )
    ]
    else (db, err foreign_key_violation)

-- `ORDER BY queued_at, id`: the first row stands before the second.
abbrev pub earlier : QueueRow → QueueRow → Bool
earlier a b = ltb a.queued_at b.queued_at || (a.queued_at == b.queued_at && ltb a.id b.id)

unfoldable pub first_of_rows : QueueRow → List QueueRow → QueueRow
first_of_rows best [] = best
first_of_rows best (row ∷ rows) = first_of_rows (if earlier row best then row else best) rows

-- `GetNextQueueItemByWorkflow`: `ORDER BY … LIMIT 1`.
unfoldable pub next_queue_row : String → List QueueRow → Option QueueRow
unfolding first_of_rows
next_queue_row workflow_id queue = elim (select (λ q. q.workflow_id =ₛ workflow_id) queue) [
  | [] ↦ none
  | row ∷ rows ↦ some (first_of_rows row rows)
]

-- `MarkExecutionRunning`.
abbrev pub mark_running : ℕ → ℕ → List ExecutionRow → List ExecutionRow
mark_running now id =
    update (λ e. e.id == id)
      λ e. record e { status = status_running; started_at = some now; finished_at = none }

-- The transaction of `ClaimNextQueueItem` on the row that it takes.
abbrev pub claimed : ℕ → QueueRow → Db → Db
claimed now row db = record db {
  queue = select (λ q. not (q.id == row.id)) db.queue;
  executions = mark_running now row.execution_id db.executions;
}

-- `ClaimNextQueueItem` at the time `now`. The context is decoded after the commit, so a row whose
-- context cannot be decoded is claimed all the same.
unfoldable pub claim_next_queue_item :
    {Doc : Type 0} → Codec Doc → ℕ → String → Op (Option (QueueItem Doc))
unfolding next_queue_row from_queue_row
claim_next_queue_item json now workflow_id db = elim (next_queue_row workflow_id db.queue) [
  | none ↦ (db, ok none)
  | some row ↦ (
    claimed now row db,
    elim (from_queue_row json row) [ ok item ↦ ok (some item) | err e ↦ err e ],
  )
]

-- The query `CompleteExecution`.
abbrev pub finish : ℕ → ℕ → String → String → List ExecutionRow → List ExecutionRow
finish now id status payload =
    update (λ e. e.id == id)
      λ e. record e { status = status; finished_at = some now; report = some payload }

-- `CompleteExecution` at the time `now`.
unfoldable pub complete_execution : Codec Report → ℕ → ℕ → String → Report → Op Unit
complete_execution reports now id status report db = elim (reports.encode report) [
  | none ↦ (db, err marshal_failed)
  | some payload ↦ (record db { executions = finish now id status payload db.executions }, ok tt)
]

-- The report that the store writes for an execution that never ran to its end.
abbrev pub aborted : String → String → String → String → Report
aborted kind name version message = record {
  workflow = name;
  version = version;
  status = status_error;
  items_in = 0;
  items_out = 0;
  errors =
      record { kind = kind; primitive = ""; position = 0; message = message; callable = "" } ∷ [];
  duration_ms = 0;
}

-- A row of a query that joins executions with their workflow.
pub record VersionRow : Type 0 where
  pub execution_id : ℕ
  pub name : String
  pub version : String

-- `ListQueuedExecutionVersionsByWorkflow`: the inner join drops a row with no workflow. The query
-- states no order; this is the order of the table.
unfoldable pub queued_versions : List Workflow → String → List QueueRow → List VersionRow
queued_versions workflows workflow_id [] = []
queued_versions workflows workflow_id (q ∷ queue) =
    let rest = queued_versions workflows workflow_id queue in
    if q.workflow_id =ₛ workflow_id
    then elim (find (λ w. w.id =ₛ q.workflow_id) workflows) [
      | none ↦ rest
      | some w ↦ record { execution_id = q.execution_id; name = w.name; version = w.version } ∷ rest
    ]
    else rest

-- The loop of `CancelQueuedExecutions`; `none` when a report cannot be marshalled.
unfoldable pub cancel_rows :
    Codec Report → ℕ → String → List VersionRow → List ExecutionRow → Option (List ExecutionRow)
cancel_rows reports now message [] executions = some executions
cancel_rows reports now message (row ∷ rows) executions =
    elim (reports.encode (aborted "generic" row.name row.version message)) [
      | none ↦ none
      | some payload ↦
          cancel_rows reports now message rows
            (finish now row.execution_id status_error payload executions)
    ]

-- `CancelQueuedExecutions` at the time `now`: one transaction.
unfoldable pub cancel_queued_executions : Codec Report → ℕ → String → String → Op (List ℕ)
unfolding queued_versions cancel_rows
cancel_queued_executions reports now workflow_id message db =
    let rows = queued_versions db.workflows workflow_id db.queue in
    elim (cancel_rows reports now message rows db.executions) [
      | none ↦ (db, err marshal_failed)
      | some executions ↦ (
        record db {
          queue = select (λ q. not (q.workflow_id =ₛ workflow_id)) db.queue;
          executions = executions;
        },
        ok (map (λ r. r.execution_id) rows),
      )
    ]

-- `ListStaleRunningExecutions`.
unfoldable pub running_versions : List Workflow → List ExecutionRow → List VersionRow
running_versions workflows [] = []
running_versions workflows (e ∷ executions) =
    let rest = running_versions workflows executions in
    if e.status =ₛ status_running
    then elim (find (λ w. w.id =ₛ e.workflow_id) workflows) [
      | none ↦ rest
      | some w ↦ record { execution_id = e.id; name = w.name; version = w.version } ∷ rest
    ]
    else rest

-- The loop of `MarkStaleRunningExecutions`: each row is a write of its own, and the first error ends
-- the loop.
unfoldable pub mark_stale_rows : Codec Report → ℕ → String → List VersionRow → Op Unit
unfolding complete_execution
mark_stale_rows reports now message [] db = (db, ok tt)
mark_stale_rows reports now message (row ∷ rows) db =
    let report = aborted "runtime" row.name row.version message in
    let (db', result) = complete_execution reports now row.execution_id status_error report db in
    elim result [ ok _ ↦ mark_stale_rows reports now message rows db' | err e ↦ (db', err e) ]

-- `MarkStaleRunningExecutions` at the time `now`.
unfoldable pub mark_stale_running_executions : Codec Report → ℕ → String → Op Unit
unfolding running_versions mark_stale_rows
mark_stale_running_executions reports now message db =
    mark_stale_rows reports now message (running_versions db.workflows db.executions) db

-- `CountFailedExecutionsSince`.
unfoldable pub count_failed_since : Db → String → ℕ → ℕ
count_failed_since db workflow_id since = length (
    select
      (λ e. e.workflow_id =ₛ workflow_id && (e.status =ₛ status_error && leb since (last_moment e)))
      db.executions)

-- `GetExecution`.
unfoldable pub get_execution : Codec Report → Db → ℕ → Result StoreError (Option Execution)
unfolding from_execution_row
get_execution reports db id = elim (find (λ e. e.id == id) db.executions) [
  | none ↦ ok none
  | some row ↦ elim (from_execution_row reports row) [ ok e ↦ ok (some e) | err e ↦ err e ]
]

unfoldable pub newest_of_rows : ExecutionRow → List ExecutionRow → ExecutionRow
newest_of_rows best [] = best
newest_of_rows best (row ∷ rows) = newest_of_rows (if newer row best then row else best) rows

-- `LatestExecution`.
unfoldable pub latest_execution : Codec Report → Db → String → Result StoreError (Option Execution)
unfolding from_execution_row newest_of_rows
latest_execution reports db workflow_id =
    elim (select (λ e. e.workflow_id =ₛ workflow_id) db.executions) [
      | [] ↦ ok none
      | row ∷ rows ↦ elim (from_execution_row reports (newest_of_rows row rows)) [
        | ok e ↦ ok (some e)
        | err e ↦ err e
      ]
    ]
