-- ===== src/Store.antt =====
-- internal/store/store.go: the rows of the four tables (sql/migrations, internal/store/sqlc), what the
-- store hands out for them, and the codec of package encoding/json. A `time.Time` is the number of
-- nanoseconds since a fixed instant; the zero time is 0.
pub mod Workflows
pub mod Selector
pub mod Triggers
pub mod Queue
pub mod Retention
pub mod History
use lumn.Base.{
  ℕ, String, ◌≡◌, Bool, true, ◌&&◌, ◌||◌, Option, none, some, List, [], ltb, ◌==◌, ◌=ₛ◌, Result, ok,
  err, if◌then◌else◌,
}
use lumn.Report.{Report}

abbrev pub status_active : String
status_active = "active"

abbrev pub status_stopped : String
status_stopped = "stopped"

abbrev pub status_queued : String
status_queued = "queued"

abbrev pub status_running : String
status_running = "running"

abbrev pub status_ok : String
status_ok = "ok"

abbrev pub status_error : String
status_error = "error"

abbrev pub status_empty : String
status_empty = "empty"

-- A row of `workflows`, and the struct `Workflow`, which has the same fields.
pub record Workflow : Type 0 where
  pub id : String
  pub name : String
  pub version : String
  pub path : String
  pub status : String
  pub created_at : ℕ
  pub updated_at : ℕ

pub record TriggerRow : Type 0 where
  pub id : ℕ
  pub workflow_id : String
  pub kind : String
  pub config : String
  pub next_run_at : Option ℕ
  pub status : String
  pub created_at : ℕ
  pub updated_at : ℕ

pub record ExecutionRow : Type 0 where
  pub id : ℕ
  pub workflow_id : String
  pub trigger_type : String
  pub status : String
  pub queued_at : ℕ
  pub started_at : Option ℕ
  pub finished_at : Option ℕ
  pub report : Option String

pub record QueueRow : Type 0 where
  pub id : ℕ
  pub execution_id : ℕ
  pub workflow_id : String
  pub trigger_type : String
  pub trigger_context : String
  pub queued_at : ℕ

-- The database. Rows stand in the order of their insertion; a sequence holds the last id that its
-- AUTOINCREMENT column gave out.
pub record Db : Type 0 where
  pub workflows : List Workflow
  pub triggers : List TriggerRow
  pub executions : List ExecutionRow
  pub queue : List QueueRow
  pub trigger_seq : ℕ
  pub execution_seq : ℕ
  pub queue_seq : ℕ
  -- the connection that the pool hands out has `PRAGMA foreign_keys = ON`: `Open` sets it on one
  -- connection alone
  pub foreign_keys : Bool

abbrev pub empty_db : Db
empty_db = record {
  workflows = [];
  triggers = [];
  executions = [];
  queue = [];
  trigger_seq = 0;
  execution_seq = 0;
  queue_seq = 0;
  foreign_keys = true;
}

-- `json.Marshal` and `json.Unmarshal` at one type.
pub record Codec (A : Type 0) : Type 0 where
  pub encode : A → Option String
  pub decode : String → Option A

-- What the store asks of the codec: what was encoded can be read back as it was.
abbrev pub RoundTrips : {A : Type 0} → Codec A → A → Type 0
RoundTrips {A} c a = (text : String) → c.encode a ≡ some text → c.decode text ≡ some a

pub data StoreError : Type 0 where
  unique_violation foreign_key_violation marshal_failed unmarshal_failed : StoreError
  ambiguous_name : String → StoreError
  ambiguous_prefix : String → List String → StoreError

-- An operation of the store: the database that it leaves, also beside an error.
abbrev pub Op : Type 0 → Type 0
Op A = Db → Db × Result StoreError A

-- The struct `Trigger`, with its decoded configuration.
pub record Trigger (Doc : Type 0) : Type 0 where
  pub id : ℕ
  pub workflow_id : String
  pub kind : String
  pub config : Doc
  pub next_run_at : Option ℕ
  pub status : String
  pub created_at : ℕ
  pub updated_at : ℕ

pub record Execution : Type 0 where
  pub id : ℕ
  pub workflow_id : String
  pub trigger_type : String
  pub status : String
  pub queued_at : ℕ
  pub started_at : Option ℕ
  pub finished_at : Option ℕ
  pub report : Option Report

pub record QueueItem (Doc : Type 0) : Type 0 where
  pub id : ℕ
  pub execution_id : ℕ
  pub workflow_id : String
  pub trigger_type : String
  pub trigger_context : Doc
  pub queued_at : ℕ

module _ {Doc : Type 0} (json : Codec Doc) where
  -- `fromTriggerRow`.
  unfoldable pub from_trigger_row : TriggerRow → Result StoreError (Trigger Doc)
  from_trigger_row row = elim (json.decode row.config) [
    | none ↦ err unmarshal_failed
    | some config ↦ ok (record {
      id = row.id;
      workflow_id = row.workflow_id;
      kind = row.kind;
      config = config;
      next_run_at = row.next_run_at;
      status = row.status;
      created_at = row.created_at;
      updated_at = row.updated_at;
    })
  ]

  -- `fromQueueRow`.
  unfoldable pub from_queue_row : QueueRow → Result StoreError (QueueItem Doc)
  from_queue_row row = elim (json.decode row.trigger_context) [
    | none ↦ err unmarshal_failed
    | some context ↦ ok (record {
      id = row.id;
      execution_id = row.execution_id;
      workflow_id = row.workflow_id;
      trigger_type = row.trigger_type;
      trigger_context = context;
      queued_at = row.queued_at;
    })
  ]

abbrev with_report : ExecutionRow → Option Report → Execution
with_report row report = record {
  id = row.id;
  workflow_id = row.workflow_id;
  trigger_type = row.trigger_type;
  status = row.status;
  queued_at = row.queued_at;
  started_at = row.started_at;
  finished_at = row.finished_at;
  report = report;
}

-- The report column of a row: NULL and the empty text are no report.
decode_report : Codec Report → Option String → Result StoreError (Option Report)
decode_report reports none = ok none
decode_report reports (some text) =
    if text =ₛ ""
    then ok none
    else elim (reports.decode text) [ none ↦ err unmarshal_failed | some r ↦ ok (some r) ]

-- `fromExecutionRow`.
unfoldable pub from_execution_row : Codec Report → ExecutionRow → Result StoreError Execution
unfolding decode_report
from_execution_row reports row = elim (decode_report reports row.report) [
  | ok r ↦ ok (with_report row r)
  | err e ↦ err e
]

-- `COALESCE(finished_at, started_at, queued_at)`.
abbrev pub last_moment : ExecutionRow → ℕ
last_moment row = elim row.finished_at [
  | some t ↦ t
  | none ↦ elim row.started_at [ some t ↦ t | none ↦ row.queued_at ]
]

-- `ORDER BY COALESCE(…) DESC, id DESC`: the first row stands before the second.
abbrev pub newer : ExecutionRow → ExecutionRow → Bool
newer a b = ltb (last_moment b) (last_moment a) || (last_moment a == last_moment b && ltb b.id a.id)
