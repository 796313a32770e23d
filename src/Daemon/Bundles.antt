-- ===== src/Daemon/Bundles.antt =====
-- daemon.go and api.go: what the daemon tells of its workflows.
pub mod Listed
use lumn.Base.{
  ℕ, String, Bool, true, false, ◌||◌, Option, none, some, List, [], ◌∷◌, map, ◌=ₛ◌, Result, ok, err,
  if◌then◌else◌,
}
use lumn.Base.Sort.{sort_by, text_lt}
use lumn.Report.{Report}
use lumn.Value.{Fields}
use lumn.Store.{Codec, Db, StoreError, Workflow, Trigger, Execution}
use lumn.Store.Workflows.{list_workflows}
use lumn.Store.Triggers.{list_triggers}
use lumn.Store.Queue.{latest_execution, count_failed_since}
use lumn.Api.{WorkflowResponse, TriggerResponse}
use lumn.Daemon.{Daemon, DaemonError, store_error, resolve_workflow}

-- `workflowBundle`.
pub record Bundle : Type 0 where
  pub workflow : Workflow
  pub triggers : List (Trigger Fields)
  pub latest : Option Execution
  pub fails : ℕ

module _ (json : Codec Fields) (reports : Codec Report) where
  -- What both requests read of a workflow.
  unfoldable pub bundle_of : Db → Workflow → Result StoreError Bundle
  unfolding list_triggers latest_execution count_failed_since
  bundle_of db w = elim (list_triggers json db w.id) [
    | err e ↦ err e
    | ok triggers ↦ elim (latest_execution reports db w.id) [
      | err e ↦ err e
      | ok latest ↦ ok (record {
        workflow = w;
        triggers = triggers;
        latest = latest;
        fails = count_failed_since db w.id w.updated_at;
      })
    ]
  ]

  -- The loop of `ListWorkflowResponses`.
  unfoldable pub bundles_of : Db → List Workflow → Result StoreError (List Bundle)
  unfolding bundle_of
  bundles_of db [] = ok []
  bundles_of db (w ∷ rest) = elim (bundle_of db w) [
    | err e ↦ err e
    | ok bundle ↦ elim (bundles_of db rest) [ err e ↦ err e | ok bundles ↦ ok (bundle ∷ bundles) ]
  ]

  -- `ListWorkflowResponses`.
  unfoldable pub list_bundles : Daemon → Result StoreError (List Bundle)
  unfolding list_workflows bundles_of
  list_bundles d = bundles_of d.db (list_workflows d.db)

  -- `WorkflowDetails`.
  unfoldable pub workflow_details : Daemon → String → Result DaemonError Bundle
  unfolding resolve_workflow bundle_of
  workflow_details d selector = elim (resolve_workflow d selector) [
    | err e ↦ err e
    | ok w ↦ elim (bundle_of d.db w) [ err e ↦ err (store_error e) | ok bundle ↦ ok bundle ]
  ]

-- The loop over the times of the next runs, which compares them as texts.
unfoldable pub next_run_text : (ℕ → String) → String → List (Trigger Fields) → String
next_run_text format_time next [] = next
next_run_text format_time next (t ∷ rest) = elim t.next_run_at [
  | none ↦ next_run_text format_time next rest
  | some at ↦
      next_run_text format_time
        (if next =ₛ "" || text_lt (format_time at) next then format_time at else next) rest
]

-- The time that stands for the last run.
abbrev pub last_moment_of : Execution → ℕ
last_moment_of e = elim e.finished_at [
  | some at ↦ at
  | none ↦ elim e.started_at [ some at ↦ at | none ↦ e.queued_at ]
]

-- `summarizeWorkflow`; `format_time` is the layout RFC3339Nano.
unfoldable pub summarize_workflow : (ℕ → String) → Bundle → WorkflowResponse
unfolding sort_by next_run_text
summarize_workflow format_time bundle = record {
  id = bundle.workflow.id;
  name = bundle.workflow.name;
  version = bundle.workflow.version;
  path = bundle.workflow.path;
  status = bundle.workflow.status;
  triggers = sort_by text_lt (map (λ t. t.kind) bundle.triggers);
  fails = bundle.fails;
  next_run = next_run_text format_time "" bundle.triggers;
  last_run = elim bundle.latest [ none ↦ "" | some e ↦ format_time (last_moment_of e) ];
  last_status = elim bundle.latest [ none ↦ "" | some e ↦ e.status ];
}

-- One round of `summarizeTriggers`.
unfoldable pub summarize_trigger : (ℕ → String) → Trigger Fields → TriggerResponse
summarize_trigger format_time t = record {
  kind = t.kind;
  status = t.status;
  config = t.config;
  next_run = elim t.next_run_at [ none ↦ "" | some at ↦ format_time at ];
}
