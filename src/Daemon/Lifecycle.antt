-- ===== src/Daemon/Lifecycle.antt =====
-- daemon.go: from `activateWorkflow` to `finalizeWorkflowStop`, for one workflow.
pub mod Missed
pub mod Stopped
pub mod Refused
pub mod Rolling
pub mod Unwound
use lumn.Base.{
  ℕ, String, Bool, true, false, not, ◌&&◌, ◌||◌, Option, none, some, List, [], ◌∷◌, ◌++◌, ltb, ◌==◌,
  ◌=ₛ◌, Result, ok, err, if◌then◌else◌, select, update, exists,
}
use lumn.Report.{Report}
use lumn.Value.{Fields, end, field, text}
use lumn.Store.{Codec, Db, StoreError, Workflow, Trigger, status_active, status_stopped}
use lumn.Store.Workflows.{upsert_workflow, set_workflow_status}
use lumn.Store.Triggers.{set_trigger_runtime}
use lumn.Store.Queue.{cancel_queued_executions, get_execution}
use lumn.Trigger.{
  Env, ConfigError, SchedulerPlan, next_time, parse_scheduler_config, parse_webhook_config,
  parse_file_watcher_config,
}
use lumn.Webhooks.{register, unregister, remove_workflow}
use lumn.Daemon.{
  Daemon, Managed, Handle, schedule, hook, watcher, DaemonError, Done, config_error, register_error,
  store_error, unsupported_trigger, cannot_watch, enqueue_execution, notify, publish_waiter,
}

-- What the daemon needs of other packages: `time.Time.Format` by RFC3339Nano, and whether package
-- fsnotify can watch a directory.
pub record Host : Type 0 where
  pub format_time : ℕ → String
  pub can_watch : String → Bool

-- A `triggerHandle` with the next run, or an error.
abbrev pub Started : Type 0
Started = Result DaemonError (Option Handle × Option ℕ)

-- `Stop` of a handle of the workflow.
unfoldable pub stop_handle : String → Handle → Daemon → Daemon
unfolding unregister
stop_handle id (hook method path) d = record d { routes = unregister id method path d.routes }
stop_handle id (schedule trigger_id plan) d = d
stop_handle id (watcher trigger_id config) d = d

unfoldable pub stop_handles : String → List Handle → Daemon → Daemon
unfolding stop_handle
stop_handles id [] d = d
stop_handles id (h ∷ rest) d = stop_handles id rest (stop_handle id h d)

-- The `http`-free part of a registration in the daemon's registry.
unfoldable pub start_webhook_trigger : Env → Managed → Trigger Fields → Daemon → Daemon × Started
unfolding register
start_webhook_trigger env m trigger d = elim (parse_webhook_config env trigger.config) [
  | err e ↦ (d, err (config_error e))
  | ok c ↦ elim (register m.workflow.id c.method c.path d.routes) [
    | err e ↦ (d, err (register_error e))
    | ok table ↦ (record d { routes = table }, ok (some (hook c.method c.path), none))
  ]
]

-- The run that `startSchedulerTrigger` plans at first.
abbrev pub planned_run : ℕ → SchedulerPlan → Trigger Fields → ℕ
planned_run now plan trigger = elim trigger.next_run_at [ none ↦ next_time plan now | some t ↦ t ]

-- `d.workflows[id] = managed`.
abbrev pub put_managed : Managed → List Managed → List Managed
put_managed m rows =
    if exists (λ n. n.workflow.id =ₛ m.workflow.id) rows
    then update (λ n. n.workflow.id =ₛ m.workflow.id) (λ n. m) rows
    else rows ++ m ∷ []

module _ (env : Env) (host : Host) (json : Codec Fields) (reports : Codec Report) (now : ℕ) where
  -- The context of a scheduled execution.
  abbrev pub scheduled_context : ℕ → Fields
  scheduled_context planned = field "type" (text "scheduler") (
      field "scheduled_at" (text (host.format_time planned))
        (field "fired_at" (text (host.format_time now)) end))

  -- `startSchedulerTrigger`; the goroutine that waits for the next run is the handle.
  unfoldable pub start_scheduler_trigger :
      Managed → Trigger Fields → Bool → Daemon → Daemon × Started
  unfolding enqueue_execution
  start_scheduler_trigger m trigger restoring d = elim (parse_scheduler_config env trigger.config) [
    | err e ↦ (d, err (config_error e))
    | ok plan ↦
        let next = planned_run now plan trigger in
        if restoring && ltb next now
        then (
          (enqueue_execution json reports now m.workflow.id "scheduler" (scheduled_context next)
              d).0,
          ok (some (schedule trigger.id plan), some (next_time plan now)),
        )
        else (d, ok (some (schedule trigger.id plan), some next))
  ]

  -- `startFileWatcherTrigger`; the goroutine that reads the events is the handle.
  unfoldable pub start_file_watcher_trigger : Trigger Fields → Daemon → Daemon × Started
  start_file_watcher_trigger trigger d = elim (parse_file_watcher_config env trigger.config) [
    | err e ↦ (d, err (config_error e))
    | ok c ↦
        if host.can_watch c.path
        then (d, ok (some (watcher trigger.id c), none))
        else (d, err (cannot_watch c.path))
  ]

  -- `startTrigger`.
  unfoldable pub start_trigger : Managed → Trigger Fields → Bool → Daemon → Daemon × Started
  unfolding start_scheduler_trigger start_webhook_trigger start_file_watcher_trigger
  start_trigger m trigger restoring d =
      if trigger.kind =ₛ "manual"
      then (d, ok (none, none))
      else if trigger.kind =ₛ "scheduler"
      then start_scheduler_trigger m trigger restoring d
      else if trigger.kind =ₛ "webhook"
      then start_webhook_trigger env m trigger d
      else if trigger.kind =ₛ "file_watcher"
      then start_file_watcher_trigger trigger d
      else (d, err (unsupported_trigger trigger.kind))

  -- The managed workflow after one trigger has started.
  abbrev pub with_started : Managed → Trigger Fields → Option Handle → Option ℕ → Managed
  with_started m trigger handle next_run = record m {
    handles = elim handle [ none ↦ m.handles | some h ↦ m.handles ++ h ∷ [] ];
    manual = if trigger.kind =ₛ "manual" then true else m.manual;
    triggers = m.triggers ++ record trigger { status = "active"; next_run_at = next_run } ∷ [];
  }

  -- The loop of `activateWorkflow`. An error stops the handles that have been started.
  unfoldable pub start_triggers :
      List (Trigger Fields) → Bool → Managed → Daemon → Daemon × Result DaemonError Managed
  unfolding start_trigger stop_handles set_trigger_runtime
  start_triggers [] restoring m d = (d, ok m)
  start_triggers (t ∷ rest) restoring m d =
      let (d', result) = start_trigger m t restoring d in
      elim result [
        | err e ↦ (stop_handles m.workflow.id m.handles d', err e)
        | ok (handle, next_run) ↦
            start_triggers rest restoring (with_started m t handle next_run)
              (record d' { db = (set_trigger_runtime now t.id "active" next_run d'.db).0 })
      ]

  -- `activateWorkflow`.
  unfoldable pub activate_workflow :
      Workflow → List (Trigger Fields) → Bool → Daemon → Daemon × Done
  unfolding start_triggers upsert_workflow notify
  activate_workflow w triggers restoring d =
      let fresh : Managed = record {
        workflow = w;
        triggers = [];
        handles = [];
        notified = false;
        accepting = true;
        running = false;
        manual = false;
      } in
      let (d', result) = start_triggers triggers restoring fresh d in
      elim result [
        | err e ↦ (d', err e)
        | ok m ↦
            let (db', written) = upsert_workflow now (record w { status = status_active }) d'.db in
            let added = record d' { db = db'; workflows = put_managed m d'.workflows } in
            elim written [
              | err e ↦ (added, err (store_error e))
              | ok _ ↦ (notify w.id added, ok tt)
            ]
      ]

-- The report of a cancelled execution, where it can be read.
unfoldable pub canceled_report : Codec Report → Db → ℕ → Option Report
unfolding get_execution
canceled_report reports db id = elim (get_execution reports db id) [
  | ok (some e) ↦ e.report
  | _ ↦ none
]

abbrev pub publish_found : ℕ → Option Report → Daemon → Daemon
publish_found id none d = d
publish_found id (some report) d = publish_waiter id report d

-- The loop of `finalizeWorkflowStop` over the executions that were cancelled.
unfoldable pub publish_canceled : Codec Report → List ℕ → Daemon → Daemon
unfolding canceled_report publish_waiter
publish_canceled reports [] d = d
publish_canceled reports (id ∷ rest) d =
    publish_canceled reports rest (publish_found id (canceled_report reports d.db id) d)

unfoldable pub stop_triggers : ℕ → List (Trigger Fields) → Db → Db
unfolding set_trigger_runtime
stop_triggers now [] db = db
stop_triggers now (t ∷ rest) db =
    stop_triggers now rest (set_trigger_runtime now t.id "stopped" none db).0

-- What `finalizeWorkflowStop` does after the cancellation.
unfoldable pub retire : ℕ → Managed → String → Daemon → Daemon
unfolding stop_handles stop_triggers set_workflow_status remove_workflow
retire now m status d =
    let quiet = stop_handles m.workflow.id m.handles d in
    record quiet {
      db = (set_workflow_status now m.workflow.id status (stop_triggers now m.triggers quiet.db)).0;
      routes = remove_workflow m.workflow.id quiet.routes;
      workflows = select (λ n. not (n.workflow.id =ₛ m.workflow.id)) quiet.workflows;
    }

-- `finalizeWorkflowStop`.
unfoldable pub finalize_workflow_stop :
    Codec Report → ℕ → Managed → String → String → Daemon → Daemon × Done
unfolding cancel_queued_executions publish_canceled retire
finalize_workflow_stop reports now m status message d =
    let (db', result) = cancel_queued_executions reports now m.workflow.id message d.db in
    elim result [
      | err e ↦ (record d { db = db' }, err (store_error e))
      | ok ids ↦ (retire now m status (publish_canceled reports ids (record d { db = db' })), ok tt)
    ]
