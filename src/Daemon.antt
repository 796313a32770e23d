-- ===== src/Daemon.antt =====
-- internal/daemon/daemon.go: the state of the daemon, the queueing of executions, and the worker.
-- Every operation takes the time that it reads from the clock; a map is a list with each key once.
pub mod Admission
pub mod Lifecycle
pub mod Worker
pub mod Control
pub mod Shutdown
pub mod Bundles
pub mod Http
pub mod Sources
use lumn.Base.{
  ℕ, suc, String, Bool, true, false, not, ◌&&◌, Option, none, some, List, [], ◌∷◌, ◌++◌, ltb, leb,
  ◌==◌, ◌=ₛ◌, Result, ok, err, if◌then◌else◌, select, find, update, exists,
}
use lumn.Report.{Report}
use lumn.Value.{Fields}
use lumn.Store.{Codec, Db, StoreError, Workflow, Trigger, Execution, QueueItem}
use lumn.Store.Selector.{resolve_workflow_selector}
use lumn.Store.Queue.{
  queue_count, create_queued_execution, claim_next_queue_item, complete_execution,
}
use lumn.Trigger.{ConfigError, SchedulerPlan, FileWatcherConfig}
use lumn.Webhooks.{Routes, RegisterError}

-- A `triggerHandle`: the goroutine of a scheduler or of a watcher, or the route of a webhook, by the
-- method and the path that its `stopFunc` has captured.
pub data Handle : Type 0 where
  schedule : ℕ → SchedulerPlan → Handle
  hook : String → String → Handle
  watcher : ℕ → FileWatcherConfig → Handle

-- `managedWorkflow`. `notified` tells whether the channel of capacity one holds a notification. The
-- closing of `stopCh` goes with the removal from the map.
pub record Managed : Type 0 where
  pub workflow : Workflow
  pub triggers : List (Trigger Fields)
  pub handles : List Handle
  pub notified : Bool
  pub accepting : Bool
  pub running : Bool
  pub manual : Bool

-- The part of `Daemon` behind its servers, with the reports that went into the channels of waiters.
pub record Daemon : Type 0 where
  pub queue_limit : ℕ
  pub db : Db
  pub routes : Routes
  pub workflows : List Managed
  pub waiters : List ℕ
  pub delivered : List (ℕ × Report)
  pub shutting_down : Bool

pub data DaemonError : Type 0 where
  store_error : StoreError → DaemonError
  config_error : ConfigError → DaemonError
  register_error : RegisterError → DaemonError
  not_found not_active stopping queue_is_full not_manual : String → DaemonError
  unsupported_trigger cannot_watch cannot_load still_running : String → DaemonError
  already_shutting_down : DaemonError
  timed_out : ℕ → DaemonError

abbrev pub Done : Type 0
Done = Result DaemonError Unit

-- `resolveWorkflow`.
unfoldable pub resolve_workflow : Daemon → String → Result DaemonError Workflow
unfolding resolve_workflow_selector
resolve_workflow d selector = elim (resolve_workflow_selector d.db selector) [
  | ok none ↦ err (not_found selector)
  | ok (some w) ↦ ok w
  | err e ↦ err (store_error e)
]

-- `getManagedWorkflowByID`.
unfoldable pub get_managed_by_id : Daemon → String → Result DaemonError Managed
get_managed_by_id d id = elim (find (λ m. m.workflow.id =ₛ id) d.workflows) [
  | none ↦ err (not_active id)
  | some m ↦ ok m
]

-- `getManagedWorkflow`.
unfoldable pub get_managed : Daemon → String → Result DaemonError Managed
unfolding resolve_workflow get_managed_by_id
get_managed d selector = elim (resolve_workflow d selector) [
  | err e ↦ err e
  | ok w ↦ get_managed_by_id d w.id
]

-- A write to a managed workflow that is in the map.
abbrev pub on_managed : String → (Managed → Managed) → Daemon → Daemon
on_managed id f d = record d { workflows = update (λ m. m.workflow.id =ₛ id) f d.workflows }

-- `notify`: a notification that waits already is enough.
unfoldable pub notify : String → Daemon → Daemon
notify id = on_managed id (λ m. record m { notified = true })

-- `setAccepting` and `setRunning`.
unfoldable pub set_accepting : String → Bool → Daemon → Daemon
set_accepting id value = on_managed id (λ m. record m { accepting = value })

unfoldable pub set_running : String → Bool → Daemon → Daemon
set_running id value = on_managed id (λ m. record m { running = value })

-- `publishWaiter`.
unfoldable pub publish_waiter : ℕ → Report → Daemon → Daemon
publish_waiter id report d =
    if exists (λ w. w == id) d.waiters
    then record d {
      waiters = select (λ w. not (w == id)) d.waiters;
      delivered = d.delivered ++ (id, report) ∷ [];
    }
    else d

-- `deleteWaiter`.
unfoldable pub delete_waiter : ℕ → Daemon → Daemon
delete_waiter id d = record d { waiters = select (λ w. not (w == id)) d.waiters }

module _ (json : Codec Fields) (reports : Codec Report) where
  -- `enqueueExecution`. The notification goes to the workflow that the selector has resolved to.
  unfoldable pub enqueue_execution :
      ℕ → String → String → Fields → Daemon → Daemon × Result DaemonError Execution
  unfolding get_managed queue_count create_queued_execution notify
  enqueue_execution now workflow_id kind context d = elim (get_managed d workflow_id) [
    | err e ↦ (d, err e)
    | ok m ↦
        if not m.accepting
        then (d, err (stopping workflow_id))
        else if leb d.queue_limit (queue_count d.db workflow_id)
        then (d, err (queue_is_full workflow_id))
        else let (db', result) =
            create_queued_execution json reports now workflow_id kind context d.db in
          elim result [
            | err e ↦ (record d { db = db' }, err (store_error e))
            | ok execution ↦ (notify m.workflow.id (record d { db = db' }), ok execution)
          ]
  ]

  -- The first half of `ExecWorkflow`: from the selector to the waiter that is registered; `context` is
  -- `{"type": "manual"}`. The rest waits for the report, or for the timeout.
  unfoldable pub exec_workflow : ℕ → String → Fields → Daemon → Daemon × Result DaemonError ℕ
  unfolding resolve_workflow get_managed_by_id enqueue_execution notify
  exec_workflow now selector context d = elim (resolve_workflow d selector) [
    | err e ↦ (d, err e)
    | ok w ↦ elim (get_managed_by_id d w.id) [
      | err e ↦ (d, err e)
      | ok m ↦
          if not m.manual
          then (d, err (not_manual w.name))
          else let (d', result) = enqueue_execution now w.id "manual" context d in
            elim result [
              | err e ↦ (d', err e)
              | ok execution ↦
                  (notify w.id (record d' { waiters = execution.id ∷ d'.waiters }), ok execution.id)
            ]
    ]
  ]

  -- One round of the inner loop of `workerLoop` for a workflow that accepts, and whether the loop goes
  -- on. `run` is `engine.RunTargetWithOptions`; a report that cannot be stored is logged and published
  -- all the same.
  unfoldable pub work_once : (Workflow → Fields → Report) → ℕ → Managed → Daemon → Daemon × Bool
  unfolding claim_next_queue_item complete_execution publish_waiter set_running
  work_once run now m d =
      let (db', result) = claim_next_queue_item json now m.workflow.id d.db in
      elim result [
        | err e ↦ (record d { db = db' }, false)
        | ok none ↦ (record d { db = db' }, false)
        | ok (some item) ↦
            let started = set_running m.workflow.id true (record d { db = db' }) in
            let report = run m.workflow item.trigger_context in
            let finished = record started {
              db =
                  (complete_execution reports now item.execution_id report.status report
                    started.db).0;
            } in
            (
              set_running m.workflow.id false (publish_waiter item.execution_id report finished),
              true,
            )
      ]
