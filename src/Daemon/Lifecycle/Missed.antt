-- ===== src/Daemon/Lifecycle/Missed.antt =====
-- daemon.go: `startSchedulerTrigger` on a restart, with a run that was missed.
use lumn.Base.{
  ℕ, String, ◌≡◌, refl, inl, inr, true, none, some, ltb, ◌=ₛ◌, ok, err, if◌then◌else◌, find,
  find-In, Bool-cases, eq_iff, Bool, false, List, [], ◌∷◌, Result-cases, ap, sym, subst, ◌∙◌,
}
use lumn.Report.{Report}
use lumn.Value.{Fields}
use lumn.Store.{Codec, Workflow, Trigger, Db, status_active}
use lumn.Store.Workflows.{get_workflow, upsert_workflow}
use lumn.Store.Selector.{resolve_workflow_selector}
use lumn.Trigger.{
  Env, SchedulerPlan, next_time, parse_scheduler_config, parse_webhook_config,
  parse_file_watcher_config,
}
use lumn.Daemon.{
  Daemon, Managed, schedule, not_active, resolve_workflow, get_managed_by_id, get_managed,
  enqueue_execution, notify,
}
use lumn.Store.Triggers.{set_trigger_runtime}
use lumn.Store.History.{upsert-Apart}
use lumn.Webhooks.{register}
use lumn.Daemon.Lifecycle.Stopped.{stop_handles-db}
use lumn.Daemon.Lifecycle.{
  Host, Started, planned_run, start_scheduler_trigger, start_webhook_trigger,
  start_file_watcher_trigger, start_trigger, start_triggers, with_started, activate_workflow,
}

resolve_workflow-known :
    (d : Daemon) (id : String) (w : Workflow)
    → get_workflow d.db id ≡ some w
    → resolve_workflow d id ≡ ok w
unfolding resolve_workflow resolve_workflow_selector
resolve_workflow-known d id w known = rw (known, resolve_workflow, resolve_workflow_selector) refl

-- A registered workflow that is not in the map is found, and is not active.
pub get_managed-inactive :
    (d : Daemon) (id : String) (w : Workflow)
    → get_workflow d.db id ≡ some w
    → find (λ m. m.workflow.id =ₛ id) d.workflows ≡ none
    → get_managed d id ≡ err (not_active id)
unfolding get_managed get_managed_by_id get_workflow
get_managed-inactive d id w known absent =
    let (_, p) = find-In (λ v. v.id =ₛ id) w d.db.workflows known in
    let same : w.id ≡ id = (eq_iff w.id id).0 p in
    rw (resolve_workflow-known d id w known, get_managed)
      (rw same (rw (absent, get_managed_by_id) refl))

-- A trigger with a missed run that is started for a workflow that is registered but not in the map
-- queues nothing: the daemon stays as it is, and the run planned next follows the present time.
restore-drops_missed :
    (env : Env) (host : Host) (json : Codec Fields) (reports : Codec Report) (now : ℕ) (m : Managed)
    (trigger : Trigger Fields) (d : Daemon) (plan : SchedulerPlan) (w : Workflow)
    → parse_scheduler_config env trigger.config ≡ ok plan
    → get_workflow d.db m.workflow.id ≡ some w
    → find (λ n. n.workflow.id =ₛ m.workflow.id) d.workflows ≡ none
    → start_scheduler_trigger env host json reports now m trigger true d ≡ (
      d,
      ok (
        some (schedule trigger.id plan),
        some (
            if ltb (planned_run now plan trigger) now
            then next_time plan now
            else planned_run now plan trigger),
      ),
    )
unfolding start_scheduler_trigger enqueue_execution
restore-drops_missed env host json reports now m trigger d plan w parsed known absent =
    elim (Bool-cases (ltb (planned_run now plan trigger) now)) [
      | inl missed ↦
          rw
            (
              parsed,
              missed,
              get_managed-inactive d m.workflow.id w known absent,
              start_scheduler_trigger,
              enqueue_execution,
            )
            refl
      | inr ahead ↦ rw (parsed, ahead, start_scheduler_trigger) refl
    ]

-- The daemon has the same executions, queue and map, and the workflow is still registered.
abbrev Quiet : String → Daemon → Daemon → Type 0
Quiet id d d' =
    (d'.db.queue ≡ d.db.queue)
    × (d'.db.executions ≡ d.db.executions)
    × (d'.workflows ≡ d.workflows)
    × (get_workflow d'.db id ≡ get_workflow d.db id)

-- The queue and the executions are as they were.
abbrev pub Unqueued : Daemon → Daemon → Type 0
Unqueued d d' = (d'.db.queue ≡ d.db.queue) × (d'.db.executions ≡ d.db.executions)

if-Quiet :
    (id : String) (d : Daemon) (b : Bool) (x y : Daemon × Started)
    → Quiet id d x.0
    → Quiet id d y.0
    → Quiet id d (if b then x else y).0
if-Quiet id d true x y h k = h
if-Quiet id d false x y h k = k

module _ (env : Env) (host : Host) (json : Codec Fields) (reports : Codec Report) (now : ℕ) where
  start_webhook_trigger-Quiet :
      (m : Managed) (t : Trigger Fields) (d : Daemon)
      → Quiet m.workflow.id d (start_webhook_trigger env m t d).0
  unfolding start_webhook_trigger get_workflow
  start_webhook_trigger-Quiet m t d = elim (Result-cases (parse_webhook_config env t.config)) [
    | inr (e, bad) ↦ rw (bad, start_webhook_trigger) (refl, refl, refl, refl)
    | inl (c, good) ↦ elim (Result-cases (register m.workflow.id c.method c.path d.routes)) [
      | inr (e, taken) ↦ rw (good, taken, start_webhook_trigger) (refl, refl, refl, refl)
      | inl (table, free) ↦ rw (good, free, start_webhook_trigger) (refl, refl, refl, refl)
    ]
  ]

  start_file_watcher_trigger-Quiet :
      (id : String) (t : Trigger Fields) (d : Daemon)
      → Quiet id d (start_file_watcher_trigger env host json reports now t d).0
  unfolding start_file_watcher_trigger
  start_file_watcher_trigger-Quiet id t d =
      elim (Result-cases (parse_file_watcher_config env t.config)) [
        | inr (e, bad) ↦ rw (bad, start_file_watcher_trigger) (refl, refl, refl, refl)
        | inl (c, good) ↦
            rw (good, start_file_watcher_trigger)
              (if-Quiet id d (host.can_watch c.path) _ _ (refl, refl, refl, refl)
                (refl, refl, refl, refl))
      ]

  module _ (m : Managed) (row : Workflow) where
    start_scheduler_trigger-Quiet :
        (t : Trigger Fields) (d : Daemon)
        → get_workflow d.db m.workflow.id ≡ some row
        → find (λ n. n.workflow.id =ₛ m.workflow.id) d.workflows ≡ none
        → Quiet m.workflow.id d (start_scheduler_trigger env host json reports now m t true d).0
    unfolding start_scheduler_trigger
    start_scheduler_trigger-Quiet t d known absent =
        elim (Result-cases (parse_scheduler_config env t.config)) [
          | inr (e, bad) ↦ rw (bad, start_scheduler_trigger) (refl, refl, refl, refl)
          | inl (plan, parsed) ↦
              subst (λ (out : Daemon × Started). Quiet m.workflow.id d out.0)
                (sym (
                  restore-drops_missed env host json reports now m t d plan row parsed known
                    absent))
                (refl, refl, refl, refl)
        ]

    start_trigger-Quiet :
        (t : Trigger Fields) (d : Daemon)
        → get_workflow d.db m.workflow.id ≡ some row
        → find (λ n. n.workflow.id =ₛ m.workflow.id) d.workflows ≡ none
        → Quiet m.workflow.id d (start_trigger env host json reports now m t true d).0
    unfolding start_trigger
    start_trigger-Quiet t d known absent =
        let one_of = if-Quiet m.workflow.id d in
        one_of (t.kind =ₛ "manual") _ _ (refl, refl, refl, refl)
          (one_of (t.kind =ₛ "scheduler") _ _ (start_scheduler_trigger-Quiet t d known absent) (
            one_of (t.kind =ₛ "webhook") _ _ (start_webhook_trigger-Quiet m t d) (
              one_of (t.kind =ₛ "file_watcher") _ _
                (start_file_watcher_trigger-Quiet m.workflow.id t d) (refl, refl, refl, refl))))

  start_triggers-Unqueued :
      (ts : List (Trigger Fields)) (m : Managed) (row : Workflow) (d : Daemon)
      → get_workflow d.db m.workflow.id ≡ some row
      → find (λ n. n.workflow.id =ₛ m.workflow.id) d.workflows ≡ none
      → Unqueued d (start_triggers env host json reports now ts true m d).0
  unfolding start_triggers set_trigger_runtime get_workflow
  start_triggers-Unqueued [] m row d known absent = (refl, refl)
  start_triggers-Unqueued (t ∷ ts) m row d known absent =
      let out = start_trigger env host json reports now m t true d in
      let (queue, executions, workflows, rows) = start_trigger-Quiet m row t d known absent in
      elim (Result-cases out.1) [
        | inr (e, bad) ↦
            let same = stop_handles-db m.workflow.id m.handles out.0 in
            rw (bad, start_triggers)
              (
                ap (λ (x : Db). x.queue) same ∙ queue,
                ap (λ (x : Db). x.executions) same ∙ executions,
              )
        | inl ((handle, next), good) ↦
            let m' = with_started env host json reports now m t handle next in
            let d1 = record out.0 {
              db = (set_trigger_runtime now t.id "active" next out.0.db).0;
            } in
            let rest =
              start_triggers-Unqueued ts m' row d1 (rows ∙ known)
                (ap (find (λ n. n.workflow.id =ₛ m.workflow.id)) workflows ∙ absent) in
            rw (good, start_triggers) (rest.0 ∙ queue, rest.1 ∙ executions)
      ]

  -- A restart never makes up for a missed run: whatever triggers activateWorkflow starts while it
  -- restores a workflow that is registered and not yet in the map, and however that ends, the tables
  -- of the queue and of the executions are as they were.
  pub activate-drops_missed :
      (w row : Workflow) (triggers : List (Trigger Fields)) (d : Daemon)
      → get_workflow d.db w.id ≡ some row
      → find (λ n. n.workflow.id =ₛ w.id) d.workflows ≡ none
      → Unqueued d (activate_workflow env host json reports now w triggers true d).0
  unfolding activate_workflow notify
  activate-drops_missed w row triggers d known absent =
      let fresh : Managed = record {
        workflow = w;
        triggers = [];
        handles = [];
        notified = false;
        accepting = true;
        running = false;
        manual = false;
      } in
      let started = start_triggers env host json reports now triggers true fresh d in
      let quiet = start_triggers-Unqueued triggers fresh row d known absent in
      elim (Result-cases started.1) [
        | inr (e, bad) ↦ rw (bad, activate_workflow) quiet
        | inl (m, good) ↦
            let upserted = upsert_workflow now (record w { status = status_active }) started.0.db in
            let apart = upsert-Apart now (record w { status = status_active }) started.0.db in
            elim (Result-cases upserted.1) [
              | inr (e, clash) ↦
                  rw (good, clash, activate_workflow) (apart.1 ∙ quiet.0, apart.0 ∙ quiet.1)
              | inl (u, written) ↦
                  rw (good, written, activate_workflow) (apart.1 ∙ quiet.0, apart.0 ∙ quiet.1)
            ]
      ]
