-- ===== src/Daemon/Control.antt =====
-- daemon.go: the requests that start, stop, delete and restart a workflow, and the start and the end of
-- the daemon itself.
pub mod Deleted
pub mod Rows
pub mod Started
use lumn.Base.{
  ℕ, String, Bool, true, false, Option, none, some, List, [], ◌∷◌, map, ◌=ₛ◌, Result, ok, err,
  if◌then◌else◌, find,
}
use lumn.Report.{Report}
use lumn.Value.{Fields}
use lumn.Store.{Codec, Workflow, Trigger, status_active, status_stopped}
use lumn.Store.Workflows.{
  upsert_workflow, delete_workflow, get_workflow, get_by_name_version, set_workflow_status,
  list_active_workflows,
}
use lumn.Store.Triggers.{replace_workflow_triggers, list_triggers}
use lumn.Trigger.{Env, TriggerSpec, validate_triggers}
use lumn.Daemon.{
  Daemon, Managed, DaemonError, Done, config_error, store_error, cannot_load, still_running,
  resolve_workflow, get_managed_by_id, set_accepting, notify,
}
use lumn.Daemon.Lifecycle.{Host, activate_workflow, finalize_workflow_stop, stop_triggers}

-- What `engine.LoadDefinition` finds at a target.
pub record Definition : Type 0 where
  pub name : String
  pub target_path : String
  pub triggers : List TriggerSpec

-- The workflow is in the map and runs an execution.
abbrev pub is_running : Daemon → String → Bool
is_running d id = elim (find (λ m. m.workflow.id =ₛ id) d.workflows) [
  | none ↦ false
  | some m ↦ m.running
]

-- `setAccepting(true)` and `notify`, where a wait has come to nothing.
abbrev pub resume : String → Daemon → Daemon
resume id d = notify id (set_accepting id true d)

-- The trigger that `StartWorkflow` stores for a validated one.
abbrev pub stored_trigger : TriggerSpec → Trigger Fields
stored_trigger t = record {
  id = 0;
  workflow_id = "";
  kind = t.kind;
  config = t.config;
  next_run_at = none;
  status = "stopped";
  created_at = 0;
  updated_at = 0;
}

module _ (env : Env) (host : Host) (json : Codec Fields) (reports : Codec Report)
    (load : String → Option Definition) (workflow_id_for : String → String → String)
    (others : Daemon → Daemon) (now : ℕ) where
  -- The steps that the four requests share, from `setAccepting(false)` to `finalizeWorkflowStop`.
  -- `others` is what the other goroutines do until `waitIdle` returns, which is an error if the
  -- workflow still runs then. The entry of the map that has the id is the one that the request holds, as
  -- long as no other request replaces it meanwhile.
  unfoldable pub halt : Managed → String → Daemon → Daemon × Done
  unfolding set_accepting notify finalize_workflow_stop
  halt m message d =
      let waited = others (set_accepting m.workflow.id false d) in
      if is_running waited m.workflow.id
      then (resume m.workflow.id waited, err (still_running m.workflow.id))
      else finalize_workflow_stop reports now m status_stopped message waited

  -- A halt of the workflow with the id, if it is active.
  unfoldable pub halt_active : Workflow → String → Daemon → Daemon × Done
  unfolding halt get_managed_by_id
  halt_active w message d =
      if w.status =ₛ status_active
      then elim (get_managed_by_id d w.id) [ err e ↦ (d, err e) | ok m ↦ halt m message d ]
      else (d, ok tt)

  -- `StopWorkflow`.
  unfoldable pub stop_workflow : String → Daemon → Daemon × Done
  unfolding resolve_workflow halt_active
  stop_workflow selector d = elim (resolve_workflow d selector) [
    | err e ↦ (d, err e)
    | ok w ↦ halt_active w "workflow stopped before queued execution ran" d
  ]

  -- `DeleteWorkflow`.
  unfoldable pub delete : String → Daemon → Daemon × Done
  unfolding resolve_workflow halt_active delete_workflow
  delete selector d = elim (resolve_workflow d selector) [
    | err e ↦ (d, err e)
    | ok w ↦
        let (d', halted) = halt_active w "workflow deleted before queued execution ran" d in
        elim halted [
          | err e ↦ (d', err e)
          | ok _ ↦ (record d' { db = (delete_workflow w.id d'.db).0 }, ok tt)
        ]
  ]

  -- The deletion of a workflow that was not registered before its start failed.
  abbrev pub forget : Bool → String → Daemon → Daemon
  forget true id d = d
  forget false id d = record d { db = (delete_workflow id d.db).0 }

  -- The workflow that `StartWorkflow` registers.
  abbrev pub registration : Option Workflow → String → String → String → Workflow
  registration existing name version path = record {
    id = elim existing [ none ↦ workflow_id_for name version | some w ↦ w.id ];
    name = name;
    version = version;
    path = path;
    status = status_stopped;
    created_at = elim existing [ none ↦ 0 | some w ↦ w.created_at ];
    updated_at = 0;
  }

  abbrev pub is_found : Option Workflow → Bool
  is_found none = false
  is_found (some w) = true

  -- `StartWorkflow` from `UpsertWorkflow` on.
  unfoldable pub install :
      Option Workflow
      → Workflow
      → List TriggerSpec
      → Daemon
      → Daemon × Result DaemonError (Option Workflow)
  unfolding upsert_workflow replace_workflow_triggers activate_workflow get_workflow delete_workflow
  install existing w triggers d =
      let (db1, written) = upsert_workflow now w d.db in
      elim written [
        | err e ↦ (record d { db = db1 }, err (store_error e))
        | ok _ ↦
            let (db2, stored) =
              replace_workflow_triggers json now w.id (map stored_trigger triggers) db1 in
            elim stored [
              | err e ↦
                  (forget (is_found existing) w.id (record d { db = db2 }), err (store_error e))
              | ok rows ↦
                  let (d', activated) =
                    activate_workflow env host json reports now w rows false
                      (record d { db = db2 }) in
                  elim activated [
                    | err e ↦ (forget (is_found existing) w.id d', err e)
                    | ok _ ↦ (d', ok (get_workflow d'.db w.id))
                  ]
            ]
      ]

  -- The part of `StartWorkflow` that takes an active workflow of the name and version down first.
  unfoldable pub replace_active : Option Workflow → Daemon → Daemon × Done
  unfolding get_managed_by_id halt set_workflow_status
  replace_active none d = (d, ok tt)
  replace_active (some w) d =
      if w.status =ₛ status_active
      then elim (get_managed_by_id d w.id) [
        | ok m ↦ halt m "workflow restarted before queued execution ran" d
        | err e ↦ (record d { db = (set_workflow_status now w.id status_stopped d.db).0 }, ok tt)
      ]
      else (d, ok tt)

  -- `StartWorkflow`.
  unfoldable pub start_workflow :
      String → String → String → Daemon → Daemon × Result DaemonError (Option Workflow)
  unfolding validate_triggers get_by_name_version replace_active install
  start_workflow name version path d = elim (load path) [
    | none ↦ (d, err (cannot_load path))
    | some definition ↦
        let named = if name =ₛ "" then definition.name else name in
        let tag = if version =ₛ "" then "latest" else version in
        elim (validate_triggers env definition.triggers) [
          | err e ↦ (d, err (config_error e))
          | ok triggers ↦
              let existing = get_by_name_version d.db named tag in
              let (d', replaced) = replace_active existing d in
              elim replaced [
                | err e ↦ (d', err e)
                | ok _ ↦
                    install existing (registration existing named tag definition.target_path)
                      triggers d'
              ]
        ]
  ]

  -- `RestartWorkflow`.
  unfoldable pub restart_workflow : String → Daemon → Daemon × Done
  unfolding resolve_workflow halt_active start_workflow
  restart_workflow selector d = elim (resolve_workflow d selector) [
    | err e ↦ (d, err e)
    | ok w ↦
        let (d', halted) = halt_active w "workflow restarted before queued execution ran" d in
        elim halted [
          | err e ↦ (d', err e)
          | ok _ ↦
              let (d'', started) = start_workflow w.name w.version w.path d' in
              elim started [ err e ↦ (d'', err e) | ok _ ↦ (d'', ok tt) ]
        ]
  ]

  -- The loop of `restoreActiveWorkflows`. A workflow that cannot be activated is stopped.
  unfoldable pub restore_each : List Workflow → Daemon → Daemon × Done
  unfolding list_triggers activate_workflow set_workflow_status stop_triggers
  restore_each [] d = (d, ok tt)
  restore_each (w ∷ rest) d = elim (list_triggers json d.db w.id) [
    | err e ↦ (d, err (store_error e))
    | ok triggers ↦
        let (d', activated) = activate_workflow env host json reports now w triggers true d in
        let failed = record d' {
          db = stop_triggers now triggers (set_workflow_status now w.id status_stopped d'.db).0;
        } in
        restore_each rest (elim activated [ ok _ ↦ d' | err e ↦ failed ])
  ]

  -- `restoreActiveWorkflows`.
  unfoldable pub restore_active_workflows : Daemon → Daemon × Done
  unfolding list_active_workflows restore_each
  restore_active_workflows d = restore_each (list_active_workflows d.db) d
