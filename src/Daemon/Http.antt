-- ===== src/Daemon/Http.antt =====
-- api.go: the handlers of the internal interface. A request is its method, its path and, for a start,
-- what its body decodes to; the texts of errors are the parameter `message`.
pub mod Safe
pub mod Paths
use Prim.Native.Char.{code}
use Prim.Native.String.{◌++◌}
use lumn.Base.{
  ℕ, String, Bool, true, false, ◌&&◌, ◌||◌, Option, none, some, List, [], ◌∷◌, map, find, ◌==◌,
  ◌=ₛ◌, Result, ok, err, if◌then◌else◌,
}
use lumn.Base.Text.{has_prefix, contains, trim_prefix}
use lumn.Report.{Report}
use lumn.Value.{Fields, end, field, text}
use lumn.Store.{Codec, Workflow}
use lumn.Store.Workflows.{count_active_workflows}
use lumn.Trigger.{Env}
use lumn.Api.{
  Body, error_body, plain_text, health, workflows_list, workflow_detail, mutation, exec_result,
  Response,
}
use lumn.Daemon.{Daemon, DaemonError, Done, store_error, timed_out, exec_workflow, delete_waiter}
use lumn.Daemon.Lifecycle.{Host}
use lumn.Daemon.Control.{Definition, stop_workflow, delete, start_workflow, restart_workflow}
use lumn.Daemon.Shutdown.{shutdown}
use lumn.Daemon.Bundles.{list_bundles, workflow_details, summarize_workflow, summarize_trigger}

-- `daemonapi.StartWorkflowRequest`.
pub record StartRequest : Type 0 where
  pub name : String
  pub version : String
  pub target : String

-- The decoded request.
pub record Request : Type 0 where
  pub method : String
  pub path : String
  pub payload : Option StartRequest

-- `strings.Trim(path, "/")`, from the left and from the right.
trim_left : String → String
trim_left String.[] = ""
trim_left (String.◌∷◌ c s) = let rest = trim_left s in if code c == 47 then rest else String.◌∷◌ c s

trim_right : String → String
trim_right String.[] = ""
trim_right (String.◌∷◌ c s) =
    let rest = trim_right s in if code c == 47 && rest =ₛ "" then "" else String.◌∷◌ c rest

-- `strings.Split(path, "/")`, which is never empty.
split_slash : String → String × List String
split_slash String.[] = ("", [])
split_slash (String.◌∷◌ c s) =
    let (first, rest) = split_slash s in
    if code c == 47 then ("", first ∷ rest) else (String.◌∷◌ c first, rest)

-- The id and the further parts of the path of a workflow.
unfoldable pub workflow_parts : String → String × List String
unfolding trim_left trim_right split_slash trim_prefix
workflow_parts path = split_slash (trim_left (trim_right (trim_prefix path "/api/v1/workflows/")))

-- `writeJSON` and `writeError`.
abbrev pub write_json : ℕ → Body → Response
write_json status body = record { status = status; body = body }

abbrev pub write_error : ℕ → String → Response
write_error status reason = write_json status (error_body reason)

abbrev pub not_allowed : Response
not_allowed = write_error 405 "method not allowed"

-- What follows a request: the daemon and the answer.
abbrev pub Answer : Type 0
Answer = Daemon × Response

module _ (message : DaemonError → String) where
  -- `writeWorkflowError`.
  unfoldable pub write_workflow_error : DaemonError → Response
  unfolding contains
  write_workflow_error e =
      if contains (message e) "not found"
      then write_error 404 (message e)
      else write_error 400 (message e)

  -- The answer to a request that changes a workflow.
  unfoldable pub mutated : String → String → Daemon × Done → Answer
  unfolding write_workflow_error
  mutated id verb (d, err e) = (d, write_workflow_error e)
  mutated id verb (d, ok u) = (d, write_json 200 (mutation id ("workflow " ++ id ++ " " ++ verb)))

  -- `handleHealth`, but for the fields of the process.
  unfoldable pub handle_health : Request → Daemon → Answer
  unfolding count_active_workflows
  handle_health req d =
      if req.method =ₛ "GET"
      then (d, write_json 200 (health (count_active_workflows d.db)))
      else (d, not_allowed)

  module _ (env : Env) (host : Host) (json : Codec Fields) (reports : Codec Report)
      (load : String → Option Definition) (workflow_id_for : String → String → String)
      (others : Daemon → Daemon) (format_time : ℕ → String) (now : ℕ) where
    -- `ExecWorkflow`; its wait for the report is one more run of `others`.
    unfoldable pub exec_and_wait : String → Daemon → Daemon × Result DaemonError (ℕ × Report)
    unfolding exec_workflow delete_waiter
    exec_and_wait selector d =
        let (d', started) =
          exec_workflow json reports now selector (field "type" (text "manual") end) d in
        elim started [
          | err e ↦ (d', err e)
          | ok id ↦
              let waited = others d' in
              let left = delete_waiter id waited in
              elim (find (λ r. r.0 == id) waited.delivered) [
                | none ↦ (left, err (timed_out id))
                | some r ↦ (left, ok r)
              ]
        ]

    -- `handleWorkflows`.
    unfoldable pub handle_workflows : Request → Daemon → Answer
    unfolding list_bundles summarize_workflow start_workflow
    handle_workflows req d =
        let (d', started) =
          (elim req.payload as (λ x. Daemon × Result DaemonError (Option Workflow)) [
            | none ↦ (d, ok none)
            | some p ↦
                start_workflow env host json reports load workflow_id_for others now p.name
                  p.version p.target d
          ]) in
        if req.method =ₛ "GET"
        then elim (list_bundles json reports d) [
          | err e ↦ (d, write_error 500 (message (store_error e)))
          | ok bundles ↦
              (d, write_json 200 (workflows_list (map (summarize_workflow format_time) bundles)))
        ]
        else if req.method =ₛ "POST"
        then elim req.payload [
          | none ↦ (d, write_error 400 "invalid request body")
          | some p ↦ elim started [
            | err e ↦ (d', write_error 400 (message e))
            | ok none ↦ (d', write_json 201 (mutation "" "workflow  started"))
            | ok (some w) ↦ (d', write_json 201 (mutation w.id ("workflow " ++ w.id ++ " started")))
          ]
        ]
        else (d, not_allowed)

    -- The cases of `handleWorkflowByID` on the second part of the path.
    unfoldable pub handle_action : String → String → String → Daemon → Answer
    unfolding mutated exec_and_wait stop_workflow restart_workflow workflow_details
        summarize_workflow summarize_trigger write_workflow_error
    handle_action action method id d =
        if action =ₛ "stop"
        then if method =ₛ "POST"
          then mutated id "stopped"
              (stop_workflow env host json reports load workflow_id_for others now id d)
          else (d, not_allowed)
        else if action =ₛ "restart"
        then if method =ₛ "POST"
          then mutated id "restarted"
              (restart_workflow env host json reports load workflow_id_for others now id d)
          else (d, not_allowed)
        else if action =ₛ "exec"
        then if method =ₛ "POST"
          then (let (d', result) = exec_and_wait id d in
              elim result [
                | err e ↦ (d', write_workflow_error e)
                | ok (execution, report) ↦ (d', write_json 200 (exec_result execution report))
              ])
          else (d, not_allowed)
        else if action =ₛ "status"
        then if method =ₛ "GET"
          then elim (workflow_details json reports d id) [
            | err e ↦ (d, write_workflow_error e)
            | ok bundle ↦ (
              d,
              write_json 200 (
                  workflow_detail (summarize_workflow format_time bundle)
                    (map (summarize_trigger format_time) bundle.triggers)),
            )
          ]
          else (d, not_allowed)
        else (d, write_error 404 "workflow endpoint not found")

    -- `handleWorkflowByID`.
    unfoldable pub handle_workflow_by_id : Request → Daemon → Answer
    unfolding workflow_parts mutated delete handle_action
    handle_workflow_by_id req d =
        let (id, actions) = workflow_parts req.path in
        if id =ₛ "" then (d, write_error 404 "workflow not found") else elim actions [
          | [] ↦
              if req.method =ₛ "DELETE"
              then mutated id "deleted"
                  (delete env host json reports load workflow_id_for others now id d)
              else (d, not_allowed)
          | action ∷ more ↦ handle_action action req.method id d
        ]

    -- `handleShutdown`.
    unfoldable pub handle_shutdown : Request → Daemon → Answer
    unfolding shutdown
    handle_shutdown req d =
        let (d', stopped) = shutdown reports now others d in
        if req.method =ₛ "POST"
        then elim stopped [
          | err e ↦ (d', write_error 409 (message e))
          | ok u ↦ (d', write_json 200 (mutation "" "daemon stopped"))
        ]
        else (d, not_allowed)

    -- `internalHandler`: the patterns of its `ServeMux`.
    unfoldable pub internal_handler : Request → Daemon → Answer
    unfolding handle_health handle_workflows handle_workflow_by_id handle_shutdown has_prefix
    internal_handler req d =
        if req.path =ₛ "/api/v1/health"
        then handle_health req d
        else if req.path =ₛ "/api/v1/workflows"
        then handle_workflows req d
        else if has_prefix req.path "/api/v1/workflows/"
        then handle_workflow_by_id req d
        else if req.path =ₛ "/api/v1/daemon/shutdown"
        then handle_shutdown req d
        else (d, write_json 404 (plain_text "404 page not found"))
