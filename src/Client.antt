-- ===== src/Client.antt =====
-- internal/daemon/client.go: the client of the daemon's interface. Package net/http is the parameter
-- `Transport` over the state `W` of what it reaches, and so is `PathEscape` of package net/url. A
-- request carries the path as the client writes it.
pub mod Paths
pub mod Served
use Prim.Native.String.{◌++◌}
use lumn.Base.{
  ℕ, String, Bool, true, false, ◌||◌, Option, none, some, List, [], leb, ◌=ₛ◌, Result, ok, err,
  if◌then◌else◌,
}
use lumn.Base.Text.{contains}
use lumn.Errkind.{GoError, error_text}
use lumn.Report.{Report}
use lumn.Api.{
  WorkflowResponse, TriggerResponse, Body, error_body, plain_text, health, workflows_list,
  workflow_detail, mutation, exec_result, Response,
}
use lumn.Daemon.Http.{Request, StartRequest}

-- The errors of the client: an `APIError`, the one that wraps `ErrDaemonNotRunning`, and any other by
-- its text.
pub data ClientError : Type 0 where
  api_error : ℕ → String → ClientError
  not_running : ClientError
  other : String → ClientError

-- `err.Error()`.
unfoldable pub client_text : ClientError → String
client_text (api_error status message) = message
client_text not_running = "daemon is not running - start it with 'lumn daemon start'"
client_text (other text) = text

-- `IsDaemonNotRunning`.
abbrev pub is_not_running : ClientError → Bool
is_not_running not_running = true
is_not_running _ = false

-- What the client calls of package net/http: `Do`, whether its error holds a `net.OpError`, the text
-- of a status, and the error of a decoder that meets a text that is no JSON.
pub record Transport (W : Type 0) : Type 0 where
  pub send : Request → W → W × Result GoError Response
  pub is_op_error : GoError → Bool
  pub status_text : ℕ → String
  pub decode_error : String → String
  -- `url.PathEscape`, and the path that a handler is given for one that is written
  pub path_escape : String → String
  pub path_decode : String → String

-- A report and a workflow with every field at its zero.
abbrev pub zero_report : Report
zero_report = record {
  workflow = "";
  version = "";
  status = "";
  items_in = 0;
  items_out = 0;
  errors = [];
  duration_ms = 0;
}

abbrev pub zero_workflow : WorkflowResponse
zero_workflow = record {
  id = "";
  name = "";
  version = "";
  path = "";
  status = "";
  triggers = [];
  fails = 0;
  next_run = "";
  last_run = "";
  last_status = "";
}

-- What the decoders read of a body.
abbrev pub active_count : Body → ℕ
active_count (health n) = n
active_count _ = 0

abbrev pub listed : Body → List WorkflowResponse
listed (workflows_list ws) = ws
listed _ = []

abbrev pub detail : Body → WorkflowResponse × List TriggerResponse
detail (workflow_detail w ts) = (w, ts)
detail _ = (zero_workflow, [])

-- The id and the message of a `WorkflowMutationResponse`.
abbrev pub mutation_of : Body → String × String
mutation_of (mutation id message) = (id, message)
mutation_of _ = ("", "")

abbrev pub execution_of : Body → ℕ × Report
execution_of (exec_result id report) = (id, report)
execution_of _ = (0, zero_report)

-- The path of a workflow, with what follows its id.
abbrev pub workflow_path : (String → String) → String → String → String
workflow_path escape id rest = "/api/v1/workflows/" ++ (escape id ++ rest)

module _ {W : Type 0} (net : Transport W) where
  -- `wrapTransportError`.
  unfoldable pub wrap_transport_error : GoError → ClientError
  unfolding contains error_text
  wrap_transport_error e =
      if net.is_op_error e
        || (contains (error_text e) "connect: no such file"
            || contains (error_text e) "connect: connection refused")
      then not_running
      else other (error_text e)

  -- The error of an answer whose status is 400 or more.
  unfoldable pub failure_of : ℕ → Body → ClientError
  failure_of status (error_body message) = api_error status (
      if message =ₛ ""
      then "daemon request failed with status " ++ net.status_text status
      else message)
  failure_of status _ =
      api_error status ("daemon request failed with status " ++ net.status_text status)

  -- `doJSON` up to the decoding of the answer into the type that is asked for.
  unfoldable pub do_json : String → String → Option StartRequest → W → W × Result ClientError Body
  unfolding wrap_transport_error failure_of
  do_json method path payload w =
      let (w', answer) = net.send (record { method = method; path = path; payload = payload }) w in
      elim answer [
        | err e ↦ (w', err (wrap_transport_error e))
        | ok r ↦
            if leb 400 r.status then (w', err (failure_of r.status r.body)) else (w', ok r.body)
      ]

  -- The decoding into a type: the fields of another type stay zero, and what is no JSON is an error.
  abbrev pub decoded {ℓ} :
      {A : Type ℓ} → (Body → A) → Result ClientError Body → Result ClientError A
  decoded read (err e) = err e
  decoded read (ok (plain_text s)) = err (other (net.decode_error s))
  decoded read (ok b) = ok (read b)

  abbrev pub call {ℓ} :
      {A : Type ℓ}
      → (Body → A)
      → String
      → String
      → Option StartRequest
      → W
      → W × Result ClientError A
  call read method path payload w =
      let (w', answer) = do_json method path payload w in (w', decoded read answer)

  -- `Health`.
  unfoldable pub get_health : W → W × Result ClientError ℕ
  unfolding do_json
  get_health = call active_count "GET" "/api/v1/health" none

  -- `StartWorkflow`.
  unfoldable pub post_workflow : StartRequest → W → W × Result ClientError (String × String)
  unfolding do_json
  post_workflow req = call mutation_of "POST" "/api/v1/workflows" (some req)

  -- `StopWorkflow`, `DeleteWorkflow` and `RestartWorkflow`.
  unfoldable pub post_stop : String → W → W × Result ClientError (String × String)
  unfolding do_json
  post_stop id = call mutation_of "POST" (workflow_path net.path_escape id "/stop") none

  unfoldable pub send_delete : String → W → W × Result ClientError (String × String)
  unfolding do_json
  send_delete id = call mutation_of "DELETE" (workflow_path net.path_escape id "") none

  unfoldable pub post_restart : String → W → W × Result ClientError (String × String)
  unfolding do_json
  post_restart id = call mutation_of "POST" (workflow_path net.path_escape id "/restart") none

  -- `ListWorkflows`.
  unfoldable pub get_workflows : W → W × Result ClientError (List WorkflowResponse)
  unfolding do_json
  get_workflows = call listed "GET" "/api/v1/workflows" none

  -- `WorkflowStatus`.
  unfoldable pub get_status :
      String → W → W × Result ClientError (WorkflowResponse × List TriggerResponse)
  unfolding do_json
  get_status id = call detail "GET" (workflow_path net.path_escape id "/status") none

  -- `ExecWorkflow`.
  unfoldable pub post_exec : String → W → W × Result ClientError (ℕ × Report)
  unfolding do_json
  post_exec id = call execution_of "POST" (workflow_path net.path_escape id "/exec") none

  -- `Shutdown`, which decodes nothing.
  unfoldable pub post_shutdown : W → W × Result ClientError (Unit {0})
  unfolding do_json
  post_shutdown w =
      let (w', answer) = do_json "POST" "/api/v1/daemon/shutdown" none w in
      elim answer [ err e ↦ (w', err e) | ok b ↦ (w', ok tt) ]
