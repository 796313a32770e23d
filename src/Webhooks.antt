-- ===== src/Webhooks.antt =====
-- internal/daemon/daemon.go: `webhookRegistry`, the routes of the webhook server. A Go map is the
-- function that looks a key up.
pub mod Owners
use Prim.Native.String.{◌++◌}
use lumn.Base.{
  String, Bool, false, not, ◌&&◌, Option, none, some, ◌=ₛ◌, Result, ok, err, if◌then◌else◌,
}

pub record Route : Type 0 where
  pub workflow_id : String
  pub method : String
  pub path : String

abbrev pub Routes : Type 0
Routes = String → Option Route

-- `newWebhookRegistry`.
abbrev pub no_routes : Routes
no_routes key = none

-- `key`.
abbrev pub route_key : String → String → String
route_key method path = method ++ (" " ++ path)

-- The error of `register`, with what its text names.
pub data RegisterError : Type 0 where
  already_registered : String → String → RegisterError

abbrev pub is_foreign : String → Option Route → Bool
is_foreign workflow_id none = false
is_foreign workflow_id (some route) = not (route.workflow_id =ₛ workflow_id)

-- `r.routes[key] = …`.
abbrev pub put_route : Route → Routes → Routes
put_route route routes key =
    if key =ₛ route_key route.method route.path then some route else routes key

-- `register`.
unfoldable pub register : String → String → String → Routes → Result RegisterError Routes
register workflow_id method path routes =
    if is_foreign workflow_id (routes (route_key method path))
    then err (already_registered method path)
    else ok (put_route (record { workflow_id = workflow_id; method = method; path = path }) routes)

abbrev pub is_own : String → Option Route → Bool
is_own workflow_id none = false
is_own workflow_id (some route) = route.workflow_id =ₛ workflow_id

-- `unregister`.
unfoldable pub unregister : String → String → String → Routes → Routes
unregister workflow_id method path routes key =
    if key =ₛ route_key method path && is_own workflow_id (routes key) then none else routes key

-- `removeWorkflow`.
unfoldable pub remove_workflow : String → Routes → Routes
remove_workflow workflow_id routes key =
    if is_own workflow_id (routes key) then none else routes key
