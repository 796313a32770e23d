-- ===== src/Daemon/Http/Safe.antt =====
-- api.go: GET requests change nothing.
use lumn.Base.{
  ℕ, String, ◌≡◌, refl, inl, inr, Bool, true, false, Option, List, [], ◌∷◌, ◌=ₛ◌, if◌then◌else◌,
  Result-cases,
}
use lumn.Base.Text.{has_prefix}
use lumn.Report.{Report}
use lumn.Value.{Fields}
use lumn.Store.{Codec}
use lumn.Trigger.{Env}
use lumn.Daemon.{Daemon, DaemonError}
use lumn.Daemon.Lifecycle.{Host}
use lumn.Daemon.Control.{Definition}
use lumn.Daemon.Bundles.{list_bundles, workflow_details}
use lumn.Daemon.Http.{
  Request, StartRequest, Answer, workflow_parts, handle_health, handle_workflows, handle_action,
  handle_workflow_by_id, handle_shutdown, internal_handler,
}

abbrev pub get : String → Option StartRequest → Request
get path payload = record { method = "GET"; path = path; payload = payload }

module _ (message : DaemonError → String) (env : Env) (host : Host) (json : Codec Fields)
    (reports : Codec Report) (load : String → Option Definition)
    (workflow_id_for : String → String → String) (others : Daemon → Daemon)
    (format_time : ℕ → String) (now : ℕ) (d : Daemon) where
  -- The handlers at the parameters of the section.
  abbrev action : String → String → Answer
  action name id =
      handle_action message env host json reports load workflow_id_for others format_time now name
        "GET" id d

  if_same : (b : Bool) (x y : Answer) → x.0 ≡ d → y.0 ≡ d → (if b then x else y).0 ≡ d
  if_same true x y h k = h
  if_same false x y h k = k

  handle_action-get : (name id : String) → (action name id).0 ≡ d
  unfolding handle_action
  handle_action-get name id = if_same (name =ₛ "stop") _ _ refl (
      if_same (name =ₛ "restart") _ _ refl (
        if_same (name =ₛ "exec") _ _ refl (
          if_same (name =ₛ "status") _ _
            (elim (Result-cases (workflow_details json reports d id)) [
              | inl (b, good) ↦ rw good refl
              | inr (e, bad) ↦ rw bad refl
            ])
            refl)))

  by_parts :
      (id : String) (actions : List String) (x : Answer)
      → x.0 ≡ d
      → (elim actions as (λ l. Answer) [ [] ↦ x | name ∷ more ↦ action name id ]).0 ≡ d
  by_parts id [] x h = h
  by_parts id (name ∷ more) x h = handle_action-get name id

  -- A GET request leaves the daemon as it was, whatever its path is and whatever comes of it.
  pub internal_handler-get :
      (path : String) (payload : Option StartRequest)
      → (internal_handler message env host json reports load workflow_id_for others format_time now
          (get path payload)
          d).0
        ≡ d
  unfolding internal_handler handle_health handle_workflows handle_workflow_by_id handle_shutdown
  internal_handler-get path payload = if_same (path =ₛ "/api/v1/health") _ _ refl (
      if_same (path =ₛ "/api/v1/workflows") _ _
        (elim (Result-cases (list_bundles json reports d)) [
          | inl (b, good) ↦ rw good refl
          | inr (e, bad) ↦ rw bad refl
        ])
        (if_same (has_prefix path "/api/v1/workflows/") _ _
          (if_same ((workflow_parts path).0 =ₛ "") _ _ refl
            (by_parts (workflow_parts path).0 (workflow_parts path).1 _ refl))
          (if_same (path =ₛ "/api/v1/daemon/shutdown") _ _ refl refl)))
