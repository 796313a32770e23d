-- ===== src/Tests/Control.antt =====
-- daemon.go: a daemon with one registered workflow deletes it, and starts another.
use lumn.Base.{
  String, ◌≡◌, refl, false, Option, none, some, [], ◌∷◌, ◌=ₛ◌, ok, err, if◌then◌else◌, ◌⊎◌, ℕ, true,
}
use lumn.Base.Text.{has_prefix, has_suffix}
use lumn.Value.{Fields, end, field, text, text_field}
use lumn.Store.{Codec, status_active, from_trigger_row, Trigger}
use lumn.Trigger.{
  validate_trigger, validate_triggers, parse_webhook_config, parse_file_watcher_config,
  parse_strict_duration, TriggerSpec,
}
use lumn.Daemon.{Daemon, resolve_workflow, get_managed_by_id, not_active, Managed, cannot_watch}
use lumn.Daemon.Control.{Definition, delete, start_workflow}
use lumn.Daemon.Control.Deleted.{IsGone, delete-Deletes}
use lumn.Daemon.Control.Started.{Starts, start_workflow-Starts}
use lumn.Daemon.Lifecycle.{start_triggers}
use lumn.Daemon.Lifecycle.Unwound.{Unwound, start_triggers-Unwound}
use lumn.Tests.Queue.{statuses, sync}
use lumn.Tests.Triggers.{env, hook}
use lumn.Tests.Daemon.{types, host, daemon}
use lumn.Tests.Http.{quiet}

-- The only target is that of a workflow with a webhook.
abbrev definition : Definition
definition = record { name = "mail"; target_path = "/w/mail"; triggers = hook ∷ [] }

-- Configurations of which the path alone is stored.
abbrev paths : Codec Fields
paths = record {
  encode = λ f. some (text_field f "path");
  decode = λ s. some (field "path" (text s) end);
}

abbrev load : String → Option Definition
load path = if path =ₛ "/w/mail" then some definition else none

abbrev forgotten : Daemon
forgotten = (delete env host types statuses load (λ n v. n) (λ d. d) 12 "a1" daemon).0

resolved : resolve_workflow daemon "a1" ≡ ok sync
unfolding resolve_workflow
resolved = refl

deleted :
    delete env host types statuses load (λ n v. n) (λ d. d) 12 "a1" daemon ≡ (forgotten, ok tt)
unfolding delete
deleted = refl

enforced : forgotten.db.foreign_keys ≡ true
unfolding delete
enforced = refl

delete-Deletes_example :
    IsGone "a1" forgotten.db
    × (((sync.status =ₛ status_active) ≡ false)
        ⊎ (get_managed_by_id forgotten "a1" ≡ err (not_active "a1")))
delete-Deletes_example =
    delete-Deletes env host types statuses load (λ n v. n) (λ d. d) 12 "a1" daemon forgotten sync
      resolved deleted enforced

valid : validate_triggers env (hook ∷ []) ≡ ok (hook ∷ [])
unfolding validate_triggers validate_trigger parse_webhook_config text_field has_prefix
valid = refl

start_workflow-Starts_example :
    Starts env host paths statuses 12 load
      (λ n v. n)
      (λ d. d)
      "mail"
      "latest"
      1
      (start_workflow env host paths statuses load (λ n v. n) (λ d. d) 12 "" "" "/w/mail" quiet)
start_workflow-Starts_example =
    start_workflow-Starts env host paths statuses 12 load (λ n v. n) (λ d. d) "" "" "/w/mail" quiet
      definition (hook ∷ []) refl valid

started :
    (start_workflow env host paths statuses load (λ n v. n) (λ d. d) 12 "" "" "/w/mail" quiet).1
    ≡ ok (
        some (record {
          id = "mail";
          name = "mail";
          version = "latest";
          path = "/w/mail";
          status = status_active;
          created_at = 12;
          updated_at = 12;
        }))
unfolding start_workflow validate_trigger parse_webhook_config text_field has_prefix
    from_trigger_row
started = refl

-- A workflow whose second trigger watches a directory that cannot be watched.
abbrev stored : ℕ → TriggerSpec → Trigger Fields
stored id t = record {
  id = id;
  workflow_id = "mail";
  kind = t.kind;
  config = t.config;
  next_run_at = none;
  status = "stopped";
  created_at = 12;
  updated_at = 12;
}

abbrev inbox : TriggerSpec
inbox = record {
  kind = "file_watcher";
  config = field "path" (text "/in") (field "pattern" (text "*.csv") end);
}

abbrev mailing : Managed
mailing = record {
  workflow = record sync { id = "mail" };
  triggers = [];
  handles = [];
  notified = false;
  accepting = true;
  running = false;
  manual = false;
}

start_triggers-Unwound_example : Unwound "POST /hooks/a" none (
    start_triggers env host paths statuses 12
      (stored 1 hook ∷ stored 2 inbox ∷ [])
      false
      mailing
      quiet)
start_triggers-Unwound_example =
    start_triggers-Unwound env host paths statuses 12 (stored 1 hook ∷ stored 2 inbox ∷ []) false
      mailing quiet "POST /hooks/a" refl

unwatched :
    (start_triggers env host paths statuses 12
      (stored 1 hook ∷ stored 2 inbox ∷ [])
      false
      mailing
      quiet).1
    ≡ err (cannot_watch "/in")
unfolding start_triggers parse_webhook_config parse_file_watcher_config parse_strict_duration
    text_field has_prefix has_suffix
unwatched = refl
