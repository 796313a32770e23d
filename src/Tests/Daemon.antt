-- ===== src/Tests/Daemon.antt =====
-- daemon.go: a daemon that manages one of two registered workflows.
use lumn.Base.{◌≡◌, refl, true, false, some, [], ◌∷◌, ok}
use lumn.Value.{Fields, end, field, text, text_field}
use lumn.Store.{Codec, Trigger}
use lumn.Store.Workflows.{get_workflow}
use lumn.Daemon.Shutdown.{shutdown}
use lumn.Daemon.Shutdown.Stopped.{Shut, shutdown-Shut}
use lumn.Webhooks.{no_routes}
use lumn.Daemon.{Daemon, Managed, hook, enqueue_execution, work_once}
use lumn.Daemon.Admission.{Admits, enqueue-Admits}
use lumn.Daemon.Worker.{Works, work_once-Works}
use lumn.Daemon.Lifecycle.{activate_workflow, Host, finalize_workflow_stop}
use lumn.Daemon.Lifecycle.Missed.{Unqueued, activate-drops_missed}
use lumn.Daemon.Lifecycle.Refused.{Refuses, finalize-Refuses}
use lumn.Daemon.Lifecycle.Stopped.{Stops, finalize-Stops}
use lumn.Tests.Queue.{statuses, finished_report, sync, db, db-IsValid}
use lumn.Tests.Triggers.{env, interval}

-- Contexts of which the type alone is stored.
abbrev pub types : Codec Fields
types = record {
  encode = λ f. some (text_field f "type");
  decode = λ s. some (field "type" (text s) end);
}

abbrev manual_context : Fields
manual_context = field "type" (text "manual") end

abbrev syncing : Managed
syncing = record {
  workflow = sync;
  triggers = [];
  handles = hook "POST" "/hooks/sync" ∷ [];
  notified = false;
  accepting = true;
  running = false;
  manual = true;
}

abbrev pub daemon : Daemon
daemon = record {
  queue_limit = 3;
  db = db;
  routes = no_routes;
  workflows = syncing ∷ [];
  waiters = 4 ∷ [];
  delivered = [];
  shutting_down = false;
}

enqueue-Admits_example :
    Admits daemon "b2" "a1"
      (enqueue_execution types statuses 12 "a1" "manual" manual_context daemon)
enqueue-Admits_example = enqueue-Admits types statuses 12 daemon "b2" "a1" "manual" manual_context

work_once-Works_example :
    Works types statuses
      (λ w c. finished_report)
      daemon
      syncing
      (work_once types statuses (λ w c. finished_report) 12 syncing daemon)
work_once-Works_example =
    work_once-Works types statuses (λ w c. finished_report) 12 syncing daemon db-IsValid.sorted

finalize-Stops_example :
    Stops daemon syncing "b2" "POST /hooks/sync"
      (finalize_workflow_stop statuses 12 syncing "stopped" "workflow stopped" daemon)
finalize-Stops_example =
    finalize-Stops statuses 12 syncing "stopped" "workflow stopped" "b2" "POST /hooks/sync" daemon
      sync refl

finalize-Refuses_example :
    Refuses types statuses 13 "a1" "manual" manual_context daemon
      (finalize_workflow_stop statuses 12 syncing "stopped" "workflow stopped" daemon)
finalize-Refuses_example =
    finalize-Refuses types statuses 12 13 syncing "stopped" "workflow stopped" "manual"
      manual_context daemon sync refl

-- The daemon before it has restored any workflow.
abbrev restarted : Daemon
restarted = record daemon { workflows = [] }

abbrev pub host : Host
host = record { format_time = λ t. ""; can_watch = λ path. false }

abbrev hourly : Trigger Fields
hourly = record {
  id = 1;
  workflow_id = "a1";
  kind = "scheduler";
  config = interval;
  next_run_at = some 10;
  status = "active";
  created_at = 1;
  updated_at = 1;
}

known : get_workflow restarted.db "a1" ≡ some sync
unfolding get_workflow
known = refl

activate-drops_missed_example :
    Unqueued restarted
      (activate_workflow env host types statuses 12 sync (hourly ∷ []) true restarted).0
activate-drops_missed_example =
    activate-drops_missed env host types statuses 12 sync sync (hourly ∷ []) restarted known refl

-- A daemon that manages the workflow without triggers, and nothing else happens while it waits.
shutdown-Shut_example : Shut daemon (shutdown statuses 12 (λ d. d) daemon)
shutdown-Shut_example = shutdown-Shut statuses 12 (λ d. d) daemon

shutdown_test : (shutdown statuses 12 (λ d. d) daemon).1 ≡ ok tt
unfolding shutdown
shutdown_test = refl
