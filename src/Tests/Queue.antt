-- ===== src/Tests/Queue.antt =====
-- store.go: the queue and retention on a database of two workflows.
use lumn.Base.{ℕ, ◌≤◌, String, ◌≡◌, refl, inl, true, none, some, [], ◌∷◌, arith}
use lumn.Report.{Report}
use lumn.Store.{
  Codec, Workflow, ExecutionRow, QueueRow, Db, status_active, status_queued, status_running,
  status_ok,
}
use lumn.Store.Queue.{create_queued_execution, claim_next_queue_item, cancel_queued_executions}
use lumn.Store.Queue.Fifo.{Dequeues, claim-Dequeues}
use lumn.Store.Queue.Enqueue.{Enqueues, create-Enqueues}
use lumn.Store.Queue.Valid.{IsValid}
use lumn.Store.Queue.Cancel.{Cancels, cancel-Cancels}
use lumn.Store.Retention.{before_cutoff, apply_retention}
use lumn.Store.Retention.Age.{before_cutoff-overflow}
use lumn.Store.Retention.Bounds.{settled_count, retention-bounds}
use lumn.Store.Retention.Keeps.{retention-keeps_queue}

-- Contexts that are texts already.
abbrev pub texts : Codec String
texts = record { encode = λ s. some s; decode = λ s. some s }

-- Reports of which the status alone is stored.
abbrev pub statuses : Codec Report
statuses = record {
  encode = λ r. some r.status;
  decode = λ s. some (record {
    workflow = "";
    version = "";
    status = s;
    items_in = 0;
    items_out = 0;
    errors = [];
    duration_ms = 0;
  });
}

abbrev pub finished_report : Report
finished_report = record {
  workflow = "sync";
  version = "latest";
  status = "ok";
  items_in = 2;
  items_out = 2;
  errors = [];
  duration_ms = 7;
}

abbrev pub sync : Workflow
sync = record {
  id = "a1";
  name = "sync";
  version = "latest";
  path = "/w/sync";
  status = status_active;
  created_at = 1;
  updated_at = 1;
}

abbrev mail : Workflow
mail = record {
  id = "b2";
  name = "mail";
  version = "latest";
  path = "/w/mail";
  status = status_active;
  created_at = 2;
  updated_at = 2;
}

abbrev done : ℕ → String → ExecutionRow
done id w = record {
  id = id;
  workflow_id = w;
  trigger_type = "manual";
  status = status_ok;
  queued_at = id;
  started_at = some id;
  finished_at = some id;
  report = none;
}

abbrev waiting : ℕ → String → ExecutionRow
waiting id w = record {
  id = id;
  workflow_id = w;
  trigger_type = "manual";
  status = status_queued;
  queued_at = id;
  started_at = none;
  finished_at = none;
  report = none;
}

abbrev item : ℕ → ℕ → String → QueueRow
item id execution w = record {
  id = id;
  execution_id = execution;
  workflow_id = w;
  trigger_type = "manual";
  trigger_context = "{}";
  queued_at = execution;
}

abbrev started : ℕ → String → ExecutionRow
started id w = record {
  id = id;
  workflow_id = w;
  trigger_type = "manual";
  status = status_running;
  queued_at = id;
  started_at = some 8;
  finished_at = none;
  report = none;
}

-- Two runs of `sync` are over and one goes on; two more wait, with one of `mail` between them.
abbrev pub db : Db
db = record {
  workflows = sync ∷ mail ∷ [];
  triggers = [];
  executions =
      done 1 "a1"
      ∷ done 2 "a1"
      ∷ started 3 "a1"
      ∷ waiting 4 "a1"
      ∷ waiting 5 "b2"
      ∷ waiting 6 "a1"
      ∷ [];
  queue = item 2 4 "a1" ∷ item 3 5 "b2" ∷ item 4 6 "a1" ∷ [];
  trigger_seq = 0;
  execution_seq = 6;
  queue_seq = 4;
  foreign_keys = true;
}

pub db-IsValid : IsValid 9 db
db-IsValid = record {
  sorted = (
    omega arith,
    omega arith,
    omega arith,
    (omega arith, omega arith, omega arith, (omega arith, omega arith, omega arith, tt)),
  );
  issued = (
    (omega arith, omega arith, omega arith),
    ((omega arith, omega arith, omega arith), ((omega arith, omega arith, omega arith), tt)),
  );
  rising =
      (omega arith, (omega arith, (omega arith, (omega arith, (omega arith, (omega arith, tt))))));
  numbered =
      (omega arith, (omega arith, (omega arith, (omega arith, (omega arith, (omega arith, tt))))));
  backed = (refl, (refl, (refl, tt)));
}

claim-Dequeues_example : Dequeues texts "a1" db (claim_next_queue_item texts 9 "a1" db)
claim-Dequeues_example = claim-Dequeues texts 9 "a1" db db-IsValid.sorted

create-Enqueues_example :
    Enqueues texts db "a1" "a1" "{}"
      (create_queued_execution texts statuses 9 "a1" "webhook" "{}" db)
create-Enqueues_example = create-Enqueues texts statuses 9 db "a1" "a1" "webhook" "{}"

cancel-Cancels_example :
    Cancels db "b2" "a1" (cancel_queued_executions statuses 12 "a1" "stopped" db)
cancel-Cancels_example = cancel-Cancels statuses 12 db "b2" "a1" "stopped" sync refl

retention-keeps_queue_example :
    IsValid 9 (apply_retention 9 1 30 db).0 × ((apply_retention 9 1 30 db).0.queue ≡ db.queue)
retention-keeps_queue_example = retention-keeps_queue 9 1 30 db db-IsValid

retention-bounds_example : settled_count "a1" (apply_retention 9 1 30 db).0 ≤ 1
retention-bounds_example = retention-bounds 9 1 30 db sync (omega arith) (inl refl)

before_cutoff-overflow_example : before_cutoff 9 106_752 9 ≡ true
before_cutoff-overflow_example =
    before_cutoff-overflow 9 106_752 9 (omega arith) (omega arith) (omega arith)
