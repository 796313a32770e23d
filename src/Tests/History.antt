-- ===== src/Tests/History.antt =====
-- store.go: a workflow is registered, started by a webhook, and its execution is claimed.
use lumn.Base.{arith}
use lumn.Store.{Db, empty_db}
use lumn.Store.Workflows.{upsert_workflow}
use lumn.Store.Queue.{create_queued_execution, claim_next_queue_item}
use lumn.Store.Queue.Valid.{IsValid}
use lumn.Store.History.{Step, Reach, Reach-IsValid}
use lumn.Tests.Queue.{texts, statuses, sync}

abbrev registered : Db
registered = (upsert_workflow 1 sync empty_db).0

abbrev queued : Db
queued = (create_queued_execution texts statuses 2 "a1" "webhook" "{}" registered).0

abbrev claimed_once : Db
claimed_once = (claim_next_queue_item texts 3 "a1" queued).0

reached : Reach texts statuses 3 claimed_once
reached =
    Reach.after 2 3 queued claimed_once
      (Reach.after 1 2 registered queued
        (Reach.after 1 1 empty_db registered (Reach.start 1) (omega arith) (Step.registers sync))
        (omega arith) (Step.creates "a1" "webhook" "{}"))
      (omega arith) (Step.claims "a1")

Reach-IsValid_example : IsValid 3 claimed_once
Reach-IsValid_example = Reach-IsValid texts statuses 3 claimed_once reached
