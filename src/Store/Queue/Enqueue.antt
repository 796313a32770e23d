-- ===== src/Store/Queue/Enqueue.antt =====
-- store.go: `CreateQueuedExecution` as an enqueue, on every branch.
use mathlib.Core.List.{map-append, append-nil}
use lumn.Base.{
  ℕ, String, ◌≡◌, refl, ◌⊎◌, inl, inr, false, none, List, [], ◌∷◌, ◌++◌, ◌=ₛ◌, =ₛ_refl, Result, ok,
  err, if◌then◌else◌, select, exists, Bool-cases, Option-cases, select-append, length-append, ◌+◌,
  Bool, not, ◌||◌, arith,
}
use lumn.Report.{Report}
use lumn.Store.{Db, Codec, StoreError, QueueRow, Execution, foreign_key_violation, marshal_failed}
use lumn.Store.Workflows.{may_refer}
use lumn.Store.Queue.{create_queued_execution, enqueued, new_queue_row, queue_count}
use lumn.Store.Queue.Fifo.{pending}

pending-append :
    (v : String) (queue : List QueueRow) (q : QueueRow)
    → pending v (queue ++ q ∷ [])
      ≡ (if q.workflow_id =ₛ v then pending v queue ++ q.execution_id ∷ [] else pending v queue)
pending-append v queue q = elim (Bool-cases (q.workflow_id =ₛ v)) [
  | inl ours ↦
      rw (select-append (λ q. q.workflow_id =ₛ v) queue q, ours)
        (map-append _ (select (λ q. q.workflow_id =ₛ v) queue) (q ∷ []))
  | inr theirs ↦ rw (select-append (λ q. q.workflow_id =ₛ v) queue q, theirs, append-nil) refl
]

queue_count-enqueued :
    (now : ℕ) (db : Db) (w kind payload : String)
    → queue_count (enqueued now db w kind payload) w ≡ queue_count db w + 1
unfolding queue_count
queue_count-enqueued now db w kind payload =
    let q = new_queue_row now db w kind payload in
    rw (select-append (λ q. q.workflow_id =ₛ w) db.queue q, =ₛ_refl w) (length-append _ (q ∷ []))

unknown : (enforced known : Bool) → (not enforced || known) ≡ false → known ≡ false
unknown enforced known h = ground arith

-- The outcome of an enqueue for the workflow `w`, with `v` any workflow: the new execution is queued
-- and comes last for `w`, whose count grows by one, and other workflows see no change; or nothing is
-- written, and the error says why, an unknown workflow or a context that cannot be marshalled.
abbrev pub Enqueues :
    {Doc : Type 0}
    → Codec Doc
    → Db
    → String
    → String
    → Doc
    → Db × Result StoreError Execution
    → Type 0
Enqueues json db v w context (db', ok execution) =
    (execution.status ≡ "queued")
    × (execution.workflow_id ≡ w)
    × (queue_count db' w ≡ queue_count db w + 1)
    × (pending v db'.queue
        ≡ (if w =ₛ v then pending v db.queue ++ execution.id ∷ [] else pending v db.queue))
Enqueues json db v w context (db', err e) =
    (db' ≡ db)
    × (((exists (λ u. u.id =ₛ w) db.workflows ≡ false) × (e ≡ foreign_key_violation))
        ⊎ ((json.encode context ≡ none) × (e ≡ marshal_failed)))

module _ {Doc : Type 0} (json : Codec Doc) (reports : Codec Report) (now : ℕ) (db : Db) where
  -- `CreateQueuedExecution` is an enqueue at the end of its workflow's queue, whatever its arguments:
  -- on success the execution is queued, comes last and is counted, and no other queue changes; on an
  -- error nothing is written, and the workflow is unknown or the context cannot be marshalled.
  pub create-Enqueues :
      (v w kind : String) (context : Doc)
      → Enqueues json db v w context (create_queued_execution json reports now w kind context db)
  unfolding create_queued_execution
  create-Enqueues v w kind context = elim (Bool-cases (may_refer db w)) [
    | inr missing ↦
        rw (missing, create_queued_execution) (refl, inl (unknown db.foreign_keys _ missing, refl))
    | inl known ↦ elim (Option-cases (json.encode context)) [
      | inl bad ↦ rw (known, bad, create_queued_execution) (refl, inr (bad, refl))
      | inr (payload, good) ↦
          rw (known, good, create_queued_execution)
            (
              refl,
              refl,
              queue_count-enqueued now db w kind payload,
              pending-append v db.queue (new_queue_row now db w kind payload),
            )
    ]
  ]
