-- ===== src/Daemon/Admission.antt =====
-- daemon.go: which executions `enqueueExecution` lets into the queue.
use lumn.Base.{
  ℕ, ◌≤◌, ◌<◌, String, ◌≡◌, refl, sym, ap, inl, inr, true, [], ◌∷◌, ◌++◌, arith, leb, ◌=ₛ◌, Result,
  ok, err, if◌then◌else◌, select, length, length-map, length-append, subst, Bool-cases,
  Result-cases, eq_iff,
}
use lumn.Report.{Report}
use lumn.Value.{Fields}
use lumn.Store.{Codec, Db, Execution, StoreError}
use lumn.Store.Queue.{queue_count, create_queued_execution}
use lumn.Store.Queue.Fifo.{pending}
use lumn.Store.Queue.Enqueue.{Enqueues, create-Enqueues}
use lumn.Daemon.{Daemon, Managed, DaemonError, get_managed, enqueue_execution, store_error, notify}

-- What `enqueueExecution` for the workflow `w` comes to, with `v` any workflow: the workflow accepts,
-- its queue was not full, and the new execution comes last in it; or nothing has changed at all.
abbrev pub Admits : Daemon → String → String → Daemon × Result DaemonError Execution → Type 0
Admits d v w (d', ok execution) =
    (m : Managed) × (get_managed d w ≡ ok m)
    × (m.accepting ≡ true)
    × (queue_count d.db w < d.queue_limit)
    × (d'.queue_limit ≡ d.queue_limit)
    × (pending v d'.db.queue
        ≡ (if w =ₛ v then pending v d.db.queue ++ execution.id ∷ [] else pending v d.db.queue))
Admits d v w (d', err e) = d' ≡ d

module _ (json : Codec Fields) (reports : Codec Report) (now : ℕ) where
  stored :
      (d : Daemon) (v w kind : String) (context : Fields) (m : Managed)
      → get_managed d w ≡ ok m
      → m.accepting ≡ true
      → queue_count d.db w < d.queue_limit
      → (outcome : Db × Result StoreError Execution) → Enqueues json d.db v w context outcome
      → Admits d v w (elim outcome.1 [
        | err e ↦ (record d { db = outcome.0 }, err (store_error e))
        | ok execution ↦ (notify m.workflow.id (record d { db = outcome.0 }), ok execution)
      ])
  unfolding notify
  stored d v w kind context m found accepts room (db', ok execution) h =
      (m, found, accepts, room, refl, h.3)
  stored d v w kind context m found accepts room (db', err e) h = ap (λ x. record d { db = x }) h.0

  -- `enqueueExecution` lets an execution in only where its workflow is active and accepts and its queue
  -- is below the limit, and then as the last one of that queue, no other queue changing; every refusal
  -- and every failure leaves the daemon as it was.
  pub enqueue-Admits :
      (d : Daemon) (v w kind : String) (context : Fields)
      → Admits d v w (enqueue_execution json reports now w kind context d)
  unfolding enqueue_execution
  enqueue-Admits d v w kind context = elim (Result-cases (get_managed d w)) [
    | inr (e, bad) ↦ rw (bad, enqueue_execution) refl
    | inl (m, found) ↦ elim (Bool-cases m.accepting) [
      | inr closed ↦ rw (found, closed, enqueue_execution) refl
      | inl accepts ↦ elim (Bool-cases (leb d.queue_limit (queue_count d.db w))) [
        | inl full ↦ rw (found, accepts, full, enqueue_execution) refl
        | inr room ↦
            rw (found, accepts, room, enqueue_execution)
              (stored d v w kind context m found accepts (ground (arith, room))
                (create_queued_execution json reports now w kind context d.db)
                (create-Enqueues json reports now d.db v w kind context))
      ]
    ]
  ]

  queue_count-pending : (db : Db) (v : String) → queue_count db v ≡ length (pending v db.queue)
  unfolding queue_count
  queue_count-pending db v =
      sym (length-map (λ q. q.execution_id) (select (λ q. q.workflow_id =ₛ v) db.queue))

  admitted-Bounded :
      (d : Daemon) (v w : String) (outcome : Daemon × Result DaemonError Execution)
      → Admits d v w outcome
      → queue_count d.db v ≤ d.queue_limit
      → queue_count outcome.0.db v ≤ outcome.0.queue_limit
  admitted-Bounded d v w (d', err e) h le =
      subst (λ x. queue_count x.db v ≤ x.queue_limit) (sym h) le
  admitted-Bounded d v w (d', ok e) (m, found, accepts, room, same, after) le =
      elim (Bool-cases (w =ₛ v)) [
        | inl ours ↦
            let grown : pending v d'.db.queue ≡ pending v d.db.queue ++ e.id ∷ [] =
              rw ours at after in
            let here : queue_count d.db v < d.queue_limit =
              subst (λ x. queue_count d.db x < d.queue_limit) ((eq_iff w v).0 ours) room in
            omega (
              arith,
              here,
              same,
              queue_count-pending d'.db v,
              queue_count-pending d.db v,
              ap length grown,
              length-append (pending v d.db.queue) (e.id ∷ []),
            )
        | inr others ↦
            let kept : pending v d'.db.queue ≡ pending v d.db.queue = rw others at after in
            omega (
              arith,
              le,
              same,
              queue_count-pending d'.db v,
              queue_count-pending d.db v,
              ap length kept,
            )
      ]
