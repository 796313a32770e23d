-- ===== src/Daemon/Worker.antt =====
-- daemon.go: one round of `workerLoop` against the queue of its workflow.
use lumn.Base.{
  ℕ, String, ◌≡◌, refl, ap, ◌∙◌, ◌⊎◌, inl, inr, Bool, true, false, Option, none, some, List, [],
  ◌∷◌, ◌++◌, ◌==◌, Result, ok, err, if◌then◌else◌, exists, Bool-cases, Option-cases, sym, subst,
  ◌≢◌, map, update, select, In, In-select, All, ◌=ₛ◌, arith,
}
use lumn.Report.{Report}
use lumn.Value.{Fields}
use lumn.Store.{Codec, Db, StoreError, QueueItem, QueueRow, ExecutionRow, Workflow, from_queue_row}
use lumn.Store.Queue.{claim_next_queue_item, complete_execution, finish}
use lumn.Store.Queue.Valid.{complete_execution-queue}
use lumn.Store.Queue.Fifo.{
  pending, Ascends, Dequeues, claim-Dequeues, next_queue_row-none, next_queue_row-head,
}
use lumn.Daemon.{Daemon, Managed, publish_waiter, set_running, work_once}

pub publish_waiter-db : (id : ℕ) (r : Report) (d : Daemon) → (publish_waiter id r d).db ≡ d.db
unfolding publish_waiter
publish_waiter-db id r d = elim (Bool-cases (exists (λ w. w == id) d.waiters)) [
  | inl waits ↦ rw (waits, publish_waiter) refl
  | inr alone ↦ rw (alone, publish_waiter) refl
]

pub publish_waiter-routes :
    (id : ℕ) (r : Report) (d : Daemon) → (publish_waiter id r d).routes ≡ d.routes
unfolding publish_waiter
publish_waiter-routes id r d = elim (Bool-cases (exists (λ w. w == id) d.waiters)) [
  | inl waits ↦ rw (waits, publish_waiter) refl
  | inr alone ↦ rw (alone, publish_waiter) refl
]

-- A waiter gets the report, and what others got stays.
publish_waiter-delivered :
    (id : ℕ) (r : Report) (d : Daemon)
    → (publish_waiter id r d).delivered
      ≡ (if exists (λ w. w == id) d.waiters then d.delivered ++ (id, r) ∷ [] else d.delivered)
unfolding publish_waiter
publish_waiter-delivered id r d = elim (Bool-cases (exists (λ w. w == id) d.waiters)) [
  | inl waits ↦ rw (waits, publish_waiter) refl
  | inr alone ↦ rw (alone, publish_waiter) refl
]

-- The executions that the table has, by their ids.
abbrev ids : List ExecutionRow → List ℕ
ids rows = map (λ e. e.id) rows

-- The execution has ended with the status and the payload.
abbrev pub Ended : ℕ → String → String → List ExecutionRow → Type 0
Ended id status payload rows =
    All (λ e. (e.id ≢ id) ⊎ ((e.status ≡ status) × (e.report ≡ some payload))) rows

finish-Ended :
    (now id : ℕ) (status payload : String) (rows : List ExecutionRow)
    → Ended id status payload (finish now id status payload rows)
finish-Ended now id status payload [] = tt
finish-Ended now id status payload (e ∷ rows) = elim (Bool-cases (e.id == id)) [
  | inl same ↦ rw same (inr (refl, refl), finish-Ended now id status payload rows)
  | inr other ↦
      let apart : e.id ≢ id = λ same. absurd (ground (arith, same, other)) in
      rw other (inl apart, finish-Ended now id status payload rows)
]

ids-update :
    (id : ℕ) (f : ExecutionRow → ExecutionRow) (rows : List ExecutionRow)
    → ((e : ExecutionRow) → (f e).id ≡ e.id)
    → ids (update (λ e. e.id == id) f rows) ≡ ids rows
ids-update id f [] keeps = refl
ids-update id f (e ∷ rows) keeps = elim (Bool-cases (e.id == id)) [
  | inl same ↦ rw (same, keeps e, ids-update id f rows keeps) refl
  | inr other ↦ rw (other, ids-update id f rows keeps) refl
]

-- What a completion leaves: the report is stored with its status, or it cannot be marshalled and
-- nothing is written.
abbrev pub Completed : Codec Report → ℕ → Report → Db → Db → Type 0
Completed reports id report db db' =
    (ids db'.executions ≡ ids db.executions)
    × (((reports.encode report ≡ none) × (db'.executions ≡ db.executions))
        ⊎ ((payload : String) × (reports.encode report ≡ some payload)
            × Ended id report.status payload db'.executions))

complete_execution-Completed :
    (reports : Codec Report) (now id : ℕ) (r : Report) (db : Db)
    → Completed reports id r db (complete_execution reports now id r.status r db).0
unfolding complete_execution
complete_execution-Completed reports now id r db = elim (Option-cases (reports.encode r)) [
  | inl bad ↦ rw (bad, complete_execution) (refl, inl (refl, refl))
  | inr (payload, good) ↦
      rw (good, complete_execution)
        (
          ids-update id _ db.executions (λ e. refl),
          inr (payload, refl, finish-Ended now id r.status payload db.executions),
        )
]

-- What one round does. Where the loop goes on, the oldest pending execution has left the queue and has
-- run on the context that its row held, its report is stored with its status, unless it cannot be
-- marshalled, and is with the waiter, if one is registered. Where the loop breaks, nothing was pending
-- and nothing has changed, or the oldest execution had a context that cannot be read back: it has left
-- the queue without a run.
abbrev pub Works :
    Codec Fields
    → Codec Report
    → (Workflow → Fields → Report)
    → Daemon
    → Managed
    → Daemon × Bool
    → Type 0
Works json reports run d m (d', true) =
    (row : QueueRow) × (rest : List ℕ) × (context : Fields) × In row d.db.queue
    × (json.decode row.trigger_context ≡ some context)
    × (pending m.workflow.id d.db.queue ≡ row.execution_id ∷ rest)
    × (pending m.workflow.id d'.db.queue ≡ rest)
    × ((claimed : Db) × (ids claimed.executions ≡ ids d.db.executions)
        × Completed reports row.execution_id (run m.workflow context) claimed d'.db)
    × (d'.delivered ≡ (
        if exists (λ w. w == row.execution_id) d.waiters
        then d.delivered ++ (row.execution_id, run m.workflow context) ∷ []
        else d.delivered))
Works json reports run d m (d', false) =
    ((pending m.workflow.id d.db.queue ≡ []) × (d' ≡ d))
    ⊎ ((id : ℕ) × (rest : List ℕ) × (pending m.workflow.id d.db.queue ≡ id ∷ rest)
        × (pending m.workflow.id d'.db.queue ≡ rest)
        × (d'.delivered ≡ d.delivered))

module _ (json : Codec Fields) (reports : Codec Report) (run : Workflow → Fields → Report) (now : ℕ)
    (m : Managed) (d : Daemon) where
  -- The daemon after a run of the item.
  abbrev after_run : Db → QueueItem Fields → Daemon
  after_run db item =
      let started = set_running m.workflow.id true (record d { db = db }) in
      let report = run m.workflow item.trigger_context in
      let finished = record started {
        db = (complete_execution reports now item.execution_id report.status report started.db).0;
      } in
      set_running m.workflow.id false (publish_waiter item.execution_id report finished)

  -- The item of a claim is read from a row of the queue.
  abbrev From : Db × Result StoreError (Option (QueueItem Fields)) → Type 0
  From (db', ok (some item)) =
      (row : QueueRow) × In row d.db.queue
      × (row.execution_id ≡ item.execution_id)
      × (json.decode row.trigger_context ≡ some item.trigger_context)
      × (ids db'.executions ≡ ids d.db.executions)
  From (db', ok none) = Unit
  From (db', err e) = Unit

  claim-From :
      (rows : List QueueRow)
      → Ascends 0 0 0 d.db.queue
      → select (λ q. q.workflow_id =ₛ m.workflow.id) d.db.queue ≡ rows
      → From (claim_next_queue_item json now m.workflow.id d.db)
  unfolding claim_next_queue_item from_queue_row
  claim-From [] sorted e =
      rw (next_queue_row-none m.workflow.id d.db.queue e, claim_next_queue_item) tt
  claim-From (r ∷ rest) sorted e =
      let there = In-select r _ d.db.queue (subst (In r) (sym e) (inl refl)) in
      let next = next_queue_row-head m.workflow.id 0 0 0 d.db.queue r rest sorted e in
      elim (Option-cases (json.decode r.trigger_context)) [
        | inl bad ↦ rw (next, bad, claim_next_queue_item, from_queue_row) tt
        | inr (context, good) ↦
            rw (next, good, claim_next_queue_item, from_queue_row)
              (r, there, refl, good, ids-update r.execution_id _ d.db.executions (λ x. refl))
      ]

  after_claim :
      (outcome : Db × Result StoreError (Option (QueueItem Fields)))
      → Dequeues json m.workflow.id d.db outcome
      → From outcome
      → Works json reports run d m (elim outcome.1 [
        | err e ↦ (record d { db = outcome.0 }, false)
        | ok none ↦ (record d { db = outcome.0 }, false)
        | ok (some item) ↦ (after_run outcome.0 item, true)
      ])
  unfolding set_running
  after_claim (db', err e) (inl (p, same, r)) from = absurd (cc r)
  after_claim (db', err e) (inr (id, rest, p, p', r)) from = inr (id, rest, p, p', refl)
  after_claim (db', ok none) (inl (p, same, r)) from = inl (p, ap (λ x. record d { db = x }) same)
  after_claim (db', ok none) (inr (id, rest, p, p', r)) from = absurd r
  after_claim (db', ok (some item)) (inl (p, same, r)) from = absurd (cc r)
  after_claim (db', ok (some item)) (inr (id, rest, p, p', r)) (row, there, at, decoded, kept) =
      let report = run m.workflow item.trigger_context in
      let done = (complete_execution reports now item.execution_id report.status report db').0 in
      let published : (after_run db' item).db ≡ done =
        publish_waiter-db item.execution_id report _ in
      (
        row,
        rest,
        item.trigger_context,
        there,
        decoded,
        p ∙ ap (λ i. i ∷ rest) (sym r ∙ sym at),
        ap (λ x. pending m.workflow.id x.queue) published
            ∙ ap (pending m.workflow.id)
                (complete_execution-queue reports now item.execution_id report.status report db')
            ∙ p',
        (
          db',
          kept,
          subst (λ x. Completed reports row.execution_id report db' x) (sym published)
              (subst (λ i. Completed reports i report db' done) (sym at)
                (complete_execution-Completed reports now item.execution_id report db')),
        ),
        publish_waiter-delivered item.execution_id report _
            ∙ ap
                (λ i.
                  if exists (λ w. w == i) d.waiters
                  then d.delivered ++ (i, report) ∷ []
                  else d.delivered)
                (sym at),
      )

  -- In a queue table whose ids and times rise, every round of the worker that goes on runs the oldest
  -- pending execution of its workflow on the context of its row, ends it with the status and the report
  -- of the run, unless that report cannot be marshalled, and gives the report to the waiter of that
  -- execution; and a round that breaks off found nothing, or an execution whose context cannot be read
  -- back, which it drops from the queue.
  pub work_once-Works :
      Ascends 0 0 0 d.db.queue → Works json reports run d m (work_once json reports run now m d)
  unfolding work_once
  work_once-Works sorted =
      after_claim (claim_next_queue_item json now m.workflow.id d.db)
        (claim-Dequeues json now m.workflow.id d.db sorted)
        (claim-From (select (λ q. q.workflow_id =ₛ m.workflow.id) d.db.queue) sorted refl)
