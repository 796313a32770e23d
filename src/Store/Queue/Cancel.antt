-- ===== src/Store/Queue/Cancel.antt =====
-- store.go: `CancelQueuedExecutions`.
use lumn.Base.{
  ℕ, ◌≤◌, String, ◌≡◌, refl, sym, ap, ◌∙◌, subst, ◌≢◌, inl, inr, Bool, true, false, not, Option,
  none, some, List, [], ◌∷◌, map, arith, ◌=ₛ◌, Result, ok, err, if◌then◌else◌, select, find, All,
  In, All-In, All-of_In, All-map, All-select, All-update, In-select, Bool-cases, Option-cases,
  eq_iff,
}
use mathlib.Core.Option.{some-injective}
use lumn.Report.{Report}
use lumn.Store.{Db, Codec, StoreError, Workflow, ExecutionRow, QueueRow, marshal_failed}
use lumn.Store.Queue.{
  VersionRow, aborted, finish, queued_versions, cancel_rows, cancel_queued_executions,
}
use lumn.Store.Queue.Fifo.{Ascends-select, pending}
use lumn.Store.Queue.Valid.{
  IsValid, IsValid-later, is_backed, is_backed-update, select-distinct, Rises, Rises-update,
}

-- The joined row comes from a row of the queue that belongs to the workflow.
abbrev Comes : String → List QueueRow → VersionRow → Type 0
Comes w queue r =
    (q : QueueRow) × In q queue × (q.execution_id ≡ r.execution_id) × ((q.workflow_id =ₛ w) ≡ true)

Comes-cons :
    (w : String) (q : QueueRow) (queue : List QueueRow) (rows : List VersionRow)
    → All (Comes w queue) rows
    → All (Comes w (q ∷ queue)) rows
Comes-cons w q queue rows = All-map (Comes w queue) _ rows (λ r h. (h.0, inr h.1, h.2, h.3))

queued_versions-Comes :
    (workflows : List Workflow) (w : String) (queue : List QueueRow)
    → All (Comes w queue) (queued_versions workflows w queue)
unfolding queued_versions
queued_versions-Comes workflows w [] = tt
queued_versions-Comes workflows w (q ∷ queue) =
    joined (find (λ u. u.id =ₛ q.workflow_id) workflows) (q.workflow_id =ₛ w) refl
      (Comes-cons w q queue _ (queued_versions-Comes workflows w queue))
  where
    joined :
        (found : Option Workflow) (b : Bool)
        → (q.workflow_id =ₛ w) ≡ b
        → All (Comes w (q ∷ queue)) (queued_versions workflows w queue)
        → All (Comes w (q ∷ queue)) (
            if b
            then elim found [
              | none ↦ queued_versions workflows w queue
              | some u ↦
                  record { execution_id = q.execution_id; name = u.name; version = u.version }
                  ∷ queued_versions workflows w queue
            ]
            else queued_versions workflows w queue)
    joined found false e h = h
    joined none true e h = h
    joined (some u) true e h = ((q, inl refl, refl, e), h)

cancel_rows-cases :
    (reports : Codec Report) (now : ℕ) (message : String) (row : VersionRow)
    (rows : List VersionRow) (executions after : List ExecutionRow)
    → cancel_rows reports now message (row ∷ rows) executions ≡ some after
    → (payload : String) × (cancel_rows reports now message rows
          (finish now row.execution_id "error" payload executions)
        ≡ some after)
unfolding cancel_rows
cancel_rows-cases reports now message row rows executions after e =
    elim (Option-cases (reports.encode (aborted "generic" row.name row.version message))) [
      | inl bad ↦ absurd (cc (rw (bad, cancel_rows) at e))
      | inr (payload, good) ↦ (payload, rw (good, cancel_rows) at e)
    ]

-- Cancelling changes neither the ids nor what backs a row of another execution.
cancel_rows-keeps :
    (reports : Codec Report) (now : ℕ) (message : String) (rows : List VersionRow)
    (executions after : List ExecutionRow) (q : QueueRow)
    → cancel_rows reports now message rows executions ≡ some after
    → All (λ r. q.execution_id ≢ r.execution_id) rows
    → is_backed after q ≡ is_backed executions q
unfolding cancel_rows
cancel_rows-keeps reports now message [] executions after q e h =
    ap (λ es. is_backed es q) (sym (some-injective executions after e))
cancel_rows-keeps reports now message (row ∷ rows) executions after q e h =
    let (payload, next) = cancel_rows-cases reports now message row rows executions after e in
    cancel_rows-keeps reports now message rows
      (finish now row.execution_id "error" payload executions) after q next h.1
    ∙ is_backed-update row.execution_id _ executions q (λ x. refl) h.0

cancel_rows-numbered :
    (reports : Codec Report) (now : ℕ) (message : String) (rows : List VersionRow)
    (executions after : List ExecutionRow) (n : ℕ)
    → cancel_rows reports now message rows executions ≡ some after
    → All (λ x. x.id ≤ n) executions
    → All (λ x. x.id ≤ n) after
unfolding cancel_rows
cancel_rows-numbered reports now message [] executions after n e h =
    subst (All (λ x. x.id ≤ n)) (some-injective executions after e) h
cancel_rows-numbered reports now message (row ∷ rows) executions after n e h =
    let (payload, next) = cancel_rows-cases reports now message row rows executions after e in
    cancel_rows-numbered reports now message rows _ after n next
      (All-update (λ x. x.id ≤ n) _ _ executions (λ x k. k) h)

cancel_rows-Rises :
    (reports : Codec Report) (now : ℕ) (message : String) (rows : List VersionRow)
    (executions after : List ExecutionRow)
    → cancel_rows reports now message rows executions ≡ some after
    → Rises 0 executions
    → Rises 0 after
unfolding cancel_rows
cancel_rows-Rises reports now message [] executions after e h =
    subst (Rises 0) (some-injective executions after e) h
cancel_rows-Rises reports now message (row ∷ rows) executions after e h =
    let (payload, next) = cancel_rows-cases reports now message row rows executions after e in
    cancel_rows-Rises reports now message rows _ after next
      (Rises-update row.execution_id _ 0 executions (λ x. refl) h)

pending-select :
    (w v : String) (queue : List QueueRow)
    → pending v (select (λ q. not (q.workflow_id =ₛ w)) queue)
      ≡ (if v =ₛ w then [] else pending v queue)
pending-select w v [] = ground arith
pending-select w v (q ∷ queue) =
    ground
      (arith, pending-select w v queue, eq_iff q.workflow_id w, eq_iff q.workflow_id v, eq_iff v w)

-- The executions that the join lists are those that are pending, where the workflow exists.
versions-pending :
    (workflows : List Workflow) (w : String) (u : Workflow) (queue : List QueueRow)
    → find (λ x. x.id =ₛ w) workflows ≡ some u
    → map (λ r. r.execution_id) (queued_versions workflows w queue) ≡ pending w queue
unfolding queued_versions
versions-pending workflows w u [] known = refl
versions-pending workflows w u (q ∷ queue) known = elim (Bool-cases (q.workflow_id =ₛ w)) [
  | inr theirs ↦ rw (theirs, queued_versions) (versions-pending workflows w u queue known)
  | inl ours ↦
      let same = (eq_iff q.workflow_id w).0 ours in
      let found = subst (λ x. find (λ y. y.id =ₛ x) workflows ≡ some u) (sym same) known in
      rw (ours, found, queued_versions)
        (ap (◌∷◌ q.execution_id) (versions-pending workflows w u queue known))
]

-- The outcome of a cancellation for the workflow `w`, with `v` any workflow: the queue of `w` is
-- empty and its pending executions are the ones returned, other queues are as they were; or a report
-- cannot be marshalled and nothing is written.
abbrev pub Cancels : Db → String → String → Db × Result StoreError (List ℕ) → Type 0
Cancels db v w (db', ok ids) =
    (ids ≡ pending w db.queue) × (pending v db'.queue ≡ (if v =ₛ w then [] else pending v db.queue))
Cancels db v w (db', err e) = (db' ≡ db) × (e ≡ marshal_failed)

-- Cancelling the queued executions of a workflow that exists empties its queue and no other, and
-- returns exactly the executions that were pending; an error leaves everything as it was.
pub cancel-Cancels :
    (reports : Codec Report) (now : ℕ) (db : Db) (v w message : String) (u : Workflow)
    → find (λ x. x.id =ₛ w) db.workflows ≡ some u
    → Cancels db v w (cancel_queued_executions reports now w message db)
unfolding cancel_queued_executions
cancel-Cancels reports now db v w message u known =
    elim (Option-cases
      (cancel_rows reports now message (queued_versions db.workflows w db.queue) db.executions)) [
        | inl bad ↦ rw (bad, cancel_queued_executions) (refl, refl)
        | inr (after, good) ↦
            rw (good, cancel_queued_executions)
              (versions-pending db.workflows w u db.queue known, pending-select w v db.queue)
      ]

module _ (now : ℕ) (db : Db) (v : IsValid now db) (later : ℕ) (le : now ≤ later) where
  -- Cancelling the queued executions of a workflow keeps the invariant, on success and on failure.
  pub cancel-IsValid :
      (reports : Codec Report) (w message : String)
      → IsValid later (cancel_queued_executions reports later w message db).0
  unfolding cancel_queued_executions
  cancel-IsValid reports w message =
      elim (Option-cases (cancel_rows reports later message rows db.executions)) [
        | inl bad ↦ rw (bad, cancel_queued_executions) (IsValid-later now db v later le)
        | inr (after, good) ↦
            rw (good, cancel_queued_executions)
              (record {
                sorted = Ascends-select keep 0 0 0 db.queue v.sorted;
                issued = All-select _ keep db.queue (IsValid-later now db v later le).issued;
                rising =
                    cancel_rows-Rises reports later message rows db.executions after good v.rising;
                numbered =
                    cancel_rows-numbered reports later message rows db.executions after _ good
                      v.numbered;
                backed = All-of_In _ (select keep db.queue) λ q m.
                    cancel_rows-keeps reports later message rows db.executions after q good
                      (distinct q m)
                    ∙ All-In _ q db.queue v.backed (In-select q keep db.queue m);
              })
      ]
    where
      keep : QueueRow → Bool
      keep q = not (q.workflow_id =ₛ w)

      rows : List VersionRow
      rows = queued_versions db.workflows w db.queue

      distinct :
          (q : QueueRow)
          → In q (select keep db.queue)
          → All (λ r. q.execution_id ≢ r.execution_id) rows
      distinct q m =
          All-map (Comes w db.queue) _ rows
            (λ r c same.
              All-In _ q (select keep db.queue)
                (select-distinct keep 0 0 0 c.0 db.queue v.sorted c.1 (rw c.3 refl)) m
                (same ∙ sym c.2))
            (queued_versions-Comes db.workflows w db.queue)
