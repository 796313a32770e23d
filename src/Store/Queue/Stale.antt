-- ===== src/Store/Queue/Stale.antt =====
-- store.go: `MarkStaleRunningExecutions` touches no execution that waits in the queue.
use lumn.Base.{
  ℕ, ◌<◌, String, ◌≡◌, refl, sym, ap, subst, ◌∙◌, ◌≢◌, inl, inr, Bool, true, ◌&&◌, List, [], ◌∷◌,
  arith, ◌==◌, ◌=ₛ◌, All, In, All-In, All-of_In, exists-In, Bool-cases, Option-cases, Result-cases,
  eq_iff, find,
}
use lumn.Report.{Report}
use lumn.Store.{Db, Codec, ExecutionRow, Workflow, status_queued, status_running, status_error}
use lumn.Store.Queue.{
  VersionRow, aborted, running_versions, mark_stale_rows, mark_stale_running_executions,
  complete_execution,
}
use lumn.Store.Queue.Valid.{IsValid, Rises, complete-IsValid, complete_execution-queue}

In-rising :
    (i : ℕ) (a : ExecutionRow) (rows : List ExecutionRow) → Rises i rows → In a rows → i < a.id
In-rising i a [] h m = absurd m
In-rising i a (e ∷ rows) h (inl same) = omega (arith, ap (λ (x : ExecutionRow). x.id) same)
In-rising i a (e ∷ rows) h (inr m) = let above = In-rising e.id a rows h.1 m in omega arith

-- An id has one row at most.
execution_unique :
    (i : ℕ) (a b : ExecutionRow) (rows : List ExecutionRow)
    → Rises i rows
    → In a rows
    → In b rows
    → a.id ≡ b.id
    → a ≡ b
execution_unique i a b [] h m n same = absurd m
execution_unique i a b (e ∷ rows) h (inl p) (inl r) same = p ∙ sym r
execution_unique i a b (e ∷ rows) h (inl p) (inr n) same =
    let above = In-rising e.id b rows h.1 n in
    absurd (omega (arith, ap (λ (x : ExecutionRow). x.id) p))
execution_unique i a b (e ∷ rows) h (inr m) (inl r) same =
    let above = In-rising e.id a rows h.1 m in
    absurd (omega (arith, ap (λ (x : ExecutionRow). x.id) r))
execution_unique i a b (e ∷ rows) h (inr m) (inr n) same =
    execution_unique e.id a b rows h.1 m n same

-- No row of the queue is about the execution.
abbrev Free : Db → VersionRow → Type 0
Free db r = All (λ q. q.execution_id ≢ r.execution_id) db.queue

parts : (a b c : Bool) → (a && (b && c)) ≡ true → (a ≡ true) × (b ≡ true)
parts a b c h = ground arith

module _ (now : ℕ) (db : Db) (v : IsValid now db) where
  -- An execution that runs does not wait.
  running-Free :
      (e : ExecutionRow)
      → In e db.executions
      → (e.status =ₛ status_running) ≡ true
      → All (λ q. q.execution_id ≢ e.id) db.queue
  running-Free e m running = All-of_In _ db.queue λ q k same.
      let (f, mf, backs) = exists-In _ db.executions (All-In _ q db.queue v.backed k) in
      let (numbered, queued) = parts (f.id == q.execution_id) (f.status =ₛ status_queued) _ backs in
      let at : f.id ≡ e.id = ground arith in
      let one = execution_unique 0 f e db.executions v.rising mf m at in
      let waits : e.status ≡ status_queued =
        sym (ap (λ (x : ExecutionRow). x.status) one) ∙ (eq_iff f.status status_queued).0 queued in
      let clash = rw waits at running in cc clash

  running_versions-Free :
      (workflows : List Workflow) (rows : List ExecutionRow)
      → ((e : ExecutionRow) → In e rows → In e db.executions)
      → All (Free db) (running_versions workflows rows)
  unfolding running_versions
  running_versions-Free workflows [] within = tt
  running_versions-Free workflows (e ∷ rows) within =
      let rest = running_versions-Free workflows rows (λ x m. within x (inr m)) in
      elim (Bool-cases (e.status =ₛ status_running)) [
        | inr other ↦ rw (other, running_versions) rest
        | inl running ↦ elim (Option-cases (find (λ w. w.id =ₛ e.workflow_id) workflows)) [
          | inl unknown ↦ rw (running, unknown, running_versions) rest
          | inr (w, known) ↦
              rw (running, known, running_versions)
                (running-Free e (within e (inl refl)) running, rest)
        ]
      ]

mark_stale_rows-IsValid :
    (reports : Codec Report) (now : ℕ) (message : String) (rows : List VersionRow) (db : Db)
    → IsValid now db
    → All (Free db) rows
    → IsValid now (mark_stale_rows reports now message rows db).0
unfolding mark_stale_rows
mark_stale_rows-IsValid reports now message [] db v free = v
mark_stale_rows-IsValid reports now message (row ∷ rows) db v free =
    let report = aborted "runtime" row.name row.version message in
    let out = complete_execution reports now row.execution_id status_error report db in
    let v' =
      complete-IsValid now db v now (omega arith) reports row.execution_id status_error report
        free.0 in
    let same = complete_execution-queue reports now row.execution_id status_error report db in
    elim (Result-cases out.1) [
      | inr (e, bad) ↦ rw (bad, mark_stale_rows) v'
      | inl (u, good) ↦
          rw (good, mark_stale_rows)
            (mark_stale_rows-IsValid reports now message rows out.0 v' (
              subst (λ queue. All (λ r. All (λ q. q.execution_id ≢ r.execution_id) queue) rows)
                (sym same) free.1))
    ]

-- Marking the executions that were left running keeps the invariant, on success and on failure.
pub mark_stale-IsValid :
    (now : ℕ) (db : Db) (reports : Codec Report) (message : String)
    → IsValid now db
    → IsValid now (mark_stale_running_executions reports now message db).0
unfolding mark_stale_running_executions
mark_stale-IsValid now db reports message v =
    mark_stale_rows-IsValid reports now message (running_versions db.workflows db.executions) db v
      (running_versions-Free now db v db.workflows db.executions (λ e m. m))
