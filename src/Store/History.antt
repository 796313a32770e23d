-- ===== src/Store/History.antt =====
-- store.go: every sequence of operations on the tables from the empty database on.
use lumn.Base.{
  ℕ, suc, ◌≤◌, String, ◌≡◌, ◌∙◌, refl, Option, List, [], ◌∷◌, Result, ok, err, Result-cases,
  Option-cases, ◌≢◌, inl, inr, Bool, true, false, not, ◌&&◌, ◌==◌, ◌=ₛ◌, if◌then◌else◌, select, All,
  All-In, All-of_In, All-select, All-select_self, In-select, In-select_of, exists-In, exists-of_In,
  Bool-cases, eq_iff, arith,
}
use lumn.Report.{Report}
use lumn.Store.{
  Db, Codec, StoreError, ExecutionRow, QueueRow, TriggerRow, Trigger, Workflow, empty_db,
  status_queued, from_trigger_row,
}
use lumn.Store.Triggers.{
  create_trigger, create_triggers, replace_workflow_triggers, set_trigger_runtime,
}
use lumn.Store.Queue.Stale.{mark_stale-IsValid}
use lumn.Store.Workflows.{
  may_refer, cascade, upsert_workflow, taken, delete_workflow, set_workflow_status,
}
use lumn.Store.Queue.{
  create_queued_execution, claim_next_queue_item, complete_execution, cancel_queued_executions,
  mark_stale_running_executions,
}
use lumn.Store.Queue.Fifo.{Ascends-select}
use lumn.Store.Queue.Valid.{
  IsValid, Rises-select, IsValid-later, create-IsValid, claim-IsValid, complete-IsValid,
}
use lumn.Store.Queue.Cancel.{cancel-IsValid}
use lumn.Store.Retention.{apply_retention}
use lumn.Store.Retention.Keeps.{retention-keeps_queue}

-- One operation on the tables at a time. An execution is completed only once it does not wait any more:
-- the worker completes what it has claimed.
pub data Step {Doc : Type 0} (json : Codec Doc) (reports : Codec Report) (now : ℕ) (db : Db)
    : Db → Type 0 where
  creates :
      (w kind : String) (context : Doc)
      → Step json reports now db (create_queued_execution json reports now w kind context db).0
  claims : (w : String) → Step json reports now db (claim_next_queue_item json now w db).0
  completes :
      (id : ℕ) (status : String) (report : Report)
      → All (λ q. q.execution_id ≢ id) db.queue
      → Step json reports now db (complete_execution reports now id status report db).0
  cancels :
      (w message : String)
      → Step json reports now db (cancel_queued_executions reports now w message db).0
  retains :
      (max_executions max_days : ℕ)
      → Step json reports now db (apply_retention now max_executions max_days db).0
  deletes : (id : String) → Step json reports now db (delete_workflow id db).0
  registers : (w : Workflow) → Step json reports now db (upsert_workflow now w db).0
  marks_stale :
      (message : String)
      → Step json reports now db (mark_stale_running_executions reports now message db).0
  replaces_triggers :
      (w : String) (triggers : List (Trigger Doc))
      → Step json reports now db (replace_workflow_triggers json now w triggers db).0
  sets_runtime :
      (id : ℕ) (status : String) (next_run_at : Option ℕ)
      → Step json reports now db (set_trigger_runtime now id status next_run_at db).0
  -- another connection of the pool, which enforces foreign keys or does not
  connects : (enforced : Bool) → Step json reports now db (record db { foreign_keys = enforced })
  sets_status :
      (id status : String) → Step json reports now db (set_workflow_status now id status db).0

-- A history of the database: the clock does not go back between two operations.
pub data Reach {Doc : Type 0} (json : Codec Doc) (reports : Codec Report) : ℕ → Db → Type 0 where
  start : (now : ℕ) → Reach json reports now empty_db
  after :
      (now later : ℕ) (db db' : Db)
      → Reach json reports now db
      → now ≤ later
      → Step json reports later db db'
      → Reach json reports later db'

last : (a b c : Bool) → (a && (b && c)) ≡ true → c ≡ true
last a b c h = ground arith

-- The operation leaves the two tables and their sequences alone.
abbrev pub Apart : Db → Db → Type 0
Apart db db' =
    (db'.executions ≡ db.executions)
    × (db'.queue ≡ db.queue)
    × (db'.execution_seq ≡ db.execution_seq)
    × (db'.queue_seq ≡ db.queue_seq)

Apart-IsValid : (now : ℕ) (db db' : Db) → Apart db db' → IsValid now db → IsValid now db'
Apart-IsValid now db db' (executions, queue, seq, queue_seq) v = record {
  sorted = rw queue v.sorted;
  issued = rw (queue, seq, queue_seq) v.issued;
  rising = rw executions v.rising;
  numbered = rw (executions, seq) v.numbered;
  backed = rw (queue, executions) v.backed;
}

cascade-IsValid : (now : ℕ) (id : String) (db : Db) → IsValid now db → IsValid now (cascade id db)
cascade-IsValid now id db v = record {
  sorted = Ascends-select _ 0 0 0 db.queue v.sorted;
  issued = All-select _ _ db.queue v.issued;
  rising = Rises-select _ 0 db.executions v.rising;
  numbered = All-select _ _ db.executions v.numbered;
  backed = All-of_In _ (select keep db.queue) λ q m.
      let row = In-select q keep db.queue m in
      let kept = All-In _ q (select keep db.queue) (All-select_self keep db.queue) m in
      let (e, me, he) = exists-In _ db.executions (All-In _ q db.queue v.backed row) in
      exists-of_In _ e _ (In-select_of _ e db.executions me (stays e q he kept)) he;
}
  where
    keep : QueueRow → Bool
    keep q = not (q.workflow_id =ₛ id)

    stays :
        (e : ExecutionRow) (q : QueueRow)
        → (e.id == q.execution_id && (e.status =ₛ status_queued && e.workflow_id =ₛ q.workflow_id))
          ≡ true
        → not (q.workflow_id =ₛ id) ≡ true
        → not (e.workflow_id =ₛ id) ≡ true
    stays e q h k =
        let same = (eq_iff e.workflow_id q.workflow_id).0 (
          last (e.id == q.execution_id) (e.status =ₛ status_queued) (e.workflow_id =ₛ q.workflow_id)
            h) in
        rw same k

delete-IsValid :
    (now : ℕ) (id : String) (db : Db) → IsValid now db → IsValid now (delete_workflow id db).0
unfolding delete_workflow
delete-IsValid now id db v =
    let left : Db = record db { workflows = select (λ w. not (w.id =ₛ id)) db.workflows } in
    let kept = Apart-IsValid now db left (refl, refl, refl, refl) v in
    either db.foreign_keys (cascade id left) left (cascade-IsValid now id left kept) kept
  where
    either :
        (b : Bool) (x y : Db) → IsValid now x → IsValid now y → IsValid now (if b then x else y)
    either true x y h k = h
    either false x y h k = k

-- The row that `UpsertWorkflow` writes.
abbrev dated : ℕ → Workflow → Workflow
dated now w = record w {
  created_at = if w.created_at == 0 then now else w.created_at;
  updated_at = if w.updated_at == 0 then now else w.updated_at;
}

pub upsert-Apart : (now : ℕ) (w : Workflow) (db : Db) → Apart db (upsert_workflow now w db).0
unfolding upsert_workflow
upsert-Apart now w db = elim (Bool-cases (taken (dated now w) db.workflows)) [
  | inl clash ↦ rw clash (refl, refl, refl, refl)
  | inr free ↦ rw free (refl, refl, refl, refl)
]

-- The two tables are untouched where triggers are stored.
abbrev Stores : {A : Type 0} → Db → Result StoreError (Db × A) → Type 0
Stores db (ok (db', a)) = Apart db db'
Stores db (err e) = Unit

module _ {Doc : Type 0} (json : Codec Doc) (now : ℕ) (w : String) where
  create_trigger-Stores : (t : Trigger Doc) (db : Db) → Stores db (create_trigger json now w t db)
  unfolding create_trigger
  create_trigger-Stores t db = elim (Option-cases (json.encode t.config)) [
    | inl bad ↦ rw (bad, create_trigger) tt
    | inr (payload, good) ↦ elim (Bool-cases (may_refer db w)) [
      | inr missing ↦ rw (good, missing, create_trigger) tt
      | inl known ↦
          let row : TriggerRow = record {
            id = suc db.trigger_seq;
            workflow_id = w;
            kind = t.kind;
            config = payload;
            next_run_at = t.next_run_at;
            status = t.status;
            created_at = now;
            updated_at = now;
          } in
          elim (Result-cases (from_trigger_row json row)) [
            | inr (e, unread) ↦ rw (good, known, unread, create_trigger) tt
            | inl (item, read) ↦ rw (good, known, read, create_trigger) (refl, refl, refl, refl)
          ]
    ]
  ]

  create_triggers-Stores :
      (ts : List (Trigger Doc)) (db : Db) → Stores db (create_triggers json now w ts db)
  unfolding create_triggers
  create_triggers-Stores [] db = (refl, refl, refl, refl)
  create_triggers-Stores (t ∷ ts) db = elim (Result-cases (create_trigger json now w t db)) [
    | inr (e, bad) ↦ rw (bad, create_triggers) tt
    | inl ((db1, item), good) ↦ elim (Result-cases (create_triggers json now w ts db1)) [
      | inr (e, bad) ↦ rw (good, bad, create_triggers) tt
      | inl ((db2, items), rest) ↦
          let one = create_trigger-Stores t db in
          let more = create_triggers-Stores ts db1 in
          let first = rw good at one in
          let others = rw rest at more in
          rw (good, rest, create_triggers)
            (others.0 ∙ first.0, others.1 ∙ first.1, others.2 ∙ first.2, others.3 ∙ first.3)
    ]
  ]

  replace_workflow_triggers-Apart :
      (ts : List (Trigger Doc)) (db : Db) → Apart db (replace_workflow_triggers json now w ts db).0
  unfolding replace_workflow_triggers
  replace_workflow_triggers-Apart ts db =
      let cleared : Db = record db {
        triggers = select (λ t. not (t.workflow_id =ₛ w)) db.triggers;
      } in
      let stores = create_triggers-Stores ts cleared in
      elim (Result-cases (create_triggers json now w ts cleared)) [
        | inr (e, bad) ↦ rw (bad, replace_workflow_triggers) (refl, refl, refl, refl)
        | inl ((db', items), good) ↦ rw (good, replace_workflow_triggers) (rw good at stores)
      ]

module _ {Doc : Type 0} (json : Codec Doc) (reports : Codec Report) where
  Step-IsValid :
      (now later : ℕ) (db db' : Db)
      → IsValid now db
      → now ≤ later
      → Step json reports later db db'
      → IsValid later db'
  unfolding set_workflow_status set_trigger_runtime
  Step-IsValid now later db _ v le (Step.creates w kind context) =
      create-IsValid now db v later le json reports w kind context
  Step-IsValid now later db _ v le (Step.claims w) = claim-IsValid now db v later le json w
  Step-IsValid now later db _ v le (Step.completes id status report free) =
      complete-IsValid now db v later le reports id status report free
  Step-IsValid now later db _ v le (Step.cancels w message) =
      cancel-IsValid now db v later le reports w message
  Step-IsValid now later db _ v le (Step.retains max_executions max_days) =
      (retention-keeps_queue later max_executions max_days db (IsValid-later now db v later le)).0
  Step-IsValid now later db _ v le (Step.deletes id) =
      delete-IsValid later id db (IsValid-later now db v later le)
  Step-IsValid now later db _ v le (Step.registers w) =
      Apart-IsValid later db (upsert_workflow later w db).0 (upsert-Apart later w db)
        (IsValid-later now db v later le)
  Step-IsValid now later db _ v le (Step.marks_stale message) =
      mark_stale-IsValid later db reports message (IsValid-later now db v later le)
  Step-IsValid now later db _ v le (Step.replaces_triggers w triggers) =
      Apart-IsValid later db (replace_workflow_triggers json later w triggers db).0
        (replace_workflow_triggers-Apart json later w triggers db) (IsValid-later now db v later le)
  Step-IsValid now later db _ v le (Step.sets_runtime id status next_run_at) =
      Apart-IsValid later db (set_trigger_runtime later id status next_run_at db).0
        (refl, refl, refl, refl) (IsValid-later now db v later le)
  Step-IsValid now later db _ v le (Step.connects enforced) =
      Apart-IsValid later db (record db { foreign_keys = enforced }) (refl, refl, refl, refl)
        (IsValid-later now db v later le)
  Step-IsValid now later db _ v le (Step.sets_status id status) =
      Apart-IsValid later db (set_workflow_status later id status db).0 (refl, refl, refl, refl)
        (IsValid-later now db v later le)

  -- Whatever operations run on the empty database, in any order, on connections that enforce foreign
  -- keys or not, and at times that do not go back: ids
  -- and times rise along the queue and were given out, and every row of the queue belongs to an
  -- execution that is queued in the same workflow. An execution is only completed once it does not
  -- wait in the queue any more.
  pub Reach-IsValid : (now : ℕ) (db : Db) → Reach json reports now db → IsValid now db
  Reach-IsValid now _ (Reach.start _) = record {
    sorted = tt;
    issued = tt;
    rising = tt;
    numbered = tt;
    backed = tt;
  }
  Reach-IsValid later db' (Reach.after now _ db _ before le step) =
      Step-IsValid now later db db' (Reach-IsValid now db before) le step
