-- ===== src/Store/Queue/Valid.antt =====
-- store.go: the invariant of the tables `executions` and `queue`, and the operations that keep it.
use lumn.Base.{
  ℕ, ◌≤◌, ◌<◌, String, ◌≡◌, refl, sym, ap, ◌∙◌, subst, ◌≢◌, inl, inr, Bool, true, false, not, ◌&&◌,
  List, [], ◌∷◌, ◌++◌, arith, ◌==◌, ◌=ₛ◌, ==_refl, select, exists, update, All, In, All-In,
  All-of_In, All-map, All-append, All-select, All-select_self, All-update, In-select, exists-append,
  exists-update, Bool-cases, Option-cases, eq_iff,
}
use lumn.Report.{Report}
use lumn.Store.{Db, Codec, ExecutionRow, QueueRow, status_queued}
use lumn.Store.Workflows.{may_refer}
use lumn.Store.Queue.{
  create_queued_execution, claim_next_queue_item, complete_execution, enqueued, new_queue_row,
  new_execution, claimed,
}
use lumn.Store.Queue.Fifo.{
  Ascends, Ascends-select, In-above, next_queue_row-none, next_queue_row-head,
}

-- The queue row's execution exists, is queued, and belongs to the same workflow.
abbrev pub is_backed : List ExecutionRow → QueueRow → Bool
is_backed executions q =
    exists
      (λ e. e.id == q.execution_id && (e.status =ₛ status_queued && e.workflow_id =ₛ q.workflow_id))
      executions

-- The ids and the time of a queue row are none that the next insertion will give out.
abbrev pub Issued : Db → ℕ → QueueRow → Type 0
Issued db now q = (q.id ≤ db.queue_seq) × (q.execution_id ≤ db.execution_seq) × (q.queued_at ≤ now)

-- The ids rise along the table of executions.
abbrev pub Rises : ℕ → List ExecutionRow → Type 0
Rises i [] = Unit
Rises i (e ∷ executions) = (i < e.id) × Rises e.id executions

Rises-append :
    (i : ℕ) (executions : List ExecutionRow) (r : ExecutionRow)
    → Rises i executions
    → All (λ e. e.id < r.id) executions
    → i < r.id
    → Rises i (executions ++ r ∷ [])
Rises-append i [] r h k a = (a, tt)
Rises-append i (e ∷ executions) r h k a = (h.0, Rises-append e.id executions r h.1 k.1 k.0)

Rises-mono :
    (i j : ℕ) (executions : List ExecutionRow) → j ≤ i → Rises i executions → Rises j executions
Rises-mono i j [] le h = tt
Rises-mono i j (e ∷ executions) le h = (omega arith, h.1)

pub Rises-select :
    (p : ExecutionRow → Bool) (i : ℕ) (executions : List ExecutionRow)
    → Rises i executions
    → Rises i (select p executions)
Rises-select p i [] h = tt
Rises-select p i (e ∷ executions) h =
    ground (arith, Rises-select p e.id executions h.1, Rises-mono e.id i (select p executions))

-- A rewriting by id that keeps the ids.
pub Rises-update :
    (id : ℕ) (f : ExecutionRow → ExecutionRow) (i : ℕ) (executions : List ExecutionRow)
    → ((e : ExecutionRow) → (f e).id ≡ e.id)
    → Rises i executions
    → Rises i (update (λ e. e.id == id) f executions)
Rises-update id f i [] keep h = tt
Rises-update id f i (e ∷ executions) keep h =
    ground (arith, keep e, Rises-update id f e.id executions keep h.1)

-- At the time `now`: queue rows rise in id, execution and time; no sequence will repeat an id; and
-- every queue row stands for a queued execution of its workflow. Executions rise in id.
pub record IsValid (now : ℕ) (db : Db) : Type 0 where
  pub sorted : Ascends 0 0 0 db.queue
  pub issued : All (Issued db now) db.queue
  pub rising : Rises 0 db.executions
  pub numbered : All (λ e. e.id ≤ db.execution_seq) db.executions
  pub backed : All (λ q. is_backed db.executions q ≡ true) db.queue

Ascends-append :
    (i e t : ℕ) (queue : List QueueRow) (r : QueueRow)
    → Ascends i e t queue
    → All
        (λ q. (q.id < r.id) × (q.execution_id < r.execution_id) × (q.queued_at ≤ r.queued_at))
        queue
    → i < r.id
    → e < r.execution_id
    → t ≤ r.queued_at
    → Ascends i e t (queue ++ r ∷ [])
Ascends-append i e t [] r h k a b c = (a, b, c, tt)
Ascends-append i e t (q ∷ queue) r h k a b c = (
  h.0,
  h.1,
  h.2,
  Ascends-append q.id q.execution_id q.queued_at queue r h.3 k.1 k.0.0 k.0.1 k.0.2,
)

-- A row whose execution is another one does not notice a rewriting of that one.
pub is_backed-update :
    (id : ℕ) (f : ExecutionRow → ExecutionRow) (executions : List ExecutionRow) (q : QueueRow)
    → ((e : ExecutionRow) → (f e).id ≡ e.id)
    → q.execution_id ≢ id
    → is_backed (update (λ e. e.id == id) f executions) q ≡ is_backed executions q
is_backed-update id f executions q keep other =
    exists-update _ (λ e. e.id == id) f executions (λ e hit. ground (arith, keep e))

-- An execution has one row at most.
row_unique :
    (i e t : ℕ) (a b : QueueRow) (queue : List QueueRow)
    → Ascends i e t queue
    → In a queue
    → In b queue
    → a.execution_id ≡ b.execution_id
    → a ≡ b
row_unique i e t a b [] h m n same = absurd m
row_unique i e t a b (q ∷ queue) h (inl p) (inl r) same = p ∙ sym r
row_unique i e t a b (q ∷ queue) h (inl p) (inr n) same =
    let above = In-above q.id q.execution_id q.queued_at b queue h.3 n in
    absurd (omega (arith, ap (λ (x : QueueRow). x.execution_id) p))
row_unique i e t a b (q ∷ queue) h (inr m) (inl r) same =
    let above = In-above q.id q.execution_id q.queued_at a queue h.3 m in
    absurd (omega (arith, ap (λ (x : QueueRow). x.execution_id) r))
row_unique i e t a b (q ∷ queue) h (inr m) (inr n) same =
    row_unique q.id q.execution_id q.queued_at a b queue h.3 m n same

-- Rows that a test keeps have other executions than a row that it refuses.
pub select-distinct :
    (p : QueueRow → Bool) (i e t : ℕ) (r : QueueRow) (queue : List QueueRow)
    → Ascends i e t queue
    → In r queue
    → p r ≡ false
    → All (λ q. q.execution_id ≢ r.execution_id) (select p queue)
select-distinct p i e t r queue h m refused = All-of_In _ (select p queue) λ q k same.
    let kept : p q ≡ true = All-In _ q (select p queue) (All-select_self p queue) k in
    let one = row_unique i e t q r queue h (In-select q p queue k) m same in cc (ap p one)

module _ (now : ℕ) (db : Db) (v : IsValid now db) (later : ℕ) (le : now ≤ later) where
  pub IsValid-later : IsValid later db
  IsValid-later = record {
    sorted = v.sorted;
    issued = All-map (Issued db now) _ db.queue (λ q h. (h.0, h.1, omega arith)) v.issued;
    rising = v.rising;
    numbered = v.numbered;
    backed = v.backed;
  }

  enqueued-IsValid : (w kind payload : String) → IsValid later (enqueued later db w kind payload)
  enqueued-IsValid w kind payload =
      let r = new_queue_row later db w kind payload in
      let e = new_execution later db w kind in
      record {
        sorted =
            Ascends-append 0 0 0 db.queue r v.sorted
              (All-map (Issued db now) _ db.queue (λ q h. (omega arith, omega arith, omega arith))
                v.issued)
              (omega arith) (omega arith) (omega arith);
        issued =
            All-append _ db.queue r
              (All-map (Issued db now) _ db.queue (λ q h. (omega arith, omega arith, omega arith))
                v.issued)
              (omega arith, omega arith, omega arith);
        rising =
            Rises-append 0 db.executions e v.rising
              (All-map (λ e. e.id ≤ db.execution_seq) _ db.executions (λ x h. omega arith)
                v.numbered)
              (omega arith);
        numbered =
            All-append _ db.executions e
              (All-map (λ e. e.id ≤ db.execution_seq) _ db.executions (λ x h. omega arith)
                v.numbered)
              (omega arith);
        backed =
            All-append _ db.queue r
              (All-map (λ q. is_backed db.executions q ≡ true) _ db.queue
                (λ q h. rw (exists-append _ db.executions e, h) refl) v.backed)
              (rw (exists-append _ db.executions e) (ground (arith, eq_iff w w)));
      }

  claimed-IsValid : (r : QueueRow) → In r db.queue → IsValid later (claimed later r db)
  claimed-IsValid r m =
      let p : QueueRow → Bool = λ q. not (q.id == r.id) in
      let refused : p r ≡ false = rw (==_refl r.id) refl in
      record {
        sorted = Ascends-select p 0 0 0 db.queue v.sorted;
        issued = All-select _ p db.queue IsValid-later.issued;
        rising = Rises-update r.execution_id _ 0 db.executions (λ e. refl) v.rising;
        numbered = All-update _ _ _ db.executions (λ e h. h) v.numbered;
        backed = All-of_In _ (select p db.queue) λ q k.
            let other =
              All-In _ q (select p db.queue) (select-distinct p 0 0 0 r db.queue v.sorted m refused)
                k in
            is_backed-update r.execution_id _ db.executions q (λ e. refl) other
            ∙ All-In _ q db.queue v.backed (In-select q p db.queue k);
      }

  -- Creating a queued execution at a later time keeps the invariant, on success and on failure.
  pub create-IsValid :
      {Doc : Type 0} (json : Codec Doc) (reports : Codec Report) (w kind : String) (context : Doc)
      → IsValid later (create_queued_execution json reports later w kind context db).0
  unfolding create_queued_execution
  create-IsValid json reports w kind context = elim (Bool-cases (may_refer db w)) [
    | inr missing ↦ rw (missing, create_queued_execution) IsValid-later
    | inl known ↦ elim (Option-cases (json.encode context)) [
      | inl bad ↦ rw (known, bad, create_queued_execution) IsValid-later
      | inr (payload, good) ↦
          rw (known, good, create_queued_execution) (enqueued-IsValid w kind payload)
    ]
  ]

  claim_cases :
      {Doc : Type 0} (json : Codec Doc) (w : String) (rows : List QueueRow)
      → select (λ q. q.workflow_id =ₛ w) db.queue ≡ rows
      → IsValid later (claim_next_queue_item json later w db).0
  unfolding claim_next_queue_item
  claim_cases json w [] e =
      rw (next_queue_row-none w db.queue e, claim_next_queue_item) IsValid-later
  claim_cases json w (r ∷ rest) e =
      rw (next_queue_row-head w 0 0 0 db.queue r rest v.sorted e, claim_next_queue_item)
        (claimed-IsValid r (In-select r _ db.queue (subst (In r) (sym e) (inl refl))))

  -- Claiming the next item at a later time keeps the invariant.
  pub claim-IsValid :
      {Doc : Type 0} (json : Codec Doc) (w : String)
      → IsValid later (claim_next_queue_item json later w db).0
  claim-IsValid json w = claim_cases json w (select (λ q. q.workflow_id =ₛ w) db.queue) refl

  -- Completing an execution that is not waiting in the queue keeps the invariant.
  pub complete-IsValid :
      (reports : Codec Report) (id : ℕ) (status : String) (report : Report)
      → All (λ q. q.execution_id ≢ id) db.queue
      → IsValid later (complete_execution reports later id status report db).0
  unfolding complete_execution
  complete-IsValid reports id status report free = elim (Option-cases (reports.encode report)) [
    | inl bad ↦ rw (bad, complete_execution) IsValid-later
    | inr (payload, good) ↦
        rw (good, complete_execution)
          (record {
            sorted = v.sorted;
            issued = IsValid-later.issued;
            rising = Rises-update id _ 0 db.executions (λ e. refl) v.rising;
            numbered = All-update _ _ _ db.executions (λ e h. h) v.numbered;
            backed = All-of_In _ db.queue λ q m.
                is_backed-update id _ db.executions q (λ e. refl) (All-In _ q db.queue free m)
                ∙ All-In _ q db.queue v.backed m;
          })
  ]

-- Completing an execution leaves the table of the queue as it was.
pub complete_execution-queue :
    (reports : Codec Report) (now id : ℕ) (status : String) (r : Report) (db : Db)
    → (complete_execution reports now id status r db).0.queue ≡ db.queue
unfolding complete_execution
complete_execution-queue reports now id status r db = elim (Option-cases (reports.encode r)) [
  | inl bad ↦ rw (bad, complete_execution) refl
  | inr (payload, good) ↦ rw (good, complete_execution) refl
]
