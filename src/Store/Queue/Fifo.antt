-- ===== src/Store/Queue/Fifo.antt =====
-- store.go: the queue of a workflow, as the list of its executions in the order in which they are to
-- run.
use lumn.Base.{
  ℕ, ◌≤◌, ◌<◌, String, ◌≡◌, refl, sym, ap, subst, ◌≢◌, ◌⊎◌, inl, inr, Bool, true, false, not,
  Option, none, some, List, [], ◌∷◌, map, arith, ◌==◌, ◌=ₛ◌, Result, ok, err, select, All, In,
  Bool-cases, Option-cases, In-select, All-select_self, eq_iff,
}
use lumn.Store.{Db, Codec, StoreError, QueueRow, QueueItem, from_queue_row, unmarshal_failed}
use lumn.Store.Queue.{first_of_rows, next_queue_row, earlier, claim_next_queue_item}

-- The abstract queue of a workflow.
abbrev pub pending : String → List QueueRow → List ℕ
pending w queue = map (λ q. q.execution_id) (select (λ q. q.workflow_id =ₛ w) queue)

-- Ids, executions and times rise along the table from the given bounds.
abbrev pub Ascends : ℕ → ℕ → ℕ → List QueueRow → Type 0
Ascends i e t [] = Unit
Ascends i e t (q ∷ queue) =
    (i < q.id)
    × (e < q.execution_id)
    × (t ≤ q.queued_at)
    × Ascends q.id q.execution_id q.queued_at queue

Ascends-mono :
    (i e t i' e' t' : ℕ) (queue : List QueueRow)
    → i' ≤ i
    → e' ≤ e
    → t' ≤ t
    → Ascends i e t queue
    → Ascends i' e' t' queue
Ascends-mono i e t i' e' t' [] h k l m = tt
Ascends-mono i e t i' e' t' (q ∷ queue) h k l m = (omega arith, omega arith, omega arith, m.3)

pub Ascends-select :
    (p : QueueRow → Bool) (i e t : ℕ) (queue : List QueueRow)
    → Ascends i e t queue
    → Ascends i e t (select p queue)
Ascends-select p i e t [] h = tt
Ascends-select p i e t (q ∷ queue) h = ground (
  arith,
  Ascends-select p q.id q.execution_id q.queued_at queue h.3,
  Ascends-mono q.id q.execution_id q.queued_at i e t (select p queue),
)

first_of_rows-head :
    (best : QueueRow) (i e t : ℕ) (rows : List QueueRow)
    → best.id ≤ i
    → best.queued_at ≤ t
    → Ascends i e t rows
    → first_of_rows best rows ≡ best
unfolding first_of_rows
first_of_rows-head best i e t [] h k l = refl
first_of_rows-head best i e t (q ∷ rows) h k l =
    rw (later best q (omega arith) (omega arith))
      (first_of_rows-head best q.id q.execution_id q.queued_at rows (omega arith) (omega arith) l.3)
  where
    later : (a b : QueueRow) → a.id < b.id → a.queued_at ≤ b.queued_at → earlier b a ≡ false
    later a b p r = ground arith

-- The row that the query takes is the first one in the table.
pub next_queue_row-head :
    (w : String) (i e t : ℕ) (queue : List QueueRow) (r : QueueRow) (rest : List QueueRow)
    → Ascends i e t queue
    → select (λ q. q.workflow_id =ₛ w) queue ≡ r ∷ rest
    → next_queue_row w queue ≡ some r
unfolding next_queue_row
next_queue_row-head w i e t queue r rest h found =
    let sorted =
      subst (Ascends i e t) found (Ascends-select (λ q. q.workflow_id =ₛ w) i e t queue h) in
    rw (found, next_queue_row)
      (ap some (
        first_of_rows-head r r.id r.execution_id r.queued_at rest (omega arith) (omega arith)
          sorted.3))

pub next_queue_row-none :
    (w : String) (queue : List QueueRow)
    → select (λ q. q.workflow_id =ₛ w) queue ≡ []
    → next_queue_row w queue ≡ none
unfolding next_queue_row
next_queue_row-none w queue e = rw (e, next_queue_row) refl

-- The table without the row of an id.
abbrev pub without : ℕ → List QueueRow → List QueueRow
without id = select (λ q. not (q.id == id))

without-above :
    (id i e t : ℕ) (queue : List QueueRow) → id ≤ i → Ascends i e t queue → without id queue ≡ queue
without-above id i e t [] h k = refl
without-above id i e t (q ∷ queue) h k =
    ground (arith, without-above id q.id q.execution_id q.queued_at queue (omega arith) k.3)

pub In-above :
    (i e t : ℕ) (r : QueueRow) (queue : List QueueRow)
    → Ascends i e t queue
    → In r queue
    → (i < r.id) × (e < r.execution_id)
In-above i e t r [] h m = absurd m
In-above i e t r (q ∷ queue) h (inl same) = rw same (h.0, h.1)
In-above i e t r (q ∷ queue) h (inr m) =
    let above = In-above q.id q.execution_id q.queued_at r queue h.3 m in (omega arith, omega arith)

module _ (p : QueueRow → Bool) where
  -- Taking out a row that a test refuses changes nothing for that test.
  select-without_other :
      (i e t : ℕ) (r : QueueRow) (queue : List QueueRow)
      → Ascends i e t queue
      → In r queue
      → p r ≡ false
      → select p (without r.id queue) ≡ select p queue
  select-without_other i e t r [] h m refused = refl
  select-without_other i e t r (q ∷ queue) h (inl same) refused =
      let gone : (q.id == r.id) ≡ true = ground arith in
      rw (gone, without-above r.id q.id q.execution_id q.queued_at queue (ground arith) h.3)
        (rw (← same, refused) refl)
  select-without_other i e t r (q ∷ queue) h (inr m) refused =
      let above = In-above q.id q.execution_id q.queued_at r queue h.3 m in
      let kept : (q.id == r.id) ≡ false = ground arith in
      let ih = select-without_other q.id q.execution_id q.queued_at r queue h.3 m refused in
      rw kept (ground (arith, ih))

  -- Taking out the first row that passes a test leaves the others.
  select-without_first :
      (i e t : ℕ) (r : QueueRow) (rest queue : List QueueRow)
      → Ascends i e t queue
      → select p queue ≡ r ∷ rest
      → select p (without r.id queue) ≡ rest
  select-without_first i e t r rest [] h found = cc
  select-without_first i e t r rest (q ∷ queue) h found = elim (Bool-cases (p q)) [
    | inl hit ↦
        let split : (q ∷ select p queue) ≡ r ∷ rest = rw hit at found in
        let same : q ≡ r = cc split in
        let tail : select p queue ≡ rest = cc split in
        let gone : (q.id == r.id) ≡ true = ground (arith, ap (λ (x : QueueRow). x.id) same) in
        let bound : r.id ≤ q.id = omega (arith, ap (λ (x : QueueRow). x.id) same) in
        rw (gone, without-above r.id q.id q.execution_id q.queued_at queue bound h.3) tail
    | inr miss ↦
        let tail : select p queue ≡ r ∷ rest = rw miss at found in
        let m = In-select r p queue (subst (In r) (sym tail) (inl refl)) in
        let above = In-above q.id q.execution_id q.queued_at r queue h.3 m in
        let kept : (q.id == r.id) ≡ false = ground arith in
        let ih = select-without_first q.id q.execution_id q.queued_at r rest queue h.3 tail in
        rw kept (rw miss ih)
  ]

module _ {Doc : Type 0} (json : Codec Doc) where
  -- The item of a claim runs the given execution, unless its context could not be read back.
  abbrev pub Runs : ℕ → Result StoreError (Option (QueueItem Doc)) → Type 0
  Runs id (ok none) = ⊥
  Runs id (ok (some item)) = item.execution_id ≡ id
  Runs id (err e) = e ≡ unmarshal_failed

  from_queue_row-Runs :
      (row : QueueRow)
      → Runs row.execution_id
          (elim (from_queue_row json row) [ ok item ↦ ok (some item) | err e ↦ err e ])
  unfolding from_queue_row
  from_queue_row-Runs row = elim (Option-cases (json.decode row.trigger_context)) [
    | inl bad ↦ rw (bad, from_queue_row) refl
    | inr (context, good) ↦ rw (good, from_queue_row) refl
  ]

  -- An outcome of a claim, against the abstract queue: nothing was pending and nothing changed, or
  -- the oldest pending execution left the queue, and it alone, and is handed out.
  abbrev pub Dequeues : String → Db → Db × Result StoreError (Option (QueueItem Doc)) → Type 0
  Dequeues w db (db', result) =
      ((pending w db.queue ≡ []) × (db' ≡ db) × (result ≡ ok none))
      ⊎ ((id : ℕ) × (rest : List ℕ) × (pending w db.queue ≡ id ∷ rest)
          × (pending w db'.queue ≡ rest)
          × Runs id result)

  module _ (now : ℕ) (w : String) (db : Db) (sorted : Ascends 0 0 0 db.queue) where
    claim_cases :
        (rows : List QueueRow)
        → select (λ q. q.workflow_id =ₛ w) db.queue ≡ rows
        → Dequeues w db (claim_next_queue_item json now w db)
    unfolding claim_next_queue_item
    claim_cases [] e = inl (
      ap (map (λ q. q.execution_id)) e,
      rw (next_queue_row-none w db.queue e, claim_next_queue_item) refl,
      rw (next_queue_row-none w db.queue e, claim_next_queue_item) refl,
    )
    claim_cases (r ∷ rest) e =
        rw (next_queue_row-head w 0 0 0 db.queue r rest sorted e, claim_next_queue_item)
          (inr (
            r.execution_id,
            map (λ q. q.execution_id) rest,
            ap (map (λ q. q.execution_id)) e,
            ap (map (λ q. q.execution_id))
                (select-without_first (λ q. q.workflow_id =ₛ w) 0 0 0 r rest db.queue sorted e),
            from_queue_row-Runs r,
          ))

    -- Where ids and times rise along the table of the queue, a claim either finds nothing pending for
    -- the workflow, returns no item and changes nothing; or it takes the oldest pending execution off
    -- the queue, no other, and returns its item, or the error of a context that cannot be read back.
    pub claim-Dequeues : Dequeues w db (claim_next_queue_item json now w db)
    claim-Dequeues = claim_cases (select (λ q. q.workflow_id =ₛ w) db.queue) refl

    claim_cases_other :
        (v : String) (rows : List QueueRow)
        → v ≢ w
        → select (λ q. q.workflow_id =ₛ w) db.queue ≡ rows
        → pending v (claim_next_queue_item json now w db).0.queue ≡ pending v db.queue
    unfolding claim_next_queue_item
    claim_cases_other v [] other e =
        rw (next_queue_row-none w db.queue e, claim_next_queue_item) refl
    claim_cases_other v (r ∷ rest) other e =
        let m = subst (In r) (sym e) (inl refl) in
        let ours = subst (All (λ q. (q.workflow_id =ₛ w) ≡ true)) e (All-select_self _ db.queue) in
        let refused : (r.workflow_id =ₛ v) ≡ false =
          ground (arith, ours.0, eq_iff r.workflow_id v, eq_iff r.workflow_id w) in
        rw (next_queue_row-head w 0 0 0 db.queue r rest sorted e, claim_next_queue_item)
          (ap (map (λ q. q.execution_id)) (
            select-without_other (λ q. q.workflow_id =ₛ v) 0 0 0 r db.queue sorted
              (In-select r _ db.queue m) refused))

    -- Where ids and times rise along the table, a claim leaves the queue of every other workflow as it
    -- was.
    pub pending-claim_other :
        (v : String)
        → v ≢ w
        → pending v (claim_next_queue_item json now w db).0.queue ≡ pending v db.queue
    pending-claim_other v other =
        claim_cases_other v (select (λ q. q.workflow_id =ₛ w) db.queue) other refl
