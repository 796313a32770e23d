-- ===== src/Store/Retention/Keeps.antt =====
-- store.go: what `ApplyRetention` leaves alone.
use lumn.Base.{
  ℕ, ◌<◌, String, ◌≡◌, refl, sym, ap, ◌∙◌, subst, inl, inr, Bool, true, false, not, ◌&&◌, List, [],
  ◌∷◌, arith, ltb, ◌==◌, ◌=ₛ◌, exists, In, All-In, All-of_In, All-select, In-select, Bool-cases,
  ==_iff, exists-false, exists-In, exists-of_In, In-select_of, select-All, In-drop, All-select_self,
}
use lumn.Base.Sort.{In-sort_by}
use lumn.Store.{Db, Workflow, ExecutionRow, QueueRow, status_queued, newer}
use lumn.Store.Workflows.{list_workflows}
use lumn.Store.Queue.Valid.{IsValid, Rises, Rises-select}
use lumn.Store.Retention.{
  is_settled, delete_executions, aged, is_old, overflow, delete_overflow, delete_overflows,
  apply_retention,
}

Rises-below :
    (i : ℕ) (e : ExecutionRow) (executions : List ExecutionRow)
    → Rises i executions
    → In e executions
    → i < e.id
Rises-below i e [] h m = absurd m
Rises-below i e (x ∷ executions) h (inl p) = rw p h.0
Rises-below i e (x ∷ executions) h (inr m) =
    let above = Rises-below x.id e executions h.1 m in omega arith

-- Two rows with one id are one row.
pub execution_unique :
    (i : ℕ) (a b : ExecutionRow) (executions : List ExecutionRow)
    → Rises i executions
    → In a executions
    → In b executions
    → a.id ≡ b.id
    → a ≡ b
execution_unique i a b [] h m n same = absurd m
execution_unique i a b (x ∷ executions) h (inl p) (inl r) same = p ∙ sym r
execution_unique i a b (x ∷ executions) h (inl p) (inr n) same =
    let above = Rises-below x.id b executions h.1 n in
    absurd (omega (arith, ap (λ (e : ExecutionRow). e.id) p))
execution_unique i a b (x ∷ executions) h (inr m) (inl r) same =
    let above = Rises-below x.id a executions h.1 m in
    absurd (omega (arith, ap (λ (e : ExecutionRow). e.id) r))
execution_unique i a b (x ∷ executions) h (inr m) (inr n) same =
    execution_unique x.id a b executions h.1 m n same

-- A deletion that spares what is queued: every row that it dooms is settled.
abbrev pub Spares : (ExecutionRow → Bool) → List ExecutionRow → Type 0
Spares doomed executions =
    (e : ExecutionRow) → In e executions → doomed e ≡ true → is_settled e ≡ true

module _ (now : ℕ) (db : Db) (v : IsValid now db) (doomed : ExecutionRow → Bool) where
  backed_by_live :
      (q : QueueRow)
      → Spares doomed db.executions
      → In q db.queue
      → exists (λ e. e.id == q.execution_id && doomed e) db.executions ≡ false
  backed_by_live q spares m =
      let (b, mb, hb) = exists-In _ db.executions (All-In _ q db.queue v.backed m) in
      exists-false _ db.executions λ e me. elim (Bool-cases (e.id == q.execution_id && doomed e)) [
        | inr fine ↦ fine
        | inl bad ↦
            let same : e.id ≡ b.id = ground arith in
            let one = execution_unique 0 e b db.executions v.rising me mb same in
            let settled = spares e me (ground arith) in
            ground (arith, ap (λ (x : ExecutionRow). x.status =ₛ status_queued) one)
      ]

  -- Such a deletion leaves the queue as it is and keeps the invariant.
  queue-delete_executions :
      Spares doomed db.executions → (delete_executions doomed db).queue ≡ db.queue
  unfolding delete_executions
  queue-delete_executions spares =
      let kept =
        select-All _ db.queue (All-of_In _ db.queue λ q m. rw (backed_by_live q spares m) refl) in
      elim (Bool-cases db.foreign_keys) [ inl enforced ↦ rw enforced kept | inr lax ↦ rw lax refl ]

  delete_executions-IsValid :
      Spares doomed db.executions → IsValid now (delete_executions doomed db)
  unfolding delete_executions
  delete_executions-IsValid spares = rw (queue-delete_executions spares) (record {
    sorted = v.sorted;
    issued = v.issued;
    rising = Rises-select _ 0 db.executions v.rising;
    numbered = All-select _ _ db.executions v.numbered;
    backed = All-of_In _ db.queue λ q m.
        let (b, mb, hb) = exists-In _ db.executions (All-In _ q db.queue v.backed m) in
        exists-of_In _ b _ (In-select_of _ b db.executions mb (live b mb (ground arith))) hb;
  })
    where
      live :
          (b : ExecutionRow)
          → In b db.executions
          → (b.status =ₛ status_queued) ≡ true
          → not (doomed b) ≡ true
      live b m queued = elim (Bool-cases (doomed b)) [
        | inr fine ↦ rw fine refl
        | inl bad ↦ let settled = spares b m bad in ground arith
      ]

-- Retention by age spares what is queued or running.
is_old-Spares :
    (now max_days : ℕ) (executions : List ExecutionRow) → Spares (is_old now max_days) executions
is_old-Spares now max_days executions e m h = ground arith

-- So does retention by number, where ids are distinct.
overflow-Spares :
    (w : String) (keep i : ℕ) (executions : List ExecutionRow)
    → Rises i executions
    → Spares (λ e. exists (λ s. s.id == e.id) (overflow w keep executions)) executions
unfolding overflow
overflow-Spares w keep i executions h e m doomed =
    let (s, ms, same) = exists-In _ (overflow w keep executions) doomed in
    let k = In-sort_by newer s _ (In-drop keep s _ ms) in
    let one =
      execution_unique i s e executions h (In-select s _ executions k) m
        ((==_iff s.id e.id).0 same) in
    let settled : (s.workflow_id =ₛ w && is_settled s) ≡ true =
      All-In (λ x. (x.workflow_id =ₛ w && is_settled x) ≡ true) s _ (All-select_self _ executions)
        k in
    subst (λ x. is_settled x ≡ true) one (ground arith)

module _ (now : ℕ) where
  delete_overflow-keeps :
      (keep : ℕ) (db : Db) (w : String)
      → IsValid now db
      → IsValid now (delete_overflow keep db w) × ((delete_overflow keep db w).queue ≡ db.queue)
  unfolding delete_overflow
  delete_overflow-keeps keep db w v =
      let spares = overflow-Spares w keep 0 db.executions v.rising in
      (delete_executions-IsValid now db v _ spares, queue-delete_executions now db v _ spares)

  delete_overflows-keeps :
      (keep : ℕ) (rows : List Workflow) (db : Db)
      → IsValid now db
      → IsValid now (delete_overflows keep rows db)
        × ((delete_overflows keep rows db).queue ≡ db.queue)
  unfolding delete_overflows
  delete_overflows-keeps keep [] db v = (v, refl)
  delete_overflows-keeps keep (w ∷ rows) db v =
      let (v', same) = delete_overflow-keeps keep db w.id v in
      let (v'', same') = delete_overflows-keeps keep rows (delete_overflow keep db w.id) v' in
      (v'', same' ∙ same)

  aged-keeps :
      (max_days : ℕ) (db : Db)
      → IsValid now db
      → IsValid now (aged now max_days db) × ((aged now max_days db).queue ≡ db.queue)
  aged-keeps max_days db v = elim (Bool-cases (ltb 0 max_days)) [
    | inr off ↦ rw off (v, refl)
    | inl on ↦ rw on (
      delete_executions-IsValid now db v _ (is_old-Spares now max_days db.executions),
      queue-delete_executions now db v _ (is_old-Spares now max_days db.executions),
    )
  ]

  -- Retention, whatever its limits, keeps the invariant, and no execution that waits in a queue is
  -- lost to it: the table of the queue stays as it is.
  pub retention-keeps_queue :
      (max_executions max_days : ℕ) (db : Db)
      → IsValid now db
      → IsValid now (apply_retention now max_executions max_days db).0
        × ((apply_retention now max_executions max_days db).0.queue ≡ db.queue)
  unfolding apply_retention
  retention-keeps_queue max_executions max_days db v =
      let (v', same) = aged-keeps max_days db v in
      elim (Bool-cases (ltb 0 max_executions)) [
        | inr off ↦ rw (off, apply_retention) (v', same)
        | inl on ↦
            let (v'', same') =
              delete_overflows-keeps max_executions (list_workflows (aged now max_days db))
                (aged now max_days db) v' in
            rw (on, apply_retention) (v'', same' ∙ same)
      ]
