-- ===== src/Store/Retention/Bounds.antt =====
-- store.go: how many settled executions `ApplyRetention` leaves to a workflow.
use native.Mathlib.Nat.{le_trans}
use lumn.Base.{
  ℕ, ◌≤◌, ◌<◌, String, ◌≡◌, refl, sym, ap, subst, inl, inr, Bool, not, ◌&&◌, List, [], ◌∷◌, arith,
  lt→ltb, ◌==◌, ==_refl, ◌=ₛ◌, select, exists, In, length, drop, exists-of_In, select_none,
  length-select-select, length-select_comm, length-select-drop,
}
use lumn.Base.Sort.{sort_by, sort_by-In, length-select-sort_by}
use lumn.Store.{Db, Workflow, ExecutionRow, newer}
use lumn.Store.Workflows.{list_workflows, by_name}
use lumn.Store.Retention.{
  is_settled, delete_executions, aged, delete_overflow, delete_overflows, apply_retention,
}

-- A settled execution of the workflow.
abbrev pub settled_of : String → ExecutionRow → Bool
settled_of w e = e.workflow_id =ₛ w && is_settled e

abbrev pub settled_count : String → Db → ℕ
settled_count w db = length (select (settled_of w) db.executions)

spared : List ExecutionRow → ExecutionRow → Bool
spared stale e = not (exists (λ s. s.id == e.id) stale)

-- One pass leaves its workflow at most as many settled executions as it is to keep.
delete_overflow-le :
    (keep : ℕ) (db : Db) (w : String) → settled_count w (delete_overflow keep db w) ≤ keep
unfolding delete_overflow spared
delete_overflow-le keep db w =
    let ours = select (settled_of w) db.executions in
    let sorted = sort_by newer ours in
    let stale = drop keep sorted in
    let none_left : select (spared stale) stale ≡ [] =
      select_none (spared stale) stale
        (λ e m. rw (exists-of_In (λ s. s.id == e.id) e stale m (==_refl e.id)) refl) in
    omega (
      arith,
      length-select_comm (settled_of w) (spared stale) db.executions,
      length-select-sort_by newer (spared stale) ours,
      length-select-drop (spared stale) keep sorted,
      ap length none_left,
    )

-- A pass for another workflow adds nothing.
delete_overflow_mono :
    (keep : ℕ) (db : Db) (v w : String)
    → settled_count w (delete_overflow keep db v) ≤ settled_count w db
unfolding delete_overflow
delete_overflow_mono keep db v w = length-select-select (settled_of w) _ db.executions

delete_overflows_mono :
    (keep : ℕ) (rows : List Workflow) (db : Db) (w : String)
    → settled_count w (delete_overflows keep rows db) ≤ settled_count w db
unfolding delete_overflows
delete_overflows_mono keep [] db w = omega arith
delete_overflows_mono keep (v ∷ rows) db w =
    le_trans (delete_overflows_mono keep rows (delete_overflow keep db v.id) w)
      (delete_overflow_mono keep db v.id w)

delete_overflows-le :
    (keep : ℕ) (rows : List Workflow) (db : Db) (w : Workflow)
    → In w rows
    → settled_count w.id (delete_overflows keep rows db) ≤ keep
unfolding delete_overflows
delete_overflows-le keep [] db w m = absurd m
delete_overflows-le keep (v ∷ rows) db w (inl same) = rw same (
    le_trans (delete_overflows_mono keep rows (delete_overflow keep db v.id) v.id)
      (delete_overflow-le keep db v.id))
delete_overflows-le keep (v ∷ rows) db w (inr m) =
    delete_overflows-le keep rows (delete_overflow keep db v.id) w m

workflows-aged : (now max_days : ℕ) (db : Db) → (aged now max_days db).workflows ≡ db.workflows
unfolding delete_executions
workflows-aged now max_days db = ground arith

-- After retention with a positive limit, no registered workflow has more settled executions than the
-- limit, whatever the limit on age.
pub retention-bounds :
    (now max_executions max_days : ℕ) (db : Db) (w : Workflow)
    → 0 < max_executions
    → In w db.workflows
    → settled_count w.id (apply_retention now max_executions max_days db).0 ≤ max_executions
unfolding apply_retention list_workflows
retention-bounds now max_executions max_days db w positive m =
    let young = aged now max_days db in
    rw (lt→ltb 0 max_executions positive, apply_retention)
      (delete_overflows-le max_executions (list_workflows young) young w (
        sort_by-In by_name w young.workflows
          (subst (In w) (sym (workflows-aged now max_days db)) m)))
