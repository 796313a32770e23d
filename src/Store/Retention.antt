-- ===== src/Store/Retention.antt =====
-- store.go: `ApplyRetention`, by age and by number.
pub mod Age
pub mod Bounds
pub mod Keeps
use lumn.Base.{
  ℕ, zero, suc, ◌+◌, ◌-◌, ◌*◌, String, Bool, true, false, not, ◌&&◌, ◌||◌, Option, none, some, List,
  [], ◌∷◌, map, ltb, leb, ◌==◌, ◌=ₛ◌, ok, if◌then◌else◌, select, exists, drop,
}
use Prim.Native.Nat.{◌^◌, ◌%◌}
use lumn.Store.{Db, Op, Workflow, ExecutionRow, QueueRow, status_queued, status_running, newer}
use lumn.Base.Sort.{sort_by}
use lumn.Store.Workflows.{list_workflows}

-- 24 hours in nanoseconds.
abbrev pub day : ℕ
day = 86_400_000_000_000

-- `finished_at < utcNow().Add(-time.Duration(maxDays) * 24 * time.Hour)`. The product is an `int64`
-- and wraps; from 2 ^ 63 on the bits stand for a negative number, which moves the cutoff ahead.
unfoldable pub before_cutoff : ℕ → ℕ → ℕ → Bool
before_cutoff now max_days finished =
    let bits = (max_days * day) % 2 ^ 64 in
    if ltb bits (2 ^ 63) then ltb (finished + bits) now else ltb finished (now + (2 ^ 64 - bits))

-- `status NOT IN (queued, running)`.
abbrev pub is_settled : ExecutionRow → Bool
is_settled e = not (e.status =ₛ status_queued) && not (e.status =ₛ status_running)

-- A deletion of executions; the rows of `queue` that name one go with it on a connection that
-- enforces foreign keys.
unfoldable pub delete_executions : (ExecutionRow → Bool) → Db → Db
delete_executions doomed db = record db {
  executions = select (λ e. not (doomed e)) db.executions;
  queue =
      if db.foreign_keys
      then select (λ q. not (exists (λ e. e.id == q.execution_id && doomed e) db.executions))
          db.queue
      else db.queue;
}

-- `DeleteExecutionsOlderThan`.
abbrev pub is_old : ℕ → ℕ → ExecutionRow → Bool
is_old now max_days e = elim e.finished_at [
  | none ↦ false
  | some t ↦ is_settled e && before_cutoff now max_days t
]

-- The rows of the subquery of `DeleteExecutionOverflowByWorkflow`: all but the newest `keep`.
unfoldable pub overflow : String → ℕ → List ExecutionRow → List ExecutionRow
unfolding sort_by
overflow workflow_id keep executions =
    drop keep
      (sort_by newer (select (λ e. e.workflow_id =ₛ workflow_id && is_settled e) executions))

-- `DeleteExecutionOverflowByWorkflow`.
unfoldable pub delete_overflow : ℕ → Db → String → Db
unfolding delete_executions overflow
delete_overflow keep db workflow_id =
    let stale = overflow workflow_id keep db.executions in
    delete_executions (λ e. exists (λ s. s.id == e.id) stale) db

delete_overflows : ℕ → List Workflow → Db → Db
delete_overflows keep [] db = db
delete_overflows keep (w ∷ rest) db = delete_overflows keep rest (delete_overflow keep db w.id)

-- The first half of `ApplyRetention`, by age.
abbrev pub aged : ℕ → ℕ → Db → Db
aged now max_days db = if ltb 0 max_days then delete_executions (is_old now max_days) db else db

-- `ApplyRetention` at the time `now`; a limit that is not positive is 0 here.
unfoldable pub apply_retention : ℕ → ℕ → ℕ → Op Unit
unfolding delete_executions delete_overflows
apply_retention now max_executions max_days db =
    let young = aged now max_days db in
    let kept =
      if ltb 0 max_executions
      then delete_overflows max_executions (list_workflows young) young
      else young in
    (kept, ok tt)
