-- ===== src/Daemon/Shutdown.antt =====
-- daemon.go: `Shutdown` up to the closing of the servers, and the start of the store in `Run`.
pub mod Stopped
use lumn.Base.{
  ℕ, String, Bool, true, false, Option, none, some, List, [], ◌∷◌, Result, ok, err, if◌then◌else◌,
}
use lumn.Report.{Report}
use lumn.Store.{Codec, Db, status_stopped}
use lumn.Daemon.{
  Daemon, Managed, DaemonError, Done, already_shutting_down, still_running, set_accepting, notify,
}
use lumn.Daemon.Lifecycle.{finalize_workflow_stop}
use lumn.Daemon.Control.{is_running, resume}

-- `setAccepting(false)` on every workflow.
unfoldable pub close_all : List Managed → Daemon → Daemon
unfolding set_accepting
close_all [] d = d
close_all (m ∷ rest) d = close_all rest (set_accepting m.workflow.id false d)

-- `setAccepting(true)` and `notify` on every workflow.
unfoldable pub resume_all : List Managed → Daemon → Daemon
unfolding set_accepting notify
resume_all [] d = d
resume_all (m ∷ rest) d = resume_all rest (resume m.workflow.id d)

-- The loop of `waitIdle`; `others` is what the other goroutines do during one wait. The error is that
-- of the first workflow that still runs when its time is over.
unfoldable pub wait_all : (Daemon → Daemon) → List Managed → Daemon → Daemon × Option DaemonError
wait_all others [] d = (d, none)
wait_all others (m ∷ rest) d =
    let waited = others d in
    let next = wait_all others rest waited in
    if is_running waited m.workflow.id then (waited, some (still_running m.workflow.id)) else next

-- The loop of `finalizeWorkflowStop`.
unfoldable pub finalize_all : Codec Report → ℕ → List Managed → Daemon → Daemon × Done
unfolding finalize_workflow_stop
finalize_all reports now [] d = (d, ok tt)
finalize_all reports now (m ∷ rest) d =
    let (d', stopped) =
      finalize_workflow_stop reports now m status_stopped
        "daemon stopped before queued execution ran" d in
    elim stopped [ err e ↦ (d', err e) | ok _ ↦ finalize_all reports now rest d' ]

-- `Shutdown`.
unfoldable pub shutdown : Codec Report → ℕ → (Daemon → Daemon) → Daemon → Daemon × Done
unfolding close_all resume_all wait_all finalize_all
shutdown reports now others d =
    let (waited, late) =
      wait_all others d.workflows (close_all d.workflows (record d { shutting_down = true })) in
    if d.shutting_down then (d, err already_shutting_down) else elim late [
      | some e ↦ (record (resume_all d.workflows waited) { shutting_down = false }, err e)
      | none ↦ finalize_all reports now d.workflows waited
    ]
