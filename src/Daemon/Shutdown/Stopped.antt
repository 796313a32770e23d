-- ===== src/Daemon/Shutdown/Stopped.antt =====
-- daemon.go: what `Shutdown` leaves for the next start of the daemon.
use lumn.Base.{
  ℕ, String, ◌≡◌, refl, sym, ap, subst, ◌∙◌, ◌⊎◌, inl, inr, Bool, true, false, ◌&&◌, some, List, [],
  ◌∷◌, ◌=ₛ◌, Result, ok, err, select, exists, update, All, In, Bool-cases, Option-cases,
  Result-cases, arith, In-select, All-map, All-In, All-select_self, exists-of_In,
}
use lumn.Report.{Report}
use lumn.Store.{Codec, Db, StoreError, Workflow, status_active, status_stopped}
use mathlib.Core.Option.{some-injective}
use lumn.Daemon.Control.{is_running}
use lumn.Base.Sort.{In-sort_by}
use lumn.Store.Workflows.{set_workflow_status, list_active_workflows, by_name}
use lumn.Store.Queue.{cancel_queued_executions}
use lumn.Daemon.{Daemon, DaemonError, Managed, Done, store_error, still_running}
use lumn.Daemon.Lifecycle.{publish_canceled, stop_handles, retire, finalize_workflow_stop}
use lumn.Daemon.Lifecycle.Stopped.{publish_canceled-db, stop_handles-db}
use lumn.Daemon.Lifecycle.Refused.{retired, stop_triggers-workflows, cancel-workflows}
use lumn.Daemon.Shutdown.{finalize_all, shutdown, wait_all, close_all}

-- The message of the executions that a shutdown cancels.
abbrev quit : String
quit = "daemon stopped before queued execution ran"

-- An active row with the id.
abbrev active_row : String → Workflow → Bool
active_row id w = w.id =ₛ id && w.status =ₛ status_active

-- No row with the id is active.
abbrev pub Inactive : String → List Workflow → Type 0
Inactive id rows = exists (active_row id) rows ≡ false

-- `restoreActiveWorkflows` does not activate the workflow.
abbrev pub Unrestored : Db → Managed → Type 0
Unrestored db m = (w : Workflow) → In w (list_active_workflows db) → (w.id =ₛ m.workflow.id) ≡ false

Inactive-Unrestored :
    (db : Db) (m : Managed) → Inactive m.workflow.id db.workflows → Unrestored db m
unfolding list_active_workflows
Inactive-Unrestored db m h w listed =
    let chosen =
      In-sort_by by_name w (select (λ x. x.status =ₛ status_active) db.workflows) listed in
    let row = In-select w (λ x. x.status =ₛ status_active) db.workflows chosen in
    let on =
      All-In (λ x. (x.status =ₛ status_active) ≡ true) w
        (select (λ x. x.status =ₛ status_active) db.workflows)
        (All-select_self (λ x. x.status =ₛ status_active) db.workflows) chosen in
    elim (Bool-cases (w.id =ₛ m.workflow.id)) [
      | inr other ↦ other
      | inl same ↦
          let k = exists-of_In (active_row m.workflow.id) w db.workflows row (rw (same, on) refl) in
          cc
    ]

-- Setting a workflow to stopped makes it inactive, and no other workflow active.
Inactive-set :
    (id : String) (now : ℕ) (rows : List Workflow)
    → Inactive id (update (λ x. x.id =ₛ id) (retired now status_stopped) rows)
Inactive-set id now [] = refl
Inactive-set id now (x ∷ rows) = elim (Bool-cases (x.id =ₛ id)) [
  | inl hit ↦ rw (hit, hit) (Inactive-set id now rows)
  | inr miss ↦ rw (miss, miss) (Inactive-set id now rows)
]

Inactive-keep :
    (id other : String) (now : ℕ) (rows : List Workflow)
    → Inactive id rows
    → Inactive id (update (λ x. x.id =ₛ other) (retired now status_stopped) rows)
Inactive-keep id other now [] h = refl
Inactive-keep id other now (x ∷ rows) h = elim (Bool-cases (active_row id x)) [
  | inl on ↦ let k = rw on at h in cc
  | inr off ↦
      let rest = Inactive-keep id other now rows (rw off at h) in
      elim (Bool-cases (x.id =ₛ other)) [
        | inr miss ↦ rw (miss, off) rest
        | inl hit ↦ rw (hit, never (x.id =ₛ id)) rest
      ]
]
  where
    never : (b : Bool) → (b && false) ≡ false
    never b = ground arith

module _ (reports : Codec Report) (now : ℕ) where
  -- The rows of workflows that a stop leaves.
  abbrev stopped_rows : String → Db → List Workflow
  stopped_rows id db = update (λ x. x.id =ₛ id) (retired now status_stopped) db.workflows

  retire-workflows :
      (m : Managed) (d : Daemon)
      → (retire now m status_stopped d).db.workflows ≡ stopped_rows m.workflow.id d.db
  unfolding retire set_workflow_status
  retire-workflows m d =
      let quiet = stop_handles m.workflow.id m.handles d in
      ap (λ rows. update (λ x. x.id =ₛ m.workflow.id) (retired now status_stopped) rows)
        (stop_triggers-workflows now m.triggers quiet.db
          ∙ ap (λ x. x.workflows) (stop_handles-db m.workflow.id m.handles d))

  after_cancel :
      (m : Managed) (d : Daemon) (outcome : Db × Result StoreError (List ℕ))
      → outcome.0.workflows ≡ d.db.workflows
      → (elim outcome.1 as (λ x. Daemon × Done) [
        | err e ↦ (record d { db = outcome.0 }, err (store_error e))
        | ok ids ↦ (
          retire now m status_stopped (publish_canceled reports ids (record d { db = outcome.0 })),
          ok tt,
        )
      ]).1
        ≡ ok tt
      → (elim outcome.1 as (λ x. Daemon × Done) [
        | err e ↦ (record d { db = outcome.0 }, err (store_error e))
        | ok ids ↦ (
          retire now m status_stopped (publish_canceled reports ids (record d { db = outcome.0 })),
          ok tt,
        )
      ]).0.db.workflows
        ≡ stopped_rows m.workflow.id d.db
  after_cancel m d (db', err e) same done = cc
  after_cancel m d (db', ok ids) same done =
      let published = publish_canceled reports ids (record d { db = db' }) in
      retire-workflows m published
      ∙ ap (λ rows. update (λ x. x.id =ₛ m.workflow.id) (retired now status_stopped) rows)
          (ap (λ x. x.workflows) (publish_canceled-db reports ids (record d { db = db' })) ∙ same)

  finalize-workflows :
      (m : Managed) (message : String) (d : Daemon)
      → (finalize_workflow_stop reports now m status_stopped message d).1 ≡ ok tt
      → (finalize_workflow_stop reports now m status_stopped message d).0.db.workflows
        ≡ stopped_rows m.workflow.id d.db
  unfolding finalize_workflow_stop
  finalize-workflows m message d done =
      after_cancel m d (cancel_queued_executions reports now m.workflow.id message d.db)
        (cancel-workflows reports now m.workflow.id message d.db) done

  finalize_all-keeps :
      (id : String) (ms : List Managed) (d : Daemon)
      → (finalize_all reports now ms d).1 ≡ ok tt
      → Inactive id d.db.workflows
      → Inactive id (finalize_all reports now ms d).0.db.workflows
  unfolding finalize_all
  finalize_all-keeps id [] d done h = h
  finalize_all-keeps id (m ∷ rest) d done h =
      let out = finalize_workflow_stop reports now m status_stopped quit d in
      elim (Result-cases out.1) [
        | inr (e, bad) ↦ let k = rw (bad, finalize_all) at done in cc
        | inl (u, good) ↦
            rw (good, finalize_all)
              (finalize_all-keeps id rest out.0 (rw (good, finalize_all) at done) (
                rw (finalize-workflows m quit d good)
                  (Inactive-keep id m.workflow.id now d.db.workflows h)))
      ]

  finalize_all-Inactive :
      (ms : List Managed) (d : Daemon)
      → (finalize_all reports now ms d).1 ≡ ok tt
      → All (λ m. Inactive m.workflow.id (finalize_all reports now ms d).0.db.workflows) ms
  unfolding finalize_all
  finalize_all-Inactive [] d done = tt
  finalize_all-Inactive (m ∷ rest) d done =
      let out = finalize_workflow_stop reports now m status_stopped quit d in
      elim (Result-cases out.1) [
        | inr (e, bad) ↦ let k = rw (bad, finalize_all) at done in cc
        | inl (u, good) ↦
            let later = rw (good, finalize_all) at done in
            let same : finalize_all reports now (m ∷ rest) d ≡ finalize_all reports now rest out.0 =
              rw (good, finalize_all) refl in
            subst
              (λ (o : Daemon × Done). All (λ n. Inactive n.workflow.id o.0.db.workflows) (m ∷ rest))
              (sym same)
              (
                finalize_all-keeps m.workflow.id rest out.0 later (
                    rw (finalize-workflows m quit d good)
                      (Inactive-set m.workflow.id now d.db.workflows)),
                finalize_all-Inactive rest out.0 later,
              )
      ]

-- A shutdown that failed while it waited: the daemon is open again, and a workflow still runs.
abbrev pub Reopened : Daemon → DaemonError → Type 0
Reopened d e = (d.shutting_down ≡ false) × ((id : String) × (e ≡ still_running id))

-- A shutdown that failed while it stopped the workflows, on an error of the store.
abbrev pub Broken : DaemonError → Type 0
Broken e = (cause : StoreError) × (e ≡ store_error cause)

-- A shutdown that succeeds leaves no workflow that it found for the next start.
abbrev pub Shut : Daemon → Daemon × Done → Type 0
Shut d (d', ok u) = All (Unrestored d'.db) d.workflows
Shut d (d', err e) = ((d.shutting_down ≡ true) × (d' ≡ d)) ⊎ Reopened d' e ⊎ Broken e

wait_all-late :
    (others : Daemon → Daemon) (ms : List Managed) (d : Daemon) (e : DaemonError)
    → (wait_all others ms d).1 ≡ some e
    → (id : String) × (e ≡ still_running id)
unfolding wait_all
wait_all-late others [] d e h = absurd (cc h)
wait_all-late others (m ∷ rest) d e h = elim (Bool-cases (is_running (others d) m.workflow.id)) [
  | inl runs ↦
      let k : some (still_running m.workflow.id) ≡ some e = rw (runs, wait_all) at h in
      (m.workflow.id, sym (some-injective (still_running m.workflow.id) e k))
  | inr idle ↦ wait_all-late others rest (others d) e (rw (idle, wait_all) at h)
]

err-injective : (x y : DaemonError) (r : Done) → r ≡ err x → r ≡ err y → x ≡ y
err-injective x y r h k = cc

finalize-Broken :
    (reports : Codec Report) (now : ℕ) (m : Managed) (message : String) (d : Daemon)
    (e : DaemonError)
    → (finalize_workflow_stop reports now m status_stopped message d).1 ≡ err e
    → Broken e
unfolding finalize_workflow_stop
finalize-Broken reports now m message d e h =
    elim (Result-cases (cancel_queued_executions reports now m.workflow.id message d.db).1) [
      | inl (ids, good) ↦ let k = rw (good, finalize_workflow_stop) at h in absurd (cc k)
      | inr (cause, bad) ↦
          let k = rw (bad, finalize_workflow_stop) at h in
          (cause, err-injective e (store_error cause) (err e) refl (sym k))
    ]

finalize_all-Broken :
    (reports : Codec Report) (now : ℕ) (ms : List Managed) (d : Daemon) (e : DaemonError)
    → (finalize_all reports now ms d).1 ≡ err e
    → Broken e
unfolding finalize_all
finalize_all-Broken reports now [] d e h = absurd (cc h)
finalize_all-Broken reports now (m ∷ rest) d e h =
    let out = finalize_workflow_stop reports now m status_stopped quit d in
    elim (Result-cases out.1) [
      | inr (cause, bad) ↦
          let k = rw (bad, finalize_all) at h in finalize-Broken reports now m quit d e (bad ∙ k)
      | inl (u, good) ↦ finalize_all-Broken reports now rest out.0 e (rw (good, finalize_all) at h)
    ]

by_outcome :
    (d : Daemon) (out : Daemon × Done)
    → (out.1 ≡ ok tt → All (Unrestored out.0.db) d.workflows)
    → ((e : DaemonError) → out.1 ≡ err e → Broken e)
    → Shut d out
by_outcome d (d', ok u) good bad = good refl
by_outcome d (d', err e) good bad = inr (inr (bad e refl))

-- After a `Shutdown` that succeeds, whatever the other goroutines did while it waited, no workflow that
-- was in the daemon's map is among those that `restoreActiveWorkflows` activates at the next start. A
-- `Shutdown` that fails found another one in progress and changed nothing; or a workflow still ran and
-- the daemon is open again; or the store failed.
pub shutdown-Shut :
    (reports : Codec Report) (now : ℕ) (others : Daemon → Daemon) (d : Daemon)
    → Shut d (shutdown reports now others d)
unfolding shutdown
shutdown-Shut reports now others d =
    let closed = close_all d.workflows (record d { shutting_down = true }) in
    let waited = (wait_all others d.workflows closed).0 in
    elim (Bool-cases d.shutting_down) [
      | inl busy ↦ rw (busy, shutdown) (inl (refl, refl))
      | inr open_yet ↦ elim (Option-cases (wait_all others d.workflows closed).1) [
        | inr (e, late) ↦
            rw (open_yet, late, shutdown)
              (inr (inl (refl, wait_all-late others d.workflows closed e late)))
        | inl on_time ↦
            rw (open_yet, on_time, shutdown)
              (by_outcome (record d { shutting_down = false })
                (finalize_all reports now d.workflows waited)
                (λ good.
                  All-map _ _ d.workflows
                    (Inactive-Unrestored (finalize_all reports now d.workflows waited).0.db)
                    (finalize_all-Inactive reports now d.workflows waited good))
                (finalize_all-Broken reports now d.workflows waited))
      ]
    ]
