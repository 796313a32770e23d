-- ===== src/Daemon/Control/Deleted.antt =====
-- daemon.go and store.go: what `DeleteWorkflow` leaves of a workflow.
use lumn.Base.{
  ℕ, String, ◌≡◌, refl, sym, ◌∙◌, Bool, true, not, if◌then◌else◌, ap, subst, ◌⊎◌, inl, inr, false,
  Option, none, [], ◌=ₛ◌, ok, err, find, select, Bool-cases, Result-cases, Option-cases,
  find-select-not, select-select-not, find-In, eq_iff,
}
use lumn.Report.{Report}
use lumn.Value.{Fields}
use lumn.Store.{Codec, Db, Workflow, status_active, status_stopped}
use lumn.Store.Workflows.{cascade, get_workflow, delete_workflow}
use lumn.Store.Queue.{cancel_queued_executions}
use lumn.Trigger.{Env}
use lumn.Daemon.{
  Daemon, Managed, Done, not_active, resolve_workflow, get_managed_by_id, set_accepting,
}
use lumn.Daemon.Lifecycle.{Host, finalize_workflow_stop}
use lumn.Daemon.Lifecycle.Stopped.{retire-inactive}
use lumn.Daemon.Control.{Definition, is_running, halt, halt_active, delete}

-- No row of any table names the workflow.
abbrev pub IsGone : String → Db → Type 0
IsGone id db =
    (get_workflow db id ≡ none)
    × (select (λ t. t.workflow_id =ₛ id) db.triggers ≡ [])
    × (select (λ e. e.workflow_id =ₛ id) db.executions ≡ [])
    × (select (λ q. q.workflow_id =ₛ id) db.queue ≡ [])

delete_workflow-IsGone :
    (id : String) (db : Db) → db.foreign_keys ≡ true → IsGone id (delete_workflow id db).0
unfolding delete_workflow get_workflow
delete_workflow-IsGone id db enforced =
    let left : Db = record db { workflows = select (λ w. not (w.id =ₛ id)) db.workflows } in
    subst (λ b. IsGone id (if b then cascade id left else left)) (sym enforced)
      (
        find-select-not (λ w. w.id =ₛ id) db.workflows,
        select-select-not (λ t. t.workflow_id =ₛ id) db.triggers,
        select-select-not (λ e. e.workflow_id =ₛ id) db.executions,
        select-select-not (λ q. q.workflow_id =ₛ id) db.queue,
      )

-- The deletion runs on the connection that it was given.
delete_workflow-foreign_keys :
    (id : String) (db : Db) → (delete_workflow id db).0.foreign_keys ≡ db.foreign_keys
unfolding delete_workflow
delete_workflow-foreign_keys id db =
    let left : Db = record db { workflows = select (λ w. not (w.id =ₛ id)) db.workflows } in
    same db.foreign_keys (cascade id left) left refl refl
  where
    same :
        (b : Bool) (x y : Db)
        → x.foreign_keys ≡ db.foreign_keys
        → y.foreign_keys ≡ db.foreign_keys
        → (if b then x else y).foreign_keys ≡ db.foreign_keys
    same true x y h k = h
    same false x y h k = k

-- After a success the workflow is not in the map.
abbrev Inactive : String → Daemon × Done → Type 0
Inactive id (d, ok u) = get_managed_by_id d id ≡ err (not_active id)
Inactive id (d, err e) = Unit

finalize-Inactive :
    (reports : Codec Report) (now : ℕ) (m : Managed) (status message : String) (d : Daemon)
    → Inactive m.workflow.id (finalize_workflow_stop reports now m status message d)
unfolding finalize_workflow_stop
finalize-Inactive reports now m status message d =
    elim (Result-cases (cancel_queued_executions reports now m.workflow.id message d.db).1) [
      | inr (e, bad) ↦ rw (bad, finalize_workflow_stop) tt
      | inl (ids, good) ↦ rw (good, finalize_workflow_stop) (retire-inactive now m status _)
    ]

module _ (env : Env) (host : Host) (json : Codec Fields) (reports : Codec Report)
    (load : String → Option Definition) (workflow_id_for : String → String → String)
    (others : Daemon → Daemon) (now : ℕ) where
  halt-Inactive :
      (m : Managed) (message : String) (d : Daemon)
      → Inactive m.workflow.id
          (halt env host json reports load workflow_id_for others now m message d)
  unfolding halt
  halt-Inactive m message d =
      let waited = others (set_accepting m.workflow.id false d) in
      elim (Bool-cases (is_running waited m.workflow.id)) [
        | inl busy ↦ rw (busy, halt) tt
        | inr idle ↦ rw (idle, halt) (finalize-Inactive reports now m status_stopped message waited)
      ]

  -- A halt that succeeds, of a workflow that is active.
  halt_active-Inactive :
      (w : Workflow) (message : String) (d : Daemon)
      → ((w.status =ₛ status_active) ≡ false)
        ⊎ Inactive w.id
            (halt_active env host json reports load workflow_id_for others now w message d)
  unfolding halt_active get_managed_by_id
  halt_active-Inactive w message d = elim (Bool-cases (w.status =ₛ status_active)) [
    | inr stopped ↦ inl stopped
    | inl active ↦ elim (Option-cases (find (λ m. m.workflow.id =ₛ w.id) d.workflows)) [
      | inl missing ↦ inr (rw (active, missing, halt_active) tt)
      | inr (m, found) ↦
          let same : m.workflow.id ≡ w.id =
            (eq_iff m.workflow.id w.id).0
              (find-In (λ x. x.workflow.id =ₛ w.id) m d.workflows found).1 in
          inr (
            rw (active, found, halt_active)
              (subst
                (λ id.
                  Inactive id
                    (halt env host json reports load workflow_id_for others now m message d))
                same (halt-Inactive m message d)))
    ]
  ]

  -- What follows the halt.
  deleted-by :
      (w : Workflow) (d' : Daemon) (out : Daemon × Done)
      → ((w.status =ₛ status_active) ≡ false) ⊎ Inactive w.id out
      → (elim out.1 as (λ x. Daemon × Done) [
        | err e ↦ (out.0, err e)
        | ok _ ↦ (record out.0 { db = (delete_workflow w.id out.0.db).0 }, ok tt)
      ])
        ≡ (d', ok tt)
      → d'.db.foreign_keys ≡ true
      → IsGone w.id d'.db
        × (((w.status =ₛ status_active) ≡ false)
            ⊎ (get_managed_by_id d' w.id ≡ err (not_active w.id)))
  unfolding get_managed_by_id
  deleted-by w d' (a, err e) h same enforced = cc
  deleted-by w d' (a, ok u) h same enforced =
      let at : record a { db = (delete_workflow w.id a.db).0 } ≡ d' =
        ap (λ (x : Daemon × Done). x.0) same in
      (
        subst (λ x. IsGone w.id x.db) at
            (delete_workflow-IsGone w.id a.db (
              sym (delete_workflow-foreign_keys w.id a.db)
              ∙ ap (λ (x : Daemon). x.db.foreign_keys) at
              ∙ enforced)),
        elim h [
          | inl stopped ↦ inl stopped
          | inr gone ↦ inr (subst (λ x. get_managed_by_id x w.id ≡ err (not_active w.id)) at gone)
        ],
      )

  -- Whatever the other goroutines did while it waited, a DeleteWorkflow that succeeds on a connection
  -- that enforces foreign keys leaves no row of any table that names the workflow to which its selector
  -- resolves; and if that was active, the daemon has no such workflow in its map.
  pub delete-Deletes :
      (selector : String) (d d' : Daemon) (w : Workflow)
      → resolve_workflow d selector ≡ ok w
      → delete env host json reports load workflow_id_for others now selector d ≡ (d', ok tt)
      → d'.db.foreign_keys ≡ true
      → IsGone w.id d'.db
        × (((w.status =ₛ status_active) ≡ false)
            ⊎ (get_managed_by_id d' w.id ≡ err (not_active w.id)))
  unfolding delete
  delete-Deletes selector d d' w resolved done enforced =
      deleted-by w d' _ (halt_active-Inactive w "workflow deleted before queued execution ran" d)
        (rw (resolved, delete) at done) enforced
