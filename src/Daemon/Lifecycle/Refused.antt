-- ===== src/Daemon/Lifecycle/Refused.antt =====
-- daemon.go: `enqueueExecution` after `finalizeWorkflowStop`.
use lumn.Base.{
  ℕ, String, ◌≡◌, refl, ap, ◌∙◌, inl, inr, Option, none, some, List, [], ◌∷◌, ◌=ₛ◌, Result, ok, err,
  find, update, Bool-cases, Option-cases,
}
use lumn.Report.{Report}
use lumn.Value.{Fields}
use lumn.Store.{Codec, Db, StoreError, Workflow, Trigger}
use lumn.Store.Workflows.{get_workflow, set_workflow_status}
use lumn.Store.Triggers.{set_trigger_runtime}
use lumn.Store.Queue.{cancel_queued_executions, cancel_rows, queued_versions}
use lumn.Store.Queue.Cancel.{Cancels, cancel-Cancels}
use lumn.Daemon.{Daemon, Managed, Done, not_active, store_error, get_managed, enqueue_execution}
use lumn.Daemon.Lifecycle.{
  publish_canceled, stop_handles, stop_triggers, retire, finalize_workflow_stop,
}
use lumn.Daemon.Lifecycle.Missed.{get_managed-inactive}
use lumn.Daemon.Lifecycle.Stopped.{publish_canceled-db, stop_handles-db, find-others}

abbrev pub retired : ℕ → String → Workflow → Workflow
retired now status x = record x { status = status; updated_at = now }

find-update :
    (id : String) (now : ℕ) (status : String) (w : Workflow) (rows : List Workflow)
    → find (λ x. x.id =ₛ id) rows ≡ some w
    → find (λ x. x.id =ₛ id) (update (λ x. x.id =ₛ id) (retired now status) rows)
      ≡ some (retired now status w)
find-update id now status w [] e = absurd (cc e)
find-update id now status w (x ∷ rows) e = elim (Bool-cases (x.id =ₛ id)) [
  | inl hit ↦
      let same : some x ≡ some w = rw hit at e in
      rw (hit, hit)
        (ap (λ (o : Option Workflow). elim o [ none ↦ none | some y ↦ some (retired now status y) ])
          same)
  | inr miss ↦ rw (miss, miss) (find-update id now status w rows (rw miss at e))
]

pub stop_triggers-workflows :
    (now : ℕ) (triggers : List (Trigger Fields)) (db : Db)
    → (stop_triggers now triggers db).workflows ≡ db.workflows
unfolding stop_triggers set_trigger_runtime
stop_triggers-workflows now [] db = refl
stop_triggers-workflows now (t ∷ rest) db = stop_triggers-workflows now rest _

pub cancel-workflows :
    (reports : Codec Report) (now : ℕ) (w message : String) (db : Db)
    → (cancel_queued_executions reports now w message db).0.workflows ≡ db.workflows
unfolding cancel_queued_executions
cancel-workflows reports now w message db =
    elim (Option-cases
      (cancel_rows reports now message (queued_versions db.workflows w db.queue) db.executions)) [
        | inl bad ↦ rw (bad, cancel_queued_executions) refl
        | inr (after, good) ↦ rw (good, cancel_queued_executions) refl
      ]

module _ (now : ℕ) (m : Managed) (status : String) where
  -- A workflow that is retired is still registered, and no longer active.
  retire-inactive_registered :
      (d : Daemon) (w : Workflow)
      → find (λ x. x.id =ₛ m.workflow.id) d.db.workflows ≡ some w
      → get_managed (retire now m status d) m.workflow.id ≡ err (not_active m.workflow.id)
  unfolding retire set_workflow_status get_workflow
  retire-inactive_registered d w known =
      let quiet = stop_handles m.workflow.id m.handles d in
      let rows : (stop_triggers now m.triggers quiet.db).workflows ≡ d.db.workflows =
        stop_triggers-workflows now m.triggers quiet.db
        ∙ ap (λ x. x.workflows) (stop_handles-db m.workflow.id m.handles d) in
      get_managed-inactive (retire now m status d) m.workflow.id (retired now status w)
        (find-update m.workflow.id now status w (stop_triggers now m.triggers quiet.db).workflows
          (rw rows known))
        (find-others m.workflow.id quiet.workflows)

-- What a stop comes to for the executions that are asked for after it: on success they are refused,
-- because the workflow is not active, and the daemon stays as it is; a stop that fails changes nothing.
abbrev pub Refuses :
    Codec Fields → Codec Report → ℕ → String → String → Fields → Daemon → Daemon × Done → Type 0
Refuses json reports later id kind context d (d', ok _) =
    enqueue_execution json reports later id kind context d' ≡ (d', err (not_active id))
Refuses json reports later id kind context d (d', err e) = d' ≡ d

module _ (json : Codec Fields) (reports : Codec Report) (now later : ℕ) (m : Managed)
    (status message kind : String) (context : Fields) (d : Daemon) (w : Workflow)
    (known : find (λ x. x.id =ₛ m.workflow.id) d.db.workflows ≡ some w) where
  after_cancel :
      (outcome : Db × Result StoreError (List ℕ))
      → Cancels d.db m.workflow.id m.workflow.id outcome
      → outcome.0.workflows ≡ d.db.workflows
      → Refuses json reports later m.workflow.id kind context d (elim outcome.1 [
        | err e ↦ (record d { db = outcome.0 }, err (store_error e))
        | ok ids ↦ (
          retire now m status (publish_canceled reports ids (record d { db = outcome.0 })),
          ok tt,
        )
      ])
  unfolding enqueue_execution
  after_cancel (db', err e) h rows = ap (λ x. record d { db = x }) h.0
  after_cancel (db', ok ids) h rows =
      let published = publish_canceled reports ids (record d { db = db' }) in
      let same : published.db.workflows ≡ d.db.workflows =
        ap (λ x. x.workflows) (publish_canceled-db reports ids (record d { db = db' })) ∙ rows in
      rw (retire-inactive_registered now m status published w (rw same known), enqueue_execution)
        refl

  -- Once a registered workflow has been stopped, `enqueueExecution` for its id is refused as not active,
  -- at any later time, for any kind of trigger and any context, and changes nothing; a stop that fails
  -- changes nothing either.
  pub finalize-Refuses :
      Refuses json reports later m.workflow.id kind context d
        (finalize_workflow_stop reports now m status message d)
  unfolding finalize_workflow_stop
  finalize-Refuses =
      after_cancel (cancel_queued_executions reports now m.workflow.id message d.db)
        (cancel-Cancels reports now d.db m.workflow.id m.workflow.id message w known)
        (cancel-workflows reports now m.workflow.id message d.db)
