-- ===== src/Daemon/Lifecycle/Stopped.antt =====
-- daemon.go: what `finalizeWorkflowStop` leaves of a workflow.
use lumn.Base.{
  ℕ, String, ◌≡◌, refl, sym, ap, subst, ◌∙◌, inl, inr, not, Option, none, some, List, [], ◌∷◌, ◌=ₛ◌,
  Result, ok, err, if◌then◌else◌, select, find, Bool-cases, arith,
}
use lumn.Report.{Report}
use lumn.Value.{Fields}
use lumn.Store.{Codec, Db, StoreError, Workflow, Trigger}
use lumn.Store.Triggers.{set_trigger_runtime}
use lumn.Store.Workflows.{set_workflow_status}
use lumn.Store.Queue.{cancel_queued_executions}
use lumn.Store.Queue.Fifo.{pending}
use lumn.Store.Queue.Cancel.{Cancels, cancel-Cancels}
use lumn.Webhooks.{Routes, route_key, is_own, unregister, remove_workflow}
use lumn.Daemon.{
  Daemon, Managed, Handle, schedule, hook, watcher, Done, get_managed_by_id, store_error,
  not_active,
}
use lumn.Webhooks.Owners.{Cleared, remove_workflow-Cleared}
use lumn.Daemon.Worker.{publish_waiter-db, publish_waiter-routes}
use lumn.Daemon.Lifecycle.{
  canceled_report, publish_found, stop_handle, stop_handles, publish_canceled, stop_triggers,
  retire, finalize_workflow_stop,
}

-- The workflow is gone from the daemon, with its queue; another workflow `v` keeps its queue. A key
-- that led to the workflow leads nowhere, and every other key has what it had.
abbrev pub Stops : Daemon → Managed → String → String → Daemon × Done → Type 0
Stops d m v key (d', ok _) =
    (pending v d'.db.queue ≡ (if v =ₛ m.workflow.id then [] else pending v d.db.queue))
    × (get_managed_by_id d' m.workflow.id ≡ err (not_active m.workflow.id))
    × Cleared m.workflow.id (d.routes key) (d'.routes key)
Stops d m v key (d', err e) = d' ≡ d

publish_found-db : (id : ℕ) (r : Option Report) (d : Daemon) → (publish_found id r d).db ≡ d.db
publish_found-db id none d = refl
publish_found-db id (some r) d = publish_waiter-db id r d

publish_found-routes :
    (id : ℕ) (r : Option Report) (d : Daemon) → (publish_found id r d).routes ≡ d.routes
publish_found-routes id none d = refl
publish_found-routes id (some r) d = publish_waiter-routes id r d

pub publish_canceled-db :
    (reports : Codec Report) (ids : List ℕ) (d : Daemon)
    → (publish_canceled reports ids d).db ≡ d.db
unfolding publish_canceled
publish_canceled-db reports [] d = refl
publish_canceled-db reports (id ∷ rest) d =
    publish_canceled-db reports rest _ ∙ publish_found-db id (canceled_report reports d.db id) d

publish_canceled-routes :
    (reports : Codec Report) (ids : List ℕ) (d : Daemon)
    → (publish_canceled reports ids d).routes ≡ d.routes
unfolding publish_canceled
publish_canceled-routes reports [] d = refl
publish_canceled-routes reports (id ∷ rest) d =
    publish_canceled-routes reports rest _
    ∙ publish_found-routes id (canceled_report reports d.db id) d

pub stop_handles-db :
    (id : String) (handles : List Handle) (d : Daemon) → (stop_handles id handles d).db ≡ d.db
unfolding stop_handles stop_handle
stop_handles-db id [] d = refl
stop_handles-db id (schedule t plan ∷ rest) d = stop_handles-db id rest d
stop_handles-db id (hook method path ∷ rest) d = stop_handles-db id rest _
stop_handles-db id (watcher t config ∷ rest) d = stop_handles-db id rest d

remove_workflow-unregister :
    (id method path key : String) (routes : Routes)
    → remove_workflow id (unregister id method path routes) key ≡ remove_workflow id routes key
unfolding remove_workflow unregister
remove_workflow-unregister id method path key routes = elim (Bool-cases (is_own id (routes key))) [
  | inl own ↦ elim (Bool-cases (key =ₛ route_key method path)) [
    | inl same ↦ rw (own, same, unregister, remove_workflow) refl
    | inr apart ↦ rw (own, apart, unregister, remove_workflow) (rw own refl)
  ]
  | inr foreign ↦ elim (Bool-cases (key =ₛ route_key method path)) [
    | inl same ↦ rw (foreign, same, unregister, remove_workflow) (rw foreign refl)
    | inr apart ↦ rw (foreign, apart, unregister, remove_workflow) (rw foreign refl)
  ]
]

stop_handles-routes :
    (id key : String) (handles : List Handle) (d : Daemon)
    → remove_workflow id (stop_handles id handles d).routes key ≡ remove_workflow id d.routes key
unfolding stop_handles stop_handle
stop_handles-routes id key [] d = refl
stop_handles-routes id key (schedule t plan ∷ rest) d = stop_handles-routes id key rest d
stop_handles-routes id key (hook method path ∷ rest) d =
    stop_handles-routes id key rest _ ∙ remove_workflow-unregister id method path key d.routes
stop_handles-routes id key (watcher t config ∷ rest) d = stop_handles-routes id key rest d

pub find-others :
    (id : String) (rows : List Managed)
    → find (λ m. m.workflow.id =ₛ id) (select (λ m. not (m.workflow.id =ₛ id)) rows) ≡ none
find-others id [] = refl
find-others id (m ∷ rows) = ground (arith, find-others id rows)

stop_triggers-queue :
    (now : ℕ) (triggers : List (Trigger Fields)) (db : Db)
    → (stop_triggers now triggers db).queue ≡ db.queue
unfolding stop_triggers set_trigger_runtime
stop_triggers-queue now [] db = refl
stop_triggers-queue now (t ∷ rest) db = stop_triggers-queue now rest _

retire-queue :
    (now : ℕ) (m : Managed) (status : String) (d : Daemon)
    → (retire now m status d).db.queue ≡ d.db.queue
unfolding retire set_workflow_status
retire-queue now m status d =
    stop_triggers-queue now m.triggers _
    ∙ ap (λ db. db.queue) (stop_handles-db m.workflow.id m.handles d)

retire-routes :
    (now : ℕ) (m : Managed) (status key : String) (d : Daemon)
    → (retire now m status d).routes key ≡ remove_workflow m.workflow.id d.routes key
unfolding retire
retire-routes now m status key d = stop_handles-routes m.workflow.id key m.handles d

pub retire-inactive :
    (now : ℕ) (m : Managed) (status : String) (d : Daemon)
    → get_managed_by_id (retire now m status d) m.workflow.id ≡ err (not_active m.workflow.id)
unfolding retire get_managed_by_id
retire-inactive now m status d =
    rw
      (
        find-others m.workflow.id (stop_handles m.workflow.id m.handles d).workflows,
        get_managed_by_id,
      )
      refl

module _ (reports : Codec Report) (now : ℕ) (m : Managed) (status message v key : String)
    (d : Daemon) where
  after_cancel :
      (outcome : Db × Result StoreError (List ℕ))
      → Cancels d.db v m.workflow.id outcome
      → Stops d m v key (elim outcome.1 [
        | err e ↦ (record d { db = outcome.0 }, err (store_error e))
        | ok ids ↦ (
          retire now m status (publish_canceled reports ids (record d { db = outcome.0 })),
          ok tt,
        )
      ])
  after_cancel (db', err e) h = ap (λ x. record d { db = x }) h.0
  after_cancel (db', ok ids) h =
      let published = publish_canceled reports ids (record d { db = db' }) in
      let same : (retire now m status published).db.queue ≡ db'.queue =
        retire-queue now m status published
        ∙ ap (λ x. x.queue) (publish_canceled-db reports ids (record d { db = db' })) in
      (
        ap (pending v) same ∙ h.1,
        retire-inactive now m status published,
        subst (Cleared m.workflow.id (d.routes key))
            (sym (
              retire-routes now m status key published
              ∙ ap (λ t. remove_workflow m.workflow.id t key)
                  (publish_canceled-routes reports ids (record d { db = db' }))))
            (remove_workflow-Cleared m.workflow.id key d.routes),
      )

  -- Stopping an active workflow that is registered removes it from the daemon, with every execution in
  -- its queue and every route it owns; the queues and routes of other workflows stay. Where a report
  -- of a cancelled execution cannot be stored, nothing has changed.
  pub finalize-Stops :
      (w : Workflow)
      → find (λ x. x.id =ₛ m.workflow.id) d.db.workflows ≡ some w
      → Stops d m v key (finalize_workflow_stop reports now m status message d)
  unfolding finalize_workflow_stop
  finalize-Stops w known =
      after_cancel (cancel_queued_executions reports now m.workflow.id message d.db)
        (cancel-Cancels reports now d.db v m.workflow.id message w known)
