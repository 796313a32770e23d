-- ===== src/Daemon/Lifecycle/Unwound.antt =====
-- daemon.go: the loop of `activateWorkflow` takes back the routes that it has registered when a trigger
-- cannot be started.
use lumn.Base.{
  ℕ, String, ◌≡◌, refl, sym, subst, inl, inr, Bool, true, false, ◌&&◌, Option, none, some, List, [],
  ◌∷◌, ◌++◌, ltb, leb, ◌=ₛ◌, Result, ok, err, if◌then◌else◌, Bool-cases, Result-cases,
}
use lumn.Report.{Report}
use lumn.Value.{Fields}
use lumn.Store.{Codec, Trigger}
use lumn.Store.Queue.{create_queued_execution, queue_count}
use lumn.Store.Triggers.{set_trigger_runtime}
use lumn.Trigger.{Env, parse_scheduler_config, parse_webhook_config, parse_file_watcher_config}
use lumn.Webhooks.{Route, route_key, register, is_own, is_foreign}
use lumn.Daemon.{
  Daemon, Managed, Handle, schedule, watcher, DaemonError, get_managed, notify, enqueue_execution,
}
use lumn.Daemon.Lifecycle.{
  Host, Started, stop_handles, start_webhook_trigger, planned_run, start_scheduler_trigger,
  start_file_watcher_trigger, start_trigger, with_started, start_triggers, scheduled_context,
}
use lumn.Daemon.Lifecycle.Rolling.{Rolling, stop_handles-Rolling, Rolling-more, put_route-Rolling}

-- The handles of a managed workflow with another one.
abbrev with_handle : List Handle → Option Handle → List Handle
with_handle hs none = hs
with_handle hs (some h) = hs ++ h ∷ []

-- A start of a trigger carries `Rolling` on.
abbrev Carried : String → String → List Handle → Option Route → Daemon × Started → Type 0
Carried id key hs base (d, ok (handle, next)) = Rolling id key (with_handle hs handle) base d.routes
Carried id key hs base (d, err e) = Rolling id key hs base d.routes

if-Carried :
    (id key : String) (hs : List Handle) (base : Option Route) (b : Bool)
    (out other : Daemon × Started)
    → Carried id key hs base out
    → Carried id key hs base other
    → Carried id key hs base (if b then out else other)
if-Carried id key hs base true out other h k = h
if-Carried id key hs base false out other h k = k

-- After a failure the key has what it had at first.
abbrev pub Unwound : String → Option Route → Daemon × Result DaemonError Managed → Type 0
Unwound key base (d, ok m) = Unit
Unwound key base (d, err e) = d.routes key ≡ base

module _ (env : Env) (host : Host) (json : Codec Fields) (reports : Codec Report) (now : ℕ)
    (key : String) (base : Option Route) where
  enqueue_execution-routes :
      (id kind : String) (context : Fields) (d : Daemon)
      → (enqueue_execution json reports now id kind context d).0.routes ≡ d.routes
  unfolding enqueue_execution notify
  enqueue_execution-routes id kind context d = elim (Result-cases (get_managed d id)) [
    | inr (e, bad) ↦ rw (bad, enqueue_execution) refl
    | inl (m, good) ↦ elim (Bool-cases m.accepting) [
      | inr stopped ↦ rw (good, stopped, enqueue_execution) refl
      | inl accepts ↦ elim (Bool-cases (leb d.queue_limit (queue_count d.db id))) [
        | inl full ↦ rw (good, accepts, full, enqueue_execution) refl
        | inr room ↦
            elim (Result-cases (create_queued_execution json reports now id kind context d.db).1) [
              | inr (e, bad) ↦ rw (good, accepts, room, bad, enqueue_execution) refl
              | inl (x, made) ↦ rw (good, accepts, room, made, enqueue_execution) refl
            ]
      ]
    ]
  ]

  start_webhook_trigger-Carried :
      (m : Managed) (t : Trigger Fields) (d : Daemon)
      → is_own m.workflow.id base ≡ false
      → Rolling m.workflow.id key m.handles base d.routes
      → Carried m.workflow.id key m.handles base (start_webhook_trigger env m t d)
  unfolding start_webhook_trigger register
  start_webhook_trigger-Carried m t d foreign h =
      elim (Result-cases (parse_webhook_config env t.config)) [
        | inr (e, bad) ↦ rw (bad, start_webhook_trigger) h
        | inl (c, good) ↦
            elim (Bool-cases (is_foreign m.workflow.id (d.routes (route_key c.method c.path)))) [
              | inl taken ↦ rw (good, taken, start_webhook_trigger) h
              | inr free ↦
                  rw (good, free, start_webhook_trigger)
                    (put_route-Rolling m.workflow.id key c.method c.path m.handles base d.routes
                      foreign free h)
            ]
      ]

  start_scheduler_trigger-Carried :
      (m : Managed) (t : Trigger Fields) (restoring : Bool) (d : Daemon)
      → Rolling m.workflow.id key m.handles base d.routes
      → Carried m.workflow.id key m.handles base
          (start_scheduler_trigger env host json reports now m t restoring d)
  unfolding start_scheduler_trigger
  start_scheduler_trigger-Carried m t restoring d h =
      elim (Result-cases (parse_scheduler_config env t.config)) [
        | inr (e, bad) ↦ rw (bad, start_scheduler_trigger) h
        | inl (plan, good) ↦
            let next = planned_run now plan t in
            let more = Rolling-more m.workflow.id key m.handles (schedule t.id plan) base in
            let kept =
              enqueue_execution-routes m.workflow.id "scheduler"
                (scheduled_context env host json reports now next) d in
            rw (good, start_scheduler_trigger)
              (if-Carried m.workflow.id key m.handles base (restoring && ltb next now) _ _
                (more
                  (enqueue_execution json reports now m.workflow.id "scheduler"
                    (scheduled_context env host json reports now next) d).0.routes
                  (subst (λ r. Rolling m.workflow.id key m.handles base r) (sym kept) h))
                (more d.routes h))
      ]

  start_file_watcher_trigger-Carried :
      (m : Managed) (t : Trigger Fields) (d : Daemon)
      → Rolling m.workflow.id key m.handles base d.routes
      → Carried m.workflow.id key m.handles base
          (start_file_watcher_trigger env host json reports now t d)
  unfolding start_file_watcher_trigger
  start_file_watcher_trigger-Carried m t d h =
      elim (Result-cases (parse_file_watcher_config env t.config)) [
        | inr (e, bad) ↦ rw (bad, start_file_watcher_trigger) h
        | inl (c, good) ↦
            rw (good, start_file_watcher_trigger)
              (if-Carried m.workflow.id key m.handles base (host.can_watch c.path) _ _
                (Rolling-more m.workflow.id key m.handles (watcher t.id c) base d.routes h) h)
      ]

  start_trigger-Carried :
      (m : Managed) (t : Trigger Fields) (restoring : Bool) (d : Daemon)
      → is_own m.workflow.id base ≡ false
      → Rolling m.workflow.id key m.handles base d.routes
      → Carried m.workflow.id key m.handles base
          (start_trigger env host json reports now m t restoring d)
  unfolding start_trigger
  start_trigger-Carried m t restoring d foreign h =
      let one_of = if-Carried m.workflow.id key m.handles base in
      one_of (t.kind =ₛ "manual") _ _ h (
        one_of (t.kind =ₛ "scheduler") _ _ (start_scheduler_trigger-Carried m t restoring d h) (
          one_of (t.kind =ₛ "webhook") _ _ (start_webhook_trigger-Carried m t d foreign h)
            (one_of (t.kind =ₛ "file_watcher") _ _ (start_file_watcher_trigger-Carried m t d h) h)))

  -- One round of the loop.
  round-Unwound :
      (t : Trigger Fields) (rest : List (Trigger Fields)) (restoring : Bool) (m : Managed)
      (out : Daemon × Started)
      → is_own m.workflow.id base ≡ false
      → Carried m.workflow.id key m.handles base out
      → ((handle : Option Handle) (next : Option ℕ) (d : Daemon)
          → Rolling m.workflow.id key (with_handle m.handles handle) base d.routes
          → Unwound key base (
              start_triggers env host json reports now rest restoring
                (with_started env host json reports now m t handle next)
                d))
      → Unwound key base (elim out.1 as (λ x. Daemon × Result DaemonError Managed) [
        | err e ↦ (stop_handles m.workflow.id m.handles out.0, err e)
        | ok (handle, next) ↦
            start_triggers env host json reports now rest restoring
              (with_started env host json reports now m t handle next)
              (record out.0 { db = (set_trigger_runtime now t.id "active" next out.0.db).0 })
      ])
  round-Unwound t rest restoring m (d, err e) foreign h k =
      stop_handles-Rolling m.workflow.id key m.handles base d foreign h
  round-Unwound t rest restoring m (d, ok (handle, next)) foreign h k =
      k handle next (record d { db = (set_trigger_runtime now t.id "active" next d.db).0 }) h

  loop-Unwound :
      (ts : List (Trigger Fields)) (restoring : Bool) (m : Managed) (d : Daemon)
      → is_own m.workflow.id base ≡ false
      → Rolling m.workflow.id key m.handles base d.routes
      → Unwound key base (start_triggers env host json reports now ts restoring m d)
  unfolding start_triggers
  loop-Unwound [] restoring m d foreign h = tt
  loop-Unwound (t ∷ ts) restoring m d foreign h =
      round-Unwound t ts restoring m (start_trigger env host json reports now m t restoring d)
        foreign (start_trigger-Carried m t restoring d foreign h)
        (λ handle next d' k.
          elim handle
              as (λ o.
                Rolling m.workflow.id key (with_handle m.handles o) base d'.routes
                → Unwound key base (
                    start_triggers env host json reports now ts restoring
                      (with_started env host json reports now m t o next) d')) [
                        | none ↦ λ r. loop-Unwound ts restoring _ d' foreign r
                        | some x ↦ λ r. loop-Unwound ts restoring _ d' foreign r
                      ]
            k)

-- If one of a workflow's triggers cannot be started, the loop of activateWorkflow leaves under every
-- key of the webhook registry what was there, where that was no route of the workflow: what it has
-- registered itself is taken back.
pub start_triggers-Unwound :
    (env : Env) (host : Host) (json : Codec Fields) (reports : Codec Report) (now : ℕ)
    (triggers : List (Trigger Fields)) (restoring : Bool) (m : Managed) (d : Daemon) (key : String)
    → is_own m.workflow.id (d.routes key) ≡ false
    → Unwound key (d.routes key) (start_triggers env host json reports now triggers restoring m d)
start_triggers-Unwound env host json reports now triggers restoring m d key foreign =
    loop-Unwound env host json reports now key (d.routes key) triggers restoring m d foreign
      (inl refl)
