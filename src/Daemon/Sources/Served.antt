-- ===== src/Daemon/Sources/Served.antt =====
-- daemon.go: a request to the webhook server.
use lumn.Base.{
  ℕ, String, ◌≡◌, refl, inl, inr, some, [], ◌∷◌, ◌++◌, ◌=ₛ◌, Result, ok, err, if◌then◌else◌,
  Option-cases,
}
use lumn.Report.{Report}
use lumn.Value.{Value, nil, Fields}
use lumn.Store.{Codec, Execution}
use lumn.Store.Queue.Fifo.{pending}
use lumn.Webhooks.{Route, route_key}
use lumn.Daemon.{Daemon, DaemonError, enqueue_execution}
use lumn.Daemon.Admission.{Admits, enqueue-Admits}
use lumn.Daemon.Sources.{
  Decoded, no_body, bad_body, decoded, WebhookRequest, WebhookAnswer, bad_request, conflict,
  accepted, webhook_context, enqueue_webhook, serve_http,
}

-- An answer with the id of an execution: the route leads to a workflow `w`, and the execution is the
-- last one of its queue, no other queue changing. Any other answer: nothing has changed.
abbrev pub Served : Daemon → String → WebhookRequest → Daemon × WebhookAnswer → Type 0
Served d v req (d', accepted id) =
    (route : Route) × (d.routes (route_key req.method req.path) ≡ some route)
    × (pending v d'.db.queue ≡ (
        if route.workflow_id =ₛ v then pending v d.db.queue ++ id ∷ [] else pending v d.db.queue))
Served d v req (d', _) = d' ≡ d

module _ (json : Codec Fields) (reports : Codec Report) (now : ℕ) (to_lower : String → String)
    (req : WebhookRequest) (d : Daemon) (v : String) where
  after_enqueue :
      (route : Route)
      → d.routes (route_key req.method req.path) ≡ some route
      → (out : Daemon × Result DaemonError Execution) → Admits d v route.workflow_id out
      → Served d v req (elim out.1 [
        | err e ↦ (out.0, conflict e)
        | ok execution ↦ (out.0, accepted execution.id)
      ])
  after_enqueue route found (d', err e) h = h
  after_enqueue route found (d', ok execution) (m, known, accepts, room, same, queue) =
      (route, found, queue)

  enqueue_webhook-Served :
      (route : Route) (body : Value)
      → d.routes (route_key req.method req.path) ≡ some route
      → Served d v req (enqueue_webhook json reports now to_lower req route.workflow_id body d)
  unfolding enqueue_webhook
  enqueue_webhook-Served route body found =
      let context = webhook_context to_lower req body in
      after_enqueue route found
        (enqueue_execution json reports now route.workflow_id "webhook" context d)
        (enqueue-Admits json reports now d v route.workflow_id "webhook" context)

  -- `ServeHTTP` answers with the id of an execution only where a route is registered for the method and
  -- the path, and then that execution is the last one of the queue of the route's workflow and no other
  -- queue has changed. Whatever else it answers, the daemon is as it was.
  pub serve_http-Served : Served d v req (serve_http json reports now to_lower req d)
  unfolding serve_http
  serve_http-Served = elim (Option-cases (d.routes (route_key req.method req.path))) [
    | inl missing ↦ rw (missing, serve_http) refl
    | inr (route, found) ↦ rw (found, serve_http) (by_body route found req.body)
  ]
    where
      by_body :
          (route : Route)
          → d.routes (route_key req.method req.path) ≡ some route
          → (body : Decoded)
          → Served d v req (elim body [
            | bad_body ↦ (d, bad_request)
            | no_body ↦ enqueue_webhook json reports now to_lower req route.workflow_id nil d
            | decoded b ↦ enqueue_webhook json reports now to_lower req route.workflow_id b d
          ])
      by_body route found bad_body = refl
      by_body route found no_body = enqueue_webhook-Served route nil found
      by_body route found (decoded b) = enqueue_webhook-Served route b found
