-- ===== src/Daemon/Sources.antt =====
-- daemon.go: what asks for executions while a workflow is active: a request to the webhook server, a
-- round of the loop of a schedule, and the events and timers of a file watcher.
pub mod Served
pub mod Debounce
use lumn.Base.{
  ℕ, String, Bool, true, false, Option, none, some, List, [], ◌∷◌, ◌=ₛ◌, Result, ok, err,
  if◌then◌else◌,
}
use lumn.Report.{Report}
use lumn.Value.{
  Value, nil, text, array, object, Values, none_left, value, Fields, end, field, set_field,
}
use lumn.Store.{Codec, Trigger}
use lumn.Store.Triggers.{set_trigger_runtime}
use lumn.Trigger.{Env, SchedulerPlan, next_time, FileWatcherConfig, FsEvent, match_watcher}
use lumn.Webhooks.{route_key}
use lumn.Daemon.{Daemon, Managed, DaemonError, enqueue_execution}
use lumn.Daemon.Lifecycle.{Host, scheduled_context}

-- What the decoder of package encoding/json makes of a body.
pub data Decoded : Type 0 where
  no_body bad_body : Decoded
  decoded : Value → Decoded

pub record WebhookRequest : Type 0 where
  pub method : String
  pub path : String
  pub body : Decoded
  pub headers : List (String × List String)

-- The answer: 404, 400, 409 or 202.
pub data WebhookAnswer : Type 0 where
  no_route bad_request : WebhookAnswer
  conflict : DaemonError → WebhookAnswer
  accepted : ℕ → WebhookAnswer

abbrev pub texts_of : List String → Values
texts_of [] = none_left
texts_of (s ∷ rest) = value (text s) (texts_of rest)

-- The value of a header: a text if there is one, a list otherwise.
abbrev pub header_value : List String → Value
header_value (s ∷ []) = text s
header_value items = array (texts_of items)

-- The loop over the headers; `to_lower` is `strings.ToLower`.
unfoldable pub headers_of : (String → String) → List (String × List String) → Fields
unfolding set_field
headers_of to_lower [] = end
headers_of to_lower ((key, items) ∷ rest) =
    set_field (to_lower key) (header_value items) (headers_of to_lower rest)

-- The body, with an empty map for none and for `null`.
abbrev pub body_value : Value → Value
body_value nil = object end
body_value v = v

unfoldable pub webhook_context : (String → String) → WebhookRequest → Value → Fields
unfolding headers_of
webhook_context to_lower req body = field "type" (text "webhook") (
    field "body" (body_value body) (
      field "headers" (object (headers_of to_lower req.headers))
        (field "method" (text req.method) (field "path" (text req.path) end))))

module _ (json : Codec Fields) (reports : Codec Report) (now : ℕ) where
  -- The end of `ServeHTTP`.
  unfoldable pub enqueue_webhook :
      (String → String) → WebhookRequest → String → Value → Daemon → Daemon × WebhookAnswer
  unfolding webhook_context enqueue_execution
  enqueue_webhook to_lower req id body d =
      let (d', result) =
        enqueue_execution json reports now id "webhook" (webhook_context to_lower req body) d in
      elim result [ err e ↦ (d', conflict e) | ok execution ↦ (d', accepted execution.id) ]

  -- `ServeHTTP`.
  unfoldable pub serve_http : (String → String) → WebhookRequest → Daemon → Daemon × WebhookAnswer
  unfolding enqueue_webhook
  serve_http to_lower req d = elim (d.routes (route_key req.method req.path)) [
    | none ↦ (d, no_route)
    | some route ↦ elim req.body [
      | bad_body ↦ (d, bad_request)
      | no_body ↦ enqueue_webhook to_lower req route.workflow_id nil d
      | decoded body ↦ enqueue_webhook to_lower req route.workflow_id body d
    ]
  ]

  -- A round of the loop of `startSchedulerTrigger` when its timer fires at the time `now`: the execution
  -- that is due, refused or not, and the next time.
  unfoldable pub fire_schedule : Env → Host → Managed → ℕ → SchedulerPlan → ℕ → Daemon → Daemon × ℕ
  unfolding enqueue_execution next_time set_trigger_runtime
  fire_schedule env host m trigger_id plan due d =
      let next = next_time plan now in
      let d' =
        (enqueue_execution json reports now m.workflow.id "scheduler"
          (scheduled_context env host json reports now due) d).0 in
      (record d' { db = (set_trigger_runtime now trigger_id "active" (some next) d'.db).0 }, next)

-- The files of a watcher for which a timer runs, with the kind of the last event of each.
abbrev pub Timers : Type 0
Timers = List (String × String)

-- `eventKinds[filePath] = eventKind` and the timer, set anew or created.
unfoldable pub put_timer : String → String → Timers → Timers
put_timer file kind [] = (file, kind) ∷ []
put_timer file kind ((f, k) ∷ rest) =
    let later = put_timer file kind rest in if f =ₛ file then (f, kind) ∷ rest else (f, k) ∷ later

-- The case of an event in the loop of `startFileWatcherTrigger`.
unfoldable pub on_event : Env → FileWatcherConfig → FsEvent → Timers → Timers
unfolding match_watcher put_timer
on_event env config event timers = elim (match_watcher env config event) [
  | none ↦ timers
  | some kind ↦ put_timer event.name kind timers
]

-- The events of a file in a row.
unfoldable pub on_events : Env → FileWatcherConfig → List FsEvent → Timers → Timers
unfolding on_event
on_events env config [] timers = timers
on_events env config (event ∷ rest) timers =
    on_events env config rest (on_event env config event timers)

-- The timer of a file: what is left, and the kind with which an execution is asked for.
unfoldable pub on_elapse : String → Timers → Timers × Option String
on_elapse file [] = ([], none)
on_elapse file ((f, k) ∷ rest) =
    let (left, kind) = on_elapse file rest in
    if f =ₛ file then (rest, some k) else ((f, k) ∷ left, kind)

-- The context of the execution; `base` is `filepath.Base`.
unfoldable pub watcher_context : (String → String) → FileWatcherConfig → String → String → Fields
watcher_context base config file kind = field "type" (text "file_watcher") (
    field "file" (text (base file))
      (field "event" (text kind) (field "path" (text config.path) end)))
