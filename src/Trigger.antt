-- ===== src/Trigger.antt =====
-- internal/daemon/daemon.go: the configurations of triggers. Package time, robfig/cron, os and
-- path/filepath are the parameters in `Env`.
pub mod Duration
pub mod Validate
use lumn.Base.{
  ℕ, ◌+◌, ◌≤◌, ◌<◌, String, Bool, true, false, not, ◌&&◌, ◌||◌, Option, none, some, List, [], ◌∷◌,
  ltb, ◌=ₛ◌, Result, ok, err, ◌>>=◌, if◌then◌else◌,
}
use lumn.Base.Text.{has_prefix, has_suffix}
use lumn.Value.{ℤ, pos, negsuc, Fields, end, text_field}

-- What the configurations need of other packages. Instants and durations are in nanoseconds.
pub record Env : Type 0 where
  -- `time.ParseDuration`
  pub parse_duration : String → Option ℤ
  -- `time.LoadLocation`: the zone is known
  pub load_location : String → Bool
  -- the five-field parser of cron and `schedule.Next(after.In(location)).UTC()`; UTC is ""
  pub parse_cron : String → Option (String → ℕ → ℕ)
  -- `os.Stat`: whether a path that exists is a directory
  pub stat : String → Option Bool
  pub is_abs : String → Bool
  pub to_upper : String → String
  -- `filepath.Match`, `none` for a bad pattern, and `filepath.Base`
  pub match : String → String → Option Bool
  pub base : String → String

-- The errors of this part; each stands for one text of the source.
pub data ConfigError : Type 0 where
  empty_duration : ConfigError
  no_milliseconds unsupported_duration invalid_duration not_positive : String → ConfigError
  interval_or_cron : ConfigError
  invalid_timezone invalid_cron : String → ConfigError
  hook_prefix : ConfigError
  path_not_absolute : ConfigError
  path_missing path_not_directory unsupported_event unsupported_trigger : String → ConfigError

-- `parseStrictDuration`; the result is positive.
unfoldable pub parse_strict_duration : Env → String → Bool → Result ConfigError ℕ
parse_strict_duration env raw allow_milliseconds =
    if raw =ₛ ""
    then err empty_duration
    else if has_suffix raw "ms" && not allow_milliseconds
    then err (no_milliseconds raw)
    else if not (has_suffix raw "ms")
        && not (has_suffix raw "s" || (has_suffix raw "m" || has_suffix raw "h"))
    then err (unsupported_duration raw)
    else elim (env.parse_duration raw) [
      | none ↦ err (invalid_duration raw)
      | some (negsuc n) ↦ err (not_positive raw)
      | some (pos n) ↦ if ltb 0 n then ok n else err (not_positive raw)
    ]

-- `schedulerPlan`: by interval, or by a cron expression in a zone.
pub data SchedulerPlan : Type 0 where
  every : ℕ → SchedulerPlan
  at_times : String → (String → ℕ → ℕ) → SchedulerPlan

-- `Next`.
unfoldable pub next_time : SchedulerPlan → ℕ → ℕ
next_time (every duration) after = after + duration
next_time (at_times location next) after = next location after

-- `parseSchedulerConfig`.
unfoldable pub parse_scheduler_config : Env → Fields → Result ConfigError SchedulerPlan
parse_scheduler_config env config =
    let interval = text_field config "interval" in
    let cron = text_field config "cron" in
    let timezone = text_field config "timezone" in
    if (interval =ₛ "" && cron =ₛ "") || (not (interval =ₛ "") && not (cron =ₛ ""))
    then err interval_or_cron
    else if not (interval =ₛ "")
    then (do duration ← parse_strict_duration env interval false; ok (every duration))
    else if not (timezone =ₛ "") && not (env.load_location timezone)
    then err (invalid_timezone timezone)
    else elim (env.parse_cron cron) [
      | none ↦ err (invalid_cron cron)
      | some next ↦ ok (at_times timezone next)
    ]

pub record WebhookConfig : Type 0 where
  pub path : String
  pub method : String

-- `parseWebhookConfig`.
unfoldable pub parse_webhook_config : Env → Fields → Result ConfigError WebhookConfig
parse_webhook_config env config =
    let path = text_field config "path" in
    let method = text_field config "method" in
    if path =ₛ "" || not (has_prefix path "/hooks/")
    then err hook_prefix
    else ok
        (record { path = path; method = env.to_upper (if method =ₛ "" then "POST" else method) })

pub record FileWatcherConfig : Type 0 where
  pub path : String
  pub pattern : String
  pub event : String
  pub debounce : ℕ

abbrev pub known_event : String → Bool
known_event event =
    event =ₛ "create" || (event =ₛ "modify" || (event =ₛ "delete" || event =ₛ "any"))

abbrev or_default : String → String → String
or_default s default = if s =ₛ "" then default else s

-- The part of `parseFileWatcherConfig` behind the tests of the path.
watcher_rest : Env → Fields → String → Result ConfigError FileWatcherConfig
watcher_rest env config path =
    let event = or_default (text_field config "event") "any" in
    if known_event event
    then (do
      debounce ← parse_strict_duration env (or_default (text_field config "debounce") "500ms") true
      ok (record {
        path = path;
        pattern = text_field config "pattern";
        event = event;
        debounce = debounce;
      }))
    else err (unsupported_event event)

-- `parseFileWatcherConfig`.
unfoldable pub parse_file_watcher_config : Env → Fields → Result ConfigError FileWatcherConfig
unfolding watcher_rest
parse_file_watcher_config env config =
    let path = text_field config "path" in
    if path =ₛ "" || not (env.is_abs path) then err path_not_absolute else elim (env.stat path) [
      | none ↦ err (path_missing path)
      | some false ↦ err (path_not_directory path)
      | some true ↦ watcher_rest env config path
    ]

-- The operations of an `fsnotify.Event`, and its name.
pub record FsEvent : Type 0 where
  pub name : String
  pub create : Bool
  pub write : Bool
  pub remove : Bool
  pub rename : Bool

-- `matchEvent`: the kind, if the configuration asks for it.
abbrev pub match_event : FileWatcherConfig → String → Option String
match_event c event = if c.event =ₛ "any" || c.event =ₛ event then some event else none

abbrev pub name_matches : Env → FileWatcherConfig → FsEvent → Bool
name_matches env c event =
    if c.pattern =ₛ ""
    then true
    else elim (env.match c.pattern (env.base event.name)) [ some true ↦ true | _ ↦ false ]

-- `Match`.
unfoldable pub match_watcher : Env → FileWatcherConfig → FsEvent → Option String
match_watcher env c event =
    if not (name_matches env c event)
    then none
    else if event.create
    then match_event c "create"
    else if event.write
    then match_event c "modify"
    else if event.remove || event.rename
    then match_event c "delete"
    else none

-- `engine.TriggerSpec` and `validatedTrigger`, which have the same fields.
pub record TriggerSpec : Type 0 where
  pub kind : String
  pub config : Fields

-- One round of `validateTriggers`.
unfoldable pub validate_trigger : Env → TriggerSpec → Result ConfigError TriggerSpec
validate_trigger env trigger =
    if trigger.kind =ₛ "manual"
    then ok (record { kind = trigger.kind; config = end })
    else if trigger.kind =ₛ "scheduler"
    then (parse_scheduler_config env trigger.config >>= λ _. ok trigger)
    else if trigger.kind =ₛ "webhook"
    then (parse_webhook_config env trigger.config >>= λ _. ok trigger)
    else if trigger.kind =ₛ "file_watcher"
    then (parse_file_watcher_config env trigger.config >>= λ _. ok trigger)
    else err (unsupported_trigger trigger.kind)

unfoldable pub validate_each : Env → List TriggerSpec → Result ConfigError (List TriggerSpec)
validate_each env [] = ok []
validate_each env (t ∷ rest) = elim (validate_trigger env t) [
  | err e ↦ err e
  | ok v ↦ elim (validate_each env rest) [ err e ↦ err e | ok vs ↦ ok (v ∷ vs) ]
]

-- `validateTriggers`: a workflow with no trigger gets a manual one.
unfoldable pub validate_triggers : Env → List TriggerSpec → Result ConfigError (List TriggerSpec)
unfolding validate_each
validate_triggers env [] = ok (record { kind = "manual"; config = end } ∷ [])
validate_triggers env (t ∷ rest) = validate_each env (t ∷ rest)
