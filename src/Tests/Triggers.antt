-- ===== src/Tests/Triggers.antt =====
-- daemon.go: triggers in an environment that knows two durations, one directory and one pattern.
use lumn.Base.{
  ◌<◌, ◌≡◌, refl, true, false, none, some, [], ◌∷◌, ◌==◌, ◌=ₛ◌, ok, All, length, if◌then◌else◌,
}
use lumn.Base.Text.{has_suffix, has_prefix}
use lumn.Value.{pos, Fields, end, field, text, text_field}
use lumn.Trigger.{
  Env, parse_strict_duration, parse_scheduler_config, parse_webhook_config, every, next_time,
  FileWatcherConfig, FsEvent, match_watcher, TriggerSpec, validate_trigger, validate_triggers,
}
use lumn.Trigger.Duration.{interval-progress}
use lumn.Trigger.Validate.{Startable, validate_triggers-Startable}

abbrev pub env : Env
env = record {
  parse_duration = λ s.
      if s =ₛ "5m"
      then some (pos 300_000_000_000)
      else if s =ₛ "500ms"
      then some (pos 500_000_000)
      else none;
  load_location = λ s. s =ₛ "America/Sao_Paulo";
  parse_cron = λ s. none;
  stat = λ s. if s =ₛ "/in" then some true else none;
  is_abs = λ s. has_prefix s "/";
  to_upper = λ s. s;
  match = λ pattern s. if pattern =ₛ "*.csv" then some (has_suffix s ".csv") else none;
  base = λ s. s;
}

abbrev pub interval : Fields
interval = field "interval" (text "5m") end

five_minutes : parse_strict_duration env "5m" false ≡ ok 300_000_000_000
unfolding parse_strict_duration has_suffix
five_minutes = refl

pub scheduled : parse_scheduler_config env interval ≡ ok (every 300_000_000_000)
unfolding parse_scheduler_config parse_strict_duration text_field has_suffix
scheduled = refl

interval-progress_example :
    (77 < next_time (every 300_000_000_000) 77)
    × (env.parse_duration (text_field interval "interval") ≡ some (pos 300_000_000_000))
    × ((text_field interval "cron" =ₛ "") ≡ true)
interval-progress_example = interval-progress env interval 300_000_000_000 77 scheduled

abbrev csv_files : FileWatcherConfig
csv_files = record { path = "/in"; pattern = "*.csv"; event = "any"; debounce = 500_000_000 }

abbrev written : FsEvent
written = record { name = "a.csv"; create = false; write = true; remove = false; rename = false }

modified : match_watcher env csv_files written ≡ some "modify"
unfolding match_watcher has_suffix
modified = refl

abbrev pub hook : TriggerSpec
hook = record { kind = "webhook"; config = field "path" (text "/hooks/a") end }

abbrev schedule : TriggerSpec
schedule = record { kind = "scheduler"; config = interval }

accepted : validate_triggers env (schedule ∷ hook ∷ []) ≡ ok (schedule ∷ hook ∷ [])
unfolding validate_triggers validate_trigger parse_scheduler_config parse_strict_duration
    parse_webhook_config text_field has_suffix has_prefix
accepted = refl

validate_triggers-Startable_example :
    All (Startable env) (schedule ∷ hook ∷ [])
    × (length (schedule ∷ hook ∷ [])
        ≡ (if length (schedule ∷ hook ∷ []) == 0 then 1 else length (schedule ∷ hook ∷ [])))
validate_triggers-Startable_example =
    validate_triggers-Startable env (schedule ∷ hook ∷ []) (schedule ∷ hook ∷ []) accepted
