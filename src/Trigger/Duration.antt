-- ===== src/Trigger/Duration.antt =====
-- daemon.go: durations, schedules and file events.
use lumn.Base.{ℕ, ◌<◌, String, ◌≡◌, ◌⊎◌, Bool, true, false, ◌||◌, some, arith, ◌=ₛ◌, ok}
use lumn.Base.Text.{has_suffix}
use lumn.Value.{pos, Fields, text_field}
use lumn.Trigger.{
  Env, parse_strict_duration, every, next_time, parse_scheduler_config, FileWatcherConfig, FsEvent,
  match_watcher, name_matches,
}

-- A duration that is accepted is positive, is what `time.ParseDuration` reads, and is in milliseconds
-- only where those are allowed.
pub strict_duration_sound :
    (env : Env) (raw : String) (allow : Bool) (n : ℕ)
    → parse_strict_duration env raw allow ≡ ok n
    → (0 < n)
      × (env.parse_duration raw ≡ some (pos n))
      × ((has_suffix raw "ms" ≡ false) ⊎ (allow ≡ true))
unfolding parse_strict_duration
strict_duration_sound env raw allow n e = ground arith

-- An interval schedule never stands still: its next run lies after the given time. Its configuration
-- has an interval that `time.ParseDuration` reads, and no cron expression.
pub interval-progress :
    (env : Env) (config : Fields) (duration after : ℕ)
    → parse_scheduler_config env config ≡ ok (every duration)
    → (after < next_time (every duration) after)
      × (env.parse_duration (text_field config "interval") ≡ some (pos duration))
      × ((text_field config "cron" =ₛ "") ≡ true)
unfolding parse_scheduler_config next_time
interval-progress env config duration after e =
    let parsed = interval_parsed in
    let (positive, read, _) =
      strict_duration_sound env (text_field config "interval") false duration parsed in
    (omega arith, read, ground arith)
  where
    interval_parsed : parse_strict_duration env (text_field config "interval") false ≡ ok duration
    interval_parsed = ground arith

-- The event has the operation that the kind names.
abbrev pub Carries : FsEvent → String → Type 0
Carries event kind =
    ((kind ≡ "create") × (event.create ≡ true))
    ⊎ ((kind ≡ "modify") × (event.write ≡ true))
    ⊎ ((kind ≡ "delete") × ((event.remove || event.rename) ≡ true))

-- A file event that fires names one of the three kinds, which the configuration asks for, and whose
-- operation the event has; the file's name matches the pattern.
pub match_watcher_sound :
    (env : Env) (c : FileWatcherConfig) (event : FsEvent) (kind : String)
    → match_watcher env c event ≡ some kind
    → (name_matches env c event ≡ true)
      × ((c.event =ₛ "any" || c.event =ₛ kind) ≡ true)
      × Carries event kind
unfolding match_watcher
match_watcher_sound env c event kind e = ground arith
