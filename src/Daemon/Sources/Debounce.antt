-- ===== src/Daemon/Sources/Debounce.antt =====
-- daemon.go: a file watcher asks for one execution after a burst of events.
use lumn.Base.{
  String, ◌≡◌, refl, ◌∙◌, inl, inr, Option, none, some, List, [], ◌∷◌, ◌=ₛ◌, =ₛ_refl, All,
  Bool-cases, Option-cases,
}
use lumn.Trigger.{Env, FileWatcherConfig, FsEvent, match_watcher}
use lumn.Daemon.Sources.{Timers, put_timer, on_event, on_events, on_elapse}

-- The kind of the last event that the watcher takes, or `before` where it takes none.
abbrev pub last_kind : Env → FileWatcherConfig → List FsEvent → Option String → Option String
last_kind env config [] before = before
last_kind env config (event ∷ rest) before = elim (match_watcher env config event) [
  | none ↦ last_kind env config rest before
  | some kind ↦ last_kind env config rest (some kind)
]

elapse-put :
    (file kind : String) (timers : Timers)
    → on_elapse file (put_timer file kind timers) ≡ ((on_elapse file timers).0, some kind)
unfolding on_elapse put_timer
elapse-put file kind [] = rw (=ₛ_refl file) refl
elapse-put file kind ((f, k) ∷ rest) = elim (Bool-cases (f =ₛ file)) [
  | inl same ↦ rw (same, put_timer) (rw (same, on_elapse) refl)
  | inr other ↦ rw (other, put_timer) (rw (other, elapse-put file kind rest, on_elapse) refl)
]

-- After any events of one file, its timer asks for one execution, with the kind of the last event that
-- the watcher takes, or with the kind that waited before where it takes none of them; and the timers of
-- the other files are the ones from before.
pub on_events-elapse :
    (env : Env) (config : FileWatcherConfig) (file : String) (events : List FsEvent)
    (timers : Timers)
    → All (λ e. e.name ≡ file) events
    → on_elapse file (on_events env config events timers)
      ≡ ((on_elapse file timers).0, last_kind env config events (on_elapse file timers).1)
unfolding on_events on_event
on_events-elapse env config file [] timers h = refl
on_events-elapse env config file (event ∷ rest) timers (same, h) =
    elim (Option-cases (match_watcher env config event)) [
      | inl ignored ↦
          rw (ignored, on_events, on_event, last_kind)
            (on_events-elapse env config file rest timers h)
      | inr (kind, taken) ↦
          rw (taken, same, on_events, on_event, last_kind)
            (on_events-elapse env config file rest (put_timer file kind timers) h
              ∙ rw (elapse-put file kind timers) refl)
    ]
