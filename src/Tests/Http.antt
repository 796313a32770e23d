-- ===== src/Tests/Http.antt =====
-- api.go and cli.go: a daemon with one registered workflow is asked for it.
use lumn.Base.{◌≡◌, refl, none, some, List, [], ◌∷◌, map, ok}
use lumn.Store.{empty_db}
use lumn.Cli.Select.{select_workflow_id}
use lumn.Daemon.{Daemon}
use lumn.Daemon.Bundles.{Bundle, list_bundles, summarize_workflow}
use lumn.Daemon.Http.{workflow_parts}
use lumn.Tests.Queue.{statuses, sync}
use lumn.Tests.Daemon.{types, daemon}

abbrev pub quiet : Daemon
quiet = record daemon { db = record empty_db { workflows = sync ∷ [] } }

abbrev pub bundles : List Bundle
bundles = record { workflow = sync; triggers = []; latest = none; fails = 0 } ∷ []

pub sent : list_bundles types statuses quiet ≡ ok bundles
unfolding list_bundles
sent = refl

chosen : select_workflow_id (map (summarize_workflow (λ t. "")) bundles) "a1" ≡ ok (some "a1")
unfolding select_workflow_id summarize_workflow
chosen = refl

parts_test : workflow_parts "/api/v1/workflows/a1/status" ≡ ("a1", "status" ∷ [])
unfolding workflow_parts
parts_test = refl
