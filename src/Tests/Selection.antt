-- ===== src/Tests/Selection.antt =====
-- store.go, cli.go: selectors against two versions of one workflow.
use lumn.Base.{ℕ, String, ◌≡◌, refl, some, [], ◌∷◌, arith, ok}
use lumn.Api.{WorkflowResponse}
use lumn.Store.{Workflow, Db, empty_db, status_active}
use lumn.Store.Selector.{resolve_by_id_prefix}
use lumn.Base.Text.{codes}
use lumn.Tests.Queue.{sync}
use lumn.Store.Selector.Prefix.{Finds, prefixed, resolve_by_id_prefix-Finds}
use lumn.Cli.Select.{select_workflow_id}

abbrev version : String → String → ℕ → Workflow
version id v created = record {
  id = id;
  name = "sync";
  version = v;
  path = "/w/sync";
  status = status_active;
  created_at = created;
  updated_at = created;
}

abbrev db : Db
db = record empty_db { workflows = version "a1f0" "2" 5 ∷ version "b2f0" "latest" 3 ∷ [] }

abbrev listed : String → String → WorkflowResponse
listed id v = record {
  id = id;
  name = "sync";
  version = v;
  path = "/w/sync";
  status = status_active;
  triggers = "manual" ∷ [];
  fails = 0;
  next_run = "";
  last_run = "";
  last_status = "";
}

-- Two registered ids, of which one begins with the selector.
abbrev two_ids : Db
two_ids = record empty_db {
  workflows = record sync { id = "a1f" } ∷ record sync { id = "b2"; name = "mail" } ∷ [];
}

resolve_by_id_prefix-Finds_example :
    Finds "a1" (prefixed "a1" two_ids) (resolve_by_id_prefix two_ids "a1")
unfolding codes
resolve_by_id_prefix-Finds_example =
    resolve_by_id_prefix-Finds two_ids "a1"
      ((λ e. omega arith, λ e. omega arith, refl), ((λ e. omega arith, λ e. omega arith, refl), tt))
      ((refl, (refl, (refl, tt))), ((refl, (refl, tt)), tt))

chosen :
    select_workflow_id (listed "a1f0" "2" ∷ listed "b2f0" "latest" ∷ []) "sync" ≡ ok (some "b2f0")
unfolding select_workflow_id
chosen = refl
