-- ===== src/Cli/Select.antt =====
-- cli.go: `selectWorkflowID`, the client's own resolution of a selector against the daemon's list.
pub mod Agreement
use lumn.Base.{
  String, Bool, Option, none, some, List, [], ◌∷◌, map, ◌=ₛ◌, Result, ok, err, if◌then◌else◌, find,
  select,
}
use lumn.Base.Text.{has_prefix}
use lumn.Api.{WorkflowResponse}

-- The two errors, with what their texts name.
pub data SelectError : Type 0 where
  ambiguous_name : String → SelectError
  ambiguous_prefix : String → List String → SelectError
  not_found : String → SelectError

abbrev pub Selected : Type 0
Selected = Result SelectError (Option String)

-- The rows that have the selector for their name.
unfoldable pub pick_name : String → List WorkflowResponse → Selected → Selected
pick_name selector [] otherwise = otherwise
pick_name selector (w ∷ []) otherwise = ok (some w.id)
pick_name selector (w ∷ v ∷ rest) otherwise =
    elim (find (λ u. u.version =ₛ "latest") (w ∷ v ∷ rest)) [
      | some u ↦ ok (some u.id)
      | none ↦ err (ambiguous_name selector)
    ]

-- The rows whose id begins with the selector.
unfoldable pub pick_prefix : String → List WorkflowResponse → Selected
pick_prefix selector [] = ok none
pick_prefix selector (w ∷ []) = ok (some w.id)
pick_prefix selector (w ∷ v ∷ rest) =
    err (ambiguous_prefix selector (map (λ u. u.id) (w ∷ v ∷ rest)))

-- `selectWorkflowID`.
unfoldable pub select_workflow_id : List WorkflowResponse → String → Selected
unfolding pick_name pick_prefix
select_workflow_id workflows selector = elim (find (λ w. w.id =ₛ selector) workflows) [
  | some w ↦ ok (some w.id)
  | none ↦
      pick_name selector (select (λ w. w.name =ₛ selector) workflows)
        (pick_prefix selector (select (λ w. has_prefix w.id selector) workflows))
]

-- `requireDaemonSelector` on the list that the daemon sent.
unfoldable pub require_selector : List WorkflowResponse → String → Result SelectError String
unfolding select_workflow_id
require_selector workflows selector = elim (select_workflow_id workflows selector) [
  | ok (some id) ↦ ok id
  | ok none ↦ err (not_found selector)
  | err e ↦ err e
]
