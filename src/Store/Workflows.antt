-- ===== src/Store/Workflows.antt =====
-- store.go: the table `workflows` (sql/queries/workflows.sql). The unique index on name and version
-- and the cascades of the foreign keys are those of sql/migrations.
use lumn.Base.{
  ℕ, String, Bool, not, ◌&&◌, ◌||◌, Option, List, [], ◌∷◌, ◌++◌, ◌==◌, ◌=ₛ◌, ok, err, if◌then◌else◌,
  select, find, update, exists, length,
}
use lumn.Base.Sort.{sort_by, text_lt}
use lumn.Store.{Workflow, Db, Op, unique_violation, status_active}

-- Another row has the name and the version.
abbrev pub taken : Workflow → List Workflow → Bool
taken w = exists (λ v. not (v.id =ₛ w.id) && (v.name =ₛ w.name && v.version =ₛ w.version))

-- `INSERT … ON CONFLICT(id) DO UPDATE`, which keeps `created_at`.
abbrev pub put_workflow : Workflow → List Workflow → List Workflow
put_workflow w rows =
    if exists (λ v. v.id =ₛ w.id) rows
    then update (λ v. v.id =ₛ w.id)
        (λ v. record v {
          name = w.name;
          version = w.version;
          path = w.path;
          status = w.status;
          updated_at = w.updated_at;
        })
        rows
    else rows ++ w ∷ []

-- `UpsertWorkflow` at the time `now`.
unfoldable pub upsert_workflow : ℕ → Workflow → Op Unit
upsert_workflow now workflow db =
    let w : Workflow = record workflow {
      created_at = if workflow.created_at == 0 then now else workflow.created_at;
      updated_at = if workflow.updated_at == 0 then now else workflow.updated_at;
    } in
    if taken w db.workflows
    then (db, err unique_violation)
    else (record db { workflows = put_workflow w db.workflows }, ok tt)

-- A row may name the workflow: it is registered, or the connection does not check foreign keys.
abbrev pub may_refer : Db → String → Bool
may_refer db id = not db.foreign_keys || exists (λ w. w.id =ₛ id) db.workflows

-- `ON DELETE CASCADE`: the rows of the other tables that name the workflow.
abbrev pub cascade : String → Db → Db
cascade id db = record db {
  triggers = select (λ t. not (t.workflow_id =ₛ id)) db.triggers;
  executions = select (λ e. not (e.workflow_id =ₛ id)) db.executions;
  queue = select (λ q. not (q.workflow_id =ₛ id)) db.queue;
}

-- `DeleteWorkflow`: the rows that name the workflow go with it on a connection that enforces foreign
-- keys, and stay on another.
unfoldable pub delete_workflow : String → Op Unit
delete_workflow id db =
    let left : Db = record db { workflows = select (λ w. not (w.id =ₛ id)) db.workflows } in
    (if db.foreign_keys then cascade id left else left, ok tt)

-- `GetWorkflow`.
unfoldable pub get_workflow : Db → String → Option Workflow
get_workflow db id = find (λ w. w.id =ₛ id) db.workflows

-- `GetWorkflowByNameVersion`.
unfoldable pub get_by_name_version : Db → String → String → Option Workflow
get_by_name_version db name version =
    find (λ w. w.name =ₛ name && w.version =ₛ version) db.workflows

-- `SetWorkflowStatus` at the time `now`.
unfoldable pub set_workflow_status : ℕ → String → String → Op Unit
set_workflow_status now id status db = (
  record db {
    workflows =
        update (λ w. w.id =ₛ id) (λ w. record w { status = status; updated_at = now }) db.workflows;
  },
  ok tt,
)

-- `ORDER BY name, version, id`.
abbrev pub by_name : Workflow → Workflow → Bool
by_name a b =
    text_lt a.name b.name
    || (a.name =ₛ b.name
        && (text_lt a.version b.version || (a.version =ₛ b.version && text_lt a.id b.id)))

-- `ListWorkflows`.
unfoldable pub list_workflows : Db → List Workflow
unfolding sort_by
list_workflows db = sort_by by_name db.workflows

-- `ListActiveWorkflows`.
unfoldable pub list_active_workflows : Db → List Workflow
unfolding sort_by
list_active_workflows db = sort_by by_name (select (λ w. w.status =ₛ status_active) db.workflows)

-- `CountActiveWorkflows`.
unfoldable pub count_active_workflows : Db → ℕ
count_active_workflows db = length (select (λ w. w.status =ₛ status_active) db.workflows)
