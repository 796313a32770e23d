-- ===== src/Store/Triggers.antt =====
-- store.go: the table `triggers` (sql/queries/triggers.sql).
pub mod Stored
use lumn.Base.{
  ℕ, suc, String, not, Option, none, some, List, [], ◌∷◌, ◌++◌, ◌==◌, ◌=ₛ◌, Result, ok, err,
  if◌then◌else◌, select, update, exists,
}
use lumn.Store.Workflows.{may_refer}
use lumn.Store.{
  Db, Op, Codec, StoreError, TriggerRow, Trigger, from_trigger_row, marshal_failed,
  foreign_key_violation,
}

module _ {Doc : Type 0} (json : Codec Doc) where
  -- `CreateTrigger` for one trigger of the list, inside the transaction.
  unfoldable pub create_trigger :
      ℕ → String → Trigger Doc → Db → Result StoreError (Db × Trigger Doc)
  create_trigger now workflow_id trigger db = elim (json.encode trigger.config) [
    | none ↦ err marshal_failed
    | some payload ↦
        let row : TriggerRow = record {
          id = suc db.trigger_seq;
          workflow_id = workflow_id;
          kind = trigger.kind;
          config = payload;
          next_run_at = trigger.next_run_at;
          status = trigger.status;
          created_at = now;
          updated_at = now;
        } in
        if may_refer db workflow_id
        then elim (from_trigger_row json row) [
          | ok item ↦
              ok (record db { triggers = db.triggers ++ row ∷ []; trigger_seq = row.id }, item)
          | err e ↦ err e
        ]
        else err foreign_key_violation
  ]

  unfoldable pub create_triggers :
      ℕ → String → List (Trigger Doc) → Db → Result StoreError (Db × List (Trigger Doc))
  unfolding create_trigger
  create_triggers now workflow_id [] db = ok (db, [])
  create_triggers now workflow_id (trigger ∷ rest) db =
      elim (create_trigger now workflow_id trigger db) [
        | err e ↦ err e
        | ok (db', item) ↦ elim (create_triggers now workflow_id rest db') [
          | err e ↦ err e
          | ok (final, items) ↦ ok (final, item ∷ items)
        ]
      ]

  -- `ReplaceWorkflowTriggers` at the time `now`: one transaction, so an error leaves no change.
  unfoldable pub replace_workflow_triggers :
      ℕ → String → List (Trigger Doc) → Op (List (Trigger Doc))
  unfolding create_triggers
  replace_workflow_triggers now workflow_id triggers db =
      let cleared : Db = record db {
        triggers = select (λ t. not (t.workflow_id =ₛ workflow_id)) db.triggers;
      } in
      elim (create_triggers now workflow_id triggers cleared) [
        | err e ↦ (db, err e)
        | ok (final, stored) ↦ (final, ok stored)
      ]

  -- The loop of `ListTriggers` over the rows, which stand in the order of their ids.
  from_trigger_rows : List TriggerRow → Result StoreError (List (Trigger Doc))
  from_trigger_rows [] = ok []
  from_trigger_rows (row ∷ rows) = elim (from_trigger_row json row) [
    | err e ↦ err e
    | ok item ↦ elim (from_trigger_rows rows) [ err e ↦ err e | ok items ↦ ok (item ∷ items) ]
  ]

  -- `ListTriggers`.
  unfoldable pub list_triggers : Db → String → Result StoreError (List (Trigger Doc))
  unfolding from_trigger_rows
  list_triggers db workflow_id =
      from_trigger_rows (select (λ t. t.workflow_id =ₛ workflow_id) db.triggers)

-- `SetTriggerRuntime` at the time `now`.
unfoldable pub set_trigger_runtime : ℕ → ℕ → String → Option ℕ → Op Unit
set_trigger_runtime now trigger_id status next_run_at db = (
  record db {
    triggers =
        update (λ t. t.id == trigger_id)
          (λ t. record t { status = status; next_run_at = next_run_at; updated_at = now })
          db.triggers;
  },
  ok tt,
)
