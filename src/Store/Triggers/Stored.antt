-- ===== src/Store/Triggers/Stored.antt =====
-- store.go: `ReplaceWorkflowTriggers` returns as many triggers as it is given.
use lumn.Base.{
  ℕ, suc, String, ◌≡◌, sym, ap, ◌∙◌, inl, inr, List, [], ◌∷◌, ◌=ₛ◌, ok, length, select, not,
  Result-cases,
}
use lumn.Store.{Codec, Db, Trigger}
use lumn.Store.Triggers.{create_trigger, create_triggers, replace_workflow_triggers}

module _ {Doc : Type 0} (json : Codec Doc) (now : ℕ) (workflow_id : String) where
  length-create_triggers :
      (ts : List (Trigger Doc)) (db db' : Db) (stored : List (Trigger Doc))
      → create_triggers json now workflow_id ts db ≡ ok (db', stored)
      → length stored ≡ length ts
  unfolding create_triggers
  length-create_triggers [] db db' stored e = let same : [] ≡ stored = cc e in sym (ap length same)
  length-create_triggers (t ∷ ts) db db' stored e =
      elim (Result-cases (create_trigger json now workflow_id t db)) [
        | inr (x, bad) ↦ let k = rw (bad, create_triggers) at e in cc
        | inl ((db1, item), good) ↦
            elim (Result-cases (create_triggers json now workflow_id ts db1)) [
              | inr (x, bad) ↦ let k = rw (good, bad, create_triggers) at e in cc
              | inl ((db2, items), rest) ↦
                  let k = rw (good, rest, create_triggers) at e in
                  let same : item ∷ items ≡ stored = cc k in
                  sym (ap length same) ∙ ap suc (length-create_triggers ts db1 db2 items rest)
            ]
      ]

  pub length-replace_workflow_triggers :
      (ts : List (Trigger Doc)) (db : Db) (stored : List (Trigger Doc))
      → (replace_workflow_triggers json now workflow_id ts db).1 ≡ ok stored
      → length stored ≡ length ts
  unfolding replace_workflow_triggers
  length-replace_workflow_triggers ts db stored e =
      let cleared : Db = record db {
        triggers = select (λ t. not (t.workflow_id =ₛ workflow_id)) db.triggers;
      } in
      elim (Result-cases (create_triggers json now workflow_id ts cleared)) [
        | inr (x, bad) ↦ let k = rw (bad, replace_workflow_triggers) at e in cc
        | inl ((db', items), good) ↦
            let k = rw (good, replace_workflow_triggers) at e in
            let same : items ≡ stored = cc k in
            sym (ap length same) ∙ length-create_triggers ts cleared db' items good
      ]
