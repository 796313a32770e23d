-- ===== src/Tests/Run.antt =====
-- executor.go: a workflow of three nodes on a runtime that counts the references it has deleted.
use lumn.Base.{ℕ, suc, String, true, false, none, some, [], ◌∷◌, ◌=ₛ◌, ok, err, if◌then◌else◌}
use lumn.Errkind.{runtime_code, new_error}
use lumn.Value.{end, field, text}
use lumn.Executor.{Node, Lua}
use lumn.Executor.Run.{run_workflow}
use lumn.Executor.Counts.{Consistent, run_workflow-Consistent}

-- The callable gives an array of two; the function "keep" is true of every item, and any other one
-- fails.
abbrev pub counting : Lua ℕ
counting = record {
  start = λ trigger_data s. (s, none);
  quote = λ s. s;
  call_callable = λ callable item s. (s, ok "rows");
  call_function = λ f item s. (
    s,
    if f =ₛ "keep"
        then ok ("true" ∷ [])
        else err (new_error runtime_code "runtime" "no such function"),
  );
  clone_ref = λ r s. (s, ok r);
  delete_ref = λ r s. suc s;
  is_nil = λ s r. false;
  as_boolean = λ s r. if r =ₛ "true" then some true else none;
  array_length = λ s r. if r =ₛ "rows" then some 2 else none;
  array_value_ref = λ r i s. (s, "row");
}

abbrev node : String → ℕ → Node
node kind position = record {
  kind = kind;
  position = position;
  ref = "node";
  fn_ref = "keep";
  on_data_ref = "";
  callable_ref = "load";
  callable_name = "load";
}

run_workflow-Consistent_example : Consistent counting (node "call" 1 ∷ node "filter" 2 ∷ []) (
    run_workflow counting
      (node "call" 1 ∷ node "filter" 2 ∷ [])
      (field "type" (text "manual") end)
      0)
run_workflow-Consistent_example =
    run_workflow-Consistent counting (node "call" 1 ∷ node "filter" 2 ∷ [])
      (field "type" (text "manual") end) 0
