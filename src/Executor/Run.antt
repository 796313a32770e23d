-- ===== src/Executor/Run.antt =====
-- internal/executor/executor.go: the loop of `Run` over the nodes, and its report.
use Prim.Native.String.{◌++◌}
use lumn.Base.{
  ℕ, String, Bool, true, false, not, ◌&&◌, Option, none, some, List, [], ◌∷◌, ◌=ₛ◌, Result, ok, err,
  if◌then◌else◌, length,
}
use lumn.Errkind.{GoError, unknown_primitive_code}
use lumn.Report.{Report}
use lumn.Value.{Fields}
use lumn.Executor.{
  Node, Lua, at_node, node_error, normalize_trigger_data, delete_refs, build_call_items, set_items,
  filter_items, tap_items,
}

-- The items after a node, and `report.ItemsIn`.
abbrev pub Progress : Type 0
Progress = List String × ℕ

module _ {S : Type 0} (lua : Lua S) where
  -- The case of `call`.
  unfoldable pub run_call : Node → Progress → S → S × Result GoError Progress
  unfolding build_call_items delete_refs
  run_call node (items, items_in) s =
      let (s1, source) = lua.call_callable node.callable_ref "" s in
      elim source [
        | err e ↦ (s1, err (at_node e node node.callable_name))
        | ok r ↦
            let (s2, built) = build_call_items lua node r s1 in
            elim built [
              | err e ↦ (s2, err e)
              | ok rs ↦ (delete_refs lua items s2, ok (rs, length rs))
            ]
      ]

  -- The case of `tap`, which is called once without an item where there is none.
  unfoldable pub run_tap : Node → Progress → S → S × Result GoError Progress
  unfolding tap_items
  run_tap node ([], items_in) s =
      let (s1, called) = lua.call_callable node.callable_ref "" s in
      elim called [
        | err e ↦ (s1, err (at_node e node node.callable_name))
        | ok r ↦ (lua.delete_ref r s1, ok ([], items_in))
      ]
  run_tap node (item ∷ rest, items_in) s =
      let (s1, failure) = tap_items lua node (item ∷ rest) s in
      elim failure [ some e ↦ (s1, err e) | none ↦ (s1, ok (item ∷ rest, items_in)) ]

  -- The items that a `set` or a `filter` leaves, beside the count that stays.
  abbrev pub kept_count : ℕ → S × Result GoError (List String) → S × Result GoError Progress
  kept_count items_in (s, err e) = (s, err e)
  kept_count items_in (s, ok items) = (s, ok (items, items_in))

  -- One round of the loop of `Run`.
  unfoldable pub run_node : Node → Progress → S → S × Result GoError Progress
  unfolding run_call run_tap set_items filter_items
  run_node node progress s =
      if node.kind =ₛ "call"
      then run_call node progress s
      else if node.kind =ₛ "set"
      then kept_count progress.1 (set_items lua node progress.0 s)
      else if node.kind =ₛ "filter"
      then kept_count progress.1 (filter_items lua node progress.0 s)
      else if node.kind =ₛ "tap"
      then run_tap node progress s
      else (
        s,
        err (
            node_error unknown_primitive_code "unknown_primitive"
              ("unknown primitive " ++ lua.quote node.kind) node ""),
      )

  -- The loop: the first error ends it, and the progress up to the node that fails stays.
  unfoldable pub run_nodes : List Node → Progress → S → S × Progress × Option GoError
  unfolding run_node
  run_nodes [] progress s = (s, progress, none)
  run_nodes (node ∷ rest) progress s =
      let (s', result) = run_node node progress s in
      elim result [ err e ↦ (s', progress, some e) | ok next ↦ run_nodes rest next s' ]

  abbrev pub is_empty : {A : Type 0} → List A → Bool
  is_empty [] = true
  is_empty (x ∷ xs) = false

  abbrev pub report_of : List Node → Progress → Report
  report_of nodes (items, items_in) = record {
    workflow = "";
    version = "";
    status = if not (is_empty nodes) && is_empty items then "empty" else "ok";
    items_in = items_in;
    items_out = length items;
    errors = [];
    duration_ms = 0;
  }

  -- The report beside an error: the count of items in is the one of the last `call` that succeeded.
  abbrev pub partial_report : ℕ → Report
  partial_report items_in = report_of [] ([], items_in)

  -- `Run`.
  unfoldable pub run_workflow : List Node → Fields → S → S × Report × Option GoError
  unfolding normalize_trigger_data run_nodes
  run_workflow nodes trigger_data s =
      let (s1, failure) = lua.start (normalize_trigger_data trigger_data) s in
      elim failure [
        | some e ↦ (s1, partial_report 0, some e)
        | none ↦
            let (s2, progress, ended) = run_nodes nodes ([], 0) s1 in
            elim ended [
              | some e ↦ (s2, partial_report progress.1, some e)
              | none ↦ (s2, report_of nodes progress, none)
            ]
      ]
