-- ===== src/Dag.antt =====
-- internal/dag/dag.go: `Build`, which reads the nodes of a workflow's table and checks them, and
-- pkg/primitive/primitive.go.
pub mod Typed
pub mod Bind
pub mod Built
use Prim.Native.String.{◌++◌}
use lumn.Base.{
  ℕ, zero, suc, String, Bool, true, false, not, ◌||◌, Option, none, some, List, [], ◌∷◌, ◌=ₛ◌,
  Result, ok, err, if◌then◌else◌,
}
use lumn.Errkind.{
  structure_code, unknown_primitive_code, invalid_signature_code, callable_not_found_code, GoError,
  new_error,
}
use lumn.Executor.{Node, node_error}
use lumn.Lua.{
  Vm, Refs, is_table, is_function, push_ref, table_ref_field_ref, array_value_ref, table_len,
  table_string_field_ref, table_kind_ref, has_boolean_field, or_empty,
}

-- `Kind.Valid`.
unfoldable pub is_valid : String → Bool
is_valid kind = kind =ₛ "call" || (kind =ₛ "set" || (kind =ₛ "filter" || kind =ₛ "tap"))

-- A node of which only the kind, the position and the reference are set.
abbrev pub new_node : String → ℕ → String → Node
new_node kind position ref = record {
  kind = kind;
  position = position;
  ref = ref;
  fn_ref = "";
  on_data_ref = "";
  callable_ref = "";
  callable_name = "";
}

abbrev pub signature_error : String → Node → String → GoError
signature_error message node callable =
    node_error invalid_signature_code "invalid_signature" message node callable

abbrev pub unknown_error : Vm → Node → GoError
unknown_error vm node =
    node_error unknown_primitive_code "unknown_primitive"
      ("unknown primitive " ++ vm.quote node.kind ++ " in flow") node ""

abbrev pub flow_error : GoError
flow_error = new_error structure_code "structure" "workflow field \"flow\" must be a table"

module _ (vm : Vm) where
  -- `bindCallable` from its second test on, with the reference of the callable.
  unfoldable pub check_callable : Node → String → String → Refs → Result GoError Node
  unfolding has_boolean_field table_string_field_ref push_ref
  check_callable node name_of_field ref r =
      let name = or_empty (table_string_field_ref vm ref "name" r) in
      if has_boolean_field vm ref "__lumn_missing_symbol" r
      then err (
          node_error callable_not_found_code "callable_not_found"
            ("callable " ++ vm.quote name ++ " could not be resolved") node name)
      else if not (is_table (push_ref r ref))
      then err (
          signature_error
            (node.kind ++ " expects a callable table in field " ++ vm.quote name_of_field) node "")
      else if name =ₛ ""
      then err (signature_error "callable must define a non-empty name" node "")
      else if is_function (vm.field_of (push_ref r ref) "run")
      then ok (record node { callable_ref = ref; callable_name = name })
      else err (signature_error "callable must define a run function" node name)

  -- `bindCallable`.
  unfoldable pub bind_callable : Node → String → Refs → Refs × Result GoError Node
  unfolding table_ref_field_ref check_callable
  bind_callable node name_of_field r =
      let (r', found) = table_ref_field_ref vm node.ref name_of_field r in
      elim found [
        | none ↦ (
          r',
          err (
              signature_error
                (node.kind ++ " expects a callable in field " ++ vm.quote name_of_field) node ""),
        )
        | some ref ↦ (r', check_callable node name_of_field ref r')
      ]

  -- The field `on_data` of a `call`.
  unfoldable pub bind_on_data : Node → Refs → Refs × Result GoError Node
  unfolding table_ref_field_ref push_ref
  bind_on_data node r =
      let (r', found) = table_ref_field_ref vm node.ref "on_data" r in
      elim found [
        | none ↦ (r', ok node)
        | some ref ↦
            if is_function (push_ref r' ref)
            then (r', ok (record node { on_data_ref = ref }))
            else (r', err (signature_error "call expects a function in field \"on_data\"" node ""))
      ]

  -- The function of a `set` or a `filter`.
  unfoldable pub bind_function : Node → String → String → Refs → Refs × Result GoError Node
  unfolding table_ref_field_ref push_ref
  bind_function node name_of_field message r =
      let (r', found) = table_ref_field_ref vm node.ref name_of_field r in
      elim found [
        | none ↦ (r', err (signature_error message node ""))
        | some ref ↦
            if is_function (push_ref r' ref)
            then (r', ok (record node { fn_ref = ref }))
            else (r', err (signature_error message node ""))
      ]

  -- The `switch` on the kind.
  unfoldable pub bind_fields : Node → Refs → Refs × Result GoError Node
  unfolding bind_callable bind_on_data bind_function
  bind_fields node r =
      if node.kind =ₛ "call"
      then (let (r', bound) = bind_callable node "exec" r in
          elim bound [ err e ↦ (r', err e) | ok with_callable ↦ bind_on_data with_callable r' ])
      else if node.kind =ₛ "tap"
      then bind_callable node "exec" r
      else if node.kind =ₛ "set"
      then bind_function node "to" "set expects a function in field \"to\"" r
      else bind_function node "condition" "filter expects a function in field \"condition\"" r

  -- One round of the loop of `Build`, after the reference of the node has been stored.
  unfoldable pub build_node : String → ℕ → Refs → Refs × Result GoError Node
  unfolding has_boolean_field table_string_field_ref table_kind_ref is_valid bind_fields
  build_node ref position r =
      if has_boolean_field vm ref "__lumn_unknown_primitive" r
      then (
        r,
        err (
            unknown_error vm
              (new_node (or_empty (table_string_field_ref vm ref "name" r)) position ref)),
      )
      else elim (table_kind_ref vm ref r) [
        | none ↦ (
          r,
          err (
              node_error structure_code "structure"
                ("flow position " ++ vm.decimal position ++ " must be a primitive node")
                (new_node "" position ref) ""),
        )
        | some kind ↦
            if is_valid kind
            then bind_fields (new_node kind position ref) r
            else (r, err (unknown_error vm (new_node kind position ref)))
      ]

  -- The loop over the `n` elements of the flow from an index on.
  unfoldable pub build_nodes : String → ℕ → ℕ → Refs → Refs × Result GoError (List Node)
  unfolding array_value_ref build_node
  build_nodes flow idx zero r = (r, ok [])
  build_nodes flow idx (suc n) r =
      let (r1, ref) = array_value_ref vm flow idx r in
      let (r2, built) = build_node ref idx r1 in
      elim built [
        | err e ↦ (r2, err e)
        | ok node ↦
            let (r3, others) = build_nodes flow (suc idx) n r2 in
            elim others [ err e ↦ (r3, err e) | ok nodes ↦ (r3, ok (node ∷ nodes)) ]
      ]

  -- `Build`.
  unfoldable pub build : String → Refs → Refs × Result GoError (List Node)
  unfolding table_ref_field_ref push_ref table_len build_nodes
  build workflow r =
      let (r', found) = table_ref_field_ref vm workflow "flow" r in
      elim found [
        | none ↦ (r', err flow_error)
        | some flow ↦
            if is_table (push_ref r' flow)
            then build_nodes flow 1 (table_len vm flow r') r'
            else (r', err flow_error)
      ]
