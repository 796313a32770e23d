-- ===== src/Executor.antt =====
-- internal/executor/executor.go: `Run` on the nodes of internal/dag/dag.go. The runtime of
-- internal/lua is an interface, over any type of its states; a reference is its name.
pub mod Run
pub mod Counts
use lumn.Base.{
  ℕ, zero, suc, String, Bool, true, false, not, ◌&&◌, Option, none, some, List, [], ◌∷◌, ◌++◌, ◌==◌,
  ◌=ₛ◌, Result, ok, err, if◌then◌else◌, length,
}
use lumn.Errkind.{
  ExitCode, runtime_code, unknown_primitive_code, type_runtime, Info, GoError, typed, to_error,
  with_context,
}
use lumn.Report.{Report}
use lumn.Value.{Fields, end, field, text, get_field, set_field}

-- `dag.Node`.
pub record Node : Type 0 where
  pub kind : String
  pub position : ℕ
  pub ref : String
  pub fn_ref : String
  pub on_data_ref : String
  pub callable_ref : String
  pub callable_name : String

-- What `Run` calls of `luaenv.Runtime`, on the states `S`. `start` makes the table of the run's state
-- and puts the data of the trigger into it; the callables get that table.
pub record Lua (S : Type 0) : Type 0 where
  pub start : Fields → S → S × Option GoError
  -- the verb `%q` of package fmt
  pub quote : String → String
  pub call_callable : String → String → S → S × Result GoError String
  pub call_function : String → String → S → S × Result GoError (List String)
  pub clone_ref : String → S → S × Result GoError String
  pub delete_ref : String → S → S
  pub is_nil : S → String → Bool
  -- the Boolean that a reference stands for, if it stands for one
  pub as_boolean : S → String → Option Bool
  -- the length of a table that is a pure array
  pub array_length : S → String → Option ℕ
  pub array_value_ref : String → ℕ → S → S × String

-- `normalizeTriggerData`.
unfoldable pub normalize_trigger_data : Fields → Fields
unfolding get_field set_field
normalize_trigger_data end = field "type" (text "none") end
normalize_trigger_data (field k v rest) = elim (get_field (field k v rest) "type") [
  | none ↦ set_field "type" (text "none") (field k v rest)
  | some kind ↦ field k v rest
]

-- An error with the context of a node.
abbrev pub at_node : GoError → Node → String → GoError
at_node e node callable = to_error (with_context e node.kind node.position callable)

abbrev pub node_error : ExitCode → String → String → Node → String → GoError
node_error code kind message node callable = typed (record {
  code = code;
  kind = kind;
  message = message;
  primitive = node.kind;
  position = node.position;
  callable = callable;
})

abbrev pub run_error : String → Node → String → GoError
run_error message node callable = node_error runtime_code type_runtime message node callable

module _ {S : Type 0} (lua : Lua S) where
  -- `deleteRefs` and `deleteItemRefs`.
  unfoldable pub delete_refs : List String → S → S
  delete_refs [] s = s
  delete_refs (r ∷ rest) s = delete_refs rest (if r =ₛ "" then s else lua.delete_ref r s)

  -- `callResultToItem`.
  unfoldable pub call_result_to_item : Node → String → S → S × Result GoError String
  unfolding delete_refs
  call_result_to_item node result s =
      if node.on_data_ref =ₛ ""
      then (s, ok result)
      else let (called, refs) = lua.call_function node.on_data_ref result s in
        let s' = lua.delete_ref result called in
        elim refs [
          | err e ↦ (s', err (at_node e node node.callable_name))
          | ok [] ↦
              (s', err (run_error "call on_data must return item, got nil" node node.callable_name))
          | ok (r ∷ []) ↦
              if lua.is_nil s' r
              then (
                delete_refs (r ∷ []) s',
                err (run_error "call on_data must return item, got nil" node node.callable_name),
              )
              else (s', ok r)
          | ok (r ∷ q ∷ rest) ↦ (
            delete_refs (r ∷ q ∷ rest) s',
            err (run_error "call on_data must return item, got nil" node node.callable_name),
          )
        ]

  -- The loop of `buildCallItems` over `n` elements from the index `i`, with the items so far.
  unfoldable pub collect_items :
      Node → String → List String → ℕ → ℕ → S → S × Result GoError (List String)
  unfolding call_result_to_item
  collect_items node source items i zero s = (s, ok items)
  collect_items node source items i (suc n) s =
      let (read, element) = lua.array_value_ref source i s in
      let (s', item) = call_result_to_item node element read in
      elim item [
        | err e ↦ (delete_refs items s', err e)
        | ok r ↦ collect_items node source (items ++ r ∷ []) (suc i) n s'
      ]

  -- `buildCallItems`.
  unfoldable pub build_call_items : Node → String → S → S × Result GoError (List String)
  unfolding collect_items call_result_to_item
  build_call_items node source s = elim (lua.array_length s source) [
    | some n ↦
        let (s', items) = collect_items node source [] 1 n s in (lua.delete_ref source s', items)
    | none ↦
        let (s', item) = call_result_to_item node source s in
        elim item [ err e ↦ (s', err e) | ok r ↦ (s', ok (r ∷ [])) ]
  ]

  -- One round of the loop of `set`.
  unfoldable pub set_one : Node → String → S → S × Result GoError String
  unfolding delete_refs
  set_one node item s =
      let (s', refs) = lua.call_function node.fn_ref item s in
      elim refs [
        | err e ↦ (s', err (at_node e node ""))
        | ok [] ↦ (s', err (run_error "set.to must return item, got nil" node ""))
        | ok (r ∷ []) ↦
            if lua.is_nil s' r
            then (
              delete_refs (r ∷ []) s',
              err (run_error "set.to must return item, got nil" node ""),
            )
            else (lua.delete_ref item s', ok r)
        | ok (r ∷ q ∷ rest) ↦ (
          delete_refs (r ∷ q ∷ rest) s',
          err (run_error "set.to must return item, got nil" node ""),
        )
      ]

  unfoldable pub set_items : Node → List String → S → S × Result GoError (List String)
  unfolding set_one
  set_items node [] s = (s, ok [])
  set_items node (item ∷ rest) s =
      let (s1, first) = set_one node item s in
      elim first [
        | err e ↦ (s1, err e)
        | ok r ↦
            let (s2, others) = set_items node rest s1 in
            elim others [ err e ↦ (s2, err e) | ok rs ↦ (s2, ok (r ∷ rs)) ]
      ]

  -- One round of the loop of `filter`: whether the item stays.
  unfoldable pub filter_one : Node → String → S → S × Result GoError Bool
  unfolding delete_refs
  filter_one node item s =
      let (s', refs) = lua.call_function node.fn_ref item s in
      elim refs [
        | err e ↦ (s', err (at_node e node ""))
        | ok [] ↦ (s', err (run_error "filter.condition must return a boolean" node ""))
        | ok (r ∷ []) ↦ elim (lua.as_boolean s' r) [
          | none ↦ (
            lua.delete_ref r s',
            err (run_error "filter.condition must return a boolean" node ""),
          )
          | some true ↦ (lua.delete_ref r s', ok true)
          | some false ↦ (lua.delete_ref item (lua.delete_ref r s'), ok false)
        ]
        | ok (r ∷ q ∷ rest) ↦ (
          delete_refs (r ∷ q ∷ rest) s',
          err (run_error "filter.condition must return a boolean" node ""),
        )
      ]

  unfoldable pub filter_items : Node → List String → S → S × Result GoError (List String)
  unfolding filter_one
  filter_items node [] s = (s, ok [])
  filter_items node (item ∷ rest) s =
      let (s1, verdict) = filter_one node item s in
      elim verdict [
        | err e ↦ (s1, err e)
        | ok keep ↦
            let (s2, others) = filter_items node rest s1 in
            elim others [ err e ↦ (s2, err e) | ok rs ↦ (s2, ok (if keep then item ∷ rs else rs)) ]
      ]

  -- One round of the loop of `tap`; the error is there if the call has failed.
  unfoldable pub tap_items : Node → List String → S → S × Option GoError
  tap_items node [] s = (s, none)
  tap_items node (item ∷ rest) s =
      let (s1, cloned) = lua.clone_ref item s in
      elim cloned [
        | err e ↦ (s1, some (at_node e node node.callable_name))
        | ok copy ↦
            let (s2, called) = lua.call_callable node.callable_ref copy s1 in
            let s3 = lua.delete_ref copy s2 in
            elim called [
              | err e ↦ (s3, some (at_node e node node.callable_name))
              | ok r ↦ tap_items node rest (lua.delete_ref r s3)
            ]
      ]
