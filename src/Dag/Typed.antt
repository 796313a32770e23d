-- ===== src/Dag/Typed.antt =====
-- dag.go: what the nodes that `Build` returns are like.
use lumn.Base.{
  ℕ, suc, String, ◌≡◌, sym, inl, inr, ◌⊎◌, refl, Bool, true, false, not, ◌&&◌, ◌||◌, some, List, [],
  ◌∷◌, ◌=ₛ◌, Result, ok, err, if◌then◌else◌, Bool-cases, arith,
}
use lumn.Errkind.{GoError, exit_status}
use lumn.Executor.{Node}
use lumn.Lua.{
  LuaValue, Vm, Refs, is_nil, is_table, is_function, push_ref, store_ref, table_ref_field_ref,
  array_value_ref, table_len, table_string_field_ref, table_kind_ref, has_boolean_field, or_empty,
}
use lumn.Lua.Keys.{Fresh, Keeps, Keeps-refl, store_ref-Fresh, store_ref-Keeps}
use lumn.Dag.{check_callable}

-- Nodes at the positions from `idx` on.
abbrev pub Placed : ℕ → List Node → Type 0
Placed idx [] = Unit
Placed idx (node ∷ nodes) = (node.position ≡ idx) × Placed (suc idx) nodes

-- The exit status is one of those of a workflow that cannot be built: 3 for its structure, 4 for an
-- unknown primitive, 5 for a signature that is not valid, 9 for a callable that cannot be found.
abbrev pub IsFault : GoError → Type 0
IsFault e =
    (exit_status (some e) ≡ 3)
    ⊎ (exit_status (some e) ≡ 4)
    ⊎ (exit_status (some e) ≡ 5)
    ⊎ (exit_status (some e) ≡ 9)

-- A node as it should be, or an error that says what is wrong with the workflow.
abbrev pub Sound : (Node → Type 0) → Result GoError Node → Type 0
Sound P (ok node) = P node
Sound P (err e) = IsFault e

-- `b` makes `c` true.
abbrev Implies : Bool → Bool → Type 0
Implies b c = b ≡ true → c ≡ true

and_mono : (a b c d : Bool) → Implies a b → Implies c d → Implies (a && c) (b && d)
and_mono a b c d f g h = ground arith

or_mono : (a b c : Bool) → Implies b c → Implies (a || b) (a || c)
or_mono a b c f h = ground arith

if_mono :
    (t a b c d : Bool)
    → Implies a b
    → Implies c d
    → Implies (if t then a else c) (if t then b else d)
if_mono true a b c d f g h = f h
if_mono false a b c d f g h = g h

module _ (vm : Vm) where
  -- The callable of a node is a table with a function `run`, and it has a name.
  unfoldable pub callable_typed : Refs → Node → Bool
  callable_typed r node =
      is_table (push_ref r node.callable_ref)
      && (not (node.callable_name =ₛ "")
          && is_function (vm.field_of (push_ref r node.callable_ref) "run"))

  -- The kind of a node is a primitive, and what that primitive calls can be called.
  unfoldable pub typed_node : Refs → Node → Bool
  unfolding callable_typed
  typed_node r node =
      if node.kind =ₛ "call"
      then callable_typed r node
        && (node.on_data_ref =ₛ "" || is_function (push_ref r node.on_data_ref))
      else if node.kind =ₛ "tap"
      then callable_typed r node
      else (node.kind =ₛ "set" || node.kind =ₛ "filter") && is_function (push_ref r node.fn_ref)

  function_value : (v : LuaValue) → is_function v ≡ true → is_nil v ≡ false
  function_value lumn.Lua.lua_nil h = sym h
  function_value _ h = refl

  table_value : (v : LuaValue) → is_table v ≡ true → is_nil v ≡ false
  table_value lumn.Lua.lua_nil h = sym h
  table_value _ h = refl

  -- The callable is bound, and nothing else of the node has changed.
  abbrev pub Callable : Refs → Node → Node → Type 0
  Callable r node bound =
      (callable_typed r bound ≡ true)
      × (bound.kind ≡ node.kind)
      × (bound.position ≡ node.position)
      × (bound.on_data_ref ≡ node.on_data_ref)

  pub check_callable-Sound :
      (node : Node) (name_of_field ref : String) (r : Refs)
      → Sound (Callable r node) (check_callable vm node name_of_field ref r)
  unfolding check_callable callable_typed exit_status
  check_callable-Sound node name_of_field ref r =
      elim (Bool-cases (has_boolean_field vm ref "__lumn_missing_symbol" r)) [
        | inl missing ↦ rw missing (inr (inr (inr refl)))
        | inr bound ↦ elim (Bool-cases (is_table (push_ref r ref))) [
          | inr other ↦ rw (bound, other) (inr (inr (inl refl)))
          | inl table ↦
              elim (Bool-cases (or_empty (table_string_field_ref vm ref "name" r) =ₛ "")) [
                | inl unnamed ↦ rw (bound, table, unnamed) (inr (inr (inl refl)))
                | inr named ↦ elim (Bool-cases (is_function (vm.field_of (push_ref r ref) "run"))) [
                  | inr none_there ↦ rw (bound, table, named, none_there) (inr (inr (inl refl)))
                  | inl runs ↦
                      rw (bound, table, named, runs)
                        (rw (table, named, runs, callable_typed) refl, refl, refl, refl)
                ]
              ]
        ]
      ]

  pub callable_typed-Keeps :
      (r r' : Refs) (node : Node)
      → Keeps r r'
      → callable_typed r node ≡ true
      → callable_typed r' node ≡ true
  unfolding callable_typed
  callable_typed-Keeps r r' node keeps h =
      elim (Bool-cases (is_table (push_ref r node.callable_ref))) [
        | inl table ↦
            rw (keeps node.callable_ref (table_value (push_ref r node.callable_ref) table)) h
        | inr other ↦ let k = rw other at h in cc
      ]

  function-Keeps :
      (r r' : Refs) (ref : String)
      → Keeps r r'
      → is_function (push_ref r ref) ≡ true
      → is_function (push_ref r' ref) ≡ true
  function-Keeps r r' ref keeps h = rw (keeps ref (function_value (push_ref r ref) h)) h

  -- A node stays as it should be while references are added.
  pub typed_node-Keeps :
      (r r' : Refs) (node : Node)
      → Keeps r r'
      → typed_node r node ≡ true
      → typed_node r' node ≡ true
  unfolding typed_node
  typed_node-Keeps r r' node keeps h =
      let callable = callable_typed-Keeps r r' node keeps in
      let fn = function-Keeps r r' node.fn_ref keeps in
      let on_data = function-Keeps r r' node.on_data_ref keeps in
      if_mono (node.kind =ₛ "call")
        (callable_typed r node
          && (node.on_data_ref =ₛ "" || is_function (push_ref r node.on_data_ref)))
        (callable_typed r' node
          && (node.on_data_ref =ₛ "" || is_function (push_ref r' node.on_data_ref)))
        _ _ (and_mono _ _ _ _ callable (or_mono _ _ _ on_data))
        (if_mono (node.kind =ₛ "tap") _ _ _ _ callable (and_mono _ _ _ _ (λ k. k) fn)) h

-- The references of `r` are kept, and the next keys are free.
abbrev pub Grows : Vm → Refs → Refs → Type 0
Grows vm r r' = Fresh vm r' × Keeps r r'

module _ (vm : Vm) (decimal_injective : (a b : ℕ) → vm.decimal a ≡ vm.decimal b → a ≡ b) where
  pub table_ref_field_ref-Grows :
      (ref name_of_field : String) (r : Refs)
      → Fresh vm r
      → Grows vm r (table_ref_field_ref vm ref name_of_field r).0
  unfolding table_ref_field_ref
  table_ref_field_ref-Grows ref name_of_field r fresh =
      let v = vm.field_of (push_ref r ref) name_of_field in
      elim (Bool-cases (is_nil v)) [
        | inl absent ↦ rw absent (fresh, Keeps-refl r)
        | inr there ↦ rw there (
          store_ref-Fresh vm decimal_injective v r fresh,
          store_ref-Keeps vm decimal_injective v r fresh,
        )
      ]
