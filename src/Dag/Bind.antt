-- ===== src/Dag/Bind.antt =====
-- dag.go: what `bindCallable` and the cases of the `switch` make of a node.
use lumn.Base.{
  ℕ, String, ◌≡◌, refl, ap, ◌∙◌, inl, inr, Bool, true, false, ◌||◌, ◌=ₛ◌, Result, ok, err,
  Bool-cases, Option-cases, Result-cases, arith,
}
use lumn.Errkind.{GoError, exit_status}
use lumn.Executor.{Node}
use lumn.Lua.{Vm, Refs, is_function, push_ref, table_ref_field_ref}
use lumn.Lua.Keys.{Fresh, Keeps-trans}
use lumn.Dag.{is_valid, bind_callable, bind_on_data, bind_function, bind_fields}
use lumn.Dag.Typed.{
  callable_typed, typed_node, Sound, Callable, check_callable-Sound, callable_typed-Keeps, Grows,
  table_ref_field_ref-Grows,
}

-- The node is as it should be, and it has kept its kind and its position.
abbrev pub Bound : Vm → Refs → Node → Node → Type 0
Bound vm r node bound =
    (typed_node vm r bound ≡ true) × (bound.kind ≡ node.kind) × (bound.position ≡ node.position)

module _ (vm : Vm) (decimal_injective : (a b : ℕ) → vm.decimal a ≡ vm.decimal b → a ≡ b) where
  bind_callable-Sound :
      (node : Node) (name_of_field : String) (r : Refs)
      → Fresh vm r
      → Grows vm r (bind_callable vm node name_of_field r).0
        × Sound
            (Callable vm (bind_callable vm node name_of_field r).0 node)
            (bind_callable vm node name_of_field r).1
  unfolding bind_callable exit_status
  bind_callable-Sound node name_of_field r fresh =
      let grows = table_ref_field_ref-Grows vm decimal_injective node.ref name_of_field r fresh in
      elim (Option-cases (table_ref_field_ref vm node.ref name_of_field r).1) [
        | inl absent ↦ rw (absent, bind_callable) (grows, inr (inr (inl refl)))
        | inr (ref, there) ↦
            rw (there, bind_callable)
              (
                grows,
                check_callable-Sound vm node name_of_field ref
                    (table_ref_field_ref vm node.ref name_of_field r).0,
              )
      ]

  bind_on_data-Bound :
      (node : Node) (r : Refs)
      → Fresh vm r
      → (node.kind =ₛ "call") ≡ true
      → callable_typed vm r node ≡ true
      → node.on_data_ref ≡ ""
      → Grows vm r (bind_on_data vm node r).0
        × Sound (Bound vm (bind_on_data vm node r).0 node) (bind_on_data vm node r).1
  unfolding bind_on_data typed_node exit_status
  bind_on_data-Bound node r fresh is_call callable blank =
      let grows = table_ref_field_ref-Grows vm decimal_injective node.ref "on_data" r fresh in
      let found = table_ref_field_ref vm node.ref "on_data" r in
      let kept = callable_typed-Keeps vm r found.0 node grows.1 callable in
      elim (Option-cases found.1) [
        | inl absent ↦
            rw (absent, bind_on_data) (grows, (rw (is_call, kept, blank) refl, refl, refl))
        | inr (ref, there) ↦ elim (Bool-cases (is_function (push_ref found.0 ref))) [
          | inr other ↦ rw (there, other, bind_on_data) (grows, inr (inr (inl refl)))
          | inl fn ↦
              rw (there, fn, bind_on_data)
                (grows, (rw (is_call, kept, fn) (any (ref =ₛ "")), refl, refl))
        ]
      ]
    where
      any : (b : Bool) → (b || true) ≡ true
      any b = ground arith

  bind_function-Bound :
      (node : Node) (name_of_field message : String) (r : Refs)
      → Fresh vm r
      → (node.kind =ₛ "call") ≡ false
      → (node.kind =ₛ "tap") ≡ false
      → (node.kind =ₛ "set" || node.kind =ₛ "filter") ≡ true
      → Grows vm r (bind_function vm node name_of_field message r).0
        × Sound
            (Bound vm (bind_function vm node name_of_field message r).0 node)
            (bind_function vm node name_of_field message r).1
  unfolding bind_function typed_node exit_status
  bind_function-Bound node name_of_field message r fresh not_call not_tap kind =
      let grows = table_ref_field_ref-Grows vm decimal_injective node.ref name_of_field r fresh in
      let found = table_ref_field_ref vm node.ref name_of_field r in
      elim (Option-cases found.1) [
        | inl absent ↦ rw (absent, bind_function) (grows, inr (inr (inl refl)))
        | inr (ref, there) ↦ elim (Bool-cases (is_function (push_ref found.0 ref))) [
          | inr other ↦ rw (there, other, bind_function) (grows, inr (inr (inl refl)))
          | inl fn ↦
              rw (there, fn, bind_function)
                (grows, (rw (not_call, not_tap, kind, fn) refl, refl, refl))
        ]
      ]

  bind_call-Bound :
      (node : Node) (r : Refs)
      → Fresh vm r
      → (node.kind =ₛ "call") ≡ true
      → node.on_data_ref ≡ ""
      → Grows vm r (bind_fields vm node r).0
        × Sound (Bound vm (bind_fields vm node r).0 node) (bind_fields vm node r).1
  unfolding bind_fields
  bind_call-Bound node r fresh is_call blank =
      let bound = bind_callable vm node "exec" r in
      let (grows, sound) = bind_callable-Sound node "exec" r fresh in
      elim (Result-cases bound.1) [
        | inr (e, bad) ↦ rw (is_call, bad) (grows, rw bad at sound)
        | inl (with_callable, good) ↦
            let (callable, kind, position, on_data) = rw good at sound in
            let (grows', sound') =
              bind_on_data-Bound with_callable bound.0 grows.0
                (ap (λ k. k =ₛ "call") kind ∙ is_call) callable (on_data ∙ blank) in
            rw (is_call, good)
              (
                (
                  grows'.0,
                  Keeps-trans r bound.0 (bind_on_data vm with_callable bound.0).0 grows.1 grows'.1,
                ),
                renamed node with_callable (bind_on_data vm with_callable bound.0).0 kind position
                    (bind_on_data vm with_callable bound.0).1 sound',
              )
      ]
    where
      renamed :
          (node from : Node) (r : Refs)
          → from.kind ≡ node.kind
          → from.position ≡ node.position
          → (result : Result GoError Node) → Sound (Bound vm r from) result
          → Sound (Bound vm r node) result
      renamed node from r kind position (ok bound) (typed, k, p) = (typed, k ∙ kind, p ∙ position)
      renamed node from r kind position (err e) h = h

  -- The `switch` makes of a node of a valid kind one that `Run` can run, or fails.
  pub bind_fields-Bound :
      (node : Node) (r : Refs)
      → Fresh vm r
      → is_valid node.kind ≡ true
      → node.on_data_ref ≡ ""
      → Grows vm r (bind_fields vm node r).0
        × Sound (Bound vm (bind_fields vm node r).0 node) (bind_fields vm node r).1
  unfolding bind_fields is_valid typed_node
  bind_fields-Bound node r fresh valid blank = elim (Bool-cases (node.kind =ₛ "call")) [
    | inl is_call ↦ bind_call-Bound node r fresh is_call blank
    | inr not_call ↦ elim (Bool-cases (node.kind =ₛ "tap")) [
      | inl is_tap ↦
          let (grows, sound) = bind_callable-Sound node "exec" r fresh in
          rw (not_call, is_tap)
            (
              grows,
              as_tap (bind_callable vm node "exec" r).0 not_call is_tap
                  (bind_callable vm node "exec" r).1 sound,
            )
      | inr not_tap ↦ elim (Bool-cases (node.kind =ₛ "set")) [
        | inl is_set ↦
            rw (not_call, not_tap, is_set)
              (bind_function-Bound node "to" "set expects a function in field \"to\"" r fresh
                not_call not_tap (rw is_set refl))
        | inr not_set ↦
            rw (not_call, not_tap, not_set)
              (bind_function-Bound node "condition"
                "filter expects a function in field \"condition\"" r fresh not_call not_tap
                (only_filter (node.kind =ₛ "set") (node.kind =ₛ "filter")
                  (rw (not_call, not_tap) at valid)))
      ]
    ]
  ]
    where
      only_filter : (a b : Bool) → (a || (b || false)) ≡ true → (a || b) ≡ true
      only_filter a b h = ground arith

      as_tap :
          (r' : Refs)
          → (node.kind =ₛ "call") ≡ false
          → (node.kind =ₛ "tap") ≡ true
          → (result : Result GoError Node) → Sound (Callable vm r' node) result
          → Sound (Bound vm r' node) result
      as_tap r' not_call is_tap (ok bound) (callable, kind, position, on_data) =
          (rw (kind, not_call, is_tap) callable, kind, position)
      as_tap r' not_call is_tap (err e) h = h
