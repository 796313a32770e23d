-- ===== src/Dag/Built.antt =====
-- dag.go: `Build` returns only nodes that `Run` can run.
use lumn.Base.{
  Bool, false, some, Option, ap, ◌∙◌, =ₛ_refl, ℕ, zero, suc, String, ◌≡◌, refl, inl, inr, true,
  List, Result, ok, err, Bool-cases, Option-cases, Result-cases, All,
}
use lumn.Errkind.{GoError, exit_status, new_error}
use lumn.Executor.{Node}
use lumn.Lua.{
  LuaValue, lua_nil, lua_table, is_nil, store_ref, ref_key, look_up, Vm, Refs, is_table, push_ref,
  table_ref_field_ref, array_value_ref, table_len, table_kind_ref, has_boolean_field,
}
use lumn.Lua.Keys.{Fresh, Keeps-refl, Keeps-trans, store_ref-Fresh, store_ref-Keeps}
use lumn.Dag.{is_valid, new_node, build_node, build_nodes, build, bind_fields}
use lumn.Dag.Typed.{typed_node, typed_node-Keeps, Sound, IsFault, Placed, Grows}
use lumn.Dag.Bind.{Bound, bind_fields-Bound}

-- Nodes at the positions from `idx` on that can be run, or the error of a workflow that cannot be
-- loaded.
abbrev pub Loaded : Vm → ℕ → Refs → Result GoError (List Node) → Type 0
Loaded vm idx r (ok nodes) = All (λ node. typed_node vm r node ≡ true) nodes × Placed idx nodes
Loaded vm idx r (err e) = IsFault e

abbrev pub Built : Vm → ℕ → Refs × Result GoError (List Node) → Type 0
Built vm idx out = Loaded vm idx out.0 out.1

-- What comes of a workflow, by whether its field `flow` is a table: without one it has an error of its
-- structure.
abbrev pub Outcome : Bool → Vm → Refs × Result GoError (List Node) → Type 0
Outcome true vm out = Built vm 1 out
Outcome false vm (r, ok nodes) = ⊥
Outcome false vm (r, err e) = exit_status (some e) ≡ 3

nil_no_table : (v : LuaValue) → is_nil v ≡ true → is_table v ≡ false
nil_no_table lua_nil h = refl
nil_no_table (lua_table t) h = cc
nil_no_table _ h = refl

-- What is stored is found under its key.
push_ref-stored :
    (vm : Vm) (v : LuaValue) (r : Refs) → push_ref (store_ref vm v r).0 (store_ref vm v r).1 ≡ v
unfolding store_ref push_ref look_up
push_ref-stored vm v r = rw (=ₛ_refl (ref_key vm r.next_ref)) refl

module _ (vm : Vm) (decimal_injective : (a b : ℕ) → vm.decimal a ≡ vm.decimal b → a ≡ b) where
  build_node-Bound :
      (ref : String) (position : ℕ) (r : Refs)
      → Fresh vm r
      → Grows vm r (build_node vm ref position r).0
        × Sound
            (λ node.
              (typed_node vm (build_node vm ref position r).0 node ≡ true)
              × (node.position ≡ position))
            (build_node vm ref position r).1
  unfolding build_node exit_status
  build_node-Bound ref position r fresh =
      elim (Bool-cases (has_boolean_field vm ref "__lumn_unknown_primitive" r)) [
        | inl unknown ↦ rw (unknown, build_node) ((fresh, Keeps-refl r), inr (inl refl))
        | inr known ↦ elim (Option-cases (table_kind_ref vm ref r)) [
          | inl absent ↦ rw (known, absent, build_node) ((fresh, Keeps-refl r), inl refl)
          | inr (kind, there) ↦ elim (Bool-cases (is_valid kind)) [
            | inr invalid ↦
                rw (known, there, invalid, build_node) ((fresh, Keeps-refl r), inr (inl refl))
            | inl valid ↦
                let node = new_node kind position ref in
                let (grows, sound) =
                  bind_fields-Bound vm decimal_injective node r fresh valid refl in
                rw (known, there, valid, build_node)
                  (grows, placed node (bind_fields vm node r).0 (bind_fields vm node r).1 sound)
          ]
        ]
      ]
    where
      placed :
          (node : Node) (r : Refs) (result : Result GoError Node)
          → Sound (Bound vm r node) result
          → Sound
              (λ node'. (typed_node vm r node' ≡ true) × (node'.position ≡ node.position))
              result
      placed node r (ok bound) (typed, kind, position) = (typed, position)
      placed node r (err e) h = h

  array_value_ref-Grows :
      (flow : String) (i : ℕ) (r : Refs) → Fresh vm r → Grows vm r (array_value_ref vm flow i r).0
  unfolding array_value_ref
  array_value_ref-Grows flow i r fresh =
      let v = vm.raw_get_int (push_ref r flow) i in
      (
        store_ref-Fresh vm decimal_injective v r fresh,
        store_ref-Keeps vm decimal_injective v r fresh,
      )

  build_nodes-Built :
      (flow : String) (idx n : ℕ) (r : Refs)
      → Fresh vm r
      → Grows vm r (build_nodes vm flow idx n r).0 × Built vm idx (build_nodes vm flow idx n r)
  unfolding build_nodes
  build_nodes-Built flow idx zero r fresh = ((fresh, Keeps-refl r), (tt, tt))
  build_nodes-Built flow idx (suc n) r fresh =
      let (r1, ref) = array_value_ref vm flow idx r in
      let (fresh1, keeps1) = array_value_ref-Grows flow idx r fresh in
      let r2 = (build_node vm ref idx r1).0 in
      let ((fresh2, keeps2), sound) = build_node-Bound ref idx r1 fresh1 in
      let keeps12 = Keeps-trans r r1 r2 keeps1 keeps2 in
      let r3 = (build_nodes vm flow (suc idx) n r2).0 in
      let ((fresh3, keeps3), built) = build_nodes-Built flow (suc idx) n r2 fresh2 in
      let keeps123 = Keeps-trans r r2 r3 keeps12 keeps3 in
      elim (Result-cases (build_node vm ref idx r1).1) [
        | inr (e, bad) ↦ rw (bad, build_nodes) ((fresh2, keeps12), rw bad at sound)
        | inl (node, good) ↦ elim (Result-cases (build_nodes vm flow (suc idx) n r2).1) [
          | inr (e, bad) ↦ rw (good, bad, build_nodes) ((fresh3, keeps123), rw bad at built)
          | inl (nodes, rest) ↦
              let (typed, placed) = rw good at sound in
              let (all_typed, all_placed) = rw rest at built in
              rw (good, rest, build_nodes)
                (
                  (fresh3, keeps123),
                  ((typed_node-Keeps vm r2 r3 node keeps3 typed, all_typed), (placed, all_placed)),
                )
        ]
      ]

  -- Build returns nodes that stand at the positions 1, 2, 3 and so on, and every one of them has the
  -- kind of a primitive and is bound to what that primitive calls: a table with a name and a function
  -- run for call and tap, a function for set and filter. So Run never meets a kind that it does not
  -- know in them. A workflow whose flow is no table is refused with the exit status 3 (structure), and
  -- one that is refused for a node with 3, 4 (unknown primitive), 5 (invalid signature) or 9 (callable
  -- not found). Different numbers are printed differently, and the keys that are not given out yet
  -- hold nothing.
  pub build-Built :
      (workflow : String) (r : Refs)
      → Fresh vm r
      → Outcome (is_table (vm.field_of (push_ref r workflow) "flow")) vm (build vm workflow r)
  unfolding build exit_status new_error table_ref_field_ref
  build-Built workflow r fresh =
      let v = vm.field_of (push_ref r workflow) "flow" in
      let (stored, flow) = store_ref vm v r in
      elim (Bool-cases (is_nil v)) [
        | inl absent ↦ rw (nil_no_table v absent, absent, build, table_ref_field_ref) refl
        | inr there ↦
            let found : table_ref_field_ref vm workflow "flow" r ≡ (stored, some flow) =
              rw (there, table_ref_field_ref) refl in
            let same = ap (λ (x : Refs × Option String). x.0) found in
            let key = ap (λ (x : Refs × Option String). x.1) found in
            let here =
              ap (λ (x : Refs). is_table (push_ref x flow)) same
              ∙ ap is_table (push_ref-stored vm v r) in
            elim (Bool-cases (is_table v)) [
              | inr other ↦ rw (key, here, other, build) refl
              | inl table ↦
                  rw (key, here, table, same, build)
                    (build_nodes-Built flow 1 (table_len vm flow stored) stored
                      (store_ref-Fresh vm decimal_injective v r fresh)).1
            ]
      ]
