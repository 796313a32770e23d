-- ===== src/Executor/Counts.antt =====
-- executor.go: the numbers and the status that a report states.
use lumn.Base.{
  ℕ, ◌≤◌, String, ◌≡◌, refl, ◌⊎◌, inl, inr, Bool, true, false, Option, none, some, List, [], ◌∷◌,
  arith, ◌=ₛ◌, Result, ok, err, if◌then◌else◌, length, Bool-cases, Result-cases, Option-cases,
}
use lumn.Errkind.{GoError}
use lumn.Report.{Report}
use lumn.Value.{Fields}
use lumn.Executor.{
  normalize_trigger_data, Node, Lua, set_one, set_items, filter_one, filter_items, tap_items,
  build_call_items,
}
use lumn.Executor.Run.{
  Progress, run_call, run_tap, run_node, run_nodes, run_workflow, kept_count, report_of,
  partial_report,
}

-- The result has no more items than `n`, if it is one.
abbrev AtMost : ℕ → Result GoError (List String) → Type 0
AtMost n (ok items) = length items ≤ n
AtMost n (err e) = Unit

-- No more items than the count says.
abbrev Counted : Result GoError Progress → Type 0
Counted (ok (items, items_in)) = length items ≤ items_in
Counted (err e) = Unit

module _ {S : Type 0} (lua : Lua S) where
  set_items-AtMost :
      (node : Node) (items : List String) (s : S)
      → AtMost (length items) (set_items lua node items s).1
  unfolding set_items
  set_items-AtMost node [] s = omega arith
  set_items-AtMost node (item ∷ rest) s =
      let (s1, first) = set_one lua node item s in
      elim (Result-cases (set_one lua node item s).1) [
        | inr (e, bad) ↦ rw (bad, set_items) tt
        | inl (r, good) ↦
            let next = (set_one lua node item s).0 in
            let ih = set_items-AtMost node rest next in
            elim (Result-cases (set_items lua node rest next).1) [
              | inr (e, bad) ↦ rw (good, bad, set_items) tt
              | inl (rs, built) ↦
                  let fewer : length rs ≤ length rest = rw built at ih in
                  rw (good, built, set_items) (omega (arith, fewer))
            ]
      ]

  filter_items-AtMost :
      (node : Node) (items : List String) (s : S)
      → AtMost (length items) (filter_items lua node items s).1
  unfolding filter_items
  filter_items-AtMost node [] s = omega arith
  filter_items-AtMost node (item ∷ rest) s = elim (Result-cases (filter_one lua node item s).1) [
    | inr (e, bad) ↦ rw (bad, filter_items) tt
    | inl (keep, good) ↦
        let next = (filter_one lua node item s).0 in
        let ih = filter_items-AtMost node rest next in
        elim (Result-cases (filter_items lua node rest next).1) [
          | inr (e, bad) ↦ rw (good, bad, filter_items) tt
          | inl (rs, built) ↦
              let fewer : length rs ≤ length rest = rw built at ih in
              rw (good, built, filter_items) (kept keep rs fewer)
        ]
  ]
    where
      kept :
          (keep : Bool) (rs : List String)
          → length rs ≤ length rest
          → length (if keep then item ∷ rs else rs) ≤ length (item ∷ rest)
      kept true rs h = omega (arith, h)
      kept false rs h = omega (arith, h)

  kept_count-Counted :
      (items_in n : ℕ) (outcome : S × Result GoError (List String))
      → n ≤ items_in
      → AtMost n outcome.1
      → Counted (kept_count lua items_in outcome).1
  kept_count-Counted items_in n (s, ok items) h k = omega (arith, h, k)
  kept_count-Counted items_in n (s, err e) h k = tt

  run_call-Counted :
      (node : Node) (progress : Progress) (s : S) → Counted (run_call lua node progress s).1
  unfolding run_call
  run_call-Counted node (items, items_in) s =
      elim (Result-cases (lua.call_callable node.callable_ref "" s).1) [
        | inr (e, bad) ↦ rw (bad, run_call) tt
        | inl (r, good) ↦
            let next = (lua.call_callable node.callable_ref "" s).0 in
            elim (Result-cases (build_call_items lua node r next).1) [
              | inr (e, bad) ↦ rw (good, bad, run_call) tt
              | inl (rs, built) ↦ rw (good, built, run_call) (omega arith)
            ]
      ]

  run_tap-Counted :
      (node : Node) (progress : Progress) (s : S)
      → length progress.0 ≤ progress.1
      → Counted (run_tap lua node progress s).1
  unfolding run_tap
  run_tap-Counted node ([], items_in) s h =
      elim (Result-cases (lua.call_callable node.callable_ref "" s).1) [
        | inr (e, bad) ↦ rw (bad, run_tap) tt
        | inl (r, good) ↦ rw (good, run_tap) h
      ]
  run_tap-Counted node (item ∷ rest, items_in) s h =
      elim (Option-cases (tap_items lua node (item ∷ rest) s).1) [
        | inr (e, bad) ↦ rw (bad, run_tap) tt
        | inl good ↦ rw (good, run_tap) h
      ]

  run_node-Counted :
      (node : Node) (progress : Progress) (s : S)
      → length progress.0 ≤ progress.1
      → Counted (run_node lua node progress s).1
  unfolding run_node
  run_node-Counted node progress s h = elim (Bool-cases (node.kind =ₛ "call")) [
    | inl a ↦ rw (a, run_node) (run_call-Counted node progress s)
    | inr a ↦ elim (Bool-cases (node.kind =ₛ "set")) [
      | inl b ↦
          rw (a, b, run_node)
            (kept_count-Counted progress.1 (length progress.0) (set_items lua node progress.0 s) h
              (set_items-AtMost node progress.0 s))
      | inr b ↦ elim (Bool-cases (node.kind =ₛ "filter")) [
        | inl c ↦
            rw (a, b, c, run_node)
              (kept_count-Counted progress.1 (length progress.0)
                (filter_items lua node progress.0 s) h (filter_items-AtMost node progress.0 s))
        | inr c ↦ elim (Bool-cases (node.kind =ₛ "tap")) [
          | inl t ↦ rw (a, b, c, t, run_node) (run_tap-Counted node progress s h)
          | inr t ↦ rw (a, b, c, t, run_node) tt
        ]
      ]
    ]
  ]

  run_nodes-Counted :
      (nodes : List Node) (progress : Progress) (s : S)
      → length progress.0 ≤ progress.1
      → length (run_nodes lua nodes progress s).1.0 ≤ (run_nodes lua nodes progress s).1.1
  unfolding run_nodes
  run_nodes-Counted [] progress s h = h
  run_nodes-Counted (node ∷ rest) progress s h =
      let one = run_node-Counted node progress s h in
      elim (Result-cases (run_node lua node progress s).1) [
        | inr (e, bad) ↦ rw (bad, run_nodes) h
        | inl ((items, items_in), good) ↦
            let fewer : length items ≤ items_in = rw good at one in
            rw (good, run_nodes)
              (run_nodes-Counted rest (items, items_in) (run_node lua node progress s).0 fewer)
      ]

  -- What the report of a run states. Without an error it does not count more items out than in, and is
  -- "empty" where nodes have run and no item is left, and "ok" otherwise; beside an error it counts no
  -- item out and lists no error yet.
  abbrev pub Consistent : List Node → S × Report × Option GoError → Type 0
  Consistent nodes (s, r, none) =
      (r.items_out ≤ r.items_in)
      × (((r.status ≡ "ok") × ((length nodes ≡ 0) ⊎ (1 ≤ r.items_out)))
          ⊎ ((r.status ≡ "empty") × (1 ≤ length nodes) × (r.items_out ≡ 0)))
  Consistent nodes (s, r, some e) = (r.items_out ≡ 0) × (r.errors ≡ [])

  report_of-Consistent :
      (nodes : List Node) (progress : Progress) (s : S)
      → length progress.0 ≤ progress.1
      → Consistent nodes (s, report_of lua nodes progress, none)
  report_of-Consistent [] (items, items_in) s h = (h, inl (refl, inl refl))
  report_of-Consistent (node ∷ rest) ([], items_in) s h = (h, inr (refl, omega arith, refl))
  report_of-Consistent (node ∷ rest) (item ∷ items, items_in) s h =
      (h, inl (refl, inr (omega arith)))

  ended-Consistent :
      (nodes : List Node) (outcome : S × Progress × Option GoError)
      → length outcome.1.0 ≤ outcome.1.1
      → Consistent nodes (elim outcome.2 [
        | some e ↦ (outcome.0, partial_report lua outcome.1.1, some e)
        | none ↦ (outcome.0, report_of lua nodes outcome.1, none)
      ])
  ended-Consistent nodes (s, progress, some e) h = (refl, refl)
  ended-Consistent nodes (s, progress, none) h = report_of-Consistent nodes progress s h

  -- The report of a run that ends without an error never counts more items out than in, whatever the
  -- functions of the workflow do, and its status is "empty" exactly where there are nodes and no item
  -- is left, and "ok" otherwise. Beside an error the report counts no item out and lists no error.
  pub run_workflow-Consistent :
      (nodes : List Node) (trigger_data : Fields) (s : S)
      → Consistent nodes (run_workflow lua nodes trigger_data s)
  unfolding run_workflow
  run_workflow-Consistent nodes trigger_data s =
      elim (Option-cases (lua.start (normalize_trigger_data trigger_data) s).1) [
        | inr (e, bad) ↦ rw (bad, run_workflow) (refl, refl)
        | inl good ↦
            let s1 = (lua.start (normalize_trigger_data trigger_data) s).0 in
            rw (good, run_workflow)
              (ended-Consistent nodes (run_nodes lua nodes ([], 0) s1)
                (run_nodes-Counted nodes ([], 0) s1 (omega arith)))
      ]
