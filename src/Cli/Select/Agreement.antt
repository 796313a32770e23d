-- ===== src/Cli/Select/Agreement.antt =====
-- cli.go and store.go: the client's resolution of a selector agrees with the daemon's.
use lumn.Base.{
  String, ◌≡◌, refl, subst, ◌⊎◌, inl, inr, Bool, true, none, some, List, [], ◌∷◌, ◌=ₛ◌, ok, err,
  find, select, All, In, All-In, In-select, All-select_self, find-In, exists, Option-cases,
  Bool-cases, eq_iff,
}
use lumn.Base.Text.{has_prefix}
use lumn.Api.{WorkflowResponse}
use lumn.Store.{Workflow, Db}
use lumn.Store.Workflows.{get_workflow}
use lumn.Store.Selector.{resolve_workflow_selector}
use lumn.Cli.Select.{Selected, pick_name, pick_prefix, select_workflow_id}

-- A row of the list has the id, and the selector is its id, its name, or a prefix of its id.
abbrev pub Chosen : List WorkflowResponse → String → String → Type 0
Chosen workflows selector id =
    (w : WorkflowResponse) × In w workflows
    × (w.id ≡ id)
    × ((w.id ≡ selector) ⊎ (w.name ≡ selector) ⊎ (has_prefix w.id selector ≡ true))

-- A successful selection is a choice from the list.
abbrev pub Sound : List WorkflowResponse → String → Selected → Type 0
Sound workflows selector (ok (some id)) = Chosen workflows selector id
Sound workflows selector (ok none) = Unit
Sound workflows selector (err e) = Unit

module _ (workflows : List WorkflowResponse) (selector : String) where
  by_prefix :
      (rows : List WorkflowResponse)
      → ((w : WorkflowResponse) → In w rows → In w workflows × (has_prefix w.id selector ≡ true))
      → Sound workflows selector (pick_prefix selector rows)
  unfolding pick_prefix
  by_prefix [] h = tt
  by_prefix (w ∷ []) h = let (m, p) = h w (inl refl) in (w, m, refl, inr (inr p))
  by_prefix (w ∷ v ∷ rest) h = tt

  by_name :
      (rows : List WorkflowResponse) (otherwise : Selected)
      → ((w : WorkflowResponse) → In w rows → In w workflows × (w.name ≡ selector))
      → Sound workflows selector otherwise
      → Sound workflows selector (pick_name selector rows otherwise)
  unfolding pick_name
  by_name [] otherwise h k = k
  by_name (w ∷ []) otherwise h k = let (m, p) = h w (inl refl) in (w, m, refl, inr (inl p))
  by_name (w ∷ v ∷ rest) otherwise h k =
      elim (Option-cases (find (λ u. u.version =ₛ "latest") (w ∷ v ∷ rest))) [
        | inl e ↦ rw (e, pick_name) tt
        | inr (u, e) ↦
            let (m, p) = h u (find-In (λ x. x.version =ₛ "latest") u (w ∷ v ∷ rest) e).0 in
            rw (e, pick_name) (u, m, refl, inr (inl p))
      ]

  -- What `selectWorkflowID` returns is the id of a listed workflow that the selector means: by its id,
  -- by its name, or by a prefix of its id.
  pub select-Sound : Sound workflows selector (select_workflow_id workflows selector)
  unfolding select_workflow_id
  select-Sound = elim (Option-cases (find (λ w. w.id =ₛ selector) workflows)) [
    | inr (w, e) ↦
        let (m, p) = find-In (λ x. x.id =ₛ selector) w workflows e in
        rw (e, select_workflow_id) (w, m, refl, inl ((eq_iff w.id selector).0 p))
    | inl e ↦
        rw (e, select_workflow_id)
          (by_name (select (λ w. w.name =ₛ selector) workflows) _
            (λ w m. (
              In-select w _ workflows m,
              (eq_iff w.name selector).0
                  (All-In (λ u. (u.name =ₛ selector) ≡ true) w _ (All-select_self _ workflows) m),
            ))
            (by_prefix (select (λ w. has_prefix w.id selector) workflows) (λ w m. (
              In-select w _ workflows m,
              All-In (λ u. has_prefix u.id selector ≡ true) w _ (All-select_self _ workflows) m,
            ))))
  ]

find-exists :
    (p : Workflow → Bool) (rows : List Workflow)
    → exists p rows ≡ true
    → (w : Workflow) × (find p rows ≡ some w)
find-exists p [] h = cc
find-exists p (w ∷ rows) h = elim (Bool-cases (p w)) [
  | inl hit ↦ (w, rw hit refl)
  | inr miss ↦ rw miss (find-exists p rows (rw miss at h))
]

resolve-id :
    (db : Db) (id : String)
    → exists (λ w. w.id =ₛ id) db.workflows ≡ true
    → (w : Workflow) × (resolve_workflow_selector db id ≡ ok (some w)) × (w.id ≡ id)
unfolding resolve_workflow_selector get_workflow
resolve-id db id known =
    let (w, e) = find-exists (λ w. w.id =ₛ id) db.workflows known in
    let (m, p) = find-In (λ w. w.id =ₛ id) w db.workflows e in (w, rw e refl, (eq_iff w.id id).0 p)

-- The id that the client selects is registered, if every workflow of the list is.
pub select_registered :
    (db : Db) (workflows : List WorkflowResponse) (selector id : String)
    → All (λ r. exists (λ w. w.id =ₛ r.id) db.workflows ≡ true) workflows
    → select_workflow_id workflows selector ≡ ok (some id)
    → exists (λ w. w.id =ₛ id) db.workflows ≡ true
select_registered db workflows selector id listed chosen =
    let (r, m, same, _) =
      subst (Sound workflows selector) chosen (select-Sound workflows selector) in
    subst (λ i. exists (λ w. w.id =ₛ i) db.workflows ≡ true) same
      (All-In (λ r. exists (λ w. w.id =ₛ r.id) db.workflows ≡ true) r workflows listed m)

-- If every workflow of the list that the client works from is registered, then whatever id the client
-- selects, the daemon resolves that id to the workflow that has it: the second resolution never
-- turns a selector into another workflow or an error.
pub select-resolve :
    (db : Db) (workflows : List WorkflowResponse) (selector id : String)
    → All (λ r. exists (λ w. w.id =ₛ r.id) db.workflows ≡ true) workflows
    → select_workflow_id workflows selector ≡ ok (some id)
    → (w : Workflow) × (resolve_workflow_selector db id ≡ ok (some w)) × (w.id ≡ id)
select-resolve db workflows selector id listed chosen =
    resolve-id db id (select_registered db workflows selector id listed chosen)
