-- ===== src/Webhooks/Owners.antt =====
-- daemon.go: who owns a route.
use lumn.Base.{
  String, ◌≡◌, refl, sym, ap, subst, ◌∙◌, =ₛ_refl, ◌≢◌, inl, inr, false, not, Option, none, some,
  arith, ◌=ₛ◌, Result, ok, err, if◌then◌else◌, Bool-cases, eq_iff,
}
use lumn.Webhooks.{
  Route, Routes, route_key, RegisterError, is_foreign, put_route, register, is_own, unregister,
  remove_workflow,
}

-- What a key has after the routes of a workflow are gone, by what it had: a route of the workflow is
-- gone, and one of another workflow stays as it was.
abbrev pub Cleared : String → Option Route → Option Route → Type 0
Cleared id none after = after ≡ none
Cleared id (some r) after = after ≡ (if r.workflow_id =ₛ id then none else some r)

own-Cleared : (id : String) (o : Option Route) → Cleared id o (if is_own id o then none else o)
own-Cleared id none = refl
own-Cleared id (some r) = refl

-- removeWorkflow clears the routes of the workflow and no other.
pub remove_workflow-Cleared :
    (id key : String) (routes : Routes) → Cleared id (routes key) (remove_workflow id routes key)
unfolding remove_workflow
remove_workflow-Cleared id key routes = own-Cleared id (routes key)

-- A route that is not foreign is removed with its workflow.
removed :
    (w : String) (o : Option Route)
    → is_foreign w o ≡ false
    → (if is_own w o then none else o) ≡ none
removed w none free = refl
removed w (some r) free = elim (Bool-cases (r.workflow_id =ₛ w)) [
  | inl own ↦ rw own refl
  | inr other ↦ absurd (cc (rw other at free))
]

module _ (w method path : String) (routes after : Routes)
    (done : register w method path routes ≡ ok after) where
  -- What a registration that succeeds has found in the table, and what it has done to it.
  free_before : is_foreign w (routes (route_key method path)) ≡ false
  unfolding register
  free_before = elim (Bool-cases (is_foreign w (routes (route_key method path)))) [
    | inl taken ↦ absurd (cc (rw (taken, register) at done))
    | inr free ↦ free
  ]

  table_after :
      (key : String)
      → after key ≡ put_route (record { workflow_id = w; method = method; path = path }) routes key
  unfolding register
  table_after key =
      let table : Result RegisterError Routes =
        ok (put_route (record { workflow_id = w; method = method; path = path }) routes) in
      let written : table ≡ ok after = rw (free_before, register) at done in
      sym (
        ap (λ (t : Result RegisterError Routes). elim t [ ok table ↦ table key | err e ↦ none ])
          written)

  -- A registration that succeeds takes no route away from another workflow.
  pub register-foreign :
      (key : String) (r : Route) → routes key ≡ some r → r.workflow_id ≢ w → after key ≡ some r
  register-foreign key r found other = elim (Bool-cases (key =ₛ route_key method path)) [
    | inl same ↦
        let here =
          subst (λ k. routes k ≡ some r) ((eq_iff key (route_key method path)).0 same) found in
        let own : not (r.workflow_id =ₛ w) ≡ false = rw here at free_before in
        absurd (ground (arith, own, eq_iff r.workflow_id w))
    | inr apart ↦ table_after key ∙ rw apart found
  ]

  -- If the key of a route was free, unregistering the route undoes its registration, at every key.
  pub unregister-register :
      (key : String)
      → routes (route_key method path) ≡ none
      → unregister w method path after key ≡ routes key
  unfolding unregister
  unregister-register key free = elim (Bool-cases (key =ₛ route_key method path)) [
    | inl same ↦
        rw (table_after key, same, =ₛ_refl w, unregister)
          (sym
            (subst (λ k. routes k ≡ none) (sym ((eq_iff key (route_key method path)).0 same)) free))
    | inr apart ↦ rw (table_after key, apart, unregister) refl
  ]

  remove_workflow-again :
      (key : String) → remove_workflow w after key ≡ remove_workflow w routes key
  unfolding remove_workflow
  remove_workflow-again key = elim (Bool-cases (key =ₛ route_key method path)) [
    | inl same ↦
        let here =
          subst (λ k. is_foreign w (routes k) ≡ false)
            (sym ((eq_iff key (route_key method path)).0 same)) free_before in
        rw (table_after key, same, =ₛ_refl w, remove_workflow) (sym (removed w (routes key) here))
    | inr apart ↦ rw (table_after key, apart, remove_workflow) refl
  ]

  -- A workflow that has registered a route and is removed then leaves no route of its own: every key
  -- that led to another workflow before the registration leads there with the same route, and every
  -- other key leads nowhere.
  pub remove_workflow-register :
      (key : String) → Cleared w (routes key) (remove_workflow w after key)
  remove_workflow-register key =
      subst (Cleared w (routes key)) (sym (remove_workflow-again key))
        (remove_workflow-Cleared w key routes)
