-- ===== src/Daemon/Bundles/Listed.antt =====
-- daemon.go, api.go and cli.go: the list that the daemon sends, and the selection that the client makes
-- on it.
use lumn.Base.{
  ℕ, String, ◌≡◌, refl, subst, inl, inr, true, some, List, [], ◌∷◌, map, ◌=ₛ◌, =ₛ_refl, Result, ok,
  err, exists, All, In, exists-of_In, Result-cases, sym, ap, ◌∙◌, ◌⊎◌, All-map, All-In,
}
use lumn.Base.Sort.{In-sort_by}
use lumn.Report.{Report}
use lumn.Value.{Fields}
use lumn.Store.{Codec, Db, StoreError, Workflow}
use lumn.Store.Workflows.{list_workflows, by_name}
use lumn.Store.Triggers.{list_triggers}
use lumn.Store.Queue.{latest_execution}
use lumn.Api.{WorkflowResponse}
use lumn.Cli.Select.{select_workflow_id}
use lumn.Base.Text.{has_prefix}
use lumn.Cli.Select.Agreement.{Sound, select-Sound, select_registered, select-resolve}
use lumn.Daemon.{Daemon, resolve_workflow}
use lumn.Daemon.Bundles.{Bundle, bundle_of, bundles_of, list_bundles, summarize_workflow}

-- The entry is about a registered workflow.
abbrev Registered : Db → WorkflowResponse → Type 0
Registered db r = (w : Workflow) × In w db.workflows × (w.id ≡ r.id) × (w.name ≡ r.name)

known :
    (db : Db) (r : WorkflowResponse)
    → Registered db r
    → exists (λ w. w.id =ₛ r.id) db.workflows ≡ true
known db r (w, m, same, named) =
    exists-of_In (λ x. x.id =ₛ r.id) w db.workflows m (rw same (=ₛ_refl r.id))

-- The selector means the workflow: by its id, by its name, or by a prefix of its id.
abbrev pub Means : String → Workflow → Type 0
Means selector w = (w.id ≡ selector) ⊎ (w.name ≡ selector) ⊎ (has_prefix w.id selector ≡ true)

Means-entry :
    (selector : String) (w : Workflow) (r : WorkflowResponse)
    → w.id ≡ r.id
    → w.name ≡ r.name
    → (r.id ≡ selector) ⊎ (r.name ≡ selector) ⊎ (has_prefix r.id selector ≡ true)
    → Means selector w
Means-entry selector w r same named (inl e) = inl (same ∙ e)
Means-entry selector w r same named (inr (inl e)) = inr (inl (named ∙ e))
Means-entry selector w r same named (inr (inr p)) =
    inr (inr (subst (λ i. has_prefix i selector ≡ true) (sym same) p))

-- A registered workflow with the id, which the selector means.
abbrev pub Meant : String → Db → String → Type 0
Meant selector db id = (w : Workflow) × In w db.workflows × (w.id ≡ id) × Means selector w

module _ (json : Codec Fields) (reports : Codec Report) (format_time : ℕ → String) where
  -- A bundle is about the workflow that it was read for.
  abbrev About : Workflow → Result StoreError Bundle → Type 0
  About w (ok b) = b.workflow ≡ w
  About w (err e) = Unit

  bundle_of-About : (db : Db) (w : Workflow) → About w (bundle_of json reports db w)
  unfolding bundle_of
  bundle_of-About db w = elim (Result-cases (list_triggers json db w.id)) [
    | inr (e, bad) ↦ rw (bad, bundle_of) tt
    | inl (triggers, good) ↦ elim (Result-cases (latest_execution reports db w.id)) [
      | inr (e, bad) ↦ rw (good, bad, bundle_of) tt
      | inl (latest, there) ↦ rw (good, there, bundle_of) refl
    ]
  ]

  -- The entries that bundles become are registered.
  abbrev Entries : Db → Result StoreError (List Bundle) → Type 0
  Entries db (ok bs) = All (Registered db) (map (summarize_workflow format_time) bs)
  Entries db (err e) = Unit

  bundles_of-Entries :
      (db : Db) (ws : List Workflow)
      → ((w : Workflow) → In w ws → In w db.workflows)
      → Entries db (bundles_of json reports db ws)
  unfolding bundles_of summarize_workflow
  bundles_of-Entries db [] within = tt
  bundles_of-Entries db (w ∷ ws) within =
      let about = bundle_of-About db w in
      let others = bundles_of-Entries db ws (λ x m. within x (inr m)) in
      elim (Result-cases (bundle_of json reports db w)) [
        | inr (e, bad) ↦ rw (bad, bundles_of) tt
        | inl (b, good) ↦ elim (Result-cases (bundles_of json reports db ws)) [
          | inr (e, bad) ↦ rw (good, bad, bundles_of) tt
          | inl (bs, rest) ↦
              let same : b.workflow ≡ w = rw good at about in
              rw (good, rest, bundles_of)
                (
                  (
                    w,
                    within w (inl refl),
                    sym (ap (λ (x : Workflow). x.id) same),
                    sym (ap (λ (x : Workflow). x.name) same),
                  ),
                  rw rest at others,
                )
        ]
      ]

  list_bundles-Entries :
      (d : Daemon) (bs : List Bundle) → list_bundles json reports d ≡ ok bs → Entries d.db (ok bs)
  unfolding list_bundles list_workflows
  list_bundles-Entries d bs sent =
      subst (Entries d.db) sent (
        bundles_of-Entries d.db (list_workflows d.db)
          (λ w m. In-sort_by by_name w d.db.workflows m))

  -- The id that the client selects is registered.
  pub listed_registered :
      (d : Daemon) (bs : List Bundle) (selector id : String)
      → list_bundles json reports d ≡ ok bs
      → select_workflow_id (map (summarize_workflow format_time) bs) selector ≡ ok (some id)
      → exists (λ w. w.id =ₛ id) d.db.workflows ≡ true
  listed_registered d bs selector id sent chosen =
      select_registered d.db (map (summarize_workflow format_time) bs) selector id
        (All-map (Registered d.db) _ (map (summarize_workflow format_time) bs) (known d.db)
          (list_bundles-Entries d bs sent))
        chosen

  -- What the client selects on the list is meant by the selector.
  pub listed-Meant :
      (d : Daemon) (bs : List Bundle) (selector id : String)
      → list_bundles json reports d ≡ ok bs
      → select_workflow_id (map (summarize_workflow format_time) bs) selector ≡ ok (some id)
      → Meant selector d.db id
  listed-Meant d bs selector id sent chosen =
      let listed = map (summarize_workflow format_time) bs in
      let (r, m, same, how) = subst (Sound listed selector) chosen (select-Sound listed selector) in
      let (w, there, by_id, by_name) =
        All-In (Registered d.db) r listed (list_bundles-Entries d bs sent) m in
      (w, there, by_id ∙ same, Means-entry selector w r by_id by_name how)

  -- Whatever id the client selects on the list that the daemon has sent, the daemon resolves it to the
  -- workflow that has it, as long as nothing has changed in between.
  pub listed-Resolves :
      (d : Daemon) (bs : List Bundle) (selector id : String)
      → list_bundles json reports d ≡ ok bs
      → select_workflow_id (map (summarize_workflow format_time) bs) selector ≡ ok (some id)
      → (w : Workflow) × (resolve_workflow d id ≡ ok w) × (w.id ≡ id)
  unfolding resolve_workflow
  listed-Resolves d bs selector id sent chosen =
      let (w, resolved, same) =
        select-resolve d.db (map (summarize_workflow format_time) bs) selector id
          (All-map (Registered d.db) _ (map (summarize_workflow format_time) bs) (known d.db)
            (list_bundles-Entries d bs sent))
          chosen in
      (w, rw (resolved, resolve_workflow) refl, same)
