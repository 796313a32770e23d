-- ===== src/Daemon/Control/Started.antt =====
-- daemon.go and store.go: what `StartWorkflow` leaves where it succeeds.
use lumn.Base.{
  ℕ, suc, ◌+◌, String, ◌≡◌, refl, sym, subst, ◌∙◌, inl, inr, Bool, true, false, Option, some, List,
  [], ◌∷◌, map, length, ◌=ₛ◌, Result, ok, err, if◌then◌else◌, find, Result-cases, arith,
  length-append, length-map,
}
use lumn.Report.{Report}
use lumn.Value.{Fields}
use lumn.Store.{Codec, Db, StoreError, Workflow, Trigger, status_active}
use lumn.Store.Workflows.{upsert_workflow, get_workflow, get_by_name_version}
use lumn.Store.Triggers.{replace_workflow_triggers, set_trigger_runtime}
use lumn.Store.Triggers.Stored.{length-replace_workflow_triggers}
use lumn.Trigger.{Env, TriggerSpec, validate_triggers}
use lumn.Daemon.{Daemon, Managed, DaemonError, Done, get_managed_by_id, notify, store_error}
use lumn.Daemon.Lifecycle.{
  Host, start_trigger, with_started, start_triggers, put_managed, activate_workflow,
}
use lumn.Daemon.Control.{
  Definition, registration, stored_trigger, forget, is_found, install, replace_active,
  start_workflow,
}
use lumn.Daemon.Control.Rows.{Written, put_managed-find, upsert_workflow-Written, notify-find}

-- What the loop over the triggers keeps of the managed workflow, and how many it adds.
abbrev Grown : Managed → ℕ → Daemon × Result DaemonError Managed → Type 0
Grown m n (d, ok m') =
    (m'.workflow ≡ m.workflow)
    × (m'.accepting ≡ m.accepting)
    × (m'.running ≡ m.running)
    × (length m'.triggers ≡ length m.triggers + n)
Grown m n (d, err e) = Unit

Grown-more :
    (m m' : Managed) (n : ℕ) (out : Daemon × Result DaemonError Managed)
    → m'.workflow ≡ m.workflow
    → m'.accepting ≡ m.accepting
    → m'.running ≡ m.running
    → length m'.triggers ≡ length m.triggers + 1
    → Grown m' n out
    → Grown m (suc n) out
Grown-more m m' n (d, ok x) a b c e (f, g, h, i) = (f ∙ a, g ∙ b, h ∙ c, omega arith)
Grown-more m m' n (d, err x) a b c e h = tt

module _ (env : Env) (host : Host) (json : Codec Fields) (reports : Codec Report) (now : ℕ) where
  start_triggers-Grown :
      (ts : List (Trigger Fields)) (restoring : Bool) (m : Managed) (d : Daemon)
      → Grown m (length ts) (start_triggers env host json reports now ts restoring m d)
  unfolding start_triggers
  start_triggers-Grown [] restoring m d = (refl, refl, refl, omega arith)
  start_triggers-Grown (t ∷ ts) restoring m d =
      elim (Result-cases (start_trigger env host json reports now m t restoring d).1) [
        | inr (e, bad) ↦ rw (bad, start_triggers) tt
        | inl ((handle, next), good) ↦
            let d' = (start_trigger env host json reports now m t restoring d).0 in
            let m' = with_started env host json reports now m t handle next in
            let set = record d' { db = (set_trigger_runtime now t.id "active" next d'.db).0 } in
            rw (good, start_triggers)
              (Grown-more m m' (length ts)
                (start_triggers env host json reports now ts restoring m' set) refl refl refl
                (length-append m.triggers _) (start_triggers-Grown ts restoring m' set))
      ]

  -- The map and the table after an activation that succeeds.
  abbrev pub Activated : Workflow → ℕ → Daemon × Done → Type 0
  Activated w n (d, ok u) =
      Written (record w { status = status_active }) (get_workflow d.db w.id)
      × ((m : Managed) × (get_managed_by_id d w.id ≡ ok m)
          × (m.accepting ≡ true)
          × (m.running ≡ false)
          × (length m.triggers ≡ n))
  Activated w n (d, err e) = Unit

  Activated-by :
      (w : Workflow) (n : ℕ) (m : Managed) (d : Daemon) (out : Db × Result StoreError (Unit {0}))
      → m.workflow ≡ w
      → m.accepting ≡ true
      → m.running ≡ false
      → length m.triggers ≡ n
      → upsert_workflow now (record w { status = status_active }) d.db ≡ out
      → Activated w n (
          let added = record d { db = out.0; workflows = put_managed m d.workflows } in
          elim out.1 as (λ x. Daemon × Done) [
            | err e ↦ (added, err (store_error e))
            | ok _ ↦ (notify w.id added, ok tt)
          ])
  unfolding notify
  Activated-by w n m d (db', err e) same a r l written = tt
  Activated-by w n m d (db', ok u) same a r l written = (
    upsert_workflow-Written now (record w { status = status_active }) d.db db' written,
    (
      record m { notified = true },
      notify-find w.id m (record d { db = db'; workflows = put_managed m d.workflows })
          (subst (λ v. find (λ x. x.workflow.id =ₛ v.id) (put_managed m d.workflows) ≡ some m) same
            (put_managed-find m d.workflows)),
      a,
      r,
      l,
    ),
  )

  activate_workflow-Activated :
      (w : Workflow) (ts : List (Trigger Fields)) (restoring : Bool) (d : Daemon)
      → Activated w (length ts) (activate_workflow env host json reports now w ts restoring d)
  unfolding activate_workflow
  activate_workflow-Activated w ts restoring d =
      let fresh : Managed = record {
        workflow = w;
        triggers = [];
        handles = [];
        notified = false;
        accepting = true;
        running = false;
        manual = false;
      } in
      let started = start_triggers env host json reports now ts restoring fresh d in
      let grown = start_triggers-Grown ts restoring fresh d in
      elim (Result-cases started.1) [
        | inr (e, bad) ↦ rw (bad, activate_workflow) tt
        | inl (m, good) ↦
            let (same, a, r, l) = subst (λ x. Grown fresh (length ts) (started.0, x)) good grown in
            rw (good, activate_workflow)
              (Activated-by w (length ts) m started.0 _ same a r (l ∙ omega arith) refl)
      ]

  module _ (load : String → Option Definition) (workflow_id_for : String → String → String)
      (others : Daemon → Daemon) where
    -- The workflow that a start returns: it stands in the table with its status, and in the map, and
    -- it runs nothing yet.
    abbrev pub Starts : String → String → ℕ → Daemon × Result DaemonError (Option Workflow) → Type 0
    Starts name version n (d, ok r) =
        (row : Workflow) × (m : Managed) × (r ≡ some row)
        × (get_workflow d.db row.id ≡ some row)
        × (row.name ≡ name)
        × (row.version ≡ version)
        × (row.status ≡ status_active)
        × (get_managed_by_id d row.id ≡ ok m)
        × (m.accepting ≡ true)
        × (m.running ≡ false)
        × (length m.triggers ≡ n)
    Starts name version n (d, err e) = Unit

    started-by :
        (w : Workflow) (n : ℕ) (existing : Option Workflow) (out : Daemon × Done)
        → Activated w n out
        → Starts w.name w.version n
            (elim out.1 as (λ x. Daemon × Result DaemonError (Option Workflow)) [
              | err e ↦ (
                forget env host json reports load workflow_id_for others now
                    (is_found env host json reports load workflow_id_for others now existing)
                    w.id
                    out.0,
                err e,
              )
              | ok _ ↦ (out.0, ok (get_workflow out.0.db w.id))
            ])
    started-by w n existing (d, err e) h = tt
    started-by w n existing (d, ok u) ((row, found, same, a, b, c), (m, mapped, x, y, z)) = (
      row,
      m,
      found,
      subst (λ id. get_workflow d.db id ≡ some row) (sym same) found,
      a,
      b,
      c,
      subst (λ id. get_managed_by_id d id ≡ ok m) (sym same) mapped,
      x,
      y,
      z,
    )

    install-Starts :
        (existing : Option Workflow) (w : Workflow) (triggers : List TriggerSpec) (d : Daemon)
        → Starts w.name w.version
            (length triggers)
            (install env host json reports load workflow_id_for others now existing w triggers d)
    unfolding install
    install-Starts existing w triggers d =
        let upserted = upsert_workflow now w d.db in
        let wanted = map (stored_trigger) triggers in
        let replaced = replace_workflow_triggers json now w.id wanted upserted.0 in
        elim (Result-cases upserted.1) [
          | inr (e, bad) ↦ rw (bad, install) tt
          | inl (u, written) ↦ elim (Result-cases replaced.1) [
            | inr (e, bad) ↦ rw (written, bad, install) tt
            | inl (rows, stored) ↦
                let count : length rows ≡ length triggers =
                  length-replace_workflow_triggers json now w.id wanted upserted.0 rows stored
                  ∙ length-map stored_trigger triggers in
                let placed = record d { db = replaced.0 } in
                rw (written, stored, install)
                  (started-by w (length triggers) existing
                    (activate_workflow env host json reports now w rows false placed)
                    (subst
                      (λ n.
                        Activated w n
                          (activate_workflow env host json reports now w rows false placed))
                      count (activate_workflow-Activated w rows false placed)))
          ]
        ]

    -- A StartWorkflow that succeeds returns the row that the table holds under the name and the
    -- version that it was given or their defaults, with the status active; and the daemon's map has
    -- that workflow, which accepts triggers, runs nothing yet, and has as many triggers as were
    -- validated, whatever the other goroutines did while it waited for an earlier one to stop. The
    -- path loads and its triggers are valid.
    pub start_workflow-Starts :
        (name version path : String) (d : Daemon) (definition : Definition)
        (triggers : List TriggerSpec)
        → load path ≡ some definition
        → validate_triggers env definition.triggers ≡ ok triggers
        → Starts
            (if name =ₛ "" then definition.name else name)
            (if version =ₛ "" then "latest" else version)
            (length triggers)
            (start_workflow env host json reports load workflow_id_for others now name version path
              d)
    unfolding start_workflow
    start_workflow-Starts name version path d definition triggers loaded valid =
        let named = if name =ₛ "" then definition.name else name in
        let tag = if version =ₛ "" then "latest" else version in
        let existing = get_by_name_version d.db named tag in
        let replaced =
          replace_active env host json reports load workflow_id_for others now existing d in
        elim (Result-cases replaced.1) [
          | inr (e, bad) ↦ rw (loaded, valid, bad, start_workflow) tt
          | inl (u, good) ↦
              rw (loaded, valid, good, start_workflow)
                (install-Starts existing
                  (registration env host json reports load workflow_id_for others now existing named
                    tag definition.target_path)
                  triggers replaced.0)
        ]
