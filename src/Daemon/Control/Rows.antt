-- ===== src/Daemon/Control/Rows.antt =====
-- store.go and daemon.go: the row and the entry of the map that a start of a workflow writes.
use lumn.Base.{
  ℕ, String, ◌≡◌, refl, ap, subst, inl, inr, true, Option, some, List, ◌==◌, ◌=ₛ◌, =ₛ_refl, Result,
  ok, if◌then◌else◌, find, exists, Bool-cases, find-update_hit, find-append_miss, find_of_exists,
  find-In, eq_iff,
}
use lumn.Store.{Db, StoreError, Workflow}
use lumn.Store.Workflows.{put_workflow, taken, upsert_workflow, get_workflow}
use lumn.Daemon.{Daemon, Managed, get_managed_by_id, notify}
use lumn.Daemon.Lifecycle.{put_managed}

-- The row that `UpsertWorkflow` writes, as it is read back.
abbrev pub Written : Workflow → Option Workflow → Type 0
Written w o =
    (r : Workflow) × (o ≡ some r)
    × (r.id ≡ w.id)
    × (r.name ≡ w.name)
    × (r.version ≡ w.version)
    × (r.status ≡ w.status)

put_workflow-Written :
    (w : Workflow) (rows : List Workflow)
    → Written w (find (λ v. v.id =ₛ w.id) (put_workflow w rows))
put_workflow-Written w rows = elim (Bool-cases (exists (λ v. v.id =ₛ w.id) rows)) [
  | inl known ↦
      let (v, found) = find_of_exists (λ v. v.id =ₛ w.id) rows known in
      let same : v.id ≡ w.id = (eq_iff v.id w.id).0 (find-In (λ v. v.id =ₛ w.id) v rows found).1 in
      let f = λ (x : Workflow). record x {
        name = w.name;
        version = w.version;
        path = w.path;
        status = w.status;
        updated_at = w.updated_at;
      } in
      (
        f v,
        rw known (find-update_hit (λ x. x.id =ₛ w.id) f v rows (λ x h. h) found),
        same,
        refl,
        refl,
        refl,
      )
  | inr new ↦ (
    w,
    rw new (find-append_miss (λ v. v.id =ₛ w.id) w rows new (=ₛ_refl w.id)),
    refl,
    refl,
    refl,
    refl,
  )
]

pub put_managed-find :
    (m : Managed) (rows : List Managed)
    → find (λ n. n.workflow.id =ₛ m.workflow.id) (put_managed m rows) ≡ some m
put_managed-find m rows = elim (Bool-cases (exists (λ n. n.workflow.id =ₛ m.workflow.id) rows)) [
  | inl known ↦
      let (n, found) = find_of_exists (λ n. n.workflow.id =ₛ m.workflow.id) rows known in
      rw known (
        find-update_hit (λ n. n.workflow.id =ₛ m.workflow.id) (λ n. m) n rows
          (λ x h. =ₛ_refl m.workflow.id) found)
  | inr new ↦
      rw new
        (find-append_miss (λ n. n.workflow.id =ₛ m.workflow.id) m rows new (=ₛ_refl m.workflow.id))
]

pub upsert_workflow-Written :
    (now : ℕ) (w : Workflow) (db db' : Db)
    → upsert_workflow now w db ≡ (db', ok tt)
    → Written w (get_workflow db' w.id)
unfolding upsert_workflow get_workflow
upsert_workflow-Written now w db db' e =
    let v : Workflow = record w {
      created_at = if w.created_at == 0 then now else w.created_at;
      updated_at = if w.updated_at == 0 then now else w.updated_at;
    } in
    elim (Bool-cases (taken v db.workflows)) [
      | inl clash ↦ let k = rw (clash, upsert_workflow) at e in cc
      | inr free ↦
          let k = rw (free, upsert_workflow) at e in
          subst (λ (x : Db). Written w (get_workflow x w.id))
            (ap (λ (x : Db × Result StoreError (Unit {0})). x.0) k)
            (put_workflow-Written v db.workflows)
    ]

pub notify-find :
    (id : String) (m : Managed) (d : Daemon)
    → find (λ n. n.workflow.id =ₛ id) d.workflows ≡ some m
    → get_managed_by_id (notify id d) id ≡ ok (record m { notified = true })
unfolding notify get_managed_by_id
notify-find id m d found =
    rw
      (
        find-update_hit (λ n. n.workflow.id =ₛ id) (λ n. record n { notified = true }) m d.workflows
            (λ x h. h) found,
        get_managed_by_id,
      )
      refl
