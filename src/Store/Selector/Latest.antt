-- ===== src/Store/Selector/Latest.antt =====
-- store.go: a name that several versions bear.
use lumn.Base.{
  String, ◌≡◌, refl, true, some, List, [], ◌∷◌, arith, ok, ◌=ₛ◌, select, exists, Bool-cases, inl,
  inr, ◌∙◌,
}
use lumn.Store.{Workflow, Db}
use lumn.Base.Sort.{insert_sorted, sort_by}
use lumn.Store.Selector.{is_latest, latest_first, pick_by_name, resolve_by_name}

-- The first row is the latest version if any row is.
abbrev LatestLeads : List Workflow → Type 0
LatestLeads [] = Unit
LatestLeads (w ∷ rest) = exists is_latest (w ∷ rest) ≡ true → is_latest w ≡ true

exists-insert_sorted :
    (a : Workflow) (l : List Workflow)
    → exists is_latest (insert_sorted latest_first a l) ≡ exists is_latest (a ∷ l)
unfolding insert_sorted
exists-insert_sorted a [] = refl
exists-insert_sorted a (b ∷ l) = ground (arith, exists-insert_sorted a l)

insert_sorted-LatestLeads :
    (a : Workflow) (l : List Workflow)
    → LatestLeads l
    → LatestLeads (insert_sorted latest_first a l)
unfolding insert_sorted
insert_sorted-LatestLeads a [] h = λ e. ground arith
insert_sorted-LatestLeads a (b ∷ l) h = elim (Bool-cases (latest_first b a)) [
  | inl first ↦ rw first (λ e. ground (arith, exists-insert_sorted a l, h))
  | inr second ↦ rw second (λ e. ground (arith, h))
]

sort_by-LatestLeads : (l : List Workflow) → LatestLeads (sort_by latest_first l)
unfolding sort_by
sort_by-LatestLeads [] = tt
sort_by-LatestLeads (a ∷ l) =
    insert_sorted-LatestLeads a (sort_by latest_first l) (sort_by-LatestLeads l)

exists-sort_by :
    (l : List Workflow) → exists is_latest (sort_by latest_first l) ≡ exists is_latest l
unfolding sort_by
exists-sort_by [] = refl
exists-sort_by (a ∷ l) =
    ground (arith, exists-insert_sorted a (sort_by latest_first l), exists-sort_by l)

pick-latest :
    (selector : String) (l : List Workflow)
    → LatestLeads l
    → exists is_latest l ≡ true
    → (w : Workflow) × (pick_by_name selector l ≡ ok (some w)) × (is_latest w ≡ true)
unfolding pick_by_name
pick-latest selector [] h e = cc
pick-latest selector (w ∷ []) h e = (w, refl, h e)
pick-latest selector (w ∷ v ∷ l) h e = (w, rw (h e) refl, h e)

-- If a workflow of the given name has the version "latest", the name resolves, without any complaint
-- of ambiguity, to a row with that version.
pub resolve_by_name-latest :
    (db : Db) (name : String)
    → exists is_latest (select (λ w. w.name =ₛ name) db.workflows) ≡ true
    → (w : Workflow) × (resolve_by_name db name ≡ ok (some w)) × (is_latest w ≡ true)
unfolding resolve_by_name
resolve_by_name-latest db name e =
    let rows = select (λ w. w.name =ₛ name) db.workflows in
    pick-latest name (sort_by latest_first rows) (sort_by-LatestLeads rows)
      (exists-sort_by rows ∙ e)
