-- ===== src/Store/Selector/Prefix.antt =====
-- store.go: LIKE against the prefix that the documentation speaks of.
use lumn.Base.{
  ℕ, ◌≡◌, refl, ◌≢◌, true, List, [], ◌∷◌, ◌++◌, arith, All, Bool, String, sym, subst, none, some,
  ok, err, map, select,
}
use lumn.Base.Text.{codes, is_prefix}
use lumn.Base.Sort.{sort_by, text_lt}
use lumn.Store.{Db, Workflow, ambiguous_prefix}
use lumn.Store.Selector.{Resolved, like, fold_case, id_like, pick_by_prefix, resolve_by_id_prefix}

-- A character that stands for itself in a pattern, whatever the case.
abbrev pub IsPlain : ℕ → Type 0
IsPlain c = (c ≢ b'%') × (c ≢ b'_') × (fold_case c ≡ c)

-- A character that folding leaves alone.
abbrev pub IsFolded : ℕ → Type 0
IsFolded c = fold_case c ≡ c

like_all : (text : List ℕ) → like (b'%' ∷ []) text ≡ true
unfolding like
like_all [] = refl
like_all (d ∷ text) = ground (arith, like_all text)

like-eq-is_prefix :
    (p text : List ℕ)
    → All IsPlain p
    → All IsFolded text
    → like (p ++ b'%' ∷ []) text ≡ is_prefix p text
unfolding like is_prefix
like-eq-is_prefix [] text h k = like_all text
like-eq-is_prefix (c ∷ p) [] h k = ground arith
like-eq-is_prefix (c ∷ p) (d ∷ text) h k = ground (arith, like-eq-is_prefix p text h.1 k.1)

select_same :
    (p q : Workflow → Bool) (rows : List Workflow)
    → All (λ w. p w ≡ q w) rows
    → select p rows ≡ select q rows
select_same p q [] h = refl
select_same p q (w ∷ rows) h = rw (h.0, select_same p q rows h.1) refl

like_rows :
    (selector : String) (rows : List Workflow)
    → All IsPlain (codes selector)
    → All (λ w. All IsFolded (codes w.id)) rows
    → All (λ w. id_like selector w.id ≡ is_prefix (codes selector) (codes w.id)) rows
unfolding id_like
like_rows selector [] plain folded = tt
like_rows selector (w ∷ rows) plain folded = (
  like-eq-is_prefix (codes selector) (codes w.id) plain folded.0,
  like_rows selector rows plain folded.1,
)

-- The registered workflows whose id begins with the selector, in the order of their ids.
abbrev pub prefixed : String → Db → List Workflow
prefixed selector db =
    sort_by (λ a b. text_lt a.id b.id)
      (select (λ w. is_prefix (codes selector) (codes w.id)) db.workflows)

-- What a selector finds among candidates: nothing, the only one, or an error that names them all.
abbrev pub Finds : String → List Workflow → Resolved → Type 0
Finds selector [] found = found ≡ ok none
Finds selector (w ∷ []) found = found ≡ ok (some w)
Finds selector (w ∷ v ∷ rest) found =
    found ≡ err (ambiguous_prefix selector (map (λ u. u.id) (w ∷ v ∷ rest)))

pick_by_prefix-Finds :
    (selector : String) (rows : List Workflow) → Finds selector rows (pick_by_prefix selector rows)
unfolding pick_by_prefix
pick_by_prefix-Finds selector [] = refl
pick_by_prefix-Finds selector (w ∷ []) = refl
pick_by_prefix-Finds selector (w ∷ v ∷ rest) = refl

-- On a selector with no wildcard and no capital letter, and a table of ids with no capital letter,
-- resolveWorkflowByIDPrefix finds the only workflow whose id begins with the selector; where there is
-- none it finds none, and where there are several its error names their ids in their order.
pub resolve_by_id_prefix-Finds :
    (db : Db) (selector : String)
    → All IsPlain (codes selector)
    → All (λ w. All IsFolded (codes w.id)) db.workflows
    → Finds selector (prefixed selector db) (resolve_by_id_prefix db selector)
unfolding resolve_by_id_prefix
resolve_by_id_prefix-Finds db selector plain folded =
    let same =
      select_same (λ w. id_like selector w.id) (λ w. is_prefix (codes selector) (codes w.id))
        db.workflows (like_rows selector db.workflows plain folded) in
    subst
      (λ rows.
        Finds selector (prefixed selector db)
          (pick_by_prefix selector (sort_by (λ a b. text_lt a.id b.id) rows)))
      (sym same) (pick_by_prefix-Finds selector (prefixed selector db))
