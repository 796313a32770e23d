-- ===== src/Store/Selector.antt =====
-- store.go: `ResolveWorkflowSelector`, by id, by name, and by a prefix of the id.
pub mod Prefix
pub mod Latest
use lumn.Base.{
  ℕ, ◌+◌, String, Bool, true, false, ◌&&◌, ◌||◌, Option, none, some, List, [], ◌∷◌, ◌++◌, map, ltb,
  leb, ◌==◌, ◌=ₛ◌, Result, ok, err, if◌then◌else◌, select,
}
use lumn.Base.Text.{codes}
use lumn.Store.{Workflow, Db, StoreError, ambiguous_name, ambiguous_prefix}
use lumn.Base.Sort.{sort_by, text_lt}
use lumn.Store.Workflows.{get_workflow}

-- What a selector resolves to: the second result `false` of the source is `none`.
abbrev pub Resolved : Type 0
Resolved = Result StoreError (Option Workflow)

abbrev pub is_latest : Workflow → Bool
is_latest w = w.version =ₛ "latest"

-- `CASE WHEN version = 'latest' THEN 0 ELSE 1 END`.
abbrev pub version_rank : Workflow → ℕ
version_rank w = if is_latest w then 0 else 1

-- `ORDER BY CASE …, updated_at DESC, id`.
abbrev pub latest_first : Workflow → Workflow → Bool
latest_first a b =
    ltb (version_rank a) (version_rank b)
    || (version_rank a == version_rank b
        && (ltb b.updated_at a.updated_at || (a.updated_at == b.updated_at && text_lt a.id b.id)))

-- What `resolveWorkflowByName` makes of its rows.
unfoldable pub pick_by_name : String → List Workflow → Resolved
pick_by_name selector [] = ok none
pick_by_name selector (w ∷ []) = ok (some w)
pick_by_name selector (w ∷ v ∷ rest) =
    if is_latest w then ok (some w) else err (ambiguous_name selector)

-- `resolveWorkflowByName`.
unfoldable pub resolve_by_name : Db → String → Resolved
unfolding pick_by_name sort_by
resolve_by_name db selector =
    pick_by_name selector (sort_by latest_first (select (λ w. w.name =ₛ selector) db.workflows))

-- The case that LIKE ignores is that of the letters of ASCII.
abbrev pub fold_case : ℕ → ℕ
fold_case c = if leb b'A' c && leb c b'Z' then c + 32 else c

-- `text LIKE pattern` of SQLite: `%` stands for any text, `_` for one character.
unfoldable pub like : List ℕ → List ℕ → Bool
like [] [] = true
like [] (d ∷ text) = false
like (c ∷ pattern) [] = if c == b'%' then like pattern [] else false
like (c ∷ pattern) (d ∷ text) =
    let stop = like pattern (d ∷ text) in
    let skip = like (c ∷ pattern) text in
    let step = like pattern text in
    if c == b'%'
    then stop || skip
    else if c == b'_' || fold_case c == fold_case d
    then step
    else false

-- `id LIKE ?1 || '%'`.
unfoldable pub id_like : String → String → Bool
unfolding like codes
id_like selector id = like (codes selector ++ b'%' ∷ []) (codes id)

-- What `resolveWorkflowByIDPrefix` makes of its rows.
unfoldable pub pick_by_prefix : String → List Workflow → Resolved
pick_by_prefix selector [] = ok none
pick_by_prefix selector (w ∷ []) = ok (some w)
pick_by_prefix selector (w ∷ v ∷ rest) =
    err (ambiguous_prefix selector (map (λ u. u.id) (w ∷ v ∷ rest)))

-- `resolveWorkflowByIDPrefix`.
unfoldable pub resolve_by_id_prefix : Db → String → Resolved
unfolding pick_by_prefix sort_by id_like
resolve_by_id_prefix db selector =
    pick_by_prefix selector
      (sort_by (λ a b. text_lt a.id b.id) (select (λ w. id_like selector w.id) db.workflows))

-- A lookup that found nothing goes on to the next one.
abbrev pub or_else : Resolved → Resolved → Resolved
or_else (ok none) next = next
or_else (ok (some w)) next = ok (some w)
or_else (err e) next = err e

-- `ResolveWorkflowSelector`.
unfoldable pub resolve_workflow_selector : Db → String → Resolved
unfolding get_workflow resolve_by_name resolve_by_id_prefix
resolve_workflow_selector db selector =
    or_else (ok (get_workflow db selector))
      (or_else (resolve_by_name db selector) (resolve_by_id_prefix db selector))
