-- ===== src/Engine/Workspace.antt =====
-- engine.go: `inferWorkspaceDir` walks up to the nearest directory with a marker.
use lumn.Base.{
  ℕ, zero, suc, ◌<◌, String, ◌≡◌, refl, ◌⊎◌, inl, inr, Bool, true, false, Result, ok, err, length,
  ◌=ₛ◌, if◌then◌else◌, Bool-cases, Result-cases, arith,
}
use lumn.Base.Text.{codes}
use lumn.Errkind.{GoError}
use lumn.Engine.{
  Files, Walk, found, failed, at_root, out_of_fuel, has_workspace_marker, walk_up,
  infer_workspace_dir,
}

-- From a directory upwards: the first one that has a marker or whose files cannot be read, or the
-- root, where there is none.
pub data Nearest (files : Files) : String → Walk → Type 0 where
  here : (d : String) → has_workspace_marker files d ≡ ok true → Nearest files d (found d)
  broken :
      (d : String) (e : GoError) → has_workspace_marker files d ≡ err e → Nearest files d (failed e)
  root :
      (d : String)
      → has_workspace_marker files d ≡ ok false
      → (files.dir d =ₛ d) ≡ true
      → Nearest files d at_root
  up :
      (d : String) (w : Walk)
      → has_workspace_marker files d ≡ ok false
      → (files.dir d =ₛ d) ≡ false
      → Nearest files (files.dir d) w
      → Nearest files d w

-- The directory above, where nothing marks a workspace.
abbrev pub fallback_dir : Files → String → String
fallback_dir files dir = let parent = files.dir dir in if parent =ₛ "" then dir else parent

abbrev pub Inferred : Files → String → Result GoError String → Type 0
Inferred files dir (ok workspace) =
    Nearest files dir (found workspace)
    ⊎ (Nearest files dir at_root × (workspace ≡ fallback_dir files dir))
Inferred files dir (err e) = Nearest files dir (failed e)

-- `filepath.Dir` of an absolute path is absolute, and shorter but at the root.
module _ (files : Files) (is_abs : String → Bool)
    (dir_shorter : (p : String)
      → is_abs p ≡ true
      → (is_abs (files.dir p) ≡ true)
        × ((files.dir p =ₛ p) ≡ false → length (codes (files.dir p)) < length (codes p))) where
  walk_up-Nearest :
      (fuel : ℕ) (d : String)
      → is_abs d ≡ true
      → length (codes d) < fuel
      → Nearest files d (walk_up files fuel d)
  unfolding walk_up
  walk_up-Nearest zero d absolute enough = absurd (omega (arith, enough))
  walk_up-Nearest (suc fuel) d absolute enough =
      let (parent_absolute, shorter) = dir_shorter d absolute in
      elim (Result-cases (has_workspace_marker files d)) [
        | inr (e, bad) ↦ rw (bad, walk_up) (Nearest.broken d e bad)
        | inl (true, marked) ↦ rw (marked, walk_up) (Nearest.here d marked)
        | inl (false, bare) ↦ elim (Bool-cases (files.dir d =ₛ d)) [
          | inl top ↦ rw (bare, top, walk_up) (Nearest.root d bare top)
          | inr below ↦
              let less = shorter below in
              rw (bare, below, walk_up)
                (Nearest.up d (walk_up files fuel (files.dir d)) bare below
                  (walk_up-Nearest fuel (files.dir d) parent_absolute (omega arith)))
        ]
      ]

  -- The walk never stops for want of fuel.
  Nearest-ends : (d : String) (w : Walk) → Nearest files d w → w ≡ out_of_fuel → ⊥
  Nearest-ends d w (Nearest.here d' marked) e = cc
  Nearest-ends d w (Nearest.broken d' x bad) e = cc
  Nearest-ends d w (Nearest.root d' bare top) e = cc
  Nearest-ends d w (Nearest.up d' w' bare below rest) e = Nearest-ends (files.dir d) w rest e

  after_walk :
      (d : String) (w : Walk)
      → Nearest files d w
      → Inferred files d (elim w [
        | found dir ↦ ok dir
        | failed e ↦ err e
        | at_root ↦ ok (fallback_dir files d)
        | out_of_fuel ↦ ok (fallback_dir files d)
      ])
  after_walk d (found dir) h = inl h
  after_walk d (failed e) h = h
  after_walk d at_root h = inr (h, refl)
  after_walk d out_of_fuel h = absurd (Nearest-ends d out_of_fuel h refl)

  -- The loop of `inferWorkspaceDir` ends on an absolute path, if the directory above an absolute path is
  -- absolute, and shorter but at the root: with the nearest directory at or above it
  -- that has a marker, or with the error of the first one whose files cannot be read below that, or at
  -- the root, and then the directory above the path is taken.
  pub infer_workspace_dir-Inferred :
      (d : String) → is_abs d ≡ true → Inferred files d (infer_workspace_dir files d)
  unfolding infer_workspace_dir
  infer_workspace_dir-Inferred d absolute =
      after_walk d (walk_up files (suc (length (codes d))) d)
        (walk_up-Nearest (suc (length (codes d))) d absolute (omega arith))
