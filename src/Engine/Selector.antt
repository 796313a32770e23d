-- ===== src/Engine/Selector.antt =====
-- engine.go: `ResolveTarget` and `ResolveLocalSelector` agree.
use lumn.Base.{String, ◌≡◌, inl, inr, Result, ok, err, ◌=ₛ◌, Bool-cases}
use lumn.Errkind.{GoError}
use lumn.Engine.{
  Target, Files, Stat, file, directory, missing, failing, resolve_target, resolve_local_selector,
  resolve_directory_target, resolve_file_target, resolve_with_suffix, generic_error, not_found,
}

module _ (files : Files) (input : String) (target : Target) where
  by_target :
      (r s : Result GoError Target) → r ≡ ok target → elim r [ ok t ↦ ok t | err e ↦ s ] ≡ ok target
  by_target (ok t) s h = h
  by_target (err e) s h = cc

  by_stat :
      (abs_input : String) (s : Stat)
      → elim s [
        | missing ↦ err (not_found "workflow not found")
        | failing e ↦ err (not_found "workflow not found")
        | directory ↦ resolve_directory_target files abs_input input
        | file ↦ resolve_file_target files abs_input input
      ]
        ≡ ok target
      → elim s [
        | directory ↦ elim (resolve_directory_target files abs_input input) [
          | ok t ↦ ok t
          | err e ↦ resolve_with_suffix files input
        ]
        | file ↦ resolve_file_target files abs_input input
        | missing ↦ resolve_with_suffix files input
        | failing e ↦ err (generic_error e)
      ]
        ≡ ok target
  by_stat abs_input missing h = cc
  by_stat abs_input (failing e) h = cc
  by_stat abs_input directory h =
      by_target (resolve_directory_target files abs_input input) (resolve_with_suffix files input) h
  by_stat abs_input file h = h

  by_abs :
      (r : Result GoError String)
      → elim r [
        | err e ↦ err (generic_error e)
        | ok abs_input ↦ elim (files.stat abs_input) [
          | missing ↦ err (not_found "workflow not found")
          | failing e ↦ err (not_found "workflow not found")
          | directory ↦ resolve_directory_target files abs_input input
          | file ↦ resolve_file_target files abs_input input
        ]
      ]
        ≡ ok target
      → elim r [
        | err e ↦ err (generic_error e)
        | ok abs_input ↦ elim (files.stat abs_input) [
          | directory ↦ elim (resolve_directory_target files abs_input input) [
            | ok t ↦ ok t
            | err e ↦ resolve_with_suffix files input
          ]
          | file ↦ resolve_file_target files abs_input input
          | missing ↦ resolve_with_suffix files input
          | failing e ↦ err (generic_error e)
        ]
      ]
        ≡ ok target
  by_abs (err e) h = cc
  by_abs (ok abs_input) h = by_stat abs_input (files.stat abs_input) h

-- Wherever `ResolveTarget` finds a target, `ResolveLocalSelector` finds the same one.
pub resolve_local_selector-resolve :
    (files : Files) (input : String) (target : Target)
    → resolve_target files input ≡ ok target
    → resolve_local_selector files input ≡ ok target
unfolding resolve_target resolve_local_selector
resolve_local_selector-resolve files input target h = elim (Bool-cases (input =ₛ "")) [
  | inl default ↦ rw (default, resolve_local_selector) (rw (default, resolve_target) at h)
  | inr given ↦
      rw (given, resolve_local_selector)
        (by_abs files input target (files.abs input) (rw (given, resolve_target) at h))
]
