-- ===== src/Tests/Modules.antt =====
-- runtime.go: modules that `require` loads, in a file system with one module of the workflow.
use Prim.Native.String.{◌++◌}
use lumn.Base.{
  ℕ, zero, suc, String, ◌≡◌, refl, sym, ap, ◌∙◌, inl, inr, [], ◌∷◌, length, ◌=ₛ◌, Result, ok, err,
  if◌then◌else◌, Bool-cases, eq_iff,
}
use lumn.Base.Text.{codes, has_prefix}
use lumn.Errkind.{GoError, plain}
use lumn.Engine.{Files, file, missing}
use lumn.Lua.Modules.{Paths, Contained, resolve_module_path, resolve_module_path-Contained}

abbrev drop_text : ℕ → String → String
drop_text zero s = s
drop_text (suc n) String.[] = ""
drop_text (suc n) (String.◌∷◌ c s) = drop_text n s

-- The rest of a path behind a root, which has no separator at its end.
abbrev behind : String → String → String
behind root p = drop_text (suc (length (codes root))) p

abbrev flat_files : Files
flat_files = record {
  abs = λ p. ok p;
  stat = λ p. if p =ₛ "/w/x/lib/log.lua" then file else missing;
  join = λ root p. root ++ "/" ++ p;
  dir = λ p. p;
  base = λ p. p;
  ext = λ p. p;
  clean = λ p. p;
  glob = λ p. ok [];
  getwd = ok "/w";
}

abbrev flat : Paths
flat = record {
  files = flat_files;
  rel = λ root p.
      if root ++ "/" ++ behind root p =ₛ p then ok (behind root p) else err (plain "outside");
  is_abs = λ p. has_prefix p "/";
  quote = λ s. s;
}

flat_join-rel :
    (root p r : String) → flat.rel root p ≡ ok r → flat.files.join root r ≡ flat.files.clean p
flat_join-rel root p r h = elim (Bool-cases (root ++ "/" ++ behind root p =ₛ p)) [
  | inl same ↦
      ap (λ x. root ++ "/" ++ x) (sym (ok_injective (rw same at h)))
      ∙ (eq_iff (root ++ "/" ++ behind root p) p).0 same
  | inr other ↦ let k = rw other at h in cc
]
  where
    ok_injective : {a b : String} → (◌≡◌ {A = Result GoError String} (ok a) (ok b)) → a ≡ b
    ok_injective e = cc

flat_clean-abs : (p q : String) → flat.files.abs p ≡ ok q → flat.files.clean q ≡ q
flat_clean-abs p q h = refl

modules_test :
    (resolve_module_path flat "x" "/w/x" "/w/shared" "lib.log" ≡ ok "/w/x/lib/log.lua")
    × (resolve_module_path flat "x" "/w/x" "" "lib.none"
        ≡ err (plain "module lib.none could not be resolved inside x"))
unfolding resolve_module_path
modules_test = (refl, refl)

resolve_module_path-Contained_example :
    Contained flat
      ("/w/x" ∷ "/w/shared" ∷ [])
      (resolve_module_path flat "x" "/w/x" "/w/shared" "lib.log")
resolve_module_path-Contained_example =
    resolve_module_path-Contained flat flat_join-rel flat_clean-abs "x" "/w/x" "/w/shared" "lib.log"
