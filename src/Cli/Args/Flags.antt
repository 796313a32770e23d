-- ===== src/Cli/Args/Flags.antt =====
-- cli.go: `extractTargetFlag` and `parseRunArgs`, whatever the order of the arguments.
use lumn.Base.{
  String, ◌≡◌, refl, ◌⊎◌, inl, inr, List, [], ◌∷◌, ◌++◌, ◌=ₛ◌, Result, ok, err, All, ◌∙◌, ap,
  eq_iff, ◌>>=◌, Bool-cases,
}
use lumn.Cli.Args.{
  flag, positional, token, extract_from, extract_target_flag, add_positional, Extracted, run_parts,
  parse_run_args, or_usage,
}

abbrev pub IsPositional : String → Type 0
IsPositional arg = token arg ≡ positional

abbrev add_all : List String → Extracted → Extracted
add_all [] r = r
add_all (arg ∷ rest) r = add_positional arg (add_all rest r)

add_all-ok :
    (before after : List String) (target : String)
    → add_all before (ok (target, after)) ≡ ok (target, before ++ after)
add_all-ok [] after target = refl
add_all-ok (arg ∷ before) after target = rw (add_all-ok before after target) refl

extract-All_positional :
    (target : String) (args : List String)
    → All IsPositional args
    → extract_from target args ≡ ok (target, args)
unfolding extract_from
extract-All_positional target [] h = refl
extract-All_positional target (arg ∷ []) h = rw (h.0, extract_from) refl
extract-All_positional target (arg ∷ b ∷ rest) h =
    rw (h.0, extract_from) (ap (add_positional arg) (extract-All_positional target (b ∷ rest) h.1))

-- Arguments that are no flags are gathered in front of what follows, a flag with its value.
extract-positionals :
    (target value : String) (before after : List String)
    → token "-f" ≡ flag
    → All IsPositional before
    → extract_from target (before ++ "-f" ∷ value ∷ after)
      ≡ add_all before (extract_from value after)
unfolding extract_from
extract-positionals target value [] after f h = rw (f, extract_from) refl
extract-positionals target value (arg ∷ []) after f h =
    rw (h.0, extract_from)
      (ap (add_positional arg) (extract-positionals target value [] after f tt))
extract-positionals target value (arg ∷ b ∷ before) after f h =
    rw (h.0, extract_from)
      (ap (add_positional arg) (extract-positionals target value (b ∷ before) after f h.1))

token_flag : token "-f" ≡ flag
unfolding token
token_flag = refl

-- Wherever `-f value` stands among arguments that are no flags, the target is the value and the
-- positionals are the others, in their order.
pub extract_target_flag-anywhere :
    (value : String) (before after : List String)
    → All IsPositional before
    → All IsPositional after
    → extract_target_flag (before ++ "-f" ∷ value ∷ after) ≡ ok (value, before ++ after)
unfolding extract_target_flag
extract_target_flag-anywhere value before after h k =
    extract-positionals "" value before after token_flag h
    ∙ ap (add_all before) (extract-All_positional value after k)
    ∙ add_all-ok before after value

abbrev pub Exclusive : Result String (String × String) → Type 0
Exclusive (ok (selector, target)) = (selector ≡ "") ⊎ (target ≡ "")
Exclusive (err e) = Unit

run_parts-Exclusive : (parts : String × List String) → Exclusive (run_parts parts)
unfolding run_parts
run_parts-Exclusive (target, []) = inl refl
run_parts-Exclusive (target, selector ∷ []) = elim (Bool-cases (target =ₛ "")) [
  | inl e ↦ rw e (inr ((eq_iff target "").0 e))
  | inr e ↦ rw e tt
]
run_parts-Exclusive (target, a ∷ b ∷ rest) = tt

usage-Exclusive : (r : Extracted) → Exclusive (or_usage "run" r >>= run_parts)
usage-Exclusive (ok parts) = run_parts-Exclusive parts
usage-Exclusive (err e) = tt

-- `lumn run` never gets both a selector and a target: one of the two that `parseRunArgs` returns is
-- empty, whatever the arguments.
pub parse_run_args-Exclusive : (args : List String) → Exclusive (parse_run_args args)
unfolding parse_run_args
parse_run_args-Exclusive args = usage-Exclusive (extract_target_flag args)
