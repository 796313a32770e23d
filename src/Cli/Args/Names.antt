-- ===== src/Cli/Args/Names.antt =====
-- cli.go: `splitNameVersion`.
use Prim.Native.Char.{Char, code}
use Prim.Native.String.{◌++◌}
use text.Mathlib.TextLemmas.{cons-append, nil-append}
use lumn.Base.{
  String, ◌≡◌, refl, sym, ◌≢◌, ap, ◌∙◌, false, Option, none, some, arith, ◌==◌, ◌=ₛ◌, if◌then◌else◌,
  eq_iff, Bool-cases, inl, inr,
}

abbrev prepend : Char → Option (String × String) → Option (String × String)
prepend c none = none
prepend c (some (before, after)) = some (String.◌∷◌ c before, after)

-- `strings.Cut(raw, ":")`.
unfoldable pub cut_colon : String → Option (String × String)
cut_colon String.[] = none
cut_colon (String.◌∷◌ c s) = if code c == b':' then some (String.[], s) else prepend c (cut_colon s)

abbrev cut_or_whole : String → Option (String × String) → String × String
cut_or_whole raw none = (raw, "")
cut_or_whole raw (some parts) = parts

-- `splitNameVersion`.
unfoldable pub split_name_version : String → String × String
unfolding cut_colon
split_name_version raw = if raw =ₛ "" then ("", "") else cut_or_whole raw (cut_colon raw)

-- The text has no colon.
abbrev pub NoColon : String → Type 0
NoColon String.[] = Unit
NoColon (String.◌∷◌ c s) = (code c ≢ b':') × NoColon s

colon-append : (version : String) → (":" ++ version) ≡ String.◌∷◌ ":" version
colon-append version = cons-append ":" String.[] version ∙ ap (String.◌∷◌ ":") (nil-append version)

cut_colon-append :
    (name version : String)
    → NoColon name
    → cut_colon (name ++ (":" ++ version)) ≡ some (name, version)
unfolding cut_colon
cut_colon-append String.[] version h = rw (nil-append (":" ++ version), colon-append version) refl
cut_colon-append (String.◌∷◌ c name) version h =
    rw (cons-append c name (":" ++ version)) (ground (arith, cut_colon-append name version h.1))

cut_colon-none : (name : String) → NoColon name → cut_colon name ≡ none
unfolding cut_colon
cut_colon-none String.[] h = refl
cut_colon-none (String.◌∷◌ c name) h = ground (arith, cut_colon-none name h.1)

split_cut :
    (raw name version : String)
    → (raw =ₛ "") ≡ false
    → cut_colon raw ≡ some (name, version)
    → split_name_version raw ≡ (name, version)
unfolding split_name_version
split_cut raw name version nonempty e = rw (nonempty, e) refl

-- Splitting undoes `name:version`: a name with no colon comes back whole, and the version too,
-- whatever colons it has; a text with no colon is the name, with no version.
pub split_name_version-join :
    (name version : String)
    → NoColon name
    → (split_name_version (name ++ (":" ++ version)) ≡ (name, version))
      × (split_name_version name ≡ (name, ""))
unfolding split_name_version
split_name_version-join name version h = (
  joined,
  elim (Bool-cases (name =ₛ "")) [
    | inl e ↦ rw e (ap (λ (s : String). (s, "")) (sym ((eq_iff name "").0 e)))
    | inr e ↦ rw (e, cut_colon-none name h) refl
  ],
)
  where
    joined : split_name_version (name ++ (":" ++ version)) ≡ (name, version)
    joined = elim (Bool-cases ((name ++ (":" ++ version)) =ₛ "")) [
      | inl e ↦
          let clash : none ≡ some (name, version) =
            sym (ap cut_colon ((eq_iff (name ++ (":" ++ version)) "").0 e))
            ∙ cut_colon-append name version h in
          cc clash
      | inr e ↦ split_cut _ name version e (cut_colon-append name version h)
    ]
