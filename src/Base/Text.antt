-- ===== src/Base/Text.antt =====
-- Go's `strings` functions on texts, by the characters: `HasPrefix`, `HasSuffix`, `Contains`.
use Prim.Native.Char.{code}
use Prim.Native.Nat.{ℕ}
use Prim.Native.String.{String, ◌++◌}
use text.Mathlib.TextLemmas.{cons-append, nil-append}
use native.Mathlib.Omega.{arith}
use mathlib.Core.Path.{◌≡◌, refl, ap}
use mathlib.Core.Option.{Option, none, some}
use mathlib.Core.Bool.{Bool, true, false, ◌||◌}
use mathlib.Core.List.{List, [], ◌∷◌, reverse}
use lumn.Base.Tests.{◌==◌, if◌then◌else◌}

-- The code points of a text.
unfoldable pub codes : String → List ℕ
codes String.[] = []
codes (String.◌∷◌ c s) = code c ∷ codes s

-- `p` is a prefix of the second list.
unfoldable pub is_prefix : List ℕ → List ℕ → Bool
is_prefix [] s = true
is_prefix (c ∷ p) [] = false
is_prefix (c ∷ p) (d ∷ s) = if c == d then is_prefix p s else false

unfoldable pub has_prefix : String → String → Bool
unfolding codes is_prefix
has_prefix s p = is_prefix (codes p) (codes s)

unfoldable pub has_suffix : String → String → Bool
unfolding codes is_prefix
has_suffix s p = is_prefix (reverse (codes p)) (reverse (codes s))

contains_from : List ℕ → List ℕ → Bool
contains_from p [] = is_prefix p []
contains_from p (d ∷ s) = is_prefix p (d ∷ s) || contains_from p s

unfoldable pub contains : String → String → Bool
unfolding codes is_prefix contains_from
contains s p = contains_from (codes p) (codes s)

-- What `strings.TrimPrefix` leaves, if the prefix is there.
without_prefix : String → String → Option String
without_prefix String.[] s = some s
without_prefix (String.◌∷◌ c p) String.[] = none
without_prefix (String.◌∷◌ c p) (String.◌∷◌ d s) =
    let rest = without_prefix p s in if code c == code d then rest else none

unfoldable pub trim_prefix : String → String → String
unfolding without_prefix
trim_prefix s p = elim (without_prefix p s) [ none ↦ s | some rest ↦ rest ]

without_prefix-append : (p s : String) → without_prefix p (p ++ s) ≡ some s
unfolding without_prefix
without_prefix-append String.[] s = ap some (nil-append s)
without_prefix-append (String.◌∷◌ c p) s =
    rw (cons-append c p s) (ground (arith, without_prefix-append p s))

pub trim_prefix-append : (p s : String) → trim_prefix (p ++ s) p ≡ s
unfolding trim_prefix
trim_prefix-append p s = rw (without_prefix-append p s, trim_prefix) refl

pub has_prefix-append : (p s : String) → has_prefix (p ++ s) p ≡ true
unfolding has_prefix
has_prefix-append String.[] s = refl
has_prefix-append (String.◌∷◌ c p) s =
    rw (cons-append c p s) (ground (arith, has_prefix-append p s))

prefix_suffix_test :
    (has_prefix "/hooks/a" "/hooks/" ≡ true)
    × (has_suffix "500ms" "ms" ≡ true)
    × (has_suffix "5h" "ms" ≡ false)
    × (contains "workflow not found" "not found" ≡ true)
unfolding has_prefix has_suffix contains
prefix_suffix_test = (refl, refl, refl, refl)
