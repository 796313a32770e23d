-- ===== src/Base/Sort.antt =====
-- `ORDER BY`: a list put in order by a test, and the order of texts.
use Prim.Native.Nat.{Ordering}
use Prim.Native.String.{String, compare}
use mathlib.Core.Path.{◌≡◌, refl}
use mathlib.Core.Logic.{inl, inr}
use mathlib.Core.Bool.{Bool, true, false}
use mathlib.Core.List.{List, [], ◌∷◌}
use native.Mathlib.Omega.{arith}
use lumn.Base.Tests.{if◌then◌else◌}
use lumn.Base.Lists.{In, select, length}

-- The order of texts: BINARY, which is that of their bytes.
abbrev pub text_lt : String → String → Bool
text_lt s t = elim (compare s t) [ Ordering.lt ↦ true | _ ↦ false ]

-- The test says which of two rows stands first; equal rows keep their order.
module _ {A : Type 0} (before : A → A → Bool) where
  unfoldable pub insert_sorted : A → List A → List A
  insert_sorted a [] = a ∷ []
  insert_sorted a (b ∷ l) = if before b a then b ∷ insert_sorted a l else a ∷ b ∷ l

  unfoldable pub sort_by : List A → List A
  unfolding insert_sorted
  sort_by [] = []
  sort_by (a ∷ l) = insert_sorted a (sort_by l)

  In-insert_cons :
      (a x b : A) (l : List A) (c : Bool)
      → (In a (insert_sorted x l) → In a (x ∷ l))
      → In a (if c then b ∷ insert_sorted x l else x ∷ b ∷ l)
      → In a (x ∷ b ∷ l)
  In-insert_cons a x b l true f (inl e) = inr (inl e)
  In-insert_cons a x b l true f (inr m) = elim (f m) [ inl e ↦ inl e | inr k ↦ inr (inr k) ]
  In-insert_cons a x b l false f m = m

  In-insert_sorted : (a x : A) (l : List A) → In a (insert_sorted x l) → In a (x ∷ l)
  unfolding insert_sorted
  In-insert_sorted a x [] m = m
  In-insert_sorted a x (b ∷ l) m = In-insert_cons a x b l (before b x) (In-insert_sorted a x l) m

  -- Sorting makes no row up.
  pub In-sort_by : (a : A) (l : List A) → In a (sort_by l) → In a l
  unfolding sort_by
  In-sort_by a [] m = m
  In-sort_by a (x ∷ l) m = elim (In-insert_sorted a x (sort_by l) m) [
    | inl e ↦ inl e
    | inr k ↦ inr (In-sort_by a l k)
  ]

  -- How many rows pass a test does not depend on their order.
  length-select-insert :
      (p : A → Bool) (x : A) (l : List A)
      → length (select p (insert_sorted x l)) ≡ length (select p (x ∷ l))
  unfolding insert_sorted
  length-select-insert p x [] = refl
  length-select-insert p x (b ∷ l) = ground (arith, length-select-insert p x l)

  pub length-select-sort_by :
      (p : A → Bool) (l : List A) → length (select p (sort_by l)) ≡ length (select p l)
  unfolding sort_by
  length-select-sort_by p [] = refl
  length-select-sort_by p (x ∷ l) =
      ground (arith, length-select-insert p x (sort_by l), length-select-sort_by p l)

  insert_sorted-In : (a x : A) (l : List A) → In a (x ∷ l) → In a (insert_sorted x l)
  unfolding insert_sorted
  insert_sorted-In a x [] m = m
  insert_sorted-In a x (b ∷ l) (inl e) = go (before b x) (insert_sorted-In a x l (inl e))
    where
      go :
          (c : Bool)
          → In a (insert_sorted x l)
          → In a (if c then b ∷ insert_sorted x l else x ∷ b ∷ l)
      go true k = inr k
      go false k = inl e
  insert_sorted-In a x (b ∷ l) (inr (inl e)) = go (before b x)
    where
      go : (c : Bool) → In a (if c then b ∷ insert_sorted x l else x ∷ b ∷ l)
      go true = inl e
      go false = inr (inl e)
  insert_sorted-In a x (b ∷ l) (inr (inr m)) = go (before b x) (insert_sorted-In a x l (inr m))
    where
      go :
          (c : Bool)
          → In a (insert_sorted x l)
          → In a (if c then b ∷ insert_sorted x l else x ∷ b ∷ l)
      go true k = inr k
      go false k = inr (inr m)

  -- Sorting loses no row.
  pub sort_by-In : (a : A) (l : List A) → In a l → In a (sort_by l)
  unfolding sort_by
  sort_by-In a [] m = m
  sort_by-In a (x ∷ l) (inl e) = insert_sorted-In a x (sort_by l) (inl e)
  sort_by-In a (x ∷ l) (inr m) = insert_sorted-In a x (sort_by l) (inr (sort_by-In a l m))
