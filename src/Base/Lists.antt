-- ===== src/Base/Lists.antt =====
-- Lists measured by native numbers and searched by Boolean tests.
use Prim.Native.Nat.{ℕ, zero, suc, ◌+◌, ◌≤◌}
use mathlib.Core.Path.{◌≡◌, refl, sym, ap, subst, ◌∙◌}
use mathlib.Core.Logic.{◌⊎◌, inl, inr}
use mathlib.Core.Bool.{Bool, true, false, not}
use mathlib.Core.List.{map, List, [], ◌∷◌, ◌++◌}
use mathlib.Core.Option.{Option, none, some, some-injective}
use native.Mathlib.Omega.{arith}
use lumn.Base.Tests.{if◌then◌else◌, Bool-cases}

module _ {ℓ} {A : Type ℓ} where
  abbrev pub length : List A → ℕ
  length [] = 0
  length (x ∷ xs) = suc (length xs)

  abbrev pub get_elem? : List A → ℕ → Option A
  get_elem? [] i = none
  get_elem? (x ∷ xs) zero = some x
  get_elem? (x ∷ xs) (suc i) = get_elem? xs i

  abbrev pub take : ℕ → List A → List A
  take zero xs = []
  take (suc n) [] = []
  take (suc n) (x ∷ xs) = x ∷ take n xs

  abbrev pub drop : ℕ → List A → List A
  drop zero xs = xs
  drop (suc n) [] = []
  drop (suc n) (x ∷ xs) = drop n xs

  -- The rows that pass a test, in order.
  abbrev pub select : (A → Bool) → List A → List A
  select p [] = []
  select p (x ∷ xs) = if p x then x ∷ select p xs else select p xs

  -- The first row that passes a test.
  abbrev pub find : (A → Bool) → List A → Option A
  find p [] = none
  find p (x ∷ xs) = if p x then some x else find p xs

  -- Rewrites the rows that pass a test.
  abbrev pub update : (A → Bool) → (A → A) → List A → List A
  update p f [] = []
  update p f (x ∷ xs) = (if p x then f x else x) ∷ update p f xs

  abbrev pub exists : (A → Bool) → List A → Bool
  exists p [] = false
  exists p (x ∷ xs) = if p x then true else exists p xs

  -- A predicate on every element, by recursion.
  abbrev pub All {κ} : (A → Type κ) → List A → Type κ
  All P [] = Unit
  All P (x ∷ xs) = P x × All P xs

  pub length-append : (xs ys : List A) → length (xs ++ ys) ≡ length xs + length ys
  length-append [] ys = omega arith
  length-append (x ∷ xs) ys = omega (arith, length-append xs ys)

module _ {A : Type 0} where
  -- The element stands in the list.
  abbrev pub In : A → List A → Type 0
  In a [] = ⊥
  In a (x ∷ xs) = (a ≡ x) ⊎ In a xs

  In-select_cons :
      (a x : A) (b : Bool) (ys xs : List A)
      → (In a ys → In a xs)
      → In a (if b then x ∷ ys else ys)
      → In a (x ∷ xs)
  In-select_cons a x true ys xs f (inl e) = inl e
  In-select_cons a x true ys xs f (inr m) = inr (f m)
  In-select_cons a x false ys xs f m = inr (f m)

  -- What a selection keeps stood in the list.
  pub In-select : (a : A) (p : A → Bool) (xs : List A) → In a (select p xs) → In a xs
  In-select a p [] m = m
  In-select a p (x ∷ xs) m = In-select_cons a x (p x) (select p xs) xs (In-select a p xs) m

  find-In_cons :
      (p : A → Bool) (a x : A) (xs : List A) (b : Bool)
      → p x ≡ b
      → (find p xs ≡ some a → In a xs × (p a ≡ true))
      → (if b then some x else find p xs) ≡ some a
      → In a (x ∷ xs) × (p a ≡ true)
  find-In_cons p a x xs true hit ih e =
      let same = some-injective x a e in (inl (sym same), subst (λ y. p y ≡ true) same hit)
  find-In_cons p a x xs false miss ih e = let (m, h) = ih e in (inr m, h)

  -- What is found stands in the list and passes the test.
  pub find-In : (p : A → Bool) (a : A) (xs : List A) → find p xs ≡ some a → In a xs × (p a ≡ true)
  find-In p a [] e = cc
  find-In p a (x ∷ xs) e = find-In_cons p a x xs (p x) refl (find-In p a xs) e

module _ {ℓ κ} {A : Type ℓ} (P : A → Type κ) where
  pub All-append : (xs : List A) (y : A) → All P xs → P y → All P (xs ++ y ∷ [])
  All-append [] y h k = (k, tt)
  All-append (x ∷ xs) y h k = (h.0, All-append xs y h.1 k)

  All-select_cons :
      (x : A) (b : Bool) (ys : List A)
      → (b ≡ true → P x)
      → All P ys
      → All P (if b then x ∷ ys else ys)
  All-select_cons x true ys f h = (f refl, h)
  All-select_cons x false ys f h = h

  pub All-select : (p : A → Bool) (xs : List A) → All P xs → All P (select p xs)
  All-select p [] h = tt
  All-select p (x ∷ xs) h = All-select_cons x (p x) (select p xs) (λ _. h.0) (All-select p xs h.1)

  All-update_cons :
      (x y : A) (b : Bool) (ys : List A)
      → (b ≡ true → P y)
      → (b ≡ false → P x)
      → All P ys
      → All P ((if b then y else x) ∷ ys)
  All-update_cons x y true ys f g h = (f refl, h)
  All-update_cons x y false ys f g h = (g refl, h)

  pub All-update :
      (p : A → Bool) (f : A → A) (xs : List A)
      → ((a : A) → P a → P (f a))
      → All P xs
      → All P (update p f xs)
  All-update p f [] k h = tt
  All-update p f (x ∷ xs) k h =
      All-update_cons x (f x) (p x) (update p f xs) (λ _. k x h.0) (λ _. h.0)
        (All-update p f xs k h.1)

module _ {A : Type 0} where
  pub All-In : (P : A → Type 0) (a : A) (xs : List A) → All P xs → In a xs → P a
  All-In P a [] h m = absurd m
  All-In P a (x ∷ xs) h (inl e) = subst P (sym e) h.0
  All-In P a (x ∷ xs) h (inr m) = All-In P a xs h.1 m

  pub All-of_In : (P : A → Type 0) (xs : List A) → ((a : A) → In a xs → P a) → All P xs
  All-of_In P [] h = tt
  All-of_In P (x ∷ xs) h = (h x (inl refl), All-of_In P xs (λ a m. h a (inr m)))

  -- What a selection keeps passes its test.
  pub All-select_self : (p : A → Bool) (xs : List A) → All (λ a. p a ≡ true) (select p xs)
  All-select_self p [] = tt
  All-select_self p (x ∷ xs) =
      All-select_cons (λ a. p a ≡ true) x (p x) (select p xs) (λ e. e) (All-select_self p xs)

  pub All-map : (P Q : A → Type 0) (xs : List A) → ((a : A) → P a → Q a) → All P xs → All Q xs
  All-map P Q [] f h = tt
  All-map P Q (x ∷ xs) f h = (f x h.0, All-map P Q xs f h.1)

  pub select-append :
      (p : A → Bool) (xs : List A) (y : A)
      → select p (xs ++ y ∷ []) ≡ (select p xs ++ (if p y then y ∷ [] else []))
  select-append p [] y = refl
  select-append p (x ∷ xs) y = ground (arith, select-append p xs y)

module _ {ℓ} {A : Type ℓ} where
  pub exists-append :
      (p : A → Bool) (xs : List A) (y : A)
      → exists p (xs ++ y ∷ []) ≡ (if exists p xs then true else p y)
  exists-append p [] y = ground arith
  exists-append p (x ∷ xs) y = ground (arith, exists-append p xs y)

  -- An update that a test does not notice.
  pub exists-update :
      (p hit : A → Bool) (f : A → A) (xs : List A)
      → ((a : A) → hit a ≡ true → p (f a) ≡ p a)
      → exists p (update hit f xs) ≡ exists p xs
  exists-update p hit f [] k = refl
  exists-update p hit f (x ∷ xs) k = ground (arith, k x, exists-update p hit f xs k)

  pub exists-select :
      (p keep : A → Bool) (xs : List A)
      → ((a : A) → p a ≡ true → keep a ≡ true)
      → exists p (select keep xs) ≡ exists p xs
  exists-select p keep [] k = refl
  exists-select p keep (x ∷ xs) k = ground (arith, k x, exists-select p keep xs k)

module _ {A : Type 0} where
  pub In-select_of :
      (p : A → Bool) (a : A) (xs : List A) → In a xs → p a ≡ true → In a (select p xs)
  In-select_of p a [] m h = m
  In-select_of p a (x ∷ xs) (inl e) h =
      subst (λ (b : Bool). In a (if b then x ∷ select p xs else select p xs))
        (sym (ap p (sym e) ∙ h)) (inl e)
  In-select_of p a (x ∷ xs) (inr m) h = deeper (p x) (In-select_of p a xs m h)
    where
      deeper : (b : Bool) → In a (select p xs) → In a (if b then x ∷ select p xs else select p xs)
      deeper true k = inr k
      deeper false k = k

  pub exists-of_In :
      (p : A → Bool) (a : A) (xs : List A) → In a xs → p a ≡ true → exists p xs ≡ true
  exists-of_In p a [] m h = absurd m
  exists-of_In p a (x ∷ xs) (inl e) h = rw (ap p (sym e) ∙ h) refl
  exists-of_In p a (x ∷ xs) (inr m) h = rw (exists-of_In p a xs m h) (always (p x))
    where
      always : (b : Bool) → (if b then true else true) ≡ true
      always true = refl
      always false = refl

  pub exists-false :
      (p : A → Bool) (xs : List A) → ((a : A) → In a xs → p a ≡ false) → exists p xs ≡ false
  exists-false p [] h = refl
  exists-false p (x ∷ xs) h = rw (h x (inl refl)) (exists-false p xs (λ a m. h a (inr m)))

  pub exists-In :
      (p : A → Bool) (xs : List A) → exists p xs ≡ true → (a : A) × In a xs × (p a ≡ true)
  exists-In p [] h = cc
  exists-In p (x ∷ xs) h = elim (Bool-cases (p x)) [
    | inl hit ↦ (x, inl refl, hit)
    | inr miss ↦ let (a, m, k) = exists-In p xs (rw miss at h) in (a, inr m, k)
  ]

  -- A selection by a test that every row passes.
  pub select-All : (p : A → Bool) (xs : List A) → All (λ a. p a ≡ true) xs → select p xs ≡ xs
  select-All p [] h = refl
  select-All p (x ∷ xs) h = ground (arith, select-All p xs h.1)

  pub In-drop : (n : ℕ) (a : A) (xs : List A) → In a (drop n xs) → In a xs
  In-drop zero a xs m = m
  In-drop (suc n) a [] m = m
  In-drop (suc n) a (x ∷ xs) m = inr (In-drop n a xs m)

module _ {ℓ} {A : Type ℓ} where
  pub length-select-le : (p : A → Bool) (xs : List A) → length (select p xs) ≤ length xs
  length-select-le p [] = omega arith
  length-select-le p (x ∷ xs) = ground (arith, length-select-le p xs)

  pub length-select-select :
      (p q : A → Bool) (xs : List A) → length (select p (select q xs)) ≤ length (select p xs)
  length-select-select p q [] = omega arith
  length-select-select p q (x ∷ xs) = ground (arith, length-select-select p q xs)

  pub length-select_comm :
      (p q : A → Bool) (xs : List A)
      → length (select p (select q xs)) ≡ length (select q (select p xs))
  length-select_comm p q [] = refl
  length-select_comm p q (x ∷ xs) = ground (arith, length-select_comm p q xs)

  -- At most `n` rows stand before those that `drop n` leaves.
  pub length-select-drop :
      (p : A → Bool) (n : ℕ) (xs : List A)
      → length (select p xs) ≤ n + length (select p (drop n xs))
  length-select-drop p zero xs = omega arith
  length-select-drop p (suc n) [] = omega arith
  length-select-drop p (suc n) (x ∷ xs) = ground (arith, length-select-drop p n xs)

module _ {A : Type 0} where
  pub select_none :
      (p : A → Bool) (xs : List A) → ((a : A) → In a xs → p a ≡ false) → select p xs ≡ []
  select_none p [] h = refl
  select_none p (x ∷ xs) h = rw (h x (inl refl)) (select_none p xs (λ a m. h a (inr m)))

pub length-map {ℓ κ} :
    {A : Type ℓ} {B : Type κ} (f : A → B) (xs : List A) → length (map f xs) ≡ length xs
length-map f [] = refl
length-map f (x ∷ xs) = ap suc (length-map f xs)

module _ {A : Type 0} (p : A → Bool) where
  -- Nothing is found in what a selection has dropped.
  pub find-select-not : (xs : List A) → find p (select (λ a. not (p a)) xs) ≡ none
  find-select-not [] = refl
  find-select-not (x ∷ xs) = ground (arith, find-select-not xs)

  pub select-select-not : (xs : List A) → select p (select (λ a. not (p a)) xs) ≡ []
  select-select-not [] = refl
  select-select-not (x ∷ xs) = ground (arith, select-select-not xs)

  -- A row that is found and rewritten is found, as long as the test does not notice.
  pub find-update_hit :
      (f : A → A) (a : A) (xs : List A)
      → ((x : A) → p x ≡ true → p (f x) ≡ true)
      → find p xs ≡ some a
      → find p (update p f xs) ≡ some (f a)
  find-update_hit f a [] k e = absurd (cc e)
  find-update_hit f a (x ∷ xs) k e = elim (Bool-cases (p x)) [
    | inl hit ↦
        let same : some x ≡ some a = rw hit at e in
        rw (hit, k x hit) (ap (λ (o : Option A). elim o [ none ↦ none | some y ↦ some (f y) ]) same)
    | inr miss ↦ rw (miss, miss) (find-update_hit f a xs k (rw miss at e))
  ]

  pub find-append_miss :
      (a : A) (xs : List A) → exists p xs ≡ false → p a ≡ true → find p (xs ++ a ∷ []) ≡ some a
  find-append_miss a [] h hit = rw hit refl
  find-append_miss a (x ∷ xs) h hit = ground (arith, find-append_miss a xs)

  pub find_of_exists : (xs : List A) → exists p xs ≡ true → (a : A) × (find p xs ≡ some a)
  find_of_exists [] h = cc
  find_of_exists (x ∷ xs) h = elim (Bool-cases (p x)) [
    | inl hit ↦ (x, rw hit refl)
    | inr miss ↦ rw miss (find_of_exists xs (rw miss at h))
  ]
