-- ===== src/Lua/Ends.antt =====
-- internal/lua/runtime.go: `toGoValue` ends on every value, cyclic ones included.
use lumn.Base.{
  ℕ, zero, suc, ◌≤◌, ◌<◌, ◌≡◌, refl, sym, ap, ◌∙◌, inl, inr, Bool, true, false, not, List, [], ◌∷◌,
  ◌==◌, ==_refl, leb, if◌then◌else◌, Bool-cases, length, length-select-le, select, In, All, arith,
}
use lumn.Value.{Value, Entries}
use lumn.Lua.{LuaValue, lua_table, Vm}
use lumn.Lua.Values.{
  Outcome, converted, refused, panicked, no_fuel, and_then, is_hashable, has_only_array_keys,
  convert_array, convert_entries, table_to_go_value, is_seen, to_go_value,
}

-- The conversion has come to an end.
abbrev pub Ended : {A : Type 0} → Outcome A → Type 0
Ended no_fuel = ⊥
Ended _ = Unit

-- A table that the value is stands in the list.
abbrev pub Known : List ℕ → LuaValue → Type 0
Known tables (lua_table t) = In t tables
Known tables _ = Unit

-- What stands in a table of the list is known again.
abbrev pub Closed : Vm → List ℕ → Type 0
Closed vm tables =
    (t : ℕ)
    → In t tables
    → ((i : ℕ) → Known tables (vm.raw_get_int (lua_table t) i))
      × All (λ e. Known tables e.0 × Known tables e.1) (vm.entries_of t)

and_then-Ended :
    {A B : Type 0} (o : Outcome A) (f : A → Outcome B)
    → Ended o
    → ((a : A) → Ended (f a))
    → Ended (and_then o f)
and_then-Ended (converted a) f h k = k a
and_then-Ended (refused e) f h k = tt
and_then-Ended panicked f h k = tt
and_then-Ended no_fuel f h k = h

if-Ended :
    {A : Type 0} (b : Bool) (o p : Outcome A) → Ended o → Ended p → Ended (if b then o else p)
if-Ended true o p h k = h
if-Ended false o p h k = k

-- Fewer rows pass a stricter test, if one of them has passed only the other one.
length-select_fewer :
    (p q : ℕ → Bool) (xs : List ℕ)
    → ((x : ℕ) → q x ≡ true → p x ≡ true)
    → length (select q xs) ≤ length (select p xs)
length-select_fewer p q [] h = omega arith
length-select_fewer p q (x ∷ xs) h = ground (arith, h x, length-select_fewer p q xs h)

length-select_less :
    (p q : ℕ → Bool) (a : ℕ) (xs : List ℕ)
    → ((x : ℕ) → q x ≡ true → p x ≡ true)
    → In a xs
    → p a ≡ true
    → q a ≡ false
    → length (select q xs) < length (select p xs)
length-select_less p q a [] h m old new = absurd m
length-select_less p q a (x ∷ xs) h (inl e) old new =
    rw (ap p (sym e) ∙ old, ap q (sym e) ∙ new)
      (let le = length-select_fewer p q xs h in omega arith)
length-select_less p q a (x ∷ xs) h (inr m) old new =
    ground (arith, h x, length-select_less p q a xs h m old new)

-- The tables that a conversion can still go into.
abbrev pub unseen : List ℕ → List ℕ → ℕ
unseen tables seen = length (select (λ t. not (is_seen seen t)) tables)

unseen-less :
    (tables seen : List ℕ) (t : ℕ)
    → In t tables
    → is_seen seen t ≡ false
    → unseen tables (t ∷ seen) < unseen tables seen
unseen-less tables seen t m new =
    length-select_less (λ s. not (is_seen seen s)) (λ s. not (is_seen (t ∷ seen) s)) t tables
      (λ s h. weaker (t == s) (is_seen seen s) h) m (ap not new) (rw (==_refl t) refl)
  where
    weaker : (b c : Bool) → not (if b then true else c) ≡ true → not c ≡ true
    weaker b c h = ground arith

convert_array-Ended :
    (vm : Vm) (convert : LuaValue → Outcome Value) (t : LuaValue) (i n : ℕ)
    → ((j : ℕ) → Ended (convert (vm.raw_get_int t j)))
    → Ended (convert_array vm convert t i n)
unfolding convert_array
convert_array-Ended vm convert t i zero h = tt
convert_array-Ended vm convert t i (suc n) h =
    and_then-Ended (convert (vm.raw_get_int t i)) _ (h i) (λ v.
      and_then-Ended (convert_array vm convert t (suc i) n) _
        (convert_array-Ended vm convert t (suc i) n h) (λ vs. tt))

convert_entries-Ended :
    (convert : LuaValue → Outcome Value) (es : List (LuaValue × LuaValue))
    → All (λ e. Ended (convert e.0) × Ended (convert e.1)) es
    → Ended (convert_entries convert es)
unfolding convert_entries
convert_entries-Ended convert [] h = tt
convert_entries-Ended convert ((k, v) ∷ rest) ((hk, hv), h) =
    and_then-Ended (convert k) _ hk (λ key. and_then-Ended (convert v) _ hv (λ item.
      if-Ended (is_hashable key)
        (and_then (convert_entries convert rest) (λ es. converted (Entries.entry key item es)))
        panicked
        (and_then-Ended (convert_entries convert rest) _ (convert_entries-Ended convert rest h)
          (λ es. tt))
        tt))

table_to_go_value-Ended :
    (vm : Vm) (convert : LuaValue → Outcome Value) (t : ℕ)
    → ((j : ℕ) → Ended (convert (vm.raw_get_int (lua_table t) j)))
    → All (λ e. Ended (convert e.0) × Ended (convert e.1)) (vm.entries_of t)
    → Ended (table_to_go_value vm convert t)
unfolding table_to_go_value
table_to_go_value-Ended vm convert t elements entries =
    let n = vm.raw_length (lua_table t) in
    let as_map =
      and_then-Ended (convert_entries convert (vm.entries_of t)) (λ es. converted (Value.table es))
        (convert_entries-Ended convert (vm.entries_of t) entries) (λ es. tt) in
    if-Ended (leb 1 n) _ _
      (and_then-Ended (convert_array vm convert (lua_table t) 1 n) _
        (convert_array-Ended vm convert (lua_table t) 1 n elements)
        (λ vs. if-Ended (has_only_array_keys n 0 (vm.entries_of t)) _ _ tt as_map))
      as_map

convert-Ended :
    (vm : Vm) (tables : List ℕ)
    → Closed vm tables
    → (fuel : ℕ) (seen : List ℕ) (v : LuaValue) → Known tables v
    → unseen tables seen < fuel
    → Ended (to_go_value vm fuel seen v)
unfolding to_go_value
convert-Ended vm tables closed zero seen v known enough = absurd (omega (arith, enough))
convert-Ended vm tables closed (suc fuel) seen (lua_table t) known enough =
    elim (Bool-cases (is_seen seen t)) [
      | inl old ↦ rw old tt
      | inr new ↦
          let inner = convert-Ended vm tables closed fuel (t ∷ seen) in
          let less = unseen-less tables seen t known new in
          let (elements, entries) = closed t known in
          rw new (
            table_to_go_value-Ended vm (λ v. to_go_value vm fuel (t ∷ seen) v) t
              (λ j. inner (vm.raw_get_int (lua_table t) j) (elements j) (omega arith))
              (both (vm.entries_of t) inner (omega arith) entries))
    ]
  where
    both :
        (es : List (LuaValue × LuaValue))
        → ((v : LuaValue)
            → Known tables v
            → unseen tables (t ∷ seen) < fuel
            → Ended (to_go_value vm fuel (t ∷ seen) v))
        → unseen tables (t ∷ seen) < fuel
        → All (λ e. Known tables e.0 × Known tables e.1) es
        → All
            (λ e.
              Ended (to_go_value vm fuel (t ∷ seen) e.0)
              × Ended (to_go_value vm fuel (t ∷ seen) e.1))
            es
    both [] inner less h = tt
    both ((k, v) ∷ es) inner less ((hk, hv), h) =
        ((inner k hk less, inner v hv less), both es inner less h)
convert-Ended vm tables closed (suc fuel) seen _ known enough = tt

-- `toGoValue` ends: where all tables that can be reached from a value stand in a list, one more round
-- than there are tables is enough, whatever cycles the tables form.
pub to_go_value-Ended :
    (vm : Vm) (tables : List ℕ) (v : LuaValue)
    → Closed vm tables
    → Known tables v
    → Ended (to_go_value vm (suc (length tables)) [] v)
to_go_value-Ended vm tables v closed known =
    let le = length-select-le (λ t. not (is_seen [] t)) tables in
    convert-Ended vm tables closed (suc (length tables)) [] v known (omega arith)
