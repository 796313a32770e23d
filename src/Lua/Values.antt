-- ===== src/Lua/Values.antt =====
-- internal/lua/runtime.go: `toGoValue`, which copies a Lua value into a Go value.
use Prim.Native.String.{◌++◌}
use lumn.Base.{
  ℕ, zero, suc, Bool, true, false, ◌&&◌, List, [], ◌∷◌, ◌==◌, leb, if◌then◌else◌, exists,
}
use lumn.Errkind.{runtime_code, type_runtime, GoError, new_error}
use lumn.Value.{
  pos, Value, nil, bool, int64, float64, text, array, object, table, Values, none_left, value,
  Entries, no_entry, entry,
}
use lumn.Lua.{
  LuaValue, lua_nil, lua_boolean, lua_integer, lua_number, lua_text, lua_table, lua_function,
  lua_other, Vm,
}

-- What comes of a conversion: its result, its error, the panic of a map key that cannot be hashed, or
-- no result within the fuel.
pub data Outcome (A : Type 0) : Type 0 where
  converted : A → Outcome A
  refused : GoError → Outcome A
  panicked : Outcome A
  no_fuel : Outcome A

abbrev pub and_then : {A B : Type 0} → Outcome A → (A → Outcome B) → Outcome B
and_then (converted a) f = f a
and_then (refused e) f = refused e
and_then panicked f = panicked
and_then no_fuel f = no_fuel

-- Slices and maps are not hashable.
abbrev pub is_hashable : Value → Bool
is_hashable (array vs) = false
is_hashable (object fs) = false
is_hashable (table es) = false
is_hashable _ = true

-- A key between 1 and `n`.
abbrev pub is_index : ℕ → LuaValue → Bool
is_index n (lua_integer (pos i)) = leb 1 i && leb i n
is_index n _ = false

-- `tableHasOnlyArrayKeys` from an entry on, with the count so far.
unfoldable pub has_only_array_keys : ℕ → ℕ → List (LuaValue × LuaValue) → Bool
has_only_array_keys n count [] = count == n
has_only_array_keys n count ((k, v) ∷ rest) =
    if is_index n k then has_only_array_keys n (suc count) rest else false

-- The elements of a table at the indices from `i` on, `n` of them.
unfoldable pub convert_array : Vm → (LuaValue → Outcome Value) → LuaValue → ℕ → ℕ → Outcome Values
convert_array vm convert t i zero = converted none_left
convert_array vm convert t i (suc n) =
    and_then (convert (vm.raw_get_int t i))
      (λ v. and_then (convert_array vm convert t (suc i) n) (λ vs. converted (value v vs)))

-- The entries of a table as a map.
unfoldable pub convert_entries :
    (LuaValue → Outcome Value) → List (LuaValue × LuaValue) → Outcome Entries
convert_entries convert [] = converted no_entry
convert_entries convert ((k, v) ∷ rest) = and_then (convert k) (λ key. and_then (convert v) (λ item.
    if is_hashable key
    then and_then (convert_entries convert rest) (λ es. converted (entry key item es))
    else panicked))

-- `tableToGoValue`, with the conversion of what stands in the table.
unfoldable pub table_to_go_value : Vm → (LuaValue → Outcome Value) → ℕ → Outcome Value
unfolding convert_array convert_entries has_only_array_keys
table_to_go_value vm convert t =
    let n = vm.raw_length (lua_table t) in
    let as_map =
      and_then (convert_entries convert (vm.entries_of t)) (λ es. converted (table es)) in
    if leb 1 n
    then and_then (convert_array vm convert (lua_table t) 1 n)
        (λ vs. if has_only_array_keys n 0 (vm.entries_of t) then converted (array vs) else as_map)
    else as_map

-- `seen[identity]`.
abbrev pub is_seen : List ℕ → ℕ → Bool
is_seen seen t = exists (λ s. s == t) seen

abbrev pub cyclic : GoError
cyclic = new_error runtime_code type_runtime "cyclic table values are not supported"

abbrev pub unsupported : Vm → LuaValue → GoError
unsupported vm v =
    new_error runtime_code type_runtime ("unsupported Lua value type " ++ vm.type_name v)

-- `toGoValue`, with the tables that it is inside of.
unfoldable pub to_go_value : Vm → ℕ → List ℕ → LuaValue → Outcome Value
unfolding table_to_go_value
to_go_value vm zero seen v = no_fuel
to_go_value vm (suc fuel) seen lua_nil = converted nil
to_go_value vm (suc fuel) seen (lua_boolean b) = converted (bool b)
to_go_value vm (suc fuel) seen (lua_integer i) = converted (int64 i)
to_go_value vm (suc fuel) seen (lua_number bits) = converted (float64 bits)
to_go_value vm (suc fuel) seen (lua_text s) = converted (text s)
to_go_value vm (suc fuel) seen (lua_table t) =
    if is_seen seen t
    then refused cyclic
    else table_to_go_value vm (λ v. to_go_value vm fuel (t ∷ seen) v) t
to_go_value vm (suc fuel) seen (lua_function f) = refused (unsupported vm (lua_function f))
to_go_value vm (suc fuel) seen (lua_other name) = refused (unsupported vm (lua_other name))
