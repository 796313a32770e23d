-- ===== src/Lua.antt =====
-- internal/lua/runtime.go: the references that a `Runtime` keeps in the registry of its virtual
-- machine, and what it reads of the tables behind them. The virtual machine of go-lua is the
-- parameter `Vm`; a read is taken not to change its tables.
pub mod Keys
pub mod Values
pub mod Ends
pub mod Load
pub mod Modules
pub mod Push
use Prim.Native.String.{◌++◌}
use lumn.Base.{
  ℕ, suc, String, Bool, true, false, not, ◌&&◌, Option, none, some, List, [], ◌∷◌, ◌=ₛ◌,
  if◌then◌else◌,
}
use lumn.Value.{ℤ}

-- What `TypeOf`, `ToBoolean`, `ToInteger64` and their like tell of a value on the stack; a table and a
-- function are their identity, a float is its bits, and any other value is the name of its type.
pub data LuaValue : Type 0 where
  lua_nil : LuaValue
  lua_boolean : Bool → LuaValue
  lua_integer : ℤ → LuaValue
  lua_number : ℕ → LuaValue
  lua_text : String → LuaValue
  lua_table : ℕ → LuaValue
  lua_function : ℕ → LuaValue
  lua_other : String → LuaValue

-- What the runtime calls of go-lua, and the verbs `%d` and `%q` of package fmt.
pub record Vm : Type 0 where
  -- `Field`, which follows a metatable
  pub field_of : LuaValue → String → LuaValue
  pub raw_length : LuaValue → ℕ
  pub raw_get_int : LuaValue → ℕ → LuaValue
  -- the pairs that `Next` goes through
  pub entries_of : ℕ → List (LuaValue × LuaValue)
  -- `ToString`, which also prints numbers
  pub to_text : LuaValue → Option String
  -- the name of its type
  pub type_name : LuaValue → String
  pub decimal : ℕ → String
  pub quote : String → String

abbrev pub is_nil : LuaValue → Bool
is_nil lua_nil = true
is_nil _ = false

abbrev pub is_table : LuaValue → Bool
is_table (lua_table t) = true
is_table _ = false

abbrev pub is_function : LuaValue → Bool
is_function (lua_function f) = true
is_function _ = false

-- `ToBoolean`.
abbrev pub to_boolean : LuaValue → Bool
to_boolean lua_nil = false
to_boolean (lua_boolean b) = b
to_boolean _ = true

-- The references of a `Runtime`: their keys in the registry, the last one that was set first.
pub record Refs : Type 0 where
  pub registry : List (String × LuaValue)
  pub next_ref : ℕ

unfoldable pub look_up : List (String × LuaValue) → String → LuaValue
look_up [] key = lua_nil
look_up ((k, v) ∷ rest) key = if k =ₛ key then v else look_up rest key

-- The value that `PushRef` pushes.
unfoldable pub push_ref : Refs → String → LuaValue
unfolding look_up
push_ref r key = look_up r.registry key

module _ (vm : Vm) where
  unfoldable pub ref_key : ℕ → String
  ref_key n = "__lumn_ref_" ++ vm.decimal n

  -- `StoreRef` of a value.
  unfoldable pub store_ref : LuaValue → Refs → Refs × String
  unfolding ref_key
  store_ref v r = (
    record { registry = (ref_key r.next_ref, v) ∷ r.registry; next_ref = suc r.next_ref },
    ref_key r.next_ref,
  )

  -- `TableRefFieldRef`.
  unfoldable pub table_ref_field_ref : String → String → Refs → Refs × Option String
  unfolding store_ref push_ref
  table_ref_field_ref ref field r =
      let v = vm.field_of (push_ref r ref) field in
      if is_nil v then (r, none) else let (r', key) = store_ref v r in (r', some key)

  -- `ArrayValueRef`.
  unfoldable pub array_value_ref : String → ℕ → Refs → Refs × String
  unfolding store_ref push_ref
  array_value_ref ref i r = store_ref (vm.raw_get_int (push_ref r ref) i) r

  -- `TableLen`.
  unfoldable pub table_len : String → Refs → ℕ
  unfolding push_ref
  table_len ref r = vm.raw_length (push_ref r ref)

  -- `TableStringFieldRef`.
  unfoldable pub table_string_field_ref : String → String → Refs → Option String
  unfolding push_ref
  table_string_field_ref ref field r = vm.to_text (vm.field_of (push_ref r ref) field)

  -- `TableKindRef` and `TriggerKindRef`.
  unfoldable pub table_kind_ref : String → Refs → Option String
  unfolding table_string_field_ref
  table_kind_ref ref r = table_string_field_ref ref "__lumn_kind" r

  unfoldable pub trigger_kind_ref : String → Refs → Option String
  unfolding table_string_field_ref
  trigger_kind_ref ref r = table_string_field_ref ref "__lumn_trigger_type" r

  -- `IsUnknownPrimitiveRef` and `IsMissingSymbolRef`, by `hasBooleanField`.
  unfoldable pub has_boolean_field : String → String → Refs → Bool
  unfolding push_ref
  has_boolean_field ref field r = to_boolean (vm.field_of (push_ref r ref) field)

-- `DeleteRef`.
unfoldable pub delete_ref : String → Refs → Refs
delete_ref key r = record r { registry = (key, lua_nil) ∷ r.registry }

-- A text that may be missing: the empty one, as of `ToString`.
abbrev pub or_empty : Option String → String
or_empty none = ""
or_empty (some s) = s
