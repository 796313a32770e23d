-- ===== src/Lua/Push.antt =====
-- internal/lua/runtime.go: `pushGoValue`, which copies a Go value into the tables of the virtual
-- machine. What it calls of go-lua is the parameter `Tables`.
pub mod Fresh
use lumn.Base.{ℕ, suc, Option, none, some}
use lumn.Value.{
  ℤ, Value, nil, bool, int64, float64, text, array, object, table, Values, none_left, value, Fields,
  end, field, Entries, no_entry, entry,
}
use lumn.Lua.{LuaValue, lua_nil, lua_boolean, lua_integer, lua_number, lua_text, lua_table}

-- The tables of the virtual machine are a state `H`, and a table is its identity.
pub record Tables (H : Type 0) : Type 0 where
  -- `CreateTable(n, 0)`; `NewTable` is `CreateTable(0, 0)`
  pub create_table : ℕ → H → H × ℕ
  -- `RawSetInt` and `RawSet` on a table
  pub raw_set_int : ℕ → ℕ → LuaValue → H → H
  pub raw_set : ℕ → LuaValue → LuaValue → H → H
  -- `int64(v)` of the float64 with these bits, if `math.Trunc(v) == v`
  pub whole : ℕ → Option ℤ

-- `len` of a slice.
unfoldable pub values_length : Values → ℕ
values_length none_left = 0
values_length (value v vs) = suc (values_length vs)

-- A float64, which is pushed as an integer where it is whole.
abbrev pub push_float : Option ℤ → ℕ → LuaValue
push_float (some i) bits = lua_integer i
push_float none bits = lua_number bits

module _ {H : Type 0} (lua : Tables H) where
  unfoldable mutual
    unfolding values_length

    -- `pushGoValue`: the value that it leaves on the stack. A map is gone through in the order of its
    -- keys here, which in Go is any.
    pub push_go_value : Value → H → H × LuaValue
    push_go_value nil h = (h, lua_nil)
    push_go_value (bool b) h = (h, lua_boolean b)
    push_go_value (text s) h = (h, lua_text s)
    push_go_value (int64 i) h = (h, lua_integer i)
    push_go_value (float64 bits) h = (h, push_float (lua.whole bits) bits)
    push_go_value (array vs) h =
        let (h1, t) = lua.create_table (values_length vs) h in
        (push_elements t 1 vs h1, lua_table t)
    push_go_value (object fs) h =
        let (h1, t) = lua.create_table 0 h in (push_fields t fs h1, lua_table t)
    push_go_value (table es) h =
        let (h1, t) = lua.create_table 0 h in (push_entries t es h1, lua_table t)

    -- The loop over the elements of a slice, from the Lua index `i` on.
    pub push_elements : ℕ → ℕ → Values → H → H
    push_elements t i none_left h = h
    push_elements t i (value v vs) h =
        let (h1, item) = push_go_value v h in
        push_elements t (suc i) vs (lua.raw_set_int t i item h1)

    -- The loop over a `map[string]any`.
    pub push_fields : ℕ → Fields → H → H
    push_fields t end h = h
    push_fields t (field k v fs) h =
        let (h1, item) = push_go_value v h in push_fields t fs (lua.raw_set t (lua_text k) item h1)

    -- The loop over a `map[any]any`.
    pub push_entries : ℕ → Entries → H → H
    push_entries t no_entry h = h
    push_entries t (entry k v es) h =
        let (h1, key) = push_go_value k h in
        let (h2, item) = push_go_value v h1 in push_entries t es (lua.raw_set t key item h2)
