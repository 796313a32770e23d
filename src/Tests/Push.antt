-- ===== src/Tests/Push.antt =====
-- runtime.go: values pushed into tables that are lists of writes, the last one first.
use lumn.Base.{
  ℕ, suc, ◌<◌, ◌≡◌, refl, inl, inr, none, some, List, [], ◌∷◌, ◌==◌, if◌then◌else◌, Bool-cases,
  arith,
}
use lumn.Value.{pos, Value, float64, text, array, object, none_left, value, end, field}
use lumn.Lua.{LuaValue, lua_integer, lua_text, lua_table}
use lumn.Lua.Push.{Tables, push_go_value}
use lumn.Lua.Push.Fresh.{Laws, Kept, IsNew, push_go_value-Fresh}

-- The identity of the next table, and the writes to every table.
abbrev Heap : Type 0
Heap = ℕ × (ℕ → List (LuaValue × LuaValue))

abbrev write : ℕ → LuaValue → LuaValue → Heap → Heap
write t k v (next, writes) = (next, λ s. if s == t then (k, v) ∷ writes s else writes s)

abbrev heap : Tables Heap
heap = record {
  create_table = λ n h. ((suc h.0, λ s. if s == h.0 then [] else h.1 s), h.0);
  raw_set_int = λ t i v h. write t (lua_integer (pos i)) v h;
  raw_set = write;
  whole = λ bits. if bits == 4 then some (pos 2) else none;
}

abbrev writes_to : Heap → ℕ → List (LuaValue × LuaValue)
writes_to h s = h.1 s

abbrev Made : Heap → ℕ → Type 0
Made h s = s < h.0

write-keeps :
    (t : ℕ) (k v : LuaValue) (h : Heap) (s : ℕ)
    → Made h s
    → Made (write t k v h) s × (¬ (s ≡ t) → writes_to (write t k v h) s ≡ writes_to h s)
write-keeps t k v (next, writes) s live = (
  live,
  λ other. elim (Bool-cases (s == t)) [
    | inl same ↦ absurd (other (ground (arith, same)))
    | inr differs ↦ rw differs refl
  ],
)

create-keeps :
    (n : ℕ) (h : Heap) (s : ℕ)
    → Made h s
    → Made (heap.create_table n h).0 s × (writes_to (heap.create_table n h).0 s ≡ writes_to h s)
create-keeps n (next, writes) s live = (
  omega arith,
  elim (Bool-cases (s == next)) [
    | inl same ↦ absurd (ground (arith, same))
    | inr differs ↦ rw differs refl
  ],
)

laws : Laws heap writes_to Made
laws = record {
  create-new = λ n h live. omega arith;
  create-Live = λ n h. omega arith;
  create-keeps = create-keeps;
  set_int-keeps = λ t i v h s live. write-keeps t (lua_integer (pos i)) v h s live;
  set-keeps = write-keeps;
}

-- The JSON object {"ids": [2.0, "b"]}.
abbrev body : Value
body = object (field "ids" (array (value (float64 4) (value (text "b") none_left))) end)

abbrev used : Heap
used = (1, λ s. (lua_text "name", lua_text "sync") ∷ [])

push_go_value-Fresh_example :
    Kept heap writes_to Made laws used (push_go_value heap body used).0
    × IsNew heap writes_to Made laws used (push_go_value heap body used).1
push_go_value-Fresh_example = push_go_value-Fresh heap writes_to Made laws body used

pushed :
    ((push_go_value heap body used).1 ≡ lua_table 1)
    × (writes_to (push_go_value heap body used).0 1 ≡ (lua_text "ids", lua_table 2) ∷ [])
    × (writes_to (push_go_value heap body used).0 2
        ≡ (lua_integer (pos 2), lua_text "b") ∷ (lua_integer (pos 1), lua_integer (pos 2)) ∷ [])
unfolding push_go_value
pushed = (refl, refl, refl)
