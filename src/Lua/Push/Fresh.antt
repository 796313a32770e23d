-- ===== src/Lua/Push/Fresh.antt =====
-- internal/lua/runtime.go: `pushGoValue` writes to new tables alone.
use lumn.Base.{ℕ, suc, ◌≡◌, refl, subst, ◌∙◌, Option, none, some}
use lumn.Value.{
  ℤ, Value, nil, bool, int64, float64, text, array, object, table, Values, none_left, value, Fields,
  end, field, Entries, no_entry, entry,
}
use lumn.Lua.{LuaValue, lua_text, lua_table}
use lumn.Lua.Push.{
  Tables, push_float, values_length, push_go_value, push_elements, push_fields, push_entries,
}

-- What is relied on of go-lua: a table that is created is a new one, and a write to a table is one to
-- no other.
pub record Laws {H A : Type 0} (lua : Tables H) (contents : H → ℕ → A) (Live : H → ℕ → Type 0)
    : Type 0 where
  pub create-new : (n : ℕ) (h : H) → ¬ Live h (lua.create_table n h).1
  pub create-Live : (n : ℕ) (h : H) → Live (lua.create_table n h).0 (lua.create_table n h).1
  pub create-keeps :
      (n : ℕ) (h : H) (s : ℕ)
      → Live h s
      → Live (lua.create_table n h).0 s × (contents (lua.create_table n h).0 s ≡ contents h s)
  pub set_int-keeps :
      (t i : ℕ) (v : LuaValue) (h : H) (s : ℕ)
      → Live h s
      → Live (lua.raw_set_int t i v h) s
        × (¬ (s ≡ t) → contents (lua.raw_set_int t i v h) s ≡ contents h s)
  pub set-keeps :
      (t : ℕ) (k v : LuaValue) (h : H) (s : ℕ)
      → Live h s
      → Live (lua.raw_set t k v h) s × (¬ (s ≡ t) → contents (lua.raw_set t k v h) s ≡ contents h s)

module _ {H A : Type 0} (lua : Tables H) (contents : H → ℕ → A) (Live : H → ℕ → Type 0)
    (laws : Laws lua contents Live) where
  -- Every table of the first state is as it was.
  abbrev pub Kept : H → H → Type 0
  Kept h h' = (s : ℕ) → Live h s → Live h' s × (contents h' s ≡ contents h s)

  -- Every table but one is.
  abbrev KeptBut : ℕ → H → H → Type 0
  KeptBut t h h' = (s : ℕ) → Live h s → Live h' s × (¬ (s ≡ t) → contents h' s ≡ contents h s)

  -- A table that is pushed is none of the first state.
  abbrev pub IsNew : H → LuaValue → Type 0
  IsNew h (lua_table t) = ¬ Live h t
  IsNew h _ = Unit

  Kept-same : (h : H) → Kept h h
  Kept-same h s live = (live, refl)

  KeptBut-same : (t : ℕ) (h : H) → KeptBut t h h
  KeptBut-same t h s live = (live, λ other. refl)

  -- A step of a loop on the table: something is pushed, and then written to the table.
  KeptBut-step :
      (t : ℕ) (h h1 h2 h3 : H) → Kept h h1 → KeptBut t h1 h2 → KeptBut t h2 h3 → KeptBut t h h3
  KeptBut-step t h h1 h2 h3 a b c s live =
      let (live1, same1) = a s live in
      let (live2, same2) = b s live1 in
      let (live3, same3) = c s live2 in (live3, λ other. same3 other ∙ same2 other ∙ same1)

  Kept-both : (h h1 h2 : H) → Kept h h1 → Kept h1 h2 → Kept h h2
  Kept-both h h1 h2 a b s live =
      let (live1, same1) = a s live in let (live2, same2) = b s live1 in (live2, same2 ∙ same1)

  -- A loop on a table that was created for it.
  create-Kept :
      (n : ℕ) (h h' : H) → KeptBut (lua.create_table n h).1 (lua.create_table n h).0 h' → Kept h h'
  create-Kept n h h' filled s live =
      let (live1, same1) = laws.create-keeps n h s live in
      let (live2, same2) = filled s live1 in
      (live2, same2 (λ at. laws.create-new n h (subst (λ x. Live h x) at live)) ∙ same1)

  mutual
    unfolding push_go_value values_length

    push_go_value-Kept : (v : Value) (h : H) → Kept h (push_go_value lua v h).0
    push_go_value-Kept nil h = Kept-same h
    push_go_value-Kept (bool b) h = Kept-same h
    push_go_value-Kept (text t) h = Kept-same h
    push_go_value-Kept (int64 i) h = Kept-same h
    push_go_value-Kept (float64 bits) h = Kept-same h
    push_go_value-Kept (array vs) h =
        let (h1, t) = lua.create_table (values_length vs) h in
        create-Kept (values_length vs) h (push_elements lua t 1 vs h1)
          (push_elements-KeptBut t 1 vs h1)
    push_go_value-Kept (object fs) h =
        let (h1, t) = lua.create_table 0 h in
        create-Kept 0 h (push_fields lua t fs h1) (push_fields-KeptBut t fs h1)
    push_go_value-Kept (table es) h =
        let (h1, t) = lua.create_table 0 h in
        create-Kept 0 h (push_entries lua t es h1) (push_entries-KeptBut t es h1)

    push_elements-KeptBut :
        (t i : ℕ) (vs : Values) (h : H) → KeptBut t h (push_elements lua t i vs h)
    push_elements-KeptBut t i none_left h = KeptBut-same t h
    push_elements-KeptBut t i (value v vs) h =
        let (h1, item) = push_go_value lua v h in
        let h2 = lua.raw_set_int t i item h1 in
        KeptBut-step t h h1 h2 (push_elements lua t (suc i) vs h2) (push_go_value-Kept v h)
          (laws.set_int-keeps t i item h1) (push_elements-KeptBut t (suc i) vs h2)

    push_fields-KeptBut : (t : ℕ) (fs : Fields) (h : H) → KeptBut t h (push_fields lua t fs h)
    push_fields-KeptBut t end h = KeptBut-same t h
    push_fields-KeptBut t (field k v fs) h =
        let (h1, item) = push_go_value lua v h in
        let h2 = lua.raw_set t (lua_text k) item h1 in
        KeptBut-step t h h1 h2 (push_fields lua t fs h2) (push_go_value-Kept v h)
          (laws.set-keeps t (lua_text k) item h1) (push_fields-KeptBut t fs h2)

    push_entries-KeptBut : (t : ℕ) (es : Entries) (h : H) → KeptBut t h (push_entries lua t es h)
    push_entries-KeptBut t no_entry h = KeptBut-same t h
    push_entries-KeptBut t (entry k v es) h =
        let (h1, key) = push_go_value lua k h in
        let (h2, item) = push_go_value lua v h1 in
        let h3 = lua.raw_set t key item h2 in
        KeptBut-step t h h2 h3 (push_entries lua t es h3)
          (Kept-both h h1 h2 (push_go_value-Kept k h) (push_go_value-Kept v h1))
          (laws.set-keeps t key item h2) (push_entries-KeptBut t es h3)

  push_float-IsNew : (o : Option ℤ) (bits : ℕ) (h : H) → IsNew h (push_float o bits)
  push_float-IsNew (some i) bits h = tt
  push_float-IsNew none bits h = tt

  push_go_value-IsNew : (v : Value) (h : H) → IsNew h (push_go_value lua v h).1
  unfolding push_go_value
  push_go_value-IsNew (float64 bits) h = push_float-IsNew (lua.whole bits) bits h
  push_go_value-IsNew (array vs) h = laws.create-new (values_length vs) h
  push_go_value-IsNew (object fs) h = laws.create-new 0 h
  push_go_value-IsNew (table es) h = laws.create-new 0 h
  push_go_value-IsNew _ h = tt

  -- pushGoValue leaves every table that there was as it was, whatever is pushed, and the table that it
  -- pushes, if any, is a new one. Creating a table makes a new one, and a write to a table is one to no
  -- other.
  pub push_go_value-Fresh :
      (v : Value) (h : H) → Kept h (push_go_value lua v h).0 × IsNew h (push_go_value lua v h).1
  push_go_value-Fresh v h = (push_go_value-Kept v h, push_go_value-IsNew v h)
