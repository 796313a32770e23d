-- ===== src/Value.antt =====
-- Go values of type `any` that come from Lua or JSON: what internal/daemon and internal/engine take
-- apart by type assertions. A float64 is its bit pattern.
use lumn.Base.{ℕ, String, Bool, Option, none, some, ◌=ₛ◌, if◌then◌else◌}

-- `negsuc n` is -(n + 1).
pub data ℤ : Type 0 where
  pos : ℕ → ℤ
  negsuc : ℕ → ℤ

mutual
  pub data Value : Type 0 where
    nil : Value
    bool : Bool → Value
    int64 : ℤ → Value
    float64 : ℕ → Value
    text : String → Value
    array : Values → Value
    object : Fields → Value
    table : Entries → Value

  -- `[]any`
  pub data Values : Type 0 where
    none_left : Values
    value : Value → Values → Values

  -- `map[string]any`, each key once
  pub data Fields : Type 0 where
    end : Fields
    field : String → Value → Fields → Fields

  -- `map[any]any`, each key once
  pub data Entries : Type 0 where
    no_entry : Entries
    entry : Value → Value → Entries → Entries

-- `m[key]` with the second result `false` as `none`.
unfoldable pub get_field : Fields → String → Option Value
get_field end key = none
get_field (field k v rest) key = if k =ₛ key then some v else get_field rest key

-- `v, _ := x.(string)`: the empty text where the assertion fails.
abbrev pub as_text : Option Value → String
as_text (some (text s)) = s
as_text _ = ""

-- `s, _ := m[key].(string)`.
unfoldable pub text_field : Fields → String → String
unfolding get_field
text_field m key = as_text (get_field m key)

-- `m[key] = v`.
unfoldable pub set_field : String → Value → Fields → Fields
set_field key v end = field key v end
set_field key v (field k w rest) =
    if k =ₛ key then field k v rest else field k w (set_field key v rest)

-- `delete(m, key)`.
unfoldable pub delete_field : String → Fields → Fields
delete_field key end = end
delete_field key (field k w rest) =
    if k =ₛ key then delete_field key rest else field k w (delete_field key rest)
