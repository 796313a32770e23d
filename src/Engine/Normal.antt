-- ===== src/Engine/Normal.antt =====
-- internal/engine/engine.go: `normalizeTriggerConfig` and `normalizeGoValue`.
use lumn.Base.{String, ◌≡◌, refl, ap, Result, ok, err, ◌>>=◌}
use lumn.Errkind.{structure_code, GoError, new_error}
use lumn.Value.{
  Value, text, array, object, table, Values, none_left, value, Fields, end, field, Entries,
  no_entry, entry,
}

unfoldable mutual
  -- `normalizeGoValue`.
  pub normalize_go_value : Value → Value
  normalize_go_value (array vs) = array (normalize_values vs)
  normalize_go_value (table es) = object (normalize_entries es)
  normalize_go_value v = v

  -- The elements of a slice.
  pub normalize_values : Values → Values
  normalize_values none_left = none_left
  normalize_values (value v vs) = value (normalize_go_value v) (normalize_values vs)

  -- The entries of a map whose keys are texts.
  pub normalize_entries : Entries → Fields
  normalize_entries no_entry = end
  normalize_entries (entry (text k) v es) = field k (normalize_go_value v) (normalize_entries es)
  normalize_entries (entry k v es) = normalize_entries es

abbrev pub structure_error : String → GoError
structure_error message = new_error structure_code "structure" message

-- The loop of `normalizeTriggerConfig`.
unfoldable pub normalize_config_entries : Entries → Result GoError Fields
unfolding normalize_go_value new_error
normalize_config_entries no_entry = ok end
normalize_config_entries (entry (text k) v es) =
    normalize_config_entries es >>= (λ rest. ok (field k (normalize_go_value v) rest))
normalize_config_entries (entry k v es) =
    err (structure_error "trigger config keys must be strings")

-- `normalizeTriggerConfig`.
unfoldable pub normalize_trigger_config : Value → Result GoError Fields
unfolding normalize_config_entries new_error
normalize_trigger_config (table es) = normalize_config_entries es
normalize_trigger_config v = err (structure_error "trigger config must be a table")

mutual
  unfolding normalize_go_value

  normalize_go_value_again :
      (v : Value) → normalize_go_value (normalize_go_value v) ≡ normalize_go_value v
  normalize_go_value_again (array vs) = ap array (normalize_values_again vs)
  normalize_go_value_again _ = refl

  normalize_values_again :
      (vs : Values) → normalize_values (normalize_values vs) ≡ normalize_values vs
  normalize_values_again none_left = refl
  normalize_values_again (value v vs) =
      rw (normalize_go_value_again v, normalize_values_again vs) refl
