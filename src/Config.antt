-- ===== src/Config.antt =====
-- internal/daemon/config.go: the configuration of the daemon, and how `LoadConfig` reads it from a Lua
-- file.
pub mod Sane
pub mod Order
use Prim.Native.Nat.{◌%◌}
use Prim.Native.String.{◌++◌}
use lumn.Base.{
  ℕ, suc, ◌+◌, ◌-◌, ◌*◌, String, Bool, true, false, Option, none, some, List, [], ◌∷◌, ◌=ₛ◌, ltb,
  Result, ok, err, if◌then◌else◌,
}
use lumn.Errkind.{GoError, error_text}
use lumn.Value.{
  ℤ, pos, negsuc, Value, int64, float64, text, array, object, table, Values, none_left, value,
  Fields, end, field, get_field, Entries, no_entry, entry,
}
use lumn.Lua.{Vm, push_ref}
use lumn.Lua.Values.{Outcome, converted, refused, panicked, no_fuel, to_go_value}
use lumn.Lua.Load.{FileRun, new_runtime, load_workflow}
use lumn.Engine.{Files, Stat, file, directory, missing, failing}

-- `Config` without its `Paths`; the timeout is in nanoseconds.
pub record Config : Type 0 where
  pub webhook_port : ℕ
  pub queue_limit : ℕ
  pub shutdown_timeout : ℤ
  pub retention_max_runs : ℕ
  pub retention_max_days : ℕ
  pub log_level : String

-- `DefaultConfig`.
unfoldable pub default_config : Config
default_config = record {
  webhook_port = 6890;
  queue_limit = 10;
  shutdown_timeout = pos 30_000_000_000;
  retention_max_runs = 1000;
  retention_max_days = 30;
  log_level = "info";
}

abbrev mutual
  -- `normalizeConfigValue`: a map that has another key than a text stays as it is.
  pub normalize_config_value : Value → Value
  normalize_config_value (table es) = elim (string_entries es) [
    | none ↦ table es
    | some fs ↦ object fs
  ]
  normalize_config_value (array vs) = array (normalize_config_values vs)
  normalize_config_value v = v

  pub normalize_config_values : Values → Values
  normalize_config_values none_left = none_left
  normalize_config_values (value v vs) =
      value (normalize_config_value v) (normalize_config_values vs)

  -- The loop of `normalizeStringMap`.
  pub string_entries : Entries → Option Fields
  string_entries no_entry = some end
  string_entries (entry (text k) v es) = elim (string_entries es) [
    | none ↦ none
    | some fs ↦ some (field k (normalize_config_value v) fs)
  ]
  string_entries (entry k v es) = none

-- `normalizeStringMap`.
unfoldable pub normalize_string_map : Value → Option Fields
normalize_string_map (table es) = string_entries es
normalize_string_map (object fs) = some fs
normalize_string_map v = none

-- `toInt`; `float_to_int` is Go's conversion of a float64, given by its bits.
unfoldable pub to_int : (ℕ → ℤ) → Value → Option ℤ
to_int float_to_int (int64 i) = some i
to_int float_to_int (float64 bits) = some (float_to_int bits)
to_int float_to_int v = none

-- The number that replaces the setting: `v, ok := toInt(item); ok && v > 0`.
abbrev pub positive : Option ℤ → Option ℕ
positive (some (pos (suc n))) = some (suc n)
positive _ = none

-- The product by `time.Second` in 64 bits with sign.
unfoldable pub seconds : ℕ → ℤ
seconds n =
    let bits = n * 1_000_000_000 % 18_446_744_073_709_551_616 in
    if ltb bits 9_223_372_036_854_775_808
    then pos bits
    else negsuc (18_446_744_073_709_551_615 - bits)

-- The cases of the `switch` on a key.
pub data Setting : Type 0 where
  port limit timeout retention level unknown : Setting

abbrev pub setting_of : String → Setting
setting_of key =
    if key =ₛ "webhook_port"
    then port
    else if key =ₛ "queue_limit"
    then limit
    else if key =ₛ "shutdown_timeout"
    then timeout
    else if key =ₛ "retention"
    then retention
    else if key =ₛ "log_level"
    then level
    else unknown

abbrev pub or_keep : {A : Type 0} → Option A → A → A
or_keep none a = a
or_keep (some b) a = b

-- `retention[key]` as a number, where the value is a map.
abbrev pub nested_int : (ℕ → ℤ) → Option Fields → String → Option ℤ
nested_int float_to_int none key = none
nested_int float_to_int (some m) key = elim (get_field m key) [
  | none ↦ none
  | some v ↦ to_int float_to_int v
]

-- A text that is not empty.
abbrev pub level_of : Value → Option String
level_of (text s) = if s =ₛ "" then none else some s
level_of v = none

abbrev pub seconds_of : Option ℕ → Option ℤ
seconds_of none = none
seconds_of (some n) = some (seconds n)

module _ (float_to_int : ℕ → ℤ) where
  -- One case of the `switch`.
  unfoldable pub apply_setting : Setting → Value → Config → Config
  unfolding to_int normalize_string_map get_field seconds
  apply_setting port v c = record c {
    webhook_port = or_keep (positive (to_int float_to_int v)) c.webhook_port;
  }
  apply_setting limit v c = record c {
    queue_limit = or_keep (positive (to_int float_to_int v)) c.queue_limit;
  }
  apply_setting timeout v c = record c {
    shutdown_timeout = or_keep (seconds_of (positive (to_int float_to_int v))) c.shutdown_timeout;
  }
  apply_setting retention v c =
      let m = normalize_string_map v in
      record c {
        retention_max_runs =
            or_keep (positive (nested_int float_to_int m "max_executions")) c.retention_max_runs;
        retention_max_days =
            or_keep (positive (nested_int float_to_int m "max_days")) c.retention_max_days;
      }
  apply_setting level v c = record c { log_level = or_keep (level_of v) c.log_level }
  apply_setting unknown v c = c

  -- The loop over the fields, in the order in which the map gives them.
  unfoldable pub apply_fields : Fields → Config → Config
  unfolding apply_setting
  apply_fields end c = c
  apply_fields (field key v rest) c = apply_fields rest (apply_setting (setting_of key) v c)

-- The warnings of the loop; `quote` is the verb `%q` of package fmt.
unfoldable pub warnings_of : (String → String) → Fields → List String
warnings_of quote end = []
warnings_of quote (field key v rest) = elim (setting_of key) [
  | unknown ↦ ("unknown lumnd.conf field " ++ quote key) ∷ warnings_of quote rest
  | _ ↦ warnings_of quote rest
]

-- What `LoadConfig` makes of the value of the file.
unfoldable pub config_of_value : (ℕ → ℤ) → (String → String) → Value → Config × List String
unfolding apply_fields warnings_of normalize_string_map default_config
config_of_value float_to_int quote v = elim (normalize_string_map v) [
  | none ↦ (default_config, "daemon config must return a table, using defaults" ∷ [])
  | some root ↦ (apply_fields float_to_int root default_config, warnings_of quote root)
]

-- The defaults, and the warning that says why.
unfoldable pub defaults_after : String → GoError → Outcome (Config × List String)
unfolding default_config error_text
defaults_after message e =
    converted (default_config, (message ++ ", using defaults: " ++ error_text e) ∷ [])

-- `LoadConfig` after its first test: the file is run in the directory of the daemon's state. There is
-- no configuration where the conversion of the value panics.
unfoldable pub read_config :
    Files
    → (String → String → String → FileRun)
    → (ℕ → ℤ)
    → ℕ
    → String
    → String
    → Outcome (Config × List String)
unfolding new_runtime load_workflow push_ref to_go_value config_of_value defaults_after
read_config files run_file float_to_int fuel state_dir config_path =
    elim (new_runtime files.abs state_dir state_dir) [
      | err e ↦ defaults_after "failed to create config runtime" e
      | ok (dir, root) ↦ elim (load_workflow (run_file dir root config_path)) [
        | err e ↦ defaults_after ("failed to load " ++ config_path) e
        | ok (vm, refs, ref) ↦ elim (to_go_value vm fuel [] (push_ref refs ref)) [
          | converted v ↦ converted (config_of_value float_to_int vm.quote v)
          | refused e ↦ defaults_after ("failed to parse " ++ config_path) e
          | panicked ↦ panicked
          | no_fuel ↦ no_fuel
        ]
      ]
    ]

-- `LoadConfig`, with its warnings.
unfoldable pub load_config :
    Files
    → (String → String → String → FileRun)
    → (ℕ → ℤ)
    → ℕ
    → String
    → String
    → Outcome (Config × List String)
unfolding read_config default_config
load_config files run_file float_to_int fuel state_dir config_path =
    let read = read_config files run_file float_to_int fuel state_dir config_path in
    elim (files.stat config_path) [
      | missing ↦ converted (default_config, [])
      | failing e ↦ converted (default_config, [])
      | file ↦ read
      | directory ↦ read
    ]
