-- ===== src/Tests/Config.antt =====
-- config.go: a file that sets the port, has a limit that is not positive and an unknown field.
use lumn.Base.{String, ◌≡◌, refl, none, [], ◌∷◌}
use lumn.Value.{pos, negsuc}
use lumn.Lua.{lua_nil, lua_text, lua_integer, lua_table, Vm}
use lumn.Lua.Values.{converted}
use lumn.Lua.Load.{FileRun, returned}
use lumn.Engine.Declared.{Converted}
use lumn.Config.{Config, load_config, seconds}
use lumn.Config.Sane.{Sane, load_config-Sane}
use lumn.Tests.Engine.{workspace}

abbrev settings : Vm
settings = record {
  field_of = λ v name. lua_nil;
  raw_length = λ v. 0;
  raw_get_int = λ v i. lua_nil;
  entries_of = λ t.
      (lua_text "webhook_port", lua_integer (pos 7000))
      ∷ (lua_text "queue_limit", lua_integer (negsuc 0))
      ∷ (lua_text "color", lua_integer (pos 1))
      ∷ [];
  to_text = λ v. none;
  type_name = λ v. "value";
  decimal = λ n. "";
  quote = λ s. s;
}

abbrev run_settings : String → String → String → FileRun
run_settings dir root path = returned settings (lua_table 0)

load_config-Sane_example :
    Converted
      (λ out. Sane out.0)
      (load_config workspace run_settings (λ bits. pos bits) 2 "/w" "/w/x/lumn.lua")
load_config-Sane_example =
    load_config-Sane workspace run_settings (λ bits. pos bits) 2 "/w" "/w/x/lumn.lua"

abbrev changed : Config
changed = record {
  webhook_port = 7000;
  queue_limit = 10;
  shutdown_timeout = pos 30_000_000_000;
  retention_max_runs = 1000;
  retention_max_days = 30;
  log_level = "info";
}

load_test :
    load_config workspace run_settings (λ bits. pos bits) 2 "/w" "/w/x/lumn.lua"
    ≡ converted (changed, "unknown lumnd.conf field color" ∷ [])
unfolding load_config
load_test = refl

-- A timeout of 9_223_372_037 seconds overflows and becomes negative.
seconds_test : seconds 9_223_372_037 ≡ negsuc 9_223_372_036_709_551_615
unfolding seconds
seconds_test = refl
