-- ===== src/Config/Sane.antt =====
-- config.go: every configuration that is read is usable.
use Prim.Native.String.{◌++◌}
use lumn.Base.{
  ℕ, suc, ◌≤◌, String, ◌≡◌, refl, inl, inr, false, Option, none, some, List, [], Result, ok, err,
  ◌=ₛ◌, Bool-cases, Option-cases, Result-cases, arith,
}
use lumn.Errkind.{GoError}
use lumn.Lua.{Vm, Refs, push_ref}
use lumn.Value.{ℤ, pos, Value, Fields, end, field}
use lumn.Config.{
  Config, default_config, to_int, positive, normalize_string_map, Setting, port, limit, timeout,
  retention, level, unknown, setting_of, or_keep, nested_int, level_of, apply_setting, apply_fields,
  config_of_value, read_config, load_config, defaults_after,
}
use lumn.Lua.Load.{FileRun, new_runtime, load_workflow}
use lumn.Lua.Values.{Outcome, converted, refused, panicked, no_fuel, to_go_value}
use lumn.Engine.{Files, Stat, file, directory, missing, failing}
use lumn.Engine.Declared.{Converted}

-- The limits are positive, and there is a level for the log.
abbrev pub Sane : Config → Type 0
Sane c =
    (1 ≤ c.webhook_port)
    × (1 ≤ c.queue_limit)
    × (1 ≤ c.retention_max_runs)
    × (1 ≤ c.retention_max_days)
    × ((c.log_level =ₛ "") ≡ false)

or_keep-positive : (o : Option ℤ) (n : ℕ) → 1 ≤ n → 1 ≤ or_keep (positive o) n
or_keep-positive none n h = h
or_keep-positive (some (pos (suc m))) n h = omega arith
or_keep-positive (some _) n h = h

or_keep_named :
    (v : Value) (s : String) → (s =ₛ "") ≡ false → (or_keep (level_of v) s =ₛ "") ≡ false
or_keep_named (Value.text t) s h = elim (Bool-cases (t =ₛ "")) [
  | inl empty ↦ rw empty h
  | inr named ↦ rw named named
]
or_keep_named _ s h = h

module _ (float_to_int : ℕ → ℤ) where
  apply_setting-Sane :
      (s : Setting) (v : Value) (c : Config) → Sane c → Sane (apply_setting float_to_int s v c)
  unfolding apply_setting
  apply_setting-Sane port v c (a, b, d, e, f) =
      (or_keep-positive (to_int float_to_int v) c.webhook_port a, b, d, e, f)
  apply_setting-Sane limit v c (a, b, d, e, f) =
      (a, or_keep-positive (to_int float_to_int v) c.queue_limit b, d, e, f)
  apply_setting-Sane timeout v c h = h
  apply_setting-Sane retention v c (a, b, d, e, f) =
      let m = normalize_string_map v in
      (
        a,
        b,
        or_keep-positive (nested_int float_to_int m "max_executions") c.retention_max_runs d,
        or_keep-positive (nested_int float_to_int m "max_days") c.retention_max_days e,
        f,
      )
  apply_setting-Sane level v c (a, b, d, e, f) = (a, b, d, e, or_keep_named v c.log_level f)
  apply_setting-Sane unknown v c h = h

  apply_fields-Sane : (m : Fields) (c : Config) → Sane c → Sane (apply_fields float_to_int m c)
  unfolding apply_fields
  apply_fields-Sane end c h = h
  apply_fields-Sane (field key v rest) c h =
      apply_fields-Sane rest (apply_setting float_to_int (setting_of key) v c)
        (apply_setting-Sane (setting_of key) v c h)

  config_of_value-Sane :
      (quote : String → String) (v : Value) → Sane (config_of_value float_to_int quote v).0
  unfolding config_of_value default_config
  config_of_value-Sane quote v = elim (Option-cases (normalize_string_map v)) [
    | inl other ↦
        rw (other, config_of_value) (omega arith, omega arith, omega arith, omega arith, refl)
    | inr (root, there) ↦
        rw (there, config_of_value)
          (apply_fields-Sane root default_config
            (omega arith, omega arith, omega arith, omega arith, refl))
  ]

default_config-Sane : Sane default_config
unfolding default_config
default_config-Sane = (omega arith, omega arith, omega arith, omega arith, refl)

-- Whatever stands in the file of the configuration, and also where there is none, where it cannot be
-- run or where its value is no table, the port, the limit of the queues and both limits of retention
-- are positive and the level of the log is not empty.
pub load_config-Sane :
    (files : Files) (run_file : String → String → String → FileRun) (float_to_int : ℕ → ℤ)
    (fuel : ℕ) (state_dir config_path : String)
    → Converted
        (λ out. Sane out.0)
        (load_config files run_file float_to_int fuel state_dir config_path)
unfolding load_config read_config defaults_after
load_config-Sane files run_file float_to_int fuel state_dir config_path =
    by_stat (files.stat config_path)
      (read_config files run_file float_to_int fuel state_dir config_path)
      (elim (Result-cases (new_runtime files.abs state_dir state_dir)) [
        | inr (e, bad) ↦ rw (bad, read_config) default_config-Sane
        | inl ((dir, root), good) ↦
            rw (good, read_config) (loaded (load_workflow (run_file dir root config_path)))
      ])
  where
    by_stat :
        (s : Stat) (o : Outcome (Config × List String))
        → Converted (λ out. Sane out.0) o
        → Converted
            (λ out. Sane out.0)
            (elim s [
              | missing ↦ converted (default_config, [])
              | failing e ↦ converted (default_config, [])
              | file ↦ o
              | directory ↦ o
            ])
    by_stat missing o h = default_config-Sane
    by_stat (failing e) o h = default_config-Sane
    by_stat file o h = h
    by_stat directory o h = h

    outcome :
        (quote : String → String) (o : Outcome Value)
        → Converted
            (λ out. Sane out.0)
            (elim o [
              | converted v ↦ converted (config_of_value float_to_int quote v)
              | refused e ↦ defaults_after ("failed to parse " ++ config_path) e
              | panicked ↦ panicked
              | no_fuel ↦ no_fuel
            ])
    outcome quote (converted v) = config_of_value-Sane float_to_int quote v
    outcome quote (refused e) = default_config-Sane
    outcome quote panicked = tt
    outcome quote no_fuel = tt

    loaded :
        (r : Result GoError (Vm × Refs × String))
        → Converted
            (λ out. Sane out.0)
            (elim r [
              | err e ↦ defaults_after ("failed to load " ++ config_path) e
              | ok (vm, refs, ref) ↦ elim (to_go_value vm fuel [] (push_ref refs ref)) [
                | converted v ↦ converted (config_of_value float_to_int vm.quote v)
                | refused e ↦ defaults_after ("failed to parse " ++ config_path) e
                | panicked ↦ panicked
                | no_fuel ↦ no_fuel
              ]
            ])
    loaded (err e) = default_config-Sane
    loaded (ok (vm, refs, ref)) = outcome vm.quote (to_go_value vm fuel [] (push_ref refs ref))
