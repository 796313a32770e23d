-- ===== src/Engine/Load.antt =====
-- internal/engine/engine.go: `LoadTarget`, `ValidateTarget` and `LoadDefinition`. What the virtual
-- machine makes of a file is the parameter `run_file`.
use lumn.Base.{
  ℕ, zero, suc, String, not, Option, none, some, List, [], ◌∷◌, ◌==◌, ◌=ₛ◌, Result, ok, err, ◌>>=◌,
  if◌then◌else◌,
}
use lumn.Errkind.{GoError, new_error}
use lumn.Value.{Value, end, delete_field}
use lumn.Executor.{Node}
use lumn.Trigger.{TriggerSpec}
use lumn.Lua.{
  Vm, Refs, is_table, push_ref, table_ref_field_ref, array_value_ref, table_len, trigger_kind_ref,
  delete_ref, or_empty,
}
use lumn.Lua.Values.{Outcome, converted, refused, and_then, to_go_value}
use lumn.Lua.Load.{FileRun, new_runtime, load_workflow}
use lumn.Dag.{build}
use lumn.Engine.{Target, Files, resolve_target}
use lumn.Engine.Normal.{normalize_trigger_config, structure_error}

-- `Target{}`.
abbrev pub no_target : Target
no_target = record {
  input = "";
  target_path = "";
  entry_path = "";
  workspace_dir = "";
  workflow_dir = "";
  name = "";
}

-- `dag.Workflow`, with the reference of its table.
pub record Loaded : Type 0 where
  pub vm : Vm
  pub refs : Refs
  pub workflow_ref : String
  pub nodes : List Node

-- `Build` on the table that a file has returned.
unfoldable pub build_workflow : Vm × Refs × String → Result GoError Loaded
unfolding build
build_workflow (vm, refs, ref) =
    let (refs', built) = build vm ref refs in
    elim built [
      | err e ↦ err e
      | ok nodes ↦ ok (record { vm = vm; refs = refs'; workflow_ref = ref; nodes = nodes })
    ]

-- The files of the runtime of a target: `run_file` has the two directories and the entry.
unfoldable pub load_entry :
    Files → (String → String → String → FileRun) → Target → Result GoError Loaded
unfolding new_runtime load_workflow build_workflow
load_entry files run_file target =
    new_runtime files.abs target.workflow_dir target.workspace_dir
    >>= (λ dirs. load_workflow (run_file dirs.0 dirs.1 target.entry_path))
    >>= build_workflow

-- `LoadTarget`.
unfoldable pub load_target :
    Files → (String → String → String → FileRun) → String → Target × Result GoError Loaded
unfolding resolve_target load_entry
load_target files run_file input = elim (resolve_target files input) [
  | err e ↦ (no_target, err e)
  | ok target ↦ (target, load_entry files run_file target)
]

-- `ValidateTarget`.
unfoldable pub validate_target :
    Files → (String → String → String → FileRun) → String → Option GoError
unfolding load_target
validate_target files run_file input = elim (load_target files run_file input).1 [
  | err e ↦ some e
  | ok loaded ↦ none
]

-- The triggers of a workflow that declares none.
abbrev pub manual_only : List TriggerSpec
manual_only = record { kind = "manual"; config = end } ∷ []

abbrev pub config_outcome : String → Result GoError lumn.Value.Fields → Outcome TriggerSpec
config_outcome kind (ok config) =
    converted (record { kind = kind; config = delete_field "__lumn_trigger_type" config })
config_outcome kind (err e) = refused e

-- One round of the loop of `LoadDefinition`.
unfoldable pub load_trigger : Vm → ℕ → String → Refs → Outcome TriggerSpec
unfolding push_ref trigger_kind_ref new_error to_go_value normalize_trigger_config delete_field
load_trigger vm fuel ref refs =
    let kind = or_empty (trigger_kind_ref vm ref refs) in
    if not (is_table (push_ref refs ref))
    then refused (structure_error "each trigger must be a table")
    else if kind =ₛ ""
    then refused (structure_error "triggers must be declared with lumn.triggers.*")
    else and_then (to_go_value vm fuel [] (push_ref refs ref))
        (λ v. config_outcome kind (normalize_trigger_config v))

-- The loop over `n` triggers from an index on.
unfoldable pub load_triggers : Vm → ℕ → String → ℕ → ℕ → Refs → Outcome (List TriggerSpec)
unfolding array_value_ref load_trigger delete_ref
load_triggers vm fuel triggers idx zero refs = converted []
load_triggers vm fuel triggers idx (suc n) refs =
    let (refs', ref) = array_value_ref vm triggers idx refs in
    and_then (load_trigger vm fuel ref refs') (λ spec.
      and_then (load_triggers vm fuel triggers (suc idx) n (delete_ref ref refs'))
        (λ specs. converted (spec ∷ specs)))

-- `LoadDefinition` after `dag.Build`; `fuel` bounds the depth of the tables of a trigger.
unfoldable pub definition_of : ℕ → Loaded → Outcome (List TriggerSpec)
unfolding table_ref_field_ref push_ref table_len load_triggers new_error
definition_of fuel loaded =
    let (refs, found) = table_ref_field_ref loaded.vm loaded.workflow_ref "triggers" loaded.refs in
    elim found [
      | none ↦ converted manual_only
      | some triggers ↦
          let n = table_len loaded.vm triggers refs in
          if not (is_table (push_ref refs triggers))
          then refused (structure_error "workflow field \"triggers\" must be a table-array")
          else if n == 0
          then converted manual_only
          else load_triggers loaded.vm fuel triggers 1 n refs
    ]

-- `LoadDefinition`.
unfoldable pub load_definition :
    Files → (String → String → String → FileRun) → ℕ → String → Target × Outcome (List TriggerSpec)
unfolding load_target definition_of
load_definition files run_file fuel input =
    let (target, loaded) = load_target files run_file input in
    (target, elim loaded [ err e ↦ refused e | ok l ↦ definition_of fuel l ])
