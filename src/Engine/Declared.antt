-- ===== src/Engine/Declared.antt =====
-- engine.go: the triggers that `LoadDefinition` returns.
use lumn.Base.{
  ℕ, zero, suc, ◌≤◌, String, ◌≡◌, refl, inl, inr, false, none, List, [], ◌==◌, ◌=ₛ◌, Result, ok,
  err, length, All, Bool-cases, Option-cases, Result-cases, arith,
}
use lumn.Errkind.{GoError}
use lumn.Value.{Value, Fields, end, field, get_field, delete_field}
use lumn.Trigger.{TriggerSpec}
use lumn.Lua.{
  Vm, Refs, is_table, push_ref, table_ref_field_ref, array_value_ref, table_len, trigger_kind_ref,
  delete_ref, or_empty,
}
use lumn.Lua.Values.{Outcome, converted, refused, panicked, no_fuel, and_then, to_go_value}
use lumn.Lua.Load.{FileRun}
use lumn.Engine.{Files}
use lumn.Engine.Normal.{normalize_trigger_config}
use lumn.Engine.Load.{
  Loaded, config_outcome, load_target, load_trigger, load_triggers, definition_of, load_definition,
}

get_field-delete : (key : String) (m : Fields) → get_field (delete_field key m) key ≡ none
unfolding get_field delete_field
get_field-delete key end = refl
get_field-delete key (field k v rest) = elim (Bool-cases (k =ₛ key)) [
  | inl same ↦ rw (same, delete_field) (get_field-delete key rest)
  | inr other ↦ rw (other, delete_field) (rw (other, get_field) (get_field-delete key rest))
]

-- The trigger has a kind, and the mark of the kind is not among its fields.
abbrev pub Fit : TriggerSpec → Type 0
Fit spec = ((spec.kind =ₛ "") ≡ false) × (get_field spec.config "__lumn_trigger_type" ≡ none)

-- `P` of what has been converted.
abbrev pub Converted : {A : Type 0} → (A → Type 0) → Outcome A → Type 0
Converted P (converted a) = P a
Converted P _ = Unit

and_then-Converted :
    {A B : Type 0} (P : A → Type 0) (Q : B → Type 0) (o : Outcome A) (f : A → Outcome B)
    → Converted P o
    → ((a : A) → P a → Converted Q (f a))
    → Converted Q (and_then o f)
and_then-Converted P Q (converted a) f h k = k a h
and_then-Converted P Q (refused e) f h k = tt
and_then-Converted P Q panicked f h k = tt
and_then-Converted P Q no_fuel f h k = tt

config_outcome-Fit :
    (kind : String) (r : Result GoError Fields)
    → (kind =ₛ "") ≡ false
    → Converted Fit (config_outcome kind r)
config_outcome-Fit kind (ok config) named = (named, get_field-delete "__lumn_trigger_type" config)
config_outcome-Fit kind (err e) named = tt

module _ (vm : Vm) (fuel : ℕ) where
  load_trigger-Fit : (ref : String) (refs : Refs) → Converted Fit (load_trigger vm fuel ref refs)
  unfolding load_trigger
  load_trigger-Fit ref refs =
      let kind = or_empty (trigger_kind_ref vm ref refs) in
      elim (Bool-cases (is_table (push_ref refs ref))) [
        | inr other ↦ rw (other, load_trigger) tt
        | inl table ↦ elim (Bool-cases (kind =ₛ "")) [
          | inl unnamed ↦ rw (table, unnamed, load_trigger) tt
          | inr named ↦
              rw (table, named, load_trigger)
                (and_then-Converted (λ v. Unit) Fit (to_go_value vm fuel [] (push_ref refs ref)) _
                  (any (to_go_value vm fuel [] (push_ref refs ref)))
                  (λ v u. config_outcome-Fit kind (normalize_trigger_config v) named))
        ]
      ]
    where
      any : (o : Outcome Value) → Converted (λ v. Unit) o
      any (converted v) = tt
      any (refused e) = tt
      any panicked = tt
      any no_fuel = tt

  load_triggers-Fit :
      (triggers : String) (idx n : ℕ) (refs : Refs)
      → Converted
          (λ specs. (length specs ≡ n) × All Fit specs)
          (load_triggers vm fuel triggers idx n refs)
  unfolding load_triggers
  load_triggers-Fit triggers idx zero refs = (refl, tt)
  load_triggers-Fit triggers idx (suc n) refs =
      let (refs', ref) = array_value_ref vm triggers idx refs in
      and_then-Converted Fit _ (load_trigger vm fuel ref refs') _ (load_trigger-Fit ref refs')
        (λ spec fit.
          and_then-Converted (λ specs. (length specs ≡ n) × All Fit specs) _
            (load_triggers vm fuel triggers (suc idx) n (delete_ref ref refs')) _
            (load_triggers-Fit triggers (suc idx) n (delete_ref ref refs'))
            (λ specs rest. let same = rest.0 in (omega arith, (fit, rest.1))))

-- At least one trigger, each of them fit.
abbrev pub Declared : Outcome (List TriggerSpec) → Type 0
Declared o = Converted (λ specs. (1 ≤ length specs) × All Fit specs) o

definition_of-Declared : (fuel : ℕ) (loaded : Loaded) → Declared (definition_of fuel loaded)
unfolding definition_of get_field
definition_of-Declared fuel loaded =
    let vm = loaded.vm in
    let found = table_ref_field_ref vm loaded.workflow_ref "triggers" loaded.refs in
    elim (Option-cases found.1) [
      | inl absent ↦ rw (absent, definition_of) (omega arith, ((refl, refl), tt))
      | inr (triggers, there) ↦
          let n = table_len vm triggers found.0 in
          elim (Bool-cases (is_table (push_ref found.0 triggers))) [
            | inr other ↦ rw (there, other, definition_of) tt
            | inl table ↦ elim (Bool-cases (n == 0)) [
              | inl empty ↦
                  rw (there, table, empty, definition_of) (omega arith, ((refl, refl), tt))
              | inr filled ↦
                  rw (there, table, filled, definition_of)
                    (more n (load_triggers vm fuel triggers 1 n found.0) (ground arith)
                      (load_triggers-Fit vm fuel triggers 1 n found.0))
            ]
          ]
    ]
  where
    more :
        (n : ℕ) (o : Outcome (List TriggerSpec))
        → 1 ≤ n
        → Converted (λ specs. (length specs ≡ n) × All Fit specs) o
        → Declared o
    more n (converted specs) some_there (same, fit) = (omega arith, fit)
    more n (refused e) some_there h = tt
    more n panicked some_there h = tt
    more n no_fuel some_there h = tt

-- A definition that `LoadDefinition` returns has at least one trigger; every trigger has a kind, and
-- the field in which the runtime marks the kind is taken out of its configuration.
pub load_definition-Declared :
    (files : Files) (run_file : String → String → String → FileRun) (fuel : ℕ) (input : String)
    → Declared (load_definition files run_file fuel input).1
unfolding load_definition
load_definition-Declared files run_file fuel input =
    elim (Result-cases (load_target files run_file input).1) [
      | inr (e, bad) ↦ rw (bad, load_definition) tt
      | inl (l, good) ↦ rw (good, load_definition) (definition_of-Declared fuel l)
    ]
