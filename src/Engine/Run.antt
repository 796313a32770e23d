-- ===== src/Engine/Run.antt =====
-- internal/engine/engine.go: `RunTargetWithOptions`, which runs a file and reports on it.
use lumn.Base.{
  ℕ, ◌≤◌, String, ◌≡◌, refl, ◌⊎◌, inl, inr, Option, none, some, List, [], ◌∷◌, Result, ok, err,
  Result-cases, Option-cases,
}
use lumn.Errkind.{GoError, exit_status}
use lumn.Report.{Report, report_error, error_report, resolve_version}
use lumn.Value.{Fields}
use lumn.Executor.{Node, Lua, normalize_trigger_data}
use lumn.Executor.Run.{Progress, run_nodes, run_workflow, report_of, partial_report}
use lumn.Executor.Counts.{Consistent, run_workflow-Consistent}
use lumn.Lua.{Vm, Refs}
use lumn.Lua.Load.{FileRun}
use lumn.Engine.{Files, resolve_workflow_name}
use lumn.Engine.Load.{Loaded, load_target}

-- `RunOptions`.
pub record RunOptions : Type 0 where
  pub workflow_name : String
  pub version : String
  pub trigger_data : Fields

-- The report of `Run` under the names of the call, with the failure of the run.
unfoldable pub finish_report : String → String → ℕ → Report → Option GoError → Report × ℕ
unfolding report_error exit_status
finish_report name version elapsed report none =
    (record report { workflow = name; version = version; duration_ms = elapsed }, 0)
finish_report name version elapsed report (some e) = (
  record report {
    workflow = name;
    version = version;
    status = "error";
    items_out = 0;
    errors = report_error e ∷ [];
    duration_ms = elapsed;
  },
  exit_status (some e),
)

-- A report that lists no error and counts the items that the run has counted, with its status.
abbrev Finished : Report → Report × ℕ → Type 0
Finished run (report, status) =
    (status ≡ 0)
    × (report.errors ≡ [])
    × (report.items_in ≡ run.items_in)
    × (report.items_out ≡ run.items_out)
    × (report.items_out ≤ report.items_in)
    × (report.status ≡ run.status)
    × ((run.status ≡ "ok") ⊎ (run.status ≡ "empty"))

-- A report of the one error, with its exit status and no item out.
abbrev Failed : GoError → Report × ℕ → Type 0
Failed e (report, status) =
    (status ≡ exit_status (some e))
    × (report.errors ≡ report_error e ∷ [])
    × (report.items_out ≡ 0)
    × (report.status ≡ "error")

-- What is reported of a run, by its report and its failure.
abbrev Ran : Report → Option GoError → Report × ℕ → Type 0
Ran run none out = Finished run out
Ran run (some e) out = Failed e out

-- The runtime of a loaded workflow, as the executor sees it, is the interface `Lua`, and `enter` is the
-- state in which the run starts. `elapsed` is the time that the clock measures, in milliseconds.
module _ {S : Type 0} (lua : Lua S) (enter : Vm → Refs → S) (files : Files)
    (run_file : String → String → String → FileRun) where
  -- `RunTargetWithOptions`: the report and the exit status.
  unfoldable pub run_target_with_options : String → RunOptions → ℕ → Report × ℕ
  unfolding load_target resolve_workflow_name resolve_version error_report run_workflow
      finish_report exit_status
  run_target_with_options input opts elapsed =
      let (target, loaded) = load_target files run_file input in
      let name = resolve_workflow_name files opts.workflow_name input target.name in
      let version = resolve_version opts.version in
      elim loaded [
        | err e ↦
            (record (error_report name version e) { duration_ms = elapsed }, exit_status (some e))
        | ok l ↦
            let (s, report, failure) =
              run_workflow lua l.nodes opts.trigger_data (enter l.vm l.refs) in
            finish_report name version elapsed report failure
      ]

  run_workflow-errors :
      (nodes : List Node) (trigger_data : Fields) (s : S)
      → (run_workflow lua nodes trigger_data s).1.errors ≡ []
  unfolding run_workflow
  run_workflow-errors nodes trigger_data s =
      elim (Option-cases (lua.start (normalize_trigger_data trigger_data) s).1) [
        | inr (e, bad) ↦ rw (bad, run_workflow) refl
        | inl good ↦
            rw (good, run_workflow)
              (ended
                (run_nodes lua nodes ([], 0) (lua.start (normalize_trigger_data trigger_data) s).0))
      ]
    where
      ended :
          (outcome : S × Progress × Option GoError)
          → (elim outcome.2 as (λ x. S × Report × Option GoError) [
            | some e ↦ (outcome.0, partial_report lua outcome.1.1, some e)
            | none ↦ (outcome.0, report_of lua nodes outcome.1, none)
          ]).1.errors
            ≡ []
      ended (s', progress, some e) = refl
      ended (s', (items, items_in), none) = refl

  finish_report-Reported :
      (name version : String) (elapsed : ℕ) (nodes : List Node)
      (outcome : S × Report × Option GoError)
      → Consistent lua nodes outcome
      → outcome.1.errors ≡ []
      → Ran outcome.1 outcome.2 (finish_report name version elapsed outcome.1 outcome.2)
  unfolding finish_report
  finish_report-Reported name version elapsed nodes (s, report, some e) h none_yet =
      (refl, refl, refl, refl)
  finish_report-Reported name version elapsed nodes (s, report, none) (fewer, inl (fine, h))
        none_yet =
      (refl, none_yet, refl, refl, fewer, refl, inl fine)
  finish_report-Reported name version elapsed nodes (s, report, none) (fewer, inr (empty, h, k))
        none_yet =
      (refl, none_yet, refl, refl, fewer, refl, inr empty)

  -- What is to be reported of a target, by what came of loading it.
  abbrev pub Reported : Result GoError Loaded → Fields → Report × ℕ → Type 0
  Reported (err e) trigger_data out = Failed e out
  Reported (ok l) trigger_data out =
      let (s, run, failure) = run_workflow lua l.nodes trigger_data (enter l.vm l.refs) in
      Ran run failure out

  -- RunTargetWithOptions reports every outcome: where loading the target fails, or its run does, the
  -- report has the status "error", exactly that error and no item out, and the exit status is the code
  -- of that error; otherwise the exit status is 0, and the report lists no error and has the counts and
  -- the status of the run, which is "ok" or "empty", with no more items out than in.
  pub run_target-Reported :
      (input : String) (opts : RunOptions) (elapsed : ℕ)
      → Reported
          (load_target files run_file input).1
          opts.trigger_data
          (run_target_with_options input opts elapsed)
  unfolding run_target_with_options error_report
  run_target-Reported input opts elapsed =
      let name =
        resolve_workflow_name files opts.workflow_name input
          (load_target files run_file input).0.name in
      let version = resolve_version opts.version in
      elim (Result-cases (load_target files run_file input).1) [
        | inr (e, bad) ↦ rw (bad, run_target_with_options) (refl, refl, refl, refl)
        | inl (l, good) ↦
            let s = enter l.vm l.refs in
            rw (good, run_target_with_options)
              (finish_report-Reported name version elapsed l.nodes
                (run_workflow lua l.nodes opts.trigger_data s)
                (run_workflow-Consistent lua l.nodes opts.trigger_data s)
                (run_workflow-errors l.nodes opts.trigger_data s))
      ]
