-- ===== src/Cli/Commands/Runs.antt =====
-- cli.go: the commands that run, check or start a workflow from a file.
use lumn.Base.{ℕ, String, none, some, List, [], ◌∷◌, ◌=ₛ◌, ok, err, if◌then◌else◌}
use lumn.Errkind.{GoError, exit_status, format}
use lumn.Report.{Report, failure_report}
use lumn.Value.{end}
use lumn.Executor.{Lua}
use lumn.Lua.{Vm, Refs}
use lumn.Lua.Load.{FileRun}
use lumn.Engine.{Files, Target, resolve_target, resolve_local_selector, trim_suffix}
use lumn.Engine.Load.{validate_target}
use lumn.Engine.Run.{RunOptions, run_target_with_options}
use lumn.Daemon.Http.{StartRequest}
use lumn.Client.{ClientError, client_text, Transport, post_workflow, post_exec}
use lumn.Cli.Args.{has_help_flag, parse_validate_args, parse_run_args, parse_start_args}
use lumn.Cli.Args.Names.{split_name_version}
use lumn.Cli.Commands.{
  line, help_page, report_json, Printed, printed, succeed, fail, or_exit, text_of, falls_back, Tool,
  new_daemon_client,
}
use lumn.Cli.Commands.Reach.{resolve_daemon_selector}

-- The end of a command with an error of the engine.
unfoldable pub fail_with : (ℕ → String) → GoError → Printed
unfolding format exit_status
fail_with decimal e = printed (exit_status (some e)) [] (line (format decimal (some e)) ∷ [])

abbrev pub report_run : Report × ℕ → Printed
report_run (report, code) = printed code (report_json report ∷ []) []

-- `inferSelectorName`.
unfoldable pub infer_selector_name : Files → String → String
unfolding trim_suffix
infer_selector_name files selector =
    let base = files.base (files.clean selector) in trim_suffix base (files.ext base)

-- The options of `RunTarget`.
abbrev pub no_options : RunOptions
no_options = record { workflow_name = ""; version = ""; trigger_data = end }

-- A part of `name[:tag]` that is left out.
abbrev pub or_default : String → String → String
or_default given default = if given =ₛ "" then default else given

module _ {W : Type 0} (tool : Tool W) {S : Type 0} (lua : Lua S) (enter : Vm → Refs → S)
    (files : Files) (run_file : String → String → String → FileRun) (elapsed : ℕ) where
  -- `runValidateCommand`.
  unfoldable pub run_validate : List String → W → W × Printed
  unfolding has_help_flag parse_validate_args validate_target fail_with
  run_validate args w =
      if has_help_flag args
      then (w, succeed (help_page "validate"))
      else or_exit w (parse_validate_args args) (λ target. (
        w,
        elim (validate_target files run_file target) [
          | none ↦ printed 0 [] []
          | some e ↦ fail_with tool.decimal e
        ],
      ))

  -- `RunTarget` and `writeReport`.
  unfoldable pub run_target : String → Printed
  unfolding run_target_with_options
  run_target input =
      report_run (run_target_with_options lua enter files run_file input no_options elapsed)

  -- The end of `runRunCommand`, where the selector is a local one.
  unfoldable pub run_local : String → Printed
  unfolding resolve_local_selector run_target failure_report infer_selector_name exit_status
  run_local selector = elim (resolve_local_selector files selector) [
    | err e ↦
        printed (exit_status (some e))
          (report_json (failure_report (infer_selector_name files selector) "latest" e) ∷ []) []
    | ok target ↦ run_target target.target_path
  ]

  abbrev pub after_error : ClientError → String → Printed
  after_error e selector = if falls_back e then run_local selector else fail (client_text e)

  -- `runRunCommand` from the client on. A selector that the daemon does not list leaves the error
  -- nil, which is neither of the errors that let the run go on, and is printed as it is.
  unfoldable pub run_selected : Transport W → String → W → W × Printed
  unfolding resolve_daemon_selector post_exec run_local client_text
  run_selected net selector w =
      let (w1, resolved) = resolve_daemon_selector tool net selector w in
      elim resolved [
        | err e ↦ (w1, after_error e selector)
        | ok none ↦ (w1, fail "<nil>")
        | ok (some id) ↦
            let (w2, ran) = post_exec net id w1 in
            elim ran [
              | err e ↦ (w2, after_error e selector)
              | ok execution ↦ (w2, succeed (report_json execution.1))
            ]
      ]

  -- `runRunCommand`.
  unfoldable pub run_run : List String → W → W × Printed
  unfolding has_help_flag parse_run_args run_target new_daemon_client run_selected
  run_run args w =
      if has_help_flag args
      then (w, succeed (help_page "run"))
      else or_exit w (parse_run_args args) (λ (parsed : String × String).
        let (selector, target) = parsed in
        if target =ₛ ""
        then if selector =ₛ ""
          then (w, run_target "")
          else or_exit w (new_daemon_client tool) (λ net. run_selected net selector w)
        else (w, run_target target))

  -- The request that `start` sends for a target.
  abbrev pub start_request : String → Target → StartRequest
  start_request name_arg target =
      let (name, version) = split_name_version name_arg in
      record {
        name = or_default name target.name;
        version = or_default version "latest";
        target = target.target_path;
      }

  -- `runStartCommand`.
  unfoldable pub run_start : List String → W → W × Printed
  unfolding has_help_flag parse_start_args resolve_target fail_with split_name_version
      new_daemon_client post_workflow client_text
  run_start args w =
      if has_help_flag args
      then (w, succeed (help_page "start"))
      else or_exit w (parse_start_args args) (λ (parsed : String × String).
        elim (resolve_target files parsed.1) [
          | err e ↦ (w, fail_with tool.decimal e)
          | ok target ↦ or_exit w (new_daemon_client tool) (λ net.
              let (w', answer) = post_workflow net (start_request parsed.0 target) w in
              or_exit w' (text_of answer) (λ (r : String × String). (w', succeed (line r.1))))
        ])
