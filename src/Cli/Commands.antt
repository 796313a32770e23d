-- ===== src/Cli/Commands.antt =====
-- cli.go: the commands, each from its arguments and the state that it finds to the state that it
-- leaves, what it prints and its exit status. What a workflow itself prints is left out.
pub mod Reach
pub mod Runs
pub mod Service
pub mod Main
pub mod Performs
pub mod Fallback
pub mod Unlisted
pub mod Reads
use Prim.Native.String.{◌++◌}
use lumn.Base.{
  ℕ, String, Bool, true, false, not, ◌&&◌, ◌||◌, Option, none, some, List, [], ◌∷◌, map, ◌==◌, ◌=ₛ◌,
  Result, ok, err, ◌>>=◌, if◌then◌else◌,
}
use lumn.Base.Text.{has_prefix}
use lumn.Errkind.{GoError, error_text, exit_status, format}
use lumn.Report.{Report, failure_report}
use lumn.Value.{end}
use lumn.Executor.{Lua}
use lumn.Lua.{Vm, Refs}
use lumn.Lua.Load.{FileRun}
use lumn.Engine.{Files, Target, resolve_target, resolve_local_selector, trim_suffix}
use lumn.Engine.Load.{validate_target}
use lumn.Engine.Run.{RunOptions, run_target_with_options}
use lumn.Api.{WorkflowResponse}
use lumn.Daemon.Http.{StartRequest}
use lumn.Client.{
  ClientError, api_error, not_running, other, client_text, is_not_running, Transport, get_health,
  get_workflows, get_status, post_workflow, post_stop, send_delete, post_restart, post_exec,
  post_shutdown,
}
use lumn.Client.Paths.{Paths, Process, default_paths}
use lumn.Cli.Args.{
  usage_error, is_help_token, has_help_flag, parse_validate_args, parse_run_args, parse_start_args,
  parse_optional_selector, parse_logs_args, parse_help_topic,
}
use lumn.Cli.Args.Names.{split_name_version}
use lumn.Cli.Select.{SelectError, ambiguous_name, ambiguous_prefix, not_found, select_workflow_id}

-- What is printed: a line, the help page of a topic (`""` is the main one), a report as JSON, the rows
-- of a table, and the status of the daemon.
pub data Out : Type 0 where
  line : String → Out
  help_page : String → Out
  report_json : Report → Out
  table : List (List String) → Out
  daemon_status : ℕ → Out

pub record Printed : Type 0 where
  pub exit : ℕ
  pub stdout : List Out
  pub stderr : List Out

abbrev pub printed : ℕ → List Out → List Out → Printed
printed exit stdout stderr = record { exit = exit; stdout = stdout; stderr = stderr }

-- The end of a command that succeeds, and of one that prints an error and returns `ErrGeneric`.
abbrev pub succeed : Out → Printed
succeed out = printed 0 (out ∷ []) []

abbrev pub fail : String → Printed
fail text = printed 1 [] (line text ∷ [])

-- `if err != nil { fmt.Fprintln(stderr, err); return int(errkind.ErrGeneric) }`.
abbrev pub or_exit {ℓ} :
    {W : Type 0} {A : Type ℓ} → W → Result String A → (A → W × Printed) → W × Printed
or_exit w (ok a) k = k a
or_exit w (err text) k = (w, fail text)

abbrev pub text_of {ℓ} : {A : Type ℓ} → Result ClientError A → Result String A
text_of (ok a) = ok a
text_of (err e) = err (client_text e)

-- `orDash`.
abbrev pub or_dash : String → String
or_dash value = if value =ₛ "" then "-" else value

abbrev pub header : List String
header = "ID" ∷ "NAME" ∷ "VERSION" ∷ "STATUS" ∷ "LAST RUN" ∷ "FAILS" ∷ "NEXT RUN" ∷ []

-- `renderWorkflowList`; `decimal` is the verb `%d`.
unfoldable pub render_workflow_list : (ℕ → String) → List WorkflowResponse → Out
render_workflow_list decimal workflows = table (
    header
    ∷ map
        (λ (w : WorkflowResponse).
          w.id
          ∷ w.name
          ∷ w.version
          ∷ w.status
          ∷ or_dash w.last_run
          ∷ decimal w.fails
          ∷ or_dash w.next_run
          ∷ [])
        workflows)

-- `strings.Join(ids, ", ")`.
unfoldable pub join_comma : List String → String
join_comma [] = ""
join_comma (id ∷ []) = id
join_comma (id ∷ next ∷ rest) = id ++ (", " ++ join_comma (next ∷ rest))

-- The errors of the selection; `quote` is the verb `%q`.
unfoldable pub select_text : (String → String) → SelectError → String
unfolding join_comma
select_text quote (ambiguous_name selector) =
    "workflow " ++ (quote selector ++ " is ambiguous; use a workflow id or a unique id prefix")
select_text quote (ambiguous_prefix selector ids) =
    "workflow id prefix " ++ (quote selector ++ (" is ambiguous; matches " ++ join_comma ids))
select_text quote (not_found selector) = "workflow " ++ (quote selector ++ " not found")

-- The topics that `printHelpTopic` knows.
unfoldable pub is_topic : String → Bool
is_topic topic =
    topic =ₛ "validate"
    || (topic =ₛ "run"
        || (topic =ₛ "start"
            || (topic =ₛ "stop"
                || (topic =ₛ "delete"
                    || (topic =ₛ "restart"
                        || (topic =ₛ "list"
                            || (topic =ₛ "watch"
                                || (topic =ₛ "logs"
                                    || (topic =ₛ "daemon"
                                        || (topic =ₛ "daemon start"
                                            || (topic =ₛ "daemon stop"
                                                || topic =ₛ "daemon status")))))))))))

-- `IsDaemonNotRunning`, or an `APIError` with the status 404: a run goes on with a local target.
abbrev pub falls_back : ClientError → Bool
falls_back (api_error status message) = status == 404
falls_back e = is_not_running e

-- What the commands call beside the client and the engine: the process and the file system that they
-- run in, and the verbs `%q` and `%d`. An error of `Option` is none where the call succeeds.
pub record Tool (W : Type 0) : Type 0 where
  pub process : Process
  -- `dialInternal` at the paths
  pub transport : Paths → Transport W
  pub ensure_state_dir : String → W → W × Option GoError
  pub open_log : String → W → W × Option GoError
  pub executable : Result GoError String
  pub dir : String → String
  pub file_exists : String → Bool
  pub look_path : String → Result GoError String
  pub start : String → W → W × Option GoError
  -- what happens within 100 milliseconds, and how often the deadline lets it pass
  pub sleep : W → W
  pub rounds : ℕ
  pub quote : String → String
  pub decimal : ℕ → String

abbrev pub failed_as {ℓ} : {A : Type ℓ} → Result GoError A → Result String A
failed_as (ok a) = ok a
failed_as (err e) = err (error_text e)

-- `newDaemonClient`.
unfoldable pub new_daemon_client : {W : Type 0} → Tool W → Result String (Transport W)
unfolding default_paths error_text
new_daemon_client tool =
    failed_as (default_paths tool.process) >>= (λ paths. ok (tool.transport paths))
