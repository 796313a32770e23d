-- ===== src/Tests/Commands.antt =====
-- cli.go and client.go: the commands on a daemon with one registered workflow, and without a daemon.
use lumn.Base.{String, ◌≡◌, refl, none, true, List, [], ◌∷◌, map, ok, err, arith}
use lumn.Errkind.{plain}
use lumn.Engine.{resolve_local_selector}
use lumn.Daemon.{Daemon, DaemonError}
use lumn.Daemon.Http.{Request, Answer, internal_handler, workflow_parts}
use lumn.Daemon.Http.Paths.{NoSlash, Unescapes, workflow_parts-action}
use lumn.Daemon.Bundles.{summarize_workflow}
use lumn.Client.{Transport, workflow_path}
use lumn.Client.Paths.{Process}
use lumn.Base.Text.{has_prefix}
use lumn.Cli.Args.{token}
use lumn.Cli.Select.{select_workflow_id}
use lumn.Cli.Commands.{line, Printed, succeed, fail, Tool, new_daemon_client}
use lumn.Cli.Commands.Reach.{Verb, run_selector_mutation, run_list, run_watch, run_logs}
use lumn.Cli.Commands.Runs.{run_run}
use lumn.Cli.Commands.Service.{run_daemon}
use lumn.Cli.Commands.Performs.{Performs, run_selector_mutation-Performs}
use lumn.Cli.Commands.Fallback.{IsSelector, run_run-offline}
use lumn.Cli.Commands.Unlisted.{run_run-daemon_only}
use lumn.Cli.Commands.Reads.{queries_kept}
use lumn.Tests.Queue.{statuses}
use lumn.Tests.Triggers.{env}
use lumn.Tests.Daemon.{types, host}
use lumn.Tests.Http.{quiet, bundles, sent}
use lumn.Tests.Run.{counting}
use lumn.Tests.Engine.{workspace, run_file, entry_target}

abbrev message : DaemonError → String
message e = "workflow not found"

abbrev serve : Request → Daemon → Answer
serve =
    internal_handler message env host types statuses (λ p. none) (λ n v. n) (λ d. d) (λ t. "") 12

-- A transport to the daemon, and one to nothing.
abbrev local : Transport Daemon
local = record {
  send = λ req d. ((serve req d).0, ok (serve req d).1);
  is_op_error = λ e. true;
  status_text = λ n. "";
  decode_error = λ s. s;
  path_escape = λ s. s;
  path_decode = λ s. s;
}

abbrev offline : Transport Daemon
offline = record local { send = λ req d. (d, err (plain "dial")) }

abbrev process : Process
process = record {
  getenv = λ name. "/state";
  user_home_dir = ok "/home";
  join = λ a b. a;
  is_windows = true;
}

abbrev tool_of : Transport Daemon → Tool Daemon
tool_of net = record {
  process = process;
  transport = λ paths. net;
  ensure_state_dir = λ p d. (d, none);
  open_log = λ p d. (d, none);
  executable = ok "/bin/lumn";
  dir = λ p. "/bin";
  file_exists = λ p. true;
  look_path = λ name. ok name;
  start = λ command d. (d, none);
  sleep = λ d. d;
  rounds = 50;
  quote = λ s. s;
  decimal = λ n. "";
}

made : (net : Transport Daemon) → new_daemon_client (tool_of net) ≡ ok net
unfolding new_daemon_client
made net = refl

a1_NoSlash : NoSlash "a1"
a1_NoSlash = omega arith

-- Texts with nothing to escape.
unescapes : Unescapes (λ s. s) (λ s. s)
unescapes = (λ path clean. refl, λ before id after clean clean'. refl)

workflow_parts-action_example :
    (workflow_parts (workflow_path (λ s. s) "a1" "/stop") ≡ ("a1", "stop" ∷ []))
    × (workflow_parts (workflow_path (λ s. s) "a1" "/restart") ≡ ("a1", "restart" ∷ []))
    × (workflow_parts (workflow_path (λ s. s) "a1" "/exec") ≡ ("a1", "exec" ∷ []))
    × (workflow_parts (workflow_path (λ s. s) "a1" "/status") ≡ ("a1", "status" ∷ []))
    × (workflow_parts (workflow_path (λ s. s) "a1" "") ≡ ("a1", []))
workflow_parts-action_example =
    workflow_parts-action (λ s. s) (λ s. s) "a1" unescapes a1_NoSlash refl (refl, refl)

delete_test :
    (run_selector_mutation (tool_of local) Verb.delete ("a1" ∷ []) quiet).1
    ≡ succeed (line "workflow a1 deleted")
unfolding run_selector_mutation internal_handler
delete_test = refl

run_selector_mutation-Performs_example :
    Performs message env host types statuses
      (λ p. none)
      (λ n v. n)
      (λ d. d)
      (λ t. "")
      12
      "a1"
      Verb.delete
      quiet
      (run_selector_mutation (tool_of local) Verb.delete ("a1" ∷ []) quiet)
unfolding has_prefix
run_selector_mutation-Performs_example =
    run_selector_mutation-Performs message env host types statuses (λ p. none) (λ n v. n) (λ d. d)
      (λ t. "") 12 (tool_of local) local (λ req d. refl, unescapes) Verb.delete "a1" quiet
      ((a1_NoSlash, refl, (refl, refl)), tt) (made local) refl

abbrev run_offline : List String → Daemon → Daemon × Printed
run_offline = run_run (tool_of offline) counting (λ vm refs. 0) workspace run_file 5

found : resolve_local_selector workspace "/w/x" ≡ ok entry_target
unfolding resolve_local_selector
found = refl

path_IsSelector : IsSelector "/w/x"
unfolding token
path_IsSelector = (refl, refl)

run_run-offline_example :
    run_offline ("/w/x" ∷ []) quiet ≡ (quiet, (run_offline ("-f" ∷ "/w/x" ∷ []) quiet).1)
run_run-offline_example =
    run_run-offline (tool_of offline) counting (λ vm refs. 0) workspace run_file 5 offline
      (made offline) "/w/x" entry_target quiet quiet (plain "dial") path_IsSelector path_IsSelector
      found refl refl

nothing_selected : select_workflow_id (map (summarize_workflow (λ t. "")) bundles) "/w/x" ≡ ok none
unfolding select_workflow_id summarize_workflow has_prefix
nothing_selected = refl

run_run-daemon_only_example :
    run_run (tool_of local) counting (λ vm refs. 0) workspace run_file 5 ("/w/x" ∷ []) quiet
    ≡ (quiet, fail "<nil>")
run_run-daemon_only_example =
    run_run-daemon_only message env host types statuses (λ p. none) (λ n v. n) (λ d. d) (λ t. "") 12
      counting (λ vm refs. 0) workspace run_file 5 (tool_of local) local "/w/x" quiet bundles
      (made local) (λ req d. refl, unescapes) path_IsSelector sent nothing_selected

queries_kept_example :
    ((run_list (tool_of local) [] quiet).0 ≡ quiet)
    × ((run_watch (tool_of local) [] quiet).0 ≡ quiet)
    × ((run_logs (tool_of local) [] quiet).0 ≡ quiet)
    × ((run_daemon (tool_of local) ("status" ∷ []) quiet).0 ≡ quiet)
queries_kept_example =
    queries_kept message env host types statuses (λ p. none) (λ n v. n) (λ d. d) (λ t. "") 12
      (tool_of local) local [] quiet (made local) (λ req d. refl, unescapes)
