-- ===== src/Cli/Commands/Unlisted.antt =====
-- cli.go and api.go: `lumn run` on a selector that a daemon that runs does not know.
use lumn.Base.{ℕ, String, ◌≡◌, Option, none, List, [], ◌∷◌, map, ok}
use lumn.Report.{Report}
use lumn.Value.{Fields}
use lumn.Store.{Codec}
use lumn.Trigger.{Env}
use lumn.Executor.{Lua}
use lumn.Lua.{Vm, Refs}
use lumn.Lua.Load.{FileRun}
use lumn.Engine.{Files}
use lumn.Daemon.{Daemon, DaemonError}
use lumn.Daemon.Lifecycle.{Host}
use lumn.Daemon.Control.{Definition}
use lumn.Daemon.Bundles.{Bundle, list_bundles, summarize_workflow}
use lumn.Client.{Transport}
use lumn.Client.Served.{Reaches, get_workflows-Served}
use lumn.Cli.Select.{select_workflow_id}
use lumn.Cli.Commands.{fail, Tool, new_daemon_client}
use lumn.Cli.Commands.Runs.{run_run}
use lumn.Cli.Commands.Fallback.{IsSelector, run_run-unlisted}

module _ (message : DaemonError → String) (env : Env) (host : Host) (json : Codec Fields)
    (reports : Codec Report) (load : String → Option Definition)
    (workflow_id_for : String → String → String) (others : Daemon → Daemon)
    (format_time : ℕ → String) (now : ℕ) {S : Type 0} (lua : Lua S) (enter : Vm → Refs → S)
    (files : Files) (run_file : String → String → String → FileRun) (elapsed : ℕ) where
  -- While the client reaches a daemon that runs and selects nothing on its list, `run` never tries the
  -- selector as a local one: it prints "<nil>" and returns 1, whatever the files are, and the daemon is
  -- as it was.
  pub run_run-daemon_only :
      (tool : Tool Daemon) (net : Transport Daemon) (selector : String) (d : Daemon)
      (bs : List Bundle)
      → new_daemon_client tool ≡ ok net
      → Reaches message env host json reports load workflow_id_for others format_time now net
      → IsSelector selector
      → list_bundles json reports d ≡ ok bs
      → select_workflow_id (map (summarize_workflow format_time) bs) selector ≡ ok none
      → run_run tool lua enter files run_file elapsed (selector ∷ []) d ≡ (d, fail "<nil>")
  run_run-daemon_only tool net selector d bs made reach plain listed missing =
      run_run-unlisted tool lua enter files run_file elapsed net made selector
        (map (summarize_workflow format_time) bs) d d plain
        (get_workflows-Served message env host json reports load workflow_id_for others format_time
          now net d bs reach listed)
        missing
