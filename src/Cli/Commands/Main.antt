-- ===== src/Cli/Commands/Main.antt =====
-- cli.go: `Run`, which hands the arguments to a command.
use Prim.Native.String.{◌++◌}
use lumn.Base.{ℕ, String, List, [], ◌∷◌, ◌=ₛ◌, ok, err, if◌then◌else◌}
use lumn.Executor.{Lua}
use lumn.Lua.{Vm, Refs}
use lumn.Lua.Load.{FileRun}
use lumn.Engine.{Files}
use lumn.Cli.Args.{is_help_token, parse_help_topic}
use lumn.Cli.Commands.{line, help_page, Printed, printed, succeed, fail, is_topic, Tool}
use lumn.Cli.Commands.Reach.{
  stop, delete, restart, run_selector_mutation, run_list, run_watch, run_logs,
}
use lumn.Cli.Commands.Runs.{run_validate, run_run, run_start}
use lumn.Cli.Commands.Service.{run_daemon}

module _ {W : Type 0} (tool : Tool W) where
  -- The page of a topic that was parsed.
  unfoldable pub show_topic : String → Printed
  unfolding is_topic
  show_topic topic =
      if topic =ₛ ""
      then succeed (help_page "")
      else if is_topic topic
      then succeed (help_page topic)
      else printed 1 []
          (line ("unknown help topic " ++ (tool.quote topic ++ "\n")) ∷ help_page "" ∷ [])

  -- `runHelpCommand`.
  unfoldable pub run_help : List String → Printed
  unfolding parse_help_topic show_topic
  run_help args = elim (parse_help_topic args) [
    | err text ↦ fail text
    | ok topic ↦ show_topic topic
  ]

  -- The last cases of `Run`, from `list` on.
  unfoldable pub dispatch_query : String → List String → W → W × Printed
  unfolding run_list run_watch run_logs run_daemon
  dispatch_query name args w =
      if name =ₛ "list"
      then run_list tool args w
      else if name =ₛ "watch"
      then run_watch tool args w
      else if name =ₛ "logs"
      then run_logs tool args w
      else if name =ₛ "daemon"
      then run_daemon tool args w
      else (
        w,
        printed 1 [] (line ("unknown command " ++ (tool.quote name ++ "\n")) ∷ help_page "" ∷ []),
      )

  -- The cases of `Run` from `stop` on.
  unfoldable pub dispatch_change : String → List String → W → W × Printed
  unfolding run_selector_mutation dispatch_query
  dispatch_change name args w =
      if name =ₛ "stop"
      then run_selector_mutation tool stop args w
      else if name =ₛ "delete"
      then run_selector_mutation tool delete args w
      else if name =ₛ "restart"
      then run_selector_mutation tool restart args w
      else dispatch_query name args w

  module _ {S : Type 0} (lua : Lua S) (enter : Vm → Refs → S) (files : Files)
      (run_file : String → String → String → FileRun) (elapsed : ℕ) where
    -- The cases of `Run` on the name of the command.
    unfoldable pub dispatch : String → List String → W → W × Printed
    unfolding run_validate run_run run_start dispatch_change
    dispatch name args w =
        if name =ₛ "validate"
        then run_validate tool lua enter files run_file elapsed args w
        else if name =ₛ "run"
        then run_run tool lua enter files run_file elapsed args w
        else if name =ₛ "start"
        then run_start tool lua enter files run_file elapsed args w
        else dispatch_change name args w

    -- `Run`.
    unfoldable pub run : List String → W → W × Printed
    unfolding run_help dispatch
    run [] w = (w, printed 1 [] (help_page "" ∷ []))
    run (name ∷ args) w =
        if is_help_token name
        then (w, succeed (help_page ""))
        else if name =ₛ "help"
        then (w, run_help args)
        else dispatch name args w
