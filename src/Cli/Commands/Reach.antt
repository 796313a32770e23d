-- ===== src/Cli/Commands/Reach.antt =====
-- cli.go: the commands that ask the daemon about one of its workflows or about all of them.
use lumn.Base.{String, Option, none, some, List, [], ◌∷◌, ◌=ₛ◌, Result, ok, err, if◌then◌else◌}
use lumn.Base.Text.{has_prefix}
use lumn.Api.{WorkflowResponse}
use lumn.Client.{
  ClientError, other, client_text, Transport, get_health, get_workflows, get_status, post_stop,
  send_delete, post_restart,
}
use lumn.Cli.Args.{usage_error, has_help_flag, parse_optional_selector, parse_logs_args}
use lumn.Cli.Select.{SelectError, not_found, select_workflow_id}
use lumn.Cli.Commands.{
  line, help_page, Printed, succeed, or_exit, text_of, render_workflow_list, select_text, Tool,
  new_daemon_client,
}

-- The three commands that `runSelectorMutation` serves.
pub data Verb : Type 0 where
  stop delete restart : Verb

abbrev pub verb_name : Verb → String
verb_name stop = "stop"
verb_name delete = "delete"
verb_name restart = "restart"

unfoldable pub send_verb :
    {W : Type 0} → Verb → Transport W → String → W → W × Result ClientError (String × String)
unfolding post_stop send_delete post_restart
send_verb stop = post_stop
send_verb delete = send_delete
send_verb restart = post_restart

-- The only argument of such a command.
unfoldable pub one_selector : Verb → List String → Result String String
unfolding has_prefix usage_error
one_selector verb (selector ∷ []) =
    if has_prefix selector "-"
    then err (usage_error (verb_name verb) "expected exactly one workflow selector")
    else ok selector
one_selector verb _ = err (usage_error (verb_name verb) "expected exactly one workflow selector")

-- The arguments of `list`.
unfoldable pub no_argument : List String → Result String (Unit {0})
unfolding usage_error
no_argument [] = ok tt
no_argument (arg ∷ rest) = err (usage_error "list" "list does not accept positional arguments")

abbrev pub forget_answer {ℓ} : {A : Type ℓ} → Result ClientError A → Result ClientError (Unit {0})
forget_answer (ok a) = ok tt
forget_answer (err e) = err e

module _ {W : Type 0} (tool : Tool W) where
  abbrev pub selected_as : Result SelectError (Option String) → Result ClientError (Option String)
  selected_as (ok found) = ok found
  selected_as (err e) = err (other (select_text tool.quote e))

  abbrev pub chosen :
      Result ClientError (List WorkflowResponse) → String → Result ClientError (Option String)
  chosen (err e) selector = err e
  chosen (ok workflows) selector = selected_as (select_workflow_id workflows selector)

  -- `resolveDaemonSelector`: the list is asked for first.
  unfoldable pub resolve_daemon_selector :
      Transport W → String → W → W × Result ClientError (Option String)
  unfolding get_workflows select_workflow_id select_text
  resolve_daemon_selector net selector w =
      let (w', answer) = get_workflows net w in (w', chosen answer selector)

  abbrev pub required : Result ClientError (Option String) → String → Result ClientError String
  required (ok (some id)) selector = ok id
  required (ok none) selector = err (other (select_text tool.quote (not_found selector)))
  required (err e) selector = err e

  -- `requireDaemonSelector`.
  unfoldable pub require_daemon_selector : Transport W → String → W → W × Result ClientError String
  unfolding resolve_daemon_selector
  require_daemon_selector net selector w =
      let (w', found) = resolve_daemon_selector net selector w in (w', required found selector)

  -- `runSelectorMutation` from the client on.
  unfoldable pub mutate : Verb → Transport W → String → W → W × Printed
  unfolding require_daemon_selector send_verb client_text
  mutate verb net selector w =
      let (w1, resolved) = require_daemon_selector net selector w in
      or_exit w1 (text_of resolved) (λ id.
        let (w2, answer) = send_verb verb net id w1 in
        or_exit w2 (text_of answer) (λ (r : String × String). (w2, succeed (line r.1))))

  -- `runSelectorMutation`.
  unfoldable pub run_selector_mutation : Verb → List String → W → W × Printed
  unfolding has_help_flag one_selector new_daemon_client mutate
  run_selector_mutation verb args w =
      if has_help_flag args
      then (w, succeed (help_page (verb_name verb)))
      else or_exit w (one_selector verb args)
          (λ selector. or_exit w (new_daemon_client tool) (λ net. mutate verb net selector w))

  -- `runListCommand`.
  unfoldable pub run_list : List String → W → W × Printed
  unfolding has_help_flag new_daemon_client get_workflows client_text render_workflow_list
      no_argument
  run_list args w =
      if has_help_flag args
      then (w, succeed (help_page "list"))
      else or_exit w (no_argument args) (λ _. or_exit w (new_daemon_client tool) (λ net.
        let (w', answer) = get_workflows net w in
        or_exit w' (text_of answer)
          (λ workflows. (w', succeed (render_workflow_list tool.decimal workflows)))))

  -- What `watch` and `logs` ask for: the status of the workflow of a selector, or the health of the
  -- daemon where there is none.
  unfoldable pub check_selector : Transport W → String → W → W × Result ClientError (Unit {0})
  unfolding get_health require_daemon_selector get_status
  check_selector net selector w =
      let (w1, resolved) = require_daemon_selector net selector w in
      if selector =ₛ ""
      then (let (w', answer) = get_health net w in (w', forget_answer answer))
      else elim resolved [
        | err e ↦ (w1, err e)
        | ok id ↦ let (w2, answer) = get_status net id w1 in (w2, forget_answer answer)
      ]

  -- `runWatchCommand` and `runLogsCommand` behind their arguments: both only check and give up.
  abbrev pub announce : Result String String → String → W → W × Printed
  announce parsed text w = or_exit w parsed (λ selector. or_exit w (new_daemon_client tool) (λ net.
      let (w', checked) = check_selector net selector w in
      or_exit w' (text_of checked) (λ _. (w', succeed (line text)))))

  -- `runWatchCommand`.
  unfoldable pub run_watch : List String → W → W × Printed
  unfolding has_help_flag parse_optional_selector new_daemon_client check_selector client_text
  run_watch args w =
      if has_help_flag args
      then (w, succeed (help_page "watch"))
      else announce (parse_optional_selector args "watch") "watch is not implemented yet" w

  -- `runLogsCommand`.
  unfoldable pub run_logs : List String → W → W × Printed
  unfolding has_help_flag parse_logs_args new_daemon_client check_selector client_text
  run_logs args w =
      if has_help_flag args
      then (w, succeed (help_page "logs"))
      else announce (parse_logs_args args) "logs is not implemented yet" w
