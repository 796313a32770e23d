-- ===== src/Cli/Commands/Fallback.antt =====
-- cli.go: what `lumn run` makes of a selector with and without a daemon that runs.
use lumn.Base.{
  ℕ, String, ◌≡◌, refl, sym, ap, ◌∙◌, inl, inr, Bool, true, false, Option, none, some, List, [],
  ◌∷◌, ◌=ₛ◌, Result, ok, err, if◌then◌else◌, Bool-cases, eq_iff,
}
use lumn.Base.Text.{has_prefix}
use lumn.Errkind.{GoError}
use lumn.Executor.{Lua}
use lumn.Lua.{Vm, Refs}
use lumn.Lua.Load.{FileRun}
use lumn.Engine.{Files, Target, resolve_local_selector}
use lumn.Api.{WorkflowResponse}
use lumn.Client.{
  ClientError, not_running, Transport, get_workflows, post_exec, do_json, wrap_transport_error,
}
use lumn.Cli.Args.{
  is_help_token, has_help_flag, parse_run_args, extract_from, extract_target_flag, token, Token,
  flag, inline, unknown, positional, drop_three,
}
use lumn.Cli.Args.Flags.{IsPositional}
use lumn.Cli.Select.{select_workflow_id}
use lumn.Cli.Commands.{report_json, Printed, fail, succeed, Tool, new_daemon_client}
use lumn.Cli.Commands.Reach.{resolve_daemon_selector, chosen, selected_as}
use lumn.Cli.Commands.Runs.{after_error, run_target, run_local, run_selected, run_run}

-- The argument is a selector: it is not empty and no flag.
abbrev pub IsSelector : String → Type 0
IsSelector arg = ((arg =ₛ "") ≡ false) × IsPositional arg

other_text :
    (arg other : String)
    → has_prefix arg "-" ≡ false
    → has_prefix other "-" ≡ true
    → (arg =ₛ other) ≡ false
other_text arg other h k = elim (Bool-cases (arg =ₛ other)) [
  | inr e ↦ e
  | inl e ↦
      let clash : false ≡ true = sym h ∙ ap (λ t. has_prefix t "-") ((eq_iff arg other).0 e) ∙ k in
      cc clash
]

pub no_help : (arg : String) → has_prefix arg "-" ≡ false → is_help_token arg ≡ false
unfolding has_prefix
no_help arg h = rw (other_text arg "-h" h refl, other_text arg "--help" h refl) refl

no_flag : (arg : String) → IsPositional arg → has_prefix arg "-" ≡ false
unfolding token
no_flag arg h = elim (Bool-cases (has_prefix arg "-")) [
  | inr e ↦ e
  | inl e ↦ absurd (not_unknown (arg =ₛ "-f") (has_prefix arg "-f=") (rw e at h))
]
  where
    not_unknown :
        (a b : Bool)
        → ¬ (
            ◌≡◌ {A = Token}
              (if a
                then flag
                else if b
                then inline (drop_three arg)
                else if true
                then unknown
                else positional)
              positional)
    not_unknown true b e = cc
    not_unknown false true e = cc
    not_unknown false false e = cc

module _ (arg : String) (plain : IsSelector arg) where
  pub help-selector : has_help_flag (arg ∷ []) ≡ false
  unfolding has_help_flag
  help-selector = rw (no_help arg (no_flag arg plain.1)) refl

  pub parse_run-selector : parse_run_args (arg ∷ []) ≡ ok (arg, "")
  unfolding parse_run_args extract_target_flag
  parse_run-selector = rw (plain.1, extract_from) refl

  parse_run-target : parse_run_args ("-f" ∷ arg ∷ []) ≡ ok ("", arg)
  unfolding parse_run_args token extract_target_flag
  parse_run-target = refl

  help-target : has_help_flag ("-f" ∷ arg ∷ []) ≡ false
  unfolding has_help_flag
  help-target = rw (no_help arg (no_flag arg plain.1)) refl

module _ {W : Type 0} (tool : Tool W) {S : Type 0} (lua : Lua S) (enter : Vm → Refs → S)
    (files : Files) (run_file : String → String → String → FileRun) (elapsed : ℕ)
    (net : Transport W) (made : new_daemon_client tool ≡ ok net) where
  abbrev pub run_command : List String → W → W × Printed
  run_command = run_run tool lua enter files run_file elapsed

  run_run-selector :
      (arg : String) (w : W)
      → IsSelector arg
      → run_command (arg ∷ []) w ≡ run_selected tool lua enter files run_file elapsed net arg w
  unfolding run_run
  run_run-selector arg w plain =
      rw (help-selector arg plain, parse_run-selector arg plain, plain.0, made, run_run) refl

  run_run-target :
      (arg : String) (w : W)
      → IsSelector arg
      → run_command ("-f" ∷ arg ∷ []) w ≡ (w, run_target tool lua enter files run_file elapsed arg)
  unfolding run_run
  run_run-target arg w plain =
      rw (help-target arg plain, parse_run-target arg plain, plain.0, run_run) refl

  -- What `run` makes of the answer to its request for the list.
  abbrev resolved_by :
      String
      → W × Result ClientError (List WorkflowResponse)
      → W × Result ClientError (Option String)
  resolved_by selector (w, answer) = (w, chosen tool answer selector)

  abbrev after_resolution : String → W × Result ClientError (Option String) → W × Printed
  after_resolution selector (w, err e) =
      (w, after_error tool lua enter files run_file elapsed e selector)
  after_resolution selector (w, ok none) = (w, fail "<nil>")
  after_resolution selector (w, ok (some id)) =
      let (w', ran) = post_exec net id w in
      elim ran [
        | err e ↦ (w', after_error tool lua enter files run_file elapsed e selector)
        | ok execution ↦ (w', succeed (report_json execution.1))
      ]

  run_selected-by :
      (selector : String) (w : W) (r : W × Result ClientError (List WorkflowResponse))
      → get_workflows net w ≡ r
      → run_selected tool lua enter files run_file elapsed net selector w
        ≡ after_resolution selector (resolved_by selector r)
  unfolding run_selected resolve_daemon_selector
  run_selected-by selector w r e =
      by_cases (resolved_by selector (get_workflows net w))
      ∙ ap (λ x. after_resolution selector (resolved_by selector x)) e
    where
      by_cases :
          (out : W × Result ClientError (Option String))
          → (elim out.1 as (λ x. W × Printed) [
            | err e ↦ (out.0, after_error tool lua enter files run_file elapsed e selector)
            | ok none ↦ (out.0, fail "<nil>")
            | ok (some id) ↦
                (let (w2, ran) = post_exec net id out.0 in
                  elim ran as (λ x. W × Printed) [
                    | err e ↦ (w2, after_error tool lua enter files run_file elapsed e selector)
                    | ok execution ↦ (w2, succeed (report_json execution.1))
                  ])
          ])
            ≡ after_resolution selector out
      by_cases (w', err e) = refl
      by_cases (w', ok none) = refl
      by_cases (w', ok (some id)) = refl

  get_workflows-offline :
      (w w' : W) (e : GoError)
      → net.send (record { method = "GET"; path = "/api/v1/workflows"; payload = none }) w
        ≡ (w', err e)
      → net.is_op_error e ≡ true
      → get_workflows net w ≡ (w', err not_running)
  unfolding get_workflows do_json wrap_transport_error
  get_workflows-offline w w' e sent refused = rw (sent, refused, do_json) (rw sent refl)

  -- Where the daemon cannot be reached by the network, `run` on a selector that ResolveLocalSelector
  -- finds prints and returns what `run -f` does on the path that was found.
  pub run_run-offline :
      (selector : String) (target : Target) (w w' : W) (e : GoError)
      → IsSelector selector
      → IsSelector target.target_path
      → resolve_local_selector files selector ≡ ok target
      → net.send (record { method = "GET"; path = "/api/v1/workflows"; payload = none }) w
        ≡ (w', err e)
      → net.is_op_error e ≡ true
      → run_command (selector ∷ []) w ≡ (w', (run_command ("-f" ∷ target.target_path ∷ []) w').1)
  unfolding run_local
  run_run-offline selector target w w' e plain path found sent refused =
      run_run-selector selector w plain
      ∙ run_selected-by selector w _ (get_workflows-offline w w' e sent refused)
      ∙ rw (run_run-target target.target_path w' path, found, run_local) refl

  -- An answer on which the client selects nothing.
  pub run_run-unlisted :
      (selector : String) (workflows : List WorkflowResponse) (w w' : W)
      → IsSelector selector
      → get_workflows net w ≡ (w', ok workflows)
      → select_workflow_id workflows selector ≡ ok none
      → run_command (selector ∷ []) w ≡ (w', fail "<nil>")
  run_run-unlisted selector workflows w w' plain listed missing =
      run_run-selector selector w plain
      ∙ run_selected-by selector w _ listed
      ∙ ap (λ x. after_resolution selector (w', selected_as tool x)) missing
