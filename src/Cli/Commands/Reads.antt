-- ===== src/Cli/Commands/Reads.antt =====
-- cli.go, client.go and api.go: the commands that only ask, and the daemon that they ask.
use Prim.Native.String.{◌++◌}
use lumn.Base.{
  ℕ, String, ◌≡◌, refl, ap, ◌∙◌, inl, inr, Bool, true, false, Option, none, List, [], ◌∷◌, leb,
  ◌=ₛ◌, Result, ok, err, if◌then◌else◌, Bool-cases, arith,
}
use lumn.Errkind.{GoError}
use lumn.Report.{Report}
use lumn.Value.{Fields}
use lumn.Store.{Codec}
use lumn.Trigger.{Env}
use lumn.Api.{Body, Response}
use lumn.Daemon.{Daemon, DaemonError}
use lumn.Daemon.Lifecycle.{Host}
use lumn.Daemon.Control.{Definition}
use lumn.Daemon.Http.Safe.{get, internal_handler-get}
use lumn.Client.{
  ClientError, Transport, failure_of, wrap_transport_error, do_json, get_health, get_workflows,
  get_status, workflow_path,
}
use lumn.Client.Served.{Reaches}
use lumn.Cli.Args.{usage_error, has_help_flag, parse_optional_selector, parse_logs_args}
use lumn.Cli.Commands.{line, printed, Printed, or_exit, text_of, Tool, new_daemon_client}
use lumn.Cli.Commands.Reach.{
  no_argument, require_daemon_selector, resolve_daemon_selector, check_selector, announce,
  forget_answer, run_list, run_watch, run_logs,
}
use lumn.Cli.Commands.Service.{daemon_health, run_daemon}

or_exit_kept {ℓ} :
    {W : Type 0} {A : Type ℓ} (start w : W) (r : Result String A) (k : A → W × Printed)
    → w ≡ start
    → ((a : A) → (k a).0 ≡ start)
    → (or_exit w r k).0 ≡ start
or_exit_kept start w (ok a) k same h = h a
or_exit_kept start w (err text) k same h = same

if_kept :
    {W : Type 0} (start : W) (b : Bool) (x y : W × Printed)
    → x.0 ≡ start
    → y.0 ≡ start
    → (if b then x else y).0 ≡ start
if_kept start true x y h k = h
if_kept start false x y h k = k

-- What a client does on a transport on which a GET request leaves the state as it was.
module _ {W : Type 0} (net : Transport W)
    (quiet : (path : String) (w : W) → (net.send (get path none) w).0 ≡ w) where
  do_json_kept : (path : String) (w : W) → (do_json net "GET" path none w).0 ≡ w
  unfolding do_json
  do_json_kept path w = same_state (net.send (get path none) w) ∙ quiet path w
    where
      same_state :
          (out : W × Result GoError Response)
          → (elim out.1 as (λ x. W × Result ClientError Body) [
            | err e ↦ (out.0, err (wrap_transport_error net e))
            | ok r ↦
                if leb 400 r.status
                then (out.0, err (failure_of net r.status r.body))
                else (out.0, ok r.body)
          ]).0
            ≡ out.0
      same_state (w', err e) = refl
      same_state (w', ok r) = ground arith

  get_workflows_kept : (w : W) → (get_workflows net w).0 ≡ w
  unfolding get_workflows
  get_workflows_kept w = do_json_kept "/api/v1/workflows" w

  get_health_kept : (w : W) → (get_health net w).0 ≡ w
  unfolding get_health
  get_health_kept w = do_json_kept "/api/v1/health" w

  get_status_kept : (id : String) (w : W) → (get_status net id w).0 ≡ w
  unfolding get_status
  get_status_kept id w = do_json_kept (workflow_path net.path_escape id "/status") w

  module _ (tool : Tool W) (made : new_daemon_client tool ≡ ok net) where
    check_selector_kept : (selector : String) (w : W) → (check_selector tool net selector w).0 ≡ w
    unfolding check_selector require_daemon_selector resolve_daemon_selector
    check_selector_kept selector w = elim (Bool-cases (selector =ₛ "")) [
      | inl all ↦ rw (all, check_selector) (get_health_kept w)
      | inr one ↦
          rw (one, check_selector)
            (after (require_daemon_selector tool net selector w) (get_workflows_kept w))
    ]
      where
        after :
            (out : W × Result ClientError String)
            → out.0 ≡ w
            → (elim out.1 as (λ x. W × Result ClientError (Unit {0})) [
              | err e ↦ (out.0, err e)
              | ok id ↦ (let (w2, answer) = get_status net id out.0 in (w2, forget_answer answer))
            ]).0
              ≡ w
        after (w', err e) same = same
        after (w', ok id) same = get_status_kept id w' ∙ same

    run_list_kept : (args : List String) (w : W) → (run_list tool args w).0 ≡ w
    unfolding run_list
    run_list_kept args w = if_kept w (has_help_flag args) _ _ refl (
        or_exit_kept w w (no_argument args) _ refl (λ _. rw made (
          or_exit_kept w (get_workflows net w).0 (text_of (get_workflows net w).1) _
            (get_workflows_kept w) (λ ws. get_workflows_kept w))))

    announce_kept :
        (parsed : Result String String) (text : String) (w : W)
        → (announce tool parsed text w).0 ≡ w
    announce_kept parsed text w = or_exit_kept w w parsed _ refl (λ selector. rw made (
        or_exit_kept w (check_selector tool net selector w).0
          (text_of (check_selector tool net selector w).1) _ (check_selector_kept selector w)
          (λ _. check_selector_kept selector w)))

    run_watch_kept : (args : List String) (w : W) → (run_watch tool args w).0 ≡ w
    unfolding run_watch
    run_watch_kept args w =
        if_kept w (has_help_flag args) _ _ refl
          (announce_kept (parse_optional_selector args "watch") _ w)

    run_logs_kept : (args : List String) (w : W) → (run_logs tool args w).0 ≡ w
    unfolding run_logs
    run_logs_kept args w =
        if_kept w (has_help_flag args) _ _ refl (announce_kept (parse_logs_args args) _ w)

    daemon_health_kept : (w : W) → (daemon_health tool w).0 ≡ w
    unfolding daemon_health
    daemon_health_kept w = rw made (
        or_exit_kept w (get_health net w).0 (text_of (get_health net w).1) _ (get_health_kept w)
          (λ n. get_health_kept w))

module _ (message : DaemonError → String) (env : Env) (host : Host) (json : Codec Fields)
    (reports : Codec Report) (load : String → Option Definition)
    (workflow_id_for : String → String → String) (others : Daemon → Daemon)
    (format_time : ℕ → String) (now : ℕ) where
  -- While the client reaches a daemon that runs, `list`, `watch`, `logs` and `daemon status` leave it
  -- as it was, whatever their arguments are and however they end.
  pub queries_kept :
      (tool : Tool Daemon) (net : Transport Daemon) (args : List String) (d : Daemon)
      → new_daemon_client tool ≡ ok net
      → Reaches message env host json reports load workflow_id_for others format_time now net
      → ((run_list tool args d).0 ≡ d)
        × ((run_watch tool args d).0 ≡ d)
        × ((run_logs tool args d).0 ≡ d)
        × ((run_daemon tool ("status" ∷ args) d).0 ≡ d)
  unfolding run_daemon
  queries_kept tool net args d made reach =
      let quiet : (path : String) (w : Daemon) → (net.send (get path none) w).0 ≡ w = λ path w.
        ap (λ (r : Daemon × Result GoError Response). r.0) (reach.0 (get path none) w)
        ∙ internal_handler-get message env host json reports load workflow_id_for others format_time
            now w (net.path_decode path) none in
      (
        run_list_kept net quiet tool made args d,
        run_watch_kept net quiet tool made args d,
        run_logs_kept net quiet tool made args d,
        if_kept d (has_help_flag args) _ _ refl
            (by_args args (daemon_health_kept net quiet tool made d)),
      )
    where
      by_args :
          (l : List String)
          → (daemon_health tool d).0 ≡ d
          → (elim l as (λ x. Daemon × Printed) [
            | [] ↦ daemon_health tool d
            | arg ∷ more ↦ (
              d,
              printed 1 [] (
                  line (
                    usage_error "daemon status"
                      ("daemon " ++ ("status" ++ " does not accept additional arguments")))
                  ∷ []),
            )
          ]).0
            ≡ d
      by_args [] h = h
      by_args (arg ∷ more) h = refl
