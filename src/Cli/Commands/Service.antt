-- ===== src/Cli/Commands/Service.antt =====
-- cli.go: the commands on the daemon itself, and the start of its process.
use Prim.Native.String.{◌++◌}
use lumn.Base.{
  ℕ, zero, suc, String, Bool, true, false, Option, none, some, List, [], ◌∷◌, ◌=ₛ◌, Result, ok, err,
  if◌then◌else◌,
}
use lumn.Errkind.{GoError, error_text}
use lumn.Client.{ClientError, client_text, Transport, get_health, post_shutdown}
use lumn.Client.Paths.{Paths, default_paths}
use lumn.Cli.Args.{usage_error, is_help_token, has_help_flag}
use lumn.Cli.Commands.{
  line, help_page, daemon_status, Printed, printed, succeed, or_exit, text_of, Tool,
  new_daemon_client,
}

-- `daemonBinaryName`.
abbrev pub daemon_binary_name : Bool → String
daemon_binary_name is_windows = if is_windows then "lumnd.exe" else "lumnd"

-- An error where there is one.
abbrev pub unless_error : Option GoError → Result String (Unit {0})
unless_error none = ok tt
unless_error (some e) = err (error_text e)

abbrev pub is_up : Result ClientError ℕ → Bool
is_up (ok n) = true
is_up (err e) = false

module _ {W : Type 0} (tool : Tool W) where
  -- `resolveLumndBinary`.
  unfoldable pub resolve_lumnd_binary : Result GoError String
  resolve_lumnd_binary =
      let given = tool.process.getenv "LUMN_LUMND_BIN" in
      let name = daemon_binary_name tool.process.is_windows in
      if given =ₛ ""
      then elim tool.executable [
        | err e ↦ tool.look_path name
        | ok current ↦
            let candidate = tool.process.join (tool.dir current) name in
            if tool.file_exists candidate then ok candidate else tool.look_path name
      ]
      else ok given

  -- The loop that waits for the daemon, over the rounds that the deadline leaves.
  unfoldable pub await_ready : Transport W → ℕ → W → W × Result String (Unit {0})
  unfolding get_health
  await_ready net zero w = (w, err "daemon did not become ready in time")
  await_ready net (suc rounds) w =
      let (w', answer) = get_health net (tool.sleep w) in
      let later = await_ready net rounds w' in if is_up answer then (w', ok tt) else later

  -- `startDaemonProcess` from the log on.
  unfoldable pub launch : Transport W → Paths → W → W × Result String (Unit {0})
  unfolding resolve_lumnd_binary await_ready error_text
  launch net paths w =
      let (w1, opened) = tool.open_log paths.log_path w in
      elim opened [
        | some e ↦ (w1, err (error_text e))
        | none ↦ elim resolve_lumnd_binary [
          | err e ↦ (w1, err (error_text e))
          | ok command ↦
              let (w2, started) = tool.start command w1 in
              elim started [
                | some e ↦ (w2, err (error_text e))
                | none ↦ await_ready net tool.rounds w2
              ]
        ]
      ]

  -- `startDaemonProcess`.
  unfoldable pub start_daemon_process : W → W × Result String (Unit {0})
  unfolding default_paths get_health launch error_text
  start_daemon_process w = elim (default_paths tool.process) [
    | err e ↦ (w, err (error_text e))
    | ok paths ↦
        let (w1, made) = tool.ensure_state_dir paths.state_dir w in
        elim made [
          | some e ↦ (w1, err (error_text e))
          | none ↦
              let (w2, answer) = get_health (tool.transport paths) w1 in
              if is_up answer
              then (w2, err "daemon is already running")
              else launch (tool.transport paths) paths w2
        ]
  ]

  -- The cases of `runDaemonCommand`, each behind its own help and its check of the arguments.
  abbrev pub service : String → List String → W → (W → W × Printed) → W × Printed
  service name rest w body =
      if has_help_flag rest then (w, succeed (help_page ("daemon " ++ name))) else elim rest [
        | [] ↦ body w
        | arg ∷ more ↦ (
          w,
          printed 1 [] (
              line (
                usage_error ("daemon " ++ name)
                  ("daemon " ++ (name ++ " does not accept additional arguments")))
              ∷ []),
        )
      ]

  unfoldable pub daemon_start : W → W × Printed
  unfolding start_daemon_process
  daemon_start w =
      let (w', started) = start_daemon_process w in
      or_exit w' started (λ _. (w', succeed (line "daemon started")))

  unfoldable pub daemon_stop : W → W × Printed
  unfolding new_daemon_client post_shutdown client_text
  daemon_stop w = or_exit w (new_daemon_client tool) (λ net.
      let (w', answer) = post_shutdown net w in
      or_exit w' (text_of answer) (λ _. (w', succeed (line "daemon stopped"))))

  unfoldable pub daemon_health : W → W × Printed
  unfolding new_daemon_client get_health client_text
  daemon_health w = or_exit w (new_daemon_client tool) (λ net.
      let (w', answer) = get_health net w in
      or_exit w' (text_of answer) (λ n. (w', succeed (daemon_status n))))

  -- `runDaemonCommand`.
  unfoldable pub run_daemon : List String → W → W × Printed
  unfolding has_help_flag usage_error daemon_start daemon_stop daemon_health
  run_daemon [] w = (w, printed 1 [] (help_page "daemon" ∷ []))
  run_daemon (name ∷ rest) w =
      if is_help_token name
      then (w, succeed (help_page "daemon"))
      else if name =ₛ "start"
      then service name rest w daemon_start
      else if name =ₛ "stop"
      then service name rest w daemon_stop
      else if name =ₛ "status"
      then service name rest w daemon_health
      else (
        w,
        printed 1 [] (
            line ("unknown daemon command " ++ (tool.quote name ++ "\n"))
            ∷ help_page "daemon"
            ∷ []),
      )
