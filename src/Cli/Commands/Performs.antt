-- ===== src/Cli/Commands/Performs.antt =====
-- cli.go, client.go, api.go and daemon.go: what `stop`, `delete` and `restart` do to a daemon that runs,
-- from the selector on the command line to the state of the daemon.
use Prim.Native.String.{◌++◌}
use lumn.Base.{
  ℕ, ◌≤◌, String, ◌≡◌, refl, sym, ap, subst, ◌∙◌, ◌⊎◌, inl, inr, false, Option, none, some, List,
  [], ◌∷◌, map, length, ◌=ₛ◌, Result, ok, err, Result-cases, All, All-In, exists-In, eq_iff, arith,
}
use lumn.Report.{Report}
use lumn.Value.{Fields}
use lumn.Store.{Codec, Workflow}
use lumn.Trigger.{Env}
use lumn.Api.{WorkflowResponse}
use lumn.Daemon.{Daemon, DaemonError, Done, resolve_workflow}
use lumn.Daemon.Lifecycle.{Host}
use lumn.Daemon.Control.{Definition}
use lumn.Daemon.Bundles.{Bundle, list_bundles, summarize_workflow}
use lumn.Daemon.Bundles.Listed.{Meant, listed_registered, listed-Resolves, listed-Meant}
use lumn.Client.{ClientError, Transport}
use lumn.Client.Served.{
  Plain, Reaches, perform, past, reply, send_verb-Performs, get_workflows-Served,
  get_workflows-failed,
}
use lumn.Cli.Select.{SelectError, select_workflow_id}
use lumn.Cli.Commands.{line, Printed, succeed, or_exit, text_of, Tool, new_daemon_client}
use lumn.Cli.Commands.Fallback.{no_help}
use lumn.Cli.Args.{has_help_flag}
use lumn.Base.Text.{has_prefix}
use lumn.Cli.Commands.Reach.{
  Verb, send_verb, require_daemon_selector, resolve_daemon_selector, mutate, run_selector_mutation,
  required, chosen, selected_as,
}

module _ (message : DaemonError → String) (env : Env) (host : Host) (json : Codec Fields)
    (reports : Codec Report) (load : String → Option Definition)
    (workflow_id_for : String → String → String) (others : Daemon → Daemon)
    (format_time : ℕ → String) (now : ℕ) where
  abbrev run : Verb → String → Daemon → Daemon × Done
  run = perform message env host json reports load workflow_id_for others format_time now

  abbrev verb_past : Verb → String
  verb_past = past message env host json reports load workflow_id_for others format_time now

  -- The command has done what the daemon's own operation does for a registered workflow that the
  -- selector means, and says so; or it ends with the status 1 and an error, and the daemon is as it
  -- was or as its own operation on such a workflow leaves it that failed.
  abbrev Performed : String → Verb → Daemon → Daemon × Printed → Type 0
  Performed selector verb d (d', p) =
      (w : Workflow) × Meant selector d.db w.id
      × (resolve_workflow d w.id ≡ ok w)
      × (run verb w.id d ≡ (d', ok tt))
      × (p ≡ succeed (line ("workflow " ++ w.id ++ " " ++ verb_past verb)))

  abbrev Rejected : String → Verb → Daemon → Daemon × Printed → Type 0
  Rejected selector verb d (d', p) =
      (p.exit ≡ 1)
      × (p.stdout ≡ [])
      × (1 ≤ length p.stderr)
      × ((d' ≡ d)
          ⊎ ((w : Workflow) × (e : DaemonError) × Meant selector d.db w.id
              × (resolve_workflow d w.id ≡ ok w)
              × (run verb w.id d ≡ (d', err e))))

  abbrev pub Performs : String → Verb → Daemon → Daemon × Printed → Type 0
  Performs selector verb d out = Performed selector verb d out ⊎ Rejected selector verb d out

  module _ (tool : Tool Daemon) (net : Transport Daemon)
      (reach : Reaches message env host json reports load workflow_id_for others format_time now
        net)
      (verb : Verb) (selector : String) (d : Daemon)
      (plain : All (λ w. Plain w.id) d.db.workflows) where
    abbrev answer : Done → String → Result ClientError (String × String)
    answer result id =
        reply message env host json reports load workflow_id_for others format_time now net verb id
          result

    answered :
        (w : Workflow) (out : Daemon × Done)
        → Meant selector d.db w.id
        → resolve_workflow d w.id ≡ ok w
        → run verb w.id d ≡ out
        → Performs selector verb d (
            or_exit out.0
              (text_of (answer out.1 w.id))
              (λ (r : String × String). (out.0, succeed (line r.1))))
    answered w (d', ok u) meant resolved ran = inl (w, meant, resolved, ran, refl)
    answered w (d', err e) meant resolved ran =
        inr (refl, refl, omega arith, inr (w, e, meant, resolved, ran))

    -- The command once the client has selected an id.
    selected :
        (bs : List Bundle) (id : String)
        → list_bundles json reports d ≡ ok bs
        → select_workflow_id (map (summarize_workflow format_time) bs) selector ≡ ok (some id)
        → Performs selector verb d (
            let (d', result) = send_verb verb net id d in
            or_exit d' (text_of result) (λ (r : String × String). (d', succeed (line r.1))))
    selected bs id good chosen =
        let (w, resolved, same) =
          listed-Resolves json reports format_time d bs selector id good chosen in
        let (v, m, hit) =
          exists-In (λ x. x.id =ₛ id) d.db.workflows
            (listed_registered json reports format_time d bs selector id good chosen) in
        let here : Plain id =
          subst Plain ((eq_iff v.id id).0 hit)
            (All-In (λ x. Plain x.id) v d.db.workflows plain m) in
        rw
          (send_verb-Performs message env host json reports load workflow_id_for others format_time
            now net verb id d reach here)
          (subst
            (λ i. Performs selector verb d (
              or_exit (run verb i d).0 (text_of (answer (run verb i d).1 i))
                (λ (r : String × String). ((run verb i d).0, succeed (line r.1)))))
            same
            (answered w (run verb w.id d)
              (subst (Meant selector d.db) (sym same)
                (listed-Meant json reports format_time d bs selector id good chosen))
              (subst (λ i. resolve_workflow d i ≡ ok w) (sym same) resolved) refl))

    -- What follows the resolution of the selector.
    abbrev continued : Daemon × Result ClientError String → Daemon × Printed
    continued (w, resolved) = or_exit w (text_of resolved) (λ id.
        let (w', result) = send_verb verb net id w in
        or_exit w' (text_of result) (λ (r : String × String). (w', succeed (line r.1))))

    -- An error of the client before its request.
    unresolved :
        (e : ClientError)
        → require_daemon_selector tool net selector d ≡ (d, err e)
        → Performs selector verb d (mutate tool verb net selector d)
    unfolding mutate
    unresolved e h =
        subst (λ r. Performs selector verb d (continued r)) (sym h)
          (inr (refl, refl, omega arith, inl refl))

    required_as :
        (bs : List Bundle) (r : Result SelectError (Option String))
        → list_bundles json reports d ≡ ok bs
        → select_workflow_id (map (summarize_workflow format_time) bs) selector ≡ r
        → require_daemon_selector tool net selector d
          ≡ (d, required tool (selected_as tool r) selector)
    unfolding require_daemon_selector resolve_daemon_selector
    required_as bs r good picked =
        ap
          (λ (a : Daemon × Result ClientError (List WorkflowResponse)).
            (a.0, required tool (chosen tool a.1 selector) selector))
          (get_workflows-Served message env host json reports load workflow_id_for others
            format_time now net d bs reach good)
        ∙ ap (λ x. (d, required tool (selected_as tool x) selector)) picked

    mutate-Performs : Performs selector verb d (mutate tool verb net selector d)
    unfolding mutate require_daemon_selector resolve_daemon_selector
    mutate-Performs = elim (Result-cases (list_bundles json reports d)) [
      | inr (e, bad) ↦ unresolved _ (
          ap
            (λ (r : Daemon × Result ClientError (List WorkflowResponse)).
              (r.0, required tool (chosen tool r.1 selector) selector))
            (get_workflows-failed message env host json reports load workflow_id_for others
              format_time now net d e reach bad))
      | inl (bs, good) ↦
          elim (Result-cases
            (select_workflow_id (map (summarize_workflow format_time) bs) selector)) [
              | inr (e, unclear) ↦ unresolved _ (required_as bs (err e) good unclear)
              | inl (none, missing) ↦ unresolved _ (required_as bs (ok none) good missing)
              | inl (some id, found) ↦
                  subst (λ r. Performs selector verb d (continued r))
                    (sym (required_as bs (ok (some id)) good found)) (selected bs id good found)
            ]
    ]

    -- While the client reaches a daemon that runs, in which every id stands in a path as one part:
    -- stop, delete and restart on a selector that is no flag either print that a workflow was changed,
    -- and have done what the daemon's own operation does for it; or they end with the status 1 and an
    -- error alone, and the daemon is as it was, or as its own operation on a workflow leaves it that
    -- failed. Either workflow is one that is registered under the selector as its id or its name, or
    -- whose id begins with the selector.
    pub run_selector_mutation-Performs :
        new_daemon_client tool ≡ ok net
        → has_prefix selector "-" ≡ false
        → Performs selector verb d (run_selector_mutation tool verb (selector ∷ []) d)
    unfolding run_selector_mutation has_help_flag
    run_selector_mutation-Performs made no_flag =
        rw (no_help selector no_flag, no_flag, made, run_selector_mutation) mutate-Performs
