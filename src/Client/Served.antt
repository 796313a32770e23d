-- ===== src/Client/Served.antt =====
-- client.go and api.go: a request of the client on the handlers of a daemon that runs, which does what
-- the daemon does itself.
use Prim.Native.String.{◌++◌}
use lumn.Base.{
  ℕ, String, ◌≡◌, refl, sym, ap, ◌∙◌, inl, inr, false, Option, none, List, map, ◌=ₛ◌, Result, ok,
  err, Bool-cases, eq_iff,
}
use lumn.Base.Text.{has_prefix, has_prefix-append, contains}
use lumn.Report.{Report}
use lumn.Value.{Fields}
use lumn.Store.{Codec, StoreError}
use lumn.Trigger.{Env}
use lumn.Api.{error_body}
use lumn.Daemon.{Daemon, DaemonError, Done, store_error}
use lumn.Daemon.Bundles.{Bundle, list_bundles, summarize_workflow}
use lumn.Daemon.Lifecycle.{Host}
use lumn.Daemon.Control.{Definition, stop_workflow, delete, restart_workflow}
use lumn.Daemon.Http.{
  Request, Answer, mutated, write_workflow_error, handle_action, handle_workflow_by_id,
  handle_workflows, internal_handler,
}
use lumn.Daemon.Http.Paths.{NoSlash, NoDots, plain_path, has_percent, Unescapes, parts-plain}
use lumn.Client.{
  ClientError, Transport, workflow_path, failure_of, do_json, call, mutation_of, post_stop,
  send_delete, post_restart, get_workflows,
}
use lumn.Cli.Commands.Reach.{Verb, send_verb}

-- A text is not another one that lacks its prefix.
differs : (p s other : String) → has_prefix other p ≡ false → ((p ++ s) =ₛ other) ≡ false
differs p s other h = elim (Bool-cases ((p ++ s) =ₛ other)) [
  | inr e ↦ e
  | inl e ↦
      let same = (eq_iff (p ++ s) other).0 e in
      let clash = sym (ap (λ t. has_prefix t p) same) in cc (clash, has_prefix-append p s)
]

-- An id that stands in a path as one part.
abbrev pub Plain : String → Type 0
Plain id = NoSlash id × ((id =ₛ "") ≡ false) × NoDots id

module _ (message : DaemonError → String) (env : Env) (host : Host) (json : Codec Fields)
    (reports : Codec Report) (load : String → Option Definition)
    (workflow_id_for : String → String → String) (others : Daemon → Daemon)
    (format_time : ℕ → String) (now : ℕ) where
  -- The handlers at the parameters of the section.
  abbrev pub handler : Request → Daemon → Answer
  handler =
      internal_handler message env host json reports load workflow_id_for others format_time now

  -- The request as a handler is given it.
  abbrev pub received : Transport Daemon → Request → Request
  received net req = record req { path = net.path_decode req.path }

  -- A transport that reaches the daemon, with the paths of its requests decoded.
  abbrev pub Reaches : Transport Daemon → Type 0
  Reaches net =
      ((req : Request) (d : Daemon)
        → net.send req d ≡ ((handler (received net req) d).0, ok (handler (received net req) d).1))
      × Unescapes net.path_escape net.path_decode

  abbrev request : String → String → Request
  request method path = record { method = method; path = path; payload = none }

  -- A path below that of the workflows is routed to its handler.
  routed :
      (method rest : String) (d : Daemon)
      → handler (request method ("/api/v1/workflows/" ++ rest)) d
        ≡ handle_workflow_by_id message env host json reports load workflow_id_for others
            format_time now
            (request method ("/api/v1/workflows/" ++ rest))
            d
  unfolding internal_handler has_prefix
  routed method rest d =
      rw
        (
          differs "/api/v1/workflows/" rest "/api/v1/health" refl,
          differs "/api/v1/workflows/" rest "/api/v1/workflows" refl,
          has_prefix-append "/api/v1/workflows/" rest,
        )
        refl

  -- What the daemon itself does for a command, and the word of its answer.
  abbrev pub perform : Verb → String → Daemon → Daemon × Done
  perform Verb.stop = stop_workflow env host json reports load workflow_id_for others now
  perform Verb.delete = delete env host json reports load workflow_id_for others now
  perform Verb.restart = restart_workflow env host json reports load workflow_id_for others now

  abbrev pub past : Verb → String
  past Verb.stop = "stopped"
  past Verb.delete = "deleted"
  past Verb.restart = "restarted"

  abbrev pub reply : Transport Daemon → Verb → String → Done → Result ClientError (String × String)
  reply net verb id (ok u) = ok (id, "workflow " ++ id ++ " " ++ past verb)
  reply net verb id (err e) =
      let r = write_workflow_error message e in err (failure_of net r.status r.body)

  -- The answer to the change of a workflow, as the client reads it.
  decoded-mutated :
      (net : Transport Daemon) (verb : Verb) (id method path : String) (out : Daemon × Done)
      (d : Daemon)
      → Reaches net
      → handler (request method (net.path_decode path)) d ≡ mutated message id (past verb) out
      → call net mutation_of method path none d ≡ (out.0, reply net verb id out.1)
  unfolding do_json mutated write_workflow_error
  decoded-mutated net verb id method path (d', ok u) d reach e =
      rw (reach.0 (request method path) d, e, do_json)
        (rw (reach.0 (request method path) d, e) refl)
  decoded-mutated net verb id method path (d', err x) d reach e =
      elim (Bool-cases (contains (message x) "not found")) [
        | inl missing ↦
            rw (reach.0 (request method path) d, e, missing, do_json, write_workflow_error)
              (rw (reach.0 (request method path) d, e) refl)
        | inr present ↦
            rw (reach.0 (request method path) d, e, present, do_json, write_workflow_error)
              (rw (reach.0 (request method path) d, e) refl)
      ]

  -- The request of a command.
  abbrev verb_request : Verb → String → Request
  verb_request Verb.stop id = request "POST" (plain_path id "/stop")
  verb_request Verb.delete id = request "DELETE" (plain_path id "")
  verb_request Verb.restart id = request "POST" (plain_path id "/restart")

  verb_handled :
      (verb : Verb) (id : String) (d : Daemon)
      → Plain id
      → handler (verb_request verb id) d ≡ mutated message id (past verb) (perform verb id d)
  unfolding handle_workflow_by_id handle_action
  verb_handled Verb.stop id d (h, k, dots) =
      routed "POST" (id ++ "/stop") d
      ∙ rw ((parts-plain id h k).0, k, handle_workflow_by_id) (rw (parts-plain id h k).0 refl)
  verb_handled Verb.delete id d (h, k, dots) =
      routed "DELETE" (id ++ "") d
      ∙ rw ((parts-plain id h k).4, k, handle_workflow_by_id) (rw (parts-plain id h k).4 refl)
  verb_handled Verb.restart id d (h, k, dots) =
      routed "POST" (id ++ "/restart") d
      ∙ rw ((parts-plain id h k).1, k, handle_workflow_by_id) (rw (parts-plain id h k).1 refl)

  -- On an id that stands in a path as one part, the request of `stop`, `delete` or `restart` to a
  -- daemon that runs leaves it as its own operation does, and the answer tells how that went.
  pub send_verb-Performs :
      (net : Transport Daemon) (verb : Verb) (id : String) (d : Daemon)
      → Reaches net
      → Plain id
      → send_verb verb net id d ≡ ((perform verb id d).0, reply net verb id (perform verb id d).1)
  unfolding send_verb post_stop send_delete post_restart has_percent
  send_verb-Performs net Verb.stop id d reach plain =
      decoded-mutated net Verb.stop id "POST" (workflow_path net.path_escape id "/stop")
        (perform Verb.stop id d) d reach
        (ap (λ path. handler (request "POST" path) d)
            (reach.1.1 "/api/v1/workflows/" id "/stop" refl refl)
          ∙ verb_handled Verb.stop id d plain)
  send_verb-Performs net Verb.delete id d reach plain =
      decoded-mutated net Verb.delete id "DELETE" (workflow_path net.path_escape id "")
        (perform Verb.delete id d) d reach
        (ap (λ path. handler (request "DELETE" path) d)
            (reach.1.1 "/api/v1/workflows/" id "" refl refl)
          ∙ verb_handled Verb.delete id d plain)
  send_verb-Performs net Verb.restart id d reach plain =
      decoded-mutated net Verb.restart id "POST" (workflow_path net.path_escape id "/restart")
        (perform Verb.restart id d) d reach
        (ap (λ path. handler (request "POST" path) d)
            (reach.1.1 "/api/v1/workflows/" id "/restart" refl refl)
          ∙ verb_handled Verb.restart id d plain)

  -- A request on a path that needs no decoding.
  reached :
      (net : Transport Daemon) (req : Request) (d : Daemon)
      → Reaches net
      → has_percent req.path ≡ false
      → net.send req d ≡ ((handler req d).0, ok (handler req d).1)
  reached net req d reach clean =
      reach.0 req d
      ∙ ap
          (λ path. (
            (handler (record req { path = path }) d).0,
            ok (handler (record req { path = path }) d).1,
          ))
          (reach.1.0 req.path clean)

  -- The list, as the client reads it from a daemon that runs.
  pub get_workflows-Served :
      (net : Transport Daemon) (d : Daemon) (bs : List Bundle)
      → Reaches net
      → list_bundles json reports d ≡ ok bs
      → get_workflows net d ≡ (d, ok (map (summarize_workflow format_time) bs))
  unfolding get_workflows do_json internal_handler handle_workflows has_percent
  get_workflows-Served net d bs reach good =
      rw (reached net (request "GET" "/api/v1/workflows") d reach refl, good, do_json)
        (rw (reached net (request "GET" "/api/v1/workflows") d reach refl, good) refl)

  -- A list that cannot be read is an error for the client.
  pub get_workflows-failed :
      (net : Transport Daemon) (d : Daemon) (e : StoreError)
      → Reaches net
      → list_bundles json reports d ≡ err e
      → get_workflows net d ≡ (d, err (failure_of net 500 (error_body (message (store_error e)))))
  unfolding get_workflows do_json internal_handler handle_workflows has_percent
  get_workflows-failed net d e reach bad =
      rw (reached net (request "GET" "/api/v1/workflows") d reach refl, bad, do_json)
        (rw (reached net (request "GET" "/api/v1/workflows") d reach refl, bad) refl)
