-- ===== src/Tests/Sources.antt =====
-- daemon.go: a webhook is called, and a file is created and then written.
use lumn.Base.{◌≡◌, refl, true, false, some, [], ◌∷◌}
use lumn.Trigger.{FileWatcherConfig, FsEvent}
use lumn.Webhooks.{put_route, no_routes}
use lumn.Daemon.{Daemon}
use lumn.Daemon.Sources.{WebhookRequest, no_body, serve_http, on_events, on_elapse}
use lumn.Daemon.Sources.Served.{Served, serve_http-Served}
use lumn.Daemon.Sources.Debounce.{last_kind, on_events-elapse}
use lumn.Tests.Queue.{statuses}
use lumn.Tests.Triggers.{env}
use lumn.Tests.Daemon.{types, daemon}

abbrev hooked : Daemon
hooked = record daemon {
  routes =
      put_route (record { workflow_id = "a1"; method = "POST"; path = "/hooks/sync" }) no_routes;
}

abbrev call_hook : WebhookRequest
call_hook = record {
  method = "POST";
  path = "/hooks/sync";
  body = no_body;
  headers = ("Accept", "text/plain" ∷ []) ∷ [];
}

serve_http-Served_example :
    Served hooked "a1" call_hook (serve_http types statuses 12 (λ s. s) call_hook hooked)
serve_http-Served_example = serve_http-Served types statuses 12 (λ s. s) call_hook hooked "a1"

abbrev any_file : FileWatcherConfig
any_file = record { path = "/in"; pattern = ""; event = "any"; debounce = 500_000_000 }

abbrev created : FsEvent
created = record { name = "a"; create = true; write = false; remove = false; rename = false }

abbrev written : FsEvent
written = record { name = "a"; create = false; write = true; remove = false; rename = false }

on_events-elapse_example :
    on_elapse "a" (on_events env any_file (created ∷ written ∷ []) (("b", "delete") ∷ [])) ≡ (
      (on_elapse "a" (("b", "delete") ∷ [])).0,
      last_kind env any_file (created ∷ written ∷ []) (on_elapse "a" (("b", "delete") ∷ [])).1,
    )
on_events-elapse_example =
    on_events-elapse env any_file "a" (created ∷ written ∷ []) (("b", "delete") ∷ [])
      (refl, (refl, tt))

burst_test :
    on_elapse "a" (on_events env any_file (created ∷ written ∷ []) (("b", "delete") ∷ []))
    ≡ (("b", "delete") ∷ [], some "modify")
unfolding on_elapse on_events
burst_test = refl
