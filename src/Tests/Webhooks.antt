-- ===== src/Tests/Webhooks.antt =====
-- daemon.go: two workflows that register webhooks.
use lumn.Base.{◌≡◌, refl, ok}
use lumn.Webhooks.{Route, Routes, no_routes, put_route, register, remove_workflow}
use lumn.Webhooks.Owners.{Cleared, remove_workflow-register}

abbrev mail_route : Route
mail_route = record { workflow_id = "b2"; method = "POST"; path = "/hooks/mail" }

abbrev sync_route : Route
sync_route = record { workflow_id = "a1"; method = "POST"; path = "/hooks/sync" }

abbrev before : Routes
before = put_route mail_route no_routes

accepted : register "a1" "POST" "/hooks/sync" before ≡ ok (put_route sync_route before)
unfolding register
accepted = refl

remove_workflow-register_example :
    Cleared "a1"
      (before "POST /hooks/mail")
      (remove_workflow "a1" (put_route sync_route before) "POST /hooks/mail")
remove_workflow-register_example =
    remove_workflow-register "a1" "POST" "/hooks/sync" before (put_route sync_route before) accepted
      "POST /hooks/mail"
