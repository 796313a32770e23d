-- ===== src/Errkind/Context.antt =====
-- errkind.go: what `WithContext` keeps of an error.
use lumn.Base.{ℕ, String, ◌≡◌, refl, Option, none, some}
use lumn.Errkind.{
  Info, GoError, as_error, to_error, with_context, with_context_found, status_found, exit_status,
}

pub as_error-to_error : (r : Info × Option GoError) → as_error (to_error r) ≡ some r
unfolding as_error
as_error-to_error (i, none) = refl
as_error-to_error (i, some cause) = refl

module _ (primitive : String) (position : ℕ) (callable : String) where
  status-with_context_found :
      (e : GoError) (r : Option (Info × Option GoError))
      → status_found (some (with_context_found primitive position callable e r)) ≡ status_found r
  unfolding with_context_found
  status-with_context_found e none = refl
  status-with_context_found e (some (i, cause)) = refl

  -- The context that `WithContext` adds to an error, typed or not, never changes the exit status.
  pub exit_status-with_context :
      (e : GoError)
      → exit_status (some (to_error (with_context e primitive position callable)))
        ≡ exit_status (some e)
  unfolding exit_status with_context
  exit_status-with_context e = rw as_error-to_error (status-with_context_found e (as_error e))

with_context_found_empty :
    (e : GoError) (r : Info × Option GoError) → with_context_found "" 0 "" e (some r) ≡ r
unfolding with_context_found
with_context_found_empty e (i, cause) = refl

-- On an error that has an `*Error` on its chain, `WithContext` with no context gives that `*Error`
-- back.
pub with_context_empty :
    (e : GoError) (r : Info × Option GoError) → as_error e ≡ some r → with_context e "" 0 "" ≡ r
unfolding with_context
with_context_empty e r found = rw found (with_context_found_empty e r)
