-- ===== src/Report.antt =====
-- The reports of internal/executor/executor.go (`Report`, `FailureReport`) and of
-- internal/engine/engine.go (`errorReport`, `reportError`, `resolveVersion`).
use lumn.Base.{ℕ, String, ◌≡◌, refl, Option, none, some, List, [], ◌∷◌, ◌=ₛ◌, if◌then◌else◌}
use lumn.Errkind.{
  Info, GoError, type_generic, error_text, as_error, with_context, with_context_found,
}

pub record ReportError : Type 0 where
  pub kind : String
  pub primitive : String
  pub position : ℕ
  pub message : String
  pub callable : String

pub record Report : Type 0 where
  pub workflow : String
  pub version : String
  pub status : String
  pub items_in : ℕ
  pub items_out : ℕ
  pub errors : List ReportError
  pub duration_ms : ℕ

abbrev pub of_info : Info → ReportError
of_info i = record {
  kind = i.kind;
  primitive = i.primitive;
  position = i.position;
  message = i.message;
  callable = i.callable;
}

-- The failed report that both functions build around one error.
abbrev failed : String → String → ReportError → Report
failed workflow version e = record {
  workflow = workflow;
  version = version;
  status = "error";
  items_in = 0;
  items_out = 0;
  errors = e ∷ [];
  duration_ms = 0;
}

failure_of : GoError → Option (Info × Option GoError) → ReportError
failure_of err (some (i, cause)) = of_info i
failure_of err none = record {
  kind = type_generic;
  primitive = "";
  position = 0;
  message = error_text err;
  callable = "";
}

-- `FailureReport` of the executor.
unfoldable pub failure_report : String → String → GoError → Report
unfolding failure_of as_error error_text
failure_report workflow version err = failed workflow version (failure_of err (as_error err))

-- `reportError` of the engine. `WithContext` of an error that is not nil is not nil, so the branch
-- behind its test is dead.
unfoldable pub report_error : GoError → ReportError
unfolding with_context
report_error err = of_info (with_context err "" 0 "").0

-- `errorReport` of the engine.
unfoldable pub error_report : String → String → GoError → Report
unfolding report_error
error_report workflow version err = failed workflow version (report_error err)

-- `resolveVersion`.
unfoldable pub resolve_version : String → String
resolve_version version = if version =ₛ "" then "latest" else version

of_info-with_context_found :
    (err : GoError) (r : Option (Info × Option GoError))
    → of_info (with_context_found "" 0 "" err r).0 ≡ failure_of err r
unfolding with_context_found failure_of
of_info-with_context_found err none = refl
of_info-with_context_found err (some (i, cause)) = refl

-- The engine and the executor report every error alike, typed or not: `errorReport` and
-- `FailureReport` are one function.
pub error_report-eq-failure_report :
    (workflow version : String) (err : GoError)
    → error_report workflow version err ≡ failure_report workflow version err
unfolding error_report failure_report
error_report-eq-failure_report workflow version err =
    let same = of_info-with_context_found err (as_error err) in
    λ i. failed workflow version (same i)
