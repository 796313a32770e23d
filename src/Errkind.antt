-- ===== src/Errkind.antt =====
-- pkg/errkind/errkind.go: the error type that every part of the program returns, the exit status of
-- the command line and the text that it prints.
pub mod Context
use Prim.Native.String.{◌++◌}
use lumn.Base.{ℕ, String, Bool, ◌&&◌, Option, none, some, ltb, ◌==◌, ◌=ₛ◌, if◌then◌else◌}

-- `ExitCode`, in the order of its constants.
pub data ExitCode : Type 0 where
  ok_code generic_code syntax_code structure_code unknown_primitive_code : ExitCode
  invalid_signature_code sandbox_code runtime_code : ExitCode
  workflow_not_found_code callable_not_found_code : ExitCode

-- The number of a constant, by `iota`.
abbrev pub to_int : ExitCode → ℕ
to_int ok_code = 0
to_int generic_code = 1
to_int syntax_code = 2
to_int structure_code = 3
to_int unknown_primitive_code = 4
to_int invalid_signature_code = 5
to_int sandbox_code = 6
to_int runtime_code = 7
to_int workflow_not_found_code = 8
to_int callable_not_found_code = 9

abbrev pub type_generic : String
type_generic = "generic"

abbrev pub type_runtime : String
type_runtime = "runtime"

-- `TypeForCode`.
unfoldable pub type_for_code : ExitCode → String
type_for_code syntax_code = "syntax"
type_for_code structure_code = "structure"
type_for_code unknown_primitive_code = "unknown_primitive"
type_for_code invalid_signature_code = "invalid_signature"
type_for_code sandbox_code = "sandbox"
type_for_code runtime_code = "runtime"
type_for_code workflow_not_found_code = "workflow_not_found"
type_for_code callable_not_found_code = "callable_not_found"
type_for_code _ = "generic"

-- The fields of an `Error` but for `Err`. A `Position` is never negative.
pub record Info : Type 0 where
  pub code : ExitCode
  pub kind : String
  pub message : String
  pub primitive : String
  pub position : ℕ
  pub callable : String

-- A Go `error` that is not nil: an `*Error` without and with a field `Err`, an error of another
-- package, and one that `fmt.Errorf` wraps by `%w`, with the text that it prints.
pub data GoError : Type 0 where
  typed : Info → GoError
  typed_over : Info → GoError → GoError
  plain : String → GoError
  wraps : String → GoError → GoError

-- `New`.
unfoldable pub new_error : ExitCode → String → String → GoError
new_error code kind message = typed (record {
  code = code;
  kind = kind;
  message = message;
  primitive = "";
  position = 0;
  callable = "";
})

-- `Wrap`.
unfoldable pub wrap : ExitCode → String → String → GoError → GoError
wrap code kind message cause =
    typed_over
      (record {
        code = code;
        kind = kind;
        message = message;
        primitive = "";
        position = 0;
        callable = "";
      })
      cause

-- The text of `err.Error()`.
unfoldable pub error_text : GoError → String
error_text (typed i) = if i.message =ₛ "" then i.kind else i.message
error_text (typed_over i cause) = if i.message =ₛ "" then error_text cause else i.message
error_text (plain s) = s
error_text (wraps s cause) = s

-- `errors.As` with a target of type `*Error`: the first one on the chain of `Unwrap`, with its `Err`.
unfoldable pub as_error : GoError → Option (Info × Option GoError)
as_error (typed i) = some (i, none)
as_error (typed_over i cause) = some (i, some cause)
as_error (plain s) = none
as_error (wraps s cause) = as_error cause

-- The error that a struct and its `Err` are.
abbrev pub to_error : Info × Option GoError → GoError
to_error (i, none) = typed i
to_error (i, some cause) = typed_over i cause

-- The clone of `WithContext`: what is given replaces what was there.
abbrev pub add_context : String → ℕ → String → Info → Info
add_context primitive position callable i = record i {
  primitive = if primitive =ₛ "" then i.primitive else primitive;
  position = if ltb 0 position then position else i.position;
  callable = if callable =ₛ "" then i.callable else callable;
}

unfoldable pub with_context_found :
    String → ℕ → String → GoError → Option (Info × Option GoError) → Info × Option GoError
with_context_found primitive position callable err (some (i, cause)) =
    (add_context primitive position callable i, cause)
with_context_found primitive position callable err none = (
  record {
    code = generic_code;
    kind = type_generic;
    message = error_text err;
    primitive = primitive;
    position = position;
    callable = callable;
  },
  some err,
)

-- `WithContext` on an error that is not nil.
unfoldable pub with_context : GoError → String → ℕ → String → Info × Option GoError
unfolding with_context_found as_error error_text
with_context err primitive position callable =
    with_context_found primitive position callable err (as_error err)

-- `ExitStatus`, and what it does with the answer of `errors.As`.
abbrev pub status_found : Option (Info × Option GoError) → ℕ
status_found (some (i, cause)) = to_int i.code
status_found none = to_int generic_code

unfoldable pub exit_status : Option GoError → ℕ
unfolding as_error
exit_status none = to_int ok_code
exit_status (some err) = status_found (as_error err)

-- The message that `Format` shows.
unfoldable pub format_message : Info → Option GoError → String
unfolding error_text
format_message i none = if i.message =ₛ "" then i.kind else i.message
format_message i (some cause) =
    let shown = if i.message =ₛ "" then error_text cause else i.message in
    if shown =ₛ "" then i.kind else shown

-- `suffix += " " + part`, with no space at the start.
abbrev pub join_suffix : String → String → String
join_suffix suffix part = if suffix =ₛ "" then part else suffix ++ " " ++ part

-- The suffix that `Format` builds; `decimal` is the `%d` of package fmt.
unfoldable pub format_suffix : (ℕ → String) → Info → String
format_suffix decimal i =
    let named = if i.primitive =ₛ "" then "" else "primitive=" ++ i.primitive in
    let placed =
      if ltb 0 i.position then join_suffix named ("position=" ++ decimal i.position) else named in
    if i.callable =ₛ "" then placed else join_suffix placed ("callable=" ++ i.callable)

unfoldable pub format_found : (ℕ → String) → Info → Option GoError → String
unfolding format_message format_suffix
format_found decimal i cause =
    let shown = format_message i cause in
    let suffix = format_suffix decimal i in
    if i.primitive =ₛ "" && (i.position == 0 && i.callable =ₛ "")
    then shown
    else if suffix =ₛ ""
    then shown
    else shown ++ " (" ++ suffix ++ ")"

-- `Format`.
unfoldable pub format : (ℕ → String) → Option GoError → String
unfolding format_found as_error error_text
format decimal none = ""
format decimal (some err) = elim (as_error err) [
  | some (i, cause) ↦ format_found decimal i cause
  | none ↦ error_text err
]
