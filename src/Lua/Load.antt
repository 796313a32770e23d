-- ===== src/Lua/Load.antt =====
-- internal/lua/runtime.go: `NewRuntime`, `LoadWorkflow`, and the errors of the virtual machine.
use Prim.Native.String.{◌++◌}
use lumn.Base.{
  String, ◌≡◌, refl, Bool, Option, none, some, [], Result, ok, err, ◌=ₛ◌, if◌then◌else◌,
}
use lumn.Base.Text.{has_prefix, trim_prefix}
use lumn.Errkind.{
  generic_code, type_generic, syntax_code, structure_code, sandbox_code, runtime_code, type_runtime,
  GoError, new_error, wrap, error_text,
}
use lumn.Lua.{LuaValue, Vm, Refs, is_table, store_ref}

-- What `LoadFile` and `ProtectedCall` make of a file in a new virtual machine. A failure comes with
-- the text on top of the stack, if there is one, and with the error; the first flag says whether it
-- is go-lua's `SyntaxError`.
pub data FileRun : Type 0 where
  not_loaded : Bool → Option String → GoError → FileRun
  not_run : Option String → GoError → FileRun
  returned : Vm → LuaValue → FileRun

abbrev pub sandbox_prefix : String
sandbox_prefix = "__lumn_sandbox__:"

abbrev pub runtime_prefix : String
runtime_prefix = "__lumn_runtime__:"

-- `stackMessage` with an error that is not nil.
unfoldable pub stack_message : Option String → GoError → String
unfolding error_text
stack_message none fallback = error_text fallback
stack_message (some s) fallback = if s =ₛ "" then error_text fallback else s

-- `normalizeLuaError`.
unfoldable pub normalize_lua_error : Option String → GoError → GoError
unfolding stack_message has_prefix trim_prefix wrap
normalize_lua_error top e =
    let message = stack_message top e in
    if has_prefix message sandbox_prefix
    then wrap sandbox_code "sandbox" (trim_prefix message sandbox_prefix) e
    else if has_prefix message runtime_prefix
    then wrap runtime_code type_runtime (trim_prefix message runtime_prefix) e
    else wrap runtime_code type_runtime message e

-- `normalizeLoadError`.
unfoldable pub normalize_load_error : Bool → Option String → GoError → GoError
unfolding stack_message wrap normalize_lua_error
normalize_load_error is_syntax top e =
    if is_syntax
    then wrap syntax_code "syntax" (stack_message top e) e
    else normalize_lua_error top e

abbrev pub no_refs : Refs
no_refs = record { registry = []; next_ref = 0 }

-- `LoadWorkflow`: the references with the one of the table that the file returns.
unfoldable pub load_workflow : FileRun → Result GoError (Vm × Refs × String)
unfolding normalize_load_error normalize_lua_error new_error store_ref
load_workflow (not_loaded is_syntax top e) = err (normalize_load_error is_syntax top e)
load_workflow (not_run top e) = err (normalize_lua_error top e)
load_workflow (returned vm v) =
    if is_table v
    then (let (refs, ref) = store_ref vm v no_refs in ok (vm, refs, ref))
    else err (new_error structure_code "structure" "workflow file must return a table")

-- `NewRuntime`: the absolute directories of the runtime.
unfoldable pub new_runtime :
    (String → Result GoError String) → String → String → Result GoError (String × String)
unfolding wrap error_text
new_runtime abs workflow_dir workspace_dir = elim (abs workflow_dir) [
  | err e ↦ err (wrap generic_code type_generic ("resolve workflow directory: " ++ error_text e) e)
  | ok dir ↦ elim (abs workspace_dir) [
    | err e ↦
        err (wrap generic_code type_generic ("resolve workspace directory: " ++ error_text e) e)
    | ok workspace ↦ ok (dir, workspace)
  ]
]

-- A failure in the sandbox is told from other failures at run time, and its mark is taken off.
normalize_test :
    (normalize_lua_error (some "__lumn_sandbox__:access to \"io\" is blocked") (GoError.plain "e")
      ≡ wrap sandbox_code "sandbox" "access to \"io\" is blocked" (GoError.plain "e"))
    × (normalize_lua_error none (GoError.plain "e")
        ≡ wrap runtime_code type_runtime "e" (GoError.plain "e"))
unfolding normalize_lua_error
normalize_test = (refl, refl)
