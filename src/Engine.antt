-- ===== src/Engine.antt =====
-- internal/engine/engine.go: how the name of a workflow on the command line becomes a file. Packages os
-- and path/filepath are the parameter `Files`.
pub mod Workspace
pub mod Selector
pub mod Normal
pub mod Load
pub mod Run
pub mod Declared
use Prim.Native.String.{◌++◌}
use lumn.Base.{
  ℕ, zero, suc, String, Bool, true, false, not, ◌&&◌, List, [], ◌∷◌, length, ◌=ₛ◌, leb, Result, ok,
  err, if◌then◌else◌,
}
use lumn.Base.Text.{codes, has_suffix}
use lumn.Errkind.{
  generic_code, type_generic, workflow_not_found_code, GoError, new_error, wrap, error_text,
}

pub record Target : Type 0 where
  pub input : String
  pub target_path : String
  pub entry_path : String
  pub workspace_dir : String
  pub workflow_dir : String
  pub name : String

-- What `os.Stat` says of a path; `missing` is the error for which `os.IsNotExist` holds.
pub data Stat : Type 0 where
  file : Stat
  directory : Stat
  missing : Stat
  failing : GoError → Stat

pub record Files : Type 0 where
  pub abs : String → Result GoError String
  pub stat : String → Stat
  pub join : String → String → String
  pub dir : String → String
  pub base : String → String
  pub ext : String → String
  pub clean : String → String
  pub glob : String → Result GoError (List String)
  pub getwd : Result GoError String

-- `strings.TrimSuffix`.
unfoldable pub trim_suffix : String → String → String
trim_suffix String.[] suffix = ""
trim_suffix (String.◌∷◌ c s) suffix =
    let rest = trim_suffix s suffix in if String.◌∷◌ c s =ₛ suffix then "" else String.◌∷◌ c rest

-- `errkind.Wrap` of an error of the file system.
abbrev pub generic_error : GoError → GoError
generic_error e = wrap generic_code type_generic (error_text e) e

abbrev pub not_found : String → GoError
not_found message = new_error workflow_not_found_code "workflow_not_found" message

-- How the loop of `inferWorkspaceDir` ends: at a marker, with an error, or at the root.
pub data Walk : Type 0 where
  found : String → Walk
  failed : GoError → Walk
  at_root : Walk
  out_of_fuel : Walk

module _ (files : Files) where
  -- The first loop of `hasWorkspaceMarker`.
  unfoldable pub has_marker_file : String → List String → Result GoError Bool
  has_marker_file dir [] = ok false
  has_marker_file dir (name ∷ rest) = elim (files.stat (files.join dir name)) [
    | missing ↦ has_marker_file dir rest
    | failing e ↦ err e
    | file ↦ ok true
    | directory ↦ ok true
  ]

  -- Whether there is a directory `_shared`.
  unfoldable pub has_shared : String → Result GoError Bool
  has_shared dir = elim (files.stat (files.join dir "_shared")) [
    | directory ↦ ok true
    | file ↦ ok false
    | missing ↦ ok false
    | failing e ↦ err e
  ]

  -- `hasWorkspaceMarker`.
  unfoldable pub has_workspace_marker : String → Result GoError Bool
  unfolding has_marker_file has_shared
  has_workspace_marker dir = elim (has_marker_file dir ("lumn.lock" ∷ "lumn.config.lua" ∷ [])) [
    | err e ↦ err e
    | ok true ↦ ok true
    | ok false ↦ elim (files.glob (files.join dir "lumn.config.*.lua")) [
      | err e ↦ err e
      | ok (m ∷ ms) ↦ ok true
      | ok [] ↦ has_shared dir
    ]
  ]

  -- The loop of `inferWorkspaceDir`.
  unfoldable pub walk_up : ℕ → String → Walk
  unfolding has_workspace_marker
  walk_up zero current = out_of_fuel
  walk_up (suc fuel) current =
      let parent = files.dir current in
      let rest = walk_up fuel parent in
      elim (has_workspace_marker current) [
        | err e ↦ failed e
        | ok true ↦ found current
        | ok false ↦ if parent =ₛ current then at_root else rest
      ]

  -- `inferWorkspaceDir`, with one round for every character of the path and one more.
  unfoldable pub infer_workspace_dir : String → Result GoError String
  unfolding walk_up codes
  infer_workspace_dir workflow_dir =
      let parent = files.dir workflow_dir in
      let fallback = if parent =ₛ "" then workflow_dir else parent in
      elim (walk_up (suc (length (codes workflow_dir))) workflow_dir) [
        | found dir ↦ ok dir
        | failed e ↦ err e
        | at_root ↦ ok fallback
        | out_of_fuel ↦ ok fallback
      ]

  -- `resolveDirectoryEntrypoint`.
  unfoldable pub resolve_entrypoint : String → List String → Result GoError String
  unfolding new_error wrap error_text
  resolve_entrypoint dir [] = err (not_found "workflow entrypoint not found")
  resolve_entrypoint dir (candidate ∷ rest) = elim (files.stat (files.join dir candidate)) [
    | missing ↦ resolve_entrypoint dir rest
    | failing e ↦ err (generic_error e)
    | file ↦ ok (files.join dir candidate)
    | directory ↦ ok (files.join dir candidate)
  ]

  -- `resolveDirectoryTarget`.
  unfoldable pub resolve_directory_target : String → String → Result GoError Target
  unfolding resolve_entrypoint infer_workspace_dir wrap error_text
  resolve_directory_target abs_dir input =
      elim (resolve_entrypoint abs_dir ("init.lua" ∷ "lumn.lua" ∷ [])) [
        | err e ↦ err e
        | ok entry ↦ elim (infer_workspace_dir abs_dir) [
          | err e ↦ err (generic_error e)
          | ok workspace ↦ ok (record {
            input = input;
            target_path = abs_dir;
            entry_path = entry;
            workspace_dir = workspace;
            workflow_dir = abs_dir;
            name = files.base abs_dir;
          })
        ]
      ]

  -- `resolveFileTarget`.
  unfoldable pub resolve_file_target : String → String → Result GoError Target
  unfolding resolve_directory_target infer_workspace_dir trim_suffix new_error wrap error_text
  resolve_file_target path input = elim (files.abs path) [
    | err e ↦ err (generic_error e)
    | ok abs_path ↦ elim (files.stat abs_path) [
      | missing ↦ err (not_found "workflow not found")
      | failing e ↦ err (not_found "workflow not found")
      | directory ↦ resolve_directory_target abs_path input
      | file ↦ elim (infer_workspace_dir (files.dir abs_path)) [
        | err e ↦ err (generic_error e)
        | ok workspace ↦ ok (record {
          input = input;
          target_path = abs_path;
          entry_path = abs_path;
          workspace_dir = workspace;
          workflow_dir = files.dir abs_path;
          name = trim_suffix (files.base abs_path) (files.ext abs_path);
        })
      ]
    ]
  ]

  -- `resolveDefaultTarget`.
  unfoldable pub resolve_default_target : Result GoError Target
  unfolding resolve_file_target
  resolve_default_target = elim (resolve_file_target (files.join "." "lumn.lua") "") [
    | err e ↦ err e
    | ok target ↦ elim files.getwd [
      | err e ↦ ok target
      | ok cwd ↦ ok (record target { name = files.base cwd })
    ]
  ]

  -- `ResolveTarget`.
  unfoldable pub resolve_target : String → Result GoError Target
  unfolding resolve_default_target resolve_directory_target resolve_file_target wrap error_text
  resolve_target input = if input =ₛ "" then resolve_default_target else elim (files.abs input) [
    | err e ↦ err (generic_error e)
    | ok abs_input ↦ elim (files.stat abs_input) [
      | missing ↦ err (not_found "workflow not found")
      | failing e ↦ err (not_found "workflow not found")
      | directory ↦ resolve_directory_target abs_input input
      | file ↦ resolve_file_target abs_input input
    ]
  ]

  -- The end of `ResolveLocalSelector`: the name with the suffix of a file.
  unfoldable pub resolve_with_suffix : String → Result GoError Target
  unfolding resolve_file_target has_suffix
  resolve_with_suffix input =
      if has_suffix input ".lua"
      then err (not_found "workflow not found")
      else resolve_file_target (input ++ ".lua") (input ++ ".lua")

  -- `ResolveLocalSelector`.
  unfoldable pub resolve_local_selector : String → Result GoError Target
  unfolding resolve_default_target resolve_directory_target resolve_file_target resolve_with_suffix
  resolve_local_selector input =
      if input =ₛ "" then resolve_default_target else elim (files.abs input) [
        | err e ↦ err (generic_error e)
        | ok abs_input ↦ elim (files.stat abs_input) [
          | directory ↦ elim (resolve_directory_target abs_input input) [
            | ok target ↦ ok target
            | err e ↦ resolve_with_suffix input
          ]
          | file ↦ resolve_file_target abs_input input
          | missing ↦ resolve_with_suffix input
          | failing e ↦ err (generic_error e)
        ]
      ]

  -- `fallbackName` and `resolveWorkflowName`.
  unfoldable pub resolve_workflow_name : String → String → String → String
  unfolding trim_suffix
  resolve_workflow_name explicit input resolved =
      let base = files.base (files.clean input) in
      if not (explicit =ₛ "")
      then explicit
      else if not (resolved =ₛ "")
      then resolved
      else if input =ₛ ""
      then elim files.getwd [ err e ↦ "workflow" | ok cwd ↦ files.base cwd ]
      else trim_suffix base (files.ext base)
