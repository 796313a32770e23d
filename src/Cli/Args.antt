-- ===== src/Cli/Args.antt =====
-- cli.go: the parsing of arguments. A Go `error` made by `errors.New` or `fmt.Errorf` is its text.
pub mod Flags
pub mod Names
use Prim.Native.String
use Prim.Native.String.{◌++◌}
use lumn.Base.{
  ℕ, String, Bool, true, false, not, ◌&&◌, ◌||◌, Option, none, some, List, [], ◌∷◌, ltb, ◌==◌, ◌=ₛ◌,
  Result, ok, err, ◌>>=◌, if◌then◌else◌, exists, length,
}
use lumn.Base.Text.{has_prefix}

-- `usageError`.
unfoldable pub usage_error : String → String → String
usage_error command message =
    message ++ "\n\nSee 'lumn " ++ command ++ " --help' for usage details."

-- An error of the parser is shown with the usage of its command.
abbrev pub or_usage {ℓ} : {A : Type ℓ} → String → Result String A → Result String A
or_usage command (ok a) = ok a
or_usage command (err e) = err (usage_error command e)

-- `isHelpToken`.
abbrev pub is_help_token : String → Bool
is_help_token value = value =ₛ "-h" || value =ₛ "--help"

-- `hasHelpFlag`.
unfoldable pub has_help_flag : List String → Bool
has_help_flag args = exists is_help_token args

-- `strings.TrimPrefix(arg, "-f=")` on an argument that has the prefix: three characters fewer.
unfoldable pub drop_three : String → String
drop_three (String.◌∷◌ a (String.◌∷◌ b (String.◌∷◌ c s))) = s
drop_three s = s

-- What one argument is to `extractTargetFlag`.
pub data Token : Type 0 where
  flag unknown positional : Token
  inline : String → Token

unfoldable pub token : String → Token
unfolding has_prefix drop_three
token arg =
    if arg =ₛ "-f"
    then flag
    else if has_prefix arg "-f="
    then inline (drop_three arg)
    else if has_prefix arg "-"
    then unknown
    else positional

abbrev pub Extracted : Type 0
Extracted = Result String (String × List String)

abbrev pub add_positional : String → Extracted → Extracted
add_positional arg (ok (target, positionals)) = ok (target, arg ∷ positionals)
add_positional arg (err e) = err e

-- The loop of `extractTargetFlag` from the target found so far.
unfoldable pub extract_from : String → List String → Extracted
extract_from target [] = ok (target, [])
extract_from target (arg ∷ []) = elim (token arg) [
  | flag ↦ err "missing value for -f"
  | inline value ↦ ok (value, [])
  | unknown ↦ err ("unknown flag " ++ arg)
  | positional ↦ ok (target, arg ∷ [])
]
extract_from target (arg ∷ value ∷ rest) = elim (token arg) [
  | flag ↦ extract_from value rest
  | inline given ↦ extract_from given (value ∷ rest)
  | unknown ↦ err ("unknown flag " ++ arg)
  | positional ↦ add_positional arg (extract_from target (value ∷ rest))
]

-- `extractTargetFlag`.
unfoldable pub extract_target_flag : List String → Extracted
unfolding extract_from
extract_target_flag args = extract_from "" args

-- `parseValidateArgs` after the flags.
validate_parts : String × List String → Result String String
validate_parts (target, []) = ok target
validate_parts (target, arg ∷ rest) =
    err (usage_error "validate" "validate accepts no positional arguments")

-- `parseValidateArgs`.
unfoldable pub parse_validate_args : List String → Result String String
unfolding validate_parts
parse_validate_args args = or_usage "validate" (extract_target_flag args) >>= validate_parts

-- `parseRunArgs` after the flags.
run_parts : String × List String → Result String (String × String)
run_parts (target, []) = ok ("", target)
run_parts (target, selector ∷ []) =
    if target =ₛ ""
    then ok (selector, target)
    else err (usage_error "run" "selector and -f cannot be used together")
run_parts (target, a ∷ b ∷ rest) =
    err (usage_error "run" "run accepts at most one workflow selector")

-- `parseRunArgs`: the selector and the target.
unfoldable pub parse_run_args : List String → Result String (String × String)
unfolding run_parts
parse_run_args args = or_usage "run" (extract_target_flag args) >>= run_parts

-- `parseStartArgs` after the flags.
start_parts : String × List String → Result String (String × String)
start_parts (target, []) = ok ("", target)
start_parts (target, name ∷ []) = ok (name, target)
start_parts (target, a ∷ b ∷ rest) =
    err (usage_error "start" "start accepts at most one optional name[:tag] argument")

-- `parseStartArgs`: the name and the target.
unfoldable pub parse_start_args : List String → Result String (String × String)
unfolding start_parts
parse_start_args args = or_usage "start" (extract_target_flag args) >>= start_parts

-- `parseOptionalSelector`.
unfoldable pub parse_optional_selector : List String → String → Result String String
unfolding has_prefix
parse_optional_selector [] command = ok ""
parse_optional_selector (arg ∷ []) command =
    if has_prefix arg "-"
    then err (usage_error command "selectors cannot start with '-'")
    else ok arg
parse_optional_selector (a ∷ b ∷ rest) command =
    err (usage_error command (command ++ " accepts at most one workflow selector"))

-- A flag of `logs` that takes a value.
abbrev pub takes_value : String → Bool
takes_value arg = arg =ₛ "--lines" || (arg =ₛ "--since" || (arg =ₛ "--level" || arg =ₛ "--step"))

-- What one argument is to `parseLogsArgs`.
pub data LogsToken : Type 0 where
  ignored valued unknown_flag named : LogsToken

unfoldable pub logs_token : String → LogsToken
unfolding has_prefix
logs_token arg =
    if arg =ₛ "--no-follow"
    then ignored
    else if takes_value arg
    then valued
    else if has_prefix arg "--"
    then unknown_flag
    else named

abbrev second_selector : String
second_selector = usage_error "logs" "logs accepts at most one workflow selector"

-- The loop of `parseLogsArgs` from the selector found so far.
unfoldable pub logs_from : String → List String → Result String String
logs_from selector [] = ok selector
logs_from selector (arg ∷ []) = elim (logs_token arg) [
  | ignored ↦ ok selector
  | valued ↦ err (usage_error "logs" ("flag " ++ arg ++ " requires a value"))
  | unknown_flag ↦ err (usage_error "logs" ("unknown flag " ++ arg))
  | named ↦ if selector =ₛ "" then ok arg else err second_selector
]
logs_from selector (arg ∷ value ∷ rest) = elim (logs_token arg) [
  | ignored ↦ logs_from selector (value ∷ rest)
  | valued ↦ logs_from selector rest
  | unknown_flag ↦ err (usage_error "logs" ("unknown flag " ++ arg))
  | named ↦ elim (selector =ₛ "") [
    | true ↦ logs_from arg (value ∷ rest)
    | false ↦ err second_selector
  ]
]

-- `parseLogsArgs`.
unfoldable pub parse_logs_args : List String → Result String String
unfolding logs_from
parse_logs_args args = logs_from "" args

-- `parseHelpTopic`.
unfoldable pub parse_help_topic : List String → Result String String
parse_help_topic [] = ok ""
parse_help_topic (topic ∷ []) = ok topic
parse_help_topic (group ∷ topic ∷ []) =
    if group =ₛ "daemon" then ok ("daemon " ++ topic) else err "usage: lumn help [command]"
parse_help_topic (a ∷ b ∷ c ∷ rest) = err "usage: lumn help [command]"
