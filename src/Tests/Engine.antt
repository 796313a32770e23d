-- ===== src/Tests/Engine.antt =====
-- engine.go, dag.go and runtime.go: a file with a workflow of one node, in a workspace of two
-- directories.
use lumn.Base.{
  ℕ, zero, suc, ◌<◌, String, ◌≡◌, refl, sym, ap, subst, inl, inr, Bool, true, false, ◌||◌, ◌&&◌,
  none, some, List, [], ◌∷◌, length, ◌=ₛ◌, ◌==◌, ok, if◌then◌else◌, Bool-cases, arith, eq_iff,
}
use lumn.Base.Text.{codes}
use lumn.Value.{pos, end}
use lumn.Lua.{
  LuaValue, lua_nil, lua_text, lua_integer, lua_table, lua_function, Vm, Refs, store_ref, push_ref,
  is_table,
}
use lumn.Lua.Keys.{Fresh, store_ref-Fresh}
use lumn.Lua.Values.{to_go_value, refused, cyclic}
use lumn.Lua.Ends.{Ended, to_go_value-Ended}
use lumn.Lua.Load.{no_refs, FileRun, returned}
use lumn.Dag.{build}
use lumn.Dag.Built.{Outcome, build-Built}
use lumn.Engine.{
  Target, Files, file, directory, missing, resolve_target, resolve_local_selector,
  infer_workspace_dir,
}
use lumn.Engine.Workspace.{Inferred, infer_workspace_dir-Inferred}
use lumn.Engine.Selector.{resolve_local_selector-resolve}
use lumn.Engine.Load.{load_definition, load_target}
use lumn.Engine.Declared.{Declared, load_definition-Declared}
use lumn.Engine.Run.{RunOptions, Reported, run_target_with_options, run_target-Reported}
use lumn.Tests.Run.{counting}

-- Numbers in unary, and that they can be read back.
abbrev unary : ℕ → String
unary zero = ""
unary (suc n) = String.◌∷◌ "i" (unary n)

abbrev count : String → ℕ
count String.[] = 0
count (String.◌∷◌ c s) = suc (count s)

count-unary : (n : ℕ) → count (unary n) ≡ n
count-unary zero = refl
count-unary (suc n) = ap suc (count-unary n)

unary_injective : (a b : ℕ) → unary a ≡ unary b → a ≡ b
unary_injective a b e =
    let left = count-unary a in let right = count-unary b in let same = ap count e in omega arith

-- The table 0 has the flow 1, whose only node is the table 2, a filter; the table 3 contains itself.
abbrev fields : LuaValue → String → LuaValue
fields (lua_table t) name =
    if t == 0 && name =ₛ "flow"
    then lua_table 1
    else if t == 2 && name =ₛ "__lumn_kind"
    then lua_text "filter"
    else if t == 2 && name =ₛ "condition"
    then lua_function 0
    else lua_nil
fields v name = lua_nil

abbrev one_filter : Vm
one_filter = record {
  field_of = fields;
  raw_length = λ v. 1;
  raw_get_int =
      λ v i. elim v [ lua_table t ↦ if t == 1 then lua_table 2 else lua_table 3 | _ ↦ lua_nil ];
  entries_of = λ t. (lua_integer (pos 1), lua_table 3) ∷ [];
  to_text = λ v. elim v [ lua_text s ↦ some s | _ ↦ none ];
  type_name = λ v. "value";
  decimal = unary;
  quote = λ s. s;
}

abbrev loaded : Refs
loaded = (store_ref one_filter (lua_table 0) no_refs).0

loaded-Fresh : Fresh one_filter loaded
unfolding push_ref
loaded-Fresh = store_ref-Fresh one_filter unary_injective (lua_table 0) no_refs (λ n le. refl)

build-Built_example :
    Outcome
      (is_table (one_filter.field_of (push_ref loaded "__lumn_ref_") "flow"))
      one_filter
      (build one_filter "__lumn_ref_" loaded)
build-Built_example = build-Built one_filter unary_injective "__lumn_ref_" loaded loaded-Fresh

-- The tables below the table 3.
abbrev three : List ℕ
three = 3 ∷ []

to_go_value-Ended_example : Ended (to_go_value one_filter (suc (length three)) [] (lua_table 3))
to_go_value-Ended_example =
    to_go_value-Ended one_filter three (lua_table 3)
      (λ t m. elim m [ inl e ↦ (rw e (λ i. inl refl), ((tt, inl refl), tt)) | inr n ↦ absurd n ])
      (inl refl)

-- A table that contains itself is refused.
cyclic_test : to_go_value one_filter 2 [] (lua_table 3) ≡ refused cyclic
unfolding to_go_value
cyclic_test = refl

-- The files "/w/x/lumn.lua" and "/w/lumn.lock".
abbrev parent_of : String → String
parent_of p = if p =ₛ "/w/x/lumn.lua" then "/w/x" else if p =ₛ "/w/x" then "/w" else "/"

abbrev pub workspace : Files
workspace = record {
  abs = λ p. ok p;
  stat = λ p.
      if p =ₛ "/w/x/lumn.lua" || p =ₛ "/w/lumn.lock"
      then file
      else if p =ₛ "/w/x" || p =ₛ "/w"
      then directory
      else missing;
  join = λ d name. Prim.Native.String.◌++◌ d (Prim.Native.String.◌++◌ "/" name);
  dir = parent_of;
  base = λ p. "x";
  ext = λ p. ".lua";
  clean = λ p. p;
  glob = λ p. ok [];
  getwd = ok "/w/x";
}

abbrev is_abs : String → Bool
is_abs p = p =ₛ "/" || (p =ₛ "/w" || p =ₛ "/w/x")

abbrev Shorter : String → Type 0
Shorter p =
    (is_abs (parent_of p) ≡ true)
    × ((parent_of p =ₛ p) ≡ false → length (codes (parent_of p)) < length (codes p))

parent_of-Shorter : (p : String) → is_abs p ≡ true → Shorter p
unfolding codes
parent_of-Shorter p h = elim (Bool-cases (p =ₛ "/")) [
  | inl e ↦ subst Shorter (sym ((eq_iff p "/").0 e)) (refl, λ k. cc)
  | inr n ↦ elim (Bool-cases (p =ₛ "/w")) [
    | inl e ↦ subst Shorter (sym ((eq_iff p "/w").0 e)) (refl, λ k. omega arith)
    | inr m ↦ elim (Bool-cases (p =ₛ "/w/x")) [
      | inl e ↦ subst Shorter (sym ((eq_iff p "/w/x").0 e)) (refl, λ k. omega arith)
      | inr l ↦ let k = rw (n, m, l) at h in cc
    ]
  ]
]

infer_workspace_dir-Inferred_example :
    Inferred workspace "/w/x" (infer_workspace_dir workspace "/w/x")
infer_workspace_dir-Inferred_example =
    infer_workspace_dir-Inferred workspace is_abs parent_of-Shorter "/w/x" refl

infer_test : infer_workspace_dir workspace "/w/x" ≡ ok "/w"
unfolding infer_workspace_dir
infer_test = refl

abbrev pub entry_target : Target
entry_target = record {
  input = "/w/x";
  target_path = "/w/x";
  entry_path = "/w/x/lumn.lua";
  workspace_dir = "/w";
  workflow_dir = "/w/x";
  name = "x";
}

resolve_test : resolve_target workspace "/w/x" ≡ ok entry_target
unfolding resolve_target
resolve_test = refl

resolve_local_selector-resolve_example : resolve_local_selector workspace "/w/x" ≡ ok entry_target
resolve_local_selector-resolve_example =
    resolve_local_selector-resolve workspace "/w/x" entry_target resolve_test

abbrev pub run_file : String → String → String → FileRun
run_file dir root path = returned one_filter (lua_table 0)

load_definition-Declared_example : Declared (load_definition workspace run_file 1 "/w/x").1
load_definition-Declared_example = load_definition-Declared workspace run_file 1 "/w/x"

abbrev no_options : RunOptions
no_options = record { workflow_name = ""; version = ""; trigger_data = end }

run_target-Reported_example :
    Reported counting
      (λ vm refs. 0)
      workspace
      run_file
      (load_target workspace run_file "/w/x").1
      no_options.trigger_data
      (run_target_with_options counting (λ vm refs. 0) workspace run_file "/w/x" no_options 5)
run_target-Reported_example =
    run_target-Reported counting (λ vm refs. 0) workspace run_file "/w/x" no_options 5

run_test :
    (run_target_with_options counting
      (λ vm refs. 0)
      workspace
      run_file
      "/w/x"
      no_options
      5).0.status
    ≡ "empty"
unfolding run_target_with_options
run_test = refl
