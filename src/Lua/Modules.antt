-- ===== src/Lua/Modules.antt =====
-- internal/lua/runtime.go: `resolveModulePath`, the paths that `require` may load. The separator of paths
-- is "/"; `filepath.Rel` and `filepath.IsAbs` stand beside the other functions of `Files`.
use Prim.Native.Char.{code}
use Prim.Native.String.{◌++◌}
use lumn.Base.{
  String, ◌≡◌, refl, inl, inr, Bool, true, false, not, ◌||◌, List, [], ◌∷◌, In, ◌==◌, ◌=ₛ◌, Result,
  ok, err, if◌then◌else◌, Bool-cases, Result-cases, eq_iff, sym, subst, ◌∙◌,
}
use lumn.Base.Text.{has_prefix, contains}
use lumn.Errkind.{GoError, plain}
use lumn.Engine.{Files, Stat, file, directory, missing, failing}

pub record Paths : Type 0 where
  pub files : Files
  pub rel : String → String → Result GoError String
  pub is_abs : String → Bool
  -- the verb `%q` of package fmt
  pub quote : String → String

-- `strings.ReplaceAll` of "." by the separator.
unfoldable pub dots_to_slashes : String → String
dots_to_slashes String.[] = ""
dots_to_slashes (String.◌∷◌ c s) =
    let rest = dots_to_slashes s in if code c == 46 then "/" ++ rest else String.◌∷◌ c rest

-- The relative path leads out of its root.
abbrev pub leads_out : String → Bool
leads_out r = has_prefix r "../" || r =ₛ ".."

module _ (paths : Paths) where
  -- `isWithinRoot`.
  unfoldable pub is_within_root : String → String → Bool
  unfolding has_prefix
  is_within_root candidate root = elim (paths.files.abs root) [
    | err e ↦ false
    | ok abs_root ↦ elim (paths.rel abs_root candidate) [
      | err e ↦ false
      | ok r ↦ r =ₛ "." || not (leads_out r)
    ]
  ]

  abbrev pub unresolved : String → String → GoError
  unresolved name workflow_name =
      plain ("module " ++ paths.quote name ++ " could not be resolved inside " ++ workflow_name)

  -- The loop over the roots.
  unfoldable pub try_roots : GoError → String → List String → Result GoError String
  unfolding is_within_root
  try_roots failure module_path [] = err failure
  try_roots failure module_path (root ∷ rest) =
      let next = try_roots failure module_path rest in
      if root =ₛ "" then next else elim (paths.files.abs (paths.files.join root module_path)) [
        | err e ↦ err e
        | ok candidate ↦
            if not (is_within_root candidate root)
            then next
            else elim (paths.files.stat candidate) [
              | file ↦ ok candidate
              | directory ↦ ok candidate
              | missing ↦ next
              | failing e ↦ next
            ]
      ]

  -- `resolveModulePath` of a runtime with its name and its two directories.
  unfoldable pub resolve_module_path : String → String → String → String → Result GoError String
  unfolding dots_to_slashes try_roots contains
  resolve_module_path workflow_name workflow_dir shared_dir name =
      let outside =
        plain ("module path " ++ paths.quote name ++ " is outside the workflow sandbox") in
      if name =ₛ ""
      then err (plain "module name cannot be empty")
      else if paths.is_abs name
      then err outside
      else if contains name ".."
      then err outside
      else try_roots (unresolved name workflow_name)
          (paths.files.clean (dots_to_slashes name ++ ".lua")) (workflow_dir ∷ shared_dir ∷ [])

-- The path stands below the absolute path of a root.
abbrev pub Below : Paths → String → String → Type 0
Below paths root p =
    (abs_root : String) × (r : String) × (paths.files.abs root ≡ ok abs_root)
    × (paths.files.join abs_root r ≡ p)
    × (leads_out r ≡ false)

-- A path that has been resolved stands below one of the roots.
abbrev pub Contained : Paths → List String → Result GoError String → Type 0
Contained paths roots (ok p) = (root : String) × In root roots × Below paths root p
Contained paths roots (err e) = Unit

not-leads_out : (r : String) → (r =ₛ "." || not (leads_out r)) ≡ true → leads_out r ≡ false
unfolding has_prefix
not-leads_out r h = elim (Bool-cases (r =ₛ ".")) [
  | inl dot ↦ subst (λ x. leads_out x ≡ false) (sym ((eq_iff r ".").0 dot)) refl
  | inr other ↦ not_true (leads_out r) (rw other at h)
]
  where
    not_true : (b : Bool) → not b ≡ true → b ≡ false
    not_true true h = sym h
    not_true false h = refl

-- What is documented of package filepath: `Join` of a root and of what `Rel` returns is lexically
-- the path, and `Abs` returns a cleaned path.
module _ (paths : Paths)
    (join-rel : (root p r : String)
      → paths.rel root p ≡ ok r
      → paths.files.join root r ≡ paths.files.clean p)
    (clean-abs : (p q : String) → paths.files.abs p ≡ ok q → paths.files.clean q ≡ q) where
  within-Below :
      (root p : String)
      → paths.files.clean p ≡ p
      → is_within_root paths p root ≡ true
      → Below paths root p
  unfolding is_within_root
  within-Below root p cleaned h = elim (Result-cases (paths.files.abs root)) [
    | inr (e, bad) ↦ let k = rw (bad, is_within_root) at h in cc
    | inl (abs_root, good) ↦ elim (Result-cases (paths.rel abs_root p)) [
      | inr (e, bad) ↦ let k = rw (good, bad, is_within_root) at h in cc
      | inl (r, found) ↦ (
        abs_root,
        r,
        good,
        join-rel abs_root p r found ∙ cleaned,
        not-leads_out r (rw (good, found, is_within_root) at h),
      )
    ]
  ]

  -- One turn of the loop with a candidate inside its root.
  statted-Contained :
      (root : String)
      → (rest : List String) → (next : Result GoError String) → (p : String) → Below paths root p
      → Contained paths (root ∷ rest) next
      → (st : Stat)
      → Contained paths
          (root ∷ rest)
          (elim st [ file ↦ ok p | directory ↦ ok p | missing ↦ next | failing e ↦ next ])
  statted-Contained root rest next p below later file = (root, inl refl, below)
  statted-Contained root rest next p below later directory = (root, inl refl, below)
  statted-Contained root rest next p below later missing = later
  statted-Contained root rest next p below later (failing e) = later

  Contained-∷ :
      (root : String)
      → (rest : List String) → (res : Result GoError String) → Contained paths rest res
      → Contained paths (root ∷ rest) res
  Contained-∷ root rest (ok p) (root', mem, below) = (root', inr mem, below)
  Contained-∷ root rest (err e) c = c

  try_roots-Contained :
      (failure : GoError)
      → (module_path : String) → (roots : List String)
      → Contained paths roots (try_roots paths failure module_path roots)
  unfolding try_roots
  try_roots-Contained failure module_path [] = tt
  try_roots-Contained failure module_path (root ∷ rest) =
      let next = try_roots paths failure module_path rest in
      let later = Contained-∷ root rest next (try_roots-Contained failure module_path rest) in
      elim (Bool-cases (root =ₛ "")) [
        | inl none_given ↦ rw (none_given, try_roots) later
        | inr given ↦ elim (Result-cases (paths.files.abs (paths.files.join root module_path))) [
          | inr (e, bad) ↦ rw (given, bad, try_roots) tt
          | inl (candidate, good) ↦ elim (Bool-cases (is_within_root paths candidate root)) [
            | inr outside ↦ rw (given, good, outside, try_roots) later
            | inl inside ↦
                rw (given, good, inside, try_roots)
                  (statted-Contained root rest next candidate
                    (within-Below root candidate
                      (clean-abs (paths.files.join root module_path) candidate good) inside)
                    later (paths.files.stat candidate))
          ]
        ]
      ]

  -- When `Join` of a root and of what `Rel` returns is the cleaned path and `Abs` returns cleaned
  -- paths, a path that `require` resolves is the join of the absolute path of the workflow's or of
  -- the shared directory with a relative path that is not ".." and does not begin with "../".
  pub resolve_module_path-Contained :
      (workflow_name workflow_dir shared_dir name : String)
      → Contained paths
          (workflow_dir ∷ shared_dir ∷ [])
          (resolve_module_path paths workflow_name workflow_dir shared_dir name)
  unfolding resolve_module_path
  resolve_module_path-Contained workflow_name workflow_dir shared_dir name =
      elim (Bool-cases (name =ₛ "")) [
        | inl empty ↦ rw (empty, resolve_module_path) tt
        | inr named ↦ elim (Bool-cases (paths.is_abs name)) [
          | inl absolute ↦ rw (named, absolute, resolve_module_path) tt
          | inr relative ↦ elim (Bool-cases (contains name "..")) [
            | inl dots ↦ rw (named, relative, dots, resolve_module_path) tt
            | inr plain_name ↦
                rw (named, relative, plain_name, resolve_module_path)
                  (try_roots-Contained (unresolved paths name workflow_name)
                    (paths.files.clean (dots_to_slashes name ++ ".lua"))
                    (workflow_dir ∷ shared_dir ∷ []))
          ]
        ]
      ]
