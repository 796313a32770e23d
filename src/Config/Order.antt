-- ===== src/Config/Order.antt =====
-- config.go: the order in which Go goes through the map does not matter.
use lumn.Base.{
  ℕ, String, ◌≡◌, refl, sym, ap, ◌∙◌, inl, inr, Bool, true, false, ◌=ₛ◌, Bool-cases, eq_iff,
}
use lumn.Value.{ℤ, Value, Fields, field}
use lumn.Config.{
  Config, Setting, port, limit, timeout, retention, level, unknown, setting_of, apply_setting,
  apply_fields,
}

-- Two orders of one map: its keys are different.
pub data Reordered : Fields → Fields → Type 0 where
  same : (m : Fields) → Reordered m m
  swap :
      (k l : String) (v w : Value) (m : Fields)
      → (k =ₛ l) ≡ false
      → Reordered (field k v (field l w m)) (field l w (field k v m))
  behind :
      (k : String) (v : Value) (m m' : Fields)
      → Reordered m m'
      → Reordered (field k v m) (field k v m')
  then : (m m' m'' : Fields) → Reordered m m' → Reordered m' m'' → Reordered m m''

-- Settings of two kinds.
abbrev different : Setting → Setting → Bool
different port port = false
different limit limit = false
different timeout timeout = false
different retention retention = false
different level level = false
different _ _ = true

module _ (float_to_int : ℕ → ℤ) where
  apply_setting_comm :
      (s t : Setting) (v w : Value) (c : Config)
      → different s t ≡ true
      → apply_setting float_to_int t w (apply_setting float_to_int s v c)
        ≡ apply_setting float_to_int s v (apply_setting float_to_int t w c)
  unfolding apply_setting
  apply_setting_comm port port v w c h = cc
  apply_setting_comm port _ v w c h = refl
  apply_setting_comm limit limit v w c h = cc
  apply_setting_comm limit _ v w c h = refl
  apply_setting_comm timeout timeout v w c h = cc
  apply_setting_comm timeout _ v w c h = refl
  apply_setting_comm retention retention v w c h = cc
  apply_setting_comm retention _ v w c h = refl
  apply_setting_comm level level v w c h = cc
  apply_setting_comm level _ v w c h = refl
  apply_setting_comm unknown _ v w c h = refl

-- The key of a setting.
abbrev key_of : Setting → String
key_of port = "webhook_port"
key_of limit = "queue_limit"
key_of timeout = "shutdown_timeout"
key_of retention = "retention"
key_of level = "log_level"
key_of unknown = ""

abbrev known : Setting → Bool
known unknown = false
known _ = true

key_of-setting_of : (k : String) → known (setting_of k) ≡ true → (k =ₛ key_of (setting_of k)) ≡ true
key_of-setting_of k h = elim (Bool-cases (k =ₛ "webhook_port")) [
  | inl a ↦ rw (a, key_of) a
  | inr a ↦ elim (Bool-cases (k =ₛ "queue_limit")) [
    | inl b ↦ rw (a, b, key_of) b
    | inr b ↦ elim (Bool-cases (k =ₛ "shutdown_timeout")) [
      | inl d ↦ rw (a, b, d, key_of) d
      | inr d ↦ elim (Bool-cases (k =ₛ "retention")) [
        | inl e ↦ rw (a, b, d, e, key_of) e
        | inr e ↦ elim (Bool-cases (k =ₛ "log_level")) [
          | inl f ↦ rw (a, b, d, e, f, key_of) f
          | inr f ↦ let g = rw (a, b, d, e, f) at h in cc
        ]
      ]
    ]
  ]
]

apart : (s t : Setting) → (s ≡ t → known s ≡ true → ⊥) → different s t ≡ true
apart port port f = absurd (f refl refl)
apart port _ f = refl
apart limit limit f = absurd (f refl refl)
apart limit _ f = refl
apart timeout timeout f = absurd (f refl refl)
apart timeout _ f = refl
apart retention retention f = absurd (f refl refl)
apart retention _ f = refl
apart level level f = absurd (f refl refl)
apart level _ f = refl
apart unknown _ f = refl

different_keys : (k l : String) → (k =ₛ l) ≡ false → different (setting_of k) (setting_of l) ≡ true
different_keys k l h = apart (setting_of k) (setting_of l) (λ e there.
    let left = (eq_iff k (key_of (setting_of k))).0 (key_of-setting_of k there) in
    let right =
      (eq_iff l (key_of (setting_of l))).0 (key_of-setting_of l (ap known (sym e) ∙ there)) in
    let both = (eq_iff k l).1 (left ∙ ap key_of e ∙ sym right) in cc)

-- The configuration is the same in whatever order the fields of the file come, as long
-- as their keys are different.
pub apply_fields-Reordered :
    (float_to_int : ℕ → ℤ) (m m' : Fields) (c : Config)
    → Reordered m m'
    → apply_fields float_to_int m c ≡ apply_fields float_to_int m' c
unfolding apply_fields
apply_fields-Reordered float_to_int m m' c (Reordered.same _) = refl
apply_fields-Reordered float_to_int m m' c (Reordered.swap k l v w rest h) =
    ap (apply_fields float_to_int rest)
      (apply_setting_comm float_to_int (setting_of k) (setting_of l) v w c (different_keys k l h))
apply_fields-Reordered float_to_int m m' c (Reordered.behind k v n n' r) =
    apply_fields-Reordered float_to_int n n' (apply_setting float_to_int (setting_of k) v c) r
apply_fields-Reordered float_to_int m m' c (Reordered.then _ n _ r r') =
    apply_fields-Reordered float_to_int m n c r ∙ apply_fields-Reordered float_to_int n m' c r'
