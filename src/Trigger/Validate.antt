-- ===== src/Trigger/Validate.antt =====
-- daemon.go: `validateTriggers`.
use lumn.Base.{
  suc, String, ◌≡◌, refl, ap, subst, ◌⊎◌, inl, inr, true, List, [], ◌∷◌, arith, ◌=ₛ◌, Result, ok,
  err, ◌>>=◌, ◌==◌, if◌then◌else◌, All, Result-cases, Bool-cases, eq_iff, length,
}
use lumn.Value.{end}
use lumn.Trigger.{
  Env, ConfigError, SchedulerPlan, WebhookConfig, FileWatcherConfig, TriggerSpec,
  parse_scheduler_config, parse_webhook_config, parse_file_watcher_config, validate_trigger,
  validate_each, validate_triggers,
}

-- The trigger is of a kind that the daemon can start, and its configuration is one that the start of
-- that kind accepts.
abbrev pub Startable : Env → TriggerSpec → Type 0
Startable env t =
    ((t.kind ≡ "manual") × (t.config ≡ end))
    ⊎ ((t.kind ≡ "scheduler") × (p : SchedulerPlan) × (parse_scheduler_config env t.config ≡ ok p))
    ⊎ ((t.kind ≡ "webhook") × (p : WebhookConfig) × (parse_webhook_config env t.config ≡ ok p))
    ⊎ ((t.kind ≡ "file_watcher")
        × (p : FileWatcherConfig) × (parse_file_watcher_config env t.config ≡ ok p))

accepted :
    {P : Type 0} (r : Result ConfigError P) (t v : TriggerSpec)
    → (r >>= λ _. ok t) ≡ ok v
    → (p : P) × (r ≡ ok p) × (t ≡ v)
accepted (ok p) t v e = (p, refl, cc e)
accepted (err x) t v e = absurd (cc e)

-- A trigger that passes is one that the daemon can start, of the kind that was asked for.
pub validate_trigger-Startable :
    (env : Env) (t v : TriggerSpec)
    → validate_trigger env t ≡ ok v
    → Startable env v × (v.kind ≡ t.kind)
unfolding validate_trigger
validate_trigger-Startable env t v e = elim (Bool-cases (t.kind =ₛ "manual")) [
  | inl m ↦
      carried (record { kind = t.kind; config = end }) (cc (rw (m, validate_trigger) at e))
        (inl (named m, refl)) refl
  | inr m ↦ elim (Bool-cases (t.kind =ₛ "scheduler")) [
    | inl s ↦
        let (p, parsed, same) =
          accepted (parse_scheduler_config env t.config) t v (rw (m, s, validate_trigger) at e) in
        carried t same (inr (inl (named s, p, parsed))) refl
    | inr s ↦ elim (Bool-cases (t.kind =ₛ "webhook")) [
      | inl w ↦
          let (p, parsed, same) =
            accepted (parse_webhook_config env t.config) t v
              (rw (m, s, w, validate_trigger) at e) in
          carried t same (inr (inr (inl (named w, p, parsed)))) refl
      | inr w ↦ elim (Bool-cases (t.kind =ₛ "file_watcher")) [
        | inl f ↦
            let (p, parsed, same) =
              accepted (parse_file_watcher_config env t.config) t v
                (rw (m, s, w, f, validate_trigger) at e) in
            carried t same (inr (inr (inr (named f, p, parsed)))) refl
        | inr f ↦ absurd (cc (rw (m, s, w, f, validate_trigger) at e))
      ]
    ]
  ]
]
  where
    named : {kind : String} → (t.kind =ₛ kind) ≡ true → t.kind ≡ kind
    named {kind} h = (eq_iff t.kind kind).0 h

    carried :
        (u : TriggerSpec)
        → u ≡ v
        → Startable env u
        → u.kind ≡ t.kind
        → Startable env v × (v.kind ≡ t.kind)
    carried u same h k = subst (λ w. Startable env w × (w.kind ≡ t.kind)) same (h, k)

validate_each-Startable :
    (env : Env) (ts vs : List TriggerSpec)
    → validate_each env ts ≡ ok vs
    → All (Startable env) vs × (length vs ≡ length ts)
unfolding validate_each
validate_each-Startable env [] vs e = emptied vs (cc e)
  where
    emptied : (us : List TriggerSpec) → [] ≡ us → All (Startable env) us × (length us ≡ 0)
    emptied us same = subst (λ ws. All (Startable env) ws × (length ws ≡ 0)) same (tt, refl)
validate_each-Startable env (t ∷ ts) vs e = elim (Result-cases (validate_trigger env t)) [
  | inr (x, bad) ↦ absurd (cc (rw (bad, validate_each) at e))
  | inl (v, good) ↦ elim (Result-cases (validate_each env ts)) [
    | inr (x, bad) ↦ absurd (cc (rw (good, bad, validate_each) at e))
    | inl (us, rest) ↦
        let (h, n) = validate_each-Startable env ts us rest in
        subst (λ ws. All (Startable env) ws × (length ws ≡ suc (length ts))) {x = v ∷ us}
          (cc (rw (good, rest, validate_each) at e))
          (((validate_trigger-Startable env t v good).0, h), ap suc n)
  ]
]

-- Every trigger that `validateTriggers` lets through is one that the daemon can start, and none is
-- lost: there are as many as were given, or one manual trigger where none was given.
pub validate_triggers-Startable :
    (env : Env) (ts vs : List TriggerSpec)
    → validate_triggers env ts ≡ ok vs
    → All (Startable env) vs × (length vs ≡ (if length ts == 0 then 1 else length ts))
unfolding validate_triggers
validate_triggers-Startable env [] vs e =
    subst (λ us. All (Startable env) us × (length us ≡ 1))
      {x = record { kind = "manual"; config = end } ∷ []} (cc e) ((inl (refl, refl), tt), refl)
validate_triggers-Startable env (t ∷ ts) vs e =
    let (h, n) = validate_each-Startable env (t ∷ ts) vs e in (h, ground (arith, n))
