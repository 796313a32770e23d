-- ===== src/Daemon/Http/Paths.antt =====
-- client.go and api.go: the path that the client builds for a workflow is taken apart by the handler
-- into the id and what follows it.
use Prim.Native.Char.{Char, code}
use Prim.Native.String.{◌++◌}
use text.Mathlib.TextLemmas.{cons-append, nil-append, append-nil}
use lumn.Base.{
  String, ◌≡◌, refl, ◌≢◌, ap, ◌∙◌, false, List, [], ◌∷◌, arith, ◌=ₛ◌, eq_iff, Bool-cases, inl, inr,
  Bool, ◌||◌, ◌==◌,
}
use lumn.Base.Text.{trim_prefix-append}
use lumn.Client.{workflow_path}
use lumn.Daemon.Http.{trim_left, trim_right, split_slash, workflow_parts}

-- The path that a handler is given for an id, with what follows it.
abbrev pub plain_path : String → String → String
plain_path id rest = "/api/v1/workflows/" ++ (id ++ rest)

-- The text has a percent sign, which begins what is escaped.
unfoldable pub has_percent : String → Bool
has_percent String.[] = false
has_percent (String.◌∷◌ c s) = code c == 37 || has_percent s

-- What is relied on of package net/url: a path without a percent sign is given to the handler as it is
-- written, and what PathEscape has made of a text is read back as that text.
abbrev pub Unescapes : (String → String) → (String → String) → Type 0
Unescapes escape decode =
    ((path : String) → has_percent path ≡ false → decode path ≡ path)
    × ((before id after : String)
        → has_percent before ≡ false
        → has_percent after ≡ false
        → decode (before ++ (escape id ++ after)) ≡ before ++ (id ++ after))

-- The id is neither of the two names that the router takes out of a path.
abbrev pub NoDots : String → Type 0
NoDots id = ((id =ₛ ".") ≡ false) × ((id =ₛ "..") ≡ false)

-- The text has no slash.
abbrev pub NoSlash : String → Type 0
NoSlash String.[] = Unit
NoSlash (String.◌∷◌ c s) = (code c ≢ 47) × NoSlash s

trim_right-NoSlash : (s : String) → NoSlash s → trim_right s ≡ s
unfolding trim_right
trim_right-NoSlash String.[] h = refl
trim_right-NoSlash (String.◌∷◌ c s) h = ground (arith, trim_right-NoSlash s h.1)

cons_nonempty : (c : Char) (s : String) → (String.◌∷◌ c s =ₛ "") ≡ false
cons_nonempty c s = elim (Bool-cases (String.◌∷◌ c s =ₛ "")) [
  | inl e ↦ let clash = (eq_iff (String.◌∷◌ c s) "").0 e in cc
  | inr e ↦ e
]

append_nonempty : (s t : String) → (t =ₛ "") ≡ false → ((s ++ t) =ₛ "") ≡ false
append_nonempty String.[] t k = rw (nil-append t) k
append_nonempty (String.◌∷◌ c s) t k = rw (cons-append c s t) (cons_nonempty c (s ++ t))

-- A text that ends in something that `trim_right` keeps is kept.
trim_right-append :
    (s t : String) → trim_right t ≡ t → (t =ₛ "") ≡ false → trim_right (s ++ t) ≡ s ++ t
unfolding trim_right
trim_right-append String.[] t h k = rw (nil-append t) h
trim_right-append (String.◌∷◌ c s) t h k =
    rw (cons-append c s t, trim_right, trim_right-append s t h k, append_nonempty s t k)
      (ground arith)

trim_left-append : (s t : String) → NoSlash s → (s =ₛ "") ≡ false → trim_left (s ++ t) ≡ s ++ t
unfolding trim_left
trim_left-append String.[] t h k = cc
trim_left-append (String.◌∷◌ c s) t h k = rw (cons-append c s t) (ground arith)

-- What the first part of a split gains in front.
abbrev put_before : String → String × List String → String × List String
put_before s (first, rest) = (s ++ first, rest)

split_slash-append :
    (s t : String) → NoSlash s → split_slash (s ++ t) ≡ put_before s (split_slash t)
unfolding split_slash
split_slash-append String.[] t h = rw (nil-append t, nil-append (split_slash t).0) refl
split_slash-append (String.◌∷◌ c s) t h =
    rw
      (
        cons-append c s t,
        split_slash,
        split_slash-append s t h.1,
        cons-append c s (split_slash t).0,
      )
      (ground arith)

-- What the routing makes of the path of an id.
routed :
    (id rest : String)
    → NoSlash id
    → (id =ₛ "") ≡ false
    → trim_right (id ++ rest) ≡ id ++ rest
    → workflow_parts (plain_path id rest) ≡ put_before id (split_slash rest)
unfolding workflow_parts
routed id rest h k kept =
    rw (trim_prefix-append "/api/v1/workflows/" (id ++ rest), kept, trim_left-append id rest h k)
      (split_slash-append id rest h)

-- The path with an action behind the id, which is a slash and a name.
pub parts-plain :
    (id : String)
    → NoSlash id
    → (id =ₛ "") ≡ false
    → (workflow_parts (plain_path id "/stop") ≡ (id, "stop" ∷ []))
      × (workflow_parts (plain_path id "/restart") ≡ (id, "restart" ∷ []))
      × (workflow_parts (plain_path id "/exec") ≡ (id, "exec" ∷ []))
      × (workflow_parts (plain_path id "/status") ≡ (id, "status" ∷ []))
      × (workflow_parts (plain_path id "") ≡ (id, []))
unfolding trim_right split_slash
parts-plain id h k = (
  at "/stop" refl refl ∙ whole "stop",
  at "/restart" refl refl ∙ whole "restart",
  at "/exec" refl refl ∙ whole "exec",
  at "/status" refl refl ∙ whole "status",
  routed id "" h k (rw (append-nil id) (trim_right-NoSlash id h))
      ∙ ap (λ (s : String). (s, [])) (append-nil id),
)
  where
    at :
        (rest : String)
        → trim_right rest ≡ rest
        → (rest =ₛ "") ≡ false
        → workflow_parts (plain_path id rest) ≡ put_before id (split_slash rest)
    at rest e f = routed id rest h k (trim_right-append id rest e f)

    whole : (name : String) → put_before id ("", name ∷ []) ≡ (id, name ∷ [])
    whole name = ap (λ (s : String). (s, name ∷ [])) (append-nil id)

-- The handler takes the path that the client writes for an action on a workflow, once it is decoded,
-- apart into the id and that action, or no action. The id is not empty, is neither "." nor "..", and
-- has no slash; what PathEscape has made of a text is read back as that text.
pub workflow_parts-action :
    (escape decode : String → String) (id : String)
    → Unescapes escape decode
    → NoSlash id
    → (id =ₛ "") ≡ false
    → NoDots id
    → (workflow_parts (decode (workflow_path escape id "/stop")) ≡ (id, "stop" ∷ []))
      × (workflow_parts (decode (workflow_path escape id "/restart")) ≡ (id, "restart" ∷ []))
      × (workflow_parts (decode (workflow_path escape id "/exec")) ≡ (id, "exec" ∷ []))
      × (workflow_parts (decode (workflow_path escape id "/status")) ≡ (id, "status" ∷ []))
      × (workflow_parts (decode (workflow_path escape id "")) ≡ (id, []))
unfolding has_percent
workflow_parts-action escape decode id (plain, undone) h k dots =
    let parts = parts-plain id h k in
    let read = λ (rest : String) (clean : has_percent rest ≡ false).
      ap workflow_parts (undone "/api/v1/workflows/" id rest refl clean) in
    (
      read "/stop" refl ∙ parts.0,
      read "/restart" refl ∙ parts.1,
      read "/exec" refl ∙ parts.2,
      read "/status" refl ∙ parts.3,
      read "" refl ∙ parts.4,
    )
