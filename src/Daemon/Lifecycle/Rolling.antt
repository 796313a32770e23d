-- ===== src/Daemon/Lifecycle/Rolling.antt =====
-- daemon.go: the routes that stand for the handles of a workflow that is being activated.
use lumn.Base.{
  String, ◌≡◌, refl, sym, subst, ap, ◌∙◌, ◌⊎◌, inl, inr, true, false, not, Option, none, some, List,
  [], ◌∷◌, ◌++◌, ◌=ₛ◌, =ₛ_refl, Bool-cases, eq_iff,
}
use lumn.Webhooks.{Route, Routes, route_key, unregister, is_own, is_foreign, put_route}
use lumn.Daemon.{Daemon, Handle, schedule, hook, watcher}
use lumn.Daemon.Lifecycle.{stop_handles}

-- One of the handles is that of the route.
abbrev HasHook : String → List Handle → Type 0
HasHook key [] = ⊥
HasHook key (hook method path ∷ rest) = ((key =ₛ route_key method path) ≡ true) ⊎ HasHook key rest
HasHook key (schedule t plan ∷ rest) = HasHook key rest
HasHook key (watcher t c ∷ rest) = HasHook key rest

HasHook-more :
    (key : String) (hs : List Handle) (h : Handle) → HasHook key hs → HasHook key (hs ++ h ∷ [])
HasHook-more key [] h k = absurd k
HasHook-more key (hook method path ∷ rest) h (inl e) = inl e
HasHook-more key (hook method path ∷ rest) h (inr k) = inr (HasHook-more key rest h k)
HasHook-more key (schedule t plan ∷ rest) h k = HasHook-more key rest h k
HasHook-more key (watcher t c ∷ rest) h k = HasHook-more key rest h k

HasHook-last :
    (key method path : String) (hs : List Handle)
    → (key =ₛ route_key method path) ≡ true
    → HasHook key (hs ++ hook method path ∷ [])
HasHook-last key method path [] e = inl e
HasHook-last key method path (hook m p ∷ rest) e = inr (HasHook-last key method path rest e)
HasHook-last key method path (schedule t plan ∷ rest) e = HasHook-last key method path rest e
HasHook-last key method path (watcher t c ∷ rest) e = HasHook-last key method path rest e

unregister-foreign :
    (id method path key : String) (routes : Routes)
    → is_own id (routes key) ≡ false
    → unregister id method path routes key ≡ routes key
unfolding unregister
unregister-foreign id method path key routes e = elim (Bool-cases (key =ₛ route_key method path)) [
  | inl same ↦ rw (same, e, unregister) refl
  | inr other ↦ rw (other, unregister) refl
]

stop_handles-foreign :
    (id key : String) (hs : List Handle) (d : Daemon)
    → is_own id (d.routes key) ≡ false
    → (stop_handles id hs d).routes key ≡ d.routes key
unfolding stop_handles
stop_handles-foreign id key [] d e = refl
stop_handles-foreign id key (schedule t plan ∷ rest) d e = stop_handles-foreign id key rest d e
stop_handles-foreign id key (watcher t c ∷ rest) d e = stop_handles-foreign id key rest d e
stop_handles-foreign id key (hook method path ∷ rest) d e =
    let same = unregister-foreign id method path key d.routes e in
    stop_handles-foreign id key rest (record d { routes = unregister id method path d.routes })
      (ap (is_own id) same ∙ e)
    ∙ same

-- A route of the workflow that one of the handles stands for is gone after they are stopped.
stop_handles-own :
    (id key : String) (hs : List Handle) (d : Daemon)
    → is_own id (d.routes key) ≡ true
    → HasHook key hs
    → (stop_handles id hs d).routes key ≡ none
unfolding stop_handles unregister
stop_handles-own id key [] d e k = absurd k
stop_handles-own id key (schedule t plan ∷ rest) d e k = stop_handles-own id key rest d e k
stop_handles-own id key (watcher t c ∷ rest) d e k = stop_handles-own id key rest d e k
stop_handles-own id key (hook method path ∷ rest) d e k =
    let stopped = record d { routes = unregister id method path d.routes } in
    elim (Bool-cases (key =ₛ route_key method path)) [
      | inl same ↦
          let gone : unregister id method path d.routes key ≡ none =
            rw (same, e, unregister) refl in
          stop_handles-foreign id key rest stopped (ap (is_own id) gone) ∙ gone
      | inr other ↦
          let kept : unregister id method path d.routes key ≡ d.routes key =
            rw (other, unregister) refl in
          elim k [
            | inl same ↦ let clash = sym other ∙ same in cc clash
            | inr later ↦ stop_handles-own id key rest stopped (ap (is_own id) kept ∙ e) later
          ]
    ]

-- A route is as it was at first, or it is the workflow's, one of the handles stands for it, and there
-- was none at first.
abbrev pub Rolling : String → String → List Handle → Option Route → Routes → Type 0
Rolling id key hs base routes =
    (routes key ≡ base) ⊎ ((is_own id (routes key) ≡ true) × (base ≡ none) × HasHook key hs)

pub stop_handles-Rolling :
    (id key : String) (hs : List Handle) (base : Option Route) (d : Daemon)
    → is_own id base ≡ false
    → Rolling id key hs base d.routes
    → (stop_handles id hs d).routes key ≡ base
stop_handles-Rolling id key hs base d foreign (inl same) =
    stop_handles-foreign id key hs d (ap (is_own id) same ∙ foreign) ∙ same
stop_handles-Rolling id key hs base d foreign (inr (own, new, k)) =
    stop_handles-own id key hs d own k ∙ sym new

pub Rolling-more :
    (id key : String) (hs : List Handle) (h : Handle) (base : Option Route) (routes : Routes)
    → Rolling id key hs base routes
    → Rolling id key (hs ++ h ∷ []) base routes
Rolling-more id key hs h base routes (inl same) = inl same
Rolling-more id key hs h base routes (inr (own, new, k)) = inr (own, new, HasHook-more key hs h k)

-- What stood under a key that the workflow may register: nothing, or a route of its own.
Rolling-free :
    (id key : String) (hs : List Handle) (base : Option Route) (routes : Routes)
    → is_own id base ≡ false
    → is_foreign id (routes key) ≡ false
    → Rolling id key hs base routes
    → base ≡ none
Rolling-free id key hs base routes foreign free (inr (own, new, k)) = new
Rolling-free id key hs none routes foreign free (inl same) = refl
Rolling-free id key hs (some route) routes foreign free (inl same) =
    let other : not (route.workflow_id =ₛ id) ≡ false = ap (is_foreign id) (sym same) ∙ free in
    let clash : true ≡ false = ap not (sym foreign) ∙ other in cc clash

pub put_route-Rolling :
    (id key method path : String) (hs : List Handle) (base : Option Route) (routes : Routes)
    → is_own id base ≡ false
    → is_foreign id (routes (route_key method path)) ≡ false
    → Rolling id key hs base routes
    → Rolling id key
        (hs ++ hook method path ∷ [])
        base
        (put_route (record { workflow_id = id; method = method; path = path }) routes)
put_route-Rolling id key method path hs base routes foreign free h =
    elim (Bool-cases (key =ₛ route_key method path)) [
      | inl same ↦
          let at = (eq_iff key (route_key method path)).0 same in
          let new =
            Rolling-free id key hs base routes foreign
              (subst (λ k. is_foreign id (routes k) ≡ false) (sym at) free) h in
          rw same (inr (=ₛ_refl id, new, HasHook-last key method path hs same))
      | inr other ↦ rw other (Rolling-more id key hs (hook method path) base routes h)
    ]
