-- ===== src/Lua/Keys.antt =====
-- internal/lua/runtime.go: the keys of references are never given out twice.
use Prim.Native.String.{◌++◌}
use Prim.Native.String.append.{nil, cons}
use lumn.Base.{
  ℕ, ◌≤◌, String, ◌≡◌, refl, sym, ap, ◌∙◌, inl, inr, true, false, ◌=ₛ◌, Bool-cases, arith, eq_iff,
}
use lumn.Lua.{LuaValue, lua_nil, Vm, Refs, look_up, push_ref, is_nil, ref_key, store_ref}

tail : String → String
tail String.[] = ""
tail (String.◌∷◌ c s) = s

-- A common prefix cancels.
append_cancel : (p s t : String) → p ++ s ≡ p ++ t → s ≡ t
unfolding tail
append_cancel String.[] s t e = sym (nil s) ∙ e ∙ nil t
append_cancel (String.◌∷◌ c p) s t e =
    append_cancel p s t (ap tail (sym (cons c p s) ∙ e ∙ cons c p t))

-- The keys that are not given out yet hold nothing.
abbrev pub Fresh : Vm → Refs → Type 0
Fresh vm r = (n : ℕ) → r.next_ref ≤ n → push_ref r (ref_key vm n) ≡ lua_nil

-- What a reference of `r` holds, it holds in `r'`.
abbrev pub Keeps : Refs → Refs → Type 0
Keeps r r' = (key : String) → is_nil (push_ref r key) ≡ false → push_ref r' key ≡ push_ref r key

pub Keeps-refl : (r : Refs) → Keeps r r
Keeps-refl r key h = refl

pub Keeps-trans : (r r' r'' : Refs) → Keeps r r' → Keeps r' r'' → Keeps r r''
Keeps-trans r r' r'' k k' key h = let same = k key h in k' key (ap is_nil same ∙ h) ∙ same

-- `%d` prints different numbers differently.
module _ (vm : Vm) (decimal_injective : (a b : ℕ) → vm.decimal a ≡ vm.decimal b → a ≡ b) where
  ref_key_injective : (a b : ℕ) → (ref_key vm a =ₛ ref_key vm b) ≡ true → a ≡ b
  unfolding ref_key
  ref_key_injective a b h = decimal_injective a b (
      append_cancel "__lumn_ref_" (vm.decimal a) (vm.decimal b)
        ((eq_iff (ref_key vm a) (ref_key vm b)).0 h))

  pub store_ref-Fresh : (v : LuaValue) (r : Refs) → Fresh vm r → Fresh vm (store_ref vm v r).0
  unfolding store_ref push_ref look_up
  store_ref-Fresh v r fresh n le = elim (Bool-cases (ref_key vm r.next_ref =ₛ ref_key vm n)) [
    | inl same ↦ let e = ref_key_injective r.next_ref n same in absurd (omega arith)
    | inr other ↦ rw other (fresh n (omega arith))
  ]

  pub store_ref-Keeps : (v : LuaValue) (r : Refs) → Fresh vm r → Keeps r (store_ref vm v r).0
  unfolding store_ref push_ref look_up
  store_ref-Keeps v r fresh key h = elim (Bool-cases (ref_key vm r.next_ref =ₛ key)) [
    | inl same ↦
        let e = (eq_iff (ref_key vm r.next_ref) key).0 same in
        let gone = ap (look_up r.registry) (sym e) ∙ fresh r.next_ref (omega arith) in cc
    | inr other ↦ rw other refl
  ]
