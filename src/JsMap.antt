-- ===== src/JsMap.antt =====
-- A JavaScript `Map` with string keys. It iterates in the order of insertion: writing a key that is
-- there keeps its place, and a new key goes to the end.
pub mod Count
use mathlib.Core.Path.{subst₂}
use mathlib.Core.Option.{some-injective}
use filenymous.Prelude.{
  inl, inr, ◌⊎◌, sym, subst, Bool-cases, is_some, ℕ, suc, ◌+◌, ◌-◌, ◌≤◌, ◌≡◌, refl, ap, Bool, true,
  false, Option, none, some, List, [], ◌∷◌, ◌++◌, map, arith, if◌then◌else◌, Text, text_eq,
  text_eq_iff, length, All,
}

abbrev pub JsMap {ℓ} : Type ℓ → Type ℓ
JsMap V = List (Text × V)

module _ {ℓ} {V : Type ℓ} where
  -- `m.get(k)`
  unfoldable pub get : Text → JsMap V → Option V
  get k [] = none
  get k ((j, v) ∷ m) = let rest = get k m in if text_eq j k then some v else rest

  -- `m.has(k)`
  unfoldable pub has : Text → JsMap V → Bool
  has k [] = false
  has k ((j, v) ∷ m) = let rest = has k m in if text_eq j k then true else rest

  -- `m.set(k, v)`
  unfoldable pub set : Text → V → JsMap V → JsMap V
  set k v [] = (k, v) ∷ []
  set k v ((j, w) ∷ m) = let rest = set k v m in if text_eq j k then (j, v) ∷ m else (j, w) ∷ rest

  -- `m.delete(k)`: a key stands once, by `set`.
  unfoldable pub delete : Text → JsMap V → JsMap V
  delete k [] = []
  delete k ((j, w) ∷ m) = let rest = delete k m in if text_eq j k then rest else (j, w) ∷ rest

  -- `[...m.values()]`
  abbrev pub values : JsMap V → List V
  values m = map (λ e. e.1) m

  -- `m.size`
  abbrev pub size : JsMap V → ℕ
  size m = length m

  pub get-set :
      (k j : Text) (v : V) (m : JsMap V)
      → get j (set k v m) ≡ (if text_eq k j then some v else get j m)
  unfolding get set
  get-set k j v [] = ground arith
  get-set k j v ((i, w) ∷ m) =
      ground (arith, text_eq_iff k j, text_eq_iff i k, text_eq_iff i j, get-set k j v m)

  pub get-set_same : (k : Text) (v : V) (m : JsMap V) → get k (set k v m) ≡ some v
  get-set_same k v m = ground (arith, get-set k k v m, text_eq_iff k k)

  pub get-set_other :
      (k j : Text) (v : V) (m : JsMap V) → text_eq k j ≡ false → get j (set k v m) ≡ get j m
  get-set_other k j v m h = ground (arith, get-set k j v m)

  -- What a map holds after a write is the new entry or an old one.
  pub set_found :
      (k j : Text) (v : V) (m : JsMap V) {u : V}
      → get j (set k v m) ≡ some u
      → ((k ≡ j) × (v ≡ u)) ⊎ ((text_eq k j ≡ false) × (get j m ≡ some u))
  set_found k j v m {u} h = elim (Bool-cases (text_eq k j)) [
    | inl e ↦ inl ((text_eq_iff k j).0 e, some-injective v u (ground (arith, get-set k j v m)))
    | inr e ↦ inr (e, ground (arith, get-set k j v m))
  ]

  pub get-delete :
      (k j : Text) (m : JsMap V) → get j (delete k m) ≡ (if text_eq k j then none else get j m)
  unfolding get delete
  get-delete k j [] = ground arith
  get-delete k j ((i, w) ∷ m) =
      ground (arith, text_eq_iff k j, text_eq_iff i k, text_eq_iff i j, get-delete k j m)

  pub size-set :
      (k : Text) (v : V) (m : JsMap V) → size (set k v m) ≡ (if has k m then size m else size m + 1)
  unfolding has set
  size-set k v [] = ground arith
  size-set k v ((i, w) ∷ m) = ground (arith, size-set k v m)

  pub size-delete-le : (k : Text) (m : JsMap V) → size (delete k m) ≤ size m
  unfolding delete
  size-delete-le k [] = omega arith
  size-delete-le k ((i, w) ∷ m) = ground (arith, size-delete-le k m)

  pub has-get : (k : Text) (m : JsMap V) → has k m ≡ is_some (get k m)
  unfolding get has
  has-get k [] = refl
  has-get k ((i, w) ∷ m) = ground (arith, has-get k m)

-- A predicate on the entries.
module _ {ℓ κ} {V : Type ℓ} (P : Text × V → Type κ) where
  pub All-set : (k : Text) (v : V) (m : JsMap V) → P (k, v) → All P m → All P (set k v m)
  unfolding set
  All-set k v [] p h = (p, tt)
  All-set k v ((i, w) ∷ m) p h = elim (Bool-cases (text_eq i k)) [
    | inl e ↦ rw e (subst (λ t. P (t, v)) (sym ((text_eq_iff i k).0 e)) p, h.1)
    | inr e ↦ rw e (h.0, All-set k v m p h.1)
  ]

  pub All-delete : (k : Text) (m : JsMap V) → All P m → All P (delete k m)
  unfolding delete
  All-delete k [] h = tt
  All-delete k ((i, w) ∷ m) h = ground (arith, All-delete k m)

  pub get-All : (k : Text) (m : JsMap V) {v : V} → All P m → get k m ≡ some v → P (k, v)
  unfolding get
  get-All k [] h e = ground arith
  get-All k ((i, w) ∷ m) h e = elim (Bool-cases (text_eq i k)) [
    | inl t ↦ subst₂ (λ j u. P (j, u)) ((text_eq_iff i k).0 t) (some-injective w _ (rw t at e)) h.0
    | inr t ↦ get-All k m h.1 (rw t at e)
  ]

  pub All-weaken {ι} :
      (Q : Text × V → Type ι) (m : JsMap V) → ((e : Text × V) → P e → Q e) → All P m → All Q m
  All-weaken Q [] f h = tt
  All-weaken Q (e ∷ m) f h = (f e h.0, All-weaken Q m f h.1)
