-- ===== src/JsMap/Count.antt =====
-- How many values of a map pass a test, after a write and after a removal.
use filenymous.Prelude.{
  ℕ, suc, ◌+◌, ◌≤◌, ◌≡◌, Bool, true, false, some, [], ◌∷◌, arith, if◌then◌else◌, Text, text_eq,
  length, filter,
}
use filenymous.JsMap.{JsMap, get, has, set, delete, values, size, has-get, get-delete, get-set}

module _ {ℓ} {V : Type ℓ} where
  abbrev pub count : (V → Bool) → JsMap V → ℕ
  count p m = length (filter p (values m))

  -- A new value adds one if it passes.
  pub count-set_new :
      (p : V → Bool) (k : Text) (v : V) (m : JsMap V)
      → has k m ≡ false
      → count p (set k v m) ≡ (if p v then count p m + 1 else count p m)
  unfolding has set
  count-set_new p k v [] h = ground arith
  count-set_new p k v ((j, w) ∷ m) h = ground (arith, count-set_new p k v m)

  -- A value that replaces one which fares alike changes nothing.
  pub count-set_same :
      (p : V → Bool) (k : Text) (v w : V) (m : JsMap V)
      → get k m ≡ some w
      → p v ≡ p w
      → count p (set k v m) ≡ count p m
  unfolding get set
  count-set_same p k v w [] h e = ground arith
  count-set_same p k v w ((j, u) ∷ m) h e = ground (arith, count-set_same p k v w m)

  -- A write adds at most one, and only if the value passes.
  pub count-set-le :
      (p : V → Bool) (k : Text) (v : V) (m : JsMap V)
      → count p (set k v m) ≤ (if p v then count p m + 1 else count p m)
  unfolding set
  count-set-le p k v [] = ground arith
  count-set-le p k v ((j, w) ∷ m) = ground (arith, count-set-le p k v m)

  -- A value that passes only if the one it replaces did adds none.
  pub count-set_mono :
      (p : V → Bool) (k : Text) (v w : V) (m : JsMap V)
      → get k m ≡ some w
      → (p v ≡ true → p w ≡ true)
      → count p (set k v m) ≤ count p m
  unfolding get set
  count-set_mono p k v w [] h e = ground arith
  count-set_mono p k v w ((j, u) ∷ m) h e = ground (arith, count-set_mono p k v w m)

  pub count-delete-le : (p : V → Bool) (k : Text) (m : JsMap V) → count p (delete k m) ≤ count p m
  unfolding delete
  count-delete-le p k [] = omega arith
  count-delete-le p k ((j, w) ∷ m) = ground (arith, count-delete-le p k m)

  pub size-delete : (k : Text) (m : JsMap V) → has k m ≡ true → suc (size (delete k m)) ≤ size m
  unfolding has delete
  size-delete k [] h = ground arith
  size-delete k ((j, w) ∷ m) h = ground (arith, size-delete k m, delete_le m)
    where
      delete_le : (m : JsMap V) → size (delete k m) ≤ size m
      delete_le [] = omega arith
      delete_le ((i, u) ∷ m) = ground (arith, delete_le m)

  pub has-delete :
      (k j : Text) (m : JsMap V) → has j (delete k m) ≡ (if text_eq k j then false else has j m)
  has-delete k j m = rw (has-get j (delete k m), has-get j m, get-delete k j m) (ground arith)

  pub has-set :
      (k j : Text) (v : V) (m : JsMap V)
      → has j (set k v m) ≡ (if text_eq k j then true else has j m)
  has-set k j v m = rw (has-get j (set k v m), has-get j m, get-set k j v m) (ground arith)
