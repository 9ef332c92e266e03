-- ===== src/Dict.antt =====
-- Python's `dict` as an association list in insertion order; `d[k] = v` keeps an old key's place.
use lipas.Prelude.{
  beq_refl, ◌==◌, ℕ_eq, String_eq, Option_eq, List_eq, Pair_eq, Eq, ℤ_eq, contains, if◌then◌else◌,
  Bool-cases, ◌≡◌, refl, ◌⊎◌, inl, inr, Bool, true, false, ◌||◌, Option, none, some, List, [], ◌∷◌,
  ◌++◌, arith,
}

abbrev pub Dict {ℓ κ} : Type ℓ → Type κ → Type (ℓ ⊔ κ)
Dict K V = List (K × V)

module _ {ℓ κ} {K : Type ℓ} ⦃e : Eq K⦄ {V : Type κ} where
  -- `d.get(k)`
  unfoldable pub get : K → Dict K V → Option V
  get k [] = none
  get k ((j, v) ∷ m) = if j == k then some v else get k m

  -- `d[k] = v`
  unfoldable pub put : K → V → Dict K V → Dict K V
  put k v [] = (k, v) ∷ []
  put k v ((j, w) ∷ m) = let rest = put k v m in if j == k then (j, v) ∷ m else (j, w) ∷ rest

  -- `k in d`
  unfoldable pub has : K → Dict K V → Bool
  has k [] = false
  has k ((j, v) ∷ m) = j == k || has k m

  -- The keys of a `dict` are distinct.
  abbrev pub IsDict : Dict K V → Type 0
  IsDict [] = Unit
  IsDict ((k, v) ∷ m) = (has k m ≡ false) × IsDict m

  -- Some entry satisfies the test.
  unfoldable pub exists : (K → V → Bool) → Dict K V → Bool
  exists p [] = false
  exists p ((k, v) ∷ m) = p k v || exists p m

  pub get-put :
      (k j : K) (v : V) (m : Dict K V) → get j (put k v m) ≡ (if k == j then some v else get j m)
  unfolding get put
  get-put k j v [] = refl
  get-put k j v ((i, w) ∷ m) =
      ground (arith, e.eqb_iff k j, e.eqb_iff i k, e.eqb_iff i j, get-put k j v m)

  pub get-put_self : (k : K) (v : V) (m : Dict K V) → get k (put k v m) ≡ some v
  get-put_self k v m = rw (get-put k k v m, beq_refl k) refl

  pub get-put-some :
      (k j : K) (v w : V) (m : Dict K V)
      → get j (put k v m) ≡ some w
      → ((k ≡ j) × (w ≡ v)) ⊎ (((k == j) ≡ false) × (get j m ≡ some w))
  get-put-some k j v w m h = elim (Bool-cases (k == j)) [
    | inl same ↦ let h' = rw (get-put k j v m, same) at h in inl ((e.eqb_iff k j).0 same, cc h')
    | inr other ↦ let h' = rw (get-put k j v m, other) at h in inr (other, h')
  ]

  pub get-put-none :
      (k j : K) (v : V) (m : Dict K V)
      → get j (put k v m) ≡ none
      → ((k == j) ≡ false) × (get j m ≡ none)
  get-put-none k j v m h = ground (arith, h, get-put k j v m)

  pub get-none_of_has : (k : K) (m : Dict K V) → has k m ≡ false → get k m ≡ none
  unfolding get has
  get-none_of_has k [] h = refl
  get-none_of_has k ((j, v) ∷ m) h = ground (arith, get-none_of_has k m)

  pub has_of_get : (k : K) (m : Dict K V) (v : V) → get k m ≡ some v → has k m ≡ true
  unfolding get has
  has_of_get k [] v h = ground arith
  has_of_get k ((j, w) ∷ m) v h = ground (arith, has_of_get k m v)

  pub has-false_of_get : (k : K) (m : Dict K V) → get k m ≡ none → has k m ≡ false
  unfolding get has
  has-false_of_get k [] h = refl
  has-false_of_get k ((j, v) ∷ m) h = ground (arith, has-false_of_get k m)

  -- A new key goes to the end.
  pub put-new : (k : K) (v : V) (m : Dict K V) → has k m ≡ false → put k v m ≡ m ++ (k, v) ∷ []
  unfolding put has
  put-new k v [] h = refl
  put-new k v ((j, w) ∷ m) h = ground (arith, put-new k v m)

  pub has-append : (k : K) (m n : Dict K V) → has k (m ++ n) ≡ (has k m || has k n)
  unfolding has
  has-append k [] n = refl
  has-append k ((j, v) ∷ m) n = ground (arith, has-append k m n)

  pub append-IsDict :
      (k : K) (v : V) (m : Dict K V) → IsDict m → has k m ≡ false → IsDict (m ++ (k, v) ∷ [])
  unfolding has
  append-IsDict k v [] h n = ground arith
  append-IsDict k v ((j, w) ∷ m) h n =
      ground
        (arith, append-IsDict k v m, has-append j m ((k, v) ∷ []), e.eqb_iff j k, e.eqb_iff k j)

  pub has-put : (k j : K) (v : V) (m : Dict K V) → has j (put k v m) ≡ (k == j || has j m)
  unfolding has put
  has-put k j v [] = refl
  has-put k j v ((i, w) ∷ m) =
      ground (arith, e.eqb_iff k j, e.eqb_iff i k, e.eqb_iff i j, has-put k j v m)

  pub put-IsDict : (k : K) (v : V) (m : Dict K V) → IsDict m → IsDict (put k v m)
  unfolding put has
  put-IsDict k v [] h = ground arith
  put-IsDict k v ((i, w) ∷ m) h =
      ground (arith, put-IsDict k v m, has-put k i v m, e.eqb_iff k i, e.eqb_iff i k)

  -- A test that no entry satisfies fails at each looked-up entry.
  pub exists-false :
      (p : K → V → Bool) (m : Dict K V) (k : K) (v : V)
      → exists p m ≡ false
      → get k m ≡ some v
      → p k v ≡ false
  unfolding exists get
  exists-false p [] k v h g = ground arith
  exists-false p ((j, w) ∷ m) k v h g = ground (arith, exists-false p m k v, e.eqb_iff j k)

-- `[k for k in d]`
module _ {ℓ κ} {K : Type ℓ} {V : Type κ} where
  unfoldable pub keys : Dict K V → List K
  keys [] = []
  keys ((k, v) ∷ m) = k ∷ keys m

module _ {ℓ κ} {K : Type ℓ} ⦃e : Eq K⦄ {V : Type κ} where
  pub contains-keys : (k : K) (m : Dict K V) → contains (keys m) k ≡ has k m
  unfolding keys has
  contains-keys k [] = refl
  contains-keys k ((j, v) ∷ m) = ground (arith, contains-keys k m)
