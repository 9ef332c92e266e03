-- ===== src/Coordination/Mapping.antt =====
-- lipas/execution.py: what `_budget_mapping` accepts, and that it keeps a mapping that it made.
use lipas.Prelude.{
  ◌==◌, ℕ_eq, String_eq, Option_eq, List_eq, Pair_eq, ok, ℤ_eq, String, ◌≡◌, refl, sym, ◌∙◌, ap,
  subst, true, false, Option, some, [], ◌∷◌, ◌++◌, append-nil, append_assoc, arith,
}
use lipas.Attempt.{◌>>=◌, ◌>>◌, guard, required, Post, Post-bind, Post-guard, Post-ok}
use lipas.Dict.{Dict, put, has, put-new, has-append, has-put}
use lipas.Text.{strip}
use lipas.Text.Strip.{strip_self}
use lipas.Rows.Float.{Float}
use lipas.Coordination.Budget.{budget_mapping}

module _ (float : Float) where
  open float use {F, zero as f0, add, lt, is_finite}

  -- The distinct keys are stripped and not empty, and the amounts are finite and not negative.
  abbrev pub IsBudget : Dict String F → Type 0
  IsBudget [] = Unit
  IsBudget ((k, x) ∷ m) =
      (strip k ≡ k)
      × ((k == "") ≡ false)
      × (is_finite x ≡ true)
      × (lt x f0 ≡ false)
      × (has k m ≡ false)
      × IsBudget m

  pub put-IsBudget :
      (k : String) (x : F) (m : Dict String F)
      → strip k ≡ k
      → (k == "") ≡ false
      → is_finite x ≡ true
      → lt x f0 ≡ false
      → IsBudget m
      → IsBudget (put k x m)
  unfolding put has
  put-IsBudget k x [] stripped text finite positive h = (stripped, text, finite, positive, refl, tt)
  put-IsBudget k x ((j, y) ∷ m) stripped text finite positive h =
      ground
        (arith, put-IsBudget k x m, has-put k j x m, String_eq.eqb_iff k j, String_eq.eqb_iff j k)

  pub budget_mapping-IsBudget :
      {V : Type 0} (read : V → Option F) (raw : Dict String V) (normalized : Dict String F)
      → IsBudget normalized
      → Post IsBudget (budget_mapping float read raw normalized)
  unfolding budget_mapping
  budget_mapping-IsBudget read [] normalized h = Post-ok h
  budget_mapping-IsBudget read ((bucket, amount) ∷ rest) normalized h = Post-guard _ _ _ λ text.
      Post-guard _ _ _ λ new. Post-bind _ _ λ x got. Post-guard _ _ _ λ fine.
        budget_mapping-IsBudget read rest (put (strip bucket) x normalized) (
          put-IsBudget (strip bucket) x normalized (strip_self bucket) (ground (arith, text))
            (ground (arith, fine)) (ground (arith, fine)) h)

  middle :
      (k : String) (x : F) (m n : Dict String F)
      → IsBudget (m ++ (k, x) ∷ n)
      → (has k m ≡ false)
        × (strip k ≡ k)
        × ((k == "") ≡ false)
        × (is_finite x ≡ true)
        × (lt x f0 ≡ false)
  unfolding has
  middle k x [] n h = ground arith
  middle k x ((j, y) ∷ m) n h = ground (
    arith,
    middle k x m n,
    has-append j m ((k, x) ∷ n),
    String_eq.eqb_iff k j,
    String_eq.eqb_iff j k,
  )

  budget_mapping-rest :
      (m n : Dict String F)
      → IsBudget (m ++ n)
      → budget_mapping float (λ x. some x) n m ≡ ok (m ++ n)
  unfolding budget_mapping ◌>>=◌ ◌>>◌ guard required
  budget_mapping-rest m [] h = rw (append-nil) refl
  budget_mapping-rest m ((k, x) ∷ n) h =
      let fact = middle k x m n h in
      let regroup = append_assoc m ((k, x) ∷ []) n in
      rw (fact.1, fact.2, fact.0, fact.3, fact.4, put-new k x m fact.0)
        (budget_mapping-rest (m ++ (k, x) ∷ []) n (subst IsBudget (sym regroup) h) ∙ ap ok regroup)

  -- A mapping that `_budget_mapping` made is kept as it is when it is read again.
  pub budget_mapping_self :
      (m : Dict String F) → IsBudget m → budget_mapping float (λ x. some x) m [] ≡ ok m
  budget_mapping_self m h = budget_mapping-rest [] m h
