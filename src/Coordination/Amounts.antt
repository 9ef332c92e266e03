-- ===== src/Coordination/Amounts.antt =====
-- lipas/execution.py: the loop of reserve_coordination_budget over the buckets of an estimate.
use lipas.Prelude.{
  ◌==◌, ℕ_eq, String_eq, Option_eq, List_eq, Pair_eq, eq_of_beq, ℤ_eq, if◌then◌else◌, Bool-cases,
  Option-cases, String, ◌≡◌, refl, inl, inr, true, false, none, some, [], ◌∷◌, arith,
}
use lipas.Attempt.{Post, Post-bind, Post-guard, Post-ok, Post-weaken, required-eq-ok}
use lipas.Dict.{Dict, get, put, get-put, get-none_of_has}
use lipas.Rows.Float.{Float}
use lipas.Coordination.Budget.{amount_in, admit}
use lipas.Coordination.Mapping.{IsBudget, put-IsBudget}

module _ (float : Float) where
  open float use {F, zero as f0, add, lt, is_finite}

  -- The amount of a bucket after an estimate was added to it.
  unfoldable pub charge : String → Dict String F → F → F
  charge bucket estimate t = elim (get bucket estimate) [ none ↦ t | some x ↦ add t x ]

  -- No bucket is above its limit.
  abbrev pub IsUnder : Dict String F → Dict String F → Type 0
  IsUnder limits spent =
      (bucket : String) (limit : F)
      → get bucket limits ≡ some limit
      → lt limit (amount_in float bucket spent) ≡ false

  abbrev IsAmount : F → Type 0
  IsAmount x = (is_finite x ≡ true) × (lt x f0 ≡ false)

  pub get-IsAmount :
      (k : String) (m : Dict String F) (x : F) → IsBudget float m → get k m ≡ some x → IsAmount x
  unfolding get
  get-IsAmount k [] x h got = absurd (cc got)
  get-IsAmount k ((j, y) ∷ m) x h got = ground (arith, get-IsAmount k m x)

  amount_in-IsAmount :
      (k : String) (m : Dict String F) → IsBudget float m → IsAmount (amount_in float k m)
  unfolding amount_in
  amount_in-IsAmount k m h = elim (Option-cases (get k m)) [
    | inl none_ ↦ rw (none_, amount_in) (float.zero_finite, float.lt_irrefl f0 float.zero_finite)
    | inr (x, got) ↦ rw (got, amount_in) (get-IsAmount k m x h got)
  ]

  amount_in-put :
      (k j : String) (x : F) (m : Dict String F)
      → amount_in float j (put k x m) ≡ (if k == j then x else amount_in float j m)
  unfolding amount_in
  amount_in-put k j x m = ground (arith, get-put k j x m)

  pub admit-charge :
      (limits estimate spent : Dict String F)
      → IsBudget float estimate
      → Post
          (λ after.
            (c : String) → amount_in float c after ≡ charge c estimate (amount_in float c spent))
          (admit float limits estimate spent)
  unfolding admit charge get
  admit-charge limits [] spent h = Post-ok (λ c. refl)
  admit-charge limits ((b, x) ∷ rest) spent h = Post-bind _ _ λ limit got. Post-guard _ _ _ λ under.
      Post-weaken (admit-charge limits rest (put b (add (amount_in float b spent) x) spent) h.5)
        λ after same c. ground (
          arith,
          same c,
          amount_in-put b c (add (amount_in float b spent) x) spent,
          get-none_of_has b rest,
          h.4,
          String_eq.eqb_iff b c,
        )

  -- A sum that is not above a limit is an amount.
  sum-IsAmount :
      (a b limit : F)
      → IsAmount a
      → IsAmount b
      → IsAmount limit
      → lt limit (add a b) ≡ false
      → IsAmount (add a b)
  sum-IsAmount a b limit ha hb hl under =
      ground (arith, ha, hb, hl, float.add_nonneg a b, float.overflow_above a b limit)

  pub admit-IsBudget :
      (limits estimate spent : Dict String F)
      → IsBudget float limits
      → IsBudget float estimate
      → IsBudget float spent
      → Post (IsBudget float) (admit float limits estimate spent)
  unfolding admit
  admit-IsBudget limits [] spent hl he hs = Post-ok hs
  admit-IsBudget limits ((b, x) ∷ rest) spent hl he hs = Post-bind _ _ λ limit got.
      Post-guard _ _ _ λ under.
        let sum =
          sum-IsAmount (amount_in float b spent) x limit (amount_in-IsAmount b spent hs)
            (he.2, he.3) (get-IsAmount b limits limit hl (required-eq-ok _ _ got))
            (ground (arith, under)) in
        admit-IsBudget limits rest (put b (add (amount_in float b spent) x) spent) hl he.5
          (put-IsBudget float b _ spent he.0 he.1 sum.0 sum.1 hs)

  put-IsUnder :
      (limits spent : Dict String F) (b : String) (x limit : F)
      → IsUnder limits spent
      → get b limits ≡ some limit
      → lt limit x ≡ false
      → IsUnder limits (put b x spent)
  put-IsUnder limits spent b x limit h got under c l has_limit = elim (Bool-cases (b == c)) [
    | inl same ↦
        let bucket = eq_of_beq b c same in
        let agrees : l ≡ limit = cc (bucket, got, has_limit) in
        rw (amount_in-put b c x spent, same, agrees) under
    | inr other ↦ rw (amount_in-put b c x spent, other) (h c l has_limit)
  ]

  pub admit-IsUnder :
      (limits estimate spent : Dict String F)
      → IsUnder limits spent
      → Post (IsUnder limits) (admit float limits estimate spent)
  unfolding admit
  admit-IsUnder limits [] spent h = Post-ok h
  admit-IsUnder limits ((b, x) ∷ rest) spent h = Post-bind _ _ λ limit got.
      Post-guard _ _ _ λ under.
        admit-IsUnder limits rest (put b (add (amount_in float b spent) x) spent)
          (put-IsUnder limits spent b _ limit h (required-eq-ok _ _ got) (ground (arith, under)))
