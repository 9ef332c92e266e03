-- ===== src/Rows/Capability/Ledger.antt =====
-- The hard budget of lipas/rows/capability.py, through `RowSet.fold` and over a whole session.
use lipas.Calculus.Context.{BeliefContext}
use lipas.Store.Delivery.{fold-log}
use lipas.Rows.Base.Gate.{fold_rows-cases, composed}
use lipas.Rows.Base.{fold_rows}
use lipas.Prelude.{
  ◌==◌, ℕ_eq, String_eq, Option_eq, eq_of_beq, ok, ℤ_eq, Bool-cases, ℕ, String, ◌≡◌, refl, inl, inr,
  none, some, [], ◌∷◌, ◌++◌, Eq, subst, List, sym, true, false, arith, Option-cases,
}
use lipas.Dict.{Dict, get, has-false_of_get, put, get-put}
use lipas.Rows.Float.{Float}
use lipas.Rows.Capability.{
  Payload, tag_resource_spent, spent, check_spent, normalize, capability_row, Row, check_invariants,
  Message, RowError, finite_float, strip,
}
use lipas.Rows.Capability.Budget.{
  AreLimits, IsWithin, spends, add_claim, spends-append, spent-eq-sum, tagged-eq-spends,
  sum_bucket-snoc, add_claim-IsLedger, contains-ids-filter,
}
use lipas.Calculus.Claim.{Claim, StrategyRegistry}
use lipas.Store.{ClaimStore, stamp, selected, fold, new_store}
use lipas.Store.Invariant.{IsConsistent, entries, fold-IsConsistent, new_store-IsConsistent}

module _ (float : Float) {V : Type 0} (payload : Payload V float.F) where
  open float use {F, zero as f0}

  check_spent-stamp :
      (budgets : Dict String F) (c : Claim V) (n : ℕ) (s : ClaimStore V)
      → check_spent float payload budgets (stamp c n) s ≡ check_spent float payload budgets c s
  unfolding check_spent
  check_spent-stamp budgets c n s = refl

  IsLedger-appended :
      (budgets : Dict String F) (c : Claim V) (s s' : ClaimStore V)
      → AreLimits float payload budgets
      → IsConsistent s
      → IsConsistent s'
      → IsWithin float payload budgets s
      → s'.log ≡ s.log ++ c ∷ []
      → get c.claim_id s.by_id ≡ none
      → (c.tag ≡ tag_resource_spent → check_spent float payload budgets c s ≡ ok [])
      → IsWithin float payload budgets s'
  IsLedger-appended budgets c s s' limits h h' within grown new accepted bucket limit l =
      let (t, sum, fin, low, under) = within bucket limit l in
      let unseen =
        contains-ids-filter float payload (selected (some tag_resource_spent) none none) s.log
          c.claim_id (has-false_of_get c.claim_id (entries s.log) (rw (← h.ids_indexed) new)) in
      let tape = spends-append float payload s s' c grown in
      elim (Bool-cases (c.tag == tag_resource_spent)) [
        | inl p ↦
            let total : spent float payload s' bucket ≡ add_claim float payload bucket t c = rw (
              spent-eq-sum float payload s' bucket h',
              tape,
              p,
              sum_bucket-snoc float payload bucket [] f0 (spends float payload s) c refl unseen,
              ← spent-eq-sum float payload s bucket h,
              sum,
            ) in
            rw total (
              add_claim-IsLedger float payload bucket limit t c s budgets limits l fin low under sum
                (tagged-eq-spends float payload s h) unseen
                (accepted (eq_of_beq c.tag tag_resource_spent p)))
        | inr q ↦
            let total : spent float payload s' bucket ≡ ok t = rw (
              spent-eq-sum float payload s' bucket h',
              tape,
              q,
              ← spent-eq-sum float payload s bucket h,
              sum,
            ) in
            (t, total, fin, low, under)
      ]

  check_spent_of_invariants :
      (budgets : Dict String F) (c : Claim V) (s : ClaimStore V)
      → ((capability_row float payload budgets).in_namespace c.tag ≡ true
          → (capability_row float payload budgets).check_invariants c s ≡ ok [])
      → c.tag ≡ tag_resource_spent
      → check_spent float payload budgets c s ≡ ok []
  unfolding capability_row
  check_spent_of_invariants budgets c s accepted t =
      let p = (String_eq.eqb_iff c.tag tag_resource_spent).1 t in
      let owned : (capability_row float payload budgets).in_namespace c.tag ≡ true = rw p in
      rw (p, check_invariants) at (accepted owned)

  put-AreLimits :
      (done : Dict String F) (name : String) (x : F)
      → AreLimits float payload done
      → float.is_finite x ≡ true
      → float.lt x f0 ≡ false
      → AreLimits float payload (put name x done)
  put-AreLimits done name x h fin low bucket limit l = elim (Bool-cases (name == bucket)) [
    | inl p ↦
        let same : x ≡ limit = ground (arith, get-put name bucket x done) in
        (rw (← same) fin, rw (← same) low)
    | inr q ↦ h bucket limit (ground (arith, get-put name bucket x done))
  ]

  normalize-cons :
      (bucket : String) (limit : V) (raw : Dict String V) (done budgets : Dict String F)
      → normalize float payload ((bucket, limit) ∷ raw) done ≡ ok budgets
      → (x : F) × (finite_float float payload limit ≡ some x)
        × (float.is_finite x ≡ true)
        × (float.lt x f0 ≡ false)
        × (normalize float payload raw (put (strip bucket) x done) ≡ ok budgets)
  unfolding normalize finite_float
  normalize-cons bucket limit raw done budgets h = elim (Option-cases (payload.to_float limit)) [
    | inl bad ↦ absurd (ground arith)
    | inr (x, p) ↦ (x, ground arith, ground arith, ground arith, ground arith)
  ]

  -- The limits that `__post_init__` accepts are finite and not negative.
  pub normalize-AreLimits :
      (raw : Dict String V) (done budgets : Dict String F)
      → AreLimits float payload done
      → normalize float payload raw done ≡ ok budgets
      → AreLimits float payload budgets
  unfolding normalize
  normalize-AreLimits [] done budgets h p =
      let same : done ≡ budgets = cc in
      subst (λ (d : Dict String F). AreLimits float payload d) same h
  normalize-AreLimits ((bucket, limit) ∷ raw) done budgets h p =
      let (x, _, fin, low, rest) = normalize-cons bucket limit raw done budgets p in
      normalize-AreLimits raw (put (strip bucket) x done) budgets
        (put-AreLimits done (strip bucket) x h fin low) rest

  no_limits : AreLimits float payload []
  unfolding get
  no_limits bucket limit p = cc

module _ (float : Float) {V : Type 0} ⦃e : Eq V⦄ (payload : Payload V float.F) where
  open float use {F, zero as f0}

  abbrev pub after_fold :
      Dict String F
      → List (Row V (Message F) RowError)
      → List (Row V (Message F) RowError)
      → String
      → Claim V
      → ClaimStore V
      → ClaimStore V
  after_fold budgets before after fresh c s =
      (fold_rows fresh c (composed s before (capability_row float payload budgets) after)).1.store

  -- Whatever claim is folded through a row set that holds the capability row, whatever the other rows
  -- and whether the fold returns or raises: if every budgeted bucket had a defined spend that is not
  -- above its limit, it still has.
  pub fold_rows-IsWithin :
      (budgets : Dict String F) (before after : List (Row V (Message F) RowError)) (fresh : String)
      (c : Claim V) (s : ClaimStore V)
      → AreLimits float payload budgets
      → IsConsistent s
      → IsWithin float payload budgets s
      → IsConsistent (after_fold budgets before after fresh c s)
        × IsWithin float payload budgets (after_fold budgets before after fresh c s)
  fold_rows-IsWithin budgets before after fresh c s limits h within =
      let row = capability_row float payload budgets in
      let s' = after_fold budgets before after fresh c s in
      let Kept = λ (x : ClaimStore V). IsConsistent x × IsWithin float payload budgets x in
      elim (fold_rows-cases fresh c s row before after) [
        | inl same ↦ subst Kept (sym same) (h, within)
        | inr (folded, accepted) ↦ subst Kept (sym folded) (elim (fold-log fresh c s) [
          | inl same ↦ subst Kept (sym same) (h, within)
          | inr (new, grown) ↦ (
            fold-IsConsistent fresh c s h,
            IsLedger-appended float payload budgets (stamp c s.seq) s (fold fresh c s).1 limits h
                (fold-IsConsistent fresh c s h) within grown new
                (λ t.
                  unfold check_spent in
                  check_spent_of_invariants float payload budgets c s accepted t),
          )
        ])
      ]

  -- A session folds any claims, one after the other, whatever each fold answers.
  abbrev pub session :
      Dict String F
      → List (Row V (Message F) RowError)
      → List (Row V (Message F) RowError)
      → List (String × Claim V)
      → ClaimStore V
      → ClaimStore V
  session budgets before after [] s = s
  session budgets before after ((fresh, c) ∷ claims) s =
      session budgets before after claims (after_fold budgets before after fresh c s)

  session-IsWithin :
      (budgets : Dict String F) (before after : List (Row V (Message F) RowError))
      (claims : List (String × Claim V)) (s : ClaimStore V)
      → AreLimits float payload budgets
      → IsConsistent s
      → IsWithin float payload budgets s
      → IsWithin float payload budgets (session budgets before after claims s)
  session-IsWithin budgets before after [] s limits h within = within
  session-IsWithin budgets before after ((fresh, c) ∷ claims) s limits h within =
      let (h', within') = fold_rows-IsWithin budgets before after fresh c s limits h within in
      session-IsWithin budgets before after claims (after_fold budgets before after fresh c s)
        limits h' within'

  pub new_store-IsWithin :
      (budgets : Dict String F) (id : String) (r : StrategyRegistry V) (ctx : BeliefContext)
      → AreLimits float payload budgets
      → IsWithin float payload budgets (new_store id r ctx)
  unfolding lipas.Rows.Capability.sum_bucket new_store
  new_store-IsWithin budgets id r ctx limits bucket limit l = (
    f0,
    empty,
    float.zero_finite,
    float.lt_irrefl f0 float.zero_finite,
    (limits bucket limit l).1,
  )
    where
      empty : spent float payload (new_store id r ctx) bucket ≡ ok f0
      empty =
          spent-eq-sum float payload (new_store id r ctx) bucket (new_store-IsConsistent id r ctx)

  -- With the budgets that the row's constructor accepts, no session from an empty store, through any
  -- composition of rows, ever brings a budgeted bucket's recorded spend above its limit.
  pub budget_never_exceeded :
      (raw : Dict String V) (budgets : Dict String F)
      (before after : List (Row V (Message F) RowError)) (claims : List (String × Claim V))
      (id : String) (r : StrategyRegistry V) (ctx : BeliefContext) (bucket : String) (limit : F)
      → normalize float payload raw [] ≡ ok budgets
      → get bucket budgets ≡ some limit
      → (t : F) × (spent float payload
            (session budgets before after claims (new_store id r ctx))
            bucket
          ≡ ok t)
        × (float.is_finite t ≡ true)
        × (float.lt limit t ≡ false)
  budget_never_exceeded raw budgets before after claims id r ctx bucket limit accepted l =
      let limits =
        normalize-AreLimits float payload raw [] budgets (no_limits float payload) accepted in
      let s = new_store id r ctx in
      let (t, sum, fin, _, under) =
        session-IsWithin budgets before after claims s limits (new_store-IsConsistent id r ctx)
          (new_store-IsWithin budgets id r ctx limits) bucket limit l in
      (t, sum, fin, under)
