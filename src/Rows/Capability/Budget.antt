-- ===== src/Rows/Capability/Budget.antt =====
-- The hard budget of lipas/rows/capability.py: what the gate of `RowSet.fold` keeps.
use lipas.Store.Index.{filter_claims-eq-walk}
use lipas.Store.Invariant.{IsConsistent, entries}
use lipas.Store.{selected}
use lipas.Prelude.{
  ◌==◌, ℕ_eq, String_eq, Option_eq, ◌>>=◌, Result, ok, err, ℤ_eq, contains, if◌then◌else◌,
  Bool-cases, String, ◌≡◌, refl, inl, inr, false, not, ◌&&◌, some, List, [], ◌∷◌, ◌++◌, or_left,
  or_right, Result-cases, true, filter, arith, none, Bool, eq_of_beq, Option-cases, ap, ◌∙◌,
  filter-append, append-nil,
}
use lipas.Dict.{Dict, get, has}
use lipas.Rows.Float.{Float}
use lipas.Rows.Capability.{
  Payload, RowError, bucket_of, add_amount, sum_bucket, ClaimStore, spent, has, delivered,
  amount_of, Dict, float_amount, get, tagged_claims, tag_resource_spent, check_spent, gate,
  valid_amount, gate_after, finite_sum,
}
use lipas.Calculus.Claim.{Claim}

module _ (float : Float) {V : Type 0} (payload : Payload V float.F) where
  open float use {F, zero as f0, add, lt, is_finite}

  bind_ok : (r : Result RowError F) → (r >>= λ t. ok t) ≡ r
  bind_ok (ok t) = refl
  bind_ok (err x) = refl

  abbrev pub ids : List (Claim V) → List String
  ids [] = []
  ids (c ∷ cs) = c.claim_id ∷ ids cs

  abbrev pub add_claim : String → F → Claim V → Result RowError F
  add_claim bucket total c =
      if bucket_of float payload c == some bucket
      then add_amount float payload total c
      else ok total

  -- A claim with a new id at the end of the tape is added last.
  pub sum_bucket-snoc :
      (bucket : String) (seen : List String) (total : F) (cs : List (Claim V)) (c : Claim V)
      → contains seen c.claim_id ≡ false
      → contains (ids cs) c.claim_id ≡ false
      → sum_bucket float payload bucket seen total (cs ++ c ∷ [])
        ≡ (sum_bucket float payload bucket seen total cs >>= λ t. add_claim bucket t c)
  unfolding sum_bucket
  sum_bucket-snoc bucket seen total [] c n1 n2 =
      elim (Bool-cases (bucket_of float payload c == some bucket)) [
        | inl p ↦ rw (p, n1) (bind_ok (add_amount float payload total c))
        | inr q ↦ rw q
      ]
  sum_bucket-snoc bucket seen total (d ∷ cs) c n1 n2 =
      let other = or_left (d.claim_id == c.claim_id) (contains (ids cs) c.claim_id) n2 in
      let rest = or_right (d.claim_id == c.claim_id) (contains (ids cs) c.claim_id) n2 in
      elim (Bool-cases
        (bucket_of float payload d == some bucket && not (contains seen d.claim_id))) [
          | inl p ↦ elim (Result-cases (add_amount float payload total d)) [
            | inl (t, step) ↦
                rw (p, step, sum_bucket)
                  (sum_bucket-snoc bucket (d.claim_id ∷ seen) t cs c (rw other n1) rest)
            | inr (x, step) ↦ rw (p, step, sum_bucket)
          ]
          | inr q ↦ rw (q, sum_bucket) (sum_bucket-snoc bucket seen total cs c n1 rest)
        ]

  -- The claims of the tag that the row sums.
  abbrev pub spends : ClaimStore V → List (Claim V)
  spends s = filter (selected (some tag_resource_spent) none none) s.log

  pub tagged-eq-spends :
      (s : ClaimStore V)
      → IsConsistent s
      → tagged_claims float payload tag_resource_spent s ≡ ok (spends s)
  tagged-eq-spends s h =
      rw (filter_claims-eq-walk (some tag_resource_spent) none none s h, tagged_claims)

  pub spent-eq-sum :
      (s : ClaimStore V) (bucket : String)
      → IsConsistent s
      → spent float payload s bucket ≡ sum_bucket float payload bucket [] f0 (spends s)
  unfolding spent
  spent-eq-sum s bucket h = rw (tagged-eq-spends s h, spent)

  pub contains-ids-filter :
      (p : Claim V → Bool) (log : List (Claim V)) (id : String)
      → has id (entries log) ≡ false
      → contains (ids (filter p log)) id ≡ false
  unfolding has
  contains-ids-filter p [] id h = refl
  contains-ids-filter p (c ∷ log) id h = ground (arith, contains-ids-filter p log id)

  delivered-eq-contains :
      (id : String) (cs : List (Claim V)) → delivered float payload id cs ≡ contains (ids cs) id
  unfolding delivered
  delivered-eq-contains id [] = refl
  delivered-eq-contains id (c ∷ cs) = rw (delivered-eq-contains id cs)

  float_amount_of_amount :
      (c : Claim V) (x : F)
      → amount_of float payload c ≡ some x
      → (float_amount float payload c ≡ ok x) × (is_finite x ≡ true)
  unfolding amount_of float_amount
  float_amount_of_amount c x h = ground (arith, float.zero_finite)

  -- What the row's limits satisfy once `__post_init__` has accepted them.
  abbrev pub AreLimits : Dict String F → Type 0
  AreLimits budgets =
      (bucket : String) (limit : F)
      → get bucket budgets ≡ some limit
      → (is_finite limit ≡ true) × (lt limit f0 ≡ false)

  -- A bucket's ledger: the sum is defined, finite, not negative, and not above the limit.
  abbrev pub IsLedger : Result RowError F → F → Type 0
  IsLedger total limit =
      (t : F) × (total ≡ ok t) × (is_finite t ≡ true) × (lt t f0 ≡ false) × (lt limit t ≡ false)

  abbrev pub IsWithin : Dict String F → ClaimStore V → Type 0
  IsWithin budgets s =
      (bucket : String) (limit : F)
      → get bucket budgets ≡ some limit
      → IsLedger (spent float payload s bucket) limit

  gate-under :
      (c : Claim V) (s : ClaimStore V) (bucket : String) (a limit t : F)
      → tagged_claims float payload tag_resource_spent s ≡ ok (spends s)
      → contains (ids (spends s)) c.claim_id ≡ false
      → spent float payload s bucket ≡ ok t
      → gate float payload c s bucket a limit ≡ ok []
      → lt limit (add t a) ≡ false
  unfolding gate gate_after
  gate-under c s bucket a limit t tagged new sum passed =
      let passed' = rw (tagged, delivered-eq-contains c.claim_id (spends s), new, sum) at passed in
      ground arith

  accepted_amount :
      (c : Claim V) (s : ClaimStore V) (bucket : String) (limit : F) (budgets : Dict String F)
      → bucket_of float payload c ≡ some bucket
      → get bucket budgets ≡ some limit
      → check_spent float payload budgets c s ≡ ok []
      → (a : F) × (amount_of float payload c ≡ some a)
        × (lt a f0 ≡ false)
        × (gate float payload c s bucket a limit ≡ ok [])
  unfolding check_spent valid_amount
  accepted_amount c s bucket limit budgets b l h = elim (Option-cases (amount_of float payload c)) [
    | inl missing ↦ absurd (ground arith)
    | inr (a, p) ↦ (a, p, ground arith, ground arith)
  ]

  -- A sum that is not above a limit has not overflowed.
  add_finite :
      (t a limit : F)
      → is_finite t ≡ true
      → is_finite a ≡ true
      → lt t f0 ≡ false
      → lt a f0 ≡ false
      → is_finite limit ≡ true
      → lt limit (add t a) ≡ false
      → is_finite (add t a) ≡ true
  add_finite t a limit ft fa pt pa fl under = elim (Bool-cases (is_finite (add t a))) [
    | inl p ↦ p
    | inr q ↦ cc (float.overflow_above t a limit ft fa pt pa fl q)
  ]

  add_amount_ok :
      (t a : F) (c : Claim V)
      → float_amount float payload c ≡ ok a
      → is_finite (add t a) ≡ true
      → add_amount float payload t c ≡ ok (add t a)
  unfolding add_amount finite_sum
  add_amount_ok t a c p q = rw (p, q)

  -- The claim that the gate lets through adds its amount, and stays under the limit.
  pub add_claim-IsLedger :
      (bucket : String) (limit t : F) (c : Claim V) (s : ClaimStore V) (budgets : Dict String F)
      → AreLimits budgets
      → get bucket budgets ≡ some limit
      → is_finite t ≡ true
      → lt t f0 ≡ false
      → lt limit t ≡ false
      → spent float payload s bucket ≡ ok t
      → tagged_claims float payload tag_resource_spent s ≡ ok (spends s)
      → contains (ids (spends s)) c.claim_id ≡ false
      → check_spent float payload budgets c s ≡ ok []
      → IsLedger (add_claim bucket t c) limit
  add_claim-IsLedger bucket limit t c s budgets limits l fin pos' under sum tagged new accepted =
      elim (Bool-cases (bucket_of float payload c == some bucket)) [
        | inl p ↦
            let b = eq_of_beq (bucket_of float payload c) (some bucket) p in
            let (a, p', low, passed) = accepted_amount c s bucket limit budgets b l accepted in
            let (converted, fin') = float_amount_of_amount c a p' in
            let under' = gate-under c s bucket a limit t tagged new sum passed in
            let sum_finite =
              add_finite t a limit fin fin' pos' low (limits bucket limit l).0 under' in
            rw p (
              add t a,
              add_amount_ok t a c converted sum_finite,
              sum_finite,
              float.add_nonneg t a fin fin' pos' low,
              under',
            )
        | inr q ↦ rw q (t, refl, fin, pos', under)
      ]

  -- The tape that the row sums, after one more claim.
  pub spends-append :
      (s s' : ClaimStore V) (c : Claim V)
      → s'.log ≡ s.log ++ c ∷ []
      → spends s' ≡ (if c.tag == tag_resource_spent then spends s ++ c ∷ [] else spends s)
  spends-append s s' c grown =
      ap (filter (selected (some tag_resource_spent) none none)) grown
      ∙ filter-append (selected (some tag_resource_spent) none none) s.log (c ∷ [])
      ∙ ground (arith, append-nil (spends s))
