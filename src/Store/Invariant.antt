-- ===== src/Store/Invariant.antt =====
-- What holds of a claim store of lipas/store.py between two calls.
use lipas.Prelude.{
  ◌==◌, ℕ_eq, String_eq, Option_eq, Eq, ok, err, ℤ_eq, length, length-append, if◌then◌else◌,
  Option-cases, ℕ, suc, ◌+◌, String, ◌≡◌, refl, ◌∙◌, inl, inr, true, false, none, List, [], ◌∷◌,
  ◌++◌, arith, append-nil,
}
use lipas.Dict.{Dict, get, IsDict, get-put, put-new, has-false_of_get, append-IsDict}
use lipas.Store.{
  ClaimStore, new_store, indexes, stamp, append_claim, admit, fold, BeliefContext, merge_outcome,
  same_claim_payload, redeliver,
}
use lipas.Calculus.Claim.{Claim, StrategyRegistry, merge}

module _ {V : Type 0} where
  -- `{c.claim_id: c for c in log}`
  abbrev pub entries : List (Claim V) → Dict String (Claim V)
  entries [] = []
  entries (c ∷ log) = (c.claim_id, c) ∷ entries log

  -- The places of the claims with a tag, counted from `i`.
  abbrev pub positions : String → List (Claim V) → ℕ → List ℕ
  positions t [] i = []
  positions t (c ∷ log) i =
      let rest = positions t log (i + 1) in if c.tag == t then i ∷ rest else rest

  pub record IsConsistent (s : ClaimStore V) : Type 0 where
    pub seq_counts : s.seq ≡ length s.log
    pub tags_indexed : (t : String) → indexes (get t s.by_tag) ≡ positions t s.log 0
    pub ids_indexed : s.by_id ≡ entries s.log
    pub ids_distinct : IsDict (entries s.log)

  entries-append :
      (log : List (Claim V)) (c : Claim V)
      → entries (log ++ c ∷ []) ≡ entries log ++ (c.claim_id, c) ∷ []
  entries-append [] c = refl
  entries-append (x ∷ log) c = rw (entries-append log c)

  positions-append :
      (t : String) (log : List (Claim V)) (c : Claim V) (i : ℕ)
      → positions t (log ++ c ∷ []) i
        ≡ positions t log i ++ (if c.tag == t then (i + length log) ∷ [] else [])
  positions-append t [] c i = ground arith
  positions-append t (x ∷ log) c i =
      let shift : i + 1 + length log ≡ i + suc (length log) = omega arith in
      ground (arith, positions-append t log c (i + 1), shift)

  -- A new store is consistent.
  pub new_store-IsConsistent :
      (id : String) (r : StrategyRegistry V) (ctx : BeliefContext)
      → IsConsistent (new_store id r ctx)
  unfolding new_store get
  new_store-IsConsistent id r ctx = record {
    seq_counts = refl;
    tags_indexed = λ t. refl;
    ids_indexed = refl;
    ids_distinct = tt;
  }

  append_claim-IsConsistent :
      (c : Claim V) (s : ClaimStore V)
      → IsConsistent s
      → get c.claim_id s.by_id ≡ none
      → IsConsistent (append_claim c s)
  unfolding append_claim
  append_claim-IsConsistent c s h new = record {
    seq_counts = omega (arith, h.seq_counts, length-append {0} s.log (stamp c s.seq ∷ []));
    tags_indexed = λ t. ground (
      arith,
      get-put c.tag t (indexes (get c.tag s.by_tag) ++ length s.log ∷ []) s.by_tag,
      positions-append t s.log (stamp c s.seq) 0,
      h.tags_indexed t,
      h.tags_indexed c.tag,
      String_eq.eqb_iff c.tag t,
      append-nil (positions t s.log 0),
    );
    ids_indexed =
        put-new c.claim_id (stamp c s.seq) s.by_id (has-false_of_get c.claim_id s.by_id new)
        ∙ cc (h.ids_indexed, entries-append s.log (stamp c s.seq));
    ids_distinct = rw (entries-append s.log (stamp c s.seq)) (
        append-IsDict c.claim_id (stamp c s.seq) (entries s.log) h.ids_distinct
          (has-false_of_get c.claim_id (entries s.log) (rw (← h.ids_indexed) new)));
  }

  set_merged-IsConsistent :
      (m : Claim V) (s : ClaimStore V) → IsConsistent s → IsConsistent (record s { merged = m })
  set_merged-IsConsistent m s h = record {
    seq_counts = h.seq_counts;
    tags_indexed = h.tags_indexed;
    ids_indexed = h.ids_indexed;
    ids_distinct = h.ids_distinct;
  }

  admit-IsConsistent :
      (fresh : String) (c : Claim V) (s : ClaimStore V)
      → IsConsistent s
      → get c.claim_id s.by_id ≡ none
      → IsConsistent (admit fresh c s).1
  unfolding admit
  admit-IsConsistent fresh c s h new =
      elim (merge fresh s.merged (stamp c s.seq) s.ctx s.registry)
        as (λ r. IsConsistent (merge_outcome (append_claim c s) r).1) [
          | ok m ↦
              set_merged-IsConsistent m (append_claim c s) (append_claim-IsConsistent c s h new)
          | err x ↦ append_claim-IsConsistent c s h new
        ]

module _ {V : Type 0} ⦃e : Eq V⦄ where
  -- Every `fold` keeps the store consistent, whether it returns, finds a conflicting id, or a strategy
  -- raises: the sequence number counts the log, the tag index has the places of each tag in order, the
  -- id index has the logged claims, and no two of them share an id.
  pub fold-IsConsistent :
      (fresh : String) (c : Claim V) (s : ClaimStore V)
      → IsConsistent s
      → IsConsistent (fold fresh c s).1
  unfolding fold
  fold-IsConsistent fresh c s h = elim (Option-cases (get c.claim_id s.by_id)) [
    | inl new ↦ rw (new, fold) (admit-IsConsistent fresh c s h new)
    | inr (existing, old) ↦
        rw (old, fold)
          (elim (same_claim_payload existing c) as (λ b. IsConsistent (redeliver b c s).1) [
            | true ↦ h
            | false ↦ h
          ])
  ]
