-- ===== src/Store/Delivery.antt =====
-- lipas/store.py: a claim that is delivered again, and a fold whose strategy raises.
use lipas.Prelude.{
  ◌==◌, ℕ_eq, String_eq, Option_eq, beq_refl, Eq, Result, ok, err, ℤ_eq, length, all, if◌then◌else◌,
  nat_eq_iff, ℕ, String, ◌≡◌, refl, Bool, true, false, Option, none, some, [], ◌∷◌, ◌++◌, arith,
  ◌⊎◌, Option-cases, inl, inr, Result-cases,
}
use lipas.Dict.{get, IsDict, Dict, has, get-put}
use lipas.Store.{
  ClaimStore, fold, admit, append_claim, redeliver, stamp, same_claim_payload, claim_id_conflict,
  strategy_raised, merge_outcome,
}
use lipas.Calculus.Claim.{Claim, StrategyError, merge}

module _ {V : Type 0} ⦃e : Eq V⦄ where
  -- Each entry of `m` is found in `f`.
  abbrev found : Dict String (Option V) → Dict String (Option V) → Bool
  found f m = all (λ entry. get entry.0 f == some entry.1) m

  found-cons :
      (k : String) (v : Option V) (f m : Dict String (Option V))
      → has k m ≡ false
      → found ((k, v) ∷ f) m ≡ found f m
  unfolding get has
  found-cons k v f [] h = refl
  found-cons k v f ((j, w) ∷ m) h =
      ground (arith, found-cons k v f m, String_eq.eqb_iff k j, String_eq.eqb_iff j k)

  found_self : (f : Dict String (Option V)) → IsDict f → found f f ≡ true
  unfolding get
  found_self [] h = refl
  found_self ((k, v) ∷ f) h =
      ground (arith, found_self f, found-cons k v f f, beq_refl k, beq_refl v)

  same_claim_payload-stamp :
      (c : Claim V) (n : ℕ) → IsDict c.fields → same_claim_payload (stamp c n) c ≡ true
  unfolding same_claim_payload
  same_claim_payload-stamp c n d = ground (
    arith,
    found_self c.fields d,
    beq_refl c.tag,
    beq_refl c.kind,
    beq_refl c.priority,
    beq_refl c.source,
    nat_eq_iff (length c.fields) (length c.fields),
  )

  redeliver-if :
      (b : Bool) (c : Claim V) (s : ClaimStore V)
      → redeliver b c s ≡ (if b then (ok s.merged, s) else (err (claim_id_conflict c.claim_id), s))
  redeliver-if true c s = refl
  redeliver-if false c s = refl

  fold_ok :
      (fresh : String) (c : Claim V) (s : ClaimStore V) (m : Claim V)
      → get c.claim_id s.by_id ≡ none
      → (fold fresh c s).0 ≡ ok m
      → (merge fresh s.merged (stamp c s.seq) s.ctx s.registry ≡ ok m)
        × (fold fresh c s ≡ (ok m, record (append_claim c s) { merged = m }))
  unfolding fold admit
  fold_ok fresh c s m new returned =
      elim (Result-cases (merge fresh s.merged (stamp c s.seq) s.ctx s.registry)) [
        | inl (m', p) ↦
            let same : m' ≡ m = cc (rw (new, p, fold, admit) at returned) in
            (rw (← same) p, rw (new, fold) (rw (p, admit, same)))
        | inr (x, p) ↦ cc (rw (new, p, fold, admit) at returned)
      ]

  -- Once a claim has been folded without an error, delivering any claim with its id changes nothing:
  -- a claim with the payload that the store holds under that id gets the merged state, another one is
  -- reported as a conflict.
  pub fold-delivered :
      (fresh fresh' : String) (c d : Claim V) (s : ClaimStore V) (m : Claim V)
      → get c.claim_id s.by_id ≡ none
      → (fold fresh c s).0 ≡ ok m
      → d.claim_id ≡ c.claim_id
      → fold fresh' d (fold fresh c s).1 ≡ (
          if same_claim_payload (stamp c s.seq) d
          then (ok m, (fold fresh c s).1)
          else (err (claim_id_conflict d.claim_id), (fold fresh c s).1))
  unfolding fold admit append_claim
  fold-delivered fresh fresh' c d s m new returned same =
      let (_, p) = fold_ok fresh c s m new returned in
      let known : get d.claim_id (append_claim c s).by_id ≡ some (stamp c s.seq) =
        ground
          (arith, get-put c.claim_id d.claim_id (stamp c s.seq) s.by_id, beq_refl c.claim_id) in
      rw p (
        rw (known, fold)
          (redeliver-if (same_claim_payload (stamp c s.seq) d) d
            (record (append_claim c s) { merged = m })))

  -- If the merge of a new claim raises, the claim is in the log all the same, the merged state is the
  -- old one, and delivering the same claim again returns that old state with no error: the claim's
  -- fields never reach the projection.
  pub raising_fold_diverges :
      (fresh fresh' : String) (c : Claim V) (s : ClaimStore V) (x : StrategyError)
      → IsDict c.fields
      → get c.claim_id s.by_id ≡ none
      → merge fresh s.merged (stamp c s.seq) s.ctx s.registry ≡ err x
      → ((fold fresh c s).0 ≡ err (strategy_raised x))
        × ((fold fresh c s).1.log ≡ s.log ++ stamp c s.seq ∷ [])
        × ((fold fresh c s).1.merged ≡ s.merged)
        × (fold fresh' c (fold fresh c s).1 ≡ (ok s.merged, (fold fresh c s).1))
  unfolding fold admit append_claim
  raising_fold_diverges fresh fresh' c s x d new raises =
      let p : fold fresh c s ≡ (err (strategy_raised x), append_claim c s) =
        rw (new, fold) (rw (raises, admit)) in
      let known : get c.claim_id (append_claim c s).by_id ≡ some (stamp c s.seq) =
        ground
          (arith, get-put c.claim_id c.claim_id (stamp c s.seq) s.by_id, beq_refl c.claim_id) in
      rw p (refl, refl, refl, rw (known, fold) (rw (same_claim_payload-stamp c s.seq d, redeliver)))

  appended :
      (fresh : String) (c : Claim V) (s : ClaimStore V) (r : Result StrategyError (Claim V))
      → (merge_outcome (append_claim c s) r).1.log ≡ s.log ++ stamp c s.seq ∷ []
  unfolding append_claim
  appended fresh c s (ok m) = refl
  appended fresh c s (err x) = refl

  pub redeliver-store : (b : Bool) (c : Claim V) (s : ClaimStore V) → (redeliver b c s).1 ≡ s
  redeliver-store true c s = refl
  redeliver-store false c s = refl

  -- A fold leaves the store as it was, or puts a claim with a new id at the end of the log.
  pub fold-log :
      (fresh : String) (c : Claim V) (s : ClaimStore V)
      → ((fold fresh c s).1 ≡ s)
        ⊎ ((get c.claim_id s.by_id ≡ none) × ((fold fresh c s).1.log ≡ s.log ++ stamp c s.seq ∷ []))
  unfolding fold admit
  fold-log fresh c s = elim (Option-cases (get c.claim_id s.by_id)) [
    | inl new ↦ inr (
      new,
      rw (new, fold) (appended fresh c s (merge fresh s.merged (stamp c s.seq) s.ctx s.registry)),
    )
    | inr (existing, old) ↦
        inl (rw (old, fold) (redeliver-store (same_claim_payload existing c) c s))
  ]
