-- ===== src/Store/Replay.antt =====
-- lipas/store.py: what the log and the projection of a store hold after any sequence of folds.
use lipas.Prelude.{
  ℕ_eq, String_eq, Option_eq, List_eq, Pair_eq, Eq, Result, ok, err, ℤ_eq, ℤ, pos, negsuc, contains,
  if◌then◌else◌, Option-cases, ℕ, ◌+◌, String, ◌≡◌, refl, sym, ◌∙◌, inl, inr, Bool, true, false,
  not, ◌&&◌, none, some, List, [], ◌∷◌, ◌++◌, append-nil, append_assoc, arith,
}
use lipas.Dict.{get, has, has-false_of_get, has-put, has_of_get, put}
use lipas.Store.{
  ClaimStore, fold, admit, append_claim, stamp, strategy_raised, redeliver, merge_outcome,
  is_negative, same_claim_payload, FoldError, claim_id_conflict,
}
use lipas.Store.Delivery.{redeliver-store}
use lipas.Calculus.Context.{BeliefContext}
use lipas.Calculus.Claim.{Claim, StrategyRegistry, StrategyError, merge}

-- `m` is what the projection `b` becomes when the claims of a log are merged into it one by one.
pub data Replay {V : Type 0} (r : StrategyRegistry V) (ctx : BeliefContext) (b : Claim V)
    : List (Claim V) → Claim V → Type 0 where
  start : Replay r ctx b [] b
  next :
      {log : List (Claim V)} {m : Claim V} (fresh : String) (c m' : Claim V)
      → Replay r ctx b log m
      → merge fresh m c ctx r ≡ ok m'
      → Replay r ctx b (log ++ c ∷ []) m'

-- A sequence number that a claim has stays; a claim without one gets the next one.
abbrev pub assigned : ℤ → ℕ → ℤ
assigned (pos n) upcoming = pos n
assigned (negsuc n) upcoming = pos upcoming

stamped : (z : ℤ) (n : ℕ) → (if is_negative z then pos n else z) ≡ assigned z n
stamped (pos k) n = refl
stamped (negsuc k) n = refl

module _ {V : Type 0} ⦃e : Eq V⦄ where
  -- The store after a sequence of folds, each with the id that its merge draws.
  unfoldable pub folds : List (String × Claim V) → ClaimStore V → ClaimStore V
  folds [] s = s
  folds ((fresh, c) ∷ later) s = folds later (fold fresh c s).1

  abbrev pub is_raised : Result FoldError (Claim V) → Bool
  is_raised (ok m) = false
  is_raised (err (claim_id_conflict id)) = false
  is_raised (err (strategy_raised x)) = true

  -- No strategy raises in a sequence of folds.
  abbrev pub none_raises : List (String × Claim V) → ClaimStore V → Bool
  none_raises [] s = true
  none_raises ((fresh, c) ∷ later) s =
      not (is_raised (fold fresh c s).0) && none_raises later (fold fresh c s).1

  module _ (r : StrategyRegistry V) (ctx : BeliefContext) (b : Claim V) where
    abbrev pub IsReplay : ClaimStore V → Type 0
    IsReplay s = (s.registry ≡ r) × (s.ctx ≡ ctx) × Replay r ctx b s.log s.merged

    merged-IsReplay :
        (fresh : String) (c : Claim V) (s : ClaimStore V) (x : Result StrategyError (Claim V))
        → IsReplay s
        → merge fresh s.merged (stamp c s.seq) s.ctx s.registry ≡ x
        → is_raised (merge_outcome (append_claim c s) x).0 ≡ false
        → IsReplay (merge_outcome (append_claim c s) x).1
    unfolding append_claim
    merged-IsReplay fresh c s (ok m) (same_r, same_ctx, h) p calm =
        (same_r, same_ctx, next fresh (stamp c s.seq) m h (rw (← same_r, ← same_ctx) p))
    merged-IsReplay fresh c s (err x) h p calm = absurd (cc calm)

    redelivered-IsReplay :
        (same : Bool) (c : Claim V) (s : ClaimStore V)
        → IsReplay s
        → IsReplay (redeliver same c s).1
    redelivered-IsReplay true c s h = h
    redelivered-IsReplay false c s h = h

    fold-IsReplay :
        (fresh : String) (c : Claim V) (s : ClaimStore V)
        → IsReplay s
        → is_raised (fold fresh c s).0 ≡ false
        → IsReplay (fold fresh c s).1
    unfolding fold admit
    fold-IsReplay fresh c s h calm = elim (Option-cases (get c.claim_id s.by_id)) [
      | inl new ↦
          rw (new, fold)
            (merged-IsReplay fresh c s (merge fresh s.merged (stamp c s.seq) s.ctx s.registry) h
              refl (rw (new, fold) at calm))
      | inr (existing, old) ↦
          rw (old, fold) (redelivered-IsReplay (same_claim_payload existing c) c s h)
    ]

    -- Over any sequence of folds in which no strategy raises, redelivered and conflicting claims
    -- included: if the projection was what the claims of the log give when they are merged into `b` one
    -- by one, in the order of the log, then it still is, for the log that the folds leave.
    pub folds-IsReplay :
        (ds : List (String × Claim V)) (s : ClaimStore V)
        → IsReplay s
        → none_raises ds s ≡ true
        → IsReplay (folds ds s)
    unfolding folds
    folds-IsReplay [] s h calm = h
    folds-IsReplay ((fresh, c) ∷ ds) s h calm =
        folds-IsReplay ds (fold fresh c s).1 (fold-IsReplay fresh c s h (ground arith))
          (ground arith)

  -- The first delivery of each claim id that is not known, with its sequence number.
  abbrev pub accepted : List String → ℕ → List (String × Claim V) → List (Claim V)
  accepted known upcoming [] = []
  accepted known upcoming ((fresh, c) ∷ later) =
      let old = accepted known upcoming later in
      let new = accepted (c.claim_id ∷ known) (upcoming + 1) later in
      if contains known c.claim_id then old else record c { seq = assigned c.seq upcoming } ∷ new

  -- What a fold of a new claim leaves, whether its merge returns or raises.
  fold_admits :
      (fresh : String) (c : Claim V) (s : ClaimStore V)
      → get c.claim_id s.by_id ≡ none
      → ((fold fresh c s).1.log ≡ s.log ++ record c { seq = assigned c.seq s.seq } ∷ [])
        × ((fold fresh c s).1.by_id ≡ put c.claim_id (stamp c s.seq) s.by_id)
        × ((fold fresh c s).1.seq ≡ s.seq + 1)
  unfolding fold admit append_claim
  fold_admits fresh c s new =
      rw (new, fold, ← stamped c.seq s.seq)
        (elim (merge fresh s.merged (stamp c s.seq) s.ctx s.registry)
          as (λ x.
            ((merge_outcome (append_claim c s) x).1.log ≡ s.log ++ stamp c s.seq ∷ [])
            × ((merge_outcome (append_claim c s) x).1.by_id
                ≡ put c.claim_id (stamp c s.seq) s.by_id)
            × ((merge_outcome (append_claim c s) x).1.seq ≡ s.seq + 1)) [
              | ok m ↦ (refl, refl, refl)
              | err x ↦ (refl, refl, refl)
            ])

  fold_keeps :
      (fresh : String) (c existing : Claim V) (s : ClaimStore V)
      → get c.claim_id s.by_id ≡ some existing
      → (fold fresh c s).1 ≡ s
  unfolding fold
  fold_keeps fresh c existing s old =
      rw (old, fold) (redeliver-store (same_claim_payload existing c) c s)

  -- The log after any sequence of folds, raising ones included, is the log before with the first delivery
  -- of each claim id that it does not have, in order, each with the sequence number that it came with,
  -- or else the value that the store's counter, one up with each of them, has for it; `known` is any
  -- list with the ids that the store has.
  pub folds-log :
      (ds : List (String × Claim V)) (known : List String) (s : ClaimStore V)
      → ((id : String) → has id s.by_id ≡ contains known id)
      → (folds ds s).log ≡ s.log ++ accepted known s.seq ds
  unfolding folds
  folds-log [] known s ids = sym (append-nil s.log)
  folds-log ((fresh, c) ∷ ds) known s ids = elim (Option-cases (get c.claim_id s.by_id)) [
    | inl new ↦
        let (log, by_id, seq) = fold_admits fresh c s new in
        let missing : contains known c.claim_id ≡ false =
          sym (ids c.claim_id) ∙ has-false_of_get c.claim_id s.by_id new in
        let ids' : (id : String)
            → has id (fold fresh c s).1.by_id ≡ contains (c.claim_id ∷ known) id =
          λ id.
            rw (by_id) (ground (arith, has-put c.claim_id id (stamp c s.seq) s.by_id, ids id)) in
        rw (missing, folds)
          (folds-log ds (c.claim_id ∷ known) (fold fresh c s).1 ids'
            ∙ rw (log, seq)
                (append_assoc s.log (record c { seq = assigned c.seq s.seq } ∷ [])
                  (accepted (c.claim_id ∷ known) (s.seq + 1) ds)))
    | inr (existing, old) ↦
        let present : contains known c.claim_id ≡ true =
          sym (ids c.claim_id) ∙ has_of_get c.claim_id s.by_id existing old in
        rw (present, folds, fold_keeps fresh c existing s old) (folds-log ds known s ids)
  ]
