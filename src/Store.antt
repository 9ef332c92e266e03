-- ===== src/Store.antt =====
-- lipas/store.py: the append-only claim store with its incremental projection and its two indexes.
-- Claims are values here, so the copies that `deepcopy` makes are the claims themselves.
pub mod Invariant
pub mod Index
pub mod Delivery
pub mod Replay
mod Examples
use lipas.Prelude.{
  ◌==◌, ℕ_eq, String_eq, Option_eq, Eq, Result, ok, err, ℤ_eq, ℤ, pos, negsuc, length, get_elem?,
  filter, all, nat_eq, if◌then◌else◌, ℕ, ◌+◌, String, Bool, true, false, ◌&&◌, Option, none, some,
  List, [], ◌∷◌, ◌++◌,
}
use lipas.Dict.{Dict, get, put}
use lipas.Calculus.Context.{BeliefContext}
use lipas.Calculus.Claim.{Claim, StrategyRegistry, StrategyError, bottom, merge}

pub data FoldError : Type 0 where
  claim_id_conflict : String → FoldError
  strategy_raised : StrategyError → FoldError

pub record ClaimStore (V : Type 0) : Type 0 where
  pub registry : StrategyRegistry V
  pub ctx : BeliefContext
  pub merged : Claim V
  pub log : List (Claim V)
  pub seq : ℕ
  pub by_tag : Dict String (List ℕ)
  pub by_id : Dict String (Claim V)

abbrev pub is_negative : ℤ → Bool
is_negative (pos n) = false
is_negative (negsuc n) = true

abbrev pub indexes : Option (List ℕ) → List ℕ
indexes none = []
indexes (some ids) = ids

-- A filter's argument, where `None` asks for nothing.
abbrev pub wants : {A : Type 0} ⦃a : Eq A⦄ → Option A → A → Bool
wants none x = true
wants (some w) x = x == w

abbrev pub wanted_kind : Option String → Option (Option String)
wanted_kind none = none
wanted_kind (some k) = some (some k)

module _ {V : Type 0} where
  -- `ClaimStore(registry, ctx)`, where `id` is the id of the ⊥ claim.
  unfoldable pub new_store : String → StrategyRegistry V → BeliefContext → ClaimStore V
  unfolding bottom
  new_store id registry ctx = record {
    registry = registry;
    ctx = ctx;
    merged = bottom id;
    log = [];
    seq = 0;
    by_tag = [];
    by_id = [];
  }

  -- The claim as it enters the log: an unassigned sequence number becomes the store's next one.
  abbrev pub stamp : Claim V → ℕ → Claim V
  stamp claim next = record claim { seq = if is_negative claim.seq then pos next else claim.seq }

  -- The writes of `fold` before it merges.
  unfoldable pub append_claim : Claim V → ClaimStore V → ClaimStore V
  unfolding get put
  append_claim claim s =
      let stamped = stamp claim s.seq in
      record s {
        log = s.log ++ stamped ∷ [];
        by_tag = put claim.tag (indexes (get claim.tag s.by_tag) ++ length s.log ∷ []) s.by_tag;
        by_id = put claim.claim_id stamped s.by_id;
        seq = s.seq + 1;
      }

  -- The end of `fold`, given what the merge returned or raised.
  abbrev pub merge_outcome :
      ClaimStore V → Result StrategyError (Claim V) → Result FoldError (Claim V) × ClaimStore V
  merge_outcome s (ok m) = (ok m, record s { merged = m })
  merge_outcome s (err x) = (err (strategy_raised x), s)

  -- A new claim is in the log and the indexes when its merge runs, whether the merge raises or not.
  unfoldable pub admit : String → Claim V → ClaimStore V → Result FoldError (Claim V) × ClaimStore V
  unfolding append_claim
  admit fresh claim s =
      merge_outcome (append_claim claim s)
        (merge fresh s.merged (stamp claim s.seq) s.ctx s.registry)

  -- `[self._log[i] for i in ids]`; `none` is an IndexError.
  unfoldable pub pick : List (Claim V) → List ℕ → Option (List (Claim V))
  pick log [] = some []
  pick log (i ∷ ids) =
      let rest = pick log ids in
      elim (get_elem? log i) [
        | none ↦ none
        | some c ↦ elim rest [ none ↦ none | some cs ↦ some (c ∷ cs) ]
      ]

  abbrev pub selected : Option String → Option String → Option String → Claim V → Bool
  selected tag kind source c =
      wants tag c.tag && wants (wanted_kind kind) c.kind && wants source c.source

  -- `ClaimStore.filter`; a filter by tag alone reads the tag index.
  unfoldable pub filter_claims :
      Option String → Option String → Option String → ClaimStore V → Option (List (Claim V))
  unfolding pick get
  filter_claims (some t) none none s = pick s.log (indexes (get t s.by_tag))
  filter_claims tag kind source s = some (filter (selected tag kind source) s.log)

module _ {V : Type 0} ⦃e : Eq V⦄ where
  -- `==` on two dicts: as many keys, and each key of the first has the same value in the second.
  unfoldable pub same_fields : Dict String (Option V) → Dict String (Option V) → Bool
  unfolding get
  same_fields f g = nat_eq (length f) (length g) && all (λ entry. get entry.0 g == some entry.1) f

  unfoldable pub same_claim_payload : Claim V → Claim V → Bool
  unfolding same_fields
  same_claim_payload left right =
      left.tag == right.tag
      && same_fields left.fields right.fields
      && left.kind == right.kind
      && left.priority == right.priority
      && left.source == right.source

  -- A claim id that is known: the same payload is a no-op, another one a conflict.
  abbrev pub redeliver : Bool → Claim V → ClaimStore V → Result FoldError (Claim V) × ClaimStore V
  redeliver true claim s = (ok s.merged, s)
  redeliver false claim s = (err (claim_id_conflict claim.claim_id), s)

  -- `ClaimStore.fold`; what it returns is the merged state.
  unfoldable pub fold : String → Claim V → ClaimStore V → Result FoldError (Claim V) × ClaimStore V
  unfolding admit same_claim_payload
  fold fresh claim s = elim (get claim.claim_id s.by_id) [
    | some existing ↦ redeliver (same_claim_payload existing claim) claim s
    | none ↦ admit fresh claim s
  ]
