-- ===== src/Store/Examples.antt =====
-- The theorems on lipas/store.py at a concrete session, and tests.
use lipas.Prelude.{
  ℕ_eq, String_eq, Option_eq, ok, err, ℤ_eq, pos, filter, if◌then◌else◌, String, ◌≡◌, refl, none,
  some, [], ◌∷◌, ◌++◌, List, true, contains,
}
use lipas.Dict.{get, put, keys, has}
use lipas.Calculus.Claim.{
  Claim, StrategyRegistry, raised, merge, unassigned, merge_keys, merge_field, all_keys, value,
  strategy_for,
}
use lipas.Store.{
  ClaimStore, new_store, fold, stamp, selected, filter_claims, same_claim_payload,
  claim_id_conflict, strategy_raised,
}
use lipas.Store.Invariant.{IsConsistent, new_store-IsConsistent, fold-IsConsistent}
use lipas.Store.Index.{filter_claims-eq-walk}
use lipas.Store.Replay.{folds, folds-log, folds-IsReplay, none_raises, IsReplay, start}
use lipas.Store.Delivery.{fold-delivered, raising_fold_diverges}

-- Fields are texts. The field `strict` refuses to be merged; any other takes the newer value.
abbrev strict_registry : StrategyRegistry String
strict_registry = record {
  table = ("strict", λ a b ctx. err (raised "TypeError")) ∷ [];
  default = λ a b ctx. ok b;
}

abbrev empty_store : ClaimStore String
empty_store = new_store "b" strict_registry (record { fail_counts = []; caution_threshold = 3 })

abbrev note : String → String → String → Claim String
note id field text = record {
  tag = "observation";
  fields = (field, some text) ∷ [];
  kind = none;
  priority = pos 0;
  source = "";
  claim_id = id;
  seq = unassigned;
}

abbrev one_note : ClaimStore String
one_note = (fold "m" (note "a" "strict" "x") empty_store).1

one_note-IsConsistent : IsConsistent one_note
one_note-IsConsistent =
    fold-IsConsistent "m" (note "a" "strict" "x") empty_store (new_store-IsConsistent _ _ _)

fold-IsConsistent_example : IsConsistent (fold "m" (note "b" "strict" "y") one_note).1
fold-IsConsistent_example =
    fold-IsConsistent "m" (note "b" "strict" "y") one_note one_note-IsConsistent

filter_claims-eq-walk_example :
    filter_claims (some "observation") none none one_note
    ≡ some (filter (selected (some "observation") none none) one_note.log)
filter_claims-eq-walk_example =
    filter_claims-eq-walk (some "observation") none none one_note one_note-IsConsistent

filter_test :
    filter_claims (some "observation") none none one_note
    ≡ some (stamp (note "a" "strict" "x") 0 ∷ [])
unfolding filter_claims fold new_store merge get put
filter_test = refl

fold-delivered_example :
    fold "n" (note "a" "free" "z") (fold "m" (note "a" "strict" "x") empty_store).1 ≡ (
      if same_claim_payload (stamp (note "a" "strict" "x") 0) (note "a" "free" "z")
      then (ok (stamp (note "a" "strict" "x") 0), (fold "m" (note "a" "strict" "x") empty_store).1)
      else (err (claim_id_conflict "a"), (fold "m" (note "a" "strict" "x") empty_store).1))
unfolding fold new_store merge get put
fold-delivered_example =
    fold-delivered "m" "n" (note "a" "strict" "x") (note "a" "free" "z") empty_store
      (stamp (note "a" "strict" "x") 0) refl refl refl

-- A claim, its redelivery, another claim with its id, and a claim that has a sequence number.
abbrev deliveries : List (String × Claim String)
deliveries =
    ("m", note "a" "free" "x")
    ∷ ("n", note "a" "free" "x")
    ∷ ("o", note "a" "free" "z")
    ∷ ("p", record (note "b" "free" "y") { seq = pos 7 })
    ∷ []

empty-IsReplay : IsReplay strict_registry empty_store.ctx empty_store.merged empty_store
unfolding new_store
empty-IsReplay = (refl, refl, start)

calm_deliveries : none_raises deliveries empty_store ≡ true
unfolding fold new_store merge get put merge_keys merge_field all_keys keys has value strategy_for
calm_deliveries = refl

folds-IsReplay_example :
    IsReplay strict_registry empty_store.ctx empty_store.merged (folds deliveries empty_store)
folds-IsReplay_example =
    folds-IsReplay strict_registry empty_store.ctx empty_store.merged deliveries empty_store
      empty-IsReplay calm_deliveries

no_ids : (id : String) → has id empty_store.by_id ≡ contains [] id
unfolding new_store has
no_ids id = refl

folds-log_example :
    (folds deliveries empty_store).log
    ≡ record (note "a" "free" "x") { seq = pos 0 }
      ∷ record (note "b" "free" "y") { seq = pos 7 }
      ∷ []
unfolding new_store
folds-log_example = folds-log deliveries [] empty_store no_ids

raising_fold_diverges_example :
    ((fold "n" (note "b" "strict" "y") one_note).0 ≡ err (strategy_raised (raised "TypeError")))
    × ((fold "n" (note "b" "strict" "y") one_note).1.log
        ≡ one_note.log ++ stamp (note "b" "strict" "y") 1 ∷ [])
    × ((fold "n" (note "b" "strict" "y") one_note).1.merged ≡ one_note.merged)
    × (fold "k" (note "b" "strict" "y") (fold "n" (note "b" "strict" "y") one_note).1
        ≡ (ok one_note.merged, (fold "n" (note "b" "strict" "y") one_note).1))
unfolding fold new_store merge get put merge_keys merge_field all_keys keys has value strategy_for
raising_fold_diverges_example =
    raising_fold_diverges "n" "k" (note "b" "strict" "y") one_note (raised "TypeError") (refl, tt)
      refl refl
