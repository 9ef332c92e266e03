-- ===== src/Rows/Base/Gate.antt =====
-- A row set of lipas/rows/base.py commits a claim only if each row that owns its tag accepts it.
use lipas.Prelude.{
  ℕ_eq, String_eq, Option_eq, Eq, >>=-eq-ok, Result, ok, err, ℤ_eq, filter-append, String, ◌≡◌,
  refl, ◌∙◌, ◌⊎◌, inl, inr, true, List, [], ◌∷◌, ◌++◌, subst,
}
use lipas.Rows.Base.{
  Row, RowSet, violations, owners, fold_rows, commit, named, FoldError, fold_result,
}
use lipas.Calculus.Claim.{Claim}
use lipas.Store.{ClaimStore, fold}

nil_of_append : {A : Type 0} (xs ys : List A) → xs ++ ys ≡ [] → (xs ≡ []) × (ys ≡ [])
nil_of_append [] ys h = (refl, h)
nil_of_append (x ∷ xs) ys h = cc

nil_of_named : {M : Type 0} (name : String) (ms : List M) → named name ms ≡ [] → ms ≡ []
nil_of_named name [] h = refl
nil_of_named name (m ∷ ms) h = cc

module _ {V M X : Type 0} where
  accepted_of_violations :
      (c : Claim V) (s : ClaimStore V) (r : Row V M X) (before after : List (Row V M X))
      → violations c s (before ++ r ∷ after) ≡ ok []
      → r.check_invariants c s ≡ ok []
  unfolding violations
  accepted_of_violations c s r [] after h =
      let (ms, p, h') = >>=-eq-ok (r.check_invariants c s) _ h in
      let (rest, q, h'') = >>=-eq-ok (violations c s after) _ h' in
      let empty : named r.name ms ++ rest ≡ [] = cc in
      let none_left = nil_of_named r.name ms (nil_of_append (named r.name ms) rest empty).0 in
      rw (← none_left) p
  accepted_of_violations c s r (b ∷ before) after h =
      let (ms, p, h') = >>=-eq-ok (b.check_invariants c s) _ h in
      let (rest, q, h'') = >>=-eq-ok (violations c s (before ++ r ∷ after)) _ h' in
      let empty : named b.name ms ++ rest ≡ [] = cc in
      let none_left = (nil_of_append (named b.name ms) rest empty).1 in
      accepted_of_violations c s r before after (rw none_left at q)

  owners-middle :
      (tag : String) (r : Row V M X) (before after : List (Row V M X))
      → r.in_namespace tag ≡ true
      → owners tag (before ++ r ∷ after) ≡ owners tag before ++ r ∷ owners tag after
  unfolding owners
  owners-middle tag r before after h =
      filter-append (λ (x : Row V M X). x.in_namespace tag) before (r ∷ after) ∙ rw h

module _ {V M X : Type 0} ⦃e : Eq V⦄ where
  folded-store :
      (rs : RowSet V M X) (r : Result FoldError (Claim V) × ClaimStore V)
      → (fold_result rs r).1.store ≡ r.1
  folded-store rs (ok m, s) = refl
  folded-store rs (err x, s) = refl

  commit-cases :
      (fresh : String) (c : Claim V) (rs : RowSet V M X) (found : Result X (List (String × M)))
      → ((commit fresh c rs found).1.store ≡ rs.store)
        ⊎ (((commit fresh c rs found).1.store ≡ (fold fresh c rs.store).1) × (found ≡ ok []))
  unfolding commit
  commit-cases fresh c rs (err x) = inl refl
  commit-cases fresh c rs (ok []) = inr (folded-store rs (fold fresh c rs.store), refl)
  commit-cases fresh c rs (ok (v ∷ vs)) = inl refl

  abbrev pub composed :
      ClaimStore V → List (Row V M X) → Row V M X → List (Row V M X) → RowSet V M X
  composed s before r after = record { store = s; rows = before ++ r ∷ after }

  pub fold_rows-cases :
      (fresh : String) (c : Claim V) (s : ClaimStore V) (r : Row V M X)
      (before after : List (Row V M X))
      → ((fold_rows fresh c (composed s before r after)).1.store ≡ s)
        ⊎ (((fold_rows fresh c (composed s before r after)).1.store ≡ (fold fresh c s).1)
            × (r.in_namespace c.tag ≡ true → r.check_invariants c s ≡ ok []))
  unfolding fold_rows
  fold_rows-cases fresh c s r before after =
      let rs = composed s before r after in
      elim (commit-cases fresh c rs (violations c s (owners c.tag rs.rows))) [
        | inl same ↦ inl same
        | inr (folded, accepted) ↦ inr (
          folded,
          λ owned. accepted_of_violations c s r (owners c.tag before) (owners c.tag after) (
              subst (λ (rows : List (Row V M X)). violations c s rows ≡ ok [])
                (owners-middle c.tag r before after owned) accepted),
        )
      ]

  -- However rows are composed, a `fold` whose claim has a tag that a row owns either leaves the store as
  -- it was, or the row accepted the claim with no message and the store is that of `ClaimStore.fold`.
  pub fold_rows-gate :
      (fresh : String) (c : Claim V) (s : ClaimStore V) (r : Row V M X)
      (before after : List (Row V M X))
      → r.in_namespace c.tag ≡ true
      → ((fold_rows fresh c (composed s before r after)).1.store ≡ s)
        ⊎ (((fold_rows fresh c (composed s before r after)).1.store ≡ (fold fresh c s).1)
            × (r.check_invariants c s ≡ ok []))
  fold_rows-gate fresh c s r before after owned = elim (fold_rows-cases fresh c s r before after) [
    | inl same ↦ inl same
    | inr (folded, accepted) ↦ inr (folded, accepted owned)
  ]
