-- ===== src/Rows/Base.antt =====
-- lipas/rows/base.py: `Row` and `RowSet`.
pub mod Gate
use lipas.Prelude.{
  ◌==◌, ℕ_eq, String_eq, Option_eq, Eq, ◌>>=◌, Result, ok, err, ℤ_eq, filter, if◌then◌else◌, String,
  Bool, Option, none, some, List, [], ◌∷◌, ◌++◌,
}
use lipas.Calculus.Claim.{Claim}
use lipas.Store.{ClaimStore, FoldError, fold}

-- A row, by the members of the protocol that `RowSet.fold` calls. `M` is the type of its messages;
-- `check_invariants` may raise, which is an `X`.
pub record Row (V M X : Type 0) : Type 0 where
  pub name : String
  pub in_namespace : String → Bool
  pub check_invariants : Claim V → ClaimStore V → Result X (List M)

pub data RowSetError (M X : Type 0) : Type 0 where
  invariant_violation : List (String × M) → RowSetError M X
  check_raised : X → RowSetError M X
  fold_raised : FoldError → RowSetError M X

pub record RowSet (V M X : Type 0) : Type 0 where
  pub store : ClaimStore V
  pub rows : List (Row V M X)

-- `for msg in messages: violations.append((row.name, msg))`
abbrev pub named : {M : Type 0} → String → List M → List (String × M)
named name [] = []
named name (m ∷ ms) = (name, m) ∷ named name ms

module _ {V M X : Type 0} where
  -- `RowSet.get`
  unfoldable pub row_named : String → List (Row V M X) → Option (Row V M X)
  row_named name [] = none
  row_named name (r ∷ rows) = if r.name == name then some r else row_named name rows

  -- `RowSet.owners`
  unfoldable pub owners : String → List (Row V M X) → List (Row V M X)
  owners tag rows = filter (λ r. r.in_namespace tag) rows

  -- The two loops of `RowSet.fold`.
  unfoldable pub violations :
      Claim V → ClaimStore V → List (Row V M X) → Result X (List (String × M))
  violations claim store [] = ok []
  violations claim store (r ∷ rows) = do
    messages ← r.check_invariants claim store
    rest ← violations claim store rows
    ok (named r.name messages ++ rest)

  abbrev pub fold_result :
      RowSet V M X
      → Result FoldError (Claim V) × ClaimStore V
      → Result (RowSetError M X) (Claim V) × RowSet V M X
  fold_result rs (ok m, s) = (ok m, record rs { store = s })
  fold_result rs (err x, s) = (err (fold_raised x), record rs { store = s })

module _ {V M X : Type 0} ⦃e : Eq V⦄ where
  -- The last steps of `RowSet.fold`, given the collected violations.
  unfoldable pub commit :
      String
      → Claim V
      → RowSet V M X
      → Result X (List (String × M))
      → Result (RowSetError M X) (Claim V) × RowSet V M X
  commit fresh claim rs (err x) = (err (check_raised x), rs)
  commit fresh claim rs (ok []) = fold_result rs (fold fresh claim rs.store)
  commit fresh claim rs (ok (v ∷ vs)) = (err (invariant_violation (v ∷ vs)), rs)

  -- `RowSet.fold`
  unfoldable pub fold_rows :
      String → Claim V → RowSet V M X → Result (RowSetError M X) (Claim V) × RowSet V M X
  unfolding commit violations owners
  fold_rows fresh claim rs =
      commit fresh claim rs (violations claim rs.store (owners claim.tag rs.rows))
