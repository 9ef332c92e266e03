-- ===== src/Store/Index.antt =====
-- The tag index of lipas/store.py serves the same claims as a walk over the log.
use lipas.Prelude.{
  ◌==◌, ℕ_eq, String_eq, Option_eq, ℤ_eq, length, filter, length-append, get_elem?-append_middle,
  Bool-cases, ◌+◌, String, ◌≡◌, refl, ◌∙◌, ap, inl, inr, Bool, Option, none, some, List, [], ◌∷◌,
  ◌++◌, append_assoc, arith,
}
use lipas.Store.{ClaimStore, pick, selected, filter_claims}
use lipas.Store.Invariant.{IsConsistent, positions}
use lipas.Calculus.Claim.{Claim}

module _ {V : Type 0} where
  abbrev tagged : String → Claim V → Bool
  tagged t c = c.tag == t

  pick-positions :
      (t : String) (before log : List (Claim V))
      → pick (before ++ log) (positions t log (length before)) ≡ some (filter (tagged t) log)
  unfolding pick
  pick-positions t before [] = refl
  pick-positions t before (c ∷ log) =
      let next = before ++ c ∷ [] in
      let there : length next ≡ length before + 1 =
        omega (arith, length-append {0} before (c ∷ [])) in
      let ih : pick (before ++ c ∷ log) (positions t log (length before + 1))
          ≡ some (filter (tagged t) log) =
        rw (append_assoc, there) at (pick-positions t next log) in
      elim (Bool-cases (c.tag == t)) [
        | inl p ↦ rw (p, pick, get_elem?-append_middle before c log, ih)
        | inr q ↦ rw (q, pick) ih
      ]

  filter_ext :
      (p q : Claim V → Bool) (log : List (Claim V))
      → ((c : Claim V) → p c ≡ q c)
      → filter p log ≡ filter q log
  filter_ext p q [] h = refl
  filter_ext p q (c ∷ log) h = ground (arith, h c, filter_ext p q log h)

  -- On a consistent store `filter` never reads outside the log, and with any of its three arguments,
  -- the fast path by tag included, it returns the logged claims that match all of them, in log order.
  pub filter_claims-eq-walk :
      (tag kind source : Option String) (s : ClaimStore V)
      → IsConsistent s
      → filter_claims tag kind source s ≡ some (filter (selected tag kind source) s.log)
  unfolding filter_claims
  filter_claims-eq-walk none kind source s h = refl
  filter_claims-eq-walk (some t) (some k) source s h = refl
  filter_claims-eq-walk (some t) none (some o) s h = refl
  filter_claims-eq-walk (some t) none none s h = rw (h.tags_indexed t) (
      pick-positions t [] s.log
      ∙ ap (λ (l : List (Claim V)). some l)
          (filter_ext (tagged t) (selected (some t) none none) s.log (λ c. ground arith)))
