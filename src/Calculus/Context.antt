-- ===== src/Calculus/Context.antt =====
-- lipas/calculus.py, `BeliefContext`.
use lipas.Prelude.{
  ℕ, ◌+◌, String, Bool, true, false, Option, none, some, [], ◌∷◌, ◌==◌, Eq, ◌≡◌, ◌↔◌, arith,
  if◌then◌else◌, ◌&&◌, String_eq,
}
use lipas.Dict.{Dict}

-- A hashable key: a text, or the tuple `(commitment type, reason)` under which failures are counted.
pub data Key : Type 0 where
  name : String → Key
  pair : String → String → Key

abbrev pub key_beq : Key → Key → Bool
key_beq (name a) (name b) = a == b
key_beq (pair a c) (pair b d) = a == b && c == d
key_beq _ _ = false

pub key_beq_iff : (a b : Key) → (key_beq a b ≡ true) ↔ (a ≡ b)
key_beq_iff (name a) (name b) =
    (λ h. ground (arith, String_eq.eqb_iff a b), λ h. ground (arith, String_eq.eqb_iff a b))
key_beq_iff (name a) (pair b d) = (λ h. cc, λ h. cc)
key_beq_iff (pair a c) (name b) = (λ h. cc, λ h. cc)
key_beq_iff (pair a c) (pair b d) = (
  λ h. ground (arith, String_eq.eqb_iff a b, String_eq.eqb_iff c d),
  λ h. ground (arith, String_eq.eqb_iff a b, String_eq.eqb_iff c d),
)

instance abbrev pub Key_eq : Eq Key
Key_eq = record { eqb = key_beq; eqb_iff = key_beq_iff }

pub record BeliefContext : Type 0 where
  pub fail_counts : Dict Key ℕ
  pub caution_threshold : ℕ

abbrev pub sum_values : Dict Key ℕ → ℕ
sum_values [] = 0
sum_values ((k, v) ∷ m) = v + sum_values m

unfoldable pub total_failures : BeliefContext → ℕ
total_failures ctx = sum_values ctx.fail_counts

-- The generator of `fail_count_for`: the counters whose key is a tuple headed by the type.
abbrev pub counts_of : String → Dict Key ℕ → Dict Key ℕ
counts_of t [] = []
counts_of t ((name k, v) ∷ m) = counts_of t m
counts_of t ((pair k r, v) ∷ m) =
    let rest = counts_of t m in if k == t then (pair k r, v) ∷ rest else rest

unfoldable pub fail_count_for : BeliefContext → Option String → ℕ
fail_count_for ctx none = 0
fail_count_for ctx (some commitment_type) = sum_values (counts_of commitment_type ctx.fail_counts)
