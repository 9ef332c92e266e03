-- ===== src/Prelude/Int.antt =====
-- Python's `int`: signed, of any size. `negsuc n` is -(n + 1).
use Prim.Native.Nat.{ℕ}
use mathlib.Core.Path.{◌≡◌}
use mathlib.Core.Bool.{Bool, true, false}
use native.Mathlib.Omega.{arith}
use lipas.Prelude.Tests.{leb, nat_eq, nat_eq_iff}
use lipas.Prelude.Equality.{Eq}
use mathlib.Core.Logic.{◌↔◌}

pub data ℤ : Type 0 where
  pos : ℕ → ℤ
  negsuc : ℕ → ℤ

abbrev pub int_leb : ℤ → ℤ → Bool
int_leb (pos a) (pos b) = leb a b
int_leb (pos a) (negsuc b) = false
int_leb (negsuc a) (pos b) = true
int_leb (negsuc a) (negsuc b) = leb b a

abbrev pub int_beq : ℤ → ℤ → Bool
int_beq (pos a) (pos b) = nat_eq a b
int_beq (negsuc a) (negsuc b) = nat_eq a b
int_beq _ _ = false

pub int_eqb_iff : (a b : ℤ) → (int_beq a b ≡ true) ↔ (a ≡ b)
int_eqb_iff (pos a) (pos b) =
    (λ h. ground (arith, nat_eq_iff a b), λ h. ground (arith, nat_eq_iff a b))
int_eqb_iff (negsuc a) (negsuc b) =
    (λ h. ground (arith, nat_eq_iff a b), λ h. ground (arith, nat_eq_iff a b))
int_eqb_iff (pos a) (negsuc b) = (λ h. cc, λ h. cc)
int_eqb_iff (negsuc a) (pos b) = (λ h. cc, λ h. cc)

instance abbrev pub ℤ_eq : Eq ℤ
ℤ_eq = record { eqb = int_beq; eqb_iff = int_eqb_iff }
