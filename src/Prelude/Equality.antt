-- ===== src/Prelude/Equality.antt =====
-- Python's `==` as an interface: a Boolean test that decides equality.
use mathlib.Core.Path.{◌≡◌, refl}
use mathlib.Core.Logic.{◌↔◌, inl, inr}
use mathlib.Core.Bool.{Bool, true, false, ◌&&◌}
use mathlib.Core.List.{List, [], ◌∷◌}
use mathlib.Core.Option.{Option, none, some}
use native.Mathlib.Omega.{arith}
use Prim.Native.Nat.{ℕ}
use Prim.Native.String.{String}
use text.Mathlib.Text.{◌==◌ as str_eq}
use text.Mathlib.TextEquality.{eq_iff}
use lipas.Prelude.Tests.{nat_eq, nat_eq_iff, Bool-cases}

pub record Eq {ℓ} (A : Type ℓ) : Type ℓ where
  pub eqb : A → A → Bool
  pub eqb_iff : (a b : A) → (eqb a b ≡ true) ↔ (a ≡ b)

infix 50 ◌==◌
abbrev pub ◌==◌ {ℓ} : {A : Type ℓ} ⦃e : Eq A⦄ → A → A → Bool
◌==◌ ⦃e⦄ = e.eqb

instance abbrev pub ℕ_eq : Eq ℕ
ℕ_eq = record { eqb = nat_eq; eqb_iff = nat_eq_iff }

instance abbrev pub String_eq : Eq String
String_eq = record { eqb = str_eq; eqb_iff = eq_iff }

abbrev pub option_beq {ℓ} : {A : Type ℓ} ⦃e : Eq A⦄ → Option A → Option A → Bool
option_beq none none = true
option_beq (some a) (some b) = a == b
option_beq _ _ = false

pub option_eqb_iff {ℓ} :
    {A : Type ℓ} ⦃e : Eq A⦄ (a b : Option A) → (option_beq a b ≡ true) ↔ (a ≡ b)
option_eqb_iff ⦃e⦄ none none = (λ _. refl, λ _. refl)
option_eqb_iff ⦃e⦄ none (some b) = (λ h. cc, λ h. cc)
option_eqb_iff ⦃e⦄ (some a) none = (λ h. cc, λ h. cc)
option_eqb_iff ⦃e⦄ (some a) (some b) = (λ h. cc ((e.eqb_iff a b).0 h), λ h. (e.eqb_iff a b).1 (cc))

instance abbrev pub Option_eq {ℓ} : {A : Type ℓ} ⦃e : Eq A⦄ → Eq (Option A)
Option_eq = record { eqb = option_beq; eqb_iff = option_eqb_iff }

abbrev pub list_beq {ℓ} : {A : Type ℓ} ⦃e : Eq A⦄ → List A → List A → Bool
list_beq [] [] = true
list_beq (a ∷ xs) (b ∷ ys) = a == b && list_beq xs ys
list_beq _ _ = false

pub list_eqb_iff {ℓ} : {A : Type ℓ} ⦃e : Eq A⦄ (a b : List A) → (list_beq a b ≡ true) ↔ (a ≡ b)
list_eqb_iff ⦃e⦄ [] [] = (λ _. refl, λ _. refl)
list_eqb_iff ⦃e⦄ [] (b ∷ bs) = (λ h. cc, λ h. cc)
list_eqb_iff ⦃e⦄ (a ∷ xs) [] = (λ h. cc, λ h. cc)
list_eqb_iff ⦃e⦄ (a ∷ xs) (b ∷ ys) = ground (arith, e.eqb_iff a b, list_eqb_iff xs ys)

instance abbrev pub List_eq {ℓ} : {A : Type ℓ} ⦃e : Eq A⦄ → Eq (List A)
List_eq = record { eqb = list_beq; eqb_iff = list_eqb_iff }

abbrev pub pair_beq {ℓ κ} : {A : Type ℓ} {B : Type κ} ⦃a : Eq A⦄ ⦃b : Eq B⦄ → A × B → A × B → Bool
pair_beq (x, y) (z, w) = x == z && y == w

pub pair_eqb_iff {ℓ κ} :
    {A : Type ℓ} {B : Type κ} ⦃a : Eq A⦄ ⦃b : Eq B⦄ (x y : A × B) → (pair_beq x y ≡ true) ↔ (x ≡ y)
pair_eqb_iff ⦃a⦄ ⦃b⦄ (x, y) (z, w) = ground (arith, a.eqb_iff x z, b.eqb_iff y w)

instance abbrev pub Pair_eq {ℓ κ} : {A : Type ℓ} {B : Type κ} ⦃a : Eq A⦄ ⦃b : Eq B⦄ → Eq (A × B)
Pair_eq = record { eqb = pair_beq; eqb_iff = pair_eqb_iff }

module _ {ℓ} {A : Type ℓ} ⦃e : Eq A⦄ where
  pub beq_refl : (a : A) → (a == a) ≡ true
  beq_refl a = (e.eqb_iff a a).1 refl

  pub beq_sym : (a b : A) → (a == b) ≡ (b == a)
  beq_sym a b = ground (arith, e.eqb_iff a b, e.eqb_iff b a)

  pub eq_of_beq : (a b : A) → (a == b) ≡ true → a ≡ b
  eq_of_beq a b = (e.eqb_iff a b).0

  pub beq_false : (a b : A) → ((a ≡ b) → ⊥) → (a == b) ≡ false
  beq_false a b h = elim (Bool-cases (a == b)) [ inl p ↦ absurd (h (eq_of_beq a b p)) | inr q ↦ q ]

  pub beq_true : (a b : A) → a ≡ b → (a == b) ≡ true
  beq_true a b = (e.eqb_iff a b).1
