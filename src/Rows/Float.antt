-- ===== src/Rows/Float.antt =====
-- Python's floats, which the capability row adds and compares. The checker has none, so they are an
-- interface: the program relies on the laws below, all of them true of IEEE 754 doubles.
use lipas.Prelude.{ℕ_eq, String_eq, Option_eq, ℤ_eq, ◌≡◌, Bool, true, false}

pub record Float : Type 1 where
  pub F : Type 0
  pub zero : F
  pub add : F → F → F
  pub lt : F → F → Bool
  pub is_finite : F → Bool
  pub zero_finite : is_finite zero ≡ true
  -- No finite number is below itself.
  pub lt_irrefl : (a : F) → is_finite a ≡ true → lt a a ≡ false
  -- A sum of finite numbers that are not negative is not negative.
  pub add_nonneg :
      (a b : F)
      → is_finite a ≡ true
      → is_finite b ≡ true
      → lt a zero ≡ false
      → lt b zero ≡ false
      → lt (add a b) zero ≡ false
  -- Such a sum can only overflow to +inf, which is above every finite number.
  pub overflow_above :
      (a b limit : F)
      → is_finite a ≡ true
      → is_finite b ≡ true
      → lt a zero ≡ false
      → lt b zero ≡ false
      → is_finite limit ≡ true
      → is_finite (add a b) ≡ false
      → lt limit (add a b) ≡ true
