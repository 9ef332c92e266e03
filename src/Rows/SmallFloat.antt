-- ===== src/Rows/SmallFloat.antt =====
-- Natural numbers as an instance of the interface of floats, for examples.
use lipas.Prelude.{
  ℕ_eq, String_eq, Option_eq, List_eq, Pair_eq, ℤ_eq, ltb, ℕ, ◌+◌, ◌≡◌, refl, true, false, arith,
}
use lipas.Rows.Float.{Float}

-- Numbers below 1000 stand for the finite floats, all others for +inf.
pub finite_below :
    (a b limit : ℕ) → ltb limit 1000 ≡ true → ltb (a + b) 1000 ≡ false → ltb limit (a + b) ≡ true
finite_below a b limit l h = ground arith

pub ltb_irrefl : (a : ℕ) → ltb a a ≡ false
ltb_irrefl a = ground arith

pub ltb_zero : (a : ℕ) → ltb a 0 ≡ false
ltb_zero a = ground arith

abbrev pub small_float : Float
small_float = record {
  F = ℕ;
  zero = 0;
  add = λ a b. a + b;
  lt = ltb;
  is_finite = λ a. ltb a 1000;
  zero_finite = refl;
  lt_irrefl = λ a _. ltb_irrefl a;
  add_nonneg = λ a b _ _ _ _. ltb_zero (a + b);
  overflow_above = λ a b limit _ _ _ _ l h. finite_below a b limit l h;
}
