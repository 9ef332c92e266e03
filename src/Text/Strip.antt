-- ===== src/Text/Strip.antt =====
-- `str.strip` strips nothing from a text that was stripped.
use lipas.Prelude.{
  ◌==◌, ℕ_eq, String_eq, Option_eq, List_eq, Pair_eq, ℤ_eq, Bool-cases, String, ◌≡◌, refl, ◌∙◌, ap,
  inl, inr, false, ◌&&◌,
}
use lipas.Text.{is_space, lstrip, rstrip, strip}

-- A text that does not start with a space.
abbrev StartsWith : String → Type 0
StartsWith String.[] = Unit
StartsWith (String.◌∷◌ c s) = is_space c ≡ false

lstrip-StartsWith : (s : String) → StartsWith (lstrip s)
lstrip-StartsWith String.[] = tt
lstrip-StartsWith (String.◌∷◌ c s) = elim (Bool-cases (is_space c)) [
  | inl p ↦ rw (p) (lstrip-StartsWith s)
  | inr q ↦ rw (q) q
]

lstrip_self : (s : String) → StartsWith s → lstrip s ≡ s
lstrip_self String.[] h = refl
lstrip_self (String.◌∷◌ c s) h = rw (h) refl

rstrip-StartsWith : (s : String) → StartsWith s → StartsWith (rstrip s)
rstrip-StartsWith String.[] h = tt
rstrip-StartsWith (String.◌∷◌ c s) h = elim (Bool-cases (rstrip s == "")) [
  | inl p ↦ rw (p, h) h
  | inr q ↦ rw (q) h
]

rstrip_self : (s : String) → rstrip (rstrip s) ≡ rstrip s
rstrip_self String.[] = refl
rstrip_self (String.◌∷◌ c s) = elim (Bool-cases (rstrip s == "" && is_space c)) [
  | inl p ↦ rw (p) refl
  | inr q ↦ rw (q, rstrip_self s, q) refl
]

pub strip_self : (s : String) → strip (strip s) ≡ strip s
unfolding strip
strip_self s =
    ap rstrip (lstrip_self _ (rstrip-StartsWith _ (lstrip-StartsWith s))) ∙ rstrip_self (lstrip s)
