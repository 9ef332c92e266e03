-- ===== src/Text.antt =====
-- Python's `str.strip`, over the characters of a text.
pub mod Strip
use lipas.Prelude.{
  ◌==◌, ℕ_eq, String_eq, Option_eq, ℤ_eq, leb, nat_eq, if◌then◌else◌, String, Bool, ◌&&◌, ◌||◌,
  true, false,
}
use Prim.Native.Char.{Char, code}

-- `str.isspace` of one character.
unfoldable pub is_space : Char → Bool
is_space ch =
    let c = code ch in
    (leb 9 c && leb c 13)
    || (leb 28 c && leb c 32)
    || nat_eq c 133
    || nat_eq c 160
    || nat_eq c 5760
    || (leb 8192 c && leb c 8202)
    || nat_eq c 8232
    || nat_eq c 8233
    || nat_eq c 8239
    || nat_eq c 8287
    || nat_eq c 12288

abbrev pub lstrip : String → String
lstrip String.[] = String.[]
lstrip (String.◌∷◌ c s) = let rest = lstrip s in if is_space c then rest else String.◌∷◌ c s

abbrev pub rstrip : String → String
rstrip String.[] = String.[]
rstrip (String.◌∷◌ c s) =
    let rest = rstrip s in if rest == "" && is_space c then String.[] else String.◌∷◌ c rest

unfoldable pub strip : String → String
unfolding is_space
strip s = rstrip (lstrip s)

-- `a + b`
abbrev pub join : String → String → String
join String.[] b = b
join (String.◌∷◌ c a) b = String.◌∷◌ c (join a b)

-- `text.startswith(prefix)`
abbrev pub starts : String → String → Bool
starts String.[] text = true
starts (String.◌∷◌ c p) String.[] = false
starts (String.◌∷◌ c p) (String.◌∷◌ d t) = nat_eq (code c) (code d) && starts p t

-- `part in text`
abbrev pub within : String → String → Bool
within part String.[] = starts part String.[]
within part (String.◌∷◌ c t) = let rest = within part t in starts part (String.◌∷◌ c t) || rest
