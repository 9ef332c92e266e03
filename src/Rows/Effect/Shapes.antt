-- ===== src/Rows/Effect/Shapes.antt =====
-- lipas/rows/effect.py: the field values that the effect row reads, `_json_shape_errors`,
-- `_container_shape_errors`, `_finite_nonnegative` and the pattern of an effect id. A value is a tree, so
-- the search for reference cycles finds none.
use lipas.Prelude.{
  ◌==◌, ℕ_eq, String_eq, Option_eq, List_eq, Pair_eq, Result, ok, ℤ_eq, ℤ, contains, leb, nat_eq,
  if◌then◌else◌, zero, ℕ, suc, String, Bool, true, false, not, ◌&&◌, ◌||◌, Option, none, some, List,
  [], ◌∷◌, ◌++◌,
}
use lipas.Attempt.{◌>>◌, guard}
use lipas.Dict.{Dict}
use lipas.Text.{strip, starts}
use lipas.Rows.Float.{Float}
use lipas.Calculus.Claim.{value}
use lipas.Serialization.Value.{
  Value, null, flag, int, float, text, list, tuple, dict, object, Items, nil, cons, Entries, end,
  entry, name, other,
}
use Prim.Native.Char.{Char, code}

pub data ShapeError : Type 0 where
  non_finite : ShapeError
  unsupported : ShapeError
  bad_key : ShapeError

-- `TypeError` of a value that cannot be hashed, `IndexError` of the store.
pub data EffectError : Type 0 where
  unhashable : EffectError
  index_error : EffectError

abbrev is_hex : Char → Bool
is_hex c = (leb 48 (code c) && leb (code c) 57) || (leb 97 (code c) && leb (code c) 102)

-- So many hexadecimal digits up to the end, or up to a line feed at the end.
unfoldable pub ends_hex : ℕ → String → Bool
ends_hex zero String.[] = true
ends_hex zero (String.◌∷◌ c s) = nat_eq (code c) 10 && s == ""
ends_hex (suc n) String.[] = false
ends_hex (suc n) (String.◌∷◌ c s) = is_hex c && ends_hex n s

-- The text after so many characters.
unfoldable pub drop_text : ℕ → String → String
drop_text zero s = s
drop_text (suc n) String.[] = String.[]
drop_text (suc n) (String.◌∷◌ c s) = drop_text n s

-- `_EFFECT_ID_RE.match`
unfoldable pub is_effect_id : String → Bool
is_effect_id s = (starts "call_" s || starts "tool_" s) && ends_hex 12 (drop_text 5 s)

-- The fields of a claim.
abbrev pub Fields : Type 0 → Type 0
Fields F = Dict String (Option (Value F))

module _ {F : Type 0} where
  -- `f.get(key)`
  unfoldable pub field : String → Fields F → Option (Value F)
  field key f = elim (value key f) [
    | none ↦ none
    | some v ↦ elim v as (λ _. Option (Value F)) [
      | null ↦ none
      | flag b ↦ some (flag b)
      | int i ↦ some (int i)
      | float x ↦ some (float x)
      | text s ↦ some (text s)
      | list xs ↦ some (list xs)
      | tuple xs ↦ some (tuple xs)
      | dict es ↦ some (dict es)
      | object class bases content ↦ some (object class bases content)
    ]
  ]

  -- The value, if it is a text.
  unfoldable pub as_text : Option (Value F) → Option String
  as_text (some (text s)) = some s
  as_text _ = none

  abbrev pub is_mapping : Value F → Bool
  is_mapping (dict es) = true
  is_mapping _ = false

  -- Lists and dicts cannot be hashed, and no tuple of them; the instances of classes are taken to be.
  unfoldable mutual
    pub hashable : Value F → Bool
    hashable (list xs) = false
    hashable (dict es) = false
    hashable (tuple xs) = hashable_items xs
    hashable _ = true

    pub hashable_items : Items F → Bool
    hashable_items nil = true
    hashable_items (cons x xs) = hashable x && hashable_items xs

  -- `v in names`, for a set of texts.
  unfoldable pub is_member : List String → Option (Value F) → Result EffectError Bool
  is_member names none = ok false
  is_member names (some (text s)) = ok (contains names s)
  is_member names (some v) = guard (hashable v) unhashable >> ok false

module _ (fl : Float) where
  open fl use {F, zero as f0, lt, is_finite}

  unfoldable mutual
    -- `_json_shape_errors`, or with `opaque`, `_container_shape_errors`.
    pub shape_errors : Bool → Value F → List ShapeError
    shape_errors opaque (float x) = if is_finite x then [] else non_finite ∷ []
    shape_errors opaque (list xs) = item_errors opaque xs
    shape_errors opaque (tuple xs) = item_errors opaque xs
    shape_errors opaque (dict es) = entry_errors opaque es
    shape_errors opaque (object class bases content) = if opaque then [] else unsupported ∷ []
    shape_errors opaque _ = []

    pub item_errors : Bool → Items F → List ShapeError
    item_errors opaque nil = []
    item_errors opaque (cons x xs) = shape_errors opaque x ++ item_errors opaque xs

    pub entry_errors : Bool → Entries F → List ShapeError
    entry_errors opaque end = []
    entry_errors opaque (entry (name k) v rest) = shape_errors opaque v ++ entry_errors opaque rest
    entry_errors opaque (entry other v rest) =
        let ignored = shape_errors opaque v in bad_key ∷ entry_errors opaque rest

  -- `_finite_nonnegative`; `of_int` is `float` on an int, which may overflow.
  unfoldable pub finite_nonnegative : (ℤ → Option F) → Value F → Bool
  finite_nonnegative of_int (float x) = is_finite x && not (lt x f0)
  finite_nonnegative of_int (int i) = elim (of_int i) [
    | none ↦ false
    | some x ↦ is_finite x && not (lt x f0)
  ]
  finite_nonnegative of_int _ = false

  -- The loop over the amounts of an estimate or a spend: an entry is invalid.
  unfoldable pub bad_amounts : (ℤ → Option F) → List String → Entries F → Bool
  bad_amounts of_int seen end = false
  bad_amounts of_int seen (entry other v rest) = true
  bad_amounts of_int seen (entry (name k) v rest) =
      let later = bad_amounts of_int (strip k ∷ seen) rest in
      strip k == "" || contains seen (strip k) || not (finite_nonnegative of_int v) || later
