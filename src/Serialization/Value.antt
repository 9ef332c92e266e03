-- ===== src/Serialization/Value.antt =====
-- The Python values that lipas/serialization/codec.py walks. An instance of a class is its class, the
-- bases that the search visits, and the structure that its encoder returns. `F` is the type of floats.
use lipas.Prelude.{ℤ, String, Bool, false, List, ◌==◌, String_eq}

-- A key of a `dict`, which is a text or something else.
pub data Key : Type 0 where
  name : String → Key
  other : Key

mutual
  pub data Value (F : Type 0) : Type 0 where
    null : Value F
    flag : Bool → Value F
    int : ℤ → Value F
    float : F → Value F
    text : String → Value F
    list : Items F → Value F
    tuple : Items F → Value F
    dict : Entries F → Value F
    object : String → List String → Value F → Value F

  pub data Items (F : Type 0) : Type 0 where
    nil : Items F
    cons : Value F → Items F → Items F

  pub data Entries (F : Type 0) : Type 0 where
    end : Entries F
    entry : Key → Value F → Entries F → Entries F

-- `name in d`
abbrev pub is_name : String → Key → Bool
is_name n other = false
is_name n (name k) = k == n
