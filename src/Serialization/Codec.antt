-- ===== src/Serialization/Codec.antt =====
-- lipas/serialization/codec.py: the registry, `encode` and `decode`.
use lipas.Prelude.{
  ◌==◌, ℕ_eq, String_eq, Option_eq, List_eq, Pair_eq, Result, ok, err, ℤ_eq, if◌then◌else◌, String,
  Bool, false, not, ◌||◌, Option, none, some, List, [], ◌∷◌,
}
use lipas.Attempt.{◌>>=◌, ◌>>◌, guard, required}
use lipas.Dict.{Dict, get, put, has}
use lipas.Serialization.Value.{
  Value, null, flag, int, float, text, list, tuple, dict, object, Items, nil, cons, Entries, end,
  entry, Key, name, other, is_name,
}

pub data CodecError : Type 0 where
  unserializable : CodecError
  value_error : CodecError
  type_error : CodecError
  -- What a decoder of a class raised.
  decoder_error : CodecError

abbrev pub type_key : String
type_key = "__lipas_type__"

abbrev pub data_key : String
data_key = "__lipas_data__"

-- The tag of each registered class, and the decoder of each tag.
pub record CodecRegistry (F : Type 0) : Type 0 where
  pub by_type : Dict String String
  pub by_tag : Dict String (Value F → Result CodecError (Value F))

-- A key must be a text.
unfoldable pub check_key : Key → Result CodecError Key
check_key (name k) = ok (name k)
check_key other = err unserializable

module _ {F : Type 0} where
  abbrev pub empty_registry : CodecRegistry F
  empty_registry = record { by_type = []; by_tag = [] }

  -- `CodecRegistry.register`
  unfoldable pub register :
      String
      → String
      → (Value F → Result CodecError (Value F))
      → CodecRegistry F
      → Result CodecError (CodecRegistry F)
  register class tag decoder r = do
    guard (not (tag == "")) value_error
    guard (not (has tag r.by_tag)) value_error
    ok (record { by_type = put class tag r.by_type; by_tag = put tag decoder r.by_tag })

  -- The first base that is registered.
  unfoldable pub find_base : List String → CodecRegistry F → Option String
  find_base [] r = none
  find_base (base ∷ bases) r = elim (get base r.by_type) [
    | some tag ↦ some tag
    | none ↦ find_base bases r
  ]

  -- `CodecRegistry.find_encoder`: the tag of the class, or of its first registered base.
  unfoldable pub find_encoder : String → List String → CodecRegistry F → Option String
  find_encoder class bases r = elim (get class r.by_type) [
    | some tag ↦ some tag
    | none ↦ find_base bases r
  ]

  -- `_LIPAS_TYPE_KEY in value or _LIPAS_DATA_KEY in value`
  unfoldable pub is_reserved : Entries F → Bool
  is_reserved end = false
  is_reserved (entry k v rest) = is_name type_key k || is_name data_key k || is_reserved rest

  -- `{_LIPAS_TYPE_KEY: tag, _LIPAS_DATA_KEY: payload}`
  abbrev pub tagged : String → Value F → Value F
  tagged tag payload = dict (entry (name type_key) (text tag) (entry (name data_key) payload end))

  -- The text under the tag key, if the key is there.
  unfoldable pub tag_of : Entries F → Option (Value F)
  tag_of end = none
  tag_of (entry k v rest) = if is_name type_key k then some v else tag_of rest

module _ {F : Type 0} (r : CodecRegistry F) where
  unfoldable mutual
    pub encode : Value F → Result CodecError (Value F)
    encode null = ok null
    encode (flag b) = ok (flag b)
    encode (int i) = ok (int i)
    encode (float x) = ok (float x)
    encode (text s) = ok (text s)
    encode (list xs) = encode_items xs >>= λ ys. ok (list ys)
    encode (tuple xs) = encode_items xs >>= λ ys. ok (list ys)
    encode (dict es) = do
      guard (not (is_reserved es)) unserializable
      out ← encode_entries es
      ok (dict out)
    encode (object class bases content) =
        required unserializable (find_encoder class bases r) >>= λ tag.
        encode content >>= λ payload. ok (tagged tag payload)

    pub encode_items : Items F → Result CodecError (Items F)
    encode_items nil = ok nil
    encode_items (cons x xs) = encode x >>= λ y. encode_items xs >>= λ ys. ok (cons y ys)

    pub encode_entries : Entries F → Result CodecError (Entries F)
    encode_entries end = ok end
    encode_entries (entry k v rest) =
        check_key k >>= λ k'. encode v >>= λ w. encode_entries rest >>= λ out. ok (entry k' w out)

  -- `registry.get_decoder(tag)` and its test. Only a tag that can be hashed is looked up.
  unfoldable pub get_decoder : Value F → Result CodecError (Value F → Result CodecError (Value F))
  get_decoder (text tag) = required unserializable (get tag r.by_tag)
  get_decoder (list xs) = err type_error
  get_decoder (dict es) = err type_error
  get_decoder _ = err unserializable

  -- A tagged value, given its decoded payload if it has one.
  abbrev pub untag : Value F → Option (Result CodecError (Value F)) → Result CodecError (Value F)
  untag tag payload = get_decoder tag >>= λ decoder.
      required unserializable payload >>= λ decoded. decoded >>= λ p. decoder p

  abbrev pub decode_dict :
      Option (Value F)
      → Option (Result CodecError (Value F))
      → Result CodecError (Entries F)
      → Result CodecError (Value F)
  decode_dict none payload plain = plain >>= λ es. ok (dict es)
  decode_dict (some tag) payload plain = untag tag payload

  unfoldable mutual
    pub decode : Value F → Result CodecError (Value F)
    decode null = ok null
    decode (flag b) = ok (flag b)
    decode (int i) = ok (int i)
    decode (float x) = ok (float x)
    decode (text s) = ok (text s)
    decode (list xs) = decode_items xs >>= λ ys. ok (list ys)
    decode (dict es) = decode_dict (tag_of es) (decode_data es) (decode_entries es)
    decode (tuple xs) = err unserializable
    decode (object class bases content) = err unserializable

    pub decode_items : Items F → Result CodecError (Items F)
    decode_items nil = ok nil
    decode_items (cons x xs) = decode x >>= λ y. decode_items xs >>= λ ys. ok (cons y ys)

    pub decode_entries : Entries F → Result CodecError (Entries F)
    decode_entries end = ok end
    decode_entries (entry k v rest) =
        decode v >>= λ w. decode_entries rest >>= λ out. ok (entry k w out)

    -- `decode(value[_LIPAS_DATA_KEY])`, if the key is there.
    pub decode_data : Entries F → Option (Result CodecError (Value F))
    decode_data end = none
    decode_data (entry k v rest) =
        let decoded = decode v in
        let later = decode_data rest in if is_name data_key k then some decoded else later
