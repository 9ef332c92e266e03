-- ===== src/Serialization/Examples.antt =====
-- lipas/serialization/codec.py on a value with a tuple, a dict and an instance of a registered class.
use lipas.Prelude.{
  ℕ_eq, String_eq, Option_eq, List_eq, Pair_eq, Result, ok, ℤ_eq, ◌≡◌, refl, ◌↔◌, ℕ, err, [],
  if◌then◌else◌, ◌∷◌, pos, ◌&&◌,
}
use lipas.Dict.{get, put, has}
use lipas.Attempt.{◌>>=◌, ◌>>◌, guard, required}
use lipas.Serialization.Value.{
  Value, null, int, text, list, tuple, dict, object, nil, cons, end, entry, name, is_name,
}
use lipas.Serialization.Codec.{
  CodecError, empty_registry, register, unserializable, CodecRegistry, check_key, find_encoder,
  is_reserved, tag_of, encode, get_decoder, decode, decode_data, data_key, value_error,
  decoder_error,
}
use lipas.Serialization.RoundTrip.{restore}
use lipas.Serialization.Agreement.{decode-encode}

-- The codec of `Message`, whose decoder raises on a structure without its fields.
abbrev decode_message : Value ℕ → Result CodecError (Value ℕ)
decode_message (dict (entry k role (entry l content rest))) =
    if is_name "role" k && is_name "content" l
    then ok (object "Message" [] (dict (entry k role (entry l content end))))
    else err decoder_error
decode_message _ = err decoder_error

abbrev messages : CodecRegistry ℕ
messages = record {
  by_type = ("Message", "Message") ∷ [];
  by_tag = ("Message", decode_message) ∷ [];
}

register_test : register "Message" "Message" decode_message empty_registry ≡ ok messages
unfolding ◌>>=◌ ◌>>◌ guard required has put get register
register_test = refl

abbrev greeting : Value ℕ
greeting =
    object "Message" []
      (dict (entry (name "role") (text "user") (entry (name "content") (text "hi") end)))

abbrev mixed : Value ℕ
mixed = dict (entry (name "kinds") (tuple (cons greeting (cons (int (pos 2)) nil))) end)

abbrev mixed_after : Value ℕ
mixed_after = dict (entry (name "kinds") (list (cons greeting (cons (int (pos 2)) nil))) end)

-- A tag that is already registered raises.
again_test : register "Other" "Message" decode_message messages ≡ err value_error
unfolding ◌>>=◌ ◌>>◌ guard required has put get register
again_test = refl

-- A reserved key raises.
reserved_test : encode messages (dict (entry (name data_key) null end)) ≡ err unserializable
unfolding ◌>>=◌ ◌>>◌ guard required has put get encode is_reserved
reserved_test = refl

-- A payload that the decoder refuses raises when it is decoded, not before.
refused_test : (encode messages (object "Message" [] null) >>= decode messages) ≡ err decoder_error
unfolding ◌>>=◌ ◌>>◌ guard required has put get encode decode tag_of decode_data get_decoder
    find_encoder
refused_test = refl

decode-encode_example :
    ((encode messages mixed >>= decode messages) ≡ ok mixed_after)
    ↔ (restore messages mixed ≡ ok mixed_after)
decode-encode_example = decode-encode messages mixed mixed_after

mixed_test : restore messages mixed ≡ ok mixed_after
unfolding ◌>>=◌ ◌>>◌ guard required has put get restore is_reserved check_key get_decoder
    find_encoder
mixed_test = refl
