-- ===== src/Serialization/Agreement.antt =====
-- lipas/serialization/codec.py: encoding and decoding agree with `restore` in both directions.
use lipas.Prelude.{
  ℕ_eq, String_eq, Option_eq, List_eq, Pair_eq, ok, ℤ_eq, String, ◌≡◌, refl, ◌∙◌, ap, true, not,
  some, List, ◌↔◌,
}
use lipas.Attempt.{
  bind-ok, guard-true, ok_injective, ◌>>=◌, required, Post, returns, Post-value, Post-bind,
  Post-guard, Post-ok, required-eq-ok,
}
use lipas.Serialization.Value.{
  Value, null, flag, int, float, text, list, tuple, dict, object, Items, nil, cons, Entries, end,
  entry, Key,
}
use lipas.Serialization.Codec.{
  unserializable, CodecRegistry, check_key, find_encoder, is_reserved, tagged, tag_of, encode,
  encode_items, encode_entries, decode, decode_items, decode_entries, decode_data,
}
use lipas.Serialization.RoundTrip.{
  restore, restore_items, restore_entries, tag_of-eq-none, not-eq-true, check_key-eq-ok,
  restore-Survives,
}

module _ {F : Type 0} (r : CodecRegistry F) where
  -- Whatever a form decodes to, `restore` makes of the value.
  abbrev Agrees : Value F → Value F → Type 0
  Agrees v j = Post (λ w. restore r v ≡ ok w) (decode r j)

  abbrev AgreesItems : Items F → Items F → Type 0
  AgreesItems xs js = Post (λ ys. restore_items r xs ≡ ok ys) (decode_items r js)

  abbrev AgreesEntries : Entries F → Entries F → Type 0
  AgreesEntries es js =
      Post (λ out. restore_entries r es ≡ ok out) (decode_entries r js)
      × (is_reserved js ≡ is_reserved es)

  list-Agrees :
      (xs js : Items F)
      → AgreesItems xs js
      → Post (λ w. (restore_items r xs >>= λ ys. ok (list ys)) ≡ ok w) (decode r (list js))
  unfolding decode
  list-Agrees xs js s = Post-bind _ _ λ ys h. Post-ok (bind-ok _ (Post-value s h))

  cons-Agrees :
      (x y : Value F) (xs ys : Items F)
      → Agrees x y
      → AgreesItems xs ys
      → AgreesItems (cons x xs) (cons y ys)
  unfolding restore decode
  cons-Agrees x y xs ys s t = Post-bind _ _ λ z hz.
      Post-bind _ _ λ zs hzs. Post-ok (bind-ok _ (Post-value s hz) ∙ bind-ok _ (Post-value t hzs))

  entry-Agrees :
      (k k' : Key) (v w : Value F) (rest out : Entries F)
      → check_key k ≡ ok k'
      → Agrees v w
      → AgreesEntries rest out
      → AgreesEntries (entry k v rest) (entry k' w out)
  unfolding restore decode is_reserved
  entry-Agrees k k' v w rest out hk s t = (
    Post-bind _ _ λ z hz. Post-bind _ _ λ zs hzs.
        Post-ok (bind-ok _ hk ∙ bind-ok _ (Post-value s hz) ∙ bind-ok _ (Post-value t.0 hzs)),
    rw (check_key-eq-ok k hk, t.1) refl,
  )

  dict-Agrees :
      (es js : Entries F)
      → not (is_reserved es) ≡ true
      → AgreesEntries es js
      → Agrees (dict es) (dict js)
  unfolding restore decode
  dict-Agrees es js free s =
      rw (tag_of-eq-none js (s.1 ∙ not-eq-true _ free))
        (Post-bind _ _ λ out h. Post-ok (guard-true _ _ free ∙ bind-ok _ (Post-value s.0 h)))

  object-Agrees :
      (class : String) (bases : List String) (content : Value F) (tag : String) (payload : Value F)
      → find_encoder class bases r ≡ some tag
      → Agrees content payload
      → Agrees (object class bases content) (tagged tag payload)
  unfolding restore decode required tag_of decode_data
  object-Agrees class bases content tag payload found s = Post-bind _ _ λ decoder known.
      Post-bind _ _ λ m hm. Post-bind _ _ λ p hp. returns λ w made.
        bind-ok _ (ap (required unserializable) found)
        ∙ bind-ok _ known
        ∙ bind-ok _ (Post-value s (ok_injective hm ∙ hp))
        ∙ made

  mutual
    unfolding restore encode decode

    encode-Agrees : (v : Value F) → Post (Agrees v) (encode r v)
    encode-Agrees null = Post-ok (Post-ok refl)
    encode-Agrees (flag b) = Post-ok (Post-ok refl)
    encode-Agrees (int i) = Post-ok (Post-ok refl)
    encode-Agrees (float x) = Post-ok (Post-ok refl)
    encode-Agrees (text s) = Post-ok (Post-ok refl)
    encode-Agrees (list xs) =
        Post-bind _ _ λ js h. Post-ok (list-Agrees _ _ (Post-value (encode_items-AgreesItems xs) h))
    encode-Agrees (tuple xs) =
        Post-bind _ _ λ js h. Post-ok (list-Agrees _ _ (Post-value (encode_items-AgreesItems xs) h))
    encode-Agrees (dict es) = Post-guard _ _ _ λ free.
        Post-bind _ _
          λ js h. Post-ok (dict-Agrees es js free (Post-value (encode_entries-AgreesEntries es) h))
    encode-Agrees (object class bases content) = Post-bind _ _ λ tag found.
        Post-bind _ _ λ payload h. Post-ok (
          object-Agrees class bases content tag payload (required-eq-ok _ _ found)
            (Post-value (encode-Agrees content) h))

    encode_items-AgreesItems : (xs : Items F) → Post (AgreesItems xs) (encode_items r xs)
    encode_items-AgreesItems nil = Post-ok (Post-ok refl)
    encode_items-AgreesItems (cons x xs) = Post-bind _ _ λ y hx. Post-bind _ _ λ ys hxs. Post-ok (
        cons-Agrees _ _ _ _ (Post-value (encode-Agrees x) hx)
          (Post-value (encode_items-AgreesItems xs) hxs))

    encode_entries-AgreesEntries : (es : Entries F) → Post (AgreesEntries es) (encode_entries r es)
    encode_entries-AgreesEntries end = Post-ok (Post-ok refl, refl)
    encode_entries-AgreesEntries (entry k v rest) = Post-bind _ _ λ k' hk. Post-bind _ _ λ w hv.
        Post-bind _ _ λ out hs. Post-ok (
          entry-Agrees _ _ _ _ _ _ hk (Post-value (encode-Agrees v) hv)
            (Post-value (encode_entries-AgreesEntries rest) hs))

  -- Encoding a value and decoding the result returns `w` exactly if `restore` does.
  pub decode-encode : (v w : Value F) → ((encode r v >>= decode r) ≡ ok w) ↔ (restore r v ≡ ok w)
  decode-encode v w = (
    λ h. Post-value (Post-bind (encode r v) (decode r) (λ j hj. Post-value (encode-Agrees v) hj)) h,
    λ h. let s = Post-value (restore-Survives r v) h in bind-ok _ s.1 ∙ s.2,
  )
