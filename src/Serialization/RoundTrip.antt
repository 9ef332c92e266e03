-- ===== src/Serialization/RoundTrip.antt =====
-- lipas/serialization/codec.py: what a value is after it was encoded and decoded.
use lipas.Prelude.{
  ℕ_eq, String_eq, Option_eq, List_eq, Pair_eq, Result, ok, ℤ_eq, String, ◌≡◌, refl, ◌∙◌, ap, Bool,
  true, false, not, none, some, List, arith,
}
use lipas.Attempt.{
  bind-ok, guard-true, ◌>>=◌, ◌>>◌, guard, required, Post, returns, Post-value, Post-bind,
  Post-guard, Post-ok, required-eq-ok,
}
use lipas.Serialization.Value.{
  Value, null, flag, int, float, text, list, tuple, dict, object, Items, nil, cons, Entries, end,
  entry, Key, name, other, is_name,
}
use lipas.Serialization.Codec.{
  CodecError, unserializable, type_key, CodecRegistry, check_key, find_encoder, is_reserved, tagged,
  tag_of, encode, encode_items, encode_entries, get_decoder, decode, decode_items, decode_entries,
  decode_data,
}

-- A value with every tuple made a list and every instance of a class replaced by what its decoder
-- makes of its content, if the registry knows it and every key is a text that is not reserved.
module _ {F : Type 0} (r : CodecRegistry F) where
  unfoldable mutual
    pub restore : Value F → Result CodecError (Value F)
    restore null = ok null
    restore (flag b) = ok (flag b)
    restore (int i) = ok (int i)
    restore (float x) = ok (float x)
    restore (text s) = ok (text s)
    restore (list xs) = restore_items xs >>= λ ys. ok (list ys)
    restore (tuple xs) = restore_items xs >>= λ ys. ok (list ys)
    restore (dict es) = do
      guard (not (is_reserved es)) unserializable
      out ← restore_entries es
      ok (dict out)
    restore (object class bases content) = do
      tag ← required unserializable (find_encoder class bases r)
      decoder ← get_decoder r (text tag)
      p ← restore content
      decoder p

    pub restore_items : Items F → Result CodecError (Items F)
    restore_items nil = ok nil
    restore_items (cons x xs) = restore x >>= λ y. restore_items xs >>= λ ys. ok (cons y ys)

    pub restore_entries : Entries F → Result CodecError (Entries F)
    restore_entries end = ok end
    restore_entries (entry k v rest) =
        check_key k >>= λ k'. restore v >>= λ w. restore_entries rest >>= λ out. ok (entry k' w out)

pub not-eq-true : (b : Bool) → not b ≡ true → b ≡ false
not-eq-true false h = refl
not-eq-true true h = absurd (cc h)

pub check_key-eq-ok : (k : Key) {k' : Key} → check_key k ≡ ok k' → k' ≡ k
unfolding check_key
check_key-eq-ok (name k) h = cc h
check_key-eq-ok other h = absurd (cc h)

not_reserved :
    {F : Type 0} (k : Key) (v : Value F) (rest : Entries F)
    → is_reserved (entry k v rest) ≡ false
    → (is_name type_key k ≡ false) × (is_reserved rest ≡ false)
unfolding is_reserved
not_reserved k v rest h = (ground arith, ground arith)

pub tag_of-eq-none : {F : Type 0} (es : Entries F) → is_reserved es ≡ false → tag_of es ≡ none
unfolding tag_of
tag_of-eq-none end h = refl
tag_of-eq-none (entry k v rest) h =
    let free = not_reserved k v rest h in rw (free.0) (tag_of-eq-none rest free.1)

module _ {F : Type 0} (r : CodecRegistry F) where
  -- The encoded form of `v`, which decodes to `w`.
  abbrev Survives : Value F → Value F → Type 0
  Survives v w = (j : Value F) × (encode r v ≡ ok j) × (decode r j ≡ ok w)

  abbrev SurvivesItems : Items F → Items F → Type 0
  SurvivesItems xs ys = (js : Items F) × (encode_items r xs ≡ ok js) × (decode_items r js ≡ ok ys)

  abbrev SurvivesEntries : Entries F → Entries F → Type 0
  SurvivesEntries es out =
      (js : Entries F) × (encode_entries r es ≡ ok js)
      × (decode_entries r js ≡ ok out)
      × (is_reserved js ≡ is_reserved es)

  list-Survives :
      (xs ys : Items F)
      → SurvivesItems xs ys
      → (j : Value F) × (encode_items r xs >>= (λ zs. ok (list zs)) ≡ ok j)
        × (decode r j ≡ ok (list ys))
  unfolding decode
  list-Survives xs ys s = (list s.0, bind-ok _ s.1, bind-ok _ s.2)

  cons-Survives :
      (x : Value F) (xs : Items F) (y : Value F) (ys : Items F)
      → Survives x y
      → SurvivesItems xs ys
      → SurvivesItems (cons x xs) (cons y ys)
  unfolding encode decode
  cons-Survives x xs y ys s t =
      (cons s.0 t.0, bind-ok _ s.1 ∙ bind-ok _ t.1, bind-ok _ s.2 ∙ bind-ok _ t.2)

  dict-Survives :
      (es out : Entries F)
      → not (is_reserved es) ≡ true
      → SurvivesEntries es out
      → Survives (dict es) (dict out)
  unfolding encode decode
  dict-Survives es out free s = (
    dict s.0,
    guard-true _ _ free ∙ bind-ok _ s.1,
    rw (tag_of-eq-none s.0 (s.3 ∙ not-eq-true _ free)) (bind-ok _ s.2),
  )

  entry-Survives :
      (k k' : Key) (v w : Value F) (rest out : Entries F)
      → check_key k ≡ ok k'
      → Survives v w
      → SurvivesEntries rest out
      → SurvivesEntries (entry k v rest) (entry k' w out)
  unfolding encode decode is_reserved
  entry-Survives k k' v w rest out hk s t = (
    entry k' s.0 t.0,
    bind-ok _ hk ∙ bind-ok _ s.1 ∙ bind-ok _ t.1,
    bind-ok _ s.2 ∙ bind-ok _ t.2,
    rw (check_key-eq-ok k hk, t.3) refl,
  )

  object-Survives :
      (class : String) (bases : List String) (content : Value F) (tag : String)
      (decoder : Value F → Result CodecError (Value F)) (p w : Value F)
      → find_encoder class bases r ≡ some tag
      → get_decoder r (text tag) ≡ ok decoder
      → Survives content p
      → decoder p ≡ ok w
      → Survives (object class bases content) w
  unfolding encode decode required tag_of decode_data
  object-Survives class bases content tag decoder p w found known s made = (
    tagged tag s.0,
    bind-ok _ (ap (required unserializable) found) ∙ bind-ok _ s.1,
    bind-ok _ known ∙ bind-ok _ refl ∙ bind-ok _ s.2 ∙ made,
  )

  mutual
    unfolding restore encode decode

    pub restore-Survives : (v : Value F) → Post (Survives v) (restore r v)
    restore-Survives null = Post-ok (null, refl, refl)
    restore-Survives (flag b) = Post-ok (flag b, refl, refl)
    restore-Survives (int i) = Post-ok (int i, refl, refl)
    restore-Survives (float x) = Post-ok (float x, refl, refl)
    restore-Survives (text s) = Post-ok (text s, refl, refl)
    restore-Survives (list xs) =
        Post-bind _ _
          λ ys h. Post-ok (list-Survives xs ys (Post-value (restore_items-SurvivesItems xs) h))
    restore-Survives (tuple xs) =
        Post-bind _ _
          λ ys h. Post-ok (list-Survives xs ys (Post-value (restore_items-SurvivesItems xs) h))
    restore-Survives (dict es) = Post-guard _ _ _ λ free. Post-bind _ _ λ out h.
        Post-ok (dict-Survives es out free (Post-value (restore_entries-SurvivesEntries es) h))
    restore-Survives (object class bases content) = Post-bind _ _ λ tag found.
        Post-bind _ _ λ decoder known. Post-bind _ _ λ p h. returns λ w made.
          object-Survives class bases content tag decoder p w (required-eq-ok _ _ found) known
            (Post-value (restore-Survives content) h) made

    restore_items-SurvivesItems : (xs : Items F) → Post (SurvivesItems xs) (restore_items r xs)
    restore_items-SurvivesItems nil = Post-ok (nil, refl, refl)
    restore_items-SurvivesItems (cons x xs) = Post-bind _ _ λ y hx. Post-bind _ _ λ ys hxs.
        Post-ok (
          cons-Survives x xs y ys (Post-value (restore-Survives x) hx)
            (Post-value (restore_items-SurvivesItems xs) hxs))

    restore_entries-SurvivesEntries :
        (es : Entries F) → Post (SurvivesEntries es) (restore_entries r es)
    restore_entries-SurvivesEntries end = Post-ok (end, refl, refl, refl)
    restore_entries-SurvivesEntries (entry k v rest) = Post-bind _ _ λ k' hk. Post-bind _ _ λ w hv.
        Post-bind _ _ λ out hs. Post-ok (
          entry-Survives k k' v w rest out hk (Post-value (restore-Survives v) hv)
            (Post-value (restore_entries-SurvivesEntries rest) hs))
