-- ===== src/Storage/ElemKey/Elems.antt =====
-- object.go: an element key belongs to one collection and one element, as long as no key of a
-- collection contains the separator byte.
use pebbis.Prelude.{
  ℕ, ◌^◌, ◌<◌, ◌≡◌, ◌≢◌, refl, sym, ◌∙◌, ap, ◌↔◌, arith, true, [], ◌∷◌, ◌++◌, length, length-append,
  append_assoc,
}
use pebbis.Prelude.Bytes.{
  Bytes, be_before, append_be, append_be-append, drop-append, drop-append_add, take-be_before,
  drop-be_before, be_value-be_before, length-be_before,
}
use pebbis.Storage.Prefix.{has_prefix}
use pebbis.Storage.Codec.Words.{encode_score-lt, decode_score-encode_score}
use pebbis.Storage.Codec.{encode_score}
use pebbis.Storage.ElemKey.{
  encode_elem_key, elem_prefix, elem_from_key, encode_score_key, score_prefix, score_of, member_of,
}

pub elem_prefix_lem :
    (seg db : ℕ) (key : Bytes) → elem_prefix seg db key ≡ seg ∷ be_before 2 db (key ++ 0 ∷ [])
unfolding elem_prefix
elem_prefix_lem seg db key =
    append_assoc (append_be 2 (seg ∷ []) db) key (0 ∷ [])
    ∙ append_be-append 2 db (seg ∷ []) (key ++ 0 ∷ [])

-- An element key is the prefix of its collection and the element.
pub encode_elem_key_lem :
    (seg db : ℕ) (key elem : Bytes)
    → encode_elem_key seg db key elem ≡ elem_prefix seg db key ++ elem
unfolding encode_elem_key elem_prefix
encode_elem_key_lem seg db key elem = refl

encode_elem_key_flat :
    (seg db : ℕ) (key elem : Bytes)
    → encode_elem_key seg db key elem ≡ seg ∷ be_before 2 db (key ++ 0 ∷ elem)
encode_elem_key_flat seg db key elem =
    encode_elem_key_lem seg db key elem
    ∙ ap (λ t. t ++ elem) (elem_prefix_lem seg db key)
    ∙ ap (λ t. seg ∷ be_before 2 db t) (append_assoc key (0 ∷ []) elem)

-- The element is read back from its key.
pub elem_from_key-encode_elem_key :
    (seg db : ℕ) (key elem : Bytes)
    → elem_from_key (elem_prefix seg db key) (encode_elem_key seg db key elem) ≡ elem
unfolding elem_from_key
elem_from_key-encode_elem_key seg db key elem = rw (encode_elem_key_lem seg db key elem) (
    ground (
      arith,
      length-append (elem_prefix seg db key) elem,
      drop-append (length (elem_prefix seg db key)) (elem_prefix seg db key) elem,
    ))

abbrev pub NoNul : Bytes → Type 0
NoNul [] = Unit
NoNul (b ∷ key) = (b ≢ 0) × NoNul key

separated :
    (key key' elem : Bytes)
    → NoNul key
    → NoNul key'
    → has_prefix (key' ++ 0 ∷ elem) (key ++ 0 ∷ []) ≡ true
    → key ≡ key'
separated [] [] elem h h' p = refl
separated [] (b ∷ key') elem h h' p = ground arith
separated (a ∷ key) [] elem h h' p = ground arith
separated (a ∷ key) (b ∷ key') elem h h' p = ground (arith, separated key key' elem)

has_prefix_self : (key elem : Bytes) → has_prefix (key ++ elem) key ≡ true
has_prefix_self [] elem = refl
has_prefix_self (b ∷ key) elem = ground (arith, has_prefix_self key elem)

-- A scan over the prefix of one collection meets an element key of the same segment exactly if that
-- key belongs to this collection, where neither key contains the byte 0.
pub has_prefix-elem_prefix :
    (seg db db' : ℕ) (key key' elem : Bytes)
    → db < 2 ^ 16
    → db' < 2 ^ 16
    → NoNul key
    → NoNul key'
    → (has_prefix (encode_elem_key seg db' key' elem) (elem_prefix seg db key) ≡ true)
      ↔ ((db ≡ db') × (key ≡ key'))
has_prefix-elem_prefix seg db db' key key' elem hdb hdb' h h' = (to, from)
  where
    to :
        has_prefix (encode_elem_key seg db' key' elem) (elem_prefix seg db key) ≡ true
        → (db ≡ db') × (key ≡ key')
    to p =
        let flat : encode_elem_key seg db' key' elem ≡ seg ∷ be_before 2 db' (key' ++ 0 ∷ elem) =
          encode_elem_key_flat seg db' key' elem in
        let q = rw (flat, elem_prefix_lem seg db key) at p in
        ground (arith, q, separated key key' elem h h')

    from :
        (db ≡ db') × (key ≡ key')
        → has_prefix (encode_elem_key seg db' key' elem) (elem_prefix seg db key) ≡ true
    from e =
        rw (encode_elem_key_lem seg db' key' elem, e.0, e.1)
          (has_prefix_self (elem_prefix seg db' key') elem)

-- The separator does not tell keys with the byte 0 apart: the element `f ++ 0 ∷ e` of `key` and the
-- element `e` of `key ++ 0 ∷ f` have one element key, in every segment and database.
pub encode_elem_key_collision :
    (seg db : ℕ) (key f e : Bytes)
    → encode_elem_key seg db key (f ++ 0 ∷ e) ≡ encode_elem_key seg db (key ++ 0 ∷ f) e
encode_elem_key_collision seg db key f e =
    encode_elem_key_flat seg db key (f ++ 0 ∷ e)
    ∙ ap (λ t. seg ∷ be_before 2 db t) (sym (append_assoc key (0 ∷ f) (0 ∷ e)))
    ∙ sym (encode_elem_key_flat seg db (key ++ 0 ∷ f) e)

pub score_key_lem :
    (db : ℕ) (key : Bytes) (score : ℕ) (member : Bytes)
    → encode_score_key db key score member
      ≡ score_prefix db key ++ be_before 8 (encode_score score) member
unfolding encode_score_key score_prefix
score_key_lem db key score member =
    append_be-append 8 (encode_score score) (score_prefix db key) member

-- The score, bit for bit, and the member are read back from a key of the score index.
pub score_of-member_of :
    (db : ℕ) (key : Bytes) (score : ℕ) (member : Bytes)
    → score < 2 ^ 64
    → (score_of (score_prefix db key) (encode_score_key db key score member) ≡ score)
      × (member_of (score_prefix db key) (encode_score_key db key score member) ≡ member)
unfolding score_of member_of
score_of-member_of db key score member h =
    let prefix = score_prefix db key in
    let w : ℕ = encode_score score in
    rw (score_key_lem db key score member) (
      ground (
        arith,
        length-append prefix (be_before 8 w member),
        length-be_before 8 w member,
        drop-append (length prefix) prefix (be_before 8 w member),
        take-be_before 8 w member,
        be_value-be_before 8 w (encode_score-lt score h),
        decode_score-encode_score score h,
      ),
      ground (
        arith,
        length-append prefix (be_before 8 w member),
        length-be_before 8 w member,
        drop-append_add 8 prefix (be_before 8 w member),
        drop-be_before 8 w member,
      ),
    )
