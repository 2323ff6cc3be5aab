-- ===== src/Storage/Object/Inline.antt =====
-- object.go: what the inline encoders write is decoded to the collection that was encoded. Here:
-- the header, and entries that are put into an empty map one after the other.
pub mod Hash
pub mod Elems
pub mod Set
pub mod ZSet
use pebbis.Prelude.{
  ℕ, zero, suc, ◌+◌, ◌%◌, ◌^◌, ◌<◌, ◌≤◌, ◌≡◌, refl, sym, ◌∙◌, ap, arith, List, ◌++◌, [], ◌∷◌,
  length, map, length-append, append_assoc, append-nil, none, some, false,
}
use pebbis.Prelude.Bytes.{Bytes, be_before, append_be, append_be-append, length-be_before}
use native.Mathlib.Nat.{mod-eq_of_lt}
use pebbis.Prelude.Int.{pos}
use pebbis.Prelude.Bytes.{bytes_eq, bytes_eq_iff, be_value-be_before}
use pebbis.Prelude.Assoc.{Assoc, put, find, IsMap, put_new}
use pebbis.Storage.Object.{
  Decoded, ok, ◌>>=◌, Member, Object, enc_inline, append_block, read_block, encode_hash_loop,
  encode_hash_inline, decode_hash_loop, decode_hash_inline, decode_object_header, encode_list_loop,
  encode_list_inline, decode_list_loop, decode_list_inline, encode_set_loop, encode_set_inline,
  decode_set_loop, decode_set_inline, encode_zset_loop, encode_zset_inline, decode_zset_loop,
  decode_zset_inline,
}
use pebbis.Storage.Object.Blocks.{append_block-append, read_block-block, read_member-block}

abbrev pub entries {ℓ} : {V : Type ℓ} → List Bytes → (Bytes → V) → Assoc V
entries [] value_of = []
entries (f ∷ fields) value_of = (f, value_of f) ∷ entries fields value_of

abbrev pub put_all {ℓ} : {V : Type ℓ} → Assoc V → Assoc V → Assoc V
put_all [] out = out
put_all ((k, v) ∷ es) out = put_all es (put k v out)

module _ {ℓ} {V : Type ℓ} where
  other_key :
      (j k : Bytes) (v : V) (xs es : Assoc V)
      → find j (xs ++ ((k, v) ∷ es)) ≡ none
      → bytes_eq k j ≡ false
  unfolding find
  other_key j k v [] es h = ground arith
  other_key j k v ((i, w) ∷ xs) es h = ground (arith, other_key j k v xs es)

  find_front :
      (k : Bytes) (v : V) (out es : Assoc V) → IsMap (out ++ ((k, v) ∷ es)) → find k out ≡ none
  unfolding find
  find_front k v [] es h = refl
  find_front k v ((j, w) ∷ out) es h = ground (
    arith,
    other_key j k v out es h.0,
    find_front k v out es h.1,
    bytes_eq_iff j k,
    bytes_eq_iff k j,
  )

  put_all-append : (es out : Assoc V) → IsMap (out ++ es) → put_all es out ≡ out ++ es
  put_all-append [] out h = sym (append-nil out)
  put_all-append ((k, v) ∷ es) out h =
      let again : (out ++ (k, v) ∷ []) ++ es ≡ out ++ ((k, v) ∷ es) =
        append_assoc out ((k, v) ∷ []) es in
      rw (put_new k v out (find_front k v out es h))
        (put_all-append es (out ++ (k, v) ∷ []) (rw again h) ∙ again)

  pub put_all-IsMap : (es : Assoc V) → IsMap es → put_all es [] ≡ es
  put_all-IsMap es h = put_all-append es [] h

-- The bytes have the header of an inline object with this count, and what follows it satisfies `P`.
abbrev pub DecodesTo : Bytes → ℕ → (Bytes → Type 0) → Type 0
DecodesTo bytes n P =
    (o : Object) × (decode_object_header bytes ≡ ok o)
    × (o.enc ≡ enc_inline)
    × (o.count ≡ n)
    × P o.payload

pub decode_header-inline :
    (P : Bytes → Type 0) (n : ℕ) (payload : Bytes)
    → n < 2 ^ 32
    → P payload
    → DecodesTo (append_be 4 (enc_inline ∷ []) (n % 2 ^ 32) ++ payload) n P
unfolding decode_object_header
decode_header-inline P n payload h p =
    rw (append_be-append 4 (n % 2 ^ 32) (enc_inline ∷ []) payload, mod-eq_of_lt h)
      (
        record { typ = 0; enc = 0; count = n; payload = payload; head = pos 0; tail = pos 0 },
        ground (arith, length-be_before 4 n payload, be_value-be_before 4 n h),
        refl,
        refl,
        p,
      )
