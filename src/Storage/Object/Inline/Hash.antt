-- ===== src/Storage/Object/Inline/Hash.antt =====
-- object.go: the inline form of a hash.
use pebbis.Prelude.{
  ℕ, zero, suc, ◌%◌, ◌^◌, ◌<◌, ◌≤◌, ◌≡◌, refl, sym, ◌∙◌, ap, arith, List, ◌++◌, [], ◌∷◌, length,
  length-append, append-nil,
}
use pebbis.Prelude.Bytes.{Bytes, be_before, append_be}
use pebbis.Prelude.Assoc.{Assoc, put, IsMap}
use pebbis.Storage.Object.{
  ok, enc_inline, append_block, encode_hash_loop, encode_hash_inline, decode_hash_loop,
  decode_hash_inline,
}
use pebbis.Storage.Object.Inline.{entries, put_all, put_all-IsMap, decode_header-inline, DecodesTo}
use pebbis.Storage.Object.Blocks.{append_block-append, read_block-block}

-- The payload that a hash is encoded to, from its end.
hash_payload : List Bytes → (Bytes → Bytes) → Bytes
hash_payload [] value_of = []
hash_payload (f ∷ fields) value_of =
    be_before 2 (length f % 256 ^ 2) (
      f ++ be_before 4 (length (value_of f) % 256 ^ 4) (value_of f ++ hash_payload fields value_of))

encode_hash_loop_lem :
    (buf : Bytes) (fields : List Bytes) (value_of : Bytes → Bytes)
    → encode_hash_loop buf fields value_of ≡ buf ++ hash_payload fields value_of
unfolding encode_hash_loop hash_payload
encode_hash_loop_lem buf [] value_of = sym (append-nil buf)
encode_hash_loop_lem buf (f ∷ fields) value_of =
    encode_hash_loop_lem (append_block 4 (append_block 2 buf f) (value_of f)) fields value_of
    ∙ append_block-append 4 (append_block 2 buf f) (value_of f) (hash_payload fields value_of)
    ∙ append_block-append 2 buf f _

-- The fields fit their 16-bit length and the values their 32-bit one.
abbrev pub FitsHash : List Bytes → (Bytes → Bytes) → Type 0
FitsHash [] value_of = Unit
FitsHash (f ∷ fields) value_of =
    (length f < 2 ^ 16) × (length (value_of f) < 2 ^ 32) × FitsHash fields value_of

decode_hash-payload :
    (fuel : ℕ) (fields : List Bytes) (value_of : Bytes → Bytes) (out : Assoc Bytes)
    → length (hash_payload fields value_of) ≤ fuel
    → FitsHash fields value_of
    → decode_hash_loop fuel (hash_payload fields value_of) out
      ≡ ok (put_all (entries fields value_of) out)
unfolding decode_hash_loop hash_payload
decode_hash-payload fuel [] value_of out h fits = refl
decode_hash-payload zero (f ∷ fields) value_of out h fits = absurd (omega arith)
decode_hash-payload (suc fuel) (f ∷ fields) value_of out h fits =
    let v : Bytes = value_of f in
    let more : Bytes = hash_payload fields value_of in
    let block : Bytes = be_before 4 (length v % 256 ^ 4) (v ++ more) in
    rw (read_block-block 2 f block fits.0, read_block-block 4 v more fits.1)
      (decode_hash-payload fuel fields value_of (put f v out)
        (omega (arith, length-append f block, length-append v more)) fits.2)

-- The inline form of a hash whose fields differ and fit their lengths is decoded, header and
-- payload, to its number of fields and to each field with its value.
pub decode-encode_hash_inline :
    (fields : List Bytes) (value_of : Bytes → Bytes)
    → length fields < 2 ^ 32
    → FitsHash fields value_of
    → IsMap (entries fields value_of)
    → DecodesTo
        (encode_hash_inline fields value_of)
        (length fields)
        (λ p. decode_hash_inline p ≡ ok (entries fields value_of))
unfolding encode_hash_inline decode_hash_inline
decode-encode_hash_inline fields value_of few fits differ =
    rw
      (encode_hash_loop_lem (append_be 4 (enc_inline ∷ []) (length fields % 2 ^ 32)) fields
        value_of)
      (decode_header-inline _ (length fields) (hash_payload fields value_of) few (
        decode_hash-payload (length (hash_payload fields value_of)) fields value_of [] (omega arith)
          fits
        ∙ ap ok (put_all-IsMap (entries fields value_of) differ)))
