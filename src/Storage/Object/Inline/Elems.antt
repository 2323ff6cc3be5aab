-- ===== src/Storage/Object/Inline/Elems.antt =====
-- object.go: the inline form of a list.
use pebbis.Prelude.{
  ℕ, zero, suc, ◌%◌, ◌^◌, ◌<◌, ◌≤◌, ◌≡◌, sym, ◌∙◌, ap, arith, List, ◌++◌, [], ◌∷◌, length,
  length-append, append_assoc, append-nil,
}
use pebbis.Prelude.Bytes.{Bytes, be_before, append_be}
use pebbis.Storage.Object.Inline.{decode_header-inline, DecodesTo}
use pebbis.Storage.Object.Blocks.{append_block-append, read_block-block}
use pebbis.Storage.Object.{
  ok, enc_inline, append_block, encode_list_loop, encode_list_inline, decode_list_loop,
  decode_list_inline,
}

list_payload : List Bytes → Bytes
list_payload [] = []
list_payload (e ∷ elems) = be_before 4 (length e % 256 ^ 4) (e ++ list_payload elems)

encode_list_loop_lem :
    (buf : Bytes) (elems : List Bytes) → encode_list_loop buf elems ≡ buf ++ list_payload elems
unfolding encode_list_loop list_payload
encode_list_loop_lem buf [] = sym (append-nil buf)
encode_list_loop_lem buf (e ∷ elems) =
    encode_list_loop_lem (append_block 4 buf e) elems
    ∙ append_block-append 4 buf e (list_payload elems)

abbrev pub FitsList : List Bytes → Type 0
FitsList [] = Unit
FitsList (e ∷ elems) = (length e < 2 ^ 32) × FitsList elems

decode_list-payload :
    (fuel : ℕ) (elems out : List Bytes)
    → length (list_payload elems) ≤ fuel
    → FitsList elems
    → decode_list_loop fuel (list_payload elems) out ≡ ok (out ++ elems)
unfolding decode_list_loop list_payload
decode_list-payload fuel [] out h fits = ap ok (sym (append-nil out))
decode_list-payload zero (e ∷ elems) out h fits = absurd (omega arith)
decode_list-payload (suc fuel) (e ∷ elems) out h fits =
    let more : Bytes = list_payload elems in
    rw (read_block-block 4 e more fits.0) (
      decode_list-payload fuel elems (out ++ e ∷ []) (omega (arith, length-append e more)) fits.1
      ∙ ap ok (append_assoc out (e ∷ []) elems))

-- The inline form of a list whose elements fit their 32-bit length is decoded to its number of
-- elements and to the elements in order.
pub decode-encode_list_inline :
    (elems : List Bytes)
    → length elems < 2 ^ 32
    → FitsList elems
    → DecodesTo (encode_list_inline elems) (length elems) (λ p. decode_list_inline p ≡ ok elems)
unfolding encode_list_inline decode_list_inline
decode-encode_list_inline elems few fits =
    rw (encode_list_loop_lem (append_be 4 (enc_inline ∷ []) (length elems % 2 ^ 32)) elems) (
      decode_header-inline _ (length elems) (list_payload elems) few
        (decode_list-payload (length (list_payload elems)) elems [] (omega arith) fits))
