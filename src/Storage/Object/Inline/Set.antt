-- ===== src/Storage/Object/Inline/Set.antt =====
-- object.go: the inline form of a set, and what happens to a member that is too long for it.
use pebbis.Prelude.{
  ℕ, zero, suc, ◌%◌, ◌^◌, ◌<◌, ◌≤◌, ◌≡◌, refl, sym, ◌∙◌, ap, arith, List, ◌++◌, [], ◌∷◌, length,
  length-append, append-nil,
}
use pebbis.Prelude.Bytes.{Bytes, be_before, append_be}
use pebbis.Prelude.Assoc.{Assoc, put, IsMap}
use pebbis.Storage.Object.Inline.{entries, put_all, put_all-IsMap, decode_header-inline, DecodesTo}
use pebbis.Storage.Object.Blocks.{append_block-append, read_block-block}
use pebbis.Storage.Object.{
  ok, enc_inline, append_block, encode_set_loop, encode_set_inline, decode_set_loop,
  decode_set_inline,
}

set_payload : List Bytes → Bytes
set_payload [] = []
set_payload (m ∷ members) = be_before 2 (length m % 256 ^ 2) (m ++ set_payload members)

encode_set_loop_lem :
    (buf : Bytes) (members : List Bytes) → encode_set_loop buf members ≡ buf ++ set_payload members
unfolding encode_set_loop set_payload
encode_set_loop_lem buf [] = sym (append-nil buf)
encode_set_loop_lem buf (m ∷ members) =
    encode_set_loop_lem (append_block 2 buf m) members
    ∙ append_block-append 2 buf m (set_payload members)

abbrev pub FitsSet : List Bytes → Type 0
FitsSet [] = Unit
FitsSet (m ∷ members) = (length m < 2 ^ 16) × FitsSet members

decode_set-payload :
    (fuel : ℕ) (members : List Bytes) (out : Assoc (Unit {0}))
    → length (set_payload members) ≤ fuel
    → FitsSet members
    → decode_set_loop fuel (set_payload members) out ≡ ok (put_all (entries members (λ _. tt)) out)
unfolding decode_set_loop set_payload
decode_set-payload fuel [] out h fits = refl
decode_set-payload zero (m ∷ members) out h fits = absurd (omega arith)
decode_set-payload (suc fuel) (m ∷ members) out h fits =
    let more : Bytes = set_payload members in
    rw (read_block-block 2 m more fits.0)
      (decode_set-payload fuel members (put m tt out) (omega (arith, length-append m more)) fits.1)

-- The inline form of a set whose members differ and fit their 16-bit length is decoded to its
-- number of members and to exactly these members.
pub decode-encode_set_inline :
    (members : List Bytes)
    → length members < 2 ^ 32
    → FitsSet members
    → IsMap {V = Unit {0}} (entries members (λ _. tt))
    → DecodesTo
        (encode_set_inline members)
        (length members)
        (λ p. decode_set_inline p ≡ ok (entries members (λ _. tt)))
unfolding encode_set_inline decode_set_inline
decode-encode_set_inline members few fits differ =
    rw (encode_set_loop_lem (append_be 4 (enc_inline ∷ []) (length members % 2 ^ 32)) members) (
      decode_header-inline _ (length members) (set_payload members) few (
        decode_set-payload (length (set_payload members)) members [] (omega arith) fits
        ∙ ap ok (put_all-IsMap (entries members (λ _. tt)) differ)))
