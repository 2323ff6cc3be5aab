-- ===== src/Storage/Object/Inline/ZSet.antt =====
-- object.go: the inline form of a sorted set.
use pebbis.Prelude.{
  ℕ, zero, suc, ◌%◌, ◌^◌, ◌<◌, ◌≤◌, ◌≡◌, refl, sym, ◌∙◌, ap, arith, List, ◌++◌, [], ◌∷◌, length,
  length-append, append-nil,
}
use pebbis.Prelude.Bytes.{Bytes, be_before, append_be, append_be-append}
use pebbis.Prelude.Assoc.{Assoc, put, IsMap}
use pebbis.Storage.Object.Inline.{put_all, put_all-IsMap, decode_header-inline, DecodesTo}
use pebbis.Storage.Object.Blocks.{append_block-append, read_member-block}
use pebbis.Storage.Codec.{encode_score}
use pebbis.Storage.Object.{
  ok, Member, enc_inline, append_block, encode_zset_loop, encode_zset_inline, decode_zset_loop,
  decode_zset_inline,
}

zset_payload : List Member → Bytes
zset_payload [] = []
zset_payload (m ∷ members) =
    be_before 2 (length m.member % 256 ^ 2)
      (m.member ++ be_before 8 (encode_score m.score) (zset_payload members))

encode_zset_loop_lem :
    (buf : Bytes) (members : List Member)
    → encode_zset_loop buf members ≡ buf ++ zset_payload members
unfolding encode_zset_loop zset_payload
encode_zset_loop_lem buf [] = sym (append-nil buf)
encode_zset_loop_lem buf (m ∷ members) =
    encode_zset_loop_lem (append_be 8 (append_block 2 buf m.member) (encode_score m.score)) members
    ∙ append_be-append 8 (encode_score m.score) (append_block 2 buf m.member) (zset_payload members)
    ∙ append_block-append 2 buf m.member (be_before 8 (encode_score m.score) (zset_payload members))

-- The members fit their 16-bit length, and the scores are 64-bit patterns.
abbrev pub FitsZSet : List Member → Type 0
FitsZSet [] = Unit
FitsZSet (m ∷ members) = (length m.member < 2 ^ 16) × (m.score < 2 ^ 64) × FitsZSet members

abbrev pub scores : List Member → Assoc ℕ
scores [] = []
scores (m ∷ members) = (m.member, m.score) ∷ scores members

decode_zset-payload :
    (fuel : ℕ) (members : List Member) (out : Assoc ℕ)
    → length (zset_payload members) ≤ fuel
    → FitsZSet members
    → decode_zset_loop fuel (zset_payload members) out ≡ ok (put_all (scores members) out)
unfolding decode_zset_loop zset_payload
decode_zset-payload fuel [] out h fits = refl
decode_zset-payload zero (m ∷ members) out h fits = absurd (omega arith)
decode_zset-payload (suc fuel) (m ∷ members) out h fits =
    let more : Bytes = zset_payload members in
    let block : Bytes = be_before 8 (encode_score m.score) more in
    rw (read_member-block m.member m.score more fits.0 fits.1) (
      decode_zset-payload fuel members (put m.member m.score out)
        (omega (arith, length-append m.member block)) fits.2)

-- The inline form of a sorted set whose members differ, fit their 16-bit length and have any
-- `float64` for a score, NaN included, is decoded to its number of members and to each member with
-- the bits of its score.
pub decode-encode_zset_inline :
    (members : List Member)
    → length members < 2 ^ 32
    → FitsZSet members
    → IsMap (scores members)
    → DecodesTo
        (encode_zset_inline members)
        (length members)
        (λ p. decode_zset_inline p ≡ ok (scores members))
unfolding encode_zset_inline decode_zset_inline
decode-encode_zset_inline members few fits differ =
    rw (encode_zset_loop_lem (append_be 4 (enc_inline ∷ []) (length members % 2 ^ 32)) members) (
      decode_header-inline _ (length members) (zset_payload members) few (
        decode_zset-payload (length (zset_payload members)) members [] (omega arith) fits
        ∙ ap ok (put_all-IsMap (scores members) differ)))
