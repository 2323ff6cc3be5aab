-- ===== src/Storage/ElemKey.antt =====
-- storage/object.go: the keys under which the elements of a sparse collection stand.
pub mod Elems
pub mod Order
use pebbis.Prelude.{ℕ, ◌+◌, [], ◌∷◌, ◌++◌, ltb, if◌then◌else◌, length, take, drop}
use pebbis.Prelude.Int.{ℤ, to_u64}
use pebbis.Prelude.Bytes.{Bytes, append_be, be_value}
use pebbis.Storage.Codec.{encode_score, decode_score}
use pebbis.Storage.Object.{seg_list, seg_zset_s}

unfoldable pub append_elem_key : Bytes → ℕ → ℕ → Bytes → Bytes → Bytes
append_elem_key dst seg db key elem =
    let dst = dst ++ (seg ∷ []) in
    let dst = append_be 2 dst db in
    let dst = dst ++ key in let dst = dst ++ (0x00 ∷ []) in dst ++ elem

unfoldable pub encode_elem_key : ℕ → ℕ → Bytes → Bytes → Bytes
unfolding append_elem_key
encode_elem_key seg db key elem = append_elem_key [] seg db key elem

unfoldable pub encode_list_seq_key : ℕ → Bytes → ℤ → Bytes
encode_list_seq_key db key seq =
    let buf : Bytes = seg_list ∷ [] in
    let buf = append_be 2 buf db in
    let buf = buf ++ key in let buf = buf ++ (0x00 ∷ []) in append_be 8 buf (to_u64 seq)

unfoldable pub elem_prefix : ℕ → ℕ → Bytes → Bytes
elem_prefix seg db key =
    let buf : Bytes = seg ∷ [] in
    let buf = append_be 2 buf db in let buf = buf ++ key in buf ++ (0x00 ∷ [])

unfoldable pub elem_from_key : Bytes → Bytes → Bytes
elem_from_key prefix k = if ltb (length k) (length prefix) then [] else drop (length prefix) k

unfoldable pub encode_score_key : ℕ → Bytes → ℕ → Bytes → Bytes
encode_score_key db key score member =
    let buf : Bytes = seg_zset_s ∷ [] in
    let buf = append_be 2 buf db in
    let buf = buf ++ key in
    let buf = buf ++ (0x00 ∷ []) in let buf = append_be 8 buf (encode_score score) in buf ++ member

-- `scorePrefix` and `ScorePrefix`.
unfoldable pub score_prefix : ℕ → Bytes → Bytes
score_prefix db key =
    let buf : Bytes = seg_zset_s ∷ [] in
    let buf = append_be 2 buf db in let buf = buf ++ key in buf ++ (0x00 ∷ [])

-- The float 0 has the bit pattern 0.
unfoldable pub score_of : Bytes → Bytes → ℕ
score_of prefix k =
    if ltb (length k) (length prefix + 8)
    then 0
    else decode_score (be_value (take 8 (drop (length prefix) k)))

unfoldable pub member_of : Bytes → Bytes → Bytes
member_of prefix k = if ltb (length k) (length prefix + 8) then [] else drop (length prefix + 8) k
