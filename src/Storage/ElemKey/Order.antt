-- ===== src/Storage/ElemKey/Order.antt =====
-- object.go: the order in which the engine iterates the elements of a sparse list and of a score
-- index.
use pebbis.Prelude.{
  ℕ, ◌^◌, ◌<◌, ◌≡◌, refl, ◌∙◌, arith, true, false, [], ◌++◌, ltb, ◌&&◌, if◌then◌else◌, Bool,
}
use pebbis.Prelude.Int.{ℤ, pos, negsuc, IsI64, to_u64, to_u64-lt, ltb_ℤ}
use pebbis.Prelude.Bytes.{
  Bytes, be_before, append_be, bytes_lt, bytes_lt-append, bytes_lt-be_before,
}
use pebbis.Storage.Codec.Words.{encode_score-lt, is_nan, is_zero, float_lt}
use pebbis.Storage.Codec.Order.{ltb-encode_score}
use pebbis.Storage.Codec.{encode_score}
use pebbis.Storage.Object.{seg_list}
use pebbis.Storage.ElemKey.Elems.{score_key_lem}
use pebbis.Storage.ElemKey.{encode_score_key, score_prefix, elem_prefix, encode_list_seq_key}

list_seq_key_lem :
    (db : ℕ) (key : Bytes) (seq : ℤ)
    → encode_list_seq_key db key seq ≡ elem_prefix seg_list db key ++ be_before 8 (to_u64 seq) []
unfolding encode_list_seq_key elem_prefix append_be
list_seq_key_lem db key seq = refl

bytes_lt-list_seq_key :
    (db : ℕ) (key : Bytes) (a b : ℤ)
    → bytes_lt (encode_list_seq_key db key a) (encode_list_seq_key db key b)
      ≡ ltb (to_u64 a) (to_u64 b)
bytes_lt-list_seq_key db key a b =
    let prefix = elem_prefix seg_list db key in
    rw (list_seq_key_lem db key a, list_seq_key_lem db key b)
      (bytes_lt-append prefix (be_before 8 (to_u64 a) []) (be_before 8 (to_u64 b) [])
        ∙ bytes_lt-be_before 8 (to_u64 a) (to_u64 b) [] [] (to_u64-lt a) (to_u64-lt b)
        ∙ ground arith)

abbrev pub is_negative : ℤ → Bool
is_negative (pos n) = false
is_negative (negsuc n) = true

-- The engine iterates the elements of a sparse list by sequence number only among the numbers of
-- one sign: every negative number, which is what a push at the head takes, comes after every
-- number that is not negative.
pub encode_list_seq_key_order :
    (db : ℕ) (key : Bytes) (a b : ℤ)
    → IsI64 a
    → IsI64 b
    → bytes_lt (encode_list_seq_key db key a) (encode_list_seq_key db key b) ≡ (
        if is_negative a
        then (if is_negative b then ltb_ℤ a b else false)
        else if is_negative b
        then true
        else ltb_ℤ a b)
unfolding to_u64
encode_list_seq_key_order db key (pos a) (pos b) ha hb =
    bytes_lt-list_seq_key db key (pos a) (pos b) ∙ ground arith
encode_list_seq_key_order db key (pos a) (negsuc b) ha hb =
    bytes_lt-list_seq_key db key (pos a) (negsuc b) ∙ ground arith
encode_list_seq_key_order db key (negsuc a) (pos b) ha hb =
    bytes_lt-list_seq_key db key (negsuc a) (pos b) ∙ ground arith
encode_list_seq_key_order db key (negsuc a) (negsuc b) ha hb =
    bytes_lt-list_seq_key db key (negsuc a) (negsuc b) ∙ ground arith

-- The score index of one sorted set is iterated by score and then by member, for scores that are no
-- NaN and not both zero.
pub bytes_lt-encode_score_key :
    (db : ℕ) (key : Bytes) (u v : ℕ) (m m' : Bytes)
    → u < 2 ^ 64
    → v < 2 ^ 64
    → is_nan u ≡ false
    → is_nan v ≡ false
    → (is_zero u && is_zero v) ≡ false
    → bytes_lt (encode_score_key db key u m) (encode_score_key db key v m')
      ≡ (if float_lt u v then true else if float_lt v u then false else bytes_lt m m')
bytes_lt-encode_score_key db key u v m m' hu hv nu nv z =
    let prefix = score_prefix db key in
    let w : ℕ = encode_score u in
    let w' : ℕ = encode_score v in
    let z' : (is_zero v && is_zero u) ≡ false = ground arith in
    rw (score_key_lem db key u m, score_key_lem db key v m')
      (bytes_lt-append prefix (be_before 8 w m) (be_before 8 w' m')
        ∙ bytes_lt-be_before 8 w w' m m' (encode_score-lt u hu) (encode_score-lt v hv)
        ∙ rw (ltb-encode_score u v hu hv nu nv, ltb-encode_score v u hv hu nv nu, z, z'))
