-- ===== src/Storage/Object/Blocks.antt =====
-- object.go: a block that was appended is read again.
use pebbis.Prelude.{ℕ, ◌^◌, ◌%◌, ◌<◌, ◌≡◌, ◌∙◌, arith, ◌++◌, length, length-append, append_assoc}
use native.Mathlib.Nat.{mod-eq_of_lt}
use pebbis.Prelude.Bytes.{
  Bytes, be_before, append_be-append, be_value-be_before, take-be_before, drop-be_before,
  length-be_before, take-append, drop-append,
}
use pebbis.Storage.Object.{ok, slice, read_block, read_scored, append_block, read_member}
use pebbis.Storage.Codec.{encode_score}
use pebbis.Storage.Codec.Words.{encode_score-lt, decode_score-encode_score}

pub append_block-append :
    (n : ℕ) (buf s more : Bytes)
    → append_block n buf s ++ more ≡ buf ++ be_before n (length s % 256 ^ n) (s ++ more)
unfolding append_block
append_block-append n buf s more =
    append_assoc _ s more ∙ append_be-append n (length s % 256 ^ n) buf (s ++ more)

-- A block is read back if its length fits the width.
pub read_block-block :
    (n : ℕ) (s more : Bytes)
    → length s < 256 ^ n
    → read_block n (be_before n (length s % 256 ^ n) (s ++ more)) ≡ ok (s, more)
unfolding read_block slice
read_block-block n s more h = rw (mod-eq_of_lt h) (
    ground (
      arith,
      length-be_before n (length s) (s ++ more),
      take-be_before n (length s) (s ++ more),
      drop-be_before n (length s) (s ++ more),
      be_value-be_before n (length s) h,
      length-append s more,
      take-append (length s) s more,
      drop-append (length s) s more,
    ))

pub read_member-block :
    (s : Bytes) (u : ℕ) (more : Bytes)
    → length s < 256 ^ 2
    → u < 2 ^ 64
    → read_member (be_before 2 (length s % 256 ^ 2) (s ++ be_before 8 (encode_score u) more))
      ≡ ok (s, u, more)
unfolding read_member read_scored slice
read_member-block s u more h hu =
    let w : ℕ = encode_score u in
    let rest : Bytes = be_before 8 w more in
    rw (mod-eq_of_lt h) (
      ground (
        arith,
        length-be_before 2 (length s) (s ++ rest),
        length-be_before 8 w more,
        take-be_before 2 (length s) (s ++ rest),
        drop-be_before 2 (length s) (s ++ rest),
        be_value-be_before 2 (length s) h,
        length-append s rest,
        take-append (length s) s rest,
        drop-append (length s) s rest,
        take-be_before 8 w more,
        drop-be_before 8 w more,
        be_value-be_before 8 w (encode_score-lt u hu),
        decode_score-encode_score u hu,
      ))
