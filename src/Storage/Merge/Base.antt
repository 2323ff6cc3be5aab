-- ===== src/Storage/Merge/Base.antt =====
-- merge.go: what a hash becomes as the base of a counter.
use pebbis.Prelude.{ℕ, ◌≡◌, arith, false}
use pebbis.Prelude.Int.{ℤ, pos, to_u64, to_u64-lt, of_u64-to_u64, IsI64}
use pebbis.Prelude.Bytes.{Bytes, length-be_before, take-be_before, be_value-be_before}
use pebbis.Storage.Codec.{encode_value}
use pebbis.Storage.Codec.RoundTrip.{encode_value_lem}
use pebbis.Storage.Merge.{BigFloat, type_string, fold, merge, finish, format_counter_float}

module _ {V : Type 0} (big : BigFloat V) where
  -- A base of the type 1, a hash, is taken for an operand: the value left is a string, the base's expiry
  -- counted from 0, and the hash is lost. It holds for a sum that is finite.
  pub merge_hash_base :
      (e : ℤ) (payload : Bytes)
      → IsI64 e
      → big.is_inf (big.add (big.of_int (pos 0)) (big.of_int e)) ≡ false
      → finish big (merge big (encode_value 1 e payload))
        ≡ encode_value type_string
            (pos 0)
            (format_counter_float big (big.add (big.of_int (pos 0)) (big.of_int e)))
  unfolding merge finish fold
  merge_hash_base e payload he finite =
      let w : ℕ = to_u64 e in
      rw (encode_value_lem 1 e payload) (
        ground (
          arith,
          length-be_before 8 w payload,
          take-be_before 8 w payload,
          be_value-be_before 8 w (to_u64-lt e),
          of_u64-to_u64 e he,
        ))
