-- ===== src/Storage/Codec.antt =====
-- storage/codec.go: keys and values as byte strings. A `float64` is its bit pattern, as
-- `math.Float64bits` gives it; an `int64` is a ℤ and a `uint16` a number.
pub mod Words
pub mod RoundTrip
pub mod Order
use Prim.Native.Nat.{bit_and, bit_xor}
use pebbis.Prelude.{
  ℕ, ◌+◌, ◌-◌, ◌^◌, Bool, true, ◌||◌, not, Option, none, some, List, [], ◌∷◌, ◌++◌, ltb, ◌==◌,
  if◌then◌else◌, length, take, drop, get_or,
}
use pebbis.Prelude.Int.{ℤ, to_u64, of_u64}
use pebbis.Prelude.Bytes.{Bytes, append_be, be_value}

abbrev pub seg_data : ℕ
seg_data = 0x02

abbrev pub seg_expire : ℕ
seg_expire = 0x08

abbrev pub value_header_size : ℕ
value_header_size = 9

abbrev pub db_width : ℕ
db_width = 2

unfoldable pub append_data_key : Bytes → ℕ → Bytes → Bytes
append_data_key dst db key =
    let dst = dst ++ (seg_data ∷ []) in let dst = append_be 2 dst db in dst ++ key

unfoldable pub encode_data_key : ℕ → Bytes → Bytes
unfolding append_data_key
encode_data_key db key = append_data_key [] db key

unfoldable pub data_prefix : ℕ → Bytes
unfolding append_data_key
data_prefix db = append_data_key [] db []

unfoldable pub key_from_data_key : Bytes → Bytes
key_from_data_key dk = if ltb (length dk) (1 + db_width) then [] else drop (1 + db_width) dk

-- `uint64(v) ^ (1 << 63)` and back.
unfoldable pub order_preserving : ℤ → ℕ
order_preserving v = bit_xor (to_u64 v) (2 ^ 63)

unfoldable pub un_order_preserving : ℕ → ℤ
un_order_preserving u = of_u64 (bit_xor u (2 ^ 63))

unfoldable pub append_expire_key : Bytes → ℤ → ℕ → Bytes → Bytes
append_expire_key dst expire_at_ms db key =
    let dst = dst ++ (seg_expire ∷ []) in
    let dst = append_be 8 dst (order_preserving expire_at_ms) in
    let dst = append_be 2 dst db in dst ++ key

unfoldable pub encode_expire_key : ℤ → ℕ → Bytes → Bytes
unfolding append_expire_key
encode_expire_key expire_at_ms db key = append_expire_key [] expire_at_ms db key

pub expire_prefix : Bytes
expire_prefix = seg_expire ∷ []

pub expire_upper_bound : Bytes
expire_upper_bound = (seg_expire + 1) ∷ []

-- `none` stands for the result with `ok` false.
unfoldable pub decode_expire_key : Bytes → Option (ℤ × ℕ × Bytes)
decode_expire_key ek =
    if ltb (length ek) (1 + 8 + db_width) || not (get_or ek 0 0 == seg_expire)
    then none
    else some (
      un_order_preserving (be_value (take 8 (drop 1 ek))),
      be_value (take db_width (drop (1 + 8) ek)),
      drop (1 + 8 + db_width) ek,
    )

unfoldable pub append_value : Bytes → ℕ → ℤ → Bytes → Bytes
append_value dst typ expire_at_ms payload =
    let dst = dst ++ (typ ∷ []) in let dst = append_be 8 dst (to_u64 expire_at_ms) in dst ++ payload

unfoldable pub encode_value : ℕ → ℤ → Bytes → Bytes
unfolding append_value
encode_value typ expire_at_ms payload = append_value [] typ expire_at_ms payload

-- `none` stands for `ErrCorruptValue`.
unfoldable pub decode_value : Bytes → Option (ℕ × ℤ × Bytes)
decode_value v =
    if ltb (length v) value_header_size
    then none
    else some (get_or v 0 0, of_u64 (be_value (take 8 (drop 1 v))), drop value_header_size v)

-- `^u` of a `uint64` is 2 ^ 64 - 1 - u.
unfoldable pub encode_score : ℕ → ℕ
encode_score u = if not (bit_and u (2 ^ 63) == 0) then 2 ^ 64 - 1 - u else bit_xor u (2 ^ 63)

unfoldable pub decode_score : ℕ → ℕ
decode_score c = if not (bit_and c (2 ^ 63) == 0) then bit_xor c (2 ^ 63) else 2 ^ 64 - 1 - c
