-- ===== src/Storage/Codec/Words.antt =====
-- The order-preserving words of codec.go as arithmetic: what flipping the sign bit does.
use Prim.Native.Nat.{bit_and, bit_xor}
use pebbis.Prelude.{
  ℕ, ◌+◌, ◌-◌, ◌*◌, ◌%◌, ◌^◌, ◌<◌, ◌≡◌, arith, ltb, if◌then◌else◌, ◌==◌, not, Bool, ◌&&◌,
}
use pebbis.Prelude.Bits.{bit_and-pow_low, bit_and-pow_high, bit_xor-pow_low, bit_xor-pow_high}
use pebbis.Prelude.Int.{ℤ, pos, negsuc, IsI64, to_u64, to_u64-lt, of_u64-to_u64, ltb_ℤ}
use pebbis.Storage.Codec.{order_preserving, un_order_preserving, encode_score, decode_score}

abbrev pub flip_sign : ℕ → ℕ
flip_sign u = if ltb u (2 ^ 63) then u + 2 ^ 63 else u - 2 ^ 63

pub bit_xor-sign : (u : ℕ) → u < 2 ^ 64 → bit_xor u (2 ^ 63) ≡ flip_sign u
bit_xor-sign u h = ground (arith, bit_xor-pow_low 63 u, bit_xor-pow_high 63 u)

pub bit_and-sign : (u : ℕ) → u < 2 ^ 64 → (bit_and u (2 ^ 63) == 0) ≡ ltb u (2 ^ 63)
bit_and-sign u h = ground (arith, bit_and-pow_low 63 u, bit_and-pow_high 63 u)

pub order_preserving_lem : (v : ℤ) → order_preserving v ≡ flip_sign (to_u64 v)
unfolding order_preserving
order_preserving_lem v = bit_xor-sign (to_u64 v) (to_u64-lt v)

pub order_preserving-lt : (v : ℤ) → order_preserving v < 2 ^ 64
order_preserving-lt v = ground (arith, order_preserving_lem v, to_u64-lt v)

pub un_order_preserving-order_preserving :
    (v : ℤ) → IsI64 v → un_order_preserving (order_preserving v) ≡ v
unfolding un_order_preserving
un_order_preserving-order_preserving v h = ground (
  arith,
  bit_xor-sign (order_preserving v) (order_preserving-lt v),
  order_preserving_lem v,
  to_u64-lt v,
  of_u64-to_u64 v h,
)

-- The images of two `int64` compare as the integers do.
pub ltb-order_preserving :
    (a b : ℤ) → IsI64 a → IsI64 b → ltb (order_preserving a) (order_preserving b) ≡ ltb_ℤ a b
unfolding to_u64
ltb-order_preserving (pos a) (pos b) ha hb =
    ground (arith, order_preserving_lem (pos a), order_preserving_lem (pos b))
ltb-order_preserving (pos a) (negsuc b) ha hb =
    ground (arith, order_preserving_lem (pos a), order_preserving_lem (negsuc b))
ltb-order_preserving (negsuc a) (pos b) ha hb =
    ground (arith, order_preserving_lem (negsuc a), order_preserving_lem (pos b))
ltb-order_preserving (negsuc a) (negsuc b) ha hb =
    ground (arith, order_preserving_lem (negsuc a), order_preserving_lem (negsuc b))

pub encode_score_lem :
    (u : ℕ) → u < 2 ^ 64 → encode_score u ≡ (if ltb u (2 ^ 63) then u + 2 ^ 63 else 2 ^ 64 - 1 - u)
unfolding encode_score
encode_score_lem u h = ground (arith, bit_and-sign u h, bit_xor-sign u h)

pub decode_score_lem :
    (c : ℕ) → c < 2 ^ 64 → decode_score c ≡ (if ltb c (2 ^ 63) then 2 ^ 64 - 1 - c else c - 2 ^ 63)
unfolding decode_score
decode_score_lem c h = ground (arith, bit_and-sign c h, bit_xor-sign c h)

pub encode_score-lt : (u : ℕ) → u < 2 ^ 64 → encode_score u < 2 ^ 64
encode_score-lt u h = ground (arith, encode_score_lem u h)

-- Decoding an encoded score gives back its bit pattern, whatever the pattern.
pub decode_score-encode_score : (u : ℕ) → u < 2 ^ 64 → decode_score (encode_score u) ≡ u
decode_score-encode_score u h =
    ground (arith, encode_score_lem u h, decode_score_lem (encode_score u) (encode_score-lt u h))

-- A bit pattern with exponent 2047 and a fraction that is not 0.
abbrev pub is_nan : ℕ → Bool
is_nan u = ltb (2047 * 2 ^ 52) (u % 2 ^ 63)

abbrev pub is_zero : ℕ → Bool
is_zero u = u % 2 ^ 63 == 0

-- The place of a pattern that is no NaN among the values of `float64`: sign and magnitude.
abbrev pub float_rank : ℕ → ℤ
float_rank u =
    if ltb u (2 ^ 63) then pos u else if u == 2 ^ 63 then pos 0 else negsuc (u - 2 ^ 63 - 1)

-- `x < y` of two `float64`.
abbrev pub float_lt : ℕ → ℕ → Bool
float_lt u v = not (is_nan u) && not (is_nan v) && ltb_ℤ (float_rank u) (float_rank v)
