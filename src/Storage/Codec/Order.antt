-- ===== src/Storage/Codec/Order.antt =====
-- codec.go: the order of encoded keys in the engine, which iterates them by `bytes.Compare`.
use pebbis.Prelude.{ℕ, ◌^◌, ◌<◌, ◌≡◌, ◌∙◌, arith, true, false, ltb, ◌&&◌, if◌then◌else◌, [], ◌∷◌}
use pebbis.Prelude.Int.{ℤ, IsI64, ltb_ℤ}
use pebbis.Prelude.Bytes.{Bytes, be_before, bytes_lt, bytes_lt-be_before, bytes_lt-append}
use pebbis.Storage.Codec.Words.{
  ltb-order_preserving, order_preserving-lt, encode_score_lem, float_lt, is_nan, is_zero,
}
use pebbis.Storage.Codec.RoundTrip.{encode_expire_key_lem}
use pebbis.Storage.Codec.{
  encode_expire_key, expire_prefix, expire_upper_bound, order_preserving, encode_score,
}

-- The engine orders expiry keys by expiry, then by database, then by key, for every `int64` expiry
-- (negative ones included) and `uint16` database.
pub bytes_lt-encode_expire_key :
    (e e' : ℤ) (db db' : ℕ) (key key' : Bytes)
    → IsI64 e
    → IsI64 e'
    → db < 2 ^ 16
    → db' < 2 ^ 16
    → bytes_lt (encode_expire_key e db key) (encode_expire_key e' db' key') ≡ (
        if ltb_ℤ e e'
        then true
        else if ltb_ℤ e' e
        then false
        else if ltb db db'
        then true
        else if ltb db' db
        then false
        else bytes_lt key key')
bytes_lt-encode_expire_key e e' db db' key key' he he' hdb hdb' =
    let w : ℕ = order_preserving e in
    let w' : ℕ = order_preserving e' in
    rw (encode_expire_key_lem e db key, encode_expire_key_lem e' db' key')
      (bytes_lt-append (8 ∷ []) (be_before 8 w (be_before 2 db key))
          (be_before 8 w' (be_before 2 db' key'))
        ∙ bytes_lt-be_before 8 w w' (be_before 2 db key) (be_before 2 db' key')
            (order_preserving-lt e) (order_preserving-lt e')
        ∙ rw (
          ltb-order_preserving e e' he he',
          ltb-order_preserving e' e he' he,
          bytes_lt-be_before 2 db db' key key' hdb hdb',
        ))

-- Every expiry key lies between the prefix of the expiry index and its upper bound.
pub encode_expire_key_bounds :
    (e : ℤ) (db : ℕ) (key : Bytes)
    → (bytes_lt (encode_expire_key e db key) expire_prefix ≡ false)
      × (bytes_lt (encode_expire_key e db key) expire_upper_bound ≡ true)
unfolding expire_prefix expire_upper_bound
encode_expire_key_bounds e db key = rw (encode_expire_key_lem e db key) (ground arith, ground arith)

-- For two `float64` that are no NaN, one encoded score is below the other exactly if the first
-- float is less; of the two zeros, which are equal floats, -0 is encoded below +0.
pub ltb-encode_score :
    (u v : ℕ)
    → u < 2 ^ 64
    → v < 2 ^ 64
    → is_nan u ≡ false
    → is_nan v ≡ false
    → ltb (encode_score u) (encode_score v)
      ≡ (if is_zero u && is_zero v then ltb v u else float_lt u v)
ltb-encode_score u v hu hv nu nv = ground (arith, encode_score_lem u hu, encode_score_lem v hv)
