-- ===== src/Storage/Codec/RoundTrip.antt =====
-- codec.go: what is encoded is decoded again, and the keys of different entries differ.
use pebbis.Prelude.{ℕ, ◌^◌, ◌<◌, ◌≡◌, refl, ◌↔◌, ◌∙◌, ◌∷◌, [], arith, none, some, length, drop}
use pebbis.Prelude.Int.{ℤ, IsI64, to_u64, to_u64-lt, of_u64-to_u64}
use pebbis.Prelude.Bytes.{
  Bytes, be_before, append_be, append_be-append, be_value-be_before, take-be_before, drop-be_before,
  length-be_before,
}
use pebbis.Storage.Codec.Words.{un_order_preserving-order_preserving, order_preserving-lt}
use pebbis.Storage.Codec.{
  encode_expire_key, decode_expire_key, encode_value, decode_value, encode_data_key,
  key_from_data_key, seg_expire, seg_data, order_preserving, value_header_size,
}

pub encode_data_key_lem :
    (db : ℕ) (key : Bytes) → encode_data_key db key ≡ seg_data ∷ be_before 2 db key
unfolding encode_data_key
encode_data_key_lem db key = append_be-append 2 db (seg_data ∷ []) key

pub encode_expire_key_lem :
    (e : ℤ) (db : ℕ) (key : Bytes)
    → encode_expire_key e db key
      ≡ seg_expire ∷ be_before 8 (order_preserving e) (be_before 2 db key)
unfolding encode_expire_key
encode_expire_key_lem e db key =
    append_be-append 2 db (append_be 8 (seg_expire ∷ []) (order_preserving e)) key
    ∙ append_be-append 8 (order_preserving e) (seg_expire ∷ []) (be_before 2 db key)

pub encode_value_lem :
    (typ : ℕ) (e : ℤ) (payload : Bytes)
    → encode_value typ e payload ≡ typ ∷ be_before 8 (to_u64 e) payload
unfolding encode_value
encode_value_lem typ e payload = append_be-append 8 (to_u64 e) (typ ∷ []) payload

-- A value is decoded to the type, the expiry and the payload that it was encoded from, for every
-- `int64` expiry.
pub decode_value-encode_value :
    (typ : ℕ) (e : ℤ) (payload : Bytes)
    → IsI64 e
    → decode_value (encode_value typ e payload) ≡ some (typ, e, payload)
unfolding decode_value
decode_value-encode_value typ e payload h = rw (encode_value_lem typ e payload) (
    ground (
      arith,
      length-be_before 8 (to_u64 e) payload,
      take-be_before 8 (to_u64 e) payload,
      drop-be_before 8 (to_u64 e) payload,
      be_value-be_before 8 (to_u64 e) (to_u64-lt e),
      of_u64-to_u64 e h,
    ))

-- Decoding a value fails exactly when it is shorter than its header.
pub decode_value-eq-none : (v : Bytes) → (decode_value v ≡ none) ↔ (length v < value_header_size)
unfolding decode_value
decode_value-eq-none v = ground arith

drop10 : (w db : ℕ) (key : Bytes) → drop 10 (be_before 8 w (be_before 2 db key)) ≡ key
drop10 w db key = refl

-- An expiry key is decoded to the expiry, the database and the key that it was encoded from, for
-- every `int64` expiry and `uint16` database.
pub decode_expire_key-encode_expire_key :
    (e : ℤ) (db : ℕ) (key : Bytes)
    → IsI64 e
    → db < 2 ^ 16
    → decode_expire_key (encode_expire_key e db key) ≡ some (e, db, key)
unfolding decode_expire_key
decode_expire_key-encode_expire_key e db key he hdb =
    let w : ℕ = order_preserving e in
    let rest : Bytes = be_before 2 db key in
    rw (encode_expire_key_lem e db key) (
      ground (
        arith,
        length-be_before 8 w rest,
        length-be_before 2 db key,
        take-be_before 8 w rest,
        drop-be_before 8 w rest,
        take-be_before 2 db key,
        drop-be_before 2 db key,
        drop10 w db key,
        be_value-be_before 8 w (order_preserving-lt e),
        be_value-be_before 2 db hdb,
        un_order_preserving-order_preserving e he,
      ))

-- The key comes back out of its data key.
pub key_from_data_key-encode_data_key :
    (db : ℕ) (key : Bytes) → key_from_data_key (encode_data_key db key) ≡ key
unfolding key_from_data_key
key_from_data_key-encode_data_key db key =
    rw (encode_data_key_lem db key)
      (ground (arith, length-be_before 2 db key, drop-be_before 2 db key))
