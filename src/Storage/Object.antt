-- ===== src/Storage/Object.antt =====
-- storage/object.go: how an aggregate is written as one value, its header, and the keys of its
-- elements. A Go map is an association list, and the rest of `data` from `i` on stands for the
-- cursor `i`.
pub mod Blocks
pub mod Inline
pub mod Total
use pebbis.Prelude.{
  ℕ, zero, suc, ◌+◌, ◌%◌, ◌^◌, Bool, Option, none, some, List, [], ◌∷◌, ◌++◌, ltb, ◌==◌,
  if◌then◌else◌, length, take, drop, get_or,
}
use pebbis.Prelude.Int.{ℤ, pos, to_u64, of_u64}
use pebbis.Prelude.Bytes.{Bytes, append_be, be_value}
use pebbis.Prelude.Assoc.{Assoc, put}
use pebbis.Storage.Codec.{encode_score, decode_score}

abbrev pub enc_inline : ℕ
enc_inline = 0

abbrev pub enc_sparse : ℕ
enc_sparse = 1

-- `corrupt` is `ErrCorruptObject`, and `crashed` the panic of a slice that is out of range. `stuck` is no
-- Go value: the fuel of a loop ran out.
pub data Decoded {ℓ} (A : Type ℓ) : Type ℓ where
  ok : A → Decoded A
  corrupt crashed stuck : Decoded A

infixl 5 ◌>>=◌
abbrev pub ◌>>=◌ {ℓ κ} : {A : Type ℓ} {B : Type κ} → Decoded A → (A → Decoded B) → Decoded B
ok a >>= f = f a
corrupt >>= f = corrupt
crashed >>= f = crashed
stuck >>= f = stuck

-- The score is the bit pattern of a `float64`.
pub record Member : Type 0 where
  pub member : Bytes
  pub score : ℕ

pub record Object : Type 0 where
  pub typ : ℕ
  pub enc : ℕ
  pub count : ℕ
  pub payload : Bytes
  pub head : ℤ
  pub tail : ℤ

unfoldable pub encode_sparse_header : ℕ → ℕ → ℤ → ℤ → Bytes
encode_sparse_header typ count head tail =
    let buf : Bytes = enc_sparse ∷ [] in
    let buf = append_be 4 buf (count % 2 ^ 32) in
    let buf = append_be 8 buf (to_u64 head) in append_be 8 buf (to_u64 tail)

unfoldable pub decode_object_header : Bytes → Decoded Object
decode_object_header payload =
    if ltb (length payload) 1
    then corrupt
    else if get_or payload 0 0 == enc_inline
    then (if ltb (length payload) 5
        then corrupt
        else ok (record {
          typ = 0;
          enc = get_or payload 0 0;
          count = be_value (take 4 (drop 1 payload));
          payload = drop 5 payload;
          head = pos 0;
          tail = pos 0;
        }))
    else if get_or payload 0 0 == enc_sparse
    then (if ltb (length payload) 21
        then corrupt
        else ok (record {
          typ = 0;
          enc = get_or payload 0 0;
          count = be_value (take 4 (drop 1 payload));
          payload = [];
          head = of_u64 (be_value (take 8 (drop 5 payload)));
          tail = of_u64 (be_value (take 8 (drop 13 payload)));
        }))
    else corrupt

-- `append(AppendUint16(buf, uint16(len(s))), s...)`, or with 32 bits.
unfoldable pub append_block : ℕ → Bytes → Bytes → Bytes
append_block n buf s = append_be n buf (length s % 256 ^ n) ++ s

encode_hash_loop : Bytes → List Bytes → (Bytes → Bytes) → Bytes
encode_hash_loop buf [] value_of = buf
encode_hash_loop buf (f ∷ fields) value_of =
    let v = value_of f in encode_hash_loop (append_block 4 (append_block 2 buf f) v) fields value_of

unfoldable pub encode_hash_inline : List Bytes → (Bytes → Bytes) → Bytes
unfolding encode_hash_loop
encode_hash_inline fields value_of =
    encode_hash_loop (append_be 4 (enc_inline ∷ []) (length fields % 2 ^ 32)) fields value_of

encode_list_loop : Bytes → List Bytes → Bytes
encode_list_loop buf [] = buf
encode_list_loop buf (e ∷ elems) = encode_list_loop (append_block 4 buf e) elems

unfoldable pub encode_list_inline : List Bytes → Bytes
unfolding encode_list_loop
encode_list_inline elems =
    encode_list_loop (append_be 4 (enc_inline ∷ []) (length elems % 2 ^ 32)) elems

encode_set_loop : Bytes → List Bytes → Bytes
encode_set_loop buf [] = buf
encode_set_loop buf (m ∷ members) = encode_set_loop (append_block 2 buf m) members

unfoldable pub encode_set_inline : List Bytes → Bytes
unfolding encode_set_loop
encode_set_inline members =
    encode_set_loop (append_be 4 (enc_inline ∷ []) (length members % 2 ^ 32)) members

encode_zset_loop : Bytes → List Member → Bytes
encode_zset_loop buf [] = buf
encode_zset_loop buf (m ∷ members) =
    encode_zset_loop (append_be 8 (append_block 2 buf m.member) (encode_score m.score)) members

unfoldable pub encode_zset_inline : List Member → Bytes
unfolding encode_zset_loop
encode_zset_inline members =
    encode_zset_loop (append_be 4 (enc_inline ∷ []) (length members % 2 ^ 32)) members

-- `data[i:i+n]`, and what is left of `data` behind it.
pub slice : ℕ → Bytes → Decoded (Bytes × Bytes)
slice n rest = if ltb (length rest) n then crashed else ok (take n rest, drop n rest)

-- A length of `n` bytes, with its bounds check, and the bytes that it counts, with theirs.
pub read_block : ℕ → Bytes → Decoded (Bytes × Bytes)
read_block n rest = if ltb (length rest) n then corrupt else do
  (head, rest) ← slice n rest
  if ltb (length rest) (be_value head) then corrupt else slice (be_value head) rest

-- Each loop ends at the end of `data`, and runs on fuel.
pub decode_hash_loop : ℕ → Bytes → Assoc Bytes → Decoded (Assoc Bytes)
decode_hash_loop fuel [] out = ok out
decode_hash_loop zero (b ∷ rest) out = stuck
decode_hash_loop (suc fuel) (b ∷ rest) out = do
  (field, rest) ← read_block 2 (b ∷ rest)
  (value, rest) ← read_block 4 rest
  decode_hash_loop fuel rest (put field value out)

unfoldable pub decode_hash_inline : Bytes → Decoded (Assoc Bytes)
unfolding decode_hash_loop read_block slice
decode_hash_inline bytes = decode_hash_loop (length bytes) bytes []

pub decode_list_loop : ℕ → Bytes → List Bytes → Decoded (List Bytes)
decode_list_loop fuel [] out = ok out
decode_list_loop zero (b ∷ rest) out = stuck
decode_list_loop (suc fuel) (b ∷ rest) out = do
  (elem, rest) ← read_block 4 (b ∷ rest)
  decode_list_loop fuel rest (out ++ elem ∷ [])

unfoldable pub decode_list_inline : Bytes → Decoded (List Bytes)
unfolding decode_list_loop read_block slice
decode_list_inline bytes = decode_list_loop (length bytes) bytes []

pub decode_set_loop : ℕ → Bytes → Assoc (Unit {0}) → Decoded (Assoc (Unit {0}))
decode_set_loop fuel [] out = ok out
decode_set_loop zero (b ∷ rest) out = stuck
decode_set_loop (suc fuel) (b ∷ rest) out = do
  (member, rest) ← read_block 2 (b ∷ rest)
  decode_set_loop fuel rest (put member tt out)

unfoldable pub decode_set_inline : Bytes → Decoded (Assoc (Unit {0}))
unfolding decode_set_loop read_block slice
decode_set_inline bytes = decode_set_loop (length bytes) bytes []

-- `n` bytes and the 8 bytes behind them, under one bounds check.
pub read_scored : ℕ → Bytes → Decoded (Bytes × ℕ × Bytes)
read_scored n rest = if ltb (length rest) (n + 8) then corrupt else do
  (member, rest) ← slice n rest
  (word, rest) ← slice 8 rest
  ok (member, decode_score (be_value word), rest)

-- A member with its length, and its score.
pub read_member : Bytes → Decoded (Bytes × ℕ × Bytes)
read_member rest =
    if ltb (length rest) 2
    then corrupt
    else do (head, rest) ← slice 2 rest; read_scored (be_value head) rest

pub decode_zset_loop : ℕ → Bytes → Assoc ℕ → Decoded (Assoc ℕ)
decode_zset_loop fuel [] out = ok out
decode_zset_loop zero (b ∷ rest) out = stuck
decode_zset_loop (suc fuel) (b ∷ rest) out = do
  (member, score, rest) ← read_member (b ∷ rest)
  decode_zset_loop fuel rest (put member score out)

unfoldable pub decode_zset_inline : Bytes → Decoded (Assoc ℕ)
unfolding decode_zset_loop read_member read_scored slice
decode_zset_inline bytes = decode_zset_loop (length bytes) bytes []

abbrev pub seg_hash : ℕ
seg_hash = 0x03

abbrev pub seg_list : ℕ
seg_list = 0x04

abbrev pub seg_set : ℕ
seg_set = 0x05

abbrev pub seg_zset_m : ℕ
seg_zset_m = 0x06

abbrev pub seg_zset_s : ℕ
seg_zset_s = 0x07

-- `none` stands for the result with `ok` false.
pub segment_for : ℕ → Option ℕ
segment_for typ =
    if typ == 1
    then some seg_hash
    else if typ == 2
    then some seg_list
    else if typ == 3
    then some seg_set
    else if typ == 4
    then some seg_zset_m
    else none
