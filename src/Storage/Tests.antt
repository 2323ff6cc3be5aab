-- ===== src/Storage/Tests.antt =====
-- Examples of storage/.
use mathlib.Core.List.{Permᴰ}
use pebbis.Prelude.{
  ◌^◌, ◌-◌, ℕ, ◌≡◌, ◌↔◌, refl, arith, true, false, none, some, List, [], ◌∷◌, ◌++◌, if◌then◌else◌,
  length, ltb,
}
use pebbis.Prelude.Int.{ℤ, pos, negsuc, ltb_ℤ}
use pebbis.Prelude.Bytes.{Bytes, bytes_eq, bytes_lt}
use pebbis.Prelude.Assoc.{IsMap, find}
use pebbis.Storage.Codec.{encode_value, encode_expire_key}
use pebbis.Storage.Codec.Words.{float_lt}
use pebbis.Storage.Codec.Order.{bytes_lt-encode_expire_key}
use pebbis.Storage.Object.{
  Member, ok, encode_hash_inline, decode_hash_inline, decode_list_inline, decode_set_inline,
  decode_zset_inline,
}
use pebbis.Storage.Object.Inline.{DecodesTo, entries}
use pebbis.Storage.Object.Inline.Hash.{decode-encode_hash_inline}
use pebbis.Storage.Object.Inline.ZSet.{scores}
use pebbis.Storage.Object.Total.{Safe, decode_inline-Safe}
use pebbis.Storage.Prefix.{has_prefix}
use pebbis.Storage.ElemKey.{encode_elem_key, elem_prefix, encode_list_seq_key, encode_score_key}
use pebbis.Storage.ElemKey.Elems.{has_prefix-elem_prefix}
use pebbis.Storage.ElemKey.Order.{is_negative, encode_list_seq_key_order, bytes_lt-encode_score_key}
use pebbis.Storage.Merge.{
  BigFloat, type_string, merge, merge_operands, finish, format_counter_float,
}
use pebbis.Storage.Merge.Sum.{◌+ℤ◌, sum_from, deltas, IsExact, increments_finish}

abbrev minus_two : ℤ
minus_two = negsuc 1

abbrev seven : ℤ
seven = pos 7

-- The bit patterns of 1 and of -1.
abbrev one_float : ℕ
one_float = 0x3ff0000000000000

abbrev minus_one_float : ℕ
minus_one_float = 0xbff0000000000000

abbrev db_one : ℕ
db_one = 1

abbrev db_two : ℕ
db_two = 258

abbrev key_a : Bytes
key_a = 97 ∷ []

abbrev key_b : Bytes
key_b = 98 ∷ []

abbrev some_bytes : Bytes
some_bytes = 97 ∷ 255 ∷ 255 ∷ 3 ∷ []

abbrev high_prefix : Bytes
high_prefix = 97 ∷ 255 ∷ []

abbrev two_keys : List Bytes
two_keys = key_a ∷ key_b ∷ []

abbrev twice : Bytes → Bytes
twice k = k ++ k

abbrev two_members : List Member
two_members =
    record { member = key_a; score = minus_one_float }
    ∷ record { member = key_b; score = one_float }
    ∷ []

two_entries-IsMap : IsMap (entries two_keys twice)
unfolding find bytes_eq
two_entries-IsMap = (refl, (refl, tt))

two_scores-IsMap : IsMap (scores two_members)
unfolding find bytes_eq
two_scores-IsMap = (refl, (refl, tt))

two_keys-IsMap : IsMap {V = Unit {0}} (entries two_keys (λ _. tt))
unfolding find bytes_eq
two_keys-IsMap = (refl, (refl, tt))

-- Floats that are never rounded: the integers.
abbrev integers : BigFloat ℤ
integers = record {
  of_int = λ z. z;
  add = λ a b. a +ℤ b;
  parse = λ s. some (pos (length s));
  is_inf = λ a. false;
  text = λ a. 49 ∷ [];
  near_integer = λ a. none;
}

integers-IsExact : IsExact integers (λ z. z)
integers-IsExact = record { of_int = λ z h. refl; add = λ a b ha hb hs. refl; finite = λ z h. refl }

abbrev three_increments : List ℤ
three_increments = pos 1 ∷ negsuc 1 ∷ pos (2 ^ 63 - 1) ∷ []

abbrev newest_first : List ℤ
newest_first = negsuc 1 ∷ pos 1 ∷ pos (2 ^ 63 - 1) ∷ []

newest_first-Perm : Permᴰ three_increments newest_first
newest_first-Perm = Permᴰ.swap refl refl

-- The text of 1.
abbrev one_digit : Bytes
one_digit = 49 ∷ []

bytes_lt-encode_expire_key_example :
    bytes_lt (encode_expire_key minus_two 1 key_a) (encode_expire_key seven 0 key_b) ≡ (
      if ltb_ℤ minus_two seven
      then true
      else if ltb_ℤ seven minus_two
      then false
      else if ltb 1 0
      then true
      else if ltb 0 1
      then false
      else bytes_lt key_a key_b)
bytes_lt-encode_expire_key_example =
    bytes_lt-encode_expire_key minus_two seven 1 0 key_a key_b (omega arith) (omega arith)
      (omega arith) (omega arith)

decode-encode_hash_inline_example :
    DecodesTo
      (encode_hash_inline two_keys twice)
      (length two_keys)
      (λ p. decode_hash_inline p ≡ ok (entries two_keys twice))
decode-encode_hash_inline_example =
    decode-encode_hash_inline two_keys twice (omega arith)
      (omega arith, omega arith, (omega arith, omega arith, tt)) two_entries-IsMap

decode_inline-Safe_example :
    Safe (decode_hash_inline some_bytes)
    × Safe (decode_list_inline some_bytes)
    × Safe (decode_set_inline some_bytes)
    × Safe (decode_zset_inline some_bytes)
decode_inline-Safe_example = decode_inline-Safe some_bytes

has_prefix-elem_prefix_example :
    (has_prefix (encode_elem_key 4 db_two key_b some_bytes) (elem_prefix 4 db_one key_a) ≡ true)
    ↔ ((db_one ≡ db_two) × (key_a ≡ key_b))
has_prefix-elem_prefix_example =
    has_prefix-elem_prefix 4 db_one db_two key_a key_b some_bytes (omega arith) (omega arith)
      ((omega arith), tt) ((omega arith), tt)

encode_list_seq_key_order_example :
    bytes_lt (encode_list_seq_key 1 key_a minus_two) (encode_list_seq_key 1 key_a seven) ≡ (
      if is_negative minus_two
      then (if is_negative seven then ltb_ℤ minus_two seven else false)
      else if is_negative seven
      then true
      else ltb_ℤ minus_two seven)
encode_list_seq_key_order_example =
    encode_list_seq_key_order 1 key_a minus_two seven (omega arith) (omega arith)

bytes_lt-encode_score_key_example :
    bytes_lt
      (encode_score_key 1 key_a minus_one_float key_b)
      (encode_score_key 1 key_a one_float key_a)
    ≡ (if float_lt minus_one_float one_float
        then true
        else if float_lt one_float minus_one_float
        then false
        else bytes_lt key_b key_a)
bytes_lt-encode_score_key_example =
    bytes_lt-encode_score_key 1 key_a minus_one_float one_float key_b key_a (omega arith)
      (omega arith) refl refl refl

increments_finish_example :
    finish integers (
      merge_operands integers
        (deltas three_increments)
        (merge integers (encode_value type_string (pos 3) one_digit)))
    ≡ encode_value type_string
        (pos 3)
        (format_counter_float integers (sum_from (pos 1) newest_first))
increments_finish_example =
    increments_finish integers (λ z. z) three_increments newest_first (pos 1) (pos 3) one_digit
      integers-IsExact (omega arith) (omega arith) (omega arith) refl
      (omega arith, (omega arith, (omega arith, tt))) (omega arith) newest_first-Perm
