-- ===== src/Storage/Merge.antt =====
-- storage/merge.go: the merge operator of the counters. `big.Float` at 128 bits is a parameter, and a
-- mutated accumulator is the state that a fold returns.
pub mod Base
pub mod Sum
use pebbis.Prelude.{
  ℕ, suc, ◌^◌, Bool, true, false, not, ◌&&◌, ◌||◌, Option, none, some, List, [], ◌∷◌, ◌++◌, ltb,
  ◌==◌, if◌then◌else◌, length, take,
}
use pebbis.Prelude.Int.{ℤ, pos, to_u64, of_u64, ltb_ℤ}
use pebbis.Prelude.Bytes.{Bytes, append_be, be_value}
use pebbis.Storage.Codec.{encode_value, decode_value}

abbrev pub merge_tag_int : ℕ
merge_tag_int = 0x01

abbrev pub merge_tag_float : ℕ
merge_tag_float = 0x02

abbrev pub type_string : ℕ
type_string = 0

-- What the operator uses of `big.Float`: `SetInt64`, `Add`, `SetString`, `IsInf`, `Text('f', 17)`, and
-- the nearest integer as a float where `Float64` is within 1e-9 of it.
pub record BigFloat (V : Type 0) : Type 0 where
  pub of_int : ℤ → V
  pub add : V → V → V
  pub parse : Bytes → Option V
  pub is_inf : V → Bool
  pub text : V → Bytes
  pub near_integer : V → Option V

pub encode_int_delta : ℤ → Bytes
encode_int_delta d = append_be 8 (merge_tag_int ∷ []) (to_u64 d)

pub encode_float_delta : Bytes → Bytes
encode_float_delta s = merge_tag_float ∷ s

-- `counterValueMerger` and `passthroughMerger`.
pub record Counter (V : Type 0) : Type 0 where
  pub expire_at : ℤ
  pub cur : V
  pub base : Bytes

pub data Merger (V : Type 0) : Type 0 where
  counting : Counter V → Merger V
  passthrough : Bytes → Merger V

-- `strings.TrimRight(s, "0")`
unfoldable pub trim_zeros : Bytes → Bytes
trim_zeros [] = []
trim_zeros (b ∷ s) = let rest = trim_zeros s in if length rest == 0 && b == 48 then [] else b ∷ rest

-- The part from the dot on, without its trailing zeros, and without the dot if nothing is left.
unfoldable pub trim_tail : Bytes → Bytes
unfolding trim_zeros
trim_tail [] = []
trim_tail (b ∷ s) =
    let rest = trim_tail s in
    let tail = trim_zeros s in
    if b == 46 then (if length tail == 0 then [] else b ∷ tail) else b ∷ rest

module _ {V : Type 0} (big : BigFloat V) where
  add_opt : Option V → Counter V → Counter V
  add_opt none m = m
  add_opt (some d) m = record m { cur = big.add m.cur d }

  fold_value : Option (ℕ × ℤ × Bytes) → Counter V → Counter V
  unfolding add_opt
  fold_value none m = m
  fold_value (some (typ, expire_at, payload)) m =
      if not (typ == type_string)
      then m
      else (let m' =
            if ltb_ℤ m.expire_at expire_at then record m { expire_at = expire_at } else m in
          if length payload == 0 then m' else add_opt (big.parse payload) m')

  unfoldable pub fold : Bytes → Counter V → Counter V
  unfolding add_opt fold_value
  fold [] m = m
  fold (tag ∷ rest) m =
      if tag == merge_tag_int
      then (if ltb (length (tag ∷ rest)) 9
          then m
          else add_opt (some (big.of_int (of_u64 (be_value (take 8 rest))))) m)
      else if tag == merge_tag_float
      then add_opt (big.parse rest) m
      else if tag == type_string
      then fold_value (decode_value (tag ∷ rest)) m
      else m

  abbrev started : Bytes → ℤ → V → Counter V
  started base expire_at cur = record { expire_at = expire_at; cur = cur; base = base }

  -- The base is a value that says it is a string.
  merge_value : Bytes → Option (ℕ × ℤ × Bytes) → Merger V
  merge_value value none = passthrough value
  merge_value value (some (typ, expire_at, payload)) =
      if not (typ == type_string)
      then passthrough value
      else if length payload == 0
      then counting (started value expire_at (big.of_int (pos 0)))
      else elim (big.parse payload) [
        | none ↦ passthrough value
        | some cur ↦ counting (started value expire_at cur)
      ]

  unfoldable pub merge : Bytes → Merger V
  unfolding merge_value fold
  merge [] = counting (started [] (pos 0) (big.of_int (pos 0)))
  merge (tag ∷ rest) =
      if tag == merge_tag_int || tag == merge_tag_float
      then counting (fold (tag ∷ rest) (started (tag ∷ rest) (pos 0) (big.of_int (pos 0))))
      else if tag == type_string
      then merge_value (tag ∷ rest) (decode_value (tag ∷ rest))
      else passthrough (tag ∷ rest)

  -- `MergeNewer` and `MergeOlder`
  unfoldable pub merge_operand : Bytes → Merger V → Merger V
  unfolding fold
  merge_operand op (counting m) = counting (fold op m)
  merge_operand op (passthrough base) = passthrough base

  unfoldable pub merge_operands : List Bytes → Merger V → Merger V
  unfolding merge_operand
  merge_operands [] m = m
  merge_operands (op ∷ ops) m = merge_operands ops (merge_operand op m)

  unfoldable pub format_counter_float : V → Bytes
  unfolding trim_tail
  format_counter_float v =
      if big.is_inf v
      then 105 ∷ 110 ∷ 102 ∷ []
      else trim_tail (big.text (elim (big.near_integer v) [ none ↦ v | some r ↦ r ]))

  unfoldable pub finish : Merger V → Bytes
  unfolding format_counter_float
  finish (counting m) =
      if big.is_inf m.cur
      then m.base
      else encode_value type_string m.expire_at (format_counter_float m.cur)
  finish (passthrough base) = base
