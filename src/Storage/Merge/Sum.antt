-- ===== src/Storage/Merge/Sum.antt =====
-- merge.go: what integer increments make of a counter.
use mathlib.Core.List.{Permᴰ}
use pebbis.Prelude.{
  ℕ, ◌+◌, ◌-◌, ◌*◌, ◌^◌, ◌<◌, ◌≤◌, ◌≡◌, refl, ap, ◌∙◌, sym, arith, false, some, List, [], ◌∷◌, ltb,
  if◌then◌else◌, length, append-nil,
}
use pebbis.Prelude.Int.{ℤ, pos, negsuc, pos_part, neg_part, IsI64, to_u64, to_u64-lt, of_u64-to_u64}
use pebbis.Prelude.Bytes.{
  Bytes, append_be, append_be-append, be_before, length-be_before, take-be_before,
  be_value-be_before,
}
use pebbis.Storage.Codec.{encode_value}
use pebbis.Storage.Codec.RoundTrip.{decode_value-encode_value, encode_value_lem}
use pebbis.Storage.Merge.{
  BigFloat, Counter, counting, type_string, merge_tag_int, encode_int_delta, fold, add_opt,
  merge_operand, merge, merge_value, merge_operands, finish, format_counter_float,
}

-- The sum of two integers, of any size.
infixl 60 ◌+ℤ◌
abbrev pub ◌+ℤ◌ : ℤ → ℤ → ℤ
a +ℤ b =
    let up = pos_part a + pos_part b in
    let down = neg_part a + neg_part b in
    if ltb up down then negsuc (down - up - 1) else pos (up - down)

abbrev pub size : ℤ → ℕ
size z = pos_part z + neg_part z

abbrev pub sum_from : ℤ → List ℤ → ℤ
sum_from c [] = c
sum_from c (d ∷ ds) = sum_from (c +ℤ d) ds

abbrev pub AllI64 : List ℤ → Type 0
AllI64 [] = Unit
AllI64 (d ∷ ds) = IsI64 d × AllI64 ds

-- The operands of integer increments.
abbrev pub deltas : List ℤ → List Bytes
deltas [] = []
deltas (d ∷ ds) = encode_int_delta d ∷ deltas ds

-- `big.Float` of 128 bits on integers: `SetInt64` is exact, and so is `Add` if the integers and their
-- sum are at most 2^127; these floats are finite.
pub record IsExact {V : Type 0} (big : BigFloat V) (exact : ℤ → V) : Type 0 where
  pub of_int : (z : ℤ) → IsI64 z → big.of_int z ≡ exact z
  pub add :
      (a b : ℤ)
      → size a ≤ 2 ^ 127
      → size b ≤ 2 ^ 127
      → size (a +ℤ b) ≤ 2 ^ 127
      → big.add (exact a) (exact b) ≡ exact (a +ℤ b)
  pub finite : (z : ℤ) → size z ≤ 2 ^ 127 → big.is_inf (exact z) ≡ false

size_sum : (a b : ℤ) → size (a +ℤ b) ≤ size a + size b
size_sum a b = ground arith

size-IsI64 : (d : ℤ) → IsI64 d → size d ≤ 2 ^ 63
size-IsI64 (pos n) h = omega (arith, h)
size-IsI64 (negsuc n) h = omega (arith, h)

add-exchange : (a b c : ℤ) → (a +ℤ b) +ℤ c ≡ (a +ℤ c) +ℤ b
add-exchange a b c = ground arith

sum_from-Perm : {ds ds' : List ℤ} → Permᴰ ds ds' → (c : ℤ) → sum_from c ds ≡ sum_from c ds'
sum_from-Perm Permᴰ.nil c = refl
sum_from-Perm (Permᴰ.cons {a = a} {b = b} e q) c = rw e (sum_from-Perm q (c +ℤ b))
sum_from-Perm (Permᴰ.swap {a = a} {b = b} {l = l} e e') c =
    rw (← e, ← e') (ap (λ x. sum_from x l) (add-exchange c a b))
sum_from-Perm (Permᴰ.trans q r) c = sum_from-Perm q c ∙ sum_from-Perm r c

encode_int_delta_lem : (d : ℤ) → encode_int_delta d ≡ merge_tag_int ∷ be_before 8 (to_u64 d) []
unfolding encode_int_delta
encode_int_delta_lem d =
    sym (append-nil (append_be 8 (merge_tag_int ∷ []) (to_u64 d)))
    ∙ append_be-append 8 (to_u64 d) (merge_tag_int ∷ []) []

module _ {V : Type 0} (big : BigFloat V) (exact : ℤ → V) where
  fold_delta :
      (d : ℤ) (m : Counter V)
      → IsI64 d
      → fold big (encode_int_delta d) m ≡ record m { cur = big.add m.cur (big.of_int d) }
  unfolding fold add_opt
  fold_delta d m h =
      let w : ℕ = to_u64 d in
      rw (encode_int_delta_lem d) (
        ground (
          arith,
          length-be_before 8 w [],
          take-be_before 8 w [],
          be_value-be_before 8 w (to_u64-lt d),
          of_u64-to_u64 d h,
        ))

  increments_sum :
      (ds : List ℤ) (c e : ℤ) (base : Bytes)
      → IsExact big exact
      → AllI64 ds
      → size c + 2 ^ 63 * length ds ≤ 2 ^ 127
      → merge_operands big
          (deltas ds)
          (counting (record { expire_at = e; cur = exact c; base = base }))
        ≡ counting (record { expire_at = e; cur = exact (sum_from c ds); base = base })
  unfolding merge_operands merge_operand
  increments_sum [] c e base ex h small = refl
  increments_sum (d ∷ ds) c e base ex (hd, h) small =
      let m : Counter V = record { expire_at = e; cur = exact c; base = base } in
      let below = size-IsI64 d hd in
      let grown = size_sum c d in
      let add =
        ex.add c d (omega (arith, small)) (omega (arith, below))
          (omega (arith, small, below, grown)) in
      let moved : fold big (encode_int_delta d) m ≡ record m { cur = exact (c +ℤ d) } =
        fold_delta d m hd
        ∙ ap (λ v. record m { cur = v }) (ap (big.add (exact c)) (ex.of_int d hd) ∙ add) in
      ap (λ x. merge_operands big (deltas ds) (counting x)) moved
      ∙ increments_sum ds (c +ℤ d) e base ex h (omega (arith, small, below, grown))

  size-sum_from :
      (ds : List ℤ) (c : ℤ)
      → AllI64 ds
      → size c + 2 ^ 63 * length ds ≤ 2 ^ 127
      → size (sum_from c ds) ≤ 2 ^ 127
  size-sum_from [] c h small = omega (arith, small)
  size-sum_from (d ∷ ds) c (hd, h) small =
      let below = size-IsI64 d hd in
      size-sum_from ds (c +ℤ d) h (omega (arith, small, below, size_sum c d))

  counter_base :
      (e c : ℤ) (payload : Bytes)
      → IsI64 e
      → 0 < length payload
      → big.parse payload ≡ some (exact c)
      → merge big (encode_value type_string e payload)
        ≡ counting
            (record { expire_at = e; cur = exact c; base = encode_value type_string e payload })
  unfolding merge merge_value
  counter_base e c payload he some_text number =
      let d =
        rw (encode_value_lem type_string e payload) at
          (decode_value-encode_value type_string e payload he) in
      rw (encode_value_lem type_string e payload) (ground (arith, d, number))

  finish_finite :
      (e : ℤ) (v : V) (base : Bytes)
      → big.is_inf v ≡ false
      → finish big (counting (record { expire_at = e; cur = v; base = base }))
        ≡ encode_value type_string e (format_counter_float big v)
  unfolding finish
  finish_finite e v base h = ground (arith, h)

  -- On a string that reads as the `int64` `c`, fewer than 2^63 integer increments, in whatever order they
  -- are merged, leave a string of the same expiry: the format of the float of `c` and all of them summed up,
  -- although that sum may be no `int64`. It holds for floats that are exact on integers up to 2^127.
  pub increments_finish :
      (ds ds' : List ℤ) (c e : ℤ) (payload : Bytes)
      → IsExact big exact
      → IsI64 c
      → IsI64 e
      → 0 < length payload
      → big.parse payload ≡ some (exact c)
      → AllI64 ds
      → length ds < 2 ^ 63
      → Permᴰ ds ds'
      → finish big (merge_operands big (deltas ds) (merge big (encode_value type_string e payload)))
        ≡ encode_value type_string e (format_counter_float big (exact (sum_from c ds')))
  increments_finish ds ds' c e payload ex hc he some_text number h few p =
      let first = size-IsI64 c hc in
      let small : size c + 2 ^ 63 * length ds ≤ 2 ^ 127 = omega (arith, first, few) in
      let base = encode_value type_string e payload in
      let written : ℤ → Bytes =
        λ z. encode_value type_string e (format_counter_float big (exact z)) in
      let merged = increments_sum ds c e base ex h small in
      let finite = ex.finite (sum_from c ds) (size-sum_from ds c h small) in
      ap (λ m. finish big (merge_operands big (deltas ds) m))
        (counter_base e c payload he some_text number)
      ∙ ap (finish big) merged
      ∙ finish_finite e (exact (sum_from c ds)) base finite
      ∙ ap written (sum_from-Perm p c)
