-- ===== src/Stream/Commands/Numbers.antt =====
-- cmd_stream.go: the counts and bounds that the commands read.
use pebbis.Prelude.{
  ℕ, zero, suc, ◌∙◌, ap, ◌+◌, ◌-◌, ◌*◌, ◌%◌, ◌^◌, ◌<◌, ◌≡◌, refl, arith, true, false, ◌||◌, Option,
  none, some, [], ◌∷◌, ltb, ◌==◌, if◌then◌else◌, Bool-cases, inl, inr,
}
use native.Mathlib.Nat.{mod-eq_of_lt}
use pebbis.Prelude.Int.{ℤ, pos, negsuc, of_u64}
use pebbis.Prelude.Bytes.{Bytes}
use pebbis.Keys.{digits_value}
use pebbis.Stream.{dash}
use pebbis.Stream.Requests.{wrapping_digits, wrapping_atoi}

abbrev pub wrapped : Option ℕ → Option ℕ
wrapped none = none
wrapped (some v) = some (v % 2 ^ 64)

digit_lem :
    (n m b : ℕ) → n ≡ m % 2 ^ 64 → (n * 10 + (b - 48)) % 2 ^ 64 ≡ (m * 10 + (b - 48)) % 2 ^ 64
digit_lem n m b e = omega arith

digits_lem :
    (s : Bytes) (n m : ℕ) → n ≡ m % 2 ^ 64 → wrapping_digits s n ≡ wrapped (digits_value s m)
unfolding wrapping_digits digits_value
digits_lem [] n m e = rw e refl
digits_lem (b ∷ s) n m e =
    let rest =
      digits_lem s ((n * 10 + (b - 48)) % 2 ^ 64) (m * 10 + (b - 48)) (digit_lem n m b e) in
    elim (Bool-cases (ltb b 48 || ltb 57 b)) [
      | inl out ↦ rw (out) refl
      | inr digit ↦ rw (digit) rest
    ]

not_dash : (b : ℕ) (s : Bytes) (v : ℕ) → digits_value (b ∷ s) 0 ≡ some v → b == dash ≡ false
unfolding digits_value
not_dash b s v e = elim (Bool-cases (b == dash)) [
  | inl d ↦ absurd (ground (arith, e, d))
  | inr n ↦ n
]

abbrev pub minus : ℕ → ℤ
minus zero = pos 0
minus (suc n) = negsuc n

of_u64-minus : (v : ℕ) → v < 2 ^ 63 → of_u64 ((2 ^ 64 - v) % 2 ^ 64) ≡ minus v
unfolding of_u64
of_u64-minus zero h = refl
of_u64-minus (suc v) h = ground arith

ltb_lem : (a b : ℕ) → ltb a b ≡ true → a < b
ltb_lem a b h = ground (arith, h)

lt_64 : (v : ℕ) → v < 2 ^ 63 → v < 2 ^ 64
lt_64 v h = omega arith

of_u64-small : (v : ℕ) → v < 2 ^ 63 → of_u64 v ≡ pos v
unfolding of_u64
of_u64-small v h = ground (arith, h)

-- A number that the stream commands read has the value of its digits below 2^63, and the negated
-- value behind a dash; from 2^63 on it wraps, as an `int` of 64 bits does.
pub wrapping_atoi_lem :
    (b : ℕ) (s : Bytes) (v : ℕ)
    → digits_value (b ∷ s) 0 ≡ some v
    → if ltb v (2 ^ 63)
      then (wrapping_atoi (b ∷ s) ≡ some (pos v)) × (wrapping_atoi (dash ∷ b ∷ s) ≡ some (minus v))
      else wrapping_atoi (b ∷ s) ≡ some (of_u64 (v % 2 ^ 64))
unfolding wrapping_atoi
wrapping_atoi_lem b s v e =
    let digits : wrapping_digits (b ∷ s) 0 ≡ wrapped (digits_value (b ∷ s) 0) =
      digits_lem (b ∷ s) 0 0 refl in
    let read : wrapping_digits (b ∷ s) 0 ≡ some (v % 2 ^ 64) = digits ∙ ap wrapped e in
    elim (Bool-cases (ltb v (2 ^ 63))) [
      | inl h ↦
          let below : v < 2 ^ 63 = ltb_lem v (2 ^ 63) h in
          let small : v % 2 ^ 64 ≡ v = mod-eq_of_lt (lt_64 v below) in
          rw (h) (
            rw (wrapping_atoi, not_dash b s v e, read, small, of_u64-small v below) refl,
            rw (wrapping_atoi, read, small, of_u64-minus v below) refl,
          )
      | inr h ↦ rw (h) (rw (wrapping_atoi, not_dash b s v e, read) refl)
    ]
