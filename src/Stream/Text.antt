-- ===== src/Stream/Text.antt =====
-- stream.go and cmd_stream.go: the text of a stream ID, and the bounds of a range.
use pebbis.Prelude.{
  ℕ, Bool, not, ◌&&◌, ◌||◌, Option, zero, suc, ◌+◌, ◌/◌, ◌%◌, ◌^◌, ◌≤◌, ◌<◌, ◌≡◌, ◌∙◌, refl, arith,
  true, false, some, none, [], ◌∷◌, ◌++◌, ltb, ◌==◌, Bool-cases, inl, inr, length, append_assoc,
}
use native.Mathlib.Nat.{pow-suc, pow-zero}
use pebbis.Prelude.Bytes.{Bytes, codes, bytes_eq}
use pebbis.Keys.{digits_value}
use pebbis.Stream.{
  StreamId, parse_uint, in_u64, split_dash, parse_stream_id, parse_stream_bound, format_digits,
  format_uint, to_text, less, dash, open_paren, open_bound, closed_bound, contains_dash, max_u64,
}
use pebbis.Stream.Ids.{IsId}

digits_value-format_digits :
    (fuel n : ℕ) (text : Bytes)
    → n < 10 ^ suc fuel
    → digits_value (format_digits (suc fuel) n text) 0 ≡ digits_value text n
unfolding digits_value format_digits
digits_value-format_digits zero n text h = ground (arith, pow-suc 10 0, pow-zero 10)
digits_value-format_digits (suc fuel) n text h =
    let small : n / 10 < 10 ^ suc fuel = omega (arith, pow-suc 10 (suc fuel)) in
    elim (Bool-cases (ltb n 10)) [
      | inl e ↦ rw e (ground arith)
      | inr e ↦
          rw e
            (digits_value-format_digits fuel (n / 10) ((48 + n % 10) ∷ text) small ∙ ground arith)
    ]

abbrev NoDash : Bytes → Type 0
NoDash [] = Unit
NoDash (b ∷ s) = (b == dash ≡ false) × NoDash s

format_digits-NoDash :
    (fuel n : ℕ) (text : Bytes) → NoDash text → NoDash (format_digits fuel n text)
unfolding format_digits
format_digits-NoDash zero n text h = h
format_digits-NoDash (suc fuel) n text h = elim (Bool-cases (ltb n 10)) [
  | inl e ↦ rw e (ground arith, h)
  | inr e ↦ rw e (format_digits-NoDash fuel (n / 10) ((48 + n % 10) ∷ text) (ground arith, h))
]

length-format_digits :
    (fuel n : ℕ) (text : Bytes) → length text ≤ length (format_digits fuel n text)
unfolding format_digits
length-format_digits zero n text = omega arith
length-format_digits (suc fuel) n text =
    ground (arith, length-format_digits fuel (n / 10) ((48 + n % 10) ∷ text))

format_uint-NoDash : (n : ℕ) → NoDash (format_uint n)
unfolding format_uint
format_uint-NoDash n = format_digits-NoDash 20 n [] tt

format_uint-nonempty : (n : ℕ) → 0 < length (format_uint n)
unfolding format_uint format_digits
format_uint-nonempty n = ground (arith, length-format_digits 19 (n / 10) ((48 + n % 10) ∷ []))

split_dash-append : (s t : Bytes) → NoDash s → split_dash (s ++ dash ∷ t) ≡ some (s, t)
unfolding split_dash
split_dash-append [] t h = refl
split_dash-append (b ∷ s) t h = rw (h.0, split_dash-append s t h.1) refl

parse_uint_lem : (s : Bytes) → 0 < length s → parse_uint s ≡ in_u64 (digits_value s 0)
unfolding parse_uint
parse_uint_lem [] h = absurd (omega arith)
parse_uint_lem (b ∷ s) h = refl

format_value : (n : ℕ) → n < 2 ^ 64 → digits_value (format_uint n) 0 ≡ some n
unfolding format_uint digits_value
format_value n h = digits_value-format_digits 19 n [] (omega arith)

-- A `uint64` is read back from its decimal digits.
parse_uint-format_uint : (n : ℕ) → n < 2 ^ 64 → parse_uint (format_uint n) ≡ some n
unfolding digits_value
parse_uint-format_uint n h =
    let value = format_value n h in
    parse_uint_lem (format_uint n) (format_uint-nonempty n) ∙ rw value (ground arith)

to_text_lem : (id : StreamId) → to_text id ≡ format_uint id.ms ++ dash ∷ format_uint id.seq
unfolding to_text
to_text_lem id = simp append_assoc

parse_both :
    (s before behind : Bytes) (ms seq : ℕ)
    → split_dash s ≡ some (before, behind)
    → parse_uint before ≡ some ms
    → parse_uint behind ≡ some seq
    → parse_stream_id s ≡ some (record { ms = ms; seq = seq })
unfolding parse_stream_id
parse_both s before behind ms seq split e f = rw (parse_stream_id, split, e, f) refl

-- An ID of two 64-bit numbers is read back from its text.
pub parse_stream_id-to_text : (id : StreamId) → IsId id → parse_stream_id (to_text id) ≡ some id
parse_stream_id-to_text id h =
    let split =
      split_dash-append (format_uint id.ms) (format_uint id.seq) (format_uint-NoDash id.ms) in
    rw (to_text_lem id) (
      parse_both _ (format_uint id.ms) (format_uint id.seq) id.ms id.seq split
        (parse_uint-format_uint id.ms h.0) (parse_uint-format_uint id.seq h.1))

-- An ID never reads as one of the two ends.
parse_ends :
    (s : Bytes) (id : StreamId)
    → parse_stream_id s ≡ some id
    → (bytes_eq s (codes "-") ≡ false) × (bytes_eq s (codes "+") ≡ false)
unfolding parse_stream_id split_dash parse_uint bytes_eq digits_value
parse_ends [] id h = absurd (cc)
parse_ends (b ∷ []) id h = ground arith
parse_ends (b ∷ c ∷ s) id h = ground arith

parse_stream_bound-open :
    (s : Bytes) (as_start : Bool) (id : StreamId)
    → parse_stream_id s ≡ some id
    → parse_stream_bound (open_paren ∷ s) as_start ≡ open_bound as_start id
unfolding parse_stream_bound
parse_stream_bound-open s as_start id h =
    let (low, high) = parse_ends s id h in rw (low, high, h) refl

no_paren :
    (b : ℕ) (s : Bytes) (id : StreamId)
    → parse_stream_id (b ∷ s) ≡ some id
    → b == open_paren ≡ true
    → ⊥
unfolding parse_stream_id split_dash parse_uint digits_value
no_paren b s id h e = ground arith

-- An ID does not start with the parenthesis.
parse_stream_bound-closed :
    (s : Bytes) (as_start : Bool) (id : StreamId)
    → parse_stream_id s ≡ some id
    → parse_stream_bound s as_start ≡ closed_bound as_start s id
unfolding parse_stream_bound
parse_stream_bound-closed [] as_start id h =
    let (low, high) = parse_ends [] id h in rw (low, high, h) refl
parse_stream_bound-closed (b ∷ s) as_start id h =
    let (low, high) = parse_ends (b ∷ s) id h in
    elim (Bool-cases (b == open_paren)) [
      | inl e ↦ absurd (no_paren b s id h e)
      | inr e ↦ rw (e, low, high, h) refl
    ]

-- What a bound lets through: nothing if it is an error.
abbrev pub starts_at : Option StreamId → StreamId → Bool
starts_at none o = false
starts_at (some b) o = not (less o b)

abbrev pub ends_at : Option StreamId → StreamId → Bool
ends_at none o = false
ends_at (some b) o = not (less b o)

-- The bounds that XRANGE reads from the text of an ID, for every ID but the greatest: behind a
-- parenthesis, those strictly above or below it; without one, those that are not below it, and
-- those that are not above it or, if the text has no sequence part, share its milliseconds. So
-- (0-0 as a start is no error: it is the bound of the IDs above 0-0.
pub parse_stream_bound_lem :
    (s : Bytes) (id o : StreamId)
    → parse_stream_id s ≡ some id
    → IsId id
    → IsId o
    → id.ms == max_u64 && id.seq == max_u64 ≡ false
    → (starts_at (parse_stream_bound (open_paren ∷ s) true) o ≡ less id o)
      × ((ends_at (parse_stream_bound (open_paren ∷ s) false) o ≡ less o id)
          × ((starts_at (parse_stream_bound s true) o ≡ not (less o id))
              × (ends_at (parse_stream_bound s false) o
                  ≡ not (less id o) || (not (contains_dash s) && o.ms == id.ms))))
unfolding less
parse_stream_bound_lem s id o h hid ho small =
    rw
      (
        parse_stream_bound-open s true id h,
        parse_stream_bound-open s false id h,
        parse_stream_bound-closed s true id h,
        parse_stream_bound-closed s false id h,
      )
      (ground arith, (ground arith, (ground arith, ground arith)))
