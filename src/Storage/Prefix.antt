-- ===== src/Storage/Prefix.antt =====
-- data.go: `prefixEnd`, the upper bound of a scan over the keys with a given prefix.
use pebbis.Prelude.{
  ◌+◌, ◌<◌, ◌≡◌, refl, arith, Bool, true, false, ◌&&◌, Option, none, some, [], ◌∷◌, ltb, ◌==◌,
  if◌then◌else◌, Option-cases, Bool-cases, inl, inr,
}
use pebbis.Prelude.Bytes.{Bytes, bytes_lt}

-- `bytes.HasPrefix(k, prefix)`.
abbrev pub has_prefix : Bytes → Bytes → Bool
has_prefix k [] = true
has_prefix [] (p ∷ prefix) = false
has_prefix (b ∷ k) (p ∷ prefix) = b == p && has_prefix k prefix

-- The loop goes from the last byte to the first; here it is the way back of the recursion. `none`
-- is the nil slice, which is no bound.
unfoldable pub prefix_end : Bytes → Option Bytes
prefix_end [] = none
prefix_end (b ∷ prefix) = elim (prefix_end prefix) [
  | some end ↦ some (b ∷ end)
  | none ↦ if ltb b 0xff then some ((b + 1) ∷ []) else none
]

abbrev pub below : Bytes → Option Bytes → Bool
below k none = true
below k (some end) = bytes_lt k end

abbrev pub IsBytes : Bytes → Type 0
IsBytes [] = Unit
IsBytes (b ∷ k) = (b < 256) × IsBytes k

pub bytes_lt-nil : (k : Bytes) → bytes_lt k [] ≡ false
bytes_lt-nil [] = refl
bytes_lt-nil (b ∷ k) = refl

-- The keys that are not below the prefix and are below its end are exactly those that have the
-- prefix, for keys and prefixes of bytes.
pub has_prefix-range :
    (k prefix : Bytes)
    → IsBytes k
    → IsBytes prefix
    → (if bytes_lt k prefix then false else below k (prefix_end prefix)) ≡ has_prefix k prefix
unfolding prefix_end
has_prefix-range [] [] hk hp = refl
has_prefix-range (b ∷ k) [] hk hp = refl
has_prefix-range [] (p ∷ prefix) hk hp = refl
has_prefix-range (b ∷ k) (p ∷ prefix) hk hp =
    let ih = has_prefix-range k prefix hk.1 hp.1 in
    elim (Option-cases (prefix_end prefix)) [
      | inr (end, e) ↦ let ih' = rw e at ih in rw e (ground (arith, ih'))
      | inl e ↦
          let ih' = rw e at ih in
          elim (Bool-cases (ltb p 0xff)) [
            | inl more ↦ rw (e, more) (ground (arith, ih', bytes_lt-nil k))
            | inr full ↦ rw (e, full) (ground (arith, ih', bytes_lt-nil k))
          ]
    ]
