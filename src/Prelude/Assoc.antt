-- ===== src/Prelude/Assoc.antt =====
-- Go's `map[string]V`, where only the entries matter: a list of entries with different keys.
use pebbis.Prelude.{
  ℕ, ◌+◌, ◌≡◌, refl, arith, List, [], ◌∷◌, ◌++◌, true, Option, none, some, if◌then◌else◌,
  Bool-cases, inl, inr,
}
use pebbis.Prelude.Bytes.{Bytes, bytes_eq, bytes_eq_iff}

abbrev pub Assoc {ℓ} : Type ℓ → Type ℓ
Assoc V = List (Bytes × V)

pub bytes_eq_refl : (k : Bytes) → bytes_eq k k ≡ true
bytes_eq_refl k = (bytes_eq_iff k k).1 refl

module _ {ℓ} {V : Type ℓ} where
  -- `v, ok := m[k]`
  unfoldable pub find : Bytes → Assoc V → Option V
  find k [] = none
  find k ((j, v) ∷ m) = if bytes_eq j k then some v else find k m

  -- `m[k] = v`
  unfoldable pub put : Bytes → V → Assoc V → Assoc V
  put k v [] = (k, v) ∷ []
  put k v ((j, w) ∷ m) = if bytes_eq j k then (k, v) ∷ m else (j, w) ∷ put k v m

  -- `delete(m, k)`
  unfoldable pub remove : Bytes → Assoc V → Assoc V
  remove k [] = []
  remove k ((j, w) ∷ m) = if bytes_eq j k then m else (j, w) ∷ remove k m

  -- No key has two entries.
  abbrev pub IsMap : Assoc V → Type ℓ
  IsMap [] = Unit
  IsMap ((j, w) ∷ m) = (find j m ≡ none) × IsMap m

  pub find-put :
      (j k : Bytes) (v : V) (m : Assoc V)
      → find j (put k v m) ≡ (if bytes_eq k j then some v else find j m)
  unfolding find put
  find-put j k v [] = refl
  find-put j k v ((i, w) ∷ m) =
      ground (arith, bytes_eq_iff i k, bytes_eq_iff i j, bytes_eq_iff k j, find-put j k v m)

  pub find-remove :
      (j k : Bytes) (m : Assoc V)
      → IsMap m
      → find j (remove k m) ≡ (if bytes_eq k j then none else find j m)
  unfolding find remove
  find-remove j k [] h = ground arith
  find-remove j k ((i, w) ∷ m) h =
      ground (arith, bytes_eq_iff i k, bytes_eq_iff i j, bytes_eq_iff k j, find-remove j k m)

  pub put-IsMap : (k : Bytes) (v : V) (m : Assoc V) → IsMap m → IsMap (put k v m)
  unfolding find put
  put-IsMap k v [] h = (refl, tt)
  put-IsMap k v ((i, w) ∷ m) h = elim (Bool-cases (bytes_eq i k)) [
    | inl e ↦ rw e (let same : i ≡ k = (bytes_eq_iff i k).0 e in (rw (← same) h.0, h.1))
    | inr n ↦
        rw n (
          ground (arith, find-put i k v m, bytes_eq_iff i k, bytes_eq_iff k i),
          put-IsMap k v m h.1,
        )
  ]

  pub remove-IsMap : (k : Bytes) (m : Assoc V) → IsMap m → IsMap (remove k m)
  unfolding remove
  remove-IsMap k [] h = tt
  remove-IsMap k ((i, w) ∷ m) h = elim (Bool-cases (bytes_eq i k)) [
    | inl e ↦ rw e h.1
    | inr n ↦ rw n (ground (arith, find-remove i k m h.1), remove-IsMap k m h.1)
  ]

  -- A new key comes last.
  pub put_new : (k : Bytes) (v : V) (m : Assoc V) → find k m ≡ none → put k v m ≡ m ++ (k, v) ∷ []
  unfolding find put
  put_new k v [] h = refl
  put_new k v ((i, w) ∷ m) h = ground (arith, put_new k v m)

  -- The sum of a measure over the entries.
  unfoldable pub total : (V → ℕ) → Assoc V → ℕ
  total f [] = 0
  total f ((j, w) ∷ m) = f w + total f m

  abbrev pub measure : (V → ℕ) → Option V → ℕ
  measure f none = 0
  measure f (some v) = f v

  pub total-put :
      (f : V → ℕ) (k : Bytes) (v : V) (m : Assoc V)
      → total f (put k v m) + measure f (find k m) ≡ total f m + f v
  unfolding total put find
  total-put f k v [] = omega arith
  total-put f k v ((i, w) ∷ m) = ground (arith, total-put f k v m)

  pub total-remove :
      (f : V → ℕ) (k : Bytes) (m : Assoc V)
      → total f (remove k m) + measure f (find k m) ≡ total f m
  unfolding total remove find
  total-remove f k [] = omega arith
  total-remove f k ((i, w) ∷ m) = ground (arith, total-remove f k m)
