-- ===== src/Memory/Dict/Random.antt =====
-- dict.go: `RandomKey` finds a key if there is one.
use pebbis.Prelude.{
  ℕ, ◌<◌, ◌≡◌, ◌≢◌, ◌⊎◌, refl, ◌∙◌, arith, true, false, ◌==◌, none, some, [], ◌∷◌, length,
  Option-cases, Bool-cases, inl, inr,
}
use pebbis.Prelude.Bytes.{Bytes}
use pebbis.Prelude.Assoc.{Assoc, find, bytes_eq_refl}
use pebbis.Memory.Entry.{Entry}
use pebbis.Memory.Shards.{DbShards, random_shard, shard_for}
use pebbis.Memory.Shards.Tracking.{is_tracked, get_elem?_in, get_elem?-lt, random_shard_tracked}
use pebbis.Memory.Db.{is_nil}
use pebbis.Memory.Db.Shape.{IsShaped, view, shard_at}
use pebbis.Memory.Dict.{random_key, first_key}

find-nil : (k : Bytes) (m : Assoc Entry) → is_nil m ≡ true → find k m ≡ none
unfolding find
find-nil k [] h = refl
find-nil k (x ∷ m) h = absurd (cc)

first_key_lem :
    (m : Assoc Entry)
    → is_nil m ≡ false
    → (k : Bytes) × (e : Entry) × (first_key m ≡ some k) × (find k m ≡ some e)
unfolding find
first_key_lem [] h = absurd (cc)
first_key_lem ((k, e) ∷ m) h = (k, e, refl, rw (bytes_eq_refl k) refl)

module _ (hash : Bytes → ℕ) where
  no_key :
      (ds : DbShards) (k : Bytes)
      → IsShaped hash ds
      → length ds.non_empty ≡ 0
      → view hash ds k ≡ none
  unfolding find
  no_key ds k s h =
      let (m, at, v) = shard_at hash ds k s in
      let i = shard_for hash k ds in
      let untracked : is_tracked ds i ≡ false = elim (Option-cases (ds.pos i)) [
        | inl e ↦ ground (arith, e)
        | inr (p, e) ↦
            absurd (omega (arith, h, get_elem?-lt ds.non_empty p i (s.linked.slot i p e)))
      ] in
      let nil : is_nil m ≡ true = ground (arith, untracked, s.covers i m at) in v ∙ find-nil k m nil

  -- `RandomKey` of a database of the right shape gives a key that the database holds, whatever is drawn;
  -- it gives none only if no key is held. A draw is below the number of tracked shards, if there is one.
  pub random_key_lem :
      (draw : ℕ) (ds : DbShards)
      → IsShaped hash ds
      → (length ds.non_empty ≢ 0 → draw < length ds.non_empty)
      → ((k : Bytes) × (e : Entry) × (random_key draw ds ≡ some (some k))
          × (view hash ds k ≡ some e))
        ⊎ ((random_key draw ds ≡ some none) × ((k : Bytes) → view hash ds k ≡ none))
  unfolding random_key random_shard view
  random_key_lem draw ds s h = elim (Bool-cases (length ds.non_empty == 0)) [
    | inl none_held ↦
        inr (ground (arith, none_held), λ k. no_key ds k s (ground (arith, none_held)))
    | inr held ↦
        let (i, run, tracked) = random_shard_tracked draw ds s.linked (ground (arith, held, h)) in
        let (m, at) = get_elem?_in ds.shards i (s.within i tracked) in
        let full : is_nil m ≡ false = ground (arith, s.covers i m at, tracked) in
        let (k, e, first, found) = first_key_lem m full in
        let home = s.home i m k e at found in
        inl (k, e, ground (arith, run, at, first), ground (arith, home.0, at, found))
  ]
