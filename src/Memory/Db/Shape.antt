-- ===== src/Memory/Db/Shape.antt =====
-- The shape that the operations keep, what the shards mean as one map, and what it takes for one
-- shard to be replaced.
use pebbis.Prelude.{
  ℕ, zero, suc, ◌+◌, ◌^◌, ◌<◌, ◌≡◌, refl, true, false, not, Option, none, some, List, [], ◌∷◌,
  length, get_elem?, set, arith,
}
use pebbis.Prelude.Bits.{bit_and-le}
use pebbis.Prelude.Bytes.{Bytes}
use pebbis.Prelude.Assoc.{Assoc, find, put, total, IsMap}
use pebbis.Memory.Entry.{Entry}
use pebbis.Memory.Shards.{DbShards, shard_for, track_insert}
use pebbis.Memory.Shards.Tracking.{IsLinked, is_tracked, get_elem?_in}
use pebbis.Memory.Db.{is_nil, total_size}

-- An entry is named by its key, and its size is a `uint32`.
pub record Sound (k : Bytes) (e : Entry) : Type 0 where
  pub named : e.key ≡ k
  pub small : e.size < 2 ^ 32

module _ (hash : Bytes → ℕ) where
  -- Every key hashes to a shard, is held by that shard alone and once, and a shard is tracked
  -- exactly if it holds a key.
  pub record IsShaped (ds : DbShards) : Type 0 where
    pub width : ds.mask < length ds.shards
    pub maps : (i : ℕ) (m : Assoc Entry) → get_elem? ds.shards i ≡ some m → IsMap m
    pub home :
        (i : ℕ) (m : Assoc Entry) (k : Bytes) (e : Entry)
        → get_elem? ds.shards i ≡ some m
        → find k m ≡ some e
        → (shard_for hash k ds ≡ i) × Sound k e
    pub linked : IsLinked ds
    pub covers :
        (i : ℕ) (m : Assoc Entry)
        → get_elem? ds.shards i ≡ some m
        → is_tracked ds i ≡ not (is_nil m)
    pub within : (i : ℕ) → is_tracked ds i ≡ true → i < length ds.shards

  -- The map that the shards stand for.
  unfoldable pub view : DbShards → Bytes → Option Entry
  view ds k = elim (get_elem? ds.shards (shard_for hash k ds)) [ none ↦ none | some m ↦ find k m ]

  pub shard_at :
      (ds : DbShards) (k : Bytes)
      → IsShaped ds
      → (m : Assoc Entry) × (get_elem? ds.shards (shard_for hash k ds) ≡ some m)
        × (view ds k ≡ find k m)
  unfolding shard_for view
  shard_at ds k s =
      let (m, e) =
        get_elem?_in ds.shards (shard_for hash k ds)
          (omega (arith, bit_and-le (hash k) ds.mask, s.width)) in
      (m, e, ground (arith, e))

pub is_nil-put : (k : Bytes) (v : Entry) (m : Assoc Entry) → is_nil (put k v m) ≡ false
unfolding put
is_nil-put k v [] = refl
is_nil-put k v ((j, w) ∷ m) = ground arith

pub find-ne-nil : (k : Bytes) (e : Entry) (m : Assoc Entry) → find k m ≡ some e → is_nil m ≡ false
unfolding find
find-ne-nil k e [] h = cc
find-ne-nil k e (x ∷ m) h = refl

pub total_size-set :
    (shards : List (Assoc Entry)) (i : ℕ) (m m' : Assoc Entry)
    → get_elem? shards i ≡ some m
    → total_size (set shards i m') + total (λ e. e.size) m
      ≡ total_size shards + total (λ e. e.size) m'
unfolding total_size
total_size-set [] i m m' h = absurd (cc)
total_size-set (n ∷ shards) zero m m' h = let same : n ≡ m = ground arith in rw same (omega arith)
total_size-set (n ∷ shards) (suc i) m m' h = omega (arith, total_size-set shards i m m' h)

-- A tracked shard needs no tracking.
pub track_insert_tracked : (i : ℕ) (ds : DbShards) → is_tracked ds i ≡ true → track_insert i ds ≡ ds
unfolding track_insert
track_insert_tracked i ds h = ground arith
