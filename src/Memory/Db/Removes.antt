-- ===== src/Memory/Db/Removes.antt =====
-- dict.go: `Delete`, `DeleteExpired` and `Lookup` take an entry out of the map.
use pebbis.Prelude.{
  ℕ, ◌≡◌, refl, ◌∙◌, ap, Bool, true, false, Option, none, some, if◌then◌else◌, get_elem?, arith,
  Option-cases, Bool-cases, inl, inr,
}
use pebbis.Prelude.Int.{ℤ}
use pebbis.Prelude.Bytes.{Bytes, bytes_eq_iff}
use pebbis.Prelude.Assoc.{Assoc, find, remove, measure, total-remove, find-remove}
use pebbis.Memory.Entry.{Entry, expired}
use pebbis.Memory.Shards.{shard_for}
use pebbis.Memory.Shards.Tracking.{get_elem?-lt, is_tracked}
use pebbis.Memory.Db.{Db, total_size, minus, drop_entry, delete, lookup, delete_expired}
use pebbis.Memory.Db.Shape.{Sound, IsShaped, view, shard_at, find-ne-nil, total_size-set}
use pebbis.Memory.Db.Replace.{Replaced-IsShaped, Replaced-view, Belongs-remove, remove-Replaced}
use pebbis.Memory.Db.Writes.{Writes}

-- The entry, unless its time is over.
abbrev pub live : ℤ → Option Entry → Option Entry
live now none = none
live now (some e) = if expired e now then none else some e

-- Whether there is an entry whose time is over.
abbrev pub is_stale : ℤ → Option Entry → Bool
is_stale now none = false
is_stale now (some e) = expired e now

module _ (hash : Bytes → ℕ) where
  pub unchanged-Writes :
      (k : Bytes) (v : Option Entry) (d : Db)
      → IsShaped hash d.ds
      → view hash d.ds k ≡ v
      → Writes hash k v d d
  unchanged-Writes k v d s h = record {
    shaped = s;
    reads = λ q. ground (arith, bytes_eq_iff k q);
    counts = refl;
  }

  pub drop_entry-Writes :
      (k : Bytes) (e : Entry) (m : Assoc Entry) (d : Db)
      → IsShaped hash d.ds
      → get_elem? d.ds.shards (shard_for hash k d.ds) ≡ some m
      → find k m ≡ some e
      → (d' : Db) × (drop_entry (shard_for hash k d.ds) k e m d ≡ some d') × Writes hash k none d d'
  unfolding drop_entry
  drop_entry-Writes k e m d s at found =
      let i = shard_for hash k d.ds in
      let tracked : is_tracked d.ds i ≡ true =
        ground (arith, s.covers i m at, find-ne-nil k e m found) in
      let (ds', run, r) = remove-Replaced hash d.ds i (remove k m) s.linked tracked in
      let d' : Db = record { ds = ds'; used = minus d.used e.size } in
      let was : Sound k e = (s.home i m k e at found).1 in
      (
        d',
        ground (arith, run),
        record {
          shaped =
              Replaced-IsShaped hash i (remove k m) d.ds ds' s (get_elem?-lt d.ds.shards i m at)
                (Belongs-remove hash d.ds k m s at) r;
          reads = λ q.
              let (n, at', v) = shard_at hash d.ds q s in
              Replaced-view hash i (remove k m) d.ds ds' q (get_elem?-lt d.ds.shards i m at) r
              ∙ ground (arith, find-remove q k m (s.maps i m at), bytes_eq_iff k q, at, at', v);
          counts = omega (
            arith,
            was.small,
            total_size-set d.ds.shards i m (remove k m) at,
            total-remove (λ (x : Entry). x.size) k m,
            ap (measure (λ (x : Entry). x.size)) found,
            ap total_size r.shards,
          );
        },
      )

  -- In a database of the right shape `Delete` does not panic, returns the entry under the key, if any,
  -- and leaves none there. Every other
  -- key keeps its entry, the shape is kept, and the counter of bytes moves as the sum of the sizes does.
  pub delete-Writes :
      (key : Bytes) (d : Db)
      → IsShaped hash d.ds
      → (d' : Db) × (delete hash key d ≡ some (view hash d.ds key, d')) × Writes hash key none d d'
  unfolding delete
  delete-Writes key d s =
      let (m, at, v) = shard_at hash d.ds key s in
      elim (Option-cases (find key m)) [
        | inl absent ↦
            (d, ground (arith, at, absent, v), unchanged-Writes key none d s (v ∙ absent))
        | inr (e, found) ↦
            let (d', run, w) = drop_entry-Writes key e m d s at found in
            (d', ground (arith, at, found, v, run), w)
      ]

  -- In a database of the right shape `Lookup` does not panic. It returns the entry exactly if it is there
  -- and its time is not over, and an entry whose time is over is dropped. Every other
  -- key keeps its entry, the shape is kept, and the counter of bytes moves as the sum of the sizes does.
  pub lookup-Writes :
      (now : ℤ) (key : Bytes) (d : Db)
      → IsShaped hash d.ds
      → (d' : Db) × (lookup hash now key d ≡ some (live now (view hash d.ds key), d'))
        × Writes hash key (live now (view hash d.ds key)) d d'
  unfolding lookup
  lookup-Writes now key d s =
      let (m, at, v) = shard_at hash d.ds key s in
      elim (Option-cases (find key m)) [
        | inl absent ↦ (
          d,
          ground (arith, at, absent, v),
          unchanged-Writes key (live now (view hash d.ds key)) d s (ground (arith, v, absent)),
        )
        | inr (e, found) ↦ elim (Bool-cases (expired e now)) [
          | inl over ↦
              let (d', run, w) = delete-Writes key d s in
              (d', ground (arith, at, found, v, run, over), rw (v, found, over) w)
          | inr good ↦ (
            d,
            ground (arith, at, found, v, good),
            unchanged-Writes key (live now (view hash d.ds key)) d s
                (ground (arith, v, found, good)),
          )
        ]
      ]

  -- In a database of the right shape `DeleteExpired` does not panic, drops the entry under the key exactly
  -- if its time is over, and reports whether it did. Every other
  -- key keeps its entry, the shape is kept, and the counter of bytes moves as the sum of the sizes does.
  pub delete_expired-Writes :
      (key : Bytes) (now : ℤ) (d : Db)
      → IsShaped hash d.ds
      → (d' : Db) × (delete_expired hash key now d ≡ some (is_stale now (view hash d.ds key), d'))
        × Writes hash key (live now (view hash d.ds key)) d d'
  unfolding delete_expired
  delete_expired-Writes key now d s =
      let (m, at, v) = shard_at hash d.ds key s in
      elim (Option-cases (find key m)) [
        | inl absent ↦ (
          d,
          ground (arith, at, absent, v),
          unchanged-Writes key (live now (view hash d.ds key)) d s (ground (arith, v, absent)),
        )
        | inr (e, found) ↦ elim (Bool-cases (expired e now)) [
          | inl over ↦
              let (d', run, w) = drop_entry-Writes key e m d s at found in
              (d', ground (arith, at, found, v, run, over), rw (v, found, over) w)
          | inr good ↦ (
            d,
            ground (arith, at, found, v, good),
            unchanged-Writes key (live now (view hash d.ds key)) d s
                (ground (arith, v, found, good)),
          )
        ]
      ]
