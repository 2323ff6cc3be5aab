-- ===== src/Memory/Db/Updates.antt =====
-- dict.go: `SetExpiry`, `Touch` and `SetCounter` change an entry in its place.
use pebbis.Prelude.{
  ℕ, ◌≡◌, refl, ◌∙◌, Bool, true, Option, none, some, [], get_elem?, arith, Option-cases, Bool-cases,
  inl, inr,
}
use pebbis.Prelude.Int.{ℤ}
use pebbis.Prelude.Bytes.{Bytes}
use pebbis.Prelude.Assoc.{Assoc, find, put}
use pebbis.Memory.Entry.{
  Entry, expired, set_expiry, touch, decay, incr_freq, new_entry, entry_mem, bump_version,
  lfu_init_val, pack,
}
use pebbis.Memory.Shards.{shard_for, track_insert}
use pebbis.Memory.Db.{Db, with_shard, plus, set_expiry_of, touch_key, set_counter}
use pebbis.Memory.Db.Shape.{Sound, IsShaped, view, shard_at}
use pebbis.Memory.Db.Replace.{put-Replaced}
use pebbis.Memory.Db.Writes.{Writes, put-Writes, overwrite-Replaced, version_after, lru_after}
use pebbis.Memory.Clock.{masked}
use pebbis.Memory.Entry.Freq.{FitsDecay, or_same, decay_runs, decay-kept}
use pebbis.Memory.Db.Removes.{live, unchanged-Writes, drop_entry-Writes}

abbrev pub map_entry : (Entry → Entry) → Option Entry → Option Entry
map_entry f none = none
map_entry f (some e) = some (f e)

-- The entry that `Touch` leaves: decayed first, then of the time, then counted.
abbrev pub touched : ℕ → ℤ → (ℕ → Bool) → Entry → Entry
touched clock decay_minutes draw e =
    incr_freq draw (touch clock (or_same e (decay clock decay_minutes e)))

touched-kept :
    (clock : ℕ) (minutes : ℤ) (draw : ℕ → Bool) (e : Entry)
    → ((touched clock minutes draw e).key ≡ e.key) × ((touched clock minutes draw e).size ≡ e.size)
unfolding incr_freq touch
touched-kept clock minutes draw e = ground (arith, decay-kept clock minutes e)

module _ (hash : Bytes → ℕ) where
  rewritten-Writes :
      (k : Bytes) (e' e : Entry) (m : Assoc Entry) (d : Db)
      → IsShaped hash d.ds
      → get_elem? d.ds.shards (shard_for hash k d.ds) ≡ some m
      → find k m ≡ some e
      → e'.key ≡ e.key
      → e'.size ≡ e.size
      → Writes hash k
          (some e')
          d
          (record d { ds = with_shard (shard_for hash k d.ds) (put k e' m) d.ds })
  rewritten-Writes k e' e m d s at found named sized =
      let i = shard_for hash k d.ds in
      let was : Sound k e = (s.home i m k e at found).1 in
      put-Writes hash k e' m d (record d { ds = with_shard i (put k e' m) d.ds }) s at
        (record { named = named ∙ was.named; small = omega (arith, was.small, sized) })
        (overwrite-Replaced hash k e' e m d.ds s at found) (rw found (omega (arith, sized)))

  -- In a database of the right shape `SetExpiry` does not panic. It gives the entry its new
  -- expiry and leaves the rest of it if it is there and its time is not over; an entry whose
  -- time is over is dropped. It returns what it leaves under the key. Every other key keeps its
  -- entry, the shape is kept, and the counter of bytes moves as the sum of the sizes does.
  pub set_expiry_of-Writes :
      (now : ℤ) (key : Bytes) (expire_at : ℤ) (d : Db)
      → IsShaped hash d.ds
      → (d' : Db) × (set_expiry_of hash now key expire_at d
          ≡ some (
            map_entry (λ e. record e { expire_at = expire_at }) (live now (view hash d.ds key)),
            d',
          ))
        × Writes hash key
            (map_entry (λ e. record e { expire_at = expire_at }) (live now (view hash d.ds key)))
            d
            d'
  unfolding set_expiry_of set_expiry
  set_expiry_of-Writes now key expire_at d s =
      let (m, at, v) = shard_at hash d.ds key s in
      let i = shard_for hash key d.ds in
      elim (Option-cases (find key m)) [
        | inl absent ↦ (
          d,
          ground (arith, at, absent, v),
          rw (v, absent) (unchanged-Writes hash key none d s (ground (arith, v, absent))),
        )
        | inr (e, found) ↦ elim (Bool-cases (expired e now)) [
          | inl over ↦
              let (d', run, w) = drop_entry-Writes hash key e m d s at found in
              (d', ground (arith, at, found, v, run, over), rw (v, found, over) w)
          | inr good ↦
              let e' : Entry = record e { expire_at = expire_at } in
              (
                record d { ds = with_shard i (put key e' m) d.ds },
                ground (arith, at, found, v, good),
                rw (v, found, good) (rewritten-Writes key e' e m d s at found refl refl),
              )
        ]
      ]

  -- In a database of the right shape, and with minutes 60 times which is an `int`, `Touch` does not panic, and rewrites the entry under the key if there
  -- is one, expired or not: it is decayed, then stamped with the clock, then counted. Every other
  -- key keeps its entry, the shape is kept, and the counter of bytes moves as the sum of the sizes does.
  pub touch_key-Writes :
      (clock : ℕ) (decay_minutes : ℤ) (draw : ℕ → Bool) (key : Bytes) (d : Db)
      → FitsDecay decay_minutes
      → IsShaped hash d.ds
      → (d' : Db) × (touch_key hash clock decay_minutes draw key d ≡ some d')
        × Writes hash key (map_entry (touched clock decay_minutes draw) (view hash d.ds key)) d d'
  unfolding touch_key
  touch_key-Writes clock decay_minutes draw key d fits s =
      let (m, at, v) = shard_at hash d.ds key s in
      let i = shard_for hash key d.ds in
      elim (Option-cases (find key m)) [
        | inl absent ↦ (
          d,
          ground (arith, at, absent),
          rw (v, absent) (unchanged-Writes hash key none d s (v ∙ absent)),
        )
        | inr (e, found) ↦
            let e' : Entry = touched clock decay_minutes draw e in
            let kept = touched-kept clock decay_minutes draw e in
            (
              record d { ds = with_shard i (put key e' m) d.ds },
              ground (arith, at, found, decay_runs clock decay_minutes e fits),
              rw (v, found) (rewritten-Writes key e' e m d s at found kept.0 kept.1),
            )
      ]

  -- In a database of the right shape `SetCounter` does not panic and leaves a counter of the expiry given
  -- under the key, with the next version and the access word of the entry that was there, or else version
  -- 1 and the initial access word. Every other
  -- key keeps its entry, the shape is kept, and the counter of bytes moves as the sum of the sizes does.
  pub set_counter-Writes :
      (inline_max clock : ℕ) (key : Bytes) (expire_at : ℤ) (d : Db)
      → IsShaped hash d.ds
      → (e : Entry) × (d' : Db) × (set_counter hash inline_max clock key expire_at d ≡ some d')
        × Writes hash key (some e) d d'
        × (e.counter ≡ true)
        × (e.expire_at ≡ expire_at)
        × (e.version ≡ version_after (view hash d.ds key))
        × (e.lru ≡ lru_after clock (view hash d.ds key))
  unfolding set_counter new_entry entry_mem bump_version
  set_counter-Writes inline_max clock key expire_at d s =
      let (m, at, v) = shard_at hash d.ds key s in
      let i = shard_for hash key d.ds in
      let fresh = new_entry key 0 expire_at [] inline_max clock in
      elim (Option-cases (find key m)) [
        | inr (old, found) ↦
            let e : Entry = record old {
              counter = true;
              expire_at = expire_at;
              version = (bump_version old).version;
            } in
            (
              e,
              record d { ds = with_shard i (put key e m) d.ds },
              ground (arith, at, found),
              rewritten-Writes key e old m d s at found refl refl,
              refl,
              refl,
              ground (arith, v, found),
              ground (arith, v, found),
            )
        | inl absent ↦
            let e : Entry = record fresh {
              counter = true;
              lru = pack lfu_init_val (masked clock);
              version = 1;
            } in
            let d' : Db = record {
              ds = track_insert i (with_shard i (put key e m) d.ds);
              used = plus d.used e.size;
            } in
            (
              e,
              d',
              ground (arith, at, absent),
              put-Writes hash key e m d d' s at (record { named = refl; small = omega arith })
                  (put-Replaced hash d.ds i key e m s.linked) (rw absent (omega arith)),
              refl,
              refl,
              ground (arith, v, absent),
              ground (arith, v, absent),
            )
      ]
