-- ===== src/Memory/Db/Writes.antt =====
-- dict.go: `Set`, `SetCounter`, `SetExpiry` and `Touch` write one entry of the map and leave the rest.
use pebbis.Prelude.{
  ℕ, ◌+◌, ◌%◌, ◌^◌, ◌≡◌, refl, ◌∙◌, ap, true, Option, none, some, if◌then◌else◌, get_elem?, arith,
  Option-cases, inl, inr,
}
use pebbis.Prelude.Int.{ℤ}
use pebbis.Prelude.Bytes.{Bytes, bytes_eq, bytes_eq_iff}
use pebbis.Prelude.Assoc.{Assoc, find, put, measure, total-put, find-put}
use pebbis.Memory.Clock.{masked}
use pebbis.Memory.Entry.{Entry, new_entry, entry_mem, bump_version, lfu_init_val, pack}
use pebbis.Memory.Shards.{DbShards, shard_for, track_insert}
use pebbis.Memory.Shards.Tracking.{get_elem?-lt, is_tracked}
use pebbis.Memory.Db.{Db, with_shard, total_size, plus, minus, set_key}
use pebbis.Memory.Db.Shape.{
  Sound, IsShaped, view, shard_at, find-ne-nil, total_size-set, track_insert_tracked,
}
use pebbis.Memory.Db.Replace.{Replaced, Replaced-IsShaped, Replaced-view, Belongs-put, put-Replaced}

-- What an entry keeps when its key is overwritten.
abbrev pub version_after : Option Entry → ℕ
version_after none = 1
version_after (some old) = (old.version + 1) % 2 ^ 64

abbrev pub lru_after : ℕ → Option Entry → ℕ
lru_after clock none = pack lfu_init_val (masked clock)
lru_after clock (some old) = old.lru

module _ (hash : Bytes → ℕ) where
  -- The map of `d'` is that of `d` with `v` under the key `k`. The shape is kept, and the counter of
  -- bytes moves by what the sum of the sizes moves.
  pub record Writes (k : Bytes) (v : Option Entry) (d d' : Db) : Type 0 where
    pub shaped : IsShaped hash d'.ds
    pub reads : (q : Bytes) → view hash d'.ds q ≡ (if bytes_eq k q then v else view hash d.ds q)
    pub counts :
        (d'.used + total_size d.ds.shards) % 2 ^ 64 ≡ (d.used + total_size d'.ds.shards) % 2 ^ 64

  pub put-Writes :
      (k : Bytes) (e : Entry) (m : Assoc Entry) (d d' : Db)
      → IsShaped hash d.ds
      → get_elem? d.ds.shards (shard_for hash k d.ds) ≡ some m
      → Sound k e
      → Replaced hash (shard_for hash k d.ds) (put k e m) d.ds d'.ds
      → (d'.used + measure (λ x. x.size) (find k m)) % 2 ^ 64 ≡ (d.used + e.size) % 2 ^ 64
      → Writes k (some e) d d'
  put-Writes k e m d d' s at sound r used =
      let i = shard_for hash k d.ds in
      record {
        shaped =
            Replaced-IsShaped hash i (put k e m) d.ds d'.ds s (get_elem?-lt d.ds.shards i m at)
              (Belongs-put hash d.ds k e m s at sound) r;
        reads = λ q.
            let (n, at', v) = shard_at hash d.ds q s in
            Replaced-view hash i (put k e m) d.ds d'.ds q (get_elem?-lt d.ds.shards i m at) r
            ∙ ground (arith, find-put q k e m, bytes_eq_iff k q, at, at', v);
        counts = omega (
          arith,
          total_size-set d.ds.shards i m (put k e m) at,
          total-put (λ (x : Entry). x.size) k e m,
          ap total_size r.shards,
        );
      }

  -- A key that is there is overwritten: the shard is tracked already.
  pub overwrite-Replaced :
      (k : Bytes) (e old : Entry) (m : Assoc Entry) (d : DbShards)
      → IsShaped hash d
      → get_elem? d.shards (shard_for hash k d) ≡ some m
      → find k m ≡ some old
      → Replaced hash
          (shard_for hash k d)
          (put k e m)
          d
          (with_shard (shard_for hash k d) (put k e m) d)
  overwrite-Replaced k e old m d s at found =
      let i = shard_for hash k d in
      let tracked : is_tracked (with_shard i (put k e m) d) i ≡ true =
        ground (arith, s.covers i m at, find-ne-nil k old m found) in
      let r = put-Replaced hash d i k e m s.linked in
      let r' = rw (track_insert_tracked i (with_shard i (put k e m) d) tracked) at r in r'

  -- In a database of the right shape `Set` does not panic. It writes the entry it returns, of the type and
  -- the expiry given, with the next version and the access word of the entry that it replaces, or else
  -- version 1 and the initial access word. Every other
  -- key keeps its entry, the shape is kept, and the counter of bytes moves as the sum of the sizes does.
  pub set_key-Writes :
      (inline_max clock : ℕ) (key : Bytes) (typ : ℕ) (expire_at : ℤ) (payload : Bytes) (d : Db)
      → IsShaped hash d.ds
      → (e : Entry) × (d' : Db) × (set_key hash inline_max clock key typ expire_at payload d
          ≡ some (e, d'))
        × Writes key (some e) d d'
        × (e.typ ≡ typ)
        × (e.expire_at ≡ expire_at)
        × (e.version ≡ version_after (view hash d.ds key))
        × (e.lru ≡ lru_after clock (view hash d.ds key))
  unfolding set_key new_entry entry_mem bump_version
  set_key-Writes inline_max clock key typ expire_at payload d s =
      let (m, at, v) = shard_at hash d.ds key s in
      let i = shard_for hash key d.ds in
      let fresh = new_entry key typ expire_at payload inline_max clock in
      elim (Option-cases (find key m)) [
        | inr (old, found) ↦
            let e : Entry = record fresh { lru = old.lru; version = (bump_version old).version } in
            let d' : Db = record {
              ds = with_shard i (put key e m) d.ds;
              used = minus (plus d.used e.size) old.size;
            } in
            let sound : Sound key e = record { named = refl; small = omega arith } in
            let was : Sound key old = (s.home i m key old at found).1 in
            (
              e,
              d',
              ground (arith, at, found),
              put-Writes key e m d d' s at sound (overwrite-Replaced key e old m d.ds s at found)
                  (rw found (omega (arith, was.small))),
              refl,
              refl,
              ground (arith, v, found),
              ground (arith, v, found),
            )
        | inl absent ↦
            let e : Entry = record fresh { lru = pack lfu_init_val (masked clock); version = 1 } in
            let d' : Db = record {
              ds = track_insert i (with_shard i (put key e m) d.ds);
              used = plus d.used e.size;
            } in
            (
              e,
              d',
              ground (arith, at, absent),
              put-Writes key e m d d' s at (record { named = refl; small = omega arith })
                  (put-Replaced hash d.ds i key e m s.linked) (rw absent (omega arith)),
              refl,
              refl,
              ground (arith, v, absent),
              ground (arith, v, absent),
            )
      ]
