-- ===== src/Memory/Db/Renames.antt =====
-- dict.go: `Rename` and `renameWithin`, between two keys of one shard and of two.
use pebbis.Prelude.{
  ℕ, ◌+◌, ◌%◌, ◌^◌, ◌<◌, ◌≡◌, ◌≢◌, refl, ◌∙◌, ap, Bool, true, false, not, ◌||◌, Option, none, some,
  if◌then◌else◌, get_elem?, set, arith, Option-cases, Bool-cases, inl, inr, sym, length, length-set,
}
use pebbis.Prelude.Int.{ℤ}
use pebbis.Prelude.Bytes.{Bytes, bytes_eq, bytes_eq_iff}
use pebbis.Prelude.Assoc.{
  Assoc, find, put, remove, measure, total-put, total-remove, find-put, find-remove,
}
use pebbis.Memory.Entry.{Entry, entry_mem, entry_base_size}
use pebbis.Memory.Shards.{DbShards, shard_for, track_insert, track_empty}
use pebbis.Memory.Shards.Tracking.{
  get_elem?-lt, get_elem?-set, IsLinked, is_tracked, track_insert-shards, is_tracked-track_insert,
  track_empty-Untracked,
}
use pebbis.Memory.Db.{
  Db, is_nil, with_shard, total_size, plus, minus, minus_old, renamed, rename_within, rename_across,
  rename,
}
use pebbis.Memory.Db.Shape.{
  Sound, IsShaped, view, shard_at, find-ne-nil, total_size-set, is_nil-put,
}
use pebbis.Memory.Db.Replace.{
  Replaced, Replaced-IsShaped, Replaced-view, Belongs-rename, relinked, shard_for_mask,
}

-- `trackEmpty` of the source's shard, or else `trackInsert` of the target's.
abbrev track_move : Bool → ℕ → ℕ → DbShards → Option DbShards
track_move true i j ds = track_empty i ds
track_move false i j ds = some (track_insert j ds)

record Tracks (b : Bool) (j : ℕ) (ds ds' : DbShards) : Type 0 where
  shards : ds'.shards ≡ ds.shards
  mask : ds'.mask ≡ ds.mask
  target : is_tracked ds' j ≡ (not b || is_tracked ds j)

track_move-Tracks :
    (b : Bool) (i j : ℕ) (ds : DbShards)
    → i ≢ j
    → IsLinked ds
    → (ds' : DbShards) × (track_move b i j ds ≡ some ds') × Tracks b j ds ds'
track_move-Tracks true i j ds ne l =
    let (ds', run, u) = track_empty-Untracked i ds l in
    (ds', run, record { shards = u.kept; mask = u.mask; target = ground (arith, u.tracked j) })
track_move-Tracks false i j ds ne l = (
  track_insert j ds,
  refl,
  record {
    shards = (track_insert-shards j ds).0;
    mask = (track_insert-shards j ds).1;
    target = ground (arith, is_tracked-track_insert j j ds);
  },
)

-- An entry under another key: what it counts for is that of the new key and the value it holds inline.
abbrev pub under : Bytes → Entry → Entry
under dst e = record e {
  key = dst;
  size = (entry_base_size + length dst + length e.inline) % 2 ^ 32;
}

module _ (hash : Bytes → ℕ) where
  -- The map of `d'` is that of `d` with the entry `e` under `dst` and none under `src`, and the counter
  -- of bytes moves by what the sum of the sizes moves.
  pub record Moves (src dst : Bytes) (e : Entry) (d d' : Db) : Type 0 where
    pub reads :
        (q : Bytes)
        → view hash d'.ds q
          ≡ (if bytes_eq dst q then some e else if bytes_eq src q then none else view hash d.ds q)
    pub counts :
        (d'.used + total_size d.ds.shards) % 2 ^ 64 ≡ (d.used + total_size d'.ds.shards) % 2 ^ 64

  abbrev size_at : Bytes → Assoc Entry → ℕ
  size_at k m = measure (λ (x : Entry). x.size) (find k m)

  size_at-small :
      (k : Bytes) (i : ℕ) (m : Assoc Entry) (ds : DbShards)
      → IsShaped hash ds
      → get_elem? ds.shards i ≡ some m
      → size_at k m < 2 ^ 32
  size_at-small k i m ds s at = elim (Option-cases (find k m)) [
    | inl absent ↦ rw absent (omega arith)
    | inr (e, found) ↦ rw found ((s.home i m k e at found).1.small)
  ]

  minus_old_lem :
      (used : ℕ) (k : Bytes) (m : Assoc Entry)
      → size_at k m < 2 ^ 32
      → (minus_old used (find k m) + size_at k m) % 2 ^ 64 ≡ used % 2 ^ 64
  minus_old_lem used k m small = elim (Option-cases (find k m)) [
    | inl absent ↦ rw absent (omega arith)
    | inr (e, found) ↦
        let bound : e.size < 2 ^ 32 = ground (arith, found) in rw found (omega (arith, bound))
  ]

  -- In a database of the right shape, between two different keys of one shard, `Rename` of a key that is
  -- there does not panic and returns the entry with its new key and the size of that. This entry is then
  -- under the new key and none is under the old one, every other key keeps its entry, the counter of
  -- bytes moves as the sum of the sizes does, and the shape is kept.
  pub rename_within-Moves :
      (now : ℤ) (src dst : Bytes) (e : Entry) (d : Db)
      → IsShaped hash d.ds
      → src ≢ dst
      → shard_for hash dst d.ds ≡ shard_for hash src d.ds
      → view hash d.ds src ≡ some e
      → (d' : Db) × (rename hash now src dst d ≡ some (some (renamed dst e), d'))
        × Moves src dst (renamed dst e) d d'
        × IsShaped hash d'.ds
  unfolding rename rename_within entry_mem
  rename_within-Moves now src dst e d s ne same has =
      let (m, at, v) = shard_at hash d.ds src s in
      let i = shard_for hash src d.ds in
      let found : find src m ≡ some e = sym v ∙ has in
      let m' = remove src m in
      let e' : Entry = renamed dst e in
      let new = put dst e' m' in
      let d' : Db = record {
        ds = with_shard i new d.ds;
        used = minus (plus (minus_old d.used (find dst m')) e'.size) e.size;
      } in
      let tracked : is_tracked d.ds i ≡ true =
        ground (arith, s.covers i m at, find-ne-nil src e m found) in
      let r : Replaced hash i new d.ds d'.ds = record {
        shards = refl;
        mask = refl;
        linked = relinked hash i new d.ds s.linked;
        tracked = λ j. ground (arith, tracked, is_nil-put dst e' m');
      } in
      let was : Sound src e = (s.home i m src e at found).1 in
      let small : size_at dst m' < 2 ^ 32 = ground (
        arith,
        size_at-small dst i m d.ds s at,
        find-remove dst src m (s.maps i m at),
        bytes_eq_iff src dst,
      ) in
      (
        d',
        ground (arith, bytes_eq_iff src dst, at, found),
        record {
          reads = λ q.
              let (n, at', v') = shard_at hash d.ds q s in
              Replaced-view hash i new d.ds d'.ds q (get_elem?-lt d.ds.shards i m at) r
              ∙ ground (
                arith,
                find-put q dst e' m',
                find-remove q src m (s.maps i m at),
                bytes_eq_iff dst q,
                bytes_eq_iff src q,
                at,
                at',
                v',
              );
          counts = omega (
            arith,
            was.small,
            total_size-set d.ds.shards i m new at,
            total-put (λ (x : Entry). x.size) dst e' m',
            total-remove (λ (x : Entry). x.size) src m,
            ap (measure (λ (x : Entry). x.size)) found,
            minus_old_lem d.used dst m' small,
          );
        },
        Replaced-IsShaped hash i new d.ds d'.ds s (get_elem?-lt d.ds.shards i m at)
            (Belongs-rename hash d.ds src dst e' m s at same
              (record { named = refl; small = omega arith }))
            r,
      )

  view_moved :
      (src dst q : Bytes) (e : Entry) (m n : Assoc Entry) (ds ds' : DbShards)
      → IsShaped hash ds
      → shard_for hash src ds ≢ shard_for hash dst ds
      → get_elem? ds.shards (shard_for hash src ds) ≡ some m
      → get_elem? ds.shards (shard_for hash dst ds) ≡ some n
      → ds'.shards
        ≡ set
            (set ds.shards (shard_for hash src ds) (remove src m))
            (shard_for hash dst ds)
            (put dst e n)
      → ds'.mask ≡ ds.mask
      → view hash ds' q
        ≡ (if bytes_eq dst q then some e else if bytes_eq src q then none else view hash ds q)
  unfolding view
  view_moved src dst q e m n ds ds' s ne at at' shards mask =
      let i = shard_for hash src ds in
      let j = shard_for hash dst ds in
      let k = shard_for hash q ds in
      let is_map = s.maps i m at in
      let of_dst : bytes_eq dst q ≡ true → j ≡ k =
        λ h. ap (λ x. shard_for hash x ds) ((bytes_eq_iff dst q).0 h) in
      let of_src : bytes_eq src q ≡ true → i ≡ k =
        λ h. ap (λ x. shard_for hash x ds) ((bytes_eq_iff src q).0 h) in
      ground (
        arith,
        shards,
        shard_for_mask hash q ds ds' mask,
        get_elem?-set (set ds.shards i (remove src m)) j k (put dst e n),
        get_elem?-set ds.shards i k (remove src m),
        get_elem?-lt ds.shards i m at,
        get_elem?-lt ds.shards j n at',
        length-set ds.shards i (remove src m),
        find-put q dst e n,
        find-remove q src m is_map,
        of_dst,
        of_src,
      )

  -- In a database of the right shape, between keys of two shards, `Rename` of a key that is there does not
  -- panic and returns the entry with its new key and the size of that. This entry is then under the new
  -- key and none is under the old one, every other key keeps its entry, and the counter of bytes moves as
  -- the sum of the sizes does. But the shard of the new key is tracked afterwards exactly if the other
  -- shard keeps a key or this one held a key: an entry that leaves its shard empty for an empty shard
  -- leaves the latter untracked.
  pub rename_across-Moves :
      (now : ℤ) (src dst : Bytes) (e : Entry) (m n : Assoc Entry) (d : Db)
      → IsShaped hash d.ds
      → shard_for hash src d.ds ≢ shard_for hash dst d.ds
      → get_elem? d.ds.shards (shard_for hash src d.ds) ≡ some m
      → get_elem? d.ds.shards (shard_for hash dst d.ds) ≡ some n
      → find src m ≡ some e
      → (d' : Db) × (rename hash now src dst d ≡ some (some (under dst e), d'))
        × Moves src dst (under dst e) d d'
        × (is_tracked d'.ds (shard_for hash dst d.ds)
            ≡ (not (is_nil (remove src m)) || not (is_nil n)))
  unfolding rename rename_across entry_mem
  rename_across-Moves now src dst e m n d s ne at at' found =
      let i = shard_for hash src d.ds in
      let j = shard_for hash dst d.ds in
      let m' = remove src m in
      let e' : Entry = renamed dst e in
      let n' = put dst e' n in
      let moved = with_shard j n' (with_shard i m' d.ds) in
      let l = relinked hash j n' (with_shard i m' d.ds) (relinked hash i m' d.ds s.linked) in
      let (ds', run, t) = track_move-Tracks (is_nil m') i j moved ne l in
      let d' : Db = record {
        ds = ds';
        used = minus (plus (minus_old d.used (find dst n)) e'.size) e.size;
      } in
      let differ : bytes_eq src dst ≡ false = elim (Bool-cases (bytes_eq src dst)) [
        | inl same ↦ absurd (ne (ap (λ x. shard_for hash x d.ds) ((bytes_eq_iff src dst).0 same)))
        | inr other ↦ other
      ] in
      let was : Sound src e = (s.home i m src e at found).1 in
      (
        d',
        ground (arith, differ, at, at', found, run),
        record {
          reads = λ q. view_moved src dst q e' m n d.ds ds' s ne at at' t.shards t.mask;
          counts = omega (
            arith,
            was.small,
            total_size-set d.ds.shards i m m' at,
            total_size-set (set d.ds.shards i m') j n n'
                (ground (arith, get_elem?-set d.ds.shards i j m', at')),
            total-put (λ (x : Entry). x.size) dst e' n,
            total-remove (λ (x : Entry). x.size) src m,
            ap (measure (λ (x : Entry). x.size)) found,
            minus_old_lem d.used dst n (size_at-small dst j n d.ds s at'),
            ap total_size t.shards,
          );
        },
        t.target ∙ ground (arith, s.covers j n at'),
      )
