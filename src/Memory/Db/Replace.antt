-- ===== src/Memory/Db/Replace.antt =====
-- One shard is replaced by another: the shape, the map and the sum of sizes afterwards. Every
-- operation of the dict comes down to this.
use pebbis.Prelude.{
  ℕ, ◌<◌, ◌≡◌, refl, ◌∙◌, ap, ◌==◌, true, not, some, [], ◌∷◌, if◌then◌else◌, length, get_elem?, set,
  arith, length-set, Bool-cases, ◌⊎◌, inl, inr,
}
use pebbis.Prelude.Bytes.{Bytes, bytes_eq, bytes_eq_iff}
use pebbis.Prelude.Assoc.{
  Assoc, find, put, remove, IsMap, find-put, find-remove, put-IsMap, remove-IsMap,
}
use pebbis.Memory.Entry.{Entry}
use pebbis.Memory.Shards.{DbShards, shard_for, track_insert}
use pebbis.Memory.Shards.Tracking.{
  IsLinked, is_tracked, get_elem?-set, is_tracked-track_insert, track_insert-shards,
  track_insert-IsLinked, track_empty-Untracked,
}
use pebbis.Memory.Db.{with_shard, is_nil, track_if_empty}
use pebbis.Memory.Db.Shape.{Sound, IsShaped, view, is_nil-put}

module _ (hash : Bytes → ℕ) where
  -- `ds'` is `ds` with the shard `i` replaced by `m'`, and `i` tracked as it should be.
  pub record Replaced (i : ℕ) (m' : Assoc Entry) (ds ds' : DbShards) : Type 0 where
    pub shards : ds'.shards ≡ set ds.shards i m'
    pub mask : ds'.mask ≡ ds.mask
    pub linked : IsLinked ds'
    pub tracked : (j : ℕ) → is_tracked ds' j ≡ (if i == j then not (is_nil m') else is_tracked ds j)

  pub shard_for_mask :
      (k : Bytes) (ds ds' : DbShards)
      → ds'.mask ≡ ds.mask
      → shard_for hash k ds' ≡ shard_for hash k ds
  unfolding shard_for
  shard_for_mask k ds ds' h = rw h

  -- The keys of the new shard belong there.
  abbrev pub Belongs : ℕ → Assoc Entry → DbShards → Type 0
  Belongs i m' ds =
      IsMap m'
      × ((k : Bytes) (e : Entry) → find k m' ≡ some e → (shard_for hash k ds ≡ i) × Sound k e)

  Replaced-shard :
      (i j : ℕ) (m' n : Assoc Entry) (ds ds' : DbShards)
      → Replaced i m' ds ds'
      → get_elem? ds'.shards j ≡ some n
      → ((i ≡ j) × (n ≡ m')) ⊎ (get_elem? ds.shards j ≡ some n)
  Replaced-shard i j m' n ds ds' r h = elim (Bool-cases (i == j)) [
    | inl e ↦ inl (ground (arith, r.shards, get_elem?-set ds.shards i j m'))
    | inr e ↦ inr (ground (arith, r.shards, get_elem?-set ds.shards i j m'))
  ]

  pub Replaced-IsShaped :
      (i : ℕ) (m' : Assoc Entry) (ds ds' : DbShards)
      → IsShaped hash ds
      → i < length ds.shards
      → Belongs i m' ds
      → Replaced i m' ds ds'
      → IsShaped hash ds'
  Replaced-IsShaped i m' ds ds' s inside (is_map, belongs) r = record {
    width = omega (arith, s.width, length-set ds.shards i m', ap length r.shards, r.mask);
    maps = λ j n h. elim (Replaced-shard i j m' n ds ds' r h) [
      | inl (same, e) ↦ rw e is_map
      | inr old ↦ s.maps j n old
    ];
    home = λ j n k e h f. elim (Replaced-shard i j m' n ds ds' r h) [
      | inl (same, e') ↦
          let b = belongs k e (rw (← e') f) in (shard_for_mask k ds ds' r.mask ∙ b.0 ∙ same, b.1)
      | inr old ↦ let b = s.home j n k e old f in (shard_for_mask k ds ds' r.mask ∙ b.0, b.1)
    ];
    linked = r.linked;
    covers = λ j n h.
        ground (arith, r.tracked j, r.shards, s.covers j n, get_elem?-set ds.shards i j m');
    within = λ j t.
        ground (
          arith,
          t,
          inside,
          r.tracked j,
          s.within j,
          length-set ds.shards i m',
          ap length r.shards,
        );
  }

  pub Replaced-view :
      (i : ℕ) (m' : Assoc Entry) (ds ds' : DbShards) (k : Bytes)
      → i < length ds.shards
      → Replaced i m' ds ds'
      → view hash ds' k ≡ (if i == shard_for hash k ds then find k m' else view hash ds k)
  unfolding view
  Replaced-view i m' ds ds' k h r = ground (
    arith,
    r.shards,
    shard_for_mask k ds ds' r.mask,
    get_elem?-set ds.shards i (shard_for hash k ds) m',
  )

  -- An entry is written under `k`.
  pub Belongs-put :
      (ds : DbShards) (k : Bytes) (e : Entry) (m : Assoc Entry)
      → IsShaped hash ds
      → get_elem? ds.shards (shard_for hash k ds) ≡ some m
      → Sound k e
      → Belongs (shard_for hash k ds) (put k e m) ds
  Belongs-put ds k e m s at sound = (
    put-IsMap k e m (s.maps (shard_for hash k ds) m at),
    λ q x h. elim (Bool-cases (bytes_eq k q)) [
      | inl same ↦
          let kq : k ≡ q = (bytes_eq_iff k q).0 same in
          let ex : e ≡ x = ground (arith, find-put q k e m) in rw (← kq, ← ex) (refl, sound)
      | inr other ↦ s.home (shard_for hash k ds) m q x at (ground (arith, find-put q k e m))
    ],
  )

  pub Belongs-remove :
      (ds : DbShards) (k : Bytes) (m : Assoc Entry)
      → IsShaped hash ds
      → get_elem? ds.shards (shard_for hash k ds) ≡ some m
      → Belongs (shard_for hash k ds) (remove k m) ds
  Belongs-remove ds k m s at =
      let is_map = s.maps (shard_for hash k ds) m at in
      (
        remove-IsMap k m is_map,
        λ q x h. s.home (shard_for hash k ds) m q x at (ground (arith, find-remove q k m is_map)),
      )

  pub Belongs-rename :
      (ds : DbShards) (src dst : Bytes) (e : Entry) (m : Assoc Entry)
      → IsShaped hash ds
      → get_elem? ds.shards (shard_for hash src ds) ≡ some m
      → shard_for hash dst ds ≡ shard_for hash src ds
      → Sound dst e
      → Belongs (shard_for hash src ds) (put dst e (remove src m)) ds
  Belongs-rename ds src dst e m s at same_shard sound =
      let (is_map, home) = Belongs-remove ds src m s at in
      (
        put-IsMap dst e (remove src m) is_map,
        λ q x h. elim (Bool-cases (bytes_eq dst q)) [
          | inl same ↦
              let dq : dst ≡ q = (bytes_eq_iff dst q).0 same in
              let ex : e ≡ x = ground (arith, find-put q dst e (remove src m)) in
              rw (← dq, ← ex) (same_shard, sound)
          | inr other ↦ home q x (ground (arith, find-put q dst e (remove src m)))
        ],
      )

  pub relinked :
      (i : ℕ) (m : Assoc Entry) (ds : DbShards) → IsLinked ds → IsLinked (with_shard i m ds)
  relinked i m ds l = record { slot = l.slot; owner = l.owner }

  pub put-Replaced :
      (ds : DbShards) (i : ℕ) (k : Bytes) (e : Entry) (m : Assoc Entry)
      → IsLinked ds
      → Replaced i (put k e m) ds (track_insert i (with_shard i (put k e m) ds))
  put-Replaced ds i k e m l =
      let ds₁ = with_shard i (put k e m) ds in
      record {
        shards = (track_insert-shards i ds₁).0;
        mask = (track_insert-shards i ds₁).1;
        linked = track_insert-IsLinked i ds₁ (relinked i (put k e m) ds l);
        tracked = λ j. is_tracked-track_insert i j ds₁ ∙ rw (is_nil-put k e m);
      }

  pub remove-Replaced :
      (ds : DbShards) (i : ℕ) (m' : Assoc Entry)
      → IsLinked ds
      → is_tracked ds i ≡ true
      → (ds' : DbShards) × (track_if_empty (is_nil m') i (with_shard i m' ds) ≡ some ds')
        × Replaced i m' ds ds'
  unfolding track_if_empty
  remove-Replaced ds i (x ∷ m') l t = (
    with_shard i (x ∷ m') ds,
    refl,
    record {
      shards = refl;
      mask = refl;
      linked = relinked i (x ∷ m') ds l;
      tracked = λ j. ground (arith, t);
    },
  )
  remove-Replaced ds i [] l t =
      let ds₁ = with_shard i [] ds in
      let (ds', run, u) = track_empty-Untracked i ds₁ (relinked i [] ds l) in
      (ds', run, record { shards = u.kept; mask = u.mask; linked = u.linked; tracked = u.tracked })
