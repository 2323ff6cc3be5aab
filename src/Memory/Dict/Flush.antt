-- ===== src/Memory/Dict/Flush.antt =====
-- dict.go: `NewDict` and `Flush`.
use pebbis.Prelude.{
  ℕ, zero, suc, ◌%◌, ◌^◌, ◌<◌, ◌≡◌, refl, sym, ap, ◌∙◌, arith, true, false, ◌==◌, Option, none,
  some, if◌then◌else◌, length, get_elem?, set, replicate, Option-cases, Bool-cases, inl, inr,
}
use pebbis.Prelude.Bytes.{Bytes}
use pebbis.Memory.Shards.{DbShards, new_db_shards}
use pebbis.Memory.Shards.Tracking.{get_elem?-set, get_elem?_in}
use pebbis.Memory.Dict.{Dict, valid, total_dbs, new_dict, flush, recompute_used}
use pebbis.Memory.Dict.Fresh.{
  Usable, new_db_shards-IsShaped, view-new_db_shards, get_elem?-replicate,
}
use pebbis.Memory.Db.Shape.{IsShaped}
use pebbis.Memory.Dict.Whole.{IsWhole, view_at, view_of}

total_dbs-replicate : (n : ℕ) → total_dbs (replicate n none) ≡ 0
unfolding total_dbs
total_dbs-replicate zero = refl
total_dbs-replicate (suc n) = total_dbs-replicate n

module _ (hash : Bytes → ℕ) where
  -- A new dict is whole and holds no key.
  pub new_dict-IsWhole :
      (shard_count n : ℕ)
      → Usable shard_count
      → IsWhole hash (new_dict shard_count n)
        × ((db : ℕ) (k : Bytes) → view_at hash (new_dict shard_count n) db k ≡ none)
  unfolding new_dict view_at
  new_dict-IsWhole shard_count n u = (
    record {
      usable = u;
      databases = λ db ds h. absurd (ground (arith, get_elem?-replicate n db none (some ds) h));
      counted = omega (arith, total_dbs-replicate n);
    },
    λ db k. elim (Option-cases {A = Option DbShards} (get_elem? (replicate n none) db)) [
      | inl e ↦ ap (λ o. view_of hash o k) e
      | inr (p, e) ↦
          ap (λ o. view_of hash o k) (e ∙ ap some (sym (get_elem?-replicate n db none p e)))
    ],
  )

  -- On a dict whose databases have the right shape `Flush` does not panic, and leaves no key in the
  -- database and every key of the others. Whatever the counter was before, afterwards it is the sum of
  -- the sizes, so the dict is whole.
  pub flush-IsWhole :
      (db : ℕ) (d : Dict)
      → Usable d.shard_count
      → ((j : ℕ) (ds : DbShards) → get_elem? d.dbs j ≡ some (some ds) → IsShaped hash ds)
      → valid db d ≡ true
      → (d' : Dict) × (flush db d ≡ some d')
        × IsWhole hash d'
        × ((j : ℕ) (k : Bytes)
            → view_at hash d' j k ≡ (if db == j then none else view_at hash d j k))
  unfolding flush recompute_used valid view_at
  flush-IsWhole db d usable shaped ok =
      let (p, at) = get_elem?_in d.dbs db (ground (arith, ok)) in
      let inside : db < length d.dbs = ground (arith, ok) in
      let fresh = new_db_shards d.shard_count in
      let dbs' = set d.dbs db (some fresh) in
      let here : (j : ℕ) → db == j ≡ true → get_elem? dbs' j ≡ some (some fresh) =
        λ j e. ground (arith, e, get_elem?-set d.dbs db j (some fresh), inside) in
      let there : (j : ℕ) → db == j ≡ false → get_elem? dbs' j ≡ get_elem? d.dbs j =
        λ j e. ground (arith, e, get_elem?-set d.dbs db j (some fresh)) in
      (
        record d { dbs = dbs'; used = total_dbs dbs' % 2 ^ 64 },
        ground (arith, at),
        record {
          usable = usable;
          databases = λ j ds h. elim (Bool-cases (db == j)) [
            | inl e ↦
                let same : fresh ≡ ds = ground (arith, here j e, h) in
                rw (← same) (new_db_shards-IsShaped hash d.shard_count usable)
            | inr e ↦ shaped j ds (sym (there j e) ∙ h)
          ];
          counted = omega arith;
        },
        λ j k. elim (Bool-cases (db == j)) [
          | inl e ↦ rw e (
              ap (λ o. view_of hash o k) (here j e)
              ∙ view-new_db_shards hash d.shard_count k usable)
          | inr e ↦ rw e (ap (λ o. view_of hash o k) (there j e))
        ],
      )
