-- ===== src/Memory/Dict/Fresh.antt =====
-- dict.go: a database that was just made.
use pebbis.Prelude.{
  ℕ, zero, suc, ◌^◌, ◌<◌, ◌≡◌, refl, ◌∙◌, arith, none, some, [], get_elem?, replicate,
  length-replicate,
}
use pebbis.Prelude.Bytes.{Bytes}
use pebbis.Prelude.Assoc.{Assoc, find, total}
use pebbis.Memory.Entry.{Entry}
use pebbis.Memory.Shards.{new_db_shards, shard_for}
use pebbis.Memory.Db.{total_size}
use pebbis.Memory.Db.Shape.{IsShaped, view, shard_at}

pub get_elem?-replicate {ℓ} :
    {A : Type ℓ} (n i : ℕ) (a m : A) → get_elem? (replicate n a) i ≡ some m → a ≡ m
get_elem?-replicate zero i a m h = absurd (cc)
get_elem?-replicate (suc n) zero a m h = ground arith
get_elem?-replicate (suc n) (suc i) a m h = get_elem?-replicate n i a m h

total_size-replicate : (n : ℕ) → total_size (replicate n []) ≡ 0
unfolding total_size total
total_size-replicate zero = refl
total_size-replicate (suc n) = omega (arith, total_size-replicate n)

-- The number of shards that a dict may be made with.
abbrev pub Usable : ℕ → Type 0
Usable n = (0 < n) × (n < 2 ^ 63)

pub total_size-new_db_shards : (n : ℕ) → total_size (new_db_shards n).shards ≡ 0
unfolding new_db_shards
total_size-new_db_shards n = total_size-replicate n

module _ (hash : Bytes → ℕ) where
  empty-at : (n i : ℕ) (m : Assoc Entry) → get_elem? (new_db_shards n).shards i ≡ some m → [] ≡ m
  unfolding new_db_shards
  empty-at n i m h = get_elem?-replicate n i [] m h

  pub new_db_shards-IsShaped : (n : ℕ) → Usable n → IsShaped hash (new_db_shards n)
  unfolding new_db_shards find
  new_db_shards-IsShaped n (some_shard, few) =
      let empty : Assoc Entry = [] in
      record {
        width = omega (arith, length-replicate n empty);
        maps = λ i m h. let e = empty-at n i m h in rw (← e) tt;
        home = λ i m k e h f.
            let b = empty-at n i m h in absurd (let f' = rw (← b) at f in ground (arith, f'));
        linked = record { slot = λ i p h. absurd (cc); owner = λ i p h. absurd (cc) };
        covers = λ i m h. let b = empty-at n i m h in rw (← b) refl;
        within = λ i h. absurd (ground (arith, h));
      }

  pub view-new_db_shards : (n : ℕ) (k : Bytes) → Usable n → view hash (new_db_shards n) k ≡ none
  unfolding find
  view-new_db_shards n k u =
      let (m, at, v) = shard_at hash (new_db_shards n) k (new_db_shards-IsShaped n u) in
      let b = empty-at n (shard_for hash k (new_db_shards n)) m at in v ∙ rw (← b) refl
