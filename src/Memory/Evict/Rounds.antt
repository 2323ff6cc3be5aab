-- ===== src/Memory/Evict/Rounds.antt =====
-- evict.go: the sample over the databases, one eviction, and the rounds of `MaybeEvict`. A draw of
-- `rand.IntN`, the clock and the deadline are functions of the place in the loops; the target, a product of floats,
-- is an argument. `none` is a panic.
use pebbis.Prelude.{
  ℕ, zero, suc, ◌+◌, Bool, true, false, not, ◌&&◌, ◌||◌, Option, none, some, List, [], ◌∷◌, ◌++◌,
  if◌then◌else◌, length, get_elem?,
}
use pebbis.Prelude.Int.{ℤ, pos, negsuc, of_u64, leb_ℤ}
use pebbis.Prelude.Bytes.{Bytes}
use pebbis.Memory.Shards.{DbShards, random_shard}
use pebbis.Prelude.Options.{◌>>=◌}
use pebbis.Memory.Db.{delete}
use pebbis.Memory.Dict.{Dict, at_db}
use pebbis.Memory.Evict.{
  EvictionPolicy, EvictionMode, evict_persist, evict_cache, eviction_enabled, volatile_only,
  Candidate, pick, pick_from_shard,
}

-- `evictSnapshot`, with the target that `MaybeEvict` computes from it.
pub record Snapshot : Type 0 where
  pub max_memory : ℕ
  pub target : ℤ
  pub sample : ℤ
  pub mode : EvictionMode
  pub policy : EvictionPolicy

abbrev pub optional : Option Candidate → List Candidate
optional none = []
optional (some c) = c ∷ []

-- What a sample reads of the clock: the milliseconds and the LRU clock.
abbrev pub Reading : Type 0
Reading = ℤ × ℕ

-- `for range n` over one database; a nil shard breaks the loop.
unfoldable pub sample_db :
    Snapshot → Reading → ℕ → (ℕ → ℕ → ℕ) → ℕ → DbShards → Option (List Candidate)
sample_db snap now db draw zero ds = some []
sample_db snap now db draw (suc n) ds = do
  let later = sample_db snap now db draw n ds
  s ← random_shard (draw n (length ds.non_empty)) ds
  elim s [
    | none ↦ some []
    | some i ↦ do
      m ← get_elem? ds.shards i
      rest ← later
      some (optional (pick_from_shard db now.0 now.1 (volatile_only snap.policy) m) ++ rest)
  ]

-- The databases from number `db` on.
unfoldable pub sample_dbs :
    Snapshot → Reading → (ℕ → ℕ → ℕ → ℕ) → ℕ → ℕ → List (Option DbShards) → Option (List Candidate)
unfolding sample_db
sample_dbs snap now draw n db [] = some []
sample_dbs snap now draw n db (none ∷ dbs) = sample_dbs snap now draw n (db + 1) dbs
sample_dbs snap now draw n db (some ds ∷ dbs) = do
  out ← sample_db snap now db (draw db) n ds
  rest ← sample_dbs snap now draw n (db + 1) dbs
  some (out ++ rest)

-- `if n <= 0 { n = 5 }`
unfoldable pub sample_size : ℤ → ℕ
sample_size (pos zero) = 5
sample_size (pos (suc n)) = suc n
sample_size (negsuc n) = 5

-- `deletes` are the calls of `deleteFn`.
pub record Evicting : Type 0 where
  pub dict : Dict
  pub evicted : ℕ
  pub deletes : List (ℕ × Bytes)

abbrev pub is_cache : EvictionMode → Bool
is_cache evict_persist = false
is_cache evict_cache = true

module _ (hash : Bytes → ℕ) where
  unfoldable pub evict_candidate :
      EvictionMode → (ℕ → Bytes → Bool) → Candidate → Evicting → Option (Bool × Evicting)
  evict_candidate mode delete_fails c ev =
      let called : Evicting =
        (if is_cache mode then record ev { deletes = ev.deletes ++ (c.db, c.key) ∷ [] } else ev) in
      let gone : Option (Bool × Evicting) = (do
        (old, d) ← at_db (delete hash c.key) c.db ev.dict
        some (elim old [
          | none ↦ (false, record called { dict = d })
          | some e ↦ (true, record called { dict = d; evicted = ev.evicted + 1 })
        ])) in
      if is_cache mode && delete_fails c.db c.key then some (false, called) else gone

  -- `evictOne`, whose answer is whether a key went.
  unfoldable pub evict_one :
      Snapshot
      → Reading
      → (ℕ → ℕ → ℕ → ℕ)
      → (ℕ → Bytes → Bool)
      → Evicting
      → Option (Bool × Evicting)
  unfolding evict_candidate sample_dbs sample_size
  evict_one snap now draw delete_fails ev = do
    samples ← sample_dbs snap now draw (sample_size snap.sample) 0 ev.dict.dbs
    elim (pick snap.policy samples) [
      | none ↦ some (false, ev)
      | some c ↦ evict_candidate snap.mode delete_fails c ev
    ]

  unfoldable pub evict_rounds :
      ℕ
      → Snapshot
      → (ℕ → Reading)
      → (ℕ → ℕ → ℕ → ℕ → ℕ)
      → (ℕ → Bool)
      → (ℕ → Bytes → Bool)
      → Evicting
      → Option Evicting
  unfolding evict_one
  evict_rounds zero snap clock draw late delete_fails ev = some ev
  evict_rounds (suc n) snap clock draw late delete_fails ev =
      let next : Option Evicting = (do
        (went, ev') ← evict_one snap (clock n) (draw n) delete_fails ev
        elim went [
          | true ↦ evict_rounds n snap clock draw late delete_fails ev'
          | false ↦ some ev'
        ]) in
      if leb_ℤ (of_u64 ev.dict.used) snap.target || late n then some ev else next

  unfoldable pub maybe_evict :
      Snapshot
      → (ℕ → Reading)
      → (ℕ → ℕ → ℕ → ℕ → ℕ)
      → (ℕ → Bool)
      → (ℕ → Bytes → Bool)
      → Evicting
      → Option Evicting
  unfolding evict_rounds
  maybe_evict snap clock draw late delete_fails ev =
      if not (eviction_enabled snap.max_memory snap.policy)
      then some ev
      else if leb_ℤ (of_u64 ev.dict.used) snap.target
      then some ev
      else evict_rounds 64 snap clock draw late delete_fails ev
