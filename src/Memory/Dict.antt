-- ===== src/Memory/Dict.antt =====
-- memory/dict.go: the dict over all logical databases. A database is nil until it is first used.
pub mod Fresh
pub mod Whole
pub mod Flush
pub mod Random
use pebbis.Prelude.{
  ℕ, ◌+◌, ◌%◌, ◌^◌, Bool, Option, none, some, List, [], ◌∷◌, ltb, if◌then◌else◌, length, get_elem?,
  set, replicate,
}
use pebbis.Prelude.Int.{ℤ, pos, negsuc}
use pebbis.Prelude.Options.{◌>>=◌}
use pebbis.Prelude.Bytes.{Bytes}
use pebbis.Prelude.Assoc.{Assoc}
use pebbis.Memory.Entry.{Entry}
use pebbis.Memory.Shards.{DbShards, new_db_shards, random_shard}
use pebbis.Memory.Db.{Db, len, keys_of, total_size}

-- `shard_count` is `cfg.ShardCount`, which validation makes a power of 2.
pub record Dict : Type 0 where
  pub shard_count : ℕ
  pub dbs : List (Option DbShards)
  pub used : ℕ

-- `NewDict`, for `n` databases after the default.
unfoldable pub new_dict : ℕ → ℕ → Dict
new_dict shard_count n = record { shard_count = shard_count; dbs = replicate n none; used = 0 }

unfoldable pub valid : ℕ → Dict → Bool
valid db d = ltb db (length d.dbs)

-- The shards of a database, made if there are none. `none` is an index out of range.
unfoldable pub db_shards : ℕ → Dict → Option DbShards
db_shards db d = elim (get_elem? d.dbs db) [
  | none ↦ none
  | some p ↦ elim p [ none ↦ some (new_db_shards d.shard_count) | some ds ↦ some ds ]
]

-- An operation on one database, as every operation of the dict begins: with `d.dbShards(db)`.
unfoldable pub at_db : {R : Type 0} → (Db → Option (R × Db)) → ℕ → Dict → Option (R × Dict)
unfolding db_shards
at_db op db d = do
  ds ← db_shards db d
  (r, d') ← op (record { ds = ds; used = d.used })
  some (r, record d { dbs = set d.dbs db (some d'.ds); used = d'.used })

unfoldable pub total_dbs : List (Option DbShards) → ℕ
total_dbs [] = 0
total_dbs (none ∷ dbs) = total_dbs dbs
total_dbs (some ds ∷ dbs) = total_size ds.shards + total_dbs dbs

unfoldable pub recompute_used : Dict → Dict
unfolding total_dbs
recompute_used d = record d { used = total_dbs d.dbs % 2 ^ 64 }

-- `d.dbs[db].Store` panics out of range.
unfoldable pub flush : ℕ → Dict → Option Dict
unfolding recompute_used
flush db d = elim (get_elem? d.dbs db) [
  | none ↦ none
  | some p ↦
      some (recompute_used (record d { dbs = set d.dbs db (some (new_db_shards d.shard_count)) }))
]

unfoldable pub dict_len : ℕ → Dict → Option ℕ
dict_len db d = elim (get_elem? d.dbs db) [
  | none ↦ none
  | some p ↦ elim p [ none ↦ some 0 | some ds ↦ some (len ds) ]
]

unfoldable pub dict_keys : ℕ → Dict → Option (List Bytes)
dict_keys db d = elim (get_elem? d.dbs db) [
  | none ↦ none
  | some p ↦ elim p [ none ↦ some [] | some ds ↦ some (keys_of ds.shards) ]
]

abbrev pub first_key : Assoc Entry → Option Bytes
first_key [] = none
first_key ((k, e) ∷ m) = some k

-- `draw` is what `randomShard` draws; the walk over the shard's map starts where it likes.
unfoldable pub random_key : ℕ → DbShards → Option (Option Bytes)
random_key draw ds = do
  s ← random_shard draw ds
  elim s [ none ↦ some none | some i ↦ do m ← get_elem? ds.shards i; some (first_key m) ]
