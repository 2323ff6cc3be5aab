-- ===== src/Memory/Shards.antt =====
-- memory/dict.go: the shards of one logical database, and the list of those that hold keys. A shard
-- is named by its position, which is its `idx`. Locks are not modelled: an operation is one step.
pub mod Tracking
use Prim.Native.Nat.{bit_and}
use pebbis.Prelude.{
  ℕ, ◌+◌, ◌-◌, ◌%◌, ◌^◌, ◌==◌, ltb, Option, none, some, List, [], ◌∷◌, ◌++◌, if◌then◌else◌, length,
  get_elem?, set, take, replicate,
}
use pebbis.Prelude.Bytes.{Bytes}
use pebbis.Prelude.Assoc.{Assoc}
use pebbis.Memory.Entry.{Entry}

-- `m[k] = v` and `delete(m, k)` of a `map[int]int`.
abbrev pub update : (ℕ → Option ℕ) → ℕ → Option ℕ → ℕ → Option ℕ
update f k v j = if k == j then v else f j

pub record DbShards : Type 0 where
  pub shards : List (Assoc Entry)
  pub mask : ℕ
  pub non_empty : List ℕ
  pub pos : ℕ → Option ℕ

-- `uint64(n - 1)` of an `int`.
unfoldable pub new_db_shards : ℕ → DbShards
new_db_shards n = record {
  shards = replicate n [];
  mask = (n + 2 ^ 64 - 1) % 2 ^ 64;
  non_empty = [];
  pos = λ _. none;
}

-- `hash` is `maphash.String` under the seed of the process.
unfoldable pub shard_for : (Bytes → ℕ) → Bytes → DbShards → ℕ
shard_for hash key d = bit_and (hash key) d.mask

unfoldable pub track_insert : ℕ → DbShards → DbShards
track_insert i d = elim (d.pos i) [
  | some p ↦ d
  | none ↦ record d {
    pos = update d.pos i (some (length d.non_empty));
    non_empty = d.non_empty ++ i ∷ [];
  }
]

-- `none` is a panic: an index out of range.
unfoldable pub track_empty : ℕ → DbShards → Option DbShards
track_empty i d = elim (d.pos i) [
  | none ↦ some d
  | some p ↦
      let last = length d.non_empty - 1 in
      elim (get_elem? d.non_empty last) [
        | none ↦ none
        | some moved ↦
            if ltb p (length d.non_empty)
            then some (record d {
              pos = update (update d.pos moved (some p)) i none;
              non_empty = take last (set d.non_empty p moved);
            })
            else none
      ]
]

-- `draw` is `rand.IntN(len(d.nonEmpty))`; the inner `none` is the nil shard.
unfoldable pub random_shard : ℕ → DbShards → Option (Option ℕ)
random_shard draw d =
    if length d.non_empty == 0
    then some none
    else elim (get_elem? d.non_empty draw) [ none ↦ none | some i ↦ some (some i) ]
