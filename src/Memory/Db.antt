-- ===== src/Memory/Db.antt =====
-- memory/dict.go: the operations of the dict on the shards of one logical database. The counter of
-- bytes is an `int64`, by its pattern modulo 2 ^ 64. `none` is a panic. The time and the LRU clock
-- that an operation reads are arguments. An entry is a value: what an operation returns is the entry
-- as it leaves it.
pub mod Shape
pub mod Replace
pub mod Writes
pub mod Removes
pub mod Updates
pub mod Renames
use pebbis.Prelude.{
  ℕ, zero, suc, ◌+◌, ◌-◌, ◌*◌, ◌%◌, ◌^◌, ◌==◌, Bool, true, false, not, ◌||◌, Option, none, some,
  List, [], ◌∷◌, ◌++◌, if◌then◌else◌, length, get_elem?, set, map,
}
use pebbis.Prelude.Int.{ℤ}
use pebbis.Prelude.Options.{◌>>=◌}
use pebbis.Prelude.Bytes.{Bytes, bytes_eq}
use pebbis.Prelude.Assoc.{Assoc, find, put, remove, total}
use pebbis.Memory.Clock.{masked}
use pebbis.Memory.Entry.{
  Entry, lfu_init_val, pack, entry_mem, new_entry, set_expiry, expired, touch, incr_freq, decay,
  bump_version,
}
use pebbis.Memory.Shards.{DbShards, shard_for, track_insert, track_empty}

-- The shards, and the counter `used` of the whole dict.
pub record Db : Type 0 where
  pub ds : DbShards
  pub used : ℕ

-- `d.used.Add(int64(e.size))`, and with the size taken away; a size is a `uint32`.
abbrev pub plus : ℕ → ℕ → ℕ
plus used size = (used + size) % 2 ^ 64

abbrev pub minus : ℕ → ℕ → ℕ
minus used size = (used + 2 ^ 64 - size) % 2 ^ 64

-- `s.m = m` for the shard in place `i`.
abbrev pub with_shard : ℕ → Assoc Entry → DbShards → DbShards
with_shard i m ds = record ds { shards = set ds.shards i m }

abbrev pub is_nil : Assoc Entry → Bool
is_nil [] = true
is_nil (e ∷ m) = false

-- `if empty { ds.trackEmpty(s) }`
unfoldable pub track_if_empty : Bool → ℕ → DbShards → Option DbShards
track_if_empty true i ds = track_empty i ds
track_if_empty false i ds = some ds

-- From `delete(s.m, key)` on, where the shard `i` holds `e` under the key.
unfoldable pub drop_entry : ℕ → Bytes → Entry → Assoc Entry → Db → Option Db
unfolding track_if_empty
drop_entry i key e m d = do
  let m' = remove key m
  ds ← track_if_empty (is_nil m') i (with_shard i m' d.ds)
  some (record { ds = ds; used = minus d.used e.size })

-- The entry under its new key; its size is computed anew.
abbrev pub renamed : Bytes → Entry → Entry
renamed dst e = record e { key = dst; size = entry_mem dst e.inline }

abbrev pub minus_old : ℕ → Option Entry → ℕ
minus_old used none = used
minus_old used (some old) = minus used old.size

module _ (hash : Bytes → ℕ) where
  unfoldable pub delete : Bytes → Db → Option (Option Entry × Db)
  delete key d = do
    let i = shard_for hash key d.ds
    m ← get_elem? d.ds.shards i
    elim (find key m) [
      | none ↦ some (none, d)
      | some e ↦ do d' ← drop_entry i key e m d; some (some e, d')
    ]

  unfoldable pub lookup : ℤ → Bytes → Db → Option (Option Entry × Db)
  unfolding delete
  lookup now key d = do
    m ← get_elem? d.ds.shards (shard_for hash key d.ds)
    elim (find key m) [
      | none ↦ some (none, d)
      | some e ↦
          let dropped : Option (Option Entry × Db) = (do r ← delete key d; some (none, r.1)) in
          if expired e now then dropped else some (some e, d)
    ]

  unfoldable pub delete_expired : Bytes → ℤ → Db → Option (Bool × Db)
  delete_expired key now d = do
    let i = shard_for hash key d.ds
    m ← get_elem? d.ds.shards i
    elim (find key m) [
      | none ↦ some (false, d)
      | some e ↦
          let dropped : Option (Bool × Db) = (do d' ← drop_entry i key e m d; some (true, d')) in
          if expired e now then dropped else some (false, d)
    ]

  unfoldable pub set_expiry_of : ℤ → Bytes → ℤ → Db → Option (Option Entry × Db)
  set_expiry_of now key expire_at d = do
    let i = shard_for hash key d.ds
    m ← get_elem? d.ds.shards i
    elim (find key m) [
      | none ↦ some (none, d)
      | some e ↦
          let dropped : Option (Option Entry × Db) = (do
            d' ← drop_entry i key e m d
            some (none, d')) in
          let e' = set_expiry expire_at e in
          if expired e now
          then dropped
          else some (some e', record d { ds = with_shard i (put key e' m) d.ds })
    ]

  -- `Set`. An overwrite keeps the access word, and takes the next version of the old entry.
  unfoldable pub set_key : ℕ → ℕ → Bytes → ℕ → ℤ → Bytes → Db → Option (Entry × Db)
  set_key inline_max clock key typ expire_at payload d = do
    let i = shard_for hash key d.ds
    let fresh = new_entry key typ expire_at payload inline_max clock
    m ← get_elem? d.ds.shards i
    elim (find key m) [
      | some old ↦
          let e = record fresh { lru = old.lru; version = (bump_version old).version } in
          some (
            e,
            record {
              ds = with_shard i (put key e m) d.ds;
              used = minus (plus d.used e.size) old.size;
            },
          )
      | none ↦
          let e = record fresh { lru = pack lfu_init_val (masked clock); version = 1 } in
          some (
            e,
            record {
              ds = track_insert i (with_shard i (put key e m) d.ds);
              used = plus d.used e.size;
            },
          )
    ]

  unfoldable pub set_counter : ℕ → ℕ → Bytes → ℤ → Db → Option Db
  set_counter inline_max clock key expire_at d = do
    let i = shard_for hash key d.ds
    m ← get_elem? d.ds.shards i
    elim (find key m) [
      | some old ↦
          let e = record old {
            counter = true;
            expire_at = expire_at;
            version = (bump_version old).version;
          } in
          some (record d { ds = with_shard i (put key e m) d.ds })
      | none ↦
          let fresh = new_entry key 0 expire_at [] inline_max clock in
          let e = record fresh {
            counter = true;
            lru = pack lfu_init_val (masked clock);
            version = 1;
          } in
          some (record {
            ds = track_insert i (with_shard i (put key e m) d.ds);
            used = plus d.used e.size;
          })
    ]

  -- `Touch`: the lazy decay first, then the clock and the counter.
  unfoldable pub touch_key : ℕ → ℤ → (ℕ → Bool) → Bytes → Db → Option Db
  touch_key clock decay_minutes draw key d = do
    let i = shard_for hash key d.ds
    m ← get_elem? d.ds.shards i
    elim (find key m) [
      | none ↦ some d
      | some e ↦ decay clock decay_minutes e >>= λ e'.
          some (record d { ds = with_shard i (put key (incr_freq draw (touch clock e')) m) d.ds })
    ]

  -- `renameWithin`, in the shard `i`.
  unfoldable pub rename_within : ℕ → Bytes → Bytes → Db → Option (Option Entry × Db)
  rename_within i src dst d = do
    m ← get_elem? d.ds.shards i
    elim (find src m) [
      | none ↦ some (none, d)
      | some e ↦
          let m' = remove src m in
          let used = minus_old d.used (find dst m') in
          let e' = renamed dst e in
          some (
            some e',
            record {
              ds = with_shard i (put dst e' m') d.ds;
              used = minus (plus used e'.size) e.size;
            },
          )
    ]

  -- From the shard `i` to another shard `j`.
  unfoldable pub rename_across : ℕ → ℕ → Bytes → Bytes → Db → Option (Option Entry × Db)
  rename_across i j src dst d = do
    m ← get_elem? d.ds.shards i
    n ← get_elem? d.ds.shards j
    elim (find src m) [
      | none ↦ some (none, d)
      | some e ↦ do
        let m' = remove src m
        let used = minus_old d.used (find dst n)
        let e' = renamed dst e
        let ds = with_shard j (put dst e' n) (with_shard i m' d.ds)
        ds' ← elim (is_nil m') [ true ↦ track_empty i ds | false ↦ some (track_insert j ds) ]
        some (some e', record { ds = ds'; used = minus (plus used e'.size) e.size })
    ]

  unfoldable pub rename : ℤ → Bytes → Bytes → Db → Option (Option Entry × Db)
  unfolding lookup rename_within rename_across
  rename now src dst d =
      let i = shard_for hash src d.ds in
      let j = shard_for hash dst d.ds in
      if bytes_eq src dst
      then lookup now src d
      else if i == j
      then rename_within i src dst d
      else rename_across i j src dst d

count_keys : List (Assoc Entry) → ℕ
count_keys [] = 0
count_keys (m ∷ shards) = length m + count_keys shards

unfoldable pub len : DbShards → ℕ
unfolding count_keys
len ds = count_keys ds.shards

unfoldable pub keys_of : List (Assoc Entry) → List Bytes
keys_of [] = []
keys_of (m ∷ shards) = map (λ (r : Bytes × Entry). r.0) m ++ keys_of shards

-- The sum over one database in `recomputeUsed`.
unfoldable pub total_size : List (Assoc Entry) → ℕ
total_size [] = 0
total_size (m ∷ shards) = total (λ e. e.size) m + total_size shards
