-- ===== src/Memory/Tests/Dict.antt =====
-- Runs of dict.go, expire.go and evict.go on two databases.
use pebbis.Prelude.{
  ◌+◌, ℕ, zero, suc, ◌≡◌, refl, arith, ◌==◌, Bool, true, false, Option, none, some, List, [], ◌∷◌,
  if◌then◌else◌, length, get_elem?, map,
}
use pebbis.Prelude.Int.{ℤ, pos}
use pebbis.Prelude.Bytes.{Bytes, bytes_eq}
use pebbis.Prelude.Assoc.{find, remove, total}
use pebbis.Memory.Clock.{idle}
use pebbis.Memory.Entry.{entry_clock}
use pebbis.Memory.Shards.{DbShards, shard_for, track_empty}
use pebbis.Memory.Db.{total_size, delete}
use pebbis.Memory.Db.Shape.{IsShaped}
use pebbis.Memory.Dict.{Dict, valid, flush, total_dbs}
use pebbis.Memory.Dict.Whole.{IsWhole, view_at}
use pebbis.Memory.Dict.Flush.{flush-IsWhole}
use pebbis.Memory.Expire.{cycle}
use pebbis.Memory.Expire.Due.{Timer, timer_key, IsIndex, due, deletions, is_among, cycle-due}
use pebbis.Memory.Evict.{Candidate, volatile_ttl, pick, pick_from_shard}
use pebbis.Memory.Evict.{
  evict_cache, all_keys_lru, best_by, scan, is_idler, eviction_enabled, is_no_eviction,
  volatile_only,
}
use pebbis.Memory.Evict.Rounds.{
  Snapshot, Reading, Evicting, maybe_evict, evict_rounds, evict_one, evict_candidate, sample_dbs,
  sample_db, sample_size,
}
use pebbis.Memory.Evict.Progress.{Progress, maybe_evict-Progress}
use pebbis.Memory.Dict.{at_db, db_shards}
use pebbis.Memory.Db.{drop_entry, track_if_empty}
use pebbis.Memory.Shards.{random_shard}
use pebbis.Prelude.Int.{of_u64}
use pebbis.Memory.Entry.{expired}
use pebbis.Memory.Evict.Best.{Preferred, pick-Preferred}
use pebbis.Storage.Codec.Order.{bytes_lt-encode_expire_key}
use mathlib.Core.Path.{subst}
use pebbis.Memory.Tests.Data.{first_byte, key_a, key_b, one, never, one-IsShaped}

abbrev one_shards : DbShards
one_shards = one.ds

abbrev two_dbs : Dict
two_dbs = record { shard_count = 2; dbs = some one.ds ∷ none ∷ []; used = 66 }

two_dbs-IsShaped :
    (db : ℕ) (ds : DbShards) → get_elem? two_dbs.dbs db ≡ some (some ds) → IsShaped first_byte ds
two_dbs-IsShaped zero ds h =
    let same : one.ds ≡ ds = ground arith in subst (λ x. IsShaped first_byte x) same one-IsShaped
two_dbs-IsShaped (suc zero) ds h = absurd (cc)
two_dbs-IsShaped (suc (suc db)) ds h = absurd (cc)

two_dbs-IsWhole : IsWhole first_byte two_dbs
unfolding total_dbs total_size total
two_dbs-IsWhole = record {
  usable = (omega arith, omega arith);
  databases = two_dbs-IsShaped;
  counted = refl;
}

two_dbs-valid : valid 0 two_dbs ≡ true
unfolding valid
two_dbs-valid = refl

abbrev at_six : ℤ
at_six = pos 6

abbrev timers : List Timer
timers =
    record { expire_at = pos 5; db = 0; key = key_a }
    ∷ record { expire_at = pos 9; db = 1; key = key_b }
    ∷ []

timers-IsIndex : IsIndex timers
timers-IsIndex = (
  omega arith,
  omega arith,
  bytes_lt-encode_expire_key (pos 5) (pos 9) 0 1 key_a key_b (omega arith) (omega arith)
      (omega arith) (omega arith),
  (omega arith, omega arith),
)

abbrev pressed : Snapshot
pressed = record {
  max_memory = 100;
  target = pos 50;
  sample = pos 3;
  mode = evict_cache;
  policy = all_keys_lru;
}

abbrev readings : ℕ → Reading
readings round = (pos 4, 1060 + round)

abbrev first_draw : ℕ → ℕ → ℕ → ℕ → ℕ
first_draw round db i n = 0

abbrev deletes_work : ℕ → Bytes → Bool
deletes_work db key = false

abbrev evicting : Evicting
evicting = record { dict = two_dbs; evicted = 0; deletes = [] }

abbrev map_evicting : Option Evicting → Option (ℕ × List (ℕ × Bytes))
map_evicting none = none
map_evicting (some ev) = some (ev.evicted, ev.deletes)

-- The key goes, from the disk too.
evicted_one :
    map_evicting (maybe_evict first_byte pressed readings first_draw never deletes_work evicting)
    ≡ some (1, (0, key_a) ∷ [])
unfolding maybe_evict evict_rounds evict_one evict_candidate sample_dbs sample_db sample_size at_db
    db_shards delete drop_entry track_if_empty random_shard pick best_by scan is_idler
    pick_from_shard expired track_empty shard_for eviction_enabled is_no_eviction volatile_only find
    remove bytes_eq of_u64 idle entry_clock
evicted_one = refl

abbrev late_candidate : Candidate
late_candidate = record { db = 0; key = key_a; size = 66; idle = 3; freq = 5; expire_at = pos 9 }

abbrev candidates : List Candidate
candidates = record { db = 0; key = key_b; size = 66; idle = 1; freq = 7; expire_at = pos 6 } ∷ []

flush-IsWhole_example :
    (d' : Dict) × (flush 0 two_dbs ≡ some d')
    × IsWhole first_byte d'
    × ((j : ℕ) (k : Bytes)
        → view_at first_byte d' j k ≡ (if 0 == j then none else view_at first_byte two_dbs j k))
flush-IsWhole_example =
    flush-IsWhole first_byte 0 two_dbs two_dbs-IsWhole.usable two_dbs-IsWhole.databases
      two_dbs-valid

cycle-due_example :
    (d' : Dict) × (cycle first_byte at_six 10 (λ _. false) false (map timer_key timers) two_dbs
      ≡ some (
        some (length (due at_six (length two_dbs.dbs) timers)),
        deletions (due at_six (length two_dbs.dbs) timers),
        d',
      ))
    × IsWhole first_byte d'
    × ((j : ℕ) (q : Bytes)
        → view_at first_byte d' j q ≡ (
            if is_among j q (due at_six (length two_dbs.dbs) timers)
            then none
            else view_at first_byte two_dbs j q))
cycle-due_example =
    cycle-due first_byte at_six 10 timers two_dbs two_dbs-IsWhole timers-IsIndex (omega arith)

pick-Preferred_example :
    (v : Candidate) × (pick volatile_ttl (late_candidate ∷ candidates) ≡ some v)
    × ((j : ℕ) × (get_elem? (late_candidate ∷ candidates) j ≡ some v))
    × ((j : ℕ) (x : Candidate)
        → get_elem? (late_candidate ∷ candidates) j ≡ some x
        → Preferred volatile_ttl v x)
pick-Preferred_example = pick-Preferred volatile_ttl late_candidate candidates

maybe_evict-Progress_example :
    (ev' : Evicting) × (maybe_evict first_byte pressed readings first_draw never deletes_work
        evicting
      ≡ some ev')
    × Progress first_byte pressed.mode 64 evicting ev'
maybe_evict-Progress_example =
    maybe_evict-Progress first_byte pressed readings first_draw never deletes_work evicting
      (λ round k i n h. omega (arith, h)) two_dbs-IsWhole
