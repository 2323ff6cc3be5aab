-- ===== src/Memory/Evict.antt =====
-- memory/evict.go: the victims of eviction, with the policies of config/config.go. The order in which
-- Go walks a map is the order of the list, and any list is one.
pub mod Best
pub mod Shard
pub mod Rounds
pub mod Sampling
pub mod Progress
use pebbis.Prelude.{
  ℕ, zero, suc, ◌-◌, ◌^◌, Bool, true, false, not, ◌&&◌, ◌||◌, Option, none, some, List, [], ◌∷◌,
  ltb, if◌then◌else◌,
}
use pebbis.Prelude.Int.{ℤ, pos, negsuc, ltb_ℤ, leb_ℤ}
use pebbis.Prelude.Bytes.{Bytes}
use pebbis.Prelude.Assoc.{Assoc}
use pebbis.Memory.Clock.{idle}
use pebbis.Memory.Entry.{Entry, expired, freq, entry_clock}

pub data EvictionPolicy : Type 0 where
  no_eviction : EvictionPolicy
  all_keys_lru : EvictionPolicy
  all_keys_random : EvictionPolicy
  volatile_lru : EvictionPolicy
  volatile_random : EvictionPolicy
  volatile_ttl : EvictionPolicy
  all_keys_lfu : EvictionPolicy
  volatile_lfu : EvictionPolicy

pub data EvictionMode : Type 0 where
  evict_persist : EvictionMode
  evict_cache : EvictionMode

unfoldable pub is_no_eviction : EvictionPolicy → Bool
is_no_eviction no_eviction = true
is_no_eviction all_keys_lru = false
is_no_eviction all_keys_random = false
is_no_eviction volatile_lru = false
is_no_eviction volatile_random = false
is_no_eviction volatile_ttl = false
is_no_eviction all_keys_lfu = false
is_no_eviction volatile_lfu = false

unfoldable pub eviction_enabled : ℕ → EvictionPolicy → Bool
unfolding is_no_eviction
eviction_enabled max_memory policy = ltb 0 max_memory && not (is_no_eviction policy)

unfoldable pub volatile_only : EvictionPolicy → Bool
volatile_only no_eviction = false
volatile_only all_keys_lru = false
volatile_only all_keys_random = false
volatile_only volatile_lru = true
volatile_only volatile_random = true
volatile_only volatile_ttl = true
volatile_only all_keys_lfu = false
volatile_only volatile_lfu = true

pub record Candidate : Type 0 where
  pub db : ℕ
  pub key : Bytes
  pub size : ℕ
  pub idle : ℕ
  pub freq : ℕ
  pub expire_at : ℤ

-- `x == 0` of an `int64`.
abbrev pub is_zero_time : ℤ → Bool
is_zero_time (pos zero) = true
is_zero_time (pos (suc n)) = false
is_zero_time (negsuc n) = false

-- The tests of the three loops: whether `c` takes the place of `best`.
unfoldable pub is_idler : Candidate → Candidate → Bool
is_idler c best = ltb best.idle c.idle

unfoldable pub is_rarer : Candidate → Candidate → Bool
is_rarer c best = ltb c.freq best.freq

unfoldable pub is_sooner : Candidate → Candidate → Bool
is_sooner c best =
    not (is_zero_time c.expire_at)
    && (is_zero_time best.expire_at || ltb_ℤ c.expire_at best.expire_at)

-- `for _, c := range samples[1:] { if better { best = c } }`
unfoldable pub scan : (Candidate → Candidate → Bool) → Candidate → List Candidate → Candidate
scan better best [] = best
scan better best (c ∷ cs) = scan better (if better c best then c else best) cs

unfoldable pub best_by : EvictionPolicy → Candidate → List Candidate → Candidate
unfolding scan is_idler is_rarer is_sooner
best_by no_eviction best cs = best
best_by all_keys_lru best cs = scan is_idler best cs
best_by all_keys_random best cs = best
best_by volatile_lru best cs = scan is_idler best cs
best_by volatile_random best cs = best
best_by volatile_ttl best cs = scan is_sooner best cs
best_by all_keys_lfu best cs = scan is_rarer best cs
best_by volatile_lfu best cs = scan is_rarer best cs

unfoldable pub pick : EvictionPolicy → List Candidate → Option Candidate
unfolding best_by
pick policy [] = none
pick policy (best ∷ cs) = some (best_by policy best cs)

-- `^uint32(0)`
abbrev pub most_idle : ℕ
most_idle = 2 ^ 32 - 1

unfoldable pub pick_from_shard : ℕ → ℤ → ℕ → Bool → Assoc Entry → Option Candidate
pick_from_shard db now_ms now_clock only_volatile [] = none
pick_from_shard db now_ms now_clock only_volatile ((key, e) ∷ m) =
    let rest = pick_from_shard db now_ms now_clock only_volatile m in
    if expired e now_ms
    then some (record {
      db = db;
      key = key;
      size = e.size;
      idle = most_idle;
      freq = 0;
      expire_at = e.expire_at;
    })
    else if only_volatile && is_zero_time e.expire_at
    then rest
    else some (record {
      db = db;
      key = key;
      size = e.size;
      idle = idle now_clock (entry_clock e);
      freq = freq e;
      expire_at = e.expire_at;
    })
