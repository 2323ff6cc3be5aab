-- ===== src/Config.antt =====
-- config/config.go: the configuration of a store, and its validation. A `float64` is its bit pattern,
-- a duration its nanoseconds. `validate` returns the receiver as it is left, with its error.
pub mod Valid
mod Tests
use Prim.Native.Nat.{bit_and}
use pebbis.Prelude.{
  ℕ, zero, suc, ◌+◌, ◌-◌, ◌*◌, ◌^◌, Bool, true, false, not, ◌&&◌, ◌||◌, Option, none, some, List,
  [], ◌∷◌, ltb, leb, ◌==◌, if◌then◌else◌,
}
use pebbis.Prelude.Int.{ℤ, pos, negsuc, ltb_ℤ, leb_ℤ}
use pebbis.Prelude.Bytes.{Bytes, codes, bytes_eq}
use pebbis.Storage.Codec.Words.{is_nan, float_rank}
use pebbis.Keys.{one_of}

pub record Config : Type 0 where
  pub dir : Bytes
  pub require_pass : Bytes
  pub max_memory : ℕ
  pub eviction_policy : Bytes
  pub eviction_mode : Bytes
  pub eviction_sample : ℤ
  pub lfu_decay_minutes : ℤ
  pub eviction_target_ratio : ℕ
  pub lua_time_limit : ℤ
  pub databases : ℤ
  pub shard_count : ℤ
  pub inline_value_max_size : ℤ
  pub load_mode : Bytes
  pub block_cache_size : ℤ
  pub mem_table_size : ℕ
  pub l0_compaction_threshold : ℤ
  pub l0_stop_writes_threshold : ℤ
  pub sync_policy : Bytes
  pub wal_min_sync_interval : ℤ
  pub expire_cycle_interval : ℤ
  pub expire_cycle_budget : ℤ
  pub expire_batch : ℤ

pub data ConfigFault : Type 0 where
  bad_shard_count bad_ratio unknown_policy unknown_eviction_mode unknown_load_mode : ConfigFault
  unknown_sync_policy needs_max_memory : ConfigFault

abbrev pub no_eviction : Bytes
no_eviction = codes "noeviction"

abbrev pub policies : List Bytes
policies =
    codes "noeviction"
    ∷ codes "allkeys-lru"
    ∷ codes "allkeys-random"
    ∷ codes "volatile-lru"
    ∷ codes "volatile-random"
    ∷ codes "volatile-ttl"
    ∷ codes "allkeys-lfu"
    ∷ codes "volatile-lfu"
    ∷ []

-- `x <= y` of two `float64`.
abbrev pub float_le : ℕ → ℕ → Bool
float_le u v = not (is_nan u) && not (is_nan v) && leb_ℤ (float_rank u) (float_rank v)

abbrev pub float_one : ℕ
float_one = 1023 * 2 ^ 52

abbrev pub lower_byte : ℕ → ℕ
lower_byte b = if leb 65 b && leb b 90 then b + 32 else b

-- `strings.ToLower`, as far as ASCII can come of it: of the other letters only U+212A and U+0130
-- have an ASCII letter as their lower case.
unfoldable pub to_lower : Bytes → Bytes
to_lower [] = []
to_lower (b ∷ []) = lower_byte b ∷ []
to_lower (b ∷ c ∷ []) =
    if b == 0xc4 && c == 0xb0 then 105 ∷ [] else lower_byte b ∷ lower_byte c ∷ []
to_lower (b ∷ c ∷ d ∷ s) =
    let one = to_lower (c ∷ d ∷ s) in
    let two = to_lower (d ∷ s) in
    let three = to_lower s in
    if b == 0xe2 && c == 0x84 && d == 0xaa
    then 107 ∷ three
    else if b == 0xc4 && c == 0xb0
    then 105 ∷ two
    else lower_byte b ∷ one

unfoldable pub is_power_of_two : ℤ → Bool
is_power_of_two (pos zero) = false
is_power_of_two (pos (suc n)) = bit_and (suc n) n == 0
is_power_of_two (negsuc n) = false

unfoldable pub positive_or : ℤ → ℤ → ℤ
positive_or default n = if leb_ℤ n (pos 0) then default else n

unfoldable pub nonzero_or : ℤ → ℤ → ℤ
nonzero_or default (pos zero) = default
nonzero_or default (pos (suc n)) = pos (suc n)
nonzero_or default (negsuc n) = negsuc n

unfoldable pub not_below_zero : ℤ → ℤ
not_below_zero n = if ltb_ℤ n (pos 0) then pos 0 else n

unfoldable pub nonzero_size : ℕ → ℕ
nonzero_size n = if n == 0 then 64 * 2 ^ 20 else n

-- The numbers that have a default.
unfoldable pub with_defaults : Config → Config
with_defaults c = record c {
  eviction_sample = positive_or (pos 5) c.eviction_sample;
  inline_value_max_size = not_below_zero c.inline_value_max_size;
  block_cache_size = positive_or (pos (8 * 2 ^ 20)) c.block_cache_size;
  mem_table_size = nonzero_size c.mem_table_size;
  l0_compaction_threshold = nonzero_or (pos 8) c.l0_compaction_threshold;
  l0_stop_writes_threshold = nonzero_or (pos 24) c.l0_stop_writes_threshold;
  wal_min_sync_interval = positive_or (pos 200000) c.wal_min_sync_interval;
  expire_cycle_interval = positive_or (pos 100000000) c.expire_cycle_interval;
  expire_cycle_budget = positive_or (pos 1000000) c.expire_cycle_budget;
  expire_batch = positive_or (pos 256) c.expire_batch;
}

abbrev pub eviction_modes : List Bytes
eviction_modes = codes "persist" ∷ codes "cache" ∷ []

abbrev pub load_modes : List Bytes
load_modes = codes "load-all" ∷ codes "lazy" ∷ []

abbrev pub sync_policies : List Bytes
sync_policies = codes "group" ∷ codes "always" ∷ codes "never" ∷ []

-- The four switches: each takes the lower case of a name that it knows.
unfoldable pub check_sync : Config → Config × Option ConfigFault
check_sync c =
    if one_of (to_lower c.sync_policy) sync_policies
    then (let c = record c { sync_policy = to_lower c.sync_policy } in
        if c.max_memory == 0 && not (bytes_eq c.eviction_policy no_eviction)
        then (c, some needs_max_memory)
        else (c, none))
    else (c, some unknown_sync_policy)

unfoldable pub check_load : Config → Config × Option ConfigFault
check_load c =
    if one_of (to_lower c.load_mode) load_modes
    then check_sync (record c { load_mode = to_lower c.load_mode })
    else (c, some unknown_load_mode)

unfoldable pub check_mode : Config → Config × Option ConfigFault
check_mode c =
    if one_of (to_lower c.eviction_mode) eviction_modes
    then check_load (record c { eviction_mode = to_lower c.eviction_mode })
    else (c, some unknown_eviction_mode)

unfoldable pub check_policy : Config → Config × Option ConfigFault
check_policy c =
    if one_of (to_lower c.eviction_policy) policies
    then check_mode (record c { eviction_policy = to_lower c.eviction_policy })
    else (c, some unknown_policy)

unfoldable pub validate : Config → Config × Option ConfigFault
validate c =
    if not (is_power_of_two c.shard_count)
    then (c, some bad_shard_count)
    else if float_le c.eviction_target_ratio 0 || float_le float_one c.eviction_target_ratio
    then (c, some bad_ratio)
    else check_policy (with_defaults c)

abbrev pub default_config : Config
default_config = record {
  dir = [];
  require_pass = [];
  max_memory = 0;
  eviction_policy = no_eviction;
  eviction_mode = codes "persist";
  eviction_sample = pos 5;
  lfu_decay_minutes = pos 1;
  eviction_target_ratio = 0x3fee666666666666;
  lua_time_limit = pos 0;
  databases = pos 16;
  shard_count = pos 1024;
  inline_value_max_size = pos 256;
  load_mode = codes "load-all";
  block_cache_size = pos (64 * 2 ^ 20);
  mem_table_size = 64 * 2 ^ 20;
  l0_compaction_threshold = pos 8;
  l0_stop_writes_threshold = pos 24;
  sync_policy = codes "group";
  wal_min_sync_interval = pos 200000;
  expire_cycle_interval = pos 100000000;
  expire_cycle_budget = pos 1000000;
  expire_batch = pos 256;
}

unfoldable pub tracks_lru : Config → Bool
tracks_lru c =
    one_of c.eviction_policy
      (codes "allkeys-lru" ∷ codes "volatile-lru" ∷ codes "volatile-ttl" ∷ [])

unfoldable pub tracks_lfu : Config → Bool
tracks_lfu c = one_of c.eviction_policy (codes "allkeys-lfu" ∷ codes "volatile-lfu" ∷ [])
