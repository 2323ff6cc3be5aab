-- ===== src/Config/Valid.antt =====
-- config.go: what a configuration is after it was validated.
use Prim.Native.Nat.{bit_and}
use native.Mathlib.Nat.{pow-suc}
use pebbis.Prelude.{
  ℕ, zero, suc, ◌-◌, ◌*◌, ◌/◌, ◌%◌, ◌^◌, ◌≤◌, ◌<◌, ◌≡◌, refl, ap, ◌∙◌, arith, Bool, true, false,
  not, ◌&&◌, ◌||◌, Option, none, some, List, [], ◌∷◌, ◌==◌, if◌then◌else◌, Bool-cases, inl, inr,
  ◌⊎◌,
}
use mathlib.Core.Path.{sym}
use pebbis.Prelude.Int.{ℤ, pos, negsuc, ◌<ℤ◌}
use pebbis.Prelude.Bits.{bit_and-halves}
use pebbis.Prelude.Bytes.{Bytes, bytes_eq, bytes_eq_iff}
use pebbis.Storage.Codec.Words.{is_nan, float_rank}
use pebbis.Keys.{one_of}
use pebbis.Config.{
  Config, ConfigFault, no_eviction, policies, eviction_modes, load_modes, sync_policies, float_le,
  float_one, to_lower, is_power_of_two, with_defaults, positive_or, nonzero_or, not_below_zero,
  nonzero_size, check_policy, check_mode, check_load, check_sync, validate,
}

bit_and_fuel_self : (fuel m : ℕ) → m ≤ fuel → bit_and m m ≡ m
bit_and_fuel_self zero zero h = refl
bit_and_fuel_self zero (suc m) h = absurd (omega arith)
bit_and_fuel_self (suc fuel) zero h = refl
bit_and_fuel_self (suc fuel) (suc m) h =
    omega (arith, bit_and-halves (suc m) (suc m), bit_and_fuel_self fuel (suc m / 2) (omega arith))

-- A number that shares no bit with the one before it is a power of two.
power_of_two : (fuel n : ℕ) → n < fuel → bit_and (suc n) n ≡ 0 → (k : ℕ) × (suc n ≡ 2 ^ k)
power_of_two zero n h e = absurd (omega arith)
power_of_two (suc fuel) zero h e = (0, refl)
power_of_two (suc fuel) (suc n) h e =
    let halves = bit_and-halves (suc (suc n)) (suc n) in
    elim (Bool-cases (n % 2 == 0)) [
      | inl even ↦
          let half : n / 2 < fuel = omega arith in
          let up : suc (suc n) / 2 ≡ suc (n / 2) = ground (arith, even) in
          let down : suc n / 2 ≡ n / 2 = ground (arith, even) in
          let low : bit_and (suc (n / 2)) (n / 2) ≡ 0 =
            rw (← up) (ap (bit_and (suc (suc n) / 2)) (sym down) ∙ omega (arith, halves, e)) in
          let (k, p) = power_of_two fuel (n / 2) half low in
          (suc k, ground (arith, even, p, pow-suc 2 k))
      | inr odd ↦
          let same : suc (suc n) / 2 ≡ suc n / 2 = ground (arith, odd) in
          let self : bit_and (suc n / 2) (suc n / 2) ≡ suc n / 2 =
            bit_and_fuel_self (suc n / 2) (suc n / 2) (omega arith) in
          absurd (omega (arith, halves, e, ap (λ t. bit_and t (suc n / 2)) same, self))
    ]

-- What validation promises. A ratio that is no number passes the comparisons.
pub record IsValid (c : Config) : Type 0 where
  pub shards : (k : ℕ) × (c.shard_count ≡ pos (2 ^ k))
  pub ratio :
      (is_nan c.eviction_target_ratio ≡ true)
      ⊎ ((pos 0 <ℤ float_rank c.eviction_target_ratio)
          × (float_rank c.eviction_target_ratio <ℤ float_rank float_one))
  pub policy : one_of c.eviction_policy policies ≡ true
  pub mode : one_of c.eviction_mode eviction_modes ≡ true
  pub load : one_of c.load_mode load_modes ≡ true
  pub sync : one_of c.sync_policy sync_policies ≡ true
  pub bounded : c.max_memory ≡ 0 → c.eviction_policy ≡ no_eviction
  pub numbers : with_defaults c ≡ c

shards_lem : (n : ℤ) → is_power_of_two n ≡ true → (k : ℕ) × (n ≡ pos (2 ^ k))
unfolding is_power_of_two
shards_lem (pos zero) h = absurd (cc)
shards_lem (pos (suc n)) h =
    let (k, p) = power_of_two (suc n) n (omega arith) (ground (arith, h)) in (k, ap pos p)
shards_lem (negsuc n) h = absurd (cc)

abbrev AllLower : List Bytes → Type 0
AllLower [] = Unit
AllLower (name ∷ names) = (to_lower name ≡ name) × AllLower names

-- A known name is its own lower case.
to_lower-one_of :
    (names : List Bytes) (s : Bytes) → AllLower names → one_of s names ≡ true → to_lower s ≡ s
to_lower-one_of [] s h e = absurd (cc)
to_lower-one_of (name ∷ names) s (h, hs) e = elim (Bool-cases (bytes_eq s name)) [
  | inl b ↦ let same : s ≡ name = (bytes_eq_iff s name).0 b in rw same h
  | inr n ↦ to_lower-one_of names s hs (ground (arith, e, n))
]

lower_policy : (s : Bytes) → one_of s policies ≡ true → to_lower s ≡ s
unfolding to_lower
lower_policy s h =
    to_lower-one_of policies s (refl, (refl, (refl, (refl, (refl, (refl, (refl, (refl, tt)))))))) h

lower_mode : (s : Bytes) → one_of s eviction_modes ≡ true → to_lower s ≡ s
unfolding to_lower
lower_mode s h = to_lower-one_of eviction_modes s (refl, (refl, tt)) h

lower_load : (s : Bytes) → one_of s load_modes ≡ true → to_lower s ≡ s
unfolding to_lower
lower_load s h = to_lower-one_of load_modes s (refl, (refl, tt)) h

lower_sync : (s : Bytes) → one_of s sync_policies ≡ true → to_lower s ≡ s
unfolding to_lower
lower_sync s h = to_lower-one_of sync_policies s (refl, (refl, (refl, tt))) h

positive_or-once :
    (d : ℕ) (n : ℤ)
    → positive_or (pos (suc d)) (positive_or (pos (suc d)) n) ≡ positive_or (pos (suc d)) n
unfolding positive_or
positive_or-once d n = ground arith

nonzero_or-once :
    (d : ℕ) (n : ℤ)
    → nonzero_or (pos (suc d)) (nonzero_or (pos (suc d)) n) ≡ nonzero_or (pos (suc d)) n
unfolding nonzero_or
nonzero_or-once d (pos zero) = refl
nonzero_or-once d (pos (suc n)) = refl
nonzero_or-once d (negsuc n) = refl

not_below_zero-once : (n : ℤ) → not_below_zero (not_below_zero n) ≡ not_below_zero n
unfolding not_below_zero
not_below_zero-once n = ground arith

nonzero_size-once : (n : ℕ) → nonzero_size (nonzero_size n) ≡ nonzero_size n
unfolding nonzero_size
nonzero_size-once n = ground arith

defaults_once : (c : Config) → with_defaults (with_defaults c) ≡ with_defaults c
unfolding with_defaults
defaults_once c =
    rw
      (
        positive_or-once 4 c.eviction_sample,
        not_below_zero-once c.inline_value_max_size,
        positive_or-once (8 * 2 ^ 20 - 1) c.block_cache_size,
        nonzero_size-once c.mem_table_size,
        nonzero_or-once 7 c.l0_compaction_threshold,
        nonzero_or-once 23 c.l0_stop_writes_threshold,
        positive_or-once 199999 c.wal_min_sync_interval,
        positive_or-once 99999999 c.expire_cycle_interval,
        positive_or-once 999999 c.expire_cycle_budget,
        positive_or-once 255 c.expire_batch,
      )
      refl

-- The configuration with other names.
named : Config → Config → Config
named c d = record d {
  eviction_policy = to_lower c.eviction_policy;
  eviction_mode = to_lower c.eviction_mode;
  load_mode = to_lower c.load_mode;
  sync_policy = to_lower c.sync_policy;
}

normal : Config → Config
normal c = named c (with_defaults c)

record Passes (c : Config) : Type 0 where
  shards : is_power_of_two c.shard_count ≡ true
  ratio : float_le c.eviction_target_ratio 0 || float_le float_one c.eviction_target_ratio ≡ false
  policy : one_of (to_lower c.eviction_policy) policies ≡ true
  mode : one_of (to_lower c.eviction_mode) eviction_modes ≡ true
  load : one_of (to_lower c.load_mode) load_modes ≡ true
  sync : one_of (to_lower c.sync_policy) sync_policies ≡ true
  memory : c.max_memory == 0 && not (bytes_eq (to_lower c.eviction_policy) no_eviction) ≡ false

Passes-validate : (c : Config) → Passes c → validate c ≡ (normal c, none)
unfolding validate check_policy check_mode check_load check_sync normal named with_defaults
Passes-validate c p = rw (p.shards, p.ratio, p.policy, p.mode, p.load, p.sync, p.memory) refl

not-false : (b : Bool) → not b ≡ false → b ≡ true
not-false b h = ground arith

-- A test that was passed, and what follows it.
gate :
    (b : Bool) (x z : Config) (f : ConfigFault) (y : Config × Option ConfigFault)
    → (if b then y else (x, some f)) ≡ (z, none)
    → (b ≡ true) × (y ≡ (z, none))
gate true x z f y h = (refl, h)
gate false x z f y h = absurd (cc)

gate_not :
    (b : Bool) (x z : Config) (f : ConfigFault) (y : Config × Option ConfigFault)
    → (if b then (x, some f) else y) ≡ (z, none)
    → (b ≡ false) × (y ≡ (z, none))
gate_not true x z f y h = absurd (cc)
gate_not false x z f y h = (refl, h)

validate-Passes : (c c' : Config) → validate c ≡ (c', none) → Passes c × (c' ≡ normal c)
unfolding validate check_policy check_mode check_load check_sync normal named with_defaults
validate-Passes c c' h =
    let (power, h1) = gate_not (not (is_power_of_two c.shard_count)) _ c' _ _ h in
    let (ratio, h2) = gate_not _ _ c' _ _ h1 in
    let (policy, h3) = gate (one_of (to_lower c.eviction_policy) policies) _ c' _ _ h2 in
    let (mode, h4) = gate (one_of (to_lower c.eviction_mode) eviction_modes) _ c' _ _ h3 in
    let (load, h5) = gate (one_of (to_lower c.load_mode) load_modes) _ c' _ _ h4 in
    let (sync, h6) = gate (one_of (to_lower c.sync_policy) sync_policies) _ c' _ _ h5 in
    let (memory, h7) = gate_not _ _ c' _ _ h6 in
    (
      record {
        shards = not-false _ power;
        ratio = ratio;
        policy = policy;
        mode = mode;
        load = load;
        sync = sync;
        memory = memory;
      },
      sym (ap (λ r. r.0) h7),
    )

ratio_lem :
    (u : ℕ)
    → float_le u 0 || float_le float_one u ≡ false
    → (is_nan u ≡ true) ⊎ ((pos 0 <ℤ float_rank u) × (float_rank u <ℤ float_rank float_one))
ratio_lem u h = ground arith

bounded_lem : (n : ℕ) (b : Bool) → n == 0 && not b ≡ false → n ≡ 0 → b ≡ true
bounded_lem n b h e = ground arith

normal-numbers : (c : Config) → with_defaults (normal c) ≡ normal c
unfolding normal named with_defaults
normal-numbers c = ap (named c) (defaults_once c)

normal-IsValid : (c : Config) → Passes c → IsValid (normal c)
unfolding normal named with_defaults
normal-IsValid c p = record {
  shards = shards_lem c.shard_count p.shards;
  ratio = ratio_lem c.eviction_target_ratio p.ratio;
  policy = p.policy;
  mode = p.mode;
  load = p.load;
  sync = p.sync;
  bounded = λ z.
      (bytes_eq_iff (to_lower c.eviction_policy) no_eviction).0
        (bounded_lem c.max_memory (bytes_eq (to_lower c.eviction_policy) no_eviction) p.memory z);
  numbers = normal-numbers c;
}

-- What is valid passes, and is normal.
IsValid-Passes :
    (c : Config)
    → is_power_of_two c.shard_count ≡ true
    → float_le c.eviction_target_ratio 0 || float_le float_one c.eviction_target_ratio ≡ false
    → c.max_memory == 0 && not (bytes_eq c.eviction_policy no_eviction) ≡ false
    → IsValid c
    → Passes c × (normal c ≡ c)
unfolding normal named
IsValid-Passes c shards ratio memory v =
    let policy = lower_policy c.eviction_policy v.policy in
    let mode = lower_mode c.eviction_mode v.mode in
    let load = lower_load c.load_mode v.load in
    let sync = lower_sync c.sync_policy v.sync in
    (
      record {
        shards = shards;
        ratio = ratio;
        policy = rw policy v.policy;
        mode = rw mode v.mode;
        load = rw load v.load;
        sync = rw sync v.sync;
        memory = rw policy memory;
      },
      rw (v.numbers, policy, mode, load, sync) refl,
    )

-- An accepted configuration has a power of two of shards, a target ratio strictly between 0 and
-- 1 or NaN, known names in lower case, an eviction policy only with a memory limit, and its
-- defaults filled in; and validating it again changes nothing.
pub validate-IsValid :
    (c c' : Config) → validate c ≡ (c', none) → IsValid c' × (validate c' ≡ (c', none))
unfolding normal named with_defaults
validate-IsValid c c' h =
    let (p, e) = validate-Passes c c' h in
    let v = normal-IsValid c p in
    let (again, same) = IsValid-Passes (normal c) p.shards p.ratio p.memory v in
    rw e (v, Passes-validate (normal c) again ∙ ap (λ d. (d, none)) same)
