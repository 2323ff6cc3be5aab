-- ===== src/Memory/Clock.antt =====
-- memory/clock.go: the cached time source. The wall clock is an argument, in unix milliseconds.
use pebbis.Prelude.{
  ℕ, ◌+◌, ◌-◌, ◌/◌, ◌%◌, ◌^◌, ◌<◌, ◌≡◌, arith, leb, if◌then◌else◌, zero, suc, Bool, true, false,
}
use pebbis.Prelude.Int.{ℤ, pos, negsuc, to_u64, of_u64}

abbrev pub lru_clock_resolution : ℕ
lru_clock_resolution = 1000

abbrev pub lru_clock_bits : ℕ
lru_clock_bits = 24

-- `x & lruClockMask`: the low 24 bits.
abbrev pub masked : ℕ → ℕ
masked x = x % 2 ^ lru_clock_bits

pub record Clock : Type 0 where
  pub cached : ℤ
  pub offset : ℤ

-- `a + b` of two `int64`.
unfoldable pub add_i64 : ℤ → ℤ → ℤ
add_i64 a b = of_u64 ((to_u64 a + to_u64 b) % 2 ^ 64)

-- `NewClock` and `NewStaticClock`, which differ in the goroutine that ticks.
pub new_clock : ℤ → Clock
new_clock real = record { cached = real; offset = pos 0 }

-- One tick of `run`.
pub tick : ℤ → Clock → Clock
tick real c = record c { cached = add_i64 real c.offset }

pub is_zero_offset : ℤ → Bool
is_zero_offset (pos zero) = true
is_zero_offset (pos (suc n)) = false
is_zero_offset (negsuc n) = false

unfoldable pub now_milli : ℤ → Clock → ℤ
unfolding is_zero_offset
now_milli real c = if is_zero_offset c.offset then c.cached else add_i64 real c.offset

pub advance : ℤ → ℤ → Clock → Clock
advance real d c =
    let off = add_i64 c.offset d in record { cached = add_i64 real off; offset = off }

-- Division truncates towards zero, and `uint32(z)` of a negative z wraps.
unfoldable pub lru_ticks : ℤ → ℕ
lru_ticks (pos n) = masked (n / lru_clock_resolution % 2 ^ 32)
lru_ticks (negsuc n) = masked ((2 ^ 32 - (suc n / lru_clock_resolution) % 2 ^ 32) % 2 ^ 32)

unfoldable pub lru_clock : ℤ → Clock → ℕ
lru_clock real c = lru_ticks (now_milli real c)

unfoldable pub idle : ℕ → ℕ → ℕ
idle now_clock entry_clock =
    let now = masked now_clock in
    let entry = masked entry_clock in
    if leb entry now then now - entry else 2 ^ lru_clock_bits + now - entry

-- An entry touched `d` ticks ago is `d` ticks idle, across the wrap of the 24-bit clock, as long as
-- less than a full turn has passed.
pub idle_elapsed : (t d : ℕ) → d < 2 ^ 24 → idle (masked (t + d)) (masked t) ≡ d
unfolding idle
idle_elapsed t d h = ground arith

-- The idle time is less than a full turn of the clock.
pub idle-lt : (now entry : ℕ) → idle now entry < 2 ^ 24
unfolding idle
idle-lt now entry = ground arith

-- Right after an advance, and until the wall clock moves, the time is the wall clock and the sum of
-- the old offset and the step, whether or not that sum is zero.
pub now_milli-advance :
    (real d : ℤ) (c : Clock) → now_milli real (advance real d c) ≡ add_i64 real (add_i64 c.offset d)
unfolding now_milli advance
now_milli-advance real d c = ground arith
