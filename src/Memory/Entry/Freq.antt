-- ===== src/Memory/Entry/Freq.antt =====
-- entry.go: the two halves of the access word stay apart, and how the frequency counter moves.
use pebbis.Prelude.{
  ℕ, zero, suc, ◌+◌, ◌-◌, ◌/◌, ◌%◌, ◌^◌, ◌≤◌, ◌<◌, ◌≡◌, refl, arith, Bool, ◌*◌, Option, none, some,
  Option-cases, Bool-cases, inl, inr, ltb, leb, if◌then◌else◌, ◌⊎◌,
}
use pebbis.Prelude.Int.{ℤ, pos, negsuc, of_u64}
use pebbis.Memory.Clock.{masked, idle, idle-lt}
use pebbis.Memory.Entry.{
  Entry, freq, entry_clock, touch, incr_freq, decay_freq, decay, decay_by, periods_of, lfu_init_val,
}

-- An access word is a `uint32`.
abbrev pub IsWord : Entry → Type 0
IsWord e = e.lru < 2 ^ 32

-- A touch sets the clock, and leaves the counter alone.
pub touch_halves :
    (clock : ℕ) (e : Entry)
    → IsWord e
    → (freq (touch clock e) ≡ freq e)
      × (entry_clock (touch clock e) ≡ masked clock)
      × IsWord (touch clock e)
unfolding touch freq entry_clock
touch_halves clock e h = omega arith

-- Whatever is drawn, an increment raises the counter by one or not at all, never past 255, and
-- leaves the clock alone.
pub incr_freq_halves :
    (draw : ℕ → Bool) (e : Entry)
    → IsWord e
    → ((freq (incr_freq draw e) ≡ freq e) ⊎ (freq (incr_freq draw e) ≡ freq e + 1))
      × (freq (incr_freq draw e) ≤ 255)
      × (entry_clock (incr_freq draw e) ≡ entry_clock e)
      × IsWord (incr_freq draw e)
unfolding incr_freq freq entry_clock
incr_freq_halves draw e h = ground arith

-- The periodic decay halves a counter above the initial value, and leaves the clock alone.
pub decay_freq_halves :
    (e : Entry)
    → IsWord e
    → (freq (decay_freq e) ≡ (if leb (freq e) lfu_init_val then freq e else freq e / 2))
      × (entry_clock (decay_freq e) ≡ entry_clock e)
unfolding decay_freq freq entry_clock
decay_freq_halves e h = ground arith

freq-decay_by :
    (p : ℕ) (e : Entry)
    → IsWord e
    → p < 2 ^ 24
    → (freq (decay_by p e) ≡ (
        if leb (freq e) lfu_init_val
        then freq e
        else if leb p (freq e)
        then (if ltb (freq e - p) lfu_init_val then lfu_init_val else freq e - p)
        else (freq e + 2 ^ 24 - p) % 256))
      × (entry_clock (decay_by p e) ≡ entry_clock e)
unfolding decay_by freq entry_clock
freq-decay_by p e h hp = ground arith

-- 60 times the minutes is an `int`.
abbrev pub FitsDecay : ℤ → Type 0
FitsDecay (pos m) = 60 * m < 2 ^ 63
FitsDecay (negsuc m) = Unit

periods_of_lem :
    (elapsed m : ℕ)
    → FitsDecay (pos (suc m))
    → periods_of elapsed (suc m) ≡ some (elapsed / (60 * suc m))
unfolding of_u64
periods_of_lem elapsed m h =
    let small : 60 * suc m % 2 ^ 64 ≡ 60 * suc m = omega (arith, h) in ground (arith, small, h)

-- The lazy decay with a positive number of minutes, 60 times which is an `int`, of an entry whose access
-- word has 32 bits and that has been idle for `p` periods, does not panic. It takes `p` from a counter
-- above the initial value, down to that value, as long as `p` is at most the counter. Past that the
-- subtraction of `uint32` wraps, and the counter becomes the difference modulo 256: one period more than
-- the counter gives 255, the highest frequency. The clock stays.
pub freq-decay :
    (now m : ℕ) (e : Entry)
    → IsWord e
    → FitsDecay (pos (suc m))
    → let p = idle now (entry_clock e) / (60 * suc m) in
      (e' : Entry) × (decay now (pos (suc m)) e ≡ some e')
      × (freq e' ≡ (
          if leb (freq e) lfu_init_val
          then freq e
          else if leb p (freq e)
          then (if ltb (freq e - p) lfu_init_val then lfu_init_val else freq e - p)
          else (freq e + 2 ^ 24 - p) % 256))
      × (entry_clock e' ≡ entry_clock e)
unfolding decay
freq-decay now m e h fits =
    let i = idle now (entry_clock e) in
    let p = i / (60 * suc m) in
    let run = periods_of_lem i m fits in
    let below = idle-lt now (entry_clock e) in
    elim (Bool-cases (leb p 0)) [
      | inl none_over ↦ (e, ground (arith, run, none_over), ground (arith, none_over), refl)
      | inr some_over ↦
          let (moved, kept) = freq-decay_by p e h (omega (arith, below)) in
          (decay_by p e, ground (arith, run, some_over), ground (arith, moved), kept)
    ]

-- What a decay leaves, if it does not panic.
abbrev pub or_same : Entry → Option Entry → Entry
or_same e none = e
or_same e (some e') = e'

pub decay_runs :
    (clock : ℕ) (minutes : ℤ) (e : Entry)
    → FitsDecay minutes
    → decay clock minutes e ≡ some (or_same e (decay clock minutes e))
unfolding decay
decay_runs clock (negsuc m) e h = refl
decay_runs clock (pos zero) e h = refl
decay_runs clock (pos (suc m)) e h = ground (arith, periods_of_lem (idle clock (entry_clock e)) m h)

-- The decay changes nothing but the access word.
pub decay-kept :
    (clock : ℕ) (minutes : ℤ) (e : Entry)
    → let e' = or_same e (decay clock minutes e) in (e'.key ≡ e.key) × (e'.size ≡ e.size)
unfolding decay decay_by
decay-kept clock (negsuc m) e = (refl, refl)
decay-kept clock (pos zero) e = (refl, refl)
decay-kept clock (pos (suc m)) e =
    elim (Option-cases (periods_of (idle clock (entry_clock e)) (suc m))) [
      | inl n ↦ ground (arith, n)
      | inr (p, n) ↦ ground (arith, n)
    ]
