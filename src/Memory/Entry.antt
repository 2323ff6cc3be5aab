-- ===== src/Memory/Entry.antt =====
-- memory/entry.go: the record of one key. The atomic loops read a word and replace it if nobody
-- else did; here each is its last, successful round.
pub mod Freq
use pebbis.Prelude.{
  ℕ, zero, suc, ◌+◌, ◌-◌, ◌*◌, ◌/◌, ◌%◌, ◌^◌, Bool, true, false, not, ◌&&◌, Option, none, some, [],
  ltb, leb, ◌==◌, if◌then◌else◌, length,
}
use pebbis.Prelude.Int.{ℤ, pos, negsuc, leb_ℤ, of_u64}
use pebbis.Prelude.Bytes.{Bytes}
use pebbis.Memory.Clock.{lru_clock_bits, masked, idle}

abbrev pub lfu_init_val : ℕ
lfu_init_val = 5

abbrev pub lfu_counter_max : ℕ
lfu_counter_max = 255

abbrev pub entry_base_size : ℕ
entry_base_size = 64

-- `lru` is a `uint32`: the clock in the low 24 bits, the counter in the high 8. An `inline` of
-- length 0 is nil.
pub record Entry : Type 0 where
  pub key : Bytes
  pub typ : ℕ
  pub expire_at : ℤ
  pub lru : ℕ
  pub size : ℕ
  pub version : ℕ
  pub inline : Bytes
  pub counter : Bool

-- The high part of the word, and the two parts put together: they share no bit.
abbrev pub shr_clock : ℕ → ℕ
shr_clock w = w / 2 ^ lru_clock_bits

abbrev pub pack : ℕ → ℕ → ℕ
pack hi lo = hi * 2 ^ lru_clock_bits % 2 ^ 32 + lo

unfoldable pub entry_mem : Bytes → Bytes → ℕ
entry_mem key inline = (entry_base_size + length key + length inline) % 2 ^ 32

unfoldable pub new_entry : Bytes → ℕ → ℤ → Bytes → ℕ → ℕ → Entry
unfolding entry_mem
new_entry key typ expire_at payload inline_max lru_clock =
    let inline =
      if ltb 0 (length payload) && leb (length payload) inline_max then payload else [] in
    record {
      key = key;
      typ = typ;
      expire_at = expire_at;
      lru = masked lru_clock;
      size = entry_mem key inline;
      version = 0;
      inline = inline;
      counter = false;
    }

unfoldable pub set_expiry : ℤ → Entry → Entry
set_expiry expire_at e = record e { expire_at = expire_at }

abbrev is_zero : ℤ → Bool
is_zero (pos zero) = true
is_zero (pos (suc n)) = false
is_zero (negsuc n) = false

unfoldable pub expired : Entry → ℤ → Bool
expired e now_ms = not (is_zero e.expire_at) && leb_ℤ e.expire_at now_ms

unfoldable pub entry_clock : Entry → ℕ
entry_clock e = masked e.lru

unfoldable pub freq : Entry → ℕ
freq e = shr_clock e.lru % 256

-- `old &^ lruClockMask | lruClock & lruClockMask`
unfoldable pub touch : ℕ → Entry → Entry
touch lru_clock e = record e { lru = pack (shr_clock e.lru) (masked lru_clock) }

-- `draw b` is the outcome of `rand.Float64() < 1.0 / (b*lfuLogFactor + 1)`.
unfoldable pub should_incr_freq : (ℕ → Bool) → ℕ → Bool
should_incr_freq draw f =
    let f = if ltb f lfu_init_val then lfu_init_val else f in draw (f - lfu_init_val)

unfoldable pub incr_freq : (ℕ → Bool) → Entry → Entry
incr_freq draw e =
    let f = shr_clock e.lru in
    if leb lfu_counter_max f
    then e
    else if not (should_incr_freq draw f)
    then e
    else record e { lru = (e.lru + 2 ^ lru_clock_bits) % 2 ^ 32 }

unfoldable pub decay_freq : Entry → Entry
decay_freq e =
    let f = shr_clock e.lru in
    if leb f lfu_init_val then e else record e { lru = pack (f / 2) (masked e.lru) }

-- `freq - uint32(periods)` of two `uint32`, and the floor.
abbrev pub decayed : ℕ → ℕ → ℕ
decayed f periods =
    let next = (f + 2 ^ 32 - periods % 2 ^ 32) % 2 ^ 32 in
    if ltb next lfu_init_val then lfu_init_val else next

-- The division of two `int`, of which the first is not negative: a panic by 0; a quotient that is not
-- positive is 0, since `Decay` treats them alike.
abbrev pub quotient : ℕ → ℤ → Option ℕ
quotient n (pos zero) = none
quotient n (pos (suc d)) = some (n / suc d)
quotient n (negsuc d) = some 0

-- `int(elapsedSec) / (60 * decayMinutes)`, whose product wraps.
abbrev pub periods_of : ℕ → ℕ → Option ℕ
periods_of elapsed minutes = quotient elapsed (of_u64 (60 * minutes % 2 ^ 64))

decay_by : ℕ → Entry → Entry
decay_by periods e =
    let f = shr_clock e.lru in
    if leb f lfu_init_val then e else record e { lru = pack (decayed f periods) (masked e.lru) }

-- `none` is a panic.
unfoldable pub decay : ℕ → ℤ → Entry → Option Entry
unfolding decay_by
decay now_clock (negsuc m) e = some e
decay now_clock (pos zero) e = some e
decay now_clock (pos (suc m)) e =
    let elapsed = idle now_clock (entry_clock e) in
    let decayed_by : Option Entry = elim (periods_of elapsed (suc m)) [
      | none ↦ none
      | some periods ↦ some (if leb periods 0 then e else decay_by periods e)
    ] in
    if elapsed == 0 then some e else decayed_by

unfoldable pub set_freq : ℕ → Entry → Entry
set_freq f e = record e { lru = pack f (masked e.lru) }

unfoldable pub bump_version : Entry → Entry
bump_version e = record e { version = (e.version + 1) % 2 ^ 64 }
