-- ===== src/Memory/Tests/Db.antt =====
-- Runs of entry.go and of dict.go on one database.
use pebbis.Prelude.{
  suc, ◌+◌, ◌-◌, ◌*◌, ◌/◌, ◌%◌, ◌^◌, ◌≡◌, ◌≢◌, refl, arith, not, ◌||◌, some, [], if◌then◌else◌,
  get_elem?, leb, ltb,
}
use pebbis.Prelude.Int.{ℤ, pos}
use pebbis.Prelude.Bytes.{bytes_eq}
use pebbis.Prelude.Assoc.{Assoc, find, remove}
use pebbis.Memory.Clock.{idle}
use pebbis.Memory.Entry.{Entry, freq, entry_clock, decay, lfu_init_val}
use pebbis.Memory.Entry.Freq.{freq-decay}
use pebbis.Memory.Shards.{DbShards, shard_for, track_empty}
use pebbis.Memory.Shards.Tracking.{Untracked, is_tracked, track_empty-Untracked}
use pebbis.Memory.Db.{Db, is_nil, set_key, set_expiry_of, lookup, rename}
use pebbis.Memory.Db.Shape.{view}
use pebbis.Memory.Db.Writes.{Writes, version_after, lru_after, set_key-Writes}
use pebbis.Memory.Db.Removes.{live, lookup-Writes}
use pebbis.Memory.Db.Updates.{map_entry, set_expiry_of-Writes}
use pebbis.Memory.Db.Renames.{Moves, under, rename_across-Moves}
use pebbis.Memory.Tests.Data.{
  first_byte, key_a, key_b, key_c, entry_a, shard_a, one, one-IsShaped, at_four, at_nine,
}

abbrev one_minute : ℤ
one_minute = pos 1

abbrev no_entries : Assoc Entry
no_entries = []

apart : shard_for first_byte key_a one.ds ≢ shard_for first_byte key_b one.ds
unfolding shard_for
apart = omega arith

at_a : get_elem? one.ds.shards (shard_for first_byte key_a one.ds) ≡ some shard_a
unfolding shard_for
at_a = refl

at_b : get_elem? one.ds.shards (shard_for first_byte key_b one.ds) ≡ some no_entries
unfolding shard_for
at_b = refl

found_a : find key_a shard_a ≡ some entry_a
unfolding find bytes_eq
found_a = refl

a-ne-c : key_a ≢ key_c
a-ne-c = ground arith

same_shard : shard_for first_byte key_c one.ds ≡ shard_for first_byte key_a one.ds
unfolding shard_for
same_shard = refl

has_a : view first_byte one.ds key_a ≡ some entry_a
unfolding view shard_for find bytes_eq
has_a = refl

track_empty-Untracked_example :
    (d' : DbShards) × (track_empty 1 one.ds ≡ some d') × Untracked 1 one.ds d'
track_empty-Untracked_example = track_empty-Untracked 1 one.ds one-IsShaped.linked

set_key-Writes_example :
    (e : Entry) × (d' : Db) × (set_key first_byte 64 1060 key_a 0 at_nine key_c one ≡ some (e, d'))
    × Writes first_byte key_a (some e) one d'
    × (e.typ ≡ 0)
    × (e.expire_at ≡ at_nine)
    × (e.version ≡ version_after (view first_byte one.ds key_a))
    × (e.lru ≡ lru_after 1060 (view first_byte one.ds key_a))
set_key-Writes_example = set_key-Writes first_byte 64 1060 key_a 0 at_nine key_c one one-IsShaped

lookup-Writes_example :
    (d' : Db) × (lookup first_byte at_nine key_a one
      ≡ some (live at_nine (view first_byte one.ds key_a), d'))
    × Writes first_byte key_a (live at_nine (view first_byte one.ds key_a)) one d'
lookup-Writes_example = lookup-Writes first_byte at_nine key_a one one-IsShaped

set_expiry_of-Writes_example :
    (d' : Db) × (set_expiry_of first_byte at_four key_a at_nine one
      ≡ some (
        map_entry
            (λ e. record e { expire_at = at_nine })
            (live at_four (view first_byte one.ds key_a)),
        d',
      ))
    × Writes first_byte key_a
        (map_entry
          (λ e. record e { expire_at = at_nine })
          (live at_four (view first_byte one.ds key_a)))
        one
        d'
set_expiry_of-Writes_example =
    set_expiry_of-Writes first_byte at_four key_a at_nine one one-IsShaped

rename_across-Moves_example :
    (d' : Db) × (rename first_byte at_four key_a key_b one ≡ some (some (under key_b entry_a), d'))
    × Moves first_byte key_a key_b (under key_b entry_a) one d'
    × (is_tracked d'.ds (shard_for first_byte key_b one.ds)
        ≡ (not (is_nil (remove key_a shard_a)) || not (is_nil no_entries)))
rename_across-Moves_example =
    rename_across-Moves first_byte at_four key_a key_b entry_a shard_a no_entries one one-IsShaped
      apart at_a at_b found_a

freq-decay_example :
    let p = idle 1430 (entry_clock entry_a) / (60 * suc 0) in
    (e' : Entry) × (decay 1430 (pos (suc 0)) entry_a ≡ some e')
    × (freq e' ≡ (
        if leb (freq entry_a) lfu_init_val
        then freq entry_a
        else if leb p (freq entry_a)
        then (if ltb (freq entry_a - p) lfu_init_val then lfu_init_val else freq entry_a - p)
        else (freq entry_a + 2 ^ 24 - p) % 256))
    × (entry_clock e' ≡ entry_clock entry_a)
freq-decay_example = freq-decay 1430 0 entry_a (omega arith) (omega arith)
