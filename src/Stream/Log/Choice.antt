-- ===== src/Stream/Log/Choice.antt =====
-- stream.go: which ID `xAdd` gives a new entry.
use pebbis.Prelude.{
  ℕ, ◌^◌, ◌<◌, ◌≡◌, arith, Bool, true, false, ◌&&◌, Option, none, some, leb, ◌==◌, if◌then◌else◌,
}
use pebbis.Stream.{StreamId, max_u64, less}
use pebbis.Stream.Ids.{IsId}
use pebbis.Stream.Log.{Reply, reply, failed, equal_or_smaller, new_id, partial_id, auto_id}

-- A reply is the least ID of the wanted form above the last one; a failure says that none is.
abbrev pub Verdict : (StreamId → Bool) → StreamId → Reply StreamId → Type 0
Verdict form last (reply r) =
    IsId r
    × ((form r ≡ true)
        × ((less last r ≡ true)
            × ((o : StreamId) → form o ≡ true → less last o ≡ true → less o r ≡ false)))
Verdict form last (failed e) = (o : StreamId) → IsId o → form o ≡ true → less last o ≡ false

abbrev pub same_ms : ℕ → StreamId → Bool
same_ms ms o = o.ms == ms

abbrev pub same_id : StreamId → StreamId → Bool
same_id id o = o.ms == id.ms && o.seq == id.seq

abbrev pub not_before : ℕ → StreamId → Bool
not_before now o = leb now o.ms

abbrev pub above : Option StreamId → StreamId → Bool
above none r = true
above (some last) r = less last r

partial_lem :
    (last id : StreamId) (now ms : ℕ)
    → IsId last
    → ms < 2 ^ 64
    → Verdict (same_ms ms) last (new_id (some last) now id false true ms)
unfolding new_id partial_id less
partial_lem last id now ms h hm = ground arith

explicit_lem :
    (last id : StreamId) (now ms : ℕ)
    → IsId last
    → IsId id
    → Verdict (same_id id) last (new_id (some last) now id false false ms)
unfolding new_id less
explicit_lem last id now ms h hid = ground arith

auto_lem :
    (last id : StreamId) (now ms : ℕ)
    → IsId last
    → now < 2 ^ 64
    → if leb now last.ms && last.seq == max_u64
      then new_id (some last) now id true false ms ≡ failed equal_or_smaller
      else Verdict (not_before now) last (new_id (some last) now id true false ms)
unfolding new_id auto_id less
auto_lem last id now ms h hn = ground arith

-- XADD to a stream that has entries. With "ms-*" the new ID is the least one with these milliseconds
-- above the last ID, and there is an error only if none is. With an explicit ID it is that ID, and
-- there is an error only if it is not above the last. With "*" it is the least ID above the last whose
-- milliseconds are not before the clock; but at the greatest sequence number, and a clock that is not
-- ahead, it is an error although there are greater IDs.
pub new_id_lem :
    (last id : StreamId) (now ms : ℕ)
    → IsId last
    → IsId id
    → now < 2 ^ 64
    → ms < 2 ^ 64
    → Verdict (same_ms ms) last (new_id (some last) now id false true ms)
      × (Verdict (same_id id) last (new_id (some last) now id false false ms)
          × (if leb now last.ms && last.seq == max_u64
              then new_id (some last) now id true false ms ≡ failed equal_or_smaller
              else Verdict (not_before now) last (new_id (some last) now id true false ms)))
new_id_lem last id now ms hl hid hn hm = (
  partial_lem last id now ms hl hm,
  (explicit_lem last id now ms hl hid, auto_lem last id now ms hl hn),
)

abbrev pub IsLast : Option StreamId → Type 0
IsLast none = Unit
IsLast (some last) = IsId last

-- Whatever the flags, an ID that is given is one, and it is above the last.
pub new_id-above :
    (last : Option StreamId) (id r : StreamId) (now ms : ℕ) (auto partial_auto : Bool)
    → IsLast last
    → IsId id
    → now < 2 ^ 64
    → ms < 2 ^ 64
    → new_id last now id auto partial_auto ms ≡ reply r
    → IsId r × (above last r ≡ true)
unfolding new_id auto_id partial_id less
new_id-above none id r now ms auto partial_auto hl hid hn hm e = ground arith
new_id-above (some last) id r now ms auto partial_auto hl hid hn hm e = ground arith
