-- ===== src/Stream/Ids.antt =====
-- stream.go: the order of stream IDs, and their keys in the engine.
use pebbis.Prelude.{
  ℕ, ◌^◌, ◌<◌, ◌≡◌, ◌∙◌, refl, arith, true, false, ◌&&◌, ◌↔◌, some, [], ◌++◌, ◌==◌, if◌then◌else◌,
  length, length-append, append_assoc,
}
use pebbis.Prelude.Bytes.{
  Bytes, append_be, append_be-append, be_before, bytes_lt, bytes_lt-append, bytes_lt-be_before,
  length-be_before, drop-append, take-be_before, drop-be_before, be_value-be_before,
}
use pebbis.Stream.{
  StreamId, max_u64, less, next_id, must16, stream_entry_prefix, append_stream_entry_key,
  stream_id_of_entry_key, zero_id,
}

-- Both halves fit `uint64`.
abbrev pub IsId : StreamId → Type 0
IsId id = (id.ms < 2 ^ 64) × (id.seq < 2 ^ 64)

-- For two 64-bit IDs: `next_id` of the greatest ID is 0-0, the least one. Of every other ID it is the
-- least ID that is greater.
pub next_id_lem :
    (id o : StreamId)
    → IsId id
    → IsId o
    → if id.ms == max_u64 && id.seq == max_u64
      then next_id id ≡ zero_id
      else (less id (next_id id) ≡ true) × ((less id o ≡ true) ↔ (less o (next_id id) ≡ false))
unfolding next_id less
next_id_lem id o h k = ground arith

-- `must16` is 8 bytes of each half.
abbrev pub id_bytes : StreamId → Bytes
id_bytes id = be_before 8 id.ms (be_before 8 id.seq [])

pub must16_lem : (id : StreamId) → must16 id ≡ id_bytes id
unfolding must16 append_be
must16_lem id = append_be-append 8 id.ms [] (be_before 8 id.seq [])

pub entry_key_lem :
    (db : ℕ) (key : Bytes) (id : StreamId)
    → append_stream_entry_key [] db key id ≡ stream_entry_prefix db key ++ id_bytes id
unfolding append_stream_entry_key stream_entry_prefix append_be
entry_key_lem db key id = simp append_assoc

pub bytes_lt-id_bytes :
    (p : Bytes) (id o : StreamId)
    → IsId id
    → IsId o
    → bytes_lt (p ++ id_bytes id) (p ++ id_bytes o) ≡ less id o
unfolding less
bytes_lt-id_bytes p id o h k =
    bytes_lt-append p (id_bytes id) (id_bytes o)
    ∙ bytes_lt-be_before 8 id.ms o.ms (be_before 8 id.seq []) (be_before 8 o.seq []) h.0 k.0
    ∙ ground (arith, bytes_lt-be_before 8 id.seq o.seq [] [] h.1 k.1)

-- The engine orders the entries of one stream by ID.
pub entry_key_order :
    (db : ℕ) (key : Bytes) (id o : StreamId)
    → IsId id
    → IsId o
    → bytes_lt (append_stream_entry_key [] db key id) (append_stream_entry_key [] db key o)
      ≡ less id o
entry_key_order db key id o h k =
    rw (entry_key_lem db key id, entry_key_lem db key o)
      (bytes_lt-id_bytes (stream_entry_prefix db key) id o h k)

pub length-id_bytes : (id : StreamId) → length (id_bytes id) ≡ 16
length-id_bytes id =
    omega (arith, length-be_before 8 id.ms (be_before 8 id.seq []), length-be_before 8 id.seq [])

-- The ID is read back from the key.
pub id_of_entry_key_lem :
    (p : Bytes) (id : StreamId) → IsId id → stream_id_of_entry_key p (p ++ id_bytes id) ≡ some id
unfolding stream_id_of_entry_key
id_of_entry_key_lem p id h = ground (
  arith,
  length-append p (id_bytes id),
  length-id_bytes id,
  drop-append (length p) p (id_bytes id) refl,
  take-be_before 8 id.ms (be_before 8 id.seq []),
  drop-be_before 8 id.ms (be_before 8 id.seq []),
  take-be_before 8 id.seq [],
  be_value-be_before 8 id.ms h.0,
  be_value-be_before 8 id.seq h.1,
)
