-- ===== src/Stream/Groups.antt =====
-- stream.go: consumer groups, their last delivered ID and their pending entries. The engine is the
-- parameter; its calls succeed. `now` is the clock's `uint64(UnixMilli())`.
pub mod Pending
pub mod Cycle
use pebbis.Prelude.{
  ℕ, zero, suc, ◌+◌, ◌%◌, ◌^◌, Bool, true, false, not, ◌&&◌, ◌||◌, Option, none, some, List, [],
  ◌∷◌, ◌++◌, ltb, leb, ◌==◌, if◌then◌else◌, length, take, drop,
}
use pebbis.Prelude.Options.{◌>>=◌}
use pebbis.Prelude.Int.{ℤ, pos, negsuc, of_u64}
use pebbis.Prelude.Bytes.{Bytes, bytes_eq, append_be, be_value}
use pebbis.Storage.Prefix.{prefix_end}
use pebbis.Engine.{Pebble, Op, put, delete, delete_range, Visit, next, stop, scan, scan_range}
use pebbis.Stream.{
  StreamId, StreamField, StreamEntry, zero_id, max_id, must16, stream_group_prefix,
  stream_pel_prefix, append_stream_pel_key, append_stream_entry_key, stream_id_of_entry_key,
}
use pebbis.Stream.Fields.{decode_stream_fields}

-- One row of XPENDING; the delivery counter is a `uint32`.
pub record PendingEntry : Type 0 where
  pub id : StreamId
  pub consumer : Bytes
  pub delivery_ms : ℤ
  pub delivery_cert : ℕ

-- `indexByte`; `none` is -1.
unfoldable pub index_byte : Bytes → ℕ → Option ℕ
index_byte [] c = none
index_byte (b ∷ s) c =
    let rest = index_byte s c in if b == c then some 0 else (rest >>= λ i. some (suc i))

-- consumer | 0x00 | count(4) | deliveredMs(8)
unfoldable pub pel_value : Bytes → ℕ → ℕ → Bytes
pel_value consumer count now =
    let v = consumer ++ 0 ∷ [] in let v = append_be 4 v count in append_be 8 v now

-- An empty consumer stands for all of them.
unfoldable pub pending_of : Bytes → StreamId → Bytes → Option PendingEntry
pending_of consumer id v = index_byte v 0 >>= λ z.
    if not (bytes_eq consumer []) && not (bytes_eq (take z v) consumer)
    then none
    else if ltb (length v) (z + 13)
    then none
    else some (record {
      id = id;
      consumer = take z v;
      delivery_ms = of_u64 (be_value (take 8 (drop (z + 5) v)));
      delivery_cert = be_value (take 4 (drop (z + 1) v));
    })

-- The callback of `pelList` on one pair.
unfoldable pub read_pending : Bytes → Bytes → Bytes → Bytes → Option PendingEntry
read_pending prefix consumer k v =
    stream_id_of_entry_key prefix k >>= λ id. pending_of consumer id v

-- `count > 0 && len(out) >= count`
abbrev pub full : ℤ → ℕ → Bool
full (pos n) m = ltb 0 n && leb n m
full (negsuc n) m = false

unfoldable pub pending_step :
    Bytes → Bytes → ℤ → List PendingEntry → Bytes → Bytes → Visit (List PendingEntry)
pending_step prefix consumer count out k v = elim (read_pending prefix consumer k v) [
  | none ↦ next out
  | some e ↦ let out = out ++ e ∷ [] in if full count (length out) then stop out else next out
]

-- `streamID{ms: end.ms, seq: end.seq + 1}`, which wraps.
unfoldable pub pel_end : StreamId → StreamId
pel_end end = record { ms = end.ms; seq = (end.seq + 1) % 2 ^ 64 }

module _ (pebble : Pebble) where
  -- The first pair that carries the prefix.
  unfoldable pub group_get : pebble.State → ℕ → Bytes → Bytes → Option StreamId
  group_get eng db key group =
      scan pebble eng (stream_group_prefix db key group)
        (λ found k v.
          if leb 16 (length v)
          then stop (some (record { ms = be_value (take 8 v); seq = be_value (take 8 (drop 8 v)) }))
          else stop found)
        none

  unfoldable pub group_set : pebble.State → ℕ → Bytes → Bytes → StreamId → pebble.State
  group_set eng db key group id =
      pebble.apply eng (put (stream_group_prefix db key group) (must16 id) ∷ [])

  unfoldable pub group_destroy : pebble.State → ℕ → Bytes → Bytes → pebble.State
  group_destroy eng db key group =
      let eng = pebble.apply eng (delete (stream_group_prefix db key group) ∷ []) in
      let p = stream_pel_prefix db key group in
      pebble.apply eng (delete_range p (prefix_end p) ∷ [])

  unfoldable pub pel_add : pebble.State → ℕ → ℕ → Bytes → Bytes → Bytes → StreamId → pebble.State
  pel_add eng now db key group consumer id =
      pebble.apply eng
        (put (append_stream_pel_key [] db key group id) (pel_value consumer 1 now) ∷ [])

  unfoldable pub pel_remove : pebble.State → ℕ → Bytes → Bytes → StreamId → pebble.State
  pel_remove eng db key group id =
      pebble.apply eng (delete (append_stream_pel_key [] db key group id) ∷ [])

  unfoldable pub pel_move_to :
      pebble.State → ℕ → ℕ → Bytes → Bytes → Bytes → StreamId → pebble.State
  pel_move_to eng now db key group consumer id = pel_add eng now db key group consumer id

  unfoldable pub pel_list :
      pebble.State → ℕ → Bytes → Bytes → Bytes → StreamId → StreamId → ℤ → List PendingEntry
  pel_list eng db key group consumer start end count =
      let prefix = stream_pel_prefix db key group in
      let lo = prefix ++ must16 start in
      let hi = prefix ++ must16 (pel_end end) in
      scan_range pebble eng lo (some hi) (pending_step prefix consumer count) []

  -- Each delivery is written back before the entry is read; the entry of a corrupt value is left
  -- out, and that of a missing one has no fields.
  pub owned_loop :
      pebble.State
      → ℕ
      → ℕ
      → Bytes
      → Bytes
      → List PendingEntry
      → List StreamEntry
      → pebble.State × List StreamEntry
  owned_loop eng now db key group [] out = (eng, out)
  owned_loop eng now db key group (p ∷ pending) out =
      let pk = append_stream_pel_key [] db key group p.id in
      let nv = pel_value p.consumer ((p.delivery_cert + 1) % 2 ^ 32) now in
      let eng = pebble.apply eng (put pk nv ∷ []) in
      let found : List StreamEntry =
        elim (pebble.get eng (append_stream_entry_key [] db key p.id)) [
          | none ↦ record { id = p.id; fields = [] } ∷ []
          | some v ↦ elim (decode_stream_fields v) [
            | none ↦ []
            | some fields ↦ record { id = p.id; fields = fields } ∷ []
          ]
        ] in
      owned_loop eng now db key group pending (out ++ found)

  unfoldable pub pel_owned :
      pebble.State → ℕ → ℕ → Bytes → Bytes → Bytes → ℤ → pebble.State × List StreamEntry
  pel_owned eng now db key group consumer count =
      owned_loop eng now db key group (pel_list eng db key group consumer zero_id max_id count) []

  add_consumer : List Bytes → Bytes → List Bytes
  add_consumer [] c = c ∷ []
  add_consumer (d ∷ seen) c =
      let rest = add_consumer seen c in if bytes_eq d c then d ∷ seen else d ∷ rest

  consumers : List PendingEntry → List Bytes → List Bytes
  consumers [] seen = seen
  consumers (p ∷ pending) seen = consumers pending (add_consumer seen p.consumer)

  pub x_group_consumer_count : pebble.State → ℕ → Bytes → Bytes → ℕ
  x_group_consumer_count eng db key group =
      length (consumers (pel_list eng db key group [] zero_id max_id (pos 0)) [])
