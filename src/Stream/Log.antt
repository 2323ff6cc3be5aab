-- ===== src/Stream/Log.antt =====
-- stream.go: the operations on the entries of a stream. The engine is the parameter; its calls
-- succeed. An `error` reply is a `Failure`.
pub mod View
pub mod Deletes
pub mod Trim
pub mod Apart
pub mod Add
pub mod Append
pub mod Choice
pub mod Range
use pebbis.Prelude.{
  ℕ, ◌+◌, ◌-◌, ◌%◌, ◌^◌, Bool, true, false, not, ◌&&◌, ◌||◌, Option, none, some, List, [], ◌∷◌,
  ◌++◌, ltb, leb, ◌==◌, if◌then◌else◌, length, take, replicate,
}
use mathlib.Core.List.{reverse}
use pebbis.Prelude.Int.{ℤ, pos, negsuc}
use pebbis.Prelude.Options.{◌>>=◌}
use pebbis.Prelude.Bytes.{Bytes}
use pebbis.Storage.Prefix.{prefix_end}
use pebbis.Engine.{
  Pebble, Op, put, delete, delete_range, Visit, next, stop, scan, scan_keys, scan_range,
  last_in_range,
}
use pebbis.Stream.{
  StreamId, StreamField, StreamEntry, max_u64, zero_id, less, must16, stream_entry_prefix,
  append_stream_entry_key, stream_id_of_entry_key,
}
use pebbis.Stream.Fields.{encode_stream_fields, decode_stream_fields}

-- The two messages of XADD: an ID that is not above the last one, and no ID left.
pub data Failure : Type 0 where
  equal_or_smaller maximal_id : Failure

pub data Reply (A : Type 0) : Type 0 where
  reply : A → Reply A
  failed : Failure → Reply A

-- The ID of "ms-*".
unfoldable pub partial_id : Option StreamId → ℕ → Reply StreamId
partial_id none partial_ms =
    if partial_ms == 0
    then reply (record { ms = 0; seq = 1 })
    else reply (record { ms = partial_ms; seq = 0 })
partial_id (some last) partial_ms =
    if ltb partial_ms last.ms
    then failed equal_or_smaller
    else if partial_ms == last.ms
    then (if last.seq == max_u64
        then failed maximal_id
        else reply (record { ms = last.ms; seq = (last.seq + 1) % 2 ^ 64 }))
    else reply (record { ms = partial_ms; seq = 0 })

-- The ID of "*".
unfoldable pub auto_id : Option StreamId → ℕ → StreamId
auto_id none now = record { ms = now; seq = 0 }
auto_id (some last) now =
    if ltb last.ms now
    then record { ms = now; seq = 0 }
    else record { ms = last.ms; seq = (last.seq + 1) % 2 ^ 64 }

abbrev pub above_last : Option StreamId → StreamId → Reply StreamId
above_last none id = reply id
above_last (some last) id = if not (less last id) then failed equal_or_smaller else reply id

abbrev pub exists : {A : Type 0} → Option A → Bool
exists none = false
exists (some a) = true

abbrev pub and_above : Option StreamId → Reply StreamId → Reply StreamId
and_above last (failed e) = failed e
and_above last (reply id) = above_last last id

-- The first half of `xAdd`: the ID of the new entry.
unfoldable pub new_id : Option StreamId → ℕ → StreamId → Bool → Bool → ℕ → Reply StreamId
new_id last now id auto partial_auto partial_ms =
    if auto || partial_auto
    then and_above last
        (if partial_auto then partial_id last partial_ms else reply (auto_id last now))
    else if id.ms == 0 && id.seq == 0 && exists last
    then failed equal_or_smaller
    else above_last last id

-- The bound behind an inclusive `end`.
unfoldable pub hi_end : StreamId → StreamId
hi_end end =
    if end.seq == max_u64 && not (end.ms == max_u64)
    then record { ms = end.ms + 1; seq = 0 }
    else record { ms = end.ms; seq = (end.seq + 1) % 2 ^ 64 }

-- `out[:count]`, for a count above 0.
abbrev pub cut : {A : Type 0} → ℤ → List A → List A
cut (pos n) out = if ltb 0 n && ltb n (length out) then take n out else out
cut (negsuc n) out = out

-- The engine, the keys whose waiting clients were told, and the counter of changes.
pub record StreamStore (State : Type 0) : Type 0 where
  pub eng : State
  pub notified : List (ℕ × Bytes)
  pub key_changes : ℕ

-- The callback of `xRange`; its two branches on `rev` are the same.
abbrev pub in_bounds :
    Bytes → StreamId → StreamId → List StreamEntry → Bytes → Bytes → Visit (List StreamEntry)
in_bounds prefix start end out k v = elim (stream_id_of_entry_key prefix k) [
  | none ↦ next out
  | some id ↦ if less id start || less end id then next out else elim (decode_stream_fields v) [
    | none ↦ next out
    | some fields ↦ next (out ++ record { id = id; fields = fields } ∷ [])
  ]
]

abbrev pub add_id : Bytes → List StreamId → Bytes → Visit (List StreamId)
add_id prefix ids k = elim (stream_id_of_entry_key prefix k) [
  | none ↦ next ids
  | some id ↦ next (ids ++ id ∷ [])
]

abbrev pub deletions : ℕ → Bytes → List StreamId → List Op
deletions db key [] = []
deletions db key (id ∷ ids) = delete (append_stream_entry_key [] db key id) ∷ deletions db key ids

abbrev pub copy_entry : Bytes → ℕ → Bytes → List Op → Bytes → Bytes → Visit (List Op)
copy_entry prefix db key batch k v = elim (stream_id_of_entry_key prefix k) [
  | none ↦ next batch
  | some id ↦ next (batch ++ put (append_stream_entry_key [] db key id) v ∷ [])
]

module _ (pebble : Pebble) where
  unfoldable pub last_stream_entry_id : pebble.State → ℕ → Bytes → Option StreamId
  last_stream_entry_id eng db key =
      let prefix = stream_entry_prefix db key in
      last_in_range pebble eng prefix (prefix_end prefix) >>= λ pair.
      stream_id_of_entry_key prefix pair.0

  unfoldable pub x_add :
      StreamStore pebble.State
      → ℕ
      → ℕ
      → Bytes
      → StreamId
      → Bool
      → Bool
      → ℕ
      → List StreamField
      → Bool
      → StreamStore pebble.State × Reply StreamId
  x_add st now db key id auto partial_auto partial_ms fields nomkstream =
      let last = last_stream_entry_id st.eng db key in
      elim (new_id last now id auto partial_auto partial_ms) [
        | failed e ↦ (st, failed e)
        | reply id ↦ if nomkstream && not (exists last) then (st, reply zero_id) else (
          record {
            eng =
                pebble.apply st.eng
                  (put (append_stream_entry_key [] db key id) (encode_stream_fields fields) ∷ []);
            notified = (db, key) ∷ st.notified;
            key_changes = (st.key_changes + 1) % 2 ^ 64;
          },
          reply id,
        )
      ]

  abbrev pub x_range_between :
      pebble.State → ℕ → Bytes → StreamId → StreamId → ℤ → Bool → List StreamEntry
  x_range_between eng db key start end count rev =
      let prefix = stream_entry_prefix db key in
      let lo = prefix ++ must16 start in
      let hi = prefix ++ must16 (hi_end end) in
      let out = scan_range pebble eng lo (some hi) (in_bounds prefix start end) [] in
      let out = if rev then reverse out else out in cut count out

  -- Bounds in the wrong order are swapped.
  unfoldable pub x_range :
      pebble.State → ℕ → Bytes → StreamId → StreamId → ℤ → Bool → List StreamEntry
  x_range eng db key start end count rev =
      if less end start
      then x_range_between eng db key end start count rev
      else x_range_between eng db key start end count rev

  -- Each ID is looked up in the engine, not in the batch.
  pub x_del_loop : pebble.State → ℕ → Bytes → List StreamId → List Op × ℕ
  x_del_loop eng db key [] = ([], 0)
  x_del_loop eng db key (id ∷ ids) =
      let k = append_stream_entry_key [] db key id in
      let (batch, n) = x_del_loop eng db key ids in
      elim (pebble.get eng k) [ none ↦ (batch, n) | some v ↦ (delete k ∷ batch, n + 1) ]

  unfoldable pub x_del : pebble.State → ℕ → Bytes → List StreamId → pebble.State × ℕ
  unfolding x_del_loop
  x_del eng db key ids =
      let (batch, n) = x_del_loop eng db key ids in
      if n == 0 then (eng, 0) else (pebble.apply eng batch, n)

  -- The callers turn a negative `n` down.
  unfoldable pub x_trim_maxlen : pebble.State → ℕ → Bytes → ℕ → pebble.State × ℕ
  x_trim_maxlen eng db key n =
      let prefix = stream_entry_prefix db key in
      let ids = scan_keys pebble eng prefix (add_id prefix) [] in
      if leb (length ids) n
      then (eng, 0)
      else let excess = length ids - n in
        (pebble.apply eng (deletions db key (take excess ids)), excess)

  unfoldable pub delete_range_count : pebble.State → Bytes → Bytes → pebble.State × ℕ
  delete_range_count eng lo hi =
      let n = scan_range pebble eng lo (some hi) (λ n k v. next (n + 1)) 0 in
      if n == 0 then (eng, 0) else (pebble.apply eng (delete_range lo (some hi) ∷ []), n)

  unfoldable pub x_trim_min_id : pebble.State → ℕ → Bytes → StreamId → pebble.State × ℕ
  x_trim_min_id eng db key id =
      let prefix = stream_entry_prefix db key in
      delete_range_count eng (prefix ++ replicate 16 0) (prefix ++ must16 id)

  unfoldable pub stream_exists : pebble.State → ℕ → Bytes → Bool
  stream_exists eng db key =
      scan pebble eng (stream_entry_prefix db key) (λ found k v. stop true) false

  -- A batch that is empty was never found to have an entry.
  unfoldable pub copy_stream_entries : pebble.State → ℕ → Bytes → ℕ → Bytes → pebble.State × Bool
  copy_stream_entries eng src_db src dst_db dst =
      let prefix = stream_entry_prefix src_db src in
      elim (scan pebble eng prefix (copy_entry prefix dst_db dst) []) [
        | [] ↦ (eng, false)
        | ◌∷◌ op ops ↦ (pebble.apply eng (op ∷ ops), true)
      ]

  unfoldable pub delete_stream_entries : pebble.State → ℕ → Bytes → pebble.State
  delete_stream_entries eng db key =
      pebble.apply eng (
        scan pebble eng (stream_entry_prefix db key) (λ batch k v. next (batch ++ delete k ∷ []))
          [])
