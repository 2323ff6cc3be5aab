-- ===== src/Stream/Log/Range.antt =====
-- stream.go: what `xRange` returns.
use pebbis.Prelude.{
  ℕ, ◌≡◌, refl, arith, Bool, true, false, not, ◌&&◌, ◌||◌, Option, none, some, List, [], ◌++◌, ◌==◌,
  if◌then◌else◌, Bool-cases, Option-cases, inl, inr,
}
use mathlib.Core.List.{reverse}
use pebbis.Prelude.Int.{ℤ}
use pebbis.Prelude.Bytes.{Bytes}
use pebbis.Engine.{Pebble, in_range, next}
use pebbis.Engine.Scans.{
  collect, collect-ext, collect-select, visit-collect, push, filter_map, filter_map-collect,
  then_map,
}
use pebbis.Stream.{
  StreamId, StreamEntry, max_u64, less, stream_entry_prefix, stream_id_of_entry_key,
}
use pebbis.Stream.Ids.{IsId, must16_lem, id_bytes, id_of_entry_key_lem}
use pebbis.Stream.Fields.{decode_stream_fields}
use pebbis.Stream.Log.{hi_end, in_bounds, x_range, x_range_between, cut}
use pebbis.Stream.Log.View.{
  Row, own, other, entry_of, entry_of-own, in_range-own, in_range-other, log, IsStream,
}

-- Between the bounds, both included. Below the greatest bound the IDs with the greatest
-- milliseconds are missing.
abbrev pub in_window : StreamId → StreamId → StreamId → Bool
in_window start end id =
    not (less id start)
    && not (less end id)
    && not (end.ms == max_u64 && end.seq == max_u64 && id.ms == max_u64)

-- An entry of the result, unless its value is corrupt.
abbrev pub shown : StreamId → StreamId → StreamId × Bytes → Option StreamEntry
shown start end (id, v) =
    if in_window start end id
    then then_map (decode_stream_fields v) (λ fields. some (record { id = id; fields = fields }))
    else none

-- What the callback makes of one pair.
abbrev accepted : Bytes → StreamId → StreamId → Bytes → Bytes → Option StreamEntry
accepted prefix start end k v = then_map (stream_id_of_entry_key prefix k) (λ id.
    if less id start || less end id
    then none
    else then_map (decode_stream_fields v) (λ fields. some (record { id = id; fields = fields })))

hi_end-IsId : (end : StreamId) → IsId end → IsId (hi_end end)
unfolding hi_end
hi_end-IsId end h = ground arith

hi_end_lem :
    (start end id : StreamId)
    → IsId end
    → IsId id
    → (if (if less id start then false else less id (hi_end end))
        then (if less id start || less end id then false else true)
        else false)
      ≡ in_window start end id
unfolding hi_end less
hi_end_lem start end id h k = ground arith

choose :
    (a b c d : Bool) (x : Option StreamEntry)
    → (if a then (if b then false else true) else false) ≡ c
    → (if a then (if b then none else x) else none) ≡ (if c then x else none)
choose a b c d x h = ground arith

accepted_lem :
    (p k v : Bytes) (start end : StreamId)
    → IsId start
    → IsId end
    → Row p k
    → (if in_range (p ++ id_bytes start) (some (p ++ id_bytes (hi_end end))) k
        then accepted p start end k v
        else none)
      ≡ then_map (entry_of p k v) (shown start end)
accepted_lem p k v start end hs he (own id h e) =
    rw
      (
        e,
        in_range-own p start (hi_end end) id hs (hi_end-IsId end he) h,
        entry_of-own p id v h,
        id_of_entry_key_lem p id h,
      )
      (choose _ _ _ true _ (hi_end_lem start end id he h))
accepted_lem p k v start end hs he (other n) =
    rw (in_range-other p (id_bytes start) (id_bytes (hi_end end)) k n, n) refl

in_bounds_lem :
    (p : Bytes) (start end : StreamId) (acc : List StreamEntry) (k v : Bytes)
    → in_bounds p start end acc k v ≡ next (push (accepted p start end k v) acc)
in_bounds_lem p start end acc k v = elim (Option-cases (stream_id_of_entry_key p k)) [
  | inl e ↦ rw (in_bounds, e) refl
  | inr (id, e) ↦
      rw (in_bounds, e)
        (elim (Bool-cases (less id start || less end id)) [
          | inl o ↦ rw o refl
          | inr o ↦ rw o (elim (Option-cases (decode_stream_fields v)) [
            | inl d ↦ rw d refl
            | inr (fields, d) ↦ rw d refl
          ])
        ])
]

module _ (pebble : Pebble) (eng : pebble.State) (db : ℕ) (key : Bytes) where
  collect-accepted :
      (start end : StreamId)
      → IsStream pebble eng db key
      → IsId start
      → IsId end
      → collect (accepted (stream_entry_prefix db key) start end) (
          pebble.iter eng
            (stream_entry_prefix db key ++ id_bytes start)
            (some (stream_entry_prefix db key ++ id_bytes (hi_end end))))
        ≡ filter_map (shown start end) (log pebble eng db key)
  collect-accepted start end h hs he =
      let p = stream_entry_prefix db key in
      let lo = p ++ id_bytes start in
      let hi = some (p ++ id_bytes (hi_end end)) in
      rw
        (
          pebble.iter_lem eng lo hi,
          collect-select (accepted p start end) (in_range lo hi) (pebble.pairs eng),
          filter_map-collect (shown start end) (entry_of p) (pebble.pairs eng),
        )
        (collect-ext (Row p) _ _ (pebble.pairs eng) h (λ k v. accepted_lem p k v start end hs he))

  between_lem :
      (start end : StreamId) (count : ℤ) (rev : Bool)
      → IsStream pebble eng db key
      → IsId start
      → IsId end
      → let out = filter_map (shown start end) (log pebble eng db key) in
        x_range_between pebble eng db key start end count rev
        ≡ cut count (if rev then reverse out else out)
  between_lem start end count rev h hs he =
      let p = stream_entry_prefix db key in
      let hi = some (p ++ id_bytes (hi_end end)) in
      rw
        (
          must16_lem start,
          must16_lem (hi_end end),
          visit-collect (in_bounds p start end) (accepted p start end)
              (pebble.iter eng (p ++ id_bytes start) hi) [] (in_bounds_lem p start end),
          collect-accepted start end h hs he,
        )
        refl

  -- If every key under the prefix of the stream is the key of an entry, XRANGE and XREVRANGE
  -- return the entries of the stream from the lower bound to the upper one, whichever of the two
  -- 64-bit bounds comes first, in the order of the stream or backwards, and no more than a
  -- positive count. An entry whose value is corrupt is left out, and so is every entry with the
  -- greatest milliseconds if the upper bound is the greatest ID.
  pub x_range_lem :
      (start end : StreamId) (count : ℤ) (rev : Bool)
      → IsStream pebble eng db key
      → IsId start
      → IsId end
      → let lo = if less end start then end else start in
        let hi = if less end start then start else end in
        let out = filter_map (shown lo hi) (log pebble eng db key) in
        x_range pebble eng db key start end count rev ≡ cut count (if rev then reverse out else out)
  unfolding x_range
  x_range_lem start end count rev h hs he = elim (Bool-cases (less end start)) [
    | inl e ↦ rw e (between_lem end start count rev h he hs)
    | inr e ↦ rw e (between_lem start end count rev h hs he)
  ]
