-- ===== src/Stream/Groups/Pending.antt =====
-- stream.go: what `pelList` returns of the pending entries of a group.
use pebbis.Prelude.{
  ℕ, zero, suc, ◌≤◌, ◌≡◌, refl, ap, arith, Bool, true, false, not, ◌&&◌, ◌||◌, ◌+◌, drop, Option,
  none, some, List, [], ◌∷◌, ◌++◌, ltb, ◌==◌, if◌then◌else◌, length, length-append, take,
  append_assoc, append-nil, Bool-cases, Option-cases, inl, inr,
}
use mathlib.Core.Path.{sym}
use pebbis.Prelude.Int.{ℤ, pos, negsuc, of_u64}
use pebbis.Prelude.Bytes.{Bytes, bytes_eq, be_value, take-append}
use pebbis.Engine.{Pair, Pebble, visit, in_range}
use pebbis.Engine.Scans.{
  Each, collect, collect-ext, collect-select, filter_map, filter_map-collect, then_map,
}
use pebbis.Stream.{StreamId, max_u64, less, stream_pel_prefix}
use pebbis.Stream.Ids.{IsId, must16_lem, id_bytes, id_of_entry_key_lem}
use pebbis.Stream.Log.View.{Row, own, other, entry_of, entry_of-own, in_range-own, in_range-other}
use pebbis.Stream.Groups.{
  PendingEntry, index_byte, pending_of, read_pending, pending_step, full, pel_end, pel_list,
}

-- From `start` to `end`, both included; but if `end` has the greatest sequence number, nothing with
-- its milliseconds.
abbrev pub pel_window : StreamId → StreamId → StreamId → Bool
pel_window start end id =
    not (less id start) && (if end.seq == max_u64 then ltb id.ms end.ms else not (less end id))

-- What a value says: the name before its first byte 0, and then a counter of 4 bytes and a time of 8.
abbrev pub delivery_at : StreamId → Bytes → Option ℕ → Option PendingEntry
delivery_at id v none = none
delivery_at id v (some z) =
    if ltb (length v) (z + 13)
    then none
    else some (record {
      id = id;
      consumer = take z v;
      delivery_ms = of_u64 (be_value (take 8 (drop (z + 5) v)));
      delivery_cert = be_value (take 4 (drop (z + 1) v));
    })

abbrev pub delivery : StreamId → Bytes → Option PendingEntry
delivery id v = delivery_at id v (index_byte v 0)

-- The entries of one consumer; no name stands for all.
abbrev pub only_of : Bytes → Option PendingEntry → Option PendingEntry
only_of consumer none = none
only_of consumer (some e) =
    if bytes_eq consumer [] || bytes_eq e.consumer consumer then some e else none

abbrev pub pending_row : Bytes → StreamId → StreamId → StreamId × Bytes → Option PendingEntry
pending_row consumer start end (id, v) =
    if pel_window start end id then only_of consumer (delivery id v) else none

pending_of-delivery :
    (consumer : Bytes) (id : StreamId) (v : Bytes)
    → pending_of consumer id v ≡ only_of consumer (delivery id v)
unfolding pending_of
pending_of-delivery consumer id v = elim (Option-cases (index_byte v 0)) [
  | inl e ↦ rw (pending_of, e) refl
  | inr (z, e) ↦ elim (Bool-cases (ltb (length v) (z + 13))) [
    | inl short ↦ rw (pending_of, e, short) (ground arith)
    | inr long ↦ rw (pending_of, e, long) (ground arith)
  ]
]

-- A count above 0 is a limit.
abbrev pub limited : {A : Type 0} → ℤ → List A → List A
limited (pos n) l = if ltb 0 n then take n l else l
limited (negsuc n) l = l

pel_end_lem :
    (start end id : StreamId)
    → IsId end
    → IsId id
    → (if less id start then false else less id (pel_end end)) ≡ pel_window start end id
unfolding pel_end less
pel_end_lem start end id h k = ground arith

pel_end-IsId : (end : StreamId) → IsId end → IsId (pel_end end)
unfolding pel_end
pel_end-IsId end h = ground arith

limited-full :
    {A : Type 0} (count : ℤ) (acc rest : List A) (a : A)
    → full count (length acc) ≡ false
    → full count (length (acc ++ a ∷ [])) ≡ true
    → limited count ((acc ++ a ∷ []) ++ rest) ≡ acc ++ a ∷ []
limited-full (pos n) acc rest a h f =
    let grown = length-append acc (a ∷ []) in
    let exact : length (acc ++ a ∷ []) ≡ n = ground (arith, grown) in
    let more : ltb 0 n ≡ true = ground (arith, f) in
    rw more (take-append n (acc ++ a ∷ []) rest exact)
limited-full (negsuc n) acc rest a h f = absurd (cc)

take-short : {A : Type 0} (n : ℕ) (l : List A) → length l ≤ n → take n l ≡ l
take-short zero [] h = refl
take-short zero (a ∷ l) h = absurd (omega arith)
take-short (suc n) [] h = refl
take-short (suc n) (a ∷ l) h = ap (◌∷◌ a) (take-short n l (omega arith))

limited-short :
    {A : Type 0} (count : ℤ) (acc : List A)
    → full count (length acc) ≡ false
    → limited count acc ≡ acc
limited-short (pos n) acc h = elim (Bool-cases (ltb 0 n)) [
  | inl e ↦ rw e (take-short n acc (ground (arith, e, h)))
  | inr e ↦ rw e refl
]
limited-short (negsuc n) acc h = refl

not_full : (count : ℤ) → full count 0 ≡ false
not_full (pos n) = ground arith
not_full (negsuc n) = refl

visit-limited :
    (p consumer : Bytes) (count : ℤ) (ps : List Pair) (acc : List PendingEntry)
    → full count (length acc) ≡ false
    → visit (pending_step p consumer count) ps acc
      ≡ limited count (acc ++ collect (read_pending p consumer) ps)
unfolding visit collect pending_step
visit-limited p consumer count [] acc h = rw append-nil (sym (limited-short count acc h))
visit-limited p consumer count ((k, v) ∷ ps) acc h =
    elim (Option-cases (read_pending p consumer k v)) [
      | inl e ↦ rw (visit, pending_step, e) (visit-limited p consumer count ps acc h)
      | inr (a, e) ↦
          let out = acc ++ a ∷ [] in
          let rest = collect (read_pending p consumer) ps in
          rw (visit, pending_step, e, sym (append_assoc acc (a ∷ []) rest))
            (elim (Bool-cases (full count (length out))) [
              | inl f ↦ rw f (sym (limited-full count acc rest a h f))
              | inr f ↦ rw f (visit-limited p consumer count ps out f)
            ])
    ]

read_pending_lem :
    (p consumer k v : Bytes) (start end : StreamId)
    → IsId start
    → IsId end
    → Row p k
    → (if in_range (p ++ id_bytes start) (some (p ++ id_bytes (pel_end end))) k
        then read_pending p consumer k v
        else none)
      ≡ then_map (entry_of p k v) (pending_row consumer start end)
unfolding read_pending
read_pending_lem p consumer k v start end hs he (own id h e) =
    rw
      (
        e,
        in_range-own p start (pel_end end) id hs (pel_end-IsId end he) h,
        pel_end_lem start end id he h,
        entry_of-own p id v h,
        id_of_entry_key_lem p id h,
        pending_of-delivery consumer id v,
      )
      refl
read_pending_lem p consumer k v start end hs he (other n) =
    rw (in_range-other p (id_bytes start) (id_bytes (pel_end end)) k n, n) refl

module _ (pebble : Pebble) (eng : pebble.State) (db : ℕ) (key group : Bytes) where
  -- The pending entries of the group, as pairs of an ID and a value.
  abbrev pub pending_log : List (StreamId × Bytes)
  pending_log = collect (entry_of (stream_pel_prefix db key group)) (pebble.pairs eng)

  abbrev pub IsPending : Type 0
  IsPending = Each (Row (stream_pel_prefix db key group)) (pebble.pairs eng)

  -- If every key under the prefix of the pending list is the key of an entry, XPENDING lists the
  -- pending entries of a consumer, or of all, from `start` to `end`, two 64-bit IDs, in the
  -- order of the stream, and no more than a positive count. If the sequence number of `end` is
  -- the greatest, the entries with the milliseconds of `end` are missing.
  pub pel_list_lem :
      (consumer : Bytes) (start end : StreamId) (count : ℤ)
      → IsPending
      → IsId start
      → IsId end
      → pel_list pebble eng db key group consumer start end count
        ≡ limited count (filter_map (pending_row consumer start end) pending_log)
  unfolding pel_list
  pel_list_lem consumer start end count h hs he =
      let p = stream_pel_prefix db key group in
      let lo = p ++ id_bytes start in
      let hi = some (p ++ id_bytes (pel_end end)) in
      let ps = pebble.pairs eng in
      let collected =
        collect-ext (Row p) _ _ ps h (λ k v. read_pending_lem p consumer k v start end hs he) in
      rw
        (
          must16_lem start,
          must16_lem (pel_end end),
          visit-limited p consumer count (pebble.iter eng lo hi) [] (not_full count),
          pebble.iter_lem eng lo hi,
          collect-select (read_pending p consumer) (in_range lo hi) ps,
          filter_map-collect (pending_row consumer start end) (entry_of p) ps,
          collected,
        )
        refl
