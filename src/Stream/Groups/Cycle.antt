-- ===== src/Stream/Groups/Cycle.antt =====
-- stream.go: a group and its pending entries from creation to removal.
use pebbis.Prelude.{
  ℕ, ◌^◌, ◌<◌, ◌≡◌, refl, ◌∙◌, arith, Bool, true, not, Option, none, some, List, [], ◌∷◌, ◌++◌, leb,
  length, length-append, take, drop, append_assoc, Bool-cases, inl, inr,
}
use pebbis.Prelude.Int.{of_u64}
use pebbis.Prelude.Bytes.{
  Bytes, append_be, append_be-append, be_before, be_value, be_value-be_before, take-be_before,
  drop-be_before, bytes_lt, bytes_eq, bytes_eq_iff, take-append, drop-append_add,
}
use pebbis.Prelude.Assoc.{find, bytes_eq_refl}
use pebbis.Storage.Prefix.{has_prefix, prefix_end}
use pebbis.Engine.{
  Pair, Pebble, put, delete, delete_range, select, insert, perform, perform_all, in_range, visit,
}
use pebbis.Engine.Sorted.{bytes_lt-total}
use pebbis.Engine.Scans.{collect, in_range-zero, prefix_end-append}
use pebbis.Stream.{
  StreamId, must16, stream_group_prefix, stream_pel_prefix, seg_stream_group, seg_stream_pel,
}
use pebbis.Stream.Ids.{IsId, must16_lem, length-id_bytes}
use pebbis.Stream.Log.View.{entry_of}
use pebbis.Stream.Groups.{pending_of, index_byte, pel_value, group_get, group_set, group_destroy}
use pebbis.Stream.Groups.Pending.{pending_log}

-- No byte 0, which ends a consumer's name in a pending entry.
abbrev pub HasNoZero : Bytes → Type 0
HasNoZero [] = Unit
HasNoZero (b ∷ s) = (0 < b) × HasNoZero s

index_byte-append : (s more : Bytes) → HasNoZero s → index_byte (s ++ 0 ∷ more) 0 ≡ some (length s)
unfolding index_byte
index_byte-append [] more h = refl
index_byte-append (b ∷ s) more (h, hs) = ground (arith, index_byte-append s more hs)

append_be_end : (n : ℕ) (buf : Bytes) (v : ℕ) → append_be n buf v ≡ buf ++ be_before n v []
unfolding append_be
append_be_end n buf v = refl

pel_value_lem :
    (consumer : Bytes) (count now : ℕ)
    → pel_value consumer count now ≡ consumer ++ 0 ∷ be_before 4 count (be_before 8 now [])
unfolding pel_value
pel_value_lem consumer count now = append_be_end 8 _ now ∙ simp (append_assoc, append_be-append)

-- A delivery to a consumer whose name has no byte 0 is read back with its consumer, its 32-bit
-- counter and its 64-bit time.
pub pending_of-pel_value :
    (consumer : Bytes) (id : StreamId) (count now : ℕ)
    → HasNoZero consumer
    → count < 2 ^ 32
    → now < 2 ^ 64
    → pending_of consumer id (pel_value consumer count now)
      ≡ some
          (record { id = id; consumer = consumer; delivery_ms = of_u64 now; delivery_cert = count })
unfolding pending_of
pending_of-pel_value consumer id count now h hc hn =
    let tail = 0 ∷ be_before 4 count (be_before 8 now []) in
    rw
      (
        pel_value_lem consumer count now,
        index_byte-append consumer (be_before 4 count (be_before 8 now [])) h,
      )
      (ground (
        arith,
        take-append (length consumer) consumer tail refl,
        bytes_eq_refl consumer,
        length-append consumer tail,
        drop-append_add 5 consumer tail,
        drop-append_add 1 consumer tail,
        be_value-be_before 8 now hn,
        be_value-be_before 4 count hc,
      ))

-- The key itself comes first among the keys from it on.
first_insert :
    (k v : Bytes) (hi : Option Bytes) (ps : List Pair)
    → in_range k hi k ≡ true
    → (rest : List Pair) × (select (in_range k hi) (insert k v ps) ≡ (k, v) ∷ rest)
unfolding select insert
first_insert k v hi [] h = ([], rw h refl)
first_insert k v hi ((j, w) ∷ ps) h = elim (Bool-cases (bytes_eq k j)) [
  | inl e ↦ rw (e, h) (select (in_range k hi) ps, refl)
  | inr n ↦ elim (Bool-cases (bytes_lt k j)) [
    | inl b ↦ rw (n, b, h) (select (in_range k hi) ((j, w) ∷ ps), refl)
    | inr b ↦
        let before = bytes_lt-total k j b n in
        let (rest, e) = first_insert k v hi ps h in rw (n, b, before) (rest, e)
  ]
]

abbrev group_stem : ℕ → Bytes → Bytes → Bytes
group_stem db key group = append_be 2 (seg_stream_group ∷ []) db ++ key ++ 0 ∷ group

group_prefix_lem :
    (db : ℕ) (key group : Bytes)
    → stream_group_prefix db key group ≡ group_stem db key group ++ 0 ∷ []
unfolding stream_group_prefix
group_prefix_lem db key group = simp append_assoc

own_range :
    (db : ℕ) (key group : Bytes)
    → let p = stream_group_prefix db key group in in_range p (prefix_end p) p ≡ true
own_range db key group =
    let stem = group_stem db key group in
    rw (group_prefix_lem db key group, prefix_end-append stem 0 (omega arith))
      (in_range-zero stem (stem ++ 0 ∷ []) ∙ has_prefix-refl (stem ++ 0 ∷ []))
  where
    has_prefix-refl : (p : Bytes) → has_prefix p p ≡ true
    has_prefix-refl [] = refl
    has_prefix-refl (b ∷ p) = ground (arith, has_prefix-refl p)

read_must16 :
    (id : StreamId)
    → IsId id
    → (be_value (take 8 (must16 id)) ≡ id.ms) × (be_value (take 8 (drop 8 (must16 id))) ≡ id.seq)
read_must16 id (hm, hs) = rw (must16_lem id) (
  rw (take-be_before 8 id.ms (be_before 8 id.seq [])) (be_value-be_before 8 id.ms hm),
  rw (drop-be_before 8 id.ms (be_before 8 id.seq []), take-be_before 8 id.seq [])
      (be_value-be_before 8 id.seq hs),
)

find-insert : (k v : Bytes) (ps : List Pair) → find k (insert k v ps) ≡ some v
unfolding find insert
find-insert k v [] = rw (bytes_eq_refl k) refl
find-insert k v ((j, w) ∷ ps) =
    ground (arith, find-insert k v ps, bytes_eq_refl k, bytes_eq_iff k j, bytes_eq_iff j k)

find-delete : (k : Bytes) (ps : List Pair) → find k (select (λ j. not (bytes_eq j k)) ps) ≡ none
unfolding find select
find-delete k [] = refl
find-delete k ((j, w) ∷ ps) = elim (Bool-cases (bytes_eq j k)) [
  | inl e ↦ rw e (find-delete k ps)
  | inr n ↦ rw (n, n) (find-delete k ps)
]

long_enough : (id : StreamId) → leb 16 (length (must16 id)) ≡ true
long_enough id = rw (must16_lem id) (ground (arith, length-id_bytes id))

find-select :
    (k : Bytes) (test : Bytes → Bool) (ps : List Pair)
    → find k ps ≡ none
    → find k (select test ps) ≡ none
unfolding find select
find-select k test [] h = refl
find-select k test ((j, w) ∷ ps) h = elim (Bool-cases (bytes_eq j k)) [
  | inl e ↦ let h' = rw e at h in absurd (cc)
  | inr n ↦
      let h' = rw n at h in
      elim (Bool-cases (test j)) [
        | inl t ↦ rw (t, n) (find-select k test ps h')
        | inr t ↦ rw t (find-select k test ps h')
      ]
]

abbrev pel_stem : ℕ → Bytes → Bytes → Bytes
pel_stem db key group = append_be 2 (seg_stream_pel ∷ []) db ++ key ++ 0 ∷ group

pel_range :
    (db : ℕ) (key group k : Bytes)
    → let p = stream_pel_prefix db key group in in_range p (prefix_end p) k ≡ has_prefix k p
unfolding stream_pel_prefix
pel_range db key group k =
    let stem = pel_stem db key group in
    let same : stream_pel_prefix db key group ≡ stem ++ 0 ∷ [] = simp append_assoc in
    rw (same, prefix_end-append stem 0 (omega arith)) (in_range-zero stem k)

none_left :
    (db : ℕ) (key group : Bytes) (ps : List Pair)
    → let p = stream_pel_prefix db key group in
      collect (entry_of p) (select (λ k. not (in_range p (prefix_end p) k)) ps) ≡ []
unfolding collect select
none_left db key group [] = refl
none_left db key group ((k, v) ∷ ps) =
    let p = stream_pel_prefix db key group in
    let same = pel_range db key group k in
    elim (Bool-cases (has_prefix k p)) [
      | inl e ↦ rw (same, e) (none_left db key group ps)
      | inr n ↦ rw (same, n, n) (none_left db key group ps)
    ]

module _ (pebble : Pebble) (eng : pebble.State) (db : ℕ) (key group : Bytes) where
  -- The last delivered ID of a group that was set is read again, whatever was there before.
  pub group_get-group_set :
      (id : StreamId)
      → IsId id
      → group_get pebble (group_set pebble eng db key group id) db key group ≡ some id
  unfolding group_get group_set perform_all perform visit
  group_get-group_set id h =
      let p = stream_group_prefix db key group in
      let (rest, e) =
        first_insert p (must16 id) (prefix_end p) (pebble.pairs eng) (own_range db key group) in
      let (ms, seq) = read_must16 id h in
      rw
        (
          pebble.iter_lem (group_set pebble eng db key group id) p (prefix_end p),
          pebble.apply_lem eng (put p (must16 id) ∷ []),
          e,
        )
        (rw (visit, long_enough id, ms, seq) refl)

  -- A group that was destroyed has no pending entry, and no key of its own.
  pub group_destroy_lem :
      let eng' = group_destroy pebble eng db key group in
      (pending_log pebble eng' db key group ≡ [])
      × (pebble.get eng' (stream_group_prefix db key group) ≡ none)
  unfolding group_destroy perform_all perform
  group_destroy_lem =
      let k = stream_group_prefix db key group in
      let p = stream_pel_prefix db key group in
      let once = pebble.apply eng (delete k ∷ []) in
      let gone = find-delete k (pebble.pairs eng) in
      (
        rw
            (
              pebble.apply_lem once (delete_range p (prefix_end p) ∷ []),
              pebble.apply_lem eng (delete k ∷ []),
            )
            (none_left db key group (select (λ j. not (bytes_eq j k)) (pebble.pairs eng))),
        rw
            (
              pebble.get_lem (group_destroy pebble eng db key group) k,
              pebble.apply_lem once (delete_range p (prefix_end p) ∷ []),
              pebble.apply_lem eng (delete k ∷ []),
            )
            (find-select k (λ j. not (in_range p (prefix_end p) j)) _ gone),
      )
