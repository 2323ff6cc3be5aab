-- ===== src/Stream/Log/View.antt =====
-- stream.go: the entries of a stream among the pairs of the engine, as the model that the
-- operations are compared with.
use pebbis.Prelude.{
  ℕ, ◌≡◌, refl, ap, ◌∙◌, append_assoc, arith, false, Option, none, some, List, [], ◌∷◌, ◌++◌,
  if◌then◌else◌,
}
use pebbis.Prelude.Bytes.{Bytes, append_be}
use pebbis.Storage.Prefix.{has_prefix, prefix_end}
use pebbis.Engine.{Pebble, in_range}
use pebbis.Engine.Scans.{
  Each, collect, collect-same, collect-select, then_map, has_prefix-append, has_prefix-between,
  in_range-zero, prefix_end-append,
}
use pebbis.Stream.{StreamId, stream_entry_prefix, stream_id_of_entry_key, less, seg_stream_entry}
use pebbis.Stream.Ids.{IsId, id_bytes, id_of_entry_key_lem, bytes_lt-id_bytes}

-- A key that starts with the prefix of the stream is the key of an entry.
pub data Row (prefix k : Bytes) : Type 0 where
  own : (id : StreamId) → IsId id → k ≡ prefix ++ id_bytes id → Row prefix k
  other : has_prefix k prefix ≡ false → Row prefix k

abbrev pub entry_of : Bytes → Bytes → Bytes → Option (StreamId × Bytes)
entry_of prefix k v =
    if has_prefix k prefix
    then then_map (stream_id_of_entry_key prefix k) (λ id. some (id, v))
    else none

pub entry_of-own :
    (prefix : Bytes) (id : StreamId) (v : Bytes)
    → IsId id
    → entry_of prefix (prefix ++ id_bytes id) v ≡ some (id, v)
entry_of-own prefix id v h =
    rw (has_prefix-append prefix (id_bytes id), id_of_entry_key_lem prefix id h) refl

pub in_range-own :
    (prefix : Bytes) (lo hi id : StreamId)
    → IsId lo
    → IsId hi
    → IsId id
    → in_range (prefix ++ id_bytes lo) (some (prefix ++ id_bytes hi)) (prefix ++ id_bytes id)
      ≡ (if less id lo then false else less id hi)
in_range-own prefix lo hi id hlo hhi h =
    rw (bytes_lt-id_bytes prefix id lo h hlo, bytes_lt-id_bytes prefix id hi h hhi) refl

pub in_range-other :
    (prefix x y k : Bytes)
    → has_prefix k prefix ≡ false
    → in_range (prefix ++ x) (some (prefix ++ y)) k ≡ false
in_range-other prefix x y k h = ground (arith, has_prefix-between k prefix x y)

-- The prefix without its last byte.
abbrev pub stem : ℕ → Bytes → Bytes
stem db key = append_be 2 (seg_stream_entry ∷ []) db ++ key

pub prefix_lem : (db : ℕ) (key : Bytes) → stream_entry_prefix db key ≡ stem db key ++ 0 ∷ []
unfolding stream_entry_prefix
prefix_lem db key = simp append_assoc

-- The range of a scan over the entries is their prefix.
pub in_range-prefix :
    (db : ℕ) (key k : Bytes)
    → in_range (stream_entry_prefix db key) (prefix_end (stream_entry_prefix db key)) k
      ≡ has_prefix k (stream_entry_prefix db key)
in_range-prefix db key k =
    rw (prefix_lem db key, prefix_end-append (stem db key) 0 (omega arith))
      (in_range-zero (stem db key) k)

module _ (pebble : Pebble) (eng : pebble.State) (db : ℕ) (key : Bytes) where
  abbrev pub log : List (StreamId × Bytes)
  log = collect (entry_of (stream_entry_prefix db key)) (pebble.pairs eng)

  -- No other data of the engine reads as an entry of the stream.
  abbrev pub IsStream : Type 0
  IsStream = Each (Row (stream_entry_prefix db key)) (pebble.pairs eng)

  -- What a scan of the whole stream collects.
  pub collect-scan :
      {A : Type 0} (f : Bytes → Bytes → Option A)
      → collect f
          (pebble.iter eng (stream_entry_prefix db key) (prefix_end (stream_entry_prefix db key)))
        ≡ collect
            (λ k v. if has_prefix k (stream_entry_prefix db key) then f k v else none)
            (pebble.pairs eng)
  collect-scan f =
      let p = stream_entry_prefix db key in
      rw (pebble.iter_lem eng p (prefix_end p)) (
        collect-select f (in_range p (prefix_end p)) (pebble.pairs eng)
        ∙ collect-same _ _ (pebble.pairs eng)
            (λ k v. ap (λ b. if b then f k v else none) (in_range-prefix db key k)))
