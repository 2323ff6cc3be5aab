-- ===== src/Stream/Log/Deletes.antt =====
-- stream.go: what `xTrimMaxlen` and `xDel` leave of a stream, one deletion for each ID.
use pebbis.Prelude.{
  ℕ, zero, suc, ◌-◌, ◌≡◌, refl, ap, ◌∙◌, arith, true, false, not, Option, none, List, [], ◌∷◌, ◌++◌,
  leb, if◌then◌else◌, length, take, drop, Bool-cases, Option-cases, inl, inr,
}
use pebbis.Prelude.Bytes.{Bytes, bytes_eq, bytes_eq_iff}
use pebbis.Storage.Prefix.{has_prefix, prefix_end}
use pebbis.Engine.{Pair, Pebble, select, visit, next, perform, perform_all}
use pebbis.Engine.Scans.{
  Each, Each-select, has_prefix-append, collect, visit-collect, push, filter_map,
}
use pebbis.Stream.{StreamId, less, stream_entry_prefix, stream_id_of_entry_key}
use pebbis.Stream.Ids.{IsId, id_bytes, id_of_entry_key_lem, entry_key_lem}
use pebbis.Stream.Log.{x_trim_maxlen, deletions, add_id}
use pebbis.Stream.Log.View.{Row, own, other, entry_of, entry_of-own, log, IsStream, collect-scan}
use pebbis.Stream.Log.Append.{Ascend, AscendAbove, Ascend-keys, later_key, less_trans}
use pebbis.Stream.Log.Choice.{same_id}
use pebbis.Stream.Log.Trim.{keep, collect-keep}

unfoldable pub ids_of : List (StreamId × Bytes) → List StreamId
ids_of [] = []
ids_of ((id, v) ∷ l) = id ∷ ids_of l

abbrev pub IsIds : List StreamId → Type 0
IsIds [] = Unit
IsIds (id ∷ ids) = IsId id × IsIds ids

remove_all : List StreamId → List (StreamId × Bytes) → List (StreamId × Bytes)
remove_all [] l = l
remove_all (id ∷ ids) l = remove_all ids (filter_map (keep (λ o. not (same_id id o))) l)

bytes_eq-id_bytes :
    (p : Bytes) (id o : StreamId)
    → IsId id
    → IsId o
    → bytes_eq (p ++ id_bytes o) (p ++ id_bytes id) ≡ same_id id o
unfolding less
bytes_eq-id_bytes p id o h ho = elim (Bool-cases (less id o)) [
  | inl l ↦ later_key p id o h ho l ∙ ground arith
  | inr n ↦ elim (Bool-cases (less o id)) [
    | inl l ↦ earlier_key p id o h ho l ∙ ground arith
    | inr m ↦
        let same : o ≡ id = ground arith in
        rw same ((bytes_eq_iff (p ++ id_bytes id) (p ++ id_bytes id)).1 refl ∙ ground arith)
  ]
]
  where
    earlier_key :
        (p : Bytes) (id o : StreamId)
        → IsId id
        → IsId o
        → less o id ≡ true
        → bytes_eq (p ++ id_bytes o) (p ++ id_bytes id) ≡ false
    earlier_key p id o h ho l = ground (
      arith,
      later_key p o id ho h l,
      bytes_eq_iff (p ++ id_bytes o) (p ++ id_bytes id),
      bytes_eq_iff (p ++ id_bytes id) (p ++ id_bytes o),
    )

module _ (db : ℕ) (key : Bytes) where
  abbrev prefix : Bytes
  prefix = stream_entry_prefix db key

  -- The batch removes the entries with the given IDs.
  collect-deletions :
      (ids : List StreamId) (ps : List Pair)
      → IsIds ids
      → Each (Row prefix) ps
      → (collect (entry_of prefix) (perform_all (deletions db key ids) ps)
          ≡ remove_all ids (collect (entry_of prefix) ps))
        × Each (Row prefix) (perform_all (deletions db key ids) ps)
  unfolding perform_all perform remove_all
  collect-deletions [] ps hs e = (refl, e)
  collect-deletions (id ∷ ids) ps (h, hs) e =
      let k = prefix ++ id_bytes id in
      let kept =
        collect-keep prefix (λ j. bytes_eq j k) (λ o. not (same_id id o)) ps e
          (λ o ho. ap not (bytes_eq-id_bytes prefix id o h ho)) in
      let e' = Each-select (Row prefix) (λ j. not (bytes_eq j k)) ps e in
      let (rest, e'') = collect-deletions ids (select (λ j. not (bytes_eq j k)) ps) hs e' in
      rw (entry_key_lem db key id) (rest ∙ ap (remove_all ids) kept, e'')

not_same : (id o : StreamId) → less id o ≡ true → same_id id o ≡ false
unfolding less
not_same id o b = ground arith

AscendAbove-lower :
    (id o : StreamId) (l : List (StreamId × Bytes))
    → less id o ≡ true
    → AscendAbove o l
    → AscendAbove id l
AscendAbove-lower id o [] b a = tt
AscendAbove-lower id o ((q, w) ∷ l) b (c, a) = (less_trans id o q b c, a)

-- An ID below all entries removes none of them.
keep-later :
    (id : StreamId) (l : List (StreamId × Bytes))
    → AscendAbove id l
    → filter_map (keep (λ o. not (same_id id o))) l ≡ l
unfolding filter_map
keep-later id [] a = refl
keep-later id ((o, v) ∷ l) (b, a) =
    rw (not_same id o b, keep-later id l (AscendAbove-lower id o l b a)) refl

AscendAbove-Ascend : (id : StreamId) (l : List (StreamId × Bytes)) → AscendAbove id l → Ascend l
AscendAbove-Ascend id [] a = tt
AscendAbove-Ascend id ((o, v) ∷ l) (b, a) = a

same_id_refl : (id : StreamId) → same_id id id ≡ true
same_id_refl id = ground arith

-- The first IDs of a stream remove its first entries.
remove_all-take :
    (n : ℕ) (l : List (StreamId × Bytes)) → Ascend l → remove_all (take n (ids_of l)) l ≡ drop n l
unfolding remove_all ids_of filter_map
remove_all-take zero l a = refl
remove_all-take (suc n) [] a = refl
remove_all-take (suc n) ((id, v) ∷ l) a =
    rw (same_id_refl id, keep-later id l a) (remove_all-take n l (AscendAbove-Ascend id l a))

module _ (p : Bytes) where
  abbrev read_id : Bytes → Bytes → Option StreamId
  read_id k v = if has_prefix k p then stream_id_of_entry_key p k else none

  collect-IsIds :
      (ps : List Pair)
      → Each (Row p) ps
      → (collect read_id ps ≡ ids_of (collect (entry_of p) ps)) × IsIds (collect read_id ps)
  unfolding collect ids_of
  collect-IsIds [] e = (refl, tt)
  collect-IsIds ((k, v) ∷ ps) (own id h same, e) =
      let (ids, valid) = collect-IsIds ps e in
      rw
        (same, entry_of-own p id v h, has_prefix-append p (id_bytes id), id_of_entry_key_lem p id h)
        (ap (◌∷◌ id) ids, (h, valid))
  collect-IsIds ((k, v) ∷ ps) (other n, e) = rw n (collect-IsIds ps e)

length-ids_of : (l : List (StreamId × Bytes)) → length (ids_of l) ≡ length l
unfolding ids_of
length-ids_of [] = refl
length-ids_of ((id, v) ∷ l) = ap suc (length-ids_of l)

IsIds-take : (n : ℕ) (ids : List StreamId) → IsIds ids → IsIds (take n ids)
IsIds-take zero ids h = tt
IsIds-take (suc n) [] h = tt
IsIds-take (suc n) (id ∷ ids) (h, hs) = (h, IsIds-take n ids hs)

add_id_lem :
    (p : Bytes) (acc : List StreamId) (k v : Bytes)
    → add_id p acc k ≡ next (push (stream_id_of_entry_key p k) acc)
add_id_lem p acc k v = elim (Option-cases (stream_id_of_entry_key p k)) [
  | inl e ↦ rw (add_id, e) refl
  | inr (id, e) ↦ rw (add_id, e) refl
]

module _ (pebble : Pebble) (eng : pebble.State) (db : ℕ) (key : Bytes) where
  -- The last `n` entries are left, and the number of the others is returned.
  abbrev pub IsCapped : ℕ → pebble.State × ℕ → Type 0
  IsCapped n (eng', m) =
      let l = log pebble eng db key in
      (log pebble eng' db key ≡ drop (length l - n) l)
      × ((m ≡ length l - n) × IsStream pebble eng' db key)

  scanned_ids :
      IsStream pebble eng db key
      → visit
          (λ acc k v. add_id (stream_entry_prefix db key) acc k)
          (pebble.iter eng (stream_entry_prefix db key) (prefix_end (stream_entry_prefix db key)))
          []
        ≡ ids_of (log pebble eng db key)
  scanned_ids h =
      let p = stream_entry_prefix db key in
      visit-collect (λ acc k v. add_id p acc k) (λ k v. stream_id_of_entry_key p k) _ []
        (add_id_lem p)
      ∙ collect-scan pebble eng db key (λ k v. stream_id_of_entry_key p k)
      ∙ (collect-IsIds p (pebble.pairs eng) h).0

  -- If every key under the prefix of the stream is the key of an entry, XTRIM MAXLEN leaves the
  -- newest `n` entries, and returns how many were deleted.
  pub x_trim_maxlen-IsCapped :
      (n : ℕ) → IsStream pebble eng db key → IsCapped n (x_trim_maxlen pebble eng db key n)
  unfolding x_trim_maxlen
  x_trim_maxlen-IsCapped n h =
      let p = stream_entry_prefix db key in
      let ps = pebble.pairs eng in
      let l = log pebble eng db key in
      let excess = length l - n in
      let ascending = Ascend-keys p ps (pebble.pairs-IsSorted eng) h in
      let (ids, valid) = collect-IsIds p ps h in
      let (left, stream) =
        collect-deletions db key (take excess (ids_of l)) ps
          (IsIds-take excess (ids_of l) (rw ids at valid)) h in
      rw (scanned_ids h, length-ids_of l)
        (elim (Bool-cases (leb (length l) n)) [
          | inl few ↦
              let none_over : length l - n ≡ 0 = ground (arith, few) in
              rw (few, none_over) (refl, (refl, h))
          | inr many ↦
              rw (many, pebble.apply_lem eng (deletions db key (take excess (ids_of l))))
                (left ∙ remove_all-take excess l ascending, (refl, stream))
        ])
