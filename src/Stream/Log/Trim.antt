-- ===== src/Stream/Log/Trim.antt =====
-- stream.go: what `xDel`, `xTrimMaxlen` and `xTrimMinID` leave of a stream.
use pebbis.Prelude.{
  ℕ, suc, ◌+◌, ◌≡◌, refl, ap, ◌∙◌, arith, Bool, false, not, Option, none, some, List, [], ◌∷◌, ◌++◌,
  ◌==◌, if◌then◌else◌, length, replicate, Bool-cases, inl, inr,
}
use mathlib.Core.Path.{sym}
use pebbis.Prelude.Bytes.{Bytes}
use pebbis.Storage.Prefix.{has_prefix}
use pebbis.Engine.{Pair, Pebble, select, in_range, visit, next, perform, perform_all, delete_range}
use pebbis.Engine.Scans.{
  Each, Each-select, collect, collect-ext, collect-select, filter_map, filter_map-collect, then_map,
}
use pebbis.Stream.{StreamId, less, zero_id, stream_entry_prefix}
use pebbis.Stream.Ids.{IsId, id_bytes, must16_lem}
use pebbis.Stream.Log.{x_trim_min_id, delete_range_count}
use pebbis.Stream.Log.View.{
  Row, own, other, entry_of, entry_of-own, in_range-own, in_range-other, log, IsStream,
}

-- The entries whose ID passes a test.
abbrev pub keep : (StreamId → Bool) → StreamId × Bytes → Option (StreamId × Bytes)
keep test (id, v) = if test id then some (id, v) else none

-- A write that takes pairs away takes the entries away whose keys it takes.
pub collect-keep :
    (p : Bytes) (gone : Bytes → Bool) (test : StreamId → Bool) (ps : List Pair)
    → Each (Row p) ps
    → ((id : StreamId) → IsId id → not (gone (p ++ id_bytes id)) ≡ test id)
    → collect (entry_of p) (select (λ k. not (gone k)) ps)
      ≡ filter_map (keep test) (collect (entry_of p) ps)
collect-keep p gone test ps e h =
    rw
      (
        collect-select (entry_of p) (λ k. not (gone k)) ps,
        filter_map-collect (keep test) (entry_of p) ps,
      )
      (collect-ext (Row p) _ _ ps e (same p gone test h))
  where
    same :
        (p : Bytes) (gone : Bytes → Bool) (test : StreamId → Bool)
        → ((id : StreamId) → IsId id → not (gone (p ++ id_bytes id)) ≡ test id)
        → (k v : Bytes) → Row p k
        → (if not (gone k) then entry_of p k v else none) ≡ then_map (entry_of p k v) (keep test)
    same p gone test h k v (own id hid e) = rw (e, h id hid, entry_of-own p id v hid) refl
    same p gone test h k v (other n) =
        rw n (elim (Bool-cases (not (gone k))) [ inl e ↦ rw e refl | inr e ↦ rw e refl ])

-- The number of visits of a scan.
visit-count : (ps : List Pair) (n : ℕ) → visit (λ n k v. next (n + 1)) ps n ≡ n + length ps
unfolding visit
visit-count [] n = omega arith
visit-count ((k, v) ∷ ps) n = omega (arith, visit-count ps (n + 1))

count_visits : (ps : List Pair) → visit (λ n k v. next (n + 1)) ps 0 ≡ length ps
count_visits ps = omega (arith, visit-count ps 0)

-- The pairs of the entries are as many as the entries that they hold.
length-select :
    (p : Bytes) (gone : Bytes → Bool) (test : StreamId → Bool) (ps : List Pair)
    → Each (Row p) ps
    → ((id : StreamId) → IsId id → gone (p ++ id_bytes id) ≡ test id)
    → ((k : Bytes) → has_prefix k p ≡ false → gone k ≡ false)
    → length (select gone ps) ≡ length (filter_map (keep test) (collect (entry_of p) ps))
unfolding select collect filter_map
length-select p gone test [] e h o = refl
length-select p gone test ((k, v) ∷ ps) (own id hid same, e) h o =
    rw (same, h id hid, entry_of-own p id v hid)
      (elim (Bool-cases (test id)) [
        | inl t ↦ rw t (ap suc (length-select p gone test ps e h o))
        | inr t ↦ rw t (length-select p gone test ps e h o)
      ])
length-select p gone test ((k, v) ∷ ps) (other n, e) h o =
    rw (o k n, n) (length-select p gone test ps e h o)

select-none :
    (gone : Bytes → Bool) (ps : List Pair)
    → length (select gone ps) ≡ 0
    → select (λ k. not (gone k)) ps ≡ ps
unfolding select
select-none gone [] h = refl
select-none gone ((k, v) ∷ ps) h = elim (Bool-cases (gone k)) [
  | inl e ↦ let h' = rw e at h in absurd (omega arith)
  | inr e ↦ let h' = rw e at h in rw e (ap (◌∷◌ (k, v)) (select-none gone ps h'))
]

-- The IDs below `id` lie in the range that MINID deletes.
in_range-below :
    (p : Bytes) (id o : StreamId)
    → IsId id
    → IsId o
    → in_range (p ++ replicate 16 0) (some (p ++ id_bytes id)) (p ++ id_bytes o) ≡ less o id
unfolding less
in_range-below p id o h ho =
    in_range-own p zero_id id o (omega arith, omega arith) h ho ∙ ground arith

cut_range :
    (P : List Pair → Type 0) (lo hi : Bytes) (ps : List Pair)
    → P (select (λ k. not (in_range lo (some hi) k)) ps)
    → P (perform_all (delete_range lo (some hi) ∷ []) ps)
unfolding perform_all perform
cut_range P lo hi ps h = h

module _ (pebble : Pebble) (eng : pebble.State) (db : ℕ) (key : Bytes) where
  abbrev pub IsTrimmed : (StreamId → Bool) → pebble.State × ℕ → Type 0
  IsTrimmed old (eng', n) =
      (log pebble eng' db key ≡ filter_map (keep (λ o. not (old o))) (log pebble eng db key))
      × ((n ≡ length (filter_map (keep old) (log pebble eng db key))) × IsStream pebble eng' db key)

  -- If every key under the prefix of the stream is the key of an entry, XTRIM MINID with a
  -- 64-bit ID deletes the entries below the ID and no other, and returns their number.
  pub x_trim_min_id-IsTrimmed :
      (id : StreamId)
      → IsStream pebble eng db key
      → IsId id
      → IsTrimmed (λ o. less o id) (x_trim_min_id pebble eng db key id)
  unfolding x_trim_min_id delete_range_count
  x_trim_min_id-IsTrimmed id h hid =
      let p = stream_entry_prefix db key in
      let ps = pebble.pairs eng in
      let lo = p ++ replicate 16 0 in
      let hi = p ++ id_bytes id in
      let gone = in_range lo (some hi) in
      let old : StreamId → Bool = λ o. less o id in
      let sized =
        length-select p gone old ps h (λ o ho. in_range-below p id o hid ho)
          (λ k. in_range-other p (replicate 16 0) (id_bytes id) k) in
      let kept =
        collect-keep p gone (λ o. not (old o)) ps h
          (λ o ho. ap not (in_range-below p id o hid ho)) in
      let counted = count_visits (pebble.iter eng lo (some hi)) in
      rw (must16_lem id, counted, pebble.iter_lem eng lo (some hi))
        (elim (Bool-cases (length (select gone ps) == 0)) [
          | inl z ↦
              let none_gone : length (select gone ps) ≡ 0 = ground (arith, z) in
              rw z (
                sym (ap (collect (entry_of p)) (select-none gone ps none_gone)) ∙ kept,
                (sym none_gone ∙ sized, h),
              )
          | inr z ↦
              rw (z, pebble.apply_lem eng (delete_range lo (some hi) ∷ []))
                (
                  cut_range
                      (λ qs.
                        collect (entry_of p) qs
                        ≡ filter_map (keep (λ o. not (old o))) (log pebble eng db key))
                      lo hi ps kept,
                  (
                    sized,
                    cut_range (Each (Row p)) lo hi ps
                        (Each-select (Row p) (λ k. not (gone k)) ps h),
                  ),
                )
        ])
