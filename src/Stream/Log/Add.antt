-- ===== src/Stream/Log/Add.antt =====
-- stream.go: `xAdd` as an append to the entries of the stream.
use pebbis.Prelude.{
  ℕ, ◌+◌, ◌%◌, ◌^◌, ◌<◌, ◌≡◌, refl, ap, ◌∙◌, arith, Bool, true, false, not, ◌&&◌, Option, none,
  some, List, [], ◌∷◌, ◌++◌, if◌then◌else◌, Bool-cases, Option-cases, ◌⊎◌, inl, inr, append_assoc,
}
use mathlib.Core.Path.{sym}
use pebbis.Prelude.Options.{◌>>=◌}
use pebbis.Prelude.Bytes.{Bytes, bytes_lt, bytes_lt-append}
use pebbis.Storage.Prefix.{has_prefix, prefix_end}
use pebbis.Engine.{
  Pair, Pebble, insert, select, in_range, last_from, last_in_range, seek_end, put, perform_all,
  perform,
}
use pebbis.Engine.Scans.{Each, collect, has_prefix-append, prefix_end-append, Each-insert}
use pebbis.Stream.{
  StreamId, StreamField, less, zero_id, stream_entry_prefix, stream_id_of_entry_key,
  append_stream_entry_key,
}
use pebbis.Stream.Ids.{IsId, id_bytes, id_of_entry_key_lem, entry_key_lem}
use pebbis.Stream.Fields.{encode_stream_fields}
use pebbis.Stream.Log.{
  StreamStore, Failure, Reply, reply, failed, exists, last_stream_entry_id, new_id, x_add,
}
use pebbis.Stream.Log.View.{
  Row, own, other, entry_of, entry_of-own, log, IsStream, stem, prefix_lem,
}
use pebbis.Stream.Log.Choice.{above, IsLast, new_id-above}
use pebbis.Stream.Log.Append.{AllLess, Ascend-keys, last_id, collect-insert, AllLess-last}

-- The range in which `lastStreamEntryID` looks is wider than the prefix: it reaches to the end of
-- the prefix behind it.
abbrev pub IsCovered : Bytes → Bytes → Type 0
IsCovered prefix k = in_range prefix (seek_end (prefix_end prefix)) k ≡ has_prefix k prefix

abbrev SameLast : Bytes → Option Pair → Option (StreamId × Bytes) → Type 0
SameLast p acc acc' = (acc >>= λ pair. stream_id_of_entry_key p pair.0) ≡ last_id acc'

last-Row :
    (p : Bytes) (test : Bytes → Bool) (ps : List Pair) (acc : Option Pair)
    (acc' : Option (StreamId × Bytes))
    → Each (Row p) ps
    → Each (λ k. test k ≡ has_prefix k p) ps
    → SameLast p acc acc'
    → SameLast p (last_from acc (select test ps)) (last_from acc' (collect (entry_of p) ps))
unfolding select collect
last-Row p test [] acc acc' e t h = h
last-Row p test ((k, v) ∷ ps) acc acc' (own id hid same, e) (t, ts) h =
    let t' = rw same at t in
    rw (same, entry_of-own p id v hid, t', has_prefix-append p (id_bytes id))
      (last-Row p test ps (some (p ++ id_bytes id, v)) (some (id, v)) e ts
        (id_of_entry_key_lem p id hid))
last-Row p test ((k, v) ∷ ps) acc acc' (other n, e) (t, ts) h =
    rw (t, n) (last-Row p test ps acc acc' e ts h)

last_entry_lem :
    (p : Bytes) (ps : List Pair) (acc : Option (StreamId × Bytes))
    → Each (Row p) ps
    → IsLast (last_id acc)
    → IsLast (last_id (last_from acc (collect (entry_of p) ps)))
unfolding collect
last_entry_lem p [] acc e h = h
last_entry_lem p ((k, v) ∷ ps) acc (own id hid same, e) h =
    rw (same, entry_of-own p id v hid) (last_entry_lem p ps (some (id, v)) e hid)
last_entry_lem p ((k, v) ∷ ps) acc (other n, e) h = rw n (last_entry_lem p ps acc e h)

abbrev pub has_entries : List (StreamId × Bytes) → Bool
has_entries [] = false
has_entries (entry ∷ l) = true

some_last :
    (entry : StreamId × Bytes) (l : List (StreamId × Bytes))
    → exists (last_id (last_from (some entry) l)) ≡ true
some_last entry [] = refl
some_last entry (other_entry ∷ l) = some_last other_entry l

Reply-cases :
    {A : Type 0} (r : Reply A) → ((a : A) × (r ≡ reply a)) ⊎ ((e : Failure) × (r ≡ failed e))
Reply-cases (reply a) = inl (a, refl)
Reply-cases (failed e) = inr (e, refl)

exists-last : (l : List (StreamId × Bytes)) → exists (last_id (last_from none l)) ≡ has_entries l
exists-last [] = refl
exists-last (entry ∷ l) = some_last entry l

below_last :
    (r : StreamId) (l : List (StreamId × Bytes))
    → above (last_id (last_from none l)) r ≡ true
    → (last_id (last_from none l) ≡ none)
      ⊎ ((x : StreamId) × ((last_id (last_from none l) ≡ some x) × (less x r ≡ true)))
below_last r l h = elim (Option-cases (last_id (last_from none l))) [
  | inl e ↦ inl e
  | inr (x, e) ↦ inr (x, (e, sym (ap (λ o. above o r) e) ∙ h))
]

bytes_lt-front : (p x : Bytes) → bytes_lt (p ++ x) p ≡ false
bytes_lt-front [] [] = refl
bytes_lt-front [] (b ∷ x) = refl
bytes_lt-front (b ∷ p) x = ground (arith, bytes_lt-front p x)

below_two :
    (db : ℕ) (key x : Bytes)
    → bytes_lt (stream_entry_prefix db key ++ x) (stem db key ++ 2 ∷ []) ≡ true
below_two db key x =
    rw (prefix_lem db key, append_assoc (stem db key) (0 ∷ []) x)
      (bytes_lt-append (stem db key) (0 ∷ x) (2 ∷ []))

pub seek_end_lem :
    (db : ℕ) (key : Bytes)
    → seek_end (prefix_end (stream_entry_prefix db key)) ≡ some (stem db key ++ 2 ∷ [])
seek_end_lem db key =
    rw
      (
        prefix_lem db key,
        prefix_end-append (stem db key) 0 (omega arith),
        prefix_end-append (stem db key) 1 (omega arith),
      )
      refl

IsCovered-own :
    (db : ℕ) (key x : Bytes)
    → IsCovered (stream_entry_prefix db key) (stream_entry_prefix db key ++ x)
IsCovered-own db key x =
    let p = stream_entry_prefix db key in
    rw (seek_end_lem db key, bytes_lt-front p x, below_two db key x, has_prefix-append p x) refl

module _ (pebble : Pebble) where
  abbrev pub IsAlone : pebble.State → ℕ → Bytes → Type 0
  IsAlone eng db key = Each (IsCovered (stream_entry_prefix db key)) (pebble.pairs eng)

  last_lem :
      (eng : pebble.State) (db : ℕ) (key : Bytes)
      → IsStream pebble eng db key
      → IsAlone eng db key
      → last_stream_entry_id pebble eng db key ≡ last_id (last_from none (log pebble eng db key))
  unfolding last_stream_entry_id last_in_range
  last_lem eng db key h a =
      let p = stream_entry_prefix db key in
      let end = seek_end (prefix_end p) in
      rw (pebble.iter_lem eng p end)
        (last-Row p (in_range p end) (pebble.pairs eng) none none h a refl)

  put_pairs :
      (eng : pebble.State) (db : ℕ) (key v : Bytes) (r : StreamId)
      → pebble.pairs (pebble.apply eng (put (append_stream_entry_key [] db key r) v ∷ []))
        ≡ insert (stream_entry_prefix db key ++ id_bytes r) v (pebble.pairs eng)
  unfolding perform_all perform
  put_pairs eng db key v r = pebble.apply_lem eng _ ∙ rw (entry_key_lem db key r) refl

  -- The engine after the write of a new last entry.
  append_lem :
      (eng : pebble.State) (db : ℕ) (key v : Bytes) (r : StreamId)
      → IsStream pebble eng db key
      → IsAlone eng db key
      → IsId r
      → above (last_stream_entry_id pebble eng db key) r ≡ true
      → let eng' = pebble.apply eng (put (append_stream_entry_key [] db key r) v ∷ []) in
        (log pebble eng' db key ≡ log pebble eng db key ++ (r, v) ∷ [])
        × (AllLess r (log pebble eng db key) × (IsStream pebble eng' db key × IsAlone eng' db key))
  append_lem eng db key v r h a hr b =
      let p = stream_entry_prefix db key in
      let ps = pebble.pairs eng in
      let sorted = pebble.pairs-IsSorted eng in
      let ascending = Ascend-keys p ps sorted h in
      let low = AllLess-last r (log pebble eng db key) ascending (
        below_last r (log pebble eng db key)
          (sym (ap (λ l. above l r) (last_lem eng db key h a)) ∙ b)) in
      rw (put_pairs eng db key v r) (
        collect-insert p r v ps hr sorted h low,
        (
          low,
          (
            Each-insert (Row p) (p ++ id_bytes r) v ps (own r hr refl) h,
            Each-insert (IsCovered p) (p ++ id_bytes r) v ps (IsCovered-own db key (id_bytes r)) a,
          ),
        ),
      )

  -- What an XADD may do: nothing, with an error or because the stream is not to be made, or an
  -- append of one entry whose ID is above all.
  abbrev pub IsAdded :
      ℕ
      → Bytes
      → Bytes
      → Bool
      → StreamStore pebble.State
      → StreamStore pebble.State × Reply StreamId
      → Type 0
  IsAdded db key v nomkstream st (st', failed e) = st' ≡ st
  IsAdded db key v nomkstream st (st', reply r) =
      if nomkstream && not (has_entries (log pebble st.eng db key))
      then (st' ≡ st) × (r ≡ zero_id)
      else (log pebble st'.eng db key ≡ log pebble st.eng db key ++ (r, v) ∷ [])
        × (AllLess r (log pebble st.eng db key)
            × (IsStream pebble st'.eng db key
                × (IsAlone st'.eng db key
                    × (IsId r
                        × ((st'.notified ≡ (db, key) ∷ st.notified)
                            × (st'.key_changes ≡ (st.key_changes + 1) % 2 ^ 64))))))

  -- XADD to a stream whose keys no other data of the engine is mistaken for, with an ID, a clock
  -- and milliseconds of 64 bits: on every branch it either changes nothing or appends one entry,
  -- above all others, tells the clients that wait for the key, and keeps what was assumed of the
  -- keys.
  pub x_add-IsAdded :
      (st : StreamStore pebble.State) (now db : ℕ) (key : Bytes) (id : StreamId)
      (auto partial_auto : Bool) (partial_ms : ℕ) (fields : List StreamField) (nomkstream : Bool)
      → IsStream pebble st.eng db key
      → IsAlone st.eng db key
      → IsId id
      → now < 2 ^ 64
      → partial_ms < 2 ^ 64
      → IsAdded db key
          (encode_stream_fields fields)
          nomkstream
          st
          (x_add pebble st now db key id auto partial_auto partial_ms fields nomkstream)
  unfolding x_add
  x_add-IsAdded st now db key id auto partial_auto partial_ms fields nomkstream h a hid hn hm =
      let entries = log pebble st.eng db key in
      let last = last_stream_entry_id pebble st.eng db key in
      let same = last_lem st.eng db key h a in
      let known : exists last ≡ has_entries entries = ap exists same ∙ exists-last entries in
      let is_last : IsLast last =
        rw same (last_entry_lem (stream_entry_prefix db key) (pebble.pairs st.eng) none h tt) in
      elim (Reply-cases (new_id last now id auto partial_auto partial_ms)) [
        | inr (e, fails) ↦ rw (x_add, fails) refl
        | inl (r, found) ↦
            let (is_id, b) =
              new_id-above last id r now partial_ms auto partial_auto is_last hid hn hm found in
            let (appended, (low, (stream, alone))) =
              append_lem st.eng db key (encode_stream_fields fields) r h a is_id b in
            rw (x_add, found, known)
              (elim (Bool-cases (nomkstream && not (has_entries entries))) [
                | inl skip ↦ rw (skip, skip) (refl, refl)
                | inr write ↦
                    rw (write, write) (appended, (low, (stream, (alone, (is_id, (refl, refl))))))
              ])
      ]
