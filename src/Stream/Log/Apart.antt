-- ===== src/Stream/Log/Apart.antt =====
-- stream.go: streams whose names have only bytes from 2 on are kept apart.
use pebbis.Prelude.{ℕ, ◌^◌, ◌≤◌, ◌<◌, ◌≡◌, arith, ◌&&◌, some, [], ◌∷◌, ◌++◌, ◌==◌, append_assoc}
use pebbis.Prelude.Bytes.{Bytes, append_be-append, be_before, bytes_eq, bytes_lt-be_before}
use pebbis.Storage.Prefix.{prefix_end, bytes_lt-nil}
use pebbis.Engine.{in_range, seek_end}
use pebbis.Stream.{StreamId, stream_entry_prefix, append_stream_entry_key, seg_stream_entry}
use pebbis.Stream.Ids.{entry_key_lem, id_bytes}
use pebbis.Stream.Log.View.{stem, prefix_lem}
use pebbis.Stream.Log.Add.{seek_end_lem}

-- No byte is 0, which ends a name, or 1, which the search for the last entry passes over.
abbrev pub IsClean : Bytes → Type 0
IsClean [] = Unit
IsClean (b ∷ key) = (2 ≤ b) × IsClean key

in_range-names :
    (key name x : Bytes)
    → IsClean key
    → IsClean name
    → in_range (key ++ 0 ∷ []) (some (key ++ 2 ∷ [])) (name ++ 0 ∷ x) ≡ bytes_eq name key
unfolding bytes_eq
in_range-names [] [] [] h k = ground arith
in_range-names [] [] (c ∷ x) h k = ground arith
in_range-names [] (c ∷ name) x h k = ground (arith, bytes_lt-nil (name ++ 0 ∷ x))
in_range-names (b ∷ key) [] x h k = ground arith
in_range-names (b ∷ key) (c ∷ name) x h k = ground (arith, in_range-names key name x)

stem_lem :
    (db : ℕ) (key more : Bytes)
    → stem db key ++ more ≡ seg_stream_entry ∷ be_before 2 db (key ++ more)
stem_lem db key more = simp (append_assoc, append_be-append)

-- The range in which XADD looks for the last entry of one stream holds the entries of that stream
-- and of no other, if the names of both have no byte below 2.
pub entry_key-apart :
    (db db' : ℕ) (key name : Bytes) (id : StreamId)
    → db < 2 ^ 16
    → db' < 2 ^ 16
    → IsClean key
    → IsClean name
    → let p = stream_entry_prefix db key in
      in_range p (seek_end (prefix_end p)) (append_stream_entry_key [] db' name id)
      ≡ (db' == db && bytes_eq name key)
entry_key-apart db db' key name id h h' c c' =
    let low = key ++ 0 ∷ [] in
    let high = key ++ 2 ∷ [] in
    let mine = name ++ 0 ∷ id_bytes id in
    rw
      (
        entry_key_lem db' name id,
        seek_end_lem db key,
        prefix_lem db key,
        prefix_lem db' name,
        append_assoc (stem db' name) (0 ∷ []) (id_bytes id),
        stem_lem db key (0 ∷ []),
        stem_lem db key (2 ∷ []),
        stem_lem db' name (0 ∷ id_bytes id),
      )
      (ground (
        arith,
        bytes_lt-be_before 2 db' db mine low h' h,
        bytes_lt-be_before 2 db' db mine high h' h,
        in_range-names key name (id_bytes id) c c',
      ))
