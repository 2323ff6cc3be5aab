-- ===== src/Stream/Commands/Capped.antt =====
-- cmd_stream.go: XADD with a bound on the length of the stream.
use pebbis.Prelude.{ℕ, ◌-◌, ◌^◌, ◌<◌, ◌≡◌, ◌∙◌, ap, false, List, [], ◌∷◌, ◌++◌, length, drop}
use pebbis.Prelude.Bytes.{Bytes}
use pebbis.Engine.{Pebble}
use pebbis.Stream.{StreamId}
use pebbis.Stream.Ids.{IsId}
use pebbis.Stream.Fields.{encode_stream_fields}
use pebbis.Stream.Log.{StreamStore, Reply, reply, failed, x_add}
use pebbis.Stream.Log.View.{log, IsStream}
use pebbis.Stream.Log.Add.{IsAlone, IsAdded, x_add-IsAdded}
use pebbis.Stream.Log.Deletes.{x_trim_maxlen-IsCapped}
use pebbis.Stream.Requests.{AddRequest, maxlen, refused}
use pebbis.Stream.Commands.{Answer, added, refusal, trim, finish_add, run_add}

-- The last `n` of a list.
abbrev pub newest : {A : Type 0} → ℕ → List A → List A
newest n l = drop (length l - n) l

module _ (pebble : Pebble) where
  -- What XADD leaves: on a refusal the store as it was, and else the newest entries.
  pub data IsAppended (db : ℕ) (key v : Bytes) (n : ℕ) (st st' : StreamStore pebble.State)
      : Answer → Type 0 where
    kept : {e : _} → st' ≡ st → IsAppended db key v n st st' (refusal (refused e))
    appended :
        {id : StreamId}
        → log pebble st'.eng db key ≡ newest n (log pebble st.eng db key ++ (id, v) ∷ [])
        → IsStream pebble st'.eng db key
        → IsAppended db key v n st st' (added id)

  finish_add-IsAppended :
      (db : ℕ) (key v : Bytes) (n : ℕ) (st st' : StreamStore pebble.State) (stored : Reply StreamId)
      → IsAdded pebble db key v false st (st', stored)
      → let (st2, answer) = finish_add pebble db key false (maxlen n) (st', stored) in
        IsAppended db key v n st st2 answer
  unfolding trim
  finish_add-IsAppended db key v n st st' (failed e) same = kept same
  finish_add-IsAppended db key v n st st' (reply id) (grown, (low, (stream, rest))) =
      let (left, (count, stream')) = x_trim_maxlen-IsCapped pebble st'.eng db key n stream in
      appended (left ∙ ap (newest n) grown) stream'

  -- XADD with MAXLEN, to a stream whose keys no other data of the engine is mistaken for, with an ID,
  -- a clock and milliseconds of 64 bits, and without NOMKSTREAM: an ID that is refused changes
  -- nothing, and else the stream holds the newest `n` entries, of which the one that was added is the
  -- last.
  pub run_add-IsAppended :
      (st : StreamStore pebble.State) (now db : ℕ) (key : Bytes) (r : AddRequest) (n : ℕ)
      → r.nomkstream ≡ false
      → r.trimming ≡ maxlen n
      → IsStream pebble st.eng db key
      → IsAlone pebble st.eng db key
      → IsId r.id
      → now < 2 ^ 64
      → r.partial_ms < 2 ^ 64
      → let (st', answer) = run_add pebble st now db key r in
        IsAppended db key (encode_stream_fields r.fields) n st st' answer
  unfolding run_add
  run_add-IsAppended st now db key r n e t h a hid hn hm =
      let v = encode_stream_fields r.fields in
      let r' = x_add pebble st now db key r.id r.auto r.partial_auto r.partial_ms r.fields false in
      let done : IsAdded pebble db key v false st r' =
        x_add-IsAdded pebble st now db key r.id r.auto r.partial_auto r.partial_ms r.fields false h
          a hid hn hm in
      rw (e, t) (finish_add-IsAppended db key v n st r'.0 r'.1 done)
