-- ===== src/Stream/Commands.antt =====
-- cmd_stream.go: the commands, as what they do to the engine and what they reply. Both blocking reads,
-- XINFO and the text of the replies are left out.
pub mod Capped
pub mod Numbers
pub mod Consumers
use pebbis.Prelude.{
  ℕ, suc, ◌+◌, Bool, true, false, not, ◌&&◌, ◌||◌, Option, none, some, List, [], ◌∷◌, ◌++◌, map,
  leb, ltb, ◌==◌, if◌then◌else◌, length,
}
use pebbis.Prelude.Int.{ℤ, pos, negsuc}
use pebbis.Prelude.Options.{◌>>=◌}
use pebbis.Keys.{atoi}
use pebbis.Prelude.Words.{to_upper, is_word}
use pebbis.Prelude.Bytes.{Bytes, codes, bytes_eq}
use pebbis.Engine.{Pebble, Op, delete, next, scan_keys}
use pebbis.Stream.{
  StreamId, StreamEntry, zero_id, max_id, parse_stream_id, parse_stream_bound, stream_entry_prefix,
  append_stream_entry_key, append_stream_pel_key,
}
use pebbis.Stream.Fields.{decode_stream_fields}
use pebbis.Stream.Log.{
  StreamStore, Failure, Reply, reply, failed, x_add, x_range, x_del, x_trim_maxlen, x_trim_min_id,
  last_stream_entry_id, exists,
}
use pebbis.Stream.Groups.{
  PendingEntry, group_get, group_set, group_destroy, pel_list, pel_remove, pel_move_to,
}
use pebbis.Stream.Requests.{
  Refusal, wrong_args, syntax_error, not_integer, invalid_id, busy_group, no_stream, no_group,
  refused, Parsed, parsed, wrong, ◌>=>◌, or_else, wrapping_atoi, natural, Trimming, untrimmed,
  maxlen, minid, AddRequest, read_add,
}

-- What a command replies. A panic is the answer "ERR internal error".
pub data Answer : Type 0 where
  done nil crashed : Answer
  number : ℕ → Answer
  added : StreamId → Answer
  entries : List StreamEntry → Answer
  pending : List PendingEntry → Answer
  -- The number of entries, the first and the last ID, and the counts of the consumers.
  summary_of : ℕ → Option (StreamId × StreamId) → List (Bytes × ℕ) → Answer
  refusal : Refusal → Answer

-- The IDs of a list of arguments; the first that is none ends it.
unfoldable pub parse_ids : List Bytes → Parsed (List StreamId)
parse_ids [] = parsed []
parse_ids (a ∷ args) =
    or_else invalid_id (parse_stream_id a) >=> λ id. parse_ids args >=> λ ids. parsed (id ∷ ids)

-- `xRangeCmd`, `COUNT n` or nothing behind the bounds.
unfoldable pub read_count : List Bytes → Parsed ℤ
read_count [] = parsed (pos 0)
read_count (word ∷ count ∷ []) =
    if is_word (codes "COUNT") word
    then or_else not_integer (wrapping_atoi count)
    else wrong syntax_error
read_count args = wrong syntax_error

abbrev pub is_zero_id : StreamId → Bool
is_zero_id id = id.ms == 0 && id.seq == 0

module _ (pebble : Pebble) where
  abbrev pub answer :
      {A : Type 0} → pebble.State → Parsed A → (A → pebble.State × Answer) → pebble.State × Answer
  answer eng (wrong e) f = (eng, refusal e)
  answer eng (parsed a) f = f a

  abbrev pub counted : pebble.State × ℕ → pebble.State × Answer
  counted (eng, n) = (eng, number n)

  unfoldable pub trim : Trimming → pebble.State → ℕ → Bytes → pebble.State
  trim untrimmed eng db key = eng
  trim (maxlen n) eng db key = (x_trim_maxlen pebble eng db key n).0
  trim (minid id) eng db key = (x_trim_min_id pebble eng db key id).0

  -- What `cmdXAdd` does with the result of `xAdd`.
  abbrev pub finish_add :
      ℕ
      → Bytes
      → Bool
      → Trimming
      → StreamStore pebble.State × Reply StreamId
      → StreamStore pebble.State × Answer
  finish_add db key nomkstream trimming (st, failed e) = (st, refusal (refused e))
  finish_add db key nomkstream trimming (st, reply id) = (
    record st { eng = trim trimming st.eng db key },
    if nomkstream && is_zero_id id then nil else added id,
  )

  -- The second half of `cmdXAdd`.
  unfoldable pub run_add :
      StreamStore pebble.State → ℕ → ℕ → Bytes → AddRequest → StreamStore pebble.State × Answer
  run_add st now db key r =
      finish_add db key r.nomkstream r.trimming
        (x_add pebble st now db key r.id r.auto r.partial_auto r.partial_ms r.fields r.nomkstream)

  unfoldable pub cmd_x_add :
      StreamStore pebble.State → ℕ → ℕ → List Bytes → StreamStore pebble.State × Answer
  cmd_x_add st now db (key ∷ a ∷ b ∷ args) = elim (read_add (a ∷ b ∷ args)) [
    | wrong e ↦ (st, refusal e)
    | parsed r ↦ run_add st now db key r
  ]
  cmd_x_add st now db args = (st, refusal wrong_args)

  unfoldable pub cmd_x_len : pebble.State → ℕ → List Bytes → Answer
  cmd_x_len eng db (key ∷ []) =
      number (scan_keys pebble eng (stream_entry_prefix db key) (λ n k. next (n + 1)) 0)
  cmd_x_len eng db args = refusal wrong_args

  unfoldable pub x_range_cmd : pebble.State → ℕ → List Bytes → Bool → Answer
  x_range_cmd eng db (key ∷ a ∷ b ∷ args) rev =
      let request : Parsed (StreamId × StreamId × ℤ) =
        or_else invalid_id (parse_stream_bound a (not rev)) >=> λ start.
        or_else invalid_id (parse_stream_bound b rev) >=> λ end.
        read_count args >=> λ count. parsed (start, end, count) in
      elim request [
        | wrong e ↦ refusal e
        | parsed r ↦ entries (x_range pebble eng db key r.0 r.1 r.2 rev)
      ]
  x_range_cmd eng db args rev = refusal wrong_args

  unfoldable pub cmd_x_del : pebble.State → ℕ → List Bytes → pebble.State × Answer
  cmd_x_del eng db (key ∷ a ∷ args) =
      answer eng (parse_ids (a ∷ args)) (λ ids. counted (x_del pebble eng db key ids))
  cmd_x_del eng db args = (eng, refusal wrong_args)

  -- The number behind MAXLEN; there may be none behind a marker.
  abbrev pub cmd_maxlen : pebble.State → ℕ → Bytes → List Bytes → pebble.State × Answer
  cmd_maxlen eng db key [] = (eng, crashed)
  cmd_maxlen eng db key (a ∷ args) =
      answer eng (natural (wrapping_atoi a)) (λ n. counted (x_trim_maxlen pebble eng db key n))

  abbrev pub is_marker : Bytes → Bool
  is_marker a = bytes_eq (to_upper a) (codes "~") || bytes_eq (to_upper a) (codes "=")

  unfoldable pub cmd_x_trim : pebble.State → ℕ → List Bytes → pebble.State × Answer
  cmd_x_trim eng db (key ∷ how ∷ a ∷ args) =
      if bytes_eq (to_upper how) (codes "MAXLEN")
      then cmd_maxlen eng db key (if is_marker a then args else a ∷ args)
      else if bytes_eq (to_upper how) (codes "MINID")
      then answer eng (or_else invalid_id (parse_stream_id a))
          (λ id. counted (x_trim_min_id pebble eng db key id))
      else (eng, refusal syntax_error)
  cmd_x_trim eng db args = (eng, refusal wrong_args)
