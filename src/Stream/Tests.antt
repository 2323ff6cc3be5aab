-- ===== src/Stream/Tests.antt =====
-- Examples of streams, over an engine that is a sorted list.
use pebbis.Prelude.{
  ◌≡◌, ◌↔◌, refl, arith, true, false, not, ◌&&◌, ◌||◌, some, List, [], ◌∷◌, ◌==◌, if◌then◌else◌,
  leb,
}
use mathlib.Core.List.{reverse}
use pebbis.Prelude.Int.{pos, of_u64}
use pebbis.Prelude.Bytes.{Bytes, codes, bytes_eq, append_be}
use pebbis.Storage.Prefix.{prefix_end}
use pebbis.Engine.{Pair, in_range, seek_end}
use pebbis.Engine.Sorted.{Listed, listed}
use pebbis.Engine.Scans.{filter_map}
use pebbis.Stream.{
  StreamId, StreamField, max_u64, zero_id, less, next_id, to_text, parse_stream_id,
  parse_stream_bound, open_paren, contains_dash, stream_entry_prefix, append_stream_entry_key,
  stream_pel_prefix, split_dash, parse_uint,
}
use pebbis.Keys.{digits_value}
use pebbis.Stream.Ids.{id_bytes, next_id_lem}
use pebbis.Stream.Text.{parse_stream_id-to_text, parse_stream_bound_lem, starts_at, ends_at}
use pebbis.Stream.Fields.{encode_stream_fields, decode_stream_fields, decode-encode_stream_fields}
use pebbis.Stream.Log.{
  StreamStore, new_id, x_add, x_range, x_trim_maxlen, x_trim_min_id, cut, failed, equal_or_smaller,
}
use pebbis.Stream.Log.View.{own, log, IsStream}
use pebbis.Stream.Log.Choice.{Verdict, same_ms, same_id, not_before, new_id_lem}
use pebbis.Stream.Log.Add.{IsAdded, IsAlone, x_add-IsAdded}
use pebbis.Stream.Log.Range.{shown, x_range_lem}
use pebbis.Stream.Log.Trim.{IsTrimmed, x_trim_min_id-IsTrimmed}
use pebbis.Stream.Log.Deletes.{IsCapped, x_trim_maxlen-IsCapped}
use pebbis.Stream.Log.Apart.{entry_key-apart}
use pebbis.Stream.Groups.{pending_of, pel_value, pel_list}
use pebbis.Stream.Groups.Pending.{IsPending, pending_log, limited, pending_row, pel_list_lem}
use pebbis.Stream.Requests.{AddRequest, maxlen, wrapping_atoi}
use pebbis.Stream.Commands.{run_add}
use pebbis.Stream.Commands.Capped.{IsAppended, run_add-IsAppended}
use pebbis.Stream.Commands.Numbers.{wrapping_atoi_lem}
use pebbis.Stream.Groups.Cycle.{pending_of-pel_value}

-- The stream "s" of database 0.
abbrev name : Bytes
name = codes "s"

abbrev first : StreamId
first = record { ms = 5; seq = 3 }

abbrev second : StreamId
second = record { ms = 5; seq = 4 }

abbrev entry_key : StreamId → Bytes
entry_key id = 11 ∷ 0 ∷ 0 ∷ 115 ∷ 0 ∷ id_bytes id

-- One field "f" with the value "v".
abbrev value : Bytes
value = 0 ∷ 1 ∷ 0 ∷ 1 ∷ 102 ∷ 0 ∷ 0 ∷ 0 ∷ 1 ∷ 118 ∷ []

abbrev two_pairs : List Pair
two_pairs = (entry_key first, value) ∷ (entry_key second, value) ∷ []

abbrev two_entries : Listed
two_entries = record { list = two_pairs; sorted = (refl, tt) }

two_entries-IsStream : IsStream listed two_entries 0 name
unfolding stream_entry_prefix append_be
two_entries-IsStream =
    (own first (omega arith, omega arith) refl, (own second (omega arith, omega arith) refl, tt))

two_entries-IsAlone : IsAlone listed two_entries 0 name
unfolding stream_entry_prefix append_be prefix_end
two_entries-IsAlone = (refl, (refl, tt))

abbrev first_text : Bytes
first_text = codes "5-3"

abbrev two_fields : List StreamField
two_fields =
    record { field = codes "f"; value = codes "v" }
    ∷ record { field = codes "f"; value = codes "w" }
    ∷ []

abbrev store : StreamStore Listed
store = record { eng = two_entries; notified = []; key_changes = 0 }

abbrev other_name : Bytes
other_name = codes "sa"

abbrev group_name : Bytes
group_name = codes "g"

abbrev consumer_name : Bytes
consumer_name = codes "c"

abbrev pel_key : Bytes
pel_key = 13 ∷ 0 ∷ 0 ∷ 115 ∷ 0 ∷ 103 ∷ 0 ∷ id_bytes first

abbrev pending_pairs : List Pair
pending_pairs = (pel_key, 99 ∷ 0 ∷ 0 ∷ 0 ∷ 0 ∷ 1 ∷ 0 ∷ 0 ∷ 0 ∷ 0 ∷ 0 ∷ 0 ∷ 0 ∷ 9 ∷ []) ∷ []

abbrev one_pending : Listed
one_pending = record { list = pending_pairs; sorted = tt }

one_pending-IsPending : IsPending listed one_pending 0 name group_name
unfolding stream_pel_prefix append_be
one_pending-IsPending = (own first (omega arith, omega arith) refl, tt)

abbrev capped : AddRequest
capped = record {
  nomkstream = false;
  trimming = maxlen 1;
  auto = true;
  partial_auto = false;
  partial_ms = 0;
  id = zero_id;
  fields = two_fields;
}

next_id_lem_example :
    if first.ms == max_u64 && first.seq == max_u64
    then next_id first ≡ zero_id
    else (less first (next_id first) ≡ true)
      × ((less first second ≡ true) ↔ (less second (next_id first) ≡ false))
next_id_lem_example = next_id_lem first second (omega arith, omega arith) (omega arith, omega arith)

parse_stream_id-to_text_example : parse_stream_id (to_text first) ≡ some first
parse_stream_id-to_text_example = parse_stream_id-to_text first (omega arith, omega arith)

parse_stream_bound_lem_example :
    (starts_at (parse_stream_bound (open_paren ∷ first_text) true) second ≡ less first second)
    × ((ends_at (parse_stream_bound (open_paren ∷ first_text) false) second ≡ less second first)
        × ((starts_at (parse_stream_bound first_text true) second ≡ not (less second first))
            × (ends_at (parse_stream_bound first_text false) second
                ≡ not (less first second)
                  || (not (contains_dash first_text) && second.ms == first.ms))))
unfolding parse_stream_id split_dash parse_uint digits_value
parse_stream_bound_lem_example =
    parse_stream_bound_lem first_text first second refl (omega arith, omega arith)
      (omega arith, omega arith) refl

decode-encode_stream_fields_example :
    decode_stream_fields (encode_stream_fields two_fields) ≡ some two_fields
decode-encode_stream_fields_example =
    decode-encode_stream_fields two_fields (omega arith)
      (omega arith, (omega arith, (omega arith, (omega arith, tt))))

new_id_lem_example :
    Verdict (same_ms 5) second (new_id (some second) 7 first false true 5)
    × (Verdict (same_id first) second (new_id (some second) 7 first false false 5)
        × (if leb 7 second.ms && second.seq == max_u64
            then new_id (some second) 7 first true false 5 ≡ failed equal_or_smaller
            else Verdict (not_before 7) second (new_id (some second) 7 first true false 5)))
new_id_lem_example =
    new_id_lem second first 7 5 (omega arith, omega arith) (omega arith, omega arith) (omega arith)
      (omega arith)

x_add-IsAdded_example :
    IsAdded listed 0 name
      (encode_stream_fields two_fields)
      false
      store
      (x_add listed store 7 0 name zero_id true false 0 two_fields false)
x_add-IsAdded_example =
    x_add-IsAdded listed store 7 0 name zero_id true false 0 two_fields false two_entries-IsStream
      two_entries-IsAlone (omega arith, omega arith) (omega arith) (omega arith)

x_range_lem_example :
    let lo = if less first second then first else second in
    let hi = if less first second then second else first in
    let out = filter_map (shown lo hi) (log listed two_entries 0 name) in
    x_range listed two_entries 0 name second first (pos 1) true
    ≡ cut (pos 1) (if true then reverse out else out)
x_range_lem_example =
    x_range_lem listed two_entries 0 name second first (pos 1) true two_entries-IsStream
      (omega arith, omega arith) (omega arith, omega arith)

x_trim_min_id-IsTrimmed_example :
    IsTrimmed listed two_entries 0 name
      (λ o. less o second)
      (x_trim_min_id listed two_entries 0 name second)
x_trim_min_id-IsTrimmed_example =
    x_trim_min_id-IsTrimmed listed two_entries 0 name second two_entries-IsStream
      (omega arith, omega arith)

x_trim_maxlen-IsCapped_example :
    IsCapped listed two_entries 0 name 1 (x_trim_maxlen listed two_entries 0 name 1)
x_trim_maxlen-IsCapped_example =
    x_trim_maxlen-IsCapped listed two_entries 0 name 1 two_entries-IsStream

pel_list_lem_example :
    pel_list listed one_pending 0 name group_name [] zero_id second (pos 5)
    ≡ limited (pos 5) (
        filter_map
          (pending_row [] zero_id second)
          (pending_log listed one_pending 0 name group_name))
pel_list_lem_example =
    pel_list_lem listed one_pending 0 name group_name [] zero_id second (pos 5)
      one_pending-IsPending (omega arith, omega arith) (omega arith, omega arith)

entry_key-apart_example :
    let p = stream_entry_prefix 0 name in
    in_range p (seek_end (prefix_end p)) (append_stream_entry_key [] 1 other_name first)
    ≡ (1 == 0 && bytes_eq other_name name)
entry_key-apart_example =
    entry_key-apart 0 1 name other_name first (omega arith) (omega arith) (omega arith, tt)
      (omega arith, (omega arith, tt))

pending_of-pel_value_example :
    pending_of consumer_name first (pel_value consumer_name 2 1000)
    ≡ some (record {
      id = first;
      consumer = consumer_name;
      delivery_ms = of_u64 1000;
      delivery_cert = 2;
    })
pending_of-pel_value_example =
    pending_of-pel_value consumer_name first 2 1000 (omega arith, tt) (omega arith) (omega arith)

run_add-IsAppended_example :
    let (st', answer) = run_add listed store 7 0 name capped in
    IsAppended listed 0 name (encode_stream_fields two_fields) 1 store st' answer
run_add-IsAppended_example =
    run_add-IsAppended listed store 7 0 name capped 1 refl refl two_entries-IsStream
      two_entries-IsAlone (omega arith, omega arith) (omega arith) (omega arith)

wrapping_atoi_lem_example : wrapping_atoi (codes "18446744073709551616") ≡ some (pos 0)
unfolding digits_value of_u64
wrapping_atoi_lem_example =
    wrapping_atoi_lem 49 (codes "8446744073709551616") 18446744073709551616 refl
