-- ===== src/Stream.antt =====
-- stream.go and the bounds of cmd_stream.go: stream IDs, the keys of a stream in the engine and the
-- fields of an entry. Both halves of an ID are `uint64`, and an `error` is `none`.
mod Tests
pub mod Ids
pub mod Log
pub mod Groups
pub mod Fields
pub mod Requests
pub mod Commands
pub mod Text
use pebbis.Prelude.{
  ℕ, zero, suc, ◌+◌, ◌-◌, ◌/◌, ◌%◌, ◌^◌, Bool, true, false, not, ◌&&◌, Option, none, some, List, [],
  ◌∷◌, ◌++◌, ltb, ◌==◌, if◌then◌else◌, length, take, drop,
}
use pebbis.Prelude.Bytes.{Bytes, codes, bytes_eq, append_be, be_value}
use pebbis.Prelude.Options.{◌>>=◌}
use pebbis.Keys.{digits_value}

abbrev pub seg_stream_entry : ℕ
seg_stream_entry = 0x0b

abbrev pub seg_stream_group : ℕ
seg_stream_group = 0x0c

abbrev pub seg_stream_pel : ℕ
seg_stream_pel = 0x0d

pub record StreamId : Type 0 where
  pub ms : ℕ
  pub seq : ℕ

abbrev pub max_u64 : ℕ
max_u64 = 2 ^ 64 - 1

-- `streamID{}` and the ID of two maximal halves.
abbrev pub zero_id : StreamId
zero_id = record { ms = 0; seq = 0 }

abbrev pub max_id : StreamId
max_id = record { ms = max_u64; seq = max_u64 }

-- `strconv.ParseUint(s, 10, 64)`: digits alone, and the value within `uint64`.
abbrev pub in_u64 : Option ℕ → Option ℕ
in_u64 none = none
in_u64 (some n) = if ltb n (2 ^ 64) then some n else none

unfoldable pub parse_uint : Bytes → Option ℕ
parse_uint [] = none
parse_uint (b ∷ s) = in_u64 (digits_value (b ∷ s) 0)

abbrev pub dash : ℕ
dash = b'-'

-- The text before the first dash, and the text behind it.
unfoldable pub split_dash : Bytes → Option (Bytes × Bytes)
split_dash [] = none
split_dash (b ∷ s) =
    let rest = split_dash s in
    if b == dash
    then some ([], s)
    else elim rest [ none ↦ none | some (before, behind) ↦ some (b ∷ before, behind) ]

unfoldable pub parse_stream_id : Bytes → Option StreamId
parse_stream_id s = elim (split_dash s) [
  | some (before, behind) ↦ do
    ms ← parse_uint before
    seq ← parse_uint behind
    some (record { ms = ms; seq = seq })
  | none ↦ do ms ← parse_uint s; some (record { ms = ms; seq = 0 })
]

unfoldable pub less : StreamId → StreamId → Bool
less id o = if not (id.ms == o.ms) then ltb id.ms o.ms else ltb id.seq o.seq

unfoldable pub next_id : StreamId → StreamId
next_id id =
    if id.seq == max_u64
    then record { ms = (id.ms + 1) % 2 ^ 64; seq = 0 }
    else record { ms = id.ms; seq = (id.seq + 1) % 2 ^ 64 }

-- `strconv.FormatUint(n, 10)`: a `uint64` has at most 20 digits.
unfoldable pub format_digits : ℕ → ℕ → Bytes → Bytes
format_digits zero n text = text
format_digits (suc fuel) n text =
    let more = format_digits fuel (n / 10) ((48 + n % 10) ∷ text) in
    if ltb n 10 then (48 + n) ∷ text else more

unfoldable pub format_uint : ℕ → Bytes
format_uint n = format_digits 20 n []

unfoldable pub to_text : StreamId → Bytes
to_text id = format_uint id.ms ++ codes "-" ++ format_uint id.seq

-- The bound behind an opening parenthesis.
abbrev pub open_paren : ℕ
open_paren = b'('

abbrev open_bound : Bool → StreamId → Option StreamId
open_bound as_start id =
    if as_start
    then (if id.seq == max_u64
        then some (record { ms = (id.ms + 1) % 2 ^ 64; seq = 0 })
        else some (record { ms = id.ms; seq = (id.seq + 1) % 2 ^ 64 }))
    else if id.seq == 0
    then (if id.ms == 0 then none else some (record { ms = id.ms - 1; seq = max_u64 }))
    else some (record { ms = id.ms; seq = id.seq - 1 })

unfoldable pub contains_dash : Bytes → Bool
contains_dash [] = false
contains_dash (b ∷ s) = let rest = contains_dash s in if b == dash then true else rest

abbrev pub closed_bound : Bool → Bytes → StreamId → Option StreamId
closed_bound as_start s id =
    if as_start && not (contains_dash s)
    then some id
    else if not as_start && not (contains_dash s)
    then some (record { ms = id.ms; seq = max_u64 })
    else some id

abbrev pub bound_of : Bool → Bool → Bytes → Option StreamId
bound_of as_start exclusive s =
    if bytes_eq s (codes "-")
    then (if exclusive then none else some zero_id)
    else if bytes_eq s (codes "+")
    then (if exclusive then none else some max_id)
    else do
      id ← parse_stream_id s
      if exclusive then open_bound as_start id else closed_bound as_start s id

unfoldable pub parse_stream_bound : Bytes → Bool → Option StreamId
parse_stream_bound [] as_start = bound_of as_start false []
parse_stream_bound (b ∷ s) as_start =
    if b == open_paren then bound_of as_start true s else bound_of as_start false (b ∷ s)

unfoldable pub must16 : StreamId → Bytes
must16 id = append_be 8 (append_be 8 [] id.ms) id.seq

unfoldable pub stream_entry_prefix : ℕ → Bytes → Bytes
stream_entry_prefix db key = append_be 2 (seg_stream_entry ∷ []) db ++ key ++ 0 ∷ []

unfoldable pub append_stream_entry_key : Bytes → ℕ → Bytes → StreamId → Bytes
append_stream_entry_key dst db key id =
    let dst = dst ++ seg_stream_entry ∷ [] in
    let dst = append_be 2 dst db in
    let dst = dst ++ key in
    let dst = dst ++ 0 ∷ [] in let dst = append_be 8 dst id.ms in append_be 8 dst id.seq

-- `none` stands for the result with `ok` false.
unfoldable pub stream_id_of_entry_key : Bytes → Bytes → Option StreamId
stream_id_of_entry_key prefix k =
    if ltb (length k) (length prefix + 16)
    then none
    else let b = drop (length prefix) k in
      some (record { ms = be_value (take 8 b); seq = be_value (take 8 (drop 8 b)) })

unfoldable pub stream_group_prefix : ℕ → Bytes → Bytes → Bytes
stream_group_prefix db key group =
    append_be 2 (seg_stream_group ∷ []) db ++ key ++ 0 ∷ group ++ 0 ∷ []

unfoldable pub stream_pel_prefix : ℕ → Bytes → Bytes → Bytes
stream_pel_prefix db key group = append_be 2 (seg_stream_pel ∷ []) db ++ key ++ 0 ∷ group ++ 0 ∷ []

unfoldable pub append_stream_pel_key : Bytes → ℕ → Bytes → Bytes → StreamId → Bytes
append_stream_pel_key dst db key group id =
    let dst = dst ++ seg_stream_pel ∷ [] in
    let dst = append_be 2 dst db in
    let dst = dst ++ key ++ 0 ∷ [] in
    let dst = dst ++ group ++ 0 ∷ [] in let dst = append_be 8 dst id.ms in append_be 8 dst id.seq

pub record StreamField : Type 0 where
  pub field : Bytes
  pub value : Bytes

pub record StreamEntry : Type 0 where
  pub id : StreamId
  pub fields : List StreamField
