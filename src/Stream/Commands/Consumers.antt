-- ===== src/Stream/Commands/Consumers.antt =====
-- cmd_stream.go: XGROUP, XACK, XCLAIM and XPENDING.
use pebbis.Prelude.{
  ℕ, ◌+◌, Bool, true, false, not, ◌&&◌, Option, none, some, List, [], ◌∷◌, ◌++◌, map, if◌then◌else◌,
  length,
}
use pebbis.Prelude.Int.{ℤ, pos}
use pebbis.Prelude.Options.{◌>>=◌}
use pebbis.Keys.{atoi}
use pebbis.Prelude.Words.{is_word}
use pebbis.Prelude.Bytes.{Bytes, codes, bytes_eq}
use pebbis.Engine.{Pebble, delete}
use pebbis.Stream.{
  StreamId, StreamEntry, zero_id, max_id, parse_stream_id, parse_stream_bound,
  append_stream_entry_key, append_stream_pel_key,
}
use pebbis.Stream.Fields.{decode_stream_fields}
use pebbis.Stream.Log.{last_stream_entry_id, exists}
use pebbis.Stream.Groups.{
  PendingEntry, group_get, group_set, group_destroy, pel_list, pel_remove, pel_move_to,
}
use pebbis.Stream.Requests.{
  wrong_args, syntax_error, not_integer, invalid_id, busy_group, no_stream, no_group, Parsed,
  parsed, wrong, ◌>=>◌, or_else, wrapping_atoi,
}
use pebbis.Stream.Commands.{Answer, done, number, entries, pending, summary_of, refusal, answer}

abbrev pub list_of : {A : Type 0} → Option A → List A
list_of none = []
list_of (some a) = a ∷ []

-- The counts, in the order in which the consumers appear.
unfoldable pub count_up : Bytes → List (Bytes × ℕ) → List (Bytes × ℕ)
count_up c [] = (c, 1) ∷ []
count_up c ((d, n) ∷ counts) =
    let rest = count_up c counts in if bytes_eq d c then (d, n + 1) ∷ counts else (d, n) ∷ rest

abbrev pub count_all : List PendingEntry → List (Bytes × ℕ) → List (Bytes × ℕ)
count_all [] counts = counts
count_all (p ∷ ps) counts = count_all ps (count_up p.consumer counts)

abbrev pub last_id_of : StreamId → List PendingEntry → StreamId
last_id_of id [] = id
last_id_of id (p ∷ ps) = last_id_of p.id ps

unfoldable pub pending_summary : List PendingEntry → Answer
pending_summary [] = summary_of 0 none []
pending_summary (p ∷ ps) =
    summary_of (length (p ∷ ps)) (some (p.id, last_id_of p.id ps)) (count_all (p ∷ ps) [])

module _ (pebble : Pebble) where
  abbrev pub or_zero : Option StreamId → StreamId
  or_zero none = zero_id
  or_zero (some id) = id

  abbrev pub wants_stream : List Bytes → Bool
  wants_stream [] = false
  wants_stream (a ∷ args) = is_word (codes "MKSTREAM") a

  unfoldable pub cmd_x_group_create : pebble.State → ℕ → List Bytes → pebble.State × Answer
  cmd_x_group_create eng db (key ∷ group ∷ a ∷ args) =
      let last = last_stream_entry_id pebble eng db key in
      if exists (group_get pebble eng db key group)
      then (eng, refusal busy_group)
      else if not (wants_stream args) && not (exists last)
      then (eng, refusal no_stream)
      else if bytes_eq a (codes "$")
      then (group_set pebble eng db key group (or_zero last), done)
      else answer pebble eng (or_else invalid_id (parse_stream_id a))
          (λ id. (group_set pebble eng db key group id, done))
  cmd_x_group_create eng db args = (eng, refusal wrong_args)

  unfoldable pub cmd_x_group_destroy : pebble.State → ℕ → List Bytes → pebble.State × Answer
  cmd_x_group_destroy eng db (key ∷ group ∷ []) = (group_destroy pebble eng db key group, number 1)
  cmd_x_group_destroy eng db args = (eng, refusal wrong_args)

  unfoldable pub cmd_x_group_del_consumer : pebble.State → ℕ → List Bytes → pebble.State × Answer
  cmd_x_group_del_consumer eng db (key ∷ group ∷ consumer ∷ []) =
      let list = pel_list pebble eng db key group consumer zero_id max_id (pos 0) in
      let batch =
        map (λ (p : PendingEntry). delete (append_stream_pel_key [] db key group p.id)) list in
      (pebble.apply eng batch, number (length list))
  cmd_x_group_del_consumer eng db args = (eng, refusal wrong_args)

  -- Each ID is acknowledged before the next is parsed.
  unfoldable pub ack_loop :
      pebble.State → ℕ → Bytes → Bytes → List Bytes → ℕ → pebble.State × Answer
  ack_loop eng db key group [] n = (eng, number n)
  ack_loop eng db key group (a ∷ args) n = elim (parse_stream_id a) [
    | none ↦ (eng, refusal invalid_id)
    | some id ↦ ack_loop (pel_remove pebble eng db key group id) db key group args (n + 1)
  ]

  unfoldable pub cmd_x_ack : pebble.State → ℕ → List Bytes → pebble.State × Answer
  cmd_x_ack eng db (key ∷ group ∷ a ∷ args) =
      if exists (group_get pebble eng db key group)
      then ack_loop eng db key group (a ∷ args) 0
      else (eng, refusal no_group)
  cmd_x_ack eng db args = (eng, refusal wrong_args)

  -- Each ID moves before the next is parsed; an entry that is gone or corrupt is left out.
  unfoldable pub claim_loop :
      pebble.State
      → ℕ
      → ℕ
      → Bytes
      → Bytes
      → Bytes
      → List Bytes
      → List StreamEntry
      → pebble.State × Answer
  claim_loop eng now db key group consumer [] out = (eng, entries out)
  claim_loop eng now db key group consumer (a ∷ args) out = elim (parse_stream_id a) [
    | none ↦ (eng, refusal invalid_id)
    | some id ↦
        let eng = pel_move_to pebble eng now db key group consumer id in
        let found = pebble.get eng (append_stream_entry_key [] db key id) >>= λ v.
        decode_stream_fields v >>= λ fields. some (record { id = id; fields = fields }) in
        claim_loop eng now db key group consumer args (out ++ list_of found)
  ]

  -- The least idle time has to be an integer, and is not looked at.
  unfoldable pub cmd_x_claim : pebble.State → ℕ → ℕ → List Bytes → pebble.State × Answer
  cmd_x_claim eng now db (key ∷ group ∷ consumer ∷ min_idle ∷ a ∷ args) =
      answer pebble eng (or_else not_integer (atoi min_idle))
        (λ idle. claim_loop eng now db key group consumer (a ∷ args) [])
  cmd_x_claim eng now db args = (eng, refusal wrong_args)

  abbrev pub consumer_of : List Bytes → Bytes
  consumer_of [] = []
  consumer_of (consumer ∷ args) = consumer

  -- The detailed form has a start, an end and a count; the summary is over all of them.
  unfoldable pub cmd_x_pending : pebble.State → ℕ → List Bytes → Answer
  cmd_x_pending eng db (key ∷ group ∷ args) =
      let summary = pending_summary (pel_list pebble eng db key group [] zero_id max_id (pos 0)) in
      elim args [
        | ◌∷◌ a more ↦
            if is_word (codes "IDLE") a
            then (elim more [ [] ↦ refusal syntax_error | ◌∷◌ idle rest ↦ summary ])
            else elim more [
              | ◌∷◌ b others ↦ elim others [
                | ◌∷◌ count rest ↦
                    let request : Parsed (StreamId × StreamId × ℤ) =
                      or_else invalid_id (parse_stream_bound a true) >=> λ start.
                      or_else invalid_id (parse_stream_bound b false) >=> λ end.
                      or_else not_integer (wrapping_atoi count) >=> λ n. parsed (start, end, n) in
                    elim request [
                      | wrong e ↦ refusal e
                      | parsed r ↦
                          pending (pel_list pebble eng db key group (consumer_of rest) r.0 r.1 r.2)
                    ]
                | [] ↦ summary
              ]
              | [] ↦ summary
            ]
        | [] ↦ summary
      ]
  cmd_x_pending eng db args = refusal wrong_args
