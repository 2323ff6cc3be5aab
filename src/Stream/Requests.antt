-- ===== src/Stream/Requests.antt =====
-- cmd_stream.go: what the arguments of XADD ask for, and the integers of these commands.
use pebbis.Prelude.{
  ℕ, ◌+◌, ◌-◌, ◌*◌, ◌%◌, ◌^◌, Bool, true, false, ◌&&◌, ◌||◌, Option, none, some, List, [], ◌∷◌, ltb,
  ◌==◌, if◌then◌else◌,
}
use pebbis.Prelude.Int.{ℤ, pos, negsuc, of_u64}
use pebbis.Prelude.Options.{◌>>=◌}
use pebbis.Prelude.Words.{to_upper, is_word}
use pebbis.Prelude.Bytes.{Bytes, codes, bytes_eq}
use pebbis.Stream.{StreamId, StreamField, zero_id, dash, parse_uint, parse_stream_id}
use pebbis.Stream.Log.{Failure}

-- The errors of the stream commands.
pub data Refusal : Type 0 where
  wrong_args syntax_error not_integer invalid_id below_first odd_fields : Refusal
  busy_group no_stream no_group : Refusal
  refused : Failure → Refusal

pub data Parsed (A : Type 0) : Type 0 where
  parsed : A → Parsed A
  wrong : Refusal → Parsed A

infixl 5 ◌>=>◌
abbrev pub ◌>=>◌ : {A B : Type 0} → Parsed A → (A → Parsed B) → Parsed B
wrong e >=> f = wrong e
parsed a >=> f = f a

unfoldable pub or_else : {A : Type 0} → Refusal → Option A → Parsed A
or_else e none = wrong e
or_else e (some a) = parsed a

-- `n*10 + int(ch-'0')`, an `int` that wraps.
unfoldable pub wrapping_digits : Bytes → ℕ → Option ℕ
wrapping_digits [] n = some n
wrapping_digits (b ∷ s) n =
    let rest = wrapping_digits s ((n * 10 + (b - 48)) % 2 ^ 64) in
    if ltb b 48 || ltb 57 b then none else rest

-- `atoi` of cmd_stream.go, for which no digit is 0.
unfoldable pub wrapping_atoi : Bytes → Option ℤ
wrapping_atoi [] = some (pos 0)
wrapping_atoi (b ∷ s) =
    if b == dash
    then (wrapping_digits s 0 >>= λ n. some (of_u64 ((2 ^ 64 - n) % 2 ^ 64)))
    else (wrapping_digits (b ∷ s) 0 >>= λ n. some (of_u64 n))

-- `err != nil || n < 0`
abbrev pub natural : Option ℤ → Parsed ℕ
natural (some (pos n)) = parsed n
natural (some (negsuc n)) = wrong not_integer
natural none = wrong not_integer

pub data Trimming : Type 0 where
  untrimmed : Trimming
  maxlen : ℕ → Trimming
  minid : StreamId → Trimming

pub record AddRequest : Type 0 where
  pub nomkstream : Bool
  pub trimming : Trimming
  pub auto : Bool
  pub partial_auto : Bool
  pub partial_ms : ℕ
  pub id : StreamId
  pub fields : List StreamField

unfoldable pub skip_markers : List Bytes → List Bytes
skip_markers [] = []
skip_markers (a ∷ args) =
    let rest = skip_markers args in
    if is_word (codes "~") a || is_word (codes "=") a then rest else a ∷ args

abbrev pub read_maxlen : List Bytes → Parsed (Trimming × List Bytes)
read_maxlen [] = wrong syntax_error
read_maxlen (a ∷ args) = natural (wrapping_atoi a) >=> λ n. parsed (maxlen n, args)

abbrev pub read_minid : List Bytes → Parsed (Trimming × List Bytes)
read_minid [] = wrong syntax_error
read_minid (a ∷ args) = or_else invalid_id (parse_stream_id a) >=> λ id. parsed (minid id, args)

unfoldable pub read_trimming : List Bytes → Parsed (Trimming × List Bytes)
read_trimming [] = parsed (untrimmed, [])
read_trimming (a ∷ args) =
    if bytes_eq (to_upper a) (codes "MAXLEN")
    then read_maxlen (skip_markers args)
    else if bytes_eq (to_upper a) (codes "MINID")
    then read_minid (skip_markers args)
    else parsed (untrimmed, a ∷ args)

unfoldable pub skip_limit : List Bytes → List Bytes
skip_limit (a ∷ b ∷ args) = if is_word (codes "LIMIT") a then args else a ∷ b ∷ args
skip_limit args = args

-- The text before a final "-*".
unfoldable pub before_star : Bytes → Option Bytes
before_star [] = none
before_star (b ∷ s) =
    let rest = before_star s in
    if bytes_eq (b ∷ s) (codes "-*") then some [] else (rest >>= λ before. some (b ∷ before))

unfoldable pub pair_fields : List Bytes → Option (List StreamField)
pair_fields [] = some []
pair_fields (a ∷ []) = none
pair_fields (field ∷ value ∷ args) = do
  fields ← pair_fields args
  some (record { field = field; value = value } ∷ fields)

abbrev pub read_fields :
    Bool → Trimming → Bool → Bool → ℕ → StreamId → List Bytes → Parsed AddRequest
read_fields nomkstream trimming auto partial_auto partial_ms id args =
    or_else odd_fields (pair_fields args) >=> λ fields. parsed (record {
      nomkstream = nomkstream;
      trimming = trimming;
      auto = auto;
      partial_auto = partial_auto;
      partial_ms = partial_ms;
      id = id;
      fields = fields;
    })

abbrev pub above_zero : StreamId → Parsed StreamId
above_zero id = if id.ms == 0 && id.seq == 0 then wrong below_first else parsed id

-- From the ID on.
unfoldable pub read_id : Bool → Trimming → List Bytes → Parsed AddRequest
read_id nomkstream trimming [] = wrong wrong_args
read_id nomkstream trimming (a ∷ args) =
    if bytes_eq a (codes "*")
    then read_fields nomkstream trimming true false 0 zero_id args
    else elim (before_star a) [
      | some ms ↦ or_else invalid_id (parse_uint ms) >=> λ v.
          read_fields nomkstream trimming false true v zero_id args
      | none ↦ or_else invalid_id (parse_stream_id a) >=> above_zero >=> λ id.
          read_fields nomkstream trimming false false 0 id args
    ]

abbrev pub read_options : Bool → List Bytes → Parsed AddRequest
read_options nomkstream args = read_trimming args >=> λ t. read_id nomkstream t.0 (skip_limit t.1)

-- The arguments behind the key, two at least.
unfoldable pub read_add : List Bytes → Parsed AddRequest
read_add [] = wrong wrong_args
read_add (a ∷ args) =
    if is_word (codes "NOMKSTREAM") a then read_options true args else read_options false (a ∷ args)
