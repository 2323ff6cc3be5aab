-- ===== src/Keys.antt =====
-- keys.go: the keys that a command locks. `none` is a panic: a slice with a negative end. An `int` has
-- 64 bits.
pub mod Locks
mod Tests
use pebbis.Prelude.{
  ℕ, zero, suc, ◌+◌, ◌-◌, ◌*◌, ◌^◌, Bool, true, false, not, ◌&&◌, ◌||◌, Option, none, some, List,
  [], ◌∷◌, ltb, leb, ◌==◌, if◌then◌else◌, length, get_elem?, take, drop,
}
use pebbis.Prelude.Int.{ℤ, pos, negsuc}
use pebbis.Prelude.Bytes.{Bytes, codes, bytes_eq}

abbrev pub one_of : Bytes → List Bytes → Bool
one_of name [] = false
one_of name (n ∷ names) = bytes_eq name n || one_of name names

-- The cases of the `switch`, in its order.
pub data KeyRule : Type 0 where
  whole : KeyRule
  pairs : KeyRule
  two : KeyRule
  counted : ℕ → KeyRule
  from_second : KeyRule
  sort : KeyRule
  no_keys : KeyRule
  first : KeyRule

unfoldable pub key_rule : Bytes → KeyRule
key_rule name =
    if one_of name (
      codes "DEL"
      ∷ codes "UNLINK"
      ∷ codes "EXISTS"
      ∷ codes "TOUCH"
      ∷ codes "MGET"
      ∷ codes "SUNION"
      ∷ codes "SINTER"
      ∷ codes "SDIFF"
      ∷ codes "SINTERCARD"
      ∷ [])
    then whole
    else if one_of name (codes "MSET" ∷ codes "MSETNX" ∷ [])
    then pairs
    else if one_of name (
        codes "RENAME"
        ∷ codes "RENAMENX"
        ∷ codes "COPY"
        ∷ codes "SMOVE"
        ∷ codes "RPOPLPUSH"
        ∷ codes "LMOVE"
        ∷ codes "BLMOVE"
        ∷ codes "ZRANGESTORE"
        ∷ [])
    then two
    else if one_of name (codes "SINTERSTORE" ∷ codes "SUNIONSTORE" ∷ codes "SDIFFSTORE" ∷ [])
    then counted 1
    else if one_of name (codes "ZINTERSTORE" ∷ codes "ZUNIONSTORE" ∷ codes "ZDIFFSTORE" ∷ [])
    then counted 1
    else if one_of name
        (codes "ZMPOP" ∷ codes "BZMPOP" ∷ codes "ZUNION" ∷ codes "ZINTER" ∷ codes "ZDIFF" ∷ [])
    then counted 0
    else if one_of name (codes "BITOP" ∷ [])
    then from_second
    else if one_of name (codes "SORT" ∷ codes "SORT_RO" ∷ [])
    then sort
    else if one_of name (
        codes "FLUSHDB"
        ∷ codes "FLUSHALL"
        ∷ codes "DBSIZE"
        ∷ codes "KEYS"
        ∷ codes "RANDOMKEY"
        ∷ codes "SCAN"
        ∷ codes "SWAPDB"
        ∷ codes "SELECT"
        ∷ codes "PING"
        ∷ codes "ECHO"
        ∷ codes "QUIT"
        ∷ codes "COMMAND"
        ∷ codes "HELLO"
        ∷ codes "AUTH"
        ∷ codes "CONFIG"
        ∷ codes "DEBUG"
        ∷ codes "SAVE"
        ∷ codes "BGSAVE"
        ∷ codes "LASTSAVE"
        ∷ codes "TIME"
        ∷ codes "MEMORY"
        ∷ codes "SLOWLOG"
        ∷ codes "CLIENT"
        ∷ codes "OBJECT"
        ∷ codes "SHUTDOWN"
        ∷ codes "SUBSCRIBE"
        ∷ codes "PSUBSCRIBE"
        ∷ codes "UNSUBSCRIBE"
        ∷ codes "PUNSUBSCRIBE"
        ∷ codes "PUBLISH"
        ∷ codes "PUBSUB"
        ∷ codes "MULTI"
        ∷ codes "EXEC"
        ∷ codes "DISCARD"
        ∷ codes "WATCH"
        ∷ codes "UNWATCH"
        ∷ [])
    then no_keys
    else first

-- `strconv.Atoi`: a sign, then digits alone, and the value within `int`.
unfoldable pub digits_value : Bytes → ℕ → Option ℕ
digits_value [] n = some n
digits_value (b ∷ s) n =
    let rest = digits_value s (n * 10 + (b - 48)) in if ltb b 48 || ltb 57 b then none else rest

abbrev pub in_int : Bool → Option ℕ → Option ℤ
in_int negative none = none
in_int false (some n) = if ltb n (2 ^ 63) then some (pos n) else none
in_int true (some zero) = some (pos zero)
in_int true (some (suc n)) = if ltb n (2 ^ 63) then some (negsuc n) else none

abbrev pub unsigned : Bool → Bytes → Option ℤ
unsigned negative [] = none
unsigned negative (b ∷ s) = in_int negative (digits_value (b ∷ s) 0)

unfoldable pub atoi : Bytes → Option ℤ
unfolding digits_value
atoi [] = none
atoi (b ∷ s) =
    if b == 43
    then unsigned false s
    else if b == 45
    then unsigned true s
    else unsigned false (b ∷ s)

-- From the count on: `args[start:end]`, whose end is cut to the length but may have wrapped.
unfoldable pub counted_keys : List Bytes → ℕ → Option ℤ → Option (List Bytes)
counted_keys args start none = some []
counted_keys args start (some (negsuc n)) = some []
counted_keys args start (some (pos n)) =
    let end = start + n in
    if leb (2 ^ 63) end
    then none
    else (let end = if ltb (length args) end then length args else end in
        some (take (end - start) (drop start args)))

unfoldable pub keys_with_numkeys : List Bytes → ℕ → Option (List Bytes)
unfolding counted_keys
keys_with_numkeys args num_idx = elim (get_elem? args num_idx) [
  | none ↦ some []
  | some count ↦ counted_keys args (num_idx + 1) (atoi count)
]

abbrev pub upper : ℕ → ℕ
upper b = if leb 97 b && leb b 122 then b - 32 else b

abbrev pub equal_upper : Bytes → Bytes → Bool
equal_upper [] [] = true
equal_upper [] (c ∷ t) = false
equal_upper (b ∷ s) [] = false
equal_upper (b ∷ s) (c ∷ t) = upper b == c && equal_upper s t

-- `strings.EqualFold(s, "STORE")`: an S may also be U+017F, which is two bytes.
unfoldable pub is_store : Bytes → Bool
is_store [] = false
is_store (b ∷ []) = false
is_store (b ∷ c ∷ s) =
    if upper b == 83
    then equal_upper (c ∷ s) (codes "TORE")
    else b == 0xc5 && c == 0xbf && equal_upper s (codes "TORE")

-- The loop from the argument after the key on.
unfoldable pub sort_store : List Bytes → List Bytes
unfolding is_store
sort_store [] = []
sort_store (a ∷ []) = []
sort_store (a ∷ b ∷ args) = let rest = sort_store (b ∷ args) in if is_store a then b ∷ [] else rest

unfoldable pub sort_keys : List Bytes → List Bytes
unfolding sort_store
sort_keys [] = []
sort_keys (key ∷ args) = key ∷ sort_store args

unfoldable pub every_second : List Bytes → List Bytes
every_second [] = []
every_second (k ∷ []) = []
every_second (k ∷ v ∷ args) = k ∷ every_second args

abbrev pub first_two : List Bytes → List Bytes
first_two [] = []
first_two (a ∷ []) = []
first_two (a ∷ b ∷ args) = a ∷ b ∷ []

abbrev pub after_first : List Bytes → List Bytes
after_first [] = []
after_first (a ∷ []) = []
after_first (a ∷ b ∷ args) = b ∷ args

abbrev pub first_one : List Bytes → List Bytes
first_one [] = []
first_one (a ∷ args) = a ∷ []

unfoldable pub keys_by : KeyRule → List Bytes → Option (List Bytes)
unfolding keys_with_numkeys sort_keys every_second
keys_by whole args = some args
keys_by pairs args = some (every_second args)
keys_by two args = some (first_two args)
keys_by (counted i) args = keys_with_numkeys args i
keys_by from_second args = some (after_first args)
keys_by sort args = some (sort_keys args)
keys_by no_keys args = some []
keys_by first args = some (first_one args)

unfoldable pub command_keys : Bytes → List Bytes → Option (List Bytes)
unfolding keys_by key_rule
command_keys name args = keys_by (key_rule name) args
