-- ===== src/Keys/Tests.antt =====
-- Examples of keys.go.
use pebbis.Prelude.{◌≡◌, refl, arith, none, some, List, [], ◌∷◌}
use pebbis.Prelude.Bytes.{Bytes, codes, bytes_eq}
use pebbis.Keys.{
  key_rule, atoi, digits_value, counted_keys, keys_with_numkeys, keys_by, command_keys,
}
use pebbis.Keys.Locks.{FitsInt, asked, command_keys-counted}

abbrev union_store : Bytes
union_store = codes "ZUNIONSTORE"

abbrev target : Bytes
target = codes "out"

abbrev two_count : Bytes
two_count = codes "2"

abbrev source_keys : List Bytes
source_keys = codes "a" ∷ codes "b" ∷ codes "WEIGHTS" ∷ []

abbrev union_args : List Bytes
union_args = target ∷ two_count ∷ source_keys

two_count-FitsInt : FitsInt (atoi two_count)
unfolding atoi digits_value
two_count-FitsInt = omega arith

-- A count that wraps.
wrapping_count : command_keys (codes "ZUNION") (codes "9223372036854775807" ∷ codes "a" ∷ []) ≡ none
unfolding command_keys key_rule bytes_eq keys_by keys_with_numkeys counted_keys atoi digits_value
wrapping_count = refl

command_keys-counted_example :
    command_keys union_store (target ∷ two_count ∷ source_keys)
    ≡ some (asked (atoi two_count) source_keys)
unfolding bytes_eq
command_keys-counted_example =
    command_keys-counted union_store target two_count source_keys two_count-FitsInt
