-- ===== src/Keys/Locks.antt =====
-- keys.go: what the keys of a command are among its arguments.
use pebbis.Prelude.{
  ℕ, zero, suc, ◌+◌, ◌-◌, ◌^◌, ◌≤◌, ◌<◌, ◌≡◌, refl, ap, ◌∙◌, arith, true, Option, none, some, List,
  [], ◌∷◌, ltb, if◌then◌else◌, length, get_elem?, take, Bool-cases, inl, inr,
}
use pebbis.Prelude.Int.{ℤ, pos, negsuc}
use pebbis.Prelude.Bytes.{Bytes, codes, bytes_eq, bytes_eq_iff}
use pebbis.Keys.{
  one_of, KeyRule, counted, key_rule, atoi, counted_keys, keys_with_numkeys, keys_by, command_keys,
}

-- Every key is one of the arguments.
abbrev pub AllIn : List Bytes → List Bytes → Type 0
AllIn args [] = Unit
AllIn args (k ∷ ks) = (one_of k args ≡ true) × AllIn args ks

-- The keys are arguments; or there is a panic, and then an argument is a count that overflows `int`
-- when the place where the keys begin is added.
abbrev pub Outcome : List Bytes → Option (List Bytes) → Type 0
Outcome args (some ks) = AllIn args ks
Outcome args none =
    (i n : ℕ) × (count : Bytes) × (get_elem? args i ≡ some count)
    × (atoi count ≡ some (pos n))
    × (2 ^ 63 ≤ i + 1 + n)

numkeys_run :
    (args : List Bytes) (i : ℕ) (count : Bytes)
    → get_elem? args i ≡ some count
    → keys_with_numkeys args i ≡ counted_keys args (i + 1) (atoi count)
unfolding keys_with_numkeys
numkeys_run args i count e = ground (arith, e)

take_past : (n : ℕ) (xs : List Bytes) → length xs ≤ n → take n xs ≡ take (length xs) xs
take_past zero [] h = refl
take_past (suc n) [] h = refl
take_past zero (x ∷ xs) h = absurd (omega (arith, h))
take_past (suc n) (x ∷ xs) h = ap (λ ys. x ∷ ys) (take_past n xs (omega (arith, h)))

-- The keys that a count asks for.
abbrev pub asked : Option ℤ → List Bytes → List Bytes
asked none sources = []
asked (some (negsuc n)) sources = []
asked (some (pos n)) sources = take n sources

abbrev pub FitsInt : Option ℤ → Type 0
FitsInt none = Unit
FitsInt (some (negsuc n)) = Unit
FitsInt (some (pos n)) = n + 2 < 2 ^ 63

counted_keys-asked :
    (dest count : Bytes) (sources : List Bytes) (v : Option ℤ)
    → FitsInt v
    → counted_keys (dest ∷ count ∷ sources) 2 v ≡ some (asked v sources)
unfolding counted_keys
counted_keys-asked dest count sources none h = refl
counted_keys-asked dest count sources (some (negsuc n)) h = refl
counted_keys-asked dest count sources (some (pos n)) h =
    elim (Bool-cases (ltb (length (dest ∷ count ∷ sources)) (2 + n))) [
      | inl past ↦
          let all : length (dest ∷ count ∷ sources) - 2 ≡ length sources = omega arith in
          let fewer : length sources ≤ n = ground (arith, past) in
          ground (arith, h, past, all, take_past n sources fewer)
      | inr within ↦ let same : (2 + n) - 2 ≡ n = omega arith in ground (arith, h, within, same)
    ]

counted_keys-first :
    (count : Bytes) (keys : List Bytes) (v : Option ℤ)
    → FitsInt v
    → counted_keys (count ∷ keys) 1 v ≡ some (asked v keys)
unfolding counted_keys
counted_keys-first count keys none h = refl
counted_keys-first count keys (some (negsuc n)) h = refl
counted_keys-first count keys (some (pos n)) h =
    elim (Bool-cases (ltb (length (count ∷ keys)) (1 + n))) [
      | inl past ↦
          let all : length (count ∷ keys) - 1 ≡ length keys = omega arith in
          let fewer : length keys ≤ n = ground (arith, past) in
          ground (arith, h, past, all, take_past n keys fewer)
      | inr within ↦ let same : (1 + n) - 1 ≡ n = omega arith in ground (arith, h, within, same)
    ]

-- The commands that store a union, an intersection or a difference, and those that reply with one or
-- pop from several sorted sets.
abbrev pub stores : List Bytes
stores =
    codes "SINTERSTORE"
    ∷ codes "SUNIONSTORE"
    ∷ codes "SDIFFSTORE"
    ∷ codes "ZINTERSTORE"
    ∷ codes "ZUNIONSTORE"
    ∷ codes "ZDIFFSTORE"
    ∷ []

abbrev pub readers : List Bytes
readers = codes "ZMPOP" ∷ codes "BZMPOP" ∷ codes "ZUNION" ∷ codes "ZINTER" ∷ codes "ZDIFF" ∷ []

abbrev EachRule : KeyRule → List Bytes → Type 0
EachRule rule [] = Unit
EachRule rule (n ∷ names) = (key_rule n ≡ rule) × EachRule rule names

rule_of :
    (rule : KeyRule) (names : List Bytes) (name : Bytes)
    → EachRule rule names
    → one_of name names ≡ true
    → key_rule name ≡ rule
rule_of rule [] name h e = absurd (cc)
rule_of rule (n ∷ names) name (h, hs) e = elim (Bool-cases (bytes_eq name n)) [
  | inl b ↦ let same : name ≡ n = (bytes_eq_iff name n).0 b in rw same h
  | inr b ↦ rule_of rule names name hs (ground (arith, e, b))
]

stores-rule : EachRule (counted 1) stores
unfolding key_rule bytes_eq
stores-rule = (refl, (refl, (refl, (refl, (refl, (refl, tt))))))

readers-rule : EachRule (counted 0) readers
unfolding key_rule bytes_eq
readers-rule = (refl, (refl, (refl, (refl, (refl, tt)))))

keys_counted :
    (i : ℕ) (name : Bytes) (args : List Bytes)
    → key_rule name ≡ counted i
    → command_keys name args ≡ keys_with_numkeys args i
unfolding command_keys keys_by
keys_counted i name args h = rw h refl

-- Of the eleven commands with a counted list of keys, those that reply or pop lock the keys that their
-- first argument counts; those that store, of sets or of sorted sets, lock the arguments after their
-- second one, as many as that one counts, and none if that one is no count. So the first argument of a
-- store, the destination, is not locked; a store of sets, whose second argument is a key, locks no key
-- unless that key looks like a number; and BZMPOP takes its timeout, the first argument, for the count.
-- It holds for counts whose sum with 2 is an `int`.
pub command_keys-counted :
    (name dest count : Bytes) (keys : List Bytes)
    → FitsInt (atoi count)
    → if one_of name stores
      then command_keys name (dest ∷ count ∷ keys) ≡ some (asked (atoi count) keys)
      else if one_of name readers
      then command_keys name (count ∷ keys) ≡ some (asked (atoi count) keys)
      else Unit
command_keys-counted name dest count keys fits = elim (Bool-cases (one_of name stores)) [
  | inl s ↦ rw s (
      keys_counted 1 name (dest ∷ count ∷ keys) (rule_of (counted 1) stores name stores-rule s)
      ∙ numkeys_run (dest ∷ count ∷ keys) 1 count refl
      ∙ counted_keys-asked dest count keys (atoi count) fits)
  | inr n ↦ rw n (elim (Bool-cases (one_of name readers)) [
    | inl s ↦ rw s (
        keys_counted 0 name (count ∷ keys) (rule_of (counted 0) readers name readers-rule s)
        ∙ numkeys_run (count ∷ keys) 0 count refl
        ∙ counted_keys-first count keys (atoi count) fits)
    | inr m ↦ rw m tt
  ])
]
