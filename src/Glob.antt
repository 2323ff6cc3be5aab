-- ===== src/Glob.antt =====
-- glob/glob.go: patterns of KEYS, SCAN and the channels. A cursor into a text is the rest of the
-- text from there: `match_at` returns what is left behind the run, where the code counts the bytes
-- in front of it.
pub mod Runs
pub mod Split
pub mod Greedy
pub mod Segs
pub mod Match
pub mod Spec
mod Tests
use pebbis.Prelude.{
  ℕ, zero, suc, ◌+◌, Bool, true, false, not, ◌&&◌, ◌||◌, Option, none, some, List, [], ◌∷◌, ◌++◌,
  ltb, leb, ◌==◌, if◌then◌else◌,
}
use mathlib.Core.Bool.{xor}
use pebbis.Prelude.Bytes.{Bytes}

abbrev pub star : ℕ
star = b'*'

abbrev pub backslash : ℕ
backslash = 92

abbrev pub max_star_count : ℕ
max_star_count = 100

abbrev pub in_range : ℕ → ℕ → ℕ → Bool
in_range lo hi sc = leb lo sc && leb sc hi

-- The loop of `matchClass`. A round takes an escape, an end of a range, or both, so the clauses look
-- four bytes ahead; a backslash escapes only what follows it, and the end of a range is not escaped.
class_loop : Bytes → ℕ → Bool → Bool × Bytes
class_loop [] sc matched = (matched, [])
class_loop (c ∷ []) sc matched =
    let rest = class_loop [] sc (matched || in_range c c sc) in
    if c == b']' then (matched, c ∷ []) else rest
class_loop (c ∷ d ∷ []) sc matched =
    let escaped = class_loop [] sc (matched || in_range d d sc) in
    let plain = class_loop (d ∷ []) sc (matched || in_range c c sc) in
    if c == b']' then (matched, c ∷ d ∷ []) else if c == backslash then escaped else plain
class_loop (c ∷ d ∷ e ∷ []) sc matched =
    let escaped = class_loop (e ∷ []) sc (matched || in_range d d sc) in
    let range = class_loop [] sc (matched || in_range c e sc) in
    let plain = class_loop (d ∷ e ∷ []) sc (matched || in_range c c sc) in
    if c == b']'
    then (matched, c ∷ d ∷ e ∷ [])
    else if c == backslash
    then escaped
    else if d == b'-' && not (e == b']')
    then range
    else plain
class_loop (c ∷ d ∷ e ∷ f ∷ seg) sc matched =
    let escaped_range = class_loop seg sc (matched || in_range d f sc) in
    let escaped = class_loop (e ∷ f ∷ seg) sc (matched || in_range d d sc) in
    let range = class_loop (f ∷ seg) sc (matched || in_range c e sc) in
    let plain = class_loop (d ∷ e ∷ f ∷ seg) sc (matched || in_range c c sc) in
    if c == b']'
    then (matched, c ∷ d ∷ e ∷ f ∷ seg)
    else if c == backslash
    then (if e == b'-' && not (f == b']') then escaped_range else escaped)
    else if d == b'-' && not (e == b']')
    then range
    else plain

abbrev negated : Bytes → Bool
negated [] = false
negated (c ∷ seg) = c == b'^' || c == b'!'

abbrev pub tail : Bytes → Bytes
tail [] = []
tail (c ∷ seg) = seg

-- `seg` is what follows the opening bracket; the rest begins at the closing one.
pub match_class : Bytes → ℕ → Bool × Bytes
unfolding class_loop
match_class seg sc =
    let negate = negated seg in
    let (matched, rest) = class_loop (if negate then tail seg else seg) sc false in
    (xor matched negate, rest)

-- The `switch` of `matchAt`: what is left of the run when its first item takes the byte.
pub step : ℕ → Bytes → ℕ → Option Bytes
step pc seg sc =
    if pc == b'?'
    then some seg
    else if pc == b'['
    then (if (match_class seg sc).0 then some (tail (match_class seg sc).1) else none)
    else if pc == backslash
    then elim seg [ [] ↦ none | x ∷ seg' ↦ if x == sc then some seg' else none ]
    else if pc == sc
    then some seg
    else none

pub match_at : Bytes → Bytes → Option Bytes
match_at [] str = some str
match_at (pc ∷ seg) [] = none
match_at (pc ∷ seg) (sc ∷ str) = elim (step pc seg sc) [
  | none ↦ none
  | some seg' ↦ match_at seg' str
]

pub contains_star : Bytes → Bool
contains_star [] = false
contains_star (c ∷ s) = if c == star then true else contains_star s

pub count_stars : Bytes → ℕ
count_stars [] = 0
count_stars (c ∷ s) = if c == star then count_stars s + 1 else count_stars s

-- `cur` is `pattern[start:i]`.
pub split_loop : Bytes → List Bytes → Bytes → List Bytes
split_loop cur out [] = out ++ cur ∷ []
split_loop cur out (c ∷ pattern) =
    split_loop (if c == star then [] else cur ++ c ∷ [])
      (if c == star then out ++ cur ∷ [] else out) pattern

pub split_pattern : Bytes → List Bytes
unfolding split_loop
split_pattern pattern = split_loop [] [] pattern

abbrev pub is_empty : Bytes → Bool
is_empty [] = true
is_empty (c ∷ s) = false

-- The inner loop: the first place at or behind `str` where the run fits, and fits up to the end if
-- it is the last and anchored.
pub find_run : Bool → Bytes → Bytes → Option Bytes
find_run anchored seg [] = elim (match_at seg []) [
  | none ↦ none
  | some rest ↦ if anchored && not (is_empty rest) then none else some rest
]
find_run anchored seg (c ∷ str) =
    let later = find_run anchored seg str in
    elim (match_at seg (c ∷ str)) [
      | none ↦ later
      | some rest ↦ if anchored && not (is_empty rest) then later else some rest
    ]

abbrev pub is_last : List Bytes → Bool
is_last [] = true
is_last (seg ∷ segs) = false

-- The outer loop.
pub match_segs : Bool → List Bytes → Bytes → Bool
match_segs end_anchored [] pos = true
match_segs end_anchored ([] ∷ segs) pos = match_segs end_anchored segs pos
match_segs end_anchored ((c ∷ seg) ∷ segs) pos =
    elim (find_run (is_last segs && end_anchored) (c ∷ seg) pos) [
      | none ↦ false
      | some pos' ↦ match_segs end_anchored segs pos'
    ]

abbrev pub first_is_star : Bytes → Bool
first_is_star [] = false
first_is_star (c ∷ s) = c == star

abbrev pub last_is_star : Bytes → Bool
last_is_star [] = false
last_is_star (c ∷ []) = c == star
last_is_star (c ∷ d ∷ s) = last_is_star (d ∷ s)

-- The first run, if it is anchored, and then the others.
pub match_split : Bool → Bool → List Bytes → Bytes → Bool
match_split start_anchored end_anchored [] str = true
match_split false end_anchored (seg ∷ segs) str = match_segs end_anchored (seg ∷ segs) str
match_split true end_anchored (seg ∷ segs) str = elim (match_at seg str) [
  | none ↦ false
  | some pos ↦ match_segs end_anchored segs pos
]

pub matches_whole : Option Bytes → Bool
matches_whole none = false
matches_whole (some rest) = is_empty rest

unfoldable pub match : Bytes → Bytes → Bool
unfolding class_loop match_class step match_at contains_star count_stars split_loop split_pattern
    find_run match_segs match_split matches_whole
match pattern str =
    if is_empty pattern
    then is_empty str
    else if ltb max_star_count (count_stars pattern)
    then false
    else if not (contains_star pattern)
    then matches_whole (match_at pattern str)
    else match_split (not (first_is_star pattern)) (not (last_is_star pattern))
        (split_pattern pattern) str
