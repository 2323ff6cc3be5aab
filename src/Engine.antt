-- ===== src/Engine.antt =====
-- storage/pebble.go: the engine that keeps every key and value. Pebble itself is the parameter, a
-- record of the calls and of what its documentation says of them. A batch is the list of its
-- operations, and a callback returns whether the scan goes on.
pub mod Sorted
pub mod Scans
use pebbis.Prelude.{◌≡◌, Bool, true, false, not, Option, none, some, List, [], ◌∷◌, if◌then◌else◌}
use pebbis.Prelude.Bytes.{Bytes, bytes_lt, bytes_eq}
use pebbis.Prelude.Assoc.{find}
use pebbis.Storage.Prefix.{below, prefix_end}

abbrev pub Pair : Type 0
Pair = Bytes × Bytes

pub data Op : Type 0 where
  put : Bytes → Bytes → Op
  delete : Bytes → Op
  -- `none` is no bound.
  delete_range : Bytes → Option Bytes → Op

abbrev pub in_range : Bytes → Option Bytes → Bytes → Bool
in_range lo hi k = if bytes_lt k lo then false else below k hi

-- The pairs whose key passes a test.
unfoldable pub select : (Bytes → Bool) → List Pair → List Pair
select p [] = []
select p ((k, v) ∷ ps) = let rest = select p ps in if p k then (k, v) ∷ rest else rest

-- The place of a key in a list in the order of keys.
unfoldable pub insert : Bytes → Bytes → List Pair → List Pair
insert k v [] = (k, v) ∷ []
insert k v ((j, w) ∷ ps) =
    let rest = insert k v ps in
    if bytes_eq k j
    then (k, v) ∷ ps
    else if bytes_lt k j
    then (k, v) ∷ (j, w) ∷ ps
    else (j, w) ∷ rest

unfoldable pub perform : Op → List Pair → List Pair
unfolding insert select
perform (put k v) ps = insert k v ps
perform (delete k) ps = select (λ j. not (bytes_eq j k)) ps
perform (delete_range lo hi) ps = select (λ j. not (in_range lo hi j)) ps

unfoldable pub perform_all : List Op → List Pair → List Pair
unfolding perform
perform_all [] ps = ps
perform_all (op ∷ ops) ps = perform_all ops (perform op ps)

-- Every key is above `lo` and the keys ascend.
abbrev pub Above : Bytes → List Pair → Type 0
Above lo [] = Unit
Above lo ((k, v) ∷ ps) = (bytes_lt lo k ≡ true) × Above k ps

abbrev pub IsSorted : List Pair → Type 0
IsSorted [] = Unit
IsSorted ((k, v) ∷ ps) = Above k ps

-- Pebble: what is stored, as an ordered list, and the calls.
pub record Pebble : Type 1 where
  pub State : Type 0
  pub pairs : State → List Pair
  pub get : State → Bytes → Option Bytes
  -- An iterator with a lower and an upper bound, from First on.
  pub iter : State → Bytes → Option Bytes → List Pair
  pub apply : State → List Op → State
  pub pairs-IsSorted : (s : State) → IsSorted (pairs s)
  pub get_lem : (s : State) (k : Bytes) → get s k ≡ find k (pairs s)
  pub iter_lem :
      (s : State) (lo : Bytes) (hi : Option Bytes)
      → iter s lo hi ≡ select (in_range lo hi) (pairs s)
  pub apply_lem : (s : State) (ops : List Op) → pairs (apply s ops) ≡ perform_all ops (pairs s)

-- What a callback returns: nil, or an error that ends the scan.
pub data Visit (A : Type 0) : Type 0 where
  next : A → Visit A
  stop : A → Visit A

unfoldable pub visit : {A : Type 0} → (A → Bytes → Bytes → Visit A) → List Pair → A → A
visit fn [] acc = acc
visit fn ((k, v) ∷ ps) acc = elim (fn acc k v) [ next acc' ↦ visit fn ps acc' | stop acc' ↦ acc' ]

-- The last element, or `acc` before it.
abbrev pub last_from : {A : Type 0} → Option A → List A → Option A
last_from acc [] = acc
last_from acc (a ∷ rest) = last_from (some a) rest

abbrev pub seek_end : Option Bytes → Option Bytes
seek_end none = prefix_end []
seek_end (some end) = prefix_end end

module _ (pebble : Pebble) where
  abbrev pub scan_range :
      {A : Type 0} → pebble.State → Bytes → Option Bytes → (A → Bytes → Bytes → Visit A) → A → A
  scan_range s lo hi fn acc = visit fn (pebble.iter s lo hi) acc

  abbrev pub scan : {A : Type 0} → pebble.State → Bytes → (A → Bytes → Bytes → Visit A) → A → A
  scan s prefix fn acc = scan_range s prefix (prefix_end prefix) fn acc

  abbrev pub scan_keys : {A : Type 0} → pebble.State → Bytes → (A → Bytes → Visit A) → A → A
  scan_keys s prefix fn acc =
      visit (λ acc k v. fn acc k) (pebble.iter s prefix (prefix_end prefix)) acc

  -- The bound of the iterator is the end of the keys with the prefix `end`.
  unfoldable pub last_in_range : pebble.State → Bytes → Option Bytes → Option Pair
  last_in_range s start end = last_from none (pebble.iter s start (seek_end end))
