-- ===== src/Engine/Sorted.antt =====
-- pebble.go: the order of keys, and the writes that keep a list of pairs in that order.
use pebbis.Prelude.{◌≡◌, refl, arith, Bool, true, false, List, [], ◌∷◌, inl, inr, Bool-cases}
use pebbis.Prelude.Bytes.{Bytes, bytes_lt, bytes_eq, bytes_eq_iff}
use pebbis.Engine.{
  Pair, Op, Above, IsSorted, Pebble, select, insert, perform, perform_all, in_range,
}
use pebbis.Prelude.Assoc.{find}

pub bytes_lt_irrefl : (a : Bytes) → bytes_lt a a ≡ false
bytes_lt_irrefl [] = refl
bytes_lt_irrefl (x ∷ a) = ground (arith, bytes_lt_irrefl a)

pub bytes_lt_trans :
    (a b c : Bytes) → bytes_lt a b ≡ true → bytes_lt b c ≡ true → bytes_lt a c ≡ true
bytes_lt_trans [] [] c h k = absurd (cc)
bytes_lt_trans [] (y ∷ b) [] h k = absurd (cc)
bytes_lt_trans [] (y ∷ b) (z ∷ c) h k = refl
bytes_lt_trans (x ∷ a) [] c h k = absurd (cc)
bytes_lt_trans (x ∷ a) (y ∷ b) [] h k = absurd (cc)
bytes_lt_trans (x ∷ a) (y ∷ b) (z ∷ c) h k = ground (arith, bytes_lt_trans a b c)

-- Two keys that are not below one another are equal.
pub bytes_lt-total :
    (a b : Bytes) → bytes_lt a b ≡ false → bytes_eq a b ≡ false → bytes_lt b a ≡ true
unfolding bytes_eq
bytes_lt-total [] [] h n = absurd (cc)
bytes_lt-total [] (y ∷ b) h n = absurd (cc)
bytes_lt-total (x ∷ a) [] h n = refl
bytes_lt-total (x ∷ a) (y ∷ b) h n = ground (arith, bytes_lt-total a b)

pub Above-lower : (lo k : Bytes) (ps : List Pair) → bytes_lt lo k ≡ true → Above k ps → Above lo ps
Above-lower lo k [] h a = tt
Above-lower lo k ((j, w) ∷ ps) h a = (bytes_lt_trans lo k j h a.0, a.1)

Above-select :
    (p : Bytes → Bool) (lo : Bytes) (ps : List Pair) → Above lo ps → Above lo (select p ps)
unfolding select
Above-select p lo [] a = tt
Above-select p lo ((k, v) ∷ ps) a = elim (Bool-cases (p k)) [
  | inl e ↦ rw e (a.0, Above-select p k ps a.1)
  | inr e ↦ rw e (Above-select p lo ps (Above-lower lo k ps a.0 a.1))
]

pub Above-IsSorted : (k : Bytes) (ps : List Pair) → Above k ps → IsSorted ps
Above-IsSorted k [] a = tt
Above-IsSorted k ((j, w) ∷ ps) a = a.1

pub select-IsSorted : (p : Bytes → Bool) (ps : List Pair) → IsSorted ps → IsSorted (select p ps)
unfolding select
select-IsSorted p [] s = tt
select-IsSorted p ((k, v) ∷ ps) s = elim (Bool-cases (p k)) [
  | inl e ↦ rw e (Above-select p k ps s)
  | inr e ↦ rw e (select-IsSorted p ps (Above-IsSorted k ps s))
]

Above-insert :
    (lo k v : Bytes) (ps : List Pair)
    → bytes_lt lo k ≡ true
    → Above lo ps
    → Above lo (insert k v ps)
unfolding insert
Above-insert lo k v [] h a = (h, tt)
Above-insert lo k v ((j, w) ∷ ps) h a = elim (Bool-cases (bytes_eq k j)) [
  | inl e ↦ rw e (let same : k ≡ j = (bytes_eq_iff k j).0 e in (h, rw same a.1))
  | inr n ↦ rw n (elim (Bool-cases (bytes_lt k j)) [
    | inl b ↦ rw b (h, (b, a.1))
    | inr b ↦ rw b (a.0, Above-insert j k v ps (bytes_lt-total k j b n) a.1)
  ])
]

pub insert-IsSorted : (k v : Bytes) (ps : List Pair) → IsSorted ps → IsSorted (insert k v ps)
unfolding insert
insert-IsSorted k v [] s = tt
insert-IsSorted k v ((j, w) ∷ ps) s = elim (Bool-cases (bytes_eq k j)) [
  | inl e ↦ rw e (let same : k ≡ j = (bytes_eq_iff k j).0 e in rw same s)
  | inr n ↦ rw n (elim (Bool-cases (bytes_lt k j)) [
    | inl b ↦ rw b (b, s)
    | inr b ↦ rw b (Above-insert j k v ps (bytes_lt-total k j b n) s)
  ])
]

perform-IsSorted : (op : Op) (ps : List Pair) → IsSorted ps → IsSorted (perform op ps)
unfolding perform
perform-IsSorted (Op.put k v) ps s = insert-IsSorted k v ps s
perform-IsSorted (Op.delete k) ps s = select-IsSorted _ ps s
perform-IsSorted (Op.delete_range lo hi) ps s = select-IsSorted _ ps s

pub perform_all-IsSorted :
    (ops : List Op) (ps : List Pair) → IsSorted ps → IsSorted (perform_all ops ps)
unfolding perform_all
perform_all-IsSorted [] ps s = s
perform_all-IsSorted (op ∷ ops) ps s =
    perform_all-IsSorted ops (perform op ps) (perform-IsSorted op ps s)

-- Sorted lists meet what is assumed of Pebble.
pub record Listed : Type 0 where
  pub list : List Pair
  pub sorted : IsSorted list

abbrev pub listed : Pebble
listed = record {
  State = Listed;
  pairs = λ s. s.list;
  get = λ s k. find k s.list;
  iter = λ s lo hi. select (in_range lo hi) s.list;
  apply = λ s ops. record {
    list = perform_all ops s.list;
    sorted = perform_all-IsSorted ops s.list s.sorted;
  };
  pairs-IsSorted = λ s. s.sorted;
  get_lem = λ s k. refl;
  iter_lem = λ s lo hi. refl;
  apply_lem = λ s ops. refl;
}
