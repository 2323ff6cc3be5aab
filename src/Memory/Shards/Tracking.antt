-- ===== src/Memory/Shards/Tracking.antt =====
-- dict.go: `pos` and `nonEmpty` stay inverse to one another, so that a random draw always names a
-- shard that is tracked, and no shard twice.
use pebbis.Prelude.{
  ℕ, zero, suc, ◌+◌, ◌-◌, ◌%◌, ◌^◌, ◌<◌, ◌≡◌, refl, arith, ◌==◌, ltb, none, some, List, [], ◌∷◌,
  ◌++◌, if◌then◌else◌, length, get_elem?, set, take, length-replicate, Bool, true, false,
  Option-cases, inl, inr,
}
use pebbis.Prelude.Bits.{bit_and-le}
use pebbis.Prelude.Bytes.{Bytes}
use pebbis.Prelude.Assoc.{Assoc}
use pebbis.Memory.Entry.{Entry}
use pebbis.Memory.Shards.{
  DbShards, update, track_insert, track_empty, random_shard, new_db_shards, shard_for,
}

module _ {ℓ} {A : Type ℓ} where
  pub get_elem?-lt : (xs : List A) (i : ℕ) (x : A) → get_elem? xs i ≡ some x → i < length xs
  get_elem?-lt [] i x h = cc
  get_elem?-lt (y ∷ xs) zero x h = omega arith
  get_elem?-lt (y ∷ xs) (suc i) x h = omega (arith, get_elem?-lt xs i x h)

  pub get_elem?-take :
      (n : ℕ) (xs : List A) (i : ℕ)
      → get_elem? (take n xs) i ≡ (if ltb i n then get_elem? xs i else none)
  get_elem?-take zero xs i = ground arith
  get_elem?-take (suc n) [] i = ground arith
  get_elem?-take (suc n) (x ∷ xs) zero = ground arith
  get_elem?-take (suc n) (x ∷ xs) (suc i) = ground (arith, get_elem?-take n xs i)

  pub get_elem?-set :
      (xs : List A) (i j : ℕ) (v : A)
      → get_elem? (set xs i v) j
        ≡ (if i == j then (if ltb j (length xs) then some v else none) else get_elem? xs j)
  get_elem?-set [] i j v = ground arith
  get_elem?-set (x ∷ xs) zero zero v = ground arith
  get_elem?-set (x ∷ xs) zero (suc j) v = ground arith
  get_elem?-set (x ∷ xs) (suc i) zero v = ground arith
  get_elem?-set (x ∷ xs) (suc i) (suc j) v = ground (arith, get_elem?-set xs i j v)

  pub get_elem?-snoc :
      (xs : List A) (x : A) (i : ℕ)
      → get_elem? (xs ++ x ∷ []) i ≡ (if i == length xs then some x else get_elem? xs i)
  get_elem?-snoc [] x zero = ground arith
  get_elem?-snoc [] x (suc i) = ground arith
  get_elem?-snoc (y ∷ xs) x zero = ground arith
  get_elem?-snoc (y ∷ xs) x (suc i) = ground (arith, get_elem?-snoc xs x i)

pub get_elem?_in {ℓ} :
    {A : Type ℓ} (xs : List A) (i : ℕ) → i < length xs → (x : A) × (get_elem? xs i ≡ some x)
get_elem?_in [] i h = absurd (omega arith)
get_elem?_in (x ∷ xs) zero h = (x, refl)
get_elem?_in (x ∷ xs) (suc i) h = get_elem?_in xs i (omega arith)

-- The slot that `pos` gives a shard holds it, and the shard in a slot is given that slot.
pub record IsLinked (d : DbShards) : Type 0 where
  pub slot : (i p : ℕ) → d.pos i ≡ some p → get_elem? d.non_empty p ≡ some i
  pub owner : (i p : ℕ) → get_elem? d.non_empty p ≡ some i → d.pos i ≡ some p

track_insert-slot :
    (i : ℕ) (d : DbShards)
    → IsLinked d
    → (j p : ℕ) → (track_insert i d).pos j ≡ some p
    → get_elem? (track_insert i d).non_empty p ≡ some j
unfolding track_insert
track_insert-slot i d l j p h =
    ground (arith, l.slot j p, get_elem?-snoc d.non_empty i p, get_elem?-lt d.non_empty p j)

track_insert-owner :
    (i : ℕ) (d : DbShards)
    → IsLinked d
    → (j p : ℕ) → get_elem? (track_insert i d).non_empty p ≡ some j
    → (track_insert i d).pos j ≡ some p
unfolding track_insert
track_insert-owner i d l j p h = ground (arith, l.owner j p, get_elem?-snoc d.non_empty i p)

pub track_insert-IsLinked : (i : ℕ) (d : DbShards) → IsLinked d → IsLinked (track_insert i d)
track_insert-IsLinked i d l = record {
  slot = track_insert-slot i d l;
  owner = track_insert-owner i d l;
}

-- What `track_empty` leaves when it finds the shard in slot `p`.
abbrev emptied : ℕ → ℕ → ℕ → DbShards → DbShards
emptied i p moved d = record d {
  pos = update (update d.pos moved (some p)) i none;
  non_empty = take (length d.non_empty - 1) (set d.non_empty p moved);
}

emptied-IsLinked :
    (i p moved : ℕ) (d : DbShards)
    → IsLinked d
    → d.pos i ≡ some p
    → get_elem? d.non_empty (length d.non_empty - 1) ≡ some moved
    → IsLinked (emptied i p moved d)
emptied-IsLinked i p moved d l here end =
    let last : ℕ = length d.non_empty - 1 in
    let at_p = l.slot i p here in
    let at_last = l.owner moved last end in
    record {
      slot = λ j q h. ground (
        arith,
        at_p,
        at_last,
        l.slot j q,
        get_elem?-take last (set d.non_empty p moved) q,
        get_elem?-set d.non_empty p q moved,
        get_elem?-lt d.non_empty q j,
        get_elem?-lt d.non_empty p i,
      );
      owner = λ j q h. ground (
        arith,
        at_p,
        at_last,
        l.owner j q,
        get_elem?-take last (set d.non_empty p moved) q,
        get_elem?-set d.non_empty p q moved,
      );
    }

abbrev pub is_tracked : DbShards → ℕ → Bool
is_tracked d i = elim (d.pos i) [ none ↦ false | some p ↦ true ]

pub is_tracked-track_insert :
    (i j : ℕ) (d : DbShards)
    → is_tracked (track_insert i d) j ≡ (if i == j then true else is_tracked d j)
unfolding track_insert
is_tracked-track_insert i j d = ground arith

pub track_insert-shards :
    (i : ℕ) (d : DbShards)
    → ((track_insert i d).shards ≡ d.shards) × ((track_insert i d).mask ≡ d.mask)
unfolding track_insert
track_insert-shards i d = ground arith

is_tracked-emptied :
    (i p moved j : ℕ) (d : DbShards)
    → d.pos moved ≡ some (length d.non_empty - 1)
    → is_tracked (emptied i p moved d) j ≡ (if i == j then false else is_tracked d j)
is_tracked-emptied i p moved j d h = ground arith

-- What untracking does, as a whole: it never runs out of range, keeps `pos` and `nonEmpty` linked,
-- and leaves every shard tracked but this one.
pub record Untracked (i : ℕ) (d d' : DbShards) : Type 0 where
  pub linked : IsLinked d'
  pub kept : d'.shards ≡ d.shards
  pub mask : d'.mask ≡ d.mask
  pub tracked : (j : ℕ) → is_tracked d' j ≡ (if i == j then false else is_tracked d j)

-- While `pos` and `nonEmpty` are inverse, `trackEmpty` of any shard does not run out of range, keeps
-- them inverse, leaves the shards alone, and untracks this shard and no other.
pub track_empty-Untracked :
    (i : ℕ) (d : DbShards)
    → IsLinked d
    → (d' : DbShards) × (track_empty i d ≡ some d') × Untracked i d d'
unfolding track_empty
track_empty-Untracked i d l = elim (Option-cases (d.pos i)) [
  | inl e ↦ (
    d,
    ground (arith, e),
    record { linked = l; kept = refl; mask = refl; tracked = λ j. ground arith },
  )
  | inr (p, e) ↦
      let held = l.slot i p e in
      let (moved, end) =
        get_elem?_in d.non_empty (length d.non_empty - 1)
          (omega (arith, get_elem?-lt d.non_empty p i held)) in
      (
        emptied i p moved d,
        ground (arith, e, end, get_elem?-lt d.non_empty p i held),
        record {
          linked = emptied-IsLinked i p moved d l e end;
          kept = refl;
          mask = refl;
          tracked = λ j. is_tracked-emptied i p moved j d (l.owner moved _ end);
        },
      )
]

-- While the two are inverse, a draw within `nonEmpty` gives a tracked shard.
pub random_shard_tracked :
    (draw : ℕ) (d : DbShards)
    → IsLinked d
    → draw < length d.non_empty
    → (i : ℕ) × (random_shard draw d ≡ some (some i)) × (is_tracked d i ≡ true)
unfolding random_shard
random_shard_tracked draw d l h =
    let (i, e) = get_elem?_in d.non_empty draw h in
    (i, ground (arith, e), ground (arith, l.owner i draw e))

-- The masked hash is a position of the shards that were made, whatever the hash, as long as there is
-- one at all.
pub shard_for-lt :
    (hash : Bytes → ℕ) (key : Bytes) (n : ℕ)
    → 0 < n
    → n < 2 ^ 63
    → shard_for hash key (new_db_shards n) < length (new_db_shards n).shards
unfolding shard_for new_db_shards
shard_for-lt hash key n h h' = omega (
  arith,
  bit_and-le (hash key) ((n + 2 ^ 64 - 1) % 2 ^ 64),
  length-replicate {A = Assoc Entry} n [],
)
