-- ===== src/Memory/Evict/Sampling.antt =====
-- evict.go: the sample is taken without a panic, and its candidates are of the databases.
use pebbis.Prelude.{
  ℕ, zero, suc, ◌+◌, ◌<◌, ◌≤◌, ◌≡◌, ◌≢◌, ◌⊎◌, inl, inr, refl, arith, ◌==◌, Bool, ◌&&◌, Option, none,
  some, List, [], ◌∷◌, ◌++◌, length, get_elem?, Bool-cases,
}
use pebbis.Prelude.Int.{ℤ}
use pebbis.Prelude.Bytes.{Bytes}
use pebbis.Prelude.Assoc.{Assoc}
use pebbis.Memory.Entry.{Entry, expired}
use pebbis.Memory.Shards.{DbShards, random_shard}
use pebbis.Memory.Shards.Tracking.{get_elem?_in, random_shard_tracked}
use pebbis.Memory.Db.Shape.{IsShaped}
use pebbis.Memory.Evict.{
  EvictionPolicy, volatile_only, Candidate, pick, pick_from_shard, is_zero_time,
}
use pebbis.Memory.Evict.Best.{pick-Preferred}
use pebbis.Memory.Evict.Rounds.{Snapshot, Reading, optional, sample_db, sample_dbs}

-- Every candidate is of one of the first `n` databases.
abbrev pub Within : ℕ → List Candidate → Type 0
Within n [] = Unit
Within n (c ∷ cs) = (c.db < n) × Within n cs

Within-append : (n : ℕ) (xs ys : List Candidate) → Within n xs → Within n ys → Within n (xs ++ ys)
Within-append n [] ys h k = k
Within-append n (c ∷ xs) ys h k = (h.0, Within-append n xs ys h.1 k)

pub Within-get_elem? :
    (n : ℕ) (xs : List Candidate) (j : ℕ) (c : Candidate)
    → Within n xs
    → get_elem? xs j ≡ some c
    → c.db < n
Within-get_elem? n [] j c h e = absurd (cc)
Within-get_elem? n (x ∷ xs) zero c h e = let same : x ≡ c = ground arith in rw (← same) h.0
Within-get_elem? n (x ∷ xs) (suc j) c h e = Within-get_elem? n xs j c h.1 e

pick_from_shard-Within :
    (n db : ℕ) (now : ℤ) (clock : ℕ) (only_volatile : Bool) (m : Assoc Entry)
    → db < n
    → Within n (optional (pick_from_shard db now clock only_volatile m))
unfolding pick_from_shard
pick_from_shard-Within n db now clock only_volatile [] h = tt
pick_from_shard-Within n db now clock only_volatile ((k, e) ∷ m) h =
    elim (Bool-cases (expired e now)) [
      | inl over ↦ rw over (h, tt)
      | inr good ↦ elim (Bool-cases (only_volatile && is_zero_time e.expire_at)) [
        | inl skipped ↦ rw (good, skipped) (pick_from_shard-Within n db now clock only_volatile m h)
        | inr kept ↦ rw (good, kept) (h, tt)
      ]
    ]

-- Nobody is picked, or somebody of the sample.
pub picked :
    (policy : EvictionPolicy) (cs : List Candidate)
    → (pick policy cs ≡ none)
      ⊎ ((c : Candidate) × (pick policy cs ≡ some c) × (j : ℕ) × (get_elem? cs j ≡ some c))
unfolding pick
picked policy [] = inl refl
picked policy (b ∷ cs) =
    let (v, chosen, (j, there), best) = pick-Preferred policy b cs in inr (v, chosen, j, there)

-- A draw of `rand.IntN` is below the number it is given, which is not 0.
abbrev pub IsDraw : (ℕ → ℕ) → Type 0
IsDraw draw = (n : ℕ) → n ≢ 0 → draw n < n

module _ (hash : Bytes → ℕ) where
  sample_db-Within :
      (snap : Snapshot) (now : Reading) (db n count : ℕ) (draw : ℕ → ℕ → ℕ) (ds : DbShards)
      → IsShaped hash ds
      → ((i : ℕ) → IsDraw (draw i))
      → db < n
      → (cs : List Candidate) × (sample_db snap now db draw count ds ≡ some cs) × Within n cs
  unfolding sample_db
  sample_db-Within snap now db n zero draw ds s ok h = ([], refl, tt)
  sample_db-Within snap now db n (suc count) draw ds s ok h =
      let (rest, later, w) = sample_db-Within snap now db n count draw ds s ok h in
      elim (Bool-cases (length ds.non_empty == 0)) [
        | inl nil ↦ ([], unfold random_shard in (ground (arith, nil)), tt)
        | inr held ↦
            let (i, run, tracked) =
              random_shard_tracked (draw count (length ds.non_empty)) ds s.linked
                (ok count (length ds.non_empty) (ground (arith, held))) in
            let (m, at) = get_elem?_in ds.shards i (s.within i tracked) in
            let found = optional (pick_from_shard db now.0 now.1 (volatile_only snap.policy) m) in
            (
              found ++ rest,
              ground (arith, run, at, later),
              Within-append n found rest
                  (pick_from_shard-Within n db now.0 now.1 (volatile_only snap.policy) m h) w,
            )
      ]

  pub sample_dbs-Within :
      (snap : Snapshot) (now : Reading) (draw : ℕ → ℕ → ℕ → ℕ) (n count db : ℕ)
      (dbs : List (Option DbShards))
      → ((j : ℕ) (ds : DbShards) → get_elem? dbs j ≡ some (some ds) → IsShaped hash ds)
      → ((k i : ℕ) → IsDraw (draw k i))
      → db + length dbs ≤ n
      → (cs : List Candidate) × (sample_dbs snap now draw count db dbs ≡ some cs) × Within n cs
  unfolding sample_dbs
  sample_dbs-Within snap now draw n count db [] s ok h = ([], refl, tt)
  sample_dbs-Within snap now draw n count db (none ∷ dbs) s ok h =
      sample_dbs-Within snap now draw n count (db + 1) dbs (λ j. s (suc j)) ok (omega (arith, h))
  sample_dbs-Within snap now draw n count db (some ds ∷ dbs) s ok h =
      let (out, run, w) =
        sample_db-Within snap now db n count (draw db) ds (s 0 ds refl) (ok db)
          (omega (arith, h)) in
      let (rest, later, w') =
        sample_dbs-Within snap now draw n count (db + 1) dbs (λ j. s (suc j)) ok
          (omega (arith, h)) in
      (out ++ rest, ground (arith, run, later), Within-append n out rest w w')
