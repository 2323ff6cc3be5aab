-- ===== src/Memory/Evict/Best.antt =====
-- evict.go: `pick` takes a best candidate of the sample.
use pebbis.Prelude.{
  ℕ, zero, suc, ◌≤◌, ◌≡◌, refl, arith, Bool, true, false, some, List, [], ◌∷◌, if◌then◌else◌,
  get_elem?, Bool-cases, inl, inr, ◌⊎◌,
}
use pebbis.Prelude.Int.{ℤ, ◌≤ℤ◌}
use pebbis.Memory.Evict.{
  EvictionPolicy, no_eviction, all_keys_lru, all_keys_random, volatile_lru, volatile_random,
  volatile_ttl, all_keys_lfu, volatile_lfu, Candidate, is_zero_time, is_idler, is_rarer, is_sooner,
  scan, best_by, pick,
}

-- One candidate is at least as good a victim as another.
abbrev pub Soon : ℤ → ℤ → Type 0
Soon a b = (is_zero_time b ≡ true) ⊎ ((is_zero_time a ≡ false) × (a ≤ℤ b))

abbrev pub Preferred : EvictionPolicy → Candidate → Candidate → Type 0
Preferred no_eviction a b = Unit
Preferred all_keys_lru a b = b.idle ≤ a.idle
Preferred all_keys_random a b = Unit
Preferred volatile_lru a b = b.idle ≤ a.idle
Preferred volatile_random a b = Unit
Preferred volatile_ttl a b = Soon a.expire_at b.expire_at
Preferred all_keys_lfu a b = a.freq ≤ b.freq
Preferred volatile_lfu a b = a.freq ≤ b.freq

module _ (R : Candidate → Candidate → Type 0) (better : Candidate → Candidate → Bool) where
  -- What a loop needs to find a best one.
  record IsPreference : Type 0 where
    same : (a : Candidate) → R a a
    trans : (a b c : Candidate) → R a b → R b c → R a c
    taken : (c b : Candidate) → better c b ≡ true → R c b
    left : (c b : Candidate) → better c b ≡ false → R b c

  scan-first : IsPreference → (b : Candidate) (cs : List Candidate) → R (scan better b cs) b
  unfolding scan
  scan-first p b [] = p.same b
  scan-first p b (c ∷ cs) = elim (Bool-cases (better c b)) [
    | inl e ↦ rw e (p.trans (scan better c cs) c b (scan-first p c cs) (p.taken c b e))
    | inr e ↦ rw e (scan-first p b cs)
  ]

  scan-rest :
      IsPreference
      → (b : Candidate) (cs : List Candidate) (j : ℕ) (x : Candidate) → get_elem? cs j ≡ some x
      → R (scan better b cs) x
  unfolding scan
  scan-rest p b [] j x h = absurd (cc)
  scan-rest p b (c ∷ cs) (suc j) x h = scan-rest p (if better c b then c else b) cs j x h
  scan-rest p b (c ∷ cs) zero x h =
      let cx : c ≡ x = ground arith in
      let first = scan-first p (if better c b then c else b) cs in
      rw (← cx) (
        p.trans (scan better (if better c b then c else b) cs) (if better c b then c else b) c first
          (elim (Bool-cases (better c b)) [
            | inl e ↦ rw e (p.same c)
            | inr e ↦ rw e (p.left c b e)
          ]))

  scan-all :
      IsPreference
      → (b : Candidate) (cs : List Candidate) (j : ℕ) (x : Candidate)
      → get_elem? (b ∷ cs) j ≡ some x
      → R (scan better b cs) x
  scan-all p b cs zero x h = let bx : b ≡ x = ground arith in rw (← bx) (scan-first p b cs)
  scan-all p b cs (suc j) x h = scan-rest p b cs j x h

zero-or-suc : (j : ℕ) → (j ≡ 0) ⊎ ((i : ℕ) × (j ≡ suc i))
zero-or-suc zero = inl refl
zero-or-suc (suc i) = inr (i, refl)

scan_in :
    (better : Candidate → Candidate → Bool) (b : Candidate) (cs : List Candidate)
    → (j : ℕ) × (get_elem? (b ∷ cs) j ≡ some (scan better b cs))
unfolding scan
scan_in better b [] = (0, refl)
scan_in better b (c ∷ cs) = elim (Bool-cases (better c b)) [
  | inl e ↦ let (j, h) = scan_in better c cs in rw e (suc j, h)
  | inr e ↦
      let (j, h) = scan_in better b cs in
      rw e (elim (zero-or-suc j) [
        | inl z ↦ (0, ground (arith, h))
        | inr (i, z) ↦ (suc (suc i), ground (arith, h))
      ])
]

is_idler-IsPreference : IsPreference (λ a b. b.idle ≤ a.idle) is_idler
unfolding is_idler
is_idler-IsPreference = record {
  same = λ a. omega arith;
  trans = λ a b c h k. omega (arith, h, k);
  taken = λ c b e. ground (arith, e);
  left = λ c b e. ground (arith, e);
}

is_rarer-IsPreference : IsPreference (λ a b. a.freq ≤ b.freq) is_rarer
unfolding is_rarer
is_rarer-IsPreference = record {
  same = λ a. omega arith;
  trans = λ a b c h k. omega (arith, h, k);
  taken = λ c b e. ground (arith, e);
  left = λ c b e. ground (arith, e);
}

is_sooner-IsPreference : IsPreference (λ a b. Soon a.expire_at b.expire_at) is_sooner
unfolding is_sooner
is_sooner-IsPreference = record {
  same = λ a. ground arith;
  trans = λ a b c h k. ground (arith, h, k);
  taken = λ c b e. ground (arith, e);
  left = λ c b e. ground (arith, e);
}

-- The victim is one of the sample, and no candidate of the sample is a better one by the policy: none
-- has been idle longer, none has a lower frequency, none expires sooner, for the policies that ask. Only
-- an empty sample has no victim.
pub pick-Preferred :
    (policy : EvictionPolicy) (b : Candidate) (cs : List Candidate)
    → (v : Candidate) × (pick policy (b ∷ cs) ≡ some v)
      × ((j : ℕ) × (get_elem? (b ∷ cs) j ≡ some v))
      × ((j : ℕ) (x : Candidate) → get_elem? (b ∷ cs) j ≡ some x → Preferred policy v x)
unfolding pick best_by
pick-Preferred no_eviction b cs = (b, refl, (0, refl), λ j x h. tt)
pick-Preferred all_keys_random b cs = (b, refl, (0, refl), λ j x h. tt)
pick-Preferred volatile_random b cs = (b, refl, (0, refl), λ j x h. tt)
pick-Preferred all_keys_lru b cs = (
  scan is_idler b cs,
  refl,
  scan_in is_idler b cs,
  scan-all (λ a b. b.idle ≤ a.idle) is_idler is_idler-IsPreference b cs,
)
pick-Preferred volatile_lru b cs = (
  scan is_idler b cs,
  refl,
  scan_in is_idler b cs,
  scan-all (λ a b. b.idle ≤ a.idle) is_idler is_idler-IsPreference b cs,
)
pick-Preferred all_keys_lfu b cs = (
  scan is_rarer b cs,
  refl,
  scan_in is_rarer b cs,
  scan-all (λ a b. a.freq ≤ b.freq) is_rarer is_rarer-IsPreference b cs,
)
pick-Preferred volatile_lfu b cs = (
  scan is_rarer b cs,
  refl,
  scan_in is_rarer b cs,
  scan-all (λ a b. a.freq ≤ b.freq) is_rarer is_rarer-IsPreference b cs,
)
pick-Preferred volatile_ttl b cs = (
  scan is_sooner b cs,
  refl,
  scan_in is_sooner b cs,
  scan-all (λ a b. Soon a.expire_at b.expire_at) is_sooner is_sooner-IsPreference b cs,
)
