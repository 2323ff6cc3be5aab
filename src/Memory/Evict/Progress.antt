-- ===== src/Memory/Evict/Progress.antt =====
-- evict.go: what `MaybeEvict` does to the dict.
use pebbis.Prelude.{
  ℕ, zero, suc, ◌+◌, ◌≤◌, ◌≡◌, ◌⊎◌, inl, inr, refl, ◌∙◌, arith, ◌==◌, Bool, true, false, ◌&&◌, ◌||◌,
  none, some, [], ◌∷◌, ◌++◌, if◌then◌else◌, length, Option-cases, Bool-cases,
}
use pebbis.Prelude.Int.{of_u64, leb_ℤ}
use pebbis.Prelude.Bytes.{Bytes, bytes_eq}
use pebbis.Memory.Db.{delete}
use pebbis.Memory.Db.Removes.{delete-Writes}
use pebbis.Memory.Dict.{Dict, valid}
use pebbis.Memory.Dict.Whole.{IsWhole, DictWrites, view_at, at_db-DictWrites}
use pebbis.Memory.Evict.{EvictionMode, evict_persist, evict_cache, eviction_enabled, Candidate}
use pebbis.Memory.Evict.Rounds.{
  Snapshot, Reading, Evicting, is_cache, sample_size, evict_candidate, evict_one, evict_rounds,
  maybe_evict,
}
use pebbis.Memory.Evict.Sampling.{Within-get_elem?, picked, IsDraw, sample_dbs-Within}

module _ (hash : Bytes → ℕ) where
  -- What rounds of eviction may do: keys go, and at most `n` of them; the dict stays whole; unless
  -- evicted keys are deleted from disk as well, `deleteFn` is not called.
  pub record Progress (mode : EvictionMode) (n : ℕ) (ev ev' : Evicting) : Type 0 where
    pub whole : IsWhole hash ev'.dict
    pub reads :
        (j : ℕ) (q : Bytes)
        → (view_at hash ev'.dict j q ≡ view_at hash ev.dict j q)
          ⊎ (view_at hash ev'.dict j q ≡ none)
    pub counted : (ev.evicted ≤ ev'.evicted) × (ev'.evicted ≤ ev.evicted + n)
    pub quiet : is_cache mode ≡ false → ev'.deletes ≡ ev.deletes

  nothing_gone :
      (mode : EvictionMode) (n : ℕ) (ev : Evicting) → IsWhole hash ev.dict → Progress mode n ev ev
  nothing_gone mode n ev w = record {
    whole = w;
    reads = λ j q. inl refl;
    counted = (omega arith, omega arith);
    quiet = λ h. refl;
  }

  Progress-trans :
      (mode : EvictionMode) (n : ℕ) (a b c : Evicting)
      → Progress mode 1 a b
      → Progress mode n b c
      → Progress mode (suc n) a c
  Progress-trans mode n a b c p q = record {
    whole = q.whole;
    reads = λ j k. elim (q.reads j k) [
      | inr gone ↦ inr gone
      | inl same ↦ elim (p.reads j k) [
        | inr gone ↦ inr (same ∙ gone)
        | inl same' ↦ inl (same ∙ same')
      ]
    ];
    counted = (omega (arith, p.counted, q.counted), omega (arith, p.counted, q.counted));
    quiet = λ h. q.quiet h ∙ p.quiet h;
  }

  abbrev called : EvictionMode → Candidate → Evicting → Evicting
  called mode c ev =
      if is_cache mode then record ev { deletes = ev.deletes ++ (c.db, c.key) ∷ [] } else ev

  called_evicted :
      (mode : EvictionMode) (c : Candidate) (ev : Evicting)
      → (called mode c ev).evicted ≡ ev.evicted
  called_evicted evict_persist c ev = refl
  called_evicted evict_cache c ev = refl

  called-Progress :
      (mode : EvictionMode) (c : Candidate) (ev : Evicting)
      → IsWhole hash ev.dict
      → Progress mode 1 ev (called mode c ev)
  called-Progress evict_persist c ev w = nothing_gone evict_persist 1 ev w
  called-Progress evict_cache c ev w = record {
    whole = w;
    reads = λ j q. inl refl;
    counted = (omega arith, omega arith);
    quiet = λ h. absurd (cc);
  }

  removed-Progress :
      (mode : EvictionMode) (c : Candidate) (ev : Evicting) (d : Dict) (k : ℕ)
      → DictWrites hash c.db c.key none ev.dict d
      → (ev.evicted ≤ k) × (k ≤ ev.evicted + 1)
      → Progress mode 1 ev (record (called mode c ev) { dict = d; evicted = k })
  removed-Progress mode c ev d k wr within = record {
    whole = wr.whole;
    reads = λ j q. elim (Bool-cases (c.db == j && bytes_eq c.key q)) [
      | inl here ↦ inr (ground (arith, wr.reads j q, here))
      | inr elsewhere ↦ inl (ground (arith, wr.reads j q, elsewhere))
    ];
    counted = within;
    quiet = λ h. ground (arith, h);
  }

  evict_candidate-Progress :
      (mode : EvictionMode) (delete_fails : ℕ → Bytes → Bool) (c : Candidate) (ev : Evicting)
      → IsWhole hash ev.dict
      → valid c.db ev.dict ≡ true
      → (went : Bool) × (ev' : Evicting) × (evict_candidate hash mode delete_fails c ev
          ≡ some (went, ev'))
        × Progress mode 1 ev ev'
  unfolding evict_candidate
  evict_candidate-Progress mode delete_fails c ev w ok =
      elim (Bool-cases (is_cache mode && delete_fails c.db c.key)) [
        | inl failed ↦
            (false, called mode c ev, ground (arith, failed), called-Progress mode c ev w)
        | inr fine ↦
            let (d, run, wr) =
              at_db-DictWrites hash (delete hash c.key) (λ v. v) (λ v. none) c.db c.key ev.dict
                (λ d₀ s. delete-Writes hash c.key d₀ s) w ok in
            elim (Option-cases (view_at hash ev.dict c.db c.key)) [
              | inl absent ↦ (
                false,
                record (called mode c ev) { dict = d; evicted = ev.evicted },
                ground (arith, fine, run, absent, called_evicted mode c ev),
                removed-Progress mode c ev d ev.evicted wr (omega arith, omega arith),
              )
              | inr (e, there) ↦ (
                true,
                record (called mode c ev) { dict = d; evicted = ev.evicted + 1 },
                ground (arith, fine, run, there),
                removed-Progress mode c ev d (ev.evicted + 1) wr (omega arith, omega arith),
              )
            ]
      ]

  evict_one-Progress :
      (snap : Snapshot) (now : Reading) (draw : ℕ → ℕ → ℕ → ℕ) (delete_fails : ℕ → Bytes → Bool)
      (ev : Evicting)
      → ((k i : ℕ) → IsDraw (draw k i))
      → IsWhole hash ev.dict
      → (went : Bool) × (ev' : Evicting) × (evict_one hash snap now draw delete_fails ev
          ≡ some (went, ev'))
        × Progress snap.mode 1 ev ev'
  unfolding evict_one valid
  evict_one-Progress snap now draw delete_fails ev draws w =
      let (cs, run, within) =
        sample_dbs-Within hash snap now draw (length ev.dict.dbs) (sample_size snap.sample) 0
          ev.dict.dbs w.databases draws (omega arith) in
      elim (picked snap.policy cs) [
        | inl nobody ↦ (false, ev, ground (arith, run, nobody), nothing_gone snap.mode 1 ev w)
        | inr (c, chosen, j, there) ↦
            let inside = Within-get_elem? (length ev.dict.dbs) cs j c within there in
            let (went, ev', run', p) =
              evict_candidate-Progress snap.mode delete_fails c ev w (ground (arith, inside)) in
            (went, ev', ground (arith, run, chosen, run'), p)
      ]

  evict_rounds-Progress :
      (n : ℕ) (snap : Snapshot) (clock : ℕ → Reading) (draw : ℕ → ℕ → ℕ → ℕ → ℕ) (late : ℕ → Bool)
      (delete_fails : ℕ → Bytes → Bool) (ev : Evicting)
      → ((round k i : ℕ) → IsDraw (draw round k i))
      → IsWhole hash ev.dict
      → (ev' : Evicting) × (evict_rounds hash n snap clock draw late delete_fails ev ≡ some ev')
        × Progress snap.mode n ev ev'
  unfolding evict_rounds
  evict_rounds-Progress zero snap clock draw late delete_fails ev draws w =
      (ev, refl, nothing_gone snap.mode 0 ev w)
  evict_rounds-Progress (suc n) snap clock draw late delete_fails ev draws w =
      elim (Bool-cases (leb_ℤ (of_u64 ev.dict.used) snap.target || late n)) [
        | inl stop ↦ (ev, ground (arith, stop), nothing_gone snap.mode (suc n) ev w)
        | inr go_on ↦
            let (went, ev₁, run, p) =
              evict_one-Progress snap (clock n) (draw n) delete_fails ev (draws n) w in
            elim (Bool-cases went) [
              | inl yes' ↦
                  let (ev₂, run', q) =
                    evict_rounds-Progress n snap clock draw late delete_fails ev₁ draws p.whole in
                  (
                    ev₂,
                    ground (arith, go_on, run, yes', run'),
                    Progress-trans snap.mode n ev ev₁ ev₂ p q,
                  )
              | inr no' ↦ (
                ev₁,
                ground (arith, go_on, run, no'),
                Progress-trans snap.mode n ev ev₁ ev₁ p (nothing_gone snap.mode n ev₁ p.whole),
              )
            ]
      ]

  -- On a whole dict `MaybeEvict` does not panic, whatever is drawn and read of the clock, whenever the deadline passes and
  -- whichever calls of `deleteFn` fail: it only takes keys out of the dict, which stays whole, counts at
  -- most 64 of them as evicted, and does not call `deleteFn` unless the mode is that of a cache.
  pub maybe_evict-Progress :
      (snap : Snapshot) (clock : ℕ → Reading) (draw : ℕ → ℕ → ℕ → ℕ → ℕ) (late : ℕ → Bool)
      (delete_fails : ℕ → Bytes → Bool) (ev : Evicting)
      → ((round k i : ℕ) → IsDraw (draw round k i))
      → IsWhole hash ev.dict
      → (ev' : Evicting) × (maybe_evict hash snap clock draw late delete_fails ev ≡ some ev')
        × Progress snap.mode 64 ev ev'
  unfolding maybe_evict
  maybe_evict-Progress snap clock draw late delete_fails ev draws w =
      elim (Bool-cases (eviction_enabled snap.max_memory snap.policy)) [
        | inr off ↦ (ev, ground (arith, off), nothing_gone snap.mode 64 ev w)
        | inl on ↦ elim (Bool-cases (leb_ℤ (of_u64 ev.dict.used) snap.target)) [
          | inl enough ↦ (ev, ground (arith, on, enough), nothing_gone snap.mode 64 ev w)
          | inr much ↦
              let (ev', run, p) =
                evict_rounds-Progress 64 snap clock draw late delete_fails ev draws w in
              (ev', ground (arith, on, much, run), p)
        ]
      ]
