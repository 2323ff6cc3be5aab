-- ===== src/Memory/Expire/Due.antt =====
-- expire.go: which keys a cycle removes.
use pebbis.Prelude.{
  ℕ, ◌+◌, ◌^◌, ◌<◌, ◌≡◌, refl, sym, ◌∙◌, arith, Bool, true, false, not, ◌&&◌, ◌||◌, ◌==◌, ltb, none,
  some, List, [], ◌∷◌, ◌++◌, if◌then◌else◌, length, map, append-nil, append_assoc, Bool-cases, inl,
  inr,
}
use pebbis.Prelude.Int.{ℤ, ltb_ℤ, IsI64}
use pebbis.Prelude.Bytes.{Bytes, bytes_eq, bytes_lt}
use pebbis.Storage.Codec.{encode_data_key, encode_expire_key, decode_expire_key}
use pebbis.Storage.Codec.RoundTrip.{decode_expire_key-encode_expire_key}
use pebbis.Storage.Codec.Order.{bytes_lt-encode_expire_key}
use pebbis.Memory.Db.{delete}
use pebbis.Memory.Db.Removes.{delete-Writes}
use pebbis.Memory.Dict.{Dict, valid}
use pebbis.Memory.Dict.Whole.{IsWhole, DictWrites, view_at, at_db-DictWrites}
use pebbis.Memory.Expire.{Reaped, dict_delete, reap, cycle_scan, cycle}

-- A key of the expiry index, as what it encodes.
pub record Timer : Type 0 where
  pub expire_at : ℤ
  pub db : ℕ
  pub key : Bytes

abbrev pub timer_key : Timer → Bytes
timer_key t = encode_expire_key t.expire_at t.db t.key

-- The index holds timers of the right widths in the order of `bytes.Compare`, as the engine keeps it.
abbrev pub IsIndex : List Timer → Type 0
IsIndex [] = Unit
IsIndex (t ∷ []) = IsI64 t.expire_at × (t.db < 2 ^ 16)
IsIndex (t ∷ u ∷ ts) =
    IsI64 t.expire_at
    × (t.db < 2 ^ 16)
    × (bytes_lt (timer_key t) (timer_key u) ≡ true)
    × IsIndex (u ∷ ts)

-- The timers whose time has come, in the `n` databases that there are.
abbrev pub due : ℤ → ℕ → List Timer → List Timer
due now n [] = []
due now n (t ∷ ts) =
    let rest = due now n ts in if not (ltb_ℤ now t.expire_at) && ltb t.db n then t ∷ rest else rest

abbrev pub deletions : List Timer → List Bytes
deletions [] = []
deletions (t ∷ ts) = encode_data_key t.db t.key ∷ timer_key t ∷ deletions ts

abbrev pub is_among : ℕ → Bytes → List Timer → Bool
is_among db key [] = false
is_among db key (t ∷ ts) = (t.db == db && bytes_eq t.key key) || is_among db key ts

IsIndex-head :
    (t : Timer) (ts : List Timer) → IsIndex (t ∷ ts) → IsI64 t.expire_at × (t.db < 2 ^ 16)
IsIndex-head t [] h = h
IsIndex-head t (u ∷ ts) (a, b, c, d) = (a, b)

IsIndex-tail : (t : Timer) (ts : List Timer) → IsIndex (t ∷ ts) → IsIndex ts
IsIndex-tail t [] h = tt
IsIndex-tail t (u ∷ ts) (a, b, c, d) = d

-- Where the scan stops, nothing later is due.
due-later :
    (now : ℤ) (n : ℕ) (t : Timer) (ts : List Timer)
    → IsIndex (t ∷ ts)
    → ltb_ℤ now t.expire_at ≡ true
    → due now n (t ∷ ts) ≡ []
due-later now n t [] h stop = ground (arith, stop)
due-later now n t (u ∷ ts) (a, b, c, d) stop =
    let (a', b') = IsIndex-head u ts d in
    let e = bytes_lt-encode_expire_key t.expire_at u.expire_at t.db u.db t.key u.key a a' b b' in
    let later : ltb_ℤ now u.expire_at ≡ true = ground (arith, e, c, stop) in
    ground (arith, stop, due-later now n u ts d later)

module _ (hash : Bytes → ℕ) where
  dict_delete-DictWrites :
      (db : ℕ) (key : Bytes) (d : Dict)
      → IsWhole hash d
      → valid db d ≡ true
      → (d' : Dict) × (dict_delete hash db key d ≡ some d') × DictWrites hash db key none d d'
  unfolding dict_delete
  dict_delete-DictWrites db key d w ok =
      let (d', run, wr) =
        at_db-DictWrites hash (delete hash key) (λ v. v) (λ v. none) db key d
          (λ d₀ s. delete-Writes hash key d₀ s) w ok in
      (d', ground (arith, run), wr)

  -- The dict and the batch after the removal of some timers.
  pub record Removes (ts : List Timer) (d : Dict) (b : List Bytes) (n : ℕ) (r : Reaped)
      : Type 0 where
    pub whole : IsWhole hash r.dict
    pub width : length r.dict.dbs ≡ length d.dbs
    pub reads :
        (j : ℕ) (q : Bytes)
        → view_at hash r.dict j q ≡ (if is_among j q ts then none else view_at hash d j q)
    pub batched : r.batch ≡ b ++ deletions ts
    pub counted : r.collected ≡ n + length ts

  abbrev reaped : Timer → Dict → Reaped → Reaped
  reaped t d r = record {
    dict = d;
    batch = r.batch ++ encode_data_key t.db t.key ∷ timer_key t ∷ [];
    collected = r.collected + 1;
  }

  scan-step :
      (now : ℤ) (limit : ℕ) (t : Timer) (ks : List Bytes) (d : Dict) (r r' : Reaped)
      → decode_expire_key (timer_key t) ≡ some (t.expire_at, t.db, t.key)
      → ltb_ℤ now t.expire_at ≡ false
      → valid t.db r.dict ≡ true
      → dict_delete hash t.db t.key r.dict ≡ some d
      → r.collected + 1 < limit
      → cycle_scan hash now limit (λ _. false) ks (reaped t d r) ≡ some r'
      → cycle_scan hash now limit (λ _. false) (timer_key t ∷ ks) r ≡ some r'
  unfolding cycle_scan reap
  scan-step now limit t ks d r r' decoded go_on ok deleted few run =
      ground (arith, decoded, go_on, ok, deleted, few, run)

  Removes-cons :
      (t : Timer) (ts : List Timer) (d : Dict) (r r' : Reaped)
      → DictWrites hash t.db t.key none r.dict d
      → Removes ts d (reaped t d r).batch (r.collected + 1) r'
      → Removes (t ∷ ts) r.dict r.batch r.collected r'
  Removes-cons t ts d r r' wr rm = record {
    whole = rm.whole;
    width = rm.width ∙ wr.width;
    reads = λ j q. rm.reads j q ∙ ground (arith, wr.reads j q);
    batched =
        rm.batched
        ∙ append_assoc r.batch (encode_data_key t.db t.key ∷ timer_key t ∷ []) (deletions ts);
    counted = omega (arith, rm.counted);
  }

  cycle_scan-due :
      (now : ℤ) (limit : ℕ) (ts : List Timer) (r : Reaped)
      → IsWhole hash r.dict
      → IsIndex ts
      → r.collected + length ts < limit
      → (r' : Reaped) × (cycle_scan hash now limit (λ _. false) (map timer_key ts) r ≡ some r')
        × Removes (due now (length r.dict.dbs) ts) r.dict r.batch r.collected r'
  unfolding cycle_scan valid
  cycle_scan-due now limit [] r w ix few = (
    r,
    refl,
    record {
      whole = w;
      width = refl;
      reads = λ j q. refl;
      batched = sym (append-nil r.batch);
      counted = omega arith;
    },
  )
  cycle_scan-due now limit (t ∷ ts) r w ix few =
      let (a, b) = IsIndex-head t ts ix in
      let decoded = decode_expire_key-encode_expire_key t.expire_at t.db t.key a b in
      let tail = IsIndex-tail t ts ix in
      let n = length r.dict.dbs in
      elim (Bool-cases (ltb_ℤ now t.expire_at)) [
        | inl stop ↦
            let e = due-later now n t ts ix stop in
            (
              r,
              ground (arith, decoded, stop),
              rw e (record {
                whole = w;
                width = refl;
                reads = λ j q. refl;
                batched = sym (append-nil r.batch);
                counted = omega arith;
              }),
            )
        | inr go_on ↦ elim (Bool-cases (ltb t.db n)) [
          | inr beyond ↦
              let (r', run, rm) = cycle_scan-due now limit ts r w tail (omega (arith, few)) in
              let e : due now n (t ∷ ts) ≡ due now n ts = ground (arith, beyond) in
              (r', ground (arith, decoded, go_on, beyond, run), rw e rm)
          | inl ok ↦
              let (d, deleted, wr) = dict_delete-DictWrites t.db t.key r.dict w ok in
              let r₁ = reaped t d r in
              let (r', run, rm) =
                cycle_scan-due now limit ts r₁ wr.whole tail (omega (arith, few)) in
              let rm' = rw wr.width at rm in
              let e : due now n (t ∷ ts) ≡ t ∷ due now n ts = ground (arith, go_on, ok) in
              (
                r',
                scan-step now limit t (map timer_key ts) d r r' decoded go_on ok deleted
                    (omega (arith, few)) run,
                rw e (Removes-cons t (due now n ts) d r r' wr rm'),
              )
        ]
      ]

  deletions-nil : (ts : List Timer) → length ts ≡ 0 → deletions ts ≡ []
  deletions-nil [] h = refl
  deletions-nil (t ∷ ts) h = absurd (omega (arith, h))

  -- On a whole dict, and on an index whose timers have the right widths and the engine's order and are
  -- fewer than the limit, a cycle that meets neither its deadline nor an error of `Apply` does not panic
  -- and removes exactly the timers that are due in the databases there are. It returns their number,
  -- applies a batch that deletes the data key and the expiry key of each in the order of the index, and
  -- leaves in the dict, which stays whole, every key but theirs.
  pub cycle-due :
      (now : ℤ) (limit : ℕ) (ts : List Timer) (d : Dict)
      → IsWhole hash d
      → IsIndex ts
      → length ts < limit
      → (d' : Dict) × (cycle hash now limit (λ _. false) false (map timer_key ts) d
          ≡ some (
            some (length (due now (length d.dbs) ts)),
            deletions (due now (length d.dbs) ts),
            d',
          ))
        × IsWhole hash d'
        × ((j : ℕ) (q : Bytes)
            → view_at hash d' j q
              ≡ (if is_among j q (due now (length d.dbs) ts) then none else view_at hash d j q))
  unfolding cycle
  cycle-due now limit ts d w ix few =
      let start : Reaped = record { dict = d; batch = []; collected = 0 } in
      let (r, run, rm) = cycle_scan-due now limit ts start w ix (omega (arith, few)) in
      (
        r.dict,
        ground (arith, run, rm.batched, rm.counted, deletions-nil (due now (length d.dbs) ts)),
        rm.whole,
        rm.reads,
      )
