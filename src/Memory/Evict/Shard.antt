-- ===== src/Memory/Evict/Shard.antt =====
-- evict.go: what `pickFromShard` finds in one shard.
use pebbis.Prelude.{
  ℕ, zero, suc, ◌≡◌, refl, arith, Bool, true, false, not, ◌&&◌, ◌||◌, Option, none, some, [], ◌∷◌,
  inl, inr, Bool-cases, get_elem?,
}
use pebbis.Prelude.Int.{ℤ}
use pebbis.Prelude.Bytes.{Bytes}
use pebbis.Prelude.Assoc.{Assoc}
use pebbis.Memory.Entry.{Entry, expired}
use pebbis.Memory.Evict.{Candidate, is_zero_time, pick_from_shard}

-- An entry that may be evicted: its time is over, or the policy takes it.
abbrev pub may_evict : ℤ → Bool → Entry → Bool
may_evict now_ms only_volatile e =
    expired e now_ms || not (only_volatile && is_zero_time e.expire_at)

-- There is no candidate, and nothing in the shard may be evicted; or the candidate is an entry of the
-- shard that may be evicted, by its key, its size and its expiry.
abbrev pub Found : ℤ → Bool → Assoc Entry → Option Candidate → Type 0
Found now_ms only_volatile m none =
    (j : ℕ) (k : Bytes) (e : Entry)
    → get_elem? m j ≡ some (k, e)
    → may_evict now_ms only_volatile e ≡ false
Found now_ms only_volatile m (some c) =
    (j : ℕ) × (e : Entry) × (get_elem? m j ≡ some (c.key, e))
    × (may_evict now_ms only_volatile e ≡ true)
    × (c.size ≡ e.size)
    × (c.expire_at ≡ e.expire_at)

Found-none :
    (now_ms : ℤ) (only_volatile : Bool) (key : Bytes) (e : Entry) (m : Assoc Entry)
    → may_evict now_ms only_volatile e ≡ false
    → Found now_ms only_volatile m none
    → Found now_ms only_volatile ((key, e) ∷ m) none
Found-none now_ms only_volatile key e m refused f zero k x h =
    let same : e ≡ x = ground (arith, h) in rw (← same) refused
Found-none now_ms only_volatile key e m refused f (suc j) k x h = f j k x h

Found-later :
    (now_ms : ℤ) (only_volatile : Bool) (key : Bytes) (e : Entry) (m : Assoc Entry)
    (c : Option Candidate)
    → may_evict now_ms only_volatile e ≡ false
    → Found now_ms only_volatile m c
    → Found now_ms only_volatile ((key, e) ∷ m) c
Found-later now_ms only_volatile key e m none refused f =
    Found-none now_ms only_volatile key e m refused f
Found-later now_ms only_volatile key e m (some c) refused (j, x, h, may, s, t) =
    (suc j, x, h, may, s, t)

-- `pickFromShard` finds an entry that may be evicted if the shard has one, in whatever order the map is
-- walked.
pub pick_from_shard-Found :
    (db : ℕ) (now_ms : ℤ) (now_clock : ℕ) (only_volatile : Bool) (m : Assoc Entry)
    → Found now_ms only_volatile m (pick_from_shard db now_ms now_clock only_volatile m)
unfolding pick_from_shard
pick_from_shard-Found db now_ms now_clock only_volatile [] = λ j k e h. absurd (cc)
pick_from_shard-Found db now_ms now_clock only_volatile ((key, e) ∷ m) =
    elim (Bool-cases (expired e now_ms)) [
      | inl over ↦ rw over (0, e, refl, ground (arith, over), refl, refl)
      | inr good ↦ elim (Bool-cases (only_volatile && is_zero_time e.expire_at)) [
        | inl skipped ↦
            rw (good, skipped)
              (Found-later now_ms only_volatile key e m
                (pick_from_shard db now_ms now_clock only_volatile m)
                (ground (arith, good, skipped))
                (pick_from_shard-Found db now_ms now_clock only_volatile m))
        | inr kept ↦ rw (good, kept) (0, e, refl, ground (arith, kept), refl, refl)
      ]
    ]
