-- ===== src/Glob/Greedy.antt =====
-- The inner loop of `match`: the earliest place of a run is as good as any.
use pebbis.Prelude.{
  ℕ, ◌≤◌, ◌≡◌, refl, ◌∙◌, ◌↔◌, arith, Bool, true, false, not, Option, none, some, List, [], ◌∷◌,
  length, Option-cases, inl, inr, Bool-cases, if◌then◌else◌,
}
use pebbis.Prelude.Bytes.{Bytes}
use pebbis.Glob.{match_at, find_run, matches_whole, is_empty}
use pebbis.Glob.Runs.{match_at_iff, match_at_taken}
use pebbis.Glob.Spec.{Run, done, byte, Fits, Star, here, skip}

-- `a` is a rest of `s`.
pub data Suffix : Bytes → Bytes → Type 0 where
  same : {s : Bytes} → Suffix s s
  more : {a s : Bytes} {c : ℕ} → Suffix a s → Suffix a (c ∷ s)

Suffix-length : {a s : Bytes} → Suffix a s → length a ≤ length s
Suffix-length same = omega arith
Suffix-length (more d) = omega (arith, Suffix-length d)

-- Of two rests of one text, the shorter is a rest of the longer.
Suffix-compare : {a b s : Bytes} → Suffix a s → Suffix b s → length a ≤ length b → Suffix a b
Suffix-compare same same h = same
Suffix-compare same (more d) h = absurd (omega (arith, Suffix-length d))
Suffix-compare (more d) same h = more d
Suffix-compare (more d) (more e) h = Suffix-compare d e h

Suffix-trans : {a b c : Bytes} → Suffix a b → Suffix b c → Suffix a c
Suffix-trans d same = d
Suffix-trans d (more e) = more (Suffix-trans d e)

Run-Suffix : {p s r : Bytes} → Run p s r → Suffix r s
Run-Suffix done = same
Run-Suffix (byte t d) = more (Run-Suffix d)

match_at-Suffix : (p s r : Bytes) → match_at p s ≡ some r → Suffix r s
match_at-Suffix p s r h = Run-Suffix ((match_at_iff p s r).0 h)

-- A star takes more bytes if it has to.
pub Star-Suffix : {segs : List Bytes} {a s : Bytes} → Suffix a s → Star segs a → Star segs s
Star-Suffix same d = d
Star-Suffix (more e) d = skip (Star-Suffix e d)

pub Star-inv :
    {segs : List Bytes} {s : Bytes} → Star segs s → (a : Bytes) × Suffix a s × Fits segs a
Star-inv {s} (here d) = (s, same, d)
Star-inv (skip d) = let (a, e, f) = Star-inv d in (a, more e, f)

-- What an unanchored search finds is a place of the run.
pub find_run_place :
    (seg s r : Bytes)
    → find_run false seg s ≡ some r
    → (a : Bytes) × Suffix a s × (match_at seg a ≡ some r)
unfolding find_run
find_run_place seg [] r h = elim (Option-cases (match_at seg [])) [
  | inl e ↦ absurd (ground arith)
  | inr (b, e) ↦ ([], same, ground arith)
]
find_run_place seg (c ∷ s) r h = elim (Option-cases (match_at seg (c ∷ s))) [
  | inl e ↦ let (a, d, m) = find_run_place seg s r (ground arith) in (a, more d, m)
  | inr (b, e) ↦ (c ∷ s, same, ground arith)
]

find_run_here : (seg s b : Bytes) → match_at seg s ≡ some b → find_run false seg s ≡ some b
unfolding find_run
find_run_here seg [] b h = ground arith
find_run_here seg (c ∷ s) b h = ground arith

find_run_skip :
    (anchored : Bool) (seg : Bytes) (c : ℕ) (s : Bytes)
    → match_at seg (c ∷ s) ≡ none
    → find_run anchored seg (c ∷ s) ≡ find_run anchored seg s
unfolding find_run
find_run_skip anchored seg c s h = ground arith

-- It finds the earliest: wherever else the run fits, it leaves a rest of what is left here.
pub find_run_earliest :
    (seg : Bytes) {a s : Bytes} (b : Bytes)
    → Suffix a s
    → match_at seg a ≡ some b
    → (r : Bytes) × (find_run false seg s ≡ some r) × Suffix b r
find_run_earliest seg {a} b same h = (b, find_run_here seg a b h, same)
find_run_earliest seg {a} b (more {s = s} {c = c} d) h =
    elim (Option-cases (match_at seg (c ∷ s))) [
      | inl e ↦
          let (r, f, g) = find_run_earliest seg b d h in (r, find_run_skip false seg c s e ∙ f, g)
      | inr (r, e) ↦
          let taken = match_at_taken seg (c ∷ s) a r b e h in
          (
            r,
            find_run_here seg (c ∷ s) r e,
            Suffix-compare (Suffix-trans (match_at-Suffix seg a b h) (more d))
                (match_at-Suffix seg (c ∷ s) r e) (omega (arith, taken, Suffix-length d)),
          )
    ]

find_run_end :
    (seg : Bytes)
    → find_run true seg [] ≡ (if matches_whole (match_at seg []) then some [] else none)
unfolding find_run matches_whole
find_run_end seg = go (match_at seg [])
  where
    go :
        (o : Option Bytes)
        → ◌≡◌ {A = Option Bytes}
            (elim o [ none ↦ none | some rest ↦ if not (is_empty rest) then none else some rest ])
            (if matches_whole o then some [] else none)
    go none = refl
    go (some []) = refl
    go (some (x ∷ b)) = refl

find_run_step :
    (seg : Bytes) (c : ℕ) (s : Bytes)
    → find_run true seg (c ∷ s)
      ≡ (if matches_whole (match_at seg (c ∷ s)) then some [] else find_run true seg s)
unfolding find_run matches_whole
find_run_step seg c s = go (match_at seg (c ∷ s)) (find_run true seg s)
  where
    go :
        (o later : Option Bytes)
        → ◌≡◌ {A = Option Bytes}
            (elim o [ none ↦ later | some rest ↦ if not (is_empty rest) then later else some rest ])
            (if matches_whole o then some [] else later)
    go none later = refl
    go (some []) later = refl
    go (some (x ∷ b)) later = refl

pub matches_whole_iff : (o : Option Bytes) → (matches_whole o ≡ true) ↔ (o ≡ some [])
unfolding matches_whole
matches_whole_iff none = ground arith
matches_whole_iff (some []) = ground arith
matches_whole_iff (some (x ∷ b)) = ground arith

-- The anchored search succeeds exactly if the run reaches the end of the text from some place.
pub find_run_anchored :
    (seg s r : Bytes)
    → find_run true seg s ≡ some r
    → (a : Bytes) × Suffix a s × (match_at seg a ≡ some [])
find_run_anchored seg [] r h = elim (Bool-cases (matches_whole (match_at seg []))) [
  | inl e ↦ ([], same, (matches_whole_iff (match_at seg [])).0 e)
  | inr n ↦ absurd (ground (arith, find_run_end seg))
]
find_run_anchored seg (c ∷ s) r h = elim (Bool-cases (matches_whole (match_at seg (c ∷ s)))) [
  | inl e ↦ (c ∷ s, same, (matches_whole_iff (match_at seg (c ∷ s))).0 e)
  | inr n ↦
      let (a, d, m) = find_run_anchored seg s r (ground (arith, find_run_step seg c s)) in
      (a, more d, m)
]

find_run_anchored_here : (seg s : Bytes) → match_at seg s ≡ some [] → find_run true seg s ≡ some []
find_run_anchored_here seg [] h = rw (find_run_end seg, (matches_whole_iff (match_at seg [])).1 h)
find_run_anchored_here seg (c ∷ s) h =
    rw (find_run_step seg c s, (matches_whole_iff (match_at seg (c ∷ s))).1 h)

pub find_run_anchored_complete :
    (seg : Bytes) {a s : Bytes}
    → Suffix a s
    → match_at seg a ≡ some []
    → find_run true seg s ≡ some []
find_run_anchored_complete seg {a} same h = find_run_anchored_here seg a h
find_run_anchored_complete seg (more {s = s} {c = c} d) h =
    ground (arith, find_run_step seg c s, find_run_anchored_complete seg d h)
