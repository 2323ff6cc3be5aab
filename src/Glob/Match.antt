-- ===== src/Glob/Match.antt =====
-- `match` against the meaning of a pattern.
use pebbis.Prelude.{
  ℕ, ◌≤◌, ◌≡◌, refl, ◌∙◌, ◌↔◌, arith, Bool, true, false, not, some, List, [], ◌∷◌, Bool-cases, inl,
  inr, ltb, ◌==◌,
}
use pebbis.Prelude.Bytes.{Bytes}
use pebbis.Glob.{
  match_at, match_split, match, matches_whole, split_pattern, count_stars, contains_star,
  last_is_star, star, max_star_count, backslash, step,
}
use pebbis.Glob.Runs.{match_at_iff}
use pebbis.Glob.Greedy.{matches_whole_iff}
use pebbis.Glob.Split.{runs, push, runs-cons, runs_no_star, runs_star, split_pattern-runs}
use pebbis.Glob.Segs.{Anchors, match_split_anchored, match_split_star, Fits-last, Fits-then}
use pebbis.Glob.Spec.{Fits, last}

Anchors-head :
    (ea : Bool) (c d : ℕ) (s : Bytes) (segs : List Bytes)
    → Anchors ea ((d ∷ s) ∷ segs)
    → Anchors ea ((c ∷ d ∷ s) ∷ segs)
Anchors-head ea c d s [] h = h
Anchors-head ea c d s (t ∷ segs) h = h

-- The last run is empty exactly if the pattern ends in a star.
Anchors-runs : (c : ℕ) (p : Bytes) → Anchors (not (last_is_star (c ∷ p))) (runs (c ∷ p))
unfolding runs push
Anchors-runs c [] = elim (Bool-cases (c == star)) [ inl h ↦ rw h refl | inr h ↦ rw h refl ]
Anchors-runs c (d ∷ p) =
    let (s, segs, e) = runs-cons p in
    let ih = Anchors-runs d p in
    let ea : Bool = not (last_is_star (d ∷ p)) in
    elim (Bool-cases (d == star)) [
      | inl h ↦
          let ih' : Anchors ea (s ∷ segs) = rw (h, e) at ih in
          elim (Bool-cases (c == star)) [ inl k ↦ rw (k, h, e) ih' | inr k ↦ rw (k, h, e) ih' ]
      | inr h ↦
          let ih' : Anchors ea ((d ∷ s) ∷ segs) = rw (h, e) at ih in
          elim (Bool-cases (c == star)) [
            | inl k ↦ rw (k, h, e) ih'
            | inr k ↦ rw (k, h, e) (Anchors-head ea c d s segs ih')
          ]
    ]

first_run_empty :
    (c : ℕ) (p s t : Bytes) (segs : List Bytes)
    → (c == star) ≡ true
    → runs (c ∷ p) ≡ s ∷ t ∷ segs
    → s ≡ []
unfolding runs
first_run_empty c p s t segs h e = ground arith

-- A pattern with a star: its first run is empty exactly if the star comes first.
match_split_iff :
    (c : ℕ) (p str : Bytes)
    → contains_star (c ∷ p) ≡ true
    → (match_split (not (c == star)) (not (last_is_star (c ∷ p))) (runs (c ∷ p)) str ≡ true)
      ↔ Fits (runs (c ∷ p)) str
match_split_iff c p str h =
    let (s, t, segs, e) = runs_star (c ∷ p) h in
    let a = Anchors-runs c p in
    let ea : Bool = not (last_is_star (c ∷ p)) in
    let a' : Anchors ea (t ∷ segs) = rw e at a in
    elim (Bool-cases (c == star)) [
      | inr k ↦ rw (k, e) (match_split_anchored ea s t str segs a')
      | inl k ↦
          let first : s ≡ [] = first_run_empty c p s t segs k e in
          rw (k, e, first) (match_split_star ea t str segs a')
    ]

whole_iff : (p str : Bytes) → (matches_whole (match_at p str) ≡ true) ↔ Fits (p ∷ []) str
whole_iff p str = (
  λ m. last ((match_at_iff p str []).0 ((matches_whole_iff (match_at p str)).0 m)),
  λ f. (matches_whole_iff (match_at p str)).1 ((match_at_iff p str []).1 (Fits-last f)),
)

match_empty : (str : Bytes) → match [] str ≡ matches_whole (match_at [] str)
unfolding match
match_empty str = refl

match_starred :
    (c : ℕ) (p str : Bytes)
    → ltb max_star_count (count_stars (c ∷ p)) ≡ false
    → contains_star (c ∷ p) ≡ true
    → match (c ∷ p) str
      ≡ match_split (not (c == star)) (not (last_is_star (c ∷ p))) (split_pattern (c ∷ p)) str
unfolding match
match_starred c p str few h = ground arith

-- For every pattern and text, `match` answers true exactly if the pattern has at most 100 stars and
-- the text consists of its runs in order, with any bytes at the stars and none elsewhere: a run in
-- front of the first star stands at the front, one behind the last star at the end.
pub match_iff :
    (pattern str : Bytes)
    → (match pattern str ≡ true)
      ↔ ((count_stars pattern ≤ max_star_count) × Fits (split_pattern pattern) str)
match_iff [] str =
    let w = whole_iff [] str in
    rw (split_pattern-runs [], runs_no_star [] (unfold match in refl))
      (
        λ m. (unfold match in (omega arith), w.0 (rw (match_empty str) at m)),
        λ f. match_empty str ∙ w.1 f.1,
      )
match_iff (c ∷ p) str =
    rw (split_pattern-runs (c ∷ p)) (elim (Bool-cases (ltb max_star_count (count_stars (c ∷ p)))) [
      | inl many ↦ (λ m. absurd (unfold match in (ground arith)), λ f. absurd (ground arith))
      | inr few ↦ elim (Bool-cases (contains_star (c ∷ p))) [
        | inr none_there ↦
            let w = whole_iff (c ∷ p) str in
            rw (runs_no_star (c ∷ p) none_there) (
              λ m. (ground arith, w.0 (unfold match in (ground arith))),
              λ f. unfold match in (ground (arith, w.1 f.1)),
            )
        | inl some_there ↦
            let w = match_split_iff c p str some_there in
            (
              λ m. (
                ground arith,
                w.0 (rw (← split_pattern-runs (c ∷ p)) (unfold match in (ground arith))),
              ),
              λ f. match_starred c p str few some_there ∙ rw (split_pattern-runs (c ∷ p)) (w.1 f.1),
            )
      ]
    ])

lone_backslash : (str r : Bytes) → ¬ (match_at (backslash ∷ []) str ≡ some r)
unfolding match_at step
lone_backslash [] r h = cc
lone_backslash (c ∷ str) r h = cc

-- A pattern that begins with an escaped star matches no text at all, not even the star: the pattern
-- is split at every star before escapes are read.
pub match_escaped_star : (p str : Bytes) → match (backslash ∷ star ∷ p) str ≡ false
match_escaped_star p str = elim (Bool-cases (match (backslash ∷ star ∷ p) str)) [
  | inr h ↦ h
  | inl h ↦
      let (s, segs, e) = runs-cons p in
      let f = ((match_iff (backslash ∷ star ∷ p) str).0 h).1 in
      let split : split_pattern (backslash ∷ star ∷ p) ≡ (backslash ∷ []) ∷ s ∷ segs =
        split_pattern-runs (backslash ∷ star ∷ p) ∙ unfold runs in rw e in
      let (r, run, _) = Fits-then (rw split at f) in
      absurd (lone_backslash str r ((match_at_iff (backslash ∷ []) str r).1 run))
]
