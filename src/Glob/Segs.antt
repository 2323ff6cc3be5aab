-- ===== src/Glob/Segs.antt =====
-- `match`: the outer loop, and the whole function against the meaning of a pattern.
use pebbis.Prelude.{
  ◌≡◌, refl, ◌↔◌, arith, Bool, true, false, not, List, [], ◌∷◌, Option-cases, inl, inr,
}
use pebbis.Prelude.Bytes.{Bytes}
use pebbis.Glob.{match_at, find_run, match_segs, match_split, is_empty}
use pebbis.Glob.Runs.{match_at_iff}
use pebbis.Glob.Greedy.{
  same, Star-Suffix, Star-inv, find_run_place, find_run_earliest, find_run_anchored,
  find_run_anchored_complete,
}
use pebbis.Glob.Spec.{Run, done, byte, Fits, last, then_star, Star, here, skip}

-- The last run is anchored unless it is empty.
abbrev pub Anchors : Bool → List Bytes → Type 0
Anchors end_anchored [] = Unit
Anchors end_anchored (seg ∷ []) = end_anchored ≡ not (is_empty seg)
Anchors end_anchored (seg ∷ seg' ∷ segs) = Anchors end_anchored (seg' ∷ segs)

Star-to_end : (s : Bytes) → Star ([] ∷ []) s
Star-to_end [] = here (last done)
Star-to_end (c ∷ s) = skip (Star-to_end s)

Star-empty :
    {seg : Bytes} {segs : List Bytes} {s : Bytes} → Star ([] ∷ seg ∷ segs) s → Star (seg ∷ segs) s
Star-empty (here (then_star done d)) = d
Star-empty (here (then_star (byte t d) e)) = elim t [ ]
Star-empty (skip d) = skip (Star-empty d)

match_segs-Star :
    (end_anchored : Bool) (segs : List Bytes) (seg s : Bytes)
    → Anchors end_anchored (seg ∷ segs)
    → match_segs end_anchored (seg ∷ segs) s ≡ true
    → Star (seg ∷ segs) s
unfolding match_segs
match_segs-Star ea [] [] s h m = Star-to_end s
match_segs-Star ea [] (c ∷ seg) s h m = elim (Option-cases (find_run true (c ∷ seg) s)) [
  | inl e ↦ absurd (ground arith)
  | inr (r, e) ↦
      let (a, d, f) = find_run_anchored (c ∷ seg) s r e in
      Star-Suffix d (here (last ((match_at_iff (c ∷ seg) a []).0 f)))
]
match_segs-Star ea (next ∷ segs) [] s h m =
    Star-Suffix same (here (then_star done (match_segs-Star ea segs next s h m)))
match_segs-Star ea (next ∷ segs) (c ∷ seg) s h m =
    elim (Option-cases (find_run false (c ∷ seg) s)) [
      | inl e ↦ absurd (ground arith)
      | inr (r, e) ↦
          let (a, d, f) = find_run_place (c ∷ seg) s r e in
          Star-Suffix d (
            here (
              then_star ((match_at_iff (c ∷ seg) a r).0 f)
                (match_segs-Star ea segs next r h (ground arith))))
    ]

Star-nil : {s : Bytes} → ¬ Star [] s
Star-nil (here d) = elim d [ ]
Star-nil (skip d) = Star-nil d

pub Fits-last : {seg s : Bytes} → Fits (seg ∷ []) s → Run seg s []
Fits-last (last d) = d
Fits-last (then_star d e) = absurd (Star-nil e)

pub Fits-then :
    {seg next s : Bytes} {segs : List Bytes}
    → Fits (seg ∷ next ∷ segs) s
    → (r : Bytes) × Run seg s r × Star (next ∷ segs) r
Fits-then (then_star {rest = r} d e) = (r, d, e)

Star-match_segs :
    (end_anchored : Bool) (segs : List Bytes) (seg s : Bytes)
    → Anchors end_anchored (seg ∷ segs)
    → Star (seg ∷ segs) s
    → match_segs end_anchored (seg ∷ segs) s ≡ true
unfolding match_segs
Star-match_segs ea [] [] s h d = refl
Star-match_segs ea [] (c ∷ seg) s h d =
    let (a, e, f) = Star-inv d in
    let found =
      find_run_anchored_complete (c ∷ seg) e ((match_at_iff (c ∷ seg) a []).1 (Fits-last f)) in
    ground (arith, found)
Star-match_segs ea (next ∷ segs) [] s h d = Star-match_segs ea segs next s h (Star-empty d)
Star-match_segs ea (next ∷ segs) (c ∷ seg) s h d =
    let (a, e, f) = Star-inv d in
    let (r, run, tail) = Fits-then f in
    let (r', found, later) = find_run_earliest (c ∷ seg) r e ((match_at_iff (c ∷ seg) a r).1 run) in
    ground (arith, found, Star-match_segs ea segs next r' h (Star-Suffix later tail))

match_segs_iff :
    (end_anchored : Bool) (segs : List Bytes) (seg s : Bytes)
    → Anchors end_anchored (seg ∷ segs)
    → (match_segs end_anchored (seg ∷ segs) s ≡ true) ↔ Star (seg ∷ segs) s
match_segs_iff ea segs seg s h = (match_segs-Star ea segs seg s h, Star-match_segs ea segs seg s h)

-- From the second run on, behind an anchored first one.
pub match_split_anchored :
    (end_anchored : Bool) (seg next s : Bytes) (segs : List Bytes)
    → Anchors end_anchored (next ∷ segs)
    → (match_split true end_anchored (seg ∷ next ∷ segs) s ≡ true) ↔ Fits (seg ∷ next ∷ segs) s
match_split_anchored ea seg next s segs h = (to, from)
  where
    to : match_split true ea (seg ∷ next ∷ segs) s ≡ true → Fits (seg ∷ next ∷ segs) s
    to m = elim (Option-cases (match_at seg s)) [
      | inl e ↦ absurd (unfold match_split in (ground arith))
      | inr (r, e) ↦
          then_star ((match_at_iff seg s r).0 e)
            (match_segs-Star ea segs next r h (unfold match_split in (ground arith)))
    ]

    from : Fits (seg ∷ next ∷ segs) s → match_split true ea (seg ∷ next ∷ segs) s ≡ true
    from f =
        let (r, run, tail) = Fits-then f in
        let e = (match_at_iff seg s r).1 run in
        let m = Star-match_segs ea segs next r h tail in unfold match_split in (ground arith)

-- The empty first run in front of a leading star.
pub match_split_star :
    (end_anchored : Bool) (next s : Bytes) (segs : List Bytes)
    → Anchors end_anchored (next ∷ segs)
    → (match_split false end_anchored ([] ∷ next ∷ segs) s ≡ true) ↔ Fits ([] ∷ next ∷ segs) s
unfolding match_split match_segs
match_split_star ea next s segs h = (
  λ m. then_star done (match_segs-Star ea segs next s h m),
  λ f. Star-match_segs ea segs next s h (Star-empty (here f)),
)
