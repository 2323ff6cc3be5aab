-- ===== src/Glob/Split.antt =====
-- `splitPattern`: what the runs of a pattern are.
use pebbis.Prelude.{
  ℕ, ◌≡◌, refl, sym, ◌∙◌, arith, true, false, List, [], ◌∷◌, ◌++◌, append-nil, append_assoc, ap,
  Bool-cases, inl, inr, if◌then◌else◌, ◌==◌,
}
use pebbis.Prelude.Bytes.{Bytes}
use pebbis.Glob.{split_loop, split_pattern, star, contains_star}

unfoldable pub push : Bytes → List Bytes → List Bytes
push cur [] = cur ∷ []
push cur (s ∷ segs) = (cur ++ s) ∷ segs

-- The runs, from the last to the first.
unfoldable pub runs : Bytes → List Bytes
unfolding push
runs [] = [] ∷ []
runs (c ∷ p) = let rest = runs p in if c == star then [] ∷ rest else push (c ∷ []) rest

-- The runs with the stars between them.
pub join : List Bytes → Bytes
join [] = []
join (s ∷ []) = s
join (s ∷ t ∷ segs) = s ++ star ∷ join (t ∷ segs)

pub runs-cons : (p : Bytes) → (s : Bytes) × (segs : List Bytes) × (runs p ≡ s ∷ segs)
unfolding runs push
runs-cons [] = ([], [], refl)
runs-cons (c ∷ p) =
    let (s, segs, e) = runs-cons p in
    elim (Bool-cases (c == star)) [
      | inl h ↦ ([], s ∷ segs, rw (h, e))
      | inr h ↦ (c ∷ s, segs, rw (h, e))
    ]

push-push : (a b : Bytes) (segs : List Bytes) → push a (push b segs) ≡ push (a ++ b) segs
unfolding push
push-push a b [] = refl
push-push a b (s ∷ segs) = ap (λ t. t ∷ segs) (sym (append_assoc a b s))

split_loop-runs :
    (cur : Bytes) (out : List Bytes) (p : Bytes) → split_loop cur out p ≡ out ++ push cur (runs p)
unfolding split_loop runs push
split_loop-runs cur out [] = ap (λ t. out ++ t ∷ []) (sym (append-nil cur))
split_loop-runs cur out (c ∷ p) =
    let (s, segs, e) = runs-cons p in
    elim (Bool-cases (c == star)) [
      | inl h ↦ rw h (
          split_loop-runs [] (out ++ cur ∷ []) p
          ∙ rw e (
              append_assoc out (cur ∷ []) (s ∷ segs)
              ∙ ap (λ t. out ++ t ∷ s ∷ segs) (sym (append-nil cur))))
      | inr h ↦ rw h (
          split_loop-runs (cur ++ c ∷ []) out p
          ∙ ap (λ t. out ++ t) (sym (push-push cur (c ∷ []) (runs p))))
    ]

-- Splitting a pattern gives its runs.
pub split_pattern-runs : (p : Bytes) → split_pattern p ≡ runs p
unfolding split_pattern push
split_pattern-runs p = let (s, segs, e) = runs-cons p in split_loop-runs [] [] p ∙ rw e

push-join :
    (c : ℕ) (segs : List Bytes) (s : Bytes) → join (push (c ∷ []) (s ∷ segs)) ≡ c ∷ join (s ∷ segs)
unfolding join push
push-join c [] s = refl
push-join c (t ∷ segs) s = refl

join-runs : (p : Bytes) → join (runs p) ≡ p
unfolding runs join
join-runs [] = refl
join-runs (c ∷ p) =
    let (s, segs, e) = runs-cons p in
    let ih = rw e at (join-runs p) in
    elim (Bool-cases (c == star)) [
      | inl h ↦ rw (h, e) (ground (arith, ih))
      | inr h ↦ rw (h, e) (push-join c segs s ∙ ap (◌∷◌ c) ih)
    ]

abbrev pub NoStars : List Bytes → Type 0
NoStars [] = Unit
NoStars (s ∷ segs) = (contains_star s ≡ false) × NoStars segs

NoStars-push :
    (c : ℕ) (s : Bytes) (segs : List Bytes)
    → (c == star) ≡ false
    → NoStars (s ∷ segs)
    → NoStars (push (c ∷ []) (s ∷ segs))
unfolding push contains_star
NoStars-push c s segs h n = (rw h n.0, n.1)

NoStars-runs : (p : Bytes) → NoStars (runs p)
unfolding runs contains_star
NoStars-runs [] = (refl, tt)
NoStars-runs (c ∷ p) =
    let (s, segs, e) = runs-cons p in
    let ih = rw e at (NoStars-runs p) in
    elim (Bool-cases (c == star)) [
      | inl h ↦ rw (h, e) (refl, ih)
      | inr h ↦ rw (h, e) (NoStars-push c s segs h ih)
    ]

-- The runs hold no star, and with a star between each two they are the pattern again.
pub split_pattern-join : (p : Bytes) → (join (split_pattern p) ≡ p) × NoStars (split_pattern p)
split_pattern-join p = rw (split_pattern-runs p) (join-runs p, NoStars-runs p)

pub runs_no_star : (p : Bytes) → contains_star p ≡ false → runs p ≡ p ∷ []
unfolding runs push contains_star
runs_no_star [] h = refl
runs_no_star (c ∷ p) h = ground (arith, runs_no_star p)

pub runs_star :
    (p : Bytes)
    → contains_star p ≡ true
    → (s : Bytes) × (t : Bytes) × (segs : List Bytes) × (runs p ≡ s ∷ t ∷ segs)
unfolding runs push contains_star
runs_star [] h = cc
runs_star (c ∷ p) h = elim (Bool-cases (c == star)) [
  | inl e ↦ let (s, segs, r) = runs-cons p in ([], s, segs, rw (e, r))
  | inr e ↦ let (s, t, segs, r) = runs_star p (ground arith) in (c ∷ s, t, segs, rw (e, r))
]
