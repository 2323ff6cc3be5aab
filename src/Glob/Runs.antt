-- ===== src/Glob/Runs.antt =====
-- `matchAt` decides whether a run fits the front of a text, and takes the same number of bytes
-- wherever it fits.
use pebbis.Prelude.{
  ℕ, ◌+◌, ◌≡◌, refl, sym, ◌↔◌, arith, Bool, true, false, some, [], ◌∷◌, if◌then◌else◌, length,
  Option-cases, inl, inr, ◌||◌,
}
use mathlib.Core.Path.{subst}
use native.Mathlib.Decide.{ℕ_discrete}
use pebbis.Prelude.Bytes.{Bytes}
use pebbis.Glob.{backslash, class_loop, match_class, tail, step, match_at, in_range, negated}
use pebbis.Glob.Spec.{Takes, any_byte, in_class, escaped, literal, Run, done, byte}

-- Where a class ends does not depend on the byte that is looked for.
class_loop_end :
    (seg : Bytes) (c d : ℕ) (m n : Bool) → (class_loop seg c m).1 ≡ (class_loop seg d n).1
unfolding class_loop
class_loop_end [] c d m n = refl
class_loop_end (x ∷ []) c d m n = ground arith
class_loop_end (x ∷ y ∷ []) c d m n = ground arith
class_loop_end (x ∷ y ∷ z ∷ []) c d m n = ground arith
class_loop_end (x ∷ y ∷ z ∷ w ∷ seg) c d m n = ground (
  arith,
  class_loop_end seg c d (m || in_range y w c) (n || in_range y w d),
  class_loop_end (z ∷ w ∷ seg) c d (m || in_range y y c) (n || in_range y y d),
  class_loop_end (w ∷ seg) c d (m || in_range x z c) (n || in_range x z d),
  class_loop_end (y ∷ z ∷ w ∷ seg) c d (m || in_range x x c) (n || in_range x x d),
)

match_class_end : (seg : Bytes) (c d : ℕ) → (match_class seg c).1 ≡ (match_class seg d).1
unfolding match_class
match_class_end seg c d = class_loop_end (if negated seg then tail seg else seg) c d false false

-- So what a run leaves of itself does not depend on the byte that it takes.
step_same :
    (q : ℕ) (p : Bytes) (c d : ℕ) (a b : Bytes) → step q p c ≡ some a → step q p d ≡ some b → a ≡ b
unfolding step
step_same q [] c d a b h k = ground (arith, match_class_end [] c d)
step_same q (x ∷ p) c d a b h k = ground (arith, match_class_end (x ∷ p) c d)

step-escape :
    (q : ℕ) (p : Bytes) (c : ℕ) (a : Bytes) → q ≡ backslash → step q p c ≡ some a → p ≡ c ∷ a
unfolding step
step-escape q [] c a e h = ground arith
step-escape q (x ∷ p) c a e h = ground arith

step→Takes : (q : ℕ) (p : Bytes) (c : ℕ) (a : Bytes) → step q p c ≡ some a → Takes (q ∷ p) c a
step→Takes q p c a h = elim (ℕ_discrete q b'?') [
  | yes e ↦
      let left : p ≡ a = unfold step in (ground arith) in
      subst (λ t. Takes (q ∷ p) c t) left (any_byte e)
  | no n ↦ elim (ℕ_discrete q b'[') [
    | yes e ↦
        let found : (match_class p c).0 ≡ true = unfold step in (ground arith) in
        let left : tail (match_class p c).1 ≡ a = unfold step in (ground arith) in
        subst (λ t. Takes (q ∷ p) c t) left (in_class e found)
    | no n' ↦ elim (ℕ_discrete q backslash) [
      | yes e ↦ subst (λ t. Takes (q ∷ t) c a) (sym (step-escape q p c a e h)) (escaped e)
      | no n'' ↦
          let same : q ≡ c = unfold step in (ground arith) in
          let left : p ≡ a = unfold step in (ground arith) in
          subst (λ t. Takes (q ∷ p) c t) left
            (subst (λ t. Takes (q ∷ p) t p) same (literal n n' n''))
    ]
  ]
]

Takes→step : {q : ℕ} {p : Bytes} {c : ℕ} {a : Bytes} → Takes (q ∷ p) c a → step q p c ≡ some a
unfolding step
Takes→step (any_byte e) = ground arith
Takes→step (in_class e h) = ground arith
Takes→step (escaped e) = ground arith
Takes→step (literal a b c) = ground arith

match_at→Run : (p s r : Bytes) → match_at p s ≡ some r → Run p s r
unfolding match_at
match_at→Run [] s r h = let left : s ≡ r = ground arith in subst (λ t. Run [] s t) left done
match_at→Run (q ∷ p) [] r h = cc
match_at→Run (q ∷ p) (c ∷ s) r h = elim (Option-cases (step q p c)) [
  | inl e ↦ absurd (ground arith)
  | inr (p', e) ↦ byte (step→Takes q p c p' e) (match_at→Run p' s r (ground arith))
]

Run→match_at : {p s r : Bytes} → Run p s r → match_at p s ≡ some r
unfolding match_at
Run→match_at done = refl
Run→match_at (byte {p = []} t d) = elim t [ ]
Run→match_at (byte {p = q ∷ p} {c = c} t d) = rw (match_at, Takes→step t) (Run→match_at d)

-- A run fits the front of a text exactly if `matchAt` says so, and leaves what it says.
pub match_at_iff : (p s r : Bytes) → (match_at p s ≡ some r) ↔ Run p s r
match_at_iff p s r = (match_at→Run p s r, Run→match_at)

-- Wherever a run fits, it takes equally many bytes.
pub match_at_taken :
    (p s s' r r' : Bytes)
    → match_at p s ≡ some r
    → match_at p s' ≡ some r'
    → length s + length r' ≡ length s' + length r
unfolding match_at
match_at_taken [] s s' r r' h h' = ground arith
match_at_taken (q ∷ p) [] s' r r' h h' = cc
match_at_taken (q ∷ p) (c ∷ s) [] r r' h h' = cc
match_at_taken (q ∷ p) (c ∷ s) (d ∷ s') r r' h h' = elim (Option-cases (step q p c)) [
  | inl e ↦ absurd (ground arith)
  | inr (a, e) ↦ elim (Option-cases (step q p d)) [
    | inl e' ↦ absurd (ground arith)
    | inr (b, e') ↦
        let same : a ≡ b = step_same q p c d a b e e' in
        omega (arith, match_at_taken a s s' r r' (ground arith) (ground arith))
  ]
]
