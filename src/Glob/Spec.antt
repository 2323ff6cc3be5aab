-- ===== src/Glob/Spec.antt =====
-- What it means for a text to match a pattern, with no order of search in it.
use pebbis.Prelude.{ℕ, ◌≡◌, ◌≢◌, true, List, [], ◌∷◌}
use pebbis.Prelude.Bytes.{Bytes}
use pebbis.Glob.{backslash, match_class, tail}

-- The first item of a run takes the byte `c` and leaves the rest of the run. The bytes of a class
-- are those that `match_class` finds in it.
pub data Takes : Bytes → ℕ → Bytes → Type 0 where
  any_byte : {p : Bytes} {q c : ℕ} → q ≡ b'?' → Takes (q ∷ p) c p
  in_class :
      {p : Bytes} {q c : ℕ}
      → q ≡ b'['
      → (match_class p c).0 ≡ true
      → Takes (q ∷ p) c (tail (match_class p c).1)
  escaped : {p : Bytes} {q c : ℕ} → q ≡ backslash → Takes (q ∷ c ∷ p) c p
  literal : {p : Bytes} {c : ℕ} → c ≢ b'?' → c ≢ b'[' → c ≢ backslash → Takes (c ∷ p) c p

-- A run takes the front of a text and leaves the rest.
pub data Run : Bytes → Bytes → Bytes → Type 0 where
  done : {s : Bytes} → Run [] s s
  byte : {p p' s rest : Bytes} {c : ℕ} → Takes p c p' → Run p' s rest → Run p (c ∷ s) rest

-- The runs between the stars, in order: the first at the front of the text, the last at its end,
-- and between two of them any bytes.
mutual
  pub data Fits : List Bytes → Bytes → Type 0 where
    last : {seg s : Bytes} → Run seg s [] → Fits (seg ∷ []) s
    then_star :
        {seg s rest : Bytes} {segs : List Bytes}
        → Run seg s rest
        → Star segs rest
        → Fits (seg ∷ segs) s

  pub data Star : List Bytes → Bytes → Type 0 where
    here : {segs : List Bytes} {s : Bytes} → Fits segs s → Star segs s
    skip : {segs : List Bytes} {s : Bytes} {c : ℕ} → Star segs s → Star segs (c ∷ s)
