-- ===== src/Prelude/Bytes.antt =====
-- Byte strings as lists of numbers: comparison, big-endian words and slices.
use pebbis.Prelude.{
  ℕ, zero, suc, ◌+◌, ◌*◌, ◌/◌, ◌%◌, ◌^◌, ◌<◌, ◌≡◌, refl, ap, ◌∙◌, ◌↔◌, Bool, true, false, ◌&&◌,
  List, [], ◌∷◌, ◌++◌, arith, ltb, ◌==◌, if◌then◌else◌, length, take, drop, append_assoc,
}
use Prim.Native.Char.{code}
use Prim.Native.String.{String}
use native.Mathlib.Nat.{pow-suc, pow-zero}

abbrev pub Bytes : Type 0
Bytes = List ℕ

-- The bytes of an ASCII text.
abbrev pub codes : String → Bytes
codes String.[] = []
codes (String.◌∷◌ c s) = code c ∷ codes s

-- `a == b` on strings.
unfoldable pub bytes_eq : Bytes → Bytes → Bool
bytes_eq [] [] = true
bytes_eq (x ∷ xs) (y ∷ ys) = x == y && bytes_eq xs ys
bytes_eq _ _ = false

pub bytes_eq_iff : (xs ys : Bytes) → (bytes_eq xs ys ≡ true) ↔ (xs ≡ ys)
unfolding bytes_eq
bytes_eq_iff [] [] = ground arith
bytes_eq_iff [] (y ∷ ys) = ground arith
bytes_eq_iff (x ∷ xs) [] = ground arith
bytes_eq_iff (x ∷ xs) (y ∷ ys) = ground (arith, bytes_eq_iff xs ys)

-- `bytes.Compare(a, b) < 0`, the order of keys in the engine.
abbrev pub bytes_lt : Bytes → Bytes → Bool
bytes_lt [] [] = false
bytes_lt [] (y ∷ ys) = true
bytes_lt (x ∷ xs) [] = false
bytes_lt (x ∷ xs) (y ∷ ys) = if ltb x y then true else if ltb y x then false else bytes_lt xs ys

-- The `n` low bytes of `v`, the highest first, in front of `rest`.
abbrev pub be_before : ℕ → ℕ → Bytes → Bytes
be_before zero v rest = rest
be_before (suc n) v rest = be_before n (v / 256) ((v % 256) ∷ rest)

-- `binary.BigEndian.AppendUint16`, `AppendUint32` and `AppendUint64` at 2, 4 and 8 bytes.
unfoldable pub append_be : ℕ → Bytes → ℕ → Bytes
append_be n dst v = dst ++ be_before n v []

-- `binary.BigEndian.Uint16`, `Uint32` and `Uint64` of a slice of that many bytes.
abbrev pub be_from : ℕ → Bytes → ℕ
be_from acc [] = acc
be_from acc (b ∷ bs) = be_from (acc * 256 + b) bs

unfoldable pub be_value : Bytes → ℕ
be_value = be_from 0

pub be_before-append :
    (n v : ℕ) (rest more : Bytes) → be_before n v rest ++ more ≡ be_before n v (rest ++ more)
be_before-append zero v rest more = refl
be_before-append (suc n) v rest more = be_before-append n (v / 256) ((v % 256) ∷ rest) more

pub append_be-append :
    (n v : ℕ) (dst more : Bytes) → append_be n dst v ++ more ≡ dst ++ be_before n v more
unfolding append_be
append_be-append n v dst more = simp (append_assoc, be_before-append)

pub length-be_before : (n v : ℕ) (rest : Bytes) → length (be_before n v rest) ≡ n + length rest
length-be_before zero v rest = omega arith
length-be_before (suc n) v rest = omega (arith, length-be_before n (v / 256) ((v % 256) ∷ rest))

module _ {ℓ} {A : Type ℓ} where
  pub take-append : (n : ℕ) (xs ys : List A) → length xs ≡ n → take n (xs ++ ys) ≡ xs
  take-append zero [] ys h = refl
  take-append zero (x ∷ xs) ys h = absurd (omega arith)
  take-append (suc n) [] ys h = absurd (omega arith)
  take-append (suc n) (x ∷ xs) ys h = ap (◌∷◌ x) (take-append n xs ys (omega arith))

  pub drop-append : (n : ℕ) (xs ys : List A) → length xs ≡ n → drop n (xs ++ ys) ≡ ys
  drop-append zero [] ys h = refl
  drop-append zero (x ∷ xs) ys h = absurd (omega arith)
  drop-append (suc n) [] ys h = absurd (omega arith)
  drop-append (suc n) (x ∷ xs) ys h = drop-append n xs ys (omega arith)

pub drop-append_add {ℓ} :
    {A : Type ℓ} (n : ℕ) (xs ys : List A) → drop (length xs + n) (xs ++ ys) ≡ drop n ys
drop-append_add n [] ys = ap (λ k. drop k ys) (omega arith)
drop-append_add n (x ∷ xs) ys =
    ap (λ k. drop k (x ∷ xs ++ ys)) {y = suc (length xs + n)} (omega arith)
    ∙ drop-append_add n xs ys

pub take-be_before : (n v : ℕ) (rest : Bytes) → take n (be_before n v rest) ≡ be_before n v []
take-be_before n v rest =
    rw (← be_before-append n v [] rest)
      (take-append n (be_before n v []) rest (omega (arith, length-be_before n v [])))

pub drop-be_before : (n v : ℕ) (rest : Bytes) → drop n (be_before n v rest) ≡ rest
drop-be_before n v rest =
    rw (← be_before-append n v [] rest)
      (drop-append n (be_before n v []) rest (omega (arith, length-be_before n v [])))

be_from-be_before :
    (n v acc : ℕ) (rest : Bytes)
    → v < 256 ^ n
    → be_from acc (be_before n v rest) ≡ be_from (acc * 256 ^ n + v) rest
be_from-be_before zero v acc rest h = ap (λ k. be_from k rest) (omega (arith, pow-zero 256))
be_from-be_before (suc n) v acc rest h =
    let small : v / 256 < 256 ^ n = omega (arith, pow-suc 256 n) in
    be_from-be_before n (v / 256) acc ((v % 256) ∷ rest) small
    ∙ ap (λ k. be_from k rest) (omega (arith, ap (λ (t : ℕ). acc * t) (pow-suc 256 n)))

-- A word that fits its width is read back.
pub be_value-be_before : (n v : ℕ) → v < 256 ^ n → be_value (be_before n v []) ≡ v
unfolding be_value
be_value-be_before n v h = be_from-be_before n v 0 [] h ∙ omega arith

-- Fixed-width big-endian words compare as numbers, and what follows decides between equal ones.
pub bytes_lt-be_before :
    (n a b : ℕ) (r s : Bytes)
    → a < 256 ^ n
    → b < 256 ^ n
    → bytes_lt (be_before n a r) (be_before n b s)
      ≡ (if ltb a b then true else if ltb b a then false else bytes_lt r s)
bytes_lt-be_before zero a b r s ha hb = ground (arith, pow-zero 256)
bytes_lt-be_before (suc n) a b r s ha hb =
    let small_a : a / 256 < 256 ^ n = omega (arith, pow-suc 256 n) in
    let small_b : b / 256 < 256 ^ n = omega (arith, pow-suc 256 n) in
    bytes_lt-be_before n (a / 256) (b / 256) ((a % 256) ∷ r) ((b % 256) ∷ s) small_a small_b
    ∙ ground arith

-- A common front does not matter to the order.
pub bytes_lt-append : (xs r s : Bytes) → bytes_lt (xs ++ r) (xs ++ s) ≡ bytes_lt r s
bytes_lt-append [] r s = refl
bytes_lt-append (x ∷ xs) r s = ground (arith, bytes_lt-append xs r s)
