-- ===== src/Prelude/Bits.antt =====
-- Facts about the bit operations at variables: a mask bounds its result, and a single high bit is
-- tested and flipped as by arithmetic.
use Prim.Native.Nat.{min, bit_and, bit_xor, differ, digits, bit_and-bitwise, bit_xor-bitwise}
use mathlib.Core.Path.{ap, sym, ap₂, ◌∙◌}
use native.Mathlib.Nat.{pow-suc}
use pebbis.Prelude.{ℕ, zero, suc, ◌+◌, ◌-◌, ◌*◌, ◌/◌, ◌%◌, ◌^◌, ◌≤◌, ◌<◌, ◌≡◌, refl, arith}

-- An operation that works digit by digit takes as many steps as the left number has digits: every
-- number of steps from there on gives the same. `rest` is the right number's part beyond them.
module _ (rest : ℕ → ℕ) (digit : ℕ → ℕ → ℕ) where
  digits-enough :
      (steps more x y : ℕ)
      → x ≤ steps
      → steps ≤ more
      → digits rest digit steps x y ≡ digits rest digit more x y
  digits-enough zero zero x y small fits = refl
  digits-enough (suc steps) zero x y small fits = absurd (omega (arith, fits))
  digits-enough zero (suc more) (suc x) y small fits = absurd (omega (arith, small))
  digits-enough zero (suc more) zero y small fits = refl
  digits-enough (suc steps) (suc more) zero y small fits = refl
  digits-enough (suc steps) (suc more) (suc x) y small fits =
      let fewer : suc x / 2 ≤ steps = omega (arith, small) in
      let still : steps ≤ more = omega (arith, fits) in
      ap (λ (high : ℕ). high * 2 + digit (suc x % 2) (y % 2))
        (digits-enough steps more (suc x / 2) (y / 2) fewer still)

no_digits : (y : ℕ) → bit_and zero y ≡ zero
no_digits y = bit_and-bitwise zero y

-- The conjunction of two numbers from that of their halves.
pub bit_and-halves : (x y : ℕ) → bit_and x y ≡ bit_and (x / 2) (y / 2) * 2 + min (x % 2) (y % 2)
bit_and-halves zero y = omega (arith, no_digits (y / 2), no_digits y)
bit_and-halves (suc x) y =
    let half : suc x / 2 ≤ x = omega arith in
    let same = digits-enough (λ _. zero) min (suc x / 2) x (suc x / 2) (y / 2) (omega arith) half in
    bit_and-bitwise (suc x) y
    ∙ ap (λ (high : ℕ). high * 2 + min (suc x % 2) (y % 2))
        (sym same ∙ sym (bit_and-bitwise (suc x / 2) (y / 2)))

bit_and_fuel-le : (n a b : ℕ) → a ≤ n → bit_and a b ≤ b
bit_and_fuel-le n zero b h = omega (arith, no_digits b)
bit_and_fuel-le zero (suc a) b h = absurd (omega arith)
bit_and_fuel-le (suc n) (suc a) b h =
    omega (arith, bit_and-halves (suc a) b, bit_and_fuel-le n (suc a / 2) (b / 2) (omega arith))

-- A masked value lies within the mask.
pub bit_and-le : (a b : ℕ) → bit_and a b ≤ b
bit_and-le a b = bit_and_fuel-le a a b (omega arith)

-- The bit of weight 2 ^ k, in a word of k + 1 bits: clear, and set.
pub bit_and-pow_low : (k a : ℕ) → a < 2 ^ k → bit_and a (2 ^ k) ≡ 0
bit_and-pow_low zero zero h = refl
bit_and-pow_low zero (suc a) h = absurd (omega arith)
bit_and-pow_low (suc k) a h =
    let half : a / 2 < 2 ^ k = omega (arith, pow-suc 2 k) in
    let e : 2 ^ suc k / 2 ≡ 2 ^ k = omega (arith, pow-suc 2 k) in
    let step : bit_and a (2 ^ suc k) ≡ bit_and (a / 2) (2 ^ k) * 2 + 0 =
      bit_and-halves a (2 ^ suc k)
      ∙ ap₂ (λ t m. bit_and (a / 2) t * 2 + m) e (omega (arith, pow-suc 2 k)) in
    omega (arith, step, bit_and-pow_low k (a / 2) half)

pub bit_and-pow_high : (k a : ℕ) → 2 ^ k ≤ a → a < 2 ^ suc k → bit_and a (2 ^ k) ≡ 2 ^ k
bit_and-pow_high zero a l h = ap (λ t. bit_and t 1) {y = 1} (omega arith)
bit_and-pow_high (suc k) a l h =
    let e : 2 ^ suc k / 2 ≡ 2 ^ k = omega (arith, pow-suc 2 k) in
    let step : bit_and a (2 ^ suc k) ≡ bit_and (a / 2) (2 ^ k) * 2 + 0 =
      bit_and-halves a (2 ^ suc k)
      ∙ ap₂ (λ t m. bit_and (a / 2) t * 2 + m) e (omega (arith, pow-suc 2 k)) in
    omega (
      arith,
      pow-suc 2 k,
      step,
      bit_and-pow_high k (a / 2) (omega (arith, pow-suc 2 k))
          (omega (arith, pow-suc 2 k, pow-suc 2 (suc k))),
    )

no_digits_differ : (y : ℕ) → bit_xor zero y ≡ y
no_digits_differ y = bit_xor-bitwise zero y

zero-differ : (y : ℕ) → differ 0 y ≡ y
zero-differ y = refl

-- The difference of two numbers from that of their halves.
bit_xor-halves : (x y : ℕ) → bit_xor x y ≡ bit_xor (x / 2) (y / 2) * 2 + differ (x % 2) (y % 2)
bit_xor-halves zero y =
    no_digits_differ y ∙ omega (arith, no_digits_differ (y / 2), zero-differ (y % 2))
bit_xor-halves (suc x) y =
    let half : suc x / 2 ≤ x = omega arith in
    let same = digits-enough (λ c. c) differ (suc x / 2) x (suc x / 2) (y / 2) (omega arith) half in
    bit_xor-bitwise (suc x) y
    ∙ ap (λ (high : ℕ). high * 2 + differ (suc x % 2) (y % 2))
        (sym same ∙ sym (bit_xor-bitwise (suc x / 2) (y / 2)))

differ-zero : (x : ℕ) → differ x 0 ≡ x
differ-zero zero = refl
differ-zero (suc x) = refl

bit_xor_pow_step : (k a : ℕ) → bit_xor a (2 ^ suc k) ≡ bit_xor (a / 2) (2 ^ k) * 2 + a % 2
bit_xor_pow_step k a =
    bit_xor-halves a (2 ^ suc k)
    ∙ ap₂ (λ t m. bit_xor (a / 2) t * 2 + differ (a % 2) m) (omega (arith, pow-suc 2 k))
        (omega (arith, pow-suc 2 k))
    ∙ ap (λ m. bit_xor (a / 2) (2 ^ k) * 2 + m) (differ-zero (a % 2))

-- Flipping that bit.
pub bit_xor-pow_low : (k a : ℕ) → a < 2 ^ k → bit_xor a (2 ^ k) ≡ a + 2 ^ k
bit_xor-pow_low zero zero h = refl
bit_xor-pow_low zero (suc a) h = absurd (omega arith)
bit_xor-pow_low (suc k) a h =
    bit_xor_pow_step k a
    ∙ omega (arith, pow-suc 2 k, bit_xor-pow_low k (a / 2) (omega (arith, pow-suc 2 k)))

pub bit_xor-pow_high : (k a : ℕ) → 2 ^ k ≤ a → a < 2 ^ suc k → bit_xor a (2 ^ k) ≡ a - 2 ^ k
bit_xor-pow_high zero a l h = one a (omega arith) ∙ omega arith
  where
    one : (a : ℕ) → a ≡ 1 → bit_xor a 1 ≡ 0
    one a e = ap (λ t. bit_xor t 1) {y = 1} e
bit_xor-pow_high (suc k) a l h =
    bit_xor_pow_step k a
    ∙ omega (
      arith,
      pow-suc 2 k,
      bit_xor-pow_high k (a / 2) (omega (arith, pow-suc 2 k))
          (omega (arith, pow-suc 2 k, pow-suc 2 (suc k))),
    )
