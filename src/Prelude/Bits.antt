-- ===== src/Prelude/Bits.antt =====
-- The native bit operations, digit by digit and shifted.
use Prim.Native.Nat.{ℕ, zero, suc, ◌+◌, ◌*◌, ◌/◌, ◌%◌, ◌^◌, ◌≤◌, ◌<◌, bit_or, bit_xor, max}
use Prim.Native.Nat.{digits, bitwise, differ, bit_or-bitwise, bit_xor-bitwise}
use mathlib.Core.Path.{◌≡◌, refl, sym, ◌∙◌, ap, ap₂}
use native.Mathlib.Nat.{pow-suc, mul_assoc, div-add-mod', div-div-eq-div-mul, le_refl}
use native.Mathlib.Omega.{arith}

module _ (z : ℕ → ℕ) (f : ℕ → ℕ → ℕ) where
  -- Two counts of digits that both reach the end of the first number agree.
  same_digits : (x y k l : ℕ) → x ≤ l → x ≤ k → digits z f l x y ≡ digits z f k x y
  same_digits zero y zero zero h g = refl
  same_digits zero y (suc k) zero h g = refl
  same_digits zero y zero (suc l) h g = refl
  same_digits zero y (suc k) (suc l) h g = refl
  same_digits (suc x) y zero l h g = absurd (omega (arith, g))
  same_digits (suc x) y (suc k) zero h g = absurd (omega (arith, h))
  same_digits (suc x) y (suc k) (suc l) h g =
      ap (λ d. d * 2 + f (suc x % 2) (y % 2))
        (same_digits (suc x / 2) (y / 2) k l (omega (arith, h)) (omega (arith, g)))

-- An operation that keeps the digits of the second number once the first has run out goes by the
-- lowest digit.
module _ (f : ℕ → ℕ → ℕ) (keeps : (y : ℕ) → f 0 y ≡ y) (op : ℕ → ℕ → ℕ)
    (means : (x y : ℕ) → op x y ≡ bitwise (λ d. d) f x y) where
  lowest_digit : (x y : ℕ) → op x y ≡ f (x % 2) (y % 2) + op (x / 2) (y / 2) * 2
  lowest_digit zero y = omega (arith, keeps (y % 2), means 0 y, means 0 (y / 2))
  lowest_digit (suc x) y = omega (
    arith,
    means (suc x) y,
    means (suc x / 2) (y / 2),
    same_digits (λ d. d) f (suc x / 2) (y / 2) x (suc x / 2) (le_refl _) (omega arith),
  )

xor_lowest : (x y : ℕ) → bit_xor x y ≡ differ (x % 2) (y % 2) + bit_xor (x / 2) (y / 2) * 2
xor_lowest = lowest_digit differ (λ y. refl) bit_xor bit_xor-bitwise

differ-lt : (a b : ℕ) → a < 2 → b < 2 → differ a b < 2
differ-lt zero b p q = q
differ-lt (suc zero) zero p q = p
differ-lt (suc zero) (suc zero) p q = omega arith
differ-lt (suc zero) (suc (suc b)) p q = absurd (omega arith)
differ-lt (suc (suc a)) b p q = absurd (omega arith)

bit_xor-half : (a b : ℕ) → bit_xor a b / 2 ≡ bit_xor (a / 2) (b / 2)
bit_xor-half a b =
    omega (arith, xor_lowest a b, differ-lt (a % 2) (b % 2) (omega arith) (omega arith))

div-pow-suc : (a k : ℕ) → a / 2 ^ suc k ≡ a / 2 ^ k / 2
div-pow-suc a k = rw (pow-suc 2 k, div-div-eq-div-mul)

div-pow-zero : (a : ℕ) → a / 2 ^ 0 ≡ a
div-pow-zero a = omega arith

-- Shifting an exclusive or is shifting both sides.
pub bit_xor-shift : (k a b : ℕ) → bit_xor a b / 2 ^ k ≡ bit_xor (a / 2 ^ k) (b / 2 ^ k)
bit_xor-shift zero a b = simp div-pow-zero
bit_xor-shift (suc k) a b =
    simp div-pow-suc (ap (λ t. t / 2) (bit_xor-shift k a b) ∙ bit_xor-half _ _)

module _ (a b : ℕ) where
  top_digit : (i j : ℕ) → a / 2 ^ 31 ≡ i → b / 2 ^ 31 ≡ j → bit_xor a b / 2 ^ 31 ≡ bit_xor i j
  top_digit i j p q = bit_xor-shift 31 a b ∙ ap₂ bit_xor p q

  -- The highest of 32 digits is set exactly if it is set on one side.
  pub xor_low_low : a < 2 ^ 31 → b < 2 ^ 31 → bit_xor a b < 2 ^ 31
  xor_low_low p q = omega (arith, top_digit 0 0 (omega arith) (omega arith))

  pub xor_high_high : 2 ^ 31 ≤ a → a < 2 ^ 32 → 2 ^ 31 ≤ b → b < 2 ^ 32 → bit_xor a b < 2 ^ 31
  xor_high_high p p' q q' = omega (arith, top_digit 1 1 (omega arith) (omega arith))

  pub xor_low_high :
      a < 2 ^ 31 → 2 ^ 31 ≤ b → b < 2 ^ 32 → (2 ^ 31 ≤ bit_xor a b) × (bit_xor a b < 2 ^ 32)
  xor_low_high p q q' = omega (arith, top_digit 0 1 (omega arith) (omega arith))

  pub xor_high_low :
      2 ^ 31 ≤ a → a < 2 ^ 32 → b < 2 ^ 31 → (2 ^ 31 ≤ bit_xor a b) × (bit_xor a b < 2 ^ 32)
  xor_high_low p p' q = omega (arith, top_digit 1 0 (omega arith) (omega arith))

or_lowest : (x y : ℕ) → bit_or x y ≡ max (x % 2) (y % 2) + bit_or (x / 2) (y / 2) * 2
or_lowest = lowest_digit max (λ y. omega arith) bit_or bit_or-bitwise

bit_or_zero : (n a : ℕ) → a ≤ n → bit_or a 0 ≡ a
bit_or_zero zero a h = rw (zero_of a h) (simp bit_or-bitwise refl)
  where
    zero_of : (a : ℕ) → a ≤ 0 → a ≡ 0
    zero_of a h = omega arith
bit_or_zero (suc n) zero h = simp bit_or-bitwise refl
bit_or_zero (suc n) (suc a) h =
    omega (arith, or_lowest (suc a) 0, bit_or_zero n (suc a / 2) (omega arith))

bit_or_shifted : (k a b : ℕ) → b < 2 ^ k → bit_or (a * 2 ^ k) b ≡ a * 2 ^ k + b
bit_or_shifted zero a b h =
    let empty : b ≡ 0 = omega arith in
    let same : a * 1 ≡ a = omega arith in
    rw (empty, same) (bit_or_zero a a (le_refl _) ∙ omega arith)
bit_or_shifted (suc k) a b h =
    let power = pow-suc 2 k in
    let double : a * 2 ^ suc k ≡ a * 2 ^ k * 2 =
      ap (λ x. a * x) power ∙ sym (mul_assoc a (2 ^ k) 2) in
    rw double (
      omega (
        arith,
        power,
        or_lowest (a * 2 ^ k * 2) b,
        halved (a * 2 ^ k) (b / 2),
        bit_or_shifted k a (b / 2) (omega (arith, power)),
      ))
  where
    halved : (x y : ℕ) → bit_or (x * 2 / 2) y ≡ bit_or x y
    halved x y = ap (λ z. bit_or z y) (omega arith)

-- A number without its lowest `k` digits, and a number of `k` digits.
pub bit_or_disjoint : (k n b : ℕ) → n % 2 ^ k ≡ 0 → b < 2 ^ k → bit_or n b ≡ n + b
bit_or_disjoint k n b e h =
    let whole : n ≡ n / 2 ^ k * 2 ^ k = omega (arith, div-add-mod' n (2 ^ k), e) in
    ap (λ x. bit_or x b) whole ∙ bit_or_shifted k (n / 2 ^ k) b h ∙ ap (λ x. x + b) (sym whole)

bit_or_swapped : (n a b : ℕ) → a ≤ n → bit_or a b ≡ bit_or b a
bit_or_swapped n zero b h = bit_or-bitwise 0 b ∙ sym (bit_or_zero b b (le_refl _))
bit_or_swapped zero (suc a) b h = absurd (omega (arith, h))
bit_or_swapped (suc n) (suc a) b h = omega (
  arith,
  or_lowest (suc a) b,
  or_lowest b (suc a),
  bit_or_swapped n (suc a / 2) (b / 2) (omega arith),
)

-- The same with the `k` digits first.
pub bit_or_above : (k b n : ℕ) → n % 2 ^ k ≡ 0 → b < 2 ^ k → bit_or b n ≡ b + n
bit_or_above k b n e h = bit_or_swapped b b n (le_refl _) ∙ bit_or_disjoint k n b e h ∙ omega arith
