-- ===== src/Vector/Shift/Steps.antt =====
-- The value in the wide type that VSHIFT computes, by the sign of its amount.
use native.Mathlib.Nat.{pow-le-pow_right, mul-le-mul}
use native.Mathlib.Decide.{dec_lt, dec_le}
use mathlib.Core.Bool.{false≢true}
use coralnpu_mpact.Prelude.{ℕ, zero, suc, ◌+◌, ◌-◌, ◌^◌, ◌≤◌, ◌<◌, ◌≡◌, sym, arith, min}
use coralnpu_mpact.Prelude.{Bool, true, false, some, if◌then◌else◌}
use coralnpu_mpact.Prelude.{ℤ, pos, negsuc, pos_part, neg_part, ◌+ℤ◌, ◌*ℤ◌, shr_ℤ}
use coralnpu_mpact.Scalar.{
  Lane, i8, i16, i32, u8, u16, u32, ctype, wide, make_unsigned, int32, modulus, of_bool, cast, plus,
  shl, InRange,
}
use coralnpu_mpact.Vector.Shift.{signed_shift, unsigned_shift}
use coralnpu_mpact.Vector.Shift.Bounds.{rounding, rounding-le, wide_right, rounding_bit_lem}
use coralnpu_mpact.Vector.Shift.Right.{right_far}
use coralnpu_mpact.Vector.Shift.Left

-- The result without limits: right for a positive amount, left for another.
abbrev pub exact_shift : Bool → ℤ → ℤ → ℤ
exact_shift round a (pos zero) = a *ℤ pos (2 ^ 0)
exact_shift round a (pos (suc k)) = shr_ℤ (a +ℤ pos (rounding round (suc k))) (suc k)
exact_shift round a (negsuc k) = a *ℤ pos (2 ^ suc k)

abbrev pub Nonzero : ℤ → Type 0
Nonzero a = 1 ≤ pos_part a + neg_part a

pub bits_positive : (t : Lane) → 1 ≤ (ctype t).bits
bits_positive i8 = omega arith
bits_positive _ = omega arith

minus_one :
    (t : Lane) (round : Bool)
    → (ctype t).is_signed ≡ true
    → cast (wide (ctype t)) (plus int32 (negsuc 0) (of_bool round))
      ≡ (if round then pos 0 else negsuc 0)
unfolding cast plus ◌+ℤ◌
minus_one i8 round g = ground arith
minus_one i16 round g = ground arith
minus_one i32 round g = ground arith
minus_one _ round g = cc

-- A lane past whose width a shift goes is below the rounding term.
below_power :
    (t : Lane) (a : ℤ) (k : ℕ)
    → (ctype t).is_signed ≡ true
    → InRange (ctype t) a
    → (ctype t).bits ≤ suc k
    → (pos_part a < 2 ^ k) × (neg_part a ≤ 2 ^ k)
below_power i8 a k g h u =
    omega (arith, pow-le-pow_right {n = 2} (omega arith) {i = 7} {j = k} (omega arith))
below_power i16 a k g h u =
    omega (arith, pow-le-pow_right {n = 2} (omega arith) {i = 15} {j = k} (omega arith))
below_power i32 a k g h u =
    omega (arith, pow-le-pow_right {n = 2} (omega arith) {i = 31} {j = k} (omega arith))
below_power _ a k g h u = absurd (false≢true g)

below_power_unsigned :
    (t : Lane) (a : ℤ) (k : ℕ)
    → (ctype t).is_signed ≡ false
    → InRange (ctype t) a
    → (ctype t).bits ≤ k
    → (pos_part a < 2 ^ k) × (neg_part a ≤ 2 ^ k)
below_power_unsigned u8 a k g h u =
    omega (arith, pow-le-pow_right {n = 2} (omega arith) {i = 8} {j = k} (omega arith))
below_power_unsigned u16 a k g h u =
    omega (arith, pow-le-pow_right {n = 2} (omega arith) {i = 16} {j = k} (omega arith))
below_power_unsigned u32 a k g h u =
    omega (arith, pow-le-pow_right {n = 2} (omega arith) {i = 32} {j = k} (omega arith))
below_power_unsigned _ a k g h u = absurd (false≢true (sym g))

module _ (t : Lane) (round : Bool) (a : ℤ) (k : ℕ) (h : InRange (ctype t) a)
    (nonzero : Nonzero a) where
  abbrev pub r : ℕ
  r = rounding round (suc k)

  abbrev pub quotient : ℤ
  quotient = shr_ℤ (a +ℤ pos r) (suc k)

  wide-quotient :
      suc k ≤ (ctype t).bits
      → (let wt = wide (ctype t) in
          cast wt (
            shr_ℤ
              (plus wt (cast wt a) (if round then cast wt (pos (2 ^ (suc k - 1))) else pos 0))
              (suc k)))
        ≡ quotient
  wide-quotient u =
      rw (rounding_bit_lem t round (suc k))
        (wide_right t a r (suc k) h (rounding-le round (suc k) _ (omega arith)))

  pub signed_right :
      (ctype t).is_signed ≡ true → signed_shift (ctype t) round a (pos (suc k)) ≡ some quotient
  unfolding signed_shift
  signed_right g = elim (dec_le (ctype t).bits (suc k)) [
    | yes u ↦ ground (
      arith,
      minus_one t round g,
      right_far k round a (below_power t a k g h u).0 (below_power t a k g h u).1,
    )
    | no u ↦ ground (arith, wide-quotient (omega arith))
  ]

  pub unsigned_right :
      (ctype t).is_signed ≡ false → unsigned_shift (ctype t) round a (pos (suc k)) ≡ some quotient
  unfolding unsigned_shift
  unsigned_right g = elim (dec_lt (ctype t).bits (suc k)) [
    | yes u ↦ ground (
      arith,
      h.0,
      right_far k round a (below_power_unsigned t a k g h (omega arith)).0
          (below_power_unsigned t a k g h (omega arith)).1,
    )
    | no u ↦ ground (arith, wide-quotient (omega arith))
  ]

module _ (t : Lane) (round : Bool) (a s : ℤ) (h : InRange (ctype t) a) (nonzero : Nonzero a)
    (left : pos_part s ≡ 0) (least : neg_part s < 2 ^ 31) where
  abbrev pub amount : ℕ
  amount = min (neg_part s) (ctype t).bits

  power-le : 2 ^ amount ≤ modulus (ctype t)
  power-le = pow-le-pow_right (omega arith) (omega arith)

  left_product :
      (let wt = wide (ctype t) in
        let uwt = wide (make_unsigned (ctype t)) in cast wt (shl uwt (cast uwt a) amount))
      ≡ a *ℤ pos (2 ^ amount)
  unfolding shl
  left_product =
      Left.left_factor t a (2 ^ amount) h (mul-le-mul h.1 power-le) (mul-le-mul h.0 power-le)

  pub signed_left :
      (ctype t).is_signed ≡ true → signed_shift (ctype t) round a s ≡ some (a *ℤ pos (2 ^ amount))
  unfolding signed_shift
  signed_left g = ground (arith, Left.left_amount_lem t s left least, left_product, bits_positive t)

  pub unsigned_left :
      (ctype t).is_signed ≡ false
      → unsigned_shift (ctype t) round a s ≡ some (a *ℤ pos (2 ^ amount))
  unfolding unsigned_shift
  unsigned_left g = ground (arith, Left.left_amount_lem t s left least, left_product)
