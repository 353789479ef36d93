-- ===== src/Vector/Shift/Bounds.antt =====
-- Shifts right of a lane in the wide type are exact.
use native.Mathlib.Nat.{div-le_self, pow-le-pow_right}
use coralnpu_mpact.Prelude.{ℕ, suc, ◌-◌, ◌^◌, ◌≤◌, ◌≡◌, refl, arith}
use coralnpu_mpact.Prelude.{
  Bool, true, false, if◌then◌else◌, ℤ, pos, negsuc, pos_part, neg_part, ◌+ℤ◌, shr_ℤ,
}
use coralnpu_mpact.Scalar.{Lane, i8, ctype, wide, promote, cast, plus, InRange}
use coralnpu_mpact.Scalar.Range.{cast_self_wide, cast_self_promote-wide, InRange-wide}
use coralnpu_mpact.Vector.Shift.{rounding_bit}

-- Shifting right moves a value towards zero, or keeps it at -1.
pub shr_bounds :
    (z : ℤ) (k : ℕ) → (pos_part (shr_ℤ z k) ≤ pos_part z) × (neg_part (shr_ℤ z k) ≤ neg_part z)
unfolding shr_ℤ
shr_bounds (pos n) k = (div-le_self n (2 ^ k), omega arith)
shr_bounds (negsuc n) k = (omega arith, omega (arith, div-le_self n (2 ^ k)))

-- What a rounding shift right by `k` adds.
abbrev pub rounding : Bool → ℕ → ℕ
rounding round k = if round then 2 ^ (k - 1) else 0

pub rounding-le : (round : Bool) (k n : ℕ) → k ≤ suc n → rounding round k ≤ 2 ^ n
rounding-le true k n h = pow-le-pow_right (omega arith) (omega arith)
rounding-le false k n h = omega arith

sum_fits :
    (t : Lane) (a : ℤ) (r : ℕ)
    → InRange (ctype t) a
    → r ≤ 2 ^ ((ctype t).bits - 1)
    → InRange (wide (ctype t)) (pos r)
      × InRange (wide (ctype t)) (a +ℤ pos r)
      × InRange (promote (wide (ctype t))) (a +ℤ pos r)
unfolding ◌+ℤ◌
sum_fits i8 a r h k = ground arith
sum_fits _ a r h k = ground arith

InRange-shr :
    (t : Lane) (z : ℤ) (k : ℕ) → InRange (wide (ctype t)) z → InRange (wide (ctype t)) (shr_ℤ z k)
InRange-shr t z k h = omega (arith, shr_bounds z k)

module _ (t : Lane) (a : ℤ) (r k : ℕ) (h : InRange (ctype t) a)
    (small : r ≤ 2 ^ ((ctype t).bits - 1)) where
  -- The sum and the shift stay inside the wide type.
  pub wide_right :
      (let wt = wide (ctype t) in cast wt (shr_ℤ (plus wt (cast wt a) (cast wt (pos r))) k))
      ≡ shr_ℤ (a +ℤ pos r) k
  unfolding plus
  wide_right =
      rw
        (
          cast_self_wide t a (InRange-wide t a h),
          cast_self_wide t (pos r) (sum_fits t a r h small).0,
          cast_self_promote-wide t (a +ℤ pos r) (sum_fits t a r h small).2,
        )
        (cast_self_wide t _ (InRange-shr t _ k (sum_fits t a r h small).1))

pub rounding_bit_lem :
    (t : Lane) (round : Bool) (k : ℕ)
    → rounding_bit (wide (ctype t)) round k ≡ cast (wide (ctype t)) (pos (rounding round k))
rounding_bit_lem t true k = refl
rounding_bit_lem i8 false k = unfold cast in refl
rounding_bit_lem _ false k = unfold cast in refl
