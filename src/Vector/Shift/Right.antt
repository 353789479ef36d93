-- ===== src/Vector/Shift/Right.antt =====
-- Rounding shifts right of a lane stay in range, and vanish where the amount passes the width.
use native.Mathlib.Nat.{pow-suc, one-le-pow, div-eq_of_lt, div-le_of_le-mul, div-le_self}
use coralnpu_mpact.Prelude.{ℕ, zero, suc, ◌+◌, ◌-◌, ◌*◌, ◌/◌, ◌^◌, ◌≤◌, ◌<◌, ◌≡◌, ap, refl, arith}
use coralnpu_mpact.Prelude.{
  Bool, true, false, if◌then◌else◌, ℤ, pos, negsuc, pos_part, neg_part, ◌+ℤ◌, shr_ℤ, ltb_ℤ,
}
use coralnpu_mpact.Vector.Shift.Bounds.{rounding, shr_bounds}

-- The sum's quotient by twice `p`, where `p` is the rounding term or the sum has none.
quotient_le : (n p : ℕ) → 1 ≤ p → (n + p) / (2 * p) ≤ n
quotient_le zero p h = omega (arith, div-eq_of_lt {n = 0 + p} {m = 2 * p} (omega arith))
quotient_le (suc n) zero h = absurd (omega arith)
quotient_le (suc n) (suc p) h = div-le_of_le-mul (2 * suc p) (omega arith)

module _ (k : ℕ) where
  double : 2 ^ suc k ≡ 2 * 2 ^ k
  double = omega (arith, pow-suc 2 k)

  positive : 1 ≤ 2 ^ k
  positive = one-le-pow k 2 (omega arith)

  -- `n + 2 ^ k` over `2 ^ (k + 1)`
  round_le : (n : ℕ) → (n + 2 ^ k) / 2 ^ suc k ≤ n
  round_le n = rw double (quotient_le n (2 ^ k) positive)

  small_quotient : (n : ℕ) → n < 2 * 2 ^ k → n / 2 ^ suc k ≡ 0
  small_quotient n h = rw double (div-eq_of_lt h)

  rounding-suc : (round : Bool) → rounding round (suc k) ≡ (if round then 2 ^ k else 0)
  rounding-suc true = ap (λ e. 2 ^ e) (omega arith)
  rounding-suc false = refl

  -- The result lies between zero, or -1, and the operand.
  pub right_bounds :
      (round : Bool) (a : ℤ)
      → (pos_part (shr_ℤ (a +ℤ pos (rounding round (suc k))) (suc k)) ≤ pos_part a)
        × (neg_part (shr_ℤ (a +ℤ pos (rounding round (suc k))) (suc k)) ≤ neg_part a)
  right_bounds false a = rw (add_nothing a) (shr_bounds a (suc k))
    where
      add_nothing : (z : ℤ) → z +ℤ pos 0 ≡ z
      add_nothing z = unfold ◌+ℤ◌ in ground arith
  right_bounds true (pos n) =
      rw (rounding-suc true) (unfold ◌+ℤ◌ shr_ℤ in ground (arith, round_le n))
  right_bounds true (negsuc n) = rw (rounding-suc true) (
      unfold ◌+ℤ◌ shr_ℤ in
      ground (arith, small_quotient (2 ^ k - suc n), div-le_self (n - 2 ^ k) (2 ^ suc k)))

  -- Past the operand's width nothing is left but the sign, which rounding takes away.
  pub right_far :
      (round : Bool) (a : ℤ)
      → pos_part a < 2 ^ k
      → neg_part a ≤ 2 ^ k
      → shr_ℤ (a +ℤ pos (rounding round (suc k))) (suc k)
        ≡ (if ltb_ℤ a (pos 0) then (if round then pos 0 else negsuc 0) else pos 0)
  unfolding ◌+ℤ◌ shr_ℤ
  right_far true (pos n) h g = rw (rounding-suc true) (ground (arith, small_quotient (n + 2 ^ k)))
  right_far false (pos n) h g = ground (arith, small_quotient n)
  right_far true (negsuc n) h g =
      rw (rounding-suc true) (ground (arith, small_quotient (2 ^ k - suc n), positive))
  right_far false (negsuc n) h g = ground (arith, small_quotient n)
