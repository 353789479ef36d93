-- ===== src/Vector/Instructions/Guarantees.antt =====
-- The elementwise instructions, from their source registers to their destination registers.
use coralnpu_mpact.Prelude.{ℕ, ◌<◌, ◌^◌, ◌≡◌, ap}
use coralnpu_mpact.Prelude.{Bool, true, false, Option, some}
use coralnpu_mpact.Prelude.{ℤ, pos, neg_part, ◌+ℤ◌, ◌-ℤ◌, ◌*ℤ◌, shr_ℤ}
use coralnpu_mpact.Scalar.{Lane, ctype, saturate, cast}
use coralnpu_mpact.Vector.Machine.{Machine, binary_op_invoke, is_reading_dest}
use coralnpu_mpact.Vector.Machine.Submit.{Isolated}
use coralnpu_mpact.Vector.Arithmetic.Wrapping.{lanes_wrap}
use coralnpu_mpact.Vector.Arithmetic.Saturating.{
  vadds_helper_lem, vsubs_helper_lem, vaddsu_helper_lem, vsubsu_lane_lem,
}
use coralnpu_mpact.Vector.Multiply.Exact.{
  vmul_lane_lem, vmuls_lane_lem, vmulh_helper_lem, half_unit,
}
use coralnpu_mpact.Vector.Shift.Steps.{exact_shift}
use coralnpu_mpact.Vector.Shift.Saturating.{vshift_helper_lem, signed_amount}
use coralnpu_mpact.Vector.Instructions.Written.{
  lane1, lane2, HoldsLanes, Writes, elementwise-Writes,
}
use coralnpu_mpact.Vector.Instructions.Sums.{vadd, vsub, vrsub, vadd3}
use coralnpu_mpact.Vector.Instructions.Saturated.{vadds, vsubs, vaddsu, vsubsu}
use coralnpu_mpact.Vector.Instructions.Shifts.{vshift}
use coralnpu_mpact.Vector.Instructions.Products.{vmul, vmuls, vmulh}

module _ {S : Type 0} (m : Machine S) (law : Isolated m) (t : Lane) (scalar strip_mine : Bool)
    (s : S) where
  abbrev pub a : ℕ → ℕ → ℤ
  a = lane1 m t scalar strip_mine s

  abbrev pub b : ℕ → ℕ → ℤ
  b = lane2 m t scalar strip_mine s

  abbrev pub Leaving : (ℕ → ℕ → ℤ) → Option S → Type 0
  Leaving = Writes m t scalar strip_mine s

  abbrev pub InLanes : Type 0
  InLanes = HoldsLanes m t scalar strip_mine s

  -- On isolated registers, for every lane type, with a vector or a scalar second operand, stripmined or not: VADD, VSUB,
  -- VRSUB and VADD3 return, leave the wrapped exact sum or difference of the source lanes in every
  -- lane of their destination registers, and change no register past them.
  pub sums_written :
      Leaving (λ o e. cast (ctype t) (a o e +ℤ b o e)) (vadd m (ctype t) scalar strip_mine s)
      × Leaving (λ o e. cast (ctype t) (a o e -ℤ b o e)) (vsub m (ctype t) scalar strip_mine s)
      × Leaving (λ o e. cast (ctype t) (b o e -ℤ a o e)) (vrsub m (ctype t) scalar strip_mine s)
      × Leaving
          (λ o e. cast (ctype t) (m.dest_lane s (ctype t) o e +ℤ a o e +ℤ b o e))
          (vadd3 m (ctype t) scalar strip_mine s)
  unfolding vadd vsub vrsub vadd3 binary_op_invoke is_reading_dest
  sums_written = (
    elementwise-Writes m t scalar strip_mine s law _ _
        (λ o e. ap some (lanes_wrap t (pos 0) (a o e) (b o e)).0),
    elementwise-Writes m t scalar strip_mine s law _ _
        (λ o e. ap some (lanes_wrap t (pos 0) (a o e) (b o e)).1),
    elementwise-Writes m t scalar strip_mine s law _ _
        (λ o e. ap some (lanes_wrap t (pos 0) (a o e) (b o e)).2),
    elementwise-Writes m t scalar strip_mine s law _ _
        (λ o e. ap some (lanes_wrap t (m.dest_lane s (ctype t) o e) (a o e) (b o e)).3),
  )

  -- On isolated registers, for the signed lane types, if the source lanes are values of the lane type: VADDS and VSUBS
  -- return, leave the exact sum or difference of the source lanes, saturated to the lane type, in
  -- every lane of their destination registers, and change no register past them.
  pub saturated_written :
      (ctype t).is_signed ≡ true
      → InLanes
      → Leaving (λ o e. saturate (ctype t) (a o e +ℤ b o e)) (vadds m (ctype t) scalar strip_mine s)
        × Leaving
            (λ o e. saturate (ctype t) (a o e -ℤ b o e))
            (vsubs m (ctype t) scalar strip_mine s)
  unfolding vadds vsubs binary_op_invoke
  saturated_written g h = (
    elementwise-Writes m t scalar strip_mine s law _ _
        (λ o e. ap some (vadds_helper_lem t (a o e) (b o e) g (h _ _) (h _ _))),
    elementwise-Writes m t scalar strip_mine s law _ _
        (λ o e. ap some (vsubs_helper_lem t (a o e) (b o e) g (h _ _) (h _ _))),
  )

  -- On isolated registers, for the unsigned lane types, if the source lanes are values of the lane
  -- type: VADDSU and VSUBSU return, leave the exact sum or difference of the source lanes, saturated
  -- to the lane type, in every lane of their destination registers, and change no register past
  -- them.
  pub saturated_unsigned_written :
      (ctype t).is_signed ≡ false
      → InLanes
      → Leaving
          (λ o e. saturate (ctype t) (a o e +ℤ b o e))
          (vaddsu m (ctype t) scalar strip_mine s)
        × Leaving
            (λ o e. saturate (ctype t) (a o e -ℤ b o e))
            (vsubsu m (ctype t) scalar strip_mine s)
  unfolding vaddsu vsubsu binary_op_invoke
  saturated_unsigned_written g h = (
    elementwise-Writes m t scalar strip_mine s law _ _
        (λ o e. ap some (vaddsu_helper_lem t (a o e) (b o e) g (h _ _) (h _ _))),
    elementwise-Writes m t scalar strip_mine s law _ _
        (λ o e. ap some (vsubsu_lane_lem t (a o e) (b o e) g (h _ _) (h _ _))),
  )

  -- On isolated registers, if the source lanes are values of the lane type: VMUL, VMULS and VMULH return, leave the exact
  -- product, wrapped to the lane type, saturated to it, or shifted down by the lane's width after
  -- half a unit is added where VMULH rounds, in every lane of their destination registers, and
  -- change no register past them.
  pub products_written :
      (round : Bool)
      → InLanes
      → Leaving (λ o e. cast (ctype t) (a o e *ℤ b o e)) (vmul m (ctype t) scalar strip_mine s)
        × Leaving
            (λ o e. saturate (ctype t) (a o e *ℤ b o e))
            (vmuls m (ctype t) scalar strip_mine s)
        × Leaving
            (λ o e. shr_ℤ (a o e *ℤ b o e +ℤ half_unit t round) (ctype t).bits)
            (vmulh m (ctype t) scalar strip_mine round s)
  unfolding vmul vmuls vmulh binary_op_invoke
  products_written round h = (
    elementwise-Writes m t scalar strip_mine s law _ _
        (λ o e. ap some (vmul_lane_lem t (a o e) (b o e) (h _ _) (h _ _))),
    elementwise-Writes m t scalar strip_mine s law _ _
        (λ o e. ap some (vmuls_lane_lem t (a o e) (b o e) (h _ _) (h _ _))),
    elementwise-Writes m t scalar strip_mine s law _ _
        (λ o e. ap some (vmulh_helper_lem t round (a o e) (b o e) (h _ _) (h _ _))),
  )

  -- On isolated registers, if the source lanes are values of the lane type and none of them, as a
  -- shift amount, is the least `int`: VSHIFT
  -- returns, leaves the exact rounded shift of the first source lane by the second one, saturated
  -- to the lane type, in every lane of its destination registers, and changes no register past
  -- them.
  pub shifts_written :
      (round : Bool)
      → InLanes
      → ((i j : ℕ) → neg_part (signed_amount t (m.source s (ctype t) i j)) < 2 ^ 31)
      → Leaving
          (λ o e. saturate (ctype t) (exact_shift round (a o e) (signed_amount t (b o e))))
          (vshift m (ctype t) round scalar strip_mine s)
  unfolding vshift binary_op_invoke
  shifts_written round h k =
      elementwise-Writes m t scalar strip_mine s law _ _
        (λ o e. vshift_helper_lem t round (a o e) (b o e) (h _ _) (h _ _) (k _ _))
