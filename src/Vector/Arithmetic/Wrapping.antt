-- ===== src/Vector/Arithmetic/Wrapping.antt =====
-- Additions and subtractions that wrap.
use coralnpu_mpact.Prelude.{◌≡◌, ◌∙◌, sym, ap, arith, ℤ, ◌+ℤ◌, ◌-ℤ◌, ltb_ℤ, if◌then◌else◌}
use coralnpu_mpact.Scalar.{Lane, i8, ctype, make_unsigned, cast, plus, minus, InRange}
use coralnpu_mpact.Scalar.Congruence.{
  cast-plus_unsigned, cast-minus_unsigned, cast-add_left, cast-cast-promote_unsigned,
  cast_unsigned-add, cast-add_promote_left, cast-add_right,
}
use coralnpu_mpact.Vector.Arithmetic.{vadd_lane, vsub_lane, vrsub_lane, vadd3_lane, vabsd_lane}

-- The two conversions under the outer sum.
vadd3_inner :
    (t : Lane) (vd a b : ℤ)
    → (let ut = make_unsigned (ctype t) in cast (ctype t) (cast ut vd +ℤ cast ut a +ℤ b))
      ≡ cast (ctype t) (vd +ℤ a +ℤ b)
vadd3_inner t vd a b =
    sym (cast-add_left t _ b)
    ∙ ap (λ s. cast (ctype t) (s +ℤ b)) (cast_unsigned-add t vd a)
    ∙ cast-add_left t _ b

vadd3_lane_lem :
    (t : Lane) (vd a b : ℤ) → vadd3_lane (ctype t) vd a b ≡ cast (ctype t) (vd +ℤ a +ℤ b)
unfolding vadd3_lane plus
vadd3_lane_lem t vd a b =
    cast-cast-promote_unsigned t _
    ∙ cast-add_promote_left t _ _
    ∙ cast-add_right t _ b
    ∙ vadd3_inner t vd a b

-- At every lane type VADD, VSUB, VRSUB and VADD3 return the exact sum or difference of their
-- operands, wrapped to the lane type.
pub lanes_wrap :
    (t : Lane) (vd a b : ℤ)
    → (vadd_lane (ctype t) a b ≡ cast (ctype t) (a +ℤ b))
      × (vsub_lane (ctype t) a b ≡ cast (ctype t) (a -ℤ b))
      × (vrsub_lane (ctype t) a b ≡ cast (ctype t) (b -ℤ a))
      × (vadd3_lane (ctype t) vd a b ≡ cast (ctype t) (vd +ℤ a +ℤ b))
unfolding vadd_lane vsub_lane vrsub_lane vadd3_lane
lanes_wrap t vd a b = (
  cast-plus_unsigned t a b,
  cast-minus_unsigned t a b,
  cast-minus_unsigned t b a,
  vadd3_lane_lem t vd a b,
)

-- On lanes in range VABSD returns the exact distance of its operands, at every lane type.
vabsd_lane_lem :
    (t : Lane) (a b : ℤ)
    → InRange (ctype t) a
    → InRange (ctype t) b
    → vabsd_lane (ctype t) a b ≡ (if ltb_ℤ a b then b -ℤ a else a -ℤ b)
unfolding vabsd_lane minus cast ◌-ℤ◌
vabsd_lane_lem i8 a b ha hb = ground arith
vabsd_lane_lem _ a b ha hb = ground arith
