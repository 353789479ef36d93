-- ===== src/Vector/Multiply/Exact.antt =====
-- What the multiplications return, by the exact product.
use native.Mathlib.Nat.{mul-le-mul}
use coralnpu_mpact.Scalar.Range
use coralnpu_mpact.Scalar.Range.{cast_self_wide, InRange-wide}
use coralnpu_mpact.Prelude.{ℕ, ◌≡◌, ◌∙◌, ap, ◌≤◌, ◌*◌, ◌-◌, ◌^◌, arith, Bool, if◌then◌else◌}
use coralnpu_mpact.Prelude.{ℤ, pos, negsuc, pos_part, neg_part, ◌+ℤ◌, ◌*ℤ◌, shr_ℤ}
use coralnpu_mpact.Scalar.{
  Lane, i8, i16, i32, u8, u16, u32, ctype, wide, promote, InRange, cast, plus, times,
}
use coralnpu_mpact.Scalar.{
  max_value, min_magnitude, saturate, max_limit, min_limit, std_max, std_min,
}
use coralnpu_mpact.Vector.Multiply.{vmul_lane, vmuls_lane, vmulh_helper, vmacc_lane, vmadd_lane}

-- The parts of a product, bounded by the products of its factors' bounds.
pub *ℤ_bound :
    (a b : ℤ) {p m q n : ℕ} (k l : ℕ)
    → pos_part a ≤ p
    → neg_part a ≤ m
    → pos_part b ≤ q
    → neg_part b ≤ n
    → p * q ≤ k
    → m * n ≤ k
    → p * n ≤ l
    → m * q ≤ l
    → (pos_part (a *ℤ b) ≤ k) × (neg_part (a *ℤ b) ≤ l)
unfolding ◌*ℤ◌
*ℤ_bound (pos a) (pos b) k l h h' g g' u v w x = ground (arith, mul-le-mul h g)
*ℤ_bound (pos a) (negsuc b) k l h h' g g' u v w x = ground (arith, mul-le-mul h g')
*ℤ_bound (negsuc a) (pos b) k l h h' g g' u v w x = ground (arith, mul-le-mul h' g)
*ℤ_bound (negsuc a) (negsuc b) k l h h' g g' u v w x = ground (arith, mul-le-mul h' g')

-- The largest and smallest product of two lanes.
abbrev pub IsProduct : Lane → ℤ → Type 0
IsProduct t z =
    let p = max_value (ctype t) in
    let m = min_magnitude (ctype t) in
    (pos_part z ≤ (if (ctype t).is_signed then m * m else p * p)) × (neg_part z ≤ p * m)

pub *ℤ-IsProduct :
    (t : Lane) (a b : ℤ) → InRange (ctype t) a → InRange (ctype t) b → IsProduct t (a *ℤ b)
*ℤ-IsProduct i8 a b ha hb =
    *ℤ_bound a b _ _ ha.1 ha.0 hb.1 hb.0 (omega arith) (omega arith) (omega arith) (omega arith)
*ℤ-IsProduct i16 a b ha hb =
    *ℤ_bound a b _ _ ha.1 ha.0 hb.1 hb.0 (omega arith) (omega arith) (omega arith) (omega arith)
*ℤ-IsProduct i32 a b ha hb =
    *ℤ_bound a b _ _ ha.1 ha.0 hb.1 hb.0 (omega arith) (omega arith) (omega arith) (omega arith)
*ℤ-IsProduct u8 a b ha hb =
    *ℤ_bound a b _ _ ha.1 ha.0 hb.1 hb.0 (omega arith) (omega arith) (omega arith) (omega arith)
*ℤ-IsProduct u16 a b ha hb =
    *ℤ_bound a b _ _ ha.1 ha.0 hb.1 hb.0 (omega arith) (omega arith) (omega arith) (omega arith)
*ℤ-IsProduct u32 a b ha hb =
    *ℤ_bound a b _ _ ha.1 ha.0 hb.1 hb.0 (omega arith) (omega arith) (omega arith) (omega arith)

-- A product of two lanes fits the wide type, and what the wide type is promoted to.
product_fits :
    (t : Lane) (a b : ℤ)
    → InRange (ctype t) a
    → InRange (ctype t) b
    → InRange (wide (ctype t)) (a *ℤ b) × InRange (promote (wide (ctype t))) (a *ℤ b)
product_fits i8 a b ha hb = omega (arith, *ℤ-IsProduct i8 a b ha hb)
product_fits i16 a b ha hb = omega (arith, *ℤ-IsProduct i16 a b ha hb)
product_fits i32 a b ha hb = omega (arith, *ℤ-IsProduct i32 a b ha hb)
product_fits u8 a b ha hb = omega (arith, *ℤ-IsProduct u8 a b ha hb)
product_fits u16 a b ha hb = omega (arith, *ℤ-IsProduct u16 a b ha hb)
product_fits u32 a b ha hb = omega (arith, *ℤ-IsProduct u32 a b ha hb)

-- The wide multiplication of two lanes is exact.
times_exact :
    (t : Lane) (a b : ℤ)
    → InRange (ctype t) a
    → InRange (ctype t) b
    → (let wt = wide (ctype t) in times wt (cast wt a) (cast wt b)) ≡ a *ℤ b
unfolding times
times_exact t a b ha hb =
    rw (cast_self_wide t a (InRange-wide t a ha), cast_self_wide t b (InRange-wide t b hb))
      (Range.cast_self_promote-wide t (a *ℤ b) (product_fits t a b ha hb).1)

pub product_exact :
    (t : Lane) (a b : ℤ)
    → InRange (ctype t) a
    → InRange (ctype t) b
    → (let wt = wide (ctype t) in cast wt (times wt (cast wt a) (cast wt b))) ≡ a *ℤ b
product_exact t a b ha hb =
    ap (cast (wide (ctype t))) (times_exact t a b ha hb)
    ∙ cast_self_wide t (a *ℤ b) (product_fits t a b ha hb).0

-- On lanes in range VMUL returns the exact product wrapped to the lane type.
pub vmul_lane_lem :
    (t : Lane) (a b : ℤ)
    → InRange (ctype t) a
    → InRange (ctype t) b
    → vmul_lane (ctype t) a b ≡ cast (ctype t) (a *ℤ b)
unfolding vmul_lane
vmul_lane_lem t a b ha hb = ap (cast (ctype t)) (times_exact t a b ha hb)

-- Clamping in the wide type and narrowing is saturation.
clamp_wide :
    (t : Lane) (z : ℤ)
    → InRange (wide (ctype t)) z
    → (let wt = wide (ctype t) in
        if (ctype t).is_signed
        then cast
            (ctype t)
            (std_max (cast wt (min_limit (ctype t))) (std_min (cast wt (max_limit (ctype t))) z))
        else cast (ctype t) (std_min (cast wt (max_limit (ctype t))) z))
      ≡ saturate (ctype t) z
unfolding cast saturate std_max std_min
clamp_wide i8 z h = ground arith
clamp_wide _ z h = ground arith

-- On lanes in range VMULS returns the exact product saturated to the lane type.
pub vmuls_lane_lem :
    (t : Lane) (a b : ℤ)
    → InRange (ctype t) a
    → InRange (ctype t) b
    → vmuls_lane (ctype t) a b ≡ saturate (ctype t) (a *ℤ b)
unfolding vmuls_lane
vmuls_lane_lem t a b ha hb =
    rw (product_exact t a b ha hb) (clamp_wide t (a *ℤ b) (product_fits t a b ha hb).0)

-- On lanes in range VMACC and VMADD return the exact sums `vd + vs1 * vs2` and `vs1 + vd * vs2` wrapped to the
-- lane type.
vmacc_lane_lem :
    (t : Lane) (vd a b : ℤ)
    → InRange (ctype t) vd
    → InRange (ctype t) a
    → InRange (ctype t) b
    → (vmacc_lane (ctype t) vd a b ≡ cast (ctype t) (vd +ℤ a *ℤ b))
      × (vmadd_lane (ctype t) vd a b ≡ cast (ctype t) (a +ℤ vd *ℤ b))
unfolding vmacc_lane vmadd_lane plus
vmacc_lane_lem t vd a b hv ha hb = (
  rw (cast_self_wide t vd (InRange-wide t vd hv), times_exact t a b ha hb)
      (Range.cast-cast-wide t (vd +ℤ a *ℤ b)),
  rw (cast_self_wide t a (InRange-wide t a ha), times_exact t vd b hv hb)
      (Range.cast-cast-wide t (a +ℤ vd *ℤ b)),
)

-- The rounding term of VMULH, half of the low part's modulus.
abbrev pub half_unit : Lane → Bool → ℤ
half_unit t round = if round then pos (2 ^ ((ctype t).bits - 1)) else pos 0

high_part :
    (t : Lane) (round : Bool) (z : ℤ)
    → IsProduct t z
    → (let wt = wide (ctype t) in
        let n = (ctype t).bits in
        cast
          (ctype t)
          (shr_ℤ (cast wt (plus wt z (if round then cast wt (pos (2 ^ (n - 1))) else pos 0))) n))
      ≡ shr_ℤ (z +ℤ half_unit t round) (ctype t).bits
unfolding cast plus ◌+ℤ◌ shr_ℤ
high_part i8 round z h = ground arith
high_part _ round z h = ground arith

-- On lanes in range VMULH returns the exact product, plus half a unit where it rounds, shifted down by the lane's
-- width; nothing wraps.
pub vmulh_helper_lem :
    (t : Lane) (round : Bool) (a b : ℤ)
    → InRange (ctype t) a
    → InRange (ctype t) b
    → vmulh_helper (ctype t) round a b ≡ shr_ℤ (a *ℤ b +ℤ half_unit t round) (ctype t).bits
unfolding vmulh_helper
vmulh_helper_lem t round a b ha hb =
    rw (product_exact t a b ha hb) (high_part t round (a *ℤ b) (*ℤ-IsProduct t a b ha hb))
