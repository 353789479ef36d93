-- ===== src/Vector/Multiply.antt =====
-- The lane functions of the multiplications of sim/coralnpu_vector_instructions.cc.
pub mod Exact
pub mod Doubling
use coralnpu_mpact.Prelude.{ℕ, ◌-◌, ◌^◌, Bool, ◌&&◌, if◌then◌else◌}
use coralnpu_mpact.Prelude.{ℤ, pos, negsuc, ltb_ℤ, shr_ℤ}
use coralnpu_mpact.Scalar.{CType, wide, max_limit, min_limit, eqb_ℤ}
use coralnpu_mpact.Scalar.{cast, plus, times, std_max, std_min}

pub vmul_lane : CType → ℤ → ℤ → ℤ
vmul_lane t vs1 vs2 = let wt = wide t in cast t (times wt (cast wt vs1) (cast wt vs2))

-- The product in the wide type, clamped to the lane's limits.
pub vmuls_lane : CType → ℤ → ℤ → ℤ
vmuls_lane t vs1 vs2 =
    let wt = wide t in
    let result = cast wt (times wt (cast wt vs1) (cast wt vs2)) in
    if t.is_signed
    then cast t (std_max (cast wt (min_limit t)) (std_min (cast wt (max_limit t)) result))
    else cast t (std_min (cast wt (max_limit t)) result)

-- Widening: `td` is the destination's type.
pub vmulw_lane : CType → ℤ → ℤ → ℤ
vmulw_lane td vs1 vs2 = cast td (times td (cast td vs1) (cast td vs2))

-- The high half of the product, with optional rounding.
pub vmulh_helper : CType → Bool → ℤ → ℤ → ℤ
vmulh_helper t round vs1 vs2 =
    let wt = wide t in
    let n = t.bits in
    let product = cast wt (times wt (cast wt vs1) (cast wt vs2)) in
    let result = cast wt (plus wt product (if round then cast wt (pos (2 ^ (n - 1))) else pos 0)) in
    cast t (shr_ℤ result n)

-- The rounding term of the doubling multiply: `0x40000000ll >> (32 - n)`, or the shifted
-- `-0x40000000ll` where the product is negative and `round_neg` is set.
pub vdmulh_rounding : CType → Bool → ℤ → ℤ
vdmulh_rounding t round_neg result =
    let wt = wide t in
    if ltb_ℤ result (pos 0) && round_neg
    then cast wt (shr_ℤ (negsuc 0x3fffffff) (32 - t.bits))
    else cast wt (shr_ℤ (pos 0x40000000) (32 - t.bits))

-- Saturating doubling multiply, high half.
pub vdmulh_helper : CType → Bool → Bool → ℤ → ℤ → ℤ
vdmulh_helper t round round_neg vs1 vs2 =
    let wt = wide t in
    let n = t.bits in
    let product = cast wt (times wt (cast wt vs1) (cast wt vs2)) in
    let rounded =
      if round then cast wt (plus wt product (vdmulh_rounding t round_neg product)) else product in
    let result = shr_ℤ rounded (n - 1) in
    cast t (if eqb_ℤ vs1 (min_limit t) && eqb_ℤ vs2 (min_limit t) then max_limit t else result)

-- Multiply accumulate: `vd + vs1 * vs2`.
pub vmacc_lane : CType → ℤ → ℤ → ℤ → ℤ
vmacc_lane t vd vs1 vs2 =
    let wt = wide t in cast t (plus wt (cast wt vd) (times wt (cast wt vs1) (cast wt vs2)))

-- Multiply add: `vs1 + vd * vs2`.
pub vmadd_lane : CType → ℤ → ℤ → ℤ → ℤ
vmadd_lane t vd vs1 vs2 =
    let wt = wide t in cast t (plus wt (cast wt vs1) (times wt (cast wt vd) (cast wt vs2)))
