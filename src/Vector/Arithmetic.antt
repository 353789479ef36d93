-- ===== src/Vector/Arithmetic.antt =====
-- The lane functions of the additions, subtractions, comparisons, halving and widening
-- operations of sim/coralnpu_vector_instructions.cc, over the arithmetic type `t` of a lane.
pub mod Wrapping
pub mod Saturating
pub mod Halving
use coralnpu_mpact.Prelude.{Bool, true, false, not, ◌&&◌, if◌then◌else◌}
use coralnpu_mpact.Prelude.{ℤ, pos, ltb_ℤ, leb_ℤ, shr_ℤ}
use coralnpu_mpact.Scalar.{CType, make_unsigned, wide, max_limit, min_limit, of_bool, eqb_ℤ}
use coralnpu_mpact.Scalar.{cast, plus, minus, bitwise_xor, std_max, std_min}

pub vadd_lane : CType → ℤ → ℤ → ℤ
vadd_lane t vs1 vs2 =
    let ut = make_unsigned t in
    let uvs1 = cast ut vs1 in let uvs2 = cast ut vs2 in cast t (plus ut uvs1 uvs2)

pub vsub_lane : CType → ℤ → ℤ → ℤ
vsub_lane t vs1 vs2 =
    let ut = make_unsigned t in
    let uvs1 = cast ut vs1 in let uvs2 = cast ut vs2 in cast t (minus ut uvs1 uvs2)

pub vrsub_lane : CType → ℤ → ℤ → ℤ
vrsub_lane t vs1 vs2 =
    let ut = make_unsigned t in
    let uvs1 = cast ut vs1 in let uvs2 = cast ut vs2 in cast t (minus ut uvs2 uvs1)

pub veq_lane : ℤ → ℤ → ℤ
veq_lane vs1 vs2 = of_bool (eqb_ℤ vs1 vs2)

pub vne_lane : ℤ → ℤ → ℤ
vne_lane vs1 vs2 = of_bool (not (eqb_ℤ vs1 vs2))

pub vlt_lane : ℤ → ℤ → ℤ
vlt_lane vs1 vs2 = of_bool (ltb_ℤ vs1 vs2)

pub vle_lane : ℤ → ℤ → ℤ
vle_lane vs1 vs2 = of_bool (leb_ℤ vs1 vs2)

pub vgt_lane : ℤ → ℤ → ℤ
vgt_lane vs1 vs2 = of_bool (ltb_ℤ vs2 vs1)

pub vge_lane : ℤ → ℤ → ℤ
vge_lane vs1 vs2 = of_bool (leb_ℤ vs2 vs1)

-- The result has the unsigned type of the lane's width.
pub vabsd_lane : CType → ℤ → ℤ → ℤ
vabsd_lane t vs1 vs2 =
    let ut = make_unsigned t in
    let uvs1 = cast ut vs1 in
    let uvs2 = cast ut vs2 in
    cast ut (if ltb_ℤ vs2 vs1 then minus ut uvs1 uvs2 else minus ut uvs2 uvs1)

pub vmax_lane : ℤ → ℤ → ℤ
vmax_lane vs1 vs2 = std_max vs1 vs2

pub vmin_lane : ℤ → ℤ → ℤ
vmin_lane vs1 vs2 = std_min vs1 vs2

pub vadd3_lane : CType → ℤ → ℤ → ℤ → ℤ
vadd3_lane t vd vs1 vs2 =
    let ut = make_unsigned t in
    let uvs1 = cast ut vs1 in
    let uvs2 = cast ut vs2 in let uvd = cast ut vd in cast t (plus ut (plus ut uvd uvs1) uvs2)

-- Saturated signed addition: overflow shows in the signs of the operands and of the sum.
pub vadds_helper : CType → ℤ → ℤ → ℤ
vadds_helper t vs1 vs2 =
    let ut = make_unsigned t in
    let uvs1 = cast ut vs1 in
    let uvs2 = cast ut vs2 in
    let usum = cast ut (plus ut uvs1 uvs2) in
    let sum = cast t usum in
    if leb_ℤ (pos 0) (bitwise_xor t vs1 vs2) && ltb_ℤ (bitwise_xor t sum vs1) (pos 0)
    then (if ltb_ℤ (pos 0) vs1 then max_limit t else min_limit t)
    else sum

-- Saturated unsigned addition.
pub vaddsu_helper : CType → ℤ → ℤ → ℤ
vaddsu_helper t vs1 vs2 =
    let sum = cast t (plus t vs1 vs2) in if ltb_ℤ sum vs1 then max_limit t else sum

-- Saturated signed subtraction.
pub vsubs_helper : CType → ℤ → ℤ → ℤ
vsubs_helper t vs1 vs2 =
    let ut = make_unsigned t in
    let uvs1 = cast ut vs1 in
    let uvs2 = cast ut vs2 in
    let usub = cast ut (minus ut uvs1 uvs2) in
    let sub = cast t usub in
    if ltb_ℤ (bitwise_xor t vs1 vs2) (pos 0) && leb_ℤ (pos 0) (bitwise_xor t sub vs2)
    then (if ltb_ℤ vs2 (pos 0) then max_limit t else min_limit t)
    else sub

pub vsubsu_lane : CType → ℤ → ℤ → ℤ
vsubsu_lane t vs1 vs2 = cast t (if ltb_ℤ vs1 vs2 then pos 0 else minus t vs1 vs2)

-- Widening: `td` is the destination's type.
pub vaddw_lane : CType → ℤ → ℤ → ℤ
vaddw_lane td vs1 vs2 = cast td (plus td (cast td vs1) (cast td vs2))

pub vsubw_lane : CType → ℤ → ℤ → ℤ
vsubw_lane td vs1 vs2 = cast td (minus td (cast td vs1) (cast td vs2))

pub vacc_lane : CType → ℤ → ℤ → ℤ
vacc_lane td vs1 vs2 =
    let utd = make_unsigned td in cast td (plus utd (cast utd vs1) (cast utd vs2))

-- The lane functions of the additions and subtractions of lane pairs.
pub vpadd_lane : CType → ℤ → ℤ → ℤ
vpadd_lane td vs1 vs2 = cast td (plus td (cast td vs1) (cast td vs2))

pub vpsub_lane : CType → ℤ → ℤ → ℤ
vpsub_lane td vs1 vs2 = cast td (minus td (cast td vs1) (cast td vs2))

-- Halving addition and subtraction with an optional rounding bit, in the wide type.
pub vhadd_helper : CType → Bool → ℤ → ℤ → ℤ
vhadd_helper t round vs1 vs2 =
    let wt = wide t in
    cast t (shr_ℤ (plus wt (plus wt (cast wt vs1) (cast wt vs2)) (of_bool round)) 1)

pub vhsub_helper : CType → Bool → ℤ → ℤ → ℤ
vhsub_helper t round vs1 vs2 =
    let wt = wide t in
    cast t (shr_ℤ (plus wt (minus wt (cast wt vs1) (cast wt vs2)) (of_bool round)) 1)
