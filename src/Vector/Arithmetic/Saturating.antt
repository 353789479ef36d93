-- ===== src/Vector/Arithmetic/Saturating.antt =====
-- The saturating additions and subtractions.
use coralnpu_mpact.Prelude.{◌≡◌, arith, ℤ, ◌+ℤ◌, ◌-ℤ◌, true, false}
use coralnpu_mpact.Scalar.{Lane, i8, i16, i32, u8, ctype, cast, plus, minus}
use coralnpu_mpact.Scalar.{InRange, saturate}
use coralnpu_mpact.Scalar.Sign.{negative-bitwise_xor}
use coralnpu_mpact.Vector.Arithmetic.{vadds_helper, vaddsu_helper, vsubs_helper, vsubsu_lane}

-- On unsigned lanes in range VADDSU returns the exact sum saturated to the lane type.
pub vaddsu_helper_lem :
    (t : Lane) (a b : ℤ)
    → (ctype t).is_signed ≡ false
    → InRange (ctype t) a
    → InRange (ctype t) b
    → vaddsu_helper (ctype t) a b ≡ saturate (ctype t) (a +ℤ b)
unfolding vaddsu_helper plus cast ◌+ℤ◌ saturate
vaddsu_helper_lem u8 a b s ha hb = ground arith
vaddsu_helper_lem _ a b s ha hb = ground arith

-- On unsigned lanes in range VSUBSU returns the exact difference saturated to the lane type.
pub vsubsu_lane_lem :
    (t : Lane) (a b : ℤ)
    → (ctype t).is_signed ≡ false
    → InRange (ctype t) a
    → InRange (ctype t) b
    → vsubsu_lane (ctype t) a b ≡ saturate (ctype t) (a -ℤ b)
unfolding vsubsu_lane minus cast ◌-ℤ◌ saturate
vsubsu_lane_lem u8 a b s ha hb = ground arith
vsubsu_lane_lem _ a b s ha hb = ground arith

-- On signed lanes in range VADDS returns the exact sum saturated to the lane type: the signs of the
-- exclusive ors find exactly the overflows.
pub vadds_helper_lem :
    (t : Lane) (a b : ℤ)
    → (ctype t).is_signed ≡ true
    → InRange (ctype t) a
    → InRange (ctype t) b
    → vadds_helper (ctype t) a b ≡ saturate (ctype t) (a +ℤ b)
unfolding vadds_helper plus cast ◌+ℤ◌ saturate
vadds_helper_lem i8 a b s ha hb =
    ground
      (arith, negative-bitwise_xor i8 a b, negative-bitwise_xor i8 (cast (ctype i8) (a +ℤ b)) a)
vadds_helper_lem i16 a b s ha hb =
    ground
      (arith, negative-bitwise_xor i16 a b, negative-bitwise_xor i16 (cast (ctype i16) (a +ℤ b)) a)
vadds_helper_lem i32 a b s ha hb =
    ground
      (arith, negative-bitwise_xor i32 a b, negative-bitwise_xor i32 (cast (ctype i32) (a +ℤ b)) a)
vadds_helper_lem _ a b s ha hb = cc

-- On signed lanes in range VSUBS returns the exact difference saturated to the lane type.
pub vsubs_helper_lem :
    (t : Lane) (a b : ℤ)
    → (ctype t).is_signed ≡ true
    → InRange (ctype t) a
    → InRange (ctype t) b
    → vsubs_helper (ctype t) a b ≡ saturate (ctype t) (a -ℤ b)
unfolding vsubs_helper minus cast ◌-ℤ◌ saturate
vsubs_helper_lem i8 a b s ha hb =
    ground
      (arith, negative-bitwise_xor i8 a b, negative-bitwise_xor i8 (cast (ctype i8) (a -ℤ b)) b)
vsubs_helper_lem i16 a b s ha hb =
    ground
      (arith, negative-bitwise_xor i16 a b, negative-bitwise_xor i16 (cast (ctype i16) (a -ℤ b)) b)
vsubs_helper_lem i32 a b s ha hb =
    ground
      (arith, negative-bitwise_xor i32 a b, negative-bitwise_xor i32 (cast (ctype i32) (a -ℤ b)) b)
vsubs_helper_lem _ a b s ha hb = cc

-- On unsigned lanes in range VADDSU returns the exact sum and VSUBSU the exact difference, saturated
-- to the lane type.
unsigned_saturating :
    (t : Lane) (a b : ℤ)
    → (ctype t).is_signed ≡ false
    → InRange (ctype t) a
    → InRange (ctype t) b
    → (vaddsu_helper (ctype t) a b ≡ saturate (ctype t) (a +ℤ b))
      × (vsubsu_lane (ctype t) a b ≡ saturate (ctype t) (a -ℤ b))
unsigned_saturating t a b s ha hb = (vaddsu_helper_lem t a b s ha hb, vsubsu_lane_lem t a b s ha hb)
