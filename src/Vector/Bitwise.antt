-- ===== src/Vector/Bitwise.antt =====
-- The lane functions of the bitwise operations of sim/coralnpu_vector_instructions.cc.
use coralnpu_mpact.Prelude.{ℕ, ◌-◌, ◌*◌, ◌/◌, ◌%◌, ◌^◌, ◌==◌, not}
use coralnpu_mpact.Prelude.{if◌then◌else◌, ℤ, pos, negsuc, ◌-ℤ◌}
use coralnpu_mpact.Prelude.{bit_and, bit_or, List, [], ◌∷◌}
use coralnpu_mpact.Scalar.{CType, size_of, modulus, pattern_of, promote}
use coralnpu_mpact.Scalar.{cast, bitwise_and, bitwise_or, bitwise_xor}

pub vand_lane : CType → ℤ → ℤ → ℤ
vand_lane t vs1 vs2 = cast t (bitwise_and t vs1 vs2)

pub vor_lane : CType → ℤ → ℤ → ℤ
vor_lane t vs1 vs2 = cast t (bitwise_or t vs1 vs2)

pub vxor_lane : CType → ℤ → ℤ → ℤ
vxor_lane t vs1 vs2 = cast t (bitwise_xor t vs1 vs2)

-- One rung of the ladder of VREV, on an unsigned pattern `r`:
-- `((r & low) << k) | ((r & high) >> k)`.
unfoldable pub rev_step : ℕ → ℕ → ℕ → ℕ → ℕ
rev_step low high k r = bit_or (bit_and r low * 2 ^ k) (bit_and r high / 2 ^ k)

-- `if (count & bit) r = ...`, stored in a lane of modulus `m`.
unfoldable pub rev_rung : ℕ → ℕ → ℕ → ℕ → ℕ → ℕ → ℕ
rev_rung m count bit low high r = if bit_and count bit == 0 then r else rev_step low high bit r % m

unfoldable pub rev_pattern : CType → ℕ → ℕ → ℕ
rev_pattern t count r =
    let m = modulus t in
    let r1 = rev_rung m count 1 0x55555555 0xAAAAAAAA r in
    let r2 = rev_rung m count 2 0x33333333 0xCCCCCCCC r1 in
    let r4 = rev_rung m count 4 0x0F0F0F0F 0xF0F0F0F0 r2 in
    let r8 = rev_rung m count 8 0x00FF00FF 0xFF00FF00 r4 in
    let r16 = rev_rung m count 16 0x0000FFFF 0xFFFF0000 r8 in
    if size_of t == 1 then r4 else if size_of t == 2 then r8 else r16

-- Generalized reverse; the lanes are unsigned.
unfoldable pub vrev_lane : CType → ℤ → ℤ → ℤ
vrev_lane t vs1 vs2 = pos (rev_pattern t (bit_and (pattern_of t vs2) 0b11111) (pattern_of t vs1))

-- One rung of the ladder of VROR on a lane of `bits` bits:
-- `r = (r >> shift) | (r << (bits - shift))`, stored in the lane.
unfoldable pub ror_step : ℕ → ℕ → ℕ → ℕ
ror_step bits shift r = bit_or (r / 2 ^ shift) (r * 2 ^ (bits - shift)) % 2 ^ bits

unfoldable pub ror_ladder : ℕ → ℕ → List ℕ → ℕ → ℕ
ror_ladder bits count [] r = r
ror_ladder bits count (shift ∷ shifts) r =
    ror_ladder bits count shifts (if bit_and count shift == 0 then r else ror_step bits shift r)

-- Cyclic rotation right; the lanes are unsigned.
unfoldable pub vror_lane : CType → ℤ → ℤ → ℤ
vror_lane t vs1 vs2 =
    let count = bit_and (pattern_of t vs2) (t.bits - 1) in
    pos (ror_ladder t.bits count (1 ∷ 2 ∷ 4 ∷ 8 ∷ 16 ∷ []) (pattern_of t vs1))

-- `~vs`
pub vnot_lane : CType → ℤ → ℤ
vnot_lane t vs = cast t (cast (promote t) (negsuc 0 -ℤ vs))

-- Count the leading bits that equal the sign bit. The arguments are `absl::countl_zero`,
-- `absl::countl_one` and `absl::popcount`, on a pattern of the lane's type.
unfoldable pub vclb_lane : (CType → ℕ → ℕ) → (CType → ℕ → ℕ) → CType → ℤ → ℤ
vclb_lane countl_zero countl_one t vs =
    let x = pattern_of t vs in
    cast t
      (pos (if not (bit_and x (2 ^ (t.bits - 1)) == 0) then countl_one t x else countl_zero t x))

unfoldable pub vclz_lane : (CType → ℕ → ℕ) → CType → ℤ → ℤ
vclz_lane countl_zero t vs = cast t (pos (countl_zero t (pattern_of t vs)))

unfoldable pub vcpop_lane : (CType → ℕ → ℕ) → CType → ℤ → ℤ
vcpop_lane popcount t vs = cast t (pos (popcount t (pattern_of t vs)))
