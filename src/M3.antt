-- ===== src/M3.antt =====
-- The conversions of bfloat16 of sim/coralnpu_m3_instructions.cc: those of one value here, those of
-- vectors in M3/Vectors.antt. The floating point state is there.
pub mod Vectors
pub mod Scalar
pub mod Lanes
use coralnpu_mpact.Prelude.{
  ℕ, ◌+◌, ◌*◌, ◌/◌, ◌%◌, ◌^◌, ◌==◌, ltb, ◌||◌, ◌&&◌, not, Bool, true, false,
}
use coralnpu_mpact.Prelude.{if◌then◌else◌, Option, none, some}
use coralnpu_mpact.Bfloat.{
  Flags, FpState, no_flags, or_flags, increment, is_nan16, is_nan32, is_quiet16, is_quiet32,
  invalid_if, k_box16, k_box32, k_canonical_nan32,
}

-- `BF16Info`
abbrev pub k_f32_to_bf16_shift : ℕ
k_f32_to_bf16_shift = 16

abbrev pub k_canonical_nan16 : ℕ
k_canonical_nan16 = 0x7FC0

-- `RoundBFloat16`: the pattern, and the flags that it adds.
unfoldable pub m3_round_bfloat16 : ℕ → ℕ → Option ℕ → ℕ × Flags
m3_round_bfloat16 bits inst_rm frm =
    let sign = bits / 2 ^ 31 % 2 == 1 in
    let lsb = bits / 2 ^ k_f32_to_bf16_shift % 2 == 1 in
    let guard_bit = bits / 2 ^ 15 % 2 == 1 in
    let sticky_bit = not (bits % 2 ^ 15 == 0) in
    let rm = if inst_rm == 7 then elim frm [ none ↦ 0 | some mode ↦ mode ] else inst_rm in
    let adds = (guard_bit || sticky_bit) && increment rm sign lsb guard_bit sticky_bit in
    let exp = bits / 2 ^ 23 % 2 ^ 8 in
    let res_bits =
      if adds then bits / 2 ^ k_f32_to_bf16_shift + 1 else bits / 2 ^ k_f32_to_bf16_shift in
    let overflows = adds && res_bits / 2 ^ 7 % 2 ^ 8 == 0xFF && not (exp == 0xFF) in
    (
      res_bits % 2 ^ 16,
      record {
        invalid_op = false;
        overflow = overflows;
        underflow = (guard_bit || sticky_bit) && res_bits / 2 ^ 7 % 2 ^ 8 == 0;
        inexact = guard_bit || sticky_bit || overflows;
      },
    )

-- `ConvertF32ToBF16`
unfoldable pub m3_convert_f32_to_bf16 : ℕ → ℕ → Option ℕ → ℕ × Flags
m3_convert_f32_to_bf16 bits rm_val frm =
    if is_nan32 bits
    then (k_canonical_nan16, invalid_if (not (is_quiet32 bits)))
    else m3_round_bfloat16 bits rm_val frm

-- `ConvertBF16ToF32Precise`
unfoldable pub convert_bf16_to_f32_precise : ℕ → ℕ × Flags
convert_bf16_to_f32_precise src_bits =
    if is_nan16 src_bits
    then (k_canonical_nan32, invalid_if (not (is_quiet16 src_bits)))
    else (src_bits * 2 ^ 16, no_flags)

-- What an instruction does: it traps as an illegal instruction, or writes its destination and the flags
-- that it raises.
pub data Outcome16 : Type 0 where
  illegal16 : Outcome16
  written16 : ℕ → Flags → Outcome16

-- `CoralNPUFcvtBf16S`, by the field `fs` of mstatus. The framework's GetNaNBoxedSource is an argument.
unfoldable pub coralnpu_fcvt_bf16_s : (ℕ → ℕ) → FpState → ℕ → ℕ → ℕ → Outcome16
coralnpu_fcvt_bf16_s get_nan_boxed_source fp fs rm_val fs1 =
    if fs == 0
    then illegal16
    else if ltb 4 rm_val && not (rm_val == 7)
    then illegal16
    else if rm_val == 7 && not fp.rounding_mode_valid
    then illegal16
    else (let rm = if rm_val == 7 then fp.rounding_mode else rm_val in
        let result = m3_convert_f32_to_bf16 (get_nan_boxed_source fs1) rm (some fp.rounding_mode) in
        written16 (k_box16 * 2 ^ 16 + result.0) result.1)

-- `FcvtSBf16`, which reads the low 32 bits of its register.
unfoldable pub fcvt_s_bf16 : ℕ → ℕ → ℕ → Outcome16
fcvt_s_bf16 fs rm_val fs1 =
    if fs == 0
    then illegal16
    else if not (rm_val == 0)
    then illegal16
    else (let src_bits = fs1 % 2 ^ 32 in
        let is_boxed = src_bits / 2 ^ 16 == 0xFFFF in
        let conv =
          if is_boxed
          then convert_bf16_to_f32_precise (src_bits % 2 ^ 16)
          else (k_canonical_nan32, no_flags) in
        written16 (k_box32 * 2 ^ 32 + conv.0) conv.1)
