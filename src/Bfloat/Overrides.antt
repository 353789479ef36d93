-- ===== src/Bfloat/Overrides.antt =====
-- The conversions of the M3 core, sim/coralnpu_m3_zfbfmin_overrides.cc.
use coralnpu_mpact.Prelude.{ℕ, ◌+◌, ◌*◌, ◌/◌, ◌%◌, ◌^◌, ◌==◌, ltb, ◌||◌, ◌&&◌, not}
use coralnpu_mpact.Prelude.{Bool, true, false, if◌then◌else◌, Option, none, some}
use coralnpu_mpact.Bfloat.{
  Flags, FpState, no_flags, invalid_if, increment, is_nan16, is_nan32, is_quiet16, is_quiet32,
  k_box16, k_box32, k_canonical_nan32,
}

-- What an instruction of the M3 core does: it traps as an illegal instruction, or writes its
-- destination, the flags that it raises, and the field `fs` of mstatus.
pub data M3Converted : Type 0 where
  m3_illegal : M3Converted
  m3_written : ℕ → Flags → ℕ → M3Converted

-- The flags of the rounding: those of the exponents before and after it, by whether it is inexact.
unfoldable pub exponent_flags : Bool → ℕ → ℕ → Flags
exponent_flags inexact exp_before exp_after =
    if ltb exp_before 0xFF && exp_after == 0xFF
    then record { invalid_op = false; overflow = true; underflow = false; inexact = true }
    else record {
      invalid_op = false;
      overflow = false;
      underflow = exp_after == 0 && inexact;
      inexact = inexact;
    }

-- The pattern of a float that is no NaN, rounded.
unfoldable pub m3_round : ℕ → ℕ → ℕ × Flags
m3_round rm f_u =
    let r_bit = f_u / 2 ^ 15 % 2 == 1 in
    let s_bit = not (f_u % 2 ^ 15 == 0) in
    let adds = increment rm (not (f_u / 2 ^ 31 == 0)) (f_u / 2 ^ 16 % 2 == 1) r_bit s_bit in
    let upper = if adds then f_u / 2 ^ 16 + 1 else f_u / 2 ^ 16 in
    (upper % 2 ^ 16, exponent_flags (r_bit || s_bit) (f_u / 2 ^ 23 % 2 ^ 8) (upper / 2 ^ 7 % 2 ^ 8))

unfoldable pub m3_converted : ℕ → ℕ → ℕ × Flags
m3_converted rm f_u =
    if is_nan32 f_u then (0x7FC0, invalid_if (not (is_quiet32 f_u))) else m3_round rm f_u

-- The rounding mode of the instruction, by its own and the dynamic one; `none` traps.
unfoldable pub m3_mode : FpState → ℕ → Option ℕ
m3_mode fp inst_rm =
    if inst_rm == 7 && not fp.rounding_mode_valid
    then none
    else let rm = if inst_rm == 7 then fp.rounding_mode else inst_rm in
      if rm == 5 || rm == 6 || ltb 7 rm then none else some rm

-- The framework's GetNaNBoxedSource.
module _ (get_nan_boxed_source : ℕ → ℕ) where
  -- `CoralNPUM3ZfbfminFcvtBf16S`, with the field `fs` of mstatus.
  unfoldable pub m3_fcvt_bf16_s : Option FpState → ℕ → ℕ → ℕ → M3Converted
  m3_fcvt_bf16_s none fs inst_rm frs1 = m3_illegal
  m3_fcvt_bf16_s (some fp) fs inst_rm frs1 =
      if fs == 0 then m3_illegal else elim (m3_mode fp inst_rm) [
        | none ↦ m3_illegal
        | some rm ↦
            let result = m3_converted rm (get_nan_boxed_source frs1) in
            m3_written (k_box16 * 2 ^ 16 + result.0) result.1 3
      ]

-- `CoralNPUM3ZfbfminFcvtSBf16`
unfoldable pub m3_fcvt_s_bf16 : Option FpState → ℕ → ℕ → ℕ → M3Converted
m3_fcvt_s_bf16 none fs rm frs1 = m3_illegal
m3_fcvt_s_bf16 (some fp) fs rm frs1 =
    if fs == 0
    then m3_illegal
    else if not (rm == 0)
    then m3_illegal
    else let is_nan_boxed = frs1 / 2 ^ 16 == k_box16 in
      let bf16_val = frs1 % 2 ^ 16 in
      let is_nan = is_nan16 bf16_val in
      if not is_nan_boxed || is_nan
      then m3_written (k_box32 * 2 ^ 32 + k_canonical_nan32)
          (invalid_if (is_nan_boxed && is_nan && not (is_quiet16 bf16_val))) 3
      else m3_written (k_box32 * 2 ^ 32 + bf16_val * 2 ^ 16) no_flags 3
