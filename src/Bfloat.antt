-- ===== src/Bfloat.antt =====
-- The conversions between float and bfloat16, on bit patterns: RoundBFloat16, Fcvtsbf16 and Fcvtbf16s
-- of sim/coralnpu_instructions.cc, and the lanes of the vector conversions of
-- sim/coralnpu_vector_instructions.cc.
pub mod Rounding
pub mod Boxed
pub mod Overrides
pub mod Agreement
pub mod Vectors
use coralnpu_mpact.Prelude.{
  ℕ, ◌+◌, ◌*◌, ◌/◌, ◌%◌, ◌^◌, ◌==◌, leb, ◌||◌, ◌&&◌, not, Bool, true, false,
}
use coralnpu_mpact.Prelude.{if◌then◌else◌, Option, none, some}

-- The flags of `FPExceptions` that the conversions raise.
pub record Flags : Type 0 where
  pub invalid_op : Bool
  pub overflow : Bool
  pub underflow : Bool
  pub inexact : Bool

abbrev pub no_flags : Flags
no_flags = record { invalid_op = false; overflow = false; underflow = false; inexact = false }

-- `RiscVFPState`: `GetRoundingMode()`, `rounding_mode_valid()` and `fflags()`. The rounding modes are
-- numbered as in the instruction: to nearest, towards zero, down, up, to nearest with ties to max.
pub record FpState : Type 0 where
  pub rounding_mode : ℕ
  pub rounding_mode_valid : Bool
  pub fflags : Flags

-- `*fflags |= ...`
abbrev pub or_flags : Flags → Flags → Flags
or_flags a b = record {
  invalid_op = a.invalid_op || b.invalid_op;
  overflow = a.overflow || b.overflow;
  underflow = a.underflow || b.underflow;
  inexact = a.inexact || b.inexact;
}

-- Whether rounding adds one, by the sign, the lowest bit kept, and the guard and sticky bits.
unfoldable pub increment : ℕ → Bool → Bool → Bool → Bool → Bool
increment rm sign l g s =
    if rm == 0
    then g && (l || s)
    else if rm == 2
    then sign && (g || s)
    else if rm == 3
    then not sign && (g || s)
    else if rm == 4
    then g
    else false

-- `RoundBFloat16`: the pattern of 16 bits, and the flags. Without a state, the mode 7 rounds to
-- nearest.
unfoldable pub round_bfloat16 : ℕ → ℕ → Option ℕ → Flags → ℕ × Flags
round_bfloat16 bits inst_rm frm fflags =
    let sign = bits / 2 ^ 31 % 2 == 1 in
    let l = bits / 2 ^ 16 % 2 == 1 in
    let g = bits / 2 ^ 15 % 2 == 1 in
    let s = not (bits % 2 ^ 15 == 0) in
    let rm = if inst_rm == 7 then elim frm [ none ↦ 0 | some mode ↦ mode ] else inst_rm in
    let adds = (g || s) && increment rm sign l g s in
    let exp = bits / 2 ^ 23 % 2 ^ 8 in
    let res_bits = if adds then bits / 2 ^ 16 + 1 else bits / 2 ^ 16 in
    let overflows = adds && res_bits / 2 ^ 7 % 2 ^ 8 == 255 && not (exp == 255) in
    (
      res_bits % 2 ^ 16,
      or_flags fflags (record {
        invalid_op = false;
        overflow = overflows;
        underflow = false;
        inexact = g || s || overflows;
      }),
    )

-- A NaN of 32 bits, and a signaling one.
unfoldable pub is_nan32 : ℕ → Bool
is_nan32 bits = bits / 2 ^ 23 % 2 ^ 8 == 255 && not (bits % 2 ^ 23 == 0)

abbrev pub is_quiet32 : ℕ → Bool
is_quiet32 bits = bits / 2 ^ 22 % 2 == 1

unfoldable pub is_nan16 : ℕ → Bool
is_nan16 bits = bits / 2 ^ 7 % 2 ^ 8 == 255 && not (bits % 2 ^ 7 == 0)

abbrev pub is_quiet16 : ℕ → Bool
is_quiet16 bits = bits / 2 ^ 6 % 2 == 1

abbrev pub k_canonical_nan32 : ℕ
k_canonical_nan32 = 0x7FC00000

-- The flags of a signaling NaN.
abbrev pub invalid_if : Bool → Flags
invalid_if c = record { invalid_op = c; overflow = false; underflow = false; inexact = false }

-- `ConvertF32ToBF16`, with the dynamic rounding mode.
unfoldable pub convert_f32_to_bf16 : ℕ → Option ℕ → Flags → ℕ × Flags
convert_f32_to_bf16 bits frm fflags =
    if is_nan32 bits
    then round_bfloat16 k_canonical_nan32 7 frm
        (or_flags fflags (invalid_if (not (is_quiet32 bits))))
    else round_bfloat16 bits 7 frm fflags

-- What an instruction does: it traps as an illegal instruction, or writes its destination and the flags.
pub data Converted : Type 0 where
  illegal : Converted
  written : ℕ → Flags → Converted

-- The checks of the rounding mode.
unfoldable pub with_mode : Option FpState → ℕ → (FpState → Converted) → Converted
with_mode none inst_rm converts = illegal
with_mode (some fp_state) inst_rm converts =
    if inst_rm == 5 || inst_rm == 6
    then illegal
    else if inst_rm == 7 && not fp_state.rounding_mode_valid
    then illegal
    else converts fp_state

-- The high bits of a boxed value of 16 or 32 bits, all ones.
abbrev pub k_box16 : ℕ
k_box16 = 0xFFFFFFFFFFFF

abbrev pub k_box32 : ℕ
k_box32 = 0xFFFFFFFF

-- `Fcvtsbf16`, from the register `rs1` of 64 bits.
unfoldable pub fcvtsbf16 : Option FpState → ℕ → ℕ → Converted
fcvtsbf16 fp_state inst_rm rs1 = with_mode fp_state inst_rm (λ fp.
    (let src_bits = rs1 % 2 ^ 16 in
      if not (rs1 / 2 ^ 16 == k_box16)
      then written (k_box32 * 2 ^ 32 + k_canonical_nan32) fp.fflags
      else if is_nan16 src_bits
      then written (k_box32 * 2 ^ 32 + k_canonical_nan32)
          (or_flags fp.fflags (invalid_if (not (is_quiet16 src_bits))))
      else written (k_box32 * 2 ^ 32 + src_bits * 2 ^ 16) fp.fflags))

-- The source of `Fcvtbf16s`: a value that is not boxed and a NaN are the canonical NaN.
unfoldable pub unboxed : ℕ → ℕ × Flags
unboxed rs1 =
    let bits = rs1 % 2 ^ 32 in
    if not (rs1 / 2 ^ 32 == k_box32)
    then (k_canonical_nan32, no_flags)
    else if is_nan32 bits
    then (k_canonical_nan32, invalid_if (not (is_quiet32 bits)))
    else (bits, no_flags)

-- `Fcvtbf16s`, from the register of 64 bits.
unfoldable pub fcvtbf16s : Option FpState → ℕ → ℕ → Converted
fcvtbf16s fp_state inst_rm rs1 = with_mode fp_state inst_rm (λ fp.
    (let source = unboxed rs1 in
      let result = round_bfloat16 source.0 inst_rm (some fp.rounding_mode) source.1 in
      written (k_box16 * 2 ^ 16 + result.0) (or_flags fp.fflags result.1)))
