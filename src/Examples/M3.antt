-- ===== src/Examples/M3.antt =====
-- The theorems on the M3 conversions, at concrete operands.
use coralnpu_mpact.Prelude.{
  ℕ, ◌+◌, ◌*◌, ◌/◌, ◌≡◌, refl, arith, true, false, some, codes, if◌then◌else◌,
}
use coralnpu_mpact.Bfloat.{FpState, no_flags}
use coralnpu_mpact.Bfloat.Boxed.{box32}
use coralnpu_mpact.Bfloat.Agreement.{float_of}
use coralnpu_mpact.Bfloat.Overrides.{m3_fcvt_bf16_s, m3_fcvt_s_bf16}
use coralnpu_mpact.Bfloat.Vectors.{any_from}
use coralnpu_mpact.M3.{
  m3_convert_f32_to_bf16, convert_bf16_to_f32_precise, coralnpu_fcvt_bf16_s, fcvt_s_bf16,
}
use coralnpu_mpact.M3.Scalar.{
  outcome_of, coralnpu_fcvt_bf16_s-m3_fcvt_bf16_s, fcvt_s_bf16-m3_fcvt_s_bf16,
}
use coralnpu_mpact.M3.Vectors.{
  VectorOperands, CoreState, overlaps, m3_vfwcvtbf16ffv, m3_vfncvtbf16ffw,
}
use coralnpu_mpact.M3.Lanes.{is_active, conversions_written}

abbrev down : FpState
down = record { rounding_mode = 2; rounding_mode_valid = true; fflags = no_flags }

coralnpu_fcvt_bf16_s-m3_fcvt_bf16_s_example :
    coralnpu_fcvt_bf16_s float_of down 1 7 (box32 0xBF80C001)
    ≡ outcome_of (m3_fcvt_bf16_s float_of (some down) 1 7 (box32 0xBF80C001))
coralnpu_fcvt_bf16_s-m3_fcvt_bf16_s_example =
    coralnpu_fcvt_bf16_s-m3_fcvt_bf16_s float_of down 1 7 (box32 0xBF80C001) (omega arith)
      (omega arith)

fcvt_s_bf16-m3_fcvt_s_bf16_example :
    fcvt_s_bf16 1 0 (box32 0xFFFF7F81)
    ≡ outcome_of (m3_fcvt_s_bf16 (some down) 1 0 (box32 0xFFFF7F81))
fcvt_s_bf16-m3_fcvt_s_bf16_example = fcvt_s_bf16-m3_fcvt_s_bf16 down 1 0 (box32 0xFFFF7F81) refl

-- Two destination registers from one source, masked.
abbrev vector_operands : VectorOperands
vector_operands = record {
  has_operands = true;
  vd_size = 2;
  vs2_size = 1;
  dest_reg = λ i. 2 + i;
  src_reg = λ j. 4 + j;
  vm_name = some (codes "v0");
  mask_span = λ b. 0xAA;
}

abbrev core_state : CoreState
core_state = record {
  fs = 1;
  vs = 1;
  fp = down;
  vector_length = 12;
  vstart = 2;
  vector_register_byte_length = 32;
  vd = λ r i. 7;
}

apart : overlaps vector_operands ≡ false
unfolding overlaps any_from
apart = refl

abbrev patterns : ℕ → ℕ
patterns k = 0x3F80 + k

conversions_written_example :
    (let t = 1 * (32 / 4) + 3 in
      (w : CoreState) × (m3_vfwcvtbf16ffv vector_operands core_state patterns ≡ some w)
      × (w.vstart ≡ 0)
      × (w.vd 1 3 ≡ (
          if is_active vector_operands core_state t
          then (convert_bf16_to_f32_precise (patterns t)).0
          else 7)))
    × (let t = 1 * (32 / 2) + 9 in
        (w : CoreState) × (m3_vfncvtbf16ffw vector_operands core_state patterns ≡ some w)
        × (w.vstart ≡ 0)
        × (w.vd 1 9 ≡ (
            if is_active vector_operands core_state t
            then (m3_convert_f32_to_bf16 (patterns t) 2 (some 2)).0
            else 7)))
conversions_written_example =
    conversions_written vector_operands core_state patterns 1 3 9 (omega arith) (omega arith) refl
      refl apart (omega arith) (omega arith)
