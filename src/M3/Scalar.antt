-- ===== src/M3/Scalar.antt =====
-- The conversions of one value of sim/coralnpu_m3_instructions.cc against the overrides of
-- sim/coralnpu_m3_zfbfmin_overrides.cc.
use coralnpu_mpact.Prelude.{
  ℕ, ◌+◌, ◌*◌, ◌/◌, ◌%◌, ◌^◌, ◌==◌, ◌<◌, ◌≤◌, ◌≡◌, ◌≢◌, refl, sym, ap, ap₂, ◌∙◌, arith, ltb, ◌||◌,
  ◌&&◌, not,
}
use coralnpu_mpact.Prelude.{true, false, Bool-cases, inl, inr, if◌then◌else◌, none, some}
use coralnpu_mpact.Bfloat.{
  FpState, no_flags, is_nan16, is_nan32, round_bfloat16, increment, k_box16, k_box32,
}
use coralnpu_mpact.Bfloat.Overrides.{
  M3Converted, m3_illegal, m3_written, m3_round, m3_converted, m3_mode, m3_fcvt_bf16_s,
  m3_fcvt_s_bf16,
}
use coralnpu_mpact.Bfloat.Rounding.{absorbed}
use coralnpu_mpact.Bfloat.Agreement.{after_agrees, with_underflow, m3_round_lem}
use coralnpu_mpact.M3.{
  m3_round_bfloat16, m3_convert_f32_to_bf16, Outcome16, illegal16, written16, coralnpu_fcvt_bf16_s,
  fcvt_s_bf16, convert_bf16_to_f32_precise,
}

-- Both RoundBFloat16 agree but for the underflow.
round_lem :
    (bits rm d : ℕ)
    → (let result = round_bfloat16 bits rm (some d) no_flags in
        m3_round_bfloat16 bits rm (some d) ≡ (result.0, with_underflow result))
unfolding m3_round_bfloat16 round_bfloat16
round_lem bits rm d =
    let g = bits / 2 ^ 15 % 2 == 1 in
    let s = not (bits % 2 ^ 15 == 0) in
    let mode = if rm == 7 then d else rm in
    let a = increment mode (bits / 2 ^ 31 % 2 == 1) (bits / 2 ^ 16 % 2 == 1) g s in
    let adds = (g || s) && a in
    let res_bits = if adds then bits / 2 ^ 16 + 1 else bits / 2 ^ 16 in
    let full = res_bits / 2 ^ 7 % 2 ^ 8 == 0xFF in
    let finite = not (bits / 2 ^ 23 % 2 ^ 8 == 0xFF) in
    let overflows = adds && full && finite in
    ap
      (λ u. (
        res_bits % 2 ^ 16,
        record {
          invalid_op = false;
          overflow = overflows;
          underflow = u;
          inexact = g || s || overflows;
        },
      ))
      (ap₂ (λ u z. u && z == 0) (sym (absorbed g s a full finite)) (sym (after_agrees res_bits)))

convert_lem :
    (bits rm d : ℕ)
    → bits < 2 ^ 32
    → rm ≢ 7
    → m3_convert_f32_to_bf16 bits rm (some d) ≡ m3_converted rm bits
unfolding m3_convert_f32_to_bf16 m3_converted
convert_lem bits rm d h k =
    let own : (if rm == 7 then d else rm) ≡ rm = ground (arith, k) in
    elim (Bool-cases (is_nan32 bits)) [
      | inl n ↦ rw n refl
      | inr n ↦
          rw n
            (round_lem bits rm d ∙ sym (m3_round_lem bits rm d h) ∙ ap (λ m. m3_round m bits) own)
    ]

-- The outcome without the state of the unit.
abbrev pub outcome_of : M3Converted → Outcome16
outcome_of m3_illegal = illegal16
outcome_of (m3_written result fflags fs) = written16 result fflags

mode_illegal :
    (fp : FpState) (rm : ℕ)
    → fp.rounding_mode ≤ 4
    → (ltb 4 rm && not (rm == 7)) ≡ true
    → m3_mode fp rm ≡ none
unfolding m3_mode
mode_illegal fp rm k h = ground (arith, h)

mode_invalid :
    (fp : FpState) (rm : ℕ) → (rm == 7 && not fp.rounding_mode_valid) ≡ true → m3_mode fp rm ≡ none
unfolding m3_mode
mode_invalid fp rm h = rw h refl

mode_legal :
    (fp : FpState) (rm : ℕ)
    → fp.rounding_mode ≤ 4
    → (ltb 4 rm && not (rm == 7)) ≡ false
    → (rm == 7 && not fp.rounding_mode_valid) ≡ false
    → (m3_mode fp rm ≡ some (if rm == 7 then fp.rounding_mode else rm))
      × ((if rm == 7 then fp.rounding_mode else rm) ≢ 7)
unfolding m3_mode
mode_legal fp rm k h l = (ground (arith, h, l), ground (arith, h))

-- Where the dynamic mode is a legal one and GetNaNBoxedSource returns a pattern of 32 bits, the
-- conversion to bfloat16 traps exactly when the override does, and else writes the same register and
-- raises the same flags.
pub coralnpu_fcvt_bf16_s-m3_fcvt_bf16_s :
    (get_nan_boxed_source : ℕ → ℕ) (fp : FpState) (fs rm fs1 : ℕ)
    → get_nan_boxed_source fs1 < 2 ^ 32
    → fp.rounding_mode ≤ 4
    → coralnpu_fcvt_bf16_s get_nan_boxed_source fp fs rm fs1
      ≡ outcome_of (m3_fcvt_bf16_s get_nan_boxed_source (some fp) fs rm fs1)
unfolding coralnpu_fcvt_bf16_s m3_fcvt_bf16_s
coralnpu_fcvt_bf16_s-m3_fcvt_bf16_s get fp fs rm fs1 h k = elim (Bool-cases (fs == 0)) [
  | inl off ↦ rw off refl
  | inr on ↦ elim (Bool-cases (ltb 4 rm && not (rm == 7))) [
    | inl e ↦ rw (on, e, mode_illegal fp rm k e) refl
    | inr e ↦ elim (Bool-cases (rm == 7 && not fp.rounding_mode_valid)) [
      | inl i ↦ rw (on, e, i, mode_invalid fp rm i) refl
      | inr i ↦
          let m = mode_legal fp rm k e i in
          rw (on, e, i, m.0)
            (ap (λ r. written16 (k_box16 * 2 ^ 16 + r.0) r.1)
              (convert_lem (get fs1) (if rm == 7 then fp.rounding_mode else rm) fp.rounding_mode h
                m.1))
    ]
  ]
]

-- From a register whose upper half is set, the conversion to float traps exactly when the override does,
-- and else writes the same register and raises the same flags.
pub fcvt_s_bf16-m3_fcvt_s_bf16 :
    (fp : FpState) (fs rm fs1 : ℕ)
    → fs1 / 2 ^ 32 ≡ k_box32
    → fcvt_s_bf16 fs rm fs1 ≡ outcome_of (m3_fcvt_s_bf16 (some fp) fs rm fs1)
unfolding fcvt_s_bf16 m3_fcvt_s_bf16 convert_bf16_to_f32_precise
fcvt_s_bf16-m3_fcvt_s_bf16 fp fs rm fs1 h =
    let low : fs1 % 2 ^ 32 % 2 ^ 16 ≡ fs1 % 2 ^ 16 = omega arith in
    let boxed : (fs1 % 2 ^ 32 / 2 ^ 16 == 0xFFFF) ≡ (fs1 / 2 ^ 16 == k_box16) = ground (arith, h) in
    elim (Bool-cases (fs == 0)) [
      | inl off ↦ rw off refl
      | inr on ↦ elim (Bool-cases (rm == 0)) [
        | inr e ↦ rw (on, e) refl
        | inl e ↦ elim (Bool-cases (fs1 / 2 ^ 16 == k_box16)) [
          | inr b ↦ rw (boxed, on, e, b) refl
          | inl b ↦ elim (Bool-cases (is_nan16 (fs1 % 2 ^ 16))) [
            | inl n ↦ rw (low, boxed, on, e, b, n) refl
            | inr n ↦ rw (low, boxed, on, e, b, n) refl
          ]
        ]
      ]
    ]
