-- ===== src/Bfloat/Agreement.antt =====
-- The conversions of the M3 core against those of sim/coralnpu_instructions.cc.
use coralnpu_mpact.Prelude.{
  ℕ, ◌+◌, ◌*◌, ◌/◌, ◌%◌, ◌^◌, ◌==◌, ◌<◌, ◌≤◌, ◌≡◌, ◌≢◌, refl, sym, ap, ◌∙◌, arith, ltb, ◌||◌, ◌&&◌,
  not,
}
use coralnpu_mpact.Prelude.{Bool, true, false, Bool-cases, inl, inr, if◌then◌else◌, some}
use coralnpu_mpact.Bfloat.{
  Flags, FpState, no_flags, or_flags, invalid_if, written, increment, round_bfloat16, is_nan16,
  is_nan32, is_quiet16, is_quiet32, unboxed, fcvtsbf16, fcvtbf16s, k_box16, k_box32,
  k_canonical_nan32,
}
use coralnpu_mpact.Bfloat.Boxed.{is_legal, with_mode-legal, box16, box32, or_flags_none}
use coralnpu_mpact.Bfloat.Overrides.{
  m3_written, exponent_flags, m3_round, m3_converted, m3_mode, m3_fcvt_bf16_s, m3_fcvt_s_bf16,
}

-- The flags of RoundBFloat16 with the one that only the M3 core raises: an inexact result whose
-- exponent is 0.
abbrev pub with_underflow : ℕ × Flags → Flags
with_underflow result = record result.1 {
  underflow = result.1.inexact && result.0 / 2 ^ 7 % 2 ^ 8 == 0;
}

increment_needed :
    (rm : ℕ) (sign l g s : Bool) → ((g || s) && increment rm sign l g s) ≡ increment rm sign l g s
unfolding increment
increment_needed rm sign l false false = ground arith
increment_needed rm sign l false true = refl
increment_needed rm sign l true s = refl

overflow_agrees :
    (adds : Bool) (f_u : ℕ)
    → (let upper = if adds then f_u / 2 ^ 16 + 1 else f_u / 2 ^ 16 in
        (ltb (f_u / 2 ^ 23 % 2 ^ 8) 0xFF && upper / 2 ^ 7 % 2 ^ 8 == 0xFF)
        ≡ (adds && upper / 2 ^ 7 % 2 ^ 8 == 255 && not (f_u / 2 ^ 23 % 2 ^ 8 == 255)))
overflow_agrees true f_u = ground arith
overflow_agrees false f_u = ground arith

pub after_agrees : (upper : ℕ) → upper % 2 ^ 16 / 2 ^ 7 % 2 ^ 8 ≡ upper / 2 ^ 7 % 2 ^ 8
after_agrees upper = omega arith

sign_agrees : (f_u : ℕ) → f_u < 2 ^ 32 → not (f_u / 2 ^ 31 == 0) ≡ (f_u / 2 ^ 31 % 2 == 1)
sign_agrees f_u h = ground arith

exponent_flags_lem :
    (adds inexact : Bool) (before after : ℕ)
    → (adds ≡ true → inexact ≡ true)
    → (ltb before 0xFF && after == 0xFF) ≡ (adds && after == 255 && not (before == 255))
    → (let overflows = adds && after == 255 && not (before == 255) in
        exponent_flags inexact before after ≡ record {
          invalid_op = false;
          overflow = overflows;
          underflow = (inexact || overflows) && after == 0;
          inexact = inexact || overflows;
        })
unfolding exponent_flags
exponent_flags_lem true true before after n h =
    elim (Bool-cases (ltb before 0xFF && after == 0xFF)) [
      | inl e ↦
          let same : (after == 255 && not (before == 255)) ≡ true = sym h ∙ e in
          let full : (after == 0) ≡ false = ground (arith, e) in rw (e, same, full) refl
      | inr e ↦
          let same : (after == 255 && not (before == 255)) ≡ false = sym h ∙ e in
          rw (e, same) (either (after == 0))
    ]
  where
    either :
        (b : Bool)
        → ◌≡◌ {A = Flags}
            (record { invalid_op = false; overflow = false; underflow = b && true; inexact = true })
            (record { invalid_op = false; overflow = false; underflow = b; inexact = true })
    either true = refl
    either false = refl
exponent_flags_lem true false before after n h = absurd (impossible (n refl))
  where
    impossible : false ≡ true → ⊥
    impossible c = cc
exponent_flags_lem false true before after n h = elim (Bool-cases (after == 0)) [
  | inl e ↦ rw (h, e) refl
  | inr e ↦ rw (h, e) refl
]
exponent_flags_lem false false before after n h = elim (Bool-cases (after == 0)) [
  | inl e ↦ rw (h, e) refl
  | inr e ↦ rw (h, e) refl
]

cut_off : (a b : Bool) → (a && b) ≡ true → a ≡ true
cut_off true b h = refl
cut_off false b h = h

pub m3_round_lem :
    (f_u inst_rm d : ℕ)
    → f_u < 2 ^ 32
    → (let result = round_bfloat16 f_u inst_rm (some d) no_flags in
        m3_round (if inst_rm == 7 then d else inst_rm) f_u ≡ (result.0, with_underflow result))
unfolding m3_round round_bfloat16
m3_round_lem f_u inst_rm d h =
    let rm = if inst_rm == 7 then d else inst_rm in
    let l = f_u / 2 ^ 16 % 2 == 1 in
    let g = f_u / 2 ^ 15 % 2 == 1 in
    let s = not (f_u % 2 ^ 15 == 0) in
    let sign = f_u / 2 ^ 31 % 2 == 1 in
    let adds = (g || s) && increment rm sign l g s in
    let same : increment rm (not (f_u / 2 ^ 31 == 0)) l g s ≡ adds =
      ap (λ c. increment rm c l g s) (sign_agrees f_u h) ∙ sym (increment_needed rm sign l g s) in
    let upper = if adds then f_u / 2 ^ 16 + 1 else f_u / 2 ^ 16 in
    let before = f_u / 2 ^ 23 % 2 ^ 8 in
    let overflows = adds && upper / 2 ^ 7 % 2 ^ 8 == 255 && not (before == 255) in
    ap
      (λ c.
        (let up = if c then f_u / 2 ^ 16 + 1 else f_u / 2 ^ 16 in
          (up % 2 ^ 16, exponent_flags (g || s) before (up / 2 ^ 7 % 2 ^ 8))))
      same
    ∙ ap (λ f. (upper % 2 ^ 16, f))
        (exponent_flags_lem adds (g || s) before (upper / 2 ^ 7 % 2 ^ 8)
            (cut_off (g || s) (increment rm sign l g s)) (overflow_agrees adds f_u)
          ∙ ap
              (λ x. record {
                invalid_op = false;
                overflow = overflows;
                underflow = (g || s || overflows) && x == 0;
                inexact = g || s || overflows;
              })
              (sym (after_agrees upper)))

-- What GetNaNBoxedSource returns of a register: the float that is boxed in it, or the canonical NaN.
abbrev pub float_of : ℕ → ℕ
float_of frs1 = if not (frs1 / 2 ^ 32 == k_box32) then k_canonical_nan32 else frs1 % 2 ^ 32

-- The result of Fcvtbf16s: its pattern, and the flags that it raises.
abbrev pub converted : FpState → ℕ → ℕ → ℕ × Flags
converted fp inst_rm frs1 =
    round_bfloat16 (unboxed frs1).0 inst_rm (some fp.rounding_mode) (unboxed frs1).1

canonical_rounded :
    (rm d : ℕ) (c : Bool)
    → (let result = round_bfloat16 k_canonical_nan32 rm (some d) (invalid_if c) in
        ◌≡◌ {A = ℕ × Flags} (0x7FC0, invalid_if c) (result.0, with_underflow result))
unfolding round_bfloat16
canonical_rounded rm d true = refl
canonical_rounded rm d false = refl

m3_converted_lem :
    (fp : FpState) (inst_rm frs1 : ℕ)
    → (let result = converted fp inst_rm frs1 in
        m3_converted (if inst_rm == 7 then fp.rounding_mode else inst_rm) (float_of frs1)
        ≡ (result.0, with_underflow result))
unfolding m3_converted unboxed
m3_converted_lem fp inst_rm frs1 = elim (Bool-cases (frs1 / 2 ^ 32 == k_box32)) [
  | inl e ↦ elim (Bool-cases (is_nan32 (frs1 % 2 ^ 32))) [
    | inl n ↦
        rw (e, n) (canonical_rounded inst_rm fp.rounding_mode (not (is_quiet32 (frs1 % 2 ^ 32))))
    | inr n ↦ rw (e, n) (m3_round_lem (frs1 % 2 ^ 32) inst_rm fp.rounding_mode (omega arith))
  ]
  | inr e ↦ rw e (unfold is_nan32 in canonical_rounded inst_rm fp.rounding_mode false)
]

pub m3_mode_lem :
    (fp : FpState) (rm : ℕ)
    → rm ≤ 7
    → fp.rounding_mode ≤ 4
    → is_legal fp rm ≡ true
    → m3_mode fp rm ≡ some (if rm == 7 then fp.rounding_mode else rm)
unfolding m3_mode
m3_mode_lem fp rm h k l = ground (arith, l)

-- What both make of a boxed bfloat16: its pattern as a float, and the flags that it raises.
abbrev pub wide_of : ℕ → ℕ × Flags
wide_of frs1 =
    let src_bits = frs1 % 2 ^ 16 in
    if not (frs1 / 2 ^ 16 == k_box16)
    then (k_canonical_nan32, no_flags)
    else if is_nan16 src_bits
    then (k_canonical_nan32, invalid_if (not (is_quiet16 src_bits)))
    else (src_bits * 2 ^ 16, no_flags)

m3_wide :
    (fp : FpState) (fs frs1 : ℕ)
    → fs ≢ 0
    → m3_fcvt_s_bf16 (some fp) fs 0 frs1 ≡ m3_written (box32 (wide_of frs1).0) (wide_of frs1).1 3
unfolding m3_fcvt_s_bf16
m3_wide fp fs frs1 n =
    let on : (fs == 0) ≡ false = ground (arith, n) in
    elim (Bool-cases (frs1 / 2 ^ 16 == k_box16)) [
      | inl e ↦ elim (Bool-cases (is_nan16 (frs1 % 2 ^ 16))) [
        | inl c ↦ rw (on, e, c) refl
        | inr c ↦ rw (on, e, c) refl
      ]
      | inr e ↦ rw (on, e) refl
    ]

wide :
    (fp : FpState) (frs1 : ℕ)
    → fcvtsbf16 (some fp) 0 frs1
      ≡ written (box32 (wide_of frs1).0) (or_flags fp.fflags (wide_of frs1).1)
unfolding fcvtsbf16
wide fp frs1 = with_mode-legal fp 0 _ refl ∙ elim (Bool-cases (frs1 / 2 ^ 16 == k_box16)) [
  | inl e ↦ elim (Bool-cases (is_nan16 (frs1 % 2 ^ 16))) [
    | inl c ↦ rw (e, c) refl
    | inr c ↦ rw (e, c) (ap (written _) (sym (or_flags_none fp.fflags)))
  ]
  | inr e ↦ rw e (ap (written _) (sym (or_flags_none fp.fflags)))
]

-- With the floating point unit on, GetNaNBoxedSource returning the boxed float or the canonical NaN,
-- and a legal rounding mode, the conversion to bfloat16 of the M3 core writes the pattern that
-- Fcvtbf16s writes and raises the same flags, and beyond them only the underflow of an inexact result
-- with exponent 0; its conversion to float writes and raises what Fcvtsbf16 does. Both leave the
-- unit's state dirty.
pub overrides_agree :
    (get_nan_boxed_source : ℕ → ℕ) (fp : FpState) (fs rm frs1 : ℕ)
    → get_nan_boxed_source frs1 ≡ float_of frs1
    → fs ≢ 0
    → rm ≤ 7
    → fp.rounding_mode ≤ 4
    → is_legal fp rm ≡ true
    → (let result = converted fp rm frs1 in
        (m3_fcvt_bf16_s get_nan_boxed_source (some fp) fs rm frs1
          ≡ m3_written (box16 result.0) (with_underflow result) 3)
        × (fcvtbf16s (some fp) rm frs1 ≡ written (box16 result.0) (or_flags fp.fflags result.1))
        × (m3_fcvt_s_bf16 (some fp) fs 0 frs1
            ≡ m3_written (box32 (wide_of frs1).0) (wide_of frs1).1 3)
        × (fcvtsbf16 (some fp) 0 frs1
            ≡ written (box32 (wide_of frs1).0) (or_flags fp.fflags (wide_of frs1).1)))
unfolding m3_fcvt_bf16_s fcvtbf16s
overrides_agree get fp fs rm frs1 g n h k l =
    let on : (fs == 0) ≡ false = ground (arith, n) in
    (
      rw (on, m3_mode_lem fp rm h k l, g)
          (ap (λ r. m3_written (box16 r.0) r.1 3) (m3_converted_lem fp rm frs1)),
      with_mode-legal fp rm _ l,
      m3_wide fp fs frs1 n,
      wide fp frs1,
    )
