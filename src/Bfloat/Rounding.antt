-- ===== src/Bfloat/Rounding.antt =====
-- RoundBFloat16 of sim/coralnpu_instructions.cc against rounding as the modes say it.
use coralnpu_mpact.Prelude.{
  ℕ, ◌+◌, ◌/◌, ◌%◌, ◌^◌, ◌==◌, ◌<◌, ◌≡◌, refl, ap, ◌∙◌, arith, ltb, leb, ◌||◌, ◌&&◌, not,
}
use coralnpu_mpact.Prelude.{Bool, true, false, if◌then◌else◌, Option, none, some}
use coralnpu_mpact.Bfloat.{Flags, round_bfloat16, increment, is_nan32}

-- Whether the magnitude `bits`, of which the low 16 bits are cut off, is rounded up: to nearest with
-- ties to even, towards zero, down, up, and to nearest with ties away from zero.
unfoldable pub rounds_up : ℕ → ℕ → Bool
rounds_up rm bits =
    let cut = bits % 2 ^ 16 in
    let negative = leb (2 ^ 31) bits in
    if rm == 0
    then ltb (2 ^ 15) cut || cut == 2 ^ 15 && bits / 2 ^ 16 % 2 == 1
    else if rm == 2
    then negative && ltb 0 cut
    else if rm == 3
    then not negative && ltb 0 cut
    else rm == 4 && leb (2 ^ 15) cut

-- The pattern that the mode asks for.
unfoldable pub rounded : ℕ → ℕ → ℕ
rounded rm bits = if rounds_up rm bits then bits / 2 ^ 16 + 1 else bits / 2 ^ 16

increment_lem :
    (rm bits : ℕ)
    → bits < 2 ^ 32
    → ((bits / 2 ^ 15 % 2 == 1 || not (bits % 2 ^ 15 == 0))
        && increment rm
            (bits / 2 ^ 31 % 2 == 1)
            (bits / 2 ^ 16 % 2 == 1)
            (bits / 2 ^ 15 % 2 == 1)
            (not (bits % 2 ^ 15 == 0)))
      ≡ rounds_up rm bits
unfolding increment rounds_up
increment_lem rm bits h = ground arith

-- No pattern that is not a NaN is rounded out of 16 bits.
rounded_fits : (rm bits : ℕ) → bits < 2 ^ 32 → is_nan32 bits ≡ false → rounded rm bits < 2 ^ 16
unfolding rounded rounds_up is_nan32
rounded_fits rm bits h n = ground arith

-- The mode of an instruction: its own, or the dynamic one.
abbrev pub mode : ℕ → Option ℕ → ℕ
mode inst_rm frm = if inst_rm == 7 then elim frm [ none ↦ 0 | some dynamic ↦ dynamic ] else inst_rm

cut_bits :
    (bits : ℕ) → (bits / 2 ^ 15 % 2 == 1 || not (bits % 2 ^ 15 == 0)) ≡ not (bits % 2 ^ 16 == 0)
cut_bits bits = ground arith

pub absorbed : (g s a b c : Bool) → (g || s || (g || s) && a && b && c) ≡ (g || s)
absorbed false false a b c = refl
absorbed false true a b c = refl
absorbed true s a b c = refl

-- On a pattern of 32 bits that is no NaN, RoundBFloat16 returns the upper 16 bits, rounded as the
-- rounding mode asks, without a carry out of them, and sets the inexact flag when it cuts off a bit
-- that is 1.
pub round_bfloat16_lem :
    (bits inst_rm : ℕ) (frm : Option ℕ) (fflags : Flags)
    → bits < 2 ^ 32
    → is_nan32 bits ≡ false
    → (let result = round_bfloat16 bits inst_rm frm fflags in
        (result.0 ≡ rounded (mode inst_rm frm) bits)
        × (result.1.inexact ≡ (fflags.inexact || not (bits % 2 ^ 16 == 0))))
unfolding round_bfloat16 rounded
round_bfloat16_lem bits inst_rm frm fflags h n =
    let rm = mode inst_rm frm in
    let fits = rounded_fits rm bits h n in
    let g = bits / 2 ^ 15 % 2 == 1 in
    let s = not (bits % 2 ^ 15 == 0) in
    let a = increment rm (bits / 2 ^ 31 % 2 == 1) (bits / 2 ^ 16 % 2 == 1) g s in
    let res_bits = if (g || s) && a then bits / 2 ^ 16 + 1 else bits / 2 ^ 16 in
    let b = res_bits / 2 ^ 7 % 2 ^ 8 == 255 in
    let c = not (bits / 2 ^ 23 % 2 ^ 8 == 255) in
    let unwrapped : rounded rm bits % 2 ^ 16 ≡ rounded rm bits = omega (arith, fits) in
    (
      ap (λ c. (if c then bits / 2 ^ 16 + 1 else bits / 2 ^ 16) % 2 ^ 16) (increment_lem rm bits h)
          ∙ unwrapped,
      ap (λ x. fflags.inexact || x) (absorbed g s a b c ∙ cut_bits bits),
    )
