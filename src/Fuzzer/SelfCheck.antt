-- ===== src/Fuzzer/SelfCheck.antt =====
-- The instructions of the checks that PerformPhase2Finalize in sim/orchestrator.cc writes.
use coralnpu_mpact.Prelude.{
  ℕ, ◌+◌, ◌-◌, ◌*◌, ◌/◌, ◌%◌, ◌^◌, ◌<◌, ◌==◌, ◌≡◌, refl, arith, ltb, ◌&&◌, not,
}
use coralnpu_mpact.Prelude.{if◌then◌else◌, Option, none, some, bit_or}
use coralnpu_mpact.Prelude.Bits.{bit_or_disjoint}
use coralnpu_mpact.Fuzzer.Finalize.{upper20, u_lower12}

-- A register other than x0 is set.
unfoldable pub set_x : ℕ → ℕ → (ℕ → ℕ) → ℕ → ℕ
set_x rd v x r = if r == rd && not (rd == 0) then v else x r

unfoldable pub sign_extended : ℕ → ℕ
sign_extended imm = if ltb imm (2 ^ 11) then imm else imm + (2 ^ 32 - 2 ^ 12)

-- The offset of a forward branch.
unfoldable pub forward_offset : ℕ → ℕ
forward_offset w = w / 2 ^ 7 % 2 * 2 ^ 11 + w / 2 ^ 25 % 2 ^ 6 * 2 ^ 5 + w / 2 ^ 8 % 2 ^ 4 * 2

-- lui, addi and a forward beq of the RV32I manual: the next address and the registers.
unfoldable pub machine_step : ℕ → ℕ → (ℕ → ℕ) → Option (ℕ × (ℕ → ℕ))
machine_step w pc x =
    let rd = w / 2 ^ 7 % 2 ^ 5 in
    let rs1 = w / 2 ^ 15 % 2 ^ 5 in
    let rs2 = w / 2 ^ 20 % 2 ^ 5 in
    if w % 2 ^ 7 == 0x37
    then some (pc + 4, set_x rd (w / 2 ^ 12 * 2 ^ 12) x)
    else if w % 2 ^ 7 == 0x13 && w / 2 ^ 12 % 2 ^ 3 == 0
    then some (pc + 4, set_x rd ((x rs1 + sign_extended (w / 2 ^ 20)) % 2 ^ 32) x)
    else if w % 2 ^ 7 == 0x63 && w / 2 ^ 12 % 2 ^ 3 == 0 && w / 2 ^ 31 == 0
    then some (if x rs1 == x rs2 then pc + forward_offset w else pc + 4, x)
    else none

-- The fields of the words.
pub lui_word :
    (u s : ℕ)
    → u < 2 ^ 20
    → s < 2 ^ 5
    → bit_or (bit_or (u * 2 ^ 12 % 2 ^ 32) (s * 2 ^ 7)) 0x37 ≡ u * 2 ^ 12 + s * 2 ^ 7 + 0x37
lui_word u s a b =
    let whole : u * 2 ^ 12 % 2 ^ 32 ≡ u * 2 ^ 12 = omega arith in
    rw
      (
        whole,
        bit_or_disjoint 12 (u * 2 ^ 12) (s * 2 ^ 7) (omega arith) (omega arith),
        bit_or_disjoint 7 (u * 2 ^ 12 + s * 2 ^ 7) 0x37 (omega arith) (omega arith),
      )
      refl

pub addi_word :
    (l s : ℕ)
    → l < 2 ^ 12
    → s < 2 ^ 5
    → bit_or (bit_or (bit_or (l * 2 ^ 20) (s * 2 ^ 15)) (s * 2 ^ 7)) 0x13
      ≡ l * 2 ^ 20 + s * 2 ^ 15 + s * 2 ^ 7 + 0x13
addi_word l s a b =
    rw
      (
        bit_or_disjoint 20 (l * 2 ^ 20) (s * 2 ^ 15) (omega arith) (omega arith),
        bit_or_disjoint 12 (l * 2 ^ 20 + s * 2 ^ 15) (s * 2 ^ 7) (omega arith) (omega arith),
        bit_or_disjoint 7 (l * 2 ^ 20 + s * 2 ^ 15 + s * 2 ^ 7) 0x13 (omega arith) (omega arith),
      )
      refl

pub beq_word :
    (s r : ℕ)
    → s < 2 ^ 5
    → r < 2 ^ 5
    → bit_or (bit_or (bit_or (s * 2 ^ 20) (r * 2 ^ 15)) (4 * 2 ^ 8)) 0x63
      ≡ s * 2 ^ 20 + r * 2 ^ 15 + 4 * 2 ^ 8 + 0x63
beq_word s r a b =
    rw
      (
        bit_or_disjoint 20 (s * 2 ^ 20) (r * 2 ^ 15) (omega arith) (omega arith),
        bit_or_disjoint 15 (s * 2 ^ 20 + r * 2 ^ 15) (4 * 2 ^ 8) (omega arith) (omega arith),
        bit_or_disjoint 8 (s * 2 ^ 20 + r * 2 ^ 15 + 4 * 2 ^ 8) 0x63 (omega arith) (omega arith),
      )
      refl

pub machine_step_lui :
    (u s pc : ℕ) (x : ℕ → ℕ)
    → u < 2 ^ 20
    → s < 2 ^ 5
    → machine_step (u * 2 ^ 12 + s * 2 ^ 7 + 0x37) pc x ≡ some (pc + 4, set_x s (u * 2 ^ 12) x)
unfolding machine_step
machine_step_lui u s pc x a b =
    let w = u * 2 ^ 12 + s * 2 ^ 7 + 0x37 in
    let opcode : w % 2 ^ 7 ≡ 0x37 = omega arith in
    let rd : w / 2 ^ 7 % 2 ^ 5 ≡ s = omega arith in
    let upper : w / 2 ^ 12 ≡ u = omega arith in rw (opcode, rd, upper) refl

pub machine_step_addi :
    (l s pc : ℕ) (x : ℕ → ℕ)
    → l < 2 ^ 12
    → s < 2 ^ 5
    → machine_step (l * 2 ^ 20 + s * 2 ^ 15 + s * 2 ^ 7 + 0x13) pc x
      ≡ some (pc + 4, set_x s ((x s + sign_extended l) % 2 ^ 32) x)
unfolding machine_step
machine_step_addi l s pc x a b =
    let w = l * 2 ^ 20 + s * 2 ^ 15 + s * 2 ^ 7 + 0x13 in
    let opcode : w % 2 ^ 7 ≡ 0x13 = omega arith in
    let funct3 : w / 2 ^ 12 % 2 ^ 3 ≡ 0 = omega arith in
    let rd : w / 2 ^ 7 % 2 ^ 5 ≡ s = omega arith in
    let rs1 : w / 2 ^ 15 % 2 ^ 5 ≡ s = omega arith in
    let imm : w / 2 ^ 20 ≡ l = omega arith in rw (opcode, funct3, rd, rs1, imm) refl

pub machine_step_beq :
    (s r pc : ℕ) (x : ℕ → ℕ)
    → s < 2 ^ 5
    → r < 2 ^ 5
    → machine_step (s * 2 ^ 20 + r * 2 ^ 15 + 4 * 2 ^ 8 + 0x63) pc x
      ≡ some (if x r == x s then pc + 8 else pc + 4, x)
unfolding machine_step forward_offset
machine_step_beq s r pc x a b =
    let w = s * 2 ^ 20 + r * 2 ^ 15 + 4 * 2 ^ 8 + 0x63 in
    let opcode : w % 2 ^ 7 ≡ 0x63 = omega arith in
    let funct3 : w / 2 ^ 12 % 2 ^ 3 ≡ 0 = omega arith in
    let high : w / 2 ^ 31 ≡ 0 = omega arith in
    let rs1 : w / 2 ^ 15 % 2 ^ 5 ≡ r = omega arith in
    let rs2 : w / 2 ^ 20 % 2 ^ 5 ≡ s = omega arith in
    let offset : forward_offset w ≡ 8 = omega arith in
    rw (opcode, funct3, high, rs1, rs2, offset) refl

pub upper20_lt : (golden : ℕ) → upper20 golden < 2 ^ 20
unfolding upper20
upper20_lt golden = omega arith

pub u_lower12_lt : (golden : ℕ) → u_lower12 golden < 2 ^ 12
unfolding u_lower12
u_lower12_lt golden = omega arith

-- lui and addi build the number.
pub golden_built :
    (golden : ℕ)
    → golden < 2 ^ 32
    → (upper20 golden * 2 ^ 12 + sign_extended (u_lower12 golden)) % 2 ^ 32 ≡ golden
unfolding upper20 u_lower12 sign_extended
golden_built golden h = ground arith
