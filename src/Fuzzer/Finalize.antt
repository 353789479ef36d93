-- ===== src/Fuzzer/Finalize.antt =====
-- The checks of the registers that PerformPhase2Finalize of sim/orchestrator.cc writes over the end of
-- an image. The image is a list of bytes; the state at the end is two maps from names of registers.
use coralnpu_mpact.Prelude.{
  ℕ, zero, suc, ◌+◌, ◌-◌, ◌*◌, ◌/◌, ◌%◌, ◌^◌, ◌==◌, ltb, leb, ◌||◌, bit_or,
}
use coralnpu_mpact.Prelude.{Bool, if◌then◌else◌, length, get_or, none, some, List, [], ◌∷◌}
use coralnpu_mpact.Fuzzer.Dict.{lookup}

-- StrCat of a letter and a number; `str_cat` is the text of a number.
unfoldable pub reg_name : (ℕ → List ℕ) → ℕ → ℕ → List ℕ
reg_name str_cat letter i = letter ∷ str_cat i

-- The word of four bytes from `i` on.
unfoldable pub image_word : ℕ → List ℕ → ℕ
image_word i b =
    bit_or
      (bit_or (bit_or (get_or b i 0) (get_or b (i + 1) 0 * 2 ^ 8)) (get_or b (i + 2) 0 * 2 ^ 16))
      (get_or b (i + 3) 0 * 2 ^ 24)

unfoldable pub is_filler : ℕ → Bool
is_filler inst = inst == 0x08000073 || inst == 0x13

-- From the end, past the mpause and the nops.
unfoldable pub nop_start : List ℕ → ℕ → ℕ
nop_start binary (suc (suc (suc (suc n)))) =
    let earlier = nop_start binary n in if is_filler (image_word n binary) then earlier else n + 4
nop_start binary (suc (suc (suc zero))) = 3
nop_start binary (suc (suc zero)) = 2
nop_start binary (suc zero) = 1
nop_start binary zero = 0

unfoldable pub put_byte : ℕ → ℕ → List ℕ → List ℕ
put_byte i v [] = []
put_byte zero v (b ∷ bs) = v ∷ bs
put_byte (suc i) v (b ∷ bs) = b ∷ put_byte i v bs

-- The place to write and the image.
pub record Cursor : Type 0 where
  pub current_pc : ℕ
  pub binary : List ℕ

unfoldable pub emit_inst : ℕ → Cursor → Cursor
emit_inst inst c =
    if leb (c.current_pc + 4) (length c.binary)
    then record {
      current_pc = c.current_pc + 4;
      binary = put_byte (c.current_pc + 3) (inst / 2 ^ 24 % 2 ^ 8) (
          put_byte (c.current_pc + 2) (inst / 2 ^ 16 % 2 ^ 8) (
            put_byte (c.current_pc + 1) (inst / 2 ^ 8 % 2 ^ 8)
              (put_byte c.current_pc (inst % 2 ^ 8) c.binary)));
    }
    else c

unfoldable pub emit_all : List ℕ → Cursor → Cursor
emit_all [] c = c
emit_all (inst ∷ insts) c = emit_all insts (emit_inst inst c)

unfoldable pub upper20 : ℕ → ℕ
upper20 golden = (golden + 0x800) % 2 ^ 32 / 2 ^ 12

unfoldable pub u_lower12 : ℕ → ℕ
u_lower12 golden = (golden + (2 ^ 32 - upper20 golden * 2 ^ 12 % 2 ^ 32)) % 2 ^ 32 % 2 ^ 12

-- lui, addi, beq over the next word, and ebreak. The offset is 8, whose bits 4 to 1 are 4.
unfoldable pub assert_equal : ℕ → ℕ → ℕ → List ℕ
assert_equal scratch r golden =
    bit_or (bit_or (upper20 golden * 2 ^ 12 % 2 ^ 32) (scratch * 2 ^ 7)) 0x37
    ∷ bit_or (bit_or (bit_or (u_lower12 golden * 2 ^ 20) (scratch * 2 ^ 15)) (scratch * 2 ^ 7)) 0x13
    ∷ bit_or (bit_or (bit_or (scratch * 2 ^ 20) (r * 2 ^ 15)) (4 * 2 ^ 8)) 0x63
    ∷ 0x00100073
    ∷ []

-- The loop over x registers, `n` of them from `i` on.
unfoldable pub assert_x : (ℕ → List ℕ) → ℕ → ℕ → List (List ℕ × ℕ) → Cursor → Cursor
assert_x str_cat zero i registers c = c
assert_x str_cat (suc n) i registers c = elim (lookup (reg_name str_cat 0x78 i) registers) [
  | none ↦ assert_x str_cat n (i + 1) registers c
  | some golden ↦
      let rest = assert_x str_cat n (i + 1) registers (emit_all (assert_equal 31 i golden) c) in
      if ltb (length c.binary) (c.current_pc + 16) then c else rest
]

-- fmv.x.w to x31
unfoldable pub extract_f : ℕ → ℕ
extract_f i = bit_or (bit_or (bit_or (0x70 * 2 ^ 25) (i * 2 ^ 15)) (31 * 2 ^ 7)) 0x53

unfoldable pub assert_f : (ℕ → List ℕ) → ℕ → ℕ → List (List ℕ × ℕ) → Cursor → Cursor
assert_f str_cat zero i registers c = c
assert_f str_cat (suc n) i registers c = elim (lookup (reg_name str_cat 0x66 i) registers) [
  | none ↦ assert_f str_cat n (i + 1) registers c
  | some golden ↦
      let rest =
        assert_f str_cat n (i + 1) registers
          (emit_all (extract_f i ∷ assert_equal 30 31 golden) c) in
      if ltb (length c.binary) (c.current_pc + 20) then c else rest
]

-- vmv.x.s to x31
unfoldable pub extract_v : ℕ → ℕ
extract_v i =
    bit_or
      (bit_or (bit_or (bit_or (bit_or (0x10 * 2 ^ 26) (1 * 2 ^ 25)) (i * 2 ^ 20)) (2 * 2 ^ 12))
        (31 * 2 ^ 7))
      0x57

unfoldable pub assert_v : (ℕ → List ℕ) → ℕ → ℕ → List (List ℕ × List ℕ) → Cursor → Cursor
assert_v str_cat zero i vector_registers c = c
assert_v str_cat (suc n) i vector_registers c =
    let skip = assert_v str_cat n (i + 1) vector_registers c in
    elim (lookup (reg_name str_cat 0x76 i) vector_registers) [
      | none ↦ skip
      | some bytes ↦
          let rest =
            assert_v str_cat n (i + 1) vector_registers
              (emit_all (extract_v i ∷ assert_equal 30 31 (image_word 0 bytes)) c) in
          if leb 4 (length bytes)
          then if ltb (length c.binary) (c.current_pc + 20) then c else rest
          else skip
    ]

unfoldable pub perform_phase2_finalize :
    (ℕ → List ℕ) → List (List ℕ × ℕ) → List (List ℕ × List ℕ) → List ℕ → List ℕ
perform_phase2_finalize str_cat registers vector_registers binary =
    let start : Cursor = record {
      current_pc = nop_start binary (length binary);
      binary = binary;
    } in
    let x = assert_x str_cat 29 1 registers start in
    let f = assert_f str_cat 32 0 registers x in
    let v = assert_v str_cat 32 0 vector_registers f in (emit_inst 0x08000073 v).binary
