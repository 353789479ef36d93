-- ===== src/Assembler.antt =====
-- The operand encoder of the M3 assembler, sim/coralnpu_m3_bin_encoder_interface.cc: the parser of an
-- operand here, its words in Assembler/Words.antt, the encodings in Assembler/Operands.antt. A text is
-- the list of its characters.
pub mod Words
pub mod Operands
pub mod Registers
pub mod Fences
pub mod Targets
pub mod Variants
use coralnpu_mpact.Prelude.{
  ℕ, zero, suc, ◌+◌, ◌-◌, ◌%◌, ◌^◌, ◌==◌, ltb, leb, ◌||◌, ◌&&◌, not, Bool, true, false,
}
use coralnpu_mpact.Prelude.{
  ◌≡◌, refl, if◌then◌else◌, Option, none, some, List, [], ◌∷◌, ℤ, pos, negsuc, length,
}
use coralnpu_mpact.Prelude.{codes, text_eq, starts_with, ends_with}
use coralnpu_mpact.Assembler.Words.{find_word, fence_words, operand_words, k_regs}

-- absl's functions on texts. SimpleAtoi reads 64 bits; where the code reads 32 bits, only the numbers from
-- 3 to 31 count.
pub record Absl : Type 0 where
  pub strip_ascii_whitespace : List ℕ → List ℕ
  pub simple_atoi : List ℕ → Option ℤ
  pub simple_hex_atoi : List ℕ → Option ℕ

-- `StatusOr<uint64_t>`; the messages are left out.
pub data Encoded : Type 0 where
  encoded : ℕ → Encoded
  invalid_argument : Encoded

-- `SourceOpEnum`, as far as the file names its values.
pub data SourceOp : Type 0 where
  k_rs1 k_frs1 k_vs1 k_rs2 k_frs2 k_vs2 k_frs3 k_vs3 k_vd k_rm k_vmask : SourceOp
  k_i_imm12 k_csr k_j_imm12 k_s_imm12 k_b_imm12 k_u_imm20 k_j_imm20 : SourceOp
  k_csr_uimm5 k_simm5 k_uimm5 k_r_uimm5 k_succ k_pred k_nf k_zimm11 k_zimm10 : SourceOp
  k_const1 k_const2 k_const4 k_vmask_true k_none k_other : SourceOp

-- `text.find(c)`, `text.substr(n)` and `text.substr(0, n)`
unfoldable pub find_char : ℕ → List ℕ → Option ℕ
find_char c [] = none
find_char c (d ∷ s) =
    if d == c then some 0 else elim (find_char c s) [ none ↦ none | some n ↦ some (n + 1) ]

unfoldable pub substr_from : ℕ → List ℕ → List ℕ
substr_from zero s = s
substr_from (suc n) [] = []
substr_from (suc n) (c ∷ s) = substr_from n s

unfoldable pub substr_to : ℕ → List ℕ → List ℕ
substr_to zero s = []
substr_to (suc n) [] = []
substr_to (suc n) (c ∷ s) = c ∷ substr_to n s

-- `static_cast<uint64_t>`
unfoldable pub to_uint64 : ℤ → ℕ
to_uint64 (pos n) = n % 2 ^ 64
to_uint64 (negsuc n) = 2 ^ 64 - 1 - n % 2 ^ 64

-- An operand without a text.
unfoldable pub empty_operand : SourceOp → ℕ
empty_operand k_vmask = 1
empty_operand k_rm = 7
empty_operand _ = 0

-- The operands that keep what stands before the parentheses.
unfoldable pub is_offset : SourceOp → Bool
is_offset k_i_imm12 = true
is_offset k_s_imm12 = true
is_offset k_b_imm12 = true
is_offset k_j_imm12 = true
is_offset k_simm5 = true
is_offset k_uimm5 = true
is_offset _ = false

-- The operands that are read as hexadecimal first.
unfoldable pub is_hex : SourceOp → Bool
is_hex k_u_imm20 = true
is_hex k_b_imm12 = true
is_hex k_j_imm20 = true
is_hex _ = false

-- What counts of `offset(base)`.
unfoldable pub part_of : SourceOp → List ℕ → List ℕ
part_of src_op s = elim (find_char 0x28 s) [
  | none ↦ s
  | some paren_start ↦ elim (find_char 0x29 s) [
    | none ↦ s
    | some paren_end ↦
        if ltb paren_start paren_end
        then if is_offset src_op
          then substr_to paren_start s
          else substr_to (paren_end - paren_start - 1) (substr_from (paren_start + 1) s)
        else s
  ]
]

-- `text` without the white space around it and a comma before it.
unfoldable pub operand_text : Absl → List ℕ → List ℕ
operand_text a text_in =
    let text = a.strip_ascii_whitespace text_in in
    if starts_with text (codes ",") then a.strip_ascii_whitespace (substr_from 1 text) else text

-- The performance counters, by their base and the base of their upper halves.
unfoldable pub counter : Absl → List ℕ → ℕ → ℕ → Option ℕ
counter a suffix base base_h =
    let is_h = ends_with suffix (codes "h") in
    let digits = if is_h then substr_to (length suffix - 1) suffix else suffix in
    elim (a.simple_atoi digits) [
      | none ↦ none
      | some (pos n) ↦
          if leb 3 n && leb n 31 then some ((if is_h then base_h else base) + n) else none
      | some (negsuc n) ↦ none
    ]

unfoldable pub dynamic_csr : Absl → List ℕ → Option ℕ
dynamic_csr a s =
    if starts_with s (codes "hpmcounter")
    then counter a (substr_from 10 s) 0xC00 0xC80
    else if starts_with s (codes "mhpmcounter")
    then counter a (substr_from 11 s) 0xB00 0xB80
    else if starts_with s (codes "mhpmevent")
    then counter a (substr_from 9 s) 0x320 0x720
    else none

-- The number that a text is, at the end of `ParseReg`.
unfoldable pub parse_number : Absl → List ℕ → SourceOp → Encoded
parse_number a s src_op =
    let text =
      a.strip_ascii_whitespace
        (elim (find_char 0x3C s) [ none ↦ s | some comment_pos ↦ substr_to comment_pos s ]) in
    let first = if is_hex src_op then a.simple_hex_atoi text else none in
    if starts_with text (codes "0x") || starts_with text (codes "0X")
    then elim (a.simple_hex_atoi (substr_from 2 text)) [ none ↦ encoded 0 | some v ↦ encoded v ]
    else elim first [
      | some hex_val ↦ encoded hex_val
      | none ↦ elim (a.simple_atoi text) [
        | some val ↦ encoded (to_uint64 val)
        | none ↦ elim (a.simple_hex_atoi text) [
          | some hex_val ↦ encoded hex_val
          | none ↦ invalid_argument
        ]
      ]
    ]

-- After the words: the registers, the counters and the numbers.
unfoldable pub parse_rest : Absl → List ℕ → SourceOp → Encoded
parse_rest a text src_op =
    let s = part_of src_op text in
    elim (find_word s k_regs) [
      | some value ↦ encoded value
      | none ↦ elim (dynamic_csr a s) [
        | some value ↦ encoded value
        | none ↦ parse_number a s src_op
      ]
    ]

-- `ParseReg`, on the text without what `operand_text` takes away.
unfoldable pub parse_text : Absl → List ℕ → SourceOp → Encoded
parse_text a text src_op =
    if text_eq text [] then encoded (empty_operand src_op) else elim (find_word text fence_words) [
      | some value ↦ encoded value
      | none ↦
          if ends_with text (codes ".t")
          then (if text_eq text (codes "v0.t") then encoded 0 else invalid_argument)
          else elim (find_word text operand_words) [
            | some value ↦ encoded value
            | none ↦ parse_rest a text src_op
          ]
    ]

-- `ParseReg`
unfoldable pub parse_reg : Absl → List ℕ → SourceOp → Encoded
parse_reg a text_in src_op = parse_text a (operand_text a text_in) src_op

-- `GetPredOpEncoding`
unfoldable pub get_pred_op_encoding : Absl → List ℕ → Encoded
get_pred_op_encoding a text_in = elim (find_word (operand_text a text_in) fence_words) [
  | some value ↦ encoded value
  | none ↦ invalid_argument
]

-- A text with nothing to strip, and no comma before it.
pub operand_text_bare :
    (a : Absl) (text : List ℕ)
    → a.strip_ascii_whitespace text ≡ text
    → starts_with text (codes ",") ≡ false
    → operand_text a text ≡ text
unfolding operand_text
operand_text_bare a text h k = rw (h, k) refl
