-- ===== src/Examples/Assembler.antt =====
-- The theorems on the operand encoder, with functions on texts and fields made up for the examples.
use coralnpu_mpact.Prelude.{
  ◌+◌, ◌==◌, ◌≡◌, refl, arith, not, ◌&&◌, true, false, some, none, negsuc, codes, text_eq,
  if◌then◌else◌,
}
use coralnpu_mpact.Assembler.{Absl, encoded, k_rs1, k_none, k_pred, parse_reg, get_pred_op_encoding}
use coralnpu_mpact.Assembler.Registers.{spelled, abi, registers_parsed}
use coralnpu_mpact.Assembler.Fences.{letters, bits_of, fences_parsed}
use coralnpu_mpact.Assembler.Operands.{Encoder, vsetvli_xn, vsetvli_nz, vsetvli_zz}
use coralnpu_mpact.Assembler.Variants.{accepts, variants_apart}

-- Functions that know the texts of the examples.
abbrev few_texts : Absl
few_texts = record {
  strip_ascii_whitespace = λ s. s;
  simple_atoi = λ s. if text_eq s (codes "-8") then some (negsuc 7) else none;
  simple_hex_atoi = λ s.
      if text_eq s (codes "100")
      then some 0x100
      else if text_eq s (codes "1800")
      then some 0x1800
      else none;
}

abbrev sums : Encoder
sums = record {
  insert_vs1 = λ v b. v + b;
  insert_rs2 = λ v b. v + b;
  insert_rs3 = λ v b. v + b;
  insert_vd = λ v b. v + b;
  insert_rd = λ v b. v + b;
  insert_func3 = λ v b. v + b;
  insert_vm = λ v b. v + b;
  insert_imm12 = λ v b. v + b;
  insert_s_imm = λ v b. v + b;
  insert_b_imm = λ v b. v + b;
  insert_imm20 = λ v b. v + b;
  insert_j_imm = λ v b. v + b;
  insert_uimm5 = λ v b. v + b;
  insert_r_uimm5 = λ v b. v + b;
  insert_succ = λ v b. v + b;
  insert_pred = λ v b. v + b;
  insert_nf = λ v b. v + b;
  insert_zimm11 = λ v b. v + b;
  insert_zimm10 = λ v b. v + b;
}

registers_parsed_example : parse_reg few_texts (spelled abi 25) k_rs1 ≡ encoded 25
registers_parsed_example = registers_parsed few_texts abi 25 k_rs1 (omega arith) refl

fences_parsed_example :
    (parse_reg few_texts (letters true false true true) k_pred
      ≡ encoded (bits_of true false true true))
    × (get_pred_op_encoding few_texts (letters true false true true)
        ≡ encoded (bits_of true false true true))
fences_parsed_example = fences_parsed few_texts true false true true k_pred refl refl

variants_apart_example :
    (accepts sums few_texts (spelled abi 5) (spelled abi 0) vsetvli_xn ≡ not (◌==◌ 0 0))
    × (accepts sums few_texts (spelled abi 5) (spelled abi 0) vsetvli_nz ≡ (0 == 0 && not (5 == 0)))
    × (accepts sums few_texts (spelled abi 5) (spelled abi 0) vsetvli_zz ≡ (0 == 0 && 5 == 0))
variants_apart_example =
    variants_apart sums few_texts (spelled abi 5) (spelled abi 0) 5 0
      (registers_parsed few_texts abi 5 k_none (omega arith) refl)
      (registers_parsed few_texts abi 0 k_rs1 (omega arith) refl)
