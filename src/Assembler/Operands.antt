-- ===== src/Assembler/Operands.antt =====
-- GetOpcodeEncoding, GetSrcOpEncoding and GetDestOpEncoding of sim/coralnpu_m3_bin_encoder_interface.cc.
-- The functions that insert a field and the table of opcodes are generated by the build.
use coralnpu_mpact.Prelude.{ℕ, ◌+◌, ◌-◌, ◌%◌, ◌^◌, ◌==◌, leb, not, Bool, true}
use coralnpu_mpact.Prelude.{if◌then◌else◌, Option, List}
use coralnpu_mpact.Assembler.{
  Absl, Encoded, encoded, invalid_argument, SourceOp, k_rs1, k_frs1, k_vs1, k_rs2, k_frs2, k_vs2,
  k_frs3, k_vs3, k_vd, k_rm, k_vmask, k_i_imm12, k_csr, k_j_imm12, k_s_imm12, k_b_imm12, k_u_imm20,
  k_j_imm20, k_csr_uimm5, k_simm5, k_uimm5, k_r_uimm5, k_succ, k_pred, k_nf, k_zimm11, k_zimm10,
  k_const1, k_const2, k_const4, k_vmask_true, k_none, k_other, parse_reg,
}

-- The generated functions, each on the value and the bits to insert it in.
pub record Encoder : Type 0 where
  pub insert_vs1 : ℕ → ℕ → ℕ
  pub insert_rs2 : ℕ → ℕ → ℕ
  pub insert_rs3 : ℕ → ℕ → ℕ
  pub insert_vd : ℕ → ℕ → ℕ
  pub insert_rd : ℕ → ℕ → ℕ
  pub insert_func3 : ℕ → ℕ → ℕ
  pub insert_vm : ℕ → ℕ → ℕ
  pub insert_imm12 : ℕ → ℕ → ℕ
  pub insert_s_imm : ℕ → ℕ → ℕ
  pub insert_b_imm : ℕ → ℕ → ℕ
  pub insert_imm20 : ℕ → ℕ → ℕ
  pub insert_j_imm : ℕ → ℕ → ℕ
  pub insert_uimm5 : ℕ → ℕ → ℕ
  pub insert_r_uimm5 : ℕ → ℕ → ℕ
  pub insert_succ : ℕ → ℕ → ℕ
  pub insert_pred : ℕ → ℕ → ℕ
  pub insert_nf : ℕ → ℕ → ℕ
  pub insert_zimm11 : ℕ → ℕ → ℕ
  pub insert_zimm10 : ℕ → ℕ → ℕ

-- `OpcodeEnum`, as far as the file names its values.
pub data Opcode : Type 0 where
  vsetvli_xn vsetvli_nz vsetvli_zz other_opcode : Opcode

-- `DestOpEnum`, as far as the file names its values.
pub data DestOp : Type 0 where
  d_rd d_frd d_vd d_csr d_fflags d_next_pc d_none d_other : DestOp

-- A difference of 64 bits.
unfoldable pub sub64 : ℕ → ℕ → ℕ
sub64 a b = (a + 2 ^ 64 - b % 2 ^ 64) % 2 ^ 64

-- The offset of a branch, by its address and the parsed value.
unfoldable pub branch_offset : ℕ → ℕ → ℕ
branch_offset address val = if leb (2 ^ 63) val then val else sub64 val address

-- Whether the opcode takes the value as its first source.
unfoldable pub takes_rs1 : Opcode → ℕ → Bool
takes_rs1 vsetvli_xn val = not (val == 0)
takes_rs1 vsetvli_nz val = val == 0
takes_rs1 vsetvli_zz val = val == 0
takes_rs1 other_opcode val = true

-- Whether the opcode takes the value as its destination.
unfoldable pub takes_rd : Opcode → ℕ → Bool
takes_rd vsetvli_xn val = true
takes_rd vsetvli_nz val = not (val == 0)
takes_rd vsetvli_zz val = val == 0
takes_rd other_opcode val = true

module _ (e : Encoder) where
  unfoldable pub rs1_encoding : Opcode → ℕ → Encoded
  rs1_encoding opcode val =
      if takes_rs1 opcode val then encoded (e.insert_vs1 val 0) else invalid_argument

  -- The switch of `GetSrcOpEncoding`
  unfoldable pub source_encoding : ℕ → Opcode → SourceOp → ℕ → Encoded
  source_encoding address opcode k_rs1 val = rs1_encoding opcode val
  source_encoding address opcode k_frs1 val = rs1_encoding opcode val
  source_encoding address opcode k_vs1 val = rs1_encoding opcode val
  source_encoding address opcode k_rs2 val = encoded (e.insert_rs2 val 0)
  source_encoding address opcode k_frs2 val = encoded (e.insert_rs2 val 0)
  source_encoding address opcode k_vs2 val = encoded (e.insert_rs2 val 0)
  source_encoding address opcode k_frs3 val = encoded (e.insert_rs3 val 0)
  source_encoding address opcode k_vs3 val = encoded (e.insert_vd val 0)
  source_encoding address opcode k_vd val = encoded (e.insert_vd val 0)
  source_encoding address opcode k_rm val = encoded (e.insert_func3 val 0)
  source_encoding address opcode k_vmask val = encoded (e.insert_vm val 0)
  source_encoding address opcode k_i_imm12 val = encoded (e.insert_imm12 val 0)
  source_encoding address opcode k_csr val = encoded (e.insert_imm12 val 0)
  source_encoding address opcode k_j_imm12 val = encoded (e.insert_imm12 val 0)
  source_encoding address opcode k_s_imm12 val = encoded (e.insert_s_imm val 0)
  source_encoding address opcode k_b_imm12 val =
      encoded (e.insert_b_imm (branch_offset address val) 0)
  source_encoding address opcode k_u_imm20 val = encoded (e.insert_imm20 val 0)
  source_encoding address opcode k_j_imm20 val = encoded (e.insert_j_imm (sub64 val address) 0)
  source_encoding address opcode k_csr_uimm5 val = encoded (e.insert_uimm5 val 0)
  source_encoding address opcode k_simm5 val = encoded (e.insert_uimm5 val 0)
  source_encoding address opcode k_uimm5 val = encoded (e.insert_uimm5 val 0)
  source_encoding address opcode k_r_uimm5 val = encoded (e.insert_r_uimm5 val 0)
  source_encoding address opcode k_succ val = encoded (e.insert_succ val 0)
  source_encoding address opcode k_pred val = encoded (e.insert_pred val 0)
  source_encoding address opcode k_nf val = encoded (e.insert_nf (sub64 val 1) 0)
  source_encoding address opcode k_zimm11 val = encoded (e.insert_zimm11 val 0)
  source_encoding address opcode k_zimm10 val = encoded (e.insert_zimm10 val 0)
  source_encoding address opcode k_const1 val = encoded 0
  source_encoding address opcode k_const2 val = encoded 0
  source_encoding address opcode k_const4 val = encoded 0
  source_encoding address opcode k_vmask_true val = encoded 0
  source_encoding address opcode k_none val = encoded 0
  source_encoding address opcode k_other val = invalid_argument

  -- `GetSrcOpEncoding`
  unfoldable pub get_src_op_encoding : Absl → ℕ → List ℕ → Opcode → SourceOp → Encoded
  get_src_op_encoding a address text opcode source_op = elim (parse_reg a text source_op) [
    | encoded val ↦ source_encoding address opcode source_op val
    | invalid_argument ↦ invalid_argument
  ]

  unfoldable pub rd_encoding : Opcode → ℕ → Encoded
  rd_encoding opcode val =
      if takes_rd opcode val then encoded (e.insert_rd val 0) else invalid_argument

  -- The switch of `GetDestOpEncoding`
  unfoldable pub destination_encoding : Opcode → DestOp → ℕ → Encoded
  destination_encoding opcode d_rd val = rd_encoding opcode val
  destination_encoding opcode d_frd val = rd_encoding opcode val
  destination_encoding opcode d_vd val = encoded (e.insert_vd val 0)
  destination_encoding opcode d_csr val = encoded (e.insert_imm12 val 0)
  destination_encoding opcode d_fflags val = encoded 0
  destination_encoding opcode d_next_pc val = encoded 0
  destination_encoding opcode d_none val = encoded 0
  destination_encoding opcode d_other val = invalid_argument

  -- `GetDestOpEncoding`; `ParseReg` is called with its default operand, kNone.
  unfoldable pub get_dest_op_encoding : Absl → List ℕ → Opcode → DestOp → Encoded
  get_dest_op_encoding a text opcode dest_op = elim (parse_reg a text k_none) [
    | encoded val ↦ destination_encoding opcode dest_op val
    | invalid_argument ↦ invalid_argument
  ]

-- `GetOpcodeEncoding`, by the generated table `kOpcodeEncodings`: the encoding and its width.
unfoldable pub get_opcode_encoding : (ℕ → Option (ℕ × ℕ)) → ℕ → Option (ℕ × ℕ)
get_opcode_encoding opcode_encodings opcode = opcode_encodings opcode

-- `GetListSrcOpEncoding` and `GetListDestOpEncoding`
unfoldable pub get_list_op_encoding : List ℕ → Encoded
get_list_op_encoding text = invalid_argument
