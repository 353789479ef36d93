-- ===== src/Assembler/Variants.antt =====
-- The variants of vsetvli in sim/coralnpu_m3_bin_encoder_interface.cc.
use coralnpu_mpact.Prelude.{
  ℕ, ◌==◌, ◌≡◌, refl, ◌∙◌, ◌&&◌, not, Bool, true, false, List, if◌then◌else◌,
}
use coralnpu_mpact.Assembler.{Absl, Encoded, encoded, invalid_argument, k_rs1, k_none, parse_reg}
use coralnpu_mpact.Assembler.Operands.{
  Encoder, Opcode, vsetvli_xn, vsetvli_nz, vsetvli_zz, d_rd, takes_rs1, takes_rd, rs1_encoding,
  rd_encoding, source_encoding, destination_encoding, get_src_op_encoding, get_dest_op_encoding,
}

abbrev pub is_encoded : Encoded → Bool
is_encoded (encoded n) = true
is_encoded invalid_argument = false

-- Whether an opcode is encoded with both operands.
abbrev pub accepts : Encoder → Absl → List ℕ → List ℕ → Opcode → Bool
accepts e a rd rs1 opcode =
    is_encoded (get_src_op_encoding e a 0 rs1 opcode k_rs1)
    && is_encoded (get_dest_op_encoding e a rd opcode d_rd)

taken : (c : Bool) (n : ℕ) → is_encoded (if c then encoded n else invalid_argument) ≡ c
taken true n = refl
taken false n = refl

accepts_lem :
    (e : Encoder) (a : Absl) (rd rs1 : List ℕ) (d s : ℕ) (opcode : Opcode)
    → parse_reg a rd k_none ≡ encoded d
    → parse_reg a rs1 k_rs1 ≡ encoded s
    → accepts e a rd rs1 opcode ≡ (takes_rs1 opcode s && takes_rd opcode d)
unfolding get_src_op_encoding get_dest_op_encoding source_encoding destination_encoding rs1_encoding
    rd_encoding
accepts_lem e a rd rs1 d s opcode h k =
    rw
      (
        get_src_op_encoding,
        get_dest_op_encoding,
        h,
        k,
        taken (takes_rs1 opcode s) (e.insert_vs1 s 0),
        taken (takes_rd opcode d) (e.insert_rd d 0),
      )
      refl

and_true : (b : Bool) → (b && true) ≡ b
and_true true = refl
and_true false = refl

-- Exactly one variant of vsetvli takes a pair of registers: vsetvli_xn where the source is not x0, and
-- else vsetvli_nz where the destination is not x0, and vsetvli_zz where it is.
pub variants_apart :
    (e : Encoder) (a : Absl) (rd rs1 : List ℕ) (d s : ℕ)
    → parse_reg a rd k_none ≡ encoded d
    → parse_reg a rs1 k_rs1 ≡ encoded s
    → (accepts e a rd rs1 vsetvli_xn ≡ not (s == 0))
      × (accepts e a rd rs1 vsetvli_nz ≡ (s == 0 && not (d == 0)))
      × (accepts e a rd rs1 vsetvli_zz ≡ (s == 0 && d == 0))
unfolding takes_rs1 takes_rd
variants_apart e a rd rs1 d s h k = (
  accepts_lem e a rd rs1 d s vsetvli_xn h k ∙ and_true (not (s == 0)),
  accepts_lem e a rd rs1 d s vsetvli_nz h k,
  accepts_lem e a rd rs1 d s vsetvli_zz h k,
)
