-- ===== src/Convolution.antt =====
-- The convolution, sim/coralnpu_vector_convolution_instructions.cc, with the command structure of the
-- header beside it.
pub mod Sums
pub mod Accumulators
pub mod Depthwise
use coralnpu_mpact.Prelude.{ℕ, ◌+◌, ◌-◌, ◌*◌, ◌/◌, ◌%◌, ◌^◌, ◌==◌, ltb, leb, ◌||◌, ◌&&◌, not, Bool}
use coralnpu_mpact.Prelude.{if◌then◌else◌, Option, none, some, ℤ, pos, ◌+ℤ◌, shr_ℤ, for_loop}
use coralnpu_mpact.Scalar.{cast, plus, times, shl, int8, int32, uint32}

-- A bit field, from its lowest bit; the first field of a structure has the lowest bits.
abbrev pub bit_field : ℕ → ℕ → ℕ → ℕ
bit_field low width bits = bits / 2 ^ low % 2 ^ width

-- `vconv_cmd_t`
pub record VconvCmd : Type 0 where
  pub mode : ℕ
  pub start : ℕ
  pub stop : ℕ
  pub sbias1 : ℕ
  pub sdata1 : Bool
  pub sbias2 : ℕ
  pub sdata2 : Bool

unfoldable pub vconv_cmd : ℕ → VconvCmd
vconv_cmd reg_data = record {
  mode = bit_field 0 2 reg_data;
  start = bit_field 2 5 reg_data;
  stop = bit_field 7 5 reg_data;
  sbias1 = bit_field 12 9 reg_data;
  sdata1 = bit_field 21 1 reg_data == 1;
  sbias2 = bit_field 22 9 reg_data;
  sdata2 = bit_field 31 1 reg_data == 1;
}

-- `acc_register`: 8 vectors of 8 values of uint32_t.
abbrev pub Accumulator : Type 0
Accumulator = ℕ → ℕ → ℤ

-- `kVectorLenInByte`, `kVectorLenInWord` and `kQuadBase`
abbrev pub k_vector_len_in_byte : ℕ
k_vector_len_in_byte = 32

abbrev pub k_vector_len_in_word : ℕ
k_vector_len_in_word = 8

abbrev pub k_quad_base : ℕ
k_quad_base = 4

-- `kInterleave`
unfoldable pub k_interleave : ℕ → ℕ
k_interleave i = if i == 1 then 2 else if i == 2 then 1 else i

-- `(static_cast<int32_t>(sbias) << 23) >> 23`
unfoldable pub signed_bias : ℕ → ℤ
signed_bias sbias = shr_ℤ (shl int32 (pos sbias) 23) 23

-- `sdata ? static_cast<int8_t>(n) : n`
unfoldable pub data_value : Bool → ℕ → ℤ
data_value sdata n = if sdata then cast int8 (pos n) else pos n

-- The accumulator that byte `j` of a wide register goes to, for narrow register `i`.
unfoldable pub idx_i : ℕ → ℕ → ℕ
idx_i i j = i / k_quad_base * k_quad_base + k_interleave (j / k_quad_base % k_quad_base)

unfoldable pub idx_j : ℕ → ℕ → ℕ
idx_j i j = i % k_quad_base * (k_vector_len_in_word / k_quad_base) + j / k_quad_base / k_quad_base

-- `accumulator[r][c] += value`
unfoldable pub accumulate : ℕ → ℕ → ℤ → Accumulator → Accumulator
accumulate r c value acc =
    λ x y. if x == r && y == c then cast uint32 (acc x y +ℤ value) else acc x y

-- The registers at `vs1` and `vs3`, by register and byte.
module _ (cmd : VconvCmd) (vs1 vs3 : ℕ → ℕ → ℕ) where
  unfoldable pub product : ℕ → ℕ → ℕ → ℤ
  product k i j =
      let n = vs1 i (k_quad_base * k + j % k_quad_base) in
      let w = vs3 (k - cmd.start) j in
      times int32 (plus int32 (data_value cmd.sdata1 n) (signed_bias cmd.sbias1))
        (plus int32 (data_value cmd.sdata2 w) (signed_bias cmd.sbias2))

  unfoldable pub vconv_loop : Accumulator → Accumulator
  vconv_loop = for_loop (cmd.stop + 1 - cmd.start) cmd.start (λ k.
      for_loop k_vector_len_in_word 0 (λ i.
        for_loop k_vector_len_in_byte 0 (λ j. accumulate (idx_i i j) (idx_j i j) (product k i j))))

-- `CoralNPUVConv`; `none` is an illegal instruction.
unfoldable pub vconv : ℕ → (ℕ → ℕ → ℕ) → (ℕ → ℕ → ℕ) → Accumulator → Option Accumulator
vconv reg_data vs1 vs3 acc =
    let cmd = vconv_cmd reg_data in
    if not (cmd.mode == 0)
    then none
    else if ltb cmd.stop cmd.start
    then none
    else if leb k_vector_len_in_word cmd.start || leb k_vector_len_in_word cmd.stop
    then none
    else some (vconv_loop cmd vs1 vs3 acc)
