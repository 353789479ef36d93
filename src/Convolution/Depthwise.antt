-- ===== src/Convolution/Depthwise.antt =====
-- CoralNPUVDwconv of sim/coralnpu_vector_convolution_instructions.cc, and CoralNPUADwInit of
-- sim/coralnpu_vector_memory_instructions.cc, which prepares its accumulators.
use native.Mathlib.Decide.{ℕ_discrete}
use coralnpu_mpact.Prelude.{
  ℕ, zero, suc, ◌+◌, ◌-◌, ◌*◌, ◌/◌, ◌%◌, ◌^◌, ◌==◌, ◌<◌, ◌≡◌, refl, ◌∙◌, arith, ltb, leb, ◌&&◌,
  Bool, true, false,
}
use coralnpu_mpact.Prelude.{
  if◌then◌else◌, Option, none, some, ℤ, pos, pos_part, neg_part, ◌+ℤ◌, for_loop, for_loop_invariant,
}
use coralnpu_mpact.Scalar.{cast, plus, times, int32, InRange}
use coralnpu_mpact.Convolution.{
  bit_field, k_vector_len_in_byte, k_vector_len_in_word, k_interleave, data_value,
}

-- `vdwconv_u8_t`
pub record VdwconvCmd : Type 0 where
  pub mode : ℕ
  pub sparsity : ℕ
  pub regbase : ℕ
  pub rsvd : ℕ
  pub sbias1 : ℤ
  pub sdata1 : Bool
  pub sbias2 : ℤ
  pub sdata2 : Bool

-- A field of 9 bits of a signed type.
unfoldable pub signed_field : ℕ → ℕ → ℤ
signed_field low bits = cast (record { is_signed = true; bits = 9 }) (pos (bit_field low 9 bits))

unfoldable pub vdwconv_cmd : ℕ → VdwconvCmd
vdwconv_cmd reg_data = record {
  mode = bit_field 0 2 reg_data;
  sparsity = bit_field 2 2 reg_data;
  regbase = bit_field 4 4 reg_data;
  rsvd = bit_field 8 4 reg_data;
  sbias1 = signed_field 12 reg_data;
  sdata1 = bit_field 21 1 reg_data == 1;
  sbias2 = signed_field 22 reg_data;
  sdata2 = bit_field 31 1 reg_data == 1;
}

-- `vs1_idx`, by the base and the position.
unfoldable pub vs1_idx : ℕ → ℕ → ℕ
vs1_idx regbase n =
    if ltb regbase 7
    then regbase + n
    else if regbase == 7
    then (if n == 0 then 1 else if n == 1 then 0 else 2)
    else if ltb regbase 12
    then (if n == 2 then 0 else 2 * regbase - 15 + n)
    else (if n == 0 then 2 * regbase - 22 else n - 1)

-- Where word `w` of row `r` of `a_data` is copied from: which of the three registers, and its word.
unfoldable pub a_data : ℕ → ℕ → ℕ → ℕ × ℕ
a_data sparsity r w =
    if sparsity == 0
    then (r, w)
    else if sparsity == 1
    then if r == 0
      then (if w == 0 then (0, 7) else (1, w - 1))
      else if r == 1
      then (1, w)
      else if ltb w 7
      then (1, w + 1)
      else (2, 0)
    else if r == 0
    then (0, w)
    else if r == 1
    then (if ltb w 7 then (0, w + 1) else (1, 0))
    else if ltb w 6
    then (0, w + 2)
    else if w == 6
    then (1, 0)
    else (1, 1)

-- `kDwRegisterProducts`
abbrev pub k_dw_register_products : ℕ
k_dw_register_products = 3

abbrev is_int32 : ℤ → Bool
is_int32 z = leb (neg_part z) (2 ^ 31) && ltb (pos_part z) (2 ^ 31)

-- The accumulator of lane `i`.
unfoldable pub dw_place : ℕ → ℕ
dw_place i = k_vector_len_in_word * k_interleave (i % 4) + i / 4

-- `acc[p] += value` on an `int32_t`; `none` is a sum that overflows, whose behaviour is undefined.
unfoldable pub dw_accumulate : ℕ → ℤ → Option (ℕ → ℤ) → Option (ℕ → ℤ)
dw_accumulate p value none = none
dw_accumulate p value (some acc) =
    if is_int32 (acc p +ℤ value) then some (λ q. if q == p then acc q +ℤ value else acc q) else none

-- The registers at `vs1` and `vs3`, by register and byte.
module _ (cmd : VdwconvCmd) (vs1 vs3 : ℕ → ℕ → ℕ) where
  unfoldable pub dw_product : ℕ → ℕ → ℤ
  dw_product r i =
      let from = a_data cmd.sparsity r (i / 4) in
      let a = vs1 (vs1_idx cmd.regbase from.0) (4 * from.1 + i % 4) in
      let b = vs3 r i in
      times int32 (plus int32 (data_value cmd.sdata1 a) cmd.sbias1)
        (plus int32 (data_value cmd.sdata2 b) cmd.sbias2)

  unfoldable pub vdwconv_loop : Option (ℕ → ℤ) → Option (ℕ → ℤ)
  vdwconv_loop =
      for_loop k_dw_register_products 0
        (λ r. for_loop k_vector_len_in_byte 0 (λ i. dw_accumulate (dw_place i) (dw_product r i)))

-- `CoralNPUVDwconv`: the accumulators, and the registers at `vd` by register and word where it writes
-- them. `none` is a sum that overflows, or the sparsity 3: the code traps, and then goes on with data
-- that it has not set.
unfoldable pub vdwconv :
    Bool → ℕ → (ℕ → ℕ → ℕ) → (ℕ → ℕ → ℕ) → (ℕ → ℤ) → Option ((ℕ → ℤ) × Option (ℕ → ℕ → ℤ))
vdwconv write_acc reg_data vs1 vs3 acc =
    let cmd = vdwconv_cmd reg_data in
    let written = λ (left : ℕ → ℤ).
      if write_acc then some (λ i j. left (i * k_vector_len_in_word + j)) else none in
    if ltb cmd.sparsity 3
    then elim (vdwconv_loop cmd vs1 vs3 (some acc)) [
      | none ↦ none
      | some left ↦ some (left, written left)
    ]
    else none

-- The registers one after the other, word by word.
unfoldable pub window : ℕ → ℕ → ℕ × ℕ
window start r = ((start + r) / 8, (start + r) % 8)

-- The rows of `a_data` are the three registers, or windows of 8 words on them that are one word apart
-- and start at the last word of the first register or at its first word.
a_data-window :
    (sparsity r w : ℕ)
    → sparsity < 3
    → r < 3
    → w < 8
    → a_data sparsity r w ≡ (
        if sparsity == 0
        then window (8 * r) w
        else if sparsity == 1
        then window (7 + r) w
        else window r w)
unfolding a_data window
a_data-window sparsity r w s l k = ground arith

same_dw_place : (i j : ℕ) → i < 32 → j < 32 → (dw_place i == dw_place j) ≡ (j == i)
unfolding dw_place k_interleave
same_dw_place i j a b = ground arith

self : (j : ℕ) → (j == j) ≡ true
self j = ground arith

module _ (cmd : VdwconvCmd) (vs1 vs3 : ℕ → ℕ → ℕ) (acc : ℕ → ℤ) where
  -- The exact sum for lane `i` over the first registers.
  unfoldable pub dw_sum : ℕ → ℕ → ℤ
  dw_sum zero i = acc (dw_place i)
  dw_sum (suc r) i = dw_sum r i +ℤ dw_product cmd vs1 vs3 r i

  -- The loops after the lanes below `j` of register `r`.
  Summed : ℕ → ℕ → Option (ℕ → ℤ) → Type 0
  Summed r j o =
      (left : ℕ → ℤ) × (o ≡ some left)
      × ((i : ℕ) → i < 32 → left (dw_place i) ≡ (if ltb i j then dw_sum (suc r) i else dw_sum r i))

  -- The outer loop after the first registers.
  RowsSummed : ℕ → Option (ℕ → ℤ) → Type 0
  RowsSummed r o =
      (left : ℕ → ℤ) × (o ≡ some left) × ((i : ℕ) → i < 32 → left (dw_place i) ≡ dw_sum r i)

  module _ (fits : (i r : ℕ) → i < 32 → r < 4 → InRange int32 (dw_sum r i)) where
    dw_accumulate-Summed :
        (r j : ℕ) (o : Option (ℕ → ℤ))
        → r < 3
        → j < 32
        → Summed r j o
        → Summed r (j + 1) (dw_accumulate (dw_place j) (dw_product cmd vs1 vs3 r j) o)
    unfolding Summed dw_accumulate dw_sum
    dw_accumulate-Summed r j o k l (left, e, h) =
        let same : ltb j j ≡ false = ground arith in
        let here : left (dw_place j) ≡ dw_sum r j = h j l ∙ rw same refl in
        let sum = dw_sum r j +ℤ dw_product cmd vs1 vs3 r j in
        let small : is_int32 sum ≡ true = ground (arith, fits j (suc r) l (omega arith)) in
        (
          (λ q. if q == dw_place j then left q +ℤ dw_product cmd vs1 vs3 r j else left q),
          rw (e, here, small) refl,
          (λ i below. elim (ℕ_discrete i j) [
            | yes q ↦
                let now : ltb j (j + 1) ≡ true = ground arith in
                rw (q, same_dw_place j j l l, self j, now, here) refl
            | no n ↦
                let apart : (j == i) ≡ false = ground (arith, n) in
                let later : ltb i (j + 1) ≡ ltb i j = ground (arith, n) in
                rw (same_dw_place i j below l, apart, later) (h i below)
          ]),
        )

    row-RowsSummed :
        (r : ℕ) (o : Option (ℕ → ℤ))
        → r < 3
        → RowsSummed r o
        → RowsSummed
            (r + 1)
            (for_loop 32 0 (λ i. dw_accumulate (dw_place i) (dw_product cmd vs1 vs3 r i)) o)
    unfolding Summed RowsSummed
    row-RowsSummed r o k (before, p, b) =
        let none_yet : (i : ℕ) → ltb i 0 ≡ false = λ i. ground arith in
        let (left, e, h) =
          for_loop_invariant (Summed r) 32 0
            (λ i. dw_accumulate (dw_place i) (dw_product cmd vs1 vs3 r i)) o
            (λ j b p l. dw_accumulate-Summed r j b k l)
            (before, p, (λ i below. b i below ∙ rw (none_yet i) refl)) in
        (
          left,
          e,
          (λ i below.
              let all : ltb i 32 ≡ true = ground arith in
              let one_more : r + 1 ≡ suc r = omega arith in rw one_more (h i below ∙ rw all refl)),
        )

    vdwconv_loop-RowsSummed : RowsSummed 3 (vdwconv_loop cmd vs1 vs3 (some acc))
    unfolding vdwconv_loop RowsSummed dw_sum
    vdwconv_loop-RowsSummed =
        for_loop_invariant RowsSummed 3 0 _ (some acc) (λ r o p l. row-RowsSummed r o l)
          (acc, refl, (λ i below. refl))

-- Where the command's sparsity is not 3, and in each of the 32 lanes the sums of its accumulator with
-- the lane's first products, up to all three of them, fit in 32 bits, VDWCONV leaves in the
-- accumulator of each lane the exact sum with the three products, and where it writes the
-- accumulators, register `k` of the destination holds the eight accumulators from `8 * k` on.
pub vdwconv_lem :
    (write_acc : Bool) (reg_data : ℕ) (vs1 vs3 : ℕ → ℕ → ℕ) (acc : ℕ → ℤ) (i : ℕ)
    → (vdwconv_cmd reg_data).sparsity < 3
    → ((j r : ℕ) → j < 32 → r < 4 → InRange int32 (dw_sum (vdwconv_cmd reg_data) vs1 vs3 acc r j))
    → i < 32
    → (left : ℕ → ℤ) × (vdwconv write_acc reg_data vs1 vs3 acc
        ≡ some (left, if write_acc then some (λ k j. left (k * 8 + j)) else none))
      × (left (dw_place i) ≡ dw_sum (vdwconv_cmd reg_data) vs1 vs3 acc 3 i)
unfolding vdwconv RowsSummed
vdwconv_lem write_acc reg_data vs1 vs3 acc i s fits below =
    let cmd = vdwconv_cmd reg_data in
    let valid : ltb cmd.sparsity 3 ≡ true = ground arith in
    let (left, e, h) = vdwconv_loop-RowsSummed cmd vs1 vs3 acc fits in
    (left, rw (valid, e) refl, h i below)

-- The bytes of the accumulators, and the registers at `vd` by register and byte.
pub record DwState : Type 0 where
  pub dwacc : ℕ → ℕ
  pub vd : ℕ → ℕ → ℕ

-- `CoralNPUADwInit`, from the registers at `vs`: four whole registers to the accumulators, and the
-- first 8 bytes of each to the destination.
unfoldable pub a_dw_init : (ℕ → ℕ → ℕ) → DwState → DwState
a_dw_init vs = for_loop 4 0 (λ op_index s. record {
  dwacc =
      for_loop 32 0 (λ i acc p. if p == 4 * (8 * op_index) + i then vs op_index i else acc p)
        s.dwacc;
  vd = for_loop 8 0 (λ i vd r b. if r == op_index && b == i then vs op_index i else vd r b) s.vd;
})
