-- ===== src/Convolution/Sums.antt =====
-- What CoralNPUVConv of sim/coralnpu_vector_convolution_instructions.cc leaves in the accumulators.
use coralnpu_mpact.Prelude.{
  ℕ, ◌+◌, ◌-◌, ◌*◌, ◌/◌, ◌==◌, ◌≤◌, ◌<◌, ◌≡◌, ◌≢◌, refl, sym, ap, ◌∙◌, arith,
}
use coralnpu_mpact.Prelude.{ltb, leb, ◌&&◌, true, false, if◌then◌else◌}
use coralnpu_mpact.Prelude.{
  some, ℤ, ◌+ℤ◌, for_loop, for_loop_once, for_loop_window, for_loop_idle, for_loop_cong,
  for_loop_maps,
}
use coralnpu_mpact.Scalar.{cast, uint32, u32, InRange}
use coralnpu_mpact.Scalar.Range.{cast_self}
use coralnpu_mpact.Scalar.Congruence.{cast-add_left}
use coralnpu_mpact.Convolution.{
  VconvCmd, vconv_cmd, Accumulator, k_interleave, idx_i, idx_j, accumulate, product, vconv_loop,
  vconv,
}

-- Two bytes of two narrow registers go to the same accumulator only if the registers are the same and
-- the bytes belong to the same word.
same_place :
    (i j r w : ℕ)
    → i < 8
    → j < 32
    → r < 8
    → w < 8
    → (idx_i r (4 * w) == idx_i i j && idx_j r (4 * w) == idx_j i j) ≡ (i == r && j / 4 == w)
unfolding idx_i idx_j k_interleave
same_place i j r w a b c d = ground arith

-- `+=` on a value of uint32_t.
abbrev add : ℤ → ℤ → ℤ
add a value = cast uint32 (a +ℤ value)

module _ (f : ℕ → ℕ → ℤ) (r w : ℕ) (below : r < 8) (inside : w < 8) where
  -- What the products of one step of the command do to the accumulator of register `r` and word `w`.
  cell : ℕ → ℕ → ℤ → ℤ
  cell i j a = if i == r && j / 4 == w then add a (f i j) else a

  cell_other : (i j : ℕ) (a : ℤ) → i ≢ r → cell i j a ≡ a
  unfolding cell
  cell_other i j a n = ground (arith, n)

  cell_apart : (j : ℕ) (a : ℤ) → j / 4 ≢ w → cell r j a ≡ a
  unfolding cell
  cell_apart j a n = ground (arith, n)

  cell_here : (j : ℕ) (a : ℤ) → j / 4 ≡ w → cell r j a ≡ add a (f r j)
  unfolding cell
  cell_here j a e = ground (arith, e)

  word : ℤ → ℤ
  word a = for_loop 4 (4 * w) (λ j b. add b (f r j)) a

  row_here : (a : ℤ) → for_loop 32 0 (cell r) a ≡ word a
  unfolding word
  row_here a =
      let count : 32 ≡ 4 * w + (4 + (28 - 4 * w)) = omega arith in
      ap (λ n. for_loop n 0 (cell r) a) count
      ∙ for_loop_window (4 * w) 4 (28 - 4 * w) 0 (cell r) a (λ j b q. cell_apart j b (omega arith))
          (λ j b p q. cell_apart j b (omega arith))
      ∙ ap (λ i. for_loop 4 i (cell r) a) (omega arith)
      ∙ for_loop_cong 4 (4 * w) (cell r) (λ j b. add b (f r j)) a
          (λ j b p q. cell_here j b (omega arith))

  row_other : (i : ℕ) (a : ℤ) → i ≢ r → for_loop 32 0 (cell i) a ≡ a
  row_other i a n = for_loop_idle 32 0 (cell i) a (λ j p q. cell_other i j a n)

  rows : (a : ℤ) → for_loop 8 0 (λ i. for_loop 32 0 (cell i)) a ≡ word a
  rows a =
      let count : 8 ≡ r + (1 + (7 - r)) = omega arith in
      ap (λ n. for_loop n 0 row a) count
      ∙ for_loop_window r 1 (7 - r) 0 row a (λ i b q. row_other i b (omega arith))
          (λ i b p q. row_other i b (omega arith))
      ∙ ap (λ i. for_loop 1 i row a) (omega arith)
      ∙ one_row
      ∙ row_here a
    where
      row : ℕ → ℤ → ℤ
      row i = for_loop 32 0 (cell i)

      one_row : for_loop 1 r row a ≡ row r a
      one_row = for_loop_once r row a

-- A sum modulo 2 ^ 32 that is the exact sum, wrapped once.
add-cast : (a value : ℤ) → add (cast uint32 a) value ≡ cast uint32 (a +ℤ value)
add-cast a value = cast-add_left u32 a value

word_exact :
    (f : ℕ → ℕ → ℤ) (r w : ℕ) (below : r < 8) (inside : w < 8) (z : ℤ)
    → word f r w below inside (cast uint32 z)
      ≡ cast uint32 (for_loop 4 (4 * w) (λ j s. s +ℤ f r j) z)
unfolding word
word_exact f r w below inside z = sym (
    for_loop_maps (cast uint32) 4 (4 * w) (λ j s. s +ℤ f r j) (λ j b. add b (f r j)) z
      (λ j b p q. sym (add-cast b (f r j))))

module _ (cmd : VconvCmd) (vs1 vs3 : ℕ → ℕ → ℕ) where
  -- The convolution's sum for narrow register `r` and word `w` of the wide registers, exactly: over the
  -- steps of the command, and over the four bytes of the word.
  unfoldable pub exact_sum : ℕ → ℕ → ℤ → ℤ
  exact_sum r w =
      for_loop (cmd.stop + 1 - cmd.start) cmd.start
        (λ k. for_loop 4 (4 * w) (λ j s. s +ℤ product cmd vs1 vs3 k r j))

  module _ (r w : ℕ) (below : r < 8) (inside : w < 8) where
    abbrev at_place : Accumulator → ℤ
    at_place acc = acc (idx_i r (4 * w)) (idx_j r (4 * w))

    accumulate_place :
        (i j k : ℕ) (acc : Accumulator)
        → i < 8
        → j < 32
        → at_place (accumulate (idx_i i j) (idx_j i j) (product cmd vs1 vs3 k i j) acc)
          ≡ cell (product cmd vs1 vs3 k) r w below inside i j (at_place acc)
    unfolding accumulate cell
    accumulate_place i j k acc a b = rw (same_place i j r w a b below inside) refl

    abbrev words : ℕ → ℤ → ℤ
    words k = word (product cmd vs1 vs3 k) r w below inside

    step_place :
        (k : ℕ) (acc : Accumulator)
        → at_place (
            for_loop 8 0
              (λ i.
                for_loop 32 0 (λ j. accumulate (idx_i i j) (idx_j i j) (product cmd vs1 vs3 k i j)))
              acc)
          ≡ words k (at_place acc)
    step_place k acc =
        for_loop_maps at_place 8 0 _
          (λ i. for_loop 32 0 (cell (product cmd vs1 vs3 k) r w below inside i)) acc
          (λ i b p q.
            for_loop_maps at_place 32 0 _ (cell (product cmd vs1 vs3 k) r w below inside i) b
              (λ j c y z. accumulate_place i j k c q z))
        ∙ rows (product cmd vs1 vs3 k) r w below inside (at_place acc)

    vconv_loop_place :
        (acc : Accumulator) (z : ℤ)
        → at_place acc ≡ cast uint32 z
        → at_place (vconv_loop cmd vs1 vs3 acc) ≡ cast uint32 (exact_sum r w z)
    unfolding vconv_loop exact_sum
    vconv_loop_place acc z e =
        let n = cmd.stop + 1 - cmd.start in
        for_loop_maps at_place n cmd.start _ words acc (λ k b p q. step_place k b)
        ∙ ap (for_loop n cmd.start words) e
        ∙ sym (
            for_loop_maps (cast uint32) n cmd.start
              (λ k. for_loop 4 (4 * w) (λ j s. s +ℤ product cmd vs1 vs3 k r j)) words z
              (λ k s p q. sym (word_exact (product cmd vs1 vs3 k) r w below inside s)))

-- Where the command's mode is 0 and its first step is neither after its last one nor either of them 8
-- or more, VCONV does not trap, and adds to each accumulator the exact sum of the products of one
-- narrow register with the four bytes of one word of the wide registers, over the steps of the
-- command, wrapped once to 32 bits; the accumulators of register `r` and word `w` are interleaved.
pub vconv_lem :
    (reg_data : ℕ) (vs1 vs3 : ℕ → ℕ → ℕ) (acc : Accumulator) (r w : ℕ)
    → (vconv_cmd reg_data).mode ≡ 0
    → (vconv_cmd reg_data).start ≤ (vconv_cmd reg_data).stop
    → (vconv_cmd reg_data).stop < 8
    → r < 8
    → w < 8
    → InRange uint32 (acc (idx_i r (4 * w)) (idx_j r (4 * w)))
    → (let cmd = vconv_cmd reg_data in
        let left = vconv_loop cmd vs1 vs3 acc in
        (vconv reg_data vs1 vs3 acc ≡ some left)
        × (left (idx_i r (4 * w)) (idx_j r (4 * w))
            ≡ cast uint32 (exact_sum cmd vs1 vs3 r w (acc (idx_i r (4 * w)) (idx_j r (4 * w))))))
unfolding vconv
vconv_lem reg_data vs1 vs3 acc r w m o l below inside fits =
    let cmd = vconv_cmd reg_data in
    let mode : (cmd.mode == 0) ≡ true = ground (arith, m) in
    let ordered : ltb cmd.stop cmd.start ≡ false = ground (arith, o) in
    let first : leb 8 cmd.start ≡ false = ground (arith, o, l) in
    let last : leb 8 cmd.stop ≡ false = ground (arith, l) in
    (
      rw (mode, ordered, first, last) refl,
      vconv_loop_place cmd vs1 vs3 r w below inside acc _ (sym (cast_self u32 _ fits)),
    )
