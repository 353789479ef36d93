-- ===== src/Convolution/Accumulators.antt =====
-- The moves between the registers and the accumulators of the convolutions, at the end of
-- sim/coralnpu_vector_memory_instructions.cc.
use native.Mathlib.Decide.{ℕ_discrete}
use coralnpu_mpact.Prelude.{
  ℕ, ◌+◌, ◌-◌, ◌==◌, ◌<◌, ◌≢◌, ◌≡◌, refl, ap, ◌∙◌, arith, ◌&&◌, Bool, true, false,
}
use coralnpu_mpact.Prelude.{
  if◌then◌else◌, ℤ, pos, for_loop, for_loop_maps, for_loop_idle, for_loop_window, for_loop_once,
  for_loop_sets,
}
use coralnpu_mpact.Convolution.{Accumulator, k_vector_len_in_word}

-- `(*state->acc_vec(r))[c] = value`; the words of registers are written alike.
unfoldable pub set_word : ℕ → ℕ → ℤ → Accumulator → Accumulator
set_word r c value acc = λ x y. if x == r && y == c then value else acc x y

-- `acc_vec->fill(0)`
unfoldable pub fill_zero : ℕ → Accumulator → Accumulator
fill_zero r acc = λ x y. if x == r then pos 0 else acc x y

-- `CoralNPUAcSet`, from the registers at `vs` by register and word.
unfoldable pub ac_set : Bool → (ℕ → ℕ → ℤ) → Accumulator → Accumulator
ac_set is_transpose vs = for_loop k_vector_len_in_word 0 (λ op_index.
    for_loop k_vector_len_in_word 0 (λ i.
      if is_transpose
      then set_word i op_index (vs op_index i)
      else set_word op_index i (vs op_index i)))

-- What `CoralNPUVcGet` writes: the registers at `vd`, and the accumulators.
pub record Moved : Type 0 where
  pub vd : ℕ → ℕ → ℤ
  pub acc : Accumulator

-- The words of one register.
unfoldable pub get_vector : ℕ → Moved → Moved
get_vector op_index =
    for_loop k_vector_len_in_word 0
      (λ i m. record m { vd = set_word op_index i (m.acc op_index i) m.vd })

-- `CoralNPUVcGet`
unfoldable pub vc_get : Moved → Moved
vc_get = for_loop k_vector_len_in_word 0 (λ op_index m.
    (let moved = get_vector op_index m in record moved { acc = fill_zero op_index moved.acc }))

module _ (x y : ℕ) (below : x < 8) (inside : y < 8) where
  module _ (p q : ℕ) (v : ℤ) where
    cell : ℕ → ℕ → ℤ → ℤ
    cell i j a = if i == p && j == q then v else a

    cell_row : (i j : ℕ) (a : ℤ) → i ≢ p → cell i j a ≡ a
    unfolding cell
    cell_row i j a n = ground (arith, n)

    cell_column : (i j : ℕ) (a : ℤ) → j ≢ q → cell i j a ≡ a
    unfolding cell
    cell_column i j a n = ground (arith, n)

    cell_here : (a : ℤ) → cell p q a ≡ v
    unfolding cell
    cell_here a = ground arith

    -- A pair of loops over the words of the accumulators sets each of them.
    grid_sets :
        (step : ℕ → ℕ → Accumulator → Accumulator) (acc : Accumulator)
        → p < 8
        → q < 8
        → ((i j : ℕ) (a : Accumulator) → step i j a x y ≡ cell i j (a x y))
        → for_loop 8 0 (λ i. for_loop 8 0 (step i)) acc x y ≡ v
    grid_sets step acc a b h =
        for_loop_maps at 8 0 (λ i. for_loop 8 0 (step i)) (λ i. for_loop 8 0 (cell i)) acc
          (λ i c _ _. for_loop_maps at 8 0 (step i) (cell i) c (λ j d _ _. h i j d))
        ∙ for_loop_sets 8 p (λ i. for_loop 8 0 (cell i)) v (acc x y) a
            (λ i c n. for_loop_idle 8 0 (cell i) c (λ j _ _. cell_row i j c n))
            (λ c. for_loop_sets 8 q (cell p) v c b (λ j d n. cell_column p j d n) cell_here)
      where
        at : Accumulator → ℤ
        at m = m x y

  -- A word that is set where the loops are.
  set_word-cell :
      (values : ℕ → ℕ → ℤ) (i j : ℕ) (a : Accumulator)
      → set_word i j (values i j) a x y ≡ cell x y (values x y) i j (a x y)
  unfolding set_word cell
  set_word-cell values i j a = elim (ℕ_discrete i x) [
    | no n ↦ ground (arith, n)
    | yes e ↦ elim (ℕ_discrete j y) [
      | no n ↦ ground (arith, n)
      | yes e' ↦ rw (e, e') (ground arith)
    ]
  ]

  -- The same for a word that is set at the place of the loops turned over.
  set_word-turned :
      (values : ℕ → ℕ → ℤ) (i j : ℕ) (a : Accumulator)
      → set_word j i (values i j) a x y ≡ cell y x (values y x) i j (a x y)
  unfolding set_word cell
  set_word-turned values i j a = elim (ℕ_discrete i y) [
    | no n ↦ ground (arith, n)
    | yes e ↦ elim (ℕ_discrete j x) [
      | no n ↦ ground (arith, n)
      | yes e' ↦ rw (e, e') (ground arith)
    ]
  ]

  ac_set_straight : (vs : ℕ → ℕ → ℤ) (acc : Accumulator) → ac_set false vs acc x y ≡ vs x y
  unfolding ac_set
  ac_set_straight vs acc =
      grid_sets x y (vs x y) (λ i j. set_word i j (vs i j)) acc below inside (set_word-cell vs)

  ac_set_turned : (vs : ℕ → ℕ → ℤ) (acc : Accumulator) → ac_set true vs acc x y ≡ vs y x
  unfolding ac_set
  ac_set_turned vs acc =
      grid_sets y x (vs y x) (λ i j. set_word j i (vs i j)) acc inside below (set_word-turned vs)

  -- What the moves to the registers do with one word: the accumulator's, and the register's.
  abbrev view : Moved → ℤ × ℤ
  view m = (m.acc x y, m.vd x y)

  got : ℕ → ℕ → ℤ × ℤ → ℤ × ℤ
  got op i p = if op == x && i == y then (p.0, p.0) else p

  got_word :
      (op i : ℕ) (m : Moved)
      → view (record m { vd = set_word op i (m.acc op i) m.vd }) ≡ got op i (view m)
  unfolding set_word got
  got_word op i m = elim (ℕ_discrete op x) [
    | no n ↦ ground (arith, n)
    | yes e ↦ elim (ℕ_discrete i y) [
      | no n ↦ ground (arith, n)
      | yes e' ↦ rw (e, e') (ground arith)
    ]
  ]

  got_other : (op i : ℕ) (p : ℤ × ℤ) → op ≢ x → got op i p ≡ p
  unfolding got
  got_other op i p n = ground (arith, n)

  got_apart : (op i : ℕ) (p : ℤ × ℤ) → i ≢ y → got op i p ≡ p
  unfolding got
  got_apart op i p n = ground (arith, n)

  got_here : (p : ℤ × ℤ) → got x y p ≡ (p.0, p.0)
  unfolding got
  got_here p = ground arith

  got_row : (p : ℤ × ℤ) → for_loop 8 0 (got x) p ≡ (p.0, p.0)
  got_row p =
      let count : 8 ≡ y + (1 + (7 - y)) = omega arith in
      ap (λ n. for_loop n 0 (got x) p) count
      ∙ for_loop_window y 1 (7 - y) 0 (got x) p (λ j b q. got_apart x j b (omega arith))
          (λ j b q l. got_apart x j b (omega arith))
      ∙ ap (λ i. for_loop 1 i (got x) p) (omega arith)
      ∙ for_loop_once y (got x) p
      ∙ got_here p

  got_vector : ℕ → ℤ × ℤ → ℤ × ℤ
  got_vector op p = if op == x then (p.0, p.0) else p

  view-get_vector : (op : ℕ) (m : Moved) → view (get_vector op m) ≡ got_vector op (view m)
  unfolding get_vector got_vector
  view-get_vector op m =
      for_loop_maps view 8 0 _ (got op) m (λ i b _ _. got_word op i b) ∙ elim (ℕ_discrete op x) [
        | no n ↦
            for_loop_idle 8 0 (got op) (view m) (λ i b _. got_other op i _ n) ∙ ground (arith, n)
        | yes e ↦ rw e (got_row (view m) ∙ ground arith)
      ]

  -- A register taken, and its accumulators emptied.
  taken : ℕ → ℤ × ℤ → ℤ × ℤ
  taken op p = if op == x then (pos 0, p.0) else p

  taken-view :
      (op : ℕ) (m : Moved)
      → (let moved = get_vector op m in
          view (record moved { acc = fill_zero op moved.acc }) ≡ taken op (view m))
  unfolding fill_zero taken got_vector
  taken-view op m =
      let read = view-get_vector op m in
      let kept : (get_vector op m).acc x y ≡ (got_vector op (view m)).0 = ap (λ p. p.0) read in
      let held : (get_vector op m).vd x y ≡ (got_vector op (view m)).1 = ap (λ p. p.1) read in
      elim (ℕ_discrete op x) [
        | no n ↦
            let a : (x == op) ≡ false = ground (arith, n) in
            let b : (op == x) ≡ false = ground (arith, n) in rw (kept, held, a, b) refl
        | yes e ↦
            let a : (x == op) ≡ true = ground (arith, e) in
            let b : (op == x) ≡ true = ground (arith, e) in rw (kept, held, a, b) refl
      ]

  taken_other : (op : ℕ) (p : ℤ × ℤ) → op ≢ x → taken op p ≡ p
  unfolding taken
  taken_other op p n = ground (arith, n)

  taken_here : (p : ℤ × ℤ) → taken x p ≡ (pos 0, p.0)
  unfolding taken
  taken_here p = ground arith

  view-vc_get : (m : Moved) → view (vc_get m) ≡ (pos 0, m.acc x y)
  unfolding vc_get
  view-vc_get m =
      let count : 8 ≡ x + (1 + (7 - x)) = omega arith in
      for_loop_maps view 8 0 _ taken m (λ op b _ _. taken-view op b)
      ∙ ap (λ n. for_loop n 0 taken (view m)) count
      ∙ for_loop_window x 1 (7 - x) 0 taken (view m) (λ j b q. taken_other j b (omega arith))
          (λ j b q l. taken_other j b (omega arith))
      ∙ ap (λ i. for_loop 1 i taken (view m)) (omega arith)
      ∙ for_loop_once x taken (view m)
      ∙ taken_here (view m)

  -- After registers have been set in the accumulators by CoralNPUAcSet, CoralNPUVcGet gives them back
  -- word for word, transposed where they were set transposed, and leaves every accumulator 0.
  vc_get-ac_set :
      (is_transpose : Bool) (vs vd : ℕ → ℕ → ℤ) (acc : Accumulator)
      → (let moved = vc_get (record { vd = vd; acc = ac_set is_transpose vs acc }) in
          (moved.vd x y ≡ (if is_transpose then vs y x else vs x y)) × (moved.acc x y ≡ pos 0))
  vc_get-ac_set true vs vd acc =
      let read = view-vc_get (record { vd = vd; acc = ac_set true vs acc }) in
      (ap (λ p. p.1) read ∙ ac_set_turned vs acc, ap (λ p. p.0) read)
  vc_get-ac_set false vs vd acc =
      let read = view-vc_get (record { vd = vd; acc = ac_set false vs acc }) in
      (ap (λ p. p.1) read ∙ ac_set_straight vs acc, ap (λ p. p.0) read)
