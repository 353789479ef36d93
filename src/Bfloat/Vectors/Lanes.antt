-- ===== src/Bfloat/Vectors/Lanes.antt =====
-- The checks and the lanes of the vector conversions of sim/coralnpu_vector_instructions.cc.
use native.Mathlib.Decide.{ℕ_discrete}
use coralnpu_mpact.Prelude.{
  ℕ, zero, suc, ◌+◌, ◌*◌, ◌^◌, ◌==◌, ◌<◌, ◌≤◌, ◌≡◌, refl, sym, ap, ap₂, ◌∙◌, arith, ltb, ◌||◌, ◌&&◌,
  not,
}
use coralnpu_mpact.Prelude.{
  Bool, true, false, Bool-cases, inl, inr, Option, none, some, List, tabulate, get_or,
  get_or-tabulate, ℤ,
}
use coralnpu_mpact.Bfloat.{
  Flags, FpState, no_flags, or_flags, is_nan16, is_nan32, k_canonical_nan32, convert_f32_to_bf16,
  round_bfloat16,
}
use coralnpu_mpact.Bfloat.Boxed.{
  widened, canonical16, widened_exact, widened_flags, widened-is_nan32, or_flags_none,
}
use coralnpu_mpact.Bfloat.Vectors.{
  any_from, is_conflict, check_overlap, Operands, vector_written, widen_lane, widen_loop,
  narrow_loop, is_allowed, is_masked, check_mask_overlap, vfwcvtbf16ffv, vfncvtbf16ffw,
}

any_from-false :
    (n i : ℕ) (test : ℕ → Bool)
    → any_from n i test ≡ false
    → (j : ℕ) → i ≤ j
    → j < i + n
    → test j ≡ false
unfolding any_from
any_from-false zero i test h j a b = absurd (omega (arith, a, b))
any_from-false (suc n) i test h j a b = elim (Bool-cases (test i)) [
  | inl e ↦ absurd (impossible (rw e at h))
  | inr e ↦ elim (ℕ_discrete i j) [
    | yes s ↦ rw (sym s) e
    | no s ↦ any_from-false n (i + 1) test (rw e at h) j (omega (arith, a, s)) (omega (arith, b))
  ]
]
  where
    impossible : true ≡ false → ⊥
    impossible c = cc

is_conflict-false :
    (w : Bool) (nd ns i j : ℕ)
    → is_conflict w nd ns i j ≡ false
    → (i ≡ j) × ((not w || ltb ns nd) ≡ true)
unfolding is_conflict
is_conflict-false true nd ns i j h = (ground (arith, h), ground (arith, h))
is_conflict-false false nd ns i j h = (ground (arith, h), refl)

both_false : (a b : Bool) → (a && b) ≡ false → a ≡ true → b ≡ false
both_false true b h e = h
both_false false b h e = cc

check_overlap-false :
    (nd ns : ℕ) (w : Bool) (dest src : ℕ → ℕ) (i j : ℕ)
    → check_overlap nd ns w dest src ≡ false
    → i < nd
    → j < ns
    → dest i ≡ src j
    → (i ≡ j) × ((not w || ltb ns nd) ≡ true)
unfolding check_overlap
check_overlap-false nd ns w dest src i j h a b e =
    let row = any_from-false nd 0 _ h i (omega arith) (omega arith) in
    let cell = any_from-false ns 0 _ row j (omega arith) (omega arith) in
    let same : (dest i == src j) ≡ true = ground (arith, e) in
    is_conflict-false w nd ns i j (both_false (dest i == src j) _ cell same)

parts : (a b c : Bool) → not (a || b || not c) ≡ true → (a ≡ false) × (b ≡ false) × (c ≡ true)
parts false false true h = (refl, refl, refl)
parts false false false h = cc
parts false true c h = cc
parts true b c h = cc

not_masked :
    (m : Bool) (nd v0 k : ℕ) (dest : ℕ → ℕ)
    → (m && check_mask_overlap nd v0 dest) ≡ false
    → k < nd
    → (m && dest k == v0) ≡ false
unfolding check_mask_overlap
not_masked false nd v0 k dest h l = refl
not_masked true nd v0 k dest h l =
    any_from-false nd 0 (λ i. dest i == v0) h k (omega arith) (omega arith)

-- A vector conversion that does not trap as an illegal instruction has operands that share a register
-- only at the same position, and a widening one only where it has more destination than source
-- registers; a masked one does not write the mask register.
pub is_allowed_disjoint :
    (simple_atoi : List ℕ → Option ℤ) (w : Bool) (ops : Operands) (frm : Option ℕ) (i j k : ℕ)
    → is_allowed simple_atoi w ops frm ≡ true
    → i < ops.num_regs_dst
    → j < ops.num_regs_src
    → k < ops.num_regs_dst
    → ops.dest_reg i ≡ ops.src_reg j
    → (i ≡ j)
      × ((not w || ltb ops.num_regs_src ops.num_regs_dst) ≡ true)
      × ((is_masked ops.vm_op && ops.dest_reg k == ops.v0_reg) ≡ false)
unfolding is_allowed
is_allowed_disjoint simple_atoi w ops frm i j k h a b c e =
    let checks = parts _ _ _ h in
    let apart =
      check_overlap-false ops.num_regs_dst ops.num_regs_src w ops.dest_reg ops.src_reg i j checks.0
        a b e in
    (
      apart.0,
      apart.1,
      not_masked (is_masked ops.vm_op) ops.num_regs_dst ops.v0_reg k ops.dest_reg checks.1 c,
    )

widen_lane_lem : (x : ℕ) → (widen_lane x).0 ≡ widened x
unfolding widen_lane
widen_lane_lem x = elim (Bool-cases (is_nan16 x)) [ inl e ↦ rw e refl | inr e ↦ rw e refl ]

widen_loop_lem :
    (n i : ℕ) (src : ℕ → ℕ) (f : Flags)
    → (widen_loop n i src f).0 ≡ tabulate n i (λ k. widened (src k))
unfolding widen_loop tabulate
widen_loop_lem zero i src f = refl
widen_loop_lem (suc n) i src f =
    rw (widen_lane_lem (src i), widen_loop_lem n (i + 1) src (or_flags f (widen_lane (src i)).1))
      refl

joined : (p : ℕ × Flags) (a : ℕ) (b : Flags) → p.0 ≡ a → p.1 ≡ b → ◌≡◌ {A = ℕ × Flags} p (a, b)
joined p a b h k = ap₂ (λ x y. (x, y)) h k

canonical_narrowed :
    (frm : Option ℕ)
    → ◌≡◌ {A = ℕ × Flags} (convert_f32_to_bf16 k_canonical_nan32 frm no_flags) (0x7FC0, no_flags)
unfolding convert_f32_to_bf16 is_nan32 round_bfloat16
canonical_narrowed frm = refl

quiet_narrowed :
    (x : ℕ) (frm : Option ℕ)
    → x < 2 ^ 16
    → is_nan16 x ≡ false
    → ◌≡◌ {A = ℕ × Flags} (convert_f32_to_bf16 (x * 2 ^ 16) frm no_flags) (x, no_flags)
unfolding convert_f32_to_bf16
quiet_narrowed x frm h n = rw (widened-is_nan32 x h n) (
    joined (round_bfloat16 (x * 2 ^ 16) 7 frm no_flags) x no_flags
      (rw n at (widened_exact x 7 frm h)) (rw n at (widened_flags x 7 frm)))

narrow_lane_lem :
    (x : ℕ) (frm : Option ℕ)
    → x < 2 ^ 16
    → ◌≡◌ {A = ℕ × Flags} (convert_f32_to_bf16 (widened x) frm no_flags) (canonical16 x, no_flags)
narrow_lane_lem x frm h = elim (Bool-cases (is_nan16 x)) [
  | inl e ↦ rw e (canonical_narrowed frm)
  | inr e ↦ rw e (quiet_narrowed x frm h e)
]

narrow_loop_lem :
    (n i j : ℕ) (src lanes : ℕ → ℕ) (frm : Option ℕ)
    → ((k : ℕ) → src k < 2 ^ 16)
    → ((k : ℕ) → k < n → lanes (i + k) ≡ widened (src (j + k)))
    → ◌≡◌ {A = List ℕ × Flags}
        (narrow_loop n i lanes frm no_flags)
        (tabulate n j (λ k. canonical16 (src k)), no_flags)
unfolding narrow_loop tabulate
narrow_loop_lem zero i j src lanes frm h e = refl
narrow_loop_lem (suc n) i j src lanes frm h e =
    let first : lanes i ≡ widened (src j) = rw (add_zero i, add_zero j) at (e 0 (omega arith)) in
    rw
      (
        first,
        narrow_lane_lem (src j) frm (h j),
        narrow_loop_lem n (i + 1) (j + 1) src lanes frm h
            (λ k l. rw (moved i k, moved j k) at (e (suc k) (omega arith))),
      )
      refl
  where
    add_zero : (x : ℕ) → x + 0 ≡ x
    add_zero x = omega arith

    moved : (x k : ℕ) → x + suc k ≡ x + 1 + k
    moved x k = omega arith

-- Where neither instruction traps, Vfwcvtbf16ffv writes each bfloat16 lane as the float of its value, and
-- Vfncvtbf16ffw makes of those lanes the bfloat16 lanes again, whatever the rounding mode, with every
-- NaN the canonical one, and raises no flag.
pub vfncvtbf16ffw-vfwcvtbf16ffv :
    (simple_atoi : List ℕ → Option ℤ) (wide narrow : Operands) (fp : FpState) (frm n : ℕ)
    (src : ℕ → ℕ)
    → is_allowed simple_atoi true wide none ≡ true
    → is_allowed simple_atoi false narrow (some frm) ≡ true
    → ((k : ℕ) → src k < 2 ^ 16)
    → (let lanes = tabulate n 0 (λ k. widened (src k)) in
        (vfwcvtbf16ffv simple_atoi wide fp n src
          ≡ vector_written lanes (widen_loop n 0 src fp.fflags).1)
        × (vfncvtbf16ffw simple_atoi narrow fp frm n (λ k. get_or lanes k 0)
            ≡ vector_written (tabulate n 0 (λ k. canonical16 (src k))) fp.fflags))
unfolding vfwcvtbf16ffv vfncvtbf16ffw
vfncvtbf16ffw-vfwcvtbf16ffv simple_atoi wide narrow fp frm n src a b h =
    let lanes = tabulate n 0 (λ k. widened (src k)) in
    let back =
      narrow_loop_lem n 0 0 src (λ k. get_or lanes k 0) (some fp.rounding_mode) h
        (λ k l.
          (let same : 0 + k ≡ k = omega arith in
            ap (λ m. get_or lanes m 0) same ∙ get_or-tabulate n 0 k (λ m. widened (src m)) 0 l)) in
    (
      rw a (
          ap (λ l. vector_written l (widen_loop n 0 src fp.fflags).1)
            (widen_loop_lem n 0 src fp.fflags)),
      rw b (
          ap (λ r. vector_written r.0 (or_flags fp.fflags r.1)) back
          ∙ ap (vector_written _) (or_flags_none fp.fflags)),
    )
