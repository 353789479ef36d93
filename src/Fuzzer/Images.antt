-- ===== src/Fuzzer/Images.antt =====
-- The checks that PerformPhase2Finalize of sim/orchestrator.cc writes, run on a machine.
use coralnpu_mpact.Prelude.{
  ℕ, zero, suc, ◌+◌, ◌*◌, ◌/◌, ◌%◌, ◌^◌, ◌<◌, ◌≤◌, ◌==◌, ◌≡◌, ◌≢◌, refl, sym, ap, ◌∙◌, arith, leb,
}
use coralnpu_mpact.Prelude.{
  Bool, true, false, if◌then◌else◌, length, get_or, List, [], ◌∷◌, none, some,
}
use coralnpu_mpact.Prelude.Bits.{bit_or_above}
use coralnpu_mpact.Fuzzer.Finalize.{
  image_word, put_byte, Cursor, emit_inst, emit_all, upper20, u_lower12, assert_equal,
}
use coralnpu_mpact.Fuzzer.SelfCheck.{
  set_x, sign_extended, machine_step, lui_word, addi_word, beq_word, machine_step_lui,
  machine_step_addi, machine_step_beq, upper20_lt, u_lower12_lt, golden_built,
}
use coralnpu_mpact.Fuzzer.Overwriting.{
  length-put_byte, IsAfter, IsAfter-emit_inst, IsAfter-emit_all,
}

-- Where a run of some instructions ends: before an instruction that is not one of the three, or at the
-- address that it has reached.
pub data Ending : Type 0 where
  stopped_at reached : ℕ → Ending

unfoldable pub run_image : ℕ → List ℕ → ℕ → (ℕ → ℕ) → Ending
run_image zero image pc x = reached pc
run_image (suc n) image pc x = elim (machine_step (image_word pc image) pc x) [
  | none ↦ stopped_at pc
  | some s ↦ run_image n image s.0 s.1
]

run_image_next :
    (n : ℕ) (image : List ℕ) (pc : ℕ) (x : ℕ → ℕ) (s : ℕ × (ℕ → ℕ))
    → machine_step (image_word pc image) pc x ≡ some s
    → run_image (suc n) image pc x ≡ run_image n image s.0 s.1
unfolding run_image
run_image_next n image pc x s e = rw (e, run_image) refl

branch_reaches :
    (image : List ℕ) (x : ℕ → ℕ) (pc : ℕ) (b : Bool)
    → run_image 0 image (if b then pc + 4 + 4 + 8 else pc + 4 + 4 + 4) x
      ≡ reached (if b then pc + 16 else pc + 12)
unfolding run_image
branch_reaches image x pc true = ap reached (omega arith)
branch_reaches image x pc false = ap reached (omega arith)

byte_put : (i v : ℕ) (b : List ℕ) → i < length b → get_or (put_byte i v b) i 0 ≡ v
unfolding put_byte
byte_put i v [] h = absurd (omega (arith, h))
byte_put zero v (y ∷ b) h = refl
byte_put (suc i) v (y ∷ b) h = byte_put i v b (omega arith)

byte_left : (i j v : ℕ) (b : List ℕ) → i ≢ j → get_or (put_byte j v b) i 0 ≡ get_or b i 0
unfolding put_byte
byte_left i j v [] h = refl
byte_left zero zero v (y ∷ b) h = absurd (h refl)
byte_left (suc i) zero v (y ∷ b) h = refl
byte_left zero (suc j) v (y ∷ b) h = refl
byte_left (suc i) (suc j) v (y ∷ b) h = byte_left i j v b (λ e. h (ap suc e))

-- Four bytes make their word.
image_word_bytes :
    (i w : ℕ) (b : List ℕ)
    → w < 2 ^ 32
    → get_or b i 0 ≡ w % 2 ^ 8
    → get_or b (i + 1) 0 ≡ w / 2 ^ 8 % 2 ^ 8
    → get_or b (i + 2) 0 ≡ w / 2 ^ 16 % 2 ^ 8
    → get_or b (i + 3) 0 ≡ w / 2 ^ 24 % 2 ^ 8
    → image_word i b ≡ w
unfolding image_word
image_word_bytes i w b h e0 e1 e2 e3 =
    let b0 = w % 2 ^ 8 in
    let b1 = w / 2 ^ 8 % 2 ^ 8 in
    let b2 = w / 2 ^ 16 % 2 ^ 8 in
    let b3 = w / 2 ^ 24 % 2 ^ 8 in
    rw
      (
        e0,
        e1,
        e2,
        e3,
        bit_or_above 8 b0 (b1 * 2 ^ 8) (omega arith) (omega arith),
        bit_or_above 16 (b0 + b1 * 2 ^ 8) (b2 * 2 ^ 16) (omega arith) (omega arith),
        bit_or_above 24 (b0 + b1 * 2 ^ 8 + b2 * 2 ^ 16) (b3 * 2 ^ 24) (omega arith) (omega arith),
      )
      (omega arith)

emit_inst_room :
    (inst : ℕ) (c : Cursor)
    → c.current_pc + 4 ≤ length c.binary
    → emit_inst inst c ≡ record {
      current_pc = c.current_pc + 4;
      binary = put_byte (c.current_pc + 3) (inst / 2 ^ 24 % 2 ^ 8) (
          put_byte (c.current_pc + 2) (inst / 2 ^ 16 % 2 ^ 8) (
            put_byte
              (c.current_pc + 1)
              (inst / 2 ^ 8 % 2 ^ 8)
              (put_byte c.current_pc (inst % 2 ^ 8) c.binary)));
    }
unfolding emit_inst
emit_inst_room inst c h =
    let fits : leb (c.current_pc + 4) (length c.binary) ≡ true = ground (arith, h) in
    rw (fits, emit_inst) refl

image_word-emit_inst :
    (inst : ℕ) (c : Cursor)
    → inst < 2 ^ 32
    → c.current_pc + 4 ≤ length c.binary
    → image_word c.current_pc (emit_inst inst c).binary ≡ inst
image_word-emit_inst inst c w h =
    let p = c.current_pc in
    let p0 = put_byte p (inst % 2 ^ 8) c.binary in
    let p1 = put_byte (p + 1) (inst / 2 ^ 8 % 2 ^ 8) p0 in
    let p2 = put_byte (p + 2) (inst / 2 ^ 16 % 2 ^ 8) p1 in
    let l0 = length-put_byte p (inst % 2 ^ 8) c.binary in
    let l1 = length-put_byte (p + 1) (inst / 2 ^ 8 % 2 ^ 8) p0 in
    let l2 = length-put_byte (p + 2) (inst / 2 ^ 16 % 2 ^ 8) p1 in
    rw (emit_inst_room inst c h) (
      image_word_bytes p inst _ w
        (byte_left p (p + 3) _ p2 (λ e. absurd (omega (arith, e)))
          ∙ byte_left p (p + 2) _ p1 (λ e. absurd (omega (arith, e)))
          ∙ byte_left p (p + 1) _ p0 (λ e. absurd (omega (arith, e)))
          ∙ byte_put p _ c.binary (omega (arith, h)))
        (byte_left (p + 1) (p + 3) _ p2 (λ e. absurd (omega (arith, e)))
          ∙ byte_left (p + 1) (p + 2) _ p1 (λ e. absurd (omega (arith, e)))
          ∙ byte_put (p + 1) _ p0 (omega (arith, h, l0)))
        (byte_left (p + 2) (p + 3) _ p2 (λ e. absurd (omega (arith, e)))
          ∙ byte_put (p + 2) _ p1 (omega (arith, h, l0, l1)))
        (byte_put (p + 3) _ p2 (omega (arith, h, l0, l1, l2))))

-- A word before the place to write stays.
image_word-IsAfter :
    (i : ℕ) (c d : Cursor)
    → IsAfter c d
    → i + 4 ≤ c.current_pc
    → image_word i d.binary ≡ image_word i c.binary
unfolding image_word IsAfter
image_word-IsAfter i c d (l, p, f) h =
    rw
      (
        f i (omega (arith, h)),
        f (i + 1) (omega (arith, h)),
        f (i + 2) (omega (arith, h)),
        f (i + 3) (omega (arith, h)),
      )
      refl

emit_all_words :
    (ws : List ℕ) (c : Cursor) (k : ℕ)
    → ((j : ℕ) → j < length ws → get_or ws j 0 < 2 ^ 32)
    → c.current_pc + 4 * length ws ≤ length c.binary
    → k < length ws
    → image_word (c.current_pc + 4 * k) (emit_all ws c).binary ≡ get_or ws k 0
unfolding emit_all IsAfter
emit_all_words [] c k s h l = absurd (omega (arith, l))
emit_all_words (w ∷ ws) c zero s h l =
    let d = emit_inst w c in
    let here : c.current_pc + 4 * 0 ≡ c.current_pc = omega arith in
    let moved : d.current_pc ≡ c.current_pc + 4 = rw (emit_inst_room w c (omega (arith, h))) refl in
    rw here (
      image_word-IsAfter c.current_pc d (emit_all ws d) (IsAfter-emit_all ws d)
        (omega (arith, moved))
      ∙ image_word-emit_inst w c (s 0 (omega arith)) (omega (arith, h)))
emit_all_words (w ∷ ws) c (suc k) s h l =
    let d = emit_inst w c in
    let moved : d.current_pc ≡ c.current_pc + 4 = rw (emit_inst_room w c (omega (arith, h))) refl in
    let kept : length d.binary ≡ length c.binary = (IsAfter-emit_inst w c).0 in
    let there : c.current_pc + 4 * suc k ≡ d.current_pc + 4 * k = omega (arith, moved) in
    rw there (
      emit_all_words ws d k (λ j b. s (suc j) (omega (arith, b))) (omega (arith, h, kept, moved))
        (omega (arith, l)))

assert_equal_lt :
    (scratch r golden j : ℕ)
    → scratch < 2 ^ 5
    → r < 2 ^ 5
    → j < 4
    → get_or (assert_equal scratch r golden) j 0 < 2 ^ 32
unfolding assert_equal
assert_equal_lt s r golden zero a b h =
    let u = upper20_lt golden in rw (lui_word (upper20 golden) s u a) (omega (arith, u))
assert_equal_lt s r golden (suc zero) a b h =
    let l = u_lower12_lt golden in rw (addi_word (u_lower12 golden) s l a) (omega (arith, l))
assert_equal_lt s r golden (suc (suc zero)) a b h = rw (beq_word s r a b) (omega arith)
assert_equal_lt s r golden (suc (suc (suc zero))) a b h = omega arith
assert_equal_lt s r golden (suc (suc (suc (suc j)))) a b h = absurd (omega (arith, h))

-- A check that is written where four words have room, run on any registers from where it starts, is
-- left behind after three instructions if the checked register holds the expected number of 32 bits,
-- and is at its ebreak if it holds another. The scratch register is not x0 and not the checked one.
pub check_executed :
    (c : Cursor) (scratch r golden : ℕ) (x : ℕ → ℕ)
    → c.current_pc + 16 ≤ length c.binary
    → 0 < scratch
    → scratch < 2 ^ 5
    → r < 2 ^ 5
    → r ≢ scratch
    → golden < 2 ^ 32
    → (run_image 3 (emit_all (assert_equal scratch r golden) c).binary c.current_pc x
        ≡ reached (if x r == golden then c.current_pc + 16 else c.current_pc + 12))
      × (image_word (c.current_pc + 12) (emit_all (assert_equal scratch r golden) c).binary
          ≡ 0x00100073)
unfolding assert_equal set_x
check_executed c scratch r golden x room p s b n g =
    let ws = assert_equal scratch r golden in
    let image = (emit_all ws c).binary in
    let pc = c.current_pc in
    let u = upper20 golden in
    let l = u_lower12 golden in
    let y = set_x scratch (u * 2 ^ 12) x in
    let z = set_x scratch ((y scratch + sign_extended l) % 2 ^ 32) y in
    let other : (r == scratch) ≡ false = ground (arith, n) in
    let own : (scratch == scratch) ≡ true = ground arith in
    let used : (scratch == 0) ≡ false = ground arith in
    let seen : z r ≡ x r = rw other refl in
    let built : z scratch ≡ golden = rw (own, used) (golden_built golden g) in
    let a : u < 2 ^ 20 = upper20_lt golden in
    let d : l < 2 ^ 12 = u_lower12_lt golden in
    let sizes : (j : ℕ) → j < 4 → get_or ws j 0 < 2 ^ 32 =
      λ j h. assert_equal_lt scratch r golden j s b h in
    let first : pc + 4 * 0 ≡ pc = omega arith in
    let fetched0 =
      ap (λ i. image_word i image) (sym first)
      ∙ emit_all_words ws c 0 sizes room (omega arith)
      ∙ lui_word u scratch a s in
    let fetched1 = emit_all_words ws c 1 sizes room (omega arith) ∙ addi_word l scratch d s in
    let third : pc + 4 + 4 ≡ pc + 4 * 2 = omega arith in
    let fetched2 =
      ap (λ i. image_word i image) third
      ∙ emit_all_words ws c 2 sizes room (omega arith)
      ∙ beq_word scratch r s b in
    (
      run_image_next 2 image pc x (pc + 4, y) (rw fetched0 (machine_step_lui u scratch pc x a s))
          ∙ run_image_next 1 image (pc + 4) y (pc + 4 + 4, z)
              (rw fetched1 (machine_step_addi l scratch (pc + 4) y d s))
          ∙ run_image_next 0 image (pc + 4 + 4) z
              (if z r == z scratch then pc + 4 + 4 + 8 else pc + 4 + 4 + 4, z)
              (rw fetched2 (machine_step_beq scratch r (pc + 4 + 4) z s b))
          ∙ branch_reaches image z pc (z r == z scratch)
          ∙ rw (seen, built) refl,
      emit_all_words ws c 3 sizes room (omega arith),
    )
