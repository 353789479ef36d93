-- ===== src/Top/Patched.antt =====
-- What the action points keep of a program in sim/coralnpu_action_point_memory_interface.cc, through
-- any sequence of their writes.
use native.Mathlib.Decide.{ℕ_discrete}
use coralnpu_mpact.Prelude.{both}
use coralnpu_mpact.Prelude.{
  ℕ, ◌+◌, ◌*◌, ◌/◌, ◌%◌, ◌==◌, ◌&&◌, ◌^◌, ◌≤◌, ◌<◌, ◌≡◌, ◌≢◌, refl, sym, ◌∙◌, ◌⊎◌, inl, inr, arith,
}
use coralnpu_mpact.Prelude.{Bool, true, Option, none, some, List, [], ◌∷◌, Option-cases}
use coralnpu_mpact.Top.{InstructionInfo, MemoryInterface, Points, ok, failed, not_found}
use coralnpu_mpact.Top.ActionPoints.{
  k_ebreak32, find, store_instruction, save_instruction, write_original_instruction,
  write_breakpoint_instruction, write_original_instruction-find, write_breakpoint_instruction-find,
}

-- One call of the interface, at an address.
pub data Call : Type 0 where
  original : ℕ → Call
  breakpoint : ℕ → Call

abbrev pub are_aligned : List Call → Bool
are_aligned [] = true
are_aligned (original address ∷ calls) = address % 4 == 0 && are_aligned calls
are_aligned (breakpoint address ∷ calls) = address % 4 == 0 && are_aligned calls

-- A word is read back as it was written, other words stay, and the decode cache is no part of them.
pub record LawfulMemory {S : Type 0} (memory : MemoryInterface S) : Type 0 where
  pub load_bound : (s : S) (a : ℕ) → memory.load s a < 2 ^ 32
  pub load-store : (s : S) (a w : ℕ) → w < 2 ^ 32 → memory.load (memory.store s a w) a ≡ w
  pub load_apart :
      (s : S) (a b w : ℕ)
      → (a + 4 ≤ b) ⊎ (b + 4 ≤ a)
      → memory.load (memory.store s a w) b ≡ memory.load s b
  pub load-invalidate : (s : S) (a b : ℕ) → memory.load (memory.invalidate s a) b ≡ memory.load s b

-- A word with no entry is the program's; one with an entry is the program's or a breakpoint, and
-- its entry holds the program's.
unfoldable pub HeldAs : Option InstructionInfo → ℕ → ℕ → Type 0
HeldAs none w program = w ≡ program
HeldAs (some info) w program =
    (info.og_instruction_word ≡ program) × ((w ≡ program) ⊎ (w ≡ k_ebreak32))

aligned : (a : ℕ) → (a % 4 == 0) ≡ true → a ≡ 4 * (a / 4)
aligned a h = let none_left : a % 4 ≡ 0 = ground arith in omega (arith, none_left)

find_here :
    (m : List (ℕ × InstructionInfo)) (a : ℕ) (info : InstructionInfo)
    → find ((a, info) ∷ m) a ≡ some info
unfolding find
find_here m a info = ground arith

find_other :
    (m : List (ℕ × InstructionInfo)) (a b : ℕ) (info : InstructionInfo)
    → a ≢ b
    → find ((a, info) ∷ m) b ≡ find m b
unfolding find
find_other m a b info n = ground arith

module _ {S : Type 0} (memory : MemoryInterface S) where
  unfoldable pub performed : Points S → List Call → Points S
  performed p [] = p
  performed p (original address ∷ calls) =
      performed (write_original_instruction memory p address).1 calls
  performed p (breakpoint address ∷ calls) =
      performed (write_breakpoint_instruction memory p address).1 calls

  -- The word `k` of the memory.
  abbrev pub word : Points S → ℕ → ℕ
  word p k = memory.load p.machine (4 * k)

  unfoldable pub IsPatched : (ℕ → ℕ) → Points S → Type 0
  IsPatched program p = (k : ℕ) → HeldAs (find p.instruction_map (4 * k)) (word p k) (program k)

module _ {S : Type 0} (memory : MemoryInterface S) (laws : LawfulMemory memory) where
  stored_here :
      (p : Points S) (k w : ℕ)
      → w < 2 ^ 32
      → word memory (store_instruction memory p (4 * k) w) k ≡ w
  unfolding store_instruction
  stored_here p k w b =
      laws.load-invalidate (memory.store p.machine (4 * k) w) (4 * k) (4 * k)
      ∙ laws.load-store p.machine (4 * k) w b

  stored_elsewhere :
      (p : Points S) (k j w : ℕ)
      → k ≢ j
      → word memory (store_instruction memory p (4 * k) w) j ≡ word memory p j
  unfolding store_instruction
  stored_elsewhere p k j w n =
      laws.load-invalidate (memory.store p.machine (4 * k) w) (4 * k) (4 * j)
      ∙ laws.load_apart p.machine (4 * k) (4 * j) w (omega (arith, n))

  abbrev written : Points S → ℕ → ℕ → Points S
  written p k w = store_instruction memory p (4 * k) w

  original-none :
      (p : Points S) (k : ℕ)
      → find p.instruction_map (4 * k) ≡ none
      → write_original_instruction memory p (4 * k) ≡ (failed not_found, p)
  unfolding write_original_instruction
  original-none p k e = rw (e, write_original_instruction) refl

  breakpoint-none :
      (p : Points S) (k : ℕ)
      → find p.instruction_map (4 * k) ≡ none
      → write_breakpoint_instruction memory p (4 * k)
        ≡ (ok, written (save_instruction memory p (4 * k)) k k_ebreak32)
  unfolding write_breakpoint_instruction
  breakpoint-none p k e = rw (e, write_breakpoint_instruction) refl

  module _ (program : ℕ → ℕ) where
    -- A write at an address whose entry holds the program's word.
    written_kept :
        (p : Points S) (k w : ℕ) (info : InstructionInfo)
        → w < 2 ^ 32
        → (w ≡ program k) ⊎ (w ≡ k_ebreak32)
        → find p.instruction_map (4 * k) ≡ some info
        → info.og_instruction_word ≡ program k
        → ((j : ℕ) → k ≢ j → HeldAs (find p.instruction_map (4 * j)) (word memory p j) (program j))
        → IsPatched memory program (written p k w)
    unfolding IsPatched HeldAs store_instruction
    written_kept p k w info b one_of e og others j = elim (ℕ_discrete k j) [
      | yes same ↦ rw (sym same) (rw e (og, rw (stored_here p k w b) one_of))
      | no apart ↦ rw (stored_elsewhere p k j w apart) (others j apart)
    ]

    module _ (bound : (k : ℕ) → program k < 2 ^ 32) where
      original_kept :
          (p : Points S) (k : ℕ)
          → IsPatched memory program p
          → IsPatched memory program (write_original_instruction memory p (4 * k)).1
      unfolding IsPatched HeldAs
      original_kept p k h = elim (Option-cases (find p.instruction_map (4 * k))) [
        | inl e ↦ rw (original-none p k e) h
        | inr (info, e) ↦
            let here = rw e at (h k) in
            rw (write_original_instruction-find memory p (4 * k) info e) (
              written_kept p k info.og_instruction_word info (rw here.0 (bound k)) (inl here.0) e
                here.0 (λ j n. h j))
      ]

      breakpoint_kept :
          (p : Points S) (k : ℕ)
          → IsPatched memory program p
          → IsPatched memory program (write_breakpoint_instruction memory p (4 * k)).1
      unfolding IsPatched HeldAs save_instruction find
      breakpoint_kept p k h = elim (Option-cases (find p.instruction_map (4 * k))) [
        | inl e ↦
            let here = rw e at (h k) in
            rw (breakpoint-none p k e) (
              written_kept (save_instruction memory p (4 * k)) k k_ebreak32 _ (omega arith)
                (inr refl) (find_here p.instruction_map (4 * k) _) here
                (λ j n.
                  rw (find_other p.instruction_map (4 * k) (4 * j) _ (omega (arith, n))) (h j)))
        | inr (info, e) ↦
            let here = rw e at (h k) in
            rw (write_breakpoint_instruction-find memory p (4 * k) info e)
              (written_kept p k k_ebreak32 info (omega arith) (inr refl) e here.0 (λ j n. h j))
      ]

      performed_kept :
          (calls : List Call) (p : Points S)
          → are_aligned calls ≡ true
          → IsPatched memory program p
          → IsPatched memory program (performed memory p calls)
      unfolding performed
      performed_kept [] p l h = h
      performed_kept (original a ∷ calls) p l h =
          let (word, rest) = both (a % 4 == 0) (are_aligned calls) l in
          performed_kept calls _ rest (rw (← aligned a word) at (original_kept p (a / 4) h))
      performed_kept (breakpoint a ∷ calls) p l h =
          let (word, rest) = both (a % 4 == 0) (are_aligned calls) l in
          performed_kept calls _ rest (rw (← aligned a word) at (breakpoint_kept p (a / 4) h))

  -- On a memory that holds what is stored, any sequence of calls at addresses that are multiples of
  -- four, on a program with no entry yet, leaves every word that has an entry with the program's word
  -- in it and in memory that word or a breakpoint, and every other word as it was.
  pub performed-IsPatched :
      (p : Points S) (calls : List Call)
      → p.instruction_map ≡ []
      → are_aligned calls ≡ true
      → IsPatched memory (word memory p) (performed memory p calls)
  unfolding IsPatched HeldAs find
  performed-IsPatched p calls e l =
      performed_kept (word memory p) (λ k. laws.load_bound p.machine (4 * k)) calls p l start
    where
      untouched : (k : ℕ) → HeldAs (find [] (4 * k)) (word memory p k) (word memory p k)
      untouched k = refl

      start : IsPatched memory (word memory p) p
      start = λ k. rw e (untouched k)

  -- After any sequence of calls at multiples of four on a program with no entry yet, the call that writes an original
  -- instruction gives a word its value in the program, whether it has an entry or not, and no call
  -- changes another word.
  write_original_instruction-performed :
      (p : Points S) (calls : List Call) (k j : ℕ)
      → p.instruction_map ≡ []
      → are_aligned calls ≡ true
      → k ≢ j
      → (let q = performed memory p calls in
          let restored = (write_original_instruction memory q (4 * k)).1 in
          (word memory restored k ≡ word memory p k) × (word memory restored j ≡ word memory q j))
  unfolding HeldAs IsPatched
  write_original_instruction-performed p calls k j e l n =
      let q = performed memory p calls in
      let held = performed-IsPatched p calls e l in
      elim (Option-cases (find q.instruction_map (4 * k))) [
        | inl none_here ↦ rw (original-none q k none_here) (rw none_here at (held k), refl)
        | inr (info, found) ↦
            let og = (rw found at (held k)).0 in
            let bound = rw (sym og) at (laws.load_bound p.machine (4 * k)) in
            rw (write_original_instruction-find memory q (4 * k) info found) (
              stored_here q k info.og_instruction_word bound ∙ og,
              stored_elsewhere q k j info.og_instruction_word n,
            )
      ]
