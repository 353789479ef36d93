-- ===== src/Top/ActionPoints.antt =====
-- `CoralNPUActionPointMemoryInterface`, sim/coralnpu_action_point_memory_interface.cc: the
-- instruction words that stop the core, and those that they replace.
use coralnpu_mpact.Prelude.{ℕ, ◌≡◌, refl, Option, none, some, List, [], ◌∷◌, ◌==◌, if◌then◌else◌}
use coralnpu_mpact.Top.{
  not_found, invalid_argument, Status, ok, failed, InstructionInfo, MemoryInterface, Points,
}

-- `kEBreak32`
abbrev pub k_ebreak32 : ℕ
k_ebreak32 = 0x00100073

-- `instruction_map_.find`
unfoldable pub find : List (ℕ × InstructionInfo) → ℕ → Option InstructionInfo
find [] address = none
find (entry ∷ rest) address =
    let later = find rest address in if entry.0 == address then some entry.1 else later

-- `GetInstructionSize`
abbrev pub get_instruction_size : ℕ → ℕ
get_instruction_size instruction_word = 4

module _ {S : Type 0} (memory : MemoryInterface S) where
  -- Store a word, and invalidate the instruction decoded there.
  unfoldable pub store_instruction : Points S → ℕ → ℕ → Points S
  store_instruction p address word = record p {
    machine = memory.invalidate (memory.store p.machine address word) address;
  }

  unfoldable pub write_original_instruction : Points S → ℕ → Status × Points S
  write_original_instruction p address = elim (find p.instruction_map address) [
    | none ↦ (failed not_found, p)
    | some info ↦ (ok, store_instruction p address info.og_instruction_word)
  ]

  -- Save the instruction where a new breakpoint goes.
  unfoldable pub save_instruction : Points S → ℕ → Points S
  save_instruction p address =
      let instruction_word = memory.load p.machine address in
      record p {
        instruction_map =
            (
              address,
              record {
                size = get_instruction_size instruction_word;
                og_instruction_word = instruction_word;
              },
            )
            ∷ p.instruction_map;
      }

  unfoldable pub write_breakpoint_instruction : Points S → ℕ → Status × Points S
  write_breakpoint_instruction p address = elim (find p.instruction_map address) [
    | some info ↦ (ok, store_instruction p address k_ebreak32)
    | none ↦
        if get_instruction_size (memory.load p.machine address) == 0
        then (failed invalid_argument, p)
        else (ok, store_instruction (save_instruction p address) address k_ebreak32)
  ]

  pub write_original_instruction-find :
      (p : Points S) (a : ℕ) (info : InstructionInfo)
      → find p.instruction_map a ≡ some info
      → write_original_instruction p a ≡ (ok, store_instruction p a info.og_instruction_word)
  unfolding write_original_instruction
  write_original_instruction-find p a info e = rw (e, write_original_instruction) refl

  pub write_breakpoint_instruction-find :
      (p : Points S) (a : ℕ) (info : InstructionInfo)
      → find p.instruction_map a ≡ some info
      → write_breakpoint_instruction p a ≡ (ok, store_instruction p a k_ebreak32)
  unfolding write_breakpoint_instruction
  write_breakpoint_instruction-find p a info e = rw (e, write_breakpoint_instruction) refl
