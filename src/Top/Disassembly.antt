-- ===== src/Top/Disassembly.antt =====
-- `CoralNPUTop::GetDisassembly` of sim/coralnpu_top.cc.
use coralnpu_mpact.Prelude.{ℕ, ◌≡◌, Bool}
use coralnpu_mpact.Prelude.{if◌then◌else◌}
use coralnpu_mpact.Top.{
  StatusOr, value, status, failed_precondition, MemoryInterface, Points, State, Top,
}
use coralnpu_mpact.Top.ActionPoints.{
  k_ebreak32, write_original_instruction, write_breakpoint_instruction,
}
use coralnpu_mpact.Top.Step.{is_halted}

-- `disassemble` decodes the instruction at an address through the decode cache, and gives the text of
-- `AsString()`, or of an instruction that is null.
module _ {S T : Type 0} (memory : MemoryInterface S) (disassemble : S → ℕ → T × S)
    (is_action_point_active : ℕ → State S → Bool) where
  abbrev disassembled : ℕ → Points S → T × Points S
  disassembled address p =
      let text = disassemble p.machine address in (text.0, record p { machine = text.1 })

  -- The disassembly of the original instruction, with the breakpoint taken out for it.
  unfoldable pub disassembled_original : ℕ → Points S → T × Points S
  disassembled_original address p =
      let text = disassembled address (write_original_instruction memory p address).1 in
      (text.0, (write_breakpoint_instruction memory text.1 address).1)

  unfoldable pub get_disassembly : ℕ → Top S → StatusOr T × Top S
  get_disassembly address t =
      let text =
        if is_action_point_active address t.state
        then disassembled_original address t.state.points
        else disassembled address t.state.points in
      if is_halted t.run_status
      then (value text.0, record t { state = record t.state { points = text.1 } })
      else (status failed_precondition, t)

  -- The machine as the point is taken out, and as it is put back.
  abbrev taken_out : S → ℕ → ℕ → S
  taken_out m a w = memory.invalidate (memory.store m a w) a

  abbrev put_back : S → ℕ → ℕ → S
  put_back m a w = taken_out (disassemble (taken_out m a w) a).1 a k_ebreak32

  -- Decoding reads the word once its decoding has been invalidated, and writes no word.
  pub record LawfulDecoding (text : ℕ → T) : Type 0 where
    pub disassemble-invalidate :
        (s : S) (a : ℕ)
        → (disassemble (memory.invalidate s a) a).0 ≡ text (memory.load (memory.invalidate s a) a)
    pub load-disassemble : (s : S) (a b : ℕ) → memory.load (disassemble s a).1 b ≡ memory.load s b
