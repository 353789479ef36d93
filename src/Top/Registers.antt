-- ===== src/Top/Registers.antt =====
-- What the debug interface of sim/coralnpu_top.cc reads of a register that it wrote.
use native.Mathlib.Nat.{mod-mod}
use coralnpu_mpact.Prelude.{ℕ, ◌*◌, ◌%◌, ◌^◌, ◌≡◌, ap, arith, true}
use coralnpu_mpact.Prelude.{some}
use coralnpu_mpact.Top.{value, Top}
use coralnpu_mpact.Top.Step.{is_halted}
use coralnpu_mpact.Top.Debugger.{
  RegisterFile, is_register_size, read_register, write_register, moved_pc,
}

-- What was set in a register is what it holds, and its size stays.
pub record LawfulRegisters {S N : Type 0} (file : RegisterFile S N) : Type 0 where
  pub register-set_register :
      (s : S) (name : N) (size old contents : ℕ)
      → file.register s name ≡ some (size, old)
      → file.register (file.set_register s name contents) name ≡ some (size, contents)

module _ {S N : Type 0} (file : RegisterFile S N) where
  moved_pc-run_status : (name : N) (t : Top S) → (moved_pc file name t).run_status ≡ t.run_status
  moved_pc-run_status name t = ground arith

  -- On a halted core, a register of 1, 2, 4 or 8 bytes that is written is read back with the value
  -- wrapped to its size.
  read_register-write_register :
      (name : N) (size old contents : ℕ) (t : Top S)
      → LawfulRegisters file
      → is_halted t.run_status ≡ true
      → file.register t.state.points.machine name ≡ some (size, old)
      → is_register_size size ≡ true
      → read_register file name (write_register file name contents t).1
        ≡ value (contents % 2 ^ (8 * size))
  unfolding read_register write_register
  read_register-write_register name size old contents t laws h e z =
      rw (h, e, z)
        (rw
          (
            laws.register-set_register t.state.points.machine name size old
                (contents % 2 ^ (8 * size)) e,
            moved_pc-run_status name t,
            h,
            z,
          )
          (ap value (mod-mod contents (2 ^ (8 * size)))))
