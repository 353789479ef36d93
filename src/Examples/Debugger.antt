-- ===== src/Examples/Debugger.antt =====
-- The theorems on the debug interface, on small register files and memories.
use coralnpu_mpact.Prelude.{
  ℕ, ◌+◌, ◌%◌, ◌^◌, ◌==◌, ◌≡◌, ◌∙◌, refl, ap, arith, Bool, true, false, Option, none, some,
}
use coralnpu_mpact.Prelude.{List, [], ◌∷◌, ◌++◌, length, tabulate, if◌then◌else◌}
use coralnpu_mpact.Top.{ok, k_halted, k_none, Top, State}
use coralnpu_mpact.Top.Debugger.{RegisterFile}
use coralnpu_mpact.Top.Images.{ByteMemory, load_image}
use coralnpu_mpact.Top.Loaded.{LawfulBytes, stored, load_image_lem}
use coralnpu_mpact.Top.Registers.{LawfulRegisters}

-- A machine that is one register of 2 bytes.
abbrev one_register : ℕ → Bool → Option (ℕ × ℕ)
one_register m true = some (2, m)
one_register m false = none

abbrev registers : RegisterFile ℕ Bool
registers = record {
  register = one_register;
  set_register = λ m name contents. contents;
  csr = λ m name. none;
  set_csr = λ m name contents. m;
  is_pc = λ name. false;
}

registers_lawful : LawfulRegisters registers
registers_lawful = record { register-set_register = kept }
  where
    kept :
        (s : ℕ) (name : Bool) (size old contents : ℕ)
        → one_register s name ≡ some (size, old)
        → one_register contents name ≡ some (size, contents)
    kept s true size old contents e = cc
    kept s false size old contents e = cc

-- A memory of bytes.
abbrev store_bytes : (ℕ → ℕ) → ℕ → List ℕ → ℕ → ℕ
store_bytes m a [] = m
store_bytes m a (x ∷ xs) = store_bytes (λ b. if b == a then x else m b) (a + 1) xs

abbrev bytes : ByteMemory (ℕ → ℕ)
bytes = record {
  load = λ m a n. tabulate n a m;
  store = store_bytes;
  max_physical_address = 0xFFFFFFFF;
}

store_bytes-append :
    (m : ℕ → ℕ) (a : ℕ) (xs ys : List ℕ)
    → store_bytes (store_bytes m a xs) (a + length xs) ys ≡ store_bytes m a (xs ++ ys)
store_bytes-append m a [] ys = ap (λ b. store_bytes m b ys) (omega arith)
store_bytes-append m a (x ∷ xs) ys =
    ap (λ b. store_bytes (store_bytes (λ c. if c == a then x else m c) (a + 1) xs) b ys)
      (omega arith)
    ∙ store_bytes-append (λ c. if c == a then x else m c) (a + 1) xs ys

bytes_lawful : LawfulBytes bytes
bytes_lawful = record { store_append = store_bytes-append; store_none = λ s a. refl }

abbrev blank : State (ℕ → ℕ)
blank = record {
  points = record {
    machine = λ a. 0x13;
    instruction_map = (16, record { size = 4; og_instruction_word = 0x13 }) ∷ [];
  };
  pc = 0;
  halted = false;
  halt_reason = k_none;
  need_to_step_over = false;
  num_cycles = 0;
  num_instructions = 0;
  counter_opcode = λ i. 0;
}

abbrev blank_top : Top (ℕ → ℕ)
blank_top = record { state = blank; run_status = k_halted }

load_image_lem_example :
    load_image bytes 9 (some (7 ∷ 8 ∷ 9 ∷ [])) 0x1000 blank_top
    ≡ some (ok, stored bytes 0x1000 (7 ∷ 8 ∷ 9 ∷ []) blank_top)
load_image_lem_example =
    load_image_lem bytes 9 0x1000 (7 ∷ 8 ∷ 9 ∷ []) blank_top bytes_lawful refl
      (record { end = omega arith; space = omega arith }) (omega arith)

-- The text of an instruction is its word.
abbrev word_text : (ℕ → ℕ) → ℕ → ℕ × (ℕ → ℕ)
word_text m a = (m a % 2 ^ 32, m)

abbrev active : ℕ → State (ℕ → ℕ) → Bool
active a s = a == 16
