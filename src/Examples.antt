-- ===== src/Examples.antt =====
-- A machine whose state is two register files, and instances of the theorems at concrete operands.
mod Vector
mod Lanes
mod Moves
mod Memory
mod Access
mod Top
mod Session
mod Debugger
mod Convolution
mod Bfloat
mod Logging
mod M3
mod Assembler
mod Fuzzer
use coralnpu_mpact.Prelude.{ℕ, ◌%◌, ◌==◌, ◌≡◌, ◌≢◌, refl, arith, if◌then◌else◌}
use coralnpu_mpact.Prelude.{List, get_or, ℤ, pos, negsuc}
use coralnpu_mpact.Scalar.{CType}
use coralnpu_mpact.Vector.Machine.{Machine}
use coralnpu_mpact.Vector.Machine.Submit.{Isolated}

pub record Registers : Type 0 where
  pub sources : ℕ → ℕ → ℤ
  pub dests : ℕ → ℕ → ℤ

abbrev pub write : Registers → CType → ℕ → List ℤ → Registers
write s t r v = record s { dests = λ r' e. if r == r' then get_or v e (pos 0) else s.dests r' e }

-- Registers of 256 bits.
abbrev pub machine : Machine Registers
machine = record {
  vector_register_width = 32;
  source = λ s t i e. s.sources i e;
  dest_lane = λ s t r e. s.dests r e;
  submit = write;
}

self_lem :
    (s : Registers) (t : CType) (r e : ℕ) (v : List ℤ)
    → (write s t r v).dests r e ≡ get_or v e (pos 0)
self_lem s t r e v = ground arith

ne_lem :
    (s : Registers) (t : CType) (r r' e : ℕ) (v : List ℤ)
    → r ≢ r'
    → (write s t r v).dests r' e ≡ s.dests r' e
ne_lem s t r r' e v h = ground arith

pub machine-Isolated : Isolated machine
machine-Isolated = record {
  dest_lane-submit_self = self_lem;
  dest_lane-submit_ne = ne_lem;
  source-submit = λ s t t' r i e v. refl;
}

-- The first argument holds 0 to 99 over and over, the second one -1 to -8, the destination 5.
abbrev pub registers : Registers
registers = record {
  sources = λ i e. if i == 0 then pos (e % 100) else negsuc (e % 8);
  dests = λ r e. pos 5;
}
