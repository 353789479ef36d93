-- ===== src/Examples/Vector.antt =====
-- The theorems on the vector instructions, at concrete operands.
use coralnpu_mpact.Prelude.{ℕ, refl, arith, true, false, Option}
use coralnpu_mpact.Prelude.{ℤ, pos, ◌+ℤ◌, ◌-ℤ◌, ◌*ℤ◌, shr_ℤ}
use coralnpu_mpact.Scalar.{i8, int8, saturate, cast}
use coralnpu_mpact.Vector.Machine.{}
use coralnpu_mpact.Examples.{Registers, machine, machine-Isolated, registers}
use coralnpu_mpact.Vector.Instructions.Written.{HoldsLanes}
use coralnpu_mpact.Vector.Instructions.Guarantees.{
  Leaving, a, b, sums_written, saturated_written, products_written, shifts_written,
}
use coralnpu_mpact.Vector.Instructions.Sums.{vadd, vsub, vrsub, vadd3}
use coralnpu_mpact.Vector.Instructions.Saturated.{vadds, vsubs}
use coralnpu_mpact.Vector.Instructions.Shifts.{vshift}
use coralnpu_mpact.Vector.Instructions.Products.{vmul, vmuls, vmulh}
use coralnpu_mpact.Vector.Multiply.Exact.{half_unit}
use coralnpu_mpact.Vector.Shift.Steps.{exact_shift}

-- The lanes of the stripmined int8 instructions on `registers`.
abbrev x : ℕ → ℕ → ℤ
x = a machine machine-Isolated i8 false true registers

abbrev y : ℕ → ℕ → ℤ
y = b machine machine-Isolated i8 false true registers

abbrev Left : (ℕ → ℕ → ℤ) → Option Registers → Type 0
Left = Leaving machine machine-Isolated i8 false true registers

lanes_fit : HoldsLanes machine i8 false true registers
lanes_fit i j = ground arith

shifts_written_example :
    Left
      (λ o e. saturate int8 (exact_shift true (x o e) (y o e)))
      (vshift machine int8 true false true registers)
shifts_written_example =
    shifts_written machine machine-Isolated i8 false true registers true lanes_fit
      (λ i j. ground arith)

saturated_written_example :
    Left (λ o e. saturate int8 (x o e +ℤ y o e)) (vadds machine int8 false true registers)
    × Left (λ o e. saturate int8 (x o e -ℤ y o e)) (vsubs machine int8 false true registers)
saturated_written_example =
    saturated_written machine machine-Isolated i8 false true registers refl lanes_fit

products_written_example :
    Left (λ o e. cast int8 (x o e *ℤ y o e)) (vmul machine int8 false true registers)
    × Left (λ o e. saturate int8 (x o e *ℤ y o e)) (vmuls machine int8 false true registers)
    × Left
        (λ o e. shr_ℤ (x o e *ℤ y o e +ℤ half_unit i8 true) 8)
        (vmulh machine int8 false true true registers)
products_written_example =
    products_written machine machine-Isolated i8 false true registers true lanes_fit

sums_written_example :
    Left (λ o e. cast int8 (x o e +ℤ y o e)) (vadd machine int8 false true registers)
    × Left (λ o e. cast int8 (x o e -ℤ y o e)) (vsub machine int8 false true registers)
    × Left (λ o e. cast int8 (y o e -ℤ x o e)) (vrsub machine int8 false true registers)
    × Left (λ o e. cast int8 (pos 5 +ℤ x o e +ℤ y o e)) (vadd3 machine int8 false true registers)
sums_written_example = sums_written machine machine-Isolated i8 false true registers
