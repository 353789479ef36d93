-- ===== src/Examples/Moves.antt =====
-- The theorems on the instructions that move lanes, at concrete registers.
use coralnpu_mpact.Prelude.{◌+◌, ◌*◌, ◌/◌, ◌%◌, ◌≡◌, refl, arith, ap₂, true, false, some}
use coralnpu_mpact.Scalar.{int8}
use coralnpu_mpact.Vector.Machine.{elts_per_register}
use coralnpu_mpact.Vector.Instructions.Interleaves.{vzip, vevnodd}
use coralnpu_mpact.Vector.Instructions.Zips.{Feeds, vevnodd-vzip}
use coralnpu_mpact.Examples.{Registers, machine, machine-Isolated, registers}

-- The next instruction reads the four registers from 0 on and the four from 4 on.
abbrev reading : Registers → Registers
reading r = record r { sources = λ i k. r.dests (k / 32 + i * 4) (k % 32) }

reading-Feeds : (r : Registers) → Feeds machine int8 true r (reading r)
unfolding elts_per_register
reading-Feeds r = record {
  low = λ o e p q. ap₂ r.dests (omega arith) (omega arith);
  high = λ o e p q. ap₂ r.dests (omega arith) (omega arith);
}

vevnodd-vzip_example :
    (r : Registers) × (out : Registers) × (vzip machine int8 false true registers ≡ some r)
    × (vevnodd machine int8 false true (reading r) ≡ some out)
    × (out.dests 1 5 ≡ registers.sources 0 (1 * 32 + 5))
    × (out.dests (1 + 4) 5 ≡ registers.sources 1 (1 * 32 + 5))
unfolding elts_per_register
vevnodd-vzip_example =
    vevnodd-vzip machine machine-Isolated int8 16 true reading reading-Feeds registers 1 5 refl
      (omega arith) (omega arith)
