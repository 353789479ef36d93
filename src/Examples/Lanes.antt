-- ===== src/Examples/Lanes.antt =====
-- The theorems on the lane functions, at concrete lanes.
use coralnpu_mpact.Prelude.{◌≡◌, ◌-◌, ◌^◌, arith, true, none, some, not, ◌&&◌, if◌then◌else◌}
use coralnpu_mpact.Prelude.{pos, negsuc}
use coralnpu_mpact.Scalar.{i32, int32, eqb_ℤ, saturate}
use coralnpu_mpact.Vector.Shift.{vshift_helper}
use coralnpu_mpact.Vector.Shift.Least.{vshift_helper-none}
use coralnpu_mpact.Vector.Shift.Steps.{exact_shift}

vshift_helper-none_example : vshift_helper int32 true (pos 1) (negsuc 2147483647) ≡ (
    if not (eqb_ℤ (pos 1) (pos 0)) && eqb_ℤ (negsuc 2147483647) (negsuc (2 ^ 31 - 1))
    then none
    else some (saturate int32 (exact_shift true (pos 1) (negsuc 2147483647))))
vshift_helper-none_example =
    vshift_helper-none i32 true (pos 1) (negsuc 2147483647) (omega arith) (omega arith)
