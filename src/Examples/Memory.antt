-- ===== src/Examples/Memory.antt =====
-- The theorems on the loads and stores, at concrete operands.
use coralnpu_mpact.Prelude.{ℕ, ◌+◌, ◌*◌, ◌≡◌, refl, arith, true, false, tabulate}
use coralnpu_mpact.Prelude.{ℤ, pos}
use coralnpu_mpact.Scalar.{int16}
use coralnpu_mpact.Memory.{Access, elts_to_move, load_addresses, vector_store_helper}
use coralnpu_mpact.Memory.Addresses.{element_address, load_addresses_lem}
use coralnpu_mpact.Memory.Stores.{stored}
use coralnpu_mpact.Memory.Quads.{vstq_lem}

-- A stripmined access of 16-bit elements with a stride of 20 elements.
abbrev access : Access
access = record {
  vector_length = 256;
  max_physical_address = 0x3fffff;
  has_length = false;
  has_stride = true;
  strip_mine = true;
  address = 0x80001000;
  arg = 20;
  is_bare = false;
  has_destination = true;
}

abbrev lanes : ℕ → ℕ → ℤ
lanes r e = pos (r * 16 + e)

load_addresses_lem_example :
    load_addresses int16 access
    ≡ tabulate (elts_to_move int16 access) 0 (λ k. (k, element_address int16 access 16 k))
load_addresses_lem_example = load_addresses_lem int16 access (omega arith)

vstq_lem_example :
    vector_store_helper int16 access true lanes
    ≡ tabulate (elts_to_move int16 access) 0 (stored int16 access lanes 4)
vstq_lem_example = vstq_lem int16 access lanes 4 refl (omega arith)
