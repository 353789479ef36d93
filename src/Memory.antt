-- ===== src/Memory.antt =====
-- sim/coralnpu_vector_memory_instructions.cc: the addresses, values and post-increments of the
-- vector loads and stores. The memory itself belongs to the simulator framework, so an operation
-- is what it hands over: the address buffer, the values, and the new address register.
pub mod Addresses
pub mod Stores
pub mod Quads
use coralnpu_mpact.Prelude.{ℕ, zero, suc, ◌+◌, ◌-◌, ◌*◌, ◌/◌, ◌%◌, ◌^◌, min, leb, ltb, ◌==◌}
use coralnpu_mpact.Prelude.{Bool, true, false, not, ◌&&◌, if◌then◌else◌, Option, none, some}
use coralnpu_mpact.Prelude.{List, [], ◌∷◌, ◌++◌, length, get_or, tabulate, ℤ, pos}
use coralnpu_mpact.Scalar.{CType, size_of}
use coralnpu_mpact.Vector.Machine.{Machine, num_ops, ops_loop}

-- The operands of a load or store: `arg` is the source that holds the length, the stride or the
-- increment, and `is_bare` says that the instruction has no such source (`SourcesSize()` is 1 for
-- a load and 2 for a store).
pub record Access : Type 0 where
  pub vector_length : ℕ
  pub max_physical_address : ℕ
  pub has_length : Bool
  pub has_stride : Bool
  pub strip_mine : Bool
  pub address : ℕ
  pub arg : ℕ
  pub is_bare : Bool
  pub has_destination : Bool

-- `kCoralnpuMaxMemoryAddress`
abbrev pub k_coralnpu_max_memory_address : ℕ
k_coralnpu_max_memory_address = 0x3fffff

-- `addr &= kMemMask`, where the mask is 0x7fffffff.
unfoldable pub masked_address : Access → ℕ
masked_address a =
    if leb a.max_physical_address k_coralnpu_max_memory_address
    then a.address % 2 ^ 31
    else a.address

abbrev pub vector_size_in_bytes : Access → ℕ
vector_size_in_bytes a = a.vector_length / 8

abbrev pub elts_per_register : CType → Access → ℕ
elts_per_register t a = vector_size_in_bytes a / size_of t

-- `elts_to_load` and `elts_to_store`, in 32 bits.
unfoldable pub elts_to_move : CType → Access → ℕ
elts_to_move t a =
    let all = num_ops a.strip_mine * elts_per_register t a % 2 ^ 32 in
    if a.has_length then min a.arg all else all

unfoldable pub stride_elts : CType → Access → ℕ
stride_elts t a = if a.has_stride then a.arg else elts_per_register t a

-- `base += stride_elts * sizeof(T)`, in 32 bits.
unfoldable pub next_base : CType → Access → ℕ → ℕ
next_base t a base = (base + stride_elts t a * size_of t) % 2 ^ 32

-- The inner loop of `CoralNPUVLd`: what it stores, as pairs of the index in the address buffer and
-- the address.
unfoldable pub load_round : ℕ → ℕ → ℕ → ℕ → ℕ → List (ℕ × ℕ)
load_round size first base zero i = []
load_round size first base (suc n) i =
    (first + i, base + i * size) ∷ load_round size first base n (i + 1)

unfoldable pub load_rounds : CType → Access → ℕ → ℕ → ℕ → ℕ → List (ℕ × ℕ)
load_rounds t a zero op_num elts_left base = []
load_rounds t a (suc left) op_num elts_left base =
    let elts = elts_per_register t a in
    let count = min elts_left elts in
    load_round (size_of t) (op_num * elts) base count 0
    ++ load_rounds t a left (op_num + 1) (elts_left - count) (next_base t a base)

unfoldable pub load_addresses : CType → Access → List (ℕ × ℕ)
load_addresses t a = load_rounds t a (num_ops a.strip_mine) 0 (elts_to_move t a) (masked_address a)

-- The inner loops of `VectorStoreHelper`, from `address_index` on: the addresses and their values,
-- in the order of the buffers. `limit` is `elts_to_store`.
unfoldable pub store_elements : (ℕ → ℤ) → ℕ → ℕ → ℕ → ℕ → ℕ → ℕ → ℕ → List (ℕ × ℤ)
store_elements source_span first base size limit zero j address_index = []
store_elements source_span first base size limit (suc n) j address_index =
    let rest = store_elements source_span first base size limit n (j + 1) (address_index + 1) in
    if ltb address_index limit then (base + j * size, source_span (first + j)) ∷ rest else []

-- The rounds over the quarters of a register.
unfoldable pub store_quads : CType → Access → (ℕ → ℤ) → ℕ → ℕ → ℕ → ℕ → ℕ → List (ℕ × ℤ)
store_quads t a source_span limit zero i base address_index = []
store_quads t a source_span limit (suc left) i base address_index =
    let quad_size = elts_per_register t a / 4 in
    let stored =
      store_elements source_span (i * quad_size) base (size_of t) limit quad_size 0 address_index in
    stored
    ++ store_quads t a source_span limit left (i + 1) (next_base t a base)
        (address_index + length stored)

-- The rounds over the registers: `vs r` is the register `r` of the source group.
unfoldable pub store_rounds : CType → Access → Bool → (ℕ → ℕ → ℤ) → ℕ → ℕ → ℕ → ℕ → ℕ → List (ℕ × ℤ)
store_rounds t a is_quad vs limit zero op_num base address_index = []
store_rounds t a is_quad vs limit (suc left) op_num base address_index =
    let stored =
      if is_quad
      then store_quads t a (vs op_num) limit 4 0 base address_index
      else store_elements (vs op_num) 0 base (size_of t) limit (elts_per_register t a) 0
          address_index in
    let next = next_base t a in
    stored
    ++ store_rounds t a is_quad vs limit left (op_num + 1)
        (if is_quad then next (next (next (next base))) else next base)
        (address_index + length stored)

unfoldable pub vector_store_helper : CType → Access → Bool → (ℕ → ℕ → ℤ) → List (ℕ × ℤ)
vector_store_helper t a is_quad vs =
    store_rounds t a is_quad vs (elts_to_move t a) (num_ops a.strip_mine) 0 (masked_address a) 0

-- `CoralNPUVSt` and `CoralNPUVStQ`, which sets its own flags.
unfoldable pub vst : CType → Access → (ℕ → ℕ → ℤ) → List (ℕ × ℤ)
vst t a vs = vector_store_helper t a false vs

unfoldable pub vstq : CType → Access → (ℕ → ℕ → ℤ) → List (ℕ × ℤ)
vstq t a vs = vector_store_helper t (record a { has_length = false; has_stride = true }) true vs

-- The new value of the address register, where the instruction has that destination.
unfoldable pub post_increment : CType → Access → Bool → Option ℕ
post_increment t a is_quad =
    let addr = masked_address a in
    let moved =
      if a.has_length && a.has_stride
      then vector_size_in_bytes a
      else if not a.has_length && not a.has_stride && a.is_bare
      then vector_size_in_bytes a * num_ops a.strip_mine
      else if a.has_length
      then elts_to_move t a * size_of t
      else if a.has_stride
      then stride_elts t a * size_of t * num_ops a.strip_mine * (if is_quad then 4 else 1)
      else a.arg * size_of t in
    if a.has_destination
    then some (if elts_to_move t a == 0 then addr else (addr + moved) % 2 ^ 32)
    else none

module _ {S : Type 0} (m : Machine S) where
  -- `CoralNPUVLdRegWrite`: the loaded values, and zeros past their end.
  unfoldable pub vld_reg_write : CType → Access → List ℤ → S → Option S
  vld_reg_write t a values s =
      let elts = elts_per_register t a in
      ops_loop m t (num_ops a.strip_mine) 1
        (λ s' op_index i. some (tabulate elts 0 (λ e. get_or values (op_index * elts + e) (pos 0))))
        (num_ops a.strip_mine) 0 s

  -- `CoralNPUVDup`: the scalar source in every lane.
  unfoldable pub vdup : CType → Access → S → Option S
  vdup t a s =
      ops_loop m t (num_ops a.strip_mine) 1
        (λ s' op_index i. some (tabulate (elts_per_register t a) 0 (λ e. m.source s t 0 0)))
        (num_ops a.strip_mine) 0 s

-- `CoralNPUGetVl`: the vector length in elements, capped by the sources that are given.
unfoldable pub get_vl : CType → ℕ → Bool → Bool → Bool → ℕ → ℕ → ℕ
get_vl t vector_length strip_mine is_rs1 is_rs2 rs1 rs2 =
    let vlen = vector_length / 8 / size_of t in
    let vlen4 = if strip_mine then vlen * 4 % 2 ^ 32 else vlen in
    let vlen1 = if is_rs1 then min vlen4 rs1 else vlen4 in if is_rs2 then min vlen1 rs2 else vlen1
