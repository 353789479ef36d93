-- ===== src/Top/Images.antt =====
-- Memory and program images in sim/coralnpu_top.cc.
use coralnpu_mpact.Prelude.{ℕ, zero, suc, ◌+◌, ◌-◌, ◌%◌, ◌^◌, ◌==◌, ltb, min, Bool, false}
use coralnpu_mpact.Prelude.{Option, none, some, List, [], ◌∷◌, length, if◌then◌else◌}
use coralnpu_mpact.Top.{
  Status, ok, failed, StatusOr, value, status, invalid_argument, failed_precondition, internal, Top,
}
use coralnpu_mpact.Top.Simulator.{set_machine}
use coralnpu_mpact.Top.Step.{is_halted}

-- `take` and `drop` of a buffer, by native numbers.
unfoldable pub take {ℓ} : {A : Type ℓ} → ℕ → List A → List A
take zero xs = []
take (suc n) [] = []
take (suc n) (x ∷ xs) = x ∷ take n xs

unfoldable pub drop {ℓ} : {A : Type ℓ} → ℕ → List A → List A
drop zero xs = xs
drop (suc n) [] = []
drop (suc n) (x ∷ xs) = drop n xs

-- The memory, by bytes, and `max_physical_address()`.
pub record ByteMemory (S : Type 0) : Type 0 where
  pub load : S → ℕ → ℕ → List ℕ
  pub store : S → ℕ → List ℕ → S
  pub max_physical_address : ℕ

-- `kBufferSize`
abbrev pub k_buffer_size : ℕ
k_buffer_size = 4096

module _ {S : Type 0} (memory : ByteMemory S) where
  -- `std::min<size_t>(length, max_physical_address() - address + 1)`
  abbrev pub clamped : ℕ → ℕ → ℕ
  clamped address length = min length ((memory.max_physical_address - address + 1) % 2 ^ 64)

  -- `ReadMemory`: the number of bytes, with the bytes that it copies to the buffer.
  unfoldable pub read_memory : ℕ → ℕ → Top S → StatusOr (ℕ × List ℕ)
  read_memory address length t =
      if is_halted t.run_status
      then if ltb memory.max_physical_address address
        then status invalid_argument
        else value (
          clamped address length,
          memory.load t.state.points.machine address (clamped address length),
        )
      else status failed_precondition

  -- `WriteMemory` of the first `length` bytes of a buffer.
  unfoldable pub write_memory : ℕ → List ℕ → ℕ → Top S → StatusOr ℕ × Top S
  write_memory address buffer length t =
      if is_halted t.run_status
      then if ltb memory.max_physical_address address then (status invalid_argument, t) else (
        value (clamped address length),
        record t {
          state =
              set_machine
                (memory.store t.state.points.machine address (take (clamped address length) buffer))
                t.state;
        },
      )
      else (status failed_precondition, t)

  -- The check of a write of `gcount` bytes, by what it returned.
  abbrev pub written_all : ℕ → StatusOr ℕ → Bool
  written_all gcount (status error) = false
  written_all gcount (value count) = count == gcount

  -- The loop of `LoadImage` on the bytes of the file that are left, at most `fuel` times; the file is
  -- good until a read meets its end.
  unfoldable pub load_chunks : ℕ → ℕ → ℕ → List ℕ → Top S → Option (Status × Top S)
  load_chunks buffer_size zero load_address bytes t = none
  load_chunks buffer_size (suc fuel) load_address bytes t =
      let buffer = take buffer_size bytes in
      let gcount = length buffer in
      let res = write_memory load_address buffer gcount t in
      let rest =
        load_chunks buffer_size fuel ((load_address + gcount) % 2 ^ 64) (drop buffer_size bytes)
          res.1 in
      if gcount == 0
      then some (ok, t)
      else if written_all gcount res.0
      then if gcount == buffer_size then rest else some (ok, res.1)
      else some (failed internal, res.1)

  -- `LoadImage`; a file that does not open is `none`.
  unfoldable pub load_image : ℕ → Option (List ℕ) → ℕ → Top S → Option (Status × Top S)
  load_image fuel none start_address t = some (failed internal, t)
  load_image fuel (some bytes) start_address t =
      load_chunks k_buffer_size fuel start_address bytes t
