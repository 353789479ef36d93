-- ===== src/Top/Loaded.antt =====
-- What `LoadImage` of sim/coralnpu_top.cc leaves in memory.
use coralnpu_mpact.Prelude.{
  ℕ, zero, suc, ◌+◌, ◌-◌, ◌%◌, ◌^◌, ◌==◌, ◌≤◌, ◌<◌, ◌≡◌, ◌∙◌, refl, sym, ap, arith,
}
use coralnpu_mpact.Prelude.{ltb, min, true, false, Bool-cases, ==_iff, inl, inr, if◌then◌else◌}
use coralnpu_mpact.Prelude.{some, List, [], ◌∷◌, ◌++◌, length}
use coralnpu_mpact.Top.{ok, value, k_halted, Top}
use coralnpu_mpact.Top.Simulator.{set_machine}
use coralnpu_mpact.Top.Step.{is_halted}
use coralnpu_mpact.Top.Images.{
  take, drop, ByteMemory, clamped, write_memory, load_chunks, load_image, k_buffer_size,
}

module _ {ℓ} {A : Type ℓ} where
  take-drop : (n : ℕ) (xs : List A) → take n xs ++ drop n xs ≡ xs
  unfolding take drop
  take-drop zero xs = refl
  take-drop (suc n) [] = refl
  take-drop (suc n) (x ∷ xs) = ap (λ l. x ∷ l) (take-drop n xs)

  length-take : (n : ℕ) (xs : List A) → length (take n xs) ≡ min n (length xs)
  unfolding take
  length-take zero xs = omega arith
  length-take (suc n) [] = omega arith
  length-take (suc n) (x ∷ xs) = let rest = length-take n xs in omega arith

  length-drop : (n : ℕ) (xs : List A) → length (drop n xs) ≡ length xs - n
  unfolding drop
  length-drop zero xs = omega arith
  length-drop (suc n) [] = omega arith
  length-drop (suc n) (x ∷ xs) = let rest = length-drop n xs in omega arith

  take_all : (xs : List A) → take (length xs) xs ≡ xs
  unfolding take
  take_all [] = refl
  take_all (x ∷ xs) = ap (λ l. x ∷ l) (take_all xs)

  take_short : (n : ℕ) (xs : List A) → length xs ≤ n → take n xs ≡ xs
  unfolding take
  take_short zero [] l = refl
  take_short zero (x ∷ xs) l = absurd (omega arith)
  take_short (suc n) [] l = refl
  take_short (suc n) (x ∷ xs) l = ap (λ z. x ∷ z) (take_short n xs (omega arith))

-- Bytes that follow those stored before are stored with them, and none are stored as nothing.
pub record LawfulBytes {S : Type 0} (memory : ByteMemory S) : Type 0 where
  pub store_append :
      (s : S) (a : ℕ) (xs ys : List ℕ)
      → memory.store (memory.store s a xs) (a + length xs) ys ≡ memory.store s a (xs ++ ys)
  pub store_none : (s : S) (a : ℕ) → memory.store s a [] ≡ s

module _ {S : Type 0} (memory : ByteMemory S) where
  -- The simulator, with bytes stored.
  abbrev pub stored : ℕ → List ℕ → Top S → Top S
  stored a xs t = record t {
    state = set_machine (memory.store t.state.points.machine a xs) t.state;
  }

  -- The bytes are within the physical addresses, and these within 64 bits.
  pub record Fits (start count : ℕ) : Type 0 where
    pub end : start + count ≤ memory.max_physical_address + 1
    pub space : memory.max_physical_address + 1 < 2 ^ 64

  write_memory-Fits :
      (a n : ℕ) (buffer : List ℕ) (t : Top S)
      → is_halted t.run_status ≡ true
      → 0 < n
      → Fits a n
      → write_memory memory a buffer n t ≡ (value n, stored a (take n buffer) t)
  unfolding write_memory
  write_memory-Fits a n buffer t h z f =
      let inside : ltb memory.max_physical_address a ≡ false = ground (arith, f.end) in
      let whole : clamped memory a n ≡ n = omega (arith, f.end, f.space) in
      rw (h, inside, whole) refl

  load_chunks_step :
      (size fuel a : ℕ) (bytes : List ℕ) (t : Top S)
      → is_halted t.run_status ≡ true
      → 0 < length (take size bytes)
      → Fits a (length (take size bytes))
      → load_chunks memory size (suc fuel) a bytes t ≡ (
          let t' = stored a (take size bytes) t in
          if length (take size bytes) == size
          then load_chunks memory size fuel (a + length (take size bytes)) (drop size bytes) t'
          else some (ok, t'))
  unfolding load_chunks
  load_chunks_step size fuel a bytes t h z f =
      let buffer = take size bytes in
      let n = length buffer in
      let written : write_memory memory a buffer n t ≡ (value n, stored a buffer t) =
        write_memory-Fits a n buffer t h z f ∙ rw (take_all buffer) refl in
      let nonempty : (n == 0) ≡ false = ground arith in
      let all : (n == n) ≡ true = ground arith in
      let unwrapped : (a + n) % 2 ^ 64 ≡ a + n = omega (arith, f.end, f.space) in
      rw (written, nonempty, all, unwrapped) refl

  load_chunks_end :
      (size fuel a : ℕ) (t : Top S) → load_chunks memory size (suc fuel) a [] t ≡ some (ok, t)
  unfolding load_chunks
  load_chunks_end size fuel a t =
      let nothing : take {A = ℕ} size [] ≡ [] = take_short size [] (omega arith) in rw nothing refl

  module _ (laws : LawfulBytes memory) where
    stored_append :
        (a : ℕ) (xs ys : List ℕ) (t : Top S)
        → stored (a + length xs) ys (stored a xs t) ≡ stored a (xs ++ ys) t
    stored_append a xs ys t =
        ap (λ m. record t { state = set_machine m t.state })
          (laws.store_append t.state.points.machine a xs ys)

    load_chunks_lem :
        (size fuel a : ℕ) (bytes : List ℕ) (t : Top S)
        → 0 < size
        → length bytes < fuel
        → is_halted t.run_status ≡ true
        → Fits a (length bytes)
        → load_chunks memory size fuel a bytes t ≡ some (ok, stored a bytes t)
    load_chunks_lem size zero a bytes t z l h f = absurd (omega arith)
    load_chunks_lem size (suc fuel) a [] t z l h f =
        load_chunks_end size fuel a t
        ∙ ap (λ m. some (ok, record t { state = set_machine m t.state }))
            (sym (laws.store_none t.state.points.machine a))
    load_chunks_lem size (suc fuel) a (x ∷ xs) t z l h f =
        let bytes = x ∷ xs in
        let buffer = take size bytes in
        let count : length buffer ≡ min size (length bytes) = length-take size bytes in
        let left : length (drop size bytes) ≡ length bytes - size = length-drop size bytes in
        let first =
          load_chunks_step size fuel a bytes t h (omega (arith, count))
            (record { end = omega (arith, count, f.end); space = f.space }) in
        elim (Bool-cases (length buffer == size)) [
          | inl full ↦
              let same = (==_iff (length buffer) size).0 full in
              let rest =
                load_chunks_lem size fuel (a + length buffer) (drop size bytes) (stored a buffer t)
                  z (omega (arith, left)) h
                  (record { end = omega (arith, left, count, same, f.end); space = f.space }) in
              first
              ∙ rw full (
                  rest
                  ∙ ap (λ u. some (ok, u)) (stored_append a buffer (drop size bytes) t)
                  ∙ ap (λ y. some (ok, stored a y t)) (take-drop size bytes))
          | inr short ↦
              first
              ∙ rw short (
                  ap (λ y. some (ok, stored a y t)) (take_short size bytes (ground (arith, count))))
        ]

  -- Where a program image, from its start address on, is within the physical addresses, and these are
  -- fewer than 2 ^ 64, `LoadImage` on a halted core returns `OkStatus` and leaves the image's bytes at
  -- the start address, and changes nothing else; more passes than the image has bytes are enough.
  pub load_image_lem :
      (fuel start_address : ℕ) (bytes : List ℕ) (t : Top S)
      → LawfulBytes memory
      → t.run_status ≡ k_halted
      → Fits start_address (length bytes)
      → length bytes < fuel
      → load_image memory fuel (some bytes) start_address t
        ≡ some (ok, stored start_address bytes t)
  unfolding load_image
  load_image_lem fuel start_address bytes t laws h f l =
      load_chunks_lem laws k_buffer_size fuel start_address bytes t (omega arith) l (rw h refl) f
