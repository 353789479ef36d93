-- ===== src/Vector.antt =====
-- sim/coralnpu_vector_instructions.cc: the vector instructions.
pub mod Machine
pub mod Shuffle
pub mod Arithmetic
pub mod Multiply
pub mod Shift
pub mod Bitwise
pub mod Instructions
