-- ===== src/Lib.antt =====
-- A model of the CoralNPU simulator's instruction semantics (sim/), and what its instructions promise.
--
-- The simulator executes instructions of the CoralNPU core on the registers and the memory of the MPACT
-- simulator framework. A decoder, generated by the build, binds each instruction to a semantic function.
-- CoralNPUTop runs the instructions and is the debugger's interface: it steps or starts a thread that runs
-- until a halt is requested, and writes breakpoints over instructions through its action points. Modelled
-- are the vector instructions of the first core, their loads and stores, the convolutions, the conversions
-- of bfloat16, the log instructions, the access checks that the V2 core puts before the framework's own
-- loads, stores and jumps, and the simulator of a core; of the M3 core its own conversions of bfloat16 and
-- the operand encoder of its assembler; and of the tools that generate tests, the archive of sequences, the
-- tracker of what ran and the self-checks that a sequence ends with.
--
-- Scalar.antt: the C++ arithmetic types of the templates. A value is the integer that it stands for; a
--   conversion keeps the low bits, and an operation converts its result to the promoted type. `cast` is
--   static_cast, `plus`, `minus`, `times` and `shl` are the operators, `wide` is the framework's
--   WideType, twice as wide and of the same signedness. Lane lists the six lane types. Scalar/ has the
--   lemmas on conversions.
-- Vector/Machine.antt: CoralNPUBinaryVectorOp and CoralNPUUnaryVectorOp of
--   sim/coralnpu_vector_instructions.cc, and the common argument getters. The framework's registers are
--   the parameter Machine, on a state of any type. Its law Isolated (Machine/Submit.antt) says that a
--   submitted buffer is what its register holds, that other registers are left alone, and that no
--   destination register is a source. The loops run over fixed counts, and are structural.
-- Vector/Arithmetic.antt, Multiply.antt, Shift.antt, Bitwise.antt: the functions that the instructions
--   apply to lanes, named after the instruction (vadd_lane for the lambda of CoralNPUVAdd) or the helper
--   (vadds_helper for VAddsHelper). `none` is a failed CHECK or undefined behaviour. A mask `& (2^k - 1)`
--   is written as a remainder. absl's bit counts are arguments.
-- Vector/Shuffle.antt: the getters that move lanes, among them the slides' tables.
-- Vector/Instructions.antt and the files under it: one function per CoralNPUV instruction, on the
--   template's types, and what they leave in the registers (Written, Guarantees, Zips).
-- Memory.antt: sim/coralnpu_vector_memory_instructions.cc. A load or store is what it hands to the
--   framework's memory: the address buffer, with its 32-bit and 64-bit arithmetic, and the values. The
--   arrays are lists in the order in which the loops fill them; a load also keeps the index it writes to.
-- Access.antt: HasPermission of sim/coralnpu_v2_state.cc and the checks of
--   sim/coralnpu_v2_instructions.cc. The framework's Trap, loads and stores are arguments.
--   Access/Vectors.antt has one function per vector load and store, and the tile accesses of
--   sim/coralnpu_m4_instructions.cc, by what they check.
-- Convolution.antt and the files under it: sim/coralnpu_vector_convolution_instructions.cc, VCONV here and
--   VDWCONV in Depthwise.antt, on vectors of 256 bits. The source registers are functions of register and
--   byte. `none` is a command that traps, or in VDWCONV, whose accumulators are of type int32_t, a sum
--   that overflows. Accumulators.antt has CoralNPUVcGet and CoralNPUAcSet of
--   sim/coralnpu_vector_memory_instructions.cc, which read and set the accumulators.
-- Bfloat.antt: the conversions between float and bfloat16 of sim/coralnpu_instructions.cc, and
--   ConvertF32ToBF16 of sim/coralnpu_vector_instructions.cc, on bit patterns. The flags are those of
--   FPExceptions that they raise, and the framework's flag register is always there. Under it,
--   Overrides.antt is sim/coralnpu_m3_zfbfmin_overrides.cc, and Vectors.antt the vector conversions of
--   sim/coralnpu_vector_instructions.cc with the checks of their operands; a register is a number, its
--   name a list of characters, and absl's SimpleAtoi is an argument.
-- Logging.antt: the log instructions of sim/coralnpu_instructions.cc and PrintLog of sim/coralnpu_state.cc.
--   Words of memory are loaded by a function, absl's number formats are arguments, and `none` is a failed
--   CHECK, an exception or a read behind a string. The string load has fuel, one round for each word.
-- M3.antt: sim/coralnpu_m3_instructions.cc, on the same bit patterns and flags as Bfloat.antt. Outcome16 is
--   what a scalar conversion does. Under it, Vectors.antt has the vector conversions: the buffers that the
--   loop opens, fills and submits are the state Walk, and registers are functions.
-- Assembler.antt: sim/coralnpu_m3_bin_encoder_interface.cc. ParseReg reads a text, a list of characters;
--   absl's functions on texts are the parameter Absl. Under it, Words.antt and its child have its tables, and
--   Operands.antt the encodings of operands, on the generated insertions as the parameter Encoder. Addresses
--   are numbers of 64 bits.
-- Fuzzer.antt and the files under it: Archive.antt is sim/behavioral_archive.cc; Tracker.antt, Reports.antt
--   and Exports.antt are sim/execution_tracker.cc; Finalize.antt is PerformPhase2Finalize of
--   sim/orchestrator.cc. Maps with texts as keys are lists of entries (Dict.antt), a sequence is of any
--   type, a random draw is an argument, an instruction is what the tracker asks of it, and absl's text of a
--   number is an argument (str_cat).
-- Top.antt: sim/coralnpu_top.h, the state of CoralNPUTop. A State is what an executing instruction may
--   change, Top adds the run status. Core and MemoryInterface are what is called of the framework. Under
--   it, ActionPoints.antt is sim/coralnpu_action_point_memory_interface.cc, and the others are
--   sim/coralnpu_top.cc: Simulator.antt the execution of one instruction and the pass that the loops of
--   Step and Run share, Step.antt the function Step, Handlers.antt the callbacks of Initialize and Halt,
--   Debugger.antt, Images.antt and Disassembly.antt the debug interface, and Session.antt Run and Wait
--   with the threads, as a step relation. An executing instruction waits for resources in a loop that has
--   fuel, and the loop of Step has num + 1 rounds; whether both are enough is the subject of
--   Top/Returns.antt. A thread that would notify a null run_halted_ has no step. A status has no text,
--   and what is printed is left out. The variable `pc` of Step and Run starts with an arbitrary value,
--   since the code leaves it without one.
-- Examples.antt and the files under it: a machine with two register files, and the theorems at concrete
--   operands.
--
-- Not modelled: of the core, the construction of its state, the MPause handlers and the uncached stores;
-- the M3 conversions of half precision, the other M4 instructions, the decoders and encodings, the
-- assembler around its operand encoder, and the command lines and co-simulation around the simulator,
-- which are framework calls, generated tables or input and output. Of the tools that generate tests, the
-- generator of sequences, their mutation and the loop around them. Of the simulator, the construction and
-- the trace file; a request to halt falls between two passes of a thread, never inside one, so that the
-- request which the code loses when it resets halted_ after an action point is not represented.
pub mod Prelude
pub mod Scalar
pub mod Vector
pub mod Memory
pub mod Access
pub mod Convolution
pub mod Bfloat
pub mod Logging
pub mod M3
pub mod Assembler
pub mod Fuzzer
pub mod Top
pub mod Examples
