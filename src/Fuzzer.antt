-- ===== src/Fuzzer.antt =====
-- The tools that generate tests around the simulator: the archive of sequences
-- (sim/behavioral_archive.cc), the tracker of what ran (sim/execution_tracker.cc) and the checks that
-- the orchestrator (sim/orchestrator.cc) puts at the end of a sequence.
pub mod Dict
pub mod Archive
pub mod Best
pub mod Finalize
pub mod SelfCheck
pub mod Overwriting
pub mod Images
pub mod Sorting
pub mod Tracker
pub mod Reports
pub mod Exports
pub mod Kept
pub mod Cycles
pub mod Counts
pub mod Distances
pub mod Chosen
