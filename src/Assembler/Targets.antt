-- ===== src/Assembler/Targets.antt =====
-- The targets of branches and jumps in sim/coralnpu_m3_bin_encoder_interface.cc.
