-- ===== src/Assembler/Words/Names.antt =====
-- The entries of `kRegs` in ParseReg of sim/coralnpu_m3_bin_encoder_interface.cc.
use coralnpu_mpact.Prelude.{ℕ, List, [], ◌∷◌, codes}

-- `kRegs`: the integer registers
unfoldable pub x_registers : List (List ℕ × ℕ)
x_registers =
    (codes "x0", 0)
    ∷ (codes "x1", 1)
    ∷ (codes "x2", 2)
    ∷ (codes "x3", 3)
    ∷ (codes "x4", 4)
    ∷ (codes "x5", 5)
    ∷ (codes "x6", 6)
    ∷ (codes "x7", 7)
    ∷ (codes "x8", 8)
    ∷ (codes "x9", 9)
    ∷ (codes "x10", 10)
    ∷ (codes "x11", 11)
    ∷ (codes "x12", 12)
    ∷ (codes "x13", 13)
    ∷ (codes "x14", 14)
    ∷ (codes "x15", 15)
    ∷ (codes "x16", 16)
    ∷ (codes "x17", 17)
    ∷ (codes "x18", 18)
    ∷ (codes "x19", 19)
    ∷ (codes "x20", 20)
    ∷ (codes "x21", 21)
    ∷ (codes "x22", 22)
    ∷ (codes "x23", 23)
    ∷ (codes "x24", 24)
    ∷ (codes "x25", 25)
    ∷ (codes "x26", 26)
    ∷ (codes "x27", 27)
    ∷ (codes "x28", 28)
    ∷ (codes "x29", 29)
    ∷ (codes "x30", 30)
    ∷ (codes "x31", 31)
    ∷ []

-- their names in the calling convention
unfoldable pub x_aliases : List (List ℕ × ℕ)
x_aliases =
    (codes "zero", 0)
    ∷ (codes "ra", 1)
    ∷ (codes "sp", 2)
    ∷ (codes "gp", 3)
    ∷ (codes "tp", 4)
    ∷ (codes "t0", 5)
    ∷ (codes "t1", 6)
    ∷ (codes "t2", 7)
    ∷ (codes "s0", 8)
    ∷ (codes "s1", 9)
    ∷ (codes "a0", 10)
    ∷ (codes "a1", 11)
    ∷ (codes "a2", 12)
    ∷ (codes "a3", 13)
    ∷ (codes "a4", 14)
    ∷ (codes "a5", 15)
    ∷ (codes "a6", 16)
    ∷ (codes "a7", 17)
    ∷ (codes "s2", 18)
    ∷ (codes "s3", 19)
    ∷ (codes "s4", 20)
    ∷ (codes "s5", 21)
    ∷ (codes "s6", 22)
    ∷ (codes "s7", 23)
    ∷ (codes "s8", 24)
    ∷ (codes "s9", 25)
    ∷ (codes "s10", 26)
    ∷ (codes "s11", 27)
    ∷ (codes "t3", 28)
    ∷ (codes "t4", 29)
    ∷ (codes "t5", 30)
    ∷ (codes "t6", 31)
    ∷ []

-- the floating point registers
unfoldable pub f_registers : List (List ℕ × ℕ)
f_registers =
    (codes "f0", 0)
    ∷ (codes "f1", 1)
    ∷ (codes "f2", 2)
    ∷ (codes "f3", 3)
    ∷ (codes "f4", 4)
    ∷ (codes "f5", 5)
    ∷ (codes "f6", 6)
    ∷ (codes "f7", 7)
    ∷ (codes "f8", 8)
    ∷ (codes "f9", 9)
    ∷ (codes "f10", 10)
    ∷ (codes "f11", 11)
    ∷ (codes "f12", 12)
    ∷ (codes "f13", 13)
    ∷ (codes "f14", 14)
    ∷ (codes "f15", 15)
    ∷ (codes "f16", 16)
    ∷ (codes "f17", 17)
    ∷ (codes "f18", 18)
    ∷ (codes "f19", 19)
    ∷ (codes "f20", 20)
    ∷ (codes "f21", 21)
    ∷ (codes "f22", 22)
    ∷ (codes "f23", 23)
    ∷ (codes "f24", 24)
    ∷ (codes "f25", 25)
    ∷ (codes "f26", 26)
    ∷ (codes "f27", 27)
    ∷ (codes "f28", 28)
    ∷ (codes "f29", 29)
    ∷ (codes "f30", 30)
    ∷ (codes "f31", 31)
    ∷ []

-- their names in the calling convention
unfoldable pub f_aliases : List (List ℕ × ℕ)
f_aliases =
    (codes "ft0", 0)
    ∷ (codes "ft1", 1)
    ∷ (codes "ft2", 2)
    ∷ (codes "ft3", 3)
    ∷ (codes "ft4", 4)
    ∷ (codes "ft5", 5)
    ∷ (codes "ft6", 6)
    ∷ (codes "ft7", 7)
    ∷ (codes "fs0", 8)
    ∷ (codes "fs1", 9)
    ∷ (codes "fa0", 10)
    ∷ (codes "fa1", 11)
    ∷ (codes "fa2", 12)
    ∷ (codes "fa3", 13)
    ∷ (codes "fa4", 14)
    ∷ (codes "fa5", 15)
    ∷ (codes "fa6", 16)
    ∷ (codes "fa7", 17)
    ∷ (codes "fs2", 18)
    ∷ (codes "fs3", 19)
    ∷ (codes "fs4", 20)
    ∷ (codes "fs5", 21)
    ∷ (codes "fs6", 22)
    ∷ (codes "fs7", 23)
    ∷ (codes "fs8", 24)
    ∷ (codes "fs9", 25)
    ∷ (codes "fs10", 26)
    ∷ (codes "fs11", 27)
    ∷ (codes "ft8", 28)
    ∷ (codes "ft9", 29)
    ∷ (codes "ft10", 30)
    ∷ (codes "ft11", 31)
    ∷ []

-- the vector registers
unfoldable pub v_registers : List (List ℕ × ℕ)
v_registers =
    (codes "v0", 0)
    ∷ (codes "v1", 1)
    ∷ (codes "v2", 2)
    ∷ (codes "v3", 3)
    ∷ (codes "v4", 4)
    ∷ (codes "v5", 5)
    ∷ (codes "v6", 6)
    ∷ (codes "v7", 7)
    ∷ (codes "v8", 8)
    ∷ (codes "v9", 9)
    ∷ (codes "v10", 10)
    ∷ (codes "v11", 11)
    ∷ (codes "v12", 12)
    ∷ (codes "v13", 13)
    ∷ (codes "v14", 14)
    ∷ (codes "v15", 15)
    ∷ (codes "v16", 16)
    ∷ (codes "v17", 17)
    ∷ (codes "v18", 18)
    ∷ (codes "v19", 19)
    ∷ (codes "v20", 20)
    ∷ (codes "v21", 21)
    ∷ (codes "v22", 22)
    ∷ (codes "v23", 23)
    ∷ (codes "v24", 24)
    ∷ (codes "v25", 25)
    ∷ (codes "v26", 26)
    ∷ (codes "v27", 27)
    ∷ (codes "v28", 28)
    ∷ (codes "v29", 29)
    ∷ (codes "v30", 30)
    ∷ (codes "v31", 31)
    ∷ []

-- and the control registers.
unfoldable pub csr_aliases : List (List ℕ × ℕ)
csr_aliases =
    (codes "fflags", 0x001)
    ∷ (codes "frm", 0x002)
    ∷ (codes "fcsr", 0x003)
    ∷ (codes "vl", 0xC20)
    ∷ (codes "vtype", 0xC21)
    ∷ (codes "vlenb", 0xC22)
    ∷ (codes "vstart", 0x008)
    ∷ (codes "vxsat", 0x009)
    ∷ (codes "vxrm", 0x00A)
    ∷ (codes "vcsr", 0x00F)
    ∷ (codes "cycle", 0xC00)
    ∷ (codes "time", 0xC01)
    ∷ (codes "instret", 0xC02)
    ∷ (codes "mstatus", 0x300)
    ∷ (codes "mie", 0x304)
    ∷ (codes "mepc", 0x341)
    ∷ (codes "mtvec", 0x305)
    ∷ (codes "satp", 0x180)
    ∷ (codes "mscratch", 0x340)
    ∷ (codes "mcause", 0x342)
    ∷ (codes "mtval", 0x343)
    ∷ (codes "mip", 0x344)
    ∷ (codes "hpmcounter3", 0xC03)
    ∷ (codes "hpmcounter4", 0xC04)
    ∷ (codes "hpmcounter5", 0xC05)
    ∷ (codes "hpmcounter6", 0xC06)
    ∷ (codes "hpmcounter7", 0xC07)
    ∷ (codes "hpmcounter8", 0xC08)
    ∷ (codes "hpmcounter9", 0xC09)
    ∷ (codes "hpmcounter10", 0xC0A)
    ∷ (codes "hpmcounter11", 0xC0B)
    ∷ (codes "hpmcounter12", 0xC0C)
    ∷ (codes "hpmcounter13", 0xC0D)
    ∷ (codes "hpmcounter14", 0xC0E)
    ∷ (codes "hpmcounter15", 0xC0F)
    ∷ (codes "hpmcounter16", 0xC10)
    ∷ (codes "hpmcounter17", 0xC11)
    ∷ (codes "hpmcounter18", 0xC12)
    ∷ (codes "hpmcounter19", 0xC13)
    ∷ (codes "hpmcounter20", 0xC14)
    ∷ (codes "hpmcounter21", 0xC15)
    ∷ (codes "hpmcounter22", 0xC16)
    ∷ (codes "hpmcounter23", 0xC17)
    ∷ (codes "hpmcounter24", 0xC18)
    ∷ (codes "hpmcounter25", 0xC19)
    ∷ (codes "hpmcounter26", 0xC1A)
    ∷ (codes "hpmcounter27", 0xC1B)
    ∷ (codes "hpmcounter28", 0xC1C)
    ∷ (codes "hpmcounter29", 0xC1D)
    ∷ (codes "hpmcounter30", 0xC1E)
    ∷ (codes "hpmcounter31", 0xC1F)
    ∷ []
