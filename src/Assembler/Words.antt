-- ===== src/Assembler/Words.antt =====
-- The words that ParseReg of sim/coralnpu_m3_bin_encoder_interface.cc knows, in tables: the chains of
-- comparisons, first match first, and the map `kRegs`.
mod Names
unfoldable pub use Names.*
use coralnpu_mpact.Prelude.{
  ℕ, List, [], ◌∷◌, ◌++◌, codes, text_eq, if◌then◌else◌, Option, none, some,
}

-- `if (text == "...") return ...;` one after the other, or the entry of a map without double keys.
unfoldable pub find_word : List ℕ → List (List ℕ × ℕ) → Option ℕ
find_word text [] = none
find_word text ((word, value) ∷ rest) =
    if text_eq text word then some value else find_word text rest

-- The sets of a fence.
unfoldable pub fence_words : List (List ℕ × ℕ)
fence_words =
    (codes "iorw", 15)
    ∷ (codes "ior", 14)
    ∷ (codes "iow", 13)
    ∷ (codes "io", 12)
    ∷ (codes "irw", 11)
    ∷ (codes "ir", 10)
    ∷ (codes "iw", 9)
    ∷ (codes "i", 8)
    ∷ (codes "orw", 7)
    ∷ (codes "or", 6)
    ∷ (codes "ow", 5)
    ∷ (codes "o", 4)
    ∷ (codes "rw", 3)
    ∷ (codes "r", 2)
    ∷ (codes "w", 1)
    ∷ []

-- Rounding modes, element widths, register groups, policies and control registers.
unfoldable pub operand_words : List (List ℕ × ℕ)
operand_words =
    (codes "rne", 0)
    ∷ (codes "rtz", 1)
    ∷ (codes "rdn", 2)
    ∷ (codes "rup", 3)
    ∷ (codes "rmm", 4)
    ∷ (codes "dyn", 7)
    ∷ (codes "e8", 0)
    ∷ (codes "e16", 1)
    ∷ (codes "e32", 2)
    ∷ (codes "m1", 0)
    ∷ (codes "m2", 1)
    ∷ (codes "m4", 2)
    ∷ (codes "m8", 3)
    ∷ (codes "res4", 4)
    ∷ (codes "mf8", 5)
    ∷ (codes "mf4", 6)
    ∷ (codes "mf2", 7)
    ∷ (codes "ta", 1)
    ∷ (codes "tu", 0)
    ∷ (codes "ma", 1)
    ∷ (codes "mu", 0)
    ∷ (codes "fflags", 1)
    ∷ (codes "frm", 2)
    ∷ (codes "fcsr", 3)
    ∷ (codes "vstart", 8)
    ∷ (codes "vxsat", 9)
    ∷ (codes "vxrm", 10)
    ∷ (codes "vcsr", 15)
    ∷ (codes "vl", 0xc20)
    ∷ (codes "vtype", 0xc21)
    ∷ (codes "vlenb", 0xc22)
    ∷ (codes "cycle", 0xc00)
    ∷ (codes "time", 0xc01)
    ∷ (codes "instret", 0xc02)
    ∷ (codes "fcsr", 0x003)
    ∷ (codes "vstart", 0x008)
    ∷ (codes "satp", 0x180)
    ∷ (codes "mstatus", 0x300)
    ∷ (codes "mscratch", 0x340)
    ∷ (codes "mie", 0x304)
    ∷ (codes "mtvec", 0x305)
    ∷ (codes "mepc", 0x341)
    ∷ (codes "mcause", 0x342)
    ∷ (codes "mtval", 0x343)
    ∷ (codes "mip", 0x344)
    ∷ []

-- `kRegs`
unfoldable pub k_regs : List (List ℕ × ℕ)
k_regs = x_registers ++ (x_aliases ++ (f_registers ++ (f_aliases ++ (v_registers ++ csr_aliases))))
