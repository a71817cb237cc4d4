-- ===== src/Machine.antt =====
-- The processor state (mips.h, lines 75-141): the register file with the special registers behind
-- the general ones, and the bookkeeping of a run. The load delay (`LOAD_DELAY_ENABLE`) is
-- commented out in common.h and `__LOAD_DELAY__` is defined nowhere, so both are left out.
use comparing_complexity_and.Base.{ℕ, ◌+◌, ◌^◌, ◌<◌, Bool, update}
use comparing_complexity_and.Word.{u32}

abbrev pub mips_r_zero : ℕ
mips_r_zero = 0

abbrev pub mips_r_v0 : ℕ
mips_r_v0 = 2

abbrev pub mips_r_a0 : ℕ
mips_r_a0 = 4

abbrev pub mips_r_a1 : ℕ
mips_r_a1 = 5

abbrev pub mips_r_a2 : ℕ
mips_r_a2 = 6

abbrev pub mips_r_a3 : ℕ
mips_r_a3 = 7

abbrev pub mips_r_gp : ℕ
mips_r_gp = 28

abbrev pub mips_r_sp : ℕ
mips_r_sp = 29

abbrev pub mips_r_ra : ℕ
mips_r_ra = 31

abbrev pub mips_r_hi : ℕ
mips_r_hi = 32

abbrev pub mips_r_lo : ℕ
mips_r_lo = 33

abbrev pub mips_r_pc : ℕ
mips_r_pc = 34

abbrev pub mips_r_npc : ℕ
mips_r_npc = 35

abbrev pub mips_r_nnpc : ℕ
mips_r_nnpc = 36

abbrev pub mips_r_reg_max : ℕ
mips_r_reg_max = 39

-- `struct mips`.
pub record Mips : Type 0 where
  pub r : ℕ → ℕ
  pub status : ℕ
  pub tidptr : ℕ
  pub user_local_ptr : ℕ
  pub branched : Bool
  pub halted : Bool

-- `mips->r[k] = v`.
abbrev pub set_r : ℕ → ℕ → Mips → Mips
set_r k v mips = record mips { r = update mips.r k v }

abbrev pub set_branched : Bool → Mips → Mips
set_branched b mips = record mips { branched = b }

-- `INCREMENT_PC`.
unfoldable pub increment_pc : Mips → Mips
increment_pc mips =
    let m₁ = set_r mips_r_pc (mips.r mips_r_npc) mips in
    let m₂ = set_r mips_r_npc (m₁.r mips_r_nnpc) m₁ in
    set_r mips_r_nnpc (u32 (m₂.r mips_r_nnpc + 4)) m₂

-- Every register holds a `u32`.
abbrev pub IsRegs : (ℕ → ℕ) → Type 0
IsRegs r = (k : ℕ) → r k < 2 ^ 32
