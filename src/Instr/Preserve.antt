-- ===== src/Instr/Preserve.antt =====
-- Branches and jumps, loads and stores (instructions.h) leave a sound machine sound.
use native.Mathlib.Nat.{div-le_self}
use comparing_complexity_and.Base.{
  ℕ, ◌^◌, ◌<◌, Bool, true, false, Result, WhenOk, WhenOk-bind, arith,
}
use comparing_complexity_and.Word.{s16, s8}
use comparing_complexity_and.Word.Bits.{bit_and-lt, bit_or-lt}
use comparing_complexity_and.Insn.{rs_field, rt_field, rd_field, imm16_field}
use comparing_complexity_and.Machine.{
  Mips, set_branched, increment_pc, mips_r_pc, mips_r_npc, mips_r_nnpc, mips_r_ra,
}
use comparing_complexity_and.Memory.{
  Memory, memory_read_u8, memory_read_u16, memory_read_u32, memory_write_u8, memory_write_u16,
  memory_write_u32,
}
use comparing_complexity_and.Memory.Bytes.{
  IsBytes, memory_read_u8-lt, memory_read_u16-lt, memory_read_u32-lt, memory_write_u8-IsBytes,
  memory_write_u16-IsBytes, memory_write_u32-IsBytes,
}
use comparing_complexity_and.Host.{Machine}
use comparing_complexity_and.Host.Sound.{
  IsSound, IsSoundMips, set_r-IsSoundMips, set_mips-IsSound, set_memory-IsSound, WhenOk-each,
}
use comparing_complexity_and.Syscall.Kept.{Sound}
use comparing_complexity_and.Instr.Control.{
  branch_if, link, branch_generic, branch_generic_link, branch_eq_ne, jr_insn, jalr_insn,
  jump_target, j_insn, jal_insn,
}
use comparing_complexity_and.Instr.Transfer.{
  load_imm, lb_impl, lh_impl, lw_impl, lbu_impl, lhu_impl, lwr_impl, lwl_impl, store_imm, sc_insn,
  aligned, shift_of,
}
use comparing_complexity_and.Instr.Exec.{on_mips}
use comparing_complexity_and.Instr.Sound.{KeepsSound, u32_of-lt}

set_branched-IsSoundMips : (b : Bool) (m : Mips) → IsSoundMips m → IsSoundMips (set_branched b m)
set_branched-IsSoundMips b m h = record { regs = h.regs; local = h.local }

pub link-KeepsSound : (k : ℕ) → KeepsSound (link k)
link-KeepsSound k m h = set_r-IsSoundMips k _ m (omega arith) h

pub branch_if-KeepsSound : (taken : Bool) (imm16 : ℕ) → KeepsSound (branch_if taken imm16)
unfolding branch_if
branch_if-KeepsSound true imm16 m h =
    set_r-IsSoundMips _ _ _ (omega arith) (set_branched-IsSoundMips true m h)
branch_if-KeepsSound false imm16 m h =
    set_r-IsSoundMips _ _ _ (omega arith) (set_branched-IsSoundMips false m h)

jump_target-lt : (pc imm26 : ℕ) → pc < 2 ^ 32 → imm26 < 2 ^ 26 → jump_target pc imm26 < 2 ^ 32
jump_target-lt pc imm26 h k = bit_or-lt _ _ (bit_and-lt pc 0xf0000000 h (omega arith)) (omega arith)

module _ (cir : ℕ) where
  pub branch_generic-KeepsSound : (test : ℕ → Bool) → KeepsSound (branch_generic test cir)
  unfolding branch_generic
  branch_generic-KeepsSound test m h = branch_if-KeepsSound _ (imm16_field cir) m h

  pub branch_generic_link-KeepsSound : (test : ℕ → Bool) → KeepsSound (branch_generic_link test cir)
  unfolding branch_generic_link
  branch_generic_link-KeepsSound test m h =
      branch_if-KeepsSound _ (imm16_field cir) _ (link-KeepsSound mips_r_ra m h)

  pub branch_eq_ne-KeepsSound : (test : ℕ → ℕ → Bool) → KeepsSound (branch_eq_ne test cir)
  unfolding branch_eq_ne
  branch_eq_ne-KeepsSound test m h = branch_if-KeepsSound _ (imm16_field cir) m h

  pub jr_insn-KeepsSound : KeepsSound (jr_insn cir)
  unfolding jr_insn
  jr_insn-KeepsSound m h =
      set_r-IsSoundMips _ _ _ (h.regs (rs_field cir)) (set_branched-IsSoundMips true m h)

  pub jalr_insn-KeepsSound : KeepsSound (jalr_insn cir)
  unfolding jalr_insn
  jalr_insn-KeepsSound m h =
      set_r-IsSoundMips _ _ _ (h.regs (rs_field cir))
        (link-KeepsSound (rd_field cir) _ (set_branched-IsSoundMips true m h))

  pub j_insn-KeepsSound : KeepsSound (j_insn cir)
  unfolding j_insn
  j_insn-KeepsSound m h =
      set_r-IsSoundMips _ _ _ (jump_target-lt _ _ (h.regs mips_r_pc) (omega arith))
        (set_branched-IsSoundMips true m h)

  pub jal_insn-KeepsSound : KeepsSound (jal_insn cir)
  unfolding jal_insn
  jal_insn-KeepsSound m h =
      set_r-IsSoundMips _ _ _ (jump_target-lt _ _ (h.regs mips_r_pc) (omega arith))
        (link-KeepsSound mips_r_ra _ (set_branched-IsSoundMips true m h))

-- What a load finds fits, when the old value does.
abbrev pub ClosedLoad : (Memory → ℕ → ℕ → Result ℕ) → Type 0
ClosedLoad impl =
    (m : Memory) (address old : ℕ)
    → IsBytes m
    → old < 2 ^ 32
    → WhenOk (λ v. v < 2 ^ 32) (impl m address old)

abbrev pub ClosedStore : (Memory → ℕ → ℕ → Result Memory) → Type 0
ClosedStore impl =
    (m : Memory) (address value : ℕ) → IsBytes m → WhenOk IsBytes (impl m address value)

abbrev Below : ℕ → ℕ → Type 0
Below bound v = v < bound

u8_read : (m : Memory) (a : ℕ) → IsBytes m → WhenOk (Below (2 ^ 8)) (memory_read_u8 m a)
u8_read m a h = WhenOk-each (Below (2 ^ 8)) _ λ v. memory_read_u8-lt m a v h

u16_read : (m : Memory) (a : ℕ) → IsBytes m → WhenOk (Below (2 ^ 16)) (memory_read_u16 m a)
u16_read m a h = WhenOk-each (Below (2 ^ 16)) _ λ v. memory_read_u16-lt m a v h

u32_read : (m : Memory) (a : ℕ) → IsBytes m → WhenOk (Below (2 ^ 32)) (memory_read_u32 m a)
u32_read m a h = WhenOk-each (Below (2 ^ 32)) _ λ v. memory_read_u32-lt m a v h

pub lb_impl-ClosedLoad : ClosedLoad lb_impl
unfolding lb_impl
lb_impl-ClosedLoad m a old h k =
    WhenOk-bind (Below (2 ^ 8)) (Below (2 ^ 32)) _ _ (u8_read m a h) λ v fits. u32_of-lt (s8 v)

pub lh_impl-ClosedLoad : ClosedLoad lh_impl
unfolding lh_impl
lh_impl-ClosedLoad m a old h k =
    WhenOk-bind (Below (2 ^ 16)) (Below (2 ^ 32)) _ _ (u16_read m a h) λ v fits. u32_of-lt (s16 v)

pub lw_impl-ClosedLoad : ClosedLoad lw_impl
unfolding lw_impl
lw_impl-ClosedLoad m a old h k = u32_read m a h

pub lbu_impl-ClosedLoad : ClosedLoad lbu_impl
unfolding lbu_impl
lbu_impl-ClosedLoad m a old h k =
    WhenOk-bind (Below (2 ^ 8)) (Below (2 ^ 32)) _ _ (u8_read m a h) λ v fits. omega arith

pub lhu_impl-ClosedLoad : ClosedLoad lhu_impl
unfolding lhu_impl
lhu_impl-ClosedLoad m a old h k =
    WhenOk-each (Below (2 ^ 32)) _ λ v e. let fits = memory_read_u16-lt m a v h e in omega arith

pub lwr_impl-ClosedLoad : ClosedLoad lwr_impl
unfolding lwr_impl
lwr_impl-ClosedLoad m a old h k =
    let shift = shift_of a in
    WhenOk-bind (Below (2 ^ 32)) (Below (2 ^ 32)) _ _ (u32_read m (aligned a) h) λ v fits.
      bit_or-lt _ _ (bit_and-lt old _ k (omega arith)) (omega (arith, div-le_self v (2 ^ shift)))

pub lwl_impl-ClosedLoad : ClosedLoad lwl_impl
unfolding lwl_impl
lwl_impl-ClosedLoad m a old h k =
    WhenOk-bind (Below (2 ^ 32)) (Below (2 ^ 32)) _ _ (u32_read m (aligned a) h)
      λ v fits. bit_or-lt _ _ (bit_and-lt old _ k (omega arith)) (omega arith)

pub u8_write : ClosedStore memory_write_u8
u8_write m a v h = WhenOk-each IsBytes _ λ m'. memory_write_u8-IsBytes m m' a v h

pub u16_write : ClosedStore memory_write_u16
u16_write m a v h = WhenOk-each IsBytes _ λ m'. memory_write_u16-IsBytes m m' a v h

pub u32_write : ClosedStore memory_write_u32
u32_write m a v h = WhenOk-each IsBytes _ λ m'. memory_write_u32-IsBytes m m' a v h

module _ (cir : ℕ) (s : Machine) (h : IsSound s) where
  pub load_imm-IsSound :
      (impl : Memory → ℕ → ℕ → Result ℕ) → ClosedLoad impl → Sound (load_imm impl cir s)
  unfolding load_imm
  load_imm-IsSound impl closed =
      WhenOk-bind (Below (2 ^ 32)) IsSound _ _
        (closed s.memory _ _ h.bytes (h.mips.regs (rt_field cir)))
        λ v fits. set_mips-IsSound _ s (set_r-IsSoundMips (rt_field cir) v s.mips fits h.mips) h

  pub store_imm-IsSound :
      (impl : Memory → ℕ → ℕ → Result Memory) → ClosedStore impl → Sound (store_imm impl cir s)
  unfolding store_imm
  store_imm-IsSound impl closed =
      WhenOk-bind IsBytes IsSound _ _ (closed s.memory _ _ h.bytes)
        λ m bytes. set_memory-IsSound m s bytes h

  pub sc_insn-IsSound : Sound (sc_insn cir s)
  unfolding sc_insn
  sc_insn-IsSound =
      WhenOk-bind IsSound IsSound _ _ (store_imm-IsSound memory_write_u32 u32_write) λ s' h'.
        set_mips-IsSound _ s' (set_r-IsSoundMips (rt_field cir) 1 s'.mips (omega arith) h'.mips) h'

  pub on_mips-IsSound : (f : Mips → Mips) → KeepsSound f → Sound (on_mips f s)
  on_mips-IsSound f keeps = set_mips-IsSound (f s.mips) s (keeps s.mips h.mips) h

pub increment_pc-KeepsSound : KeepsSound increment_pc
unfolding increment_pc
increment_pc-KeepsSound m h =
    set_r-IsSoundMips _ _ _ (omega arith)
      (set_r-IsSoundMips _ _ _ (h.regs mips_r_nnpc) (set_r-IsSoundMips _ _ m (h.regs mips_r_npc) h))
