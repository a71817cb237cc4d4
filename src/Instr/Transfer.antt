-- ===== src/Instr/Transfer.antt =====
-- Loads and stores (instructions.h, lines 255-275, 453-549 and 573-580), in the variant without a
-- load delay.
use comparing_complexity_and.Base.{
  ℕ, ◌+◌, ◌-◌, ◌*◌, ◌/◌, ◌%◌, ◌^◌, bit_and, bit_or, Result, ok, ◌>>=◌,
}
use comparing_complexity_and.Word.{u32, s16, s8, u32_of, not32}
use comparing_complexity_and.Insn.{rs_field, rt_field, imm16_field}
use comparing_complexity_and.Machine.{set_r}
use comparing_complexity_and.Memory.{
  Memory, memory_read_u8, memory_read_u16, memory_read_u32, memory_write_u8, memory_write_u16,
  memory_write_u32,
}
use comparing_complexity_and.Host.{Machine, set_mips, set_memory}

-- `LOAD_COMPUTE_ADDRESS` and `STORE_COMPUTE_ADDRESS`.
abbrev pub compute_address : ℕ → ℕ → ℕ
compute_address imm16 value_rs = u32 (u32_of (s16 imm16) + value_rs)

-- `ITP_TYPE_LOAD_IMM`; the implementation is given the memory, the address and the old value of
-- `rt`, and gives the new one.
unfoldable pub load_imm : (Memory → ℕ → ℕ → Result ℕ) → ℕ → Machine → Result Machine
load_imm impl cir s = do
  value ←
      impl s.memory (compute_address (imm16_field cir) (s.mips.r (rs_field cir)))
        (s.mips.r (rt_field cir))
  ok (set_mips (set_r (rt_field cir) value s.mips) s)

unfoldable pub lb_impl : Memory → ℕ → ℕ → Result ℕ
lb_impl memory address old = do read ← memory_read_u8 memory address; ok (u32_of (s8 read))

unfoldable pub lh_impl : Memory → ℕ → ℕ → Result ℕ
lh_impl memory address old = do read ← memory_read_u16 memory address; ok (u32_of (s16 read))

unfoldable pub lw_impl : Memory → ℕ → ℕ → Result ℕ
lw_impl memory address old = memory_read_u32 memory address

unfoldable pub lbu_impl : Memory → ℕ → ℕ → Result ℕ
lbu_impl memory address old = do read ← memory_read_u8 memory address; ok (read % 2 ^ 8)

unfoldable pub lhu_impl : Memory → ℕ → ℕ → Result ℕ
lhu_impl memory address old = memory_read_u16 memory address

-- `(address & 3) << 3` and `address & ~3`.
abbrev pub shift_of : ℕ → ℕ
shift_of address = address % 2 ^ 2 * 2 ^ 3

abbrev pub aligned : ℕ → ℕ
aligned address = address / 2 ^ 2 * 2 ^ 2

unfoldable pub lwr_impl : Memory → ℕ → ℕ → Result ℕ
lwr_impl memory address old = do
  read ← memory_read_u32 memory (aligned address)
  let shift = shift_of address
  let mask = 0xffffffff / 2 ^ shift
  ok (bit_or (bit_and old (not32 mask)) (read / 2 ^ shift))

unfoldable pub lwl_impl : Memory → ℕ → ℕ → Result ℕ
lwl_impl memory address old = do
  read ← memory_read_u32 memory (aligned address)
  let shift = shift_of address
  let mask = u32 (0xffffffff * 2 ^ (24 - shift))
  ok (bit_or (bit_and old (not32 mask)) (u32 (read * 2 ^ (24 - shift))))

-- `ITP_TYPE_STORE_IMM`; the implementation is given the memory, the address and `rt`'s value.
unfoldable pub store_imm : (Memory → ℕ → ℕ → Result Memory) → ℕ → Machine → Result Machine
store_imm impl cir s = do
  memory ←
      impl s.memory (compute_address (imm16_field cir) (s.mips.r (rs_field cir)))
        (s.mips.r (rt_field cir))
  ok (set_memory memory s)

unfoldable pub sb_impl : Memory → ℕ → ℕ → Result Memory
sb_impl = memory_write_u8

unfoldable pub sh_impl : Memory → ℕ → ℕ → Result Memory
sh_impl = memory_write_u16

unfoldable pub sw_impl : Memory → ℕ → ℕ → Result Memory
sw_impl = memory_write_u32

-- Both write the whole word at the address as it is.
unfoldable pub swl_impl : Memory → ℕ → ℕ → Result Memory
swl_impl = memory_write_u32

unfoldable pub swr_impl : Memory → ℕ → ℕ → Result Memory
swr_impl = memory_write_u32

-- `ITP_SC_IMPL`: the store, and 1 in `rt`.
unfoldable pub sc_insn : ℕ → Machine → Result Machine
sc_insn cir s = do
  s' ← store_imm memory_write_u32 cir s
  ok (set_mips (set_r (rt_field cir) 1 s'.mips) s')
