-- ===== src/Instr/Alu.antt =====
-- Shifts, arithmetic and logic, and moves from and to `%hi` and `%lo` (instructions.h, lines
-- 150-261, 283-290, 328-398 and 432-451).
use comparing_complexity_and.Base.{
  ℕ, ◌+◌, ◌-◌, ◌*◌, ◌/◌, ◌%◌, ◌^◌, ltb, ◌==◌, ◌&&◌, if◌then◌else◌, Bool, Option, none, some,
  bit_and, bit_or, bit_xor,
}
use comparing_complexity_and.Word.{u32, s32, s16, u32_of, u64_of, not32}
use comparing_complexity_and.Word.Int.{ℤ, pos, negsuc, ◌+ℤ◌, ◌-ℤ◌, ◌*ℤ◌, ltb_ℤ, shift_right}
use comparing_complexity_and.Insn.{rs_field, rt_field, rd_field, sh_field, imm16_field}
use comparing_complexity_and.Machine.{Mips, set_r, mips_r_hi, mips_r_lo}

abbrev pub u32max : ℕ
u32max = 0xffffffff

abbrev pub s32min : ℤ
s32min = negsuc 0x7fffffff

-- A C comparison as a number.
abbrev pub int_of : Bool → ℕ
int_of b = if b then 1 else 0

-- `mips->r[k] = v`, or nothing where the source has only the comment `TRAP`.
abbrev pub write_r : ℕ → Option ℕ → Mips → Mips
write_r k none mips = mips
write_r k (some v) mips = set_r k v mips

-- `ITP_TYPE_SHIFT_IMM` and `ITP_TYPE_SHIFT_REG`.
unfoldable pub shift_imm : (ℕ → ℕ → ℕ) → ℕ → Mips → Mips
shift_imm impl cir mips = set_r (rd_field cir) (impl (mips.r (rt_field cir)) (sh_field cir)) mips

unfoldable pub shift_reg : (ℕ → ℕ → ℕ) → ℕ → Mips → Mips
shift_reg impl cir mips =
    set_r (rd_field cir) (impl (mips.r (rt_field cir)) (mips.r (rs_field cir) % 2 ^ 5)) mips

unfoldable pub sll_impl : ℕ → ℕ → ℕ
sll_impl value_rt sh = u32 (value_rt * 2 ^ sh)

unfoldable pub srl_impl : ℕ → ℕ → ℕ
srl_impl value_rt sh = value_rt / 2 ^ sh

unfoldable pub sra_impl : ℕ → ℕ → ℕ
sra_impl value_rt sh = u32_of (shift_right (s32 value_rt) sh)

-- `ITP_TYPE_MF` and `ITP_TYPE_MT`, with the register that the implementation moves.
unfoldable pub move_from : ℕ → ℕ → Mips → Mips
move_from k cir mips = set_r (rd_field cir) (mips.r k) mips

unfoldable pub move_to : ℕ → ℕ → Mips → Mips
move_to k cir mips = set_r k (mips.r (rs_field cir)) mips

-- `ITP_TYPE_MULT_DIV`; the implementations give `%lo` and `%hi`.
unfoldable pub mult_div : (ℕ → ℕ → record { lo : ℕ; hi : ℕ }) → ℕ → Mips → Mips
mult_div impl cir mips =
    let result = impl (mips.r (rs_field cir)) (mips.r (rt_field cir)) in
    set_r mips_r_hi result.hi (set_r mips_r_lo result.lo mips)

unfoldable pub mult_impl : ℕ → ℕ → record { lo : ℕ; hi : ℕ }
mult_impl value_rs value_rt =
    let r = u64_of (s32 value_rs *ℤ s32 value_rt) in record { lo = u32 r; hi = u32 (r / 2 ^ 32) }

unfoldable pub multu_impl : ℕ → ℕ → record { lo : ℕ; hi : ℕ }
multu_impl value_rs value_rt =
    let r = value_rs * value_rt % 2 ^ 64 in record { lo = u32 r; hi = u32 (r / 2 ^ 32) }

-- The division of the last branch is unsigned, as both operands are `u32`.
unfoldable pub div_impl : ℕ → ℕ → record { lo : ℕ; hi : ℕ }
div_impl value_rs value_rt =
    if value_rt == 0
    then record { lo = if ltb_ℤ (pos 0) (s32 value_rs) then u32max else 1; hi = value_rs }
    else if (value_rt == 0xffffffff) && (value_rs == 0x80000000)
    then record { lo = 0x80000000; hi = 0 }
    else record { lo = value_rs / value_rt; hi = value_rs % value_rt }

unfoldable pub divu_impl : ℕ → ℕ → record { lo : ℕ; hi : ℕ }
divu_impl value_rs value_rt =
    if value_rt == 0
    then record { lo = u32max; hi = value_rs }
    else record { lo = value_rs / value_rt; hi = value_rs % value_rt }

-- `ITP_TYPE_ALU_REG`.
unfoldable pub alu_reg : (ℕ → ℕ → Option ℕ) → ℕ → Mips → Mips
alu_reg impl cir mips =
    write_r (rd_field cir) (impl (mips.r (rs_field cir)) (mips.r (rt_field cir))) mips

unfoldable pub add_impl : ℕ → ℕ → Option ℕ
add_impl value_rs value_rt =
    let r = value_rs + value_rt in if ltb u32max r then none else some (u32 r)

unfoldable pub addu_impl : ℕ → ℕ → Option ℕ
addu_impl value_rs value_rt = some (u32 (value_rs + value_rt))

unfoldable pub sub_impl : ℕ → ℕ → Option ℕ
sub_impl value_rs value_rt =
    let r = pos value_rs -ℤ pos value_rt in if ltb_ℤ r s32min then none else some (u32_of r)

unfoldable pub subu_impl : ℕ → ℕ → Option ℕ
subu_impl value_rs value_rt = some (u32 (value_rs + 2 ^ 32 - value_rt))

unfoldable pub slt_impl : ℕ → ℕ → Option ℕ
slt_impl value_rs value_rt = some (int_of (ltb_ℤ (s32 value_rs) (s32 value_rt)))

unfoldable pub sltu_impl : ℕ → ℕ → Option ℕ
sltu_impl value_rs value_rt = some (int_of (ltb value_rs value_rt))

unfoldable pub and_impl : ℕ → ℕ → Option ℕ
and_impl value_rs value_rt = some (bit_and value_rs value_rt)

unfoldable pub or_impl : ℕ → ℕ → Option ℕ
or_impl value_rs value_rt = some (bit_or value_rs value_rt)

unfoldable pub xor_impl : ℕ → ℕ → Option ℕ
xor_impl value_rs value_rt = some (bit_xor value_rs value_rt)

unfoldable pub nor_impl : ℕ → ℕ → Option ℕ
nor_impl value_rs value_rt = some (not32 (bit_or value_rs value_rt))

-- `ITP_TYPE_ALU_IMM`.
unfoldable pub alu_imm : (ℕ → ℕ → Option ℕ) → ℕ → Mips → Mips
alu_imm impl cir mips = write_r (rt_field cir) (impl (mips.r (rs_field cir)) (imm16_field cir)) mips

unfoldable pub addi_impl : ℕ → ℕ → Option ℕ
addi_impl value_rs imm16 =
    let r = pos value_rs +ℤ s16 imm16 in if ltb_ℤ (pos u32max) r then none else some (u32_of r)

unfoldable pub addiu_impl : ℕ → ℕ → Option ℕ
addiu_impl value_rs imm16 = some (u32 (value_rs + u32_of (s16 imm16)))

unfoldable pub slti_impl : ℕ → ℕ → Option ℕ
slti_impl value_rs imm16 = some (int_of (ltb_ℤ (s32 value_rs) (s16 imm16)))

unfoldable pub sltiu_impl : ℕ → ℕ → Option ℕ
sltiu_impl value_rs imm16 = some (int_of (ltb value_rs (u32_of (s16 imm16))))

unfoldable pub andi_impl : ℕ → ℕ → Option ℕ
andi_impl value_rs imm16 = some (bit_and value_rs imm16)

unfoldable pub ori_impl : ℕ → ℕ → Option ℕ
ori_impl value_rs imm16 = some (bit_or value_rs imm16)

unfoldable pub xori_impl : ℕ → ℕ → Option ℕ
xori_impl value_rs imm16 = some (bit_xor value_rs imm16)

-- `ITP_TYPE_LUI_IMM` and `ITP_LUI_IMPL`.
unfoldable pub lui_insn : ℕ → Mips → Mips
lui_insn cir mips = set_r (rt_field cir) (u32 (imm16_field cir * 2 ^ 16)) mips

-- `ITP_TYPE_RDHWR` and `ITP_RDHWR_IMPL`.
unfoldable pub rdhwr_insn : ℕ → Mips → Mips
rdhwr_insn cir mips =
    let rd = rd_field cir in
    let value = if rd == 3 then 1 else if rd == 29 then mips.user_local_ptr else 0 in
    set_r (rt_field cir) value mips
