-- ===== src/Asm.antt =====
-- The assemblers of the unit tests (tests/test.h, lines 34-106): a word from its parts, each cut to
-- its mask, shifted and joined by `|` in the order of the source.
pub mod Fields
pub mod Calls
pub mod Labels
use comparing_complexity_and.Base.{ℕ, ◌*◌, ◌%◌, ◌^◌, bit_or}

-- `(u32) (X & X_MASK) << X_SHIFT`.
abbrev pub op_part : ℕ → ℕ
op_part op = op % 2 ^ 6 * 2 ^ 26

abbrev pub rs_part : ℕ → ℕ
rs_part rs = rs % 2 ^ 5 * 2 ^ 21

abbrev pub rt_part : ℕ → ℕ
rt_part rt = rt % 2 ^ 5 * 2 ^ 16

abbrev pub rd_part : ℕ → ℕ
rd_part rd = rd % 2 ^ 5 * 2 ^ 11

abbrev pub sh_part : ℕ → ℕ
sh_part sh = sh % 2 ^ 5 * 2 ^ 6

abbrev pub fn_part : ℕ → ℕ
fn_part fn = fn % 2 ^ 6

abbrev pub imm16_part : ℕ → ℕ
imm16_part imm16 = imm16 % 2 ^ 16

abbrev pub imm20_part : ℕ → ℕ
imm20_part imm20 = imm20 % 2 ^ 20

abbrev pub imm26_part : ℕ → ℕ
imm26_part imm26 = imm26 % 2 ^ 26

unfoldable pub assemble_alu_reg : ℕ → ℕ → ℕ → ℕ → ℕ
assemble_alu_reg fn rs rt rd =
    bit_or (bit_or (bit_or (fn_part fn) (rt_part rt)) (rd_part rd)) (rs_part rs)

unfoldable pub assemble_alu_imm : ℕ → ℕ → ℕ → ℕ → ℕ
assemble_alu_imm op rs rt imm16 =
    bit_or (bit_or (bit_or (op_part op) (rs_part rs)) (rt_part rt)) (imm16_part imm16)

unfoldable pub assemble_branch_eq_ne : ℕ → ℕ → ℕ → ℕ → ℕ
assemble_branch_eq_ne op rs rt imm16 =
    bit_or (bit_or (bit_or (op_part op) (rs_part rs)) (rt_part rt)) (imm16_part imm16)

unfoldable pub assemble_branch_generic : ℕ → ℕ → ℕ → ℕ
assemble_branch_generic rt rs imm16 =
    bit_or (bit_or (bit_or (op_part 1) (rs_part rs)) (rt_part rt)) (imm16_part imm16)

unfoldable pub assemble_branch_blez_bgtz : ℕ → ℕ → ℕ → ℕ
assemble_branch_blez_bgtz op rs imm16 = bit_or (bit_or (op_part op) (rs_part rs)) (imm16_part imm16)

unfoldable pub assemble_j_jal : ℕ → ℕ → ℕ
assemble_j_jal op imm26 = bit_or (op_part op) (imm26_part imm26)

unfoldable pub assemble_jalr : ℕ → ℕ → ℕ → ℕ
assemble_jalr fn rs rd = bit_or (bit_or (fn_part fn) (rd_part rd)) (rs_part rs)

unfoldable pub assemble_jr : ℕ → ℕ → ℕ
assemble_jr fn rs = bit_or (fn_part fn) (rs_part rs)

unfoldable pub assemble_load_imm : ℕ → ℕ → ℕ → ℕ → ℕ
assemble_load_imm op rs rt imm16 =
    bit_or (bit_or (bit_or (op_part op) (rs_part rs)) (rt_part rt)) (imm16_part imm16)

unfoldable pub assemble_lui_imm : ℕ → ℕ → ℕ → ℕ
assemble_lui_imm op rt imm16 = bit_or (bit_or (op_part op) (rt_part rt)) (imm16_part imm16)

unfoldable pub assemble_mf : ℕ → ℕ → ℕ
assemble_mf fn rd = bit_or (fn_part fn) (rd_part rd)

unfoldable pub assemble_mt : ℕ → ℕ → ℕ
assemble_mt fn rs = bit_or (fn_part fn) (rs_part rs)

-- The code of the instruction goes to the opcode's place.
unfoldable pub assemble_mult_div : ℕ → ℕ → ℕ → ℕ
assemble_mult_div op rs rt = bit_or (bit_or (op_part op) (rt_part rt)) (rs_part rs)

unfoldable pub assemble_shift_imm : ℕ → ℕ → ℕ → ℕ → ℕ
assemble_shift_imm fn rd rt sh =
    bit_or (bit_or (bit_or (fn_part fn) (rt_part rt)) (rd_part rd)) (sh_part sh)

unfoldable pub assemble_shift_reg : ℕ → ℕ → ℕ → ℕ → ℕ
assemble_shift_reg fn rd rt rs =
    bit_or (bit_or (bit_or (fn_part fn) (rt_part rt)) (rd_part rd)) (rs_part rs)

unfoldable pub assemble_store_imm : ℕ → ℕ → ℕ → ℕ → ℕ
assemble_store_imm op rt rs imm16 =
    bit_or (bit_or (bit_or (op_part op) (rs_part rs)) (rt_part rt)) (imm16_part imm16)

-- `IMM20_SHIFT` is 0, so the parts overlap.
unfoldable pub assemble_syscall : ℕ → ℕ → ℕ
assemble_syscall fn imm20 = bit_or (fn_part fn) (imm20_part imm20)

abbrev pub assemble_nop : ℕ
assemble_nop = 0x00000000

abbrev pub assemble_halt : ℕ
assemble_halt = 0x0000000D
