-- ===== src/Insn.antt =====
-- The instruction word: its fields (common.h, lines 44-61), the instructions (mips.h, lines 6-73)
-- and the three dispatch tables that the X-macros list. `Opcodes` has the opcodes.
use comparing_complexity_and.Base.{ℕ, ◌/◌, ◌%◌, ◌^◌, List, [], ◌∷◌}
pub mod Opcodes
pub use comparing_complexity_and.Insn.Opcodes.{
  blez_op, bgtz_op, j_op, jal_op, beq_op, bne_op, addi_op, addiu_op, slti_op, sltiu_op, andi_op,
  ori_op, xori_op, lui_op, lb_op, lh_op, lwl_op, lw_op, lbu_op, lhu_op, lwr_op, ll_op, sb_op, sh_op,
  swl_op, sw_op, sc_op, swr_op, rdhwr_op, brk_fn, sll_fn, srl_fn, sra_fn, sllv_fn, srlv_fn, srav_fn,
  jr_fn, jalr_fn, syscall_fn, special_fn, mfhi_fn, mflo_fn, mthi_fn, mtlo_fn, mult_fn, multu_fn,
  div_fn, divu_fn, add_fn, addu_fn, sub_fn, subu_fn, slt_fn, sltu_fn, and_fn, or_fn, xor_fn, nor_fn,
  bltz_rt, bgez_rt, bltzal_rt, bgezal_rt,
}

-- `(cir >> SHIFT) & MASK`; every mask is a row of ones.
abbrev pub op_field : ℕ → ℕ
op_field cir = cir / 2 ^ 26 % 2 ^ 6

abbrev pub rs_field : ℕ → ℕ
rs_field cir = cir / 2 ^ 21 % 2 ^ 5

abbrev pub rt_field : ℕ → ℕ
rt_field cir = cir / 2 ^ 16 % 2 ^ 5

abbrev pub rd_field : ℕ → ℕ
rd_field cir = cir / 2 ^ 11 % 2 ^ 5

abbrev pub sh_field : ℕ → ℕ
sh_field cir = cir / 2 ^ 6 % 2 ^ 5

abbrev pub fn_field : ℕ → ℕ
fn_field cir = cir % 2 ^ 6

abbrev pub imm16_field : ℕ → ℕ
imm16_field cir = cir % 2 ^ 16

abbrev pub imm26_field : ℕ → ℕ
imm26_field cir = cir % 2 ^ 26

-- One constructor for each row of the X-macro tables.
pub data Insn : Type 0 where
  blez bgtz j jal beq bne addi addiu slti sltiu andi ori xori lui lb lh lwl lw lbu lhu lwr ll sb :
      Insn
  sh swl sw sc swr rdhwr brk sll srl sra sllv srlv srav jr jalr syscall special mfhi mflo mthi :
      Insn
  mtlo mult multu div divu add addu sub subu slt sltu and or xor nor bltz bgez bltzal bgezal : Insn

-- `__INSTRUCTIONS_PRIMARY`: opcodes.
abbrev pub instructions_primary : List (ℕ × Insn)
instructions_primary =
    (blez_op, Insn.blez)
    ∷ (bgtz_op, Insn.bgtz)
    ∷ (j_op, Insn.j)
    ∷ (jal_op, Insn.jal)
    ∷ (beq_op, Insn.beq)
    ∷ (bne_op, Insn.bne)
    ∷ (addi_op, Insn.addi)
    ∷ (addiu_op, Insn.addiu)
    ∷ (slti_op, Insn.slti)
    ∷ (sltiu_op, Insn.sltiu)
    ∷ (andi_op, Insn.andi)
    ∷ (ori_op, Insn.ori)
    ∷ (xori_op, Insn.xori)
    ∷ (lui_op, Insn.lui)
    ∷ (lb_op, Insn.lb)
    ∷ (lh_op, Insn.lh)
    ∷ (lwl_op, Insn.lwl)
    ∷ (lw_op, Insn.lw)
    ∷ (lbu_op, Insn.lbu)
    ∷ (lhu_op, Insn.lhu)
    ∷ (lwr_op, Insn.lwr)
    ∷ (ll_op, Insn.ll)
    ∷ (sb_op, Insn.sb)
    ∷ (sh_op, Insn.sh)
    ∷ (swl_op, Insn.swl)
    ∷ (sw_op, Insn.sw)
    ∷ (sc_op, Insn.sc)
    ∷ (swr_op, Insn.swr)
    ∷ (rdhwr_op, Insn.rdhwr)
    ∷ []

-- `__INSTRUCTIONS_SECONDARY`: function codes under opcode 0.
abbrev pub instructions_secondary : List (ℕ × Insn)
instructions_secondary =
    (brk_fn, Insn.brk)
    ∷ (sll_fn, Insn.sll)
    ∷ (srl_fn, Insn.srl)
    ∷ (sra_fn, Insn.sra)
    ∷ (sllv_fn, Insn.sllv)
    ∷ (srlv_fn, Insn.srlv)
    ∷ (srav_fn, Insn.srav)
    ∷ (jr_fn, Insn.jr)
    ∷ (jalr_fn, Insn.jalr)
    ∷ (syscall_fn, Insn.syscall)
    ∷ (special_fn, Insn.special)
    ∷ (mfhi_fn, Insn.mfhi)
    ∷ (mflo_fn, Insn.mflo)
    ∷ (mthi_fn, Insn.mthi)
    ∷ (mtlo_fn, Insn.mtlo)
    ∷ (mult_fn, Insn.mult)
    ∷ (multu_fn, Insn.multu)
    ∷ (div_fn, Insn.div)
    ∷ (divu_fn, Insn.divu)
    ∷ (add_fn, Insn.add)
    ∷ (addu_fn, Insn.addu)
    ∷ (sub_fn, Insn.sub)
    ∷ (subu_fn, Insn.subu)
    ∷ (slt_fn, Insn.slt)
    ∷ (sltu_fn, Insn.sltu)
    ∷ (and_fn, Insn.and)
    ∷ (or_fn, Insn.or)
    ∷ (xor_fn, Insn.xor)
    ∷ (nor_fn, Insn.nor)
    ∷ []

-- `__INSTRUCTIONS_BRANCH`: `rt` codes under opcode 1.
abbrev pub instructions_branch : List (ℕ × Insn)
instructions_branch =
    (bltz_rt, Insn.bltz)
    ∷ (bgez_rt, Insn.bgez)
    ∷ (bltzal_rt, Insn.bltzal)
    ∷ (bgezal_rt, Insn.bgezal)
    ∷ []
