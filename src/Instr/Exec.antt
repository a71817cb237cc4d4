-- ===== src/Instr/Exec.antt =====
-- The type and the implementation that the X-macro tables (mips.h, lines 6-73) give each
-- instruction.
use comparing_complexity_and.Base.{ℕ, Result, ok, aborted}
use comparing_complexity_and.Insn.{Insn}
use comparing_complexity_and.Machine.{Mips, mips_r_hi, mips_r_lo}
use comparing_complexity_and.Host.{Env, Machine, set_mips}
use comparing_complexity_and.Syscall.Dispatch.{syscall}
use comparing_complexity_and.Instr.Alu.{
  shift_imm, shift_reg, sll_impl, srl_impl, sra_impl, move_from, move_to, mult_div, mult_impl,
  multu_impl, div_impl, divu_impl, alu_reg, add_impl, addu_impl, sub_impl, subu_impl, slt_impl,
  sltu_impl, and_impl, or_impl, xor_impl, nor_impl, alu_imm, addi_impl, addiu_impl, slti_impl,
  sltiu_impl, andi_impl, ori_impl, xori_impl, lui_insn, rdhwr_insn,
}
use comparing_complexity_and.Instr.Control.{
  branch_generic, branch_generic_link, is_ltz, is_gez, is_lez, is_gtz, branch_eq_ne, is_eq, is_ne,
  jr_insn, jalr_insn, j_insn, jal_insn,
}
use comparing_complexity_and.Instr.Transfer.{
  load_imm, lb_impl, lh_impl, lw_impl, lbu_impl, lhu_impl, lwr_impl, lwl_impl, store_imm, sb_impl,
  sh_impl, sw_impl, swl_impl, swr_impl, sc_insn,
}

-- An instruction that touches the processor only.
abbrev pub on_mips : (Mips → Mips) → Machine → Result Machine
on_mips f s = ok (set_mips (f s.mips) s)

-- The block that the X-macro expands to for each instruction, before the program counter moves on.
unfoldable pub exec : Env → Insn → ℕ → Machine → Result Machine
exec env Insn.blez cir s = on_mips (branch_generic is_lez cir) s
exec env Insn.bgtz cir s = on_mips (branch_generic is_gtz cir) s
exec env Insn.j cir s = on_mips (j_insn cir) s
exec env Insn.jal cir s = on_mips (jal_insn cir) s
exec env Insn.beq cir s = on_mips (branch_eq_ne is_eq cir) s
exec env Insn.bne cir s = on_mips (branch_eq_ne is_ne cir) s
exec env Insn.addi cir s = on_mips (alu_imm addi_impl cir) s
exec env Insn.addiu cir s = on_mips (alu_imm addiu_impl cir) s
exec env Insn.slti cir s = on_mips (alu_imm slti_impl cir) s
exec env Insn.sltiu cir s = on_mips (alu_imm sltiu_impl cir) s
exec env Insn.andi cir s = on_mips (alu_imm andi_impl cir) s
exec env Insn.ori cir s = on_mips (alu_imm ori_impl cir) s
exec env Insn.xori cir s = on_mips (alu_imm xori_impl cir) s
exec env Insn.lui cir s = on_mips (lui_insn cir) s
exec env Insn.lb cir s = load_imm lb_impl cir s
exec env Insn.lh cir s = load_imm lh_impl cir s
exec env Insn.lwl cir s = load_imm lwl_impl cir s
exec env Insn.lw cir s = load_imm lw_impl cir s
exec env Insn.lbu cir s = load_imm lbu_impl cir s
exec env Insn.lhu cir s = load_imm lhu_impl cir s
exec env Insn.lwr cir s = load_imm lwr_impl cir s
exec env Insn.ll cir s = load_imm lw_impl cir s
exec env Insn.sb cir s = store_imm sb_impl cir s
exec env Insn.sh cir s = store_imm sh_impl cir s
exec env Insn.swl cir s = store_imm swl_impl cir s
exec env Insn.sw cir s = store_imm sw_impl cir s
exec env Insn.sc cir s = sc_insn cir s
exec env Insn.swr cir s = store_imm swr_impl cir s
exec env Insn.rdhwr cir s = on_mips (rdhwr_insn cir) s
exec env Insn.brk cir s = aborted
exec env Insn.sll cir s = on_mips (shift_imm sll_impl cir) s
exec env Insn.srl cir s = on_mips (shift_imm srl_impl cir) s
exec env Insn.sra cir s = on_mips (shift_imm sra_impl cir) s
exec env Insn.sllv cir s = on_mips (shift_reg sll_impl cir) s
exec env Insn.srlv cir s = on_mips (shift_reg srl_impl cir) s
exec env Insn.srav cir s = on_mips (shift_reg sra_impl cir) s
exec env Insn.jr cir s = on_mips (jr_insn cir) s
exec env Insn.jalr cir s = on_mips (jalr_insn cir) s
exec env Insn.syscall cir s = syscall env s
exec env Insn.special cir s = ok s
exec env Insn.mfhi cir s = on_mips (move_from mips_r_hi cir) s
exec env Insn.mflo cir s = on_mips (move_from mips_r_lo cir) s
exec env Insn.mthi cir s = on_mips (move_to mips_r_hi cir) s
exec env Insn.mtlo cir s = on_mips (move_to mips_r_lo cir) s
exec env Insn.mult cir s = on_mips (mult_div mult_impl cir) s
exec env Insn.multu cir s = on_mips (mult_div multu_impl cir) s
exec env Insn.div cir s = on_mips (mult_div div_impl cir) s
exec env Insn.divu cir s = on_mips (mult_div divu_impl cir) s
exec env Insn.add cir s = on_mips (alu_reg add_impl cir) s
exec env Insn.addu cir s = on_mips (alu_reg addu_impl cir) s
exec env Insn.sub cir s = on_mips (alu_reg sub_impl cir) s
exec env Insn.subu cir s = on_mips (alu_reg subu_impl cir) s
exec env Insn.slt cir s = on_mips (alu_reg slt_impl cir) s
exec env Insn.sltu cir s = on_mips (alu_reg sltu_impl cir) s
exec env Insn.and cir s = on_mips (alu_reg and_impl cir) s
exec env Insn.or cir s = on_mips (alu_reg or_impl cir) s
exec env Insn.xor cir s = on_mips (alu_reg xor_impl cir) s
exec env Insn.nor cir s = on_mips (alu_reg nor_impl cir) s
exec env Insn.bltz cir s = on_mips (branch_generic is_ltz cir) s
exec env Insn.bgez cir s = on_mips (branch_generic is_gez cir) s
exec env Insn.bltzal cir s = on_mips (branch_generic_link is_ltz cir) s
exec env Insn.bgezal cir s = on_mips (branch_generic_link is_gez cir) s
