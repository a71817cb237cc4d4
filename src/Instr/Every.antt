-- ===== src/Instr/Every.antt =====
-- Every instruction (instructions.h) leaves a sound machine sound.

use comparing_complexity_and.Base.{ℕ, ◌≡◌, ok}
use comparing_complexity_and.Insn.{Insn}
use comparing_complexity_and.Machine.{mips_r_hi, mips_r_lo}
use comparing_complexity_and.Host.{Env, Machine}
use comparing_complexity_and.Host.Sound.{IsSound, WhenOk-ok}
use comparing_complexity_and.Syscall.Kept.{Sound}
use comparing_complexity_and.Syscall.Sound.{syscall-IsSound}
use comparing_complexity_and.Instr.Alu.{
  shift_imm, shift_reg, move_from, move_to, mult_div, alu_reg, alu_imm, lui_insn, rdhwr_insn,
  sll_impl, srl_impl, sra_impl, mult_impl, multu_impl, div_impl, divu_impl, add_impl, addu_impl,
  sub_impl, subu_impl, slt_impl, sltu_impl, and_impl, or_impl, xor_impl, nor_impl, addi_impl,
  addiu_impl, slti_impl, sltiu_impl, andi_impl, ori_impl, xori_impl,
}
use comparing_complexity_and.Instr.Control.{
  is_ltz, is_gez, is_lez, is_gtz, is_eq, is_ne, branch_generic, branch_generic_link, branch_eq_ne,
  jr_insn, jalr_insn, j_insn, jal_insn,
}
use comparing_complexity_and.Instr.Transfer.{
  lb_impl, lh_impl, lw_impl, lbu_impl, lhu_impl, lwr_impl, lwl_impl, sb_impl, sh_impl, sw_impl,
  swl_impl, swr_impl,
}
use comparing_complexity_and.Instr.Exec.{exec}
use comparing_complexity_and.Instr.Sound.{
  sll_impl-lt, srl_impl-lt, sra_impl-lt, mult_impl-lt, multu_impl-lt, divu_impl-lt, div_impl-lt,
  add_impl-Fits, addu_impl-Fits, sub_impl-Fits, subu_impl-Fits, slt_impl-Fits, sltu_impl-Fits,
  and_impl-Fits, or_impl-Fits, xor_impl-Fits, nor_impl-Fits, addi_impl-Fits, addiu_impl-Fits,
  slti_impl-Fits, sltiu_impl-Fits, andi_impl-Fits, ori_impl-Fits, xori_impl-Fits,
  shift_imm-KeepsSound, shift_reg-KeepsSound, move_from-KeepsSound, move_to-KeepsSound,
  mult_div-KeepsSound, alu_reg-KeepsSound, alu_imm-KeepsSound, lui_insn-KeepsSound,
  rdhwr_insn-KeepsSound,
}
use comparing_complexity_and.Instr.Preserve.{
  branch_generic-KeepsSound, branch_generic_link-KeepsSound, branch_eq_ne-KeepsSound,
  jr_insn-KeepsSound, jalr_insn-KeepsSound, j_insn-KeepsSound, jal_insn-KeepsSound,
  lb_impl-ClosedLoad, lh_impl-ClosedLoad, lw_impl-ClosedLoad, lbu_impl-ClosedLoad,
  lhu_impl-ClosedLoad, lwr_impl-ClosedLoad, lwl_impl-ClosedLoad, u8_write, u16_write, u32_write,
  load_imm-IsSound, store_imm-IsSound, sc_insn-IsSound, on_mips-IsSound,
}

exec-Sound :
    (env : Env) (insn : Insn) (cir : ℕ) (s : Machine) → IsSound s → Sound (exec env insn cir s)
unfolding exec sb_impl sh_impl sw_impl swl_impl swr_impl
exec-Sound env Insn.blez cir s h =
    on_mips-IsSound cir s h (branch_generic is_lez cir) (branch_generic-KeepsSound cir is_lez)
exec-Sound env Insn.bgtz cir s h =
    on_mips-IsSound cir s h (branch_generic is_gtz cir) (branch_generic-KeepsSound cir is_gtz)
exec-Sound env Insn.j cir s h = on_mips-IsSound cir s h (j_insn cir) (j_insn-KeepsSound cir)
exec-Sound env Insn.jal cir s h = on_mips-IsSound cir s h (jal_insn cir) (jal_insn-KeepsSound cir)
exec-Sound env Insn.beq cir s h =
    on_mips-IsSound cir s h (branch_eq_ne is_eq cir) (branch_eq_ne-KeepsSound cir is_eq)
exec-Sound env Insn.bne cir s h =
    on_mips-IsSound cir s h (branch_eq_ne is_ne cir) (branch_eq_ne-KeepsSound cir is_ne)
exec-Sound env Insn.addi cir s h =
    on_mips-IsSound cir s h (alu_imm addi_impl cir)
      (alu_imm-KeepsSound cir addi_impl addi_impl-Fits)
exec-Sound env Insn.addiu cir s h =
    on_mips-IsSound cir s h (alu_imm addiu_impl cir)
      (alu_imm-KeepsSound cir addiu_impl addiu_impl-Fits)
exec-Sound env Insn.slti cir s h =
    on_mips-IsSound cir s h (alu_imm slti_impl cir)
      (alu_imm-KeepsSound cir slti_impl slti_impl-Fits)
exec-Sound env Insn.sltiu cir s h =
    on_mips-IsSound cir s h (alu_imm sltiu_impl cir)
      (alu_imm-KeepsSound cir sltiu_impl sltiu_impl-Fits)
exec-Sound env Insn.andi cir s h =
    on_mips-IsSound cir s h (alu_imm andi_impl cir)
      (alu_imm-KeepsSound cir andi_impl andi_impl-Fits)
exec-Sound env Insn.ori cir s h =
    on_mips-IsSound cir s h (alu_imm ori_impl cir) (alu_imm-KeepsSound cir ori_impl ori_impl-Fits)
exec-Sound env Insn.xori cir s h =
    on_mips-IsSound cir s h (alu_imm xori_impl cir)
      (alu_imm-KeepsSound cir xori_impl xori_impl-Fits)
exec-Sound env Insn.lui cir s h = on_mips-IsSound cir s h (lui_insn cir) (lui_insn-KeepsSound cir)
exec-Sound env Insn.lb cir s h = load_imm-IsSound cir s h lb_impl lb_impl-ClosedLoad
exec-Sound env Insn.lh cir s h = load_imm-IsSound cir s h lh_impl lh_impl-ClosedLoad
exec-Sound env Insn.lwl cir s h = load_imm-IsSound cir s h lwl_impl lwl_impl-ClosedLoad
exec-Sound env Insn.lw cir s h = load_imm-IsSound cir s h lw_impl lw_impl-ClosedLoad
exec-Sound env Insn.lbu cir s h = load_imm-IsSound cir s h lbu_impl lbu_impl-ClosedLoad
exec-Sound env Insn.lhu cir s h = load_imm-IsSound cir s h lhu_impl lhu_impl-ClosedLoad
exec-Sound env Insn.lwr cir s h = load_imm-IsSound cir s h lwr_impl lwr_impl-ClosedLoad
exec-Sound env Insn.ll cir s h = load_imm-IsSound cir s h lw_impl lw_impl-ClosedLoad
exec-Sound env Insn.sb cir s h = store_imm-IsSound cir s h sb_impl u8_write
exec-Sound env Insn.sh cir s h = store_imm-IsSound cir s h sh_impl u16_write
exec-Sound env Insn.swl cir s h = store_imm-IsSound cir s h swl_impl u32_write
exec-Sound env Insn.sw cir s h = store_imm-IsSound cir s h sw_impl u32_write
exec-Sound env Insn.sc cir s h = sc_insn-IsSound cir s h
exec-Sound env Insn.swr cir s h = store_imm-IsSound cir s h swr_impl u32_write
exec-Sound env Insn.rdhwr cir s h =
    on_mips-IsSound cir s h (rdhwr_insn cir) (rdhwr_insn-KeepsSound cir)
exec-Sound env Insn.brk cir s h = tt
exec-Sound env Insn.sll cir s h =
    on_mips-IsSound cir s h (shift_imm sll_impl cir) (shift_imm-KeepsSound cir sll_impl sll_impl-lt)
exec-Sound env Insn.srl cir s h =
    on_mips-IsSound cir s h (shift_imm srl_impl cir) (shift_imm-KeepsSound cir srl_impl srl_impl-lt)
exec-Sound env Insn.sra cir s h =
    on_mips-IsSound cir s h (shift_imm sra_impl cir) (shift_imm-KeepsSound cir sra_impl sra_impl-lt)
exec-Sound env Insn.sllv cir s h =
    on_mips-IsSound cir s h (shift_reg sll_impl cir) (shift_reg-KeepsSound cir sll_impl sll_impl-lt)
exec-Sound env Insn.srlv cir s h =
    on_mips-IsSound cir s h (shift_reg srl_impl cir) (shift_reg-KeepsSound cir srl_impl srl_impl-lt)
exec-Sound env Insn.srav cir s h =
    on_mips-IsSound cir s h (shift_reg sra_impl cir) (shift_reg-KeepsSound cir sra_impl sra_impl-lt)
exec-Sound env Insn.jr cir s h = on_mips-IsSound cir s h (jr_insn cir) (jr_insn-KeepsSound cir)
exec-Sound env Insn.jalr cir s h =
    on_mips-IsSound cir s h (jalr_insn cir) (jalr_insn-KeepsSound cir)
exec-Sound env Insn.syscall cir s h = syscall-IsSound env s h
exec-Sound env Insn.special cir s h = h
exec-Sound env Insn.mfhi cir s h =
    on_mips-IsSound cir s h (move_from mips_r_hi cir) (move_from-KeepsSound cir mips_r_hi)
exec-Sound env Insn.mflo cir s h =
    on_mips-IsSound cir s h (move_from mips_r_lo cir) (move_from-KeepsSound cir mips_r_lo)
exec-Sound env Insn.mthi cir s h =
    on_mips-IsSound cir s h (move_to mips_r_hi cir) (move_to-KeepsSound cir mips_r_hi)
exec-Sound env Insn.mtlo cir s h =
    on_mips-IsSound cir s h (move_to mips_r_lo cir) (move_to-KeepsSound cir mips_r_lo)
exec-Sound env Insn.mult cir s h =
    on_mips-IsSound cir s h (mult_div mult_impl cir)
      (mult_div-KeepsSound cir mult_impl mult_impl-lt)
exec-Sound env Insn.multu cir s h =
    on_mips-IsSound cir s h (mult_div multu_impl cir)
      (mult_div-KeepsSound cir multu_impl multu_impl-lt)
exec-Sound env Insn.div cir s h =
    on_mips-IsSound cir s h (mult_div div_impl cir) (mult_div-KeepsSound cir div_impl div_impl-lt)
exec-Sound env Insn.divu cir s h =
    on_mips-IsSound cir s h (mult_div divu_impl cir)
      (mult_div-KeepsSound cir divu_impl divu_impl-lt)
exec-Sound env Insn.add cir s h =
    on_mips-IsSound cir s h (alu_reg add_impl cir) (alu_reg-KeepsSound cir add_impl add_impl-Fits)
exec-Sound env Insn.addu cir s h =
    on_mips-IsSound cir s h (alu_reg addu_impl cir)
      (alu_reg-KeepsSound cir addu_impl addu_impl-Fits)
exec-Sound env Insn.sub cir s h =
    on_mips-IsSound cir s h (alu_reg sub_impl cir) (alu_reg-KeepsSound cir sub_impl sub_impl-Fits)
exec-Sound env Insn.subu cir s h =
    on_mips-IsSound cir s h (alu_reg subu_impl cir)
      (alu_reg-KeepsSound cir subu_impl subu_impl-Fits)
exec-Sound env Insn.slt cir s h =
    on_mips-IsSound cir s h (alu_reg slt_impl cir) (alu_reg-KeepsSound cir slt_impl slt_impl-Fits)
exec-Sound env Insn.sltu cir s h =
    on_mips-IsSound cir s h (alu_reg sltu_impl cir)
      (alu_reg-KeepsSound cir sltu_impl sltu_impl-Fits)
exec-Sound env Insn.and cir s h =
    on_mips-IsSound cir s h (alu_reg and_impl cir) (alu_reg-KeepsSound cir and_impl and_impl-Fits)
exec-Sound env Insn.or cir s h =
    on_mips-IsSound cir s h (alu_reg or_impl cir) (alu_reg-KeepsSound cir or_impl or_impl-Fits)
exec-Sound env Insn.xor cir s h =
    on_mips-IsSound cir s h (alu_reg xor_impl cir) (alu_reg-KeepsSound cir xor_impl xor_impl-Fits)
exec-Sound env Insn.nor cir s h =
    on_mips-IsSound cir s h (alu_reg nor_impl cir) (alu_reg-KeepsSound cir nor_impl nor_impl-Fits)
exec-Sound env Insn.bltz cir s h =
    on_mips-IsSound cir s h (branch_generic is_ltz cir) (branch_generic-KeepsSound cir is_ltz)
exec-Sound env Insn.bgez cir s h =
    on_mips-IsSound cir s h (branch_generic is_gez cir) (branch_generic-KeepsSound cir is_gez)
exec-Sound env Insn.bltzal cir s h =
    on_mips-IsSound cir s h (branch_generic_link is_ltz cir)
      (branch_generic_link-KeepsSound cir is_ltz)
exec-Sound env Insn.bgezal cir s h =
    on_mips-IsSound cir s h (branch_generic_link is_gez cir)
      (branch_generic_link-KeepsSound cir is_gez)

-- Every instruction leaves every sound machine sound, when it returns: registers and
-- `user_local_ptr` keep holding a `u32`, and the pages bytes.
pub exec-IsSound :
    (env : Env) (insn : Insn) (cir : ℕ) (s s' : Machine)
    → IsSound s
    → exec env insn cir s ≡ ok s'
    → IsSound s'
exec-IsSound env insn cir s s' h e = WhenOk-ok IsSound _ (exec-Sound env insn cir s h) e
