-- ===== src/Blocked/Plain.antt =====
-- The instructions that `decode_block` (blocked.c) takes for ordinary ones come to the same whatever
-- the program counters hold.
use comparing_complexity_and.Base.{ℕ, ◌≡◌, refl, arith}
use comparing_complexity_and.Insn.{Insn}
use comparing_complexity_and.Machine.{mips_r_hi, mips_r_lo}
use comparing_complexity_and.Host.{Env, Machine}
use comparing_complexity_and.Instr.Alu.{
  shift_imm, shift_reg, sll_impl, srl_impl, sra_impl, move_from, move_to, mult_div, mult_impl,
  multu_impl, div_impl, divu_impl, alu_reg, add_impl, addu_impl, sub_impl, subu_impl, slt_impl,
  sltu_impl, and_impl, or_impl, xor_impl, nor_impl, alu_imm, addi_impl, addiu_impl, slti_impl,
  sltiu_impl, andi_impl, ori_impl, xori_impl, lui_insn, rdhwr_insn,
}
use comparing_complexity_and.Instr.Transfer.{
  lb_impl, lh_impl, lw_impl, lbu_impl, lhu_impl, lwr_impl, lwl_impl, sb_impl, sh_impl, sw_impl,
  swl_impl, swr_impl,
}
use comparing_complexity_and.Instr.Exec.{exec}
use comparing_complexity_and.Instr.Plain.{
  IsPlain, on_mips-IsPlain, shift_imm-IsBlind, shift_reg-IsBlind, move_from-IsBlind,
  move_to-IsBlind, mult_div-IsBlind, alu_reg-IsBlind, alu_imm-IsBlind, lui_insn-IsBlind,
  rdhwr_insn-IsBlind, load_imm-IsPlain, store_imm-IsPlain, sc_insn-IsPlain,
}
use comparing_complexity_and.Instr.Calls.{syscall-IsPlain}
use comparing_complexity_and.Blocked.{basic, kind_of}

pub exec-IsPlain :
    (env : Env) (insn : Insn) (cir : ℕ) (s : Machine)
    → kind_of insn ≡ basic
    → IsPlain (exec env insn cir) s
unfolding exec kind_of
exec-IsPlain env Insn.blez cir s k = cc
exec-IsPlain env Insn.bgtz cir s k = cc
exec-IsPlain env Insn.j cir s k = cc
exec-IsPlain env Insn.jal cir s k = cc
exec-IsPlain env Insn.beq cir s k = cc
exec-IsPlain env Insn.bne cir s k = cc
exec-IsPlain env Insn.addi cir s k =
    on_mips-IsPlain (alu_imm addi_impl cir) s (alu_imm-IsBlind addi_impl cir)
exec-IsPlain env Insn.addiu cir s k =
    on_mips-IsPlain (alu_imm addiu_impl cir) s (alu_imm-IsBlind addiu_impl cir)
exec-IsPlain env Insn.slti cir s k =
    on_mips-IsPlain (alu_imm slti_impl cir) s (alu_imm-IsBlind slti_impl cir)
exec-IsPlain env Insn.sltiu cir s k =
    on_mips-IsPlain (alu_imm sltiu_impl cir) s (alu_imm-IsBlind sltiu_impl cir)
exec-IsPlain env Insn.andi cir s k =
    on_mips-IsPlain (alu_imm andi_impl cir) s (alu_imm-IsBlind andi_impl cir)
exec-IsPlain env Insn.ori cir s k =
    on_mips-IsPlain (alu_imm ori_impl cir) s (alu_imm-IsBlind ori_impl cir)
exec-IsPlain env Insn.xori cir s k =
    on_mips-IsPlain (alu_imm xori_impl cir) s (alu_imm-IsBlind xori_impl cir)
exec-IsPlain env Insn.lui cir s k = on_mips-IsPlain (lui_insn cir) s (lui_insn-IsBlind cir)
exec-IsPlain env Insn.lb cir s k = load_imm-IsPlain lb_impl cir s
exec-IsPlain env Insn.lh cir s k = load_imm-IsPlain lh_impl cir s
exec-IsPlain env Insn.lwl cir s k = load_imm-IsPlain lwl_impl cir s
exec-IsPlain env Insn.lw cir s k = load_imm-IsPlain lw_impl cir s
exec-IsPlain env Insn.lbu cir s k = load_imm-IsPlain lbu_impl cir s
exec-IsPlain env Insn.lhu cir s k = load_imm-IsPlain lhu_impl cir s
exec-IsPlain env Insn.lwr cir s k = load_imm-IsPlain lwr_impl cir s
exec-IsPlain env Insn.ll cir s k = load_imm-IsPlain lw_impl cir s
exec-IsPlain env Insn.sb cir s k = store_imm-IsPlain sb_impl cir s
exec-IsPlain env Insn.sh cir s k = store_imm-IsPlain sh_impl cir s
exec-IsPlain env Insn.swl cir s k = store_imm-IsPlain swl_impl cir s
exec-IsPlain env Insn.sw cir s k = store_imm-IsPlain sw_impl cir s
exec-IsPlain env Insn.sc cir s k = sc_insn-IsPlain cir s
exec-IsPlain env Insn.swr cir s k = store_imm-IsPlain swr_impl cir s
exec-IsPlain env Insn.rdhwr cir s k = on_mips-IsPlain (rdhwr_insn cir) s (rdhwr_insn-IsBlind cir)
exec-IsPlain env Insn.brk cir s k = λ p n q br. refl
exec-IsPlain env Insn.sll cir s k =
    on_mips-IsPlain (shift_imm sll_impl cir) s (shift_imm-IsBlind sll_impl cir)
exec-IsPlain env Insn.srl cir s k =
    on_mips-IsPlain (shift_imm srl_impl cir) s (shift_imm-IsBlind srl_impl cir)
exec-IsPlain env Insn.sra cir s k =
    on_mips-IsPlain (shift_imm sra_impl cir) s (shift_imm-IsBlind sra_impl cir)
exec-IsPlain env Insn.sllv cir s k =
    on_mips-IsPlain (shift_reg sll_impl cir) s (shift_reg-IsBlind sll_impl cir)
exec-IsPlain env Insn.srlv cir s k =
    on_mips-IsPlain (shift_reg srl_impl cir) s (shift_reg-IsBlind srl_impl cir)
exec-IsPlain env Insn.srav cir s k =
    on_mips-IsPlain (shift_reg sra_impl cir) s (shift_reg-IsBlind sra_impl cir)
exec-IsPlain env Insn.jr cir s k = cc
exec-IsPlain env Insn.jalr cir s k = cc
exec-IsPlain env Insn.syscall cir s k = syscall-IsPlain env s
exec-IsPlain env Insn.special cir s k = λ p n q br. refl
exec-IsPlain env Insn.mfhi cir s k =
    on_mips-IsPlain (move_from mips_r_hi cir) s (move_from-IsBlind mips_r_hi cir (omega arith))
exec-IsPlain env Insn.mflo cir s k =
    on_mips-IsPlain (move_from mips_r_lo cir) s (move_from-IsBlind mips_r_lo cir (omega arith))
exec-IsPlain env Insn.mthi cir s k =
    on_mips-IsPlain (move_to mips_r_hi cir) s (move_to-IsBlind mips_r_hi cir (omega arith))
exec-IsPlain env Insn.mtlo cir s k =
    on_mips-IsPlain (move_to mips_r_lo cir) s (move_to-IsBlind mips_r_lo cir (omega arith))
exec-IsPlain env Insn.mult cir s k =
    on_mips-IsPlain (mult_div mult_impl cir) s (mult_div-IsBlind mult_impl cir)
exec-IsPlain env Insn.multu cir s k =
    on_mips-IsPlain (mult_div multu_impl cir) s (mult_div-IsBlind multu_impl cir)
exec-IsPlain env Insn.div cir s k =
    on_mips-IsPlain (mult_div div_impl cir) s (mult_div-IsBlind div_impl cir)
exec-IsPlain env Insn.divu cir s k =
    on_mips-IsPlain (mult_div divu_impl cir) s (mult_div-IsBlind divu_impl cir)
exec-IsPlain env Insn.add cir s k =
    on_mips-IsPlain (alu_reg add_impl cir) s (alu_reg-IsBlind add_impl cir)
exec-IsPlain env Insn.addu cir s k =
    on_mips-IsPlain (alu_reg addu_impl cir) s (alu_reg-IsBlind addu_impl cir)
exec-IsPlain env Insn.sub cir s k =
    on_mips-IsPlain (alu_reg sub_impl cir) s (alu_reg-IsBlind sub_impl cir)
exec-IsPlain env Insn.subu cir s k =
    on_mips-IsPlain (alu_reg subu_impl cir) s (alu_reg-IsBlind subu_impl cir)
exec-IsPlain env Insn.slt cir s k =
    on_mips-IsPlain (alu_reg slt_impl cir) s (alu_reg-IsBlind slt_impl cir)
exec-IsPlain env Insn.sltu cir s k =
    on_mips-IsPlain (alu_reg sltu_impl cir) s (alu_reg-IsBlind sltu_impl cir)
exec-IsPlain env Insn.and cir s k =
    on_mips-IsPlain (alu_reg and_impl cir) s (alu_reg-IsBlind and_impl cir)
exec-IsPlain env Insn.or cir s k =
    on_mips-IsPlain (alu_reg or_impl cir) s (alu_reg-IsBlind or_impl cir)
exec-IsPlain env Insn.xor cir s k =
    on_mips-IsPlain (alu_reg xor_impl cir) s (alu_reg-IsBlind xor_impl cir)
exec-IsPlain env Insn.nor cir s k =
    on_mips-IsPlain (alu_reg nor_impl cir) s (alu_reg-IsBlind nor_impl cir)
exec-IsPlain env Insn.bltz cir s k = cc
exec-IsPlain env Insn.bgez cir s k = cc
exec-IsPlain env Insn.bltzal cir s k = cc
exec-IsPlain env Insn.bgezal cir s k = cc
