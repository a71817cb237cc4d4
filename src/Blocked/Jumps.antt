-- ===== src/Blocked/Jumps.antt =====
-- Every branch goes its way by `%pc` alone: the next address, the flag and where it led.
use comparing_complexity_and.Base.{ℕ, ◌≡◌, ◌≢◌, Bool, true, ok, refl}
use comparing_complexity_and.Insn.{Insn, rd_field, imm26_field}
use comparing_complexity_and.Machine.{mips_r_ra}
use comparing_complexity_and.Host.{Env, Machine, set_mips}
use comparing_complexity_and.Instr.Control.{
  jump_target, is_ltz, is_gez, is_lez, is_gtz, is_eq, is_ne,
}
use comparing_complexity_and.Instr.Exec.{exec}
use comparing_complexity_and.Instr.Plain.{at}
use comparing_complexity_and.Instr.Branches.{
  branch_dest, rs_value, rt_value, linked_at, branch_generic-at, branch_eq_ne-at,
  branch_generic_link-at, j_insn-at, jal_insn-at, jr_insn-at, jalr_insn-at,
}
use comparing_complexity_and.Blocked.{basic, branching, kind_of}

pub dest : Insn → ℕ → ℕ → Bool → ℕ
dest Insn.j cir p b = jump_target p (imm26_field cir)
dest Insn.jal cir p b = jump_target p (imm26_field cir)
dest insn cir p b = branch_dest cir p b

-- What a branch at `p` does, whatever the other two counters and the flag hold: it sets both, and
-- a target that is not taken from a register goes by the flag.
pub record Jumps (env : Env) (insn : Insn) (cir p : ℕ) (s : Machine) : Type 0 where
  pub after : Machine
  pub target : ℕ
  pub taken : Bool
  pub jump :
      (n q : ℕ) (br : Bool) → exec env insn cir (at p n q br s) ≡ ok (at p n target taken after)
  pub direct : kind_of insn ≡ branching → target ≡ dest insn cir p taken

pub exec-Jumps :
    (env : Env) (insn : Insn) (cir p : ℕ) (s : Machine)
    → kind_of insn ≢ basic
    → Jumps env insn cir p s
unfolding exec kind_of dest
exec-Jumps env Insn.blez cir p s k = record {
  after = s;
  target = branch_dest cir p (is_lez (rs_value cir p s));
  taken = (is_lez (rs_value cir p s));
  jump = branch_generic-at cir p s is_lez;
  direct = λ k. refl;
}
exec-Jumps env Insn.bgtz cir p s k = record {
  after = s;
  target = branch_dest cir p (is_gtz (rs_value cir p s));
  taken = (is_gtz (rs_value cir p s));
  jump = branch_generic-at cir p s is_gtz;
  direct = λ k. refl;
}
exec-Jumps env Insn.j cir p s k = record {
  after = s;
  target = jump_target p (imm26_field cir);
  taken = true;
  jump = j_insn-at cir p s;
  direct = λ k. refl;
}
exec-Jumps env Insn.jal cir p s k = record {
  after = set_mips (linked_at cir p s mips_r_ra) s;
  target = jump_target p (imm26_field cir);
  taken = true;
  jump = jal_insn-at cir p s;
  direct = λ k. refl;
}
exec-Jumps env Insn.beq cir p s k = record {
  after = s;
  target = branch_dest cir p (is_eq (rs_value cir p s) (rt_value cir p s));
  taken = (is_eq (rs_value cir p s) (rt_value cir p s));
  jump = branch_eq_ne-at cir p s is_eq;
  direct = λ k. refl;
}
exec-Jumps env Insn.bne cir p s k = record {
  after = s;
  target = branch_dest cir p (is_ne (rs_value cir p s) (rt_value cir p s));
  taken = (is_ne (rs_value cir p s) (rt_value cir p s));
  jump = branch_eq_ne-at cir p s is_ne;
  direct = λ k. refl;
}
exec-Jumps env Insn.addi cir p s k = absurd (k refl)
exec-Jumps env Insn.addiu cir p s k = absurd (k refl)
exec-Jumps env Insn.slti cir p s k = absurd (k refl)
exec-Jumps env Insn.sltiu cir p s k = absurd (k refl)
exec-Jumps env Insn.andi cir p s k = absurd (k refl)
exec-Jumps env Insn.ori cir p s k = absurd (k refl)
exec-Jumps env Insn.xori cir p s k = absurd (k refl)
exec-Jumps env Insn.lui cir p s k = absurd (k refl)
exec-Jumps env Insn.lb cir p s k = absurd (k refl)
exec-Jumps env Insn.lh cir p s k = absurd (k refl)
exec-Jumps env Insn.lwl cir p s k = absurd (k refl)
exec-Jumps env Insn.lw cir p s k = absurd (k refl)
exec-Jumps env Insn.lbu cir p s k = absurd (k refl)
exec-Jumps env Insn.lhu cir p s k = absurd (k refl)
exec-Jumps env Insn.lwr cir p s k = absurd (k refl)
exec-Jumps env Insn.ll cir p s k = absurd (k refl)
exec-Jumps env Insn.sb cir p s k = absurd (k refl)
exec-Jumps env Insn.sh cir p s k = absurd (k refl)
exec-Jumps env Insn.swl cir p s k = absurd (k refl)
exec-Jumps env Insn.sw cir p s k = absurd (k refl)
exec-Jumps env Insn.sc cir p s k = absurd (k refl)
exec-Jumps env Insn.swr cir p s k = absurd (k refl)
exec-Jumps env Insn.rdhwr cir p s k = absurd (k refl)
exec-Jumps env Insn.brk cir p s k = absurd (k refl)
exec-Jumps env Insn.sll cir p s k = absurd (k refl)
exec-Jumps env Insn.srl cir p s k = absurd (k refl)
exec-Jumps env Insn.sra cir p s k = absurd (k refl)
exec-Jumps env Insn.sllv cir p s k = absurd (k refl)
exec-Jumps env Insn.srlv cir p s k = absurd (k refl)
exec-Jumps env Insn.srav cir p s k = absurd (k refl)
exec-Jumps env Insn.jr cir p s k = record {
  after = s;
  target = rs_value cir p s;
  taken = true;
  jump = jr_insn-at cir p s;
  direct = λ k. cc;
}
exec-Jumps env Insn.jalr cir p s k = record {
  after = set_mips (linked_at cir p s (rd_field cir)) s;
  target = rs_value cir p s;
  taken = true;
  jump = jalr_insn-at cir p s;
  direct = λ k. cc;
}
exec-Jumps env Insn.syscall cir p s k = absurd (k refl)
exec-Jumps env Insn.special cir p s k = absurd (k refl)
exec-Jumps env Insn.mfhi cir p s k = absurd (k refl)
exec-Jumps env Insn.mflo cir p s k = absurd (k refl)
exec-Jumps env Insn.mthi cir p s k = absurd (k refl)
exec-Jumps env Insn.mtlo cir p s k = absurd (k refl)
exec-Jumps env Insn.mult cir p s k = absurd (k refl)
exec-Jumps env Insn.multu cir p s k = absurd (k refl)
exec-Jumps env Insn.div cir p s k = absurd (k refl)
exec-Jumps env Insn.divu cir p s k = absurd (k refl)
exec-Jumps env Insn.add cir p s k = absurd (k refl)
exec-Jumps env Insn.addu cir p s k = absurd (k refl)
exec-Jumps env Insn.sub cir p s k = absurd (k refl)
exec-Jumps env Insn.subu cir p s k = absurd (k refl)
exec-Jumps env Insn.slt cir p s k = absurd (k refl)
exec-Jumps env Insn.sltu cir p s k = absurd (k refl)
exec-Jumps env Insn.and cir p s k = absurd (k refl)
exec-Jumps env Insn.or cir p s k = absurd (k refl)
exec-Jumps env Insn.xor cir p s k = absurd (k refl)
exec-Jumps env Insn.nor cir p s k = absurd (k refl)
exec-Jumps env Insn.bltz cir p s k = record {
  after = s;
  target = branch_dest cir p (is_ltz (rs_value cir p s));
  taken = (is_ltz (rs_value cir p s));
  jump = branch_generic-at cir p s is_ltz;
  direct = λ k. refl;
}
exec-Jumps env Insn.bgez cir p s k = record {
  after = s;
  target = branch_dest cir p (is_gez (rs_value cir p s));
  taken = (is_gez (rs_value cir p s));
  jump = branch_generic-at cir p s is_gez;
  direct = λ k. refl;
}
exec-Jumps env Insn.bltzal cir p s k = record {
  after = set_mips (linked_at cir p s mips_r_ra) s;
  target = branch_dest cir p (is_ltz (rs_value cir p s));
  taken = (is_ltz (rs_value cir p s));
  jump = branch_generic_link-at cir p s is_ltz;
  direct = λ k. refl;
}
exec-Jumps env Insn.bgezal cir p s k = record {
  after = set_mips (linked_at cir p s mips_r_ra) s;
  target = branch_dest cir p (is_gez (rs_value cir p s));
  taken = (is_gez (rs_value cir p s));
  jump = branch_generic_link-at cir p s is_gez;
  direct = λ k. refl;
}
