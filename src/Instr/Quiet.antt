-- ===== src/Instr/Quiet.antt =====
-- Instructions that leave the memory, the host and the exit status alone (instructions.h): all but
-- the stores and `syscall`.
use comparing_complexity_and.Base.{
  ℕ, ◌≡◌, refl, Bool, true, false, Option, none, some, Result, ok, WhenOk,
}
use comparing_complexity_and.Insn.{Insn, rt_field}
use comparing_complexity_and.Machine.{Mips, mips_r_hi, mips_r_lo}
use comparing_complexity_and.Memory.{Memory}
use comparing_complexity_and.Host.{Env, Machine}
use comparing_complexity_and.Host.Sound.{WhenOk-ok, WhenOk-any}
use comparing_complexity_and.Instr.Alu.{
  write_r, shift_imm, shift_reg, move_from, move_to, mult_div, alu_reg, alu_imm, lui_insn,
  rdhwr_insn, sll_impl, srl_impl, sra_impl, mult_impl, multu_impl, div_impl, divu_impl, add_impl,
  addu_impl, sub_impl, subu_impl, slt_impl, sltu_impl, and_impl, or_impl, xor_impl, nor_impl,
  addi_impl, addiu_impl, slti_impl, sltiu_impl, andi_impl, ori_impl, xori_impl,
}
use comparing_complexity_and.Instr.Control.{
  is_ltz, is_gez, is_lez, is_gtz, is_eq, is_ne, branch_if, branch_generic, branch_generic_link,
  branch_eq_ne, jr_insn, jalr_insn, j_insn, jal_insn,
}
use comparing_complexity_and.Instr.Transfer.{
  load_imm, lb_impl, lh_impl, lw_impl, lbu_impl, lhu_impl, lwr_impl, lwl_impl,
}
use comparing_complexity_and.Instr.Exec.{exec, on_mips}

-- The instructions that neither store nor call.
abbrev pub IsQuiet : Insn → Type 0
IsQuiet Insn.sb = ⊥
IsQuiet Insn.sh = ⊥
IsQuiet Insn.swl = ⊥
IsQuiet Insn.sw = ⊥
IsQuiet Insn.sc = ⊥
IsQuiet Insn.swr = ⊥
IsQuiet Insn.syscall = ⊥
IsQuiet insn = Unit

-- What of a machine is seen from outside stays.
pub record SameWorld (s s' : Machine) : Type 0 where
  pub memory : s'.memory ≡ s.memory
  pub calls : s'.calls ≡ s.calls
  pub status : s'.mips.status ≡ s.mips.status

abbrev KeepsStatus : (Mips → Mips) → Type 0
KeepsStatus f = (m : Mips) → (f m).status ≡ m.status

write_r-KeepsStatus : (k : ℕ) (v : Option ℕ) → KeepsStatus (write_r k v)
write_r-KeepsStatus k none m = refl
write_r-KeepsStatus k (some v) m = refl

branch_if-KeepsStatus : (taken : Bool) (imm16 : ℕ) → KeepsStatus (branch_if taken imm16)
unfolding branch_if
branch_if-KeepsStatus true imm16 m = refl
branch_if-KeepsStatus false imm16 m = refl

module _ (cir : ℕ) where
  shift_imm-KeepsStatus : (impl : ℕ → ℕ → ℕ) → KeepsStatus (shift_imm impl cir)
  unfolding shift_imm
  shift_imm-KeepsStatus impl m = refl

  shift_reg-KeepsStatus : (impl : ℕ → ℕ → ℕ) → KeepsStatus (shift_reg impl cir)
  unfolding shift_reg
  shift_reg-KeepsStatus impl m = refl

  move_from-KeepsStatus : (k : ℕ) → KeepsStatus (move_from k cir)
  unfolding move_from
  move_from-KeepsStatus k m = refl

  move_to-KeepsStatus : (k : ℕ) → KeepsStatus (move_to k cir)
  unfolding move_to
  move_to-KeepsStatus k m = refl

  mult_div-KeepsStatus :
      (impl : ℕ → ℕ → record { lo : ℕ; hi : ℕ }) → KeepsStatus (mult_div impl cir)
  unfolding mult_div
  mult_div-KeepsStatus impl m = refl

  alu_reg-KeepsStatus : (impl : ℕ → ℕ → Option ℕ) → KeepsStatus (alu_reg impl cir)
  unfolding alu_reg
  alu_reg-KeepsStatus impl m = write_r-KeepsStatus _ (impl _ _) m

  alu_imm-KeepsStatus : (impl : ℕ → ℕ → Option ℕ) → KeepsStatus (alu_imm impl cir)
  unfolding alu_imm
  alu_imm-KeepsStatus impl m = write_r-KeepsStatus _ (impl _ _) m

  branch_generic-KeepsStatus : (test : ℕ → Bool) → KeepsStatus (branch_generic test cir)
  unfolding branch_generic
  branch_generic-KeepsStatus test m = branch_if-KeepsStatus (test _) _ m

  branch_generic_link-KeepsStatus : (test : ℕ → Bool) → KeepsStatus (branch_generic_link test cir)
  unfolding branch_generic_link
  branch_generic_link-KeepsStatus test m = branch_if-KeepsStatus (test _) _ _

  branch_eq_ne-KeepsStatus : (test : ℕ → ℕ → Bool) → KeepsStatus (branch_eq_ne test cir)
  unfolding branch_eq_ne
  branch_eq_ne-KeepsStatus test m = branch_if-KeepsStatus (test _ _) _ m

module _ (cir : ℕ) (s : Machine) where
  on_mips-SameWorld : (f : Mips → Mips) → KeepsStatus f → WhenOk (SameWorld s) (on_mips f s)
  on_mips-SameWorld f keeps = record { memory = refl; calls = refl; status = keeps s.mips }

  load_imm-SameWorld :
      (impl : Memory → ℕ → ℕ → Result ℕ) → WhenOk (SameWorld s) (load_imm impl cir s)
  unfolding load_imm
  load_imm-SameWorld impl =
      WhenOk-any (SameWorld s) (impl s.memory _ (s.mips.r (rt_field cir))) _
        λ v. record { memory = refl; calls = refl; status = refl }

exec-WhenOk :
    (env : Env) (insn : Insn) (cir : ℕ) (s : Machine)
    → IsQuiet insn
    → WhenOk (SameWorld s) (exec env insn cir s)
unfolding exec jr_insn jalr_insn j_insn jal_insn lui_insn rdhwr_insn
exec-WhenOk env Insn.blez cir s h =
    on_mips-SameWorld cir s (branch_generic is_lez cir) (branch_generic-KeepsStatus cir is_lez)
exec-WhenOk env Insn.bgtz cir s h =
    on_mips-SameWorld cir s (branch_generic is_gtz cir) (branch_generic-KeepsStatus cir is_gtz)
exec-WhenOk env Insn.j cir s h = record { memory = refl; calls = refl; status = refl }
exec-WhenOk env Insn.jal cir s h = record { memory = refl; calls = refl; status = refl }
exec-WhenOk env Insn.beq cir s h =
    on_mips-SameWorld cir s (branch_eq_ne is_eq cir) (branch_eq_ne-KeepsStatus cir is_eq)
exec-WhenOk env Insn.bne cir s h =
    on_mips-SameWorld cir s (branch_eq_ne is_ne cir) (branch_eq_ne-KeepsStatus cir is_ne)
exec-WhenOk env Insn.addi cir s h =
    on_mips-SameWorld cir s (alu_imm addi_impl cir) (alu_imm-KeepsStatus cir addi_impl)
exec-WhenOk env Insn.addiu cir s h =
    on_mips-SameWorld cir s (alu_imm addiu_impl cir) (alu_imm-KeepsStatus cir addiu_impl)
exec-WhenOk env Insn.slti cir s h =
    on_mips-SameWorld cir s (alu_imm slti_impl cir) (alu_imm-KeepsStatus cir slti_impl)
exec-WhenOk env Insn.sltiu cir s h =
    on_mips-SameWorld cir s (alu_imm sltiu_impl cir) (alu_imm-KeepsStatus cir sltiu_impl)
exec-WhenOk env Insn.andi cir s h =
    on_mips-SameWorld cir s (alu_imm andi_impl cir) (alu_imm-KeepsStatus cir andi_impl)
exec-WhenOk env Insn.ori cir s h =
    on_mips-SameWorld cir s (alu_imm ori_impl cir) (alu_imm-KeepsStatus cir ori_impl)
exec-WhenOk env Insn.xori cir s h =
    on_mips-SameWorld cir s (alu_imm xori_impl cir) (alu_imm-KeepsStatus cir xori_impl)
exec-WhenOk env Insn.lui cir s h = record { memory = refl; calls = refl; status = refl }
exec-WhenOk env Insn.lb cir s h = load_imm-SameWorld cir s lb_impl
exec-WhenOk env Insn.lh cir s h = load_imm-SameWorld cir s lh_impl
exec-WhenOk env Insn.lwl cir s h = load_imm-SameWorld cir s lwl_impl
exec-WhenOk env Insn.lw cir s h = load_imm-SameWorld cir s lw_impl
exec-WhenOk env Insn.lbu cir s h = load_imm-SameWorld cir s lbu_impl
exec-WhenOk env Insn.lhu cir s h = load_imm-SameWorld cir s lhu_impl
exec-WhenOk env Insn.lwr cir s h = load_imm-SameWorld cir s lwr_impl
exec-WhenOk env Insn.ll cir s h = load_imm-SameWorld cir s lw_impl
exec-WhenOk env Insn.sb cir s h = absurd h
exec-WhenOk env Insn.sh cir s h = absurd h
exec-WhenOk env Insn.swl cir s h = absurd h
exec-WhenOk env Insn.sw cir s h = absurd h
exec-WhenOk env Insn.sc cir s h = absurd h
exec-WhenOk env Insn.swr cir s h = absurd h
exec-WhenOk env Insn.rdhwr cir s h = record { memory = refl; calls = refl; status = refl }
exec-WhenOk env Insn.brk cir s h = tt
exec-WhenOk env Insn.sll cir s h =
    on_mips-SameWorld cir s (shift_imm sll_impl cir) (shift_imm-KeepsStatus cir sll_impl)
exec-WhenOk env Insn.srl cir s h =
    on_mips-SameWorld cir s (shift_imm srl_impl cir) (shift_imm-KeepsStatus cir srl_impl)
exec-WhenOk env Insn.sra cir s h =
    on_mips-SameWorld cir s (shift_imm sra_impl cir) (shift_imm-KeepsStatus cir sra_impl)
exec-WhenOk env Insn.sllv cir s h =
    on_mips-SameWorld cir s (shift_reg sll_impl cir) (shift_reg-KeepsStatus cir sll_impl)
exec-WhenOk env Insn.srlv cir s h =
    on_mips-SameWorld cir s (shift_reg srl_impl cir) (shift_reg-KeepsStatus cir srl_impl)
exec-WhenOk env Insn.srav cir s h =
    on_mips-SameWorld cir s (shift_reg sra_impl cir) (shift_reg-KeepsStatus cir sra_impl)
exec-WhenOk env Insn.jr cir s h = record { memory = refl; calls = refl; status = refl }
exec-WhenOk env Insn.jalr cir s h = record { memory = refl; calls = refl; status = refl }
exec-WhenOk env Insn.syscall cir s h = absurd h
exec-WhenOk env Insn.special cir s h = record { memory = refl; calls = refl; status = refl }
exec-WhenOk env Insn.mfhi cir s h =
    on_mips-SameWorld cir s (move_from mips_r_hi cir) (move_from-KeepsStatus cir mips_r_hi)
exec-WhenOk env Insn.mflo cir s h =
    on_mips-SameWorld cir s (move_from mips_r_lo cir) (move_from-KeepsStatus cir mips_r_lo)
exec-WhenOk env Insn.mthi cir s h =
    on_mips-SameWorld cir s (move_to mips_r_hi cir) (move_to-KeepsStatus cir mips_r_hi)
exec-WhenOk env Insn.mtlo cir s h =
    on_mips-SameWorld cir s (move_to mips_r_lo cir) (move_to-KeepsStatus cir mips_r_lo)
exec-WhenOk env Insn.mult cir s h =
    on_mips-SameWorld cir s (mult_div mult_impl cir) (mult_div-KeepsStatus cir mult_impl)
exec-WhenOk env Insn.multu cir s h =
    on_mips-SameWorld cir s (mult_div multu_impl cir) (mult_div-KeepsStatus cir multu_impl)
exec-WhenOk env Insn.div cir s h =
    on_mips-SameWorld cir s (mult_div div_impl cir) (mult_div-KeepsStatus cir div_impl)
exec-WhenOk env Insn.divu cir s h =
    on_mips-SameWorld cir s (mult_div divu_impl cir) (mult_div-KeepsStatus cir divu_impl)
exec-WhenOk env Insn.add cir s h =
    on_mips-SameWorld cir s (alu_reg add_impl cir) (alu_reg-KeepsStatus cir add_impl)
exec-WhenOk env Insn.addu cir s h =
    on_mips-SameWorld cir s (alu_reg addu_impl cir) (alu_reg-KeepsStatus cir addu_impl)
exec-WhenOk env Insn.sub cir s h =
    on_mips-SameWorld cir s (alu_reg sub_impl cir) (alu_reg-KeepsStatus cir sub_impl)
exec-WhenOk env Insn.subu cir s h =
    on_mips-SameWorld cir s (alu_reg subu_impl cir) (alu_reg-KeepsStatus cir subu_impl)
exec-WhenOk env Insn.slt cir s h =
    on_mips-SameWorld cir s (alu_reg slt_impl cir) (alu_reg-KeepsStatus cir slt_impl)
exec-WhenOk env Insn.sltu cir s h =
    on_mips-SameWorld cir s (alu_reg sltu_impl cir) (alu_reg-KeepsStatus cir sltu_impl)
exec-WhenOk env Insn.and cir s h =
    on_mips-SameWorld cir s (alu_reg and_impl cir) (alu_reg-KeepsStatus cir and_impl)
exec-WhenOk env Insn.or cir s h =
    on_mips-SameWorld cir s (alu_reg or_impl cir) (alu_reg-KeepsStatus cir or_impl)
exec-WhenOk env Insn.xor cir s h =
    on_mips-SameWorld cir s (alu_reg xor_impl cir) (alu_reg-KeepsStatus cir xor_impl)
exec-WhenOk env Insn.nor cir s h =
    on_mips-SameWorld cir s (alu_reg nor_impl cir) (alu_reg-KeepsStatus cir nor_impl)
exec-WhenOk env Insn.bltz cir s h =
    on_mips-SameWorld cir s (branch_generic is_ltz cir) (branch_generic-KeepsStatus cir is_ltz)
exec-WhenOk env Insn.bgez cir s h =
    on_mips-SameWorld cir s (branch_generic is_gez cir) (branch_generic-KeepsStatus cir is_gez)
exec-WhenOk env Insn.bltzal cir s h =
    on_mips-SameWorld cir s (branch_generic_link is_ltz cir)
      (branch_generic_link-KeepsStatus cir is_ltz)
exec-WhenOk env Insn.bgezal cir s h =
    on_mips-SameWorld cir s (branch_generic_link is_gez cir)
      (branch_generic_link-KeepsStatus cir is_gez)

-- A quiet instruction that returns changes neither the memory nor the calls made nor the status.
pub exec-SameWorld :
    (env : Env) (insn : Insn) (cir : ℕ) (s s' : Machine)
    → IsQuiet insn
    → exec env insn cir s ≡ ok s'
    → SameWorld s s'
exec-SameWorld env insn cir s s' h e =
    WhenOk-ok (SameWorld s) (exec env insn cir s) (exec-WhenOk env insn cir s h) e
