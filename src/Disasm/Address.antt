-- ===== src/Disasm/Address.antt =====
-- No instruction moves the program counter itself (instructions.h): `INCREMENT_PC` does.
use comparing_complexity_and.Base.{
  ℕ, ◌≡◌, ◌≢◌, ◌⊎◌, inl, inr, refl, sym, ap, ◌∙◌, ok, >>=-eq-ok, ok-injective,
}
use comparing_complexity_and.Insn.{Insn}
use comparing_complexity_and.Machine.{mips_r_pc}
use comparing_complexity_and.Host.{Env, Machine}
use comparing_complexity_and.Instr.Exec.{exec}
use comparing_complexity_and.Instr.Plain.{at_same}
use comparing_complexity_and.Blocked.{Kind, basic, branching, indirect_branching, kind_of}
use comparing_complexity_and.Blocked.Plain.{exec-IsPlain}
use comparing_complexity_and.Blocked.Jumps.{exec-Jumps}

basic_or_not : (k : Kind) → (k ≡ basic) ⊎ (k ≢ basic)
basic_or_not basic = inl refl
basic_or_not branching = inr λ e. cc
basic_or_not indirect_branching = inr λ e. cc

pub exec_keeps_pc :
    (env : Env) (insn : Insn) (cir : ℕ) (s s' : Machine)
    → exec env insn cir s ≡ ok s'
    → s'.mips.r mips_r_pc ≡ s.mips.r mips_r_pc
exec_keeps_pc env insn cir s s' ran =
    let p = s.mips.r mips_r_pc in
    let n = s.mips.r 35 in
    let q = s.mips.r 36 in
    let br = s.mips.branched in
    let ran_at = ap (exec env insn cir) (at_same s) ∙ ran in
    elim (basic_or_not (kind_of insn)) [
      | inl plain ↦
          let (t, _, same) =
            >>=-eq-ok (exec env insn cir s) _
              (sym (exec-IsPlain env insn cir s plain p n q br) ∙ ran_at) in
          ap (λ (m : Machine). m.mips.r mips_r_pc) (sym (ok-injective same))
      | inr jumps ↦
          let j = exec-Jumps env insn cir p s jumps in
          ap (λ (m : Machine). m.mips.r mips_r_pc)
            (sym (ok-injective (sym (j.jump n q br) ∙ ran_at)))
    ]
