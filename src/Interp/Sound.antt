-- ===== src/Interp/Sound.antt =====
-- Runs of the interpreters keep the machine sound.
use comparing_complexity_and.Base.{
  ℕ, zero, suc, ◌≡◌, Bool, true, false, inl, inr, if◌then◌else◌, ok, timeout, >>=-eq-ok,
  ok-injective, Bool-cases, if-true, if-false, sym, ◌∙◌, subst,
}
use comparing_complexity_and.Machine.{mips_r_pc}
use comparing_complexity_and.Memory.{memory_read_u32}
use comparing_complexity_and.Host.{Env, Machine}
use comparing_complexity_and.Host.Sound.{IsSound, set_mips-IsSound}
use comparing_complexity_and.Instr.Exec.{exec}
use comparing_complexity_and.Instr.Every.{exec-IsSound}
use comparing_complexity_and.Instr.Preserve.{increment_pc-KeepsSound}
use comparing_complexity_and.Interp.Switch.{switch_dispatch, switch_step, interpreter_switch}

module _ (env : Env) where
  switch_step-IsSound : (s s' : Machine) → IsSound s → switch_step env s ≡ ok s' → IsSound s'
  unfolding switch_step
  switch_step-IsSound s s' h e =
      let (cir, _, e₁) = >>=-eq-ok (memory_read_u32 s.memory (s.mips.r mips_r_pc)) _ e in
      let (insn, _, e₂) = >>=-eq-ok (switch_dispatch cir) _ e₁ in
      let (t, ran, same) = >>=-eq-ok (exec env insn cir s) _ e₂ in
      let after = exec-IsSound env insn cir s t h ran in
      subst IsSound (ok-injective same)
        (set_mips-IsSound _ t (increment_pc-KeepsSound t.mips after.mips) after)

  -- A run of the switch interpreter that returns, from a sound machine, ends with a sound one:
  -- whatever the program does and the host answers, no register leaves the range of a `u32`, and no
  -- byte of the memory that of a byte.
  interpreter_switch-IsSound :
      (fuel : ℕ) (s s' : Machine) → IsSound s → interpreter_switch env fuel s ≡ ok s' → IsSound s'
  unfolding interpreter_switch
  interpreter_switch-IsSound zero s s' h e = subst IsSound (unless_timeout s.mips.halted e) h
    where
      unless_timeout : (test : Bool) → (if test then ok s else timeout) ≡ ok s' → s ≡ s'
      unless_timeout true e = ok-injective e
      unless_timeout false e = cc
  interpreter_switch-IsSound (suc fuel) s s' h e = elim (Bool-cases s.mips.halted) [
    | inl halted ↦ subst IsSound (ok-injective (sym (if-true (ok s) _ halted) ∙ e)) h
    | inr running ↦
        let (t, stepped, rest) =
          >>=-eq-ok (switch_step env s) _ (sym (if-false (ok s) _ running) ∙ e) in
        interpreter_switch-IsSound fuel t s' (switch_step-IsSound s t h stepped) rest
  ]
