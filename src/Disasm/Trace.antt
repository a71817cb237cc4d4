-- ===== src/Disasm/Trace.antt =====
-- What the listings of switch.c, computed-goto.c and tail-call.c say of a run: the instruction words
-- in the order of their execution, each with an address, and what the implementations print.
use comparing_complexity_and.Base.{
  ℕ, zero, suc, ◌≡◌, refl, ap, ap₂, ◌∙◌, List, [], ◌∷◌, ◌++◌, map, ok, >>=-eq-ok, ok-injective,
}
use comparing_complexity_and.Insn.{Insn}
use comparing_complexity_and.Machine.{mips_r_pc}
use comparing_complexity_and.Memory.{memory_read_u32}
use comparing_complexity_and.Host.{Env, Machine}
use comparing_complexity_and.Host.Sound.{IsSound}
use comparing_complexity_and.Instr.Exec.{exec}
use comparing_complexity_and.Instr.Every.{exec-IsSound}
use comparing_complexity_and.Interp.Tables.{label_of}
use comparing_complexity_and.Interp.Switch.{switch_dispatch}
use comparing_complexity_and.Interp.TailCall.{handler_call, handler_call-eq-ok, label_of-eq-ok}
use comparing_complexity_and.Disasm.Address.{exec_keeps_pc}
use comparing_complexity_and.Disasm.Format.{format}
use comparing_complexity_and.Disasm.Reading.{read_line, read_lines-exec_lines}
use comparing_complexity_and.Disasm.Calls.{exec_lines}
use comparing_complexity_and.Disasm.Listing.{
  Listed, listed, next, switch_step_disassemble, interpreter_switch_disassemble,
  interpreter_computed_goto_disassemble, interpret_disassemble, interpreter_tail_call_disassemble,
}
use comparing_complexity_and.Disasm.Rounds.{
  Executes, switch_entries, computed_goto_entries, tail_call_entries, read_behind, next-IsSound,
  listed_round, listed_zero, listed_suc, reads_as,
}

module _ (env : Env) where
  -- A listing of switch.c, read back, is the run: from a sound machine, when the interpreter built
  -- with `__DISASSEMBLE__` returns, its lines have, in the order of execution and for each
  -- instruction, the line of an mprotect call if it makes one, then the instruction's own address
  -- and its word.
  pub interpreter_switch_disassemble-Executes :
      (fuel : ℕ) (s : Machine) (x : Listed)
      → IsSound s
      → interpreter_switch_disassemble env fuel s ≡ ok x
      → Executes env switch_entries s (map read_line x.1) x.0
  unfolding interpreter_switch_disassemble switch_step_disassemble
  interpreter_switch_disassemble-Executes zero s x h e = listed_zero env switch_entries s x e
  interpreter_switch_disassemble-Executes (suc fuel) s x h e =
      listed_suc env switch_entries s _ x
        (λ running e'.
          let ((t, lines), stepped, e₁) = >>=-eq-ok (switch_step_disassemble env s) _ e' in
          let (cir, read, e₂) =
            >>=-eq-ok (memory_read_u32 s.memory (s.mips.r mips_r_pc)) _ stepped in
          let (insn, known, e₃) = >>=-eq-ok (switch_dispatch cir) _ e₂ in
          let (s', ran, made) = >>=-eq-ok (exec env insn cir s) _ e₃ in
          let (r, rest, same) = >>=-eq-ok (interpreter_switch_disassemble env fuel t) _ e₁ in
          let at_t : next s' ≡ t = ap (λ (a : Machine × List (List ℕ)). a.0) (ok-injective made) in
          let lines' = exec_lines insn s ++ (format insn cir s'.mips ∷ []) in
          let at_lines : lines' ≡ lines =
            ap (λ (a : Machine × List (List ℕ)). a.1) (ok-injective made) in
          let go = ap (interpreter_switch_disassemble env fuel) at_t ∙ rest in
          let after = next-IsSound env insn cir s s' h ran in
          listed_round env switch_entries insn cir lines' s s' r x running read known ran
            (read_behind insn s _ _ (
              reads_as env insn cir _ s s' h (exec-IsSound env insn cir s s' h ran) read
                (exec_keeps_pc env insn cir s s' ran)))
            (interpreter_switch_disassemble-Executes fuel (next s') r after go)
            (ap (λ ls. listed ls r) at_lines ∙ ok-injective same))
        e

  interpret_disassemble-Executes :
      (fuel : ℕ) (insn : Insn) (cir : ℕ) (s : Machine) (x : Listed)
      → IsSound s
      → handler_call s ≡ ok (cir, insn)
      → interpret_disassemble env fuel insn cir s ≡ ok x
      → Executes env tail_call_entries s (map read_line x.1) x.0
  unfolding interpret_disassemble
  interpret_disassemble-Executes zero insn cir s x h found e =
      listed_zero env tail_call_entries s x e
  interpret_disassemble-Executes (suc fuel) insn cir s x h found e =
      listed_suc env tail_call_entries s _ x
        (λ running e'.
          let (read, known) = handler_call-eq-ok s found in
          let (s', ran, e₁) = >>=-eq-ok (exec env insn cir s) _ e' in
          let ((c, i), found', e₂) = >>=-eq-ok (handler_call (next s')) _ e₁ in
          let (r, rest, same) = >>=-eq-ok (interpret_disassemble env fuel i c (next s')) _ e₂ in
          let after = next-IsSound env insn cir s s' h ran in
          listed_round env tail_call_entries insn cir (format insn cir s.mips ∷ exec_lines insn s) s
            s' r x running read known ran
            (ap₂ (λ y xs. y ∷ xs) (reads_as env insn cir _ s s h h read refl)
              (read_lines-exec_lines insn s))
            (interpret_disassemble-Executes fuel i c (next s') r after found' rest)
            (ok-injective same))
        e

  -- A listing of tail-call.c, read back, is the run in the same way.
  pub interpreter_tail_call_disassemble-Executes :
      (fuel : ℕ) (s : Machine) (x : Listed)
      → IsSound s
      → interpreter_tail_call_disassemble env fuel s ≡ ok x
      → Executes env tail_call_entries s (map read_line x.1) x.0
  unfolding interpreter_tail_call_disassemble
  interpreter_tail_call_disassemble-Executes fuel s x h e =
      let ((cir, insn), found, go) = >>=-eq-ok (handler_call s) _ e in
      interpret_disassemble-Executes fuel insn cir s x h found go

  -- A listing of computed-goto.c, read back, has the words of the run in the order of execution, each
  -- behind the line of an mprotect call if the instruction makes one, but beside each word stands
  -- the address of the instruction that is executed next: from a sound machine, when the
  -- interpreter returns.
  pub interpreter_computed_goto_disassemble-Executes :
      (fuel : ℕ) (s : Machine) (x : Listed)
      → IsSound s
      → interpreter_computed_goto_disassemble env fuel s ≡ ok x
      → Executes env computed_goto_entries s (map read_line x.1) x.0
  unfolding interpreter_computed_goto_disassemble
  interpreter_computed_goto_disassemble-Executes zero s x h e =
      listed_zero env computed_goto_entries s x e
  interpreter_computed_goto_disassemble-Executes (suc fuel) s x h e =
      listed_suc env computed_goto_entries s _ x
        (λ running e'.
          let (cir, read, e₁) = >>=-eq-ok (memory_read_u32 s.memory (s.mips.r mips_r_pc)) _ e' in
          let (insn, found, e₂) = >>=-eq-ok (label_of cir) _ e₁ in
          let (s', ran, e₃) = >>=-eq-ok (exec env insn cir s) _ e₂ in
          let (r, rest, same) =
            >>=-eq-ok (interpreter_computed_goto_disassemble env fuel (next s')) _ e₃ in
          let after = next-IsSound env insn cir s s' h ran in
          listed_round env computed_goto_entries insn cir
            (exec_lines insn s ++ (format insn cir (next s').mips ∷ [])) s s' r x running read
            (label_of-eq-ok cir found) ran
            (read_behind insn s _ _ (reads_as env insn cir _ s (next s') h after read refl))
            (interpreter_computed_goto_disassemble-Executes fuel (next s') r after rest)
            (ok-injective same))
        e
