-- ===== src/Disasm/Listing.antt =====
-- The interpreters built with `__DISASSEMBLE__`: each also prints a line for every instruction, by
-- the instruction's formatter. switch.c calls it behind the implementation, computed-goto.c behind
-- `INCREMENT_PC`, and tail-call.c before the implementation, which can print a line of its own.
use comparing_complexity_and.Base.{
  ℕ, zero, suc, ◌≡◌, refl, sym, ap, ◌∙◌, fun_ext, Bool, true, false, if◌then◌else◌, List, [], ◌∷◌,
  ◌++◌, Result, ok, timeout, ◌>>=◌, >>=_assoc,
}
use comparing_complexity_and.Insn.{Insn}
use comparing_complexity_and.Machine.{increment_pc, mips_r_pc}
use comparing_complexity_and.Memory.{memory_read_u32}
use comparing_complexity_and.Host.{Env, Machine, set_mips}
use comparing_complexity_and.Instr.Exec.{exec}
use comparing_complexity_and.Interp.Tables.{label_of}
use comparing_complexity_and.Interp.Switch.{switch_dispatch, switch_step, interpreter_switch}
use comparing_complexity_and.Interp.ComputedGoto.{interpreter_computed_goto}
use comparing_complexity_and.Interp.TailCall.{handler_call, interpret, interpreter_tail_call}
use comparing_complexity_and.Disasm.Calls.{exec_lines}
use comparing_complexity_and.Disasm.Format.{format}

-- A machine, and the lines printed on the way to it.
abbrev pub Listed : Type 0
Listed = Machine × List (List ℕ)

abbrev pub listed : List (List ℕ) → Listed → Listed
listed lines r = (r.0, lines ++ r.1)

abbrev pub next : Machine → Machine
next s = set_mips (increment_pc s.mips) s

unfoldable pub switch_step_disassemble : Env → Machine → Result (Machine × List (List ℕ))
switch_step_disassemble env s = do
  cir ← memory_read_u32 s.memory (s.mips.r mips_r_pc)
  insn ← switch_dispatch cir
  s' ← exec env insn cir s
  let lines = exec_lines insn s ++ (format insn cir s'.mips ∷ [])
  ok (next s', lines)

unfoldable pub interpreter_switch_disassemble : Env → ℕ → Machine → Result Listed
interpreter_switch_disassemble env zero s = if s.mips.halted then ok (s, []) else timeout
interpreter_switch_disassemble env (suc fuel) s = if s.mips.halted then ok (s, []) else do
  (t, lines) ← switch_step_disassemble env s
  r ← interpreter_switch_disassemble env fuel t
  ok (listed lines r)

unfoldable pub interpreter_computed_goto_disassemble : Env → ℕ → Machine → Result Listed
interpreter_computed_goto_disassemble env zero s = if s.mips.halted then ok (s, []) else timeout
interpreter_computed_goto_disassemble env (suc fuel) s = if s.mips.halted then ok (s, []) else do
  cir ← memory_read_u32 s.memory (s.mips.r mips_r_pc)
  insn ← label_of cir
  s' ← exec env insn cir s
  let t = next s'
  let lines = exec_lines insn s ++ (format insn cir t.mips ∷ [])
  r ← interpreter_computed_goto_disassemble env fuel t
  ok (listed lines r)

unfoldable pub interpret_disassemble : Env → ℕ → Insn → ℕ → Machine → Result Listed
interpret_disassemble env zero insn cir s = if s.mips.halted then ok (s, []) else timeout
interpret_disassemble env (suc fuel) insn cir s = if s.mips.halted then ok (s, []) else do
  let lines = format insn cir s.mips ∷ exec_lines insn s
  s₁ ← exec env insn cir s
  let s₂ = next s₁
  (cir', insn') ← handler_call s₂
  r ← interpret_disassemble env fuel insn' cir' s₂
  ok (listed lines r)

unfoldable pub interpreter_tail_call_disassemble : Env → ℕ → Machine → Result Listed
interpreter_tail_call_disassemble env fuel s = do
  (cir, insn) ← handler_call s
  interpret_disassemble env fuel insn cir s

-- The machine of a listed run, or of a listed step.
abbrev pub run_of : {B : Type 0} → Result (Machine × B) → Result Machine
run_of r = r >>= λ x. ok x.0

run_of-if :
    {B : Type 0} (b : Bool) (x : Machine × B) (r : Result (Machine × B)) (r' : Result Machine)
    → run_of r ≡ r'
    → run_of (if b then ok x else r) ≡ (if b then ok x.0 else r')
run_of-if true x r r' h = refl
run_of-if false x r r' h = h

run_of-bind {ℓ} :
    {A : Type ℓ} {B : Type 0} (m : Result A) (f : A → Result (Machine × B)) (g : A → Result Machine)
    → ((a : A) → run_of (f a) ≡ g a)
    → run_of (m >>= f) ≡ (m >>= g)
run_of-bind m f g h = >>=_assoc m f _ ∙ ap (λ k. m >>= k) (fun_ext h)

-- Lines do not change the run behind them.
run_of-listed :
    (lines : List (List ℕ)) (r : Result Listed) → run_of (r >>= λ x. ok (listed lines x)) ≡ run_of r
run_of-listed lines r = >>=_assoc r _ _

module _ (env : Env) where
  switch_step_disassemble-run :
      (s : Machine) → run_of (switch_step_disassemble env s) ≡ switch_step env s
  unfolding switch_step_disassemble switch_step
  switch_step_disassemble-run s =
      run_of-bind (memory_read_u32 s.memory (s.mips.r mips_r_pc)) _ _ λ cir.
        run_of-bind (switch_dispatch cir) _ _
          λ insn. run_of-bind (exec env insn cir s) _ _ λ s'. refl

  pub interpreter_switch_disassemble-run :
      (fuel : ℕ) (s : Machine)
      → run_of (interpreter_switch_disassemble env fuel s) ≡ interpreter_switch env fuel s
  unfolding interpreter_switch_disassemble interpreter_switch
  interpreter_switch_disassemble-run zero s = run_of-if s.mips.halted (s, []) timeout timeout refl
  interpreter_switch_disassemble-run (suc fuel) s =
      run_of-if s.mips.halted (s, []) _ _
        (run_of-bind (switch_step_disassemble env s) _ (λ x. interpreter_switch env fuel x.0)
            (λ (t, lines).
              run_of-listed lines (interpreter_switch_disassemble env fuel t)
              ∙ interpreter_switch_disassemble-run fuel t)
          ∙ sym (>>=_assoc (switch_step_disassemble env s) _ _)
          ∙ ap (λ r. r >>= interpreter_switch env fuel) (switch_step_disassemble-run s))

  pub interpreter_computed_goto_disassemble-run :
      (fuel : ℕ) (s : Machine)
      → run_of (interpreter_computed_goto_disassemble env fuel s)
        ≡ interpreter_computed_goto env fuel s
  unfolding interpreter_computed_goto_disassemble interpreter_computed_goto
  interpreter_computed_goto_disassemble-run zero s =
      run_of-if s.mips.halted (s, []) timeout timeout refl
  interpreter_computed_goto_disassemble-run (suc fuel) s =
      run_of-if s.mips.halted (s, []) _ _
        (run_of-bind (memory_read_u32 s.memory (s.mips.r mips_r_pc)) _ _ λ cir.
          run_of-bind (label_of cir) _ _ λ insn. run_of-bind (exec env insn cir s) _ _ λ s'.
            run_of-listed (exec_lines insn s ++ (format insn cir (next s').mips ∷ []))
              (interpreter_computed_goto_disassemble env fuel (next s'))
            ∙ interpreter_computed_goto_disassemble-run fuel (next s'))

  interpret_disassemble-run :
      (fuel : ℕ) (insn : Insn) (cir : ℕ) (s : Machine)
      → run_of (interpret_disassemble env fuel insn cir s) ≡ interpret env fuel insn cir s
  unfolding interpret_disassemble interpret
  interpret_disassemble-run zero insn cir s = run_of-if s.mips.halted (s, []) timeout timeout refl
  interpret_disassemble-run (suc fuel) insn cir s =
      run_of-if s.mips.halted (s, []) _ _
        (run_of-bind (exec env insn cir s) _ _ λ s₁.
          run_of-bind (handler_call (next s₁)) _ _ λ (c, i).
            run_of-listed (format insn cir s.mips ∷ exec_lines insn s)
              (interpret_disassemble env fuel i c (next s₁))
            ∙ interpret_disassemble-run fuel i c (next s₁))

  pub interpreter_tail_call_disassemble-run :
      (fuel : ℕ) (s : Machine)
      → run_of (interpreter_tail_call_disassemble env fuel s) ≡ interpreter_tail_call env fuel s
  unfolding interpreter_tail_call_disassemble interpreter_tail_call
  interpreter_tail_call_disassemble-run fuel s =
      run_of-bind (handler_call s) _ _ λ (cir, insn). interpret_disassemble-run fuel insn cir s

  -- The interpreters of switch.c, computed-goto.c and tail-call.c come to the same outcome when
  -- they are built to print a listing as when they are not: on every machine, with every fuel, the
  -- same final machine or the same failure.
  pub interpreters_disassemble_lem :
      (fuel : ℕ) (s : Machine)
      → (run_of (interpreter_switch_disassemble env fuel s) ≡ interpreter_switch env fuel s)
        × (run_of (interpreter_computed_goto_disassemble env fuel s)
            ≡ interpreter_computed_goto env fuel s)
        × (run_of (interpreter_tail_call_disassemble env fuel s) ≡ interpreter_tail_call env fuel s)
  interpreters_disassemble_lem fuel s = (
    interpreter_switch_disassemble-run fuel s,
    interpreter_computed_goto_disassemble-run fuel s,
    interpreter_tail_call_disassemble-run fuel s,
  )
