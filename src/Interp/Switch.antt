-- ===== src/Interp/Switch.antt =====
-- The interpreter of switch.c, lines 24-105.
use comparing_complexity_and.Base.{
  ℕ, zero, suc, ◌==◌, if◌then◌else◌, Option, none, some, Result, ok, aborted, timeout, ◌>>=◌,
  find_case,
}
use comparing_complexity_and.Insn.{
  Insn, op_field, fn_field, rt_field, instructions_primary, instructions_secondary,
  instructions_branch,
}
use comparing_complexity_and.Machine.{increment_pc, mips_r_pc}
use comparing_complexity_and.Memory.{memory_read_u32}
use comparing_complexity_and.Host.{Env, Machine, set_mips}
use comparing_complexity_and.Instr.Exec.{exec}

-- A `default:` label: a message and `abort()`.
abbrev pub or_abort {ℓ} : {A : Type ℓ} → Option A → Result A
or_abort none = aborted
or_abort (some a) = ok a

-- The nested `switch`: cases 0 and 1 lead to the inner ones.
unfoldable pub switch_dispatch : ℕ → Result Insn
unfolding find_case
switch_dispatch cir =
    if op_field cir == 0
    then or_abort (find_case instructions_secondary (fn_field cir))
    else if op_field cir == 1
    then or_abort (find_case instructions_branch (rt_field cir))
    else or_abort (find_case instructions_primary (op_field cir))

-- The body of the loop.
unfoldable pub switch_step : Env → Machine → Result Machine
switch_step env s = do
  cir ← memory_read_u32 s.memory (s.mips.r mips_r_pc)
  insn ← switch_dispatch cir
  s' ← exec env insn cir s
  ok (set_mips (increment_pc s'.mips) s')

-- `for (; !mips->halted; )`.
unfoldable pub interpreter_switch : Env → ℕ → Machine → Result Machine
interpreter_switch env zero s = if s.mips.halted then ok s else timeout
interpreter_switch env (suc fuel) s =
    if s.mips.halted then ok s else do s' ← switch_step env s; interpreter_switch env fuel s'
