-- ===== src/Interp/ComputedGoto.antt =====
-- The interpreter of computed-goto.c, lines 11-118. It is the `switch` interpreter with another
-- dispatch.
use comparing_complexity_and.Base.{
  ℕ, zero, suc, ◌==◌, ◌≡◌, ◌≢◌, ◌⊎◌, inl, inr, refl, ap, ◌∙◌, Bool, true, false, Bool-cases,
  >>=_assoc, arith, if◌then◌else◌, Option, none, some, Result, ok, aborted, fault, timeout, ◌>>=◌,
  find_case, deref,
}
use mathlib.Core.Option
use comparing_complexity_and.Insn.{
  Insn, op_field, fn_field, rt_field, instructions_primary, instructions_secondary,
  instructions_branch,
}
use comparing_complexity_and.Machine.{increment_pc, mips_r_pc}
use comparing_complexity_and.Memory.{memory_read_u32}
use comparing_complexity_and.Host.{Env, Machine, set_mips}
use comparing_complexity_and.Instr.Exec.{exec}
use comparing_complexity_and.Interp.Tables.{
  do_insn, primary, secondary, branch, array_get, label_of,
}
use comparing_complexity_and.Interp.Switch.{
  or_abort, switch_dispatch, switch_step, interpreter_switch,
}

-- `DISPATCH`, the labelled block that it jumps to, and the `DISPATCH` at that block's end.
unfoldable pub interpreter_computed_goto : Env → ℕ → Machine → Result Machine
interpreter_computed_goto env zero s = if s.mips.halted then ok s else timeout
interpreter_computed_goto env (suc fuel) s = if s.mips.halted then ok s else do
  cir ← memory_read_u32 s.memory (s.mips.r mips_r_pc)
  insn ← label_of cir
  s' ← exec env insn cir s
  interpreter_computed_goto env fuel (set_mips (increment_pc s'.mips) s')

branch-agrees : (rt : ℕ) → array_get branch rt ≡ find_case instructions_branch rt
unfolding array_get find_case
branch-agrees rt = ground arith

secondary-agrees : (fn : ℕ) → array_get secondary fn ≡ find_case instructions_secondary fn
unfolding array_get find_case
secondary-agrees fn = ground arith

primary-agrees :
    (op : ℕ)
    → op ≢ 0
    → op ≢ 1
    → array_get primary op ≡ Option.map do_insn (find_case instructions_primary op)
unfolding array_get find_case
primary-agrees op h k = ground arith

-- Where one interpreter aborts, the other jumps through a null pointer.
abbrev pub null_jump {ℓ} : {A : Type ℓ} → Result A → Result A
null_jump (ok a) = ok a
null_jump aborted = fault
null_jump fault = fault
null_jump timeout = timeout

deref-null_jump {ℓ} : {A : Type ℓ} (o : Option A) → deref o ≡ null_jump (or_abort o)
deref-null_jump none = refl
deref-null_jump (some a) = refl

label_of_insn :
    (o : Option Insn) (cir : ℕ)
    → array_get primary (op_field cir) ≡ Option.map do_insn o
    → label_of cir ≡ null_jump (or_abort o)
unfolding label_of
label_of_insn none cir e = rw e
label_of_insn (some insn) cir e = rw e

-- The arrays lead to the block that the `switch` selects, for every instruction word.
pub label_of-switch_dispatch : (cir : ℕ) → label_of cir ≡ null_jump (switch_dispatch cir)
unfolding label_of switch_dispatch
label_of-switch_dispatch cir = elim (Bool-cases (op_field cir == 0)) [
  | inl zero_op ↦
      let e : op_field cir ≡ 0 = ground arith in
      rw e (
        ap deref (secondary-agrees (fn_field cir))
        ∙ deref-null_jump (find_case instructions_secondary (fn_field cir)))
  | inr other ↦ elim (Bool-cases (op_field cir == 1)) [
    | inl one_op ↦
        let e : op_field cir ≡ 1 = ground arith in
        rw e (
          ap deref (branch-agrees (rt_field cir))
          ∙ deref-null_jump (find_case instructions_branch (rt_field cir)))
    | inr third ↦
        rw (other, third)
          (label_of_insn (find_case instructions_primary (op_field cir)) cir
            (primary-agrees (op_field cir) (ground arith) (ground arith)))
  ]
]

-- The same outcome, or an abort on the left where there is a stray jump on the right.
abbrev pub SameOrStray {ℓ} : {A : Type ℓ} → Result A → Result A → Type ℓ
SameOrStray r r' = (r ≡ r') ⊎ ((r ≡ aborted) × (r' ≡ fault))

pub SameOrStray-bind {ℓ κ} :
    {A : Type ℓ} {B : Type κ} (r : Result A) (f g : A → Result B)
    → ((a : A) → SameOrStray (f a) (g a))
    → SameOrStray (r >>= f) (r >>= g)
SameOrStray-bind (ok a) f g h = h a
SameOrStray-bind aborted f g h = inl refl
SameOrStray-bind fault f g h = inl refl
SameOrStray-bind timeout f g h = inl refl

SameOrStray-null_jump {ℓ κ} :
    {A : Type ℓ} {B : Type κ} (r : Result A) (f g : A → Result B)
    → ((a : A) → SameOrStray (f a) (g a))
    → SameOrStray (r >>= f) (null_jump r >>= g)
SameOrStray-null_jump (ok a) f g h = h a
SameOrStray-null_jump aborted f g h = inr (refl, refl)
SameOrStray-null_jump fault f g h = inl refl
SameOrStray-null_jump timeout f g h = inl refl

SameOrStray-halted :
    (b : Bool) (s : Machine) {r r' : Result Machine}
    → SameOrStray r r'
    → SameOrStray (if b then ok s else r) (if b then ok s else r')
SameOrStray-halted true s h = inl refl
SameOrStray-halted false s h = h

-- On every machine, for every number of instructions, the computed-goto interpreter comes to the
-- same outcome as the `switch` interpreter: the same final machine with the same host calls, the
-- same fault or the same shortage of fuel. Only where the `switch` interpreter aborts may it go
-- through a null or out-of-range label instead.
pub interpreter_computed_goto-interpreter_switch :
    (env : Env) (fuel : ℕ) (s : Machine)
    → SameOrStray (interpreter_switch env fuel s) (interpreter_computed_goto env fuel s)
unfolding interpreter_switch interpreter_computed_goto switch_step
interpreter_computed_goto-interpreter_switch env zero s = inl refl
interpreter_computed_goto-interpreter_switch env (suc fuel) s = SameOrStray-halted s.mips.halted s (
    rw >>=_assoc (
      SameOrStray-bind (memory_read_u32 s.memory (s.mips.r mips_r_pc)) _ _ λ cir.
        rw (label_of-switch_dispatch cir, >>=_assoc)
          (SameOrStray-null_jump (switch_dispatch cir) _ _ λ insn. rw >>=_assoc (
            SameOrStray-bind (exec env insn cir s) _ _ λ s'.
              interpreter_computed_goto-interpreter_switch env fuel
                (set_mips (increment_pc s'.mips) s')))))
