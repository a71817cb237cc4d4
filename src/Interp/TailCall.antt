-- ===== src/Interp/TailCall.antt =====
-- The interpreter of tail-call.c, lines 67-138: each handler looks whether the machine has halted,
-- executes, reads the next word and calls that word's handler.
use comparing_complexity_and.Base.{
  ℕ, zero, suc, ◌≡◌, ◌↔◌, sym, ◌∙◌, ap, if◌then◌else◌, Bool-cases, inl, inr, if-true, if-false,
  Result, ok, aborted, fault, timeout, ◌>>=◌, >>=-eq-ok, bind-ok, ok-injective, timeout-ne-ok,
}
use comparing_complexity_and.Insn.{Insn}
use comparing_complexity_and.Machine.{increment_pc, mips_r_pc}
use comparing_complexity_and.Memory.{memory_read_u32}
use comparing_complexity_and.Host.{Env, Machine, set_mips}
use comparing_complexity_and.Instr.Exec.{exec}
use comparing_complexity_and.Interp.Tables.{label_of}
use comparing_complexity_and.Interp.Switch.{switch_dispatch, switch_step, interpreter_switch}
use comparing_complexity_and.Interp.ComputedGoto.{null_jump, label_of-switch_dispatch}

-- A call of the handler that a word selects.
unfoldable pub handler_call : Machine → Result (ℕ × Insn)
handler_call s = do
  cir ← memory_read_u32 s.memory (s.mips.r mips_r_pc)
  insn ← label_of cir
  ok (cir, insn)

-- The chain of tail calls, from a handler on.
unfoldable pub interpret : Env → ℕ → Insn → ℕ → Machine → Result Machine
interpret env zero insn cir s = if s.mips.halted then ok s else timeout
interpret env (suc fuel) insn cir s = if s.mips.halted then ok s else do
  s₁ ← exec env insn cir s
  let s₂ = set_mips (increment_pc s₁.mips) s₁
  (cir', insn') ← handler_call s₂
  interpret env fuel insn' cir' s₂

unfoldable pub interpreter_tail_call : Env → ℕ → Machine → Result Machine
interpreter_tail_call env fuel s = do (cir, insn) ← handler_call s; interpret env fuel insn cir s

pub label_of-eq-ok :
    (cir : ℕ) {insn : Insn} → label_of cir ≡ ok insn → switch_dispatch cir ≡ ok insn
label_of-eq-ok cir e = known (switch_dispatch cir) (sym (label_of-switch_dispatch cir) ∙ e)
  where
    known : (r : Result Insn) {insn : Insn} → null_jump r ≡ ok insn → r ≡ ok insn
    known (ok i) h = h
    known aborted h = cc
    known fault h = cc
    known timeout h = cc

-- A word whose handler is found is one that the `switch` knows.
pub handler_call-eq-ok :
    (s : Machine) {cir : ℕ} {insn : Insn}
    → handler_call s ≡ ok (cir, insn)
    → (memory_read_u32 s.memory (s.mips.r mips_r_pc) ≡ ok cir) × (switch_dispatch cir ≡ ok insn)
unfolding handler_call
handler_call-eq-ok s {cir} {insn} e =
    let (c, read, rest) = >>=-eq-ok (memory_read_u32 s.memory (s.mips.r mips_r_pc)) _ e in
    let (i, found, same) = >>=-eq-ok (label_of c) _ rest in
    let at_c : c ≡ cir = cc in
    let at_i : i ≡ insn = cc in
    (read ∙ ap ok at_c, ap switch_dispatch (sym at_c) ∙ label_of-eq-ok c found ∙ ap ok at_i)

handler_call_of_dispatch :
    (s : Machine) {cir : ℕ} {insn : Insn}
    → memory_read_u32 s.memory (s.mips.r mips_r_pc) ≡ ok cir
    → switch_dispatch cir ≡ ok insn
    → handler_call s ≡ ok (cir, insn)
unfolding handler_call
handler_call_of_dispatch s {cir} e h = rw (e, label_of-switch_dispatch cir, h)

-- One round of the `switch` interpreter, from the word and the instruction that were looked up.
switch_step-handler_call :
    (env : Env) (s : Machine) {cir : ℕ} {insn : Insn}
    → handler_call s ≡ ok (cir, insn)
    → switch_step env s ≡ (exec env insn cir s >>= λ s₁. ok (set_mips (increment_pc s₁.mips) s₁))
unfolding switch_step
switch_step-handler_call env s h = let (read, known) = handler_call-eq-ok s h in rw (read, known)

switch_step-eq-ok :
    (env : Env) (s : Machine) {s' : Machine}
    → switch_step env s ≡ ok s'
    → (w : ℕ × Insn) × (handler_call s ≡ ok w)
unfolding switch_step
switch_step-eq-ok env s e =
    let (cir, read, rest) = >>=-eq-ok (memory_read_u32 s.memory (s.mips.r mips_r_pc)) _ e in
    let (insn, known, _) = >>=-eq-ok (switch_dispatch cir) _ rest in
    ((cir, insn), handler_call_of_dispatch s read known)

-- A run that ends where a handler is found begins where one is.
handler_call_of_run :
    (env : Env) (fuel : ℕ) (s : Machine) {s' : Machine} {w : ℕ × Insn}
    → interpreter_switch env fuel s ≡ ok s'
    → handler_call s' ≡ ok w
    → (v : ℕ × Insn) × (handler_call s ≡ ok v)
unfolding interpreter_switch
handler_call_of_run env zero s {s'} {w} run last = elim (Bool-cases s.mips.halted) [
  | inl stop ↦
      let same : s ≡ s' = ok-injective (sym (if-true (ok s) timeout stop) ∙ run) in
      (w, ap handler_call same ∙ last)
  | inr more ↦ absurd (timeout-ne-ok (sym (if-false (ok s) timeout more) ∙ run))
]
handler_call_of_run env (suc fuel) s {s'} {w} run last = elim (Bool-cases s.mips.halted) [
  | inl stop ↦
      let same : s ≡ s' = ok-injective (sym (if-true (ok s) _ stop) ∙ run) in
      (w, ap handler_call same ∙ last)
  | inr more ↦
      let (s₂, stepped, _) = >>=-eq-ok (switch_step env s) _ (sym (if-false (ok s) _ more) ∙ run) in
      switch_step-eq-ok env s stepped
]

interpret_sound :
    (env : Env) (fuel cir : ℕ) (insn : Insn) (s s' : Machine)
    → handler_call s ≡ ok (cir, insn)
    → interpret env fuel insn cir s ≡ ok s'
    → (interpreter_switch env fuel s ≡ ok s') × ((w : ℕ × Insn) × (handler_call s' ≡ ok w))
unfolding interpret interpreter_switch
interpret_sound env zero cir insn s s' found run = elim (Bool-cases s.mips.halted) [
  | inl stop ↦
      let same : s ≡ s' = ok-injective (sym (if-true (ok s) timeout stop) ∙ run) in
      (run, ((cir, insn), ap handler_call (sym same) ∙ found))
  | inr more ↦ absurd (timeout-ne-ok (sym (if-false (ok s) timeout more) ∙ run))
]
interpret_sound env (suc fuel) cir insn s s' found run = elim (Bool-cases s.mips.halted) [
  | inl stop ↦
      let same : s ≡ s' = ok-injective (sym (if-true (ok s) _ stop) ∙ run) in
      (if-true (ok s) _ stop ∙ ap ok same, ((cir, insn), ap handler_call (sym same) ∙ found))
  | inr more ↦
      let (s₁, ran, rest) =
        >>=-eq-ok (exec env insn cir s) _ (sym (if-false (ok s) _ more) ∙ run) in
      let s₂ = set_mips (increment_pc s₁.mips) s₁ in
      let ((cir', insn'), found', go) = >>=-eq-ok (handler_call s₂) _ rest in
      let ih = interpret_sound env fuel cir' insn' s₂ s' found' go in
      let stepped : switch_step env s ≡ ok s₂ =
        switch_step-handler_call env s found ∙ bind-ok _ ran in
      (if-false (ok s) _ more ∙ (bind-ok _ stepped ∙ ih.0), ih.1)
]

interpret_complete :
    (env : Env) (fuel cir : ℕ) (insn : Insn) (s s' : Machine) (w : ℕ × Insn)
    → handler_call s ≡ ok (cir, insn)
    → interpreter_switch env fuel s ≡ ok s'
    → handler_call s' ≡ ok w
    → interpret env fuel insn cir s ≡ ok s'
unfolding interpret interpreter_switch
interpret_complete env zero cir insn s s' w found run last = run
interpret_complete env (suc fuel) cir insn s s' w found run last = elim (Bool-cases s.mips.halted) [
  | inl stop ↦ if-true (ok s) _ stop ∙ (sym (if-true (ok s) _ stop) ∙ run)
  | inr more ↦
      let (s₂, stepped, rest) =
        >>=-eq-ok (switch_step env s) _ (sym (if-false (ok s) _ more) ∙ run) in
      let (s₁, ran, next) =
        >>=-eq-ok (exec env insn cir s) _ (sym (switch_step-handler_call env s found) ∙ stepped) in
      let at_s₂ : set_mips (increment_pc s₁.mips) s₁ ≡ s₂ = ok-injective next in
      let ((cir', insn'), found') = handler_call_of_run env fuel s₂ rest last in
      let ih = interpret_complete env fuel cir' insn' s₂ s' w found' rest last in
      if-false (ok s) _ more ∙ (rw (ran, at_s₂, found') ih)
]

-- The tail-call interpreter ends with a machine exactly when the `switch` interpreter ends with
-- the same machine on the same fuel, and a handler is found for the word at the final program
-- counter: each handler fetches the next word and calls its handler before that one looks whether
-- the machine has halted.
pub interpreter_tail_call-interpreter_switch :
    (env : Env) (fuel : ℕ) (s s' : Machine)
    → (interpreter_tail_call env fuel s ≡ ok s')
      ↔ ((interpreter_switch env fuel s ≡ ok s') × ((w : ℕ × Insn) × (handler_call s' ≡ ok w)))
unfolding interpreter_tail_call
interpreter_tail_call-interpreter_switch env fuel s s' = (
  λ run.
      let ((cir, insn), found, go) = >>=-eq-ok (handler_call s) _ run in
      interpret_sound env fuel cir insn s s' found go,
  λ (run, (w, last)).
      let ((cir, insn), found) = handler_call_of_run env fuel s run last in
      rw found (interpret_complete env fuel cir insn s s' w found run last),
)
