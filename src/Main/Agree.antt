-- ===== src/Main/Agree.antt =====
-- What the programs (`main` of switch.c, computed-goto.c, tail-call.c and blocked.c) return, next to
-- each other.
use comparing_complexity_and.Base.{
  ℕ, ◌≡◌, ◌==◌, inl, inr, refl, sym, ap, ◌∙◌, Bool, true, false, if◌then◌else◌, Bool-cases, if-true,
  if-false, [], Result, ok, ◌>>=◌, >>=-eq-ok, bind-ok,
}
use comparing_complexity_and.Memory.{zeroed_memory, memory_create}
use comparing_complexity_and.Host.{Env, Machine}
use comparing_complexity_and.Interp.Switch.{interpreter_switch}
use comparing_complexity_and.Interp.ComputedGoto.{
  SameOrStray, SameOrStray-bind, interpreter_computed_goto-interpreter_switch,
}
use comparing_complexity_and.Interp.TailCall.{
  interpreter_tail_call, interpreter_tail_call-interpreter_switch,
}
use comparing_complexity_and.Loader.{ElfFile}
use comparing_complexity_and.Loader.Stack.{loader_elf}
use comparing_complexity_and.Main.{
  Exit, zeroed_mips, status_of, loaded_and_run, usage, memory_delete, main_switch,
  main_computed_goto, main_tail_call,
}

abbrev pub exit_of : (Machine → ℕ) → Machine → Exit
exit_of code s = record { code = code s; calls = s.calls; freed = memory_delete s.memory }

SameOrStray-if :
    (test : Bool) {r r' : Result Exit}
    → SameOrStray r r'
    → SameOrStray (if test then r else ok usage) (if test then r' else ok usage)
SameOrStray-if true h = h
SameOrStray-if false h = inl refl

SameOrStray-then :
    (f : Machine → Exit) {r r' : Result Machine}
    → SameOrStray r r'
    → SameOrStray (r >>= λ s. ok (f s)) (r' >>= λ s. ok (f s))
SameOrStray-then f (inl same) = inl (ap (λ r. r >>= λ s. ok (f s)) same)
SameOrStray-then f (inr (stops, strays)) = inr (rw stops, rw strays)

-- Runs that agree where they return come to the same `Exit`.
loaded_and_run-compare :
    (run run' : Machine → Result Machine) (elf : ElfFile) (x : Exit)
    → ((s s' : Machine) → run s ≡ ok s' → run' s ≡ ok s')
    → loaded_and_run run status_of elf ≡ ok x
    → loaded_and_run run' status_of elf ≡ ok x
loaded_and_run-compare run run' elf x agree e =
    let ((mips, memory), loaded, rest) =
      >>=-eq-ok (loader_elf elf (zeroed_mips, memory_create zeroed_memory)) _ e in
    let s : Machine = record { mips = mips; memory = memory; calls = [] } in
    let (s', ran, same) = >>=-eq-ok (run s) _ rest in
    bind-ok _ loaded ∙ bind-ok (λ s. ok (exit_of status_of s)) (agree s s' ran) ∙ same

module _ (env : Env) (elf : ElfFile) (fuel argc : ℕ) where
  -- The programs of switch.c and computed-goto.c, on the same file and arguments, come to the same
  -- outcome: the value returned, the host calls and what is freed, or the same failure; only where
  -- the first one aborts may the second one jump through a null or out-of-range label instead.
  pub main_computed_goto-main_switch :
      SameOrStray (main_switch env elf fuel argc) (main_computed_goto env elf fuel argc)
  unfolding main_switch main_computed_goto
  main_computed_goto-main_switch = SameOrStray-if (argc == 2) (
      SameOrStray-bind (loader_elf elf (zeroed_mips, memory_create zeroed_memory)) _ _ λ r.
        SameOrStray-then (exit_of status_of) (
          interpreter_computed_goto-interpreter_switch env fuel
            (record { mips = r.0; memory = r.1; calls = [] })))

  -- When the program of tail-call.c returns, that of switch.c returns the same, with the same host
  -- calls and frees.
  pub main_tail_call-main_switch :
      (x : Exit) → main_tail_call env elf fuel argc ≡ ok x → main_switch env elf fuel argc ≡ ok x
  unfolding main_switch main_tail_call
  main_tail_call-main_switch x e = elim (Bool-cases (argc == 2)) [
    | inl two ↦
        if-true _ _ two
        ∙ loaded_and_run-compare (interpreter_tail_call env fuel) (interpreter_switch env fuel) elf
            x (λ s s' ran. ((interpreter_tail_call-interpreter_switch env fuel s s').0 ran).0)
            (sym (if-true _ _ two) ∙ e)
    | inr other ↦ if-false _ _ other ∙ sym (if-false _ _ other) ∙ e
  ]
