-- ===== src/Disasm/Rounds.antt =====
-- The rounds of a run and the entries of a listing for them.
use comparing_complexity_and.Base.{
  ℕ, ◌≡◌, sym, ap, ap₂, ◌∙◌, true, false, Bool-cases, inl, inr, if◌then◌else◌, if-true, if-false,
  List, [], ◌∷◌, ◌++◌, map, Result, ok, timeout, ok-injective, timeout-ne-ok, subst,
}
use mathlib.Core.List.{map-append}
use comparing_complexity_and.Insn.{Insn}
use comparing_complexity_and.Machine.{mips_r_pc}
use comparing_complexity_and.Memory.{memory_read_u32}
use comparing_complexity_and.Memory.Bytes.{memory_read_u32-lt}
use comparing_complexity_and.Host.{Env, Machine}
use comparing_complexity_and.Host.Sound.{IsSound, set_mips-IsSound}
use comparing_complexity_and.Instr.Exec.{exec}
use comparing_complexity_and.Instr.Every.{exec-IsSound}
use comparing_complexity_and.Instr.Preserve.{increment_pc-KeepsSound}
use comparing_complexity_and.Interp.Switch.{switch_dispatch}
use comparing_complexity_and.Disasm.Format.{format}
use comparing_complexity_and.Disasm.Reading.{
  Entry, executed, printed, read_line, read_line-format, read_lines-exec_lines,
}
use comparing_complexity_and.Disasm.Calls.{exec_lines}
use comparing_complexity_and.Disasm.Listing.{Listed, listed, next}

-- A run to a machine that has halted, by the entries of its instructions in a listing. `shown` takes
-- these from the instruction, its word, which is read at the program counter, and the machines
-- before and behind it.
pub data Executes (env : Env) (shown : Insn → ℕ → Machine → Machine → List Entry)
    : Machine → List Entry → Machine → Type 0 where
  stops : {s : Machine} → s.mips.halted ≡ true → Executes env shown s [] s
  round :
      {s s' u : Machine} {cir : ℕ} {insn : Insn} {entries : List Entry}
      → s.mips.halted ≡ false
      → memory_read_u32 s.memory (s.mips.r mips_r_pc) ≡ ok cir
      → switch_dispatch cir ≡ ok insn
      → exec env insn cir s ≡ ok s'
      → Executes env shown (next s') entries u
      → Executes env shown s (shown insn cir s (next s') ++ entries) u

-- switch.c: what the implementation prints, then the word with the instruction's own address;
-- computed-goto.c has the address of the next instruction, and tail-call.c the other order.
abbrev pub switch_entries : Insn → ℕ → Machine → Machine → List Entry
switch_entries insn cir s t =
    map printed (exec_lines insn s) ++ (executed (s.mips.r mips_r_pc) cir ∷ [])

abbrev pub computed_goto_entries : Insn → ℕ → Machine → Machine → List Entry
computed_goto_entries insn cir s t =
    map printed (exec_lines insn s) ++ (executed (t.mips.r mips_r_pc) cir ∷ [])

abbrev pub tail_call_entries : Insn → ℕ → Machine → Machine → List Entry
tail_call_entries insn cir s t = executed (s.mips.r mips_r_pc) cir ∷ map printed (exec_lines insn s)

-- A line behind what an implementation prints, read back.
pub read_behind :
    (insn : Insn) (s : Machine) (text : List ℕ) (entry : Entry)
    → read_line text ≡ entry
    → map read_line (exec_lines insn s ++ (text ∷ []))
      ≡ map printed (exec_lines insn s) ++ (entry ∷ [])
read_behind insn s text entry e =
    map-append read_line (exec_lines insn s) (text ∷ [])
    ∙ ap₂ (λ xs y. xs ++ (y ∷ [])) (read_lines-exec_lines insn s) e

module _ (env : Env) where
  pub next-IsSound :
      (insn : Insn) (cir : ℕ) (s s' : Machine)
      → IsSound s
      → exec env insn cir s ≡ ok s'
      → IsSound (next s')
  next-IsSound insn cir s s' h ran =
      let after = exec-IsSound env insn cir s s' h ran in
      set_mips-IsSound _ s' (increment_pc-KeepsSound s'.mips after.mips) after

  -- A round whose lines read as the round's entries, in front of a listing that reads as a run.
  pub listed_round :
      (shown : Insn → ℕ → Machine → Machine → List Entry) (insn : Insn) (cir : ℕ)
      (lines : List (List ℕ)) (s s' : Machine) (r x : Listed)
      → s.mips.halted ≡ false
      → memory_read_u32 s.memory (s.mips.r mips_r_pc) ≡ ok cir
      → switch_dispatch cir ≡ ok insn
      → exec env insn cir s ≡ ok s'
      → map read_line lines ≡ shown insn cir s (next s')
      → Executes env shown (next s') (map read_line r.1) r.0
      → listed lines r ≡ x
      → Executes env shown s (map read_line x.1) x.0
  listed_round shown insn cir lines s s' r x running read known ran reads rest same =
      subst (λ (x : Listed). Executes env shown s (map read_line x.1) x.0) same
        (subst (λ w. Executes env shown s w r.0)
          (sym (map-append read_line lines r.1 ∙ ap (λ es. es ++ map read_line r.1) reads))
          (round running read known ran rest))

  listed_stop :
      (shown : Insn → ℕ → Machine → Machine → List Entry) (s : Machine) (x : Listed)
      → s.mips.halted ≡ true
      → (s, []) ≡ x
      → Executes env shown s (map read_line x.1) x.0
  listed_stop shown s x halted same =
      subst (λ (x : Listed). Executes env shown s (map read_line x.1) x.0) same (stops halted)

  -- A machine that has halted stops at once, and one that runs out of fuel has no listing.
  pub listed_zero :
      (shown : Insn → ℕ → Machine → Machine → List Entry) (s : Machine) (x : Listed)
      → (if s.mips.halted then ok (s, []) else timeout) ≡ ok x
      → Executes env shown s (map read_line x.1) x.0
  listed_zero shown s x e = elim (Bool-cases s.mips.halted) [
    | inl halted ↦ listed_stop shown s x halted (ok-injective (sym (if-true _ _ halted) ∙ e))
    | inr running ↦ absurd (timeout-ne-ok (sym (if-false (ok (s, [])) timeout running) ∙ e))
  ]

  -- A step that is taken only by a machine that has not halted.
  pub listed_suc :
      (shown : Insn → ℕ → Machine → Machine → List Entry) (s : Machine) (step : Result Listed)
      (x : Listed)
      → (s.mips.halted ≡ false → step ≡ ok x → Executes env shown s (map read_line x.1) x.0)
      → (if s.mips.halted then ok (s, []) else step) ≡ ok x
      → Executes env shown s (map read_line x.1) x.0
  listed_suc shown s step x h e = elim (Bool-cases s.mips.halted) [
    | inl halted ↦ listed_stop shown s x halted (ok-injective (sym (if-true _ _ halted) ∙ e))
    | inr running ↦ h running (sym (if-false (ok (s, [])) step running) ∙ e)
  ]

  -- The line of a round, printed for a machine with the round's address.
  pub reads_as :
      (insn : Insn) (cir address : ℕ) (s m : Machine)
      → IsSound s
      → IsSound m
      → memory_read_u32 s.memory (s.mips.r mips_r_pc) ≡ ok cir
      → m.mips.r mips_r_pc ≡ address
      → read_line (format insn cir m.mips) ≡ executed address cir
  reads_as insn cir address s m h k read e =
      read_line-format insn cir m.mips (k.mips.regs mips_r_pc)
        (memory_read_u32-lt s.memory (s.mips.r mips_r_pc) cir h.bytes read)
      ∙ ap (λ a. executed a cir) e
