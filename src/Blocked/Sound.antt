-- ===== src/Blocked/Sound.antt =====
-- Runs of blocks, and of `interpreter_blocked` (blocked.c), keep the machine sound.
use comparing_complexity_and.Base.{
  ℕ, ◌^◌, ◌<◌, ◌≡◌, List, [], ◌∷◌, ok, >>=-eq-ok, ok-injective, sym, ◌∙◌, arith, subst,
}
use comparing_complexity_and.Machine.{set_r, mips_r_pc, mips_r_nnpc}
use comparing_complexity_and.Host.{Env, Machine, set_mips}
use comparing_complexity_and.Host.Sound.{IsSound, set_r-IsSoundMips, set_mips-IsSound}
use comparing_complexity_and.Instr.Exec.{exec}
use comparing_complexity_and.Instr.Every.{exec-IsSound}
use comparing_complexity_and.Blocked.{Block, run_block}
use comparing_complexity_and.Blocked.Chain.{HashTable, interpreter_blocked}
use comparing_complexity_and.Blocked.Duff.{Word, run_words}
use comparing_complexity_and.Blocked.Decode.{IsDecoded, run_block-IsDecoded}
use comparing_complexity_and.Blocked.Simulation.{block_start}
use comparing_complexity_and.Blocked.Cache.{Runs, here, next}
use comparing_complexity_and.Blocked.Runs.{interpreter_blocked-Ends}

module _ (env : Env) where
  run_words-IsSound :
      (ws : List Word) (s s' : Machine) → IsSound s → run_words env ws s ≡ ok s' → IsSound s'
  unfolding run_words
  run_words-IsSound [] s s' h e = subst IsSound (ok-injective e) h
  run_words-IsSound ((cir, insn) ∷ ws) s s' h e =
      let (t, ran, rest) = >>=-eq-ok (exec env insn cir s) _ e in
      run_words-IsSound ws t s' (exec-IsSound env insn cir s t h ran) rest

  -- `%pc` set by the interpreter itself.
  set_pc-IsSound :
      (v : ℕ) (s : Machine)
      → v < 2 ^ 32
      → IsSound s
      → IsSound (set_mips (set_r mips_r_pc v s.mips) s)
  set_pc-IsSound v s fits h =
      set_mips-IsSound _ s (set_r-IsSoundMips mips_r_pc v s.mips fits h.mips) h

  run_block-IsSound :
      (s s₀ s' : Machine) (block : Block)
      → IsDecoded s₀ block
      → IsSound s
      → run_block env block s ≡ ok s'
      → IsSound s'
  run_block-IsSound s s₀ s' block d h e =
      let (t, ran, same) =
        >>=-eq-ok (run_words env d.ws (block_start d.ws s)) _
          (sym (run_block-IsDecoded env s s₀ block d) ∙ e) in
      let after =
        run_words-IsSound d.ws (block_start d.ws s) t (set_pc-IsSound _ s (omega arith) h) ran in
      subst IsSound (ok-injective same)
        (set_pc-IsSound (t.mips.r mips_r_nnpc) t (after.mips.regs mips_r_nnpc) after)

  pub Runs-IsSound : (start : Machine) {s : Machine} → IsSound start → Runs env start s → IsSound s
  Runs-IsSound start h here = h
  Runs-IsSound start h
        (next {t = t} {s₀ = s₀} {u = u} {block = block} reached running from d address ran) =
      run_block-IsSound t s₀ u block d (Runs-IsSound start h reached) ran

  -- A run of the blocked interpreter that returns, from a sound machine, ends with a sound one.
  interpreter_blocked-IsSound :
      (hash : HashTable) (decode_fuel fuel : ℕ) (s s' : Machine)
      → IsSound s
      → interpreter_blocked hash env decode_fuel fuel s ≡ ok s'
      → IsSound s'
  interpreter_blocked-IsSound hash decode_fuel fuel s s' h e =
      Runs-IsSound s h (interpreter_blocked-Ends hash env decode_fuel s fuel s' e).0
