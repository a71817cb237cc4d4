-- ===== src/Main/Blocked.antt =====
-- The program of blocked.c against that of switch.c, from the file on (`main` of each).
use comparing_complexity_and.Base.{
  ℕ, ◌+◌, ◌≡◌, refl, sym, ap, ap₂, ◌∙◌, arith, List, [], ok, ◌>>=◌, >>=-eq-ok, bind-ok,
  ok-injective,
}
use comparing_complexity_and.Word.{u32}
use comparing_complexity_and.Machine.{mips_r_pc, mips_r_npc, mips_r_nnpc}
use comparing_complexity_and.Memory.{zeroed_memory, memory_create, memory_find_page}
use comparing_complexity_and.Memory.Bytes.{IsBytes}
use comparing_complexity_and.Host.{HostCall, Env, Machine, set_mips}
use comparing_complexity_and.Host.Sound.{IsSound}
use comparing_complexity_and.Interp.Switch.{interpreter_switch}
use comparing_complexity_and.Blocked.Chain.{HashTable, interpreter_blocked}
use comparing_complexity_and.Instr.Plain.{at, counters_same}
use comparing_complexity_and.Instr.Quiet.{SameWorld}
use comparing_complexity_and.Blocked.Runs.{interpreter_blocked-Ends}
use comparing_complexity_and.Blocked.Sound.{Runs-IsSound}
use comparing_complexity_and.Blocked.Ending.{EndsWell, IsEnding-interpreter_switch}
use comparing_complexity_and.Blocked.Simulation.{sequenced}
use comparing_complexity_and.Blocked.Agreement.{IsSteady, interpreter_blocked-interpreter_switch}
use comparing_complexity_and.Loader.{ElfFile}
use comparing_complexity_and.Loader.Stack.{loader_elf}
use comparing_complexity_and.Loader.Entry.{Starts, loader_elf-IsLoaded}
use comparing_complexity_and.Loader.Sound.{HasAddresses, loader_elf-IsSound}
use comparing_complexity_and.Main.{
  Exit, zeroed_mips, status_of, memory_delete, main_switch, main_blocked,
}
use comparing_complexity_and.Main.Agree.{exit_of}

-- The machine that a program starts with.
pub record IsStart (elf : ElfFile) (s : Machine) : Type 0 where
  pub loads : loader_elf elf (zeroed_mips, memory_create zeroed_memory) ≡ ok (s.mips, s.memory)
  pub no_calls : s.calls ≡ []

pub memory_create-IsBytes : IsBytes (memory_create zeroed_memory)
unfolding memory_create memory_find_page
memory_create-IsBytes x k p e = cc

module _ (elf : ElfFile) (s : Machine) (start : IsStart elf s) where
  IsStart-Starts : (entry : ℕ) × Starts entry s.mips
  IsStart-Starts =
      let h =
        loader_elf-IsLoaded elf (zeroed_mips, memory_create zeroed_memory) (s.mips, s.memory) refl
          refl start.loads in
      (h.ehdr.e_entry, h.starts)

  IsStart-sequenced : sequenced s ≡ s
  IsStart-sequenced =
      let (entry, h) = IsStart-Starts in
      let pc = h.pc in
      let npc = h.npc in
      let nnpc = h.nnpc in
      let next : u32 (s.mips.r mips_r_pc + 4) ≡ s.mips.r mips_r_npc = omega arith in
      let second : u32 (s.mips.r mips_r_pc + 8) ≡ s.mips.r mips_r_nnpc = omega arith in
      ap₂ (λ n q. at (s.mips.r mips_r_pc) n q s.mips.branched s) next second
      ∙ ap (λ f. set_mips (record s.mips { r = f }) s) (counters_same s.mips.r)

  IsStart-IsSound : HasAddresses elf → IsSound s
  IsStart-IsSound addresses =
      let h =
        loader_elf-IsSound elf addresses (zeroed_mips, memory_create zeroed_memory)
          (s.mips, s.memory)
          (record {
            mips = record { regs = λ k. omega arith; local = omega arith };
            bytes = memory_create-IsBytes;
          })
          start.loads in
      record { mips = h.mips; bytes = h.bytes }

-- The programs that blocked.c runs as switch.c does: no branch stands in a delay slot, and each word
-- of a block is still in the memory, and the machine has not halted, when its turn comes; the last
-- block of a run may go on behind the word that halts, with words that neither store nor call.
pub record IsBlockProgram (env : Env) (elf : ElfFile) : Type 0 where
  pub steady : (start : Machine) → IsStart elf start → IsSteady env start
  pub ending : (start : Machine) → IsStart elf start → EndsWell env start

-- The same calls of the host, and the same frees.
pub record SameEffects (x y : Exit) : Type 0 where
  pub calls : x.calls ≡ y.calls
  pub freed : x.freed ≡ y.freed

module _ (env : Env) (elf : ElfFile) where
  -- A run of the switch interpreter is one of its program.
  main_switch-ran :
      (fuel : ℕ) (start u : Machine)
      → IsStart elf start
      → interpreter_switch env fuel start ≡ ok u
      → main_switch env elf fuel 2 ≡ ok (exit_of status_of u)
  unfolding main_switch
  main_switch-ran fuel start u h e =
      bind-ok _ h.loads
      ∙ ap
          (λ (calls : List HostCall).
            interpreter_switch env fuel (record start { calls = calls }) >>= λ s.
            ok (exit_of status_of s))
          (sym h.no_calls)
      ∙ bind-ok (λ s. ok (exit_of status_of s)) e

  switch_reaches :
      (hash : HashTable) (decode_fuel fuel : ℕ) (start s' : Machine)
      → HasAddresses elf
      → IsBlockProgram env elf
      → IsStart elf start
      → interpreter_blocked hash env decode_fuel fuel start ≡ ok s'
      → (rounds : ℕ) × (u : Machine) × (interpreter_switch env rounds start ≡ ok u) × SameWorld u s'
  switch_reaches hash decode_fuel fuel start s' addresses program h e =
      let sound = IsStart-IsSound elf start h addresses in
      let running = (IsStart-Starts elf start h).1.halted in
      let last =
        interpreter_blocked-interpreter_switch hash env decode_fuel fuel start s' sound
          (program.steady start h) running e in
      let (_, halted) = interpreter_blocked-Ends hash env decode_fuel start fuel s' e in
      let small = (Runs-IsSound env start sound last.reached).mips.regs mips_r_pc in
      let (rounds, u, ran, same) =
        IsEnding-interpreter_switch env last.before last.decoded_at s' last.block last.decoded small
          (program.ending start h last.before last.decoded_at s' last.block last.decoded
            last.reached last.decoded_then last.running last.here_now last.ran halted)
          last.ran halted in
      let (n, reach) = last.rounds in
      (
        n + rounds,
        u,
        ap (interpreter_switch env (n + rounds)) (sym (IsStart-sequenced elf start h))
            ∙ reach rounds
            ∙ ran,
        same,
      )

  -- When the program of blocked.c returns, for a file whose program suits it, that of switch.c
  -- returns too, with some fuel: it has made the same calls of the host, in the same order, and frees
  -- the same blocks of memory at its end. (What the two return differs: the exit status, and 0.)
  pub main_blocked-main_switch :
      (hash : HashTable) (decode_fuel fuel : ℕ) (x : Exit)
      → HasAddresses elf
      → IsBlockProgram env elf
      → main_blocked env elf fuel 2 hash decode_fuel ≡ ok x
      → (rounds : ℕ) × (y : Exit) × (main_switch env elf rounds 2 ≡ ok y) × SameEffects y x
  unfolding main_blocked
  main_blocked-main_switch hash decode_fuel fuel x addresses program e =
      let ((mips, memory), loaded, rest) =
        >>=-eq-ok (loader_elf elf (zeroed_mips, memory_create zeroed_memory)) _ e in
      let start : Machine = record { mips = mips; memory = memory; calls = [] } in
      let h : IsStart elf start = record { loads = loaded; no_calls = refl } in
      let (s', ran, same) =
        >>=-eq-ok (interpreter_blocked hash env decode_fuel fuel start) _ rest in
      let (rounds, u, switch_ran, world) =
        switch_reaches hash decode_fuel fuel start s' addresses program h ran in
      let exact : x ≡ exit_of (λ _. 0) s' = sym (ok-injective same) in
      (
        rounds,
        exit_of status_of u,
        main_switch-ran rounds start u h switch_ran,
        record {
          calls = sym (ap (λ (x : Exit). x.calls) exact ∙ world.calls);
          freed = sym (ap (λ (x : Exit). x.freed) exact ∙ ap memory_delete world.memory);
        },
      )
