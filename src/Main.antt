-- ===== src/Main.antt =====
-- The programs: `main` of switch.c, computed-goto.c, tail-call.c and blocked.c, and what
-- `memory_delete` (memory.c) frees at their end.
pub mod Agree
pub mod Free
pub mod Blocked
use comparing_complexity_and.Base.{
  ℕ, zero, suc, ◌==◌, if◌then◌else◌, false, Option, none, some, List, [], ◌∷◌, ◌++◌, Result, ok,
  ◌>>=◌,
}
use comparing_complexity_and.Machine.{Mips}
use comparing_complexity_and.Memory.{Memory, PageTable, zeroed_memory, memory_create}
use comparing_complexity_and.Host.{HostCall, Env, Machine}
use comparing_complexity_and.Interp.Switch.{interpreter_switch}
use comparing_complexity_and.Interp.ComputedGoto.{interpreter_computed_goto}
use comparing_complexity_and.Interp.TailCall.{interpreter_tail_call}
use comparing_complexity_and.Blocked.Chain.{HashTable, interpreter_blocked}
use comparing_complexity_and.Loader.{ElfFile}
use comparing_complexity_and.Loader.Stack.{loader_elf}

-- What is handed to `free`: the entry of a table, or the table.
pub data Freed : Type 0 where
  entry : (t e : ℕ) → Freed
  table : (t : ℕ) → Freed

-- `for (u32 e = 0; e < PE_COUNT; e++)`, by the rounds left.
unfoldable pub delete_entries : ℕ → PageTable → ℕ → ℕ → List Freed
delete_entries zero entries t e = []
delete_entries (suc n) entries t e =
    let rest = delete_entries n entries t (suc e) in
    elim (entries e) [ none ↦ rest | some _ ↦ entry t e ∷ rest ]

-- `for (u32 t = 0; t < PT_COUNT; t++)`.
unfoldable pub delete_tables : ℕ → Memory → ℕ → List Freed
delete_tables zero memory t = []
delete_tables (suc n) memory t =
    let rest = delete_tables n memory (suc t) in
    elim (memory.page_tables t) [
      | none ↦ rest
      | some entries ↦ delete_entries 1024 entries t 0 ++ (table t ∷ rest)
    ]

unfoldable pub memory_delete : Memory → List Freed
memory_delete memory = delete_tables 1024 memory 0

-- `struct mips mips = {};`
abbrev pub zeroed_mips : Mips
zeroed_mips = record {
  r = λ _. 0;
  status = 0;
  tidptr = 0;
  user_local_ptr = 0;
  branched = false;
  halted = false;
}

-- The value of `main`, with the calls of the host that the program made and the final frees.
pub record Exit : Type 0 where
  pub code : ℕ
  pub calls : List HostCall
  pub freed : List Freed

-- A load, a run, and the end of `main` with its `return`.
abbrev pub loaded_and_run : (Machine → Result Machine) → (Machine → ℕ) → ElfFile → Result Exit
loaded_and_run run code elf = do
  (mips, memory) ← loader_elf elf (zeroed_mips, memory_create zeroed_memory)
  s ← run (record { mips = mips; memory = memory; calls = [] })
  ok (record { code = code s; calls = s.calls; freed = memory_delete s.memory })

-- `if (argc != 2)`: the usage, which is not modelled, and 1.
abbrev pub usage : Exit
usage = record { code = 1; calls = []; freed = [] }

abbrev pub status_of : Machine → ℕ
status_of s = s.mips.status

module _ (env : Env) (elf : ElfFile) (fuel argc : ℕ) where
  unfoldable pub main_switch : Result Exit
  main_switch =
      if argc == 2 then loaded_and_run (interpreter_switch env fuel) status_of elf else ok usage

  unfoldable pub main_computed_goto : Result Exit
  main_computed_goto =
      if argc == 2
      then loaded_and_run (interpreter_computed_goto env fuel) status_of elf
      else ok usage

  unfoldable pub main_tail_call : Result Exit
  main_tail_call =
      if argc == 2 then loaded_and_run (interpreter_tail_call env fuel) status_of elf else ok usage

  -- This one returns 0.
  unfoldable pub main_blocked : HashTable → ℕ → Result Exit
  main_blocked hash decode_fuel =
      if argc == 2
      then loaded_and_run (interpreter_blocked hash env decode_fuel fuel) (λ _. 0) elf
      else ok usage
