-- ===== src/Examples/Sample.antt =====
-- A host, a memory with a small program at 0x400000, and a machine about to run it.
use comparing_complexity_and.Base.{
  Bool, ◌≡◌, refl, Result, ok, aborted, fault, timeout, ℕ, ◌==◌, if◌then◌else◌, true, false, none,
  some, List, [], ◌∷◌,
}
use comparing_complexity_and.Machine.{Mips}
use comparing_complexity_and.Memory.{Memory, Page, put_bytes}
use comparing_complexity_and.Host.{Env, Machine}

-- Every allocation succeeds, and every call returns 0.
abbrev pub quiet : Env
quiet = record {
  reply = λ _ _. record { result = 0; payload = [] };
  malloc = λ _ _. true;
  garbage = λ _ _. 0xaa;
  calloc = λ _ _. true;
  o_creat = 0x40;
}

-- `addiu $v0, $zero, 4001`, `beq $zero, $zero, 2`, `addiu $a0, $zero, 7`, a word that is skipped,
-- and `syscall`, which exits with status 7.
abbrev pub program : List ℕ
program =
    0xa1 ∷ 0x0f ∷ 0x02 ∷ 0x24 ∷ 0x02 ∷ 0x00 ∷ 0x00 ∷ 0x10 ∷ 0x07 ∷ 0x00 ∷ 0x04 ∷ 0x24 ∷ 0xff ∷ 0xff
    ∷ 0xff ∷ 0xff ∷ 0x0c ∷ 0x00 ∷ 0x00 ∷ 0x00 ∷ []

abbrev pub program_page : Page
program_page = put_bytes (λ _. 0) 0 program

-- Two pages, at 0x400000 and 0x401000.
abbrev pub program_memory : Memory
program_memory = record {
  page_tables = λ t.
      if t == 1
      then some (λ e. if e == 0 then some program_page else if e == 1 then some (λ _. 0) else none)
      else none;
  brk_heap_start = 0x402000;
  brk_heap_end = 0x402000;
  mmap_heap_start = 0x40000000;
  mmap_heap_end = 0x40000000;
}

abbrev pub start_mips : Mips
start_mips = record {
  r = λ k.
      if k == 34 then 0x400000 else if k == 35 then 0x400004 else if k == 36 then 0x400008 else 0;
  status = 0;
  tidptr = 0;
  user_local_ptr = 0;
  branched = false;
  halted = false;
}

abbrev pub start : Machine
start = record { mips = start_mips; memory = program_memory; calls = [] }

-- Whether a call returns, and its value.
abbrev pub returns {ℓ} : {A : Type ℓ} → Result A → Bool
returns (ok a) = true
returns aborted = false
returns fault = false
returns timeout = false

abbrev pub value_or {ℓ} : {A : Type ℓ} → Result A → A → A
value_or (ok a) d = a
value_or aborted d = d
value_or fault d = d
value_or timeout d = d

pub value_or-ok {ℓ} : {A : Type ℓ} (r : Result A) (d : A) → returns r ≡ true → r ≡ ok (value_or r d)
value_or-ok (ok a) d h = refl
value_or-ok aborted d h = cc
value_or-ok fault d h = cc
value_or-ok timeout d h = cc
