-- ===== src/Examples/Heaps.antt =====
-- The theorems on `memory_allocate` and on `brk`, `mmap2` and `read` at the sample machine.
use comparing_complexity_and.Base.{
  ℕ, ◌<◌, true, ◌+◌, ◌≡◌, ◌⊎◌, refl, arith, ◌≤◌, [], ◌∷◌, Result, ok, fault,
}
use comparing_complexity_and.Word.{u32, from_bytes}
use comparing_complexity_and.Machine.{mips_r_v0}
use comparing_complexity_and.Memory.{
  Memory, Page, memory_find_page, store_page, load_bytes, store_bytes, copy_write_loop,
  memory_read_u32, memory_copy_write, memory_set_loop, memory_set, allocate_entry, allocate_entries,
  allocate_table, allocate_round, allocate_tables, memory_allocate,
}
use comparing_complexity_and.Memory.Flat.{byte_at}
use comparing_complexity_and.Memory.Allocate.{memory_allocate_lem}
use comparing_complexity_and.Host.{Env, Machine}
use comparing_complexity_and.Syscall.{
  filled_buffer, mips_syscall_read, mips_syscall_brk, mips_syscall_mmap2,
}
use comparing_complexity_and.Syscall.Heap.{whole_pages, BrkGives}
use comparing_complexity_and.Syscall.Io.{byte_after_read, mips_syscall_read_lem}
use comparing_complexity_and.Memory.Progress.{IsMappedRange, memory_allocate_total}
use comparing_complexity_and.Syscall.Progress.{mips_syscall_mmap2_total, mips_syscall_brk_total}
use comparing_complexity_and.Main.{entry, table, memory_delete}
use comparing_complexity_and.Main.Free.{times, memory_delete_once}
use comparing_complexity_and.Examples.Sample.{
  returns, value_or, value_or-ok, quiet, program_memory, start,
}

-- Three new pages, across the end of a table.
abbrev allocation : Result Memory
allocation = memory_allocate (λ _ _. true) program_memory 0x7fe010 8192

abbrev allocated : Memory
allocated = value_or allocation program_memory

memory_allocate-returns : returns allocation ≡ true
unfolding memory_allocate allocate_tables allocate_round allocate_table allocate_entries
    allocate_entry
memory_allocate-returns = refl

memory_allocate_lem_example :
    (p : Page) × (memory_find_page allocated 0x800001 ≡ ok p)
    × ((memory_find_page program_memory 0x800001 ≡ ok p)
        ⊎ ((memory_find_page program_memory 0x800001 ≡ fault) × (p ≡ λ _. 0)))
memory_allocate_lem_example =
    memory_allocate_lem (λ _ _. true) program_memory allocated 0x7fe010 8192 0x800001 (omega arith)
      (omega arith) (omega arith) (value_or-ok allocation program_memory memory_allocate-returns)

abbrev brk_call : Result Machine
brk_call = mips_syscall_brk quiet start 0x403004

brk-returns : returns brk_call ≡ true
unfolding mips_syscall_brk memory_allocate allocate_tables allocate_round allocate_table
    allocate_entries allocate_entry
brk-returns = refl

-- The stack pointer stands in the program's page, where the two unused words can be read.
abbrev with_stack : Machine
with_stack = record start { mips = record (start.mips) { r = λ _. 0x400000 } }

abbrev mmap2_call : Result Machine
mmap2_call = mips_syscall_mmap2 quiet with_stack 5000

mmap2-returns : returns mmap2_call ≡ true
unfolding mips_syscall_mmap2 memory_read_u32 load_bytes memory_find_page memory_set memory_set_loop
    store_bytes store_page memory_allocate allocate_tables allocate_round allocate_table
    allocate_entries allocate_entry
mmap2-returns = refl

memory_allocate_total_example :
    (m' : Memory) × (memory_allocate (λ _ _. true) program_memory 0x7fe010 8192 ≡ ok m')
    × IsMappedRange m' 0x7fe010 8192
memory_allocate_total_example =
    memory_allocate_total (λ _ _. true) (λ _ _. refl) program_memory 0x7fe010 8192 (omega arith)

first_argument : memory_read_u32 with_stack.memory 0x400010 ≡ ok 12
unfolding memory_read_u32 load_bytes memory_find_page from_bytes
first_argument = refl

second_argument : memory_read_u32 with_stack.memory 0x400014 ≡ ok 0
unfolding memory_read_u32 load_bytes memory_find_page from_bytes
second_argument = refl

mips_syscall_mmap2_total_example :
    (s' : Machine) × (mips_syscall_mmap2 quiet with_stack 5000 ≡ ok s')
    × ((y : ℕ)
        → 0x40000000 ≤ y
        → y < 0x40000000 + whole_pages 5000
        → (s'.mips.r mips_r_v0 ≡ 0x40000000) × (byte_at s'.memory y ≡ ok 0))
mips_syscall_mmap2_total_example =
    mips_syscall_mmap2_total quiet (λ _ _. refl) with_stack 5000 12 0 first_argument second_argument
      (omega arith)

mips_syscall_brk_total_example :
    (s' : Machine) × (mips_syscall_brk quiet with_stack (with_stack.memory.brk_heap_end + 5000)
      ≡ ok s')
    × ((y : ℕ)
        → with_stack.memory.brk_heap_end ≤ y
        → y < with_stack.memory.brk_heap_end + 5000
        → BrkGives (with_stack.memory.brk_heap_end + 5000) y s')
mips_syscall_brk_total_example =
    mips_syscall_brk_total quiet (λ _ _. refl) with_stack (with_stack.memory.brk_heap_end + 5000)
      (omega arith) (omega arith)

memory_delete_once_example :
    (times (entry 1 0) (memory_delete program_memory) ≡ 1)
    × (times (table 1) (memory_delete program_memory) ≡ 1)
memory_delete_once_example = memory_delete_once program_memory 1 0 (omega arith) (omega arith)

-- A host that answers `read` with three bytes where eight are asked for.
abbrev short_read : Env
short_read = record quiet { reply = λ _ _. record { result = 3; payload = 7 ∷ 8 ∷ 9 ∷ [] } }

abbrev read_call : Result Machine
read_call = mips_syscall_read short_read start 0 0x400ffe 8

read-returns : returns read_call ≡ true
unfolding mips_syscall_read memory_copy_write copy_write_loop store_bytes memory_find_page
    store_page filled_buffer
read-returns = refl

mips_syscall_read_lem_example :
    let s' = value_or read_call start in
    (s'.mips.r mips_r_v0 ≡ u32 3)
    × (byte_at s'.memory 0x401002 ≡ byte_after_read short_read start 0 0x400ffe 8 0x401002)
mips_syscall_read_lem_example =
    mips_syscall_read_lem short_read start (value_or read_call start) 0 0x400ffe 8 0x401002
      (omega arith) (omega arith) (omega arith) (omega arith)
      (value_or-ok read_call start read-returns)
