-- ===== src/Examples/Calls.antt =====
-- `writev`, `open` and the pair of unaligned loads on small memories.
use comparing_complexity_and.Base.{
  ℕ, ◌+◌, ◌%◌, ◌^◌, ◌≡◌, ◌≢◌, ◌==◌, refl, arith, true, if◌then◌else◌, none, some, List, [], ◌∷◌,
  ◌++◌, AllOf, length, bit_and, Result, ok, ◌>>=◌,
}
use comparing_complexity_and.Word.{u32, from_bytes}
use comparing_complexity_and.Machine.{mips_r_v0}
use comparing_complexity_and.Memory.{
  put_bytes, memory_find_page, load_bytes, memory_read_u8, memory_read_u32, copy_read_loop,
  memory_copy_read,
}
use comparing_complexity_and.Host.{HostCall, Machine}
use comparing_complexity_and.Syscall.{
  open_length, mips_syscall_open, writev_round, writev_loop, mips_syscall_writev,
}
use comparing_complexity_and.Syscall.Names.{mips_syscall_open_lem}
use comparing_complexity_and.Syscall.Vectors.{contents, written, answers, mips_syscall_writev_lem}
use comparing_complexity_and.Instr.Transfer.{lwr_impl, lwl_impl}
use comparing_complexity_and.Instr.Unaligned.{lwr_impl-lwl_impl}
use comparing_complexity_and.Examples.Delayed.{delayed_memory, delayed_memory-IsBytes}
use comparing_complexity_and.Examples.Sample.{
  returns, value_or, value_or-ok, quiet, program_memory, start,
}

-- Three vectors, the second one empty, and the text "abcde" at 0x400018.
abbrev vectors : List ℕ
vectors =
    0x18 ∷ 0 ∷ 0x40 ∷ 0 ∷ 3 ∷ 0 ∷ 0 ∷ 0 ∷ 0 ∷ 0 ∷ 0 ∷ 0 ∷ 0 ∷ 0 ∷ 0 ∷ 0 ∷ 0x1b ∷ 0 ∷ 0x40 ∷ 0 ∷ 2
    ∷ 0 ∷ 0 ∷ 0 ∷ 97 ∷ 98 ∷ 99 ∷ 100 ∷ 101 ∷ 0 ∷ []

abbrev with_vectors : Machine
with_vectors = record start {
  memory = record program_memory {
    page_tables = λ t.
        if t == 1
        then some (λ e. if e == 0 then some (put_bytes (λ _. 0) 0 vectors) else none)
        else none;
  };
}

abbrev writev_call : Result Machine
writev_call = mips_syscall_writev quiet with_vectors 1 0x400000 3

writev-returns : returns writev_call ≡ true
unfolding mips_syscall_writev writev_loop writev_round memory_read_u32 memory_copy_read
    copy_read_loop load_bytes memory_find_page from_bytes
writev-returns = refl

writev-calls :
    (value_or writev_call start).calls
    ≡ HostCall.write 1 (100 ∷ 101 ∷ []) ∷ HostCall.write 1 (97 ∷ 98 ∷ 99 ∷ []) ∷ []
unfolding mips_syscall_writev writev_loop writev_round memory_read_u32 memory_copy_read
    copy_read_loop load_bytes memory_find_page from_bytes
writev-calls = refl

mips_syscall_writev_lem_example :
    let s' = value_or writev_call start in
    (buffers : List (List ℕ)) × (contents with_vectors.memory 0x400000 0 3 ≡ ok buffers)
    × (s'.calls ≡ written 1 buffers [])
    × (s'.memory ≡ with_vectors.memory)
    × (s'.mips.r mips_r_v0 ≡ u32 (answers quiet 1 buffers [] 0))
mips_syscall_writev_lem_example =
    mips_syscall_writev_lem quiet with_vectors (value_or writev_call start) 1 0x400000 3
      (value_or-ok writev_call start writev-returns)

abbrev open_call : Result Machine
open_call = mips_syscall_open quiet 10 with_vectors 0x400018 0x40 0x1ff

open-returns : returns open_call ≡ true
unfolding mips_syscall_open open_length memory_read_u8 memory_copy_read copy_read_loop load_bytes
    memory_find_page from_bytes
open-returns = refl

mips_syscall_open_lem_example :
    let s' = value_or open_call start in
    (text : List ℕ) × (memory_copy_read with_vectors.memory 0x400018 (length text + 1)
      ≡ ok (text ++ 0 ∷ []))
    × AllOf (λ c. c ≢ 0) text
    × (s'.calls
        ≡ HostCall.open_file
            (text ++ 0 ∷ [])
            0x40
            (if bit_and 0x40 quiet.o_creat == 0 then none else some (0x1ff % 2 ^ 9))
          ∷ [])
    × (s'.memory ≡ with_vectors.memory)
mips_syscall_open_lem_example =
    mips_syscall_open_lem quiet 10 with_vectors (value_or open_call start) 0x400018 0x40 0x1ff
      (omega arith) (omega arith) (value_or-ok open_call start open-returns)

-- The word at 0x400001, over two aligned ones.
abbrev right : ℕ
right = value_or (lwr_impl delayed_memory 0x400001 0xffff_ffff) 0

abbrev both : ℕ
both = value_or (lwl_impl delayed_memory (0x400001 + 3) right) 0

right-returns : returns (lwr_impl delayed_memory 0x400001 0xffff_ffff) ≡ true
unfolding lwr_impl memory_read_u32 load_bytes memory_find_page from_bytes
right-returns = refl

both-returns : returns (lwl_impl delayed_memory (0x400001 + 3) right) ≡ true
unfolding lwl_impl lwr_impl memory_read_u32 load_bytes memory_find_page from_bytes
both-returns = refl

both-value : both ≡ 0x0224020f
unfolding lwl_impl lwr_impl memory_read_u32 load_bytes memory_find_page from_bytes
both-value = refl

lwr_impl-lwl_impl_example :
    (memory_copy_read delayed_memory 0x400001 4 >>= λ bs. ok (from_bytes bs)) ≡ ok both
lwr_impl-lwl_impl_example =
    lwr_impl-lwl_impl delayed_memory 0x400001 0xffff_ffff right both (omega arith)
      delayed_memory-IsBytes
      (value_or-ok (lwr_impl delayed_memory 0x400001 0xffff_ffff) 0 right-returns)
      (value_or-ok (lwl_impl delayed_memory (0x400001 + 3) right) 0 both-returns)
