-- ===== src/Examples/Memories.antt =====
-- The memory theorems at the sample memory.
use comparing_complexity_and.Base.{
  ℕ, ◌≡◌, refl, arith, List, [], ◌∷◌, Result, ok, aborted, fault, timeout, length, replicate, ltb,
  if◌then◌else◌, get_or,
}
use comparing_complexity_and.Word.{u8, u32, to_bytes}
use comparing_complexity_and.Memory.{
  Memory, store_page, memory_find_page, load_bytes, store_bytes, copy_write_loop, memory_copy_read,
  memory_copy_write, memory_set, memory_read_u32, memory_write_u32,
}
use comparing_complexity_and.Memory.Flat.{byte_at, read_flat, write_flat}
use comparing_complexity_and.Memory.Copy.{
  memory_copy_read-eq-read_flat, memory_copy_write-eq-write_flat, memory_set-eq-write_flat,
}
use comparing_complexity_and.Memory.Access.{
  distance, memory_copy_read-memory_copy_write, byte_at-memory_copy_write,
  memory_read_u32-memory_write_u32,
}
use comparing_complexity_and.Examples.Sample.{program_memory}

abbrev or_else : Result Memory → Memory → Memory
or_else (ok m) d = m
or_else aborted d = d
or_else fault d = d
or_else timeout d = d

-- Six bytes across the boundary between the two pages.
abbrev six : List ℕ
six = 1 ∷ 2 ∷ 3 ∷ 4 ∷ 5 ∷ 6 ∷ []

written : Memory
written = or_else (memory_copy_write program_memory 0x400ffd 6 six) program_memory

six-written : memory_copy_write program_memory 0x400ffd (length six) six ≡ ok written
unfolding written memory_copy_write copy_write_loop store_bytes memory_find_page store_page
six-written = refl

word_written : Memory
word_written = or_else (memory_write_u32 program_memory 0x400010 0x1_2345_6789) program_memory

word_is_written : memory_write_u32 program_memory 0x400010 0x1_2345_6789 ≡ ok word_written
unfolding word_written memory_write_u32 store_bytes memory_find_page to_bytes
word_is_written = refl

page_crossing_read : memory_read_u32 program_memory 0x400ffe ≡ fault
unfolding memory_read_u32 load_bytes memory_find_page
page_crossing_read = refl

null_read : memory_read_u32 program_memory 0 ≡ fault
unfolding memory_read_u32 load_bytes memory_find_page
null_read = refl

memory_copy_read-eq-read_flat_example :
    memory_copy_read program_memory 0x400ffe 4 ≡ read_flat program_memory 0x400ffe 4
memory_copy_read-eq-read_flat_example =
    memory_copy_read-eq-read_flat program_memory 0x400ffe 4 (omega arith)

memory_copy_write-eq-write_flat_example :
    memory_copy_write program_memory 0x400ffd 6 six ≡ write_flat program_memory 0x400ffd six
memory_copy_write-eq-write_flat_example =
    memory_copy_write-eq-write_flat program_memory 0x400ffd 6 six (omega arith) refl

memory_set-eq-write_flat_example :
    memory_set program_memory 0x400ff0 64 0x1ff
    ≡ write_flat program_memory 0x400ff0 (replicate 64 (u8 0x1ff))
memory_set-eq-write_flat_example =
    memory_set-eq-write_flat program_memory 0x400ff0 64 0x1ff (omega arith)

memory_copy_read-memory_copy_write_example : memory_copy_read written 0x400ffd (length six) ≡ ok six
memory_copy_read-memory_copy_write_example =
    memory_copy_read-memory_copy_write program_memory written 0x400ffd six (omega arith)
      (omega arith) six-written

byte_at-memory_copy_write_example : byte_at written 0x401001 ≡ (
    if ltb (distance 0x400ffd 0x401001) (length six)
    then ok (get_or six (distance 0x400ffd 0x401001) 0)
    else byte_at program_memory 0x401001)
byte_at-memory_copy_write_example =
    byte_at-memory_copy_write program_memory written 0x400ffd 0x401001 six (omega arith)
      (omega arith) (omega arith) six-written

memory_read_u32-memory_write_u32_example :
    memory_read_u32 word_written 0x400010 ≡ ok (u32 0x1_2345_6789)
memory_read_u32-memory_write_u32_example =
    memory_read_u32-memory_write_u32 program_memory word_written 0x400010 0x1_2345_6789
      (omega arith) word_is_written
