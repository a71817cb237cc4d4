-- ===== src/Examples/Programs.antt =====
-- A small file, whose program exits with status 7, and the machine that it is loaded to.
use comparing_complexity_and.Base.{
  ℕ, ◌≡◌, refl, sym, ap₂, ◌∙◌, arith, true, List, [], ◌∷◌, Result, ok, ok-injective, ◌==◌,
  if◌then◌else◌,
}
use comparing_complexity_and.Word.{to_bytes}
use comparing_complexity_and.Machine.{Mips}
use comparing_complexity_and.Memory.{
  Memory, zeroed_memory, memory_create, memory_find_page, store_page, store_bytes, copy_write_loop,
  memory_copy_write, memory_set_loop, memory_set, allocate_entry, allocate_entries, allocate_table,
  allocate_round, allocate_tables, memory_allocate, memory_write_u32,
}
use comparing_complexity_and.Host.{HostCall, Machine}
use comparing_complexity_and.Syscall.{filled_buffer}
use comparing_complexity_and.Loader.{
  Phdr, ElfFile, fill_segment, loader_load_ehdr, loader_load_phdr, loader_load_shdr,
  loader_load_segments, loader_load_pc, loader_load_gp, sections_gp, section_gp,
  loader_load_symbols, find_gp, is_gp, strcmp_equal, load_segments_from, load_segment, read_block,
  raise_brk,
}
use comparing_complexity_and.Loader.Stack.{
  push, push_auxv, push_arguments, loader_load_sp, loader_elf,
}
use comparing_complexity_and.Loader.Sound.{HasAddresses}
use comparing_complexity_and.Main.{zeroed_mips}
use comparing_complexity_and.Main.Blocked.{IsStart}
use comparing_complexity_and.Examples.Loading.{counting, gp_file}
use comparing_complexity_and.Examples.Sample.{returns, value_or, value_or-ok}

-- `addiu $v0, $zero, 4001`, `addiu $a0, $zero, 7`, `syscall`, `beq $zero, $zero, -1`, and a `sll`
-- that does nothing.
abbrev pub exit_program : List ℕ
exit_program =
    0xa1 ∷ 0x0f ∷ 0x02 ∷ 0x24 ∷ 0x07 ∷ 0x00 ∷ 0x04 ∷ 0x24 ∷ 0x0c ∷ 0x00 ∷ 0x00 ∷ 0x00 ∷ 0xff ∷ 0xff
    ∷ 0x00 ∷ 0x10 ∷ 0x00 ∷ 0x00 ∷ 0x00 ∷ 0x00 ∷ []

abbrev pub exit_segment : Phdr
exit_segment = record {
  p_type = 1;
  p_offset = 4096;
  p_vaddr = 0x400000;
  p_filesz = 20;
  p_memsz = 20;
}

abbrev pub exit_file : ElfFile
exit_file = record gp_file {
  fread = λ offset n.
      if offset == 4096
      then exit_program
      else if offset == 2048
      then 95 ∷ 103 ∷ 112 ∷ counting 13 0
      else counting n 1;
  phdr_of = λ _. exit_segment;
}

unfoldable pub exit_load : Result (Mips × Memory)
exit_load = loader_elf exit_file (zeroed_mips, memory_create zeroed_memory)

unfoldable pub exit_start : Machine
exit_start =
    let pair = value_or exit_load (zeroed_mips, zeroed_memory) in
    record { mips = pair.0; memory = pair.1; calls = [] }

exit_load-returns : returns exit_load ≡ true
unfolding exit_load loader_elf loader_load_ehdr loader_load_phdr loader_load_shdr
    loader_load_segments loader_load_pc loader_load_gp sections_gp section_gp loader_load_symbols
    find_gp is_gp strcmp_equal load_segments_from load_segment fill_segment read_block raise_brk
    filled_buffer loader_load_sp push_arguments push_auxv push memory_create memory_allocate
    allocate_tables allocate_round allocate_table allocate_entries allocate_entry memory_set
    memory_set_loop memory_copy_write copy_write_loop store_bytes memory_find_page store_page
    memory_write_u32 to_bytes
exit_load-returns = refl

exit_loaded : exit_load ≡ ok (exit_start.mips, exit_start.memory)
unfolding exit_start
exit_loaded = value_or-ok exit_load (zeroed_mips, zeroed_memory) exit_load-returns

pub IsStart-exit_start : (start : Machine) → IsStart exit_file start → exit_start ≡ start
unfolding exit_start exit_load
IsStart-exit_start start h =
    ap₂
      (λ (p : Mips × Memory) (calls : List HostCall). record {
        mips = p.0;
        memory = p.1;
        calls = calls;
      })
      (ok-injective (sym exit_loaded ∙ h.loads)) (sym h.no_calls)

pub exit_file-HasAddresses : HasAddresses exit_file
exit_file-HasAddresses = record { entry = λ bytes. omega arith; value = λ bytes. omega arith }
