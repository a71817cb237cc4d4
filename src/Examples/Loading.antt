-- ===== src/Examples/Loading.antt =====
-- The loader's theorems at a small file: every read gives bytes 1, 2, 3, ... of the wanted count.
use comparing_complexity_and.Base.{
  ℕ, zero, suc, ◌%◌, ◌≡◌, refl, arith, true, List, [], ◌∷◌, Result, ok, ltb, ◌==◌, if◌then◌else◌,
  get_or,
}
use comparing_complexity_and.Machine.{Mips}
use comparing_complexity_and.Memory.{
  Memory, zeroed_memory, memory_find_page, store_page, store_bytes, copy_write_loop,
  memory_copy_write, memory_set_loop, memory_set, allocate_entry, allocate_entries, allocate_table,
  allocate_round, allocate_tables, memory_allocate, memory_write_u32,
}
use comparing_complexity_and.Word.{to_bytes}
use comparing_complexity_and.Syscall.{filled_buffer}
use comparing_complexity_and.Memory.Flat.{byte_at}
use comparing_complexity_and.Memory.Access.{distance}
use comparing_complexity_and.Loader.{
  Ehdr, Phdr, ElfFile, fill_segment, loader_load_ehdr, loader_load_phdr, loader_load_shdr,
  loader_load_segments, loader_load_pc, loader_load_gp, sections_gp, section_gp,
  loader_load_symbols, find_gp, is_gp, strcmp_equal, load_segments_from, load_segment, read_block,
  raise_brk,
}
use comparing_complexity_and.Loader.Segments.{fill_segment_lem}
use comparing_complexity_and.Loader.Stack.{
  push, push_auxv, push_arguments, loader_load_sp, loader_elf,
}
use comparing_complexity_and.Loader.Total.{IsLoadable, loader_elf_total}
use comparing_complexity_and.Loader.Entry.{IsLoaded, loader_elf-IsLoaded}
use comparing_complexity_and.Examples.Sample.{
  returns, value_or, value_or-ok, program_memory, start_mips,
}

abbrev pub counting : ℕ → ℕ → List ℕ
counting zero b = []
counting (suc n) b = b ∷ counting n (suc b)

abbrev elf_header : Ehdr
elf_header = record {
  ei_class = 1;
  ei_data = 1;
  e_type = 2;
  e_machine = 8;
  e_entry = 0x400000;
  e_phoff = 52;
  e_shoff = 1024;
  e_phentsize = 32;
  e_phnum = 1;
  e_shnum = 0;
}

abbrev elf_segment : Phdr
elf_segment = record { p_type = 1; p_offset = 0; p_vaddr = 0x400ffe; p_filesz = 4; p_memsz = 6 }

abbrev elf_file : ElfFile
elf_file = record {
  fopen = true;
  malloc = λ _. true;
  garbage = λ _. 0xaa;
  fseek = λ _. true;
  fread = λ _ n. counting n 1;
  calloc = λ _ _. true;
  sizeof_ehdr = 52;
  sizeof_phdr = 32;
  sizeof_shdr = 40;
  sizeof_sym = 16;
  ehdr_of = λ _. elf_header;
  phdr_of = λ _. elf_segment;
  shdr_of = λ _. record { sh_type = 0; sh_offset = 0; sh_size = 0; sh_link = 0 };
  sym_of = λ _. record { st_name = 0; st_value = 0 };
  em_mips = 8;
  elfclass32 = 1;
  elfdata2lsb = 1;
  et_exec = 2;
  pt_load = 1;
  sht_symtab = 2;
}

filled : Memory
filled = value_or (fill_segment elf_file elf_segment program_memory) program_memory

fill_segment-returns : returns (fill_segment elf_file elf_segment program_memory) ≡ true
unfolding fill_segment memory_copy_write copy_write_loop store_bytes memory_find_page store_page
    memory_set memory_set_loop filled_buffer
fill_segment-returns = refl

fill_segment_lem_example : byte_at filled 0x401000 ≡ (
    if ltb (distance 0x400ffe 0x401000) 4
    then ok (get_or (counting 4 1) (distance 0x400ffe 0x401000) 0 % 256)
    else (if ltb (distance 0x400ffe 0x401000) 6 then ok 0 else byte_at program_memory 0x401000))
unfolding filled
fill_segment_lem_example =
    fill_segment_lem elf_file elf_segment program_memory
      (value_or (fill_segment elf_file elf_segment program_memory) program_memory) 0x401000
      (omega arith) (omega arith) (omega arith)
      (value_or-ok (fill_segment elf_file elf_segment program_memory) program_memory
        fill_segment-returns)

-- A file with one section besides, its own string table, whose first name is `_gp`.
abbrev gp_header : Ehdr
gp_header = record elf_header { e_shnum = 1 }

abbrev pub gp_file : ElfFile
gp_file = record elf_file {
  fread = λ offset n. if offset == 2048 then 95 ∷ 103 ∷ 112 ∷ counting 13 0 else counting n 1;
  ehdr_of = λ _. gp_header;
  shdr_of = λ _. record { sh_type = 2; sh_offset = 2048; sh_size = 16; sh_link = 0 };
  sym_of = λ _. record { st_name = 0; st_value = 0x408000 };
}

abbrev load : Result (Mips × Memory)
load = loader_elf gp_file (start_mips, zeroed_memory)

load-returns : returns load ≡ true
unfolding loader_elf loader_load_ehdr loader_load_phdr loader_load_shdr loader_load_segments
    loader_load_pc loader_load_gp sections_gp section_gp loader_load_symbols find_gp is_gp
    strcmp_equal load_segments_from load_segment fill_segment read_block raise_brk filled_buffer
    loader_load_sp push_arguments push_auxv push memory_allocate allocate_tables allocate_round
    allocate_table allocate_entries allocate_entry memory_set memory_set_loop memory_copy_write
    copy_write_loop store_bytes memory_find_page store_page memory_write_u32 to_bytes
load-returns = refl

loader_elf-IsLoaded_example : IsLoaded gp_file (value_or load (start_mips, zeroed_memory))
loader_elf-IsLoaded_example =
    loader_elf-IsLoaded gp_file (start_mips, zeroed_memory)
      (value_or load (start_mips, zeroed_memory)) refl refl
      (value_or-ok load (start_mips, zeroed_memory) load-returns)

gp_file-IsLoadable : IsLoadable gp_file
unfolding loader_load_ehdr loader_load_phdr loader_load_shdr sections_gp section_gp
    loader_load_symbols find_gp is_gp strcmp_equal read_block
gp_file-IsLoadable = record {
  opened = refl;
  ehdr = gp_header;
  header = refl;
  phdrs = counting 32 1;
  programs = refl;
  shdrs = counting 40 1;
  sections = refl;
  gp = 0x408000;
  symbol = refl;
  segments = λ h below load. record {
    fits = (omega arith);
    within = (omega arith);
    seek = refl;
    room = refl;
    whole = refl;
  };
}

loader_elf_total_example :
    (s' : Mips × Memory) × (loader_elf gp_file (start_mips, zeroed_memory) ≡ ok s')
    × IsLoaded gp_file s'
loader_elf_total_example =
    loader_elf_total gp_file (λ m n. refl) (start_mips, zeroed_memory) refl refl gp_file-IsLoadable
