-- ===== src/Loader.antt =====
-- The ELF loader (loader.c): the headers, the segments, and the gp register. `Stack` has the
-- initial stack and the whole of `loader_elf`. What elf.h declares, the layouts of its structures
-- and its constants, is the parameter `ElfFile`, with the file itself; an allocation's success
-- depends on its size.
pub mod Stack
pub mod Segments
pub mod Pushes
pub mod Start
pub mod Progress
pub mod Entry
pub mod Total
pub mod Bytes
pub mod Sound
use comparing_complexity_and.Base.{
  ℕ, zero, suc, ◌+◌, ◌-◌, ◌*◌, ◌/◌, ltb, ◌==◌, not, if◌then◌else◌, Bool, true, false, Option, none,
  some, List, [], ◌∷◌, length, take, drop, Result, ok, aborted, fault, ◌>>=◌, ◌>>◌, assert,
}
use comparing_complexity_and.Word.{u32}
use comparing_complexity_and.Machine.{Mips, set_r, mips_r_gp, mips_r_pc, mips_r_npc, mips_r_nnpc}
use comparing_complexity_and.Memory.{Memory, memory_allocate, memory_copy_write, memory_set}
use comparing_complexity_and.Syscall.{filled_buffer}

-- The fields of the structures of elf.h that the loader reads.
pub record Ehdr : Type 0 where
  pub ei_class : ℕ
  pub ei_data : ℕ
  pub e_type : ℕ
  pub e_machine : ℕ
  pub e_entry : ℕ
  pub e_phoff : ℕ
  pub e_shoff : ℕ
  pub e_phentsize : ℕ
  pub e_phnum : ℕ
  pub e_shnum : ℕ

pub record Phdr : Type 0 where
  pub p_type : ℕ
  pub p_offset : ℕ
  pub p_vaddr : ℕ
  pub p_filesz : ℕ
  pub p_memsz : ℕ

pub record Shdr : Type 0 where
  pub sh_type : ℕ
  pub sh_offset : ℕ
  pub sh_size : ℕ
  pub sh_link : ℕ

pub record Sym : Type 0 where
  pub st_name : ℕ
  pub st_value : ℕ

-- `fread offset n` is what a read of `n` bytes at the offset stores, shorter where it fails.
pub record ElfFile : Type 0 where
  pub fopen : Bool
  pub malloc : ℕ → Bool
  pub garbage : ℕ → ℕ
  pub fseek : ℕ → Bool
  pub fread : ℕ → ℕ → List ℕ
  pub calloc : Memory → ℕ → Bool
  pub sizeof_ehdr : ℕ
  pub sizeof_phdr : ℕ
  pub sizeof_shdr : ℕ
  pub sizeof_sym : ℕ
  pub ehdr_of : List ℕ → Ehdr
  pub phdr_of : List ℕ → Phdr
  pub shdr_of : List ℕ → Shdr
  pub sym_of : List ℕ → Sym
  pub em_mips : ℕ
  pub elfclass32 : ℕ
  pub elfdata2lsb : ℕ
  pub et_exec : ℕ
  pub pt_load : ℕ
  pub sht_symtab : ℕ

-- The `h`-th structure of an array, in bytes of the array.
abbrev pub entry_of {ℓ} : {A : Type ℓ} → (List ℕ → A) → ℕ → List ℕ → ℕ → A
entry_of read_entry size bytes h = read_entry (take size (drop (h * size) bytes))

-- `fseek(elf, offset, SEEK_SET)` and `fread(buffer, 1, size, elf)`, each tested.
unfoldable pub read_block : ElfFile → ℕ → ℕ → Result (List ℕ)
read_block elf offset size = do
  assert (elf.fseek offset)
  assert (length (elf.fread offset size) == size)
  ok (elf.fread offset size)

unfoldable pub loader_load_ehdr : ElfFile → Result Ehdr
loader_load_ehdr elf = do
  assert (elf.malloc elf.sizeof_ehdr)
  assert (length (elf.fread 0 elf.sizeof_ehdr) == elf.sizeof_ehdr)
  let ehdr = elf.ehdr_of (elf.fread 0 elf.sizeof_ehdr)
  assert (ehdr.e_machine == elf.em_mips)
  assert (ehdr.ei_class == elf.elfclass32)
  assert (ehdr.ei_data == elf.elfdata2lsb)
  assert (ehdr.e_type == elf.et_exec)
  ok ehdr

unfoldable pub loader_load_phdr : ElfFile → Ehdr → Result (List ℕ)
loader_load_phdr elf ehdr = do
  assert (elf.malloc (elf.sizeof_phdr * ehdr.e_phnum))
  read_block elf ehdr.e_phoff (elf.sizeof_phdr * ehdr.e_phnum)

unfoldable pub loader_load_shdr : ElfFile → Ehdr → Result (List ℕ)
loader_load_shdr elf ehdr = do
  assert (elf.malloc (elf.sizeof_shdr * ehdr.e_shnum))
  read_block elf ehdr.e_shoff (elf.sizeof_shdr * ehdr.e_shnum)

-- Both blocks are allocated before either is read.
unfoldable pub loader_load_symbols : ElfFile → Shdr → Shdr → Result (List ℕ × List ℕ)
loader_load_symbols elf symtab strtab = do
  assert (elf.malloc symtab.sh_size)
  assert (elf.malloc strtab.sh_size)
  symbols ← read_block elf symtab.sh_offset symtab.sh_size
  strings ← read_block elf strtab.sh_offset strtab.sh_size
  ok (symbols, strings)

-- The segment's end, at 32 bits.
abbrev pub segment_end : Phdr → ℕ
segment_end phdr = u32 (phdr.p_vaddr + phdr.p_memsz)

unfoldable pub raise_brk : Phdr → Memory → Memory
raise_brk phdr memory =
    if ltb memory.brk_heap_start (segment_end phdr)
    then record memory { brk_heap_start = segment_end phdr; brk_heap_end = segment_end phdr }
    else memory

-- The bytes of a segment: the buffer after the read, and the part that is cleared. A read of more
-- bytes than the buffer has is a fault.
unfoldable pub fill_segment : ElfFile → Phdr → Memory → Result Memory
fill_segment elf phdr memory = do
  assert (elf.fseek phdr.p_offset)
  assert (elf.malloc phdr.p_memsz)
  let contents = elf.fread phdr.p_offset phdr.p_filesz
  if ltb phdr.p_memsz (length contents)
      then fault
      else assert (length contents == phdr.p_filesz) >> (do
        memory' ←
            memory_copy_write memory phdr.p_vaddr phdr.p_memsz
              (filled_buffer elf.garbage contents 0 phdr.p_memsz)
        if ltb phdr.p_filesz phdr.p_memsz
            then memory_set memory' (u32 (phdr.p_vaddr + phdr.p_filesz))
                (phdr.p_memsz - phdr.p_filesz) 0
            else ok memory')

-- One round of the loop over the program headers, and the loop from the `h`-th on.
unfoldable pub load_segment : ElfFile → Phdr → Memory → Result Memory
load_segment elf phdr memory =
    if phdr.p_type == elf.pt_load
    then (do
      memory' ← memory_allocate elf.calloc (raise_brk phdr memory) phdr.p_vaddr phdr.p_memsz
      fill_segment elf phdr memory')
    else ok memory

unfoldable pub load_segments_from : ElfFile → List ℕ → ℕ → ℕ → Memory → Result Memory
load_segments_from elf phdrs h zero memory = ok memory
load_segments_from elf phdrs h (suc n) memory = do
  memory' ← load_segment elf (entry_of elf.phdr_of elf.sizeof_phdr phdrs h) memory
  load_segments_from elf phdrs (suc h) n memory'

unfoldable pub loader_load_segments : ElfFile → Ehdr → List ℕ → Memory → Result Memory
loader_load_segments elf ehdr phdrs memory = load_segments_from elf phdrs 0 ehdr.e_phnum memory

unfoldable pub loader_load_pc : Ehdr → Mips → Mips
loader_load_pc ehdr mips =
    let m₁ = set_r mips_r_pc ehdr.e_entry mips in
    let m₂ = set_r mips_r_npc (u32 (m₁.r mips_r_pc + 4)) m₁ in
    set_r mips_r_nnpc (u32 (m₂.r mips_r_pc + 8)) m₂

-- `!strcmp(s, literal)`, with the bytes of the buffer from `s` on: a string that runs out of the
-- buffer before a difference is a fault.
unfoldable pub strcmp_equal : List ℕ → List ℕ → Result Bool
strcmp_equal [] literal = fault
strcmp_equal (c ∷ cs) [] = ok (c == 0)
strcmp_equal (c ∷ cs) (l ∷ ls) = if c == l then strcmp_equal cs ls else ok false

-- "_gp" and "__gnu_local_gp".
abbrev pub gp_name : List ℕ
gp_name = 95 ∷ 103 ∷ 112 ∷ []

abbrev pub gnu_local_gp_name : List ℕ
gnu_local_gp_name = 95 ∷ 95 ∷ 103 ∷ 110 ∷ 117 ∷ 95 ∷ 108 ∷ 111 ∷ 99 ∷ 97 ∷ 108 ∷ 95 ∷ 103 ∷ 112 ∷ []

-- `!strcmp(symbol_name, "_gp") || !strcmp(symbol_name, "__gnu_local_gp")`.
unfoldable pub is_gp : List ℕ → Sym → Result Bool
is_gp strings symbol = do
  short ← strcmp_equal (drop symbol.st_name strings) gp_name
  if short then ok true else strcmp_equal (drop symbol.st_name strings) gnu_local_gp_name

-- The loop over the symbols, from the `s`-th on: the value of the first one with such a name.
unfoldable pub find_gp : ElfFile → List ℕ → List ℕ → ℕ → ℕ → Result (Option ℕ)
find_gp elf symbols strings s zero = ok none
find_gp elf symbols strings s (suc n) = do
  let symbol = entry_of elf.sym_of elf.sizeof_sym symbols s
  found ← is_gp strings symbol
  let rest = find_gp elf symbols strings (suc s) n
  if found then ok (some symbol.st_value) else rest

-- A round of the loop over the section headers.
unfoldable pub section_gp : ElfFile → Ehdr → List ℕ → ℕ → Result (Option ℕ)
section_gp elf ehdr shdrs h =
    let symtab = entry_of elf.shdr_of elf.sizeof_shdr shdrs h in
    if not (symtab.sh_type == elf.sht_symtab)
    then ok none
    else if not (ltb symtab.sh_link ehdr.e_shnum)
    then fault
    else do
      blocks ←
          loader_load_symbols elf symtab (entry_of elf.shdr_of elf.sizeof_shdr shdrs symtab.sh_link)
      find_gp elf blocks.0 blocks.1 0 (symtab.sh_size / elf.sizeof_sym)

unfoldable pub sections_gp : ElfFile → Ehdr → List ℕ → ℕ → ℕ → Result ℕ
sections_gp elf ehdr shdrs h zero = aborted
sections_gp elf ehdr shdrs h (suc n) = do
  found ← section_gp elf ehdr shdrs h
  elim found [ some value ↦ ok value | none ↦ sections_gp elf ehdr shdrs (suc h) n ]

unfoldable pub loader_load_gp : ElfFile → Ehdr → List ℕ → Mips → Result Mips
loader_load_gp elf ehdr shdrs mips = do
  value ← sections_gp elf ehdr shdrs 0 ehdr.e_shnum
  ok (set_r mips_r_gp value mips)
