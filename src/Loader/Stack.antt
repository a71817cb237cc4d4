-- ===== src/Loader/Stack.antt =====
-- The initial stack (`loader_load_sp`) and the whole loader (`loader_elf` in loader.c).
use comparing_complexity_and.Base.{
  ℕ, ◌+◌, ◌-◌, ◌*◌, ◌/◌, ◌^◌, List, [], ◌∷◌, ◌++◌, Result, ok, ◌>>=◌, ◌>>◌, assert,
}
use comparing_complexity_and.Word.{u32, to_bytes}
use comparing_complexity_and.Machine.{Mips, set_r, mips_r_sp}
use comparing_complexity_and.Memory.{
  Memory, user_top, stack_size, memory_allocate, memory_copy_write, memory_set, memory_write_u32,
}
use comparing_complexity_and.Loader.{
  Ehdr, ElfFile, loader_load_ehdr, loader_load_phdr, loader_load_shdr, loader_load_segments,
  loader_load_pc, loader_load_gp,
}

-- "emulator", without its terminator, and the four words of `random`.
abbrev pub name_bytes : List ℕ
name_bytes = 101 ∷ 109 ∷ 117 ∷ 108 ∷ 97 ∷ 116 ∷ 111 ∷ 114 ∷ []

abbrev pub random_bytes : List ℕ
random_bytes =
    to_bytes 4 0xdeadbeef ++ to_bytes 4 0x12345678 ++ to_bytes 4 0x87654321 ++ to_bytes 4 0xfacefeed

-- `memory_write_u32(memory, (mips->r[MIPS_R_SP] -= 4), value);`
unfoldable pub push : ℕ → Mips × Memory → Result (Mips × Memory)
push value s = do
  let sp = u32 (s.0.r mips_r_sp + 2 ^ 32 - 4)
  memory' ← memory_write_u32 s.1 sp value
  ok (set_r mips_r_sp sp s.0, memory')

-- `auxv[]`, and the loop over it from the last entry to the first.
abbrev pub auxv : Ehdr → ℕ → ℕ → List (ℕ × ℕ)
auxv ehdr random_ptr name_ptr =
    (6, 4096)
    ∷ (25, random_ptr)
    ∷ (3, u32 (0x400000 + ehdr.e_phoff))
    ∷ (4, ehdr.e_phentsize)
    ∷ (5, ehdr.e_phnum)
    ∷ (31, name_ptr)
    ∷ (0, 0)
    ∷ []

unfoldable pub push_auxv : List (ℕ × ℕ) → Mips × Memory → Result (Mips × Memory)
push_auxv [] s = ok s
push_auxv (entry ∷ entries) s = do s₁ ← push_auxv entries s; s₂ ← push entry.1 s₁; push entry.0 s₂

-- The four writes after the loop, and the loop before them.
unfoldable pub push_arguments : Ehdr → ℕ → ℕ → Mips × Memory → Result (Mips × Memory)
push_arguments ehdr random_ptr name_ptr s = do
  s₁ ← push_auxv (auxv ehdr random_ptr name_ptr) s
  s₂ ← push 0 s₁
  s₃ ← push 0 s₂
  s₄ ← push name_ptr s₃
  push 1 s₄

-- `STACK_BOT` and `STACK_TOP` are constants; `& ~0xF` clears the low four bits.
abbrev pub stack_bot : ℕ
stack_bot = user_top - stack_size

unfoldable pub loader_load_sp : ElfFile → Ehdr → Mips × Memory → Result (Mips × Memory)
loader_load_sp elf ehdr s = do
  m₁ ← memory_allocate elf.calloc s.1 stack_bot (stack_size + 1)
  m₂ ← memory_set m₁ stack_bot (stack_size + 1) 0
  let random_ptr = u32 (user_top + 2 ^ 32 - 16)
  m₃ ← memory_copy_write m₂ random_ptr 16 random_bytes
  let name_ptr = u32 (random_ptr + 2 ^ 32 - 8)
  m₄ ← memory_copy_write m₃ name_ptr 8 name_bytes
  push_arguments ehdr random_ptr name_ptr (set_r mips_r_sp (name_ptr / 16 * 16) s.0, m₄)

-- The loader on the processor and the memory that `main` hands over.
unfoldable pub loader_elf : ElfFile → Mips × Memory → Result (Mips × Memory)
loader_elf elf s = do
  assert elf.fopen
  ehdr ← loader_load_ehdr elf
  phdrs ← loader_load_phdr elf ehdr
  shdrs ← loader_load_shdr elf ehdr
  memory' ← loader_load_segments elf ehdr phdrs s.1
  mips' ← loader_load_gp elf ehdr shdrs (loader_load_pc ehdr s.0)
  loader_load_sp elf ehdr (mips', memory')
