-- ===== src/Loader/Total.antt =====
-- A file that can be loaded is loaded (loader.c) whenever the host has memory.
use comparing_complexity_and.Base.{
  ℕ, zero, suc, ◌+◌, ◌-◌, ◌^◌, ◌≤◌, ◌<◌, ◌≡◌, refl, ◌∙◌, inl, inr, arith, List, length, true, false,
  Bool-cases, Result, ok, bind-ok, assert-ok, ltb, ◌==◌, if◌then◌else◌,
}
use comparing_complexity_and.Word.{u32}
use comparing_complexity_and.Machine.{Mips, set_r, mips_r_gp}
use comparing_complexity_and.Memory.{Memory, memory_set}
use comparing_complexity_and.Memory.Progress.{
  IsMappedRange, memory_allocate_total, memory_set-Writes, memory_copy_write-Writes,
}
use comparing_complexity_and.Syscall.{filled_buffer}
use comparing_complexity_and.Syscall.Io.{length-filled_buffer}
use comparing_complexity_and.Loader.{
  Ehdr, Phdr, ElfFile, entry_of, raise_brk, fill_segment, load_segment, load_segments_from,
  loader_load_ehdr, loader_load_phdr, loader_load_shdr, loader_load_segments, loader_load_pc,
  loader_load_gp, sections_gp,
}
use comparing_complexity_and.Loader.Stack.{loader_elf}
use comparing_complexity_and.Loader.Progress.{loader_load_sp_total}
use comparing_complexity_and.Loader.Entry.{IsLoaded, loader_elf-IsLoaded}

-- The file has all of a segment's bytes, no more than its size in memory, which ends below 2 ^ 32,
-- and the host has a buffer of that size.
pub record IsReadable (elf : ElfFile) (phdr : Phdr) : Type 0 where
  pub fits : phdr.p_vaddr + phdr.p_memsz < 2 ^ 32
  pub within : phdr.p_filesz ≤ phdr.p_memsz
  pub seek : elf.fseek phdr.p_offset ≡ true
  pub room : elf.malloc phdr.p_memsz ≡ true
  pub whole : length (elf.fread phdr.p_offset phdr.p_filesz) ≡ phdr.p_filesz

-- The file opens, its header and its two tables are read, a symbol gives the gp register's value,
-- and every segment to load can be read.
pub record IsLoadable (elf : ElfFile) : Type 0 where
  pub opened : elf.fopen ≡ true
  pub ehdr : Ehdr
  pub header : loader_load_ehdr elf ≡ ok ehdr
  pub phdrs : List ℕ
  pub programs : loader_load_phdr elf ehdr ≡ ok phdrs
  pub shdrs : List ℕ
  pub sections : loader_load_shdr elf ehdr ≡ ok shdrs
  pub gp : ℕ
  pub symbol : sections_gp elf ehdr shdrs 0 ehdr.e_shnum ≡ ok gp
  pub segments :
      (h : ℕ)
      → h < ehdr.e_phnum
      → (entry_of elf.phdr_of elf.sizeof_phdr phdrs h).p_type ≡ elf.pt_load
      → IsReadable elf (entry_of elf.phdr_of elf.sizeof_phdr phdrs h)

abbrev Returns : Result Memory → Type 0
Returns r = (m : Memory) × (r ≡ ok m)

module _ (elf : ElfFile) where
  clear-Returns :
      (phdr : Phdr) (m : Memory)
      → phdr.p_vaddr + phdr.p_memsz < 2 ^ 32
      → phdr.p_filesz ≤ phdr.p_memsz
      → IsMappedRange m phdr.p_vaddr phdr.p_memsz
      → Returns (
          if ltb phdr.p_filesz phdr.p_memsz
          then memory_set m (u32 (phdr.p_vaddr + phdr.p_filesz)) (phdr.p_memsz - phdr.p_filesz) 0
          else ok m)
  clear-Returns phdr m fits within mapped = elim (Bool-cases (ltb phdr.p_filesz phdr.p_memsz)) [
    | inl more ↦
        let (m', cleared, _) =
          memory_set-Writes m (u32 (phdr.p_vaddr + phdr.p_filesz)) (phdr.p_memsz - phdr.p_filesz) 0
            (omega arith) (λ y p q. mapped y (omega arith) (omega arith)) in
        (m', rw more cleared)
    | inr all ↦ (m, rw all)
  ]

  fill_segment-Returns :
      (phdr : Phdr) (m : Memory)
      → IsReadable elf phdr
      → IsMappedRange m phdr.p_vaddr phdr.p_memsz
      → Returns (fill_segment elf phdr m)
  unfolding fill_segment
  fill_segment-Returns phdr m can mapped =
      let contents = elf.fread phdr.p_offset phdr.p_filesz in
      let buffer = filled_buffer elf.garbage contents 0 phdr.p_memsz in
      let fits = can.fits in
      let within = can.within in
      let whole = can.whole in
      let enough : ltb phdr.p_memsz (length contents) ≡ false = ground arith in
      let (m₁, copied, keeps) =
        memory_copy_write-Writes m phdr.p_vaddr phdr.p_memsz buffer
          (length-filled_buffer elf.garbage contents 0 phdr.p_memsz) fits mapped in
      let (m₂, cleared) = clear-Returns phdr m₁ fits within (λ y p q. keeps y (mapped y p q)) in
      let test : (length contents == phdr.p_filesz) ≡ true = ground arith in
      (
        m₂,
        assert-ok _ _ can.seek
            ∙ assert-ok _ _ can.room
            ∙ rw enough (assert-ok _ _ test ∙ bind-ok _ copied ∙ cleared),
      )

  module _ (enough : (m : Memory) (n : ℕ) → elf.calloc m n ≡ true) where
    load_segment-Returns :
        (phdr : Phdr) (m : Memory)
        → (phdr.p_type ≡ elf.pt_load → IsReadable elf phdr)
        → Returns (load_segment elf phdr m)
    unfolding load_segment
    load_segment-Returns phdr m can = elim (Bool-cases (phdr.p_type == elf.pt_load)) [
      | inl load ↦
          let readable = can (ground arith) in
          let fits = readable.fits in
          let (m₁, allocated, mapped) =
            memory_allocate_total elf.calloc enough (raise_brk phdr m) phdr.p_vaddr phdr.p_memsz
              (omega arith) in
          let (m₂, filled) = fill_segment-Returns phdr m₁ readable mapped in
          (m₂, rw load (bind-ok _ allocated ∙ filled))
      | inr other ↦ (m, rw other)
    ]

    load_segments_from-Returns :
        (phdrs : List ℕ) (h n : ℕ) (m : Memory)
        → ((k : ℕ)
            → h ≤ k
            → k < h + n
            → (entry_of elf.phdr_of elf.sizeof_phdr phdrs k).p_type ≡ elf.pt_load
            → IsReadable elf (entry_of elf.phdr_of elf.sizeof_phdr phdrs k))
        → Returns (load_segments_from elf phdrs h n m)
    unfolding load_segments_from
    load_segments_from-Returns phdrs h zero m can = (m, refl)
    load_segments_from-Returns phdrs h (suc n) m can =
        let phdr = entry_of elf.phdr_of elf.sizeof_phdr phdrs h in
        let (m₁, first) = load_segment-Returns phdr m (can h (omega arith) (omega arith)) in
        let (m₂, rest) =
          load_segments_from-Returns phdrs (suc h) n m₁
            (λ k p q. can k (omega arith) (omega arith)) in
        (m₂, bind-ok _ first ∙ rest)

    loader_elf-Returns :
        (s : Mips × Memory) → IsLoadable elf → (s' : Mips × Memory) × (loader_elf elf s ≡ ok s')
    unfolding loader_elf loader_load_segments loader_load_gp
    loader_elf-Returns s can =
        let started = loader_load_pc can.ehdr s.0 in
        let (m, loaded) =
          load_segments_from-Returns can.phdrs 0 can.ehdr.e_phnum s.1
            (λ k p q. can.segments k (omega arith)) in
        let (s', stacked, _) =
          loader_load_sp_total elf enough can.ehdr (set_r mips_r_gp can.gp started, m) in
        (
          s',
          assert-ok _ _ can.opened
              ∙ bind-ok _ can.header
              ∙ bind-ok _ can.programs
              ∙ bind-ok _ can.sections
              ∙ bind-ok _ loaded
              ∙ bind-ok _ (bind-ok _ can.symbol)
              ∙ stacked,
        )

    -- When every `calloc` succeeds and the file can be loaded, `loader_elf` returns: on a processor
    -- that has neither branched nor halted, the program counters are those of the entry point and
    -- the stack is the initial one.
    pub loader_elf_total :
        (s : Mips × Memory)
        → s.0.branched ≡ false
        → s.0.halted ≡ false
        → IsLoadable elf
        → (s' : Mips × Memory) × (loader_elf elf s ≡ ok s') × IsLoaded elf s'
    loader_elf_total s b h can =
        let (s', returned) = loader_elf-Returns s can in
        (s', returned, loader_elf-IsLoaded elf s s' b h returned)
