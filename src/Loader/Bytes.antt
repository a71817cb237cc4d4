-- ===== src/Loader/Bytes.antt =====
-- The bytes that the loader (loader.c) puts into the memory are bytes.
use comparing_complexity_and.Base.{
  ℕ, zero, suc, ◌+◌, ◌-◌, ◌≡◌, Bool, true, false, if◌then◌else◌, AllOf, ◌++◌, List, [], ◌∷◌, ok,
  fault, WhenOk, WhenOk-bind, >>=-eq-ok, assert_then, length, Result, arith, subst, ltb, ◌&&◌, refl,
  ◌==◌, ◌>>=◌, Bool-cases, if-true, if-false, sym, inl, inr,
}
use comparing_complexity_and.Word.{u32, to_bytes}
use comparing_complexity_and.Memory.{
  Memory, memory_find_page, memory_allocate, memory_set, memory_copy_write,
}
use comparing_complexity_and.Memory.Bytes.{
  IsByte, IsBytes, to_bytes-IsByte, memory_copy_write-IsBytes, memory_set-IsBytes,
  memory_allocate-IsBytes,
}
use comparing_complexity_and.Host.Sound.{WhenOk-each, WhenOk-ok, WhenOk-if}
use comparing_complexity_and.Syscall.{filled_buffer}
use comparing_complexity_and.Syscall.Kept.{filled_buffer-IsByte}
use comparing_complexity_and.Loader.{
  Phdr, ElfFile, raise_brk, fill_segment, load_segment, load_segments_from, entry_of, segment_end,
}
use comparing_complexity_and.Loader.Stack.{random_bytes, name_bytes}

++-AllOf : (bs cs : List ℕ) → AllOf IsByte bs → AllOf IsByte cs → AllOf IsByte (bs ++ cs)
++-AllOf [] cs h k = k
++-AllOf (b ∷ bs) cs (first, rest) k = (first, ++-AllOf bs cs rest k)

word_then-IsByte : (v : ℕ) (bs : List ℕ) → AllOf IsByte bs → AllOf IsByte (bs ++ to_bytes 4 v)
word_then-IsByte v bs h = ++-AllOf bs (to_bytes 4 v) h (to_bytes-IsByte 4 v)

pub random_bytes-IsByte : AllOf IsByte random_bytes
random_bytes-IsByte =
    word_then-IsByte 0xfacefeed _
      (word_then-IsByte 0x87654321 _ (word_then-IsByte 0x12345678 _ (to_bytes-IsByte 4 0xdeadbeef)))

abbrev all_bytes : List ℕ → Bool
all_bytes [] = true
all_bytes (b ∷ bs) = ltb b 256 && all_bytes bs

-- A list of bytes, by a test of each.
AllOf-test : (bs : List ℕ) → all_bytes bs ≡ true → AllOf IsByte bs
AllOf-test [] h = tt
AllOf-test (b ∷ bs) h = (ground arith, AllOf-test bs (ground arith))

pub name_bytes-IsByte : AllOf IsByte name_bytes
name_bytes-IsByte = AllOf-test name_bytes refl

module _ (elf : ElfFile) where
  clear_tail-IsBytes :
      (phdr : Phdr) (m : Memory)
      → IsBytes m
      → WhenOk IsBytes (
          if ltb phdr.p_filesz phdr.p_memsz
          then memory_set m (u32 (phdr.p_vaddr + phdr.p_filesz)) (phdr.p_memsz - phdr.p_filesz) 0
          else ok m)
  clear_tail-IsBytes phdr m h =
      let cleared =
        memory_set m (u32 (phdr.p_vaddr + phdr.p_filesz)) (phdr.p_memsz - phdr.p_filesz) 0 in
      WhenOk-if IsBytes (ltb phdr.p_filesz phdr.p_memsz) cleared (ok m)
        (WhenOk-each IsBytes cleared λ m'. memory_set-IsBytes m m' _ _ 0 h) h

  fill_segment-IsBytes :
      (phdr : Phdr) (m m' : Memory) → IsBytes m → fill_segment elf phdr m ≡ ok m' → IsBytes m'
  unfolding fill_segment
  fill_segment-IsBytes phdr m m' h e =
      let (_, e₁) = assert_then (elf.fseek phdr.p_offset) _ e in
      let (_, e₂) = assert_then (elf.malloc phdr.p_memsz) _ e₁ in
      let contents = elf.fread phdr.p_offset phdr.p_filesz in
      let buffer = filled_buffer elf.garbage contents 0 phdr.p_memsz in
      let (_, e₃) =
        assert_then (length contents == phdr.p_filesz) _
          (unless_fault (ltb phdr.p_memsz (length contents)) e₂) in
      let (m₁, copied, e₄) =
        >>=-eq-ok (memory_copy_write m phdr.p_vaddr phdr.p_memsz buffer) _ e₃ in
      let bytes =
        memory_copy_write-IsBytes m m₁ phdr.p_vaddr phdr.p_memsz buffer
          (filled_buffer-IsByte elf.garbage contents 0 phdr.p_memsz) h copied in
      WhenOk-ok IsBytes _ (clear_tail-IsBytes phdr m₁ bytes) e₄
    where
      unless_fault :
          (test : Bool) {r : Result Memory} → (if test then fault else r) ≡ ok m' → r ≡ ok m'
      unless_fault true e = cc
      unless_fault false e = e

  raise_brk-IsBytes : (phdr : Phdr) (m : Memory) → IsBytes m → IsBytes (raise_brk phdr m)
  unfolding raise_brk memory_find_page
  raise_brk-IsBytes phdr m h = elim (Bool-cases (ltb m.brk_heap_start (segment_end phdr))) [
    | inl raised ↦ subst IsBytes (sym (if-true _ m raised)) h
    | inr kept ↦ subst IsBytes (sym (if-false _ m kept)) h
  ]

  load_segment-IsBytes :
      (phdr : Phdr) (m : Memory) → IsBytes m → WhenOk IsBytes (load_segment elf phdr m)
  unfolding load_segment
  load_segment-IsBytes phdr m h =
      let allocated = memory_allocate elf.calloc (raise_brk phdr m) phdr.p_vaddr phdr.p_memsz in
      WhenOk-if IsBytes (phdr.p_type == elf.pt_load) (allocated >>= fill_segment elf phdr) (ok m)
        (WhenOk-bind IsBytes IsBytes allocated (fill_segment elf phdr)
          (WhenOk-each IsBytes allocated λ m'.
            memory_allocate-IsBytes elf.calloc (raise_brk phdr m) m' _ _
              (raise_brk-IsBytes phdr m h))
          (λ m' h'.
            WhenOk-each IsBytes (fill_segment elf phdr m')
              λ m''. fill_segment-IsBytes phdr m' m'' h'))
        h

  pub load_segments_from-IsBytes :
      (phdrs : List ℕ) (i n : ℕ) (m : Memory)
      → IsBytes m
      → WhenOk IsBytes (load_segments_from elf phdrs i n m)
  unfolding load_segments_from
  load_segments_from-IsBytes phdrs i zero m h = h
  load_segments_from-IsBytes phdrs i (suc n) m h =
      let phdr = entry_of elf.phdr_of elf.sizeof_phdr phdrs i in
      WhenOk-bind IsBytes IsBytes (load_segment elf phdr m) _ (load_segment-IsBytes phdr m h)
        λ m' h'. load_segments_from-IsBytes phdrs (suc i) n m' h'
