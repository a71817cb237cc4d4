-- ===== src/Loader/Sound.antt =====
-- `loader_elf` (loader.c) hands over a processor whose registers hold a `u32` and a memory of bytes.
use comparing_complexity_and.Base.{
  ℕ, zero, suc, ◌+◌, ◌-◌, ◌^◌, ◌<◌, ◌≡◌, none, some, Option, not, ◌/◌, List, [], ◌∷◌, ok, fault,
  WhenOk, WhenOk-bind, >>=-eq-ok, ok-injective, assert_then, length, Result, arith, subst, ltb,
  ◌==◌, ◌>>=◌,
}
use comparing_complexity_and.Word.{u32}
use comparing_complexity_and.Machine.{
  Mips, set_r, mips_r_pc, mips_r_npc, mips_r_nnpc, mips_r_gp, mips_r_sp,
}
use comparing_complexity_and.Memory.{
  Memory, memory_write_u32, memory_allocate, memory_set, memory_copy_write, user_top, stack_size,
}
use comparing_complexity_and.Memory.Bytes.{
  IsBytes, memory_write_u32-IsBytes, memory_copy_write-IsBytes, memory_set-IsBytes,
  memory_allocate-IsBytes,
}
use comparing_complexity_and.Host.Sound.{
  IsSoundMips, set_r-IsSoundMips, WhenOk-each, WhenOk-ok, WhenOk-if, WhenOk-any,
}
use comparing_complexity_and.Loader.{
  Ehdr, ElfFile, loader_load_segments, loader_load_ehdr, loader_load_phdr, loader_load_shdr,
  loader_load_pc, loader_load_gp, loader_load_symbols, sections_gp, section_gp, find_gp, is_gp,
  entry_of,
}
use comparing_complexity_and.Loader.Stack.{
  push, push_auxv, push_arguments, loader_load_sp, loader_elf, auxv, stack_bot, random_bytes,
  name_bytes,
}
use comparing_complexity_and.Loader.Bytes.{
  random_bytes-IsByte, name_bytes-IsByte, load_segments_from-IsBytes,
}

-- elf.h declares `e_entry` and `st_value` as 32-bit addresses.
pub record HasAddresses (elf : ElfFile) : Type 0 where
  pub entry : (bytes : List ℕ) → (elf.ehdr_of bytes).e_entry < 2 ^ 32
  pub value : (bytes : List ℕ) → (elf.sym_of bytes).st_value < 2 ^ 32

-- The two parts of the state that the loader fills.
pub record IsSoundPair (s : Mips × Memory) : Type 0 where
  pub mips : IsSoundMips s.0
  pub bytes : IsBytes s.1

-- What an optional value is, where there is one.
abbrev WhenSome : (ℕ → Type 0) → Option ℕ → Type 0
WhenSome P none = Unit
WhenSome P (some v) = P v

or_next :
    (P : ℕ → Type 0) (rest : Result ℕ) (found : Option ℕ)
    → WhenSome P found
    → WhenOk P rest
    → WhenOk P (elim found [ some value ↦ ok value | none ↦ rest ])
or_next P rest none h k = k
or_next P rest (some v) h k = h

push-IsSound : (value : ℕ) (s : Mips × Memory) → IsSoundPair s → WhenOk IsSoundPair (push value s)
unfolding push
push-IsSound value s h =
    let sp = u32 (s.0.r mips_r_sp + 2 ^ 32 - 4) in
    WhenOk-bind IsBytes IsSoundPair (memory_write_u32 s.1 sp value) _
      (WhenOk-each IsBytes _ λ m e. memory_write_u32-IsBytes s.1 m sp value h.bytes e)
      (λ m bytes. record {
        mips = set_r-IsSoundMips mips_r_sp sp s.0 (omega arith) h.mips;
        bytes = bytes;
      })

push_auxv-IsSound :
    (entries : List (ℕ × ℕ)) (s : Mips × Memory)
    → IsSoundPair s
    → WhenOk IsSoundPair (push_auxv entries s)
unfolding push_auxv
push_auxv-IsSound [] s h = h
push_auxv-IsSound (x ∷ xs) s h =
    WhenOk-bind IsSoundPair IsSoundPair (push_auxv xs s) _ (push_auxv-IsSound xs s h) λ s₁ h₁.
      WhenOk-bind IsSoundPair IsSoundPair (push x.1 s₁) _ (push-IsSound x.1 s₁ h₁)
        λ s₂ h₂. push-IsSound x.0 s₂ h₂

push_arguments-IsSound :
    (ehdr : Ehdr) (random_ptr name_ptr : ℕ) (s : Mips × Memory)
    → IsSoundPair s
    → WhenOk IsSoundPair (push_arguments ehdr random_ptr name_ptr s)
unfolding push_arguments
push_arguments-IsSound ehdr random_ptr name_ptr s h =
    WhenOk-bind IsSoundPair IsSoundPair (push_auxv (auxv ehdr random_ptr name_ptr) s) _
      (push_auxv-IsSound _ s h)
      λ s₁ h₁. WhenOk-bind IsSoundPair IsSoundPair (push 0 s₁) _ (push-IsSound 0 s₁ h₁) λ s₂ h₂.
        WhenOk-bind IsSoundPair IsSoundPair (push 0 s₂) _ (push-IsSound 0 s₂ h₂) λ s₃ h₃.
          WhenOk-bind IsSoundPair IsSoundPair (push name_ptr s₃) _ (push-IsSound name_ptr s₃ h₃)
            λ s₄ h₄. push-IsSound 1 s₄ h₄

module _ (elf : ElfFile) where
  loader_load_sp-IsSound :
      (ehdr : Ehdr) (s s' : Mips × Memory)
      → IsSoundPair s
      → loader_load_sp elf ehdr s ≡ ok s'
      → IsSoundPair s'
  unfolding loader_load_sp
  loader_load_sp-IsSound ehdr s s' h e =
      let random_ptr = u32 (user_top + 2 ^ 32 - 16) in
      let name_ptr = u32 (random_ptr + 2 ^ 32 - 8) in
      let (m₁, mapped, e₁) =
        >>=-eq-ok (memory_allocate elf.calloc s.1 stack_bot (stack_size + 1)) _ e in
      let (m₂, cleared, e₂) = >>=-eq-ok (memory_set m₁ stack_bot (stack_size + 1) 0) _ e₁ in
      let (m₃, random, e₃) = >>=-eq-ok (memory_copy_write m₂ random_ptr 16 random_bytes) _ e₂ in
      let (m₄, name, e₄) = >>=-eq-ok (memory_copy_write m₃ name_ptr 8 name_bytes) _ e₃ in
      let b₁ = memory_allocate-IsBytes elf.calloc s.1 m₁ _ _ h.bytes mapped in
      let b₂ = memory_set-IsBytes m₁ m₂ _ _ 0 b₁ cleared in
      let b₃ =
        memory_copy_write-IsBytes m₂ m₃ random_ptr 16 random_bytes random_bytes-IsByte b₂ random in
      let b₄ = memory_copy_write-IsBytes m₃ m₄ name_ptr 8 name_bytes name_bytes-IsByte b₃ name in
      WhenOk-ok IsSoundPair _
        (push_arguments-IsSound ehdr random_ptr name_ptr _
          (record { mips = set_r-IsSoundMips mips_r_sp _ s.0 (omega arith) h.mips; bytes = b₄ }))
        e₄

  module _ (addresses : HasAddresses elf) where
    loader_load_ehdr-entry : (ehdr : Ehdr) → loader_load_ehdr elf ≡ ok ehdr → ehdr.e_entry < 2 ^ 32
    unfolding loader_load_ehdr
    loader_load_ehdr-entry ehdr e =
        let read = elf.fread 0 elf.sizeof_ehdr in
        let h = elf.ehdr_of read in
        let (_, e₁) = assert_then (elf.malloc elf.sizeof_ehdr) _ e in
        let (_, e₂) = assert_then (length read == elf.sizeof_ehdr) _ e₁ in
        let (_, e₃) = assert_then (h.e_machine == elf.em_mips) _ e₂ in
        let (_, e₄) = assert_then (h.ei_class == elf.elfclass32) _ e₃ in
        let (_, e₅) = assert_then (h.ei_data == elf.elfdata2lsb) _ e₄ in
        let (_, e₆) = assert_then (h.e_type == elf.et_exec) _ e₅ in
        subst (λ (h : Ehdr). h.e_entry < 2 ^ 32) (ok-injective e₆) (addresses.entry read)

    loader_load_pc-IsSound :
        (ehdr : Ehdr) (m : Mips)
        → ehdr.e_entry < 2 ^ 32
        → IsSoundMips m
        → IsSoundMips (loader_load_pc ehdr m)
    unfolding loader_load_pc
    loader_load_pc-IsSound ehdr m fits h =
        let m₁ = set_r mips_r_pc ehdr.e_entry m in
        let m₂ = set_r mips_r_npc (u32 (m₁.r mips_r_pc + 4)) m₁ in
        set_r-IsSoundMips mips_r_nnpc _ m₂ (omega arith) (
          set_r-IsSoundMips mips_r_npc _ m₁ (omega arith)
            (set_r-IsSoundMips mips_r_pc ehdr.e_entry m fits h))

    find_gp-lt :
        (symbols strings : List ℕ) (i n : ℕ)
        → WhenOk (WhenSome (λ v. v < 2 ^ 32)) (find_gp elf symbols strings i n)
    unfolding find_gp
    find_gp-lt symbols strings i zero = tt
    find_gp-lt symbols strings i (suc n) =
        let symbol = entry_of elf.sym_of elf.sizeof_sym symbols i in
        let rest = find_gp elf symbols strings (suc i) n in
        WhenOk-any (WhenSome (λ v. v < 2 ^ 32)) (is_gp strings symbol) _ λ found.
          WhenOk-if (WhenSome (λ v. v < 2 ^ 32)) found (ok (some symbol.st_value)) rest
            (addresses.value _) (find_gp-lt symbols strings (suc i) n)

    section_gp-lt :
        (ehdr : Ehdr) (shdrs : List ℕ) (i : ℕ)
        → WhenOk (WhenSome (λ v. v < 2 ^ 32)) (section_gp elf ehdr shdrs i)
    unfolding section_gp
    section_gp-lt ehdr shdrs i =
        let symtab = entry_of elf.shdr_of elf.sizeof_shdr shdrs i in
        let strtab = entry_of elf.shdr_of elf.sizeof_shdr shdrs symtab.sh_link in
        let found = loader_load_symbols elf symtab strtab >>= λ blocks.
        find_gp elf blocks.0 blocks.1 0 (symtab.sh_size / elf.sizeof_sym) in
        let P = WhenSome (λ v. v < 2 ^ 32) in
        WhenOk-if P (not (symtab.sh_type == elf.sht_symtab)) (ok none) _ tt (
          WhenOk-if P (not (ltb symtab.sh_link ehdr.e_shnum)) fault found tt (
            WhenOk-any P (loader_load_symbols elf symtab strtab) _
              λ blocks. find_gp-lt blocks.0 blocks.1 0 _))

    sections_gp-lt :
        (ehdr : Ehdr) (shdrs : List ℕ) (i n : ℕ)
        → WhenOk (λ v. v < 2 ^ 32) (sections_gp elf ehdr shdrs i n)
    unfolding sections_gp
    sections_gp-lt ehdr shdrs i zero = tt
    sections_gp-lt ehdr shdrs i (suc n) =
        WhenOk-bind (WhenSome (λ v. v < 2 ^ 32)) (λ v. v < 2 ^ 32) (section_gp elf ehdr shdrs i) _
          (section_gp-lt ehdr shdrs i)
          (λ found fits.
            or_next (λ v. v < 2 ^ 32) (sections_gp elf ehdr shdrs (suc i) n) found fits
              (sections_gp-lt ehdr shdrs (suc i) n))

    loader_load_gp-IsSound :
        (ehdr : Ehdr) (shdrs : List ℕ) (m m' : Mips)
        → IsSoundMips m
        → loader_load_gp elf ehdr shdrs m ≡ ok m'
        → IsSoundMips m'
    unfolding loader_load_gp
    loader_load_gp-IsSound ehdr shdrs m m' h e =
        let (v, found, same) = >>=-eq-ok (sections_gp elf ehdr shdrs 0 ehdr.e_shnum) _ e in
        subst IsSoundMips (ok-injective same) (
          set_r-IsSoundMips mips_r_gp v m
            (WhenOk-ok (λ v. v < 2 ^ 32) _ (sections_gp-lt ehdr shdrs 0 ehdr.e_shnum) found) h)

    -- When `loader_elf` returns, from a sound processor and a memory of bytes, the processor is
    -- sound again and the memory holds bytes, whatever the file says, if its addresses have the 32
    -- bits that elf.h gives them.
    pub loader_elf-IsSound :
        (s s' : Mips × Memory) → IsSoundPair s → loader_elf elf s ≡ ok s' → IsSoundPair s'
    unfolding loader_elf loader_load_segments
    loader_elf-IsSound s s' h e =
        let (_, e₀) = assert_then elf.fopen _ e in
        let (ehdr, header, e₁) = >>=-eq-ok (loader_load_ehdr elf) _ e₀ in
        let (phdrs, _, e₂) = >>=-eq-ok (loader_load_phdr elf ehdr) _ e₁ in
        let (shdrs, _, e₃) = >>=-eq-ok (loader_load_shdr elf ehdr) _ e₂ in
        let (memory, filled, e₄) = >>=-eq-ok (loader_load_segments elf ehdr phdrs s.1) _ e₃ in
        let begun = loader_load_pc ehdr s.0 in
        let (mips, with_gp, e₅) = >>=-eq-ok (loader_load_gp elf ehdr shdrs begun) _ e₄ in
        let fits = loader_load_ehdr-entry ehdr header in
        loader_load_sp-IsSound ehdr (mips, memory) s'
          (record {
            mips =
                loader_load_gp-IsSound ehdr shdrs begun mips
                  (loader_load_pc-IsSound ehdr s.0 fits h.mips) with_gp;
            bytes =
                WhenOk-ok IsBytes _
                  (load_segments_from-IsBytes elf phdrs 0 ehdr.e_phnum s.1 h.bytes) filled;
          })
          e₅
