-- ===== src/Loader/Entry.antt =====
-- Where a loaded program starts (`loader_load_pc` in loader.c): nothing that `loader_elf` does later
-- moves the program counters.
use comparing_complexity_and.Base.{
  ℕ, ◌+◌, ◌-◌, ◌^◌, ◌<◌, ◌≡◌, false, List, [], ◌∷◌, ok, >>=-eq-ok, ok-injective, assert_then, refl,
  ◌∙◌, arith, subst, update-ne,
}
use comparing_complexity_and.Word.{u32}
use comparing_complexity_and.Machine.{
  Mips, set_r, mips_r_pc, mips_r_npc, mips_r_nnpc, mips_r_gp, mips_r_sp,
}
use comparing_complexity_and.Memory.{
  Memory, memory_write_u32, memory_allocate, memory_set, memory_copy_write, user_top, stack_size,
}
use comparing_complexity_and.Loader.{
  Ehdr, ElfFile, loader_load_ehdr, loader_load_phdr, loader_load_shdr, loader_load_segments,
  loader_load_pc, loader_load_gp, sections_gp,
}
use comparing_complexity_and.Loader.Stack.{
  push, push_auxv, push_arguments, loader_load_sp, loader_elf, auxv, stack_bot, random_bytes,
  name_bytes,
}
use comparing_complexity_and.Loader.Start.{InitialStack, loader_load_sp-InitialStack}

-- The three program counters at an entry point, and a processor that neither branches nor halts.
pub record Starts (entry : ℕ) (m : Mips) : Type 0 where
  pub pc : m.r mips_r_pc ≡ entry
  pub npc : m.r mips_r_npc ≡ u32 (entry + 4)
  pub nnpc : m.r mips_r_nnpc ≡ u32 (entry + 8)
  pub branched : m.branched ≡ false
  pub halted : m.halted ≡ false

set_r-Starts : (entry k v : ℕ) (m : Mips) → k < 34 → Starts entry m → Starts entry (set_r k v m)
set_r-Starts entry k v m below h = record {
  pc = update-ne m.r k mips_r_pc v (λ e. omega arith) ∙ h.pc;
  npc = update-ne m.r k mips_r_npc v (λ e. omega arith) ∙ h.npc;
  nnpc = update-ne m.r k mips_r_nnpc v (λ e. omega arith) ∙ h.nnpc;
  branched = h.branched;
  halted = h.halted;
}

push-Starts :
    (entry value : ℕ) (s s' : Mips × Memory)
    → Starts entry s.0
    → push value s ≡ ok s'
    → Starts entry s'.0
unfolding push
push-Starts entry value s s' h e =
    let sp = u32 (s.0.r mips_r_sp + 2 ^ 32 - 4) in
    let (m, _, same) = >>=-eq-ok (memory_write_u32 s.1 sp value) _ e in
    subst (λ (r : Mips × Memory). Starts entry r.0) (ok-injective same)
      (set_r-Starts entry mips_r_sp sp s.0 (omega arith) h)

push_auxv-Starts :
    (entry : ℕ) (entries : List (ℕ × ℕ)) (s s' : Mips × Memory)
    → Starts entry s.0
    → push_auxv entries s ≡ ok s'
    → Starts entry s'.0
unfolding push_auxv
push_auxv-Starts entry [] s s' h e =
    subst (λ (r : Mips × Memory). Starts entry r.0) (ok-injective e) h
push_auxv-Starts entry (x ∷ xs) s s' h e =
    let (s₁, first, e₁) = >>=-eq-ok (push_auxv xs s) _ e in
    let (s₂, second, e₂) = >>=-eq-ok (push x.1 s₁) _ e₁ in
    push-Starts entry x.0 s₂ s'
      (push-Starts entry x.1 s₁ s₂ (push_auxv-Starts entry xs s s₁ h first) second) e₂

push_arguments-Starts :
    (entry : ℕ) (ehdr : Ehdr) (random_ptr name_ptr : ℕ) (s s' : Mips × Memory)
    → Starts entry s.0
    → push_arguments ehdr random_ptr name_ptr s ≡ ok s'
    → Starts entry s'.0
unfolding push_arguments
push_arguments-Starts entry ehdr random_ptr name_ptr s s' h e =
    let (s₁, p₁, e₁) = >>=-eq-ok (push_auxv (auxv ehdr random_ptr name_ptr) s) _ e in
    let (s₂, p₂, e₂) = >>=-eq-ok (push 0 s₁) _ e₁ in
    let (s₃, p₃, e₃) = >>=-eq-ok (push 0 s₂) _ e₂ in
    let (s₄, p₄, e₄) = >>=-eq-ok (push name_ptr s₃) _ e₃ in
    let h₁ = push_auxv-Starts entry _ s s₁ h p₁ in
    let h₂ = push-Starts entry 0 s₁ s₂ h₁ p₂ in
    let h₃ = push-Starts entry 0 s₂ s₃ h₂ p₃ in
    push-Starts entry 1 s₄ s' (push-Starts entry name_ptr s₃ s₄ h₃ p₄) e₄

module _ (elf : ElfFile) where
  loader_load_sp-Starts :
      (entry : ℕ) (ehdr : Ehdr) (s s' : Mips × Memory)
      → Starts entry s.0
      → loader_load_sp elf ehdr s ≡ ok s'
      → Starts entry s'.0
  unfolding loader_load_sp
  loader_load_sp-Starts entry ehdr s s' h e =
      let random_ptr = u32 (user_top + 2 ^ 32 - 16) in
      let name_ptr = u32 (random_ptr + 2 ^ 32 - 8) in
      let (m₁, _, e₁) = >>=-eq-ok (memory_allocate elf.calloc s.1 stack_bot (stack_size + 1)) _ e in
      let (m₂, _, e₂) = >>=-eq-ok (memory_set m₁ stack_bot (stack_size + 1) 0) _ e₁ in
      let (m₃, _, e₃) = >>=-eq-ok (memory_copy_write m₂ random_ptr 16 random_bytes) _ e₂ in
      let (m₄, _, e₄) = >>=-eq-ok (memory_copy_write m₃ name_ptr 8 name_bytes) _ e₃ in
      push_arguments-Starts entry ehdr random_ptr name_ptr _ s'
        (set_r-Starts entry mips_r_sp _ s.0 (omega arith) h) e₄

  loader_load_pc-Starts :
      (ehdr : Ehdr) (m : Mips)
      → m.branched ≡ false
      → m.halted ≡ false
      → Starts ehdr.e_entry (loader_load_pc ehdr m)
  unfolding loader_load_pc
  loader_load_pc-Starts ehdr m b h = record {
    pc = refl;
    npc = refl;
    nnpc = refl;
    branched = b;
    halted = h;
  }

  gp_kept :
      (ehdr : Ehdr) (shdrs : List ℕ) (m m' : Mips)
      → Starts ehdr.e_entry m
      → loader_load_gp elf ehdr shdrs m ≡ ok m'
      → Starts ehdr.e_entry m'
  unfolding loader_load_gp
  gp_kept ehdr shdrs m m' h e =
      let (value, _, same) = >>=-eq-ok (sections_gp elf ehdr shdrs 0 ehdr.e_shnum) _ e in
      subst (Starts ehdr.e_entry) (ok-injective same)
        (set_r-Starts ehdr.e_entry mips_r_gp value m (omega arith) h)

  -- What a load comes to, by the file's header.
  pub record IsLoaded (s : Mips × Memory) : Type 0 where
    pub ehdr : Ehdr
    pub header : loader_load_ehdr elf ≡ ok ehdr
    pub starts : Starts ehdr.e_entry s.0
    pub stack : InitialStack ehdr s

  -- When `loader_elf` returns, on a processor that has neither branched nor halted: the three
  -- program counters are at the entry point of the file's header and the two addresses behind it,
  -- it still has neither branched nor halted, and the stack is the initial one for this header:
  -- argc, argv with the program's name, no environment, and the auxiliary vector.
  pub loader_elf-IsLoaded :
      (s s' : Mips × Memory)
      → s.0.branched ≡ false
      → s.0.halted ≡ false
      → loader_elf elf s ≡ ok s'
      → IsLoaded s'
  unfolding loader_elf
  loader_elf-IsLoaded s s' b h e =
      let (_, e₀) = assert_then elf.fopen _ e in
      let (ehdr, header, e₁) = >>=-eq-ok (loader_load_ehdr elf) _ e₀ in
      let (phdrs, _, e₂) = >>=-eq-ok (loader_load_phdr elf ehdr) _ e₁ in
      let (shdrs, _, e₃) = >>=-eq-ok (loader_load_shdr elf ehdr) _ e₂ in
      let (memory, _, e₄) = >>=-eq-ok (loader_load_segments elf ehdr phdrs s.1) _ e₃ in
      let begun = loader_load_pc ehdr s.0 in
      let (mips, with_gp, e₅) = >>=-eq-ok (loader_load_gp elf ehdr shdrs begun) _ e₄ in
      let started = gp_kept ehdr shdrs begun mips (loader_load_pc-Starts ehdr s.0 b h) with_gp in
      record {
        ehdr = ehdr;
        header = header;
        starts = loader_load_sp-Starts ehdr.e_entry ehdr (mips, memory) s' started e₅;
        stack = loader_load_sp-InitialStack elf ehdr (mips, memory) s' e₅;
      }
