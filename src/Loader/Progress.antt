-- ===== src/Loader/Progress.antt =====
-- The initial stack is loaded (`loader_load_sp` in loader.c) whenever the host has memory.
use comparing_complexity_and.Base.{
  ℕ, ◌+◌, ◌-◌, ◌*◌, ◌%◌, ◌^◌, ◌≤◌, ◌≡◌, refl, ◌∙◌, arith, List, [], ◌∷◌, length, true, Result, ok,
  bind-ok,
}
use comparing_complexity_and.Word.{u32, to_bytes}
use comparing_complexity_and.Machine.{Mips, set_r, mips_r_sp}
use comparing_complexity_and.Memory.{Memory, user_top, stack_size, memory_write_u32}
use comparing_complexity_and.Memory.Progress.{
  IsMappedRange, memory_allocate_total, memory_set-Writes, memory_copy_write-Writes,
  memory_write_u32-Writes,
}
use comparing_complexity_and.Loader.{Ehdr, ElfFile}
use comparing_complexity_and.Loader.Stack.{
  auxv, name_bytes, random_bytes, stack_bot, push, push_auxv, push_arguments, loader_load_sp,
}
use comparing_complexity_and.Loader.Start.{InitialStack, loader_load_sp-InitialStack}

-- The stack's pages are there, and its top is at `n`.
abbrev StackAt : ℕ → Mips × Memory → Type 0
StackAt n s = (s.0.r mips_r_sp ≡ n) × IsMappedRange s.1 stack_bot (stack_size + 1)

abbrev ComesTo : Result (Mips × Memory) → ℕ → Type 0
ComesTo r n = (s : Mips × Memory) × (r ≡ ok s) × StackAt n s

push-eq-ok :
    (v n : ℕ) (s : Mips × Memory) (m' : Memory)
    → u32 (s.0.r mips_r_sp + 2 ^ 32 - 4) ≡ n
    → memory_write_u32 s.1 n v ≡ ok m'
    → push v s ≡ ok (set_r mips_r_sp n s.0, m')
unfolding push
push-eq-ok v n s m' down written = rw down (bind-ok _ written)

push-StackAt :
    (v n : ℕ) (s : Mips × Memory)
    → n % 4 ≡ 0
    → stack_bot ≤ n
    → n + 4 ≤ user_top
    → StackAt (n + 4) s
    → ComesTo (push v s) n
push-StackAt v n s aligned above below (sp, mapped) =
    let down : u32 (s.0.r mips_r_sp + 2 ^ 32 - 4) ≡ n = omega arith in
    let (m', written, keeps) =
      memory_write_u32-Writes s.1 n v aligned (omega arith)
        (λ y p q. mapped y (omega arith) (omega arith)) in
    (
      (set_r mips_r_sp n s.0, m'),
      push-eq-ok v n s m' down written,
      (refl, λ y p q. keeps y (mapped y p q)),
    )

push_auxv-StackAt :
    (entries : List (ℕ × ℕ)) (n : ℕ) (s : Mips × Memory)
    → n % 4 ≡ 0
    → stack_bot ≤ n
    → n + 8 * length entries ≤ user_top
    → StackAt (n + 8 * length entries) s
    → ComesTo (push_auxv entries s) n
unfolding push_auxv
push_auxv-StackAt [] n s aligned above below (sp, mapped) = (s, refl, (omega arith, mapped))
push_auxv-StackAt (entry ∷ entries) n s aligned above below (sp, mapped) =
    let (s₁, pushed, at₁) =
      push_auxv-StackAt entries (n + 4 + 4) s (omega arith) (omega arith) (omega arith)
        (omega arith, mapped) in
    let (s₂, value, at₂) =
      push-StackAt entry.1 (n + 4) s₁ (omega arith) (omega arith) (omega arith) at₁ in
    let (s₃, kind, at₃) = push-StackAt entry.0 n s₂ aligned above (omega arith) at₂ in
    (s₃, bind-ok _ pushed ∙ bind-ok _ value ∙ kind, at₃)

push_arguments-StackAt :
    (ehdr : Ehdr) (random_ptr name_ptr : ℕ) (s : Mips × Memory)
    → StackAt 0x7fffffe0 s
    → ComesTo (push_arguments ehdr random_ptr name_ptr s) 0x7fffff98
unfolding push_arguments
push_arguments-StackAt ehdr random_ptr name_ptr s at =
    let (s₁, pushed, at₁) =
      push_auxv-StackAt (auxv ehdr random_ptr name_ptr) 0x7fffffa8 s refl (omega arith)
        (omega arith) at in
    let (s₂, envp, at₂) = push-StackAt 0 0x7fffffa4 s₁ refl (omega arith) (omega arith) at₁ in
    let (s₃, null, at₃) = push-StackAt 0 0x7fffffa0 s₂ refl (omega arith) (omega arith) at₂ in
    let (s₄, name, at₄) =
      push-StackAt name_ptr 0x7fffff9c s₃ refl (omega arith) (omega arith) at₃ in
    let (s₅, argc, at₅) = push-StackAt 1 0x7fffff98 s₄ refl (omega arith) (omega arith) at₄ in
    (s₅, bind-ok _ pushed ∙ bind-ok _ envp ∙ bind-ok _ null ∙ bind-ok _ name ∙ argc, at₅)

module _ (elf : ElfFile) (enough : (m : Memory) (n : ℕ) → elf.calloc m n ≡ true) where
  loader_load_sp-Returns :
      (ehdr : Ehdr) (s : Mips × Memory) → ComesTo (loader_load_sp elf ehdr s) 0x7fffff98
  unfolding loader_load_sp to_bytes
  loader_load_sp-Returns ehdr s =
      let (m₁, allocated, mapped) =
        memory_allocate_total elf.calloc enough s.1 stack_bot (stack_size + 1) (omega arith) in
      let (m₂, cleared, keeps₂) =
        memory_set-Writes m₁ stack_bot (stack_size + 1) 0 (omega arith) mapped in
      let (m₃, random, keeps₃) =
        memory_copy_write-Writes m₂ 0x7ffffff0 16 random_bytes refl (omega arith)
          (λ y p q. keeps₂ y (mapped y (omega arith) (omega arith))) in
      let (m₄, name, keeps₄) =
        memory_copy_write-Writes m₃ 0x7fffffe8 8 name_bytes refl (omega arith)
          (λ y p q. keeps₃ y (keeps₂ y (mapped y (omega arith) (omega arith)))) in
      let (s', pushed, at) =
        push_arguments-StackAt ehdr 0x7ffffff0 0x7fffffe8 (set_r mips_r_sp 0x7fffffe0 s.0, m₄)
          (refl, λ y p q. keeps₄ y (keeps₃ y (keeps₂ y (mapped y p q)))) in
      (s', bind-ok _ allocated ∙ bind-ok _ cleared ∙ bind-ok _ random ∙ bind-ok _ name ∙ pushed, at)

  -- When every `calloc` succeeds, `loader_load_sp` returns, with the initial stack in memory.
  pub loader_load_sp_total :
      (ehdr : Ehdr) (s : Mips × Memory)
      → (s' : Mips × Memory) × (loader_load_sp elf ehdr s ≡ ok s') × InitialStack ehdr s'
  loader_load_sp_total ehdr s =
      let (s', returned, _) = loader_load_sp-Returns ehdr s in
      (s', returned, loader_load_sp-InitialStack elf ehdr s s' returned)
