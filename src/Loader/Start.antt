-- ===== src/Loader/Start.antt =====
-- What a program finds on its stack at its start (`loader_load_sp` in loader.c).
use comparing_complexity_and.Base.{
  ℕ, ◌+◌, ◌^◌, ◌%◌, ◌<◌, ◌≤◌, ◌≡◌, refl, sym, ◌∙◌, arith, List, ◌∷◌, length, map, ok, >>=-eq-ok,
}
use comparing_complexity_and.Word.{u32, to_bytes}
use comparing_complexity_and.Machine.{Mips, set_r, mips_r_sp}
use comparing_complexity_and.Memory.{
  Memory, stack_size, memory_allocate, memory_copy_read, memory_copy_write, memory_set,
}
use comparing_complexity_and.Memory.Copy.{memory_copy_read-eq-read_flat}
use comparing_complexity_and.Memory.Access.{
  byte_at-memory_copy_write, memory_copy_read-memory_copy_write,
}
use comparing_complexity_and.Loader.{Ehdr, ElfFile}
use comparing_complexity_and.Loader.Stack.{
  auxv, name_bytes, random_bytes, stack_bot, push, push_auxv, push_arguments, loader_load_sp,
}
use comparing_complexity_and.Loader.Pushes.{
  Pushed, SameFrom, words_at, read_flat-SameFrom, push-Pushed, push_auxv-Pushed, flat,
}

-- From the top of the stack on: argc, argv and its null, the null of envp, and the auxiliary
-- vector; behind them the name and the random bytes that these point to.
pub record InitialStack (ehdr : Ehdr) (s : Mips × Memory) : Type 0 where
  pub sp : s.0.r mips_r_sp ≡ 0x7fffff98
  pub words :
      words_at s.1 0x7fffff98 18
      ≡ ok (map u32 (1 ∷ 0x7fffffe8 ∷ 0 ∷ 0 ∷ flat (auxv ehdr 0x7ffffff0 0x7fffffe8)))
  pub name : memory_copy_read s.1 0x7fffffe8 8 ≡ ok name_bytes
  pub random : memory_copy_read s.1 0x7ffffff0 16 ≡ ok random_bytes

push_arguments-Pushed :
    (ehdr : Ehdr) (random_ptr name_ptr : ℕ) (s s' : Mips × Memory)
    → s.0.r mips_r_sp ≡ 0x7fffffe0
    → push_arguments ehdr random_ptr name_ptr s ≡ ok s'
    → Pushed (1 ∷ name_ptr ∷ 0 ∷ 0 ∷ flat (auxv ehdr random_ptr name_ptr)) s s'
unfolding push_arguments
push_arguments-Pushed ehdr random_ptr name_ptr s s' top e =
    let ws = flat (auxv ehdr random_ptr name_ptr) in
    let aligned : s.0.r mips_r_sp % 4 ≡ 0 = omega arith in
    let low : s.0.r mips_r_sp < 2 ^ 31 + 1 = omega arith in
    let (s₁, pushed, e₁) = >>=-eq-ok (push_auxv (auxv ehdr random_ptr name_ptr) s) _ e in
    let (s₂, envp, e₂) = >>=-eq-ok (push 0 s₁) _ e₁ in
    let (s₃, null, e₃) = >>=-eq-ok (push 0 s₂) _ e₂ in
    let (s₄, name, argc) = >>=-eq-ok (push name_ptr s₃) _ e₃ in
    let p₁ =
      push_auxv-Pushed (auxv ehdr random_ptr name_ptr) s s₁ aligned low (omega arith) pushed in
    let p₂ = push-Pushed ws 0 s s₁ s₂ aligned low (omega arith) p₁ envp in
    let p₃ = push-Pushed (0 ∷ ws) 0 s s₂ s₃ aligned low (omega arith) p₂ null in
    let p₄ = push-Pushed (0 ∷ 0 ∷ ws) name_ptr s s₃ s₄ aligned low (omega arith) p₃ name in
    push-Pushed (name_ptr ∷ 0 ∷ 0 ∷ ws) 1 s s₄ s' aligned low (omega arith) p₄ argc

memory_copy_read-SameFrom :
    (m m' : Memory) (x z n : ℕ)
    → SameFrom z m m'
    → z ≤ x
    → x + n < 2 ^ 32
    → memory_copy_read m' x n ≡ memory_copy_read m x n
memory_copy_read-SameFrom m m' x z n same le fits =
    memory_copy_read-eq-read_flat m' x n (omega arith)
    ∙ read_flat-SameFrom m m' x z n same le fits
    ∙ sym (memory_copy_read-eq-read_flat m x n (omega arith))

-- A copy changes no byte behind it.
memory_copy_write-SameFrom :
    (m m' : Memory) (x z : ℕ) (bs : List ℕ)
    → x + length bs ≤ z
    → z < 2 ^ 32
    → memory_copy_write m x (length bs) bs ≡ ok m'
    → SameFrom z m m'
memory_copy_write-SameFrom m m' x z bs le hz e y p q =
    byte_at-memory_copy_write m m' x y bs (omega arith) q (omega arith) e ∙ ground arith

-- When `loader_load_sp` returns, `%sp` points to argc, argv with the program's name, no
-- environment, and the auxiliary vector, in this order, and the name's eight bytes and the sixteen
-- random ones lie where the vector says: the random bytes directly behind the name.
pub loader_load_sp-InitialStack :
    (elf : ElfFile) (ehdr : Ehdr) (s s' : Mips × Memory)
    → loader_load_sp elf ehdr s ≡ ok s'
    → InitialStack ehdr s'
unfolding loader_load_sp to_bytes
loader_load_sp-InitialStack elf ehdr s s' e =
    let (m₁, mapped, e₁) =
      >>=-eq-ok (memory_allocate elf.calloc s.1 stack_bot (stack_size + 1)) _ e in
    let (m₂, cleared, e₂) = >>=-eq-ok (memory_set m₁ stack_bot (stack_size + 1) 0) _ e₁ in
    let (m₃, random, e₃) = >>=-eq-ok (memory_copy_write m₂ 0x7ffffff0 16 random_bytes) _ e₂ in
    let (m₄, name, e₄) = >>=-eq-ok (memory_copy_write m₃ 0x7fffffe8 8 name_bytes) _ e₃ in
    let p =
      push_arguments-Pushed ehdr 0x7ffffff0 0x7fffffe8 (set_r mips_r_sp 0x7fffffe0 s.0, m₄) s' refl
        e₄ in
    let moved = p.moved in
    let sp : s'.0.r mips_r_sp ≡ 0x7fffff98 = omega arith in
    let same =
      memory_copy_write-SameFrom m₃ m₄ 0x7fffffe8 0x7ffffff0 name_bytes (omega arith) (omega arith)
        name in
    record {
      sp = sp;
      words = rw sp at p.words;
      name =
          memory_copy_read-SameFrom m₄ s'.1 0x7fffffe8 0x7fffffe0 8 p.above (omega arith)
            (omega arith)
          ∙ memory_copy_read-memory_copy_write m₃ m₄ 0x7fffffe8 name_bytes (omega arith)
              (omega arith) name;
      random =
          memory_copy_read-SameFrom m₄ s'.1 0x7ffffff0 0x7fffffe0 16 p.above (omega arith)
            (omega arith)
          ∙ memory_copy_read-SameFrom m₃ m₄ 0x7ffffff0 0x7ffffff0 16 same (omega arith)
              (omega arith)
          ∙ memory_copy_read-memory_copy_write m₂ m₃ 0x7ffffff0 random_bytes (omega arith)
              (omega arith) random;
    }
