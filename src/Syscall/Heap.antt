-- ===== src/Syscall/Heap.antt =====
-- What `brk` and `mmap2` (syscalls.h) give a program.
use comparing_complexity_and.Base.{
  ℕ, ◌+◌, ◌-◌, ◌^◌, ◌≤◌, ◌<◌, ◌≡◌, refl, arith, ltb, not, true, bit_and, ok, >>=-eq-ok,
  ok-injective, assert_then, subst,
}
use comparing_complexity_and.Word.{u32}
use comparing_complexity_and.Machine.{mips_r_v0, mips_r_a3, mips_r_sp}
use comparing_complexity_and.Memory.{
  Memory, Page, user_top, memory_find_page, memory_read_u32, memory_set, memory_allocate,
}
use comparing_complexity_and.Memory.Flat.{byte_at}
use comparing_complexity_and.Memory.Access.{distance, byte_at-memory_set}
use comparing_complexity_and.Memory.Allocate.{memory_allocate_lem}
use comparing_complexity_and.Host.{Env, Machine, set_memory}
use comparing_complexity_and.Syscall.{return_v0, mips_syscall_brk, mips_syscall_mmap2}

abbrev pub BrkGives : ℕ → ℕ → Machine → Type 0
BrkGives brk y s =
    (s.mips.r mips_r_v0 ≡ brk)
    × (s.memory.brk_heap_end ≡ brk)
    × (p : Page) × (memory_find_page s.memory y ≡ ok p)

-- `brk` to an address above the end of the heap, when it returns: the address is the result and the
-- new end, and every address between the old end and the new one is mapped.
pub mips_syscall_brk_lem :
    (env : Env) (s s' : Machine) (brk y : ℕ)
    → brk < 2 ^ 32
    → s.memory.brk_heap_end ≤ y
    → y < brk
    → mips_syscall_brk env s brk ≡ ok s'
    → BrkGives brk y s'
unfolding mips_syscall_brk memory_find_page
mips_syscall_brk_lem env s s' brk y small p q e =
    let above : ltb s.memory.brk_heap_end brk ≡ true = ground arith in
    let size = brk - s.memory.brk_heap_end in
    let (m₁, grow, done) = >>=-eq-ok _ _ (rw (mips_syscall_brk, above) at e) in
    let (m₂, mapped, moved) =
      >>=-eq-ok (memory_allocate env.calloc s.memory s.memory.brk_heap_end size) _ grow in
    let found =
      memory_allocate_lem env.calloc s.memory m₂ s.memory.brk_heap_end size y (omega arith) p
        (omega arith) mapped in
    subst (BrkGives brk y) (ok-injective done) (
      subst (λ r. BrkGives brk y (return_v0 r.brk_heap_end (set_memory r s))) (ok-injective moved)
        (omega arith, refl, found.0, found.1))

-- The length that `mmap2` rounds up to whole pages.
abbrev pub whole_pages : ℕ → ℕ
whole_pages len = bit_and (u32 (len + 0xfff)) (2 ^ 32 - 1 - 0xfff)

cleared_byte :
    (m m' : Memory) (t n y v : ℕ)
    → t + n < 2 ^ 32
    → t ≤ y
    → y < t + n
    → memory_set m t n 0 ≡ ok m'
    → byte_at (record m' { mmap_heap_end = v }) y ≡ ok 0
unfolding byte_at memory_find_page
cleared_byte m m' t n y v fits p q e =
    let near : ltb (distance t y) n ≡ true = ground arith in
    rw near at (byte_at-memory_set m m' t y n (omega arith) (omega arith) (omega arith) e)

-- When `mmap2` returns, and the region does not pass the end of the address space, its start is the
-- result, it lies below `USER_TOP`, and each of its bytes is mapped and zero.
pub mips_syscall_mmap2_lem :
    (env : Env) (s s' : Machine) (len y : ℕ)
    → s.memory.mmap_heap_end + whole_pages len < 2 ^ 32
    → s.memory.mmap_heap_end ≤ y
    → y < s.memory.mmap_heap_end + whole_pages len
    → mips_syscall_mmap2 env s len ≡ ok s'
    → (s'.mips.r mips_r_v0 ≡ s.memory.mmap_heap_end)
      × (s'.mips.r mips_r_a3 ≡ 0)
      × (s.memory.mmap_heap_end + whole_pages len ≤ user_top)
      × (byte_at s'.memory y ≡ ok 0)
unfolding mips_syscall_mmap2
mips_syscall_mmap2_lem env s s' len y fits p q e =
    let t = s.memory.mmap_heap_end in
    let (fd, _, e₁) = >>=-eq-ok (memory_read_u32 s.memory (u32 (s.mips.r mips_r_sp + 16))) _ e in
    let (pgoff, _, e₂) =
      >>=-eq-ok (memory_read_u32 s.memory (u32 (s.mips.r mips_r_sp + 20))) _ e₁ in
    let (low, e₃) = assert_then (not (ltb user_top (u32 (t + whole_pages len)))) _ e₂ in
    let (m₁, mapped, e₄) =
      >>=-eq-ok (memory_allocate env.calloc s.memory t (whole_pages len)) _ e₃ in
    let (m₂, cleared, done) = >>=-eq-ok (memory_set m₁ t (whole_pages len) 0) _ e₄ in
    subst
      (λ (r : Machine).
        (r.mips.r mips_r_v0 ≡ s.memory.mmap_heap_end)
        × (r.mips.r mips_r_a3 ≡ 0)
        × (s.memory.mmap_heap_end + whole_pages len ≤ user_top)
        × (byte_at r.memory y ≡ ok 0))
      (ok-injective done)
      (omega arith, refl, ground arith, cleared_byte m₁ m₂ t (whole_pages len) y _ fits p q cleared)
