-- ===== src/Syscall/Progress.antt =====
-- `brk` and `mmap2` (syscalls.h) return when the host has memory.
use comparing_complexity_and.Base.{
  ℕ, ◌+◌, ◌-◌, ◌^◌, ◌≤◌, ◌<◌, ◌≡◌, ◌∙◌, arith, ltb, not, true, ok, bind-ok, assert-ok,
}
use comparing_complexity_and.Word.{u32}
use comparing_complexity_and.Machine.{mips_r_v0, mips_r_sp}
use comparing_complexity_and.Memory.{Memory, user_top, memory_read_u32}
use comparing_complexity_and.Memory.Flat.{byte_at}
use comparing_complexity_and.Memory.Progress.{memory_allocate_total, memory_set-Writes}
use comparing_complexity_and.Host.{Env, Machine, set_memory}
use comparing_complexity_and.Syscall.{return_v0, mips_syscall_brk, mips_syscall_mmap2}
use comparing_complexity_and.Syscall.Heap.{
  BrkGives, whole_pages, mips_syscall_brk_lem, mips_syscall_mmap2_lem,
}

module _ (env : Env) (enough : (m : Memory) (n : ℕ) → env.calloc m n ≡ true) where
  mmap2-Returns :
      (s : Machine) (len fd pgoff : ℕ)
      → memory_read_u32 s.memory (u32 (s.mips.r mips_r_sp + 16)) ≡ ok fd
      → memory_read_u32 s.memory (u32 (s.mips.r mips_r_sp + 20)) ≡ ok pgoff
      → s.memory.mmap_heap_end + whole_pages len ≤ user_top
      → (s' : Machine) × (mips_syscall_mmap2 env s len ≡ ok s')
  unfolding mips_syscall_mmap2
  mmap2-Returns s len fd pgoff first second low =
      let t = s.memory.mmap_heap_end in
      let n = whole_pages len in
      let below : not (ltb user_top (u32 (t + n))) ≡ true = ground arith in
      let (m₁, allocated, mapped) =
        memory_allocate_total env.calloc enough s.memory t n (omega arith) in
      let (m₂, cleared, _) = memory_set-Writes m₁ t n 0 (omega arith) mapped in
      (
        _,
        bind-ok _ first
            ∙ bind-ok _ second
            ∙ assert-ok (not (ltb user_top (u32 (t + n)))) _ below
            ∙ bind-ok _ allocated
            ∙ bind-ok _ cleared,
      )

  -- When every `calloc` succeeds, `mmap2` returns if the two stack arguments can be read and the
  -- region, `len` rounded up to whole pages, ends at `USER_TOP` at most: the result is the region's
  -- start, and each of its bytes is mapped and zero.
  pub mips_syscall_mmap2_total :
      (s : Machine) (len fd pgoff : ℕ)
      → memory_read_u32 s.memory (u32 (s.mips.r mips_r_sp + 16)) ≡ ok fd
      → memory_read_u32 s.memory (u32 (s.mips.r mips_r_sp + 20)) ≡ ok pgoff
      → s.memory.mmap_heap_end + whole_pages len ≤ user_top
      → (s' : Machine) × (mips_syscall_mmap2 env s len ≡ ok s')
        × ((y : ℕ)
            → s.memory.mmap_heap_end ≤ y
            → y < s.memory.mmap_heap_end + whole_pages len
            → (s'.mips.r mips_r_v0 ≡ s.memory.mmap_heap_end) × (byte_at s'.memory y ≡ ok 0))
  mips_syscall_mmap2_total s len fd pgoff first second low =
      let (s', returned) = mmap2-Returns s len fd pgoff first second low in
      (
        s',
        returned,
        λ y p q.
            let (v0, _, _, zero) =
              mips_syscall_mmap2_lem env s s' len y (omega arith) p q returned in
            (v0, zero),
      )

  brk-Returns :
      (s : Machine) (brk : ℕ)
      → s.memory.brk_heap_end < brk
      → brk < 2 ^ 32
      → (s' : Machine) × (mips_syscall_brk env s brk ≡ ok s')
  unfolding mips_syscall_brk
  brk-Returns s brk above small =
      let low = s.memory.brk_heap_end in
      let test : ltb low brk ≡ true = ground arith in
      let (m₁, allocated, _) =
        memory_allocate_total env.calloc enough s.memory low (brk - low) (omega arith) in
      (
        return_v0 brk (set_memory (record m₁ { brk_heap_end = brk }) s),
        rw (test, mips_syscall_brk, allocated),
      )

  -- When every `calloc` succeeds, `brk` to an address above the end of the heap returns: the address
  -- is the result and the new end, and every address between the two ends is mapped.
  pub mips_syscall_brk_total :
      (s : Machine) (brk : ℕ)
      → s.memory.brk_heap_end < brk
      → brk < 2 ^ 32
      → (s' : Machine) × (mips_syscall_brk env s brk ≡ ok s')
        × ((y : ℕ) → s.memory.brk_heap_end ≤ y → y < brk → BrkGives brk y s')
  mips_syscall_brk_total s brk above small =
      let (s', returned) = brk-Returns s brk above small in
      (s', returned, λ y p q. mips_syscall_brk_lem env s s' brk y small p q returned)
