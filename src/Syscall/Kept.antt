-- ===== src/Syscall/Kept.antt =====
-- What the handlers of syscalls.h do to a sound machine: results in registers, bytes in the memory.
use comparing_complexity_and.Base.{
  ℕ, zero, suc, ◌^◌, ◌<◌, List, [], ◌∷◌, AllOf, Result, WhenOk, WhenOk-bind, arith,
}
use comparing_complexity_and.Word.{u32}
use comparing_complexity_and.Machine.{set_r, mips_r_v0}
use comparing_complexity_and.Memory.{Memory, memory_find_page, memory_write_u16, memory_write_u32}
use comparing_complexity_and.Memory.Bytes.{
  IsByte, IsBytes, memory_write_u16-IsBytes, memory_write_u32-IsBytes,
}
use comparing_complexity_and.Host.{HostCall, Machine, set_mips, called}
use comparing_complexity_and.Host.Sound.{
  IsSound, set_r-IsSoundMips, set_mips-IsSound, called-IsSound, WhenOk-each,
}
use comparing_complexity_and.Syscall.{filled_buffer, return_v0, write_winsize, write_timespec}

-- The calls that lead to sound machines only.
abbrev pub Sound : Result Machine → Type 0
Sound = WhenOk IsSound

pub set_r-IsSound :
    (k v : ℕ) (s : Machine) → v < 2 ^ 32 → IsSound s → IsSound (set_mips (set_r k v s.mips) s)
set_r-IsSound k v s fits h = set_mips-IsSound _ s (set_r-IsSoundMips k v s.mips fits h.mips) h

pub return_v0-IsSound : (v : ℕ) (s : Machine) → IsSound s → IsSound (return_v0 v s)
return_v0-IsSound v s h = set_r-IsSound mips_r_v0 (u32 v) s (omega arith) h

pub answered-IsSound :
    (v : ℕ) (call : HostCall) (s : Machine) → IsSound s → IsSound (return_v0 v (called call s))
answered-IsSound v call s h = return_v0-IsSound v (called call s) (called-IsSound call s h)

pub filled_buffer-IsByte :
    (g : ℕ → ℕ) (payload : List ℕ) (i n : ℕ) → AllOf IsByte (filled_buffer g payload i n)
unfolding filled_buffer
filled_buffer-IsByte g payload i zero = tt
filled_buffer-IsByte g [] i (suc n) = (omega arith, filled_buffer-IsByte g [] (suc i) n)
filled_buffer-IsByte g (b ∷ bs) i (suc n) = (omega arith, filled_buffer-IsByte g bs (suc i) n)

pub write_u16-IsBytes : (m : Memory) (x v : ℕ) → IsBytes m → WhenOk IsBytes (memory_write_u16 m x v)
write_u16-IsBytes m x v h = WhenOk-each IsBytes _ λ m'. memory_write_u16-IsBytes m m' x v h

pub write_u32-IsBytes : (m : Memory) (x v : ℕ) → IsBytes m → WhenOk IsBytes (memory_write_u32 m x v)
write_u32-IsBytes m x v h = WhenOk-each IsBytes _ λ m'. memory_write_u32-IsBytes m m' x v h

pub write_winsize-IsBytes :
    (m : Memory) (argp : ℕ) (ws : List ℕ) → IsBytes m → WhenOk IsBytes (write_winsize m argp ws)
unfolding write_winsize
write_winsize-IsBytes m argp ws h =
    WhenOk-bind IsBytes IsBytes _ _ (write_u16-IsBytes m _ _ h) λ m₁ h₁.
      WhenOk-bind IsBytes IsBytes _ _ (write_u16-IsBytes m₁ _ _ h₁) λ m₂ h₂.
        WhenOk-bind IsBytes IsBytes _ _ (write_u16-IsBytes m₂ _ _ h₂)
          λ m₃ h₃. write_u16-IsBytes m₃ _ _ h₃

pub write_timespec-IsBytes :
    (m : Memory) (ptr : ℕ) (ts : List ℕ) → IsBytes m → WhenOk IsBytes (write_timespec m ptr ts)
unfolding write_timespec
write_timespec-IsBytes m ptr ts h =
    WhenOk-bind IsBytes IsBytes _ _ (write_u32-IsBytes m _ _ h) λ m₁ h₁.
      WhenOk-bind IsBytes IsBytes _ _ (write_u32-IsBytes m₁ _ _ h₁) λ m₂ h₂.
        WhenOk-bind IsBytes IsBytes _ _ (write_u32-IsBytes m₂ _ _ h₂)
          λ m₃ h₃. write_u32-IsBytes m₃ _ _ h₃

-- The heaps' bounds are no part of the pages.
pub set_brk-IsBytes : (m : Memory) (brk : ℕ) → IsBytes m → IsBytes (record m { brk_heap_end = brk })
unfolding memory_find_page
set_brk-IsBytes m brk h = h

pub set_mmap-IsBytes :
    (m : Memory) (end : ℕ) → IsBytes m → IsBytes (record m { mmap_heap_end = end })
unfolding memory_find_page
set_mmap-IsBytes m end h = h
