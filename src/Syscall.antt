-- ===== src/Syscall.antt =====
-- The system calls (syscalls.h): each handler as a change of the machine. `Dispatch` has the
-- `switch` on `%v0`.
pub mod Dispatch
pub mod Heap
pub mod Io
pub mod Names
pub mod Vectors
pub mod Kept
pub mod Sound
pub mod Progress
use comparing_complexity_and.Base.{
  ℕ, zero, suc, ◌+◌, ◌-◌, ◌*◌, ◌/◌, ◌%◌, ◌^◌, ltb, ◌==◌, if◌then◌else◌, Bool, true, false, Option,
  none, some, List, [], ◌∷◌, length, get_or, bit_and, Result, ok, aborted, timeout, ◌>>=◌, ◌>>◌,
  assert, not,
}
use comparing_complexity_and.Word.{u32}
use comparing_complexity_and.Machine.{
  Mips, set_r, mips_r_v0, mips_r_a0, mips_r_a1, mips_r_a2, mips_r_a3, mips_r_sp,
}
use comparing_complexity_and.Memory.{
  Memory, user_top, memory_read_u8, memory_read_u32, memory_write_u16, memory_write_u32,
  memory_copy_read, memory_copy_write, memory_set, memory_allocate,
}
use comparing_complexity_and.Host.{HostCall, Reply, Env, Machine, set_mips, set_memory, called}

-- `mips->status = status; mips->halted = 1;`
unfoldable pub mips_syscall_exit : Machine → ℕ → Result Machine
mips_syscall_exit s status = ok (set_mips (record s.mips { status = status; halted = true }) s)

unfoldable pub mips_syscall_exit_group : Machine → ℕ → Result Machine
mips_syscall_exit_group s status =
    ok (set_mips (record s.mips { status = status; halted = true }) s)

-- The `malloc`ed buffer of `size` bytes after the host stored `payload` at its start.
unfoldable pub filled_buffer : (ℕ → ℕ) → List ℕ → ℕ → ℕ → List ℕ
filled_buffer garbage payload i zero = []
filled_buffer garbage [] i (suc n) = garbage i % 256 ∷ filled_buffer garbage [] (suc i) n
filled_buffer garbage (b ∷ bs) i (suc n) = b % 256 ∷ filled_buffer garbage bs (suc i) n

abbrev pub return_v0 : ℕ → Machine → Machine
return_v0 v s = set_mips (set_r mips_r_v0 (u32 v) s.mips) s

-- `do { memory_read_u8(memory, name+size++, &c); } while (c != '\0');` and the final `size`.
unfoldable pub open_length : ℕ → Memory → ℕ → ℕ → Result ℕ
open_length zero memory name size = timeout
open_length (suc fuel) memory name size = do
  c ← memory_read_u8 memory (u32 (name + size))
  if c == 0 then ok (u32 (size + 1)) else open_length fuel memory name (u32 (size + 1))

-- `memory_write_u16(memory, argp + i, field)` for the fields of `struct winsize`.
unfoldable pub write_winsize : Memory → ℕ → List ℕ → Result Memory
write_winsize memory argp ws = do
  m₁ ← memory_write_u16 memory (u32 (argp + 0)) (get_or ws 0 0)
  m₂ ← memory_write_u16 m₁ (u32 (argp + 2)) (get_or ws 1 0)
  m₃ ← memory_write_u16 m₂ (u32 (argp + 4)) (get_or ws 2 0)
  memory_write_u16 m₃ (u32 (argp + 6)) (get_or ws 3 0)

unfoldable pub mips_syscall_munmap : Machine → Result Machine
mips_syscall_munmap s = ok (set_mips (set_r mips_r_a0 0 (set_r mips_r_v0 0 s.mips)) s)

-- The line that it prints under `__DISASSEMBLE__` is in Disasm/Calls.
unfoldable pub mips_syscall_mprotect : Machine → Result Machine
mips_syscall_mprotect s = ok (set_mips (set_r mips_r_a3 0 (set_r mips_r_v0 0 s.mips)) s)

-- The two words of `tv_sec` and of `tv_nsec`.
unfoldable pub write_timespec : Memory → ℕ → List ℕ → Result Memory
write_timespec memory ptr ts = do
  m₁ ← memory_write_u32 memory (u32 (ptr + 0)) (u32 (get_or ts 0 0))
  m₂ ← memory_write_u32 m₁ (u32 (ptr + 4)) (u32 (get_or ts 0 0 / 2 ^ 32))
  m₃ ← memory_write_u32 m₂ (u32 (ptr + 8)) (u32 (get_or ts 1 0))
  memory_write_u32 m₃ (u32 (ptr + 12)) (u32 (get_or ts 1 0 / 2 ^ 32))

unfoldable pub mips_syscall_set_thread_area : Machine → ℕ → Result Machine
mips_syscall_set_thread_area s addr =
    ok (set_mips (set_r mips_r_v0 0 (record s.mips { user_local_ptr = addr })) s)

unfoldable pub mips_syscall_tid_addr : Machine → ℕ → Result Machine
mips_syscall_tid_addr s tidptr =
    ok (set_mips (set_r mips_r_v0 1 (record s.mips { tidptr = tidptr })) s)

module _ (env : Env) where
  unfoldable pub mips_syscall_read : Machine → ℕ → ℕ → ℕ → Result Machine
  mips_syscall_read s fd address size = do
    assert (env.malloc s.calls size)
    let answer = env.reply s.calls (HostCall.read fd size)
    let buffer = filled_buffer (env.garbage s.calls) answer.payload 0 size
    memory ← memory_copy_write s.memory address size buffer
    ok (set_memory memory (return_v0 answer.result (called (HostCall.read fd size) s)))

  unfoldable pub mips_syscall_write : Machine → ℕ → ℕ → ℕ → Result Machine
  mips_syscall_write s fd address size = do
    assert (env.malloc s.calls size)
    buffer ← memory_copy_read s.memory address size
    let answer = env.reply s.calls (HostCall.write fd buffer)
    ok (return_v0 answer.result (called (HostCall.write fd buffer) s))

  -- `fuel` bounds the bytes looked at: with 2 ^ 32 of them and no zero byte, the loop never ends.
  unfoldable pub mips_syscall_open : ℕ → Machine → ℕ → ℕ → ℕ → Result Machine
  mips_syscall_open fuel s name flags mode = do
    size ← open_length fuel s.memory name 0
    assert (env.malloc s.calls size)
    buffer ← memory_copy_read s.memory name size
    let call =
        HostCall.open_file buffer flags
          (if bit_and flags env.o_creat == 0 then none else some (mode % 2 ^ 9))
    ok (return_v0 (env.reply s.calls call).result (called call s))

  unfoldable pub mips_syscall_close : Machine → ℕ → Result Machine
  mips_syscall_close s fd =
      let call = HostCall.close fd in ok (return_v0 (env.reply s.calls call).result (called call s))

  unfoldable pub mips_syscall_lseek : Machine → ℕ → ℕ → ℕ → Result Machine
  mips_syscall_lseek s fd offset whence =
      let call = HostCall.lseek fd offset whence in
      ok (return_v0 (env.reply s.calls call).result (called call s))

  -- `ioctl` returns an `int`; -1 is the pattern of 32 ones. Any other request fails an assertion.
  unfoldable pub mips_syscall_ioctl : Machine → ℕ → ℕ → ℕ → Result Machine
  mips_syscall_ioctl s fd request argp =
      if request == 0x40087468
      then (let call = HostCall.get_winsize fd in
          let answer = env.reply s.calls call in
          if u32 answer.result == 2 ^ 32 - 1
          then ok (return_v0 (2 ^ 32 - 25) (called call s))
          else (do
            memory ← write_winsize s.memory argp answer.payload
            ok (set_memory memory (return_v0 0 (called call s)))))
      else aborted

  -- A round of the loop of `writev`: the state and `total`.
  unfoldable pub writev_round : Machine → ℕ → ℕ → ℕ → ℕ → Result (Machine × ℕ)
  writev_round s fd ptr c total = do
    address ← memory_read_u32 s.memory (u32 (ptr + c * 8 + 0))
    len ← memory_read_u32 s.memory (u32 (ptr + c * 8 + 4))
    if len == 0 then ok (s, total) else (do
      assert (env.malloc s.calls len)
      buffer ← memory_copy_read s.memory address len
      let call = HostCall.write fd buffer
      ok (called call s, u32 (total + (env.reply s.calls call).result)))

  -- `for (c = 0; c < cnt; c++)`, by the rounds left.
  unfoldable pub writev_loop : ℕ → Machine → ℕ → ℕ → ℕ → ℕ → Result (Machine × ℕ)
  writev_loop zero s fd ptr c total = ok (s, total)
  writev_loop (suc left) s fd ptr c total = do
    (s', total') ← writev_round s fd ptr c total
    writev_loop left s' fd ptr (suc c) total'

  unfoldable pub mips_syscall_writev : Machine → ℕ → ℕ → ℕ → Result Machine
  mips_syscall_writev s fd ptr cnt = do
    (s', total) ← writev_loop cnt s fd ptr 0 0
    ok (return_v0 total s')

  unfoldable pub mips_syscall_brk : Machine → ℕ → Result Machine
  mips_syscall_brk s brk = do
    memory ←
        if ltb s.memory.brk_heap_end brk
        then (do
          grown ←
              memory_allocate env.calloc s.memory s.memory.brk_heap_end
                (brk - s.memory.brk_heap_end)
          ok (record grown { brk_heap_end = brk }))
        else ok s.memory
    ok (return_v0 memory.brk_heap_end (set_memory memory s))

  -- The stack arguments `fd` and `pgoff` are read and not used. `len` is rounded up to whole pages,
  -- and the end of the region is computed with 32 bits.
  unfoldable pub mips_syscall_mmap2 : Machine → ℕ → Result Machine
  mips_syscall_mmap2 s len = do
    fd ← memory_read_u32 s.memory (u32 (s.mips.r mips_r_sp + 16))
    pgoff ← memory_read_u32 s.memory (u32 (s.mips.r mips_r_sp + 20))
    let aligned = bit_and (u32 (len + 0xfff)) (2 ^ 32 - 1 - 0xfff)
    let target_address = s.memory.mmap_heap_end
    assert (not (ltb user_top (u32 (target_address + aligned))))
    allocated ← memory_allocate env.calloc s.memory target_address aligned
    cleared ← memory_set allocated target_address aligned 0
    let memory = record cleared { mmap_heap_end = u32 (cleared.mmap_heap_end + aligned) }
    let s' = return_v0 target_address (set_memory memory s)
    ok (set_mips (set_r mips_r_a3 0 s'.mips) s')

  unfoldable pub mips_syscall_clock_gettime64 : Machine → ℕ → ℕ → Result Machine
  mips_syscall_clock_gettime64 s clock_id ptr =
      let call = HostCall.clock_gettime clock_id in
      let answer = env.reply s.calls call in
      let s₁ = called call (set_mips (set_r mips_r_a3 1 (set_r mips_r_v0 22 s.mips)) s) in
      if u32 answer.result == 0
      then (do
        memory ← write_timespec s₁.memory ptr answer.payload
        ok (set_memory memory (set_mips (set_r mips_r_a3 0 (set_r mips_r_v0 0 s₁.mips)) s₁)))
      else ok s₁
