-- ===== src/Syscall/Sound.antt =====
-- Every system call (syscalls.h) leaves a sound machine sound, whatever the host answers.
use comparing_complexity_and.Base.{
  ℕ, zero, suc, ◌+◌, ◌-◌, ◌*◌, ◌^◌, ◌<◌, ◌==◌, ltb, not, none, some, bit_and, find_case, Option, ok,
  aborted, WhenOk, WhenOk-bind, arith,
}
use comparing_complexity_and.Word.{u32}
use comparing_complexity_and.Machine.{
  set_r, mips_r_v0, mips_r_a0, mips_r_a1, mips_r_a2, mips_r_a3, mips_r_sp,
}
use comparing_complexity_and.Memory.{
  user_top, memory_read_u32, memory_copy_read, memory_copy_write, memory_set, memory_allocate,
}
use comparing_complexity_and.Memory.Bytes.{
  IsBytes, memory_copy_write-IsBytes, memory_set-IsBytes, memory_allocate-IsBytes,
}
use comparing_complexity_and.Host.{HostCall, Env, Machine, set_mips}
use comparing_complexity_and.Host.Sound.{
  IsSound, set_r-IsSoundMips, set_mips-IsSound, set_memory-IsSound, called-IsSound, WhenOk-each,
  WhenOk-if, WhenOk-assert, WhenOk-any,
}
use comparing_complexity_and.Syscall.{
  filled_buffer, open_length, write_winsize, write_timespec, mips_syscall_exit, mips_syscall_read,
  mips_syscall_write, mips_syscall_open, mips_syscall_close, mips_syscall_lseek, mips_syscall_ioctl,
  writev_round, writev_loop, mips_syscall_writev, mips_syscall_brk, mips_syscall_mmap2,
  mips_syscall_munmap, mips_syscall_mprotect, mips_syscall_clock_gettime64, mips_syscall_exit_group,
  mips_syscall_tid_addr, mips_syscall_set_thread_area,
}
use comparing_complexity_and.Syscall.Dispatch.{SyscallName, syscall_cases, run_syscall, syscall}
use comparing_complexity_and.Syscall.Kept.{
  Sound, set_r-IsSound, return_v0-IsSound, answered-IsSound, filled_buffer-IsByte,
  write_winsize-IsBytes, write_timespec-IsBytes, set_brk-IsBytes, set_mmap-IsBytes,
}

module _ (env : Env) (s : Machine) (h : IsSound s) where
  read-IsSound : (fd address size : ℕ) → Sound (mips_syscall_read env s fd address size)
  unfolding mips_syscall_read
  read-IsSound fd address size =
      let answer = env.reply s.calls (HostCall.read fd size) in
      let buffer = filled_buffer (env.garbage s.calls) answer.payload 0 size in
      WhenOk-assert IsSound (env.malloc s.calls size) _ (
        WhenOk-bind IsBytes IsSound (memory_copy_write s.memory address size buffer) _
          (WhenOk-each IsBytes _ λ m e.
            memory_copy_write-IsBytes s.memory m address size buffer
              (filled_buffer-IsByte (env.garbage s.calls) answer.payload 0 size) h.bytes e)
          (λ m bytes.
            set_memory-IsSound m _ bytes
              (answered-IsSound answer.result (HostCall.read fd size) s h)))

  write-IsSound : (fd address size : ℕ) → Sound (mips_syscall_write env s fd address size)
  unfolding mips_syscall_write
  write-IsSound fd address size = WhenOk-assert IsSound (env.malloc s.calls size) _ (
      WhenOk-any IsSound (memory_copy_read s.memory address size) _
        (λ buffer. answered-IsSound _ (HostCall.write fd buffer) s h))

  open-IsSound : (fuel name flags mode : ℕ) → Sound (mips_syscall_open env fuel s name flags mode)
  unfolding mips_syscall_open
  open-IsSound fuel name flags mode =
      WhenOk-any IsSound (open_length fuel s.memory name 0) _ (λ size.
        WhenOk-assert IsSound (env.malloc s.calls size) _ (
          WhenOk-any IsSound (memory_copy_read s.memory name size) _
            (λ buffer. answered-IsSound _ _ s h)))

  close-IsSound : (fd : ℕ) → Sound (mips_syscall_close env s fd)
  unfolding mips_syscall_close
  close-IsSound fd = answered-IsSound _ (HostCall.close fd) s h

  lseek-IsSound : (fd offset whence : ℕ) → Sound (mips_syscall_lseek env s fd offset whence)
  unfolding mips_syscall_lseek
  lseek-IsSound fd offset whence = answered-IsSound _ (HostCall.lseek fd offset whence) s h

  ioctl-IsSound : (fd request argp : ℕ) → Sound (mips_syscall_ioctl env s fd request argp)
  unfolding mips_syscall_ioctl
  ioctl-IsSound fd request argp =
      let call = HostCall.get_winsize fd in
      let answer = env.reply s.calls call in
      WhenOk-if IsSound (request == 0x40087468) _ aborted
        (WhenOk-if IsSound (u32 answer.result == 2 ^ 32 - 1) _ _
          (answered-IsSound (2 ^ 32 - 25) call s h)
          (WhenOk-bind IsBytes IsSound (write_winsize s.memory argp answer.payload) _
            (write_winsize-IsBytes s.memory argp answer.payload h.bytes)
            (λ m bytes. set_memory-IsSound m _ bytes (answered-IsSound 0 call s h))))
        tt

  brk-IsSound : (brk : ℕ) → Sound (mips_syscall_brk env s brk)
  unfolding mips_syscall_brk
  brk-IsSound brk =
      WhenOk-bind IsBytes IsSound _ _
        (WhenOk-if IsBytes (ltb s.memory.brk_heap_end brk) _ (ok s.memory)
          (WhenOk-bind IsBytes IsBytes
            (memory_allocate env.calloc s.memory s.memory.brk_heap_end
              (brk - s.memory.brk_heap_end))
            _ (WhenOk-each IsBytes _ λ m. memory_allocate-IsBytes env.calloc s.memory m _ _ h.bytes)
            (λ m bytes. set_brk-IsBytes m brk bytes))
          h.bytes)
        (λ m bytes. return_v0-IsSound m.brk_heap_end _ (set_memory-IsSound m s bytes h))

  mmap2-IsSound : (len : ℕ) → Sound (mips_syscall_mmap2 env s len)
  unfolding mips_syscall_mmap2
  mmap2-IsSound len =
      let aligned = bit_and (u32 (len + 0xfff)) (2 ^ 32 - 1 - 0xfff) in
      let target = s.memory.mmap_heap_end in
      WhenOk-any IsSound (memory_read_u32 s.memory (u32 (s.mips.r mips_r_sp + 16))) _ λ fd.
        WhenOk-any IsSound (memory_read_u32 s.memory (u32 (s.mips.r mips_r_sp + 20))) _ λ pgoff.
          WhenOk-assert IsSound (not (ltb user_top (u32 (target + aligned)))) _ (
            WhenOk-bind IsBytes IsSound (memory_allocate env.calloc s.memory target aligned) _
              (WhenOk-each IsBytes _ λ m. memory_allocate-IsBytes env.calloc s.memory m _ _ h.bytes)
              λ m bytes.
                WhenOk-bind IsBytes IsSound (memory_set m target aligned 0) _
                  (WhenOk-each IsBytes _ λ m'. memory_set-IsBytes m m' target aligned 0 bytes)
                  λ m' bytes'. set_r-IsSound mips_r_a3 0 _ (omega arith) (
                    return_v0-IsSound target _ (
                      set_memory-IsSound _ s
                        (set_mmap-IsBytes m' (u32 (m'.mmap_heap_end + aligned)) bytes') h)))

  clock_gettime64-IsSound :
      (clock_id ptr : ℕ) → Sound (mips_syscall_clock_gettime64 env s clock_id ptr)
  unfolding mips_syscall_clock_gettime64
  clock_gettime64-IsSound clock_id ptr =
      let call = HostCall.clock_gettime clock_id in
      let answer = env.reply s.calls call in
      let two : (j v k w : ℕ) (t : Machine)
          → v < 2 ^ 32
          → w < 2 ^ 32
          → IsSound t
          → IsSound (set_mips (set_r k w (set_r j v t.mips)) t) =
        λ j v k w t fits fits' good. set_r-IsSound k w _ fits' (set_r-IsSound j v t fits good) in
      let failed =
        called-IsSound call _ (two mips_r_v0 22 mips_r_a3 1 s (omega arith) (omega arith) h) in
      WhenOk-if IsSound (u32 answer.result == 0) _ _
        (WhenOk-bind IsBytes IsSound (write_timespec s.memory ptr answer.payload) _
          (write_timespec-IsBytes s.memory ptr answer.payload h.bytes)
          (λ m bytes.
            set_memory-IsSound m _ bytes
              (two mips_r_v0 0 mips_r_a3 0 _ (omega arith) (omega arith) failed)))
        failed

  writev_round-IsSound :
      (fd ptr c total : ℕ)
      → WhenOk (λ (r : Machine × ℕ). IsSound r.0) (writev_round env s fd ptr c total)
  unfolding writev_round
  writev_round-IsSound fd ptr c total =
      let Good : Machine × ℕ → Type 0 = λ r. IsSound r.0 in
      WhenOk-any Good (memory_read_u32 s.memory (u32 (ptr + c * 8 + 0))) _ λ address.
        WhenOk-any Good (memory_read_u32 s.memory (u32 (ptr + c * 8 + 4))) _ λ len.
          WhenOk-if Good (len == 0) (ok (s, total)) _ h (
            WhenOk-assert Good (env.malloc s.calls len) _ (
              WhenOk-any Good (memory_copy_read s.memory address len) _
                λ buffer. called-IsSound (HostCall.write fd buffer) s h))

  -- A number in a field that no register shows, or in `user_local_ptr`.
  exit-IsSound : (status : ℕ) → Sound (mips_syscall_exit s status)
  unfolding mips_syscall_exit
  exit-IsSound status = record {
    mips = record { regs = h.mips.regs; local = h.mips.local };
    bytes = h.bytes;
  }

  exit_group-IsSound : (status : ℕ) → Sound (mips_syscall_exit_group s status)
  unfolding mips_syscall_exit_group
  exit_group-IsSound status = record {
    mips = record { regs = h.mips.regs; local = h.mips.local };
    bytes = h.bytes;
  }

  tid_addr-IsSound : (tidptr : ℕ) → Sound (mips_syscall_tid_addr s tidptr)
  unfolding mips_syscall_tid_addr
  tid_addr-IsSound tidptr =
      set_mips-IsSound _ s
        (set_r-IsSoundMips mips_r_v0 1 _ (omega arith)
          (record { regs = h.mips.regs; local = h.mips.local }))
        h

  set_thread_area-IsSound : (addr : ℕ) → addr < 2 ^ 32 → Sound (mips_syscall_set_thread_area s addr)
  unfolding mips_syscall_set_thread_area
  set_thread_area-IsSound addr fits =
      set_mips-IsSound _ s
        (set_r-IsSoundMips mips_r_v0 0 _ (omega arith)
          (record { regs = h.mips.regs; local = fits }))
        h

  munmap-IsSound : Sound (mips_syscall_munmap s)
  unfolding mips_syscall_munmap
  munmap-IsSound =
      set_r-IsSound mips_r_a0 0 _ (omega arith) (set_r-IsSound mips_r_v0 0 s (omega arith) h)

  mprotect-IsSound : Sound (mips_syscall_mprotect s)
  unfolding mips_syscall_mprotect
  mprotect-IsSound =
      set_r-IsSound mips_r_a3 0 _ (omega arith) (set_r-IsSound mips_r_v0 0 s (omega arith) h)

module _ (env : Env) where
  writev_loop-IsSound :
      (left : ℕ) (s : Machine) (fd ptr c total : ℕ)
      → IsSound s
      → WhenOk (λ (r : Machine × ℕ). IsSound r.0) (writev_loop env left s fd ptr c total)
  unfolding writev_loop
  writev_loop-IsSound zero s fd ptr c total h = h
  writev_loop-IsSound (suc left) s fd ptr c total h =
      let Good : Machine × ℕ → Type 0 = λ r. IsSound r.0 in
      WhenOk-bind Good Good (writev_round env s fd ptr c total) _
        (writev_round-IsSound env s h fd ptr c total)
        (λ r good. writev_loop-IsSound left r.0 fd ptr (suc c) r.1 good)

  writev-IsSound :
      (s : Machine) (fd ptr cnt : ℕ) → IsSound s → Sound (mips_syscall_writev env s fd ptr cnt)
  unfolding mips_syscall_writev
  writev-IsSound s fd ptr cnt h =
      WhenOk-bind (λ (r : Machine × ℕ). IsSound r.0) IsSound (writev_loop env cnt s fd ptr 0 0) _
        (writev_loop-IsSound cnt s fd ptr 0 0 h) (λ r good. return_v0-IsSound r.1 r.0 good)

  run_syscall-IsSound :
      (name : SyscallName) (s : Machine) (a0 a1 a2 : ℕ)
      → a0 < 2 ^ 32
      → IsSound s
      → Sound (run_syscall env name s a0 a1 a2)
  unfolding run_syscall
  run_syscall-IsSound SyscallName.nr_exit s a0 a1 a2 fits h = exit-IsSound env s h a0
  run_syscall-IsSound SyscallName.nr_read s a0 a1 a2 fits h = read-IsSound env s h a0 a1 a2
  run_syscall-IsSound SyscallName.nr_write s a0 a1 a2 fits h = write-IsSound env s h a0 a1 a2
  run_syscall-IsSound SyscallName.nr_open s a0 a1 a2 fits h = open-IsSound env s h (2 ^ 32) a0 a1 a2
  run_syscall-IsSound SyscallName.nr_close s a0 a1 a2 fits h = close-IsSound env s h a0
  run_syscall-IsSound SyscallName.nr_lseek s a0 a1 a2 fits h = lseek-IsSound env s h a0 a1 a2
  run_syscall-IsSound SyscallName.nr_ioctl s a0 a1 a2 fits h = ioctl-IsSound env s h a0 a1 a2
  run_syscall-IsSound SyscallName.nr_writev s a0 a1 a2 fits h = writev-IsSound s a0 a1 a2 h
  run_syscall-IsSound SyscallName.nr_brk s a0 a1 a2 fits h = brk-IsSound env s h a0
  run_syscall-IsSound SyscallName.nr_mmap2 s a0 a1 a2 fits h = mmap2-IsSound env s h a1
  run_syscall-IsSound SyscallName.nr_munmap s a0 a1 a2 fits h = munmap-IsSound env s h
  run_syscall-IsSound SyscallName.nr_mprotect s a0 a1 a2 fits h = mprotect-IsSound env s h
  run_syscall-IsSound SyscallName.nr_clock_gettime64 s a0 a1 a2 fits h =
      clock_gettime64-IsSound env s h a0 a1
  run_syscall-IsSound SyscallName.nr_exit_group s a0 a1 a2 fits h = exit_group-IsSound env s h a0
  run_syscall-IsSound SyscallName.nr_set_tid_address s a0 a1 a2 fits h = tid_addr-IsSound env s h a0
  run_syscall-IsSound SyscallName.nr_set_thread_area s a0 a1 a2 fits h =
      set_thread_area-IsSound env s h a0 fits

  pub syscall-IsSound : (s : Machine) → IsSound s → Sound (syscall env s)
  unfolding syscall find_case
  syscall-IsSound s h = by_name (find_case syscall_cases (s.mips.r mips_r_v0))
    where
      by_name :
          (found : Option SyscallName)
          → Sound (elim found [
            | none ↦ aborted
            | some name ↦
                run_syscall env name s
                  (s.mips.r mips_r_a0)
                  (s.mips.r mips_r_a1)
                  (s.mips.r mips_r_a2)
          ])
      by_name none = tt
      by_name (some name) =
          run_syscall-IsSound name s (s.mips.r mips_r_a0) (s.mips.r mips_r_a1) (s.mips.r mips_r_a2)
            (h.mips.regs mips_r_a0) h
