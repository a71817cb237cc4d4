-- ===== src/Syscall/Dispatch.antt =====
-- The dispatch on `%v0` of `ITP_SYSCALL_IMPL` (instructions.h, lines 303-323).
use comparing_complexity_and.Base.{ℕ, ◌^◌, none, some, List, [], ◌∷◌, Result, aborted, find_case}
use comparing_complexity_and.Machine.{mips_r_v0, mips_r_a0, mips_r_a1, mips_r_a2}
use comparing_complexity_and.Host.{Env, Machine}
use comparing_complexity_and.Syscall.{
  mips_syscall_exit, mips_syscall_read, mips_syscall_write, mips_syscall_open, mips_syscall_close,
  mips_syscall_lseek, mips_syscall_ioctl, mips_syscall_writev, mips_syscall_brk, mips_syscall_mmap2,
  mips_syscall_munmap, mips_syscall_mprotect, mips_syscall_clock_gettime64, mips_syscall_exit_group,
  mips_syscall_tid_addr, mips_syscall_set_thread_area,
}

-- The cases of the `switch (v0)` of `ITP_SYSCALL_IMPL`, with the numbers of syscall.h.in.
pub data SyscallName : Type 0 where
  nr_exit : SyscallName
  nr_read : SyscallName
  nr_write : SyscallName
  nr_open : SyscallName
  nr_close : SyscallName
  nr_lseek : SyscallName
  nr_ioctl : SyscallName
  nr_writev : SyscallName
  nr_brk : SyscallName
  nr_mmap2 : SyscallName
  nr_munmap : SyscallName
  nr_mprotect : SyscallName
  nr_clock_gettime64 : SyscallName
  nr_exit_group : SyscallName
  nr_set_tid_address : SyscallName
  nr_set_thread_area : SyscallName

abbrev pub syscall_cases : List (ℕ × SyscallName)
syscall_cases =
    (4001, nr_exit)
    ∷ (4003, nr_read)
    ∷ (4004, nr_write)
    ∷ (4005, nr_open)
    ∷ (4006, nr_close)
    ∷ (4019, nr_lseek)
    ∷ (4054, nr_ioctl)
    ∷ (4146, nr_writev)
    ∷ (4045, nr_brk)
    ∷ (4210, nr_mmap2)
    ∷ (4091, nr_munmap)
    ∷ (4125, nr_mprotect)
    ∷ (4403, nr_clock_gettime64)
    ∷ (4246, nr_exit_group)
    ∷ (4252, nr_set_tid_address)
    ∷ (4283, nr_set_thread_area)
    ∷ []

module _ (env : Env) where
  unfoldable pub run_syscall : SyscallName → Machine → ℕ → ℕ → ℕ → Result Machine
  run_syscall nr_exit s a0 a1 a2 = mips_syscall_exit s a0
  run_syscall nr_read s a0 a1 a2 = mips_syscall_read env s a0 a1 a2
  run_syscall nr_write s a0 a1 a2 = mips_syscall_write env s a0 a1 a2
  run_syscall nr_open s a0 a1 a2 = mips_syscall_open env (2 ^ 32) s a0 a1 a2
  run_syscall nr_close s a0 a1 a2 = mips_syscall_close env s a0
  run_syscall nr_lseek s a0 a1 a2 = mips_syscall_lseek env s a0 a1 a2
  run_syscall nr_ioctl s a0 a1 a2 = mips_syscall_ioctl env s a0 a1 a2
  run_syscall nr_writev s a0 a1 a2 = mips_syscall_writev env s a0 a1 a2
  run_syscall nr_brk s a0 a1 a2 = mips_syscall_brk env s a0
  run_syscall nr_mmap2 s a0 a1 a2 = mips_syscall_mmap2 env s a1
  run_syscall nr_munmap s a0 a1 a2 = mips_syscall_munmap s
  run_syscall nr_mprotect s a0 a1 a2 = mips_syscall_mprotect s
  run_syscall nr_clock_gettime64 s a0 a1 a2 = mips_syscall_clock_gettime64 env s a0 a1
  run_syscall nr_exit_group s a0 a1 a2 = mips_syscall_exit_group s a0
  run_syscall nr_set_tid_address s a0 a1 a2 = mips_syscall_tid_addr s a0
  run_syscall nr_set_thread_area s a0 a1 a2 = mips_syscall_set_thread_area s a0

  -- `ITP_SYSCALL_IMPL`; an unknown number aborts.
  unfoldable pub syscall : Machine → Result Machine
  unfolding find_case
  syscall s = elim (find_case syscall_cases (s.mips.r mips_r_v0)) [
    | none ↦ aborted
    | some name ↦ run_syscall name s (s.mips.r mips_r_a0) (s.mips.r mips_r_a1) (s.mips.r mips_r_a2)
  ]
