-- ===== src/Instr/Calls.antt =====
-- System calls neither read nor write the program counters (syscalls.h, and `ITP_SYSCALL_IMPL` of
-- instructions.h).
use comparing_complexity_and.Base.{
  Bool, ℕ, zero, suc, ◌+◌, ◌-◌, ◌*◌, ◌^◌, ◌<◌, ◌≡◌, ◌==◌, Option, none, some, inl, inr, Bool-cases,
  Result, ok, aborted, ◌>>=◌, refl, ap, ◌∙◌, arith, >>=_assoc, find_case,
}
use comparing_complexity_and.Word.{u32}
use comparing_complexity_and.Machine.{
  Mips, set_r, mips_r_v0, mips_r_a0, mips_r_a1, mips_r_a2, mips_r_a3, mips_r_sp,
}
use comparing_complexity_and.Memory.{Memory, memory_read_u32}
use comparing_complexity_and.Host.{HostCall, Env, Machine, set_mips, set_memory, called}
use comparing_complexity_and.Syscall.{
  mips_syscall_exit, mips_syscall_read, mips_syscall_write, mips_syscall_open, mips_syscall_close,
  mips_syscall_lseek, mips_syscall_ioctl, writev_round, writev_loop, mips_syscall_writev,
  mips_syscall_brk, mips_syscall_mmap2, mips_syscall_munmap, mips_syscall_mprotect,
  mips_syscall_clock_gettime64, mips_syscall_exit_group, mips_syscall_tid_addr,
  mips_syscall_set_thread_area,
}
use comparing_complexity_and.Syscall.Dispatch.{SyscallName, syscall_cases, run_syscall, syscall}
use comparing_complexity_and.Instr.Plain.{
  at, mips_at, counters_below, set_r-mips_at, IsPlain, bind_ext,
}

-- A result in `%v0`, in the form that the handlers below come to.
v0_law :
    (p n q : ℕ) (br : Bool) (v : ℕ) (m : Mips)
    → set_r mips_r_v0 v (mips_at p n q br m) ≡ mips_at p n q br (set_r mips_r_v0 v m)
v0_law p n q br v m = set_r-mips_at p n q br mips_r_v0 v m (omega arith)

a3_law :
    (p n q : ℕ) (br : Bool) (v : ℕ) (m : Mips)
    → set_r mips_r_a3 v (mips_at p n q br m) ≡ mips_at p n q br (set_r mips_r_a3 v m)
a3_law p n q br v m = set_r-mips_at p n q br mips_r_a3 v m (omega arith)

-- A success, with 0 in `%a3` and the result in `%v0`.
abbrev succeeded : ℕ → Memory → Machine → Machine
succeeded v memory s = set_mips (set_r mips_r_a3 0 (set_r mips_r_v0 v s.mips)) (set_memory memory s)

succeeded-at :
    (p n q : ℕ) (br : Bool) (v : ℕ) (memory : Memory) (s : Machine)
    → succeeded v memory (at p n q br s) ≡ at p n q br (succeeded v memory s)
succeeded-at p n q br v memory s =
    ap (λ m. set_mips m (set_memory memory s))
      (ap (set_r mips_r_a3 0) (v0_law p n q br v s.mips)
        ∙ a3_law p n q br 0 (set_r mips_r_v0 v s.mips))

-- `clock_gettime64` has stored an error before it knows of the success.
abbrev timed : HostCall → Machine → Machine
timed call s = called call (set_mips (set_r mips_r_a3 1 (set_r mips_r_v0 22 s.mips)) s)

timed-at :
    (p n q : ℕ) (br : Bool) (call : HostCall) (s : Machine)
    → timed call (at p n q br s) ≡ at p n q br (timed call s)
timed-at p n q br call s =
    ap (λ m. called call (set_mips m s))
      (ap (set_r mips_r_a3 1) (v0_law p n q br 22 s.mips)
        ∙ a3_law p n q br 1 (set_r mips_r_v0 22 s.mips))

succeeded-timed-at :
    (p n q : ℕ) (br : Bool) (call : HostCall) (memory : Memory) (s : Machine)
    → succeeded 0 memory (timed call (at p n q br s))
      ≡ at p n q br (succeeded 0 memory (timed call s))
succeeded-timed-at p n q br call memory s =
    ap (succeeded 0 memory) (timed-at p n q br call s)
    ∙ succeeded-at p n q br 0 memory (timed call s)

-- Two results in registers.
set_two :
    (j v k w : ℕ) (p n q : ℕ) (br : Bool) (s : Machine)
    → j < 34
    → k < 34
    → set_mips (set_r k w (set_r j v (mips_at p n q br s.mips))) s
      ≡ at p n q br (set_mips (set_r k w (set_r j v s.mips)) s)
set_two j v k w p n q br s hj hk =
    ap (λ m. set_mips m s)
      (ap (set_r k w) (set_r-mips_at p n q br j v s.mips hj)
        ∙ set_r-mips_at p n q br k w (set_r j v s.mips) hk)

v0_set :
    (m : Mips) (v : ℕ) (s : Machine) (p n q : ℕ) (br : Bool)
    → ◌≡◌ {A = Result Machine}
        (ok (set_mips (set_r mips_r_v0 v (mips_at p n q br m)) s))
        (ok (set_mips (mips_at p n q br (set_r mips_r_v0 v m)) s))
v0_set m v s p n q br = ap (λ k. ok (set_mips k s)) (v0_law p n q br v m)

module _ (env : Env) where
  read-IsPlain : (s : Machine) (a0 a1 a2 : ℕ) → IsPlain (λ t. mips_syscall_read env t a0 a1 a2) s
  unfolding mips_syscall_read
  read-IsPlain s a0 a1 a2 p n q br = simp (>>=_assoc, v0_law)

  write-IsPlain : (s : Machine) (a0 a1 a2 : ℕ) → IsPlain (λ t. mips_syscall_write env t a0 a1 a2) s
  unfolding mips_syscall_write
  write-IsPlain s a0 a1 a2 p n q br = simp (>>=_assoc, v0_law)

  open-IsPlain :
      (fuel : ℕ) (s : Machine) (a0 a1 a2 : ℕ)
      → IsPlain (λ t. mips_syscall_open env fuel t a0 a1 a2) s
  unfolding mips_syscall_open
  open-IsPlain fuel s a0 a1 a2 p n q br = simp (>>=_assoc, v0_law)

  close-IsPlain : (s : Machine) (a0 : ℕ) → IsPlain (λ t. mips_syscall_close env t a0) s
  unfolding mips_syscall_close
  close-IsPlain s a0 p n q br = simp v0_law

  lseek-IsPlain : (s : Machine) (a0 a1 a2 : ℕ) → IsPlain (λ t. mips_syscall_lseek env t a0 a1 a2) s
  unfolding mips_syscall_lseek
  lseek-IsPlain s a0 a1 a2 p n q br = simp v0_law

  ioctl-IsPlain : (s : Machine) (a0 a1 a2 : ℕ) → IsPlain (λ t. mips_syscall_ioctl env t a0 a1 a2) s
  unfolding mips_syscall_ioctl
  ioctl-IsPlain s a0 a1 a2 p n q br = elim (Bool-cases (a1 == 0x40087468)) [
    | inl known ↦
        rw known
          (elim (Bool-cases
            (u32 (env.reply s.calls (HostCall.get_winsize a0)).result == 2 ^ 32 - 1)) [
              | inl failed ↦ rw failed (simp v0_law)
              | inr fine ↦ rw fine (simp (>>=_assoc, v0_law))
            ])
    | inr unknown ↦ rw unknown
  ]

  writev_round-at :
      (s : Machine) (fd ptr c total p n q : ℕ) (br : Bool)
      → writev_round env (at p n q br s) fd ptr c total
        ≡ (writev_round env s fd ptr c total >>= λ r. ok (at p n q br r.0, r.1))
  unfolding writev_round
  writev_round-at s fd ptr c total p n q br = rw >>=_assoc (
      bind_ext (memory_read_u32 s.memory (u32 (ptr + c * 8 + 0))) λ address. rw >>=_assoc (
        bind_ext (memory_read_u32 s.memory (u32 (ptr + c * 8 + 4))) λ len.
          elim (Bool-cases (len == 0)) [
            | inl empty ↦ rw empty
            | inr more ↦ rw more (simp >>=_assoc)
          ]))

  writev_loop-at :
      (left : ℕ) (s : Machine) (fd ptr c total p n q : ℕ) (br : Bool)
      → writev_loop env left (at p n q br s) fd ptr c total
        ≡ (writev_loop env left s fd ptr c total >>= λ r. ok (at p n q br r.0, r.1))
  unfolding writev_loop
  writev_loop-at zero s fd ptr c total p n q br = refl
  writev_loop-at (suc left) s fd ptr c total p n q br =
      rw (writev_round-at s fd ptr c total p n q br, >>=_assoc, >>=_assoc)
        (bind_ext (writev_round env s fd ptr c total)
          λ r. writev_loop-at left r.0 fd ptr (suc c) r.1 p n q br)

  writev-IsPlain :
      (s : Machine) (a0 a1 a2 : ℕ) → IsPlain (λ t. mips_syscall_writev env t a0 a1 a2) s
  unfolding mips_syscall_writev
  writev-IsPlain s a0 a1 a2 p n q br =
      rw (writev_loop-at a2 s a0 a1 0 0 p n q br, >>=_assoc, >>=_assoc)
        (bind_ext (writev_loop env a2 s a0 a1 0 0)
          λ r. ap ok (ap (λ m. set_mips m r.0) (v0_law p n q br (u32 r.1) r.0.mips)))

  brk-IsPlain : (s : Machine) (a0 : ℕ) → IsPlain (λ t. mips_syscall_brk env t a0) s
  unfolding mips_syscall_brk
  brk-IsPlain s a0 p n q br = simp (>>=_assoc, v0_law)

  mmap2-IsPlain : (s : Machine) (a1 : ℕ) → IsPlain (λ t. mips_syscall_mmap2 env t a1) s
  unfolding mips_syscall_mmap2
  mmap2-IsPlain s a1 p n q br =
      rw (counters_below p n q mips_r_sp s.mips.r (omega arith)) (simp (>>=_assoc, succeeded-at))

  clock_gettime64-IsPlain :
      (s : Machine) (a0 a1 : ℕ) → IsPlain (λ t. mips_syscall_clock_gettime64 env t a0 a1) s
  unfolding mips_syscall_clock_gettime64
  clock_gettime64-IsPlain s a0 a1 p n q br =
      elim (Bool-cases (u32 (env.reply s.calls (HostCall.clock_gettime a0)).result == 0)) [
        | inl fine ↦ rw fine (simp (>>=_assoc, succeeded-timed-at))
        | inr failed ↦ rw failed (ap ok (timed-at p n q br (HostCall.clock_gettime a0) s))
      ]

  run_syscall-IsPlain :
      (name : SyscallName) (s : Machine) (a0 a1 a2 : ℕ)
      → IsPlain (λ t. run_syscall env name t a0 a1 a2) s
  unfolding run_syscall mips_syscall_exit mips_syscall_exit_group mips_syscall_munmap
      mips_syscall_mprotect mips_syscall_tid_addr mips_syscall_set_thread_area
  run_syscall-IsPlain SyscallName.nr_exit s a0 a1 a2 p n q br = refl
  run_syscall-IsPlain SyscallName.nr_read s a0 a1 a2 p n q br = read-IsPlain s a0 a1 a2 p n q br
  run_syscall-IsPlain SyscallName.nr_write s a0 a1 a2 p n q br = write-IsPlain s a0 a1 a2 p n q br
  run_syscall-IsPlain SyscallName.nr_open s a0 a1 a2 p n q br =
      open-IsPlain (2 ^ 32) s a0 a1 a2 p n q br
  run_syscall-IsPlain SyscallName.nr_close s a0 a1 a2 p n q br = close-IsPlain s a0 p n q br
  run_syscall-IsPlain SyscallName.nr_lseek s a0 a1 a2 p n q br = lseek-IsPlain s a0 a1 a2 p n q br
  run_syscall-IsPlain SyscallName.nr_ioctl s a0 a1 a2 p n q br = ioctl-IsPlain s a0 a1 a2 p n q br
  run_syscall-IsPlain SyscallName.nr_writev s a0 a1 a2 p n q br = writev-IsPlain s a0 a1 a2 p n q br
  run_syscall-IsPlain SyscallName.nr_brk s a0 a1 a2 p n q br = brk-IsPlain s a0 p n q br
  run_syscall-IsPlain SyscallName.nr_mmap2 s a0 a1 a2 p n q br = mmap2-IsPlain s a1 p n q br
  run_syscall-IsPlain SyscallName.nr_munmap s a0 a1 a2 p n q br =
      ap ok (set_two mips_r_v0 0 mips_r_a0 0 p n q br s (omega arith) (omega arith))
  run_syscall-IsPlain SyscallName.nr_mprotect s a0 a1 a2 p n q br =
      ap ok (set_two mips_r_v0 0 mips_r_a3 0 p n q br s (omega arith) (omega arith))
  run_syscall-IsPlain SyscallName.nr_clock_gettime64 s a0 a1 a2 p n q br =
      clock_gettime64-IsPlain s a0 a1 p n q br
  run_syscall-IsPlain SyscallName.nr_exit_group s a0 a1 a2 p n q br = refl
  run_syscall-IsPlain SyscallName.nr_set_tid_address s a0 a1 a2 p n q br =
      v0_set (record s.mips { tidptr = a0 }) 1 s p n q br
  run_syscall-IsPlain SyscallName.nr_set_thread_area s a0 a1 a2 p n q br =
      v0_set (record s.mips { user_local_ptr = a0 }) 0 s p n q br

  pub syscall-IsPlain : (s : Machine) → IsPlain (syscall env) s
  unfolding syscall
  syscall-IsPlain s p n q br = by_name (find_case syscall_cases (s.mips.r mips_r_v0))
    where
      by_name :
          (found : Option SyscallName)
          → elim found [
            | none ↦ aborted
            | some name ↦
                run_syscall env name
                  (at p n q br s)
                  (s.mips.r mips_r_a0)
                  (s.mips.r mips_r_a1)
                  (s.mips.r mips_r_a2)
          ]
            ≡ (elim found [
              | none ↦ aborted
              | some name ↦
                  run_syscall env name s
                    (s.mips.r mips_r_a0)
                    (s.mips.r mips_r_a1)
                    (s.mips.r mips_r_a2)
            ]
                >>= λ s'. ok (at p n q br s'))
      by_name none = refl
      by_name (some name) =
          run_syscall-IsPlain name s (s.mips.r mips_r_a0) (s.mips.r mips_r_a1) (s.mips.r mips_r_a2)
            p n q br
