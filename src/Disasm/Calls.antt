-- ===== src/Disasm/Calls.antt =====
-- The line that `mips_syscall_mprotect` prints when `__DISASSEMBLE__` is defined (syscalls.h, lines
-- 301-304), by the way from an instruction to it (instructions.h, lines 198-210 and 303-323).
use comparing_complexity_and.Base.{
  ℕ, ◌≡◌, ◌⊎◌, inl, inr, Bool, true, false, Bool-cases, if◌then◌else◌, Option-cases, none, some,
  List, [], ◌∷◌, ◌++◌, find_case,
}
use comparing_complexity_and.Word.{s32}
use comparing_complexity_and.Insn.{Insn}
use comparing_complexity_and.Machine.{mips_r_v0, mips_r_a0, mips_r_a1, mips_r_a2}
use comparing_complexity_and.Host.{Machine}
use comparing_complexity_and.Syscall.Dispatch.{SyscallName, nr_mprotect, syscall_cases}
use comparing_complexity_and.Disasm.Text.{codes, hex_padded, dec, signed}

-- `"sys_mprotect: addr=0x%08x, len=%u, prot=%d (Faking Success)\n"`.
unfoldable pub mprotect_line : ℕ → ℕ → ℕ → List ℕ
mprotect_line addr len prot =
    codes "sys_mprotect: addr=0x"
    ++ (hex_padded 8 addr
        ++ (codes ", len="
            ++ (dec len
                ++ (codes ", prot=" ++ (signed (s32 prot) ++ codes " (Faking Success)\n")))))

-- `case __NR_mprotect:`; no other case of the switch prints and returns.
is_mprotect : SyscallName → Bool
is_mprotect nr_mprotect = true
is_mprotect name = false

unfoldable pub syscall_lines : Machine → List (List ℕ)
unfolding find_case is_mprotect
syscall_lines s = elim (find_case syscall_cases (s.mips.r mips_r_v0)) [
  | none ↦ []
  | some name ↦
      if is_mprotect name
      then mprotect_line (s.mips.r mips_r_a0) (s.mips.r mips_r_a1) (s.mips.r mips_r_a2) ∷ []
      else []
]

-- What an instruction's implementation prints: only `ITP_SYSCALL_IMPL` does.
is_syscall : Insn → Bool
is_syscall Insn.syscall = true
is_syscall insn = false

unfoldable pub exec_lines : Insn → Machine → List (List ℕ)
unfolding is_syscall
exec_lines insn s = if is_syscall insn then syscall_lines s else []

-- It prints one such line, or none.
pub exec_lines-cases :
    (insn : Insn) (s : Machine)
    → (exec_lines insn s ≡ [])
      ⊎ (exec_lines insn s
          ≡ mprotect_line (s.mips.r mips_r_a0) (s.mips.r mips_r_a1) (s.mips.r mips_r_a2) ∷ [])
unfolding exec_lines syscall_lines
exec_lines-cases insn s = elim (Bool-cases (is_syscall insn)) [
  | inl call ↦ elim (Option-cases (find_case syscall_cases (s.mips.r mips_r_v0))) [
    | inl unknown ↦ inl (rw (call, exec_lines, syscall_lines, unknown))
    | inr (name, known) ↦ elim (Bool-cases (is_mprotect name)) [
      | inl this ↦ inr (rw (call, exec_lines, syscall_lines, known, this))
      | inr other ↦ inl (rw (call, exec_lines, syscall_lines, known, other))
    ]
  ]
  | inr other ↦ inl (rw (exec_lines, other))
]
