-- ===== src/Instr/Delay.antt =====
-- The delay slot: `%pc`, `%npc` and `%nnpc` around a branch.
use comparing_complexity_and.Base.{
  ℕ, ◌+◌, ◌≡◌, refl, arith, if◌then◌else◌, Bool, true, false, fun_ext,
}
use comparing_complexity_and.Word.{u32}
use comparing_complexity_and.Machine.{Mips, increment_pc, mips_r_pc, mips_r_npc, mips_r_nnpc}
use comparing_complexity_and.Instr.Control.{branch_if, branch_target}

-- The next two instructions are the ones that follow in memory.
abbrev pub InSequence : Mips → Type 0
InSequence m =
    (m.r mips_r_npc ≡ u32 (m.r mips_r_pc + 4)) × (m.r mips_r_nnpc ≡ u32 (m.r mips_r_pc + 8))

-- After a branch out of a sequence, taken or not, the instruction behind it comes next. Then comes
-- the target if it is taken, four bytes after the branch's own address plus the scaled immediate,
-- and the second instruction behind it if not, and the flow goes on from there.
branch_if-increment_pc :
    (taken : Bool) (imm16 : ℕ) (m : Mips)
    → InSequence m
    → let after = increment_pc (branch_if taken imm16 m) in
      let next = if taken then branch_target (m.r mips_r_pc) imm16 else u32 (m.r mips_r_pc + 8) in
      (after.r mips_r_pc ≡ u32 (m.r mips_r_pc + 4))
      × (after.r mips_r_npc ≡ next)
      × (after.r mips_r_nnpc ≡ u32 (next + 4))
      × (after.branched ≡ taken)
unfolding increment_pc branch_if
branch_if-increment_pc true imm16 m h = (h.0, refl, refl, refl)
branch_if-increment_pc false imm16 m h = (h.0, refl, refl, refl)

-- A branch that is not taken is followed like any other instruction of a sequence.
pub branch_not_taken :
    (imm16 : ℕ) (m : Mips)
    → InSequence m
    → (increment_pc (branch_if false imm16 m)).r ≡ (increment_pc m).r
unfolding increment_pc branch_if
branch_not_taken imm16 m h = fun_ext λ k. ground arith
