-- ===== src/Instr/Branches.antt =====
-- The branches (instructions.h) look at `%pc` only, and leave their target in `%nnpc`.
use comparing_complexity_and.Base.{
  ℕ, ◌+◌, ◌≡◌, Bool, true, false, update, ok, ap, ◌∙◌, arith, fun_ext,
}
use comparing_complexity_and.Word.{u32}
use comparing_complexity_and.Insn.{rs_field, rt_field, rd_field, imm16_field, imm26_field}
use comparing_complexity_and.Machine.{Mips, set_r, mips_r_ra, mips_r_nnpc}
use comparing_complexity_and.Host.{Machine, set_mips}
use comparing_complexity_and.Instr.Control.{
  branch_if, branch_target, jump_target, branch_generic, branch_generic_link, branch_eq_ne, jr_insn,
  jalr_insn, j_insn, jal_insn,
}
use comparing_complexity_and.Instr.Exec.{on_mips}
use comparing_complexity_and.Instr.Plain.{at, mips_at, counters, counters_below, set_r-mips_at}

counters-target :
    (p n q v : ℕ) (r : ℕ → ℕ) → update (counters p n q r) mips_r_nnpc v ≡ counters p n v r
counters-target p n q v r = fun_ext λ i. ground arith

set_r-target :
    (p n q v : ℕ) (br : Bool) (m : Mips)
    → set_r mips_r_nnpc v (mips_at p n q br m) ≡ mips_at p n v br m
set_r-target p n q v br m =
    ap (λ f. record m { r = f; branched = br }) (counters-target p n q v m.r)

-- Where a branch leads whose target does not come from a register, by whether it is taken.
abbrev pub branch_dest : ℕ → ℕ → Bool → ℕ
branch_dest cir p true = branch_target p (imm16_field cir)
branch_dest cir p false = u32 (p + 8)

branch_if-at :
    (taken : Bool) (cir p n q : ℕ) (br : Bool) (m : Mips)
    → branch_if taken (imm16_field cir) (mips_at p n q br m)
      ≡ mips_at p n (branch_dest cir p taken) taken m
unfolding branch_if
branch_if-at true cir p n q br m = set_r-target p n q (branch_dest cir p true) true m
branch_if-at false cir p n q br m = set_r-target p n q (branch_dest cir p false) false m

module _ (cir p : ℕ) (s : Machine) where
  pub rs_value : ℕ
  rs_value = s.mips.r (rs_field cir)

  pub rt_value : ℕ
  rt_value = s.mips.r (rt_field cir)

  rs_at : (n q : ℕ) → counters p n q s.mips.r (rs_field cir) ≡ rs_value
  unfolding rs_value
  rs_at n q = counters_below p n q (rs_field cir) s.mips.r (omega arith)

  rt_at : (n q : ℕ) → counters p n q s.mips.r (rt_field cir) ≡ rt_value
  unfolding rt_value
  rt_at n q = counters_below p n q (rt_field cir) s.mips.r (omega arith)

  pub branch_generic-at :
      (test : ℕ → Bool) (n q : ℕ) (br : Bool)
      → on_mips (branch_generic test cir) (at p n q br s)
        ≡ ok (at p n (branch_dest cir p (test rs_value)) (test rs_value) s)
  unfolding branch_generic
  branch_generic-at test n q br =
      rw (rs_at n q)
        (ap (λ m. ok (set_mips m s)) (branch_if-at (test rs_value) cir p n q br s.mips))

  pub branch_eq_ne-at :
      (test : ℕ → ℕ → Bool) (n q : ℕ) (br : Bool)
      → on_mips (branch_eq_ne test cir) (at p n q br s)
        ≡ ok (at p n (branch_dest cir p (test rs_value rt_value)) (test rs_value rt_value) s)
  unfolding branch_eq_ne
  branch_eq_ne-at test n q br =
      rw (rs_at n q, rt_at n q)
        (ap (λ m. ok (set_mips m s)) (branch_if-at (test rs_value rt_value) cir p n q br s.mips))

  abbrev pub linked_at : ℕ → Mips
  linked_at k = set_r k (u32 (p + 8)) s.mips

  pub branch_generic_link-at :
      (test : ℕ → Bool) (n q : ℕ) (br : Bool)
      → on_mips (branch_generic_link test cir) (at p n q br s)
        ≡ ok (
            at p n
              (branch_dest cir p (test rs_value))
              (test rs_value)
              (set_mips (linked_at mips_r_ra) s))
  unfolding branch_generic_link
  branch_generic_link-at test n q br = rw (rs_at n q) (
      ap (λ m. ok (set_mips (branch_if (test rs_value) (imm16_field cir) m) s))
        (set_r-mips_at p n q br mips_r_ra (u32 (p + 8)) s.mips (omega arith))
      ∙ ap (λ m. ok (set_mips m s))
          (branch_if-at (test rs_value) cir p n q br (linked_at mips_r_ra)))

  pub j_insn-at :
      (n q : ℕ) (br : Bool)
      → on_mips (j_insn cir) (at p n q br s) ≡ ok (at p n (jump_target p (imm26_field cir)) true s)
  unfolding j_insn
  j_insn-at n q br =
      ap (λ m. ok (set_mips m s)) (set_r-target p n q (jump_target p (imm26_field cir)) true s.mips)

  pub jal_insn-at :
      (n q : ℕ) (br : Bool)
      → on_mips (jal_insn cir) (at p n q br s)
        ≡ ok (at p n (jump_target p (imm26_field cir)) true (set_mips (linked_at mips_r_ra) s))
  unfolding jal_insn
  jal_insn-at n q br =
      ap (λ m. ok (set_mips (set_r mips_r_nnpc (jump_target p (imm26_field cir)) m) s))
        (set_r-mips_at p n q true mips_r_ra (u32 (p + 8)) s.mips (omega arith))
      ∙ ap (λ m. ok (set_mips m s))
          (set_r-target p n q (jump_target p (imm26_field cir)) true (linked_at mips_r_ra))

  pub jr_insn-at :
      (n q : ℕ) (br : Bool) → on_mips (jr_insn cir) (at p n q br s) ≡ ok (at p n rs_value true s)
  unfolding jr_insn
  jr_insn-at n q br =
      rw (rs_at n q) (ap (λ m. ok (set_mips m s)) (set_r-target p n q rs_value true s.mips))

  pub jalr_insn-at :
      (n q : ℕ) (br : Bool)
      → on_mips (jalr_insn cir) (at p n q br s)
        ≡ ok (at p n rs_value true (set_mips (linked_at (rd_field cir)) s))
  unfolding jalr_insn
  jalr_insn-at n q br = rw (rs_at n q) (
      ap (λ m. ok (set_mips (set_r mips_r_nnpc rs_value m) s))
        (set_r-mips_at p n q true (rd_field cir) (u32 (p + 8)) s.mips (omega arith))
      ∙ ap (λ m. ok (set_mips m s)) (set_r-target p n q rs_value true (linked_at (rd_field cir))))
