-- ===== src/Instr/Control.antt =====
-- Branches and jumps (instructions.h, lines 178-189, 214-231, 292-300 and 400-430). They set
-- `%nnpc`, so the instruction behind them is executed first.
use comparing_complexity_and.Base.{ℕ, ◌+◌, ◌*◌, ◌^◌, ◌==◌, Bool, true, false, not, bit_and, bit_or}
use comparing_complexity_and.Word.{u32, s32, s16, u32_of}
use comparing_complexity_and.Word.Int.{pos, ltb_ℤ}
use comparing_complexity_and.Insn.{rs_field, rt_field, rd_field, imm16_field, imm26_field}
use comparing_complexity_and.Machine.{Mips, set_r, set_branched, mips_r_ra, mips_r_pc, mips_r_nnpc}

-- `mips->r[MIPS_R_PC] + (((s32)(s16)imm16) << 2) + 4`.
abbrev pub branch_target : ℕ → ℕ → ℕ
branch_target pc imm16 = u32 (pc + u32 (u32_of (s16 imm16) * 2 ^ 2) + 4)

-- `BRANCH` and `NOT_BRANCH`, chosen by the condition.
unfoldable pub branch_if : Bool → ℕ → Mips → Mips
branch_if true imm16 mips =
    set_r mips_r_nnpc (branch_target (mips.r mips_r_pc) imm16) (set_branched true mips)
branch_if false imm16 mips =
    set_r mips_r_nnpc (u32 (mips.r mips_r_pc + 8)) (set_branched false mips)

-- `mips->r[k] = mips->r[MIPS_R_PC] + 8`.
abbrev pub link : ℕ → Mips → Mips
link k mips = set_r k (u32 (mips.r mips_r_pc + 8)) mips

-- `ITP_TYPE_BRANCH_GENERIC` with a condition on `rs`, without and with a link.
unfoldable pub branch_generic : (ℕ → Bool) → ℕ → Mips → Mips
unfolding branch_if
branch_generic test cir mips = branch_if (test (mips.r (rs_field cir))) (imm16_field cir) mips

unfoldable pub branch_generic_link : (ℕ → Bool) → ℕ → Mips → Mips
unfolding branch_if
branch_generic_link test cir mips =
    branch_if (test (mips.r (rs_field cir))) (imm16_field cir) (link mips_r_ra mips)

abbrev pub is_ltz : ℕ → Bool
is_ltz value_rs = ltb_ℤ (s32 value_rs) (pos 0)

abbrev pub is_gez : ℕ → Bool
is_gez value_rs = not (ltb_ℤ (s32 value_rs) (pos 0))

abbrev pub is_lez : ℕ → Bool
is_lez value_rs = not (ltb_ℤ (pos 0) (s32 value_rs))

abbrev pub is_gtz : ℕ → Bool
is_gtz value_rs = ltb_ℤ (pos 0) (s32 value_rs)

-- `ITP_TYPE_BRANCH_EQ_NE`.
unfoldable pub branch_eq_ne : (ℕ → ℕ → Bool) → ℕ → Mips → Mips
unfolding branch_if
branch_eq_ne test cir mips =
    branch_if (test (mips.r (rs_field cir)) (mips.r (rt_field cir))) (imm16_field cir) mips

abbrev pub is_eq : ℕ → ℕ → Bool
is_eq value_rs value_rt = value_rs == value_rt

abbrev pub is_ne : ℕ → ℕ → Bool
is_ne value_rs value_rt = not (value_rs == value_rt)

unfoldable pub jr_insn : ℕ → Mips → Mips
jr_insn cir mips = set_r mips_r_nnpc (mips.r (rs_field cir)) (set_branched true mips)

-- `rs` is read before `rd` is written.
unfoldable pub jalr_insn : ℕ → Mips → Mips
jalr_insn cir mips =
    set_r mips_r_nnpc (mips.r (rs_field cir)) (link (rd_field cir) (set_branched true mips))

-- `(mips->r[MIPS_R_PC] & 0xf0000000) | (imm26 << 2)`.
abbrev pub jump_target : ℕ → ℕ → ℕ
jump_target pc imm26 = bit_or (bit_and pc 0xf0000000) (imm26 * 2 ^ 2)

unfoldable pub j_insn : ℕ → Mips → Mips
j_insn cir mips =
    set_r mips_r_nnpc (jump_target (mips.r mips_r_pc) (imm26_field cir)) (set_branched true mips)

unfoldable pub jal_insn : ℕ → Mips → Mips
jal_insn cir mips =
    set_r mips_r_nnpc (jump_target (mips.r mips_r_pc) (imm26_field cir))
      (link mips_r_ra (set_branched true mips))
