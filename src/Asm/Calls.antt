-- ===== src/Asm/Calls.antt =====
-- The calls of the assemblers of tests/test.h, their words, and the fields that these have.
use comparing_complexity_and.Base.{ℕ, ◌/◌, ◌%◌, ◌^◌, refl}
use comparing_complexity_and.Asm
use comparing_complexity_and.Asm.Fields.{
  Fields, op_part-Fields, fn_part-Fields, rs_part-Fields, rt_part-Fields, rd_part-Fields,
  sh_part-Fields, imm16_part-Fields, imm26_part-Fields,
}

-- A call of an assembler, but for ASSEMBLE_MULT_DIV and ASSEMBLE_SYSCALL.
pub data Call : Type 0 where
  alu_reg : (fn rs rt rd : ℕ) → Call
  alu_imm : (op rs rt imm16 : ℕ) → Call
  branch_eq_ne : (op rs rt imm16 : ℕ) → Call
  branch_generic : (rt rs imm16 : ℕ) → Call
  branch_blez_bgtz : (op rs imm16 : ℕ) → Call
  j_jal : (op imm26 : ℕ) → Call
  jalr : (fn rs rd : ℕ) → Call
  jr : (fn rs : ℕ) → Call
  load_imm : (op rs rt imm16 : ℕ) → Call
  lui_imm : (op rt imm16 : ℕ) → Call
  mf : (fn rd : ℕ) → Call
  mt : (fn rs : ℕ) → Call
  shift_imm : (fn rd rt sh : ℕ) → Call
  shift_reg : (fn rd rt rs : ℕ) → Call
  store_imm : (op rt rs imm16 : ℕ) → Call
  nop halt : Call

unfoldable pub word : Call → ℕ
word (alu_reg fn rs rt rd) = Asm.assemble_alu_reg fn rs rt rd
word (alu_imm op rs rt imm16) = Asm.assemble_alu_imm op rs rt imm16
word (branch_eq_ne op rs rt imm16) = Asm.assemble_branch_eq_ne op rs rt imm16
word (branch_generic rt rs imm16) = Asm.assemble_branch_generic rt rs imm16
word (branch_blez_bgtz op rs imm16) = Asm.assemble_branch_blez_bgtz op rs imm16
word (j_jal op imm26) = Asm.assemble_j_jal op imm26
word (jalr fn rs rd) = Asm.assemble_jalr fn rs rd
word (jr fn rs) = Asm.assemble_jr fn rs
word (load_imm op rs rt imm16) = Asm.assemble_load_imm op rs rt imm16
word (lui_imm op rt imm16) = Asm.assemble_lui_imm op rt imm16
word (mf fn rd) = Asm.assemble_mf fn rd
word (mt fn rs) = Asm.assemble_mt fn rs
word (shift_imm fn rd rt sh) = Asm.assemble_shift_imm fn rd rt sh
word (shift_reg fn rd rt rs) = Asm.assemble_shift_reg fn rd rt rs
word (store_imm op rt rs imm16) = Asm.assemble_store_imm op rt rs imm16
word nop = Asm.assemble_nop
word halt = Asm.assemble_halt

-- The fields that are handed over, and zeros elsewhere.
unfoldable pub HasFields : Call → Type 0
HasFields (alu_reg fn rs rt rd) =
    Fields (Asm.assemble_alu_reg fn rs rt rd) 0 (rs % 2 ^ 5) (rt % 2 ^ 5) (rd % 2 ^ 5) 0
      (fn % 2 ^ 6)
HasFields (alu_imm op rs rt imm16) =
    Fields (Asm.assemble_alu_imm op rs rt imm16) (op % 2 ^ 6) (rs % 2 ^ 5) (rt % 2 ^ 5)
      (imm16 / 2 ^ 11 % 2 ^ 5) (imm16 / 2 ^ 6 % 2 ^ 5) (imm16 % 2 ^ 6)
HasFields (branch_eq_ne op rs rt imm16) =
    Fields (Asm.assemble_branch_eq_ne op rs rt imm16) (op % 2 ^ 6) (rs % 2 ^ 5) (rt % 2 ^ 5)
      (imm16 / 2 ^ 11 % 2 ^ 5) (imm16 / 2 ^ 6 % 2 ^ 5) (imm16 % 2 ^ 6)
HasFields (branch_generic rt rs imm16) =
    Fields (Asm.assemble_branch_generic rt rs imm16) 1 (rs % 2 ^ 5) (rt % 2 ^ 5)
      (imm16 / 2 ^ 11 % 2 ^ 5) (imm16 / 2 ^ 6 % 2 ^ 5) (imm16 % 2 ^ 6)
HasFields (branch_blez_bgtz op rs imm16) =
    Fields (Asm.assemble_branch_blez_bgtz op rs imm16) (op % 2 ^ 6) (rs % 2 ^ 5) 0
      (imm16 / 2 ^ 11 % 2 ^ 5) (imm16 / 2 ^ 6 % 2 ^ 5) (imm16 % 2 ^ 6)
HasFields (j_jal op imm26) =
    Fields (Asm.assemble_j_jal op imm26) (op % 2 ^ 6) (imm26 / 2 ^ 21 % 2 ^ 5)
      (imm26 / 2 ^ 16 % 2 ^ 5) (imm26 / 2 ^ 11 % 2 ^ 5) (imm26 / 2 ^ 6 % 2 ^ 5) (imm26 % 2 ^ 6)
HasFields (jalr fn rs rd) =
    Fields (Asm.assemble_jalr fn rs rd) 0 (rs % 2 ^ 5) 0 (rd % 2 ^ 5) 0 (fn % 2 ^ 6)
HasFields (jr fn rs) = Fields (Asm.assemble_jr fn rs) 0 (rs % 2 ^ 5) 0 0 0 (fn % 2 ^ 6)
HasFields (load_imm op rs rt imm16) =
    Fields (Asm.assemble_load_imm op rs rt imm16) (op % 2 ^ 6) (rs % 2 ^ 5) (rt % 2 ^ 5)
      (imm16 / 2 ^ 11 % 2 ^ 5) (imm16 / 2 ^ 6 % 2 ^ 5) (imm16 % 2 ^ 6)
HasFields (lui_imm op rt imm16) =
    Fields (Asm.assemble_lui_imm op rt imm16) (op % 2 ^ 6) 0 (rt % 2 ^ 5) (imm16 / 2 ^ 11 % 2 ^ 5)
      (imm16 / 2 ^ 6 % 2 ^ 5) (imm16 % 2 ^ 6)
HasFields (mf fn rd) = Fields (Asm.assemble_mf fn rd) 0 0 0 (rd % 2 ^ 5) 0 (fn % 2 ^ 6)
HasFields (mt fn rs) = Fields (Asm.assemble_mt fn rs) 0 (rs % 2 ^ 5) 0 0 0 (fn % 2 ^ 6)
HasFields (shift_imm fn rd rt sh) =
    Fields (Asm.assemble_shift_imm fn rd rt sh) 0 0 (rt % 2 ^ 5) (rd % 2 ^ 5) (sh % 2 ^ 5)
      (fn % 2 ^ 6)
HasFields (shift_reg fn rd rt rs) =
    Fields (Asm.assemble_shift_reg fn rd rt rs) 0 (rs % 2 ^ 5) (rt % 2 ^ 5) (rd % 2 ^ 5) 0
      (fn % 2 ^ 6)
HasFields (store_imm op rt rs imm16) =
    Fields (Asm.assemble_store_imm op rt rs imm16) (op % 2 ^ 6) (rs % 2 ^ 5) (rt % 2 ^ 5)
      (imm16 / 2 ^ 11 % 2 ^ 5) (imm16 / 2 ^ 6 % 2 ^ 5) (imm16 % 2 ^ 6)
HasFields nop = Fields Asm.assemble_nop 0 0 0 0 0 0
HasFields halt = Fields Asm.assemble_halt 0 0 0 0 0 13

pub call-HasFields : (c : Call) → HasFields c
unfolding HasFields Asm.assemble_alu_reg Asm.assemble_alu_imm Asm.assemble_branch_eq_ne
    Asm.assemble_branch_generic Asm.assemble_branch_blez_bgtz Asm.assemble_j_jal Asm.assemble_jalr
    Asm.assemble_jr Asm.assemble_load_imm Asm.assemble_lui_imm Asm.assemble_mf Asm.assemble_mt
    Asm.assemble_shift_imm Asm.assemble_shift_reg Asm.assemble_store_imm
call-HasFields (alu_reg fn rs rt rd) =
    rs_part-Fields _ rs _ _ _ _ _
      (rd_part-Fields _ rd _ _ _ _ _ (rt_part-Fields _ rt _ _ _ _ _ (fn_part-Fields fn)))
call-HasFields (alu_imm op rs rt imm16) =
    imm16_part-Fields _ imm16 _ _ _
      (rt_part-Fields _ rt _ _ _ _ _ (rs_part-Fields _ rs _ _ _ _ _ (op_part-Fields op)))
call-HasFields (branch_eq_ne op rs rt imm16) =
    imm16_part-Fields _ imm16 _ _ _
      (rt_part-Fields _ rt _ _ _ _ _ (rs_part-Fields _ rs _ _ _ _ _ (op_part-Fields op)))
call-HasFields (branch_generic rt rs imm16) =
    imm16_part-Fields _ imm16 _ _ _
      (rt_part-Fields _ rt _ _ _ _ _ (rs_part-Fields _ rs _ _ _ _ _ (op_part-Fields 1)))
call-HasFields (branch_blez_bgtz op rs imm16) =
    imm16_part-Fields _ imm16 _ _ _ (rs_part-Fields _ rs _ _ _ _ _ (op_part-Fields op))
call-HasFields (j_jal op imm26) = imm26_part-Fields _ imm26 _ (op_part-Fields op)
call-HasFields (jalr fn rs rd) =
    rs_part-Fields _ rs _ _ _ _ _ (rd_part-Fields _ rd _ _ _ _ _ (fn_part-Fields fn))
call-HasFields (jr fn rs) = rs_part-Fields _ rs _ _ _ _ _ (fn_part-Fields fn)
call-HasFields (load_imm op rs rt imm16) =
    imm16_part-Fields _ imm16 _ _ _
      (rt_part-Fields _ rt _ _ _ _ _ (rs_part-Fields _ rs _ _ _ _ _ (op_part-Fields op)))
call-HasFields (lui_imm op rt imm16) =
    imm16_part-Fields _ imm16 _ _ _ (rt_part-Fields _ rt _ _ _ _ _ (op_part-Fields op))
call-HasFields (mf fn rd) = rd_part-Fields _ rd _ _ _ _ _ (fn_part-Fields fn)
call-HasFields (mt fn rs) = rs_part-Fields _ rs _ _ _ _ _ (fn_part-Fields fn)
call-HasFields (shift_imm fn rd rt sh) =
    sh_part-Fields _ sh _ _ _ _ _
      (rd_part-Fields _ rd _ _ _ _ _ (rt_part-Fields _ rt _ _ _ _ _ (fn_part-Fields fn)))
call-HasFields (shift_reg fn rd rt rs) =
    rs_part-Fields _ rs _ _ _ _ _
      (rd_part-Fields _ rd _ _ _ _ _ (rt_part-Fields _ rt _ _ _ _ _ (fn_part-Fields fn)))
call-HasFields (store_imm op rt rs imm16) =
    imm16_part-Fields _ imm16 _ _ _
      (rt_part-Fields _ rt _ _ _ _ _ (rs_part-Fields _ rs _ _ _ _ _ (op_part-Fields op)))
call-HasFields nop = record {
  op_at = refl;
  rs_at = refl;
  rt_at = refl;
  rd_at = refl;
  sh_at = refl;
  fn_at = refl;
}
call-HasFields halt = record {
  op_at = refl;
  rs_at = refl;
  rt_at = refl;
  rd_at = refl;
  sh_at = refl;
  fn_at = refl;
}
