-- ===== src/Interp/Tables.antt =====
-- The label arrays of computed-goto.c (lines 25-61), which tail-call.c (lines 25-65) has as arrays
-- of handlers and blocked.c (lines 110-146) once more as labels, entry by entry in the same order.
use comparing_complexity_and.Base.{
  ℕ, ◌==◌, if◌then◌else◌, Option, none, some, List, [], ◌∷◌, Result, ok, ◌>>=◌, deref,
}
use comparing_complexity_and.Insn

-- Where an entry of the primary array leads.
pub data Label : Type 0 where
  do_secondary : Label
  do_branch : Label
  do_insn : Insn.Insn → Label

abbrev pub primary : List (ℕ × Label)
primary =
    (0, do_secondary)
    ∷ (1, do_branch)
    ∷ (Insn.j_op, do_insn Insn.Insn.j)
    ∷ (Insn.jal_op, do_insn Insn.Insn.jal)
    ∷ (Insn.beq_op, do_insn Insn.Insn.beq)
    ∷ (Insn.bne_op, do_insn Insn.Insn.bne)
    ∷ (Insn.blez_op, do_insn Insn.Insn.blez)
    ∷ (Insn.bgtz_op, do_insn Insn.Insn.bgtz)
    ∷ (Insn.addi_op, do_insn Insn.Insn.addi)
    ∷ (Insn.addiu_op, do_insn Insn.Insn.addiu)
    ∷ (Insn.slti_op, do_insn Insn.Insn.slti)
    ∷ (Insn.sltiu_op, do_insn Insn.Insn.sltiu)
    ∷ (Insn.andi_op, do_insn Insn.Insn.andi)
    ∷ (Insn.ori_op, do_insn Insn.Insn.ori)
    ∷ (Insn.xori_op, do_insn Insn.Insn.xori)
    ∷ (Insn.lui_op, do_insn Insn.Insn.lui)
    ∷ (Insn.lb_op, do_insn Insn.Insn.lb)
    ∷ (Insn.lh_op, do_insn Insn.Insn.lh)
    ∷ (Insn.lwl_op, do_insn Insn.Insn.lwl)
    ∷ (Insn.lw_op, do_insn Insn.Insn.lw)
    ∷ (Insn.ll_op, do_insn Insn.Insn.ll)
    ∷ (Insn.lbu_op, do_insn Insn.Insn.lbu)
    ∷ (Insn.lhu_op, do_insn Insn.Insn.lhu)
    ∷ (Insn.lwr_op, do_insn Insn.Insn.lwr)
    ∷ (Insn.sh_op, do_insn Insn.Insn.sh)
    ∷ (Insn.swl_op, do_insn Insn.Insn.swl)
    ∷ (Insn.sw_op, do_insn Insn.Insn.sw)
    ∷ (Insn.swr_op, do_insn Insn.Insn.swr)
    ∷ (Insn.sb_op, do_insn Insn.Insn.sb)
    ∷ (Insn.sc_op, do_insn Insn.Insn.sc)
    ∷ (Insn.rdhwr_op, do_insn Insn.Insn.rdhwr)
    ∷ []

abbrev pub secondary : List (ℕ × Insn.Insn)
secondary =
    (Insn.sll_fn, Insn.Insn.sll)
    ∷ (Insn.srl_fn, Insn.Insn.srl)
    ∷ (Insn.sra_fn, Insn.Insn.sra)
    ∷ (Insn.sllv_fn, Insn.Insn.sllv)
    ∷ (Insn.srlv_fn, Insn.Insn.srlv)
    ∷ (Insn.srav_fn, Insn.Insn.srav)
    ∷ (Insn.jr_fn, Insn.Insn.jr)
    ∷ (Insn.jalr_fn, Insn.Insn.jalr)
    ∷ (Insn.syscall_fn, Insn.Insn.syscall)
    ∷ (Insn.brk_fn, Insn.Insn.brk)
    ∷ (Insn.mfhi_fn, Insn.Insn.mfhi)
    ∷ (Insn.mthi_fn, Insn.Insn.mthi)
    ∷ (Insn.mflo_fn, Insn.Insn.mflo)
    ∷ (Insn.mtlo_fn, Insn.Insn.mtlo)
    ∷ (Insn.mult_fn, Insn.Insn.mult)
    ∷ (Insn.multu_fn, Insn.Insn.multu)
    ∷ (Insn.div_fn, Insn.Insn.div)
    ∷ (Insn.divu_fn, Insn.Insn.divu)
    ∷ (Insn.add_fn, Insn.Insn.add)
    ∷ (Insn.addu_fn, Insn.Insn.addu)
    ∷ (Insn.sub_fn, Insn.Insn.sub)
    ∷ (Insn.subu_fn, Insn.Insn.subu)
    ∷ (Insn.and_fn, Insn.Insn.and)
    ∷ (Insn.or_fn, Insn.Insn.or)
    ∷ (Insn.xor_fn, Insn.Insn.xor)
    ∷ (Insn.nor_fn, Insn.Insn.nor)
    ∷ (Insn.slt_fn, Insn.Insn.slt)
    ∷ (Insn.sltu_fn, Insn.Insn.sltu)
    ∷ (Insn.special_fn, Insn.Insn.special)
    ∷ []

abbrev pub branch : List (ℕ × Insn.Insn)
branch =
    (Insn.bltz_rt, Insn.Insn.bltz)
    ∷ (Insn.bgez_rt, Insn.Insn.bgez)
    ∷ (Insn.bltzal_rt, Insn.Insn.bltzal)
    ∷ (Insn.bgezal_rt, Insn.Insn.bgezal)
    ∷ []

-- An array given by designated initialisers: the last one for an index counts, an index without
-- one holds a null pointer, and behind the largest index the array ends. Jumping through either of
-- the latter is a fault.
unfoldable pub array_get {ℓ} : {A : Type ℓ} → List (ℕ × A) → ℕ → Option A
array_get [] i = none
array_get ((k, a) ∷ entries) i = elim (array_get entries i) [
  | some b ↦ some b
  | none ↦ if k == i then some a else none
]

-- `goto *primary[...]`, and the jumps at `do_secondary` and `do_branch`.
unfoldable pub label_of : ℕ → Result Insn.Insn
unfolding array_get
label_of cir = deref (array_get primary (Insn.op_field cir)) >>= elim [
  | do_secondary ↦ deref (array_get secondary (Insn.fn_field cir))
  | do_branch ↦ deref (array_get branch (Insn.rt_field cir))
  | do_insn insn ↦ ok insn
]
