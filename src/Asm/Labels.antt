-- ===== src/Asm/Labels.antt =====
-- Which instruction an assembler of tests/test.h gives: the interpreters' label arrays find it.
use comparing_complexity_and.Base.{ℕ, ◌%◌, ◌^◌, ◌≡◌, sym, some, ok}
use comparing_complexity_and.Insn.{Insn, op_field, rt_field, fn_field}
use comparing_complexity_and.Interp.Tables.{
  primary, secondary, branch, do_insn, array_get, label_of,
}
use comparing_complexity_and.Asm
use comparing_complexity_and.Asm.Calls.{
  alu_reg, alu_imm, branch_eq_ne, branch_generic, branch_blez_bgtz, j_jal, jalr, jr, load_imm,
  lui_imm, mf, mt, shift_imm, shift_reg, store_imm, nop, halt, Call, word, HasFields,
  call-HasFields,
}

-- The instruction whose code is handed over.
unfoldable pub Names : Call → Insn → Type 0
Names (alu_reg fn rs rt rd) insn = array_get secondary (fn % 2 ^ 6) ≡ some insn
Names (alu_imm op rs rt imm16) insn = array_get primary (op % 2 ^ 6) ≡ some (do_insn insn)
Names (branch_eq_ne op rs rt imm16) insn = array_get primary (op % 2 ^ 6) ≡ some (do_insn insn)
Names (branch_generic rt rs imm16) insn = array_get branch (rt % 2 ^ 5) ≡ some insn
Names (branch_blez_bgtz op rs imm16) insn = array_get primary (op % 2 ^ 6) ≡ some (do_insn insn)
Names (j_jal op imm26) insn = array_get primary (op % 2 ^ 6) ≡ some (do_insn insn)
Names (jalr fn rs rd) insn = array_get secondary (fn % 2 ^ 6) ≡ some insn
Names (jr fn rs) insn = array_get secondary (fn % 2 ^ 6) ≡ some insn
Names (load_imm op rs rt imm16) insn = array_get primary (op % 2 ^ 6) ≡ some (do_insn insn)
Names (lui_imm op rt imm16) insn = array_get primary (op % 2 ^ 6) ≡ some (do_insn insn)
Names (mf fn rd) insn = array_get secondary (fn % 2 ^ 6) ≡ some insn
Names (mt fn rs) insn = array_get secondary (fn % 2 ^ 6) ≡ some insn
Names (shift_imm fn rd rt sh) insn = array_get secondary (fn % 2 ^ 6) ≡ some insn
Names (shift_reg fn rd rt rs) insn = array_get secondary (fn % 2 ^ 6) ≡ some insn
Names (store_imm op rt rs imm16) insn = array_get primary (op % 2 ^ 6) ≡ some (do_insn insn)
Names nop insn = Insn.sll ≡ insn
Names halt insn = Insn.brk ≡ insn

label_of-secondary :
    (w c : ℕ) (insn : Insn)
    → op_field w ≡ 0
    → fn_field w ≡ c
    → array_get secondary c ≡ some insn
    → label_of w ≡ ok insn
unfolding label_of array_get
label_of-secondary w c insn e f h = rw (e, f, h)

label_of-branch :
    (w c : ℕ) (insn : Insn)
    → op_field w ≡ 1
    → rt_field w ≡ c
    → array_get branch c ≡ some insn
    → label_of w ≡ ok insn
unfolding label_of array_get
label_of-branch w c insn e f h = rw (e, f, h)

label_of-primary :
    (w c : ℕ) (insn : Insn)
    → op_field w ≡ c
    → array_get primary c ≡ some (do_insn insn)
    → label_of w ≡ ok insn
unfolding label_of
label_of-primary w c insn e h = rw (e, h)

label_of-word : (c : Call) (insn : Insn) → Names c insn → label_of (word c) ≡ ok insn
unfolding word Names HasFields label_of array_get
label_of-word (alu_reg fn rs rt rd) insn named =
    let h = call-HasFields (alu_reg fn rs rt rd) in
    label_of-secondary (Asm.assemble_alu_reg fn rs rt rd) (fn % 2 ^ 6) insn h.op_at h.fn_at named
label_of-word (alu_imm op rs rt imm16) insn named =
    let h = call-HasFields (alu_imm op rs rt imm16) in
    label_of-primary (Asm.assemble_alu_imm op rs rt imm16) (op % 2 ^ 6) insn h.op_at named
label_of-word (branch_eq_ne op rs rt imm16) insn named =
    let h = call-HasFields (branch_eq_ne op rs rt imm16) in
    label_of-primary (Asm.assemble_branch_eq_ne op rs rt imm16) (op % 2 ^ 6) insn h.op_at named
label_of-word (branch_generic rt rs imm16) insn named =
    let h = call-HasFields (branch_generic rt rs imm16) in
    label_of-branch (Asm.assemble_branch_generic rt rs imm16) (rt % 2 ^ 5) insn h.op_at h.rt_at
      named
label_of-word (branch_blez_bgtz op rs imm16) insn named =
    let h = call-HasFields (branch_blez_bgtz op rs imm16) in
    label_of-primary (Asm.assemble_branch_blez_bgtz op rs imm16) (op % 2 ^ 6) insn h.op_at named
label_of-word (j_jal op imm26) insn named =
    let h = call-HasFields (j_jal op imm26) in
    label_of-primary (Asm.assemble_j_jal op imm26) (op % 2 ^ 6) insn h.op_at named
label_of-word (jalr fn rs rd) insn named =
    let h = call-HasFields (jalr fn rs rd) in
    label_of-secondary (Asm.assemble_jalr fn rs rd) (fn % 2 ^ 6) insn h.op_at h.fn_at named
label_of-word (jr fn rs) insn named =
    let h = call-HasFields (jr fn rs) in
    label_of-secondary (Asm.assemble_jr fn rs) (fn % 2 ^ 6) insn h.op_at h.fn_at named
label_of-word (load_imm op rs rt imm16) insn named =
    let h = call-HasFields (load_imm op rs rt imm16) in
    label_of-primary (Asm.assemble_load_imm op rs rt imm16) (op % 2 ^ 6) insn h.op_at named
label_of-word (lui_imm op rt imm16) insn named =
    let h = call-HasFields (lui_imm op rt imm16) in
    label_of-primary (Asm.assemble_lui_imm op rt imm16) (op % 2 ^ 6) insn h.op_at named
label_of-word (mf fn rd) insn named =
    let h = call-HasFields (mf fn rd) in
    label_of-secondary (Asm.assemble_mf fn rd) (fn % 2 ^ 6) insn h.op_at h.fn_at named
label_of-word (mt fn rs) insn named =
    let h = call-HasFields (mt fn rs) in
    label_of-secondary (Asm.assemble_mt fn rs) (fn % 2 ^ 6) insn h.op_at h.fn_at named
label_of-word (shift_imm fn rd rt sh) insn named =
    let h = call-HasFields (shift_imm fn rd rt sh) in
    label_of-secondary (Asm.assemble_shift_imm fn rd rt sh) (fn % 2 ^ 6) insn h.op_at h.fn_at named
label_of-word (shift_reg fn rd rt rs) insn named =
    let h = call-HasFields (shift_reg fn rd rt rs) in
    label_of-secondary (Asm.assemble_shift_reg fn rd rt rs) (fn % 2 ^ 6) insn h.op_at h.fn_at named
label_of-word (store_imm op rt rs imm16) insn named =
    let h = call-HasFields (store_imm op rt rs imm16) in
    label_of-primary (Asm.assemble_store_imm op rt rs imm16) (op % 2 ^ 6) insn h.op_at named
label_of-word nop insn named = rw (sym named)
label_of-word halt insn named = rw (sym named)

-- The word that an assembler gives for the code of an instruction, whatever the other arguments,
-- leads to this instruction through the label arrays, and has each of the arguments in its field,
-- cut to the field's width, with zeros in the fields that are not given. ASSEMBLE_MULT_DIV and
-- ASSEMBLE_SYSCALL are left out.
pub label_of-assemble :
    (c : Call) (insn : Insn) → Names c insn → (label_of (word c) ≡ ok insn) × HasFields c
label_of-assemble c insn named = (label_of-word c insn named, call-HasFields c)
