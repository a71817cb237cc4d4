-- ===== src/Blocked.antt =====
-- The interpreter of blocked.c: basic blocks are decoded once into arrays of operations, kept in a
-- hash table by address, linked to their successors and run by an unrolled loop.
pub mod Chain
pub mod Duff
pub mod Decode
pub mod Plain
pub mod Jumps
pub mod Simulation
pub mod Unique
pub mod Next
pub mod Cache
pub mod Links
pub mod Runs
pub mod Sound
pub mod Agreement
pub mod Ending
use comparing_complexity_and.Base.{
  ℕ, zero, suc, ◌+◌, ◌-◌, ◌*◌, ◌/◌, ◌%◌, ◌^◌, ◌==◌, ◌≡◌, ◌≢◌, if◌then◌else◌, Bool, true, false, not,
  ◌&&◌, ◌||◌, Option, none, some, List, [], ◌∷◌, ◌++◌, length, update, Result, ok, aborted, fault,
  timeout, ◌>>=◌, deref,
}
use comparing_complexity_and.Word.{u32}
use comparing_complexity_and.Insn.{Insn}
use comparing_complexity_and.Machine.{set_r, mips_r_pc, mips_r_nnpc}
use comparing_complexity_and.Memory.{Memory, memory_read_u32}
use comparing_complexity_and.Host.{Env, Machine, set_mips}
use comparing_complexity_and.Instr.Exec.{exec}
use comparing_complexity_and.Interp.Tables.{label_of}

-- `op_t`: the word and the handler; the null handler ends the array.
pub record Op : Type 0 where
  pub cir : ℕ
  pub op : Option Insn

-- `block_t`. Links are handles: a handle stands for the pointer that `malloc` gave the block.
pub record Block : Type 0 where
  pub address : ℕ
  pub size : ℕ
  pub ops : List Op
  pub indirect : Bool
  pub next : Bool → Option ℕ

-- The three macros that a label of `decode_block` is made by.
pub data Kind : Type 0 where
  basic : Kind
  branching : Kind
  indirect_branching : Kind

-- `LABEL_BRANCH_INDIRECT`, `LABEL_BRANCH`, and `LABEL` for all the others.
unfoldable pub kind_of : Insn → Kind
kind_of Insn.jr = indirect_branching
kind_of Insn.jalr = indirect_branching
kind_of Insn.bltz = branching
kind_of Insn.bgez = branching
kind_of Insn.blez = branching
kind_of Insn.bgtz = branching
kind_of Insn.bltzal = branching
kind_of Insn.bgezal = branching
kind_of Insn.j = branching
kind_of Insn.jal = branching
kind_of Insn.beq = branching
kind_of Insn.bne = branching
kind_of Insn.syscall = basic
kind_of Insn.special = basic
kind_of Insn.brk = basic
kind_of Insn.sll = basic
kind_of Insn.srl = basic
kind_of Insn.sra = basic
kind_of Insn.sllv = basic
kind_of Insn.srlv = basic
kind_of Insn.srav = basic
kind_of Insn.mfhi = basic
kind_of Insn.mflo = basic
kind_of Insn.mthi = basic
kind_of Insn.mtlo = basic
kind_of Insn.mult = basic
kind_of Insn.multu = basic
kind_of Insn.div = basic
kind_of Insn.divu = basic
kind_of Insn.add = basic
kind_of Insn.addu = basic
kind_of Insn.sub = basic
kind_of Insn.subu = basic
kind_of Insn.slt = basic
kind_of Insn.sltu = basic
kind_of Insn.and = basic
kind_of Insn.or = basic
kind_of Insn.xor = basic
kind_of Insn.nor = basic
kind_of Insn.addi = basic
kind_of Insn.addiu = basic
kind_of Insn.slti = basic
kind_of Insn.sltiu = basic
kind_of Insn.andi = basic
kind_of Insn.ori = basic
kind_of Insn.xori = basic
kind_of Insn.lui = basic
kind_of Insn.lb = basic
kind_of Insn.lh = basic
kind_of Insn.lwl = basic
kind_of Insn.lw = basic
kind_of Insn.ll = basic
kind_of Insn.lbu = basic
kind_of Insn.lhu = basic
kind_of Insn.lwr = basic
kind_of Insn.sb = basic
kind_of Insn.sh = basic
kind_of Insn.swl = basic
kind_of Insn.sw = basic
kind_of Insn.sc = basic
kind_of Insn.swr = basic
kind_of Insn.rdhwr = basic

-- What `DARRAY_PUSH` pushes for a handler, and at `complete:` for `NULL`.
abbrev pub real_op : ℕ → Insn → Op
real_op cir insn = record { cir = cir; op = some insn }

abbrev pub null_op : ℕ → Op
null_op cir = record { cir = cir; op = none }

-- The dispatch chain of `decode_block` from `pc` on: the operations pushed with the terminator,
-- and `indirect`. The
-- machine has not halted while a block is decoded. A word of fuel for each word read: with no
-- branch before the fuel ends, the chain goes on.
unfoldable pub decode_chain : ℕ → Memory → ℕ → (branched indirect : Bool) → Result (List Op × Bool)
decode_chain zero memory pc branched indirect = timeout
decode_chain (suc fuel) memory pc branched indirect = do
  cir ← memory_read_u32 memory pc
  insn ← label_of cir
  let next = u32 (pc + 4)
  elim (kind_of insn) [
    | basic ↦ if branched then ok (real_op cir insn ∷ null_op cir ∷ [], indirect) else (do
      (ops, ind) ← decode_chain fuel memory next false indirect
      ok (real_op cir insn ∷ ops, ind))
    | branching ↦ do
      (ops, ind) ← decode_chain fuel memory next true indirect
      ok (real_op cir insn ∷ ops, ind)
    | indirect_branching ↦ do
      (ops, ind) ← decode_chain fuel memory next true true
      ok (real_op cir insn ∷ ops, ind)
  ]

unfoldable pub decode_block : ℕ → Machine → Result Block
decode_block fuel s = do
  (ops, indirect) ← decode_chain fuel s.memory (s.mips.r mips_r_pc) false false
  ok (record {
    address = s.mips.r mips_r_pc;
    size = length ops;
    ops = ops;
    indirect = indirect;
    next = λ _. none;
  })

module _ (env : Env) where
  -- `ops->op(ops->cir, mips, memory); ops++;`, `n` times: a call through a null handler or a read
  -- past the array is a fault.
  unfoldable pub run_ops : ℕ → List Op → Machine → Result (Machine × List Op)
  run_ops zero ops s = ok (s, ops)
  run_ops (suc n) [] s = fault
  run_ops (suc n) (o ∷ ops) s = do insn ← deref o.op; s' ← exec env insn o.cir s; run_ops n ops s'

  -- `do { case 8: ... case 1: ... } while (ops->op);` entered at the case that leaves `entry`
  -- operations of the first round. `rounds` bounds the rounds.
  unfoldable pub unrolled : ℕ → ℕ → List Op → Machine → Result Machine
  unrolled zero entry ops s = timeout
  unrolled (suc rounds) entry ops s = do
    (s', rest) ← run_ops entry ops s
    elim rest [
      | [] ↦ fault
      | o ∷ more ↦ elim o.op [ none ↦ ok s' | some _ ↦ unrolled rounds 8 (o ∷ more) s' ]
    ]

  -- `switch ((current->size-1) % UNROLL_SIZE)`, whose `case 0` is the round with all eight.
  unfoldable pub duff : Block → Machine → Result Machine
  duff block s =
      let n = (block.size - 1) % 8 in
      unrolled (length block.ops) (if n == 0 then 8 else n) block.ops s

  -- The body of the inner loop up to the new block pointers.
  unfoldable pub run_block : Block → Machine → Result Machine
  run_block block s = do
    s' ← duff block (
        set_mips
          (set_r mips_r_pc (u32 (s.mips.r mips_r_pc + u32 (4 * (u32 (block.size + 2 ^ 32 - 3)))))
            s.mips)
          s)
    ok (set_mips (set_r mips_r_pc (s'.mips.r mips_r_nnpc) s'.mips) s')
