-- ===== src/Disasm/Format.antt =====
-- The formatters `ITP_FORMAT_*` (instructions.h, lines 40-145) with `register_names` (mips.h), and the
-- line that each instruction's formatter prints. The printed text is a list of character codes.
use comparing_complexity_and.Base.{ℕ, List, [], ◌∷◌, ◌++◌, get_or}
use comparing_complexity_and.Word.{s16}
use comparing_complexity_and.Insn.{
  Insn, rs_field, rt_field, rd_field, sh_field, imm16_field, imm26_field,
}
use comparing_complexity_and.Machine.{Mips, mips_r_pc, mips_r_nnpc}
use comparing_complexity_and.Disasm.Text.{codes, hex, hex_padded, dec, signed}

abbrev pub register_names : List (List ℕ)
register_names =
    codes "%zr"
    ∷ codes "%at"
    ∷ codes "%v0"
    ∷ codes "%v1"
    ∷ codes "%a0"
    ∷ codes "%a1"
    ∷ codes "%a2"
    ∷ codes "%a3"
    ∷ codes "%t0"
    ∷ codes "%t1"
    ∷ codes "%t2"
    ∷ codes "%t3"
    ∷ codes "%t4"
    ∷ codes "%t5"
    ∷ codes "%t6"
    ∷ codes "%t7"
    ∷ codes "%s0"
    ∷ codes "%s1"
    ∷ codes "%s2"
    ∷ codes "%s3"
    ∷ codes "%s4"
    ∷ codes "%s5"
    ∷ codes "%s6"
    ∷ codes "%s7"
    ∷ codes "%t8"
    ∷ codes "%t9"
    ∷ codes "%k0"
    ∷ codes "%k1"
    ∷ codes "%gp"
    ∷ codes "%sp"
    ∷ codes "%fp"
    ∷ codes "%ra"
    ∷ codes "%hi"
    ∷ codes "%lo"
    ∷ codes "%pc"
    ∷ codes "%npc"
    ∷ codes "%nnpc"
    ∷ codes "%cir"
    ∷ codes ""
    ∷ codes ""
    ∷ []

-- `register_names[k]`.
abbrev pub register_name : ℕ → List ℕ
register_name k = get_or register_names k []

-- `"  %x:\t%08x\t%s "`, with which every formatter starts, and the arguments behind it.
unfoldable pub line : ℕ → List ℕ → Mips → List ℕ → List ℕ
line cir name mips arguments =
    codes "  "
    ++ (hex (mips.r mips_r_pc)
        ++ (codes ":\t"
            ++ (hex_padded 8 cir
                ++ (codes "\t" ++ (name ++ (codes " " ++ (arguments ++ codes "\n")))))))

-- Two and three arguments.
abbrev pub two : List ℕ → List ℕ → List ℕ
two a b = a ++ codes ", " ++ b

abbrev pub three : List ℕ → List ℕ → List ℕ → List ℕ
three a b c = a ++ codes ", " ++ b ++ codes ", " ++ c

-- `%s` of the names of `rs`, `rt` and `rd`, `%hd` of `imm16`, and `(0x%08x)` of `%nnpc`.
abbrev pub rs_name : ℕ → List ℕ
rs_name cir = register_name (rs_field cir)

abbrev pub rt_name : ℕ → List ℕ
rt_name cir = register_name (rt_field cir)

abbrev pub rd_name : ℕ → List ℕ
rd_name cir = register_name (rd_field cir)

abbrev pub imm16_text : ℕ → List ℕ
imm16_text cir = signed (s16 (imm16_field cir))

abbrev pub nnpc_text : Mips → List ℕ
nnpc_text mips = codes " (0x" ++ hex_padded 8 (mips.r mips_r_nnpc) ++ codes ")"

module _ (name : List ℕ) (cir : ℕ) (mips : Mips) where
  unfoldable pub format_shift_imm : List ℕ
  format_shift_imm =
      line cir name mips
        (three (rd_name cir) (rt_name cir) (codes "0x" ++ hex_padded 2 (sh_field cir)))

  unfoldable pub format_shift_reg : List ℕ
  format_shift_reg = line cir name mips (three (rd_name cir) (rt_name cir) (rs_name cir))

  unfoldable pub format_jr : List ℕ
  format_jr = line cir name mips (rs_name cir)

  unfoldable pub format_jalr : List ℕ
  format_jalr = line cir name mips (two (rd_name cir) (rs_name cir))

  unfoldable pub format_mf : List ℕ
  format_mf = line cir name mips (rd_name cir)

  unfoldable pub format_mt : List ℕ
  format_mt = line cir name mips (rs_name cir)

  unfoldable pub format_syscall : List ℕ
  format_syscall = line cir name mips (codes "imm20")

  unfoldable pub format_mult_div : List ℕ
  format_mult_div = line cir name mips (two (rs_name cir) (rt_name cir))

  -- `rt` before `rs`, whose values the instructions take the other way round.
  unfoldable pub format_alu_reg : List ℕ
  format_alu_reg = line cir name mips (three (rd_name cir) (rt_name cir) (rs_name cir))

  unfoldable pub format_branch_generic : List ℕ
  format_branch_generic = line cir name mips (two (rs_name cir) (imm16_text cir ++ nnpc_text mips))

  unfoldable pub format_j_jal : List ℕ
  format_j_jal = line cir name mips (codes "0x" ++ hex_padded 7 (imm26_field cir) ++ nnpc_text mips)

  unfoldable pub format_branch_eq_ne : List ℕ
  format_branch_eq_ne =
      line cir name mips (three (rs_name cir) (rt_name cir) (imm16_text cir ++ nnpc_text mips))

  unfoldable pub format_alu_imm : List ℕ
  format_alu_imm = line cir name mips (three (rt_name cir) (rs_name cir) (imm16_text cir))

  unfoldable pub format_lui_imm : List ℕ
  format_lui_imm =
      line cir name mips (two (rt_name cir) (codes "0x" ++ hex_padded 4 (imm16_field cir)))

  unfoldable pub format_load_imm : List ℕ
  format_load_imm = line cir name mips (
      two (rt_name cir)
        (codes "0x" ++ hex_padded 4 (imm16_field cir) ++ codes "[" ++ rs_name cir ++ codes "]"))

  unfoldable pub format_store_imm : List ℕ
  format_store_imm = line cir name mips (
      two (rt_name cir)
        (codes "0x" ++ hex_padded 4 (imm16_field cir) ++ codes "[" ++ rs_name cir ++ codes "]"))

  unfoldable pub format_rdhwr : List ℕ
  format_rdhwr = line cir name mips (two (rt_name cir) (dec (rd_field cir)))

-- `formatter(#name);` of the X-macro tables.
unfoldable pub format : Insn → ℕ → Mips → List ℕ
format Insn.blez cir mips = format_branch_generic (codes "blez") cir mips
format Insn.bgtz cir mips = format_branch_generic (codes "bgtz") cir mips
format Insn.j cir mips = format_j_jal (codes "j") cir mips
format Insn.jal cir mips = format_j_jal (codes "jal") cir mips
format Insn.beq cir mips = format_branch_eq_ne (codes "beq") cir mips
format Insn.bne cir mips = format_branch_eq_ne (codes "bne") cir mips
format Insn.addi cir mips = format_alu_imm (codes "addi") cir mips
format Insn.addiu cir mips = format_alu_imm (codes "addiu") cir mips
format Insn.slti cir mips = format_alu_imm (codes "slti") cir mips
format Insn.sltiu cir mips = format_alu_imm (codes "sltiu") cir mips
format Insn.andi cir mips = format_alu_imm (codes "andi") cir mips
format Insn.ori cir mips = format_alu_imm (codes "ori") cir mips
format Insn.xori cir mips = format_alu_imm (codes "xori") cir mips
format Insn.lui cir mips = format_lui_imm (codes "lui") cir mips
format Insn.lb cir mips = format_load_imm (codes "lb") cir mips
format Insn.lh cir mips = format_load_imm (codes "lh") cir mips
format Insn.lwl cir mips = format_load_imm (codes "lwl") cir mips
format Insn.lw cir mips = format_load_imm (codes "lw") cir mips
format Insn.lbu cir mips = format_load_imm (codes "lbu") cir mips
format Insn.lhu cir mips = format_load_imm (codes "lhu") cir mips
format Insn.lwr cir mips = format_load_imm (codes "lwr") cir mips
format Insn.ll cir mips = format_load_imm (codes "ll") cir mips
format Insn.sb cir mips = format_store_imm (codes "sb") cir mips
format Insn.sh cir mips = format_store_imm (codes "sh") cir mips
format Insn.swl cir mips = format_store_imm (codes "swl") cir mips
format Insn.sw cir mips = format_store_imm (codes "sw") cir mips
format Insn.sc cir mips = format_store_imm (codes "sc") cir mips
format Insn.swr cir mips = format_store_imm (codes "swr") cir mips
format Insn.rdhwr cir mips = format_rdhwr (codes "rdhwr") cir mips
format Insn.brk cir mips = format_syscall (codes "brk") cir mips
format Insn.sll cir mips = format_shift_imm (codes "sll") cir mips
format Insn.srl cir mips = format_shift_imm (codes "srl") cir mips
format Insn.sra cir mips = format_shift_imm (codes "sra") cir mips
format Insn.sllv cir mips = format_shift_reg (codes "sllv") cir mips
format Insn.srlv cir mips = format_shift_reg (codes "srlv") cir mips
format Insn.srav cir mips = format_shift_reg (codes "srav") cir mips
format Insn.jr cir mips = format_jr (codes "jr") cir mips
format Insn.jalr cir mips = format_jalr (codes "jalr") cir mips
format Insn.syscall cir mips = format_syscall (codes "syscall") cir mips
format Insn.special cir mips = format_syscall (codes "special") cir mips
format Insn.mfhi cir mips = format_mf (codes "mfhi") cir mips
format Insn.mflo cir mips = format_mf (codes "mflo") cir mips
format Insn.mthi cir mips = format_mt (codes "mthi") cir mips
format Insn.mtlo cir mips = format_mt (codes "mtlo") cir mips
format Insn.mult cir mips = format_mult_div (codes "mult") cir mips
format Insn.multu cir mips = format_mult_div (codes "multu") cir mips
format Insn.div cir mips = format_mult_div (codes "div") cir mips
format Insn.divu cir mips = format_mult_div (codes "divu") cir mips
format Insn.add cir mips = format_alu_reg (codes "add") cir mips
format Insn.addu cir mips = format_alu_reg (codes "addu") cir mips
format Insn.sub cir mips = format_alu_reg (codes "sub") cir mips
format Insn.subu cir mips = format_alu_reg (codes "subu") cir mips
format Insn.slt cir mips = format_alu_reg (codes "slt") cir mips
format Insn.sltu cir mips = format_alu_reg (codes "sltu") cir mips
format Insn.and cir mips = format_alu_reg (codes "and") cir mips
format Insn.or cir mips = format_alu_reg (codes "or") cir mips
format Insn.xor cir mips = format_alu_reg (codes "xor") cir mips
format Insn.nor cir mips = format_alu_reg (codes "nor") cir mips
format Insn.bltz cir mips = format_branch_generic (codes "bltz") cir mips
format Insn.bgez cir mips = format_branch_generic (codes "bgez") cir mips
format Insn.bltzal cir mips = format_branch_generic (codes "bltzal") cir mips
format Insn.bgezal cir mips = format_branch_generic (codes "bgezal") cir mips
