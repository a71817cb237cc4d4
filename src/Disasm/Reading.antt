-- ===== src/Disasm/Reading.antt =====
-- Reading a listing: the address and the word of each instruction's line, and the other lines as
-- they are.
use comparing_complexity_and.Base.{
  ℕ, ◌^◌, ◌<◌, ◌≡◌, refl, ap, ◌∙◌, ◌==◌, if◌then◌else◌, inl, inr, get_or, List, ◌++◌, drop, map,
}
use comparing_complexity_and.Insn.{Insn}
use comparing_complexity_and.Machine.{Mips, mips_r_pc}
use comparing_complexity_and.Disasm.Text.{
  codes, hex_padded, read_hex, read_hex-hex, read_hex-hex_padded,
}
use comparing_complexity_and.Host.{Machine}
use comparing_complexity_and.Disasm.Calls.{mprotect_line, exec_lines, exec_lines-cases}
use comparing_complexity_and.Disasm.Format.{
  line, format, format_shift_imm, format_shift_reg, format_jr, format_jalr, format_mf, format_mt,
  format_syscall, format_mult_div, format_alu_reg, format_branch_generic, format_j_jal,
  format_branch_eq_ne, format_alu_imm, format_lui_imm, format_load_imm, format_store_imm,
  format_rdhwr,
}

-- A line that starts with a space is an instruction's, with its address and word.
pub data Entry : Type 0 where
  executed : (address word : ℕ) → Entry
  printed : (text : List ℕ) → Entry

-- The address between the first two characters and the colon, and the word behind the tab.
unfoldable pub read_line : List ℕ → Entry
read_line cs =
    let address = read_hex 0 (drop 2 cs) in
    let word = read_hex 0 (drop 2 address.1) in
    if get_or cs 0 0 == 32 then executed address.0 word.0 else printed cs

read_line-line :
    (cir : ℕ) (name : List ℕ) (mips : Mips) (arguments : List ℕ)
    → mips.r mips_r_pc < 2 ^ 32
    → cir < 2 ^ 32
    → read_line (line cir name mips arguments) ≡ executed (mips.r mips_r_pc) cir
unfolding read_line line
read_line-line cir name mips arguments h k =
    let behind = codes "\t" ++ (name ++ (codes " " ++ (arguments ++ codes "\n"))) in
    let first =
      read_hex-hex (mips.r mips_r_pc) (codes ":\t" ++ (hex_padded 8 cir ++ behind)) h refl in
    let second = read_hex-hex_padded 8 cir behind k refl in
    ap (λ (a : ℕ × List ℕ). executed a.0 (read_hex 0 (drop 2 a.1)).0) first
    ∙ ap (λ (w : ℕ × List ℕ). executed (mips.r mips_r_pc) w.0) second

-- The line of an instruction, read back, has the program counter and the instruction word that it
-- was printed for.
pub read_line-format :
    (insn : Insn) (cir : ℕ) (mips : Mips)
    → mips.r mips_r_pc < 2 ^ 32
    → cir < 2 ^ 32
    → read_line (format insn cir mips) ≡ executed (mips.r mips_r_pc) cir
unfolding format format_shift_imm format_shift_reg format_jr format_jalr format_mf format_mt
    format_syscall format_mult_div format_alu_reg format_branch_generic format_j_jal
    format_branch_eq_ne format_alu_imm format_lui_imm format_load_imm format_store_imm format_rdhwr
read_line-format Insn.blez cir mips h k = read_line-line cir (codes "blez") mips _ h k
read_line-format Insn.bgtz cir mips h k = read_line-line cir (codes "bgtz") mips _ h k
read_line-format Insn.j cir mips h k = read_line-line cir (codes "j") mips _ h k
read_line-format Insn.jal cir mips h k = read_line-line cir (codes "jal") mips _ h k
read_line-format Insn.beq cir mips h k = read_line-line cir (codes "beq") mips _ h k
read_line-format Insn.bne cir mips h k = read_line-line cir (codes "bne") mips _ h k
read_line-format Insn.addi cir mips h k = read_line-line cir (codes "addi") mips _ h k
read_line-format Insn.addiu cir mips h k = read_line-line cir (codes "addiu") mips _ h k
read_line-format Insn.slti cir mips h k = read_line-line cir (codes "slti") mips _ h k
read_line-format Insn.sltiu cir mips h k = read_line-line cir (codes "sltiu") mips _ h k
read_line-format Insn.andi cir mips h k = read_line-line cir (codes "andi") mips _ h k
read_line-format Insn.ori cir mips h k = read_line-line cir (codes "ori") mips _ h k
read_line-format Insn.xori cir mips h k = read_line-line cir (codes "xori") mips _ h k
read_line-format Insn.lui cir mips h k = read_line-line cir (codes "lui") mips _ h k
read_line-format Insn.lb cir mips h k = read_line-line cir (codes "lb") mips _ h k
read_line-format Insn.lh cir mips h k = read_line-line cir (codes "lh") mips _ h k
read_line-format Insn.lwl cir mips h k = read_line-line cir (codes "lwl") mips _ h k
read_line-format Insn.lw cir mips h k = read_line-line cir (codes "lw") mips _ h k
read_line-format Insn.lbu cir mips h k = read_line-line cir (codes "lbu") mips _ h k
read_line-format Insn.lhu cir mips h k = read_line-line cir (codes "lhu") mips _ h k
read_line-format Insn.lwr cir mips h k = read_line-line cir (codes "lwr") mips _ h k
read_line-format Insn.ll cir mips h k = read_line-line cir (codes "ll") mips _ h k
read_line-format Insn.sb cir mips h k = read_line-line cir (codes "sb") mips _ h k
read_line-format Insn.sh cir mips h k = read_line-line cir (codes "sh") mips _ h k
read_line-format Insn.swl cir mips h k = read_line-line cir (codes "swl") mips _ h k
read_line-format Insn.sw cir mips h k = read_line-line cir (codes "sw") mips _ h k
read_line-format Insn.sc cir mips h k = read_line-line cir (codes "sc") mips _ h k
read_line-format Insn.swr cir mips h k = read_line-line cir (codes "swr") mips _ h k
read_line-format Insn.rdhwr cir mips h k = read_line-line cir (codes "rdhwr") mips _ h k
read_line-format Insn.brk cir mips h k = read_line-line cir (codes "brk") mips _ h k
read_line-format Insn.sll cir mips h k = read_line-line cir (codes "sll") mips _ h k
read_line-format Insn.srl cir mips h k = read_line-line cir (codes "srl") mips _ h k
read_line-format Insn.sra cir mips h k = read_line-line cir (codes "sra") mips _ h k
read_line-format Insn.sllv cir mips h k = read_line-line cir (codes "sllv") mips _ h k
read_line-format Insn.srlv cir mips h k = read_line-line cir (codes "srlv") mips _ h k
read_line-format Insn.srav cir mips h k = read_line-line cir (codes "srav") mips _ h k
read_line-format Insn.jr cir mips h k = read_line-line cir (codes "jr") mips _ h k
read_line-format Insn.jalr cir mips h k = read_line-line cir (codes "jalr") mips _ h k
read_line-format Insn.syscall cir mips h k = read_line-line cir (codes "syscall") mips _ h k
read_line-format Insn.special cir mips h k = read_line-line cir (codes "special") mips _ h k
read_line-format Insn.mfhi cir mips h k = read_line-line cir (codes "mfhi") mips _ h k
read_line-format Insn.mflo cir mips h k = read_line-line cir (codes "mflo") mips _ h k
read_line-format Insn.mthi cir mips h k = read_line-line cir (codes "mthi") mips _ h k
read_line-format Insn.mtlo cir mips h k = read_line-line cir (codes "mtlo") mips _ h k
read_line-format Insn.mult cir mips h k = read_line-line cir (codes "mult") mips _ h k
read_line-format Insn.multu cir mips h k = read_line-line cir (codes "multu") mips _ h k
read_line-format Insn.div cir mips h k = read_line-line cir (codes "div") mips _ h k
read_line-format Insn.divu cir mips h k = read_line-line cir (codes "divu") mips _ h k
read_line-format Insn.add cir mips h k = read_line-line cir (codes "add") mips _ h k
read_line-format Insn.addu cir mips h k = read_line-line cir (codes "addu") mips _ h k
read_line-format Insn.sub cir mips h k = read_line-line cir (codes "sub") mips _ h k
read_line-format Insn.subu cir mips h k = read_line-line cir (codes "subu") mips _ h k
read_line-format Insn.slt cir mips h k = read_line-line cir (codes "slt") mips _ h k
read_line-format Insn.sltu cir mips h k = read_line-line cir (codes "sltu") mips _ h k
read_line-format Insn.and cir mips h k = read_line-line cir (codes "and") mips _ h k
read_line-format Insn.or cir mips h k = read_line-line cir (codes "or") mips _ h k
read_line-format Insn.xor cir mips h k = read_line-line cir (codes "xor") mips _ h k
read_line-format Insn.nor cir mips h k = read_line-line cir (codes "nor") mips _ h k
read_line-format Insn.bltz cir mips h k = read_line-line cir (codes "bltz") mips _ h k
read_line-format Insn.bgez cir mips h k = read_line-line cir (codes "bgez") mips _ h k
read_line-format Insn.bltzal cir mips h k = read_line-line cir (codes "bltzal") mips _ h k
read_line-format Insn.bgezal cir mips h k = read_line-line cir (codes "bgezal") mips _ h k

-- A line that an implementation prints is no instruction's.
pub read_lines-exec_lines :
    (insn : Insn) (s : Machine)
    → map read_line (exec_lines insn s) ≡ map printed (exec_lines insn s)
unfolding read_line mprotect_line
read_lines-exec_lines insn s = elim (exec_lines-cases insn s) [
  | inl silent ↦ rw silent
  | inr one ↦ rw one
]
