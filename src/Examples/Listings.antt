-- ===== src/Examples/Listings.antt =====
-- Listings of the program that exits in a delay slot.
use comparing_complexity_and.Base.{◌≡◌, refl, [], ◌∷◌, map, ok, some, AllOf}
use comparing_complexity_and.Word.{from_bytes}
use comparing_complexity_and.Insn.{Insn}
use comparing_complexity_and.Machine.{increment_pc, set_r}
use comparing_complexity_and.Memory.{memory_find_page, memory_read_u32, load_bytes}
use comparing_complexity_and.Syscall.{mips_syscall_exit}
use comparing_complexity_and.Syscall.Dispatch.{syscall, run_syscall}
use comparing_complexity_and.Instr.Alu.{alu_imm, addiu_impl}
use comparing_complexity_and.Instr.Control.{branch_eq_ne}
use comparing_complexity_and.Instr.Exec.{exec}
use comparing_complexity_and.Interp.Tables.{label_of}
use comparing_complexity_and.Interp.Switch.{switch_dispatch, interpreter_switch}
use comparing_complexity_and.Interp.ComputedGoto.{interpreter_computed_goto}
use comparing_complexity_and.Interp.TailCall.{interpreter_tail_call, handler_call}
use comparing_complexity_and.Disasm.Text.{codes, hex, hex_padded, dec, signed}
use comparing_complexity_and.Disasm.Format.{
  line, format, format_alu_imm, format_alu_reg, format_branch_eq_ne, format_syscall,
}
use comparing_complexity_and.Disasm.Reading.{read_line}
use comparing_complexity_and.Disasm.Registers.{value_of, read_registers, known_registers}
use comparing_complexity_and.Disasm.Names.{print_mips_registers-names}
use comparing_complexity_and.Disasm.Calls.{mprotect_line, syscall_lines, exec_lines}
use comparing_complexity_and.Host.{Machine}
use comparing_complexity_and.Disasm.Listing.{
  Listed, run_of, switch_step_disassemble, interpreter_switch_disassemble,
  interpreter_computed_goto_disassemble, interpreter_tail_call_disassemble, interpret_disassemble,
  interpreters_disassemble_lem,
}
use comparing_complexity_and.Disasm.Rounds.{
  Executes, switch_entries, computed_goto_entries, tail_call_entries,
}
use comparing_complexity_and.Disasm.Trace.{
  interpreter_tail_call_disassemble-Executes, interpreter_switch_disassemble-Executes,
  interpreter_computed_goto_disassemble-Executes,
}
use comparing_complexity_and.Examples.Delayed.{first, first-IsSound}
use comparing_complexity_and.Examples.Sample.{quiet, start_mips, value_or, value_or-ok}

-- `r[8] = r[9] - r[10]`, listed with the operands the other way round.
subu_line :
    format Insn.subu 0x012a4023 start_mips ≡ codes "  400000:\t012a4023\tsubu %t0, %t2, %t1\n"
unfolding format format_alu_reg line hex hex_padded
subu_line = refl

addiu_line :
    format Insn.addiu 0x27bdfff8 start_mips ≡ codes "  400000:\t27bdfff8\taddiu %sp, %sp, -8\n"
unfolding format format_alu_imm line hex hex_padded signed
addiu_line = refl

by_switch : Listed
by_switch = value_or (interpreter_switch_disassemble quiet 5 first) (first, [])

by_switch-returns : interpreter_switch_disassemble quiet 5 first ≡ ok by_switch
unfolding by_switch interpreter_switch_disassemble switch_step_disassemble memory_read_u32
    load_bytes memory_find_page from_bytes switch_dispatch exec alu_imm addiu_impl branch_eq_ne
    syscall run_syscall mips_syscall_exit increment_pc
by_switch-returns = value_or-ok (interpreter_switch_disassemble quiet 5 first) (first, []) refl

by_switch-lines :
    by_switch.1
    ≡ codes "  400000:\t24020fa1\taddiu %v0, %zr, 4001\n"
      ∷ codes "  400004:\t10000002\tbeq %zr, %zr, 2 (0x00400010)\n"
      ∷ codes "  400008:\t24040007\taddiu %a0, %zr, 7\n"
      ∷ codes "  400010:\t10000002\tbeq %zr, %zr, 2 (0x0040001c)\n"
      ∷ codes "  400014:\t0000000c\tsyscall imm20\n"
      ∷ []
unfolding exec_lines syscall_lines by_switch interpreter_switch_disassemble switch_step_disassemble
    memory_read_u32 load_bytes memory_find_page from_bytes switch_dispatch exec alu_imm addiu_impl
    branch_eq_ne syscall run_syscall mips_syscall_exit increment_pc format format_alu_imm
    format_branch_eq_ne format_syscall line hex hex_padded signed
by_switch-lines = refl

interpreter_switch_disassemble-Executes_example :
    Executes quiet switch_entries first (map read_line by_switch.1) by_switch.0
interpreter_switch_disassemble-Executes_example =
    interpreter_switch_disassemble-Executes quiet 5 first by_switch first-IsSound by_switch-returns

by_goto : Listed
by_goto = value_or (interpreter_computed_goto_disassemble quiet 5 first) (first, [])

by_goto-returns : interpreter_computed_goto_disassemble quiet 5 first ≡ ok by_goto
unfolding by_goto interpreter_computed_goto_disassemble memory_read_u32 load_bytes memory_find_page
    from_bytes label_of exec alu_imm addiu_impl branch_eq_ne syscall run_syscall mips_syscall_exit
    increment_pc
by_goto-returns = value_or-ok (interpreter_computed_goto_disassemble quiet 5 first) (first, []) refl

-- Each word beside the address of the next one, and the target of a branch with four added.
by_goto-lines :
    by_goto.1
    ≡ codes "  400004:\t24020fa1\taddiu %v0, %zr, 4001\n"
      ∷ codes "  400008:\t10000002\tbeq %zr, %zr, 2 (0x00400014)\n"
      ∷ codes "  400010:\t24040007\taddiu %a0, %zr, 7\n"
      ∷ codes "  400014:\t10000002\tbeq %zr, %zr, 2 (0x00400020)\n"
      ∷ codes "  40001c:\t0000000c\tsyscall imm20\n"
      ∷ []
unfolding exec_lines syscall_lines by_goto interpreter_computed_goto_disassemble memory_read_u32
    load_bytes memory_find_page from_bytes label_of exec alu_imm addiu_impl branch_eq_ne syscall
    run_syscall mips_syscall_exit increment_pc format format_alu_imm format_branch_eq_ne
    format_syscall line hex hex_padded signed
by_goto-lines = refl

interpreter_computed_goto_disassemble-Executes_example :
    Executes quiet computed_goto_entries first (map read_line by_goto.1) by_goto.0
interpreter_computed_goto_disassemble-Executes_example =
    interpreter_computed_goto_disassemble-Executes quiet 5 first by_goto first-IsSound
      by_goto-returns

interpreters_disassemble_lem_example :
    (run_of (interpreter_switch_disassemble quiet 5 first) ≡ interpreter_switch quiet 5 first)
    × (run_of (interpreter_computed_goto_disassemble quiet 5 first)
        ≡ interpreter_computed_goto quiet 5 first)
    × (run_of (interpreter_tail_call_disassemble quiet 5 first)
        ≡ interpreter_tail_call quiet 5 first)
interpreters_disassemble_lem_example = interpreters_disassemble_lem quiet 5 first

print_mips_registers-names_example :
    AllOf (λ e. value_of e.0 (read_registers first.mips) ≡ some (first.mips.r e.1)) known_registers
print_mips_registers-names_example = print_mips_registers-names first.mips first-IsSound.mips.regs

-- mprotect(0x400000, 4096, -1).
abbrev protecting : Machine
protecting = record first {
  mips = set_r 2 4125 (set_r 4 0x400000 (set_r 5 4096 (set_r 6 0xffff_ffff first.mips)));
}

protecting_lines :
    exec_lines Insn.syscall protecting
    ≡ codes "sys_mprotect: addr=0x00400000, len=4096, prot=-1 (Faking Success)\n" ∷ []
unfolding exec_lines syscall_lines mprotect_line hex_padded dec signed
protecting_lines = refl

by_tail : Listed
by_tail = value_or (interpreter_tail_call_disassemble quiet 5 first) (first, [])

by_tail-returns : interpreter_tail_call_disassemble quiet 5 first ≡ ok by_tail
unfolding by_tail interpreter_tail_call_disassemble interpret_disassemble handler_call
    memory_read_u32 load_bytes memory_find_page from_bytes label_of exec alu_imm addiu_impl
    branch_eq_ne syscall run_syscall mips_syscall_exit increment_pc
by_tail-returns = value_or-ok (interpreter_tail_call_disassemble quiet 5 first) (first, []) refl

interpreter_tail_call_disassemble-Executes_example :
    Executes quiet tail_call_entries first (map read_line by_tail.1) by_tail.0
interpreter_tail_call_disassemble-Executes_example =
    interpreter_tail_call_disassemble-Executes quiet 5 first by_tail first-IsSound by_tail-returns
