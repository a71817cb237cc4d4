-- ===== src/Examples/Runs.antt =====
-- The interpreters on the sample program, and their theorems there.
use comparing_complexity_and.Base.{
  ℕ, ◌≡◌, ◌↔◌, refl, arith, false, none, List, [], ◌∷◌, Result, ok, aborted, fault, timeout,
}
use comparing_complexity_and.Word.{from_bytes}
use comparing_complexity_and.Insn.{Insn}
use comparing_complexity_and.Machine.{increment_pc}
use comparing_complexity_and.Memory.{memory_read_u32, memory_find_page, load_bytes}
use comparing_complexity_and.Host.{Machine}
use comparing_complexity_and.Syscall.{mips_syscall_exit}
use comparing_complexity_and.Syscall.Dispatch.{syscall, run_syscall}
use comparing_complexity_and.Instr.Alu.{alu_imm, addiu_impl}
use comparing_complexity_and.Instr.Control.{branch_eq_ne}
use comparing_complexity_and.Instr.Exec.{exec}
use comparing_complexity_and.Interp.Tables.{label_of}
use comparing_complexity_and.Interp.Switch.{switch_dispatch, switch_step, interpreter_switch}
use comparing_complexity_and.Interp.ComputedGoto.{
  SameOrStray, interpreter_computed_goto, interpreter_computed_goto-interpreter_switch,
}
use comparing_complexity_and.Interp.TailCall.{
  handler_call, interpreter_tail_call, interpreter_tail_call-interpreter_switch,
}
use comparing_complexity_and.Blocked.{Block, kind_of, decode_chain, decode_block, duff}
use comparing_complexity_and.Blocked.Duff.{Word, run_words, ops_of, duff_lem}
use comparing_complexity_and.Blocked.Decode.{IsDecoded, decode_block-IsDecoded}
use comparing_complexity_and.Examples.Sample.{quiet, start}

abbrev status_of : Result Machine → ℕ
status_of (ok s) = s.mips.status
status_of aborted = 256
status_of fault = 257
status_of timeout = 258

-- The branch is taken with its delay slot, and the program exits with status 7.
exits_with_seven : status_of (interpreter_switch quiet 10 start) ≡ 7
unfolding interpreter_switch switch_step memory_read_u32 load_bytes memory_find_page from_bytes
    switch_dispatch exec alu_imm addiu_impl branch_eq_ne syscall run_syscall mips_syscall_exit
    increment_pc
exits_with_seven = refl

interpreter_computed_goto-interpreter_switch_example :
    SameOrStray (interpreter_switch quiet 10 start) (interpreter_computed_goto quiet 10 start)
interpreter_computed_goto-interpreter_switch_example =
    interpreter_computed_goto-interpreter_switch quiet 10 start

abbrev machine_or : Result Machine → Machine
machine_or (ok s) = s
machine_or aborted = start
machine_or fault = start
machine_or timeout = start

final : Machine
final = machine_or (interpreter_switch quiet 10 start)

interpreter_tail_call-interpreter_switch_example :
    (interpreter_tail_call quiet 10 start ≡ ok final) ↔ (
      (interpreter_switch quiet 10 start ≡ ok final)
      × ((w : ℕ × Insn) × (handler_call final ≡ ok w)))
interpreter_tail_call-interpreter_switch_example =
    interpreter_tail_call-interpreter_switch quiet 10 start final

abbrev block_or : Result Block → Block
block_or (ok b) = b
block_or aborted = record { address = 0; size = 0; ops = []; indirect = false; next = λ _. none }
block_or fault = record { address = 0; size = 0; ops = []; indirect = false; next = λ _. none }
block_or timeout = record { address = 0; size = 0; ops = []; indirect = false; next = λ _. none }

first_block : Block
first_block = block_or (decode_block 8 start)

first_decoded : decode_block 8 start ≡ ok first_block
unfolding first_block decode_block decode_chain memory_read_u32 load_bytes memory_find_page
    from_bytes label_of kind_of
first_decoded = refl

abbrev first_words : List Word
first_words = (0x2402_0fa1, Insn.addiu) ∷ (0x1000_0002, Insn.beq) ∷ (0x2404_0007, Insn.addiu) ∷ []

decode_block-IsDecoded_example : IsDecoded start first_block
decode_block-IsDecoded_example = decode_block-IsDecoded 8 start first_block first_decoded

first_is_decoded : IsDecoded start first_block
first_is_decoded = decode_block-IsDecoded 8 start first_block first_decoded

duff_lem_example :
    duff quiet
      (record {
        address = 0;
        size = 4;
        ops = ops_of first_words 0;
        indirect = false;
        next = λ _. none;
      })
      start
    ≡ run_words quiet first_words start
duff_lem_example = duff_lem quiet _ first_words 0 start (omega arith) refl refl
