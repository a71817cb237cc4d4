-- ===== src/Examples/Cached.antt =====
-- Whole runs of the blocked interpreter on the program of two blocks.
use comparing_complexity_and.Base.{
  ℕ, ◌≡◌, refl, arith, true, none, List, [], ◌∷◌, ok, some, find_case, ◌≢◌,
}
use comparing_complexity_and.Word.{from_bytes}
use comparing_complexity_and.Memory.{memory_read_u32, memory_find_page, load_bytes}
use comparing_complexity_and.Host.{Machine}
use comparing_complexity_and.Syscall.{mips_syscall_exit}
use comparing_complexity_and.Syscall.Dispatch.{syscall, run_syscall}
use comparing_complexity_and.Instr.Alu.{alu_imm, addiu_impl}
use comparing_complexity_and.Instr.Control.{branch_eq_ne}
use comparing_complexity_and.Instr.Exec.{exec}
use comparing_complexity_and.Interp.Tables.{label_of}
use comparing_complexity_and.Blocked.{
  kind_of, decode_chain, decode_block, run_ops, unrolled, duff, run_block,
}
use comparing_complexity_and.Blocked.Cache.{Runs}
use comparing_complexity_and.Blocked.Chain.{
  HashTable, find_or_decode, link_previous, outer, chained, interpreter_blocked,
}
use comparing_complexity_and.Blocked.Runs.{interpreter_blocked-Ends}
use comparing_complexity_and.Blocked.Agreement.{LastBlock, interpreter_blocked-interpreter_switch}
use comparing_complexity_and.Examples.Delayed.{first, first-IsSound}
use comparing_complexity_and.Examples.Sample.{quiet, value_or, value_or-ok}
use comparing_complexity_and.Examples.Blocks.{first-IsSteady}

pub find_case_empty : (k : ℕ) → find_case {A = ℕ} [] k ≡ none
unfolding find_case
find_case_empty k = refl

pub find_case_self : (k h : ℕ) (t : List (ℕ × ℕ)) → find_case ((k, h) ∷ t) k ≡ some h
unfolding find_case
find_case_self k h t = ground arith

pub find_case_ne : (j k h : ℕ) (t : List (ℕ × ℕ)) → j ≢ k → find_case ((k, h) ∷ t) j ≡ find_case t j
unfolding find_case
find_case_ne j k h t other = ground arith

-- The newest item of a key stands first.
abbrev pub chained_list : HashTable
chained_list = record {
  Table = List (ℕ × ℕ);
  empty = [];
  find = λ k t. find_case t k;
  add = λ k h t. (k, h) ∷ t;
  find-empty = λ k. find_case_empty k;
  find-add_self = λ k h t. find_case_self k h t;
  find-add_ne = λ j k h t other. find_case_ne j k h t other;
}

end : Machine
end = value_or (interpreter_blocked chained_list quiet 8 4 first) first

exits_in_second : interpreter_blocked chained_list quiet 8 4 first ≡ ok end
unfolding end interpreter_blocked outer chained find_or_decode link_previous find_case decode_block
    decode_chain memory_read_u32 load_bytes memory_find_page from_bytes label_of kind_of run_block
    duff unrolled run_ops exec alu_imm addiu_impl branch_eq_ne syscall run_syscall mips_syscall_exit
exits_in_second = value_or-ok (interpreter_blocked chained_list quiet 8 4 first) first refl

exits_with_seven : end.mips.status ≡ 7
unfolding end interpreter_blocked outer chained find_or_decode link_previous find_case decode_block
    decode_chain memory_read_u32 load_bytes memory_find_page from_bytes label_of kind_of run_block
    duff unrolled run_ops exec alu_imm addiu_impl branch_eq_ne syscall run_syscall mips_syscall_exit
exits_with_seven = refl

interpreter_blocked-Ends_example : Runs quiet first end × (end.mips.halted ≡ true)
interpreter_blocked-Ends_example =
    interpreter_blocked-Ends chained_list quiet 8 first 4 end exits_in_second

interpreter_blocked-interpreter_switch_example : LastBlock quiet first end
interpreter_blocked-interpreter_switch_example =
    interpreter_blocked-interpreter_switch chained_list quiet 8 4 first end first-IsSound
      first-IsSteady refl exits_in_second
