-- ===== src/Examples/Exits.antt =====
-- The programs of blocked.c and switch.c on the file that exits: one block, which goes on behind the
-- word that halts.
use comparing_complexity_and.Base.{
  ℕ, ◌≡◌, ◌⊎◌, inl, inr, refl, sym, ap, ◌∙◌, subst, arith, true, false, none, List, [], ◌∷◌, ok,
  ok-injective, find_case,
}
use comparing_complexity_and.Word.{from_bytes, to_bytes}
use comparing_complexity_and.Insn.{Insn}
use comparing_complexity_and.Machine.{mips_r_pc}
use comparing_complexity_and.Memory.{
  memory_create, memory_find_page, store_page, store_bytes, load_bytes, copy_write_loop,
  memory_copy_write, memory_set_loop, memory_set, allocate_entry, allocate_entries, allocate_table,
  allocate_round, allocate_tables, memory_allocate, memory_read_u32, memory_write_u32,
}
use comparing_complexity_and.Host.{Machine}
use comparing_complexity_and.Syscall.{filled_buffer, mips_syscall_exit}
use comparing_complexity_and.Syscall.Dispatch.{syscall, run_syscall}
use comparing_complexity_and.Instr.Alu.{alu_imm, addiu_impl, shift_imm, sll_impl}
use comparing_complexity_and.Instr.Control.{branch_if, branch_eq_ne}
use comparing_complexity_and.Instr.Exec.{exec}
use comparing_complexity_and.Interp.Tables.{label_of}
use comparing_complexity_and.Blocked.{
  Block, kind_of, decode_chain, decode_block, run_ops, unrolled, duff, run_block,
}
use comparing_complexity_and.Blocked.Duff.{Word, run_words, ops_of}
use comparing_complexity_and.Blocked.Decode.{slot, plain, branch, IsDecoded}
use comparing_complexity_and.Blocked.Simulation.{Undisturbed}
use comparing_complexity_and.Blocked.Unique.{IsDecoded_unique, run_block_unique}
use comparing_complexity_and.Blocked.Cache.{Runs, here, next}
use comparing_complexity_and.Blocked.Chain.{
  find_or_decode, link_previous, outer, chained, interpreter_blocked,
}
use comparing_complexity_and.Blocked.Agreement.{IsSteady}
use comparing_complexity_and.Blocked.Ending.{HaltsInside, EndsWell}
use comparing_complexity_and.Loader.{
  fill_segment, loader_load_ehdr, loader_load_phdr, loader_load_shdr, loader_load_segments,
  loader_load_pc, loader_load_gp, sections_gp, section_gp, loader_load_symbols, find_gp, is_gp,
  strcmp_equal, load_segments_from, load_segment, read_block, raise_brk,
}
use comparing_complexity_and.Loader.Stack.{
  push, push_auxv, push_arguments, loader_load_sp, loader_elf,
}
use comparing_complexity_and.Main.{
  Exit, usage, memory_delete, delete_tables, delete_entries, main_blocked, main_switch,
}
use comparing_complexity_and.Main.Blocked.{IsBlockProgram, SameEffects, main_blocked-main_switch}
use comparing_complexity_and.Examples.Blocks.{word_at}
use comparing_complexity_and.Examples.Cached.{chained_list}
use comparing_complexity_and.Examples.Sample.{quiet, value_or, value_or-ok}
use comparing_complexity_and.Examples.Programs.{
  exit_file, exit_load, exit_start, IsStart-exit_start, exit_file-HasAddresses,
}

abbrev exit_words : List Word
exit_words =
    (0x2402_0fa1, Insn.addiu)
    ∷ (0x2404_0007, Insn.addiu)
    ∷ (0x0000_000c, Insn.syscall)
    ∷ (0x1000_ffff, Insn.beq)
    ∷ (0, Insn.sll)
    ∷ []

exit_block : Block
exit_block = record {
  address = 0x400000;
  size = 6;
  ops = ops_of exit_words 0;
  indirect = false;
  next = λ _. none;
}

exit_is_decoded : IsDecoded exit_start exit_block
unfolding exit_block kind_of exit_start exit_load loader_elf loader_load_ehdr loader_load_phdr
    loader_load_shdr loader_load_segments loader_load_pc loader_load_gp sections_gp section_gp
    loader_load_symbols find_gp is_gp strcmp_equal load_segments_from load_segment fill_segment
    read_block raise_brk filled_buffer loader_load_sp push_arguments push_auxv push memory_create
    memory_allocate allocate_tables allocate_round allocate_table allocate_entries allocate_entry
    memory_set memory_set_loop memory_copy_write copy_write_loop store_bytes memory_find_page
    store_page memory_write_u32 to_bytes memory_read_u32 load_bytes from_bytes label_of
exit_is_decoded = record {
  ws = exit_words;
  last = 0;
  decodes = plain (word_at refl refl) refl (
      plain (word_at refl refl) refl (
        plain (word_at refl refl) refl
          (branch (word_at refl refl) (λ e. cc) (slot (word_at refl refl) refl))));
  two = omega arith;
  ops = refl;
  size = refl;
  indirect = refl;
  address = refl;
}

exit_end : Machine
exit_end = value_or (run_block quiet exit_block exit_start) exit_start

exit_runs :
    (run_block quiet exit_block exit_start ≡ ok exit_end)
    × (exit_end.mips.halted ≡ true)
    × (exit_end.memory ≡ exit_start.memory)
unfolding exit_end exit_block exit_start exit_load loader_elf loader_load_ehdr loader_load_phdr
    loader_load_shdr loader_load_segments loader_load_pc loader_load_gp sections_gp section_gp
    loader_load_symbols find_gp is_gp strcmp_equal load_segments_from load_segment fill_segment
    read_block raise_brk filled_buffer loader_load_sp push_arguments push_auxv push memory_create
    memory_allocate allocate_tables allocate_round allocate_table allocate_entries allocate_entry
    memory_set memory_set_loop memory_copy_write copy_write_loop store_bytes memory_find_page
    store_page memory_write_u32 to_bytes exec alu_imm addiu_impl branch_eq_ne branch_if shift_imm
    sll_impl syscall run_syscall mips_syscall_exit run_block duff unrolled run_ops run_words
exit_runs = (value_or-ok (run_block quiet exit_block exit_start) exit_start refl, refl, refl)

abbrev exit_front : List Word
exit_front =
    (0x2402_0fa1, Insn.addiu) ∷ (0x2404_0007, Insn.addiu) ∷ (0x0000_000c, Insn.syscall) ∷ []

exit-HaltsInside : HaltsInside quiet exit_words exit_start
unfolding kind_of exit_start exit_load loader_elf loader_load_ehdr loader_load_phdr loader_load_shdr
    loader_load_segments loader_load_pc loader_load_gp sections_gp section_gp loader_load_symbols
    find_gp is_gp strcmp_equal load_segments_from load_segment fill_segment read_block raise_brk
    filled_buffer loader_load_sp push_arguments push_auxv push memory_create memory_allocate
    allocate_tables allocate_round allocate_table allocate_entries allocate_entry memory_set
    memory_set_loop memory_copy_write copy_write_loop store_bytes memory_find_page store_page
    memory_write_u32 to_bytes memory_read_u32 load_bytes from_bytes label_of exec alu_imm addiu_impl
    branch_eq_ne branch_if shift_imm sll_impl syscall run_syscall mips_syscall_exit run_words
exit-HaltsInside = record {
  front = exit_front;
  back = (0x1000_ffff, Insn.beq) ∷ (0, Insn.sll) ∷ [];
  words = refl;
  plain = (refl, (refl, (refl, tt)));
  undisturbed = (
    word_at refl refl,
    refl,
    λ t e.
        subst
          (Undisturbed quiet 0x400004
            ((0x2404_0007, Insn.addiu) ∷ (0x0000_000c, Insn.syscall) ∷ []))
          (ok-injective e)
          (
            word_at refl refl,
            refl,
            λ u e'.
                subst (Undisturbed quiet 0x400008 ((0x0000_000c, Insn.syscall) ∷ []))
                  (ok-injective e') (word_at refl refl, refl, λ v e''. tt),
          ),
  );
  halts = λ t e. subst (λ (m : Machine). m.mips.halted ≡ true) (ok-injective e) refl;
  quiet = (tt, (tt, tt));
}

-- The two machines that a run comes to.
abbrev Stage : Machine → Type 0
Stage t = (t ≡ exit_start) ⊎ (t ≡ exit_end)

Stage-memory : (t : Machine) → Stage t → t.memory ≡ exit_start.memory
Stage-memory t (inl e) = ap (λ (m : Machine). m.memory) e
Stage-memory t (inr e) = ap (λ (m : Machine). m.memory) e ∙ exit_runs.2

end_halted : {t : Machine} {A : Type 0} → t ≡ exit_end → t.mips.halted ≡ false → A
end_halted e running =
    let h = sym running ∙ ap (λ (m : Machine). m.mips.halted) e ∙ exit_runs.1 in cc

run-Stage :
    {s₀ t u : Machine} {block : Block}
    → Stage s₀
    → IsDecoded s₀ block
    → t ≡ exit_start
    → t.mips.r mips_r_pc ≡ block.address
    → run_block quiet block t ≡ ok u
    → u ≡ exit_end
run-Stage {s₀} {t} {u} {block} stage d same address ran = ok-injective (
    sym ran
    ∙ run_block_unique quiet t s₀ exit_start block exit_block d exit_is_decoded
        (Stage-memory _ stage)
        (sym address ∙ ap (λ (m : Machine). m.mips.r mips_r_pc) same ∙ sym exit_is_decoded.address)
    ∙ ap (run_block quiet exit_block) same
    ∙ exit_runs.0)

Runs-Stage : {t : Machine} → Runs quiet exit_start t → Stage t
Runs-Stage here = inl refl
Runs-Stage (next reached running from d address ran) = elim (Runs-Stage reached) [
  | inl e ↦ inr (run-Stage (Runs-Stage from) d e address ran)
  | inr e ↦ end_halted e running
]

exit_start-IsSteady : IsSteady quiet exit_start
exit_start-IsSteady t s₀ u block d reached from running address ran goes_on =
    elim (Runs-Stage reached) [
      | inl e ↦ end_halted (run-Stage (Runs-Stage from) d e address ran) goes_on
      | inr e ↦ end_halted e running
    ]

exit_start-EndsWell : EndsWell quiet exit_start
unfolding exit_is_decoded
exit_start-EndsWell t s₀ u block d reached from running address ran halted =
    elim (Runs-Stage reached) [
      | inl e ↦
          let words : exit_words ≡ d.ws =
            IsDecoded_unique exit_is_decoded d (sym (Stage-memory _ (Runs-Stage from))) (
              exit_is_decoded.address
              ∙ sym (ap (λ (m : Machine). m.mips.r mips_r_pc) e)
              ∙ address) in
          inl (
            subst (λ m. HaltsInside quiet d.ws m) (sym e)
              (subst (λ ws. HaltsInside quiet ws exit_start) words exit-HaltsInside))
      | inr e ↦ end_halted e running
    ]

exit-IsBlockProgram : IsBlockProgram quiet exit_file
exit-IsBlockProgram = record {
  steady = λ start h. subst (IsSteady quiet) (IsStart-exit_start start h) exit_start-IsSteady;
  ending = λ start h. subst (EndsWell quiet) (IsStart-exit_start start h) exit_start-EndsWell;
}

exit : Exit
exit = value_or (main_blocked quiet exit_file 4 2 chained_list 8) usage

exits : main_blocked quiet exit_file 4 2 chained_list 8 ≡ ok exit
unfolding exit main_blocked interpreter_blocked outer chained find_or_decode link_previous find_case
    decode_block decode_chain kind_of memory_read_u32 load_bytes from_bytes label_of memory_delete
    delete_tables delete_entries loader_elf loader_load_ehdr loader_load_phdr loader_load_shdr
    loader_load_segments loader_load_pc loader_load_gp sections_gp section_gp loader_load_symbols
    find_gp is_gp strcmp_equal load_segments_from load_segment fill_segment read_block raise_brk
    filled_buffer loader_load_sp push_arguments push_auxv push memory_create memory_allocate
    allocate_tables allocate_round allocate_table allocate_entries allocate_entry memory_set
    memory_set_loop memory_copy_write copy_write_loop store_bytes memory_find_page store_page
    memory_write_u32 to_bytes exec alu_imm addiu_impl branch_eq_ne branch_if shift_imm sll_impl
    syscall run_syscall mips_syscall_exit run_block duff unrolled run_ops run_words
exits = value_or-ok (main_blocked quiet exit_file 4 2 chained_list 8) usage refl

main_blocked-main_switch_example :
    (rounds : ℕ) × (y : Exit) × (main_switch quiet exit_file rounds 2 ≡ ok y) × SameEffects y exit
main_blocked-main_switch_example =
    main_blocked-main_switch quiet exit_file chained_list 8 4 exit exit_file-HasAddresses
      exit-IsBlockProgram exits
