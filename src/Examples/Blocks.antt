-- ===== src/Examples/Blocks.antt =====
-- The blocked interpreter on a program of two blocks that exits in a delay slot.
use comparing_complexity_and.Base.{
  ℕ, ◌≡◌, ◌⊎◌, inl, inr, ◌+◌, refl, sym, ap, ◌∙◌, subst, arith, true, false, none, List, [], ◌∷◌,
  ok, ok-injective, ◌>>=◌,
}
use comparing_complexity_and.Word.{from_bytes}
use comparing_complexity_and.Insn.{Insn}
use comparing_complexity_and.Machine.{mips_r_pc}
use comparing_complexity_and.Memory.{Memory, memory_read_u32, memory_find_page, load_bytes}
use comparing_complexity_and.Host.{Machine}
use comparing_complexity_and.Syscall.{mips_syscall_exit}
use comparing_complexity_and.Syscall.Dispatch.{syscall, run_syscall}
use comparing_complexity_and.Instr.Alu.{alu_imm, addiu_impl}
use comparing_complexity_and.Instr.Control.{branch_eq_ne}
use comparing_complexity_and.Instr.Exec.{exec}
use comparing_complexity_and.Interp.Tables.{label_of}
use comparing_complexity_and.Interp.Switch.{interpreter_switch}
use comparing_complexity_and.Blocked.{
  Block, kind_of, decode_chain, decode_block, run_ops, unrolled, duff, run_block,
}
use comparing_complexity_and.Blocked.Duff.{Word}
use comparing_complexity_and.Blocked.Decode.{WordAt, slot, plain, branch, IsDecoded}
use comparing_complexity_and.Blocked.Simulation.{
  IsRegular, Undisturbed, block_start, sequenced, run_block-interpreter_switch,
}
use comparing_complexity_and.Blocked.Unique.{IsDecoded_unique, run_block_unique}
use comparing_complexity_and.Blocked.Next.{words_dest, run_block-next}
use comparing_complexity_and.Blocked.Cache.{Runs, here, next}
use comparing_complexity_and.Blocked.Agreement.{IsSteady}
use comparing_complexity_and.Examples.Delayed.{delayed_memory, first}
use comparing_complexity_and.Examples.Sample.{quiet, value_or, value_or-ok}

pub word_at :
    {memory : Memory} {pc : ℕ} {w : Word}
    → memory_read_u32 memory pc ≡ ok w.0
    → label_of w.0 ≡ ok w.1
    → WordAt memory pc w
word_at r k = record { is_read = r; is_known = k }

abbrev no_block : Block
no_block = record { address = 0; size = 0; ops = []; indirect = false; next = λ _. none }

first_block : Block
first_block = value_or (decode_block 8 first) no_block

first_decoded : decode_block 8 first ≡ ok first_block
unfolding first_block decode_block decode_chain memory_read_u32 load_bytes memory_find_page
    from_bytes label_of kind_of
first_decoded = value_or-ok (decode_block 8 first) no_block refl

abbrev first_words : List Word
first_words = (0x2402_0fa1, Insn.addiu) ∷ (0x1000_0002, Insn.beq) ∷ (0x2404_0007, Insn.addiu) ∷ []

first_is_decoded : IsDecoded first first_block
unfolding first_block decode_block decode_chain memory_read_u32 load_bytes memory_find_page
    from_bytes label_of kind_of
first_is_decoded = record {
  ws = first_words;
  last = 0x2404_0007;
  decodes =
      plain (word_at refl refl) refl
        (branch (word_at refl refl) (λ e. cc) (slot (word_at refl refl) refl));
  two = omega arith;
  ops = refl;
  size = refl;
  indirect = refl;
  address = refl;
}

second : Machine
second = value_or (run_block quiet first_block first) first

first_ran : run_block quiet first_block first ≡ ok second
unfolding first_block second decode_block decode_chain memory_read_u32 load_bytes memory_find_page
    from_bytes label_of kind_of run_block duff unrolled run_ops exec alu_imm addiu_impl branch_eq_ne
first_ran = value_or-ok (run_block quiet first_block first) first refl

second_block : Block
second_block = value_or (decode_block 8 second) no_block

second_decoded : decode_block 8 second ≡ ok second_block
unfolding second_block first_block second decode_block decode_chain memory_read_u32 load_bytes
    memory_find_page from_bytes label_of kind_of run_block duff unrolled run_ops exec alu_imm
    addiu_impl branch_eq_ne
second_decoded = value_or-ok (decode_block 8 second) no_block refl

third : Machine
third = value_or (run_block quiet second_block second) second

second_ran : run_block quiet second_block second ≡ ok third
unfolding third second_block first_block second decode_block decode_chain memory_read_u32 load_bytes
    memory_find_page from_bytes label_of kind_of run_block duff unrolled run_ops exec alu_imm
    addiu_impl branch_eq_ne syscall run_syscall mips_syscall_exit
second_ran = value_or-ok (run_block quiet second_block second) second refl

first-IsRegular : IsRegular first_words
unfolding kind_of
first-IsRegular = inl (refl, inr ((λ e. cc), refl, refl))

first-Undisturbed : Undisturbed quiet 0x400000 first_words (block_start first_words first)
unfolding memory_read_u32 load_bytes memory_find_page from_bytes label_of exec alu_imm addiu_impl
    branch_eq_ne
first-Undisturbed = (
  word_at refl refl,
  refl,
  λ t e.
      subst (Undisturbed quiet 0x400004 ((0x1000_0002, Insn.beq) ∷ (0x2404_0007, Insn.addiu) ∷ []))
        (ok-injective e)
        (
          word_at refl refl,
          refl,
          λ u e'.
              subst (Undisturbed quiet 0x400008 ((0x2404_0007, Insn.addiu) ∷ [])) (ok-injective e')
                (word_at refl refl, refl, λ v e''. tt),
        ),
)

run_block-interpreter_switch_example :
    interpreter_switch quiet (3 + 2) (sequenced first)
    ≡ (run_block quiet first_block first >>= λ s'. interpreter_switch quiet 2 (sequenced s'))
unfolding first_is_decoded
run_block-interpreter_switch_example =
    run_block-interpreter_switch quiet 2 first first first_block first_is_decoded (omega arith)
      first-IsRegular first-Undisturbed

second_is_decoded : IsDecoded second second_block
unfolding second_block first_block second decode_block decode_chain memory_read_u32 load_bytes
    memory_find_page from_bytes label_of kind_of run_block duff unrolled run_ops exec alu_imm
    addiu_impl branch_eq_ne
second_is_decoded = record {
  ws = (0x1000_0002, Insn.beq) ∷ (0x0000_000c, Insn.syscall) ∷ [];
  last = 0x0000_000c;
  decodes = branch (word_at refl refl) (λ e. cc) (slot (word_at refl refl) refl);
  two = omega arith;
  ops = refl;
  size = refl;
  indirect = refl;
  address = refl;
}

-- The machines that a run comes to between its blocks.
abbrev Stage : Machine → Type 0
Stage t = (t ≡ first) ⊎ (t ≡ second) ⊎ (t ≡ third)

second_memory : second.memory ≡ delayed_memory
unfolding second first_block decode_block decode_chain memory_read_u32 load_bytes memory_find_page
    from_bytes label_of kind_of run_block duff unrolled run_ops exec alu_imm addiu_impl branch_eq_ne
second_memory = refl

second_address : second.mips.r mips_r_pc ≡ 0x400010
unfolding second first_block decode_block decode_chain memory_read_u32 load_bytes memory_find_page
    from_bytes label_of kind_of run_block duff unrolled run_ops exec alu_imm addiu_impl branch_eq_ne
second_address = refl

third_memory : third.memory ≡ delayed_memory
unfolding third second_block second first_block decode_block decode_chain memory_read_u32 load_bytes
    memory_find_page from_bytes label_of kind_of run_block duff unrolled run_ops exec alu_imm
    addiu_impl branch_eq_ne syscall run_syscall mips_syscall_exit
third_memory = refl

third_halted : third.mips.halted ≡ true
unfolding third second_block second first_block decode_block decode_chain memory_read_u32 load_bytes
    memory_find_page from_bytes label_of kind_of run_block duff unrolled run_ops exec alu_imm
    addiu_impl branch_eq_ne syscall run_syscall mips_syscall_exit
third_halted = refl

Stage-memory : {t : Machine} → Stage t → t.memory ≡ delayed_memory
Stage-memory (inl e) = ap (λ (m : Machine). m.memory) e
Stage-memory (inr (inl e)) = ap (λ (m : Machine). m.memory) e ∙ second_memory
Stage-memory (inr (inr e)) = ap (λ (m : Machine). m.memory) e ∙ third_memory

third_ends : {t : Machine} {A : Type 0} → t ≡ third → t.mips.halted ≡ false → A
third_ends e running =
    let h = sym running ∙ ap (λ (m : Machine). m.mips.halted) e ∙ third_halted in cc

-- A block at a machine's address, decoded at a stage, runs as the block decoded there.
run-Stage :
    {s₀ t at u u' : Machine} {block block' : Block}
    → Stage s₀
    → IsDecoded s₀ block
    → IsDecoded at block'
    → at.memory ≡ delayed_memory
    → t ≡ at
    → t.mips.r mips_r_pc ≡ block.address
    → run_block quiet block t ≡ ok u
    → run_block quiet block' at ≡ ok u'
    → u ≡ u'
run-Stage {s₀} {t} {at} {u} {u'} {block} {block'} stage d d' memory same address ran ran' =
    ok-injective (
      sym ran
      ∙ run_block_unique quiet t s₀ at block block' d d' (Stage-memory stage ∙ sym memory)
          (sym address ∙ ap (λ (m : Machine). m.mips.r mips_r_pc) same ∙ sym d'.address)
      ∙ ap (run_block quiet block') same
      ∙ ran')

Runs-Stage : {t : Machine} → Runs quiet first t → Stage t
Runs-Stage here = inl refl
Runs-Stage (next reached running from d address ran) = elim (Runs-Stage reached) [
  | inl e ↦ inr (inl (run-Stage (Runs-Stage from) d first_is_decoded refl e address ran first_ran))
  | inr (inl e) ↦
      inr (
        inr
          (run-Stage (Runs-Stage from) d second_is_decoded second_memory e address ran second_ran))
  | inr (inr e) ↦ third_ends e running
]

abbrev Steady : Machine → List Word → Type 0
Steady m ws = IsRegular ws × Undisturbed quiet (m.mips.r mips_r_pc) ws (block_start ws m)

pub first-IsSteady : IsSteady quiet first
unfolding first_is_decoded
first-IsSteady t s₀ u block d reached from running address ran goes_on = elim (Runs-Stage reached) [
  | inl e ↦
      let here_now : t.mips.r mips_r_pc ≡ 0x400000 = ap (λ (m : Machine). m.mips.r mips_r_pc) e in
      let words : first_words ≡ d.ws =
        IsDecoded_unique first_is_decoded d (sym (Stage-memory (Runs-Stage from)))
          (first_is_decoded.address ∙ sym here_now ∙ address) in
      subst (λ m. Steady m d.ws) (sym e)
        (subst (Steady first) words (first-IsRegular, first-Undisturbed))
  | inr (inl e) ↦
      third_ends
        (run-Stage (Runs-Stage from) d second_is_decoded second_memory e address ran second_ran)
        goes_on
  | inr (inr e) ↦ third_ends e running
]

run_block-next_example :
    second.mips.r mips_r_pc ≡ words_dest first_is_decoded.ws 0x400004 second.mips.branched
unfolding first_is_decoded
run_block-next_example =
    run_block-next quiet first first second first_block first_is_decoded refl first_ran
