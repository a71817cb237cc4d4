-- ===== src/Blocked/Unique.antt =====
-- A memory decides the words of the block at an address, and so what running the block does.
use comparing_complexity_and.Base.{
  ℕ, ◌+◌, ◌≡◌, ◌≢◌, Bool, false, List, [], ◌∷◌, ok, ◌>>=◌, ok-injective, refl, sym, ap, ap₂, ◌∙◌,
  subst,
}
use comparing_complexity_and.Word.{u32}
use comparing_complexity_and.Machine.{set_r, mips_r_pc, mips_r_nnpc}
use comparing_complexity_and.Memory.{Memory, memory_read_u32}
use comparing_complexity_and.Host.{Env, Machine, set_mips}
use comparing_complexity_and.Interp.Tables.{label_of}
use comparing_complexity_and.Blocked.{Block, basic, kind_of, run_block}
use comparing_complexity_and.Blocked.Duff.{Word, run_words}
use comparing_complexity_and.Blocked.Simulation.{block_start}
use comparing_complexity_and.Blocked.Decode.{
  WordAt, Decodes, slot, plain, branch, IsDecoded, run_block-IsDecoded,
}

WordAt-unique :
    {memory : Memory} {pc pc' : ℕ} {w v : Word}
    → WordAt memory pc w
    → WordAt memory pc' v
    → pc ≡ pc'
    → w ≡ v
WordAt-unique {memory} {pc} {pc'} {w} {v} a b at =
    let word : w.0 ≡ v.0 =
      ok-injective (sym a.is_read ∙ ap (memory_read_u32 memory) at ∙ b.is_read) in
    let insn : w.1 ≡ v.1 = ok-injective (sym a.is_known ∙ ap label_of word ∙ b.is_known) in
    ap₂ (λ x y. (x, y)) word insn

-- A word that branches is no word that does not.
kinds_differ : {w v : Word} {A : Type 0} → w ≡ v → kind_of w.1 ≡ basic → kind_of v.1 ≢ basic → A
kinds_differ same k k' = absurd (k' (sym (ap (λ x. kind_of x.1) same) ∙ k))

Decodes_unique :
    {memory : Memory} {pc pc' : ℕ} {b b' : Bool} {ws vs : List Word}
    → Decodes memory pc b ws
    → Decodes memory pc' b' vs
    → pc ≡ pc'
    → b ≡ b'
    → ws ≡ vs
Decodes_unique (slot w k) (slot v k') at e = ap (λ x. x ∷ []) (WordAt-unique w v at)
Decodes_unique (slot w k) (plain v k' d') at e = cc
Decodes_unique (slot w k) (branch v k' d') at e = kinds_differ (WordAt-unique w v at) k k'
Decodes_unique (plain w k d) (slot v k') at e = cc
Decodes_unique (plain w k d) (plain v k' d') at e =
    ap₂ (λ x xs. x ∷ xs) (WordAt-unique w v at)
      (Decodes_unique d d' (ap (λ a. u32 (a + 4)) at) refl)
Decodes_unique (plain w k d) (branch v k' d') at e = kinds_differ (WordAt-unique w v at) k k'
Decodes_unique (branch w k d) (slot v k') at e = kinds_differ (sym (WordAt-unique w v at)) k' k
Decodes_unique (branch w k d) (plain v k' d') at e = kinds_differ (sym (WordAt-unique w v at)) k' k
Decodes_unique (branch w k d) (branch v k' d') at e =
    ap₂ (λ x xs. x ∷ xs) (WordAt-unique w v at)
      (Decodes_unique d d' (ap (λ a. u32 (a + 4)) at) refl)

pub IsDecoded_unique :
    {s s' : Machine} {block block' : Block} (d : IsDecoded s block) (d' : IsDecoded s' block')
    → s.memory ≡ s'.memory
    → block.address ≡ block'.address
    → d.ws ≡ d'.ws
IsDecoded_unique {s} {s'} {block} {block'} d d' same at =
    Decodes_unique (subst (λ m. Decodes m (s.mips.r mips_r_pc) false d.ws) same d.decodes)
      d'.decodes (sym d.address ∙ at ∙ d'.address) refl

-- Blocks of one address, decoded from the same memory, run alike.
pub run_block_unique :
    (env : Env) (t s s' : Machine) (block block' : Block)
    → IsDecoded s block
    → IsDecoded s' block'
    → s.memory ≡ s'.memory
    → block.address ≡ block'.address
    → run_block env block t ≡ run_block env block' t
run_block_unique env t s s' block block' d d' same at =
    run_block-IsDecoded env t s block d
    ∙ ap
        (λ ws. run_words env ws (block_start ws t) >>= λ u.
          ok (set_mips (set_r mips_r_pc (u.mips.r mips_r_nnpc) u.mips) u))
        (IsDecoded_unique d d' same at)
    ∙ sym (run_block-IsDecoded env t s' block' d')
