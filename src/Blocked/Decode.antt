-- ===== src/Blocked/Decode.antt =====
-- What `decode_block` decodes, and how a decoded block is run.
use comparing_complexity_and.Base.{
  ℕ, zero, suc, ◌+◌, ◌-◌, ◌*◌, ◌^◌, ◌≡◌, ◌≢◌, ◌≤◌, ◌<◌, if◌then◌else◌, Bool, true, false, ◌||◌,
  List, [], ◌∷◌, length, Result, ok, ◌>>=◌, >>=-eq-ok, ok-injective, refl, sym, ap, ◌∙◌, arith,
}
use comparing_complexity_and.Word.{u32}
use comparing_complexity_and.Insn.{Insn}
use comparing_complexity_and.Machine.{set_r, mips_r_pc, mips_r_nnpc}
use comparing_complexity_and.Memory.{Memory, memory_read_u32}
use comparing_complexity_and.Host.{Env, Machine, set_mips}
use comparing_complexity_and.Interp.Tables.{label_of}
use comparing_complexity_and.Blocked.{
  Op, Block, Kind, basic, branching, indirect_branching, kind_of, real_op, null_op, decode_chain,
  decode_block, duff, run_block,
}
use comparing_complexity_and.Blocked.Duff.{Word, run_words, ops_of, length-ops_of, duff_lem}

-- The word at an address is that of an instruction.
pub record WordAt (memory : Memory) (pc : ℕ) (w : Word) : Type 0 where
  pub is_read : memory_read_u32 memory pc ≡ ok w.0
  pub is_known : label_of w.0 ≡ ok w.1

-- The words from an address on that make up a block: instructions that do not branch, then one
-- branch or several in a row, then one that does not branch, the last one's delay slot. The flag
-- says that a branch stands in front.
pub data Decodes (memory : Memory) : ℕ → Bool → List Word → Type 0 where
  slot :
      {pc : ℕ} {w : Word}
      → WordAt memory pc w
      → kind_of w.1 ≡ basic
      → Decodes memory pc true (w ∷ [])
  plain :
      {pc : ℕ} {w : Word} {ws : List Word}
      → WordAt memory pc w
      → kind_of w.1 ≡ basic
      → Decodes memory (u32 (pc + 4)) false ws
      → Decodes memory pc false (w ∷ ws)
  branch :
      {pc : ℕ} {b : Bool} {w : Word} {ws : List Word}
      → WordAt memory pc w
      → kind_of w.1 ≢ basic
      → Decodes memory (u32 (pc + 4)) true ws
      → Decodes memory pc b (w ∷ ws)

abbrev pub is_indirect : Kind → Bool
is_indirect basic = false
is_indirect branching = false
is_indirect indirect_branching = true

abbrev pub any_indirect : List Word → Bool
any_indirect [] = false
any_indirect (w ∷ ws) = is_indirect (kind_of w.1) || any_indirect ws

pub Decodes-length :
    {memory : Memory} {pc : ℕ} {b : Bool} {ws : List Word} → Decodes memory pc b ws → 0 < length ws
Decodes-length (slot w k) = omega arith
Decodes-length (plain w k d) = omega arith
Decodes-length (branch w k d) = omega arith

pub Decodes_two :
    {memory : Memory} {pc : ℕ} {b : Bool} {ws : List Word}
    → b ≡ false
    → Decodes memory pc b ws
    → 2 ≤ length ws
Decodes_two e (slot w k) = cc
Decodes_two e (plain w k d) = omega (arith, Decodes-length d)
Decodes_two e (branch w k d) = omega (arith, Decodes-length d)

or_assoc : (a b c : Bool) → ((a || b) || c) ≡ (a || (b || c))
or_assoc a b c = ground arith

or_false : (a : Bool) → a ≡ (a || false)
or_false a = ground arith

or_true : (a : Bool) → true ≡ (a || true)
or_true a = ground arith

-- The outcome of the dispatch chain: a block's words, as operations with the terminator.
pub record IsChain (memory : Memory) (pc : ℕ) (branched indirect : Bool) (out : List Op × Bool)
    : Type 0 where
  pub ws : List Word
  pub last : ℕ
  pub decodes : Decodes memory pc branched ws
  pub ops : out.0 ≡ ops_of ws last
  pub kind : out.1 ≡ (indirect || any_indirect ws)

-- A word pushed in front of a chain that is decoded.
module _ (memory : Memory) (pc cir : ℕ) (insn : Insn) (w : WordAt memory pc (cir, insn)) where
  IsChain-push_branch :
      (b indirect indirect' : Bool) (rest : Result (List Op × Bool)) {out : List Op × Bool}
      → kind_of insn ≢ basic
      → indirect' ≡ (indirect || is_indirect (kind_of insn))
      → ((o : List Op × Bool) → rest ≡ ok o → IsChain memory (u32 (pc + 4)) true indirect' o)
      → (rest >>= λ r. ok (real_op cir insn ∷ r.0, r.1)) ≡ ok out
      → IsChain memory pc b indirect out
  IsChain-push_branch b indirect indirect' rest {out} k i ih e =
      let (r, found, same) = >>=-eq-ok rest _ e in
      let c = ih r found in
      let at : (real_op cir insn ∷ r.0, r.1) ≡ out = ok-injective same in
      record {
        ws = (cir, insn) ∷ c.ws;
        last = c.last;
        decodes = branch w k c.decodes;
        ops = sym (ap (λ o. o.0) at) ∙ ap (λ l. real_op cir insn ∷ l) c.ops;
        kind =
            sym (ap (λ o. o.1) at)
            ∙ c.kind
            ∙ ap (λ x. x || any_indirect c.ws) i
            ∙ or_assoc indirect (is_indirect (kind_of insn)) (any_indirect c.ws);
      }

  IsChain-push_plain :
      (indirect : Bool) (rest : Result (List Op × Bool)) {out : List Op × Bool}
      → kind_of insn ≡ basic
      → ((o : List Op × Bool) → rest ≡ ok o → IsChain memory (u32 (pc + 4)) false indirect o)
      → (rest >>= λ r. ok (real_op cir insn ∷ r.0, r.1)) ≡ ok out
      → IsChain memory pc false indirect out
  IsChain-push_plain indirect rest {out} k ih e =
      let (r, found, same) = >>=-eq-ok rest _ e in
      let c = ih r found in
      let at : (real_op cir insn ∷ r.0, r.1) ≡ out = ok-injective same in
      record {
        ws = (cir, insn) ∷ c.ws;
        last = c.last;
        decodes = plain w k c.decodes;
        ops = sym (ap (λ o. o.0) at) ∙ ap (λ l. real_op cir insn ∷ l) c.ops;
        kind =
            sym (ap (λ o. o.1) at)
            ∙ c.kind
            ∙ sym (ap (λ x. indirect || (is_indirect x || any_indirect c.ws)) k);
      }

  IsChain-slot :
      (indirect : Bool) {out : List Op × Bool}
      → kind_of insn ≡ basic
      → ◌≡◌ {A = Result (List Op × Bool)}
          (ok (real_op cir insn ∷ null_op cir ∷ [], indirect))
          (ok out)
      → IsChain memory pc true indirect out
  IsChain-slot indirect {out} k e =
      let at : (real_op cir insn ∷ null_op cir ∷ [], indirect) ≡ out = ok-injective e in
      record {
        ws = (cir, insn) ∷ [];
        last = cir;
        decodes = slot w k;
        ops = sym (ap (λ o. o.0) at);
        kind = sym (ap (λ o. o.1) at) ∙ kind_alone indirect (kind_of insn) k;
      }
    where
      kind_alone : (i : Bool) (x : Kind) → x ≡ basic → i ≡ (i || (is_indirect x || false))
      kind_alone i x h = ground arith

-- The three ways on at a word, by the kind of its instruction.
IsChain-by_kind :
    (fuel : ℕ) (memory : Memory) (pc : ℕ) (branched indirect : Bool) (out : List Op × Bool)
    (cir : ℕ) (insn : Insn) (k : Kind)
    → ((pc' : ℕ) (b i : Bool) (o : List Op × Bool)
        → decode_chain fuel memory pc' b i ≡ ok o
        → IsChain memory pc' b i o)
    → kind_of insn ≡ k
    → WordAt memory pc (cir, insn)
    → elim k [
      | basic ↦
          if branched
          then ok (real_op cir insn ∷ null_op cir ∷ [], indirect)
          else (decode_chain fuel memory (u32 (pc + 4)) false indirect >>= λ r.
              ok (real_op cir insn ∷ r.0, r.1))
      | branching ↦ decode_chain fuel memory (u32 (pc + 4)) true indirect >>= λ r.
          ok (real_op cir insn ∷ r.0, r.1)
      | indirect_branching ↦ decode_chain fuel memory (u32 (pc + 4)) true true >>= λ r.
          ok (real_op cir insn ∷ r.0, r.1)
    ]
      ≡ ok out
    → IsChain memory pc branched indirect out
IsChain-by_kind fuel memory pc true indirect out cir insn basic ih k w e =
    IsChain-slot memory pc cir insn w indirect k e
IsChain-by_kind fuel memory pc false indirect out cir insn basic ih k w e =
    IsChain-push_plain memory pc cir insn w indirect _ k (ih _ false indirect) e
IsChain-by_kind fuel memory pc b indirect out cir insn branching ih k w e =
    IsChain-push_branch memory pc cir insn w b indirect indirect _ (λ h. cc)
      (rw k (or_false indirect)) (ih _ true indirect) e
IsChain-by_kind fuel memory pc b indirect out cir insn indirect_branching ih k w e =
    IsChain-push_branch memory pc cir insn w b indirect true _ (λ h. cc) (rw k (or_true indirect))
      (ih _ true true) e

decode_chain-IsChain :
    (fuel : ℕ) (memory : Memory) (pc : ℕ) (branched indirect : Bool) (out : List Op × Bool)
    → decode_chain fuel memory pc branched indirect ≡ ok out
    → IsChain memory pc branched indirect out
unfolding decode_chain
decode_chain-IsChain zero memory pc branched indirect out e = cc
decode_chain-IsChain (suc fuel) memory pc branched indirect out e =
    let (cir, is_read, rest) = >>=-eq-ok (memory_read_u32 memory pc) _ e in
    let (insn, is_known, more) = >>=-eq-ok (label_of cir) _ rest in
    IsChain-by_kind fuel memory pc branched indirect out cir insn (kind_of insn)
      (decode_chain-IsChain fuel memory) refl (record { is_read = is_read; is_known = is_known })
      more

-- What a decoded block is: at least a branch and its delay slot, read from the program counter on.
pub record IsDecoded (s : Machine) (block : Block) : Type 0 where
  pub ws : List Word
  pub last : ℕ
  pub decodes : Decodes s.memory (s.mips.r mips_r_pc) false ws
  pub two : 2 ≤ length ws
  pub ops : block.ops ≡ ops_of ws last
  pub size : block.size ≡ suc (length ws)
  pub indirect : block.indirect ≡ any_indirect ws
  pub address : block.address ≡ s.mips.r mips_r_pc

-- A block that `decode_block` returns holds, from the program counter on and in memory order, the
-- instructions that the label arrays find for the words: those before a branch, the branch or
-- branches in a row, and the one in the last delay slot, then the null terminator, and `size`
-- counts them all. It is indirect exactly when it has a `jr` or `jalr`.
pub decode_block-IsDecoded :
    (fuel : ℕ) (s : Machine) (block : Block) → decode_block fuel s ≡ ok block → IsDecoded s block
unfolding decode_block
decode_block-IsDecoded fuel s block e =
    let (out, found, made) =
      >>=-eq-ok (decode_chain fuel s.memory (s.mips.r mips_r_pc) false false) _ e in
    let c = decode_chain-IsChain fuel s.memory (s.mips.r mips_r_pc) false false out found in
    let at = ok-injective made in
    record {
      ws = c.ws;
      last = c.last;
      decodes = c.decodes;
      two = Decodes_two refl c.decodes;
      ops = sym (ap (λ (b : Block). b.ops) at) ∙ c.ops;
      size = sym (ap (λ (b : Block). b.size) at) ∙ ap length c.ops ∙ length-ops_of c.ws c.last;
      indirect = sym (ap (λ (b : Block). b.indirect) at) ∙ c.kind;
      address = sym (ap (λ (b : Block). b.address) at);
    }

-- Running a decoded block sets the program counter to the address of the instruction before the
-- delay slot, executes the block's instructions one after the other with it standing there, and
-- goes on at `%nnpc`.
pub run_block-IsDecoded :
    (env : Env) (s s₀ : Machine) (block : Block) (d : IsDecoded s₀ block)
    → run_block env block s ≡ (
        run_words env d.ws (
          set_mips
            (set_r mips_r_pc (u32 (s.mips.r mips_r_pc + u32 (4 * u32 (length d.ws - 2)))) s.mips)
            s)
        >>= λ s'. ok (set_mips (set_r mips_r_pc (s'.mips.r mips_r_nnpc) s'.mips) s'))
unfolding run_block
run_block-IsDecoded env s s₀ block d =
    let start =
      λ (k : ℕ). set_mips (set_r mips_r_pc (u32 (s.mips.r mips_r_pc + u32 (4 * k))) s.mips) s in
    let steps : u32 (block.size + 2 ^ 32 - 3) ≡ u32 (length d.ws - 2) =
      omega (arith, d.size, d.two) in
    ap (λ r. r >>= λ s'. ok (set_mips (set_r mips_r_pc (s'.mips.r mips_r_nnpc) s'.mips) s'))
      (ap (λ k. duff env block (start k)) steps
        ∙ duff_lem env block d.ws d.last (start (u32 (length d.ws - 2))) (omega (arith, d.two))
            d.ops d.size)
