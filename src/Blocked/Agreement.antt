-- ===== src/Blocked/Agreement.antt =====
-- Whole runs of blocked.c against runs of switch.c, up to the block in which the machine halts.
use comparing_complexity_and.Base.{ℕ, ◌+◌, ◌≡◌, true, false, length, ok, ◌>>=◌, ap, ◌∙◌, arith}
use comparing_complexity_and.Machine.{mips_r_pc}
use comparing_complexity_and.Host.{Env, Machine}
use comparing_complexity_and.Host.Sound.{IsSound}
use comparing_complexity_and.Interp.Switch.{interpreter_switch}
use comparing_complexity_and.Blocked.{Block, run_block}
use comparing_complexity_and.Blocked.Chain.{HashTable, interpreter_blocked}
use comparing_complexity_and.Blocked.Decode.{IsDecoded}
use comparing_complexity_and.Blocked.Simulation.{
  IsRegular, Undisturbed, block_start, sequenced, run_block-interpreter_switch,
}
use comparing_complexity_and.Blocked.Cache.{Runs, here, next}
use comparing_complexity_and.Blocked.Sound.{Runs-IsSound}
use comparing_complexity_and.Blocked.Runs.{interpreter_blocked-Ends}

-- The programs that the two interpreters agree on, by the blocks of their runs but the last:
-- no branch stands in a delay slot, and each word of a block is still in the
-- memory, and the machine has not halted, when its turn comes.
abbrev pub IsSteady : Env → Machine → Type 0
IsSteady env start =
    (t s₀ u : Machine) (block : Block) (d : IsDecoded s₀ block)
    → Runs env start t
    → Runs env start s₀
    → t.mips.halted ≡ false
    → t.mips.r mips_r_pc ≡ block.address
    → run_block env block t ≡ ok u
    → u.mips.halted ≡ false
    → IsRegular d.ws × Undisturbed env (t.mips.r mips_r_pc) d.ws (block_start d.ws t)

-- Rounds of the switch interpreter that lead from one machine to another.
abbrev pub Rounds : Env → Machine → Machine → Type 0
Rounds env start t =
    (n : ℕ) × ((fuel : ℕ)
      → interpreter_switch env (n + fuel) (sequenced start)
        ≡ interpreter_switch env fuel (sequenced t))

-- The last block of a run, and the rounds that lead to it.
pub record LastBlock (env : Env) (start s' : Machine) : Type 0 where
  pub before : Machine
  pub block : Block
  pub decoded_at : Machine
  pub decoded : IsDecoded decoded_at block
  pub reached : Runs env start before
  pub decoded_then : Runs env start decoded_at
  pub running : before.mips.halted ≡ false
  pub here_now : before.mips.r mips_r_pc ≡ block.address
  pub rounds : Rounds env start before
  pub ran : run_block env block before ≡ ok s'

module _ (env : Env) (start : Machine) (sound : IsSound start) (steady : IsSteady env start) where
  Runs-Rounds : {t : Machine} → Runs env start t → t.mips.halted ≡ false → Rounds env start t
  Runs-Rounds here running =
      (0, λ fuel. ap (λ k. interpreter_switch env k (sequenced start)) (omega arith))
  Runs-Rounds
        (next {t = t} {s₀ = s₀} {u = u} {block = block} reached runs decoded_from d address ran)
        running =
      let (n, rounds) = Runs-Rounds reached runs in
      let small = (Runs-IsSound env start sound reached).mips.regs mips_r_pc in
      let (regular, undisturbed) =
        steady t s₀ u block d reached decoded_from runs address ran running in
      (
        n + length d.ws,
        λ fuel.
            ap (λ k. interpreter_switch env k (sequenced start)) (omega arith)
            ∙ rounds (length d.ws + fuel)
            ∙ run_block-interpreter_switch env fuel t s₀ block d small regular undisturbed
            ∙ ap (λ r. r >>= λ s'. interpreter_switch env fuel (sequenced s')) ran,
      )

  Runs-LastBlock :
      {s' : Machine}
      → Runs env start s'
      → start.mips.halted ≡ false
      → s'.mips.halted ≡ true
      → LastBlock env start s'
  Runs-LastBlock here running halted = cc
  Runs-LastBlock (next {t = t} {s₀ = s₀} {block = block} reached runs decoded_from d address ran)
        running halted =
      record {
        before = t;
        block = block;
        decoded_at = s₀;
        decoded = d;
        reached = reached;
        decoded_then = decoded_from;
        running = runs;
        here_now = address;
        rounds = Runs-Rounds reached runs;
        ran = ran;
      }

-- A run of blocked.c from a sound machine that has not halted, of a program that is steady, is a run of
-- switch.c from the same machine, with `%npc` and `%nnpc` behind `%pc`, up to the block in which the
-- machine halts: some number of rounds of the loop of switch.c come to the machine at that block's
-- start, and running the block from there gives the result.
pub interpreter_blocked-interpreter_switch :
    (hash : HashTable) (env : Env) (decode_fuel fuel : ℕ) (start s' : Machine)
    → IsSound start
    → IsSteady env start
    → start.mips.halted ≡ false
    → interpreter_blocked hash env decode_fuel fuel start ≡ ok s'
    → LastBlock env start s'
interpreter_blocked-interpreter_switch hash env decode_fuel fuel start s' sound steady running e =
    let (reached, halted) = interpreter_blocked-Ends hash env decode_fuel start fuel s' e in
    Runs-LastBlock env start sound steady reached running halted
