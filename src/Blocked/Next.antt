-- ===== src/Blocked/Next.antt =====
-- Where the program goes on behind a block that blocked.c may link: it goes by the flag `branched`.
use comparing_complexity_and.Base.{
  ℕ, ◌+◌, ◌-◌, ◌*◌, ◌≤◌, ◌≡◌, ◌≢◌, Bool, true, false, ◌||◌, List, [], ◌∷◌, length, ok, ◌>>=◌,
  >>=-eq-ok, >>=_assoc, >>=_ok, ok-injective, refl, sym, ap, ◌∙◌, arith, subst,
}
use comparing_complexity_and.Word.{u32}
use comparing_complexity_and.Machine.{set_r, mips_r_pc, mips_r_npc, mips_r_nnpc}
use comparing_complexity_and.Memory.{Memory}
use comparing_complexity_and.Host.{Env, Machine, set_mips}
use comparing_complexity_and.Instr.Exec.{exec}
use comparing_complexity_and.Instr.Plain.{at}
use comparing_complexity_and.Blocked.{
  Block, Kind, basic, branching, indirect_branching, kind_of, run_block,
}
use comparing_complexity_and.Blocked.Duff.{Word, run_words}
use comparing_complexity_and.Blocked.Decode.{
  Decodes, slot, plain, branch, Decodes_two, Decodes-length, is_indirect, any_indirect, IsDecoded,
  run_block-IsDecoded,
}
use comparing_complexity_and.Blocked.Plain.{exec-IsPlain}
use comparing_complexity_and.Blocked.Jumps.{exec-Jumps, dest}
use comparing_complexity_and.Blocked.Simulation.{block_start, block_start-at}

-- The target of the last branch of a block, the word before the last one, that stands at `p`.
pub words_dest : List Word → ℕ → Bool → ℕ
words_dest [] p taken = 0
words_dest (w ∷ []) p taken = 0
words_dest (w ∷ v ∷ []) p taken = dest w.1 w.0 p taken
words_dest (w ∷ v ∷ x ∷ ws) p taken = words_dest (v ∷ x ∷ ws) p taken

words_dest-tail :
    (w : Word) (ws : List Word) (p : ℕ) (taken : Bool)
    → 2 ≤ length ws
    → words_dest (w ∷ ws) p taken ≡ words_dest ws p taken
unfolding words_dest
words_dest-tail w [] p taken h = absurd (omega arith)
words_dest-tail w (v ∷ []) p taken h = absurd (omega arith)
words_dest-tail w (v ∷ x ∷ ws) p taken h = refl

-- A machine that stands at `p` with a target by its flag.
pub record Arrives (ws : List Word) (p : ℕ) (s : Machine) : Type 0 where
  pub n : ℕ
  pub taken : Bool
  pub rest : Machine
  pub is_at : s ≡ at p n (words_dest ws p taken) taken rest

Arrives-push :
    {p : ℕ} {s : Machine} (w : Word) (ws : List Word)
    → 2 ≤ length ws
    → Arrives ws p s
    → Arrives (w ∷ ws) p s
Arrives-push {p} w ws h a = record {
  n = a.n;
  taken = a.taken;
  rest = a.rest;
  is_at = a.is_at ∙ ap (λ k. at p a.n k a.taken a.rest) (sym (words_dest-tail w ws p a.taken h));
}

not_indirect : (k : Kind) → k ≢ basic → is_indirect k ≡ false → k ≡ branching
not_indirect basic h e = absurd (h refl)
not_indirect branching h e = refl
not_indirect indirect_branching h e = cc

or_left : (a b : Bool) → (a || b) ≡ false → a ≡ false
or_left a b h = ground arith

or_right : (a b : Bool) → (a || b) ≡ false → b ≡ false
or_right a b h = ground arith

module _ (env : Env) (memory : Memory) (p : ℕ) where
  run_words-Arrives :
      {pc : ℕ} {b : Bool} {ws : List Word} (d : Decodes memory pc b ws) (n q : ℕ) (br : Bool)
      (s s' : Machine)
      → 2 ≤ length ws
      → any_indirect ws ≡ false
      → run_words env ws (at p n q br s) ≡ ok s'
      → Arrives ws p s'
  unfolding run_words words_dest
  run_words-Arrives (slot w k) n q br s s' two direct e = absurd (omega arith)
  run_words-Arrives (plain {w = w} {ws = ws} at_w k d) n q br s s' two direct e =
      let plain = exec-IsPlain env w.1 w.0 s k p n q br in
      let (t, _, more) = >>=-eq-ok (exec env w.1 w.0 s) _ (
        sym (>>=_assoc (exec env w.1 w.0 s) _ _)
        ∙ sym (ap (λ r. r >>= run_words env ws) plain)
        ∙ e) in
      Arrives-push w ws (Decodes_two refl d) (
        run_words-Arrives d n q br t s' (Decodes_two refl d)
          (or_right (is_indirect (kind_of w.1)) (any_indirect ws) direct) more)
  run_words-Arrives (branch {w = w} at_w k (slot {w = v} at_v kv)) n q br s s' two direct e =
      let j = exec-Jumps env w.1 w.0 p s k in
      let plain = exec-IsPlain env v.1 v.0 j.after kv p n j.target j.taken in
      let leads =
        j.direct (not_indirect (kind_of w.1) k (or_left (is_indirect (kind_of w.1)) _ direct)) in
      let (t, _, more) = >>=-eq-ok (exec env v.1 v.0 j.after) _ (
        sym plain
        ∙ sym (>>=_ok _)
        ∙ sym (ap (λ r. r >>= run_words env (v ∷ [])) (j.jump n q br))
        ∙ e) in
      record {
        n = n;
        taken = j.taken;
        rest = t;
        is_at = sym (ok-injective more) ∙ ap (λ k. at p n k j.taken t) leads;
      }
  run_words-Arrives (branch {w = w} at_w k (branch {w = v} {ws = ws} at_v kv d)) n q br s s' two
        direct e =
      let j = exec-Jumps env w.1 w.0 p s k in
      let longer : 2 ≤ length (v ∷ ws) = omega (arith, Decodes-length d) in
      Arrives-push w (v ∷ ws) longer (
        run_words-Arrives {b = true} (branch at_v kv d) n j.target j.taken j.after s' longer
          (or_right (is_indirect (kind_of w.1)) (any_indirect (v ∷ ws)) direct)
          (sym (ap (λ r. r >>= run_words env (v ∷ ws)) (j.jump n q br)) ∙ e))

-- A block with no `jr` or `jalr` in it, decoded at any time, leaves the machine at one of two
-- addresses that its words fix, by the flag `branched`: this is what the two links of a block
-- stand for.
pub run_block-next :
    (env : Env) (s s₀ s' : Machine) (block : Block) (d : IsDecoded s₀ block)
    → block.indirect ≡ false
    → run_block env block s ≡ ok s'
    → s'.mips.r mips_r_pc
      ≡ words_dest d.ws (u32 (s.mips.r mips_r_pc + 4 * (length d.ws - 2))) s'.mips.branched
run_block-next env s s₀ s' block d direct e =
    let pc = s.mips.r mips_r_pc in
    let b = u32 (pc + u32 (4 * u32 (length d.ws - 2))) in
    let at_branch : b ≡ u32 (pc + 4 * (length d.ws - 2)) = omega arith in
    let (t, ran, same) =
      >>=-eq-ok (run_words env d.ws (block_start d.ws s)) _
        (sym (run_block-IsDecoded env s s₀ block d) ∙ e) in
    let a =
      run_words-Arrives env s₀.memory b d.decodes (s.mips.r mips_r_npc) (s.mips.r mips_r_nnpc)
        s.mips.branched s t d.two (sym d.indirect ∙ direct)
        (sym (ap (run_words env d.ws) (block_start-at d.ws s)) ∙ ran) in
    let end : Machine → Machine = λ t. set_mips (set_r mips_r_pc (t.mips.r mips_r_nnpc) t.mips) t in
    let arrived : end (at b a.n (words_dest d.ws b a.taken) a.taken a.rest) ≡ s' =
      ap end (sym a.is_at) ∙ ok-injective same in
    subst (λ p. s'.mips.r mips_r_pc ≡ words_dest d.ws p s'.mips.branched) at_branch
      (subst (λ u. u.mips.r mips_r_pc ≡ words_dest d.ws b u.mips.branched) arrived refl)
