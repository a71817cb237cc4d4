-- ===== src/Blocked/Simulation.antt =====
-- A run of a block in blocked.c against the rounds of the loop in switch.c for its instructions.
use comparing_complexity_and.Base.{
  ℕ, suc, ◌+◌, ◌-◌, ◌*◌, ◌^◌, ◌≤◌, ◌<◌, ◌≡◌, ◌≢◌, ◌⊎◌, inl, inr, Bool, false, List, [], ◌∷◌, length,
  Result, ok, aborted, fault, timeout, ◌>>=◌, >>=_assoc, >>=_ok, refl, sym, ap, ◌∙◌, arith, fun_ext,
  subst, update,
}
use comparing_complexity_and.Word.{u32}
use comparing_complexity_and.Machine.{Mips, set_r, increment_pc, mips_r_pc, mips_r_npc, mips_r_nnpc}
use comparing_complexity_and.Host.{Env, Machine, set_mips}
use comparing_complexity_and.Instr.Exec.{exec}
use comparing_complexity_and.Instr.Plain.{at, mips_at, counters}
use comparing_complexity_and.Interp.Switch.{switch_step, interpreter_switch}
use comparing_complexity_and.Interp.TailCall.{label_of-eq-ok}
use comparing_complexity_and.Blocked.{Block, basic, kind_of, run_block}
use comparing_complexity_and.Blocked.Duff.{Word, run_words}
use comparing_complexity_and.Blocked.Decode.{WordAt, IsDecoded, run_block-IsDecoded}
use comparing_complexity_and.Blocked.Plain.{exec-IsPlain}
use comparing_complexity_and.Blocked.Jumps.{Jumps, exec-Jumps}

-- The words of a block without a branch in a delay slot: ordinary ones, a branch, an ordinary one.
abbrev pub IsRegular : List Word → Type 0
IsRegular [] = ⊥
IsRegular (w ∷ []) = ⊥
IsRegular (w ∷ v ∷ ws) =
    ((kind_of w.1 ≡ basic) × IsRegular (v ∷ ws))
    ⊎ ((kind_of w.1 ≢ basic) × (kind_of v.1 ≡ basic) × (ws ≡ []))

IsRegular-length : (ws : List Word) → IsRegular ws → 2 ≤ length ws
IsRegular-length [] h = absurd h
IsRegular-length (w ∷ []) h = absurd h
IsRegular-length (w ∷ v ∷ ws) h = omega arith

-- While the words are run one after the other, each one is still in the memory when its turn comes,
-- and the machine has not halted before it.
abbrev pub Undisturbed : Env → ℕ → List Word → Machine → Type 0
Undisturbed env pc [] s = Unit
Undisturbed env pc (w ∷ ws) s =
    WordAt s.memory pc w
    × (s.mips.halted ≡ false)
    × ((s' : Machine) → exec env w.1 w.0 s ≡ ok s' → Undisturbed env (u32 (pc + 4)) ws s')

-- The machine when the first instruction of a block is run: `%pc` is that of the branch.
abbrev pub block_start : List Word → Machine → Machine
block_start ws s =
    set_mips (set_r mips_r_pc (u32 (s.mips.r mips_r_pc + u32 (4 * u32 (length ws - 2)))) s.mips) s

-- The machine as the other interpreters have it at the start of a block: blocked.c keeps `%npc` and
-- `%nnpc` only from a branch to the end of its block.
abbrev pub sequenced_at : ℕ → Bool → Machine → Machine
sequenced_at p br s = at p (u32 (p + 4)) (u32 (p + 8)) br s

abbrev pub sequenced : Machine → Machine
sequenced s = sequenced_at (s.mips.r mips_r_pc) s.mips.branched s

increment_pc-mips_at :
    (p n q : ℕ) (br : Bool) (m : Mips)
    → increment_pc (mips_at p n q br m) ≡ mips_at n q (u32 (q + 4)) br m
unfolding increment_pc
increment_pc-mips_at p n q br m =
    ap (λ f. record m { r = f; branched = br }) (fun_ext λ i. ground arith)

module _ (env : Env) where
  -- One round of the switch interpreter at a word that is there.
  switch_step-WordAt :
      (s : Machine) (w : Word)
      → WordAt s.memory (s.mips.r mips_r_pc) w
      → switch_step env s ≡ (exec env w.1 w.0 s >>= λ s'. ok (set_mips (increment_pc s'.mips) s'))
  unfolding switch_step
  switch_step-WordAt s w here = rw (here.is_read, label_of-eq-ok w.0 here.is_known)

  pub switch_step-plain :
      (s : Machine) (w : Word) (p n q : ℕ) (br : Bool)
      → kind_of w.1 ≡ basic
      → WordAt s.memory p w
      → switch_step env (at p n q br s)
        ≡ (exec env w.1 w.0 s >>= λ s'. ok (at n q (u32 (q + 4)) br s'))
  switch_step-plain s w p n q br k here =
      switch_step-WordAt (at p n q br s) w here
      ∙ ap (λ r. r >>= λ s'. ok (set_mips (increment_pc s'.mips) s'))
          (exec-IsPlain env w.1 w.0 s k p n q br)
      ∙ >>=_assoc (exec env w.1 w.0 s) _ _
      ∙ ap (λ f. exec env w.1 w.0 s >>= f)
          (fun_ext λ s'. ap (λ m. ok (set_mips m s')) (increment_pc-mips_at p n q br s'.mips))

  switch_step-branch :
      (s : Machine) (w : Word) (p n q : ℕ) (br : Bool) (j : Jumps env w.1 w.0 p s)
      → WordAt s.memory p w
      → switch_step env (at p n q br s) ≡ ok (at n j.target (u32 (j.target + 4)) j.taken j.after)
  switch_step-branch s w p n q br j here =
      switch_step-WordAt (at p n q br s) w here
      ∙ ap (λ r. r >>= λ s'. ok (set_mips (increment_pc s'.mips) s')) (j.jump n q br)
      ∙ ap (λ m. ok (set_mips m j.after)) (increment_pc-mips_at p n j.target j.taken j.after.mips)

  pub interpreter_switch-suc :
      (n k : ℕ) (s : Machine)
      → n ≡ suc k
      → s.mips.halted ≡ false
      → interpreter_switch env n s ≡ (switch_step env s >>= λ s'. interpreter_switch env k s')
  unfolding interpreter_switch
  interpreter_switch-suc n k s e running = rw (e, interpreter_switch, running)

  -- What the switch interpreter does behind a block.
  resume : ℕ → Machine → Result Machine
  resume fuel s =
      interpreter_switch env fuel
        (sequenced (set_mips (set_r mips_r_pc (s.mips.r mips_r_nnpc) s.mips) s))

  resume-at :
      (fuel p n q : ℕ) (br : Bool) (s : Machine)
      → resume fuel (at p n q br s) ≡ interpreter_switch env fuel (sequenced_at q br s)
  unfolding resume
  resume-at fuel p n q br s =
      ap (λ f. interpreter_switch env fuel (set_mips (record s.mips { r = f; branched = br }) s))
        (fun_ext λ i. ground arith)

  -- The same call behind a result, seen by both.
  both :
      (r : Result Machine) (f g : Machine → Machine) (h k : Machine → Result Machine)
      → ((s : Machine) → r ≡ ok s → h (f s) ≡ k (g s))
      → ((r >>= λ s. ok (f s)) >>= h) ≡ ((r >>= λ s. ok (g s)) >>= k)
  both (ok s) f g h k e = e s refl
  both aborted f g h k e = refl
  both fault f g h k e = refl
  both timeout f g h k e = refl

  -- The branch and its delay slot.
  branch_and_slot :
      (w v : Word) (fuel p n q c : ℕ) (br : Bool) (s : Machine)
      → kind_of w.1 ≢ basic
      → kind_of v.1 ≡ basic
      → c ≡ suc (suc fuel)
      → p < 2 ^ 32
      → Undisturbed env p (w ∷ v ∷ []) (at p n q br s)
      → interpreter_switch env c (sequenced_at p br s)
        ≡ (run_words env (w ∷ v ∷ []) (at p n q br s) >>= resume fuel)
  unfolding run_words
  branch_and_slot (cir, insn) (cir', insn') fuel p n q c br s kw kv e small
        (here, running, then_slot) =
      let j = exec-Jumps env insn cir p s kw in
      let next = u32 (p + 4) in
      let (here', running', _) = then_slot (at p n j.target j.taken j.after) (j.jump n q br) in
      let first =
        interpreter_switch-suc c (suc fuel) (sequenced_at p br s) e running
        ∙ ap (λ r. r >>= interpreter_switch env (suc fuel))
            (switch_step-branch s (cir, insn) p next (u32 (p + 8)) br j here) in
      let second =
        interpreter_switch-suc (suc fuel) fuel
          (at next j.target (u32 (j.target + 4)) j.taken j.after) refl running'
        ∙ ap (λ r. r >>= interpreter_switch env fuel)
            (switch_step-plain j.after (cir', insn') next j.target (u32 (j.target + 4)) j.taken kv
              here') in
      let goes_on : u32 (u32 (j.target + 4) + 4) ≡ u32 (j.target + 8) = omega arith in
      let slot = exec env insn' cir' j.after in
      first
      ∙ second
      ∙ both slot (at j.target (u32 (j.target + 4)) (u32 (u32 (j.target + 4) + 4)) j.taken)
          (at p n j.target j.taken) (interpreter_switch env fuel) (resume fuel)
          (λ s' _. rw goes_on (sym (resume-at fuel p n j.target j.taken s')))
      ∙ ap (λ r. r >>= resume fuel)
          (sym (
            ap (λ r. r >>= run_words env ((cir', insn') ∷ [])) (j.jump n q br)
            ∙ >>=_ok (exec env insn' cir' (at p n j.target j.taken j.after))
            ∙ exec-IsPlain env insn' cir' j.after kv p n j.target j.taken))

  words_simulated :
      (ws : List Word) (fuel p n q c at_branch : ℕ) (br : Bool) (s : Machine)
      → IsRegular ws
      → p < 2 ^ 32
      → at_branch ≡ u32 (p + 4 * (length ws - 2))
      → c ≡ length ws + fuel
      → Undisturbed env p ws (at at_branch n q br s)
      → interpreter_switch env c (sequenced_at p br s)
        ≡ (run_words env ws (at at_branch n q br s) >>= resume fuel)
  unfolding run_words
  words_simulated [] fuel p n q c b br s regular small eb ec u = absurd regular
  words_simulated (w ∷ []) fuel p n q c b br s regular small eb ec u = absurd regular
  words_simulated (w ∷ v ∷ []) fuel p n q c b br s (inr (kw, kv, _)) small eb ec u =
      let here : b ≡ p = omega arith in
      subst
        (λ k.
          Undisturbed env p (w ∷ v ∷ []) (at k n q br s)
          → interpreter_switch env c (sequenced_at p br s)
            ≡ (run_words env (w ∷ v ∷ []) (at k n q br s) >>= resume fuel))
        (sym here) (branch_and_slot w v fuel p n q c br s kw kv (omega arith) small) u
  words_simulated (w ∷ v ∷ x ∷ ws) fuel p n q c b br s (inr (kw, kv, e)) small eb ec u = cc
  words_simulated ((cir, insn) ∷ v ∷ ws) fuel p n q c b br s (inl (kw, regular)) small eb ec
        (here, running, rest) =
      let k = length (v ∷ ws) + fuel in
      let next = u32 (p + 4) in
      let run = exec env insn cir s in
      let plain = exec-IsPlain env insn cir s kw b n q br in
      let eq₁ : u32 (p + 8) ≡ u32 (next + 4) = omega arith in
      let eq₂ : u32 (u32 (p + 8) + 4) ≡ u32 (next + 8) = omega arith in
      interpreter_switch-suc c k (sequenced_at p br s) (omega arith) running
      ∙ ap (λ r. r >>= interpreter_switch env k)
          (switch_step-plain s (cir, insn) p next (u32 (p + 8)) br kw here)
      ∙ both run (at next (u32 (p + 8)) (u32 (u32 (p + 8) + 4)) br) (at b n q br)
          (interpreter_switch env k) (λ s'. run_words env (v ∷ ws) s' >>= resume fuel)
          (λ s' e.
            rw (eq₂, eq₁)
              (words_simulated (v ∷ ws) fuel next n q k b br s' regular (omega arith)
                (omega (arith, IsRegular-length (v ∷ ws) regular)) refl
                (rest (at b n q br s') (plain ∙ ap (λ r. r >>= λ t. ok (at b n q br t)) e))))
      ∙ sym (>>=_assoc (run >>= λ t. ok (at b n q br t)) (run_words env (v ∷ ws)) (resume fuel))
      ∙ ap (λ r. (r >>= run_words env (v ∷ ws)) >>= resume fuel) (sym plain)

update_pc : (v : ℕ) (r : ℕ → ℕ) → update r mips_r_pc v ≡ counters v (r mips_r_npc) (r mips_r_nnpc) r
update_pc v r = fun_ext λ i. ground (arith, same_index i mips_r_npc, same_index i mips_r_nnpc)
  where
    same_index : (i k : ℕ) → i ≡ k → r i ≡ r k
    same_index i k e = ap r e

pub block_start-at :
    (ws : List Word) (s : Machine)
    → block_start ws s
      ≡ at
          (u32 (s.mips.r mips_r_pc + u32 (4 * u32 (length ws - 2))))
          (s.mips.r mips_r_npc)
          (s.mips.r mips_r_nnpc)
          s.mips.branched
          s
block_start-at ws s = ap (λ f. set_mips (record s.mips { r = f }) s) (update_pc _ s.mips.r)

-- Running a decoded block with no branch in a delay slot is running its instructions by the switch
-- interpreter, from the machine with `%npc` and `%nnpc` set to the two addresses behind `%pc`: as
-- long as each word is still in the memory and the machine has not halted when its turn comes,
-- `length` rounds of its loop and the rounds behind them come to the same as those rounds after
-- the block, a fault or an abort in the block included.
pub run_block-interpreter_switch :
    (env : Env) (fuel : ℕ) (s s₀ : Machine) (block : Block) (d : IsDecoded s₀ block)
    → s.mips.r mips_r_pc < 2 ^ 32
    → IsRegular d.ws
    → Undisturbed env (s.mips.r mips_r_pc) d.ws (block_start d.ws s)
    → interpreter_switch env (length d.ws + fuel) (sequenced s)
      ≡ (run_block env block s >>= λ s'. interpreter_switch env fuel (sequenced s'))
unfolding resume
run_block-interpreter_switch env fuel s s₀ block d small regular u =
    let pc = s.mips.r mips_r_pc in
    let n = s.mips.r mips_r_npc in
    let q = s.mips.r mips_r_nnpc in
    let b = u32 (pc + u32 (4 * u32 (length d.ws - 2))) in
    let eb : b ≡ u32 (pc + 4 * (length d.ws - 2)) = omega arith in
    let start : block_start d.ws s ≡ at b n q s.mips.branched s = block_start-at d.ws s in
    words_simulated env d.ws fuel pc n q (length d.ws + fuel) b s.mips.branched s regular small eb
      refl (subst (Undisturbed env pc d.ws) start u)
    ∙ ap (λ t. run_words env d.ws t >>= resume env fuel) (sym start)
    ∙ sym (>>=_assoc (run_words env d.ws (block_start d.ws s)) _ _)
    ∙ ap (λ r. r >>= λ s'. interpreter_switch env fuel (sequenced s'))
        (sym (run_block-IsDecoded env s s₀ block d))
