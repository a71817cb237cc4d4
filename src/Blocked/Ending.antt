-- ===== src/Blocked/Ending.antt =====
-- The block in which a run of blocked.c ends: the machine may halt in the middle of it, and the
-- words behind are run all the same, where switch.c has stopped.
use comparing_complexity_and.Base.{
  ℕ, ◌-◌, if-true, suc, ◌+◌, ◌*◌, ◌^◌, ◌<◌, ◌≡◌, ◌⊎◌, inl, inr, Bool, true, false, List, [], ◌∷◌,
  ◌++◌, AllOf, length, ok, ◌>>=◌, >>=-eq-ok, ok-injective, refl, sym, ap, ap₂, ◌∙◌, arith, fun_ext,
  subst,
}
use comparing_complexity_and.Word.{u32}
use comparing_complexity_and.Machine.{set_r, mips_r_pc, mips_r_npc, mips_r_nnpc}
use comparing_complexity_and.Host.{Env, Machine, set_mips}
use comparing_complexity_and.Instr.Exec.{exec}
use comparing_complexity_and.Instr.Plain.{at}
use comparing_complexity_and.Instr.Quiet.{IsQuiet, SameWorld, exec-SameWorld}
use comparing_complexity_and.Interp.Switch.{interpreter_switch}
use comparing_complexity_and.Blocked.{Block, basic, kind_of, run_block}
use comparing_complexity_and.Blocked.Duff.{Word, run_words, run_words-append}
use comparing_complexity_and.Blocked.Decode.{IsDecoded, run_block-IsDecoded}
use comparing_complexity_and.Blocked.Cache.{Runs}
use comparing_complexity_and.Blocked.Plain.{exec-IsPlain}
use comparing_complexity_and.Blocked.Simulation.{
  IsRegular, Undisturbed, block_start, block_start-at, sequenced, sequenced_at, switch_step-plain,
  interpreter_switch-suc, run_block-interpreter_switch,
}

SameWorld-trans : (s t u : Machine) → SameWorld s t → SameWorld t u → SameWorld s u
SameWorld-trans s t u h k = record {
  memory = k.memory ∙ h.memory;
  calls = k.calls ∙ h.calls;
  status = k.status ∙ h.status;
}

-- The words of a block whose machine halts at the last word of `front`: no word of `front`
-- branches, each one is still there when its turn comes, and those behind neither store nor call.
pub record HaltsInside (env : Env) (ws : List Word) (s : Machine) : Type 0 where
  pub front : List Word
  pub back : List Word
  pub words : ws ≡ front ++ back
  pub plain : AllOf (λ w. kind_of w.1 ≡ basic) front
  pub undisturbed : Undisturbed env (s.mips.r mips_r_pc) front (block_start ws s)
  pub halts : (t : Machine) → run_words env front (block_start ws s) ≡ ok t → t.mips.halted ≡ true
  pub quiet : AllOf (λ w. IsQuiet w.1) back

-- How a block may end a run: inside, or with its last word.
abbrev pub IsEnding : Env → List Word → Machine → Type 0
IsEnding env ws s =
    HaltsInside env ws s
    ⊎ (IsRegular ws × Undisturbed env (s.mips.r mips_r_pc) ws (block_start ws s))

sequenced_at-at :
    (p b n q : ℕ) (br br' : Bool) (s : Machine)
    → sequenced_at p br (at b n q br' s) ≡ sequenced_at p br s
sequenced_at-at p b n q br br' s =
    ap (λ f. set_mips (record s.mips { r = f; branched = br }) s) (fun_ext λ i. ground arith)

-- The programs whose runs end so, by the last blocks of their runs.
abbrev pub EndsWell : Env → Machine → Type 0
EndsWell env start =
    (t s₀ u : Machine) (block : Block) (d : IsDecoded s₀ block)
    → Runs env start t
    → Runs env start s₀
    → t.mips.halted ≡ false
    → t.mips.r mips_r_pc ≡ block.address
    → run_block env block t ≡ ok u
    → u.mips.halted ≡ true
    → IsEnding env d.ws t

module _ (env : Env) where
  run_words-SameWorld :
      (ws : List Word) (s s' : Machine)
      → AllOf (λ w. IsQuiet w.1) ws
      → run_words env ws s ≡ ok s'
      → SameWorld s s'
  unfolding run_words
  run_words-SameWorld [] s s' h e =
      subst (SameWorld s) (ok-injective e) (record { memory = refl; calls = refl; status = refl })
  run_words-SameWorld ((cir, insn) ∷ ws) s s' (first, rest) e =
      let (t, ran, e') = >>=-eq-ok (exec env insn cir s) _ e in
      SameWorld-trans s t s' (exec-SameWorld env insn cir s t first ran)
        (run_words-SameWorld ws t s' rest e')

  -- Words without a branch, against as many rounds of the switch interpreter.
  front_simulated :
      (front : List Word) (k p n q b c : ℕ) (br : Bool) (s t : Machine)
      → p < 2 ^ 32
      → c ≡ length front + k
      → AllOf (λ w. kind_of w.1 ≡ basic) front
      → Undisturbed env p front (at b n q br s)
      → run_words env front (at b n q br s) ≡ ok t
      → interpreter_switch env c (sequenced_at p br s)
        ≡ interpreter_switch env k (sequenced_at (u32 (p + 4 * length front)) br t)
  unfolding run_words
  front_simulated [] k p n q b c br s t small ec all u e =
      let none_left : c ≡ k = omega arith in
      let stays : p ≡ u32 (p + 4 * 0) = omega arith in
      ap (λ c. interpreter_switch env c (sequenced_at p br s)) none_left
      ∙ ap (interpreter_switch env k) (sym (sequenced_at-at p b n q br br s))
      ∙ ap₂ (λ x u. interpreter_switch env k (sequenced_at x br u)) stays (ok-injective e)
  front_simulated ((cir, insn) ∷ ws) k p n q b c br s t small ec (plain, all) (here, running, rest)
        e =
      let next = u32 (p + 4) in
      let m = length ws + k in
      let (s₁, ran, e₁) = >>=-eq-ok (exec env insn cir (at b n q br s)) _ e in
      let (s₂, ran₂, same) =
        >>=-eq-ok (exec env insn cir s) _
          (sym (exec-IsPlain env insn cir s plain b n q br) ∙ ran) in
      let back : s₁ ≡ at b n q br s₂ = sym (ok-injective same) in
      let ends : u32 (next + 4 * length ws) ≡ u32 (p + 4 * suc (length ws)) = omega arith in
      interpreter_switch-suc env c m (sequenced_at p br s) (omega arith) running
      ∙ ap (λ r. r >>= interpreter_switch env m)
          (switch_step-plain env s (cir, insn) p next (u32 (p + 8)) br plain here)
      ∙ ap
          (λ r.
            (r >>= λ s'. ok (at next (u32 (p + 8)) (u32 (u32 (p + 8) + 4)) br s'))
            >>= interpreter_switch env m)
          ran₂
      ∙ ap₂ (λ x y. interpreter_switch env m (at next x y br s₂)) (omega arith) (omega arith)
      ∙ front_simulated ws k next n q b m br s₂ t (omega arith) refl all
          (rest (at b n q br s₂) (ran ∙ ap ok back)) (ap (run_words env ws) (sym back) ∙ e₁)
      ∙ ap (λ x. interpreter_switch env k (sequenced_at x br t)) ends

  switch_stops : (s : Machine) → s.mips.halted ≡ true → interpreter_switch env 0 s ≡ ok s
  unfolding interpreter_switch
  switch_stops s halted = if-true (ok s) _ halted

  -- A block that ends inside.
  HaltsInside-interpreter_switch :
      (s s₀ s' : Machine) (block : Block) (d : IsDecoded s₀ block)
      → s.mips.r mips_r_pc < 2 ^ 32
      → HaltsInside env d.ws s
      → run_block env block s ≡ ok s'
      → (rounds : ℕ) × (u : Machine) × (interpreter_switch env rounds (sequenced s) ≡ ok u)
        × SameWorld u s'
  HaltsInside-interpreter_switch s s₀ s' block d small h e =
      let pc = s.mips.r mips_r_pc in
      let n = s.mips.r mips_r_npc in
      let q = s.mips.r mips_r_nnpc in
      let br = s.mips.branched in
      let b = u32 (pc + u32 (4 * u32 (length d.ws - 2))) in
      let start : block_start d.ws s ≡ at b n q br s = block_start-at d.ws s in
      let (t, ran, same) =
        >>=-eq-ok (run_words env d.ws (block_start d.ws s)) _
          (sym (run_block-IsDecoded env s s₀ block d) ∙ e) in
      let (m, front_ran, back_ran) = >>=-eq-ok (run_words env h.front (block_start d.ws s)) _ (
        sym (run_words-append env h.front h.back (block_start d.ws s))
        ∙ ap (λ ws. run_words env ws (block_start d.ws s)) (sym h.words)
        ∙ ran) in
      let stopped = sequenced_at (u32 (pc + 4 * length h.front)) br m in
      let after = run_words-SameWorld h.back m t h.quiet back_ran in
      let exact : s' ≡ set_mips (set_r mips_r_pc (t.mips.r mips_r_nnpc) t.mips) t =
        sym (ok-injective same) in
      (
        length h.front + 0,
        stopped,
        front_simulated h.front 0 pc n q b (length h.front + 0) br s m small refl h.plain
              (subst (Undisturbed env pc h.front) start h.undisturbed)
              (ap (run_words env h.front) (sym start) ∙ front_ran)
            ∙ switch_stops stopped (h.halts m front_ran),
        record {
          memory = ap (λ (x : Machine). x.memory) exact ∙ after.memory;
          calls = ap (λ (x : Machine). x.calls) exact ∙ after.calls;
          status = ap (λ (x : Machine). x.mips.status) exact ∙ after.status;
        },
      )

  -- The switch interpreter, from the start of the last block of a run of blocked.c, comes to a halt
  -- with the same memory, the same host calls and the same exit status.
  pub IsEnding-interpreter_switch :
      (s s₀ s' : Machine) (block : Block) (d : IsDecoded s₀ block)
      → s.mips.r mips_r_pc < 2 ^ 32
      → IsEnding env d.ws s
      → run_block env block s ≡ ok s'
      → s'.mips.halted ≡ true
      → (rounds : ℕ) × (u : Machine) × (interpreter_switch env rounds (sequenced s) ≡ ok u)
        × SameWorld u s'
  IsEnding-interpreter_switch s s₀ s' block d small (inl inside) e halted =
      HaltsInside-interpreter_switch s s₀ s' block d small inside e
  IsEnding-interpreter_switch s s₀ s' block d small (inr (regular, undisturbed)) e halted = (
    length d.ws + 0,
    sequenced s',
    run_block-interpreter_switch env 0 s s₀ block d small regular undisturbed
        ∙ ap (λ r. r >>= λ s'. interpreter_switch env 0 (sequenced s')) e
        ∙ switch_stops (sequenced s') halted,
    record { memory = refl; calls = refl; status = refl },
  )
