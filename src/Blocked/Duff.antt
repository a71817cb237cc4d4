-- ===== src/Blocked/Duff.antt =====
-- The unrolled loop of `interpreter_blocked` runs every operation of a block once and in order.
use comparing_complexity_and.Base.{
  ℕ, zero, suc, ◌+◌, ◌-◌, ◌*◌, ◌/◌, ◌%◌, ◌==◌, ◌≡◌, ◌≤◌, ◌<◌, if◌then◌else◌, none, some, List, [],
  ◌∷◌, ◌++◌, length, Result, ok, fault, ◌>>=◌, refl, sym, ap, ◌∙◌, arith, >>=_assoc, fun_ext, take,
  drop, take-append-drop, length-take_le, length-drop,
}
use comparing_complexity_and.Insn.{Insn}
use comparing_complexity_and.Host.{Env, Machine}
use comparing_complexity_and.Instr.Exec.{exec}
use comparing_complexity_and.Blocked.{Op, Block, real_op, null_op, run_ops, unrolled, duff}

abbrev pub Word : Type 0
Word = ℕ × Insn

-- One instruction after the other, with no program counter.
unfoldable pub run_words : Env → List Word → Machine → Result Machine
run_words env [] s = ok s
run_words env ((cir, insn) ∷ ws) s = do s' ← exec env insn cir s; run_words env ws s'

abbrev pub op_of : Word → Op
op_of (cir, insn) = real_op cir insn

-- The array that a block with these instructions has.
abbrev pub ops_of : List Word → ℕ → List Op
ops_of [] last = null_op last ∷ []
ops_of (w ∷ ws) last = op_of w ∷ ops_of ws last

pub length-ops_of : (ws : List Word) (last : ℕ) → length (ops_of ws last) ≡ suc (length ws)
length-ops_of [] last = refl
length-ops_of (w ∷ ws) last = ap suc (length-ops_of ws last)

module _ (env : Env) where
  pub run_words-append :
      (front back : List Word) (s : Machine)
      → run_words env (front ++ back) s ≡ (run_words env front s >>= λ s'. run_words env back s')
  unfolding run_words
  run_words-append [] back s = refl
  run_words-append ((cir, insn) ∷ front) back s =
      rw >>=_assoc
        (ap (λ k. exec env insn cir s >>= k) (fun_ext λ s'. run_words-append front back s'))

module _ (env : Env) (last : ℕ) where
  run_ops-append :
      (front back : List Word) (n : ℕ) (s : Machine)
      → length front ≡ n
      → run_ops env n (ops_of (front ++ back) last) s
        ≡ (run_words env front s >>= λ s'. ok (s', ops_of back last))
  unfolding run_ops run_words
  run_ops-append [] back zero s e = refl
  run_ops-append [] back (suc n) s e = absurd (omega arith)
  run_ops-append (w ∷ front) back zero s e = absurd (omega arith)
  run_ops-append ((cir, insn) ∷ front) back (suc n) s e = rw >>=_assoc (
      ap (λ k. exec env insn cir s >>= k)
        (fun_ext λ s'. run_ops-append front back n s' (omega arith)))

  -- The test at the end of a round, given what the next round does.
  after_round :
      (rounds q : ℕ) (back : List Word)
      → length back ≡ 8 * q
      → ((p : ℕ)
          → q ≡ suc p
          → (s : Machine) → unrolled env rounds 8 (ops_of back last) s ≡ run_words env back s)
      → (s : Machine)
      → elim (ops_of back last) [
        | [] ↦ fault
        | o ∷ more ↦ elim o.op [ none ↦ ok s | some _ ↦ unrolled env rounds 8 (o ∷ more) s ]
      ]
        ≡ run_words env back s
  after_round rounds q [] e ih s = unfold run_words in refl
  after_round rounds zero ((cir, insn) ∷ back) e ih s = absurd (omega arith)
  after_round rounds (suc p) ((cir, insn) ∷ back) e ih s = ih p refl s

  -- A round and the ones that follow it, where the first `entry` operations and then eights of
  -- them make up the block.
  unrolled_lem :
      (rounds q entry : ℕ) (ws : List Word) (s : Machine)
      → length ws ≡ entry + 8 * q
      → q ≤ rounds
      → ((p : ℕ)
          → q ≡ suc p
          → (back : List Word) → length back ≡ 8 * q
          → (s' : Machine) → unrolled env rounds 8 (ops_of back last) s' ≡ run_words env back s')
      → unrolled env (suc rounds) entry (ops_of ws last) s ≡ run_words env ws s
  unfolding unrolled
  unrolled_lem rounds q entry ws s e enough ih =
      let front = take entry ws in
      let back = drop entry ws in
      let whole = take-append-drop entry ws in
      let size = length-take_le entry ws (omega arith) in
      let rest : length back ≡ 8 * q = omega (arith, length-drop entry ws) in
      let then_back = after_round rounds q back rest (λ p h. ih p h back rest) in
      ap (λ l. unrolled env (suc rounds) entry (ops_of l last) s) (sym whole)
      ∙ rw (run_ops-append front back entry s size, >>=_assoc)
          (ap (λ k. run_words env front s >>= k) (fun_ext then_back)
            ∙ sym (run_words-append env front back s)
            ∙ ap (λ l. run_words env l s) whole)

  unrolled_all :
      (rounds q entry : ℕ) (ws : List Word) (s : Machine)
      → length ws ≡ entry + 8 * q
      → q ≤ rounds
      → unrolled env (suc rounds) entry (ops_of ws last) s ≡ run_words env ws s
  unrolled_all zero q entry ws s e enough =
      unrolled_lem zero q entry ws s e enough λ p h. absurd (omega arith)
  unrolled_all (suc rounds) q entry ws s e enough =
      unrolled_lem (suc rounds) q entry ws s e enough
        λ p h back size s'. unrolled_all rounds p 8 back s' (omega arith) (omega arith)

-- The unrolled loop that `switch ((current->size - 1) % 8)` enters in the middle runs each
-- instruction of a block of at least one exactly once, in order, and stops at the terminator: it
-- never reads past the array, calls the null handler or runs out of rounds by itself.
pub duff_lem :
    (env : Env) (block : Block) (ws : List Word) (last : ℕ) (s : Machine)
    → 0 < length ws
    → block.ops ≡ ops_of ws last
    → block.size ≡ suc (length ws)
    → duff env block s ≡ run_words env ws s
unfolding duff
duff_lem env block ws last s pos e size =
    let n = length ws in
    let entry = if n % 8 == 0 then 8 else n % 8 in
    let bound : (entry ≤ n) × ((n - entry) / 8 ≤ n) × (n ≡ entry + 8 * ((n - entry) / 8)) =
      ground arith in
    rw (e, size, length-ops_of ws last)
      (ap (λ k. unrolled env (suc n) (if k % 8 == 0 then 8 else k % 8) (ops_of ws last) s) count
        ∙ unrolled_all env last n ((n - entry) / 8) entry ws s bound.2 bound.1)
  where
    count : suc (length ws) - 1 ≡ length ws
    count = omega arith
