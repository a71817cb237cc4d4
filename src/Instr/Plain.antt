-- ===== src/Instr/Plain.antt =====
-- Instructions that do not branch neither read nor write the program counters (instructions.h):
-- an interpreter may run them with any values there, as blocked.c does.
use comparing_complexity_and.Base.{
  Bool, ℕ, ◌<◌, ◌≡◌, ◌==◌, if◌then◌else◌, Option, none, some, update, Result, ok, ◌>>=◌, refl, ap,
  ◌∙◌, arith, fun_ext, >>=_assoc,
}
use comparing_complexity_and.Insn.{rs_field, rt_field, rd_field, imm16_field}
use comparing_complexity_and.Machine.{Mips, set_r, mips_r_hi, mips_r_lo}
use comparing_complexity_and.Memory.{Memory, memory_write_u32}
use comparing_complexity_and.Host.{Machine, set_mips}
use comparing_complexity_and.Instr.Alu.{
  write_r, shift_imm, shift_reg, move_from, move_to, mult_div, alu_reg, alu_imm, lui_insn,
  rdhwr_insn,
}
use comparing_complexity_and.Instr.Exec.{on_mips}
use comparing_complexity_and.Instr.Transfer.{compute_address, load_imm, store_imm, sc_insn}

-- A register file with `%pc`, `%npc` and `%nnpc` replaced.
abbrev pub counters : ℕ → ℕ → ℕ → (ℕ → ℕ) → ℕ → ℕ
counters p n q r k = if k == 34 then p else if k == 35 then n else if k == 36 then q else r k

abbrev pub mips_at : ℕ → ℕ → ℕ → Bool → Mips → Mips
mips_at p n q br m = record m { r = counters p n q m.r; branched = br }

abbrev pub at : ℕ → ℕ → ℕ → Bool → Machine → Machine
at p n q br s = set_mips (mips_at p n q br s.mips) s

pub counters_same : (r : ℕ → ℕ) → counters (r 34) (r 35) (r 36) r ≡ r
counters_same r = fun_ext λ i. ground (arith, same_index i 34, same_index i 35, same_index i 36)
  where
    same_index : (i k : ℕ) → i ≡ k → r i ≡ r k
    same_index i k e = ap r e

-- A machine with its own counters.
pub at_same : (s : Machine) → at (s.mips.r 34) (s.mips.r 35) (s.mips.r 36) s.mips.branched s ≡ s
at_same s = ap (λ f. set_mips (record s.mips { r = f }) s) (counters_same s.mips.r)

pub counters-update :
    (p n q k v : ℕ) (r : ℕ → ℕ)
    → k < 34
    → update (counters p n q r) k v ≡ counters p n q (update r k v)
counters-update p n q k v r h = fun_ext λ i. ground arith

pub counters_below : (p n q k : ℕ) (r : ℕ → ℕ) → k < 34 → counters p n q r k ≡ r k
counters_below p n q k r h = ground arith

pub set_r-mips_at :
    (p n q : ℕ) (br : Bool) (k v : ℕ) (m : Mips)
    → k < 34
    → set_r k v (mips_at p n q br m) ≡ mips_at p n q br (set_r k v m)
set_r-mips_at p n q br k v m h =
    ap (λ f. record m { r = f; branched = br }) (counters-update p n q k v m.r h)

abbrev pub IsBlind : (Mips → Mips) → Type 0
IsBlind f = (p n q : ℕ) (br : Bool) (m : Mips) → f (mips_at p n q br m) ≡ mips_at p n q br (f m)

rd_below : (cir : ℕ) → rd_field cir < 34
rd_below cir = omega arith

rt_below : (cir : ℕ) → rt_field cir < 34
rt_below cir = omega arith

rs_below : (cir : ℕ) → rs_field cir < 34
rs_below cir = omega arith

module _ (p n q : ℕ) (cir : ℕ) (m : Mips) where
  rs_read : counters p n q m.r (rs_field cir) ≡ m.r (rs_field cir)
  rs_read = counters_below p n q (rs_field cir) m.r (rs_below cir)

  rt_read : counters p n q m.r (rt_field cir) ≡ m.r (rt_field cir)
  rt_read = counters_below p n q (rt_field cir) m.r (rt_below cir)

write_r-mips_at :
    (p n q : ℕ) (br : Bool) (k : ℕ) (o : Option ℕ) (m : Mips)
    → k < 34
    → write_r k o (mips_at p n q br m) ≡ mips_at p n q br (write_r k o m)
write_r-mips_at p n q br k none m h = refl
write_r-mips_at p n q br k (some v) m h = set_r-mips_at p n q br k v m h

pub shift_imm-IsBlind : (impl : ℕ → ℕ → ℕ) (cir : ℕ) → IsBlind (shift_imm impl cir)
unfolding shift_imm
shift_imm-IsBlind impl cir p n q br m =
    rw (rt_read p n q cir m) (set_r-mips_at p n q br (rd_field cir) _ m (rd_below cir))

pub shift_reg-IsBlind : (impl : ℕ → ℕ → ℕ) (cir : ℕ) → IsBlind (shift_reg impl cir)
unfolding shift_reg
shift_reg-IsBlind impl cir p n q br m =
    rw (rt_read p n q cir m, rs_read p n q cir m)
      (set_r-mips_at p n q br (rd_field cir) _ m (rd_below cir))

pub move_from-IsBlind : (k cir : ℕ) → k < 34 → IsBlind (move_from k cir)
unfolding move_from
move_from-IsBlind k cir h p n q br m =
    rw (counters_below p n q k m.r h) (set_r-mips_at p n q br (rd_field cir) _ m (rd_below cir))

pub move_to-IsBlind : (k cir : ℕ) → k < 34 → IsBlind (move_to k cir)
unfolding move_to
move_to-IsBlind k cir h p n q br m = rw (rs_read p n q cir m) (set_r-mips_at p n q br k _ m h)

pub mult_div-IsBlind :
    (impl : ℕ → ℕ → record { lo : ℕ; hi : ℕ }) (cir : ℕ) → IsBlind (mult_div impl cir)
unfolding mult_div
mult_div-IsBlind impl cir p n q br m =
    let result = impl (m.r (rs_field cir)) (m.r (rt_field cir)) in
    rw (rs_read p n q cir m, rt_read p n q cir m)
      (ap (set_r mips_r_hi result.hi) (set_r-mips_at p n q br mips_r_lo result.lo m (omega arith))
        ∙ set_r-mips_at p n q br mips_r_hi result.hi (set_r mips_r_lo result.lo m) (omega arith))

pub alu_reg-IsBlind : (impl : ℕ → ℕ → Option ℕ) (cir : ℕ) → IsBlind (alu_reg impl cir)
unfolding alu_reg
alu_reg-IsBlind impl cir p n q br m =
    rw (rs_read p n q cir m, rt_read p n q cir m)
      (write_r-mips_at p n q br (rd_field cir) _ m (rd_below cir))

pub alu_imm-IsBlind : (impl : ℕ → ℕ → Option ℕ) (cir : ℕ) → IsBlind (alu_imm impl cir)
unfolding alu_imm
alu_imm-IsBlind impl cir p n q br m =
    rw (rs_read p n q cir m) (write_r-mips_at p n q br (rt_field cir) _ m (rt_below cir))

pub lui_insn-IsBlind : (cir : ℕ) → IsBlind (lui_insn cir)
unfolding lui_insn
lui_insn-IsBlind cir p n q br m = set_r-mips_at p n q br (rt_field cir) _ m (rt_below cir)

pub rdhwr_insn-IsBlind : (cir : ℕ) → IsBlind (rdhwr_insn cir)
unfolding rdhwr_insn
rdhwr_insn-IsBlind cir p n q br m = set_r-mips_at p n q br (rt_field cir) _ m (rt_below cir)

-- A call on the machine with the counters replaced comes to the same, with them still there.
abbrev pub IsPlain : (Machine → Result Machine) → Machine → Type 0
IsPlain run s =
    (p n q : ℕ) (br : Bool) → run (at p n q br s) ≡ (run s >>= λ s'. ok (at p n q br s'))

pub bind_ext {ℓ κ} :
    {A : Type ℓ} {B : Type κ} (r : Result A) {f g : A → Result B}
    → ((a : A) → f a ≡ g a)
    → (r >>= f) ≡ (r >>= g)
bind_ext r h = ap (λ k. r >>= k) (fun_ext h)

-- A chain of such calls.
pub IsPlain-bind :
    (run next : Machine → Result Machine) (s : Machine)
    → IsPlain run s
    → ((s' : Machine) → IsPlain next s')
    → IsPlain (λ t. run t >>= next) s
IsPlain-bind run next s first rest p n q br =
    rw (first p n q br, >>=_assoc, >>=_assoc) (bind_ext (run s) λ s'. rest s' p n q br)

pub on_mips-IsPlain : (f : Mips → Mips) (s : Machine) → IsBlind f → IsPlain (on_mips f) s
on_mips-IsPlain f s h p n q br = ap (λ m. ok (set_mips m s)) (h p n q br s.mips)

pub load_imm-IsPlain :
    (impl : Memory → ℕ → ℕ → Result ℕ) (cir : ℕ) (s : Machine) → IsPlain (load_imm impl cir) s
unfolding load_imm
load_imm-IsPlain impl cir s p n q br =
    let address = compute_address (imm16_field cir) (s.mips.r (rs_field cir)) in
    rw (rs_read p n q cir s.mips, rt_read p n q cir s.mips, >>=_assoc)
      (bind_ext (impl s.memory address (s.mips.r (rt_field cir))) λ v.
        ap (λ m. ok (set_mips m s)) (set_r-mips_at p n q br (rt_field cir) v s.mips (rt_below cir)))

pub store_imm-IsPlain :
    (impl : Memory → ℕ → ℕ → Result Memory) (cir : ℕ) (s : Machine) → IsPlain (store_imm impl cir) s
unfolding store_imm
store_imm-IsPlain impl cir s p n q br =
    rw (rs_read p n q cir s.mips, rt_read p n q cir s.mips, >>=_assoc) refl

pub sc_insn-IsPlain : (cir : ℕ) (s : Machine) → IsPlain (sc_insn cir) s
unfolding sc_insn
sc_insn-IsPlain cir s =
    IsPlain-bind (store_imm memory_write_u32 cir) (on_mips (set_r (rt_field cir) 1)) s
      (store_imm-IsPlain memory_write_u32 cir s)
      (λ s'.
        on_mips-IsPlain (set_r (rt_field cir) 1) s'
          (λ p n q br m. set_r-mips_at p n q br (rt_field cir) 1 m (rt_below cir)))
