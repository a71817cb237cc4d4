-- ===== src/Instr/Signed.antt =====
-- Signed arithmetic on bit patterns.
use comparing_complexity_and.Base.{
  ℕ, ◌+◌, ◌-◌, ◌/◌, ◌^◌, ◌≤◌, ◌<◌, ◌≡◌, arith, true, false, none, some, refl,
}
use comparing_complexity_and.Word.{u32, s32, s16, u32_of}
use comparing_complexity_and.Word.Int.{ℤ, pos, negsuc, ◌+ℤ◌, ◌-ℤ◌, ltb_ℤ, shift_right}
use comparing_complexity_and.Instr.Alu.{add_impl, addu_impl, subu_impl, addiu_impl, sra_impl}

-- Whether a signed number fits an `s32`.
abbrev pub FitsS32 : ℤ → Type 0
FitsS32 z = (ltb_ℤ z (negsuc (2 ^ 31 - 1)) ≡ false) × (ltb_ℤ (pos (2 ^ 31 - 1)) z ≡ false)

-- `addu` of 32-bit operands writes the sum of their signed values where that fits 32 bits.
pub addu_signed :
    (a b : ℕ)
    → a < 2 ^ 32
    → b < 2 ^ 32
    → FitsS32 (s32 a +ℤ s32 b)
    → (v : ℕ) × (addu_impl a b ≡ some v) × (s32 v ≡ s32 a +ℤ s32 b)
unfolding addu_impl
addu_signed a b p q fits = (u32 (a + b), refl, ground arith)

-- `subu` of 32-bit operands writes the difference of their signed values where that fits 32 bits.
pub subu_signed :
    (a b : ℕ)
    → a < 2 ^ 32
    → b < 2 ^ 32
    → FitsS32 (s32 a -ℤ s32 b)
    → (v : ℕ) × (subu_impl a b ≡ some v) × (s32 v ≡ s32 a -ℤ s32 b)
unfolding subu_impl
subu_signed a b p q fits = (u32 (a + 2 ^ 32 - b), refl, ground arith)

-- `addiu` of a 32-bit operand and a 16-bit immediate writes the sum of their signed values where
-- that fits 32 bits.
pub addiu_signed :
    (a imm : ℕ)
    → a < 2 ^ 32
    → imm < 2 ^ 16
    → FitsS32 (s32 a +ℤ s16 imm)
    → (v : ℕ) × (addiu_impl a imm ≡ some v) × (s32 v ≡ s32 a +ℤ s16 imm)
unfolding addiu_impl
addiu_signed a imm p q fits = (u32 (a + u32_of (s16 imm)), refl, ground arith)

pub add_negative :
    (a b : ℕ) → ltb_ℤ (s32 a) (pos 0) ≡ true → ltb_ℤ (s32 b) (pos 0) ≡ true → add_impl a b ≡ none
unfolding add_impl
add_negative a b p q = ground arith

s32-u32_of : (z : ℤ) → FitsS32 z → s32 (u32_of z) ≡ z
s32-u32_of (pos n) fits = ground arith
s32-u32_of (negsuc n) fits = ground arith

div-le : (n k : ℕ) → n / k ≤ n
div-le n k = grind arith

shift_right-FitsS32 : (z : ℤ) (sh : ℕ) → FitsS32 z → FitsS32 (shift_right z sh)
shift_right-FitsS32 (pos n) sh fits = ground (arith, div-le n (2 ^ sh))
shift_right-FitsS32 (negsuc n) sh fits = ground (arith, div-le n (2 ^ sh))

s32-FitsS32 : (v : ℕ) → v < 2 ^ 32 → FitsS32 (s32 v)
s32-FitsS32 v p = ground arith

-- `sra` and `srav` divide the signed value of a 32-bit operand by the power of two, rounding down: the pattern that
-- they store stands for exactly that number.
sra_impl_lem : (v sh : ℕ) → v < 2 ^ 32 → s32 (sra_impl v sh) ≡ shift_right (s32 v) sh
unfolding sra_impl
sra_impl_lem v sh p =
    s32-u32_of (shift_right (s32 v) sh) (shift_right-FitsS32 (s32 v) sh (s32-FitsS32 v p))
