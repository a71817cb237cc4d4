-- ===== src/Instr/Product.antt =====
-- Multiplication and division: what `%hi` and `%lo` hold.
use comparing_complexity_and.Base.{
  ℕ, suc, ◌+◌, ◌-◌, ◌*◌, ◌/◌, ◌^◌, ◌≤◌, ◌<◌, ◌≡◌, ◌≢◌, ap, ◌∙◌, arith, ltb, if◌then◌else◌, true,
  false,
}
use comparing_complexity_and.Word.{u32, s32, u64_of}
use comparing_complexity_and.Word.Int.{ℤ, pos, negsuc, ◌*ℤ◌, ltb_ℤ, pos_part, neg_part}
use comparing_complexity_and.Instr.Alu.{mult_impl, multu_impl, div_impl, divu_impl}

-- The value of a 64-bit pattern as a signed number.
abbrev pub s64 : ℕ → ℤ
s64 x = if ltb x (2 ^ 63) then pos x else negsuc (2 ^ 64 - x - 1)

abbrev pub hi_lo : record { lo : ℕ; hi : ℕ } → ℕ
hi_lo r = r.hi * 2 ^ 32 + r.lo

product_lt : (a b k l : ℕ) → a < k → b < l → a * b < k * l
product_lt a b k l p q = grind arith

-- `multu` of 32-bit operands: `%hi` and `%lo` together are the product.
pub multu_impl_lem : (a b : ℕ) → a < 2 ^ 32 → b < 2 ^ 32 → hi_lo (multu_impl a b) ≡ a * b
unfolding multu_impl
multu_impl_lem a b p q = omega (arith, product_lt a b (2 ^ 32) (2 ^ 32) p q)

product_le : (a b k l : ℕ) → a ≤ k → b ≤ l → a * b ≤ k * l
product_le a b k l p q = grind arith

-- A signed 64-bit number keeps its value through `u64`.
s64-u64_of :
    (z : ℤ)
    → ltb_ℤ z (negsuc (2 ^ 63 - 1)) ≡ false
    → ltb_ℤ (pos (2 ^ 63 - 1)) z ≡ false
    → s64 (u64_of z) ≡ z
s64-u64_of (pos n) lo hi = ground arith
s64-u64_of (negsuc n) lo hi = ground arith

halves : (r : ℕ) → r < 2 ^ 64 → u32 (r / 2 ^ 32) * 2 ^ 32 + u32 r ≡ r
halves r h = omega arith

u64_of-lt : (z : ℤ) → u64_of z < 2 ^ 64
u64_of-lt (pos n) = omega arith
u64_of-lt (negsuc n) = omega arith

mult_value : (a b : ℕ) → hi_lo (mult_impl a b) ≡ u64_of (s32 a *ℤ s32 b)
unfolding mult_impl
mult_value a b = halves (u64_of (s32 a *ℤ s32 b)) (u64_of-lt (s32 a *ℤ s32 b))

-- The product of two `s32` fits an `s64`.
product_fits :
    (x y : ℤ)
    → pos_part x ≤ 2 ^ 31
    → neg_part x ≤ 2 ^ 31
    → pos_part y ≤ 2 ^ 31
    → neg_part y ≤ 2 ^ 31
    → (ltb_ℤ (x *ℤ y) (negsuc (2 ^ 63 - 1)) ≡ false) × (ltb_ℤ (pos (2 ^ 63 - 1)) (x *ℤ y) ≡ false)
product_fits (pos a) (pos b) p q r t = ground (arith, product_le a b (2 ^ 31) (2 ^ 31) p r)
product_fits (pos a) (negsuc b) p q r t = ground (arith, product_le a (suc b) (2 ^ 31) (2 ^ 31) p t)
product_fits (negsuc a) (pos b) p q r t = ground (arith, product_le (suc a) b (2 ^ 31) (2 ^ 31) q r)
product_fits (negsuc a) (negsuc b) p q r t =
    ground (arith, product_le (suc a) (suc b) (2 ^ 31) (2 ^ 31) q t)

s32_parts : (a : ℕ) → a < 2 ^ 32 → (pos_part (s32 a) ≤ 2 ^ 31) × (neg_part (s32 a) ≤ 2 ^ 31)
s32_parts a h = ground arith

-- `mult` of 32-bit operands: `%hi` and `%lo` together, as a signed 64-bit number, are the product
-- of the operands as signed numbers.
pub mult_impl_lem :
    (a b : ℕ) → a < 2 ^ 32 → b < 2 ^ 32 → s64 (hi_lo (mult_impl a b)) ≡ s32 a *ℤ s32 b
mult_impl_lem a b p q =
    let x = s32_parts a p in
    let y = s32_parts b q in
    let fits = product_fits (s32 a) (s32 b) x.0 x.1 y.0 y.1 in
    ap s64 (mult_value a b) ∙ s64-u64_of (s32 a *ℤ s32 b) fits.0 fits.1

-- `divu` by a divisor other than zero: `%lo` and `%hi` are the quotient and the remainder.
pub divu_impl_lem : (a b : ℕ) → b ≢ 0 → let r = divu_impl a b in (r.lo * b + r.hi ≡ a) × (r.hi < b)
unfolding divu_impl
divu_impl_lem a b h = grind arith

-- `div` of operands that are not negative as signed numbers, by a divisor other than zero, gives
-- the quotient and the remainder.
pub div_nonneg :
    (a b : ℕ)
    → a < 2 ^ 31
    → 0 < b
    → b < 2 ^ 31
    → let r = div_impl a b in (r.lo * b + r.hi ≡ a) × (r.hi < b)
unfolding div_impl
div_nonneg a b p q t = grind arith

quotient_bounds :
    (a b : ℕ) → a < 2 ^ 32 → 2 ^ 31 ≤ a → b < 2 ^ 31 → 2 ≤ b → (1 ≤ a / b) × (a / b < 2 ^ 31)
quotient_bounds a b p q r t = (grind arith, grind arith)

-- `div` of a negative dividend by a positive divisor from 2 on gives a positive quotient, as the
-- bit patterns are divided as unsigned numbers.
pub div_negative :
    (a b : ℕ)
    → a < 2 ^ 32
    → b < 2 ^ 31
    → ltb_ℤ (s32 a) (pos 0) ≡ true
    → 2 ≤ b
    → ltb_ℤ (pos 0) (s32 (div_impl a b).lo) ≡ true
unfolding div_impl
div_negative a b p q neg big = ground (arith, quotient_bounds a b)
