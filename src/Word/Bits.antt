-- ===== src/Word/Bits.antt =====
-- `&`, `|` and `^` of two `u32` are a `u32` (common.h): by the recursion on binary digits, where `f`
-- is the operation on two digits and `z` what is left where the first number has run out.
use Prim.Native.Nat.{
  digits, bitwise, min, max, differ, bit_and-bitwise, bit_or-bitwise, bit_xor-bitwise,
}
use native.Mathlib.Nat.{pow-suc}
use comparing_complexity_and.Base.{
  ℕ, zero, suc, ◌+◌, ◌-◌, ◌*◌, ◌/◌, ◌%◌, ◌^◌, ◌≤◌, ◌<◌, ◌≡◌, refl, ◌∙◌, arith, bit_and, bit_or,
  bit_xor,
}

module _ (z : ℕ → ℕ) (f : ℕ → ℕ → ℕ) where
  -- A count of digits above the number changes nothing.
  digits-suc : (n a b : ℕ) → a ≤ n → digits z f (suc n) a b ≡ digits z f n a b
  digits-suc zero zero b le = refl
  digits-suc zero (suc a) b le = absurd (omega arith)
  digits-suc (suc n) zero b le = refl
  digits-suc (suc n) (suc a) b le = rw (digits-suc n (suc a / 2) (b / 2) (omega arith))

  digits-bitwise : (d n a b : ℕ) → n ≡ a + d → digits z f n a b ≡ bitwise z f a b
  digits-bitwise zero n a b e = let e' : n ≡ a = omega arith in rw e'
  digits-bitwise (suc d) zero a b e = absurd (omega arith)
  digits-bitwise (suc d) (suc n) a b e =
      digits-suc n a b (omega arith) ∙ digits-bitwise d n a b (omega arith)

  -- The lowest digit and the others.
  pub bitwise_lowest :
      ((b : ℕ) → z b ≡ z (b / 2) * 2 + f 0 (b % 2))
      → (a b : ℕ) → bitwise z f a b ≡ bitwise z f (a / 2) (b / 2) * 2 + f (a % 2) (b % 2)
  bitwise_lowest ends zero b = ends b
  bitwise_lowest ends (suc a) b =
      rw (digits-bitwise (a - suc a / 2) a (suc a / 2) (b / 2) (omega arith))

  -- A result fits the width of the operands.
  bitwise-lt :
      ((b : ℕ) → z b ≡ z (b / 2) * 2 + f 0 (b % 2))
      → ((x y : ℕ) → x < 2 → y < 2 → f x y < 2)
      → (k a b : ℕ) → a < 2 ^ k
      → b < 2 ^ k
      → bitwise z f a b < 2 ^ k
  bitwise-lt ends digit zero zero zero p q = omega (arith, ends 0)
  bitwise-lt ends digit zero (suc a) b p q = absurd (omega arith)
  bitwise-lt ends digit zero zero (suc b) p q = absurd (omega arith)
  bitwise-lt ends digit (suc k) a b p q = omega (
    arith,
    pow-suc 2 k,
    bitwise_lowest ends a b,
    digit (a % 2) (b % 2) (omega arith) (omega arith),
    bitwise-lt ends digit k (a / 2) (b / 2) (omega (arith, pow-suc 2 k))
        (omega (arith, pow-suc 2 k)),
  )

pub bit_and-lt : (a b : ℕ) → a < 2 ^ 32 → b < 2 ^ 32 → bit_and a b < 2 ^ 32
bit_and-lt a b p q = omega (
  arith,
  bit_and-bitwise a b,
  bitwise-lt (λ b. zero) min (λ b. omega arith) (λ x y h k. omega arith) 32 a b p q,
)

pub bit_or-lt : (a b : ℕ) → a < 2 ^ 32 → b < 2 ^ 32 → bit_or a b < 2 ^ 32
bit_or-lt a b p q = omega (
  arith,
  bit_or-bitwise a b,
  bitwise-lt (λ b. b) max (λ b. omega arith) (λ x y h k. omega arith) 32 a b p q,
)

differ-lt : (x y : ℕ) → x < 2 → y < 2 → differ x y < 2
differ-lt zero y h k = k
differ-lt (suc x) zero h k = h
differ-lt (suc zero) (suc y) h k = omega arith
differ-lt (suc (suc x)) (suc y) h k = absurd (omega arith)

pub bit_xor-lt : (a b : ℕ) → a < 2 ^ 32 → b < 2 ^ 32 → bit_xor a b < 2 ^ 32
bit_xor-lt a b p q =
    omega (
      arith,
      bit_xor-bitwise a b,
      bitwise-lt (λ b. b) differ (λ b. omega arith) differ-lt 32 a b p q,
    )

pub bit_or-lt_pow : (k a b : ℕ) → a < 2 ^ k → b < 2 ^ k → bit_or a b < 2 ^ k
bit_or-lt_pow k a b p q = omega (
  arith,
  bit_or-bitwise a b,
  bitwise-lt (λ b. b) max (λ b. omega arith) (λ x y h k. omega arith) k a b p q,
)
