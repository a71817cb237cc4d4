-- ===== src/Word/Fields.antt =====
-- `|` of disjoint fields and `&` with a row of ones, as arithmetic (the shifts and masks of
-- instructions.h).
use native.Mathlib.Nat.{
  pow-suc, one-le-pow, mod-lt, div-add-mod', mul-add-div_right, mul-add-mod_self_right,
  div-eq_of_lt, mod-eq_of_lt,
}
use Prim.Native.Nat.{min, max, bit_and-bitwise, bit_or-bitwise}
use comparing_complexity_and.Base.{
  ℕ, zero, suc, ◌+◌, ◌-◌, ◌*◌, ◌/◌, ◌%◌, ◌^◌, ◌≤◌, ◌<◌, ◌≡◌, refl, sym, ap, ap₂, ◌∙◌, arith,
  bit_and, bit_or,
}
use comparing_complexity_and.Word.Bits.{bitwise_lowest, bit_or-lt_pow}

bit_and_step : (a b : ℕ) → bit_and a b ≡ bit_and (a / 2) (b / 2) * 2 + min (a % 2) (b % 2)
bit_and_step a b = omega (
  arith,
  bit_and-bitwise a b,
  bit_and-bitwise (a / 2) (b / 2),
  bitwise_lowest (λ b. zero) min (λ b. omega arith) a b,
)

bit_or_step : (a b : ℕ) → bit_or a b ≡ bit_or (a / 2) (b / 2) * 2 + max (a % 2) (b % 2)
bit_or_step a b = omega (
  arith,
  bit_or-bitwise a b,
  bit_or-bitwise (a / 2) (b / 2),
  bitwise_lowest (λ b. b) max (λ b. omega arith) a b,
)

bit_or_zero : (n a : ℕ) → a ≤ n → bit_or a 0 ≡ a
bit_or_zero n zero h = refl
bit_or_zero zero (suc a) h = absurd (omega arith)
bit_or_zero (suc n) (suc a) h =
    omega (arith, bit_or_step (suc a) 0, bit_or_zero n (suc a / 2) (omega arith))

bit_and_zero : (n a : ℕ) → a ≤ n → bit_and a 0 ≡ 0
bit_and_zero n zero h = refl
bit_and_zero zero (suc a) h = absurd (omega arith)
bit_and_zero (suc n) (suc a) h =
    omega (arith, bit_and_step (suc a) 0, bit_and_zero n (suc a / 2) (omega arith))

pub bit_and-zero : (a : ℕ) → bit_and a 0 ≡ 0
bit_and-zero a = bit_and_zero a a (omega arith)

pub zero-bit_or : (b : ℕ) → bit_or 0 b ≡ b
zero-bit_or b = bit_or-bitwise 0 b

times_pow-suc : (q k : ℕ) → q * 2 ^ suc k ≡ 2 * (q * 2 ^ k)
times_pow-suc q k = omega (arith, ap (λ (t : ℕ). q * t) (pow-suc 2 k))

-- A field above the lowest `k` digits, beside one that fits these.
pub bit_or-fields : (k q r : ℕ) → r < 2 ^ k → bit_or (q * 2 ^ k) r ≡ q * 2 ^ k + r
bit_or-fields zero q r fits = ground (arith, bit_or_zero q q (omega arith))
bit_or-fields (suc k) q r fits = ground (
  arith,
  bit_or_step (q * 2 ^ suc k) r,
  times_pow-suc q k,
  pow-suc 2 k,
  bit_or-fields k q (r / 2) (omega (arith, pow-suc 2 k)),
)

pub bit_or-low_field : (k q r : ℕ) → r < 2 ^ k → bit_or r (q * 2 ^ k) ≡ q * 2 ^ k + r
bit_or-low_field zero q r fits = ground (arith, bit_or-bitwise 0 q)
bit_or-low_field (suc k) q r fits = ground (
  arith,
  bit_or_step r (q * 2 ^ suc k),
  times_pow-suc q k,
  pow-suc 2 k,
  bit_or-low_field k q (r / 2) (omega (arith, pow-suc 2 k)),
)

-- A mask of the lowest `k` digits, and one of digits above them.
pub bit_and-low_field : (k q r : ℕ) → r < 2 ^ k → bit_and (q * 2 ^ k + r) (2 ^ k - 1) ≡ r
bit_and-low_field zero q r fits = ground (arith, bit_and_zero q q (omega arith))
bit_and-low_field (suc k) q r fits = ground (
  arith,
  bit_and_step (q * 2 ^ suc k + r) (2 ^ suc k - 1),
  times_pow-suc q k,
  pow-suc 2 k,
  one-le-pow k 2,
  bit_and-low_field k q (r / 2) (omega (arith, pow-suc 2 k)),
)

pub bit_and-field :
    (k q r m : ℕ) → r < 2 ^ k → bit_and (q * 2 ^ k + r) (m * 2 ^ k) ≡ bit_and q m * 2 ^ k
bit_and-field zero q r m fits =
    let number : q * 2 ^ 0 + r ≡ q = omega arith in
    let mask : m * 2 ^ 0 ≡ m = omega arith in rw (number, mask) (omega arith)
bit_and-field (suc k) q r m fits = ground (
  arith,
  bit_and_step (q * 2 ^ suc k + r) (m * 2 ^ suc k),
  times_pow-suc q k,
  times_pow-suc m k,
  times_pow-suc (bit_and q m) k,
  pow-suc 2 k,
  bit_and-field k q (r / 2) m (omega (arith, pow-suc 2 k)),
)

pub bit_or-zero : (a : ℕ) → bit_or a 0 ≡ a
bit_or-zero a = bit_or_zero a a (omega arith)

-- The upper digits and the lowest `k` ones, each by themselves.
bit_or-parts :
    (k q r p s : ℕ)
    → r < 2 ^ k
    → s < 2 ^ k
    → bit_or (q * 2 ^ k + r) (p * 2 ^ k + s) ≡ bit_or q p * 2 ^ k + bit_or r s
bit_or-parts zero q r p s h k =
    let left : q * 2 ^ 0 + r ≡ q = omega arith in
    let right : p * 2 ^ 0 + s ≡ p = omega arith in
    let first : r ≡ 0 = omega arith in
    let second : s ≡ 0 = omega arith in rw (left, right, first, second) (omega arith)
bit_or-parts (suc k) q r p s h j = ground (
  arith,
  bit_or_step (q * 2 ^ suc k + r) (p * 2 ^ suc k + s),
  bit_or_step r s,
  times_pow-suc q k,
  times_pow-suc p k,
  times_pow-suc (bit_or q p) k,
  pow-suc 2 k,
  bit_or-parts k q (r / 2) p (s / 2) (omega (arith, pow-suc 2 k)) (omega (arith, pow-suc 2 k)),
)

bit_or-digits :
    (k a b : ℕ)
    → bit_or a b ≡ bit_or (a / 2 ^ k) (b / 2 ^ k) * 2 ^ k + bit_or (a % 2 ^ k) (b % 2 ^ k)
bit_or-digits k a b =
    ap₂ bit_or (sym (div-add-mod' a (2 ^ k))) (sym (div-add-mod' b (2 ^ k)))
    ∙ bit_or-parts k (a / 2 ^ k) (a % 2 ^ k) (b / 2 ^ k) (b % 2 ^ k)
        (mod-lt a (one-le-pow k 2 (omega arith))) (mod-lt b (one-le-pow k 2 (omega arith)))

bit_or-low : (k a b : ℕ) → bit_or (a % 2 ^ k) (b % 2 ^ k) < 2 ^ k
bit_or-low k a b =
    let pos = one-le-pow k 2 (omega arith) in
    bit_or-lt_pow k (a % 2 ^ k) (b % 2 ^ k) (mod-lt a pos) (mod-lt b pos)

bit_or-div : (k a b : ℕ) → bit_or a b / 2 ^ k ≡ bit_or (a / 2 ^ k) (b / 2 ^ k)
bit_or-div k a b =
    ap (λ x. x / 2 ^ k) (bit_or-digits k a b)
    ∙ mul-add-div_right (one-le-pow k 2 (omega arith)) (bit_or (a / 2 ^ k) (b / 2 ^ k)) _
    ∙ omega (arith, div-eq_of_lt (bit_or-low k a b))

pub bit_or-mod : (k a b : ℕ) → bit_or a b % 2 ^ k ≡ bit_or (a % 2 ^ k) (b % 2 ^ k)
bit_or-mod k a b =
    ap (λ x. x % 2 ^ k) (bit_or-digits k a b)
    ∙ mul-add-mod_self_right (bit_or (a / 2 ^ k) (b / 2 ^ k)) (2 ^ k) _
    ∙ mod-eq_of_lt (bit_or-low k a b)

-- A field of `w` digits from the `s`-th on.
pub bit_or-field :
    (s w a b : ℕ) → bit_or a b / 2 ^ s % 2 ^ w ≡ bit_or (a / 2 ^ s % 2 ^ w) (b / 2 ^ s % 2 ^ w)
bit_or-field s w a b = ap (λ x. x % 2 ^ w) (bit_or-div s a b) ∙ bit_or-mod w (a / 2 ^ s) (b / 2 ^ s)
