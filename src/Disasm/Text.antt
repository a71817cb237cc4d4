-- ===== src/Disasm/Text.antt =====
-- The conversions of `printf` that the formatters of instructions.h and `print_mips_registers` of
-- mips.h use, as the text that they give: `%s`, `%x`, `%08x` and its shorter forms, `%d` and `%hd`.
-- A reader of hexadecimal digits goes the other way.
use Prim.Native.Char.{code}
use Prim.Native.String.{String}
use native.Mathlib.Nat.{pow-suc}
use comparing_complexity_and.Base.{
  ℕ, zero, suc, ◌+◌, ◌-◌, ◌*◌, ◌/◌, ◌%◌, ◌^◌, ◌<◌, ◌≤◌, ◌≡◌, inl, inr, refl, ap, ◌∙◌, arith, ltb,
  leb, ◌&&◌, if◌then◌else◌, Bool-cases, Option, none, some, List, [], ◌∷◌, ◌++◌, length, replicate,
}
use comparing_complexity_and.Word.Int.{ℤ, pos, negsuc}

-- The codes of a text. `String` has its own `[]` and `∷`.
abbrev pub codes : String → List ℕ
codes String.[] = []
codes (String.◌∷◌ c s) = code c ∷ codes s

-- A digit of a value below sixteen.
abbrev pub digit : ℕ → ℕ
digit v = if ltb v 10 then 48 + v else 87 + v

-- The digits of a number, at most `fuel` of them, without leading zeros.
abbrev pub hex_from : ℕ → ℕ → List ℕ
hex_from zero n = []
hex_from (suc fuel) n =
    let more = hex_from fuel (n / 16) in (if ltb n 16 then [] else more) ++ digit (n % 16) ∷ []

abbrev pub dec_from : ℕ → ℕ → List ℕ
dec_from zero n = []
dec_from (suc fuel) n =
    let more = dec_from fuel (n / 10) in (if ltb n 10 then [] else more) ++ digit (n % 10) ∷ []

-- `%x` of a `u32`, which has at most eight digits.
unfoldable pub hex : ℕ → List ℕ
hex n = hex_from 8 n

-- `%0wx`: zeros in front up to `w` digits.
unfoldable pub hex_padded : ℕ → ℕ → List ℕ
hex_padded w n = replicate (w - length (hex_from 8 n)) 48 ++ hex_from 8 n

-- `%d` of a small number, and `%hd` of one whose sixteen bits are a signed number.
unfoldable pub dec : ℕ → List ℕ
dec n = dec_from 10 n

unfoldable pub signed : ℤ → List ℕ
signed (pos n) = dec_from 10 n
signed (negsuc n) = 45 ∷ dec_from 10 (suc n)

-- The value of a digit, where the character is one.
abbrev pub digit_value : ℕ → Option ℕ
digit_value c =
    if leb 48 c && leb c 57
    then some (c - 48)
    else if leb 97 c && leb c 102
    then some (c - 87)
    else none

-- The number that a text starts with, in hexadecimal, and the text behind it.
unfoldable pub read_hex : ℕ → List ℕ → ℕ × List ℕ
read_hex n [] = (n, [])
read_hex n (c ∷ cs) = elim (digit_value c) [
  | none ↦ (n, c ∷ cs)
  | some v ↦ read_hex (n * 16 + v) cs
]

digit_value-digit : (v : ℕ) → v < 16 → digit_value (digit v) ≡ some v
digit_value-digit v h = ground arith

read_digit :
    (n v : ℕ) (rest : List ℕ) → v < 16 → read_hex n (digit v ∷ rest) ≡ read_hex (n * 16 + v) rest
unfolding read_hex
read_digit n v rest h = let e = digit_value-digit v h in rw (read_hex, e) refl

++_assoc : (a b c : List ℕ) → (a ++ b) ++ c ≡ a ++ (b ++ c)
++_assoc [] b c = refl
++_assoc (x ∷ a) b c = ap (λ r. x ∷ r) (++_assoc a b c)

-- Digits are read back, whatever stands behind them.
read_hex-hex_from :
    (fuel n : ℕ) (rest : List ℕ)
    → 0 < fuel
    → n < 16 ^ fuel
    → read_hex 0 (hex_from fuel n ++ rest) ≡ read_hex n rest
read_hex-hex_from zero n rest h k = absurd (omega arith)
read_hex-hex_from (suc fuel) n rest h k =
    let small : n / 16 < 16 ^ fuel = omega (arith, pow-suc 16 fuel) in
    elim (Bool-cases (ltb n 16)) [
      | inl one ↦
          let same : 0 * 16 + n % 16 ≡ n = ground arith in
          rw one (read_digit 0 (n % 16) rest (omega arith) ∙ ap (λ v. read_hex v rest) same)
      | inr several ↦
          let digits = hex_from fuel (n / 16) in
          let same : n / 16 * 16 + n % 16 ≡ n = omega arith in
          rw several (
            ap (read_hex 0) (++_assoc digits (digit (n % 16) ∷ []) rest)
            ∙ read_hex-hex_from fuel (n / 16) (digit (n % 16) ∷ rest)
                (has_fuel fuel k (ground arith)) small
            ∙ read_digit (n / 16) (n % 16) rest (omega arith)
            ∙ ap (λ v. read_hex v rest) same)
    ]
  where
    has_fuel : (fuel : ℕ) → n < 16 ^ suc fuel → 16 ≤ n → 0 < fuel
    has_fuel zero a b = omega arith
    has_fuel (suc fuel) a b = omega arith

read_zeros : (k : ℕ) (rest : List ℕ) → read_hex 0 (replicate k 48 ++ rest) ≡ read_hex 0 rest
unfolding read_hex
read_zeros zero rest = refl
read_zeros (suc k) rest = read_zeros k rest

-- A text that starts with no digit.
abbrev pub Ends : List ℕ → Type 0
Ends [] = Unit
Ends (c ∷ cs) = digit_value c ≡ none

read_hex-Ends : (n : ℕ) (rest : List ℕ) → Ends rest → read_hex n rest ≡ (n, rest)
unfolding read_hex
read_hex-Ends n [] h = refl
read_hex-Ends n (c ∷ cs) h = rw (read_hex, h) refl

-- What `%x` prints of a `u32` is read back as that number.
pub read_hex-hex :
    (n : ℕ) (rest : List ℕ) → n < 2 ^ 32 → Ends rest → read_hex 0 (hex n ++ rest) ≡ (n, rest)
unfolding hex
read_hex-hex n rest h ends =
    read_hex-hex_from 8 n rest (omega arith) (omega arith) ∙ read_hex-Ends n rest ends

pub read_hex-hex_padded :
    (w n : ℕ) (rest : List ℕ)
    → n < 2 ^ 32
    → Ends rest
    → read_hex 0 (hex_padded w n ++ rest) ≡ (n, rest)
unfolding hex_padded
read_hex-hex_padded w n rest h ends =
    ap (read_hex 0) (++_assoc (replicate (w - length (hex_from 8 n)) 48) (hex_from 8 n) rest)
    ∙ read_zeros _ (hex_from 8 n ++ rest)
    ∙ read_hex-hex_from 8 n rest (omega arith) (omega arith)
    ∙ read_hex-Ends n rest ends
