-- ===== src/Word.antt =====
-- The integer types of common.h (lines 31-39): a value of an unsigned type is its number, a value
-- of a signed type is kept as its bit pattern and read by `signed`. Shifts and masks by constants
-- are written as division and remainder by powers of two.
pub mod Int
pub mod Bits
pub mod Fields
use Int.{ℤ, pos, negsuc}
use comparing_complexity_and.Base.{
  ℕ, zero, suc, ◌+◌, ◌-◌, ◌*◌, ◌/◌, ◌%◌, ◌^◌, ltb, if◌then◌else◌, List, [], ◌∷◌,
}

abbrev pub u8 : ℕ → ℕ
u8 n = n % 2 ^ 8

abbrev pub u16 : ℕ → ℕ
u16 n = n % 2 ^ 16

abbrev pub u32 : ℕ → ℕ
u32 n = n % 2 ^ 32

-- The value of a `w`-bit pattern as a signed number: `(s32) x`, `(s16) x`, `(s8) x`.
abbrev pub s32 : ℕ → ℤ
s32 x = if ltb x (2 ^ 31) then pos x else negsuc (2 ^ 32 - x - 1)

abbrev pub s16 : ℕ → ℤ
s16 x = if ltb x (2 ^ 15) then pos x else negsuc (2 ^ 16 - x - 1)

abbrev pub s8 : ℕ → ℤ
s8 x = if ltb x (2 ^ 7) then pos x else negsuc (2 ^ 8 - x - 1)

-- The conversion of a signed number to `u32` and to `u64`.
abbrev pub u32_of : ℤ → ℕ
u32_of (pos n) = n % 2 ^ 32
u32_of (negsuc n) = 2 ^ 32 - 1 - n % 2 ^ 32

abbrev pub u64_of : ℤ → ℕ
u64_of (pos n) = n % 2 ^ 64
u64_of (negsuc n) = 2 ^ 64 - 1 - n % 2 ^ 64

-- `~x` of a `u32`.
abbrev pub not32 : ℕ → ℕ
not32 x = 2 ^ 32 - 1 - x

-- The bytes of a number on the little-endian host, and the number that bytes spell.
unfoldable pub to_bytes : ℕ → ℕ → List ℕ
to_bytes zero v = []
to_bytes (suc n) v = v % 256 ∷ to_bytes n (v / 256)

unfoldable pub from_bytes : List ℕ → ℕ
from_bytes [] = 0
from_bytes (b ∷ bs) = b + 256 * from_bytes bs
