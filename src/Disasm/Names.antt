-- ===== src/Disasm/Names.antt =====
-- What `print_mips_registers` (mips.h) prints is read back as the registers.
use comparing_complexity_and.Base.{
  ℕ, zero, suc, ◌^◌, ◌<◌, ◌≡◌, refl, ap, ap₂, ◌∙◌, arith, ◌==◌, ◌&&◌, not, Bool, true, false,
  if◌then◌else◌, Bool-cases, inl, inr, get_or, Option, none, some, List, [], ◌∷◌, ◌++◌, drop, map,
  AllOf,
}
use comparing_complexity_and.Machine.{Mips, IsRegs, mips_r_reg_max}
use comparing_complexity_and.Disasm.Text.{codes, hex_padded, read_hex, read_hex-hex_padded}
use comparing_complexity_and.Disasm.Format.{register_name, register_names}
use comparing_complexity_and.Disasm.Registers.{
  print_registers, print_mips_registers, before_colon, after_colon, read_register, same_text,
  value_of, read_registers, known_registers,
}

abbrev has_no_colon : List ℕ → Bool
has_no_colon [] = true
has_no_colon (c ∷ cs) = not (c == 58) && has_no_colon cs

&&-true : (a b : Bool) → a && b ≡ true → (a ≡ true) × (b ≡ true)
&&-true true b h = (refl, h)
&&-true false b h = cc

after_colon-append :
    (name rest : List ℕ) → has_no_colon name ≡ true → after_colon (name ++ (58 ∷ rest)) ≡ rest
after_colon-append [] rest h = refl
after_colon-append (c ∷ name) rest h = elim (Bool-cases (c == 58)) [
  | inl colon ↦ absurd (ground arith)
  | inr other ↦ rw other (after_colon-append name rest (ground arith))
]

before_colon-append :
    (name rest : List ℕ) → has_no_colon name ≡ true → before_colon (name ++ (58 ∷ rest)) ≡ name
before_colon-append [] rest h = refl
before_colon-append (c ∷ name) rest h = elim (Bool-cases (c == 58)) [
  | inl colon ↦ absurd (ground arith)
  | inr other ↦ rw other (ap (λ cs. c ∷ cs) (before_colon-append name rest (ground arith)))
]

no_colons : List (List ℕ) → Bool
no_colons [] = true
no_colons (name ∷ names) = has_no_colon name && no_colons names

get_or-has_no_colon :
    (names : List (List ℕ)) (k : ℕ)
    → no_colons names ≡ true
    → has_no_colon (get_or names k []) ≡ true
unfolding no_colons
get_or-has_no_colon [] k h = refl
get_or-has_no_colon (name ∷ names) zero h = (&&-true (has_no_colon name) _ h).0
get_or-has_no_colon (name ∷ names) (suc k) h =
    get_or-has_no_colon names k (&&-true (has_no_colon name) _ h).1

register_names_plain : no_colons register_names ≡ true
unfolding no_colons
register_names_plain = refl

read_register-line :
    (k v : ℕ)
    → v < 2 ^ 32
    → read_register (register_name k ++ (codes ": 0x" ++ (hex_padded 8 v ++ codes "\n")))
      ≡ (register_name k, v)
unfolding read_register
read_register-line k v h =
    let behind = codes " 0x" ++ (hex_padded 8 v ++ codes "\n") in
    let plain = get_or-has_no_colon register_names k register_names_plain in
    ap₂ (λ name value. (name, value)) (before_colon-append (register_name k) behind plain)
      (ap (λ cs. (read_hex 0 (drop 3 cs)).0) (after_colon-append (register_name k) behind plain)
        ∙ ap (λ (a : ℕ × List ℕ). a.0) (read_hex-hex_padded 8 v (codes "\n") h refl))

-- The registers from the `k`-th on, each with its name.
abbrev registers_from : ℕ → ℕ → (ℕ → ℕ) → List (List ℕ × ℕ)
registers_from zero k r = []
registers_from (suc n) k r = (register_name k, r k) ∷ registers_from n (suc k) r

print_registers-read :
    (n k : ℕ) (mips : Mips)
    → IsRegs mips.r
    → map read_register (print_registers n k mips) ≡ registers_from n k mips.r
unfolding print_registers
print_registers-read zero k mips h = refl
print_registers-read (suc n) k mips h =
    ap₂ (λ v vs. v ∷ vs) (read_register-line k (mips.r k) (h k))
      (print_registers-read n (suc k) mips h)

-- The printed registers, read back: a line for each of the 39, in order, with its value.
read_registers-eq :
    (mips : Mips) → IsRegs mips.r → read_registers mips ≡ registers_from mips_r_reg_max 0 mips.r
unfolding print_mips_registers
read_registers-eq mips h = print_registers-read mips_r_reg_max 0 mips h

-- The number of the register with a name.
index_of : List ℕ → ℕ → ℕ → Option ℕ
index_of name zero k = none
index_of name (suc n) k =
    let rest = index_of name n (suc k) in if same_text (register_name k) name then some k else rest

abbrev at_index : (ℕ → ℕ) → Option ℕ → Option ℕ
at_index r none = none
at_index r (some i) = some (r i)

value_of-registers_from :
    (name : List ℕ) (n k v : ℕ) (r : ℕ → ℕ)
    → index_of name n k ≡ some v
    → value_of name (registers_from n k r) ≡ some (r v)
unfolding index_of
value_of-registers_from name zero k v r h = cc
value_of-registers_from name (suc n) k v r h =
    elim (Bool-cases (same_text (register_name k) name)) [
      | inl same ↦
          let here : ◌≡◌ {A = Option ℕ} (some k) (some v) = rw same at h in
          rw same (ap (at_index r) here)
      | inr other ↦
          let there : index_of name n (suc k) ≡ some v = rw other at h in
          rw other (value_of-registers_from name n (suc k) v r there)
    ]

has_index : Option ℕ → ℕ → Bool
has_index none k = false
has_index (some i) k = i == k

has_index-true : (o : Option ℕ) (k : ℕ) → has_index o k ≡ true → o ≡ some k
unfolding has_index
has_index-true none k h = cc
has_index-true (some i) k h = ap some (ground arith)

all_indexed : List (List ℕ × ℕ) → Bool
all_indexed [] = true
all_indexed (entry ∷ entries) =
    has_index (index_of entry.0 mips_r_reg_max 0) entry.1 && all_indexed entries

all_indexed-values :
    (entries : List (List ℕ × ℕ)) (r : ℕ → ℕ)
    → all_indexed entries ≡ true
    → AllOf (λ e. value_of e.0 (registers_from mips_r_reg_max 0 r) ≡ some (r e.1)) entries
unfolding all_indexed
all_indexed-values [] r h = tt
all_indexed-values (entry ∷ entries) r h =
    let index = index_of entry.0 mips_r_reg_max 0 in
    let (here, there) = &&-true (has_index index entry.1) (all_indexed entries) h in
    (
      value_of-registers_from entry.0 mips_r_reg_max 0 entry.1 r
          (has_index-true index entry.1 here),
      all_indexed-values entries r there,
    )

known_registers_indexed : all_indexed known_registers ≡ true
unfolding all_indexed has_index index_of
known_registers_indexed = refl

-- Where the lines behind the heading are searched for a register by its name, the value found is
-- that of the register with this number in the MIPS calling convention, or with this name's
-- constant for `hi`, `lo` and the three program counters, when the registers hold a u32.
pub print_mips_registers-names :
    (mips : Mips)
    → IsRegs mips.r
    → AllOf (λ e. value_of e.0 (read_registers mips) ≡ some (mips.r e.1)) known_registers
print_mips_registers-names mips h =
    rw (read_registers-eq mips h)
      (all_indexed-values known_registers mips.r known_registers_indexed)
