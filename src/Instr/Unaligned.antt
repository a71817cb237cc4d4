-- ===== src/Instr/Unaligned.antt =====
-- `lwr` at an address and `lwl` at its last byte (instructions.h) as a pair: the load of a word that
-- is not aligned.
use comparing_complexity_and.Base.{
  ℕ, suc, ◌+◌, ◌-◌, ◌*◌, ◌/◌, ◌%◌, ◌^◌, ◌<◌, ◌≡◌, ◌⊎◌, inl, inr, refl, sym, ap, ap₂, ◌∙◌, arith,
  bit_and, bit_or, List, [], ◌∷◌, ok, ◌>>=◌, >>=-eq-ok, ok-injective, subst,
}
use comparing_complexity_and.Word.{u32, not32, from_bytes}
use comparing_complexity_and.Word.Fields.{
  bit_and-zero, zero-bit_or, bit_or-fields, bit_or-low_field, bit_and-low_field, bit_and-field,
}
use comparing_complexity_and.Memory.{
  Memory, memory_find_page, page_offset, load_bytes, memory_read_u32, memory_copy_read,
}
use comparing_complexity_and.Memory.Flat.{byte_at, read_flat, load_bytes-eq-read_flat}
use comparing_complexity_and.Memory.Copy.{memory_copy_read-eq-read_flat}
use comparing_complexity_and.Memory.Bytes.{IsBytes, memory_read_u32-lt}
use comparing_complexity_and.Instr.Transfer.{lwr_impl, lwl_impl, aligned, shift_of}

-- The four bytes of an aligned word.
record IsWord (m : Memory) (x w : ℕ) : Type 0 where
  b₀ : ℕ
  b₁ : ℕ
  b₂ : ℕ
  b₃ : ℕ
  at₀ : byte_at m x ≡ ok b₀
  at₁ : byte_at m (x + 1) ≡ ok b₁
  at₂ : byte_at m (x + 2) ≡ ok b₂
  at₃ : byte_at m (x + 3) ≡ ok b₃
  value : w ≡ b₀ + 256 * (b₁ + 256 * (b₂ + 256 * b₃))

next_byte :
    (m : Memory) (x y n : ℕ) (bs : List ℕ)
    → u32 (x + 1) ≡ y
    → read_flat m x (suc n) ≡ ok bs
    → (b : ℕ) × (rest : List ℕ) × (byte_at m x ≡ ok b)
      × (read_flat m y n ≡ ok rest)
      × (b ∷ rest ≡ bs)
unfolding read_flat
next_byte m x y n bs e read =
    let (b, here, e₁) = >>=-eq-ok (byte_at m x) _ read in
    let (rest, behind, same) = >>=-eq-ok (read_flat m (u32 (x + 1)) n) _ e₁ in
    (b, rest, here, ap (λ z. read_flat m z n) (sym e) ∙ behind, ok-injective same)

memory_read_u32-IsWord :
    (m : Memory) (x w : ℕ) → x % 4 ≡ 0 → x < 2 ^ 32 → memory_read_u32 m x ≡ ok w → IsWord m x w
unfolding memory_read_u32 read_flat from_bytes
memory_read_u32-IsWord m x w aligned fits e =
    let (bs, loaded, same) = >>=-eq-ok (load_bytes m x 4) _ e in
    let flat = sym (load_bytes-eq-read_flat m x 4 (omega arith) (omega arith)) ∙ loaded in
    let (b₀, bs₀, at₀, flat₀, e₀) = next_byte m x (x + 1) 3 bs (omega arith) flat in
    let (b₁, bs₁, at₁, flat₁, e₁) = next_byte m (x + 1) (x + 2) 2 bs₀ (omega arith) flat₀ in
    let (b₂, bs₂, at₂, flat₂, e₂) = next_byte m (x + 2) (x + 3) 1 bs₁ (omega arith) flat₁ in
    let (b₃, bs₃, at₃, flat₃, e₃) = next_byte m (x + 3) (u32 (x + 4)) 0 bs₂ (omega arith) flat₂ in
    let nil : [] ≡ bs₃ = ok-injective flat₃ in
    let all : b₀ ∷ b₁ ∷ b₂ ∷ b₃ ∷ [] ≡ bs = cc in
    let spelled : from_bytes (b₀ ∷ b₁ ∷ b₂ ∷ b₃ ∷ []) ≡ w = ap from_bytes all ∙ ok-injective same in
    record {
      b₀ = b₀;
      b₁ = b₁;
      b₂ = b₂;
      b₃ = b₃;
      at₀ = at₀;
      at₁ = at₁;
      at₂ = at₂;
      at₃ = at₃;
      value = omega arith;
    }

byte_at-lt : (m : Memory) (x b : ℕ) → IsBytes m → byte_at m x ≡ ok b → b < 256
unfolding byte_at
byte_at-lt m x b h e =
    let (p, found, same) = >>=-eq-ok (memory_find_page m x) _ e in
    subst (λ b. b < 256) (ok-injective same) (h x (page_offset x) p found)

moved : (m : Memory) {x y b : ℕ} → byte_at m x ≡ ok b → x ≡ y → byte_at m y ≡ ok b
moved m {b = b} e same = subst (λ y. byte_at m y ≡ ok b) same e

-- Four bytes in a row.
read_flat_four :
    (m : Memory) (x c₀ c₁ c₂ c₃ : ℕ)
    → x + 3 < 2 ^ 32
    → byte_at m x ≡ ok c₀
    → byte_at m (x + 1) ≡ ok c₁
    → byte_at m (x + 2) ≡ ok c₂
    → byte_at m (x + 3) ≡ ok c₃
    → (memory_copy_read m x 4 >>= λ bs. ok (from_bytes bs))
      ≡ ok (c₀ + 256 * (c₁ + 256 * (c₂ + 256 * c₃)))
unfolding read_flat from_bytes
read_flat_four m x c₀ c₁ c₂ c₃ fits h₀ h₁ h₂ h₃ =
    let e₁ : u32 (x + 1) ≡ x + 1 = omega arith in
    let e₂ : u32 (x + 1 + 1) ≡ x + 2 = omega arith in
    let e₃ : u32 (x + 2 + 1) ≡ x + 3 = omega arith in
    let e₄ : c₃ + 256 * 0 ≡ c₃ = omega arith in
    rw (memory_copy_read-eq-read_flat m x 4 (omega arith), h₀, e₁, h₁, e₂, h₂, e₃, h₃, e₄) refl

-- What `lwl` leaves behind `lwr`, of two words that meet inside the one that is loaded: `t` is the
-- count of digits that `lwr` fills, `s` that of the others.
pair_value :
    (s t old w₀ w₁ : ℕ)
    → 0 < 2 ^ t
    → w₀ / 2 ^ s < 2 ^ t
    → bit_or
        (bit_and (bit_or (bit_and old ((2 ^ s - 1) * 2 ^ t)) (w₀ / 2 ^ s)) (2 ^ t - 1))
        (w₁ % 2 ^ s * 2 ^ t)
      ≡ w₁ % 2 ^ s * 2 ^ t + w₀ / 2 ^ s
pair_value s t old w₀ w₁ pos low =
    let high = bit_and (old / 2 ^ t) (2 ^ s - 1) in
    let split : old ≡ old / 2 ^ t * 2 ^ t + old % 2 ^ t = ground arith in
    let kept : bit_and old ((2 ^ s - 1) * 2 ^ t) ≡ high * 2 ^ t =
      ap (λ a. bit_and a ((2 ^ s - 1) * 2 ^ t)) split
      ∙ bit_and-field t (old / 2 ^ t) (old % 2 ^ t) (2 ^ s - 1) (ground arith) in
    ap (λ v. bit_or (bit_and (bit_or v (w₀ / 2 ^ s)) (2 ^ t - 1)) (w₁ % 2 ^ s * 2 ^ t)) kept
    ∙ ap (λ v. bit_or (bit_and v (2 ^ t - 1)) (w₁ % 2 ^ s * 2 ^ t))
        (bit_or-fields t high (w₀ / 2 ^ s) low)
    ∙ ap (λ v. bit_or v (w₁ % 2 ^ s * 2 ^ t)) (bit_and-low_field t high (w₀ / 2 ^ s) low)
    ∙ bit_or-low_field t (w₁ % 2 ^ s) (w₀ / 2 ^ s) low

-- `lwr` and then `lwl` on the same register, by the shifts of the two and the words that they read.
abbrev pair : ℕ → ℕ → ℕ → ℕ → ℕ → ℕ
pair r l old w₀ w₁ =
    let v = bit_or (bit_and old (not32 (0xffffffff / 2 ^ r))) (w₀ / 2 ^ r) in
    bit_or (bit_and v (not32 (u32 (0xffffffff * 2 ^ (24 - l))))) (u32 (w₁ * 2 ^ (24 - l)))

record ReadsPair (m : Memory) (a old w : ℕ) : Type 0 where
  w₀ : ℕ
  w₁ : ℕ
  first : memory_read_u32 m (aligned a) ≡ ok w₀
  last : memory_read_u32 m (aligned (a + 3)) ≡ ok w₁
  value : w ≡ pair (shift_of a) (shift_of (a + 3)) old w₀ w₁

lwr-lwl-ReadsPair :
    (m : Memory) (a old v w : ℕ)
    → lwr_impl m a old ≡ ok v
    → lwl_impl m (a + 3) v ≡ ok w
    → ReadsPair m a old w
unfolding lwr_impl lwl_impl
lwr-lwl-ReadsPair m a old v w right left =
    let (w₀, first, e) = >>=-eq-ok (memory_read_u32 m (aligned a)) _ right in
    let (w₁, last, e') = >>=-eq-ok (memory_read_u32 m (aligned (a + 3))) _ left in
    let shift = 24 - shift_of (a + 3) in
    record {
      w₀ = w₀;
      w₁ = w₁;
      first = first;
      last = last;
      value =
          sym (ok-injective e')
          ∙ ap
              (λ v.
                bit_or (bit_and v (not32 (u32 (0xffffffff * 2 ^ shift)))) (u32 (w₁ * 2 ^ shift)))
              (sym (ok-injective e));
    }

-- A value of the pair at given shifts.
pair_at :
    (m : Memory) (a old w r l x : ℕ) (h : ReadsPair m a old w)
    → shift_of a ≡ r
    → shift_of (a + 3) ≡ l
    → pair r l old h.w₀ h.w₁ ≡ x
    → w ≡ x
pair_at m a old w r l x h right left e =
    h.value ∙ ap₂ (λ r l. pair r l old h.w₀ h.w₁) right left ∙ e

-- The three addresses inside a word.
pair_one : (old w₀ w₁ : ℕ) → w₀ < 2 ^ 32 → pair 8 0 old w₀ w₁ ≡ w₁ % 2 ^ 8 * 2 ^ 24 + w₀ / 2 ^ 8
pair_one old w₀ w₁ h =
    let kept : u32 (w₁ * 2 ^ 24) ≡ w₁ % 2 ^ 8 * 2 ^ 24 = omega arith in
    rw kept (pair_value 8 24 old w₀ w₁ (omega arith) (omega arith))

pair_two : (old w₀ w₁ : ℕ) → w₀ < 2 ^ 32 → pair 16 8 old w₀ w₁ ≡ w₁ % 2 ^ 16 * 2 ^ 16 + w₀ / 2 ^ 16
pair_two old w₀ w₁ h =
    let kept : u32 (w₁ * 2 ^ 16) ≡ w₁ % 2 ^ 16 * 2 ^ 16 = omega arith in
    rw kept (pair_value 16 16 old w₀ w₁ (omega arith) (omega arith))

pair_three :
    (old w₀ w₁ : ℕ) → w₀ < 2 ^ 32 → pair 24 16 old w₀ w₁ ≡ w₁ % 2 ^ 24 * 2 ^ 8 + w₀ / 2 ^ 24
pair_three old w₀ w₁ h =
    let kept : u32 (w₁ * 2 ^ 8) ≡ w₁ % 2 ^ 24 * 2 ^ 8 = omega arith in
    rw kept (pair_value 24 8 old w₀ w₁ (omega arith) (omega arith))

pair_zero : (old w₀ w₁ : ℕ) → w₁ < 2 ^ 32 → pair 0 24 old w₀ w₁ ≡ w₁
pair_zero old w₀ w₁ h =
    let kept : u32 (w₁ * 2 ^ 0) ≡ w₁ = omega arith in
    rw (bit_and-zero (bit_or (bit_and old 0) (w₀ / 2 ^ 0)), kept) (zero-bit_or w₁)

four_cases : (k : ℕ) → k < 4 → (k ≡ 0) ⊎ (k ≡ 1) ⊎ (k ≡ 2) ⊎ (k ≡ 3)
four_cases k h = ground arith

-- `lwr` at an address and then `lwl` at the address of the word's last byte, when both return, leave
-- in the register the word of the four bytes from the address on, at whatever place of an aligned
-- word it starts and whatever the register held before.
pub lwr_impl-lwl_impl :
    (m : Memory) (a old v w : ℕ)
    → a + 3 < 2 ^ 32
    → IsBytes m
    → lwr_impl m a old ≡ ok v
    → lwl_impl m (a + 3) v ≡ ok w
    → (memory_copy_read m a 4 >>= λ bs. ok (from_bytes bs)) ≡ ok w
lwr_impl-lwl_impl m a old v w fits bytes right left =
    let h = lwr-lwl-ReadsPair m a old v w right left in
    let f = memory_read_u32-IsWord m (aligned a) h.w₀ (omega arith) (omega arith) h.first in
    let g = memory_read_u32-IsWord m (aligned (a + 3)) h.w₁ (omega arith) (omega arith) h.last in
    let fits₀ = memory_read_u32-lt m (aligned a) h.w₀ bytes h.first in
    let fits₁ = memory_read_u32-lt m (aligned (a + 3)) h.w₁ bytes h.last in
    let f_value = f.value in
    let g_value = g.value in
    let f₀ = byte_at-lt m _ f.b₀ bytes f.at₀ in
    let f₁ = byte_at-lt m _ f.b₁ bytes f.at₁ in
    let f₂ = byte_at-lt m _ f.b₂ bytes f.at₂ in
    let g₀ = byte_at-lt m _ g.b₀ bytes g.at₀ in
    let g₁ = byte_at-lt m _ g.b₁ bytes g.at₁ in
    let g₂ = byte_at-lt m _ g.b₂ bytes g.at₂ in
    elim (four_cases (a % 4) (omega arith)) [
      | inl e ↦
          let value =
            pair_at m a old w 0 24 _ h (omega arith) (omega arith)
              (pair_zero old h.w₀ h.w₁ fits₁) in
          read_flat_four m a g.b₀ g.b₁ g.b₂ g.b₃ fits (moved m g.at₀ (omega arith))
            (moved m g.at₁ (omega arith)) (moved m g.at₂ (omega arith))
            (moved m g.at₃ (omega arith))
          ∙ ap ok (omega arith)
      | inr (inl e) ↦
          let value =
            pair_at m a old w 8 0 _ h (omega arith) (omega arith) (pair_one old h.w₀ h.w₁ fits₀) in
          read_flat_four m a f.b₁ f.b₂ f.b₃ g.b₀ fits (moved m f.at₁ (omega arith))
            (moved m f.at₂ (omega arith)) (moved m f.at₃ (omega arith))
            (moved m g.at₀ (omega arith))
          ∙ ap ok (omega arith)
      | inr (inr (inl e)) ↦
          let value =
            pair_at m a old w 16 8 _ h (omega arith) (omega arith) (pair_two old h.w₀ h.w₁ fits₀) in
          read_flat_four m a f.b₂ f.b₃ g.b₀ g.b₁ fits (moved m f.at₂ (omega arith))
            (moved m f.at₃ (omega arith)) (moved m g.at₀ (omega arith))
            (moved m g.at₁ (omega arith))
          ∙ ap ok (omega arith)
      | inr (inr (inr e)) ↦
          let value =
            pair_at m a old w 24 16 _ h (omega arith) (omega arith)
              (pair_three old h.w₀ h.w₁ fits₀) in
          read_flat_four m a f.b₃ g.b₀ g.b₁ g.b₂ fits (moved m f.at₃ (omega arith))
            (moved m g.at₀ (omega arith)) (moved m g.at₁ (omega arith))
            (moved m g.at₂ (omega arith))
          ∙ ap ok (omega arith)
    ]
