-- ===== src/Memory/Access.antt =====
-- What the accesses of memory.h and memory.c do to the byte at each address.
use comparing_complexity_and.Base.{
  ℕ, zero, suc, ◌+◌, ◌-◌, ◌/◌, ◌^◌, ◌≤◌, ◌<◌, ◌≡◌, inl, inr, refl, sym, ap, ◌∙◌, arith, ltb, ◌==◌,
  if◌then◌else◌, true, false, List, [], ◌∷◌, length, replicate, length-replicate, get_or, ok,
  Bool-cases, >>=-eq-ok,
}
use comparing_complexity_and.Word.{u8, u32, to_bytes, from_bytes}
use comparing_complexity_and.Memory.{
  Memory, page_offset, memory_find_page, load_bytes, store_bytes, memory_copy_read,
  memory_copy_write, memory_set, memory_read_u32, memory_write_u32,
}
use comparing_complexity_and.Memory.Flat.{
  byte_at, write_byte, read_flat, write_flat, byte_at-write_byte, load_bytes-eq-read_flat,
  store_bytes-eq-write_flat,
}
use comparing_complexity_and.Memory.Copy.{
  memory_copy_read-eq-read_flat, memory_copy_write-eq-write_flat, memory_set-eq-write_flat,
}

-- How far `y` lies behind `x`, around the end of the address space.
abbrev pub distance : ℕ → ℕ → ℕ
distance x y = u32 (y + 2 ^ 32 - x)

pub byte_at-write_flat :
    (m m' : Memory) (x y : ℕ) (bs : List ℕ)
    → x < 2 ^ 32
    → y < 2 ^ 32
    → length bs ≤ 2 ^ 32
    → write_flat m x bs ≡ ok m'
    → byte_at m' y
      ≡ (if ltb (distance x y) (length bs) then ok (get_or bs (distance x y) 0) else byte_at m y)
unfolding write_flat
byte_at-write_flat m m' x y [] hx hy small e = ground arith
byte_at-write_flat m m' x y (b ∷ bs) hx hy small e =
    let (m₁, first, rest) = >>=-eq-ok (write_byte m x b) _ e in
    let ih = byte_at-write_flat m₁ m' (u32 (x + 1)) y bs (omega arith) hy (omega arith) rest in
    let one = byte_at-write_byte m x y b hx hy first in
    elim (Bool-cases (y == x)) [
      | inl same ↦
          let e₀ : distance x y ≡ 0 = ground arith in
          let far : ltb (distance (u32 (x + 1)) y) (length bs) ≡ false = ground arith in
          let near : ltb 0 (suc (length bs)) ≡ true = ground arith in
          rw (e₀, near, ih, far, one, same)
      | inr other ↦
          let e₁ : distance x y ≡ suc (distance (u32 (x + 1)) y) = ground arith in
          rw (e₁, ih, one, other) (ground arith)
    ]

read_flat-eq-ok :
    (m : Memory) (x : ℕ) (bs : List ℕ)
    → x < 2 ^ 32
    → ((i : ℕ) → i < length bs → byte_at m (u32 (x + i)) ≡ ok (get_or bs i 0))
    → read_flat m x (length bs) ≡ ok bs
unfolding read_flat
read_flat-eq-ok m x [] hx h = refl
read_flat-eq-ok m x (b ∷ bs) hx h =
    let e : u32 (x + 0) ≡ x = omega arith in
    let first : byte_at m x ≡ ok b = rw e at (h 0 (omega arith)) in
    let rest = read_flat-eq-ok m (u32 (x + 1)) bs (omega arith) (λ i p.
      let e' : u32 (u32 (x + 1) + i) ≡ u32 (x + suc i) = omega arith in
      rw e' (h (suc i) (omega arith))) in
    rw (first, rest)

-- What was stored is read back.
pub read_flat-write_flat :
    (m m' : Memory) (x : ℕ) (bs : List ℕ)
    → x < 2 ^ 32
    → length bs ≤ 2 ^ 32
    → write_flat m x bs ≡ ok m'
    → read_flat m' x (length bs) ≡ ok bs
read_flat-write_flat m m' x bs hx small e = read_flat-eq-ok m' x bs hx λ i p.
    let at = byte_at-write_flat m m' x (u32 (x + i)) bs hx (omega arith) small e in
    let d : distance x (u32 (x + i)) ≡ i = omega arith in
    let inside : ltb i (length bs) ≡ true = ground arith in at ∙ rw (d, inside)

-- Reading a buffer back after a copy of it into the guest that returned gives the buffer, at any
-- 32-bit address, across pages, up to 2 ^ 32 bytes.
pub memory_copy_read-memory_copy_write :
    (m m' : Memory) (address : ℕ) (buffer : List ℕ)
    → address < 2 ^ 32
    → length buffer ≤ 2 ^ 32
    → memory_copy_write m address (length buffer) buffer ≡ ok m'
    → memory_copy_read m' address (length buffer) ≡ ok buffer
memory_copy_read-memory_copy_write m m' address buffer h small e =
    memory_copy_read-eq-read_flat m' address (length buffer) h
    ∙ read_flat-write_flat m m' address buffer h small
        (sym (memory_copy_write-eq-write_flat m address (length buffer) buffer h refl) ∙ e)

-- After a copy into the guest that returned, a 32-bit address in the range (from the start on,
-- modulo 2 ^ 32) holds the byte of the buffer, and any other one what it held.
pub byte_at-memory_copy_write :
    (m m' : Memory) (address y : ℕ) (buffer : List ℕ)
    → address < 2 ^ 32
    → y < 2 ^ 32
    → length buffer ≤ 2 ^ 32
    → memory_copy_write m address (length buffer) buffer ≡ ok m'
    → byte_at m' y ≡ (
        if ltb (distance address y) (length buffer)
        then ok (get_or buffer (distance address y) 0)
        else byte_at m y)
byte_at-memory_copy_write m m' address y buffer h hy small e =
    byte_at-write_flat m m' address y buffer h hy small
      (sym (memory_copy_write-eq-write_flat m address (length buffer) buffer h refl) ∙ e)

-- A store that returns lies in one page, and is a flat write.
pub store_bytes-write_flat :
    (m m' : Memory) (address : ℕ) (bs : List ℕ)
    → 0 < length bs
    → store_bytes m address bs ≡ ok m'
    → (page_offset address + length bs ≤ 4096) × (write_flat m address bs ≡ ok m')
unfolding store_bytes
store_bytes-write_flat m m' address bs pos e =
    let (p, found, stored) = >>=-eq-ok (memory_find_page m address) _ e in
    let fits : page_offset address + length bs ≤ 4096 = ground arith in
    (fits, sym (store_bytes-eq-write_flat m address bs pos fits) ∙ e)

length-to_bytes : (n v : ℕ) → length (to_bytes n v) ≡ n
unfolding to_bytes
length-to_bytes zero v = refl
length-to_bytes (suc n) v = ap suc (length-to_bytes n (v / 256))

load_bytes-store_bytes :
    (m m' : Memory) (address n v : ℕ)
    → 0 < n
    → n ≤ 8
    → address < 2 ^ 32
    → store_bytes m address (to_bytes n v) ≡ ok m'
    → load_bytes m' address n ≡ ok (to_bytes n v)
load_bytes-store_bytes m m' address n v pos small h e =
    let l = length-to_bytes n v in
    let (fits, flat) = store_bytes-write_flat m m' address (to_bytes n v) (rw l pos) e in
    load_bytes-eq-read_flat m' address n pos (rw l at fits)
    ∙ (rw l at (read_flat-write_flat m m' address (to_bytes n v) h (rw l (omega arith)) flat))

-- A word stored at a 32-bit address without a fault is loaded back, cut to 32 bits.
pub memory_read_u32-memory_write_u32 :
    (m m' : Memory) (address v : ℕ)
    → address < 2 ^ 32
    → memory_write_u32 m address v ≡ ok m'
    → memory_read_u32 m' address ≡ ok (u32 v)
unfolding memory_read_u32 memory_write_u32
memory_read_u32-memory_write_u32 m m' address v h e =
    rw (load_bytes-store_bytes m m' address 4 v (omega arith) (omega arith) h e)
      (unfold to_bytes from_bytes in ap ok (omega arith))

get_or-replicate : (n d b : ℕ) → d < n → get_or (replicate n b) d 0 ≡ b
get_or-replicate zero d b p = absurd (omega arith)
get_or-replicate (suc n) zero b p = refl
get_or-replicate (suc n) (suc d) b p = get_or-replicate n d b (omega arith)

-- What a cleared range holds.
pub byte_at-memory_set :
    (m m' : Memory) (x y n : ℕ)
    → x < 2 ^ 32
    → y < 2 ^ 32
    → n ≤ 2 ^ 32
    → memory_set m x n 0 ≡ ok m'
    → byte_at m' y ≡ (if ltb (distance x y) n then ok 0 else byte_at m y)
byte_at-memory_set m m' x y n hx hy small e =
    let zeros : List ℕ = replicate n (u8 0) in
    let l : length zeros ≡ n = length-replicate n (u8 0) in
    let flat = sym (memory_set-eq-write_flat m x n 0 hx) ∙ e in
    let at = byte_at-write_flat m m' x y zeros hx hy (rw l small) flat in
    elim (Bool-cases (ltb (distance x y) n)) [
      | inl inside ↦
          let lt : distance x y < n = ground arith in
          let pick : get_or zeros (distance x y) 0 ≡ 0 =
            get_or-replicate n (distance x y) (u8 0) lt in
          at ∙ rw (l, inside, pick)
      | inr outside ↦ at ∙ rw (l, outside)
    ]
