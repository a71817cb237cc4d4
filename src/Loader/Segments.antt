-- ===== src/Loader/Segments.antt =====
-- The bytes of a segment that the loader has filled (`loader_load_segments` in loader.c).
use comparing_complexity_and.Base.{
  ℕ, ◌+◌, ◌-◌, ◌%◌, ◌^◌, ◌≤◌, ◌<◌, ◌≡◌, inl, inr, refl, sym, ap, ◌∙◌, arith, ltb, ◌==◌,
  if◌then◌else◌, Bool, true, false, List, length, get_or, Result, ok, fault, Bool-cases, >>=-eq-ok,
  assert_then, ok-injective,
}
use comparing_complexity_and.Word.{u32}
use comparing_complexity_and.Memory.{Memory, memory_copy_write, memory_set}
use comparing_complexity_and.Memory.Flat.{byte_at}
use comparing_complexity_and.Memory.Access.{distance, byte_at-memory_set}
use comparing_complexity_and.Syscall.{filled_buffer}
use comparing_complexity_and.Syscall.Io.{get_or-filled_buffer, byte_at-copied}
use comparing_complexity_and.Loader.{Phdr, ElfFile, fill_segment}

unless_fault {ℓ} :
    {B : Type ℓ} {b : B} (test : Bool) (call : Result B)
    → (if test then fault else call) ≡ ok b
    → (test ≡ false) × (call ≡ ok b)
unless_fault true call h = cc
unless_fault false call h = (refl, h)

byte_at-tail :
    (v k n : ℕ) (m m' : Memory) (y : ℕ)
    → v < 2 ^ 32
    → n < 2 ^ 32
    → y < 2 ^ 32
    → k ≤ n
    → (if ltb k n then memory_set m (u32 (v + k)) (n - k) 0 else ok m) ≡ ok m'
    → byte_at m' y ≡ (
        if ltb (distance v y) k
        then byte_at m y
        else (if ltb (distance v y) n then ok 0 else byte_at m y))
byte_at-tail v k n m m' y hv hn hy le f = elim (Bool-cases (ltb k n)) [
  | inl more ↦
      let e : memory_set m (u32 (v + k)) (n - k) 0 ≡ ok m' = rw more at f in
      let at = byte_at-memory_set m m' (u32 (v + k)) y (n - k) (omega arith) hy (omega arith) e in
      at ∙ ground arith
  | inr all ↦
      let e : ok m ≡ ok m' = rw all at f in
      let same : k ≡ n = ground arith in
      sym (ap (λ (r : Memory). byte_at r y) (ok-injective e)) ∙ ground arith
]

byte_at-cleared :
    (g : ℕ → ℕ) (bs : List ℕ) (v k n : ℕ) (m m₁ m' : Memory) (y : ℕ)
    → v < 2 ^ 32
    → n < 2 ^ 32
    → y < 2 ^ 32
    → length bs ≡ k
    → k ≤ n
    → memory_copy_write m v n (filled_buffer g bs 0 n) ≡ ok m₁
    → (if ltb k n then memory_set m₁ (u32 (v + k)) (n - k) 0 else ok m₁) ≡ ok m'
    → byte_at m' y ≡ (
        if ltb (distance v y) k
        then ok (get_or bs (distance v y) 0 % 256)
        else (if ltb (distance v y) n then ok 0 else byte_at m y))
byte_at-cleared g bs v k n m m₁ m' y hv hn hy l le e f =
    let at = byte_at-copied g bs v n m m₁ y hv hn hy e in
    let rest = byte_at-tail v k n m₁ m' y hv hn hy le f in
    elim (Bool-cases (ltb (distance v y) k)) [
      | inl inside ↦
          let lt : distance v y < length bs = ground arith in
          let near : ltb (distance v y) n ≡ true = ground arith in
          let long : length bs ≤ n = omega arith in
          rw (rest, inside, at, near) (ap ok (get_or-filled_buffer g bs 0 n (distance v y) lt long))
      | inr outside ↦ elim (Bool-cases (ltb (distance v y) n)) [
        | inl near ↦ rw (rest, outside, near)
        | inr far ↦ rw (rest, outside, at, far)
      ]
    ]

-- A segment that was filled has the file's bytes, then zeros up to its size in memory, and the
-- bytes at other addresses are as before.
pub fill_segment_lem :
    (elf : ElfFile) (phdr : Phdr) (m m' : Memory) (y : ℕ)
    → phdr.p_vaddr < 2 ^ 32
    → phdr.p_memsz < 2 ^ 32
    → y < 2 ^ 32
    → fill_segment elf phdr m ≡ ok m'
    → byte_at m' y ≡ (
        if ltb (distance phdr.p_vaddr y) phdr.p_filesz
        then ok (get_or (elf.fread phdr.p_offset phdr.p_filesz) (distance phdr.p_vaddr y) 0 % 256)
        else (if ltb (distance phdr.p_vaddr y) phdr.p_memsz then ok 0 else byte_at m y))
unfolding fill_segment
fill_segment_lem elf phdr m m' y hv hm hy e =
    let (seek, e₁) = assert_then (elf.fseek phdr.p_offset) _ e in
    let (room, e₂) = assert_then (elf.malloc phdr.p_memsz) _ e₁ in
    let contents = elf.fread phdr.p_offset phdr.p_filesz in
    let (fits, e₃) = unless_fault (ltb phdr.p_memsz (length contents)) _ e₂ in
    let (whole, e₄) = assert_then (length contents == phdr.p_filesz) _ e₃ in
    let (m₁, copied, e₅) = >>=-eq-ok (memory_copy_write m phdr.p_vaddr phdr.p_memsz _) _ e₄ in
    let l : length contents ≡ phdr.p_filesz = ground arith in
    byte_at-cleared elf.garbage contents phdr.p_vaddr phdr.p_filesz phdr.p_memsz m m₁ m' y hv hm hy
      l (ground arith) copied e₅
