-- ===== src/Memory/Copy.antt =====
-- The copying loops of memory.c move whole pieces of pages. They are flat accesses: byte after
-- byte, a fault where an address is not mapped, and never short of rounds.
use comparing_complexity_and.Base.{
  ℕ, zero, suc, ◌+◌, ◌-◌, ◌^◌, ◌≤◌, ◌<◌, ◌≡◌, refl, sym, ap, ◌∙◌, arith, ◌==◌, false, List, [], ◌∷◌,
  length, take, drop, replicate, take-append-drop, length-drop, length-replicate, length-take_le,
  replicate-add, ◌>>=◌, fun_ext,
}
use comparing_complexity_and.Word.{u8, u32}
use comparing_complexity_and.Memory.{
  Memory, page_offset, store_bytes, amount_of, copy_read_loop, copy_write_loop, memory_set_loop,
  memory_copy_read, memory_copy_write, memory_set,
}
use comparing_complexity_and.Memory.Flat.{
  read_flat, write_flat, read_flat-append, write_flat-append, load_bytes-eq-read_flat,
  store_bytes-eq-write_flat,
}

-- A round moves a byte at least, stays in its page and does not go past the end.
amount_bounds :
    (address size : ℕ)
    → 0 < size
    → (0 < amount_of address size)
      × (page_offset address + amount_of address size ≤ 4096)
      × (amount_of address size ≤ size)
amount_bounds address size h = ground arith

copy_read_loop-eq-read_flat :
    (fuel : ℕ) (m : Memory) (address size : ℕ)
    → address < 2 ^ 32
    → size ≤ fuel
    → copy_read_loop fuel m address size ≡ read_flat m address size
unfolding copy_read_loop
copy_read_loop-eq-read_flat zero m address zero h enough = unfold read_flat in refl
copy_read_loop-eq-read_flat zero m address (suc n) h enough = absurd (omega arith)
copy_read_loop-eq-read_flat (suc fuel) m address zero h enough = unfold read_flat in refl
copy_read_loop-eq-read_flat (suc fuel) m address (suc n) h enough =
    let size = suc n in
    let amount = amount_of address size in
    let b = amount_bounds address size (omega arith) in
    let whole : amount + (size - amount) ≡ size = omega arith in
    let rest =
      copy_read_loop-eq-read_flat fuel m (u32 (address + amount)) (size - amount) (omega arith)
        (omega arith) in
    let more : (size == 0) ≡ false = ground arith in
    rw (more, load_bytes-eq-read_flat m address amount b.0 b.1, rest)
      (sym (read_flat-append m address amount (size - amount) h) ∙ ap (read_flat m address) whole)

copy_write_loop-eq-write_flat :
    (fuel : ℕ) (m : Memory) (address size : ℕ) (buffer : List ℕ)
    → address < 2 ^ 32
    → length buffer ≡ size
    → size ≤ fuel
    → copy_write_loop fuel m address size buffer ≡ write_flat m address buffer
unfolding copy_write_loop
copy_write_loop-eq-write_flat zero m address zero [] h e enough = unfold write_flat in refl
copy_write_loop-eq-write_flat zero m address zero (c ∷ cs) h e enough = absurd (omega arith)
copy_write_loop-eq-write_flat zero m address (suc n) buffer h e enough = absurd (omega arith)
copy_write_loop-eq-write_flat (suc fuel) m address zero [] h e enough = unfold write_flat in refl
copy_write_loop-eq-write_flat (suc fuel) m address zero (c ∷ cs) h e enough = absurd (omega arith)
copy_write_loop-eq-write_flat (suc fuel) m address (suc n) buffer h e enough =
    let size = suc n in
    let amount = amount_of address size in
    let b = amount_bounds address size (omega arith) in
    let front = length-take_le amount buffer (omega arith) in
    let more : (size == 0) ≡ false = ground arith in
    let next = u32 (address + amount) in
    let rest : (m' : Memory)
        → copy_write_loop fuel m' next (size - amount) (drop amount buffer)
          ≡ write_flat m' next (drop amount buffer) =
      λ m'.
        copy_write_loop-eq-write_flat fuel m' next (size - amount) (drop amount buffer)
          (omega arith) (omega (arith, length-drop amount buffer)) (omega arith) in
    rw more (
      ap (λ k. store_bytes m address (take amount buffer) >>= k) (fun_ext rest)
      ∙ ap (λ r. r >>= λ m'. write_flat m' next (drop amount buffer))
          (store_bytes-eq-write_flat m address (take amount buffer) (rw front b.0) (rw front b.1))
      ∙ ap
          (λ k. write_flat m address (take amount buffer) >>= λ m'.
            write_flat m' (u32 (address + k)) (drop amount buffer))
          (sym front)
      ∙ sym (write_flat-append m address (take amount buffer) (drop amount buffer) h)
      ∙ ap (write_flat m address) (take-append-drop amount buffer))

memory_set_loop-eq-write_flat :
    (fuel : ℕ) (m : Memory) (address size value : ℕ)
    → address < 2 ^ 32
    → size ≤ fuel
    → memory_set_loop fuel m address size value ≡ write_flat m address (replicate size (u8 value))
unfolding memory_set_loop
memory_set_loop-eq-write_flat zero m address zero value h enough = unfold write_flat in refl
memory_set_loop-eq-write_flat zero m address (suc n) value h enough = absurd (omega arith)
memory_set_loop-eq-write_flat (suc fuel) m address zero value h enough = unfold write_flat in refl
memory_set_loop-eq-write_flat (suc fuel) m address (suc n) value h enough =
    let size = suc n in
    let amount = amount_of address size in
    let b = amount_bounds address size (omega arith) in
    let more : (size == 0) ≡ false = ground arith in
    let next = u32 (address + amount) in
    let front = length-replicate amount (u8 value) in
    let whole : amount + (size - amount) ≡ size = omega arith in
    rw more (
      ap (λ k. store_bytes m address (replicate amount (u8 value)) >>= k)
        (fun_ext λ m'.
          memory_set_loop-eq-write_flat fuel m' next (size - amount) value (omega arith)
            (omega arith))
      ∙ ap (λ r. r >>= λ m'. write_flat m' next (replicate (size - amount) (u8 value)))
          (store_bytes-eq-write_flat m address (replicate amount (u8 value)) (rw front b.0)
            (rw front b.1))
      ∙ ap
          (λ k. write_flat m address (replicate amount (u8 value)) >>= λ m'.
            write_flat m' (u32 (address + k)) (replicate (size - amount) (u8 value)))
          (sym front)
      ∙ sym (
          write_flat-append m address (replicate amount (u8 value))
            (replicate (size - amount) (u8 value)) h)
      ∙ ap (write_flat m address) (
          sym (replicate-add amount (size - amount) (u8 value))
          ∙ ap (λ k. replicate k (u8 value)) whole))

-- `memory_copy_read` reads the `size` bytes from `address` on, one after the other and across
-- pages, with a fault at an address that is not mapped.
pub memory_copy_read-eq-read_flat :
    (m : Memory) (address size : ℕ)
    → address < 2 ^ 32
    → memory_copy_read m address size ≡ read_flat m address size
unfolding memory_copy_read
memory_copy_read-eq-read_flat m address size h =
    copy_read_loop-eq-read_flat size m address size h (omega arith)

-- `memory_copy_write` of a buffer of `size` bytes stores them from `address` on, one after the
-- other and across pages, with a fault at an address that is not mapped.
pub memory_copy_write-eq-write_flat :
    (m : Memory) (address size : ℕ) (buffer : List ℕ)
    → address < 2 ^ 32
    → length buffer ≡ size
    → memory_copy_write m address size buffer ≡ write_flat m address buffer
unfolding memory_copy_write
memory_copy_write-eq-write_flat m address size buffer h e =
    copy_write_loop-eq-write_flat size m address size buffer h e (omega arith)

-- `memory_set` stores `size` copies of the low byte of `value` from `address` on, one after the
-- other and across pages, with a fault at an address that is not mapped.
pub memory_set-eq-write_flat :
    (m : Memory) (address size value : ℕ)
    → address < 2 ^ 32
    → memory_set m address size value ≡ write_flat m address (replicate size (u8 value))
unfolding memory_set
memory_set-eq-write_flat m address size value h =
    memory_set_loop-eq-write_flat size m address size value h (omega arith)
