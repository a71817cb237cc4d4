-- ===== src/Syscall/Io.antt =====
-- What `read` (syscalls.h) stores in the guest, and the buffers between the guest and the host.
use comparing_complexity_and.Base.{
  ℕ, zero, suc, ◌+◌, ◌%◌, ◌^◌, ◌≤◌, ◌<◌, ◌≡◌, inl, inr, refl, ap, ◌∙◌, arith, ltb, true,
  if◌then◌else◌, List, [], ◌∷◌, length, get_or, Result, ok, >>=-eq-ok, ok-injective, assert_then,
  subst, Bool-cases,
}
use comparing_complexity_and.Word.{u32}
use comparing_complexity_and.Machine.{mips_r_v0}
use comparing_complexity_and.Memory.{Memory, memory_copy_write}
use comparing_complexity_and.Memory.Flat.{byte_at}
use comparing_complexity_and.Memory.Access.{distance, byte_at-memory_copy_write}
use comparing_complexity_and.Host.{HostCall, Env, Machine}
use comparing_complexity_and.Syscall.{filled_buffer, mips_syscall_read}

pub length-filled_buffer : (g : ℕ → ℕ) (bs : List ℕ) (i n : ℕ) → length (filled_buffer g bs i n) ≡ n
unfolding filled_buffer
length-filled_buffer g bs i zero = refl
length-filled_buffer g [] i (suc n) = ap suc (length-filled_buffer g [] (suc i) n)
length-filled_buffer g (b ∷ bs) i (suc n) = ap suc (length-filled_buffer g bs (suc i) n)

-- A buffer starts with the bytes that were read.
pub get_or-filled_buffer :
    (g : ℕ → ℕ) (bs : List ℕ) (i n d : ℕ)
    → d < length bs
    → length bs ≤ n
    → get_or (filled_buffer g bs i n) d 0 ≡ get_or bs d 0 % 256
unfolding filled_buffer
get_or-filled_buffer g [] i n d p q = absurd (omega arith)
get_or-filled_buffer g (b ∷ bs) i zero d p q = absurd (omega arith)
get_or-filled_buffer g (b ∷ bs) i (suc n) zero p q = refl
get_or-filled_buffer g (b ∷ bs) i (suc n) (suc d) p q =
    get_or-filled_buffer g bs (suc i) n d (omega arith) (omega arith)

-- Behind them it has what it had.
get_or-garbage :
    (g : ℕ → ℕ) (bs : List ℕ) (i n d : ℕ)
    → length bs ≤ d
    → d < n
    → get_or (filled_buffer g bs i n) d 0 ≡ g (i + d) % 256
unfolding filled_buffer
get_or-garbage g bs i zero d p q = absurd (omega arith)
get_or-garbage g [] i (suc n) zero p q = let e : i + 0 ≡ i = omega arith in rw e
get_or-garbage g [] i (suc n) (suc d) p q =
    let e : i + suc d ≡ suc i + d = omega arith in
    rw e (get_or-garbage g [] (suc i) n d (omega arith) (omega arith))
get_or-garbage g (b ∷ bs) i (suc n) zero p q = absurd (omega arith)
get_or-garbage g (b ∷ bs) i (suc n) (suc d) p q =
    let e : i + suc d ≡ suc i + d = omega arith in
    rw e (get_or-garbage g bs (suc i) n d (omega arith) (omega arith))

-- The bytes after the buffer was copied.
pub byte_at-copied :
    (g : ℕ → ℕ) (bs : List ℕ) (v n : ℕ) (m m' : Memory) (y : ℕ)
    → v < 2 ^ 32
    → n < 2 ^ 32
    → y < 2 ^ 32
    → memory_copy_write m v n (filled_buffer g bs 0 n) ≡ ok m'
    → byte_at m' y ≡ (
        if ltb (distance v y) n
        then ok (get_or (filled_buffer g bs 0 n) (distance v y) 0)
        else byte_at m y)
byte_at-copied g bs v n m m' y hv hn hy e =
    let l = length-filled_buffer g bs 0 n in
    let at =
      byte_at-memory_copy_write m m' v y (filled_buffer g bs 0 n) hv hy (rw l (omega arith))
        (rw l e) in
    rw l at at

buffer_byte :
    (g : ℕ → ℕ) (bs : List ℕ) (n d : ℕ) (old : Result ℕ)
    → length bs ≤ n
    → (if ltb d n then ok (get_or (filled_buffer g bs 0 n) d 0) else old) ≡ (
        if ltb d (length bs)
        then ok (get_or bs d 0 % 256)
        else (if ltb d n then ok (g d % 256) else old))
buffer_byte g bs n d old le = elim (Bool-cases (ltb d (length bs))) [
  | inl inside ↦
      let near : ltb d n ≡ true = ground arith in
      rw (inside, near) (ap ok (get_or-filled_buffer g bs 0 n d (ground arith) le))
  | inr outside ↦ elim (Bool-cases (ltb d n)) [
    | inl near ↦
        let e : 0 + d ≡ d = omega arith in
        rw (outside, near)
          (ap ok (rw e at (get_or-garbage g bs 0 n d (ground arith) (ground arith))))
    | inr far ↦ rw (outside, far)
  ]
]

-- A guest's byte after `read`: one that the host stored, one of the fresh buffer, or the old one.
abbrev pub byte_after_read : Env → Machine → ℕ → ℕ → ℕ → ℕ → Result ℕ
byte_after_read env s fd address size y =
    let payload = (env.reply s.calls (HostCall.read fd size)).payload in
    if ltb (distance address y) (length payload)
    then ok (get_or payload (distance address y) 0 % 256)
    else (if ltb (distance address y) size
        then ok (env.garbage s.calls (distance address y) % 256)
        else byte_at s.memory y)

-- When `read` returns, and the host has stored `size` bytes at most, the host's answer is the
-- result, and of the guest's buffer the start holds the host's bytes and all the rest, up to
-- `size`, whatever the fresh block held. No other byte changes.
pub mips_syscall_read_lem :
    (env : Env) (s s' : Machine) (fd address size y : ℕ)
    → address < 2 ^ 32
    → size < 2 ^ 32
    → y < 2 ^ 32
    → length (env.reply s.calls (HostCall.read fd size)).payload ≤ size
    → mips_syscall_read env s fd address size ≡ ok s'
    → (s'.mips.r mips_r_v0 ≡ u32 (env.reply s.calls (HostCall.read fd size)).result)
      × (byte_at s'.memory y ≡ byte_after_read env s fd address size y)
unfolding mips_syscall_read
mips_syscall_read_lem env s s' fd address size y ha hs hy short e =
    let (room, e₁) = assert_then (env.malloc s.calls size) _ e in
    let payload = (env.reply s.calls (HostCall.read fd size)).payload in
    let g = env.garbage s.calls in
    let (m, copied, done) =
      >>=-eq-ok (memory_copy_write s.memory address size (filled_buffer g payload 0 size)) _ e₁ in
    let at = byte_at-copied g payload address size s.memory m y ha hs hy copied in
    subst
      (λ (r : Machine).
        (r.mips.r mips_r_v0 ≡ u32 (env.reply s.calls (HostCall.read fd size)).result)
        × (byte_at r.memory y ≡ byte_after_read env s fd address size y))
      (ok-injective done) (refl, at ∙ buffer_byte g payload size (distance address y) _ short)
