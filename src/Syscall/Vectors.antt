-- ===== src/Syscall/Vectors.antt =====
-- What `writev` (syscalls.h) hands to the host: the vectors that are not empty, in their order.
use comparing_complexity_and.Base.{
  ℕ, zero, suc, ◌+◌, ◌*◌, ◌≡◌, ◌==◌, true, false, inl, inr, refl, sym, ap, ◌∙◌, Bool-cases, if-true,
  if-false, if◌then◌else◌, List, [], ◌∷◌, Result, ok, ◌>>=◌, >>=-eq-ok, ok-injective, assert_then,
}
use comparing_complexity_and.Word.{u32}
use comparing_complexity_and.Machine.{mips_r_v0}
use comparing_complexity_and.Memory.{Memory, memory_read_u32, memory_copy_read}
use comparing_complexity_and.Host.{HostCall, Env, Machine, called}
use comparing_complexity_and.Syscall.{return_v0, writev_round, writev_loop, mips_syscall_writev}

-- The contents of the vectors of an array, from the `c`-th on, `n` of them; an empty one is left out.
unfoldable pub contents : Memory → ℕ → ℕ → ℕ → Result (List (List ℕ))
contents memory ptr c zero = ok []
contents memory ptr c (suc n) = do
  address ← memory_read_u32 memory (u32 (ptr + c * 8 + 0))
  len ← memory_read_u32 memory (u32 (ptr + c * 8 + 4))
  let rest = contents memory ptr (suc c) n
  if len == 0
      then rest
      else (do buffer ← memory_copy_read memory address len; buffers ← rest; ok (buffer ∷ buffers))

-- The calls after a write of each buffer, last one first.
abbrev pub written : ℕ → List (List ℕ) → List HostCall → List HostCall
written fd [] calls = calls
written fd (buffer ∷ buffers) calls = written fd buffers (HostCall.write fd buffer ∷ calls)

-- The sum of what the host answers to the writes, at 32 bits.
abbrev pub answers : Env → ℕ → List (List ℕ) → List HostCall → ℕ → ℕ
answers env fd [] calls total = total
answers env fd (buffer ∷ buffers) calls total =
    let call = HostCall.write fd buffer in
    answers env fd buffers (call ∷ calls) (u32 (total + (env.reply calls call).result))

module _ (m : Memory) (ptr c n address len : ℕ)
    (read₀ : memory_read_u32 m (u32 (ptr + c * 8 + 0)) ≡ ok address)
    (read₁ : memory_read_u32 m (u32 (ptr + c * 8 + 4)) ≡ ok len) where
  contents_empty : (len == 0) ≡ true → contents m ptr c (suc n) ≡ contents m ptr (suc c) n
  unfolding contents
  contents_empty empty = rw (read₀, read₁, empty) refl

  contents_full :
      (buffer : List ℕ) (buffers : List (List ℕ))
      → (len == 0) ≡ false
      → memory_copy_read m address len ≡ ok buffer
      → contents m ptr (suc c) n ≡ ok buffers
      → contents m ptr c (suc n) ≡ ok (buffer ∷ buffers)
  unfolding contents
  contents_full buffer buffers full copied rest = rw (read₀, read₁, full, copied, rest) refl

-- What a run of the loop comes to.
record Gathers (env : Env) (s : Machine) (fd ptr c n total : ℕ) (r : Machine × ℕ) : Type 0 where
  buffers : List (List ℕ)
  read : contents s.memory ptr c n ≡ ok buffers
  calls : r.0.calls ≡ written fd buffers s.calls
  memory : r.0.memory ≡ s.memory
  total_is : r.1 ≡ answers env fd buffers s.calls total

module _ (env : Env) (fd ptr : ℕ) where
  writev_loop-Gathers :
      (n : ℕ) (s : Machine) (c total : ℕ) (r : Machine × ℕ)
      → writev_loop env n s fd ptr c total ≡ ok r
      → Gathers env s fd ptr c n total r
  unfolding writev_loop writev_round contents
  writev_loop-Gathers zero s c total r e =
      let same = sym (ok-injective e) in
      record {
        buffers = [];
        read = refl;
        calls = ap (λ (r : Machine × ℕ). r.0.calls) same;
        memory = ap (λ (r : Machine × ℕ). r.0.memory) same;
        total_is = ap (λ (r : Machine × ℕ). r.1) same;
      }
  writev_loop-Gathers (suc n) s c total r e =
      let ((s', total'), ran, rest) = >>=-eq-ok (writev_round env s fd ptr c total) _ e in
      let (address, read₀, e₁) =
        >>=-eq-ok (memory_read_u32 s.memory (u32 (ptr + c * 8 + 0))) _ ran in
      let (len, read₁, e₂) = >>=-eq-ok (memory_read_u32 s.memory (u32 (ptr + c * 8 + 4))) _ e₁ in
      let go = λ (x : Machine × ℕ). writev_loop env n x.0 fd ptr (suc c) x.1 in
      elim (Bool-cases (len == 0)) [
        | inl empty ↦
            let same = ok-injective (sym (if-true _ _ empty) ∙ e₂) in
            let ih = writev_loop-Gathers n s (suc c) total r (ap go same ∙ rest) in
            record {
              buffers = ih.buffers;
              read = contents_empty s.memory ptr c n address len read₀ read₁ empty ∙ ih.read;
              calls = ih.calls;
              memory = ih.memory;
              total_is = ih.total_is;
            }
        | inr full ↦
            let (_, e₃) = assert_then (env.malloc s.calls len) _ (sym (if-false _ _ full) ∙ e₂) in
            let (buffer, copied, e₄) = >>=-eq-ok (memory_copy_read s.memory address len) _ e₃ in
            let call = HostCall.write fd buffer in
            let ih =
              writev_loop-Gathers n (called call s) (suc c)
                (u32 (total + (env.reply s.calls call).result)) r
                (ap go (ok-injective e₄) ∙ rest) in
            record {
              buffers = buffer ∷ ih.buffers;
              read =
                  contents_full s.memory ptr c n address len read₀ read₁ buffer ih.buffers full
                    copied ih.read;
              calls = ih.calls;
              memory = ih.memory;
              total_is = ih.total_is;
            }
      ]

-- When `writev` returns, the vectors' contents can be read, and the host has been handed those that
-- are not empty, one after the other in the order of the array, each by a write of its own; the
-- memory is as before, and the result is the sum of the host's answers, at 32 bits.
pub mips_syscall_writev_lem :
    (env : Env) (s s' : Machine) (fd ptr cnt : ℕ)
    → mips_syscall_writev env s fd ptr cnt ≡ ok s'
    → (buffers : List (List ℕ)) × (contents s.memory ptr 0 cnt ≡ ok buffers)
      × (s'.calls ≡ written fd buffers s.calls)
      × (s'.memory ≡ s.memory)
      × (s'.mips.r mips_r_v0 ≡ u32 (answers env fd buffers s.calls 0))
unfolding mips_syscall_writev
mips_syscall_writev_lem env s s' fd ptr cnt e =
    let (r, ran, made) = >>=-eq-ok (writev_loop env cnt s fd ptr 0 0) _ e in
    let h = writev_loop-Gathers env fd ptr cnt s 0 0 r ran in
    let same : s' ≡ return_v0 r.1 r.0 = sym (ok-injective made) in
    (
      h.buffers,
      h.read,
      ap (λ (x : Machine). x.calls) same ∙ h.calls,
      ap (λ (x : Machine). x.memory) same ∙ h.memory,
      ap (λ (x : Machine). x.mips.r mips_r_v0) same ∙ ap u32 h.total_is,
    )
