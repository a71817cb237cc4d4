-- ===== src/Syscall/Names.antt =====
-- The file name that `open` (syscalls.h) hands to the host.
use comparing_complexity_and.Base.{
  ℕ, zero, suc, ◌+◌, ◌*◌, ◌%◌, ◌^◌, ◌<◌, ◌≡◌, ◌≢◌, ◌==◌, inl, inr, refl, sym, ap, ◌∙◌, arith,
  Bool-cases, if-true, if-false, if◌then◌else◌, none, some, List, [], ◌∷◌, ◌++◌, AllOf, length, ok,
  >>=-eq-ok, ok-injective, assert_then, bit_and,
}
use comparing_complexity_and.Word.{u32, from_bytes}
use comparing_complexity_and.Memory.{Memory, load_bytes, memory_read_u8, memory_copy_read}
use comparing_complexity_and.Memory.Flat.{byte_at, read_flat, load_bytes-eq-read_flat}
use comparing_complexity_and.Memory.Copy.{memory_copy_read-eq-read_flat}
use comparing_complexity_and.Host.{HostCall, Env, Machine}
use comparing_complexity_and.Syscall.{open_length, mips_syscall_open}

memory_read_u8-byte_at : (m : Memory) (x c : ℕ) → memory_read_u8 m x ≡ ok c → byte_at m x ≡ ok c
unfolding memory_read_u8 read_flat from_bytes
memory_read_u8-byte_at m x c e =
    let (bs, loaded, same) = >>=-eq-ok (load_bytes m x 1) _ e in
    let (b, here, made) =
      >>=-eq-ok (byte_at m x) _
        (sym (load_bytes-eq-read_flat m x 1 (omega arith) (omega arith)) ∙ loaded) in
    let value : b + 256 * 0 ≡ c = ap from_bytes (ok-injective made) ∙ ok-injective same in
    let exact : b ≡ c = omega arith in here ∙ ap ok exact

-- Text without a zero, and the zero behind it, from an address on.
pub record IsText (m : Memory) (x size : ℕ) (text : List ℕ) : Type 0 where
  pub long : size ≡ length text + 1
  pub bytes : read_flat m x size ≡ ok (text ++ 0 ∷ [])
  pub no_zero : AllOf (λ c. c ≢ 0) text

open_length-IsText :
    (fuel : ℕ) (m : Memory) (name size total : ℕ)
    → fuel + size < 2 ^ 32
    → open_length fuel m name size ≡ ok total
    → (text : List ℕ) × (k : ℕ) × (total ≡ size + k) × IsText m (u32 (name + size)) k text
unfolding open_length read_flat
open_length-IsText zero m name size total fits e = cc
open_length-IsText (suc fuel) m name size total fits e =
    let x = u32 (name + size) in
    let (c, read, rest) = >>=-eq-ok (memory_read_u8 m x) _ e in
    let here = memory_read_u8-byte_at m x c read in
    let next : u32 (size + 1) ≡ size + 1 = omega arith in
    elim (Bool-cases (c == 0)) [
      | inl end ↦
          let nul : c ≡ 0 = ground arith in
          (
            [],
            1,
            sym (ok-injective (sym (if-true _ _ end) ∙ rest)) ∙ next,
            record { long = omega arith; bytes = rw (here ∙ ap ok nul) refl; no_zero = tt },
          )
      | inr more ↦
          let (text, k, far, h) =
            open_length-IsText fuel m name (size + 1) total (omega arith)
              (ap (open_length fuel m name) (sym next) ∙ sym (if-false _ _ more) ∙ rest) in
          let behind : u32 (x + 1) ≡ u32 (name + (size + 1)) = omega arith in
          (
            c ∷ text,
            suc k,
            omega arith,
            record {
              long = omega (arith, h.long);
              bytes = rw (here, behind, h.bytes) refl;
              no_zero = (λ z. ground arith, h.no_zero);
            },
          )
    ]

-- When `open` returns, having looked at fewer than 2^32 bytes, the host has been handed the bytes
-- from the name's address up to and with the first zero, and the guest's memory is as before.
pub mips_syscall_open_lem :
    (env : Env) (fuel : ℕ) (s s' : Machine) (name flags mode : ℕ)
    → fuel < 2 ^ 32
    → name < 2 ^ 32
    → mips_syscall_open env fuel s name flags mode ≡ ok s'
    → (text : List ℕ) × (memory_copy_read s.memory name (length text + 1) ≡ ok (text ++ 0 ∷ []))
      × AllOf (λ c. c ≢ 0) text
      × (s'.calls
          ≡ HostCall.open_file
              (text ++ 0 ∷ [])
              flags
              (if bit_and flags env.o_creat == 0 then none else some (mode % 2 ^ 9))
            ∷ s.calls)
      × (s'.memory ≡ s.memory)
unfolding mips_syscall_open
mips_syscall_open_lem env fuel s s' name flags mode few low e =
    let (size, found, e₁) = >>=-eq-ok (open_length fuel s.memory name 0) _ e in
    let (_, e₂) = assert_then (env.malloc s.calls size) _ e₁ in
    let (buffer, copied, made) = >>=-eq-ok (memory_copy_read s.memory name size) _ e₂ in
    let (text, k, far, h) = open_length-IsText fuel s.memory name 0 size (omega arith) found in
    let start : u32 (name + 0) ≡ name = omega arith in
    let long : k ≡ length text + 1 = h.long in
    let size_k : size ≡ k = omega arith in
    let flat : read_flat s.memory name k ≡ ok (text ++ 0 ∷ []) =
      ap (λ x. read_flat s.memory x k) (sym start) ∙ h.bytes in
    let whole : memory_copy_read s.memory name k ≡ ok (text ++ 0 ∷ []) =
      memory_copy_read-eq-read_flat s.memory name k low ∙ flat in
    let same : buffer ≡ text ++ 0 ∷ [] =
      ok-injective (sym copied ∙ ap (memory_copy_read s.memory name) size_k ∙ whole) in
    let after = sym (ok-injective made) in
    (
      text,
      ap (memory_copy_read s.memory name) (sym long) ∙ whole,
      h.no_zero,
      ap (λ (x : Machine). x.calls) after
          ∙ ap
              (λ b.
                HostCall.open_file b flags
                  (if bit_and flags env.o_creat == 0 then none else some (mode % 2 ^ 9))
                ∷ s.calls)
              same,
      ap (λ (x : Machine). x.memory) after,
    )
