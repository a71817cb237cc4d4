-- ===== src/Host/Sound.antt =====
-- The machines that C can have: registers and `user_local_ptr` hold a `u32`, pages hold bytes
-- (mips.h, memory.h).
use comparing_complexity_and.Base.{
  ℕ, ◌^◌, ◌<◌, ◌≡◌, Bool, update, Result, ok, aborted, fault, timeout, ◌>>=◌, ◌>>◌, WhenOk, assert,
  if◌then◌else◌, true, false, arith, refl, subst, ok-injective,
}
use comparing_complexity_and.Machine.{IsRegs, Mips, set_r}
use comparing_complexity_and.Memory.{Memory}
use comparing_complexity_and.Memory.Bytes.{IsBytes}
use comparing_complexity_and.Host.{HostCall, Machine, set_mips, set_memory, called}

pub record IsSoundMips (m : Mips) : Type 0 where
  pub regs : IsRegs m.r
  pub local : m.user_local_ptr < 2 ^ 32

pub record IsSound (s : Machine) : Type 0 where
  pub mips : IsSoundMips s.mips
  pub bytes : IsBytes s.memory

pub update-IsRegs : (r : ℕ → ℕ) (k v : ℕ) → v < 2 ^ 32 → IsRegs r → IsRegs (update r k v)
update-IsRegs r k v fits h i = ground (arith, h i)

pub set_r-IsSoundMips :
    (k v : ℕ) (m : Mips) → v < 2 ^ 32 → IsSoundMips m → IsSoundMips (set_r k v m)
set_r-IsSoundMips k v m fits h = record {
  regs = update-IsRegs m.r k v fits h.regs;
  local = h.local;
}

pub set_mips-IsSound : (m : Mips) (s : Machine) → IsSoundMips m → IsSound s → IsSound (set_mips m s)
set_mips-IsSound m s h sound = record { mips = h; bytes = sound.bytes }

pub set_memory-IsSound :
    (m : Memory) (s : Machine) → IsBytes m → IsSound s → IsSound (set_memory m s)
set_memory-IsSound m s h sound = record { mips = sound.mips; bytes = h }

pub called-IsSound : (call : HostCall) (s : Machine) → IsSound s → IsSound (called call s)
called-IsSound call s sound = record { mips = sound.mips; bytes = sound.bytes }

-- Results with a property, from what the property says of each value, and back.
pub WhenOk-each {ℓ κ} :
    {A : Type ℓ} (P : A → Type κ) (r : Result A) → ((a : A) → r ≡ ok a → P a) → WhenOk P r
WhenOk-each P (ok a) h = h a refl
WhenOk-each P aborted h = tt
WhenOk-each P fault h = tt
WhenOk-each P timeout h = tt

pub WhenOk-ok {ℓ κ} :
    {A : Type ℓ} (P : A → Type κ) {a : A} (r : Result A) → WhenOk P r → r ≡ ok a → P a
WhenOk-ok P (ok b) h e = subst P (ok-injective e) h
WhenOk-ok P aborted h e = cc
WhenOk-ok P fault h e = cc
WhenOk-ok P timeout h e = cc

pub WhenOk-if {ℓ κ} :
    {A : Type ℓ} (P : A → Type κ) (test : Bool) (r r' : Result A)
    → WhenOk P r
    → WhenOk P r'
    → WhenOk P (if test then r else r')
WhenOk-if P true r r' h h' = h
WhenOk-if P false r r' h h' = h'

-- What follows an assertion.
pub WhenOk-assert {ℓ κ} :
    {A : Type ℓ} (P : A → Type κ) (test : Bool) (r : Result A)
    → WhenOk P r
    → WhenOk P (assert test >> r)
WhenOk-assert P true r h = h
WhenOk-assert P false r h = tt

-- What follows a call of which nothing is known.
pub WhenOk-any {ℓ κ μ} :
    {A : Type ℓ} {B : Type κ} (P : B → Type μ) (m : Result A) (f : A → Result B)
    → ((a : A) → WhenOk P (f a))
    → WhenOk P (m >>= f)
WhenOk-any P (ok a) f h = h a
WhenOk-any P aborted f h = tt
WhenOk-any P fault f h = tt
WhenOk-any P timeout f h = tt
