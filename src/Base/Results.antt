-- ===== src/Base/Results.antt =====
-- What a call of C code comes to: a value, a call of `abort` (a failed `assert` among them), an
-- access that C leaves undefined (a null pointer, an index out of range), or, of a loop that is
-- run on fuel, no result yet.
use mathlib.Core.Path.{◌≡◌, refl, ap, subst}
use mathlib.Core.Bool.{Bool, true, false}
use mathlib.Core.Option.{Option, none, some}

pub data Result {ℓ} (A : Type ℓ) : Type ℓ where
  aborted fault timeout : Result A
  ok : A → Result A

-- What follows a call runs only on its value.
abbrev pub ◌>>=◌ {ℓ κ} : {A : Type ℓ} {B : Type κ} → Result A → (A → Result B) → Result B
aborted >>= next = aborted
fault >>= next = fault
timeout >>= next = timeout
ok value >>= next = next value

infixl 5 ◌>>=◌ ◌>>◌
abbrev pub ◌>>◌ {ℓ} : {B : Type ℓ} → Result (Unit {0}) → Result B → Result B
m >> k = m >>= λ _. k

-- `assert(b)`.
abbrev pub assert : Bool → Result (Unit {0})
assert true = ok tt
assert false = aborted

-- Dereferencing: a null pointer is a fault.
abbrev pub deref {ℓ} : {A : Type ℓ} → Option A → Result A
deref none = fault
deref (some a) = ok a

pub >>=-eq-ok {ℓ κ} :
    {A : Type ℓ} {B : Type κ} {b : B} (call : Result A) (next : A → Result B)
    → (call >>= next) ≡ ok b
    → (a : A) × (call ≡ ok a) × (next a ≡ ok b)
>>=-eq-ok aborted next h = cc
>>=-eq-ok fault next h = cc
>>=-eq-ok timeout next h = cc
>>=-eq-ok (ok value) next h = (value, refl, h)

pub bind-ok {ℓ κ} :
    {A : Type ℓ} {B : Type κ} {m : Result A} {a : A} (f : A → Result B) → m ≡ ok a → (m >>= f) ≡ f a
bind-ok f e = rw e

pub ok-injective {ℓ} : {A : Type ℓ} {a b : A} → ◌≡◌ {A = Result A} (ok a) (ok b) → a ≡ b
ok-injective e = cc

pub deref-eq-ok {ℓ} : {A : Type ℓ} {a : A} (o : Option A) → deref o ≡ ok a → o ≡ some a
deref-eq-ok none h = cc
deref-eq-ok (some b) h = ap some (ok-injective h)

pub timeout-ne-ok {ℓ} : {A : Type ℓ} {a : A} → ◌≡◌ {A = Result A} timeout (ok a) → ⊥
timeout-ne-ok e = cc

pub >>=_assoc {ℓ κ μ} :
    {A : Type ℓ} {B : Type κ} {C : Type μ} (m : Result A) (f : A → Result B) (g : B → Result C)
    → ((m >>= f) >>= g) ≡ (m >>= λ a. f a >>= g)
>>=_assoc (ok a) f g = refl
>>=_assoc aborted f g = refl
>>=_assoc fault f g = refl
>>=_assoc timeout f g = refl

pub >>=_ok {ℓ} : {A : Type ℓ} (m : Result A) → (m >>= λ a. ok a) ≡ m
>>=_ok (ok a) = refl
>>=_ok aborted = refl
>>=_ok fault = refl
>>=_ok timeout = refl

-- A predicate on the value of a call, where there is one.
abbrev pub WhenOk {ℓ κ} : {A : Type ℓ} → (A → Type κ) → Result A → Type κ
WhenOk P (ok a) = P a
WhenOk P aborted = Unit
WhenOk P fault = Unit
WhenOk P timeout = Unit

pub WhenOk-bind {ℓ κ μ ν} :
    {A : Type ℓ} {B : Type κ} (P : A → Type μ) (Q : B → Type ν) (m : Result A) (f : A → Result B)
    → WhenOk P m
    → ((a : A) → P a → WhenOk Q (f a))
    → WhenOk Q (m >>= f)
WhenOk-bind P Q (ok a) f h k = k a h
WhenOk-bind P Q aborted f h k = tt
WhenOk-bind P Q fault f h k = tt
WhenOk-bind P Q timeout f h k = tt

pub WhenOk-eq {ℓ κ} :
    {A : Type ℓ} (P : A → Type κ) {r : Result A} {a : A} → WhenOk P r → r ≡ ok a → P a
WhenOk-eq P h e = subst (WhenOk P) e h

pub assert_then {ℓ} :
    {B : Type ℓ} {b : B} (test : Bool) (call : Result B)
    → (assert test >> call) ≡ ok b
    → (test ≡ true) × (call ≡ ok b)
assert_then true call h = (refl, h)
assert_then false call h = cc

pub assert-ok {ℓ} : {B : Type ℓ} (test : Bool) (r : Result B) → test ≡ true → (assert test >> r) ≡ r
assert-ok test r e = rw e
