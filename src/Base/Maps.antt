-- ===== src/Base/Maps.antt =====
-- Arrays and tables as functions of their index, and a write to one place.
use Prim.Native.Nat.{ℕ}
use mathlib.Core.Path.{◌≡◌, sym, ap, ◌∙◌, fun_ext}
use mathlib.Core.Logic.{◌≢◌, ◌⊎◌, inl, inr}
use mathlib.Core.Option.{Option, none, some}
use mathlib.Core.List.{List, [], ◌∷◌}
use native.Mathlib.Omega.{arith}
use comparing_complexity_and.Base.Tests.{◌==◌, if◌then◌else◌, same-cases}

abbrev pub update {ℓ} : {A : Type ℓ} → (ℕ → A) → ℕ → A → ℕ → A
update f k v i = if i == k then v else f i

pub update-update {ℓ} :
    {A : Type ℓ} (f : ℕ → A) (k : ℕ) (v w : A) → update (update f k v) k w ≡ update f k w
update-update f k v w = fun_ext λ i. ground arith

pub update_self {ℓ} : {A : Type ℓ} (f : ℕ → A) (k : ℕ) (v : A) → update f k v k ≡ v
update_self f k v = ground arith

pub update-ne {ℓ} : {A : Type ℓ} (f : ℕ → A) (k i : ℕ) (v : A) → i ≢ k → update f k v i ≡ f i
update-ne f k i v h = ground arith

-- What is found under a key is the new value, or an old one under another key.
pub update-cases {ℓ} :
    {A : Type ℓ} (f : ℕ → A) (k i : ℕ) (v w : A)
    → update f k v i ≡ w
    → ((i ≡ k) × (v ≡ w)) ⊎ ((i ≢ k) × (f i ≡ w))
update-cases f k i v w e = elim (same-cases i k) [
  | inl same ↦ inl (same, sym (ap (λ j. update f k v j) same ∙ update_self f k v) ∙ e)
  | inr other ↦ inr (other, sym (update-ne f k i v other) ∙ e)
]

pub update_comm {ℓ} :
    {A : Type ℓ} (f : ℕ → A) (j k : ℕ) (v w : A)
    → j ≢ k
    → update (update f j v) k w ≡ update (update f k w) j v
update_comm f j k v w h = fun_ext λ i. ground arith

-- A C `switch` as the list of its cases: the first case with the value, and `none` for the
-- `default:` label.
unfoldable pub find_case {ℓ} : {A : Type ℓ} → List (ℕ × A) → ℕ → Option A
find_case [] v = none
find_case ((value, a) ∷ cases) v = if value == v then some a else find_case cases v
