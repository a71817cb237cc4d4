-- ===== src/Memory/Bytes.antt =====
-- Every byte of a mapped page is one: what reads give, and that writes and allocation keep it so
-- (memory.c).
use native.Mathlib.Nat.{pow-suc}
use comparing_complexity_and.Base.{
  ℕ, zero, suc, ◌+◌, ◌/◌, ◌^◌, ◌<◌, ◌≡◌, inl, inr, refl, sym, ap, ◌∙◌, arith, ◌==◌, if◌then◌else◌,
  Bool, true, false, List, [], ◌∷◌, AllOf, length, take, drop, replicate, update, ok, fault,
  timeout, ◌>>=◌, >>=-eq-ok, ok-injective, Bool-cases, if-true, if-false, subst, ltb,
}
use comparing_complexity_and.Word.{u8, to_bytes, from_bytes}
use comparing_complexity_and.Memory.{
  Memory, Page, page_offset, memory_find_page, store_page, page_bytes, put_bytes, load_bytes,
  store_bytes, memory_read_u8, memory_read_u16, memory_read_u32, memory_write_u8, memory_write_u16,
  memory_write_u32, amount_of, copy_write_loop, memory_copy_write, memory_set_loop, memory_set,
  memory_allocate,
}
use comparing_complexity_and.Memory.Flat.{same_page, find_page-store_page}
use comparing_complexity_and.Memory.Allocate.{memory_allocate-Grows}

abbrev pub IsByte : ℕ → Type 0
IsByte b = b < 256

-- Every page that an address leads to holds bytes.
abbrev pub IsBytes : Memory → Type 0
IsBytes m = (x k : ℕ) (p : Page) → memory_find_page m x ≡ ok p → IsByte (p k)

page_bytes-IsByte :
    (p : Page) (offset n : ℕ) → ((k : ℕ) → IsByte (p k)) → AllOf IsByte (page_bytes p offset n)
page_bytes-IsByte p offset zero h = tt
page_bytes-IsByte p offset (suc n) h = (h offset, page_bytes-IsByte p (suc offset) n h)

length-page_bytes : (p : Page) (offset n : ℕ) → length (page_bytes p offset n) ≡ n
length-page_bytes p offset zero = refl
length-page_bytes p offset (suc n) = ap suc (length-page_bytes p (suc offset) n)

pub put_bytes-IsByte :
    (p : Page) (offset : ℕ) (bs : List ℕ)
    → ((k : ℕ) → IsByte (p k))
    → AllOf IsByte bs
    → (k : ℕ) → IsByte (put_bytes p offset bs k)
put_bytes-IsByte p offset [] h hs k = h k
put_bytes-IsByte p offset (b ∷ bs) h (first, rest) k =
    put_bytes-IsByte (update p offset b) (suc offset) bs (λ i. update-IsByte i) rest k
  where
    update-IsByte : (i : ℕ) → IsByte (update p offset b i)
    update-IsByte i = ground (arith, h i)

pub to_bytes-IsByte : (n v : ℕ) → AllOf IsByte (to_bytes n v)
unfolding to_bytes
to_bytes-IsByte zero v = tt
to_bytes-IsByte (suc n) v = (omega arith, to_bytes-IsByte n (v / 256))

from_bytes-lt : (bs : List ℕ) → AllOf IsByte bs → from_bytes bs < 256 ^ length bs
unfolding from_bytes
from_bytes-lt [] h = omega arith
from_bytes-lt (b ∷ bs) (first, rest) = omega (arith, pow-suc 256 (length bs), from_bytes-lt bs rest)

take-AllOf : (n : ℕ) (bs : List ℕ) → AllOf IsByte bs → AllOf IsByte (take n bs)
take-AllOf zero bs h = tt
take-AllOf (suc n) [] h = tt
take-AllOf (suc n) (b ∷ bs) (first, rest) = (first, take-AllOf n bs rest)

drop-AllOf : (n : ℕ) (bs : List ℕ) → AllOf IsByte bs → AllOf IsByte (drop n bs)
drop-AllOf zero bs h = h
drop-AllOf (suc n) [] h = tt
drop-AllOf (suc n) (b ∷ bs) (first, rest) = drop-AllOf n bs rest

replicate-AllOf : (n b : ℕ) → IsByte b → AllOf IsByte (replicate n b)
replicate-AllOf zero b h = tt
replicate-AllOf (suc n) b h = (h, replicate-AllOf n b h)

store_page-IsBytes :
    (m : Memory) (x : ℕ) (p q : Page)
    → memory_find_page m x ≡ ok q
    → ((k : ℕ) → IsByte (p k))
    → IsBytes m
    → IsBytes (store_page m x p)
store_page-IsBytes m x p q found new old y k r at =
    let after = find_page-store_page m x y p q found in
    elim (Bool-cases (same_page y x)) [
      | inl same ↦
          let here : p ≡ r =
            ok-injective (sym (if-true (ok p) (memory_find_page m y) same) ∙ sym after ∙ at) in
          subst (λ (r : Page). IsByte (r k)) here (new k)
      | inr other ↦ old y k r (sym (if-false (ok p) (memory_find_page m y) other) ∙ sym after ∙ at)
    ]

-- A test behind which a call fails.
unless_fault : {A : Type 0} {a b : A} (test : Bool) → (if test then fault else ok a) ≡ ok b → a ≡ b
unless_fault true h = cc
unless_fault false h = ok-injective h

unless_timeout :
    {A : Type 0} {a b : A} (test : Bool) → (if test then ok a else timeout) ≡ ok b → a ≡ b
unless_timeout true h = ok-injective h
unless_timeout false h = cc

pub store_bytes-IsBytes :
    (m m' : Memory) (x : ℕ) (bs : List ℕ)
    → AllOf IsByte bs
    → IsBytes m
    → store_bytes m x bs ≡ ok m'
    → IsBytes m'
unfolding store_bytes
store_bytes-IsBytes m m' x bs all old e =
    let (p, found, stored) = >>=-eq-ok (memory_find_page m x) _ e in
    subst IsBytes (unless_fault (ltb 4096 (page_offset x + length bs)) stored) (
      store_page-IsBytes m x _ p found
        (put_bytes-IsByte p (page_offset x) bs (λ k. old x k p found) all) old)

to_bytes_stored :
    (m m' : Memory) (x n v : ℕ) → IsBytes m → store_bytes m x (to_bytes n v) ≡ ok m' → IsBytes m'
to_bytes_stored m m' x n v = store_bytes-IsBytes m m' x (to_bytes n v) (to_bytes-IsByte n v)

pub memory_write_u8-IsBytes :
    (m m' : Memory) (x v : ℕ) → IsBytes m → memory_write_u8 m x v ≡ ok m' → IsBytes m'
unfolding memory_write_u8
memory_write_u8-IsBytes m m' x v = to_bytes_stored m m' x 1 v

pub memory_write_u16-IsBytes :
    (m m' : Memory) (x v : ℕ) → IsBytes m → memory_write_u16 m x v ≡ ok m' → IsBytes m'
unfolding memory_write_u16
memory_write_u16-IsBytes m m' x v = to_bytes_stored m m' x 2 v

pub memory_write_u32-IsBytes :
    (m m' : Memory) (x v : ℕ) → IsBytes m → memory_write_u32 m x v ≡ ok m' → IsBytes m'
unfolding memory_write_u32
memory_write_u32-IsBytes m m' x v = to_bytes_stored m m' x 4 v

copy_write_loop-IsBytes :
    (fuel : ℕ) (m m' : Memory) (x size : ℕ) (bs : List ℕ)
    → AllOf IsByte bs
    → IsBytes m
    → copy_write_loop fuel m x size bs ≡ ok m'
    → IsBytes m'
unfolding copy_write_loop
copy_write_loop-IsBytes zero m m' x size bs all old e =
    subst IsBytes (unless_timeout (size == 0) e) old
copy_write_loop-IsBytes (suc fuel) m m' x size bs all old e = elim (Bool-cases (size == 0)) [
  | inl done ↦ subst IsBytes (ok-injective (sym (if-true (ok m) _ done) ∙ e)) old
  | inr more ↦
      let n = amount_of x size in
      let (m₁, stored, rest) =
        >>=-eq-ok (store_bytes m x (take n bs)) _ (sym (if-false (ok m) _ more) ∙ e) in
      copy_write_loop-IsBytes fuel m₁ m' _ _ (drop n bs) (drop-AllOf n bs all)
        (store_bytes-IsBytes m m₁ x (take n bs) (take-AllOf n bs all) old stored) rest
]

pub memory_copy_write-IsBytes :
    (m m' : Memory) (x size : ℕ) (bs : List ℕ)
    → AllOf IsByte bs
    → IsBytes m
    → memory_copy_write m x size bs ≡ ok m'
    → IsBytes m'
unfolding memory_copy_write
memory_copy_write-IsBytes m m' x size bs = copy_write_loop-IsBytes size m m' x size bs

memory_set_loop-IsBytes :
    (fuel : ℕ) (m m' : Memory) (x size v : ℕ)
    → IsBytes m
    → memory_set_loop fuel m x size v ≡ ok m'
    → IsBytes m'
unfolding memory_set_loop
memory_set_loop-IsBytes zero m m' x size v old e = subst IsBytes (unless_timeout (size == 0) e) old
memory_set_loop-IsBytes (suc fuel) m m' x size v old e = elim (Bool-cases (size == 0)) [
  | inl done ↦ subst IsBytes (ok-injective (sym (if-true (ok m) _ done) ∙ e)) old
  | inr more ↦
      let n = amount_of x size in
      let (m₁, stored, rest) =
        >>=-eq-ok (store_bytes m x (replicate n (u8 v))) _ (sym (if-false (ok m) _ more) ∙ e) in
      memory_set_loop-IsBytes fuel m₁ m' _ _ v
        (store_bytes-IsBytes m m₁ x (replicate n (u8 v)) (replicate-AllOf n (u8 v) (omega arith))
          old stored)
        rest
]

pub memory_set-IsBytes :
    (m m' : Memory) (x size v : ℕ) → IsBytes m → memory_set m x size v ≡ ok m' → IsBytes m'
unfolding memory_set
memory_set-IsBytes m m' x size v = memory_set_loop-IsBytes size m m' x size v

pub memory_allocate-IsBytes :
    (calloc : Memory → ℕ → Bool) (m m' : Memory) (address size : ℕ)
    → IsBytes m
    → memory_allocate calloc m address size ≡ ok m'
    → IsBytes m'
memory_allocate-IsBytes calloc m m' address size old e y k p at =
    elim (memory_allocate-Grows calloc m m' address size y e) [
      | inl same ↦ old y k p (sym same ∙ at)
      | inr (_, new) ↦
          let zeros : (λ _. 0) ≡ p = ok-injective (sym new ∙ at) in
          subst (λ (p : Page). IsByte (p k)) zeros (omega arith)
    ]

load_bytes-IsByte :
    (m : Memory) (x n : ℕ) (bs : List ℕ)
    → IsBytes m
    → load_bytes m x n ≡ ok bs
    → AllOf IsByte bs × (length bs ≡ n)
unfolding load_bytes
load_bytes-IsByte m x n bs old e =
    let (p, found, read) = >>=-eq-ok (memory_find_page m x) _ e in
    subst (λ bs. AllOf IsByte bs × (length bs ≡ n))
      (unless_fault (ltb 4096 (page_offset x + n)) read)
      (
        page_bytes-IsByte p (page_offset x) n (λ k. old x k p found),
        length-page_bytes p (page_offset x) n,
      )

read_bound :
    (m : Memory) (x n v bound : ℕ)
    → 256 ^ n ≡ bound
    → IsBytes m
    → (load_bytes m x n >>= λ bs. ok (from_bytes bs)) ≡ ok v
    → v < bound
read_bound m x n v bound width old e =
    let (bs, loaded, same) = >>=-eq-ok (load_bytes m x n) _ e in
    let (all, long) = load_bytes-IsByte m x n bs old loaded in
    let fits : from_bytes bs < bound =
      subst (λ k. from_bytes bs < k) (ap (λ k. 256 ^ k) long ∙ width) (from_bytes-lt bs all) in
    subst (λ v. v < bound) (ok-injective same) fits

pub memory_read_u8-lt : (m : Memory) (x v : ℕ) → IsBytes m → memory_read_u8 m x ≡ ok v → v < 2 ^ 8
unfolding memory_read_u8
memory_read_u8-lt m x v = read_bound m x 1 v (2 ^ 8) refl

pub memory_read_u16-lt :
    (m : Memory) (x v : ℕ) → IsBytes m → memory_read_u16 m x ≡ ok v → v < 2 ^ 16
unfolding memory_read_u16
memory_read_u16-lt m x v = read_bound m x 2 v (2 ^ 16) refl

pub memory_read_u32-lt :
    (m : Memory) (x v : ℕ) → IsBytes m → memory_read_u32 m x ≡ ok v → v < 2 ^ 32
unfolding memory_read_u32
memory_read_u32-lt m x v = read_bound m x 4 v (2 ^ 32) refl
