-- ===== src/Main/Free.antt =====
-- `memory_delete` (memory.c) frees each page and each table of a memory once.
use comparing_complexity_and.Base.{
  ℕ, zero, suc, ◌+◌, ◌<◌, ◌≡◌, ◌==◌, ltb, leb, ◌&&◌, inl, inr, refl, ap, ap₂, ◌∙◌, arith, Bool,
  true, false, if◌then◌else◌, Option-cases, Option, none, some, List, [], ◌∷◌, ◌++◌,
}
use comparing_complexity_and.Memory.{Memory, Page, PageTable}
use comparing_complexity_and.Main.{
  Freed, entry, table, delete_entries, delete_tables, memory_delete,
}

abbrev pub same_freed : Freed → Freed → Bool
same_freed (entry t e) (entry t' e') = (t == t') && (e == e')
same_freed (entry t e) (table t') = false
same_freed (table t) (entry t' e') = false
same_freed (table t) (table t') = t == t'

-- How often a thing is freed.
unfoldable pub times : Freed → List Freed → ℕ
times x [] = 0
times x (y ∷ ys) = (if same_freed x y then 1 else 0) + times x ys

abbrev pub once_if : Bool → ℕ
once_if true = 1
once_if false = 0

abbrev pub is_some {ℓ} : {A : Type ℓ} → Option A → Bool
is_some none = false
is_some (some a) = true

times-append : (x : Freed) (xs ys : List Freed) → times x (xs ++ ys) ≡ times x xs + times x ys
unfolding times
times-append x [] ys = omega arith
times-append x (y ∷ xs) ys = omega (arith, times-append x xs ys)

-- A round of each loop.
delete_entries-none :
    (n : ℕ) (entries : PageTable) (t e : ℕ)
    → entries e ≡ none
    → delete_entries (suc n) entries t e ≡ delete_entries n entries t (suc e)
unfolding delete_entries
delete_entries-none n entries t e h = rw (h, delete_entries)

delete_entries-some :
    (n : ℕ) (entries : PageTable) (t e : ℕ) {page : Page}
    → entries e ≡ some page
    → delete_entries (suc n) entries t e ≡ (entry t e ∷ delete_entries n entries t (suc e))
unfolding delete_entries
delete_entries-some n entries t e h = rw (h, delete_entries)

delete_tables-none :
    (n : ℕ) (m : Memory) (t : ℕ)
    → m.page_tables t ≡ none
    → delete_tables (suc n) m t ≡ delete_tables n m (suc t)
unfolding delete_tables
delete_tables-none n m t h = rw (h, delete_tables)

delete_tables-some :
    (n : ℕ) (m : Memory) (t : ℕ) {entries : PageTable}
    → m.page_tables t ≡ some entries
    → delete_tables (suc n) m t
      ≡ (delete_entries 1024 entries t 0 ++ (table t ∷ delete_tables n m (suc t)))
unfolding delete_tables
delete_tables-some n m t h = rw (h, delete_tables)

-- In the loop over the entries of a table.
times-delete_entries :
    (n : ℕ) (entries : PageTable) (t e t' e' : ℕ)
    → times (entry t e) (delete_entries n entries t' e')
      ≡ once_if ((t == t') && leb e' e && ltb e (e' + n) && is_some (entries e))
unfolding delete_entries times
times-delete_entries zero entries t e t' e' = ground arith
times-delete_entries (suc n) entries t e t' e' =
    let rest = times-delete_entries n entries t e t' (suc e') in
    elim (Option-cases (entries e')) [
      | inl free ↦
          let here : e ≡ e' → is_some (entries e) ≡ false =
            λ same. ap (λ k. is_some (entries k)) same ∙ ap is_some free in
          ap (times (entry t e)) (delete_entries-none n entries t' e' free)
          ∙ rest
          ∙ ground (arith, here)
      | inr (page, at) ↦
          let here : e ≡ e' → is_some (entries e) ≡ true =
            λ same. ap (λ k. is_some (entries k)) same ∙ ap is_some at in
          ap (times (entry t e)) (delete_entries-some n entries t' e' at)
          ∙ ap (λ k. (if same_freed (entry t e) (entry t' e') then 1 else 0) + k) rest
          ∙ ground (arith, here)
    ]

times_table-delete_entries :
    (n : ℕ) (entries : PageTable) (t t' e' : ℕ)
    → times (table t) (delete_entries n entries t' e') ≡ 0
unfolding delete_entries times
times_table-delete_entries zero entries t t' e' = refl
times_table-delete_entries (suc n) entries t t' e' =
    let rest = times_table-delete_entries n entries t t' (suc e') in
    elim (Option-cases (entries e')) [
      | inl free ↦ ap (times (table t)) (delete_entries-none n entries t' e' free) ∙ rest
      | inr (page, at) ↦ ap (times (table t)) (delete_entries-some n entries t' e' at) ∙ omega arith
    ]

times-delete_tables :
    (n : ℕ) (m : Memory) (t e t' : ℕ)
    → e < 1024
    → times (entry t e) (delete_tables n m t') ≡ (
        if leb t' t && ltb t (t' + n)
        then elim (m.page_tables t) [ none ↦ 0 | some entries ↦ once_if (is_some (entries e)) ]
        else 0)
unfolding delete_tables times
times-delete_tables zero m t e t' small = ground arith
times-delete_tables (suc n) m t e t' small =
    let rest = times-delete_tables n m t e (suc t') small in
    elim (Option-cases (m.page_tables t')) [
      | inl free ↦
          let here : t ≡ t' → m.page_tables t ≡ none = λ same. ap m.page_tables same ∙ free in
          ap (times (entry t e)) (delete_tables-none n m t' free) ∙ rest ∙ ground (arith, here)
      | inr (entries, at) ↦
          let here : t ≡ t' → m.page_tables t ≡ some entries = λ same. ap m.page_tables same ∙ at in
          let inside = times-delete_entries 1024 entries t e t' 0 in
          let split =
            times-append (entry t e) (delete_entries 1024 entries t' 0)
              (table t' ∷ delete_tables n m (suc t')) in
          ap (times (entry t e)) (delete_tables-some n m t' at)
          ∙ split
          ∙ ap₂ (λ i j. i + (0 + j)) inside rest
          ∙ ground (arith, here)
    ]

times_table-delete_tables :
    (n : ℕ) (m : Memory) (t t' : ℕ)
    → times (table t) (delete_tables n m t')
      ≡ once_if (leb t' t && ltb t (t' + n) && is_some (m.page_tables t))
unfolding delete_tables times
times_table-delete_tables zero m t t' = ground arith
times_table-delete_tables (suc n) m t t' =
    let rest = times_table-delete_tables n m t (suc t') in
    elim (Option-cases (m.page_tables t')) [
      | inl free ↦
          let here : t ≡ t' → is_some (m.page_tables t) ≡ false =
            λ same. ap (λ k. is_some (m.page_tables k)) same ∙ ap is_some free in
          ap (times (table t)) (delete_tables-none n m t' free) ∙ rest ∙ ground (arith, here)
      | inr (entries, at) ↦
          let here : t ≡ t' → is_some (m.page_tables t) ≡ true =
            λ same. ap (λ k. is_some (m.page_tables k)) same ∙ ap is_some at in
          let others = delete_tables n m (suc t') in
          ap (times (table t)) (delete_tables-some n m t' at)
          ∙ times-append (table t) (delete_entries 1024 entries t' 0) (table t' ∷ others)
          ∙ ap₂ (λ i j. i + ((if same_freed (table t) (table t') then 1 else 0) + j))
              (times_table-delete_entries 1024 entries t t' 0) rest
          ∙ ground (arith, here)
    ]

-- How many pages an entry holds: one or none.
abbrev pub pages_at : Memory → ℕ → ℕ → ℕ
pages_at m t e = elim (m.page_tables t) [ none ↦ 0 | some entries ↦ once_if (is_some (entries e)) ]

abbrev pub tables_at : Memory → ℕ → ℕ
tables_at m t = once_if (is_some (m.page_tables t))

-- `memory_delete` frees every page of the two-level table once, and every table once, and frees
-- nothing where there is none: no leak and no double free.
pub memory_delete_once :
    (m : Memory) (t e : ℕ)
    → t < 1024
    → e < 1024
    → (times (entry t e) (memory_delete m) ≡ pages_at m t e)
      × (times (table t) (memory_delete m) ≡ tables_at m t)
unfolding memory_delete
memory_delete_once m t e p q =
    let at : ltb t 1024 ≡ true = ground arith in
    (
      times-delete_tables 1024 m t e 0 q ∙ ground (arith, at),
      times_table-delete_tables 1024 m t 0 ∙ ground (arith, at),
    )
