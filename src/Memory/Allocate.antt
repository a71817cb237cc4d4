-- ===== src/Memory/Allocate.antt =====
-- What `memory_allocate` maps: the pages of the range, new ones zeroed, and no other page changed.
use comparing_complexity_and.Base.{
  ℕ, zero, suc, ◌+◌, ◌-◌, ◌^◌, ◌≤◌, ◌<◌, ◌≡◌, ◌⊎◌, inl, inr, refl, sym, ap, ◌∙◌, arith, ◌==◌,
  if◌then◌else◌, Bool, true, false, none, some, update, Result, ok, fault, aborted, subst, ◌>>=◌,
  deref, deref-eq-ok, >>=-eq-ok, ok-injective, Bool-cases, Option-cases,
}
use comparing_complexity_and.Word.{u32}
use comparing_complexity_and.Memory.{
  Memory, Page, PageTable, pt_idx, pe_idx, memory_find_page, allocate_entry, allocate_entries,
  allocate_table, allocate_round, allocate_tables, memory_allocate,
}

-- The page at two indices, which `memory_find_page` goes to.
abbrev entry : Memory → ℕ → ℕ → Result Page
entry m t e = deref (m.page_tables t) >>= λ table. deref (table e)

abbrev Grown : Result Page → Result Page → Type 0
Grown r r' = (r' ≡ r) ⊎ ((r ≡ fault) × (r' ≡ ok (λ _. 0)))

abbrev Grows : Memory → Memory → Type 0
Grows m m' = (t e : ℕ) → Grown (entry m t e) (entry m' t e)

IsMapped : Memory → ℕ → ℕ → Type 0
IsMapped m t e = (p : Page) × (entry m t e ≡ ok p)

Grown-compose : (r r' r'' : Result Page) → Grown r r' → Grown r' r'' → Grown r r''
Grown-compose r r' r'' (inl a) (inl b) = inl (b ∙ a)
Grown-compose r r' r'' (inl a) (inr b) = inr (sym a ∙ b.0, b.1)
Grown-compose r r' r'' (inr a) (inl b) = inr (a.0, b ∙ a.1)
Grown-compose r r' r'' (inr a) (inr b) = inr (a.0, b.1)

Grows-compose : (m m' m'' : Memory) → Grows m m' → Grows m' m'' → Grows m m''
Grows-compose m m' m'' first second t e =
    Grown-compose (entry m t e) (entry m' t e) (entry m'' t e) (first t e) (second t e)

IsMapped-Grows : (m m' : Memory) (t e : ℕ) → Grows m m' → IsMapped m t e → IsMapped m' t e
unfolding IsMapped
IsMapped-Grows m m' t e grows (p, at) = elim (grows t e) [
  | inl same ↦ (p, same ∙ at)
  | inr new ↦ ((λ _. 0), new.1)
]

with_entry : Memory → ℕ → ℕ → PageTable → Memory
with_entry m t e table = record m {
  page_tables = update m.page_tables t (some (update table e (some (λ _. 0))));
}

with_entry-Grows :
    (m : Memory) (t e : ℕ) (table : PageTable)
    → m.page_tables t ≡ some table
    → table e ≡ none
    → IsMapped (with_entry m t e table) t e × Grows m (with_entry m t e table)
unfolding with_entry IsMapped
with_entry-Grows m t e table at free = (
  ((λ _. 0), ground arith),
  λ t' e'. elim (Bool-cases (t' == t)) [
    | inl here ↦ elim (Bool-cases (e' == e)) [
      | inl same ↦
          let i : t' ≡ t = ground arith in
          let j : e' ≡ e = ground arith in inr (rw (i, at, j, free), rw (here, same))
      | inr other ↦ let i : t' ≡ t = ground arith in inl (rw (here, other, i, at))
    ]
    | inr there ↦ inl (rw there)
  ],
)

with_table-Grows :
    (m : Memory) (t : ℕ)
    → m.page_tables t ≡ none
    → Grows m (record m { page_tables = update m.page_tables t (some (λ _. none)) })
with_table-Grows m t free t' e' = elim (Bool-cases (t' == t)) [
  | inl here ↦ let i : t' ≡ t = ground arith in inl (rw (here, i, free))
  | inr there ↦ inl (rw there)
]

same-Grows : (m m' : Memory) → m ≡ m' → Grows m m'
same-Grows m m' h t e = inl (ap (λ (r : Memory). entry r t e) (sym h))

unless_aborted : {m m' : Memory} (test : Bool) → (if test then ok m else aborted) ≡ ok m' → m ≡ m'
unless_aborted true h = ok-injective h
unless_aborted false h = cc

module _ (calloc : Memory → ℕ → Bool) where
  allocate_table-Grows : (m m' : Memory) (t : ℕ) → allocate_table calloc m t ≡ ok m' → Grows m m'
  unfolding allocate_table
  allocate_table-Grows m m' t h = elim (Option-cases (m.page_tables t)) [
    | inr (table, at) ↦ same-Grows m m' (ok-injective (rw (allocate_table, at) at h))
    | inl free ↦
        let h' = unless_aborted (calloc m 8192) (rw (allocate_table, free) at h) in
        subst (Grows m) h' (with_table-Grows m t free)
  ]

  allocate_entry-Grows :
      (m m' : Memory) (t e : ℕ) → allocate_entry calloc m t e ≡ ok m' → IsMapped m' t e × Grows m m'
  unfolding allocate_entry IsMapped with_entry
  allocate_entry-Grows m m' t e h =
      let (table, at, h₁) = >>=-eq-ok (deref (m.page_tables t)) _ h in
      let found : m.page_tables t ≡ some table = deref-eq-ok (m.page_tables t) at in
      elim (Option-cases (table e)) [
        | inr (page, there) ↦
            let same : m ≡ m' = ok-injective (rw there at h₁) in
            subst (λ r. IsMapped r t e × Grows m r) same
              ((page, rw (found, there)), same-Grows m m refl)
        | inl free ↦
            let h' = unless_aborted (calloc m 4096) (rw free at h₁) in
            subst (λ r. IsMapped r t e × Grows m r) h' (with_entry-Grows m t e table found free)
      ]

  allocate_entries-Grows :
      (n : ℕ) (m m' : Memory) (t e : ℕ)
      → allocate_entries calloc n m t e ≡ ok m'
      → ((e' : ℕ) → e ≤ e' → e' < e + n → IsMapped m' t e') × Grows m m'
  unfolding allocate_entries
  allocate_entries-Grows zero m m' t e h =
      ((λ e' p q. absurd (omega arith)), same-Grows m m' (ok-injective h))
  allocate_entries-Grows (suc n) m m' t e h =
      let (m₁, first, others) = >>=-eq-ok (allocate_entry calloc m t e) _ h in
      let (mapped, grows) = allocate_entry-Grows m m₁ t e first in
      let (rest, grows') = allocate_entries-Grows n m₁ m' t (suc e) others in
      (
        (λ e' p q. elim (Bool-cases (e' == e)) [
          | inl here ↦
              let i : e ≡ e' = ground arith in
              subst (IsMapped m' t) i (IsMapped-Grows m₁ m' t e grows' mapped)
          | inr there ↦ rest e' (ground arith) (omega arith)
        ]),
        Grows-compose m m₁ m' grows grows',
      )

  abbrev Inside : ℕ → ℕ → ℕ → ℕ → Type 0
  Inside address last t e =
      ((if t == pt_idx address then pe_idx address else 0) ≤ e)
      × (e ≤ (if t == pt_idx last then pe_idx last else 1023))

  allocate_round-Grows :
      (m m' : Memory) (address last t : ℕ)
      → allocate_round calloc m address last t ≡ ok m'
      → ((e : ℕ) → Inside address last t e → IsMapped m' t e) × Grows m m'
  unfolding allocate_round
  allocate_round-Grows m m' address last t h =
      let (m₁, table, entries) = >>=-eq-ok (allocate_table calloc m t) _ h in
      let grows = allocate_table-Grows m m₁ t table in
      let (mapped, grows') = allocate_entries-Grows _ m₁ m' t _ entries in
      (
        (λ e inside. mapped e inside.0 (let (a, b) = inside in omega arith)),
        Grows-compose m m₁ m' grows grows',
      )

  allocate_tables-Grows :
      (n : ℕ) (m m' : Memory) (address last t : ℕ)
      → allocate_tables calloc n m address last t ≡ ok m'
      → ((t' e : ℕ) → t ≤ t' → t' < t + n → Inside address last t' e → IsMapped m' t' e)
        × Grows m m'
  unfolding allocate_tables
  allocate_tables-Grows zero m m' address last t h =
      ((λ t' e p q inside. absurd (omega arith)), same-Grows m m' (ok-injective h))
  allocate_tables-Grows (suc n) m m' address last t h =
      let (m₁, first, others) = >>=-eq-ok (allocate_round calloc m address last t) _ h in
      let (mapped, grows) = allocate_round-Grows m m₁ address last t first in
      let (rest, grows') = allocate_tables-Grows n m₁ m' address last (suc t) others in
      (
        (λ t' e p q inside. elim (Bool-cases (t' == t)) [
          | inl here ↦
              let i : t ≡ t' = ground arith in
              subst (λ k. Inside address last k e → IsMapped m' k e) i
                (λ at. IsMapped-Grows m₁ m' t e grows' (mapped e at)) inside
          | inr there ↦ rest t' e (ground arith) (omega arith) inside
        ]),
        Grows-compose m m₁ m' grows grows',
      )

  range-Inside :
      (address last y : ℕ)
      → address ≤ y
      → y ≤ last
      → last < 2 ^ 32
      → Inside address last (pt_idx y) (pe_idx y)
  range-Inside address last y p q fits = (ground arith, ground arith)

  -- When `memory_allocate` of a range that ends at most at 2 ^ 32 returns, every address of it is
  -- mapped: its page is the one it had, or a page of zeros where it had none.
  pub memory_allocate_lem :
      (m m' : Memory) (address size y : ℕ)
      → address + size ≤ 2 ^ 32
      → address ≤ y
      → y < address + size
      → memory_allocate calloc m address size ≡ ok m'
      → (p : Page) × (memory_find_page m' y ≡ ok p)
        × ((memory_find_page m y ≡ ok p) ⊎ ((memory_find_page m y ≡ fault) × (p ≡ λ _. 0)))
  unfolding memory_allocate memory_find_page IsMapped
  memory_allocate_lem m m' address size y fits p q h =
      let (mapped, grows) = allocate_tables-Grows _ m m' address _ (pt_idx address) h in
      let inside =
        range-Inside address (u32 (address + size + 2 ^ 32 - 1)) y p (omega arith) (omega arith) in
      let (page, at) = mapped (pt_idx y) (pe_idx y) (omega arith) (omega arith) inside in
      (
        page,
        at,
        elim (grows (pt_idx y) (pe_idx y)) [
          | inl same ↦ inl (sym same ∙ at)
          | inr new ↦ inr (new.0, ok-injective (sym at ∙ new.1))
        ],
      )

  -- When `memory_allocate` returns, in the range or not, a page that was mapped is the same as
  -- before, and a page that was not is still not, or holds zeros.
  pub memory_allocate-Grows :
      (m m' : Memory) (address size y : ℕ)
      → memory_allocate calloc m address size ≡ ok m'
      → (memory_find_page m' y ≡ memory_find_page m y)
        ⊎ ((memory_find_page m y ≡ fault) × (memory_find_page m' y ≡ ok (λ _. 0)))
  unfolding memory_allocate memory_find_page
  memory_allocate-Grows m m' address size y h =
      (allocate_tables-Grows _ m m' address _ (pt_idx address) h).1 (pt_idx y) (pe_idx y)
