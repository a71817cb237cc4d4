-- ===== src/Memory/Progress.antt =====
-- `memory_allocate` (memory.c) returns when the host has memory: no page table is missing when its
-- entries are filled, and the loops end. A write to addresses that are mapped returns as well.
use comparing_complexity_and.Base.{
  ℕ, zero, suc, ◌+◌, ◌-◌, ◌^◌, ◌%◌, ◌≤◌, ◌<◌, arith, List, [], ◌∷◌, length, replicate,
  length-replicate, Bool-cases, if-true, if-false, ◌≡◌, inl, inr, refl, ◌∙◌, Bool, true, none, some,
  update, update_self, Result, ok, bind-ok, Option-cases,
}
use comparing_complexity_and.Word.{u8, u32, to_bytes}
use comparing_complexity_and.Memory.{
  Memory, Page, PageTable, page_offset, memory_find_page, store_page, memory_set, pt_idx,
  allocate_entry, allocate_entries, allocate_table, allocate_round, allocate_tables,
  memory_allocate, memory_copy_write, memory_write_u32,
}
use comparing_complexity_and.Memory.Flat.{
  same_page, write_byte, write_flat, find_page-store_page, store_bytes-eq-write_flat,
}
use comparing_complexity_and.Memory.Copy.{memory_set-eq-write_flat, memory_copy_write-eq-write_flat}
use comparing_complexity_and.Memory.Allocate.{memory_allocate_lem}

-- An address, and each address of a range, has a page.
abbrev pub IsMapped : Memory → ℕ → Type 0
IsMapped m y = (p : Page) × (memory_find_page m y ≡ ok p)

abbrev pub IsMappedRange : Memory → ℕ → ℕ → Type 0
IsMappedRange m address size = (y : ℕ) → address ≤ y → y < address + size → IsMapped m y

-- A call returns a memory that has a table at `t`.
abbrev HasTable : Memory → ℕ → Type 0
HasTable m t = (table : PageTable) × (m.page_tables t ≡ some table)

abbrev pub Returns : Result Memory → Type 0
Returns r = (m : Memory) × (r ≡ ok m)

abbrev pub ReturnsTable : Result Memory → ℕ → Type 0
ReturnsTable r t = (m : Memory) × (r ≡ ok m) × HasTable m t

module _ (calloc : Memory → ℕ → Bool) (enough : (m : Memory) (n : ℕ) → calloc m n ≡ true) where
  allocate_table-Returns : (m : Memory) (t : ℕ) → ReturnsTable (allocate_table calloc m t) t
  unfolding allocate_table
  allocate_table-Returns m t = elim (Option-cases (m.page_tables t)) [
    | inl free ↦ (
      record m { page_tables = update m.page_tables t (some (λ _. none)) },
      rw (free, allocate_table, enough m 8192),
      ((λ _. none), update_self m.page_tables t (some (λ _. none))),
    )
    | inr (table, at) ↦ (m, rw (at, allocate_table), (table, at))
  ]

  allocate_entry-Returns :
      (m : Memory) (t e : ℕ) → HasTable m t → ReturnsTable (allocate_entry calloc m t e) t
  unfolding allocate_entry
  allocate_entry-Returns m t e (table, at) = elim (Option-cases (table e)) [
    | inl free ↦
        let filled = some (update table e (some (λ _. 0))) in
        (
          record m { page_tables = update m.page_tables t filled },
          rw (at, allocate_entry, free, enough m 4096),
          (update table e (some (λ _. 0)), update_self m.page_tables t filled),
        )
    | inr (page, there) ↦ (m, rw (at, allocate_entry, there), (table, at))
  ]

  allocate_entries-Returns :
      (n : ℕ) (m : Memory) (t e : ℕ) → HasTable m t → Returns (allocate_entries calloc n m t e)
  unfolding allocate_entries
  allocate_entries-Returns zero m t e has = (m, refl)
  allocate_entries-Returns (suc n) m t e has =
      let (m₁, first, has₁) = allocate_entry-Returns m t e has in
      let (m₂, rest) = allocate_entries-Returns n m₁ t (suc e) has₁ in (m₂, bind-ok _ first ∙ rest)

  allocate_round-Returns :
      (m : Memory) (address last t : ℕ) → Returns (allocate_round calloc m address last t)
  unfolding allocate_round
  allocate_round-Returns m address last t =
      let (m₁, first, has) = allocate_table-Returns m t in
      let (m₂, rest) = allocate_entries-Returns _ m₁ t _ has in (m₂, bind-ok _ first ∙ rest)

  allocate_tables-Returns :
      (n : ℕ) (m : Memory) (address last t : ℕ)
      → Returns (allocate_tables calloc n m address last t)
  unfolding allocate_tables
  allocate_tables-Returns zero m address last t = (m, refl)
  allocate_tables-Returns (suc n) m address last t =
      let (m₁, first) = allocate_round-Returns m address last t in
      let (m₂, rest) = allocate_tables-Returns n m₁ address last (suc t) in
      (m₂, bind-ok _ first ∙ rest)

  memory_allocate-Returns :
      (m : Memory) (address size : ℕ) → Returns (memory_allocate calloc m address size)
  unfolding memory_allocate
  memory_allocate-Returns m address size =
      let last = u32 (address + size + 2 ^ 32 - 1) in
      allocate_tables-Returns (suc (pt_idx last) - pt_idx address) m address last (pt_idx address)

  -- When every `calloc` succeeds, `memory_allocate` of a range that ends at most at 2 ^ 32 returns,
  -- and every address of the range is mapped.
  pub memory_allocate_total :
      (m : Memory) (address size : ℕ)
      → address + size ≤ 2 ^ 32
      → (m' : Memory) × (memory_allocate calloc m address size ≡ ok m')
        × IsMappedRange m' address size
  memory_allocate_total m address size fits =
      let (m', allocated) = memory_allocate-Returns m address size in
      (
        m',
        allocated,
        λ y p q.
            let (page, at, _) = memory_allocate_lem calloc m m' address size y fits p q allocated in
            (page, at),
      )

-- A write returns, and what was mapped before is mapped after it.
abbrev pub Writes : Memory → Result Memory → Type 0
Writes m r = (m' : Memory) × (r ≡ ok m') × ((y : ℕ) → IsMapped m y → IsMapped m' y)

write_byte-Writes :
    (m : Memory) (x b : ℕ) (p : Page) → memory_find_page m x ≡ ok p → Writes m (write_byte m x b)
unfolding write_byte
write_byte-Writes m x b p found =
    let page = update p (page_offset x) b in
    (
      store_page m x page,
      bind-ok _ found,
      λ y (q, at). elim (Bool-cases (same_page y x)) [
        | inl same ↦ (
          page,
          find_page-store_page m x y page p found ∙ if-true (ok page) (memory_find_page m y) same,
        )
        | inr other ↦ (
          q,
          find_page-store_page m x y page p found
              ∙ if-false (ok page) (memory_find_page m y) other
              ∙ at,
        )
      ],
    )

write_flat-Writes :
    (m : Memory) (x : ℕ) (bs : List ℕ)
    → x + length bs < 2 ^ 32
    → IsMappedRange m x (length bs)
    → Writes m (write_flat m x bs)
unfolding write_flat
write_flat-Writes m x [] fits mapped = (m, refl, λ y at. at)
write_flat-Writes m x (b ∷ bs) fits mapped =
    let (p, found) = mapped x (omega arith) (omega arith) in
    let (m₁, written, keeps) = write_byte-Writes m x b p found in
    let (m₂, rest, keeps₁) =
      write_flat-Writes m₁ (u32 (x + 1)) bs (omega arith)
        (λ y h k. keeps y (mapped y (omega arith) (omega arith))) in
    (m₂, bind-ok _ written ∙ rest, λ y at. keeps₁ y (keeps y at))

pub memory_set-Writes :
    (m : Memory) (x size v : ℕ)
    → x + size < 2 ^ 32
    → IsMappedRange m x size
    → Writes m (memory_set m x size v)
memory_set-Writes m x size v fits mapped =
    let long : length (replicate size (u8 v)) ≡ size = length-replicate size (u8 v) in
    let (m', written, keeps) =
      write_flat-Writes m x (replicate size (u8 v)) (omega arith)
        (λ y h k. mapped y h (omega arith)) in
    (m', memory_set-eq-write_flat m x size v (omega arith) ∙ written, keeps)

pub memory_copy_write-Writes :
    (m : Memory) (x size : ℕ) (bs : List ℕ)
    → length bs ≡ size
    → x + size < 2 ^ 32
    → IsMappedRange m x size
    → Writes m (memory_copy_write m x size bs)
memory_copy_write-Writes m x size bs long fits mapped =
    let (m', written, keeps) =
      write_flat-Writes m x bs (omega arith) (λ y h k. mapped y h (omega arith)) in
    (m', memory_copy_write-eq-write_flat m x size bs (omega arith) long ∙ written, keeps)

-- A word at an aligned address lies within a page.
pub memory_write_u32-Writes :
    (m : Memory) (x v : ℕ)
    → x % 4 ≡ 0
    → x + 4 < 2 ^ 32
    → IsMappedRange m x 4
    → Writes m (memory_write_u32 m x v)
unfolding memory_write_u32 to_bytes
memory_write_u32-Writes m x v aligned fits mapped =
    let (m', written, keeps) =
      write_flat-Writes m x (to_bytes 4 v) (omega arith) (λ y h k. mapped y h (omega arith)) in
    (m', store_bytes-eq-write_flat m x (to_bytes 4 v) (omega arith) (omega arith) ∙ written, keeps)
