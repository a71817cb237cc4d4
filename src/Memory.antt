-- ===== src/Memory.antt =====
-- The guest's memory (memory.h, memory.c): a two-level page table over pages of 4096 bytes. Every
-- table and page comes from its own `calloc`, so they do not overlap and are held as values: a
-- table is a function of the entry's index, a page a function of the offset. A null table or page
-- is `none`, and going through it, or past a page's end, is a fault.
pub mod Flat
pub mod Copy
pub mod Access
pub mod Allocate
pub mod Bytes
pub mod Progress
use comparing_complexity_and.Base.{
  ℕ, zero, suc, ◌+◌, ◌-◌, ◌/◌, ◌%◌, ◌^◌, ltb, ◌==◌, if◌then◌else◌, Bool, true, false, Option, none,
  some, List, [], ◌∷◌, ◌++◌, length, take, drop, replicate, update, Result, ok, aborted, fault,
  timeout, ◌>>=◌, deref,
}
use comparing_complexity_and.Word.{u8, u16, u32, to_bytes, from_bytes}

abbrev pub Page : Type 0
Page = ℕ → ℕ

abbrev pub PageTable : Type 0
PageTable = ℕ → Option Page

pub record Memory : Type 0 where
  pub page_tables : ℕ → Option PageTable
  pub brk_heap_start : ℕ
  pub brk_heap_end : ℕ
  pub mmap_heap_start : ℕ
  pub mmap_heap_end : ℕ

abbrev pub user_top : ℕ
user_top = 0x80000000

abbrev pub stack_size : ℕ
stack_size = 0x10000

-- `(address >> PT_SHIFT) & PT_MASK`, `(address >> PE_SHIFT) & PE_MASK`, `address & OFFSET_MASK`.
abbrev pub pt_idx : ℕ → ℕ
pt_idx address = address / 2 ^ 22 % 2 ^ 10

abbrev pub pe_idx : ℕ → ℕ
pe_idx address = address / 2 ^ 12 % 2 ^ 10

abbrev pub page_offset : ℕ → ℕ
page_offset address = address % 2 ^ 12

-- The page that `memory_find_page` points into; the offset into it is `page_offset`.
unfoldable pub memory_find_page : Memory → ℕ → Result Page
memory_find_page memory address =
    deref (memory.page_tables (pt_idx address)) >>= λ table. deref (table (pe_idx address))

-- A page after a write through the pointer of `memory_find_page`.
abbrev pub entry_stored : Option PageTable → ℕ → Page → Option PageTable
entry_stored none e page = none
entry_stored (some table) e page = some (update table e (some page))

unfoldable pub store_page : Memory → ℕ → Page → Memory
store_page memory address page = record memory {
  page_tables =
      update memory.page_tables (pt_idx address)
        (entry_stored (memory.page_tables (pt_idx address)) (pe_idx address) page);
}

-- `n` bytes from an offset of a page, and bytes put there.
abbrev pub page_bytes : Page → ℕ → ℕ → List ℕ
page_bytes page offset zero = []
page_bytes page offset (suc n) = page offset ∷ page_bytes page (suc offset) n

abbrev pub put_bytes : Page → ℕ → List ℕ → Page
put_bytes page offset [] = page
put_bytes page offset (b ∷ bs) = put_bytes (update page offset b) (suc offset) bs

-- A read of `n` bytes through the pointer, and a write of bytes.
unfoldable pub load_bytes : Memory → ℕ → ℕ → Result (List ℕ)
load_bytes memory address n = do
  page ← memory_find_page memory address
  if ltb 4096 (page_offset address + n) then fault else ok (page_bytes page (page_offset address) n)

unfoldable pub store_bytes : Memory → ℕ → List ℕ → Result Memory
store_bytes memory address bs = do
  page ← memory_find_page memory address
  if ltb 4096 (page_offset address + length bs)
      then fault
      else ok (store_page memory address (put_bytes page (page_offset address) bs))

unfoldable pub memory_read_u8 : Memory → ℕ → Result ℕ
memory_read_u8 memory address = do bs ← load_bytes memory address 1; ok (from_bytes bs)

unfoldable pub memory_read_u16 : Memory → ℕ → Result ℕ
memory_read_u16 memory address = do bs ← load_bytes memory address 2; ok (from_bytes bs)

unfoldable pub memory_read_u32 : Memory → ℕ → Result ℕ
memory_read_u32 memory address = do bs ← load_bytes memory address 4; ok (from_bytes bs)

-- The value is converted to the width of the parameter `data`.
unfoldable pub memory_write_u8 : Memory → ℕ → ℕ → Result Memory
memory_write_u8 memory address value = store_bytes memory address (to_bytes 1 value)

unfoldable pub memory_write_u16 : Memory → ℕ → ℕ → Result Memory
memory_write_u16 memory address value = store_bytes memory address (to_bytes 2 value)

unfoldable pub memory_write_u32 : Memory → ℕ → ℕ → Result Memory
memory_write_u32 memory address value = store_bytes memory address (to_bytes 4 value)

-- The bytes that a round of a copying loop moves.
abbrev pub amount_of : ℕ → ℕ → ℕ
amount_of address size =
    if ltb size (4096 - page_offset address) then size else 4096 - page_offset address

-- The loops over pages: each round moves a byte at least, so `size` rounds are enough.
unfoldable pub copy_read_loop : ℕ → Memory → ℕ → ℕ → Result (List ℕ)
copy_read_loop zero memory address size = if size == 0 then ok [] else timeout
copy_read_loop (suc fuel) memory address size = if size == 0 then ok [] else do
  chunk ← load_bytes memory address (amount_of address size)
  rest ←
      copy_read_loop fuel memory (u32 (address + amount_of address size))
        (size - amount_of address size)
  ok (chunk ++ rest)

unfoldable pub memory_copy_read : Memory → ℕ → ℕ → Result (List ℕ)
memory_copy_read memory address size = copy_read_loop size memory address size

unfoldable pub copy_write_loop : ℕ → Memory → ℕ → ℕ → List ℕ → Result Memory
copy_write_loop zero memory address size buffer = if size == 0 then ok memory else timeout
copy_write_loop (suc fuel) memory address size buffer = if size == 0 then ok memory else do
  memory' ← store_bytes memory address (take (amount_of address size) buffer)
  copy_write_loop fuel memory' (u32 (address + amount_of address size))
      (size - amount_of address size) (drop (amount_of address size) buffer)

-- `buffer` holds `size` bytes.
unfoldable pub memory_copy_write : Memory → ℕ → ℕ → List ℕ → Result Memory
memory_copy_write memory address size buffer = copy_write_loop size memory address size buffer

-- `memset` stores the value as an `unsigned char`.
unfoldable pub memory_set_loop : ℕ → Memory → ℕ → ℕ → ℕ → Result Memory
memory_set_loop zero memory address size value = if size == 0 then ok memory else timeout
memory_set_loop (suc fuel) memory address size value = if size == 0 then ok memory else do
  memory' ← store_bytes memory address (replicate (amount_of address size) (u8 value))
  memory_set_loop fuel memory' (u32 (address + amount_of address size))
      (size - amount_of address size) value

unfoldable pub memory_set : Memory → ℕ → ℕ → ℕ → Result Memory
memory_set memory address size value = memory_set_loop size memory address size value

-- `memory_create` on a zeroed `struct memory`, as each `main` declares one.
abbrev pub zeroed_memory : Memory
zeroed_memory = record {
  page_tables = λ _. none;
  brk_heap_start = 0;
  brk_heap_end = 0;
  mmap_heap_start = 0;
  mmap_heap_end = 0;
}

unfoldable pub memory_create : Memory → Memory
memory_create memory = record memory { mmap_heap_start = 0x40000000; mmap_heap_end = 0x40000000 }

module _ (calloc : Memory → ℕ → Bool) where
  -- `calloc memory n`: whether the host gives `n` zeroed bytes. The entry `e` of the table `t`.
  unfoldable pub allocate_entry : Memory → ℕ → ℕ → Result Memory
  allocate_entry memory t e = do
    table ← deref (memory.page_tables t)
    elim (table e) [
      | some page ↦ ok memory
      | none ↦
          if calloc memory 4096
          then ok (record memory {
            page_tables = update memory.page_tables t (some (update table e (some (λ _. 0))));
          })
          else aborted
    ]

  -- `for (e = entry_start; e <= entry_end; e++)` with the rounds counted.
  unfoldable pub allocate_entries : ℕ → Memory → ℕ → ℕ → Result Memory
  allocate_entries zero memory t e = ok memory
  allocate_entries (suc n) memory t e = do
    memory' ← allocate_entry memory t e
    allocate_entries n memory' t (suc e)

  unfoldable pub allocate_table : Memory → ℕ → Result Memory
  allocate_table memory t = elim (memory.page_tables t) [
    | some table ↦ ok memory
    | none ↦
        if calloc memory 8192
        then ok (record memory { page_tables = update memory.page_tables t (some (λ _. none)) })
        else aborted
  ]

  -- One round of the loop over tables, and the loop.
  unfoldable pub allocate_round : Memory → ℕ → ℕ → ℕ → Result Memory
  allocate_round memory address last t = do
    memory' ← allocate_table memory t
    let entry_start = if t == pt_idx address then pe_idx address else 0
    let entry_end = if t == pt_idx last then pe_idx last else 1023
    allocate_entries (suc entry_end - entry_start) memory' t entry_start

  unfoldable pub allocate_tables : ℕ → Memory → ℕ → ℕ → ℕ → Result Memory
  allocate_tables zero memory address last t = ok memory
  allocate_tables (suc n) memory address last t = do
    memory' ← allocate_round memory address last t
    allocate_tables n memory' address last (suc t)

  -- `last` is `address + size - 1`, at 32 bits.
  unfoldable pub memory_allocate : Memory → ℕ → ℕ → Result Memory
  memory_allocate memory address size =
      let last = u32 (address + size + 2 ^ 32 - 1) in
      allocate_tables (suc (pt_idx last) - pt_idx address) memory address last (pt_idx address)
