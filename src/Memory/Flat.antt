-- ===== src/Memory/Flat.antt =====
-- The memory as a guest sees it: a byte at each 32-bit address. Accesses within a page are
-- accesses of its bytes one after the other.
use comparing_complexity_and.Base.{
  ℕ, zero, suc, ◌+◌, ◌^◌, ◌≤◌, ◌<◌, ◌≡◌, ◌⊎◌, inl, inr, refl, sym, ap, ◌∙◌, arith, ◌==◌,
  if◌then◌else◌, Bool, true, Option, none, some, List, [], ◌∷◌, ◌++◌, length, update, update-update,
  Result, ok, fault, ◌>>=◌, >>=-eq-ok, >>=_ok, >>=_assoc, ◌&&◌, fun_ext, le→ltb_false, Option-cases,
}
use comparing_complexity_and.Word.{u32}
use comparing_complexity_and.Memory.{
  Memory, Page, PageTable, pt_idx, pe_idx, page_offset, memory_find_page, store_page, entry_stored,
  page_bytes, put_bytes, load_bytes, store_bytes,
}

unfoldable pub byte_at : Memory → ℕ → Result ℕ
byte_at memory x = do page ← memory_find_page memory x; ok (page (page_offset x))

unfoldable pub write_byte : Memory → ℕ → ℕ → Result Memory
write_byte memory x b = do
  page ← memory_find_page memory x
  ok (store_page memory x (update page (page_offset x) b))

-- The bytes from an address on, across pages and around the end of the address space.
unfoldable pub read_flat : Memory → ℕ → ℕ → Result (List ℕ)
read_flat memory x zero = ok []
read_flat memory x (suc n) = do
  b ← byte_at memory x
  rest ← read_flat memory (u32 (x + 1)) n
  ok (b ∷ rest)

unfoldable pub write_flat : Memory → ℕ → List ℕ → Result Memory
write_flat memory x [] = ok memory
write_flat memory x (b ∷ bs) = do
  memory' ← write_byte memory x b
  write_flat memory' (u32 (x + 1)) bs

abbrev pub same_page : ℕ → ℕ → Bool
same_page x y = (pt_idx x == pt_idx y) && (pe_idx x == pe_idx y)

pub find_page-eq-ok :
    (m : Memory) (x : ℕ) {p : Page}
    → memory_find_page m x ≡ ok p
    → (t : PageTable) × (m.page_tables (pt_idx x) ≡ some t) × (t (pe_idx x) ≡ some p)
unfolding memory_find_page
find_page-eq-ok m x h = ground arith

-- Looking a page up either finds one or meets a null pointer.
pub find_page-cases :
    (m : Memory) (x : ℕ)
    → ((p : Page) × (memory_find_page m x ≡ ok p)) ⊎ (memory_find_page m x ≡ fault)
unfolding memory_find_page
find_page-cases m x = elim (Option-cases (m.page_tables (pt_idx x))) [
  | inl e ↦ inr (rw e)
  | inr (t, e) ↦ elim (Option-cases (t (pe_idx x))) [
    | inl f ↦ inr (rw (e, f))
    | inr (p, f) ↦ inl (p, rw (e, f))
  ]
]

pub find_page-store_page :
    (m : Memory) (x y : ℕ) (p q : Page)
    → memory_find_page m x ≡ ok q
    → memory_find_page (store_page m x p) y ≡ (if same_page y x then ok p else memory_find_page m y)
unfolding memory_find_page store_page
find_page-store_page m x y p q h = ground arith

entry_stored-entry_stored :
    (o : Option PageTable) (e : ℕ) (p q : Page)
    → entry_stored (entry_stored o e p) e q ≡ entry_stored o e q
entry_stored-entry_stored none e p q = refl
entry_stored-entry_stored (some table) e p q = ap some (update-update table e (some p) (some q))

pub store_page-store_page :
    (m : Memory) (x y : ℕ) (p q : Page)
    → pt_idx y ≡ pt_idx x
    → pe_idx y ≡ pe_idx x
    → store_page (store_page m x p) y q ≡ store_page m x q
unfolding store_page
store_page-store_page m x y p q e f =
    ap (λ t. record m { page_tables = t })
      (fun_ext
        λ i. ground (arith, entry_stored-entry_stored (m.page_tables (pt_idx x)) (pe_idx x) p q))

byte_at-store_page :
    (m : Memory) (x y : ℕ) (p q : Page)
    → memory_find_page m x ≡ ok q
    → byte_at (store_page m x p) y ≡ (if same_page y x then ok (p (page_offset y)) else byte_at m y)
unfolding byte_at
byte_at-store_page m x y p q h = ground (arith, find_page-store_page m x y p q h)

-- A write to one byte is seen at its address and nowhere else.
pub byte_at-write_byte :
    (m : Memory) {m' : Memory} (x y b : ℕ)
    → x < 2 ^ 32
    → y < 2 ^ 32
    → write_byte m x b ≡ ok m'
    → byte_at m' y ≡ (if y == x then ok b else byte_at m y)
unfolding write_byte
byte_at-write_byte m x y b hx hy h =
    let (p, found, stored) = >>=-eq-ok (memory_find_page m x) _ h in
    let after = byte_at-store_page m x y (update p (page_offset x) b) p found in
    let before : byte_at m y ≡ (memory_find_page m y >>= λ q. ok (q (page_offset y))) =
      unfold byte_at in refl in
    let same : same_page y x ≡ true → memory_find_page m y ≡ memory_find_page m x =
      λ e. unfold memory_find_page in ground arith in
    ground (arith, after, before, same, found, stored)

pub find_page-next :
    (m : Memory) (x : ℕ)
    → page_offset x + 1 < 4096
    → memory_find_page m (u32 (x + 1)) ≡ memory_find_page m x
unfolding memory_find_page
find_page-next m x h = ground arith

page_offset-next :
    (x : ℕ) → page_offset x + 1 < 4096 → page_offset (u32 (x + 1)) ≡ suc (page_offset x)
page_offset-next x h = omega arith

same_page-next : (x : ℕ) → page_offset x + 1 < 4096 → same_page (u32 (x + 1)) x ≡ true
same_page-next x h = ground arith

read_flat_page :
    (m : Memory) (x n : ℕ) (p : Page)
    → memory_find_page m x ≡ ok p
    → page_offset x + n ≤ 4096
    → read_flat m x n ≡ ok (page_bytes p (page_offset x) n)
unfolding read_flat byte_at
read_flat_page m x zero p h fits = refl
read_flat_page m x (suc zero) p h fits = rw h
read_flat_page m x (suc (suc n)) p h fits =
    let e = page_offset-next x (omega arith) in
    let rest =
      read_flat_page m (u32 (x + 1)) (suc n) p (find_page-next m x (omega arith) ∙ h)
        (rw e (omega arith)) in
    rw (h, rest, e)

pub load_bytes-eq-read_flat :
    (m : Memory) (x n : ℕ) → 0 < n → page_offset x + n ≤ 4096 → load_bytes m x n ≡ read_flat m x n
unfolding load_bytes
load_bytes-eq-read_flat m x zero pos fits = absurd (omega arith)
load_bytes-eq-read_flat m x (suc n) pos fits = elim (find_page-cases m x) [
  | inl (p, e) ↦
      rw (e, le→ltb_false 4096 (page_offset x + suc n) fits)
        (sym (read_flat_page m x (suc n) p e fits))
  | inr e ↦ rw e (sym (unfold read_flat byte_at in rw e))
]

write_flat_page :
    (m : Memory) (x b : ℕ) (bs : List ℕ) (p : Page)
    → memory_find_page m x ≡ ok p
    → page_offset x + length (b ∷ bs) ≤ 4096
    → write_flat m x (b ∷ bs) ≡ ok (store_page m x (put_bytes p (page_offset x) (b ∷ bs)))
unfolding write_flat write_byte
write_flat_page m x b [] p h fits = rw h
write_flat_page m x b (c ∷ bs) p h fits =
    let e = page_offset-next x (omega arith) in
    let p' = update p (page_offset x) b in
    let found : memory_find_page (store_page m x p') (u32 (x + 1)) ≡ ok p' =
      find_page-store_page m x (u32 (x + 1)) p' p h
      ∙ ground (arith, same_page-next x (omega arith)) in
    let rest =
      write_flat_page (store_page m x p') (u32 (x + 1)) c bs p' found (rw e (omega arith)) in
    let first : write_byte m x b ≡ ok (store_page m x p') = rw h in
    let merged =
      store_page-store_page m x (u32 (x + 1)) p' (put_bytes p' (page_offset (u32 (x + 1))) (c ∷ bs))
        (omega arith) (omega arith) in
    ap (λ r. r >>= λ m'. write_flat m' (u32 (x + 1)) (c ∷ bs)) first
    ∙ rest
    ∙ ap ok merged
    ∙ ap (λ o. ok (store_page m x (put_bytes p' o (c ∷ bs)))) e

-- A write within a page is a write of its bytes one after the other.
pub store_bytes-eq-write_flat :
    (m : Memory) (x : ℕ) (bs : List ℕ)
    → 0 < length bs
    → page_offset x + length bs ≤ 4096
    → store_bytes m x bs ≡ write_flat m x bs
unfolding store_bytes
store_bytes-eq-write_flat m x [] pos fits = absurd (omega arith)
store_bytes-eq-write_flat m x (b ∷ bs) pos fits = elim (find_page-cases m x) [
  | inl (p, e) ↦
      rw (e, le→ltb_false 4096 (page_offset x + length (b ∷ bs)) fits)
        (sym (write_flat_page m x b bs p e fits))
  | inr e ↦ rw e (sym (unfold write_flat write_byte in rw e))
]

u32-next : (x i : ℕ) → u32 (u32 (x + 1) + i) ≡ u32 (x + suc i)
u32-next x i = omega arith

-- A flat access of two ranges, one behind the other.
pub read_flat-append :
    (m : Memory) (x i j : ℕ)
    → x < 2 ^ 32
    → read_flat m x (i + j)
      ≡ (read_flat m x i >>= λ xs. read_flat m (u32 (x + i)) j >>= λ ys. ok (xs ++ ys))
unfolding read_flat
read_flat-append m x zero j h =
    let e : u32 (x + 0) ≡ x = omega arith in let e' : 0 + j ≡ j = omega arith in rw (e, e', >>=_ok)
read_flat-append m x (suc i) j h =
    let e : suc i + j ≡ suc (i + j) = omega arith in
    let ih = read_flat-append m (u32 (x + 1)) i j (omega arith) in
    rw (e, ih) (simp (>>=_assoc, u32-next x i))

pub write_flat-append :
    (m : Memory) (x : ℕ) (xs ys : List ℕ)
    → x < 2 ^ 32
    → write_flat m x (xs ++ ys)
      ≡ (write_flat m x xs >>= λ m'. write_flat m' (u32 (x + length xs)) ys)
unfolding write_flat
write_flat-append m x [] ys h = let e : u32 (x + 0) ≡ x = omega arith in rw e
write_flat-append m x (b ∷ xs) ys h =
    let ih = λ (m' : Memory). write_flat-append m' (u32 (x + 1)) xs ys (omega arith) in
    ap (λ k. write_byte m x b >>= k)
      (fun_ext λ m'.
        ih m'
        ∙ ap (λ a. write_flat m' (u32 (x + 1)) xs >>= λ m''. write_flat m'' a ys)
            (u32-next x (length xs)))
    ∙ sym (>>=_assoc (write_byte m x b) _ _)
