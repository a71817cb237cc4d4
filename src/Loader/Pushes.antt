-- ===== src/Loader/Pushes.antt =====
-- Words pushed on the guest's stack (the writes at the end of `loader_load_sp` in loader.c).
use comparing_complexity_and.Base.{
  ℕ, zero, suc, ◌+◌, ◌-◌, ◌*◌, ◌%◌, ◌^◌, ◌≤◌, ◌<◌, ◌≡◌, refl, ◌∙◌, arith, List, [], ◌∷◌, length,
  map, Result, ok, ◌>>=◌, >>=-eq-ok, ok-injective, subst,
}
use comparing_complexity_and.Word.{u32, to_bytes}
use comparing_complexity_and.Machine.{Mips, set_r, mips_r_sp}
use comparing_complexity_and.Memory.{Memory, page_offset, memory_read_u32, memory_write_u32}
use comparing_complexity_and.Memory.Flat.{byte_at, read_flat, load_bytes-eq-read_flat}
use comparing_complexity_and.Memory.Access.{
  byte_at-write_flat, store_bytes-write_flat, memory_read_u32-memory_write_u32,
}
use comparing_complexity_and.Loader.Stack.{push, push_auxv}

-- `n` words from an address on.
unfoldable pub words_at : Memory → ℕ → ℕ → Result (List ℕ)
words_at m x zero = ok []
words_at m x (suc n) = do w ← memory_read_u32 m x; rest ← words_at m (u32 (x + 4)) n; ok (w ∷ rest)

-- The bytes from an address on are the same.
abbrev pub SameFrom : ℕ → Memory → Memory → Type 0
SameFrom x m m' = (y : ℕ) → x ≤ y → y < 2 ^ 32 → byte_at m' y ≡ byte_at m y

pub read_flat-SameFrom :
    (m m' : Memory) (x z n : ℕ)
    → SameFrom z m m'
    → z ≤ x
    → x + n < 2 ^ 32
    → read_flat m' x n ≡ read_flat m x n
unfolding read_flat
read_flat-SameFrom m m' x z zero same le fits = refl
read_flat-SameFrom m m' x z (suc n) same le fits =
    let next : u32 (x + 1) ≡ x + 1 = omega arith in
    rw (
      next,
      same x le (omega arith),
      read_flat-SameFrom m m' (x + 1) z n same (omega arith) (omega arith),
    )

memory_read_u32-SameFrom :
    (m m' : Memory) (x z : ℕ)
    → SameFrom z m m'
    → z ≤ x
    → x % 4 ≡ 0
    → x + 4 < 2 ^ 32
    → memory_read_u32 m' x ≡ memory_read_u32 m x
unfolding memory_read_u32
memory_read_u32-SameFrom m m' x z same le aligned fits =
    let inside : page_offset x + 4 ≤ 4096 = omega arith in
    let e = load_bytes-eq-read_flat m x 4 (omega arith) inside in
    let e' = load_bytes-eq-read_flat m' x 4 (omega arith) inside in
    rw (e, e', read_flat-SameFrom m m' x z 4 same le fits)

words_at-SameFrom :
    (m m' : Memory) (x z n : ℕ)
    → SameFrom z m m'
    → z ≤ x
    → x % 4 ≡ 0
    → x + 4 * n < 2 ^ 32
    → words_at m' x n ≡ words_at m x n
unfolding words_at
words_at-SameFrom m m' x z zero same le aligned fits = refl
words_at-SameFrom m m' x z (suc n) same le aligned fits =
    let next : u32 (x + 4) ≡ x + 4 = omega arith in
    rw (
      next,
      memory_read_u32-SameFrom m m' x z same le aligned (omega arith),
      words_at-SameFrom m m' (x + 4) z n same (omega arith) (omega arith) (omega arith),
    )

-- A write of a word changes no byte behind it.
memory_write_u32-SameFrom :
    (m m' : Memory) (x v : ℕ)
    → x + 4 < 2 ^ 32
    → memory_write_u32 m x v ≡ ok m'
    → SameFrom (x + 4) m m'
unfolding memory_write_u32 to_bytes
memory_write_u32-SameFrom m m' x v fits e y le hy =
    let flat = (store_bytes-write_flat m m' x (to_bytes 4 v) (omega arith) e).1 in
    byte_at-write_flat m m' x y (to_bytes 4 v) (omega arith) hy (omega arith) flat ∙ ground arith

-- The words lie on the stack, the first one on its top, and nothing behind them has changed.
pub record Pushed (ws : List ℕ) (s s' : Mips × Memory) : Type 0 where
  pub moved : s'.0.r mips_r_sp + 4 * length ws ≡ s.0.r mips_r_sp
  pub words : words_at s'.1 (s'.0.r mips_r_sp) (length ws) ≡ ok (map u32 ws)
  pub above : SameFrom (s.0.r mips_r_sp) s.1 s'.1

pub none-Pushed : (s : Mips × Memory) → Pushed [] s s
unfolding words_at
none-Pushed s = record { moved = omega arith; words = refl; above = λ y p q. refl }

-- One word more.
write-Pushed :
    (ws : List ℕ) (v : ℕ) (s s₁ : Mips × Memory) (m₂ : Memory)
    → s.0.r mips_r_sp % 4 ≡ 0
    → s.0.r mips_r_sp < 2 ^ 31 + 1
    → 4 + 4 * length ws ≤ s.0.r mips_r_sp
    → Pushed ws s s₁
    → memory_write_u32 s₁.1 (s₁.0.r mips_r_sp - 4) v ≡ ok m₂
    → Pushed (v ∷ ws) s (set_r mips_r_sp (s₁.0.r mips_r_sp - 4) s₁.0, m₂)
unfolding words_at
write-Pushed ws v s s₁ m₂ aligned top room before e =
    let sp = s₁.0.r mips_r_sp in
    let moved = before.moved in
    let back : sp - 4 + 4 ≡ sp = omega arith in
    let next : u32 (sp - 4 + 4) ≡ sp = omega arith in
    let same : SameFrom sp s₁.1 m₂ =
      λ y p q. memory_write_u32-SameFrom s₁.1 m₂ (sp - 4) v (omega arith) e y (omega arith) q in
    let read = memory_read_u32-memory_write_u32 s₁.1 m₂ (sp - 4) v (omega arith) e in
    let rest =
      words_at-SameFrom s₁.1 m₂ sp sp (length ws) same (omega arith) (omega arith) (omega arith) in
    record {
      moved = omega arith;
      words = rw (read, next, rest, before.words);
      above = λ y p q. same y (omega arith) q ∙ before.above y p q;
    }

pub push-Pushed :
    (ws : List ℕ) (v : ℕ) (s s₁ s₂ : Mips × Memory)
    → s.0.r mips_r_sp % 4 ≡ 0
    → s.0.r mips_r_sp < 2 ^ 31 + 1
    → 4 + 4 * length ws ≤ s.0.r mips_r_sp
    → Pushed ws s s₁
    → push v s₁ ≡ ok s₂
    → Pushed (v ∷ ws) s s₂
unfolding push
push-Pushed ws v s s₁ s₂ aligned top room before e =
    let moved = before.moved in
    let at : u32 (s₁.0.r mips_r_sp + 2 ^ 32 - 4) ≡ s₁.0.r mips_r_sp - 4 = omega arith in
    let (m₂, written, done) =
      >>=-eq-ok (memory_write_u32 s₁.1 (s₁.0.r mips_r_sp - 4) v) _ (rw at at e) in
    subst (Pushed (v ∷ ws) s) (ok-injective done)
      (write-Pushed ws v s s₁ m₂ aligned top room before written)

-- The entries of `auxv[]` as they lie in memory.
abbrev pub flat : List (ℕ × ℕ) → List ℕ
flat [] = []
flat (entry ∷ entries) = entry.0 ∷ entry.1 ∷ flat entries

pub push_auxv-Pushed :
    (entries : List (ℕ × ℕ)) (s s' : Mips × Memory)
    → s.0.r mips_r_sp % 4 ≡ 0
    → s.0.r mips_r_sp < 2 ^ 31 + 1
    → 4 * length (flat entries) ≤ s.0.r mips_r_sp
    → push_auxv entries s ≡ ok s'
    → Pushed (flat entries) s s'
unfolding push_auxv
push_auxv-Pushed [] s s' aligned top room e = subst (Pushed [] s) (ok-injective e) (none-Pushed s)
push_auxv-Pushed (entry ∷ entries) s s' aligned top room e =
    let (s₁, rest, e₁) = >>=-eq-ok (push_auxv entries s) _ e in
    let (s₂, value, type) = >>=-eq-ok (push entry.1 s₁) _ e₁ in
    let before = push_auxv-Pushed entries s s₁ aligned top (omega arith) rest in
    push-Pushed (entry.1 ∷ flat entries) entry.0 s s₂ s' aligned top (omega arith)
      (push-Pushed (flat entries) entry.1 s s₁ s₂ aligned top (omega arith) before value) type
