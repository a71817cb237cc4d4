-- ===== src/Blocked/Chain.antt =====
-- The block cache of blocked.c and its two loops (lines 246-316).
use comparing_complexity_and.Base.{
  ℕ, zero, suc, ◌≡◌, ◌≢◌, if◌then◌else◌, Bool, true, false, not, ◌||◌, Option, none, some, update,
  Result, ok, timeout, ◌>>=◌, deref,
}
use comparing_complexity_and.Machine.{mips_r_pc}
use comparing_complexity_and.Host.{Env, Machine}
use comparing_complexity_and.Blocked.{Block, decode_block, run_block}

-- uthash, of which the source uses `HASH_FIND` and `HASH_ADD` on the key `address`: a table finds
-- the item added for a key last, and no other.
pub record HashTable : Type 1 where
  pub Table : Type 0
  pub empty : Table
  pub find : ℕ → Table → Option ℕ
  pub add : ℕ → ℕ → Table → Table
  pub find-empty : (k : ℕ) → find k empty ≡ none
  pub find-add_self : (k h : ℕ) (t : Table) → find k (add k h t) ≡ some h
  pub find-add_ne : (j k h : ℕ) (t : Table) → j ≢ k → find j (add k h t) ≡ find j t

module _ (hash : HashTable) where
  -- The decoded blocks: the heap of blocks by handle, the next fresh handle, and the hash table.
  pub record Blocks : Type 0 where
    pub heap : ℕ → Option Block
    pub fresh : ℕ
    pub table : hash.Table

abbrev same_bool : Bool → Bool → Bool
same_bool true b = b
same_bool false b = not b

abbrev pub no_blocks : (hash : HashTable) → Blocks hash
no_blocks hash = record { heap = λ _. none; fresh = 0; table = hash.empty }

-- `previous->next[branched] = current;`
abbrev pub linked : Block → Bool → ℕ → Block
linked block branched current = record block {
  next = λ b. if same_bool b branched then some current else block.next b;
}

module _ (hash : HashTable) where
  -- `HASH_FIND`, and for a block that is not there `decode_block` and `HASH_ADD`.
  unfoldable pub find_or_decode : ℕ → Machine → Blocks hash → Result (ℕ × Blocks hash)
  find_or_decode fuel s b = elim (hash.find (s.mips.r mips_r_pc) b.table) [
    | some current ↦ ok (current, b)
    | none ↦ do
      block ← decode_block fuel s
      ok (
        b.fresh,
        record {
          heap = update b.heap b.fresh (some block);
          fresh = suc b.fresh;
          table = hash.add block.address b.fresh b.table;
        },
      )
  ]

  -- `if (previous != NULL && !previous->indirect)`.
  unfoldable pub link_previous : Option ℕ → ℕ → Bool → Blocks hash → Result (Blocks hash)
  link_previous none current branched b = ok b
  link_previous (some previous) current branched b = do
    block ← deref (b.heap previous)
    ok (
        if block.indirect
        then b
        else record b { heap = update b.heap previous (some (linked block branched current)) })

  module _ (env : Env) (decode_fuel : ℕ) where
    -- The head of the outer loop, and what then runs the inner one from the block found.
    unfoldable pub outer :
        (ℕ → Machine → Blocks hash → Result Machine)
        → Option ℕ
        → Machine
        → Blocks hash
        → Result Machine
    outer inner previous s b = if s.mips.halted then ok s else do
      (current, b₁) ← find_or_decode decode_fuel s b
      b₂ ← link_previous previous current s.mips.branched b₁
      inner current s b₂

    -- The inner loop: a unit of fuel for each block that is run.
    unfoldable pub chained : ℕ → ℕ → Machine → Blocks hash → Result Machine
    chained zero current s b = timeout
    chained (suc fuel) current s b = do
      block ← deref (b.heap current)
      s' ← run_block env block s
      elim (if block.indirect || s'.mips.halted then none else block.next s'.mips.branched) [
        | some following ↦ chained fuel following s' b
        | none ↦ outer (chained fuel) (some current) s' b
      ]

    unfoldable pub interpreter_blocked : ℕ → Machine → Result Machine
    interpreter_blocked fuel s = outer (chained fuel) none s (no_blocks hash)
