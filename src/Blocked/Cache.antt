-- ===== src/Blocked/Cache.antt =====
-- The block cache of blocked.c and its invariant, which `find_or_decode` keeps.
use comparing_complexity_and.Base.{
  ℕ, suc, ◌≤◌, ◌≡◌, inl, inr, Bool, false, Option, none, some, update, update_self, update-ne,
  update-cases, same-cases, ok, ◌>>=◌, >>=-eq-ok, ok-injective, Option-cases, refl, sym, ap, ◌∙◌,
  arith, subst,
}
use comparing_complexity_and.Machine.{mips_r_pc}
use comparing_complexity_and.Host.{Env, Machine}
use comparing_complexity_and.Blocked.{Block, decode_chain, decode_block, run_block}
use comparing_complexity_and.Blocked.Chain.{HashTable, Blocks, no_blocks, find_or_decode}
use comparing_complexity_and.Blocked.Decode.{IsDecoded, decode_block-IsDecoded}

-- The machines that a run comes to between blocks: each block is run from a machine that has not
-- halted, at the block's address, and was decoded at a machine that the run came to.
pub data Runs (env : Env) (start : Machine) : Machine → Type 0 where
  here : Runs env start start
  next :
      {t s₀ u : Machine} {block : Block}
      → Runs env start t
      → t.mips.halted ≡ false
      → Runs env start s₀
      → IsDecoded s₀ block
      → t.mips.r mips_r_pc ≡ block.address
      → run_block env block t ≡ ok u
      → Runs env start u

-- The heap holds a block of address `k` at handle `h`.
abbrev pub Holds : (ℕ → Option Block) → ℕ → ℕ → Type 0
Holds heap h k = (block : Block) × (heap h ≡ some block) × (block.address ≡ k)

pub some-injective {ℓ} : {A : Type ℓ} {a b : A} → some a ≡ some b → a ≡ b
some-injective e = cc

decode_block-next :
    (fuel : ℕ) (s : Machine) (block : Block) (k : Bool)
    → decode_block fuel s ≡ ok block
    → block.next k ≡ none
unfolding decode_block
decode_block-next fuel s block k e =
    let (out, _, made) =
      >>=-eq-ok (decode_chain fuel s.memory (s.mips.r mips_r_pc) false false) _ e in
    sym (ap (λ (b : Block). b.next k) (ok-injective made))

module _ (env : Env) where
  -- A link: wherever a run of the block that leaves the flag `taken` ends, the block that is linked
  -- for `taken` starts.
  abbrev pub Links : (ℕ → Option Block) → Block → Bool → ℕ → Type 0
  Links heap block taken h =
      (t u : Machine)
      → t.mips.r mips_r_pc ≡ block.address
      → run_block env block t ≡ ok u
      → u.mips.branched ≡ taken
      → Holds heap h (u.mips.r mips_r_pc)

  pub record IsCached (start : Machine) (heap : ℕ → Option Block) (block : Block) : Type 0 where
    pub from : Machine
    pub reached : Runs env start from
    pub decoded : IsDecoded from block
    pub links : (taken : Bool) (h : ℕ) → block.next taken ≡ some h → Links heap block taken h

  -- The invariant: each block was decoded at a machine of the run and its links lead to where it
  -- leads, handles are given out in order, and the table finds blocks by their addresses.
  pub record IsCache (hash : HashTable) (start : Machine) (b : Blocks hash) : Type 0 where
    pub entries : (h : ℕ) (block : Block) → b.heap h ≡ some block → IsCached start b.heap block
    pub below : (h : ℕ) → b.fresh ≤ h → b.heap h ≡ none
    pub found : (k h : ℕ) → hash.find k b.table ≡ some h → Holds b.heap h k

  -- The block at a handle is the one whose run led to the machine.
  abbrev pub HasRun : (ℕ → Option Block) → ℕ → Machine → Type 0
  HasRun heap h u =
      (block : Block) × (heap h ≡ some block)
      × ((t : Machine) × (t.mips.r mips_r_pc ≡ block.address) × (run_block env block t ≡ ok u))

  -- Nothing that a heap holds is lost or changes.
  abbrev pub Keeps : (ℕ → Option Block) → (ℕ → Option Block) → Type 0
  Keeps heap heap' = (h : ℕ) (block : Block) → heap h ≡ some block → heap' h ≡ some block

  Keeps-Holds :
      {heap heap' : ℕ → Option Block}
      → Keeps heap heap'
      → (h k : ℕ) → Holds heap h k
      → Holds heap' h k
  Keeps-Holds keeps h k (block, at, address) = (block, keeps h block at, address)

  pub Keeps-HasRun :
      {heap heap' : ℕ → Option Block}
      → Keeps heap heap'
      → (h : ℕ) (u : Machine) → HasRun heap h u
      → HasRun heap' h u
  Keeps-HasRun keeps h u (block, at, ran) = (block, keeps h block at, ran)

  -- A block stays cached in a heap that holds at least as much.
  pub IsCached-grown :
      {start : Machine} {heap heap' : ℕ → Option Block} {block : Block}
      → ((h k : ℕ) → Holds heap h k → Holds heap' h k)
      → IsCached start heap block
      → IsCached start heap' block
  IsCached-grown grows c = record {
    from = c.from;
    reached = c.reached;
    decoded = c.decoded;
    links = λ taken h e t u at ran flag. grows h _ (c.links taken h e t u at ran flag);
  }

  pub no_blocks-IsCache : (hash : HashTable) (start : Machine) → IsCache hash start (no_blocks hash)
  no_blocks-IsCache hash start = record {
    entries = λ h block e. cc;
    below = λ h e. refl;
    found = λ k h e. let n = hash.find-empty k in cc;
  }

  module _ (hash : HashTable) (start : Machine) where
    add_block-Keeps :
        (b : Blocks hash) (block : Block)
        → ((h : ℕ) → b.fresh ≤ h → b.heap h ≡ none)
        → Keeps b.heap (update b.heap b.fresh (some block))
    add_block-Keeps b block below h bl e = elim (same-cases h b.fresh) [
      | inl same ↦ let n = below h (omega arith) in cc
      | inr other ↦ update-ne b.heap b.fresh h (some block) other ∙ e
    ]

    -- `HASH_ADD` of a decoded block.
    added : Block → Blocks hash → Blocks hash
    added block b = record {
      heap = update b.heap b.fresh (some block);
      fresh = suc b.fresh;
      table = hash.add block.address b.fresh b.table;
    }

    -- A block that was decoded at a machine of the run is added at the fresh handle.
    add_block-IsCache :
        (s : Machine) (b : Blocks hash) (block : Block)
        → Runs env start s
        → IsDecoded s block
        → ((k : Bool) → block.next k ≡ none)
        → IsCache hash start b
        → IsCache hash start (added block b)
    unfolding added
    add_block-IsCache s b block reached d alone c =
        let keeps = add_block-Keeps b block c.below in
        record {
          entries = λ h bl e. elim (update-cases b.heap b.fresh h (some block) (some bl) e) [
            | inl (_, same) ↦
                subst (IsCached start (update b.heap b.fresh (some block))) (some-injective same)
                  (record {
                    from = s;
                    reached = reached;
                    decoded = d;
                    links = λ taken h e. let n = alone taken in cc;
                  })
            | inr (_, old) ↦ IsCached-grown (Keeps-Holds keeps) (c.entries h bl old)
          ];
          below = λ h above.
              update-ne b.heap b.fresh h (some block) (λ e. omega arith) ∙ c.below h (omega arith);
          found = λ k h e. elim (same-cases k block.address) [
            | inl same ↦
                let at : h ≡ b.fresh = some-injective (
                  sym e
                  ∙ ap (λ j. hash.find j (hash.add block.address b.fresh b.table)) same
                  ∙ hash.find-add_self block.address b.fresh b.table) in
                (
                  block,
                  ap (update b.heap b.fresh (some block)) at
                      ∙ update_self b.heap b.fresh (some block),
                  sym same,
                )
            | inr other ↦
                Keeps-Holds keeps h k
                  (c.found k h (sym (hash.find-add_ne k block.address b.fresh b.table other) ∙ e))
          ];
        }

    find_or_decode-missing :
        (fuel : ℕ) (s : Machine) (b : Blocks hash)
        → hash.find (s.mips.r mips_r_pc) b.table ≡ none
        → find_or_decode hash fuel s b
          ≡ (decode_block fuel s >>= λ block. ok (b.fresh, added block b))
    unfolding added find_or_decode
    find_or_decode-missing fuel s b e = rw (e, find_or_decode)

    find_or_decode-found :
        (fuel h : ℕ) (s : Machine) (b : Blocks hash)
        → hash.find (s.mips.r mips_r_pc) b.table ≡ some h
        → find_or_decode hash fuel s b ≡ ok (h, b)
    unfolding find_or_decode
    find_or_decode-found fuel h s b e = rw (e, find_or_decode)

    -- A block for a machine, in a cache.
    abbrev pub Found : Machine → (ℕ → Option Block) → ℕ × Blocks hash → Type 0
    Found s heap out =
        IsCache hash start out.1
        × Holds out.1.heap out.0 (s.mips.r mips_r_pc)
        × Keeps heap out.1.heap

    -- `find_or_decode` finds or adds a block that starts where the machine is.
    pub find_or_decode-IsCache :
        (fuel : ℕ) (s : Machine) (b : Blocks hash) (out : ℕ × Blocks hash)
        → Runs env start s
        → IsCache hash start b
        → find_or_decode hash fuel s b ≡ ok out
        → Found s b.heap out
    unfolding added
    find_or_decode-IsCache fuel s b out reached c e =
        elim (Option-cases (hash.find (s.mips.r mips_r_pc) b.table)) [
          | inl missing ↦
              let (block, decoded, same) =
                >>=-eq-ok (decode_block fuel s) _
                  (sym (find_or_decode-missing fuel s b missing) ∙ e) in
              let d = decode_block-IsDecoded fuel s block decoded in
              subst (Found s b.heap) (ok-injective same) (
                add_block-IsCache s b block reached d
                    (λ k. decode_block-next fuel s block k decoded) c,
                (block, update_self b.heap b.fresh (some block), d.address),
                add_block-Keeps b block c.below,
              )
          | inr (h, there) ↦
              subst (Found s b.heap)
                (ok-injective (sym (find_or_decode-found fuel h s b there) ∙ e))
                (c, c.found (s.mips.r mips_r_pc) h there, λ h block at. at)
        ]
