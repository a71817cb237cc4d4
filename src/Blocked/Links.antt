-- ===== src/Blocked/Links.antt =====
-- `link_previous` of blocked.c keeps the invariant of the block cache.
use comparing_complexity_and.Base.{
  ℕ, ◌+◌, ◌-◌, ◌*◌, ◌≡◌, ◌⊎◌, inl, inr, Bool, true, false, if◌then◌else◌, Option, some, length,
  update, update_self, update-ne, update-cases, same-cases, ok, ok-injective, Bool-cases, if-true,
  if-false, refl, sym, ap, ap₂, ◌∙◌, subst,
}
use comparing_complexity_and.Word.{u32}
use comparing_complexity_and.Machine.{mips_r_pc}
use comparing_complexity_and.Host.{Env, Machine}
use comparing_complexity_and.Blocked.{Block, duff, run_block}
use comparing_complexity_and.Blocked.Chain.{HashTable, Blocks, linked, link_previous}
use comparing_complexity_and.Blocked.Decode.{IsDecoded}
use comparing_complexity_and.Blocked.Next.{words_dest, run_block-next}
use comparing_complexity_and.Blocked.Cache.{
  Holds, IsCached, IsCache, HasRun, IsCached-grown, some-injective,
}

linked-next :
    (block : Block) (b taken : Bool) (current h : ℕ)
    → (linked block b current).next taken ≡ some h
    → ((taken ≡ b) × (current ≡ h)) ⊎ (block.next taken ≡ some h)
linked-next block true true current h e = inl (refl, some-injective e)
linked-next block true false current h e = inr e
linked-next block false true current h e = inr e
linked-next block false false current h e = inl (refl, some-injective e)

module _ (env : Env) (hash : HashTable) (start : Machine) where
  -- The heap with a block linked.
  relinked : ℕ → Block → Bool → ℕ → Blocks hash → Blocks hash
  relinked previous block taken current b = record b {
    heap = update b.heap previous (some (linked block taken current));
  }

  link_previous-direct :
      (previous current : ℕ) (taken : Bool) (b : Blocks hash) (block : Block)
      → b.heap previous ≡ some block
      → link_previous hash (some previous) current taken b
        ≡ ok (if block.indirect then b else relinked previous block taken current b)
  unfolding link_previous relinked
  link_previous-direct previous current taken b block e = rw e

  -- A linked block keeps its address, so that other links still lead where they led.
  relinked-Holds :
      (previous current : ℕ) (taken : Bool) (b : Blocks hash) (block : Block) (h k : ℕ)
      → b.heap previous ≡ some block
      → Holds b.heap h k
      → Holds (update b.heap previous (some (linked block taken current))) h k
  relinked-Holds previous current taken b block h k e (bl, at, address) =
      elim (same-cases h previous) [
        | inl same ↦
            let it : block ≡ bl = some-injective (sym e ∙ sym (ap b.heap same) ∙ at) in
            (
              linked block taken current,
              ap (update b.heap previous (some (linked block taken current))) same
                  ∙ update_self b.heap previous (some (linked block taken current)),
              ap (λ (x : Block). x.address) it ∙ address,
            )
        | inr other ↦ (
          bl,
          update-ne b.heap previous h (some (linked block taken current)) other ∙ at,
          address,
        )
      ]

  -- Two runs of a direct block that leave the same flag end at the same place.
  same_next :
      (block : Block) (s₀ t t' s u : Machine)
      → IsDecoded s₀ block
      → block.indirect ≡ false
      → t.mips.r mips_r_pc ≡ t'.mips.r mips_r_pc
      → run_block env block t ≡ ok s
      → run_block env block t' ≡ ok u
      → s.mips.branched ≡ u.mips.branched
      → s.mips.r mips_r_pc ≡ u.mips.r mips_r_pc
  same_next block s₀ t t' s u d direct at ran ran' flag =
      run_block-next env t s₀ s block d direct ran
      ∙ ap₂ (λ pc taken. words_dest d.ws (u32 (pc + 4 * (length d.ws - 2))) taken) at flag
      ∙ sym (run_block-next env t' s₀ u block d direct ran')

  -- The new link of a block that has run to where the next block starts, and the other one.
  linked-IsCached :
      (heap : ℕ → Option Block) (block : Block) (current : ℕ) (t s : Machine)
      → block.indirect ≡ false
      → t.mips.r mips_r_pc ≡ block.address
      → run_block env block t ≡ ok s
      → Holds heap current (s.mips.r mips_r_pc)
      → IsCached env start heap block
      → IsCached env start heap (linked block s.mips.branched current)
  unfolding run_block duff
  linked-IsCached heap block current t s direct at ran holds c =
      let d = c.decoded in
      record {
        from = c.from;
        reached = c.reached;
        decoded = record {
          ws = d.ws;
          last = d.last;
          decodes = d.decodes;
          two = d.two;
          ops = d.ops;
          size = d.size;
          indirect = d.indirect;
          address = d.address;
        };
        links = λ taken h e t' u at' ran' flag.
            elim (linked-next block s.mips.branched taken current h e) [
              | inl (now, same) ↦
                  subst (λ k. Holds heap k (u.mips.r mips_r_pc)) same
                    (subst (Holds heap current)
                      (same_next block c.from t t' s u d direct (at ∙ sym at') ran ran'
                        (sym (flag ∙ now)))
                      holds)
              | inr old ↦ c.links taken h old t' u at' ran' flag
            ];
      }

  relinked-IsCache :
      (previous current : ℕ) (b : Blocks hash) (block : Block) (t s : Machine)
      → b.heap previous ≡ some block
      → block.indirect ≡ false
      → t.mips.r mips_r_pc ≡ block.address
      → run_block env block t ≡ ok s
      → Holds b.heap current (s.mips.r mips_r_pc)
      → IsCache env hash start b
      → IsCache env hash start (relinked previous block s.mips.branched current b)
  unfolding relinked
  relinked-IsCache previous current b block t s e direct at ran holds c =
      let block' = linked block s.mips.branched current in
      let grows = relinked-Holds previous current s.mips.branched b block in
      record {
        entries = λ h bl at_h. elim (update-cases b.heap previous h (some block') (some bl) at_h) [
          | inl (_, same) ↦
              subst (IsCached env start (update b.heap previous (some block')))
                (some-injective same)
                (IsCached-grown env (λ j k. grows j k e)
                  (linked-IsCached b.heap block current t s direct at ran holds
                    (c.entries previous block e)))
          | inr (_, old) ↦ IsCached-grown env (λ j k. grows j k e) (c.entries h bl old)
        ];
        below = λ h above. elim (same-cases h previous) [
          | inl same ↦ let n = c.below h above ∙ refl in let m = ap b.heap same in cc
          | inr other ↦ update-ne b.heap previous h (some block') other ∙ c.below h above
        ];
        found = λ k h at_h. grows h k e (c.found k h at_h);
      }

  -- `link_previous` links a block that has just been run to the block where the machine is.
  pub link_previous-IsCache :
      (previous current : ℕ) (s : Machine) (b b' : Blocks hash)
      → IsCache env hash start b
      → HasRun env b.heap previous s
      → Holds b.heap current (s.mips.r mips_r_pc)
      → link_previous hash (some previous) current s.mips.branched b ≡ ok b'
      → IsCache env hash start b' × Holds b'.heap current (s.mips.r mips_r_pc)
  unfolding relinked
  link_previous-IsCache previous current s b b' c (block, e, (t, at, ran)) holds ok_b' =
      let same =
        ok-injective
          (sym (link_previous-direct previous current s.mips.branched b block e) ∙ ok_b') in
      let new = relinked previous block s.mips.branched current b in
      let Good : Blocks hash → Type 0 =
        λ x. IsCache env hash start x × Holds x.heap current (s.mips.r mips_r_pc) in
      subst Good same (elim (Bool-cases block.indirect) [
        | inl kept ↦ subst Good (sym (if-true b new kept)) (c, holds)
        | inr direct ↦ subst Good (sym (if-false b new direct)) (
          relinked-IsCache previous current b block t s e direct at ran holds c,
          relinked-Holds previous current s.mips.branched b block current (s.mips.r mips_r_pc) e
              holds,
        )
      ])
