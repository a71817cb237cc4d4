-- ===== src/Blocked/Runs.antt =====
-- The two loops of `interpreter_blocked` in blocked.c run every block where it starts.
use comparing_complexity_and.Base.{
  ℕ, zero, suc, ◌≡◌, inl, inr, Bool, true, false, if◌then◌else◌, ◌||◌, Option, none, some, Result,
  ok, ◌>>=◌, >>=-eq-ok, ok-injective, timeout-ne-ok, deref, deref-eq-ok, Bool-cases, refl, sym, ap,
  ◌∙◌, subst,
}
use comparing_complexity_and.Machine.{mips_r_pc}
use comparing_complexity_and.Host.{Env, Machine}
use comparing_complexity_and.Blocked.{Block, run_block}
use comparing_complexity_and.Blocked.Chain.{
  HashTable, Blocks, no_blocks, find_or_decode, link_previous, outer, chained, interpreter_blocked,
}
use comparing_complexity_and.Blocked.Cache.{
  Runs, here, next, Holds, IsCached, IsCache, HasRun, Found, Keeps-HasRun, some-injective,
  no_blocks-IsCache, find_or_decode-IsCache,
}
use comparing_complexity_and.Blocked.Links.{link_previous-IsCache}

unless_some :
    (i h : Bool) (o : Option ℕ) (k : ℕ)
    → (if i || h then none else o) ≡ some k
    → (h ≡ false) × (o ≡ some k)
unless_some true h o k e = cc
unless_some false true o k e = cc
unless_some false false o k e = (refl, e)

module _ (hash : HashTable) (env : Env) (decode_fuel : ℕ) (start : Machine) where
  -- The run came here, and it has halted.
  abbrev pub Ends : Machine → Type 0
  Ends s = Runs env start s × (s.mips.halted ≡ true)

  -- What a block to run next is: in the cache, at the machine's address, before the end.
  pub record IsReady (current : ℕ) (s : Machine) (b : Blocks hash) : Type 0 where
    pub cache : IsCache env hash start b
    pub at : Holds b.heap current (s.mips.r mips_r_pc)
    pub reached : Runs env start s
    pub running : s.mips.halted ≡ false

  abbrev WellRun : (ℕ → Machine → Blocks hash → Result Machine) → Type 0
  WellRun inner =
      (current : ℕ) (s s' : Machine) (b : Blocks hash)
      → IsReady current s b
      → inner current s b ≡ ok s'
      → Ends s'

  HasRunBefore : (ℕ → Option Block) → Option ℕ → Machine → Type 0
  HasRunBefore heap none s = Unit
  HasRunBefore heap (some previous) s = HasRun env heap previous s

  link_previous-Ready :
      (previous : Option ℕ) (current : ℕ) (s : Machine) (b b₁ b₂ : Blocks hash)
      → HasRunBefore b.heap previous s
      → Found env hash start s b.heap (current, b₁)
      → link_previous hash previous current s.mips.branched b₁ ≡ ok b₂
      → IsCache env hash start b₂ × Holds b₂.heap current (s.mips.r mips_r_pc)
  unfolding HasRunBefore link_previous
  link_previous-Ready none current s b b₁ b₂ ran (cache, at, keeps) e =
      subst
        (λ (x : Blocks hash). IsCache env hash start x × Holds x.heap current (s.mips.r mips_r_pc))
        (ok-injective e) (cache, at)
  link_previous-Ready (some previous) current s b b₁ b₂ ran (cache, at, keeps) e =
      link_previous-IsCache env hash start previous current s b₁ b₂ cache
        (Keeps-HasRun env keeps previous s ran) at e

  -- The block that is run next, and the machine behind it.
  ready_block :
      (current : ℕ) (s : Machine) (b : Blocks hash) (block : Block)
      → IsReady current s b
      → b.heap current ≡ some block
      → (s.mips.r mips_r_pc ≡ block.address) × IsCached env start b.heap block
  ready_block current s b block ready at =
      let (found, holds, address) = ready.at in
      let same : found ≡ block = some-injective (sym holds ∙ at) in
      (sym address ∙ ap (λ (x : Block). x.address) same, ready.cache.entries current block at)

  ready_next :
      (current : ℕ) (s u : Machine) (b : Blocks hash) (block : Block)
      → IsReady current s b
      → b.heap current ≡ some block
      → run_block env block s ≡ ok u
      → Runs env start u
  ready_next current s u b block ready at ran =
      let (address, cached) = ready_block current s b block ready at in
      next ready.reached ready.running cached.reached cached.decoded address ran

  outer-halted :
      (inner : ℕ → Machine → Blocks hash → Result Machine) (previous : Option ℕ) (s : Machine)
      (b : Blocks hash)
      → s.mips.halted ≡ true
      → outer hash env decode_fuel inner previous s b ≡ ok s
  unfolding outer
  outer-halted inner previous s b h = rw h

  outer-running :
      (inner : ℕ → Machine → Blocks hash → Result Machine) (previous : Option ℕ) (s : Machine)
      (b : Blocks hash)
      → s.mips.halted ≡ false
      → outer hash env decode_fuel inner previous s b ≡ (
          find_or_decode hash decode_fuel s b >>= λ r.
          link_previous hash previous r.0 s.mips.branched r.1 >>= λ b₂. inner r.0 s b₂)
  unfolding outer
  outer-running inner previous s b h = rw h

  outer-Ends :
      (inner : ℕ → Machine → Blocks hash → Result Machine) (previous : Option ℕ) (s s' : Machine)
      (b : Blocks hash)
      → WellRun inner
      → IsCache env hash start b
      → Runs env start s
      → HasRunBefore b.heap previous s
      → outer hash env decode_fuel inner previous s b ≡ ok s'
      → Ends s'
  outer-Ends inner previous s s' b well cache reached ran e = elim (Bool-cases s.mips.halted) [
    | inl halted ↦
        subst Ends (ok-injective (sym (outer-halted inner previous s b halted) ∙ e))
          (reached, halted)
    | inr running ↦
        let ((current, b₁), found, more) =
          >>=-eq-ok (find_or_decode hash decode_fuel s b) _
            (sym (outer-running inner previous s b running) ∙ e) in
        let (b₂, linked, rest) =
          >>=-eq-ok (link_previous hash previous current s.mips.branched b₁) _ more in
        let (cache₂, at₂) =
          link_previous-Ready previous current s b b₁ b₂ ran
            (find_or_decode-IsCache env hash start decode_fuel s b (current, b₁) reached cache
              found)
            linked in
        well current s s' b₂
          (record { cache = cache₂; at = at₂; reached = reached; running = running }) rest
  ]

  -- The machine behind a block: the next one is that of the link, or found by the outer loop.
  following-Ends :
      (fuel current : ℕ) (block : Block) (s u s' : Machine) (b : Blocks hash) (o : Option ℕ)
      → WellRun (chained hash env decode_fuel fuel)
      → IsReady current s b
      → b.heap current ≡ some block
      → run_block env block s ≡ ok u
      → (if block.indirect || u.mips.halted then none else block.next u.mips.branched) ≡ o
      → elim o [
        | some following ↦ chained hash env decode_fuel fuel following u b
        | none ↦ outer hash env decode_fuel (chained hash env decode_fuel fuel) (some current) u b
      ]
        ≡ ok s'
      → Ends s'
  unfolding HasRunBefore
  following-Ends fuel current block s u s' b (some following) well ready at ran goes e =
      let (address, cached) = ready_block current s b block ready at in
      let (running, link) =
        unless_some block.indirect u.mips.halted (block.next u.mips.branched) following goes in
      well following u s' b
        (record {
          cache = ready.cache;
          at = cached.links u.mips.branched following link s u address ran refl;
          reached = ready_next current s u b block ready at ran;
          running = running;
        })
        e
  following-Ends fuel current block s u s' b none well ready at ran goes e =
      let (address, _) = ready_block current s b block ready at in
      outer-Ends (chained hash env decode_fuel fuel) (some current) u s' b well ready.cache
        (ready_next current s u b block ready at ran) (block, at, (s, address, ran)) e

  chained-Ends : (fuel : ℕ) → WellRun (chained hash env decode_fuel fuel)
  unfolding chained
  chained-Ends zero current s s' b ready e = absurd (timeout-ne-ok e)
  chained-Ends (suc fuel) current s s' b ready e =
      let (block, found, more) = >>=-eq-ok (deref (b.heap current)) _ e in
      let (u, ran, rest) = >>=-eq-ok (run_block env block s) _ more in
      following-Ends fuel current block s u s' b _ (chained-Ends fuel) ready
        (deref-eq-ok (b.heap current) found) ran refl rest

  -- A run of the interpreter that returns has run blocks only: each from a machine that had not
  -- halted and stood at the block's address, and each one decoded at a machine of the same run; and
  -- the machine that is returned has halted.
  pub interpreter_blocked-Ends :
      (fuel : ℕ) (s' : Machine)
      → interpreter_blocked hash env decode_fuel fuel start ≡ ok s'
      → Ends s'
  unfolding interpreter_blocked HasRunBefore
  interpreter_blocked-Ends fuel s' e =
      outer-Ends (chained hash env decode_fuel fuel) none start s' (no_blocks hash)
        (chained-Ends fuel) (no_blocks-IsCache env hash start) here tt e
