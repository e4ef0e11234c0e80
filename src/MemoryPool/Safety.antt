-- ===== src/MemoryPool/Safety.antt =====
-- What the client of pool/pool.c can rely on.
use cc_learning.Base.{
  ℕ, ◌+◌, ◌*◌, ◌%◌, ◌≤◌, ◌<◌, ◌≡◌, ◌≢◌, ◌⊎◌, ◌↔◌, inl, inr, refl, sym, ap, subst, ◌∙◌, arith, Bool,
  List, [], ◌∷◌, Option, none, some, ltb, get_elem?, length, Bool-cases, if_elim, ◌==◌, ltb→lt,
  size_mod,
}
use cc_learning.MemoryPool.{
  node_size, Memory, MemoryPool, fit_size, arena_size, pool_init, linear_used, alloc_from,
  pool_alloc, World, Action, run, new_world,
}
use cc_learning.MemoryPool.Free.{
  IsFreeList, times, cut_off, cut_off-apart, times-get_elem, times-get_elem_twice, cut_off-block,
  block_le, cut_off_once,
}
use cc_learning.MemoryPool.History.{IsArena, Inv, pos, linear_used_lem, run-Inv}
use cc_learning.MemoryPool.Count.{run-IsCounted}

-- Two blocks of this size share no byte.
abbrev pub AreApart : ℕ → ℕ → ℕ → Type 0
AreApart size a b = (a + size ≤ b) ⊎ (b + size ≤ a)

fit_size-roomy : (block_size : ℕ) → node_size ≤ fit_size block_size
unfolding fit_size
fit_size-roomy block_size = ground arith

module _ {start size total : ℕ} (arena : IsArena start size total) (w : World)
    (v : Inv start size total arena w) where
  abbrev IsFull : Option ℕ × MemoryPool → Type 0
  IsFull r = (r.0 ≡ none) ↔ (length w.live ≡ total)

  alloc_from-IsFull :
      (o : Option ℕ) (fs : List ℕ)
      → w.pool.free_list_head ≡ o
      → IsFreeList w.memory w.pool.free_list_head fs
      → length w.live + length fs ≡ v.cut
      → IsFull (alloc_from o w.memory w.pool)
  unfolding alloc_from
  alloc_from-IsFull (some a) [] e l n = absurd (let z : ⊥ = cc in z)
  alloc_from-IsFull (some a) (f ∷ fs) e l n =
      (λ h. absurd (let z : ⊥ = cc in z), λ h. absurd (omega (arith, h, n, v.fits)))
  alloc_from-IsFull none (f ∷ fs) e l n = absurd (let z : ⊥ = cc in z)
  alloc_from-IsFull none [] e l n =
      let used = linear_used_lem start size total arena w v in
      if_elim IsFull (ltb (linear_used w.pool) w.pool.total_blocks)
        (λ k.
          let less = ltb→lt (linear_used w.pool) w.pool.total_blocks k in
          (
            λ h. absurd (let z : ⊥ = cc in z),
            λ h. absurd (omega (arith, h, n, less, used, v.totals)),
          ))
        (λ k.
          let more : w.pool.total_blocks ≤ linear_used w.pool = ground arith in
          (λ h. omega (arith, n, more, used, v.totals, v.fits), λ h. refl))

module _ (block_size num_blocks : ℕ) (has_header : Bool) (malloc : ℕ → Option ℕ)
    (mem : Memory) where
  -- What the new pool is.
  abbrev IsNew : MemoryPool → Type 0
  IsNew p =
      (malloc (arena_size (fit_size block_size) num_blocks) ≡ some p.pool_start)
      × (p ≡ record {
        block_size = fit_size block_size;
        total_blocks = num_blocks;
        used_count = 0;
        pool_start = p.pool_start;
        next_free = p.pool_start;
        free_list_head = none;
      })

  abbrev IsNewIfAny : Option MemoryPool → Type 0
  IsNewIfAny none = Unit
  IsNewIfAny (some p) = IsNew p

  init-IsNew : IsNewIfAny (pool_init block_size num_blocks has_header malloc)
  unfolding pool_init
  init-IsNew =
      if_elim IsNewIfAny has_header
        (λ _. given (malloc (arena_size (fit_size block_size) num_blocks)) refl) (λ _. tt)
    where
      given :
          (o : Option ℕ)
          → malloc (arena_size (fit_size block_size) num_blocks) ≡ o
          → IsNewIfAny (elim o [
            | none ↦ none
            | some start ↦ some (record {
              block_size = fit_size block_size;
              total_blocks = num_blocks;
              used_count = 0;
              pool_start = start;
              next_free = start;
              free_list_head = none;
            })
          ])
      given none e = tt
      given (some start) e = (e, refl)

  module _ {p : MemoryPool} (made : pool_init block_size num_blocks has_header malloc ≡ some p)
      (acts : List Action) {w : World} (ran : run acts (new_world mem p) ≡ some w) where
    new : IsNew p
    new = subst IsNewIfAny made init-IsNew

    -- After any calls of a client that frees and writes only blocks that it has, wherever the memory lies:
    -- `used_count` with the number of allocations that were served from the free list is the number of
    -- blocks that the client has, modulo 2 ^ 64.
    pub used_count_drifts : (w.pool.used_count + w.reused) % size_mod ≡ length w.live % size_mod
    used_count_drifts =
        run-IsCounted acts (new_world mem p)
          (ap (λ (q : MemoryPool). (q.used_count + 0) % size_mod) new.1) ran

    module _ (small : fit_size block_size * num_blocks < size_mod)
        (given : (n a : ℕ) → malloc n ≡ some a → (0 < a) × (a + n < size_mod)) where
      arena : IsArena p.pool_start (fit_size block_size) num_blocks
      unfolding arena_size
      arena =
          let g = given (arena_size (fit_size block_size) num_blocks) p.pool_start new.0 in
          let whole : num_blocks * fit_size block_size
              ≡ fit_size block_size * num_blocks % size_mod =
            grind arith in
          record {
            roomy = fit_size-roomy block_size;
            present = g.0;
            inside = omega (arith, g.1, whole);
          }

      reached-Inv : Inv p.pool_start (fit_size block_size) num_blocks arena w
      reached-Inv =
          run-Inv p.pool_start (fit_size block_size) num_blocks arena acts (new_world mem p)
            (record {
              cut = 0;
              free = [];
              starts = refl;
              sized = ap (λ (q : MemoryPool). q.block_size) new.1;
              totals = ap (λ (q : MemoryPool). q.total_blocks) new.1;
              next = ap (λ (q : MemoryPool). q.next_free) new.1 ∙ omega arith;
              fits = omega arith;
              linked = ap (λ (q : MemoryPool). q.free_list_head) new.1;
              items = λ a. refl;
              lengths = refl;
            })
            ran

      live-cut_off :
          (a i : ℕ)
          → get_elem? w.live i ≡ some a
          → 1 ≤ times a (cut_off p.pool_start (fit_size block_size) reached-Inv.cut)
      live-cut_off a i e = omega (arith, times-get_elem a w.live i e, reached-Inv.items a)

      -- After any calls of a client that frees only blocks that it has, and writes any bytes into them, if
      -- the product of block size and number of blocks does not wrap around and `malloc` gives memory
      -- that is not at NULL and ends inside the address space: every block that the client has lies in
      -- the memory that the second `malloc` was asked for, and no two of them share a byte.
      pub blocks_apart :
          (i j a b : ℕ)
          → get_elem? w.live i ≡ some a
          → get_elem? w.live j ≡ some b
          → (p.pool_start ≤ a)
            × (a + p.block_size ≤ p.pool_start + arena_size (fit_size block_size) num_blocks)
            × ((i ≡ j) ⊎ AreApart p.block_size a b)
      unfolding arena_size
      blocks_apart i j a b e k =
          let size : ℕ = fit_size block_size in
          let v = reached-Inv in
          let sized : p.block_size ≡ size = ap (λ (q : MemoryPool). q.block_size) new.1 in
          let (m, l, q) = cut_off-block p.pool_start size a v.cut (live-cut_off a i e) in
          let fits = block_le p.pool_start size m num_blocks (omega (arith, l, v.fits)) in
          let whole : num_blocks * size ≡ size * num_blocks % size_mod = grind arith in
          (
            omega (arith, q),
            omega (arith, q, sized, fits, whole),
            elim (Bool-cases (i == j)) [
              | inl same ↦ inl (ground arith)
              | inr other ↦
                  let o : i ≢ j = λ h. (let z : ⊥ = ground arith in z) in
                  inr (
                    rw sized (
                      cut_off-apart p.pool_start size a b v.cut (live-cut_off a i e)
                        (live-cut_off b j k)
                        (λ same.
                          let k' : get_elem? w.live j ≡ some a = k ∙ ap some (sym same) in
                          omega (
                            arith,
                            times-get_elem_twice a w.live i j e k' o,
                            v.items a,
                            cut_off_once p.pool_start size (pos p.pool_start size num_blocks arena)
                                a v.cut,
                          ))))
            ],
          )

      -- After any calls of a client that frees only blocks that it has, and writes any bytes into them, if
      -- the product of block size and number of blocks does not wrap around and `malloc` gives memory
      -- that is not at NULL and ends inside the address space: `pool_alloc` gives no block exactly when
      -- the client has all of them.
      pub alloc_until_full : ((pool_alloc w.memory w.pool).0 ≡ none) ↔ (length w.live ≡ num_blocks)
      unfolding pool_alloc
      alloc_until_full =
          let v = reached-Inv in
          alloc_from-IsFull arena w v w.pool.free_list_head v.free refl v.linked v.lengths
