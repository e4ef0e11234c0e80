-- ===== src/MemoryPool/History.antt =====
-- What holds of the pool of pool/pool.c in every history of its client, where the arena lies in the
-- address space.
use native.Mathlib.Nat.{mul-div_cancel, mul-le-mul_right, add-mul-mod_self_right, mod-eq_of_lt}
use cc_learning.Base.{
  ℕ, suc, ◌+◌, ◌*◌, ◌%◌, ◌≤◌, ◌<◌, ◌≡◌, refl, sym, ap, subst, arith, true, List, [], ◌∷◌, Option,
  none, some, ltb, ltb→lt, ◌==◌, length, bit, ap₂, ◌∙◌, add_size, sub_size, ◌&&◌, ◌-◌, ◌⊎◌, inl,
  inr, zero, if_elim, size_mod,
}
use cc_learning.MemoryPool.{
  Memory, node_size, pointer, from_pointer, read_link, write_byte, alloc_free, linear_used,
  alloc_next, alloc_from, count_reuse, pool_alloc, write_link, pool_free, World, owns, give_up,
  receive, Action, allocates, frees, writes, step, run,
}
use cc_learning.MemoryPool.Links.{
  write_byte_other, read_link-write_link, IsSameOutside, write_link-IsSameOutside, read_link_same,
}
use cc_learning.MemoryPool.Free.{
  IsFreeList, times, IsFreeList-same, cut_off-apart, cut_off-block, times-owns, times-give_up,
  length-give_up, block, cut_off, cut_off_once,
}

-- A block has room for a link, and the arena ends before the last address.
pub record IsArena (start size total : ℕ) : Type 0 where
  pub roomy : node_size ≤ size
  pub present : 0 < start
  pub inside : start + total * size < size_mod

-- A byte of a block is none outside of it.
beside : (a i size b : ℕ) → (b < a) ⊎ (a + size ≤ b) → i < size → (b < a + i) ⊎ (a + i < b)
beside a i size b (inl h) l = inl (omega (arith, h))
beside a i size b (inr h) l = inr (omega (arith, h, l))

stored : (a : ℕ) → 0 < a → from_pointer a ≡ some a
stored zero h = absurd (omega (arith, h))
stored (suc a) h = refl

module _ (start size total : ℕ) (arena : IsArena start size total) where
  pub pos : 0 < size
  pos = omega (arith, arena.roomy)

  -- The first blocks end inside the arena.
  below : (k : ℕ) → k ≤ total → block start size k < size_mod
  below k l = let m = mul-le-mul_right size l in omega (arith, m, arena.inside)

  -- `cut` blocks were cut off the arena; each is either the client's or in the free list, once.
  pub record Inv (w : World) : Type 0 where
    pub cut : ℕ
    pub free : List ℕ
    pub starts : w.pool.pool_start ≡ start
    pub sized : w.pool.block_size ≡ size
    pub totals : w.pool.total_blocks ≡ total
    pub next : w.pool.next_free ≡ block start size cut
    pub fits : cut ≤ total
    pub linked : IsFreeList w.memory w.pool.free_list_head free
    pub items : (a : ℕ) → times a w.live + times a free ≡ times a (cut_off start size cut)
    pub lengths : length w.live + length free ≡ cut

  -- A client's block is one of those that were cut off, and no free one.
  owned :
      (w : World) (a : ℕ)
      → owns a w.live ≡ true
      → (v : Inv w) → (1 ≤ times a (cut_off start size v.cut)) × (times a v.free ≡ 0)
  owned w a o v =
      let mine = times-owns a w.live o in
      (
        omega (arith, mine, v.items a),
        omega (arith, mine, v.items a, cut_off_once start size pos a v.cut),
      )

  -- What is written into a client's block leaves the free list as it is.
  still_linked :
      (w : World) (a : ℕ) (mem : Memory)
      → owns a w.live ≡ true
      → (v : Inv w) → IsSameOutside a size mem w.memory
      → IsFreeList mem w.pool.free_list_head v.free
  still_linked w a mem o v h =
      let k = owned w a o v in
      IsFreeList-same w.memory mem w.pool.free_list_head v.free
        (λ b p. read_link_same a b size mem w.memory arena.roomy h (
          cut_off-apart start size a b v.cut k.0 (omega (arith, p, v.items b)) (λ e.
            let none_there : times b v.free ≡ 0 = subst (λ x. times x v.free ≡ 0) e k.1 in
            omega (arith, p, none_there))))
        v.linked

  -- The head of the free list can be stored.
  head_lem :
      (w : World)
      → (v : Inv w)
      → (pointer w.pool.free_list_head < size_mod)
        × (from_pointer (pointer w.pool.free_list_head) ≡ w.pool.free_list_head)
  head_lem w v = from w.pool.free_list_head v.free v.linked (λ a k. omega (arith, k, v.items a))
    where
      from :
          (o : Option ℕ) (fs : List ℕ)
          → IsFreeList w.memory o fs
          → ((a : ℕ) → 1 ≤ times a fs → 1 ≤ times a (cut_off start size v.cut))
          → (pointer o < size_mod) × (from_pointer (pointer o) ≡ o)
      from none fs l m = (omega arith, refl)
      from (some a) [] l m = absurd (let z : ⊥ = cc in z)
      from (some a) (f ∷ fs) l m =
          let one : bit (f == f) ≡ 1 = ground arith in
          let same : a ≡ f = cc in
          let (j, k, q) = cut_off-block start size f v.cut (m f (omega (arith, one))) in
          let b = below j (omega (arith, k, v.fits)) in
          (omega (arith, same, q, b), stored a (omega (arith, same, q, arena.present)))

  pub linear_used_lem : (w : World) (v : Inv w) → linear_used w.pool ≡ v.cut
  unfolding linear_used
  linear_used_lem w v =
      let k = below v.cut v.fits in
      let d : block start size v.cut + size_mod - start ≡ v.cut * size + 1 * size_mod =
        omega arith in
      let e : sub_size w.pool.next_free w.pool.pool_start ≡ v.cut * size =
        ap₂ (λ x y. (x + size_mod - y) % size_mod) v.next v.starts
        ∙ ap (λ x. x % size_mod) d
        ∙ add-mul-mod_self_right (v.cut * size) 1 size_mod
        ∙ mod-eq_of_lt (omega (arith, k)) in
      rw (e, v.sized) (mul-div_cancel v.cut pos)

  -- An allocation from the free list.
  reuse-Inv :
      (w : World) (a : ℕ)
      → w.pool.free_list_head ≡ some a
      → Inv w
      → Inv (receive (alloc_from (some a) w.memory w.pool) w)
  unfolding receive alloc_from alloc_free
  reuse-Inv w a e v = from v.free v.linked v.items v.lengths
    where
      from :
          (fs : List ℕ)
          → IsFreeList w.memory w.pool.free_list_head fs
          → ((i : ℕ) → times i w.live + times i fs ≡ times i (cut_off start size v.cut))
          → length w.live + length fs ≡ v.cut
          → Inv (receive (alloc_from (some a) w.memory w.pool) w)
      from [] l m n = absurd (let z : ⊥ = cc in z)
      from (f ∷ fs) l m n =
          let same : f ≡ a = cc in
          let one : w.reused + 1 ≡ suc w.reused = omega arith in
          record {
            cut = v.cut;
            free = fs;
            starts = v.starts;
            sized = v.sized;
            totals = v.totals;
            next = v.next;
            fits = v.fits;
            linked = subst (λ x. IsFreeList w.memory (read_link x w.memory) fs) same l.1;
            items = λ i.
                (let k = m i in
                  subst
                    (λ x.
                      (bit (x == i) + times i w.live) + times i fs
                      ≡ times i (cut_off start size v.cut))
                    same (omega (arith, k)));
            lengths = omega (arith, n);
          }

  cut_next :
      (w : World) (v : Inv w)
      → v.cut < total
      → add_size w.pool.next_free w.pool.block_size ≡ block start size (suc v.cut)
  cut_next w v l =
      let e : block start size v.cut + size ≡ block start size (suc v.cut) = grind arith in
      ap₂ (λ x y. (x + y) % size_mod) v.next v.sized
      ∙ ap (λ x. x % size_mod) e
      ∙ mod-eq_of_lt (below (suc v.cut) l)

  -- An allocation where no block is free.
  cut-Inv :
      (w : World)
      → w.pool.free_list_head ≡ none
      → Inv w
      → Inv (receive (alloc_from none w.memory w.pool) w)
  unfolding receive alloc_from alloc_next
  cut-Inv w e v =
      let none_free : (fs : List ℕ) × (fs ≡ []) × (fs ≡ v.free) = no_free v.free v.linked in
      let same : count_reuse w.pool.free_list_head w.reused ≡ w.reused =
        ap (λ o. count_reuse o w.reused) e in
      let empty : v.free ≡ [] = cc in
      if_elim (λ r. Inv (receive r w)) (ltb (linear_used w.pool) w.pool.total_blocks)
        (λ k.
          let l : linear_used w.pool < w.pool.total_blocks = ground arith in
          record {
            cut = suc v.cut;
            free = [];
            starts = v.starts;
            sized = v.sized;
            totals = v.totals;
            next = cut_next w v (omega (arith, l, v.totals, linear_used_lem w v));
            fits = omega (arith, l, v.totals, linear_used_lem w v);
            linked = e;
            items = λ i.
                (let k = ap (times i) empty in
                  let q = ap (λ x. bit (x == i)) v.next in omega (arith, v.items i, k, q));
            lengths =
                (let k = ap (λ (fs : List ℕ). length fs) empty in omega (arith, v.lengths, k));
          })
        (λ k. v)
    where
      no_free :
          (fs : List ℕ)
          → IsFreeList w.memory w.pool.free_list_head fs
          → (gs : List ℕ) × (gs ≡ []) × (gs ≡ fs)
      no_free [] l = ([], refl, refl)
      no_free (f ∷ fs) l = absurd (let z : ⊥ = cc in z)

  alloc-Inv : (w : World) → Inv w → Inv (receive (pool_alloc w.memory w.pool) w)
  unfolding pool_alloc
  alloc-Inv w v = by_head w.pool.free_list_head refl
    where
      by_head :
          (o : Option ℕ)
          → w.pool.free_list_head ≡ o
          → Inv (receive (alloc_from o w.memory w.pool) w)
      by_head none e = cut-Inv w e v
      by_head (some a) e = reuse-Inv w a e v

  -- The block goes to the front of the free list.
  free-Inv :
      (w : World) (a : ℕ)
      → owns a w.live ≡ true
      → Inv w
      → let (mem, p) = pool_free (some a) w.memory w.pool in
        Inv (record w { pool = p; memory = mem; live = give_up a w.live })
  unfolding pool_free
  free-Inv w a o v =
      let head = w.pool.free_list_head in
      let shorter = length-give_up a w.live o in
      let h = head_lem w v in
      record {
        cut = v.cut;
        free = a ∷ v.free;
        starts = v.starts;
        sized = v.sized;
        totals = v.totals;
        next = v.next;
        fits = v.fits;
        linked = (
          refl,
          subst (λ x. IsFreeList (write_link a head w.memory) x v.free)
              (sym (read_link-write_link a head w.memory h.0 h.1))
              (still_linked w a (write_link a head w.memory) o v
                (write_link-IsSameOutside a size head w.memory arena.roomy)),
        );
        items = λ i. omega (arith, times-give_up a i w.live o, v.items i);
        lengths = omega (arith, shorter, v.lengths);
      }

  write-Inv :
      (w : World) (a i x : ℕ)
      → owns a w.live && ltb i w.pool.block_size ≡ true
      → Inv w
      → Inv (record w { memory = write_byte (a + i) x w.memory })
  write-Inv w a i x e v =
      let o : owns a w.live ≡ true = ground arith in
      let k : ltb i w.pool.block_size ≡ true = ground arith in
      let l = ltb→lt i w.pool.block_size k in
      record {
        cut = v.cut;
        free = v.free;
        starts = v.starts;
        sized = v.sized;
        totals = v.totals;
        next = v.next;
        fits = v.fits;
        linked = still_linked w a (write_byte (a + i) x w.memory) o v (λ b h.
            write_byte_other (a + i) x b w.memory
              (beside a i size b h (omega (arith, l, v.sized))));
        items = v.items;
        lengths = v.lengths;
      }

  abbrev InvIfAny : Option World → Type 0
  InvIfAny none = Unit
  InvIfAny (some w) = Inv w

  step-Inv : (a : Action) (w : World) → Inv w → InvIfAny (step a w)
  unfolding step
  step-Inv allocates w v = alloc-Inv w v
  step-Inv (frees a) w v = if_elim InvIfAny (owns a w.live) (λ o. free-Inv w a o v) (λ _. tt)
  step-Inv (writes a i x) w v =
      if_elim InvIfAny (owns a w.live && ltb i w.pool.block_size)
        (λ e. write-Inv w a i (x % 256) e v) (λ _. tt)

  pub run-Inv :
      (acts : List Action) (w : World) {w' : World} → Inv w → run acts w ≡ some w' → Inv w'
  unfolding run
  run-Inv [] w v e = subst InvIfAny e v
  run-Inv (a ∷ acts) w {w'} v e = from (step a w) (step-Inv a w v) (λ x i k. run-Inv acts x i k) e
    where
      from :
          (o : Option World)
          → InvIfAny o
          → ((x : World) → Inv x → run acts x ≡ some w' → Inv w')
          → (elim o [ none ↦ none | some x ↦ run acts x ]) ≡ some w'
          → Inv w'
      from none i next k = absurd (let z : ⊥ = cc in z)
      from (some x) i next k = next x i k
