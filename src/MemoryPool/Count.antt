-- ===== src/MemoryPool/Count.antt =====
-- `used_count` of pool/pool.c in every history of the client, wherever the arena lies.
use cc_learning.Base.{
  ℕ, ◌+◌, ◌%◌, ◌≡◌, refl, subst, ap, arith, true, List, [], ◌∷◌, Option, none, some, length,
  if_elim, ltb, ◌&&◌, size_mod,
}
use cc_learning.MemoryPool.{
  alloc_free, linear_used, alloc_next, alloc_from, count_reuse, pool_alloc, pool_free, World, owns,
  give_up, receive, Action, allocates, frees, writes, step, run,
}
use cc_learning.MemoryPool.Free.{length-give_up}

abbrev IsCounted : World → Type 0
IsCounted w = (w.pool.used_count + w.reused) % size_mod ≡ length w.live % size_mod

abbrev IsCountedIfAny : Option World → Type 0
IsCountedIfAny none = Unit
IsCountedIfAny (some w) = IsCounted w

alloc-IsCounted : (w : World) → IsCounted w → IsCounted (receive (pool_alloc w.memory w.pool) w)
unfolding pool_alloc receive alloc_from alloc_free alloc_next
alloc-IsCounted w v = by_head w.pool.free_list_head refl
  where
    by_head :
        (o : Option ℕ)
        → w.pool.free_list_head ≡ o
        → IsCounted (receive (alloc_from o w.memory w.pool) w)
    by_head none e =
        let same : count_reuse w.pool.free_list_head w.reused ≡ w.reused =
          ap (λ o. count_reuse o w.reused) e in
        if_elim (λ r. IsCounted (receive r w)) (ltb (linear_used w.pool) w.pool.total_blocks)
          (λ k. rw same (omega (arith, v))) (λ k. v)
    by_head (some a) e = rw e (omega (arith, v))

free-IsCounted :
    (w : World) (a : ℕ)
    → owns a w.live ≡ true
    → IsCounted w
    → let (mem, p) = pool_free (some a) w.memory w.pool in
      IsCounted (record w { pool = p; memory = mem; live = give_up a w.live })
unfolding pool_free
free-IsCounted w a o v = let shorter = length-give_up a w.live o in omega (arith, shorter, v)

step-IsCounted : (a : Action) (w : World) → IsCounted w → IsCountedIfAny (step a w)
unfolding step
step-IsCounted allocates w v = alloc-IsCounted w v
step-IsCounted (frees a) w v =
    if_elim IsCountedIfAny (owns a w.live) (λ o. free-IsCounted w a o v) (λ _. tt)
step-IsCounted (writes a i x) w v =
    if_elim IsCountedIfAny (owns a w.live && ltb i w.pool.block_size) (λ _. v) (λ _. tt)

pub run-IsCounted :
    (acts : List Action) (w : World) {w' : World}
    → IsCounted w
    → run acts w ≡ some w'
    → IsCounted w'
unfolding run
run-IsCounted [] w v e = subst IsCountedIfAny e v
run-IsCounted (a ∷ acts) w {w'} v e =
    from (step a w) (step-IsCounted a w v) (λ x i k. run-IsCounted acts x i k) e
  where
    from :
        (o : Option World)
        → IsCountedIfAny o
        → ((x : World) → IsCounted x → run acts x ≡ some w' → IsCounted w')
        → (elim o [ none ↦ none | some x ↦ run acts x ]) ≡ some w'
        → IsCounted w'
    from none i next k = absurd (let z : ⊥ = cc in z)
    from (some x) i next k = next x i k
