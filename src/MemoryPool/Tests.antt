-- ===== src/MemoryPool/Tests.antt =====
-- A pool of two blocks whose client takes both, gives one back and takes it again.
use cc_learning.Base.{
  ℕ, ◌+◌, ◌-◌, ◌%◌, ◌^◌, ◌≤◌, ◌≡◌, ◌⊎◌, ◌↔◌, refl, arith, List, [], ◌∷◌, Option, none, some, true,
  ◌==◌, if◌then◌else◌, length, size_mod, ◌<◌, ◌*◌, inl, inr, Bool-cases,
}
use cc_learning.MemoryPool.{
  Memory, MemoryPool, fit_size, arena_size, pool_init, alloc_free, linear_used, alloc_next,
  alloc_from, pool_alloc, write_link, pool_free, World, owns, give_up, receive, Action, allocates,
  frees, writes, step, run, new_world, write_word, write_byte, read_link, read_word,
}
use cc_learning.MemoryPool.Safety.{AreApart, blocks_apart, alloc_until_full, used_count_drifts}

abbrev malloc : ℕ → Option ℕ
malloc n = if n == 16 then some 1000 else none

abbrev mem : Memory
mem a = 77

abbrev pool : MemoryPool
pool = record {
  block_size = 8;
  total_blocks = 2;
  used_count = 0;
  pool_start = 1000;
  next_free = 1000;
  free_list_head = none;
}

made : pool_init 5 2 true malloc ≡ some pool
unfolding pool_init fit_size arena_size
made = refl

small : fit_size 5 * 2 < size_mod
unfolding fit_size
small = omega arith

given : (n a : ℕ) → malloc n ≡ some a → (0 < a) × (a + n < size_mod)
given n a e = elim (Bool-cases (n == 16)) [
  | inl k ↦
      let q : a ≡ 1000 = ground arith in
      let r : n ≡ 16 = ground arith in (omega (arith, q), omega (arith, q, r))
  | inr k ↦ absurd (let z : ⊥ = ground arith in z)
]

abbrev acts : List Action
acts = allocates ∷ writes 1000 7 255 ∷ allocates ∷ frees 1000 ∷ writes 1008 0 0 ∷ allocates ∷ []

abbrev world_of : Option World → World
world_of none = new_world mem pool
world_of (some w) = w

abbrev reached : World
unfolding run step pool_alloc alloc_from alloc_free linear_used alloc_next pool_free write_link
    write_word write_byte read_link read_word owns give_up receive
reached = world_of (run acts (new_world mem pool))

ran : run acts (new_world mem pool) ≡ some reached
unfolding reached run step pool_alloc alloc_from alloc_free linear_used alloc_next pool_free
    write_link owns give_up receive
ran = refl

blocks_apart_example :
    (1000 ≤ 1000)
    × (1000 + 8 ≤ 1000 + arena_size (fit_size 5) 2)
    × ((◌≡◌ {A = ℕ} 0 1) ⊎ AreApart 8 1000 1008)
unfolding reached run step pool_alloc alloc_from alloc_free linear_used alloc_next pool_free
    write_link owns give_up receive fit_size
blocks_apart_example =
    blocks_apart 5 2 true malloc mem made acts ran small given 0 1 1000 1008 refl refl

alloc_until_full_example :
    ((pool_alloc reached.memory reached.pool).0 ≡ none) ↔ (length reached.live ≡ 2)
alloc_until_full_example = alloc_until_full 5 2 true malloc mem made acts ran small given

used_count_drifts_example :
    (reached.pool.used_count + reached.reused) % size_mod ≡ length reached.live % size_mod
used_count_drifts_example = used_count_drifts 5 2 true malloc mem made acts ran

-- One block is taken, given back, and this once more: the count of used blocks is below zero.
count_wraps :
    (world_of (
      run
        (allocates ∷ frees 1000 ∷ allocates ∷ frees 1000 ∷ [])
        (new_world mem pool))).pool.used_count
    ≡ 2 ^ 64 - 1
unfolding run step pool_alloc alloc_from alloc_free linear_used alloc_next pool_free write_link
    write_word write_byte read_link read_word owns give_up receive
count_wraps = refl

-- With 2 ^ 61 blocks of eight bytes the pool asks for no memory at all.
arena_wraps : arena_size 8 (2 ^ 61) ≡ 0
unfolding arena_size
arena_wraps = refl
