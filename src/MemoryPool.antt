-- ===== src/MemoryPool.antt =====
-- pool/pool.c: a memory pool of equal blocks with a list of free ones. An address is a number, NULL is
-- `none`; the free list is written into the free blocks: `memory` is the byte at each address, and the
-- `next` of a `struct Node` is the number that eight bytes spell out, the least significant one first.
pub mod Links
pub mod Free
pub mod History
mod Count
pub mod Safety
mod Tests
use cc_learning.Base.{
  ℕ, zero, suc, ◌+◌, ◌&&◌, add_size, ◌*◌, ◌/◌, ◌%◌, ◌^◌, Bool, true, false, List, [], ◌∷◌, Option,
  none, some, ltb, ◌==◌, if◌then◌else◌, size_mod, sub_size, ◌≡◌,
}

abbrev pub Memory : Type 0
Memory = ℕ → ℕ

pub record MemoryPool : Type 0 where
  pub block_size : ℕ
  pub total_blocks : ℕ
  pub used_count : ℕ
  pub pool_start : ℕ
  pub next_free : ℕ
  pub free_list_head : Option ℕ

-- `sizeof(struct Node)`
abbrev pub node_size : ℕ
node_size = 8

-- A pointer as the number that is stored.
abbrev pub pointer : Option ℕ → ℕ
pointer none = 0
pointer (some a) = a

abbrev pub from_pointer : ℕ → Option ℕ
from_pointer zero = none
from_pointer (suc a) = some (suc a)

-- The number in so many bytes.
unfoldable pub read_word : ℕ → ℕ → Memory → ℕ
read_word zero a mem = 0
read_word (suc k) a mem = mem a + 256 * read_word k (suc a) mem

unfoldable pub write_byte : ℕ → ℕ → Memory → Memory
write_byte a x mem b = if b == a then x else mem b

unfoldable pub write_word : ℕ → ℕ → ℕ → Memory → Memory
unfolding write_byte
write_word zero a v mem = mem
write_word (suc k) a v mem = write_byte a (v % 256) (write_word k (suc a) (v / 256) mem)

-- `next` of the node at an address.
unfoldable pub read_link : ℕ → Memory → Option ℕ
unfolding read_word
read_link a mem = from_pointer (read_word node_size a mem)

unfoldable pub write_link : ℕ → Option ℕ → Memory → Memory
unfolding write_word
write_link a v mem = write_word node_size a (pointer v) mem

-- A block has room for a link.
unfoldable pub fit_size : ℕ → ℕ
fit_size block_size = if ltb block_size node_size then node_size else block_size

-- What is asked of the second `malloc`; the product wraps.
unfoldable pub arena_size : ℕ → ℕ → ℕ
arena_size block_size num_blocks = block_size * num_blocks % size_mod

-- `has_header` says whether the first `malloc` gives memory, `malloc` what the second one gives.
unfoldable pub pool_init : ℕ → ℕ → Bool → (ℕ → Option ℕ) → Option MemoryPool
unfolding fit_size arena_size
pool_init block_size num_blocks has_header malloc =
    let size = fit_size block_size in
    if has_header
    then elim (malloc (arena_size size num_blocks)) [
      | none ↦ none
      | some start ↦ some (record {
        block_size = size;
        total_blocks = num_blocks;
        used_count = 0;
        pool_start = start;
        next_free = start;
        free_list_head = none;
      })
    ]
    else none

-- A block of the free list leaves it; `used_count` stays as it is.
unfoldable pub alloc_free : ℕ → Memory → MemoryPool → MemoryPool
unfolding read_link
alloc_free node mem p = record p { free_list_head = read_link node mem }

-- How many blocks were cut off the arena, by the difference of two pointers.
unfoldable pub linear_used : MemoryPool → ℕ
linear_used p = sub_size p.next_free p.pool_start / p.block_size

-- The next block of the arena.
unfoldable pub alloc_next : MemoryPool → MemoryPool
alloc_next p = record p {
  next_free = add_size p.next_free p.block_size;
  used_count = (p.used_count + 1) % size_mod;
}

-- `free_list_head` is given apart.
unfoldable pub alloc_from : Option ℕ → Memory → MemoryPool → Option ℕ × MemoryPool
unfolding alloc_free linear_used alloc_next
alloc_from (some node) mem p = (some node, alloc_free node mem p)
alloc_from none mem p =
    if ltb (linear_used p) p.total_blocks then (some p.next_free, alloc_next p) else (none, p)

unfoldable pub pool_alloc : Memory → MemoryPool → Option ℕ × MemoryPool
unfolding alloc_from
pool_alloc mem p = alloc_from p.free_list_head mem p

unfoldable pub pool_free : Option ℕ → Memory → MemoryPool → Memory × MemoryPool
unfolding write_link
pool_free none mem p = (mem, p)
pool_free (some node) mem p = (
  write_link node p.free_list_head mem,
  record p { free_list_head = some node; used_count = sub_size p.used_count 1 },
)

-- A pool with its client: the blocks that the client has, and how often it got one from the free list.
pub record World : Type 0 where
  pub pool : MemoryPool
  pub memory : Memory
  pub live : List ℕ
  pub reused : ℕ

unfoldable pub owns : ℕ → List ℕ → Bool
owns a [] = false
owns a (b ∷ bs) = let rest = owns a bs in if b == a then true else rest

unfoldable pub give_up : ℕ → List ℕ → List ℕ
give_up a [] = []
give_up a (b ∷ bs) = let rest = give_up a bs in if b == a then bs else b ∷ rest

abbrev pub count_reuse : Option ℕ → ℕ → ℕ
count_reuse none n = n
count_reuse (some node) n = suc n

-- The result of `pool_alloc` in the client's hands.
unfoldable pub receive : Option ℕ × MemoryPool → World → World
receive (none, p) w = record w { pool = p }
receive (some a, p) w = record w {
  pool = p;
  live = a ∷ w.live;
  reused = count_reuse w.pool.free_list_head w.reused;
}

-- What a client may do: allocate, free a block that it has, and write a byte into one.
pub data Action : Type 0 where
  allocates : Action
  frees : ℕ → Action
  writes : ℕ → ℕ → ℕ → Action

-- `none`: the client does not have the block, or the byte is not in it.
unfoldable pub step : Action → World → Option World
unfolding pool_alloc pool_free write_byte owns give_up receive
step allocates w = some (receive (pool_alloc w.memory w.pool) w)
step (frees a) w =
    if owns a w.live
    then (let (mem, p) = pool_free (some a) w.memory w.pool in
        some (record w { pool = p; memory = mem; live = give_up a w.live }))
    else none
step (writes a i x) w =
    if owns a w.live && ltb i w.pool.block_size
    then some (record w { memory = write_byte (a + i) (x % 256) w.memory })
    else none

unfoldable pub run : List Action → World → Option World
unfolding step
run [] w = some w
run (a ∷ rest) w = elim (step a w) [ none ↦ none | some w' ↦ run rest w' ]

abbrev pub new_world : Memory → MemoryPool → World
new_world mem p = record { pool = p; memory = mem; live = []; reused = 0 }
