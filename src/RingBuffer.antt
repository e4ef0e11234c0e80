-- ===== src/RingBuffer.antt =====
-- ring_buffer/include/ring_buffer.h: the storage that both queues share, and the queue with a lock.
-- `cap` is the template parameter `Capacity`; the array is a function from its indices. Under the
-- lock a call of `MPMCLockedQueue` is one step, so its methods are functions on the state.
pub mod Window
pub mod Refine
pub mod Spsc
pub mod Run
pub mod Queue
mod Tests
use Prim.Native.Nat.{bit_and}
use cc_learning.Base.{
  ℕ, zero, suc, ◌+◌, ◌-◌, ◌≡◌, ◌≤◌, ◌<◌, ◌^◌, Bool, List, [], ◌∷◌, Option, ltb, ◌==◌, if◌then◌else◌,
  add_size, sub_size, take, length, get_elem?,
}

pub record RingBuffer {ℓ} (A : Type ℓ) : Type ℓ where
  pub buffer : ℕ → A
  pub write_idx : ℕ
  pub read_idx : ℕ

-- The `static_assert`: a power of two, and a `size_t`.
pub record IsCapacity (cap : ℕ) : Type 0 where
  pub exponent : ℕ
  pub small : exponent < 64
  pub power : cap ≡ 2 ^ exponent

-- `i & (Capacity - 1)`
unfoldable pub slot : ℕ → ℕ → ℕ
slot cap i = bit_and i (cap - 1)

-- `Capacity - (write_idx - read_idx)`
unfoldable pub free_slots : ℕ → ℕ → ℕ → ℕ
free_slots cap write_idx read_idx = sub_size cap (sub_size write_idx read_idx)

-- `if (count > available) count = available;`
unfoldable pub clip : ℕ → ℕ → ℕ
clip count available = if ltb available count then available else count

module _ {ℓ} {A : Type ℓ} where
  abbrev pub update : (ℕ → A) → ℕ → A → ℕ → A
  update f p v q = if p == q then v else f q

  -- `T buffer_[Capacity]{}`, the indices at 0; `d` is `T{}`.
  unfoldable pub fresh : A → RingBuffer A
  fresh d = record { buffer = λ _. d; write_idx = 0; read_idx = 0 }

  module _ (cap : ℕ) where
    -- `for (i = 0; i < count; ++i) buffer_[(write_idx + i) & (Capacity - 1)] = items[i];`
    unfoldable pub fill : ℕ → ℕ → List A → (ℕ → A) → ℕ → A
    unfolding slot
    fill write_idx i [] buffer = buffer
    fill write_idx i (x ∷ xs) buffer =
        fill write_idx (i + 1) xs (update buffer (slot cap (add_size write_idx i)) x)

    -- `for (i = 0; i < count; ++i) out[i] = buffer_[(read_idx + i) & (Capacity - 1)];`
    unfoldable pub copy : ℕ → ℕ → ℕ → (ℕ → A) → List A
    unfolding slot
    copy read_idx i zero buffer = []
    copy read_idx i (suc n) buffer =
        buffer (slot cap (add_size read_idx i)) ∷ copy read_idx (i + 1) n buffer

    -- `items` holds `count` elements.
    unfoldable pub enqueue_bulk : List A → RingBuffer A → ℕ × RingBuffer A
    unfolding free_slots clip fill
    enqueue_bulk items q =
        let count = clip (length items) (free_slots cap q.write_idx q.read_idx) in
        if count == 0 then (0, q) else (
          count,
          record q {
            buffer = fill q.write_idx 0 (take count items) q.buffer;
            write_idx = add_size q.write_idx count;
          },
        )

    -- The elements written to `out`, and the number returned.
    unfoldable pub dequeue_bulk : ℕ → RingBuffer A → List A × ℕ × RingBuffer A
    unfolding clip copy
    dequeue_bulk wanted q =
        let count = clip wanted (sub_size q.write_idx q.read_idx) in
        if count == 0 then ([], 0, q) else (
          copy q.read_idx 0 count q.buffer,
          count,
          record q { read_idx = add_size q.read_idx count },
        )

    unfoldable pub enqueue : A → RingBuffer A → Bool × RingBuffer A
    unfolding enqueue_bulk
    enqueue item q = let (n, q') = enqueue_bulk (item ∷ []) q in (n == 1, q')

    -- The element, if the call succeeds.
    unfoldable pub dequeue : RingBuffer A → Bool × Option A × RingBuffer A
    unfolding dequeue_bulk
    dequeue q = let (out, n, q') = dequeue_bulk 1 q in (n == 1, get_elem? out 0, q')
