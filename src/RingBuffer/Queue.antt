-- ===== src/RingBuffer/Queue.antt =====
-- The specification of both queues: a first-in first-out list of at most `cap` elements.
use cc_learning.Base.{ℕ, ◌-◌, List, ◌++◌, min, length, take, drop}

module _ {ℓ} {A : Type ℓ} where
  unfoldable pub enqueue_bulk : ℕ → List A → List A → ℕ × List A
  enqueue_bulk cap items q = let n = min (length items) (cap - length q) in (n, q ++ take n items)

  unfoldable pub dequeue_bulk : ℕ → List A → List A × ℕ × List A
  dequeue_bulk wanted q = let n = min wanted (length q) in (take n q, n, drop n q)
