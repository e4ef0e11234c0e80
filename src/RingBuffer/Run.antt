-- ===== src/RingBuffer/Run.antt =====
-- A client's calls of `MPMCLockedQueue` in the order in which they take the lock.
use cc_learning.Base.{ℕ, ◌≡◌, refl, ap, ◌∙◌, List, [], ◌∷◌}
use cc_learning.RingBuffer.{RingBuffer, IsCapacity, fresh, enqueue_bulk, dequeue_bulk}
use cc_learning.RingBuffer.Window.{view}
use cc_learning.RingBuffer.Queue
use cc_learning.RingBuffer.Refine.{
  IsValid, contents, fresh-IsValid, enqueue_bulk_refines, dequeue_bulk_refines,
}

pub data Call {ℓ} (A : Type ℓ) : Type ℓ where
  puts : List A → Call A
  gets : ℕ → Call A

-- What a call returns: the number, and the elements that it wrote out.
abbrev pub Reply {ℓ} : Type ℓ → Type ℓ
Reply A = List A × ℕ

module _ {ℓ} {A : Type ℓ} (cap : ℕ) where
  pub run : List (Call A) → RingBuffer A → List (Reply A)
  run [] q = []
  run (puts items ∷ cs) q = let (n, q') = enqueue_bulk cap items q in ([], n) ∷ run cs q'
  run (gets wanted ∷ cs) q = let (out, n, q') = dequeue_bulk cap wanted q in (out, n) ∷ run cs q'

  pub run_queue : List (Call A) → List A → List (Reply A)
  run_queue [] q = []
  run_queue (puts items ∷ cs) q =
      let (n, q') = Queue.enqueue_bulk cap items q in ([], n) ∷ run_queue cs q'
  run_queue (gets wanted ∷ cs) q =
      let (out, n, q') = Queue.dequeue_bulk wanted q in (out, n) ∷ run_queue cs q'

  module _ (ok : IsCapacity cap) where
    run-valid :
        (cs : List (Call A)) {q : RingBuffer A}
        → IsValid cap q
        → run cs q ≡ run_queue cs (contents ok q)
    unfolding run run_queue
    run-valid [] v = refl
    run-valid (puts items ∷ cs) v =
        let r = enqueue_bulk_refines ok items v in rw (run-valid cs r.1, ← r.0)
    run-valid (gets wanted ∷ cs) v =
        let r = dequeue_bulk_refines ok wanted v in rw (run-valid cs r.1, ← r.0)

    contents-fresh : (d : A) → contents ok (fresh d) ≡ []
    unfolding contents fresh view
    contents-fresh d = refl

    -- No sequence of bulk calls tells a new queue of a power-of-two capacity from the bounded
    -- first-in first-out list: counts and elements agree, whatever the wrap of the indices.
    pub run_refines : (cs : List (Call A)) (d : A) → run cs (fresh d) ≡ run_queue cs []
    run_refines cs d = run-valid cs (fresh-IsValid ok d) ∙ ap (run_queue cs) (contents-fresh d)
