-- ===== src/RingBuffer/Tests.antt =====
-- Runs of the two queues on small inputs.
use cc_learning.Base.{ℕ, ◌≡◌, ◌≤◌, refl, arith, false, List, [], ◌∷◌, ◌++◌, length}
use cc_learning.RingBuffer.{IsCapacity, fresh}
use cc_learning.RingBuffer.Run.{Call, puts, gets, run, run_queue, run_refines}
use cc_learning.RingBuffer.Spsc
use cc_learning.RingBuffer.Spsc.{
  Spsc, Turn, call_enqueue, produce, call_dequeue, consume, start, filling, Producer, turn,
}
use cc_learning.RingBuffer.Spsc.Fifo.{run_fifo}

four : IsCapacity 4
four = record { exponent = 2; small = omega arith; power = refl }

abbrev calls : List (Call ℕ)
calls = puts (1 ∷ 2 ∷ 3 ∷ []) ∷ gets 2 ∷ puts (4 ∷ 5 ∷ 6 ∷ 7 ∷ []) ∷ gets 9 ∷ []

run_refines_example : run 4 calls (fresh 0) ≡ run_queue 4 calls []
run_refines_example = run_refines 4 four calls 0

abbrev turns : List (Turn ℕ)
turns =
    call_enqueue (5 ∷ [])
    ∷ produce false
    ∷ call_dequeue 1
    ∷ produce false
    ∷ consume false
    ∷ produce false
    ∷ []

run_fifo_example :
    let s = Spsc.run 4 turns (start 0) in
    (waiting : List ℕ) × (s.sent ≡ s.received ++ waiting) × (length waiting ≤ 4)
run_fifo_example = run_fifo four turns 0
