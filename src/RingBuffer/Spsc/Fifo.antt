-- ===== src/RingBuffer/Spsc/Fifo.antt =====
-- What the invariant gives for every interleaving.
use cc_learning.Base.{
  ℕ, ◌≤◌, ◌≡◌, refl, Bool, List, [], ◌∷◌, ◌++◌, sub_size, ==_iff, sym, length, arith, subst,
}
use cc_learning.RingBuffer.{IsCapacity}
use cc_learning.RingBuffer.Window.{view, length-view}
use cc_learning.RingBuffer.Spsc.{
  Producer, filling, Spsc, start, publish, produce_step, Turn, call_enqueue, produce, call_dequeue,
  consume, turn, run,
}
use cc_learning.RingBuffer.Spsc.Invariant.{Inv, ProducerOk, start-Inv}
use cc_learning.RingBuffer.Spsc.Produce.{produce_step-Inv, begin_enqueue-Inv}
use cc_learning.RingBuffer.Spsc.Consume.{consume_step-Inv, begin_dequeue-Inv}

module _ {cap : ℕ} (ok : IsCapacity cap) where
  module _ {ℓ} {A : Type ℓ} where
    turn-Inv : (t : Turn A) {s : Spsc A} → Inv ok s → Inv ok (turn cap s t)
    unfolding turn
    turn-Inv (call_enqueue items) {s} v = begin_enqueue-Inv ok s.producer items v v.producer_ok
    turn-Inv (produce fails) {s} v = produce_step-Inv ok s.producer fails v v.producer_ok
    turn-Inv (call_dequeue wanted) {s} v = begin_dequeue-Inv ok s.consumer wanted v
    turn-Inv (consume fails) {s} v = consume_step-Inv ok s.consumer fails v v.consumer_ok

    run-keeps_Inv : (ts : List (Turn A)) {s : Spsc A} → Inv ok s → Inv ok (run cap ts s)
    unfolding run
    run-keeps_Inv [] v = v
    run-keeps_Inv (t ∷ ts) v = run-keeps_Inv ts (turn-Inv t v)

    pub run-Inv : (ts : List (Turn A)) (d : A) → Inv ok (run cap ts (start d))
    run-Inv ts d = run-keeps_Inv ts (start-Inv ok d)

    -- Whatever the interleaving and the failures of the compare-and-swaps: what finished calls of the
    -- producer have put in is what finished calls of the consumer have taken out, with at most `cap`
    -- committed elements behind it. None is lost, doubled or out of order.
    pub run_fifo :
        (ts : List (Turn A)) (d : A)
        → let s = run cap ts (start d) in
          (waiting : List A) × (s.sent ≡ s.received ++ waiting) × (length waiting ≤ cap)
    run_fifo ts d =
        let s : Spsc A = run cap ts (start d) in
        let v : Inv ok s = run-Inv ts d in
        let held : ℕ = sub_size s.commit_idx s.ring.read_idx in
        (
          view ok s.ring.read_idx held s.ring.buffer,
          v.fifo,
          omega (arith, v.room, length-view ok s.ring.read_idx held s.ring.buffer),
        )

    publish_ready :
        (w : ℕ) (done : List A) (s : Spsc A)
        → w ≡ s.commit_idx
        → ((publish cap w done s).producer ≡ Producer.idle)
          × ((publish cap w done s).sent ≡ s.sent ++ done)
    unfolding publish
    publish_ready w done s e = rw ((==_iff s.commit_idx w).1 (sym e)) (refl, refl)

    -- The producer never waits for another batch: when its slots are written, the store of
    -- `commit_idx_` comes in its next turn, and the batch counts as sent.
    pub publish_at_once :
        (ts : List (Turn A)) (d : A) (w : ℕ) (done : List A) (fails : Bool)
        → (run cap ts (start d)).producer ≡ filling w done []
        → let s = run cap ts (start d) in
          ((turn cap s (produce fails)).producer ≡ Producer.idle)
          × ((turn cap s (produce fails)).sent ≡ s.sent ++ done)
    unfolding turn produce_step
    publish_at_once ts d w done fails e =
        let s : Spsc A = run cap ts (start d) in
        subst
          (λ p.
            ((produce_step cap p fails s).producer ≡ Producer.idle)
            × ((produce_step cap p fails s).sent ≡ s.sent ++ done))
          (sym e)
          (publish_ready w done s
            (subst
              (λ p. ProducerOk ok p s.ring.write_idx s.ring.read_idx s.commit_idx s.ring.buffer) e
              ((run-Inv ts d).producer_ok)).0)
