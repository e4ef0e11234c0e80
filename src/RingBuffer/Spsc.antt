-- ===== src/RingBuffer/Spsc.antt =====
-- `SPSCQueue` of ring_buffer/include/ring_buffer.h: one producer and one consumer, interleaved.
-- A turn is one access of a shared variable (an atomic index, or a slot of the array) by one thread,
-- in the order of the code; the accesses are taken to be sequentially consistent. `sent` and
-- `received` record what finished calls have put in and taken out.
pub mod Invariant
pub mod Produce
pub mod Consume
pub mod Fifo
use cc_learning.Base.{
  ℕ, zero, suc, ◌+◌, ◌-◌, ◌≤◌, Bool, not, ◌&&◌, List, [], ◌∷◌, ◌++◌, ltb, leb, ◌==◌, if◌then◌else◌,
  add_size, sub_size, take, length,
}
use cc_learning.RingBuffer.{RingBuffer, fresh, slot, update, free_slots, clip}

-- Where the producer stands in `enqueue_bulk`.
pub data Producer {ℓ} (A : Type ℓ) : Type ℓ where
  idle : Producer A
  -- `write_idx` is read.
  sizing : List A → ℕ → Producer A
  -- The count is known; the compare-and-swap is next.
  reserving : List A → ℕ → Producer A
  -- From `write_idx` on the first elements are written, the second ones are still to write.
  filling : ℕ → List A → List A → Producer A

-- Where the consumer stands in `dequeue_bulk`.
pub data Consumer {ℓ} (A : Type ℓ) : Type ℓ where
  idle : Consumer A
  sizing : ℕ → ℕ → Consumer A
  -- `read_idx`, how many elements are still to copy, and those copied.
  copying : ℕ → ℕ → List A → Consumer A

pub record Spsc {ℓ} (A : Type ℓ) : Type ℓ where
  pub ring : RingBuffer A
  pub commit_idx : ℕ
  pub producer : Producer A
  pub consumer : Consumer A
  pub sent : List A
  pub received : List A

-- A call begins, or a thread makes its next access; a weak compare-and-swap may fail for no reason.
pub data Turn {ℓ} (A : Type ℓ) : Type ℓ where
  call_enqueue : List A → Turn A
  produce : Bool → Turn A
  call_dequeue : ℕ → Turn A
  consume : Bool → Turn A

module _ {ℓ} {A : Type ℓ} where
  unfoldable pub start : A → Spsc A
  unfolding fresh
  start d = record {
    ring = fresh d;
    commit_idx = 0;
    producer = Producer.idle;
    consumer = Consumer.idle;
    sent = [];
    received = [];
  }

  module _ (cap : ℕ) where
    -- The available slots are computed and the count is cut down; 0 ends the call.
    unfoldable pub size_up : List A → ℕ → ℕ → Producer A
    unfolding clip free_slots
    size_up items write_idx read_idx =
        let count = clip (length items) (free_slots cap write_idx read_idx) in
        if count == 0 then Producer.idle else reserving (take count items) write_idx

    -- `compare_exchange_weak` on `write_idx_`; on failure it holds the present index,
    -- and `read_idx_` is read again.
    unfoldable pub reserve : List A → ℕ → Bool → Spsc A → Spsc A
    reserve items expected fails s =
        if s.ring.write_idx == expected && not fails
        then record s {
          ring = record (s.ring) { write_idx = add_size expected (length items) };
          producer = filling expected [] items;
        }
        else record s { producer = Producer.sizing items s.ring.write_idx }

    -- One element, at `(write_idx + i) & (Capacity - 1)`.
    unfoldable pub put : ℕ → List A → A → List A → Spsc A → Spsc A
    unfolding slot
    put write_idx done x todo s = record s {
      ring = record (s.ring) {
        buffer = update s.ring.buffer (slot cap (add_size write_idx (length done))) x;
      };
      producer = filling write_idx (done ++ x ∷ []) todo;
    }

    -- The wait for the batch before, and the store that publishes this one.
    unfoldable pub publish : ℕ → List A → Spsc A → Spsc A
    publish write_idx done s =
        if s.commit_idx == write_idx
        then record s {
          commit_idx = add_size write_idx (length done);
          producer = Producer.idle;
          sent = s.sent ++ done;
        }
        else s

    unfoldable pub produce_step : Producer A → Bool → Spsc A → Spsc A
    unfolding size_up reserve put publish
    produce_step Producer.idle fails s = s
    produce_step (Producer.sizing items write_idx) fails s = record s {
      producer = size_up items write_idx s.ring.read_idx;
    }
    produce_step (reserving items write_idx) fails s = reserve items write_idx fails s
    produce_step (filling write_idx done []) fails s = publish write_idx done s
    produce_step (filling write_idx done (x ∷ todo)) fails s = put write_idx done x todo s

    -- `commit_idx_` is read; 0 available elements end the call.
    unfoldable pub size_out : ℕ → ℕ → Spsc A → Spsc A
    size_out wanted read_idx s =
        let available = sub_size s.commit_idx read_idx in
        let actual = if leb wanted available then wanted else available in
        record s { consumer = if actual == 0 then Consumer.idle else copying read_idx actual [] }

    -- `compare_exchange_weak` on `read_idx_`; on failure `expected` is set back and it is tried again.
    unfoldable pub release : ℕ → List A → Bool → Spsc A → Spsc A
    release expected out fails s =
        if s.ring.read_idx == expected && not fails
        then record s {
          ring = record (s.ring) { read_idx = add_size expected (length out) };
          consumer = Consumer.idle;
          received = s.received ++ out;
        }
        else s

    unfoldable pub consume_step : Consumer A → Bool → Spsc A → Spsc A
    unfolding size_out release slot
    consume_step Consumer.idle fails s = s
    consume_step (Consumer.sizing wanted read_idx) fails s = size_out wanted read_idx s
    consume_step (copying read_idx zero out) fails s = release read_idx out fails s
    consume_step (copying read_idx (suc n) out) fails s = record s {
      consumer =
          copying read_idx n
            (out ++ s.ring.buffer (slot cap (add_size read_idx (length out))) ∷ []);
    }

    -- A call begins by reading the thread's own index; a thread that is busy begins none.
    unfoldable pub begin_enqueue : Producer A → List A → Spsc A → Spsc A
    begin_enqueue Producer.idle items s = record s {
      producer = Producer.sizing items s.ring.write_idx;
    }
    begin_enqueue p items s = s

    unfoldable pub begin_dequeue : Consumer A → ℕ → Spsc A → Spsc A
    begin_dequeue Consumer.idle wanted s = record s {
      consumer = Consumer.sizing wanted s.ring.read_idx;
    }
    begin_dequeue c wanted s = s

    unfoldable pub turn : Spsc A → Turn A → Spsc A
    unfolding produce_step consume_step begin_enqueue begin_dequeue
    turn s (call_enqueue items) = begin_enqueue s.producer items s
    turn s (produce fails) = produce_step s.producer fails s
    turn s (call_dequeue wanted) = begin_dequeue s.consumer wanted s
    turn s (consume fails) = consume_step s.consumer fails s

    unfoldable pub run : List (Turn A) → Spsc A → Spsc A
    unfolding turn
    run [] s = s
    run (t ∷ ts) s = run ts (turn s t)
