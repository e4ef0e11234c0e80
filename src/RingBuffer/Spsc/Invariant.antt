-- ===== src/RingBuffer/Spsc/Invariant.antt =====
-- What holds between any two turns of the producer and the consumer.
use cc_learning.Base.{ℕ, ◌+◌, ◌≤◌, ◌<◌, ◌≡◌, refl, arith, ◌++◌, sub_size, size_mod, length}
use cc_learning.RingBuffer.{IsCapacity}
use cc_learning.RingBuffer.Window.{view}
use cc_learning.RingBuffer.Spsc.{Producer, reserving, filling, Consumer, copying, Spsc, start}

module _ {cap : ℕ} (ok : IsCapacity cap) where
  module _ {ℓ} {A : Type ℓ} where
    abbrev pub ProducerOk : Producer A → ℕ → ℕ → ℕ → (ℕ → A) → Type ℓ
    ProducerOk Producer.idle write read commit buffer = (write ≡ commit) × Unit {ℓ}
    ProducerOk (Producer.sizing items w) write read commit buffer =
        (write ≡ commit) × (w ≡ write) × Unit {ℓ}
    ProducerOk (reserving items w) write read commit buffer =
        (write ≡ commit) × (w ≡ write) × (sub_size write read + length items ≤ cap) × Unit {ℓ}
    ProducerOk (filling w done todo) write read commit buffer =
        (w ≡ commit)
        × (sub_size write commit ≡ length done + length todo)
        × (view ok w (length done) buffer ≡ done)

    abbrev pub ConsumerOk : Consumer A → ℕ → ℕ → (ℕ → A) → Type ℓ
    ConsumerOk Consumer.idle read commit buffer = Unit
    ConsumerOk (Consumer.sizing wanted r) read commit buffer = (r ≡ read) × Unit {ℓ}
    ConsumerOk (copying r n out) read commit buffer =
        (r ≡ read) × (length out + n ≤ sub_size commit read) × (out ≡ view ok r (length out) buffer)

    pub record Inv (s : Spsc A) : Type ℓ where
      pub write_word : s.ring.write_idx < size_mod
      pub read_word : s.ring.read_idx < size_mod
      pub commit_word : s.commit_idx < size_mod
      pub room :
          sub_size s.commit_idx s.ring.read_idx + sub_size s.ring.write_idx s.commit_idx ≤ cap
      pub fifo :
          s.sent
          ≡ s.received
            ++ view ok s.ring.read_idx (sub_size s.commit_idx s.ring.read_idx) s.ring.buffer
      pub producer_ok :
          ProducerOk s.producer s.ring.write_idx s.ring.read_idx s.commit_idx s.ring.buffer
      pub consumer_ok : ConsumerOk s.consumer s.ring.read_idx s.commit_idx s.ring.buffer

    pub start-Inv : (d : A) → Inv (start d)
    unfolding start view
    start-Inv d = record {
      write_word = omega arith;
      read_word = omega arith;
      commit_word = omega arith;
      room = omega arith;
      fifo = refl;
      producer_ok = (refl, tt);
      consumer_ok = tt;
    }

    -- The producer's own state changes, and nothing shared.
    pub with_producer :
        (p : Producer A) {s : Spsc A}
        → Inv s
        → ProducerOk p s.ring.write_idx s.ring.read_idx s.commit_idx s.ring.buffer
        → Inv (record s { producer = p })
    with_producer p v h = record {
      write_word = v.write_word;
      read_word = v.read_word;
      commit_word = v.commit_word;
      room = v.room;
      fifo = v.fifo;
      producer_ok = h;
      consumer_ok = v.consumer_ok;
    }

    pub with_consumer :
        (c : Consumer A) {s : Spsc A}
        → Inv s
        → ConsumerOk c s.ring.read_idx s.commit_idx s.ring.buffer
        → Inv (record s { consumer = c })
    with_consumer c v h = record {
      write_word = v.write_word;
      read_word = v.read_word;
      commit_word = v.commit_word;
      room = v.room;
      fifo = v.fifo;
      producer_ok = v.producer_ok;
      consumer_ok = h;
    }
