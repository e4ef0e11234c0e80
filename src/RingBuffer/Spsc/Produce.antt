-- ===== src/RingBuffer/Spsc/Produce.antt =====
-- The producer's turns and the invariant.
use cc_learning.Base.{
  ℕ, zero, suc, ◌+◌, ◌%◌, ◌≤◌, ◌≡◌, refl, sym, ap, ◌∙◌, arith, Bool, true, false, List, [], ◌∷◌,
  ◌++◌, ◌==◌, if◌then◌else◌, add_size, sub_size, size_mod, take, length, length-append, length-take,
  append_assoc, ==_iff,
}
use cc_learning.RingBuffer.{IsCapacity, slot, update, free_slots, clip}
use cc_learning.RingBuffer.Window.{
  view, view_wrap, view_add, view-update, view-put, slot_wrap, suc-ne_zero, view_none,
}
use cc_learning.RingBuffer.Refine.{cap_le}
use cc_learning.RingBuffer.Spsc.{
  Producer, reserving, filling, Consumer, copying, Spsc, size_up, reserve, put, publish,
  produce_step, begin_enqueue,
}
use cc_learning.RingBuffer.Spsc.Invariant.{ProducerOk, ConsumerOk, Inv, with_producer}

module _ {cap : ℕ} (ok : IsCapacity cap) where
  module _ {ℓ} {A : Type ℓ} where
    size_up-ok :
        (items : List A) (w write read commit : ℕ) (buffer : ℕ → A)
        → write ≡ commit
        → w ≡ write
        → sub_size w read ≤ cap
        → ProducerOk ok (size_up cap items w read) write read commit buffer
    unfolding size_up clip free_slots
    size_up-ok items w write read commit buffer e f h =
        go (clip (length items) (free_slots cap w read)) (ground (arith, cap_le ok))
          (ground (arith, cap_le ok))
      where
        go :
            (n : ℕ)
            → sub_size w read + n ≤ cap
            → n ≤ length items
            → ProducerOk ok
                (if n == 0 then Producer.idle else reserving (take n items) w)
                write
                read
                commit
                buffer
        go zero p q = (e, tt)
        go (suc n) p q =
            rw (suc-ne_zero n)
              (e, f, omega (arith, f, length-take (suc n) items, ap (λ x. sub_size x read) f), tt)

    reserve-Inv :
        (items : List A) (w : ℕ) (fails : Bool) {s : Spsc A}
        → Inv ok s
        → ProducerOk ok
            (reserving items w)
            s.ring.write_idx
            s.ring.read_idx
            s.commit_idx
            s.ring.buffer
        → Inv ok (reserve cap items w fails s)
    unfolding reserve
    reserve-Inv items w true {s} v h =
        rw ((==_iff s.ring.write_idx w).1 (sym h.1))
          (with_producer ok (Producer.sizing items s.ring.write_idx) v (h.0, refl, tt))
    reserve-Inv items w false {s} v h = rw ((==_iff s.ring.write_idx w).1 (sym h.1)) (record {
      write_word = omega arith;
      read_word = v.read_word;
      commit_word = v.commit_word;
      room = omega (arith, cap_le ok);
      fifo = v.fifo;
      producer_ok = (h.1 ∙ h.0, omega (arith, cap_le ok), view_none ok w s.ring.buffer);
      consumer_ok = v.consumer_ok;
    })

    put-Inv :
        (w : ℕ) (done : List A) (x : A) (todo : List A) {s : Spsc A}
        → Inv ok s
        → ProducerOk ok
            (filling w done (x ∷ todo))
            s.ring.write_idx
            s.ring.read_idx
            s.commit_idx
            s.ring.buffer
        → Inv ok (put cap w done x todo s)
    unfolding put
    put-Inv w done x todo {s} v h = record {
      write_word = v.write_word;
      read_word = v.read_word;
      commit_word = v.commit_word;
      room = v.room;
      fifo = v.fifo ∙ ap (λ l. s.received ++ l) (sym (unseen held (omega arith)));
      producer_ok = (
        h.0,
        omega (arith, length-append done (x ∷ [])),
        ap (λ n. view ok w n (update s.ring.buffer (slot cap (add_size w (length done))) x))
              (let e : length (done ++ x ∷ []) ≡ length done + 1 =
                  omega (arith, length-append done (x ∷ [])) in
                e)
            ∙ view-put ok w w (length done) (length done) x s.ring.buffer refl
                (omega (arith, cap_le ok))
            ∙ ap (λ l. l ++ x ∷ []) h.2,
      );
      consumer_ok = keeps s.consumer v.consumer_ok;
    }
      where
        held : ℕ
        held = sub_size s.commit_idx s.ring.read_idx

        -- The slot that is written lies behind those that are committed.
        unseen :
            (n : ℕ)
            → n ≤ held
            → view ok s.ring.read_idx n
                (update s.ring.buffer (slot cap (add_size w (length done))) x)
              ≡ view ok s.ring.read_idx n s.ring.buffer
        unseen n l = rw same (
            view-update ok s.ring.read_idx (s.ring.read_idx + (held + length done))
              (held + length done) n x s.ring.buffer refl (omega arith) (omega (arith, cap_le ok)))
          where
            same :
                slot cap (add_size w (length done))
                ≡ slot cap (s.ring.read_idx + (held + length done))
            same =
                ap (slot cap) (
                  let e : (w + length done) % size_mod
                      ≡ (s.ring.read_idx + (held + length done)) % size_mod =
                    omega arith in
                  e)
                ∙ slot_wrap ok (s.ring.read_idx + (held + length done))

        keeps :
            (c : Consumer A)
            → ConsumerOk ok c s.ring.read_idx s.commit_idx s.ring.buffer
            → ConsumerOk ok c s.ring.read_idx s.commit_idx
                (update s.ring.buffer (slot cap (add_size w (length done))) x)
        keeps Consumer.idle k = tt
        keeps (Consumer.sizing wanted r) k = k
        keeps (copying r n out) k = (
          k.0,
          k.1,
          k.2
              ∙ ap (λ y. view ok y (length out) s.ring.buffer) k.0
              ∙ sym (unseen (length out) (omega arith))
              ∙ ap
                  (λ y.
                    view ok y (length out)
                      (update s.ring.buffer (slot cap (add_size w (length done))) x))
                  (sym k.0),
        )

    publish-Inv :
        (w : ℕ) (done : List A) {s : Spsc A}
        → Inv ok s
        → ProducerOk ok
            (filling w done [])
            s.ring.write_idx
            s.ring.read_idx
            s.commit_idx
            s.ring.buffer
        → Inv ok (publish cap w done s)
    unfolding publish
    publish-Inv w done {s} v h = rw ((==_iff s.commit_idx w).1 (sym h.0)) (record {
      write_word = v.write_word;
      read_word = v.read_word;
      commit_word = omega arith;
      room = omega (arith, cap_le ok);
      fifo =
          ap (λ l. l ++ done) v.fifo
          ∙ append_assoc s.received (view ok s.ring.read_idx held s.ring.buffer) done
          ∙ ap (λ l. s.received ++ l) (sym longer);
      producer_ok = (
        (let e : s.ring.write_idx ≡ add_size w (length done) = omega (arith, cap_le ok) in e),
        tt,
      );
      consumer_ok = keeps s.consumer v.consumer_ok;
    })
      where
        held : ℕ
        held = sub_size s.commit_idx s.ring.read_idx

        more : sub_size (add_size w (length done)) s.ring.read_idx ≡ held + length done
        more = omega (arith, cap_le ok)

        longer :
            view ok s.ring.read_idx
              (sub_size (add_size w (length done)) s.ring.read_idx)
              s.ring.buffer
            ≡ view ok s.ring.read_idx held s.ring.buffer ++ done
        longer =
            view_add ok s.ring.read_idx (s.ring.read_idx + held) held (length done)
              (sub_size (add_size w (length done)) s.ring.read_idx) s.ring.buffer refl more
            ∙ ap (λ l. view ok s.ring.read_idx held s.ring.buffer ++ l)
                (sym (view_wrap ok (s.ring.read_idx + held) (length done) s.ring.buffer)
                  ∙ ap (λ y. view ok y (length done) s.ring.buffer)
                      (let e : (s.ring.read_idx + held) % size_mod ≡ w = omega arith in e)
                  ∙ h.2)

        keeps :
            (c : Consumer A)
            → ConsumerOk ok c s.ring.read_idx s.commit_idx s.ring.buffer
            → ConsumerOk ok c s.ring.read_idx (add_size w (length done)) s.ring.buffer
        keeps Consumer.idle k = tt
        keeps (Consumer.sizing wanted r) k = k
        keeps (copying r n out) k = (k.0, omega (arith, more), k.2)

    pub produce_step-Inv :
        (p : Producer A) (fails : Bool) {s : Spsc A}
        → Inv ok s
        → ProducerOk ok p s.ring.write_idx s.ring.read_idx s.commit_idx s.ring.buffer
        → Inv ok (produce_step cap p fails s)
    unfolding produce_step
    produce_step-Inv Producer.idle fails v h = v
    produce_step-Inv (Producer.sizing items w) fails {s} v h =
        with_producer ok (size_up cap items w s.ring.read_idx) v (
          size_up-ok items w s.ring.write_idx s.ring.read_idx s.commit_idx s.ring.buffer h.0 h.1
            (omega (arith, cap_le ok)))
    produce_step-Inv (reserving items w) fails v h = reserve-Inv items w fails v h
    produce_step-Inv (filling w done []) fails v h = publish-Inv w done v h
    produce_step-Inv (filling w done (x ∷ todo)) fails v h = put-Inv w done x todo v h

    pub begin_enqueue-Inv :
        (p : Producer A) (items : List A) {s : Spsc A}
        → Inv ok s
        → ProducerOk ok p s.ring.write_idx s.ring.read_idx s.commit_idx s.ring.buffer
        → Inv ok (begin_enqueue cap p items s)
    unfolding begin_enqueue
    begin_enqueue-Inv Producer.idle items {s} v h =
        with_producer ok (Producer.sizing items s.ring.write_idx) v (h.0, refl, tt)
    begin_enqueue-Inv (Producer.sizing i w) items v h = v
    begin_enqueue-Inv (reserving i w) items v h = v
    begin_enqueue-Inv (filling w d t) items v h = v
