-- ===== src/RingBuffer/Spsc/Consume.antt =====
-- The consumer's turns and the invariant.
use cc_learning.Base.{
  ℕ, zero, suc, ◌+◌, ◌≤◌, ◌≡◌, refl, sym, ap, ap₂, ◌∙◌, arith, Bool, true, false, List, [], ◌∷◌,
  ◌++◌, leb, ◌==◌, if◌then◌else◌, add_size, sub_size, length, length-append, append_assoc, ==_iff,
}
use cc_learning.RingBuffer.{IsCapacity, slot}
use cc_learning.RingBuffer.Window.{
  view, view_wrap, view_add, slot_wrap, suc-ne_zero, view_none, view_single,
}
use cc_learning.RingBuffer.Refine.{cap_le}
use cc_learning.RingBuffer.Spsc.{
  Producer, reserving, filling, Consumer, copying, Spsc, size_out, release, consume_step,
  begin_dequeue,
}
use cc_learning.RingBuffer.Spsc.Invariant.{ProducerOk, ConsumerOk, Inv, with_consumer}

module _ {cap : ℕ} (ok : IsCapacity cap) where
  module _ {ℓ} {A : Type ℓ} where
    size_out-Inv :
        (wanted r : ℕ) {s : Spsc A}
        → Inv ok s
        → r ≡ s.ring.read_idx
        → Inv ok (size_out cap wanted r s)
    unfolding size_out
    size_out-Inv wanted r {s} v e = with_consumer ok _ v (
        go (if leb wanted (sub_size s.commit_idx r) then wanted else sub_size s.commit_idx r)
          (ground arith))
      where
        go :
            (n : ℕ)
            → n ≤ sub_size s.commit_idx s.ring.read_idx
            → ConsumerOk ok
                (if n == 0 then Consumer.idle else copying r n [])
                s.ring.read_idx
                s.commit_idx
                s.ring.buffer
        go zero h = tt
        go (suc n) h = rw (suc-ne_zero n) (e, omega arith, sym (view_none ok r s.ring.buffer))

    -- One more element is copied, from a slot that holds a committed one.
    view_snoc :
        (r n : ℕ) (buffer : ℕ → A)
        → view ok r (n + 1) buffer ≡ view ok r n buffer ++ buffer (slot cap (add_size r n)) ∷ []
    view_snoc r n buffer =
        view_add ok r (r + n) n 1 (n + 1) buffer refl refl
        ∙ ap (λ l. view ok r n buffer ++ l)
            (view_single ok (r + n) buffer ∙ ap (λ c. buffer c ∷ []) (sym (slot_wrap ok (r + n))))

    copy-Inv :
        (r n : ℕ) (out : List A) {s : Spsc A}
        → Inv ok s
        → ConsumerOk ok (copying r (suc n) out) s.ring.read_idx s.commit_idx s.ring.buffer
        → Inv ok (consume_step cap (copying r (suc n) out) false s)
    unfolding consume_step
    copy-Inv r n out {s} v h = with_consumer ok _ v (
      h.0,
      omega (arith, length-append out (x ∷ [])),
      ap (λ l. l ++ x ∷ []) h.2
          ∙ sym (view_snoc r (length out) s.ring.buffer)
          ∙ ap (λ k. view ok r k s.ring.buffer)
              (let e : length out + 1 ≡ length (out ++ x ∷ []) =
                  omega (arith, length-append out (x ∷ [])) in
                e),
    )
      where
        x : A
        x = s.ring.buffer (slot cap (add_size r (length out)))

    release-Inv :
        (r : ℕ) (out : List A) (fails : Bool) {s : Spsc A}
        → Inv ok s
        → ConsumerOk ok (copying r 0 out) s.ring.read_idx s.commit_idx s.ring.buffer
        → Inv ok (release cap r out fails s)
    unfolding release
    release-Inv r out true {s} v h = rw ((==_iff s.ring.read_idx r).1 (sym h.0)) v
    release-Inv r out false {s} v h = rw ((==_iff s.ring.read_idx r).1 (sym h.0)) (record {
      write_word = v.write_word;
      read_word = omega arith;
      commit_word = v.commit_word;
      room = omega (arith, cap_le ok);
      fifo = v.fifo ∙ ap (λ l. s.received ++ l) shorter ∙ sym (append_assoc s.received out rest);
      producer_ok = keeps s.producer v.producer_ok;
      consumer_ok = tt;
    })
      where
        held : ℕ
        held = sub_size s.commit_idx s.ring.read_idx

        rest : List A
        rest =
            view ok (add_size r (length out)) (sub_size s.commit_idx (add_size r (length out)))
              s.ring.buffer

        less : held ≡ length out + sub_size s.commit_idx (add_size r (length out))
        less = omega (arith, cap_le ok)

        shorter : view ok s.ring.read_idx held s.ring.buffer ≡ out ++ rest
        shorter =
            ap (λ y. view ok y held s.ring.buffer) (sym h.0)
            ∙ view_add ok r (r + length out) (length out)
                (sub_size s.commit_idx (add_size r (length out))) held s.ring.buffer refl less
            ∙ ap₂ ◌++◌ (sym h.2) (
                sym (
                  view_wrap ok (r + length out) (sub_size s.commit_idx (add_size r (length out)))
                    s.ring.buffer))

        keeps :
            (p : Producer A)
            → ProducerOk ok p s.ring.write_idx s.ring.read_idx s.commit_idx s.ring.buffer
            → ProducerOk ok p s.ring.write_idx (add_size r (length out)) s.commit_idx s.ring.buffer
        keeps Producer.idle k = k
        keeps (Producer.sizing items w) k = k
        keeps (reserving items w) k = (k.0, k.1, omega (arith, cap_le ok), tt)
        keeps (filling w done todo) k = k

    pub consume_step-Inv :
        (c : Consumer A) (fails : Bool) {s : Spsc A}
        → Inv ok s
        → ConsumerOk ok c s.ring.read_idx s.commit_idx s.ring.buffer
        → Inv ok (consume_step cap c fails s)
    unfolding consume_step
    consume_step-Inv Consumer.idle fails v h = v
    consume_step-Inv (Consumer.sizing wanted r) fails v h = size_out-Inv wanted r v h.0
    consume_step-Inv (copying r zero out) fails v h = release-Inv r out fails v h
    consume_step-Inv (copying r (suc n) out) fails v h = copy-Inv r n out v h

    pub begin_dequeue-Inv :
        (c : Consumer A) (wanted : ℕ) {s : Spsc A}
        → Inv ok s
        → Inv ok (begin_dequeue cap c wanted s)
    unfolding begin_dequeue
    begin_dequeue-Inv Consumer.idle wanted {s} v =
        with_consumer ok (Consumer.sizing wanted s.ring.read_idx) v (refl, tt)
    begin_dequeue-Inv (Consumer.sizing w r) wanted v = v
    begin_dequeue-Inv (copying r n out) wanted v = v
