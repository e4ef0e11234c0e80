-- ===== src/RingBuffer/Refine.antt =====
-- `MPMCLockedQueue` against the bounded queue, across the wrap of both indices.
use native.Mathlib.Nat.{pow-le-pow_right}
use cc_learning.Base.{
  ℕ, zero, suc, ◌+◌, ◌-◌, ◌^◌, ◌≤◌, ◌<◌, ◌≡◌, refl, sym, ap, ap₂, ◌∙◌, arith, List, [], ◌++◌,
  length, take, drop, add_size, sub_size, size_mod, min, length-take, take-append_length,
  drop-append_length, ◌==◌, if◌then◌else◌,
}
use cc_learning.RingBuffer.{
  RingBuffer, IsCapacity, free_slots, clip, fill, copy, fresh, enqueue_bulk, dequeue_bulk,
}
use cc_learning.RingBuffer.Queue
use cc_learning.RingBuffer.Window.{view, view_wrap, copy-view, length-view, view_add, view-fill}

module _ {ℓ} {A : Type ℓ} where
  -- `write_idx_ - read_idx_`
  abbrev pub held : RingBuffer A → ℕ
  held q = sub_size q.write_idx q.read_idx

  pub record IsValid (cap : ℕ) (q : RingBuffer A) : Type 0 where
    pub write_word : q.write_idx < size_mod
    pub read_word : q.read_idx < size_mod
    pub bounded : held q ≤ cap

module _ {cap : ℕ} (ok : IsCapacity cap) where
  pub cap_le : cap ≤ 2 ^ 63
  cap_le =
      rw ok.power (
        pow-le-pow_right {n = 2} (omega arith) {i = ok.exponent} {j = 63} (omega (arith, ok.small)))

  module _ {ℓ} {A : Type ℓ} where
    -- The elements in the queue, oldest first.
    unfoldable pub contents : RingBuffer A → List A
    contents q = view ok q.read_idx (held q) q.buffer

    pub length-contents : (q : RingBuffer A) → length (contents q) ≡ held q
    unfolding contents
    length-contents q = length-view ok q.read_idx (held q) q.buffer

    pub fresh-IsValid : (d : A) → IsValid cap (fresh d)
    unfolding fresh
    fresh-IsValid d = omega arith

    -- How many elements `enqueue_bulk` takes.
    count_in : ℕ → RingBuffer A → ℕ
    count_in n q = min n (cap - held q)

    -- The state after taking `n` elements.
    filled : ℕ → List A → RingBuffer A → RingBuffer A
    filled n items q = record q {
      buffer = fill cap q.write_idx 0 (take n items) q.buffer;
      write_idx = add_size q.write_idx n;
    }

    clip_min :
        (n : ℕ) {q : RingBuffer A}
        → IsValid cap q
        → clip n (free_slots cap q.write_idx q.read_idx) ≡ count_in n q
    unfolding clip free_slots count_in
    clip_min n v = ground (arith, cap_le)

    -- Taking nothing leaves the state alone.
    taken :
        (n : ℕ) (items : List A) {q : RingBuffer A}
        → IsValid cap q
        → ◌≡◌ {A = ℕ × RingBuffer A}
            (if n == 0 then (0, q) else (n, filled n items q))
            (n, filled n items q)
    unfolding filled fill
    taken zero items {q} v =
        ap (λ w. (0, record q { write_idx = w }))
          (let e : q.write_idx ≡ add_size q.write_idx 0 = omega arith in e)
    taken (suc n) items v = ground arith

    enqueue_bulk_eq :
        (items : List A) {q : RingBuffer A}
        → IsValid cap q
        → enqueue_bulk cap items q
          ≡ (count_in (length items) q, filled (count_in (length items) q) items q)
    unfolding enqueue_bulk count_in filled
    enqueue_bulk_eq items {q} v =
        let n = count_in (length items) q in
        let e : clip (length items) (free_slots cap q.write_idx q.read_idx) ≡ n =
          clip_min (length items) v in
        rw e (taken n items v)

    contents-filled :
        (n : ℕ) (items : List A) {q : RingBuffer A}
        → IsValid cap q
        → n ≤ length items
        → held q + n ≤ cap
        → contents (filled n items q) ≡ contents q ++ take n items
    unfolding contents filled
    contents-filled n items {q} v h k =
        let m : ℕ = held (filled n items q) in
        view-fill ok q.read_idx q.write_idx 0 (held q) m (take n items) q.buffer (omega arith)
          (omega (arith, length-take n items, cap_le)) (omega (arith, cap_le))

    filled-IsValid :
        (n : ℕ) (items : List A) {q : RingBuffer A}
        → IsValid cap q
        → held q + n ≤ cap
        → IsValid cap (filled n items q)
    unfolding filled
    filled-IsValid n items v h = omega (arith, cap_le)

    -- `enqueue_bulk` takes as many elements as fit, in order, behind those in the queue.
    pub enqueue_bulk_refines :
        (items : List A) {q : RingBuffer A}
        → IsValid cap q
        → let (n, q') = enqueue_bulk cap items q in
          ((n, contents q') ≡ Queue.enqueue_bulk cap items (contents q)) × IsValid cap q'
    unfolding Queue.enqueue_bulk count_in
    enqueue_bulk_refines items {q} v =
        let n : ℕ = count_in (length items) q in
        rw (enqueue_bulk_eq items v) (
          ap₂ {C = ℕ × List A} (λ a b. (a, b)) fits
              (contents-filled n items v (omega arith) (omega arith)
                ∙ ap (λ k. contents q ++ take k items) fits),
          filled-IsValid n items v (omega arith),
        )
      where
        fits : count_in (length items) q ≡ min (length items) (cap - length (contents q))
        fits = omega (arith, length-contents q)

    left : ℕ → RingBuffer A → RingBuffer A
    left n q = record q { read_idx = add_size q.read_idx n }

    handed :
        (n : ℕ) {q : RingBuffer A}
        → IsValid cap q
        → ◌≡◌ {A = List A × ℕ × RingBuffer A}
            (if n == 0 then ([], 0, q) else (copy cap q.read_idx 0 n q.buffer, n, left n q))
            (copy cap q.read_idx 0 n q.buffer, n, left n q)
    unfolding left copy
    handed zero {q} v =
        ap (λ r. ([], 0, record q { read_idx = r }))
          (let e : q.read_idx ≡ add_size q.read_idx 0 = omega arith in e)
    handed (suc n) v = ground arith

    dequeue_bulk_eq :
        (wanted : ℕ) {q : RingBuffer A}
        → IsValid cap q
        → dequeue_bulk cap wanted q ≡ (
          copy cap q.read_idx 0 (min wanted (held q)) q.buffer,
          min wanted (held q),
          left (min wanted (held q)) q,
        )
    unfolding dequeue_bulk clip left
    dequeue_bulk_eq wanted {q} v =
        let e : clip wanted (held q) ≡ min wanted (held q) = ground arith in
        rw e (handed (min wanted (held q)) v)

    contents-left :
        (n : ℕ) {q : RingBuffer A}
        → IsValid cap q
        → n ≤ held q
        → contents q ≡ copy cap q.read_idx 0 n q.buffer ++ contents (left n q)
    unfolding contents left
    contents-left n {q} v h =
        view_add ok q.read_idx (q.read_idx + n) n (held (left n q)) (held q) q.buffer refl
          (omega arith)
        ∙ ap₂ ◌++◌ (sym (copy-view ok q.read_idx 0 n q.read_idx q.buffer (omega arith)))
            (sym (view_wrap ok (q.read_idx + n) (held (left n q)) q.buffer))

    left-IsValid : (n : ℕ) {q : RingBuffer A} → IsValid cap q → n ≤ held q → IsValid cap (left n q)
    unfolding left
    left-IsValid n v h = omega arith

    -- `dequeue_bulk` hands out as many of the oldest elements as it can, in order.
    pub dequeue_bulk_refines :
        (wanted : ℕ) {q : RingBuffer A}
        → IsValid cap q
        → let (out, n, q') = dequeue_bulk cap wanted q in
          ((out, n, contents q') ≡ Queue.dequeue_bulk wanted (contents q)) × IsValid cap q'
    unfolding Queue.dequeue_bulk
    dequeue_bulk_refines wanted {q} v =
        rw (dequeue_bulk_eq wanted v, length-contents q)
          (
            ap₂ {C = List A × ℕ × List A} (λ a b. (a, n, b)) taken_out left_behind,
            left-IsValid n v (omega arith),
          )
      where
        n : ℕ
        n = min wanted (held q)

        out : List A
        out = copy cap q.read_idx 0 n q.buffer

        size : n ≡ length out
        size = sym (
            ap length (copy-view ok q.read_idx 0 n q.read_idx q.buffer (omega arith))
            ∙ length-view ok q.read_idx n q.buffer)

        taken_out : out ≡ take n (contents q)
        taken_out = sym (
            ap (take n) (contents-left n v (omega arith))
            ∙ take-append_length n out (contents (left n q)) size)

        left_behind : contents (left n q) ≡ drop n (contents q)
        left_behind = sym (
            ap (drop n) (contents-left n v (omega arith))
            ∙ drop-append_length n out (contents (left n q)) size)
