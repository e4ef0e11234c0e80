-- ===== src/TimerQueue/Armed.antt =====
-- The time for which the timer descriptor is set, against the timers in the queue.
use cc_learning.Base.{
  false, ℕ, ◌≤◌, ◌≡◌, refl, arith, true, List, [], ◌∷◌, Option, none, some, leb, ltb, ◌==◌,
  if◌then◌else◌, if_elim, All, All-map, leb→le, ltb→lt,
}
use cc_learning.Base.Heap.{Heap}
use cc_learning.TimerQueue.{later, Timer, TimerQueue, erase_timer, earliest_changed, insert}
use cc_learning.TimerQueue.Expire.{All-SameItems}

-- Each timer expires at this time or later.
abbrev pub NotBefore : ℕ → List Timer → Type 0
NotBefore a ts = All (λ t. leb a t.expiration ≡ true) ts

-- The descriptor is set early enough; if it is not set, there is no timer.
abbrev pub IsArmed : Option ℕ → List Timer → Type 0
IsArmed none ts = ts ≡ []
IsArmed (some a) ts = NotBefore a ts

NotBefore-le : (a b : ℕ) (ts : List Timer) → a ≤ b → NotBefore b ts → NotBefore a ts
NotBefore-le a b ts h k =
    All-map (λ t e. let l : b ≤ t.expiration = leb→le b t.expiration e in ground arith) ts k

pub le→leb : (a b : ℕ) → a ≤ b → leb a b ≡ true
le→leb a b h = ground arith

not_before : (t u : Timer) → later t u ≡ false → leb t.expiration u.expiration ≡ true
not_before t u k = ground arith

module _ (heap : Heap later) where
  -- The heap holds valid times.
  pub record Sound (q : TimerQueue) : Type 0 where
    pub ordered : heap.IsHeap q.timers
    pub positive : NotBefore 1 q.timers

  pub record Ready (q : TimerQueue) : Type 0 where
    pub sound : Sound q
    pub ready : IsArmed q.armed q.timers

  pub front-NotBefore :
      (t : Timer) (ts : List Timer) → heap.IsHeap (t ∷ ts) → NotBefore t.expiration (t ∷ ts)
  front-NotBefore t ts o = (
    le→leb t.expiration t.expiration (omega arith),
    All-map (λ u k. not_before t u k) ts (heap.front_greatest t ts o),
  )

  pub insert-Sound :
      (t : Timer) {q : TimerQueue} → leb 1 t.expiration ≡ true → Sound q → Sound (insert heap t q)
  unfolding insert
  insert-Sound t {q} p v = record {
    ordered = heap.push-IsHeap q.timers t v.ordered;
    positive =
        All-SameItems (λ u. leb 1 u.expiration) (heap.push q.timers t) (t ∷ q.timers)
          (heap.push_items q.timers t) (p, v.positive);
  }

  -- What holds of the new timer and of the old ones holds of the heap with it.
  pushed :
      (a : ℕ) (t : Timer) (ts : List Timer)
      → leb a t.expiration ≡ true
      → NotBefore a ts
      → NotBefore a (heap.push ts t)
  pushed a t ts h k =
      All-SameItems (λ u. leb a u.expiration) (heap.push ts t) (t ∷ ts) (heap.push_items ts t)
        (h, k)

  IsArmed-after :
      (t : Timer) (ts : List Timer) (armed : Option ℕ)
      → heap.IsHeap ts
      → IsArmed armed ts
      → IsArmed (if earliest_changed heap t ts then some t.expiration else armed) (heap.push ts t)
  unfolding earliest_changed
  IsArmed-after t [] armed o r =
      pushed t.expiration t [] (le→leb t.expiration t.expiration (omega arith)) tt
  IsArmed-after t (u ∷ us) armed o r =
      if_elim (λ x. IsArmed x (heap.push (u ∷ us) t)) (ltb t.expiration u.expiration)
        (λ e.
          let l : t.expiration ≤ u.expiration = omega (arith, ltb→lt t.expiration u.expiration e) in
          pushed t.expiration t (u ∷ us) (le→leb t.expiration t.expiration (omega arith))
            (NotBefore-le t.expiration u.expiration (u ∷ us) l (front-NotBefore u us o)))
        (λ e. keeps armed r (let l : u.expiration ≤ t.expiration = ground arith in l))
    where
      keeps :
          (x : Option ℕ)
          → IsArmed x (u ∷ us)
          → u.expiration ≤ t.expiration
          → IsArmed x (heap.push (u ∷ us) t)
      keeps none e l = absurd (let z : ⊥ = cc in z)
      keeps (some a) h l =
          pushed a t (u ∷ us) (le→leb a t.expiration (omega (arith, leb→le a u.expiration h.0, l)))
            h

  pub insert-Ready :
      (t : Timer) {q : TimerQueue} → leb 1 t.expiration ≡ true → Ready q → Ready (insert heap t q)
  unfolding insert
  insert-Ready t {q} p v = record {
    sound = insert-Sound t p v.sound;
    ready = IsArmed-after t q.timers q.armed v.sound.ordered v.ready;
  }

  abbrev pub IsKept : ℕ → Option (List Timer) → Type 0
  IsKept a none = Unit
  IsKept a (some us) = NotBefore a us

  -- Taking a timer out keeps the bound on the others.
  pub erase_timer-IsKept :
      (a i : ℕ) (ts : List Timer) → NotBefore a ts → IsKept a (erase_timer i ts)
  unfolding erase_timer
  erase_timer-IsKept a i [] h = tt
  erase_timer-IsKept a i (t ∷ ts) h =
      if_elim (IsKept a) (t.identity == i) (λ _. h.1)
        (λ _. behind (erase_timer i ts) (erase_timer-IsKept a i ts h.1))
    where
      behind :
          (o : Option (List Timer))
          → IsKept a o
          → IsKept a (elim o [ none ↦ none | some us ↦ some (t ∷ us) ])
      behind none k = tt
      behind (some us) k = (h.0, k)

  -- The timers after a cancellation.
  abbrev pub left : Option (List Timer) → List Timer → List Timer
  left none ts = ts
  left (some us) ts = heap.make us

  pub left-NotBefore :
      (a : ℕ) (o : Option (List Timer)) (ts : List Timer)
      → NotBefore a ts
      → IsKept a o
      → NotBefore a (left o ts)
  left-NotBefore a none ts h k = h
  left-NotBefore a (some us) ts h k =
      All-SameItems (λ u. leb a u.expiration) (heap.make us) us (heap.make_items us) k

  pub left-IsHeap :
      (o : Option (List Timer)) (ts : List Timer) → heap.IsHeap ts → heap.IsHeap (left o ts)
  left-IsHeap none ts h = h
  left-IsHeap (some us) ts h = heap.make-IsHeap us

  pub left-IsArmed :
      (armed : Option ℕ) (i : ℕ) (ts : List Timer)
      → IsArmed armed ts
      → IsArmed armed (left (erase_timer i ts) ts)
  unfolding erase_timer
  left-IsArmed none i [] e = refl
  left-IsArmed none i (t ∷ ts) e = absurd (let z : ⊥ = cc in z)
  left-IsArmed (some a) i ts h =
      left-NotBefore a (erase_timer i ts) ts h (erase_timer-IsKept a i ts h)
