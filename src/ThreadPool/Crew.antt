-- ===== src/ThreadPool/Crew.antt =====
-- The threads that thread_pool/ThreadPool.h counts as its own, and those it waits for.
use cc_learning.Base.{
  ℕ, zero, suc, ◌+◌, ◌-◌, ◌≤◌, ◌<◌, ◌≡◌, ◌≢◌, refl, ap, arith, Bool, true, false, List, [], ◌∷◌,
  ◌++◌, Option, none, some, length, length-append, get_elem?, set, get_elem?-set_ne, ◌==◌, bit,
  count, count-append, subst, ℕ_discrete,
}
use cc_learning.ThreadPool.{
  ThreadState, ready, waiting, running, exited, retired, Pool, add_thread, remove_id,
  remove_this_thread,
}

-- A thread that the pool still counts as its own has not retired.
abbrev pub IsLive : Option ThreadState → Type 0
IsLive none = ⊥
IsLive (some retired) = ⊥
IsLive (some ready) = Unit
IsLive (some waiting) = Unit
IsLive (some exited) = Unit
IsLive (some (running t)) = Unit

-- How often an identifier is in the two lists of the pool.
unfoldable pub times : ℕ → Pool → ℕ
times i s = count (λ j. j == i) s.workers + count (λ j. j == i) s.to_join

pub record Crew (s : Pool) : Type 0 where
  pub live : (i : ℕ) → 1 ≤ times i s → IsLive (get_elem? s.threads i)
  pub apart : (i : ℕ) → times i s ≤ 1
  pub enough : 1 ≤ length s.workers + length s.to_join
  pub core : 1 ≤ s.core_threads
  pub unjoined : s.stop ≡ false → s.to_join ≡ []

IsLive-set :
    (ts : List ThreadState) (i j : ℕ) (b : ThreadState)
    → IsLive (some b)
    → IsLive (get_elem? ts j)
    → IsLive (get_elem? (set ts i b) j)
IsLive-set [] i j b h k = k
IsLive-set (t ∷ ts) zero zero b h k = h
IsLive-set (t ∷ ts) zero (suc j) b h k = k
IsLive-set (t ∷ ts) (suc i) zero b h k = k
IsLive-set (t ∷ ts) (suc i) (suc j) b h k = IsLive-set ts i j b h k

IsLive-append :
    (ts us : List ThreadState) (j : ℕ) → IsLive (get_elem? ts j) → IsLive (get_elem? (ts ++ us) j)
IsLive-append [] us j h = absurd h
IsLive-append (t ∷ ts) us zero h = h
IsLive-append (t ∷ ts) us (suc j) h = IsLive-append ts us j h

IsLive-last : (ts : List ThreadState) → IsLive (get_elem? (ts ++ ready ∷ []) (length ts))
IsLive-last [] = tt
IsLive-last (t ∷ ts) = IsLive-last ts

IsLive-beyond : (ts : List ThreadState) → ¬ IsLive (get_elem? ts (length ts))
IsLive-beyond [] h = h
IsLive-beyond (t ∷ ts) h = IsLive-beyond ts h

count-remove_id :
    (i j : ℕ) (ws : List ℕ)
    → (i ≢ j → count (λ k. k == j) (remove_id i ws) ≡ count (λ k. k == j) ws)
      × (count (λ k. k == i) (remove_id i ws) ≡ count (λ k. k == i) ws - 1)
      × (length ws ≤ length (remove_id i ws) + 1)
unfolding remove_id
count-remove_id i j [] = (λ h. refl, omega arith, omega arith)
count-remove_id i j (w ∷ ws) = ground (arith, count-remove_id i j ws)

-- A thread changes its state and does not retire.
pub set-Crew :
    (i : ℕ) (b : ThreadState) (s : Pool)
    → IsLive (some b)
    → Crew s
    → Crew (record s { threads = set s.threads i b })
unfolding times
set-Crew i b s h c = record {
  live = λ j k. IsLive-set s.threads i j b h (c.live j k);
  apart = c.apart;
  enough = c.enough;
  core = c.core;
  unjoined = c.unjoined;
}

bit-le_one : (b : Bool) → bit b ≤ 1
bit-le_one true = omega arith
bit-le_one false = omega arith

-- The next identifier is not in use.
absent : (s : Pool) → Crew s → times (length s.threads) s ≡ 0
absent s c = elim (ℕ_discrete (times (length s.threads) s) 0) [
  | yes e ↦ e
  | no ne ↦ absurd (IsLive-beyond s.threads (c.live (length s.threads) (omega arith)))
]

pub add_thread-Crew : (s : Pool) → Crew s → Crew (add_thread s)
unfolding add_thread times
add_thread-Crew s c = record {
  live = λ j k. elim (ℕ_discrete (length s.threads) j) [
    | yes e ↦ subst (λ n. IsLive (get_elem? (s.threads ++ ready ∷ []) n)) e (IsLive-last s.threads)
    | no ne ↦
        IsLive-append s.threads (ready ∷ []) j (
          c.live j
            (ground (arith, k, count-append (λ n. n == j) s.workers (length s.threads ∷ []))))
  ];
  apart = λ j. elim (ℕ_discrete (length s.threads) j) [
    | yes e ↦ omega (
      arith,
      count-append (λ n. n == j) s.workers (length s.threads ∷ []),
      bit-le_one (length s.threads == j),
      absent s c,
      ap (λ n. times n s) e,
    )
    | no ne ↦
        ground (arith, c.apart j, count-append (λ n. n == j) s.workers (length s.threads ∷ []))
  ];
  enough = omega (arith, length-append s.workers (length s.threads ∷ []), c.enough);
  core = c.core;
  unjoined = c.unjoined;
}

pub retire-Crew :
    (i : ℕ) (s : Pool)
    → s.stop ≡ false
    → s.core_threads < length s.workers
    → Crew s
    → Crew (remove_this_thread i s)
unfolding remove_this_thread times
retire-Crew i s st room c = record {
  live = λ j k. elim (ℕ_discrete i j) [
    | yes e ↦ absurd (gone j e k)
    | no ne ↦
        rw (get_elem?-set_ne s.threads retired ne)
          (c.live j (omega (arith, (count-remove_id i j s.workers).0 ne)))
  ];
  apart = λ j. elim (ℕ_discrete i j) [
    | yes e ↦ omega (arith, gone j e)
    | no ne ↦ omega (arith, c.apart j, (count-remove_id i j s.workers).0 ne)
  ];
  enough = omega (arith, (count-remove_id i i s.workers).2, c.core);
  core = c.core;
  unjoined = c.unjoined;
}
  where
    gone : (j : ℕ) → i ≡ j → ¬ (1 ≤ times j (remove_this_thread i s))
    gone j e k = omega (
      arith,
      (count-remove_id i i s.workers).1,
      c.apart i,
      ap (count (λ n. n == i)) (c.unjoined st),
      ap (λ n. count (λ m. m == n) (remove_id i s.workers) + count (λ m. m == n) s.to_join) e,
    )
