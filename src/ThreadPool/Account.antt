-- ===== src/ThreadPool/Account.antt =====
-- The account of tasks in thread_pool/ThreadPool.h: those submitted against those queued, running,
-- executed or dropped.
use cc_learning.Base.{
  ℕ, zero, suc, ◌+◌, ◌≡◌, refl, ap, arith, Bool, true, false, not, ◌&&◌, List, [], ◌∷◌, ◌++◌,
  Option, none, some, length, get_elem?, set, ltb, bit, count, All, All-map, All-set, subst,
  if_elim,
}
use cc_learning.Base.Heap.{Heap}
use cc_learning.ThreadPool.{
  less_task, PrioTask, ThreadState, ready, waiting, running, exited, retired, Pool, set_thread,
  remove_this_thread, fetch, has_task, enter, wake, time_out, finish, work, is_empty,
}

-- The tasks that a thread is running.
abbrev pub held : (PrioTask → Bool) → ThreadState → ℕ
held p ready = 0
held p waiting = 0
held p (running t) = bit (p t)
held p exited = 0
held p retired = 0

abbrev pub count_running : (PrioTask → Bool) → List ThreadState → ℕ
count_running p [] = 0
count_running p (t ∷ ts) = held p t + count_running p ts

count_running-set :
    (p : PrioTask → Bool) (ts : List ThreadState) (i : ℕ) (a b : ThreadState)
    → get_elem? ts i ≡ some a
    → count_running p (set ts i b) + held p a ≡ count_running p ts + held p b
count_running-set p [] i a b e = absurd (let q : ⊥ = cc in q)
count_running-set p (t ∷ ts) zero a b e = let q : t ≡ a = cc in omega (arith, ap (held p) q)
count_running-set p (t ∷ ts) (suc i) a b e = omega (arith, count_running-set p ts i a b e)

pub count_running-append :
    (p : PrioTask → Bool) (ts us : List ThreadState)
    → count_running p (ts ++ us) ≡ count_running p ts + count_running p us
count_running-append p [] us = omega arith
count_running-append p (t ∷ ts) us = omega (arith, count_running-append p ts us)

-- A thread that has left because of the stop has left an empty queue.
abbrev pub ExitOk : Bool → List PrioTask → ThreadState → Type 0
ExitOk stop tasks ready = Unit
ExitOk stop tasks waiting = Unit
ExitOk stop tasks (running t) = Unit
ExitOk stop tasks exited = (stop ≡ true) × (tasks ≡ [])
ExitOk stop tasks retired = Unit

module _ (heap : Heap less_task) where
  pub record Inv (s : Pool) : Type 0 where
    pub account :
        (p : PrioTask → Bool)
        → count p s.submitted
          ≡ count p s.tasks + count_running p s.threads + count p s.executed + count p s.dropped
    pub ordered : heap.IsHeap s.tasks
    pub gate : s.accepting ≡ not s.stop
    pub exits : All (ExitOk s.stop s.tasks) s.threads

  -- A thread that holds no task moves to another such state.
  move-Inv :
      (i : ℕ) (a b : ThreadState) {s : Pool}
      → get_elem? s.threads i ≡ some a
      → ((p : PrioTask → Bool) → held p a ≡ 0)
      → ((p : PrioTask → Bool) → held p b ≡ 0)
      → ExitOk s.stop s.tasks b
      → Inv s
      → Inv (record s { threads = set s.threads i b })
  move-Inv i a b {s} e ha hb x v = record {
    account = λ p. omega (arith, v.account p, count_running-set p s.threads i a b e, ha p, hb p);
    ordered = v.ordered;
    gate = v.gate;
    exits = All-set (ExitOk s.stop s.tasks) s.threads i b v.exits x;
  }

  fetch-Inv :
      (i : ℕ) (a : ThreadState) (ts : List PrioTask) {s : Pool}
      → s.tasks ≡ ts
      → get_elem? s.threads i ≡ some a
      → ((p : PrioTask → Bool) → held p a ≡ 0)
      → Inv s
      → Inv (fetch heap i ts s)
  unfolding fetch
  fetch-Inv i a [] {s} q e ha v =
      if_elim Inv s.stop (λ st. move-Inv i a exited e ha (λ p. refl) (st, q) v) (λ _. v)
  fetch-Inv i a (t ∷ ts) {s} q e ha v = record {
    account = λ p. omega (
      arith,
      v.account p,
      count_running-set p s.threads i a (running t) e,
      ha p,
      heap.pop_rest_items t ts p,
      ap (count p) q,
    );
    ordered = heap.pop_rest-IsHeap t ts (subst heap.IsHeap q v.ordered);
    gate = v.gate;
    exits =
        All-set (ExitOk s.stop (heap.pop_rest t ts)) s.threads i (running t)
          (All-map still s.threads v.exits) tt;
  }
    where
      still : (x : ThreadState) → ExitOk s.stop s.tasks x → ExitOk s.stop (heap.pop_rest t ts) x
      still ready h = tt
      still waiting h = tt
      still (running u) h = tt
      still exited h = absurd (let e1 : s.tasks ≡ [] = h.1 in let z : ⊥ = cc in z)
      still retired h = tt

  enter-Inv : (i : ℕ) {s : Pool} → get_elem? s.threads i ≡ some ready → Inv s → Inv (enter heap i s)
  unfolding enter set_thread
  enter-Inv i {s} e v =
      if_elim Inv (is_empty s.tasks && not s.stop)
        (λ _. move-Inv i ready waiting e (λ p. refl) (λ p. refl) tt v)
        (λ _. fetch-Inv i ready s.tasks refl e (λ p. refl) v)

  wake-Inv : (i : ℕ) {s : Pool} → get_elem? s.threads i ≡ some waiting → Inv s → Inv (wake heap i s)
  unfolding wake
  wake-Inv i {s} e v =
      if_elim Inv (has_task heap s) (λ _. fetch-Inv i waiting s.tasks refl e (λ p. refl) v) (λ _. v)

  retire-Inv :
      (i : ℕ) {s : Pool}
      → get_elem? s.threads i ≡ some waiting
      → Inv s
      → Inv (remove_this_thread i s)
  unfolding remove_this_thread
  retire-Inv i e v =
      let w = move-Inv i waiting retired e (λ p. refl) (λ p. refl) tt v in
      record { account = w.account; ordered = w.ordered; gate = w.gate; exits = w.exits }

  time_out-Inv :
      (i : ℕ) {s : Pool} → get_elem? s.threads i ≡ some waiting → Inv s → Inv (time_out heap i s)
  unfolding time_out set_thread
  time_out-Inv i {s} e v =
      if_elim Inv (ltb s.core_threads s.max_threads)
        (λ _.
          if_elim Inv (has_task heap s) (λ _. fetch-Inv i waiting s.tasks refl e (λ p. refl) v)
            (λ _.
              if_elim Inv (ltb s.core_threads (length s.workers)) (λ _. retire-Inv i e v)
                (λ _. move-Inv i waiting ready e (λ p. refl) (λ p. refl) tt v)))
        (λ _. v)

  finish-Inv :
      (i : ℕ) (t : PrioTask) {s : Pool}
      → get_elem? s.threads i ≡ some (running t)
      → Inv s
      → Inv (finish heap i t s)
  unfolding finish
  finish-Inv i t {s} e v = record {
    account = λ p. omega (arith, v.account p, count_running-set p s.threads i (running t) ready e);
    ordered = v.ordered;
    gate = v.gate;
    exits = All-set (ExitOk s.stop s.tasks) s.threads i ready v.exits tt;
  }

  pub work-Inv :
      (i : ℕ) (late : Bool) (o : Option ThreadState) {s : Pool}
      → get_elem? s.threads i ≡ o
      → Inv s
      → Inv (work heap i late o s)
  unfolding work
  work-Inv i late none e v = v
  work-Inv i late (some ready) e v = enter-Inv i e v
  work-Inv i true (some waiting) e v = time_out-Inv i e v
  work-Inv i false (some waiting) e v = wake-Inv i e v
  work-Inv i late (some (running t)) e v = finish-Inv i t e v
  work-Inv i late (some exited) e v = v
  work-Inv i late (some retired) e v = v
