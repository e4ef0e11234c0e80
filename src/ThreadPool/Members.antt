-- ===== src/ThreadPool/Members.antt =====
-- The invariant on the threads of a pool, step by step.
use cc_learning.Base.{
  ℕ, ◌≡◌, refl, sym, ap, ◌∙◌, arith, Bool, true, false, not, ◌&&◌, ◌||◌, List, [], ◌∷◌, Option,
  none, some, length, length-append, get_elem?, ltb, ◌==◌, count, count-append, if_elim, subst,
  Bool-cases, Option-cases, inl, inr,
}
use cc_learning.Base.Heap.{Heap}
use cc_learning.ThreadPool.{
  less_task, PrioTask, ThreadState, ready, waiting, running, exited, retired, Pool, set_thread,
  grow, enqueue, submit, fetch, has_task, enter, wake, time_out, finish, work, wait_and_stop,
  stop_immediately, join_all_workers, destroy, Event, submits, works, waits_and_stops,
  stops_immediately, destroys, joins, step, run, is_empty,
}
use cc_learning.ThreadPool.Crew.{times, Crew, set-Crew, add_thread-Crew, retire-Crew}

module _ (heap : Heap less_task) where
  -- What `Crew` reads of a state.
  same-Crew :
      {s r : Pool}
      → r.workers ≡ s.workers
      → r.to_join ≡ s.to_join
      → r.threads ≡ s.threads
      → r.core_threads ≡ s.core_threads
      → r.stop ≡ s.stop
      → Crew s
      → Crew r
  unfolding times
  same-Crew {s} {r} w j t k st c = record {
    live = λ i l.
        rw t (c.live i (omega (arith, ap (count (λ n. n == i)) w, ap (count (λ n. n == i)) j)));
    apart = λ i. omega (arith, c.apart i, ap (count (λ n. n == i)) w, ap (count (λ n. n == i)) j);
    enough = omega (arith, c.enough, ap length w, ap length j);
    core = omega (arith, c.core);
    unjoined = λ e. j ∙ c.unjoined (sym st ∙ e);
  }

  stopped-Crew : {s : Pool} → Crew s → Crew (record s { accepting = false; stop = true })
  unfolding times
  stopped-Crew c = record {
    live = c.live;
    apart = c.apart;
    enough = c.enough;
    core = c.core;
    unjoined = λ e. absurd (let z : ⊥ = cc in z);
  }

  fetch-Crew : (i : ℕ) (ts : List PrioTask) (s : Pool) → Crew s → Crew (fetch heap i ts s)
  unfolding fetch
  fetch-Crew i [] s c = if_elim Crew s.stop (λ _. set-Crew i exited s tt c) (λ _. c)
  fetch-Crew i (t ∷ ts) s c = same-Crew refl refl refl refl refl (set-Crew i (running t) s tt c)

  time_out-Crew : (i : ℕ) (s : Pool) → Crew s → Crew (time_out heap i s)
  unfolding time_out set_thread
  time_out-Crew i s c =
      if_elim Crew (ltb s.core_threads s.max_threads)
        (λ _.
          if_elim Crew (has_task heap s) (λ _. fetch-Crew i s.tasks s c)
            (λ idle.
              if_elim Crew (ltb s.core_threads (length s.workers))
                (λ more. retire-Crew i s (not_stopped idle) (ground arith) c)
                (λ _. set-Crew i ready s tt c)))
        (λ _. c)
    where
      not_stopped : has_task heap s ≡ false → s.stop ≡ false
      not_stopped h = ground arith

  work-Crew :
      (i : ℕ) (late : Bool) (o : Option ThreadState) (s : Pool)
      → Crew s
      → Crew (work heap i late o s)
  unfolding work enter wake finish set_thread
  work-Crew i late none s c = c
  work-Crew i late (some ready) s c =
      if_elim Crew (is_empty s.tasks && not s.stop) (λ _. set-Crew i waiting s tt c)
        (λ _. fetch-Crew i s.tasks s c)
  work-Crew i true (some waiting) s c = time_out-Crew i s c
  work-Crew i false (some waiting) s c =
      if_elim Crew (has_task heap s) (λ _. fetch-Crew i s.tasks s c) (λ _. c)
  work-Crew i late (some (running t)) s c =
      same-Crew refl refl refl refl refl (set-Crew i ready s tt c)
  work-Crew i late (some exited) s c = c
  work-Crew i late (some retired) s c = c

  submit-Crew : (t : PrioTask) {s s' : Pool} → submit heap t s ≡ some s' → Crew s → Crew s'
  unfolding submit grow enqueue
  submit-Crew t {s} {s'} e c = elim (Bool-cases s.accepting) [
    | inl a ↦ subst Crew (let q : grow heap (enqueue heap t s) ≡ s' = ground arith in q) grown
    | inr a ↦ absurd (ground arith)
  ]
    where
      enqueue-Crew : Crew (enqueue heap t s)
      enqueue-Crew = same-Crew refl refl refl refl refl c

      grown : Crew (grow heap (enqueue heap t s))
      grown =
          if_elim Crew
            (ltb (length s.workers) (length (heap.push s.tasks t))
              && ltb (length s.workers) s.max_threads)
            (λ _. add_thread-Crew (enqueue heap t s) enqueue-Crew) (λ _. enqueue-Crew)

  stop_immediately-Crew : (s : Pool) → Crew s → Crew (stop_immediately heap s)
  unfolding stop_immediately
  stop_immediately-Crew s c =
      if_elim Crew (not s.accepting && s.stop) (λ _. c)
        (λ _. same-Crew refl refl refl refl refl (stopped-Crew c))

  join-Crew : (s : Pool) → s.stop ≡ true → Crew s → Crew (join_all_workers heap s)
  unfolding join_all_workers times
  join-Crew s st c = record {
    live = λ i l. c.live i (omega (arith, count-append (λ n. n == i) s.workers s.to_join));
    apart = λ i. omega (arith, c.apart i, count-append (λ n. n == i) s.workers s.to_join);
    enough = omega (arith, c.enough, length-append s.workers s.to_join);
    core = c.core;
    unjoined = λ e. absurd (let z : ⊥ = cc in z);
  }

  step-Crew : (e : Event heap) (s : Pool) → Crew s → Crew (step heap s e)
  unfolding step wait_and_stop destroy
  step-Crew (submits t) s c = elim (Option-cases (submit heap t s)) [
    | inl thrown ↦ rw (thrown, step) c
    | inr (s', q) ↦ rw (q, step) (submit-Crew t q c)
  ]
  step-Crew (works i late) s c = work-Crew i late (get_elem? s.threads i) s c
  step-Crew waits_and_stops s c = if_elim Crew (not s.accepting) (λ _. c) (λ _. stopped-Crew c)
  step-Crew stops_immediately s c = stop_immediately-Crew s c
  step-Crew destroys s c =
      if_elim Crew (not s.stop || not (is_empty s.workers)) (λ _. stop_immediately-Crew s c)
        (λ _. c)
  step-Crew joins s c = if_elim Crew s.stop (λ st. join-Crew s st c) (λ _. c)

  pub run-Crew : (es : List (Event heap)) (s : Pool) → Crew s → Crew (run heap es s)
  unfolding run
  run-Crew [] s c = c
  run-Crew (e ∷ es) s c = run-Crew es (step heap s e) (step-Crew e s c)
