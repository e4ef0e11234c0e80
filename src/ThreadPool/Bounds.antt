-- ===== src/ThreadPool/Bounds.antt =====
-- How many threads thread_pool/ThreadPool.h has at a time.
use cc_learning.Base.{
  ℕ, zero, suc, ◌+◌, ◌≤◌, ◌<◌, ◌≡◌, ◌∙◌, sym, refl, ap, arith, Bool, true, false, not, ◌&&◌, ◌||◌,
  List, [], ◌∷◌, Option, none, some, inl, inr, Bool-cases, length, length-append, get_elem?, ◌==◌,
  ltb, ltb→lt, if_elim, if◌then◌else◌, subst,
}
use cc_learning.Base.Heap.{Heap}
use cc_learning.ThreadPool.{
  less_task, active_threads, PrioTask, ThreadState, ready, waiting, running, exited, retired, Pool,
  add_thread, add_threads, empty_pool, construct, set_thread, remove_id, remove_this_thread, grow,
  enqueue, submit, fetch, has_task, enter, wake, time_out, finish, work, wait_and_stop,
  stop_immediately, join_all_workers, destroy, is_empty, Event, submits, works, waits_and_stops,
  stops_immediately, destroys, joins, step, run,
}

-- The pool has at most `most` workers and, until it is stopped, at least its core threads.
pub record IsScaled (core most : ℕ) (s : Pool) : Type 0 where
  pub core_is : s.core_threads ≡ core
  pub max_le : s.max_threads ≤ most
  pub upper : length s.workers ≤ most
  pub lower : s.stop ≡ false → core ≤ length s.workers

length-remove_id :
    (i : ℕ) (ws : List ℕ)
    → (length (remove_id i ws) ≤ length ws) × (length ws ≤ suc (length (remove_id i ws)))
unfolding remove_id
length-remove_id i [] = (omega arith, omega arith)
length-remove_id i (j ∷ js) =
    let r = length-remove_id i js in
    if_elim (λ (l : List ℕ). (length l ≤ suc (length js)) × (suc (length js) ≤ suc (length l)))
      (j == i) (λ e. (omega arith, omega arith)) (λ e. (omega (arith, r.0), omega (arith, r.1)))

module _ (core most : ℕ) where
  add_thread-IsScaled :
      (s : Pool)
      → length s.workers < most
      → IsScaled core most s
      → IsScaled core most (add_thread s)
  unfolding add_thread
  add_thread-IsScaled s h p =
      let e = length-append s.workers (length s.threads ∷ []) in
      record {
        core_is = p.core_is;
        max_le = p.max_le;
        upper = omega (arith, h, e);
        lower = λ k. omega (arith, p.lower k, e);
      }

  remove_this_thread-IsScaled :
      (i : ℕ) (s : Pool)
      → core < length s.workers
      → IsScaled core most s
      → IsScaled core most (remove_this_thread i s)
  unfolding remove_this_thread
  remove_this_thread-IsScaled i s h p =
      let r = length-remove_id i s.workers in
      record {
        core_is = p.core_is;
        max_le = p.max_le;
        upper = omega (arith, p.upper, r.0);
        lower = λ k. omega (arith, h, r.1);
      }

  module _ (heap : Heap less_task) where
    grow-IsScaled : (s : Pool) → IsScaled core most s → IsScaled core most (grow heap s)
    unfolding grow
    grow-IsScaled s p =
        if_elim (IsScaled core most)
          (ltb (length s.workers) (length s.tasks) && ltb (length s.workers) s.max_threads)
          (λ e.
            let h : length s.workers < s.max_threads =
              ltb→lt (length s.workers) s.max_threads (ground (arith, e)) in
            add_thread-IsScaled s (omega (arith, h, p.max_le)) p)
          (λ e. p)

    -- The threads' states and the tasks do not matter.
    IsScaled-same :
        (s s' : Pool)
        → s'.core_threads ≡ s.core_threads
        → s'.max_threads ≡ s.max_threads
        → s'.workers ≡ s.workers
        → (s'.stop ≡ false → s.stop ≡ false)
        → IsScaled core most s
        → IsScaled core most s'
    IsScaled-same s s' c m w k p = record {
      core_is = c ∙ p.core_is;
      max_le = omega (arith, m, p.max_le);
      upper = omega (arith, ap (λ l. length l) w, p.upper);
      lower = λ e. omega (arith, ap (λ l. length l) w, p.lower (k e));
    }

    submit-IsScaled :
        (t : PrioTask) (s : Pool)
        → IsScaled core most s
        → IsScaled core most (step heap s (submits t))
    unfolding step submit enqueue
    submit-IsScaled t s p =
        if_elim (λ (o : Option Pool). IsScaled core most (elim o [ none ↦ s | some s' ↦ s' ]))
          (not s.accepting) (λ e. p)
          (λ e. grow-IsScaled (enqueue heap t s) (IsScaled-same s _ refl refl refl (λ k. k) p))

    fetch-IsScaled :
        (i : ℕ) (ts : List PrioTask) (s : Pool)
        → IsScaled core most s
        → IsScaled core most (fetch heap i ts s)
    unfolding fetch
    fetch-IsScaled i [] s p =
        if_elim (IsScaled core most) s.stop (λ e. IsScaled-same s _ refl refl refl (λ k. k) p)
          (λ e. p)
    fetch-IsScaled i (t ∷ ts) s p = IsScaled-same s _ refl refl refl (λ k. k) p

    time_out-IsScaled :
        (i : ℕ) (s : Pool) → IsScaled core most s → IsScaled core most (time_out heap i s)
    unfolding time_out set_thread
    time_out-IsScaled i s p =
        if_elim (IsScaled core most) (ltb s.core_threads s.max_threads)
          (λ e.
            if_elim (IsScaled core most) (has_task heap s) (λ k. fetch-IsScaled i s.tasks s p)
              (λ k.
                if_elim (IsScaled core most) (ltb s.core_threads (length s.workers))
                  (λ l.
                    remove_this_thread-IsScaled i s
                      (omega (arith, ltb→lt s.core_threads (length s.workers) l, p.core_is)) p)
                  (λ l. IsScaled-same s _ refl refl refl (λ q. q) p)))
          (λ e. p)

    work-IsScaled :
        (i : ℕ) (late : Bool) (o : Option ThreadState) (s : Pool)
        → IsScaled core most s
        → IsScaled core most (work heap i late o s)
    unfolding work enter wake finish set_thread
    work-IsScaled i late none s p = p
    work-IsScaled i late (some ready) s p =
        if_elim (IsScaled core most) (is_empty s.tasks && not s.stop)
          (λ e. IsScaled-same s _ refl refl refl (λ q. q) p) (λ e. fetch-IsScaled i s.tasks s p)
    work-IsScaled i late (some waiting) s p =
        if_elim (IsScaled core most) late (λ e. time_out-IsScaled i s p)
          (λ e.
            if_elim (IsScaled core most) (has_task heap s) (λ k. fetch-IsScaled i s.tasks s p)
              (λ k. p))
    work-IsScaled i late (some (running t)) s p = IsScaled-same s _ refl refl refl (λ q. q) p
    work-IsScaled i late (some exited) s p = p
    work-IsScaled i late (some retired) s p = p

    stop_immediately-IsScaled :
        (s : Pool) → IsScaled core most s → IsScaled core most (stop_immediately heap s)
    unfolding stop_immediately
    stop_immediately-IsScaled s p =
        if_elim (IsScaled core most) (not s.accepting && s.stop) (λ e. p)
          (λ e. IsScaled-same s _ refl refl refl (λ k. absurd (let z : ⊥ = cc in z)) p)

    step-IsScaled :
        (e : Event heap) (s : Pool) → IsScaled core most s → IsScaled core most (step heap s e)
    unfolding step wait_and_stop destroy join_all_workers
    step-IsScaled (submits t) s p = submit-IsScaled t s p
    step-IsScaled (works i late) s p = work-IsScaled i late (get_elem? s.threads i) s p
    step-IsScaled waits_and_stops s p =
        if_elim (IsScaled core most) (not s.accepting) (λ e. p)
          (λ e. IsScaled-same s _ refl refl refl (λ k. absurd (let z : ⊥ = cc in z)) p)
    step-IsScaled stops_immediately s p = stop_immediately-IsScaled s p
    step-IsScaled destroys s p =
        if_elim (IsScaled core most) (not s.stop || not (is_empty s.workers))
          (λ e. stop_immediately-IsScaled s p) (λ e. p)
    step-IsScaled joins s p =
        if_elim (IsScaled core most) s.stop
          (λ e. record {
            core_is = p.core_is;
            max_le = p.max_le;
            upper = omega arith;
            lower = λ k. absurd (let z : true ≡ false = sym e ∙ k in let q : ⊥ = cc in q);
          })
          (λ e. p)

    run-IsScaled :
        (es : List (Event heap)) (s : Pool)
        → IsScaled core most s
        → IsScaled core most (run heap es s)
    unfolding run
    run-IsScaled [] s p = p
    run-IsScaled (e ∷ es) s p = run-IsScaled es (step heap s e) (step-IsScaled e s p)

-- What the constructor's loop adds.
record Started (n : ℕ) (s s' : Pool) : Type 0 where
  pub core_same : s'.core_threads ≡ s.core_threads
  pub max_same : s'.max_threads ≡ s.max_threads
  pub workers : length s'.workers ≡ length s.workers + n

add_threads_lem : (n : ℕ) (s : Pool) → Started n s (add_threads n s)
unfolding add_threads add_thread
add_threads_lem zero s = record { core_same = refl; max_same = refl; workers = omega arith }
add_threads_lem (suc n) s =
    let r = add_threads_lem n (add_thread s) in
    let e = length-append s.workers (length s.threads ∷ []) in
    record { core_same = r.core_same; max_same = r.max_same; workers = omega (arith, r.workers, e) }

-- The most threads that a pool may have.
abbrev pub larger : ℕ → ℕ → ℕ
larger core most = if ltb core most then most else core

construct-IsScaled :
    (core most : ℕ) {s : Pool} → construct core most ≡ some s → IsScaled core (larger core most) s
unfolding construct empty_pool
construct-IsScaled core most {s} e = elim (Bool-cases (core == 0)) [
  | inl k ↦ absurd (let q : none ≡ some s = sym (rw k refl) ∙ e in let z : ⊥ = cc in z)
  | inr k ↦
      let r = add_threads_lem core (empty_pool core most) in
      let q : some (add_threads core (empty_pool core most)) ≡ some s = sym (rw k refl) ∙ e in
      subst (IsScaled core (larger core most))
        (let z : add_threads core (empty_pool core most) ≡ s = cc in z)
        (record {
          core_is = r.core_same;
          max_le = ground (arith, r.max_same);
          upper = ground (arith, r.workers);
          lower = λ l. omega (arith, r.workers);
        })
]

-- In every history of submissions, of the threads' steps in any order, and of the ways to stop, a
-- pool that was constructed with these two numbers has at no time more threads of its own than the
-- larger of the two, and until it is stopped never fewer than its core threads: it grows no further
-- than `max_threads_` and an idle thread leaves only where enough stay.
pub active_threads_bounds :
    (heap : Heap less_task) (core most : ℕ) {s : Pool}
    → construct core most ≡ some s
    → (es : List (Event heap))
    → (active_threads (run heap es s) ≤ larger core most)
      × ((run heap es s).stop ≡ false → core ≤ active_threads (run heap es s))
unfolding active_threads
active_threads_bounds heap core most e es =
    let p = run-IsScaled core (larger core most) heap es _ (construct-IsScaled core most e) in
    (p.upper, p.lower)
