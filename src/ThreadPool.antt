-- ===== src/ThreadPool.antt =====
-- thread_pool/ThreadPool.h: a pool of threads with a priority queue of tasks, as a state machine.
-- A step is what one thread does under `mtx_`, or the run of one task outside it. A thread is its
-- index in `threads`; the priority queue is the heap interface, with the priority for its key.
-- `submitted`, `executed` and `dropped` record what became of the tasks.
pub mod Account
pub mod History
pub mod Crew
pub mod Members
pub mod Shutdown
pub mod Order
pub mod Bounds
mod Tests
use cc_learning.Base.{
  ℕ, zero, suc, ◌+◌, ◌≤◌, Bool, true, false, not, ◌&&◌, ◌||◌, List, [], ◌∷◌, ◌++◌, Option, none,
  some, length, get_elem?, set, ltb, ◌==◌, if◌then◌else◌, take, drop,
}
use cc_learning.Base.Heap.{Heap}

-- `PrioTask`; the function is only called, so a task is known by a number. `int` priorities are
-- taken from their least value on.
pub record PrioTask : Type 0 where
  pub priority : ℕ
  pub func : ℕ

-- `PrioTask::operator<`
abbrev pub less_task : PrioTask → PrioTask → Bool
less_task this other = ltb other.priority this.priority

-- `std::numeric_limits<int>::max()`, counted so.
abbrev pub lowest_priority : ℕ
lowest_priority = 4294967295

pub data ThreadState : Type 0 where
  -- at the head of the loop of `worker_loop`
  ready : ThreadState
  -- in `cv_.wait` or `cv_.wait_for`
  waiting : ThreadState
  running : PrioTask → ThreadState
  -- returned because the pool stops
  exited : ThreadState
  -- returned because it was idle for too long, and detached
  retired : ThreadState

pub record Pool : Type 0 where
  pub core_threads : ℕ
  pub max_threads : ℕ
  -- `workers_`, as thread indices
  pub workers : List ℕ
  -- the threads that `join_all_workers` waits for
  pub to_join : List ℕ
  pub threads : List ThreadState
  pub tasks : List PrioTask
  pub stop : Bool
  pub accepting : Bool
  pub submitted : List PrioTask
  pub executed : List PrioTask
  pub dropped : List PrioTask

abbrev pub is_empty {ℓ} : {A : Type ℓ} → List A → Bool
is_empty [] = true
is_empty (x ∷ xs) = false

-- `workers_.emplace_back(&ThreadPool::worker_loop, this)`
unfoldable pub add_thread : Pool → Pool
add_thread s = record s {
  workers = s.workers ++ length s.threads ∷ [];
  threads = s.threads ++ ready ∷ [];
}

unfoldable pub add_threads : ℕ → Pool → Pool
unfolding add_thread
add_threads zero s = s
add_threads (suc n) s = add_threads n (add_thread s)

unfoldable pub empty_pool : ℕ → ℕ → Pool
empty_pool core max = record {
  core_threads = core;
  max_threads = if ltb 0 max then max else core;
  workers = [];
  to_join = [];
  threads = [];
  tasks = [];
  stop = false;
  accepting = true;
  submitted = [];
  executed = [];
  dropped = [];
}

-- `none` is the `std::invalid_argument`.
unfoldable pub construct : ℕ → ℕ → Option Pool
unfolding empty_pool add_threads
construct core max = if core == 0 then none else some (add_threads core (empty_pool core max))

unfoldable pub active_threads : Pool → ℕ
active_threads s = length s.workers

unfoldable pub pending_tasks : Pool → ℕ
pending_tasks s = length s.tasks

unfoldable pub set_thread : ℕ → ThreadState → Pool → Pool
set_thread i t s = record s { threads = set s.threads i t }

-- The first entry with this identifier is erased.
unfoldable pub remove_id : ℕ → List ℕ → List ℕ
remove_id i [] = []
remove_id i (j ∷ js) = if j == i then js else j ∷ remove_id i js

-- `remove_this_thread`, and the return after it.
unfoldable pub remove_this_thread : ℕ → Pool → Pool
unfolding remove_id
remove_this_thread i s = record s {
  workers = remove_id i s.workers;
  threads = set s.threads i retired;
}

module _ (heap : Heap less_task) where
  open heap use {push, pop_rest}

  -- The growth rule: a thread is added under the same lock when tasks pile up.
  unfoldable pub grow : Pool → Pool
  unfolding add_thread
  grow s =
      if ltb (length s.workers) (length s.tasks) && ltb (length s.workers) s.max_threads
      then add_thread s
      else s

  unfoldable pub enqueue : PrioTask → Pool → Pool
  enqueue t s = record s { tasks = push s.tasks t; submitted = t ∷ s.submitted }

  -- `submit_impl`; `none` is the `std::runtime_error`.
  unfoldable pub submit : PrioTask → Pool → Option Pool
  unfolding grow enqueue
  submit t s = if not s.accepting then none else some (grow (enqueue t s))

  -- The submission without a priority.
  unfoldable pub submit_default : ℕ → Pool → Option Pool
  unfolding submit
  submit_default f s = submit (record { priority = lowest_priority; func = f }) s

  -- The end of the critical section of `worker_loop`: leave, or take the top task.
  unfoldable pub fetch : ℕ → List PrioTask → Pool → Pool
  fetch i [] s = if s.stop then record s { threads = set s.threads i exited } else s
  fetch i (t ∷ ts) s = record s { tasks = pop_rest t ts; threads = set s.threads i (running t) }

  -- Whether the predicate of the two waits holds.
  unfoldable pub has_task : Pool → Bool
  has_task s = s.stop || not (is_empty s.tasks)

  unfoldable pub enter : ℕ → Pool → Pool
  unfolding set_thread fetch
  enter i s = if is_empty s.tasks && not s.stop then set_thread i waiting s else fetch i s.tasks s

  -- A thread that is notified, or woken for no reason, looks at the predicate again.
  unfoldable pub wake : ℕ → Pool → Pool
  unfolding has_task fetch
  wake i s = if has_task s then fetch i s.tasks s else s

  -- `wait_for` times out. Only a pool that may grow waits with a time limit.
  unfoldable pub time_out : ℕ → Pool → Pool
  unfolding has_task fetch remove_this_thread set_thread
  time_out i s =
      if ltb s.core_threads s.max_threads
      then (if has_task s
          then fetch i s.tasks s
          else (if ltb s.core_threads (length s.workers)
              then remove_this_thread i s
              else set_thread i ready s))
      else s

  -- The task is run outside the lock; what it throws is swallowed.
  unfoldable pub finish : ℕ → PrioTask → Pool → Pool
  finish i t s = record s { executed = t ∷ s.executed; threads = set s.threads i ready }

  -- One thread goes on; `late` says whether the time limit of its wait has run out.
  unfoldable pub work : ℕ → Bool → Option ThreadState → Pool → Pool
  unfolding enter wake time_out finish
  work i late none s = s
  work i late (some ready) s = enter i s
  work i late (some waiting) s = if late then time_out i s else wake i s
  work i late (some (running t)) s = finish i t s
  work i late (some exited) s = s
  work i late (some retired) s = s

  -- The two ways to stop, up to `join_all_workers`.
  unfoldable pub wait_and_stop : Pool → Pool
  wait_and_stop s = if not s.accepting then s else record s { accepting = false; stop = true }

  unfoldable pub stop_immediately : Pool → Pool
  stop_immediately s =
      if not s.accepting && s.stop
      then s
      else record s { accepting = false; tasks = []; dropped = s.tasks ++ s.dropped; stop = true }

  -- `to_join.swap(workers_)` on a list that is empty, for each call that reaches it.
  unfoldable pub join_all_workers : Pool → Pool
  join_all_workers s = record s { workers = []; to_join = s.workers ++ s.to_join }

  -- The destructor, up to its `join_all_workers`.
  unfoldable pub destroy : Pool → Pool
  unfolding stop_immediately
  destroy s = if not s.stop || not (is_empty s.workers) then stop_immediately s else s

  pub data Event : Type 0 where
    submits : PrioTask → Event
    works : ℕ → Bool → Event
    waits_and_stops stops_immediately destroys joins : Event

  -- A submission that throws changes nothing. `joins` comes only after one of the stops.
  unfoldable pub step : Pool → Event → Pool
  unfolding submit work wait_and_stop stop_immediately destroy join_all_workers
  step s (submits t) = elim (submit t s) [ none ↦ s | some s' ↦ s' ]
  step s (works i late) = work i late (get_elem? s.threads i) s
  step s waits_and_stops = wait_and_stop s
  step s stops_immediately = stop_immediately s
  step s destroys = destroy s
  step s joins = if s.stop then join_all_workers s else s

  unfoldable pub run : List Event → Pool → Pool
  unfolding step
  run [] s = s
  run (e ∷ es) s = run es (step s e)
