-- ===== src/TimerList/Calls/Tests.antt =====
-- Three timers, of which two expire at once; a callback deletes its own timer and adds another.
use cc_learning.Base.{
  ℕ, ◌≡◌, refl, arith, ◌≤◌, ◌<◌, List, [], ◌∷◌, ◌++◌, true, none, some, ◌==◌, if◌then◌else◌, All,
}
use cc_learning.TimerList.{
  TimerNode, TimerListMgr, ◌>>=◌, place, update, forget, construct, set_next, set_prev, clear_links,
  free, clear_user, is_at, insert_loop, add_behind, place_by, add_timer, bypass_next, bypass_prev,
  unlink, del_timer, set_expire, is_after_ok, is_before_ok, adjust_timer, pop_head, take_expired,
  call_back, run_expired, tick, destroy,
}
use cc_learning.TimerList.Links.{Entry}
use cc_learning.TimerList.Insert.{insert}
use cc_learning.TimerList.Spec.{split, readjust, is_before, is_behind, lacks, expired, unexpired}
use cc_learning.TimerList.Holds.{Holds}
use cc_learning.TimerList.Calls.{
  Call, adds, deletes_of, adjusts_of, Event, calls, ticks, Timers, no_timers, own, allocate,
  adjust_at, call, call_all, step, run, spec_add, spec_delete, spec_adjust, spec_call,
  spec_call_all, forget_all, calls_for, spec_run_expired, spec_step, spec_run,
}
use cc_learning.TimerList.Reinsert.{IsSame, adjust_timer-reinserts}
use cc_learning.TimerList.Calls.Refine.{Agrees}
use cc_learning.TimerList.Calls.Owners.{IsGood}
use cc_learning.TimerList.Calls.Tick.{take_expired_due, addresses}
use cc_learning.TimerList.Calls.History.{start, history_refines, pointers_live, destroy_frees}

abbrev entry : ℕ → ℕ → ℕ → Entry
entry a x u = record { at = a; expire = x; cb = true; user = some u }

abbrev calls_of : ℕ → List Call
calls_of u = if u == 1 then deletes_of 1 ∷ adds (entry 40 50 1) ∷ [] else []

abbrev events : List Event
events =
    calls (adds (entry 10 20 1))
    ∷ calls (adds (entry 30 9 3))
    ∷ calls (adds (entry 20 15 2))
    ∷ calls (adjusts_of 3 18)
    ∷ ticks 18
    ∷ calls (adds (entry 20 30 2))
    ∷ ticks 20
    ∷ calls (deletes_of 9)
    ∷ []

abbrev left : Timers
unfolding spec_run spec_step spec_call spec_call_all spec_add spec_delete spec_adjust
    spec_run_expired calls_for forget_all split readjust is_before is_behind lacks insert expired
    unexpired own forget update
left = elim (spec_run calls_of 5 events no_timers) [ none ↦ no_timers | some st ↦ st ]

legal : spec_run calls_of 5 events no_timers ≡ some left
unfolding left spec_run spec_step spec_call spec_call_all spec_add spec_delete spec_adjust
    spec_run_expired calls_for forget_all split readjust is_before is_behind lacks insert expired
    unexpired own forget update
legal = refl

front_left : (do s ← run calls_of 5 events start; s.head) ≡ some 20
unfolding run step call call_all allocate own update construct add_timer place_by add_behind
    insert_loop set_next set_prev del_timer unlink bypass_next bypass_prev is_at clear_links
    clear_user forget free adjust_at set_expire adjust_timer is_after_ok is_before_ok tick
    take_expired pop_head run_expired call_back
front_left = refl

history_refines_example :
    (s : TimerListMgr) × (run calls_of 5 events start ≡ some s) × Agrees 5 [] s left × IsGood left
history_refines_example = history_refines calls_of 5 events left legal

destroy_frees_example :
    (s : TimerListMgr) × ((run calls_of 5 events start >>= destroy 6) ≡ some s)
    × ((a : ℕ) → s.nodes a ≡ none)
    × (s.head ≡ none)
    × (s.tail ≡ none)
    × ((u : ℕ) → s.timer_of u ≡ none)
destroy_frees_example = destroy_frees calls_of 5 events left legal

abbrev final : TimerListMgr
unfolding run step call call_all allocate own update construct add_timer place_by add_behind
    insert_loop set_next set_prev del_timer unlink bypass_next bypass_prev is_at clear_links
    clear_user forget free adjust_at set_expire adjust_timer is_after_ok is_before_ok tick
    take_expired pop_head run_expired call_back
final = elim (run calls_of 5 events start) [ none ↦ start | some s ↦ s ]

runs : run calls_of 5 events start ≡ some final
unfolding final run step call call_all allocate own update construct add_timer place_by add_behind
    insert_loop set_next set_prev del_timer unlink bypass_next bypass_prev is_at clear_links
    clear_user forget free adjust_at set_expire adjust_timer is_after_ok is_before_ok tick
    take_expired pop_head run_expired call_back
runs = refl

pointers_live_example :
    (node : TimerNode) × (final.nodes 40 ≡ some node) × (node.user_data ≡ some 1)
unfolding final run step call call_all allocate own update construct add_timer place_by add_behind
    insert_loop set_next set_prev del_timer unlink bypass_next bypass_prev is_at clear_links
    clear_user forget free adjust_at set_expire adjust_timer is_after_ok is_before_ok tick
    take_expired pop_head run_expired call_back
pointers_live_example = pointers_live calls_of 5 events left legal final runs 1 40 refl

-- Before the ticks.
abbrev early : List Event
early =
    calls (adds (entry 10 20 1)) ∷ calls (adds (entry 30 9 3)) ∷ calls (adds (entry 20 15 2)) ∷ []

abbrev listed : List Entry
listed = entry 30 9 3 ∷ entry 20 15 2 ∷ entry 10 20 1 ∷ []

abbrev early_timers : Timers
unfolding spec_run spec_step spec_call spec_call_all spec_add spec_delete spec_adjust
    spec_run_expired calls_for forget_all split readjust is_before is_behind lacks insert expired
    unexpired own forget update
early_timers = elim (spec_run calls_of 5 early no_timers) [ none ↦ no_timers | some st ↦ st ]

early_reached :
    (s : TimerListMgr) × (run calls_of 5 early start ≡ some s)
    × Agrees 5 [] s early_timers
    × IsGood early_timers
unfolding early_timers spec_run spec_step spec_call spec_call_all spec_add spec_delete spec_adjust
    spec_run_expired calls_for forget_all split readjust is_before is_behind lacks insert expired
    unexpired own forget update
early_reached = history_refines calls_of 5 early early_timers refl

early-Holds : Holds early_reached.0 listed []
unfolding early_timers spec_run spec_step spec_call spec_call_all spec_add spec_delete spec_adjust
    spec_run_expired calls_for forget_all split readjust is_before is_behind lacks insert expired
    unexpired own forget update
early-Holds = early_reached.2.holds

take_expired_due_example :
    (s' : TimerListMgr) × (due : List Entry) × (rest : List Entry) × (take_expired 4 15
        early_reached.0.head early_reached.0
      ≡ some (addresses due, s'))
    × Holds s' rest (due ++ [])
    × (s'.timer_of ≡ forget_all due early_reached.0.timer_of)
    × (due ++ rest ≡ listed)
    × All (λ c. c.expire ≤ 15) due
    × All (λ c. 15 < c.expire) rest
take_expired_due_example =
    take_expired_due 4 15 listed [] early_reached.0 early-Holds
      ((omega arith, (omega arith, tt)), ((omega arith, tt), (tt, tt))) (omega arith)

-- The timer in the middle stays.
adjust_timer-reinserts_example :
    (s' : TimerListMgr) × (s'' : TimerListMgr) × (adjust_timer 4 (some 20) early_reached.0
      ≡ some s')
    × ((unlink 20 early_reached.0 >>= place 4 20) ≡ some s'')
    × IsSame s' s''
adjust_timer-reinserts_example =
    adjust_timer-reinserts 4 (entry 20 15 2) (entry 30 9 3 ∷ []) (entry 10 20 1 ∷ []) []
      early_reached.0 early-Holds ((omega arith, tt), (tt, tt)) ((λ e. omega (arith, e)), tt)
      (omega arith)
