-- ===== src/TimerList.antt =====
-- The timer list of timer/timer.cc: a doubly linked list of timers by their expiry. A pointer is an
-- address of `nodes` or `none` for a null pointer. Every call holds the mutex, so it is one step;
-- `none` as the result of a call is a read, a write or a deletion through a dangling pointer, or
-- fuel that has run out. `client_data` is a number and `timer_of` its field `timer`. Times are not negative.
pub mod Links
pub mod Insert
pub mod Unlink
pub mod Holds
pub mod Spec
pub mod Adjust
pub mod Reinsert
pub mod Calls
use cc_learning.Base.{
  ℕ, zero, suc, Bool, true, false, ◌&&◌, List, [], ◌∷◌, Option, none, some, ltb, leb, ◌==◌,
  if◌then◌else◌,
}

-- `cb` says whether the callback is set.
pub record TimerNode : Type 0 where
  pub expire : ℕ
  pub cb : Bool
  pub user_data : Option ℕ
  pub prev : Option ℕ
  pub next : Option ℕ

abbrev pub Nodes : Type 0
Nodes = ℕ → Option TimerNode

pub record TimerListMgr : Type 0 where
  pub nodes : Nodes
  pub timer_of : ℕ → Option ℕ
  pub head : Option ℕ
  pub tail : Option ℕ

infixl 5 ◌>>=◌
abbrev pub ◌>>=◌ : {A B : Type 0} → Option A → (A → Option B) → Option B
none >>= k = none
some a >>= k = k a

unfoldable pub update {ℓ} : {A : Type ℓ} → (ℕ → A) → ℕ → A → ℕ → A
update f p v a = if a == p then v else f a

abbrev pub store : ℕ → Option TimerNode → TimerListMgr → TimerListMgr
store p n s = record s { nodes = update s.nodes p n }

unfoldable pub set_next : ℕ → Option ℕ → TimerListMgr → Option TimerListMgr
set_next p q s = do n ← s.nodes p; some (store p (some (record n { next = q })) s)

unfoldable pub set_prev : ℕ → Option ℕ → TimerListMgr → Option TimerListMgr
set_prev p q s = do n ← s.nodes p; some (store p (some (record n { prev = q })) s)

unfoldable pub clear_links : ℕ → TimerListMgr → Option TimerListMgr
clear_links p s = do n ← s.nodes p; some (store p (some (record n { prev = none; next = none })) s)

-- `delete`
unfoldable pub free : ℕ → TimerListMgr → Option TimerListMgr
free p s = do n ← s.nodes p; some (store p none s)

-- `if (timer->user_data) timer->user_data->timer = nullptr`
unfoldable pub forget : Option ℕ → (ℕ → Option ℕ) → ℕ → Option ℕ
unfolding update
forget none timer_of = timer_of
forget (some u) timer_of = update timer_of u none

unfoldable pub clear_user : ℕ → TimerListMgr → Option TimerListMgr
unfolding forget
clear_user p s = do n ← s.nodes p; some (record s { timer_of = forget n.user_data s.timer_of })

unfoldable pub is_at : Option ℕ → ℕ → Bool
is_at none p = false
is_at (some q) p = q == p

-- The constructors.
unfoldable pub new_node : TimerNode
new_node = record { expire = 0; cb = false; user_data = none; prev = none; next = none }

unfoldable pub construct : Nodes → (ℕ → Option ℕ) → TimerListMgr
construct nodes timer_of = record { nodes = nodes; timer_of = timer_of; head = none; tail = none }

-- The loop of the destructor from `tmp`, with fuel.
unfoldable pub destroy_loop : ℕ → Option ℕ → TimerListMgr → Option TimerListMgr
unfolding clear_user free
destroy_loop zero tmp s = none
destroy_loop (suc n) none s = some s
destroy_loop (suc n) (some del) s = do
  node ← s.nodes del
  cleared ← clear_user del s
  freed ← free del cleared
  destroy_loop n node.next freed

unfoldable pub destroy : ℕ → TimerListMgr → Option TimerListMgr
unfolding destroy_loop
destroy fuel s = do s' ← destroy_loop fuel s.head s; some (record s' { head = none; tail = none })

-- The loop of the private `add_timer`, with fuel.
unfoldable pub insert_loop : ℕ → ℕ → ℕ → Option ℕ → TimerListMgr → Option TimerListMgr
unfolding set_next set_prev
insert_loop zero timer prev tmp s = none
insert_loop (suc n) timer prev none s = do
  s1 ← set_next prev (some timer) s
  s2 ← set_prev timer (some prev) s1
  s3 ← set_next timer none s2
  some (record s3 { tail = some timer })
insert_loop (suc n) timer prev (some tmp) s = do
  node ← s.nodes timer
  ahead ← s.nodes tmp
  (let rest = insert_loop n timer tmp ahead.next s in
      if ltb node.expire ahead.expire
      then (do
        s1 ← set_next prev (some timer) s
        s2 ← set_next timer (some tmp) s1
        s3 ← set_prev tmp (some timer) s2
        set_prev timer (some prev) s3)
      else rest)

-- The private `add_timer`; the pointers are not null where it is called.
unfoldable pub add_behind : ℕ → ℕ → ℕ → TimerListMgr → Option TimerListMgr
unfolding insert_loop
add_behind fuel timer list_head s = do
  node ← s.nodes list_head
  insert_loop fuel timer list_head node.next s

-- What `add_timer` and `adjust_timer` do with a timer outside the list, by its `head`.
unfoldable pub place_by : Option ℕ → ℕ → ℕ → TimerListMgr → Option TimerListMgr
unfolding add_behind set_next set_prev
place_by none fuel timer s = some (record s { head = some timer; tail = some timer })
place_by (some front) fuel timer s = do
  node ← s.nodes timer
  ahead ← s.nodes front
  if ltb node.expire ahead.expire
      then (do
        s1 ← set_next timer (some front) s
        s2 ← set_prev front (some timer) s1
        some (record s2 { head = some timer }))
      else add_behind fuel timer front s

abbrev pub place : ℕ → ℕ → TimerListMgr → Option TimerListMgr
unfolding place_by
place fuel timer s = place_by s.head fuel timer s

unfoldable pub add_timer : ℕ → Option ℕ → TimerListMgr → Option TimerListMgr
unfolding place_by
add_timer fuel none s = some s
add_timer fuel (some timer) s = place fuel timer s

-- The two tests by which `del_timer` and `adjust_timer` unlink a timer.
unfoldable pub bypass_next : Option ℕ → ℕ → Option ℕ → TimerListMgr → Option TimerListMgr
unfolding set_next is_at
bypass_next (some p) timer next s = set_next p next s
bypass_next none timer next s = some (if is_at s.head timer then record s { head = next } else s)

unfoldable pub bypass_prev : Option ℕ → ℕ → Option ℕ → TimerListMgr → Option TimerListMgr
unfolding set_prev is_at
bypass_prev (some q) timer prev s = set_prev q prev s
bypass_prev none timer prev s = some (if is_at s.tail timer then record s { tail = prev } else s)

unfoldable pub unlink : ℕ → TimerListMgr → Option TimerListMgr
unfolding bypass_next bypass_prev clear_links
unlink timer s = do
  node ← s.nodes timer
  s1 ← bypass_next node.prev timer node.next s
  again ← s1.nodes timer
  s2 ← bypass_prev again.next timer again.prev s1
  clear_links timer s2

unfoldable pub del_timer : Option ℕ → TimerListMgr → Option TimerListMgr
unfolding unlink clear_user free
del_timer none s = some s
del_timer (some timer) s = do s1 ← unlink timer s; s2 ← clear_user timer s1; free timer s2

-- What a client writes before it calls `adjust_timer`.
unfoldable pub set_expire : ℕ → ℕ → TimerListMgr → Option TimerListMgr
set_expire p x s = do n ← s.nodes p; some (store p (some (record n { expire = x })) s)

-- `after_ok` and `before_ok`
unfoldable pub is_after_ok : TimerNode → TimerListMgr → Option Bool
is_after_ok node s = elim node.next [
  | none ↦ some true
  | some q ↦ do after ← s.nodes q; some (leb node.expire after.expire)
]

unfoldable pub is_before_ok : TimerNode → TimerListMgr → Option Bool
is_before_ok node s = elim node.prev [
  | none ↦ some true
  | some p ↦ do before ← s.nodes p; some (leb before.expire node.expire)
]

unfoldable pub adjust_timer : ℕ → Option ℕ → TimerListMgr → Option TimerListMgr
unfolding is_after_ok is_before_ok unlink place_by
adjust_timer fuel none s = some s
adjust_timer fuel (some timer) s = do
  node ← s.nodes timer
  after_ok ← is_after_ok node s
  before_ok ← is_before_ok node s
  if after_ok && before_ok then some s else (do s' ← unlink timer s; place fuel timer s')

-- One round of the loop of `tick`: the head `del` leaves the list.
unfoldable pub pop_head : ℕ → TimerListMgr → Option TimerListMgr
unfolding set_prev clear_links clear_user
pop_head del s = do
  node ← s.nodes del
  s1 ← elim node.next [
    | none ↦ some (record s { head = none; tail = none })
    | some q ↦ set_prev q none (record s { head = some q })
  ]
  s2 ← clear_links del s1
  clear_user del s2

-- The loop from `head`, with fuel: the timers that have expired, in order.
unfoldable pub take_expired : ℕ → ℕ → Option ℕ → TimerListMgr → Option (List ℕ × TimerListMgr)
unfolding pop_head
take_expired zero cur head s = none
take_expired (suc n) cur none s = some ([], s)
take_expired (suc n) cur (some del) s = do
  node ← s.nodes del
  if leb node.expire cur
      then (do
        s' ← pop_head del s
        (expired, left) ← take_expired n cur s'.head s'
        some (del ∷ expired, left))
      else some ([], s)

-- `callback u` is what the callbacks do for the client `u`; they run without the mutex, so they may
-- call the list.
module _ (callback : ℕ → TimerListMgr → Option TimerListMgr) where
  unfoldable pub call_back : TimerNode → TimerListMgr → Option TimerListMgr
  call_back node s = elim node.user_data [
    | none ↦ some s
    | some u ↦ if node.cb then callback u s else some s
  ]

  unfoldable pub run_expired : List ℕ → TimerListMgr → Option TimerListMgr
  unfolding call_back free
  run_expired [] s = some s
  run_expired (del ∷ dels) s = do
    node ← s.nodes del
    s1 ← call_back node s
    s2 ← free del s1
    run_expired dels s2

  unfoldable pub tick : ℕ → ℕ → TimerListMgr → Option TimerListMgr
  unfolding take_expired run_expired
  tick fuel cur s = do (expired, s') ← take_expired fuel cur s.head s; run_expired expired s'
