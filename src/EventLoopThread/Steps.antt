-- ===== src/EventLoopThread/Steps.antt =====
-- Properties that every step of reactor_net/src/EventLoopThread.cpp keeps.
use cc_learning.Base.{ℕ, ◌≡◌, refl, subst, List, Option, none, some}
use cc_learning.EventLoop.{Call, EventLoop}
use cc_learning.EventLoopThread.{
  EventLoopThread, new_thread, with_loop, Move, move, Reach, begins, moves,
}

abbrev pub WhenAny : (EventLoopThread → Type 0) → Option EventLoopThread → Type 0
WhenAny P none = Unit
WhenAny P (some s) = P s

pub with_loop-WhenAny :
    (P : EventLoopThread → Type 0) (f : EventLoop → EventLoopThread) (o : Option EventLoop)
    → ((l : EventLoop) → o ≡ some l → P (f l))
    → WhenAny P (with_loop f o)
with_loop-WhenAny P f none h = tt
with_loop-WhenAny P f (some l) h = h l refl

pub Reach-WhenAny :
    (code handler : ℕ → List Call) (P : EventLoopThread → Type 0)
    → P new_thread
    → ((m : Move code handler) (s : EventLoopThread) → P s → WhenAny P (move code handler m s))
    → {s : EventLoopThread} → Reach code handler s
    → P s
Reach-WhenAny code handler P h k begins = h
Reach-WhenAny code handler P h k (moves {s} m r e) =
    subst (WhenAny P) e (k m s (Reach-WhenAny code handler P h k r))
