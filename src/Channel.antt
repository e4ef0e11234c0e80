-- ===== src/Channel.antt =====
-- reactor_net/src/Channel.cpp and reactor_net/src/EPollPoller.cpp: which events a descriptor is
-- watched for, and what is called for those that come. The kernel's epoll instance is a parameter.
pub mod Sync
pub mod Table
mod Tests
use cc_learning.Base.{
  ℕ, ◌≡◌, ◌≢◌, Bool, true, false, not, ◌&&◌, ◌||◌, List, [], ◌∷◌, ◌++◌, Option, none, some, ◌==◌,
  if◌then◌else◌,
}

-- `events_`: `kReadEvent` is EPOLLIN with EPOLLPRI, `kWriteEvent` is EPOLLOUT.
pub record Events : Type 0 where
  pub reading : Bool
  pub writing : Bool

abbrev pub none_event : Events
none_event = record { reading = false; writing = false }

pub data Operation : Type 0 where
  add modify delete : Operation

-- What `epoll_ctl` does to the interest list, by its documentation. `refuses` says that a call gives -1,
-- be it for want of memory, a descriptor that cannot be watched or one that is there already.
pub record Epoll : Type 1 where
  pub Kernel : Type 0
  pub ctl : Operation → ℕ → Events → Kernel → Kernel
  pub refuses : Operation → ℕ → Events → Kernel → Bool
  pub interest : Kernel → ℕ → Option Events
  pub add_new :
      (k : Kernel) (fd : ℕ) (e : Events)
      → interest k fd ≡ none
      → refuses add fd e k ≡ false
      → interest (ctl add fd e k) fd ≡ some e
  pub modify_old :
      (k : Kernel) (fd : ℕ) (e e' : Events)
      → interest k fd ≡ some e'
      → refuses modify fd e k ≡ false
      → interest (ctl modify fd e k) fd ≡ some e
  pub delete_any : (k : Kernel) (fd : ℕ) (e : Events) → interest (ctl delete fd e k) fd ≡ none
  pub ctl_other :
      (k : Kernel) (op : Operation) (fd other : ℕ) (e : Events)
      → fd ≢ other
      → interest (ctl op fd e k) other ≡ interest k other

-- `index_`: -1, 0 or 1.
pub data Index : Type 0 where
  brand_new removed watched : Index

-- `identity` is the address of the object.
pub record Channel : Type 0 where
  pub identity : ℕ
  pub fd : ℕ
  pub events : Events
  pub index : Index
  pub added_to_loop : Bool

unfoldable pub new_channel : ℕ → ℕ → Channel
new_channel identity fd = record {
  identity = identity;
  fd = fd;
  events = none_event;
  index = brand_new;
  added_to_loop = false;
}

unfoldable pub is_none_event : Channel → Bool
is_none_event c = not c.events.reading && not c.events.writing

unfoldable pub is_writing : Channel → Bool
is_writing c = c.events.writing

unfoldable pub is_reading : Channel → Bool
is_reading c = c.events.reading

-- `revents_`
pub record Revents : Type 0 where
  pub hup : Bool
  pub err : Bool
  pub in_ : Bool
  pub pri : Bool
  pub rdhup : Bool
  pub out : Bool

pub data Callback : Type 0 where
  closes errors reads writes : Callback

abbrev pub when : Bool → Callback → List Callback
when b c = if b then c ∷ [] else []

-- The callbacks that `handleEventWithGuard` makes, in order; all four are set.
unfoldable pub handle_event_with_guard : Revents → List Callback
handle_event_with_guard r =
    when (r.hup && not r.in_) closes
    ++ (when r.err errors ++ (when (r.in_ || (r.pri || r.rdhup)) reads ++ when r.out writes))

-- A tied channel whose owner is gone makes none.
unfoldable pub handle_event : Bool → Bool → Revents → List Callback
unfolding handle_event_with_guard
handle_event tied alive r = if tied && not alive then [] else handle_event_with_guard r

-- `channels_`, by descriptor.
abbrev pub erase_fd : ℕ → List (ℕ × ℕ) → List (ℕ × ℕ)
erase_fd fd [] = []
erase_fd fd ((g, c) ∷ m) = let rest = erase_fd fd m in if fd == g then rest else (g, c) ∷ rest

abbrev pub find_fd : ℕ → List (ℕ × ℕ) → Option ℕ
find_fd fd [] = none
find_fd fd ((g, c) ∷ m) = if fd == g then some c else find_fd fd m

unfoldable pub report : Operation → ℕ → List (Operation × ℕ) → List (Operation × ℕ)
report add fd rs = (add, fd) ∷ rs
report modify fd rs = (modify, fd) ∷ rs
report delete fd rs = rs

module _ (os : Epoll) where
  open os use {Kernel, ctl, refuses}

  pub record Poller : Type 0 where
    pub kernel : Kernel
    pub channels : List (ℕ × ℕ)
    -- The failures written to `std::cerr`, latest first.
    pub reports : List (Operation × ℕ)

  -- `EPollPoller::update`; a failure is only reported, that of a removal not even that.
  unfoldable pub epoll_update : Operation → Channel → Poller → Poller
  unfolding report
  epoll_update op c p = record p {
    kernel = ctl op c.fd c.events p.kernel;
    reports = if refuses op c.fd c.events p.kernel then report op c.fd p.reports else p.reports;
  }

  unfoldable pub watch : Channel → Poller → Channel × Poller
  unfolding epoll_update
  watch c p = (record c { index = watched }, epoll_update add c p)

  -- `EPollPoller::updateChannel`
  unfoldable pub update_channel : Index → Channel → Poller → Channel × Poller
  unfolding watch epoll_update is_none_event
  update_channel brand_new c p =
      watch c (record p { channels = (c.fd, c.identity) ∷ erase_fd c.fd p.channels })
  update_channel removed c p = watch c p
  update_channel watched c p =
      if is_none_event c
      then (record c { index = removed }, epoll_update delete c p)
      else (c, epoll_update modify c p)

  -- `EPollPoller::removeChannel`
  unfoldable pub remove_channel : Index → Channel → Poller → Channel × Poller
  unfolding epoll_update
  remove_channel watched c p = (
    record c { index = brand_new },
    epoll_update delete c (record p { channels = erase_fd c.fd p.channels }),
  )
  remove_channel removed c p =
      (record c { index = brand_new }, record p { channels = erase_fd c.fd p.channels })
  remove_channel brand_new c p =
      (record c { index = brand_new }, record p { channels = erase_fd c.fd p.channels })

  unfoldable pub has_channel : Channel → Poller → Bool
  has_channel c p = elim (find_fd c.fd p.channels) [ none ↦ false | some d ↦ d == c.identity ]

  -- `Channel::update`
  unfoldable pub update : Channel → Poller → Channel × Poller
  unfolding update_channel
  update c p = let c' = record c { added_to_loop = true } in update_channel c'.index c' p

  -- The events that a channel asks for are changed.
  unfoldable pub set_events : Events → Channel → Poller → Channel × Poller
  unfolding update
  set_events e c p = update (record c { events = e }) p

  unfoldable pub enable_reading : Channel → Poller → Channel × Poller
  unfolding set_events
  enable_reading c p = set_events (record (c.events) { reading = true }) c p

  unfoldable pub disable_reading : Channel → Poller → Channel × Poller
  unfolding set_events
  disable_reading c p = set_events (record (c.events) { reading = false }) c p

  unfoldable pub enable_writing : Channel → Poller → Channel × Poller
  unfolding set_events
  enable_writing c p = set_events (record (c.events) { writing = true }) c p

  unfoldable pub disable_writing : Channel → Poller → Channel × Poller
  unfolding set_events
  disable_writing c p = set_events (record (c.events) { writing = false }) c p

  unfoldable pub disable_all : Channel → Poller → Channel × Poller
  unfolding set_events
  disable_all c p = set_events none_event c p

  -- `none` is the failed assertion that no event is enabled.
  unfoldable pub remove : Channel → Poller → Option (Channel × Poller)
  unfolding is_none_event remove_channel
  remove c p =
      if is_none_event c
      then some (remove_channel c.index (record c { added_to_loop = false }) p)
      else none
