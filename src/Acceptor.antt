-- ===== src/Acceptor.antt =====
-- The acceptor: reactor_net/src/Acceptor.cpp. What `accept` and `open` give is an argument, `none` for
-- -1. `open_fds` are the descriptors that the acceptor has from the kernel and has not closed, and
-- `taken` those that it gave to the callback.
pub mod Descriptors
mod Tests
use cc_learning.Base.{
  ℕ, Bool, true, false, List, [], ◌∷◌, ◌++◌, Option, none, some, ◌==◌, if◌then◌else◌,
}

pub record Acceptor : Type 0 where
  pub has_callback : Bool
  pub listening : Bool
  pub idle_fd : Option ℕ
  pub open_fds : List ℕ
  pub taken : List ℕ

-- What a call that makes a descriptor adds.
unfoldable pub opened : Option ℕ → List ℕ → List ℕ
opened none fds = fds
opened (some fd) fds = fd ∷ fds

unfoldable pub close_fd : ℕ → List ℕ → List ℕ
close_fd fd [] = []
close_fd fd (j ∷ js) = let rest = close_fd fd js in if j == fd then js else j ∷ rest

-- `close`, where -1 does nothing.
unfoldable pub close_idle : Option ℕ → List ℕ → List ℕ
unfolding close_fd
close_idle none fds = fds
close_idle (some fd) fds = close_fd fd fds

-- The constructor, with the callback that may be set after it.
unfoldable pub new_acceptor : Bool → Option ℕ → Acceptor
unfolding opened
new_acceptor has_callback idle = record {
  has_callback = has_callback;
  listening = false;
  idle_fd = idle;
  open_fds = opened idle [];
  taken = [];
}

unfoldable pub listen : Acceptor → Acceptor
listen a = record a { listening = true }

-- `accept`; the second is EMFILE or ENFILE.
pub data Accept : Type 0 where
  accepted : ℕ → Accept
  exhausted failed : Accept

unfoldable pub take_connection : ℕ → Acceptor → Acceptor
unfolding close_fd
take_connection fd a =
    if a.has_callback
    then record a { open_fds = fd ∷ a.open_fds; taken = fd ∷ a.taken }
    else record a { open_fds = close_fd fd (fd ∷ a.open_fds) }

-- The connection is accepted in the place of the idle descriptor, and closed at once.
unfoldable pub shed_connection : Option ℕ → Option ℕ → Acceptor → Acceptor
unfolding opened close_idle
shed_connection connection reopened a = record a {
  idle_fd = reopened;
  open_fds =
      opened reopened (close_idle connection (opened connection (close_idle a.idle_fd a.open_fds)));
}

-- `handleRead`, with the results of the two calls of `accept` and of `open`.
unfoldable pub handle_read : Accept → Option ℕ → Option ℕ → Acceptor → Acceptor
unfolding take_connection shed_connection
handle_read (accepted fd) connection reopened a = take_connection fd a
handle_read exhausted connection reopened a = shed_connection connection reopened a
handle_read failed connection reopened a = a

-- The destructor.
unfoldable pub destroy_acceptor : Acceptor → Acceptor
unfolding close_idle
destroy_acceptor a = record a { open_fds = close_idle a.idle_fd a.open_fds }

-- A round of the loop in which the listening socket is readable.
pub record Round : Type 0 where
  pub result : Accept
  pub connection : Option ℕ
  pub reopened : Option ℕ

unfoldable pub handle_all : List Round → Acceptor → Acceptor
unfolding handle_read
handle_all [] a = a
handle_all (r ∷ rs) a = handle_all rs (handle_read r.result r.connection r.reopened a)
