-- ===== src/Acceptor/Tests.antt =====
-- A connection that is taken, one that is shed for want of descriptors, and one more.
use cc_learning.Base.{◌+◌, ◌≡◌, refl, List, [], ◌∷◌, true, none, some}
use cc_learning.Acceptor.{
  opened, close_fd, close_idle, new_acceptor, accepted, exhausted, failed, take_connection,
  shed_connection, handle_read, destroy_acceptor, Round, handle_all,
}
use cc_learning.Acceptor.Descriptors.{times, is_fd, no_descriptor_leaks}

abbrev rounds : List Round
rounds =
    record { result = accepted 7; connection = none; reopened = none }
    ∷ record { result = exhausted; connection = some 3; reopened = some 4 }
    ∷ record { result = failed; connection = none; reopened = none }
    ∷ record { result = accepted 8; connection = none; reopened = none }
    ∷ []

open_at_end : (handle_all rounds (new_acceptor true (some 3))).open_fds ≡ 8 ∷ 4 ∷ 7 ∷ []
unfolding handle_all handle_read take_connection shed_connection new_acceptor opened close_idle
    close_fd
open_at_end = refl

no_descriptor_leaks_example :
    let a = handle_all rounds (new_acceptor true (some 3)) in
    (times 4 a.open_fds ≡ times 4 a.taken + is_fd 4 a.idle_fd)
    × (times 4 (destroy_acceptor a).open_fds ≡ times 4 a.taken)
no_descriptor_leaks_example = no_descriptor_leaks true (some 3) rounds 4
