-- ===== src/Acceptor/Descriptors.antt =====
-- The descriptors of reactor_net/src/Acceptor.cpp.
use cc_learning.Base.{
  ℕ, ◌+◌, ◌≤◌, ◌≡◌, refl, arith, Bool, List, [], ◌∷◌, Option, none, some, ◌==◌, if_elim, bit, count,
}
use cc_learning.Acceptor.{
  Acceptor, opened, close_fd, close_idle, new_acceptor, Accept, accepted, exhausted, failed,
  take_connection, shed_connection, handle_read, destroy_acceptor, Round, handle_all,
}

abbrev pub times : ℕ → List ℕ → ℕ
times i fds = count (λ j. j == i) fds

-- How often a result is this descriptor.
unfoldable pub is_fd : ℕ → Option ℕ → ℕ
is_fd i none = 0
is_fd i (some fd) = bit (fd == i)

times-close_fd :
    (i fd : ℕ) (fds : List ℕ)
    → 1 ≤ times fd fds
    → times i (close_fd fd fds) + bit (fd == i) ≡ times i fds
unfolding close_fd
times-close_fd i fd [] h = absurd (omega (arith, h))
times-close_fd i fd (j ∷ js) h =
    if_elim (λ (l : List ℕ). times i l + bit (fd == i) ≡ times i (j ∷ js)) (j == fd)
      (λ e. let same : j ≡ fd = ground arith in ground arith)
      (λ e.
        let z : bit (j == fd) ≡ 0 = rw e refl in
        omega (arith, times-close_fd i fd js (omega (arith, h, z))))

times-opened :
    (i : ℕ) (o : Option ℕ) (fds : List ℕ) → times i (opened o fds) ≡ is_fd i o + times i fds
unfolding opened is_fd
times-opened i none fds = omega arith
times-opened i (some fd) fds = refl

times-close_idle :
    (i : ℕ) (o : Option ℕ) (fds : List ℕ)
    → ((j : ℕ) → is_fd j o ≤ times j fds)
    → times i (close_idle o fds) + is_fd i o ≡ times i fds
unfolding close_idle is_fd
times-close_idle i none fds h = omega arith
times-close_idle i (some fd) fds h =
    let one : bit (fd == fd) ≡ 1 = ground arith in
    times-close_fd i fd fds (omega (arith, h fd, one))

IsAccounted : Acceptor → Type 0
IsAccounted a = (i : ℕ) → times i a.open_fds ≡ times i a.taken + is_fd i a.idle_fd

take_connection-IsAccounted :
    (fd : ℕ) (a : Acceptor) → IsAccounted a → IsAccounted (take_connection fd a)
unfolding take_connection IsAccounted
take_connection-IsAccounted fd a p =
    if_elim IsAccounted a.has_callback (λ e i. omega (arith, p i))
      (λ e i.
        let one : bit (fd == fd) ≡ 1 = ground arith in
        omega (arith, p i, times-close_fd i fd (fd ∷ a.open_fds) (omega (arith, one))))

shed_connection-IsAccounted :
    (connection reopened : Option ℕ) (a : Acceptor)
    → IsAccounted a
    → IsAccounted (shed_connection connection reopened a)
unfolding shed_connection IsAccounted
shed_connection-IsAccounted connection reopened a p i =
    let fds = close_idle a.idle_fd a.open_fds in
    let c = times-close_idle i a.idle_fd a.open_fds (λ j. omega (arith, p j)) in
    let d =
      times-close_idle i connection (opened connection fds)
        (λ j. omega (arith, times-opened j connection fds)) in
    omega (
      arith,
      p i,
      c,
      d,
      times-opened i connection fds,
      times-opened i reopened (close_idle connection (opened connection fds)),
    )

handle_all-IsAccounted :
    (rs : List Round) (a : Acceptor) → IsAccounted a → IsAccounted (handle_all rs a)
unfolding handle_all handle_read
handle_all-IsAccounted [] a p = p
handle_all-IsAccounted (r ∷ rs) a p = handle_all-IsAccounted rs _ (by_result r.result)
  where
    by_result : (o : Accept) → IsAccounted (handle_read o r.connection r.reopened a)
    by_result (accepted fd) = take_connection-IsAccounted fd a p
    by_result exhausted = shed_connection-IsAccounted r.connection r.reopened a p
    by_result failed = p

-- Whatever `accept` and `open` give, in every round and also where descriptors run out, the acceptor
-- keeps open the connections that it gave to the callback and at most its idle descriptor, and no
-- other: each connection that it accepts is given away or closed. Its destructor leaves open only
-- what it gave away.
pub no_descriptor_leaks :
    (has_callback : Bool) (idle : Option ℕ) (rs : List Round) (i : ℕ)
    → let a = handle_all rs (new_acceptor has_callback idle) in
      (times i a.open_fds ≡ times i a.taken + is_fd i a.idle_fd)
      × (times i (destroy_acceptor a).open_fds ≡ times i a.taken)
unfolding new_acceptor destroy_acceptor IsAccounted
no_descriptor_leaks has_callback idle rs i =
    let a : Acceptor = handle_all rs (new_acceptor has_callback idle) in
    let p : IsAccounted a =
      handle_all-IsAccounted rs (new_acceptor has_callback idle)
        (λ j. omega (arith, times-opened j idle [])) in
    let c = times-close_idle i a.idle_fd a.open_fds (λ j. omega (arith, p j)) in
    (p i, omega (arith, p i, c))
