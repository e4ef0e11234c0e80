-- ===== src/Channel/Sync.antt =====
-- The interest list of the kernel against the state of a channel, over a run of calls.
use cc_learning.Base.{
  ◌≤◌, ◌<◌, ◌⊎◌, inl, inr, arith, length, Bool-cases, ℕ, ◌≡◌, refl, sym, true, false, List, [], ◌∷◌,
  Option, none, some, if_elim, subst,
}
use cc_learning.Channel.{
  Events, none_event, Epoll, Operation, add, modify, delete, report, erase_fd, Index, brand_new,
  removed, watched, Channel, new_channel, is_none_event, Poller, epoll_update, watch,
  update_channel, remove_channel, update, set_events, enable_reading, disable_reading,
  enable_writing, disable_writing, disable_all, remove,
}

module _ (os : Epoll) where
  -- What the interest list holds for a channel with this index, where `n` of `m` failures that were
  -- reported are of before.
  abbrev pub IsSynced : ℕ → Index → Events → Option Events → ℕ → Type 0
  IsSynced n watched e o m = (o ≡ some e) ⊎ (n < m)
  IsSynced n removed e o m = o ≡ none
  IsSynced n brand_new e o m = o ≡ none

  abbrev pub Synced : ℕ → Channel × Poller os → Type 0
  Synced n (c, p) =
      (n ≤ length p.reports)
      × IsSynced n c.index c.events (os.interest p.kernel c.fd) (length p.reports)

  length-reports :
      (op : Operation) (c : Channel) (p : Poller os)
      → length p.reports ≤ length (epoll_update os op c p).reports
  unfolding epoll_update report
  length-reports add c p = elim (Bool-cases (os.refuses add c.fd c.events p.kernel)) [
    | inl r ↦ rw r (omega arith)
    | inr r ↦ rw r (omega arith)
  ]
  length-reports modify c p = elim (Bool-cases (os.refuses modify c.fd c.events p.kernel)) [
    | inl r ↦ rw r (omega arith)
    | inr r ↦ rw r (omega arith)
  ]
  length-reports delete c p = elim (Bool-cases (os.refuses delete c.fd c.events p.kernel)) [
    | inl r ↦ rw r (omega arith)
    | inr r ↦ rw r (omega arith)
  ]

  add-Synced :
      (n : ℕ) (c : Channel) (p : Poller os)
      → n ≤ length p.reports
      → os.interest p.kernel c.fd ≡ none
      → let q = epoll_update os add c p in
        IsSynced n watched c.events (os.interest q.kernel c.fd) (length q.reports)
  unfolding epoll_update report
  add-Synced n c p l h = elim (Bool-cases (os.refuses add c.fd c.events p.kernel)) [
    | inl r ↦ inr (rw r (omega (arith, l)))
    | inr r ↦ inl (os.add_new p.kernel c.fd c.events h r)
  ]

  modify-Synced :
      (n : ℕ) (e : Events) (c : Channel) (p : Poller os)
      → n ≤ length p.reports
      → IsSynced n watched e (os.interest p.kernel c.fd) (length p.reports)
      → let q = epoll_update os modify c p in
        IsSynced n watched c.events (os.interest q.kernel c.fd) (length q.reports)
  unfolding epoll_update report
  modify-Synced n e c p l (inr m) = inr (let k = length-reports modify c p in omega (arith, m, k))
  modify-Synced n e c p l (inl h) = elim (Bool-cases (os.refuses modify c.fd c.events p.kernel)) [
    | inl r ↦ inr (rw r (omega (arith, l)))
    | inr r ↦ inl (os.modify_old p.kernel c.fd c.events e h r)
  ]

  delete_lem :
      (c : Channel) (p : Poller os) → os.interest (epoll_update os delete c p).kernel c.fd ≡ none
  unfolding epoll_update
  delete_lem c p = os.delete_any p.kernel c.fd c.events

  le_trans : {a b c : ℕ} → a ≤ b → b ≤ c → a ≤ c
  le_trans h k = omega (arith, h, k)

  -- The events may have changed: what the list holds is still what it held for the old ones.
  update_channel-Synced :
      (n : ℕ) (i : Index) (e : Events) (c : Channel) (p : Poller os)
      → c.index ≡ i
      → n ≤ length p.reports
      → IsSynced n i e (os.interest p.kernel c.fd) (length p.reports)
      → Synced n (update_channel os i c p)
  unfolding update_channel watch
  update_channel-Synced n brand_new e c p q l h =
      let p' : Poller os = record p { channels = (c.fd, c.identity) ∷ erase_fd c.fd p.channels } in
      (le_trans l (length-reports add c p'), add-Synced n c p' l h)
  update_channel-Synced n removed e c p q l h =
      (le_trans l (length-reports add c p), add-Synced n c p l h)
  update_channel-Synced n watched e c p q l h =
      if_elim (Synced n) (is_none_event c)
        (λ _. (le_trans l (length-reports delete c p), delete_lem c p))
        (λ _. (
          le_trans l (length-reports modify c p),
          subst
              (λ i.
                let r = epoll_update os modify c p in
                IsSynced n i c.events (os.interest r.kernel c.fd) (length r.reports))
              (sym q) (modify-Synced n e c p l h),
        ))

  update_channel-events :
      (i : Index) (c : Channel) (p : Poller os) → (update_channel os i c p).0.events ≡ c.events
  unfolding update_channel watch
  update_channel-events brand_new c p = refl
  update_channel-events removed c p = refl
  update_channel-events watched c p =
      if_elim (λ (r : Channel × Poller os). r.0.events ≡ c.events) (is_none_event c) (λ _. refl)
        (λ _. refl)

  -- The channel asks for these events then.
  pub set_events-events :
      (e : Events) (c : Channel) (p : Poller os) → (set_events os e c p).0.events ≡ e
  unfolding set_events update
  set_events-events e c p =
      update_channel-events c.index (record c { events = e; added_to_loop = true }) p

  remove_channel-events :
      (i : Index) (c : Channel) (p : Poller os) → (remove_channel os i c p).0.events ≡ c.events
  unfolding remove_channel
  remove_channel-events brand_new c p = refl
  remove_channel-events removed c p = refl
  remove_channel-events watched c p = refl

  abbrev KeepsEvents : Channel → Option (Channel × Poller os) → Type 0
  KeepsEvents c none = Unit
  KeepsEvents c (some x) = x.0.events ≡ c.events

  pub remove-events :
      (c : Channel) (p : Poller os) {x : Channel × Poller os}
      → remove os c p ≡ some x
      → x.0.events ≡ c.events
  unfolding remove
  remove-events c p e = subst (KeepsEvents c) e (
      if_elim (KeepsEvents c) (is_none_event c)
        (λ _. remove_channel-events c.index (record c { added_to_loop = false }) p) (λ _. tt))

  pub set_events-Synced :
      (n : ℕ) (e : Events) (c : Channel) (p : Poller os)
      → Synced n (c, p)
      → Synced n (set_events os e c p)
  unfolding set_events update
  set_events-Synced n e c p h =
      update_channel-Synced n c.index c.events (record c { events = e; added_to_loop = true }) p
        refl h.0 h.1

  remove_channel-Synced :
      (n : ℕ) (i : Index) (e : Events) (c : Channel) (p : Poller os)
      → n ≤ length p.reports
      → IsSynced n i e (os.interest p.kernel c.fd) (length p.reports)
      → Synced n (remove_channel os i c p)
  unfolding remove_channel
  remove_channel-Synced n brand_new e c p l h = (l, h)
  remove_channel-Synced n removed e c p l h = (l, h)
  remove_channel-Synced n watched e c p l h =
      let p' : Poller os = record p { channels = erase_fd c.fd p.channels } in
      (le_trans l (length-reports delete c p'), delete_lem c p')

  -- The calls on a channel.
  pub data Call : Type 0 where
    enables_reading disables_reading enables_writing disables_writing disables_all removes : Call

  -- A removal whose assertion fails ends the program; nothing comes after it.
  unfoldable pub step : Channel × Poller os → Call → Option (Channel × Poller os)
  step (c, p) enables_reading = some (enable_reading os c p)
  step (c, p) disables_reading = some (disable_reading os c p)
  step (c, p) enables_writing = some (enable_writing os c p)
  step (c, p) disables_writing = some (disable_writing os c p)
  step (c, p) disables_all = some (disable_all os c p)
  step (c, p) removes = remove os c p

  unfoldable pub run : List Call → Channel × Poller os → Option (Channel × Poller os)
  unfolding step
  run [] s = some s
  run (k ∷ ks) s = elim (step s k) [ none ↦ none | some s' ↦ run ks s' ]

  -- If there is a result, it is synced.
  abbrev AllSynced : ℕ → Option (Channel × Poller os) → Type 0
  AllSynced n none = Unit
  AllSynced n (some s) = Synced n s

  step-Synced : (n : ℕ) (s : Channel × Poller os) (k : Call) → Synced n s → AllSynced n (step s k)
  unfolding step enable_reading disable_reading enable_writing disable_writing disable_all remove
  step-Synced n (c, p) enables_reading h =
      set_events-Synced n (record (c.events) { reading = true }) c p h
  step-Synced n (c, p) disables_reading h =
      set_events-Synced n (record (c.events) { reading = false }) c p h
  step-Synced n (c, p) enables_writing h =
      set_events-Synced n (record (c.events) { writing = true }) c p h
  step-Synced n (c, p) disables_writing h =
      set_events-Synced n (record (c.events) { writing = false }) c p h
  step-Synced n (c, p) disables_all h = set_events-Synced n none_event c p h
  step-Synced n (c, p) removes h =
      if_elim (AllSynced n) (is_none_event c)
        (λ _.
          remove_channel-Synced n c.index c.events (record c { added_to_loop = false }) p h.0 h.1)
        (λ _. tt)

  run-AllSynced :
      (n : ℕ) (ks : List Call) (s : Channel × Poller os) → Synced n s → AllSynced n (run ks s)
  unfolding run
  run-AllSynced n [] s h = h
  run-AllSynced n (k ∷ ks) s h =
      goes_on (step s k) (step-Synced n s k h) (λ s' h'. run-AllSynced n ks s' h')
    where
      goes_on :
          (o : Option (Channel × Poller os))
          → AllSynced n o
          → ((s' : Channel × Poller os) → Synced n s' → AllSynced n (run ks s'))
          → AllSynced n (elim o [ none ↦ none | some s' ↦ run ks s' ])
      goes_on none h next = tt
      goes_on (some s') h next = next s' h

  -- Whatever calls are made on a new channel whose descriptor the kernel does not watch, as long as no
  -- assertion fails: if its index is not 1, the kernel does not watch the descriptor, also where calls
  -- of `epoll_ctl` fail; if it is 1, the kernel watches it for exactly the events that the channel asks
  -- for, unless a failure was reported since.
  pub run-Synced :
      (ks : List Call) (identity fd : ℕ) (p : Poller os) {s : Channel × Poller os}
      → os.interest p.kernel fd ≡ none
      → run ks (new_channel identity fd, p) ≡ some s
      → Synced (length p.reports) s
  unfolding new_channel
  run-Synced ks identity fd p h e =
      subst (AllSynced (length p.reports)) e
        (run-AllSynced (length p.reports) ks (new_channel identity fd, p) (omega arith, h))
