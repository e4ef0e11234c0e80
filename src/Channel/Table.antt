-- ===== src/Channel/Table.antt =====
-- An epoll instance that is a table of descriptors, so that the interface can be met.
use cc_learning.Base.{
  ℕ, ◌≡◌, ◌≢◌, refl, Option, none, some, ◌==◌, ==_iff, if◌then◌else◌, Bool, true, false, Bool-cases,
  inl, inr,
}
use cc_learning.Channel.{Epoll, Events, Operation, add, modify, delete}

abbrev Table : Type 0
Table = ℕ → Option Events

put : ℕ → Option Events → Table → Table
put fd o t g = if fd == g then o else t g

put_self : (fd : ℕ) (o : Option Events) (t : Table) → put fd o t fd ≡ o
unfolding put
put_self fd o t = rw ((==_iff fd fd).1 refl) refl

put_ne : (fd other : ℕ) (o : Option Events) (t : Table) → fd ≢ other → put fd o t other ≡ t other
unfolding put
put_ne fd other o t n = elim (Bool-cases (fd == other)) [
  | inl e ↦ absurd (n ((==_iff fd other).0 e))
  | inr e ↦ rw e refl
]

-- `add` fails on a descriptor that is there, `modify` on one that is not.
control : Operation → ℕ → Events → Table → Table
unfolding put
control add fd e t = elim (t fd) [ none ↦ put fd (some e) t | some x ↦ t ]
control modify fd e t = elim (t fd) [ none ↦ t | some x ↦ put fd (some e) t ]
control delete fd e t = put fd none t

-- A table that is never out of memory.
refuse : Operation → ℕ → Events → Table → Bool
refuse add fd e t = elim (t fd) [ none ↦ false | some x ↦ true ]
refuse modify fd e t = elim (t fd) [ none ↦ true | some x ↦ false ]
refuse delete fd e t = false

control_other :
    (t : Table) (op : Operation) (fd other : ℕ) (e : Events)
    → fd ≢ other
    → control op fd e t other ≡ t other
unfolding control
control_other t add fd other e n = by_entry (t fd)
  where
    by_entry :
        (o : Option Events)
        → (elim o as (λ x. Table) [ none ↦ put fd (some e) t | some x ↦ t ]) other ≡ t other
    by_entry none = put_ne fd other (some e) t n
    by_entry (some x) = refl
control_other t modify fd other e n = by_entry (t fd)
  where
    by_entry :
        (o : Option Events)
        → (elim o as (λ x. Table) [ none ↦ t | some x ↦ put fd (some e) t ]) other ≡ t other
    by_entry none = refl
    by_entry (some x) = put_ne fd other (some e) t n
control_other t delete fd other e n = put_ne fd other none t n

unfoldable pub table : Epoll
unfolding put control refuse put_self put_ne control_other
table = record {
  Kernel = Table;
  ctl = control;
  refuses = refuse;
  interest = λ t fd. t fd;
  add_new = λ t fd e h r. rw (control, h) (put_self fd (some e) t);
  modify_old = λ t fd e e' h r. rw (control, h) (put_self fd (some e) t);
  delete_any = λ t fd e. put_self fd none t;
  ctl_other = control_other;
}
