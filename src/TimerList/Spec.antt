-- ===== src/TimerList/Spec.antt =====
-- What the calls of timer/timer.cc do to the list of timers, in its order.
use cc_learning.Base.{
  ℕ, ◌⊎◌, ◌≤◌, ◌<◌, ◌≡◌, ◌≢◌, ◌∙◌, sym, ap, refl, arith, Bool, true, false, ◌&&◌, List, [], ◌∷◌,
  ◌++◌, Option, none, some, inl, inr, ltb, leb, leb→le, suc, length, length-append, ◌==◌,
  Bool-cases, if_elim, if◌then◌else◌, All, All-map,
}
use cc_learning.TimerList.Links.{Entry, IsOutside}
use cc_learning.TimerList.Insert.{insert, length-insert, All-insert}
use cc_learning.TimerList.Unlink.{All-remove, All-restore}

-- No timer expires later than one behind it.
abbrev pub IsSorted : List Entry → Type 0
IsSorted [] = Unit
IsSorted (c ∷ cs) = All (λ d. c.expire ≤ d.expire) cs × IsSorted cs

-- The timers before, at and behind an address.
unfoldable pub split : ℕ → List Entry → Option (List Entry × Entry × List Entry)
split a [] = none
split a (c ∷ cs) =
    let rest = split a cs in
    if c.at == a
    then some ([], c, cs)
    else elim rest [ none ↦ none | some (front, t, back) ↦ some (c ∷ front, t, back) ]

unfoldable pub is_before : Entry → List Entry → Bool
is_before t [] = true
is_before t (c ∷ cs) = leb t.expire c.expire

unfoldable pub is_behind : List Entry → Entry → Bool
is_behind [] t = true
is_behind (c ∷ []) t = leb c.expire t.expire
is_behind (c ∷ d ∷ cs) t = is_behind (d ∷ cs) t

-- A timer with a new expiry stays where it is if its neighbours allow it.
unfoldable pub readjust : List Entry → Entry → List Entry → List Entry
unfolding is_before is_behind insert
readjust front t back =
    if is_before t back && is_behind front t then front ++ (t ∷ back) else insert t (front ++ back)

unfoldable pub lacks : ℕ → List Entry → Bool
lacks a [] = true
lacks a (c ∷ cs) = if c.at == a then false else lacks a cs

unfoldable pub expired : ℕ → List Entry → List Entry
expired cur [] = []
expired cur (c ∷ cs) = let rest = expired cur cs in if leb c.expire cur then c ∷ rest else []

unfoldable pub unexpired : ℕ → List Entry → List Entry
unexpired cur [] = []
unexpired cur (c ∷ cs) = let rest = unexpired cur cs in if leb c.expire cur then rest else c ∷ cs

pub IsSorted-insert : (t : Entry) (cs : List Entry) → IsSorted cs → IsSorted (insert t cs)
unfolding insert
IsSorted-insert t [] s = (tt, tt)
IsSorted-insert t (c ∷ cs) s =
    if_elim IsSorted (ltb t.expire c.expire)
      (λ e.
        let l : t.expire ≤ c.expire = ground arith in
        ((l, All-map (λ d k. omega (arith, k, l)) cs s.0), s))
      (λ e.
        let l : c.expire ≤ t.expire = ground arith in
        (All-insert (λ d. c.expire ≤ d.expire) t cs (l, s.0), IsSorted-insert t cs s.1))

pub IsSorted-remove :
    (t : Entry) (front back : List Entry)
    → IsSorted (front ++ (t ∷ back))
    → IsSorted (front ++ back)
IsSorted-remove t [] back s = s.1
IsSorted-remove t (c ∷ cs) back s =
    ((All-remove (λ d. c.expire ≤ d.expire) t cs back s.0).1, IsSorted-remove t cs back s.1)

-- Between its neighbours a timer is in order.
pub IsSorted-between :
    (t : Entry) (front back : List Entry)
    → IsSorted (front ++ back)
    → is_before t back ≡ true
    → is_behind front t ≡ true
    → IsSorted (front ++ (t ∷ back))
unfolding is_before is_behind
IsSorted-between t [] [] s e k = (tt, tt)
IsSorted-between t [] (c ∷ cs) s e k =
    let l : t.expire ≤ c.expire = leb→le t.expire c.expire e in
    ((l, All-map (λ d k. omega (arith, k, l)) cs s.0), s)
IsSorted-between t (c ∷ []) back s e k =
    ((leb→le c.expire t.expire k, s.0), IsSorted-between t [] back s.1 e refl)
IsSorted-between t (c ∷ d ∷ cs) back s e k =
    let r : IsSorted (d ∷ (cs ++ (t ∷ back))) = IsSorted-between t (d ∷ cs) back s.1 e k in
    let l : d.expire ≤ t.expire = (All-remove (λ x. d.expire ≤ x.expire) t cs back r.0).0 in
    ((s.0.0, All-restore (λ x. c.expire ≤ x.expire) t cs back (omega (arith, l, s.0.0), s.0.1)), r)

pub length-readjust :
    (t : Entry) (front back : List Entry)
    → length (readjust front t back) ≡ suc (length (front ++ back))
unfolding readjust
length-readjust t front back =
    if_elim (λ (l : List Entry). length l ≡ suc (length (front ++ back)))
      (is_before t back && is_behind front t)
      (λ e. omega (arith, length-append front (t ∷ back), length-append front back))
      (λ e. length-insert t (front ++ back))

pub IsSorted-readjust :
    (t : Entry) (front back : List Entry)
    → IsSorted (front ++ back)
    → IsSorted (readjust front t back)
unfolding readjust
IsSorted-readjust t front back s =
    if_elim IsSorted (is_before t back && is_behind front t)
      (λ e. IsSorted-between t front back s (ground (arith, e)) (ground (arith, e)))
      (λ e. IsSorted-insert t (front ++ back) s)

pub IsSorted-unexpired : (cur : ℕ) (cs : List Entry) → IsSorted cs → IsSorted (unexpired cur cs)
unfolding unexpired
IsSorted-unexpired cur [] s = tt
IsSorted-unexpired cur (c ∷ cs) s =
    if_elim IsSorted (leb c.expire cur) (λ e. IsSorted-unexpired cur cs s.1) (λ e. s)

pub length-unexpired : (cur : ℕ) (cs : List Entry) → length (unexpired cur cs) ≤ length cs
unfolding unexpired
length-unexpired cur [] = omega arith
length-unexpired cur (c ∷ cs) =
    if_elim (λ (l : List Entry). length l ≤ suc (length cs)) (leb c.expire cur)
      (λ e. omega (arith, length-unexpired cur cs)) (λ e. omega arith)

-- On a sorted list the first timer that has not expired ends the expired ones.
pub expired_lem :
    (cur : ℕ) (cs : List Entry)
    → All (λ c. c.expire ≤ cur) (expired cur cs) × (expired cur cs ++ unexpired cur cs ≡ cs)
unfolding expired unexpired
expired_lem cur [] = (tt, refl)
expired_lem cur (c ∷ cs) =
    let r = expired_lem cur cs in
    elim (Bool-cases (leb c.expire cur)) [
      | inl e ↦ (rw e (leb→le c.expire cur e, r.0), rw e (ap (λ l. c ∷ l) r.1))
      | inr e ↦ (rw e tt, rw e refl)
    ]

pub unexpired_lem :
    (cur : ℕ) (cs : List Entry) → IsSorted cs → All (λ c. cur < c.expire) (unexpired cur cs)
unfolding unexpired
unexpired_lem cur [] s = tt
unexpired_lem cur (c ∷ cs) s =
    if_elim (All (λ c. cur < c.expire)) (leb c.expire cur) (λ e. unexpired_lem cur cs s.1)
      (λ e.
        let l : cur < c.expire = ground arith in (l, All-map (λ d k. omega (arith, k, l)) cs s.0))

pub lacks-IsOutside : (a : ℕ) (cs : List Entry) → lacks a cs ≡ true → IsOutside a cs
unfolding lacks
lacks-IsOutside a [] e = tt
lacks-IsOutside a (c ∷ cs) e = elim (Bool-cases (c.at == a)) [
  | inl k ↦ absurd (let z : false ≡ true = sym (rw k refl) ∙ e in let q : ⊥ = cc in q)
  | inr k ↦ ((let ne : c.at ≢ a = ground arith in ne), lacks-IsOutside a cs (sym (rw k refl) ∙ e))
]

-- A timer found by its address.
pub record Found (a : ℕ) (cs : List Entry) : Type 0 where
  pub front : List Entry
  pub timer : Entry
  pub back : List Entry
  pub found : split a cs ≡ some (front, timer, back)
  pub parts : cs ≡ front ++ (timer ∷ back)
  pub address : timer.at ≡ a

pub split-cases : (a : ℕ) (cs : List Entry) → (split a cs ≡ none) ⊎ Found a cs
unfolding split
split-cases a [] = inl refl
split-cases a (c ∷ cs) = elim (Bool-cases (c.at == a)) [
  | inl e ↦ inr (record {
    front = [];
    timer = c;
    back = cs;
    found = rw e refl;
    parts = refl;
    address = ground arith;
  })
  | inr e ↦ elim (split-cases a cs) [
    | inl k ↦ inl (rw (e, k) refl)
    | inr f ↦ inr (record {
      front = c ∷ f.front;
      timer = f.timer;
      back = f.back;
      found = rw (e, f.found) refl;
      parts = ap (λ l. c ∷ l) f.parts;
      address = f.address;
    })
  ]
]
