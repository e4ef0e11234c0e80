-- ===== src/TimerQueue/Expire.antt =====
-- The loop of `TimerQueue::getExpired`.
use cc_learning.Base.{
  false, ℕ, zero, suc, ◌≤◌, ◌<◌, ◌≡◌, refl, ◌∙◌, arith, Bool, true, not, List, [], ◌∷◌, ◌++◌, leb,
  length, leb→le, if_elim, Bool-cases, inl, inr, bit, count, All, All-map, SameItems,
}
use cc_learning.Base.Heap.{Heap}
use cc_learning.TimerQueue.{later, Timer, erase_active, expired_loop}

pub count-true {ℓ} : {A : Type ℓ} (xs : List A) → count (λ x. true) xs ≡ length xs
count-true [] = refl
count-true (x ∷ xs) = omega (arith, count-true xs)

-- A test that all of a list pass, all of a list with the same items pass.
pub count-not {ℓ} :
    {A : Type ℓ} (p : A → Bool) (xs : List A)
    → All (λ x. p x ≡ true) xs
    → count (λ x. not (p x)) xs ≡ 0
count-not p [] h = refl
count-not p (x ∷ xs) h = rw (h.0, count-not p xs h.1) refl

pub All-count {ℓ} :
    {A : Type ℓ} (p : A → Bool) (xs : List A)
    → count (λ x. not (p x)) xs ≡ 0
    → All (λ x. p x ≡ true) xs
All-count p [] h = tt
All-count p (x ∷ xs) h = elim (Bool-cases (p x)) [
  | inl e ↦ (e, All-count p xs (omega (arith, h)))
  | inr e ↦ absurd (let k : bit (not (p x)) ≡ 1 = rw e refl in omega (arith, h, k))
]

pub All-SameItems {ℓ} :
    {A : Type ℓ} (p : A → Bool) (xs ys : List A)
    → SameItems xs ys
    → All (λ x. p x ≡ true) ys
    → All (λ x. p x ≡ true) xs
All-SameItems p xs ys s h = All-count p xs (s (λ x. not (p x)) ∙ count-not p ys h)

pub length-SameItems {ℓ} : {A : Type ℓ} (xs ys : List A) → SameItems xs ys → length xs ≡ length ys
length-SameItems xs ys s = omega (arith, s (λ x. true), count-true xs, count-true ys)

after_now : (now : ℕ) (t u : Timer) → now < t.expiration → later t u ≡ false → now < u.expiration
after_now now t u l k = ground arith

module _ (heap : Heap later) where
  -- The timers are parted at this time, and the second part is a heap.
  abbrev pub IsParted : ℕ → List Timer → List Timer × List Timer × List ℕ → Type 0
  IsParted now ts (expired, rest, still) =
      All (λ t. t.expiration ≤ now) expired
      × All (λ t. now < t.expiration) rest
      × SameItems (expired ++ rest) ts
      × heap.IsHeap rest

  -- With fuel for all timers, the loop takes the timers whose time has come and leaves those whose time
  -- has not; together they are the timers there were, and what is left is a heap.
  pub expired_loop_lem :
      (n now : ℕ) (ts : List Timer) (active : List ℕ)
      → heap.IsHeap ts
      → length ts ≤ n
      → IsParted now ts (expired_loop heap n now ts active)
  unfolding expired_loop
  expired_loop_lem zero now [] active o h = (tt, tt, λ p. refl, o)
  expired_loop_lem zero now (t ∷ ts) active o h = absurd (omega (arith, h))
  expired_loop_lem (suc n) now [] active o h = (tt, tt, λ p. refl, o)
  expired_loop_lem (suc n) now (t ∷ ts) active o h =
      let us : List Timer = heap.pop_rest t ts in
      let same : SameItems us ts = heap.pop_rest_items t ts in
      let r : IsParted now us (expired_loop heap n now us (erase_active t.identity active)) =
        expired_loop_lem n now us (erase_active t.identity active) (heap.pop_rest-IsHeap t ts o)
          (omega (arith, length-SameItems us ts same, h)) in
      if_elim (IsParted now (t ∷ ts)) (leb t.expiration now)
        (λ e. ((leb→le t.expiration now e, r.0), r.1, λ p. omega (arith, r.2 p, same p), r.3))
        (λ e.
          let l : now < t.expiration = ground arith in
          (
            tt,
            (l, All-map (λ u k. after_now now t u l k) ts (heap.front_greatest t ts o)),
            λ p. refl,
            o,
          ))
