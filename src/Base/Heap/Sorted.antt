-- ===== src/Base/Heap/Sorted.antt =====
-- A heap that keeps its list sorted, so that the interface can be met and programs over it can run.
use Prim.Native.Nat.{ℕ, ◌≤◌}
use mathlib.Core.Path.{refl, ◌≡◌}
use mathlib.Core.Bool.{false}
use mathlib.Core.List.{List, [], ◌∷◌}
use mathlib.Core.Logic.{inl, inr}
use native.Mathlib.Omega.{arith}
use cc_learning.Base.Tests.{leb, ltb, if◌then◌else◌, Bool-cases}
use cc_learning.Base.Count.{All, All-map, SameItems}
use cc_learning.Base.Heap.Defs.{Heap}

module _ {ℓ} {A : Type ℓ} (key : A → ℕ) where
  not_less : (y x : A) → key x ≤ key y → ltb (key y) (key x) ≡ false
  not_less y x k = ground arith

  insert : A → List A → List A
  insert a [] = a ∷ []
  insert a (x ∷ xs) = if leb (key a) (key x) then a ∷ x ∷ xs else x ∷ insert a xs

  sort : List A → List A
  unfolding insert
  sort [] = []
  sort (x ∷ xs) = insert x (sort xs)

  abbrev IsSorted : List A → Type ℓ
  IsSorted [] = Unit
  IsSorted (x ∷ xs) = All (λ y. key x ≤ key y) xs × IsSorted xs

  insert_items : (a : A) (xs : List A) → SameItems (insert a xs) (a ∷ xs)
  unfolding insert
  insert_items a [] p = refl
  insert_items a (x ∷ xs) p = ground (arith, insert_items a xs p)

  All-insert {κ} : (P : A → Type κ) (a : A) (xs : List A) → P a → All P xs → All P (insert a xs)
  unfolding insert
  All-insert P a [] h k = (h, tt)
  All-insert P a (x ∷ xs) h k = ground (arith, All-insert P a xs h k.1)

  below_all :
      (a x : A) (xs : List A)
      → key a ≤ key x
      → All (λ y. key x ≤ key y) xs
      → All (λ y. key a ≤ key y) xs
  below_all a x xs l h = All-map (λ y q. omega arith) xs h

  insert-IsSorted : (a : A) (xs : List A) → IsSorted xs → IsSorted (insert a xs)
  unfolding insert
  insert-IsSorted a [] h = (tt, tt)
  insert-IsSorted a (x ∷ xs) h = elim (Bool-cases (leb (key a) (key x))) [
    | inl e ↦ let l : key a ≤ key x = ground arith in rw e ((l, below_all a x xs l h.0), h)
    | inr e ↦
        let l : key x ≤ key a = ground arith in
        rw e (All-insert (λ y. key x ≤ key y) a xs l h.0, insert-IsSorted a xs h.1)
  ]

  sort-IsSorted : (xs : List A) → IsSorted (sort xs)
  unfolding sort
  sort-IsSorted [] = tt
  sort-IsSorted (x ∷ xs) = insert-IsSorted x (sort xs) (sort-IsSorted xs)

  sort_items : (xs : List A) → SameItems (sort xs) xs
  unfolding sort
  sort_items [] p = refl
  sort_items (x ∷ xs) p = omega (arith, insert_items x (sort xs) p, sort_items xs p)

  unfoldable pub sorted_heap : Heap (λ a b. ltb (key b) (key a))
  unfolding not_less insert sort below_all All-insert insert-IsSorted insert_items sort-IsSorted
      sort_items
  sorted_heap = record {
    IsHeap = IsSorted;
    push = λ xs a. insert a xs;
    pop_rest = λ x xs. xs;
    make = sort;
    nil-IsHeap = tt;
    front_greatest = λ x xs h. All-map (λ y k. not_less y x k) xs h.0;
    push-IsHeap = λ xs a h. insert-IsSorted a xs h;
    push_items = λ xs a. insert_items a xs;
    pop_rest-IsHeap = λ x xs h. h.1;
    pop_rest_items = λ x xs p. refl;
    make-IsHeap = sort-IsSorted;
    make_items = sort_items;
  }
