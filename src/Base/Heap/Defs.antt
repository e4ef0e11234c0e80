-- ===== src/Base/Heap/Defs.antt =====
-- The interface of a binary heap; `less x y` says that `x` comes behind `y`, so that nothing in the heap
-- comes before the front.
use mathlib.Core.Path.{◌≡◌}
use mathlib.Core.Bool.{Bool, false}
use mathlib.Core.List.{List, [], ◌∷◌}
use cc_learning.Base.Count.{All, SameItems}

pub record Heap {ℓ} {A : Type ℓ} (less : A → A → Bool) : Type (ℓ + 1) where
  pub IsHeap : List A → Type ℓ
  -- `push_back` and `push_heap`
  pub push : List A → A → List A
  -- `pop_heap` and `pop_back`: what is left when the front is taken off
  pub pop_rest : A → List A → List A
  pub make : List A → List A
  pub nil-IsHeap : IsHeap []
  pub front_greatest : (x : A) (xs : List A) → IsHeap (x ∷ xs) → All (λ y. less x y ≡ false) xs
  pub push-IsHeap : (xs : List A) (a : A) → IsHeap xs → IsHeap (push xs a)
  pub push_items : (xs : List A) (a : A) → SameItems (push xs a) (a ∷ xs)
  pub pop_rest-IsHeap : (x : A) (xs : List A) → IsHeap (x ∷ xs) → IsHeap (pop_rest x xs)
  pub pop_rest_items : (x : A) (xs : List A) → SameItems (pop_rest x xs) xs
  pub make-IsHeap : (xs : List A) → IsHeap (make xs)
  pub make_items : (xs : List A) → SameItems (make xs) xs
