-- ===== src/Base/Search.antt =====
-- Where a needle is found: behind a text in which its first byte does not occur.
use Prim.Native.Nat.{ℕ, ◌+◌}
use mathlib.Core.Bool.{true, false}
use mathlib.Core.Path.{◌≡◌, refl, ap, ◌∙◌}
use mathlib.Core.List.{[], ◌∷◌, ◌++◌}
use mathlib.Core.Option.{none, some}
use native.Mathlib.Omega.{arith}
use cc_learning.Base.Tests.{◌==◌}
use cc_learning.Base.Lists.{length}
use cc_learning.Base.Count.{All}
use cc_learning.Base.Text.{Bytes, has_prefix, find_sub}

-- The byte does not occur.
abbrev pub Lacks : ℕ → Bytes → Type 0
Lacks p d = All (λ c. (p == c) ≡ false) d

pub has_prefix-append : (needle rest : Bytes) → has_prefix needle (needle ++ rest) ≡ true
unfolding has_prefix
has_prefix-append [] rest = refl
has_prefix-append (p ∷ ps) rest = ground (arith, has_prefix-append ps rest)

pub find_sub-append :
    (p : ℕ) (ps xs rest : Bytes)
    → Lacks p xs
    → find_sub (p ∷ ps) (xs ++ (p ∷ (ps ++ rest))) ≡ some (length xs)
unfolding find_sub
find_sub-append p ps [] rest h = rw (has_prefix-append (p ∷ ps) rest) refl
find_sub-append p ps (x ∷ xs) rest h =
    rw (find_sub, has_prefix, h.0, find_sub-append p ps xs rest h.1) refl

pub find_sub-none : (p : ℕ) (ps xs : Bytes) → Lacks p xs → find_sub (p ∷ ps) xs ≡ none
unfolding find_sub has_prefix
find_sub-none p ps [] h = refl
find_sub-none p ps (x ∷ xs) h = rw (find_sub, has_prefix, h.0, find_sub-none p ps xs h.1) refl

pub find_sub-behind :
    (p : ℕ) (ps xs ys : Bytes) (j : ℕ)
    → Lacks p xs
    → find_sub (p ∷ ps) ys ≡ some j
    → find_sub (p ∷ ps) (xs ++ ys) ≡ some (length xs + j)
unfolding find_sub
find_sub-behind p ps [] ys j h e = let z : j ≡ 0 + j = omega arith in e ∙ ap some z
find_sub-behind p ps (x ∷ xs) ys j h e =
    rw (find_sub, has_prefix, h.0, find_sub-behind p ps xs ys j h.1 e) (ap some (omega arith))
