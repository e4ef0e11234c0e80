-- ===== src/Base/Words.antt =====
-- `size_t` arithmetic, and copying into arrays.
use Prim.Native.Nat.{ℕ, zero, suc, ◌+◌, ◌-◌, ◌%◌, ◌^◌, ◌≤◌, min}
use mathlib.Core.Path.{◌≡◌, refl, ap, sym, ◌∙◌}
use mathlib.Core.List.{List, [], ◌∷◌, ◌++◌}
use native.Mathlib.Omega.{arith}
use native.Mathlib.Decide.{dec_le}
use cc_learning.Base.Lists.{length, take, drop, replicate}

abbrev pub size_mod : ℕ
size_mod = 2 ^ 64

-- `size_t` sums and differences wrap.
abbrev pub add_size : ℕ → ℕ → ℕ
add_size a b = (a + b) % size_mod

abbrev pub sub_size : ℕ → ℕ → ℕ
sub_size a b = (a + size_mod - b) % size_mod

module _ {ℓ} {A : Type ℓ} where
  -- `std::copy` to the start of an array; what does not fit is not written.
  abbrev pub overlay : List A → List A → List A
  overlay [] ys = ys
  overlay (s ∷ ss) [] = []
  overlay (s ∷ ss) (y ∷ ys) = s ∷ overlay ss ys

  -- `std::copy` to position `i`.
  abbrev pub write_at : ℕ → List A → List A → List A
  write_at zero src xs = overlay src xs
  write_at (suc i) src [] = []
  write_at (suc i) src (x ∷ xs) = x ∷ write_at i src xs

  -- `n` elements from position `i` on.
  abbrev pub slice : ℕ → ℕ → List A → List A
  slice i n xs = take n (drop i xs)

  -- `std::vector::resize`, new elements being `a`.
  abbrev pub resize : ℕ → A → List A → List A
  resize n a xs = take n xs ++ replicate (n - length xs) a

  pub length-overlay : (src xs : List A) → length (overlay src xs) ≡ length xs
  length-overlay [] xs = refl
  length-overlay (s ∷ ss) [] = refl
  length-overlay (s ∷ ss) (x ∷ xs) = ap suc (length-overlay ss xs)

  pub length-write_at : (i : ℕ) (src xs : List A) → length (write_at i src xs) ≡ length xs
  length-write_at zero src xs = length-overlay src xs
  length-write_at (suc i) src [] = refl
  length-write_at (suc i) src (x ∷ xs) = ap suc (length-write_at i src xs)

  take-overlay :
      (m : ℕ) (src xs : List A) → m ≡ length src → m ≤ length xs → take m (overlay src xs) ≡ src
  take-overlay zero [] xs e h = refl
  take-overlay zero (s ∷ ss) xs e h = absurd (omega arith)
  take-overlay (suc m) [] xs e h = absurd (omega arith)
  take-overlay (suc m) (s ∷ ss) [] e h = absurd (omega arith)
  take-overlay (suc m) (s ∷ ss) (x ∷ xs) e h =
      ap (◌∷◌ s) (take-overlay m ss xs (omega arith) (omega arith))

  take-write_at :
      (n m : ℕ) (src xs : List A)
      → m ≡ n + length src
      → m ≤ length xs
      → take m (write_at n src xs) ≡ take n xs ++ src
  take-write_at zero m src xs e h = take-overlay m src xs (omega arith) h
  take-write_at (suc n) zero src xs e h = absurd (omega arith)
  take-write_at (suc n) (suc m) src [] e h = absurd (omega arith)
  take-write_at (suc n) (suc m) src (x ∷ xs) e h =
      ap (◌∷◌ x) (take-write_at n m src xs (omega arith) (omega arith))

  take_cong : (xs src : List A) (n m : ℕ) → n ≡ m → take n xs ++ src ≡ take m xs ++ src
  take_cong xs src n m e = ap (λ k. take k xs ++ src) e

  -- Writing just behind a slice extends it.
  pub slice-write_at :
      (i j n m : ℕ) (src xs : List A)
      → j ≡ i + n
      → m ≡ n + length src
      → i + m ≤ length xs
      → slice i m (write_at j src xs) ≡ slice i n xs ++ src
  slice-write_at zero zero n m src xs ej em h =
      take-write_at zero m src xs (omega arith) (omega arith) ∙ take_cong xs src 0 n (omega arith)
  slice-write_at zero (suc j) zero m src xs ej em h = absurd (omega arith)
  slice-write_at zero (suc j) (suc n) m src xs ej em h =
      take-write_at (suc j) m src xs (omega arith) (omega arith)
      ∙ take_cong xs src (suc j) (suc n) (omega arith)
  slice-write_at (suc i) zero n m src xs ej em h = absurd (omega arith)
  slice-write_at (suc i) (suc j) n m src [] ej em h = absurd (omega arith)
  slice-write_at (suc i) (suc j) n m src (x ∷ xs) ej em h =
      slice-write_at i j n m src xs (omega arith) em (omega arith)

  take-append : (n : ℕ) (xs ys : List A) → n ≤ length xs → take n (xs ++ ys) ≡ take n xs
  take-append zero xs ys h = refl
  take-append (suc n) [] ys h = absurd (omega arith)
  take-append (suc n) (x ∷ xs) ys h = ap (◌∷◌ x) (take-append n xs ys (omega arith))

  -- A slice does not see what is appended behind it.
  pub slice-append :
      (i n : ℕ) (xs ys : List A) → i + n ≤ length xs → slice i n (xs ++ ys) ≡ slice i n xs
  slice-append zero n xs ys h = take-append n xs ys (omega arith)
  slice-append (suc i) n [] ys h = absurd (omega arith)
  slice-append (suc i) n (x ∷ xs) ys h = slice-append i n xs ys (omega arith)

  pub take_all : (n : ℕ) (xs : List A) → length xs ≤ n → take n xs ≡ xs
  take_all zero [] h = refl
  take_all zero (x ∷ xs) h = absurd (omega arith)
  take_all (suc n) [] h = refl
  take_all (suc n) (x ∷ xs) h = ap (◌∷◌ x) (take_all n xs (omega arith))

  pub length-slice : (i n : ℕ) (xs : List A) → i + n ≤ length xs → length (slice i n xs) ≡ n
  length-slice zero zero xs h = refl
  length-slice zero (suc n) [] h = absurd (omega arith)
  length-slice zero (suc n) (x ∷ xs) h = ap suc (length-slice zero n xs (omega arith))
  length-slice (suc i) n [] h = absurd (omega arith)
  length-slice (suc i) n (x ∷ xs) h = length-slice i n xs (omega arith)

  -- Dropping from the front of a slice moves its start.
  pub drop-slice :
      (k i j n m : ℕ) (xs : List A) → j ≡ i + k → n ≡ m + k → drop k (slice i n xs) ≡ slice j m xs
  drop-slice k (suc i) zero n m xs ej en = absurd (omega arith)
  drop-slice zero (suc i) (suc j) n m [] ej en = drop-take-nil n m
    where
      drop-take-nil : (n m : ℕ) → take {A = A} n [] ≡ take m []
      drop-take-nil zero zero = refl
      drop-take-nil zero (suc m) = refl
      drop-take-nil (suc n) zero = refl
      drop-take-nil (suc n) (suc m) = refl
  drop-slice (suc k) (suc i) (suc j) zero m [] ej en = absurd (omega arith)
  drop-slice (suc k) (suc i) (suc j) (suc n) zero [] ej en = refl
  drop-slice (suc k) (suc i) (suc j) (suc n) (suc m) [] ej en = refl
  drop-slice k (suc i) (suc j) n m (x ∷ xs) ej en =
      drop-slice k i j n m xs (omega arith) (omega arith)
  drop-slice zero zero zero n m xs ej en = ap (λ k. take k xs) (omega arith)
  drop-slice zero zero (suc j) n m xs ej en = absurd (omega arith)
  drop-slice (suc k) zero zero n m xs ej en = absurd (omega arith)
  drop-slice (suc k) zero (suc j) zero m xs ej en = absurd (omega arith)
  drop-slice (suc k) zero (suc j) (suc n) zero [] ej en = refl
  drop-slice (suc k) zero (suc j) (suc n) (suc m) [] ej en = refl
  drop-slice (suc k) zero (suc j) (suc n) m (x ∷ xs) ej en =
      drop-slice k zero j n m xs (omega arith) (omega arith)

  pub take-slice : (k i n : ℕ) (xs : List A) → k ≤ n → take k (slice i n xs) ≡ slice i k xs
  take-slice k i n xs h = go k n (drop i xs) h
    where
      go : (k n : ℕ) (ys : List A) → k ≤ n → take k (take n ys) ≡ take k ys
      go zero n ys h = refl
      go (suc k) zero ys h = absurd (omega arith)
      go (suc k) (suc n) [] h = refl
      go (suc k) (suc n) (y ∷ ys) h = ap (◌∷◌ y) (go k n ys (omega arith))

  pub resize-grow :
      (n : ℕ) (a : A) (xs : List A)
      → length xs ≤ n
      → resize n a xs ≡ xs ++ replicate (n - length xs) a
  resize-grow n a xs h = ap (λ ys. ys ++ replicate (n - length xs) a) (take_all n xs h)

  pub drop_all : (n : ℕ) (xs : List A) → length xs ≤ n → drop n xs ≡ []
  drop_all zero [] h = refl
  drop_all zero (x ∷ xs) h = absurd (omega arith)
  drop_all (suc n) [] h = refl
  drop_all (suc n) (x ∷ xs) h = drop_all n xs (omega arith)

  pub take-min : (n m : ℕ) (xs : List A) → m ≡ length xs → take (min n m) xs ≡ take n xs
  take-min n m xs e = elim (dec_le n m) [
    | yes h ↦ ap (λ k. take k xs) (omega arith)
    | no h ↦
        ap (λ k. take k xs) (let f : min n m ≡ m = omega arith in f)
        ∙ take_all m xs (omega arith)
        ∙ sym (take_all n xs (omega arith))
  ]

  pub drop-min : (n m : ℕ) (xs : List A) → m ≡ length xs → drop (min n m) xs ≡ drop n xs
  drop-min n m xs e = elim (dec_le n m) [
    | yes h ↦ ap (λ k. drop k xs) (omega arith)
    | no h ↦
        ap (λ k. drop k xs) (let f : min n m ≡ m = omega arith in f)
        ∙ drop_all m xs (omega arith)
        ∙ sym (drop_all n xs (omega arith))
  ]

  -- Splitting where two lists were joined.
  pub take-append_length : (n : ℕ) (xs ys : List A) → n ≡ length xs → take n (xs ++ ys) ≡ xs
  take-append_length zero [] ys e = refl
  take-append_length zero (x ∷ xs) ys e = absurd (omega arith)
  take-append_length (suc n) [] ys e = absurd (omega arith)
  take-append_length (suc n) (x ∷ xs) ys e = ap (◌∷◌ x) (take-append_length n xs ys (omega arith))

  pub drop-append_length : (n : ℕ) (xs ys : List A) → n ≡ length xs → drop n (xs ++ ys) ≡ ys
  drop-append_length zero [] ys e = refl
  drop-append_length zero (x ∷ xs) ys e = absurd (omega arith)
  drop-append_length (suc n) [] ys e = absurd (omega arith)
  drop-append_length (suc n) (x ∷ xs) ys e = drop-append_length n xs ys (omega arith)

  pub drop-append_more : (n : ℕ) (xs ys : List A) → drop (length xs + n) (xs ++ ys) ≡ drop n ys
  drop-append_more n [] ys = let e : 0 + n ≡ n = omega arith in ap (λ k. drop k ys) e
  drop-append_more n (x ∷ xs) ys =
      let e : length (x ∷ xs) + n ≡ suc (length xs + n) = omega arith in
      ap (λ k. drop k (x ∷ xs ++ ys)) e ∙ drop-append_more n xs ys
