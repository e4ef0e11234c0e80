-- ===== src/MemoryPool/Free.antt =====
-- The blocks that pool/pool.c has cut off its arena, and the list of the free ones among them.
use native.Mathlib.Nat.{mul-le-mul_right}
use cc_learning.Base.{
  ℕ, zero, suc, ◌+◌, ◌*◌, ◌≤◌, ◌<◌, ◌≡◌, ◌≢◌, inl, inr, refl, sym, ap, ◌∙◌, arith, true, List, [],
  ◌∷◌, Option, none, some, ◌==◌, get_elem?, length, subst, ltb, ltb→lt, ◌⊎◌, bit, count, Bool-cases,
}
use cc_learning.MemoryPool.{Memory, read_link, owns, give_up}

-- The list that the links spell out from `o` on.
abbrev pub IsFreeList : Memory → Option ℕ → List ℕ → Type 0
IsFreeList mem o [] = o ≡ none
IsFreeList mem o (a ∷ fs) = (o ≡ some a) × IsFreeList mem (read_link a mem) fs

abbrev pub times : ℕ → List ℕ → ℕ
times a bs = count (λ b. b == a) bs

-- A memory that has the same links at the blocks of the list has the same list.
pub IsFreeList-same :
    (mem mem' : Memory) (o : Option ℕ) (fs : List ℕ)
    → ((a : ℕ) → 1 ≤ times a fs → read_link a mem' ≡ read_link a mem)
    → IsFreeList mem o fs
    → IsFreeList mem' o fs
IsFreeList-same mem mem' o [] h l = l
IsFreeList-same mem mem' o (b ∷ bs) h l =
    let one : bit (b == b) ≡ 1 = ground arith in
    (
      l.0,
      subst (λ x. IsFreeList mem' x bs) (sym (h b (omega (arith, one))))
          (IsFreeList-same mem mem' (read_link b mem) bs (λ a k. h a (omega (arith, k))) l.1),
    )

-- A client's block is in its list, and leaves it once.
pub times-owns : (a : ℕ) (bs : List ℕ) → owns a bs ≡ true → 1 ≤ times a bs
unfolding owns
times-owns a [] e = absurd (let z : ⊥ = cc in z)
times-owns a (b ∷ bs) e = elim (Bool-cases (b == a)) [
  | inl k ↦ rw k (omega arith)
  | inr k ↦
      let r = times-owns a bs (let q : owns a bs ≡ true = sym (rw k refl) ∙ e in q) in
      omega (arith, r)
]

pub times-give_up :
    (a i : ℕ) (bs : List ℕ) → owns a bs ≡ true → times i (give_up a bs) + bit (a == i) ≡ times i bs
unfolding owns give_up
times-give_up a i [] e = absurd (let z : ⊥ = cc in z)
times-give_up a i (b ∷ bs) e = elim (Bool-cases (b == a)) [
  | inl k ↦ let q : b ≡ a = ground arith in rw k (ground arith)
  | inr k ↦
      let r = times-give_up a i bs (let q : owns a bs ≡ true = sym (rw k refl) ∙ e in q) in
      rw k (omega (arith, r))
]

pub length-give_up :
    (a : ℕ) (bs : List ℕ) → owns a bs ≡ true → suc (length (give_up a bs)) ≡ length bs
unfolding owns give_up
length-give_up a [] e = absurd (let z : ⊥ = cc in z)
length-give_up a (b ∷ bs) e = elim (Bool-cases (b == a)) [
  | inl k ↦ rw k refl
  | inr k ↦
      let r = length-give_up a bs (let q : owns a bs ≡ true = sym (rw k refl) ∙ e in q) in
      rw k (omega (arith, r))
]

pub times-get_elem : (a : ℕ) (bs : List ℕ) (i : ℕ) → get_elem? bs i ≡ some a → 1 ≤ times a bs
times-get_elem a [] i e = absurd (let z : ⊥ = cc in z)
times-get_elem a (b ∷ bs) zero e =
    let q : b ≡ a = cc in let k : bit (b == a) ≡ 1 = ground arith in omega (arith, k)
times-get_elem a (b ∷ bs) (suc i) e = omega (arith, times-get_elem a bs i e)

pub times-get_elem_twice :
    (a : ℕ) (bs : List ℕ) (i j : ℕ)
    → get_elem? bs i ≡ some a
    → get_elem? bs j ≡ some a
    → i ≢ j
    → 2 ≤ times a bs
times-get_elem_twice a [] i j e k n = absurd (let z : ⊥ = cc in z)
times-get_elem_twice a (b ∷ bs) zero zero e k n = absurd (n refl)
times-get_elem_twice a (b ∷ bs) zero (suc j) e k n =
    let q : b ≡ a = cc in
    let one : bit (b == a) ≡ 1 = ground arith in omega (arith, one, times-get_elem a bs j k)
times-get_elem_twice a (b ∷ bs) (suc i) zero e k n =
    let q : b ≡ a = cc in
    let one : bit (b == a) ≡ 1 = ground arith in omega (arith, one, times-get_elem a bs i e)
times-get_elem_twice a (b ∷ bs) (suc i) (suc j) e k n =
    omega (arith, times-get_elem_twice a bs i j e k (λ q. n (ap suc q)))

module _ (start size : ℕ) where
  abbrev pub block : ℕ → ℕ
  block k = start + k * size

  -- The first `k` blocks of the arena, the last one first.
  abbrev pub cut_off : ℕ → List ℕ
  cut_off zero = []
  cut_off (suc k) = block k ∷ cut_off k

  pub cut_off-block : (a k : ℕ) → 1 ≤ times a (cut_off k) → (j : ℕ) × (j < k) × (a ≡ block j)
  cut_off-block a zero h = absurd (omega (arith, h))
  cut_off-block a (suc k) h = elim (Bool-cases (block k == a)) [
    | inl e ↦ (k, omega arith, ground arith)
    | inr e ↦
        let n : bit (block k == a) ≡ 0 = rw e refl in
        let (j, l, q) = cut_off-block a k (omega (arith, h, n)) in (j, omega (arith, l), q)
  ]

  -- Blocks of different numbers do not overlap.
  pub block_le : (i j : ℕ) → i < j → block i + size ≤ block j
  block_le i j h = let m = mul-le-mul_right size h in grind (arith, m)

  -- Two different blocks share no byte.
  pub cut_off-apart :
      (a b k : ℕ)
      → 1 ≤ times a (cut_off k)
      → 1 ≤ times b (cut_off k)
      → a ≢ b
      → (a + size ≤ b) ⊎ (b + size ≤ a)
  cut_off-apart a b k p o n =
      let (i, l, q) = cut_off-block a k p in
      let (j, l', q') = cut_off-block b k o in
      elim (Bool-cases (ltb i j)) [
        | inl e ↦ inl (omega (arith, q, q', block_le i j (ltb→lt i j e)))
        | inr e ↦ elim (Bool-cases (i == j)) [
          | inl s ↦ let s' : i ≡ j = ground arith in absurd (n (q ∙ ap block s' ∙ sym q'))
          | inr s ↦ inr (omega (arith, q, q', block_le j i (ground arith)))
        ]
      ]

  pub cut_off_once : 0 < size → (a k : ℕ) → times a (cut_off k) ≤ 1
  cut_off_once pos a zero = omega arith
  cut_off_once pos a (suc k) = elim (Bool-cases (block k == a)) [
    | inl e ↦
        let same : block k ≡ a = ground arith in
        let old : times a (cut_off k) ≡ 0 = elim (Bool-cases (times a (cut_off k) == 0)) [
          | inl z ↦ ground arith
          | inr z ↦
              let (j, l, q) = cut_off-block a k (ground arith) in
              absurd (omega (arith, block_le j k l, q, same))
        ] in
        let one : bit (block k == a) ≡ 1 = rw e refl in omega (arith, old, one)
    | inr e ↦ let n : bit (block k == a) ≡ 0 = rw e refl in omega (arith, n, cut_off_once pos a k)
  ]
