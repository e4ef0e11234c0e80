-- ===== src/RingBuffer/Window.antt =====
-- The slots between two indices, seen as a list: the loops of both queues in terms of it. An index
-- may be given before or after it wraps.
use native.Mathlib.Nat.{one-le-pow, mod-lt}
use cc_learning.Base.{
  ℕ, zero, suc, ◌+◌, ◌%◌, ◌≤◌, ◌<◌, ◌≡◌, ◌≢◌, refl, sym, ap, ap₂, ◌∙◌, arith, List, [], ◌∷◌, ◌++◌,
  length, append_assoc, append-nil, add_size, size_mod, false, ◌==◌,
}
use cc_learning.Base.Bits.{bit_and_mask, mod_wrap, mod_apart}
use cc_learning.RingBuffer.{IsCapacity, slot, update, fill, copy}

pub suc-ne_zero : (n : ℕ) → (suc n == 0) ≡ false
suc-ne_zero n = ground arith

module _ {cap : ℕ} (ok : IsCapacity cap) where
  pub cap_pos : 0 < cap
  cap_pos = omega (arith, one-le-pow ok.exponent 2, ok.power)

  slot_mod : (i : ℕ) → slot cap i ≡ i % cap
  unfolding slot
  slot_mod i = rw ok.power (bit_and_mask ok.exponent i)

  -- The mask keeps every access inside the array.
  pub slot_inside : (i : ℕ) → slot cap i < cap
  slot_inside i = omega (arith, slot_mod i, mod-lt i cap_pos)

  -- Wrapping an index does not change its slot.
  pub slot_wrap : (i : ℕ) → slot cap (i % size_mod) ≡ slot cap i
  slot_wrap i =
      slot_mod (i % size_mod)
      ∙ rw ok.power (mod_wrap ok.exponent 64 i (omega (arith, ok.small)))
      ∙ sym (slot_mod i)

  pub slot_apart : (x d : ℕ) → 0 < d → d < cap → slot cap (x + d) ≢ slot cap x
  slot_apart x d p h e = mod_apart cap x d p h (sym (slot_mod (x + d)) ∙ e ∙ slot_mod x)

  module _ {ℓ} {A : Type ℓ} where
    -- The `n` elements from index `x` on.
    unfoldable pub view : ℕ → ℕ → (ℕ → A) → List A
    view x zero buffer = []
    view x (suc n) buffer = buffer (slot cap x) ∷ view (x + 1) n buffer

    pub view_none : (x : ℕ) (buffer : ℕ → A) → view x 0 buffer ≡ []
    unfolding view
    view_none x buffer = refl

    pub view_single : (x : ℕ) (buffer : ℕ → A) → view x 1 buffer ≡ buffer (slot cap x) ∷ []
    unfolding view
    view_single x buffer = refl

    pub view_wrap : (x n : ℕ) (buffer : ℕ → A) → view (x % size_mod) n buffer ≡ view x n buffer
    unfolding view
    view_wrap x zero buffer = refl
    view_wrap x (suc n) buffer = ap₂ ◌∷◌ (ap buffer (slot_wrap x)) (
        sym (view_wrap (x % size_mod + 1) n buffer)
        ∙ ap (λ y. view y n buffer)
            (let e : (x % size_mod + 1) % size_mod ≡ (x + 1) % size_mod = omega arith in e)
        ∙ view_wrap (x + 1) n buffer)

    pub copy-view :
        (r i n x : ℕ) (buffer : ℕ → A) → x ≡ r + i → copy cap r i n buffer ≡ view x n buffer
    unfolding view copy
    copy-view r i zero x buffer e = refl
    copy-view r i (suc n) x buffer e =
        ap₂ ◌∷◌ (ap buffer (slot_wrap (r + i) ∙ ap (slot cap) (sym e)))
          (copy-view r (i + 1) n (x + 1) buffer (omega arith))

    pub length-view : (x n : ℕ) (buffer : ℕ → A) → length (view x n buffer) ≡ n
    unfolding view
    length-view x zero buffer = refl
    length-view x (suc n) buffer = ap suc (length-view (x + 1) n buffer)

    pub view_add :
        (x y n k m : ℕ) (buffer : ℕ → A)
        → y ≡ x + n
        → m ≡ n + k
        → view x m buffer ≡ view x n buffer ++ view y k buffer
    unfolding view
    view_add x y zero k m buffer e f =
        ap₂ (λ a b. view a b buffer) (let g : x ≡ y = omega arith in g)
          (let g : m ≡ k = omega arith in g)
    view_add x y (suc n) k zero buffer e f = absurd (omega arith)
    view_add x y (suc n) k (suc m) buffer e f =
        ap (◌∷◌ (buffer (slot cap x))) (view_add (x + 1) y n k m buffer (omega arith) (omega arith))

    -- A write outside a stretch of slots is not seen in it: `y` is `d` slots past its start.
    pub view-update :
        (x y d n : ℕ) (v : A) (buffer : ℕ → A)
        → y ≡ x + d
        → n ≤ d
        → d < cap
        → view x n (update buffer (slot cap y) v) ≡ view x n buffer
    unfolding view
    view-update x y d zero v buffer e h l = refl
    view-update x y zero (suc n) v buffer e h l = absurd (omega arith)
    view-update x y (suc d) (suc n) v buffer e h l =
        ap₂ ◌∷◌ (ground (arith, slot_apart x (suc d) (omega arith) l, ap (slot cap) e))
          (view-update (x + 1) y d n v buffer (omega arith) (omega arith) (omega arith))

    view_one : (y : ℕ) (v : A) (buffer : ℕ → A) → view y 1 (update buffer (slot cap y) v) ≡ v ∷ []
    unfolding view
    view_one y v buffer = ground arith

    -- A write just behind a stretch extends it.
    pub view-put :
        (x w i n : ℕ) (v : A) (buffer : ℕ → A)
        → (x + n) % size_mod ≡ (w + i) % size_mod
        → n < cap
        → view x (n + 1) (update buffer (slot cap (add_size w i)) v) ≡ view x n buffer ++ v ∷ []
    view-put x w i n v buffer e h =
        rw (← e, slot_wrap (x + n))
          (view_add x (x + n) n 1 (n + 1) (update buffer (slot cap (x + n)) v) refl refl
            ∙ ap₂ ◌++◌ (view-update x (x + n) n n v buffer refl (omega arith) h)
                (view_one (x + n) v buffer))

    -- Filling puts the items behind the stretch before it.
    pub view-fill :
        (x w i n m : ℕ) (items : List A) (buffer : ℕ → A)
        → (x + n) % size_mod ≡ (w + i) % size_mod
        → m ≡ n + length items
        → m ≤ cap
        → view x m (fill cap w i items buffer) ≡ view x n buffer ++ items
    unfolding fill
    view-fill x w i n m [] buffer e f h =
        ap (λ k. view x k buffer) (omega arith) ∙ sym (append-nil (view x n buffer))
    view-fill x w i n m (v ∷ vs) buffer e f h =
        view-fill x w (i + 1) (n + 1) m vs (update buffer (slot cap (add_size w i)) v) (omega arith)
          (omega arith) h
        ∙ ap (λ l. l ++ vs) (view-put x w i n v buffer e (omega arith))
        ∙ append_assoc (view x n buffer) (v ∷ []) vs
