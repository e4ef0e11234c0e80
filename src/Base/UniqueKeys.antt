-- ===== src/Base/UniqueKeys.antt =====
-- Maps in which each key stands once, and how many of their values satisfy a test.
use Prim.Native.Nat.{ℕ, ◌+◌}
use mathlib.Core.Bool.{Bool, true, false}
use mathlib.Core.Path.{◌≡◌, refl, sym, ap, subst, ◌∙◌}
use mathlib.Core.Logic.{inl, inr}
use mathlib.Core.List.{[], ◌∷◌}
use mathlib.Core.Option.{none, some}
use native.Mathlib.Omega.{arith}
use cc_learning.Base.Tests.{if_elim, Bool-cases}
use cc_learning.Base.Count.{bit, count}
use cc_learning.Base.Text.{Bytes, eq_bytes, eq_bytes→eq, eq_bytes_refl}
use cc_learning.Base.Maps.{lt_bytes, StringMap, lookup, insert, erase, lookup-insert_ne}

module _ {ℓ} {V : Type ℓ} where
  abbrev pub HasUniqueKeys : StringMap V → Type ℓ
  HasUniqueKeys [] = Unit
  HasUniqueKeys ((k, v) ∷ m) = (lookup m k ≡ none) × HasUniqueKeys m

  abbrev pub count_values : (V → Bool) → StringMap V → ℕ
  count_values p m = count (λ (x : Bytes × V). p x.1) m

  lookup_cases :
      (k k' : Bytes) (v : V) (m : StringMap V)
      → lookup ((k', v) ∷ m) k ≡ none
      → (eq_bytes k k' ≡ false) × (lookup m k ≡ none)
  unfolding lookup
  lookup_cases k k' v m h = elim (Bool-cases (eq_bytes k k')) [
    | inl e ↦ absurd (let q : some v ≡ none = sym (rw (lookup, e) refl) ∙ h in let z : ⊥ = cc in z)
    | inr e ↦ (e, sym (rw (lookup, e) refl) ∙ h)
  ]

  -- A new key adds its value.
  pub count_values-insert :
      (p : V → Bool) (k : Bytes) (v : V) (m : StringMap V)
      → lookup m k ≡ none
      → count_values p (insert k v m) ≡ bit (p v) + count_values p m
  unfolding insert
  count_values-insert p k v [] h = refl
  count_values-insert p k v ((k', v') ∷ m) h =
      let c = lookup_cases k k' v' m h in
      if_elim (λ r. count_values p r ≡ bit (p v) + count_values p ((k', v') ∷ m)) (eq_bytes k k')
        (λ e. absurd (let f = c.0 in let z : ⊥ = cc in z))
        (λ n.
          if_elim (λ r. count_values p r ≡ bit (p v) + count_values p ((k', v') ∷ m))
            (lt_bytes k k') (λ l. refl) (λ l. omega (arith, count_values-insert p k v m c.1)))

  pub insert-HasUniqueKeys :
      (k : Bytes) (v : V) (m : StringMap V)
      → lookup m k ≡ none
      → HasUniqueKeys m
      → HasUniqueKeys (insert k v m)
  unfolding insert lookup
  insert-HasUniqueKeys k v [] h u = (refl, tt)
  insert-HasUniqueKeys k v ((k', v') ∷ m) h u =
      let c = lookup_cases k k' v' m h in
      if_elim HasUniqueKeys (eq_bytes k k') (λ e. absurd (let f = c.0 in let z : ⊥ = cc in z))
        (λ n.
          if_elim HasUniqueKeys (lt_bytes k k') (λ l. (h, u))
            (λ l.
              (lookup-insert_ne k k' v m (flipped n) ∙ u.0, insert-HasUniqueKeys k v m c.1 u.1)))
    where
      flipped : eq_bytes k k' ≡ false → eq_bytes k' k ≡ false
      flipped n = elim (Bool-cases (eq_bytes k' k)) [
        | inl e ↦
            let q : k' ≡ k = eq_bytes→eq k' k e in
            absurd (
              let t : eq_bytes k k' ≡ true =
                subst (λ x. eq_bytes k x ≡ true) (sym q) (eq_bytes_refl k) in
              let z : ⊥ = cc in z)
        | inr e ↦ e
      ]

  erase_absent : (k : Bytes) (m : StringMap V) → lookup m k ≡ none → erase k m ≡ m
  unfolding erase
  erase_absent k [] h = refl
  erase_absent k ((k', v) ∷ m) h =
      let c = lookup_cases k k' v m h in rw (c.0, erase_absent k m c.1) refl

  -- A key that is there takes its value along.
  pub count_values-erase :
      (p : V → Bool) (k : Bytes) (v : V) (m : StringMap V)
      → HasUniqueKeys m
      → lookup m k ≡ some v
      → count_values p (erase k m) + bit (p v) ≡ count_values p m
  unfolding erase lookup
  count_values-erase p k v [] u h = absurd (let z : ⊥ = cc in z)
  count_values-erase p k v ((k', v') ∷ m) u h = elim (Bool-cases (eq_bytes k k')) [
    | inl e ↦
        let same : some v' ≡ some v = sym (rw (lookup, e) refl) ∙ h in
        let q : v' ≡ v = cc in
        let absent : lookup m k ≡ none =
          subst (λ x. lookup m x ≡ none) (sym (eq_bytes→eq k k' e)) u.0 in
        let gone = ap (count_values p) (erase_absent k m absent) in
        let b = ap (λ x. bit (p x)) q in rw e (omega (arith, gone, b))
    | inr e ↦
        let there : lookup m k ≡ some v = sym (rw (lookup, e) refl) ∙ h in
        rw e (omega (arith, count_values-erase p k v m u.1 there))
  ]

  lookup-erase-none :
      (k j : Bytes) (m : StringMap V) → lookup m j ≡ none → lookup (erase k m) j ≡ none
  unfolding erase lookup
  lookup-erase-none k j [] h = h
  lookup-erase-none k j ((k', v) ∷ m) h =
      let c = lookup_cases j k' v m h in
      let r = lookup-erase-none k j m c.1 in
      elim (Bool-cases (eq_bytes k k')) [ inl e ↦ rw e r | inr n ↦ rw (n, c.0) r ]

  pub erase-HasUniqueKeys :
      (k : Bytes) (m : StringMap V) → HasUniqueKeys m → HasUniqueKeys (erase k m)
  unfolding erase
  erase-HasUniqueKeys k [] u = tt
  erase-HasUniqueKeys k ((k', v) ∷ m) u =
      if_elim HasUniqueKeys (eq_bytes k k') (λ e. erase-HasUniqueKeys k m u.1)
        (λ n. (lookup-erase-none k k' m u.0, erase-HasUniqueKeys k m u.1))
