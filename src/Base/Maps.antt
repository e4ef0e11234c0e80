-- ===== src/Base/Maps.antt =====
-- `std::map<std::string, V>`: pairs in the order of their keys.
use mathlib.Core.Bool.{Bool, true, false, ◌&&◌, ◌||◌}
use mathlib.Core.Path.{◌≡◌, refl}
use mathlib.Core.List.{List, [], ◌∷◌}
use mathlib.Core.Option.{Option, none, some}
use cc_learning.Base.Tests.{◌==◌, ltb, if◌then◌else◌, if_elim}
use cc_learning.Base.Text.{Bytes, eq_bytes, eq_bytes→eq, eq_bytes_refl}

-- `operator<` of `std::string`.
unfoldable pub lt_bytes : Bytes → Bytes → Bool
lt_bytes [] [] = false
lt_bytes [] (y ∷ ys) = true
lt_bytes (x ∷ xs) [] = false
lt_bytes (x ∷ xs) (y ∷ ys) = ltb x y || (x == y && lt_bytes xs ys)

abbrev pub StringMap {ℓ} : Type ℓ → Type ℓ
StringMap V = List (Bytes × V)

module _ {ℓ} {V : Type ℓ} where
  unfoldable pub lookup : StringMap V → Bytes → Option V
  lookup [] k = none
  lookup ((k', v) ∷ m) k = if eq_bytes k k' then some v else lookup m k

  -- `m[k] = v`
  unfoldable pub insert : Bytes → V → StringMap V → StringMap V
  unfolding lt_bytes
  insert k v [] = (k, v) ∷ []
  insert k v ((k', v') ∷ m) =
      let rest = insert k v m in
      if eq_bytes k k'
      then (k, v) ∷ m
      else (if lt_bytes k k' then (k, v) ∷ (k', v') ∷ m else (k', v') ∷ rest)

  pub lookup-insert_self : (k : Bytes) (v : V) (m : StringMap V) → lookup (insert k v m) k ≡ some v
  unfolding lookup insert
  lookup-insert_self k v [] = rw (eq_bytes_refl k) refl
  lookup-insert_self k v ((k', v') ∷ m) =
      if_elim (λ r. lookup r k ≡ some v) (eq_bytes k k') (λ e. rw (lookup, eq_bytes_refl k) refl)
        (λ n.
          if_elim (λ r. lookup r k ≡ some v) (lt_bytes k k')
            (λ l. rw (lookup, eq_bytes_refl k) refl)
            (λ l. rw (lookup, n) (lookup-insert_self k v m)))

  pub lookup-insert_ne :
      (k j : Bytes) (v : V) (m : StringMap V)
      → eq_bytes j k ≡ false
      → lookup (insert k v m) j ≡ lookup m j
  unfolding lookup insert
  lookup-insert_ne k j v [] h = rw h refl
  lookup-insert_ne k j v ((k', v') ∷ m) h =
      if_elim (λ r. lookup r j ≡ lookup ((k', v') ∷ m) j) (eq_bytes k k')
        (λ e.
          let q : k ≡ k' = eq_bytes→eq k k' e in
          let h' : eq_bytes j k' ≡ false = rw (← q) h in rw (lookup, h, h') refl)
        (λ n.
          if_elim (λ r. lookup r j ≡ lookup ((k', v') ∷ m) j) (lt_bytes k k')
            (λ l. rw (lookup, h) refl) (λ l. rw (lookup, lookup-insert_ne k j v m h) refl))

  -- `m.erase(k)`
  unfoldable pub erase : Bytes → StringMap V → StringMap V
  erase k [] = []
  erase k ((k', v) ∷ m) = let rest = erase k m in if eq_bytes k k' then rest else (k', v) ∷ rest

  pub lookup-erase_self : (k : Bytes) (m : StringMap V) → lookup (erase k m) k ≡ none
  unfolding lookup erase
  lookup-erase_self k [] = refl
  lookup-erase_self k ((k', v) ∷ m) =
      if_elim (λ r. lookup r k ≡ none) (eq_bytes k k') (λ e. lookup-erase_self k m)
        (λ n. rw (lookup, n) (lookup-erase_self k m))

  pub lookup-erase_ne :
      (k j : Bytes) (m : StringMap V) → eq_bytes j k ≡ false → lookup (erase k m) j ≡ lookup m j
  unfolding lookup erase
  lookup-erase_ne k j [] h = refl
  lookup-erase_ne k j ((k', v) ∷ m) h =
      if_elim (λ r. lookup r j ≡ lookup ((k', v) ∷ m) j) (eq_bytes k k')
        (λ e.
          let q : k ≡ k' = eq_bytes→eq k k' e in
          let h' : eq_bytes j k' ≡ false = rw (← q) h in rw (lookup, h') (lookup-erase_ne k j m h))
        (λ n. rw (lookup, lookup-erase_ne k j m h) refl)
