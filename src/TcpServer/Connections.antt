-- ===== src/TcpServer/Connections.antt =====
-- The table `connections_` of reactor_net/src/TcpServer.cpp.
use cc_learning.Base.{
  HasUniqueKeys, ℕ, ◌≡◌, refl, sym, ap, ◌∙◌, [], ◌∷◌, ◌++◌, none, some, Bytes, eq_bytes,
  eq_bytes→eq, eq_bytes_refl, true, false, if_elim, ◌==◌, Bool-cases, inl, inr, subst, StringMap,
  lookup,
}
use cc_learning.TcpServer.{TcpServer, Entry, choose_loop}

pub connections-choose_loop : (s : TcpServer) → (choose_loop s).1.connections ≡ s.connections
unfolding choose_loop
connections-choose_loop s =
    if_elim (λ (r : ℕ × TcpServer). r.1.connections ≡ s.connections) (s.sub_loops == 0) (λ _. refl)
      (λ _. refl)

pub removals-choose_loop : (s : TcpServer) → (choose_loop s).1.removals ≡ s.removals
unfolding choose_loop
removals-choose_loop s =
    if_elim (λ (r : ℕ × TcpServer). r.1.removals ≡ s.removals) (s.sub_loops == 0) (λ _. refl)
      (λ _. refl)

pub other_key : (k j : Bytes) → eq_bytes k j ≡ false → eq_bytes j k ≡ false
other_key k j n = elim (Bool-cases (eq_bytes j k)) [
  | inl e ↦
      let q : j ≡ k = eq_bytes→eq j k e in
      let t : eq_bytes k j ≡ true = subst (λ x. eq_bytes k x ≡ true) (sym q) (eq_bytes_refl k) in
      absurd (let z : ⊥ = cc in z)
  | inr e ↦ e
]

-- Two keys with different lookups differ.
pub keys_differ :
    (m : StringMap Entry) (k j : Bytes) (x : Entry)
    → lookup m j ≡ some x
    → lookup m k ≡ none
    → eq_bytes j k ≡ false
keys_differ m k j x h n = elim (Bool-cases (eq_bytes j k)) [
  | inl e ↦
      let q : j ≡ k = eq_bytes→eq j k e in
      let f : some x ≡ none = sym h ∙ ap (lookup m) q ∙ n in absurd (let z : ⊥ = cc in z)
  | inr e ↦ e
]

-- What an entry behind the others changes.
pub lookup-append_old :
    (m : StringMap Entry) (k j : Bytes) (e x : Entry)
    → lookup m j ≡ some x
    → lookup (m ++ (k, e) ∷ []) j ≡ some x
unfolding lookup
lookup-append_old [] k j e x h = absurd (let z : ⊥ = cc in z)
lookup-append_old ((k', v) ∷ m) k j e x h = elim (Bool-cases (eq_bytes j k')) [
  | inl q ↦ rw q (sym (rw q refl) ∙ h)
  | inr q ↦ rw q (lookup-append_old m k j e x (sym (rw q refl) ∙ h))
]

pub lookup-append_new :
    (m : StringMap Entry) (k j : Bytes) (e : Entry)
    → lookup m j ≡ none
    → lookup (m ++ (k, e) ∷ []) j ≡ lookup ((k, e) ∷ []) j
unfolding lookup
lookup-append_new [] k j e h = refl
lookup-append_new ((k', v) ∷ m) k j e h = elim (Bool-cases (eq_bytes j k')) [
  | inl q ↦ let f : some v ≡ none = sym (rw q refl) ∙ h in absurd (let z : ⊥ = cc in z)
  | inr q ↦ rw q (lookup-append_new m k j e (sym (rw q refl) ∙ h))
]

pub append-HasUniqueKeys :
    (m : StringMap Entry) (k : Bytes) (e : Entry)
    → lookup m k ≡ none
    → HasUniqueKeys m
    → HasUniqueKeys (m ++ (k, e) ∷ [])
unfolding lookup
append-HasUniqueKeys [] k e h u = (refl, tt)
append-HasUniqueKeys ((k', v) ∷ m) k e h u = elim (Bool-cases (eq_bytes k k')) [
  | inl q ↦ let f : some v ≡ none = sym (rw q refl) ∙ h in absurd (let z : ⊥ = cc in z)
  | inr q ↦ (
    lookup-append_new m k k' e u.0 ∙ rw (other_key k k' q) refl,
    append-HasUniqueKeys m k e (sym (rw q refl) ∙ h) u.1,
  )
]
