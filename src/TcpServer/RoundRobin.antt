-- ===== src/TcpServer/RoundRobin.antt =====
-- The choice of a loop in `TcpServer::newConnection`, over a run of connections.
use cc_learning.Base.{
  ℕ, zero, suc, ◌+◌, ◌%◌, ◌≤◌, ◌<◌, ◌≡◌, refl, sym, ap, ap₂, ◌∙◌, arith, false, List, [], ◌∷◌, some,
  Bytes, get_elem?, ◌==◌, dec_lt, length, leb, leb→le, ◌-◌, ◌*◌, ◌/◌, if◌then◌else◌, Bool-cases,
  inl, inr,
}
use cc_learning.Base.Bits.{mod_apart}
use native.Mathlib.Nat.{add-mul-mod_self_right, mod-eq_of_lt, div-add-mod', mod-lt}
use cc_learning.TcpServer.{TcpServer, choose_loop, new_connection, accept_all}

not_zero : (n : ℕ) → 1 ≤ n → (n == 0) ≡ false
not_zero n h = ground arith

choose_loop_eq :
    (s : TcpServer)
    → 1 ≤ s.sub_loops
    → choose_loop s
      ≡ (suc (s.next_conn_id % s.sub_loops), record s { next_conn_id = suc s.next_conn_id })
unfolding choose_loop
choose_loop_eq s h = rw (not_zero s.sub_loops h) refl

-- The loop of the connection that comes after `i` others.
chosen_lem :
    (ps : List (ℕ × Bytes)) (s : TcpServer) (i : ℕ) {x : ℕ}
    → 1 ≤ s.sub_loops
    → get_elem? (accept_all ps s).0 i ≡ some x
    → x ≡ suc ((s.next_conn_id + i) % s.sub_loops)
unfolding accept_all new_connection
chosen_lem [] s i h e = absurd (let z : ⊥ = cc in z)
chosen_lem ((socket, peer) ∷ ps) s zero {x} h e =
    let q : (choose_loop s).0 ≡ x = cc in
    let z : s.next_conn_id ≡ s.next_conn_id + 0 = omega arith in
    sym q ∙ ap (λ r. r.0) (choose_loop_eq s h) ∙ ap (λ k. suc (k % s.sub_loops)) z
chosen_lem ((socket, peer) ∷ ps) s (suc i) {x} h e =
    let n : (choose_loop s).1.next_conn_id ≡ suc s.next_conn_id =
      ap (λ r. r.1.next_conn_id) (choose_loop_eq s h) in
    let l : (choose_loop s).1.sub_loops ≡ s.sub_loops =
      ap (λ r. r.1.sub_loops) (choose_loop_eq s h) in
    let k : (choose_loop s).1.next_conn_id + i ≡ s.next_conn_id + suc i = omega (arith, n) in
    chosen_lem ps (new_connection socket peer s).2 i (omega (arith, h, l)) e
    ∙ ap₂ (λ a b. suc (a % b)) k l

-- How many connections later the sub-loop of this number comes, if the next one is `r`.
wait : ℕ → ℕ → ℕ → ℕ
wait n r t = if leb r t then t - r else t + n - r

wait_lem : (n q r t : ℕ) → r < n → t < n → (wait n r t < n) × ((q * n + r + wait n r t) % n ≡ t)
unfolding wait
wait_lem n q r t h k = elim (Bool-cases (leb r t)) [
  | inl e ↦
      let l : r ≤ t = leb→le r t e in
      let s : q * n + r + (t - r) ≡ t + q * n = omega (arith, l) in
      rw e (omega (arith, l, k), ap (λ x. x % n) s ∙ add-mul-mod_self_right t q n ∙ mod-eq_of_lt k)
  | inr e ↦
      let l : t < r = ground arith in
      let s : q * n + r + (t + n - r) ≡ t + suc q * n = grind (arith, l, h) in
      rw e (
        omega (arith, l, h),
        ap (λ x. x % n) s ∙ add-mul-mod_self_right t (suc q) n ∙ mod-eq_of_lt k,
      )
]

get_elem?-below : (xs : List ℕ) (i : ℕ) → i < length xs → (x : ℕ) × (get_elem? xs i ≡ some x)
get_elem?-below [] i h = absurd (omega (arith, h))
get_elem?-below (x ∷ xs) zero h = (x, refl)
get_elem?-below (x ∷ xs) (suc i) h = get_elem?-below xs i (omega (arith, h))

length-accept_all : (ps : List (ℕ × Bytes)) (s : TcpServer) → length (accept_all ps s).0 ≡ length ps
unfolding accept_all
length-accept_all [] s = refl
length-accept_all ((socket, peer) ∷ ps) s =
    ap suc (length-accept_all ps (new_connection socket peer s).2)

same_place : (n a k d : ℕ) → k < n → d < n → (a + k) % n ≡ (a + d) % n → k ≡ d
same_place n a k d h l e = elim (dec_lt k d) [
  | yes p ↦
      let q : a + k + (d - k) ≡ a + d = omega (arith, p) in
      absurd (
        mod_apart n (a + k) (d - k) (omega (arith, p)) (omega (arith, l))
          (ap (λ x. x % n) q ∙ sym e))
  | no p ↦ elim (dec_lt d k) [
    | yes o ↦
        let q : a + d + (k - d) ≡ a + k = omega (arith, o) in
        absurd (
          mod_apart n (a + d) (k - d) (omega (arith, o)) (omega (arith, h)) (ap (λ x. x % n) q ∙ e))
    | no o ↦ omega arith
  ]
]

-- With `n` sub-loops, whose numbers are 1 to `n`: among each `n` connections in a row, those from `i`
-- on, there is one that the sub-loop `t + 1` is given, and each of them, here the one at `i + k`, is
-- given to one of the sub-loops, and to `t + 1` only when it is that one.
pub accept_all-in_turn :
    (ps : List (ℕ × Bytes)) (s : TcpServer) (i t k : ℕ) {x : ℕ}
    → t < s.sub_loops
    → k < s.sub_loops
    → i + s.sub_loops ≤ length ps
    → get_elem? (accept_all ps s).0 (i + k) ≡ some x
    → (1 ≤ x)
      × (x ≤ s.sub_loops)
      × ((d : ℕ) × (d < s.sub_loops)
          × (get_elem? (accept_all ps s).0 (i + d) ≡ some (suc t))
          × (x ≡ suc t → k ≡ d))
accept_all-in_turn ps s i t k {x} h j l e =
    let n = s.sub_loops in
    let a = s.next_conn_id + i in
    let m : a % n < n = mod-lt a (omega (arith, h)) in
    let d = wait n (a % n) t in
    let w = wait_lem n (a / n) (a % n) t m h in
    let g =
      get_elem?-below (accept_all ps s).0 (i + d) (omega (arith, w.0, l, length-accept_all ps s)) in
    let u : (a + d) % n ≡ t = sym (ap (λ z. (z + d) % n) (div-add-mod' a n)) ∙ w.1 in
    let b1 : s.next_conn_id + (i + d) ≡ a + d = omega arith in
    let b2 : a + k ≡ s.next_conn_id + (i + k) = omega arith in
    let y : (s.next_conn_id + (i + d)) % n ≡ t = ap (λ z. z % n) b1 ∙ u in
    let c : x ≡ suc ((s.next_conn_id + (i + k)) % n) =
      chosen_lem ps s (i + k) (omega (arith, h)) e in
    let b : (s.next_conn_id + (i + k)) % n < n =
      mod-lt (s.next_conn_id + (i + k)) (omega (arith, h)) in
    let v : g.0 ≡ suc t = chosen_lem ps s (i + d) (omega (arith, h)) g.1 ∙ ap suc y in
    (
      omega (arith, c),
      omega (arith, c, b),
      (
        d,
        w.0,
        g.1 ∙ ap some v,
        λ q. same_place n a k d j w.0 (
            (let b3 : (s.next_conn_id + (i + k)) % n ≡ t = omega (arith, c, q) in
              ap (λ z. z % n) b2 ∙ b3 ∙ sym u)),
      ),
    )
