-- ===== src/TimerList/Links.antt =====
-- The list that the links of timer/timer.cc spell out.
use cc_learning.Base.{ℕ, ◌≡◌, ◌≢◌, ◌∙◌, arith, Bool, List, [], ◌∷◌, Option, none, some, All}
use cc_learning.TimerList.{TimerNode, Nodes, TimerListMgr, update}

-- A timer without its links.
pub record Entry : Type 0 where
  pub at : ℕ
  pub expire : ℕ
  pub cb : Bool
  pub user : Option ℕ

abbrev pub node_of : Option ℕ → Entry → Option ℕ → TimerNode
node_of b c q = record { expire = c.expire; cb = c.cb; user_data = c.user; prev = b; next = q }

abbrev pub first : List Entry → Option ℕ → Option ℕ
first [] q = q
first (c ∷ cs) q = some c.at

abbrev pub last : Option ℕ → List Entry → Option ℕ
last b [] = b
last b (c ∷ cs) = last (some c.at) cs

-- The links in both directions lead through these entries, from behind `b` to `q`.
pub data IsLinked (h : Nodes) (q : Option ℕ) : Option ℕ → List Entry → Type 0 where
  nil : {b : Option ℕ} → IsLinked h q b []
  cons :
      {b : Option ℕ} {c : Entry} {cs : List Entry}
      → h c.at ≡ some (node_of b c (first cs q))
      → IsLinked h q (some c.at) cs
      → IsLinked h q b (c ∷ cs)

abbrev pub IsOutside : ℕ → List Entry → Type 0
IsOutside a cs = All (λ c. c.at ≢ a) cs

abbrev pub IsDistinct : List Entry → Type 0
IsDistinct [] = Unit
IsDistinct (c ∷ cs) = IsOutside c.at cs × IsDistinct cs

abbrev pub SameOutside : List Entry → TimerListMgr → TimerListMgr → Type 0
SameOutside cs s s' = (a : ℕ) → IsOutside a cs → s'.nodes a ≡ s.nodes a

pub record Represents (s : TimerListMgr) (cs : List Entry) : Type 0 where
  pub linked : IsLinked s.nodes none none cs
  pub distinct : IsDistinct cs
  pub head : s.head ≡ first cs none
  pub tail : s.tail ≡ last none cs

-- The links survive what happens elsewhere.
pub IsLinked-same :
    {h g : Nodes} {q b : Option ℕ} {cs : List Entry}
    → IsLinked h q b cs
    → All (λ c. g c.at ≡ h c.at) cs
    → IsLinked g q b cs
IsLinked-same nil e = nil
IsLinked-same (cons k l) e = cons (e.0 ∙ k) (IsLinked-same l e.1)

pub IsLinked-update :
    {h : Nodes} {q : Option ℕ} (a : ℕ) (n : Option TimerNode) {b : Option ℕ} {cs : List Entry}
    → IsLinked h q b cs
    → IsOutside a cs
    → IsLinked (update h a n) q b cs
unfolding update
IsLinked-update a n nil o = nil
IsLinked-update a n (cons k l) o =
    cons (let ne = o.0 in ground (arith, k)) (IsLinked-update a n l o.1)

pub read_self : (h : Nodes) (p : ℕ) (n : Option TimerNode) → update h p n p ≡ n
unfolding update
read_self h p n = ground arith

pub read_other : (h : Nodes) {p a : ℕ} (n : Option TimerNode) → a ≢ p → update h p n a ≡ h a
unfolding update
read_other h n ne = ground arith
