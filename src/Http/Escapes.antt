-- ===== src/Http/Escapes.antt =====
-- What `urlDecode` makes of a text whose characters are escaped or stand for themselves.
use Prim.Native.Nat.{bit_or}
use cc_learning.Base.{
  ℕ, zero, suc, ◌+◌, ◌*◌, ◌/◌, ◌%◌, ◌<◌, ◌≡◌, refl, ap, ◌∙◌, arith, Bool, true, false, ◌&&◌, [],
  ◌∷◌, some, Bytes, ◌==◌, ==_iff, ltb, if◌then◌else◌, if_elim, All, Bool-cases, inl, inr, subst,
  ap₂, ℕ_discrete,
}
use cc_learning.Http.Url.{hex_to_int, join_digits, escaped, plain, url_decode}

-- The upper-case digit.
abbrev pub hex_digit : ℕ → ℕ
hex_digit n = if ltb n 10 then 48 + n else 55 + n

-- A text in which the characters that are not kept are escaped.
abbrev pub escape : (ℕ → Bool) → Bytes → Bytes
escape keep [] = []
escape keep (c ∷ cs) =
    let rest = escape keep cs in
    if keep c then c ∷ rest else 37 ∷ hex_digit (c / 16) ∷ hex_digit (c % 16) ∷ rest

hex_to_int_lem : (n : ℕ) → n < 16 → hex_to_int (hex_digit n) ≡ some n
unfolding hex_to_int
hex_to_int_lem n h = ground arith

all_below : ℕ → (ℕ → Bool) → Bool
all_below zero p = true
all_below (suc n) p = p n && all_below n p

all_below_lem : (n : ℕ) (p : ℕ → Bool) (i : ℕ) → i < n → all_below n p ≡ true → p i ≡ true
unfolding all_below
all_below_lem zero p i h e = absurd (omega arith)
all_below_lem (suc n) p i h e = elim (ℕ_discrete n i) [
  | yes q ↦ subst (λ k. p k ≡ true) q (ground arith)
  | no ne ↦ all_below_lem n p i (omega arith) (ground arith)
]

joins : (c : ℕ) → c < 256 → bit_or (c / 16 * 16) (c % 16) ≡ c
unfolding all_below
joins c h =
    (==_iff (bit_or (c / 16 * 16) (c % 16)) c).0
      (all_below_lem 256 (λ x. bit_or (x / 16 * 16) (x % 16) == x) c h refl)

escaped_lem : (c : ℕ) → c < 256 → escaped 37 (hex_digit (c / 16)) (hex_digit (c % 16)) ≡ some c
unfolding escaped join_digits
escaped_lem c h =
    rw (hex_to_int_lem (c / 16) (omega arith), hex_to_int_lem (c % 16) (omega arith))
      (ap some (joins c h))

-- A character other than `%` is decoded by itself.
decode_plain :
    (c : ℕ) (cs : Bytes) → (c == 37) ≡ false → url_decode (c ∷ cs) ≡ plain c ∷ url_decode cs
unfolding url_decode escaped
decode_plain c [] h = refl
decode_plain c (x ∷ []) h = refl
decode_plain c (x ∷ y ∷ rest) h = rw (url_decode, escaped, h) refl

kept_ne : (keep : ℕ → Bool) (c n : ℕ) → keep c ≡ true → keep n ≡ false → (c == n) ≡ false
kept_ne keep c n k f = elim (Bool-cases (c == n)) [
  | inl e ↦
      let q : c ≡ n = (==_iff c n).0 e in
      absurd (let t : keep n ≡ true = subst (λ x. keep x ≡ true) q k in let z : ⊥ = cc in z)
  | inr e ↦ e
]

plain_kept : (c : ℕ) → (c == 43) ≡ false → plain c ≡ c
unfolding plain
plain_kept c h = rw h refl

-- Decoding gives the text back, whichever characters of it are escaped, as long as `%` and `+` are.
pub url_decode-escape :
    (keep : ℕ → Bool) (d : Bytes)
    → keep 37 ≡ false
    → keep 43 ≡ false
    → All (λ c. c < 256) d
    → url_decode (escape keep d) ≡ d
unfolding url_decode
url_decode-escape keep [] p q h = refl
url_decode-escape keep (c ∷ cs) p q h =
    let r : url_decode (escape keep cs) ≡ cs = url_decode-escape keep cs p q h.1 in
    if_elim (λ x. url_decode x ≡ c ∷ cs) (keep c)
      (λ k.
        decode_plain c (escape keep cs) (kept_ne keep c 37 k p)
        ∙ ap₂ (λ a l. a ∷ l) (plain_kept c (kept_ne keep c 43 k q)) r)
      (λ k. rw (url_decode, escaped_lem c h.0) (ap (λ l. c ∷ l) r))
