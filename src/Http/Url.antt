-- ===== src/Http/Url.antt =====
-- `HttpRequest::urlDecode` of reactor_net/src/HttpRequest.cpp.
use Prim.Native.Nat.{bit_or}
use cc_learning.Base.{
  ℕ, ◌+◌, ◌-◌, ◌*◌, ◌&&◌, [], ◌∷◌, Option, none, some, Bytes, ◌==◌, leb, if◌then◌else◌,
}

-- `hexToInt`; `none` is -1.
unfoldable pub hex_to_int : ℕ → Option ℕ
hex_to_int c =
    if leb 48 c && leb c 57
    then some (c - 48)
    else (if leb 97 c && leb c 102
        then some (c - 97 + 10)
        else (if leb 65 c && leb c 70 then some (c - 65 + 10) else none))

-- `static_cast<char>((h << 4) | l)`, if both are digits.
unfoldable pub join_digits : Option ℕ → Option ℕ → Option ℕ
join_digits none l = none
join_digits (some h) none = none
join_digits (some h) (some l) = some (bit_or (h * 16) l)

-- The character that `%XX` stands for, if the first character is `%`, two more follow it, and
-- both are digits.
unfoldable pub escaped : ℕ → ℕ → ℕ → Option ℕ
unfolding hex_to_int join_digits
escaped c high low = if c == 37 then join_digits (hex_to_int high) (hex_to_int low) else none

-- A character that begins no escape. A `%` stands for itself.
unfoldable pub plain : ℕ → ℕ
plain c = if c == 43 then 32 else c

-- What is left of the input is the list.
unfoldable pub url_decode : Bytes → Bytes
unfolding escaped plain
url_decode [] = []
url_decode (c ∷ []) = plain c ∷ []
url_decode (c ∷ x ∷ []) = plain c ∷ plain x ∷ []
url_decode (c ∷ x ∷ y ∷ rest) = elim (escaped c x y) [
  | none ↦ plain c ∷ url_decode (x ∷ y ∷ rest)
  | some v ↦ v ∷ url_decode rest
]
