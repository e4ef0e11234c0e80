-- ===== src/Http/Headers.antt =====
-- `HttpRequest::parseHeaders`: the fuel of its loop, and the text of header lines.
use cc_learning.Base.{
  ℕ, zero, suc, ◌+◌, ◌≤◌, ◌<◌, ◌≡◌, ◌≢◌, refl, ap, ap₂, ◌∙◌, arith, Bool, true, false, List, [],
  ◌∷◌, ◌++◌, Option, none, some, take, drop, Bytes, length, length-append, find_sub, StringMap,
  insert, Lacks, find_sub-append, take-append_length, drop-append_more, has_prefix, length-drop,
  All,
}
use cc_learning.Http.Request.{header_loop, add_line, trim, crlf, HttpRequest, parse_headers}

-- With one unit of fuel for each byte, or more, the loop of `parseHeaders` ends before the fuel does.
pub header_loop_ends :
    (n : ℕ) (d : Bytes) (headers : StringMap Bytes) → length d ≤ n → header_loop n d headers ≢ none
unfolding header_loop
header_loop_ends zero [] headers h = λ e. (let z : ⊥ = cc in z)
header_loop_ends zero (c ∷ cs) headers h = absurd (omega (arith, h))
header_loop_ends (suc n) [] headers h = λ e. (let z : ⊥ = cc in z)
header_loop_ends (suc n) (c ∷ cs) headers h = rounds (find_sub crlf (c ∷ cs)) (λ i.
    header_loop_ends n (drop (suc i + 2) (c ∷ cs)) (add_line (take (suc i) (c ∷ cs)) headers)
      (omega (arith, h, length-drop (suc i + 2) (c ∷ cs))))
  where
    rounds :
        (o : Option ℕ)
        → ((i : ℕ)
            → header_loop n (drop (suc i + 2) (c ∷ cs)) (add_line (take (suc i) (c ∷ cs)) headers)
              ≢ none)
        → ◌≢◌ {A = Option (Bool × StringMap Bytes)}
            (elim o [
              | none ↦ some (false, headers)
              | some zero ↦ some (true, headers)
              | some (suc i) ↦
                  header_loop n
                    (drop (suc i + 2) (c ∷ cs))
                    (add_line (take (suc i) (c ∷ cs)) headers)
            ])
            none
    rounds none next = λ e. (let z : ⊥ = cc in z)
    rounds (some zero) next = λ e. (let z : ⊥ = cc in z)
    rounds (some (suc i)) next = next i

-- A key and a value that a header line can carry.
pub record IsHeader (h : Bytes × Bytes) : Type 0 where
  pub one_line : Lacks 13 (h.0 ++ 58 ∷ 32 ∷ h.1)
  pub no_colon : Lacks 58 h.0
  pub key_trimmed : trim (h.0) ≡ h.0
  pub value_trimmed : trim (32 ∷ h.1) ≡ h.1

-- The lines `key: value`.
abbrev pub print_headers : List (Bytes × Bytes) → Bytes → Bytes
print_headers [] after = after
print_headers ((key, value) ∷ hs) after =
    (key ++ 58 ∷ 32 ∷ value) ++ (crlf ++ print_headers hs after)

abbrev pub insert_all : List (Bytes × Bytes) → StringMap Bytes → StringMap Bytes
insert_all [] m = m
insert_all ((key, value) ∷ hs) m = insert_all hs (insert key value m)

add_line_lem :
    (key value : Bytes) (m : StringMap Bytes)
    → IsHeader (key, value)
    → add_line (key ++ 58 ∷ 32 ∷ value) m ≡ insert key value m
unfolding add_line
add_line_lem key value m h =
    let f : find_sub (58 ∷ []) (key ++ 58 ∷ 32 ∷ value) ≡ some (length key) =
      find_sub-append 58 [] key (32 ∷ value) h.no_colon in
    let t : trim (take (length key) (key ++ 58 ∷ 32 ∷ value)) ≡ key =
      ap trim (take-append_length (length key) key (58 ∷ 32 ∷ value) refl) ∙ h.key_trimmed in
    let d : trim (drop (length key + 1) (key ++ 58 ∷ 32 ∷ value)) ≡ value =
      ap trim (drop-append_more 1 key (58 ∷ 32 ∷ value)) ∙ h.value_trimmed in
    rw (add_line, f) (ap₂ (λ k v. insert k v m) t d)

header_round :
    (n x : ℕ) (xs rest : Bytes) (m : StringMap Bytes)
    → Lacks 13 (x ∷ xs)
    → header_loop (suc n) ((x ∷ xs) ++ (crlf ++ rest)) m ≡ header_loop n rest (add_line (x ∷ xs) m)
unfolding header_loop
header_round n x xs rest m h =
    let f : find_sub crlf ((x ∷ xs) ++ (crlf ++ rest)) ≡ some (suc (length xs)) =
      find_sub-append 13 (10 ∷ []) (x ∷ xs) rest h in
    let t : take (suc (length xs)) ((x ∷ xs) ++ (crlf ++ rest)) ≡ x ∷ xs =
      take-append_length (suc (length xs)) (x ∷ xs) (crlf ++ rest) refl in
    let d : drop (suc (length xs) + 2) ((x ∷ xs) ++ (crlf ++ rest)) ≡ rest =
      drop-append_more 2 (x ∷ xs) (crlf ++ rest) in
    rw (header_loop, f) (ap₂ (λ a b. header_loop n a (add_line b m)) d t)

round_any :
    (n : ℕ) (line rest : Bytes) (m : StringMap Bytes)
    → 1 ≤ length line
    → Lacks 13 line
    → header_loop (suc n) (line ++ (crlf ++ rest)) m ≡ header_loop n rest (add_line line m)
round_any n [] rest m p h = absurd (omega arith)
round_any n (x ∷ xs) rest m p h = header_round n x xs rest m h

header_loop-print_headers :
    (n : ℕ) (hs : List (Bytes × Bytes)) (rest : Bytes) (m : StringMap Bytes)
    → length hs < n
    → All IsHeader hs
    → header_loop n (print_headers hs (crlf ++ rest)) m ≡ some (true, insert_all hs m)
unfolding header_loop find_sub has_prefix
header_loop-print_headers zero hs rest m p h = absurd (omega arith)
header_loop-print_headers (suc n) [] rest m p h = refl
header_loop-print_headers (suc n) ((key, value) ∷ hs) rest m p h =
    round_any n (key ++ 58 ∷ 32 ∷ value) (print_headers hs (crlf ++ rest)) m
      (omega (arith, length-append key (58 ∷ 32 ∷ value))) h.0.one_line
    ∙ ap (header_loop n (print_headers hs (crlf ++ rest))) (add_line_lem key value m h.0)
    ∙ header_loop-print_headers n hs rest (insert key value m) (omega arith) h.1

length-print_headers :
    (hs : List (Bytes × Bytes)) (rest : Bytes)
    → length hs + length rest ≤ length (print_headers hs rest)
length-print_headers [] rest = omega arith
length-print_headers ((key, value) ∷ hs) rest = omega (
  arith,
  length-append (key ++ 58 ∷ 32 ∷ value) (crlf ++ print_headers hs rest),
  length-append key (58 ∷ 32 ∷ value),
  length-append crlf (print_headers hs rest),
  length-print_headers hs rest,
)

-- Header lines that are printed, with an empty line behind them, are read back: each key gets its
-- value, a later line for a key before an earlier one, and what follows is not looked at.
pub parse_headers-print_headers :
    (hs : List (Bytes × Bytes)) (rest : Bytes) (r : HttpRequest)
    → All IsHeader hs
    → parse_headers (print_headers hs (crlf ++ rest)) r
      ≡ (true, record r { headers = insert_all hs r.headers })
unfolding parse_headers
parse_headers-print_headers hs rest r h =
    rw
      (
        parse_headers,
        header_loop-print_headers (length (print_headers hs (crlf ++ rest))) hs rest r.headers
            (omega (arith, length-print_headers hs (crlf ++ rest), length-append crlf rest)) h,
      )
      refl
