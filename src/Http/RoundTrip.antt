-- ===== src/Http/RoundTrip.antt =====
-- `HttpRequest::parseRequest` on the text of a request.
use cc_learning.Base.{
  ℕ, ◌/◌, ◌%◌, ◌≤◌, ◌<◌, ◌≡◌, refl, ap, ap₂, ◌∙◌, arith, Bool, true, false, ◌&&◌, ◌||◌, List, [],
  ◌∷◌, ◌++◌, Option, none, some, Bytes, bytes, length, find_sub, if◌then◌else◌, if_elim, Bool-cases,
  inl, inr, Lacks, find_sub-append, find_sub-none, take-append_length, drop-append_more, All,
  All-append, All-map, ◌==◌, leb, has_prefix, eq_bytes,
}
use cc_learning.Http.Request.{
  HttpRequest, new_request, get, pos, accepted, refused, crlf, is_space, skip_spaces, take_word,
  next_word, request_words, parse_words, parse_request_line, split_query, check_path, parse_version,
  set_versions, stoi, stoi_signed, read_digits, to_int, after_line, parse_request,
}
use cc_learning.Http.Url.{url_decode}
use cc_learning.Http.Escapes.{hex_digit, escape, url_decode-escape}
use cc_learning.Http.Headers.{IsHeader, print_headers, insert_all, parse_headers-print_headers}

-- Letters, digits, `-`, `.` and `/`: what needs no escape in a path.
abbrev pub unreserved : ℕ → Bool
unreserved c = (leb 45 c && leb c 57) || ((leb 65 c && leb c 90) || (leb 97 c && leb c 122))

-- Neither a space, nor the carriage return, nor the question mark.
abbrev pub IsClean : ℕ → Type 0
IsClean c = (is_space c ≡ false) × ((13 == c) ≡ false) × ((63 == c) ≡ false)

hex_digit-IsClean : (n : ℕ) → n < 16 → IsClean (hex_digit n)
hex_digit-IsClean n h = ground arith

unreserved-IsClean : (c : ℕ) → unreserved c ≡ true → IsClean c
unreserved-IsClean c h = ground arith

pub escape-IsClean : (d : Bytes) → All (λ c. c < 256) d → All IsClean (escape unreserved d)
escape-IsClean [] h = tt
escape-IsClean (c ∷ cs) h =
    if_elim (All IsClean) (unreserved c) (λ u. (unreserved-IsClean c u, escape-IsClean cs h.1))
      (λ _. (
        (refl, refl, refl),
        (
          hex_digit-IsClean (c / 16) (omega (arith, h.0)),
          (hex_digit-IsClean (c % 16) (omega arith), escape-IsClean cs h.1),
        ),
      ))

take_word-append : (w rest : Bytes) → All IsClean w → take_word (w ++ (32 ∷ rest)) ≡ (w, 32 ∷ rest)
unfolding take_word
take_word-append [] rest h = refl
take_word-append (c ∷ cs) rest h = rw (take_word, h.0.0, take_word-append cs rest h.1) refl

next_word_lem :
    (c : ℕ) (cs rest : Bytes)
    → All IsClean (c ∷ cs)
    → next_word (32 ∷ (c ∷ cs) ++ (32 ∷ rest)) ≡ (c ∷ cs, 32 ∷ rest)
unfolding next_word skip_spaces
next_word_lem c cs rest h =
    let s : skip_spaces (32 ∷ (c ∷ cs) ++ (32 ∷ rest)) ≡ (c ∷ cs) ++ (32 ∷ rest) = rw h.0.0 refl in
    ap take_word s ∙ take_word-append (c ∷ cs) rest h

-- `GET path HTTP/1.0`
abbrev pub request_line : Bytes → Bytes
request_line target = bytes "GET" ++ (32 ∷ (target ++ (32 ∷ bytes "HTTP/1.0")))

request_words_eq :
    (line m after_method p after_path rest : Bytes) (v : ℕ) (vs : Bytes)
    → next_word line ≡ (m, after_method)
    → next_word after_method ≡ (p, after_path)
    → next_word after_path ≡ (v ∷ vs, rest)
    → request_words line ≡ some (m, p, v ∷ vs)
unfolding request_words
request_words_eq line m after_method p after_path rest v vs e f g =
    let e' : next_word (next_word line).1 ≡ (p, after_path) = ap (λ x. next_word x.1) e ∙ f in
    let e'' : next_word (next_word (next_word line).1).1 ≡ (v ∷ vs, rest) =
      ap (λ x. next_word x.1) e' ∙ g in
    rw (request_words, e'')
      (ap₂ {C = Option (Bytes × Bytes × Bytes)} (λ a b. some (a, b, v ∷ vs)) (ap (λ x. x.0) e)
        (ap (λ x. x.0) e'))

request_words_lem :
    (target : Bytes)
    → 1 ≤ length target
    → All IsClean target
    → request_words (request_line target) ≡ some (bytes "GET", target, bytes "HTTP/1.0")
unfolding next_word skip_spaces take_word
request_words_lem [] n h = absurd (omega arith)
request_words_lem (c ∷ cs) n h =
    request_words_eq (request_line (c ∷ cs)) (bytes "GET")
      (32 ∷ ((c ∷ cs) ++ (32 ∷ bytes "HTTP/1.0"))) (c ∷ cs) (32 ∷ bytes "HTTP/1.0") [] 72
      (bytes "TTP/1.0") refl (next_word_lem c cs (bytes "HTTP/1.0") h) refl

escape_some : (keep : ℕ → Bool) (c : ℕ) (cs : Bytes) → 1 ≤ length (escape keep (c ∷ cs))
escape_some keep c cs =
    if_elim (λ (x : Bytes). 1 ≤ length x) (keep c) (λ _. omega arith) (λ _. omega arith)

-- The request as it is sent.
abbrev pub print_request : Bytes → List (Bytes × Bytes) → Bytes → Bytes
print_request path hs rest =
    request_line (escape unreserved path) ++ (crlf ++ print_headers hs (crlf ++ rest))

-- The path under which a request for `path` is answered.
abbrev pub served_path : Bytes → Bytes
served_path path = if eq_bytes path (bytes "/") then bytes "/index.html" else path

check_path_lem :
    (path : Bytes) (r : HttpRequest)
    → find_sub (bytes "..") path ≡ none
    → check_path (bytes "HTTP/1.0") (record r { path = path }) ≡ (
      accepted,
      record r { path = served_path path; major_version = pos 1; minor_version = pos 0 },
    )
unfolding check_path parse_version set_versions stoi stoi_signed skip_spaces read_digits to_int
    find_sub has_prefix
check_path_lem path r e = elim (Bool-cases (eq_bytes path (bytes "/"))) [
  | inl b ↦ rw (check_path, e, b) refl
  | inr b ↦ rw (check_path, e, b) refl
]

split_query_lem :
    (target : Bytes) (r : HttpRequest)
    → Lacks 63 target
    → split_query target r ≡ record r { path = target }
unfolding split_query
split_query_lem target r h = rw (split_query, find_sub-none 63 [] target h) refl

parse_words_lem :
    (target path : Bytes)
    → Lacks 63 target
    → url_decode target ≡ path
    → find_sub (bytes "..") path ≡ none
    → parse_words (some (bytes "GET", target, bytes "HTTP/1.0")) new_request
      ≡ (accepted, record new_request { method = get; path = served_path path })
unfolding parse_words eq_bytes
parse_words_lem target path h e f =
    rw (split_query_lem target (record new_request { method = get }) h, e)
      (check_path_lem path (record new_request { method = get }) f)

pub request_line-Lacks : (target : Bytes) → All IsClean target → Lacks 13 (request_line target)
request_line-Lacks target h = (
  refl,
  (
    refl,
    (
      refl,
      (
        refl,
        All-append (λ c. (13 == c) ≡ false) target (32 ∷ bytes "HTTP/1.0")
            (All-map (λ c k. k.1) target h)
            (refl, (refl, (refl, (refl, (refl, (refl, (refl, (refl, (refl, tt))))))))),
      ),
    ),
  ),
)

pub parse_request_eq :
    (line d : Bytes) (r : HttpRequest)
    → Lacks 13 line
    → parse_request (line ++ (crlf ++ d)) r ≡ after_line d (parse_request_line line r)
unfolding parse_request
parse_request_eq line d r h =
    let f : find_sub crlf (line ++ (crlf ++ d)) ≡ some (length line) =
      find_sub-append 13 (10 ∷ []) line d h in
    rw (parse_request, f)
      (ap₂ (λ a b. after_line a (parse_request_line b r)) (drop-append_more 2 line (crlf ++ d))
        (take-append_length (length line) line (crlf ++ d) refl))

after_line_lem :
    (hs : List (Bytes × Bytes)) (rest : Bytes) (r : HttpRequest)
    → All IsHeader hs
    → after_line (print_headers hs (crlf ++ rest)) (accepted, r)
      ≡ (accepted, record r { headers = insert_all hs r.headers })
unfolding after_line
after_line_lem hs rest r h =
    ap (λ (o : Bool × HttpRequest). (if o.0 then accepted else refused, o.1))
      (parse_headers-print_headers hs rest r h)

-- What is read of a printed request.
abbrev pub printed_request : Bytes → List (Bytes × Bytes) → HttpRequest
printed_request path hs = record new_request {
  method = get;
  path = served_path path;
  headers = insert_all hs [];
}

-- A printed request for a path that is not empty and has no `..` is accepted, whatever follows it: the path is read back through its escapes, `/`
-- stands for the index, and the headers are those of the lines.
pub parse_request-print_request :
    (c : ℕ) (cs : Bytes) (hs : List (Bytes × Bytes)) (rest : Bytes)
    → All (λ x. x < 256) (c ∷ cs)
    → find_sub (bytes "..") (c ∷ cs) ≡ none
    → All IsHeader hs
    → parse_request (print_request (c ∷ cs) hs rest) new_request
      ≡ (accepted, printed_request (c ∷ cs) hs)
unfolding parse_request_line
parse_request-print_request c cs hs rest b e h =
    let target : Bytes = escape unreserved (c ∷ cs) in
    let clean : All IsClean target = escape-IsClean (c ∷ cs) b in
    let line : parse_request_line (request_line target) new_request
        ≡ (accepted, record new_request { method = get; path = served_path (c ∷ cs) }) =
      ap (λ w. parse_words w new_request)
        (request_words_lem target (escape_some unreserved c cs) clean)
      ∙ parse_words_lem target (c ∷ cs) (All-map (λ x k. k.2) target clean)
          (url_decode-escape unreserved (c ∷ cs) refl refl b) e in
    parse_request_eq (request_line target) (print_headers hs (crlf ++ rest)) new_request
      (request_line-Lacks target clean)
    ∙ ap (after_line (print_headers hs (crlf ++ rest))) line
    ∙ after_line_lem hs rest (record new_request { method = get; path = served_path (c ∷ cs) }) h
