-- ===== src/Http/Request.antt =====
-- `HttpRequest`: reactor_net/include/HttpRequest.h and reactor_net/src/HttpRequest.cpp.
use cc_learning.Base.{
  ℕ, zero, suc, ◌+◌, ◌-◌, ◌*◌, ◌^◌, Bool, true, false, ◌&&◌, ◌||◌, [], ◌∷◌, Option, none, some,
  length, take, drop, Bytes, bytes, eq_bytes, has_prefix, find_sub, ◌==◌, ltb, leb, if◌then◌else◌,
  StringMap, lookup, insert,
}
use cc_learning.Http.Url.{url_decode}

pub data Method : Type 0 where
  invalid get : Method

-- An `int`.
pub data ℤ : Type 0 where
  pos : ℕ → ℤ
  negsuc : ℕ → ℤ

pub record HttpRequest : Type 0 where
  pub method : Method
  pub path : Bytes
  pub query : Bytes
  pub headers : StringMap Bytes
  pub major_version : ℤ
  pub minor_version : ℤ

abbrev pub new_request : HttpRequest
new_request = record {
  method = invalid;
  path = [];
  query = [];
  headers = [];
  major_version = pos 1;
  minor_version = pos 0;
}

-- `true`, `false`, or the exception of `std::stoi`.
pub data Outcome : Type 0 where
  accepted refused throws : Outcome

abbrev pub crlf : Bytes
crlf = 13 ∷ 10 ∷ []

-- `std::isspace`
abbrev pub is_space : ℕ → Bool
is_space c = c == 32 || (leb 9 c && leb c 13)

unfoldable pub skip_spaces : Bytes → Bytes
skip_spaces [] = []
skip_spaces (c ∷ cs) = let rest = skip_spaces cs in if is_space c then rest else c ∷ cs

-- The characters up to the next space, and those from it on.
unfoldable pub take_word : Bytes → Bytes × Bytes
take_word [] = ([], [])
take_word (c ∷ cs) =
    let (w, rest) = take_word cs in if is_space c then ([], c ∷ cs) else (c ∷ w, rest)

-- `iss >> word`; it fails if the word is empty.
unfoldable pub next_word : Bytes → Bytes × Bytes
unfolding skip_spaces take_word
next_word d = take_word (skip_spaces d)

-- `iss >> method >> path >> version`; when one fails there is none after it.
unfoldable pub request_words : Bytes → Option (Bytes × Bytes × Bytes)
unfolding next_word
request_words line =
    let (m, after_method) = next_word line in
    let (p, after_path) = next_word after_method in
    let (v, rest) = next_word after_path in elim v [ [] ↦ none | c ∷ cs ↦ some (m, p, c ∷ cs) ]

abbrev pub is_digit : ℕ → Bool
is_digit c = leb 48 c && leb c 57

-- The number that the leading digits make, and how many they are.
unfoldable pub read_digits : ℕ → Bytes → ℕ × ℕ
read_digits value [] = (value, 0)
read_digits value (c ∷ cs) =
    let (n, count) = read_digits (value * 10 + (c - 48)) cs in
    if is_digit c then (n, suc count) else (value, 0)

unfoldable pub to_int : Bool → ℕ × ℕ → Option ℤ
to_int negative (value, count) =
    if count == 0
    then none
    else (if negative
        then (if ltb (2 ^ 31) value
            then none
            else (if value == 0 then some (pos 0) else some (negsuc (value - 1))))
        else (if leb (2 ^ 31) value then none else some (pos value)))

-- `std::stoi`; `none` is an exception.
unfoldable pub stoi_signed : Bytes → Option ℤ
unfolding read_digits to_int
stoi_signed [] = none
stoi_signed (c ∷ cs) =
    if c == 45
    then to_int true (read_digits 0 cs)
    else (if c == 43
        then to_int false (read_digits 0 cs)
        else to_int false (read_digits 0 (c ∷ cs)))

unfoldable pub stoi : Bytes → Option ℤ
unfolding stoi_signed skip_spaces
stoi d = stoi_signed (skip_spaces d)

-- Path and query, parted at the first `?`.
unfoldable pub split_query : Bytes → HttpRequest → HttpRequest
split_query p r = elim (find_sub (63 ∷ []) p) [
  | none ↦ record r { path = p }
  | some i ↦ record r { query = drop (i + 1) p; path = take i p }
]

unfoldable pub set_versions : Option ℤ → Option ℤ → HttpRequest → Outcome × HttpRequest
set_versions none minor r = (throws, r)
set_versions (some a) none r = (throws, record r { major_version = a })
set_versions (some a) (some b) r = (accepted, record r { major_version = a; minor_version = b })

unfoldable pub parse_version : Bytes → HttpRequest → Outcome × HttpRequest
unfolding stoi set_versions
parse_version version r =
    if has_prefix (bytes "HTTP/") version
    then (let ver_str = drop 5 version in
        elim (find_sub (46 ∷ []) ver_str) [
          | none ↦ (accepted, r)
          | some i ↦ set_versions (stoi (take i ver_str)) (stoi (drop (i + 1) ver_str)) r
        ])
    else (accepted, r)

-- From the decoded path on.
unfoldable pub check_path : Bytes → HttpRequest → Outcome × HttpRequest
unfolding parse_version
check_path version r = elim (find_sub (bytes "..") r.path) [
  | some i ↦ (refused, r)
  | none ↦
      parse_version version
        (if eq_bytes r.path (bytes "/") then record r { path = bytes "/index.html" } else r)
]

unfoldable pub parse_words : Option (Bytes × Bytes × Bytes) → HttpRequest → Outcome × HttpRequest
unfolding split_query check_path
parse_words none r = (refused, r)
parse_words (some (m, p, version)) r =
    if eq_bytes m (bytes "GET")
    then (let r' = split_query p (record r { method = get }) in
        check_path version (record r' { path = url_decode r'.path }))
    else (refused, record r { method = invalid })

unfoldable pub parse_request_line : Bytes → HttpRequest → Outcome × HttpRequest
unfolding request_words parse_words
parse_request_line line r = parse_words (request_words line) r

abbrev pub is_blank : ℕ → Bool
is_blank c = c == 32 || c == 9

unfoldable pub trim_left : Bytes → Bytes
trim_left [] = []
trim_left (c ∷ cs) = let rest = trim_left cs in if is_blank c then rest else c ∷ cs

unfoldable pub trim_right : Bytes → Bytes
trim_right [] = []
trim_right (c ∷ cs) = elim (trim_right cs) [
  | [] ↦ if is_blank c then [] else c ∷ []
  | x ∷ xs ↦ c ∷ x ∷ xs
]

unfoldable pub trim : Bytes → Bytes
unfolding trim_left trim_right
trim d = trim_right (trim_left d)

-- One header line; a line with no colon is passed over.
unfoldable pub add_line : Bytes → StringMap Bytes → StringMap Bytes
unfolding trim
add_line line headers = elim (find_sub (58 ∷ []) line) [
  | none ↦ headers
  | some i ↦ insert (trim (take i line)) (trim (drop (i + 1) line)) headers
]

-- The loop of `parseHeaders` on what is left, with fuel for its rounds; `none` says that it ran out.
unfoldable pub header_loop : ℕ → Bytes → StringMap Bytes → Option (Bool × StringMap Bytes)
unfolding add_line
header_loop zero [] headers = some (false, headers)
header_loop zero (c ∷ cs) headers = none
header_loop (suc n) [] headers = some (false, headers)
header_loop (suc n) (c ∷ cs) headers = elim (find_sub crlf (c ∷ cs)) [
  | none ↦ some (false, headers)
  | some zero ↦ some (true, headers)
  | some (suc i) ↦
      header_loop n (drop (suc i + 2) (c ∷ cs)) (add_line (take (suc i) (c ∷ cs)) headers)
]

-- Each round takes two bytes at least, so the fuel does not run out.
unfoldable pub parse_headers : Bytes → HttpRequest → Bool × HttpRequest
unfolding header_loop
parse_headers d r =
    let result : Bool × StringMap Bytes = elim (header_loop (length d) d r.headers) [
      | none ↦ (false, r.headers)
      | some x ↦ x
    ] in
    (result.0, record r { headers = result.1 })

unfoldable pub after_line : Bytes → Outcome × HttpRequest → Outcome × HttpRequest
unfolding parse_headers
after_line d (refused, r) = (refused, r)
after_line d (throws, r) = (throws, r)
after_line d (accepted, r) =
    let (done, r') = parse_headers d r in (if done then accepted else refused, r')

unfoldable pub parse_request : Bytes → HttpRequest → Outcome × HttpRequest
unfolding parse_request_line after_line
parse_request d r = elim (find_sub crlf d) [
  | none ↦ (refused, r)
  | some i ↦ after_line (drop (i + 2) d) (parse_request_line (take i d) r)
]

unfoldable pub get_header : HttpRequest → Bytes → Bytes
get_header r field = elim (lookup r.headers field) [ none ↦ [] | some v ↦ v ]
