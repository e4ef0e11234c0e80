-- ===== src/Http/Safety.antt =====
-- What an accepted request has passed, and what of the file system the server can read.
use cc_learning.Base.{
  ◌+◌, ◌≡◌, refl, ap, [], ◌∷◌, ◌++◌, Option, none, some, take, drop, Bytes, bytes, eq_bytes,
  has_prefix, find_sub, if◌then◌else◌, if_elim, Option-cases, inl, inr,
}
use cc_learning.Buffer.{Buffer, contents, retrieve_all_as_string, init, initial_size}
use cc_learning.Http.Request.{
  HttpRequest, new_request, Outcome, accepted, refused, throws, get, stoi, set_versions, ℤ,
  parse_version, check_path, parse_words, parse_request_line, request_words, split_query,
  parse_headers, after_line, parse_request, crlf,
}
use cc_learning.Http.Response.{append_to_buffer}
use cc_learning.Http.Url.{url_decode}
use cc_learning.Http.Server.{answers, consume, answer, respond, on_message}

-- An accepted request is a GET request, and its path does not climb.
abbrev pub IsSafe : Outcome × HttpRequest → Type 0
IsSafe (accepted, r) = (r.method ≡ get) × (find_sub (bytes "..") r.path ≡ none)
IsSafe (refused, r) = Unit
IsSafe (throws, r) = Unit

set_versions-IsSafe :
    (a b : Option ℤ) (r : HttpRequest) → IsSafe (accepted, r) → IsSafe (set_versions a b r)
unfolding set_versions
set_versions-IsSafe none b r h = tt
set_versions-IsSafe (some a) none r h = tt
set_versions-IsSafe (some a) (some b) r h = h

parse_version-IsSafe :
    (version : Bytes) (r : HttpRequest) → IsSafe (accepted, r) → IsSafe (parse_version version r)
unfolding parse_version
parse_version-IsSafe version r h =
    if_elim IsSafe (has_prefix (bytes "HTTP/") version)
      (λ _. elim (Option-cases (find_sub (46 ∷ []) (drop 5 version))) [
        | inl e ↦ rw e h
        | inr (i, e) ↦ rw e (
            set_versions-IsSafe (stoi (take i (drop 5 version)))
              (stoi (drop (i + 1) (drop 5 version))) r h)
      ])
      (λ _. h)

check_path-IsSafe :
    (version : Bytes) (r : HttpRequest) → r.method ≡ get → IsSafe (check_path version r)
unfolding check_path find_sub has_prefix
check_path-IsSafe version r g = elim (Option-cases (find_sub (bytes "..") r.path)) [
  | inl e ↦
      rw (e, check_path)
        (parse_version-IsSafe version
          (if eq_bytes r.path (bytes "/") then record r { path = bytes "/index.html" } else r)
          (if_elim (λ x. IsSafe (accepted, x)) (eq_bytes r.path (bytes "/")) (λ _. (g, refl))
            (λ _. (g, e))))
  | inr (i, e) ↦ rw (e, check_path) tt
]

split_query-method : (p : Bytes) (r : HttpRequest) → (split_query p r).method ≡ r.method
unfolding split_query
split_query-method p r = elim (Option-cases (find_sub (63 ∷ []) p)) [
  | inl e ↦ rw (split_query, e) refl
  | inr (i, e) ↦ rw (split_query, e) refl
]

parse_words-IsSafe :
    (w : Option (Bytes × Bytes × Bytes)) (r : HttpRequest) → IsSafe (parse_words w r)
unfolding parse_words
parse_words-IsSafe none r = tt
parse_words-IsSafe (some (m, p, version)) r =
    if_elim IsSafe (eq_bytes m (bytes "GET"))
      (λ _.
        let r' : HttpRequest = split_query p (record r { method = get }) in
        check_path-IsSafe version (record r' { path = url_decode r'.path })
          (split_query-method p (record r { method = get })))
      (λ _. tt)

after_line-IsSafe : (d : Bytes) (o : Outcome × HttpRequest) → IsSafe o → IsSafe (after_line d o)
unfolding after_line parse_headers
after_line-IsSafe d (refused, r) h = tt
after_line-IsSafe d (throws, r) h = tt
after_line-IsSafe d (accepted, r) h =
    if_elim (λ o. IsSafe (o, (parse_headers d r).1)) (parse_headers d r).0 (λ _. h) (λ _. tt)

-- Whatever bytes are parsed: a request that is accepted has the method `GET`, and its decoded path has
-- no `..`.
pub parse_request-IsSafe : (d : Bytes) (r : HttpRequest) → IsSafe (parse_request d r)
unfolding parse_request parse_request_line
parse_request-IsSafe d r = elim (Option-cases (find_sub crlf d)) [
  | inl e ↦ rw (parse_request, e) tt
  | inr (i, e) ↦
      rw (parse_request, e)
        (after_line-IsSafe (drop (i + 2) d) (parse_request_line (take i d) r)
          (parse_words-IsSafe (request_words (take i d)) r))
]

respond_same :
    (files other : Bytes → Option Bytes) (root : Bytes) (r : HttpRequest)
    → files (root ++ r.path) ≡ other (root ++ r.path)
    → respond files root r ≡ respond other root r
unfolding respond
respond_same files other root r e = rw (respond, e) refl

-- The handler reads no file beyond those whose path, behind the root, has no `..`: file systems that
-- agree on those give the same reaction.
pub on_message-confined :
    (files other : Bytes → Option Bytes) (root : Bytes) (buf : Buffer)
    → ((p : Bytes) → find_sub (bytes "..") p ≡ none → files (root ++ p) ≡ other (root ++ p))
    → on_message files root buf ≡ on_message other root buf
unfolding on_message answer
on_message-confined files other root buf same =
    reacts (parse_request (contents buf) new_request)
      (parse_request-IsSafe (contents buf) new_request)
  where
    reacts :
        (o : Outcome × HttpRequest) → IsSafe o → answer files root o buf ≡ answer other root o buf
    reacts (refused, r) h = refl
    reacts (throws, r) h = refl
    reacts (accepted, r) h =
        ap
          (λ response. (
            answers (retrieve_all_as_string (append_to_buffer response (init initial_size))).0,
            consume buf,
          ))
          (respond_same files other root r (same r.path h.1))
