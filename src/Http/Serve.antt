-- ===== src/Http/Serve.antt =====
-- `HttpServer::onMessage` on a buffer that holds a request.
use cc_learning.Base.{
  ℕ, ◌+◌, ◌≤◌, ◌<◌, ◌≡◌, refl, sym, ap, ◌∙◌, arith, false, List, [], ◌∷◌, ◌++◌, Option, none, some,
  Bytes, bytes, length, length-append, find_sub, has_prefix, Lacks, find_sub-append,
  find_sub-behind, drop, drop-append_more, All, size_mod, eq_bytes, ◌==◌, subst,
}
use cc_learning.Buffer.{Buffer, contents}
use cc_learning.Buffer.Invariant.{IsValid}
use cc_learning.Buffer.Stream.{contents-retrieve}
use cc_learning.Http.Request.{
  HttpRequest, new_request, accepted, crlf, parse_request, parse_request_line, parse_words,
  request_words, refused, invalid, after_line,
}
use cc_learning.Http.Server.{waits, answers, consume, respond, answer, on_message}
use cc_learning.Http.Escapes.{escape}
use cc_learning.Http.Headers.{IsHeader, print_headers}
use cc_learning.Http.Format.{print_response, sent_lem}
use cc_learning.Http.RoundTrip.{
  print_request, printed_request, request_line, unreserved, parse_request-print_request,
  escape-IsClean, request_line-Lacks, parse_request_eq,
}

-- The empty line behind the headers.
abbrev end_of_request : Bytes
end_of_request = 13 ∷ 10 ∷ 13 ∷ 10 ∷ []

next_line :
    (d : Bytes) (i x : ℕ) (xs : Bytes)
    → d ≡ x ∷ xs
    → (13 == x) ≡ false
    → find_sub end_of_request d ≡ some i
    → find_sub end_of_request (crlf ++ d) ≡ some (2 + i)
unfolding find_sub has_prefix
next_line d i x xs q n e =
    let p : has_prefix (13 ∷ 10 ∷ []) d ≡ false =
      subst (λ z. has_prefix (13 ∷ 10 ∷ []) z ≡ false) (sym q) (rw n refl) in
    rw (p, e) (ap some (omega arith))

-- Where the first empty line stands, and what follows it.
record EndsAt (d rest : Bytes) : Type 0 where
  pub at : ℕ
  pub found : find_sub end_of_request d ≡ some at
  pub leaves : drop (at + 4) d ≡ rest

head_ne :
    (line d : Bytes)
    → 1 ≤ length line
    → Lacks 13 line
    → (x : ℕ) × (xs : Bytes) × (line ++ d ≡ x ∷ xs) × ((13 == x) ≡ false)
head_ne [] d h l = absurd (omega arith)
head_ne (x ∷ xs) d h l = (x, xs ++ d, refl, l.0)

ends_at :
    (line : Bytes) (hs : List (Bytes × Bytes)) (rest : Bytes)
    → Lacks 13 line
    → All IsHeader hs
    → EndsAt (line ++ (crlf ++ print_headers hs (crlf ++ rest))) rest
ends_at line [] rest l h = record {
  at = length line;
  found = find_sub-append 13 (10 ∷ 13 ∷ 10 ∷ []) line rest l;
  leaves = drop-append_more 4 line (crlf ++ (crlf ++ rest));
}
ends_at line ((key, value) ∷ hs) rest l h =
    let next : Bytes = key ++ (58 ∷ 32 ∷ value) in
    let d : Bytes = next ++ (crlf ++ print_headers hs (crlf ++ rest)) in
    let e : EndsAt d rest = ends_at next hs rest h.0.one_line h.1 in
    let (x, xs, q, n) =
      head_ne next (crlf ++ print_headers hs (crlf ++ rest))
        (omega (arith, length-append key (58 ∷ 32 ∷ value))) h.0.one_line in
    record {
      at = length line + (2 + e.at);
      found =
          find_sub-behind 13 (10 ∷ 13 ∷ 10 ∷ []) line (crlf ++ d) (2 + e.at) l
            (next_line d e.at x xs q n e.found);
      leaves =
          (let s : length line + (2 + e.at) + 4 ≡ length line + (2 + (e.at + 4)) = omega arith in
            ap (λ k. drop k (line ++ (crlf ++ d))) s)
          ∙ drop-append_more (2 + (e.at + 4)) line (crlf ++ d)
          ∙ drop-append_more (e.at + 4) crlf d
          ∙ e.leaves;
    }

consume_lem :
    {buf : Buffer} {d rest : Bytes}
    → IsValid buf
    → contents buf ≡ d
    → EndsAt d rest
    → contents (consume buf) ≡ rest
unfolding consume
consume_lem {buf} {d} v q e =
    rw (consume, q, e.found) (contents-retrieve (e.at + 4) v ∙ ap (drop (e.at + 4)) q ∙ e.leaves)

module _ (files : Bytes → Option Bytes) (root : Bytes) where
  -- When the buffer holds a printed request, for a path that is not empty and has no `..`, with other
  -- bytes behind it, and the response is small enough for a buffer, the handler sends the response for
  -- the path, and the bytes behind the request are what stays in the buffer.
  pub on_message-print_request :
      {buf : Buffer} (c : ℕ) (cs : Bytes) (hs : List (Bytes × Bytes)) (rest : Bytes)
      → IsValid buf
      → contents buf ≡ print_request (c ∷ cs) hs rest
      → All (λ x. x < 256) (c ∷ cs)
      → find_sub (bytes "..") (c ∷ cs) ≡ none
      → All IsHeader hs
      → 1040 + length (print_response (respond files root (printed_request (c ∷ cs) hs))) < size_mod
      → ((on_message files root buf).0
          ≡ answers (print_response (respond files root (printed_request (c ∷ cs) hs))))
        × (contents (on_message files root buf).1 ≡ rest)
  unfolding on_message answer
  on_message-print_request {buf} c cs hs rest v q b e h small =
      let request : HttpRequest = printed_request (c ∷ cs) hs in
      let o : parse_request (contents buf) new_request ≡ (accepted, request) =
        ap (λ d. parse_request d new_request) q ∙ parse_request-print_request c cs hs rest b e h in
      let m : on_message files root buf ≡ answer files root (accepted, request) buf =
        ap (λ p. answer files root p buf) o in
      (
        ap (λ x. x.0) m ∙ ap answers (sent_lem (respond files root request) small),
        ap (λ x. contents x.1) m
            ∙ consume_lem v q (
                ends_at (request_line (escape unreserved (c ∷ cs))) hs rest
                  (request_line-Lacks (escape unreserved (c ∷ cs)) (escape-IsClean (c ∷ cs) b)) h),
      )

  -- A complete request line with another method than `GET` is taken for an incomplete request: whatever
  -- bytes follow it, nothing is sent and nothing is taken off the buffer.
  pub on_message-other_method :
      {buf : Buffer} (line d m p v : Bytes)
      → contents buf ≡ line ++ (crlf ++ d)
      → Lacks 13 line
      → request_words line ≡ some (m, p, v)
      → eq_bytes m (bytes "GET") ≡ false
      → on_message files root buf ≡ (waits, buf)
  unfolding on_message answer parse_request_line parse_words after_line
  on_message-other_method {buf} line d m p v q l w n =
      let other : HttpRequest = record new_request { method = invalid } in
      let o : parse_request (contents buf) new_request ≡ (refused, other) =
        ap (λ x. parse_request x new_request) q
        ∙ parse_request_eq line d new_request l
        ∙ ap (λ x. after_line d (parse_words x new_request)) w
        ∙ rw n refl in
      ap (λ x. answer files root x buf) o
