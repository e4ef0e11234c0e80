-- ===== src/Http/Format.antt =====
-- What `appendToBuffer` writes.
use cc_learning.Base.{
  ℕ, ◌+◌, ◌≤◌, ◌<◌, ◌≡◌, refl, sym, ap, ◌∙◌, arith, Bool, true, false, List, [], ◌∷◌, ◌++◌, Bytes,
  bytes, length, length-append, append_assoc, append-nil, if◌then◌else◌, size_mod, take_all, take,
  decimal, decimal_loop, ap₂, subst, length-replicate,
}
use cc_learning.Buffer.{
  Buffer, append, contents, init, initial_size, retrieve_all_as_string, readable_bytes,
}
use cc_learning.Buffer.Invariant.{IsValid, append-IsValid, init-IsValid}
use cc_learning.Buffer.Size.{length-append_le}
use cc_learning.Buffer.Stream.{contents-append, retrieve_as_string_lem, length-contents}
use cc_learning.Http.Response.{
  HttpStatusCode, ok, bad_request, not_found, internal_server_error, status_number,
  status_message_for_code, c_str, printed, HttpResponse, new_line, status_line, content_length,
  header_line, append_headers, append_close, append_to_buffer,
}

-- What a response is to look like, written without the code's own lines. A part of a C string ends at
-- its first zero byte, and a line of more than 255 bytes is cut, as `snprintf` does it.
abbrev pub status_text : HttpStatusCode → Bytes
status_text ok = bytes "200"
status_text bad_request = bytes "400"
status_text not_found = bytes "404"
status_text internal_server_error = bytes "500"

-- The message of the response, or that of its code where it has none.
abbrev pub reason : Bytes → HttpStatusCode → Bytes
reason (c ∷ cs) code = c ∷ cs
reason [] ok = bytes "OK"
reason [] bad_request = bytes "Bad Request"
reason [] not_found = bytes "Not Found"
reason [] internal_server_error = bytes "Internal Server Error"

abbrev pub cut_line : Bytes → Bytes
cut_line text = take 255 text

abbrev pub print_line : Bytes × Bytes → Bytes
print_line (key, value) = cut_line (c_str key ++ bytes ": " ++ c_str value ++ 13 ∷ 10 ∷ [])

abbrev pub print_lines : List (Bytes × Bytes) → Bytes
print_lines [] = []
print_lines (h ∷ hs) = print_line h ++ print_lines hs

abbrev pub print_close : Bool → Bytes
print_close close = if close then bytes "Connection: close" ++ 13 ∷ 10 ∷ [] else []

abbrev pub print_status : HttpResponse → Bytes
print_status r = cut_line (
    bytes "HTTP/1.0 "
    ++ status_text r.status_code
    ++ bytes " "
    ++ c_str (reason r.status_message r.status_code)
    ++ 13 ∷ 10 ∷ [])

abbrev pub print_length : HttpResponse → Bytes
print_length r = cut_line (bytes "Content-Length: " ++ decimal (length r.body) ++ 13 ∷ 10 ∷ [])

-- Status line, header lines, an empty line and the body.
abbrev pub print_response : HttpResponse → Bytes
print_response r =
    print_status r
    ++ (print_close r.close_connection
        ++ (print_length r ++ (print_lines r.headers ++ ((13 ∷ 10 ∷ []) ++ r.body))))

-- The same, line by line as the code makes it.
abbrev written_lines : List (Bytes × Bytes) → Bytes
written_lines [] = []
written_lines (h ∷ hs) = header_line h ++ written_lines hs

abbrev written_response : HttpResponse → Bytes
written_response r =
    status_line r
    ++ (print_close r.close_connection
        ++ (content_length r ++ (written_lines r.headers ++ (new_line ++ r.body))))

status_number-text : (code : HttpStatusCode) → decimal (status_number code) ≡ status_text code
unfolding status_number decimal decimal_loop
status_number-text ok = refl
status_number-text bad_request = refl
status_number-text not_found = refl
status_number-text internal_server_error = refl

message-reason :
    (message : Bytes) (code : HttpStatusCode)
    → (elim message [ [] ↦ status_message_for_code code | c ∷ cs ↦ c ∷ cs ]) ≡ reason message code
unfolding status_message_for_code
message-reason (c ∷ cs) code = refl
message-reason [] ok = refl
message-reason [] bad_request = refl
message-reason [] not_found = refl
message-reason [] internal_server_error = refl

status_line-print_status : (r : HttpResponse) → status_line r ≡ print_status r
unfolding status_line printed
status_line-print_status r =
    ap₂
      (λ number message.
        cut_line (bytes "HTTP/1.0 " ++ number ++ bytes " " ++ c_str message ++ 13 ∷ 10 ∷ []))
      (status_number-text r.status_code) (message-reason r.status_message r.status_code)

written_lines-print_lines : (hs : List (Bytes × Bytes)) → written_lines hs ≡ print_lines hs
unfolding header_line printed
written_lines-print_lines [] = refl
written_lines-print_lines ((key, value) ∷ hs) =
    ap (λ d. print_line (key, value) ++ d) (written_lines-print_lines hs)

content_length-print_length : (r : HttpResponse) → content_length r ≡ print_length r
unfolding content_length printed
content_length-print_length r = refl

written-print_response : (r : HttpResponse) → written_response r ≡ print_response r
written-print_response r =
    ap₂ (λ status rest. status ++ (print_close r.close_connection ++ rest))
      (status_line-print_status r)
      (ap₂ (λ n ls. n ++ (ls ++ (new_line ++ r.body))) (content_length-print_length r)
        (written_lines-print_lines r.headers))

-- The second buffer is the first with these bytes appended.
record IsAppended (b : Buffer) (d : Bytes) (b' : Buffer) : Type 0 where
  pub stream : contents b' ≡ contents b ++ d
  pub valid : IsValid b'
  pub size : length b'.buf ≤ length b.buf + length d

append-IsAppended :
    {b : Buffer} (d : Bytes)
    → IsValid b
    → length b.buf + length d + 8 < size_mod
    → IsAppended b d (append b d)
append-IsAppended d v h = record {
  stream = contents-append d v h;
  valid = append-IsValid d v h;
  size = length-append_le d v h;
}

nothing : {b : Buffer} → IsValid b → IsAppended b [] b
nothing {b} v = record { stream = sym (append-nil (contents b)); valid = v; size = omega arith }

-- One after the other.
both :
    {b b' : Buffer} {b'' : Buffer} (d e : Bytes)
    → IsAppended b d b'
    → IsAppended b' e b''
    → IsAppended b (d ++ e) b''
both {b} d e x y = record {
  stream = y.stream ∙ ap (λ s. s ++ e) x.stream ∙ append_assoc (contents b) d e;
  valid = y.valid;
  size = omega (arith, x.size, y.size, length-append d e);
}

close_lem :
    {b : Buffer} (close : Bool)
    → IsValid b
    → length b.buf + length (print_close close) + 8 < size_mod
    → IsAppended b (print_close close) (append_close close b)
unfolding append_close
close_lem true v h = append-IsAppended (bytes "Connection: close" ++ new_line) v h
close_lem false v h = nothing v

headers_lem :
    (hs : List (Bytes × Bytes)) {b : Buffer}
    → IsValid b
    → length b.buf + length (written_lines hs) + 8 < size_mod
    → IsAppended b (written_lines hs) (append_headers hs b)
unfolding append_headers
headers_lem [] v h = nothing v
headers_lem (x ∷ hs) {b} v h =
    let l : length (written_lines (x ∷ hs)) ≡ length (header_line x) + length (written_lines hs) =
      length-append (header_line x) (written_lines hs) in
    let a : IsAppended b (header_line x) (append b (header_line x)) =
      append-IsAppended (header_line x) v (omega arith) in
    both (header_line x) (written_lines hs) a (headers_lem hs a.valid (omega (arith, a.size)))

-- Behind a first part that is appended, what a client of its buffer appends.
after :
    {b b' b'' : Buffer} (d e : Bytes)
    → IsAppended b d b'
    → length b.buf + length (d ++ e) + 8 < size_mod
    → (IsValid b' → length b'.buf + length e + 8 < size_mod → IsAppended b' e b'')
    → IsAppended b (d ++ e) b''
after d e x h k = both d e x (k x.valid (omega (arith, x.size, length-append d e)))

written_lem :
    {b : Buffer} (r : HttpResponse)
    → IsValid b
    → length b.buf + length (written_response r) + 8 < size_mod
    → IsAppended b (written_response r) (append_to_buffer r b)
unfolding append_to_buffer
written_lem {b} r v h =
    let e5 : Bytes = new_line ++ r.body in
    let e4 : Bytes = written_lines r.headers ++ e5 in
    let e3 : Bytes = content_length r ++ e4 in
    let e2 : Bytes = print_close r.close_connection ++ e3 in
    after (status_line r) e2
      (append-IsAppended (status_line r) v (omega (arith, length-append (status_line r) e2))) h
      (λ v2 h2.
        after (print_close r.close_connection) e3
          (close_lem r.close_connection v2
            (omega (arith, length-append (print_close r.close_connection) e3)))
          h2
          (λ v3 h3.
            after (content_length r) e4
              (append-IsAppended (content_length r) v3
                (omega (arith, length-append (content_length r) e4)))
              h3
              (λ v4 h4.
                after (written_lines r.headers) e5
                  (headers_lem r.headers v4
                    (omega (arith, length-append (written_lines r.headers) e5)))
                  h4
                  (λ v5 h5.
                    after new_line r.body
                      (append-IsAppended new_line v5 (omega (arith, length-append new_line r.body)))
                      h5 (λ v6 h6. append-IsAppended r.body v6 h6)))))

append_to_buffer_lem :
    {b : Buffer} (r : HttpResponse)
    → IsValid b
    → length b.buf + length (print_response r) + 8 < size_mod
    → IsAppended b (print_response r) (append_to_buffer r b)
append_to_buffer_lem {b} r v h =
    let e = ap (λ (d : Bytes). length d) (written-print_response r) in
    subst (λ d. IsAppended b d (append_to_buffer r b)) (written-print_response r)
      (written_lem r v (omega (arith, h, e)))

-- `appendToBuffer` puts the response behind what is in the buffer: the status line with the number and
-- the message of the code, `Connection: close` if it is asked for, `Content-Length:` with the number
-- of bytes of the body, the other headers, an empty line and the body, each line as `snprintf` cuts
-- it, as long as the sizes stay below `size_t`.
pub contents-append_to_buffer :
    {b : Buffer} (r : HttpResponse)
    → IsValid b
    → length b.buf + length (print_response r) + 8 < size_mod
    → contents (append_to_buffer r b) ≡ contents b ++ print_response r
contents-append_to_buffer r v h = (append_to_buffer_lem r v h).stream

length-init : (n : ℕ) → length (init n).buf ≡ 8 + n
unfolding init
length-init n = length-replicate (8 + n) 0

contents-init : (n : ℕ) → contents (init n) ≡ []
unfolding contents init readable_bytes
contents-init n = refl

take-contents : {b : Buffer} → IsValid b → (retrieve_all_as_string b).0 ≡ contents b
unfolding retrieve_all_as_string
take-contents {b} v =
    (retrieve_as_string_lem (readable_bytes b) v).0
    ∙ take_all (readable_bytes b) (contents b) (omega (arith, length-contents v))

-- What is taken out of a new buffer that the response has been written to.
pub sent_lem :
    (r : HttpResponse)
    → 1040 + length (print_response r) < size_mod
    → (retrieve_all_as_string (append_to_buffer r (init initial_size))).0 ≡ print_response r
sent_lem r h =
    let a : IsAppended (init initial_size) (print_response r)
        (append_to_buffer r (init initial_size)) =
      append_to_buffer_lem r (init-IsValid initial_size (omega arith))
        (omega (arith, length-init initial_size)) in
    take-contents a.valid ∙ a.stream ∙ ap (λ s. s ++ print_response r) (contents-init initial_size)
