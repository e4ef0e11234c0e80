-- ===== src/Http/Tests.antt =====
-- Runs of the server on small requests.
use cc_learning.Base.{
  decimal, decimal_loop, ◌+◌, ◌≡◌, ◌≢◌, refl, arith, true, [], ◌∷◌, ◌++◌, Option, none, some, Bytes,
  bytes, length, find_sub, has_prefix, eq_bytes, replicate, if◌then◌else◌, Bool-cases, inl, inr,
  eq_bytes→eq, ap, subst, drop, insert, lt_bytes,
}
use cc_learning.Buffer.{Buffer, contents, readable_bytes}
use cc_learning.Buffer.Invariant.{IsValid}
use cc_learning.Http.Request.{
  new_request, get, accepted, crlf, parse_request, header_loop, trim, trim_left, trim_right,
  request_words, next_word, skip_spaces, take_word,
}
use cc_learning.Http.Response.{
  new_response, append_to_buffer, status_line, content_length, header_line, set_body,
  set_content_type, set_status_code, add_header, printed, c_str, status_number,
  status_message_for_code,
}
use cc_learning.Http.Server.{waits, answers, respond, on_message, get_mime_type, has_suffix}
use cc_learning.Http.Headers.{IsHeader, insert_all, header_loop_ends}
use cc_learning.Http.Safety.{on_message-confined}
use cc_learning.Http.RoundTrip.{print_request, served_path, parse_request-print_request}
use cc_learning.Http.Format.{print_response, contents-append_to_buffer}
use cc_learning.Http.Serve.{on_message-print_request, on_message-other_method}

header_loop_ends_example : header_loop 9 (bytes "a: b" ++ (crlf ++ crlf)) [] ≢ none
header_loop_ends_example = header_loop_ends 9 (bytes "a: b" ++ (crlf ++ crlf)) [] (omega arith)

abbrev host : Bytes × Bytes
host = (bytes "Host", bytes "a b")

host-IsHeader : IsHeader host
unfolding trim trim_left trim_right
host-IsHeader = record {
  one_line = (refl, (refl, (refl, (refl, (refl, (refl, (refl, (refl, (refl, tt)))))))));
  no_colon = (refl, (refl, (refl, (refl, tt))));
  key_trimmed = refl;
  value_trimmed = refl;
}

abbrev target : Bytes
target = bytes "/a b"

no_dots : find_sub (bytes "..") target ≡ none
unfolding find_sub has_prefix
no_dots = refl

parse_request-print_request_example :
    parse_request (print_request target (host ∷ []) (bytes "x")) new_request ≡ (
      accepted,
      record new_request {
        method = get;
        path = served_path target;
        headers = insert_all (host ∷ []) [];
      },
    )
parse_request-print_request_example =
    parse_request-print_request 47 (bytes "a b") (host ∷ []) (bytes "x")
      (omega arith, (omega arith, (omega arith, (omega arith, tt)))) no_dots (host-IsHeader, tt)

-- A buffer that holds these bytes.
abbrev holding : Bytes → Buffer
holding d = record { buf = replicate 8 0 ++ d; read_index = 8; write_index = 8 + length d }

abbrev asked : Buffer
asked = holding (print_request target [] (bytes "x"))

asked-IsValid : IsValid asked
asked-IsValid = omega arith

contents-asked : contents asked ≡ print_request target [] (bytes "x")
unfolding contents readable_bytes
contents-asked = refl

abbrev files : Bytes → Option Bytes
files name = none

abbrev other : Bytes → Option Bytes
other name = if eq_bytes name (bytes "w/../x") then some [] else none

-- They differ in a file that lies above the root only.
same_files :
    (p : Bytes) → find_sub (bytes "..") p ≡ none → files (bytes "w" ++ p) ≡ other (bytes "w" ++ p)
unfolding find_sub has_prefix
same_files p h = elim (Bool-cases (eq_bytes (bytes "w" ++ p) (bytes "w/../x"))) [
  | inl e ↦
      let q : p ≡ bytes "/../x" = ap (drop 1) (eq_bytes→eq (bytes "w" ++ p) (bytes "w/../x") e) in
      absurd (
        let f : find_sub (bytes "..") (bytes "/../x") ≡ none =
          subst (λ x. find_sub (bytes "..") x ≡ none) q h in
        let z : ⊥ = cc in z)
  | inr e ↦ rw e refl
]

on_message-confined_example :
    on_message files (bytes "w") asked ≡ on_message other (bytes "w") asked
on_message-confined_example = on_message-confined files other (bytes "w") asked same_files

on_message-print_request_example :
    let request = record new_request { method = get; path = served_path target; headers = [] } in
    ((on_message files (bytes "w") asked).0
      ≡ answers (print_response (respond files (bytes "w") request)))
    × (contents (on_message files (bytes "w") asked).1 ≡ bytes "x")
unfolding respond get_mime_type has_suffix status_line content_length header_line set_body
    set_content_type set_status_code add_header decimal decimal_loop printed c_str status_number
    status_message_for_code insert lt_bytes eq_bytes
on_message-print_request_example =
    on_message-print_request files (bytes "w") 47 (bytes "a b") [] (bytes "x") asked-IsValid
      contents-asked (omega arith, (omega arith, (omega arith, (omega arith, tt)))) no_dots tt
      (omega arith)

abbrev posted : Buffer
posted = holding (bytes "POST / HTTP/1.0" ++ (crlf ++ crlf))

contents-posted : contents posted ≡ bytes "POST / HTTP/1.0" ++ (crlf ++ crlf)
unfolding contents readable_bytes
contents-posted = refl

on_message-other_method_example : on_message files (bytes "w") posted ≡ (waits, posted)
unfolding request_words next_word skip_spaces take_word eq_bytes
on_message-other_method_example =
    on_message-other_method files (bytes "w") (bytes "POST / HTTP/1.0") crlf (bytes "POST")
      (bytes "/") (bytes "HTTP/1.0") contents-posted
      ((
        refl,
        (
          refl,
          (
            refl,
            (
              refl,
              (
                refl,
                (refl, (refl, (refl, (refl, (refl, (refl, (refl, (refl, (refl, (refl, tt)))))))))),
              ),
            ),
          ),
        ),
      ))
      refl refl

contents-append_to_buffer_example :
    contents (append_to_buffer (new_response true) asked)
    ≡ contents asked ++ print_response (new_response true)
unfolding status_line content_length header_line set_body set_content_type set_status_code
    add_header decimal decimal_loop printed c_str status_number status_message_for_code insert
    lt_bytes eq_bytes
contents-append_to_buffer_example =
    contents-append_to_buffer (new_response true) asked-IsValid (omega arith)
