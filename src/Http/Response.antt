-- ===== src/Http/Response.antt =====
-- `HttpResponse`: reactor_net/include/HttpResponse.h and reactor_net/src/HttpResponse.cpp.
use cc_learning.Base.{
  ℕ, Bool, [], ◌∷◌, ◌++◌, length, take, Bytes, bytes, ◌==◌, if◌then◌else◌, StringMap, insert,
  decimal,
}
use cc_learning.Buffer.{Buffer, append}

pub data HttpStatusCode : Type 0 where
  ok bad_request not_found internal_server_error : HttpStatusCode

unfoldable pub status_number : HttpStatusCode → ℕ
status_number ok = 200
status_number bad_request = 400
status_number not_found = 404
status_number internal_server_error = 500

pub record HttpResponse : Type 0 where
  pub status_code : HttpStatusCode
  pub status_message : Bytes
  pub headers : StringMap Bytes
  pub body : Bytes
  pub close_connection : Bool

abbrev pub new_response : Bool → HttpResponse
new_response close = record {
  status_code = ok;
  status_message = [];
  headers = [];
  body = [];
  close_connection = close;
}

unfoldable pub set_status_code : HttpStatusCode → HttpResponse → HttpResponse
set_status_code code r = record r { status_code = code }

unfoldable pub set_status_message : Bytes → HttpResponse → HttpResponse
set_status_message message r = record r { status_message = message }

unfoldable pub set_close_connection : Bool → HttpResponse → HttpResponse
set_close_connection close r = record r { close_connection = close }

unfoldable pub add_header : Bytes → Bytes → HttpResponse → HttpResponse
add_header key value r = record r { headers = insert key value r.headers }

unfoldable pub set_content_type : Bytes → HttpResponse → HttpResponse
unfolding add_header
set_content_type content_type r = add_header (bytes "Content-Type") content_type r

unfoldable pub set_body : Bytes → HttpResponse → HttpResponse
set_body body r = record r { body = body }

unfoldable pub status_message_for_code : HttpStatusCode → Bytes
status_message_for_code ok = bytes "OK"
status_message_for_code bad_request = bytes "Bad Request"
status_message_for_code not_found = bytes "Not Found"
status_message_for_code internal_server_error = bytes "Internal Server Error"

-- A C string ends at its first zero.
unfoldable pub c_str : Bytes → Bytes
c_str [] = []
c_str (c ∷ cs) = let rest = c_str cs in if c == 0 then [] else c ∷ rest

abbrev pub new_line : Bytes
new_line = 13 ∷ 10 ∷ []

-- What `snprintf` leaves in `buf[256]`.
unfoldable pub printed : Bytes → Bytes
printed text = take 255 text

unfoldable pub status_line : HttpResponse → Bytes
unfolding status_number status_message_for_code decimal c_str printed
status_line r =
    let msg : Bytes = elim r.status_message [
      | [] ↦ status_message_for_code r.status_code
      | c ∷ cs ↦ c ∷ cs
    ] in
    printed (
      bytes "HTTP/1.0 "
      ++ decimal (status_number r.status_code)
      ++ bytes " "
      ++ c_str msg
      ++ new_line)

unfoldable pub header_line : Bytes × Bytes → Bytes
unfolding c_str printed
header_line (key, value) = printed (c_str key ++ bytes ": " ++ c_str value ++ new_line)

unfoldable pub content_length : HttpResponse → Bytes
unfolding decimal printed
content_length r = printed (bytes "Content-Length: " ++ decimal (length r.body) ++ new_line)

unfoldable pub append_headers : StringMap Bytes → Buffer → Buffer
unfolding header_line
append_headers [] output = output
append_headers (h ∷ hs) output = append_headers hs (append output (header_line h))

unfoldable pub append_close : Bool → Buffer → Buffer
append_close close output =
    if close then append output (bytes "Connection: close" ++ new_line) else output

unfoldable pub append_to_buffer : HttpResponse → Buffer → Buffer
unfolding status_line content_length append_headers append_close
append_to_buffer r output =
    let with_status = append_close r.close_connection (append output (status_line r)) in
    let with_length = append with_status (content_length r) in
    let with_headers = append_headers r.headers with_length in
    append (append with_headers new_line) r.body
