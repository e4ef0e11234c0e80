-- ===== src/Http/Server.antt =====
-- `HttpServer::onMessage` of reactor_net/src/main.cpp. The file system is the parameter `open_file`.
use cc_learning.Base.{
  ◌+◌, ◌-◌, Bool, true, [], ◌∷◌, ◌++◌, Option, none, some, length, drop, Bytes, bytes, eq_bytes,
  find_sub, leb, ◌&&◌, if◌then◌else◌,
}
use cc_learning.Buffer.{
  Buffer, init, contents, initial_size, retrieve, retrieve_all, retrieve_all_as_string,
}
use cc_learning.Http.Request.{
  HttpRequest, new_request, Outcome, accepted, refused, throws, parse_request,
}
use cc_learning.Http.Response.{
  HttpResponse, new_response, ok, not_found, set_status_code, set_content_type, set_body,
  append_to_buffer,
}

-- `path.size() >= n && path.substr(path.size() - n) == ending`, `n` the length of the ending.
unfoldable pub has_suffix : Bytes → Bytes → Bool
has_suffix ending path =
    leb (length ending) (length path) && eq_bytes (drop (length path - length ending) path) ending

unfoldable pub get_mime_type : Bytes → Bytes
unfolding has_suffix
get_mime_type path =
    if has_suffix (bytes ".html") path
    then bytes "text/html"
    else (if has_suffix (bytes ".css") path
        then bytes "text/css"
        else (if has_suffix (bytes ".js") path
            then bytes "application/javascript"
            else (if has_suffix (bytes ".png") path
                then bytes "image/png"
                else (if has_suffix (bytes ".jpg") path
                    then bytes "image/jpeg"
                    else (if has_suffix (bytes ".svg") path
                        then bytes "image/svg+xml"
                        else (if has_suffix (bytes ".ico") path
                            then bytes "image/x-icon"
                            else (if has_suffix (bytes ".json") path
                                then bytes "application/json"
                                else (if has_suffix (bytes ".txt") path
                                    then bytes "text/plain"
                                    else bytes "application/octet-stream"))))))))

abbrev pub not_found_body : Bytes
not_found_body =
    bytes "<html><head><title>404 Not Found</title></head>"
    ++ bytes "<body><h1>404 Not Found</h1><p>"
    ++ bytes "The requested URL was not found on this server."
    ++ bytes "</p></body></html>"

-- The request is taken off the buffer: up to the first empty line.
unfoldable pub consume : Buffer → Buffer
consume buf = elim (find_sub (13 ∷ 10 ∷ 13 ∷ 10 ∷ []) (contents buf)) [
  | some i ↦ retrieve buf (i + 4)
  | none ↦ retrieve_all buf
]

-- What the handler does: nothing, the exception of the parser, or a message sent and a shutdown.
pub data Reaction : Type 0 where
  waits raises : Reaction
  answers : Bytes → Reaction

module _ (open_file : Bytes → Option Bytes) (doc_root : Bytes) where
  unfoldable pub respond : HttpRequest → HttpResponse
  unfolding get_mime_type
  respond req = elim (open_file (doc_root ++ req.path)) [
    | some content ↦
        set_body content
          (set_content_type (get_mime_type req.path) (set_status_code ok (new_response true)))
    | none ↦
        set_body not_found_body
          (set_content_type (bytes "text/html") (set_status_code not_found (new_response true)))
  ]

  unfoldable pub answer : Outcome × HttpRequest → Buffer → Reaction × Buffer
  unfolding consume respond
  answer (refused, req) buf = (waits, buf)
  answer (throws, req) buf = (raises, buf)
  answer (accepted, req) buf =
      let response_buf = append_to_buffer (respond req) (init initial_size) in
      (answers (retrieve_all_as_string response_buf).0, consume buf)

  unfoldable pub on_message : Buffer → Reaction × Buffer
  unfolding answer
  on_message buf = answer (parse_request (contents buf) new_request) buf
