-- ===== src/Http/Response.antt =====
-- `http_request` of src/http.c, around the sockets.
pub mod Payload
use frostlake_odbc.Base.{
  ℕ, zero, suc, ◌+◌, Bool, true, false, ◌||◌, Option, none, some, [], ◌∷◌, ◌++◌, ◌==◌, ltb, leb,
  not, if◌then◌else◌, Bytes, codes, length, take, drop, c_string, strip_prefix,
}
use frostlake_odbc.Base.Int.{ℤ, pos, negsuc, wrap_int}
use frostlake_odbc.Proto.Request.{decimal}
use frostlake_odbc.Response.Types.{starts_ignoring_case}
use frostlake_odbc.Response.Decode.{strtol, half_int}
use frostlake_odbc.Http.Header.{split_on, crlf, find_header}
use frostlake_odbc.Http.Chunked.{Decoded, decoded, malformed, copy_overrun, decode_chunked}

-- What becomes of a request on the sockets: `getaddrinfo`, `connect`, `send` or `recv` fail, each
-- with the library's text, or these bytes come back until the end.
pub data Wire : Type 0 where
  unresolved unconnected unsent unread : Bytes → Wire
  received : Bytes → Wire

-- -1 with a message; a status and a body; or a copy past the memory.
pub data Reply : Type 0 where
  broken : Bytes → Reply
  replied : ℤ → Bytes → Reply
  overrun : Reply

unfoldable pub http_error : Bytes → Option Bytes → Bytes
http_error what none = what
http_error what (some detail) = what ++ (codes ": " ++ detail)

unfoldable pub request_head : Bytes → Bytes → Bytes → ℕ → Bytes → Bytes
request_head method path host port body =
    method
    ++ (codes " "
        ++ (path
            ++ (codes " HTTP/1.1"
                ++ (crlf
                    ++ (codes "Host: "
                        ++ (host
                            ++ (codes ":"
                                ++ (decimal port
                                    ++ (crlf
                                        ++ (codes "Content-Type: application/json"
                                            ++ (crlf
                                                ++ (codes "Content-Length: "
                                                    ++ (decimal (length body)
                                                        ++ (crlf
                                                            ++ (codes "Connection: close"
                                                            ++ (crlf ++ crlf))))))))))))))))

-- The declared length, where it is not negative and not more than there is.
unfoldable pub cut_to : ℤ → Bytes → Bytes
cut_to (pos n) payload = if leb n (length payload) then take n payload else payload
cut_to (negsuc n) payload = payload

unfoldable pub declared_payload : Option Bytes → Bytes → Bytes
declared_payload none payload = payload
declared_payload (some text) payload = cut_to (strtol text) payload

unfoldable pub is_chunked : Option Bytes → Bool
is_chunked none = false
is_chunked (some text) = starts_ignoring_case (codes "chunked") text

unfoldable pub reply_of : ℤ → Decoded → Reply
reply_of status (decoded body) = replied status body
reply_of status malformed = broken (http_error (codes "malformed chunked response") none)
reply_of status copy_overrun = overrun

unfoldable pub read_body : ℤ → Bytes → Bytes → Reply
read_body status headers payload =
    if is_chunked (find_header headers (codes "Transfer-Encoding"))
    then reply_of status (decode_chunked payload)
    else replied status (declared_payload (find_header headers (codes "Content-Length")) payload)

unfoldable pub is_http : Bytes → Bool
is_http raw = elim (strip_prefix (codes "HTTP/1.") raw) [
  | some rest ↦ not (ltb (length raw) 12)
  | none ↦ false
]

-- `atoi`
unfoldable pub status_of : Bytes → ℤ
status_of raw = wrap_int half_int (strtol (drop 9 raw))

unfoldable pub split_response : ℤ → Option (Bytes × Bytes) → Reply
split_response status none =
    broken (http_error (codes "malformed HTTP response") (some (codes "no header terminator")))
split_response status (some (head, payload)) = read_body status (c_string head) payload

unfoldable pub parse_response : Bytes → Reply
parse_response raw =
    if is_http raw
    then split_response (status_of raw) (split_on (crlf ++ crlf) raw)
    else broken (http_error (codes "malformed HTTP response") none)

unfoldable pub after_wire : Wire → Reply
after_wire (unresolved text) = broken (http_error (codes "cannot resolve host") (some text))
after_wire (unconnected text) = broken (http_error (codes "cannot connect") (some text))
after_wire (unsent text) = broken (http_error (codes "cannot send request") (some text))
after_wire (unread text) = broken (http_error (codes "cannot read response") (some text))
after_wire (received raw) = parse_response raw

-- `network` is the sockets: what comes of the bytes that are sent to a host and a port, within a time.
unfoldable pub http_request :
    (Bytes → ℕ → ℕ → Bytes → Wire) → Bytes → ℕ → Bytes → Bytes → Option Bytes → ℕ → Reply
http_request network host port method path none timeout =
    after_wire (network host port timeout (request_head method path host port []))
http_request network host port method path (some body) timeout =
    after_wire (network host port timeout (request_head method path host port body ++ body))

unfoldable pub http_post : (Bytes → ℕ → ℕ → Bytes → Wire) → Bytes → ℕ → Bytes → Bytes → ℕ → Reply
http_post network host port path body timeout =
    http_request network host port (codes "POST") path (some body) timeout

unfoldable pub http_get : (Bytes → ℕ → ℕ → Bytes → Wire) → Bytes → ℕ → Bytes → ℕ → Reply
http_get network host port path timeout =
    http_request network host port (codes "GET") path none timeout

unfoldable pub http_delete : (Bytes → ℕ → ℕ → Bytes → Wire) → Bytes → ℕ → Bytes → ℕ → Reply
http_delete network host port path timeout =
    http_request network host port (codes "DELETE") path none timeout
