-- ===== src/Native/Transport.antt =====
-- src/libcurl_transport.cpp: the callbacks of a transfer, and Send's tests before and after it. A
-- callback gets `count` items of `size` bytes at a pointer, here `block`; their number and the sums
-- are below 2^64 where the code computes them.
pub mod Limits
pub mod Taken
pub mod Checked
pub mod Sent
use duckdb_data.Query.Types.{HttpRequest}
use duckdb_data.Native.Codec.{Headers}
use duckdb_data.Base.{
  ℕ, suc, ◌+◌, ◌-◌, ◌*◌, ◌/◌, ◌^◌, min, Bool, true, false, not, ◌&&◌, ◌||◌, Option, none, some,
  List, [], ◌∷◌, ◌++◌, map, ltb, leb, ◌==◌, if◌then◌else◌, length, take, Bytes, codes, bytes_eq,
  is_empty, starts_with, contains, to_lower, cut, ◌>>=◌, ◌>>◌, throw_if, or_throw, Result, ok, err,
}

pub data TransportError : Type 0 where
  invalid_request transport_unavailable response_too_large : TransportError
  headers_too_large transfer_cancelled tls_failure : TransportError

pub record TransferState : Type 0 where
  pub status : ℕ
  pub headers : Headers
  pub body : Bytes
  pub limit : ℕ
  pub cleanup_request : Bool
  pub exceeded_limit : Bool
  pub exceeded_headers : Bool
  pub cancelled : Bool
  pub header_count : ℕ
  pub header_bytes : ℕ

abbrev pub contains_forbidden : Bytes → Bool
contains_forbidden value = contains value 13 || contains value 10 || contains value 0

-- size != 0 && count > SIZE_MAX / size.
abbrev pub overflows : ℕ → ℕ → Bool
overflows size count = not (size == 0) && ltb ((2 ^ 64 - 1) / size) count

-- The new state and the callback's value, `none` for CURL_WRITEFUNC_ERROR.
unfoldable pub write_body : ℕ → ℕ → Bytes → TransferState → TransferState × Option ℕ
write_body size count block state =
    if overflows size count
      || ltb (state.limit - min (length state.body) state.limit) (size * count)
    then (record state { exceeded_limit = true }, none)
    else (record state { body = state.body ++ take (size * count) block }, some (size * count))

-- headers[key] = value.
unfoldable pub assign_header : Bytes → Bytes → Headers → Headers
assign_header key value [] = (key, value) ∷ []
assign_header key value ((k, v) ∷ headers) =
    let rest = assign_header key value headers in
    if bytes_eq k key then (k, value) ∷ headers else (k, v) ∷ rest

-- The line without the CR and LF at its end: pop_back while the last byte is one of them.
unfoldable pub trim_line_end : Bytes → Bytes
trim_line_end [] = []
trim_line_end (c ∷ line) =
    let rest = trim_line_end line in if is_empty rest && (c == 13 || c == 10) then [] else c ∷ rest

unfoldable pub trim_blanks : Bytes → Bytes
trim_blanks [] = []
trim_blanks (c ∷ value) =
    let rest = trim_blanks value in if c == 32 || c == 9 then rest else c ∷ value

abbrev pub keep_header : Bytes → Bytes → Headers → Headers
keep_header key value headers =
    if leb (length key) 256 && leb (length value) 8192
    then assign_header key value headers
    else headers

-- The header of a line, if there is a colon behind its first byte.
unfoldable pub read_header : Bytes → Headers → Headers
unfolding cut to_lower trim_blanks assign_header
read_header line headers = elim (cut (codes ":") line) [
  | none ↦ headers
  | some (key, value) ↦
      if is_empty key then headers else keep_header (map to_lower key) (trim_blanks value) headers
]

-- A line that does not begin a response. An empty one leaves the headers.
abbrev pub write_header_line : ℕ → Bytes → TransferState → TransferState × ℕ
write_header_line bytes line state =
    if ltb 8192 bytes
      || ltb (64 * 1024 - min state.header_bytes (64 * 1024)) bytes
      || leb 64 state.header_count
    then (record state { exceeded_headers = true }, 0)
    else (
      record state {
        headers = read_header (trim_line_end line) state.headers;
        header_count = suc state.header_count;
        header_bytes = state.header_bytes + bytes;
      },
      bytes,
    )

unfoldable pub write_header : ℕ → ℕ → Bytes → TransferState → TransferState × ℕ
unfolding starts_with read_header trim_line_end
write_header size count block state =
    let bytes = size * count in
    let line = take bytes block in
    if overflows size count
    then (state, 0)
    else if starts_with (codes "HTTP/") line
    then (record state { headers = []; header_count = 0; header_bytes = 0 }, bytes)
    else write_header_line bytes line state

-- `asked` is the runtime's answer, none without a runtime.
unfoldable pub transfer_progress : Option Bool → TransferState → TransferState × ℕ
transfer_progress none state = (state, 0)
transfer_progress (some asked) state =
    if not state.cleanup_request && asked
    then (record state { cancelled = true }, 1)
    else (state, 0)

-- What libcurl calls while it performs a request.
pub data TransferCallback : Type 0 where
  body_block : (size count : ℕ) (block : Bytes) → TransferCallback
  header_block : (size count : ℕ) (block : Bytes) → TransferCallback
  progress : (asked : Option Bool) → TransferCallback

abbrev pub call_back : TransferCallback → TransferState → TransferState
call_back (body_block size count block) state = (write_body size count block state).0
call_back (header_block size count block) state = (write_header size count block state).0
call_back (progress asked) state = (transfer_progress asked state).0

unfoldable pub call_all : List TransferCallback → TransferState → TransferState
unfolding write_body write_header transfer_progress
call_all [] state = state
call_all (c ∷ callbacks) state = call_all callbacks (call_back c state)

-- CURLcode, as far as Send tells results apart.
pub data CurlCode : Type 0 where
  curl_ok curl_aborted_by_callback curl_tls curl_failed : CurlCode

-- libcurl: whether a handle with all its options is there, the callbacks and the result of
-- curl_easy_perform, and the status that curl_easy_getinfo then gives.
pub record Curl : Type 0 where
  pub is_prepared : HttpRequest → Bool
  pub callbacks : HttpRequest → List TransferCallback
  pub result : HttpRequest → CurlCode
  pub status : HttpRequest → Option ℕ

abbrev pub is_sendable : HttpRequest → Bool
is_sendable request =
    not request.follow_redirects
    && not (request.timeout_ms == 0)
    && leb request.timeout_ms (2 ^ 63 - 1)
    && not (request.max_response_bytes == 0)
    && leb (length request.body) (1024 * 1024)
    && starts_with (codes "https://") request.url
    && not (contains_forbidden request.url)
    && (bytes_eq request.method (codes "GET")
        || bytes_eq request.method (codes "POST")
        || bytes_eq request.method (codes "DELETE"))

unfoldable pub are_sendable_headers : Headers → Bool
unfolding contains
are_sendable_headers [] = true
are_sendable_headers ((key, value) ∷ headers) =
    let rest = are_sendable_headers headers in
    not (is_empty key)
    && not (contains_forbidden key)
    && not (contains_forbidden value)
    && not (contains key b':')
    && rest

-- The loop on request_header_bytes, from `used` on.
unfoldable pub have_room : ℕ → Headers → Bool
have_room used [] = true
have_room used ((key, value) ∷ headers) =
    let bytes = length key + length value + 4 in
    leb bytes 8192
    && leb bytes (64 * 1024 - min used (64 * 1024))
    && have_room (used + bytes) headers

abbrev pub new_transfer : HttpRequest → TransferState
new_transfer request = record {
  status = 0;
  headers = [];
  body = [];
  limit = request.max_response_bytes;
  cleanup_request = request.cleanup_request;
  exceeded_limit = false;
  exceeded_headers = false;
  cancelled = false;
  header_count = 0;
  header_bytes = 0;
}

abbrev pub check_result : CurlCode → Result {0} TransportError Unit
check_result curl_ok = ok tt
check_result curl_aborted_by_callback = err transfer_cancelled
check_result curl_tls = err tls_failure
check_result curl_failed = err transport_unavailable

-- What follows curl_easy_perform.
unfoldable pub conclude_transfer :
    TransferState → CurlCode → Option ℕ → Result TransportError TransferState
conclude_transfer transfer result status = do
  throw_if transfer.exceeded_limit response_too_large
  throw_if transfer.exceeded_headers headers_too_large
  throw_if transfer.cancelled transfer_cancelled
  check_result result
  code ← or_throw status transport_unavailable
  ok (record transfer { status = code })

-- The transfer whose response Send returns.
unfoldable pub send : Curl → Headers → HttpRequest → Result TransportError TransferState
unfolding contains starts_with are_sendable_headers have_room call_all conclude_transfer
send curl headers request = do
  throw_if (not (is_sendable request)) invalid_request
  throw_if (not (are_sendable_headers headers)) invalid_request
  throw_if (ltb 64 (length headers)) invalid_request
  throw_if (not (have_room 0 headers)) invalid_request
  throw_if (not (curl.is_prepared request)) transport_unavailable
  conclude_transfer (call_all (curl.callbacks request) (new_transfer request)) (curl.result request)
      (curl.status request)
