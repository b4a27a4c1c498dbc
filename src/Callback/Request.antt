-- ===== src/Callback/Request.antt =====
-- src/loopback_listener.cpp: ParseOAuthCallbackRequest.
pub mod Accepted
use duckdb_data.Registry.Map.{lookup}
use duckdb_data.Callback.Types.{
  CallbackError, malformed_callback, oversized_request, body_forbidden, invalid_method,
  malformed_header, invalid_host, state_missing, provider_rejected, code_missing, CallbackStatus,
  code_received, access_denied, CallbackResult, max_callback_request_bytes,
}
use duckdb_data.Callback.Decode.{Fields, parse_query}
use duckdb_data.Base.{
  ℕ, zero, suc, ◌+◌, ◌-◌, ◌%◌, ◌^◌, Bool, true, false, not, ◌&&◌, ◌||◌, Option, none, some, [], ◌∷◌,
  ◌++◌, map, ltb, leb, ◌==◌, if◌then◌else◌, length, take, drop, Bytes, codes, bytes_eq, is_empty,
  starts_with, ends_with, all_of, is_alnum, to_lower, back, pop_back, cut, ◌>>=◌, ◌>>◌, throw_if,
  or_throw, Result, ok, err,
}

abbrev pub crlf : Bytes
crlf = 13 ∷ 10 ∷ []

abbrev pub callback_prefix : Bytes
callback_prefix = codes "GET /oauth/callback?"

abbrev pub http_suffix : Bytes
http_suffix = codes " HTTP/1.1"

abbrev pub is_blank : ℕ → Bool
is_blank c = c == b' ' || c == 9

-- The two loops that take blanks off a header's value.
unfoldable pub trim_front : Bytes → Bytes
trim_front [] = []
trim_front (c ∷ value) = let shorter = trim_front value in if is_blank c then shorter else c ∷ value

unfoldable pub trim_back : ℕ → Bytes → Bytes
trim_back zero value = value
trim_back (suc rounds) value =
    let shorter = trim_back rounds (pop_back value) in
    if not (is_empty value) && is_blank (back value) then shorter else value

abbrev pub trimmed : Bytes → Bytes
trimmed value = trim_back (length (trim_front value)) (trim_front value)

-- What a header's name and value do to `found_host`.
pub note_header : Bytes → Bytes → Bool → Result CallbackError Bool
note_header key value found_host = do
  throw_if (bytes_eq key (codes "content-length") || bytes_eq key (codes "transfer-encoding"))
      body_forbidden
  throw_if
      (bytes_eq key (codes "host") && (found_host || not (bytes_eq value (codes "localhost:8910"))))
      invalid_host
  ok (found_host || bytes_eq key (codes "host"))

-- One header line.
unfoldable pub parse_header : Bytes → Bool → Result CallbackError Bool
unfolding note_header trim_front trim_back all_of cut to_lower
parse_header line found_host = do
  halves ← or_throw (cut (codes ":") line) malformed_header
  throw_if (is_empty halves.0 || is_blank (back halves.0)) malformed_header
  throw_if (not (all_of (λ c. is_alnum c || c == b'-') halves.0)) malformed_header
  let value = trimmed halves.1
  throw_if (not (all_of (λ c. not (ltb c 0x20) || c == 9) value)) malformed_header
  note_header (map to_lower halves.0) value found_host

-- The loop over the lines: a round takes at least one line end away.
unfoldable pub parse_headers : ℕ → Bytes → Bool → Result CallbackError Bool
unfolding parse_header
parse_headers rounds [] found_host = ok found_host
parse_headers zero (c ∷ headers) found_host = err malformed_header
parse_headers (suc rounds) (c ∷ headers) found_host = elim (cut crlf (c ∷ headers)) [
  | none ↦ parse_header (c ∷ headers) found_host
  | some (line, rest) ↦ parse_header line found_host >>= λ found. parse_headers rounds rest found
]

abbrev pub is_absent : Option Bytes → Bool
is_absent none = true
is_absent (some v) = false

abbrev pub value_of : Option Bytes → Bytes
value_of none = []
value_of (some v) = v

-- What the fields of the query say.
unfoldable pub read_fields : Fields → Result CallbackError CallbackResult
unfolding lookup
read_fields fields = do
  let state = lookup (codes "state") fields
  throw_if (is_absent state || is_empty (value_of state)) state_missing
  let error = lookup (codes "error") fields
  let code = lookup (codes "code") fields
  throw_if
      (not (is_absent error)
        && (not (is_absent code) || not (bytes_eq (value_of error) (codes "access_denied"))))
      provider_rejected
  throw_if (is_absent error && (is_absent code || is_empty (value_of code))) code_missing
  ok (record {
    status = if is_absent error then code_received else access_denied;
    state = value_of state;
    code = if is_absent error then value_of code else [];
    safe_error_code = if is_absent error then [] else codes "USER_DENIED";
    code_taken = false;
  })

-- size_t subtraction: with no header line the size wraps, and the two bytes of the blank line's end
-- are left as the headers.
abbrev pub header_block : Bytes → Bytes → Bytes → Bytes
header_block request head request_line =
    take ((length head + 2 ^ 64 - (length request_line + 2)) % 2 ^ 64)
      (drop (length request_line + 2) request)

abbrev pub query_of : Bytes → Bytes
query_of request_line =
    take (length request_line - length callback_prefix - length http_suffix)
      (drop (length callback_prefix) request_line)

-- The test of the request line.
abbrev pub refuses_line : Bytes → Bool
refuses_line request_line =
    not (starts_with callback_prefix request_line)
    || leb (length request_line) (length callback_prefix + length http_suffix)
    || not (ends_with http_suffix request_line)

unfoldable pub parse_oauth_callback_request : Bytes → Result CallbackError CallbackResult
unfolding cut starts_with ends_with parse_headers read_fields parse_query
parse_oauth_callback_request request = do
  throw_if (is_empty request || ltb max_callback_request_bytes (length request)) oversized_request
  whole ← or_throw (cut (crlf ++ crlf) request) body_forbidden
  throw_if (not (is_empty whole.1)) body_forbidden
  first ← or_throw (cut crlf request) malformed_callback
  let request_line = first.0
  throw_if (refuses_line request_line) invalid_method
  let headers = header_block request whole.0 request_line
  found_host ← parse_headers (length headers) headers false
  throw_if (not found_host) invalid_host
  fields ← parse_query (query_of request_line)
  read_fields fields
