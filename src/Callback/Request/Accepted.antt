-- ===== src/Callback/Request/Accepted.antt =====
-- src/loopback_listener.cpp: what ParseOAuthCallbackRequest accepts.
use duckdb_data.Callback.Types.{
  CallbackError, malformed_callback, oversized_request, body_forbidden, invalid_method,
  invalid_host, CallbackResult, max_callback_request_bytes, is_code_received,
}
use duckdb_data.Callback.Decode.{Fields, parse_query}
use duckdb_data.Callback.Request.{
  crlf, callback_prefix, http_suffix, parse_headers, read_fields, header_block, refuses_line,
  query_of, parse_oauth_callback_request,
}
use duckdb_data.Base.{
  ◌≤◌, ◌≡◌, ap, ◌∙◌, true, false, not, ◌||◌, Option, none, some, [], ◌++◌, arith, ltb, length,
  Bytes, is_empty, starts_with, ends_with, cut, or_throw, >>=-eq-ok, throw_if-eq-ok, ok-injective,
  ok,
}

-- A result that the fields of a callback can give.
abbrev pub IsResult : CallbackResult → Type 0
IsResult r =
    (is_empty r.state ≡ false)
    × (r.code_taken ≡ false)
    × (is_empty r.code ≡ not (is_code_received r.status))
    × (is_empty r.safe_error_code ≡ is_code_received r.status)

read_fields-IsResult :
    (fields : Fields) (r : CallbackResult) → read_fields fields ≡ ok r → IsResult r
unfolding read_fields
read_fields-IsResult fields r e = ground (arith, e)

or_throw-eq-ok :
    {A : Type 0} (o : Option A) (e : CallbackError) {v : A} → or_throw o e ≡ ok v → o ≡ some v
or_throw-eq-ok none e h = cc
or_throw-eq-ok (some a) e h = ap some (ok-injective h)

-- A request that is accepted has at most 8192 bytes, holds one block of headers and nothing behind
-- it, and begins with the request line of the callback path; the result has a state, a code
-- exactly where the login was not denied, and that code was not taken.
pub accepted_request :
    (request : Bytes) (r : CallbackResult)
    → parse_oauth_callback_request request ≡ ok r
    → (length request ≤ max_callback_request_bytes)
      × IsResult r
      × ((head : Bytes) × (cut (crlf ++ crlf) request ≡ some (head, [])))
      × ((line rest : Bytes) × (cut crlf request ≡ some (line, rest))
          × (starts_with callback_prefix line ≡ true)
          × (ends_with http_suffix line ≡ true))
unfolding parse_oauth_callback_request
accepted_request request r e =
    let (a, k) =
      throw_if-eq-ok (is_empty request || ltb max_callback_request_bytes (length request))
        oversized_request _ e in
    let (whole, w, k) = >>=-eq-ok (or_throw (cut (crlf ++ crlf) request) body_forbidden) _ k in
    let (b, k) = throw_if-eq-ok (not (is_empty whole.1)) body_forbidden _ k in
    let (first, f, k) = >>=-eq-ok (or_throw (cut crlf request) malformed_callback) _ k in
    let (c, k) = throw_if-eq-ok (refuses_line first.0) invalid_method _ k in
    let (found, g, k) =
      >>=-eq-ok (parse_headers _ (header_block request whole.0 first.0) false) _ k in
    let (d, k) = throw_if-eq-ok (not found) invalid_host _ k in
    let (fields, q, k) = >>=-eq-ok (parse_query (query_of first.0)) _ k in
    (
      ground (arith, a),
      read_fields-IsResult fields r k,
      (whole.0, or_throw-eq-ok _ _ w ∙ ground (arith, b)),
      (first.0, first.1, or_throw-eq-ok _ _ f, ground (arith, c), ground (arith, c)),
    )
