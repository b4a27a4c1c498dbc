-- ===== src/Callback/Examples.antt =====
-- The theorems on the callback, applied.
use duckdb_data.Pkce.Url.{percent_encode}
use duckdb_data.Callback.Types.{
  code_unavailable, invalid_listener_state, CallbackResult, code_received, callback_timed_out,
  max_callback_request_bytes, take_code, take_code_once,
}
use duckdb_data.Callback.Decode.{percent_decode}
use duckdb_data.Callback.Decode.RoundTrip.{percent_decode-percent_encode}
use duckdb_data.Callback.Request.{crlf, callback_prefix, http_suffix, parse_oauth_callback_request}
use duckdb_data.Callback.Request.Accepted.{IsResult, accepted_request}
use duckdb_data.Callback.Listener.{
  listener, wait_for_callback, wait_for_callback_once, cancel, cancel_refuses, accept_count,
  is_closed,
}
use duckdb_data.Base.{
  ◌≤◌, ◌≡◌, refl, true, false, some, [], ◌++◌, arith, length, Bytes, codes, bytes_eq, bytes_lt,
  starts_with, ends_with, all_of, cut, ok, err,
}

abbrev result : CallbackResult
result = record {
  status = code_received;
  state = codes "s";
  code = codes "a";
  safe_error_code = [];
  code_taken = false;
}

abbrev request : Bytes
request =
    codes "GET /oauth/callback?state=s&code=a HTTP/1.1"
    ++ (crlf ++ (codes "Host: localhost:8910" ++ (crlf ++ crlf)))

accepted_request_example :
    (length request ≤ max_callback_request_bytes)
    × IsResult result
    × ((head : Bytes) × (cut (crlf ++ crlf) request ≡ some (head, [])))
    × ((line rest : Bytes) × (cut crlf request ≡ some (line, rest))
        × (starts_with callback_prefix line ≡ true)
        × (ends_with http_suffix line ≡ true))
unfolding parse_oauth_callback_request bytes_eq bytes_lt
accepted_request_example = accepted_request request result refl

percent_decode-percent_encode_example :
    percent_decode (percent_encode (codes "a b")) ≡ ok (codes "a b")
unfolding all_of
percent_decode-percent_encode_example =
    percent_decode-percent_encode (codes "a b") (omega arith, (omega arith, (omega arith, tt))) refl
      (omega arith)

take_code_once_example :
    ((take_code (take_code result).1).0 ≡ err code_unavailable)
    × ((take_code result).0 ≡ ok (codes "a"))
take_code_once_example = take_code_once result

cancel_refuses_example :
    wait_for_callback (ok request) 100 (cancel listener)
    ≡ (err invalid_listener_state, cancel listener)
cancel_refuses_example = cancel_refuses (ok request) 100 listener

wait_for_callback_once_example :
    let l' = (wait_for_callback (err callback_timed_out) 100 listener).1 in
    (accept_count l'.calls ≡ 1)
    × (is_closed l'.calls ≡ true)
    × (l'.waiting ≡ false)
    × ((wait_for_callback (ok request) 5 l').0 ≡ err invalid_listener_state)
    × ((wait_for_callback (ok request) 5 l').1 ≡ l')
wait_for_callback_once_example =
    wait_for_callback_once (err callback_timed_out) (ok request) 100 5 listener refl (omega arith)
      (omega arith)
