-- ===== src/Callback/Types.antt =====
-- The results and the exceptions of src/loopback_listener.cpp.
use duckdb_data.Base.{
  ℕ, ◌≡◌, Bool, true, false, not, ◌&&◌, ◌||◌, [], arith, if◌then◌else◌, Bytes, is_empty, Result, ok,
  err,
}

-- The CallbackProtocolErrors, one constructor for each message, and CallbackCancelled.
pub data CallbackError : Type 0 where
  malformed_callback oversized_field duplicate_field oversized_request : CallbackError
  body_forbidden invalid_method malformed_header invalid_host state_missing : CallbackError
  provider_rejected code_missing code_unavailable invalid_listener_state : CallbackError
  listener_unavailable callback_timed_out listener_failed callback_cancelled : CallbackError

pub data CallbackStatus : Type 0 where
  code_received access_denied : CallbackStatus

pub record CallbackResult : Type 0 where
  pub status : CallbackStatus
  pub state : Bytes
  pub code : Bytes
  pub safe_error_code : Bytes
  pub code_taken : Bool

abbrev pub max_callback_request_bytes : ℕ
max_callback_request_bytes = 8192

abbrev pub max_callback_value_bytes : ℕ
max_callback_value_bytes = 2048

abbrev pub is_code_received : CallbackStatus → Bool
is_code_received code_received = true
is_code_received access_denied = false

-- TakeCode moves the code out, which leaves it empty.
unfoldable pub take_code : CallbackResult → Result CallbackError Bytes × CallbackResult
take_code r =
    if not (is_code_received r.status) || r.code_taken || is_empty r.code
    then (err code_unavailable, r)
    else (ok r.code, record r { code_taken = true; code = [] })

-- The code is given out at most once, and never for a denial: a second call fails whatever the
-- first one did.
pub take_code_once :
    (r : CallbackResult)
    → ((take_code (take_code r).1).0 ≡ err code_unavailable)
      × ((take_code r).0 ≡ (
          if is_code_received r.status && not r.code_taken && not (is_empty r.code)
          then ok r.code
          else err code_unavailable))
unfolding take_code
take_code_once r = ground arith
