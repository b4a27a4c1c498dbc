-- ===== src/Auth/Callback.antt =====
-- src/auth_functions.cpp: ProcessAuthCallback, which the listener's thread runs.
pub mod Settles
use duckdb_data.Faults.{callback_protocol_error}
use duckdb_data.Registry.Sessions.{receive_callback, receive_denied, fail}
use duckdb_data.Callback.Types.{
  CallbackError, callback_cancelled, CallbackResult, is_code_received, take_code,
}
use duckdb_data.Callback.Listener.{Listener, wait_for_callback}
use duckdb_data.Auth.World.{
  World, Host, Thrown, other_exception, Step, throw, on_registry, ignoring,
}
use duckdb_data.Base.{ℕ, if◌then◌else◌, Bytes, Result, ok, err}

module _ (host : Host) (auth_id : Bytes) where
  abbrev pub fail_callback : Step (Unit {0})
  fail_callback = ignoring (on_registry host (λ r now. fail r auth_id callback_protocol_error))

  -- ReceiveCallback with the code taken, or the CallbackProtocolError of TakeCode.
  abbrev pub receive_code : Bytes → Result CallbackError Bytes → Step (Unit {0})
  receive_code state (ok code) =
      on_registry host (λ r now. receive_callback r auth_id state code now)
  receive_code state (err e) = throw other_exception

  unfoldable pub receive : CallbackResult → Step (Unit {0})
  unfolding on_registry take_code
  receive result =
      if is_code_received result.status
      then receive_code result.state (take_code result).0
      else on_registry host (λ r now. receive_denied r auth_id result.state now)

  -- catch (...) { try { registry.Fail(…); } catch (...) {} }
  abbrev pub fail_on_error : Result Thrown (Unit {0}) × World → World
  fail_on_error (ok t, w) = w
  fail_on_error (err e, w) = (fail_callback w).1

  -- What follows the wait: a cancellation is left alone, and any other exception fails the session.
  unfoldable pub after_wait : Result CallbackError CallbackResult → World → World
  unfolding receive on_registry
  after_wait (err callback_cancelled) w = w
  after_wait (err e) w = (fail_callback w).1
  after_wait (ok result) w = fail_on_error (receive result w)

  unfoldable pub process_auth_callback :
      Result CallbackError Bytes → ℕ → Listener → World → Listener × World
  unfolding after_wait wait_for_callback
  process_auth_callback accepted timeout_ms listener w =
      let (result, l') = wait_for_callback accepted timeout_ms listener in (l', after_wait result w)
