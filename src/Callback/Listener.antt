-- ===== src/Callback/Listener.antt =====
-- src/loopback_listener.cpp: FixedLoopbackListener. What AcceptOne gives or throws is an argument;
-- the acceptor is seen by the calls made on it, the last one first. Respond is taken to throw
-- nothing, as that of the native acceptor.
use duckdb_data.Callback.Types.{
  CallbackError, invalid_listener_state, CallbackResult, max_callback_request_bytes,
  is_code_received,
}
use duckdb_data.Callback.Request.{parse_oauth_callback_request}
use duckdb_data.Base.{
  ℕ, suc, ◌≤◌, ◌<◌, ◌≡◌, refl, Bool, true, false, ◌||◌, List, [], ◌∷◌, arith, ltb, ◌==◌,
  if◌then◌else◌, Bytes, codes, ◌>>=◌, Result, ok, err,
}

pub data AcceptorCall : Type 0 where
  binds : Bytes → ℕ → AcceptorCall
  accepts : ℕ → ℕ → AcceptorCall
  responds : Bool → AcceptorCall
  closes : AcceptorCall

pub record Listener : Type 0 where
  pub consumed : Bool
  pub waiting : Bool
  pub calls : List AcceptorCall

-- The constructor.
abbrev pub listener : Listener
listener = record { consumed = false; waiting = false; calls = binds (codes "127.0.0.1") 8910 ∷ [] }

-- The end of the `try` block and its handler: `responds true` is the page of success.
pub conclude :
    Result CallbackError CallbackResult → Listener → Result CallbackError CallbackResult × Listener
conclude (err e) l = (err e, record l { waiting = false; calls = closes ∷ l.calls })
conclude (ok r) l = (
  ok r,
  record l { waiting = false; calls = closes ∷ responds (is_code_received r.status) ∷ l.calls },
)

unfoldable pub wait_for_callback :
    Result CallbackError Bytes → ℕ → Listener → Result CallbackError CallbackResult × Listener
unfolding conclude
wait_for_callback accepted timeout_ms l =
    if l.consumed || timeout_ms == 0 || ltb 600000 timeout_ms
    then (err invalid_listener_state, l)
    else conclude (accepted >>= parse_oauth_callback_request) (record l {
      consumed = true;
      waiting = true;
      calls = accepts max_callback_request_bytes timeout_ms ∷ l.calls;
    })

unfoldable pub cancel : Listener → Listener
cancel l = record l { consumed = true; calls = closes ∷ l.calls }

-- How often the acceptor was asked for a connection, and whether its last call closed it.
abbrev pub accept_count : List AcceptorCall → ℕ
accept_count [] = 0
accept_count (accepts n t ∷ cs) = suc (accept_count cs)
accept_count (c ∷ cs) = accept_count cs

abbrev pub is_closed : List AcceptorCall → Bool
is_closed (closes ∷ cs) = true
is_closed _ = false

-- A wait that starts makes one attempt to accept, closes the acceptor on every path, is no longer
-- waiting, and uses the listener up: any later wait fails and leaves the listener as it is.
pub wait_for_callback_once :
    (accepted again : Result CallbackError Bytes) (timeout_ms later_ms : ℕ) (l : Listener)
    → l.consumed ≡ false
    → 0 < timeout_ms
    → timeout_ms ≤ 600000
    → let l' = (wait_for_callback accepted timeout_ms l).1 in
      (accept_count l'.calls ≡ suc (accept_count l.calls))
      × (is_closed l'.calls ≡ true)
      × (l'.waiting ≡ false)
      × ((wait_for_callback again later_ms l').0 ≡ err invalid_listener_state)
      × ((wait_for_callback again later_ms l').1 ≡ l')
unfolding wait_for_callback
wait_for_callback_once accepted again timeout_ms later_ms l c p q = ground arith

-- After Cancel no wait starts.
pub cancel_refuses :
    (accepted : Result CallbackError Bytes) (timeout_ms : ℕ) (l : Listener)
    → wait_for_callback accepted timeout_ms (cancel l) ≡ (err invalid_listener_state, cancel l)
unfolding wait_for_callback cancel
cancel_refuses accepted timeout_ms l = refl
