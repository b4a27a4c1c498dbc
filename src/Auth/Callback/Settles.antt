-- ===== src/Auth/Callback/Settles.antt =====
-- The listener's thread settles its session.
use duckdb_data.Faults.{AuthFault, state_mismatch, user_denied, callback_protocol_error}
use duckdb_data.Registry.Map.{lookup}
use duckdb_data.Registry.Map.Laws.{lookup-put_self}
use duckdb_data.Registry.State.{failed, access_denied, Session, Registry, Failure, Reply}
use duckdb_data.Registry.Sessions.{
  is_pending, with_session, is_completing, terminal_locked, expire_locked, store, receive_callback,
  receive_denied, fail,
}
use duckdb_data.Pkce.Challenge.{constant_time_equals}
use duckdb_data.Registry.Gate.{received, takes_code, receive_callback_iff}
use duckdb_data.Registry.Touch.{with_session_found, with_session_missing}
use duckdb_data.Registry.Calls.{run}
use duckdb_data.Callback.Types.{
  CallbackError, callback_cancelled, CallbackResult, is_code_received, take_code,
}
use duckdb_data.Callback.Listener.{Listener, wait_for_callback}
use duckdb_data.Auth.World.{World, Host, Thrown, Step, outcome_of, replied, on_registry}
use duckdb_data.Auth.Callback.{
  fail_callback, receive_code, receive, fail_on_error, after_wait, process_auth_callback,
}
use duckdb_data.Base.{
  ℕ, ◌≡◌, refl, sym, subst, ◌≢◌, ◌⊎◌, inl, inr, Bool, true, false, Option, none, some, arith,
  Bool-cases, Option-cases, if-holds, Bytes, Result, ok, err,
}

-- The session `id`, if there is one, does not wait for its user.
abbrev pub IsSettled : Bytes → Registry → Type 0
IsSettled id r =
    (lookup id r.sessions ≡ none)
    ⊎ ((s : Session) × (lookup id r.sessions ≡ some s) × (is_pending s.status ≡ false))

failed_settles :
    (s : Session) (fault : Option AuthFault) (release : Bool)
    → is_pending (terminal_locked s failed fault release).0.status ≡ false
unfolding terminal_locked
failed_settles s fault release = ground arith

denied_settles :
    (s : Session) (fault : Option AuthFault) (release : Bool)
    → is_pending (terminal_locked s access_denied fault release).0.status ≡ false
unfolding terminal_locked
denied_settles s fault release = ground arith

module _ (id : Bytes) (r : Registry) where
  -- A call that looks the session up settles it if its body does.
  with_session-IsSettled :
      {A : Type 0} (body : Session → Reply A)
      → ((s : Session) → lookup id r.sessions ≡ some s → IsSettled id (body s).registry)
      → IsSettled id (with_session r id body).registry
  with_session-IsSettled body k = elim (Option-cases (lookup id r.sessions)) [
    | inl e ↦ subst (λ x. IsSettled id x.registry) (sym (with_session_missing r id body e)) (inl e)
    | inr (s, e) ↦
        subst (λ x. IsSettled id x.registry) (sym (with_session_found r id body s e)) (k s e)
  ]

  stored_IsSettled :
      (s s' : Session)
      → lookup id r.sessions ≡ some s
      → is_pending s'.status ≡ false
      → IsSettled id (store r id s')
  stored_IsSettled s s' e h = inr (s', lookup-put_self id s' s r.sessions e, h)

  fail-IsSettled : (fault : AuthFault) → IsSettled id (fail r id fault).registry
  unfolding fail
  fail-IsSettled fault = with_session-IsSettled _ (λ s e.
      elim (Bool-cases (is_completing s.status)) [
        | inl c ↦ rw c (inr (s, e, ground (arith, c)))
        | inr c ↦ rw c (
            stored_IsSettled s (terminal_locked s failed (some fault) true).0 e
              (failed_settles s (some fault) true))
      ])

  receive_denied-IsSettled :
      (state : Bytes) (now : ℕ) → IsSettled id (receive_denied r id state now).registry
  unfolding receive_denied
  receive_denied-IsSettled state now = with_session-IsSettled _ (λ s e.
      let s' = (expire_locked s now false).0 in
      elim (Bool-cases (is_pending s'.status)) [
        | inr c ↦ rw c (stored_IsSettled s s' e c)
        | inl c ↦ elim (Bool-cases (constant_time_equals s'.expected_state state)) [
          | inr d ↦
              rw (c, d) (stored_IsSettled s _ e (failed_settles s' (some state_mismatch) false))
          | inl d ↦ rw (c, d) (stored_IsSettled s _ e (denied_settles s' (some user_denied) false))
        ]
      ])

  receive_callback-IsSettled :
      (state code : Bytes) (now : ℕ)
      → (receive_callback r id state code now).outcome ≡ ok tt
      → IsSettled id (receive_callback r id state code now).registry
  receive_callback-IsSettled state code now h =
      let (s, e, accepts) = (receive_callback_iff r id state code now).0 h in
      subst (λ x. IsSettled id x.registry) (sym (takes_code r id state code now s e accepts))
        (stored_IsSettled s (received s code) e refl)

module _ (id : Bytes) (host : Host) where
  fail_callback-IsSettled : (w : World) → IsSettled id (fail_callback host id w).1.registry
  unfolding on_registry
  fail_callback-IsSettled w =
      fail-IsSettled id (run w.registry (host.others w.turn)) callback_protocol_error

  -- What a call on the registry leaves is settled where it succeeds.
  abbrev SettlesIfOk : Result Thrown (Unit {0}) × World → Type 0
  SettlesIfOk (ok t, w) = IsSettled id w.registry
  SettlesIfOk (err e, w) = Unit {0}

  receive_code-SettlesIfOk :
      (state : Bytes) (code : Result CallbackError Bytes) (w : World)
      → SettlesIfOk (receive_code host id state code w)
  unfolding on_registry
  receive_code-SettlesIfOk state (err e) w = tt
  receive_code-SettlesIfOk state (ok code) w =
      rest (receive_callback r id state code now).outcome refl
    where
      r : Registry
      r = run w.registry (host.others w.turn)

      now : ℕ
      now = host.now_ms w.turn

      rest :
          (x : Result Failure (Unit {0}))
          → (receive_callback r id state code now).outcome ≡ x
          → SettlesIfOk (outcome_of x, (replied w (receive_callback r id state code now)).1)
      rest (ok t) e = receive_callback-IsSettled id r state code now e
      rest (err x) e = tt

  settled_reply :
      (reply : Reply (Unit {0})) (w : World)
      → IsSettled id reply.registry
      → SettlesIfOk (replied w reply)
  settled_reply reply w h = rest reply.outcome
    where
      rest : (x : Result Failure (Unit {0})) → SettlesIfOk (outcome_of x, (replied w reply).1)
      rest (ok t) = h
      rest (err e) = tt

  receive-SettlesIfOk :
      (result : CallbackResult) (w : World) → SettlesIfOk (receive host id result w)
  unfolding receive on_registry
  receive-SettlesIfOk result w =
      let r = run w.registry (host.others w.turn) in
      if-holds (λ (m : Step (Unit {0})). SettlesIfOk (m w)) (is_code_received result.status)
        (receive_code host id result.state (take_code result).0)
        (on_registry host (λ r now. receive_denied r id result.state now))
        (λ e. receive_code-SettlesIfOk result.state (take_code result).0 w)
        (λ e.
          settled_reply (receive_denied r id result.state (host.now_ms w.turn)) w
            (receive_denied-IsSettled id r result.state (host.now_ms w.turn)))

  fail_on_error-IsSettled :
      (x : Result Thrown (Unit {0}) × World)
      → SettlesIfOk x
      → IsSettled id (fail_on_error host id x).registry
  fail_on_error-IsSettled (ok t, w) h = h
  fail_on_error-IsSettled (err e, w) h = fail_callback-IsSettled w

  after_wait-IsSettled :
      (result : Result CallbackError CallbackResult) (w : World)
      → result ≢ err callback_cancelled
      → IsSettled id (after_wait host id result w).registry
  unfolding after_wait
  after_wait-IsSettled (ok result) w h =
      fail_on_error-IsSettled (receive host id result w) (receive-SettlesIfOk result w)
  after_wait-IsSettled (err callback_cancelled) w h = elim (h refl) [ ]
  after_wait-IsSettled (err _) w h = fail_callback-IsSettled w

-- Unless the wait was cancelled, the listener's thread leaves no session waiting for its user:
-- whatever the request holds and whatever other threads do in between, the session is gone or has
-- moved on.
pub process_auth_callback_settles :
    (id : Bytes) (host : Host) (accepted : Result CallbackError Bytes) (timeout_ms : ℕ)
    (l : Listener) (w : World)
    → (wait_for_callback accepted timeout_ms l).0 ≢ err callback_cancelled
    → IsSettled id (process_auth_callback host id accepted timeout_ms l w).1.registry
unfolding process_auth_callback
process_auth_callback_settles id host accepted timeout_ms l w h =
    after_wait-IsSettled id host (wait_for_callback accepted timeout_ms l).0 w h
