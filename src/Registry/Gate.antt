-- ===== src/Registry/Gate.antt =====
-- When a callback is taken, and when the completion gets its material.
use duckdb_data.Faults.{state_mismatch, callback_protocol_error}
use duckdb_data.Pkce.Challenge.Compare.{constant_time_equals_iff}
use duckdb_data.Registry.Map.{lookup}
use duckdb_data.Registry.Map.Laws.{lookup-put_self}
use duckdb_data.Registry.State.{
  pending_user_action, callback_received, completing, failed, Session, Registry,
  AuthCompletionMaterial, Reply, reply, session_error,
}
use duckdb_data.Registry.Sessions.{
  expire_locked, store, receive_callback, begin_completion, terminal_locked,
}
use duckdb_data.Registry.Touch.{with_session_found, with_session_missing}
use duckdb_data.Base.{
  ℕ, ◌<◌, ◌≡◌, sym, ap, ◌∙◌, ◌≢◌, ◌↔◌, inl, inr, Bool, true, false, none, some, [], arith,
  Option-cases, Bytes, is_empty, ok, err,
}

-- The session waits, its time is not over, and the callback brings its state and a code.
abbrev pub Accepts : Session → Bytes → Bytes → ℕ → Type 0
Accepts s state code now =
    (s.status ≡ pending_user_action)
    × (now < s.expires_at_ms)
    × (is_empty code ≡ false)
    × (s.expected_state ≡ state)

-- The session with the code in it and its state wiped.
abbrev pub received : Session → Bytes → Session
received s code = record s {
  authorization_code = code;
  expected_state = [];
  status = callback_received;
}

Accepts-of_ok :
    (r : Registry) (id state code : Bytes) (now : ℕ) (s : Session)
    → lookup id r.sessions ≡ some s
    → (receive_callback r id state code now).outcome ≡ ok tt
    → Accepts s state code now
unfolding receive_callback expire_locked
Accepts-of_ok r id state code now s e h =
    let found =
      sym (ap (λ (x : Reply (Unit {0})). x.outcome) (with_session_found r id _ s e)) ∙ h in
    ground (arith, found, constant_time_equals_iff s.expected_state state)

expire_early :
    (s : Session) (now : ℕ) (release : Bool)
    → now < s.expires_at_ms
    → expire_locked s now release ≡ (s, none)
unfolding expire_locked
expire_early s now release t = ground arith

pub takes_code :
    (r : Registry) (id state code : Bytes) (now : ℕ) (s : Session)
    → lookup id r.sessions ≡ some s
    → Accepts s state code now
    → receive_callback r id state code now ≡ reply (store r id (received s code)) [] (ok tt)
unfolding receive_callback
takes_code r id state code now s e (p, t, c, same) =
    let equal = (constant_time_equals_iff s.expected_state state).1 same in
    with_session_found r id _ s e ∙ ground (arith, expire_early s now false t, equal)

missing_refuses :
    (r : Registry) (id state code : Bytes) (now : ℕ)
    → lookup id r.sessions ≡ none
    → (receive_callback r id state code now).outcome ≢ ok tt
unfolding receive_callback
missing_refuses r id state code now e h =
    cc (sym (ap (λ (x : Reply (Unit {0})). x.outcome) (with_session_missing r id _ e)) ∙ h)

-- ReceiveCallback succeeds exactly where the session exists, is pending, is not overdue, and the
-- callback brings a code that is not empty together with the expected state.
pub receive_callback_iff :
    (r : Registry) (id state code : Bytes) (now : ℕ)
    → ((receive_callback r id state code now).outcome ≡ ok tt)
      ↔ ((s : Session) × (lookup id r.sessions ≡ some s) × Accepts s state code now)
receive_callback_iff r id state code now = (sound, complete)
  where
    sound :
        (receive_callback r id state code now).outcome ≡ ok tt
        → (s : Session) × (lookup id r.sessions ≡ some s) × Accepts s state code now
    sound h = elim (Option-cases (lookup id r.sessions)) [
      | inl e ↦ absurd (missing_refuses r id state code now e h)
      | inr (s, e) ↦ (s, e, Accepts-of_ok r id state code now s e h)
    ]

    complete :
        (s : Session) × (lookup id r.sessions ≡ some s) × Accepts s state code now
        → (receive_callback r id state code now).outcome ≡ ok tt
    complete (s, e, a) =
        ap (λ (x : Reply (Unit {0})). x.outcome) (takes_code r id state code now s e a)

pub mismatch_fails :
    (r : Registry) (id state code : Bytes) (now : ℕ) (s : Session)
    → lookup id r.sessions ≡ some s
    → s.status ≡ pending_user_action
    → now < s.expires_at_ms
    → is_empty code ≡ false
    → s.expected_state ≢ state
    → receive_callback r id state code now
      ≡ reply
          (store r id (record s {
            status = failed;
            fault = some state_mismatch;
            expected_state = [];
            pkce_verifier = [];
            authorization_code = [];
          }))
          []
          (err (session_error state_mismatch))
unfolding receive_callback terminal_locked
mismatch_fails r id state code now s e p t c n =
    with_session_found r id _ s e
    ∙ ground (arith, expire_early s now false t, constant_time_equals_iff s.expected_state state, n)

abbrev pub material : Session → AuthCompletionMaterial
material s = record {
  authorization_code = s.authorization_code;
  pkce_verifier = s.pkce_verifier;
  login_origin = s.login_origin;
  client_id = s.client_id;
  secret_name = s.secret_name;
}

abbrev pub completing_session : Session → Session
completing_session s = record s { status = completing; authorization_code = []; pkce_verifier = [] }

-- BeginCompletion gives out the code and the verifier of a session that has received its callback
-- in time, leaves neither of them in the registry, and refuses when called again.
pub begin_completion_once :
    (r : Registry) (id : Bytes) (now later : ℕ) (s : Session)
    → lookup id r.sessions ≡ some s
    → s.status ≡ callback_received
    → now < s.expires_at_ms
    → (begin_completion r id now ≡ reply (store r id (completing_session s)) [] (ok (material s)))
      × ((begin_completion (begin_completion r id now).registry id later).outcome
          ≡ err (session_error callback_protocol_error))
begin_completion_once r id now later s e p t = (first, rw first second)
  where
    first :
        begin_completion r id now ≡ reply (store r id (completing_session s)) [] (ok (material s))
    first =
        unfold begin_completion in
        with_session_found r id _ s e ∙ ground (arith, expire_early s now true t)

    second :
        (begin_completion (store r id (completing_session s)) id later).outcome
        ≡ err (session_error callback_protocol_error)
    second =
        unfold begin_completion expire_locked in
        ap (λ (x : Reply AuthCompletionMaterial). x.outcome)
          (with_session_found (store r id (completing_session s)) id _ (completing_session s)
            (lookup-put_self id (completing_session s) s r.sessions e))
