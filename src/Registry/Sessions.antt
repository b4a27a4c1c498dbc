-- ===== src/Registry/Sessions.antt =====
-- The calls on sessions.
pub mod Transitions
use duckdb_data.Faults.{
  AuthFault, callback_protocol_error, state_mismatch, user_denied, session_expired,
  auth_session_not_found, auth_session_limit_reached,
}
use duckdb_data.Pkce.Error.{entropy_unavailable}
use duckdb_data.Pkce.Base64.{RandomSource, generate_opaque_id}
use duckdb_data.Pkce.Challenge.{constant_time_equals}
use duckdb_data.Registry.Map.{lookup, has, put, emplace, erase_first, count_if}
use duckdb_data.Registry.State.{
  AuthSessionStatus, pending_user_action, callback_received, completing, authorized, access_denied,
  expired, cancelled, failed, Session, Credential, Registry, AuthStartRequest, AuthSessionSnapshot,
  AuthCompletionMaterial, session_error, oauth_error, Failure, Reply, owner_list, reply, throw,
}
use duckdb_data.Base.{
  ℕ, zero, suc, ◌+◌, ◌-◌, ◌^◌, Bool, true, false, not, ◌&&◌, ◌||◌, Option, none, some, List, [],
  ◌∷◌, ◌++◌, ltb, leb, ◌==◌, if◌then◌else◌, length, Bytes, is_empty, Result, ok, err,
}

-- Terminal.
abbrev pub is_terminal : AuthSessionStatus → Bool
is_terminal pending_user_action = false
is_terminal callback_received = false
is_terminal completing = false
is_terminal _ = true

abbrev pub is_active : AuthSessionStatus → Bool
is_active status = not (is_terminal status)

abbrev pub is_pending : AuthSessionStatus → Bool
is_pending pending_user_action = true
is_pending _ = false

abbrev pub is_callback_received : AuthSessionStatus → Bool
is_callback_received callback_received = true
is_callback_received _ = false

abbrev pub is_completing : AuthSessionStatus → Bool
is_completing completing = true
is_completing _ = false

abbrev pub is_none : Option ℕ → Bool
is_none none = true
is_none (some owner) = false

-- TerminalLocked and ExpireLocked give the session and the owner that they moved out of it.
unfoldable pub terminal_locked :
    Session → AuthSessionStatus → Option AuthFault → Bool → Session × Option ℕ
terminal_locked s status fault release_owner = if is_terminal s.status then (s, none) else (
  record s {
    status = status;
    fault = fault;
    expected_state = [];
    pkce_verifier = [];
    authorization_code = [];
    callback_owner = if release_owner then none else s.callback_owner;
  },
  if release_owner then s.callback_owner else none,
)

unfoldable pub expire_locked : Session → ℕ → Bool → Session × Option ℕ
unfolding terminal_locked
expire_locked s now release_owner =
    if not (is_completing s.status) && is_active s.status && leb s.expires_at_ms now
    then terminal_locked s expired (some session_expired) release_owner
    else (s, none)

-- Create's sweep over the sessions, with the owners that it collects.
unfoldable pub expire_all : ℕ → List (Bytes × Session) → List (Bytes × Session) × List ℕ
unfolding expire_locked
expire_all now [] = ([], [])
expire_all now ((id, s) ∷ m) =
    let (s', owner) = expire_locked s now true in
    let (m', owners) = expire_all now m in ((id, s') ∷ m', owner_list owner ++ owners)

-- `while (sessions.size() >= 32)`: a round takes one session out, so as many rounds as there are
-- sessions are enough.
unfoldable pub evict : ℕ → List (Bytes × Session) → List (Bytes × Session)
unfolding erase_first
evict zero m = m
evict (suc rounds) m = elim (leb 32 (length m)) [
  | true ↦ elim (erase_first (λ s. is_terminal s.status) m) [ none ↦ m | some m' ↦ evict rounds m' ]
  | false ↦ m
]

-- The loop over `attempt`: an empty result where all attempts gave an id that is taken.
unfoldable pub fresh_id : ℕ → ℕ → RandomSource → Registry → Result Failure Bytes
unfolding lookup
fresh_id zero attempt random r = ok []
fresh_id (suc rounds) attempt random r =
    let again = fresh_id rounds (attempt + 1) random r in
    elim (generate_opaque_id random attempt) [
      | none ↦ err (oauth_error entropy_unavailable)
      | some id ↦ if not (has id r.sessions) && not (has id r.credentials) then ok id else again
    ]

abbrev pub new_session : AuthStartRequest → Session
new_session q = record {
  status = pending_user_action;
  expected_state = q.expected_state;
  pkce_verifier = q.pkce_verifier;
  authorization_code = [];
  login_origin = q.login_origin;
  client_id = q.client_id;
  secret_name = q.secret_name;
  expires_at_ms = q.expires_at_monotonic_ms;
  expires_at_utc_micros = q.expires_at_utc_micros;
  fault = none;
  callback_owner = q.callback_owner;
}

-- Create from `std::string id` on: `r` has the swept sessions. An exception of the random source
-- leaves before StopOwners.
unfoldable pub create_entry :
    Registry → AuthStartRequest → List ℕ → Result Failure Bytes → Reply Bytes
unfolding emplace
create_entry r q owners (err e) = reply r [] (err e)
create_entry r q owners (ok []) = reply r owners (err (session_error auth_session_limit_reached))
create_entry r q owners (ok (c ∷ id)) =
    reply (record r { sessions = emplace (c ∷ id) (new_session q) r.sessions }) owners (ok (c ∷ id))

unfoldable pub create : Registry → AuthStartRequest → ℕ → RandomSource → Reply Bytes
unfolding create_entry expire_all evict count_if
create r q now random =
    let (live, owners) = expire_all now r.sessions in
    let kept = evict (length live) live in
    let r' = record r { sessions = kept } in
    if is_empty q.expected_state || is_empty q.pkce_verifier || q.expires_at_monotonic_ms == 0
    then throw r callback_protocol_error
    else if leb q.expires_at_monotonic_ms now
    then throw r session_expired
    else if leb 4 (count_if (λ s. is_active s.status) kept)
    then reply r' owners (err (session_error auth_session_limit_reached))
    else create_entry r' q owners (fresh_id 16 0 random r')

abbrev pub ttl_request : Bytes → Bytes → ℕ → Option ℕ → AuthStartRequest
ttl_request expected_state pkce_verifier expires_at_monotonic_ms owner = record {
  login_origin = [];
  client_id = [];
  secret_name = [];
  expected_state = expected_state;
  pkce_verifier = pkce_verifier;
  expires_at_monotonic_ms = expires_at_monotonic_ms;
  expires_at_utc_micros = 0;
  callback_owner = owner;
}

-- The compatibility entry: the clock is read here and again in `create`.
unfoldable pub create_with_ttl :
    Registry → Bytes → Bytes → ℕ → Option ℕ → ℕ → ℕ → RandomSource → Reply Bytes
unfolding create
create_with_ttl r expected_state pkce_verifier ttl_ms owner now later random =
    if ttl_ms == 0 || ltb (2 ^ 64 - 1 - now) ttl_ms
    then throw r session_expired
    else create r (ttl_request expected_state pkce_verifier (now + ttl_ms) owner) later random

-- FindLocked, and what the call does with the session that it finds.
abbrev pub with_session {ℓ} : {A : Type ℓ} → Registry → Bytes → (Session → Reply A) → Reply A
with_session r auth_id body = elim (lookup auth_id r.sessions) [
  | none ↦ throw r auth_session_not_found
  | some s ↦ body s
]

abbrev pub store : Registry → Bytes → Session → Registry
store r auth_id s = record r { sessions = put auth_id s r.sessions }

-- Snapshot moves an owner out of a session that is terminal, if ExpireLocked did not.
abbrev pub reap : Session × Option ℕ → Session × Option ℕ
reap (s, owner) =
    if is_terminal s.status && is_none owner
    then (record s { callback_owner = none }, s.callback_owner)
    else (s, owner)

unfoldable pub snapshot : Registry → Bytes → ℕ → Reply AuthSessionSnapshot
unfolding lookup put expire_locked
snapshot r auth_id now = with_session r auth_id λ s.
    let (s', owner) = reap (expire_locked s now true) in
    reply (store r auth_id s') (owner_list owner) (
      ok (record {
        status = s'.status;
        secret_name = s'.secret_name;
        expires_at_utc_micros = s'.expires_at_utc_micros;
        fault = s'.fault;
      }))

unfoldable pub receive_callback : Registry → Bytes → Bytes → Bytes → ℕ → Reply (Unit {0})
unfolding lookup put expire_locked
receive_callback r auth_id state authorization_code now = with_session r auth_id λ s.
    let (s', owner) = expire_locked s now false in
    if not (is_pending s'.status) || is_empty authorization_code
    then reply (store r auth_id s') (owner_list owner) (err (session_error callback_protocol_error))
    else if not (constant_time_equals s'.expected_state state)
    then reply (store r auth_id (terminal_locked s' failed (some state_mismatch) false).0)
        (owner_list owner) (err (session_error state_mismatch))
    else reply
        (store r auth_id (record s' {
          authorization_code = authorization_code;
          expected_state = [];
          status = callback_received;
        }))
        (owner_list owner) (ok tt)

unfoldable pub receive_denied : Registry → Bytes → Bytes → ℕ → Reply (Unit {0})
unfolding lookup put expire_locked
receive_denied r auth_id state now = with_session r auth_id λ s.
    let (s', _) = expire_locked s now false in
    if not (is_pending s'.status)
    then throw (store r auth_id s') callback_protocol_error
    else if not (constant_time_equals s'.expected_state state)
    then throw (store r auth_id (terminal_locked s' failed (some state_mismatch) false).0)
        state_mismatch
    else reply (store r auth_id (terminal_locked s' access_denied (some user_denied) false).0) []
        (ok tt)

unfoldable pub begin_completion : Registry → Bytes → ℕ → Reply AuthCompletionMaterial
unfolding lookup put expire_locked
begin_completion r auth_id now = with_session r auth_id λ s.
    let (s', owner) = expire_locked s now true in
    if not (is_callback_received s'.status)
    then reply (store r auth_id s') (owner_list owner) (err (session_error callback_protocol_error))
    else reply
        (store r auth_id
          (record s' { status = completing; authorization_code = []; pkce_verifier = [] }))
        []
        (ok (record {
          authorization_code = s'.authorization_code;
          pkce_verifier = s'.pkce_verifier;
          login_origin = s'.login_origin;
          client_id = s'.client_id;
          secret_name = s'.secret_name;
        }))

-- A terminal transition that is stored, with its owner stopped.
abbrev pub settle : Registry → Bytes → Session × Option ℕ → Reply (Unit {0})
settle r auth_id (s, owner) = reply (store r auth_id s) (owner_list owner) (ok tt)

unfoldable pub finish_authorized : Registry → Bytes → Reply (Unit {0})
unfolding lookup put terminal_locked
finish_authorized r auth_id = with_session r auth_id λ s.
    if not (is_completing s.status)
    then throw r callback_protocol_error
    else settle r auth_id (terminal_locked s authorized none true)

unfoldable pub finish_failed : Registry → Bytes → AuthFault → Reply (Unit {0})
unfolding lookup put terminal_locked
finish_failed r auth_id fault = with_session r auth_id λ s.
    if not (is_completing s.status)
    then throw r callback_protocol_error
    else settle r auth_id (terminal_locked s failed (some fault) true)

unfoldable pub fail : Registry → Bytes → AuthFault → Reply (Unit {0})
unfolding lookup put terminal_locked
fail r auth_id fault = with_session r auth_id λ s.
    if is_completing s.status
    then reply r [] (ok tt)
    else settle r auth_id (terminal_locked s failed (some fault) true)

unfoldable pub cancel : Registry → Bytes → Reply (Unit {0})
unfolding lookup put terminal_locked
cancel r auth_id = with_session r auth_id λ s.
    if is_completing s.status
    then reply r [] (ok tt)
    else settle r auth_id (terminal_locked s cancelled none true)

unfoldable pub stop_callback : Registry → Bytes → Reply (Unit {0})
unfolding lookup put
stop_callback r auth_id = elim (lookup auth_id r.sessions) [
  | none ↦ reply r [] (ok tt)
  | some s ↦ settle r auth_id (record s { callback_owner = none }, s.callback_owner)
]

-- The owners that the registry's destructor stops, in the order of the sessions.
unfoldable pub destroy : List (Bytes × Session) → List ℕ
destroy [] = []
destroy ((id, s) ∷ m) = owner_list s.callback_owner ++ destroy m
