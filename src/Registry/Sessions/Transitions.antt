-- ===== src/Registry/Sessions/Transitions.antt =====
-- One session: what its status says of its secrets and its fault, and where its status may go.
use duckdb_data.Faults.{AuthFault, session_expired, user_denied}
use duckdb_data.Registry.Map.Counts.{as_number}
use duckdb_data.Registry.State.{
  AuthSessionStatus, pending_user_action, callback_received, completing, authorized, access_denied,
  expired, cancelled, failed, Session,
}
use duckdb_data.Registry.Sessions.{is_terminal, is_active, terminal_locked, expire_locked, reap}
use duckdb_data.Base.{
  ℕ, ◌≤◌, ◌≡◌, refl, ◌≢◌, ◌⊎◌, Bool, true, false, Option, none, some, [], arith, is_empty,
}

-- All three secrets are wiped.
abbrev pub IsWiped : Session → Type 0
IsWiped s = (s.expected_state ≡ []) × (s.pkce_verifier ≡ []) × (s.authorization_code ≡ [])

abbrev pub FaultFits : AuthSessionStatus → Option AuthFault → Type 0
FaultFits access_denied fault = fault ≡ some user_denied
FaultFits expired fault = fault ≡ some session_expired
FaultFits failed fault = fault ≢ none
FaultFits _ fault = fault ≡ none

abbrev pub SecretsFit : AuthSessionStatus → Session → Type 0
SecretsFit pending_user_action s =
    (is_empty s.expected_state ≡ false)
    × (is_empty s.pkce_verifier ≡ false)
    × (s.authorization_code ≡ [])
SecretsFit callback_received s =
    (s.expected_state ≡ [])
    × (is_empty s.pkce_verifier ≡ false)
    × (is_empty s.authorization_code ≡ false)
SecretsFit _ s = IsWiped s

abbrev pub SessionOk : Session → Type 0
SessionOk s = SecretsFit s.status s × FaultFits s.status s.fault

-- The state machine: whether one call may take a session from one status to the other.
abbrev pub may_move : AuthSessionStatus → AuthSessionStatus → Bool
may_move pending_user_action completing = false
may_move pending_user_action authorized = false
may_move pending_user_action _ = true
may_move callback_received pending_user_action = false
may_move callback_received authorized = false
may_move callback_received access_denied = false
may_move callback_received _ = true
may_move completing completing = true
may_move completing authorized = true
may_move completing failed = true
may_move completing _ = false
may_move authorized authorized = true
may_move access_denied access_denied = true
may_move expired expired = true
may_move cancelled cancelled = true
may_move failed failed = true
may_move _ _ = false

-- What the request gave, and no call may change.
abbrev pub KeepsRequest : Session → Session → Type 0
KeepsRequest s s' =
    (s'.login_origin ≡ s.login_origin)
    × (s'.client_id ≡ s.client_id)
    × (s'.secret_name ≡ s.secret_name)
    × (s'.expires_at_ms ≡ s.expires_at_ms)
    × (s'.expires_at_utc_micros ≡ s.expires_at_utc_micros)

-- What a call may do to a session.
pub record Change (s s' : Session) : Type 0 where
  pub keeps_ok : SessionOk s → SessionOk s'
  pub keeps_inactive : as_number (is_active s'.status) ≤ as_number (is_active s.status)
  pub moves : may_move s.status s'.status ≡ true
  pub keeps_request : KeepsRequest s s'

may_move_refl : (a : AuthSessionStatus) → may_move a a ≡ true
may_move_refl pending_user_action = refl
may_move_refl _ = refl

pub Change-refl : (s : Session) → Change s s
Change-refl s = record {
  keeps_ok = λ h. h;
  keeps_inactive = omega arith;
  moves = may_move_refl s.status;
  keeps_request = (refl, refl, refl, refl, refl);
}

terminal_locked-SessionOk :
    (s : Session) (status : AuthSessionStatus) (fault : Option AuthFault) (release : Bool)
    → is_terminal status ≡ true
    → FaultFits status fault
    → SessionOk s
    → SessionOk (terminal_locked s status fault release).0
unfolding terminal_locked
terminal_locked-SessionOk s status fault release t f h = ground arith

expire_locked-SessionOk :
    (s : Session) (now : ℕ) (release : Bool)
    → SessionOk s
    → SessionOk (expire_locked s now release).0
unfolding expire_locked
expire_locked-SessionOk s now release h = ground arith

pub terminal_locked-Change :
    (s : Session) (status : AuthSessionStatus) (fault : Option AuthFault) (release : Bool)
    → is_terminal status ≡ true
    → FaultFits status fault
    → (is_terminal s.status ≡ true) ⊎ (may_move s.status status ≡ true)
    → Change s (terminal_locked s status fault release).0
unfolding terminal_locked
terminal_locked-Change s status fault release t f m = record {
  keeps_ok = terminal_locked-SessionOk s status fault release t f;
  keeps_inactive = ground arith;
  moves = ground (arith, may_move_refl s.status);
  keeps_request = ground arith;
}

pub expire_locked-Change :
    (s : Session) (now : ℕ) (release : Bool) → Change s (expire_locked s now release).0
unfolding expire_locked
expire_locked-Change s now release = record {
  keeps_ok = expire_locked-SessionOk s now release;
  keeps_inactive = ground arith;
  moves = ground (arith, may_move_refl s.status);
  keeps_request = ground arith;
}

pub reap-Change : (s : Session) (now : ℕ) → Change s (reap (expire_locked s now true)).0
unfolding expire_locked
reap-Change s now = record {
  keeps_ok = λ h. ground arith;
  keeps_inactive = ground arith;
  moves = ground (arith, may_move_refl s.status);
  keeps_request = ground arith;
}
