-- ===== src/Faults.antt =====
-- src/error_codes.cpp and src/include/data360/error_codes.hpp: the public faults and their texts.
pub mod Table
mod Examples
use duckdb_data.Base.{
  ℕ, String, not, List, [], ◌∷◌, ◌++◌, ◌==◌, if◌then◌else◌, get_or, Bytes, codes,
}

pub data AuthFault : Type 0 where
  invalid_login_origin invalid_client_id callback_port_unavailable : AuthFault
  callback_protocol_error state_mismatch user_denied : AuthFault
  session_expired network_unavailable tls_failure : AuthFault
  token_exchange_failed data360_exchange_failed org_policy_denied : AuthFault
  secret_name_invalid persistence_forbidden auth_session_not_found : AuthFault
  auth_session_limit_reached reauth_required unsupported_platform : AuthFault

-- The enumerator's value, by which `==` compares.
unfoldable pub fault_value : AuthFault → ℕ
fault_value invalid_login_origin = 0
fault_value invalid_client_id = 1
fault_value callback_port_unavailable = 2
fault_value callback_protocol_error = 3
fault_value state_mismatch = 4
fault_value user_denied = 5
fault_value session_expired = 6
fault_value network_unavailable = 7
fault_value tls_failure = 8
fault_value token_exchange_failed = 9
fault_value data360_exchange_failed = 10
fault_value org_policy_denied = 11
fault_value secret_name_invalid = 12
fault_value persistence_forbidden = 13
fault_value auth_session_not_found = 14
fault_value auth_session_limit_reached = 15
fault_value reauth_required = 16
fault_value unsupported_platform = 17

pub record SafeFault : Type 0 where
  pub fault : AuthFault
  pub code : Bytes
  pub symbol : Bytes
  pub message : Bytes

abbrev entry : AuthFault → String → String → String → SafeFault
entry f c s m = record { fault = f; code = codes c; symbol = codes s; message = codes m }

-- SAFE_FAULTS.
abbrev pub safe_faults : List SafeFault
safe_faults =
    entry invalid_login_origin "D360-AUTH-001" "INVALID_LOGIN_ORIGIN" "The login origin is invalid"
    ∷ entry invalid_client_id "D360-AUTH-002" "INVALID_CLIENT_ID"
        "The OAuth client identifier is invalid"
    ∷ entry callback_port_unavailable "D360-AUTH-003" "CALLBACK_PORT_UNAVAILABLE"
        "The local callback port is unavailable"
    ∷ entry callback_protocol_error "D360-AUTH-004" "CALLBACK_PROTOCOL_ERROR"
        "The OAuth callback was invalid"
    ∷ entry state_mismatch "D360-AUTH-005" "STATE_MISMATCH" "The OAuth callback state did not match"
    ∷ entry user_denied "D360-AUTH-006" "USER_DENIED" "Authorization was denied"
    ∷ entry session_expired "D360-AUTH-007" "SESSION_EXPIRED" "The authorization session expired"
    ∷ entry network_unavailable "D360-AUTH-008" "NETWORK_UNAVAILABLE"
        "The authorization service is unavailable"
    ∷ entry tls_failure "D360-AUTH-009" "TLS_FAILURE" "A secure connection could not be established"
    ∷ entry token_exchange_failed "D360-AUTH-010" "TOKEN_EXCHANGE_FAILED"
        "The OAuth token exchange failed"
    ∷ entry data360_exchange_failed "D360-AUTH-011" "DATA360_EXCHANGE_FAILED"
        "The Data 360 token exchange failed"
    ∷ entry org_policy_denied "D360-AUTH-012" "ORG_POLICY_DENIED"
        "Organization policy denied authorization"
    ∷ entry secret_name_invalid "D360-AUTH-013" "SECRET_NAME_INVALID" "The secret name is invalid"
    ∷ entry persistence_forbidden "D360-AUTH-014" "PERSISTENCE_FORBIDDEN"
        "Data 360 OAuth session secrets are temporary"
    ∷ entry auth_session_not_found "D360-AUTH-015" "AUTH_SESSION_NOT_FOUND"
        "The authorization session was not found"
    ∷ entry auth_session_limit_reached "D360-AUTH-016" "AUTH_SESSION_LIMIT_REACHED"
        "The authorization session limit was reached"
    ∷ entry reauth_required "D360-AUTH-017" "REAUTH_REQUIRED" "Authorization is required"
    ∷ entry unsupported_platform "D360-AUTH-018" "UNSUPPORTED_PLATFORM"
        "Interactive authorization is unsupported on this platform"
    ∷ []

-- SAFE_FAULTS[3].
abbrev pub fallback : SafeFault
fallback = get_or safe_faults 3 (entry callback_protocol_error "" "" "")

-- The loop of GetSafeFault over what is left of the table.
pub search_fault : List SafeFault → AuthFault → SafeFault
search_fault [] fault = fallback
search_fault (e ∷ es) fault =
    if fault_value e.fault == fault_value fault then e else search_fault es fault

unfoldable pub get_safe_fault : AuthFault → SafeFault
unfolding search_fault fault_value
get_safe_fault fault = search_fault safe_faults fault

unfoldable pub format_safe_fault : AuthFault → Bytes
unfolding get_safe_fault
format_safe_fault fault =
    let safe = get_safe_fault fault in
    safe.code ++ (codes " " ++ (safe.symbol ++ (codes ": " ++ safe.message)))
