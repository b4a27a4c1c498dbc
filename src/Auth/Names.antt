-- ===== src/Auth/Names.antt =====
-- src/auth_functions.cpp: ValidateAuthClientId, ValidateAuthSecretName and ProjectAuthStatus;
-- src/auth_session_registry.cpp: AuthStatusName.
use duckdb_data.Faults.{AuthFault, invalid_client_id, secret_name_invalid, get_safe_fault}
use duckdb_data.Registry.State.{
  AuthSessionStatus, pending_user_action, callback_received, completing, authorized, access_denied,
  expired, cancelled, failed, AuthSessionSnapshot,
}
use duckdb_data.Base.{
  ℕ, Bool, false, not, ◌||◌, none, some, [], ◌∷◌, ltb, ◌==◌, length, Bytes, codes, is_empty, all_of,
  is_upper, is_lower, is_alnum, ◌>>◌, throw_if, Result,
}

unfoldable pub validate_auth_client_id : Bytes → Result AuthFault (Unit {0})
unfolding all_of
validate_auth_client_id value = do
  throw_if (is_empty value || ltb 512 (length value)) invalid_client_id
  throw_if (not (all_of (λ c. is_alnum c || c == b'.' || c == b'_' || c == b'-') value))
      invalid_client_id

-- The first byte of a secret's name.
abbrev pub starts_name : Bytes → Bool
starts_name [] = false
starts_name (c ∷ value) = is_upper c || is_lower c || c == b'_'

unfoldable pub validate_auth_secret_name : Bytes → Result AuthFault (Unit {0})
unfolding all_of
validate_auth_secret_name value = do
  throw_if (is_empty value || ltb 128 (length value) || not (starts_name value)) secret_name_invalid
  throw_if (not (all_of (λ c. is_alnum c || c == b'_') value)) secret_name_invalid

unfoldable pub auth_status_name : AuthSessionStatus → Bytes
auth_status_name pending_user_action = codes "PENDING_USER_ACTION"
auth_status_name callback_received = codes "CALLBACK_RECEIVED"
auth_status_name completing = codes "CALLBACK_RECEIVED"
auth_status_name authorized = codes "AUTHORIZED"
auth_status_name access_denied = codes "ACCESS_DENIED"
auth_status_name expired = codes "EXPIRED"
auth_status_name cancelled = codes "CANCELLED"
auth_status_name failed = codes "FAILED"

pub record AuthStatusRow : Type 0 where
  pub auth_id : Bytes
  pub status : Bytes
  pub expires_at_utc_micros : ℕ
  pub error_code : Bytes
  pub message : Bytes

unfoldable pub project_auth_status : Bytes → AuthSessionSnapshot → AuthStatusRow
unfolding auth_status_name get_safe_fault
project_auth_status auth_id snapshot = record {
  auth_id = auth_id;
  status = auth_status_name snapshot.status;
  expires_at_utc_micros = snapshot.expires_at_utc_micros;
  error_code = elim snapshot.fault [ none ↦ [] | some fault ↦ (get_safe_fault fault).code ];
  message = elim snapshot.fault [ none ↦ [] | some fault ↦ (get_safe_fault fault).message ];
}
