-- ===== src/Registry/State.antt =====
-- The registry's data. Times are uint64_t; the int64_t `expires_at_utc_micros` is only carried, as
-- its bit pattern. A std::string that was moved from, and one that SecureClear has wiped, is empty.
use duckdb_data.Faults.{AuthFault}
use duckdb_data.Pkce.Error.{OauthError}
use duckdb_data.Base.{ℕ, Option, none, some, List, [], ◌∷◌, Bytes, Result, err}

pub data AuthSessionStatus : Type 0 where
  pending_user_action callback_received completing authorized : AuthSessionStatus
  access_denied expired cancelled failed : AuthSessionStatus

pub record Session : Type 0 where
  pub status : AuthSessionStatus
  pub expected_state : Bytes
  pub pkce_verifier : Bytes
  pub authorization_code : Bytes
  pub login_origin : Bytes
  pub client_id : Bytes
  pub secret_name : Bytes
  pub expires_at_ms : ℕ
  pub expires_at_utc_micros : ℕ
  pub fault : Option AuthFault
  pub callback_owner : Option ℕ

pub record Credential : Type 0 where
  pub instance_url : Bytes
  pub access_token : Bytes
  pub expires_at_ms : ℕ

pub record Registry : Type 0 where
  pub sessions : List (Bytes × Session)
  pub credentials : List (Bytes × Credential)

pub record AuthStartRequest : Type 0 where
  pub login_origin : Bytes
  pub client_id : Bytes
  pub secret_name : Bytes
  pub expected_state : Bytes
  pub pkce_verifier : Bytes
  pub expires_at_monotonic_ms : ℕ
  pub expires_at_utc_micros : ℕ
  pub callback_owner : Option ℕ

pub record AuthSessionSnapshot : Type 0 where
  pub status : AuthSessionStatus
  pub secret_name : Bytes
  pub expires_at_utc_micros : ℕ
  pub fault : Option AuthFault

pub record AuthCompletionMaterial : Type 0 where
  pub authorization_code : Bytes
  pub pkce_verifier : Bytes
  pub login_origin : Bytes
  pub client_id : Bytes
  pub secret_name : Bytes

pub record QueryCredentials : Type 0 where
  pub instance_url : Bytes
  pub access_token : Bytes

-- What a call throws: an AuthSessionError, or the OAuthError of the random source.
pub data Failure : Type 0 where
  session_error : AuthFault → Failure
  oauth_error : OauthError → Failure

-- What a call leaves behind: the registry, the owners stopped, and its value or exception.
pub record Reply {ℓ} (A : Type ℓ) : Type ℓ where
  pub registry : Registry
  pub stopped : List ℕ
  pub outcome : Result Failure A

abbrev pub owner_list : Option ℕ → List ℕ
owner_list none = []
owner_list (some owner) = owner ∷ []

abbrev pub reply {ℓ} : {A : Type ℓ} → Registry → List ℕ → Result Failure A → Reply A
reply r stopped outcome = record { registry = r; stopped = stopped; outcome = outcome }

-- throw AuthSessionError(fault), with nothing stopped.
abbrev pub throw {ℓ} : {A : Type ℓ} → Registry → AuthFault → Reply A
throw r fault = reply r [] (err (session_error fault))
