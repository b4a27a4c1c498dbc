-- ===== src/Salesforce/Types.antt =====
-- src/include/data360/salesforce_oauth_provider.hpp, and how the exchange calls its environment.
use duckdb_data.Faults.{AuthFault}
use duckdb_data.Query.Types.{HttpRequest, HttpResponse}
use duckdb_data.Base.{ℕ, Bool, true, false, List, Bytes, Result, ok, err}

-- int64_t.
pub data ℤ : Type 0 where
  pos negsuc : ℕ → ℤ

pub record Data360Capability : Type 0 where
  pub tenant_url : Bytes
  pub access_token : Bytes
  pub expires_at_monotonic_ms : ℕ
  pub expires_at_utc_micros : ℤ

-- Without `utc_now_micros`, which is part of the environment.
pub record OauthExchangeOptions : Type 0 where
  pub request_timeout_ms : ℕ
  pub max_response_bytes : ℕ
  pub default_ttl_seconds : ℕ
  pub expiry_skew_seconds : ℕ

-- What the transport does: it answers, or it throws an AuthFaultException, another std::exception
-- with its text, or anything else.
pub data Sent : Type 0 where
  answered : HttpResponse → Sent
  throws_fault : AuthFault → Sent
  throws_exception : Bytes → Sent
  throws_otherwise : Sent

-- The transport, the runtime hooks and the UTC clock, each asked at its turn.
pub record Provider : Type 0 where
  pub is_cancelled : ℕ → Bool
  pub now_ms : ℕ → ℕ
  pub utc_now_micros : ℕ → ℤ
  pub send : ℕ → HttpRequest → Sent

-- The turn reached, and the requests sent, the last one first.
pub record Trace : Type 0 where
  pub turn : ℕ
  pub sent : List HttpRequest

-- A call: a result or an AuthFaultException, and the trace that it leaves.
abbrev pub Call : Type 0 → Type 0
Call A = Trace → Result AuthFault A × Trace

abbrev pub chain :
    {A B : Type 0} → Result AuthFault A × Trace → (A → Call B) → Result AuthFault B × Trace
chain (ok a, w) f = f a w
chain (err e, w) f = (err e, w)

infixl 5 ◌>>=◌ ◌>>◌
abbrev pub ◌>>=◌ : {A B : Type 0} → Call A → (A → Call B) → Call B
◌>>=◌ m f w = chain (m w) f

abbrev pub ◌>>◌ : {B : Type 0} → Call (Unit {0}) → Call B → Call B
m >> k = m >>= λ _. k

-- A step that asks nothing of the environment.
abbrev pub settled : {A : Type 0} → Result AuthFault A → Call A
settled r w = (r, w)

abbrev pub throw_when : Bool → AuthFault → Call (Unit {0})
throw_when true e w = (err e, w)
throw_when false e w = (ok tt, w)
