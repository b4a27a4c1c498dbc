-- ===== src/Auth/Start.antt =====
-- src/auth_functions.cpp: AuthStartExecute. The listener's constructor and the start of its thread are
-- seen by whether they throw; the owner of both is a number.
use duckdb_data.Faults.{AuthFault, invalid_login_origin, callback_port_unavailable}
use duckdb_data.Pkce.Base64.{generate_pkce_verifier, generate_oauth_state}
use duckdb_data.Pkce.Challenge.{create_s256_challenge}
use duckdb_data.Pkce.Origin.{validate_salesforce_login_origin}
use duckdb_data.Pkce.Url.{fixed_oauth_callback_url, build_salesforce_authorization_url}
use duckdb_data.Query.Types.{add64}
use duckdb_data.Registry.State.{AuthStartRequest}
use duckdb_data.Registry.Sessions.{create, cancel}
use duckdb_data.Auth.Names.{validate_auth_client_id, validate_auth_secret_name}
use duckdb_data.Auth.World.{
  World, Host, Thrown, auth_fault, other_exception, Step, ◌>>=◌, ◌>>◌, pure, throw, on_registry,
}
use duckdb_data.Base.{
  ℕ, suc, ◌*◌, Bool, true, false, Option, none, some, if◌then◌else◌, Bytes, codes, Result, ok, err,
}

abbrev pub auth_ttl_ms : ℕ
auth_ttl_ms = 10 * 60 * 1000

pub record AuthStartRow : Type 0 where
  pub auth_id : Bytes
  pub authorization_url : Bytes
  pub expires_at : ℕ
  pub callback_url : Bytes
  pub status : Bytes

-- mbed TLS's digest, the UTC clock as its bit pattern, and what the listener does.
pub record Starter : Type 0 where
  pub sha256 : Bytes → Option Bytes
  pub utc_now_micros : ℕ → ℕ
  pub opens_listener : ℕ → Bool
  pub starts_thread : ℕ → Bool
  pub owner : ℕ

-- A result of code that does not touch the registry.
abbrev pub lifted : {E A : Type 0} → Thrown → Result E A → Step A
lifted thrown (ok a) w = (ok a, w)
lifted thrown (err e) w = (err thrown, w)

-- An AuthFaultException, thrown on.
abbrev pub checked : Result AuthFault (Unit {0}) → Step (Unit {0})
checked (ok t) w = (ok tt, w)
checked (err fault) w = (err (auth_fault fault), w)

abbrev pub throw_unless : Bool → Thrown → Step (Unit {0})
throw_unless true e w = (ok tt, w)
throw_unless false e w = (err e, w)

module _ (host : Host) (starter : Starter) where
  -- The checks of the arguments, the origin first. The InvalidInputException carries the fault's text.
  unfoldable pub check_arguments : Bytes → Bytes → Bytes → Step Bytes
  unfolding validate_auth_client_id validate_auth_secret_name
  check_arguments login_origin client_id secret_name = do
    origin ←
        lifted (auth_fault invalid_login_origin) (validate_salesforce_login_origin login_origin)
    checked (validate_auth_client_id client_id)
    checked (validate_auth_secret_name secret_name)
    pure origin

  abbrev pub open_listener : Step (Unit {0})
  open_listener w =
      throw_unless (starter.opens_listener w.turn) (auth_fault callback_port_unavailable) w

  abbrev pub random_or_throw : Option Bytes → Step Bytes
  random_or_throw none = throw other_exception
  random_or_throw (some value) = pure value

  -- The request for a session, with the times read at this turn.
  abbrev pub start_request : Bytes → Bytes → Bytes → Bytes → Bytes → World → AuthStartRequest
  start_request origin client_id secret_name state verifier w = record {
    login_origin = origin;
    client_id = client_id;
    secret_name = secret_name;
    expected_state = state;
    pkce_verifier = verifier;
    expires_at_monotonic_ms = add64 (host.now_ms w.turn) auth_ttl_ms;
    expires_at_utc_micros = add64 (starter.utc_now_micros w.turn) (auth_ttl_ms * 1000);
    callback_owner = some starter.owner;
  }

  -- Create, with the thread that is started for its session.
  unfoldable pub create_session : AuthStartRequest → Step Bytes
  unfolding on_registry
  create_session request w = on_registry host (λ r now. create r request now (host.random w.turn)) w

  unfoldable pub start_thread : Bytes → Step (Unit {0})
  unfolding on_registry
  start_thread auth_id w =
      if starter.starts_thread w.turn
      then (ok tt, w)
      else (on_registry host (λ r now. cancel r auth_id) >> throw other_exception) w

  abbrev pub start_row : Bytes → Bytes → AuthStartRequest → AuthStartRow
  start_row auth_id url request = record {
    auth_id = auth_id;
    authorization_url = url;
    expires_at = request.expires_at_utc_micros;
    callback_url = fixed_oauth_callback_url;
    status = codes "PENDING_USER_ACTION";
  }

  -- From the random values on.
  unfoldable pub start_login : Bytes → Bytes → Bytes → Bytes → Bytes → Bytes → Step AuthStartRow
  unfolding create_session start_thread
  start_login origin client_id secret_name verifier state challenge w =
      let request = start_request origin client_id secret_name state verifier w in
      (create_session request >>= λ auth_id.
      start_thread auth_id
      >> (lifted other_exception (
            build_salesforce_authorization_url origin client_id challenge state
              fixed_oauth_callback_url)
          >>= λ url. pure (start_row auth_id url request)))
        (record w { turn = suc w.turn })

  unfoldable pub auth_start_execute : Bytes → Bytes → Bytes → Step AuthStartRow
  unfolding check_arguments start_login
  auth_start_execute login_origin client_id secret_name w =
      (do
        origin ← check_arguments login_origin client_id secret_name
        open_listener
        verifier ← random_or_throw (generate_pkce_verifier (host.random w.turn) 0)
        state ← random_or_throw (generate_oauth_state (host.random w.turn) 1)
        challenge ← lifted other_exception (create_s256_challenge starter.sha256 verifier)
        start_login origin client_id secret_name verifier state challenge)
        w
