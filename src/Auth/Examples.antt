-- ===== src/Auth/Examples.antt =====
-- The theorems on the login functions, applied.
use duckdb_data.Pkce.Base64.{RandomSource, generate_opaque_id}
use duckdb_data.Pkce.Challenge.{constant_time_equals}
use duckdb_data.Registry.State.{AuthStartRequest, AuthCompletionMaterial, Credential}
use duckdb_data.Registry.Sessions.{begin_completion, receive_callback, create, fresh_id}
use duckdb_data.Registry.Calls.{Call, creates, receives_callback, run, empty_registry}
use duckdb_data.Registry.Limits.{run-IsValid}
use duckdb_data.Salesforce.Types.{pos, throws_otherwise}
use duckdb_data.Callback.Types.{callback_timed_out}
use duckdb_data.Callback.Listener.{listener, wait_for_callback}
use duckdb_data.Auth.World.{World, Host, on_registry}
use duckdb_data.Auth.Secret.{Catalog, replace_if_found, install_temporary_session_secret}
use duckdb_data.Auth.Secret.Installed.{IsCommitted, IsUndone, install_credentials}
use duckdb_data.Auth.Callback.{process_auth_callback}
use duckdb_data.Auth.Callback.Settles.{IsSettled, process_auth_callback_settles}
use duckdb_data.Auth.Complete.{Network, complete_callback}
use duckdb_data.Auth.Complete.Ends.{EndsOrThrows, complete_callback_ends}
use duckdb_data.Base.{
  ℕ, ◌≡◌, refl, ◌⊎◌, true, false, none, some, List, [], ◌∷◌, Bytes, codes, bytes_eq, ok, err,
}

abbrev zeros : RandomSource
zeros call size = some (0 ∷ 0 ∷ 0 ∷ [])

abbrev id : Bytes
id = codes "AAAA"

abbrev request : AuthStartRequest
request = record {
  login_origin = codes "https://login.salesforce.com";
  client_id = codes "client";
  secret_name = codes "secret";
  expected_state = codes "state";
  pkce_verifier = codes "verifier";
  expires_at_monotonic_ms = 100;
  expires_at_utc_micros = 0;
  callback_owner = some 7;
}

abbrev called_back : List Call
called_back = creates request 1 zeros ∷ receives_callback id (codes "state") (codes "code") 2 ∷ []

abbrev at_start : World
at_start = record {
  registry = run empty_registry called_back;
  stopped = [];
  secrets = [];
  asked = [];
  turn = 0;
}

abbrev quiet : Host
quiet = record {
  now_ms = λ t. 3;
  is_interrupted = λ t. false;
  random = λ t. zeros;
  others = λ t. [];
}

-- A network on which the exchange fails.
abbrev failing : Network ℕ
failing = record {
  opens = λ t. true;
  json = record {
    read = λ body. none;
    is_obj = λ v. false;
    members = λ v. [];
    elements = λ v. none;
    get = λ v name. none;
    as_str = λ v. none;
    as_uint = λ v. none;
    as_bool = λ v. none;
    is_null = λ v. false;
  };
  provider = λ t. record {
    is_cancelled = λ u. false;
    now_ms = λ u. 3;
    utc_now_micros = λ u. pos 0;
    send = λ u q. throws_otherwise;
  };
}

abbrev catalog : Catalog
catalog = record {
  find = λ t name. ok (
      some (record {
        kind = codes "data360";
        provider = codes "oauth_pkce";
        session_id = some (codes "old");
      }));
  replace = λ t name credential_id. ok tt;
}

abbrev handed : AuthCompletionMaterial
handed = record {
  authorization_code = codes "code";
  pkce_verifier = codes "verifier";
  login_origin = codes "https://login.salesforce.com";
  client_id = codes "client";
  secret_name = codes "secret";
}

complete_callback_ends_example :
    EndsOrThrows id quiet (complete_callback quiet failing catalog id (codes "secret") at_start)
unfolding run on_registry begin_completion receive_callback create fresh_id generate_opaque_id
    bytes_eq constant_time_equals
complete_callback_ends_example =
    complete_callback_ends id quiet failing catalog (codes "secret") at_start handed (λ t. tt)
      (λ t h. h) (run-IsValid called_back) refl

process_auth_callback_settles_example :
    IsSettled id
      (process_auth_callback quiet id (err callback_timed_out) 1000 listener at_start).1.registry
unfolding wait_for_callback
process_auth_callback_settles_example =
    process_auth_callback_settles id quiet (err callback_timed_out) 1000 listener at_start
      (λ h. cc h)

abbrev credential : Credential
credential = record {
  instance_url = codes "https://t.c360a.salesforce.com";
  access_token = codes "token";
  expires_at_ms = 100;
}

-- Both credentials are in the registry.
abbrev holding : World
holding = record at_start {
  registry = record {
    sessions = [];
    credentials = (codes "old", credential) ∷ (codes "new", credential) ∷ [];
  };
}

install_credentials_example :
    let c =
      replace_if_found
        (catalog.find 0 (codes "secret"))
        (catalog.replace 1 (codes "secret") (codes "new")) in
    let x = install_temporary_session_secret quiet catalog (codes "secret") (codes "new") holding in
    ((c ≡ ok tt) × IsCommitted (codes "secret") (codes "new") (codes "old") (codes "old") holding x)
    ⊎ ((c ≡ err tt) × IsUndone (codes "new") (codes "old") (codes "old") holding x)
unfolding bytes_eq
install_credentials_example =
    install_credentials quiet catalog (λ t. refl) (codes "secret") (codes "new") (codes "old")
      holding
