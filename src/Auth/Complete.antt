-- ===== src/Auth/Complete.antt =====
-- src/auth_functions.cpp: RecordAuthCompletionFailure, AuthCompleteExecute, AuthStatusExecute and
-- AuthCancel. `emitted`, which makes a second call of the same scan give no row, is DuckDB's cursor
-- and not modelled.
pub mod Kept
pub mod Ends
use duckdb_data.Faults.{AuthFault, token_exchange_failed}
use duckdb_data.Json.{Json}
use duckdb_data.Registry.State.{
  AuthSessionStatus, callback_received, AuthSessionSnapshot, AuthCompletionMaterial,
}
use duckdb_data.Registry.Sessions.{
  snapshot, begin_completion, finish_authorized, finish_failed, cancel, is_callback_received,
}
use duckdb_data.Registry.Credentials.{store_credential}
use duckdb_data.Salesforce.Types.{Data360Capability, OauthExchangeOptions, Provider}
use duckdb_data.Salesforce.Exchange.{exchange}
use duckdb_data.Auth.Names.{AuthStatusRow, project_auth_status}
use duckdb_data.Auth.World.{
  World, Host, Thrown, auth_fault, interrupt, other_exception, Step, ◌>>=◌, ◌>>◌, pure, throw,
  on_registry, ask_now, ask_interrupted, ignoring,
}
use duckdb_data.Auth.Secret.{Catalog, install_temporary_session_secret, remove}
use duckdb_data.Base.{
  ℕ, suc, ◌*◌, Bool, true, false, [], ◌∷◌, if◌then◌else◌, Bytes, Result, ok, err,
}

-- The fault that a failure is recorded as.
abbrev pub recorded_fault : Thrown → AuthFault
recorded_fault (auth_fault fault) = fault
recorded_fault _ = token_exchange_failed

abbrev pub default_options : OauthExchangeOptions
default_options = record {
  request_timeout_ms = 30000;
  max_response_bytes = 64 * 1024;
  default_ttl_seconds = 900;
  expiry_skew_seconds = 30;
}

-- Whether the libcurl transport is made, and the exchange's environment, at each turn.
pub record Network (V : Type 0) : Type 0 where
  pub opens : ℕ → Bool
  pub json : Json V
  pub provider : ℕ → Provider

-- The try block from the exchange on: the identifier of the credential, empty as long as none is
-- stored, and how the block ends.
pub record Attempt : Type 0 where
  pub credential_id : Bytes
  pub ended : Result Thrown (Unit {0})
  pub world : World

module _ {V : Type 0} (host : Host) (network : Network V) (catalog : Catalog) where
  -- The constructors of the transport and of the provider, and the exchange.
  unfoldable pub exchange_material : AuthCompletionMaterial → Step Data360Capability
  exchange_material material w =
      let answer =
        (exchange network.json (network.provider w.turn) default_options material
          (record { turn = 0; sent = [] })).0 in
      (
        elim (network.opens w.turn) [
          | false ↦ err other_exception
          | true ↦ elim answer [
            | ok capability ↦ ok capability
            | err fault ↦ err (auth_fault fault)
          ]
        ],
        record w { turn = suc w.turn },
      )

  -- The clock was read before the lock.
  unfoldable pub store_at : Data360Capability → ℕ → Step Bytes
  unfolding on_registry
  store_at c before w =
      on_registry host
        (λ r now.
          store_credential r c.tenant_url c.access_token c.expires_at_monotonic_ms before now
            (host.random w.turn))
        w

  unfoldable pub store_capability : Data360Capability → Step Bytes
  unfolding store_at
  store_capability c = do before ← ask_now host; store_at c before

  -- Behind StoreCredential.
  unfoldable pub install_and_finish : Bytes → Bytes → Bytes → Step (Unit {0})
  unfolding install_temporary_session_secret on_registry
  install_and_finish auth_id secret_name credential_id =
      install_temporary_session_secret host catalog secret_name credential_id
      >> on_registry host (λ r now. finish_authorized r auth_id)

  abbrev pub attempt_stored : Bytes → Bytes → Result Thrown Bytes × World → Attempt
  attempt_stored auth_id secret_name (err e, w) = record {
    credential_id = [];
    ended = err e;
    world = w;
  }
  attempt_stored auth_id secret_name (ok credential_id, w) =
      let (ended, w') = install_and_finish auth_id secret_name credential_id w in
      record { credential_id = credential_id; ended = ended; world = w' }

  unfoldable pub attempt : Bytes → Bytes → AuthCompletionMaterial → World → Attempt
  unfolding exchange_material store_capability install_and_finish
  attempt auth_id secret_name material w =
      attempt_stored auth_id secret_name ((exchange_material material >>= store_capability) w)

  abbrev pub fail_completion : Bytes → AuthFault → Step (Unit {0})
  fail_completion auth_id fault =
      ignoring (on_registry host (λ r now. finish_failed r auth_id fault))

  -- RecordAuthCompletionFailure, called with a failure.
  unfoldable pub record_auth_completion_failure : Bytes → Thrown → Step (Unit {0})
  unfolding on_registry
  record_auth_completion_failure auth_id failure = do
    stop ← ask_interrupted host
    if stop then throw interrupt else fail_completion auth_id (recorded_fault failure)

  abbrev pub fail_if : Bool → Bytes → Step (Unit {0})
  fail_if true auth_id = fail_completion auth_id token_exchange_failed
  fail_if false auth_id = pure tt

  abbrev pub remove_if_stored : Bytes → Step (Unit {0})
  remove_if_stored [] = pure tt
  remove_if_stored (c ∷ credential_id) = remove host catalog (c ∷ credential_id)

  -- The handler of the caller that began the completion, behind the removal of its credential.
  unfoldable pub finalize : Bytes → Thrown → Step (Unit {0})
  unfolding record_auth_completion_failure on_registry
  finalize auth_id failure = do
    stop ← ask_interrupted host
    fail_if stop auth_id
    record_auth_completion_failure auth_id failure

  unfoldable pub handle_failure : Bytes → Bytes → Thrown → Step (Unit {0})
  unfolding finalize on_registry
  handle_failure auth_id credential_id failure =
      remove_if_stored credential_id >> finalize auth_id failure

  abbrev pub handled : Bytes → Attempt → Result Thrown (Unit {0}) × World
  handled auth_id a = elim a.ended [
    | ok t ↦ (ok t, a.world)
    | err failure ↦ handle_failure auth_id a.credential_id failure a.world
  ]

  -- The try block behind BeginCompletion, with its handler.
  unfoldable pub complete_owned : Bytes → Bytes → AuthCompletionMaterial → Step (Unit {0})
  unfolding attempt handle_failure
  complete_owned auth_id secret_name material w =
      handled auth_id (attempt auth_id secret_name material w)

  -- The whole try block. A completion that another caller owns is left to that caller.
  abbrev pub begun :
      Bytes
      → Bytes
      → Result Thrown AuthCompletionMaterial × World
      → Result Thrown (Unit {0}) × World
  begun auth_id secret_name (err e, w) = (ok tt, w)
  begun auth_id secret_name (ok material, w) = complete_owned auth_id secret_name material w

  unfoldable pub complete_callback : Bytes → Bytes → Step (Unit {0})
  unfolding complete_owned on_registry
  complete_callback auth_id secret_name w =
      begun auth_id secret_name (on_registry host (λ r now. begin_completion r auth_id now) w)

  abbrev pub take_snapshot : Bytes → Step AuthSessionSnapshot
  take_snapshot auth_id = on_registry host (λ r now. snapshot r auth_id now)

  unfoldable pub auth_complete_execute : Bytes → Step (Bytes × AuthStatusRow)
  unfolding complete_callback on_registry project_auth_status
  auth_complete_execute auth_id = do
    before ← take_snapshot auth_id
    after ←
        if is_callback_received before.status
        then complete_callback auth_id before.secret_name >> take_snapshot auth_id
        else pure before
    pure (after.secret_name, project_auth_status auth_id after)

  unfoldable pub auth_status_execute : Bytes → Step AuthStatusRow
  unfolding on_registry project_auth_status
  auth_status_execute auth_id = do
    shown ← take_snapshot auth_id
    pure (project_auth_status auth_id shown)

  unfoldable pub auth_cancel : Bytes → Step Bool
  unfolding on_registry
  auth_cancel auth_id = on_registry host (λ r now. cancel r auth_id) >> pure true
