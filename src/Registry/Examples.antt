-- ===== src/Registry/Examples.antt =====
-- The theorems on the registry, applied to the history of one login.
use duckdb_data.Faults.{callback_protocol_error, reauth_required}
use duckdb_data.Pkce.Base64.{RandomSource, generate_opaque_id}
use duckdb_data.Pkce.Challenge.{constant_time_equals}
use duckdb_data.Registry.Map.{lookup}
use duckdb_data.Registry.State.{
  pending_user_action, callback_received, Session, Registry, AuthStartRequest, reply, session_error,
}
use duckdb_data.Registry.Sessions.{
  create, fresh_id, expire_locked, new_session, store, receive_callback, begin_completion,
}
use duckdb_data.Registry.Sessions.Transitions.{may_move, KeepsRequest}
use duckdb_data.Registry.Credentials.{store_credential, resolve_credential}
use duckdb_data.Registry.Calls.{
  Call, creates, snapshots, receives_callback, begins_completion, cancels, step, run,
  empty_registry,
}
use duckdb_data.Registry.Valid.{IsValid}
use duckdb_data.Registry.Limits.{run-IsValid}
use duckdb_data.Registry.Machine.{IsEvictedBy, step_moves}
use duckdb_data.Registry.Ownership.{IsOwned, run-IsOwned}
use duckdb_data.Registry.Gate.{
  Accepts, receive_callback_iff, material, completing_session, begin_completion_once,
}
use duckdb_data.Registry.Vault.{resolve-store_credential}
use duckdb_data.Base.{
  ◌≡◌, refl, ◌↔◌, ◌⊎◌, true, none, some, List, [], ◌∷◌, arith, Bytes, codes, bytes_eq, ok, err,
}

-- A source that fills every buffer with zeros, and the identifier that comes of it.
abbrev zeros : RandomSource
zeros call size = some (0 ∷ 0 ∷ 0 ∷ [])

abbrev id : Bytes
id = codes "AAAA"

abbrev request : AuthStartRequest
request = record {
  login_origin = codes "https://login.salesforce.com";
  client_id = codes "client";
  secret_name = codes "secret";
  expected_state = codes "state";
  pkce_verifier = codes "verifier";
  expires_at_monotonic_ms = 100;
  expires_at_utc_micros = 0;
  callback_owner = some 7;
}

abbrev waiting : Session
waiting = new_session request

abbrev received : Session
received = record waiting {
  authorization_code = codes "code";
  expected_state = [];
  status = callback_received;
}

abbrev with_one : Session → Registry
with_one s = record { sessions = (id, s) ∷ []; credentials = [] }

abbrev created : List Call
created = creates request 1 zeros ∷ []

abbrev handed_over : List Call
handed_over =
    creates request 1 zeros
    ∷ receives_callback id (codes "state") (codes "code") 2
    ∷ begins_completion id 3
    ∷ []

run-IsValid_example : IsValid (run empty_registry handed_over)
run-IsValid_example = run-IsValid handed_over

step_moves_example :
    ((s' : Session) × (lookup id (step (run empty_registry created) (cancels id)).sessions
        ≡ some s')
      × (may_move pending_user_action s'.status ≡ true)
      × KeepsRequest waiting s')
    ⊎ IsEvictedBy (cancels id) id waiting (step (run empty_registry created) (cancels id))
unfolding lookup run create fresh_id generate_opaque_id bytes_eq
step_moves_example =
    step_moves (run empty_registry created) (cancels id) id waiting (run-IsValid created) refl

run-IsOwned_example :
    IsOwned id (run (run empty_registry handed_over) (cancels id ∷ snapshots id 1000 ∷ []))
unfolding lookup run create fresh_id generate_opaque_id bytes_eq receive_callback begin_completion
    constant_time_equals expire_locked
run-IsOwned_example =
    run-IsOwned (run empty_registry handed_over) (cancels id ∷ snapshots id 1000 ∷ []) id
      (run-IsValid handed_over) (refl, (refl, tt)) (completing_session received, refl, refl)

receive_callback_iff_example :
    ((receive_callback (with_one waiting) id (codes "state") (codes "code") 2).outcome ≡ ok tt) ↔ (
      (s : Session) × (lookup id (with_one waiting).sessions ≡ some s)
      × Accepts s (codes "state") (codes "code") 2)
receive_callback_iff_example =
    receive_callback_iff (with_one waiting) id (codes "state") (codes "code") 2

-- The right state comes too late, and a completion too.
abbrev too_late : List Call
too_late =
    receives_callback id (codes "state") (codes "code") 3 ∷ begins_completion id 4 ∷ cancels id ∷ []

begin_completion_once_example :
    (begin_completion (with_one received) id 3
      ≡ reply
          (store (with_one received) id (completing_session received))
          []
          (ok (material received)))
    × ((begin_completion (begin_completion (with_one received) id 3).registry id 4).outcome
        ≡ err (session_error callback_protocol_error))
unfolding lookup bytes_eq
begin_completion_once_example =
    begin_completion_once (with_one received) id 3 4 received refl refl (omega arith)

resolve-store_credential_example :
    let r' =
      (store_credential empty_registry (codes "https://t") (codes "token") 50 1 2 zeros).registry in
    ((resolve_credential r' id 60).outcome ≡ err (session_error reauth_required))
    × (lookup id (resolve_credential r' id 60).registry.credentials ≡ none)
unfolding store_credential fresh_id generate_opaque_id
resolve-store_credential_example =
    resolve-store_credential empty_registry (codes "https://t") (codes "token") 50 1 2 60 zeros id
      refl
