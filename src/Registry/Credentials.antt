-- ===== src/Registry/Credentials.antt =====
-- The calls on credentials.
use duckdb_data.Faults.{reauth_required, auth_session_limit_reached}
use duckdb_data.Pkce.Base64.{RandomSource}
use duckdb_data.Registry.Map.{lookup, emplace, erase, erase_if}
use duckdb_data.Registry.Sessions.{fresh_id}
use duckdb_data.Registry.State.{
  Credential, Registry, QueryCredentials, Failure, Reply, reply, throw,
}
use duckdb_data.Base.{
  ℕ, ◌||◌, none, some, List, [], ◌∷◌, leb, if◌then◌else◌, length, Bytes, is_empty, Result, ok, err,
}

-- From `std::string id` on.
unfoldable pub store_entry : Registry → Credential → Result Failure Bytes → Reply Bytes
unfolding emplace
store_entry r c (err e) = reply r [] (err e)
store_entry r c (ok []) = throw r auth_session_limit_reached
store_entry r c (ok (x ∷ id)) =
    reply (record r { credentials = emplace (x ∷ id) c r.credentials }) [] (ok (x ∷ id))

abbrev pub live : ℕ → List (Bytes × Credential) → List (Bytes × Credential)
live now = erase_if λ c. leb c.expires_at_ms now

-- The clock is read before the lock and again under it.
unfoldable pub store_credential : Registry → Bytes → Bytes → ℕ → ℕ → ℕ → RandomSource → Reply Bytes
unfolding store_entry erase_if
store_credential r instance_url access_token expires_at_ms before now random =
    let r' = record r { credentials = live now r.credentials } in
    let value : Credential = record {
      instance_url = instance_url;
      access_token = access_token;
      expires_at_ms = expires_at_ms;
    } in
    if is_empty instance_url || is_empty access_token || leb expires_at_ms before
    then throw r reauth_required
    else if leb 16 (length (live now r.credentials))
    then throw r' auth_session_limit_reached
    else store_entry r' value (fresh_id 16 0 random r')

unfoldable pub resolve_credential : Registry → Bytes → ℕ → Reply QueryCredentials
unfolding lookup erase
resolve_credential r credential_id now = elim (lookup credential_id r.credentials) [
  | none ↦ throw r reauth_required
  | some c ↦
      if leb c.expires_at_ms now
      then throw (record r { credentials = erase credential_id r.credentials }) reauth_required
      else reply r [] (ok (record { instance_url = c.instance_url; access_token = c.access_token }))
]

unfoldable pub remove_credential : Registry → Bytes → Reply (Unit {0})
unfolding erase
remove_credential r credential_id =
    reply (record r { credentials = erase credential_id r.credentials }) [] (ok tt)
