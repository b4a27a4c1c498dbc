-- ===== src/Registry/Valid.antt =====
-- The registry's invariant, and that a change of one session keeps it.
pub mod Create
pub mod Store
use duckdb_data.Faults.{callback_protocol_error, session_expired, auth_session_limit_reached}
use duckdb_data.Pkce.Base64.{RandomSource, generate_opaque_id}
use duckdb_data.Registry.Map.{lookup, has, put, emplace, erase, erase_first, erase_if, count_if}
use duckdb_data.Registry.Map.Laws.{
  Distinct, put-Distinct, emplace-Distinct, erase-Distinct, erase_if-Distinct, erase_first-Distinct,
}
use duckdb_data.Registry.Map.Counts.{
  as_number, AllValues, AllValues-lookup, put-AllValues, emplace-AllValues, erase-AllValues,
  erase_if-AllValues, erase_first-AllValues, length-put, length-emplace-le, length-erase-le,
  length-erase_if-le, length-erase_first, count_if-put, count_if-emplace-le,
  count_if-erase_first-le, erase_first-none-count_if,
}
use duckdb_data.Registry.State.{
  Session, Credential, Registry, AuthStartRequest, Failure, session_error, Reply, reply, throw,
}
use duckdb_data.Registry.Sessions.{
  is_terminal, is_active, expire_locked, expire_all, evict, fresh_id, new_session, create_entry,
  create, create_with_ttl, ttl_request, store,
}
use duckdb_data.Registry.Sessions.Transitions.{SessionOk, Change, expire_locked-Change}
use duckdb_data.Registry.Credentials.{
  store_entry, store_credential, resolve_credential, remove_credential,
}
use duckdb_data.Registry.Sweep.{
  active_count, swept, swept-AllValues, swept-Distinct, active_count-swept-le, length-swept,
  evict_inv, evict-OnlyActive, fresh_id_free,
}
use duckdb_data.Registry.Touch.{
  Touches, snapshot-Touches, receive_callback-Touches, receive_denied-Touches,
  begin_completion-Touches, finish_authorized-Touches, finish_failed-Touches, fail-Touches,
  cancel-Touches, stop_callback-Touches,
}
use duckdb_data.Registry.Calls.{
  Call, creates, creates_with_ttl, snapshots, receives_callback, receives_denied, begins_completion,
  finishes_authorized, finishes_failed, fails, cancels, stops_callback, stores_credential,
  resolves_credential, removes_credential, step, run, empty_registry,
}
use duckdb_data.Base.{
  ◌≤◌, ◌≡◌, sym, subst, inl, inr, false, some, List, arith, length, Bytes, is_empty,
}

abbrev pub CredentialOk : Credential → Type 0
CredentialOk c = (is_empty c.instance_url ≡ false) × (is_empty c.access_token ≡ false)

pub record SessionsOk (m : List (Bytes × Session)) : Type 0 where
  pub each_ok : AllValues SessionOk m
  pub distinct : Distinct m
  pub few_active : active_count m ≤ 4
  pub few : length m ≤ 32

pub record CredentialsOk (m : List (Bytes × Credential)) : Type 0 where
  pub each_ok : AllValues CredentialOk m
  pub distinct : Distinct m
  pub few : length m ≤ 16

pub record IsValid (r : Registry) : Type 0 where
  pub sessions_ok : SessionsOk r.sessions
  pub credentials_ok : CredentialsOk r.credentials

-- A change of one session keeps it all.
pub put-SessionsOk :
    (m : List (Bytes × Session)) (id : Bytes) (s s' : Session)
    → lookup id m ≡ some s
    → Change s s'
    → SessionsOk m
    → SessionsOk (put id s' m)
put-SessionsOk m id s s' e c v = record {
  each_ok =
      put-AllValues SessionOk id s' m v.each_ok
        (c.keeps_ok (AllValues-lookup SessionOk id m v.each_ok e));
  distinct = put-Distinct id s' m v.distinct;
  few_active =
      omega
        (arith, count_if-put (λ x. is_active x.status) id s' s m e, c.keeps_inactive, v.few_active);
  few = omega (arith, length-put id s' m, v.few);
}

pub Touches-IsValid : (r r' : Registry) (id : Bytes) → Touches r id r' → IsValid r → IsValid r'
Touches-IsValid r r' id (inl e) v = subst IsValid (sym e) v
Touches-IsValid r r' id (inr (s, s', e, c, e')) v = subst IsValid (sym e') (record {
  sessions_ok = put-SessionsOk r.sessions id s s' e c v.sessions_ok;
  credentials_ok = v.credentials_ok;
})
