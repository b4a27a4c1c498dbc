-- ===== src/Registry/Limits.antt =====
-- The limits of the registry and the contents of its sessions, after any history of calls.
use duckdb_data.Registry.Map.{count_if}
use duckdb_data.Registry.State.{Registry}
use duckdb_data.Registry.Credentials.{remove_credential}
use duckdb_data.Registry.Touch.{
  snapshot-Touches, receive_callback-Touches, receive_denied-Touches, begin_completion-Touches,
  finish_authorized-Touches, finish_failed-Touches, fail-Touches, cancel-Touches,
  stop_callback-Touches,
}
use duckdb_data.Registry.Calls.{
  Call, creates, creates_with_ttl, snapshots, receives_callback, receives_denied, begins_completion,
  finishes_authorized, finishes_failed, fails, cancels, stops_callback, stores_credential,
  resolves_credential, removes_credential, step, run, empty_registry,
}
use duckdb_data.Registry.Valid.{IsValid, Touches-IsValid}
use duckdb_data.Registry.Valid.Create.{create-IsValid, create_with_ttl-IsValid}
use duckdb_data.Registry.Valid.Store.{
  store_credential-IsValid, resolve_credential-IsValid, erase-IsValid,
}
use duckdb_data.Base.{List, [], ◌∷◌, arith}

-- Every call keeps the invariant.
pub step-IsValid : (r : Registry) (c : Call) → IsValid r → IsValid (step r c)
unfolding step
step-IsValid r (creates q now random) v = create-IsValid r q now random v
step-IsValid r (creates_with_ttl state verifier ttl owner now later random) v =
    create_with_ttl-IsValid r state verifier ttl owner now later random v
step-IsValid r (snapshots id now) v = Touches-IsValid r _ id (snapshot-Touches r id now) v
step-IsValid r (receives_callback id state code now) v =
    Touches-IsValid r _ id (receive_callback-Touches r id state code now) v
step-IsValid r (receives_denied id state now) v =
    Touches-IsValid r _ id (receive_denied-Touches r id state now) v
step-IsValid r (begins_completion id now) v =
    Touches-IsValid r _ id (begin_completion-Touches r id now) v
step-IsValid r (finishes_authorized id) v =
    Touches-IsValid r _ id (finish_authorized-Touches r id) v
step-IsValid r (finishes_failed id fault) v =
    Touches-IsValid r _ id (finish_failed-Touches r id fault) v
step-IsValid r (fails id fault) v = Touches-IsValid r _ id (fail-Touches r id fault) v
step-IsValid r (cancels id) v = Touches-IsValid r _ id (cancel-Touches r id) v
step-IsValid r (stops_callback id) v = Touches-IsValid r _ id (stop_callback-Touches r id) v
step-IsValid r (stores_credential url token expiry before now random) v =
    store_credential-IsValid r url token expiry before now random v
step-IsValid r (resolves_credential id now) v = resolve_credential-IsValid r id now v
step-IsValid r (removes_credential id) v = unfold remove_credential in erase-IsValid r id v

run_from-IsValid : (r : Registry) (cs : List Call) → IsValid r → IsValid (run r cs)
unfolding run
run_from-IsValid r [] v = v
run_from-IsValid r (c ∷ cs) v = run_from-IsValid (step r c) cs (step-IsValid r c v)

-- After any history of calls on an empty registry, there are at most 32 sessions, at most 4 of them
-- active, and at most 16 credentials, all under distinct identifiers; the secrets of each session are
-- those that its status allows (none once it has ended or is completing), its fault is the one that
-- its status tells, and no credential lacks its URL or its token.
pub run-IsValid : (cs : List Call) → IsValid (run empty_registry cs)
run-IsValid cs = run_from-IsValid empty_registry cs empty_valid
  where
    empty_valid : IsValid empty_registry
    empty_valid = record {
      sessions_ok = record {
        each_ok = tt;
        distinct = tt;
        few_active = unfold count_if in omega arith;
        few = omega arith;
      };
      credentials_ok = record { each_ok = tt; distinct = tt; few = omega arith };
    }
