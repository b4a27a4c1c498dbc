-- ===== src/Registry/Calls.antt =====
-- Any call on the registry, and a history of calls. A history stands for any interleaving of the
-- threads that call, since each call holds the mutex throughout.
use duckdb_data.Faults.{AuthFault}
use duckdb_data.Pkce.Base64.{RandomSource}
use duckdb_data.Registry.State.{Registry, AuthStartRequest}
use duckdb_data.Registry.Sessions.{
  create, create_with_ttl, snapshot, receive_callback, receive_denied, begin_completion,
  finish_authorized, finish_failed, fail, cancel, stop_callback,
}
use duckdb_data.Registry.Credentials.{store_credential, resolve_credential, remove_credential}
use duckdb_data.Base.{ℕ, Option, List, [], ◌∷◌, Bytes}

pub data Call : Type 0 where
  creates : AuthStartRequest → ℕ → RandomSource → Call
  creates_with_ttl : Bytes → Bytes → ℕ → Option ℕ → ℕ → ℕ → RandomSource → Call
  snapshots : Bytes → ℕ → Call
  receives_callback : Bytes → Bytes → Bytes → ℕ → Call
  receives_denied : Bytes → Bytes → ℕ → Call
  begins_completion : Bytes → ℕ → Call
  finishes_authorized : Bytes → Call
  finishes_failed : Bytes → AuthFault → Call
  fails : Bytes → AuthFault → Call
  cancels : Bytes → Call
  stops_callback : Bytes → Call
  stores_credential : Bytes → Bytes → ℕ → ℕ → ℕ → RandomSource → Call
  resolves_credential : Bytes → ℕ → Call
  removes_credential : Bytes → Call

unfoldable pub step : Registry → Call → Registry
step r (creates q now random) = (create r q now random).registry
step r (creates_with_ttl state verifier ttl owner now later random) =
    (create_with_ttl r state verifier ttl owner now later random).registry
step r (snapshots id now) = (snapshot r id now).registry
step r (receives_callback id state code now) = (receive_callback r id state code now).registry
step r (receives_denied id state now) = (receive_denied r id state now).registry
step r (begins_completion id now) = (begin_completion r id now).registry
step r (finishes_authorized id) = (finish_authorized r id).registry
step r (finishes_failed id fault) = (finish_failed r id fault).registry
step r (fails id fault) = (fail r id fault).registry
step r (cancels id) = (cancel r id).registry
step r (stops_callback id) = (stop_callback r id).registry
step r (stores_credential url token expiry before now random) =
    (store_credential r url token expiry before now random).registry
step r (resolves_credential id now) = (resolve_credential r id now).registry
step r (removes_credential id) = (remove_credential r id).registry

unfoldable pub run : Registry → List Call → Registry
unfolding step
run r [] = r
run r (c ∷ cs) = run (step r c) cs

abbrev pub empty_registry : Registry
empty_registry = record { sessions = []; credentials = [] }
