-- ===== src/Registry/Refused.antt =====
-- A session whose callback was refused, through all later calls.
use duckdb_data.Registry.Map.{lookup}
use duckdb_data.Registry.State.{failed, Session, Registry}
use duckdb_data.Registry.Sessions.Transitions.{IsWiped}
use duckdb_data.Base.{◌≡◌, ◌≢◌, none, some, Bytes}

-- The session under `id` has failed, with a fault and no secrets left.
abbrev pub HasFailed : Bytes → Registry → Type 0
HasFailed id r =
    (s : Session) × (lookup id r.sessions ≡ some s)
    × (s.status ≡ failed)
    × (s.fault ≢ none)
    × IsWiped s
