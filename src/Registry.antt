-- ===== src/Registry.antt =====
-- src/auth_session_registry.cpp: the sessions of an authorization and the stored credentials.
-- A call holds the registry's mutex while it changes the state, so a call is one step here; what
-- the clock reads and what the random source gives are arguments. A callback owner is the number
-- of its shared_ptr, and a reply lists the owners on which the call made StopAndJoin.
pub mod Map
pub mod State
pub mod Sessions
pub mod Credentials
pub mod Touch
pub mod Calls
pub mod Sweep
pub mod Valid
pub mod Limits
pub mod Eviction
pub mod Machine
pub mod Ownership
pub mod Gate
pub mod Refused
pub mod Vault
mod Examples
